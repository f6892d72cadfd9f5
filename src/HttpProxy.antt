-- ===== src/HttpProxy.antt =====
-- net/proxy/http_proxy.go: the headers and the path of a forwarded request. What net/url and net/http do
-- comes in by a record of functions.
pub mod Rewrites
mod Tests
use go_example.Prelude.{
  ℕ, Bool, true, false, not, ◌&&◌, Option, none, some, List, [], ◌∷◌, ◌++◌, ◌==◌, if◌then◌else◌,
}
use go_example.Prelude.Dict.{Str, lookup, insert, delete}

-- `http.Header`; a nil slice of values is `none`.
abbrev pub Header : Type 0
Header = List (Str × Option (List Str))

pub record Url : Type 0 where
  pub scheme : Str
  pub host : Str
  pub path : Str
  pub raw_path : Str
  pub raw_query : Str

-- The parts of a request that the proxy reads or writes.
pub record Request : Type 0 where
  pub header : Header
  pub url : Url
  pub request_uri : Str
  pub host : Str
  pub remote_addr : Str

-- `net.SplitHostPort` with the host, `url.ParseRequestURI` and `EscapedPath`, where `none` is an error,
-- `httpguts.HeaderValuesContainsToken` and `strings.EqualFold`.
pub record Env : Type 0 where
  pub split_host : Str → Option Str
  pub parse_request_uri : Str → Option Url
  pub escaped_path : Url → Str
  pub contains_token : List Str → Str → Bool
  pub equal_fold : Str → Str → Bool

abbrev pub x_forwarded_for : Str
x_forwarded_for =
    88 ∷ 45 ∷ 70 ∷ 111 ∷ 114 ∷ 119 ∷ 97 ∷ 114 ∷ 100 ∷ 101 ∷ 100 ∷ 45 ∷ 70 ∷ 111 ∷ 114 ∷ []

abbrev pub forwarded : Str
forwarded = 70 ∷ 111 ∷ 114 ∷ 119 ∷ 97 ∷ 114 ∷ 100 ∷ 101 ∷ 100 ∷ []

abbrev pub x_forwarded_host : Str
x_forwarded_host =
    88 ∷ 45 ∷ 70 ∷ 111 ∷ 114 ∷ 119 ∷ 97 ∷ 114 ∷ 100 ∷ 101 ∷ 100 ∷ 45 ∷ 72 ∷ 111 ∷ 115 ∷ 116 ∷ []

abbrev pub x_forwarded_proto : Str
x_forwarded_proto =
    88 ∷ 45 ∷ 70 ∷ 111 ∷ 114 ∷ 119 ∷ 97 ∷ 114 ∷ 100 ∷ 101 ∷ 100 ∷ 45 ∷ 80 ∷ 114 ∷ 111 ∷ 116 ∷ 111
    ∷ []

-- A copy of the values of a key, where the source has it.
unfoldable pub copy_values : Str → Option (Option (List Str)) → Header → Header
copy_values k none dst = dst
copy_values k (some prior) dst = insert k prior dst

unfoldable pub copy_key : Str → Header → Header → Header
copy_key k src dst = copy_values k (lookup k src) dst

-- `copyForwardedHeader`
unfoldable pub copy_forwarded_header : Header → Header → Header
copy_forwarded_header dst src =
    copy_key x_forwarded_proto src
      (copy_key x_forwarded_host src (copy_key forwarded src (copy_key x_forwarded_for src dst)))

-- `strings.Join(prior, ", ")`
abbrev pub join_comma : Str → List Str → Str
join_comma x [] = x
join_comma x (y ∷ ys) = x ++ (44 ∷ 32 ∷ join_comma y ys)

-- The header with the address of the client, for the values that it has.
unfoldable pub append_client : Str → Option (Option (List Str)) → Header → Header
append_client ip none h = insert x_forwarded_for (some (ip ∷ [])) h
append_client ip (some none) h = h
append_client ip (some (some [])) h = insert x_forwarded_for (some (ip ∷ [])) h
append_client ip (some (some (x ∷ xs))) h =
    insert x_forwarded_for (some ((join_comma x xs ++ (44 ∷ 32 ∷ ip)) ∷ [])) h

unfoldable pub forward_client : Option Str → Header → Header
forward_client none h = h
forward_client (some ip) h = append_client ip (lookup x_forwarded_for h) h

abbrev pub has_suffix_slash : Str → Bool
has_suffix_slash [] = false
has_suffix_slash (c ∷ []) = c == 47
has_suffix_slash (c ∷ d ∷ s) = has_suffix_slash (d ∷ s)

abbrev pub has_prefix_slash : Str → Bool
has_prefix_slash [] = false
has_prefix_slash (c ∷ s) = c == 47

-- `s[1:]`, of a string that is not empty.
abbrev pub rest_of : Str → Str
rest_of [] = []
rest_of (c ∷ s) = s

-- Two paths for the tests of their escaped forms.
unfoldable pub joined : Bool → Bool → Str → Str → Str
joined true true a b = a ++ rest_of b
joined true false a b = a ++ b
joined false true a b = a ++ b
joined false false a b = a ++ (47 ∷ b)

-- `singleJoiningSlash`
unfoldable pub single_joining_slash : Str → Str → Str
single_joining_slash a b = joined (has_suffix_slash a) (has_prefix_slash b) a b

abbrev is_blank : Str → Bool
is_blank [] = true
is_blank (c ∷ s) = false

-- `JoinURLPath`
unfoldable pub join_url_path : Env → Url → Url → Str × Str
join_url_path env a b =
    if is_blank a.raw_path && is_blank b.raw_path
    then (single_joining_slash a.path b.path, [])
    else let x = env.escaped_path a in
      let y = env.escaped_path b in
      let s = has_suffix_slash x in
      let p = has_prefix_slash y in (joined s p a.path b.path, joined s p x y)

-- `strings.ReplaceAll(q, ";", "&")`
abbrev replace_semicolons : Str → Str
replace_semicolons [] = []
replace_semicolons (c ∷ q) = (if c == 59 then 38 else c) ∷ replace_semicolons q

-- The URL that the path and the query come from.
abbrev parsed_or : Url → Option Url → Url
parsed_or u none = u
parsed_or u (some v) = v

unfoldable pub source_url : Env → Request → Url
source_url env out =
    if is_blank out.request_uri
    then out.url
    else parsed_or out.url (env.parse_request_uri out.request_uri)

-- The URL of the forwarded request.
unfoldable pub target_url : Env → Url → Bool → Request → Url
target_url env target preserve_path out =
    let u = source_url env out in
    let (path, raw) = if preserve_path then join_url_path env target u else (u.path, u.raw_path) in
    record {
      scheme = target.scheme;
      host = target.host;
      path = path;
      raw_path = raw;
      raw_query = replace_semicolons u.raw_query;
    }

abbrev connection : Str
connection = 67 ∷ 111 ∷ 110 ∷ 110 ∷ 101 ∷ 99 ∷ 116 ∷ 105 ∷ 111 ∷ 110 ∷ []

abbrev upgrade : Str
upgrade = 85 ∷ 112 ∷ 103 ∷ 114 ∷ 97 ∷ 100 ∷ 101 ∷ []

abbrev websocket : Str
websocket = 119 ∷ 101 ∷ 98 ∷ 115 ∷ 111 ∷ 99 ∷ 107 ∷ 101 ∷ 116 ∷ []

abbrev sec_websocket : Str
sec_websocket = 83 ∷ 101 ∷ 99 ∷ 45 ∷ 87 ∷ 101 ∷ 98 ∷ 115 ∷ 111 ∷ 99 ∷ 107 ∷ 101 ∷ 116 ∷ 45 ∷ []

abbrev sec_web_socket : Str
sec_web_socket = 83 ∷ 101 ∷ 99 ∷ 45 ∷ 87 ∷ 101 ∷ 98 ∷ 83 ∷ 111 ∷ 99 ∷ 107 ∷ 101 ∷ 116 ∷ 45 ∷ []

abbrev key : Str
key = 75 ∷ 101 ∷ 121 ∷ []

abbrev extensions : Str
extensions = 69 ∷ 120 ∷ 116 ∷ 101 ∷ 110 ∷ 115 ∷ 105 ∷ 111 ∷ 110 ∷ 115 ∷ []

abbrev accept : Str
accept = 65 ∷ 99 ∷ 99 ∷ 101 ∷ 112 ∷ 116 ∷ []

abbrev protocol : Str
protocol = 80 ∷ 114 ∷ 111 ∷ 116 ∷ 111 ∷ 99 ∷ 111 ∷ 108 ∷ []

abbrev version : Str
version = 86 ∷ 101 ∷ 114 ∷ 115 ∷ 105 ∷ 111 ∷ 110 ∷ []

-- `header[k]`, nil where it is missing, and `Get`, the first of its values.
abbrev values_of : Option (Option (List Str)) → Option (List Str)
values_of none = none
values_of (some v) = v

abbrev list_of : Option (List Str) → List Str
list_of none = []
list_of (some xs) = xs

abbrev first_of : List Str → Str
first_of [] = []
first_of (x ∷ xs) = x

-- The values of a key moved to another one; a missing key leaves nil there.
unfoldable pub move_key : Str → Str → Header → Header
move_key old new h = delete old (insert new (values_of (lookup old h)) h)

unfoldable pub move_web_socket : Str → Header → Header
move_web_socket name h = move_key (sec_websocket ++ name) (sec_web_socket ++ name) h

-- `cleanWebSocketHeaders`
unfoldable pub clean_web_socket_headers : Header → Header
clean_web_socket_headers h = move_web_socket version (
    move_web_socket protocol
      (move_web_socket accept (move_web_socket extensions (move_web_socket key h))))

-- `isWebSocketUpgrade`
unfoldable pub is_web_socket_upgrade : Env → Header → Bool
is_web_socket_upgrade env h =
    env.contains_token (list_of (values_of (lookup connection h))) upgrade
    && env.equal_fold (first_of (list_of (values_of (lookup upgrade h)))) websocket

unfoldable pub cleaned : Env → Header → Header
cleaned env h = if is_web_socket_upgrade env h then clean_web_socket_headers h else h

-- The function of `rewriteRequestBuilder`: of the request `inc` and its outgoing copy `out`, from which
-- net/http has taken the forwarding headers.
unfoldable pub rewrite : Env → Url → Bool → Bool → Bool → Request → Request → Request
rewrite env target pass_host preserve_path no_xff inc out =
    let h = copy_forwarded_header out.header inc.header in
    let h' = if no_xff then h else forward_client (env.split_host inc.remote_addr) h in
    record {
      header = cleaned env h';
      url = target_url env target preserve_path out;
      request_uri = [];
      host = if pass_host then out.host else target.host;
      remote_addr = out.remote_addr;
    }
