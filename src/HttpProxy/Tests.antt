-- ===== src/HttpProxy/Tests.antt =====
-- Runs of the proxy of net/proxy/http_proxy.go, and the witnesses of its theorems.
use go_example.Prelude.{true, false, none, some, [], ◌∷◌, ◌++◌, ◌≡◌, refl}
use go_example.Prelude.Dict.{lookup}
use go_example.HttpProxy.{
  Url, Request, Env, x_forwarded_for, single_joining_slash, joined, join_url_path, rewrite,
  target_url, source_url,
}
use go_example.HttpProxy.Rewrites.{
  without_last, without_first, single_joining_slash-one, seen_values, rewrite-seen_values,
}

-- An address is its host here, and no URI parses.
abbrev plain_env : Env
plain_env = record {
  split_host = λ s. some s;
  parse_request_uri = λ s. none;
  escaped_path = λ u. u.path;
  contains_token = λ xs x. false;
  equal_fold = λ x y. false;
}

abbrev backend : Url
backend = record {
  scheme = [];
  host = 98 ∷ [];
  path = 47 ∷ 97 ∷ 47 ∷ [];
  raw_path = [];
  raw_query = [];
}

abbrev asked : Url
asked = record {
  scheme = [];
  host = [];
  path = 47 ∷ 120 ∷ [];
  raw_path = [];
  raw_query = 49 ∷ 59 ∷ 50 ∷ [];
}

-- A request from 9, which names a client 7, and its outgoing copy.
abbrev incoming : Request
incoming = record {
  header = (x_forwarded_for, some ((7 ∷ []) ∷ [])) ∷ [];
  url = asked;
  request_uri = [];
  host = 99 ∷ [];
  remote_addr = 9 ∷ [];
}

abbrev outgoing : Request
outgoing = record incoming { header = [] }

no_header : lookup x_forwarded_for outgoing.header ≡ none
unfolding lookup
no_header = refl

rewrite-seen_values_example :
    lookup x_forwarded_for (rewrite plain_env backend false true false incoming outgoing).header
    ≡ seen_values (9 ∷ []) (lookup x_forwarded_for incoming.header)
rewrite-seen_values_example =
    rewrite-seen_values plain_env backend false true incoming outgoing (9 ∷ []) no_header refl

-- Under `/a/` the path `/x` is `/a/x`, and the semicolon of the query becomes an ampersand.
joined_url :
    target_url plain_env backend true outgoing
    ≡ record backend { path = 47 ∷ 97 ∷ 47 ∷ 120 ∷ []; raw_query = 49 ∷ 38 ∷ 50 ∷ [] }
unfolding target_url source_url join_url_path single_joining_slash joined
joined_url = refl

single_joining_slash-one_example :
    single_joining_slash (47 ∷ 97 ∷ 47 ∷ []) (47 ∷ 120 ∷ [])
    ≡ without_last (47 ∷ 97 ∷ 47 ∷ []) ++ (47 ∷ without_first (47 ∷ 120 ∷ []))
single_joining_slash-one_example = single_joining_slash-one (47 ∷ 97 ∷ 47 ∷ []) (47 ∷ 120 ∷ [])
