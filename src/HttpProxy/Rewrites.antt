-- ===== src/HttpProxy/Rewrites.antt =====
-- net/proxy/http_proxy.go: what a rewritten request says of the client, and its joined path.
use go_example.Prelude.{
  Bool, true, false, Option, none, some, List, [], ◌∷◌, ◌++◌, ◌==◌, ◌≡◌, refl, sym, ap, ◌∙◌, arith,
  if◌then◌else◌, if_elim,
}
use go_example.Prelude.Dict.{Str, str_eq, str_eq_iff, lookup, insert, lookup-insert, lookup-delete}
use go_example.HttpProxy.{
  Header, Url, Request, Env, x_forwarded_for, forwarded, x_forwarded_host, x_forwarded_proto,
  copy_values, copy_key, copy_forwarded_header, join_comma, append_client, forward_client,
  has_suffix_slash, has_prefix_slash, rest_of, joined, single_joining_slash, rewrite, move_key,
  move_web_socket, clean_web_socket_headers, is_web_socket_upgrade, cleaned,
}

-- A path without a slash at its end, and one without a slash at its begin.
abbrev pub without_last : Str → Str
without_last [] = []
without_last (c ∷ []) = if c == 47 then [] else c ∷ []
without_last (c ∷ d ∷ s) = c ∷ without_last (d ∷ s)

abbrev pub without_first : Str → Str
without_first [] = []
without_first (c ∷ s) = if c == 47 then s else c ∷ s

last_slash : (a : Str) → has_suffix_slash a ≡ true → (b : Str) → a ++ b ≡ without_last a ++ (47 ∷ b)
last_slash [] e b = absurd (cc)
last_slash (c ∷ []) e b = ground (arith, e)
last_slash (c ∷ d ∷ s) e b = ap (◌∷◌ c) (last_slash (d ∷ s) e b)

no_last_slash : (a : Str) → has_suffix_slash a ≡ false → without_last a ≡ a
no_last_slash [] e = refl
no_last_slash (c ∷ []) e = ground (arith, e)
no_last_slash (c ∷ d ∷ s) e = ap (◌∷◌ c) (no_last_slash (d ∷ s) e)

first_slash : (b : Str) → has_prefix_slash b ≡ true → without_first b ≡ rest_of b
first_slash [] e = absurd (cc)
first_slash (c ∷ s) e = ground (arith, e)

first_slash_cons : (b : Str) → has_prefix_slash b ≡ true → b ≡ 47 ∷ without_first b
first_slash_cons [] e = absurd (cc)
first_slash_cons (c ∷ s) e = ground (arith, e)

no_first_slash : (b : Str) → has_prefix_slash b ≡ false → without_first b ≡ b
no_first_slash [] e = refl
no_first_slash (c ∷ s) e = ground (arith, e)

joined_lem :
    (x y : Bool) (a b : Str)
    → has_suffix_slash a ≡ x
    → has_prefix_slash b ≡ y
    → joined x y a b ≡ without_last a ++ (47 ∷ without_first b)
unfolding joined
joined_lem true true a b e f =
    last_slash a e (rest_of b) ∙ ap (λ s. without_last a ++ (47 ∷ s)) (sym (first_slash b f))
joined_lem true false a b e f =
    last_slash a e b ∙ ap (λ s. without_last a ++ (47 ∷ s)) (sym (no_first_slash b f))
joined_lem false true a b e f =
    ap (λ s. s ++ b) (sym (no_last_slash a e))
    ∙ ap (λ s. without_last a ++ s) (first_slash_cons b f)
joined_lem false false a b e f =
    ap (λ s. s ++ (47 ∷ b)) (sym (no_last_slash a e))
    ∙ ap (λ s. without_last a ++ (47 ∷ s)) (sym (no_first_slash b f))

-- Two paths are joined by exactly one of the slashes at the end of the first and the begin of the second:
-- the first one without a last slash, a slash, and the second one without a first slash.
pub single_joining_slash-one :
    (a b : Str) → single_joining_slash a b ≡ without_last a ++ (47 ∷ without_first b)
unfolding single_joining_slash
single_joining_slash-one a b = joined_lem (has_suffix_slash a) (has_prefix_slash b) a b refl refl

-- The values that the backend sees under `X-Forwarded-For`, for those of the request.
abbrev pub seen_values : Str → Option (Option (List Str)) → Option (Option (List Str))
seen_values ip none = some (some (ip ∷ []))
seen_values ip (some none) = some none
seen_values ip (some (some [])) = some (some (ip ∷ []))
seen_values ip (some (some (x ∷ xs))) = some (some ((join_comma x xs ++ (44 ∷ 32 ∷ ip)) ∷ []))

copy_away :
    (k j : Str) (src dst : Header) (o : Option (Option (List Str)))
    → str_eq k j ≡ false
    → lookup j (copy_values k o dst) ≡ lookup j dst
unfolding copy_values
copy_away k j src dst none e = refl
copy_away k j src dst (some v) e = lookup-insert k j v dst ∙ rw e

copy_here :
    (k : Str) (dst : Header) (o : Option (Option (List Str)))
    → lookup k dst ≡ none
    → lookup k (copy_values k o dst) ≡ o
unfolding copy_values
copy_here k dst none e = e
copy_here k dst (some v) e = lookup-insert k k v dst ∙ rw ((str_eq_iff k k).1 refl)

-- The other keys are not `X-Forwarded-For`.
copied_lem :
    (dst src : Header)
    → lookup x_forwarded_for dst ≡ none
    → lookup x_forwarded_for (copy_forwarded_header dst src) ≡ lookup x_forwarded_for src
unfolding copy_forwarded_header copy_key str_eq
copied_lem dst src e =
    let d1 = copy_values x_forwarded_for (lookup x_forwarded_for src) dst in
    let d2 = copy_values forwarded (lookup forwarded src) d1 in
    let d3 = copy_values x_forwarded_host (lookup x_forwarded_host src) d2 in
    copy_away x_forwarded_proto x_forwarded_for src d3 (lookup x_forwarded_proto src) refl
    ∙ copy_away x_forwarded_host x_forwarded_for src d2 (lookup x_forwarded_host src) refl
    ∙ copy_away forwarded x_forwarded_for src d1 (lookup forwarded src) refl
    ∙ copy_here x_forwarded_for dst (lookup x_forwarded_for src) e

append_lem :
    (ip : Str) (o : Option (Option (List Str))) (h : Header)
    → lookup x_forwarded_for h ≡ o
    → lookup x_forwarded_for (append_client ip o h) ≡ seen_values ip o
unfolding append_client
append_lem ip none h e =
    lookup-insert x_forwarded_for x_forwarded_for (some (ip ∷ [])) h
    ∙ rw ((str_eq_iff x_forwarded_for x_forwarded_for).1 refl)
append_lem ip (some none) h e = e
append_lem ip (some (some [])) h e =
    lookup-insert x_forwarded_for x_forwarded_for (some (ip ∷ [])) h
    ∙ rw ((str_eq_iff x_forwarded_for x_forwarded_for).1 refl)
append_lem ip (some (some (x ∷ xs))) h e =
    lookup-insert x_forwarded_for x_forwarded_for (some ((join_comma x xs ++ (44 ∷ 32 ∷ ip)) ∷ []))
      h
    ∙ rw ((str_eq_iff x_forwarded_for x_forwarded_for).1 refl)

move_away :
    (old new j : Str) (h : Header)
    → str_eq old j ≡ false
    → str_eq new j ≡ false
    → lookup j (move_key old new h) ≡ lookup j h
unfolding move_key
move_away old new j h e f =
    lookup-delete old j (insert new _ h) ∙ rw e (lookup-insert new j _ h ∙ rw f)

-- No key of WebSocket is `X-Forwarded-For`, whose first letter is another one.
move_web_socket-away :
    (name : Str) (h : Header)
    → lookup x_forwarded_for (move_web_socket name h) ≡ lookup x_forwarded_for h
unfolding move_web_socket str_eq
move_web_socket-away name h = move_away _ _ x_forwarded_for h refl refl

cleaned_lem :
    (env : Env) (h : Header) → lookup x_forwarded_for (cleaned env h) ≡ lookup x_forwarded_for h
unfolding cleaned clean_web_socket_headers
cleaned_lem env h =
    if_elim (λ (g : Header). lookup x_forwarded_for g ≡ lookup x_forwarded_for h)
      (is_web_socket_upgrade env h)
      (λ _.
        move_web_socket-away _ _
        ∙ move_web_socket-away _ _
        ∙ move_web_socket-away _ _
        ∙ move_web_socket-away _ _
        ∙ move_web_socket-away _ h)
      (λ _. refl)

-- Where the outgoing request comes without `X-Forwarded-For` and the appending is not switched off, the
-- backend sees under it the values of the client's request in one, with the client's address at
-- the end; only a key with nil values stays as it is.
pub rewrite-seen_values :
    (env : Env) (target : Url) (pass_host preserve_path : Bool) (inc out : Request) (ip : Str)
    → lookup x_forwarded_for out.header ≡ none
    → env.split_host inc.remote_addr ≡ some ip
    → lookup x_forwarded_for (rewrite env target pass_host preserve_path false inc out).header
      ≡ seen_values ip (lookup x_forwarded_for inc.header)
unfolding rewrite forward_client
rewrite-seen_values env target pass_host preserve_path inc out ip e f =
    let h = copy_forwarded_header out.header inc.header in
    let c = copied_lem out.header inc.header e in
    cleaned_lem env (forward_client (env.split_host inc.remote_addr) h)
    ∙ ap (λ o. lookup x_forwarded_for (forward_client o h)) f
    ∙ append_lem ip (lookup x_forwarded_for h) h refl
    ∙ ap (seen_values ip) c
