-- ===== src/HttpPool.antt =====
-- gocache/lrucache/http.go: the handler of a node, and its choice of a peer. `none` is a panic.
-- Logging, and the client side that calls `http.Get`, are left out.
pub mod Handler
mod Tests
use go_example.Prelude.{
  ◌>>=◌, ℕ, not, ◌&&◌, Option, none, some, List, [], ◌∷◌, ◌++◌, ◌==◌, if◌then◌else◌,
}
use go_example.Prelude.Dict.{Str, str_eq, lookup, insert}
use go_example.ConsistentHash
use go_example.ConsistentHash.{Map}
use go_example.Group
use go_example.Group.{Registry, Reply, view, key_is_empty, getter_error, clone_bytes}

abbrev pub slash : ℕ
slash = b'/'

-- "/_geecache/"
abbrev pub default_base_path : Str
default_base_path = b'/' ∷ b'_' ∷ b'g' ∷ b'e' ∷ b'e' ∷ b'c' ∷ b'a' ∷ b'c' ∷ b'h' ∷ b'e' ∷ b'/' ∷ []

abbrev pub default_replicas : ℕ
default_replicas = 50

-- `httpGetters` has the base URL of each peer's getter.
pub record HttpPool : Type 0 where
  pub self : Str
  pub base_path : Str
  pub peers : Option Map
  pub http_getters : List (Str × Str)

unfoldable pub new_http_pool : Str → HttpPool
new_http_pool self = record {
  self = self;
  base_path = default_base_path;
  peers = none;
  http_getters = [];
}

-- `strings.HasPrefix`, with what follows the prefix.
unfoldable pub after_prefix : Str → Str → Option Str
after_prefix [] s = some s
after_prefix (p ∷ prefix) [] = none
after_prefix (p ∷ prefix) (c ∷ s) = if p == c then after_prefix prefix s else none

-- `strings.SplitN(s, "/", 2)`; `none` where there are fewer than two parts.
unfoldable pub split_slash : Str → Option (Str × Str)
split_slash [] = none
split_slash (c ∷ s) =
    let rest = split_slash s in
    if c == slash then some ([], s) else (do (before, after) ← rest; some (c ∷ before, after))

-- The statuses 200, 400, 404 and 500; the message of the last is the error's.
pub data Response : Type 0 where
  ok : List ℕ → Response
  bad_request : Response
  no_such_group : Str → Response
  internal_error : Reply → Response

unfoldable pub respond : Reply → Response
respond (view v) = ok (clone_bytes v.b)
respond key_is_empty = internal_error key_is_empty
respond (getter_error e) = internal_error (getter_error e)

-- The handler after the split. A group is shared: what `Get` does to it shows in the registry.
unfoldable pub serve_group : Registry → Option (Str × Str) → Option (Registry × Response)
serve_group groups none = some (groups, bad_request)
serve_group groups (some (name, key)) = elim (Group.get_group groups name) [
  | none ↦ some (groups, no_such_group name)
  | some group ↦ do
    (group', reply) ← Group.get group key
    some (insert name group' groups, respond reply)
]

unfoldable pub serve_http : HttpPool → Registry → Str → Option (Registry × Response)
serve_http p groups path = do
  rest ← after_prefix p.base_path path
  serve_group groups (split_slash rest)

unfoldable pub peer_getters : Str → List Str → List (Str × Str)
peer_getters base [] = []
peer_getters base (peer ∷ peers) = insert peer (peer ++ base) (peer_getters base peers)

-- `Set`. The map of the ring is made with no hash function.
unfoldable pub set_peers : HttpPool → List Str → Option HttpPool
set_peers p peers = do
  m ← ConsistentHash.add (ConsistentHash.new default_replicas none) peers
  some (record p { peers = some m; http_getters = peer_getters p.base_path peers })

-- The getter of the peer, `none` for `(nil, false)`; the zero value of a missing getter is kept as
-- an empty option in the result.
unfoldable pub pick_peer : HttpPool → Str → Option (Option (Option Str))
pick_peer p key = do
  m ← p.peers
  peer ← ConsistentHash.get m key
  some (
      if str_eq peer [] && not (str_eq peer p.self)
      then some (lookup peer p.http_getters)
      else none)
