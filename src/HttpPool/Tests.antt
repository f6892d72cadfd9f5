-- ===== src/HttpPool/Tests.antt =====
-- Requests to gocache/lrucache/http.go on concrete data, and the witnesses of its theorems.
use go_example.Prelude.{ℕ, ◌≡◌, refl, false, none, some, [], ◌∷◌, ◌++◌, arith, if◌then◌else◌}
use go_example.Prelude.Dict.{Str, str_eq, lookup, insert}
use go_example.Prelude.Int.{pos}
use go_example.ConsistentHash.{Map, set_node}
use go_example.ConsistentHash.Nodes
use go_example.Group
use go_example.Group.{Getter, bytes, failed}
use go_example.Group.Reads
use go_example.HttpPool.{
  HttpPool, new_http_pool, default_base_path, slash, ok, serve_http, bad_request, no_such_group,
  after_prefix, split_slash, serve_group,
}
use go_example.HttpPool.Handler.{serve_http-reply_of}

program : Unit {0}
unfolding new_http_pool after_prefix split_slash serve_group serve_http Group.get_group lookup
    insert str_eq
program = tt

abbrev source : Getter
source key = bytes (b'v' ∷ key)

abbrev name : Str
name = b's' ∷ []

abbrev scores : Group.Group
scores = record {
  name = name;
  getter = source;
  main_cache = record { lru = none; cache_bytes = pos 64 };
}

abbrev groups : Group.Registry
groups = (name, scores) ∷ []

refusals :
    (serve_http (new_http_pool []) groups (default_base_path ++ name) ≡ some (groups, bad_request))
    × (serve_http (new_http_pool []) groups (default_base_path ++ (b't' ∷ slash ∷ name))
        ≡ some (groups, no_such_group (b't' ∷ [])))
    × (serve_http (new_http_pool []) groups name ≡ none)
unfolding program
refusals = (refl, refl, refl)

serve_http-reply_of_example :
    (g' : Group.Group) × (serve_http
        (new_http_pool [])
        groups
        (default_base_path ++ (name ++ (slash ∷ b'k' ∷ [])))
      ≡ some (insert name g' groups, ok (b'v' ∷ b'k' ∷ [])))
    × Reads.IsValid source 64 g'
    × ((j : Str)
        → Group.get_group (insert name g' groups) j
          ≡ (if str_eq name j then some g' else Group.get_group groups j))
unfolding program
serve_http-reply_of_example =
    serve_http-reply_of source 64 [] name b'k' [] groups scores (omega arith) refl
      (record { getter = refl; limit = refl; ready = tt })

first_byte : Str → ℕ
first_byte [] = 0
first_byte (c ∷ s) = c

abbrev ring : Map
ring = record {
  hash = some first_byte;
  replicas = 1;
  keys = 20 ∷ [];
  hash_map = set_node 20 (20 ∷ []) (λ _. []);
}

abbrev pool : HttpPool
pool = record {
  self = 40 ∷ [];
  base_path = default_base_path;
  peers = some ring;
  http_getters = (20 ∷ [], []) ∷ [];
}

ring-IsValid : Nodes.IsValid first_byte (λ s. str_eq s [] ≡ false) ring
unfolding set_node first_byte str_eq
ring-IsValid = record { hash = refl; sorted = omega arith; owned = ((refl, refl), tt) }
