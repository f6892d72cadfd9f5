-- ===== src/ConsistentHash.antt =====
-- gocache/lrucache/consistenthash/consistenthash.go. `sort.Ints` is an insertion sort, and
-- `sort.Search` on the sorted keys gives the first index that passes the test. A map from hashes
-- to nodes is a function, with the empty string at a hash that it does not have.
pub mod Owner
pub mod Nodes
mod Tests
use go_example.Prelude.{
  ◌>>=◌, ℕ, zero, suc, Option, some, List, [], ◌∷◌, ◌++◌, leb, ◌==◌, if◌then◌else◌, length,
  get_elem?, rem,
}
use go_example.Prelude.Dict.{Str}

-- `Hash`; `none` is nil. A hash is a number below 2^32, which `int` holds.
pub record Map : Type 0 where
  pub hash : Option (Str → ℕ)
  pub replicas : ℕ
  pub keys : List ℕ
  pub hash_map : ℕ → Str

-- The test of `fn` comes after the fields are set, so the default that it assigns to `fn` is lost.
unfoldable pub new : ℕ → Option (Str → ℕ) → Map
new replicas fn = record { hash = fn; replicas = replicas; keys = []; hash_map = λ _. [] }

-- `m.hashMap[hash] = key`
unfoldable pub set_node : ℕ → Str → (ℕ → Str) → ℕ → Str
set_node hash key nodes h = if h == hash then key else nodes h

unfoldable pub insert_sorted : ℕ → List ℕ → List ℕ
insert_sorted x [] = x ∷ []
insert_sorted x (y ∷ ys) = let rest = insert_sorted x ys in if leb x y then x ∷ y ∷ ys else y ∷ rest

unfoldable pub sort_ints : List ℕ → List ℕ
sort_ints [] = []
sort_ints (x ∷ xs) = insert_sorted x (sort_ints xs)

-- The inner loop of `Add`, with the rounds left. A call of a nil function panics.
unfoldable pub add_replicas : ℕ → Str → Map → Option Map
add_replicas zero key m = some m
add_replicas (suc rounds) key m = do
  fn ← m.hash
  let hash = fn key
  add_replicas rounds key
      (record m { keys = m.keys ++ (hash ∷ []); hash_map = set_node hash key m.hash_map })

unfoldable pub add_nodes : List Str → Map → Option Map
add_nodes [] m = some m
add_nodes (key ∷ nodes) m = do m' ← add_replicas m.replicas key m; add_nodes nodes m'

unfoldable pub add : Map → List Str → Option Map
add m nodes = do m' ← add_nodes nodes m; some (record m' { keys = sort_ints m'.keys })

-- `sort.Search(len(m.keys), func(i int) bool { return m.keys[i] >= hash })`
unfoldable pub search_keys : ℕ → List ℕ → ℕ
search_keys hash [] = 0
search_keys hash (k ∷ ks) = if leb hash k then 0 else suc (search_keys hash ks)

unfoldable pub get : Map → Str → Option Str
get m key = if length m.keys == 0 then some [] else (do
  fn ← m.hash
  i ← rem (search_keys (fn key) m.keys) (length m.keys)
  h ← get_elem? m.keys i
  some (m.hash_map h))
