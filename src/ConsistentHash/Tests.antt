-- ===== src/ConsistentHash/Tests.antt =====
-- A ring of gocache/lrucache/consistenthash on concrete data, and the witnesses of its theorems.
use go_example.Prelude.{ℕ, ◌≡◌, refl, ◌≢◌, none, some, [], ◌∷◌, arith}
use mathlib.Core.Option
use go_example.Prelude.Dict.{Str}
use go_example.ConsistentHash.{
  Map, new, set_node, insert_sorted, sort_ints, add_replicas, add_nodes, add, search_keys, get,
}
use go_example.ConsistentHash.Owner.{Next}
use go_example.ConsistentHash.Nodes.{IsValid, add-IsValid, get-Next, add-new_nil}

program : Unit {0}
unfolding new set_node insert_sorted sort_ints add_replicas add_nodes add search_keys get
program = tt

-- A text hashes to its first byte.
first_byte : Str → ℕ
first_byte [] = 0
first_byte (c ∷ s) = c

abbrev node : ℕ → Str
node c = c ∷ []

abbrev ring : Map
ring = record {
  hash = some first_byte;
  replicas = 2;
  keys = 20 ∷ 20 ∷ 40 ∷ 40 ∷ [];
  hash_map = set_node 20 (node 20) (set_node 40 (node 40) (λ _. []));
}

abbrev Named : Str → Type 0
Named s = s ≢ []

ring-IsValid : IsValid first_byte Named ring
unfolding program first_byte
ring-IsValid = record {
  hash = refl;
  sorted = omega arith;
  owned = (
    (refl, λ e. ground arith),
    ((refl, λ e. ground arith), ((refl, λ e. ground arith), ((refl, λ e. ground arith), tt))),
  );
}

built :
    Option.map (λ m. m.keys) (add (new 2 (some first_byte)) (node 40 ∷ node 20 ∷ []))
    ≡ some ring.keys
unfolding program first_byte
built = refl

lookups :
    (get ring (node 30) ≡ some (node 40))
    × (get ring (node 20) ≡ some (node 20))
    × (get ring (node 41) ≡ some (node 20))
unfolding program first_byte
lookups = (refl, refl, refl)

get-Next_example :
    (owner : Str) × (get ring (node 30) ≡ some owner)
    × (owner ≢ [])
    × Next (first_byte (node 30)) (first_byte owner) ring.keys
get-Next_example = get-Next first_byte Named ring (node 30) (λ e. ground arith) ring-IsValid

add-IsValid_example : (m' : Map) × (add ring (node 30 ∷ []) ≡ some m') × IsValid first_byte Named m'
add-IsValid_example =
    add-IsValid first_byte Named ring (node 30 ∷ []) ((λ e. ground arith), tt) ring-IsValid

add-new_nil_example : add (new 50 none) (node 20 ∷ []) ≡ none
add-new_nil_example = add-new_nil 49 (node 20) []
