-- ===== src/ConsistentHash/Nodes.antt =====
-- Which node `Get` of gocache/lrucache/consistenthash/consistenthash.go picks.
use go_example.Prelude.{
  ℕ, zero, suc, ◌+◌, ◌%◌, ◌≤◌, ◌≡◌, refl, sym, ap, ◌∙◌, ◌≢◌, none, some, List, [], ◌∷◌, ◌++◌, arith,
  ℕ_discrete, ==_iff, length, get_elem?, length-append, All, All-map, All-append, All-get_elem?,
  ◌>>=◌, ne→==_false,
}
use mathlib.Core.Path.{subst}
use go_example.Prelude.Dict.{Str}
use go_example.ConsistentHash.{
  Map, new, set_node, sort_ints, add_replicas, add_nodes, add, search_keys, get,
}
use go_example.ConsistentHash.Owner.{
  IsSorted, All-sort_ints, sort_ints-IsSorted, Next, search_keys-Next,
}

pos_length : (l : List ℕ) → l ≢ [] → length l ≢ 0
pos_length [] h = absurd (h refl)
pos_length (x ∷ l) h = omega arith

search_keys_nonempty :
    (t : ℕ) (l : List ℕ)
    → IsSorted l
    → l ≢ []
    → (h : ℕ) × (get_elem? l (search_keys t l % length l) ≡ some h) × Next t h l
search_keys_nonempty t [] s ne = absurd (ne refl)
search_keys_nonempty t (k ∷ l) s ne = search_keys-Next t k l s

module _ (fn : Str → ℕ) (P : Str → Type 0) where
  -- A point's node hashes to that point, and is one of the nodes of which `P` holds.
  abbrev IsOwned : (ℕ → Str) → ℕ → Type 0
  IsOwned nodes h = (fn (nodes h) ≡ h) × P (nodes h)

  pub record IsValid (m : Map) : Type 0 where
    pub hash : m.hash ≡ some fn
    pub sorted : IsSorted m.keys
    pub owned : All (IsOwned m.hash_map) m.keys

  record IsPartial (m m' : Map) : Type 0 where
    hash : m'.hash ≡ some fn
    replicas : m'.replicas ≡ m.replicas
    owned : All (IsOwned m'.hash_map) m'.keys
    longer : length m.keys ≤ length m'.keys

  set_node-IsOwned :
      (key : Str) (nodes : ℕ → Str) (h : ℕ)
      → P key
      → IsOwned nodes h
      → IsOwned (set_node (fn key) key nodes) h
  unfolding set_node
  set_node-IsOwned key nodes h p o = elim (ℕ_discrete h (fn key)) [
    | yes e ↦ rw ((==_iff h (fn key)).1 e) (sym e, p)
    | no e ↦ rw (ne→==_false h (fn key) e) o
  ]

  set_node_self :
      (key : Str) (nodes : ℕ → Str) → P key → IsOwned (set_node (fn key) key nodes) (fn key)
  unfolding set_node
  set_node_self key nodes p = rw ((==_iff (fn key) (fn key)).1 refl) (refl, p)

  add_step :
      (n : ℕ) (key : Str) (m : Map)
      → m.hash ≡ some fn
      → add_replicas (suc n) key m
        ≡ add_replicas n key (record m {
          keys = m.keys ++ (fn key ∷ []);
          hash_map = set_node (fn key) key m.hash_map;
        })
  unfolding add_replicas
  add_step n key m e =
      ap
        (λ o. ◌>>=◌ {B = Map} o λ g.
          add_replicas n key (record m {
            keys = m.keys ++ (g key ∷ []);
            hash_map = set_node (g key) key m.hash_map;
          }))
        e

  add_replicas_lem :
      (n : ℕ) (key : Str) (m : Map)
      → P key
      → m.hash ≡ some fn
      → All (IsOwned m.hash_map) m.keys
      → (m' : Map) × (add_replicas n key m ≡ some m')
        × IsPartial m m'
        × (length m'.keys ≡ length m.keys + n)
  unfolding add_replicas
  add_replicas_lem zero key m p e o =
      (m, refl, record { hash = e; replicas = refl; owned = o; longer = omega arith }, omega arith)
  add_replicas_lem (suc n) key m p e o =
      let nodes = set_node (fn key) key m.hash_map in
      let kept =
        All-map (IsOwned m.hash_map) (IsOwned nodes) m.keys
          (λ h q. set_node-IsOwned key m.hash_map h p q) o in
      let all =
        All-append (IsOwned nodes) m.keys (fn key ∷ []) kept (set_node_self key m.hash_map p, tt) in
      let size = length-append m.keys (fn key ∷ []) in
      let (m', run, part, long) =
        add_replicas_lem n key (record m { keys = m.keys ++ (fn key ∷ []); hash_map = nodes }) p e
          all in
      (
        m',
        add_step n key m e ∙ run,
        record {
          hash = part.hash;
          replicas = part.replicas;
          owned = part.owned;
          longer = omega (arith, part.longer);
        },
        omega arith,
      )

  add_nodes_lem :
      (nodes : List Str) (m : Map)
      → All P nodes
      → m.hash ≡ some fn
      → All (IsOwned m.hash_map) m.keys
      → (m' : Map) × (add_nodes nodes m ≡ some m') × IsPartial m m'
  unfolding add_nodes
  add_nodes_lem [] m p e o =
      (m, refl, record { hash = e; replicas = refl; owned = o; longer = omega arith })
  add_nodes_lem (key ∷ nodes) m p e o =
      let (m1, run, part, _) = add_replicas_lem m.replicas key m p.0 e o in
      let (m', run', part') = add_nodes_lem nodes m1 p.1 part.hash part.owned in
      (
        m',
        rw run run',
        record {
          hash = part'.hash;
          replicas = part'.replicas ∙ part.replicas;
          owned = part'.owned;
          longer = omega (arith, part.longer, part'.longer);
        },
      )

  -- With a hash function, `Add` never panics and keeps the map valid: sorted points, each owned by
  -- an added node that hashes to it.
  pub add-IsValid :
      (m : Map) (nodes : List Str)
      → All P nodes
      → IsValid m
      → (m' : Map) × (add m nodes ≡ some m') × IsValid m'
  unfolding add
  add-IsValid m nodes p v =
      let (m', run, part) = add_nodes_lem nodes m p v.hash v.owned in
      (
        record m' { keys = sort_ints m'.keys },
        rw run,
        record {
          hash = part.hash;
          sorted = sort_ints-IsSorted m'.keys;
          owned = All-sort_ints (IsOwned m'.hash_map) m'.keys part.owned;
        },
      )

  get_at :
      (m : Map) (key : Str) (h : ℕ)
      → length m.keys ≢ 0
      → m.hash ≡ some fn
      → get_elem? m.keys (search_keys (fn key) m.keys % length m.keys) ≡ some h
      → get m key ≡ some (m.hash_map h)
  unfolding get
  get_at m key h p e at = rw (ne→==_false (length m.keys) 0 p, e, at)

  -- With points on the ring, `Get` never panics and returns a node of which `P` holds; the node's
  -- hash is the next point of the ring from the key's hash on.
  pub get-Next :
      (m : Map) (key : Str)
      → m.keys ≢ []
      → IsValid m
      → (node : Str) × (get m key ≡ some node) × P node × Next (fn key) (fn node) m.keys
  get-Next m key ne v =
      let (h, at, next) = search_keys_nonempty (fn key) m.keys v.sorted ne in
      let own =
        All-get_elem? (IsOwned m.hash_map) m.keys (search_keys (fn key) m.keys % length m.keys)
          v.owned at in
      (
        m.hash_map h,
        get_at m key h (pos_length m.keys ne) v.hash at,
        own.1,
        subst (λ g. Next (fn key) g m.keys) (sym own.0) next,
      )

-- `New` with no hash function leaves none, so `Add` of any node panics once it has a replica to add.
pub add-new_nil :
    (r : ℕ) (key : Str) (nodes : List Str) → add (new (suc r) none) (key ∷ nodes) ≡ none
unfolding add add_nodes add_replicas new
add-new_nil r key nodes = refl
