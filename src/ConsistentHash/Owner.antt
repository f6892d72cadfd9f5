-- ===== src/ConsistentHash/Owner.antt =====
-- The point of the ring of gocache/lrucache/consistenthash/consistenthash.go that a hash goes to.
use go_example.Prelude.{
  ℕ, suc, ◌%◌, ◌≤◌, ◌<◌, ◌≡◌, ap, ◌∙◌, ◌⊎◌, inl, inr, some, List, [], ◌∷◌, arith, dec_lt, leb,
  le→leb, lt→leb_false, Bool-cases, length, get_elem?, All, All-map,
}
use native.Mathlib.Nat.{mod_self, mod-eq_of_lt}
use go_example.ConsistentHash.{insert_sorted, sort_ints, search_keys}

abbrev pub IsSorted : List ℕ → Type 0
IsSorted [] = Unit
IsSorted (x ∷ xs) = All (λ y. x ≤ y) xs × IsSorted xs

pub All-insert_sorted {κ} :
    (P : ℕ → Type κ) (x : ℕ) (l : List ℕ) → P x → All P l → All P (insert_sorted x l)
unfolding insert_sorted
All-insert_sorted P x [] h a = (h, a)
All-insert_sorted P x (y ∷ l) h a = elim (Bool-cases (leb x y)) [
  | inl e ↦ rw e (h, a)
  | inr e ↦ rw e (a.0, All-insert_sorted P x l h a.1)
]

pub All-sort_ints {κ} : (P : ℕ → Type κ) (l : List ℕ) → All P l → All P (sort_ints l)
unfolding sort_ints
All-sort_ints P [] a = a
All-sort_ints P (x ∷ l) a = All-insert_sorted P x (sort_ints l) a.0 (All-sort_ints P l a.1)

insert_sorted-IsSorted : (x : ℕ) (l : List ℕ) → IsSorted l → IsSorted (insert_sorted x l)
unfolding insert_sorted
insert_sorted-IsSorted x [] s = (tt, tt)
insert_sorted-IsSorted x (y ∷ l) s = elim (dec_lt y x) [
  | no p ↦
      rw (le→leb x y (omega arith))
        ((omega arith, All-map (λ z. y ≤ z) (λ z. x ≤ z) l (λ z h. omega arith) s.0), s)
  | yes p ↦
      rw (lt→leb_false x y p)
        (All-insert_sorted (λ z. y ≤ z) x l (omega arith) s.0, insert_sorted-IsSorted x l s.1)
]

pub sort_ints-IsSorted : (l : List ℕ) → IsSorted (sort_ints l)
unfolding sort_ints
sort_ints-IsSorted [] = tt
sort_ints-IsSorted (x ∷ l) = insert_sorted-IsSorted x (sort_ints l) (sort_ints-IsSorted l)

-- `h` is the first of the points from `t` on; past the last point the ring starts again.
abbrev pub Next : ℕ → ℕ → List ℕ → Type 0
Next t h l = ((t ≤ h) × All (λ x. t ≤ x → h ≤ x) l) ⊎ (All (λ x. x < t) l × All (λ x. h ≤ x) l)

search_keys-le : (t : ℕ) (l : List ℕ) → search_keys t l ≤ length l
unfolding search_keys
search_keys-le t [] = omega arith
search_keys-le t (k ∷ l) = ground (arith, search_keys-le t l)

search_next : (t k : ℕ) (l : List ℕ) → k < t → search_keys t (k ∷ l) ≡ suc (search_keys t l)
unfolding search_keys
search_next t k l p = rw (lt→leb_false t k p)

search_first : (t k : ℕ) (l : List ℕ) → t ≤ k → search_keys t (k ∷ l) ≡ 0
unfolding search_keys
search_first t k l p = rw (le→leb t k p)

search_found :
    (t : ℕ) (l : List ℕ)
    → IsSorted l
    → search_keys t l < length l
    → (h : ℕ) × (get_elem? l (search_keys t l) ≡ some h) × (t ≤ h) × All (λ x. t ≤ x → h ≤ x) l
search_found t [] s h = absurd (omega arith)
search_found t (k ∷ l) s h = elim (dec_lt k t) [
  | yes p ↦
      let (j, at, le, all) = search_found t l s.1 (omega (arith, search_next t k l p)) in
      (j, ap (get_elem? (k ∷ l)) (search_next t k l p) ∙ at, le, (λ q. absurd (omega arith), all))
  | no p ↦ (
    k,
    ap (get_elem? (k ∷ l)) (search_first t k l (omega arith)),
    omega arith,
    (λ _. omega arith, All-map (λ y. k ≤ y) (λ y. t ≤ y → k ≤ y) l (λ y q _. q) s.0),
  )
]

search_past : (t : ℕ) (l : List ℕ) → search_keys t l ≡ length l → All (λ x. x < t) l
search_past t [] e = tt
search_past t (k ∷ l) e = elim (dec_lt k t) [
  | yes p ↦ (p, search_past t l (omega (arith, search_next t k l p)))
  | no p ↦ absurd (omega (arith, search_first t k l (omega arith)))
]

-- On sorted points, the index that `Get` computes is in range and leads to the next point.
pub search_keys-Next :
    (t k : ℕ) (l : List ℕ)
    → IsSorted (k ∷ l)
    → (h : ℕ) × (get_elem? (k ∷ l) (search_keys t (k ∷ l) % length (k ∷ l)) ≡ some h)
      × Next t h (k ∷ l)
search_keys-Next t k l s = elim (dec_lt (search_keys t (k ∷ l)) (length (k ∷ l))) [
  | yes p ↦
      let (h, at, le, all) = search_found t (k ∷ l) s p in
      (h, ap (get_elem? (k ∷ l)) (mod-eq_of_lt p) ∙ at, inl (le, all))
  | no p ↦
      let e : search_keys t (k ∷ l) ≡ length (k ∷ l) = omega (arith, search_keys-le t (k ∷ l)) in
      (k, rw (e, mod_self), inr (search_past t (k ∷ l) e, (omega arith, s.0)))
]
