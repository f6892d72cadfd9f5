-- ===== src/Lru/Elements.antt =====
-- The list of elements of gocache/lrucache/lru/lru.go: what the pointers and the map of a cache
-- lead to, and what is taken from the ends of the list.
use go_example.Prelude.{
  ℕ, suc, ◌+◌, ◌≡◌, refl, ap, ◌≢◌, Option, none, some, List, [], ◌∷◌, arith, if◌then◌else◌, length,
  ne→==_false,
}
use go_example.Prelude.Dict.{Str, str_eq, str_eq_iff}
use go_example.Lru.{Element, remove, back}

-- All but the last item.
abbrev pub init {ℓ} : {A : Type ℓ} → List A → List A
init [] = []
init (x ∷ []) = []
init (x ∷ y ∷ l) = x ∷ init (y ∷ l)

pub length-init {ℓ} : {A : Type ℓ} (x : A) (l : List A) → length (init (x ∷ l)) ≡ length l
length-init x [] = refl
length-init x (y ∷ l) = ap suc (length-init y l)

module _ {V : Type 0} where
  -- The key and value of each element.
  abbrev pub pairs : List (Element V) → List (Str × V)
  pairs [] = []
  pairs (e ∷ l) = (e.key, e.value) ∷ pairs l

  -- The element that a map without stale or missing pointers has for a key.
  unfoldable pub id_of : Str → List (Element V) → Option ℕ
  id_of k [] = none
  id_of k (e ∷ l) = if str_eq e.key k then some e.id else id_of k l

  -- `e` shares neither key nor pointer with an element of the list.
  abbrev pub IsFresh : Str → ℕ → List (Element V) → Type 0
  IsFresh k p [] = Unit
  IsFresh k p (e ∷ l) = (k ≢ e.key) × (p ≢ e.id) × IsFresh k p l

  abbrev pub IsDistinct : List (Element V) → Type 0
  IsDistinct [] = Unit
  IsDistinct (e ∷ l) = IsFresh e.key e.id l × IsDistinct l

  IsFresh-back :
      (k : Str) (p : ℕ) (l : List (Element V)) {e : Element V}
      → IsFresh k p l
      → back l ≡ some e
      → (k ≢ e.key) × (p ≢ e.id)
  unfolding back
  IsFresh-back k p [] f b = absurd (cc)
  IsFresh-back k p (e ∷ []) {e = x} f b = ground arith
  IsFresh-back k p (e ∷ g ∷ l) f b = IsFresh-back k p (g ∷ l) f.2 b

  IsFresh-init : (k : Str) (p : ℕ) (l : List (Element V)) → IsFresh k p l → IsFresh k p (init l)
  IsFresh-init k p [] f = tt
  IsFresh-init k p (e ∷ []) f = tt
  IsFresh-init k p (e ∷ g ∷ l) f = (f.0, f.1, IsFresh-init k p (g ∷ l) f.2)

  pub IsDistinct-init : (l : List (Element V)) → IsDistinct l → IsDistinct (init l)
  IsDistinct-init [] d = tt
  IsDistinct-init (e ∷ []) d = tt
  IsDistinct-init (e ∷ g ∷ l) d = (IsFresh-init e.key e.id (g ∷ l) d.0, IsDistinct-init (g ∷ l) d.1)

  pub pairs-init : (l : List (Element V)) → pairs (init l) ≡ init (pairs l)
  pairs-init [] = refl
  pairs-init (e ∷ []) = refl
  pairs-init (e ∷ g ∷ l) = ap (◌∷◌ (e.key, e.value)) (pairs-init (g ∷ l))

  -- Removing the last element by its pointer.
  pub remove-back :
      (l : List (Element V)) {e : Element V}
      → IsDistinct l
      → back l ≡ some e
      → remove e.id l ≡ init l
  unfolding remove back
  remove-back [] d b = refl
  remove-back (x ∷ []) {e} d b = ground arith
  remove-back (x ∷ g ∷ l) {e} d b =
      rw (ne→==_false x.id e.id (IsFresh-back x.key x.id (g ∷ l) d.0 b).1)
        (ap (◌∷◌ x) (remove-back (g ∷ l) d.1 b))

  pub id_of-init :
      (k : Str) (l : List (Element V)) {e : Element V}
      → IsDistinct l
      → back l ≡ some e
      → id_of k (init l) ≡ (if str_eq e.key k then none else id_of k l)
  unfolding back id_of
  id_of-init k [] d b = absurd (cc)
  id_of-init k (x ∷ []) {e} d b = ground arith
  id_of-init k (x ∷ g ∷ l) {e} d b = ground (
    arith,
    IsFresh-back x.key x.id (g ∷ l) d.0 b,
    id_of-init k (g ∷ l) d.1 b,
    str_eq_iff x.key k,
    str_eq_iff e.key k,
  )

  pub back-cons : (x : Element V) (l : List (Element V)) → (e : Element V) × (back (x ∷ l) ≡ some e)
  unfolding back
  back-cons x [] = (x, refl)
  back-cons x (y ∷ l) = back-cons y l

  pub length-init-back :
      (l : List (Element V)) {e : Element V} → back l ≡ some e → length (init l) + 1 ≡ length l
  unfolding back
  length-init-back [] b = absurd (cc)
  length-init-back (x ∷ l) b = omega (arith, length-init x l)
