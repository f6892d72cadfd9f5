-- ===== src/Prelude/Slices.antt =====
-- Go slices: `xs[a:b]`, `append`, the builtin `copy`.
use native.Mathlib.Nat.{zero-add, suc-add}
use Prim.Native.Nat.{◌+◌, ℕ, zero, suc, ◌-◌, ◌≤◌, ◌<◌}
use mathlib.Core.Path.{◌≡◌, refl, ap}
use mathlib.Core.Bool.{◌&&◌}
use mathlib.Core.List.{List, [], ◌∷◌, ◌++◌}
use mathlib.Core.Option.{Option, none, some}
use native.Mathlib.Omega.{arith}
use go_example.Prelude.Tests.{le→leb, leb, if◌then◌else◌}
use go_example.Prelude.Lists.{length, get_elem?, set}

module _ {ℓ} {A : Type ℓ} where
  -- The items at the indices from `a` up to, not including, `b`.
  abbrev pub slice : List A → ℕ → ℕ → List A
  slice [] a b = []
  slice (x ∷ xs) a zero = []
  slice (x ∷ xs) zero (suc b) = x ∷ slice xs 0 b
  slice (x ∷ xs) (suc a) (suc b) = slice xs a b

  -- `xs[a:b]` panics unless `a <= b <= len(xs)`.
  abbrev pub subslice : List A → ℕ → ℕ → Option (List A)
  subslice xs a b = if leb a b && leb b (length xs) then some (slice xs a b) else none

  -- `copy(dst, src)`: as many items as both have.
  abbrev pub copy : List A → List A → List A
  copy [] src = []
  copy (d ∷ dst) [] = d ∷ dst
  copy (d ∷ dst) (s ∷ src) = s ∷ copy dst src

  -- `copy(dst[k:], src)`
  abbrev pub copy_at : List A → ℕ → List A → List A
  copy_at dst zero src = copy dst src
  copy_at [] (suc k) src = []
  copy_at (d ∷ dst) (suc k) src = d ∷ copy_at dst k src

  pub length-slice : (xs : List A) (a b : ℕ) → a ≤ b → b ≤ length xs → length (slice xs a b) ≡ b - a
  length-slice [] a b h k = omega arith
  length-slice (x ∷ xs) a zero h k = omega arith
  length-slice (x ∷ xs) zero (suc b) h k = omega (arith, length-slice xs 0 b)
  length-slice (x ∷ xs) (suc a) (suc b) h k = omega (arith, length-slice xs a b)

  pub slice_empty : (xs : List A) (a b : ℕ) → b ≤ a → slice xs a b ≡ []
  slice_empty [] a b h = refl
  slice_empty (x ∷ xs) a zero h = refl
  slice_empty (x ∷ xs) zero (suc b) h = absurd (omega arith)
  slice_empty (x ∷ xs) (suc a) (suc b) h = slice_empty xs a b (omega arith)

  -- A write outside the slice does not show in it.
  pub slice-set_below :
      (xs : List A) (a b i : ℕ) (v : A) → i < a → slice (set xs i v) a b ≡ slice xs a b
  slice-set_below [] a b i v h = refl
  slice-set_below (x ∷ xs) a zero zero v h = refl
  slice-set_below (x ∷ xs) a zero (suc i) v h = refl
  slice-set_below (x ∷ xs) zero (suc b) i v h = absurd (omega arith)
  slice-set_below (x ∷ xs) (suc a) (suc b) zero v h = refl
  slice-set_below (x ∷ xs) (suc a) (suc b) (suc i) v h = slice-set_below xs a b i v (omega arith)

  pub slice-set_above :
      (xs : List A) (a b i : ℕ) (v : A) → b ≤ i → slice (set xs i v) a b ≡ slice xs a b
  slice-set_above [] a b i v h = refl
  slice-set_above (x ∷ xs) a zero zero v h = refl
  slice-set_above (x ∷ xs) a zero (suc i) v h = refl
  slice-set_above (x ∷ xs) a (suc b) zero v h = absurd (omega arith)
  slice-set_above (x ∷ xs) zero (suc b) (suc i) v h =
      ap (◌∷◌ x) (slice-set_above xs 0 b i v (omega arith))
  slice-set_above (x ∷ xs) (suc a) (suc b) (suc i) v h = slice-set_above xs a b i v (omega arith)

  -- A slice that is longer by one at its end, where `v` has been written.
  pub slice-set_end :
      (xs : List A) (a b : ℕ) (v : A)
      → a ≤ b
      → b < length xs
      → slice (set xs b v) a (suc b) ≡ slice xs a b ++ (v ∷ [])
  slice-set_end [] a b v h k = absurd (omega arith)
  slice-set_end (x ∷ xs) zero zero v h k = ap (◌∷◌ v) (slice_empty xs 0 0 (omega arith))
  slice-set_end (x ∷ xs) (suc a) zero v h k = absurd (omega arith)
  slice-set_end (x ∷ xs) zero (suc b) v h k =
      ap (◌∷◌ x) (slice-set_end xs 0 b v (omega arith) (omega arith))
  slice-set_end (x ∷ xs) (suc a) (suc b) v h k = slice-set_end xs a b v (omega arith) (omega arith)

  -- A slice that is not empty begins with the item at its lower end.
  pub slice-uncons :
      (xs : List A) (a b : ℕ)
      → a < b
      → b ≤ length xs
      → (x : A) × (get_elem? xs a ≡ some x) × (slice xs a b ≡ x ∷ slice xs (suc a) b)
  slice-uncons [] a b h k = absurd (omega arith)
  slice-uncons (x ∷ xs) a zero h k = absurd (omega arith)
  slice-uncons (x ∷ xs) zero (suc b) h k = (x, refl, refl)
  slice-uncons (x ∷ xs) (suc a) (suc b) h k = slice-uncons xs a b (omega arith) (omega arith)

  pub length-copy : (dst src : List A) → length (copy dst src) ≡ length dst
  length-copy [] src = refl
  length-copy (d ∷ dst) [] = refl
  length-copy (d ∷ dst) (s ∷ src) = ap suc (length-copy dst src)

  pub length-copy_at :
      (dst : List A) (k : ℕ) (src : List A) → length (copy_at dst k src) ≡ length dst
  length-copy_at dst zero src = length-copy dst src
  length-copy_at [] (suc k) src = refl
  length-copy_at (d ∷ dst) (suc k) src = ap suc (length-copy_at dst k src)

  pub slice-copy :
      (dst src : List A) → length src ≤ length dst → slice (copy dst src) 0 (length src) ≡ src
  slice-copy [] [] h = refl
  slice-copy [] (s ∷ src) h = absurd (omega arith)
  slice-copy (d ∷ dst) [] h = refl
  slice-copy (d ∷ dst) (s ∷ src) h = ap (◌∷◌ s) (slice-copy dst src (omega arith))

  copy-nil : (dst : List A) → copy dst [] ≡ dst
  copy-nil [] = refl
  copy-nil (d ∷ dst) = refl

  -- Two parts copied one after the other.
  pub slice-copy_at :
      (dst xs ys : List A)
      → length xs + length ys ≤ length dst
      → slice (copy_at (copy dst xs) (length xs) ys) 0 (length xs + length ys) ≡ xs ++ ys
  slice-copy_at dst [] ys h = rw (copy-nil dst, zero-add) (slice-copy dst ys (omega arith))
  slice-copy_at [] (x ∷ xs) ys h = absurd (omega arith)
  slice-copy_at (d ∷ dst) (x ∷ xs) ys h =
      rw suc-add (ap (◌∷◌ x) (slice-copy_at dst xs ys (omega arith)))

  pub subslice_in :
      (xs : List A) (a b : ℕ) → a ≤ b → b ≤ length xs → subslice xs a b ≡ some (slice xs a b)
  subslice_in xs a b h k = rw (le→leb a b h, le→leb b (length xs) k)
