-- ===== src/Prelude/Splices.antt =====
-- What a slice holds after a `copy` into it.
use Prim.Native.Nat.{ℕ, zero, suc, ◌+◌, ◌-◌, ◌≤◌}
use mathlib.Core.Path.{◌≡◌, refl, sym, ap, ◌∙◌}
use mathlib.Core.List.{List, [], ◌∷◌, ◌++◌}
use native.Mathlib.Nat.{zero-add, suc-add, add-zero}
use native.Mathlib.Omega.{arith}
use go_example.Prelude.Lists.{length, take, drop}
use go_example.Prelude.Slices.{slice, copy, copy_at}

module _ {ℓ} {A : Type ℓ} where
  pub slice_all : (xs : List A) → slice xs 0 (length xs) ≡ xs
  slice_all [] = refl
  slice_all (x ∷ xs) = ap (◌∷◌ x) (slice_all xs)

  take-nil : (n : ℕ) → take {A = A} n [] ≡ []
  take-nil zero = refl
  take-nil (suc n) = refl

  drop-nil : (n : ℕ) → drop {A = A} n [] ≡ []
  drop-nil zero = refl
  drop-nil (suc n) = refl

  pub slice-drop : (xs : List A) (a b : ℕ) → slice xs a b ≡ take (b - a) (drop a xs)
  slice-drop [] a b = let e : drop {A = A} a [] ≡ [] = drop-nil a in rw e (sym (take-nil (b - a)))
  slice-drop (x ∷ xs) a zero = let e : 0 - a ≡ 0 = omega arith in rw e
  slice-drop (x ∷ xs) zero (suc b) =
      let e : suc b - 0 ≡ suc b = omega arith in
      let f : b - 0 ≡ b = omega arith in
      rw e (ap (◌∷◌ x) (slice-drop xs 0 b ∙ ap (λ n. take n xs) f))
  slice-drop (x ∷ xs) (suc a) (suc b) =
      let e : suc b - suc a ≡ b - a = omega arith in rw e (slice-drop xs a b)

  pub drop-drop : (xs : List A) (a b : ℕ) → drop (a + b) xs ≡ drop b (drop a xs)
  drop-drop xs zero b = rw zero-add
  drop-drop [] (suc a) zero = rw add-zero
  drop-drop [] (suc a) (suc b) = rw suc-add
  drop-drop (x ∷ xs) (suc a) b = rw suc-add (drop-drop xs a b)

  pub drop-append : (xs ys : List A) → drop (length xs) (xs ++ ys) ≡ ys
  drop-append [] ys = refl
  drop-append (x ∷ xs) ys = drop-append xs ys

  pub take-append : (xs ys : List A) → take (length xs) (xs ++ ys) ≡ xs
  take-append [] ys = refl
  take-append (x ∷ xs) ys = ap (◌∷◌ x) (take-append xs ys)

  copy-eq-append : (xs ys : List A) → length ys ≤ length xs → copy xs ys ≡ ys ++ drop (length ys) xs
  copy-eq-append [] [] h = refl
  copy-eq-append [] (y ∷ ys) h = absurd (omega arith)
  copy-eq-append (x ∷ xs) [] h = refl
  copy-eq-append (x ∷ xs) (y ∷ ys) h = ap (◌∷◌ y) (copy-eq-append xs ys (omega arith))

  pub drop-copy_at :
      (xs : List A) (k : ℕ) (ys : List A)
      → k + length ys ≤ length xs
      → drop k (copy_at xs k ys) ≡ ys ++ drop (k + length ys) xs
  drop-copy_at xs zero ys h = rw zero-add (copy-eq-append xs ys (omega arith))
  drop-copy_at [] (suc k) ys h = absurd (omega arith)
  drop-copy_at (x ∷ xs) (suc k) ys h = rw suc-add (drop-copy_at xs k ys (omega arith))

  copy-copy : (xs ys zs : List A) → copy_at (copy xs ys) (length ys) zs ≡ copy xs (ys ++ zs)
  copy-copy [] [] zs = refl
  copy-copy [] (y ∷ ys) zs = refl
  copy-copy (x ∷ xs) [] zs = refl
  copy-copy (x ∷ xs) (y ∷ ys) zs = ap (◌∷◌ y) (copy-copy xs ys zs)

  -- Two copies one behind the other are one copy.
  pub copy_at-copy_at :
      (xs : List A) (k : ℕ) (ys zs : List A)
      → copy_at (copy_at xs k ys) (k + length ys) zs ≡ copy_at xs k (ys ++ zs)
  copy_at-copy_at xs zero ys zs = rw zero-add (copy-copy xs ys zs)
  copy_at-copy_at [] (suc k) ys zs = rw suc-add
  copy_at-copy_at (x ∷ xs) (suc k) ys zs = rw suc-add (ap (◌∷◌ x) (copy_at-copy_at xs k ys zs))

  -- What was copied in is read back from where it was copied to.
  pub slice-copy_at_self :
      (xs : List A) (k : ℕ) (ys : List A)
      → k + length ys ≤ length xs
      → slice (copy_at xs k ys) k (k + length ys) ≡ ys
  slice-copy_at_self xs k ys h =
      let e : k + length ys - k ≡ length ys = omega arith in
      rw (slice-drop, e, drop-copy_at xs k ys h, take-append)
