-- ===== src/Labels/Encoding.antt =====
-- yaml/labels.go: that `Bytes` tells all labels apart.
use go_example.Prelude.{ℕ, zero, suc, [], ◌∷◌, ◌++◌, ◌≡◌, ◌≢◌, refl, ap₂, arith, All}
use go_example.Prelude.Dict.{Str}
use go_example.Labels.{Label, Labels, sep, before, bytes_from, bytes}

-- No byte is a separator; in UTF-8 no byte is.
abbrev pub IsFree : Str → Type 0
IsFree s = All (λ b. b ≢ sep) s

-- A text that is empty or begins with a separator.
unfoldable pub IsEdge : Str → Type 0
IsEdge [] = Unit
IsEdge (x ∷ s) = x ≡ sep

free_edge :
    (x y r s : Str)
    → IsFree x
    → IsFree y
    → IsEdge r
    → IsEdge s
    → x ++ r ≡ y ++ s
    → (x ≡ y) × (r ≡ s)
unfolding IsEdge
free_edge [] [] r s fx fy er es e = (refl, e)
free_edge [] (b ∷ y) [] s fx (fb, fy) er es e = ground arith
free_edge [] (b ∷ y) (c ∷ r) s fx (fb, fy) er es e = ground arith
free_edge (a ∷ x) [] r [] (fa, fx) fy er es e = ground arith
free_edge (a ∷ x) [] r (c ∷ s) (fa, fx) fy er es e = ground arith
free_edge (a ∷ x) (b ∷ y) r s (fa, fx) (fb, fy) er es e =
    ground (arith, e, free_edge x y r s fx fy er es)

IsEdge-bytes_from : (i : ℕ) (ls : Labels) → IsEdge (bytes_from (suc i) ls)
unfolding IsEdge bytes_from before
IsEdge-bytes_from i [] = tt
IsEdge-bytes_from i (l ∷ ls) = refl

abbrev pub HasFree : Label → Type 0
HasFree l = IsFree l.name × IsFree l.value

abbrev made : Str → Str → Label
made n v = record { name = n; value = v }

label_lem :
    (k l : Label) (r s : Str)
    → HasFree k
    → HasFree l
    → IsEdge r
    → IsEdge s
    → k.name ++ (sep ∷ (k.value ++ r)) ≡ l.name ++ (sep ∷ (l.value ++ s))
    → (k ≡ l) × (r ≡ s)
unfolding IsEdge
label_lem k l r s (kn, kv) (ln, lv) er es e =
    let (names, rest) =
      free_edge k.name l.name (sep ∷ (k.value ++ r)) (sep ∷ (l.value ++ s)) kn ln refl refl e in
    let (values, ends) = free_edge k.value l.value r s kv lv er es (ground (arith, rest)) in
    (ap₂ made names values, ends)

not_empty : (s r : Str) → [] ≢ s ++ (sep ∷ r)
not_empty [] r = ground arith
not_empty (x ∷ s) r = ground arith

bytes_from_injective :
    (i : ℕ) (ls ks : Labels)
    → All HasFree ls
    → All HasFree ks
    → bytes_from i ls ≡ bytes_from i ks
    → ls ≡ ks
unfolding bytes_from before
bytes_from_injective i [] [] fl fk e = refl
bytes_from_injective zero [] (k ∷ ks) fl fk e =
    ground (arith, not_empty k.name (k.value ++ bytes_from 1 ks), e)
bytes_from_injective zero (l ∷ ls) [] fl fk e =
    ground (arith, not_empty l.name (l.value ++ bytes_from 1 ls), e)
bytes_from_injective (suc i) [] (k ∷ ks) fl fk e = ground arith
bytes_from_injective (suc i) (l ∷ ls) [] fl fk e = ground arith
bytes_from_injective zero (l ∷ ls) (k ∷ ks) (fl, gl) (fk, gk) e =
    let (same, rest) =
      label_lem l k (bytes_from 1 ls) (bytes_from 1 ks) fl fk (IsEdge-bytes_from 0 ls)
        (IsEdge-bytes_from 0 ks) e in
    ap₂ (λ x xs. x ∷ xs) same (bytes_from_injective 1 ls ks gl gk rest)
bytes_from_injective (suc i) (l ∷ ls) (k ∷ ks) (fl, gl) (fk, gk) e =
    let (same, rest) =
      label_lem l k (bytes_from (suc (suc i)) ls) (bytes_from (suc (suc i)) ks) fl fk
        (IsEdge-bytes_from (suc i) ls) (IsEdge-bytes_from (suc i) ks) (ground (arith, e)) in
    ap₂ (λ x xs. x ∷ xs) same (bytes_from_injective (suc (suc i)) ls ks gl gk rest)

-- Labels whose names and values have no separator byte are equal where their `Bytes` are.
pub bytes_injective :
    (ls ks : Labels) → All HasFree ls → All HasFree ks → bytes ls ≡ bytes ks → ls ≡ ks
unfolding bytes
bytes_injective ls ks fl fk e = bytes_from_injective 0 ls ks fl fk (ground (arith, e))
