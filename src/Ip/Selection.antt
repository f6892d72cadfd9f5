-- ===== src/Ip/Selection.antt =====
-- net/ip/strategy.go: which entry of the header the strategies take.
use go_example.Prelude.{
  ==_iff, ◌==◌, ◌||◌, ℕ, zero, suc, ◌+◌, ◌-◌, ◌≤◌, true, false, Option, none, some, List, [], ◌∷◌,
  ◌++◌, ◌≡◌, refl, ap, sym, ◌∙◌, ◌⊎◌, ◌↔◌, arith, inl, inr, Bool-cases, length, get_elem?, ltb, All,
  get_elem?_in,
}
use go_example.Prelude.Dict.{Str}
use go_example.Prelude.Int.{ℤ, pos, negsuc, ◌≤ℤ◌}
use go_example.Ip.{
  NetLibrary, Checker, split_comma, prepend, trim_space, from_right, is_short, depth_ip, is_passed,
  contains, Contained, answer, error, is_contained, last_outside, or_empty, pool_ip,
}

ltb_false→le : (a b : ℕ) → ltb a b ≡ false → b ≤ a
ltb_false→le a b h = ground arith

module _ {Addr IpNet : Type 0} (lib : NetLibrary Addr IpNet) where
  -- An entry that `PoolStrategy` passes over: it is blank, or the address in it is trusted.
  abbrev pub Passed : Checker Addr IpNet → Str → Type 0
  Passed c v = (trim_space v ≡ []) ⊎ (contains lib c (trim_space v) ≡ answer true)

  length_zero : (s : Str) → length s ≡ 0 → s ≡ []
  length_zero [] e = refl
  length_zero (c ∷ s) e = absurd (omega arith)

  is_contained_lem : (r : Contained) → is_contained lib r ≡ true → r ≡ answer true
  unfolding is_contained
  is_contained_lem (answer true) h = refl
  is_contained_lem (answer false) h = absurd (cc)
  is_contained_lem (error e) h = absurd (cc)

  is_passed→Passed : (c : Checker Addr IpNet) (v : Str) → is_passed lib c v ≡ true → Passed c v
  unfolding is_passed
  is_passed→Passed c v h = elim (Bool-cases (length (trim_space v) == 0)) [
    | inl e ↦ inl (length_zero (trim_space v) ((==_iff (length (trim_space v)) 0).0 e))
    | inr e ↦ inr (
        is_contained_lem (contains lib c (trim_space v))
          (sym (ap (λ b. b || is_contained lib (contains lib c (trim_space v))) e) ∙ h))
  ]

  is_passed→≢ : (c : Checker Addr IpNet) (v : Str) → is_passed lib c v ≡ false → ¬ Passed c v
  unfolding is_passed is_contained
  is_passed→≢ c v h (inl e) = absurd (
      ground (
        arith,
        sym (ap (λ s. length s == 0 || is_contained lib (contains lib c (trim_space v))) e) ∙ h,
      ))
  is_passed→≢ c v h (inr e) =
      absurd
        (ground (arith, sym (ap (λ r. length (trim_space v) == 0 || is_contained lib r) e) ∙ h))

  -- What `PoolStrategy` finds in the entries: nothing outside of the pool, or the last such entry.
  abbrev pub Found : Checker Addr IpNet → List Str → Option Str → Type 0
  Found c vs o =
      ((o ≡ none) × All (Passed c) vs)
      ⊎ ((before : List Str) × (v : Str) × (after : List Str) × (vs ≡ before ++ (v ∷ after))
          × (o ≡ some (trim_space v))
          × (¬ Passed c v)
          × All (Passed c) after)

  last_outside-Found : (c : Checker Addr IpNet) (vs : List Str) → Found c vs (last_outside lib c vs)
  unfolding last_outside
  last_outside-Found c [] = inl (refl, tt)
  last_outside-Found c (v ∷ vs) = elim (last_outside-Found c vs) [
    | inr (before, w, after, e, o, n, all) ↦
        inr (v ∷ before, w, after, ap (λ l. v ∷ l) e, rw (o, last_outside), n, all)
    | inl (o, all) ↦ elim (Bool-cases (is_passed lib c v)) [
      | inl p ↦ inl (rw (o, last_outside, p), (is_passed→Passed c v p, all))
      | inr p ↦ inr ([], v, vs, refl, rw (o, last_outside, p), is_passed→≢ c v p, all)
    ]
  ]

  -- `PoolStrategy` with a checker answers the last entry of the header, trimmed, that is neither
  -- blank nor in the pool; it answers the empty string where every entry is blank or in the pool.
  pub pool_ip-Found :
      (c : Checker Addr IpNet) (xff : Str)
      → (o : Option Str) × (pool_ip lib (some c) xff ≡ or_empty o) × Found c (split_comma xff) o
  unfolding pool_ip
  pool_ip-Found c xff =
      let vs = split_comma xff in (last_outside lib c vs, refl, last_outside-Found c vs)

  split_comma_pos : (s : Str) → 1 ≤ length (split_comma s)
  unfolding split_comma prepend
  split_comma_pos [] = omega arith
  split_comma_pos (x ∷ s) = ground (arith, split_comma_pos s)

  get_elem?_out : (xs : List Str) (i : ℕ) → length xs ≤ i → get_elem? xs i ≡ none
  get_elem?_out [] i h = refl
  get_elem?_out (x ∷ xs) zero h = ground arith
  get_elem?_out (x ∷ xs) (suc i) h = get_elem?_out xs i (omega arith)

  -- `DepthStrategy` panics exactly where its depth is not positive.
  depth_ip-panics :
      (depth : ℤ) (subnet : Option ℤ) (xff : Str)
      → (depth_ip lib depth subnet xff ≡ none) ↔ (depth ≤ℤ pos 0)
  unfolding depth_ip is_short from_right
  depth_ip-panics (negsuc d) subnet xff =
      let xffs = split_comma xff in
      ground (arith, get_elem?_out xffs (length xffs + suc d) (omega arith))
  depth_ip-panics (pos zero) subnet xff =
      let xffs = split_comma xff in
      ground (arith, get_elem?_out xffs (length xffs - 0) (omega arith))
  depth_ip-panics (pos (suc d)) subnet xff =
      let xffs = split_comma xff in
      elim (Bool-cases (ltb (length xffs) (suc d))) [
        | inl e ↦ ground (arith, e)
        | inr e ↦
            let long = ltb_false→le (length xffs) (suc d) e in
            let (v, found) = get_elem?_in xffs (length xffs - suc d) (omega (arith, long)) in
            ground (arith, e, found)
      ]
