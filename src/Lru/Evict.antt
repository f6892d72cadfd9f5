-- ===== src/Lru/Evict.antt =====
-- The loop of `Add` in gocache/lrucache/lru/lru.go: it ends, and keeps the most recent entries
-- that fit.
use go_example.Prelude.{
  ℕ, zero, suc, ◌+◌, ◌-◌, ◌≤◌, ◌<◌, ◌≡◌, refl, sym, ap, ◌∙◌, ◌≢◌, inl, inr, true, false, not, ◌&&◌,
  some, List, [], ◌∷◌, ◌++◌, arith, dec_lt, ℕ_discrete, ltb, leb, ◌==◌, if◌then◌else◌, le→leb,
  lt→leb_false, Bool-cases, length, ne→==_false,
}
use go_example.Prelude.Dict.{Str}
use go_example.Prelude.Int.{pos}
use native.Mathlib.Nat.{add-zero}
use go_example.Lru.{Cache, Element, back, unlink, remove_oldest, is_over, evict}
use go_example.Lru.Elements.{pairs, init, back-cons}
use go_example.Lru.Invariant.{IsValid, total, oldest_lem}

lt_zero : {m t : ℕ} → m < t → 0 < t
lt_zero h = omega arith

under : (m t : ℕ) → m ≢ 0 → (not (leb m 0) && ltb m t) ≡ false → t ≤ m
under m t nz h = ground arith

over : (m t : ℕ) → (not (leb m 0) && ltb m t) ≡ true → (m ≢ 0) × (m < t)
over m t h = ground arith

module _ {V : Type 0} (size : V → ℕ) where
  -- The longest beginning of the entries, most recent first, of at most `m` bytes.
  unfoldable pub fit : ℕ → List (Str × V) → List (Str × V)
  fit m [] = []
  fit m ((k, v) ∷ l) =
      let cost = length k + size v in
      let rest = fit (m - cost) l in if leb cost m then (k, v) ∷ rest else []

  -- The limit 0 is no limit.
  abbrev pub kept : ℕ → List (Str × V) → List (Str × V)
  kept m l = if m == 0 then l else fit m l

  fit_all : (m : ℕ) (l : List (Str × V)) → total size l ≤ m → fit m l ≡ l
  unfolding fit
  fit_all m [] h = refl
  fit_all m ((k, v) ∷ l) h =
      rw (le→leb (length k + size v) m (omega arith))
        (ap (◌∷◌ (k, v)) (fit_all (m - (length k + size v)) l (omega arith)))

  fit-init : (m : ℕ) (l : List (Str × V)) → m < total size l → fit m (init l) ≡ fit m l
  unfolding fit
  fit-init m [] h = refl
  fit-init m ((k, v) ∷ []) h = rw (lt→leb_false (length k + size v) m (omega arith))
  fit-init m ((k, v) ∷ y ∷ l) h = elim (dec_lt m (length k + size v)) [
    | yes p ↦ rw (lt→leb_false (length k + size v) m p)
    | no p ↦ rw (fit-init (m - (length k + size v)) (y ∷ l) (omega arith))
  ]

  pub is_over_iff :
      (c : Cache V) (m : ℕ)
      → c.max_bytes ≡ pos m
      → IsValid size c
      → is_over size c ≡ (not (leb m 0) && ltb m (total size (pairs c.ll)))
  unfolding is_over
  is_over_iff c m e v = rw (e, v.bytes) (simp add-zero)

  kept_all :
      (m : ℕ) (l : List (Str × V)) → (not (leb m 0) && ltb m (total size l)) ≡ false → kept m l ≡ l
  kept_all m l h = elim (ℕ_discrete m 0) [
    | yes z ↦ rw z
    | no nz ↦ rw (ne→==_false m 0 nz) (fit_all m l (under m (total size l) nz h))
  ]

  kept-init :
      (m : ℕ) (l : List (Str × V))
      → (not (leb m 0) && ltb m (total size l)) ≡ true
      → kept m (init l) ≡ kept m l
  kept-init m l h =
      let (nz, lt) = over m (total size l) h in rw (ne→==_false m 0 nz) (fit-init m l lt)

  back_of_total :
      (l : List (Element V)) → 0 < total size (pairs l) → (e : Element V) × (back l ≡ some e)
  back_of_total [] h = absurd (omega arith)
  back_of_total (x ∷ l) h = back-cons x l

  -- What the loop leaves of a cache.
  pub record Evicted (m : ℕ) (c c' : Cache V) : Type 0 where
    pub valid : IsValid size c'
    pub entries : pairs c'.ll ≡ kept m (pairs c.ll)
    pub limit : c'.max_bytes ≡ c.max_bytes
    pub hook : c'.on_evicted ≡ c.on_evicted
    pub log : c.on_evicted ≡ true → pairs c'.ll ++ c'.evicted ≡ pairs c.ll ++ c.evicted

  stop :
      (m : ℕ) (c : Cache V)
      → IsValid size c
      → (not (leb m 0) && ltb m (total size (pairs c.ll))) ≡ false
      → Evicted m c c
  stop m c v h = record {
    valid = v;
    entries = sym (kept_all m (pairs c.ll) h);
    limit = refl;
    hook = refl;
    log = λ _. refl;
  }

  evict_more :
      (fuel : ℕ) (c : Cache V) {e : Element V}
      → is_over size c ≡ true
      → back c.ll ≡ some e
      → evict size (suc fuel) c ≡ evict size fuel (unlink size e c)
  unfolding evict remove_oldest
  evict_more fuel c h last = ground arith

  evict_done : (fuel : ℕ) (c : Cache V) → is_over size c ≡ false → evict size (suc fuel) c ≡ some c
  unfolding evict
  evict_done fuel c h = ground arith

  pub evict_lem :
      (fuel m : ℕ) (c : Cache V)
      → length c.ll < fuel
      → c.max_bytes ≡ pos m
      → IsValid size c
      → (c' : Cache V) × (evict size fuel c ≡ some c') × Evicted m c c'
  evict_lem zero m c f e v = absurd (omega arith)
  evict_lem (suc fuel) m c f e v =
      elim (Bool-cases (not (leb m 0) && ltb m (total size (pairs c.ll)))) [
        | inl more ↦
            let (b, last) =
              back_of_total c.ll (lt_zero (over m (total size (pairs c.ll)) more).1) in
            let o = oldest_lem size c last v in
            let (c', run, ev) =
              evict_lem fuel m (unlink size b c) (omega (arith, o.fewer)) (o.limit ∙ e) o.valid in
            (
              c',
              evict_more fuel c (is_over_iff c m e v ∙ more) last ∙ run,
              record {
                valid = ev.valid;
                entries = ev.entries ∙ ap (kept m) o.entries ∙ kept-init m (pairs c.ll) more;
                limit = ev.limit ∙ o.limit;
                hook = ev.hook ∙ o.hook;
                log = λ h. ev.log (o.hook ∙ h) ∙ o.log h;
              },
            )
        | inr done ↦ (c, evict_done fuel c (is_over_iff c m e v ∙ done), stop m c v done)
      ]
