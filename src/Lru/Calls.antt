-- ===== src/Lru/Calls.antt =====
-- `Get` and `Add` of gocache/lrucache/lru/lru.go against a list of entries, the most recently
-- used first.
use go_example.Prelude.{
  ℕ, ◌+◌, ◌<◌, ◌≡◌, refl, sym, ap, ◌∙◌, inl, inr, none, some, List, [], ◌∷◌, arith, ==_iff,
  Bool-cases, Option-cases, length,
}
use go_example.Prelude.Dict.{Str, str_eq, str_eq_iff, lookup, delete, lookup-insert}
use go_example.Prelude.Int.{ℤ, pos, ◌+ℤ◌, ◌-ℤ◌, pos_add, pos_swap}
use mathlib.Core.Bool.{false≢true}
use go_example.Lru.{
  Cache, Element, find, remove, move_to_front, set_value, get, replace, push_front, evict, add,
}
use go_example.Lru.Elements.{pairs, id_of}
use go_example.Lru.Invariant.{IsBelow, IsValid, total}
use go_example.Lru.Evict.{kept, evict_lem}
use go_example.Lru.Hit.{
  Hit, hit, id_of-lookup, IsFresh-new, IsDistinct-remove, IsBelow-remove, total-remove,
}

module _ {V : Type 0} where
  -- A use of a key moves its entry to the front.
  abbrev pub touch : Str → List (Str × V) → List (Str × V)
  touch k l = elim (lookup k l) [ none ↦ l | some v ↦ (k, v) ∷ delete k l ]

  IsBelow-find :
      (n p : ℕ) (l : List (Element V)) {e : Element V} → IsBelow n l → find p l ≡ some e → e.id < n
  unfolding find
  IsBelow-find n p [] b h = absurd (cc)
  IsBelow-find n p (x ∷ l) {e} b h = ground (arith, IsBelow-find n p l {e = e} b.1)

  -- The list with the element of `k` at the front holding `v`.
  id_of-front :
      (k j : Str) (p : ℕ) (l : List (Element V)) (v : V)
      → id_of k l ≡ some p
      → Hit k p l
      → id_of j (record { id = p; key = k; value = v } ∷ remove p l) ≡ id_of j l
  unfolding id_of
  id_of-front k j p l v h t = elim (Bool-cases (str_eq k j)) [
    | inl e ↦ rw e (sym h ∙ ap (λ i. id_of i l) ((str_eq_iff k j).0 e))
    | inr e ↦ rw e (t.others j (λ q. false≢true (sym e ∙ (str_eq_iff k j).1 q)))
  ]

module _ {V : Type 0} (size : V → ℕ) where
  -- The cache with the element of `k` at the front holding `v`.
  abbrev front : Cache V → Str → ℕ → V → ℤ → Cache V
  front c k p v n = record c {
    ll = record { id = p; key = k; value = v } ∷ remove p c.ll;
    n_bytes = n;
  }

  front-IsValid :
      (c : Cache V) (k : Str) (p : ℕ) (v : V)
      → IsValid size c
      → lookup k c.cache ≡ some p
      → (h : Hit k p c.ll) → {n : ℤ}
      → n ≡ pos (length k + size v + total size (delete k (pairs c.ll)))
      → IsValid size (front c k p v n)
  front-IsValid c k p v a look h e = record {
    index = λ j. a.index j ∙ sym (id_of-front k j p c.ll v (sym (a.index k) ∙ look) h);
    distinct = (h.apart, IsDistinct-remove p c.ll a.distinct);
    below = (IsBelow-find c.fresh p c.ll a.below h.found, IsBelow-remove c.fresh p c.ll a.below);
    bytes = e ∙ ap (λ l. pos (length k + size v + total size l)) (sym h.rest);
  }

  -- The map's element for a key.
  Hit-of :
      (c : Cache V) (k : Str) {p : ℕ} → IsValid size c → lookup k c.cache ≡ some p → Hit k p c.ll
  Hit-of c k {p} v h = hit k p c.ll v.distinct (sym (v.index k) ∙ h)

  -- The bytes of the list do not change when an entry moves to the front.
  total-Hit :
      (c : Cache V) (k : Str) (p : ℕ)
      → (h : Hit k p c.ll)
      → total size (pairs c.ll) ≡ length k + size h.value + total size (delete k (pairs c.ll))
  total-Hit c k p h =
      let e = ap (total size) h.rest in omega (arith, total-remove size p c.ll h.found)

  moved :
      (c : Cache V) (k : Str) (p : ℕ) (h : Hit k p c.ll)
      → move_to_front p c.ll ≡ record { id = p; key = k; value = h.value } ∷ remove p c.ll
  unfolding move_to_front
  moved c k p h = rw (h.found, move_to_front)

  get-Hit :
      (c : Cache V) (k : Str) (p : ℕ) (h : Hit k p c.ll)
      → lookup k c.cache ≡ some p
      → get c k ≡ some (front c k p h.value c.n_bytes, some h.value)
  unfolding get find
  get-Hit c k p h look = rw (look, get, moved c k p h, (==_iff p p).1 refl)

  get_miss : (c : Cache V) (k : Str) → lookup k c.cache ≡ none → get c k ≡ some (c, none)
  unfolding get
  get_miss c k h = rw (h, get)

  -- `Get` never meets a stale pointer, returns the value of the key's entry, if any, moves the
  -- entry to the front, keeps the limit and the count of bytes, and keeps the cache valid.
  pub get_lem :
      (c : Cache V) (k : Str)
      → IsValid size c
      → (c' : Cache V) × (get c k ≡ some (c', lookup k (pairs c.ll)))
        × IsValid size c'
        × (pairs c'.ll ≡ touch k (pairs c.ll))
        × (c'.max_bytes ≡ c.max_bytes)
        × (c'.n_bytes ≡ c.n_bytes)
  get_lem c k v = elim (Option-cases (lookup k c.cache)) [
    | inl miss ↦
        let e = id_of-lookup k c.ll (sym (v.index k) ∙ miss) in
        (c, rw e (get_miss c k miss), v, rw (e, touch), refl, refl)
    | inr (p, look) ↦
        let h = Hit-of c k v look in
        let n : c.n_bytes ≡ pos (length k + size h.value + total size (delete k (pairs c.ll))) =
          v.bytes ∙ ap pos (total-Hit c k p h) in
        (
          front c k p h.value c.n_bytes,
          rw h.read (get-Hit c k p h look),
          front-IsValid c k p h.value v look h n,
          rw (h.read, touch) (ap (◌∷◌ (k, h.value)) h.rest),
          refl,
          refl,
        )
  ]

  -- A new entry goes in front and pushes out the oldest ones; that of a known key moves to the
  -- front, with no entry pushed out.
  abbrev pub added : ℕ → Str → V → List (Str × V) → List (Str × V)
  added m k v l = elim (lookup k l) [
    | none ↦ kept size m ((k, v) ∷ l)
    | some _ ↦ (k, v) ∷ delete k l
  ]

  add-Hit :
      (fuel : ℕ) (c : Cache V) (k : Str) (v : V) (p : ℕ) (h : Hit k p c.ll)
      → lookup k c.cache ≡ some p
      → add size fuel c k v
        ≡ some (front c k p v (c.n_bytes +ℤ (pos (size v) -ℤ pos (size h.value))))
  unfolding add replace find set_value
  add-Hit fuel c k v p h look = rw (look, add, moved c k p h, (==_iff p p).1 refl)

  pub add_miss :
      (fuel : ℕ) (c : Cache V) (k : Str) (v : V)
      → lookup k c.cache ≡ none
      → add size fuel c k v ≡ evict size fuel (push_front size c k v)
  unfolding add
  add_miss fuel c k v h = rw (h, add)

  IsBelow-suc : (n : ℕ) (l : List (Element V)) → IsBelow n l → IsBelow (n + 1) l
  IsBelow-suc n [] b = tt
  IsBelow-suc n (x ∷ l) b = (omega arith, IsBelow-suc n l b.1)

  pub push_front-IsValid :
      (c : Cache V) (k : Str) (v : V)
      → lookup k c.cache ≡ none
      → IsValid size c
      → IsValid size (push_front size c k v)
  unfolding push_front id_of
  push_front-IsValid c k v h a = record {
    index = λ j. rw (lookup-insert, a.index j);
    distinct = (IsFresh-new k c.fresh c.ll (sym (a.index k) ∙ h) a.below, a.distinct);
    below = (omega arith, IsBelow-suc c.fresh c.ll a.below);
    bytes = rw a.bytes (pos_add (total size (pairs c.ll)) (length k) (size v));
  }

  -- What `Add` leaves of a cache.
  pub record Added (m : ℕ) (k : Str) (v : V) (c c' : Cache V) : Type 0 where
    pub valid : IsValid size c'
    pub entries : pairs c'.ll ≡ added m k v (pairs c.ll)
    pub limit : c'.max_bytes ≡ c.max_bytes

  -- With a limit that is not negative and fuel for one more than the entries, `Add` ends, keeps
  -- the cache valid, and leaves the entries of `added`.
  pub add_lem :
      (fuel m : ℕ) (c : Cache V) (k : Str) (v : V)
      → length c.ll + 1 < fuel
      → c.max_bytes ≡ pos m
      → IsValid size c
      → (c' : Cache V) × (add size fuel c k v ≡ some c') × Added m k v c c'
  unfolding push_front
  add_lem fuel m c k v f e a = elim (Option-cases (lookup k c.cache)) [
    | inl miss ↦
        let (c', run, ev) =
          evict_lem size fuel m (push_front size c k v) (omega arith) e
            (push_front-IsValid c k v miss a) in
        let none_ = id_of-lookup k c.ll (sym (a.index k) ∙ miss) in
        (
          c',
          add_miss fuel c k v miss ∙ run,
          record { valid = ev.valid; entries = rw (none_, added) ev.entries; limit = ev.limit },
        )
    | inr (p, look) ↦
        let h = Hit-of c k a look in
        let n : c.n_bytes +ℤ (pos (size v) -ℤ pos (size h.value))
            ≡ pos (length k + size v + total size (delete k (pairs c.ll))) =
          rw (a.bytes, total-Hit c k p h)
            (pos_swap (length k) (total size (delete k (pairs c.ll))) (size v) (size h.value)) in
        (
          front c k p v _,
          add-Hit fuel c k v p h look,
          record {
            valid = front-IsValid c k p v a look h n;
            entries = rw (h.read, added) (ap (◌∷◌ (k, v)) h.rest);
            limit = refl;
          },
        )
  ]
