-- ===== src/Group/Reads.antt =====
-- What `Get` of a group of gocache/lrucache answers, whatever the cache holds.
use go_example.Prelude.{
  ℕ, ◌+◌, ◌-◌, ◌≡◌, refl, ap, ◌∙◌, inl, inr, false, Option, none, some, List, [], ◌∷◌, arith, leb,
  ◌==◌, Bool-cases, Option-cases, length, All, some_inj,
}
use go_example.Prelude.Dict.{Str, str_eq, str_eq_iff, lookup, delete}
use go_example.Prelude.Int.{ℤ, pos}
use mathlib.Core.Path.{subst}
use go_example.Lru
use go_example.Lru.{Cache}
use go_example.Lru.Elements.{pairs}
use go_example.Lru.Invariant
use go_example.Lru.Invariant.{new-IsValid}
use go_example.Lru.Evict.{fit, kept}
use go_example.Lru.Calls.{touch, added, get_lem, add_lem}
use go_example.Group.{
  ByteView, view_len, clone_bytes, Fetched, bytes, failed, Getter, MainCache, Group, Reply, view,
  getter_error, add_fuel, lru_from, cache_add, cache_get, populate_cache, get_locally, load, answer,
  get,
}

pub clone_bytes-eq : (b : List ℕ) → clone_bytes b ≡ b
unfolding clone_bytes
clone_bytes-eq [] = refl
clone_bytes-eq (x ∷ b) = ap (◌∷◌ x) (clone_bytes-eq b)

module _ (f : Getter) where
  -- What a group answers that caches nothing.
  abbrev pub reply_of : Fetched → Reply
  reply_of (bytes b) = view (record { b = b })
  reply_of (failed e) = getter_error e

  -- The entry is what the getter returns.
  abbrev IsFetched : Str × ByteView → Type 0
  IsFetched e = f e.0 ≡ bytes e.1.b

  All-lookup :
      (k : Str) (l : List (Str × ByteView)) {v : ByteView}
      → All IsFetched l
      → lookup k l ≡ some v
      → f k ≡ bytes v.b
  unfolding lookup
  All-lookup k [] a h = absurd (cc)
  All-lookup k ((j, w) ∷ l) {v} a h = elim (Bool-cases (str_eq j k)) [
    | inl e ↦ let q : some w ≡ some v = rw e at h in rw (← (str_eq_iff j k).0 e, ← some_inj q) a.0
    | inr e ↦ All-lookup k l a.1 (rw e at h)
  ]

  All-delete : (k : Str) (l : List (Str × ByteView)) → All IsFetched l → All IsFetched (delete k l)
  unfolding delete
  All-delete k [] a = tt
  All-delete k ((j, w) ∷ l) a = elim (Bool-cases (str_eq j k)) [
    | inl e ↦ rw e (All-delete k l a.1)
    | inr e ↦ rw e (a.0, All-delete k l a.1)
  ]

  All-fit : (m : ℕ) (l : List (Str × ByteView)) → All IsFetched l → All IsFetched (fit view_len m l)
  unfolding fit
  All-fit m [] a = tt
  All-fit m ((k, v) ∷ l) a = elim (Bool-cases (leb (length k + view_len v) m)) [
    | inl e ↦ rw e (a.0, All-fit (m - (length k + view_len v)) l a.1)
    | inr e ↦ rw e tt
  ]

  All-kept :
      (m : ℕ) (l : List (Str × ByteView)) → All IsFetched l → All IsFetched (kept view_len m l)
  All-kept m l a = elim (Bool-cases (m == 0)) [ inl e ↦ rw e a | inr e ↦ rw e (All-fit m l a) ]

  All-touch : (k : Str) (l : List (Str × ByteView)) → All IsFetched l → All IsFetched (touch k l)
  All-touch k l a = elim (Option-cases (lookup k l)) [
    | inl e ↦ rw (e, touch) a
    | inr (v, e) ↦ rw (e, touch) (All-lookup k l a e, All-delete k l a)
  ]

  All-added :
      (m : ℕ) (k : Str) (v : ByteView) (l : List (Str × ByteView))
      → f k ≡ bytes v.b
      → All IsFetched l
      → All IsFetched (added view_len m k v l)
  All-added m k v l h a = elim (Option-cases (lookup k l)) [
    | inl e ↦ rw (e, added) (All-kept m ((k, v) ∷ l) (h, a))
    | inr (w, e) ↦ rw (e, added) (h, All-delete k l a)
  ]

  module _ (m : ℕ) where
    pub record IsHolding (c : Cache ByteView) : Type 0 where
      pub valid : Invariant.IsValid view_len c
      pub limit : c.max_bytes ≡ pos m
      pub fetched : All IsFetched (pairs c.ll)

    abbrev IsReady : Option (Cache ByteView) → Type 0
    IsReady none = Unit
    IsReady (some c) = IsHolding c

    -- A group with getter `f` and the byte limit `m`, which caches only what `f` returns.
    pub record IsValid (g : Group) : Type 0 where
      pub getter : g.getter ≡ f
      pub limit : g.main_cache.cache_bytes ≡ pos m
      pub ready : IsReady g.main_cache.lru

    add-IsHolding :
        (c : Cache ByteView) (k : Str) (v : ByteView)
        → f k ≡ bytes v.b
        → IsHolding c
        → (c' : Cache ByteView) × (Lru.add view_len (add_fuel c) c k v ≡ some c') × IsHolding c'
    add-IsHolding c k v h i =
        let (c', run, a) = add_lem view_len (add_fuel c) m c k v (omega arith) i.limit i.valid in
        (
          c',
          run,
          record {
            valid = a.valid;
            limit = a.limit ∙ i.limit;
            fetched = rw a.entries (All-added m k v (pairs c.ll) h i.fetched);
          },
        )

    lru_from_lem :
        (o : Option (Cache ByteView)) (n : ℤ) → n ≡ pos m → IsReady o → IsHolding (lru_from o n)
    unfolding Lru.new
    lru_from_lem none n e r = record {
      valid = new-IsValid view_len n false;
      limit = e;
      fetched = tt;
    }
    lru_from_lem (some c) n e r = r

    populate_cache_lem :
        (g : Group) (k : Str) (v : ByteView)
        → f k ≡ bytes v.b
        → IsValid g
        → (g' : Group) × (populate_cache g k v ≡ some g') × IsValid g'
    unfolding populate_cache cache_add
    populate_cache_lem g k v h i =
        let (c', run, held) =
          add-IsHolding (lru_from g.main_cache.lru g.main_cache.cache_bytes) k v h
            (lru_from_lem g.main_cache.lru g.main_cache.cache_bytes i.limit i.ready) in
        (
          record g {
            main_cache = record { lru = some c'; cache_bytes = g.main_cache.cache_bytes };
          },
          rw run,
          record { getter = i.getter; limit = i.limit; ready = held },
        )

    load_failed :
        (g : Group) (k : Str) {e : Str}
        → g.getter k ≡ failed e
        → load g k ≡ some (g, getter_error e)
    unfolding load get_locally
    load_failed g k h = rw (h, get_locally)

    load_bytes :
        (g g' : Group) (k : Str) {b : List ℕ}
        → g.getter k ≡ bytes b
        → populate_cache g k (record { b = b }) ≡ some g'
        → load g k ≡ some (g', view (record { b = b }))
    unfolding load get_locally
    load_bytes g g' k {b} h p = rw (h, get_locally, clone_bytes-eq b, p)

    load_lem :
        (g : Group) (k : Str) (r : Fetched)
        → f k ≡ r
        → IsValid g
        → (g' : Group) × (load g k ≡ some (g', reply_of r)) × IsValid g'
    load_lem g k (failed e) h v = (g, load_failed g k (ap (λ t. t k) v.getter ∙ h), v)
    load_lem g k (bytes b) h v =
        let (g', run, v') = populate_cache_lem g k (record { b = b }) h v in
        (g', load_bytes g g' k (ap (λ t. t k) v.getter ∙ h) run, v')

    cache_get-none : (c : MainCache) (k : Str) → c.lru ≡ none → cache_get c k ≡ some (c, none)
    unfolding cache_get
    cache_get-none c k e = ground arith

    cache_get-some :
        (c : MainCache) (k : Str) (l l' : Cache ByteView) (o : Option ByteView)
        → c.lru ≡ some l
        → Lru.get l k ≡ some (l', o)
        → cache_get c k ≡ some (record c { lru = some l' }, o)
    unfolding cache_get
    cache_get-some c k l l' o e h = rw (e, cache_get, h)

    get_step :
        (g : Group) (x : ℕ) (key : Str) (p : MainCache × Option ByteView)
        → cache_get g.main_cache (x ∷ key) ≡ some p
        → get g (x ∷ key) ≡ answer g (x ∷ key) p
    unfolding get
    get_step g x key p e = rw e

    -- The two answers of the main cache.
    answer_lem :
        (g : Group) (k : Str) (c : MainCache) (o : Option ByteView)
        → IsValid (record g { main_cache = c })
        → ((v : ByteView) → o ≡ some v → f k ≡ bytes v.b)
        → (g' : Group) × (answer g k (c, o) ≡ some (g', reply_of (f k))) × IsValid g'
    unfolding answer
    answer_lem g k c none v h = load_lem (record g { main_cache = c }) k (f k) refl v
    answer_lem g k c (some w) v h = (record g { main_cache = c }, rw (h w refl), v)

    -- For a key that is not empty, `Get` returns exactly what the getter returns for it, its error
    -- included, whether the value is cached or not, and keeps the group valid.
    pub get-reply_of :
        (g : Group) (x : ℕ) (key : Str)
        → IsValid g
        → (g' : Group) × (get g (x ∷ key) ≡ some (g', reply_of (f (x ∷ key)))) × IsValid g'
    get-reply_of g x key v = elim (Option-cases g.main_cache.lru) [
      | inl e ↦
          let (g', run, v') = answer_lem g (x ∷ key) g.main_cache none v (λ w q. absurd (cc)) in
          (g', get_step g x key _ (cache_get-none g.main_cache (x ∷ key) e) ∙ run, v')
      | inr (l, e) ↦
          let held : IsHolding l = subst IsReady e v.ready in
          let (l', found, i, moved, lim, _) = get_lem view_len l (x ∷ key) held.valid in
          let next : IsHolding l' = record {
            valid = i;
            limit = lim ∙ held.limit;
            fetched = rw moved (All-touch (x ∷ key) (pairs l.ll) held.fetched);
          } in
          let o = lookup (x ∷ key) (pairs l.ll) in
          let c' : MainCache = record { lru = some l'; cache_bytes = g.main_cache.cache_bytes } in
          let (g', run, v') =
            answer_lem g (x ∷ key) c' o
              (record { getter = v.getter; limit = v.limit; ready = next })
              (λ w q. All-lookup (x ∷ key) (pairs l.ll) held.fetched q) in
          (g', get_step g x key _ (cache_get-some g.main_cache (x ∷ key) l l' o e found) ∙ run, v')
    ]
