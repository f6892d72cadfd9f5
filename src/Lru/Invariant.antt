-- ===== src/Lru/Invariant.antt =====
-- The validity of a cache of gocache/lrucache/lru/lru.go: the map and the list agree, and
-- `nBytes` counts the bytes of the entries.
use go_example.Prelude.{
  ℕ, ◌+◌, ◌<◌, ◌≡◌, refl, ap, Bool, true, some, List, [], ◌∷◌, ◌++◌, arith, length,
}
use go_example.Prelude.Dict.{Str, lookup, lookup-delete}
use go_example.Prelude.Int.{ℤ, pos, pos_sub}
use go_example.Lru.{Cache, Element, back, new, unlink}
use go_example.Lru.Elements.{
  pairs, id_of, IsDistinct, init, length-init-back, pairs-init, IsDistinct-init, remove-back,
  id_of-init,
}

module _ {V : Type 0} where
  -- No pointer in use is `n` or above.
  abbrev pub IsBelow : ℕ → List (Element V) → Type 0
  IsBelow n [] = Unit
  IsBelow n (e ∷ l) = (e.id < n) × IsBelow n l

  IsBelow-init : (n : ℕ) (l : List (Element V)) → IsBelow n l → IsBelow n (init l)
  IsBelow-init n [] b = tt
  IsBelow-init n (e ∷ []) b = tt
  IsBelow-init n (e ∷ g ∷ l) b = (b.0, IsBelow-init n (g ∷ l) b.1)

module _ {V : Type 0} (size : V → ℕ) where
  -- The bytes that a list of entries counts for.
  abbrev pub total : List (Str × V) → ℕ
  total [] = 0
  total ((k, v) ∷ l) = length k + size v + total l

  pub record IsValid (c : Cache V) : Type 0 where
    pub index : (k : Str) → lookup k c.cache ≡ id_of k c.ll
    pub distinct : IsDistinct c.ll
    pub below : IsBelow c.fresh c.ll
    pub bytes : c.n_bytes ≡ pos (total (pairs c.ll))

  pub total-back :
      (l : List (Element V)) {e : Element V}
      → back l ≡ some e
      → total (init (pairs l)) + (length e.key + size e.value) ≡ total (pairs l)
  unfolding back
  total-back [] b = absurd (cc)
  total-back (x ∷ []) b = ground arith
  total-back (x ∷ y ∷ l) {e} b = omega (arith, total-back (y ∷ l) b)

  init-append :
      (l : List (Element V)) (log : List (Str × V)) {e : Element V}
      → back l ≡ some e
      → init (pairs l) ++ ((e.key, e.value) ∷ log) ≡ pairs l ++ log
  unfolding back
  init-append [] log b = absurd (cc)
  init-append (x ∷ []) log b = ground arith
  init-append (x ∷ y ∷ l) log b = ap (◌∷◌ (x.key, x.value)) (init-append (y ∷ l) log b)

  -- What `RemoveOldest` does to a valid cache with an entry.
  pub record Oldest (c c' : Cache V) : Type 0 where
    pub valid : IsValid c'
    pub entries : pairs c'.ll ≡ init (pairs c.ll)
    pub fewer : length c'.ll + 1 ≡ length c.ll
    pub limit : c'.max_bytes ≡ c.max_bytes
    pub hook : c'.on_evicted ≡ c.on_evicted
    pub log : c.on_evicted ≡ true → pairs c'.ll ++ c'.evicted ≡ pairs c.ll ++ c.evicted

  pub new-IsValid : (m : ℤ) (hook : Bool) → IsValid (new m hook)
  unfolding new lookup id_of
  new-IsValid m hook = record { index = λ k. refl; distinct = tt; below = tt; bytes = refl }

  pub oldest_lem :
      (c : Cache V) {e : Element V} → back c.ll ≡ some e → IsValid c → Oldest c (unlink size e c)
  unfolding unlink
  oldest_lem c {e} last v =
      let rest = remove-back c.ll v.distinct last in
      record {
        valid = record {
          index = λ k. rw (lookup-delete, rest, id_of-init k c.ll v.distinct last, v.index k);
          distinct = rw rest (IsDistinct-init c.ll v.distinct);
          below = rw rest (IsBelow-init c.fresh c.ll v.below);
          bytes = rw (rest, pairs-init, v.bytes) (pos_sub _ _ _ _ (total-back c.ll last));
        };
        entries = rw rest (pairs-init c.ll);
        fewer = rw rest (length-init-back c.ll last);
        limit = refl;
        hook = refl;
        log = λ h. rw (rest, pairs-init, h) (init-append c.ll c.evicted last);
      }
