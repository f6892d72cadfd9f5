-- ===== src/TtlCache/Clock.antt =====
-- The expiring cache of go_cache_strategy/internal/cache/cache.go beside a map from which nothing
-- is ever cleaned up: sequences of calls under a clock that does not go back.
use go_example.Prelude.{
  ℕ, Bool, true, false, Option, none, some, List, [], ◌∷◌, if◌then◌else◌, ◌≡◌, refl, arith, ap, ◌∙◌,
}
use go_example.Prelude.Dict.{Str, str_eq, lookup, lookup-insert, lookup-delete}
use go_example.Prelude.Int.{ℤ, pos, ◌+ℤ◌, ◌-ℤ◌, ◌≤ℤ◌, int_laws}
use go_example.TtlCache.{
  Item, TtlCache, set, get, remove, clean_up, stop_cleanup, lazy_delete, fresh, saw_expired,
  drop_expired,
}
use go_example.TtlCache.Keys.{
  IsDistinct, keep, fresh-keep, lookup-drop_expired, drop_expired-IsDistinct, insert-IsDistinct,
  delete-IsDistinct, lookup-lazy_delete, lazy_delete-IsDistinct,
}

-- What happens to a cache. `late` is the second section of a `Get` whose first section read the
-- clock some time ago.
pub data Event (V : Type 0) : Type 0 where
  write : Str → V → ℤ → Event V
  read : Str → Event V
  drop : Str → Event V
  late : ℕ → Str → Event V
  tick : Event V
  halt : Event V

module _ {V : Type 0} where
  -- An event at a time: the cache after it, and the answer of a `read`.
  unfoldable pub step : ℤ → Event V → TtlCache V → TtlCache V × List (Option V)
  step now (write key value ttl) c = (set now key value ttl c, [])
  step now (read key) c = let (c', answer) = get now key c in (c', answer ∷ [])
  step now (drop key) c = (remove key c, [])
  step now (late age key) c = (lazy_delete (now -ℤ pos age) key c, [])
  step now tick c = (clean_up now c, [])
  step now halt c = (stop_cleanup c, [])

  -- The same for a map that keeps every item until it is deleted or written again.
  unfoldable pub ideal : ℤ → Event V → (Str → Option (Item V)) → Str → Option (Item V)
  ideal now (write key value ttl) s j =
      if str_eq key j then some (record { value = value; expiration = now +ℤ ttl }) else s j
  ideal now (read key) s j = s j
  ideal now (drop key) s j = if str_eq key j then none else s j
  ideal now (late age key) s j = s j
  ideal now tick s j = s j
  ideal now halt s j = s j

  unfoldable pub ideal_answer : ℤ → Event V → (Str → Option (Item V)) → List (Option V)
  ideal_answer now (read key) s = fresh now (s key) ∷ []
  ideal_answer now (write key value ttl) s = []
  ideal_answer now (drop key) s = []
  ideal_answer now (late age key) s = []
  ideal_answer now tick s = []
  ideal_answer now halt s = []

  -- The answers of a sequence of events, each some time after the one before.
  unfoldable pub run : ℤ → List (ℕ × Event V) → TtlCache V → List (List (Option V))
  run clock [] c = []
  run clock ((elapsed, e) ∷ es) c =
      let now = clock +ℤ pos elapsed in let (c', answer) = step now e c in answer ∷ run now es c'

  unfoldable pub ideal_run :
      ℤ → List (ℕ × Event V) → (Str → Option (Item V)) → List (List (Option V))
  ideal_run clock [] s = []
  ideal_run clock ((elapsed, e) ∷ es) s =
      let now = clock +ℤ pos elapsed in ideal_answer now e s ∷ ideal_run now es (ideal now e s)

  -- From the time on, no read tells the cache from the map.
  abbrev pub Agree : ℤ → TtlCache V → (Str → Option (Item V)) → Type 0
  Agree clock c s =
      IsDistinct c.items
      × ((t : ℤ) (key : Str) → clock ≤ℤ t → fresh t (lookup key c.items) ≡ fresh t (s key))

  fresh_if :
      (b : Bool) (t : ℤ) (o p q : Option (Item V))
      → fresh t p ≡ fresh t q
      → fresh t (if b then o else p) ≡ fresh t (if b then o else q)
  fresh_if true t o p q h = refl
  fresh_if false t o p q h = h

  fresh_either :
      (b : Bool) (t : ℤ) (o p q : Option (Item V))
      → fresh t o ≡ fresh t q
      → fresh t p ≡ fresh t q
      → fresh t (if b then o else p) ≡ fresh t q
  fresh_either true t o p q h k = h
  fresh_either false t o p q h k = k

  Agree-either :
      (b : Bool) (now : ℤ) (c d : TtlCache V) (s : Str → Option (Item V))
      → Agree now c s
      → Agree now d s
      → Agree now (if b then c else d) s
  Agree-either true now c d s h k = h
  Agree-either false now c d s h k = k

  Agree-lazy_delete :
      (now past : ℤ) (key : Str) (c : TtlCache V) (s : Str → Option (Item V))
      → past ≤ℤ now
      → Agree now c s
      → Agree now (lazy_delete past key c) s
  Agree-lazy_delete now past key c s before (distinct, same) = (
    lazy_delete-IsDistinct past key c distinct,
    λ t j after.
        ap (fresh t) (lookup-lazy_delete past key j c)
        ∙ fresh_either (str_eq key j) t (keep past (lookup j c.items)) (lookup j c.items) (s j)
            (fresh-keep past t (lookup j c.items) (omega arith) ∙ same t j after) (same t j after),
  )

  Agree-get :
      (now : ℤ) (key : Str) (c : TtlCache V) (s : Str → Option (Item V))
      → Agree now c s
      → Agree now (get now key c).0 s
  unfolding get
  Agree-get now key c s a =
      Agree-either (saw_expired now (lookup key c.items)) now (lazy_delete now key c) c s
        (Agree-lazy_delete now now key c s (omega arith) a) a

  Agree-step :
      (now : ℤ) (e : Event V) (c : TtlCache V) (s : Str → Option (Item V))
      → Agree now c s
      → Agree now (step now e c).0 (ideal now e s)
  unfolding step ideal set remove clean_up stop_cleanup
  Agree-step now (write key value ttl) c s (distinct, same) = (
    insert-IsDistinct key (record { value = value; expiration = now +ℤ ttl }) c.items distinct,
    λ t j after.
        ap (fresh t)
          (lookup-insert key j (record { value = value; expiration = now +ℤ ttl }) c.items)
        ∙ fresh_if (str_eq key j) t (some (record { value = value; expiration = now +ℤ ttl }))
            (lookup j c.items) (s j) (same t j after),
  )
  Agree-step now (read key) c s a = Agree-get now key c s a
  Agree-step now (drop key) c s (distinct, same) = (
    delete-IsDistinct key c.items distinct,
    λ t j after.
        ap (fresh t) (lookup-delete key j c.items)
        ∙ fresh_if (str_eq key j) t none (lookup j c.items) (s j) (same t j after),
  )
  Agree-step now (late age key) c s a =
      Agree-lazy_delete now (now -ℤ pos age) key c s (omega int_laws) a
  Agree-step now tick c s (distinct, same) =
      Agree-either c.cleaning now (record c { items = drop_expired now c.items }) c s
        (
          drop_expired-IsDistinct now c.items distinct,
          λ t j after.
              ap (fresh t) (lookup-drop_expired now j c.items distinct)
              ∙ fresh-keep now t (lookup j c.items) after
              ∙ same t j after,
        )
        (distinct, same)
  Agree-step now halt c s a = a

  answer_lem :
      (now : ℤ) (e : Event V) (c : TtlCache V) (s : Str → Option (Item V))
      → Agree now c s
      → (step now e c).1 ≡ ideal_answer now e s
  unfolding step ideal_answer get
  answer_lem now (write key value ttl) c s a = refl
  answer_lem now (read key) c s (_, same) = ap (λ o. o ∷ []) (same now key (omega arith))
  answer_lem now (drop key) c s a = refl
  answer_lem now (late age key) c s a = refl
  answer_lem now tick c s a = refl
  answer_lem now halt c s a = refl

  -- Under a clock that does not go back, a cache that agrees with a map gives the same answers as
  -- a map from which nothing is ever cleaned up, whatever ticks of the cleanup and late deletions
  -- of other readers come in between.
  pub run-ideal_run :
      (clock : ℤ) (es : List (ℕ × Event V)) (c : TtlCache V) (s : Str → Option (Item V))
      → Agree clock c s
      → run clock es c ≡ ideal_run clock es s
  unfolding run ideal_run
  run-ideal_run clock [] c s a = refl
  run-ideal_run clock ((elapsed, e) ∷ es) c s (distinct, same) =
      let now = clock +ℤ pos elapsed in
      let later : Agree now c s = (distinct, λ t key after. same t key (omega int_laws)) in
      ap (λ x. x ∷ run now es (step now e c).0) (answer_lem now e c s later)
      ∙ ap (λ x. ideal_answer now e s ∷ x)
          (run-ideal_run now es (step now e c).0 (ideal now e s) (Agree-step now e c s later))
