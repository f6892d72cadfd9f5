-- ===== src/TtlCache.antt =====
-- go_cache_strategy/internal/cache/cache.go: the in-memory cache whose items expire. Times are in
-- nanoseconds and are arguments of the calls that ask the clock. `Get` holds the lock twice: the
-- read and the lazy deletion are two steps, and `get` is the two without a call in between.
pub mod Keys
pub mod Clock
mod Tests
use go_example.Prelude.{Bool, true, false, Option, none, some, List, [], ◌∷◌, if◌then◌else◌}
use go_example.Prelude.Dict.{Str, lookup, insert, delete}
use go_example.Prelude.Int.{ℤ, pos, ◌+ℤ◌, ltb_ℤ}

module _ (V : Type 0) where
  -- `cacheItem`
  pub record Item : Type 0 where
    pub value : V
    pub expiration : ℤ

  -- `InMemoryCache`; `cleaning` tells that the goroutine of `runCleanup` runs, `stopped` that
  -- the channel `stop` is closed.
  pub record TtlCache : Type 0 where
    pub items : List (Str × Item)
    pub cleaning : Bool
    pub stopped : Bool

module _ {V : Type 0} where
  unfoldable pub new : ℤ → TtlCache V
  new interval = record { items = []; cleaning = ltb_ℤ (pos 0) interval; stopped = false }

  unfoldable pub set : ℤ → Str → V → ℤ → TtlCache V → TtlCache V
  set now key value ttl c = record c {
    items = insert key (record { value = value; expiration = now +ℤ ttl }) c.items;
  }

  -- `now > item.expiration`
  unfoldable pub is_expired : ℤ → Item V → Bool
  is_expired now item = ltb_ℤ item.expiration now

  -- What `Get` answers from the item that it read.
  unfoldable pub fresh : ℤ → Option (Item V) → Option V
  fresh now none = none
  fresh now (some item) = if is_expired now item then none else some item.value

  -- The second section of `Get`, with the time of the first: the item may be another by now.
  unfoldable pub lazy_delete : ℤ → Str → TtlCache V → TtlCache V
  lazy_delete now key c = elim (lookup key c.items) [
    | none ↦ c
    | some item ↦ if is_expired now item then record c { items = delete key c.items } else c
  ]

  -- Whether `Get` enters its second section.
  unfoldable pub saw_expired : ℤ → Option (Item V) → Bool
  saw_expired now none = false
  saw_expired now (some item) = is_expired now item

  unfoldable pub get : ℤ → Str → TtlCache V → TtlCache V × Option V
  get now key c =
      let item = lookup key c.items in
      ((if saw_expired now item then lazy_delete now key c else c), fresh now item)

  unfoldable pub remove : Str → TtlCache V → TtlCache V
  remove key c = record c { items = delete key c.items }

  -- The loop over the items in `runCleanup`.
  unfoldable pub drop_expired : ℤ → List (Str × Item V) → List (Str × Item V)
  drop_expired now [] = []
  drop_expired now ((key, item) ∷ items) =
      let rest = drop_expired now items in if is_expired now item then rest else (key, item) ∷ rest

  -- One tick of `runCleanup`.
  unfoldable pub clean_up : ℤ → TtlCache V → TtlCache V
  clean_up now c = if c.cleaning then record c { items = drop_expired now c.items } else c

  -- `StopCleanup`; a second call finds the channel closed.
  unfoldable pub stop_cleanup : TtlCache V → TtlCache V
  stop_cleanup c = record c { cleaning = false; stopped = true }
