-- ===== src/Strategies.antt =====
-- go_cache_strategy/strategy: cache-aside, read-through, write-through and write-around over the
-- expiring cache of TtlCache. The interface `Database` of internal/database/database.go is a record
-- of functions over a state of the database, which only its writes change. A pointer in the cache
-- is the value it leads to, or `none` for a nil pointer.
pub mod CacheAside
pub mod WriteAround
pub mod WriteThrough
pub mod ReadThrough
pub mod Coherence
pub mod Runs
pub mod NilPointers
mod Tests
use go_example.Prelude.{Option, none, some, List, Bool}
use go_example.Prelude.Dict.{Str}
use go_example.Prelude.Int.{ℤ}
use go_example.TtlCache
use go_example.TtlCache.{TtlCache}

-- `models.User`
pub record User : Type 0 where
  pub id : Str
  pub name : Str

-- `models.LogEntry`
pub record LogEntry : Type 0 where
  pub timestamp : ℤ
  pub level : Str
  pub message : Str
  pub id : Str

-- A query's result: a row, no row (`nil, nil`), or an error, which is its message.
pub data Fetched (A : Type 0) : Type 0 where
  found : A → Fetched A
  missing : Fetched A
  failed : Str → Fetched A

-- The interface `Database`, on a state `D`; a write that fails is `none`. `bulk_update_users` is
-- told whether its context is cancelled.
pub record Database (D : Type 0) : Type 0 where
  pub get_user : D → Str → Fetched User
  pub update_user : D → User → Option D
  pub bulk_update_users : Bool → D → List User → Option D
  pub insert_log_entry : D → LogEntry → Option D
  pub get_log_by_id : D → Str → Fetched LogEntry

-- What the cache holds: an `interface{}` with a pointer of one of the two types.
pub data Value : Type 0 where
  user : Option User → Value
  log_entry : Option LogEntry → Value

abbrev pub Cache : Type 0
Cache = TtlCache Value

-- A pointer and a nil error.
abbrev pub pointer : {A : Type 0} → Option A → Fetched A
pointer none = missing
pointer (some a) = found a

-- The type assertion on a cached value.
unfoldable pub as_user : Option Value → Option (Option User)
as_user none = none
as_user (some (user u)) = some u
as_user (some (log_entry l)) = none

unfoldable pub as_log_entry : Option Value → Option (Option LogEntry)
as_log_entry none = none
as_log_entry (some (user u)) = none
as_log_entry (some (log_entry l)) = some l

-- The cache after a failed type assertion: the value is deleted.
unfoldable pub clean_bad : Str → Option Value → Cache → Cache
clean_bad key none c = c
clean_bad key (some v) c = TtlCache.remove key c
