-- ===== src/Group.antt =====
-- gocache/lrucache/geecache.go, cache.go and byteview.go: groups of cached values. The getter of
-- a group is a parameter of `NewGroup`, a function of the key; the mutexes order whole calls.
-- `none` is a panic, or the end of the fuel for the loop of `lru.Cache.Add`.
pub mod Reads
mod Tests
use go_example.Prelude.{
  ◌>>=◌, ℕ, ◌+◌, false, Option, none, some, List, [], ◌∷◌, length, replicate, copy,
}
use go_example.Prelude.Dict.{Str, lookup, insert}
use go_example.Prelude.Int.{ℤ}
use go_example.Lru
use go_example.Lru.{Cache}

-- `ByteView`; `cloneBytes` copies the bytes, and a list is never changed.
pub record ByteView : Type 0 where
  pub b : List ℕ

abbrev pub view_len : ByteView → ℕ
view_len v = length v.b

unfoldable pub clone_bytes : List ℕ → List ℕ
clone_bytes b = copy (replicate (length b) 0) b

-- What a getter returns: bytes, or an error.
pub data Fetched : Type 0 where
  bytes : List ℕ → Fetched
  failed : Str → Fetched

abbrev pub Getter : Type 0
Getter = Str → Fetched

-- `cache` of cache.go; `lru` is made at the first `add`.
pub record MainCache : Type 0 where
  pub lru : Option (Cache ByteView)
  pub cache_bytes : ℤ

pub record Group : Type 0 where
  pub name : Str
  pub getter : Getter
  pub main_cache : MainCache

pub data Reply : Type 0 where
  view : ByteView → Reply
  key_is_empty : Reply
  getter_error : Str → Reply

-- Rounds that are enough for the loop of `Add`.
abbrev pub add_fuel : Cache ByteView → ℕ
add_fuel c = length c.ll + 2

-- The LRU cache of a main cache, made if there is none yet.
abbrev pub lru_from : Option (Cache ByteView) → ℤ → Cache ByteView
lru_from none cache_bytes = Lru.new cache_bytes false
lru_from (some lru) cache_bytes = lru

unfoldable pub cache_add : MainCache → Str → ByteView → Option MainCache
cache_add c key value = do
  let lru = lru_from c.lru c.cache_bytes
  lru' ← Lru.add view_len (add_fuel lru) lru key value
  some (record c { lru = some lru' })

unfoldable pub cache_get : MainCache → Str → Option (MainCache × Option ByteView)
cache_get c key = elim c.lru [
  | none ↦ some (c, none)
  | some lru ↦ do (lru', v) ← Lru.get lru key; some (record c { lru = some lru' }, v)
]

unfoldable pub populate_cache : Group → Str → ByteView → Option Group
populate_cache g key value = do
  c ← cache_add g.main_cache key value
  some (record g { main_cache = c })

unfoldable pub get_locally : Group → Str → Option (Group × Reply)
get_locally g key = elim (g.getter key) [
  | failed e ↦ some (g, getter_error e)
  | bytes b ↦ do
    let value : ByteView = record { b = clone_bytes b }
    g' ← populate_cache g key value
    some (g', view value)
]

unfoldable pub load : Group → Str → Option (Group × Reply)
load g key = get_locally g key

-- `Get` after the test of the key, with what the main cache answers.
unfoldable pub answer : Group → Str → MainCache × Option ByteView → Option (Group × Reply)
answer g key (c, some v) = some (record g { main_cache = c }, view v)
answer g key (c, none) = load (record g { main_cache = c }) key

unfoldable pub get : Group → Str → Option (Group × Reply)
get g [] = some (g, key_is_empty)
get g (x ∷ key) = do found ← cache_get g.main_cache (x ∷ key); answer g (x ∷ key) found

-- The global `groups`.
abbrev pub Registry : Type 0
Registry = List (Str × Group)

-- A nil getter panics. A group of the same name is replaced.
unfoldable pub new_group : Registry → Str → ℤ → Option Getter → Option (Registry × Group)
new_group groups name cache_bytes getter = do
  f ← getter
  let g : Group = record {
    name = name;
    getter = f;
    main_cache = record { lru = none; cache_bytes = cache_bytes };
  }
  some (insert name g groups, g)

unfoldable pub get_group : Registry → Str → Option Group
get_group groups name = lookup name groups
