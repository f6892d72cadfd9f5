-- ===== src/Strategies/ReadThrough.antt =====
-- go_cache_strategy/strategy/readthrough/readthrough.go.
use go_example.Prelude.{Option, none, some, [], ◌∷◌, ◌++◌, length, drop, leb, if◌then◌else◌}
use go_example.Prelude.Dict.{Str}
use go_example.Prelude.Int.{ℤ}
use go_example.TtlCache
use go_example.Strategies.{Fetched, found, missing, failed, Database, Value, user, Cache}

-- What a loader returns: an `interface{}`, which is nil for `missing`, or an error.
abbrev pub Loaded : Type 0
Loaded = Fetched Value

-- `NewUserLoader`: the pointer that `GetUser` returns goes into the interface, nil or not;
-- `none` is the panic of the slice of a key that is too short.
unfoldable pub user_loader : {D : Type 0} → Database D → D → Str → Str → Option Loaded
user_loader db d key_prefix key =
    if leb (length key_prefix) (length key)
    then some (elim (db.get_user d (drop (length key_prefix) key)) [
      | found u ↦ found (user (some u))
      | missing ↦ found (user none)
      | failed e ↦ failed e
    ])
    else none

-- "loader function failed for key "
abbrev loader_prefix : Str
loader_prefix =
    b'l' ∷ b'o' ∷ b'a' ∷ b'd' ∷ b'e' ∷ b'r' ∷ 32 ∷ b'f' ∷ b'u' ∷ b'n' ∷ b'c' ∷ b't' ∷ b'i' ∷ b'o'
    ∷ b'n' ∷ 32 ∷ b'f' ∷ b'a' ∷ b'i' ∷ b'l' ∷ b'e' ∷ b'd' ∷ 32 ∷ b'f' ∷ b'o' ∷ b'r' ∷ 32 ∷ b'k'
    ∷ b'e' ∷ b'y' ∷ 32 ∷ []

-- The end of `Get`, after the loader.
unfoldable pub fill_loaded : ℤ → Str → ℤ → Loaded → Cache → Cache × Loaded
fill_loaded later key ttl (found v) c = (TtlCache.set later key v ttl c, found v)
fill_loaded later key ttl missing c = (c, missing)
fill_loaded later key ttl (failed e) c = (c, failed (loader_prefix ++ (key ++ (b':' ∷ 32 ∷ e))))

unfoldable pub load_in : ℤ → Str → ℤ → Cache → Option Loaded → Option (Cache × Loaded)
load_in later key ttl c none = none
load_in later key ttl c (some loaded) = some (fill_loaded later key ttl loaded c)

-- What follows the read of the cache.
unfoldable pub serve_value :
    (Str → Option Loaded) → ℤ → Str → ℤ → Cache × Option Value → Option (Cache × Loaded)
serve_value loader later key ttl (c, some v) = some (c, found v)
serve_value loader later key ttl (c, none) = load_in later key ttl c (loader key)

unfoldable pub get : (Str → Option Loaded) → ℤ → ℤ → Str → ℤ → Cache → Option (Cache × Loaded)
get loader now later key ttl c = serve_value loader later key ttl (TtlCache.get now key c)
