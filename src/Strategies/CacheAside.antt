-- ===== src/Strategies/CacheAside.antt =====
-- go_cache_strategy/strategy/cacheaside/cacheaside.go.
use go_example.Prelude.{Option, none, some, [], ◌∷◌, ◌++◌}
use go_example.Prelude.Dict.{Str}
use go_example.Prelude.Int.{ℤ}
use go_example.TtlCache
use go_example.Strategies.{
  User, Fetched, found, missing, failed, Database, Value, user, Cache, pointer, as_user, clean_bad,
}

-- "failed to get user from DB: ", what `fmt.Errorf` puts before the message of an error.
abbrev pub user_prefix : Str
user_prefix =
    b'f' ∷ b'a' ∷ b'i' ∷ b'l' ∷ b'e' ∷ b'd' ∷ 32 ∷ b't' ∷ b'o' ∷ 32 ∷ b'g' ∷ b'e' ∷ b't' ∷ 32 ∷ b'u'
    ∷ b's' ∷ b'e' ∷ b'r' ∷ 32 ∷ b'f' ∷ b'r' ∷ b'o' ∷ b'm' ∷ 32 ∷ b'D' ∷ b'B' ∷ b':' ∷ 32 ∷ []

-- The end of `GetUser`, after the query.
unfoldable pub fill : ℤ → Str → ℤ → Fetched User → Cache → Cache × Fetched User
fill later key ttl (found u) c = (TtlCache.set later key (user (some u)) ttl c, found u)
fill later key ttl missing c = (c, missing)
fill later key ttl (failed e) c = (c, failed (user_prefix ++ e))

-- What follows the type assertion on the cached value.
unfoldable pub serve :
    {D : Type 0}
    → Database D
    → D
    → ℤ
    → Str
    → Str
    → ℤ
    → Option Value
    → Option (Option User)
    → Cache
    → Cache × Fetched User
serve db d later user_id key ttl cached (some u) c = (c, pointer u)
serve db d later user_id key ttl cached none c =
    fill later key ttl (db.get_user d user_id) (clean_bad key cached c)

-- The cache is read at `now` and filled at `later`.
unfoldable pub get_user :
    {D : Type 0} → Database D → D → ℤ → ℤ → Str → Str → ℤ → Cache → Cache × Fetched User
get_user db d now later user_id key_prefix ttl c =
    let key = key_prefix ++ user_id in
    let (c', cached) = TtlCache.get now key c in
    serve db d later user_id key ttl cached (as_user cached) c'
