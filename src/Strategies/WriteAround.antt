-- ===== src/Strategies/WriteAround.antt =====
-- go_cache_strategy/strategy/writearound/writearound.go.
use go_example.Prelude.{Option, none, some, [], ◌∷◌, ◌++◌}
use go_example.Prelude.Dict.{Str}
use go_example.Prelude.Int.{ℤ}
use go_example.TtlCache
use go_example.Strategies.{
  LogEntry, Fetched, found, missing, failed, Database, Value, log_entry, Cache, pointer,
  as_log_entry, clean_bad,
}

unfoldable pub write_log : {D : Type 0} → Database D → D → LogEntry → Option D
write_log db d entry = db.insert_log_entry d entry

-- "failed to get log from DB: "
abbrev log_prefix : Str
log_prefix =
    b'f' ∷ b'a' ∷ b'i' ∷ b'l' ∷ b'e' ∷ b'd' ∷ 32 ∷ b't' ∷ b'o' ∷ 32 ∷ b'g' ∷ b'e' ∷ b't' ∷ 32 ∷ b'l'
    ∷ b'o' ∷ b'g' ∷ 32 ∷ b'f' ∷ b'r' ∷ b'o' ∷ b'm' ∷ 32 ∷ b'D' ∷ b'B' ∷ b':' ∷ 32 ∷ []

-- The end of `GetLog`, after the query.
unfoldable pub fill_log : ℤ → Str → ℤ → Fetched LogEntry → Cache → Cache × Fetched LogEntry
fill_log later key ttl (found l) c = (TtlCache.set later key (log_entry (some l)) ttl c, found l)
fill_log later key ttl missing c = (c, missing)
fill_log later key ttl (failed e) c = (c, failed (log_prefix ++ e))

-- What follows the type assertion on the cached value.
unfoldable pub serve_log :
    {D : Type 0}
    → Database D
    → D
    → ℤ
    → Str
    → Str
    → ℤ
    → Option Value
    → Option (Option LogEntry)
    → Cache
    → Cache × Fetched LogEntry
serve_log db d later log_id key ttl cached (some l) c = (c, pointer l)
serve_log db d later log_id key ttl cached none c =
    fill_log later key ttl (db.get_log_by_id d log_id) (clean_bad key cached c)

unfoldable pub get_log :
    {D : Type 0} → Database D → D → ℤ → ℤ → Str → Str → ℤ → Cache → Cache × Fetched LogEntry
get_log db d now later log_id key_prefix ttl c =
    let key = key_prefix ++ log_id in
    let (c', cached) = TtlCache.get now key c in
    serve_log db d later log_id key ttl cached (as_log_entry cached) c'
