-- ===== src/Strategies/WriteThrough.antt =====
-- go_cache_strategy/strategy/writethrough/writethrough.go.
use go_example.Prelude.{Option, none, some, ◌++◌, Bool, true, false}
use go_example.Prelude.Dict.{Str}
use go_example.Prelude.Int.{ℤ}
use go_example.TtlCache
use go_example.Strategies.{User, Database, user, Cache}

-- What follows the write to the database: the two states and whether there was no error.
unfoldable pub written : {D : Type 0} → ℤ → User → Str → ℤ → D → Cache → Option D → D × Cache × Bool
written now u key_prefix ttl d c none = (d, c, false)
written now u key_prefix ttl d c (some d') =
    (d', TtlCache.set now (key_prefix ++ u.id) (user (some u)) ttl c, true)

unfoldable pub update_user :
    {D : Type 0} → Database D → D → ℤ → User → Str → ℤ → Cache → D × Cache × Bool
update_user db d now u key_prefix ttl c = written now u key_prefix ttl d c (db.update_user d u)
