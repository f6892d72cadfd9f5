-- ===== src/Strategies/Tests.antt =====
-- Runs of the strategies of go_cache_strategy over a table of users, and the witnesses of their
-- theorems.
use go_example.Prelude.{false, Option, none, some, List, [], ◌∷◌, ◌≡◌, refl, if◌then◌else◌, arith}
use go_example.Prelude.Dict.{Str, str_eq, insert, lookup, lookup-insert}
use go_example.Prelude.Int.{ℤ, pos, ◌+ℤ◌, ◌≤ℤ◌}
use go_example.TtlCache
use go_example.TtlCache.{TtlCache}
use go_example.Strategies.{User, Fetched, found, missing, Database, user, Cache}
use go_example.Strategies.ReadThrough.{get, user_loader}
use go_example.Strategies.Coherence.{Stores}
use go_example.Strategies.Runs.{Call, read, write, run, direct_run, run-direct_run}
use go_example.Strategies.NilPointers.{get-nil_cached}

-- A table of users that refuses an empty id.
abbrev Table : Type 0
Table = List (Str × User)

abbrev row : Option User → Fetched User
row none = missing
row (some u) = found u

unfoldable put : Table → Str → User → Option Table
put d [] u = none
put d (x ∷ id) u = some (insert (x ∷ id) u d)

abbrev table : Database Table
table = record {
  get_user = λ d id. row (lookup id d);
  update_user = λ d u. put d u.id u;
  bulk_update_users = λ cancelled d users. none;
  insert_log_entry = λ d entry. none;
  get_log_by_id = λ d id. missing;
}

abbrev ann : User
ann = record { id = b'a' ∷ []; name = b'A' ∷ [] }

abbrev anna : User
anna = record { id = b'a' ∷ []; name = b'A' ∷ b'a' ∷ [] }

abbrev no_cache : Cache
no_cache = record { items = []; cleaning = false; stopped = false }

abbrev calls : List Call
calls =
    read (pos 0) (pos 1) ann.id (pos 9)
    ∷ write (pos 2) anna (pos 9)
    ∷ read (pos 3) (pos 3) ann.id (pos 9)
    ∷ read (pos 20) (pos 21) ann.id (pos 9)
    ∷ []

abbrev users : Table
users = (ann.id, ann) ∷ []

put_lem :
    (d d' : Table) (id : Str) (u : User)
    → put d id u ≡ some d'
    → (j : Str) → row (lookup j d') ≡ (if str_eq id j then found u else row (lookup j d))
unfolding put
put_lem d d' [] u e j = ground arith
put_lem d d' (x ∷ id) u e j = ground (arith, lookup-insert (x ∷ id) j u d, e)

table-Stores : Stores table (b'u' ∷ [])
table-Stores d d' u e j = put_lem d d' u.id u e j

run-direct_run_example :
    run table (b'u' ∷ []) calls users no_cache ≡ direct_run table (b'u' ∷ []) calls users
unfolding lookup
run-direct_run_example =
    run-direct_run table (b'u' ∷ []) table-Stores calls users no_cache (λ id i p e a. ground arith)

get-nil_cached_example :
    (c' : Cache) × (get
        (user_loader table [] (b'u' ∷ []))
        (pos 0)
        (pos 1)
        (b'u' ∷ b'a' ∷ [])
        (pos 9)
        no_cache
      ≡ some (c', found (user none)))
    × ((d' : Table) (now' later' : ℤ)
        → now' ≤ℤ (pos 1 +ℤ pos 9)
        → get (user_loader table d' (b'u' ∷ [])) now' later' (b'u' ∷ b'a' ∷ []) (pos 9) c'
          ≡ some (c', found (user none)))
unfolding lookup TtlCache.get TtlCache.fresh
get-nil_cached_example =
    get-nil_cached table [] (pos 0) (pos 1) (b'u' ∷ []) (b'a' ∷ []) (pos 9) no_cache refl refl
