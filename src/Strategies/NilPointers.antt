-- ===== src/Strategies/NilPointers.antt =====
-- go_cache_strategy/strategy/readthrough/readthrough.go: what a read-through cache keeps for a user
-- that the database does not have.
use go_example.Prelude.{
  none, some, ◌++◌, ◌≡◌, arith, ap, ◌∙◌, length, drop-append, length-append, le→leb,
}
use go_example.Prelude.Dict.{Str, str_eq_iff, lookup-insert}
use go_example.Prelude.Int.{ℤ, ◌+ℤ◌, ◌≤ℤ◌}
use go_example.TtlCache
use go_example.TtlCache.{Item, TtlCache, set, fresh, is_expired, saw_expired}
use go_example.Strategies.{found, missing, Database, user, Cache}
use go_example.Strategies.ReadThrough.{user_loader, fill_loaded, load_in, serve_value, get}

-- A value is read back until its time is over.
get-set :
    {A : Type 0} (now later : ℤ) (key : Str) (v : A) (ttl : ℤ) (c : TtlCache A)
    → now ≤ℤ (later +ℤ ttl)
    → TtlCache.get now key (set later key v ttl c) ≡ (set later key v ttl c, some v)
unfolding TtlCache.get set saw_expired fresh is_expired
get-set {A = A} now later key v ttl c h =
    let item : Item A = record { value = v; expiration = later +ℤ ttl } in
    ground (arith, lookup-insert key key item c.items, str_eq_iff key key)

loader_missing :
    {D : Type 0} (db : Database D) (d : D) (key_prefix id : Str)
    → db.get_user d id ≡ missing
    → user_loader db d key_prefix (key_prefix ++ id) ≡ some (found (user none))
unfolding user_loader
loader_missing db d key_prefix id e = rw (
  le→leb (length key_prefix) (length (key_prefix ++ id))
      (omega (arith, length-append key_prefix id)),
  drop-append key_prefix id,
  e,
)

-- Where the database has no user of an id and the cache nothing fresh for it, a read through
-- `NewUserLoader` answers a nil pointer and caches it: until the lifetime is over, every later read
-- answers the nil pointer, whatever the database holds by then.
pub get-nil_cached :
    {D : Type 0} (db : Database D) (d : D) (now later : ℤ) (key_prefix id : Str) (ttl : ℤ)
    (c : Cache)
    → db.get_user d id ≡ missing
    → (TtlCache.get now (key_prefix ++ id) c).1 ≡ none
    → (c' : Cache) × (get (user_loader db d key_prefix) now later (key_prefix ++ id) ttl c
        ≡ some (c', found (user none)))
      × ((d' : D) (now' later' : ℤ)
          → now' ≤ℤ (later +ℤ ttl)
          → get (user_loader db d' key_prefix) now' later' (key_prefix ++ id) ttl c'
            ≡ some (c', found (user none)))
unfolding get serve_value load_in fill_loaded
get-nil_cached db d now later key_prefix id ttl c e miss =
    let key = key_prefix ++ id in
    let before = (TtlCache.get now key c).0 in
    let c' = set later key (user none) ttl before in
    (
      c',
      ap (λ o. serve_value (user_loader db d key_prefix) later key ttl (before, o)) miss
          ∙ ap (load_in later key ttl before) (loader_missing db d key_prefix id e),
      λ d' now' later' h.
          ap (serve_value (user_loader db d' key_prefix) later' key ttl)
            (get-set now' later key (user none) ttl before h),
    )
