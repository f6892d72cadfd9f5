-- ===== src/Strategies/Coherence.antt =====
-- The cache of go_cache_strategy/strategy in agreement with the database, and the calls that keep
-- it so.
use go_example.Prelude.{
  Option, none, some, [], ◌∷◌, ◌++◌, if◌then◌else◌, ◌≡◌, refl, arith, sym, ap, ◌∙◌, inl, inr,
  Option-cases,
}
use go_example.Prelude.Dict.{Str, str_eq, str_eq_iff, lookup, lookup-insert, lookup-delete}
use go_example.Prelude.Int.{ℤ, ◌+ℤ◌}
use go_example.TtlCache
use go_example.TtlCache.{Item, TtlCache, fresh, is_expired, saw_expired, lazy_delete}
use go_example.Strategies.{
  User, Fetched, found, missing, failed, Database, Value, user, Cache, pointer, as_user, clean_bad,
}
use go_example.Strategies.CacheAside.{user_prefix, fill, serve, get_user}

append_cancel : (p a b : Str) → p ++ a ≡ p ++ b → a ≡ b
append_cancel [] a b e = e
append_cancel (x ∷ p) a b e = append_cancel p a b (grind arith)

-- A cache whose items are all items of another.
abbrev pub Within : Cache → Cache → Type 0
Within c' c = (j : Str) (i : Item Value) → lookup j c'.items ≡ some i → lookup j c.items ≡ some i

remove-Within : (key : Str) (c : Cache) → Within (TtlCache.remove key c) c
unfolding TtlCache.remove
remove-Within key c j i h = ground (arith, lookup-delete key j c.items)

lazy_delete-Within : (now : ℤ) (key : Str) (c : Cache) → Within (lazy_delete now key c) c
unfolding lazy_delete
lazy_delete-Within now key c j i h = ground (arith, lookup-delete key j c.items)

get-Within : (now : ℤ) (key : Str) (c : Cache) → Within (TtlCache.get now key c).0 c
unfolding TtlCache.get
get-Within now key c j i h = ground (arith, lazy_delete-Within now key c j i)

-- A value that `Get` returns is that of the item of the key.
get_value :
    (now : ℤ) (key : Str) (c : Cache) (v : Value)
    → (TtlCache.get now key c).1 ≡ some v
    → (i : Item Value) × (lookup key c.items ≡ some i) × (i.value ≡ v)
unfolding TtlCache.get fresh
get_value now key c v h = elim (Option-cases (lookup key c.items)) [
  | inl e ↦ ground (arith, h, e)
  | inr (i, e) ↦ (i, e, ground (arith, h, e))
]

clean_bad-Within : (key : Str) (v : Option Value) (c : Cache) → Within (clean_bad key v c) c
unfolding clean_bad
clean_bad-Within key none c j i h = h
clean_bad-Within key (some v) c j i h = remove-Within key c j i h

-- What a read answers for a result of the database: an error is wrapped.
abbrev pub answered : Fetched User → Fetched User
answered (found u) = found u
answered missing = missing
answered (failed e) = failed (user_prefix ++ e)

answered-pointer : (p : Option User) → pointer p ≡ answered (pointer p)
answered-pointer none = refl
answered-pointer (some u) = refl

module _ {D : Type 0} (db : Database D) (key_prefix : Str) where
  -- Each pointer to a user that the cache holds is what the database answers.
  abbrev pub Coherent : Cache → D → Type 0
  Coherent c d =
      (id : Str) (i : Item Value) (p : Option User)
      → lookup (key_prefix ++ id) c.items ≡ some i
      → as_user (some i.value) ≡ some p
      → db.get_user d id ≡ pointer p

  Coherent-Within : (c' c : Cache) (d : D) → Within c' c → Coherent c d → Coherent c' d
  Coherent-Within c' c d w h id i p e a = h id i p (w (key_prefix ++ id) i e) a

  Coherent-set :
      (t : ℤ) (id : Str) (u : User) (ttl : ℤ) (c : Cache) (d d' : D)
      → Coherent c d
      → ((j : Str) → db.get_user d' j ≡ (if str_eq id j then found u else db.get_user d j))
      → Coherent (TtlCache.set t (key_prefix ++ id) (user (some u)) ttl c) d'
  unfolding TtlCache.set as_user
  Coherent-set t id u ttl c d d' h same j i p e a =
      let new : Item Value = record { value = user (some u); expiration = t +ℤ ttl } in
      let at = sym (lookup-insert (key_prefix ++ id) (key_prefix ++ j) new c.items) ∙ e in
      let one = append_cancel key_prefix id j in
      ground (
        arith,
        at,
        same j,
        one,
        h j i p,
        a,
        str_eq_iff id j,
        str_eq_iff (key_prefix ++ id) (key_prefix ++ j),
      )

  filled :
      (later : ℤ) (id : Str) (ttl : ℤ) (c : Cache) (d : D) (a : Fetched User)
      → db.get_user d id ≡ a
      → Coherent c d
      → ((fill later (key_prefix ++ id) ttl a c).1 ≡ answered a)
        × Coherent (fill later (key_prefix ++ id) ttl a c).0 d
  unfolding fill
  filled later id ttl c d (found u) e h =
      (refl, Coherent-set later id u ttl c d d h (λ j. ground (arith, e, str_eq_iff id j)))
  filled later id ttl c d missing e h = (refl, h)
  filled later id ttl c d (failed x) e h = (refl, h)

  read_lem :
      (now : ℤ) (key : Str) (c : Cache) (v : Option Value) (p : Option User)
      → (TtlCache.get now key c).1 ≡ v
      → as_user v ≡ some p
      → (i : Item Value) × (lookup key c.items ≡ some i) × (as_user (some i.value) ≡ some p)
  unfolding as_user
  read_lem now key c none p e a = ground arith
  read_lem now key c (some v) p e a =
      let (i, found_at, same) = get_value now key c v e in
      (i, found_at, ap (λ x. as_user (some x)) same ∙ a)

  serve_lem :
      (d : D) (now later : ℤ) (id : Str) (ttl : ℤ) (c : Cache) (o : Option (Option User))
      → Coherent c d
      → as_user (TtlCache.get now (key_prefix ++ id) c).1 ≡ o
      → let (c', v) = TtlCache.get now (key_prefix ++ id) c in
        let r = serve db d later id (key_prefix ++ id) ttl v o c' in
        (r.1 ≡ answered (db.get_user d id)) × Coherent r.0 d
  unfolding serve
  serve_lem d now later id ttl c none h e =
      let key = key_prefix ++ id in
      let c' = (TtlCache.get now key c).0 in
      let v = (TtlCache.get now key c).1 in
      let h' = Coherent-Within c' c d (get-Within now key c) h in
      filled later id ttl (clean_bad key v c') d (db.get_user d id) refl
        (Coherent-Within (clean_bad key v c') c' d (clean_bad-Within key v c') h')
  serve_lem d now later id ttl c (some p) h e =
      let key = key_prefix ++ id in
      let (i, at, same) = read_lem now key c (TtlCache.get now key c).1 p refl e in
      (
        answered-pointer p ∙ ap answered (sym (h id i p at same)),
        Coherent-Within (TtlCache.get now key c).0 c d (get-Within now key c) h,
      )

  -- On a coherent cache a cache-aside read answers what the database answers, its error wrapped, and
  -- the cache stays coherent.
  pub get_user-Coherent :
      (d : D) (now later : ℤ) (id : Str) (ttl : ℤ) (c : Cache)
      → Coherent c d
      → ((get_user db d now later id key_prefix ttl c).1 ≡ answered (db.get_user d id))
        × Coherent (get_user db d now later id key_prefix ttl c).0 d
  unfolding get_user
  get_user-Coherent d now later id ttl c h =
      serve_lem d now later id ttl c (as_user (TtlCache.get now (key_prefix ++ id) c).1) h refl

  -- A write that succeeds replaces the user of its id and no other.
  abbrev pub Stores : Type 0
  Stores =
      (d d' : D) (u : User)
      → db.update_user d u ≡ some d'
      → (j : Str) → db.get_user d' j ≡ (if str_eq u.id j then found u else db.get_user d j)

  pub written-Coherent :
      Stores
      → (d d' : D) (now : ℤ) (u : User) (ttl : ℤ) (c : Cache) → db.update_user d u ≡ some d'
      → Coherent c d
      → Coherent (TtlCache.set now (key_prefix ++ u.id) (user (some u)) ttl c) d'
  written-Coherent stores d d' now u ttl c e h =
      Coherent-set now u.id u ttl c d d' h (stores d d' u e)
