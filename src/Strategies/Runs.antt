-- ===== src/Strategies/Runs.antt =====
-- Sequences of cache-aside reads and write-through writes of go_cache_strategy/strategy beside the
-- database alone. The law of the database's writes is a hypothesis.
use go_example.Prelude.{Bool, true, false, Option, none, some, List, [], ◌∷◌, ◌≡◌, refl, ap, ◌∙◌}
use go_example.Prelude.Dict.{Str}
use go_example.Prelude.Int.{ℤ}
use go_example.Strategies.{User, Fetched, Database, Cache}
use go_example.Strategies.CacheAside.{get_user}
use go_example.Strategies.WriteThrough.{update_user, written}
use go_example.Strategies.Coherence.{
  answered, Coherent, Stores, get_user-Coherent, written-Coherent,
}

-- A call with its times and the lifetime of what it stores.
pub data Call : Type 0 where
  read : ℤ → ℤ → Str → ℤ → Call
  write : ℤ → User → ℤ → Call

pub data Answer : Type 0 where
  fetched : Fetched User → Answer
  wrote : Bool → Answer

module _ {D : Type 0} (db : Database D) (key_prefix : Str) where
  unfoldable pub run : List Call → D → Cache → List Answer
  run [] d c = []
  run (read now later id ttl ∷ calls) d c =
      let (c', a) = get_user db d now later id key_prefix ttl c in fetched a ∷ run calls d c'
  run (write now u ttl ∷ calls) d c =
      let (d', c', ok) = update_user db d now u key_prefix ttl c in wrote ok ∷ run calls d' c'

  -- The calls on the database alone: a read wraps the message of its error.
  unfoldable pub direct_run : List Call → D → List Answer
  direct_run [] d = []
  direct_run (read now later id ttl ∷ calls) d =
      fetched (answered (db.get_user d id)) ∷ direct_run calls d
  direct_run (write now u ttl ∷ calls) d = elim (db.update_user d u) [
    | none ↦ wrote false ∷ direct_run calls d
    | some d' ↦ wrote true ∷ direct_run calls d'
  ]

  -- The rest of two runs after a write with the result `o`.
  run_write :
      Stores db key_prefix
      → (calls : List Call)
      → ((d : D) (c : Cache) → Coherent db key_prefix c d → run calls d c ≡ direct_run calls d)
      → (d : D) (now : ℤ) (u : User) (ttl : ℤ) (c : Cache) (o : Option D) → db.update_user d u ≡ o
      → Coherent db key_prefix c d
      → let (d', c', ok) = written now u key_prefix ttl d c o in
        wrote ok ∷ run calls d' c' ≡ (elim o [
          | none ↦ wrote false ∷ direct_run calls d
          | some d' ↦ wrote true ∷ direct_run calls d'
        ])
  unfolding written
  run_write stores calls rest d now u ttl c none e h = ap (λ x. wrote false ∷ x) (rest d c h)
  run_write stores calls rest d now u ttl c (some d') e h =
      ap (λ x. wrote true ∷ x)
        (rest d' _ (written-Coherent db key_prefix stores d d' now u ttl c e h))

  -- Where a write to the database that succeeds replaces the user of its id and no other, and the
  -- cache agrees with the database at the start, no sequence of cache-aside reads and write-through
  -- writes, at whatever times, tells the cached database from the database alone, where the reads of
  -- both wrap the messages of errors alike.
  pub run-direct_run :
      Stores db key_prefix
      → (calls : List Call) (d : D) (c : Cache) → Coherent db key_prefix c d
      → run calls d c ≡ direct_run calls d
  unfolding run direct_run update_user
  run-direct_run stores [] d c h = refl
  run-direct_run stores (read now later id ttl ∷ calls) d c h =
      let (same, kept) = get_user-Coherent db key_prefix d now later id ttl c h in
      let c' = (get_user db d now later id key_prefix ttl c).0 in
      ap (λ a. fetched a ∷ run calls d c') same
      ∙ ap (λ x. fetched (answered (db.get_user d id)) ∷ x) (run-direct_run stores calls d c' kept)
  run-direct_run stores (write now u ttl ∷ calls) d c h =
      run_write stores calls (run-direct_run stores calls) d now u ttl c (db.update_user d u) refl h
