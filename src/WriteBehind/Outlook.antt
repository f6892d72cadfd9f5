-- ===== src/WriteBehind/Outlook.antt =====
-- go_cache_strategy/strategy/writebehind/wirtebehind.go: what the
-- database will answer once the batch and the queue are written, through each turn of the worker.
use go_example.Prelude.{
  Bool, true, false, some, List, [], ◌∷◌, ◌++◌, ◌≡◌, refl, sym, ap, ◌∙◌, ◌⊎◌, inl, inr, length,
  append_assoc, ltb, leb, if◌then◌else◌, Bool-cases,
}
use go_example.Prelude.Dict.{Str, str_eq}
use go_example.Prelude.Int.{ℤ}
use go_example.Strategies.{User, Fetched, found, Database}
use go_example.WriteBehind.{
  draining, Strategy, update_user, collect, receive_from, tick_worker, begin_drain, drain_from, run,
  kept, flush_batch_to_db,
}

-- What a table answers for an id after the writes of some users, in their order.
unfoldable pub newest : List User → Str → Fetched User → Fetched User
newest [] id a = a
newest (u ∷ us) id a = newest us id (if str_eq u.id id then found u else a)

pub newest-append :
    (us vs : List User) (id : Str) (a : Fetched User)
    → newest (us ++ vs) id a ≡ newest vs id (newest us id a)
unfolding newest
newest-append [] vs id a = refl
newest-append (u ∷ us) vs id a = newest-append us vs id (if str_eq u.id id then found u else a)

-- Writes decide what is answered for an id, or leave it as it is.
newest_cases :
    (us : List User) (id : Str)
    → ((a : Fetched User) → newest us id a ≡ a)
      ⊎ ((b : Fetched User) × ((a : Fetched User) → newest us id a ≡ b))
unfolding newest
newest_cases [] id = inl (λ a. refl)
newest_cases (u ∷ us) id = elim (newest_cases us id) [
  | inr (b, h) ↦ inr (b, λ a. h (if str_eq u.id id then found u else a))
  | inl h ↦ elim (Bool-cases (str_eq u.id id)) [
    | inl e ↦ inr (found u, λ a. h _ ∙ ap (λ b. if b then found u else a) e)
    | inr e ↦ inl (λ a. h _ ∙ ap (λ b. if b then found u else a) e)
  ]
]

pub newest_twice :
    (us : List User) (id : Str) (a : Fetched User) → newest us id (newest us id a) ≡ newest us id a
newest_twice us id a = elim (newest_cases us id) [
  | inl h ↦ h (newest us id a)
  | inr (b, h) ↦ h (newest us id a) ∙ sym (h a)
]

module _ {D : Type 0} (db : Database D) where
  -- A bulk write under a live context succeeds and writes the users in their order.
  abbrev pub Bulk : Type 0
  Bulk =
      (d : D) (us : List User)
      → (d' : D) × (db.bulk_update_users false d us ≡ some d')
        × ((id : Str) → db.get_user d' id ≡ newest us id (db.get_user d id))

  module _ (bulk : Bulk) (id : Str) where
    pub flush_lem :
        (us : List User) (d : D)
        → db.get_user (flush_batch_to_db db false us d) id ≡ newest us id (db.get_user d id)
    unfolding flush_batch_to_db newest
    flush_lem [] d = refl
    flush_lem (u ∷ us) d =
        let (d', run, law) = bulk d (u ∷ us) in ap (λ o. db.get_user (kept db d o) id) run ∙ law id

    -- The database once the batch and the queue are written, too.
    abbrev pub outlook : Strategy D → Fetched User
    outlook s = newest (s.batch ++ s.update_queue) id (db.get_user s.db id)

    outlook_either :
        (b : Bool) (s t : Strategy D) (x : Fetched User)
        → outlook s ≡ x
        → outlook t ≡ x
        → outlook (if b then s else t) ≡ x
    outlook_either true s t x h k = h
    outlook_either false s t x h k = k

    collect_lem :
        (u : User) (queue : List User) (s : Strategy D)
        → outlook (collect db false u (record s { update_queue = queue }))
          ≡ newest (s.batch ++ (u ∷ queue)) id (db.get_user s.db id)
    unfolding collect
    collect_lem u queue s =
        let batch = s.batch ++ (u ∷ []) in
        let same =
          ap (λ us. newest us id (db.get_user s.db id)) (append_assoc s.batch (u ∷ []) queue) in
        outlook_either (leb s.batch_size (length batch))
          (record s {
            update_queue = queue;
            db = flush_batch_to_db db false batch s.db;
            batch = [];
          })
          (record s { update_queue = queue; batch = batch })
          (newest (s.batch ++ (u ∷ queue)) id (db.get_user s.db id))
          (ap (newest queue id) (flush_lem batch s.db)
            ∙ sym (newest-append batch queue id (db.get_user s.db id))
            ∙ same)
          same

    pub receive_lem :
        (queue : List User) (s : Strategy D)
        → s.update_queue ≡ queue
        → s.cancelled ≡ false
        → outlook (receive_from db queue s) ≡ outlook s
    unfolding receive_from
    receive_lem [] s e live = refl
    receive_lem (u ∷ queue) s e live =
        ap (λ c. outlook (collect db c u (record s { update_queue = queue }))) live
        ∙ collect_lem u queue s
        ∙ ap (λ q. newest (s.batch ++ q) id (db.get_user s.db id)) (sym e)

    flushed_lem :
        (s : Strategy D)
        → newest s.update_queue id (db.get_user (flush_batch_to_db db false s.batch s.db) id)
          ≡ outlook s
    flushed_lem s =
        ap (newest s.update_queue id) (flush_lem s.batch s.db)
        ∙ sym (newest-append s.batch s.update_queue id (db.get_user s.db id))

    pub tick_lem : (s : Strategy D) → s.cancelled ≡ false → outlook (tick_worker db s) ≡ outlook s
    unfolding tick_worker
    tick_lem s live =
        ap (λ c. newest s.update_queue id (db.get_user (flush_batch_to_db db c s.batch s.db) id))
          live
        ∙ flushed_lem s

    -- Writing the batch while it stays in the worker's hands.
    again_lem :
        (s : Strategy D)
        → newest
            (s.batch ++ s.update_queue)
            id
            (db.get_user (flush_batch_to_db db false s.batch s.db) id)
          ≡ outlook s
    again_lem s =
        let a = db.get_user s.db id in
        ap (newest (s.batch ++ s.update_queue) id) (flush_lem s.batch s.db)
        ∙ newest-append s.batch s.update_queue id (newest s.batch id a)
        ∙ ap (newest s.update_queue id) (newest_twice s.batch id a)
        ∙ sym (newest-append s.batch s.update_queue id a)

    pub begin_drain_lem : (s : Strategy D) → outlook (begin_drain db s) ≡ outlook s
    unfolding begin_drain
    begin_drain_lem s =
        outlook_either s.cancelled
          (record s { db = flush_batch_to_db db false s.batch s.db; mode = draining }) s (outlook s)
          (again_lem s) refl

    pub drain_lem :
        (queue : List User) (s : Strategy D)
        → s.update_queue ≡ queue
        → outlook (drain_from db queue s) ≡ outlook s
    unfolding drain_from
    drain_lem [] s e = again_lem s
    drain_lem (u ∷ queue) s e =
        collect_lem u queue s ∙ ap (λ q. newest (s.batch ++ q) id (db.get_user s.db id)) (sym e)

    pub update_lem :
        (now : ℤ) (u : User) (s : Strategy D)
        → outlook (update_user now u s).0
          ≡ newest (if (update_user now u s).1 then u ∷ [] else []) id (outlook s)
    unfolding update_user newest
    update_lem now u s = elim (Bool-cases (ltb (length s.update_queue) s.queue_size)) [
      | inl e ↦ rw e (
          ap (λ us. newest us id (db.get_user s.db id))
            (sym (append_assoc s.batch s.update_queue (u ∷ [])))
          ∙ newest-append (s.batch ++ s.update_queue) (u ∷ []) id (db.get_user s.db id))
      | inr e ↦ rw e refl
    ]
