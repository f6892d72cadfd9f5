-- ===== src/WriteBehind/Conserved.antt =====
-- go_cache_strategy/strategy/writebehind/wirtebehind.go before `Stop`: no user is lost or written twice.
-- What a bulk write does to the log of a database is a hypothesis.
use go_example.Prelude.{
  false, Bool-cases, some, List, [], ◌∷◌, ◌++◌, ◌≡◌, ◌≢◌, refl, sym, ap, ◌∙◌, arith, inl, inr, All,
  if_elim, length, leb, ltb, append_assoc, append-nil,
}
use mathlib.Core.Path.{subst}
use go_example.Prelude.Int.{ℤ}
use go_example.Strategies.{User, Database}
use go_example.WriteBehind.{
  listening, Config, Strategy, new, Event, update, receive, tick, shut_down, drain, stop,
  update_user, flush_batch_to_db, kept, collect, receive_from, tick_worker, begin_drain, turn,
  accepted, run,
}
use go_example.WriteBehind.Bounds.{IsBounded, run-IsBounded}

module _ {D : Type 0} (db : Database D) (log : D → List User) where
  -- A bulk write under a live context succeeds, and puts the users behind those of before.
  abbrev pub Records : Type 0
  Records =
      (d : D) (us : List User)
      → (d' : D) × (db.bulk_update_users false d us ≡ some d') × (log d' ≡ log d ++ us)

  -- The users that are written, in the batch, and in the queue.
  abbrev pub all_of : Strategy D → List User
  all_of s = log s.db ++ (s.batch ++ s.update_queue)

  -- The worker is in its first loop, on a live context.
  abbrev IsOpen : Strategy D → Type 0
  IsOpen s = (s.mode ≡ listening) × (s.cancelled ≡ false)

  module _ (records : Records) where
    flush_lem : (us : List User) (d : D) → log (flush_batch_to_db db false us d) ≡ log d ++ us
    unfolding flush_batch_to_db
    flush_lem [] d = sym (append-nil (log d))
    flush_lem (u ∷ us) d =
        let (d', run, same) = records d (u ∷ us) in ap (λ o. log (kept db d o)) run ∙ same

    collect-all_of :
        (u : User) (queue : List User) (s : Strategy D)
        → all_of (collect db false u (record s { update_queue = queue }))
          ≡ log s.db ++ (s.batch ++ (u ∷ queue))
    unfolding collect
    collect-all_of u queue s =
        let batch = s.batch ++ (u ∷ []) in
        let joined = append_assoc s.batch (u ∷ []) queue in
        if_elim (λ t. all_of t ≡ log s.db ++ (s.batch ++ (u ∷ queue)))
          (leb s.batch_size (length batch))
          (λ _.
            ap (λ l. l ++ queue) (flush_lem batch s.db)
            ∙ append_assoc (log s.db) batch queue
            ∙ ap (λ l. log s.db ++ l) joined)
          (λ _. ap (λ l. log s.db ++ l) joined)

    collect-IsOpen : (u : User) (s : Strategy D) → IsOpen s → IsOpen (collect db false u s)
    unfolding collect
    collect-IsOpen u s h = ground (arith, h)

    -- A turn keeps the users, with those that it accepts, and the worker goes on.
    abbrev Kept : List User → Strategy D → Strategy D → Type 0
    Kept us s s' = IsOpen s' × (all_of s' ≡ all_of s ++ us)

    same-Kept : (s : Strategy D) → IsOpen s → Kept [] s s
    same-Kept s h = (h, sym (append-nil (all_of s)))

    receive-Kept :
        (queue : List User) (s : Strategy D)
        → s.update_queue ≡ queue
        → IsOpen s
        → Kept [] s (receive_from db queue s)
    unfolding receive_from
    receive-Kept [] s e h = same-Kept s h
    receive-Kept (u ∷ queue) s e h =
        let popped : Strategy D = record s { update_queue = queue } in
        subst (λ c. Kept [] s (collect db c u popped)) (sym h.1)
          (
            collect-IsOpen u popped h,
            collect-all_of u queue s
                ∙ ap (λ q. log s.db ++ (s.batch ++ q)) (sym e)
                ∙ sym (append-nil (all_of s)),
          )

    tick-Kept : (s : Strategy D) → IsOpen s → Kept [] s (tick_worker db s)
    unfolding tick_worker
    tick-Kept s h = (
      h,
      ap (λ c. log (flush_batch_to_db db c s.batch s.db) ++ s.update_queue) h.1
          ∙ ap (λ l. l ++ s.update_queue) (flush_lem s.batch s.db)
          ∙ append_assoc (log s.db) s.batch s.update_queue
          ∙ sym (append-nil (all_of s)),
    )

    update-Kept :
        (now : ℤ) (u : User) (s : Strategy D)
        → IsOpen s
        → Kept (accepted db (update now u) s) s (update_user now u s).0
    unfolding update_user accepted
    update-Kept now u s h = elim (Bool-cases (ltb (length s.update_queue) s.queue_size)) [
      | inr e ↦ rw e (same-Kept s h)
      | inl e ↦ rw e (
        h,
        ap (λ q. log s.db ++ q) (sym (append_assoc s.batch s.update_queue (u ∷ [])))
            ∙ sym (append_assoc (log s.db) (s.batch ++ s.update_queue) (u ∷ [])),
      )
    ]

    begin_drain-open : (s : Strategy D) → s.cancelled ≡ false → begin_drain db s ≡ s
    unfolding begin_drain
    begin_drain-open s h = ground (arith, h)

    turn-Kept :
        (e : Event) (s : Strategy D)
        → e ≢ stop
        → IsOpen s
        → Kept (accepted db e s) s (turn db e listening s)
    unfolding turn accepted
    turn-Kept (update now u) s n h = update-Kept now u s h
    turn-Kept receive s n h = receive-Kept s.update_queue s refl h
    turn-Kept tick s n h = tick-Kept s h
    turn-Kept shut_down s n h = subst (Kept [] s) (sym (begin_drain-open s h.1)) (same-Kept s h)
    turn-Kept drain s n h = same-Kept s h
    turn-Kept stop s n h = absurd (n refl)

    run_from-all_of :
        (es : List Event) (s : Strategy D)
        → All (λ e. e ≢ stop) es
        → IsOpen s
        → all_of (run db es s).0 ≡ all_of s ++ (run db es s).1
    unfolding run
    run_from-all_of [] s n h = sym (append-nil (all_of s))
    run_from-all_of (e ∷ es) s n h =
        let s' = turn db e s.mode s in
        let (going, same) =
          subst (λ m. Kept (accepted db e s) s (turn db e m s)) (sym h.0) (turn-Kept e s n.0 h) in
        run_from-all_of es s' n.1 going
        ∙ ap (λ l. l ++ (run db es s').1) same
        ∙ append_assoc (all_of s) (accepted db e s) (run db es s').1

  -- Where bulk writes under a live context succeed and append to a log: as long as `Stop` has not been
  -- called, the users written, those in the batch and those in the queue are, in this order, the users
  -- that the queue accepted, each once and in their order; the queue is not over its size, and the
  -- batch is below its own.
  pub run-all_of :
      Records
      → (cfg : Config D) (es : List Event) → All (λ e. e ≢ stop) es
      → (all_of (run db es (new cfg)).0 ≡ log cfg.db ++ (run db es (new cfg)).1)
        × IsBounded db (run db es (new cfg)).0
  unfolding new
  run-all_of records cfg es n = (
    run_from-all_of records es (new cfg) n (refl, refl)
        ∙ ap (λ l. l ++ (run db es (new cfg)).1) (append-nil (log cfg.db)),
    run-IsBounded db cfg es,
  )
