-- ===== src/WriteBehind/Delivery.antt =====
-- go_cache_strategy/strategy/writebehind/wirtebehind.go: that the users which the queue accepted
-- reach the database, the newest of each id last. The law of bulk writes is a hypothesis.
use go_example.Prelude.{
  Bool, true, false, not, ◌&&◌, List, [], ◌∷◌, ◌++◌, ◌≡◌, refl, sym, ap, ap₂, ◌∙◌, ◌≢◌, arith,
  append-nil,
}
use go_example.Prelude.Dict.{Str}
use go_example.Prelude.Int.{ℤ}
use go_example.Strategies.{User, Database}
use go_example.WriteBehind.{
  Mode, listening, draining, finished, Config, Strategy, new, Event, update, receive, tick,
  shut_down, drain, stop, update_user, collect, receive_from, tick_worker, begin_drain, drain_from,
  turn, run, accepted,
}
use go_example.WriteBehind.Outlook.{
  newest, newest-append, newest_twice, Bulk, outlook, flush_lem, receive_lem, tick_lem,
  begin_drain_lem, drain_lem, update_lem,
}

-- Whether no user is received and no ticker fires once the context is cancelled.
unfoldable pub prompt : Bool → List Event → Bool
prompt c [] = true
prompt c (update now u ∷ es) = prompt c es
prompt c (receive ∷ es) = not c && prompt c es
prompt c (tick ∷ es) = not c && prompt c es
prompt c (shut_down ∷ es) = prompt c es
prompt c (drain ∷ es) = prompt c es
prompt c (stop ∷ es) = prompt true es

module _ {D : Type 0} (db : Database D) where
  collect_keeps :
      (c : Bool) (u : User) (s : Strategy D)
      → ((collect db c u s).mode ≡ s.mode) × ((collect db c u s).cancelled ≡ s.cancelled)
  unfolding collect
  collect_keeps c u s = ground arith

  receive_from_keeps :
      (queue : List User) (s : Strategy D)
      → ((receive_from db queue s).mode ≡ s.mode)
        × ((receive_from db queue s).cancelled ≡ s.cancelled)
  unfolding receive_from
  receive_from_keeps [] s = (refl, refl)
  receive_from_keeps (u ∷ queue) s = collect_keeps s.cancelled u (record s { update_queue = queue })

  drain_from_cancelled :
      (queue : List User) (s : Strategy D) → (drain_from db queue s).cancelled ≡ s.cancelled
  unfolding drain_from
  drain_from_cancelled [] s = refl
  drain_from_cancelled (u ∷ queue) s = (collect_keeps false u (record s { update_queue = queue })).1

  begin_drain_keeps :
      (s : Strategy D)
      → s.mode ≡ listening
      → ((begin_drain db s).mode ≢ finished) × ((begin_drain db s).cancelled ≡ s.cancelled)
  unfolding begin_drain
  begin_drain_keeps s e = ground arith

  update_user_keeps :
      (now : ℤ) (u : User) (s : Strategy D)
      → let t = (update_user now u s).0 in
        (t.mode ≡ s.mode) × (t.cancelled ≡ s.cancelled) × (t.batch ≡ s.batch) × (t.db ≡ s.db)
  unfolding update_user
  update_user_keeps now u s = ground arith

  -- The events that are left after one of them.
  turn-prompt :
      (e : Event) (m : Mode) (s : Strategy D) (es : List Event)
      → s.mode ≡ m
      → prompt s.cancelled (e ∷ es) ≡ true
      → prompt (turn db e m s).cancelled es ≡ true
  unfolding turn prompt tick_worker
  turn-prompt receive listening s es m p =
      ap (λ c. prompt c es) (receive_from_keeps s.update_queue s).1 ∙ ground arith
  turn-prompt tick listening s es m p = ground arith
  turn-prompt shut_down listening s es m p = ap (λ c. prompt c es) (begin_drain_keeps s m).1 ∙ p
  turn-prompt drain draining s es m p =
      ap (λ c. prompt c es) (drain_from_cancelled s.update_queue s) ∙ p
  turn-prompt (update now u) mode s es m p = ap (λ c. prompt c es) (update_user_keeps now u s).1 ∙ p
  turn-prompt stop mode s es m p = p
  turn-prompt receive draining s es m p = ground arith
  turn-prompt receive finished s es m p = ground arith
  turn-prompt tick draining s es m p = ground arith
  turn-prompt tick finished s es m p = ground arith
  turn-prompt shut_down draining s es m p = p
  turn-prompt shut_down finished s es m p = p
  turn-prompt drain listening s es m p = p
  turn-prompt drain finished s es m p = p

  module _ (bulk : Bulk db) (id : Str) where
    -- A worker that has finished has written its batch.
    abbrev IsWritten : Strategy D → Type 0
    IsWritten s = s.mode ≡ finished → newest s.batch id (db.get_user s.db id) ≡ db.get_user s.db id

    IsWritten-not : (s : Strategy D) → s.mode ≢ finished → IsWritten s
    IsWritten-not s n e = ground arith

    drain_from-IsWritten :
        (queue : List User) (s : Strategy D) → s.mode ≡ draining → IsWritten (drain_from db queue s)
    unfolding drain_from
    drain_from-IsWritten [] s m = λ e.
        ap (newest s.batch id) (flush_lem db bulk id s.batch s.db)
        ∙ newest_twice s.batch id (db.get_user s.db id)
        ∙ sym (flush_lem db bulk id s.batch s.db)
    drain_from-IsWritten (u ∷ queue) s m =
        let same = (collect_keeps false u (record s { update_queue = queue })).0 in
        IsWritten-not (drain_from db (u ∷ queue) s) (λ e. ground (arith, same, m, e))

    turn-IsWritten :
        (e : Event) (m : Mode) (s : Strategy D)
        → s.mode ≡ m
        → IsWritten s
        → IsWritten (turn db e m s)
    unfolding turn tick_worker
    turn-IsWritten receive listening s m h =
        let same = (receive_from_keeps s.update_queue s).0 in
        IsWritten-not (receive_from db s.update_queue s) (λ e. ground (arith, same, m, e))
    turn-IsWritten tick listening s m h =
        IsWritten-not (tick_worker db s) (λ e. ground (arith, m, e))
    turn-IsWritten shut_down listening s m h =
        IsWritten-not (begin_drain db s) (begin_drain_keeps s m).0
    turn-IsWritten drain draining s m h = drain_from-IsWritten s.update_queue s m
    turn-IsWritten (update now u) mode s m h =
        let (kept_mode, _, kept_batch, kept_db) = update_user_keeps now u s in
        λ e.
          ap₂ (λ b d. newest b id (db.get_user d id)) kept_batch kept_db
          ∙ h (sym kept_mode ∙ e)
          ∙ ap (λ d. db.get_user d id) (sym kept_db)
    turn-IsWritten stop mode s m h = h
    turn-IsWritten receive draining s m h = h
    turn-IsWritten receive finished s m h = h
    turn-IsWritten tick draining s m h = h
    turn-IsWritten tick finished s m h = h
    turn-IsWritten shut_down draining s m h = h
    turn-IsWritten shut_down finished s m h = h
    turn-IsWritten drain listening s m h = h
    turn-IsWritten drain finished s m h = h

    turn-outlook :
        (e : Event) (m : Mode) (s : Strategy D) (es : List Event)
        → prompt s.cancelled (e ∷ es) ≡ true
        → outlook db bulk id (turn db e m s) ≡ newest (accepted db e s) id (outlook db bulk id s)
    unfolding turn accepted prompt newest
    turn-outlook receive listening s es p =
        receive_lem db bulk id s.update_queue s refl (ground arith)
    turn-outlook tick listening s es p = tick_lem db bulk id s (ground arith)
    turn-outlook shut_down listening s es p = begin_drain_lem db bulk id s
    turn-outlook drain draining s es p = drain_lem db bulk id s.update_queue s refl
    turn-outlook (update now u) mode s es p = update_lem db bulk id now u s
    turn-outlook stop mode s es p = refl
    turn-outlook receive draining s es p = refl
    turn-outlook receive finished s es p = refl
    turn-outlook tick draining s es p = refl
    turn-outlook tick finished s es p = refl
    turn-outlook shut_down draining s es p = refl
    turn-outlook shut_down finished s es p = refl
    turn-outlook drain listening s es p = refl
    turn-outlook drain finished s es p = refl

    run_lem :
        (es : List Event) (s : Strategy D)
        → prompt s.cancelled es ≡ true
        → IsWritten s
        → (outlook db bulk id (run db es s).0 ≡ newest (run db es s).1 id (outlook db bulk id s))
          × IsWritten (run db es s).0
    unfolding run newest
    run_lem [] s p h = (refl, h)
    run_lem (e ∷ es) s p h =
        let t = turn db e s.mode s in
        let (rest, end) =
          run_lem es t (turn-prompt e s.mode s es refl p) (turn-IsWritten e s.mode s refl h) in
        (
          rest
              ∙ ap (newest (run db es t).1 id) (turn-outlook e s.mode s es p)
              ∙ sym (newest-append (accepted db e s) (run db es t).1 id (outlook db bulk id s)),
          end,
        )

  -- Where bulk writes under a live context succeed and write their users in order, and the worker
  -- receives nothing and no ticker fires once `Stop` has cancelled the context: when the worker has
  -- finished with an empty queue, the database answers for each id the newest user that was
  -- accepted, or what it answered at the start.
  pub run-newest :
      Bulk db
      → (cfg : Config D) (es : List Event) → prompt false es ≡ true
      → (run db es (new cfg)).0.mode ≡ finished
      → (run db es (new cfg)).0.update_queue ≡ []
      → (id : Str)
      → db.get_user (run db es (new cfg)).0.db id
        ≡ newest (run db es (new cfg)).1 id (db.get_user cfg.db id)
  unfolding new newest
  run-newest bulk cfg es p end empty id =
      let s = (run db es (new cfg)).0 in
      let (same, written) = run_lem bulk id es (new cfg) p (λ e. refl) in
      sym (written end)
      ∙ ap (λ us. newest us id (db.get_user s.db id)) (sym (append-nil s.batch))
      ∙ ap (λ q. newest (s.batch ++ q) id (db.get_user s.db id)) (sym empty)
      ∙ same
