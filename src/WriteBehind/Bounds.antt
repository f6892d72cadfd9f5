-- ===== src/WriteBehind/Bounds.antt =====
-- The sizes of the queue and the batch of go_cache_strategy/strategy/writebehind/wirtebehind.go.
use go_example.Prelude.{ℕ, suc, ◌≤◌, ◌<◌, Bool, false, List, [], ◌∷◌, arith, length, length-append}
use go_example.Prelude.Int.{ℤ, pos, negsuc}
use go_example.Strategies.{User, Database}
use go_example.WriteBehind.{
  Mode, listening, draining, finished, Config, Strategy, new, size_or, Event, update, receive, tick,
  shut_down, drain, stop, update_user, collect, receive_from, tick_worker, begin_drain, drain_from,
  turn, run,
}

size_or_pos : (z : ℤ) (d : ℕ) → 0 < size_or z (suc d)
unfolding size_or
size_or_pos (pos n) d = ground arith
size_or_pos (negsuc n) d = omega arith

module _ {D : Type 0} (db : Database D) where
  -- The queue is not over its size, and the batch is not full.
  unfoldable pub IsBounded : Strategy D → Type 0
  IsBounded s = (length s.update_queue ≤ s.queue_size) × (length s.batch < s.batch_size)

  new-IsBounded : (cfg : Config D) → IsBounded (new cfg)
  unfolding IsBounded new
  new-IsBounded cfg = (omega arith, size_or_pos cfg.batch_size 9)

  collect-IsBounded :
      (cancelled : Bool) (u : User) (queue : List User) (s : Strategy D)
      → suc (length queue) ≤ s.queue_size
      → length s.batch < s.batch_size
      → IsBounded (collect db cancelled u (record s { update_queue = queue }))
  unfolding IsBounded collect
  collect-IsBounded cancelled u queue s q b = ground arith

  update_user-IsBounded :
      (now : ℤ) (u : User) (s : Strategy D) → IsBounded s → IsBounded (update_user now u s).0
  unfolding IsBounded update_user
  update_user-IsBounded now u s (q, b) = ground (arith, length-append s.update_queue (u ∷ []))

  receive_from-IsBounded :
      (queue : List User) (s : Strategy D)
      → length queue ≤ s.queue_size
      → IsBounded s
      → IsBounded (receive_from db queue s)
  unfolding IsBounded receive_from
  receive_from-IsBounded [] s q h = h
  receive_from-IsBounded (u ∷ queue) s q (_, b) = collect-IsBounded s.cancelled u queue s q b

  drain_from-IsBounded :
      (queue : List User) (s : Strategy D)
      → length queue ≤ s.queue_size
      → IsBounded s
      → IsBounded (drain_from db queue s)
  unfolding IsBounded drain_from
  drain_from-IsBounded [] s q h = h
  drain_from-IsBounded (u ∷ queue) s q (_, b) = collect-IsBounded false u queue s q b

  begin_drain-IsBounded : (s : Strategy D) → IsBounded s → IsBounded (begin_drain db s)
  unfolding IsBounded begin_drain
  begin_drain-IsBounded s h = ground arith

  turn-IsBounded : (e : Event) (m : Mode) (s : Strategy D) → IsBounded s → IsBounded (turn db e m s)
  unfolding turn IsBounded tick_worker
  turn-IsBounded receive listening s h = receive_from-IsBounded s.update_queue s h.0 h
  turn-IsBounded tick listening s (q, b) = (q, omega arith)
  turn-IsBounded shut_down listening s h = begin_drain-IsBounded s h
  turn-IsBounded drain draining s h = drain_from-IsBounded s.update_queue s h.0 h
  turn-IsBounded (update now u) m s h = update_user-IsBounded now u s h
  turn-IsBounded stop m s h = h
  turn-IsBounded receive draining s h = h
  turn-IsBounded receive finished s h = h
  turn-IsBounded tick draining s h = h
  turn-IsBounded tick finished s h = h
  turn-IsBounded shut_down draining s h = h
  turn-IsBounded shut_down finished s h = h
  turn-IsBounded drain listening s h = h
  turn-IsBounded drain finished s h = h

  run_from-IsBounded : (es : List Event) (s : Strategy D) → IsBounded s → IsBounded (run db es s).0
  unfolding run
  run_from-IsBounded [] s h = h
  run_from-IsBounded (e ∷ es) s h =
      run_from-IsBounded es (turn db e s.mode s) (turn-IsBounded e s.mode s h)

  -- Whatever the configuration and the database, no sequence of calls and turns of the worker puts
  -- more users into the queue than its size, nor keeps a full batch.
  pub run-IsBounded : (cfg : Config D) (es : List Event) → IsBounded (run db es (new cfg)).0
  run-IsBounded cfg es = run_from-IsBounded es (new cfg) (new-IsBounded cfg)
