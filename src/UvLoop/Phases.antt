-- ===== src/UvLoop/Phases.antt =====
-- `RunMode` of uvgo/eventloop.go and the end of a run in uvgo/loop.go. What the world decides comes
-- in as lists: the clock of an iteration, and the cases that the selects take. `none` is a schedule
-- that ends too early, or names a case that is not ready.
use go_example.Prelude.{
  ℕ, zero, suc, Bool, true, false, not, ◌&&◌, Option, none, some, List, [], ◌∷◌, ◌++◌, length,
  if◌then◌else◌, ◌==◌, ◌>>=◌,
}
use go_example.Prelude.Int.{ℤ}
use go_example.UvLoop.{
  Loop, CtxState, live, canceled, deadline_exceeded, is_done, Call, posted, hook, tcp_conn,
  send_done, fs_job, udp_recv, PhaseHook, UdpSendDone, shutdown_sockets, update_time,
}
use go_example.UvLoop.Timers.{invoke, dispatch_timer}

-- `RunMode`
pub data RunMode : Type 0 where
  run_default : RunMode
  run_once : RunMode
  run_no_wait : RunMode

-- The cases of the selects of `pollNoWait` and `pollOneBlocking`; a timer's case has the time.
pub data Source : Type 0 where
  done : Source
  accepted : Source
  fspoll : Source
  udp : Source
  sent : Source
  fired : ℤ → Source

-- What the goroutines of the listeners and sockets put into the queues.
pub record Arrivals : Type 0 where
  pub accepts : List ℕ
  pub datagrams : List ℕ
  pub sends : List UdpSendDone

unfoldable pub arrive : Arrivals → Loop → Loop
arrive a l = record l {
  accept_q = l.accept_q ++ a.accepts;
  udp_in = l.udp_in ++ a.datagrams;
  udp_send_done = l.udp_send_done ++ a.sends;
}

-- What the world decides in an iteration: the milliseconds since the loop was made, the cases, and, for
-- a teardown, what arrives before the queues are drained, and after that up to `l.wg.Wait`.
pub record Turn : Type 0 where
  pub ms : ℕ
  pub picks : List Source
  pub during : Arrivals
  pub late : Arrivals

-- How an iteration ends: with the next one, or with a return of nil or of the context's error.
pub data Outcome : Type 0 where
  go_on : Outcome
  returned : Option CtxState → Outcome

-- `if errors.Is(err, context.Canceled) { return nil }; return err`
unfoldable pub result_of : CtxState → Option CtxState
result_of live = none
result_of canceled = none
result_of deadline_exceeded = some deadline_exceeded

module _ (exec : Call → Loop → Loop) where
  -- `runPendingPhase`: until the queue is empty, on fuel.
  unfoldable pub run_pending : ℕ → Loop → Option Loop
  run_pending zero l = none
  run_pending (suc fuel) l = elim l.pending_q [
    | [] ↦ some l
    | fn ∷ rest ↦ run_pending fuel (invoke exec (posted fn) (record l { pending_q = rest }))
  ]

  -- `runHooks`, on the copy of the list.
  unfoldable pub run_hooks : List PhaseHook → Loop → Loop
  run_hooks [] l = l
  run_hooks (h ∷ hs) l = run_hooks hs (invoke exec (hook h.fn) l)

  -- `dispatchAccept`: without a callback the connection is closed.
  unfoldable pub dispatch_accept : ℕ → Option ℕ → Loop → Loop
  dispatch_accept c none l = record l { closed = l.closed ++ (c ∷ []) }
  dispatch_accept c (some fn) l = invoke exec (tcp_conn fn c) l

  -- `dispatchSendDone`
  unfoldable pub dispatch_send_done : UdpSendDone → Option ℕ → Loop → Loop
  dispatch_send_done sd none l = l
  dispatch_send_done sd (some fn) l = invoke exec (send_done fn sd.err) l

  -- A case that is ready: it receives and dispatches.
  unfoldable pub take_accept : List ℕ → Loop → Option Loop
  take_accept [] l = none
  take_accept (c ∷ q) l = some (dispatch_accept c l.on_tcp_conn (record l { accept_q = q }))

  unfoldable pub take_fspoll : List ℕ → Loop → Option Loop
  take_fspoll [] l = none
  take_fspoll (job ∷ q) l = some (invoke exec (fs_job job) (record l { fspoll_q = q }))

  unfoldable pub take_udp : List ℕ → Loop → Option Loop
  take_udp [] l = none
  take_udp (i ∷ q) l = some (invoke exec (udp_recv i) (record l { udp_in = q }))

  unfoldable pub take_sent : List UdpSendDone → Loop → Option Loop
  take_sent [] l = none
  take_sent (sd ∷ q) l = some (dispatch_send_done sd sd.cb (record l { udp_send_done = q }))

  unfoldable pub take_fired : ℤ → List ℕ → Loop → Option Loop
  take_fired now [] l = none
  take_fired now (p ∷ q) l = some (dispatch_timer exec now p (record l { fire = q }))

  -- A case other than that of the context.
  unfoldable pub take_event : Source → Loop → Option Loop
  take_event done l = none
  take_event accepted l = take_accept l.accept_q l
  take_event fspoll l = take_fspoll l.fspoll_q l
  take_event udp l = take_udp l.udp_in l
  take_event sent l = take_sent l.udp_send_done l
  take_event (fired now) l = take_fired now l.fire l

  -- Whether no case is ready, so that a select takes its default.
  unfoldable pub is_idle : Loop → Bool
  is_idle l =
      not (is_done l.ctx)
      && length l.accept_q == 0
      && length l.fspoll_q == 0
      && length l.udp_in == 0
      && length l.udp_send_done == 0
      && length l.fire == 0

  -- `pollNoWait`
  unfoldable pub poll_no_wait : List Source → Loop → Option Loop
  poll_no_wait [] l = if is_idle l then some l else none
  poll_no_wait (done ∷ picks) l = if is_done l.ctx then some l else none
  poll_no_wait (accepted ∷ picks) l = do l' ← take_event accepted l; poll_no_wait picks l'
  poll_no_wait (fspoll ∷ picks) l = do l' ← take_event fspoll l; poll_no_wait picks l'
  poll_no_wait (udp ∷ picks) l = do l' ← take_event udp l; poll_no_wait picks l'
  poll_no_wait (sent ∷ picks) l = do l' ← take_event sent l; poll_no_wait picks l'
  poll_no_wait (fired now ∷ picks) l = do l' ← take_event (fired now) l; poll_no_wait picks l'

  -- `pollOneBlocking`: whether an event was dispatched.
  unfoldable pub poll_one_blocking : List Source → Loop → Option (Loop × Bool)
  poll_one_blocking [] l = none
  poll_one_blocking (done ∷ picks) l = if is_done l.ctx then some (l, false) else none
  poll_one_blocking (accepted ∷ picks) l = do l' ← take_event accepted l; some (l', true)
  poll_one_blocking (fspoll ∷ picks) l = do l' ← take_event fspoll l; some (l', true)
  poll_one_blocking (udp ∷ picks) l = do l' ← take_event udp l; some (l', true)
  poll_one_blocking (sent ∷ picks) l = do l' ← take_event sent l; some (l', true)
  poll_one_blocking (fired now ∷ picks) l = do l' ← take_event (fired now) l; some (l', true)

  -- The second loop of `drainUDPQueuesNoop`, on fuel.
  unfoldable pub drain_sent : ℕ → Loop → Option Loop
  drain_sent zero l = none
  drain_sent (suc fuel) l = elim l.udp_send_done [
    | [] ↦ some l
    | sd ∷ q ↦ drain_sent fuel (dispatch_send_done sd sd.cb (record l { udp_send_done = q }))
  ]

  -- `teardownAfterRun`: `drainAccepts` closes the connections, `drainUDPQueuesNoop` drops the
  -- datagrams and calls back for the sends. The goroutines go on up to the end of `l.wg.Wait`.
  unfoldable pub teardown_after_run : ℕ → Turn → Loop → Option Loop
  teardown_after_run fuel turn l = do
    let s = arrive turn.during (shutdown_sockets l)
    l' ← drain_sent fuel (record s { accept_q = []; closed = s.closed ++ s.accept_q; udp_in = [] })
    some (arrive turn.late l')

  unfoldable pub leave : ℕ → Turn → Option CtxState → Loop → Option (Loop × Outcome)
  leave fuel turn e l = do l' ← teardown_after_run fuel turn l; some (l', returned e)

  -- The phases before the poll.
  unfoldable pub before_poll : ℕ → Turn → Loop → Option Loop
  before_poll fuel turn l = do
    l1 ← run_pending fuel (update_time turn.ms l)
    let l2 = run_hooks l1.idle_hooks l1
    some (run_hooks l2.prepare_hooks l2)

  -- The check phase, and the return of the modes with one iteration.
  unfoldable pub after_poll : Bool → Loop → Option (Loop × Outcome)
  after_poll again l = some (run_hooks l.check_hooks l, if again then go_on else returned none)

  -- After `pollOneBlocking`.
  unfoldable pub after_blocking : ℕ → Turn → Bool → Loop × Bool → Option (Loop × Outcome)
  after_blocking fuel turn again (l, true) = after_poll again l
  after_blocking fuel turn again (l, false) = leave fuel turn (result_of l.ctx) l

  unfoldable pub poll_phase : ℕ → RunMode → Turn → Loop → Option (Loop × Outcome)
  poll_phase fuel run_no_wait turn l = do l' ← poll_no_wait turn.picks l; after_poll false l'
  poll_phase fuel run_once turn l = do
    r ← poll_one_blocking turn.picks l
    after_blocking fuel turn false r
  poll_phase fuel run_default turn l = do
    r ← poll_one_blocking turn.picks l
    after_blocking fuel turn true r

  -- One round of the loop of `RunMode`.
  unfoldable pub iterate : ℕ → RunMode → Turn → Loop → Option (Loop × Outcome)
  iterate fuel mode turn l =
      if is_done l.ctx
      then leave fuel turn (result_of l.ctx) l
      else if l.stop_flag
      then leave fuel turn none (record l { stop_flag = false })
      else (do l' ← before_poll fuel turn l; poll_phase fuel mode turn l')

  -- The rounds of `RunMode`, one for each turn, up to the return.
  unfoldable pub run_rounds : ℕ → RunMode → List Turn → Loop → Option (Loop × Option CtxState)
  run_rounds fuel mode [] l = none
  run_rounds fuel mode (turn ∷ turns) l = elim (iterate fuel mode turn l) [
    | none ↦ none
    | some (l', go_on) ↦ run_rounds fuel mode turns l'
    | some (l', returned e) ↦ some (l', e)
  ]

  -- `RunMode`, with the milliseconds of its first `UpdateTime`.
  unfoldable pub run_mode : ℕ → RunMode → ℕ → List Turn → Loop → Option (Loop × Option CtxState)
  run_mode fuel mode ms turns l =
      run_rounds fuel mode turns
        (record (update_time ms l) { stop_flag = false; timer_once = true })
