-- ===== src/UvLoop/Tests.antt =====
-- Runs of the event loop of uvgo, and the witnesses of its theorems.
use go_example.UvLoop.Phases.{Arrivals, arrive}
use go_example.Prelude.{
  ℕ, true, false, Option, none, some, List, [], ◌∷◌, ◌++◌, ◌≡◌, refl, inl, arith,
}
use go_example.Prelude.Int.{ℤ, pos, ◌≤ℤ◌}
use go_example.UvLoop.{
  Loop, CtxState, live, canceled, new_loop, post, Call, posted, hook, timer, tcp_conn, fs_job,
  udp_recv, send_done, PhaseHook, shutdown_sockets, handle_at,
}
use go_example.UvLoop.Timers.{timer_start, invoke}
use go_example.UvLoop.Scheduler.{waiting, armed, sending, on_wake, on_timer, step, run_steps}
use go_example.UvLoop.Phases.{
  run_default, run_once, sent, Turn, go_on, returned, iterate, take_event, take_sent,
  dispatch_send_done, run_mode, run_rounds, leave, teardown_after_run, drain_sent, result_of,
}
use go_example.UvLoop.Order.{prepared, checked, hook_calls, iterate-checked}
use go_example.UvLoop.Drains.{IsTornDown}
use go_example.UvLoop.Teardown.{iterate-IsTornDown}
use go_example.UvLoop.Wakeups.{timer_start-lost}
use go_example.UvLoop.Due.{SomeActive, AllActive, present, step-sending}

-- Callbacks that leave the loop alone.
abbrev nothing : Call → Loop → Loop
nothing c l = l

abbrev fresh_loop : Loop
fresh_loop = record {
  ctx = live;
  stopped = false;
  stop_flag = false;
  timer_once = false;
  cached_now = 0;
  pending_q = [];
  prepare_hooks = [];
  idle_hooks = [];
  check_hooks = [];
  next_id = 0;
  accept_q = [];
  fire = [];
  fspoll_q = [];
  udp_in = [];
  listeners = [];
  handles = [];
  timers = [];
  timer_wake = false;
  on_tcp_conn = none;
  udp_send_done = [];
  udps = [];
  calls = [];
  closed = [];
}

new-fresh_loop : new_loop live ≡ fresh_loop
unfolding new_loop
new-fresh_loop = refl

-- A posted function, a hook of each phase, and a send that is done.
abbrev busy : Loop
busy = record fresh_loop {
  pending_q = 1 ∷ 2 ∷ [];
  idle_hooks = record { id = 0; fn = 10 } ∷ [];
  prepare_hooks = record { id = 1; fn = 11 } ∷ [];
  check_hooks = record { id = 2; fn = 12 } ∷ [];
  next_id = 3;
  udp_send_done = record { cb = some 20; err = false } ∷ [];
  udps = 7 ∷ [];
}

abbrev no_arrivals : Arrivals
no_arrivals = record { accepts = []; datagrams = []; sends = [] }

abbrev one_send : Turn
one_send = record { ms = 5; picks = sent ∷ []; during = no_arrivals; late = no_arrivals }

abbrev after_send : Loop
after_send =
    let p = prepared 5 busy in
    record p { udp_send_done = []; calls = p.calls ++ (send_done 20 false ∷ []) }

round_calls :
    (checked after_send).calls
    ≡ posted 1 ∷ posted 2 ∷ hook 10 ∷ hook 11 ∷ send_done 20 false ∷ hook 12 ∷ []
unfolding hook_calls
round_calls = refl

iterate-checked_example :
    (iterate nothing 3 run_default one_send busy ≡ some (checked after_send, go_on))
    × (iterate nothing 3 run_once one_send busy ≡ some (checked after_send, returned none))
unfolding take_event take_sent dispatch_send_done invoke
iterate-checked_example =
    iterate-checked nothing (λ c l. refl) 3 one_send sent [] busy after_send refl refl (omega arith)
      refl refl

-- A posted function that posts itself.
abbrev again : Call → Loop → Loop
again (posted fn) l = post fn l
again (hook fn) l = l
again (timer fn) l = l
again (tcp_conn fn c) l = l
again (send_done fn e) l = l
again (fs_job j) l = l
again (udp_recv i) l = l

-- A run that ends by the context's cancellation.
abbrev stopping : Loop
stopping = record busy { ctx = canceled; accept_q = 9 ∷ []; listeners = 8 ∷ [] }

abbrev stopped_loop : Loop
stopped_loop = record stopping {
  cached_now = 4;
  timer_once = true;
  listeners = [];
  udps = [];
  accept_q = [];
  udp_send_done = [];
  calls = send_done 20 false ∷ [];
  closed = 8 ∷ 7 ∷ 9 ∷ [];
}

stopping_run : run_mode nothing 5 run_default 4 (one_send ∷ []) stopping ≡ some (stopped_loop, none)
unfolding run_mode run_rounds iterate leave teardown_after_run drain_sent arrive dispatch_send_done
    invoke shutdown_sockets result_of
stopping_run = refl

-- A connection, a datagram and a send that arrive while the sockets are closed, and later ones.
abbrev busy_end : Turn
busy_end = record one_send {
  during = record {
    accepts = 3 ∷ [];
    datagrams = 4 ∷ [];
    sends = record { cb = none; err = true } ∷ [];
  };
  late = record { accepts = 5 ∷ []; datagrams = []; sends = [] };
}

iterate-IsTornDown_example :
    (l' : Loop) × (e : Option CtxState) × (iterate nothing 3 run_default busy_end stopping
      ≡ some (l', returned e))
    × IsTornDown stopping busy_end l'
    × (e ≡ none)
iterate-IsTornDown_example =
    iterate-IsTornDown nothing
      (λ fn err l. record {
        listeners = refl;
        udps = refl;
        closed = refl;
        calls = refl;
        accept_q = refl;
        udp_in = refl;
        udp_send_done = refl;
      })
      3 run_default busy_end stopping refl (omega arith)

abbrev later_hook : PhaseHook
later_hook = record { id = 5; fn = 15 }

abbrev hooked : Loop
hooked = record busy {
  idle_hooks = record { id = 0; fn = 10 } ∷ record { id = 3; fn = 14 } ∷ later_hook ∷ [];
}

-- A timer for ten, and a second one while the scheduler waits for the first.
abbrev ten : Loop
ten = record fresh_loop {
  next_id = 1;
  handles = record { id = 0; next = pos 10; repeat = pos 0; cb = some 30; active = true } ∷ [];
  timers = 0 ∷ [];
}

timer_start-lost_example :
    let started = (timer_start (pos 1) (pos 50) (pos 0) (some 31) ten).0 in
    let woken = step (pos 2) on_wake started (armed (pos 10)) in
    let end = run_steps ((pos 10, on_timer) ∷ (pos 99, on_timer) ∷ []) woken.0 woken.1 in
    (end.1 ≡ waiting) × (end.0.fire ≡ ten.fire) × (end.0.timers ≡ started.timers)
timer_start-lost_example =
    timer_start-lost ten (pos 1) (pos 50) (pos 0) (pos 2) (pos 10) (some 31)
      ((pos 10, on_timer) ∷ (pos 99, on_timer) ∷ []) refl

abbrev pinged : Loop
pinged = record ten { timer_wake = true }

ten-SomeActive : SomeActive ten.handles (λ th. Unit {0}) ten.timers
unfolding handle_at
ten-SomeActive =
    inl (
      record { id = 0; next = pos 10; repeat = pos 0; cb = some 30; active = true },
      refl,
      refl,
      tt,
    )

step-sending_example :
    (d : ℤ) × (step (pos 1) on_wake pinged waiting
      ≡ (record pinged { timer_wake = false }, armed d))
    × AllActive pinged.handles (λ th. d ≤ℤ present (pos 1) th.next) pinged.timers
    × ((later : ℤ)
        → d ≤ℤ later
        → (l' : Loop) × (p : ℕ) × (ps : List ℕ) × (step later on_timer
              (record pinged { timer_wake = false })
              (armed d)
            ≡ (l', sending (p ∷ ps))))
step-sending_example = step-sending pinged (pos 1) refl ten-SomeActive
