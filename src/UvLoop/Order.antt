-- ===== src/UvLoop/Order.antt =====
-- The rounds of `RunMode` of uvgo/eventloop.go: the order of the callbacks, and a queue that never
-- becomes empty.
use go_example.Prelude.{
  ℕ, zero, suc, ◌<◌, true, false, none, some, List, [], ◌∷◌, ◌++◌, map, length, length-append,
  ◌>>=◌, ◌≡◌, refl, sym, ap, ◌∙◌, arith, append_assoc, append-nil,
}
use go_example.UvLoop.{
  Loop, live, Call, posted, hook, PhaseHook, post, pending_capacity, update_time,
}
use go_example.UvLoop.Timers.{invoke}
use go_example.UvLoop.Phases.{
  RunMode, run_default, run_once, Source, done, accepted, fspoll, udp, sent, fired, Turn, go_on,
  returned, run_pending, run_hooks, take_event, poll_one_blocking, before_poll, after_poll,
  after_blocking, poll_phase, iterate,
}

-- The calls of some hooks.
unfoldable pub hook_calls : List PhaseHook → List Call
hook_calls [] = []
hook_calls (h ∷ hs) = hook h.fn ∷ hook_calls hs

-- The loop before the poll of a round, where the callbacks leave it alone.
abbrev pub prepared : ℕ → Loop → Loop
prepared ms l = record l {
  cached_now = ms;
  pending_q = [];
  calls =
      ((l.calls ++ map posted l.pending_q) ++ hook_calls l.idle_hooks)
      ++ hook_calls l.prepare_hooks;
}

abbrev with_calls : List Call → Loop → Loop
with_calls cs l = record l { calls = cs }

-- The loop after the check phase.
abbrev pub checked : Loop → Loop
checked m = with_calls (m.calls ++ hook_calls m.check_hooks) m

module _ (exec : Call → Loop → Loop) (silent : (c : Call) (l : Loop) → exec c l ≡ l) where
  run_pending_lem :
      (fuel : ℕ) (q : List ℕ) (cs : List Call) (l : Loop)
      → length q < fuel
      → run_pending exec fuel (record l { pending_q = q; calls = cs })
        ≡ some (record l { pending_q = []; calls = cs ++ map posted q })
  unfolding run_pending invoke
  run_pending_lem zero q cs l h = absurd (omega arith)
  run_pending_lem (suc fuel) [] cs l h =
      ap (λ c. some (record l { pending_q = []; calls = c })) (sym (append-nil cs))
  run_pending_lem (suc fuel) (fn ∷ q) cs l h =
      let next : Loop = record l { pending_q = q; calls = cs ++ (posted fn ∷ []) } in
      ap (run_pending exec fuel) (silent (posted fn) next)
      ∙ run_pending_lem fuel q (cs ++ (posted fn ∷ [])) l (omega arith)
      ∙ ap (λ c. some (record l { pending_q = []; calls = c }))
          (append_assoc cs (posted fn ∷ []) (map posted q))

  run_hooks_lem :
      (hs : List PhaseHook) (l : Loop)
      → run_hooks exec hs l ≡ with_calls (l.calls ++ hook_calls hs) l
  unfolding run_hooks invoke hook_calls
  run_hooks_lem [] l = ap (λ c. with_calls c l) (sym (append-nil l.calls))
  run_hooks_lem (h ∷ hs) l =
      let next = with_calls (l.calls ++ (hook h.fn ∷ [])) l in
      ap (run_hooks exec hs) (silent (hook h.fn) next)
      ∙ run_hooks_lem hs next
      ∙ ap (λ c. with_calls c l) (append_assoc l.calls (hook h.fn ∷ []) (hook_calls hs))

  before_poll_lem :
      (fuel : ℕ) (turn : Turn) (l : Loop)
      → length l.pending_q < fuel
      → before_poll exec fuel turn l ≡ some (prepared turn.ms l)
  unfolding before_poll
  before_poll_lem fuel turn l h =
      let now = update_time turn.ms l in
      let l1 : Loop = record now { pending_q = []; calls = l.calls ++ map posted l.pending_q } in
      let l2 = with_calls (l1.calls ++ hook_calls l1.idle_hooks) l1 in
      ap
        (λ o. o >>= λ m. some (
          run_hooks exec (run_hooks exec m.idle_hooks m).prepare_hooks
            (run_hooks exec m.idle_hooks m)))
        (run_pending_lem fuel l.pending_q l.calls now h)
      ∙ ap (λ m. some (run_hooks exec m.prepare_hooks m)) (run_hooks_lem l1.idle_hooks l1)
      ∙ ap some (run_hooks_lem l2.prepare_hooks l2)

  enter :
      (fuel : ℕ) (mode : RunMode) (turn : Turn) (l : Loop)
      → l.ctx ≡ live
      → l.stop_flag ≡ false
      → iterate exec fuel mode turn l
        ≡ (before_poll exec fuel turn l >>= poll_phase exec fuel mode turn)
  unfolding iterate
  enter fuel mode turn l c f = ground (arith, c, f)

  poll_lem :
      (s : Source) (rest : List Source) (l m : Loop)
      → take_event exec s l ≡ some m
      → poll_one_blocking exec (s ∷ rest) l ≡ some (m, true)
  unfolding poll_one_blocking take_event
  poll_lem done rest l m e = ground arith
  poll_lem accepted rest l m e = ap (λ o. o >>= λ l'. some (l', true)) e
  poll_lem fspoll rest l m e = ap (λ o. o >>= λ l'. some (l', true)) e
  poll_lem udp rest l m e = ap (λ o. o >>= λ l'. some (l', true)) e
  poll_lem sent rest l m e = ap (λ o. o >>= λ l'. some (l', true)) e
  poll_lem (fired now) rest l m e = ap (λ o. o >>= λ l'. some (l', true)) e

  module _ (fuel : ℕ) (turn : Turn) (s : Source) (rest : List Source) (l m : Loop)
      (p : turn.picks ≡ s ∷ rest) (e : take_event exec s l ≡ some m) where
    poll_default : poll_phase exec fuel run_default turn l ≡ some (checked m, go_on)
    unfolding poll_phase after_blocking after_poll
    poll_default =
        ap (λ ps. poll_one_blocking exec ps l >>= after_blocking exec fuel turn true) p
        ∙ ap (λ o. o >>= after_blocking exec fuel turn true) (poll_lem s rest l m e)
        ∙ ap (λ k. some (k, go_on)) (run_hooks_lem m.check_hooks m)

    poll_once : poll_phase exec fuel run_once turn l ≡ some (checked m, returned none)
    unfolding poll_phase after_blocking after_poll
    poll_once =
        ap (λ ps. poll_one_blocking exec ps l >>= after_blocking exec fuel turn false) p
        ∙ ap (λ o. o >>= after_blocking exec fuel turn false) (poll_lem s rest l m e)
        ∙ ap (λ k. some (k, returned none)) (run_hooks_lem m.check_hooks m)

  -- Where the callbacks leave the loop alone, a round of `RunMode` on a live loop with no stop
  -- request and an event that is ready calls the posted functions, the idle hooks and the prepare
  -- hooks in this order, then dispatches the event, and then calls the check hooks; the default mode
  -- goes on, the once mode returns nil.
  pub iterate-checked :
      (fuel : ℕ) (turn : Turn) (s : Source) (rest : List Source) (l m : Loop)
      → l.ctx ≡ live
      → l.stop_flag ≡ false
      → length l.pending_q < fuel
      → turn.picks ≡ s ∷ rest
      → take_event exec s (prepared turn.ms l) ≡ some m
      → (iterate exec fuel run_default turn l ≡ some (checked m, go_on))
        × (iterate exec fuel run_once turn l ≡ some (checked m, returned none))
  iterate-checked fuel turn s rest l m c f h p e =
      let start = before_poll_lem fuel turn l h in
      (
        enter fuel run_default turn l c f
            ∙ ap (λ o. o >>= poll_phase exec fuel run_default turn) start
            ∙ poll_default fuel turn s rest (prepared turn.ms l) m p e,
        enter fuel run_once turn l c f
            ∙ ap (λ o. o >>= poll_phase exec fuel run_once turn) start
            ∙ poll_once fuel turn s rest (prepared turn.ms l) m p e,
      )

-- Where each posted function posts itself again, the pending phase ends within no number of rounds,
-- once one function is queued.
run_pending-none :
    (exec : Call → Loop → Loop)
    → ((fn : ℕ) (l : Loop) → exec (posted fn) l ≡ post fn l)
    → (fuel fn : ℕ) (rest : List ℕ) (l : Loop) → length rest < pending_capacity
    → l.pending_q ≡ fn ∷ rest
    → run_pending exec fuel l ≡ none
unfolding run_pending invoke post
run_pending-none exec again zero fn rest l room e = refl
run_pending-none exec again (suc fuel) fn [] l room e =
    let before : Loop = record l { pending_q = []; calls = l.calls ++ (posted fn ∷ []) } in
    ground (arith, e, again fn before, run_pending-none exec again fuel fn [] (post fn before) room)
run_pending-none exec again (suc fuel) fn (r ∷ rest) l room e =
    let before : Loop = record l { pending_q = r ∷ rest; calls = l.calls ++ (posted fn ∷ []) } in
    ground (
      arith,
      e,
      again fn before,
      length-append rest (fn ∷ []),
      run_pending-none exec again fuel r (rest ++ (fn ∷ [])) (post fn before),
    )
