-- ===== src/UvLoop/Scheduler.antt =====
-- `timerScheduler` of uvgo/loop.go: the goroutine that arms a timer and hands the due ones over.
use go_example.Prelude.{
  ℕ, false, Option, none, some, List, [], ◌∷◌, ◌++◌, length, ltb, if◌then◌else◌,
}
use go_example.Prelude.Int.{ℤ, ltb_ℤ}
use go_example.UvLoop.{Loop, is_done, fire_capacity}
use go_example.UvLoop.Timers.{next_timer_deadline, take_due}

-- Where the goroutine is: in its first `select`, in the second with an armed timer, in the loop of
-- `fireDueTimers` with the timers still to hand over, or at its end.
pub data Scheduler : Type 0 where
  waiting : Scheduler
  armed : ℤ → Scheduler
  sending : List ℕ → Scheduler
  ended : Scheduler

-- Which case a `select` takes.
pub data Choice : Type 0 where
  on_done : Choice
  on_wake : Choice
  on_timer : Choice

-- After the first `select`: the timer is armed for the next deadline, if there is one.
abbrev pub armed_for : Option ℤ → Scheduler
armed_for none = waiting
armed_for (some d) = armed d

unfoldable pub arm : ℤ → Loop → Loop × Scheduler
arm now l = (l, armed_for (next_timer_deadline now l))

-- `select { case l.fire <- th: case <-l.ctx.Done(): return }` of one timer.
unfoldable pub send_due : Choice → List ℕ → Loop → Loop × Scheduler
send_due c [] l = (l, waiting)
send_due on_done (p ∷ ps) l = if is_done l.ctx then (l, waiting) else (l, sending (p ∷ ps))
send_due on_wake (p ∷ ps) l = (l, sending (p ∷ ps))
send_due on_timer (p ∷ ps) l =
    if ltb (length l.fire) fire_capacity
    then (record l { fire = l.fire ++ (p ∷ []) }, sending ps)
    else (l, sending (p ∷ ps))

-- A step of the goroutine at a time; a case that is not ready leaves it where it is.
unfoldable pub step : ℤ → Choice → Loop → Scheduler → Loop × Scheduler
step now on_done l waiting = if is_done l.ctx then (l, ended) else (l, waiting)
step now on_wake l waiting =
    if l.timer_wake then arm now (record l { timer_wake = false }) else (l, waiting)
step now on_timer l waiting = (l, waiting)
step now on_done l (armed d) = if is_done l.ctx then (l, ended) else (l, armed d)
step now on_wake l (armed d) =
    if l.timer_wake then (record l { timer_wake = false }, waiting) else (l, armed d)
step now on_timer l (armed d) =
    if ltb_ℤ now d then (l, armed d) else (let (l', due) = take_due now l in (l', sending due))
step now on_done l (sending due) = send_due on_done due l
step now on_wake l (sending due) = send_due on_wake due l
step now on_timer l (sending due) = send_due on_timer due l
step now on_done l ended = (l, ended)
step now on_wake l ended = (l, ended)
step now on_timer l ended = (l, ended)

unfoldable pub run_steps : List (ℤ × Choice) → Loop → Scheduler → Loop × Scheduler
run_steps [] l s = (l, s)
run_steps ((now, c) ∷ cs) l s = let (l', s') = step now c l s in run_steps cs l' s'
