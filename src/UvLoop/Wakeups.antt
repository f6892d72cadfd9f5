-- ===== src/UvLoop/Wakeups.antt =====
-- The scheduler of uvgo/loop.go: a timer that is fired, and timers that never are.
use go_example.Prelude.{ℕ, false, Option, List, [], ◌∷◌, ◌≡◌, refl, ap, ◌∙◌, arith}
use go_example.Prelude.Int.{ℤ}
use go_example.UvLoop.{Loop, live}
use go_example.UvLoop.Timers.{timer_start}
use go_example.UvLoop.Scheduler.{
  waiting, armed, Choice, on_done, on_wake, on_timer, step, run_steps,
}

-- Without a ping the scheduler waits, whatever the time.
step_waiting :
    (now : ℤ) (c : Choice) (l : Loop)
    → l.ctx ≡ live
    → l.timer_wake ≡ false
    → step now c l waiting ≡ (l, waiting)
unfolding step
step_waiting now on_done l e w = ground arith
step_waiting now on_wake l e w = ground arith
step_waiting now on_timer l e w = refl

run_steps_waiting :
    (cs : List (ℤ × Choice)) (l : Loop)
    → l.ctx ≡ live
    → l.timer_wake ≡ false
    → run_steps cs l waiting ≡ (l, waiting)
unfolding run_steps
run_steps_waiting [] l e w = refl
run_steps_waiting ((now, c) ∷ cs) l e w =
    ap (λ r. run_steps cs r.0 r.1) (step_waiting now c l e w) ∙ run_steps_waiting cs l e w

-- While the scheduler has armed a timer on a live loop, `TimerStart` disarms it: once the scheduler
-- has taken the ping, it waits for another one, and without that no step of it, at whatever time,
-- hands over a timer, neither the new one nor the one that was armed.
pub timer_start-lost :
    (l : Loop) (now first repeat t d : ℤ) (cb : Option ℕ) (cs : List (ℤ × Choice))
    → l.ctx ≡ live
    → let started = (timer_start now first repeat cb l).0 in
      let woken = step t on_wake started (armed d) in
      let end = run_steps cs woken.0 woken.1 in
      (end.1 ≡ waiting) × (end.0.fire ≡ l.fire) × (end.0.timers ≡ started.timers)
unfolding timer_start step
timer_start-lost l now first repeat t d cb cs e =
    let started = (timer_start now first repeat cb l).0 in
    let still = run_steps_waiting cs (record started { timer_wake = false }) e refl in
    (ap (λ r. r.1) still, ap (λ r. r.0.fire) still, ap (λ r. r.0.timers) still)
