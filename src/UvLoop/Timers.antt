-- ===== src/UvLoop/Timers.antt =====
-- uvgo/timer.go and the timers of uvgo/loop.go and eventloop.go.
use go_example.Prelude.{
  ℕ, ◌+◌, Bool, true, false, not, ◌||◌, Option, none, some, List, [], ◌∷◌, ◌++◌, ◌==◌,
  if◌then◌else◌,
}
use go_example.Prelude.Int.{ℤ, pos, ◌+ℤ◌, ltb_ℤ}
use go_example.UvLoop.{Loop, TimerHandle, Call, timer, handle_at, update_handle}

-- `pingScheduler`: the channel holds one ping.
abbrev pub ping_scheduler : Loop → Loop
ping_scheduler l = record l { timer_wake = true }

-- `TimerStart` at a time; the pointer is the next number.
unfoldable pub timer_start : ℤ → ℤ → ℤ → Option ℕ → Loop → Loop × ℕ
timer_start now first repeat cb l =
    let th : TimerHandle = record {
      id = l.next_id;
      next = now +ℤ first;
      repeat = repeat;
      cb = cb;
      active = true;
    } in
    (
      ping_scheduler (record l {
        next_id = l.next_id + 1;
        handles = l.handles ++ (th ∷ []);
        timers = l.timers ++ (l.next_id ∷ []);
      }),
      l.next_id,
    )

-- The handle after `t.h.active = false`.
unfoldable pub deactivate : ℕ → List TimerHandle → List TimerHandle
deactivate p ths = elim (handle_at p ths) [
  | none ↦ ths
  | some th ↦ update_handle (record th { active = false }) ths
]

-- `Timer.Stop` of a timer of the loop.
unfoldable pub timer_stop : ℕ → Loop → Loop
timer_stop p l = ping_scheduler (record l { handles = deactivate p l.handles })

-- `th.next.Before(min)` for the least deadline so far.
unfoldable pub earlier : ℤ → Option ℤ → ℤ
earlier t none = t
earlier t (some m) = if ltb_ℤ t m then t else m

-- The least deadline after one more timer.
unfoldable pub with_deadline : Option TimerHandle → Option ℤ → Option ℤ
with_deadline none min = min
with_deadline (some th) min = if th.active then some (earlier th.next min) else min

-- The loop of `nextTimerDeadline`: the least deadline of the active timers.
unfoldable pub least_deadline : List ℕ → List TimerHandle → Option ℤ → Option ℤ
least_deadline [] ths min = min
least_deadline (p ∷ ps) ths min = least_deadline ps ths (with_deadline (handle_at p ths) min)

-- The deadline, but not before the present.
unfoldable pub not_before : ℤ → Option ℤ → Option ℤ
not_before now none = none
not_before now (some m) = some (if ltb_ℤ m now then now else m)

-- `nextTimerDeadline`: not before the present.
unfoldable pub next_timer_deadline : ℤ → Loop → Option ℤ
next_timer_deadline now l = not_before now (least_deadline l.timers l.handles none)

abbrev pub is_due : ℤ → TimerHandle → Bool
is_due now th = not (ltb_ℤ now th.next)

-- The due timers and those that remain, with one more timer before them.
unfoldable pub split_one : ℤ → ℕ → Option TimerHandle → List ℕ × List ℕ → List ℕ × List ℕ
split_one now p none (due, remain) = (due, remain)
split_one now p (some th) (due, remain) =
    if th.active
    then if is_due now th then (p ∷ due, remain) else (due, p ∷ remain)
    else (due, remain)

-- The loop of `fireDueTimers`.
unfoldable pub split_due : ℤ → List ℕ → List TimerHandle → List ℕ × List ℕ
split_due now [] ths = ([], [])
split_due now (p ∷ ps) ths = split_one now p (handle_at p ths) (split_due now ps ths)

-- The first half of `fireDueTimers`, under the lock: the due timers leave the list.
unfoldable pub take_due : ℤ → Loop → Loop × List ℕ
take_due now l =
    let (due, remain) = split_due now l.timers l.handles in (record l { timers = remain }, due)

unfoldable pub is_among : ℕ → List ℕ → Bool
is_among p [] = false
is_among p (q ∷ qs) = q == p || is_among p qs

-- `rescheduleTimer`
unfoldable pub reschedule_timer : ℕ → Loop → Loop
reschedule_timer p l =
    ping_scheduler (if is_among p l.timers then l else record l { timers = l.timers ++ (p ∷ []) })

-- After the callback of a timer: the handle is read again, since the callback may write to it.
unfoldable pub after_callback : ℤ → ℕ → Loop → Option TimerHandle → Loop
after_callback now p l none = l
after_callback now p l (some th) =
    if ltb_ℤ (pos 0) th.repeat
    then reschedule_timer p
        (record l { handles = update_handle (record th { next = now +ℤ th.repeat }) l.handles })
    else record l { handles = update_handle (record th { active = false }) l.handles }

module _ (exec : Call → Loop → Loop) where
  -- A call of a callback.
  unfoldable pub invoke : Call → Loop → Loop
  invoke c l = exec c (record l { calls = l.calls ++ (c ∷ []) })

  unfoldable pub call_timer : Option ℕ → Loop → Loop
  call_timer none l = l
  call_timer (some fn) l = invoke (timer fn) l

  -- `dispatchTimer`, for the handle of the pointer; `now` is the time after the callback.
  unfoldable pub dispatch_handle : ℤ → ℕ → Option TimerHandle → Loop → Loop
  dispatch_handle now p none l = l
  dispatch_handle now p (some th) l =
      if th.active
      then (let l' = call_timer th.cb l in after_callback now p l' (handle_at p l'.handles))
      else l

  unfoldable pub dispatch_timer : ℤ → ℕ → Loop → Loop
  dispatch_timer now p l = dispatch_handle now p (handle_at p l.handles) l
