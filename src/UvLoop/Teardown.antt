-- ===== src/UvLoop/Teardown.antt =====
-- The end of a run of the loop of uvgo/eventloop.go.
use go_example.Prelude.{
  ℕ, Bool, true, false, Option, none, some, List, [], ◌∷◌, ◌++◌, ◌>>=◌, ◌≡◌, refl, sym, ap, ◌∙◌,
  arith, inl, inr, ◌⊎◌, Bool-cases, Option-cases, ◌<◌, length,
}
use mathlib.Core.Path.{subst}
use go_example.UvLoop.{Loop, CtxState, live, canceled, deadline_exceeded, is_done, Call, send_done}
use go_example.UvLoop.Phases.{
  run_default, Turn, go_on, returned, teardown_after_run, leave, result_of, before_poll, after_poll,
  after_blocking, poll_phase, poll_one_blocking, iterate, RunMode, run_rounds, run_mode,
}
use go_example.UvLoop.Drains.{IsTornDown, Keeps, teardown_lem, leave-some}

module _ (exec : Call → Loop → Loop)
    (calm : (fn : ℕ) (err : Bool) (l : Loop) → Keeps l (exec (send_done fn err) l)) where
  -- What a run that has returned leaves.
  abbrev Left : Loop → Option CtxState → Type 0
  Left l e =
      ((m : Loop) × (turn : Turn) × IsTornDown m turn l)
      × ((e ≡ none) ⊎ (e ≡ some deadline_exceeded))

  result_lem : (c : CtxState) → (result_of c ≡ none) ⊎ (result_of c ≡ some deadline_exceeded)
  unfolding result_of
  result_lem live = inl refl
  result_lem canceled = inl refl
  result_lem deadline_exceeded = inr refl

  leave_lem :
      (fuel : ℕ) (turn : Turn) (r e : Option CtxState) (l l' : Loop)
      → (r ≡ none) ⊎ (r ≡ some deadline_exceeded)
      → leave exec fuel turn r l ≡ some (l', returned e)
      → Left l' e
  unfolding leave
  leave_lem fuel turn r e l l' d h = elim (Option-cases (teardown_after_run exec fuel turn l)) [
    | inl n ↦ absurd (ground (arith, n, h))
    | inr (m, t) ↦
        let same : m ≡ l' = ground (arith, t, h) in
        let value : r ≡ e = ground (arith, t, h) in
        (
          (l, turn, teardown_lem exec calm fuel turn l l' (t ∙ ap some same)),
          subst (λ x. (x ≡ none) ⊎ (x ≡ some deadline_exceeded)) value d,
        )
  ]

  after_lem :
      (fuel : ℕ) (turn : Turn) (r : Loop × Bool) (l' : Loop) (e : Option CtxState)
      → after_blocking exec fuel turn true r ≡ some (l', returned e)
      → Left l' e
  unfolding after_blocking after_poll
  after_lem fuel turn (m, true) l' e h = absurd (ground (arith, h))
  after_lem fuel turn (m, false) l' e h =
      leave_lem fuel turn (result_of m.ctx) e m l' (result_lem m.ctx) h

  poll_lem :
      (fuel : ℕ) (turn : Turn) (l l' : Loop) (e : Option CtxState)
      → poll_phase exec fuel run_default turn l ≡ some (l', returned e)
      → Left l' e
  unfolding poll_phase
  poll_lem fuel turn l l' e h = elim (Option-cases (poll_one_blocking exec turn.picks l)) [
    | inl n ↦ absurd (ground (arith, n, h))
    | inr (r, p) ↦
        after_lem fuel turn r l' e (sym (ap (λ o. o >>= after_blocking exec fuel turn true) p) ∙ h)
  ]

  iterate_lem :
      (fuel : ℕ) (turn : Turn) (l l' : Loop) (e : Option CtxState)
      → iterate exec fuel run_default turn l ≡ some (l', returned e)
      → Left l' e
  unfolding iterate
  iterate_lem fuel turn l l' e h = elim (Bool-cases (is_done l.ctx)) [
    | inl d ↦ leave_lem fuel turn (result_of l.ctx) e l l' (result_lem l.ctx) (ground (arith, d, h))
    | inr d ↦ elim (Bool-cases l.stop_flag) [
      | inl s ↦
          leave_lem fuel turn none e (record l { stop_flag = false }) l' (inl refl)
            (ground (arith, d, s, h))
      | inr s ↦ elim (Option-cases (before_poll exec fuel turn l)) [
        | inl n ↦ absurd (ground (arith, d, s, n, h))
        | inr (m, b) ↦ poll_lem fuel turn m l' e (ground (arith, d, s, b, h))
      ]
    ]
  ]

  rounds_lem :
      (fuel : ℕ) (turns : List Turn) (l l' : Loop) (e : Option CtxState)
      → run_rounds exec fuel run_default turns l ≡ some (l', e)
      → Left l' e
  unfolding run_rounds
  rounds_lem fuel [] l l' e h = absurd (ground (arith, h))
  rounds_lem fuel (turn ∷ turns) l l' e h =
      elim (Option-cases (iterate exec fuel run_default turn l)) [
        | inl n ↦ absurd (ground (arith, n, h))
        | inr ((m, go_on), i) ↦ rounds_lem fuel turns m l' e (ground (arith, i, h))
        | inr ((m, returned r), i) ↦
            let (down, error) = iterate_lem fuel turn l m r i in
            let same : m ≡ l' = ground (arith, i, h) in
            let value : r ≡ e = ground (arith, i, h) in
            (
              subst (λ x. (m : Loop) × (turn : Turn) × IsTornDown m turn x) same down,
              subst (λ x. (x ≡ none) ⊎ (x ≡ some deadline_exceeded)) value error,
            )
      ]

  -- When `RunMode` in the default mode has returned, whatever events and callbacks came before, a
  -- teardown of some loop has given the last one, and the error is nil or the passed deadline.
  run_mode-IsTornDown :
      (fuel ms : ℕ) (turns : List Turn) (l l' : Loop) (e : Option CtxState)
      → run_mode exec fuel run_default ms turns l ≡ some (l', e)
      → ((m : Loop) × (turn : Turn) × IsTornDown m turn l')
        × ((e ≡ none) ⊎ (e ≡ some deadline_exceeded))
  unfolding run_mode
  run_mode-IsTornDown fuel ms turns l l' e h = rounds_lem fuel turns _ l' e h

  -- What a round returns for the state of a context.
  abbrev pub ErrorFor : CtxState → Option CtxState → Type 0
  ErrorFor live e = e ≡ none
  ErrorFor canceled e = e ≡ none
  ErrorFor deadline_exceeded e = e ≡ some deadline_exceeded

  result_of-ErrorFor : (c : CtxState) → ErrorFor c (result_of c)
  unfolding result_of
  result_of-ErrorFor live = refl
  result_of-ErrorFor canceled = refl
  result_of-ErrorFor deadline_exceeded = refl

  -- Where the callbacks of sends leave the sockets and queues alone: a round of `RunMode`, in any mode,
  -- on a loop whose context is done returns, with the error of a deadline that has passed and else
  -- nil. It has closed every listener, socket and waiting connection, has called the callback of each
  -- completed send once, in their order, and leaves in the queues what arrives after they were
  -- drained and nothing else: such a connection is not closed. The fuel is above the number of sends.
  pub iterate-IsTornDown :
      (fuel : ℕ) (mode : RunMode) (turn : Turn) (l : Loop)
      → is_done l.ctx ≡ true
      → length (l.udp_send_done ++ turn.during.sends) < fuel
      → (l' : Loop) × (e : Option CtxState) × (iterate exec fuel mode turn l
          ≡ some (l', returned e))
        × IsTornDown l turn l'
        × ErrorFor l.ctx e
  unfolding iterate
  iterate-IsTornDown fuel mode turn l d h =
      let (l', run, down) = leave-some exec calm fuel turn (result_of l.ctx) l h in
      (l', result_of l.ctx, rw d run, down, result_of-ErrorFor l.ctx)
