-- ===== src/UvLoop/Due.antt =====
-- The deadlines of uvgo/loop.go: the scheduler arms its timer for one that will be due.
use go_example.Prelude.{
  ℕ, true, false, Option, none, some, List, [], ◌∷◌, if◌then◌else◌, ◌≡◌, ◌≢◌, ◌⊎◌, refl, sym, ap,
  ◌∙◌, arith, inl, inr, Bool-cases, Option-cases,
}
use go_example.Prelude.Int.{ℤ, ltb_ℤ, ◌≤ℤ◌}
use go_example.UvLoop.{Loop, TimerHandle, handle_at}
use go_example.UvLoop.Timers.{
  earlier, with_deadline, least_deadline, not_before, next_timer_deadline, is_due, split_one,
  split_due, take_due,
}
use go_example.UvLoop.Scheduler.{waiting, armed, sending, on_wake, on_timer, arm, armed_for, step}

module _ (ths : List TimerHandle) where
  -- Some pointer of a list leads to an active timer with the property.
  abbrev pub SomeActive : (TimerHandle → Type 0) → List ℕ → Type 0
  SomeActive Q [] = ⊥
  SomeActive Q (p ∷ ps) =
      ((th : TimerHandle) × (handle_at p ths ≡ some th) × (th.active ≡ true) × Q th)
      ⊎ SomeActive Q ps

  with_deadline_lem :
      (o : Option TimerHandle) (min : Option ℤ) (m : ℤ)
      → with_deadline o min ≡ some m
      → (min ≡ some m) ⊎ ((th : TimerHandle) × (o ≡ some th) × (th.active ≡ true) × (th.next ≡ m))
  unfolding with_deadline earlier
  with_deadline_lem none min m h = inl h
  with_deadline_lem (some th) none m h = elim (Bool-cases th.active) [
    | inl a ↦ inr (th, refl, a, ground (arith, h, a))
    | inr a ↦ inl (ground (arith, h, a))
  ]
  with_deadline_lem (some th) (some k) m h = elim (Bool-cases th.active) [
    | inl a ↦ elim (Bool-cases (ltb_ℤ th.next k)) [
      | inl b ↦ inr (th, refl, a, ground (arith, h, a, b))
      | inr b ↦ inl (ground (arith, h, a, b))
    ]
    | inr a ↦ inl (ground (arith, h, a))
  ]

  -- The least deadline is that of an active timer.
  least_deadline_lem :
      (ps : List ℕ) (min : Option ℤ) (m : ℤ)
      → least_deadline ps ths min ≡ some m
      → (min ≡ some m) ⊎ SomeActive (λ th. th.next ≡ m) ps
  unfolding least_deadline
  least_deadline_lem [] min m h = inl h
  least_deadline_lem (p ∷ ps) min m h =
      elim (least_deadline_lem ps (with_deadline (handle_at p ths) min) m h) [
        | inr s ↦ inr (inr s)
        | inl e ↦ elim (with_deadline_lem (handle_at p ths) min m e) [
          | inl same ↦ inl same
          | inr t ↦ inr (inl t)
        ]
      ]

  with_deadline-some : (o : Option TimerHandle) (k : ℤ) → with_deadline o (some k) ≢ none
  unfolding with_deadline
  with_deadline-some none k h = ground arith
  with_deadline-some (some th) k h = ground arith

  least_deadline-some : (ps : List ℕ) (k : ℤ) → (m : ℤ) × (least_deadline ps ths (some k) ≡ some m)
  unfolding least_deadline with_deadline
  least_deadline-some [] k = (k, refl)
  least_deadline-some (p ∷ ps) k = elim (Option-cases (with_deadline (handle_at p ths) (some k))) [
    | inl e ↦ absurd (with_deadline-some (handle_at p ths) k e)
    | inr (j, e) ↦
        let (m, run) = least_deadline-some ps j in (m, ap (least_deadline ps ths) e ∙ run)
  ]

  least_deadline-active :
      (Q : TimerHandle → Type 0) (ps : List ℕ) (min : Option ℤ)
      → SomeActive Q ps
      → (m : ℤ) × (least_deadline ps ths min ≡ some m)
  unfolding least_deadline with_deadline
  least_deadline-active Q [] min s = elim s [ ]
  least_deadline-active Q (p ∷ ps) min (inl (th, e, a, _)) =
      let (m, run) = least_deadline-some ps (earlier th.next min) in
      (
        m,
        ap (λ o. least_deadline ps ths (with_deadline o min)) e
            ∙ ap (λ b. least_deadline ps ths (if b then some (earlier th.next min) else min)) a
            ∙ run,
      )
  least_deadline-active Q (p ∷ ps) min (inr s) =
      least_deadline-active Q ps (with_deadline (handle_at p ths) min) s

  -- Every pointer of a list that leads to an active timer leads to one with the property.
  abbrev pub AllActive : (TimerHandle → Type 0) → List ℕ → Type 0
  AllActive Q [] = Unit {0}
  AllActive Q (p ∷ ps) =
      ((th : TimerHandle) → handle_at p ths ≡ some th → th.active ≡ true → Q th) × AllActive Q ps

  AllActive-map :
      (Q R : TimerHandle → Type 0) (ps : List ℕ)
      → ((th : TimerHandle) → Q th → R th)
      → AllActive Q ps
      → AllActive R ps
  AllActive-map Q R [] f a = tt
  AllActive-map Q R (p ∷ ps) f a = (λ th e h. f th (a.0 th e h), AllActive-map Q R ps f a.1)

  with_deadline_below :
      (o : Option TimerHandle) (k : ℤ) → (j : ℤ) × (with_deadline o (some k) ≡ some j) × (j ≤ℤ k)
  unfolding with_deadline earlier
  with_deadline_below none k = (k, refl, ground arith)
  with_deadline_below (some th) k = elim (Bool-cases th.active) [
    | inr a ↦ (k, ground (arith, a), ground arith)
    | inl a ↦ elim (Bool-cases (ltb_ℤ th.next k)) [
      | inl b ↦ (th.next, ground (arith, a, b), ground (arith, b))
      | inr b ↦ (k, ground (arith, a, b), ground arith)
    ]
  ]

  with_deadline_next :
      (th : TimerHandle) (min : Option ℤ)
      → th.active ≡ true
      → (j : ℤ) × (with_deadline (some th) min ≡ some j) × (j ≤ℤ th.next)
  unfolding with_deadline earlier
  with_deadline_next th none a = (th.next, ground (arith, a), ground arith)
  with_deadline_next th (some k) a = elim (Bool-cases (ltb_ℤ th.next k)) [
    | inl b ↦ (th.next, ground (arith, a, b), ground arith)
    | inr b ↦ (k, ground (arith, a, b), ground (arith, b))
  ]

  trans_ℤ : (a b c : ℤ) → a ≤ℤ b → b ≤ℤ c → a ≤ℤ c
  trans_ℤ a b c h k = ground arith

  same_ℤ : (a b : ℤ) → some a ≡ some b → a ≤ℤ b
  same_ℤ a b h = ground (arith, h)

  -- The least deadline is at most each one.
  least_deadline_below :
      (ps : List ℕ) (min : Option ℤ) (m : ℤ)
      → least_deadline ps ths min ≡ some m
      → ((k : ℤ) → min ≡ some k → m ≤ℤ k) × AllActive (λ th. m ≤ℤ th.next) ps
  unfolding least_deadline
  least_deadline_below [] min m h = (λ k e. same_ℤ m k (sym h ∙ e), tt)
  least_deadline_below (p ∷ ps) min m h =
      let (below, all) = least_deadline_below ps (with_deadline (handle_at p ths) min) m h in
      (
        λ k e.
            let (j, run, le) = with_deadline_below (handle_at p ths) k in
            trans_ℤ m j k (below j (ap (with_deadline (handle_at p ths)) e ∙ run)) le,
        (
          λ th e a.
              let (j, run, le) = with_deadline_next th min a in
              trans_ℤ m j th.next (below j (ap (λ o. with_deadline o min) e ∙ run)) le,
          all,
        ),
      )

  split_one_some :
      (now : ℤ) (p : ℕ) (o : Option TimerHandle) (r : List ℕ × List ℕ) (q : ℕ) (qs : List ℕ)
      → r.0 ≡ q ∷ qs
      → (q' : ℕ) × (qs' : List ℕ) × ((split_one now p o r).0 ≡ q' ∷ qs')
  unfolding split_one
  split_one_some now p none (due, remain) q qs e = (q, qs, e)
  split_one_some now p (some th) (due, remain) q qs e = elim (Bool-cases th.active) [
    | inr a ↦ (q, qs, ground (arith, a, e))
    | inl a ↦ elim (Bool-cases (is_due now th)) [
      | inl d ↦ (p, due, ground (arith, a, d))
      | inr d ↦ (q, qs, ground (arith, a, d, e))
    ]
  ]

  due_lem :
      (now : ℤ) (p : ℕ) (th : TimerHandle) (r : List ℕ × List ℕ)
      → th.active ≡ true
      → is_due now th ≡ true
      → (split_one now p (some th) r).0 ≡ p ∷ r.0
  unfolding split_one
  due_lem now p th (due, remain) a d = ground (arith, a, d)

  split_due-some :
      (now m : ℤ) (ps : List ℕ)
      → m ≤ℤ now
      → SomeActive (λ th. th.next ≡ m) ps
      → (q : ℕ) × (qs : List ℕ) × ((split_due now ps ths).0 ≡ q ∷ qs)
  unfolding split_due split_one
  split_due-some now m [] le s = elim s [ ]
  split_due-some now m (p ∷ ps) le (inl (th, e, a, n)) = (
    p,
    (split_due now ps ths).0,
    ap (λ o. (split_one now p o (split_due now ps ths)).0) e
        ∙ due_lem now p th (split_due now ps ths) a (ground (arith, n, le)),
  )
  split_due-some now m (p ∷ ps) le (inr s) =
      let (q, qs, e) = split_due-some now m ps le s in
      split_one_some now p (handle_at p ths) (split_due now ps ths) q qs e

-- A time, or now where that is later.
abbrev pub present : ℤ → ℤ → ℤ
present now m = if ltb_ℤ m now then now else m

le_present : (now m t : ℤ) → present now m ≤ℤ t → m ≤ℤ t
le_present now m t h = ground arith

present_mono : (now m n : ℤ) → m ≤ℤ n → present now m ≤ℤ present now n
present_mono now m n h = ground arith

step_due :
    (later d : ℤ) (l : Loop)
    → d ≤ℤ later
    → step later on_timer l (armed d) ≡ (
      record l { timers = (split_due later l.timers l.handles).1 },
      sending (split_due later l.timers l.handles).0,
    )
unfolding step take_due
step_due later d l h = ground arith

-- With a ping and an active timer on the loop, the scheduler arms its timer, for a time no later than
-- the deadline of any active timer, or than now where that has passed; once this time has come, it
-- has a timer to hand over.
pub step-sending :
    (l : Loop) (now : ℤ)
    → l.timer_wake ≡ true
    → SomeActive l.handles (λ th. Unit {0}) l.timers
    → (d : ℤ) × (step now on_wake l waiting ≡ (record l { timer_wake = false }, armed d))
      × AllActive l.handles (λ th. d ≤ℤ present now th.next) l.timers
      × ((later : ℤ)
          → d ≤ℤ later
          → (l' : Loop) × (p : ℕ) × (ps : List ℕ) × (step later on_timer
                (record l { timer_wake = false })
                (armed d)
              ≡ (l', sending (p ∷ ps))))
unfolding step arm next_timer_deadline not_before
step-sending l now w s =
    let (m, run) = least_deadline-active l.handles (λ th. Unit {0}) l.timers none s in
    let woken : Loop = record l { timer_wake = false } in
    (
      present now m,
      rw w (ap (λ o. (woken, armed_for (not_before now o))) run),
      AllActive-map l.handles (λ th. m ≤ℤ th.next) (λ th. present now m ≤ℤ present now th.next)
          l.timers (λ th. present_mono now m th.next)
          (least_deadline_below l.handles l.timers none m run).1,
      λ later h. elim (least_deadline_lem l.handles l.timers none m run) [
        | inl e ↦ absurd (ground (arith, e))
        | inr at ↦
            let le = le_present now m later h in
            let (p, ps, due) = split_due-some l.handles later m l.timers le at in
            let rest = (split_due later l.timers l.handles).1 in
            (
              record woken { timers = rest },
              p,
              ps,
              step_due later (present now m) woken h
                  ∙ ap (λ q. (record woken { timers = rest }, sending q)) due,
            )
      ],
    )
