-- ===== src/FsPoll/Changes.antt =====
-- uvgo/fspoll.go: which states of a file the callback is told of, and when the next poll is due.
use native.Mathlib.Nat.{mod-lt, mod_self, mod-add-mod}
use go_example.Prelude.{
  ℕ, zero, suc, ◌+◌, ◌-◌, ◌%◌, ◌≤◌, ◌<◌, Bool, true, false, Option, some, List, [], ◌∷◌, ◌++◌, ◌==◌,
  ◌&&◌, ==_iff, ◌≢◌, ◌⊎◌, inl, inr, if_elim, if◌then◌else◌, ◌≡◌, refl, sym, ap, ◌∙◌, arith,
}
use mathlib.Core.Path.{subst}
use go_example.Prelude.Int.{ℤ, pos, negsuc}
use go_example.FsPoll
use go_example.FsPoll.{
  StatT, eq_ℤ, stat_equal, StatError, path_error, other_error, errno_from_stat_error, FsPollCall,
  FsPollState, StatResult, failed, found, interval_of, fs_poll_start, Started, started, on_failure,
  on_success, on_result, fspoll_dispatch, resume_after,
}

-- The calls of the callback over a sequence of results, each with the time since its job began.
unfoldable pub run : FsPollState → List (StatResult × ℕ) → List FsPollCall
run fp [] = []
run fp ((r, elapsed) ∷ rs) =
    let (fp', calls, d) = fspoll_dispatch fp r elapsed in calls ++ run fp' rs

-- The changes in a sequence of states that begins after `prev`.
unfoldable changes : StatT → List (StatT × ℕ) → List FsPollCall
changes prev [] = []
changes prev ((curr, elapsed) ∷ rs) =
    let rest = changes curr rs in
    if stat_equal prev curr
    then rest
    else record { status = pos 0; prev = prev; curr = curr } ∷ rest

-- Results without an error.
unfoldable pub all_found : List (StatT × ℕ) → List (StatResult × ℕ)
all_found [] = []
all_found ((s, elapsed) ∷ rs) = (found (some s), elapsed) ∷ all_found rs

run-changes :
    (fp : FsPollState) (rs : List (StatT × ℕ))
    → fp.active ≡ true
    → fp.busy ≡ pos 1
    → run fp (all_found rs) ≡ changes fp.prev rs
unfolding run changes all_found fspoll_dispatch on_result on_success
run-changes fp [] a b = refl
run-changes fp ((s, elapsed) ∷ rs) a b =
    let fp' : FsPollState = record fp { prev = s; busy = pos 1 } in
    ground (arith, run-changes fp' rs a refl, a, b)

interval_pos : (ms : ℤ) → 0 < interval_of ms
unfolding interval_of
interval_pos (pos zero) = omega arith
interval_pos (pos (suc n)) = omega arith
interval_pos (negsuc n) = omega arith

started_lem :
    (path : List ℕ) (ms : ℤ) (fp : FsPollState)
    → fs_poll_start true false path ms ≡ started fp
    → (fp.active ≡ true) × (fp.busy ≡ pos 0) × (0 < fp.interval)
unfolding fs_poll_start
started_lem path ms fp e = ground (arith, interval_pos ms, e)

eq_ℤ_refl : (z : ℤ) → eq_ℤ z z ≡ true
eq_ℤ_refl (pos n) = ground arith
eq_ℤ_refl (negsuc n) = ground arith

stat_equal_refl : (s : StatT) → stat_equal s s ≡ true
unfolding stat_equal
stat_equal_refl s = ground (arith, eq_ℤ_refl s.size, eq_ℤ_refl s.mod_time)

eq_ℤ→≡ : (a b : ℤ) → eq_ℤ a b ≡ true → a ≡ b
eq_ℤ→≡ (pos a) (pos b) h = ap pos ((==_iff a b).0 h)
eq_ℤ→≡ (pos a) (negsuc b) h = absurd (cc)
eq_ℤ→≡ (negsuc a) (pos b) h = absurd (cc)
eq_ℤ→≡ (negsuc a) (negsuc b) h = ap negsuc ((==_iff a b).0 h)

all_true : (a b c : Bool) → (a && b && c) ≡ true → (a ≡ true) × (b ≡ true) × (c ≡ true)
all_true a b c h = ground (arith, h)

stat_equal→≡ : (a b : StatT) → stat_equal a b ≡ true → a ≡ b
unfolding stat_equal
stat_equal→≡ a b h =
    let (s, m, t) =
      all_true (eq_ℤ a.size b.size) (a.mode == b.mode) (eq_ℤ a.mod_time b.mod_time) h in
    let with_size : ℤ → StatT = λ x. record a { size = x } in
    let with_mode : ℕ → StatT = λ x. record a { size = b.size; mode = x } in
    let with_time : ℤ → StatT = λ x. record b { mod_time = x } in
    ap with_size (eq_ℤ→≡ a.size b.size s)
    ∙ ap with_mode ((==_iff a.mode b.mode).0 m)
    ∙ ap with_time (eq_ℤ→≡ a.mod_time b.mod_time t)

-- The calls for a sequence of states after `prev`: one for each state that is not the one before it,
-- with the two, in their order.
abbrev pub IsChanges : StatT → List (StatT × ℕ) → List FsPollCall → Type 0
IsChanges prev [] calls = calls ≡ []
IsChanges prev ((curr, elapsed) ∷ rs) calls =
    ((prev ≡ curr) × IsChanges curr rs calls)
    ⊎ ((prev ≢ curr)
        × (rest : List FsPollCall) × (calls
            ≡ record { status = pos 0; prev = prev; curr = curr } ∷ rest)
        × IsChanges curr rs rest)

differs : (a b : StatT) → stat_equal a b ≡ false → a ≢ b
differs a b h e = let r = ap (stat_equal a) e in let s = stat_equal_refl a in absurd (cc)

changes-IsChanges : (prev : StatT) (rs : List (StatT × ℕ)) → IsChanges prev rs (changes prev rs)
unfolding changes
changes-IsChanges prev [] = refl
changes-IsChanges prev ((curr, elapsed) ∷ rs) =
    if_elim (IsChanges prev ((curr, elapsed) ∷ rs)) (stat_equal prev curr)
      (λ h. inl (stat_equal→≡ prev curr h, changes-IsChanges curr rs))
      (λ h. inr (differs prev curr h, changes curr rs, refl, changes-IsChanges curr rs))

-- A new poll, on whose file every `os.Stat` succeeds, calls back exactly for the changes: each state
-- whose size, mode or modification time is not that of the one before, with the two states, and none
-- for the first.
pub run-IsChanges_started :
    (path : List ℕ) (ms : ℤ) (fp : FsPollState) (first : StatT) (t : ℕ) (rs : List (StatT × ℕ))
    → fs_poll_start true false path ms ≡ started fp
    → IsChanges first rs (run fp (all_found ((first, t) ∷ rs)))
unfolding run all_found fspoll_dispatch on_result on_success
run-IsChanges_started path ms fp first t rs e =
    let (active, unset, _) = started_lem path ms fp e in
    let fp' : FsPollState = record fp { prev = first; busy = pos 1 } in
    let calls : run fp (all_found ((first, t) ∷ rs)) ≡ changes first rs =
      ground (arith, run-changes fp' rs active refl, active, unset) in
    subst (IsChanges first rs) (sym calls) (changes-IsChanges first rs)

full : (a b : ℕ) → a < b → a + (b - a) ≡ b
full a b h = omega arith

-- The next poll is due after at least a nanosecond and at most the interval, at a multiple of the
-- interval from the begin of the job on.
resume_after_bounds :
    (path : List ℕ) (ms : ℤ) (fp : FsPollState) (elapsed : ℕ)
    → fs_poll_start true false path ms ≡ started fp
    → (0 < resume_after fp elapsed)
      × (resume_after fp elapsed ≤ fp.interval)
      × ((elapsed + resume_after fp elapsed) % fp.interval ≡ 0)
unfolding resume_after
resume_after_bounds path ms fp elapsed e =
    let (_, _, long) = started_lem path ms fp e in
    let below = mod-lt elapsed long in
    (
      omega arith,
      omega arith,
      sym (mod-add-mod elapsed fp.interval (fp.interval - elapsed % fp.interval))
          ∙ ap (λ n. n % fp.interval) (full (elapsed % fp.interval) fp.interval below)
          ∙ mod_self fp.interval,
    )

-- After a poll with a baseline, an error with a positive number is reported, unless the number is
-- 1; a success with the state of before is not reported then.
run-recovery :
    (fp : FsPollState) (n t u : ℕ) (outer : Option ℤ)
    → fp.active ≡ true
    → fp.busy ≡ pos 1
    → run fp ((failed (path_error (some (pos (suc n))) outer), t) ∷ (found (some fp.prev), u) ∷ [])
      ≡ (if n == 0
          then []
          else record { status = pos (suc n); prev = fp.prev; curr = FsPoll.zero_stat } ∷ [])
unfolding run fspoll_dispatch on_result on_failure on_success errno_from_stat_error
run-recovery fp n t u outer a b = ground (arith, a, b, stat_equal_refl fp.prev)
