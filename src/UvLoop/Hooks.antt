-- ===== src/UvLoop/Hooks.antt =====
-- The hooks of uvgo/eventloop.go: `Prepare`, `Idle` and `Check`, which return a function that takes
-- the hook off again.
use go_example.Prelude.{
  ℕ, ◌+◌, Option, none, some, List, [], ◌∷◌, ◌++◌, if◌then◌else◌, ◌==◌, ◌≡◌, refl, ap, ap₂,
  append-nil, ◌∙◌, arith, ◌<◌, All,
}
use go_example.UvLoop.{Loop, PhaseHook}

-- The lists of hooks.
pub data Phase : Type 0 where
  prepare : Phase
  idle : Phase
  check : Phase

unfoldable pub hooks_of : Phase → Loop → List PhaseHook
hooks_of prepare l = l.prepare_hooks
hooks_of idle l = l.idle_hooks
hooks_of check l = l.check_hooks

unfoldable pub with_hooks : Phase → List PhaseHook → Loop → Loop
with_hooks prepare hs l = record l { prepare_hooks = hs }
with_hooks idle hs l = record l { idle_hooks = hs }
with_hooks check hs l = record l { check_hooks = hs }

-- `Prepare`, `Idle` and `Check` of a function; a nil function adds nothing. The result is the
-- pointer that the returned function keeps, if any.
unfoldable pub register : Phase → Option ℕ → Loop → Loop × Option ℕ
register ph none l = (l, none)
register ph (some fn) l = (
  with_hooks ph (hooks_of ph l ++ (record { id = l.next_id; fn = fn } ∷ []))
      (record l { next_id = l.next_id + 1 }),
  some l.next_id,
)

-- The loop over the hooks of the returned function.
unfoldable pub without : ℕ → List PhaseHook → List PhaseHook
without p [] = []
without p (h ∷ hs) = let rest = without p hs in if h.id == p then rest else h ∷ rest

-- The returned function.
unfoldable pub unregister : Phase → Option ℕ → Loop → Loop
unregister ph none l = l
unregister ph (some p) l = with_hooks ph (without p (hooks_of ph l)) l

-- The pointers of hooks are older than the next one.
abbrev pub IsOlder : ℕ → List PhaseHook → Type 0
IsOlder n hs = All (λ h. h.id < n) hs

without-append :
    (p : ℕ) (hs gs : List PhaseHook) → without p (hs ++ gs) ≡ without p hs ++ without p gs
unfolding without
without-append p [] gs = refl
without-append p (h ∷ hs) gs = ground (arith, without-append p hs gs)

without_older : (p : ℕ) (hs : List PhaseHook) → IsOlder p hs → without p hs ≡ hs
unfolding without
without_older p [] o = refl
without_older p (h ∷ hs) (lt, o) = ground (arith, without_older p hs o)

without_newer : (p : ℕ) (hs : List PhaseHook) → All (λ h. p < h.id) hs → without p hs ≡ hs
unfolding without
without_newer p [] o = refl
without_newer p (h ∷ hs) (lt, o) = ground (arith, without_newer p hs o)

without_own : (p fn : ℕ) → without p (record { id = p; fn = fn } ∷ []) ≡ []
unfolding without
without_own p fn = ground arith

taken_off :
    (p fn : ℕ) (hs : List PhaseHook)
    → IsOlder p hs
    → without p (hs ++ (record { id = p; fn = fn } ∷ [])) ≡ hs
taken_off p fn hs older =
    without-append p hs (record { id = p; fn = fn } ∷ [])
    ∙ ap₂ ◌++◌ (without_older p hs older) (without_own p fn)
    ∙ append-nil hs

hooks_of-with_hooks :
    (ph : Phase) (hs : List PhaseHook) (l : Loop) → hooks_of ph (with_hooks ph hs l) ≡ hs
unfolding hooks_of with_hooks
hooks_of-with_hooks prepare hs l = refl
hooks_of-with_hooks idle hs l = refl
hooks_of-with_hooks check hs l = refl

-- Where the hooks of a phase are older than the next pointer, the function that a registration
-- returns takes exactly the registered hook off: the hooks of before and those that were added
-- later, with newer pointers, stay in their order.
unregister-register :
    (ph : Phase) (fn : ℕ) (l later : Loop) (added : List PhaseHook)
    → IsOlder l.next_id (hooks_of ph l)
    → All (λ h. l.next_id < h.id) added
    → hooks_of ph later ≡ hooks_of ph (register ph (some fn) l).0 ++ added
    → hooks_of ph (unregister ph (register ph (some fn) l).1 later) ≡ hooks_of ph l ++ added
unfolding register unregister
unregister-register ph fn l later added older newer same =
    let p = l.next_id in
    let hs = hooks_of ph l in
    let own = hs ++ (record { id = p; fn = fn } ∷ []) in
    let registered = hooks_of-with_hooks ph own (record l { next_id = p + 1 }) in
    hooks_of-with_hooks ph (without p (hooks_of ph later)) later
    ∙ ap (without p) (same ∙ ap (λ h. h ++ added) registered)
    ∙ without-append p own added
    ∙ ap₂ ◌++◌ (taken_off p fn hs older) (without_newer p added newer)
