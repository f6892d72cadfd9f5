-- ===== src/Linked/Stack.antt =====
-- go/container/stack/stack.go against a list.
use go_example.Prelude.{
  ℕ, ◌+◌, ◌-◌, Bool, true, false, Option, none, some, List, [], ◌∷◌, ◌==◌, if◌then◌else◌, ◌≡◌, refl,
  ap, ◌∙◌, arith, length, ◌>>=◌,
}
use go_example.Prelude.Int.{ℤ, pos}
use go_example.Linked.{Global, value, Call, push_call, pop_call}

unfoldable pub next : List ℤ → Option (List ℤ)
next [] = none
next (v ∷ t) = some t

unfoldable pub push_on : ℤ → List ℤ → ℕ → Global
push_on v [] size = record { size = 1; nodes = v ∷ [] }
push_on v (x ∷ t) size = record { size = size + 1; nodes = v ∷ x ∷ t }

unfoldable pub push : ℤ → Global → Global
push v s = push_on v s.nodes s.size

unfoldable pub pop : List ℤ → Global → Option (Global × ℤ × Bool)
pop t s =
    if s.size == 0
    then some (s, pos 0, false)
    else if s.size == 1
    then (do v ← value t; some (record { size = 0; nodes = [] }, v, true))
    else (do
      rest ← next s.nodes
      v ← value t
      some (record { size = s.size - 1; nodes = rest }, v, true))

-- The answers of a sequence of calls, `Pop` with the stack itself.
unfoldable pub run : List Call → Global → Option (List (ℤ × Bool))
run [] s = some []
run (push_call v ∷ calls) s = run calls (push v s)
run (pop_call ∷ calls) s = do
  (s', v, ok) ← pop s.nodes s
  rest ← run calls s'
  some ((v, ok) ∷ rest)

-- The same on a list.
unfoldable pub list_run : List Call → List ℤ → List (ℤ × Bool)
list_run [] l = []
list_run (push_call v ∷ calls) l = list_run calls (v ∷ l)
list_run (pop_call ∷ calls) [] = (pos 0, false) ∷ list_run calls []
list_run (pop_call ∷ calls) (v ∷ l) = (v, true) ∷ list_run calls l

-- The globals for a list.
abbrev pub holding : List ℤ → Global
holding l = record { size = length l; nodes = l }

push-holding : (v : ℤ) (l : List ℤ) → push v (holding l) ≡ holding (v ∷ l)
unfolding push push_on
push-holding v [] = refl
push-holding v (x ∷ l) = ap (λ n. record { size = n; nodes = v ∷ x ∷ l }) (omega arith)

pop-holding : (v : ℤ) (l : List ℤ) → pop (v ∷ l) (holding (v ∷ l)) ≡ some (holding l, v, true)
unfolding pop value next
pop-holding v [] = refl
pop-holding v (x ∷ l) = ground arith

pop_empty : pop [] (holding []) ≡ some (holding [], pos 0, false)
unfolding pop
pop_empty = refl

-- From a stack with the size of its list on, no sequence of calls panics, and the answers are those
-- of a list to whose front `Push` adds and from whose front `Pop` takes.
run-list_run : (calls : List Call) (l : List ℤ) → run calls (holding l) ≡ some (list_run calls l)
unfolding run list_run
run-list_run [] l = refl
run-list_run (push_call v ∷ calls) l =
    ap (run calls) (push-holding v l) ∙ run-list_run calls (v ∷ l)
run-list_run (pop_call ∷ calls) [] = rw (pop_empty, run-list_run calls [])
run-list_run (pop_call ∷ calls) (v ∷ l) = rw (pop-holding v l, run-list_run calls l)
