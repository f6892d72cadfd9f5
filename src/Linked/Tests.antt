-- ===== src/Linked/Tests.antt =====
-- Runs of the linked stack and queue of go/container, and the witnesses of their theorems.
use go_example.Prelude.{true, false, some, List, [], ◌∷◌, ◌≡◌, refl}
use go_example.Prelude.Int.{pos}
use go_example.Linked.{Call, push_call, pop_call}
use go_example.Linked.Stack
use go_example.Linked.Queue

abbrev calls : List Call
calls =
    pop_call
    ∷ push_call (pos 5)
    ∷ push_call (pos 6)
    ∷ pop_call
    ∷ push_call (pos 7)
    ∷ pop_call
    ∷ pop_call
    ∷ pop_call
    ∷ []

stack_answers :
    Stack.list_run calls []
    ≡ (pos 0, false) ∷ (pos 6, true) ∷ (pos 7, true) ∷ (pos 5, true) ∷ (pos 0, false) ∷ []
unfolding Stack.list_run
stack_answers = refl

queue_answers :
    Queue.queue_run calls []
    ≡ (pos 0, false) ∷ (pos 5, true) ∷ (pos 6, true) ∷ (pos 7, true) ∷ (pos 0, false) ∷ []
unfolding Queue.queue_run
queue_answers = refl

run-queue_run_example : Queue.run calls (Queue.queueing []) ≡ some (Queue.queue_run calls [])
run-queue_run_example = Queue.run-queue_run calls []
