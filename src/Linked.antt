-- ===== src/Linked.antt =====
-- go/container/stack/stack.go and go/container/queue/queue.go: the linked lists that the programs
-- keep in global variables with a size. A chain of nodes is the list of its values, nil the empty
-- one; `Pop` is called with the global itself, as the programs do. `none` is a nil dereference.
pub mod Stack
pub mod Queue
mod Tests
use go_example.Prelude.{ℕ, List, [], ◌∷◌, Option, none, some}
use go_example.Prelude.Int.{ℤ}

-- The two global variables.
pub record Global : Type 0 where
  pub size : ℕ
  pub nodes : List ℤ

-- `t.Value`
unfoldable pub value : List ℤ → Option ℤ
value [] = none
value (v ∷ t) = some v

pub data Call : Type 0 where
  push_call : ℤ → Call
  pop_call : Call
