-- ===== src/Ring/Tests.antt =====
-- Runs of a ring of go/range/buffer.go on concrete data, and the witnesses of its theorems.
use go_example.Prelude.{
  ℕ, min, ◌≡◌, refl, none, some, List, [], ◌∷◌, ◌++◌, arith, length, drop, replicate,
}
use go_example.Ring.{
  Ring, len, is_full, grown_size, grown_elements, new, grow, put, push, peek, drop_head, pop,
  clear_from, clear, discard_rounds, discard,
}
use go_example.Ring.Contents.{IsValid, contents, span}
use go_example.Ring.Queue.{push_lem}
use go_example.Ring.Drain.{dequeue, pop_lem, discard_lem}
use go_example.Ring.Run.{
  Op, push_op, pop_op, peek_op, clear_op, discard_op, done, value, count, queue_run, run, step,
  run_refines, run-new,
}

program : Unit {0}
unfolding len is_full grown_size grown_elements new grow put push peek drop_head pop clear_from
    clear discard_rounds discard step run span queue_run
program = tt

-- Three elements from index 6 on, round the end of 8 slots.
abbrev wrapped : Ring ℕ
wrapped = record { head = 6; tail = 1; elements = 3 ∷ 0 ∷ 0 ∷ 0 ∷ 0 ∷ 0 ∷ 1 ∷ 2 ∷ [] }

-- Seven elements in 8 slots: the next push grows the ring.
abbrev full : Ring ℕ
full = record { head = 2; tail = 1; elements = 7 ∷ 0 ∷ 1 ∷ 2 ∷ 3 ∷ 4 ∷ 5 ∷ 6 ∷ [] }

wrapped-IsValid : IsValid wrapped
wrapped-IsValid = omega arith

full-IsValid : IsValid full
full-IsValid = omega arith

contents-wrapped : contents wrapped ≡ 1 ∷ 2 ∷ 3 ∷ []
unfolding span
contents-wrapped = refl

abbrev script : List (Op ℕ)
script = push_op 8 ∷ pop_op ∷ discard_op 5 ∷ peek_op ∷ discard_op 9 ∷ pop_op ∷ clear_op ∷ []

push_grows :
    push 0 full 8
    ≡ some (record { head = 0; tail = 8; elements = 1 ∷ 2 ∷ 3 ∷ 4 ∷ 5 ∷ 6 ∷ 7 ∷ 8 ∷ replicate 8 0 })
unfolding program
push_grows = refl

run-script :
    run 0 script full
    ≡ some (done ∷ value (some 1) ∷ count 5 ∷ value (some 7) ∷ count 2 ∷ value none ∷ done ∷ [])
unfolding program
run-script = refl

push_lem_example :
    (r' : Ring ℕ) × (push 0 full 8 ≡ some r')
    × IsValid r'
    × (contents r' ≡ contents full ++ (8 ∷ []))
push_lem_example = push_lem 0 full 8 full-IsValid

pop_lem_example :
    (r' : Ring ℕ) × (pop 0 wrapped ≡ some ((dequeue (contents wrapped)).0, r'))
    × IsValid r'
    × (contents r' ≡ (dequeue (contents wrapped)).1)
pop_lem_example = pop_lem 0 wrapped wrapped-IsValid

discard_lem_example :
    (r' : Ring ℕ) × (discard 0 wrapped 2 ≡ some (min 2 (length (contents wrapped)), r'))
    × IsValid r'
    × (contents r' ≡ drop 2 (contents wrapped))
discard_lem_example = discard_lem 0 wrapped 2 wrapped-IsValid

run_refines_example : run 0 script full ≡ some (queue_run script (contents full))
run_refines_example = run_refines 0 script full full-IsValid

run-new_example : run 0 script (new 0 3) ≡ some (queue_run script [])
run-new_example = run-new 0 3 script
