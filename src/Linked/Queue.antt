-- ===== src/Linked/Queue.antt =====
-- go/container/queue/queue.go against a queue.
use go_example.Prelude.{
  ℕ, ◌+◌, ◌-◌, ◌≤◌, Bool, true, false, Option, none, some, List, [], ◌∷◌, ◌++◌, ◌==◌, if◌then◌else◌,
  ◌≡◌, refl, sym, ap, ap₂, ◌∙◌, arith, length, length-append, ◌>>=◌,
}
use go_example.Prelude.Int.{ℤ, pos}
use go_example.Linked.{Global, value, Call, push_call, pop_call}

unfoldable pub push_on : ℤ → List ℤ → ℕ → Global
push_on v [] size = record { size = size + 1; nodes = v ∷ [] }
push_on v (x ∷ t) size = record { size = size + 1; nodes = v ∷ x ∷ t }

unfoldable pub push : ℤ → Global → Global
push v q = push_on v q.nodes q.size

-- The nodes before the last one, and the last value.
unfoldable pub split_last : ℤ → List ℤ → List ℤ × ℤ
split_last x [] = ([], x)
split_last x (y ∷ t) = let (l, v) = split_last y t in (x ∷ l, v)

-- The loop of `Pop` and the cut after it, which needs a node before the last one.
unfoldable pub cut : List ℤ → Option (List ℤ × ℤ)
cut [] = none
cut (x ∷ []) = none
cut (x ∷ y ∷ t) = some (split_last x (y ∷ t))

unfoldable pub pop : Global → Option (Global × ℤ × Bool)
pop q =
    if q.size == 0
    then some (q, pos 0, false)
    else if q.size == 1
    then (do v ← value q.nodes; some (record { size = q.size - 1; nodes = [] }, v, true))
    else (do (rest, v) ← cut q.nodes; some (record { size = q.size - 1; nodes = rest }, v, true))

-- The answers of a sequence of calls, `Push` and `Pop` with the queue itself.
unfoldable pub run : List Call → Global → Option (List (ℤ × Bool))
run [] q = some []
run (push_call v ∷ calls) q = run calls (push v q)
run (pop_call ∷ calls) q = do (q', v, ok) ← pop q; rest ← run calls q'; some ((v, ok) ∷ rest)

-- The same on a queue, with its oldest value in front.
unfoldable pub queue_run : List Call → List ℤ → List (ℤ × Bool)
queue_run [] c = []
queue_run (push_call v ∷ calls) c = queue_run calls (c ++ (v ∷ []))
queue_run (pop_call ∷ calls) [] = (pos 0, false) ∷ queue_run calls []
queue_run (pop_call ∷ calls) (v ∷ c) = (v, true) ∷ queue_run calls c

unfoldable pub rev : List ℤ → List ℤ
rev [] = []
rev (x ∷ c) = rev c ++ (x ∷ [])

-- The globals for a queue: the newest value is in the first node.
abbrev pub queueing : List ℤ → Global
queueing c = record { size = length c; nodes = rev c }

length-rev : (c : List ℤ) → length (rev c) ≡ length c
unfolding rev
length-rev [] = refl
length-rev (x ∷ c) = omega (arith, length-rev c, length-append (rev c) (x ∷ []))

rev-append : (c : List ℤ) (v : ℤ) → rev (c ++ (v ∷ [])) ≡ v ∷ rev c
unfolding rev
rev-append [] v = refl
rev-append (x ∷ c) v = ap (λ l. l ++ (x ∷ [])) (rev-append c v)

abbrev made : ℕ → List ℤ → Global
made n l = record { size = n; nodes = l }

push_lem :
    (v : ℤ) (size : ℕ) (l : List ℤ) → push_on v l size ≡ record { size = size + 1; nodes = v ∷ l }
unfolding push_on
push_lem v size [] = refl
push_lem v size (x ∷ l) = refl

push-queueing : (v : ℤ) (c : List ℤ) → push v (queueing c) ≡ queueing (c ++ (v ∷ []))
unfolding push
push-queueing v c =
    push_lem v (length c) (rev c)
    ∙ ap₂ made (omega (arith, length-append c (v ∷ []))) (sym (rev-append c v))

split_last-append : (x : ℤ) (l : List ℤ) (v : ℤ) → split_last x (l ++ (v ∷ [])) ≡ (x ∷ l, v)
unfolding split_last
split_last-append x [] v = refl
split_last-append x (y ∷ l) v = ap (λ p. let (m, w) = p in (x ∷ m, w)) (split_last-append y l v)

cut-append : (l : List ℤ) (v : ℤ) → 1 ≤ length l → cut (l ++ (v ∷ [])) ≡ some (l, v)
unfolding cut
cut-append [] v h = ground arith
cut-append (x ∷ []) v h = ap some (split_last-append x [] v)
cut-append (x ∷ y ∷ l) v h = ap some (split_last-append x (y ∷ l) v)

pop_empty : pop (queueing []) ≡ some (queueing [], pos 0, false)
unfolding pop rev
pop_empty = refl

pop-queueing : (v : ℤ) (c : List ℤ) → pop (queueing (v ∷ c)) ≡ some (queueing c, v, true)
unfolding pop rev value
pop-queueing v [] = refl
pop-queueing v (x ∷ c) =
    ground (arith, cut-append (rev (x ∷ c)) v (omega (arith, length-rev (x ∷ c))))

-- From a queue with the size of its list on, no sequence of calls panics, and the answers are those
-- of a queue: `Pop` takes what was pushed first.
pub run-queue_run :
    (calls : List Call) (c : List ℤ) → run calls (queueing c) ≡ some (queue_run calls c)
unfolding run queue_run
run-queue_run [] c = refl
run-queue_run (push_call v ∷ calls) c =
    ap (run calls) (push-queueing v c) ∙ run-queue_run calls (c ++ (v ∷ []))
run-queue_run (pop_call ∷ calls) [] = rw (pop_empty, run-queue_run calls [])
run-queue_run (pop_call ∷ calls) (v ∷ c) = rw (pop-queueing v c, run-queue_run calls c)
