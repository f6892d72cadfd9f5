-- ===== src/Ring/Run.antt =====
-- Whole runs of a ring of go/range/buffer.go against a FIFO queue.
use go_example.Prelude.{
  ℕ, min, ◌≡◌, refl, ◌∙◌, Option, some, List, [], ◌∷◌, ◌++◌, arith, dec_lt, ℕ_discrete, le→leb,
  lt→leb_false, length, drop, replicate, get_elem?_in, length-replicate, ◌>>=◌, ne→==_false,
  slice_empty,
}
use go_example.Ring.{Ring, peek, new, push, pop, clear, discard}
use go_example.Ring.Contents.{IsValid, span, span_straight, span-uncons, contents}
use go_example.Ring.Queue.{push_lem}
use go_example.Ring.Drain.{
  dequeue, len-pos, len-zero, contents-nil, pop_lem, clear_lem, discard_lem,
}

-- What a client can call, and what it sees of a call.
pub data Op {ℓ} (A : Type ℓ) : Type ℓ where
  push_op : A → Op A
  pop_op peek_op clear_op : Op A
  discard_op : ℕ → Op A

pub data Reply {ℓ} (A : Type ℓ) : Type ℓ where
  done : Reply A
  value : Option A → Reply A
  count : ℕ → Reply A

module _ {ℓ} {A : Type ℓ} where
  -- The calls on a queue, oldest element first.
  abbrev pub queue_step : Op A → List A → Reply A × List A
  queue_step (push_op x) q = (done, q ++ (x ∷ []))
  queue_step pop_op q = (value (dequeue q).0, (dequeue q).1)
  queue_step peek_op q = (value (dequeue q).0, q)
  queue_step clear_op q = (done, [])
  queue_step (discard_op n) q = (count (min n (length q)), drop n q)

  unfoldable pub queue_run : List (Op A) → List A → List (Reply A)
  queue_run [] q = []
  queue_run (o ∷ ops) q = (queue_step o q).0 ∷ queue_run ops (queue_step o q).1

  peek_lem : (r : Ring A) → IsValid r → peek r ≡ some (dequeue (contents r)).0
  unfolding peek
  peek_lem r v = elim (ℕ_discrete r.head r.tail) [
    | yes e ↦ rw (len-zero r e, contents-nil r e)
    | no ne ↦
        let (b, _) = get_elem?_in r.elements r.head v.head_in in
        let (x, at, cut) = span-uncons r.elements r.head r.tail b v.head_in v.tail_in ne in
        rw (ne→==_false _ _ (len-pos r v ne), at, cut)
  ]

module _ {ℓ} {A : Type ℓ} (blank : A) where
  unfoldable pub step : Op A → Ring A → Option (Reply A × Ring A)
  step (push_op x) r = do r' ← push blank r x; some (done, r')
  step pop_op r = do (v, r') ← pop blank r; some (value v, r')
  step peek_op r = do v ← peek r; some (value v, r)
  step clear_op r = do r' ← clear blank r; some (done, r')
  step (discard_op n) r = do (m, r') ← discard blank r n; some (count m, r')

  -- A client's calls in order; `none` is a panic.
  unfoldable pub run : List (Op A) → Ring A → Option (List (Reply A))
  run [] r = some []
  run (o ∷ ops) r = do (a, r') ← step o r; rest ← run ops r'; some (a ∷ rest)

  step_refines :
      (o : Op A) (r : Ring A)
      → IsValid r
      → (r' : Ring A) × (step o r ≡ some ((queue_step o (contents r)).0, r'))
        × IsValid r'
        × (contents r' ≡ (queue_step o (contents r)).1)
  unfolding step
  step_refines (push_op x) r v =
      let (r', e, v', same) = push_lem blank r x v in (r', rw e, v', same)
  step_refines pop_op r v = let (r', e, v', same) = pop_lem blank r v in (r', rw e, v', same)
  step_refines peek_op r v = (r, rw (peek_lem r v), v, refl)
  step_refines clear_op r v = let (r', e, v', same, _) = clear_lem blank r v in (r', rw e, v', same)
  step_refines (discard_op n) r v =
      let (r', e, v', same) = discard_lem blank r n v in (r', rw e, v', same)

  -- No sequence of calls on a valid ring panics, and none tells the ring from the queue of its
  -- contents, growth and wrap-around included.
  pub run_refines :
      (ops : List (Op A)) (r : Ring A) → IsValid r → run ops r ≡ some (queue_run ops (contents r))
  unfolding run queue_run
  run_refines [] r v = refl
  run_refines (o ∷ ops) r v =
      let (r', e, v', same) = step_refines o r v in rw (e, run_refines ops r' v', same)

  new-IsValid : (size : ℕ) → IsValid (new blank size) × (contents (new blank size) ≡ [])
  unfolding new
  new-IsValid size = elim (dec_lt 8 size) [
    | yes p ↦ rw (lt→leb_false size 8 p) (
      record {
        head_in = omega (arith, length-replicate size blank);
        tail_in = omega (arith, length-replicate size blank);
      },
      fresh (replicate size blank),
    )
    | no p ↦
        rw (le→leb size 8 (omega arith))
          (record { head_in = omega arith; tail_in = omega arith }, fresh (replicate 8 blank))
  ]
    where
      fresh : (es : List A) → span es 0 0 ≡ []
      fresh es = span_straight es 0 0 (omega arith) ∙ slice_empty es 0 0 (omega arith)

  -- The same of a ring that has just been built, whatever size is asked for.
  pub run-new : (size : ℕ) (ops : List (Op A)) → run ops (new blank size) ≡ some (queue_run ops [])
  run-new size ops = let (v, e) = new-IsValid size in run_refines ops (new blank size) v ∙ rw e
