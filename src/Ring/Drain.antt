-- ===== src/Ring/Drain.antt =====
-- A ring of go/range/buffer.go refines a FIFO queue: `Pop`, `Clear` and `Discard`.
use go_example.Prelude.{
  ℕ, zero, suc, ◌+◌, ◌-◌, ◌%◌, ◌≤◌, min, ◌≡◌, refl, sym, ap, ◌∙◌, ◌≢◌, Option, none, some, List, [],
  ◌∷◌, arith, dec_lt, ℕ_discrete, le→leb, lt→leb_false, ==_iff, length, set, length-set, drop,
  drop_all, store_in, ne→==_false, slice_empty,
}
use go_example.Ring.{Ring, len, drop_head, pop, clear_from, clear, discard_rounds, discard}
use go_example.Ring.Contents.{IsValid, span_straight, span-uncons, contents, length-contents}

-- The queue without its oldest element, and that element.
abbrev pub dequeue {ℓ} : {A : Type ℓ} → List A → Option A × List A
dequeue [] = (none, [])
dequeue (x ∷ xs) = (some x, xs)

module _ {ℓ} {A : Type ℓ} where
  pub len-pos : (r : Ring A) → IsValid r → r.head ≢ r.tail → len r ≢ 0
  unfolding len
  len-pos r v ne = ground arith

  pub len-zero : (r : Ring A) → r.head ≡ r.tail → len r ≡ 0
  unfolding len
  len-zero r e = ground arith

  pub contents-nil : (r : Ring A) → r.head ≡ r.tail → contents r ≡ []
  contents-nil r e =
      span_straight r.elements r.head r.tail (omega arith)
      ∙ slice_empty r.elements r.head r.tail (omega arith)

module _ {ℓ} {A : Type ℓ} (blank : A) where
  after_drop : Ring A → Ring A
  after_drop r = record {
    head = (r.head + 1) % length r.elements;
    tail = r.tail;
    elements = set r.elements r.head blank;
  }

  drop_head_lem : (r : Ring A) → IsValid r → drop_head blank r ≡ some (after_drop r)
  unfolding drop_head after_drop
  drop_head_lem r v = ground (arith, length-set r.elements r.head blank)

  after_drop-IsValid : (r : Ring A) → IsValid r → IsValid (after_drop r)
  unfolding after_drop
  after_drop-IsValid r v = ground (arith, length-set r.elements r.head blank)

  -- `Pop` never panics on a valid ring, keeps it valid, and takes the oldest element, if any.
  pub pop_lem :
      (r : Ring A)
      → IsValid r
      → (r' : Ring A) × (pop blank r ≡ some ((dequeue (contents r)).0, r'))
        × IsValid r'
        × (contents r' ≡ (dequeue (contents r)).1)
  unfolding pop
  pop_lem r v = elim (ℕ_discrete r.head r.tail) [
    | yes e ↦ (r, rw (len-zero r e, contents-nil r e), v, rw (contents-nil r e))
    | no ne ↦
        let (x, at, cut) = span-uncons r.elements r.head r.tail blank v.head_in v.tail_in ne in
        (
          after_drop r,
          rw (ne→==_false _ _ (len-pos r v ne), at, drop_head_lem r v, cut),
          after_drop-IsValid r v,
          unfold after_drop in rw cut,
        )
  ]

  clear_from_lem :
      (n i : ℕ) (es : List A)
      → i + n ≤ length es
      → (es' : List A) × (clear_from blank n i es ≡ some es') × (length es' ≡ length es)
  unfolding clear_from
  clear_from_lem zero i es h = (es, refl, refl)
  clear_from_lem (suc n) i es h =
      let (es', e, l) =
        clear_from_lem n (i + 1) (set es i blank) (omega (arith, length-set es i blank)) in
      (es', rw (store_in es i blank (omega arith), e), l ∙ length-set es i blank)

  -- `Clear` never panics on a valid ring, keeps it valid and its capacity, and empties it.
  pub clear_lem :
      (r : Ring A)
      → IsValid r
      → (r' : Ring A) × (clear blank r ≡ some r')
        × IsValid r'
        × (contents r' ≡ [])
        × (length r'.elements ≡ length r.elements)
  unfolding clear
  clear_lem r v = elim (dec_lt r.tail r.head) [
    | no h ↦
        let (es, done, l) = clear_from_lem (r.tail - r.head) r.head r.elements (omega arith) in
        (
          cleared es,
          rw (le→leb r.head r.tail (omega arith), done),
          record { head_in = omega arith; tail_in = omega arith },
          contents-nil (cleared es) refl,
          l,
        )
    | yes h ↦
        let (es, done, l) =
          clear_from_lem (length r.elements - r.head) r.head r.elements (omega arith) in
        let (es', done', l') = clear_from_lem r.tail 0 es (omega arith) in
        (
          cleared es',
          rw (lt→leb_false r.head r.tail h, done, done'),
          record { head_in = omega arith; tail_in = omega arith },
          contents-nil (cleared es') refl,
          l' ∙ l,
        )
  ]
    where
      cleared : List A → Ring A
      cleared es = record { head = 0; tail = 0; elements = es }

  discard_rounds_lem :
      (n : ℕ) (r : Ring A)
      → IsValid r
      → n ≤ length (contents r)
      → (r' : Ring A) × (discard_rounds blank n r ≡ some r')
        × IsValid r'
        × (contents r' ≡ drop n (contents r))
  unfolding discard_rounds
  discard_rounds_lem zero r v h = (r, refl, v, refl)
  discard_rounds_lem (suc n) r v h = elim (ℕ_discrete r.head r.tail) [
    | yes e ↦ absurd (omega (arith, length-contents r v, len-zero r e))
    | no ne ↦
        let (x, at, cut) = span-uncons r.elements r.head r.tail blank v.head_in v.tail_in ne in
        let cut' : contents r ≡ x ∷ contents (after_drop r) = unfold after_drop in cut in
        let (r', done, v', same) =
          discard_rounds_lem n (after_drop r) (after_drop-IsValid r v)
            (omega (arith, ap (length {A = A}) cut')) in
        (r', rw (drop_head_lem r v, done), v', same ∙ rw cut')
  ]

  discard_of_rounds :
      (r r' : Ring A) (n : ℕ)
      → min n (len r) ≢ len r
      → discard_rounds blank (min n (len r)) r ≡ some r'
      → discard blank r n ≡ some (min n (len r), r')
  unfolding discard
  discard_of_rounds r r' n ne done = rw (ne→==_false _ _ ne, done)

  -- `Discard` never panics on a valid ring, keeps it valid, and drops the `n` oldest elements, or
  -- all of them if there are fewer; it returns the number of those dropped.
  pub discard_lem :
      (r : Ring A) (n : ℕ)
      → IsValid r
      → (r' : Ring A) × (discard blank r n ≡ some (min n (length (contents r)), r'))
        × IsValid r'
        × (contents r' ≡ drop n (contents r))
  unfolding discard
  discard_lem r n v = elim (ℕ_discrete (min n (len r)) (len r)) [
    | yes all ↦
        let (r', done, v', empty, _) = clear_lem r v in
        (
          r',
          rw (length-contents r v, (==_iff _ _).1 all, done),
          v',
          empty ∙ sym (drop_all n (contents r) (omega (arith, length-contents r v))),
        )
    | no some_left ↦
        let m = length-contents r v in
        let e : min n (len r) ≡ n = omega arith in
        let (r', done, v', same) = discard_rounds_lem n r v (omega arith) in
        let done' : discard_rounds blank (min n (len r)) r ≡ some r' =
          ap (λ k. discard_rounds blank k r) e ∙ done in
        (
          r',
          discard_of_rounds r r' n some_left done' ∙ ap (λ k. some (min n k, r')) (sym m),
          v',
          same,
        )
  ]
