-- ===== src/Ring/Queue.antt =====
-- A ring of go/range/buffer.go refines a FIFO queue: what `Push`, `grow`, `Pop`, `Discard` do to
-- its contents.
use go_example.Prelude.{
  ℕ, ◌+◌, ◌-◌, ◌%◌, ◌≤◌, ◌<◌, min, ◌≡◌, refl, ap, ◌∙◌, ◌≢◌, some, List, [], ◌∷◌, ◌++◌, arith,
  dec_lt, ℕ_discrete, lt→ltb, le→leb, lt→leb_false, ==_iff, length, replicate, length-replicate,
  rem_pos, mod_next, slice, subslice_in, le→ltb_false, ne→==_false, copy, copy_at, length-slice,
  slice_empty, length-copy, length-copy_at, slice-copy, slice-copy_at,
}
use go_example.Ring.{Ring, len, is_full, grown_size, grown_elements, grow, push}
use go_example.Ring.Contents.{
  IsValid, span_straight, span_wrapped, contents, after_put, put_lem, after_put-IsValid,
  contents-after_put,
}

grown_size-grows : (n : ℕ) → 0 < n → n < grown_size n
unfolding grown_size
grown_size-grows n h = ground arith

-- A ring that has just grown has a free slot.
grown_room : (t h n : ℕ) → h ≡ 0 → t + 1 < n → (t + 1) % n ≢ h
grown_room t h n e p q = absurd (omega (arith, mod_next t n (omega arith)))

len-lt {ℓ} : {A : Type ℓ} (r : Ring A) → IsValid r → len r < length r.elements
unfolding len
len-lt r v = ground arith

module _ {ℓ} {A : Type ℓ} (blank : A) where
  grown_elements_lem :
      (r : Ring A) (fresh : List A)
      → IsValid r
      → length r.elements ≤ length fresh
      → (es : List A) × (grown_elements blank r fresh ≡ some es)
        × (length es ≡ length fresh)
        × (slice es 0 (len r) ≡ contents r)
  unfolding grown_elements len
  grown_elements_lem r fresh v room = elim (dec_lt hd tl) [
    | yes p ↦
        let part = slice es hd tl in
        let n : length part ≡ tl - hd = length-slice es hd tl (omega arith) (omega arith) in
        (
          copy fresh part,
          rw (lt→ltb hd tl p, subslice_in es hd tl (omega arith) (omega arith)),
          length-copy fresh part,
          rw (le→leb hd tl (omega arith), span_straight es hd tl (omega arith), ← n)
              (slice-copy fresh part (omega arith)),
        )
    | no p ↦
        let first = slice es hd (length es) in
        let second = slice es 0 tl in
        let n : length first ≡ length es - hd =
          length-slice es hd (length es) (omega arith) (omega arith) in
        let m : length second ≡ tl - 0 = length-slice es 0 tl (omega arith) (omega arith) in
        let e : min (length fresh) (length first) ≡ length first = omega arith in
        (
          copy_at (copy fresh first) (length first) second,
          rw (
            le→ltb_false hd tl (omega arith),
            subslice_in es hd (length es) (omega arith) (omega arith),
            subslice_in es 0 tl (omega arith) (omega arith),
            e,
          ),
          length-copy_at (copy fresh first) (length first) second ∙ length-copy fresh first,
          elim (dec_lt tl hd) [
            | yes q ↦
                let k : length es - hd + tl ≡ length first + length second = omega arith in
                rw (lt→leb_false hd tl q, span_wrapped es hd tl q, k)
                  (slice-copy_at fresh first second (omega arith))
            | no q ↦
                rw
                  (
                    le→leb hd tl (omega arith),
                    span_straight es hd tl (omega arith),
                    slice_empty es hd tl (omega arith),
                  )
                  (slice_empty _ 0 (tl - hd) (omega arith))
          ],
        )
  ]
    where
      open r use {elements as es, head as hd, tail as tl}

  pub grow_lem :
      (r : Ring A)
      → IsValid r
      → (r' : Ring A) × (grow blank r ≡ some r')
        × IsValid r'
        × (contents r' ≡ contents r)
        × (length r'.elements ≡ grown_size (length r.elements))
        × (r'.head ≡ 0)
        × (r'.tail ≡ len r)
  unfolding grow
  grow_lem r v =
      let bigger = grown_size-grows (length r.elements) (omega arith) in
      let n = length-replicate (grown_size (length r.elements)) blank in
      let (es, copied, size, kept) =
        grown_elements_lem r (replicate (grown_size (length r.elements)) blank) v (omega arith) in
      let short : len r < length r.elements = len-lt r v in
      (
        record { head = 0; tail = len r; elements = es },
        rw copied,
        record { head_in = omega arith; tail_in = omega arith },
        span_straight es 0 (len r) (omega arith) ∙ kept,
        size ∙ n,
        refl,
        refl,
      )

  -- `Push` never panics on a valid ring, keeps it valid and appends the element, also where the
  -- ring is full and grows.
  pub push_lem :
      (r : Ring A) (x : A)
      → IsValid r
      → (r' : Ring A) × (push blank r x ≡ some r')
        × IsValid r'
        × (contents r' ≡ contents r ++ (x ∷ []))
  unfolding push is_full
  push_lem r x v = elim (ℕ_discrete ((r.tail + 1) % length r.elements) r.head) [
    | yes full ↦
        let (g, grown, valid, same, size, at, to) = grow_lem r v in
        let room : (g.tail + 1) % length g.elements ≢ g.head =
          grown_room g.tail g.head (length g.elements) at
            (omega (arith, len-lt r v, grown_size-grows (length r.elements))) in
        (
          after_put x g,
          rw (rem_pos (r.tail + 1) (length r.elements) (omega arith), (==_iff _ _).1 full, grown)
              (put_lem x g valid),
          after_put-IsValid x g valid,
          contents-after_put x g valid room ∙ ap (λ q. q ++ (x ∷ [])) same,
        )
    | no room ↦ (
      after_put x r,
      rw (rem_pos (r.tail + 1) (length r.elements) (omega arith), ne→==_false _ _ room)
          (put_lem x r v),
      after_put-IsValid x r v,
      contents-after_put x r v room,
    )
  ]
