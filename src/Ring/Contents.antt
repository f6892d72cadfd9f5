-- ===== src/Ring/Contents.antt =====
-- The queue that a ring of go/range/buffer.go holds, and the validity of its indices.
use go_example.Prelude.{
  ℕ, suc, ◌+◌, ◌-◌, ◌%◌, ◌≤◌, ◌<◌, ◌≡◌, ◌≢◌, ap, ap₂, sym, ◌∙◌, some, List, [], ◌∷◌, ◌++◌,
  append-nil, append_assoc, arith, leb, if◌then◌else◌, length, length-append, length-set, get_elem?,
  set, slice, length-slice, slice_empty, slice-set_below, slice-set_above, slice-set_end,
  slice-uncons, mod_last, mod_next, le→leb, lt→leb_false,
}
use native.Mathlib.Nat.{mod-eq_of_lt}
use native.Mathlib.Numerals.{add-one}
use native.Mathlib.Decide.{dec_le, dec_lt}
use go_example.Ring.{Ring, len, put}

pub record IsValid {ℓ} {A : Type ℓ} (r : Ring A) : Type 0 where
  pub head_in : r.head < length r.elements
  pub tail_in : r.tail < length r.elements

-- The indices from `h` up to `t`, going round at the end of the slice.
unfoldable pub span {ℓ} : {A : Type ℓ} → List A → ℕ → ℕ → List A
span es h t = if leb h t then slice es h t else slice es h (length es) ++ slice es 0 t

module _ {ℓ} {A : Type ℓ} where
  pub span_straight : (es : List A) (h t : ℕ) → h ≤ t → span es h t ≡ slice es h t
  unfolding span
  span_straight es h t p = rw (le→leb h t p)

  pub span_wrapped :
      (es : List A) (h t : ℕ) → t < h → span es h t ≡ slice es h (length es) ++ slice es 0 t
  unfolding span
  span_wrapped es h t p = rw (lt→leb_false h t p)

  -- A write at the tail, and the tail moves on.
  span-set_next :
      (es : List A) (h t : ℕ) (v : A)
      → h < length es
      → t + 1 < length es
      → t + 1 ≢ h
      → span (set es t v) h (t + 1) ≡ span es h t ++ (v ∷ [])
  span-set_next es h t v hh ht ne = elim (dec_le h t) [
    | yes p ↦
        rw (add-one, span_straight es h t p)
          (span_straight (set es t v) h (suc t) (omega arith)
            ∙ slice-set_end es h t v p (omega arith))
    | no p ↦
        rw (add-one, span_wrapped es h t (omega arith), append_assoc)
          (span_wrapped (set es t v) h (suc t) (omega arith)
            ∙ ap₂ ◌++◌ (rw (length-set es t v) (slice-set_below es h (length es) t v (omega arith)))
                (slice-set_end es 0 t v (omega arith) (omega arith)))
  ]

  -- The same at the last index, from which the tail goes back to 0.
  span-set_last :
      (es : List A) (h t : ℕ) (v : A)
      → h < length es
      → suc t ≡ length es
      → 0 < h
      → span (set es t v) h 0 ≡ span es h t ++ (v ∷ [])
  span-set_last es h t v hh ht pos = rw (span_straight es h t (omega arith)) (
      span_wrapped (set es t v) h 0 pos
      ∙ rw (slice_empty (set es t v) 0 0 (omega arith), append-nil, length-set es t v, ← ht)
          (slice-set_end es h t v (omega arith) (omega arith)))

  -- The head moves on.
  pub span-uncons :
      (es : List A) (h t : ℕ) (b : A)
      → h < length es
      → t < length es
      → h ≢ t
      → (x : A) × (get_elem? es h ≡ some x)
        × (span es h t ≡ x ∷ span (set es h b) ((h + 1) % length es) t)
  span-uncons es h t b hh ht ne = elim (dec_lt h t) [
    | yes p ↦
        let (x, at, cut) = slice-uncons es h t p (omega arith) in
        let e : (h + 1) % length es ≡ suc h = mod_next h (length es) (omega arith) in
        (
          x,
          at,
          rw (e, span_straight es h t (omega arith), cut)
              (ap (◌∷◌ x) (
                sym (
                  span_straight (set es h b) (suc h) t p
                  ∙ slice-set_below es (suc h) t h b (omega arith)))),
        )
    | no p ↦
        let (x, at, cut) = slice-uncons es h (length es) hh (omega arith) in
        let rest : slice (set es h b) 0 t ≡ slice es 0 t =
          slice-set_above es 0 t h b (omega arith) in
        (
          x,
          at,
          rw (span_wrapped es h t (omega arith), cut)
              (ap (◌∷◌ x) (elim (dec_lt (suc h) (length es)) [
                | yes q ↦ rw (
                  mod_next h (length es) q,
                  span_wrapped (set es h b) (suc h) t (omega arith),
                  rest,
                  length-set es h b,
                  slice-set_below es (suc h) (length es) h b (omega arith),
                )
                | no q ↦ rw (
                  mod_last h (length es) (omega arith),
                  span_straight (set es h b) 0 t (omega arith),
                  rest,
                  slice_empty es (suc h) (length es) (omega arith),
                )
              ])),
        )
  ]

  pub length-span :
      (es : List A) (h t : ℕ)
      → h < length es
      → t < length es
      → length (span es h t) ≡ (if leb h t then t - h else length es - h + t)
  length-span es h t hh ht = elim (dec_le h t) [
    | yes p ↦ rw (span_straight es h t p, le→leb h t p) (length-slice es h t p (omega arith))
    | no p ↦
        rw (span_wrapped es h t (omega arith), lt→leb_false h t (omega arith))
          (omega (
            arith,
            length-append (slice es h (length es)) (slice es 0 t),
            length-slice es h (length es) (omega arith) (omega arith),
            length-slice es 0 t (omega arith) (omega arith),
          ))
  ]

  -- Oldest first.
  abbrev pub contents : Ring A → List A
  contents r = span r.elements r.head r.tail

  pub length-contents : (r : Ring A) → IsValid r → length (contents r) ≡ len r
  unfolding len
  length-contents r v = length-span r.elements r.head r.tail v.head_in v.tail_in

  -- The ring after the two assignments of `Push`.
  abbrev pub after_put : A → Ring A → Ring A
  after_put v r = record {
    head = r.head;
    tail = (r.tail + 1) % length r.elements;
    elements = set r.elements r.tail v;
  }

  pub put_lem : (v : A) (r : Ring A) → IsValid r → put v r ≡ some (after_put v r)
  unfolding put
  put_lem v r h = ground (arith, length-set r.elements r.tail v)

  pub after_put-IsValid : (v : A) (r : Ring A) → IsValid r → IsValid (after_put v r)
  after_put-IsValid v r h = ground (arith, length-set r.elements r.tail v)

  pub contents-after_put :
      (v : A) (r : Ring A)
      → IsValid r
      → (r.tail + 1) % length r.elements ≢ r.head
      → contents (after_put v r) ≡ contents r ++ (v ∷ [])
  contents-after_put v r h room = elim (dec_lt (r.tail + 1) (length r.elements)) [
    | yes p ↦
        rw (mod-eq_of_lt p)
          (span-set_next r.elements r.head r.tail v h.head_in p (rw (mod-eq_of_lt p) at room))
    | no p ↦
        let e : (r.tail + 1) % length r.elements ≡ 0 =
          mod_last r.tail (length r.elements) (omega arith) in
        rw e (span-set_last r.elements r.head r.tail v h.head_in (omega arith) (omega arith))
  ]
