-- ===== src/BytesQueue/Write.antt =====
-- What the method `push` of go/container/bytesqyeye/bytes_queue.go writes, and reading it back.
use go_example.Prelude.{
  ℕ, ◌+◌, ◌-◌, ◌≤◌, ◌<◌, min, ◌≡◌, ap, ap₂, ◌∙◌, ◌≢◌, none, some, List, ◌∷◌, ◌++◌, append_assoc,
  arith, le→leb, lt→leb_false, length, length-append, take, drop, length-drop, slice, subslice,
  subslice_in, ne→==_false, copy, copy_at, length-slice, length-copy, length-copy_at, slice-copy,
  slice_all, slice-drop, drop-drop, drop-append, take-append, drop-copy_at, copy_at-copy_at,
}
use go_example.BytesQueue.{
  get_needed_size, uvarint_of, BytesQueue, ok, copy_in, put_header, mark, write, check_get,
  read_block, peek_at, get,
}
use go_example.BytesQueue.Varint.{
  max_entry, uvarint-uvarint_of, length-uvarint_of-le, get_needed_size-uvarint,
  get_needed_size_bounds,
}

-- The queue has the header buffer of `NewBytesQueue` and `n` free bytes at its tail.
pub record HasRoom (n : ℕ) (q : BytesQueue) : Type 0 where
  pub buffer : length q.header_buffer ≡ 5
  pub free : q.tail + n ≤ length q.array
  pub small : n < 34359738368

put_header_lem :
    (n : ℕ) (q : BytesQueue)
    → HasRoom n q
    → put_header n q ≡ some (record q { header_buffer = copy q.header_buffer (uvarint_of n) })
unfolding put_header
put_header_lem n q r = rw (
    le→leb (length (uvarint_of n)) (length q.header_buffer)
      (omega (arith, length-uvarint_of-le n r.small)))

copy_in_lem :
    (bytes : List ℕ) (len : ℕ) (q : BytesQueue)
    → len ≤ length bytes
    → q.tail + len ≤ length q.array
    → copy_in bytes len q
      ≡ some (record q { array = copy_at q.array q.tail (slice bytes 0 len); tail = q.tail + len })
unfolding copy_in
copy_in_lem bytes len q h k =
    let e : min (length q.array - q.tail) (len - 0) ≡ len = omega arith in
    rw (
      subslice_in bytes 0 len (omega arith) h,
      subslice_in q.array q.tail (length q.array) (omega arith) (omega arith),
      length-slice q.array q.tail (length q.array) (omega arith) (omega arith),
      length-slice bytes 0 len (omega arith) h,
      e,
    )

-- The queue after the two copies.
abbrev pub written : List ℕ → ℕ → BytesQueue → BytesQueue
written bytes n q = record q {
  header_buffer = copy q.header_buffer (uvarint_of n);
  array = copy_at q.array q.tail (uvarint_of n ++ bytes);
  tail = q.tail + n;
}

module _ (bytes : List ℕ) (n : ℕ) (q : BytesQueue) where
  abbrev with_buffer : BytesQueue
  with_buffer = record q { header_buffer = copy q.header_buffer (uvarint_of n) }

  abbrev with_header : BytesQueue
  with_header = record with_buffer {
    array = copy_at q.array q.tail (uvarint_of n);
    tail = q.tail + length (uvarint_of n);
  }

  header_step :
      HasRoom n q
      → length (uvarint_of n) ≤ n
      → copy_in with_buffer.header_buffer (length (uvarint_of n)) with_buffer ≡ some with_header
  header_step r h =
      let short = length-uvarint_of-le n r.small in
      copy_in_lem with_buffer.header_buffer (length (uvarint_of n)) with_buffer
        (omega (arith, length-copy q.header_buffer (uvarint_of n), r.buffer))
        (omega (arith, r.free))
      ∙ ap
          (λ p. some (record with_buffer {
            array = copy_at q.array q.tail p;
            tail = q.tail + length (uvarint_of n);
          }))
          (slice-copy q.header_buffer (uvarint_of n) (omega (arith, r.buffer)))

  abbrev body : List ℕ
  body = slice bytes 0 (n - length (uvarint_of n))

  bytes_step :
      HasRoom n q
      → length (uvarint_of n) ≤ n
      → n - length (uvarint_of n) ≤ length bytes
      → copy_in bytes (n - length (uvarint_of n)) with_header ≡ some (written body n q)
  bytes_step r h k =
      copy_in_lem bytes (n - length (uvarint_of n)) with_header k
        (omega (arith, length-copy_at q.array q.tail (uvarint_of n), r.free))
      ∙ ap₂ (λ a t. some (record with_buffer { array = a; tail = t }))
          (copy_at-copy_at q.array q.tail (uvarint_of n) body) (omega arith)

  -- With room for `n` bytes, the header and as many bytes as make up `n` are written behind one
  -- another at the tail.
  pub write-some :
      HasRoom n q
      → length (uvarint_of n) ≤ n
      → n - length (uvarint_of n) ≤ length bytes
      → write bytes n q ≡ some (mark (written body n q))
  unfolding write
  write-some r h k = rw (put_header_lem n q r, header_step r h, bytes_step r h k)

  -- The same where the header and all the bytes make up `n`.
  pub write_lem :
      HasRoom n q
      → n ≡ length (uvarint_of n) + length bytes
      → write bytes n q ≡ some (mark (written bytes n q))
  write_lem r e =
      let m : n - length (uvarint_of n) ≡ length bytes = omega arith in
      write-some r (omega arith) (omega arith)
      ∙ ap (λ b. some (mark (written b n q))) (ap (slice bytes 0) m ∙ slice_all bytes)

-- The entry stands at index `i` of the array, behind its header, with `rest` behind it.
abbrev pub StandsAt : List ℕ → List ℕ → ℕ → List ℕ → Type 0
StandsAt entry rest i array =
    drop i array ≡ uvarint_of (get_needed_size (length entry)) ++ (entry ++ rest)

length-drop_some : (xs : List ℕ) (i : ℕ) (y : ℕ) (ys : List ℕ) → drop i xs ≡ y ∷ ys → i < length xs
length-drop_some xs i y ys e = omega (arith, ap length e, length-drop i xs)

module _ (entry rest : List ℕ) (q : BytesQueue) (i : ℕ) where
  check_get_lem : 0 < i → i < length q.array → q.count ≢ 0 → check_get q i ≡ none
  unfolding check_get
  check_get_lem p h c =
      rw (ne→==_false q.count 0 c, ne→==_false i 0 (omega arith), lt→leb_false (length q.array) i h)

  -- `peek` of an index where an entry stands returns the entry and its size with the header.
  pub peek_at_lem :
      length entry < max_entry
      → 0 < i
      → i + get_needed_size (length entry) ≤ length q.array
      → q.count ≢ 0
      → StandsAt entry rest i q.array
      → peek_at q i ≡ some (ok (entry, get_needed_size (length entry)))
  unfolding peek_at read_block
  peek_at_lem small pos_i free c at =
      let n = get_needed_size (length entry) in
      let h = uvarint_of n in
      let size = get_needed_size-uvarint (length entry) small in
      let (more, bound) = get_needed_size_bounds (length entry) small in
      rw (
        check_get_lem pos_i (omega arith) c,
        peek_at,
        at,
        uvarint-uvarint_of n (entry ++ rest) bound,
        block size,
      )
    where
      block :
          get_needed_size (length entry)
            ≡ length (uvarint_of (get_needed_size (length entry))) + length entry
          → subslice q.array
              (i + length (uvarint_of (get_needed_size (length entry))))
              (i + get_needed_size (length entry))
            ≡ some entry
      block size =
          let n = get_needed_size (length entry) in
          let h = uvarint_of n in
          let m : i + n - (i + length h) ≡ length entry = omega arith in
          subslice_in q.array (i + length h) (i + n) (omega arith) free
          ∙ ap some (
              slice-drop q.array (i + length h) (i + n)
              ∙ ap₂ take m (
                  drop-drop q.array i (length h)
                  ∙ ap (drop (length h)) at
                  ∙ drop-append h (entry ++ rest))
              ∙ take-append entry rest)

-- An entry that has been written is read back from its index.
pub get_written :
    (entry : List ℕ) (q r : BytesQueue) (i : ℕ)
    → length entry < max_entry
    → i + get_needed_size (length entry) ≤ length q.array
    → 0 < i
    → r.array ≡ copy_at q.array i (uvarint_of (get_needed_size (length entry)) ++ entry)
    → r.count ≢ 0
    → get r i ≡ some (ok entry)
unfolding get
get_written entry q r i small free pos_i e c =
    let n = get_needed_size (length entry) in
    let h = uvarint_of n in
    let size = get_needed_size-uvarint (length entry) small in
    let len = length-append h entry in
    let at : StandsAt entry (drop (i + length (h ++ entry)) q.array) i r.array =
      ap (drop i) e ∙ drop-copy_at q.array i (h ++ entry) (omega arith) ∙ append_assoc h entry _ in
    rw (
      peek_at_lem entry _ r i small pos_i
        (omega (arith, ap length e, length-copy_at q.array i (h ++ entry))) c at)
