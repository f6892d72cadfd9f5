-- ===== src/BytesQueue/Push.antt =====
-- `Push` of go/container/bytesqyeye/bytes_queue.go: the queue after growing, with room at its tail.
use go_example.Prelude.{
  ℕ, zero, ◌+◌, ◌-◌, ◌≤◌, ◌<◌, ◌≡◌, refl, sym, ◌∙◌, ◌≢◌, true, false, ◌&&◌, some, List, ◌++◌, arith,
  dec_lt, ℕ_discrete, ltb, leb, le→leb, lt→leb_false, ==_iff, length, replicate, length-replicate,
  slice, subslice_in, le→ltb_false, ne→==_false, copy, length-copy, length-copy_at,
}
use go_example.BytesQueue.{
  uvarint_of, BytesQueue, mark, write, fill_gap, unwrap_data, move_data, grown_capacity,
  allocate_additional_memory,
}
use go_example.BytesQueue.Varint.{length-uvarint_of-le_self}
use go_example.BytesQueue.Write.{HasRoom, written, write-some}

-- Every index is within the array, from 1 on.
pub record IsValid (q : BytesQueue) : Type 0 where
  pub allocated : q.capacity ≡ length q.array
  pub buffer : length q.header_buffer ≡ 5
  pub head_pos : 0 < q.head
  pub head_in : q.head ≤ q.capacity
  pub tail_pos : 0 < q.tail
  pub tail_in : q.tail ≤ q.capacity
  pub margin_pos : 0 < q.right_margin
  pub margin_in : q.right_margin ≤ q.capacity

pub grown_capacity_lem :
    (q : BytesQueue) (n : ℕ)
    → (leb q.max_capacity (q.capacity + n) && ltb 0 q.max_capacity) ≡ false
    → 0 < q.capacity
    → q.capacity + n ≤ grown_capacity q n
unfolding grown_capacity
grown_capacity_lem q n h p = ground arith

pub limit_facts : (m c : ℕ) → (leb m c && ltb 0 m) ≡ true → (m ≤ c) × (0 < m)
limit_facts m c h = ground arith

-- A queue as `mark` leaves it.
pub mark-IsValid :
    (bytes : List ℕ) (n : ℕ) (q : BytesQueue)
    → IsValid q
    → HasRoom n q
    → IsValid (mark (written bytes n q))
unfolding mark
mark-IsValid bytes n q v r = ground (
  arith,
  length-copy q.header_buffer (uvarint_of n),
  length-copy_at q.array q.tail (uvarint_of n ++ bytes),
)

-- A queue on which growth goes on, with what it must leave below the old capacity `c`.
record Moved (c : ℕ) (q q' : BytesQueue) : Type 0 where
  valid : IsValid q'
  capacity : q'.capacity ≡ q.capacity
  margin_low : q'.right_margin ≤ c
  count : q.count ≤ q'.count

mark_gap :
    (bytes : List ℕ) (n : ℕ) (q : BytesQueue)
    → q.tail + n ≡ q.head
    → (mark (written bytes n q)).right_margin ≡ q.right_margin
unfolding mark
mark_gap bytes n q e = rw (le→ltb_false q.head (q.tail + n) (omega arith))

pub mark_capacity :
    (bytes : List ℕ) (n : ℕ) (q : BytesQueue)
    → ((mark (written bytes n q)).capacity ≡ q.capacity)
      × ((mark (written bytes n q)).count ≡ q.count + 1)
unfolding mark
mark_capacity bytes n q = (refl, refl)

gap_room :
    (q : BytesQueue)
    → IsValid q
    → q.tail ≤ q.head
    → q.head < 34359738368
    → HasRoom (q.head - q.tail) q
gap_room q v h s = record { buffer = v.buffer; free = omega arith; small = omega arith }

fill_gap_same : (q : BytesQueue) → q.tail ≡ q.head → fill_gap q ≡ some q
unfolding fill_gap
fill_gap_same q e = rw ((==_iff q.tail q.head).1 e)

fill_gap_ne :
    (q : BytesQueue)
    → q.tail ≢ q.head
    → fill_gap q ≡ write (replicate (q.head - q.tail) 0) (q.head - q.tail) q
unfolding fill_gap
fill_gap_ne q e = rw (ne→==_false q.tail q.head e)

fill_gap_lem :
    (c : ℕ) (q : BytesQueue)
    → IsValid q
    → q.tail ≤ q.head
    → q.head < 34359738368
    → q.right_margin ≤ c
    → (q' : BytesQueue) × (fill_gap q ≡ some q') × Moved c q q'
fill_gap_lem c q v h small low = elim (ℕ_discrete q.tail q.head) [
  | yes e ↦ (
    q,
    fill_gap_same q e,
    record { valid = v; capacity = refl; margin_low = low; count = omega arith },
  )
  | no ne ↦
      let n = q.head - q.tail in
      let room = gap_room q v h small in
      let short = length-uvarint_of-le_self n (omega arith) (omega arith) in
      let bytes = slice (replicate n 0) 0 (n - length (uvarint_of n)) in
      let (same, more) = mark_capacity bytes n q in
      (
        mark (written bytes n q),
        fill_gap_ne q ne
            ∙ write-some (replicate n 0) n q room short (omega (arith, length-replicate n (zero))),
        record {
          valid = mark-IsValid bytes n q v room;
          capacity = same;
          margin_low = omega (arith, mark_gap bytes n q (omega arith));
          count = omega (arith, more);
        },
      )
]

-- The result of step 6, before the write: room above the old capacity.
record Unwrapped (c : ℕ) (q q' : BytesQueue) : Type 0 where
  valid : IsValid q'
  capacity : q'.capacity ≡ q.capacity
  tail_low : q'.tail ≤ c
  count : q.count ≤ q'.count

unwrap_data_lem :
    (c : ℕ) (q : BytesQueue)
    → IsValid q
    → q.head < 34359738368
    → q.right_margin ≤ c
    → q.tail ≤ c
    → (q' : BytesQueue) × (unwrap_data q ≡ some q') × Unwrapped c q q'
unfolding unwrap_data
unwrap_data_lem c q v small low tail_low = elim (dec_lt q.head q.tail) [
  | yes p ↦ (
    q,
    rw (lt→leb_false q.tail q.head p),
    record { valid = v; capacity = refl; tail_low = tail_low; count = omega arith },
  )
  | no p ↦
      let (f, run, m) = fill_gap_lem c q v (omega arith) small low in
      (
        record f { head = 1; tail = f.right_margin },
        rw (le→leb q.tail q.head (omega arith), run),
        record {
          valid = record {
            allocated = m.valid.allocated;
            buffer = m.valid.buffer;
            head_pos = omega arith;
            head_in = omega (arith, m.valid.margin_pos, m.valid.margin_in);
            tail_pos = m.valid.margin_pos;
            tail_in = m.valid.margin_in;
            margin_pos = m.valid.margin_pos;
            margin_in = m.valid.margin_in;
          };
          capacity = m.capacity;
          tail_low = m.margin_low;
          count = m.count;
        },
      )
]

move_data_lem :
    (q g : BytesQueue)
    → IsValid q
    → q.capacity < 34359738368
    → IsValid g
    → (g.head ≡ q.head)
      × (g.tail ≡ q.tail)
      × (g.right_margin ≡ q.right_margin)
      × (q.capacity ≤ g.capacity)
    → (q' : BytesQueue) × (move_data q.array g ≡ some q') × Unwrapped q.capacity g q'
unfolding move_data
move_data_lem q g v small w e = elim (ℕ_discrete g.right_margin 1) [
  | yes one ↦ (
    g,
    rw ((==_iff g.right_margin 1).1 one),
    record { valid = w; capacity = refl; tail_low = omega arith; count = omega arith },
  )
  | no ne ↦
      let part = slice q.array 0 g.right_margin in
      let moved : BytesQueue = record g { array = copy g.array part } in
      let valid : IsValid moved = record {
        allocated = w.allocated ∙ sym (length-copy g.array part);
        buffer = w.buffer;
        head_pos = w.head_pos;
        head_in = w.head_in;
        tail_pos = w.tail_pos;
        tail_in = w.tail_in;
        margin_pos = w.margin_pos;
        margin_in = w.margin_in;
      } in
      let (q', run, u) =
        unwrap_data_lem q.capacity moved valid (omega arith) (omega arith) (omega arith) in
      (
        q',
        rw
            (
              ne→==_false g.right_margin 1 ne,
              subslice_in q.array 0 g.right_margin (omega arith) (omega arith),
            )
            run,
        record { valid = u.valid; capacity = u.capacity; tail_low = u.tail_low; count = u.count },
      )
]

pub allocate_lem :
    (q : BytesQueue) (n : ℕ)
    → IsValid q
    → q.capacity < 34359738368
    → q.capacity + n ≤ grown_capacity q n
    → (q' : BytesQueue) × (allocate_additional_memory n q ≡ some q')
      × IsValid q'
      × (q'.tail + n ≤ length q'.array)
      × (q.count ≤ q'.count)
unfolding allocate_additional_memory
allocate_lem q n v small grown =
    let c = grown_capacity q n in
    let g : BytesQueue = record q { capacity = c; array = replicate c 0 } in
    let valid : IsValid g = record {
      allocated = sym (length-replicate c zero);
      buffer = v.buffer;
      head_pos = v.head_pos;
      head_in = omega (arith, v.head_in);
      tail_pos = v.tail_pos;
      tail_in = omega (arith, v.tail_in);
      margin_pos = v.margin_pos;
      margin_in = omega (arith, v.margin_in);
    } in
    let (q', run, u) = move_data_lem q g v small valid (refl, refl, refl, omega arith) in
    (
      record q' { full = false },
      rw run,
      record {
        allocated = u.valid.allocated;
        buffer = u.valid.buffer;
        head_pos = u.valid.head_pos;
        head_in = u.valid.head_in;
        tail_pos = u.valid.tail_pos;
        tail_in = u.valid.tail_in;
        margin_pos = u.valid.margin_pos;
        margin_in = u.valid.margin_in;
      },
      omega (arith, u.tail_low, u.valid.allocated, u.capacity),
      u.count,
    )
