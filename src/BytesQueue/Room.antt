-- ===== src/BytesQueue/Room.antt =====
-- `Push` of go/container/bytesqyeye/bytes_queue.go before the write: where there is room for an entry.
use go_example.Prelude.{
  ℕ, ◌+◌, ◌≤◌, ◌<◌, ◌≡◌, refl, ◌⊎◌, inl, inr, true, false, ◌&&◌, some, arith, ltb, leb, Bool-cases,
  length,
}
use go_example.BytesQueue.{
  BytesQueue, ok, err, full_queue, can_insert_after_tail, can_insert_before_head, make_room,
}
use go_example.BytesQueue.Push.{IsValid, grown_capacity_lem, limit_facts, allocate_lem}

-- `n` bytes from an index on fill the gap up to another, or leave 17 bytes of it for a further entry.
abbrev pub Gap : ℕ → ℕ → ℕ → Type 0
Gap from n to = (from + n ≡ to) ⊎ (from + n + 17 ≤ to)

-- The queue has `n` free bytes in a row: it is not full, and they are behind the tail or before the
-- head, or, where the entries wrap, between the two.
abbrev pub Fits : ℕ → BytesQueue → Type 0
Fits n q =
    (q.full ≡ false)
    × (((q.head ≤ q.tail) × ((q.tail + n ≤ q.capacity) ⊎ Gap 1 n q.head))
        ⊎ ((q.tail < q.head) × Gap q.tail n q.head))

-- A byte that belongs to an entry of a queue that is not full.
abbrev pub IsLive : BytesQueue → ℕ → Type 0
IsLive q i =
    ((q.head ≤ q.tail) × (q.head ≤ i) × (i < q.tail))
    ⊎ ((q.tail < q.head) × ((q.head ≤ i) ⊎ (i < q.tail)))

-- The maximum capacity, if there is one, forbids to grow for `n` bytes.
abbrev pub AtLimit : ℕ → BytesQueue → Type 0
AtLimit n q = (0 < q.max_capacity) × (q.max_capacity ≤ q.capacity + n)

after_tail-Fits : (q : BytesQueue) (n : ℕ) → can_insert_after_tail q n ≡ true → Fits n q
unfolding can_insert_after_tail
after_tail-Fits q n h = ground arith

before_head-Fits : (q : BytesQueue) (n : ℕ) → can_insert_before_head q n ≡ true → Fits n q
unfolding can_insert_before_head
before_head-Fits q n h = ground arith

no_room-Fits :
    (q : BytesQueue) (n : ℕ)
    → can_insert_after_tail q n ≡ false
    → can_insert_before_head q n ≡ false
    → ¬ Fits n q
unfolding can_insert_after_tail can_insert_before_head
no_room-Fits q n h k f = ground arith

after_tail_room :
    (q : BytesQueue) (n : ℕ)
    → can_insert_after_tail q n ≡ true
    → IsValid q
    → q.tail + n ≤ length q.array
unfolding can_insert_after_tail
after_tail_room q n h v = ground arith

before_head_room :
    (q : BytesQueue) (n : ℕ)
    → can_insert_before_head q n ≡ true
    → IsValid q
    → 1 + n ≤ length q.array
unfolding can_insert_before_head
before_head_room q n h v = ground arith

-- An index is not among `n` bytes from another on.
abbrev pub Apart : ℕ → ℕ → ℕ → Type 0
Apart n from i = (i < from) ⊎ (from + n ≤ i)

after_tail_apart :
    (q : BytesQueue) (n i : ℕ) → can_insert_after_tail q n ≡ true → IsLive q i → Apart n q.tail i
unfolding can_insert_after_tail
after_tail_apart q n i h l = ground arith

before_head_apart :
    (q : BytesQueue) (n i : ℕ)
    → 0 < q.head
    → can_insert_after_tail q n ≡ false
    → can_insert_before_head q n ≡ true
    → IsLive q i
    → Apart n 1 i
unfolding can_insert_after_tail can_insert_before_head
before_head_apart q n i p h k l = ground arith

-- The queue `r` with room at its tail: where the queue has it without growing, it is not at the cost of
-- a live byte.
pub record HasTail (n : ℕ) (q r : BytesQueue) : Type 0 where
  pub valid : IsValid r
  pub room : r.tail + n ≤ length r.array
  pub count : q.count ≤ r.count
  pub allowed : Fits n q ⊎ ¬ AtLimit n q
  pub kept : Fits n q → (r.array ≡ q.array) × ((i : ℕ) → IsLive q i → Apart n r.tail i)

-- Either the queue is refused, or there is room at the tail.
pub make_room_lem :
    (q : BytesQueue) (n : ℕ)
    → IsValid q
    → 0 < q.capacity
    → q.capacity < 34359738368
    → ((make_room n q ≡ some (err full_queue)) × (¬ Fits n q) × AtLimit n q)
      ⊎ ((q' : BytesQueue) × (make_room n q ≡ some (ok q')) × HasTail n q q')
unfolding make_room
make_room_lem q n v pos_c small = elim (Bool-cases (can_insert_after_tail q n)) [
  | inl a ↦ inr (
    q,
    rw a,
    record {
      valid = v;
      room = after_tail_room q n a v;
      count = omega arith;
      allowed = inl (after_tail-Fits q n a);
      kept = λ _. (refl, λ i. after_tail_apart q n i a);
    },
  )
  | inr a ↦ elim (Bool-cases (can_insert_before_head q n)) [
    | inl b ↦ inr (
      record q { tail = 1 },
      rw (a, b),
      record {
        valid = record {
          allocated = v.allocated;
          buffer = v.buffer;
          head_pos = v.head_pos;
          head_in = v.head_in;
          tail_pos = omega arith;
          tail_in = pos_c;
          margin_pos = v.margin_pos;
          margin_in = v.margin_in;
        };
        room = before_head_room q n b v;
        count = omega arith;
        allowed = inl (before_head-Fits q n b);
        kept = λ _. (refl, λ i. before_head_apart q n i v.head_pos a b);
      },
    )
    | inr b ↦
        let none_fits = no_room-Fits q n a b in
        elim (Bool-cases (leb q.max_capacity (q.capacity + n) && ltb 0 q.max_capacity)) [
          | inl f ↦
              let (at, lim) = limit_facts q.max_capacity (q.capacity + n) f in
              inl (rw (a, b, f), none_fits, (lim, at))
          | inr f ↦
              let (q', run, w, room, more) =
                allocate_lem q n v small (grown_capacity_lem q n f pos_c) in
              inr (
                q',
                rw (a, b, f, run),
                record {
                  valid = w;
                  room = room;
                  count = more;
                  allowed = inr (limit_not q.max_capacity (q.capacity + n) f);
                  kept = λ h. absurd (none_fits h);
                },
              )
        ]
  ]
]
  where
    limit_not : (m c : ℕ) → (leb m c && ltb 0 m) ≡ false → ¬ ((0 < m) × (m ≤ c))
    limit_not m c f l = ground arith
