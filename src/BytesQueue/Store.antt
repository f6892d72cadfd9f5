-- ===== src/BytesQueue/Store.antt =====
-- `Push` and then `Get` of go/container/bytesqyeye/bytes_queue.go.
use go_example.Prelude.{
  ℕ, zero, suc, ◌+◌, ◌≤◌, ◌<◌, ◌≡◌, refl, ap, ◌∙◌, ◌⊎◌, inl, inr, some, List, [], ◌∷◌, ◌++◌, arith,
  length, length-append, get_elem?, copy, copy_at,
}
use go_example.BytesQueue.{
  get_needed_size, uvarint_of, BytesQueue, ok, err, full_queue, mark, push_in, push, get,
}
use go_example.BytesQueue.Varint.{max_entry, get_needed_size-uvarint, get_needed_size_bounds}
use go_example.BytesQueue.Write.{HasRoom, written, write_lem, get_written}
use go_example.BytesQueue.Push.{IsValid, mark-IsValid, mark_capacity}
use go_example.BytesQueue.Room.{Fits, AtLimit, IsLive, Apart, HasTail, make_room_lem}

get_elem?-copy :
    (dst src : List ℕ) (i : ℕ) → length src ≤ i → get_elem? (copy dst src) i ≡ get_elem? dst i
get_elem?-copy [] src i h = refl
get_elem?-copy (d ∷ dst) [] i h = refl
get_elem?-copy (d ∷ dst) (s ∷ src) zero h = absurd (omega arith)
get_elem?-copy (d ∷ dst) (s ∷ src) (suc i) h = get_elem?-copy dst src i (omega arith)

-- A write leaves the bytes before it and behind it as they were.
get_elem?-copy_at :
    (dst : List ℕ) (k : ℕ) (src : List ℕ) (i : ℕ)
    → Apart (length src) k i
    → get_elem? (copy_at dst k src) i ≡ get_elem? dst i
get_elem?-copy_at dst zero src i h = get_elem?-copy dst src i (ground (arith, h))
get_elem?-copy_at [] (suc k) src i h = refl
get_elem?-copy_at (d ∷ dst) (suc k) src zero h = refl
get_elem?-copy_at (d ∷ dst) (suc k) src (suc i) h =
    get_elem?-copy_at dst k src i (ground (arith, h))

-- The queue has stored the entry at the index, and not over a live byte where it had room for it.
pub record IsStored (entry : List ℕ) (index : ℕ) (q q' : BytesQueue) : Type 0 where
  pub valid : IsValid q'
  pub read : get q' index ≡ some (ok entry)
  pub count : q.count < q'.count
  pub kept :
      Fits (get_needed_size (length entry)) q
      → (i : ℕ) → IsLive q i
      → get_elem? q'.array i ≡ get_elem? q.array i

mark_array :
    (entry : List ℕ) (n : ℕ) (r : BytesQueue)
    → (mark (written entry n r)).array ≡ copy_at r.array r.tail (uvarint_of n ++ entry)
unfolding mark
mark_array entry n r = refl

kept_bytes :
    (entry : List ℕ) (q r : BytesQueue) (n i : ℕ)
    → n ≡ length (uvarint_of n) + length entry
    → r.array ≡ q.array
    → Apart n r.tail i
    → get_elem? (mark (written entry n r)).array i ≡ get_elem? q.array i
kept_bytes entry q r n i size same apart =
    ap (λ a. get_elem? a i) (mark_array entry n r)
    ∙ get_elem?-copy_at r.array r.tail (uvarint_of n ++ entry) i
        (ground (arith, length-append (uvarint_of n) entry, size, apart))
    ∙ ap (λ a. get_elem? a i) same

store_lem :
    (entry : List ℕ) (q r : BytesQueue)
    → length entry < max_entry
    → HasTail (get_needed_size (length entry)) q r
    → (q' : BytesQueue) × (push_in entry q (ok r) ≡ some (q', ok r.tail))
      × IsStored entry r.tail q q'
unfolding push_in
store_lem entry q r small t =
    let n = get_needed_size (length entry) in
    let v = t.valid in
    let (_, bound) = get_needed_size_bounds (length entry) small in
    let has : HasRoom n r = record { buffer = v.buffer; free = t.room; small = bound } in
    let q' = mark (written entry n r) in
    let (_, count) = mark_capacity entry n r in
    let size = get_needed_size-uvarint (length entry) small in
    (
      q',
      rw (write_lem entry n r has size),
      record {
        valid = mark-IsValid entry n r v has;
        read =
            get_written entry r q' r.tail small t.room v.tail_pos (mark_array entry n r)
              (λ e. absurd (omega (arith, count)));
        count = omega (arith, count, t.count);
        kept = λ f i l. kept_bytes entry q r n i size (t.kept f).0 ((t.kept f).1 i l);
      },
    )

-- On a valid queue, whose capacity is from 1 to below 2^35, `Push` of an entry whose length is below
-- `max_entry` never panics. It refuses the entry, and leaves the queue as it was, exactly where there
-- are not enough free bytes in a row and a maximum capacity forbids to grow. Else the queue stays
-- valid, its count grows, and `Get` of the returned index reads the entry back; where there were free
-- bytes, no live byte is written over.
pub get-push :
    (q : BytesQueue) (entry : List ℕ)
    → IsValid q
    → 0 < q.capacity
    → q.capacity < 34359738368
    → length entry < max_entry
    → let need = get_needed_size (length entry) in
      ((push q entry ≡ some (q, err full_queue)) × (¬ Fits need q) × AtLimit need q)
      ⊎ ((q' : BytesQueue) × (index : ℕ) × (push q entry ≡ some (q', ok index))
          × IsStored entry index q q'
          × (Fits need q ⊎ ¬ AtLimit need q))
unfolding push push_in
get-push q entry v pos_c small short =
    elim (make_room_lem q (get_needed_size (length entry)) v pos_c small) [
      | inl (run, no_room, limit) ↦ inl (rw run, no_room, limit)
      | inr (r, run, t) ↦
          let (q', done, stored) = store_lem entry q r short t in
          inr (q', r.tail, rw run done, stored, t.allowed)
    ]
