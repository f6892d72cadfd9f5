-- ===== src/BytesQueue/Tests.antt =====
-- Runs of go/container/bytesqyeye/bytes_queue.go on concrete data, and the witnesses of its
-- theorems.
use go_example.Prelude.{
  ℕ, ◌+◌, ◌≡◌, refl, ◌⊎◌, false, Option, some, List, [], ◌∷◌, arith, length, replicate, ◌>>=◌,
}
use go_example.BytesQueue.{
  BytesQueue, Result, ok, err, empty_queue, full_queue, get_needed_size, uvarint_bytes, uvarint_of,
  new, reset, read_uvarint, copy_in, put_header, mark, write, can_insert_after_tail,
  can_insert_before_head, grown_capacity, fill_gap, unwrap_data, move_data,
  allocate_additional_memory, make_room, push_in, push, check_get, read_block, peek_at, get, peek,
  advance, pop_block, pop,
}
use go_example.BytesQueue.Varint.{get_needed_size-uvarint}
use go_example.BytesQueue.Push.{IsValid}
use go_example.BytesQueue.Room.{Fits, AtLimit}
use go_example.BytesQueue.Store.{IsStored, get-push}

program : Unit {0}
unfolding get_needed_size uvarint_bytes new reset read_uvarint copy_in put_header mark write
    can_insert_after_tail can_insert_before_head grown_capacity fill_gap unwrap_data move_data
    allocate_additional_memory make_room push_in push check_get read_block peek_at get peek advance
    pop_block pop
program = tt

-- A call of a client, and what it sees.
data Call : Type 0 where
  push_call : List ℕ → Call
  pop_call : Call

data Seen : Type 0 where
  at : Result ℕ → Seen
  popped : Result (List ℕ) → Seen

abbrev step : Call → BytesQueue → Option (BytesQueue × Seen)
step (push_call entry) q = do (q', i) ← push q entry; some (q', at i)
step pop_call q = do (q', e) ← pop q; some (q', popped e)

abbrev run : List Call → BytesQueue → Option (List Seen)
run [] q = some []
run (c ∷ calls) q = do (q', s) ← step c q; rest ← run calls q'; some (s ∷ rest)

-- A FIFO as long as the queue does not grow.
fifo :
    run
      (push_call (7 ∷ 8 ∷ []) ∷ push_call (9 ∷ []) ∷ pop_call ∷ pop_call ∷ pop_call ∷ [])
      (new 32 0)
    ≡ some (
        at (ok 1)
        ∷ at (ok 4)
        ∷ popped (ok (7 ∷ 8 ∷ []))
        ∷ popped (ok (9 ∷ []))
        ∷ popped (err empty_queue)
        ∷ [])
unfolding program
fifo = refl

-- Forty bytes: an entry of 20 is popped, an entry of 2 goes before the head, and the next one
-- makes the queue grow. What is popped first is then the entry of 2, and next a blank one.
growth_reorders :
    run
      (push_call (replicate 20 1)
        ∷ push_call (replicate 16 2)
        ∷ pop_call
        ∷ push_call (3 ∷ 3 ∷ [])
        ∷ push_call (replicate 20 4)
        ∷ pop_call
        ∷ pop_call
        ∷ pop_call
        ∷ [])
      (new 40 0)
    ≡ some (
        at (ok 1)
        ∷ at (ok 22)
        ∷ popped (ok (replicate 20 1))
        ∷ at (ok 1)
        ∷ at (ok 39)
        ∷ popped (ok (3 ∷ 3 ∷ []))
        ∷ popped (ok (replicate 17 0))
        ∷ popped (ok (replicate 16 2))
        ∷ [])
unfolding program
growth_reorders = refl

abbrev start : BytesQueue
start = record {
  full = false;
  array = replicate 32 0;
  capacity = 32;
  max_capacity = 32;
  head = 1;
  tail = 1;
  count = 0;
  right_margin = 1;
  header_buffer = replicate 5 0;
}

start-IsValid : IsValid start
start-IsValid = record {
  allocated = refl;
  buffer = refl;
  head_pos = omega arith;
  head_in = omega arith;
  tail_pos = omega arith;
  tail_in = omega arith;
  margin_pos = omega arith;
  margin_in = omega arith;
}

get-push_example :
    ((push start (7 ∷ 8 ∷ []) ≡ some (start, err full_queue))
      × (¬ Fits (get_needed_size 2) start)
      × AtLimit (get_needed_size 2) start)
    ⊎ ((q' : BytesQueue) × (index : ℕ) × (push start (7 ∷ 8 ∷ []) ≡ some (q', ok index))
        × IsStored (7 ∷ 8 ∷ []) index start q'
        × (Fits (get_needed_size 2) start ⊎ ¬ AtLimit (get_needed_size 2) start))
get-push_example =
    get-push start (7 ∷ 8 ∷ []) start-IsValid (omega arith) (omega arith) (omega arith)

get_needed_size-uvarint_example :
    get_needed_size 127 ≡ length (uvarint_of (get_needed_size 127)) + 127
get_needed_size-uvarint_example = get_needed_size-uvarint 127 (omega arith)
