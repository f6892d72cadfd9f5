-- ===== src/BytesQueue.antt =====
-- go/container/bytesqyeye/bytes_queue.go: a queue of byte entries in a ring of bytes. `none` is a
-- panic; a refusal is an `Error`. `encoding/binary` comes in through its documented encoding.
-- Lengths are below the bound of Go's `int`; `verbose` only prints.
pub mod Varint
pub mod Write
pub mod Push
pub mod Room
pub mod Store
mod Tests
use go_example.Prelude.{
  ◌>>=◌, ℕ, zero, suc, ◌+◌, ◌-◌, ◌*◌, ◌/◌, ◌%◌, min, Bool, true, false, ◌&&◌, ◌||◌, Option, none,
  some, List, [], ◌∷◌, ltb, leb, ◌==◌, if◌then◌else◌, length, drop, replicate, subslice, copy,
  copy_at,
}

abbrev pub minimum_header_size : ℕ
minimum_header_size = 17

abbrev pub left_margin_index : ℕ
left_margin_index = 1

-- `binary.MaxVarintLen32`
abbrev pub header_buffer_size : ℕ
header_buffer_size = 5

pub data Error : Type 0 where
  empty_queue invalid_index index_out_of_bounds full_queue : Error

pub data Result (A : Type 0) : Type 0 where
  ok : A → Result A
  err : Error → Result A

pub record BytesQueue : Type 0 where
  pub full : Bool
  pub array : List ℕ
  pub capacity : ℕ
  pub max_capacity : ℕ
  pub head : ℕ
  pub tail : ℕ
  pub count : ℕ
  pub right_margin : ℕ
  pub header_buffer : List ℕ

unfoldable pub get_needed_size : ℕ → ℕ
get_needed_size n =
    (if ltb n 127
      then 1
      else if ltb n 16382
      then 2
      else if ltb n 2097149
      then 3
      else if ltb n 268435452
      then 4
      else 5)
    + n

unfoldable pub new : ℕ → ℕ → BytesQueue
new capacity max_capacity = record {
  full = false;
  array = replicate capacity 0;
  capacity = capacity;
  max_capacity = max_capacity;
  head = left_margin_index;
  tail = left_margin_index;
  count = 0;
  right_margin = left_margin_index;
  header_buffer = replicate header_buffer_size 0;
}

unfoldable pub reset : BytesQueue → BytesQueue
reset q = record q {
  full = false;
  head = left_margin_index;
  tail = left_margin_index;
  count = 0;
  right_margin = left_margin_index;
}

-- `binary.AppendUvarint`: seven bits a byte, the lowest first; nine bytes after the first are
-- enough for 64 bits.
unfoldable pub uvarint_bytes : ℕ → ℕ → List ℕ
uvarint_bytes zero n = n ∷ []
uvarint_bytes (suc more) n =
    let rest = uvarint_bytes more (n / 128) in if ltb n 128 then n ∷ [] else (n % 128 + 128) ∷ rest

abbrev pub uvarint_of : ℕ → List ℕ
uvarint_of n = uvarint_bytes 9 n

-- `binary.Uvarint`: the value and the bytes read; `short` is (0, 0), `overflow n` is (0, -n).
pub data Decoded : Type 0 where
  value : ℕ → ℕ → Decoded
  short : Decoded
  overflow : ℕ → Decoded

-- The loop, at byte `i`, where a byte counts `unit` times and `x` has been read.
unfoldable pub read_uvarint : ℕ → ℕ → ℕ → List ℕ → Decoded
read_uvarint i unit x [] = short
read_uvarint i unit x (b ∷ bs) =
    let rest = read_uvarint (i + 1) (unit * 128) (x + b % 128 * unit) bs in
    if i == 10
    then overflow (i + 1)
    else if ltb b 128
    then if i == 9 && ltb 1 b then overflow (i + 1) else value (x + b * unit) (i + 1)
    else rest

abbrev pub uvarint : List ℕ → Decoded
uvarint bs = read_uvarint 0 1 0 bs

-- The method `copy`: `q.tail += copy(q.array[q.tail:], data[:len])`.
unfoldable pub copy_in : List ℕ → ℕ → BytesQueue → Option BytesQueue
copy_in bytes len q = do
  part ← subslice bytes 0 len
  room ← subslice q.array q.tail (length q.array)
  some (record q {
    array = copy_at q.array q.tail part;
    tail = q.tail + min (length room) (length part);
  })

-- `binary.PutUvarint(q.headerBuffer, len)` panics where the buffer is too short.
unfoldable pub put_header : ℕ → BytesQueue → Option BytesQueue
put_header len q =
    if leb (length (uvarint_of len)) (length q.header_buffer)
    then some (record q { header_buffer = copy q.header_buffer (uvarint_of len) })
    else none

-- The end of the method `push`.
unfoldable pub mark : BytesQueue → BytesQueue
mark q = record q {
  right_margin = if ltb q.head q.tail then q.tail else q.right_margin;
  full = if q.tail == q.head then true else q.full;
  count = q.count + 1;
}

-- The method `push`. Go's `len - headerEntrySize` is not negative where it is called.
unfoldable pub write : List ℕ → ℕ → BytesQueue → Option BytesQueue
write bytes len q = do
  q1 ← put_header len q
  let header_entry_size = length (uvarint_of len)
  q2 ← copy_in q1.header_buffer header_entry_size q1
  q3 ← copy_in bytes (len - header_entry_size) q2
  some (mark q3)

-- Differences of the source are written as sums, so that nothing stops at 0.
unfoldable pub can_insert_after_tail : BytesQueue → ℕ → Bool
can_insert_after_tail q need =
    if q.full
    then false
    else if leb q.head q.tail
    then leb (q.tail + need) q.capacity
    else q.tail + need == q.head || leb (q.tail + (need + minimum_header_size)) q.head

unfoldable pub can_insert_before_head : BytesQueue → ℕ → Bool
can_insert_before_head q need =
    if q.full
    then false
    else if leb q.head q.tail
    then left_margin_index + need == q.head
      || leb (left_margin_index + (need + minimum_header_size)) q.head
    else q.tail + need == q.head || leb (q.tail + (need + minimum_header_size)) q.head

-- Steps 1 to 3 of `allocateAdditionalMemory`.
unfoldable pub grown_capacity : BytesQueue → ℕ → ℕ
grown_capacity q minimum =
    let wanted = (if ltb q.capacity minimum then q.capacity + minimum else q.capacity) * 2 in
    if ltb 0 q.max_capacity && ltb q.max_capacity wanted then q.max_capacity else wanted

-- Step 6.2: where the data wraps, the gap becomes an entry of zeros.
unfoldable pub fill_gap : BytesQueue → Option BytesQueue
fill_gap q =
    if q.tail == q.head then some q else write (replicate (q.head - q.tail) 0) (q.head - q.tail) q

-- Steps 6.2 and 6.3.
unfoldable pub unwrap_data : BytesQueue → Option BytesQueue
unwrap_data q =
    if leb q.tail q.head
    then (do
      filled ← fill_gap q
      some (record filled { head = left_margin_index; tail = filled.right_margin }))
    else some q

-- Step 6 on the queue with its new array.
unfoldable pub move_data : List ℕ → BytesQueue → Option BytesQueue
move_data old q = if q.right_margin == left_margin_index then some q else (do
  part ← subslice old 0 q.right_margin
  unwrap_data (record q { array = copy q.array part }))

unfoldable pub allocate_additional_memory : ℕ → BytesQueue → Option BytesQueue
allocate_additional_memory minimum q = do
  let capacity = grown_capacity q minimum
  q' ← move_data q.array (record q { capacity = capacity; array = replicate capacity 0 })
  some (record q' { full = false })

-- The part of `Push` before the write: `err` is `errFullQueue`.
unfoldable pub make_room : ℕ → BytesQueue → Option (Result BytesQueue)
make_room need q =
    if can_insert_after_tail q need
    then some (ok q)
    else if can_insert_before_head q need
    then some (ok (record q { tail = left_margin_index }))
    else if leb q.max_capacity (q.capacity + need) && ltb 0 q.max_capacity
    then some (err full_queue)
    else (do q' ← allocate_additional_memory need q; some (ok q'))

-- The write at the end of `Push`, at the old tail, whose index is the result.
unfoldable pub push_in : List ℕ → BytesQueue → Result BytesQueue → Option (BytesQueue × Result ℕ)
push_in entry q (err e) = some (q, err e)
push_in entry q (ok r) = do
  r' ← write entry (get_needed_size (length entry)) r
  some (r', ok r.tail)

unfoldable pub push : BytesQueue → List ℕ → Option (BytesQueue × Result ℕ)
push q entry = do room ← make_room (get_needed_size (length entry)) q; push_in entry q room

unfoldable pub check_get : BytesQueue → ℕ → Option Error
check_get q index =
    if q.count == 0
    then some empty_queue
    else if index == 0
    then some invalid_index
    else if leb (length q.array) index
    then some index_out_of_bounds
    else none

-- `q.array[index+n : index+int(blockSize)]`, where Go's `n` may be negative.
unfoldable pub read_block : BytesQueue → ℕ → Decoded → Option (List ℕ × ℕ)
read_block q index (value size n) = do
  part ← subslice q.array (index + n) (index + size)
  some (part, size)
read_block q index short = some ([], 0)
read_block q index (overflow n) =
    if leb n index then (do part ← subslice q.array (index - n) index; some (part, 0)) else none

-- The method `peek`.
unfoldable pub peek_at : BytesQueue → ℕ → Option (Result (List ℕ × ℕ))
peek_at q index = elim (check_get q index) [
  | some e ↦ some (err e)
  | none ↦ do block ← read_block q index (uvarint (drop index q.array)); some (ok block)
]

abbrev pub only_bytes : Result (List ℕ × ℕ) → Result (List ℕ)
only_bytes (ok (part, size)) = ok part
only_bytes (err e) = err e

unfoldable pub get : BytesQueue → ℕ → Option (Result (List ℕ))
get q index = do block ← peek_at q index; some (only_bytes block)

unfoldable pub peek : BytesQueue → Option (Result (List ℕ))
peek q = get q q.head

-- What `Pop` does to the indices.
unfoldable pub advance : ℕ → BytesQueue → BytesQueue
advance size q =
    let head = q.head + size in
    let at_margin = head == q.right_margin in
    let tail = if at_margin && (q.tail == q.right_margin) then left_margin_index else q.tail in
    record q {
      head = if at_margin then left_margin_index else head;
      tail = tail;
      right_margin = if at_margin then tail else q.right_margin;
      count = q.count - 1;
      full = false;
    }

unfoldable pub pop_block : BytesQueue → Result (List ℕ × ℕ) → BytesQueue × Result (List ℕ)
pop_block q (err e) = (q, err e)
pop_block q (ok (part, size)) = (advance size q, ok part)

unfoldable pub pop : BytesQueue → Option (BytesQueue × Result (List ℕ))
pop q = do block ← peek_at q q.head; some (pop_block q block)
