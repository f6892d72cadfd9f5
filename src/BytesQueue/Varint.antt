-- ===== src/BytesQueue/Varint.antt =====
-- The header of an entry of go/container/bytesqyeye/bytes_queue.go: its size, and reading it back.
use go_example.Prelude.{
  ℕ, zero, suc, ◌+◌, ◌*◌, ◌/◌, ◌%◌, ◌≤◌, ◌<◌, ◌≡◌, ap, ap₂, ◌∙◌, List, ◌∷◌, ◌++◌, arith, dec_lt,
  lt→ltb, length, le→ltb_false, ne→==_false,
}
use go_example.BytesQueue.{get_needed_size, uvarint_bytes, uvarint_of, value, read_uvarint, uvarint}

-- The lengths of entries whose size with its header is below 2^35, what five bytes can hold.
abbrev pub max_entry : ℕ
max_entry = 34359738363

-- `n` fits in `more + 1` bytes.
abbrev Fits : ℕ → ℕ → Type 0
Fits zero n = n < 128
Fits (suc more) n = Fits more (n / 128)

last_byte :
    (i unit x n : ℕ) (bs : List ℕ)
    → n < 128
    → i ≤ 8
    → read_uvarint i unit x (n ∷ bs) ≡ value (x + n * unit) (i + 1)
unfolding read_uvarint
last_byte i unit x n bs h l =
    rw (ne→==_false i 10 (omega arith), ne→==_false i 9 (omega arith), lt→ltb n 128 h)

next_byte :
    (i unit x n : ℕ) (bs : List ℕ)
    → i ≤ 8
    → read_uvarint i unit x ((n % 128 + 128) ∷ bs)
      ≡ read_uvarint (i + 1) (unit * 128) (x + (n % 128 + 128) % 128 * unit) bs
unfolding read_uvarint
next_byte i unit x n bs l =
    rw (ne→==_false i 10 (omega arith), le→ltb_false (n % 128 + 128) 128 (omega arith))

seven_bits :
    (x n unit : ℕ) → x + (n % 128 + 128) % 128 * unit + n / 128 * (unit * 128) ≡ x + n * unit
seven_bits x n unit =
    let e : (n % 128 + 128) % 128 + n / 128 * 128 ≡ n = omega arith in
    omega (arith, ap (λ (t : ℕ). t * unit) e)

read_uvarint_bytes :
    (k more i unit x n : ℕ) (rest : List ℕ)
    → Fits k n
    → k ≤ more
    → i + k ≤ 8
    → read_uvarint i unit x (uvarint_bytes more n ++ rest)
      ≡ value (x + n * unit) (i + length (uvarint_bytes more n))
unfolding uvarint_bytes
read_uvarint_bytes zero zero i unit x n rest h m l = last_byte i unit x n rest h (omega arith)
read_uvarint_bytes zero (suc more) i unit x n rest h m l =
    rw (lt→ltb n 128 h) (last_byte i unit x n rest h (omega arith))
read_uvarint_bytes (suc k) zero i unit x n rest h m l = absurd (omega arith)
read_uvarint_bytes (suc k) (suc more) i unit x n rest h m l = elim (dec_lt n 128) [
  | yes p ↦ rw (lt→ltb n 128 p) (last_byte i unit x n rest p (omega arith))
  | no p ↦ rw (le→ltb_false n 128 (omega arith)) (
      next_byte i unit x n (uvarint_bytes more (n / 128) ++ rest) (omega arith)
      ∙ read_uvarint_bytes k more (i + 1) (unit * 128) (x + (n % 128 + 128) % 128 * unit) (n / 128)
          rest h (omega arith) (omega arith)
      ∙ ap₂ value (seven_bits x n unit) (omega arith))
]

-- A number below 2^35 is read back from its encoding, whatever follows.
pub uvarint-uvarint_of :
    (n : ℕ) (rest : List ℕ)
    → n < 34359738368
    → uvarint (uvarint_of n ++ rest) ≡ value n (length (uvarint_of n))
uvarint-uvarint_of n rest h =
    read_uvarint_bytes 4 9 0 1 0 n rest (omega arith) (omega arith) (omega arith)
    ∙ ap₂ value (omega arith) (omega arith)

pub length-uvarint_of-le : (n : ℕ) → n < 34359738368 → length (uvarint_of n) ≤ 5
unfolding uvarint_bytes
length-uvarint_of-le n h = ground arith

-- The header that `getNeededSize` counts is the one that `push` writes.
pub get_needed_size-uvarint :
    (n : ℕ) → n < max_entry → get_needed_size n ≡ length (uvarint_of (get_needed_size n)) + n
unfolding get_needed_size uvarint_bytes
get_needed_size-uvarint n h = ground arith

pub get_needed_size_bounds :
    (n : ℕ) → n < max_entry → (n < get_needed_size n) × (get_needed_size n < 34359738368)
unfolding get_needed_size
get_needed_size_bounds n h = ground arith

pub length-uvarint_of-le_self : (n : ℕ) → 0 < n → n < 34359738368 → length (uvarint_of n) ≤ n
unfolding uvarint_bytes
length-uvarint_of-le_self n p h = ground arith
