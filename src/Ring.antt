-- ===== src/Ring.antt =====
-- go/range/buffer.go: the generic ring buffer that grows. A method that may panic returns an
-- option; `blank` is the zero value of the element type.
pub mod Contents
pub mod Queue
pub mod Drain
pub mod Run
mod Tests
use go_example.Prelude.{
  ◌>>=◌, ℕ, suc, zero, ◌+◌, ◌-◌, ◌*◌, ◌/◌, min, Bool, true, false, Option, none, some, List, rem,
  store, ltb, leb, ◌==◌, if◌then◌else◌, length, get_elem?, replicate, subslice, copy, copy_at,
}

abbrev pub ringbuffer_min : ℕ
ringbuffer_min = 8

abbrev pub ringbuffer_exp : ℕ
ringbuffer_exp = 1024

pub record Ring {ℓ} (A : Type ℓ) : Type ℓ where
  pub head : ℕ
  pub tail : ℕ
  pub elements : List A

module _ {ℓ} {A : Type ℓ} where
  -- Where the data wraps, `len(r.elements) - r.head + r.tail`.
  unfoldable pub len : Ring A → ℕ
  len r = if leb r.head r.tail then r.tail - r.head else length r.elements - r.head + r.tail

  pub is_empty : Ring A → Bool
  is_empty r = r.head == r.tail

  -- Go's `int` would make this -1 for no elements at all, which `new` excludes.
  pub max_len : Ring A → ℕ
  max_len r = length r.elements - 1

  unfoldable pub is_full : Ring A → Option Bool
  is_full r = do t ← rem (r.tail + 1) (length r.elements); some (t == r.head)

  -- The element that the returned pointer leads to.
  unfoldable pub peek : Ring A → Option (Option A)
  peek r = if len r == 0 then some none else (do v ← get_elem? r.elements r.head; some (some v))

  -- The two assignments at the end of `Push`.
  unfoldable pub put : A → Ring A → Option (Ring A)
  put v r = do
    es ← store r.elements r.tail v
    t ← rem (r.tail + 1) (length es)
    some (record { head = r.head; tail = t; elements = es })

unfoldable pub grown_size : ℕ → ℕ
grown_size n =
    if ltb n ringbuffer_min
    then ringbuffer_min
    else if ltb n ringbuffer_exp
    then n * 2
    else n + (n + 9) / 10

module _ {ℓ} {A : Type ℓ} (blank : A) where
  unfoldable pub new : ℕ → Ring A
  new size = record {
    head = 0;
    tail = 0;
    elements = replicate (if leb size ringbuffer_min then ringbuffer_min else size) blank;
  }

  -- The two parts of the data, copied one after the other.
  unfoldable pub grown_elements : Ring A → List A → Option (List A)
  grown_elements r fresh =
      if ltb r.head r.tail
      then (do part ← subslice r.elements r.head r.tail; some (copy fresh part))
      else (do
        first ← subslice r.elements r.head (length r.elements)
        second ← subslice r.elements 0 r.tail
        some (copy_at (copy fresh first) (min (length fresh) (length first)) second))

  unfoldable pub grow : Ring A → Option (Ring A)
  grow r = do
    es ← grown_elements r (replicate (grown_size (length r.elements)) blank)
    some (record { head = 0; tail = len r; elements = es })

  unfoldable pub push : Ring A → A → Option (Ring A)
  push r v = do full ← is_full r; r' ← (if full then grow r else some r); put v r'

  -- Clears the slot at the head and moves the head on.
  unfoldable pub drop_head : Ring A → Option (Ring A)
  drop_head r = do
    es ← store r.elements r.head blank
    h ← rem (r.head + 1) (length es)
    some (record { head = h; tail = r.tail; elements = es })

  -- `none` in the pair is the result `(zero, false)`.
  unfoldable pub pop : Ring A → Option (Option A × Ring A)
  pop r =
      if len r == 0
      then some (none, r)
      else (do value ← get_elem? r.elements r.head; r' ← drop_head r; some (some value, r'))

  -- `for i := i; i < i + rounds; i++ { elements[i] = zero }`
  unfoldable pub clear_from : ℕ → ℕ → List A → Option (List A)
  clear_from zero i es = some es
  clear_from (suc rounds) i es = do es' ← store es i blank; clear_from rounds (i + 1) es'

  unfoldable pub clear : Ring A → Option (Ring A)
  clear r = do
    es ←
        (if leb r.head r.tail then clear_from (r.tail - r.head) r.head r.elements else (do
          es' ← clear_from (length r.elements - r.head) r.head r.elements
          clear_from r.tail 0 es'))
    some (record { head = 0; tail = 0; elements = es })

  unfoldable pub discard_rounds : ℕ → Ring A → Option (Ring A)
  discard_rounds zero r = some r
  discard_rounds (suc rounds) r = do r' ← drop_head r; discard_rounds rounds r'

  -- `Discard`, for a count that is not negative.
  unfoldable pub discard : Ring A → ℕ → Option (ℕ × Ring A)
  discard r n =
      let m = min n (len r) in
      if m == len r
      then (do r' ← clear r; some (m, r'))
      else (do r' ← discard_rounds m r; some (m, r'))

-- `fn` sees and may change the element through its pointer; `S` is what its closure keeps, and the
-- Boolean says whether to go on.
module _ {ℓ κ} {A : Type ℓ} {S : Type κ} (fn : S → A → S × A × Bool) where
  -- `for i := i; i < i + rounds; i++ { if !fn(&elements[i]) { return } }`; the Boolean of the
  -- result is false after the `return`.
  unfoldable pub for_span : ℕ → ℕ → S → List A → Option (S × List A × Bool)
  for_span zero i s es = some (s, es, true)
  for_span (suc rounds) i s es = do
    x ← get_elem? es i
    let (s', y, more) = fn s x
    es' ← store es i y
    elim more [ true ↦ for_span rounds (i + 1) s' es' | false ↦ some (s', es', false) ]

  -- The loops of the two branches.
  unfoldable pub for_elements : Ring A → S → Option (S × List A × Bool)
  for_elements r s =
      if ltb r.head r.tail then for_span (r.tail - r.head) r.head s r.elements else (do
        (s', es, more) ← for_span (length r.elements - r.head) r.head s r.elements
        elim more [ true ↦ for_span r.tail 0 s' es | false ↦ some (s', es, false) ])

  unfoldable pub for_each : Ring A → S → Option (S × Ring A)
  for_each r s = if len r == 0 then some (s, r) else (do
    (s', es, _) ← for_elements r s
    some (s', record { head = r.head; tail = r.tail; elements = es }))
