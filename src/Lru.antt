-- ===== src/Lru.antt =====
-- gocache/lrucache/lru/lru.go: the cache bounded in bytes. A `*list.Element` is a number that
-- names the element; `none` is the use of an element that is not in the list. The type of values
-- and its `Len` are a section's parameters. A `New` with an `OnEvicted` logs its calls.
pub mod Elements
pub mod Evict
pub mod Hit
pub mod Calls
pub mod Limits
pub mod Invariant
mod Tests
use go_example.Prelude.{
  ◌>>=◌, ℕ, zero, suc, ◌+◌, Bool, true, false, not, ◌&&◌, Option, none, some, List, [], ◌∷◌, ◌==◌,
  if◌then◌else◌, length,
}
use go_example.Prelude.Dict.{Str, lookup, insert, delete}
use go_example.Prelude.Int.{ℤ, pos, ◌+ℤ◌, ◌-ℤ◌, ltb_ℤ, is_zero}
use mathlib.Core.Option

pub record Element (V : Type 0) : Type 0 where
  pub id : ℕ
  pub key : Str
  pub value : V

pub record Cache (V : Type 0) : Type 0 where
  pub max_bytes : ℤ
  pub n_bytes : ℤ
  pub ll : List (Element V)
  pub cache : List (Str × ℕ)
  -- Whether `OnEvicted` is set, and the calls made of it, the last one first.
  pub on_evicted : Bool
  pub evicted : List (Str × V)
  -- The next new element.
  pub fresh : ℕ

module _ {V : Type 0} where
  -- container/list: the element that a pointer leads to, `Remove`, `MoveToFront`, `Back`.
  unfoldable pub find : ℕ → List (Element V) → Option (Element V)
  find p [] = none
  find p (e ∷ l) = if e.id == p then some e else find p l

  unfoldable pub remove : ℕ → List (Element V) → List (Element V)
  remove p [] = []
  remove p (e ∷ l) = let rest = remove p l in if e.id == p then l else e ∷ rest

  unfoldable pub move_to_front : ℕ → List (Element V) → List (Element V)
  move_to_front p l = elim (find p l) [ none ↦ l | some e ↦ e ∷ remove p l ]

  unfoldable pub back : List (Element V) → Option (Element V)
  back [] = none
  back (e ∷ []) = some e
  back (e ∷ f ∷ l) = back (f ∷ l)

  -- `e.Value.(*entry).value = value`
  unfoldable pub set_value : ℕ → V → List (Element V) → List (Element V)
  set_value p v [] = []
  set_value p v (e ∷ l) =
      let rest = set_value p v l in if e.id == p then record e { value = v } ∷ l else e ∷ rest

  unfoldable pub new : ℤ → Bool → Cache V
  new max_bytes on_evicted = record {
    max_bytes = max_bytes;
    n_bytes = pos 0;
    ll = [];
    cache = [];
    on_evicted = on_evicted;
    evicted = [];
    fresh = 0;
  }

  unfoldable pub get : Cache V → Str → Option (Cache V × Option V)
  get c key = elim (lookup key c.cache) [
    | none ↦ some (c, none)
    | some p ↦ do
      let ll = move_to_front p c.ll
      kv ← find p ll
      some (record c { ll = ll }, some kv.value)
  ]

  pub len : Cache V → ℕ
  len c = length c.ll

module _ {V : Type 0} (size : V → ℕ) where
  -- The body of the `if ele != nil` of `RemoveOldest`.
  unfoldable pub unlink : Element V → Cache V → Cache V
  unlink ele c = record c {
    ll = remove ele.id c.ll;
    cache = delete ele.key c.cache;
    n_bytes = c.n_bytes -ℤ (pos (length ele.key) +ℤ pos (size ele.value));
    evicted = if c.on_evicted then (ele.key, ele.value) ∷ c.evicted else c.evicted;
  }

  unfoldable pub remove_oldest : Cache V → Cache V
  remove_oldest c = elim (back c.ll) [ none ↦ c | some ele ↦ unlink ele c ]

  unfoldable pub is_over : Cache V → Bool
  is_over c = not (is_zero c.max_bytes) && ltb_ℤ c.max_bytes c.n_bytes

  -- `for c.maxBytes != 0 && c.maxBytes < c.nBytes { c.RemoveOldest() }`; `none` is the fuel's end.
  unfoldable pub evict : ℕ → Cache V → Option (Cache V)
  evict zero c = none
  evict (suc fuel) c = elim (is_over c) [ false ↦ some c | true ↦ evict fuel (remove_oldest c) ]

  -- The branch of `Add` for a key that is there, which returns before the loop.
  unfoldable pub replace : Cache V → ℕ → V → Option (Cache V)
  replace c p value = do
    let ll = move_to_front p c.ll
    kv ← find p ll
    some (record c {
      ll = set_value p value ll;
      n_bytes = c.n_bytes +ℤ (pos (size value) -ℤ pos (size kv.value));
    })

  unfoldable pub push_front : Cache V → Str → V → Cache V
  push_front c key value = record c {
    ll = record { id = c.fresh; key = key; value = value } ∷ c.ll;
    cache = insert key c.fresh c.cache;
    n_bytes = c.n_bytes +ℤ (pos (length key) +ℤ pos (size value));
    fresh = c.fresh + 1;
  }

  unfoldable pub add : ℕ → Cache V → Str → V → Option (Cache V)
  add fuel c key value = elim (lookup key c.cache) [
    | some p ↦ replace c p value
    | none ↦ evict fuel (push_front c key value)
  ]
