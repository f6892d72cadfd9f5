-- ===== src/Prelude/Panic.antt =====
-- Go code that may panic (an index out of range, a division by zero, a nil dereference) returns
-- an option: `none` is the panic.
use Prim.Native.Nat.{ℕ, suc, ◌+◌, ◌%◌, ◌<◌}
use mathlib.Core.Path.{ap, ◌≡◌}
use mathlib.Core.List.{List}
use mathlib.Core.Option.{Option, none, some}
use native.Mathlib.Omega.{arith}
use native.Mathlib.Nat.{mod_self, mod-eq_of_lt}
use native.Mathlib.Numerals.{add-one}
use go_example.Prelude.Tests.{ltb, ◌==◌, if◌then◌else◌}
use go_example.Prelude.Lists.{length, set}

infixl 5 ◌>>=◌
abbrev pub ◌>>=◌ {ℓ κ} : {A : Type ℓ} {B : Type κ} → Option A → (A → Option B) → Option B
none >>= f = none
some a >>= f = f a

-- `a % b` panics at `b == 0`.
abbrev pub rem : ℕ → ℕ → Option ℕ
rem a b = if b == 0 then none else some (a % b)

pub rem_pos : (a b : ℕ) → 0 < b → rem a b ≡ some (a % b)
rem_pos a b h = ground arith

-- An index at the end of the slice goes round to 0.
pub mod_last : (i n : ℕ) → suc i ≡ n → (i + 1) % n ≡ 0
mod_last i n e = rw (add-one, e) (mod_self n)

pub mod_next : (i n : ℕ) → suc i < n → (i + 1) % n ≡ suc i
mod_next i n h = rw add-one (mod-eq_of_lt h)

-- `xs[i] = v` panics out of range.
abbrev pub store {ℓ} : {A : Type ℓ} → List A → ℕ → A → Option (List A)
store xs i v = if ltb i (length xs) then some (set xs i v) else none

pub store_in {ℓ} :
    {A : Type ℓ} (xs : List A) (i : ℕ) (v : A) → i < length xs → store xs i v ≡ some (set xs i v)
store_in xs i v h = ground arith

pub some_inj {ℓ} : {A : Type ℓ} {a b : A} → some a ≡ some b → a ≡ b
some_inj {A} {a} e = ap (λ (o : Option A). elim o [ none ↦ a | some y ↦ y ]) e
