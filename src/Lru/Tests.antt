-- ===== src/Lru/Tests.antt =====
-- Runs of gocache/lrucache/lru/lru.go on concrete data, and the witnesses of its theorems.
use go_example.Prelude.{ℕ, ◌≡◌, refl, true, some, List, [], ◌∷◌, arith, ◌>>=◌}
use go_example.Prelude.Dict.{Str, str_eq, lookup, insert, delete}
use go_example.Prelude.Int.{pos, negsuc, ◌+ℤ◌, ◌-ℤ◌}
use mathlib.Core.Option
use go_example.Lru.{
  Cache, find, remove, move_to_front, back, set_value, new, get, unlink, remove_oldest, is_over,
  evict, replace, push_front, add,
}
use go_example.Lru.Elements.{pairs, id_of}
use go_example.Lru.Invariant.{IsValid}
use go_example.Lru.Evict.{fit, Evicted, evict_lem}
use go_example.Lru.Calls.{touch, Added, get_lem, add_lem}

program : Unit {0}
unfolding find remove move_to_front back set_value new get unlink remove_oldest is_over evict
    replace push_front add lookup insert delete str_eq id_of ◌+ℤ◌ ◌-ℤ◌ fit
program = tt

-- A value is the number of its bytes.
abbrev size : ℕ → ℕ
size n = n

abbrev key_a : Str
key_a = b'a' ∷ []

abbrev key_b : Str
key_b = b'b' ∷ []

abbrev key_c : Str
key_c = b'c' ∷ []

-- Twelve bytes at most, of which eleven are used.
abbrev two : Cache ℕ
two = record {
  max_bytes = pos 12;
  n_bytes = pos 11;
  ll = record { id = 1; key = key_b; value = 4 } ∷ record { id = 0; key = key_a; value = 5 } ∷ [];
  cache = (key_b, 1) ∷ (key_a, 0) ∷ [];
  on_evicted = true;
  evicted = [];
  fresh = 2;
}

abbrev unlimited : Cache ℕ
unlimited = record two { max_bytes = negsuc 0 }

two-IsValid : IsValid size two
unfolding program
two-IsValid = record {
  index = λ k. refl;
  distinct = (((λ e. ground arith), omega arith, tt), (tt, tt));
  below = omega arith;
  bytes = refl;
}

unlimited-IsValid : IsValid size unlimited
unfolding program
unlimited-IsValid = record {
  index = λ k. refl;
  distinct = (((λ e. ground arith), omega arith, tt), (tt, tt));
  below = omega arith;
  bytes = refl;
}

built :
    (do c ← add size 9 (new (pos 12) true) key_a 5; add size 9 c key_b 4)
    ≡ some (record two { cache = (key_a, 0) ∷ (key_b, 1) ∷ [] })
unfolding program
built = refl

evicts :
    Option.map {B = List (Str × ℕ) × List (Str × ℕ)}
      (λ c. (pairs c.ll, c.evicted))
      (add size 4 two key_c 3)
    ≡ some ((key_c, 3) ∷ (key_b, 4) ∷ [], (key_a, 5) ∷ [])
unfolding program
evicts = refl

-- A longer value for a known key stays beyond the limit of 12 bytes.
overfull : Option.map (λ c. c.n_bytes) (add size 4 two key_a 9) ≡ some (pos 15)
unfolding program
overfull = refl

get_lem_example :
    (c' : Cache ℕ) × (get two key_a ≡ some (c', lookup key_a (pairs two.ll)))
    × IsValid size c'
    × (pairs c'.ll ≡ touch key_a (pairs two.ll))
    × (c'.max_bytes ≡ two.max_bytes)
    × (c'.n_bytes ≡ two.n_bytes)
get_lem_example = get_lem size two key_a two-IsValid

add_lem_example : (c' : Cache ℕ) × (add size 4 two key_c 3 ≡ some c') × Added size 12 key_c 3 two c'
add_lem_example = add_lem size 4 12 two key_c 3 (omega arith) refl two-IsValid

evict_lem_example : (c' : Cache ℕ) × (evict size 3 two ≡ some c') × Evicted size 12 two c'
evict_lem_example = evict_lem size 3 12 two (omega arith) refl two-IsValid
