-- ===== src/TtlCache/Tests.antt =====
-- Runs of the expiring cache of go_cache_strategy, and the witness of its theorem.
use go_example.Prelude.{ℕ, true, false, none, some, List, [], ◌∷◌, ◌≡◌, refl}
use go_example.Prelude.Dict.{insert, lookup, delete, str_eq}
use go_example.Prelude.Int.{pos, ◌+ℤ◌, ◌-ℤ◌}
use go_example.TtlCache.{
  TtlCache, new, set, get, remove, fresh, is_expired, saw_expired, lazy_delete, clean_up,
  drop_expired, stop_cleanup,
}
use go_example.TtlCache.Keys.{IsDistinct}
use go_example.TtlCache.Clock.{
  Event, write, read, drop, late, tick, halt, step, run, ideal_run, run-ideal_run,
}

-- Two keys with different lifetimes, read, cleaned, and deleted late by another reader.
abbrev script : List (ℕ × Event ℕ)
script =
    (0, write (b'a' ∷ []) 7 (pos 10))
    ∷ (1, write (b'b' ∷ []) 8 (pos 3))
    ∷ (2, read (b'b' ∷ []))
    ∷ (5, tick)
    ∷ (0, read (b'b' ∷ []))
    ∷ (1, late 4 (b'a' ∷ []))
    ∷ (1, read (b'a' ∷ []))
    ∷ (9, read (b'a' ∷ []))
    ∷ (0, drop (b'a' ∷ []))
    ∷ (1, halt)
    ∷ []

abbrev empty : TtlCache ℕ
empty = record { items = []; cleaning = true; stopped = false }

new-empty : new {V = ℕ} (pos 5) ≡ empty
unfolding new
new-empty = refl

run-script :
    run (pos 100) script empty
    ≡ [] ∷ [] ∷ (some 8 ∷ []) ∷ [] ∷ (none ∷ []) ∷ [] ∷ (some 7 ∷ []) ∷ (none ∷ []) ∷ [] ∷ [] ∷ []
unfolding run step set get remove fresh is_expired saw_expired lazy_delete clean_up drop_expired
    stop_cleanup ◌+ℤ◌ ◌-ℤ◌ insert lookup delete str_eq
run-script = refl

empty-IsDistinct : IsDistinct {V = ℕ} []
unfolding IsDistinct
empty-IsDistinct = tt

run-ideal_run_example : run (pos 100) script empty ≡ ideal_run (pos 100) script (λ key. none)
unfolding lookup
run-ideal_run_example =
    run-ideal_run (pos 100) script empty (λ key. none) (empty-IsDistinct, λ t key h. refl)
