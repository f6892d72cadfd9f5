-- ===== src/FsPoll/Tests.antt =====
-- Runs of the polling of uvgo/fspoll.go, and the witnesses of its theorems.
use go_example.Prelude.{true, false, [], ◌∷◌, ◌≡◌, refl}
use go_example.Prelude.Int.{pos}
use go_example.FsPoll.{
  StatT, zero_stat, FsPollState, fs_poll_start, interval_of, started, fspoll_dispatch, on_result,
  on_success, stat_equal,
}
use go_example.FsPoll.Changes.{run, IsChanges, all_found, run-IsChanges_started}

abbrev poll : FsPollState
poll = record { path = []; interval = 5000000; active = true; busy = pos 0; prev = zero_stat }

abbrev small : StatT
small = record { size = pos 3; mode = 420; mod_time = pos 100 }

abbrev large : StatT
large = record { size = pos 9; mode = 420; mod_time = pos 200 }

poll-started : fs_poll_start true false [] (pos 5) ≡ started poll
unfolding fs_poll_start interval_of
poll-started = refl

one_change :
    run poll (all_found ((small, 1) ∷ (small, 2) ∷ (large, 3) ∷ []))
    ≡ record { status = pos 0; prev = small; curr = large } ∷ []
unfolding run all_found fspoll_dispatch on_result on_success stat_equal
one_change = refl

run-IsChanges_started_example :
    IsChanges small
      ((small, 2) ∷ (large, 3) ∷ [])
      (run poll (all_found ((small, 1) ∷ (small, 2) ∷ (large, 3) ∷ [])))
run-IsChanges_started_example =
    run-IsChanges_started [] (pos 5) poll small 1 ((small, 2) ∷ (large, 3) ∷ []) poll-started

abbrev seen : FsPollState
seen = record poll { busy = pos 1; prev = small }
