-- ===== src/FsPoll.antt =====
-- uvgo/fspoll.go: polling a file's state. A poll's callback is the list of its calls; `busy` is the
-- integer of the source, 0 before the first answer, 1 after a success, an errno after an error.
pub mod Changes
mod Tests
use go_example.Prelude.{
  ℕ, zero, suc, ◌-◌, ◌%◌, ◌*◌, Bool, true, false, not, ◌&&◌, ◌||◌, Option, none, some, List, [],
  ◌∷◌, ◌==◌, if◌then◌else◌,
}
use go_example.Prelude.Dict.{Str}
use go_example.Prelude.Int.{ℤ, pos, negsuc}

-- `StatT`; the modification time in nanoseconds.
pub record StatT : Type 0 where
  pub size : ℤ
  pub mode : ℕ
  pub mod_time : ℤ

abbrev pub zero_stat : StatT
zero_stat = record { size = pos 0; mode = 0; mod_time = pos 0 }

-- `StatFromFileInfo`; `none` is a nil `os.FileInfo`.
abbrev pub stat_from_file_info : Option StatT → StatT
stat_from_file_info none = zero_stat
stat_from_file_info (some s) = s

abbrev pub eq_ℤ : ℤ → ℤ → Bool
eq_ℤ (pos a) (pos b) = a == b
eq_ℤ (pos a) (negsuc b) = false
eq_ℤ (negsuc a) (pos b) = false
eq_ℤ (negsuc a) (negsuc b) = a == b

-- `statEqual` on pointers that are not nil.
unfoldable pub stat_equal : StatT → StatT → Bool
stat_equal a b = eq_ℤ a.size b.size && a.mode == b.mode && eq_ℤ a.mod_time b.mod_time

-- What `errors.As` finds in an error of `os.Stat`.
pub data StatError : Type 0 where
  path_error : Option ℤ → Option ℤ → StatError
  other_error : Option ℤ → StatError

abbrev pub errno_or : Option ℤ → ℤ
errno_or none = negsuc 0
errno_or (some e) = e

-- `errnoFromStatError`: the errno within a path error, else one in the error, else -1.
unfoldable pub errno_from_stat_error : Option StatError → ℤ
errno_from_stat_error none = pos 0
errno_from_stat_error (some (path_error (some e) outer)) = e
errno_from_stat_error (some (path_error none outer)) = errno_or outer
errno_from_stat_error (some (other_error outer)) = errno_or outer

-- The arguments of a call of the callback, after the handle.
pub record FsPollCall : Type 0 where
  pub status : ℤ
  pub prev : StatT
  pub curr : StatT

-- `fspollState`
pub record FsPollState : Type 0 where
  pub path : Str
  pub interval : ℕ
  pub active : Bool
  pub busy : ℤ
  pub prev : StatT

-- The result of `os.Stat` in a job.
pub data StatResult : Type 0 where
  failed : StatError → StatResult
  found : Option StatT → StatResult

-- What `FSPollStart` makes: an error without a callback or on a stopped loop.
pub data Started : Type 0 where
  nil_callback : Started
  err_stopped : Started
  started : FsPollState → Started

-- `time.Millisecond` in nanoseconds.
abbrev pub millisecond : ℕ
millisecond = 1000000

-- The interval in milliseconds, at least 1.
unfoldable pub interval_of : ℤ → ℕ
interval_of (pos zero) = millisecond
interval_of (pos (suc n)) = suc n * millisecond
interval_of (negsuc n) = millisecond

unfoldable pub fs_poll_start : Bool → Bool → Str → ℤ → Started
fs_poll_start has_callback stopped path interval_ms =
    if not has_callback
    then nil_callback
    else if stopped
    then err_stopped
    else started (record {
      path = path;
      interval = interval_of interval_ms;
      active = true;
      busy = pos 0;
      prev = zero_stat;
    })

-- `Stop`
abbrev pub stop : FsPollState → FsPollState
stop fp = record fp { active = false }

-- `Path`
unfoldable pub path_of : FsPollState → Option Str
path_of fp = if fp.active then some fp.path else none

-- The time to the next poll, for the time since the job began.
unfoldable pub resume_after : FsPollState → ℕ → ℕ
resume_after fp elapsed = fp.interval - elapsed % fp.interval

-- `fp.busy` is 0; it is below 0.
abbrev pub is_unset : ℤ → Bool
is_unset (pos n) = n == 0
is_unset (negsuc n) = false

abbrev pub is_negative : ℤ → Bool
is_negative (pos n) = false
is_negative (negsuc n) = true

-- The two ends of `fspollDispatch`: after an error, and after a success.
unfoldable pub on_failure : FsPollState → ℤ → FsPollState × List FsPollCall
on_failure fp status = if eq_ℤ fp.busy status then (fp, []) else (
  record fp { busy = status },
  record { status = status; prev = fp.prev; curr = zero_stat } ∷ [],
)

unfoldable pub on_success : FsPollState → StatT → FsPollState × List FsPollCall
on_success fp curr =
    let fp' : FsPollState = record fp { prev = curr; busy = pos 1 } in
    if not (is_unset fp.busy) && (is_negative fp.busy || not (stat_equal fp.prev curr))
    then (fp', record { status = pos 0; prev = fp.prev; curr = curr } ∷ [])
    else (fp', [])

unfoldable pub on_result : FsPollState → StatResult → FsPollState × List FsPollCall
on_result fp (failed e) = on_failure fp (errno_from_stat_error (some e))
on_result fp (found fi) = on_success fp (stat_from_file_info fi)

-- `fspollDispatch`: the state, the calls of the callback, and what the worker waits for.
unfoldable pub fspoll_dispatch : FsPollState → StatResult → ℕ → FsPollState × List FsPollCall × ℕ
fspoll_dispatch fp r elapsed =
    if fp.active
    then (let (fp', calls) = on_result fp r in (fp', calls, resume_after fp elapsed))
    else (fp, [], 0)
