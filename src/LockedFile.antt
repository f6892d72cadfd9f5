-- ===== src/LockedFile.antt =====
-- linux/lockedfile/lockedfile.go: the calls of a locked file, over what the operating system does with
-- the contents. `WriteAt` and `Truncate` may fail: their outcomes are given in the order of the calls.
pub mod Transform
pub mod Handles
mod Tests
use go_example.Prelude.{
  ℕ, zero, suc, Bool, true, false, Option, none, some, [], ◌∷◌, ◌++◌, length, take, drop, ltb, not,
  ◌||◌, if◌then◌else◌,
}
use go_example.Prelude.Dict.{Str}

-- The bytes from an offset on replaced by `b`: a file grows with zeros.
abbrev pub splice : Str → ℕ → Str → Str
splice file zero b = b ++ drop (length b) file
splice [] (suc off) b = 0 ∷ splice [] off b
splice (x ∷ file) (suc off) b = x ∷ splice file off b

-- How a call of the operating system ends: well, or with an error, a write then with a number of bytes
-- written before.
pub data Outcome : Type 0 where
  fine : Outcome
  fails : ℕ → Outcome

-- `WriteAt`: the contents after it, and whether it fails; `os` documents that it fails where it writes
-- less than `b`.
abbrev pub write_at : Outcome → Str → ℕ → Str → Str × Bool
write_at fine b off file = (splice file off b, true)
write_at (fails n) b off file = (splice file off (take n b), false)

-- `Truncate`, which also extends a file with zeros.
abbrev pub resize : ℕ → Str → Str
resize zero file = []
resize (suc n) [] = 0 ∷ resize n []
resize (suc n) (x ∷ file) = x ∷ resize n file

abbrev pub truncate : Outcome → ℕ → Str → Str × Bool
truncate fine size file = (resize size file, true)
truncate (fails n) size file = (file, false)

-- The result of `Transform`: `nil`, or an error of the function or of a write.
pub data Result : Type 0 where
  done : Result
  t_failed : Result
  write_failed : Result

-- The outcomes of the calls of one `Transform`: of the write of the tail, of the truncation after its
-- failure, of the write over the old contents, of the last truncation, and of the write and the
-- truncation of the deferred roll-back.
pub record Outcomes : Type 0 where
  pub tail : Outcome
  pub undo : Outcome
  pub body : Outcome
  pub shrink : Outcome
  pub restore : Outcome
  pub trim : Outcome

-- The second part of `Transform`, before its deferred function.
unfoldable pub overwritten : Str × Bool → Str × Result
overwritten (file, false) = (file, write_failed)
overwritten (file, true) = (file, done)

unfoldable pub shrunk : Outcomes → Str → Str × Bool → Str × Result
shrunk os new (file, false) = (file, write_failed)
shrunk os new (file, true) = overwritten (truncate os.shrink (length new) file)

unfoldable pub write_over : Outcomes → Str → Str → Str → Str × Result
write_over os old new file =
    if ltb (length new) (length old)
    then shrunk os new (write_at os.body new 0 file)
    else overwritten (write_at os.body (take (length old) new) 0 file)

-- The deferred function, which rolls back where `err` is not nil.
unfoldable pub restored : Outcomes → Str → Str × Bool → Str
restored os old (file, false) = file
restored os old (file, true) = (truncate os.trim (length old) file).0

unfoldable pub roll_back : Bool → Outcomes → Str → Str → Str
roll_back false os old file = file
roll_back true os old file = restored os old (write_at os.restore old 0 file)

-- Whether `err` is not nil where the deferred function reads it: it is the `err` of the call of `t`,
-- which returned nil, since each later `if` declares its own and the result of `Transform` has no name.
abbrev pub outer_err : Bool
outer_err = false

unfoldable pub overwrite : Outcomes → Str → Str → Str → Str × Result
overwrite os old new file =
    let (left, r) = write_over os old new file in (roll_back outer_err os old left, r)

-- After the write of the tail.
unfoldable pub with_tail : Outcomes → Str → Str → Str × Bool → Str × Result
with_tail os old new (file, true) = overwrite os old new file
with_tail os old new (file, false) = ((truncate os.undo (length old) file).0, write_failed)

unfoldable pub replace : Outcomes → Str → Option Str → Str × Result
replace os old none = (old, t_failed)
replace os old (some new) =
    if ltb (length old) (length new)
    then with_tail os old new (write_at os.tail (drop (length old) new) (length old) old)
    else overwrite os old new old

-- `Transform` of a file that `Edit` opens and `ReadAll` reads, where `t` fails with `none`.
unfoldable pub transform : Outcomes → (Str → Option Str) → Str → Str × Result
transform os t file = replace os file (t file)

-- The flags of an open: the access, and `O_TRUNC`.
pub data Access : Type 0 where
  rdonly : Access
  wronly : Access
  rdwr : Access

pub data LockKind : Type 0 where
  read_lock : LockKind
  write_lock : LockKind

-- A descriptor: whether it is open, the lock that it holds, the contents of its file.
pub record Fd : Type 0 where
  pub opened : Bool
  pub lock : Option LockKind
  pub contents : Str

abbrev pub kind_of : Access → LockKind
kind_of rdonly = read_lock
kind_of wronly = write_lock
kind_of rdwr = write_lock

-- How the calls of one `openFile` end: `os.OpenFile`, the lock, `Truncate` and `Stat`, and whether
-- `Stat` says that the file is regular.
pub record Opening : Type 0 where
  pub opens : Bool
  pub locks : Bool
  pub truncates : Bool
  pub stats : Bool
  pub regular : Bool

abbrev pub closed_fd : Fd → Fd
closed_fd fd = record fd { opened = false; lock = none }

-- The truncation, once the lock is held: an error of it counts for regular files.
unfoldable pub truncated : Opening → Bool → Fd → Fd × Bool
truncated o false fd = (fd, true)
truncated o true fd =
    if o.truncates
    then (record fd { contents = [] }, true)
    else if not o.stats || o.regular
    then (closed_fd fd, false)
    else (fd, true)

unfoldable pub open_file : Opening → Access → Bool → Fd → Fd × Bool
open_file o access trunc fd =
    if not o.opens
    then (fd, false)
    else if not o.locks
    then (closed_fd fd, false)
    else truncated o trunc (record fd { opened = true; lock = some (kind_of access) })

-- `File`, with its finalizer.
pub record File : Type 0 where
  pub fd : Fd
  pub closed : Bool
  pub finalizer : Bool

-- `OpenFile`; `none` is an error.
unfoldable pub new_file : Opening → Access → Bool → Fd → Option File
new_file o access trunc fd =
    let (fd', ok) = open_file o access trunc fd in
    if ok then some (record { fd = fd'; closed = false; finalizer = true }) else none

-- `closeFile`, where `Unlock` and the close end well or not: the descriptor, and whether that was well.
unfoldable pub close_file : Bool → Bool → Fd → Fd × Bool
close_file unlocks closes fd =
    if unlocks then (record fd { opened = false; lock = none }, closes) else (fd, false)

-- `Close`
unfoldable pub close : Bool → Bool → File → File × Bool
close unlocks closes f =
    if f.closed
    then (f, false)
    else let (fd, ok) = close_file unlocks closes f.fd in
      (record f { fd = fd; closed = true; finalizer = false }, ok)

-- The collection of an unreachable file panics where its finalizer is set. Otherwise it is that of its
-- `os.File`, whose own finalizer closes a descriptor that is still open.
abbrev pub collect : File → Option File
collect f = if f.finalizer then none else some (record f { fd = closed_fd f.fd })
