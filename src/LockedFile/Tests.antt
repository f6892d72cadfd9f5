-- ===== src/LockedFile/Tests.antt =====
-- Runs of the locked files of linux/lockedfile, and the witnesses of their theorems.
use go_example.Prelude.{true, false, Option, some, [], ◌∷◌, ◌≡◌, refl}
use go_example.Prelude.Dict.{Str}
use go_example.LockedFile.{
  fine, fails, Outcomes, done, write_failed, transform, replace, with_tail, overwrite, overwritten,
  write_over, roll_back, closed_fd, shrunk, rdwr, write_lock, Opening, open_file, truncated, File,
  new_file, close, close_file, collect,
}
use go_example.LockedFile.Transform.{all_fine, transform-done, transform-torn}
use go_example.LockedFile.Handles.{fresh, closes, closes-leak, Opened, open_file-Opened}

abbrev old_file : Str
old_file = 1 ∷ 2 ∷ 3 ∷ []

-- A function that puts a zero in front, and one that gives four sevens.
abbrev longer : Str → Option Str
longer file = some (0 ∷ file)

abbrev sevens : Str → Option Str
sevens file = some (7 ∷ 7 ∷ 7 ∷ 7 ∷ [])

longer_done : (transform all_fine longer old_file).1 ≡ done
unfolding transform replace with_tail overwrite write_over roll_back overwritten
longer_done = refl

shorter_done : transform all_fine (λ file. some (9 ∷ [])) old_file ≡ (9 ∷ [], done)
unfolding transform replace overwrite write_over roll_back shrunk overwritten
shorter_done = refl

transform-done_example :
    (new : Str) × (longer old_file ≡ some new) × ((transform all_fine longer old_file).0 ≡ new)
transform-done_example = transform-done all_fine longer old_file longer_done

abbrev bad_tail : Outcomes
bad_tail = record all_fine { tail = fails 1 }

abbrev bad_body : Outcomes
bad_body = record all_fine { body = fails 1 }

transform-torn_example :
    (transform bad_body sevens old_file ≡ (7 ∷ 2 ∷ 3 ∷ 7 ∷ [], write_failed))
    × (roll_back true
          (record bad_body { restore = fine; trim = fine })
          old_file
          (7 ∷ 2 ∷ 3 ∷ 7 ∷ [])
        ≡ old_file)
transform-torn_example =
    transform-torn bad_body sevens old_file (7 ∷ 7 ∷ 7 ∷ 7 ∷ []) 1 refl refl refl

abbrev opening : Opening
opening = record { opens = true; locks = true; truncates = true; stats = true; regular = true }

abbrev edited : File
edited = record {
  fd = record { opened = true; lock = some write_lock; contents = old_file };
  closed = false;
  finalizer = true;
}

edited-opening : new_file opening rdwr false (fresh old_file) ≡ some edited
unfolding new_file open_file truncated
edited-opening = refl

open_file-Opened_example :
    Opened rdwr false old_file (open_file opening rdwr false (fresh old_file))
open_file-Opened_example = open_file-Opened opening rdwr false old_file

closes-leak_example :
    ((closes ((false, true) ∷ (true, true) ∷ []) edited).fd.opened ≡ true)
    × ((closes ((false, true) ∷ (true, true) ∷ []) edited).fd.lock ≡ some write_lock)
    × (collect (closes ((false, true) ∷ (true, true) ∷ []) edited)
        ≡ some (record edited { fd = closed_fd edited.fd; closed = true; finalizer = false }))
unfolding closes close close_file
closes-leak_example =
    closes-leak opening rdwr false true old_file edited ((true, true) ∷ []) edited-opening
