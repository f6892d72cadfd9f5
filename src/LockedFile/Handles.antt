-- ===== src/LockedFile/Handles.antt =====
-- linux/lockedfile/lockedfile.go and lockedfile_filelock.go: the descriptor and the lock of a file from
-- its opening to its last `Close`.
use go_example.Prelude.{
  Bool, true, false, not, ◌||◌, Option, none, some, List, [], ◌∷◌, if◌then◌else◌, ◌≡◌, ◌⊎◌, refl,
  ap, ◌∙◌, arith, ℕ, inl, inr, if_elim, sym,
}
use mathlib.Core.Path.{subst}
use go_example.LockedFile.{
  Access, rdonly, wronly, rdwr, LockKind, read_lock, write_lock, closed_fd, kind_of, Fd, Opening,
  truncated, open_file, File, new_file, close_file, close, collect,
}

-- A descriptor before its opening, on a file.
abbrev pub fresh : List ℕ → Fd
fresh contents = record { opened = false; lock = none; contents = contents }

-- The lock that an access is to have: a shared one where it only reads, else an exclusive one.
abbrev pub Holds : Access → Option LockKind → Type 0
Holds rdonly lock = lock ≡ some read_lock
Holds wronly lock = lock ≡ some write_lock
Holds rdwr lock = lock ≡ some write_lock

kind_of-Holds : (access : Access) → Holds access (some (kind_of access))
kind_of-Holds rdonly = refl
kind_of-Holds wronly = refl
kind_of-Holds rdwr = refl

Holds-kind_of :
    (access : Access) (lock : Option LockKind) → Holds access lock → lock ≡ some (kind_of access)
Holds-kind_of rdonly lock h = h
Holds-kind_of wronly lock h = h
Holds-kind_of rdwr lock h = h

-- An opening that failed, and one that did not.
abbrev Refused : List ℕ → Fd × Bool → Type 0
Refused contents (fd, ok) = (ok ≡ false) × (fd ≡ fresh contents)

abbrev pub Locked : Access → Bool → List ℕ → Fd × Bool → Type 0
Locked access trunc contents (fd, ok) =
    (ok ≡ true)
    × (fd.opened ≡ true)
    × Holds access fd.lock
    × ((fd.contents ≡ contents) ⊎ ((trunc ≡ true) × (fd.contents ≡ [])))

abbrev pub Opened : Access → Bool → List ℕ → Fd × Bool → Type 0
Opened access trunc contents r = Refused contents r ⊎ Locked access trunc contents r

truncated-Opened :
    (o : Opening) (access : Access) (trunc : Bool) (contents : List ℕ)
    → Opened access trunc contents (
        truncated o trunc (record (fresh contents) { opened = true; lock = some (kind_of access) }))
unfolding truncated
truncated-Opened o access false contents = inr (refl, refl, kind_of-Holds access, inl refl)
truncated-Opened o access true contents =
    if_elim (Opened access true contents) o.truncates
      (λ _. inr (refl, refl, kind_of-Holds access, inr (refl, refl)))
      (λ _.
        if_elim (Opened access true contents) (not o.stats || o.regular) (λ _. inl (refl, refl))
          (λ _. inr (refl, refl, kind_of-Holds access, inl refl)))

-- An error of `openFile` leaves the descriptor closed, without a lock, and the contents as they were. A
-- success leaves it open, with a shared lock for an access that only reads and an exclusive one for
-- one that writes, and the contents as they were or, where the
-- flags have `O_TRUNC`, empty.
pub open_file-Opened :
    (o : Opening) (access : Access) (trunc : Bool) (contents : List ℕ)
    → Opened access trunc contents (open_file o access trunc (fresh contents))
unfolding open_file
open_file-Opened o access trunc contents =
    if_elim (Opened access trunc contents) (not o.opens) (λ _. inl (refl, refl))
      (λ _.
        if_elim (Opened access trunc contents) (not o.locks) (λ _. inl (refl, refl))
          (λ _. truncated-Opened o access trunc contents))

file_of :
    (access : Access) (trunc : Bool) (contents : List ℕ) (r : Fd × Bool) (f : File)
    → Opened access trunc contents r
    → (if r.1 then some (record { fd = r.0; closed = false; finalizer = true }) else none) ≡ some f
    → (f.closed ≡ false)
      × (f.finalizer ≡ true)
      × (f.fd.opened ≡ true)
      × (f.fd.lock ≡ some (kind_of access))
file_of access trunc contents (fd, false) f q e = absurd (cc)
file_of access trunc contents (fd, true) f (inl q) e = absurd (ground (arith, q))
file_of access trunc contents (fd, true) f (inr q) e =
    let lk = Holds-kind_of access fd.lock q.2 in ground (arith, q, e, lk)

new_file_lem :
    (o : Opening) (access : Access) (trunc : Bool) (contents : List ℕ) (f : File)
    → new_file o access trunc (fresh contents) ≡ some f
    → (f.closed ≡ false)
      × (f.finalizer ≡ true)
      × (f.fd.opened ≡ true)
      × (f.fd.lock ≡ some (kind_of access))
unfolding new_file
new_file_lem o access trunc contents f e =
    file_of access trunc contents (open_file o access trunc (fresh contents)) f
      (open_file-Opened o access trunc contents) e

-- Calls of `Close`, with the outcomes of the unlocking and of the close of each.
unfoldable pub closes : List (Bool × Bool) → File → File
closes [] f = f
closes ((unlocks, shuts) ∷ calls) f = closes calls (close unlocks shuts f).0

later_close : (unlocks shuts : Bool) (f : File) → f.closed ≡ true → (close unlocks shuts f).0 ≡ f
unfolding close
later_close unlocks shuts f e = rw e

closes-closed : (calls : List (Bool × Bool)) (f : File) → f.closed ≡ true → closes calls f ≡ f
unfolding closes close
closes-closed [] f e = refl
closes-closed ((unlocks, shuts) ∷ calls) f e =
    ap (closes calls) (later_close unlocks shuts f e) ∙ closes-closed calls f e

first_close :
    (unlocks shuts : Bool) (f : File)
    → f.closed ≡ false
    → (close unlocks shuts f).0
      ≡ record f { fd = (close_file unlocks shuts f.fd).0; closed = true; finalizer = false }
unfolding close
first_close unlocks shuts f e = rw e

-- What a file is after its first `Close` and others.
closes_lem :
    (unlocks shuts : Bool) (calls : List (Bool × Bool)) (f : File)
    → f.closed ≡ false
    → closes ((unlocks, shuts) ∷ calls) f
      ≡ record f { fd = (close_file unlocks shuts f.fd).0; closed = true; finalizer = false }
unfolding closes
closes_lem unlocks shuts calls f e =
    ap (closes calls) (first_close unlocks shuts f e)
    ∙ closes-closed calls
        (record f { fd = (close_file unlocks shuts f.fd).0; closed = true; finalizer = false }) refl

-- A file whose first `Close` cannot unlock it stays open with its lock, whatever calls of `Close`
-- follow. Its collection does not panic, and only then the descriptor is closed.
pub closes-leak :
    (o : Opening) (access : Access) (trunc shuts : Bool) (contents : List ℕ) (f : File)
    (calls : List (Bool × Bool))
    → new_file o access trunc (fresh contents) ≡ some f
    → let g = closes ((false, shuts) ∷ calls) f in
      (g.fd.opened ≡ true)
      × (g.fd.lock ≡ some (kind_of access))
      × (collect g ≡ some (record g { fd = closed_fd g.fd }))
unfolding close_file
closes-leak o access trunc shuts contents f calls e =
    let (new, fin, op, lk) = new_file_lem o access trunc contents f e in
    let g = closes_lem false shuts calls f new in
    subst
      (λ (h : File).
        (h.fd.opened ≡ true)
        × (h.fd.lock ≡ some (kind_of access))
        × (collect h ≡ some (record h { fd = closed_fd h.fd })))
      (sym g) (op, lk, refl)

-- A file whose first `Close` unlocks it is closed without a lock, whatever calls of `Close` follow; a
-- further one is an error, and its collection does not panic, as it does without a `Close`.
closes-ends :
    (o : Opening) (access : Access) (trunc shuts u v : Bool) (contents : List ℕ) (f : File)
    (calls : List (Bool × Bool))
    → new_file o access trunc (fresh contents) ≡ some f
    → let g = closes ((true, shuts) ∷ calls) f in
      (g.fd.opened ≡ false)
      × (g.fd.lock ≡ none)
      × ((close u v g).1 ≡ false)
      × (collect g ≡ some (record g { fd = closed_fd g.fd }))
      × (collect f ≡ none)
unfolding close close_file
closes-ends o access trunc shuts u v contents f calls e =
    let (new, fin, op, lk) = new_file_lem o access trunc contents f e in
    let g = closes_lem true shuts calls f new in
    subst
      (λ (h : File).
        (h.fd.opened ≡ false)
        × (h.fd.lock ≡ none)
        × ((close u v h).1 ≡ false)
        × (collect h ≡ some (record h { fd = closed_fd h.fd }))
        × (collect f ≡ none))
      (sym g) (refl, refl, refl, refl, rw fin)
