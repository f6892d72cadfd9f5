-- ===== src/LockedFile/Transform.antt =====
-- linux/lockedfile/lockedfile.go: what `Transform` leaves in the file.
use go_example.Prelude.{
  ℕ, zero, suc, ◌≤◌, ◌<◌, Option, none, some, [], ◌∷◌, ◌++◌, length, take, drop, ltb, if_elim, ◌≡◌,
  refl, sym, ap, ◌∙◌, arith, drop_all, append-nil, ltb→lt, lt→ltb, ◌⊎◌, inl, inr, ◌≢◌, true,
  Bool-cases, false,
}
use mathlib.Core.Path.{subst}
use go_example.Prelude.Dict.{Str}
use go_example.LockedFile.{
  splice, Outcome, fine, fails, write_at, resize, Result, done, write_failed, Outcomes, shrunk,
  overwritten, write_over, restored, roll_back, overwrite, with_tail, replace, transform,
}

splice_end : (file b : Str) → splice file (length file) b ≡ file ++ b
splice_end [] [] = refl
splice_end [] (x ∷ b) = append-nil (x ∷ b)
splice_end (x ∷ file) b = ap (◌∷◌ x) (splice_end file b)

resize_end : (file b : Str) → resize (length file) (file ++ b) ≡ file
resize_end [] b = refl
resize_end (x ∷ file) b = ap (◌∷◌ x) (resize_end file b)

drop_end : (file b : Str) → drop (length file) (file ++ b) ≡ b
drop_end [] b = refl
drop_end (x ∷ file) b = drop_end file b

take_short : (new : Str) (n : ℕ) → length new ≤ n → take n new ≡ new
take_short [] zero h = refl
take_short [] (suc n) h = refl
take_short (x ∷ new) zero h = absurd (omega arith)
take_short (x ∷ new) (suc n) h = ap (◌∷◌ x) (take_short new n (omega arith))

-- The write over the old contents of a file that ends as the new one does.
body_lem :
    (old new : Str)
    → length old ≤ length new
    → splice (old ++ drop (length old) new) 0 (take (length old) new) ≡ new
body_lem [] new h = refl
body_lem (x ∷ old) [] h = absurd (omega arith)
body_lem (x ∷ old) (y ∷ new) h = ap (◌∷◌ y) (body_lem old new (omega arith))

-- The calls that succeed.
abbrev pub all_fine : Outcomes
all_fine = record {
  tail = fine;
  undo = fine;
  body = fine;
  shrink = fine;
  restore = fine;
  trim = fine;
}

-- A step ends well only with the new contents.
abbrev Ends : Str → Str × Result → Type 0
Ends new r = r.1 ≡ done → r.0 ≡ new

overwritten-Ends :
    (new file b : Str) (o : Outcome)
    → splice file 0 b ≡ new
    → Ends new (overwritten (write_at o b 0 file))
unfolding overwritten
overwritten-Ends new file b fine e d = e
overwritten-Ends new file b (fails n) e d = absurd (cc)

shrunk-Ends :
    (os : Outcomes) (new file : Str) (o p : Outcome)
    → Ends new (shrunk (record os { shrink = p }) new (write_at o new 0 file))
unfolding shrunk overwritten
shrunk-Ends os new file (fails n) p d = absurd (cc)
shrunk-Ends os new file fine fine d = resize_end new (drop (length new) file)
shrunk-Ends os new file fine (fails n) d = absurd (cc)

overwrite_short-Ends :
    (os : Outcomes) (old new : Str) → length new < length old → Ends new (overwrite os old new old)
unfolding overwrite write_over roll_back
overwrite_short-Ends os old new h =
    if_elim (Ends new) (ltb (length new) (length old))
      (λ _. shrunk-Ends os new old os.body os.shrink) (λ e. absurd (ground (arith, e, h)))

overwrite_long-Ends :
    (os : Outcomes) (old new : Str)
    → length old ≤ length new
    → Ends new (overwrite os old new (old ++ drop (length old) new))
unfolding overwrite write_over roll_back
overwrite_long-Ends os old new h =
    if_elim (Ends new) (ltb (length new) (length old)) (λ e. absurd (ground (arith, e, h)))
      (λ _.
        overwritten-Ends new (old ++ drop (length old) new) (take (length old) new) os.body
          (body_lem old new h))

-- A file of the length of the new contents needs no write of a tail.
overwrite_same-Ends :
    (os : Outcomes) (old new : Str) → length new ≡ length old → Ends new (overwrite os old new old)
overwrite_same-Ends os old new h =
    subst (λ file. Ends new (overwrite os old new file))
      (ap (λ b. old ++ b) (drop_all (length old) new (omega arith)) ∙ append-nil old)
      (overwrite_long-Ends os old new (omega arith))

with_tail-Ends :
    (os : Outcomes) (old new : Str) (o : Outcome)
    → length old ≤ length new
    → Ends new (with_tail os old new (write_at o (drop (length old) new) (length old) old))
unfolding with_tail
with_tail-Ends os old new fine h =
    subst (λ file. Ends new (overwrite os old new file))
      (sym (splice_end old (drop (length old) new))) (overwrite_long-Ends os old new h)
with_tail-Ends os old new (fails n) h = λ d. absurd (cc)

le : {a b : ℕ} → a < b → a ≤ b
le h = omega (arith, h)

length_cases : (a b : ℕ) → (a < b) ⊎ (a ≡ b) ⊎ (b < a)
length_cases a b = ground arith

replace-Ends : (os : Outcomes) (old new : Str) → Ends new (replace os old (some new))
unfolding replace
replace-Ends os old new =
    if_elim (Ends new) (ltb (length old) (length new))
      (λ e. with_tail-Ends os old new os.tail (le (ltb→lt (length old) (length new) e)))
      (λ e. elim (length_cases (length new) (length old)) [
        | inl s ↦ overwrite_short-Ends os old new s
        | inr (inl s) ↦ overwrite_same-Ends os old new s
        | inr (inr s) ↦ absurd (ground (arith, e, s))
      ])

replace-done :
    (os : Outcomes) (file : Str) (o : Option Str)
    → (replace os file o).1 ≡ done
    → (new : Str) × (o ≡ some new) × ((replace os file o).0 ≡ new)
unfolding replace
replace-done os file none d = absurd (cc)
replace-done os file (some new) d = (new, refl, replace-Ends os file new d)

-- However the calls of the operating system end, where `Transform` returns nil its function has
-- succeeded on the contents of the file, and the file has exactly what it returned.
pub transform-done :
    (os : Outcomes) (t : Str → Option Str) (file : Str)
    → (transform os t file).1 ≡ done
    → (new : Str) × (t file ≡ some new) × ((transform os t file).0 ≡ new)
unfolding transform
transform-done os t file d = replace-done os file (t file) d

overwrite-fine : (old new file : Str) → (overwrite all_fine old new file).1 ≡ done
unfolding overwrite write_over roll_back shrunk overwritten
overwrite-fine old new file = ground arith

replace-fine : (old new : Str) → (replace all_fine old (some new)).1 ≡ done
unfolding replace with_tail
replace-fine old new =
    if_elim (λ (r : Str × Result). r.1 ≡ done) (ltb (length old) (length new))
      (λ _. overwrite-fine old new (splice old (length old) (drop (length old) new)))
      (λ _. overwrite-fine old new old)

kept_tail :
    (os : Outcomes) (old new : Str) (n : ℕ)
    → length old < length new
    → os.tail ≡ fails n
    → os.undo ≡ fine
    → replace os old (some new) ≡ (old, write_failed)
unfolding replace with_tail
kept_tail os old new n h e u = rw (
  lt→ltb (length old) (length new) h,
  e,
  u,
  splice_end old (take n (drop (length old) new)),
  resize_end old (take n (drop (length old) new)),
)

-- Where the function fails, or the write of a longer file's tail fails and the truncation after it does
-- not, `Transform` leaves the contents as they were, with an error.
transform-kept :
    (os : Outcomes) (t : Str → Option Str) (file new : Str) (n : ℕ)
    → (t file ≡ none)
      ⊎ ((t file ≡ some new) × (length file < length new) × (os.tail ≡ fails n) × (os.undo ≡ fine))
    → ((transform os t file).0 ≡ file) × ((transform os t file).1 ≢ done)
unfolding transform replace
transform-kept os t file new n (inl e) =
    let r = ap (replace os file) e in (ap (λ x. x.0) r, λ d. absurd (ground (arith, r, d)))
transform-kept os t file new n (inr (e, h, f, u)) =
    let r = ap (replace os file) e ∙ kept_tail os file new n h f u in
    (ap (λ x. x.0) r, λ d. absurd (ground (arith, r, d)))

not_below : (a b : ℕ) → ltb a b ≡ false → b ≤ a
not_below a b h = ground arith

write_over-torn :
    (os : Outcomes) (old new file : Str) (n : ℕ)
    → os.body ≡ fails n
    → write_over os old new file ≡ (splice file 0 (take n (take (length old) new)), write_failed)
unfolding write_over shrunk overwritten
write_over-torn os old new file n e = elim (Bool-cases (ltb (length new) (length old))) [
  | inl s ↦ rw (s, e, take_short new (length old) (le (ltb→lt (length new) (length old) s)))
  | inr s ↦ rw (s, e)
]

overwrite-torn :
    (os : Outcomes) (old new file : Str) (n : ℕ)
    → os.body ≡ fails n
    → overwrite os old new file ≡ (splice file 0 (take n (take (length old) new)), write_failed)
unfolding overwrite roll_back
overwrite-torn os old new file n e = write_over-torn os old new file n e

tail_fine :
    (os : Outcomes) (old new b : Str) (o : Outcome)
    → o ≡ fine
    → with_tail os old new (write_at o b (length old) old) ≡ overwrite os old new (old ++ b)
unfolding with_tail
tail_fine os old new b fine e = ap (overwrite os old new) (splice_end old b)
tail_fine os old new b (fails n) e = absurd (cc)

-- What the body of the write finds: the old contents, with the tail of longer ones.
torn_body :
    (os : Outcomes) (old new : Str) (n : ℕ)
    → os.tail ≡ fine
    → os.body ≡ fails n
    → replace os old (some new)
      ≡ (splice (old ++ drop (length old) new) 0 (take n (take (length old) new)), write_failed)
unfolding replace with_tail
torn_body os old new n t e = elim (Bool-cases (ltb (length old) (length new))) [
  | inl s ↦ rw s (
      tail_fine os old new (drop (length old) new) os.tail t
      ∙ overwrite-torn os old new (old ++ drop (length old) new) n e)
  | inr s ↦
      rw (s, drop_all (length old) new (not_below (length old) (length new) s), append-nil old)
        (overwrite-torn os old new old n e)
]

-- Where the write of the tail, if there is one, does not fail and the write over the old contents fails
-- after `n` bytes, `Transform` leaves these bytes before the rest of the old contents and the tail,
-- with an error: its deferred function does nothing, as the `err` that it reads is nil. Had it read an
-- error, and its own two calls not failed, the file would have its old contents.
pub transform-torn :
    (os : Outcomes) (t : Str → Option Str) (file new : Str) (n : ℕ)
    → t file ≡ some new
    → os.tail ≡ fine
    → os.body ≡ fails n
    → let part = take n (take (length file) new) in
      let torn = part ++ drop (length part) (file ++ drop (length file) new) in
      (transform os t file ≡ (torn, write_failed))
      × (roll_back true (record os { restore = fine; trim = fine }) file torn ≡ file)
unfolding transform roll_back restored
transform-torn os t file new n e u f =
    let part = take n (take (length file) new) in
    let torn = part ++ drop (length part) (file ++ drop (length file) new) in
    (
      ap (replace os file) e ∙ torn_body os file new n u f,
      resize_end file (drop (length file) torn),
    )
