-- ===== src/Lru/Hit.antt =====
-- The element that the map of a cache of gocache/lrucache/lru/lru.go has for a key, and the list
-- without it.
use go_example.Prelude.{
  ℕ, ◌+◌, ◌≡◌, refl, sym, ap, ◌≢◌, inl, inr, false, none, some, List, [], ◌∷◌, arith, ◌==◌,
  if◌then◌else◌, ==_iff, Bool-cases, length, some_inj, ne→==_false,
}
use go_example.Prelude.Dict.{Str, str_eq, str_eq_iff, str_ne, lookup, delete}
use mathlib.Core.Path.{subst}
use go_example.Lru.{Element, find, remove}
use go_example.Lru.Elements.{pairs, id_of, IsFresh, IsDistinct}
use go_example.Lru.Invariant.{IsBelow, total}

module _ {V : Type 0} where
  pub record Hit (k : Str) (p : ℕ) (l : List (Element V)) : Type 0 where
    pub value : V
    pub found : find p l ≡ some (record { id = p; key = k; value = value })
    pub read : lookup k (pairs l) ≡ some value
    pub rest : pairs (remove p l) ≡ delete k (pairs l)
    pub others : (j : Str) → k ≢ j → id_of j (remove p l) ≡ id_of j l
    pub apart : IsFresh k p (remove p l)

  IsFresh-id_of :
      (j k : Str) (q p : ℕ) (l : List (Element V)) → IsFresh j q l → id_of k l ≡ some p → q ≢ p
  unfolding id_of
  IsFresh-id_of j k q p [] f h = absurd (cc)
  IsFresh-id_of j k q p (x ∷ l) f h = ground (arith, IsFresh-id_of j k q p l f.2)

  IsFresh-key : (k : Str) (q : ℕ) (l : List (Element V)) → IsFresh k q l → id_of k l ≡ none
  unfolding id_of
  IsFresh-key k q [] f = refl
  IsFresh-key k q (x ∷ l) f = ground (arith, str_eq_iff x.key k, IsFresh-key k q l f.2)

  pub id_of-lookup : (k : Str) (l : List (Element V)) → id_of k l ≡ none → lookup k (pairs l) ≡ none
  unfolding id_of lookup
  id_of-lookup k [] h = refl
  id_of-lookup k (x ∷ l) h = ground (arith, id_of-lookup k l)

  -- A key that the map does not have, and a pointer above all in use, are fresh.
  pub IsFresh-new :
      (k : Str) (n : ℕ) (l : List (Element V)) → id_of k l ≡ none → IsBelow n l → IsFresh k n l
  unfolding id_of
  IsFresh-new k n [] h b = tt
  IsFresh-new k n (x ∷ l) h b = ground (arith, str_eq_iff x.key k, IsFresh-new k n l)

  delete_fresh :
      (k : Str) (q : ℕ) (l : List (Element V)) → IsFresh k q l → delete k (pairs l) ≡ pairs l
  unfolding delete
  delete_fresh k q [] f = refl
  delete_fresh k q (x ∷ l) f = ground (arith, str_eq_iff x.key k, delete_fresh k q l f.2)

  IsFresh-remove :
      (j : Str) (q p : ℕ) (l : List (Element V)) → IsFresh j q l → IsFresh j q (remove p l)
  unfolding remove
  IsFresh-remove j q p [] f = tt
  IsFresh-remove j q p (x ∷ l) f = elim (Bool-cases (x.id == p)) [
    | inl e ↦ rw e f.2
    | inr e ↦ rw e (f.0, f.1, IsFresh-remove j q p l f.2)
  ]

  pub IsDistinct-remove : (p : ℕ) (l : List (Element V)) → IsDistinct l → IsDistinct (remove p l)
  unfolding remove
  IsDistinct-remove p [] d = tt
  IsDistinct-remove p (x ∷ l) d = elim (Bool-cases (x.id == p)) [
    | inl e ↦ rw e d.1
    | inr e ↦ rw e (IsFresh-remove x.key x.id p l d.0, IsDistinct-remove p l d.1)
  ]

  pub IsBelow-remove : (n p : ℕ) (l : List (Element V)) → IsBelow n l → IsBelow n (remove p l)
  unfolding remove
  IsBelow-remove n p [] b = tt
  IsBelow-remove n p (x ∷ l) b = elim (Bool-cases (x.id == p)) [
    | inl e ↦ rw e b.1
    | inr e ↦ rw e (b.0, IsBelow-remove n p l b.1)
  ]

  here : (x : Element V) (l : List (Element V)) → IsFresh x.key x.id l → Hit x.key x.id (x ∷ l)
  unfolding find remove lookup delete id_of
  here x l f =
      let same = (==_iff x.id x.id).1 refl in
      let key = (str_eq_iff x.key x.key).1 refl in
      record {
        value = x.value;
        found = rw same;
        read = rw key;
        rest = rw (same, key) (sym (delete_fresh x.key x.id l f));
        others = λ j ne. rw same (ground (arith, str_eq_iff x.key j));
        apart = rw same f;
      }

  there :
      (x : Element V) (k : Str) (p : ℕ) (l : List (Element V))
      → str_eq x.key k ≡ false
      → x.id ≢ p
      → Hit k p l
      → Hit k p (x ∷ l)
  unfolding find remove lookup delete id_of
  there x k p l ne other h =
      let diff = ne→==_false x.id p other in
      record {
        value = h.value;
        found = rw diff h.found;
        read = rw ne h.read;
        rest = rw (diff, ne) (ap (◌∷◌ (x.key, x.value)) h.rest);
        others = λ j n. rw diff (ap (λ r. if str_eq x.key j then some x.id else r) (h.others j n));
        apart = rw diff (str_ne x.key k ne, λ e. other (sym e), h.apart);
      }

  pub hit : (k : Str) (p : ℕ) (l : List (Element V)) → IsDistinct l → id_of k l ≡ some p → Hit k p l
  unfolding id_of
  hit k p [] d h = absurd (cc)
  hit k p (x ∷ l) d h = elim (Bool-cases (str_eq x.key k)) [
    | inl e ↦
        let same : x.id ≡ p = ground arith in
        subst (λ j. Hit j p (x ∷ l)) ((str_eq_iff x.key k).0 e)
          (subst (λ q. Hit x.key q (x ∷ l)) same (here x l d.0))
    | inr e ↦
        let h' : id_of k l ≡ some p = rw e at h in
        there x k p l e (IsFresh-id_of x.key k x.id p l d.0 h') (hit k p l d.1 h')
  ]

  pub total-remove :
      (size : V → ℕ) (p : ℕ) (l : List (Element V)) {e : Element V}
      → find p l ≡ some e
      → total size (pairs (remove p l)) + (length e.key + size e.value) ≡ total size (pairs l)
  unfolding find remove
  total-remove size p [] h = absurd (cc)
  total-remove size p (x ∷ l) {e} h = elim (Bool-cases (x.id == p)) [
    | inl t ↦
        let h' : some x ≡ some e = rw t at h in
        rw t (
          subst
            (λ y. total size (pairs l) + (length y.key + size y.value) ≡ total size (pairs (x ∷ l)))
            (some_inj h') (omega arith))
    | inr t ↦ rw t (omega (arith, total-remove size p l (rw t at h)))
  ]
