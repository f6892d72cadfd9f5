-- ===== src/Labels/Maps.antt =====
-- yaml/labels.go: labels from a map and the map of labels.
use go_example.Prelude.{
  true, false, Option, none, some, List, [], ◌∷◌, map, if◌then◌else◌, ◌≡◌, refl, ap, ◌∙◌, arith,
}
use go_example.Prelude.Dict.{Str, str_eq, str_eq_iff, lookup, insert, lookup-insert}
use go_example.Labels.{Label, Labels, str_lt, insert_label, new, label_of, from_map, add_to, to_map}

-- The value of the first label of a name.
unfoldable pub value_of : Str → Labels → Option Str
value_of k [] = none
value_of k (l ∷ ls) = if str_eq l.name k then some l.value else value_of k ls

-- No two labels have one name.
unfoldable pub IsUnique : Labels → Type 0
IsUnique [] = Unit
IsUnique (l ∷ ls) = (value_of l.name ls ≡ none) × IsUnique ls

-- No label is less than the one before it.
unfoldable pub IsSorted : Labels → Type 0
IsSorted [] = Unit
IsSorted (l ∷ []) = Unit
IsSorted (l ∷ k ∷ ls) = (str_lt k.name l.name ≡ false) × IsSorted (k ∷ ls)

str_lt_asym : (s t : Str) → str_lt s t ≡ true → str_lt t s ≡ false
unfolding str_lt
str_lt_asym [] [] h = refl
str_lt_asym [] (y ∷ t) h = refl
str_lt_asym (x ∷ s) [] h = ground arith
str_lt_asym (x ∷ s) (y ∷ t) h = ground (arith, str_lt_asym s t)

value_of-insert_label :
    (k : Str) (l : Label) (ls : Labels)
    → value_of l.name ls ≡ none
    → value_of k (insert_label l ls) ≡ (if str_eq l.name k then some l.value else value_of k ls)
unfolding value_of insert_label
value_of-insert_label k l [] h = refl
value_of-insert_label k l (x ∷ ls) h = ground (
  arith,
  value_of-insert_label k l ls,
  str_eq_iff l.name k,
  str_eq_iff x.name k,
  str_eq_iff x.name l.name,
)

value_of-new : (k : Str) (ls : Labels) → IsUnique ls → value_of k (new ls) ≡ value_of k ls
unfolding value_of new IsUnique
value_of-new k [] h = refl
value_of-new k (l ∷ ls) (n, u) =
    value_of-insert_label k l (new ls) (value_of-new l.name ls u ∙ n)
    ∙ ap (λ o. if str_eq l.name k then some l.value else o) (value_of-new k ls u)

insert_label-IsUnique :
    (l : Label) (ls : Labels)
    → value_of l.name ls ≡ none
    → IsUnique ls
    → IsUnique (insert_label l ls)
unfolding insert_label IsUnique value_of
insert_label-IsUnique l [] h u = (refl, tt)
insert_label-IsUnique l (x ∷ ls) h (n, u) = ground (
  arith,
  value_of-insert_label x.name l ls,
  insert_label-IsUnique l ls,
  str_eq_iff l.name x.name,
  str_eq_iff x.name l.name,
)

new-IsUnique : (ls : Labels) → IsUnique ls → IsUnique (new ls)
unfolding new IsUnique
new-IsUnique [] u = u
new-IsUnique (l ∷ ls) (n, u) =
    insert_label-IsUnique l (new ls) (value_of-new l.name ls u ∙ n) (new-IsUnique ls u)

insert_label-IsSorted : (l : Label) (ls : Labels) → IsSorted ls → IsSorted (insert_label l ls)
unfolding insert_label IsSorted
insert_label-IsSorted l [] s = tt
insert_label-IsSorted l (x ∷ []) s = ground (arith, str_lt_asym x.name l.name)
insert_label-IsSorted l (x ∷ y ∷ ls) (h, s) =
    ground (arith, str_lt_asym x.name l.name, insert_label-IsSorted l (y ∷ ls) s, h, s)

new-IsSorted : (ls : Labels) → IsSorted (new ls)
unfolding new IsSorted
new-IsSorted [] = tt
new-IsSorted (l ∷ ls) = insert_label-IsSorted l (new ls) (new-IsSorted ls)

lookup-add_to :
    (k : Str) (ls : Labels) (m : List (Str × Str))
    → IsUnique ls
    → lookup k (add_to ls m) ≡ (elim (value_of k ls) [ some v ↦ some v | none ↦ lookup k m ])
unfolding add_to value_of IsUnique
lookup-add_to k [] m u = refl
lookup-add_to k (l ∷ ls) m (n, u) = ground (
  arith,
  lookup-add_to k ls (insert l.name l.value m) u,
  lookup-insert l.name k l.value m,
  str_eq_iff l.name k,
  n,
)

some_or_none : (o : Option Str) → (elim o [ some v ↦ some v | none ↦ none ]) ≡ o
some_or_none none = refl
some_or_none (some v) = refl

value_of-map : (k : Str) (m : List (Str × Str)) → value_of k (map label_of m) ≡ lookup k m
unfolding value_of lookup
value_of-map k [] = refl
value_of-map k ((j, v) ∷ m) = ap (λ o. if str_eq j k then some v else o) (value_of-map k m)

lookup-to_map : (k : Str) (ls : Labels) → IsUnique ls → lookup k (to_map ls) ≡ value_of k ls
unfolding lookup
lookup-to_map k ls u = lookup-add_to k ls [] u ∙ some_or_none (value_of k ls)

-- For the entries of a map, each key once and in any order, `FromMap` yields labels that are sorted
-- by their names, no name twice, and `Map` of them has for every key what the map has.
pub to_map-from_map :
    (m : List (Str × Str))
    → IsUnique (map label_of m)
    → IsSorted (from_map m)
      × IsUnique (from_map m)
      × ((k : Str) → lookup k (to_map (from_map m)) ≡ lookup k m)
unfolding from_map
to_map-from_map m u =
    let ls = map label_of m in
    (
      new-IsSorted ls,
      new-IsUnique ls u,
      λ k. lookup-to_map k (new ls) (new-IsUnique ls u) ∙ value_of-new k ls u ∙ value_of-map k m,
    )
