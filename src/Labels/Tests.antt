-- ===== src/Labels/Tests.antt =====
-- Runs of yaml/labels.go, and the witnesses of its theorems.
use go_example.Prelude.{List, [], ◌∷◌, ◌≡◌, refl, map, ◌++◌, arith, All}
use go_example.Prelude.Dict.{Str, lookup, str_eq}
use go_example.Labels.{
  Labels, before, is_valid_legacy, all_legacy, is_legacy_char, string, write_labels, label_of,
  from_map, to_map, new, insert_label, str_lt,
}
use go_example.Labels.Encoding.{HasFree, bytes_injective}
use go_example.Labels.Maps.{value_of, IsUnique, IsSorted, to_map-from_map}

abbrev entries : List (Str × Str)
entries = (b'j' ∷ b'b' ∷ [], b'1' ∷ []) ∷ (b'9' ∷ [], b'2' ∷ []) ∷ (b'j' ∷ [], []) ∷ []

abbrev labels : Labels
labels = from_map entries

-- A name that begins with a digit is quoted.
abbrev quote : Str → Str
quote s = b'"' ∷ s ++ (b'"' ∷ [])

string-labels :
    string quote labels
    ≡ b'{' ∷ b'"' ∷ b'9' ∷ b'"' ∷ b'=' ∷ b'"' ∷ b'2' ∷ b'"' ∷ b',' ∷ b' ' ∷ b'j' ∷ b'=' ∷ b'"'
      ∷ b'"' ∷ b',' ∷ b' ' ∷ b'j' ∷ b'b' ∷ b'=' ∷ b'"' ∷ b'1' ∷ b'"' ∷ b'}' ∷ []
unfolding string write_labels before is_valid_legacy all_legacy is_legacy_char from_map new
    insert_label str_lt
string-labels = refl

entries-IsUnique : IsUnique (map label_of entries)
unfolding IsUnique value_of str_eq
entries-IsUnique = (refl, (refl, (refl, tt)))

to_map-from_map_example :
    IsSorted (from_map entries)
    × IsUnique (from_map entries)
    × ((k : Str) → lookup k (to_map (from_map entries)) ≡ lookup k entries)
to_map-from_map_example = to_map-from_map entries entries-IsUnique

abbrev one : Labels
one = record { name = b'a' ∷ []; value = b'x' ∷ [] } ∷ []

one-HasFree : All HasFree one
one-HasFree = (((λ e. ground arith, tt), (λ e. ground arith, tt)), tt)

abbrev built : Labels
built = new one

built-HasFree : All HasFree built
unfolding new insert_label
built-HasFree = one-HasFree

bytes_injective_example : built ≡ one
unfolding new insert_label
bytes_injective_example = bytes_injective built one built-HasFree one-HasFree refl
