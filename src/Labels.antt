-- ===== src/Labels.antt =====
-- yaml/labels.go: sorted sets of labels. The text of `strconv.AppendQuote` and the order in which a
-- Go map yields its entries are parameters.
pub mod Encoding
pub mod Maps
mod Tests
use go_example.Prelude.{
  ℕ, zero, suc, Bool, true, false, ◌&&◌, ◌||◌, Option, some, List, [], ◌∷◌, ◌++◌, map, length,
  get_elem?, set, ltb, leb, ◌==◌, if◌then◌else◌, ◌>>=◌,
}
use go_example.Prelude.Dict.{Str, insert}

pub record Label : Type 0 where
  pub name : Str
  pub value : Str

abbrev pub Labels : Type 0
Labels = List Label

-- `labelSep` and `sep`
abbrev pub label_sep : ℕ
label_sep = 254

abbrev pub sep : ℕ
sep = 255

-- The test of `IsValidLegacy` on the character at an index.
unfoldable pub is_legacy_char : ℕ → ℕ → Bool
is_legacy_char i b =
    leb b'a' b && leb b b'z'
    || leb b'A' b && leb b b'Z'
    || b == b'_'
    || leb b'0' b && leb b b'9' && ltb 0 i

unfoldable pub all_legacy : ℕ → Str → Bool
all_legacy i [] = true
all_legacy i (b ∷ s) = is_legacy_char i b && all_legacy (suc i) s

unfoldable pub is_valid_legacy : Str → Bool
is_valid_legacy [] = false
is_valid_legacy (b ∷ s) = all_legacy 0 (b ∷ s)

-- What stands before the label at an index.
unfoldable pub before : Str → ℕ → Str
before s zero = []
before s (suc i) = s

unfoldable pub write_labels : (Str → Str) → ℕ → Labels → Str
write_labels quote i [] = []
write_labels quote i (l ∷ ls) =
    before (b',' ∷ b' ' ∷ []) i
    ++ (if is_valid_legacy l.name then l.name else quote l.name)
    ++ (b'=' ∷ [])
    ++ quote l.value
    ++ write_labels quote (suc i) ls

-- `String`
unfoldable pub string : (Str → Str) → Labels → Str
string quote ls = b'{' ∷ write_labels quote 0 ls ++ (b'}' ∷ [])

-- The loop of `Bytes`, from an index on.
unfoldable pub bytes_from : ℕ → Labels → Str
bytes_from i [] = []
bytes_from i (l ∷ ls) =
    before (sep ∷ []) i ++ (l.name ++ (sep ∷ (l.value ++ bytes_from (suc i) ls)))

-- `Bytes`; the buffer of the caller is cut to length 0.
unfoldable pub bytes : Labels → Str
bytes ls = label_sep ∷ bytes_from 0 ls

abbrev pub len : Labels → ℕ
len ls = length ls

-- `Swap`; `none` is an index out of range.
unfoldable pub swap : ℕ → ℕ → Labels → Option Labels
swap i j ls = do a ← get_elem? ls i; b ← get_elem? ls j; some (set (set ls i b) j a)

-- `a < b` on strings.
unfoldable pub str_lt : Str → Str → Bool
str_lt s [] = false
str_lt [] (y ∷ t) = true
str_lt (x ∷ s) (y ∷ t) = let rest = str_lt s t in ltb x y || (x == y && rest)

unfoldable pub less : ℕ → ℕ → Labels → Option Bool
less i j ls = do a ← get_elem? ls i; b ← get_elem? ls j; some (str_lt a.name b.name)

-- `Map`
unfoldable pub add_to : Labels → List (Str × Str) → List (Str × Str)
add_to [] m = m
add_to (l ∷ ls) m = add_to ls (insert l.name l.value m)

abbrev pub to_map : Labels → List (Str × Str)
to_map ls = add_to ls []

-- `slices.SortFunc` by the names.
unfoldable pub insert_label : Label → Labels → Labels
insert_label l [] = l ∷ []
insert_label l (k ∷ ls) =
    let rest = insert_label l ls in if str_lt k.name l.name then k ∷ rest else l ∷ k ∷ ls

unfoldable pub new : Labels → Labels
new [] = []
new (l ∷ ls) = insert_label l (new ls)

-- The label of an entry of a map.
abbrev pub label_of : Str × Str → Label
label_of (k, v) = record { name = k; value = v }

-- `FromMap`, for the entries in the order in which the map yields them.
unfoldable pub from_map : List (Str × Str) → Labels
from_map m = new (map label_of m)
