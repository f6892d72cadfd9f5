-- ===== src/Group/Tests.antt =====
-- A group of gocache/lrucache on concrete data, and the witnesses of its theorems.
use go_example.Prelude.{◌≡◌, refl, none, some, [], ◌∷◌, ◌==◌, if◌then◌else◌}
use go_example.Prelude.Dict.{insert}
use go_example.Prelude.Int.{pos}
use go_example.Group.{Getter, bytes, failed, Group, new_group, get}
use go_example.Group.Reads.{IsValid, reply_of, get-reply_of}

-- Every key has two bytes, but for those that begin with a question mark.
abbrev source : Getter
source [] = bytes []
source (c ∷ key) = if c == b'?' then failed key else bytes (c ∷ c ∷ [])

abbrev scores : Group
scores = record {
  name = b's' ∷ [];
  getter = source;
  main_cache = record { lru = none; cache_bytes = pos 64 };
}

scores-IsValid : IsValid source 64 scores
scores-IsValid = record { getter = refl; limit = refl; ready = tt }

made : new_group [] (b's' ∷ []) (pos 64) (some source) ≡ some ((b's' ∷ [], scores) ∷ [], scores)
unfolding new_group insert
made = refl

get-reply_of_example :
    (g' : Group) × (get scores (b'x' ∷ []) ≡ some (g', reply_of source (source (b'x' ∷ []))))
    × IsValid source 64 g'
get-reply_of_example = get-reply_of source 64 scores b'x' [] scores-IsValid
