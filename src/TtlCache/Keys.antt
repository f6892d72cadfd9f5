-- ===== src/TtlCache/Keys.antt =====
-- The items of the expiring cache of go_cache_strategy by their keys, after each of its steps.
use go_example.Prelude.{Option, none, some, List, [], ◌∷◌, if◌then◌else◌, ◌≡◌, refl, arith}
use go_example.Prelude.Dict.{
  Str, str_eq, str_eq_iff, lookup, insert, delete, lookup-insert, lookup-delete,
}
use go_example.Prelude.Int.{ℤ, ◌≤ℤ◌}
use go_example.TtlCache.{Item, TtlCache, fresh, is_expired, lazy_delete, drop_expired}

module _ {V : Type 0} where
  -- No key has two items, as in every Go map.
  unfoldable pub IsDistinct : List (Str × Item V) → Type 0
  IsDistinct [] = Unit
  IsDistinct ((key, item) ∷ items) = (lookup key items ≡ none) × IsDistinct items

  -- An item, unless it has expired.
  unfoldable pub keep : ℤ → Option (Item V) → Option (Item V)
  keep now none = none
  keep now (some item) = if is_expired now item then none else some item

  -- What has expired at a time is not fresh at a later one.
  pub fresh-keep : (now t : ℤ) (o : Option (Item V)) → now ≤ℤ t → fresh t (keep now o) ≡ fresh t o
  unfolding fresh keep is_expired
  fresh-keep now t none h = refl
  fresh-keep now t (some item) h = ground arith

  lookup-drop_expired-none :
      (now : ℤ) (key : Str) (items : List (Str × Item V))
      → lookup key items ≡ none
      → lookup key (drop_expired now items) ≡ none
  unfolding lookup drop_expired
  lookup-drop_expired-none now key [] h = refl
  lookup-drop_expired-none now key ((k, item) ∷ items) h =
      ground (arith, lookup-drop_expired-none now key items)

  pub lookup-drop_expired :
      (now : ℤ) (key : Str) (items : List (Str × Item V))
      → IsDistinct items
      → lookup key (drop_expired now items) ≡ keep now (lookup key items)
  unfolding lookup drop_expired IsDistinct keep
  lookup-drop_expired now key [] h = refl
  lookup-drop_expired now key ((k, item) ∷ items) (new, h) = ground (
    arith,
    str_eq_iff k key,
    lookup-drop_expired now key items h,
    lookup-drop_expired-none now k items new,
  )

  pub drop_expired-IsDistinct :
      (now : ℤ) (items : List (Str × Item V))
      → IsDistinct items
      → IsDistinct (drop_expired now items)
  unfolding drop_expired IsDistinct
  drop_expired-IsDistinct now [] h = h
  drop_expired-IsDistinct now ((k, item) ∷ items) (new, h) =
      ground (arith, drop_expired-IsDistinct now items h, lookup-drop_expired-none now k items new)

  pub insert-IsDistinct :
      (key : Str) (item : Item V) (items : List (Str × Item V))
      → IsDistinct items
      → IsDistinct (insert key item items)
  unfolding insert IsDistinct lookup
  insert-IsDistinct key item [] h = (refl, tt)
  insert-IsDistinct key item ((k, i) ∷ items) (new, h) = ground (
    arith,
    str_eq_iff k key,
    str_eq_iff key k,
    lookup-insert key k item items,
    insert-IsDistinct key item items h,
  )

  pub delete-IsDistinct :
      (key : Str) (items : List (Str × Item V)) → IsDistinct items → IsDistinct (delete key items)
  unfolding delete IsDistinct
  delete-IsDistinct key [] h = h
  delete-IsDistinct key ((k, i) ∷ items) (new, h) =
      ground (arith, lookup-delete key k items, delete-IsDistinct key items h)

  pub lookup-lazy_delete :
      (now : ℤ) (key j : Str) (c : TtlCache V)
      → lookup j (lazy_delete now key c).items
        ≡ (if str_eq key j then keep now (lookup j c.items) else lookup j c.items)
  unfolding lazy_delete keep
  lookup-lazy_delete now key j c = ground (arith, str_eq_iff key j, lookup-delete key j c.items)

  pub lazy_delete-IsDistinct :
      (now : ℤ) (key : Str) (c : TtlCache V)
      → IsDistinct c.items
      → IsDistinct (lazy_delete now key c).items
  unfolding lazy_delete
  lazy_delete-IsDistinct now key c h = ground (arith, delete-IsDistinct key c.items h)
