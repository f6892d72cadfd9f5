-- ===== src/Lru/Limits.antt =====
-- gocache/lrucache/lru/lru.go with a limit below zero: the loop of `Add` does not end.
use go_example.Prelude.{
  ℕ, zero, suc, ◌≡◌, refl, ◌∙◌, inl, inr, true, none, some, arith, lt→ltb, Option-cases,
}
use go_example.Prelude.Dict.{Str, lookup}
use go_example.Prelude.Int.{negsuc}
use go_example.Lru.{Cache, Element, back, unlink, remove_oldest, push_front, is_over, evict, add}
use go_example.Lru.Invariant.{IsValid, oldest_lem}
use go_example.Lru.Calls.{add_miss, push_front-IsValid}

module _ {V : Type 0} (size : V → ℕ) where
  is_over_negative :
      (c : Cache V) (n : ℕ) → c.max_bytes ≡ negsuc n → IsValid size c → is_over size c ≡ true
  unfolding is_over
  is_over_negative c n e v = rw (e, v.bytes) (lt→ltb 0 _ (omega arith))

  step_empty :
      (fuel : ℕ) (c : Cache V)
      → is_over size c ≡ true
      → back c.ll ≡ none
      → evict size (suc fuel) c ≡ evict size fuel c
  unfolding evict remove_oldest
  step_empty fuel c h b = ground arith

  step_entry :
      (fuel : ℕ) (c : Cache V) {e : Element V}
      → is_over size c ≡ true
      → back c.ll ≡ some e
      → evict size (suc fuel) c ≡ evict size fuel (unlink size e c)
  unfolding evict remove_oldest
  step_entry fuel c h b = ground arith

  evict_negative :
      (fuel : ℕ) (c : Cache V) (n : ℕ)
      → c.max_bytes ≡ negsuc n
      → IsValid size c
      → evict size fuel c ≡ none
  unfolding evict
  evict_negative zero c n e v = refl
  evict_negative (suc fuel) c n e v = elim (Option-cases (back c.ll)) [
    | inl b ↦ step_empty fuel c (is_over_negative c n e v) b ∙ evict_negative fuel c n e v
    | inr (x, b) ↦
        let o = oldest_lem size c b v in
        step_entry fuel c (is_over_negative c n e v) b
        ∙ evict_negative fuel (unlink size x c) n (o.limit ∙ e) o.valid
  ]

  -- Where `maxBytes` is below zero, `Add` of a new key does not end: no number of rounds of its
  -- loop is enough, on any valid cache.
  add_negative :
      (fuel n : ℕ) (c : Cache V) (k : Str) (v : V)
      → c.max_bytes ≡ negsuc n
      → lookup k c.cache ≡ none
      → IsValid size c
      → add size fuel c k v ≡ none
  unfolding push_front
  add_negative fuel n c k v e miss a =
      add_miss size fuel c k v miss
      ∙ evict_negative fuel (push_front size c k v) n e (push_front-IsValid size c k v miss a)
