-- ===== src/Transports/Added.antt =====
-- net/proxy/http_transport.go: the default configuration and the second loop of `Update`.
use go_example.Prelude.{
  Bool, true, false, Option, none, some, [], ◌∷◌, ◌≡◌, ◌⊎◌, inl, inr, refl, sym, ◌∙◌, arith, All,
  if◌then◌else◌, if_elim,
}
use mathlib.Core.Path.{subst}
use go_example.Prelude.Dict.{Str, str_eq, str_eq_iff, lookup, insert, lookup-insert}
use go_example.Transports.{Env, ServersTransport, empty_transport}
use go_example.Transports.Manager.{
  Manager, Configs, make, add, add_all, with_default, default_internal,
}
use go_example.Transports.Refreshed.{IsMap, Made, make_here, make_away, away, here, found_same}

insert-All :
    (k : Str) (v : ServersTransport) (full rest : Configs)
    → lookup k full ≡ none
    → lookup k rest ≡ none
    → All (λ (e : Str × ServersTransport). lookup e.0 full ≡ some e.1) rest
    → All
        (λ (e : Str × ServersTransport). lookup e.0 (insert k v full) ≡ some e.1)
        (insert k v rest)
unfolding insert lookup
insert-All k v full [] f r h = (lookup-insert k k v full ∙ ground (arith, str_eq_iff k k), tt)
insert-All k v full ((j, w) ∷ rest) f r h =
    if_elim (All (λ (e : Str × ServersTransport). lookup e.0 (insert k v full) ≡ some e.1))
      (str_eq j k) (λ e. absurd (let found = here j k w rest e in cc))
      (λ e.
        let ne : str_eq k j ≡ false = ground (arith, str_eq_iff k j, str_eq_iff j k, e) in
        (
          lookup-insert k j v full ∙ rw ne h.0,
          insert-All k v full rest f (sym (away j k w rest e) ∙ r) h.1,
        ))

pub IsMap-with_default :
    (o : Option ServersTransport) (news : Configs)
    → lookup default_internal news ≡ o
    → IsMap news
    → IsMap (with_default o news)
unfolding with_default
IsMap-with_default (some c) news q h = h
IsMap-with_default none news q h = insert-All default_internal empty_transport news news q q h

-- The configuration of a name: its own one, or the default one under the default name.
abbrev pub or_default : Str → Option ServersTransport → Option ServersTransport
or_default n (some c) = some c
or_default n none = if str_eq default_internal n then some empty_transport else none

unfoldable pub wanted : Str → Configs → Option ServersTransport
wanted n news = or_default n (lookup n news)

wanted_there :
    (n : Str) (news : Configs) (c : ServersTransport) (r : Option ServersTransport)
    → lookup default_internal news ≡ some c
    → lookup n news ≡ r
    → r ≡ or_default n r
wanted_there n news c (some d) q e = refl
wanted_there n news c none q e =
    if_elim (λ (x : Option ServersTransport). none ≡ x) (str_eq default_internal n)
      (λ s. absurd (let found = found_same default_internal n news (some c) s q in cc)) (λ _. refl)

wanted_added :
    (n : Str) (news : Configs) (r : Option ServersTransport)
    → lookup default_internal news ≡ none
    → lookup n news ≡ r
    → (if str_eq default_internal n then some empty_transport else r) ≡ or_default n r
wanted_added n news none q e = refl
wanted_added n news (some d) q e =
    if_elim (λ (x : Option ServersTransport). x ≡ some d) (str_eq default_internal n)
      (λ s. absurd (let found = found_same default_internal n news none s q in cc)) (λ _. refl)

pub wanted_lem :
    (n : Str) (news : Configs) (o : Option ServersTransport)
    → lookup default_internal news ≡ o
    → lookup n (with_default o news) ≡ wanted n news
unfolding with_default wanted
wanted_lem n news (some c) q = wanted_there n news c (lookup n news) q refl
wanted_lem n news none q =
    lookup-insert default_internal n empty_transport news
    ∙ wanted_added n news (lookup n news) q refl

module _ (env : Env) where
  -- What is known of a name while the loop over the new configurations has `rest` left.
  abbrev pub After : Configs → Manager → Configs → Str → Type 0
  After news m rest n =
      Made env m n (lookup n news)
      ⊎ ((c : ServersTransport) × (lookup n rest ≡ some c) × (lookup n m.configs ≡ none))

  add_lem :
      (news rest : Configs) (name n : Str) (cfg : ServersTransport) (o : Option ServersTransport)
      (m : Manager) (b : Bool)
      → lookup name news ≡ some cfg
      → lookup name m.configs ≡ o
      → str_eq name n ≡ b
      → After news m ((name, cfg) ∷ rest) n
      → After news (add env name cfg o m) rest n
  unfolding add make
  add_lem news rest name n cfg (some old) m b w q e (inl h) = inl h
  add_lem news rest name n cfg none m true w q e (inl h) = inl (
      subst (Made env (make env name cfg m) n) (sym (found_same name n news (some cfg) e w))
        (make_here env name n cfg m e))
  add_lem news rest name n cfg none m false w q e (inl h) =
      inl (make_away env name n cfg (lookup n news) m e h)
  add_lem news rest name n cfg (some old) m true w q e (inr (c, l, a)) =
      absurd (let both = found_same name n m.configs (some old) e q in cc)
  add_lem news rest name n cfg none m true w q e (inr (c, l, a)) = inl (
      subst (Made env (make env name cfg m) n) (sym (found_same name n news (some cfg) e w))
        (make_here env name n cfg m e))
  add_lem news rest name n cfg (some old) m false w q e (inr (c, l, a)) =
      inr (c, sym (away name n cfg rest e) ∙ l, a)
  add_lem news rest name n cfg none m false w q e (inr (c, l, a)) =
      inr (c, sym (away name n cfg rest e) ∙ l, a)

  pub add_all_lem :
      (news rest : Configs) (m : Manager) (n : Str)
      → All (λ (e : Str × ServersTransport). lookup e.0 news ≡ some e.1) rest
      → After news m rest n
      → Made env (add_all env rest m) n (lookup n news)
  unfolding add_all lookup
  add_all_lem news [] m n w (inl h) = h
  add_all_lem news [] m n w (inr (c, l, a)) = absurd (cc)
  add_all_lem news ((name, cfg) ∷ rest) m n w h =
      add_all_lem news rest (add env name cfg (lookup name m.configs) m) n w.1
        (add_lem news rest name n cfg (lookup name m.configs) m (str_eq name n) w.0 refl refl h)
