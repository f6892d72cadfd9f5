-- ===== src/Transports/Refreshed.antt =====
-- net/proxy/http_transport.go: the first loop of `Update`.
use go_example.Prelude.{
  Bool, true, false, Option, none, some, [], ◌∷◌, ◌≡◌, ◌⊎◌, inl, inr, refl, sym, ap, ◌∙◌, All,
  if_elim,
}
use mathlib.Core.Path.{subst}
use go_example.Prelude.Dict.{Str, str_eq, str_eq_iff, lookup, lookup-insert, lookup-delete}
use go_example.Transports.{Env, TlsConfig, ServersTransport, create_tls_config}
use go_example.Transports.Manager.{
  Manager, RoundTripper, Configs, create_round_tripper, or_nil, make, refresh, refresh_all,
}

-- Each entry of a map is the one that its key finds.
abbrev pub IsMap : Configs → Type 0
IsMap m = All (λ (e : Str × ServersTransport). lookup e.0 m ≡ some e.1) m

pub away :
    (name n : Str) (cfg : ServersTransport) (rest : Configs)
    → str_eq name n ≡ false
    → lookup n ((name, cfg) ∷ rest) ≡ lookup n rest
unfolding lookup
away name n cfg rest e = rw e

pub here :
    (name n : Str) (cfg : ServersTransport) (rest : Configs)
    → str_eq name n ≡ true
    → lookup n ((name, cfg) ∷ rest) ≡ some cfg
unfolding lookup
here name n cfg rest e = rw e

pub found_same :
    (name n : Str) (news : Configs) (o : Option ServersTransport)
    → str_eq name n ≡ true
    → lookup name news ≡ o
    → lookup n news ≡ o
found_same name n news o e q = ap (λ k. lookup k news) (sym ((str_eq_iff name n).0 e)) ∙ q

module _ (env : Env) where
  -- What is made for a configuration.
  abbrev pub tls_for : Option ServersTransport → Option (Option TlsConfig)
  tls_for none = none
  tls_for (some cfg) = some (or_nil (create_tls_config env cfg))

  abbrev pub round_tripper_for : Option ServersTransport → Option RoundTripper
  round_tripper_for none = none
  round_tripper_for (some cfg) =
      some (create_round_tripper cfg (or_nil (create_tls_config env cfg)))

  abbrev pub Made : Manager → Str → Option ServersTransport → Type 0
  Made m n o =
      (lookup n m.round_trippers ≡ round_tripper_for o) × (lookup n m.tls_configs ≡ tls_for o)

  -- The round trippers and the TLS configurations are those of the configurations.
  abbrev pub IsCoherent : Manager → Type 0
  IsCoherent m = (n : Str) → Made m n (lookup n m.configs)

  pub make_here :
      (name n : Str) (cfg : ServersTransport) (m : Manager)
      → str_eq name n ≡ true
      → Made (make env name cfg m) n (some cfg)
  unfolding make
  make_here name n cfg m e =
      let tls = or_nil (create_tls_config env cfg) in
      (
        lookup-insert name n (create_round_tripper cfg tls) m.round_trippers ∙ rw e,
        lookup-insert name n tls m.tls_configs ∙ rw e,
      )

  pub make_away :
      (name n : Str) (cfg : ServersTransport) (o : Option ServersTransport) (m : Manager)
      → str_eq name n ≡ false
      → Made m n o
      → Made (make env name cfg m) n o
  unfolding make
  make_away name n cfg o m e h =
      let tls = or_nil (create_tls_config env cfg) in
      (
        lookup-insert name n (create_round_tripper cfg tls) m.round_trippers ∙ rw e h.0,
        lookup-insert name n tls m.tls_configs ∙ rw e h.1,
      )

  module _ (deep_equal : ServersTransport → ServersTransport → Bool)
      (equal : (a b : ServersTransport) → deep_equal a b ≡ true → a ≡ b) where
    -- What is known of a name while the loop over the old configurations has `rest` left.
    abbrev pub Before : Configs → Configs → Manager → Configs → Str → Type 0
    Before news olds m rest n =
        Made m n (lookup n news)
        ⊎ (((c : ServersTransport) × (lookup n rest ≡ some c) × Made m n (some c))
            ⊎ ((lookup n olds ≡ none) × Made m n none))

    -- A step that does not touch the name.
    shift :
        (news olds rest : Configs) (name n : Str) (cfg : ServersTransport) (m m' : Manager)
        → str_eq name n ≡ false
        → ((o : Option ServersTransport) → Made m n o → Made m' n o)
        → Before news olds m ((name, cfg) ∷ rest) n
        → Before news olds m' rest n
    shift news olds rest name n cfg m m' e k (inl h) = inl (k (lookup n news) h)
    shift news olds rest name n cfg m m' e k (inr (inl (c, l, h))) =
        inr (inl (c, sym (away name n cfg rest e) ∙ l, k (some c) h))
    shift news olds rest name n cfg m m' e k (inr (inr (a, h))) = inr (inr (a, k none h))

    refresh_none :
        (name n : Str) (cfg : ServersTransport) (m : Manager)
        → str_eq name n ≡ true
        → Made (refresh env deep_equal name cfg none m) n none
    unfolding refresh
    refresh_none name n cfg m e =
        (lookup-delete name n m.round_trippers ∙ rw e, lookup-delete name n m.tls_configs ∙ rw e)

    refresh_none_away :
        (name n : Str) (cfg : ServersTransport) (m : Manager) (o : Option ServersTransport)
        → str_eq name n ≡ false
        → Made m n o
        → Made (refresh env deep_equal name cfg none m) n o
    unfolding refresh
    refresh_none_away name n cfg m o e h = (
      lookup-delete name n m.round_trippers ∙ rw e h.0,
      lookup-delete name n m.tls_configs ∙ rw e h.1,
    )

    -- An unchanged configuration was made.
    kept :
        (news olds rest : Configs) (name n : Str) (cfg new : ServersTransport) (m : Manager)
        → str_eq name n ≡ true
        → new ≡ cfg
        → lookup name news ≡ some new
        → lookup name olds ≡ some cfg
        → Before news olds m ((name, cfg) ∷ rest) n
        → Made m n (lookup n news)
    kept news olds rest name n cfg new m e s q w (inl h) = h
    kept news olds rest name n cfg new m e s q w (inr (inl (c, l, h))) =
        subst (Made m n)
          (sym l
            ∙ here name n cfg rest e
            ∙ ap some (sym s)
            ∙ sym (found_same name n news (some new) e q))
          h
    kept news olds rest name n cfg new m e s q w (inr (inr (a, h))) =
        absurd (let both = found_same name n olds (some cfg) e w in cc)

    refresh_lem :
        (news olds rest : Configs) (name n : Str) (cfg : ServersTransport)
        (o : Option ServersTransport) (m : Manager) (b : Bool)
        → lookup name news ≡ o
        → lookup name olds ≡ some cfg
        → str_eq name n ≡ b
        → Before news olds m ((name, cfg) ∷ rest) n
        → Before news olds (refresh env deep_equal name cfg o m) rest n
    unfolding refresh
    refresh_lem news olds rest name n cfg none m true q w e h = inl (
        subst (Made (refresh env deep_equal name cfg none m) n)
          (sym (found_same name n news none e q)) (refresh_none name n cfg m e))
    refresh_lem news olds rest name n cfg none m false q w e h =
        shift news olds rest name n cfg m (refresh env deep_equal name cfg none m) e
          (λ o. refresh_none_away name n cfg m o e) h
    refresh_lem news olds rest name n cfg (some new) m true q w e h =
        if_elim (λ m'. Before news olds m' rest n) (deep_equal new cfg)
          (λ s. inl (kept news olds rest name n cfg new m e (equal new cfg s) q w h))
          (λ _. inl (
            subst (Made (make env name new m) n) (sym (found_same name n news (some new) e q))
              (make_here name n new m e)))
    refresh_lem news olds rest name n cfg (some new) m false q w e h =
        if_elim (λ m'. Before news olds m' rest n) (deep_equal new cfg)
          (λ s. shift news olds rest name n cfg m m e (λ o k. k) h)
          (λ _.
            shift news olds rest name n cfg m (make env name new m) e
              (λ o. make_away name n new o m e) h)

    pub refresh_all_lem :
        (news olds rest : Configs) (m : Manager) (n : Str)
        → All (λ (e : Str × ServersTransport). lookup e.0 olds ≡ some e.1) rest
        → Before news olds m rest n
        → Before news olds (refresh_all env deep_equal news rest m) [] n
    unfolding refresh_all
    refresh_all_lem news olds [] m n w h = h
    refresh_all_lem news olds ((name, cfg) ∷ rest) m n w h =
        refresh_all_lem news olds rest (refresh env deep_equal name cfg (lookup name news) m) n w.1
          (refresh_lem news olds rest name n cfg (lookup name news) m (str_eq name n) refl w.0 refl
            h)

    -- The configurations that stay are found as before.
    refresh_configs :
        (name n : Str) (cfg : ServersTransport) (news : Configs) (o : Option ServersTransport)
        (m : Manager) (b : Bool)
        → lookup name news ≡ o
        → str_eq name n ≡ b
        → (c : ServersTransport) → lookup n news ≡ some c
        → lookup n (refresh env deep_equal name cfg o m).configs ≡ lookup n m.configs
    unfolding refresh make
    refresh_configs name n cfg news none m true q e c f =
        absurd (let none_there = found_same name n news none e q in cc)
    refresh_configs name n cfg news none m false q e c f = lookup-delete name n m.configs ∙ rw e
    refresh_configs name n cfg news (some new) m b q e c f =
        if_elim (λ (m' : Manager). lookup n m'.configs ≡ lookup n m.configs) (deep_equal new cfg)
          (λ _. refl) (λ _. refl)

    pub refresh_all_configs :
        (news rest : Configs) (m : Manager) (n : Str) (c : ServersTransport)
        → lookup n news ≡ some c
        → lookup n (refresh_all env deep_equal news rest m).configs ≡ lookup n m.configs
    unfolding refresh_all
    refresh_all_configs news [] m n c f = refl
    refresh_all_configs news ((name, cfg) ∷ rest) m n c f =
        refresh_all_configs news rest (refresh env deep_equal name cfg (lookup name news) m) n c f
        ∙ refresh_configs name n cfg news (lookup name news) m (str_eq name n) refl refl c f
