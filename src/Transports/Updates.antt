-- ===== src/Transports/Updates.antt =====
-- net/proxy/http_transport.go: what `Update` leaves in the maps of the manager.
use go_example.Prelude.{
  ℕ, suc, Bool, true, Option, none, some, List, [], ◌∷◌, ◌≡◌, inl, inr, refl, sym, ap, ◌∙◌, arith,
  All,
}
use mathlib.Core.Path.{subst}
use go_example.Prelude.Dict.{Str, str_eq_iff, lookup, lookup-insert}
use go_example.Transports.{Env, ServersTransport, empty_transport, version_of}
use go_example.Transports.Tls.{min_version-nil}
use go_example.Transports.Manager.{
  Manager, Configs, refresh_all, with_default, install, update, new_manager, default_internal,
  create_round_tripper, get_round_tripper, get_tls_config, name_of,
}
use go_example.Transports.Refreshed.{
  IsMap, tls_for, round_tripper_for, Made, IsCoherent, Before, refresh_all_lem, refresh_all_configs,
}
use go_example.Transports.Added.{After, add_all_lem, IsMap-with_default, wanted, wanted_lem}

module _ (env : Env) where
  module _ (deep_equal : ServersTransport → ServersTransport → Bool)
      (equal : (a b : ServersTransport) → deep_equal a b ≡ true → a ≡ b) where
    -- Between the two loops.
    between :
        (news : Configs) (m m' : Manager) (n : Str) (o : Option ServersTransport)
        → lookup n news ≡ o
        → ((c : ServersTransport) → o ≡ some c → lookup n m'.configs ≡ lookup n m.configs)
        → Before env deep_equal equal news m.configs m' [] n
        → After env news m' news n
    unfolding lookup
    between news m m' n o q k (inl h) = inl h
    between news m m' n o q k (inr (inl (c, l, h))) = absurd (cc)
    between news m m' n none q k (inr (inr (a, h))) = inl (subst (Made env m' n) (sym q) h)
    between news m m' n (some c) q k (inr (inr (a, h))) = inr (c, q, k c refl ∙ a)

    start :
        (news : Configs) (m : Manager) (n : Str) (o : Option ServersTransport)
        → lookup n m.configs ≡ o
        → Made env m n o
        → Before env deep_equal equal news m.configs m m.configs n
    start news m n none q h = inr (inr (q, h))
    start news m n (some c) q h = inr (inl (c, q, h))

    install-IsCoherent :
        (news : Configs) (m : Manager)
        → IsMap news
        → IsMap m.configs
        → IsCoherent env m
        → IsCoherent env (install env deep_equal news m)
    unfolding install
    install-IsCoherent news m w v h n =
        let m' = refresh_all env deep_equal news m.configs m in
        add_all_lem env news news m' n w (
          between news m m' n (lookup n news) refl
            (λ c f. refresh_all_configs env deep_equal equal news m.configs m n c f)
            (refresh_all_lem env deep_equal equal news m.configs m.configs m n v
              (start news m n (lookup n m.configs) refl (h n))))

    -- Calls of `Update` after `NewHTTPTransportManager`.
    unfoldable pub updates : List Configs → Manager → Manager
    updates [] m = m
    updates (news ∷ rest) m = updates rest (update env deep_equal news m)

    abbrev Sound : Manager → Type 0
    Sound m =
        IsMap m.configs
        × IsCoherent env m
        × ((c : ServersTransport) × (lookup default_internal m.configs ≡ some c))

    has_default :
        (o : Option ServersTransport) (news : Configs)
        → lookup default_internal news ≡ o
        → (c : ServersTransport) × (lookup default_internal (with_default o news) ≡ some c)
    unfolding with_default
    has_default (some c) news q = (c, q)
    has_default none news q = (
      empty_transport,
      lookup-insert default_internal default_internal empty_transport news
          ∙ ground (arith, str_eq_iff default_internal default_internal),
    )

    update-Sound :
        (news : Configs) (m : Manager)
        → IsMap news
        → IsMap m.configs
        → IsCoherent env m
        → Sound (update env deep_equal news m)
    unfolding update install with_default
    update-Sound news m w v h =
        let full = with_default (lookup default_internal news) news in
        let map = IsMap-with_default (lookup default_internal news) news refl w in
        (
          map,
          install-IsCoherent full m map v h,
          has_default (lookup default_internal news) news refl,
        )

    updates-Sound :
        (rest : List Configs) (m : Manager) → All IsMap rest → Sound m → Sound (updates rest m)
    unfolding updates
    updates-Sound [] m w s = s
    updates-Sound (news ∷ rest) m w s =
        updates-Sound rest (update env deep_equal news m) w.1 (update-Sound news m w.0 s.0 s.1)

    new_manager-Sound : Sound (new_manager env deep_equal)
    unfolding new_manager lookup
    new_manager-Sound =
        update-Sound ((default_internal, empty_transport) ∷ [])
          (record { round_trippers = []; configs = []; tls_configs = [] })
          (rw ((str_eq_iff default_internal default_internal).1 refl), tt) tt (λ n. (refl, refl))

    -- After whatever calls of `Update`, on maps with each key once, and a last one: each name, the empty
    -- one standing for the default, has the round tripper and the TLS configuration that are made for
    -- its last configuration, and any other name is an error; without its own the default has the empty one.
    pub update-wanted :
        (rest : List Configs) (news : Configs) (name : Str)
        → All IsMap rest
        → IsMap news
        → let m = update env deep_equal news (updates rest (new_manager env deep_equal)) in
          (get_round_tripper name m ≡ round_tripper_for env (wanted (name_of name) news))
          × (get_tls_config name m ≡ tls_for env (wanted (name_of name) news))
    unfolding get_round_tripper get_tls_config update install
    update-wanted rest news name w v =
        let s = updates-Sound rest (new_manager env deep_equal) w new_manager-Sound in
        let m = updates rest (new_manager env deep_equal) in
        let c = update-Sound news m v s.0 s.1 in
        let found = wanted_lem (name_of name) news (lookup default_internal news) refl in
        let made = c.1 (name_of name) in
        (made.0 ∙ ap (round_tripper_for env) found, made.1 ∙ ap (tls_for env) found)

    -- After whatever calls of `Update`, on maps with each key once, and a last one: a transport of the
    -- last map that has a minimum version and no maximum version has a nil TLS configuration, and its
    -- round tripper is the one made without: the error of `createTLSConfig` is dropped, and no name, CA
    -- or option of the transport counts. `DeepEqual` tells apart what is not equal.
    pub update-nil :
        (rest : List Configs) (news : Configs) (name : Str) (cfg : ServersTransport) (lo : ℕ)
        → All IsMap rest
        → IsMap news
        → lookup (name_of name) news ≡ some cfg
        → version_of cfg.min_version ≡ some (suc lo)
        → cfg.max_version ≡ []
        → let m = update env deep_equal news (updates rest (new_manager env deep_equal)) in
          (get_round_tripper name m ≡ some (create_round_tripper cfg none))
          × (get_tls_config name m ≡ some none)
    unfolding wanted
    update-nil rest news name cfg lo w v l x y =
        let (tripper, tls) = update-wanted rest news name w v in
        let found : wanted (name_of name) news ≡ some cfg = rw l in
        let nil = min_version-nil env cfg lo x y in
        (
          tripper
              ∙ ap (round_tripper_for env) found
              ∙ ap (λ c. some (create_round_tripper cfg c)) nil,
          tls ∙ ap (tls_for env) found ∙ ap some nil,
        )
