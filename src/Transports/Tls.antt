-- ===== src/Transports/Tls.antt =====
-- net/proxy/http_transport.go: the TLS configuration of a transport, and the errors that `Update` drops.
use go_example.Prelude.{
  ℕ, suc, ◌≤◌, true, false, Option, none, some, List, [], ◌∷◌, ◌++◌, ◌≡◌, ◌≢◌, ◌⊎◌, refl, ap, arith,
  ◌>>=◌,
}
use go_example.Prelude.Dict.{Str, lookup}
use go_example.Transports.{
  San, uri, versions, Env, TlsConfig, mtls, plain, ServersTransport, find_all, version_of, has_tls,
  with_versions, create_plain, create_mtls, with_mtls, create_tls_config, is_blank,
}
use go_example.Transports.Manager.{or_nil}

-- The names of which the peer is to have one: those that the transport lists, and the URI that it has.
abbrev pub Names : ServersTransport → List San → Type 0
Names cfg sans =
    ((cfg.peer_cert_uri ≡ []) × (sans ≡ cfg.peer_cert_sans))
    ⊎ ((cfg.peer_cert_uri ≢ [])
        × (sans
            ≡ cfg.peer_cert_sans ++ (record { san_type = uri; value = cfg.peer_cert_uri } ∷ [])))

-- The number of a version: that of its name in the table, and 0 where none is given.
abbrev pub Version : Str → ℕ → Type 0
Version v n = ((v ≡ []) × (n ≡ 0)) ⊎ (lookup v versions ≡ some n)

-- A configuration that a transport with TLS options has.
abbrev pub Demands : ServersTransport → TlsConfig → Type 0
Demands cfg (mtls a) = has_tls cfg ≡ false
Demands cfg (plain name skip cas certs suites lo hi sans) =
    Names cfg sans
    × (lo ≤ hi)
    × Version cfg.min_version lo
    × Version cfg.max_version hi
    × (skip ≡ cfg.insecure_skip_verify)
    × (name ≡ cfg.server_name)

has_tls_lem :
    (cfg : ServersTransport) (lo : ℕ)
    → version_of cfg.min_version ≡ some (suc lo)
    → has_tls cfg ≡ true
unfolding has_tls
has_tls_lem cfg lo x = ground (arith, not_blank cfg.min_version lo x)
  where
    not_blank : (v : Str) (lo : ℕ) → version_of v ≡ some (suc lo) → is_blank v ≡ false
    not_blank [] lo e = absurd (cc)
    not_blank (c ∷ v) lo e = refl

no_plain :
    (env : Env) (cfg : ServersTransport) (lo : ℕ)
    → version_of cfg.min_version ≡ some (suc lo)
    → cfg.max_version ≡ []
    → create_plain env cfg ≡ none
unfolding create_plain with_versions
no_plain env cfg lo x y = suites (find_all (λ name. lookup name env.suites) cfg.cipher_suites)
  where
    suites :
        (r : Option (List ℕ))
        → (r >>= λ s. version_of cfg.min_version >>= λ a.
            version_of cfg.max_version >>= λ b. with_versions env cfg s a b)
          ≡ none
    suites none = refl
    suites (some s) = rw (x, y) (ground arith)

pub min_version-nil :
    (env : Env) (cfg : ServersTransport) (lo : ℕ)
    → version_of cfg.min_version ≡ some (suc lo)
    → cfg.max_version ≡ []
    → or_nil (create_tls_config env cfg) ≡ none
unfolding create_tls_config with_mtls
min_version-nil env cfg lo x y = ap or_nil (first (create_mtls env cfg.spiffe))
  where
    first : (r : Option (Option TlsConfig)) → (r >>= λ m. with_mtls env cfg m) ≡ none
    first none = refl
    first (some none) = rw (has_tls_lem cfg lo x, no_plain env cfg lo x y)
    first (some (some c)) = rw (has_tls_lem cfg lo x)
