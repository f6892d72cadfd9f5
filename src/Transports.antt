-- ===== src/Transports.antt =====
-- net/proxy/http_transport.go, http_builder.go and certificate.go: the TLS configuration and the round
-- tripper of a transport. Files, x509 and SPIFFE come in by a record of functions. A duration is
-- its nanoseconds.
pub mod Manager
pub mod Tls
pub mod Refreshed
pub mod Added
pub mod Updates
mod Tests
use go_example.Prelude.{
  ℕ, Bool, true, false, not, ◌||◌, Option, none, some, List, [], ◌∷◌, ◌++◌, ◌>>=◌, ltb,
  if◌then◌else◌,
}
use go_example.Prelude.Dict.{Str, lookup}
use go_example.Prelude.Int.{ℤ, pos}

pub data SanType : Type 0 where
  dns_name : SanType
  uri : SanType

pub record San : Type 0 where
  pub san_type : SanType
  pub value : Str

pub record Spiffe : Type 0 where
  pub ids : List Str
  pub trust_domain : Str

pub record ForwardingTimeouts : Type 0 where
  pub dial_timeout : ℤ
  pub response_header_timeout : ℤ
  pub idle_conn_timeout : ℤ
  pub read_idle_timeout : ℤ
  pub ping_timeout : ℤ
  pub read_timeout : ℤ
  pub write_timeout : ℤ

pub record ServersTransport : Type 0 where
  pub server_name : Str
  pub insecure_skip_verify : Bool
  pub root_cas : List Str
  pub certificates : List (Str × Str)
  pub cipher_suites : List Str
  pub min_version : Str
  pub max_version : Str
  pub max_idle_conns_per_host : ℤ
  pub forwarding_timeouts : Option ForwardingTimeouts
  pub disable_http2 : Bool
  pub peer_cert_uri : Str
  pub peer_cert_sans : List San
  pub spiffe : Option Spiffe

abbrev pub empty_transport : ServersTransport
empty_transport = record {
  server_name = [];
  insecure_skip_verify = false;
  root_cas = [];
  certificates = [];
  cipher_suites = [];
  min_version = [];
  max_version = [];
  max_idle_conns_per_host = pos 0;
  forwarding_timeouts = none;
  disable_http2 = false;
  peer_cert_uri = [];
  peer_cert_sans = [];
  spiffe = none;
}

-- The tables `MinVersion` and `MaxVersion`, which are equal.
abbrev pub versions : List (Str × ℕ)
versions =
    (86 ∷ 101 ∷ 114 ∷ 115 ∷ 105 ∷ 111 ∷ 110 ∷ 84 ∷ 76 ∷ 83 ∷ 49 ∷ 48 ∷ [], 769)
    ∷ (86 ∷ 101 ∷ 114 ∷ 115 ∷ 105 ∷ 111 ∷ 110 ∷ 84 ∷ 76 ∷ 83 ∷ 49 ∷ 49 ∷ [], 770)
    ∷ (86 ∷ 101 ∷ 114 ∷ 115 ∷ 105 ∷ 111 ∷ 110 ∷ 84 ∷ 76 ∷ 83 ∷ 49 ∷ 50 ∷ [], 771)
    ∷ (86 ∷ 101 ∷ 114 ∷ 115 ∷ 105 ∷ 111 ∷ 110 ∷ 84 ∷ 76 ∷ 83 ∷ 49 ∷ 51 ∷ [], 772)
    ∷ []

-- What the code calls: `os.Stat` and `os.ReadFile` of a name, `tls.X509KeyPair` with a number that
-- names its certificate, `spiffeid.FromString` and `TrustDomainFromString`, and whether there is a
-- source of X.509 SVIDs; `suites` is the table `CipherSuites`, whose numbers are those of crypto/tls. All
-- calls of `Update` have the same `Env`: what the files hold is taken not to change between them.
pub record Env : Type 0 where
  pub stat : Str → Bool
  pub read_file : Str → Option Str
  pub key_pair : Str → Str → Option ℕ
  pub spiffe_id : Str → Option ℕ
  pub trust_domain : Str → Option ℕ
  pub has_source : Bool
  pub suites : List (Str × ℕ)

pub data Authorizer : Type 0 where
  one_of : List ℕ → Authorizer
  member_of : ℕ → Authorizer
  any : Authorizer

-- `tls.Config`: `mtls` is the one that go-spiffe makes. `peer_sans` is what the function
-- `VerifyPeerCertificate` demands, nothing where that is nil.
pub data TlsConfig : Type 0 where
  mtls : Authorizer → TlsConfig
  plain : Str → Bool → Option (List Str) → List ℕ → List ℕ → ℕ → ℕ → List San → TlsConfig

abbrev pub is_blank {ℓ} : {A : Type ℓ} → List A → Bool
is_blank [] = true
is_blank (x ∷ xs) = false

-- `FileOrContent.Read`
unfoldable pub read : Env → Str → Option Str
read env f = if env.stat f then env.read_file f else some f

abbrev add_read : Option Str → List Str → List Str
add_read none rest = rest
add_read (some content) rest = content ∷ rest

abbrev pem_contents : Env → List Str → List Str
pem_contents env [] = []
pem_contents env (f ∷ fs) = add_read (read env f) (pem_contents env fs)

-- `createHTTPRootCACertPool`: the contents that go to `AppendCertsFromPEM`, and nil without any CA.
unfoldable pub create_root_ca_pool : Env → List Str → Option (List Str)
create_root_ca_pool env [] = none
create_root_ca_pool env (f ∷ fs) = some (pem_contents env (f ∷ fs))

-- `GetCertificate`
unfoldable pub get_certificate : Env → Str × Str → Option ℕ
get_certificate env (cert, key) = read env cert >>= λ c. read env key >>= λ k. env.key_pair c k

abbrev add_certificate : Option ℕ → List ℕ → List ℕ
add_certificate none rest = rest
add_certificate (some c) rest = c ∷ rest

-- `GetCertificates`: those with an error are left out.
abbrev pub get_certificates : Env → List (Str × Str) → List ℕ
get_certificates env [] = []
get_certificates env (c ∷ cs) = add_certificate (get_certificate env c) (get_certificates env cs)

-- A list in which every item is found, or an error: the loops over cipher suites and SPIFFE IDs.
abbrev pub find_all : (Str → Option ℕ) → List Str → Option (List ℕ)
find_all f [] = some []
find_all f (x ∷ xs) = f x >>= λ n. find_all f xs >>= λ ns. some (n ∷ ns)

-- `buildHTTPSpiffeAuthorizer`
unfoldable pub build_spiffe_authorizer : Env → Spiffe → Option Authorizer
build_spiffe_authorizer env cfg =
    if not (is_blank cfg.ids)
    then (find_all env.spiffe_id cfg.ids >>= λ ns. some (one_of ns))
    else if not (is_blank cfg.trust_domain)
    then (env.trust_domain cfg.trust_domain >>= λ d. some (member_of d))
    else some any

-- A version that is not given is 0.
abbrev pub version_of : Str → Option ℕ
version_of [] = some 0
version_of (c ∷ cs) = lookup (c ∷ cs) versions

-- The names that the certificate of the peer must have one of.
unfoldable pub peer_sans : ServersTransport → List San
peer_sans cfg =
    if is_blank cfg.peer_cert_uri
    then cfg.peer_cert_sans
    else cfg.peer_cert_sans ++ (record { san_type = uri; value = cfg.peer_cert_uri } ∷ [])

-- The condition under which there are TLS options.
unfoldable pub has_tls : ServersTransport → Bool
has_tls cfg =
    cfg.insecure_skip_verify
    || not (is_blank cfg.root_cas)
    || not (is_blank cfg.server_name)
    || not (is_blank cfg.certificates)
    || not (is_blank cfg.peer_cert_uri)
    || not (is_blank cfg.peer_cert_sans)
    || not (is_blank cfg.cipher_suites)
    || not (is_blank cfg.max_version)
    || not (is_blank cfg.min_version)

-- The configuration for the TLS options, or an error.
unfoldable pub with_versions : Env → ServersTransport → List ℕ → ℕ → ℕ → Option TlsConfig
with_versions env cfg suites lo hi =
    if ltb hi lo
    then none
    else some (
        plain cfg.server_name cfg.insecure_skip_verify (create_root_ca_pool env cfg.root_cas)
          (get_certificates env cfg.certificates) suites lo hi (peer_sans cfg))

unfoldable pub create_plain : Env → ServersTransport → Option TlsConfig
create_plain env cfg = find_all (λ name. lookup name env.suites) cfg.cipher_suites >>= λ suites.
    version_of cfg.min_version >>= λ lo.
    version_of cfg.max_version >>= λ hi. with_versions env cfg suites lo hi

-- The first part of `createTLSConfig`: an error, or nil or the SPIFFE configuration.
unfoldable pub create_mtls : Env → Option Spiffe → Option (Option TlsConfig)
create_mtls env none = some none
create_mtls env (some s) =
    if not env.has_source
    then none
    else (build_spiffe_authorizer env s >>= λ a. some (some (mtls a)))

unfoldable pub with_mtls : Env → ServersTransport → Option TlsConfig → Option (Option TlsConfig)
with_mtls env cfg (some c) = if has_tls cfg then none else some (some c)
with_mtls env cfg none =
    if has_tls cfg then (create_plain env cfg >>= λ c. some (some c)) else some none

-- `createTLSConfig`: an error, or a configuration that may be nil.
unfoldable pub create_tls_config : Env → ServersTransport → Option (Option TlsConfig)
create_tls_config env cfg = create_mtls env cfg.spiffe >>= λ c. with_mtls env cfg c
