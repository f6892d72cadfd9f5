-- ===== src/Transports/Manager.antt =====
-- net/proxy/http_transport.go: the manager of the round trippers. The pointers in a map of
-- configurations are taken not to be nil, and a map that was passed to `Update` not to be written
-- afterwards by its caller. `reflect.DeepEqual` is a parameter.
use go_example.Prelude.{
  ℕ, zero, suc, ◌*◌, Bool, true, false, not, ◌&&◌, Option, none, some, List, [], ◌∷◌, if◌then◌else◌,
}
use go_example.Prelude.Dict.{Str, lookup, insert, delete}
use go_example.Prelude.Int.{ℤ, pos, negsuc}
use go_example.Transports.{
  Env, TlsConfig, ServersTransport, ForwardingTimeouts, empty_transport, create_tls_config,
  is_blank,
}

-- `time.Second` in nanoseconds.
abbrev second : ℕ
second = 1000000000

abbrev is_positive : ℤ → Bool
is_positive (pos zero) = false
is_positive (pos (suc n)) = true
is_positive (negsuc n) = false

-- What of an `http.Transport` depends on the configuration: the dialer's timeout, the limits, the TLS
-- configuration, the two timeouts of HTTP/2 pings, and the timeouts of reads and writes, where the
-- connections have them.
pub record Transport : Type 0 where
  pub dial_timeout : ℤ
  pub max_idle_conns_per_host : ℤ
  pub idle_conn_timeout : ℤ
  pub response_header_timeout : ℤ
  pub tls : Option TlsConfig
  pub http2 : Option (ℤ × ℤ)
  pub conn_timeouts : Option (ℤ × ℤ)

-- A Kerberos round tripper over a transport, or over the one that chooses among HTTP/1, HTTP/2 and h2c.
pub data RoundTripper : Type 0 where
  direct : Transport → RoundTripper
  smart : Transport → RoundTripper

-- `customHTTPDialContext`: the timeouts of its connections.
unfoldable pub custom_dial : ForwardingTimeouts → Option (ℤ × ℤ)
custom_dial t =
    if not (is_positive t.read_timeout) && not (is_positive t.write_timeout)
    then none
    else some (t.read_timeout, t.write_timeout)

unfoldable pub transport_of :
    ServersTransport → Option TlsConfig → Option ForwardingTimeouts → Transport
transport_of cfg tls none = record {
  dial_timeout = pos (30 * second);
  max_idle_conns_per_host = cfg.max_idle_conns_per_host;
  idle_conn_timeout = pos (90 * second);
  response_header_timeout = pos 0;
  tls = tls;
  http2 = none;
  conn_timeouts = none;
}
transport_of cfg tls (some t) = record {
  dial_timeout = t.dial_timeout;
  max_idle_conns_per_host = cfg.max_idle_conns_per_host;
  idle_conn_timeout = t.idle_conn_timeout;
  response_header_timeout = t.response_header_timeout;
  tls = tls;
  http2 = some (t.read_idle_timeout, t.ping_timeout);
  conn_timeouts = custom_dial t;
}

-- `createRoundTripper`, which has no error for a configuration that is not nil.
unfoldable pub create_round_tripper : ServersTransport → Option TlsConfig → RoundTripper
create_round_tripper cfg tls =
    let t = transport_of cfg tls cfg.forwarding_timeouts in
    if cfg.disable_http2 then direct t else smart t

abbrev pub Configs : Type 0
Configs = List (Str × ServersTransport)

-- `HTTPTransportManager`; a nil `*tls.Config` in its map is `none`.
pub record Manager : Type 0 where
  pub round_trippers : List (Str × RoundTripper)
  pub configs : Configs
  pub tls_configs : List (Str × Option TlsConfig)

abbrev pub default_internal : Str
default_internal =
    100 ∷ 101 ∷ 102 ∷ 97 ∷ 117 ∷ 108 ∷ 116 ∷ 64 ∷ 105 ∷ 110 ∷ 116 ∷ 101 ∷ 114 ∷ 110 ∷ 97 ∷ 108 ∷ []

-- The configuration of a transport after an error of `createTLSConfig`, which `Update` does not look at.
abbrev pub or_nil : Option (Option TlsConfig) → Option TlsConfig
or_nil none = none
or_nil (some c) = c

-- The entries of a name that `Update` makes anew.
unfoldable pub make : Env → Str → ServersTransport → Manager → Manager
make env name cfg m =
    let tls = or_nil (create_tls_config env cfg) in
    record m {
      tls_configs = insert name tls m.tls_configs;
      round_trippers = insert name (create_round_tripper cfg tls) m.round_trippers;
    }

-- The configurations with the one of `default@internal`.
unfoldable pub with_default : Option ServersTransport → Configs → Configs
with_default (some c) news = news
with_default none news = insert default_internal empty_transport news

module _ (env : Env) where
  -- A round of the loop over the new configurations.
  unfoldable pub add : Str → ServersTransport → Option ServersTransport → Manager → Manager
  add name cfg (some old) m = m
  add name cfg none m = make env name cfg m

  unfoldable pub add_all : Configs → Manager → Manager
  add_all [] m = m
  add_all ((name, cfg) ∷ news) m = add_all news (add name cfg (lookup name m.configs) m)

module _ (env : Env) (deep_equal : ServersTransport → ServersTransport → Bool) where
  -- A round of the loop over the old configurations, for the new one of the name.
  unfoldable pub refresh : Str → ServersTransport → Option ServersTransport → Manager → Manager
  refresh name cfg none m = record {
    configs = delete name m.configs;
    round_trippers = delete name m.round_trippers;
    tls_configs = delete name m.tls_configs;
  }
  refresh name cfg (some new) m = if deep_equal new cfg then m else make env name new m

  unfoldable pub refresh_all : Configs → Configs → Manager → Manager
  refresh_all news [] m = m
  refresh_all news ((name, cfg) ∷ olds) m =
      refresh_all news olds (refresh name cfg (lookup name news) m)

  unfoldable pub install : Configs → Manager → Manager
  install news m = record (add_all env news (refresh_all news m.configs m)) { configs = news }

  -- `Update`
  unfoldable pub update : Configs → Manager → Manager
  update news m = install (with_default (lookup default_internal news) news) m

  -- `NewHTTPTransportManager`
  unfoldable pub new_manager : Manager
  new_manager =
      update ((default_internal, empty_transport) ∷ [])
        (record { round_trippers = []; configs = []; tls_configs = [] })

abbrev pub name_of : Str → Str
name_of name = if is_blank name then default_internal else name

-- `GetRoundTripper`, `Get` and `GetTLSConfig`; `none` is the error.
unfoldable pub get_round_tripper : Str → Manager → Option RoundTripper
get_round_tripper name m = lookup (name_of name) m.round_trippers

unfoldable pub get : Str → Manager → Option ServersTransport
get name m = lookup (name_of name) m.configs

unfoldable pub get_tls_config : Str → Manager → Option (Option TlsConfig)
get_tls_config name m = lookup (name_of name) m.tls_configs
