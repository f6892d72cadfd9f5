-- ===== src/Transports/Tests.antt =====
-- Runs of the manager of net/proxy/http_transport.go, and the witnesses of its theorems.
use go_example.Prelude.{Bool, true, false, none, some, [], ◌∷◌, ◌≡◌, refl}
use go_example.Prelude.Dict.{Str, str_eq, lookup}
use go_example.Transports.{
  Env, dns_name, TlsConfig, plain, ServersTransport, empty_transport, versions,
}
use go_example.Transports.Manager.{
  Configs, create_round_tripper, update, new_manager, get_round_tripper, get_tls_config, name_of,
}
use go_example.Transports.Updates.{updates, update-wanted, update-nil}
use go_example.Transports.Added.{wanted}
use go_example.Transports.Refreshed.{IsMap, round_tripper_for, tls_for}

abbrev no_files : Env
no_files = record {
  stat = λ f. false;
  read_file = λ f. none;
  key_pair = λ c k. none;
  spiffe_id = λ s. none;
  trust_domain = λ s. none;
  has_source = false;
  suites = [];
}

-- A name of the peer, and no version.
abbrev named : ServersTransport
named = record empty_transport {
  peer_cert_sans = record { san_type = dns_name; value = 97 ∷ [] } ∷ [];
}

abbrev named_config : TlsConfig
named_config = plain [] false none [] [] 0 0 (record { san_type = dns_name; value = 97 ∷ [] } ∷ [])

-- `VersionTLS12`
abbrev tls12 : Str
tls12 = 86 ∷ 101 ∷ 114 ∷ 115 ∷ 105 ∷ 111 ∷ 110 ∷ 84 ∷ 76 ∷ 83 ∷ 49 ∷ 50 ∷ []

abbrev with_minimum : ServersTransport
with_minimum = record named { min_version = tls12 }

tls12_ok : lookup tls12 versions ≡ some 771
unfolding lookup str_eq
tls12_ok = refl

abbrev never : ServersTransport → ServersTransport → Bool
never a b = false

never_equal : (a b : ServersTransport) → never a b ≡ true → a ≡ b
never_equal a b e = absurd (cc)

abbrev two : Configs
two = (97 ∷ [], named) ∷ (98 ∷ [], with_minimum) ∷ []

two-IsMap : IsMap two
unfolding lookup str_eq
two-IsMap = (refl, (refl, tt))

update-wanted_example :
    (get_round_tripper (97 ∷ []) (
        update no_files never two
          (updates no_files never never_equal [] (new_manager no_files never)))
      ≡ round_tripper_for no_files (wanted (name_of (97 ∷ [])) two))
    × (get_tls_config (97 ∷ []) (
          update no_files never two
            (updates no_files never never_equal [] (new_manager no_files never)))
        ≡ tls_for no_files (wanted (name_of (97 ∷ [])) two))
update-wanted_example = update-wanted no_files never never_equal [] two (97 ∷ []) tt two-IsMap

update-nil_example :
    (get_round_tripper (98 ∷ []) (
        update no_files never two
          (updates no_files never never_equal [] (new_manager no_files never)))
      ≡ some (create_round_tripper with_minimum none))
    × (get_tls_config (98 ∷ []) (
          update no_files never two
            (updates no_files never never_equal [] (new_manager no_files never)))
        ≡ some none)
unfolding lookup str_eq
update-nil_example =
    update-nil no_files never never_equal [] two (98 ∷ []) with_minimum 770 tt two-IsMap refl
      tls12_ok refl
