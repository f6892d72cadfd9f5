-- ===== src/Ip/Trusted.antt =====
-- net/ip/checker.go: what the checker of a list of trusted addresses and networks contains.
use go_example.Prelude.{
  Bool, false, ◌||◌, Option, none, some, List, [], ◌∷◌, ◌++◌, ◌≡◌, refl, arith, inl, inr,
  Option-cases,
}
use go_example.Prelude.Dict.{Str}
use go_example.Ip.{NetLibrary, Checker, checker, any, add_trusted, new_checker, contains_ip}

any-append :
    {A : Type 0} (p : A → Bool) (xs ys : List A) → any p (xs ++ ys) ≡ (any p xs || any p ys)
unfolding any
any-append p [] ys = refl
any-append p (x ∷ xs) ys = ground (arith, any-append p xs ys)

module _ {Addr IpNet : Type 0} (lib : NetLibrary Addr IpNet) (addr : Addr) where
  unfoldable pub net_has : Option IpNet → Bool
  net_has none = false
  net_has (some net) = lib.contains net addr

  unfoldable pub ip_or_net : Option Addr → Option IpNet → Bool
  ip_or_net (some ip) net = lib.equal ip addr
  ip_or_net none net = net_has net

  -- Whether an entry of the list names the address: as an address, or else as a network.
  unfoldable pub is_trusted_by : Str → Bool
  is_trusted_by mask = ip_or_net (lib.parse_ip mask) (lib.parse_cidr mask)

  add_ip :
      (c : Checker Addr IpNet) (ip : Addr)
      → contains_ip lib (record c { authorized_ips = c.authorized_ips ++ (ip ∷ []) }) addr
        ≡ (contains_ip lib c addr || lib.equal ip addr)
  unfolding contains_ip any
  add_ip c ip = ground (arith, any-append (λ i. lib.equal i addr) c.authorized_ips (ip ∷ []))

  add_net :
      (c : Checker Addr IpNet) (net : IpNet)
      → contains_ip lib (record c { authorized_ips_net = c.authorized_ips_net ++ (net ∷ []) }) addr
        ≡ (contains_ip lib c addr || lib.contains net addr)
  unfolding contains_ip any
  add_net c net =
      ground (arith, any-append (λ n. lib.contains n addr) c.authorized_ips_net (net ∷ []))

  add_trusted_lem :
      (masks : List Str) (c c' : Checker Addr IpNet)
      → add_trusted lib masks c ≡ checker c'
      → contains_ip lib c' addr ≡ (contains_ip lib c addr || any is_trusted_by masks)
  unfolding add_trusted any is_trusted_by ip_or_net net_has
  add_trusted_lem [] c c' e = ground (arith, e)
  add_trusted_lem (mask ∷ masks) c c' e = elim (Option-cases (lib.parse_ip mask)) [
    | inr (ip, p) ↦
        let c1 : Checker Addr IpNet = record c { authorized_ips = c.authorized_ips ++ (ip ∷ []) } in
        ground (arith, add_trusted_lem masks c1 c', add_ip c ip, p, e)
    | inl p ↦ elim (Option-cases (lib.parse_cidr mask)) [
      | inr (net, q) ↦
          let c1 : Checker Addr IpNet = record c {
            authorized_ips_net = c.authorized_ips_net ++ (net ∷ []);
          } in
          ground (arith, add_trusted_lem masks c1 c', add_net c net, p, q, e)
      | inl q ↦ ground (arith, p, q, e)
    ]
  ]

  -- A checker that `NewChecker` makes contains an address exactly where an entry of the list of
  -- trusted addresses names it, as an address or else as a network.
  pub contains_ip-any :
      (masks : List Str) (c : Checker Addr IpNet)
      → new_checker lib masks ≡ checker c
      → contains_ip lib c addr ≡ any is_trusted_by masks
  unfolding new_checker contains_ip any
  contains_ip-any [] c e = ground (arith, e)
  contains_ip-any (mask ∷ masks) c e =
      add_trusted_lem (mask ∷ masks) (record { authorized_ips = []; authorized_ips_net = [] }) c e
