-- ===== src/Ip.antt =====
-- net/ip: the choice of a client's address (strategy.go) and the checker of trusted addresses
-- (checker.go). What the packages net and net/netip parse and compare is a record of functions;
-- headers are taken to be ASCII for `strings.TrimSpace`. `none` is a panic.
pub mod Trusted
pub mod Selection
mod Tests
use go_example.Prelude.{
  ℕ, suc, ◌+◌, ◌-◌, Bool, true, false, ◌&&◌, ◌||◌, Option, none, some, List, [], ◌∷◌, ◌++◌, length,
  get_elem?, ltb, leb, ◌==◌, if◌then◌else◌, ◌>>=◌,
}
use go_example.Prelude.Dict.{Str}
use go_example.Prelude.Int.{ℤ, pos, negsuc}

-- The calls of net and net/netip, over their types of addresses and networks.
pub record NetLibrary (Addr IpNet : Type 0) : Type 0 where
  pub split_host_port : Str → Option Str
  pub parse_addr : Str → Option Addr
  pub parse_ip : Str → Option Addr
  pub parse_cidr : Str → Option IpNet
  pub is6 : Addr → Bool
  pub prefix : Addr → ℤ → Option Addr
  pub to_string : Addr → Str
  pub equal : Addr → Addr → Bool
  pub contains : IpNet → Addr → Bool

-- `Checker`
pub record Checker (Addr IpNet : Type 0) : Type 0 where
  pub authorized_ips : List Addr
  pub authorized_ips_net : List IpNet

pub data NewResult (Addr IpNet : Type 0) : Type 0 where
  checker : Checker Addr IpNet → NewResult Addr IpNet
  no_trusted_ips : NewResult Addr IpNet
  bad_cidr : NewResult Addr IpNet

-- The results of `Contains` and `IsAuthorized` that are errors.
pub data IpError : Type 0 where
  empty_address : IpError
  unparsable : Str → IpError
  no_match : Str → IpError

pub data Contained : Type 0 where
  answer : Bool → Contained
  error : IpError → Contained

unfoldable pub any : {A : Type 0} → (A → Bool) → List A → Bool
any p [] = false
any p (x ∷ xs) = p x || any p xs

unfoldable pub prepend : ℕ → List Str → List Str
prepend c [] = (c ∷ []) ∷ []
prepend c (w ∷ ws) = (c ∷ w) ∷ ws

-- `strings.Split(s, ",")`
unfoldable pub split_comma : Str → List Str
split_comma [] = [] ∷ []
split_comma (c ∷ s) = let rest = split_comma s in if c == b',' then [] ∷ rest else prepend c rest

-- Blank, or one of the control characters from tab to carriage return.
unfoldable pub is_space : ℕ → Bool
is_space c = c == 32 || leb 9 c && leb c 13

unfoldable pub trim_left : Str → Str
trim_left [] = []
trim_left (c ∷ s) = let rest = trim_left s in if is_space c then rest else c ∷ s

-- A character before a text that is trimmed on its right.
unfoldable pub keep_right : ℕ → Str → Str
keep_right c [] = if is_space c then [] else c ∷ []
keep_right c (x ∷ s) = c ∷ x ∷ s

unfoldable pub trim_right : Str → Str
trim_right [] = []
trim_right (c ∷ s) = keep_right c (trim_right s)

-- `strings.TrimSpace`
abbrev pub trim_space : Str → Str
trim_space s = trim_left (trim_right s)

unfoldable pub or_empty : Option Str → Str
or_empty none = []
or_empty (some ip) = ip

module _ {Addr IpNet : Type 0} (lib : NetLibrary Addr IpNet) where
  -- The loop of `NewChecker`, with the checker so far.
  unfoldable pub add_trusted : List Str → Checker Addr IpNet → NewResult Addr IpNet
  add_trusted [] c = checker c
  add_trusted (mask ∷ masks) c = elim (lib.parse_ip mask) [
    | some ip ↦ add_trusted masks (record c { authorized_ips = c.authorized_ips ++ (ip ∷ []) })
    | none ↦ elim (lib.parse_cidr mask) [
      | some net ↦
          add_trusted masks (record c { authorized_ips_net = c.authorized_ips_net ++ (net ∷ []) })
      | none ↦ bad_cidr
    ]
  ]

  unfoldable pub new_checker : List Str → NewResult Addr IpNet
  new_checker [] = no_trusted_ips
  new_checker (mask ∷ masks) =
      add_trusted (mask ∷ masks) (record { authorized_ips = []; authorized_ips_net = [] })

  unfoldable pub contains_ip : Checker Addr IpNet → Addr → Bool
  contains_ip c addr =
      any (λ ip. lib.equal ip addr) c.authorized_ips
      || any (λ net. lib.contains net addr) c.authorized_ips_net

  unfoldable pub contains : Checker Addr IpNet → Str → Contained
  contains c [] = error empty_address
  contains c (x ∷ addr) = elim (lib.parse_addr (x ∷ addr)) [
    | none ↦ error (unparsable (x ∷ addr))
    | some ip ↦ answer (contains_ip c ip)
  ]

  -- `host, _, err := net.SplitHostPort(addr)`, with the address where it fails.
  unfoldable pub host_of : Str → Str
  host_of addr = elim (lib.split_host_port addr) [ none ↦ addr | some host ↦ host ]

  unfoldable pub verdict : Str → Contained → Option IpError
  verdict addr (error e) = some e
  verdict addr (answer true) = none
  verdict addr (answer false) = some (no_match addr)

  -- The error of `IsAuthorized`, if any.
  unfoldable pub is_authorized : Checker Addr IpNet → Str → Option IpError
  is_authorized c addr = verdict addr (contains c (host_of addr))

  unfoldable pub get_ipv6_subnet_ip : Str → ℤ → Str
  get_ipv6_subnet_ip ip subnet = elim (lib.parse_addr ip) [
    | none ↦ ip
    | some addr ↦
        if lib.is6 addr
        then elim (lib.prefix addr subnet) [ none ↦ ip | some masked ↦ lib.to_string masked ]
        else ip
  ]

  -- The address, or its subnet where the strategy has an `IPv6Subnet`.
  unfoldable pub mask_with : Option ℤ → Str → Str
  mask_with none ip = ip
  mask_with (some subnet) ip = get_ipv6_subnet_ip ip subnet

  -- `RemoteAddrStrategy.GetIP`
  unfoldable pub remote_addr_ip : Option ℤ → Str → Str
  remote_addr_ip subnet remote_addr = elim (lib.split_host_port remote_addr) [
    | none ↦ remote_addr
    | some ip ↦ mask_with subnet ip
  ]

  -- `xffs[len(xffs)-s.Depth]`: below depth 1 the index is too large.
  unfoldable pub from_right : ℤ → List Str → Option Str
  from_right (pos depth) xffs = get_elem? xffs (length xffs - depth)
  from_right (negsuc d) xffs = get_elem? xffs (length xffs + suc d)

  -- `len(xffs) < s.Depth`
  unfoldable pub is_short : ℤ → List Str → Bool
  is_short (pos depth) xffs = ltb (length xffs) depth
  is_short (negsuc d) xffs = false

  -- `DepthStrategy.GetIP`, for the value of the header.
  unfoldable pub depth_ip : ℤ → Option ℤ → Str → Option Str
  depth_ip depth subnet xff =
      let xffs = split_comma xff in
      if is_short depth xffs
      then some []
      else (do v ← from_right depth xffs; some (mask_with subnet (trim_space v)))

  -- `contain, _ := s.Checker.Contains(v)`: an error counts as false.
  unfoldable pub is_contained : Contained → Bool
  is_contained (answer b) = b
  is_contained (error e) = false

  -- Whether the loop of `PoolStrategy.GetIP` goes on after an entry.
  unfoldable pub is_passed : Checker Addr IpNet → Str → Bool
  is_passed c v = length (trim_space v) == 0 || is_contained (contains c (trim_space v))

  -- The loop over the entries from the right: `none` where it comes to its end.
  unfoldable pub last_outside : Checker Addr IpNet → List Str → Option Str
  last_outside c [] = none
  last_outside c (v ∷ vs) = elim (last_outside c vs) [
    | some ip ↦ some ip
    | none ↦ if is_passed c v then none else some (trim_space v)
  ]

  -- `PoolStrategy.GetIP`, for the value of the header; a strategy may have no checker.
  unfoldable pub pool_ip : Option (Checker Addr IpNet) → Str → Str
  pool_ip none xff = []
  pool_ip (some c) xff = or_empty (last_outside c (split_comma xff))
