-- ===== src/Ip/Tests.antt =====
-- Runs of the strategies and the checker of net/ip on addresses that are numbers, and the witnesses
-- of their theorems.
use go_example.Prelude.{
  ℕ, false, Option, none, some, List, [], ◌∷◌, ◌≡◌, refl, ◌==◌, leb, if◌then◌else◌,
}
use go_example.Prelude.Dict.{Str}
use go_example.Ip.{
  NetLibrary, Checker, checker, any, new_checker, contains_ip, split_comma, pool_ip, or_empty,
  add_trusted, last_outside, is_passed, trim_left, trim_right, keep_right, is_space, contains,
  is_contained, prepend,
}
use go_example.Ip.Trusted.{is_trusted_by, contains_ip-any}
use go_example.Ip.Selection.{Found, pool_ip-Found}

-- One letter is an address, a letter and a star the network of the letters up to it.
abbrev letter : Str → Option ℕ
letter (c ∷ []) = some c
letter [] = none
letter (c ∷ d ∷ s) = none

abbrev network : Str → Option ℕ
network (c ∷ d ∷ []) = if d == b'*' then some c else none
network [] = none
network (c ∷ []) = none
network (c ∷ d ∷ e ∷ s) = none

abbrev letters : NetLibrary ℕ ℕ
letters = record {
  split_host_port = λ s. none;
  parse_addr = letter;
  parse_ip = letter;
  parse_cidr = network;
  is6 = λ a. false;
  prefix = λ a n. none;
  to_string = λ a. a ∷ [];
  equal = λ a b. a == b;
  contains = λ n a. leb a n;
}

abbrev trusted : List Str
trusted = (b'c' ∷ b'*' ∷ []) ∷ (b'x' ∷ []) ∷ []

abbrev pool : Checker ℕ ℕ
pool = record { authorized_ips = b'x' ∷ []; authorized_ips_net = b'c' ∷ [] }

trusted-pool : new_checker letters trusted ≡ checker pool
unfolding new_checker add_trusted
trusted-pool = refl

-- "q, z ,a,"
abbrev header : Str
header = b'q' ∷ b',' ∷ b' ' ∷ b'z' ∷ b' ' ∷ b',' ∷ b'a' ∷ b',' ∷ []

pool_ip-header : pool_ip letters (some pool) header ≡ b'z' ∷ []
unfolding pool_ip or_empty last_outside split_comma prepend is_passed trim_left trim_right
    keep_right is_space contains is_contained contains_ip any
pool_ip-header = refl

contains_ip-any_example : contains_ip letters pool b'b' ≡ any (is_trusted_by letters b'b') trusted
contains_ip-any_example = contains_ip-any letters b'b' trusted pool trusted-pool

pool_ip-Found_example :
    (o : Option Str) × (pool_ip letters (some pool) header ≡ or_empty o)
    × Found letters pool (split_comma header) o
pool_ip-Found_example = pool_ip-Found letters pool header
