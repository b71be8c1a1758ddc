-- ===== src/Startup/Address.antt =====
-- The address of the server lies in its subnet.
use shuosc_network_server_ba.Common.{
  ℕ, String, ◌≡◌, refl, subst, Bool, true, false, not, Option, none, some, ◌==◌, arith,
  if◌then◌else◌,
}
use shuosc_network_server_ba.Common.Words.{is_empty, trim_space}
use shuosc_network_server_ba.Peer.Ipam.{Ip, v4, v6, Subnet, subnet_contains}
use shuosc_network_server_ba.Startup.{
  Cidr, IpNet, checked_address, plain_address, address_of_text, default_address, address_in,
  resolve_address,
}

some_injective : {A : Type 0} {a b : A} → some a ≡ some b → a ≡ b
some_injective e = cc

module _ (net : Cidr) (subnet : Subnet) (out : String × ℕ) where
  -- The address is in the subnet, and its text has a prefix.
  abbrev pub IsInside : Type 0
  IsInside =
      (subnet_contains subnet (v4 out.1) ≡ true)
      × ((x : Ip × IpNet) × (net.parse_cidr out.0 ≡ some x))

  inside_of :
      (b : Bool) (o : Option (Ip × IpNet)) (value : String) (n : ℕ)
      → subnet_contains subnet (v4 n) ≡ b
      → net.parse_cidr value ≡ o
      → (if not b then none else elim o [ none ↦ none | some x ↦ some (value, n) ]) ≡ some out
      → IsInside
  inside_of false o value n c p e = ground arith
  inside_of true none value n c p e = ground arith
  inside_of true (some x) value n c p e =
      let same = some_injective e in
      (
        subst (λ r. subnet_contains subnet (v4 r.1) ≡ true) same c,
        (x, subst (λ r. net.parse_cidr r.0 ≡ some x) same p),
      )

  checked_address-IsInside :
      (ip : Ip) (value : String) → checked_address net subnet ip value ≡ some out → IsInside
  unfolding checked_address
  checked_address-IsInside (v6 n) value e = ground arith
  checked_address-IsInside (v4 n) value e = inside_of _ _ value n refl refl e

  plain_address-IsInside : (ip : Option Ip) → plain_address net subnet ip ≡ some out → IsInside
  unfolding plain_address
  plain_address-IsInside none e = ground arith
  plain_address-IsInside (some (v6 n)) e = ground arith
  plain_address-IsInside (some (v4 n)) e = checked_address-IsInside (v4 n) _ e

  text-IsInside :
      (o : Option (Ip × IpNet)) (value : String)
      → (elim o [
        | none ↦ plain_address net subnet (net.parse_ip value)
        | some (ip, parsed) ↦ checked_address net subnet ip value
      ])
        ≡ some out
      → IsInside
  text-IsInside none value e = plain_address-IsInside _ e
  text-IsInside (some (ip, parsed)) value e = checked_address-IsInside ip value e

  address_of_text-IsInside :
      (value : String) → address_of_text net subnet value ≡ some out → IsInside
  unfolding address_of_text
  address_of_text-IsInside value e = text-IsInside (net.parse_cidr value) value e

  default_address-IsInside : (n : Option ℕ) → default_address net subnet n ≡ some out → IsInside
  unfolding default_address
  default_address-IsInside none e = ground arith
  default_address-IsInside (some n) e = address_of_text-IsInside _ e

  either-IsInside :
      (b : Bool) (x y : Option (String × ℕ))
      → (x ≡ some out → IsInside)
      → (y ≡ some out → IsInside)
      → (if b then x else y) ≡ some out
      → IsInside
  either-IsInside true x y h k e = h e
  either-IsInside false x y h k e = k e

module _ (net : Cidr) (out : String × ℕ) (parsed : IpNet) where
  given-IsInside :
      (ip : Ip) (configured : String)
      → address_in net configured (some (ip, parsed)) ≡ some out
      → IsInside net parsed.subnet out
  unfolding address_in
  given-IsInside ip configured e =
      either-IsInside net parsed.subnet out (not (parsed.bits == 32)) _ _
        (λ h. absurd (ground (arith, h)))
        (either-IsInside net parsed.subnet out (is_empty (trim_space configured)) _ _
          (default_address-IsInside net parsed.subnet out _)
          (address_of_text-IsInside net parsed.subnet out _))
        e

  -- Whatever is configured, an address that the server takes for itself is an IPv4 address of the
  -- tunnel's subnet, in a text with a prefix that parses.
  pub resolve_address-IsInside :
      (ip : Ip) (subnet_cidr configured : String)
      → net.parse_cidr subnet_cidr ≡ some (ip, parsed)
      → resolve_address net subnet_cidr configured ≡ some out
      → IsInside net parsed.subnet out
  unfolding resolve_address
  resolve_address-IsInside ip subnet_cidr configured read e =
      given-IsInside ip configured (subst (λ o. address_in net configured o ≡ some out) read e)
