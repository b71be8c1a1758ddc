-- ===== src/Peer/Ipam.antt =====
-- internal/peer/ipam.go: the allocator of tunnel addresses.
pub mod Dotted
pub mod Allocation
pub mod Reservation
use shuosc_network_server_ba.Common.{
  ℕ, zero, suc, ◌+◌, ◌-◌, ◌*◌, ◌/◌, ◌%◌, ◌^◌, Bool, true, false, Option, none, some, [], ◌∷◌, ◌==◌,
  if◌then◌else◌,
}
use shuosc_network_server_ba.Common.Text.{Text, TextSet, contains, add, delete}
use mathlib.Core.Option
use Dotted.{dotted, parse_ipv4}

-- net.IP: four bytes, or sixteen that are no mapped IPv4 address.
pub data Ip : Type 0 where
  v4 : ℕ → Ip
  v6 : ℕ → Ip

-- net.IPNet with its masked address; `ones` is the length of the prefix.
pub record Subnet : Type 0 where
  pub ip : Ip
  pub ones : ℕ

pub record Ipam : Type 0 where
  pub subnet : Subnet
  pub used : TextSet

-- NewIPAM, after the CIDR text is parsed.
unfoldable pub new_ipam : Subnet → Ipam
new_ipam subnet = record { subnet = subnet; used = [] }

-- The sixteen-byte forms of net.ParseIP and net.IP.String, which no IPv4 subnet meets: a text with a
-- colon may be a mapped IPv4 address (`v4`) or a proper IPv6 address (`v6`).
pub record Ip6Text : Type 0 where
  pub parse_ip6 : Text → Option Ip
  pub print_ip6 : ℕ → Text

-- net.ParseIP reads the form that the first dot or colon of the text announces.
unfoldable pub parse_form : Ip6Text → Text → Text → Option Ip
parse_form ip6 t [] = none
parse_form ip6 t (c ∷ rest) =
    if c == b'.'
    then Option.map v4 (parse_ipv4 t)
    else if c == b':'
    then ip6.parse_ip6 t
    else parse_form ip6 t rest

unfoldable pub parse_ip : Ip6Text → Text → Option Ip
unfolding parse_form
parse_ip ip6 t = parse_form ip6 t t

-- net.IP.String.
unfoldable pub print_ip : Ip6Text → Ip → Text
print_ip ip6 (v4 n) = dotted n
print_ip ip6 (v6 n) = ip6.print_ip6 n

-- net.IPNet.Contains: equal network bits, and never across the two lengths.
unfoldable pub same_network : ℕ → Ip → Ip → Bool
same_network ones (v4 n) (v4 m) = n / 2 ^ (32 - ones) == m / 2 ^ (32 - ones)
same_network ones (v6 n) (v6 m) = n / 2 ^ (128 - ones) == m / 2 ^ (128 - ones)
same_network ones _ _ = false

unfoldable pub subnet_contains : Subnet → Ip → Bool
unfolding same_network
subnet_contains s ip = same_network s.ones s.ip ip

-- `uint64(1) << hostBits`
abbrev pub total_hosts : Subnet → ℕ
total_hosts s = 2 ^ (32 - s.ones)

-- The loop of Allocate over `idx`, with the rounds that are left: the first text that is not used.
-- The address is a uint32, and so is the index that is added to it.
unfoldable pub scan : TextSet → ℕ → ℕ → ℕ → Option Text
scan used network zero idx = none
scan used network (suc rounds) idx =
    let rest = scan used network rounds (idx + 1) in
    let ip = dotted ((network + idx % 2 ^ 32) % 2 ^ 32) in
    if contains used ip then rest else some ip

-- Allocate: `none` is ErrNoIPAvailable. The index runs from 1 while it is below `totalHosts - 1`.
unfoldable pub allocate_from : Ip → Ipam → Option (Text × Ipam)
allocate_from (v4 network) i =
    Option.map (λ ip. (ip, record i { used = add ip i.used }))
      (scan i.used network (total_hosts i.subnet - 1 - 1) 1)
allocate_from (v6 _) i = none

unfoldable pub allocate : Ipam → Option (Text × Ipam)
unfolding allocate_from
allocate i = allocate_from i.subnet.ip i

-- Release never fails.
unfoldable pub release : Text → Ipam → Ipam
release ip i = record i { used = delete ip i.used }

-- Reserve: `none` is its error, for a text that is no address and for one outside the subnet.
unfoldable pub reserve : Ip6Text → Text → Ipam → Option Ipam
reserve ip6 t i = elim (parse_ip ip6 t) [
  | none ↦ none
  | some parsed ↦
      if subnet_contains i.subnet parsed
      then some (record i { used = add (print_ip ip6 parsed) i.used })
      else none
]
