-- ===== src/Startup.antt =====
-- What cmd/scnet-server/main.go decides before it serves, and what internal/discovery/reporter.go
-- reports: the endpoint that peers are told, the address of the server in the tunnel, and the URL of
-- the API. Parsing and printing URLs and CIDR texts are parameters; the `ip` command, signals and
-- the HTTP client are not modelled.
pub mod Address
use shuosc_network_server_ba.Common.{
  ℕ, ◌+◌, ◌-◌, ◌*◌, ◌/◌, ◌%◌, ◌^◌, String, Bool, true, false, ◌&&◌, ◌||◌, not, Option, none, some,
  ◌==◌, str_eq, ltb, if◌then◌else◌,
}
use shuosc_network_server_ba.Common.Text.{Text}
use shuosc_network_server_ba.Common.Words.{concat, is_empty, trim_space}
use shuosc_network_server_ba.Common.Integers.{ℤ, pos, at_least}
use shuosc_network_server_ba.Config.{Config}
use shuosc_network_server_ba.Peer.Ipam.{Ip, v4, v6, Subnet, subnet_contains}
use shuosc_network_server_ba.Peer.Ipam.Dotted.{dotted}

pub data Source : Type 0 where
  manual punch fallback : Source

pub record Endpoint : Type 0 where
  pub text : String
  pub source : Source

abbrev pub started : Option String → Option Endpoint
started none = none
started (some endpoint) = some (record { text = endpoint; source = punch })

-- resolveWireGuardEndpoint; `start` is punch.Start on the upstream port, `decimal` the text of an int.
unfoldable pub resolve_endpoint : (ℤ → Option String) → (ℤ → String) → Config → Option Endpoint
resolve_endpoint start decimal cfg =
    if not (is_empty (trim_space cfg.discovery.wg_endpoint))
    then some (record { text = trim_space cfg.discovery.wg_endpoint; source = manual })
    else if cfg.punch.enabled
    then started (
        start (
          if at_least 1 cfg.punch.wireguard_port
          then cfg.punch.wireguard_port
          else cfg.wireguard.listen_port))
    else some (record {
      text = concat "localhost:" (decimal cfg.wireguard.listen_port);
      source = fallback;
    })

abbrev pub is_fallback : Source → Bool
is_fallback manual = false
is_fallback punch = false
is_fallback fallback = true

-- The test of main on the endpoint: with discovery enabled, a fallback ends the program.
unfoldable pub publishable : Config → Option Endpoint → Option Endpoint
publishable cfg none = none
publishable cfg (some e) = if cfg.discovery.enabled && is_fallback e.source then none else some e

-- firstUsableIPv4, with the wrap-around of uint32.
unfoldable pub first_usable_ipv4 : Subnet → Option ℕ
first_usable_ipv4 s = elim s.ip [
  | v4 network ↦ if ltb (32 - s.ones) 2 then none else some ((network + 1) % 2 ^ 32)
  | v6 network ↦ none
]

-- A net.IPNet with the bits of its mask: 128 also for a mapped IPv4 address.
pub record IpNet : Type 0 where
  pub subnet : Subnet
  pub bits : ℕ

-- What main asks of package net.
pub record Cidr : Type 0 where
  pub parse_cidr : String → Option (Ip × IpNet)
  pub parse_ip : String → Option Ip
  pub with_prefix : ℕ → ℕ → String

-- The checks of resolveWireGuardAddress on the address and the text with its prefix.
unfoldable pub checked_address : Cidr → Subnet → Ip → String → Option (String × ℕ)
checked_address net subnet (v6 n) value = none
checked_address net subnet (v4 n) value =
    if not (subnet_contains subnet (v4 n))
    then none
    else elim (net.parse_cidr value) [ none ↦ none | some x ↦ some (value, n) ]

unfoldable pub plain_address : Cidr → Subnet → Option Ip → Option (String × ℕ)
unfolding checked_address
plain_address net subnet none = none
plain_address net subnet (some (v6 n)) = none
plain_address net subnet (some (v4 n)) =
    checked_address net subnet (v4 n) (net.with_prefix n subnet.ones)

unfoldable pub address_of_text : Cidr → Subnet → String → Option (String × ℕ)
unfolding checked_address plain_address
address_of_text net subnet value = elim (net.parse_cidr value) [
  | none ↦ plain_address net subnet (net.parse_ip value)
  | some (ip, parsed) ↦ checked_address net subnet ip value
]

unfoldable pub default_address : Cidr → Subnet → Option ℕ → Option (String × ℕ)
unfolding address_of_text
default_address net subnet none = none
default_address net subnet (some n) = address_of_text net subnet (net.with_prefix n subnet.ones)

unfoldable pub address_in : Cidr → String → Option (Ip × IpNet) → Option (String × ℕ)
unfolding default_address address_of_text
address_in net configured none = none
address_in net configured (some (ip, parsed)) =
    if not (parsed.bits == 32)
    then none
    else if is_empty (trim_space configured)
    then default_address net parsed.subnet (first_usable_ipv4 parsed.subnet)
    else address_of_text net parsed.subnet (trim_space configured)

-- resolveWireGuardAddress: the address with its prefix, and the address.
unfoldable pub resolve_address : Cidr → String → String → Option (String × ℕ)
unfolding address_in
resolve_address net subnet_cidr configured = address_in net configured (net.parse_cidr subnet_cidr)
