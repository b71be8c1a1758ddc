-- ===== src/Examples/Edges.antt =====
-- The theorems on the proxy, the configuration, the relay agent and the start at concrete values.
use shuosc_network_server_ba.Common.{
  ◌+◌, ◌≤◌, String, ◌≡◌, refl, Bool, true, false, Option, none, some, [], ◌∷◌, ◌==◌, str_eq, eq_iff,
  first, count, if◌then◌else◌,
}
use shuosc_network_server_ba.Common.Words.{concat, trim_space, trim_left, trim_right, any_rune}
use shuosc_network_server_ba.Peer.Ipam.{v4, subnet_contains, same_network}
use shuosc_network_server_ba.Punch.Stun.{done, binding_request_packet, zero_id}
use shuosc_network_server_ba.Punch.Sessions.{
  Proxy, no_sessions, has_session_key, has_socket, opens, open_socket, publish_session, stays,
  moves, listens, publishes,
}
use shuosc_network_server_ba.Punch.Sessions.Sockets.{is_socket, Moves-sockets}
use shuosc_network_server_ba.Config.{Config, default_config, substitute, outside}
use shuosc_network_server_ba.Config.Placeholders.{substitute-placeholder}
use shuosc_network_server_ba.Relay.{Net, RequestEnvelope, header, upstream_headers}
use shuosc_network_server_ba.Relay.Headers.{spoofed, upstream_headers-forwarded_for}
use shuosc_network_server_ba.Startup.{
  Cidr, first_usable_ipv4, resolve_address, address_in, address_of_text, checked_address,
  default_address,
}
use shuosc_network_server_ba.Startup.Address.{IsInside, resolve_address-IsInside}
use shuosc_network_server_ba.Punch.Probe.{probe_one}
use shuosc_network_server_ba.Punch.Probe.Answered.{first_answer, probe_one-first_answer}
use shuosc_network_server_ba.Examples.Worlds.{example_subnet}

-- Two packets of one address: both calls open a socket, and the second one is too late.
abbrev both_listen : Proxy
both_listen = (open_socket "192.0.2.1:4000" (open_socket "192.0.2.1:4000" no_sessions).1).1

abbrev one_published : Proxy
one_published = (publish_session 5 (record { key = "192.0.2.1:4000"; socket = 0 }) both_listen).1

waits : first (opens 0) both_listen.opening ≡ some (record { key = "192.0.2.1:4000"; socket = 0 })
unfolding open_socket
waits = refl

Moves-sockets_example :
    (count (has_session_key "192.0.2.1:4000") one_published.sessions ≤ 1)
    × (count (is_socket 1) one_published.live
        ≡ count (has_socket 1) one_published.sessions + count (opens 1) one_published.opening)
    × (count (is_socket 1) one_published.live ≤ 1)
Moves-sockets_example = Moves-sockets one_published "192.0.2.1:4000" 1 (
    moves
      (moves (moves (stays no_sessions) (listens no_sessions "192.0.2.1:4000"))
        (listens (open_socket "192.0.2.1:4000" no_sessions).1 "192.0.2.1:4000"))
      (publishes both_listen 5 (record { key = "192.0.2.1:4000"; socket = 0 }) waits))

abbrev example_getenv : String → String
example_getenv name =
    if str_eq name "PW" then "secret" else if str_eq name "SCNET_WG_ENDPOINT" then " vpn:1 " else ""

-- A decoder of files that hold the database password alone.
abbrev example_decode : String → Config → Option Config
example_decode text cfg = some (record cfg {
  database = record cfg.database { password = text };
  wireguard = record cfg.wireguard { private_key = "k5" };
  jwt = record cfg.jwt { secret = "jwt" };
})

abbrev example_config : Config
example_config = record default_config {
  database = record default_config.database { password = "a secret" };
  wireguard = record default_config.wireguard { private_key = "k5" };
  jwt = record default_config.jwt { secret = "jwt" };
  discovery = record default_config.discovery { wg_endpoint = "vpn:1" };
}

no_dollar : any_rune (λ c. c == 36) "a " ≡ false
unfolding any_rune
no_dollar = refl

no_brace : any_rune (λ c. c == 125) "PW" ≡ false
unfolding any_rune
no_brace = refl

substitute-placeholder_example :
    substitute example_getenv outside (concat "a " (concat "${" (concat "PW" (concat "}" "; $"))))
    ≡ concat "a " (concat (example_getenv "PW") (substitute example_getenv outside "; $"))
substitute-placeholder_example =
    substitute-placeholder example_getenv "a " "PW" "; $" no_dollar no_brace refl

-- The names that matter, in the canonical form and in lower case.
abbrev example_net : Net
example_net = record {
  to_lower = λ s.
      if str_eq s "X-Forwarded-For"
      then "x-forwarded-for"
      else if str_eq s "X-SCNET-Client-Origin"
      then "x-scnet-client-origin"
      else if str_eq s "X-Scnet-Client-Origin"
      then "x-scnet-client-origin"
      else s;
  canonical = λ s. if str_eq s "X-SCNET-Client-Origin" then "X-Scnet-Client-Origin" else s;
  parse_url = λ s. none;
  print_url = λ u. "";
  resolve = λ a b. b;
  decode_base64 = λ s. some s;
  encode_base64 = λ s. s;
  send = λ method url headers body. none;
}

abbrev spoofing_request : RequestEnvelope
spoofing_request = record {
  request_id = "1";
  method = "GET";
  url = "/health";
  headers = header "X-Forwarded-For" "10.0.0.9" ∷ header "Accept" "text/html" ∷ [];
  body_base64 = "";
  forwarded_host = "";
  forwarded_proto = "https";
  client_ip = "198.51.100.7";
  client_origin = "";
}

lower_either :
    (b : Bool) (name : String)
    → str_eq name "X-SCNET-Client-Origin" ≡ b
    → example_net.to_lower (if b then "X-Scnet-Client-Origin" else name) ≡ example_net.to_lower name
lower_either false name e = refl
lower_either true name e = rw ((eq_iff name "X-SCNET-Client-Origin").0 e) refl

lower_canonical :
    (name : String) → example_net.to_lower (example_net.canonical name) ≡ example_net.to_lower name
lower_canonical name = lower_either (str_eq name "X-SCNET-Client-Origin") name refl

upstream_headers-forwarded_for_example :
    count (spoofed "198.51.100.7") (upstream_headers example_net spoofing_request) ≡ 0
upstream_headers-forwarded_for_example =
    upstream_headers-forwarded_for example_net spoofing_request lower_canonical refl refl refl refl
      refl

-- An answer to another transaction arrives, and no answer to the probe.
probe_one-first_answer_example :
    probe_one zero_id (some (binding_request_packet zero_id ∷ [])) []
    ≡ done (first_answer zero_id (binding_request_packet zero_id ∷ []), [])
probe_one-first_answer_example =
    probe_one-first_answer zero_id (binding_request_packet zero_id ∷ [])

abbrev example_cidr : Cidr
example_cidr = record {
  parse_cidr = λ s. some (v4 167772161, record { subnet = example_subnet; bits = 32 });
  parse_ip = λ s. none;
  with_prefix = λ n ones. "10.0.0.1/29";
}

takes_first : resolve_address example_cidr "10.0.0.0/29" "" ≡ some ("10.0.0.1/29", 167772161)
unfolding resolve_address address_in default_address address_of_text checked_address
    first_usable_ipv4 subnet_contains same_network trim_space trim_left trim_right
takes_first = refl

resolve_address-IsInside_example : IsInside example_cidr example_subnet ("10.0.0.1/29", 167772161)
resolve_address-IsInside_example =
    resolve_address-IsInside example_cidr ("10.0.0.1/29", 167772161)
      (record { subnet = example_subnet; bits = 32 }) (v4 167772161) "10.0.0.0/29" "" refl
      takes_first
