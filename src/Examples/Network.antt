-- ===== src/Examples/Network.antt =====
-- The theorems on addresses, rate limits and STUN packets at concrete values.
use shuosc_network_server_ba.Common.{
  ℕ, ◌+◌, ◌≤◌, ◌<◌, ◌↔◌, ◌≡◌, ◌≢◌, refl, true, false, some, none, List, [], ◌∷◌, ◌++◌, count,
  eq_iff, arith,
}
use shuosc_network_server_ba.Common.Text.{bytes, contains, add, decimal, text_eq}
use shuosc_network_server_ba.Peer.Ipam.{
  v4, Ipam, allocate, allocate_from, scan, reserve, parse_ip, parse_form, subnet_contains,
  same_network, print_ip, new_ipam,
}
use shuosc_network_server_ba.Peer.Ipam.Dotted.{dotted, parse_ipv4, parse_fields}
use shuosc_network_server_ba.Peer.Ipam.Allocation.{
  IsV4Subnet, IsHost, allocate-lowest, allocate-none,
}
use shuosc_network_server_ba.Peer.Ipam.Reservation.{allocate-reserve}
use shuosc_network_server_ba.Api.RateLimit.{new_bucket, new_rate_limiter}
use shuosc_network_server_ba.Api.RateLimit.Window.{passed, in_window, passed_by_rule, allow-by-rule}
use shuosc_network_server_ba.Api.RateLimit.Isolation.{Call, passed_under, passed_under-le-limit}
use shuosc_network_server_ba.Api.RateLimit.Endpoints.{
  next, Request, login, register, minute, logins_through, login_rate_limit,
  login_rate_limit-le-five,
}
use shuosc_network_server_ba.Punch.Stun.{
  done, Response, parse_binding_response, parse_address_attribute, binding_success, join_host_port,
  zero_id,
}
use shuosc_network_server_ba.Punch.Stun.Total.{parse_binding_response_total}
use shuosc_network_server_ba.Punch.Stun.Attributes.{Attribute, encode_attribute}
use shuosc_network_server_ba.Punch.Stun.RoundTrip.{
  encode_attributes, message, xor_mapped, parse_binding_response-message,
}
use shuosc_network_server_ba.Examples.Worlds.{example_env, example_subnet}

abbrev example_ipam : Ipam
example_ipam = record { subnet = example_subnet; used = bytes "10.0.0.1" ∷ [] }

abbrev next_ipam : Ipam
next_ipam = record { subnet = example_subnet; used = bytes "10.0.0.2" ∷ bytes "10.0.0.1" ∷ [] }

example_subnet-IsV4Subnet : IsV4Subnet example_subnet 167772160
example_subnet-IsV4Subnet = record { address = refl; masked = refl; fits = omega arith }

allocates : allocate example_ipam ≡ some (bytes "10.0.0.2", next_ipam)
unfolding allocate allocate_from scan dotted decimal contains text_eq add
allocates = refl

allocate-lowest_example :
    (k : ℕ) × IsHost example_subnet k
    × (bytes "10.0.0.2" ≡ dotted (167772160 + k))
    × (contains example_ipam.used (bytes "10.0.0.2") ≡ false)
    × ((j : ℕ) → 1 ≤ j → j < k → contains example_ipam.used (dotted (167772160 + j)) ≡ true)
    × (next_ipam ≡ record example_ipam { used = bytes "10.0.0.2" ∷ example_ipam.used })
allocate-lowest_example =
    allocate-lowest example_ipam 167772160 example_subnet-IsV4Subnet (bytes "10.0.0.2") next_ipam
      allocates

allocate-none_example : (allocate example_ipam ≡ none) ↔ (
    (k : ℕ) → IsHost example_subnet k → contains example_ipam.used (dotted (167772160 + k)) ≡ true)
allocate-none_example = allocate-none example_ipam 167772160 example_subnet-IsV4Subnet

reserves : reserve example_env.ip6 (bytes "10.0.0.1") (new_ipam example_subnet) ≡ some example_ipam
unfolding reserve parse_ip parse_form parse_ipv4 parse_fields subnet_contains same_network print_ip
    new_ipam allocate allocate_from scan dotted decimal contains text_eq add
reserves = refl

parses : parse_ip example_env.ip6 (bytes "10.0.0.1") ≡ some (v4 167772161)
unfolding reserve parse_ip parse_form parse_ipv4 parse_fields subnet_contains same_network print_ip
    new_ipam allocate allocate_from scan dotted decimal contains text_eq add
parses = refl

allocate-reserve_example : bytes "10.0.0.2" ≢ dotted 167772161
unfolding new_ipam
allocate-reserve_example =
    allocate-reserve example_env.ip6 (new_ipam example_subnet) example_ipam (bytes "10.0.0.1")
      reserves 167772160 167772161 (bytes "10.0.0.2") next_ipam example_subnet-IsV4Subnet parses
      allocates

-- Two calls a minute, and four calls.
abbrev example_times : List ℕ
example_times = 10 ∷ 20 ∷ 30 ∷ 75 ∷ []

allow-by-rule_example :
    passed [] example_times (new_bucket 2 60) ≡ passed_by_rule 2 60 [] example_times
allow-by-rule_example =
    allow-by-rule 2 60 example_times (omega arith, (omega arith, (omega arith, (omega arith, tt))))

abbrev example_calls : List Call
example_calls =
    record { at = 10; key = "peer:u1"; limit = 1; window = 60 }
    ∷ record { at = 20; key = "peer:u1"; limit = 1; window = 60 }
    ∷ []

passed_under-le-limit_example :
    count (in_window 20 60) (passed_under "peer:u1" [] example_calls new_rate_limiter) ≤ 1
passed_under-le-limit_example =
    passed_under-le-limit "peer:u1" 1 60 example_calls 20
      (λ e. (refl, refl), (λ e. (refl, refl), tt)) (omega arith, (omega arith, tt))

abbrev example_requests : List Request
example_requests =
    login 10 (some "20250001") ∷ register 15 "10.1.1.1" ∷ login 20 (some "20250001") ∷ []

login_rate_limit-le-five_example :
    (count (in_window 20 minute) (logins_through "20250001" [] example_requests new_rate_limiter)
      ≤ 5)
    × (login_rate_limit 30 none new_rate_limiter ≡ (next, new_rate_limiter))
login_rate_limit-le-five_example =
    login_rate_limit-le-five "20250001" example_requests 20 30 new_rate_limiter
      (λ e. ground (arith, (eq_iff "20250001" "").1 e)) (omega arith, (omega arith, tt))

parse_binding_response_total_example :
    (r : Response) × (parse_binding_response (1 ∷ 1 ∷ 0 ∷ []) ≡ done r)
parse_binding_response_total_example = parse_binding_response_total (1 ∷ 1 ∷ 0 ∷ [])

-- A SOFTWARE attribute of three bytes.
abbrev software : Attribute
software = record { type_of = 32802; value = 97 ∷ 98 ∷ 99 ∷ [] }

software_skipped : parse_address_attribute 32802 (97 ∷ 98 ∷ 99 ∷ []) ≡ none
unfolding parse_address_attribute
software_skipped = refl

parse_binding_response-message_example :
    parse_binding_response (
      message binding_success zero_id (
        encode_attributes (software ∷ []) ++ (encode_attribute (xor_mapped 167772161 51820) ++ [])))
    ≡ done (record {
      transaction_id = zero_id;
      endpoint = join_host_port 167772161 51820;
      is_ok = true;
    })
parse_binding_response-message_example =
    parse_binding_response-message zero_id [] (software ∷ []) 167772161 51820 refl
      (((omega arith, omega arith), software_skipped), tt) (omega arith) (omega arith) (omega arith)
