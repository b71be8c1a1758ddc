-- ===== src/Punch/Probe.antt =====
-- The probes of internal/punch/service.go: the transactions that wait for an answer, Probe over the
-- servers, and the tests of Start. What arrives while a probe waits is an argument.
pub mod Answered
use shuosc_network_server_ba.Common.{
  ℕ, ◌+◌, ◌*◌, ◌^◌, String, ◌≡◌, Bool, true, false, ◌||◌, ◌&&◌, not, Option, none, some, List, [],
  ◌∷◌, ◌==◌, str_eq, first, if◌then◌else◌,
}
use shuosc_network_server_ba.Common.Text.{Text, text_eq}
use shuosc_network_server_ba.Common.Words.{is_empty}
use shuosc_network_server_ba.Common.Integers.{ℤ, pos, at_least, magnitude}
use shuosc_network_server_ba.Store.Rows.{update_where, delete_where}
use shuosc_network_server_ba.Punch.Stun.{
  Outcome, done, panicked, stuck, ◌>>=◌, Response, parse_binding_response,
}

-- An entry of the map `pending`: a channel with room for one result.
pub record Waiting : Type 0 where
  pub transaction : List ℕ
  pub result : Option Text

abbrev pub waits_for : List ℕ → Waiting → Bool
waits_for id e = text_eq e.transaction id

-- `select { case ch <- result: default: }`
abbrev pub put_result : Text → Waiting → Waiting
put_result endpoint e = elim e.result [ none ↦ record e { result = some endpoint } | some t ↦ e ]

-- handleSTUN: whether the packet was one, and what waits then.
unfoldable pub deliver : Response → List Waiting → Bool × List Waiting
deliver r pending =
    if r.is_ok
    then (true, update_where (waits_for r.transaction_id) (put_result r.endpoint) pending)
    else (false, pending)

unfoldable pub handle_stun : List ℕ → List Waiting → Outcome (Bool × List Waiting)
handle_stun packet pending = parse_binding_response packet >>= λ r. done (deliver r pending)

-- The packets of readLoop, one after another; what is no STUN answer goes to WireGuard.
unfoldable pub read_packets : List (List ℕ) → List Waiting → Outcome (List Waiting)
read_packets [] pending = done pending
read_packets (p ∷ ps) pending = handle_stun p pending >>= λ r. read_packets ps r.1

unfoldable pub result_for : List ℕ → List Waiting → Option Text
result_for id pending = elim (first (waits_for id) pending) [ none ↦ none | some e ↦ e.result ]

-- probeOne for the transaction that crypto/rand gives. `arrived` is what arrives before the time is
-- over, or `none` where the server does not resolve or the request is not sent.
unfoldable pub probe_one :
    List ℕ → Option (List (List ℕ)) → List Waiting → Outcome (Option Text × List Waiting)
probe_one id none pending = done (none, delete_where (waits_for id) pending)
probe_one id (some arrived) pending =
    read_packets arrived
      (record { transaction = id; result = none } ∷ delete_where (waits_for id) pending)
    >>= λ left. done (result_for id left, delete_where (waits_for id) left)

-- Probe: the first server that answers; `outcome` is probeOne of a server.
unfoldable pub probe : (String → Option Text) → List String → Option Text
probe outcome [] = none
probe outcome (s ∷ ss) =
    let rest = probe outcome ss in elim (outcome s) [ none ↦ rest | some endpoint ↦ some endpoint ]

-- Config of the service; the times are nanoseconds.
pub record PunchSettings : Type 0 where
  pub listen_port : ℤ
  pub wireguard_host : String
  pub wireguard_port : ℤ
  pub stun_servers : List String
  pub probe_timeout : ℤ
  pub keepalive_interval : ℤ

unfoldable pub is_local_host : String → Bool
is_local_host host = str_eq host "127.0.0.1" || str_eq host "localhost" || str_eq host "::1"

abbrev pub no_servers : List String → Bool
no_servers [] = true
no_servers (s ∷ ss) = false

unfoldable pub with_timing : PunchSettings → PunchSettings
with_timing cfg = record cfg {
  probe_timeout = if at_least 1 cfg.probe_timeout then cfg.probe_timeout else pos (5 * 10 ^ 9);
  keepalive_interval =
      if at_least 1 cfg.keepalive_interval then cfg.keepalive_interval else pos (20 * 10 ^ 9);
}

abbrev pub host_or_local : String → String
host_or_local host = if is_empty host then "127.0.0.1" else host

-- The tests of Start, in their order: `none` is an error.
unfoldable pub accept_settings : PunchSettings → Option PunchSettings
accept_settings cfg =
    if not (at_least 1 cfg.listen_port)
    then none
    else if not (at_least 1 cfg.wireguard_port)
    then none
    else if (magnitude cfg.listen_port == magnitude cfg.wireguard_port)
        && is_local_host (host_or_local cfg.wireguard_host)
    then none
    else if no_servers cfg.stun_servers
    then none
    else some (with_timing (record cfg { wireguard_host = host_or_local cfg.wireguard_host }))
