-- ===== src/Peer/Manager/Reconcile.antt =====
-- Reconcile of internal/peer/manager.go.
pub mod Reserved
pub mod Changes
pub mod Device
use shuosc_network_server_ba.Common.{
  ℕ, String, false, Option, none, some, List, [], ◌∷◌, ◌++◌, first, str_eq, if◌then◌else◌,
}
use shuosc_network_server_ba.Model.{Peer}
use shuosc_network_server_ba.World.{
  Env, WgPeer, PeerConfig, Action, ◌>>=◌, ◌>>◌, pure, configure_device, read_device,
}
use shuosc_network_server_ba.Store.Peers.{list_active, update_last_seen, has_key}
use shuosc_network_server_ba.Peer.Ipam.{Ip, parse_ip}
use shuosc_network_server_ba.Peer.Manager.{peers_config, remove_config, reserve_ip}

-- The first loop: the allocator learns the addresses of the active rows.
unfoldable pub reserve_all : Env → List Peer → Action (Unit {0})
reserve_all env [] = pure tt
reserve_all env (p ∷ ps) = do reserve_ip env p.assigned_ip; reserve_all env ps

-- `wgPeersByKey`: the device's peers by the text of their key, the last one of a key.
abbrev pub wg_by_key : Env → String → List WgPeer → Option WgPeer
wg_by_key env key [] = none
wg_by_key env key (p ∷ ps) = elim (wg_by_key env key ps) [
  | some q ↦ some q
  | none ↦ if str_eq (env.key_text p.public_key) key then some p else none
]

unfoldable pub missing_config : Option ℕ → Option Ip → List PeerConfig
missing_config (some key) (some ip) =
    record {
      public_key = key;
      remove = false;
      replace_allowed_ips = false;
      allowed_ips = some ip ∷ [];
    }
    ∷ []
missing_config (some key) none = []
missing_config none ip = []

-- A row that the device lacks is added again, if its key and its address can be read.
unfoldable pub re_add : Env → Peer → List PeerConfig
unfolding missing_config
re_add env p = missing_config (env.parse_key p.public_key) (parse_ip env.ip6 p.assigned_ip)

unfoldable pub touch : Peer → Option ℕ → Action (Unit {0})
touch p none = pure tt
touch p (some t) = update_last_seen p.id t

-- The second loop: the changes for the rows that the device lacks; the others get the time of their
-- last handshake.
unfoldable pub compare_rows : Env → List WgPeer → List Peer → Action (List PeerConfig)
unfolding touch
compare_rows env wg [] = pure []
compare_rows env wg (p ∷ ps) = elim (wg_by_key env p.public_key wg) [
  | none ↦ do rest ← compare_rows env wg ps; pure (re_add env p ++ rest)
  | some q ↦ do touch p q.last_handshake; compare_rows env wg ps
]

-- The third loop: the device's peers that no active row has are removed. The loop ranges over the map
-- of the device's peers, so that each key comes once; the order of a Go map is open, here it is that
-- of the device.
unfoldable pub surplus : Env → List Peer → List WgPeer → List PeerConfig
surplus env rows [] = []
surplus env rows (q ∷ qs) =
    let rest = surplus env rows qs in
    elim (first (has_key (env.key_text q.public_key)) rows) [
      | some p ↦ rest
      | none ↦ elim (wg_by_key env (env.key_text q.public_key) qs) [
        | some later ↦ rest
        | none ↦ remove_config q.public_key ∷ rest
      ]
    ]

unfoldable pub apply_changes : Env → List PeerConfig → Action (Unit {0})
apply_changes env [] = pure tt
apply_changes env (c ∷ cs) = configure_device env (peers_config (c ∷ cs))

unfoldable pub reconcile : Env → Action (Unit {0})
unfolding apply_changes
reconcile env = do
  rows ← list_active
  reserve_all env rows
  device ← read_device
  missing ← compare_rows env device.peers rows
  apply_changes env (missing ++ surplus env rows device.peers)
