-- ===== src/Peer/Manager/Server.antt =====
-- The server's own key and interface in internal/peer/manager.go.
pub mod Restored
use shuosc_network_server_ba.Common.{
  ℕ, Bool, true, false, not, Option, none, some, List, [], ◌∷◌, ◌==◌, length,
}
use shuosc_network_server_ba.Model.{Peer}
use shuosc_network_server_ba.World.{
  Env, Device, PeerConfig, Result, ok, err, Action, ◌>>=◌, ◌>>◌, pure, gets, modify,
  configure_device, read_device,
}
use shuosc_network_server_ba.Store.Peers.{list_active}
use shuosc_network_server_ba.Peer.Ipam.{Ip, parse_ip}

-- The loops over the active rows: a row with an unreadable key or address is skipped.
unfoldable pub restored_with : Bool → Option ℕ → Option Ip → List PeerConfig → List PeerConfig
restored_with replace (some key) (some ip) rest =
    record {
      public_key = key;
      remove = false;
      replace_allowed_ips = replace;
      allowed_ips = some ip ∷ [];
    }
    ∷ rest
restored_with replace (some key) none rest = rest
restored_with replace none ip rest = rest

unfoldable pub restored : Env → Bool → List Peer → List PeerConfig
unfolding restored_with
restored env replace [] = []
restored env replace (p ∷ ps) =
    restored_with replace (env.parse_key p.public_key) (parse_ip env.ip6 p.assigned_ip)
      (restored env replace ps)

-- RotateServerKey.
unfoldable pub rotate_server_key : Env → ℕ → Action ℕ
rotate_server_key env new_key = do
  peers ← list_active
  configure_device env (record {
    private_key = some new_key;
    listen_port = none;
    replace_peers = true;
    peers = restored env true peers;
  })
  modify (λ w. record w { server_key = new_key })
  pure (env.public_key new_key)

-- enableWG, with the listen port of the manager.
unfoldable pub enable_wg : Env → ℕ → Action (Unit {0})
enable_wg env listen_port = do
  peers ← list_active
  key ← gets (λ w. w.server_key)
  configure_device env (record {
    private_key = some key;
    listen_port = some listen_port;
    replace_peers = true;
    peers = restored env false peers;
  })

-- disableWG: the zero key clears the private key.
unfoldable pub disable_wg : Env → Action (Unit {0})
disable_wg env =
    configure_device env
      (record { private_key = some 0; listen_port = none; replace_peers = true; peers = [] })

-- SetWGEnabled.
unfoldable pub set_wg_enabled : Env → ℕ → Bool → Action (Unit {0})
set_wg_enabled env listen_port true = enable_wg env listen_port
set_wg_enabled env listen_port false = disable_wg env

key_is_set : Result Device → Bool
key_is_set (ok d) = not (d.private_key == 0)
key_is_set (err e) = false

-- WGEnabled never fails: a device that is not found is not enabled.
unfoldable pub wg_enabled : Action Bool
unfolding key_is_set
wg_enabled w = let (r, w') = read_device w in (ok (key_is_set r), w')

peers_of : Result Device → ℕ
peers_of (ok d) = length d.peers
peers_of (err e) = 0

-- ActivePeerCount.
unfoldable pub active_peer_count : Action ℕ
unfolding peers_of
active_peer_count w = let (r, w') = read_device w in (ok (peers_of r), w')
