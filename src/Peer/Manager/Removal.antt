-- ===== src/Peer/Manager/Removal.antt =====
-- The operations of internal/peer/manager.go on one active peer of a user: RemovePeer, GetPeerConfig
-- and ReplaceKey.
use shuosc_network_server_ba.Common.{
  ℕ, String, Bool, true, false, List, [], ◌∷◌, first, str_eq, if◌then◌else◌,
}
use shuosc_network_server_ba.Model.{Peer}
use shuosc_network_server_ba.World.{
  Env, Device, WgPeer, invalid_uuid, invalid_key, no_active_peer, Result, ok, err, Action, ◌>>=◌,
  ◌>>◌, lift, or_fail, configure_device, read_device,
}
use shuosc_network_server_ba.Store.Peers.{find_active_by_user_id, update_status, update_public_key}
use shuosc_network_server_ba.Peer.Manager.{
  PeerRegistration, holds_key, remove_config, add_config, peers_config, release_ip, registration,
}

-- The active peer of a user with a key.
unfoldable pub find_target : Env → String → String → Action Peer
find_target env user_id key = do
  uid ← lift (or_fail (env.parse_uuid user_id) invalid_uuid)
  peers ← find_active_by_user_id uid
  lift (or_fail (first (holds_key key) peers) no_active_peer)

-- RemovePeer.
unfoldable pub remove_peer : Env → String → String → Action (Unit {0})
remove_peer env user_id pub_key = do
  target ← find_target env user_id pub_key
  key ← lift (or_fail (env.parse_key pub_key) invalid_key)
  configure_device env (peers_config (remove_config key ∷ []))
  update_status target.id "disconnected"
  release_ip target.assigned_ip

abbrev pub on_device : Env → String → List WgPeer → Bool
on_device env key [] = false
on_device env key (p ∷ ps) =
    if str_eq (env.key_text p.public_key) key then true else on_device env key ps

-- An error of Device counts as not connected.
unfoldable pub device_connected : Env → String → Result Device → Bool
device_connected env key (ok d) = on_device env key d.peers
device_connected env key (err e) = false

unfoldable pub connected_now : Env → String → Action Bool
unfolding device_connected
connected_now env key w = let (r, w') = read_device w in (ok (device_connected env key r), w')

-- GetPeerConfig.
unfoldable pub get_peer_config : Env → String → String → Action PeerRegistration
get_peer_config env user_id pub_key = do
  target ← find_target env user_id pub_key
  connected ← connected_now env pub_key
  registration env target.public_key target.assigned_ip connected

-- ReplaceKey: the device first, then the database.
unfoldable pub replace_key : Env → String → ℕ → ℕ → Action (Unit {0})
replace_key env user_id old_key new_key = do
  target ← find_target env user_id (env.key_text old_key)
  configure_device env
      (peers_config (remove_config old_key ∷ add_config env new_key target.assigned_ip ∷ []))
  update_public_key target.id (env.key_text new_key)
