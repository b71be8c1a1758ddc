-- ===== src/Peer/Manager.antt =====
-- internal/peer/manager.go: the manager of WireGuard peers, over the stores, the device and the
-- allocator of the world.
pub mod Admission
pub mod Removal
pub mod Reconcile
pub mod Server
pub mod Atomic
pub mod Outcome
pub mod Consistent
pub mod Removed
pub mod Settled
pub mod Replaced
pub mod Runs
use shuosc_network_server_ba.Common.{
  ℕ, String, Bool, true, false, ◌&&◌, ◌||◌, not, Option, none, some, List, [], ◌∷◌, ◌++◌, ◌==◌,
  str_eq, leb, if◌then◌else◌, first, select, length,
}
use shuosc_network_server_ba.Common.Text.{Text}
use shuosc_network_server_ba.Model.{User, Peer, is_active}
use shuosc_network_server_ba.World.{
  World, Db, Device, WgPeer, PeerConfig, WgConfig, Env, Error, too_many_peers, peer_exists,
  peer_revoked, no_active_peer, account_inactive, no_ip_available, invalid_uuid, invalid_key,
  invalid_ip, Result, ok, err, Action, pure, fail, lift, gets, modify, ◌>>=◌, ◌>>◌, check, or_fail,
  query, exec, configure_device, read_device, on_error, ignore,
}
use shuosc_network_server_ba.Peer.Ipam.{Ipam, Subnet, allocate, release, reserve, parse_ip}
use shuosc_network_server_ba.Store.Users.Find.{find_user_by_id}
use shuosc_network_server_ba.Store.Peers.{
  NewPeer, find_active_by_user_id, find_by_public_key, list_active, count_active_by_user_id, create,
  activate, update_status, update_public_key, update_last_seen,
}

pub record PeerRegistration : Type 0 where
  pub public_key : String
  pub assigned_ip : Text
  pub allowed_ips : List Subnet
  pub endpoint : String
  pub server_public_key : String
  pub persistent_keepalive : ℕ
  pub connected : Bool

-- The allocator under its mutex.
unfoldable pub take_address : Option (Text × Ipam) → Action Text
take_address none w = (err no_ip_available, w)
take_address (some (ip, i)) w = (ok ip, record w { ipam = i })

unfoldable pub allocate_ip : Action Text
unfolding take_address
allocate_ip w = take_address (allocate w.ipam) w

unfoldable pub release_ip : Text → Action (Unit {0})
release_ip ip = modify (λ w. record w { ipam = release ip w.ipam })

unfoldable pub keep_reserved : Option Ipam → Action (Unit {0})
keep_reserved none w = (err invalid_ip, w)
keep_reserved (some i) w = (ok tt, record w { ipam = i })

unfoldable pub reserve_ip : Env → Text → Action (Unit {0})
unfolding keep_reserved
reserve_ip env ip w = keep_reserved (reserve env.ip6 ip w.ipam) w

-- A configuration that changes the given peers and nothing else.
abbrev pub peers_config : List PeerConfig → WgConfig
peers_config ps = record {
  private_key = none;
  listen_port = none;
  replace_peers = false;
  peers = ps;
}

abbrev pub add_config : Env → ℕ → Text → PeerConfig
add_config env key ip = record {
  public_key = key;
  remove = false;
  replace_allowed_ips = false;
  allowed_ips = parse_ip env.ip6 ip ∷ [];
}

abbrev pub remove_config : ℕ → PeerConfig
remove_config key = record {
  public_key = key;
  remove = true;
  replace_allowed_ips = false;
  allowed_ips = [];
}

-- The loop of AddPeer and the others over the active peers of the user.
abbrev pub holds_key : String → Peer → Bool
holds_key key p = str_eq p.public_key key

abbrev pub any_with_key : String → List Peer → Bool
any_with_key key [] = false
any_with_key key (p ∷ ps) = if str_eq p.public_key key then true else any_with_key key ps

unfoldable pub inactive : Option User → Bool
inactive none = true
inactive (some u) = not (is_active u)

abbrev pub max_peers_of : Option User → ℕ
max_peers_of none = 0
max_peers_of (some u) = u.max_peers

-- The tests of AddPeer on a row that has the key already.
abbrev pub key_refused : ℕ → Option Peer → Option Error
key_refused uid none = none
key_refused uid (some p) =
    if not (p.user_id == uid)
    then some peer_exists
    else if str_eq p.status "active"
    then some peer_exists
    else if not (str_eq p.status "disconnected")
    then some peer_revoked
    else none

abbrev pub refuse : Option Error → Action (Unit {0})
refuse none = pure tt
refuse (some e) = fail e

-- AddPeer up to the allocation: the user's id and the row that has the key, if any.
unfoldable pub admit : Env → String → ℕ → Action (ℕ × Option Peer)
unfolding inactive
admit env user_id pub_key = do
  uid ← lift (or_fail (env.parse_uuid user_id) invalid_uuid)
  user ← find_user_by_id uid
  check (inactive user) account_inactive
  active ← count_active_by_user_id uid
  check (leb (max_peers_of user) active) too_many_peers
  peers ← find_active_by_user_id uid
  check (any_with_key (env.key_text pub_key) peers) peer_exists
  existing ← find_by_public_key (env.key_text pub_key)
  refuse (key_refused uid existing)
  pure (uid, existing)

unfoldable pub registration : Env → String → Text → Bool → Action PeerRegistration
registration env key ip connected = gets λ w. record {
  public_key = key;
  assigned_ip = ip;
  allowed_ips = w.ipam.subnet ∷ [];
  endpoint = env.endpoint;
  server_public_key = env.key_text (env.public_key w.server_key);
  persistent_keepalive = 25;
  connected = connected;
}

-- The row that AddPeer activates or creates, and its key.
unfoldable pub persist : Env → ℕ → Option Peer → ℕ → Text → Action String
persist env uid (some existing) pub_key ip = do activate existing.id ip; pure existing.public_key
persist env uid none pub_key ip = do
  created ← create (record {
    user_id = uid;
    public_key = env.key_text pub_key;
    assigned_ip = ip;
    status = "active";
    last_seen = none;
  })
  pure (env.key_text pub_key)

-- AddPeer from the allocation on, with what it takes back when a later step fails.
unfoldable pub install : Env → ℕ → Option Peer → ℕ → Action PeerRegistration
install env uid existing pub_key = do
  ip ← allocate_ip
  on_error (configure_device env (peers_config (add_config env pub_key ip ∷ []))) (release_ip ip)
  key ←
      on_error (persist env uid existing pub_key ip) (do
        ignore (configure_device env (peers_config (remove_config pub_key ∷ [])))
        release_ip ip)
  registration env key ip false

-- AddPeer.
unfoldable pub add_peer : Env → String → ℕ → Action PeerRegistration
add_peer env user_id pub_key = do
  (uid, existing) ← admit env user_id pub_key
  install env uid existing pub_key
