-- ===== src/Examples/Peers.antt =====
-- The theorems on the peer manager at example worlds.
use shuosc_network_server_ba.Common.{
  ◌≤◌, suc, ◌≡◌, refl, true, false, some, none, [], ◌∷◌, count, first, All, select, arith,
}
use shuosc_network_server_ba.Common.Text.{bytes, contains, add, delete, decimal, text_eq}
use shuosc_network_server_ba.Model.{is_active, Peer}
use shuosc_network_server_ba.World.{
  World, err, ok, db_failure, wg_failure, ◌>>=◌, lift, query, query_rows, read_rows, call, gets,
  pure, fail, modify, exec, next_fault, write_db, write_device, after_error, on_error, ignore,
  configure_device, no_active_peer, read_device, Device,
}
use shuosc_network_server_ba.Store.Rows.{update_where}
use shuosc_network_server_ba.Store.Users.Find.{find_user_by_id, has_user_id}
use shuosc_network_server_ba.Store.Peers.{
  count_active_by_user_id, find_active_by_user_id, find_by_public_key, create, activate,
  insert_peer, row_of, set_peer, is_active_of, update_status, update_public_key, list_active,
  is_active_peer,
}
use shuosc_network_server_ba.Store.Peers.Counts.{IsConsistent}
use shuosc_network_server_ba.Store.Peers.Active.{list_active-whole}
use shuosc_network_server_ba.Peer.Ipam.{
  allocate, allocate_from, scan, release, parse_ip, parse_form, v4, reserve, subnet_contains,
  same_network, print_ip,
}
use shuosc_network_server_ba.Peer.Ipam.Dotted.{dotted, parse_ipv4, parse_fields}
use shuosc_network_server_ba.Peer.Manager.{
  add_peer, admit, inactive, install, allocate_ip, take_address, release_ip, persist, registration,
  PeerRegistration, max_peers_of, keep_reserved, reserve_ip, peers_config, remove_config,
  add_config,
}
use shuosc_network_server_ba.Peer.Manager.Removal.{find_target, remove_peer, replace_key}
use shuosc_network_server_ba.Peer.Manager.Atomic.{Kept, add_peer-error-Kept}
use shuosc_network_server_ba.Peer.Manager.Outcome.{Added, add_peer-ok-Added}
use shuosc_network_server_ba.Peer.Manager.Consistent.{add_peer-count-le-limit}
use shuosc_network_server_ba.Peer.Manager.Removed.{
  Removed, remove_peer-ok-Removed, remove_peer-error-Kept,
}
use shuosc_network_server_ba.Peer.Manager.Replaced.{replace_key-error-Kept, replace_key-taken}
use shuosc_network_server_ba.Api.Router.Leases.{Consistent}
use shuosc_network_server_ba.Peer.Manager.Reconcile.{
  reconcile, reserve_all, compare_rows, touch, apply_changes, re_add, missing_config, surplus,
}
use shuosc_network_server_ba.Peer.Manager.Reconcile.Reserved.{IsDotted, reconcile-InUse}
use shuosc_network_server_ba.Examples.Worlds.{
  example_db, example_peer, example_env, example_world, failing_world, example_subnet,
}

-- The last call of AddPeer, the INSERT, fails.
abbrev full_disk : World
full_disk = failing_world (false ∷ false ∷ false ∷ false ∷ false ∷ false ∷ true ∷ [])

add_peer-fails : (add_peer example_env "u1" 5 full_disk).0 ≡ err db_failure
unfolding add_peer admit inactive install allocate_ip take_address release_ip persist registration
    ◌>>=◌ lift query query_rows read_rows call gets pure fail modify exec next_fault write_db
    write_device after_error on_error ignore configure_device find_user_by_id
    count_active_by_user_id find_active_by_user_id find_by_public_key create activate insert_peer
    row_of set_peer update_where allocate allocate_from scan release parse_ip parse_form dotted
    parse_ipv4 contains add delete decimal text_eq is_active
add_peer-fails = refl

add_peer-error-Kept_example : Kept full_disk (add_peer example_env "u1" 5 full_disk).1
add_peer-error-Kept_example =
    add_peer-error-Kept full_disk example_env "u1" 5 db_failure add_peer-fails

abbrev example_registration : PeerRegistration
example_registration = record {
  public_key = "k5";
  assigned_ip = bytes "10.0.0.2";
  allowed_ips = example_subnet ∷ [];
  endpoint = "203.0.113.1:51820";
  server_public_key = "k0";
  persistent_keepalive = 25;
  connected = false;
}

add_peer-returns : (add_peer example_env "u1" 5 example_world).0 ≡ ok example_registration
unfolding add_peer admit inactive install allocate_ip take_address release_ip persist registration
    ◌>>=◌ lift query query_rows read_rows call gets pure fail modify exec next_fault write_db
    write_device after_error on_error ignore configure_device find_user_by_id
    count_active_by_user_id find_active_by_user_id find_by_public_key create activate insert_peer
    row_of set_peer update_where allocate allocate_from scan release parse_ip parse_form dotted
    parse_ipv4 contains add delete decimal text_eq is_active
add_peer-returns = refl

add_peer-ok-Added_example :
    Added example_env example_world "u1" 5 example_registration
      (add_peer example_env "u1" 5 example_world).1
add_peer-ok-Added_example =
    add_peer-ok-Added example_world example_env "u1" 5 example_registration add_peer-returns

pub example_world-IsConsistent : IsConsistent example_world.ipam.used example_world.db
unfolding contains
example_world-IsConsistent = record {
  ids = λ id. ground arith;
  fresh = λ id l. ground arith;
  keys = λ key. ground arith;
  leased = λ t. ground arith;
}

add_peer-count-le-limit_example :
    (count (is_active_of 1) (add_peer example_env "u1" 5 example_world).1.db.peers
      ≡ suc (count (is_active_of 1) example_world.db.peers))
    × (count (is_active_of 1) (add_peer example_env "u1" 5 example_world).1.db.peers
        ≤ max_peers_of (first (has_user_id 1) example_world.db.users))
add_peer-count-le-limit_example =
    add_peer-count-le-limit example_world example_env "u1" 5 example_world-IsConsistent 1
      example_registration refl add_peer-returns

remove_peer-returns : (remove_peer example_env "u1" "k7" example_world).0 ≡ ok tt
unfolding remove_peer find_target update_status add_peer admit inactive install allocate_ip
    take_address release_ip persist registration ◌>>=◌ lift query query_rows read_rows call gets
    pure fail modify exec next_fault write_db write_device after_error on_error ignore
    configure_device find_user_by_id count_active_by_user_id find_active_by_user_id
    find_by_public_key create activate insert_peer row_of set_peer update_where allocate
    allocate_from scan release parse_ip parse_form dotted parse_ipv4 contains add delete decimal
    text_eq is_active
remove_peer-returns = refl

remove_peer-ok-Removed_example :
    Removed example_env example_world "u1" "k7" (remove_peer example_env "u1" "k7" example_world).1
remove_peer-ok-Removed_example =
    remove_peer-ok-Removed example_world example_env "u1" "k7" remove_peer-returns

remove_peer-fails : (remove_peer example_env "u1" "k5" example_world).0 ≡ err no_active_peer
unfolding remove_peer find_target update_status add_peer admit inactive install allocate_ip
    take_address release_ip persist registration ◌>>=◌ lift query query_rows read_rows call gets
    pure fail modify exec next_fault write_db write_device after_error on_error ignore
    configure_device find_user_by_id count_active_by_user_id find_active_by_user_id
    find_by_public_key create activate insert_peer row_of set_peer update_where allocate
    allocate_from scan release parse_ip parse_form dotted parse_ipv4 contains add delete decimal
    text_eq is_active
remove_peer-fails = refl

remove_peer-error-Kept_example :
    Kept example_world (remove_peer example_env "u1" "k5" example_world).1
remove_peer-error-Kept_example =
    remove_peer-error-Kept example_world example_env "u1" "k5" no_active_peer remove_peer-fails

-- The second call of ReplaceKey, that of the device, fails.
abbrev no_device : World
no_device = failing_world (false ∷ false ∷ true ∷ [])

replace_key-fails : (replace_key example_env "u1" 7 5 no_device).0 ≡ err wg_failure
unfolding replace_key find_target update_public_key add_peer admit inactive install allocate_ip
    take_address release_ip persist registration ◌>>=◌ lift query query_rows read_rows call gets
    pure fail modify exec next_fault write_db write_device after_error on_error ignore
    configure_device find_user_by_id count_active_by_user_id find_active_by_user_id
    find_by_public_key create activate insert_peer row_of set_peer update_where allocate
    allocate_from scan release parse_ip parse_form dotted parse_ipv4 contains add delete decimal
    text_eq is_active
replace_key-fails = refl

replace_key-error-Kept_example : Kept no_device (replace_key example_env "u1" 7 5 no_device).1
replace_key-error-Kept_example =
    replace_key-error-Kept no_device example_env "u1" 7 5 wg_failure replace_key-fails

abbrev after_two : World
after_two = (remove_peer example_env "u1" "k7" (add_peer example_env "u1" 5 example_world).1).1

-- Another row has the key that the peer is to get.
abbrev rival : Peer
rival = record example_peer { id = 5; public_key = "k5"; status = "disconnected" }

abbrev key_taken : World
key_taken = record example_world { db = record example_db { peers = example_peer ∷ rival ∷ [] } }

abbrev new_device : Device
new_device = record {
  private_key = 9;
  listen_port = 51820;
  peers =
      record { public_key = 5; allowed_ips = some (v4 167772161) ∷ []; last_handshake = none } ∷ [];
}

device_takes :
    example_env.configure
      (peers_config (remove_config 7 ∷ add_config example_env 5 example_peer.assigned_ip ∷ []))
      key_taken.device
    ≡ some new_device
unfolding parse_fields add_peer admit inactive install allocate_ip take_address release_ip persist
    registration ◌>>=◌ lift query query_rows read_rows call gets pure fail modify exec next_fault
    write_db write_device after_error on_error ignore configure_device find_user_by_id
    count_active_by_user_id find_active_by_user_id find_by_public_key create activate insert_peer
    row_of set_peer update_where allocate allocate_from scan release parse_ip parse_form dotted
    parse_ipv4 contains add delete decimal text_eq is_active
device_takes = refl

replace_key-taken_example :
    replace_key example_env "u1" 7 5 key_taken
    ≡ (err db_failure, record key_taken { device = new_device })
replace_key-taken_example =
    replace_key-taken key_taken example_env "u1" 7 5 1 example_peer rival new_device refl refl refl
      device_takes refl refl refl

-- After a restart the allocator is new.
abbrev restarted : World
restarted = record example_world { ipam = record { subnet = example_subnet; used = [] } }

reconcile-returns : (reconcile example_env restarted).0 ≡ ok tt
unfolding reconcile reserve_all compare_rows touch apply_changes re_add missing_config surplus
    list_active read_device reserve_ip keep_reserved reserve subnet_contains same_network print_ip
    parse_fields add_peer admit inactive install allocate_ip take_address release_ip persist
    registration ◌>>=◌ lift query query_rows read_rows call gets pure fail modify exec next_fault
    write_db write_device after_error on_error ignore configure_device find_user_by_id
    count_active_by_user_id find_active_by_user_id find_by_public_key create activate insert_peer
    row_of set_peer update_where allocate allocate_from scan release parse_ip parse_form dotted
    parse_ipv4 contains add delete decimal text_eq is_active
reconcile-returns = refl

example_peer-IsDotted : IsDotted example_peer
unfolding dotted decimal
example_peer-IsDotted = record { address = 167772161; fits = omega arith; text = refl }

reconcile-InUse_example :
    All
      (λ (p : Peer). contains (reconcile example_env restarted).1.ipam.used p.assigned_ip ≡ true)
      (select is_active_peer restarted.db.peers)
reconcile-InUse_example =
    reconcile-InUse restarted example_env (select is_active_peer restarted.db.peers)
      (list_active-whole restarted tt) (example_peer-IsDotted, tt) reconcile-returns
