-- ===== src/Examples/Devices.antt =====
-- The theorems on the WireGuard device at concrete values.
use shuosc_network_server_ba.Common.{
  ℕ, zero, suc, ◌≡◌, refl, sym, ap, ◌∙◌, String, Bool, true, false, Option, none, some, List, [],
  ◌∷◌, ◌==◌, All, arith, select, if◌then◌else◌,
}
use shuosc_network_server_ba.Common.Text.{bytes, text_eq, contains, add, decimal}
use shuosc_network_server_ba.World.{
  World, Env, Device, WgPeer, PeerConfig, ok, ◌>>=◌, query, query_rows, read_rows, call, gets, pure,
  exec, next_fault, write_db, write_device, modify, configure_device, read_device,
}
use shuosc_network_server_ba.Store.Rows.{update_where}
use shuosc_network_server_ba.Store.Peers.Active.{list_active-whole}
use shuosc_network_server_ba.Peer.Ipam.{
  v4, reserve, subnet_contains, same_network, print_ip, parse_ip, parse_form,
}
use shuosc_network_server_ba.Peer.Ipam.Dotted.{dotted, parse_ipv4, parse_fields}
use shuosc_network_server_ba.Store.Peers.{is_active_peer, list_active, update_last_seen, set_peer}
use shuosc_network_server_ba.Peer.Manager.{reserve_ip, keep_reserved}
use shuosc_network_server_ba.Peer.Manager.Reconcile.{
  reconcile, reserve_all, compare_rows, touch, apply_changes, re_add, missing_config, surplus,
}
use shuosc_network_server_ba.Peer.Manager.Reconcile.Changes.{on_device, told, listed, IsReadable}
use shuosc_network_server_ba.Peer.Manager.Reconcile.Device.{TakesChanges, reconcile-devices}
use shuosc_network_server_ba.Peer.Manager.Server.{rotate_server_key, set_wg_enabled, enable_wg}
use shuosc_network_server_ba.Peer.Manager.Server.Restored.{
  TakesAll, IsRestored, rotate_server_key-ok, set_wg_enabled-ok,
}
use shuosc_network_server_ba.Examples.Worlds.{
  example_env, example_world, example_db, others, apply_peers, example_peer,
}

-- Keys whose texts read back: the text has as many letters as the key says.
abbrev unary : ℕ → String
unary zero = ""
unary (suc n) = String.◌∷◌ "k" (unary n)

abbrev letters : String → ℕ
letters String.[] = 0
letters (String.◌∷◌ c s) = suc (letters s)

letters-unary : (n : ℕ) → letters (unary n) ≡ n
letters-unary zero = refl
letters-unary (suc n) = ap suc (letters-unary n)

abbrev unary_env : Env
unary_env = record example_env { parse_key = λ s. some (letters s); key_text = unary }

on_device-others :
    (a k : ℕ) (qs : List WgPeer)
    → on_device k (others a qs) ≡ (if a == k then false else on_device k qs)
on_device-others a k [] = ground arith
on_device-others a k (q ∷ qs) = ground (arith, on_device-others a k qs)

on_device-apply_peer :
    (c : PeerConfig) (k : ℕ) (qs : List WgPeer)
    → on_device k (apply_peers (c ∷ []) qs) ≡ told k (c ∷ []) (on_device k qs)
on_device-apply_peer c k qs = ground (arith, on_device-others c.public_key k qs)

on_device-apply_peers :
    (k : ℕ) (cs : List PeerConfig) (qs : List WgPeer)
    → on_device k (apply_peers cs qs) ≡ told k cs (on_device k qs)
on_device-apply_peers k [] qs = refl
on_device-apply_peers k (c ∷ cs) qs =
    on_device-apply_peers k cs _ ∙ ap (told k cs) (on_device-apply_peer c k qs)

abbrev device_of : Device → Option Device → Device
device_of d none = d
device_of d (some e) = e

unary_env-TakesChanges : TakesChanges unary_env
unary_env-TakesChanges cs d d' e k =
    ap (λ (o : Option Device). on_device k (device_of d o).peers) (sym e)
    ∙ on_device-apply_peers k cs d.peers

-- One row that the device has, one that it lacks, and a key on the device that no row has.
abbrev out_of_step : World
out_of_step = record example_world {
  db = record example_db {
    peers =
        record example_peer { public_key = "kkkkkkk" }
        ∷ record example_peer { id = 4; public_key = "kkk"; assigned_ip = bytes "10.0.0.2" }
        ∷ [];
  };
  device = record {
    private_key = 9;
    listen_port = 51820;
    peers =
        record { public_key = 7; allowed_ips = []; last_handshake = some 50 }
        ∷ record { public_key = 2; allowed_ips = []; last_handshake = none }
        ∷ [];
  };
}

reconcile-returns : (reconcile unary_env out_of_step).0 ≡ ok tt
unfolding reconcile reserve_all compare_rows touch apply_changes re_add missing_config surplus
    list_active read_device reserve_ip keep_reserved reserve subnet_contains same_network print_ip
    parse_ip parse_form parse_ipv4 parse_fields dotted decimal contains add text_eq ◌>>=◌ query
    query_rows read_rows call gets pure exec next_fault write_db write_device configure_device
    update_last_seen set_peer update_where
reconcile-returns = refl

unary-IsReadable : All (IsReadable unary_env) (select is_active_peer out_of_step.db.peers)
unfolding parse_ip parse_form parse_ipv4 parse_fields dotted decimal text_eq
unary-IsReadable = (
  record { key = 7; text = refl; address = v4 167772161; readable = refl },
  (record { key = 3; text = refl; address = v4 167772162; readable = refl }, tt),
)

reconcile-devices_example :
    on_device 3 (reconcile unary_env out_of_step).1.device.peers
    ≡ listed "kkk" (select is_active_peer out_of_step.db.peers)
reconcile-devices_example =
    reconcile-devices out_of_step unary_env (select is_active_peer out_of_step.db.peers)
      (λ k. ap some (letters-unary k)) unary_env-TakesChanges (list_active-whole out_of_step tt)
      unary-IsReadable reconcile-returns 3

-- An environment whose device takes keys and replacements of the peers too.
abbrev key_or : Option ℕ → ℕ → ℕ
key_or none k = k
key_or (some a) k = a

abbrev replacing_env : Env
replacing_env = record unary_env {
  configure = λ cfg d. some (record d {
    private_key = key_or cfg.private_key d.private_key;
    peers = apply_peers cfg.peers (if cfg.replace_peers then [] else d.peers);
  });
}

replacing_env-TakesAll : TakesAll replacing_env
replacing_env-TakesAll cfg d d' key all named e = (
  sym (ap (λ (o : Option Device). (device_of d o).private_key) e)
      ∙ ap (λ o. key_or o d.private_key) named,
  λ k.
      sym (ap (λ (o : Option Device). on_device k (device_of d o).peers) e)
      ∙ on_device-apply_peers k cfg.peers _
      ∙ ap (λ (b : Bool). told k cfg.peers (on_device k (if b then [] else d.peers))) all,
)

replacing-IsReadable : All (IsReadable replacing_env) (select is_active_peer out_of_step.db.peers)
unfolding parse_ip parse_form parse_ipv4 parse_fields dotted decimal text_eq
replacing-IsReadable = (
  record { key = 7; text = refl; address = v4 167772161; readable = refl },
  (record { key = 3; text = refl; address = v4 167772162; readable = refl }, tt),
)

rotate-returns : (rotate_server_key replacing_env 12 out_of_step).0 ≡ ok 12
unfolding rotate_server_key list_active ◌>>=◌ query query_rows read_rows call gets pure modify
    next_fault configure_device write_device
rotate-returns = refl

rotate_server_key-ok_example :
    (replacing_env.public_key 12 ≡ 12)
    × ((rotate_server_key replacing_env 12 out_of_step).1.server_key ≡ 12)
    × IsRestored replacing_env 12
        (select is_active_peer out_of_step.db.peers)
        (rotate_server_key replacing_env 12 out_of_step).1.device
rotate_server_key-ok_example =
    rotate_server_key-ok out_of_step replacing_env (select is_active_peer out_of_step.db.peers) 12
      12 (λ k. ap some (letters-unary k)) replacing_env-TakesAll (list_active-whole out_of_step tt)
      replacing-IsReadable rotate-returns

enable-returns : (set_wg_enabled replacing_env 51820 true out_of_step).0 ≡ ok tt
unfolding set_wg_enabled enable_wg list_active ◌>>=◌ query query_rows read_rows call gets pure
    next_fault configure_device write_device
enable-returns = refl

set_wg_enabled-ok_example :
    IsRestored replacing_env 9
      (select is_active_peer out_of_step.db.peers)
      (set_wg_enabled replacing_env 51820 true out_of_step).1.device
set_wg_enabled-ok_example =
    set_wg_enabled-ok out_of_step replacing_env (select is_active_peer out_of_step.db.peers) 51820
      true (λ k. ap some (letters-unary k)) replacing_env-TakesAll
      (list_active-whole out_of_step tt) replacing-IsReadable enable-returns
