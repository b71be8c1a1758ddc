-- ===== src/Peer/Manager/Runs.antt =====
-- Runs of the manager: requests of any users and administrators in any order, each with whatever calls failing, while
-- the clock and the device change in between.
use shuosc_network_server_ba.Common.{ℕ, ◌≤◌, String, Bool, List, count}
use shuosc_network_server_ba.Common.Text.{Text, contains}
use shuosc_network_server_ba.World.{World, Device, Env}
use shuosc_network_server_ba.Store.Rows.{one_if}
use shuosc_network_server_ba.Store.Peers.Counts.{IsConsistent, leases}
use shuosc_network_server_ba.Peer.Manager.{add_peer}
use shuosc_network_server_ba.Peer.Manager.Removal.{remove_peer, replace_key}
use shuosc_network_server_ba.Peer.Manager.Consistent.{add_peer-IsConsistent}
use shuosc_network_server_ba.Peer.Manager.Settled.{remove_peer-IsConsistent}
use shuosc_network_server_ba.Api.AdminPeers.{admin_disconnect_peer, admin_revoke_peer}
use shuosc_network_server_ba.Api.AdminPeers.Safe.{
  admin_disconnect_peer-IsConsistent, admin_revoke_peer-IsConsistent,
}
use shuosc_network_server_ba.Peer.Manager.Replaced.{replace_key-IsConsistent}

-- One request, or a change from outside.
pub data Step (env : Env) : World → World → Type 0 where
  adds : (w : World) (user_id : String) (key : ℕ) → Step env w (add_peer env user_id key w).1
  removes : (w : World) (user_id key : String) → Step env w (remove_peer env user_id key w).1
  replaces :
      (w : World) (user_id : String) (old_key new_key : ℕ)
      → Step env w (replace_key env user_id old_key new_key w).1
  disconnects : (w : World) (peer_id : String) → Step env w (admin_disconnect_peer env peer_id w).1
  revokes : (w : World) (peer_id : String) → Step env w (admin_revoke_peer env peer_id w).1
  outside :
      (w : World) (device : Device) (now : ℕ) (faults : List Bool)
      → Step env w (record w { device = device; now = now; faults = faults })

pub data Run (env : Env) : World → World → Type 0 where
  start : (w : World) → Run env w w
  next : {u v w : World} → Run env u v → Step env v w → Run env u w

Step-IsConsistent :
    (env : Env) {v w : World}
    → Step env v w
    → IsConsistent v.ipam.used v.db
    → IsConsistent w.ipam.used w.db
Step-IsConsistent env (adds w user_id key) h = add_peer-IsConsistent w env user_id key h
Step-IsConsistent env (removes w user_id key) h = remove_peer-IsConsistent w env user_id key h
Step-IsConsistent env (replaces w user_id old_key new_key) h =
    replace_key-IsConsistent w env user_id old_key new_key h
Step-IsConsistent env (disconnects w peer_id) h = admin_disconnect_peer-IsConsistent env peer_id w h
Step-IsConsistent env (revokes w peer_id) h = admin_revoke_peer-IsConsistent env peer_id w h
Step-IsConsistent env (outside w device now faults) h = h

Run-IsConsistent :
    (env : Env) {u w : World}
    → Run env u w
    → IsConsistent u.ipam.used u.db
    → IsConsistent w.ipam.used w.db
Run-IsConsistent env (start w) h = h
Run-IsConsistent env (next r s) h = Step-IsConsistent env s (Run-IsConsistent env r h)

-- From a consistent world, however the requests come and whichever calls fail, an address is leased
-- to at most one active row, and to none unless it is in use in the allocator.
pub Run-leases :
    (env : Env) (u w : World) (t : Text)
    → IsConsistent u.ipam.used u.db
    → Run env u w
    → count (leases t) w.db.peers ≤ one_if (contains w.ipam.used t)
Run-leases env u w t h r = let c = Run-IsConsistent env r h in c.leased t
