-- ===== src/Api/Router/Restart.antt =====
-- A restart of the server: the allocator is new, and Reconcile of internal/peer/manager.go brings it
-- into agreement with the database.
use shuosc_network_server_ba.Common.{ℕ, ◌≤◌, String, ◌≡◌, count}
use shuosc_network_server_ba.Common.Text.{Text}
use shuosc_network_server_ba.Model.{Peer}
use shuosc_network_server_ba.World.{World, Db}
use shuosc_network_server_ba.Store.Peers.{has_id, has_key}
use shuosc_network_server_ba.Store.Peers.Counts.{leases}
use shuosc_network_server_ba.Peer.Ipam.{Ipam}
use shuosc_network_server_ba.Api.Router.Leases.{Consistent}

-- What a table of peers has to hold by itself: no two rows have an id or a key in common, and no two
-- active rows an address.
pub record IsDistinct (db : Db) : Type 0 where
  pub ids : (id : ℕ) → count (has_id id) db.peers ≤ 1
  pub fresh : (id : ℕ) → db.next_id ≤ id → count (has_id id) db.peers ≡ 0
  pub keys : (key : String) → count (has_key key) db.peers ≤ 1
  pub addresses : (t : Text) → count (leases t) db.peers ≤ 1

-- The same ids, keys and leases.
record Alike (u w : World) : Type 0 where
  ids : (id : ℕ) → count (has_id id) w.db.peers ≡ count (has_id id) u.db.peers
  keys : (key : String) → count (has_key key) w.db.peers ≡ count (has_key key) u.db.peers
  addresses : (t : Text) → count (leases t) w.db.peers ≡ count (leases t) u.db.peers
  next_id : w.db.next_id ≡ u.db.next_id
