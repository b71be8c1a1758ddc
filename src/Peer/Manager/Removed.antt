-- ===== src/Peer/Manager/Removed.antt =====
-- What RemovePeer has done when it returns, and what it leaves alone when it fails.
use shuosc_network_server_ba.Common.{
  ℕ, String, ◌≡◌, sym, ◌∙◌, ap, true, ◌&&◌, Option, none, some, [], ◌∷◌, arith, str_eq, ==_iff,
  first, select, first-select,
}
use shuosc_network_server_ba.Model.{Peer}
use shuosc_network_server_ba.World.{
  World, Db, Env, Error, ok, err, lift, modify, or_fail, configure_device,
}
use shuosc_network_server_ba.World.Rules.{Same, Same-refl, first-rows_read}
use shuosc_network_server_ba.World.Triples.{
  Triple, Triple-bind, Triple-ok, Triple-err, Triple-exec, Triple-configure,
}
use shuosc_network_server_ba.World.Gates.{
  gate-rows, gate-lift, last-lift, Triple-given, Triple-weaken,
}
use shuosc_network_server_ba.Store.Rows.{update_where}
use shuosc_network_server_ba.Store.Peers.{
  has_id, is_active_of, find_active_by_user_id, update_status, set_peer, with_status,
}
use shuosc_network_server_ba.Peer.Ipam.{release}
use shuosc_network_server_ba.Peer.Manager.{holds_key, peers_config, remove_config, release_ip}
use shuosc_network_server_ba.Peer.Manager.Removal.{find_target, remove_peer}
use shuosc_network_server_ba.Peer.Manager.Atomic.{Kept}
use shuosc_network_server_ba.Peer.Manager.Consistent.{set_peer-ok}

-- The row that an operation on a user's peer is about: the first active one of the user with the key.
pub record IsTarget (env : Env) (db : Db) (user_id key : String) (p : Peer) : Type 0 where
  pub uid : ℕ
  pub parsed : env.parse_uuid user_id ≡ some uid
  pub row : first (λ q. holds_key key q && is_active_of uid q) db.peers ≡ some p
  pub owner : p.user_id ≡ uid
  pub has_key : str_eq p.public_key key ≡ true
  pub active : str_eq p.status "active" ≡ true

pub found_some : {A : Type 0} (o : Option A) (e : Error) (a : A) → or_fail o e ≡ ok a → o ≡ some a
found_some none e a h = ground arith
found_some (some b) e a h = ground arith

pub Same-Kept : (u w : World) → Same u w → Kept u w
Same-Kept u w s = record { db = s.db; ipam = s.ipam; server_key = s.server_key }

IsTarget-of :
    (env : Env) (db : Db) (user_id key : String) (uid : ℕ) (p : Peer)
    → env.parse_uuid user_id ≡ some uid
    → first (holds_key key) (select (is_active_of uid) db.peers) ≡ some p
    → IsTarget env db user_id key p
IsTarget-of env db user_id key uid p parsed e =
    let (holds, active, row) = first-select (holds_key key) (is_active_of uid) db.peers p e in
    record {
      uid = uid;
      parsed = parsed;
      row = row;
      owner = ground (arith, active, ==_iff p.user_id uid);
      has_key = holds;
      active = ground arith;
    }

module _ (u : World) (env : Env) (user_id key : String) where
  pub find_target-Triple :
      (exc : World → Type 0)
      → ((w : World) → Same u w → exc w)
      → Triple
          (Same u)
          (find_target env user_id key)
          (λ p w. IsTarget env u.db user_id key p × Same u w)
          exc
  unfolding find_target find_active_by_user_id lift
  find_target-Triple exc out = gate-lift u exc out _ _ _ λ uid parsed.
      gate-rows u exc out _ _ _ λ peers listed.
        Triple-weaken _ _ _ _ exc
          (λ p w h. (
            IsTarget-of env u.db user_id key uid p (found_some _ _ _ parsed) (
                first-rows_read (holds_key key) listed.0 _ p
                  (ap (first (holds_key key)) (sym listed.1) ∙ found_some _ _ _ h.0)),
            h.1,
          ))
          (last-lift u exc out _)

-- The device has lost the key.
record Cut (env : Env) (u : World) (key : ℕ) (w : World) : Type 0 where
  db : w.db ≡ u.db
  ipam : w.ipam ≡ u.ipam
  server_key : w.server_key ≡ u.server_key
  now : w.now ≡ u.now
  device : env.configure (peers_config (remove_config key ∷ [])) u.device ≡ some w.device

-- All that RemovePeer has done, but for the release of the address.
record Marked (env : Env) (u : World) (key : ℕ) (p : Peer) (w : World) : Type 0 where
  ipam : w.ipam ≡ u.ipam
  device : env.configure (peers_config (remove_config key ∷ [])) u.device ≡ some w.device
  db : w.db ≡ record u.db {
    peers = update_where (has_id p.id) (with_status "disconnected" u.now) u.db.peers;
  }

-- All that RemovePeer has done: its row is disconnected, the address is released, and the device took
-- the removal of the key.
pub record Removed (env : Env) (u : World) (user_id pub_key : String) (w : World) : Type 0 where
  pub row : Peer
  pub key : ℕ
  pub parsed : env.parse_key pub_key ≡ some key
  pub target : IsTarget env u.db user_id pub_key row
  pub device : env.configure (peers_config (remove_config key ∷ [])) u.device ≡ some w.device
  pub ipam : w.ipam ≡ release row.assigned_ip u.ipam
  pub db : w.db ≡ record u.db {
    peers = update_where (has_id row.id) (with_status "disconnected" u.now) u.db.peers;
  }

module _ (u : World) (env : Env) (key : ℕ) where
  cut :
      Triple
        (Same u)
        (configure_device env (peers_config (remove_config key ∷ [])))
        (λ _. Cut env u key)
        (Kept u)
  cut =
      Triple-configure env _ (Same u) (Kept u) (λ _. Cut env u key)
        (λ w w' s t. record {
          db = t.db ∙ s.db;
          ipam = t.ipam ∙ s.ipam;
          server_key = t.server_key ∙ s.server_key;
        })
        λ w w' s e o. record {
          db = o.db ∙ s.db;
          ipam = o.ipam ∙ s.ipam;
          server_key = o.server_key ∙ s.server_key;
          now = o.now ∙ s.now;
          device = ap (env.configure _) (sym s.device) ∙ e;
        }

  marked :
      (p : Peer)
      → Triple
          (Cut env u key)
          (update_status p.id "disconnected")
          (λ _. Marked env u key p)
          (Kept u)
  unfolding update_status
  marked p =
      Triple-exec _ (Cut env u key) (Kept u) (λ _. Marked env u key p)
        (λ w w' c t. record {
          db = t.db ∙ c.db;
          ipam = t.ipam ∙ c.ipam;
          server_key = t.server_key ∙ c.server_key;
        })
        λ w w' a c e o. record {
          ipam = o.ipam ∙ c.ipam;
          device = c.device ∙ ap some (sym o.device);
          db = set_peer-ok p.id (with_status "disconnected") u.now u.db w'.db (
              ap (λ n. set_peer p.id (with_status "disconnected") n u.db) (sym c.now)
              ∙ ap (set_peer p.id (with_status "disconnected") w.now) (sym c.db)
              ∙ e);
        }

remove_peer-Triple :
    (u : World) (env : Env) (user_id pub_key : String)
    → Triple
        (Same u)
        (remove_peer env user_id pub_key)
        (λ _. Removed env u user_id pub_key)
        (Kept u)
unfolding remove_peer release_ip modify
remove_peer-Triple u env user_id pub_key =
    Triple-bind _ _ _ _ _ _ (find_target-Triple u env user_id pub_key (Kept u) (Same-Kept u)) λ p.
      Triple-given _ _ _ _ _ λ target. gate-lift u (Kept u) (Same-Kept u) _ _ _ λ key parsed.
        Triple-bind _ _ _ _ _ _ (cut u env key) λ _.
          Triple-bind _ _ _ _ _ _ (marked u env key p) λ _. record {
            at = λ w m. record {
              row = p;
              key = key;
              parsed = found_some _ _ _ parsed;
              target = target;
              device = m.device;
              ipam = ap (release p.assigned_ip) m.ipam;
              db = m.db;
            };
          }

-- When RemovePeer returns, the row of the user's active peer with the key is disconnected and no
-- other differs, its address is released, and the device took the removal of the key.
pub remove_peer-ok-Removed :
    (u : World) (env : Env) (user_id pub_key : String)
    → (remove_peer env user_id pub_key u).0 ≡ ok tt
    → Removed env u user_id pub_key (remove_peer env user_id pub_key u).1
remove_peer-ok-Removed u env user_id pub_key returned =
    Triple-ok _ _ _ _ (remove_peer-Triple u env user_id pub_key) u tt (Same-refl u) returned

-- When RemovePeer fails, the database, the allocator and the server's key are as before.
pub remove_peer-error-Kept :
    (u : World) (env : Env) (user_id pub_key : String) (e : Error)
    → (remove_peer env user_id pub_key u).0 ≡ err e
    → Kept u (remove_peer env user_id pub_key u).1
remove_peer-error-Kept u env user_id pub_key e failed =
    Triple-err _ _ _ _ (remove_peer-Triple u env user_id pub_key) u e (Same-refl u) failed
