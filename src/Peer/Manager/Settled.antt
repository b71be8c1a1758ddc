-- ===== src/Peer/Manager/Settled.antt =====
-- RemovePeer keeps the peers table and the allocator consistent, and frees what the peer had.
use shuosc_network_server_ba.Common.{
  ℕ, suc, String, ◌≡◌, refl, sym, ◌∙◌, ap, subst, true, some, arith, str_eq, ==_iff, first, count,
  first_unique,
}
use shuosc_network_server_ba.Common.Text.{TextSet, delete, contains-delete}
use shuosc_network_server_ba.Model.{Peer}
use shuosc_network_server_ba.World.{World, Db, Env, Result, ok, err}
use shuosc_network_server_ba.Store.Rows.{update_where, count-update_where}
use shuosc_network_server_ba.Store.Peers.{has_id, is_active_of, with_status}
use shuosc_network_server_ba.Store.Peers.Counts.{IsConsistent, update-IsConsistent}
use shuosc_network_server_ba.Peer.Ipam.{Ipam, release}
use shuosc_network_server_ba.Peer.Manager.Removal.{remove_peer}
use shuosc_network_server_ba.Peer.Manager.Atomic.{Kept}
use shuosc_network_server_ba.Peer.Manager.Consistent.{same_some}
use shuosc_network_server_ba.Peer.Manager.Removed.{
  IsTarget, Removed, remove_peer-ok-Removed, remove_peer-error-Kept,
}

pub target_row :
    (env : Env) (db : Db) (used : TextSet) (user_id key : String) (p : Peer)
    → IsConsistent used db
    → IsTarget env db user_id key p
    → first (has_id p.id) db.peers ≡ some p
target_row env db used user_id key p h t =
    first_unique _ (has_id p.id) db.peers p (h.ids p.id) t.row ((==_iff p.id p.id).1 refl)

disconnected-IsConsistent :
    (db : Db) (used : TextSet) (now : ℕ) (p : Peer)
    → IsConsistent used db
    → first (has_id p.id) db.peers ≡ some p
    → str_eq p.status "active" ≡ true
    → IsConsistent
        (delete p.assigned_ip used)
        (record db { peers = update_where (has_id p.id) (with_status "disconnected" now) db.peers })
disconnected-IsConsistent db used now p h row active =
    update-IsConsistent used (delete p.assigned_ip used) p.id (with_status "disconnected" now) db p
      h row refl (λ k. ground (arith, h.keys k))
      (λ t. ground (arith, active, h.leased t, contains-delete p.assigned_ip t used))

pub Kept-IsConsistent :
    (w w' : World) → IsConsistent w.ipam.used w.db → Kept w w' → IsConsistent w'.ipam.used w'.db
Kept-IsConsistent w w' h k =
    subst (λ (i : Ipam). IsConsistent i.used w'.db) (sym k.ipam)
      (subst (IsConsistent w.ipam.used) (sym k.db) h)

module _ (w : World) (env : Env) (user_id pub_key : String)
    (h : IsConsistent w.ipam.used w.db) where
  Removed-IsConsistent :
      (w' : World) → Removed env w user_id pub_key w' → IsConsistent w'.ipam.used w'.db
  unfolding release
  Removed-IsConsistent w' r =
      subst (λ (i : Ipam). IsConsistent i.used w'.db) (sym r.ipam)
        (subst (IsConsistent (delete r.row.assigned_ip w.ipam.used)) (sym r.db) (
          disconnected-IsConsistent w.db w.ipam.used w.now r.row h
            (target_row env w.db w.ipam.used user_id pub_key r.row h r.target) r.target.active))

  either :
      (r : Result (Unit {0}))
      → (remove_peer env user_id pub_key w).0 ≡ r
      → IsConsistent
          (remove_peer env user_id pub_key w).1.ipam.used
          (remove_peer env user_id pub_key w).1.db
  either (ok r) e = Removed-IsConsistent _ (remove_peer-ok-Removed w env user_id pub_key e)
  either (err x) e = Kept-IsConsistent w _ h (remove_peer-error-Kept w env user_id pub_key x e)

  -- RemovePeer keeps the table and the allocator consistent, whether it returns or fails.
  pub remove_peer-IsConsistent :
      IsConsistent
        (remove_peer env user_id pub_key w).1.ipam.used
        (remove_peer env user_id pub_key w).1.db
  remove_peer-IsConsistent = either (remove_peer env user_id pub_key w).0 refl

  Removed-count :
      (w' : World) (uid : ℕ)
      → (r : Removed env w user_id pub_key w') → r.target.uid ≡ uid
      → suc (count (is_active_of uid) w'.db.peers) ≡ count (is_active_of uid) w.db.peers
  Removed-count w' uid r same =
      ap (λ (d : Db). suc (count (is_active_of uid) d.peers)) r.db
      ∙ ground (
        arith,
        r.target.owner,
        r.target.active,
        same,
        ==_iff r.row.user_id uid,
        count-update_where (has_id r.row.id) (is_active_of uid) (with_status "disconnected" w.now)
            w.db.peers r.row (h.ids r.row.id)
            (target_row env w.db w.ipam.used user_id pub_key r.row h r.target),
      )

  -- On a consistent table, a user whose peer RemovePeer has removed has one active peer fewer.
  pub remove_peer-count :
      (uid : ℕ)
      → env.parse_uuid user_id ≡ some uid
      → (remove_peer env user_id pub_key w).0 ≡ ok tt
      → suc (count (is_active_of uid) (remove_peer env user_id pub_key w).1.db.peers)
        ≡ count (is_active_of uid) w.db.peers
  remove_peer-count uid parsed e =
      let r = remove_peer-ok-Removed w env user_id pub_key e in
      Removed-count _ uid r (same_some (sym r.target.parsed ∙ parsed))
