-- ===== src/Api/AdminPeers/Safe.antt =====
-- The administrator's handlers keep the peers table and the allocator consistent.
use shuosc_network_server_ba.Common.{
  ℕ, String, ◌≡◌, refl, sym, ◌∙◌, ap, Bool, true, false, Option, none, some, str_eq, arith, first,
  if◌then◌else◌,
}
use shuosc_network_server_ba.Common.Text.{TextSet}
use shuosc_network_server_ba.Model.{Peer}
use shuosc_network_server_ba.World.{World, Env, Db, Error, Result, ok, err, Action, or_fail}
use shuosc_network_server_ba.World.Rules.{Same, Same-refl}
use shuosc_network_server_ba.World.Triples.{After, Triple-exec}
use shuosc_network_server_ba.World.Gates.{gate-query, gate-lift, last-lift, Triple-weaken}
use shuosc_network_server_ba.Store.Rows.{update_where}
use shuosc_network_server_ba.Store.Peers.{has_id, find_by_id, update_status, with_status}
use shuosc_network_server_ba.Store.Peers.Counts.{IsConsistent, update-IsConsistent}
use shuosc_network_server_ba.Peer.Manager.Consistent.{set_peer-ok}
use shuosc_network_server_ba.Peer.Manager.Removal.{remove_peer}
use shuosc_network_server_ba.Peer.Manager.Settled.{remove_peer-IsConsistent}
use shuosc_network_server_ba.Admin.{get_peer, set_peer_status, disconnect_peer, revoke_peer}
use shuosc_network_server_ba.Api.Answers.{bad_request}
use shuosc_network_server_ba.Api.AdminPeers.{
  take_off, after_lookup, handle_peer, admin_disconnect_peer, admin_revoke_peer,
}

abbrev Consistent : World → Type 0
Consistent w = IsConsistent w.ipam.used w.db

Same-Consistent : (u w : World) → Consistent u → Same u w → Consistent w
Same-Consistent u w h s = rw (s.ipam, s.db) h

found_row : (o : Option Peer) (e : Error) (p : Peer) → or_fail o e ≡ ok p → o ≡ some p
found_row none e p h = ground arith
found_row (some q) e p h = ground arith

After-Consistent :
    {A : Type 0} (r : Result A) (w : World)
    → After (λ _ v. IsConsistent v.ipam.used v.db) (λ v. IsConsistent v.ipam.used v.db) r w
    → Consistent w
After-Consistent (ok a) w h = h
After-Consistent (err e) w h = h

-- A row of any status gets one that is not active.
status_set :
    (id : ℕ) (status : String) (now : ℕ) (used : TextSet) (db : Db) (p : Peer)
    → str_eq status "active" ≡ false
    → IsConsistent used db
    → first (has_id id) db.peers ≡ some p
    → IsConsistent used
        (record db { peers = update_where (has_id id) (with_status status now) db.peers })
status_set id status now used db p idle h row =
    update-IsConsistent used used id (with_status status now) db p h row refl
      (λ k. ground (arith, h.keys k)) (λ t. ground (arith, idle))

module _ (env : Env) (status : String) (idle : str_eq status "active" ≡ false)
    (peer_id : String) where
  set_peer_status-IsConsistent :
      (u : World) → Consistent u → Consistent (set_peer_status env status peer_id u).1
  unfolding set_peer_status find_by_id update_status
  set_peer_status-IsConsistent u h = After-Consistent _ _ (
      (gate-lift u _ (λ w. Same-Consistent u w h) _ _ _
          λ id parsed.
            gate-query u _ (λ w. Same-Consistent u w h) _ _ _
              λ found row.
                gate-lift u _ (λ w. Same-Consistent u w h) _ _ _
                  λ p some_p.
                    Triple-exec _ (Same u) Consistent (λ _. Consistent)
                      (λ w w' s t. Same-Consistent w w' (Same-Consistent u w h s) t)
                      λ w w' a s e o.
                        rw (o.ipam, set_peer-ok id (with_status status) w.now w.db w'.db e)
                          (status_set id status w.now w.ipam.used w.db p idle
                            (Same-Consistent u w h s)
                            (ap (λ (d : Db). first (has_id id) d.peers) s.db
                              ∙ sym row
                              ∙ found_row _ _ _ some_p))).at
        u (Same-refl u))

get_peer-Consistent :
    (env : Env) (peer_id : String) (w : World)
    → Consistent w
    → After
        (λ _ v. IsConsistent v.ipam.used v.db)
        (λ v. IsConsistent v.ipam.used v.db)
        (get_peer env peer_id w).0
        (get_peer env peer_id w).1
unfolding get_peer find_by_id
get_peer-Consistent env peer_id w h =
    (gate-lift w _ (λ v. Same-Consistent w v h) _ _ _
        λ id parsed.
          gate-query w _ (λ v. Same-Consistent w v h) _ _ _
            λ found row.
              Triple-weaken _ _ _ _ _ (λ p v k. Same-Consistent w v h k.1)
                (last-lift w _ (λ v. Same-Consistent w v h) _)).at
      w (Same-refl w)

module _ (P : World → Type 0) (env : Env) (op : Action (Unit {0})) (peer_id : String)
    (keeps : (w : World) → P w → P (op w).1)
    (removes : (user_id key : String) (w : World) → P w → P (remove_peer env user_id key w).1)
    (reads : (w : World) → P w → P (get_peer env peer_id w).1) where
  either : {A : Type 0} (b : Bool) (x y : A × World) → P x.1 → P y.1 → P (if b then x else y).1
  either true x y h k = h
  either false x y h k = k

  taken : (b : Bool) (v w : World) → P v → P w → P (if b then v else w)
  taken true v w h k = h
  taken false v w h k = k

  lookup-keeps : (r : Result Peer) (w : World) → P w → P (after_lookup env op r w).1
  unfolding after_lookup take_off
  lookup-keeps (err e) w h = h
  lookup-keeps (ok p) w h =
      keeps _ (taken _ _ w (removes (env.uuid_text p.user_id) p.public_key w h) h)

  -- The handler keeps what its calls keep.
  pub handle_peer-keeps : (w : World) → P w → P (handle_peer env op peer_id w).1
  unfolding handle_peer
  handle_peer-keeps w h =
      either (str_eq peer_id "") (bad_request, w) _ h
        (lookup-keeps (get_peer env peer_id w).0 _ (reads w h))

module _ (env : Env) (peer_id : String) (w : World) (h : Consistent w) where
  removes-Consistent :
      (user_id key : String) (v : World)
      → Consistent v
      → Consistent (remove_peer env user_id key v).1
  removes-Consistent user_id key v k = remove_peer-IsConsistent v env user_id key k

  reads-Consistent : (v : World) → Consistent v → Consistent (get_peer env peer_id v).1
  reads-Consistent v k = After-Consistent _ _ (get_peer-Consistent env peer_id v k)

  pub admin_disconnect_peer-IsConsistent : Consistent (admin_disconnect_peer env peer_id w).1
  unfolding admin_disconnect_peer disconnect_peer
  admin_disconnect_peer-IsConsistent =
      handle_peer-keeps Consistent env _ peer_id
        (set_peer_status-IsConsistent env "disconnected" refl peer_id) removes-Consistent
        reads-Consistent w h

  pub admin_revoke_peer-IsConsistent : Consistent (admin_revoke_peer env peer_id w).1
  unfolding admin_revoke_peer revoke_peer
  admin_revoke_peer-IsConsistent =
      handle_peer-keeps Consistent env _ peer_id
        (set_peer_status-IsConsistent env "revoked" refl peer_id) removes-Consistent
        reads-Consistent w h
