-- ===== src/Api/Router/Reconciles.antt =====
-- What Reconcile of internal/peer/manager.go, which the server runs beside the requests, keeps.
use shuosc_network_server_ba.Common.{
  ℕ, ◌≡◌, refl, sym, subst, Bool, Option, none, some, List, [], ◌∷◌, ◌++◌, arith, count,
}
use shuosc_network_server_ba.Common.Text.{Text}
use shuosc_network_server_ba.Model.{Peer}
use shuosc_network_server_ba.World.{
  World, Db, Env, WgPeer, PeerConfig, ok, Action, pure, ◌>>=◌, ◌>>◌,
}
use shuosc_network_server_ba.World.Rules.{Keeps, Keeps-bind, Keeps-pure}
use shuosc_network_server_ba.Store.Rows.{update_where}
use shuosc_network_server_ba.Store.Peers.{
  list_active, update_last_seen, set_peer, with_last_seen, has_id, has_key,
}
use shuosc_network_server_ba.Store.Peers.Counts.{leases}
use shuosc_network_server_ba.Peer.Ipam.{Ipam, reserve}
use shuosc_network_server_ba.Peer.Manager.{reserve_ip, keep_reserved, peers_config}
use shuosc_network_server_ba.Peer.Manager.Consistent.{set_peer-ok}
use shuosc_network_server_ba.Peer.Manager.Reconcile.{
  reserve_all, compare_rows, touch, apply_changes, wg_by_key, re_add, reconcile,
}
use shuosc_network_server_ba.Peer.Manager.Reconcile.Reserved.{reserve-grows}
use shuosc_network_server_ba.Api.Router.Data.{
  Keeps-query_rows_data, Keeps-read_device_data, Keeps-configure_data, Keeps-exec_data,
}
use shuosc_network_server_ba.Api.Router.Leases.{Consistent}
use shuosc_network_server_ba.Api.Router.Within.{
  Within, set_peer-Spares, Keeps-Spares, Within-closed,
}

module _ (P : World → Type 0) (closed : (v w : World) → P v → w.db ≡ v.db → w.ipam ≡ v.ipam → P w)
    (seen : (id t : ℕ) → Keeps P (update_last_seen id t)) (env : Env)
    (reserves : (t : Text) → Keeps P (reserve_ip env t)) where
  reserve_all-Keeps : (ps : List Peer) → Keeps P (reserve_all env ps)
  unfolding reserve_all
  reserve_all-Keeps [] = Keeps-pure tt
  reserve_all-Keeps (p ∷ ps) = Keeps-bind _ _ (reserves p.assigned_ip) (λ _. reserve_all-Keeps ps)

  touch-Keeps : (p : Peer) (o : Option ℕ) → Keeps P (touch p o)
  unfolding touch
  touch-Keeps p none = Keeps-pure tt
  touch-Keeps p (some t) = seen p.id t

  compare-Keeps :
      (p : Peer) (rest : Action (List PeerConfig)) (o : Option WgPeer)
      → Keeps P rest
      → Keeps P (elim o [
        | none ↦ (do more ← rest; pure (re_add env p ++ more))
        | some q ↦ (do touch p q.last_handshake; rest)
      ])
  compare-Keeps p rest none k = Keeps-bind _ _ k (λ more. Keeps-pure _)
  compare-Keeps p rest (some q) k = Keeps-bind _ _ (touch-Keeps p q.last_handshake) (λ _. k)

  compare_rows-Keeps : (wg : List WgPeer) (ps : List Peer) → Keeps P (compare_rows env wg ps)
  unfolding compare_rows
  compare_rows-Keeps wg [] = Keeps-pure []
  compare_rows-Keeps wg (p ∷ ps) =
      compare-Keeps p (compare_rows env wg ps) (wg_by_key env p.public_key wg)
        (compare_rows-Keeps wg ps)

  changes-Keeps : (cs : List PeerConfig) → Keeps P (apply_changes env cs)
  unfolding apply_changes
  changes-Keeps [] = Keeps-pure tt
  changes-Keeps (c ∷ cs) = Keeps-configure_data P closed env (peers_config (c ∷ cs))

  pub reconcile-Keeps : Keeps P (reconcile env)
  unfolding reconcile list_active
  reconcile-Keeps = Keeps-bind _ _ (Keeps-query_rows_data P closed _) λ rows.
      Keeps-bind _ _ (reserve_all-Keeps rows) λ _.
        Keeps-bind _ _ (Keeps-read_device_data P closed)
          λ device. Keeps-bind _ _ (compare_rows-Keeps device.peers rows) λ missing. changes-Keeps _

-- A change of rows that a test does not see.
pub count-unseen :
    (q r : Peer → Bool) (g : Peer → Peer) (ps : List Peer)
    → ((p : Peer) → q (g p) ≡ q p)
    → count q (update_where r g ps) ≡ count q ps
unfolding update_where
count-unseen q r g [] h = refl
count-unseen q r g (p ∷ ps) h = ground (arith, h p, count-unseen q r g ps h)

last_seen-IsConsistent :
    (id t : ℕ) (w : World) (u : Unit {0}) (db : Db)
    → Consistent w
    → set_peer id (with_last_seen t) w.now w.db ≡ ok (u, db)
    → Consistent (record w { db = db })
last_seen-IsConsistent id t w u db h e =
    subst (λ d. Consistent (record w { db = d }))
      (sym (set_peer-ok id (with_last_seen t) w.now w.db db e))
      (record {
        ids = λ i. rw (unseen (has_id i) (λ p. refl)) (h.ids i);
        fresh = λ i l. rw (unseen (has_id i) (λ p. refl)) (h.fresh i l);
        keys = λ key. rw (unseen (has_key key) (λ p. refl)) (h.keys key);
        leased = λ ip. rw (unseen (leases ip) (λ p. refl)) (h.leased ip);
      })
  where
    unseen :
        (q : Peer → Bool)
        → ((p : Peer) → q (with_last_seen t w.now p) ≡ q p)
        → count q (update_where (has_id id) (with_last_seen t w.now) w.db.peers)
          ≡ count q w.db.peers
    unseen q same = count-unseen q (has_id id) (with_last_seen t w.now) w.db.peers same

reserved-Within : (w : World) (o : Option Ipam) → Within w → Within (keep_reserved o w).1
unfolding keep_reserved
reserved-Within w none h = h
reserved-Within w (some i) h = h

reserved-IsConsistent :
    (env : Env) (t : Text) (w : World) (o : Option Ipam)
    → reserve env.ip6 t w.ipam ≡ o
    → Consistent w
    → Consistent (keep_reserved o w).1
unfolding keep_reserved
reserved-IsConsistent env t w none e h = h
reserved-IsConsistent env t w (some i) e h = record {
  ids = h.ids;
  fresh = h.fresh;
  keys = h.keys;
  leased = λ u. ground (arith, h.leased u, reserve-grows env w.ipam i t u e);
}

pub reconcile-Consistent : (env : Env) → Keeps Consistent (reconcile env)
unfolding update_last_seen reserve_ip
reconcile-Consistent env =
    reconcile-Keeps Consistent (λ v w h db ipam. rw (db, ipam) h)
      (λ id t.
        Keeps-exec_data Consistent (λ v w h db ipam. rw (db, ipam) h) _
          λ w u db h e. last_seen-IsConsistent id t w u db h e)
      env (λ t. record { at = λ w h. reserved-IsConsistent env t w _ refl h })

pub reconcile-Within : (env : Env) → Keeps Within (reconcile env)
unfolding update_last_seen reserve_ip
reconcile-Within env =
    reconcile-Keeps Within Within-closed
      (λ id t. Keeps-Spares _ (set_peer-Spares id (with_last_seen t))) env
      (λ t. record { at = λ w h. reserved-Within w _ h })
