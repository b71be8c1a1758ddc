-- ===== src/Peer/Manager/Consistent.antt =====
-- AddPeer keeps the peers table and the allocator consistent, and a user within its limit.
use shuosc_network_server_ba.Common.{
  ℕ, ◌≤◌, suc, String, ◌≡◌, refl, sym, ◌∙◌, ap, subst, false, Option, none, some, ◌∷◌, arith,
  str_eq, ==_iff, first, count, first_unique,
}
use shuosc_network_server_ba.Common.Text.{Text, TextSet, contains, text_eq_iff}
use shuosc_network_server_ba.Model.{Peer}
use shuosc_network_server_ba.World.{World, Db, Env, Result, ok, err}
use shuosc_network_server_ba.Store.Rows.{update_where, count-update_where}
use shuosc_network_server_ba.Store.Users.Find.{has_user_id}
use shuosc_network_server_ba.Store.Peers.{
  has_id, has_key, is_active_of, set_peer, activated, row_of,
}
use shuosc_network_server_ba.Store.Peers.Counts.{
  IsConsistent, insert-IsConsistent, update-IsConsistent, insert_peer-ok, insert-one,
}
use shuosc_network_server_ba.Peer.Ipam.{Ipam}
use shuosc_network_server_ba.Peer.Ipam.Allocation.{allocate-fresh}
use shuosc_network_server_ba.Peer.Manager.{PeerRegistration, add_peer, key_refused, max_peers_of}
use shuosc_network_server_ba.Peer.Manager.Outcome.{Added, add_peer-ok-Added, Written, new_row}
use shuosc_network_server_ba.Peer.Manager.Atomic.{Kept, add_peer-error-Kept}

-- A row that AddPeer takes over is one of the user, and not active.
taken_over :
    (uid : ℕ) (p : Peer)
    → key_refused uid (some p) ≡ none
    → (p.user_id ≡ uid) × (str_eq p.status "active" ≡ false)
taken_over uid p h = ground (arith, ==_iff p.user_id uid)

pub set_peer-ok :
    (id : ℕ) (f : ℕ → Peer → Peer) (now : ℕ) (db db' : Db)
    → set_peer id f now db ≡ ok (tt, db')
    → db' ≡ record db { peers = update_where (has_id id) (f now) db.peers }
unfolding set_peer
set_peer-ok id f now db db' e = ground arith

module _ (env : Env) (uid : ℕ) (key : ℕ) (ip : Text) (now : ℕ) (db db' : Db) where
  found_row :
      (used : TextSet) (p : Peer)
      → IsConsistent used db
      → some p ≡ first (has_key (env.key_text key)) db.peers
      → first (has_id p.id) db.peers ≡ some p
  found_row used p h row =
      first_unique (has_key (env.key_text key)) (has_id p.id) db.peers p (h.ids p.id) (sym row)
        ((==_iff p.id p.id).1 refl)

  Written-IsConsistent :
      (used : TextSet) (existing : Option Peer)
      → IsConsistent used db
      → contains used ip ≡ false
      → key_refused uid existing ≡ none
      → existing ≡ first (has_key (env.key_text key)) db.peers
      → Written env uid existing key ip now db db'
      → IsConsistent (ip ∷ used) db'
  unfolding contains
  Written-IsConsistent used none h free okay row (r, e) =
      insert-IsConsistent used _ now db db' r h free e
  Written-IsConsistent used (some p) h free okay row e =
      subst (IsConsistent (ip ∷ used)) (sym (set_peer-ok p.id (activated ip) now db db' e)) (
        update-IsConsistent used (ip ∷ used) p.id (activated ip now) db p h (found_row used p h row)
          refl (λ k. ground (arith, h.keys k))
          (λ t. ground (arith, taken_over uid p okay, h.leased t, text_eq_iff ip t)))

  Written-count :
      (used : TextSet) (existing : Option Peer)
      → IsConsistent used db
      → key_refused uid existing ≡ none
      → existing ≡ first (has_key (env.key_text key)) db.peers
      → Written env uid existing key ip now db db'
      → count (is_active_of uid) db'.peers ≡ suc (count (is_active_of uid) db.peers)
  unfolding row_of
  Written-count used none h okay row (r, e) =
      let (absent, made, rows, next) = insert_peer-ok _ now db db' r e in
      ap (count (is_active_of uid)) rows
      ∙ ground (
        arith,
        insert-one used (new_row env uid key ip) now db (is_active_of uid),
        ==_iff uid uid,
      )
  Written-count used (some p) h okay row e =
      ap (λ (d : Db). count (is_active_of uid) d.peers)
        (set_peer-ok p.id (activated ip) now db db' e)
      ∙ ground (
        arith,
        taken_over uid p okay,
        ==_iff p.user_id uid,
        count-update_where (has_id p.id) (is_active_of uid) (activated ip now) db.peers p
            (h.ids p.id) (found_row used p h row),
      )

pub same_some : {a b : ℕ} → some a ≡ some b → a ≡ b
same_some e = ground arith

module _ (w : World) (env : Env) (user_id : String) (key : ℕ)
    (h : IsConsistent w.ipam.used w.db) where
  returned-IsConsistent :
      (r : PeerRegistration) (w' : World)
      → Added env w user_id key r w'
      → IsConsistent w'.ipam.used w'.db
  returned-IsConsistent r w' a =
      let (free, after) = allocate-fresh w.ipam w'.ipam r.assigned_ip a.installed.ipam in
      subst (λ (i : Ipam). IsConsistent i.used w'.db) (sym after)
        (Written-IsConsistent env a.uid key r.assigned_ip w.now w.db w'.db w.ipam.used a.existing h
          free a.admitted.free_key a.admitted.row a.installed.db)

  failed-IsConsistent : (w' : World) → Kept w w' → IsConsistent w'.ipam.used w'.db
  failed-IsConsistent w' k =
      subst (λ (i : Ipam). IsConsistent i.used w'.db) (sym k.ipam)
        (subst (IsConsistent w.ipam.used) (sym k.db) h)

  either :
      (r : Result PeerRegistration)
      → (add_peer env user_id key w).0 ≡ r
      → IsConsistent (add_peer env user_id key w).1.ipam.used (add_peer env user_id key w).1.db
  either (ok r) e = returned-IsConsistent r _ (add_peer-ok-Added w env user_id key r e)
  either (err x) e = failed-IsConsistent _ (add_peer-error-Kept w env user_id key x e)

  -- AddPeer keeps the table and the allocator consistent, whether it returns or fails: no two rows
  -- share an id or a key, and an address has at most one active row, and none unless it is in use.
  pub add_peer-IsConsistent :
      IsConsistent (add_peer env user_id key w).1.ipam.used (add_peer env user_id key w).1.db
  add_peer-IsConsistent = either (add_peer env user_id key w).0 refl

  Added-count :
      (uid : ℕ) (r : PeerRegistration) (w' : World) (a : Added env w user_id key r w')
      → a.uid ≡ uid
      → (count (is_active_of uid) w'.db.peers ≡ suc (count (is_active_of uid) w.db.peers))
        × (count (is_active_of uid) w'.db.peers ≤ max_peers_of (first (has_user_id uid) w.db.users))
  Added-count uid r w' a same =
      let more =
        Written-count env a.uid key r.assigned_ip w.now w.db w'.db w.ipam.used a.existing h
          a.admitted.free_key a.admitted.row a.installed.db in
      subst
        (λ (n : ℕ).
          (count (is_active_of n) w'.db.peers ≡ suc (count (is_active_of n) w.db.peers))
          × (count (is_active_of n) w'.db.peers ≤ max_peers_of (first (has_user_id n) w.db.users)))
        same (more, omega (arith, more, a.admitted.below))

  -- On a consistent table, a user whose peer AddPeer has added has one active peer more than before,
  -- and no more than its limit.
  pub add_peer-count-le-limit :
      (uid : ℕ) (r : PeerRegistration)
      → env.parse_uuid user_id ≡ some uid
      → (add_peer env user_id key w).0 ≡ ok r
      → (count (is_active_of uid) (add_peer env user_id key w).1.db.peers
          ≡ suc (count (is_active_of uid) w.db.peers))
        × (count (is_active_of uid) (add_peer env user_id key w).1.db.peers
            ≤ max_peers_of (first (has_user_id uid) w.db.users))
  add_peer-count-le-limit uid r parsed e =
      let a = add_peer-ok-Added w env user_id key r e in
      Added-count uid r _ a (same_some (sym a.admitted.parsed ∙ parsed))
