-- ===== src/Peer/Manager/Replaced.antt =====
-- ReplaceKey keeps the peers table and the allocator consistent; but it configures the device before
-- the database has taken the key.
use shuosc_network_server_ba.Common.{
  [], ◌∷◌, select, false, ℕ, ◌+◌, ◌≤◌, String, ◌≡◌, refl, sym, ◌∙◌, ap, subst, true, Option, none,
  some, arith, str_eq, eq_iff, ◌==◌, first, first-none, first-holds, count, first_unique,
}
use shuosc_network_server_ba.Peer.Manager.{holds_key, peers_config, remove_config, add_config}
use shuosc_network_server_ba.Common.Text.{TextSet}
use shuosc_network_server_ba.Model.{Peer}
use shuosc_network_server_ba.World.{
  ◌>>=◌, query, query_rows, read_rows, exec, call, next_fault, write_db, write_device, lift, gets,
  Device, db_failure, World, Db, WgConfig, Env, Error, Result, ok, err, configure_device,
}
use shuosc_network_server_ba.World.Rules.{Same, Same-refl}
use shuosc_network_server_ba.World.Triples.{
  Triple, Triple-bind, Triple-ok, Triple-err, Triple-exec, Triple-configure,
}
use shuosc_network_server_ba.World.Gates.{Triple-given}
use shuosc_network_server_ba.Store.Rows.{update_where, one_if}
use shuosc_network_server_ba.Store.Peers.{
  find_active_by_user_id, is_active_of, has_id, has_key, with_key, set_key, set_peer,
  update_public_key,
}
use shuosc_network_server_ba.Store.Peers.Counts.{IsConsistent, update-IsConsistent}
use shuosc_network_server_ba.Peer.Ipam.{Ipam}
use shuosc_network_server_ba.Peer.Manager.Removal.{find_target, replace_key}
use shuosc_network_server_ba.Peer.Manager.Atomic.{Kept}
use shuosc_network_server_ba.Peer.Manager.Removed.{IsTarget, find_target-Triple, Same-Kept}
use shuosc_network_server_ba.Peer.Manager.Settled.{target_row, Kept-IsConsistent}

same_row : {p q : Peer} → some p ≡ some q → p ≡ q
same_row e = ground arith

-- A row that has the key and the id is the row of the id.
holder_row :
    (id : ℕ) (key : String) (db : Db) (x : Peer)
    → count (has_id id) db.peers ≤ 1
    → first (has_id id) db.peers ≡ some x
    → (p : Peer) → first (has_key key) db.peers ≡ some p
    → (p.id == id) ≡ true
    → str_eq x.public_key key ≡ true
holder_row id key db x one row p holder same =
    subst (λ q. str_eq (Peer.public_key q) key ≡ true)
      (same_row (sym (first_unique (has_key key) (has_id id) db.peers p one holder same) ∙ row))
      (first-holds (has_key key) db.peers p holder)

module _ (id : ℕ) (key : String) (now : ℕ) (db db' : Db) (x : Peer)
    (one : count (has_id id) db.peers ≤ 1) (keys : count (has_key key) db.peers ≤ 1)
    (row : first (has_id id) db.peers ≡ some x) (e : set_key id key now db ≡ ok (tt, db')) where
  by_holder :
      (o : Option Peer)
      → first (has_key key) db.peers ≡ o
      → (count (has_key key) db.peers + 1 ≤ 1 + one_if (has_key key x))
        × (db' ≡ record db { peers = update_where (has_id id) (with_key key now) db.peers })
  unfolding set_key set_peer
  by_holder none holder = ground (arith, first-none (has_key key) db.peers holder)
  by_holder (some p) holder =
      ground (arith, row, holder, keys, holder_row id key db x one row p holder)

  -- The key belongs to no row, or to the row with the id.
  key_set :
      (count (has_key key) db.peers + 1 ≤ 1 + one_if (has_key key x))
      × (db' ≡ record db { peers = update_where (has_id id) (with_key key now) db.peers })
  key_set = by_holder (first (has_key key) db.peers) refl

  key_set-IsConsistent : (used : TextSet) → IsConsistent used db → IsConsistent used db'
  key_set-IsConsistent used h =
      let (count_le, same) = key_set in
      subst (IsConsistent used) (sym same) (
        update-IsConsistent used used id (with_key key now) db x h row refl
          (λ k. ground (arith, count_le, eq_iff key k, h.keys k)) (λ t. ground (arith, h.leased t)))

-- The device has been configured.
record Configured (u w : World) : Type 0 where
  db : w.db ≡ u.db
  ipam : w.ipam ≡ u.ipam
  server_key : w.server_key ≡ u.server_key
  now : w.now ≡ u.now

-- All that ReplaceKey has done.
pub record Rekeyed (env : Env) (u : World) (user_id : String) (old_key new_key : ℕ) (w : World)
    : Type 0 where
  pub row : Peer
  pub target : IsTarget env u.db user_id (env.key_text old_key) row
  pub ipam : w.ipam ≡ u.ipam
  pub db : set_key row.id (env.key_text new_key) u.now u.db ≡ ok (tt, w.db)

module _ (u : World) (env : Env) where
  reconfigured :
      (cfg : WgConfig) → Triple (Same u) (configure_device env cfg) (λ _. Configured u) (Kept u)
  reconfigured cfg =
      Triple-configure env cfg (Same u) (Kept u) (λ _. Configured u)
        (λ w w' s t. record {
          db = t.db ∙ s.db;
          ipam = t.ipam ∙ s.ipam;
          server_key = t.server_key ∙ s.server_key;
        })
        λ w w' s e o. record {
          db = o.db ∙ s.db;
          ipam = o.ipam ∙ s.ipam;
          server_key = o.server_key ∙ s.server_key;
          now = o.now ∙ s.now;
        }

  rekeyed :
      (user_id : String) (old_key new_key : ℕ) (p : Peer)
      → IsTarget env u.db user_id (env.key_text old_key) p
      → Triple
          (Configured u)
          (update_public_key p.id (env.key_text new_key))
          (λ _. Rekeyed env u user_id old_key new_key)
          (Kept u)
  unfolding update_public_key
  rekeyed user_id old_key new_key p target =
      Triple-exec _ (Configured u) (Kept u) (λ _. Rekeyed env u user_id old_key new_key)
        (λ w w' c t. record {
          db = t.db ∙ c.db;
          ipam = t.ipam ∙ c.ipam;
          server_key = t.server_key ∙ c.server_key;
        })
        λ w w' a c e o. record {
          row = p;
          target = target;
          ipam = o.ipam ∙ c.ipam;
          db =
              ap (λ n. set_key p.id (env.key_text new_key) n u.db) (sym c.now)
              ∙ ap (set_key p.id (env.key_text new_key) w.now) (sym c.db)
              ∙ e;
        }

  replace_key-Triple :
      (user_id : String) (old_key new_key : ℕ)
      → Triple
          (Same u)
          (replace_key env user_id old_key new_key)
          (λ _. Rekeyed env u user_id old_key new_key)
          (Kept u)
  unfolding replace_key
  replace_key-Triple user_id old_key new_key =
      Triple-bind _ _ _ _ _ _
        (find_target-Triple u env user_id (env.key_text old_key) (Kept u) (Same-Kept u))
        λ p. Triple-given _ _ _ _ _ λ target.
          Triple-bind _ _ _ _ _ _ (reconfigured _) λ _. rekeyed user_id old_key new_key p target

module _ (w : World) (env : Env) (user_id : String) (old_key new_key : ℕ) where
  -- When ReplaceKey fails, the database, the allocator and the server's key are as before.
  pub replace_key-error-Kept :
      (e : Error)
      → (replace_key env user_id old_key new_key w).0 ≡ err e
      → Kept w (replace_key env user_id old_key new_key w).1
  replace_key-error-Kept e failed =
      Triple-err _ _ _ _ (replace_key-Triple w env user_id old_key new_key) w e (Same-refl w) failed

  replaced-IsConsistent :
      (w' : World)
      → IsConsistent w.ipam.used w.db
      → Rekeyed env w user_id old_key new_key w'
      → IsConsistent w'.ipam.used w'.db
  replaced-IsConsistent w' h r =
      subst (λ (i : Ipam). IsConsistent i.used w'.db) (sym r.ipam)
        (key_set-IsConsistent r.row.id (env.key_text new_key) w.now w.db w'.db r.row
          (h.ids r.row.id) (h.keys (env.key_text new_key))
          (target_row env w.db w.ipam.used user_id (env.key_text old_key) r.row h r.target) r.db
          w.ipam.used h)

  either :
      (r : Result (Unit {0}))
      → IsConsistent w.ipam.used w.db
      → (replace_key env user_id old_key new_key w).0 ≡ r
      → IsConsistent
          (replace_key env user_id old_key new_key w).1.ipam.used
          (replace_key env user_id old_key new_key w).1.db
  either (ok r) h e =
      replaced-IsConsistent _ h
        (Triple-ok _ _ _ _ (replace_key-Triple w env user_id old_key new_key) w tt (Same-refl w) e)
  either (err x) h e = Kept-IsConsistent w _ h (replace_key-error-Kept x e)

  -- ReplaceKey keeps the table and the allocator consistent, whether it returns or fails.
  pub replace_key-IsConsistent :
      IsConsistent w.ipam.used w.db
      → IsConsistent
          (replace_key env user_id old_key new_key w).1.ipam.used
          (replace_key env user_id old_key new_key w).1.db
  replace_key-IsConsistent h = either (replace_key env user_id old_key new_key w).0 h refl

-- ReplaceKey with a new key that another row has: no call fails, the device has taken the new key in
-- place of the old one, and the database refuses it. The device is then ahead of the database, since
-- ReplaceKey does not take the change of the device back.
pub replace_key-taken :
    (w : World) (env : Env) (user_id : String) (old_key new_key uid : ℕ) (p q : Peer) (d : Device)
    → w.faults ≡ []
    → env.parse_uuid user_id ≡ some uid
    → first (holds_key (env.key_text old_key)) (select (is_active_of uid) w.db.peers) ≡ some p
    → env.configure
        (peers_config (remove_config old_key ∷ add_config env new_key p.assigned_ip ∷ []))
        w.device
      ≡ some d
    → first (has_key (env.key_text new_key)) w.db.peers ≡ some q
    → (q.id == p.id) ≡ false
    → first (has_id p.id) w.db.peers ≡ some p
    → replace_key env user_id old_key new_key w ≡ (err db_failure, record w { device = d })
unfolding replace_key find_target find_active_by_user_id update_public_key set_key query exec call
    configure_device next_fault write_db write_device lift gets ◌>>=◌ query_rows read_rows
replace_key-taken w env user_id old_key new_key uid p q d quiet parsed target takes taken other
      row =
    rw (parsed, quiet, target, takes, taken, other, row) refl
