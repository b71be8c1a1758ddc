-- ===== src/Api/Router/Leases.antt =====
-- Every request keeps the peers table and the allocator consistent.
use shuosc_network_server_ba.Common.{
  ℕ, ◌≤◌, String, ◌≡◌, refl, sym, ◌∙◌, Bool, true, false, Option, none, some, List, arith,
}
use shuosc_network_server_ba.Common.Text.{TextSet}
use shuosc_network_server_ba.Model.{User, InviteCode}
use shuosc_network_server_ba.World.{
  World, Db, Error, Env, Result, ok, Action, query, query_rows, call, exec, WgConfig,
  configure_device, modify,
}
use shuosc_network_server_ba.World.Rules.{
  Keeps, Keeps-pure, Keeps-fail, Keeps-lift, Keeps-gets, Keeps-if, Keeps-check, Keeps-bind,
}
use shuosc_network_server_ba.Store.Peers.Counts.{IsConsistent}
use shuosc_network_server_ba.Store.Users.{
  NewUser, insert_user, set_user, use_invite, update_user_row, update_password,
  register_with_invite, register_bootstrap_admin, transaction,
}
use shuosc_network_server_ba.Store.Users.Find.{count_users, find_by_student_id, find_user_by_id}
use shuosc_network_server_ba.Store.Invites.{
  NewInvite, insert_invite, set_invites, create_invite_row, update_invite_row, delete_invite_row,
  find_invite_by_code, find_invite_by_id,
}
use shuosc_network_server_ba.Auth.{
  Crypto, register, register_trimmed, register_first, register_invited, stop_on,
}
use shuosc_network_server_ba.Store.Peers.{list_active}
use shuosc_network_server_ba.Account.{SelfUpdateFields, update_me, change_password, update_fields}
use shuosc_network_server_ba.Common.Integers.{ℤ}
use shuosc_network_server_ba.Admin.{
  AdminUserUpdateFields, InviteFields, update_user, create_invite, update_invite, delete_invite,
}
use shuosc_network_server_ba.Peer.Manager.Server.{
  rotate_server_key, set_wg_enabled, enable_wg, disable_wg,
}
use shuosc_network_server_ba.Peer.Manager.Consistent.{add_peer-IsConsistent}
use shuosc_network_server_ba.Peer.Manager.Settled.{remove_peer-IsConsistent}
use shuosc_network_server_ba.Peer.Manager.Replaced.{replace_key-IsConsistent}
use shuosc_network_server_ba.Api.AdminPeers.Safe.{
  admin_disconnect_peer-IsConsistent, admin_revoke_peer-IsConsistent,
}
use shuosc_network_server_ba.Api.Router.{Settings, Request, Server, serve}
use shuosc_network_server_ba.Api.Router.Services.{ServicesKeep, serve-keeps}
use shuosc_network_server_ba.Api.Router.Data.{
  Keeps-map_error, Keeps-query_data, Keeps-query_rows_data, Keeps-call_data, Keeps-configure_data,
  Keeps-exec_data, Keeps-committed,
}

abbrev pub Consistent : World → Type 0
Consistent w = IsConsistent w.ipam.used w.db

-- A statement on another table.
abbrev Spares : {A : Type 0} → (ℕ → Db → Result (A × Db)) → Type 0
Spares {A} f =
    (now : ℕ) (db db' : Db) (a : A)
    → f now db ≡ ok (a, db')
    → (db'.peers ≡ db.peers) × (db.next_id ≤ db'.next_id)

insert_user-Spares : (n : NewUser) → Spares (insert_user n)
unfolding insert_user
insert_user-Spares n now db db' u e = ground (arith, e)

set_user-Spares : (id : ℕ) (f : ℕ → User → User) → Spares (set_user id f)
unfolding set_user
set_user-Spares id f now db db' u e = ground (arith, e)

use_invite-Spares : (id user_id : ℕ) → Spares (use_invite id user_id)
unfolding use_invite
use_invite-Spares id user_id now db db' u e = ground (arith, e)

insert_invite-Spares : (n : NewInvite) → Spares (insert_invite n)
unfolding insert_invite
insert_invite-Spares n now db db' u e = ground (arith, e)

set_invites-Spares : (f : List InviteCode → List InviteCode) → Spares (set_invites f)
set_invites-Spares f now db db' u e = ground (arith, e)

spared-IsConsistent :
    (used : TextSet) (db db' : Db)
    → IsConsistent used db
    → (db'.peers ≡ db.peers) × (db.next_id ≤ db'.next_id)
    → IsConsistent used db'
spared-IsConsistent used db db' h (same, grown) = record {
  ids = λ id. rw same (h.ids id);
  fresh = λ id l. rw same (h.fresh id (omega (arith, l, grown)));
  keys = λ key. rw same (h.keys key);
  leased = λ t. rw same (h.leased t);
}

-- Consistent, with the allocator as it was: what a transaction on another table keeps.
abbrev Calm : World → World → Type 0
Calm u w = Consistent w × (w.ipam ≡ u.ipam)

module _ (u : World) where
  Calm-closed : (v w : World) → Calm u v → w.db ≡ v.db → w.ipam ≡ v.ipam → Calm u w
  Calm-closed v w h db ipam = rw (db, ipam) h

  Calm-back : (v w : World) → Calm u v → Calm u w → Calm u (record w { db = v.db })
  Calm-back v w h k = rw (k.1 ∙ sym h.1) h

  Keeps-Spares : {A : Type 0} (f : ℕ → Db → Result (A × Db)) → Spares f → Keeps (Calm u) (exec f)
  Keeps-Spares f spares =
      Keeps-exec_data (Calm u) Calm-closed f
        λ w a db h e. (spared-IsConsistent _ w.db db h.0 (spares w.now w.db db a e), h.1)

  Keeps-query : {A : Type 0} (f : Db → A) → Keeps (Calm u) (query f)
  Keeps-query f = Keeps-query_data (Calm u) Calm-closed f

  Keeps-query_rows : {A : Type 0} (f : Db → List A) → Keeps (Calm u) (query_rows f)
  Keeps-query_rows f = Keeps-query_rows_data (Calm u) Calm-closed f

  Keeps-call : (e : Error) → Keeps (Calm u) (call e)
  Keeps-call e = Keeps-call_data (Calm u) Calm-closed e

  Keeps-transaction :
      {A : Type 0} (body : Action A) → Keeps (Calm u) body → Keeps (Calm u) (transaction body)
  unfolding transaction
  Keeps-transaction body k = Keeps-bind _ _ (Keeps-call _) λ _.
      Keeps-committed (Calm u) Calm-closed Calm-back body
        (Keeps-bind body _ k λ a. Keeps-bind _ _ (Keeps-call _) λ _. Keeps-pure a)

  Keeps-stop_on : (e : Option Error) → Keeps (Calm u) (stop_on e)
  Keeps-stop_on none = Keeps-pure tt
  Keeps-stop_on (some e) = Keeps-fail e

  ruleset calm_rules = (
    Keeps-pure, Keeps-fail, Keeps-lift, Keeps-gets, Keeps-if, Keeps-check, Keeps-bind, Keeps-query,
    Keeps-query_rows, Keeps-call, Keeps-Spares, Keeps-transaction, Keeps-stop_on, Keeps-map_error,
    insert_user-Spares, set_user-Spares, use_invite-Spares, insert_invite-Spares,
    set_invites-Spares,
  )

  register-Calm :
      (crypto : Crypto) (student_id password code : String)
      → Keeps (Calm u) (register crypto student_id password code)
  unfolding register register_trimmed register_first register_invited register_with_invite
      register_bootstrap_admin count_users find_by_student_id find_invite_by_code
  register-Calm crypto student_id password code = search calm_rules depth 20

  update_me-Calm :
      (env : Env) (crypto : Crypto) (id : String) (f : SelfUpdateFields)
      → Keeps (Calm u) (update_me env crypto id f)
  unfolding update_me update_fields find_user_by_id update_user_row
  update_me-Calm env crypto id f = search calm_rules depth 20

  change_password-Calm :
      (env : Env) (crypto : Crypto) (id current new : String)
      → Keeps (Calm u) (change_password env crypto id current new)
  unfolding change_password find_user_by_id update_password
  change_password-Calm env crypto id current new = search calm_rules depth 20

  update_user-Calm :
      (env : Env) (id : String) (f : AdminUserUpdateFields) → Keeps (Calm u) (update_user env id f)
  unfolding update_user find_user_by_id update_user_row
  update_user-Calm env id f = search calm_rules depth 20

  create_invite-Calm :
      (env : Env) (code : Option String) (add_days : ℕ → ℕ → ℕ) (id : String) (uses days : ℤ)
      → Keeps (Calm u) (create_invite env code add_days id uses days)
  unfolding create_invite create_invite_row
  create_invite-Calm env code add_days id uses days = search calm_rules depth 20

  update_invite-Calm :
      (env : Env) (id : String) (f : InviteFields) → Keeps (Calm u) (update_invite env id f)
  unfolding update_invite find_invite_by_id update_invite_row
  update_invite-Calm env id f = search calm_rules depth 20

  delete_invite-Calm : (env : Env) (id : String) → Keeps (Calm u) (delete_invite env id)
  unfolding delete_invite find_invite_by_id delete_invite_row
  delete_invite-Calm env id = search calm_rules depth 20

  Keeps-configure : (env : Env) (cfg : WgConfig) → Keeps (Calm u) (configure_device env cfg)
  Keeps-configure env cfg = Keeps-configure_data (Calm u) Calm-closed env cfg

  Keeps-key : (key : ℕ) → Keeps (Calm u) (modify (λ w. record w { server_key = key }))
  unfolding modify
  Keeps-key key = record { at = λ w h. h }

  rotate_server_key-Calm : (env : Env) (key : ℕ) → Keeps (Calm u) (rotate_server_key env key)
  unfolding rotate_server_key list_active
  rotate_server_key-Calm env key = search (calm_rules, Keeps-configure, Keeps-key) depth 12

  set_wg_enabled-Calm :
      (env : Env) (port : ℕ) (on : Bool) → Keeps (Calm u) (set_wg_enabled env port on)
  unfolding set_wg_enabled enable_wg disable_wg list_active
  set_wg_enabled-Calm env port true = search (calm_rules, Keeps-configure) depth 12
  set_wg_enabled-Calm env port false = search (calm_rules, Keeps-configure) depth 12

Keeps-Calm : {A : Type 0} (m : Action A) → ((u : World) → Keeps (Calm u) m) → Keeps Consistent m
Keeps-Calm m k = record { at = λ w h. ((k w).at w (h, refl)).0 }

services-Consistent : (c : Settings) → ServicesKeep Consistent c
services-Consistent c = record {
  registers = λ id password code. Keeps-Calm _ λ u. register-Calm u c.crypto id password code;
  updates_me = λ id f. Keeps-Calm _ λ u. update_me-Calm u c.env c.crypto id f;
  changes_password =
      λ id old new. Keeps-Calm _ λ u. change_password-Calm u c.env c.crypto id old new;
  adds = λ id key. record { at = λ w h. add_peer-IsConsistent w c.env id key h };
  removes = λ id key. record { at = λ w h. remove_peer-IsConsistent w c.env id key h };
  replaces = λ id old new. record { at = λ w h. replace_key-IsConsistent w c.env id old new h };
  disconnects = λ id. record { at = λ w h. admin_disconnect_peer-IsConsistent c.env id w h };
  revokes = λ id. record { at = λ w h. admin_revoke_peer-IsConsistent c.env id w h };
  updates_user = λ id f. Keeps-Calm _ λ u. update_user-Calm u c.env id f;
  creates_invite = λ code id uses days.
      Keeps-Calm _ λ u. create_invite-Calm u c.env code c.add_days id uses days;
  updates_invite = λ id f. Keeps-Calm _ λ u. update_invite-Calm u c.env id f;
  deletes_invite = λ id. Keeps-Calm _ λ u. delete_invite-Calm u c.env id;
  rotates = λ key. Keeps-Calm _ λ u. rotate_server_key-Calm u c.env key;
  toggles = λ on. Keeps-Calm _ λ u. set_wg_enabled-Calm u c.env c.listen_port on;
}

pub serve-Consistent :
    (c : Settings) (req : Request) (s : Server)
    → Consistent s.world
    → Consistent (serve c req s).1.world
serve-Consistent c req s h =
    serve-keeps Consistent c (λ v w k same. rw (same.db, same.ipam) k) (services-Consistent c) req s
      h
