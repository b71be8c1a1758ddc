-- ===== src/Store/Users.antt =====
-- The statements of internal/store/user_store.go that change the users table, and its transactions.
-- Widths of columns are not modelled: a statement that the database refuses is a fault of its call.
pub mod Find
pub mod Registration
use shuosc_network_server_ba.Common.{
  ℕ, suc, ◌+◌, String, Bool, true, false, ◌&&◌, ◌||◌, not, Option, none, some, List, [], ◌∷◌, ◌++◌,
  ◌==◌, str_eq, leb, first, length, if◌then◌else◌,
}
use shuosc_network_server_ba.Model.{User, InviteCode}
use shuosc_network_server_ba.World.{
  World, Db, Error, Result, ok, err, db_failure, store_student_id_taken, invite_unavailable,
  bootstrap_closed, Action, pure, fail, lift, gets, ◌>>=◌, ◌>>◌, check, or_fail, call, query, exec,
  ignore,
}
use shuosc_network_server_ba.Store.Rows.{update_where}
use Find.{has_user_id, has_student_id, count_users}

-- What the callers set of a model.User.
pub record NewUser : Type 0 where
  pub student_id : String
  pub password : String
  pub role : String
  pub invite_id : ℕ
  pub max_peers : ℕ
  pub status : String

unfoldable pub user_row : NewUser → ℕ → ℕ → User
user_row n id now = record {
  id = id;
  student_id = n.student_id;
  password = n.password;
  role = n.role;
  invite_id = n.invite_id;
  display_name = none;
  email = none;
  phone = none;
  wechat = none;
  telegram = none;
  max_peers = n.max_peers;
  status = n.status;
  created_at = now;
  updated_at = now;
}

-- INSERT INTO users ... RETURNING id, created_at, updated_at; the student id is unique.
unfoldable pub insert_user : NewUser → ℕ → Db → Result (User × Db)
unfolding user_row
insert_user n now db = elim (first (has_student_id n.student_id) db.users) [
  | some u ↦ err store_student_id_taken
  | none ↦ ok (
    user_row n db.next_id now,
    record db { users = db.users ++ (user_row n db.next_id now ∷ []); next_id = suc db.next_id },
  )
]

unfoldable pub create_user : NewUser → Action User
create_user n = exec (insert_user n)

-- A transaction: Begin, the body, Commit. An error on the way rolls the database back, whatever the
-- result of Rollback.
unfoldable pub rolled_back : {A : Type 0} → Db → Result A → World → Result A × World
rolled_back db (ok a) w = (ok a, w)
rolled_back db (err e) w = (err e, record (call db_failure w).1 { db = db })

unfoldable pub committed : {A : Type 0} → Action A → Action A
unfolding rolled_back
committed body w = let (r, w') = (do a ← body; call db_failure; pure a) w in rolled_back w.db r w'

unfoldable pub transaction : {A : Type 0} → Action A → Action A
transaction body = do call db_failure; committed body

-- RegisterBootstrapAdmin: LOCK TABLE, SELECT COUNT(*), INSERT.
unfoldable pub register_bootstrap_admin : NewUser → Action User
register_bootstrap_admin n = transaction (do
  call db_failure
  count ← count_users
  check (not (count == 0)) bootstrap_closed
  exec (insert_user n))

-- `expiresAt != nil && !expiresAt.After(time.Now())`
abbrev pub expired_by : ℕ → Option ℕ → Bool
expired_by now none = false
expired_by now (some t) = leb t now

abbrev pub has_code : String → InviteCode → Bool
has_code code i = str_eq i.code code

abbrev pub has_invite_id : ℕ → InviteCode → Bool
has_invite_id id i = i.id == id

abbrev pub used_once_more : ℕ → InviteCode → InviteCode
used_once_more user_id i = record i { use_count = i.use_count + 1; used_by = some user_id }

-- UPDATE invite_codes SET use_count = use_count + 1, used_by = $1 WHERE id = $2, which must meet a row.
unfoldable pub use_invite : ℕ → ℕ → ℕ → Db → Result (Unit {0} × Db)
use_invite id user_id now db = elim (first (has_invite_id id) db.invites) [
  | none ↦ err invite_unavailable
  | some i ↦ ok (
    tt,
    record db { invites = update_where (has_invite_id id) (used_once_more user_id) db.invites },
  )
]

-- RegisterWithInvite.
unfoldable pub register_with_invite : NewUser → String → Action User
register_with_invite n code = transaction (do
  found ← query (λ db. first (has_code code) db.invites)
  invite ← lift (or_fail found invite_unavailable)
  now ← gets (λ w. w.now)
  check (leb invite.max_uses invite.use_count || expired_by now invite.expires_at)
      invite_unavailable
  user ← exec (insert_user (record n { invite_id = invite.id }))
  exec (use_invite invite.id user.id)
  pure user)

-- OptionalStringUpdate: absent, or a new value that may be NULL.
abbrev pub OptionalStringUpdate : Type 0
OptionalStringUpdate = Option (Option String)

pub record UserUpdateFields : Type 0 where
  pub display_name : OptionalStringUpdate
  pub email : OptionalStringUpdate
  pub phone : OptionalStringUpdate
  pub wechat : OptionalStringUpdate
  pub telegram : OptionalStringUpdate
  pub max_peers : Option ℕ
  pub status : Option String

abbrev pub updated {ℓ} : {A : Type ℓ} → Option A → A → A
updated none old = old
updated (some new) old = new

abbrev pub is_set {ℓ} : {A : Type ℓ} → Option A → Bool
is_set none = false
is_set (some a) = true

unfoldable pub any_set : UserUpdateFields → Bool
any_set f =
    is_set f.display_name
    || is_set f.email
    || is_set f.phone
    || is_set f.wechat
    || is_set f.telegram
    || is_set f.max_peers
    || is_set f.status

unfoldable pub with_fields : UserUpdateFields → ℕ → User → User
with_fields f now u = record u {
  display_name = updated f.display_name u.display_name;
  email = updated f.email u.email;
  phone = updated f.phone u.phone;
  wechat = updated f.wechat u.wechat;
  telegram = updated f.telegram u.telegram;
  max_peers = updated f.max_peers u.max_peers;
  status = updated f.status u.status;
  updated_at = now;
}

unfoldable pub set_user : ℕ → (ℕ → User → User) → ℕ → Db → Result (Unit {0} × Db)
set_user id f now db = ok (tt, record db { users = update_where (has_user_id id) (f now) db.users })

-- Update: without a field to set there is no statement.
unfoldable pub update_user_row : ℕ → UserUpdateFields → Action (Unit {0})
update_user_row id f = if any_set f then exec (set_user id (with_fields f)) else pure tt

abbrev pub with_password : String → ℕ → User → User
with_password hash now u = record u { password = hash; updated_at = now }

-- UpdatePassword.
unfoldable pub update_password : ℕ → String → Action (Unit {0})
update_password id hash = exec (set_user id (with_password hash))

abbrev pub with_user_status : String → ℕ → User → User
with_user_status status now u = record u { status = status; updated_at = now }

-- UpdateStatus.
unfoldable pub update_user_status : ℕ → String → Action (Unit {0})
update_user_status id status = exec (set_user id (with_user_status status))
