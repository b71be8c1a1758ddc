-- ===== src/Admin.antt =====
-- internal/admin/service.go: what administrators read and change.
pub mod Invites
pub mod Limits
use shuosc_network_server_ba.Common.{
  ℕ, ◌+◌, ◌*◌, String, Bool, true, false, ◌&&◌, ◌||◌, not, Option, none, some, List, [], ◌∷◌, ◌==◌,
  str_eq, ltb, leb, if◌then◌else◌, count,
}
use shuosc_network_server_ba.Common.Integers.{ℤ, pos, negsuc, at_least, magnitude}
use shuosc_network_server_ba.Model.{User, Peer, InviteCode, is_admin}
use shuosc_network_server_ba.World.{
  World, Db, Env, Error, rand_failure, db_failure, invalid_uuid, user_not_found, peer_not_found,
  invite_not_found, not_admin, invalid_status, invalid_max_peers, invalid_max_uses, invalid_expiry,
  invite_used, Result, ok, err, Action, pure, fail, lift, gets, ◌>>=◌, ◌>>◌, check, or_fail, call,
  query, query_rows,
}
use shuosc_network_server_ba.Auth.{is_some}
use shuosc_network_server_ba.Store.Users.{UserUpdateFields, update_user_row}
use shuosc_network_server_ba.Store.Users.Find.{find_user_by_id}
use shuosc_network_server_ba.Store.Lists.{
  Sql, PeerListByUserParams, PeerWithStudent, ListResult, list_by_user_id,
}
use shuosc_network_server_ba.Store.Peers.{find_by_id, update_status}
use shuosc_network_server_ba.Store.Rows.{groups, size_of}
use shuosc_network_server_ba.Store.Invites.{
  StateCounts, count_by_state, InviteUpdateFields, find_invite_by_id, create_invite_row,
  update_invite_row, delete_invite_row,
}

-- CountByStatus of both stores: the number of rows with a status.
abbrev pub users_with : String → Db → ℕ
users_with status db = count (λ (u : User). str_eq u.status status) db.users

abbrev pub peers_with : String → Db → ℕ
peers_with status db = count (λ (p : Peer). str_eq p.status status) db.peers

pub record Summary : Type 0 where
  pub users_total : ℕ
  pub users_active : ℕ
  pub users_suspended : ℕ
  pub peers_active : ℕ
  pub peers_disconnected : ℕ
  pub peers_revoked : ℕ
  pub invites_total : ℕ
  pub invites_available : ℕ
  pub invites_expired : ℕ

-- GetSummary: three queries.
unfoldable pub get_summary : Action Summary
get_summary = do
  users ← query_rows (λ db. groups (λ s. users_with s db) ("active" ∷ "suspended" ∷ "deleted" ∷ []))
  peers ←
      query_rows (λ db. groups (λ s. peers_with s db) ("active" ∷ "disconnected" ∷ "revoked" ∷ []))
  invites ← count_by_state
  pure (record {
    users_total = size_of "active" users + size_of "suspended" users + size_of "deleted" users;
    users_active = size_of "active" users;
    users_suspended = size_of "suspended" users;
    peers_active = size_of "active" peers;
    peers_disconnected = size_of "disconnected" peers;
    peers_revoked = size_of "revoked" peers;
    invites_total = invites.available + invites.used_up + invites.expired;
    invites_available = invites.available;
    invites_expired = invites.expired;
  })

abbrev pub known : {A : Type 0} → Action (Option A) → Error → Action A
known m e = m >>= λ found. lift (or_fail found e)

-- GetUser.
unfoldable pub get_user : Env → String → Action User
get_user env user_id = do
  id ← lift (or_fail (env.parse_uuid user_id) invalid_uuid)
  found ← find_user_by_id id
  lift (or_fail found user_not_found)

pub record AdminUserUpdateFields : Type 0 where
  pub max_peers : Option ℤ
  pub status : Option String

abbrev pub bad_max_peers : Option ℤ → Bool
bad_max_peers none = false
bad_max_peers (some n) = not (at_least 0 n)

abbrev pub bad_status : Option String → Bool
bad_status none = false
bad_status (some s) = not (str_eq s "active") && not (str_eq s "suspended")

abbrev pub magnitude_of : Option ℤ → Option ℕ
magnitude_of none = none
magnitude_of (some n) = some (magnitude n)

abbrev pub admin_fields : AdminUserUpdateFields → UserUpdateFields
admin_fields f = record {
  display_name = none;
  email = none;
  phone = none;
  wechat = none;
  telegram = none;
  max_peers = magnitude_of f.max_peers;
  status = f.status;
}

-- UpdateUser.
unfoldable pub update_user : Env → String → AdminUserUpdateFields → Action User
update_user env user_id f = do
  id ← lift (or_fail (env.parse_uuid user_id) invalid_uuid)
  check (bad_max_peers f.max_peers) invalid_max_peers
  check (bad_status f.status) invalid_status
  update_user_row id (admin_fields f)
  found ← find_user_by_id id
  lift (or_fail found user_not_found)

-- GetPeer.
unfoldable pub get_peer : Env → String → Action Peer
get_peer env peer_id = do
  id ← lift (or_fail (env.parse_uuid peer_id) invalid_uuid)
  found ← find_by_id id
  lift (or_fail found peer_not_found)

-- DisconnectPeer and RevokePeer: the status of a row that exists.
unfoldable pub set_peer_status : Env → String → String → Action (Unit {0})
set_peer_status env status peer_id = do
  id ← lift (or_fail (env.parse_uuid peer_id) invalid_uuid)
  found ← find_by_id id
  lift (or_fail found peer_not_found)
  update_status id status

unfoldable pub disconnect_peer : Env → String → Action (Unit {0})
disconnect_peer env peer_id = set_peer_status env "disconnected" peer_id

unfoldable pub revoke_peer : Env → String → Action (Unit {0})
revoke_peer env peer_id = set_peer_status env "revoked" peer_id

-- CreateInvite. The code and the date are parameters: crypto/rand and the calendar are not modelled.
unfoldable pub create_invite :
    Env → Option String → (ℕ → ℕ → ℕ) → String → ℤ → ℤ → Action InviteCode
create_invite env code add_days created_by max_uses expires_days = do
  creator ← lift (or_fail (env.parse_uuid created_by) invalid_uuid)
  check (not (at_least 1 max_uses)) invalid_max_uses
  check (not (at_least 1 expires_days)) invalid_expiry
  code ← lift (or_fail code rand_failure)
  now ← gets (λ w. w.now)
  create_invite_row (record {
    code = code;
    created_by = creator;
    max_uses = magnitude max_uses;
    expires_at = some (add_days now (magnitude expires_days));
  })

pub record InviteFields : Type 0 where
  pub max_uses : Option ℤ
  pub expires_at : Option ℕ
  pub clear_expires_at : Bool

abbrev pub bad_max_uses : Option ℤ → InviteCode → Bool
bad_max_uses none i = false
bad_max_uses (some n) i = not (at_least 1 n) || not (at_least i.use_count n)

abbrev pub invite_fields : InviteFields → InviteUpdateFields
invite_fields f = record {
  max_uses = magnitude_of f.max_uses;
  expires_at = f.expires_at;
  clear_expires_at = f.clear_expires_at;
}

-- UpdateInvite; the row that is read back may be missing.
unfoldable pub update_invite : Env → String → InviteFields → Action (Option InviteCode)
update_invite env invite_id f = do
  id ← lift (or_fail (env.parse_uuid invite_id) invalid_uuid)
  found ← find_invite_by_id id
  invite ← lift (or_fail found invite_not_found)
  check (bad_max_uses f.max_uses invite) invalid_max_uses
  update_invite_row id (invite_fields f)
  find_invite_by_id id

-- DeleteInvite.
unfoldable pub delete_invite : Env → String → Action (Unit {0})
delete_invite env invite_id = do
  id ← lift (or_fail (env.parse_uuid invite_id) invalid_uuid)
  found ← find_invite_by_id id
  invite ← lift (or_fail found invite_not_found)
  check (ltb 0 invite.use_count || is_some invite.used_by) invite_used
  delete_invite_row id

-- VerifyAdmin.
unfoldable pub verify_admin : Env → String → Action User
verify_admin env user_id = do
  id ← lift (or_fail (env.parse_uuid user_id) invalid_uuid)
  found ← find_user_by_id id
  user ← lift (or_fail found user_not_found)
  check (not (str_eq user.role "admin")) not_admin
  pure user

-- ListUserPeers.
unfoldable pub list_user_peers :
    Env → Sql → String → PeerListByUserParams → Action (ListResult PeerWithStudent)
list_user_peers env sql user_id params = do
  id ← lift (or_fail (env.parse_uuid user_id) invalid_uuid)
  list_by_user_id sql id params
