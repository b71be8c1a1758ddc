-- ===== src/Api/Admins.antt =====
-- internal/api/admin_handler.go, but for the handlers of Api/AdminPeers.
use shuosc_network_server_ba.Common.{
  ℕ, zero, suc, String, Bool, true, false, Option, none, some, if◌then◌else◌,
}
use shuosc_network_server_ba.Model.{User}
use shuosc_network_server_ba.World.{
  Env, Error, Action, user_not_found, not_admin, invalid_status, invalid_max_peers,
  invalid_max_uses, invalid_expiry, invite_not_found, invite_used, pure, gets, ◌>>=◌,
}
use shuosc_network_server_ba.Store.Lists.{
  Sql, UserListParams, PeerListParams, InviteListParams, list_users, list_peers, list_invites,
}
use shuosc_network_server_ba.Peer.Manager.Server.{
  rotate_server_key, set_wg_enabled, wg_enabled, active_peer_count,
}
use shuosc_network_server_ba.Common.Integers.{ℤ, pos, negsuc, at_least}
use shuosc_network_server_ba.Admin.{
  AdminUserUpdateFields, InviteFields, get_summary, get_user, update_user, list_user_peers,
  create_invite, update_invite, delete_invite, verify_admin,
}
use shuosc_network_server_ba.Api.Answers.{
  Answer, failure, internal_error, bad_request, Handler, WgStatus, respond, reject, with_body,
  with_text, with_user_id, with_key, done, admin_identity, overview, account, user_list, peer_list,
  invite_list, invite, changed_invite, wg_status, rotated, toggled,
}
use shuosc_network_server_ba.Api.Requests.{
  CreateInviteRequest, UpdateInviteRequest, page_param, page_size_param, default_query,
}

abbrev pub admin_me_error : Error → Answer
admin_me_error user_not_found = failure 404 "USER_NOT_FOUND"
admin_me_error not_admin = failure 403 "FORBIDDEN"
admin_me_error e = internal_error

-- AdminMe.
unfoldable pub handle_admin_me : Env → String → Handler
handle_admin_me env user_id = with_user_id user_id (
    respond (λ (u : User). admin_identity (env.uuid_text u.id) u.student_id u.role u.status)
      admin_me_error (verify_admin env user_id))

-- AdminSummary.
unfoldable pub handle_summary : Handler
handle_summary = respond overview (λ e. internal_error) get_summary

-- The parameters of the query of a list; one that is not given is `none`.
pub record ListQuery : Type 0 where
  pub page : Option String
  pub page_size : Option String
  pub status : Option String
  pub student_id : Option String
  pub role : Option String
  pub public_key : Option String
  pub code : Option String
  pub state : Option String
  pub sort_by : Option String
  pub sort_order : Option String

unfoldable pub user_params : ListQuery → UserListParams
user_params q = record {
  page = page_param q.page;
  page_size = page_size_param q.page_size;
  student_id = default_query q.student_id "";
  status = default_query q.status "";
  role = default_query q.role "";
  sort_by = default_query q.sort_by "created_at";
  sort_order = default_query q.sort_order "desc";
}

unfoldable pub peer_params : ListQuery → PeerListParams
peer_params q = record {
  page = page_param q.page;
  page_size = page_size_param q.page_size;
  status = default_query q.status "";
  student_id = default_query q.student_id "";
  public_key = default_query q.public_key "";
  sort_by = default_query q.sort_by "created_at";
  sort_order = default_query q.sort_order "desc";
}

unfoldable pub invite_params : ListQuery → InviteListParams
invite_params q = record {
  page = page_param q.page;
  page_size = page_size_param q.page_size;
  code = default_query q.code "";
  state = default_query q.state "";
}

-- AdminListUsers.
unfoldable pub handle_list_users : Sql → ListQuery → Handler
handle_list_users sql q =
    respond
      (λ r.
        user_list (record {
          result = r;
          page = page_param q.page;
          page_size = page_size_param q.page_size;
        }))
      (λ e. internal_error) (list_users sql (user_params q))

abbrev pub get_user_error : Error → Answer
get_user_error user_not_found = failure 404 "USER_NOT_FOUND"
get_user_error e = internal_error

-- AdminGetUser.
unfoldable pub handle_get_user : Env → String → Handler
handle_get_user env user_id =
    with_text user_id (respond account get_user_error (get_user env user_id))

abbrev pub update_user_error : Error → Answer
update_user_error user_not_found = failure 404 "USER_NOT_FOUND"
update_user_error invalid_status = failure 400 "INVALID_STATUS"
update_user_error invalid_max_peers = failure 400 "INVALID_MAX_PEERS"
update_user_error e = internal_error

-- AdminUpdateUser.
unfoldable pub handle_update_user : Env → String → Option AdminUserUpdateFields → Handler
handle_update_user env user_id body =
    with_text user_id
      (with_body body λ req. respond account update_user_error (update_user env user_id req))

-- AdminListUserPeers.
unfoldable pub handle_list_user_peers : Env → Sql → String → ListQuery → Handler
handle_list_user_peers env sql user_id q = with_text user_id (
    respond
      (λ r.
        peer_list (record {
          result = r;
          page = page_param q.page;
          page_size = page_size_param q.page_size;
        }))
      (λ e. internal_error)
      (list_user_peers env sql user_id (record {
        page = page_param q.page;
        page_size = page_size_param q.page_size;
        status = default_query q.status "";
      })))

-- AdminListPeers.
unfoldable pub handle_list_peers : Sql → ListQuery → Handler
handle_list_peers sql q =
    respond
      (λ r.
        peer_list (record {
          result = r;
          page = page_param q.page;
          page_size = page_size_param q.page_size;
        }))
      (λ e. internal_error) (list_peers sql (peer_params q))

-- AdminListInvites.
unfoldable pub handle_list_invites : Sql → ListQuery → Handler
handle_list_invites sql q =
    respond
      (λ r.
        invite_list (record {
          result = r;
          page = page_param q.page;
          page_size = page_size_param q.page_size;
        }))
      (λ e. internal_error) (list_invites sql (invite_params q))

abbrev pub create_invite_error : Error → Answer
create_invite_error invalid_max_uses = bad_request
create_invite_error invalid_expiry = bad_request
create_invite_error e = internal_error

-- The defaults of AdminHandler.
pub record InviteDefaults : Type 0 where
  pub max_uses : ℤ
  pub expiry_days : ℤ

abbrev pub or_default : ℤ → ℤ → ℤ
or_default n default = if at_least 1 n then n else default

-- AdminCreateInvite; `code` is what the random numbers make.
unfoldable pub handle_create_invite :
    Env
    → InviteDefaults
    → Option String
    → (ℕ → ℕ → ℕ)
    → String
    → Option CreateInviteRequest
    → Handler
handle_create_invite env defaults code add_days user_id body = with_user_id user_id (
    with_body body λ req. respond invite create_invite_error (
      create_invite env code add_days user_id (or_default req.max_uses defaults.max_uses)
        (or_default req.expires_days defaults.expiry_days)))

abbrev pub update_invite_error : Error → Answer
update_invite_error invite_not_found = failure 404 "INVITE_NOT_FOUND"
update_invite_error invalid_max_uses = bad_request
update_invite_error e = internal_error

-- The fields of an update at a time: 0 days clear the expiry, a negative number is refused.
unfoldable pub new_fields : (ℕ → ℕ → ℕ) → ℕ → Option ℤ → Option ℤ → Option InviteFields
new_fields add_days now max_uses none =
    some (record { max_uses = max_uses; expires_at = none; clear_expires_at = false })
new_fields add_days now max_uses (some (negsuc n)) = none
new_fields add_days now max_uses (some (pos zero)) =
    some (record { max_uses = max_uses; expires_at = none; clear_expires_at = true })
new_fields add_days now max_uses (some (pos (suc n))) = some (record {
  max_uses = max_uses;
  expires_at = some (add_days now (suc n));
  clear_expires_at = false;
})

unfoldable pub with_fields_of : Env → String → Option InviteFields → Handler
with_fields_of env invite_id none = reject bad_request
with_fields_of env invite_id (some f) =
    respond changed_invite update_invite_error (update_invite env invite_id f)

-- AdminUpdateInvite.
unfoldable pub handle_update_invite :
    Env → (ℕ → ℕ → ℕ) → String → Option UpdateInviteRequest → Handler
handle_update_invite env add_days invite_id body = with_text invite_id (
    with_body body λ req w.
      with_fields_of env invite_id (new_fields add_days w.now req.max_uses req.expires_days) w)

abbrev pub delete_invite_error : Error → Answer
delete_invite_error invite_not_found = failure 404 "INVITE_NOT_FOUND"
delete_invite_error invite_used = failure 409 "INVITE_IN_USE"
delete_invite_error e = internal_error

-- AdminDeleteInvite.
unfoldable pub handle_delete_invite : Env → String → Handler
handle_delete_invite env invite_id =
    with_text invite_id (respond (λ _. done) delete_invite_error (delete_invite env invite_id))

unfoldable pub read_wg_status : Env → ℕ → Action WgStatus
read_wg_status env listen_port = do
  enabled ← wg_enabled
  key ← gets (λ w. env.key_text (env.public_key w.server_key))
  peers ← active_peer_count
  pure (record {
    enabled = enabled;
    public_key = key;
    listen_port = listen_port;
    peers_count = peers;
  })

-- AdminGetWGStatus, with the listen port of the manager.
unfoldable pub handle_wg_status : Env → ℕ → Handler
handle_wg_status env listen_port =
    respond wg_status (λ e. internal_error) (read_wg_status env listen_port)

-- AdminRotateWGKey; the body is its private_key.
unfoldable pub handle_rotate_key : Env → Option String → Handler
handle_rotate_key env body = with_body body λ private_key. with_text private_key (
    with_key (env.parse_key private_key) λ key.
      respond (λ (k : ℕ). rotated (env.key_text k)) (λ e. internal_error)
        (rotate_server_key env key))

-- AdminToggleWG; the body is its `enabled`.
unfoldable pub handle_toggle : Env → ℕ → Option Bool → Handler
handle_toggle env listen_port body = with_body body λ enabled.
    respond (λ _. toggled enabled) (λ e. internal_error) (set_wg_enabled env listen_port enabled)
