-- ===== src/Api/Accounts.antt =====
-- internal/api/auth_handler.go and internal/api/me_handler.go.
use shuosc_network_server_ba.Common.{ℕ, String, ◌||◌, Option, if◌then◌else◌}
use shuosc_network_server_ba.Common.Words.{is_empty}
use shuosc_network_server_ba.Model.{User}
use shuosc_network_server_ba.World.{
  Env, Error, invalid_credentials, student_id_taken, invalid_invite, account_inactive,
  password_too_short, password_too_long, password_missing_letter, password_missing_digit,
  user_not_found, display_name_too_long, invalid_email, invalid_phone, invalid_wechat,
  invalid_telegram, invalid_password, password_too_weak, password_reuse,
}
use shuosc_network_server_ba.Store.Lists.{Sql}
use shuosc_network_server_ba.Auth.{Crypto, register, login}
use shuosc_network_server_ba.Account.{
  SelfUpdateFields, get_me, update_me, change_password, list_my_peers,
}
use shuosc_network_server_ba.Api.Answers.{
  Answer, failure, internal_error, bad_request, Handler, respond, reject, with_body, with_user_id,
  done, registered, logged_in, own_profile, own_account, peer_list,
}
use shuosc_network_server_ba.Api.Requests.{
  RegisterRequest, LoginRequest, ChangePasswordRequest, page_param, page_size_param, default_query,
}

abbrev pub auth_failed : Answer
auth_failed = failure 401 "AUTH_FAILED"

abbrev pub forbidden : Answer
forbidden = failure 403 "FORBIDDEN"

abbrev pub register_error : Error → Answer
register_error invalid_credentials = auth_failed
register_error student_id_taken = failure 409 "ALREADY_EXISTS"
register_error invalid_invite = failure 400 "INVALID_INVITE"
register_error password_too_short = failure 400 "INVALID_PASSWORD"
register_error password_too_long = failure 400 "INVALID_PASSWORD"
register_error password_missing_letter = failure 400 "INVALID_PASSWORD"
register_error password_missing_digit = failure 400 "INVALID_PASSWORD"
register_error account_inactive = forbidden
register_error e = internal_error

-- Register.
unfoldable pub handle_register : Env → Crypto → Option RegisterRequest → Handler
handle_register env crypto body = with_body body λ req.
    if is_empty req.student_id || is_empty req.password
    then reject bad_request
    else respond (λ (u : User). registered (env.uuid_text u.id)) register_error
        (register crypto req.student_id req.password req.invite_code)

abbrev pub login_error : Error → Answer
login_error invalid_credentials = auth_failed
login_error account_inactive = forbidden
login_error e = internal_error

-- Login.
unfoldable pub handle_login : Env → Crypto → ℕ → Option LoginRequest → Handler
handle_login env crypto hours body = with_body body λ req.
    if is_empty req.student_id || is_empty req.password
    then reject bad_request
    else respond (λ (token : String × ℕ). logged_in token.0 token.1) login_error
        (login env crypto hours req.student_id req.password)

abbrev pub get_me_error : Error → Answer
get_me_error user_not_found = failure 404 "USER_NOT_FOUND"
get_me_error e = internal_error

-- GetMe.
unfoldable pub handle_get_me : Env → String → Handler
handle_get_me env user_id =
    with_user_id user_id (respond own_profile get_me_error (get_me env user_id))

abbrev pub update_me_error : Error → Answer
update_me_error display_name_too_long = failure 400 "INVALID_CONTACT"
update_me_error invalid_email = failure 400 "INVALID_CONTACT"
update_me_error invalid_phone = failure 400 "INVALID_CONTACT"
update_me_error invalid_wechat = failure 400 "INVALID_CONTACT"
update_me_error invalid_telegram = failure 400 "INVALID_CONTACT"
update_me_error account_inactive = forbidden
update_me_error e = internal_error

-- UpdateMe.
unfoldable pub handle_update_me : Env → Crypto → String → Option SelfUpdateFields → Handler
handle_update_me env crypto user_id body =
    with_user_id user_id
      (with_body body λ req. respond own_account update_me_error (update_me env crypto user_id req))

abbrev pub change_password_error : Error → Answer
change_password_error invalid_password = auth_failed
change_password_error password_too_weak = failure 400 "INVALID_PASSWORD"
change_password_error password_reuse = failure 400 "INVALID_PASSWORD"
change_password_error account_inactive = forbidden
change_password_error e = internal_error

-- ChangePassword.
unfoldable pub handle_change_password :
    Env → Crypto → String → Option ChangePasswordRequest → Handler
handle_change_password env crypto user_id body = with_user_id user_id (
    with_body body λ req.
      if is_empty req.current_password || is_empty req.new_password
      then reject bad_request
      else respond (λ _. done) change_password_error
          (change_password env crypto user_id req.current_password req.new_password))

-- ListMyPeers; a parameter that is not given is `none`.
unfoldable pub handle_list_my_peers :
    Env → Sql → String → Option String → Option String → Option String → Handler
handle_list_my_peers env sql user_id page page_size status = with_user_id user_id (
    respond
      (λ r.
        peer_list
          (record { result = r; page = page_param page; page_size = page_size_param page_size }))
      (λ e. internal_error)
      (list_my_peers env sql user_id (record {
        page = page_param page;
        page_size = page_size_param page_size;
        status = default_query status "";
      })))
