-- ===== src/Account.antt =====
-- internal/account/service.go: what a user reads and changes of its own account.
pub mod Contacts
use shuosc_network_server_ba.Common.{
  ℕ, String, Bool, true, false, ◌&&◌, ◌||◌, not, Option, none, some, ◌==◌, str_eq, ltb, leb,
  if◌then◌else◌,
}
use shuosc_network_server_ba.Common.Words.{trim_space, byte_length, any_rune, all_runes, is_empty}
use shuosc_network_server_ba.Model.{User, is_active}
use shuosc_network_server_ba.World.{
  World, Env, Error, invalid_uuid, user_not_found, account_inactive, display_name_too_long,
  invalid_email, invalid_phone, invalid_wechat, invalid_telegram, invalid_password, password_reuse,
  password_too_weak, hash_failure, Result, ok, err, Action, pure, fail, lift, ◌>>=◌, ◌>>◌, check,
  or_fail,
}
use shuosc_network_server_ba.Auth.{Crypto, validate_password, is_some}
use shuosc_network_server_ba.Store.Users.{
  UserUpdateFields, OptionalStringUpdate, update_user_row, update_password,
}
use shuosc_network_server_ba.Store.Users.Find.{find_user_by_id}
use shuosc_network_server_ba.Store.Lists.{
  Sql, PeerListByUserParams, PeerWithStudent, ListResult, list_by_user_id,
}
use shuosc_network_server_ba.Store.Peers.{count_active_by_user_id}

pub record SelfProfile : Type 0 where
  pub user : User
  pub active_peers : ℕ
  pub max_peers : ℕ

pub record SelfUpdateFields : Type 0 where
  pub display_name : Option String
  pub email : Option String
  pub phone : Option String
  pub wechat : Option String
  pub telegram : Option String

-- GetMe.
unfoldable pub get_me : Env → String → Action SelfProfile
get_me env user_id = do
  id ← lift (or_fail (env.parse_uuid user_id) invalid_uuid)
  found ← find_user_by_id id
  user ← lift (or_fail found user_not_found)
  active ← count_active_by_user_id id
  pure (record { user = user; active_peers = active; max_peers = user.max_peers })

-- The classes of the regular expressions: `\s`, and `[\d+\-()\s]`.
abbrev pub regexp_space : ℕ → Bool
regexp_space c = (c == 9) || (c == 10) || (c == 12) || (c == 13) || (c == 32)

abbrev pub phone_char : ℕ → Bool
phone_char c =
    (leb 48 c && leb c 57) || (c == 43) || (c == 45) || (c == 40) || (c == 41) || regexp_space c

-- The tests of UpdateMe on each trimmed field that is not empty, and what is stored.
unfoldable pub accept_display_name : String → Result String
accept_display_name t = if ltb 64 (byte_length t) then err display_name_too_long else ok t

unfoldable pub accept_lower_email : String → Result String
accept_lower_email t =
    if ltb 255 (byte_length t) || not (any_rune (λ c. c == 64) t) then err invalid_email else ok t

unfoldable pub accept_email : Crypto → String → Result String
accept_email crypto t = accept_lower_email (crypto.to_lower t)

unfoldable pub accept_phone : String → Result String
accept_phone t =
    if ltb 32 (byte_length t) || not (all_runes phone_char t) then err invalid_phone else ok t

unfoldable pub accept_wechat : String → Result String
accept_wechat t =
    if ltb 64 (byte_length t) || any_rune regexp_space t then err invalid_wechat else ok t

unfoldable pub accept_telegram : String → Result String
accept_telegram t = if ltb 64 (byte_length t) then err invalid_telegram else ok t

abbrev pub present : Result String → Result OptionalStringUpdate
present (ok t) = ok (some (some t))
present (err e) = err e

-- One field: absent, cleared by an empty text, or set.
unfoldable pub field_update : (String → Result String) → Option String → Result OptionalStringUpdate
field_update accept none = ok none
field_update accept (some s) =
    if is_empty (trim_space s) then ok (some none) else present (accept (trim_space s))

unfoldable pub update_fields : Crypto → SelfUpdateFields → Action UserUpdateFields
update_fields crypto f = do
  display_name ← lift (field_update accept_display_name f.display_name)
  email ← lift (field_update (accept_email crypto) f.email)
  phone ← lift (field_update accept_phone f.phone)
  wechat ← lift (field_update accept_wechat f.wechat)
  telegram ← lift (field_update accept_telegram f.telegram)
  pure (record {
    display_name = display_name;
    email = email;
    phone = phone;
    wechat = wechat;
    telegram = telegram;
    max_peers = none;
    status = none;
  })

-- UpdateMe; the row that is read back may be missing.
unfoldable pub update_me : Env → Crypto → String → SelfUpdateFields → Action (Option User)
update_me env crypto user_id f = do
  id ← lift (or_fail (env.parse_uuid user_id) invalid_uuid)
  found ← find_user_by_id id
  user ← lift (or_fail found user_not_found)
  check (not (is_active user)) account_inactive
  fields ← update_fields crypto f
  update_user_row id fields
  find_user_by_id id

-- ChangePassword.
unfoldable pub change_password : Env → Crypto → String → String → String → Action (Unit {0})
change_password env crypto user_id current new = do
  id ← lift (or_fail (env.parse_uuid user_id) invalid_uuid)
  found ← find_user_by_id id
  user ← lift (or_fail found user_not_found)
  check (not (is_active user)) account_inactive
  check (not (crypto.matches user.password current)) invalid_password
  check (str_eq (trim_space current) (trim_space new)) password_reuse
  check (is_some (validate_password crypto new)) password_too_weak
  hash ← lift (or_fail (crypto.hash new) hash_failure)
  update_password id hash

-- ListMyPeers.
unfoldable pub list_my_peers :
    Env → Sql → String → PeerListByUserParams → Action (ListResult PeerWithStudent)
list_my_peers env sql user_id params = do
  id ← lift (or_fail (env.parse_uuid user_id) invalid_uuid)
  list_by_user_id sql id params
