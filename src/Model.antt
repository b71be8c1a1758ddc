-- ===== src/Model.antt =====
-- internal/model: users, peers and invite codes. Ids are numbers, times are nanoseconds. The integer
-- columns are natural numbers: the services refuse negative values before they reach the database.
use shuosc_network_server_ba.Common.{
  ℕ, String, Bool, true, false, Option, none, some, ltb, leb, if◌then◌else◌, str_eq,
}
use shuosc_network_server_ba.Common.Text.{Text}

pub record User : Type 0 where
  pub id : ℕ
  pub student_id : String
  pub password : String
  pub role : String
  pub invite_id : ℕ
  pub display_name : Option String
  pub email : Option String
  pub phone : Option String
  pub wechat : Option String
  pub telegram : Option String
  pub max_peers : ℕ
  pub status : String
  pub created_at : ℕ
  pub updated_at : ℕ

unfoldable pub is_active : User → Bool
is_active u = str_eq u.status "active"

unfoldable pub is_admin : User → Bool
is_admin u = str_eq u.role "admin"

pub record Peer : Type 0 where
  pub id : ℕ
  pub user_id : ℕ
  pub public_key : String
  pub assigned_ip : Text
  pub status : String
  pub last_seen : Option ℕ
  pub created_at : ℕ
  pub updated_at : ℕ

pub record InviteCode : Type 0 where
  pub id : ℕ
  pub code : String
  pub created_by : ℕ
  pub used_by : Option ℕ
  pub max_uses : ℕ
  pub use_count : ℕ
  pub expires_at : Option ℕ
  pub created_at : ℕ

-- `expires_at != nil && now.After(*expires_at)`
abbrev pub has_expired : ℕ → Option ℕ → Bool
has_expired now none = false
has_expired now (some t) = ltb t now

-- InviteCode.IsAvailable at the time that time.Now() returns.
unfoldable pub is_available : ℕ → InviteCode → Bool
is_available now i =
    if leb i.max_uses i.use_count
    then false
    else if has_expired now i.expires_at
    then false
    else true

-- InviteCode.State.
unfoldable pub state : ℕ → InviteCode → String
state now i =
    if leb i.max_uses i.use_count
    then "used_up"
    else if has_expired now i.expires_at
    then "expired"
    else "available"
