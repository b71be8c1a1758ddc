-- ===== src/Api/Answers.antt =====
-- The answers of internal/api: the JSON bodies of the handlers, and the errors by their status and
-- code. The texts of the errors are left out.
use shuosc_network_server_ba.Common.{ℕ, String, Bool, Option, none, some, if◌then◌else◌}
use shuosc_network_server_ba.Common.Words.{is_empty}
use shuosc_network_server_ba.Model.{User, InviteCode}
use shuosc_network_server_ba.World.{World, Error, Result, ok, err, Action}
use shuosc_network_server_ba.Store.Lists.{ListResult, PeerWithStudent}
use shuosc_network_server_ba.Peer.Manager.{PeerRegistration}
use shuosc_network_server_ba.Account.{SelfProfile}
use shuosc_network_server_ba.Admin.{Summary}

-- wgStatusResponse.
pub record WgStatus : Type 0 where
  pub enabled : Bool
  pub public_key : String
  pub listen_port : ℕ
  pub peers_count : ℕ

-- A list with the page and the page size that were used.
pub record Listing (A : Type 0) : Type 0 where
  pub result : ListResult A
  pub page : ℕ
  pub page_size : ℕ

pub data Body : Type 0 where
  done : Body
  registered : String → Body
  logged_in : String → ℕ → Body
  own_profile : SelfProfile → Body
  own_account : Option User → Body
  admin_identity : String → String → String → String → Body
  overview : Summary → Body
  account : User → Body
  user_list : Listing User → Body
  peer_list : Listing PeerWithStudent → Body
  invite_list : Listing InviteCode → Body
  peer_config : PeerRegistration → Body
  invite : InviteCode → Body
  changed_invite : Option InviteCode → Body
  wg_status : WgStatus → Body
  rotated : String → Body
  toggled : Bool → Body
  health : Bool → Bool → ℕ → Body
  version : String → String → Body

-- 200 with a body, or an error.
pub data Answer : Type 0 where
  success : Body → Answer
  failure : ℕ → String → Answer

abbrev pub internal_error : Answer
internal_error = failure 500 "INTERNAL_ERROR"

abbrev pub bad_request : Answer
bad_request = failure 400 "INVALID_REQUEST"

abbrev pub Handler : Type 0
Handler = World → Answer × World

abbrev pub answered : {A : Type 0} → (A → Body) → (Error → Answer) → Result A → Answer
answered body refusal (ok a) = success (body a)
answered body refusal (err e) = refusal e

-- Calls a service, and answers with its result.
unfoldable pub respond : {A : Type 0} → (A → Body) → (Error → Answer) → Action A → Handler
respond body refusal m w = let (r, w') = m w in (answered body refusal r, w')

unfoldable pub reject : Answer → Handler
reject a w = (a, w)

-- ShouldBindJSON: `none` is a body that does not decode.
unfoldable pub with_body : {A : Type 0} → Option A → (A → Handler) → Handler
with_body none next = reject bad_request
with_body (some a) next = next a

-- A path parameter or a query parameter that must be there, and `binding:"required"`.
unfoldable pub with_text : String → Handler → Handler
with_text s next = if is_empty s then reject bad_request else next

-- `userID := c.GetString("user_id")`
unfoldable pub with_user_id : String → Handler → Handler
with_user_id user_id next = if is_empty user_id then reject (failure 401 "AUTH_FAILED") else next

-- wgtypes.ParseKey.
unfoldable pub with_key : Option ℕ → (ℕ → Handler) → Handler
with_key none next = reject (failure 400 "INVALID_KEY")
with_key (some key) next = next key
