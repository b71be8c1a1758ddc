-- ===== src/Api/Requests.antt =====
-- What the handlers of internal/api read: the JSON bodies, and the page parameters of the lists.
use shuosc_network_server_ba.Common.{
  ℕ, ◌-◌, ◌^◌, ◌≤◌, String, Option, none, some, ltb, if◌then◌else◌, arith,
}
use shuosc_network_server_ba.Common.Integers.{
  ℤ, pos, negsuc, at_least, magnitude, atoi, atoi-le, max_int,
}

pub record RegisterRequest : Type 0 where
  pub student_id : String
  pub password : String
  pub invite_code : String

pub record LoginRequest : Type 0 where
  pub student_id : String
  pub password : String

pub record ChangePasswordRequest : Type 0 where
  pub current_password : String
  pub new_password : String

pub record CreateInviteRequest : Type 0 where
  pub max_uses : ℤ
  pub expires_days : ℤ

pub record UpdateInviteRequest : Type 0 where
  pub max_uses : Option ℤ
  pub expires_days : Option ℤ

-- DefaultQuery.
abbrev pub default_query : Option String → String → String
default_query none default = default
default_query (some s) default = s

unfoldable pub page_param : Option String → ℕ
page_param param =
    let page = atoi (default_query param "1") in if at_least 1 page then magnitude page else 1

unfoldable pub page_size_param : Option String → ℕ
page_size_param param =
    let page_size = atoi (default_query param "20") in
    let size = if at_least 1 page_size then magnitude page_size else 20 in
    if ltb 100 size then 100 else size

clamped :
    (page : ℤ)
    → magnitude page ≤ max_int
    → (1 ≤ (if at_least 1 page then magnitude page else 1))
      × ((if at_least 1 page then magnitude page else 1) ≤ max_int)
clamped (pos n) h = ground (arith, h)
clamped (negsuc n) h = omega arith

clamped_size :
    (size : ℤ)
    → (1 ≤ (
        if ltb 100 (if at_least 1 size then magnitude size else 20)
        then 100
        else if at_least 1 size
        then magnitude size
        else 20))
      × ((if ltb 100 (if at_least 1 size then magnitude size else 20)
            then 100
            else if at_least 1 size
            then magnitude size
            else 20)
          ≤ 100)
clamped_size (pos n) = ground arith
clamped_size (negsuc n) = omega arith

-- However a request spells its page, the page is at least 1 and an int, and the page size is
-- between 1 and 100.
pub page_param-bounds :
    (page page_size : Option String)
    → (1 ≤ page_param page)
      × (page_param page ≤ 2 ^ 63 - 1)
      × (1 ≤ page_size_param page_size)
      × (page_size_param page_size ≤ 100)
unfolding page_param page_size_param
page_param-bounds page page_size =
    let (low, high) = clamped (atoi (default_query page "1")) (atoi-le _) in
    let (small, large) = clamped_size (atoi (default_query page_size "20")) in
    (low, high, small, large)
