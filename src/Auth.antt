-- ===== src/Auth.antt =====
-- internal/auth: the password policy, registration, login and tokens. bcrypt, the signing and reading
-- of JWTs, and the tables of the package unicode are a parameter.
pub mod Password
pub mod Register
use shuosc_network_server_ba.Common.{
  ℕ, ◌+◌, ◌*◌, ◌/◌, String, Bool, true, false, ◌&&◌, ◌||◌, not, Option, none, some, ◌==◌, str_eq,
  ltb, leb, if◌then◌else◌,
}
use shuosc_network_server_ba.Common.Words.{trim_space, byte_length, any_rune, is_empty}
use shuosc_network_server_ba.Model.{User, InviteCode, is_active, is_available}
use shuosc_network_server_ba.World.{
  World, Env, Error, password_too_short, password_too_long, password_missing_letter,
  password_missing_digit, student_id_taken, invalid_invite, invalid_credentials, token_expired,
  bad_token, account_inactive, hash_failure, sign_failure, store_student_id_taken,
  invite_unavailable, bootstrap_closed, Result, ok, err, Action, pure, fail, lift, gets, ◌>>=◌,
  ◌>>◌, check, or_fail,
}
use shuosc_network_server_ba.Store.Users.{NewUser, register_bootstrap_admin, register_with_invite}
use shuosc_network_server_ba.Store.Users.Find.{find_by_student_id, count_users}
use shuosc_network_server_ba.Store.Invites.{find_invite_by_code}

-- Claims; the times are those of the registered claims.
pub record Claims : Type 0 where
  pub subject : String
  pub issued_at : ℕ
  pub expires_at : ℕ
  pub student_id : String
  pub role : String

-- jwt.ParseWithClaims: a valid token, one past its expiry, or another error.
pub data Parsed : Type 0 where
  valid : Claims → Parsed
  expired malformed : Parsed

pub record Crypto : Type 0 where
  pub is_letter : ℕ → Bool
  pub is_digit : ℕ → Bool
  pub to_lower : String → String
  pub hash : String → Option String
  pub matches : String → String → Bool
  pub sign : Claims → Option String
  pub parse : ℕ → String → Parsed

-- The tests of ValidatePassword on the trimmed password, in their order: `none` is no error.
unfoldable pub password_error : Crypto → String → Option Error
password_error crypto p =
    if ltb (byte_length p) 10
    then some password_too_short
    else if ltb 128 (byte_length p)
    then some password_too_long
    else if not (any_rune crypto.is_letter p)
    then some password_missing_letter
    else if not (any_rune crypto.is_digit p)
    then some password_missing_digit
    else none

-- ValidatePassword.
unfoldable pub validate_password : Crypto → String → Option Error
unfolding password_error
validate_password crypto password = password_error crypto (trim_space password)

-- `if err != nil { return err }`
abbrev pub stop_on : Option Error → Action (Unit {0})
stop_on none = pure tt
stop_on (some e) = fail e

-- The errors of the stores that Register translates.
abbrev pub bootstrap_error : Error → Error
bootstrap_error store_student_id_taken = student_id_taken
bootstrap_error bootstrap_closed = invalid_invite
bootstrap_error e = e

abbrev pub invite_error : Error → Error
invite_error store_student_id_taken = student_id_taken
invite_error invite_unavailable = invalid_invite
invite_error e = e

abbrev pub mapped {ℓ} : {A : Type ℓ} → (Error → Error) → Result A → Result A
mapped f (ok a) = ok a
mapped f (err e) = err (f e)

unfoldable pub map_error : {A : Type 0} → (Error → Error) → Action A → Action A
map_error f m w = let (r, w') = m w in (mapped f r, w')

abbrev pub not_available : ℕ → Option InviteCode → Bool
not_available now none = true
not_available now (some i) = not (is_available now i)

abbrev pub is_some {ℓ} : {A : Type ℓ} → Option A → Bool
is_some none = false
is_some (some a) = true

abbrev pub new_user : String → String → String → NewUser
new_user student_id hash role = record {
  student_id = student_id;
  password = hash;
  role = role;
  invite_id = 0;
  max_peers = 5;
  status = "active";
}

-- Register from the test of the invite code on.
unfoldable pub register_invited : String → String → String → Action User
register_invited student_id hash invite_code = do
  check (is_empty invite_code) invalid_invite
  invite ← map_error (λ _. invalid_invite) (find_invite_by_code invite_code)
  now ← gets (λ w. w.now)
  check (not_available now invite) invalid_invite
  map_error invite_error (register_with_invite (new_user student_id hash "user") invite_code)

unfoldable pub register_first : String → String → Action User
register_first student_id hash =
    map_error bootstrap_error (register_bootstrap_admin (new_user student_id hash "admin"))

-- Register on the trimmed texts.
unfoldable pub register_trimmed : Crypto → String → String → String → Action User
register_trimmed crypto student_id password invite_code = do
  stop_on (validate_password crypto password)
  existing ← find_by_student_id student_id
  check (is_some existing) student_id_taken
  count ← count_users
  hash ← lift (or_fail (crypto.hash password) hash_failure)
  if count == 0
      then register_first student_id hash
      else register_invited student_id hash invite_code

-- Register.
unfoldable pub register : Crypto → String → String → String → Action User
register crypto student_id password invite_code =
    register_trimmed crypto (trim_space student_id) password (trim_space invite_code)

abbrev pub second : ℕ
second = 1000000000

abbrev pub hour : ℕ
hour = 3600 * 1000000000

-- jwt.NewNumericDate, which cuts a time to whole seconds.
abbrev pub numeric_date : ℕ → ℕ
numeric_date t = t / second * second

abbrev pub claims_of : Env → User → ℕ → ℕ → Claims
claims_of env user now hours = record {
  subject = env.uuid_text user.id;
  issued_at = numeric_date now;
  expires_at = numeric_date (now + hours * hour);
  student_id = user.student_id;
  role = user.role;
}

-- Login. An error of the store is answered like a wrong password.
unfoldable pub login : Env → Crypto → ℕ → String → String → Action (String × ℕ)
login env crypto hours student_id password = do
  found ← map_error (λ _. invalid_credentials) (find_by_student_id student_id)
  user ← lift (or_fail found invalid_credentials)
  check (not (str_eq user.status "active")) account_inactive
  check (not (crypto.matches user.password password)) invalid_credentials
  now ← gets (λ w. w.now)
  token ← lift (or_fail (crypto.sign (claims_of env user now hours)) sign_failure)
  pure (token, now + hours * hour)

unfoldable pub claims_in : Parsed → Result Claims
claims_in (valid c) = ok c
claims_in expired = err token_expired
claims_in malformed = err bad_token

-- ValidateToken.
unfoldable pub validate_token : Crypto → String → Action Claims
unfolding claims_in
validate_token crypto token w = (claims_in (crypto.parse w.now token), w)
