-- ===== src/Auth/Password.antt =====
-- The password policy of internal/auth/password.go, which counts bytes.
use shuosc_network_server_ba.Common.{◌≤◌, String, ◌≡◌, ◌↔◌, true, none, arith}
use shuosc_network_server_ba.Common.Words.{
  trim_space, byte_length, rune_count, any_rune, byte_length-le,
}
use shuosc_network_server_ba.Auth.{Crypto, validate_password, password_error}

module _ (crypto : Crypto) (password : String) where
  -- ValidatePassword accepts a password exactly when its trimmed form has 10 to 128 bytes, a letter
  -- and a digit.
  pub validate_password-none :
      (validate_password crypto password ≡ none)
      ↔ (10 ≤ byte_length (trim_space password))
        × (byte_length (trim_space password) ≤ 128)
        × (any_rune crypto.is_letter (trim_space password) ≡ true)
        × (any_rune crypto.is_digit (trim_space password) ≡ true)
  unfolding validate_password password_error
  validate_password-none = ground arith

  -- The bound of ten counts bytes: an accepted password has at least three characters, of up to four
  -- bytes each.
  pub validate_password-runes :
      validate_password crypto password ≡ none → 3 ≤ rune_count (trim_space password)
  validate_password-runes h =
      omega (arith, (validate_password-none.0 h).0, byte_length-le (trim_space password))
