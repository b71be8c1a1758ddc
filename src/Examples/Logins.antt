-- ===== src/Examples/Logins.antt =====
-- A login and a request with its token, at concrete values: ids are written in unary, and one kind of
-- claims is signed.
use shuosc_network_server_ba.Common.{
  ◌%◌, ℕ, zero, suc, ◌+◌, ◌*◌, ◌<◌, String, ◌≡◌, refl, ap, Bool, true, false, ◌&&◌, none, some,
  ◌==◌, str_eq, eq_iff, ==_iff, arith, if◌then◌else◌,
}
use shuosc_network_server_ba.Common.Words.{concat, rune_count}
use shuosc_network_server_ba.World.{Env, ok, ◌>>=◌, lift, query, call, gets, pure, next_fault}
use shuosc_network_server_ba.Store.Users.Find.{find_by_student_id}
use shuosc_network_server_ba.Auth.{second, Crypto, Claims, valid, malformed, login, hour, map_error}
use shuosc_network_server_ba.Api.Guard.{authenticate}
use shuosc_network_server_ba.Api.Guard.Login.{login-authenticate}
use shuosc_network_server_ba.Examples.Worlds.{
  example_env, example_crypto, example_user, example_world,
}

abbrev unary : ℕ → String
unary zero = ""
unary (suc n) = concat "a" (unary n)

unary-count : (n : ℕ) → rune_count (unary n) ≡ n
unfolding rune_count
unary-count zero = refl
unary-count (suc n) = ap suc (unary-count n)

unary-read : (n : ℕ) → some (rune_count (unary n)) ≡ some n
unary-read n = ap some (unary-count n)

abbrev unary_env : Env
unary_env = record example_env { uuid_text = unary; parse_uuid = λ s. some (rune_count s) }

abbrev signed_claims : Claims
signed_claims = record {
  subject = "a";
  issued_at = 0;
  expires_at = 1 * hour;
  student_id = "20250001";
  role = "admin";
}

abbrev is_signed : Claims → Bool
is_signed c =
    str_eq c.subject "a"
    && (c.issued_at == 0)
    && (c.expires_at == 1 * hour)
    && str_eq c.student_id "20250001"
    && str_eq c.role "admin"

abbrev one_token : Crypto
one_token = record example_crypto {
  to_lower = λ s. if str_eq s "Bearer" then "bearer" else s;
  sign = λ c. if is_signed c then some "token" else none;
  parse = λ now t. if str_eq t "token" then valid signed_claims else malformed;
}

same_claims :
    (subject : String) (issued expires : ℕ) (student role : String)
    → subject ≡ "a"
    → issued ≡ 0
    → expires ≡ 1 * hour
    → student ≡ "20250001"
    → role ≡ "admin"
    → valid signed_claims
      ≡ valid (record {
        subject = subject;
        issued_at = issued;
        expires_at = expires;
        student_id = student;
        role = role;
      })
same_claims subject issued expires student role a b c d e = rw (a, b, c, d, e) refl

all_five :
    (a b c d e : Bool)
    → (a && b && c && d && e) ≡ true
    → (a ≡ true) × (b ≡ true) × (c ≡ true) × (d ≡ true) × (e ≡ true)
all_five a b c d e h = ground arith

signed_only :
    (b : Bool) (t : String)
    → (if b then some "token" else none) ≡ some t
    → (b ≡ true) × (t ≡ "token")
signed_only true t e = (refl, token e)
  where
    token : some "token" ≡ some t → t ≡ "token"
    token e = cc
signed_only false t e = ground arith

one_token-reads :
    (c : Claims) (t : String) (time : ℕ)
    → one_token.sign c ≡ some t
    → (c.issued_at % second ≡ 0) × (c.expires_at % second ≡ 0)
    → time < c.expires_at
    → one_token.parse time t ≡ valid c
one_token-reads c t time e whole early =
    let (claims, token) = signed_only (is_signed c) t e in
    let (a, b, d, f, g) =
      all_five (str_eq c.subject "a") (c.issued_at == 0) (c.expires_at == 1 * hour)
        (str_eq c.student_id "20250001") (str_eq c.role "admin") claims in
    rw token (
      same_claims c.subject c.issued_at c.expires_at c.student_id c.role
        ((eq_iff c.subject "a").0 a) ((==_iff c.issued_at 0).0 b)
        ((==_iff c.expires_at (1 * hour)).0 d) ((eq_iff c.student_id "20250001").0 f)
        ((eq_iff c.role "admin").0 g))

logs_in :
    (login unary_env one_token 1 "20250001" "secret" example_world).0 ≡ ok ("token", 100 + 1 * hour)
unfolding login find_by_student_id map_error ◌>>=◌ lift query call gets pure next_fault
logs_in = refl

login-authenticate_example :
    authenticate unary_env one_token (concat "Bearer " "token") (record example_world { now = 200 })
    ≡ (
      ok (record { user_id = unary 1; current_user = example_user }),
      record example_world { now = 200 },
    )
login-authenticate_example =
    login-authenticate unary_env one_token 1 "20250001" "secret" "token" (100 + 1 * hour)
      example_world (record example_world { now = 200 }) example_user example_user one_token-reads
      unary-read refl refl logs_in (omega arith) refl refl
