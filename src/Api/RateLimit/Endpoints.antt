-- ===== src/Api/RateLimit/Endpoints.antt =====
-- The rate-limiting middlewares of internal/api/ratelimit.go, over the one global limiter.
use Prim.Native.Char.{code}
use shuosc_network_server_ba.Common.{
  ℕ, ◌*◌, ◌^◌, ◌≤◌, String, ◌≡◌, ◌≢◌, refl, ap, inl, inr, ◌&&◌, Bool-cases, Bool, true, false,
  Option, none, some, List, [], ◌∷◌, ◌++◌, arith, count, if◌then◌else◌, str_eq, eq_iff,
}
use shuosc_network_server_ba.Common.Words.{concat}
use shuosc_network_server_ba.Api.RateLimit.{Limiter, allow, new_rate_limiter}
use shuosc_network_server_ba.Api.RateLimit.Window.{in_window, Ordered}
use shuosc_network_server_ba.Api.RateLimit.Isolation.{
  Call, Uniform, and_false, times, passed_under, passed_under-le-limit,
}

abbrev pub second : ℕ
second = 10 ^ 9

abbrev pub minute : ℕ
minute = 60 * second

abbrev pub hour : ℕ
hour = 60 * minute

-- What a middleware does with a request: c.Next(), or a 429 with the code RATE_LIMITED.
pub data Verdict : Type 0 where
  next : Verdict
  rate_limited : Verdict

abbrev pub verdict : Bool → Verdict
verdict true = next
verdict false = rate_limited

abbrev pub login_key : String → String
login_key student_id = concat "login:" student_id

abbrev pub register_key : String → String
register_key ip = concat "register:" ip

abbrev pub peer_key : String → String
peer_key user_id = concat "peer:" user_id

limited : ℕ → String → ℕ → ℕ → Limiter → Verdict × Limiter
limited now key limit window rl = let (ok, rl') = allow now key limit window rl in (verdict ok, rl')

-- LoginRateLimit; the argument is the student_id of the body, if the body is readable JSON.
pub login_rate_limit : ℕ → Option String → Limiter → Verdict × Limiter
unfolding limited
login_rate_limit now none rl = (next, rl)
login_rate_limit now (some student_id) rl =
    if str_eq student_id "" then (next, rl) else limited now (login_key student_id) 5 minute rl

-- RegisterRateLimit.
pub register_rate_limit : ℕ → String → Limiter → Verdict × Limiter
unfolding limited
register_rate_limit now ip rl = limited now (register_key ip) 10 hour rl

-- PeerRateLimit.
pub peer_rate_limit : ℕ → String → Limiter → Verdict × Limiter
unfolding limited
peer_rate_limit now user_id rl =
    if str_eq user_id "" then (next, rl) else limited now (peer_key user_id) 30 minute rl

-- A request as the middlewares see it, at its time.
pub data Request : Type 0 where
  login : ℕ → Option String → Request
  register : ℕ → String → Request
  peer : ℕ → String → Request

pub handle : Request → Limiter → Verdict × Limiter
unfolding login_rate_limit register_rate_limit peer_rate_limit
handle (login now student_id) rl = login_rate_limit now student_id rl
handle (register now ip) rl = register_rate_limit now ip rl
handle (peer now user_id) rl = peer_rate_limit now user_id rl

note : String → ℕ → Option String → Verdict → List ℕ → List ℕ
note s now (some id) next history = if str_eq id s then now ∷ history else history
note s now none next history = history
note s now _ rate_limited history = history

-- The login attempts of a student that reached the handler, the last one first.
pub logins_through : String → List ℕ → List Request → Limiter → List ℕ
unfolding note
logins_through s history [] rl = history
logins_through s history (login now id ∷ rs) rl =
    let (v, rl') = handle (login now id) rl in logins_through s (note s now id v history) rs rl'
logins_through s history (r ∷ rs) rl = logins_through s history rs (handle r rl).1

-- The calls of the limiter that the requests make.
abbrev pub call_of : Request → List Call
call_of (login now none) = []
call_of (login now (some id)) =
    if str_eq id ""
    then []
    else record { at = now; key = login_key id; limit = 5; window = minute } ∷ []
call_of (register now ip) =
    record { at = now; key = register_key ip; limit = 10; window = hour } ∷ []
call_of (peer now id) =
    if str_eq id ""
    then []
    else record { at = now; key = peer_key id; limit = 30; window = minute } ∷ []

abbrev pub calls : List Request → List Call
calls [] = []
calls (r ∷ rs) = call_of r ++ calls rs

login_key-injective : (a b : String) → login_key a ≡ login_key b → a ≡ b
login_key-injective a b e = cc

-- The first character tells the endpoints apart.
abbrev head_code : String → ℕ
head_code String.[] = 0
head_code (String.◌∷◌ c s) = code c

login-ne-register : (a b : String) → register_key a ≢ login_key b
login-ne-register a b e = omega (arith, ap head_code e)

login-ne-peer : (a b : String) → peer_key a ≢ login_key b
login-ne-peer a b e = omega (arith, ap head_code e)

same_login : (a b : String) → str_eq (login_key a) (login_key b) ≡ str_eq a b
same_login a b =
    ground (arith, eq_iff (login_key a) (login_key b), eq_iff a b, login_key-injective a b)

login_config : (s : String) (rs : List Request) → Uniform (login_key s) 5 minute (calls rs)
login_config s [] = tt
login_config s (login now none ∷ rs) = login_config s rs
login_config s (login now (some id) ∷ rs) = elim (Bool-cases (str_eq id "")) [
  | inl empty ↦ rw empty (login_config s rs)
  | inr full ↦ rw full ((λ e. (refl, refl)), login_config s rs)
]
login_config s (register now ip ∷ rs) = (λ e. absurd (login-ne-register ip s e), login_config s rs)
login_config s (peer now id ∷ rs) = elim (Bool-cases (str_eq id "")) [
  | inl empty ↦ rw empty (login_config s rs)
  | inr full ↦ rw full ((λ e. absurd (login-ne-peer id s e)), login_config s rs)
]

note-verdict :
    (s id : String) (now : ℕ) (ok : Bool) (history : List ℕ)
    → note s now (some id) (verdict ok) history
      ≡ (if ok && str_eq (login_key id) (login_key s) then now ∷ history else history)
unfolding note
note-verdict s id now true history = rw (same_login id s)
note-verdict s id now false history = refl

note-empty :
    (s id : String) (now : ℕ) (history : List ℕ)
    → s ≢ ""
    → str_eq id "" ≡ true
    → note s now (some id) next history ≡ history
unfolding note
note-empty s id now history named e = ground (arith, eq_iff id s, eq_iff id "")

module _ (s : String) (named : s ≢ "") where
  abbrev Follows : List ℕ → List Request → Limiter → Type 0
  Follows history rs rl =
      logins_through s history rs rl ≡ passed_under (login_key s) history (calls rs) rl

  step_none :
      (now : ℕ) (history : List ℕ) (rs : List Request) (rl : Limiter)
      → Follows history rs rl
      → Follows history (login now none ∷ rs) rl
  unfolding logins_through handle
  step_none now history rs rl rest = rest

  step_login :
      (now : ℕ) (id : String) (history : List ℕ) (rs : List Request) (rl : Limiter)
      → ((h : List ℕ) (l : Limiter) → Follows h rs l)
      → Follows history (login now (some id) ∷ rs) rl
  unfolding logins_through handle passed_under
  step_login now id history rs rl rest = elim (Bool-cases (str_eq id "")) [
    | inl empty ↦ rw (empty, note-empty s id now history named empty) (rest history rl)
    | inr full ↦ rw (full, note-verdict s id now _ history) (rest _ _)
  ]

  step_register :
      (now : ℕ) (ip : String) (history : List ℕ) (rs : List Request) (rl : Limiter)
      → ((l : Limiter) → Follows history rs l)
      → Follows history (register now ip ∷ rs) rl
  unfolding logins_through handle passed_under
  step_register now ip history rs rl rest =
      let differ : str_eq (register_key ip) (login_key s) ≡ false =
        ground (arith, eq_iff (register_key ip) (login_key s), login-ne-register ip s) in
      rw (differ, and_false) (rest _)

  step_peer :
      (now : ℕ) (id : String) (history : List ℕ) (rs : List Request) (rl : Limiter)
      → ((l : Limiter) → Follows history rs l)
      → Follows history (peer now id ∷ rs) rl
  unfolding logins_through handle passed_under
  step_peer now id history rs rl rest =
      let differ : str_eq (peer_key id) (login_key s) ≡ false =
        ground (arith, eq_iff (peer_key id) (login_key s), login-ne-peer id s) in
      elim (Bool-cases (str_eq id "")) [
        | inl empty ↦ rw empty (rest rl)
        | inr full ↦ rw (full, differ, and_false) (rest _)
      ]

  logins-passed : (history : List ℕ) (rs : List Request) (rl : Limiter) → Follows history rs rl
  logins-passed history [] rl = unfold logins_through passed_under in refl
  logins-passed history (login now none ∷ rs) rl =
      step_none now history rs rl (logins-passed history rs rl)
  logins-passed history (login now (some id) ∷ rs) rl =
      step_login now id history rs rl (λ h l. logins-passed h rs l)
  logins-passed history (register now ip ∷ rs) rl =
      step_register now ip history rs rl (λ l. logins-passed history rs l)
  logins-passed history (peer now id ∷ rs) rl =
      step_peer now id history rs rl (λ l. logins-passed history rs l)

-- On a new limiter and over any run of requests to all endpoints, if the clock does not go back: of the
-- login attempts whose body LoginRateLimit decodes to a student id that is not empty, at most five for
-- this id reach the login handler in any minute; but an attempt whose body it does not decode reaches
-- the handler and is not counted.
pub login_rate_limit-le-five :
    (s : String) (rs : List Request) (a now : ℕ) (rl : Limiter)
    → s ≢ ""
    → Ordered 0 (times (login_key s) (calls rs))
    → (count (in_window a minute) (logins_through s [] rs new_rate_limiter) ≤ 5)
      × (login_rate_limit now none rl ≡ (next, rl))
unfolding login_rate_limit
login_rate_limit-le-five s rs a now rl named ordered = (
  rw (logins-passed s named [] rs new_rate_limiter)
      (passed_under-le-limit (login_key s) 5 minute (calls rs) a (login_config s rs) ordered),
  refl,
)
