-- ===== src/Api/Guard/Login.antt =====
-- From Login to AuthMiddleware.
use shuosc_network_server_ba.Common.{
  ℕ, ◌+◌, ◌*◌, ◌%◌, ◌<◌, String, ◌≡◌, refl, sym, subst, ap, ◌∙◌, Bool, true, false, Option, none,
  some, [], arith, first, str_eq, not,
}
use shuosc_network_server_ba.Common.Words.{concat}
use shuosc_network_server_ba.Model.{User}
use shuosc_network_server_ba.World.{
  World, Db, Env, Error, ok, Action, pure, lift, gets, ◌>>=◌, query, call, next_fault, or_fail,
}
use shuosc_network_server_ba.World.Rules.{Same, Same-refl}
use shuosc_network_server_ba.World.Triples.{Triple, Triple-bind, Triple-ok}
use shuosc_network_server_ba.World.Gates.{gate-lift, gate-check, last-query, Triple-given}
use shuosc_network_server_ba.Auth.Register.{Triple-map_error}
use shuosc_network_server_ba.Store.Users.Find.{
  has_user_id, has_student_id, find_by_student_id, find_user_by_id,
}
use shuosc_network_server_ba.Auth.{
  Crypto, Claims, valid, validate_token, claims_in, login, claims_of, hour, second, numeric_date,
}
use shuosc_network_server_ba.Api.Guard.{bearer_token, before_space, behind_space, authenticate}

bearer_token-concat :
    (crypto : Crypto) (token : String)
    → crypto.to_lower "Bearer" ≡ "bearer"
    → bearer_token crypto (concat "Bearer " token) ≡ some token
unfolding bearer_token before_space behind_space
bearer_token-concat crypto token lower = rw lower refl

query-calm : {A : Type 0} (f : Db → A) (w : World) → w.faults ≡ [] → query f w ≡ (ok (f w.db), w)
unfolding query call ◌>>=◌ gets next_fault
query-calm f w calm = rw calm refl

-- A token that parses to claims on a user lets that user through.
authenticate-valid :
    (env : Env) (crypto : Crypto) (token : String) (claims : Claims) (id : ℕ) (u : User) (w : World)
    → crypto.to_lower "Bearer" ≡ "bearer"
    → w.faults ≡ []
    → crypto.parse w.now token ≡ valid claims
    → env.parse_uuid claims.subject ≡ some id
    → first (has_user_id id) w.db.users ≡ some u
    → authenticate env crypto (concat "Bearer " token) w
      ≡ (ok (record { user_id = claims.subject; current_user = u }), w)
unfolding authenticate find_user_by_id validate_token claims_in lift pure ◌>>=◌
authenticate-valid env crypto token claims id u w lower calm parsed named row =
    rw
      (
        bearer_token-concat crypto token lower,
        parsed,
        named,
        query-calm (λ db. first (has_user_id id) db.users) w calm,
        row,
      )
      refl

or_fail-ok : {A : Type 0} (o : Option A) (e : Error) (a : A) → or_fail o e ≡ ok a → o ≡ some a
or_fail-ok none e a h = ground arith
or_fail-ok (some b) e a h = ground arith

-- What held when Login returned: the user of the student id was active, the password matched, and
-- the token is the signature of the claims on the user.
pub record LoggedIn (env : Env) (crypto : Crypto) (hours : ℕ) (student_id password : String)
    (u : World) (r : String × ℕ) : Type 0 where
  pub user : User
  pub row : first (has_student_id student_id) u.db.users ≡ some user
  pub active : str_eq user.status "active" ≡ true
  pub matched : crypto.matches user.password password ≡ true
  pub signed : crypto.sign (claims_of env user u.now hours) ≡ some r.0
  pub until : r.1 ≡ u.now + hours * hour

not-false : (b : Bool) → not b ≡ false → b ≡ true
not-false true e = refl
not-false false e = ground arith

module _ (u : World) (env : Env) (crypto : Crypto) (hours : ℕ) (student_id password : String) where
  gate-now :
      {B : Type 0} (k : ℕ → Action B) (post : B → World → Type 0)
      → ((n : ℕ) → n ≡ u.now → Triple (Same u) (k n) post (Same u))
      → Triple (Same u) (gets (λ w. w.now) >>= k) post (Same u)
  unfolding gets
  gate-now k post h =
      Triple-bind _ k _ (λ n v. (n ≡ u.now) × Same u v) post _ (record { at = λ w s. (s.now, s) })
        λ n. record { at = λ w e. (h n e.0).at w e.1 }

  login-Triple :
      Triple
        (Same u)
        (login env crypto hours student_id password)
        (λ r v. LoggedIn env crypto hours student_id password u r)
        (Same u)
  unfolding login find_by_student_id pure
  login-Triple =
      Triple-bind _ _ _ _ _ _ (Triple-map_error _ _ _ _ _ (last-query u _ (λ v s. s) _)) λ found.
        Triple-given _ _ _ _ _ λ row.
          gate-lift u _ (λ v s. s) _ _ _
            λ user some_user.
              gate-check u _ (λ v s. s) _ _ _ _
                λ active.
                  gate-check u _ (λ v s. s) _ _ _ _
                    λ matched. gate-now _ _ λ now clock.
                      gate-lift u _ (λ v s. s) _ _ _
                        λ token signed. record {
                          at = λ v s. record {
                            user = user;
                            row = sym row ∙ or_fail-ok _ _ _ some_user;
                            active = not-false _ active;
                            matched = not-false _ matched;
                            signed =
                                ap (λ n. crypto.sign (claims_of env user n hours)) (sym clock)
                                ∙ or_fail-ok _ _ _ signed;
                            until = ap (λ n. n + hours * hour) clock;
                          };
                        }

whole_seconds : (t : ℕ) → numeric_date t % second ≡ 0
whole_seconds t = ground arith

before_expiry : (n t t' : ℕ) → n < numeric_date t → t ≡ t' → n < numeric_date t'
before_expiry n t t' h e = subst (λ x. n < numeric_date x) e h

some_injective : {A : Type 0} {a b : A} → some a ≡ some b → a ≡ b
some_injective e = cc

-- A user who has logged in gets through AuthMiddleware with the token, and as the row that the table
-- then has under the id, up to the last whole second before the time that Login answers with: if a
-- signed token, whose times are whole seconds, parses to its claims until it expires, an id is read
-- back from its text, and no call fails.
pub login-authenticate :
    (env : Env) (crypto : Crypto) (hours : ℕ) (student_id password token : String) (until : ℕ)
    (u v : World) (user now : User)
    → ((c : Claims) (t : String) (time : ℕ)
        → crypto.sign c ≡ some t
        → (c.issued_at % second ≡ 0) × (c.expires_at % second ≡ 0)
        → time < c.expires_at
        → crypto.parse time t ≡ valid c)
    → ((id : ℕ) → env.parse_uuid (env.uuid_text id) ≡ some id)
    → crypto.to_lower "Bearer" ≡ "bearer"
    → first (has_student_id student_id) u.db.users ≡ some user
    → (login env crypto hours student_id password u).0 ≡ ok (token, until)
    → v.now < numeric_date until
    → v.faults ≡ []
    → first (has_user_id user.id) v.db.users ≡ some now
    → authenticate env crypto (concat "Bearer " token) v
      ≡ (ok (record { user_id = env.uuid_text user.id; current_user = now }), v)
login-authenticate env crypto hours student_id password token until u v user now reads ids lower
      known returned early calm there =
    let l =
      Triple-ok _ _ _ _ (login-Triple u env crypto hours student_id password) u (token, until)
        (Same-refl u) returned in
    let same : l.user ≡ user = some_injective (sym l.row ∙ known) in
    let signed =
      subst (λ x. crypto.sign (claims_of env x u.now hours) ≡ some token) same l.signed in
    authenticate-valid env crypto token (claims_of env user u.now hours) user.id now v lower calm
      (reads _ token v.now signed (whole_seconds u.now, whole_seconds (u.now + hours * hour))
        (before_expiry v.now until (u.now + hours * hour) early l.until))
      (ids user.id) there
