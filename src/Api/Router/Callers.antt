-- ===== src/Api/Router/Callers.antt =====
-- Whom AuthMiddleware of internal/api/middleware.go lets pass.
use shuosc_network_server_ba.Common.{
  ℕ, String, ◌≡◌, refl, sym, ap, ◌∙◌, Option, none, some, arith, first,
}
use shuosc_network_server_ba.World.{World, Env, Error, ok, Action, pure, or_fail, ◌>>=◌}
use shuosc_network_server_ba.World.Rules.{Same}
use shuosc_network_server_ba.World.Triples.{Triple, After, Triple-bind}
use shuosc_network_server_ba.World.Gates.{gate-check, gate-lift, gate-query}
use shuosc_network_server_ba.Store.Users.Find.{has_user_id, find_user_by_id}
use shuosc_network_server_ba.Auth.{
  Crypto, Claims, Parsed, valid, expired, malformed, validate_token, claims_in,
}
use shuosc_network_server_ba.Api.Guard.{Context, bearer_token, authenticate}

-- The token of the header is valid now, and the user is the one it names, as the table has it now.
pub record IsCaller (env : Env) (crypto : Crypto) (header : String) (w : World) (x : Context)
    : Type 0 where
  token : String
  pub claims : Claims
  pub id : ℕ
  pub bears : bearer_token crypto header ≡ some token
  pub is_valid : crypto.parse w.now token ≡ valid claims
  pub subject : x.user_id ≡ claims.subject
  pub named : env.parse_uuid claims.subject ≡ some id
  pub row : first (has_user_id id) w.db.users ≡ some x.current_user

or_fail-ok : {A : Type 0} (o : Option A) (e : Error) (a : A) → or_fail o e ≡ ok a → o ≡ some a
or_fail-ok none e a h = ground arith
or_fail-ok (some b) e a h = ground arith

module _ (crypto : Crypto) (u : World) where
  claims-After :
      (p q : Parsed) (w : World)
      → Same u w
      → p ≡ q
      → After (λ c v. (p ≡ valid c) × Same u v) (Same u) (claims_in q) w
  unfolding claims_in
  claims-After p (valid c) w s e = (e, s)
  claims-After p expired w s e = s
  claims-After p malformed w s e = s

  gate-validate_token :
      {B : Type 0} (token : String) (k : Claims → Action B) (post : B → World → Type 0)
      → ((c : Claims) → crypto.parse u.now token ≡ valid c → Triple (Same u) (k c) post (Same u))
      → Triple (Same u) (validate_token crypto token >>= k) post (Same u)
  unfolding validate_token
  gate-validate_token token k post h =
      Triple-bind (validate_token crypto token) k _
        (λ c v. (crypto.parse u.now token ≡ valid c) × Same u v) post (Same u)
        (record {
          at = λ w s.
              claims-After (crypto.parse u.now token) (crypto.parse w.now token) w s
                (ap (λ n. crypto.parse n token) (sym s.now));
        })
        λ c. record { at = λ w e. (h c e.0).at w e.1 }

module _ (env : Env) (crypto : Crypto) (header : String) (w : World) where
  -- AuthMiddleware changes nothing, and lets nobody pass but the user of a valid token.
  pub authenticate-IsCaller :
      Triple
        (Same w)
        (authenticate env crypto header)
        (λ x v. IsCaller env crypto header w x × Same w v)
        (Same w)
  unfolding authenticate find_user_by_id pure
  authenticate-IsCaller =
      gate-check w _ (λ v s. s) _ _ _ _
        λ there.
          gate-lift w _ (λ v s. s) _ _ _
            λ token bears. gate-validate_token crypto w token _ _ λ claims passed.
              gate-lift w _ (λ v s. s) _ _ _
                λ id named.
                  gate-query w _ (λ v s. s) _ _ _
                    λ found row.
                      gate-lift w _ (λ v s. s) _ _ _
                        λ user some_user. record {
                          at = λ v s. (
                            record {
                              token = token;
                              claims = claims;
                              id = id;
                              bears = or_fail-ok _ _ _ bears;
                              is_valid = passed;
                              subject = refl;
                              named = or_fail-ok _ _ _ named;
                              row = sym row ∙ or_fail-ok _ _ _ some_user;
                            },
                            s,
                          );
                        }
