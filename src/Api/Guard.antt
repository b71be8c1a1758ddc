-- ===== src/Api/Guard.antt =====
-- The middlewares of internal/api/middleware.go.
pub mod Login
use Prim.Native.Char.{code}
use shuosc_network_server_ba.Common.{
  ℕ, String, Bool, true, false, ◌&&◌, ◌||◌, not, Option, none, some, ◌==◌, str_eq, if◌then◌else◌,
}
use shuosc_network_server_ba.Common.Words.{is_empty}
use shuosc_network_server_ba.Model.{User, is_active, is_admin}
use shuosc_network_server_ba.World.{
  World, Env, Error, bad_token, Result, ok, err, Action, pure, lift, ◌>>=◌, ◌>>◌, check, or_fail,
}
use shuosc_network_server_ba.Auth.{Crypto, Claims, validate_token}
use shuosc_network_server_ba.Store.Users.Find.{find_user_by_id}
use shuosc_network_server_ba.Api.Answers.{Answer, failure, Handler, reject}

-- What AuthMiddleware sets for the handlers behind it.
pub record Context : Type 0 where
  pub user_id : String
  pub current_user : User

-- `strings.SplitN(s, " ", 2)` where it has two parts: those before and behind the first space.
unfoldable pub before_space : String → Option String
before_space String.[] = none
before_space (String.◌∷◌ c s) =
    let rest = before_space s in
    if code c == 32 then some "" else elim rest [ none ↦ none | some t ↦ some (String.◌∷◌ c t) ]

unfoldable pub behind_space : String → String
behind_space String.[] = ""
behind_space (String.◌∷◌ c s) = let rest = behind_space s in if code c == 32 then s else rest

-- The token of a header `Bearer <token>`.
unfoldable pub bearer_token : Crypto → String → Option String
bearer_token crypto header = elim (before_space header) [
  | none ↦ none
  | some scheme ↦
      if str_eq (crypto.to_lower scheme) "bearer" then some (behind_space header) else none
]

-- AuthMiddleware up to c.Next(); every error is answered alike.
unfoldable pub authenticate : Env → Crypto → String → Action Context
authenticate env crypto header = do
  check (is_empty header) bad_token
  token ← lift (or_fail (bearer_token crypto header) bad_token)
  claims ← validate_token crypto token
  id ← lift (or_fail (env.parse_uuid claims.subject) bad_token)
  found ← find_user_by_id id
  user ← lift (or_fail found bad_token)
  pure (record { user_id = claims.subject; current_user = user })

-- c.Next() with the context, or 401.
unfoldable pub proceed : (Context → Handler) → Result Context → Handler
proceed next (ok c) w = next c w
proceed next (err e) w = (failure 401 "AUTH_FAILED", w)

-- AuthMiddleware.
unfoldable pub auth_middleware : Env → Crypto → String → (Context → Handler) → Handler
unfolding proceed
auth_middleware env crypto header next w =
    let (r, w') = authenticate env crypto header w in proceed next r w'

-- RequireAdmin, behind AuthMiddleware.
unfoldable pub require_admin : (Context → Handler) → Context → Handler
require_admin next c =
    if not (is_admin c.current_user) || not (is_active c.current_user)
    then reject (failure 403 "FORBIDDEN")
    else next c

-- RequireActiveUser, behind AuthMiddleware.
unfoldable pub require_active_user : (Context → Handler) → Context → Handler
require_active_user next c =
    if not (is_active c.current_user) then reject (failure 403 "FORBIDDEN") else next c
