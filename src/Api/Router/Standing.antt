-- ===== src/Api/Router/Standing.antt =====
-- Who may call a route: what has held of the caller where a request got past the middlewares.
use shuosc_network_server_ba.Common.{String, ◌≡◌, refl, ◌⊎◌, inl, inr, true, Bool-cases}
use shuosc_network_server_ba.Model.{is_active, is_admin}
use shuosc_network_server_ba.World.{World, Env, Result, ok, err}
use shuosc_network_server_ba.World.Rules.{Same, Same-refl}
use shuosc_network_server_ba.World.Triples.{After}
use shuosc_network_server_ba.Auth.{Crypto}
use shuosc_network_server_ba.Api.RateLimit.{Limiter}
use shuosc_network_server_ba.Api.RateLimit.Endpoints.{Verdict, next, rate_limited, peer_rate_limit}
use shuosc_network_server_ba.Api.Answers.{Answer, failure, Handler, reject}
use shuosc_network_server_ba.Api.Guard.{
  Context, authenticate, proceed, auth_middleware, require_admin, require_active_user,
}
use shuosc_network_server_ba.Api.Router.{
  Settings, MeRoute, PeerRoute, Route, Request, Server, on_world, admitted, limited_peer, serve,
  serve_me, serve_peer, serve_admin, open_route, me_route, peer_route, admin_route, read_me,
  get_my_peers, put_me, put_password, post_peer, get_config, delete_peer, put_key,
}
use shuosc_network_server_ba.Api.Router.Callers.{IsCaller, authenticate-IsCaller}

-- What a route asks of its caller.
pub data Level : Type 0 where
  anyone account active_account administrator : Level

abbrev pub me_level : MeRoute → Level
me_level read_me = account
me_level (get_my_peers page page_size status) = account
me_level (put_me body) = active_account
me_level (put_password body) = active_account

abbrev pub peer_level : PeerRoute → Level
peer_level (get_config public_key) = account
peer_level (post_peer body) = active_account
peer_level (delete_peer public_key) = active_account
peer_level (put_key public_key body) = active_account

abbrev pub level : Route → Level
level (open_route r) = anyone
level (me_route r) = me_level r
level (peer_route r) = peer_level r
level (admin_route r) = administrator

module _ (env : Env) (crypto : Crypto) (header : String) (w : World) where
  -- The caller is what a level asks for.
  abbrev pub Stands : Level → Type 0
  Stands anyone = Unit
  Stands account = (x : Context) × IsCaller env crypto header w x
  Stands active_account =
      (x : Context) × IsCaller env crypto header w x × (is_active x.current_user ≡ true)
  Stands administrator =
      (x : Context) × IsCaller env crypto header w x
      × (is_active x.current_user ≡ true)
      × (is_admin x.current_user ≡ true)

-- Unauthorized, forbidden, or too many requests.
abbrev pub Refused : Answer → Type 0
Refused a =
    (a ≡ failure 401 "AUTH_FAILED")
    ⊎ (a ≡ failure 403 "FORBIDDEN")
    ⊎ (a ≡ failure 429 "RATE_LIMITED")

abbrev pub Outcome : Type 0 → World → Answer → World → Type 0
Outcome Q w a w' = Q ⊎ (Refused a × Same w w')

module _ (env : Env) (crypto : Crypto) (header : String) (w : World) (Q : Type 0) where
  abbrev Passes : (Context → Handler) → Type 0
  Passes handler =
      (x : Context) (v : World)
      → IsCaller env crypto header w x
      → Same w v
      → Outcome Q w (handler x v).0 (handler x v).1

  proceed-Outcome :
      (handler : Context → Handler) (r : Result Context) (v : World)
      → Passes handler
      → After (λ x v. IsCaller env crypto header w x × Same w v) (Same w) r v
      → Outcome Q w (proceed handler r v).0 (proceed handler r v).1
  unfolding proceed
  proceed-Outcome handler (ok x) v k h = k x v h.0 h.1
  proceed-Outcome handler (err e) v k h = inr (inl refl, h)

  auth_middleware-Outcome :
      (handler : Context → Handler)
      → Passes handler
      → Outcome Q w
          (auth_middleware env crypto header handler w).0
          (auth_middleware env crypto header handler w).1
  unfolding auth_middleware
  auth_middleware-Outcome handler k =
      proceed-Outcome handler _ _ k ((authenticate-IsCaller env crypto header w).at w (Same-refl w))

  admitted-Outcome :
      (v : Verdict) (handler : Handler) (u : World)
      → Same w u
      → Outcome Q w (handler u).0 (handler u).1
      → Outcome Q w (admitted v handler u).0 (admitted v handler u).1
  unfolding admitted
  admitted-Outcome next handler u s h = h
  admitted-Outcome rate_limited handler u s h = inr (inr (inr refl), s)

  limited_peer-Outcome :
      (c : Settings) (handler : Context → Handler) (r : Result Context) (l : Limiter) (v : World)
      → Passes handler
      → After (λ x v. IsCaller env crypto header w x × Same w v) (Same w) r v
      → Outcome Q w (limited_peer c handler r l v).0 (limited_peer c handler r l v).1.world
  unfolding limited_peer
  limited_peer-Outcome c handler (ok x) l v k h =
      admitted-Outcome (peer_rate_limit v.now x.user_id l).0 (handler x) v h.1 (k x v h.0 h.1)
  limited_peer-Outcome c handler (err e) l v k h = inr (inl refl, h)

module _ (env : Env) (crypto : Crypto) (header : String) (w : World) where
  active-Passes :
      (handler : Context → Handler)
      → Passes env crypto header w
          (Stands env crypto header w active_account)
          (require_active_user handler)
  unfolding require_active_user reject
  active-Passes handler x v h s = elim (Bool-cases (is_active x.current_user)) [
    | inl on ↦ inl (x, h, on)
    | inr off ↦ rw off (inr (inr (inl refl), s))
  ]

  admin-Passes :
      (handler : Context → Handler)
      → Passes env crypto header w
          (Stands env crypto header w administrator)
          (require_admin handler)
  unfolding require_admin reject
  admin-Passes handler x v h s = elim (Bool-cases (is_active x.current_user)) [
    | inl on ↦ elim (Bool-cases (is_admin x.current_user)) [
      | inl admin ↦ inl (x, h, on, admin)
      | inr other ↦ rw other (inr (inr (inl refl), s))
    ]
    | inr off ↦ elim (Bool-cases (is_admin x.current_user)) [
      | inl admin ↦ rw (admin, off) (inr (inr (inl refl), s))
      | inr other ↦ rw other (inr (inr (inl refl), s))
    ]
  ]

  me-Passes :
      (c : Settings) (r : MeRoute)
      → Passes env crypto header w (Stands env crypto header w (me_level r)) (serve_me c r)
  unfolding serve_me
  me-Passes c read_me x v h s = inl (x, h)
  me-Passes c (get_my_peers page page_size status) x v h s = inl (x, h)
  me-Passes c (put_me body) x v h s = active-Passes _ x v h s
  me-Passes c (put_password body) x v h s = active-Passes _ x v h s

  peer-Passes :
      (c : Settings) (r : PeerRoute)
      → Passes env crypto header w (Stands env crypto header w (peer_level r)) (serve_peer c r)
  unfolding serve_peer
  peer-Passes c (get_config public_key) x v h s = inl (x, h)
  peer-Passes c (post_peer body) x v h s = active-Passes _ x v h s
  peer-Passes c (delete_peer public_key) x v h s = active-Passes _ x v h s
  peer-Passes c (put_key public_key body) x v h s = active-Passes _ x v h s

route-Outcome :
    (c : Settings) (r : Route) (header ip : String) (w : World) (l : Limiter)
    → Outcome
        (Stands c.env c.crypto header w (level r))
        w
        (serve c
          (record { authorization = header; client_ip = ip; route = r })
          (record { world = w; limiter = l })).0
        (serve c
          (record { authorization = header; client_ip = ip; route = r })
          (record { world = w; limiter = l })).1.world
unfolding serve on_world
route-Outcome c (open_route r) header ip w l = inl tt
route-Outcome c (me_route r) header ip w l =
    auth_middleware-Outcome c.env c.crypto header w _ (serve_me c r)
      (me-Passes c.env c.crypto header w c r)
route-Outcome c (peer_route r) header ip w l =
    limited_peer-Outcome c.env c.crypto header w _ c (serve_peer c r) _ l _
      (peer-Passes c.env c.crypto header w c r)
      ((authenticate-IsCaller c.env c.crypto header w).at w (Same-refl w))
route-Outcome c (admin_route r) header ip w l =
    auth_middleware-Outcome c.env c.crypto header w _ _
      (admin-Passes c.env c.crypto header w (serve_admin c r))

-- Either the caller of a route has a valid token of a user who is in the table, is active where the
-- route changes what is the user's, and is an active administrator where it is one of
-- administrators; or the request is refused with 401, 403 or 429, and changes neither the database
-- nor the device, the allocator or the key.
pub serve-standing :
    (c : Settings) (req : Request) (s : Server)
    → Stands c.env c.crypto req.authorization s.world (level req.route)
      ⊎ (Refused (serve c req s).0 × Same s.world (serve c req s).1.world)
serve-standing c req s = route-Outcome c req.route req.authorization req.client_ip s.world s.limiter

pub authenticate-Same :
    (env : Env) (crypto : Crypto) (header : String) (w : World)
    → Same w (authenticate env crypto header w).1
authenticate-Same env crypto header w =
    caller-Same _ _ ((authenticate-IsCaller env crypto header w).at w (Same-refl w))
  where
    caller-Same :
        (r : Result Context) (v : World)
        → After (λ x u. IsCaller env crypto header w x × Same w u) (Same w) r v
        → Same w v
    caller-Same (ok x) v h = h.1
    caller-Same (err e) v h = h
