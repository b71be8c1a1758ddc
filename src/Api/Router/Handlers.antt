-- ===== src/Api/Router/Handlers.antt =====
-- What a request keeps of the world, by what the handler of its route keeps.
use shuosc_network_server_ba.Common.{
  ℕ, String, Bool, true, false, Option, none, some, if◌then◌else◌,
}
use shuosc_network_server_ba.Common.Words.{is_empty}
use shuosc_network_server_ba.World.{World, Error, Result, ok, err, Action}
use shuosc_network_server_ba.World.Rules.{Keeps, Same}
use shuosc_network_server_ba.Api.RateLimit.{Limiter}
use shuosc_network_server_ba.Api.RateLimit.Endpoints.{Verdict, next, rate_limited, peer_rate_limit}
use shuosc_network_server_ba.Api.Answers.{
  Answer, Body, Handler, respond, reject, with_body, with_text, with_user_id, with_key,
}
use shuosc_network_server_ba.Api.Guard.{
  Context, proceed, auth_middleware, require_admin, require_active_user,
}
use shuosc_network_server_ba.Api.Accounts.{handle_register, handle_login}
use shuosc_network_server_ba.Api.Router.{
  Settings, OpenRoute, get_health, get_version, post_register, post_login, Route, open_route,
  me_route, peer_route, admin_route, Request, Server, on_world, admitted, limited_by, limited_peer,
  handle_health, handle_version, serve, serve_open, serve_me, serve_peer, serve_admin,
}
use shuosc_network_server_ba.Api.Router.Standing.{authenticate-Same}

-- A handler keeps a condition on the world, whatever it answers.
pub record Holds (P : World → Type 0) (h : Handler) : Type 0 where
  pub at : (w : World) → P w → P (h w).1

module _ {P : World → Type 0} where
  pub Holds-respond :
      {A : Type 0} (body : A → Body) (refusal : Error → Answer) (m : Action A)
      → Keeps P m
      → Holds P (respond body refusal m)
  unfolding respond
  Holds-respond body refusal m k = record { at = λ w h. k.at w h }

  pub Holds-reject : (a : Answer) → Holds P (reject a)
  unfolding reject
  Holds-reject a = record { at = λ w h. h }

  pub Holds-if : (b : Bool) (g h : Handler) → Holds P g → Holds P h → Holds P (if b then g else h)
  Holds-if true g h k l = k
  Holds-if false g h k l = l

  pub Holds-with_body :
      {A : Type 0} (body : Option A) (k : A → Handler)
      → ((a : A) → Holds P (k a))
      → Holds P (with_body body k)
  unfolding with_body
  Holds-with_body none k h = Holds-reject _
  Holds-with_body (some a) k h = h a

  pub Holds-with_text : (s : String) (k : Handler) → Holds P k → Holds P (with_text s k)
  unfolding with_text
  Holds-with_text s k h = Holds-if (is_empty s) _ k (Holds-reject _) h

  pub Holds-with_user_id : (s : String) (k : Handler) → Holds P k → Holds P (with_user_id s k)
  unfolding with_user_id
  Holds-with_user_id s k h = Holds-if (is_empty s) _ k (Holds-reject _) h

  pub Holds-with_key :
      (key : Option ℕ) (k : ℕ → Handler) → ((n : ℕ) → Holds P (k n)) → Holds P (with_key key k)
  unfolding with_key
  Holds-with_key none k h = Holds-reject _
  Holds-with_key (some n) k h = h n

  pub Holds-require_active_user :
      (k : Context → Handler) (x : Context) → Holds P (k x) → Holds P (require_active_user k x)
  unfolding require_active_user
  Holds-require_active_user k x h = Holds-if _ _ (k x) (Holds-reject _) h

  pub Holds-require_admin :
      (k : Context → Handler) (x : Context) → Holds P (k x) → Holds P (require_admin k x)
  unfolding require_admin
  Holds-require_admin k x h = Holds-if _ _ (k x) (Holds-reject _) h

pub ruleset holds_rules = (
  Holds-respond, Holds-reject, Holds-if, Holds-with_body, Holds-with_text, Holds-with_user_id,
  Holds-with_key, Holds-require_active_user,
)

module _ (P : World → Type 0) (c : Settings) where
  abbrev pub OpenHolds : OpenRoute → Type 0
  OpenHolds get_health = Holds P handle_health
  OpenHolds get_version = Holds P handle_version
  OpenHolds (post_register body) = Holds P (handle_register c.env c.crypto body)
  OpenHolds (post_login id body) = Holds P (handle_login c.env c.crypto c.token_hours body)

  -- The handler of a route keeps the condition.
  abbrev pub RouteHolds : Route → Type 0
  RouteHolds (open_route r) = OpenHolds r
  RouteHolds (me_route r) = (x : Context) → Holds P (serve_me c r x)
  RouteHolds (peer_route r) = (x : Context) → Holds P (serve_peer c r x)
  RouteHolds (admin_route r) = (x : Context) → Holds P (serve_admin c r x)

  admitted-Holds : (v : Verdict) (h : Handler) (w : World) → Holds P h → P w → P (admitted v h w).1
  unfolding admitted
  admitted-Holds next h w k p = k.at w p
  admitted-Holds rate_limited h w k p = p

  limited-Holds :
      (limit : ℕ → Limiter → Verdict × Limiter) (h : Handler) (s : Server)
      → Holds P h
      → P s.world
      → P (limited_by limit h s).1.world
  unfolding limited_by
  limited-Holds limit h s k p = admitted-Holds (limit s.world.now s.limiter).0 h s.world k p

  open-Holds :
      (ip : String) (r : OpenRoute) (s : Server)
      → OpenHolds r
      → P s.world
      → P (serve_open c ip r s).1.world
  unfolding serve_open on_world
  open-Holds ip get_health s h p = h.at s.world p
  open-Holds ip get_version s h p = h.at s.world p
  open-Holds ip (post_register body) s h p = limited-Holds _ _ s h p
  open-Holds ip (post_login id body) s h p = limited-Holds _ _ s h p

  proceed-Holds :
      (handler : Context → Handler) (r : Result Context) (w : World)
      → ((x : Context) → Holds P (handler x))
      → P w
      → P (proceed handler r w).1
  unfolding proceed
  proceed-Holds handler (ok x) w h p = (h x).at w p
  proceed-Holds handler (err e) w h p = p

  limited_peer-Holds :
      (handler : Context → Handler) (r : Result Context) (l : Limiter) (w : World)
      → ((x : Context) → Holds P (handler x))
      → P w
      → P (limited_peer c handler r l w).1.world
  unfolding limited_peer
  limited_peer-Holds handler (ok x) l w h p =
      admitted-Holds (peer_rate_limit w.now x.user_id l).0 (handler x) w (h x) p
  limited_peer-Holds handler (err e) l w h p = p

  module _ (closed : (v w : World) → P v → Same v w → P w) where
    auth-Holds :
        (header : String) (handler : Context → Handler) (w : World)
        → ((x : Context) → Holds P (handler x))
        → P w
        → P (auth_middleware c.env c.crypto header handler w).1
    unfolding auth_middleware
    auth-Holds header handler w h p =
        proceed-Holds handler _ _ h (closed w _ p (authenticate-Same c.env c.crypto header w))

    route-Holds :
        (r : Route) (header ip : String) (s : Server)
        → RouteHolds r
        → P s.world
        → P (serve c (record { authorization = header; client_ip = ip; route = r }) s).1.world
    unfolding serve on_world
    route-Holds (open_route r) header ip s h p = open-Holds ip r s h p
    route-Holds (me_route r) header ip s h p = auth-Holds header _ s.world h p
    route-Holds (peer_route r) header ip s h p =
        limited_peer-Holds (serve_peer c r) _ s.limiter _ h
          (closed s.world _ p (authenticate-Same c.env c.crypto header s.world))
    route-Holds (admin_route r) header ip s h p =
        auth-Holds header _ s.world (λ x. Holds-require_admin (serve_admin c r) x (h x)) p

    pub serve-Holds :
        (req : Request) (s : Server) → RouteHolds req.route → P s.world → P (serve c req s).1.world
    serve-Holds req s h p = route-Holds req.route req.authorization req.client_ip s h p
