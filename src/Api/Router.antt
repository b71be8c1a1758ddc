-- ===== src/Api/Router.antt =====
-- The routes of SetupRouter in internal/api/router.go with the middlewares of each, and the handlers
-- of internal/api/health_handler.go. The decoding of a request into a route and its parameters, the
-- CORS headers and the static files are not modelled.
pub mod Within
pub mod Callers
pub mod Standing
pub mod Data
pub mod Handlers
pub mod Reads
pub mod Services
pub mod Leases
pub mod Uses
pub mod Reconciles
pub mod Restart
pub mod Runs
use shuosc_network_server_ba.Common.{ℕ, String, Bool, true, false, Option, none, some, List, []}
use shuosc_network_server_ba.World.{
  World, Env, Error, Result, ok, err, db_failure, Action, pure, ◌>>=◌, call,
}
use shuosc_network_server_ba.Store.Lists.{Sql}
use shuosc_network_server_ba.Auth.{Crypto}
use shuosc_network_server_ba.Account.{SelfUpdateFields}
use shuosc_network_server_ba.Admin.{AdminUserUpdateFields}
use shuosc_network_server_ba.Peer.Manager.Server.{wg_enabled, active_peer_count}
use shuosc_network_server_ba.Api.RateLimit.{Limiter}
use shuosc_network_server_ba.Api.RateLimit.Endpoints.{
  Verdict, next, rate_limited, login_rate_limit, register_rate_limit, peer_rate_limit,
}
use shuosc_network_server_ba.Api.Answers.{
  Answer, success, failure, internal_error, Handler, respond, reject, health, version,
}
use shuosc_network_server_ba.Api.Requests.{
  RegisterRequest, LoginRequest, ChangePasswordRequest, CreateInviteRequest, UpdateInviteRequest,
}
use shuosc_network_server_ba.Api.Guard.{
  Context, auth_middleware, authenticate, require_admin, require_active_user,
}
use shuosc_network_server_ba.Api.Accounts.{
  handle_register, handle_login, handle_get_me, handle_update_me, handle_change_password,
  handle_list_my_peers,
}
use shuosc_network_server_ba.Api.Peers.{
  handle_register_peer, handle_get_peer_config, handle_disconnect_peer, handle_replace_key,
}
use shuosc_network_server_ba.Api.Admins.{
  ListQuery, InviteDefaults, handle_admin_me, handle_summary, handle_list_users, handle_get_user,
  handle_update_user, handle_list_user_peers, handle_list_peers, handle_list_invites,
  handle_create_invite, handle_update_invite, handle_delete_invite, handle_wg_status,
  handle_rotate_key, handle_toggle,
}
use shuosc_network_server_ba.Api.AdminPeers.{admin_disconnect_peer, admin_revoke_peer}

-- The arguments of SetupRouter and of the services, with what they call.
pub record Settings : Type 0 where
  pub env : Env
  pub crypto : Crypto
  pub sql : Sql
  pub token_hours : ℕ
  pub listen_port : ℕ
  pub invites : InviteDefaults
  pub add_days : ℕ → ℕ → ℕ

-- The groups of routes, each route with what its handler reads of the request. The body of a login
-- is decoded twice, by the rate limit and by the handler.
pub data OpenRoute : Type 0 where
  get_health get_version : OpenRoute
  post_register : Option RegisterRequest → OpenRoute
  post_login : Option String → Option LoginRequest → OpenRoute

pub data MeRoute : Type 0 where
  read_me : MeRoute
  get_my_peers : Option String → Option String → Option String → MeRoute
  put_me : Option SelfUpdateFields → MeRoute
  put_password : Option ChangePasswordRequest → MeRoute

pub data PeerRoute : Type 0 where
  post_peer : Option String → PeerRoute
  get_config : String → PeerRoute
  delete_peer : String → PeerRoute
  put_key : String → Option String → PeerRoute

pub data AdminRoute : Type 0 where
  get_admin read_summary : AdminRoute
  get_users get_peers get_invites : ListQuery → AdminRoute
  read_user : String → AdminRoute
  get_user_peers : String → ListQuery → AdminRoute
  put_user : String → Option AdminUserUpdateFields → AdminRoute
  post_disconnect post_revoke : String → AdminRoute
  post_invite : Option String → Option CreateInviteRequest → AdminRoute
  put_invite : String → Option UpdateInviteRequest → AdminRoute
  remove_invite : String → AdminRoute
  get_wg : AdminRoute
  post_rotate : Option String → AdminRoute
  post_toggle : Option Bool → AdminRoute

pub data Route : Type 0 where
  open_route : OpenRoute → Route
  me_route : MeRoute → Route
  peer_route : PeerRoute → Route
  admin_route : AdminRoute → Route

pub record Request : Type 0 where
  pub authorization : String
  pub client_ip : String
  pub route : Route

-- The world of the services and the global rate limiter.
pub record Server : Type 0 where
  pub world : World
  pub limiter : Limiter

unfoldable pub on_world : Handler → Server → Answer × Server
on_world handler s = let (a, w) = handler s.world in (a, record s { world = w })

-- A rate limit in front of a handler.
unfoldable pub admitted : Verdict → Handler → World → Answer × World
admitted next handler w = handler w
admitted rate_limited handler w = (failure 429 "RATE_LIMITED", w)

unfoldable pub limited_by : (ℕ → Limiter → Verdict × Limiter) → Handler → Server → Answer × Server
unfolding admitted
limited_by limit handler s =
    let (v, l) = limit s.world.now s.limiter in
    let (a, w) = admitted v handler s.world in (a, record { world = w; limiter = l })

unfoldable pub pinged : Result (Unit {0}) → Bool
pinged (ok t) = true
pinged (err e) = false

-- dbPool.Ping.
unfoldable pub ping : Action Bool
unfolding pinged
ping w = let (r, w') = call db_failure w in (ok (pinged r), w')

abbrev pub count_if : Bool → Action ℕ
count_if true = active_peer_count
count_if false = pure 0

-- Health: the database, and the peers where the interface is enabled.
unfoldable pub handle_health : Handler
handle_health =
    respond (λ (h : Bool × Bool × ℕ). health h.0 h.1 h.2) (λ e. internal_error)
      (do db ← ping; enabled ← wg_enabled; peers ← count_if enabled; pure (db, enabled, peers))

-- Version.
unfoldable pub handle_version : Handler
handle_version = reject (success (version "0.1.0-dev" "dev"))

module _ (c : Settings) where
  unfoldable pub serve_open : String → OpenRoute → Server → Answer × Server
  serve_open client_ip get_health = on_world handle_health
  serve_open client_ip get_version = on_world handle_version
  serve_open client_ip (post_register body) =
      limited_by (λ now. register_rate_limit now client_ip) (handle_register c.env c.crypto body)
  serve_open client_ip (post_login student_id body) =
      limited_by (λ now. login_rate_limit now student_id)
        (handle_login c.env c.crypto c.token_hours body)

  -- The group /me behind AuthMiddleware.
  unfoldable pub serve_me : MeRoute → Context → Handler
  serve_me read_me x = handle_get_me c.env x.user_id
  serve_me (get_my_peers page page_size status) x =
      handle_list_my_peers c.env c.sql x.user_id page page_size status
  serve_me (put_me body) x =
      require_active_user (λ x. handle_update_me c.env c.crypto x.user_id body) x
  serve_me (put_password body) x =
      require_active_user (λ x. handle_change_password c.env c.crypto x.user_id body) x

  -- The group /peer behind AuthMiddleware and PeerRateLimit.
  unfoldable pub serve_peer : PeerRoute → Context → Handler
  serve_peer (post_peer body) x =
      require_active_user (λ x. handle_register_peer c.env x.user_id body) x
  serve_peer (get_config public_key) x = handle_get_peer_config c.env x.user_id public_key
  serve_peer (delete_peer public_key) x =
      require_active_user (λ x. handle_disconnect_peer c.env x.user_id public_key) x
  serve_peer (put_key public_key body) x =
      require_active_user (λ x. handle_replace_key c.env x.user_id public_key body) x

  -- The group /admin behind AuthMiddleware and RequireAdmin.
  unfoldable pub serve_admin : AdminRoute → Context → Handler
  serve_admin get_admin x = handle_admin_me c.env x.user_id
  serve_admin read_summary x = handle_summary
  serve_admin (get_users q) x = handle_list_users c.sql q
  serve_admin (get_peers q) x = handle_list_peers c.sql q
  serve_admin (get_invites q) x = handle_list_invites c.sql q
  serve_admin (read_user id) x = handle_get_user c.env id
  serve_admin (get_user_peers id q) x = handle_list_user_peers c.env c.sql id q
  serve_admin (put_user id body) x = handle_update_user c.env id body
  serve_admin (post_disconnect id) x = admin_disconnect_peer c.env id
  serve_admin (post_revoke id) x = admin_revoke_peer c.env id
  serve_admin (post_invite code body) x =
      handle_create_invite c.env c.invites code c.add_days x.user_id body
  serve_admin (put_invite id body) x = handle_update_invite c.env c.add_days id body
  serve_admin (remove_invite id) x = handle_delete_invite c.env id
  serve_admin get_wg x = handle_wg_status c.env c.listen_port
  serve_admin (post_rotate body) x = handle_rotate_key c.env body
  serve_admin (post_toggle body) x = handle_toggle c.env c.listen_port body

  -- PeerRateLimit behind AuthMiddleware, so that a request without a valid token is not counted.
  unfoldable pub limited_peer :
      (Context → Handler) → Result Context → Limiter → World → Answer × Server
  unfolding admitted
  limited_peer handler (err e) l w = (failure 401 "AUTH_FAILED", record { world = w; limiter = l })
  limited_peer handler (ok x) l w =
      let (v, l') = peer_rate_limit w.now x.user_id l in
      let (a, w') = admitted v (handler x) w in (a, record { world = w'; limiter = l' })

  unfoldable pub serve : Request → Server → Answer × Server
  unfolding limited_peer
  serve req s = elim req.route [
    | open_route r ↦ serve_open req.client_ip r s
    | me_route r ↦ on_world (auth_middleware c.env c.crypto req.authorization (serve_me r)) s
    | peer_route r ↦
        let (x, w) = authenticate c.env c.crypto req.authorization s.world in
        limited_peer (serve_peer r) x s.limiter w
    | admin_route r ↦
        on_world (auth_middleware c.env c.crypto req.authorization (require_admin (serve_admin r)))
          s
  ]
