-- ===== src/Api/Router/Reads.antt =====
-- The routes that only read.
use shuosc_network_server_ba.Common.{ℕ, String, ◌≡◌, Bool, true, false, List, arith}
use shuosc_network_server_ba.World.{World, Db, Error, Env, call}
use shuosc_network_server_ba.World.Rules.{
  Keeps, keeps_rules, Same, Same-refl, Same-trans, call-Same, read_device-Same,
}
use shuosc_network_server_ba.Store.Lists.{
  list_page, list_users, list_peers, list_invites, list_by_user_id,
}
use shuosc_network_server_ba.Store.Invites.{count_by_state}
use shuosc_network_server_ba.Store.Users.Find.{find_user_by_id, find_by_student_id}
use shuosc_network_server_ba.Store.Peers.{count_active_by_user_id, find_active_by_user_id}
use shuosc_network_server_ba.Auth.{login}
use shuosc_network_server_ba.Account.{get_me, list_my_peers}
use shuosc_network_server_ba.Admin.{get_summary, get_user, list_user_peers, verify_admin}
use shuosc_network_server_ba.Peer.Manager.Removal.{get_peer_config, connected_now, find_target}
use shuosc_network_server_ba.Peer.Manager.{registration}
use shuosc_network_server_ba.Peer.Manager.Server.{wg_enabled, active_peer_count}
use shuosc_network_server_ba.Api.Accounts.{handle_login, handle_get_me, handle_list_my_peers}
use shuosc_network_server_ba.Api.Peers.{handle_get_peer_config}
use shuosc_network_server_ba.Api.Admins.{
  ListQuery, handle_admin_me, handle_summary, handle_list_users, handle_get_user,
  handle_list_user_peers, handle_list_peers, handle_list_invites, handle_wg_status, read_wg_status,
}
use shuosc_network_server_ba.Api.Answers.{Handler}
use shuosc_network_server_ba.Api.Router.{
  Settings, Route, open_route, me_route, peer_route, admin_route, OpenRoute, MeRoute, PeerRoute,
  AdminRoute, Request, Server, serve, serve_me, serve_peer, serve_admin, ping, count_if,
  handle_health, handle_version, get_health, get_version, post_register, post_login, read_me,
  get_my_peers, put_me, put_password, post_peer, get_config, delete_peer, put_key, get_admin,
  read_summary, get_users, get_peers, get_invites, read_user, get_user_peers, put_user,
  post_disconnect, post_revoke, post_invite, put_invite, remove_invite, get_wg, post_rotate,
  post_toggle,
}
use shuosc_network_server_ba.Api.Router.Data.{Keeps-map_error}
use shuosc_network_server_ba.Api.Router.Handlers.{Holds, holds_rules, RouteHolds, serve-Holds}

-- The routes with the method GET, and the login.
abbrev pub me_reads : MeRoute → Bool
me_reads read_me = true
me_reads (get_my_peers page page_size status) = true
me_reads (put_me body) = false
me_reads (put_password body) = false

abbrev pub peer_reads : PeerRoute → Bool
peer_reads (get_config key) = true
peer_reads (post_peer body) = false
peer_reads (delete_peer key) = false
peer_reads (put_key key body) = false

abbrev pub admin_reads : AdminRoute → Bool
admin_reads get_admin = true
admin_reads read_summary = true
admin_reads (get_users q) = true
admin_reads (get_peers q) = true
admin_reads (get_invites q) = true
admin_reads (read_user id) = true
admin_reads (get_user_peers id q) = true
admin_reads (put_user id body) = false
admin_reads (post_disconnect id) = false
admin_reads (post_revoke id) = false
admin_reads (post_invite code body) = false
admin_reads (put_invite id body) = false
admin_reads (remove_invite id) = false
admin_reads get_wg = true
admin_reads (post_rotate body) = false
admin_reads (post_toggle body) = false

abbrev pub open_reads : OpenRoute → Bool
open_reads get_health = true
open_reads get_version = true
open_reads (post_register body) = false
open_reads (post_login id body) = true

abbrev pub reads : Route → Bool
reads (open_route r) = open_reads r
reads (me_route r) = me_reads r
reads (peer_route r) = peer_reads r
reads (admin_route r) = admin_reads r

module _ (u : World) where
  Keeps-call : (e : Error) → Keeps (Same u) (call e)
  Keeps-call e = record { at = λ w h. Same-trans h (call-Same e w) }

  Keeps-wg_enabled : Keeps (Same u) wg_enabled
  unfolding wg_enabled
  Keeps-wg_enabled = record { at = λ w h. Same-trans h (read_device-Same w) }

  Keeps-active_peer_count : Keeps (Same u) active_peer_count
  unfolding active_peer_count
  Keeps-active_peer_count = record { at = λ w h. Same-trans h (read_device-Same w) }

  Keeps-connected_now : (env : Env) (key : String) → Keeps (Same u) (connected_now env key)
  unfolding connected_now
  Keeps-connected_now env key = record { at = λ w h. Same-trans h (read_device-Same w) }

  Keeps-ping : Keeps (Same u) ping
  unfolding ping
  Keeps-ping = record { at = λ w h. Same-trans h (call-Same _ w) }

  Keeps-count_if : (b : Bool) → Keeps (Same u) (count_if b)
  Keeps-count_if true = Keeps-active_peer_count
  Keeps-count_if false = search keeps_rules depth 2

  Keeps-list_page :
      {A : Type 0} (counted : Db → ℕ) (rows : Db → List A) (page page_size : ℕ)
      → Keeps (Same u) (list_page counted rows page page_size)
  unfolding list_page
  Keeps-list_page counted rows page page_size = search keeps_rules depth 8

  abbrev Reads : Handler → Type 0
  Reads h = Holds (Same u) h

  health-Reads : Reads handle_health
  unfolding handle_health
  health-Reads =
      search (holds_rules, keeps_rules, Keeps-ping, Keeps-wg_enabled, Keeps-count_if) depth 12

  version-Reads : Reads handle_version
  unfolding handle_version
  version-Reads = search holds_rules depth 4

  login-Reads : (c : Settings) (body : _) → Reads (handle_login c.env c.crypto c.token_hours body)
  unfolding handle_login login find_by_student_id
  login-Reads c body = search (holds_rules, keeps_rules, Keeps-map_error) depth 16

  open-Reads :
      (c : Settings) (r : OpenRoute) → open_reads r ≡ true → RouteHolds (Same u) c (open_route r)
  open-Reads c get_health e = health-Reads
  open-Reads c get_version e = version-Reads
  open-Reads c (post_login id body) e = login-Reads c body
  open-Reads c (post_register body) e = ground arith

  me-Reads : (c : Settings) (r : MeRoute) → me_reads r ≡ true → RouteHolds (Same u) c (me_route r)
  unfolding serve_me handle_get_me get_me handle_list_my_peers list_my_peers find_user_by_id
      count_active_by_user_id list_by_user_id
  me-Reads c read_me e x = search (holds_rules, keeps_rules) depth 16
  me-Reads c (get_my_peers page page_size status) e x =
      search (holds_rules, keeps_rules, Keeps-list_page) depth 16
  me-Reads c (put_me body) e x = ground arith
  me-Reads c (put_password body) e x = ground arith

  peer-Reads :
      (c : Settings) (r : PeerRoute) → peer_reads r ≡ true → RouteHolds (Same u) c (peer_route r)
  unfolding serve_peer handle_get_peer_config get_peer_config find_target registration
      find_active_by_user_id
  peer-Reads c (get_config key) e x =
      search (holds_rules, keeps_rules, Keeps-connected_now) depth 16
  peer-Reads c (post_peer body) e x = ground arith
  peer-Reads c (delete_peer key) e x = ground arith
  peer-Reads c (put_key key body) e x = ground arith

  rows-Reads :
      (c : Settings) (q : ListQuery)
      → Reads (handle_list_users c.sql q)
        × Reads (handle_list_peers c.sql q)
        × Reads (handle_list_invites c.sql q)
  unfolding handle_list_users handle_list_peers handle_list_invites list_users list_peers
      list_invites
  rows-Reads c q = (
    search (holds_rules, keeps_rules, Keeps-list_page) depth 16,
    search (holds_rules, keeps_rules, Keeps-list_page) depth 16,
    search (holds_rules, keeps_rules, Keeps-list_page) depth 16,
  )

  user_peers-Reads :
      (c : Settings) (id : String) (q : ListQuery) → Reads (handle_list_user_peers c.env c.sql id q)
  unfolding handle_list_user_peers list_user_peers list_by_user_id
  user_peers-Reads c id q = search (holds_rules, keeps_rules, Keeps-list_page) depth 16

  summary-Reads : Reads handle_summary
  unfolding handle_summary get_summary count_by_state
  summary-Reads = search (holds_rules, keeps_rules) depth 16

  account-Reads :
      (c : Settings) (id : String)
      → Reads (handle_get_user c.env id) × Reads (handle_admin_me c.env id)
  unfolding handle_get_user get_user handle_admin_me verify_admin find_user_by_id
  account-Reads c id =
      (search (holds_rules, keeps_rules) depth 16, search (holds_rules, keeps_rules) depth 16)

  wg-Reads : (c : Settings) → Reads (handle_wg_status c.env c.listen_port)
  unfolding handle_wg_status read_wg_status
  wg-Reads c = search (holds_rules, keeps_rules, Keeps-wg_enabled, Keeps-active_peer_count) depth 16

  admin-Reads :
      (c : Settings) (r : AdminRoute) → admin_reads r ≡ true → RouteHolds (Same u) c (admin_route r)
  unfolding serve_admin
  admin-Reads c get_admin e x = (account-Reads c x.user_id).1
  admin-Reads c read_summary e x = summary-Reads
  admin-Reads c (get_users q) e x = (rows-Reads c q).0
  admin-Reads c (get_peers q) e x = (rows-Reads c q).1
  admin-Reads c (get_invites q) e x = (rows-Reads c q).2
  admin-Reads c (read_user id) e x = (account-Reads c id).0
  admin-Reads c (get_user_peers id q) e x = user_peers-Reads c id q
  admin-Reads c get_wg e x = wg-Reads c
  admin-Reads c (put_user id body) e x = ground arith
  admin-Reads c (post_disconnect id) e x = ground arith
  admin-Reads c (post_revoke id) e x = ground arith
  admin-Reads c (post_invite code body) e x = ground arith
  admin-Reads c (put_invite id body) e x = ground arith
  admin-Reads c (remove_invite id) e x = ground arith
  admin-Reads c (post_rotate body) e x = ground arith
  admin-Reads c (post_toggle body) e x = ground arith

  route-Reads : (c : Settings) (r : Route) → reads r ≡ true → RouteHolds (Same u) c r
  route-Reads c (open_route r) e = open-Reads c r e
  route-Reads c (me_route r) e = me-Reads c r e
  route-Reads c (peer_route r) e = peer-Reads c r e
  route-Reads c (admin_route r) e = admin-Reads c r e

-- A GET and a login change neither the database nor the device, the allocator or the key, whoever
-- sends them and whichever calls fail.
pub serve-reads :
    (c : Settings) (req : Request) (s : Server)
    → reads req.route ≡ true
    → Same s.world (serve c req s).1.world
serve-reads c req s e =
    serve-Holds (Same s.world) c (λ v w h k. Same-trans h k) req s
      (route-Reads s.world c req.route e) (Same-refl s.world)
