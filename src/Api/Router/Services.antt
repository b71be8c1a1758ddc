-- ===== src/Api/Router/Services.antt =====
-- What the services keep, every request keeps.
use shuosc_network_server_ba.Common.{
  ℕ, String, ◌≡◌, Bool, false, Option, none, some, arith, Bool-cases, inl, inr,
}
use shuosc_network_server_ba.World.{World}
use shuosc_network_server_ba.World.Rules.{Keeps, Same}
use shuosc_network_server_ba.Auth.{register}
use shuosc_network_server_ba.Account.{SelfUpdateFields, update_me, change_password}
use shuosc_network_server_ba.Common.Integers.{ℤ}
use shuosc_network_server_ba.Admin.{
  AdminUserUpdateFields, InviteFields, update_user, create_invite, update_invite, delete_invite,
}
use shuosc_network_server_ba.Peer.Manager.{add_peer}
use shuosc_network_server_ba.Peer.Manager.Removal.{remove_peer, replace_key}
use shuosc_network_server_ba.Peer.Manager.Server.{rotate_server_key, set_wg_enabled}
use shuosc_network_server_ba.Api.AdminPeers.{admin_disconnect_peer, admin_revoke_peer}
use shuosc_network_server_ba.Api.Accounts.{
  handle_register, handle_update_me, handle_change_password,
}
use shuosc_network_server_ba.Api.Peers.{
  handle_register_peer, handle_disconnect_peer, handle_replace_key,
}
use shuosc_network_server_ba.Api.Admins.{
  handle_update_user, handle_create_invite, handle_update_invite, handle_delete_invite,
  with_fields_of, handle_rotate_key, handle_toggle,
}
use shuosc_network_server_ba.Api.Requests.{UpdateInviteRequest}
use shuosc_network_server_ba.Api.Router.{
  Settings, Route, open_route, me_route, peer_route, admin_route, OpenRoute, MeRoute, PeerRoute,
  AdminRoute, Request, Server, serve, serve_me, serve_peer, serve_admin, get_health, get_version,
  post_register, post_login, read_me, get_my_peers, put_me, put_password, post_peer, get_config,
  delete_peer, put_key, get_admin, read_summary, get_users, get_peers, get_invites, read_user,
  get_user_peers, put_user, post_disconnect, post_revoke, post_invite, put_invite, remove_invite,
  get_wg, post_rotate, post_toggle,
}
use shuosc_network_server_ba.Api.Router.Handlers.{
  Holds, holds_rules, Holds-with_body, Holds-with_text, RouteHolds, serve-Holds,
}
use shuosc_network_server_ba.Api.Router.Reads.{
  reads, open_reads, me_reads, peer_reads, admin_reads, serve-reads,
}

-- Every operation of the services that writes keeps a condition.
pub record ServicesKeep (P : World → Type 0) (c : Settings) : Type 0 where
  pub registers : (id password code : String) → Keeps P (register c.crypto id password code)
  pub updates_me : (id : String) (f : SelfUpdateFields) → Keeps P (update_me c.env c.crypto id f)
  pub changes_password : (id old new : String) → Keeps P (change_password c.env c.crypto id old new)
  pub adds : (id : String) (key : ℕ) → Keeps P (add_peer c.env id key)
  pub removes : (id key : String) → Keeps P (remove_peer c.env id key)
  pub replaces : (id : String) (old new : ℕ) → Keeps P (replace_key c.env id old new)
  pub disconnects : (id : String) → Holds P (admin_disconnect_peer c.env id)
  pub revokes : (id : String) → Holds P (admin_revoke_peer c.env id)
  pub updates_user : (id : String) (f : AdminUserUpdateFields) → Keeps P (update_user c.env id f)
  pub creates_invite :
      (code : Option String) (id : String) (uses days : ℤ)
      → Keeps P (create_invite c.env code c.add_days id uses days)
  pub updates_invite : (id : String) (f : InviteFields) → Keeps P (update_invite c.env id f)
  pub deletes_invite : (id : String) → Keeps P (delete_invite c.env id)
  pub rotates : (key : ℕ) → Keeps P (rotate_server_key c.env key)
  pub toggles : (on : Bool) → Keeps P (set_wg_enabled c.env c.listen_port on)

module _ (P : World → Type 0) (c : Settings) (closed : (v w : World) → P v → Same v w → P w)
    (k : ServicesKeep P c) where
  open-writes : (r : OpenRoute) → open_reads r ≡ false → RouteHolds P c (open_route r)
  unfolding handle_register
  open-writes get_health e = ground arith
  open-writes get_version e = ground arith
  open-writes (post_login id body) e = ground arith
  open-writes (post_register body) e = search (holds_rules, k.registers) depth 6

  me-writes : (r : MeRoute) → me_reads r ≡ false → RouteHolds P c (me_route r)
  unfolding serve_me handle_update_me handle_change_password
  me-writes read_me e x = ground arith
  me-writes (get_my_peers page page_size status) e x = ground arith
  me-writes (put_me body) e x = search (holds_rules, k.updates_me) depth 6
  me-writes (put_password body) e x = search (holds_rules, k.changes_password) depth 6

  peer-writes : (r : PeerRoute) → peer_reads r ≡ false → RouteHolds P c (peer_route r)
  unfolding serve_peer handle_register_peer handle_disconnect_peer handle_replace_key
  peer-writes (get_config key) e x = ground arith
  peer-writes (post_peer body) e x = search (holds_rules, k.adds) depth 8
  peer-writes (delete_peer key) e x = search (holds_rules, k.removes) depth 8
  peer-writes (put_key key body) e x = search (holds_rules, k.replaces) depth 14

  with_fields_of-writes :
      (id : String) (f : Option InviteFields) → Holds P (with_fields_of c.env id f)
  unfolding with_fields_of
  with_fields_of-writes id none = search holds_rules depth 2
  with_fields_of-writes id (some f) = search (holds_rules, k.updates_invite) depth 4

  put_invite-writes :
      (id : String) (body : Option UpdateInviteRequest)
      → Holds P (handle_update_invite c.env c.add_days id body)
  unfolding handle_update_invite
  put_invite-writes id body =
      Holds-with_text id _
        (Holds-with_body body _ λ req. record { at = λ w h. (with_fields_of-writes id _).at w h })

  admin-writes : (r : AdminRoute) → admin_reads r ≡ false → RouteHolds P c (admin_route r)
  unfolding serve_admin handle_update_user handle_create_invite handle_delete_invite
      handle_rotate_key handle_toggle
  admin-writes get_admin e x = ground arith
  admin-writes read_summary e x = ground arith
  admin-writes (get_users q) e x = ground arith
  admin-writes (get_peers q) e x = ground arith
  admin-writes (get_invites q) e x = ground arith
  admin-writes (read_user id) e x = ground arith
  admin-writes (get_user_peers id q) e x = ground arith
  admin-writes get_wg e x = ground arith
  admin-writes (put_user id body) e x = search (holds_rules, k.updates_user) depth 6
  admin-writes (post_disconnect id) e x = k.disconnects id
  admin-writes (post_revoke id) e x = k.revokes id
  admin-writes (post_invite code body) e x = search (holds_rules, k.creates_invite) depth 6
  admin-writes (put_invite id body) e x = put_invite-writes id body
  admin-writes (remove_invite id) e x = search (holds_rules, k.deletes_invite) depth 6
  admin-writes (post_rotate body) e x = search (holds_rules, k.rotates) depth 6
  admin-writes (post_toggle body) e x = search (holds_rules, k.toggles) depth 6

  route-writes : (r : Route) → reads r ≡ false → RouteHolds P c r
  route-writes (open_route r) e = open-writes r e
  route-writes (me_route r) e = me-writes r e
  route-writes (peer_route r) e = peer-writes r e
  route-writes (admin_route r) e = admin-writes r e

  pub serve-keeps : (req : Request) (s : Server) → P s.world → P (serve c req s).1.world
  serve-keeps req s h = elim (Bool-cases (reads req.route)) [
    | inl read ↦ closed s.world _ h (serve-reads c req s read)
    | inr write ↦ serve-Holds P c closed req s (route-writes req.route write) h
  ]
