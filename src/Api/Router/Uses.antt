-- ===== src/Api/Router/Uses.antt =====
-- Every request keeps the invites within their limits.
use shuosc_network_server_ba.Common.{ℕ, String, Bool, true, false, Option, none, some}
use shuosc_network_server_ba.Common.Text.{Text}
use shuosc_network_server_ba.Model.{Peer}
use shuosc_network_server_ba.World.{Env}
use shuosc_network_server_ba.World.Rules.{Keeps}
use shuosc_network_server_ba.Store.Users.{
  update_user_row, update_password, register_bootstrap_admin,
}
use shuosc_network_server_ba.Store.Users.Find.{count_users, find_by_student_id, find_user_by_id}
use shuosc_network_server_ba.Store.Invites.{find_invite_by_code}
use shuosc_network_server_ba.Store.Peers.{
  create, activate, update_status, update_public_key, list_active, find_active_by_user_id,
  find_by_public_key, find_by_id, count_active_by_user_id,
}
use shuosc_network_server_ba.Auth.{
  Crypto, register, register_trimmed, register_first, register_invited,
}
use shuosc_network_server_ba.Account.{SelfUpdateFields, update_me, change_password, update_fields}
use shuosc_network_server_ba.Admin.{
  AdminUserUpdateFields, update_user, get_peer, disconnect_peer, revoke_peer, set_peer_status,
}
use shuosc_network_server_ba.Admin.Limits.{
  create_invite-IsWithin, update_invite-IsWithin, delete_invite-IsWithin,
}
use shuosc_network_server_ba.Peer.Manager.{add_peer, admit, install, persist, registration}
use shuosc_network_server_ba.Peer.Manager.Removal.{remove_peer, replace_key, find_target}
use shuosc_network_server_ba.Peer.Manager.Server.{
  rotate_server_key, set_wg_enabled, enable_wg, disable_wg,
}
use shuosc_network_server_ba.Api.AdminPeers.{admin_disconnect_peer, admin_revoke_peer}
use shuosc_network_server_ba.Api.AdminPeers.Safe.{handle_peer-keeps}
use shuosc_network_server_ba.Api.Router.{Settings, Request, Server, serve}
use shuosc_network_server_ba.Api.Router.Handlers.{Holds}
use shuosc_network_server_ba.Api.Router.Services.{ServicesKeep, serve-keeps}
use shuosc_network_server_ba.Api.Router.Within.{Within, Keeps-key, within_rules}

register-Within :
    (crypto : Crypto) (id password code : String) → Keeps Within (register crypto id password code)
unfolding register register_trimmed register_first register_invited register_bootstrap_admin
    count_users find_by_student_id find_invite_by_code
register-Within crypto id password code = search within_rules depth 20

account-Within :
    (env : Env) (crypto : Crypto) (id : String) (f : SelfUpdateFields)
    → Keeps Within (update_me env crypto id f)
unfolding update_me update_fields find_user_by_id update_user_row
account-Within env crypto id f = search within_rules depth 20

change_password-Within :
    (env : Env) (crypto : Crypto) (id current new : String)
    → Keeps Within (change_password env crypto id current new)
unfolding change_password find_user_by_id update_password
change_password-Within env crypto id current new = search within_rules depth 20

update_user-Within :
    (env : Env) (id : String) (f : AdminUserUpdateFields) → Keeps Within (update_user env id f)
unfolding update_user find_user_by_id update_user_row
update_user-Within env id f = search within_rules depth 20

persist-Within :
    (env : Env) (uid : ℕ) (existing : Option Peer) (key : ℕ) (ip : Text)
    → Keeps Within (persist env uid existing key ip)
unfolding persist activate create
persist-Within env uid none key ip = search within_rules depth 8
persist-Within env uid (some p) key ip = search within_rules depth 8

add_peer-Within : (env : Env) (id : String) (key : ℕ) → Keeps Within (add_peer env id key)
unfolding add_peer admit install registration find_user_by_id count_active_by_user_id
    find_active_by_user_id find_by_public_key
add_peer-Within env id key = search (within_rules, persist-Within) depth 24

remove_peer-Within : (env : Env) (id key : String) → Keeps Within (remove_peer env id key)
unfolding remove_peer find_target find_active_by_user_id update_status
remove_peer-Within env id key = search within_rules depth 16

replace_key-Within :
    (env : Env) (id : String) (old new : ℕ) → Keeps Within (replace_key env id old new)
unfolding replace_key find_target find_active_by_user_id update_public_key
replace_key-Within env id old new = search within_rules depth 16

status-Within : (env : Env) (status id : String) → Keeps Within (set_peer_status env status id)
unfolding set_peer_status find_by_id update_status
status-Within env status id = search within_rules depth 16

get_peer-Within : (env : Env) (id : String) → Keeps Within (get_peer env id)
unfolding get_peer find_by_id
get_peer-Within env id = search within_rules depth 16

rotate_server_key-Within : (env : Env) (key : ℕ) → Keeps Within (rotate_server_key env key)
unfolding rotate_server_key list_active
rotate_server_key-Within env key = search (within_rules, Keeps-key) depth 12

set_wg_enabled-Within :
    (env : Env) (port : ℕ) (on : Bool) → Keeps Within (set_wg_enabled env port on)
unfolding set_wg_enabled enable_wg disable_wg list_active
set_wg_enabled-Within env port true = search within_rules depth 12
set_wg_enabled-Within env port false = search within_rules depth 12

admin_peers-Within :
    (env : Env) (id : String)
    → Holds Within (admin_disconnect_peer env id) × Holds Within (admin_revoke_peer env id)
unfolding admin_disconnect_peer admin_revoke_peer disconnect_peer revoke_peer
admin_peers-Within env id = (
  record {
    at =
        handle_peer-keeps Within env _ id (status-Within env "disconnected" id).at
          (λ user key. (remove_peer-Within env user key).at) (get_peer-Within env id).at;
  },
  record {
    at =
        handle_peer-keeps Within env _ id (status-Within env "revoked" id).at
          (λ user key. (remove_peer-Within env user key).at) (get_peer-Within env id).at;
  },
)

services-Within : (c : Settings) → ServicesKeep Within c
services-Within c = record {
  registers = register-Within c.crypto;
  updates_me = account-Within c.env c.crypto;
  changes_password = change_password-Within c.env c.crypto;
  adds = add_peer-Within c.env;
  removes = remove_peer-Within c.env;
  replaces = replace_key-Within c.env;
  disconnects = λ id. (admin_peers-Within c.env id).0;
  revokes = λ id. (admin_peers-Within c.env id).1;
  updates_user = update_user-Within c.env;
  creates_invite = λ code id uses days. record {
    at = λ w h. create_invite-IsWithin w h c.env code c.add_days id uses days;
  };
  updates_invite = λ id f. record { at = λ w h. update_invite-IsWithin w h c.env id f };
  deletes_invite = λ id. record { at = λ w h. delete_invite-IsWithin w h c.env id };
  rotates = rotate_server_key-Within c.env;
  toggles = set_wg_enabled-Within c.env c.listen_port;
}

pub serve-Within :
    (c : Settings) (req : Request) (s : Server) → Within s.world → Within (serve c req s).1.world
serve-Within c req s h =
    serve-keeps Within c (λ v w k same. rw same.db k) (services-Within c) req s h
