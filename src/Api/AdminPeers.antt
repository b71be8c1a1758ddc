-- ===== src/Api/AdminPeers.antt =====
-- AdminDisconnectPeer and AdminRevokePeer of internal/api/admin_handler.go: the peer manager first,
-- whose errors are only logged, then the status of the row.
pub mod Safe
use shuosc_network_server_ba.Common.{ℕ, String, Bool, true, false, ◌&&◌, not, str_eq, if◌then◌else◌}
use shuosc_network_server_ba.Model.{Peer}
use shuosc_network_server_ba.World.{World, Env, Error, peer_not_found, Result, ok, err, Action}
use shuosc_network_server_ba.Api.Answers.{
  Answer, done, failure, internal_error, bad_request, answered,
}
use shuosc_network_server_ba.Peer.Manager.Removal.{remove_peer}
use shuosc_network_server_ba.Admin.{get_peer, disconnect_peer, revoke_peer}

abbrev pub peer_error : Error → Answer
peer_error peer_not_found = failure 404 "PEER_NOT_FOUND"
peer_error e = internal_error

-- An active peer with a key is taken off the device.
unfoldable pub take_off : Env → Peer → World → World
take_off env p w =
    let removed = (remove_peer env (env.uuid_text p.user_id) p.public_key w).1 in
    if str_eq p.status "active" && not (str_eq p.public_key "") then removed else w

unfoldable pub after_lookup : Env → Action (Unit {0}) → Result Peer → World → Answer × World
after_lookup env op (err e) w = (peer_error e, w)
after_lookup env op (ok p) w =
    let (r, w') = op (take_off env p w) in (answered (λ _. done) peer_error r, w')

unfoldable pub handle_peer : Env → Action (Unit {0}) → String → World → Answer × World
unfolding after_lookup
handle_peer env op peer_id w =
    let (r, w') = get_peer env peer_id w in
    if str_eq peer_id "" then (bad_request, w) else after_lookup env op r w'

-- AdminDisconnectPeer.
unfoldable pub admin_disconnect_peer : Env → String → World → Answer × World
admin_disconnect_peer env peer_id = handle_peer env (disconnect_peer env peer_id) peer_id

-- AdminRevokePeer.
unfoldable pub admin_revoke_peer : Env → String → World → Answer × World
admin_revoke_peer env peer_id = handle_peer env (revoke_peer env peer_id) peer_id
