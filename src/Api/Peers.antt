-- ===== src/Api/Peers.antt =====
-- internal/api/peer_handler.go.
use shuosc_network_server_ba.Common.{String, Option}
use shuosc_network_server_ba.World.{
  Env, Error, too_many_peers, peer_exists, peer_revoked, account_inactive, no_active_peer,
}
use shuosc_network_server_ba.Peer.Manager.{add_peer}
use shuosc_network_server_ba.Peer.Manager.Removal.{remove_peer, get_peer_config, replace_key}
use shuosc_network_server_ba.Api.Answers.{
  Answer, failure, internal_error, Handler, respond, with_body, with_text, with_user_id, with_key,
  done, peer_config,
}

abbrev pub register_peer_error : Error → Answer
register_peer_error too_many_peers = failure 409 "TOO_MANY_PEERS"
register_peer_error peer_exists = failure 409 "PEER_EXISTS"
register_peer_error peer_revoked = failure 409 "PEER_REVOKED"
register_peer_error account_inactive = failure 403 "FORBIDDEN"
register_peer_error e = internal_error

-- RegisterPeer; the body is its public_key, which must not be empty.
unfoldable pub handle_register_peer : Env → String → Option String → Handler
handle_register_peer env user_id body = with_user_id user_id (
    with_body body λ public_key. with_text public_key (
      with_key (env.parse_key public_key)
        λ key. respond peer_config register_peer_error (add_peer env user_id key)))

abbrev pub active_peer_error : Error → Answer
active_peer_error no_active_peer = failure 404 "NO_ACTIVE_PEER"
active_peer_error e = internal_error

-- GetPeerConfig.
unfoldable pub handle_get_peer_config : Env → String → String → Handler
handle_get_peer_config env user_id public_key = with_user_id user_id (
    with_text public_key
      (respond peer_config active_peer_error (get_peer_config env user_id public_key)))

-- DisconnectPeer.
unfoldable pub handle_disconnect_peer : Env → String → String → Handler
handle_disconnect_peer env user_id public_key = with_user_id user_id (
    with_text public_key
      (respond (λ _. done) active_peer_error (remove_peer env user_id public_key)))

-- ReplaceKey; the query names the old key, the body the new one.
unfoldable pub handle_replace_key : Env → String → String → Option String → Handler
handle_replace_key env user_id old_public_key body = with_user_id user_id (
    with_text old_public_key (
      with_body body λ public_key. with_text public_key (
        with_key (env.parse_key public_key) λ new_key.
          with_key (env.parse_key old_public_key) λ old_key.
            respond (λ _. done) active_peer_error (replace_key env user_id old_key new_key))))
