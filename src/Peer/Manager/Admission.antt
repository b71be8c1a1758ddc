-- ===== src/Peer/Manager/Admission.antt =====
-- The checks of AddPeer change nothing, and what they let pass.
use shuosc_network_server_ba.Common.{ℕ, String, Option, none, some}
use shuosc_network_server_ba.World.{World, Env, Error}
use shuosc_network_server_ba.World.Rules.{Keeps, Same, keeps_rules, Keeps-pure, Keeps-fail}
use shuosc_network_server_ba.Store.Users.Find.{find_user_by_id}
use shuosc_network_server_ba.Store.Peers.{
  find_active_by_user_id, find_by_public_key, count_active_by_user_id,
}
use shuosc_network_server_ba.Peer.Manager.{admit, refuse}

Keeps-refuse : (P : World → Type 0) (o : Option Error) → Keeps P (refuse o)
Keeps-refuse P none = Keeps-pure tt
Keeps-refuse P (some e) = Keeps-fail e

pub admit-Same :
    (u : World) (env : Env) (user_id : String) (key : ℕ) → Keeps (Same u) (admit env user_id key)
unfolding admit find_user_by_id find_active_by_user_id find_by_public_key count_active_by_user_id
admit-Same u env user_id key = search (keeps_rules, Keeps-refuse) depth 12
