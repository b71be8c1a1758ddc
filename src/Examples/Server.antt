-- ===== src/Examples/Server.antt =====
-- The theorems on the server as a whole at concrete requests.
use shuosc_network_server_ba.Common.{
  ◌+◌, ◌-◌, ◌*◌, ◌^◌, ◌≤◌, ◌≡◌, refl, ◌⊎◌, Bool, true, some, List, str_eq, arith, count, select,
  if◌then◌else◌,
}
use shuosc_network_server_ba.Common.Text.{bytes, contains}
use shuosc_network_server_ba.Common.Integers.{pos}
use shuosc_network_server_ba.Model.{User}
use shuosc_network_server_ba.World.{ok}
use shuosc_network_server_ba.World.Rules.{Same}
use shuosc_network_server_ba.Store.Rows.{one_if}
use shuosc_network_server_ba.Store.Peers.Counts.{leases}
use shuosc_network_server_ba.Store.Lists.{
  Sql, UserListParams, list_users, user_matches, user_column,
}
use shuosc_network_server_ba.Store.Lists.Pages.{
  first_pages, Orders, Apart, same_in, list_users-pages,
}
use shuosc_network_server_ba.Admin.Invites.{overused}
use shuosc_network_server_ba.Auth.{Claims, valid, malformed}
use shuosc_network_server_ba.Api.RateLimit.{new_rate_limiter}
use shuosc_network_server_ba.Api.Requests.{page_param, page_size_param, page_param-bounds}
use shuosc_network_server_ba.Api.Router.{
  Settings, Request, Server, serve, admin_route, me_route, read_me, remove_invite,
}
use shuosc_network_server_ba.Api.Router.Standing.{Stands, Refused, administrator, serve-standing}
use shuosc_network_server_ba.Api.Router.Reads.{serve-reads}
use shuosc_network_server_ba.Api.Router.Runs.{started, later, serves, Serving-invariant}
use shuosc_network_server_ba.Examples.Worlds.{example_env, example_crypto, example_world}
use shuosc_network_server_ba.Examples.Peers.{example_world-IsConsistent}
use shuosc_network_server_ba.Examples.Users.{example_world-IsWithin}

abbrev example_sql : Sql
example_sql = record {
  like = λ pattern text. true;
  order_users = λ column up limit skipped us. us;
  order_peers = λ column up limit skipped ps. ps;
  order_invites = λ column up limit skipped is. is;
}

abbrev example_claims : Claims
example_claims = record {
  subject = "u1";
  issued_at = 0;
  expires_at = 1000;
  student_id = "20250001";
  role = "admin";
}

-- One token is valid.
abbrev example_settings : Settings
example_settings = record {
  env = example_env;
  crypto = record example_crypto {
    parse = λ now token. if str_eq token "token" then valid example_claims else malformed;
  };
  sql = example_sql;
  token_hours = 24;
  listen_port = 51820;
  invites = record { max_uses = pos 1; expiry_days = pos 30 };
  add_days = λ now days. now + days;
}

abbrev example_server : Server
example_server = record { world = example_world; limiter = new_rate_limiter }

-- The administrator deletes an invite, and a caller without a token tries to.
abbrev delete_request : Request
delete_request = record {
  authorization = "Bearer token";
  client_ip = "198.51.100.7";
  route = admin_route (remove_invite "i3");
}

abbrev anonymous_request : Request
anonymous_request = record delete_request { authorization = "" }

abbrev profile_request : Request
profile_request = record delete_request { route = me_route read_me }

serve-standing_example :
    Stands example_settings.env example_settings.crypto "" example_world administrator
    ⊎ (Refused (serve example_settings anonymous_request example_server).0
        × Same example_world (serve example_settings anonymous_request example_server).1.world)
serve-standing_example = serve-standing example_settings anonymous_request example_server

serve-reads_example :
    Same example_world (serve example_settings profile_request example_server).1.world
serve-reads_example = serve-reads example_settings profile_request example_server refl

abbrev after_delete : Server
after_delete = (serve example_settings delete_request example_server).1

Serving-invariant_example :
    (count (leases (bytes "10.0.0.1")) after_delete.world.db.peers
      ≤ one_if (contains after_delete.world.ipam.used (bytes "10.0.0.1")))
    × (count overused after_delete.world.db.invites ≡ 0)
Serving-invariant_example =
    Serving-invariant example_settings example_server after_delete (bytes "10.0.0.1")
      example_world-IsConsistent example_world-IsWithin
      (later (started example_server) (serves example_server delete_request))

page_param-bounds_example :
    (1 ≤ page_param (some "99999999999999999999"))
    × (page_param (some "99999999999999999999") ≤ 2 ^ 63 - 1)
    × (1 ≤ page_size_param (some "-5"))
    × (page_size_param (some "-5") ≤ 100)
page_param-bounds_example = page_param-bounds (some "99999999999999999999") (some "-5")

abbrev example_params : UserListParams
example_params = record {
  page = 1;
  page_size = 20;
  student_id = "";
  status = "active";
  role = "";
  sort_by = "created_at";
  sort_order = "desc";
}

one_page : count (user_matches example_sql example_params) example_world.db.users ≤ 1 * 20
unfolding user_matches
one_page = omega arith

example_sql-Orders : Orders example_sql
example_sql-Orders = record {
  reorders = λ column up limit skipped us q. refl;
  settled = λ column up limit skipped skipped' us apart. refl;
}

one-Apart :
    Apart
      (user_column example_params.sort_by)
      (select (user_matches example_sql example_params) example_world.db.users)
unfolding user_matches same_in
one-Apart = (refl, tt)

list_users-pages_example :
    (rows : List User) × (first_pages
        (λ page. list_users example_sql (record example_params { page = page }))
        1
        example_world
      ≡ (ok rows, example_world))
    × ((q : User → Bool)
        → count q rows
          ≡ count q (select (user_matches example_sql example_params) example_world.db.users))
list_users-pages_example =
    list_users-pages example_sql example_params 1 example_world example_sql-Orders one-Apart refl
      (omega arith) one_page
