-- ===== src/Examples/Worlds.antt =====
-- Concrete worlds for the examples: the subnet 10.0.0.0/29, two users, an invite, and a device that
-- takes every configuration.
use shuosc_network_server_ba.Common.{
  ℕ, String, Bool, true, Option, none, some, List, [], ◌∷◌, ◌==◌, str_eq, if◌then◌else◌,
}
use shuosc_network_server_ba.Common.Text.{bytes}
use shuosc_network_server_ba.Model.{User, Peer, InviteCode}
use shuosc_network_server_ba.World.{World, Db, WgPeer, PeerConfig, Env}
use shuosc_network_server_ba.Peer.Ipam.{v4, Subnet}
use shuosc_network_server_ba.Auth.{Crypto, malformed}

abbrev pub example_uuid : String → Option ℕ
example_uuid s = if str_eq s "u1" then some 1 else if str_eq s "i3" then some 3 else none

abbrev pub example_key : String → Option ℕ
example_key s = if str_eq s "k5" then some 5 else if str_eq s "k7" then some 7 else none

abbrev pub example_key_text : ℕ → String
example_key_text n = if n == 5 then "k5" else if n == 7 then "k7" else "k0"

abbrev pub others : ℕ → List WgPeer → List WgPeer
others key [] = []
others key (p ∷ ps) = let rest = others key ps in if p.public_key == key then rest else p ∷ rest

abbrev pub apply_peers : List PeerConfig → List WgPeer → List WgPeer
apply_peers [] ps = ps
apply_peers (c ∷ cs) ps =
    let rest = others c.public_key ps in
    apply_peers cs (
      if c.remove
      then rest
      else record { public_key = c.public_key; allowed_ips = c.allowed_ips; last_handshake = none }
        ∷ rest)

abbrev pub example_env : Env
example_env = record {
  parse_uuid = example_uuid;
  uuid_text = λ n. "u1";
  parse_key = example_key;
  key_text = example_key_text;
  public_key = λ n. n;
  endpoint = "203.0.113.1:51820";
  ip6 = record { parse_ip6 = λ t. none; print_ip6 = λ n. [] };
  configure = λ cfg d. some (record d { peers = apply_peers cfg.peers d.peers });
}

abbrev pub example_user : User
example_user = record {
  id = 1;
  student_id = "20250001";
  password = "hash";
  role = "admin";
  invite_id = 0;
  display_name = none;
  email = none;
  phone = none;
  wechat = none;
  telegram = none;
  max_peers = 2;
  status = "active";
  created_at = 0;
  updated_at = 0;
}

abbrev pub example_invite : InviteCode
example_invite = record {
  id = 3;
  code = "SCNET-AAAA-BBBB";
  created_by = 1;
  used_by = none;
  max_uses = 2;
  use_count = 1;
  expires_at = some 500;
  created_at = 0;
}

abbrev pub example_peer : Peer
example_peer = record {
  id = 2;
  user_id = 1;
  public_key = "k7";
  assigned_ip = bytes "10.0.0.1";
  status = "active";
  last_seen = none;
  created_at = 0;
  updated_at = 0;
}

abbrev pub example_subnet : Subnet
example_subnet = record { ip = v4 167772160; ones = 29 }

abbrev pub example_db : Db
example_db = record {
  users = example_user ∷ [];
  invites = example_invite ∷ [];
  peers = example_peer ∷ [];
  next_id = 4;
}

-- One active peer, whose address is in use.
abbrev pub example_world : World
example_world = record {
  db = example_db;
  device = record { private_key = 9; listen_port = 51820; peers = [] };
  ipam = record { subnet = example_subnet; used = bytes "10.0.0.1" ∷ [] };
  server_key = 9;
  now = 100;
  faults = [];
}

-- The same, while the calls fail as listed.
abbrev pub failing_world : List Bool → World
failing_world faults = record example_world { faults = faults }

-- Before the first registration.
abbrev pub empty_world : World
empty_world = record example_world {
  db = record { users = []; invites = []; peers = []; next_id = 1 };
}

abbrev pub example_crypto : Crypto
example_crypto = record {
  is_letter = λ c. c == 97;
  is_digit = λ c. c == 49;
  to_lower = λ s. s;
  hash = λ s. some "hash";
  matches = λ h p. true;
  sign = λ c. some "token";
  parse = λ n t. malformed;
}
