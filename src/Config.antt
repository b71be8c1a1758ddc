-- ===== src/Config.antt =====
-- config/config.go: the defaults, the substitution of `${NAME}`, the environment's overrides, and
-- Load. Reading the file, decoding YAML over the defaults and the environment are parameters.
pub mod Placeholders
pub mod Overrides
use Prim.Native.Char.{code}
use shuosc_network_server_ba.Common.{
  ℕ, String, Bool, true, false, ◌||◌, Option, none, some, List, [], ◌∷◌, ◌==◌, str_eq,
  if◌then◌else◌,
}
use shuosc_network_server_ba.Common.Words.{concat, is_empty, trim_space}
use shuosc_network_server_ba.Common.Integers.{ℤ, pos, parse_int}

pub record DatabaseConfig : Type 0 where
  pub host : String
  pub port : ℤ
  pub user : String
  pub password : String
  pub name : String
  pub ssl_mode : String

pub record WireGuardConfig : Type 0 where
  pub interface_name : String
  pub listen_port : ℤ
  pub private_key : String
  pub subnet : String
  pub address : String

pub record PunchConfig : Type 0 where
  pub enabled : Bool
  pub listen_port : ℤ
  pub wireguard_host : String
  pub wireguard_port : ℤ
  pub stun_servers : List String
  pub probe_timeout_seconds : ℤ
  pub keepalive_interval_seconds : ℤ

pub record JwtConfig : Type 0 where
  pub secret : String
  pub expiry_hours : ℤ

pub record InviteConfig : Type 0 where
  pub default_max_uses : ℤ
  pub default_expiry_days : ℤ

pub record AdminConfig : Type 0 where
  pub student_id : String
  pub password : String

pub record DiscoveryConfig : Type 0 where
  pub enabled : Bool
  pub discovery_url : String
  pub discovery_secret : String
  pub api_addr : String
  pub wg_endpoint : String

-- Config; `server_port` is ServerConfig.
pub record Config : Type 0 where
  pub server_port : ℤ
  pub database : DatabaseConfig
  pub wireguard : WireGuardConfig
  pub punch : PunchConfig
  pub jwt : JwtConfig
  pub invite : InviteConfig
  pub admin : AdminConfig
  pub discovery : DiscoveryConfig

-- DefaultConfig.
abbrev pub default_config : Config
default_config = record {
  server_port = pos 8080;
  database = record {
    host = "localhost";
    port = pos 5432;
    user = "scnet";
    password = "";
    name = "scnet";
    ssl_mode = "disable";
  };
  wireguard = record {
    interface_name = "wg_scnet";
    listen_port = pos 51820;
    private_key = "";
    subnet = "10.100.0.0/24";
    address = "10.100.0.1/24";
  };
  punch = record {
    enabled = false;
    listen_port = pos 51280;
    wireguard_host = "127.0.0.1";
    wireguard_port = pos 0;
    stun_servers = [];
    probe_timeout_seconds = pos 5;
    keepalive_interval_seconds = pos 20;
  };
  jwt = record { secret = ""; expiry_hours = pos 24 };
  invite = record { default_max_uses = pos 1; default_expiry_days = pos 30 };
  admin = record { student_id = "admin"; password = "" };
  discovery = record {
    enabled = false;
    discovery_url = "";
    discovery_secret = "";
    api_addr = "localhost:8080";
    wg_endpoint = "";
  };
}

-- What ReplaceAllStringFunc has read of a match of `\$\{([^}]+)\}`.
pub data Scan : Type 0 where
  outside dollar : Scan
  inside : String → Scan

-- The text that was read of a match that does not come about.
abbrev pub unread : Scan → String
unread outside = ""
unread dollar = "$"
unread (inside name) = concat "${" name

-- Load's substitution; os.Getenv gives the empty text for a name that is not set.
unfoldable pub substitute : (String → String) → Scan → String → String
substitute getenv at String.[] = unread at
substitute getenv outside (String.◌∷◌ c s) =
    let plain = substitute getenv outside s in
    let matching = substitute getenv dollar s in
    if code c == 36 then matching else String.◌∷◌ c plain
substitute getenv dollar (String.◌∷◌ c s) =
    let plain = substitute getenv outside s in
    let again = substitute getenv dollar s in
    let name = substitute getenv (inside "") s in
    if code c == 123
    then name
    else if code c == 36
    then concat "$" again
    else concat "$" (String.◌∷◌ c plain)
substitute getenv (inside name) (String.◌∷◌ c s) =
    let plain = substitute getenv outside s in
    let longer = substitute getenv (inside (concat name (String.◌∷◌ c String.[]))) s in
    if code c == 125
    then if is_empty name then concat "${}" plain else concat (getenv name) plain
    else longer

-- strings.Split at the commas, with the parts trimmed and the empty ones left out.
abbrev pub unless_blank : String → List String → List String
unless_blank part rest = if is_empty (trim_space part) then rest else trim_space part ∷ rest

unfoldable pub split_from : String → String → List String
split_from part String.[] = unless_blank part []
split_from part (String.◌∷◌ c s) =
    let next = split_from "" s in
    let longer = split_from (concat part (String.◌∷◌ c String.[])) s in
    if code c == 44 then unless_blank part next else longer

-- splitCSV.
unfoldable pub split_csv : String → List String
split_csv value = split_from "" value

-- strconv.ParseBool.
unfoldable pub parse_bool : String → Option Bool
parse_bool s =
    if str_eq s "1"
      || str_eq s "t"
      || str_eq s "T"
      || str_eq s "true"
      || str_eq s "TRUE"
      || str_eq s "True"
    then some true
    else if str_eq s "0"
        || str_eq s "f"
        || str_eq s "F"
        || str_eq s "false"
        || str_eq s "FALSE"
        || str_eq s "False"
    then some false
    else none

abbrev pub or_else {ℓ} : {A : Type ℓ} → Option A → A → A
or_else none old = old
or_else (some new) old = new

-- `if value := strings.TrimSpace(os.Getenv(name)); value != ""`
unfoldable pub override : {A : Type 0} → String → (String → Option A) → A → A
override value parse old =
    if is_empty (trim_space value) then old else or_else (parse (trim_space value)) old

abbrev pub override_text : String → String → String
override_text value old = override value some old

module _ (getenv : String → String) where
  -- The agent's token stands in for a secret that is set nowhere.
  unfoldable pub discovery_secret : String → String
  discovery_secret old =
      if is_empty (trim_space (getenv "SCNET_DISCOVERY_SECRET"))
      then if is_empty old then override_text (getenv "SCNET_AGENT_TOKEN") old else old
      else trim_space (getenv "SCNET_DISCOVERY_SECRET")

  -- applyEnvOverrides.
  unfoldable pub apply_env_overrides : Config → Config
  apply_env_overrides cfg = record cfg {
    discovery = record {
      enabled = override (getenv "SCNET_DISCOVERY_ENABLED") parse_bool cfg.discovery.enabled;
      discovery_url = override_text (getenv "SCNET_DISCOVERY_URL") cfg.discovery.discovery_url;
      discovery_secret = discovery_secret cfg.discovery.discovery_secret;
      api_addr = override_text (getenv "SCNET_DISCOVERY_API_ADDR") cfg.discovery.api_addr;
      wg_endpoint = override_text (getenv "SCNET_WG_ENDPOINT") cfg.discovery.wg_endpoint;
    };
    wireguard = record cfg.wireguard {
      address = override_text (getenv "SCNET_WG_ADDRESS") cfg.wireguard.address;
    };
    punch = record {
      enabled = override (getenv "SCNET_PUNCH_ENABLED") parse_bool cfg.punch.enabled;
      listen_port = override (getenv "SCNET_PUNCH_LISTEN_PORT") parse_int cfg.punch.listen_port;
      wireguard_host = override_text (getenv "SCNET_PUNCH_WG_HOST") cfg.punch.wireguard_host;
      wireguard_port = override (getenv "SCNET_PUNCH_WG_PORT") parse_int cfg.punch.wireguard_port;
      stun_servers =
          override (getenv "SCNET_STUN_SERVERS") (λ v. some (split_csv v)) cfg.punch.stun_servers;
      probe_timeout_seconds =
          override (getenv "SCNET_PUNCH_PROBE_TIMEOUT_SECONDS") parse_int
            cfg.punch.probe_timeout_seconds;
      keepalive_interval_seconds =
          override (getenv "SCNET_PUNCH_KEEPALIVE_SECONDS") parse_int
            cfg.punch.keepalive_interval_seconds;
    };
  }

pub data LoadError : Type 0 where
  unreadable_file unparsable_file : LoadError
  no_database_password no_private_key no_jwt_secret : LoadError

pub data Loaded : Type 0 where
  loaded : Config → Loaded
  refused : LoadError → Loaded

-- The required fields.
unfoldable pub validate_config : Config → Loaded
validate_config cfg =
    if is_empty cfg.database.password
    then refused no_database_password
    else if is_empty cfg.wireguard.private_key
    then refused no_private_key
    else if is_empty cfg.jwt.secret
    then refused no_jwt_secret
    else loaded cfg

-- Load; `decode` is the YAML decoder, which writes over a configuration.
unfoldable pub decoded : (String → String) → Option Config → Loaded
decoded getenv none = refused unparsable_file
decoded getenv (some cfg) = validate_config (apply_env_overrides getenv cfg)

unfoldable pub load : (String → String) → (String → Config → Option Config) → Option String → Loaded
load getenv decode none = refused unreadable_file
load getenv decode (some file) =
    decoded getenv (decode (substitute getenv outside file) default_config)
