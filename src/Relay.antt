-- ===== src/Relay.antt =====
-- internal/relayagent/agent.go: the agent that takes requests from a relay over a websocket and
-- passes them to the backend. Parsing and printing URLs, decoding JSON and base64, and the requests
-- themselves are parameters; goroutines and the sending of pings are not modelled.
pub mod Headers
use shuosc_network_server_ba.Common.{
  ℕ, ◌*◌, ◌^◌, ◌+◌, String, Bool, true, false, ◌||◌, ◌&&◌, not, Option, none, some, List, [], ◌∷◌,
  ◌++◌, ◌==◌, str_eq, ltb, select, if◌then◌else◌,
}
use shuosc_network_server_ba.Common.Words.{concat, is_empty, trim_space}
use shuosc_network_server_ba.Common.Integers.{ℤ, pos, at_least}

-- headerPair.
pub record Header : Type 0 where
  pub name : String
  pub value : String

abbrev pub header : String → String → Header
header name value = record { name = name; value = value }

pub record RequestEnvelope : Type 0 where
  pub request_id : String
  pub method : String
  pub url : String
  pub headers : List Header
  pub body_base64 : String
  pub forwarded_host : String
  pub forwarded_proto : String
  pub client_ip : String
  pub client_origin : String

-- What the agent sends.
pub data Message : Type 0 where
  pong : Message
  response : String → ℕ → List Header → String → Message
  error : String → String → Message

-- url.URL, by the parts that the agent looks at, and the rest.
pub record Url : Type 0 where
  pub scheme : String
  pub host : String
  pub path : String
  pub rest : String

pub record BackendResponse : Type 0 where
  pub status : ℕ
  pub headers : List Header
  pub body : String

-- Packages the agent calls. http.Header.Add and Set put their names in the canonical form; the
-- headers of a request are kept in that form, as a list.
pub record Net : Type 0 where
  pub to_lower : String → String
  pub canonical : String → String
  pub parse_url : String → Option Url
  pub print_url : Url → String
  pub resolve : Url → Url → Url
  pub decode_base64 : String → Option String
  pub encode_base64 : String → String
  pub send : String → String → List Header → String → Option BackendResponse

-- The names in hopByHopHeaders.
unfoldable pub is_hop_by_hop : String → Bool
is_hop_by_hop name =
    str_eq name "connection"
    || str_eq name "content-length"
    || str_eq name "host"
    || str_eq name "proxy-authenticate"
    || str_eq name "proxy-authorization"
    || str_eq name "te"
    || str_eq name "trailer"
    || str_eq name "transfer-encoding"
    || str_eq name "upgrade"
    || str_eq name "x-forwarded-for"
    || str_eq name "x-forwarded-host"
    || str_eq name "x-forwarded-proto"

module _ (net : Net) where
  abbrev pub blocked : String → Bool
  blocked name = is_hop_by_hop (net.to_lower name)

  -- copyRequestHeaders, into an empty header.
  unfoldable pub copy_request_headers : List Header → List Header
  copy_request_headers [] = []
  copy_request_headers (h ∷ hs) =
      let rest = copy_request_headers hs in
      if is_empty h.name || blocked h.name
      then rest
      else header (net.canonical h.name) h.value ∷ rest

  -- http.Header.Set, where the value is not empty.
  unfoldable pub set_header : String → String → List Header → List Header
  set_header name value hs =
      if is_empty value
      then hs
      else header (net.canonical name) value
        ∷ select (λ (h : Header). not (str_eq h.name (net.canonical name))) hs

  -- The headers of the request to the backend.
  unfoldable pub upstream_headers : RequestEnvelope → List Header
  upstream_headers r = set_header "X-SCNET-Client-Origin" r.client_origin (
      set_header "X-Forwarded-For" r.client_ip (
        set_header "X-Forwarded-Proto" r.forwarded_proto
          (set_header "X-Forwarded-Host" r.forwarded_host (copy_request_headers r.headers))))

  -- collectResponseHeaders; the values of a name follow one another.
  unfoldable pub collect_response_headers : List Header → List Header
  collect_response_headers hs = select (λ (h : Header). not (blocked h.name)) hs

  -- resolveTargetURL.
  unfoldable pub resolve_target_url : Url → String → Option String
  resolve_target_url backend raw = elim (net.parse_url raw) [
    | none ↦ none
    | some relative ↦ some (net.print_url (net.resolve backend relative))
  ]

  unfoldable pub answer_with : RequestEnvelope → Option BackendResponse → Option Message
  answer_with r none = none
  answer_with r (some b) = some (
      response r.request_id b.status (collect_response_headers b.headers)
        (net.encode_base64 b.body))

  unfoldable pub send_body : RequestEnvelope → String → Option String → Option Message
  send_body r target none = none
  send_body r target (some body) =
      answer_with r (net.send r.method target (upstream_headers r) body)

  unfoldable pub send_to : RequestEnvelope → Option String → Option Message
  send_to r none = none
  send_to r (some target) = send_body r target (net.decode_base64 r.body_base64)

  -- proxyRequest; `none` is an error, of whichever step.
  unfoldable pub proxy_request : Url → RequestEnvelope → Option Message
  proxy_request backend r = send_to r (resolve_target_url backend r.url)

  -- handleRequest.
  unfoldable pub handle_request : Url → RequestEnvelope → Message
  handle_request backend r = elim (proxy_request backend r) [
    | none ↦ error r.request_id "UPSTREAM_REQUEST_FAILED"
    | some m ↦ m
  ]

  -- A message as it decodes: `other` is a type the agent does not know, and `bad_request` a request
  -- that does not decode.
  pub data Incoming : Type 0 where
    undecodable hello ping pong_in relay_error other bad_request : Incoming
    request : RequestEnvelope → Incoming

  -- handleMessage, with what the goroutine of a request sends in the end.
  unfoldable pub handle_message : Url → Incoming → List Message
  handle_message backend undecodable = []
  handle_message backend hello = []
  handle_message backend ping = pong ∷ []
  handle_message backend pong_in = []
  handle_message backend relay_error = []
  handle_message backend bad_request = []
  handle_message backend (request r) = handle_request backend r ∷ []
  handle_message backend other = error "" "UNSUPPORTED_MESSAGE" ∷ []

  abbrev pub agent_scheme : String → Option String
  agent_scheme scheme =
      if str_eq scheme "https"
      then some "wss"
      else if str_eq scheme "http"
      then some "ws"
      else if str_eq scheme "wss" || str_eq scheme "ws"
      then some scheme
      else none

  unfoldable pub with_scheme : Url → Option String → Option String
  with_scheme u none = none
  with_scheme u (some scheme) = some (
      net.print_url (record u {
        scheme = scheme;
        path = if is_empty u.path || str_eq u.path "/" then "/_agent/connect" else u.path;
      }))

  -- normalizeAgentURL.
  unfoldable pub normalize_agent_url : String → Option String
  normalize_agent_url raw =
      if is_empty (trim_space raw) then none else elim (net.parse_url (trim_space raw)) [
        | none ↦ none
        | some u ↦ with_scheme u (agent_scheme u.scheme)
      ]

  unfoldable pub backend_of : Option Url → Option Url
  backend_of none = none
  backend_of (some u) =
      if not (str_eq u.scheme "http") && not (str_eq u.scheme "https")
      then none
      else if is_empty u.host
      then none
      else some (record u { path = if is_empty u.path then "/" else u.path })

  -- normalizeBackendURL.
  unfoldable pub normalize_backend_url : String → Option Url
  unfolding backend_of
  normalize_backend_url raw = backend_of (
      net.parse_url (if is_empty (trim_space raw) then "http://127.0.0.1:8080" else trim_space raw))

-- Config; the times are nanoseconds.
pub record AgentConfig : Type 0 where
  pub agent_url : String
  pub token : String
  pub agent_id : String
  pub backend_url : String
  pub ping_interval : ℤ
  pub request_timeout : ℤ
  pub reconnect_delay : ℤ

pub record Agent : Type 0 where
  pub agent_url : String
  pub backend_url : Url
  pub config : AgentConfig

abbrev pub positive_or : ℤ → ℕ → ℤ
positive_or n default = if at_least 1 n then n else pos default

unfoldable pub with_defaults : AgentConfig → AgentConfig
with_defaults cfg = record cfg {
  agent_id = if is_empty (trim_space cfg.agent_id) then "scnet-relay-agent" else cfg.agent_id;
  ping_interval = positive_or cfg.ping_interval (15 * 10 ^ 9);
  request_timeout = positive_or cfg.request_timeout (20 * 10 ^ 9);
  reconnect_delay = positive_or cfg.reconnect_delay (3 * 10 ^ 9);
}

unfoldable pub with_urls : AgentConfig → Option String → Option Url → Option Agent
with_urls cfg none backend = none
with_urls cfg (some agent) none = none
with_urls cfg (some agent) (some backend) =
    some (record { agent_url = agent; backend_url = backend; config = with_defaults cfg })

-- New.
unfoldable pub new_agent : Net → AgentConfig → Option Agent
new_agent net cfg =
    if is_empty (trim_space cfg.token)
    then none
    else with_urls cfg (normalize_agent_url net cfg.agent_url)
        (normalize_backend_url net cfg.backend_url)
