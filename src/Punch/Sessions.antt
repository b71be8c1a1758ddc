-- ===== src/Punch/Sessions.antt =====
-- The proxy sessions of internal/punch/service.go: one UDP socket to WireGuard for each external
-- address. sessionFor has two critical sections, with the opening of a socket between them, so the
-- goroutines interleave there; each critical section is one step. Sockets are numbers, which stand
-- for the sessions' pointers too.
pub mod Sockets
use shuosc_network_server_ba.Common.{
  ℕ, suc, ◌+◌, String, ◌≡◌, Bool, true, false, not, Option, none, some, List, [], ◌∷◌, ◌==◌, str_eq,
  ltb, first, select, if◌then◌else◌,
}
use shuosc_network_server_ba.Store.Rows.{update_where, delete_where}

-- session, with the key that the map has it under.
pub record Session : Type 0 where
  pub key : String
  pub socket : ℕ
  pub last_seen : ℕ

-- A call of sessionFor that has opened its socket and not taken the lock again.
pub record Opening : Type 0 where
  pub key : String
  pub socket : ℕ

pub record Proxy : Type 0 where
  pub sessions : List Session
  pub opening : List Opening
  pub live : List ℕ
  pub next_socket : ℕ

abbrev pub has_session_key : String → Session → Bool
has_session_key key s = str_eq s.key key

abbrev pub has_socket : ℕ → Session → Bool
has_socket n s = s.socket == n

abbrev pub opens : ℕ → Opening → Bool
opens n o = o.socket == n

abbrev pub seen_at : ℕ → Session → Session
seen_at now s = record s { last_seen = now }

unfoldable pub close_socket : ℕ → List ℕ → List ℕ
close_socket n live = select (λ m. not (m == n)) live

-- sessionFor, the first critical section: a session that is there is used.
unfoldable pub find_session : ℕ → String → Proxy → Option ℕ × Proxy
find_session now key p = elim (first (has_session_key key) p.sessions) [
  | none ↦ (none, p)
  | some s ↦ (
    some s.socket,
    record p { sessions = update_where (has_session_key key) (seen_at now) p.sessions },
  )
]

-- net.ListenUDP.
unfoldable pub open_socket : String → Proxy → ℕ × Proxy
open_socket key p = (
  p.next_socket,
  record p {
    opening = record { key = key; socket = p.next_socket } ∷ p.opening;
    live = p.next_socket ∷ p.live;
    next_socket = suc p.next_socket;
  },
)

-- sessionFor, the second critical section: another goroutine may have been first.
unfoldable pub publish_session : ℕ → Opening → Proxy → ℕ × Proxy
publish_session now o p = elim (first (has_session_key o.key) p.sessions) [
  | some s ↦ (
    s.socket,
    record p {
      opening = delete_where (opens o.socket) p.opening;
      live = close_socket o.socket p.live;
    },
  )
  | none ↦ (
    o.socket,
    record p {
      sessions = record { key = o.key; socket = o.socket; last_seen = now } ∷ p.sessions;
      opening = delete_where (opens o.socket) p.opening;
    },
  )
]

-- readFromWireGuard, after a packet: the session is touched if the map still has this one.
unfoldable pub touch_session : ℕ → String → ℕ → Proxy → Proxy
touch_session now key socket p = elim (first (has_session_key key) p.sessions) [
  | none ↦ p
  | some s ↦
      if s.socket == socket
      then record p { sessions = update_where (has_session_key key) (seen_at now) p.sessions }
      else p
]

-- The loop of cleanupIdleSessions: `sess.lastSeen.Before(now.Add(-maxIdle))`.
unfoldable pub drop_idle : ℕ → ℕ → List Session → List ℕ → List Session × List ℕ
drop_idle now max_idle [] live = ([], live)
drop_idle now max_idle (s ∷ ss) live =
    let (rest, left) = drop_idle now max_idle ss live in
    if ltb (s.last_seen + max_idle) now
    then (rest, close_socket s.socket left)
    else (s ∷ rest, left)

-- cleanupIdleSessions.
unfoldable pub cleanup_idle_sessions : ℕ → ℕ → Proxy → Proxy
cleanup_idle_sessions now max_idle p =
    let (kept, live) = drop_idle now max_idle p.sessions p.live in
    record p { sessions = kept; live = live }

-- What the goroutines do, each at its time.
pub data Move : Proxy → Proxy → Type 0 where
  finds : (p : Proxy) (now : ℕ) (key : String) → Move p (find_session now key p).1
  listens : (p : Proxy) (key : String) → Move p (open_socket key p).1
  publishes :
      (p : Proxy) (now : ℕ) (o : Opening)
      → first (opens o.socket) p.opening ≡ some o
      → Move p (publish_session now o p).1
  receives :
      (p : Proxy) (now : ℕ) (key : String) (socket : ℕ) → Move p (touch_session now key socket p)
  cleans : (p : Proxy) (now max_idle : ℕ) → Move p (cleanup_idle_sessions now max_idle p)

pub data Moves : Proxy → Proxy → Type 0 where
  stays : (p : Proxy) → Moves p p
  moves : {p q r : Proxy} → Moves p q → Move q r → Moves p r

abbrev pub no_sessions : Proxy
no_sessions = record { sessions = []; opening = []; live = []; next_socket = 0 }
