-- ===== src/Punch/Sessions/Sockets.antt =====
-- No socket of the proxy is leaked or shared, and no address has two sessions.
use shuosc_network_server_ba.Common.{
  ℕ, ◌+◌, ◌≤◌, String, ◌≡◌, refl, Bool, some, List, [], ◌∷◌, ◌==◌, ==_iff, arith, eq_iff,
  Option-cases, Bool-cases, inl, inr, first, first-none, first-holds, first-count, count,
  if◌then◌else◌,
}
use shuosc_network_server_ba.Store.Rows.{update_where, delete_where}
use shuosc_network_server_ba.Punch.Sessions.{
  Session, Opening, Proxy, has_session_key, has_socket, opens, seen_at, close_socket, find_session,
  open_socket, publish_session, touch_session, drop_idle, cleanup_idle_sessions, Move, finds,
  listens, publishes, receives, cleans, Moves, stays, moves, no_sessions,
}

abbrev pub is_socket : ℕ → ℕ → Bool
is_socket n m = m == n

pub record IsSound (p : Proxy) : Type 0 where
  pub sockets :
      (n : ℕ)
      → count (is_socket n) p.live ≡ count (has_socket n) p.sessions + count (opens n) p.opening
  pub once : (n : ℕ) → count (is_socket n) p.live ≤ 1
  pub fresh : (n : ℕ) → p.next_socket ≤ n → count (is_socket n) p.live ≡ 0
  pub keys : (key : String) → count (has_session_key key) p.sessions ≤ 1

count-touched :
    (q : Session → Bool) (key : String) (now : ℕ) (ss : List Session)
    → ((s : Session) → q (seen_at now s) ≡ q s)
    → count q (update_where (has_session_key key) (seen_at now) ss) ≡ count q ss
unfolding update_where
count-touched q key now [] same = refl
count-touched q key now (s ∷ ss) same = ground (arith, count-touched q key now ss same, same s)

touched-IsSound :
    (key : String) (now : ℕ) (p : Proxy)
    → IsSound p
    → IsSound (record p { sessions = update_where (has_session_key key) (seen_at now) p.sessions })
touched-IsSound key now p h = record {
  sockets = λ n. rw (count-touched (has_socket n) key now p.sessions (λ s. refl)) (h.sockets n);
  once = h.once;
  fresh = h.fresh;
  keys = λ k. rw (count-touched (has_session_key k) key now p.sessions (λ s. refl)) (h.keys k);
}

count-closed :
    (n m : ℕ) (live : List ℕ)
    → count (is_socket n) (close_socket m live) ≡ (if n == m then 0 else count (is_socket n) live)
unfolding close_socket
count-closed n m [] = ground arith
count-closed n m (k ∷ ks) = ground (arith, count-closed n m ks)

count-opened :
    (n m : ℕ) (os : List Opening)
    → count (opens n) (delete_where (opens m) os) ≡ (if n == m then 0 else count (opens n) os)
unfolding delete_where
count-opened n m [] = ground arith
count-opened n m (o ∷ os) = ground (arith, count-opened n m os)

count-idle :
    (now max_idle : ℕ) (q : Session → Bool) (ss : List Session) (live : List ℕ)
    → count q (drop_idle now max_idle ss live).0 ≤ count q ss
unfolding drop_idle
count-idle now max_idle q [] live = omega arith
count-idle now max_idle q (s ∷ ss) live = ground (arith, count-idle now max_idle q ss live)

idle-balance :
    (now max_idle n : ℕ) (ss : List Session) (live : List ℕ)
    → count (is_socket n) live ≤ 1
    → count (has_socket n) ss ≤ count (is_socket n) live
    → count (is_socket n) (drop_idle now max_idle ss live).1 + count (has_socket n) ss
      ≡ count (is_socket n) live + count (has_socket n) (drop_idle now max_idle ss live).0
unfolding drop_idle
idle-balance now max_idle n [] live once le = omega arith
idle-balance now max_idle n (s ∷ ss) live once le = ground (
  arith,
  idle-balance now max_idle n ss live,
  count-closed n s.socket (drop_idle now max_idle ss live).1,
  count-idle now max_idle (has_socket n) ss live,
)

find_session-IsSound :
    (now : ℕ) (key : String) (p : Proxy) → IsSound p → IsSound (find_session now key p).1
unfolding find_session
find_session-IsSound now key p h = elim (Option-cases (first (has_session_key key) p.sessions)) [
  | inl e ↦ rw (find_session, e) h
  | inr (s, e) ↦ rw (find_session, e) (touched-IsSound key now p h)
]

touch_session-IsSound :
    (now : ℕ) (key : String) (socket : ℕ) (p : Proxy)
    → IsSound p
    → IsSound (touch_session now key socket p)
unfolding touch_session
touch_session-IsSound now key socket p h =
    elim (Option-cases (first (has_session_key key) p.sessions)) [
      | inl e ↦ rw (touch_session, e) h
      | inr (s, e) ↦ elim (Bool-cases (s.socket == socket)) [
        | inl same ↦ rw (touch_session, e, same) (touched-IsSound key now p h)
        | inr other ↦ rw (touch_session, e, other) h
      ]
    ]

-- The socket of a call that has not published has no other holder.
opening-once :
    (n : ℕ) (p : Proxy) (o : Opening)
    → IsSound p
    → first (opens n) p.opening ≡ some o
    → (count (opens n) p.opening ≡ 1)
      × (count (has_socket n) p.sessions ≡ 0)
      × (count (is_socket n) p.live ≡ 1)
opening-once n p o h found =
    let here =
      first-count (opens n) (opens n) p.opening o found (first-holds (opens n) p.opening o found) in
    ground (arith, here, h.sockets n, h.once n)

publish_session-IsSound :
    (now : ℕ) (o : Opening) (p : Proxy)
    → IsSound p
    → first (opens o.socket) p.opening ≡ some o
    → IsSound (publish_session now o p).1
unfolding publish_session
publish_session-IsSound now o p h found =
    let (one, none_has, live) = opening-once o.socket p o h found in
    elim (Option-cases (first (has_session_key o.key) p.sessions)) [
      | inl e ↦
          rw (publish_session, e)
            (record {
              sockets = λ n. ground (
                arith,
                h.sockets n,
                count-opened n o.socket p.opening,
                ==_iff n o.socket,
                ==_iff o.socket n,
                one,
                none_has,
                live,
              );
              once = h.once;
              fresh = h.fresh;
              keys = λ k. ground (
                arith,
                h.keys k,
                first-none (has_session_key o.key) p.sessions e,
                eq_iff o.key k,
              );
            })
      | inr (s, e) ↦
          rw (publish_session, e)
            (record {
              sockets = λ n. ground (
                arith,
                h.sockets n,
                count-opened n o.socket p.opening,
                count-closed n o.socket p.live,
                ==_iff n o.socket,
                one,
                none_has,
                live,
              );
              once = λ n. ground (arith, h.once n, count-closed n o.socket p.live);
              fresh = λ n l. ground (arith, h.fresh n, count-closed n o.socket p.live);
              keys = h.keys;
            })
    ]

cleanup-IsSound :
    (now max_idle : ℕ) (p : Proxy) → IsSound p → IsSound (cleanup_idle_sessions now max_idle p)
unfolding cleanup_idle_sessions
cleanup-IsSound now max_idle p h =
    let balance = λ (n : ℕ).
      idle-balance now max_idle n p.sessions p.live (h.once n) (omega (arith, h.sockets n)) in
    let fewer = λ (n : ℕ). count-idle now max_idle (has_socket n) p.sessions p.live in
    record {
      sockets = λ n. omega (arith, h.sockets n, balance n);
      once = λ n. omega (arith, h.once n, balance n, fewer n);
      fresh = λ n l. omega (arith, h.fresh n l, balance n, fewer n);
      keys = λ k.
          omega (arith, h.keys k, count-idle now max_idle (has_session_key k) p.sessions p.live);
    }

open_socket-IsSound : (key : String) (p : Proxy) → IsSound p → IsSound (open_socket key p).1
unfolding open_socket
open_socket-IsSound key p h = record {
  sockets = λ n. ground (arith, h.sockets n);
  once = λ n. ground (arith, h.once n, h.fresh n);
  fresh = λ n l. ground (arith, h.fresh n);
  keys = h.keys;
}

Move-IsSound : {p q : Proxy} → Move p q → IsSound p → IsSound q
Move-IsSound (finds p now key) h = find_session-IsSound now key p h
Move-IsSound (listens p key) h = open_socket-IsSound key p h
Move-IsSound (publishes p now o found) h = publish_session-IsSound now o p h found
Move-IsSound (receives p now key socket) h = touch_session-IsSound now key socket p h
Move-IsSound (cleans p now max_idle) h = cleanup-IsSound now max_idle p h

no_sessions-IsSound : IsSound no_sessions
no_sessions-IsSound = record {
  sockets = λ n. omega arith;
  once = λ n. omega arith;
  fresh = λ n l. refl;
  keys = λ k. omega arith;
}

Moves-IsSound : {p q : Proxy} → Moves p q → IsSound p → IsSound q
Moves-IsSound (stays p) h = h
Moves-IsSound (moves r m) h = Move-IsSound m (Moves-IsSound r h)

-- However the goroutines of the proxy interleave, from the start: no external address has two
-- sessions, and a socket is live just if one session has it, or one call of sessionFor that has not
-- published it yet; so a call that was too late has closed its own.
pub Moves-sockets :
    (p : Proxy) (key : String) (n : ℕ)
    → Moves no_sessions p
    → (count (has_session_key key) p.sessions ≤ 1)
      × (count (is_socket n) p.live ≡ count (has_socket n) p.sessions + count (opens n) p.opening)
      × (count (is_socket n) p.live ≤ 1)
Moves-sockets p key n r =
    let h = Moves-IsSound r no_sessions-IsSound in (h.keys key, h.sockets n, h.once n)
