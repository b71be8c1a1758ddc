-- ===== src/Peer/Manager/Outcome.antt =====
-- What AddPeer has done when it returns a registration.
use shuosc_network_server_ba.Common.{
  ℕ, ◌<◌, String, ◌≡◌, refl, sym, ◌∙◌, ap, false, Option, none, some, arith, count, first, leb,
}
use shuosc_network_server_ba.Common.Text.{Text}
use shuosc_network_server_ba.Model.{Peer}
use shuosc_network_server_ba.World.{
  World, Db, Env, WgConfig, Error, Result, ok, pure, fail, gets, or_fail, exec, configure_device,
}
use shuosc_network_server_ba.World.Rules.{Same, Same-refl}
use shuosc_network_server_ba.World.Triples.{
  Triple, After, Triple-bind, Triple-on_error, Triple-ok, Triple-exec, Triple-configure,
}
use shuosc_network_server_ba.World.Gates.{
  gate-query, gate-rows, gate-check, gate-lift, Triple-given, Triple-weaken,
}
use shuosc_network_server_ba.Peer.Ipam.{Ipam, allocate}
use shuosc_network_server_ba.Peer.Manager.{
  PeerRegistration, admit, inactive, max_peers_of, key_refused, refuse, allocate_ip, take_address,
  install, persist, add_peer, registration,
}
use shuosc_network_server_ba.Store.Users.Find.{find_user_by_id, has_user_id}
use shuosc_network_server_ba.Store.Peers.{
  find_active_by_user_id, find_by_public_key, count_active_by_user_id, has_key, is_active_of,
  create, activate, insert_peer, set_peer, activated, NewPeer,
}

-- The tests that AddPeer has passed.
pub record Admitted (env : Env) (u : World) (user_id : String) (key : ℕ) (uid : ℕ)
    (existing : Option Peer) : Type 0 where
  pub parsed : env.parse_uuid user_id ≡ some uid
  pub active : inactive (first (has_user_id uid) u.db.users) ≡ false
  pub below :
      count (is_active_of uid) u.db.peers < max_peers_of (first (has_user_id uid) u.db.users)
  pub row : existing ≡ first (has_key (env.key_text key)) u.db.peers
  pub free_key : key_refused uid existing ≡ none

below_limit : (a b c : ℕ) (m : ℕ) → leb m a ≡ false → a ≡ b → m ≡ c → b < c
below_limit a b c m h e f = ground arith

parsed_some : {A : Type 0} (o : Option A) (e : Error) (a : A) → or_fail o e ≡ ok a → o ≡ some a
parsed_some none e a h = ground arith
parsed_some (some b) e a h = ground arith

refuse-Triple :
    (u : World) (o : Option Error)
    → Triple (Same u) (refuse o) (λ _ w. (o ≡ none) × Same u w) (λ w. Unit {0})
unfolding pure fail
refuse-Triple u none = record { at = λ w s. (refl, s) }
refuse-Triple u (some e) = record { at = λ w s. tt }

admitted :
    (env : Env) (u : World) (user_id : String) (key : ℕ) (uid : ℕ) (existing : Option Peer)
    (w : World)
    → Admitted env u user_id key uid existing
    → Same u w
    → After {A = ℕ × Option Peer}
        (λ a v. Admitted env u user_id key a.0 a.1 × Same u v)
        (λ _. Unit {0})
        (pure {A = ℕ × Option Peer} (uid, existing) w).0
        (pure {A = ℕ × Option Peer} (uid, existing) w).1
unfolding pure
admitted env u user_id key uid existing w a s = (a, s)

module _ (u : World) (env : Env) (user_id : String) (key : ℕ) where
  admit-Triple :
      Triple
        (Same u)
        (admit env user_id key)
        (λ a w. Admitted env u user_id key a.0 a.1 × Same u w)
        (λ w. Unit {0})
  unfolding admit find_user_by_id find_active_by_user_id find_by_public_key count_active_by_user_id
  admit-Triple =
      gate-lift u _ (λ w s. tt) _ _ _
        λ uid parsed.
          gate-query u _ (λ w s. tt) _ _ _
            λ user found.
              gate-check u _ (λ w s. tt) _ _ _ _
                λ active.
                  gate-query u _ (λ w s. tt) _ _ _
                    λ n counted.
                      gate-check u _ (λ w s. tt) _ _ _ _
                        λ below.
                          gate-rows u _ (λ w s. tt) _ _ _
                            λ peers listed.
                              gate-check u _ (λ w s. tt) _ _ _ _
                                λ other.
                                  gate-query u _ (λ w s. tt) _ _ _
                                    λ existing row.
                                      Triple-bind _ _ _ _ _ _
                                        (refuse-Triple u (key_refused uid existing))
                                        λ _. record {
                                          at = λ w h.
                                              admitted env u user_id key uid existing w
                                                (record {
                                                  parsed = parsed_some _ _ _ parsed;
                                                  active = ap inactive (sym found) ∙ active;
                                                  below =
                                                      below_limit _ _ _ _ below counted
                                                        (ap max_peers_of found);
                                                  row = row;
                                                  free_key = h.0;
                                                })
                                                h.1;
                                        }

abbrev pub new_row : Env → ℕ → ℕ → Text → NewPeer
new_row env uid key ip = record {
  user_id = uid;
  public_key = env.key_text key;
  assigned_ip = ip;
  status = "active";
  last_seen = none;
}

-- The row that AddPeer writes.
abbrev pub Written : Env → ℕ → Option Peer → ℕ → Text → ℕ → Db → Db → Type 0
Written env uid none key ip now db db' =
    (row : Peer) × (insert_peer (new_row env uid key ip) now db ≡ ok (row, db'))
Written env uid (some p) key ip now db db' = set_peer p.id (activated ip) now db ≡ ok (tt, db')

-- The device is another, and the address of the allocation is taken.
record Started (u : World) (ip : Text) (w : World) : Type 0 where
  db : w.db ≡ u.db
  now : w.now ≡ u.now
  ipam : allocate u.ipam ≡ some (ip, w.ipam)

-- All that AddPeer has done.
pub record Installed (env : Env) (u : World) (uid : ℕ) (existing : Option Peer) (key : ℕ)
    (ip : Text) (w : World) : Type 0 where
  pub ipam : allocate u.ipam ≡ some (ip, w.ipam)
  pub db : Written env uid existing key ip u.now u.db w.db

started :
    (u w : World) (r : Option (Text × Ipam))
    → Same u w
    → allocate w.ipam ≡ r
    → After (Started u) (λ _. Unit {0}) (take_address r w).0 (take_address r w).1
unfolding take_address
started u w none s e = tt
started u w (some (ip, i)) s e = record {
  db = s.db;
  now = s.now;
  ipam = ap allocate (sym s.ipam) ∙ e;
}

allocate_ip-Started : (u : World) → Triple (Same u) allocate_ip (Started u) (λ _. Unit {0})
unfolding allocate_ip
allocate_ip-Started u = record { at = λ w s. started u w (allocate w.ipam) s refl }

configure-Started :
    (u : World) (ip : Text) (env : Env) (cfg : WgConfig)
    → Triple (Started u ip) (configure_device env cfg) (λ _. Started u ip) (λ _. Unit {0})
configure-Started u ip env cfg =
    Triple-configure env cfg (Started u ip) (λ _. Unit) (λ _. Started u ip) (λ w w' h s. tt)
      λ w w' h e o. record {
        db = o.db ∙ h.db;
        now = o.now ∙ h.now;
        ipam = h.ipam ∙ ap (λ i. some (ip, i)) (sym o.ipam);
      }

module _ {A : Type 0} (u : World) (ip : Text) (f : ℕ → Db → Result (A × Db)) where
  exec-Started :
      Triple
        (Started u ip)
        (exec f)
        (λ a w. (allocate u.ipam ≡ some (ip, w.ipam)) × (f u.now u.db ≡ ok (a, w.db)))
        (λ _. Unit {0})
  exec-Started =
      Triple-exec f (Started u ip) (λ _. Unit) _ (λ w w' h s. tt)
        λ w w' a h e o. (
          h.ipam ∙ ap (λ i. some (ip, i)) (sym o.ipam),
          ap (λ n. f n u.db) (sym h.now) ∙ ap (f w.now) (sym h.db) ∙ e,
        )

pure-keeps : {A : Type 0} (a : A) (P : World → Type 0) → Triple P (pure a) (λ _. P) (λ _. Unit {0})
unfolding pure
pure-keeps a P = record { at = λ w h. h }

persist-Installed :
    (u : World) (env : Env) (uid : ℕ) (existing : Option Peer) (key : ℕ) (ip : Text)
    → Triple
        (Started u ip)
        (persist env uid existing key ip)
        (λ _. Installed env u uid existing key ip)
        (λ _. Unit {0})
unfolding persist activate create
persist-Installed u env uid none key ip =
    Triple-bind _ _ _ _ _ _ (exec-Started u ip (insert_peer _))
      λ row. record { at = λ w h. (pure-keeps _ _).at w (record { ipam = h.0; db = (row, h.1) }) }
persist-Installed u env uid (some p) key ip =
    Triple-bind _ _ _ _ _ _ (exec-Started u ip (set_peer p.id (activated ip)))
      λ t. record { at = λ w h. (pure-keeps _ _).at w (record { ipam = h.0; db = h.1 }) }

registration-Installed :
    (env : Env) (u : World) (uid : ℕ) (existing : Option Peer) (key : ℕ) (text : String) (ip : Text)
    → Triple
        (Installed env u uid existing key ip)
        (registration env text ip false)
        (λ r w. Installed env u uid existing key r.assigned_ip w)
        (λ _. Unit {0})
unfolding registration gets
registration-Installed env u uid existing key text ip = record { at = λ w h. h }

install-Installed :
    (u : World) (env : Env) (uid : ℕ) (existing : Option Peer) (key : ℕ)
    → Triple
        (Same u)
        (install env uid existing key)
        (λ r w. Installed env u uid existing key r.assigned_ip w)
        (λ _. Unit {0})
unfolding install
install-Installed u env uid existing key =
    Triple-bind _ _ _ (Started u) _ _ (allocate_ip-Started u) λ ip.
      Triple-bind _ _ _ (λ _. Started u ip) _ _
        (Triple-on_error _ _ _ _ (λ _. Unit) _ (configure-Started u ip env _) (λ w h. tt))
        λ _.
          Triple-bind _ _ _ (λ _. Installed env u uid existing key ip) _ _
            (Triple-on_error _ _ _ _ (λ _. Unit) _ (persist-Installed u env uid existing key ip)
              (λ w h. tt))
            λ k. registration-Installed env u uid existing key k ip

-- The two together.
pub record Added (env : Env) (u : World) (user_id : String) (key : ℕ) (r : PeerRegistration)
    (w : World) : Type 0 where
  pub uid : ℕ
  pub existing : Option Peer
  pub admitted : Admitted env u user_id key uid existing
  pub installed : Installed env u uid existing key r.assigned_ip w

add_peer-Triple :
    (u : World) (env : Env) (user_id : String) (key : ℕ)
    → Triple (Same u) (add_peer env user_id key) (Added env u user_id key) (λ _. Unit {0})
unfolding add_peer
add_peer-Triple u env user_id key = Triple-bind _ _ _ _ _ _ (admit-Triple u env user_id key) λ a.
    Triple-given _ _ _ _ _ λ admitted.
      Triple-weaken _ _ _ _ _
        (λ r w h. record { uid = a.0; existing = a.1; admitted = admitted; installed = h })
        (install-Installed u env a.0 a.1 key)

-- When AddPeer returns a registration, every test of its body held in the world of the call: the id
-- was that of an active user with fewer active peers than its limit, and the key was nobody's or that
-- of a disconnected row of this user. Its address is the one that the allocator gave, and the
-- database differs by the one row that was activated or inserted.
pub add_peer-ok-Added :
    (u : World) (env : Env) (user_id : String) (key : ℕ) (r : PeerRegistration)
    → (add_peer env user_id key u).0 ≡ ok r
    → Added env u user_id key r (add_peer env user_id key u).1
add_peer-ok-Added u env user_id key r returned =
    Triple-ok _ _ _ _ (add_peer-Triple u env user_id key) u r (Same-refl u) returned
