-- ===== src/Peer/Manager/Atomic.antt =====
-- What AddPeer leaves behind when it fails.
use shuosc_network_server_ba.Common.{
  ℕ, String, ◌≡◌, refl, ◌∙◌, ap, false, Option, none, some, arith,
}
use shuosc_network_server_ba.Common.Text.{Text}
use shuosc_network_server_ba.Model.{Peer}
use shuosc_network_server_ba.World.{
  World, Db, Env, WgConfig, Error, Result, err, pure, gets, modify, ◌>>=◌, ◌>>◌, call, exec,
  configure_device, ignore,
}
use shuosc_network_server_ba.World.Rules.{Keeps, Same, Same-refl}
use shuosc_network_server_ba.World.Triples.{
  Triple, After, Triple-bind, Triple-keeps, Triple-on_error, Triple-err, Triple-exec,
}
use shuosc_network_server_ba.Peer.Ipam.{Ipam, allocate, release}
use shuosc_network_server_ba.Peer.Ipam.Allocation.{release-allocate}
use shuosc_network_server_ba.Peer.Manager.{
  allocate_ip, release_ip, install, persist, take_address, add_peer, registration,
}
use shuosc_network_server_ba.Peer.Manager.Admission.{admit-Same}
use shuosc_network_server_ba.Store.Peers.{create, activate, insert_peer, set_peer, activated}

-- The database, the allocator and the server's key are as before.
pub record Kept (u w : World) : Type 0 where
  pub db : w.db ≡ u.db
  pub ipam : w.ipam ≡ u.ipam
  pub server_key : w.server_key ≡ u.server_key

-- In between: an address more is in use, and to release it gives the old allocator.
record Holding (u : World) (ip : Text) (w : World) : Type 0 where
  db : w.db ≡ u.db
  ipam : release ip w.ipam ≡ u.ipam
  server_key : w.server_key ≡ u.server_key

configure-Holding :
    (u : World) (ip : Text) (env : Env) (cfg : WgConfig)
    → Keeps (Holding u ip) (configure_device env cfg)
unfolding configure_device call ◌>>=◌
configure-Holding u ip env cfg = record { at = λ w h. ground arith }

release-Holding : (u : World) (ip : Text) (w : World) → Holding u ip w → Kept u (release_ip ip w).1
unfolding release_ip modify
release-Holding u ip w h = record { db = h.db; ipam = h.ipam; server_key = h.server_key }

-- The allocation: without a free address nothing changes.
took :
    (u w : World) (r : Option (Text × Ipam))
    → Same u w
    → allocate w.ipam ≡ r
    → After (Holding u) (Kept u) (take_address r w).0 (take_address r w).1
unfolding take_address
took u w none s e = record { db = s.db; ipam = s.ipam; server_key = s.server_key }
took u w (some (ip, i)) s e = record {
  db = s.db;
  ipam = release-allocate w.ipam i ip e ∙ s.ipam;
  server_key = s.server_key;
}

allocate_ip-Triple : (u : World) → Triple (Same u) allocate_ip (Holding u) (Kept u)
unfolding allocate_ip
allocate_ip-Triple u = record { at = λ w s. took u w (allocate w.ipam) s refl }

-- A statement that fails leaves the database as it was.
exec-Holding :
    {A : Type 0} (u : World) (ip : Text) (f : ℕ → Db → Result (A × Db))
    → Triple (Holding u ip) (exec f) (λ a w. Unit {0}) (Holding u ip)
exec-Holding u ip f =
    Triple-exec f (Holding u ip) (Holding u ip) (λ a w. Unit)
      (λ w w' h s. record {
        db = s.db ∙ h.db;
        ipam = ap (release ip) s.ipam ∙ h.ipam;
        server_key = s.server_key ∙ h.server_key;
      })
      (λ w w' a h e o. tt)

pure-Triple :
    {A : Type 0} (a : A) (exc : World → Type 0)
    → Triple (λ w. Unit {0}) (pure a) (λ a w. Unit {0}) exc
unfolding pure
pure-Triple a exc = record { at = λ w h. tt }

persist-Triple :
    (u : World) (env : Env) (uid : ℕ) (existing : Option Peer) (key : ℕ) (ip : Text)
    → Triple (Holding u ip) (persist env uid existing key ip) (λ a w. Unit {0}) (Holding u ip)
unfolding persist activate create
persist-Triple u env uid none key ip =
    Triple-bind _ _ _ (λ a w. Unit) _ _ (exec-Holding u ip (insert_peer _)) (λ a. pure-Triple _ _)
persist-Triple u env uid (some p) key ip =
    Triple-bind _ _ _ (λ a w. Unit) _ _ (exec-Holding u ip (set_peer p.id (activated ip)))
      (λ a. pure-Triple _ _)

registration-Triple :
    (env : Env) (key : String) (ip : Text) (exc : World → Type 0)
    → Triple (λ w. Unit {0}) (registration env key ip false) (λ a w. Unit {0}) exc
unfolding registration gets
registration-Triple env key ip exc = record { at = λ w h. tt }

clean_up-Kept :
    (u : World) (env : Env) (cfg : WgConfig) (ip : Text) (w : World)
    → Holding u ip w
    → Kept u ((ignore (configure_device env cfg) >> release_ip ip) w).1
unfolding ignore ◌>>=◌
clean_up-Kept u env cfg ip w h = release-Holding u ip _ ((configure-Holding u ip env cfg).at w h)

install-Triple :
    (u : World) (env : Env) (uid : ℕ) (existing : Option Peer) (key : ℕ)
    → Triple (Same u) (install env uid existing key) (λ a w. Unit {0}) (Kept u)
unfolding install
install-Triple u env uid existing key =
    Triple-bind _ _ _ (Holding u) _ _ (allocate_ip-Triple u) λ ip.
      Triple-bind _ _ _ (λ _. Holding u ip) _ _
        (Triple-on_error _ _ _ _ (Holding u ip) _
          (Triple-keeps _ _ _ (configure-Holding u ip env _) (λ w h. h)) (release-Holding u ip))
        λ _.
          Triple-bind _ _ _ (λ _ _. Unit) _ _
            (Triple-on_error _ _ _ _ (Holding u ip) _ (persist-Triple u env uid existing key ip)
              (clean_up-Kept u env _ ip))
            λ k. registration-Triple env k ip _

add_peer-Triple :
    (u : World) (env : Env) (user_id : String) (key : ℕ)
    → Triple (Same u) (add_peer env user_id key) (λ a w. Unit {0}) (Kept u)
unfolding add_peer
add_peer-Triple u env user_id key =
    Triple-bind _ _ _ (λ _. Same u) _ _
      (Triple-keeps _ _ _ (admit-Same u env user_id key)
        (λ w s. record { db = s.db; ipam = s.ipam; server_key = s.server_key }))
      λ a. install-Triple u env a.0 a.1 key

-- Whatever step of AddPeer fails, the database, the address allocator and the server's key are as
-- they were before the call: an address that was taken is given back, and the device's failures, also
-- that of the removal on the way out, do not matter.
pub add_peer-error-Kept :
    (w : World) (env : Env) (user_id : String) (key : ℕ) (e : Error)
    → (add_peer env user_id key w).0 ≡ err e
    → Kept w (add_peer env user_id key w).1
add_peer-error-Kept w env user_id key e failed =
    Triple-err _ _ _ _ (add_peer-Triple w env user_id key) w e (Same-refl w) failed
