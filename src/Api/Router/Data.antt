-- ===== src/Api/Router/Data.antt =====
-- Conditions on what the database and the allocator hold: every call but a statement keeps them, and
-- a transaction does if its body does.
use shuosc_network_server_ba.Common.{ℕ, List, ◌≡◌, refl}
use shuosc_network_server_ba.World.{
  World, Db, Env, WgConfig, Error, Result, ok, err, Action, pure, ◌>>=◌, call, query, query_rows,
  exec, read_device, configure_device, db_failure,
}
use shuosc_network_server_ba.World.Rules.{
  Keeps, Same, query-Same, query_rows-Same, read_device-Same, call-Same,
}
use shuosc_network_server_ba.World.Triples.{After, Triple-exec, Triple-configure}
use shuosc_network_server_ba.Store.Users.{committed, rolled_back}
use shuosc_network_server_ba.Auth.{map_error}

pub After-same :
    {A : Type 0} (P : World → Type 0) (r : Result A) (w : World) → After (λ _. P) P r w → P w
After-same P (ok a) w h = h
After-same P (err e) w h = h

pub Keeps-map_error :
    {A : Type 0} (P : World → Type 0) (f : Error → Error) (m : Action A)
    → Keeps P m
    → Keeps P (map_error f m)
unfolding map_error
Keeps-map_error P f m k = record { at = λ w h. k.at w h }

module _ (P : World → Type 0)
    (closed : (v w : World) → P v → w.db ≡ v.db → w.ipam ≡ v.ipam → P w) where
  Same-closed : (v w : World) → P v → Same v w → P w
  Same-closed v w h s = closed v w h s.db s.ipam

  pub Keeps-query_data : {A : Type 0} (f : Db → A) → Keeps P (query f)
  Keeps-query_data f = record { at = λ w h. Same-closed w _ h (query-Same f w) }

  pub Keeps-query_rows_data : {A : Type 0} (f : Db → List A) → Keeps P (query_rows f)
  Keeps-query_rows_data f = record { at = λ w h. Same-closed w _ h (query_rows-Same f w) }

  pub Keeps-call_data : (e : Error) → Keeps P (call e)
  Keeps-call_data e = record { at = λ w h. Same-closed w _ h (call-Same e w) }

  pub Keeps-read_device_data : Keeps P read_device
  Keeps-read_device_data = record { at = λ w h. Same-closed w _ h (read_device-Same w) }

  pub Keeps-configure_data : (env : Env) (cfg : WgConfig) → Keeps P (configure_device env cfg)
  Keeps-configure_data env cfg = record {
    at = λ w h. After-same P _ _ (
        (Triple-configure env cfg P P (λ _. P) Same-closed
            (λ v v' k e o. closed v v' k o.db o.ipam)).at
          w h);
  }

  -- A statement keeps the condition if what it writes does.
  pub Keeps-exec_data :
      {A : Type 0} (f : ℕ → Db → Result (A × Db))
      → ((w : World) (a : A) (db : Db) → P w → f w.now w.db ≡ ok (a, db) → P (record w { db = db }))
      → Keeps P (exec f)
  Keeps-exec_data f writes = record {
    at = λ w h. After-same P _ _ (
        (Triple-exec f P P (λ _. P) Same-closed
            (λ v v' a k e o. closed _ v' (writes v a v'.db k e) refl o.ipam)).at
          w h);
  }

  module _ (back : (v w : World) → P v → P w → P (record w { db = v.db })) {A : Type 0} where
    rolled_back-data : (v w : World) (r : Result A) → P v → P w → P (rolled_back v.db r w).1
    unfolding rolled_back
    rolled_back-data v w (ok a) h k = k
    rolled_back-data v w (err e) h k = back v _ h (Same-closed w _ k (call-Same db_failure w))

    pub Keeps-committed :
        (body : Action A)
        → Keeps P (body >>= λ a. call db_failure >>= λ _. pure a)
        → Keeps P (committed body)
    unfolding committed
    Keeps-committed body k = record { at = λ w h. rolled_back-data w _ _ h (k.at w h) }
