-- ===== src/World/Triples.antt =====
-- What an operation on the world ensures: one condition on the world and the result where it returns,
-- another on the world where it fails.
use shuosc_network_server_ba.Common.{
  ℕ, ◌≡◌, refl, subst, Bool, true, false, Option, none, some, List, [], ◌∷◌,
}
use shuosc_network_server_ba.World.{
  World, Db, Device, Env, WgConfig, Error, Result, ok, err, Action, continue, ◌>>=◌, call,
  next_fault, write_db, write_device, db_failure, wg_failure, exec, configure_device, on_error,
  after_error,
}
use shuosc_network_server_ba.World.Rules.{Keeps, Same}

abbrev pub After :
    {A : Type 0} → (A → World → Type 0) → (World → Type 0) → Result A → World → Type 0
After post exc (ok a) w = post a w
After post exc (err e) w = exc w

pub record Triple {A : Type 0} (pre : World → Type 0) (m : Action A) (post : A → World → Type 0)
    (exc : World → Type 0) : Type 0 where
  pub at : (w : World) → pre w → After post exc (m w).0 (m w).1

module _ {A B : Type 0} where
  After-continue :
      (r : Result A) (f : A → Action B) (w : World) (mid : A → World → Type 0)
      (post : B → World → Type 0) (exc : World → Type 0)
      → After mid exc r w
      → ((a : A) → Triple (mid a) (f a) post exc)
      → After post exc (continue r f w).0 (continue r f w).1
  After-continue (ok a) f w mid post exc h k = (k a).at w h
  After-continue (err e) f w mid post exc h k = h

  pub Triple-bind :
      (m : Action A) (f : A → Action B) (pre : World → Type 0) (mid : A → World → Type 0)
      (post : B → World → Type 0) (exc : World → Type 0)
      → Triple pre m mid exc
      → ((a : A) → Triple (mid a) (f a) post exc)
      → Triple pre (m >>= f) post exc
  unfolding ◌>>=◌
  Triple-bind m f pre mid post exc h k = record {
    at = λ w p. After-continue (m w).0 f (m w).1 mid post exc (h.at w p) k;
  }

module _ {A : Type 0} where
  pub After-both :
      (post : A → World → Type 0) (exc : World → Type 0) (r : Result A) (w : World)
      → ((a : A) → post a w)
      → exc w
      → After post exc r w
  After-both post exc (ok a) w h k = h a
  After-both post exc (err e) w h k = k

  -- An operation that keeps a condition ensures it in both cases.
  pub Triple-keeps :
      (m : Action A) (pre : World → Type 0) (exc : World → Type 0)
      → Keeps pre m
      → ((w : World) → pre w → exc w)
      → Triple pre m (λ a w. pre w) exc
  Triple-keeps m pre exc k imp = record {
    at = λ w h.
        After-both (λ a w. pre w) exc (m w).0 (m w).1 (λ a. k.at w h) (imp (m w).1 (k.at w h));
  }

  After-cleanup :
      (r : Result A) (cleanup : Action (Unit {0})) (w : World) (post : A → World → Type 0)
      (mid exc : World → Type 0)
      → After post mid r w
      → ((w : World) → mid w → exc (cleanup w).1)
      → After post exc (after_error r cleanup w).0 (after_error r cleanup w).1
  unfolding after_error
  After-cleanup (ok a) cleanup w post mid exc h k = h
  After-cleanup (err e) cleanup w post mid exc h k = k w h

  pub Triple-on_error :
      (m : Action A) (cleanup : Action (Unit {0})) (pre : World → Type 0)
      (post : A → World → Type 0) (mid exc : World → Type 0)
      → Triple pre m post mid
      → ((w : World) → mid w → exc (cleanup w).1)
      → Triple pre (on_error m cleanup) post exc
  unfolding on_error
  Triple-on_error m cleanup pre post mid exc h k = record {
    at = λ w p. After-cleanup (m w).0 cleanup (m w).1 post mid exc (h.at w p) k;
  }

  -- Where an operation failed, what it ensures of failures holds.
  pub Triple-err :
      (m : Action A) (pre : World → Type 0) (post : A → World → Type 0) (exc : World → Type 0)
      → Triple pre m post exc
      → (w : World) (e : Error) → pre w
      → (m w).0 ≡ err e
      → exc (m w).1
  Triple-err m pre post exc t w e h failed = subst (λ r. After post exc r (m w).1) failed (t.at w h)

  pub Triple-ok :
      (m : Action A) (pre : World → Type 0) (post : A → World → Type 0) (exc : World → Type 0)
      → Triple pre m post exc
      → (w : World) (a : A) → pre w
      → (m w).0 ≡ ok a
      → post a (m w).1
  Triple-ok m pre post exc t w a h returned =
      subst (λ r. After post exc r (m w).1) returned (t.at w h)

-- What a statement leaves alone.
pub record OnlyDb (w w' : World) : Type 0 where
  pub device : w'.device ≡ w.device
  pub ipam : w'.ipam ≡ w.ipam
  pub server_key : w'.server_key ≡ w.server_key
  pub now : w'.now ≡ w.now

-- What a configuration of the device leaves alone.
pub record OnlyDevice (w w' : World) : Type 0 where
  pub db : w'.db ≡ w.db
  pub ipam : w'.ipam ≡ w.ipam
  pub server_key : w'.server_key ≡ w.server_key
  pub now : w'.now ≡ w.now

module _ {A : Type 0} (f : ℕ → Db → Result (A × Db)) (pre exc : World → Type 0)
    (post : A → World → Type 0) (fails : (w w' : World) → pre w → Same w w' → exc w')
    (writes : (w w' : World) (a : A)
      → pre w
      → f w.now w.db ≡ ok (a, w'.db)
      → OnlyDb w w'
      → post a w') where
  written :
      (w : World) (faults : List Bool) (r : Result (A × Db))
      → pre w
      → f w.now w.db ≡ r
      → After post exc
          (write_db r (record w { faults = faults })).0
          (write_db r (record w { faults = faults })).1
  unfolding write_db
  written w faults (ok (a, db)) h e =
      writes w _ a h e (record { device = refl; ipam = refl; server_key = refl; now = refl })
  written w faults (err e) h same =
      fails w _ h (record { db = refl; device = refl; ipam = refl; server_key = refl; now = refl })

  exec_called :
      (w : World) (faults : List Bool)
      → pre w
      → After post exc
          (continue
            (next_fault db_failure faults w).0
            (λ _ v. write_db (f v.now v.db) v)
            (next_fault db_failure faults w).1).0
          (continue
            (next_fault db_failure faults w).0
            (λ _ v. write_db (f v.now v.db) v)
            (next_fault db_failure faults w).1).1
  unfolding next_fault
  exec_called w [] h = written w w.faults _ h refl
  exec_called w (true ∷ later) h =
      fails w _ h (record { db = refl; device = refl; ipam = refl; server_key = refl; now = refl })
  exec_called w (false ∷ later) h = written w later _ h refl

  -- A statement that fails changes nothing; otherwise it writes what `f` says.
  pub Triple-exec : Triple pre (exec f) post exc
  unfolding exec call ◌>>=◌
  Triple-exec = record { at = λ w h. exec_called w w.faults h }

module _ (env : Env) (cfg : WgConfig) (pre exc : World → Type 0) (post : Unit {0} → World → Type 0)
    (fails : (w w' : World) → pre w → Same w w' → exc w')
    (configures : (w w' : World)
      → pre w
      → env.configure cfg w.device ≡ some w'.device
      → OnlyDevice w w'
      → post tt w') where
  configured :
      (w : World) (faults : List Bool) (r : Option Device)
      → pre w
      → env.configure cfg w.device ≡ r
      → After post exc
          (write_device r (record w { faults = faults })).0
          (write_device r (record w { faults = faults })).1
  unfolding write_device
  configured w faults (some d) h e =
      configures w _ h e (record { db = refl; ipam = refl; server_key = refl; now = refl })
  configured w faults none h same =
      fails w _ h (record { db = refl; device = refl; ipam = refl; server_key = refl; now = refl })

  configure_called :
      (w : World) (faults : List Bool)
      → pre w
      → After post exc
          (continue
            (next_fault wg_failure faults w).0
            (λ _ v. write_device (env.configure cfg v.device) v)
            (next_fault wg_failure faults w).1).0
          (continue
            (next_fault wg_failure faults w).0
            (λ _ v. write_device (env.configure cfg v.device) v)
            (next_fault wg_failure faults w).1).1
  unfolding next_fault
  configure_called w [] h = configured w w.faults _ h refl
  configure_called w (true ∷ later) h =
      fails w _ h (record { db = refl; device = refl; ipam = refl; server_key = refl; now = refl })
  configure_called w (false ∷ later) h = configured w later _ h refl

  -- A configuration that fails changes nothing; otherwise the device is as the environment says.
  pub Triple-configure : Triple pre (configure_device env cfg) post exc
  unfolding configure_device call ◌>>=◌
  Triple-configure = record { at = λ w h. configure_called w w.faults h }
