-- ===== src/World/Statements.antt =====
-- Statements one after another, and transactions, on the database alone.
use shuosc_network_server_ba.Common.{ℕ, ◌≡◌, refl, sym, ◌∙◌, ap}
use shuosc_network_server_ba.World.{World, Db, Result, ok, Action, exec}
use shuosc_network_server_ba.World.Rules.{Same}
use shuosc_network_server_ba.World.Triples.{Triple, Triple-exec}

-- The database and the clock at a point.
pub record AtPoint (time : ℕ) (d : Db) (w : World) : Type 0 where
  pub db : w.db ≡ d
  pub now : w.now ≡ time

pub Same-AtPoint : (u w : World) → Same u w → AtPoint u.now u.db w
Same-AtPoint u w s = record { db = s.db; now = s.now }

module _ {A : Type 0} (now : ℕ) (db : Db) (f : ℕ → Db → Result (A × Db)) where
  -- A statement that returns has written what it says of the database at the point.
  pub exec-AtPoint :
      Triple
        (AtPoint now db)
        (exec f)
        (λ a w. (db' : Db) × (f now db ≡ ok (a, db')) × AtPoint now db' w)
        (λ _. Unit {0})
  exec-AtPoint =
      Triple-exec f (AtPoint now db) (λ _. Unit) _ (λ w w' p s. tt)
        λ w w' a p e o. (
          w'.db,
          ap (λ n. f n db) (sym p.now) ∙ ap (f w.now) (sym p.db) ∙ e,
          record { db = refl; now = o.now ∙ p.now },
        )

pub Triple-from :
    {A : Type 0} (pre pre' : World → Type 0) (m : Action A) (post : A → World → Type 0)
    (exc : World → Type 0)
    → ((w : World) → pre' w → pre w)
    → Triple pre m post exc
    → Triple pre' m post exc
Triple-from pre pre' m post exc k t = record { at = λ w h. t.at w (k w h) }

module _ {A : Type 0} (u : World) (f : ℕ → Db → Result (A × Db)) where
  -- A statement behind tests.
  pub exec-Same : Triple (Same u) (exec f) (λ a w. f u.now u.db ≡ ok (a, w.db)) (λ _. Unit {0})
  exec-Same =
      Triple-exec f (Same u) (λ _. Unit) _ (λ w w' s t. tt)
        λ w w' a s e o. ap (λ n. f n u.db) (sym s.now) ∙ ap (f w.now) (sym s.db) ∙ e
