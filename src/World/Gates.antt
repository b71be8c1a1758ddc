-- ===== src/World/Gates.antt =====
-- The tests at the start of an operation, one after another: each leaves the world as it was but for
-- the schedule of faults, and says something to the steps behind it.
use shuosc_network_server_ba.Common.{
  ◌≡◌, refl, ◌∙◌, ap, subst, List, Bool, true, false, if◌then◌else◌,
}
use shuosc_network_server_ba.World.{
  World, Db, Error, Result, ok, err, Action, pure, fail, lift, ◌>>=◌, check, query, rows_read,
  query_rows,
}
use shuosc_network_server_ba.World.Rules.{
  Same, Same-trans, query-Same, query_rows-Same, query-ok, query_rows-ok,
}
use shuosc_network_server_ba.World.Triples.{Triple, After, Triple-bind}

module _ {A : Type 0} (u : World) (exc : World → Type 0)
    (out : (w : World) → Same u w → exc w) where
  query-After :
      (f : Db → A) (r : Result A) (w w' : World)
      → Same u w
      → query f w ≡ (r, w')
      → After (λ a v. (a ≡ f u.db) × Same u v) exc r w'
  query-After f (ok a) w w' s e =
      let (got, same) = query-ok f w w' a e in (got ∙ ap f s.db, Same-trans s same)
  query-After f (err x) w w' s e =
      out w' (Same-trans s (subst (Same w) (ap (λ r. r.1) e) (query-Same f w)))

  lift-After :
      (r r' : Result A) (w : World)
      → Same u w
      → r ≡ r'
      → After (λ a v. (r ≡ ok a) × Same u v) exc r' w
  lift-After r (ok a) w s e = (e, s)
  lift-After r (err x) w s e = out w s

  pub last-lift : (r : Result A) → Triple (Same u) (lift r) (λ a v. (r ≡ ok a) × Same u v) exc
  unfolding lift
  last-lift r = record { at = λ w s. lift-After r r w s refl }

  pub last-query : (f : Db → A) → Triple (Same u) (query f) (λ a v. (a ≡ f u.db) × Same u v) exc
  last-query f = record { at = λ w s. query-After f (query f w).0 w (query f w).1 s refl }

module _ {A B : Type 0} (u : World) (exc : World → Type 0)
    (out : (w : World) → Same u w → exc w) where
  pub gate-query :
      (f : Db → A) (k : A → Action B) (post : B → World → Type 0)
      → ((a : A) → a ≡ f u.db → Triple (Same u) (k a) post exc)
      → Triple (Same u) (query f >>= k) post exc
  gate-query f k post h =
      Triple-bind (query f) k _ (λ a v. (a ≡ f u.db) × Same u v) post exc
        (record { at = λ w s. query-After u exc out f (query f w).0 w (query f w).1 s refl })
        λ a. record { at = λ w e. (h a e.0).at w e.1 }

  pub gate-lift :
      (r : Result A) (k : A → Action B) (post : B → World → Type 0)
      → ((a : A) → r ≡ ok a → Triple (Same u) (k a) post exc)
      → Triple (Same u) (lift r >>= k) post exc
  unfolding lift
  gate-lift r k post h =
      Triple-bind (lift r) k _ (λ a v. (r ≡ ok a) × Same u v) post exc
        (record { at = λ w s. lift-After u exc out r r w s refl })
        λ a. record { at = λ w e. (h a e.0).at w e.1 }

module _ {E : Type 0} (u : World) (exc : World → Type 0)
    (out : (w : World) → Same u w → exc w) where
  rows-After :
      (f : Db → List E) (r : Result (List E)) (w w' : World)
      → Same u w
      → query_rows f w ≡ (r, w')
      → After
          (λ a v. ((faults : List Bool) × (a ≡ (rows_read faults (f u.db)).0)) × Same u v)
          exc
          r
          w'
  rows-After f (ok a) w w' s e =
      let ((faults, got), same) = query_rows-ok f w w' a e in
      ((faults, got ∙ ap (λ d. (rows_read faults (f d)).0) s.db), Same-trans s same)
  rows-After f (err x) w w' s e =
      out w' (Same-trans s (subst (Same w) (ap (λ r. r.1) e) (query_rows-Same f w)))

  -- The rows that come are the first ones of the query.
  pub gate-rows :
      {B : Type 0} (f : Db → List E) (k : List E → Action B) (post : B → World → Type 0)
      → ((a : List E)
          → (faults : List Bool) × (a ≡ (rows_read faults (f u.db)).0)
          → Triple (Same u) (k a) post exc)
      → Triple (Same u) (query_rows f >>= k) post exc
  gate-rows f k post h =
      Triple-bind (query_rows f) k _
        (λ a v. ((faults : List Bool) × (a ≡ (rows_read faults (f u.db)).0)) × Same u v) post exc
        (record { at = λ w s. rows-After f (query_rows f w).0 w (query_rows f w).1 s refl })
        λ a. record { at = λ w e. (h a e.0).at w e.1 }

module _ (u : World) (exc : World → Type 0) (out : (w : World) → Same u w → exc w) where
  check-After :
      (b b' : Bool) (x : Error) (w : World)
      → Same u w
      → b ≡ b'
      → After (λ _ v. (b ≡ false) × Same u v) exc (check b' x w).0 (check b' x w).1
  unfolding pure fail
  check-After b true x w s e = out w s
  check-After b false x w s e = (e, s)

module _ {B : Type 0} (u : World) (exc : World → Type 0)
    (out : (w : World) → Same u w → exc w) where
  pub gate-check :
      (b : Bool) (x : Error) (k : Unit {0} → Action B) (post : B → World → Type 0)
      → (b ≡ false → Triple (Same u) (k tt) post exc)
      → Triple (Same u) (check b x >>= k) post exc
  gate-check b x k post h =
      Triple-bind (check b x) k _ (λ _ v. (b ≡ false) × Same u v) post exc
        (record { at = λ w s. check-After u exc out b b x w s refl })
        λ a. record { at = λ w e. (h e.0).at w e.1 }

-- A condition on no world is a hypothesis, and what an operation ensures can be weakened.
pub Triple-given :
    {A : Type 0} (F : Type 0) (pre : World → Type 0) (m : Action A) (post : A → World → Type 0)
    (exc : World → Type 0)
    → (F → Triple pre m post exc)
    → Triple (λ w. F × pre w) m post exc
Triple-given F pre m post exc k = record { at = λ w h. (k h.0).at w h.1 }

weakened :
    {A : Type 0} (post post' : A → World → Type 0) (exc : World → Type 0) (r : Result A) (w : World)
    → ((a : A) → post a w → post' a w)
    → After post exc r w
    → After post' exc r w
weakened post post' exc (ok a) w k h = k a h
weakened post post' exc (err e) w k h = h

pub Triple-weaken :
    {A : Type 0} (pre : World → Type 0) (m : Action A) (post post' : A → World → Type 0)
    (exc : World → Type 0)
    → ((a : A) (w : World) → post a w → post' a w)
    → Triple pre m post exc
    → Triple pre m post' exc
Triple-weaken pre m post post' exc k t = record {
  at = λ w h. weakened post post' exc (m w).0 (m w).1 (λ a. k a (m w).1) (t.at w h);
}

pub Triple-if :
    {A : Type 0} (b : Bool) (pre : World → Type 0) (m n : Action A) (post : A → World → Type 0)
    (exc : World → Type 0)
    → Triple pre m post exc
    → Triple pre n post exc
    → Triple pre (if b then m else n) post exc
Triple-if true pre m n post exc s t = s
Triple-if false pre m n post exc s t = t
