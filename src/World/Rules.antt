-- ===== src/World/Rules.antt =====
-- Rules for operations on the world, one for each way to build one.
use shuosc_network_server_ba.Common.{
  ◌≡◌, refl, ap, subst, ◌∙◌, List, [], ◌∷◌, some, first, Bool, true, false, arith, if◌then◌else◌,
}
use shuosc_network_server_ba.World.{
  World, Db, Error, Result, ok, err, Action, pure, fail, lift, gets, continue, ◌>>=◌, check, call,
  query, read_device, rows_read, read_rows, query_rows,
}

-- `m` keeps `P`, whether it returns or fails.
pub record Keeps {A : Type 0} (P : World → Type 0) (m : Action A) : Type 0 where
  pub at : (w : World) → P w → P (m w).1

module _ {P : World → Type 0} where
  module _ {A : Type 0} where
    pub Keeps-pure : (a : A) → Keeps P (pure a)
    unfolding pure
    Keeps-pure a = record { at = λ w h. h }

    pub Keeps-fail : (e : Error) → Keeps P (fail {A = A} e)
    unfolding fail
    Keeps-fail e = record { at = λ w h. h }

    pub Keeps-lift : (r : Result A) → Keeps P (lift r)
    unfolding lift
    Keeps-lift r = record { at = λ w h. h }

    pub Keeps-gets : (f : World → A) → Keeps P (gets f)
    unfolding gets
    Keeps-gets f = record { at = λ w h. h }

    pub Keeps-if :
        (b : Bool) (m n : Action A) → Keeps P m → Keeps P n → Keeps P (if b then m else n)
    Keeps-if true m n k l = k
    Keeps-if false m n k l = l

  pub Keeps-check : (b : Bool) (e : Error) → Keeps P (check b e)
  Keeps-check true e = Keeps-fail e
  Keeps-check false e = Keeps-pure tt

  module _ {A B : Type 0} where
    Keeps-continue :
        (r : Result A) (f : A → Action B) (w : World)
        → ((a : A) → Keeps P (f a))
        → P w
        → P (continue r f w).1
    Keeps-continue (ok a) f w k h = (k a).at w h
    Keeps-continue (err e) f w k h = h

    pub Keeps-bind :
        (m : Action A) (f : A → Action B)
        → Keeps P m
        → ((a : A) → Keeps P (f a))
        → Keeps P (m >>= f)
    unfolding ◌>>=◌
    Keeps-bind m f k l = record { at = λ w h. Keeps-continue (m w).0 f (m w).1 l (k.at w h) }

-- Nothing but the schedule of faults changes.
pub record Same (w w' : World) : Type 0 where
  pub db : w'.db ≡ w.db
  pub device : w'.device ≡ w.device
  pub ipam : w'.ipam ≡ w.ipam
  pub server_key : w'.server_key ≡ w.server_key
  pub now : w'.now ≡ w.now

pub Same-refl : (w : World) → Same w w
Same-refl w = record { db = refl; device = refl; ipam = refl; server_key = refl; now = refl }

pub Same-trans : {u v w : World} → Same u v → Same v w → Same u w
Same-trans s t = record {
  db = t.db ∙ s.db;
  device = t.device ∙ s.device;
  ipam = t.ipam ∙ s.ipam;
  server_key = t.server_key ∙ s.server_key;
  now = t.now ∙ s.now;
}

pub call-Same : (e : Error) (w : World) → Same w (call e w).1
unfolding call
call-Same e w = ground arith

pub query-Same : {A : Type 0} (f : Db → A) (w : World) → Same w (query f w).1
unfolding query call ◌>>=◌ gets
query-Same f w = ground arith

pub read_rows-Same : {A : Type 0} (rows : List A) (w : World) → Same w (read_rows rows w).1
unfolding read_rows
read_rows-Same rows w = record {
  db = refl;
  device = refl;
  ipam = refl;
  server_key = refl;
  now = refl;
}

pub query_rows-Same : {A : Type 0} (f : Db → List A) (w : World) → Same w (query_rows f w).1
unfolding query_rows ◌>>=◌
query_rows-Same {A} f w = continued (query f w).0 (query f w).1 (query-Same f w)
  where
    continued : (r : Result (List A)) (v : World) → Same w v → Same w (continue r read_rows v).1
    continued (ok rows) v s = Same-trans s (read_rows-Same rows v)
    continued (err e) v s = s

pub read_device-Same : (w : World) → Same w (read_device w).1
unfolding read_device call ◌>>=◌ gets
read_device-Same w = ground arith

pub Keeps-query : {A : Type 0} (u : World) (f : Db → A) → Keeps (Same u) (query f)
Keeps-query u f = record { at = λ w h. Same-trans h (query-Same f w) }

pub Keeps-read_rows : {A : Type 0} (u : World) (rows : List A) → Keeps (Same u) (read_rows rows)
Keeps-read_rows u rows = record { at = λ w h. Same-trans h (read_rows-Same rows w) }

pub Keeps-query_rows : {A : Type 0} (u : World) (f : Db → List A) → Keeps (Same u) (query_rows f)
Keeps-query_rows u f = record { at = λ w h. Same-trans h (query_rows-Same f w) }

pub Keeps-read_device : (u : World) → Keeps (Same u) read_device
Keeps-read_device u = record { at = λ w h. Same-trans h (read_device-Same w) }

pub ruleset keeps_rules = (
  Keeps-pure, Keeps-fail, Keeps-lift, Keeps-gets, Keeps-if, Keeps-check, Keeps-bind, Keeps-query,
  Keeps-read_device, Keeps-read_rows, Keeps-query_rows,
)

-- An operation that succeeded, taken apart.
pub bind-ok :
    {A B : Type 0} (m : Action A) (f : A → Action B) (w w' : World) (b : B)
    → (m >>= f) w ≡ (ok b, w')
    → (a : A) × (u : World) × (m w ≡ (ok a, u)) × (f a u ≡ (ok b, w'))
bind-ok {A} {B} m f w w' b e = go (m w).0 (m w).1 refl (unfold ◌>>=◌ in e)
  where
    go :
        (r : Result A) (u : World)
        → m w ≡ (r, u)
        → continue r f u ≡ (ok b, w')
        → (a : A) × (u : World) × (m w ≡ (ok a, u)) × (f a u ≡ (ok b, w'))
    go (ok a) u same rest = (a, u, same, rest)
    go (err x) u same rest = cc

pub query-ok :
    {A : Type 0} (f : Db → A) (w w' : World) (a : A)
    → query f w ≡ (ok a, w')
    → (a ≡ f w.db) × Same w w'
unfolding query call ◌>>=◌ gets
query-ok f w w' a e = ground arith

pub ok_injective : {A : Type 0} (a b : A) → ok a ≡ ok b → a ≡ b
ok_injective a b e = ground arith

pub read_rows-ok :
    {A : Type 0} (rows : List A) (w w' : World) (found : List A)
    → read_rows rows w ≡ (ok found, w')
    → found ≡ (rows_read w.faults rows).0
unfolding read_rows
read_rows-ok rows w w' found e = ground arith

-- The rows that a query returns are the first ones, all of them unless a call fails on the way.
pub query_rows-ok :
    {A : Type 0} (f : Db → List A) (w w' : World) (rows : List A)
    → query_rows f w ≡ (ok rows, w')
    → ((faults : List Bool) × (rows ≡ (rows_read faults (f w.db)).0)) × Same w w'
unfolding query_rows
query_rows-ok f w w' rows e =
    let (all, v, queried, was_read) = bind-ok (query f) read_rows w w' rows e in
    let (is_all, same) = query-ok f w v all queried in
    (
      (v.faults, read_rows-ok all v w' rows was_read ∙ ap (λ xs. (rows_read v.faults xs).0) is_all),
      Same-trans same (subst (Same v) (ap (λ r. r.1) was_read) (read_rows-Same all v)),
    )

-- What is found in the rows that came is found in all.
pub first-rows_read :
    {A : Type 0} (p : A → Bool) (faults : List Bool) (rows : List A) (x : A)
    → first p (rows_read faults rows).0 ≡ some x
    → first p rows ≡ some x
first-rows_read p [] rows x e = e
first-rows_read p (fault ∷ later) [] x e = ground arith
first-rows_read p (true ∷ later) (row ∷ rows) x e = ground arith
first-rows_read p (false ∷ later) (row ∷ rows) x e = ground (arith, first-rows_read p later rows x)

pub check-ok :
    (b : Bool) (x : Error) (w w' : World) (t : Unit {0})
    → check b x w ≡ (ok t, w')
    → (b ≡ false) × (w' ≡ w)
unfolding pure fail
check-ok b x w w' t e = ground arith

pub lift-ok :
    {A : Type 0} (r : Result A) (w w' : World) (a : A)
    → lift r w ≡ (ok a, w')
    → (r ≡ ok a) × (w' ≡ w)
unfolding lift
lift-ok r w w' a e = ground arith
