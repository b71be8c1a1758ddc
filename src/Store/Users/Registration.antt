-- ===== src/Store/Users/Registration.antt =====
-- The two registering transactions of internal/store/user_store.go.
use shuosc_network_server_ba.Common.{
  ℕ, ◌<◌, String, ◌≡◌, refl, sym, ◌∙◌, ap, subst, false, ◌||◌, not, Option, none, some, List, [],
  ◌∷◌, arith, first, length, leb, ◌==◌, ==_iff,
}
use shuosc_network_server_ba.Model.{User, InviteCode}
use shuosc_network_server_ba.World.{
  World, Db, Error, Result, ok, err, Action, pure, lift, gets, check, or_fail, ◌>>=◌, ◌>>◌, call,
  query, exec, db_failure, bootstrap_closed, invite_unavailable,
}
use shuosc_network_server_ba.World.Rules.{Keeps, Same, Same-refl, Same-trans, call-Same}
use shuosc_network_server_ba.World.Triples.{
  Triple, After, Triple-bind, Triple-keeps, After-both, Triple-ok, Triple-err,
}
use shuosc_network_server_ba.World.Gates.{
  gate-query, gate-check, gate-lift, Triple-given, Triple-weaken,
}
use shuosc_network_server_ba.World.Statements.{Same-AtPoint, exec-AtPoint, exec-Same, Triple-from}
use shuosc_network_server_ba.Store.Users.{
  NewUser, insert_user, rolled_back, committed, transaction, register_bootstrap_admin,
  register_with_invite, has_code, expired_by, use_invite,
}
use shuosc_network_server_ba.Store.Users.Find.{count_users}

pub call-Keeps : (u : World) (e : Error) → Keeps (Same u) (call e)
call-Keeps u e = record { at = λ w s. Same-trans s (call-Same e w) }

module _ {A : Type 0} (u : World) (post : A → Db → Type 0) where
  ended :
      (r : Result A) (w : World)
      → After (λ a v. post a v.db) (λ _. Unit {0}) r w
      → After
          (λ a v. post a v.db)
          (λ v. v.db ≡ u.db)
          (rolled_back u.db r w).0
          (rolled_back u.db r w).1
  unfolding rolled_back
  ended (ok a) w h = h
  ended (err e) w h = refl

  at_end :
      (d : Db) (r : Result A) (w : World)
      → d ≡ u.db
      → After (λ a v. post a v.db) (λ _. Unit {0}) r w
      → After (λ a v. post a v.db) (λ v. v.db ≡ u.db) (rolled_back d r w).0 (rolled_back d r w).1
  at_end d r w e h =
      subst
        (λ d.
          After (λ a v. post a v.db) (λ v. v.db ≡ u.db) (rolled_back d r w).0 (rolled_back d r w).1)
        (sym e) (ended r w h)

  committing :
      (a : A)
      → Triple (λ w. post a w.db) (do call db_failure; pure a) (λ b w. post b w.db) (λ _. Unit {0})
  unfolding pure
  committing a =
      Triple-bind _ _ _ (λ _ w. post a w.db) _ _
        (record {
          at = λ w h.
              After-both (λ _ v. post a v.db) (λ _. Unit) (call db_failure w).0
                (call db_failure w).1 (λ _. subst (post a) (sym (call-Same db_failure w).db) h) tt;
        })
        λ _. record { at = λ w h. h }

  -- A transaction does what its body does, or leaves the database as it was.
  pub transaction-Triple :
      (body : Action A)
      → Triple (Same u) body (λ a w. post a w.db) (λ _. Unit {0})
      → Triple (Same u) (transaction body) (λ a w. post a w.db) (λ w. w.db ≡ u.db)
  unfolding transaction committed
  transaction-Triple body h =
      Triple-bind _ _ _ (λ _. Same u) _ _
        (Triple-keeps _ _ _ (call-Keeps u db_failure) (λ w s. s.db))
        λ _. record {
          at = λ w s.
              let inner =
                Triple-bind body _ (Same u) (λ a v. post a v.db) (λ a v. post a v.db) (λ _. Unit) h
                  committing in
              at_end w.db _ _ s.db (inner.at w s);
        }

-- What RegisterBootstrapAdmin has done.
unfoldable pub Bootstrap : (n : NewUser) (u : World) (user : User) (db : Db) → Type 0
Bootstrap n u user db = (length u.db.users ≡ 0) × (insert_user n u.now u.db ≡ ok (user, db))

Bootstrap-body :
    (u : World) (n : NewUser)
    → Triple
        (Same u)
        (do
          call db_failure
          count ← count_users
          check (not (count == 0)) bootstrap_closed
          exec (insert_user n))
        (λ a w. Bootstrap n u a w.db)
        (λ _. Unit {0})
unfolding Bootstrap count_users
Bootstrap-body u n =
    Triple-bind _ _ _ (λ _. Same u) _ _ (Triple-keeps _ _ _ (call-Keeps u db_failure) (λ w s. tt))
      λ _.
        gate-query u _ (λ w s. tt) _ _ _
          λ count counted.
            gate-check u _ (λ w s. tt) _ _ _ _
              λ empty.
                Triple-weaken _ _ _ _ _ (λ a w e. (ground (arith, counted, ==_iff count 0), e))
                  (exec-Same u (insert_user n))

-- What RegisterWithInvite has done: the invite was there, not used up and not expired, and the user
-- was inserted and the invite used once more.
pub record Enrolled (n : NewUser) (code : String) (u : World) (user : User) (d : Db) : Type 0 where
  pub invite : InviteCode
  pub row : first (has_code code) u.db.invites ≡ some invite
  pub unused : invite.use_count < invite.max_uses
  pub current : expired_by u.now invite.expires_at ≡ false
  pub between : Db
  pub inserted : insert_user (record n { invite_id = invite.id }) u.now u.db ≡ ok (user, between)
  pub used : use_invite invite.id user.id u.now between ≡ ok (tt, d)

found_invite :
    (o : Option InviteCode) (e : Error) (i : InviteCode) → or_fail o e ≡ ok i → o ≡ some i
found_invite none e i h = ground arith
found_invite (some j) e i h = ground arith

usable :
    (i : InviteCode) (t now : ℕ)
    → now ≡ t
    → (leb i.max_uses i.use_count || expired_by now i.expires_at) ≡ false
    → (i.use_count < i.max_uses) × (expired_by t i.expires_at ≡ false)
usable i t now e h =
    subst (λ n. (i.use_count < i.max_uses) × (expired_by n i.expires_at ≡ false)) e (ground arith)

gets-now :
    (u : World)
    → Triple (Same u) (gets (λ w. w.now)) (λ t w. (t ≡ u.now) × Same u w) (λ _. Unit {0})
unfolding gets
gets-now u = record { at = λ w s. (s.now, s) }

invited-body :
    (u : World) (n : NewUser) (code : String)
    → Triple
        (Same u)
        (do
          found ← query (λ db. first (has_code code) db.invites)
          invite ← lift (or_fail found invite_unavailable)
          now ← gets (λ w. w.now)
          check
              (leb invite.max_uses invite.use_count || expired_by now invite.expires_at)
              invite_unavailable
          user ← exec (insert_user (record n { invite_id = invite.id }))
          exec (use_invite invite.id user.id)
          pure user)
        (λ a w. Enrolled n code u a w.db)
        (λ _. Unit {0})
unfolding pure
invited-body u n code =
    gate-query u _ (λ w s. tt) _ _ _
      λ found row.
        gate-lift u _ (λ w s. tt) _ _ _
          λ invite some_invite. Triple-bind _ _ _ _ _ _ (gets-now u) λ now.
            Triple-given _ _ _ _ _ λ same_now.
              gate-check u _ (λ w s. tt) _ _ _ _
                λ good.
                  Triple-bind _ _ _ _ _ _
                    (Triple-from _ _ _ _ _ (Same-AtPoint u)
                      (exec-AtPoint u.now u.db (insert_user (record n { invite_id = invite.id }))))
                    λ user. record {
                      at = λ w h.
                          (Triple-bind _ _ _ _ (λ a w. Enrolled n code u a w.db) _
                              (exec-AtPoint u.now h.0 (use_invite invite.id user.id))
                              λ t. record {
                                at = λ v k. record {
                                  invite = invite;
                                  row = sym row ∙ found_invite _ _ _ some_invite;
                                  unused = (usable invite u.now now same_now good).0;
                                  current = (usable invite u.now now same_now good).1;
                                  between = h.0;
                                  inserted = h.1;
                                  used = k.1 ∙ ap (λ d. ok (tt, d)) (sym k.2.db);
                                };
                              }).at
                            w h.2;
                    }

no_rows : (us : List User) → length us ≡ 0 → us ≡ []
no_rows [] h = refl
no_rows (x ∷ us) h = ground arith

only_user :
    (n : NewUser) (now : ℕ) (db db' : Db) (user : User)
    → db.users ≡ []
    → insert_user n now db ≡ ok (user, db')
    → db'.users ≡ user ∷ []
unfolding insert_user
only_user n now db db' user empty e = ground arith

module _ (u : World) (n : NewUser) where
  pub register_bootstrap_admin-Triple :
      Triple (Same u) (register_bootstrap_admin n) (λ a w. Bootstrap n u a w.db) (λ w. w.db ≡ u.db)
  unfolding register_bootstrap_admin
  register_bootstrap_admin-Triple = transaction-Triple u (Bootstrap n u) _ (Bootstrap-body u n)

  -- RegisterBootstrapAdmin returns a user only if the table was empty, and then it holds just this
  -- user.
  pub register_bootstrap_admin-ok :
      (user : User)
      → (register_bootstrap_admin n u).0 ≡ ok user
      → (u.db.users ≡ []) × ((register_bootstrap_admin n u).1.db.users ≡ user ∷ [])
  unfolding Bootstrap
  register_bootstrap_admin-ok user e =
      let done = Triple-ok _ _ _ _ register_bootstrap_admin-Triple u user (Same-refl u) e in
      let empty = no_rows u.db.users done.0 in (empty, only_user n u.now u.db _ user empty done.1)

module _ (u : World) (n : NewUser) (code : String) where
  pub register_with_invite-Triple :
      Triple
        (Same u)
        (register_with_invite n code)
        (λ a w. Enrolled n code u a w.db)
        (λ w. w.db ≡ u.db)
  unfolding register_with_invite
  register_with_invite-Triple = transaction-Triple u (Enrolled n code u) _ (invited-body u n code)

  -- RegisterWithInvite returns a user only if an invite with the code was there, used less often than
  -- it may be, and not expired; it has then inserted the user and used the invite once more.
  pub register_with_invite-ok :
      (user : User)
      → (register_with_invite n code u).0 ≡ ok user
      → Enrolled n code u user (register_with_invite n code u).1.db
  register_with_invite-ok user e =
      Triple-ok _ _ _ _ register_with_invite-Triple u user (Same-refl u) e

  pub register_with_invite-error :
      (e : Error)
      → (register_with_invite n code u).0 ≡ err e
      → (register_with_invite n code u).1.db ≡ u.db
  register_with_invite-error e f =
      Triple-err _ _ _ _ register_with_invite-Triple u e (Same-refl u) f
