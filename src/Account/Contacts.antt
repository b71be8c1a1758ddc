-- ===== src/Account/Contacts.antt =====
-- UpdateMe of internal/account/service.go changes nothing but contact data.
use shuosc_network_server_ba.Common.{
  ℕ, String, ◌≡◌, refl, ◌∙◌, ap, Bool, true, false, none, List, [], ◌∷◌, map, arith, if◌then◌else◌,
}
use shuosc_network_server_ba.Model.{User}
use shuosc_network_server_ba.World.{World, Env, Db, Result, ok, err, pure, query}
use shuosc_network_server_ba.World.Rules.{Keeps, Same, Same-refl, query-Same}
use shuosc_network_server_ba.World.Triples.{Triple, After, Triple-bind, Triple-keeps, Triple-exec}
use shuosc_network_server_ba.World.Gates.{
  gate-query, gate-check, gate-lift, Triple-given, Triple-if,
}
use shuosc_network_server_ba.Store.Rows.{update_where}
use shuosc_network_server_ba.Store.Users.{
  UserUpdateFields, update_user_row, with_fields, set_user, any_set,
}
use shuosc_network_server_ba.Store.Users.Find.{find_user_by_id, has_user_id}
use shuosc_network_server_ba.Auth.{Crypto}
use shuosc_network_server_ba.Account.{SelfUpdateFields, update_fields, update_me}

-- What decides who a user is and what it may do.
pub record Standing : Type 0 where
  pub id : ℕ
  pub student_id : String
  pub password : String
  pub role : String
  pub invite_id : ℕ
  pub max_peers : ℕ
  pub status : String

unfoldable pub standing : User → Standing
standing u = record {
  id = u.id;
  student_id = u.student_id;
  password = u.password;
  role = u.role;
  invite_id = u.invite_id;
  max_peers = u.max_peers;
  status = u.status;
}

-- The fields of an update that are no contact data are absent.
record IsContact (f : UserUpdateFields) : Type 0 where
  max_peers : f.max_peers ≡ none
  status : f.status ≡ none

map-update_where :
    {A B : Type 0} (g : A → B) (p : A → Bool) (f : A → A) (xs : List A)
    → ((x : A) → g (f x) ≡ g x)
    → map g (update_where p f xs) ≡ map g xs
unfolding update_where
map-update_where g p f [] h = refl
map-update_where {A} {B} g p f (x ∷ xs) h = cc (one (p x), map-update_where g p f xs h)
  where
    one : (b : Bool) → g (if b then f x else x) ≡ g x
    one true = h x
    one false = refl

standing-with_fields :
    (f : UserUpdateFields)
    → IsContact f
    → (now : ℕ) (u : User) → standing (with_fields f now u) ≡ standing u
unfolding standing with_fields
standing-with_fields f c now u = rw (c.max_peers, c.status) refl

set_standing :
    (id : ℕ) (f : UserUpdateFields)
    → IsContact f
    → (now : ℕ) (db d : Db) → set_user id (with_fields f) now db ≡ ok (tt, d)
    → map standing d.users ≡ map standing db.users
unfolding set_user
set_standing id f c now db d e =
    users_of e
    ∙ map-update_where standing (has_user_id id) (with_fields f now) db.users
        (standing-with_fields f c now)
  where
    users_of :
        {a b : Db}
        → ◌≡◌ {A = Result (Unit {0} × Db)} (ok (tt, a)) (ok (tt, b))
        → map standing b.users ≡ map standing a.users
    users_of e = ground arith

either-way :
    {A : Type 0} (s : List Standing) (r : Result A) (v : World)
    → After (λ _ w. map standing w.db.users ≡ s) (λ w. map standing w.db.users ≡ s) r v
    → map standing v.db.users ≡ s
either-way s (ok a) v h = h
either-way s (err e) v h = h

query-standing :
    {A : Type 0} (s : List Standing) (f : Db → A)
    → Keeps (λ w. map standing w.db.users ≡ s) (query f)
query-standing s f = record {
  at = λ w h. ap (λ (d : Db). map standing d.users) (query-Same f w).db ∙ h;
}

module _ (u : World) where
  kept : (w : World) → Same u w → map standing w.db.users ≡ map standing u.db.users
  kept w s = ap (λ (d : Db). map standing d.users) s.db

  update_fields-Triple :
      (crypto : Crypto) (f : SelfUpdateFields)
      → Triple
          (Same u)
          (update_fields crypto f)
          (λ g w. IsContact g × Same u w)
          (λ w. map standing w.db.users ≡ map standing u.db.users)
  unfolding update_fields pure
  update_fields-Triple crypto f = gate-lift u _ kept _ _ _ λ display_name a.
      gate-lift u _ kept _ _ _ λ email b. gate-lift u _ kept _ _ _ λ phone c.
        gate-lift u _ kept _ _ _ λ wechat d.
          gate-lift u _ kept _ _ _
            λ telegram e. record { at = λ w s. (record { max_peers = refl; status = refl }, s) }

  update_row-Triple :
      (id : ℕ) (f : UserUpdateFields)
      → IsContact f
      → Triple
          (Same u)
          (update_user_row id f)
          (λ _ w. map standing w.db.users ≡ map standing u.db.users)
          (λ w. map standing w.db.users ≡ map standing u.db.users)
  unfolding update_user_row set_user pure
  update_row-Triple id f c =
      Triple-if (any_set f) _ _ _ _ _
        (Triple-exec _ (Same u) _ _
          (λ w w' s t. ap (λ (d : Db). map standing d.users) (t.db ∙ s.db))
          λ w w' a s e o. set_standing id f c w.now w.db w'.db e ∙ kept w s)
        (record { at = λ w s. kept w s })

  -- UpdateMe changes no user's id, student id, password, role, invite, peer limit or status, whatever
  -- the request holds, whether it returns or fails.
  pub update_me-standing :
      (env : Env) (crypto : Crypto) (user_id : String) (f : SelfUpdateFields)
      → map standing (update_me env crypto user_id f u).1.db.users ≡ map standing u.db.users
  unfolding update_me find_user_by_id
  update_me-standing env crypto user_id f = either-way (map standing u.db.users) _ _ (
      (gate-lift u _ kept _ _ _ λ id parsed. gate-query u _ kept _ _ _ λ found row.
          gate-lift u _ kept _ _ _ λ user some_user. gate-check u _ kept _ _ _ _ λ active.
            Triple-bind _ _ _ _ _ _ (update_fields-Triple crypto f) λ g. Triple-given _ _ _ _ _ λ c.
              Triple-bind _ _ _ (λ _ w. map standing w.db.users ≡ map standing u.db.users) _ _
                (update_row-Triple id g c)
                λ _. Triple-keeps _ _ _ (query-standing _ _) (λ w h. h)).at
        u (Same-refl u))
