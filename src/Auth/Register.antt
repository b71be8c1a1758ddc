-- ===== src/Auth/Register.antt =====
-- What Register and Login of internal/auth/service.go have done when they return.
use shuosc_network_server_ba.Common.{String, ◌≡◌, refl, false, Option, none, some, arith, ◌==◌}
use shuosc_network_server_ba.Common.Words.{trim_space, is_empty}
use shuosc_network_server_ba.Model.{User}
use shuosc_network_server_ba.World.{
  World, Db, Error, Result, ok, err, Action, pure, fail, or_fail, ◌>>=◌,
}
use shuosc_network_server_ba.World.Rules.{Keeps-gets, Keeps-query, Same, Same-refl}
use shuosc_network_server_ba.World.Triples.{
  Triple, After, Triple-bind, Triple-keeps, Triple-ok, Triple-err,
}
use shuosc_network_server_ba.World.Gates.{
  gate-query, gate-check, gate-lift, Triple-weaken, Triple-if,
}
use shuosc_network_server_ba.Store.Users.Find.{find_by_student_id, count_users}
use shuosc_network_server_ba.Store.Users.Registration.{
  Bootstrap, Enrolled, register_bootstrap_admin-Triple, register_with_invite-Triple,
}
use shuosc_network_server_ba.Store.Invites.{find_invite_by_code}
use shuosc_network_server_ba.Auth.{
  Crypto, validate_password, stop_on, map_error, mapped, bootstrap_error, invite_error, new_user,
  register_invited, register_first, register_trimmed, register,
}

-- A translation of errors changes no world.
pub Triple-map_error :
    {A : Type 0} (f : Error → Error) (pre : World → Type 0) (m : Action A)
    (post : A → World → Type 0) (exc : World → Type 0)
    → Triple pre m post exc
    → Triple pre (map_error f m) post exc
unfolding map_error
Triple-map_error {A} f pre m post exc t = record { at = λ w h. same (m w).0 (m w).1 (t.at w h) }
  where
    same : (r : Result A) (w : World) → After post exc r w → After post exc (mapped f r) w
    same (ok a) w k = k
    same (err e) w k = k

gate-stop :
    {A : Type 0} (u : World) (exc : World → Type 0) (o : Option Error) (k : Unit {0} → Action A)
    (post : A → World → Type 0)
    → ((w : World) → Same u w → exc w)
    → (o ≡ none → Triple (Same u) (k tt) post exc)
    → Triple (Same u) (stop_on o >>= k) post exc
unfolding ◌>>=◌ pure fail
gate-stop u exc none k post out h = record { at = λ w s. (h refl).at w s }
gate-stop u exc (some e) k post out h = record { at = λ w s. out w s }

hash_some : (o : Option String) (e : Error) (h : String) → or_fail o e ≡ ok h → o ≡ some h
hash_some none e h k = ground arith
hash_some (some b) e h k = ground arith

-- A registration: of the first user, as the administrator, or with an invite.
pub data Registered (crypto : Crypto) (student_id password code : String) (u : World) (user : User)
    (d : Db) : Type 0 where
  as_admin :
      (hash : String)
      → crypto.hash password ≡ some hash
      → Bootstrap (new_user student_id hash "admin") u user d
      → Registered crypto student_id password code u user d
  by_invite :
      (hash : String)
      → crypto.hash password ≡ some hash
      → (is_empty code ≡ false)
      → Enrolled (new_user student_id hash "user") code u user d
      → Registered crypto student_id password code u user d

module _ (u : World) (crypto : Crypto) (student_id password code : String) where
  out : (w : World) → Same u w → w.db ≡ u.db
  out w s = s.db

  first-Triple :
      (hash : String)
      → crypto.hash password ≡ some hash
      → Triple
          (Same u)
          (register_first student_id hash)
          (λ a w. Registered crypto student_id password code u a w.db)
          (λ w. w.db ≡ u.db)
  unfolding register_first
  first-Triple hash hashed =
      Triple-weaken _ _ _ _ _ (λ a w b. as_admin hash hashed b)
        (Triple-map_error bootstrap_error _ _ _ _
          (register_bootstrap_admin-Triple u (new_user student_id hash "admin")))

  invited-Triple :
      (hash : String)
      → crypto.hash password ≡ some hash
      → Triple
          (Same u)
          (register_invited student_id hash code)
          (λ a w. Registered crypto student_id password code u a w.db)
          (λ w. w.db ≡ u.db)
  unfolding register_invited find_invite_by_code
  invited-Triple hash hashed = gate-check u _ out _ _ _ _ λ given.
      Triple-bind _ _ _ (λ _. Same u) _ _
        (Triple-map_error _ _ _ _ _ (Triple-keeps _ _ _ (Keeps-query u _) out))
        λ invite.
          Triple-bind _ _ _ (λ _. Same u) _ _ (Triple-keeps _ _ _ (Keeps-gets _) out)
            λ now. gate-check u _ out _ _ _ _ λ good.
              Triple-weaken _ _ _ _ _ (λ a w b. by_invite hash hashed given b)
                (Triple-map_error invite_error _ _ _ _
                  (register_with_invite-Triple u (new_user student_id hash "user") code))

  trimmed-Triple :
      Triple
        (Same u)
        (register_trimmed crypto student_id password code)
        (λ a w.
          (validate_password crypto password ≡ none)
          × Registered crypto student_id password code u a w.db)
        (λ w. w.db ≡ u.db)
  unfolding register_trimmed find_by_student_id count_users
  trimmed-Triple = gate-stop u _ _ _ _ out λ strong. gate-query u _ out _ _ _ λ existing found.
      gate-check u _ out _ _ _ _ λ free. gate-query u _ out _ _ _ λ n counted.
        gate-lift u _ out _ _ _ λ hash hashed.
          Triple-weaken _ _ _ _ _ (λ a w r. (strong, r))
            (Triple-if (n == 0) _ _ _ _ _ (first-Triple hash (hash_some _ _ _ hashed))
              (invited-Triple hash (hash_some _ _ _ hashed)))

module _ (u : World) (crypto : Crypto) (student_id password code : String) where
  -- Register returns a user only for a password that the policy accepts, and only as the first user,
  -- who becomes the administrator, or with an invite that was there, not used up and not expired,
  -- which it has then used once more. The texts are trimmed.
  pub register-ok :
      (user : User)
      → (register crypto student_id password code u).0 ≡ ok user
      → (validate_password crypto password ≡ none)
        × Registered crypto
            (trim_space student_id)
            password
            (trim_space code)
            u
            user
            (register crypto student_id password code u).1.db
  unfolding register
  register-ok user e =
      Triple-ok _ _ _ _ (trimmed-Triple u crypto (trim_space student_id) password (trim_space code))
        u user (Same-refl u) e

  -- When Register fails, at whichever step, the database is as before.
  pub register-error :
      (e : Error)
      → (register crypto student_id password code u).0 ≡ err e
      → (register crypto student_id password code u).1.db ≡ u.db
  unfolding register
  register-error e f =
      Triple-err _ _ _ _
        (trimmed-Triple u crypto (trim_space student_id) password (trim_space code)) u e
        (Same-refl u) f
