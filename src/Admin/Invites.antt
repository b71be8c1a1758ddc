-- ===== src/Admin/Invites.antt =====
-- No invite is used more often than it may be: registration in internal/store/user_store.go and the
-- invite operations of internal/admin/service.go keep `use_count` at most `max_uses`.
use shuosc_network_server_ba.Common.{
  ℕ, ◌≤◌, suc, String, ◌≡◌, refl, sym, ◌∙◌, ap, subst, Bool, false, some, arith, first, count,
  ==_iff, ltb, first_unique,
}
use shuosc_network_server_ba.Model.{User, InviteCode}
use shuosc_network_server_ba.World.{World, Db, Result, ok, err}
use shuosc_network_server_ba.Store.Rows.{update_where, count-update_where}
use shuosc_network_server_ba.Store.Users.{
  NewUser, insert_user, has_code, has_invite_id, used_once_more, use_invite, register_with_invite,
}
use shuosc_network_server_ba.Store.Users.Registration.{
  Enrolled, register_with_invite-ok, register_with_invite-error,
}

-- The invite is used too often.
abbrev pub overused : InviteCode → Bool
overused i = ltb i.max_uses i.use_count

-- No two invites have an id in common, and none is used too often.
pub record IsWithin (db : Db) : Type 0 where
  pub ids : (id : ℕ) → count (has_invite_id id) db.invites ≤ 1
  pub fresh : (id : ℕ) → db.next_id ≤ id → count (has_invite_id id) db.invites ≡ 0
  pub within : count overused db.invites ≡ 0

insert_user-invites :
    (n : NewUser) (now : ℕ) (db db' : Db) (user : User)
    → insert_user n now db ≡ ok (user, db')
    → (db'.invites ≡ db.invites) × (db'.next_id ≡ suc db.next_id)
unfolding insert_user
insert_user-invites n now db db' user e = ground arith

use_invite-ok :
    (id user_id now : ℕ) (db db' : Db)
    → use_invite id user_id now db ≡ ok (tt, db')
    → db'
      ≡ record db { invites = update_where (has_invite_id id) (used_once_more user_id) db.invites }
unfolding use_invite
use_invite-ok id user_id now db db' e = ground arith

-- One row changes, keeps its id and is not used too often afterwards.
pub update-IsWithin :
    (id : ℕ) (f : InviteCode → InviteCode) (db : Db) (x : InviteCode)
    → IsWithin db
    → first (has_invite_id id) db.invites ≡ some x
    → (f x).id ≡ x.id
    → overused (f x) ≡ false
    → IsWithin (record db { invites = update_where (has_invite_id id) f db.invites })
update-IsWithin id f db x h found same_id good =
    let moved = λ (q : InviteCode → Bool).
      count-update_where (has_invite_id id) q f db.invites x (h.ids id) found in
    record {
      ids = λ i. ground (arith, moved (has_invite_id i), h.ids i, same_id);
      fresh = λ i l. ground (arith, moved (has_invite_id i), h.fresh i l, same_id);
      within = ground (arith, moved overused, h.within, good);
    }

-- An insertion of a user leaves the invites alone.
inserted-IsWithin :
    (n : NewUser) (now : ℕ) (db db' : Db) (user : User)
    → IsWithin db
    → insert_user n now db ≡ ok (user, db')
    → IsWithin db'
inserted-IsWithin n now db db' user h e =
    let (same, next) = insert_user-invites n now db db' user e in
    record {
      ids = λ id. rw same (h.ids id);
      fresh = λ id l. rw same (h.fresh id (omega (arith, next)));
      within = rw same h.within;
    }

Enrolled-IsWithin :
    (n : NewUser) (code : String) (u : World) (user : User) (d : Db)
    → IsWithin u.db
    → Enrolled n code u user d
    → IsWithin d
Enrolled-IsWithin n code u user d h e =
    let (same, next) = insert_user-invites _ u.now u.db e.between user e.inserted in
    let before = inserted-IsWithin _ u.now u.db e.between user h e.inserted in
    let row =
      first_unique (has_code code) (has_invite_id e.invite.id) e.between.invites e.invite
        (before.ids e.invite.id) (ap (first (has_code code)) same ∙ e.row)
        ((==_iff e.invite.id e.invite.id).1 refl) in
    subst IsWithin (sym (use_invite-ok e.invite.id user.id u.now e.between d e.used)) (
      update-IsWithin e.invite.id (used_once_more user.id) e.between e.invite before row refl
        (ground (arith, e.unused)))

module _ (u : World) (n : NewUser) (code : String) (h : IsWithin u.db) where
  Enrolled-or_kept :
      (r : Result User)
      → (register_with_invite n code u).0 ≡ r
      → IsWithin (register_with_invite n code u).1.db
  Enrolled-or_kept (ok user) e =
      Enrolled-IsWithin n code u user _ h (register_with_invite-ok u n code user e)
  Enrolled-or_kept (err x) e = subst IsWithin (sym (register_with_invite-error u n code x e)) h

  -- If no two invites have an id in common and none is used more often than it may be, this is so
  -- after RegisterWithInvite as well, whether it returns or fails.
  pub register_with_invite-IsWithin : IsWithin (register_with_invite n code u).1.db
  register_with_invite-IsWithin = Enrolled-or_kept (register_with_invite n code u).0 refl
