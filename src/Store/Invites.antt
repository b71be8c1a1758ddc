-- ===== src/Store/Invites.antt =====
-- internal/store/invite_store.go: the statements on one invite, and the states that its queries sort
-- the table by.
pub mod States
use shuosc_network_server_ba.Common.{
  ℕ, suc, ◌+◌, String, Bool, true, false, ◌&&◌, not, Option, none, some, List, [], ◌∷◌, ◌++◌, ◌==◌,
  str_eq, leb, ltb, first, count, if◌then◌else◌,
}
use shuosc_network_server_ba.Model.{InviteCode}
use shuosc_network_server_ba.World.{
  Db, World, Result, ok, err, db_failure, Action, pure, ◌>>=◌, ◌>>◌, query, query_rows, exec, call,
  gets,
}
use shuosc_network_server_ba.Store.Rows.{update_where, delete_where, groups, size_of}
use shuosc_network_server_ba.Store.Users.{has_code, has_invite_id, used_once_more, is_set, updated}

-- What CreateInvite sets of a model.InviteCode.
pub record NewInvite : Type 0 where
  pub code : String
  pub created_by : ℕ
  pub max_uses : ℕ
  pub expires_at : Option ℕ

unfoldable pub invite_row : NewInvite → ℕ → ℕ → InviteCode
invite_row n id now = record {
  id = id;
  code = n.code;
  created_by = n.created_by;
  used_by = none;
  max_uses = n.max_uses;
  use_count = 0;
  expires_at = n.expires_at;
  created_at = now;
}

-- Create; the code is unique.
unfoldable pub insert_invite : NewInvite → ℕ → Db → Result (InviteCode × Db)
unfolding invite_row
insert_invite n now db = elim (first (has_code n.code) db.invites) [
  | some i ↦ err db_failure
  | none ↦ ok (
    invite_row n db.next_id now,
    record db {
      invites = db.invites ++ (invite_row n db.next_id now ∷ []);
      next_id = suc db.next_id;
    },
  )
]

unfoldable pub create_invite_row : NewInvite → Action InviteCode
create_invite_row n = exec (insert_invite n)

unfoldable pub find_invite_by_code : String → Action (Option InviteCode)
find_invite_by_code code = query (λ db. first (has_code code) db.invites)

unfoldable pub find_invite_by_id : ℕ → Action (Option InviteCode)
find_invite_by_id id = query (λ db. first (has_invite_id id) db.invites)

abbrev pub set_invites : (List InviteCode → List InviteCode) → ℕ → Db → Result (Unit {0} × Db)
set_invites f now db = ok (tt, record db { invites = f db.invites })

-- MarkUsed.
unfoldable pub mark_used : ℕ → ℕ → Action (Unit {0})
mark_used id user_id = exec (set_invites (update_where (has_invite_id id) (used_once_more user_id)))

pub record InviteUpdateFields : Type 0 where
  pub max_uses : Option ℕ
  pub expires_at : Option ℕ
  pub clear_expires_at : Bool

abbrev pub new_expiry : InviteUpdateFields → Option ℕ → Option ℕ
new_expiry f old =
    if f.clear_expires_at then none else if is_set f.expires_at then f.expires_at else old

unfoldable pub with_invite_fields : InviteUpdateFields → InviteCode → InviteCode
with_invite_fields f i = record i {
  max_uses = updated f.max_uses i.max_uses;
  expires_at = new_expiry f i.expires_at;
}

unfoldable pub any_invite_field : InviteUpdateFields → Bool
any_invite_field f =
    if is_set f.max_uses then true else if f.clear_expires_at then true else is_set f.expires_at

-- Update: without a field to set there is no statement.
unfoldable pub update_invite_row : ℕ → InviteUpdateFields → Action (Unit {0})
update_invite_row id f =
    if any_invite_field f
    then exec (set_invites (update_where (has_invite_id id) (with_invite_fields f)))
    else pure tt

-- Delete.
unfoldable pub delete_invite_row : ℕ → Action (Unit {0})
delete_invite_row id = exec (set_invites (delete_where (has_invite_id id)))

-- The conditions of List by state, and the CASE of CountByState.
abbrev pub sql_expired : ℕ → Option ℕ → Bool
sql_expired now none = false
sql_expired now (some t) = leb t now

unfoldable pub listed_as : String → ℕ → InviteCode → Bool
listed_as state now i =
    if str_eq state "available"
    then ltb i.use_count i.max_uses && not (sql_expired now i.expires_at)
    else if str_eq state "used_up"
    then leb i.max_uses i.use_count
    else if str_eq state "expired"
    then sql_expired now i.expires_at && ltb i.use_count i.max_uses
    else true

unfoldable pub counted_state : ℕ → InviteCode → String
counted_state now i =
    if leb i.max_uses i.use_count
    then "used_up"
    else if sql_expired now i.expires_at && ltb i.use_count i.max_uses
    then "expired"
    else "available"

-- CountByState, for the three states.
pub record StateCounts : Type 0 where
  pub available : ℕ
  pub used_up : ℕ
  pub expired : ℕ

abbrev pub count_state : String → ℕ → List InviteCode → ℕ
count_state state now is = count (λ i. str_eq (counted_state now i) state) is

unfoldable pub count_by_state : Action StateCounts
count_by_state = do
  now ← gets (λ w. w.now)
  rows ←
      query_rows (λ db.
        groups (λ s. count_state s now db.invites) ("available" ∷ "used_up" ∷ "expired" ∷ []))
  pure (record {
    available = size_of "available" rows;
    used_up = size_of "used_up" rows;
    expired = size_of "expired" rows;
  })
