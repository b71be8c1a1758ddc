-- ===== src/Admin/Limits.antt =====
-- The invite operations of internal/admin/service.go keep `use_count` at most `max_uses`.
use shuosc_network_server_ba.Common.{
  ℕ, suc, String, ◌≡◌, refl, sym, ◌∙◌, ap, subst, Bool, false, Option, none, some, List, [], ◌∷◌,
  ◌++◌, arith, first, count, ==_iff, ltb, first-count, count-append,
}
use shuosc_network_server_ba.Model.{InviteCode}
use shuosc_network_server_ba.World.{
  World, Db, Env, Error, Result, ok, err, Action, pure, exec, query, or_fail,
}
use shuosc_network_server_ba.World.Rules.{Keeps-gets, Same, Same-refl, query-Same}
use shuosc_network_server_ba.World.Triples.{Triple, After, Triple-bind, Triple-keeps, Triple-exec}
use shuosc_network_server_ba.World.Gates.{gate-query, gate-check, gate-lift, Triple-if}
use shuosc_network_server_ba.Store.Rows.{update_where, delete_where, count-delete_where}
use shuosc_network_server_ba.Store.Users.{has_invite_id, updated}
use shuosc_network_server_ba.Store.Invites.{
  InviteUpdateFields, NewInvite, insert_invite, invite_row, create_invite_row, update_invite_row,
  with_invite_fields, any_invite_field, delete_invite_row, set_invites, find_invite_by_id,
}
use shuosc_network_server_ba.Common.Integers.{ℤ, pos, negsuc}
use shuosc_network_server_ba.Admin.{
  InviteFields, invite_fields, bad_max_uses, magnitude_of, create_invite, update_invite,
  delete_invite,
}
use shuosc_network_server_ba.Admin.Invites.{IsWithin, overused, update-IsWithin}

module _ (u : World) (h : IsWithin u.db) where
  Same-Within : (w : World) → Same u w → IsWithin w.db
  Same-Within w s = subst IsWithin (sym s.db) h

  -- A statement keeps the invites within their limits if what it writes does.
  exec-Within :
      {A : Type 0} (f : ℕ → Db → Result (A × Db))
      → ((a : A) (d : Db) → f u.now u.db ≡ ok (a, d) → IsWithin d)
      → Triple (Same u) (exec f) (λ _ w. IsWithin w.db) (λ w. IsWithin w.db)
  exec-Within f k =
      Triple-exec f (Same u) _ _
        (λ w w' s t. Same-Within w' (record {
          db = t.db ∙ s.db;
          device = t.device ∙ s.device;
          ipam = t.ipam ∙ s.ipam;
          server_key = t.server_key ∙ s.server_key;
          now = t.now ∙ s.now;
        }))
        λ w w' a s e o. k a w'.db (ap (λ n. f n u.db) (sym s.now) ∙ ap (f w.now) (sym s.db) ∙ e)

  pure-Within :
      {A : Type 0} (a : A) → Triple (Same u) (pure a) (λ _ w. IsWithin w.db) (λ w. IsWithin w.db)
  unfolding pure
  pure-Within a = record { at = λ w s. Same-Within w s }

query-Within :
    {A : Type 0} (f : Db → A)
    → Triple (λ w. IsWithin w.db) (query f) (λ _ w. IsWithin w.db) (λ w. IsWithin w.db)
query-Within f =
    Triple-keeps _ _ _ (record { at = λ w h. subst IsWithin (sym (query-Same f w).db) h })
      (λ w h. h)

any-Within :
    {A : Type 0} (m : Action A) (w : World)
    → Triple (Same w) m (λ _ v. IsWithin v.db) (λ v. IsWithin v.db)
    → IsWithin (m w).1.db
any-Within m w t = both (m w).0 (m w).1 (t.at w (Same-refl w))
  where
    both :
        {A : Type 0} (r : Result A) (v : World)
        → After (λ _ v. IsWithin v.db) (λ v. IsWithin v.db) r v
        → IsWithin v.db
    both (ok a) v k = k
    both (err e) v k = k

-- A row of a table without an overused row is not overused.
row_within :
    (id : ℕ) (db : Db) (i : InviteCode)
    → IsWithin db
    → first (has_invite_id id) db.invites ≡ some i
    → overused i ≡ false
row_within id db i h found =
    ground (arith, h.within, first-count (has_invite_id id) overused db.invites i found)

accepted_uses :
    (o : Option ℤ) (i : InviteCode)
    → overused i ≡ false
    → bad_max_uses o i ≡ false
    → ltb (updated (magnitude_of o) i.max_uses) i.use_count ≡ false
accepted_uses none i h g = h
accepted_uses (some (pos n)) i h g = ground arith
accepted_uses (some (negsuc n)) i h g = ground arith

accepted :
    (f : InviteFields) (i : InviteCode)
    → overused i ≡ false
    → bad_max_uses f.max_uses i ≡ false
    → overused (with_invite_fields (invite_fields f) i) ≡ false
unfolding with_invite_fields
accepted f i h g = accepted_uses f.max_uses i h g

found_invite :
    (o : Option InviteCode) (e : Error) (i : InviteCode) → or_fail o e ≡ ok i → o ≡ some i
found_invite none e i h = ground arith
found_invite (some j) e i h = ground arith

written_invites :
    (f : List InviteCode → List InviteCode) (now : ℕ) (db d : Db) (t : Unit {0})
    → set_invites f now db ≡ ok (t, d)
    → record db { invites = f db.invites } ≡ d
written_invites f now db d t e = ground arith

kept_id : (f : InviteUpdateFields) (i : InviteCode) → (with_invite_fields f i).id ≡ i.id
unfolding with_invite_fields
kept_id f i = refl

module _ (u : World) (h : IsWithin u.db) (id : ℕ) where
  update_row-Within :
      (f : InviteUpdateFields) (i : InviteCode)
      → first (has_invite_id id) u.db.invites ≡ some i
      → overused (with_invite_fields f i) ≡ false
      → Triple (Same u) (update_invite_row id f) (λ _ w. IsWithin w.db) (λ w. IsWithin w.db)
  unfolding update_invite_row
  update_row-Within f i found good =
      Triple-if (any_invite_field f) _ _ _ _ _
        (exec-Within u h _ λ t d e.
          subst IsWithin
            (written_invites (update_where (has_invite_id id) (with_invite_fields f)) u.now u.db d t
              e)
            (update-IsWithin id (with_invite_fields f) u.db i h found (kept_id f i) good))
        (pure-Within u h tt)

  delete_row-Within :
      Triple (Same u) (delete_invite_row id) (λ _ w. IsWithin w.db) (λ w. IsWithin w.db)
  unfolding delete_invite_row
  delete_row-Within = exec-Within u h _ λ t d e.
      subst IsWithin (written_invites (delete_where (has_invite_id id)) u.now u.db d t e) (record {
        ids = λ i.
            omega (
              arith,
              h.ids i,
              count-delete_where (has_invite_id id) (has_invite_id i) u.db.invites,
            );
        fresh = λ i l. omega (
          arith,
          h.fresh i l,
          count-delete_where (has_invite_id id) (has_invite_id i) u.db.invites,
        );
        within =
            omega (arith, h.within, count-delete_where (has_invite_id id) overused u.db.invites);
      })

insert_invite-ok :
    (n : NewInvite) (now : ℕ) (db d : Db) (i : InviteCode)
    → insert_invite n now db ≡ ok (i, d)
    → (d.invites ≡ db.invites ++ (invite_row n db.next_id now ∷ [])) × (d.next_id ≡ suc db.next_id)
unfolding insert_invite
insert_invite-ok n now db d i e = ground arith

inserted-Within :
    (n : NewInvite) (now : ℕ) (db d : Db) (i : InviteCode)
    → IsWithin db
    → insert_invite n now db ≡ ok (i, d)
    → IsWithin d
unfolding invite_row
inserted-Within n now db d i h e =
    let (rows, next) = insert_invite-ok n now db d i e in
    let moved = λ (q : InviteCode → Bool).
      ap (count q) rows ∙ count-append q db.invites (invite_row n db.next_id now ∷ []) in
    record {
      ids = λ id.
          ground (arith, moved (has_invite_id id), h.ids id, h.fresh id, ==_iff db.next_id id);
      fresh = λ id l. ground (arith, moved (has_invite_id id), h.fresh id, ==_iff db.next_id id);
      within = ground (arith, moved overused, h.within);
    }

module _ (u : World) (h : IsWithin u.db) (env : Env) where
  find-IsWithin :
      (id : ℕ)
      → Triple
          (λ w. IsWithin w.db)
          (find_invite_by_id id)
          (λ _ w. IsWithin w.db)
          (λ w. IsWithin w.db)
  unfolding find_invite_by_id
  find-IsWithin id = query-Within (λ db. first (has_invite_id id) db.invites)

  -- If the ids of the invites are unique and none is used more often than it may be, this is so after
  -- CreateInvite as well, whether it returns or fails.
  pub create_invite-IsWithin :
      (code : Option String) (add_days : ℕ → ℕ → ℕ) (created_by : String)
      (max_uses expires_days : ℤ)
      → IsWithin (create_invite env code add_days created_by max_uses expires_days u).1.db
  unfolding create_invite create_invite_row
  create_invite-IsWithin code add_days created_by max_uses expires_days = any-Within _ u (
      gate-lift u _ (Same-Within u h) _ _ _ λ creator parsed.
        gate-check u _ (Same-Within u h) _ _ _ _ λ uses.
          gate-check u _ (Same-Within u h) _ _ _ _ λ days.
            gate-lift u _ (Same-Within u h) _ _ _ λ c coded.
              Triple-bind _ _ _ (λ _. Same u) _ _
                (Triple-keeps _ _ _ (Keeps-gets _) (Same-Within u h))
                λ now.
                  exec-Within u h (insert_invite _) (λ i d e. inserted-Within _ u.now u.db d i h e))

  -- If the ids of the invites are unique and none is used more often than it may be, this is so after
  -- UpdateInvite as well, which can change the limit of an invite.
  pub update_invite-IsWithin :
      (invite_id : String) (f : InviteFields) → IsWithin (update_invite env invite_id f u).1.db
  unfolding update_invite find_invite_by_id
  update_invite-IsWithin invite_id f = any-Within _ u (
      gate-lift u _ (Same-Within u h) _ _ _ λ id parsed.
        gate-query u _ (Same-Within u h) _ _ _ λ found row.
          gate-lift u _ (Same-Within u h) _ _ _ λ i some_i.
            gate-check u _ (Same-Within u h) _ _ _ _ λ good.
              let there = sym row ∙ found_invite _ _ _ some_i in
              Triple-bind _ _ _ (λ _ w. IsWithin w.db) _ _
                (update_row-Within u h id (invite_fields f) i there
                  (accepted f i (row_within id u.db i h there) good))
                λ _. query-Within _)

  -- If the ids of the invites are unique and none is used more often than it may be, this is so after
  -- DeleteInvite as well, whether it returns or fails.
  pub delete_invite-IsWithin : (invite_id : String) → IsWithin (delete_invite env invite_id u).1.db
  unfolding delete_invite find_invite_by_id
  delete_invite-IsWithin invite_id = any-Within _ u (
      gate-lift u _ (Same-Within u h) _ _ _ λ id parsed.
        gate-query u _ (Same-Within u h) _ _ _ λ found row.
          gate-lift u _ (Same-Within u h) _ _ _
            λ i some_i. gate-check u _ (Same-Within u h) _ _ _ _ λ good. delete_row-Within u h id)
