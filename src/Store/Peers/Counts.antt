-- ===== src/Store/Peers/Counts.antt =====
-- The peers table under the statements of internal/store/peer_store.go: how many rows hold an id, a
-- key or an address.
use shuosc_network_server_ba.Common.{
  ℕ, ◌+◌, ◌≤◌, suc, String, ◌≡◌, refl, ◌∙◌, ap, Bool, false, ◌&&◌, some, List, [], ◌∷◌, ◌++◌, arith,
  str_eq, eq_iff, ◌==◌, ==_iff, first, count, count-append,
}
use shuosc_network_server_ba.Common.Text.{Text, text_eq, TextSet, contains, text_eq_iff}
use shuosc_network_server_ba.Model.{Peer}
use shuosc_network_server_ba.World.{Db, ok}
use shuosc_network_server_ba.Store.Rows.{update_where, one_if, count-update_where}
use shuosc_network_server_ba.Store.Peers.{has_id, has_key, key_exists, NewPeer, row_of, insert_peer}

-- An active row leases its address.
abbrev pub leases : Text → Peer → Bool
leases t p = text_eq p.assigned_ip t && str_eq p.status "active"

-- No two rows have an id or a key in common, and an address has one active row at most, none unless
-- it is in use.
pub record IsConsistent (used : TextSet) (db : Db) : Type 0 where
  pub ids : (id : ℕ) → count (has_id id) db.peers ≤ 1
  pub fresh : (id : ℕ) → db.next_id ≤ id → count (has_id id) db.peers ≡ 0
  pub keys : (key : String) → count (has_key key) db.peers ≤ 1
  pub leased : (t : Text) → count (leases t) db.peers ≤ one_if (contains used t)

pub key_exists-count :
    (key : String) (ps : List Peer) → key_exists key ps ≡ false → count (has_key key) ps ≡ 0
key_exists-count key [] h = refl
key_exists-count key (p ∷ ps) h = ground (arith, key_exists-count key ps)

pub insert_peer-ok :
    (n : NewPeer) (now : ℕ) (db db' : Db) (row : Peer)
    → insert_peer n now db ≡ ok (row, db')
    → (key_exists n.public_key db.peers ≡ false)
      × (row ≡ row_of n db.next_id now)
      × (db'.peers ≡ db.peers ++ (row_of n db.next_id now ∷ []))
      × (db'.next_id ≡ suc db.next_id)
unfolding insert_peer
insert_peer-ok n now db db' row e = ground arith

module _ (used : TextSet) (n : NewPeer) (now : ℕ) (db : Db) where
  -- A new row with an address that was free.
  pub insert-one :
      (q : Peer → Bool)
      → count q (db.peers ++ (row_of n db.next_id now ∷ []))
        ≡ count q db.peers + one_if (q (row_of n db.next_id now))
  insert-one q = ground (arith, count-append q db.peers (row_of n db.next_id now ∷ []))

  fresh_or_other :
      (h : IsConsistent used db) (id : ℕ)
      → count (has_id id) db.peers + one_if (db.next_id == id) ≤ 1
  fresh_or_other h id = ground (arith, h.ids id, h.fresh id, ==_iff db.next_id id)

  key_or_other :
      (h : IsConsistent used db) (key : String)
      → key_exists n.public_key db.peers ≡ false
      → count (has_key key) db.peers + one_if (str_eq n.public_key key) ≤ 1
  key_or_other h key e =
      ground (arith, h.keys key, eq_iff n.public_key key, key_exists-count key db.peers)

  pub insert-IsConsistent :
      (db' : Db) (row : Peer)
      → IsConsistent used db
      → contains used n.assigned_ip ≡ false
      → insert_peer n now db ≡ ok (row, db')
      → IsConsistent (n.assigned_ip ∷ used) db'
  unfolding row_of contains
  insert-IsConsistent db' row h free e =
      let (absent, made, rows, next) = insert_peer-ok n now db db' row e in
      let moved = λ (q : Peer → Bool). ap (count q) rows ∙ insert-one q in
      record {
        ids = λ id. rw (moved (has_id id)) (fresh_or_other h id);
        fresh = λ id l. ground (arith, moved (has_id id), h.fresh id, ==_iff db.next_id id);
        keys = λ key. rw (moved (has_key key)) (key_or_other h key absent);
        leased = λ t. ground (arith, moved (leases t), h.leased t, text_eq_iff n.assigned_ip t);
      }

module _ (used used' : TextSet) (id : ℕ) (f : Peer → Peer) (db : Db) (x : Peer) where
  -- A statement that changes one row.
  pub update-IsConsistent :
      IsConsistent used db
      → first (has_id id) db.peers ≡ some x
      → (f x).id ≡ x.id
      → ((key : String)
          → count (has_key key) db.peers + one_if (has_key key (f x)) ≤ 1 + one_if (has_key key x))
      → ((t : Text)
          → one_if (leases t (f x)) + one_if (contains used t)
            ≤ one_if (leases t x) + one_if (contains used' t))
      → IsConsistent used' (record db { peers = update_where (has_id id) f db.peers })
  update-IsConsistent h found same_id key lease =
      let moved =
        λ (q : Peer → Bool). count-update_where (has_id id) q f db.peers x (h.ids id) found in
      record {
        ids = λ i. ground (arith, moved (has_id i), h.ids i, same_id);
        fresh = λ i l. ground (arith, moved (has_id i), h.fresh i l, same_id);
        keys = λ k. ground (arith, moved (has_key k), h.keys k, key k);
        leased = λ t. ground (arith, moved (leases t), h.leased t, lease t);
      }
