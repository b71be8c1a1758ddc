-- ===== src/Store/Peers.antt =====
-- internal/store/peer_store.go. The peers table has a unique public_key and refers to users.
pub mod Counts
pub mod Active
use shuosc_network_server_ba.Common.{
  ℕ, zero, suc, ◌+◌, String, Bool, true, false, ◌&&◌, Option, none, some, List, [], ◌∷◌, ◌++◌, ◌==◌,
  str_eq, select, first, count, if◌then◌else◌,
}
use shuosc_network_server_ba.Common.Text.{Text}
use shuosc_network_server_ba.Model.{User, Peer}
use shuosc_network_server_ba.World.{
  Db, Result, ok, err, db_failure, Action, query, query_rows, exec,
}
use shuosc_network_server_ba.Store.Rows.{update_where}

-- The conditions of the queries.
abbrev pub has_id : ℕ → Peer → Bool
has_id id p = p.id == id

abbrev pub has_key : String → Peer → Bool
has_key key p = str_eq p.public_key key

abbrev pub is_active_peer : Peer → Bool
is_active_peer p = str_eq p.status "active"

abbrev pub is_active_of : ℕ → Peer → Bool
is_active_of user_id p = (p.user_id == user_id) && str_eq p.status "active"

abbrev pub user_exists : ℕ → List User → Bool
user_exists id [] = false
user_exists id (u ∷ us) = if u.id == id then true else user_exists id us

abbrev pub key_exists : String → List Peer → Bool
key_exists key [] = false
key_exists key (p ∷ ps) = if str_eq p.public_key key then true else key_exists key ps

-- What the caller of Create sets of a model.Peer; the database sets the rest.
pub record NewPeer : Type 0 where
  pub user_id : ℕ
  pub public_key : String
  pub assigned_ip : Text
  pub status : String
  pub last_seen : Option ℕ

unfoldable pub row_of : NewPeer → ℕ → ℕ → Peer
row_of n id now = record {
  id = id;
  user_id = n.user_id;
  public_key = n.public_key;
  assigned_ip = n.assigned_ip;
  status = n.status;
  last_seen = n.last_seen;
  created_at = now;
  updated_at = now;
}

-- INSERT INTO peers ... RETURNING id, created_at, updated_at
unfoldable pub insert_peer : NewPeer → ℕ → Db → Result (Peer × Db)
unfolding row_of
insert_peer n now db =
    if key_exists n.public_key db.peers
    then err db_failure
    else if user_exists n.user_id db.users
    then ok (
      row_of n db.next_id now,
      record db { peers = db.peers ++ (row_of n db.next_id now ∷ []); next_id = suc db.next_id },
    )
    else err db_failure

unfoldable pub create : NewPeer → Action Peer
create n = exec (insert_peer n)

unfoldable pub find_active_by_user_id : ℕ → Action (List Peer)
find_active_by_user_id user_id = query_rows (λ db. select (is_active_of user_id) db.peers)

unfoldable pub find_by_public_key : String → Action (Option Peer)
find_by_public_key key = query (λ db. first (has_key key) db.peers)

unfoldable pub find_by_id : ℕ → Action (Option Peer)
find_by_id id = query (λ db. first (has_id id) db.peers)

unfoldable pub list_active : Action (List Peer)
list_active = query_rows (λ db. select is_active_peer db.peers)

unfoldable pub count_active_by_user_id : ℕ → Action ℕ
count_active_by_user_id user_id = query (λ db. count (is_active_of user_id) db.peers)

-- UPDATE peers SET ..., updated_at = NOW() WHERE id = $2, which is no error if no row has the id.
unfoldable pub set_peer : ℕ → (ℕ → Peer → Peer) → ℕ → Db → Result (Unit {0} × Db)
set_peer id f now db = ok (tt, record db { peers = update_where (has_id id) (f now) db.peers })

abbrev pub activated : Text → ℕ → Peer → Peer
activated ip now p = record p { assigned_ip = ip; status = "active"; updated_at = now }

abbrev pub with_status : String → ℕ → Peer → Peer
with_status status now p = record p { status = status; updated_at = now }

abbrev pub with_key : String → ℕ → Peer → Peer
with_key key now p = record p { public_key = key; updated_at = now }

abbrev pub with_last_seen : ℕ → ℕ → Peer → Peer
with_last_seen t now p = record p { last_seen = some t; updated_at = now }

unfoldable pub activate : ℕ → Text → Action (Unit {0})
activate id ip = exec (set_peer id (activated ip))

unfoldable pub update_status : ℕ → String → Action (Unit {0})
update_status id status = exec (set_peer id (with_status status))

-- The unique constraint refuses a key that another row has.
unfoldable pub set_key : ℕ → String → ℕ → Db → Result (Unit {0} × Db)
unfolding set_peer
set_key id key now db = elim (first (has_key key) db.peers) [
  | none ↦ set_peer id (with_key key) now db
  | some p ↦
      if p.id == id then set_peer id (with_key key) now db else elim (first (has_id id) db.peers) [
        | none ↦ set_peer id (with_key key) now db
        | some q ↦ err db_failure
      ]
]

unfoldable pub update_public_key : ℕ → String → Action (Unit {0})
update_public_key id key = exec (set_key id key)

unfoldable pub update_last_seen : ℕ → ℕ → Action (Unit {0})
update_last_seen id t = exec (set_peer id (with_last_seen t))
