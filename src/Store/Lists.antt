-- ===== src/Store/Lists.antt =====
-- The paged lists of internal/store: List of the three stores and ListByUserID of the peer store. LIKE
-- and ORDER BY are PostgreSQL's, so they are a parameter.
pub mod Pages
use shuosc_network_server_ba.Common.{
  ℕ, ◌-◌, ◌*◌, ◌%◌, ◌^◌, String, Bool, true, false, ◌&&◌, ◌||◌, Option, none, some, List, [], ◌∷◌,
  ◌==◌, str_eq, leb, if◌then◌else◌, first, select, count, length, take, drop,
}
use shuosc_network_server_ba.Common.Words.{concat, is_empty}
use shuosc_network_server_ba.Model.{User, Peer, InviteCode}
use shuosc_network_server_ba.World.{
  World, Db, Result, ok, err, db_failure, Action, pure, lift, gets, ◌>>=◌, query, read_rows,
}
use shuosc_network_server_ba.Store.Users.Find.{has_user_id}
use shuosc_network_server_ba.Store.Invites.{listed_as}

-- PeerWithStudent.
pub record PeerWithStudent : Type 0 where
  pub peer : Peer
  pub student_id : String

-- `text LIKE pattern`, and ORDER BY with its column and whether it ascends. Rows with the same value
-- come in any order, and in another one for another LIMIT and OFFSET.
pub record Sql : Type 0 where
  pub like : String → String → Bool
  pub order_users : String → Bool → ℕ → ℕ → List User → List User
  pub order_peers : String → Bool → ℕ → ℕ → List PeerWithStudent → List PeerWithStudent
  pub order_invites : String → Bool → ℕ → ℕ → List InviteCode → List InviteCode

pub record UserListParams : Type 0 where
  pub page : ℕ
  pub page_size : ℕ
  pub student_id : String
  pub status : String
  pub role : String
  pub sort_by : String
  pub sort_order : String

pub record PeerListParams : Type 0 where
  pub page : ℕ
  pub page_size : ℕ
  pub status : String
  pub student_id : String
  pub public_key : String
  pub sort_by : String
  pub sort_order : String

pub record PeerListByUserParams : Type 0 where
  pub page : ℕ
  pub page_size : ℕ
  pub status : String

pub record InviteListParams : Type 0 where
  pub page : ℕ
  pub page_size : ℕ
  pub code : String
  pub state : String

pub record ListResult (A : Type 0) : Type 0 where
  pub items : List A
  pub total : ℕ

-- `(Page - 1) * PageSize` as an int, by its 64 bits; the callers give a page of at least 1.
unfoldable pub offset : ℕ → ℕ → ℕ
offset page page_size = ((page - 1) * page_size) % 2 ^ 64

-- `LIMIT page_size OFFSET offset`; a negative offset is an error of the database.
unfoldable pub rows_of_page : {A : Type 0} → ℕ → ℕ → List A → Result (List A)
rows_of_page page page_size rows =
    if leb (2 ^ 63) (offset page page_size)
    then err db_failure
    else ok (take page_size (drop (offset page page_size) rows))

-- The two queries of a list.
unfoldable pub list_page : {A : Type 0} → (Db → ℕ) → (Db → List A) → ℕ → ℕ → Action (ListResult A)
list_page counted rows page page_size = do
  total ← query counted
  found ← query rows
  rows_there ← lift (rows_of_page page page_size found)
  items ← read_rows rows_there
  pure (record { items = items; total = total })

-- A condition that an empty parameter does not add.
abbrev pub unless_empty : String → Bool → Bool
unless_empty param b = is_empty param || b

abbrev pub ascending : String → Bool
ascending sort_order = str_eq sort_order "ASC"

abbrev pub containing : String → String
containing s = concat "%" (concat s "%")

unfoldable pub user_matches : Sql → UserListParams → User → Bool
user_matches sql params u =
    unless_empty params.student_id (sql.like (containing params.student_id) u.student_id)
    && unless_empty params.status (str_eq u.status params.status)
    && unless_empty params.role (str_eq u.role params.role)

abbrev pub user_column : String → String
user_column sort_by =
    if str_eq sort_by "student_id"
      || str_eq sort_by "status"
      || str_eq sort_by "role"
      || str_eq sort_by "display_name"
    then sort_by
    else "created_at"

unfoldable pub users_listed : Sql → UserListParams → Db → List User
users_listed sql params db =
    sql.order_users (user_column params.sort_by) (ascending params.sort_order) params.page_size
      (offset params.page params.page_size) (select (user_matches sql params) db.users)

-- List of the user store.
unfoldable pub list_users : Sql → UserListParams → Action (ListResult User)
list_users sql params =
    list_page (λ db. count (user_matches sql params) db.users) (users_listed sql params) params.page
      params.page_size

-- `peers p JOIN users u ON p.user_id = u.id`: users.id is the primary key.
unfoldable pub joined_with : Peer → Option User → List PeerWithStudent → List PeerWithStudent
joined_with p none rest = rest
joined_with p (some u) rest = record { peer = p; student_id = u.student_id } ∷ rest

unfoldable pub join_users : List User → List Peer → List PeerWithStudent
join_users us [] = []
join_users us (p ∷ ps) = joined_with p (first (has_user_id p.user_id) us) (join_users us ps)

unfoldable pub peer_matches : Sql → PeerListParams → PeerWithStudent → Bool
peer_matches sql params p =
    unless_empty params.status (str_eq p.peer.status params.status)
    && unless_empty params.student_id (sql.like (containing params.student_id) p.student_id)
    && unless_empty params.public_key (sql.like (containing params.public_key) p.peer.public_key)

abbrev pub peer_column : String → String
peer_column sort_by =
    if str_eq sort_by "status" || str_eq sort_by "public_key" || str_eq sort_by "assigned_ip"
    then sort_by
    else "created_at"

unfoldable pub peers_listed : Sql → PeerListParams → Db → List PeerWithStudent
peers_listed sql params db =
    sql.order_peers (peer_column params.sort_by) (ascending params.sort_order) params.page_size
      (offset params.page params.page_size)
      (select (peer_matches sql params) (join_users db.users db.peers))

-- List of the peer store.
unfoldable pub list_peers : Sql → PeerListParams → Action (ListResult PeerWithStudent)
list_peers sql params =
    list_page (λ db. count (peer_matches sql params) (join_users db.users db.peers))
      (peers_listed sql params) params.page params.page_size

unfoldable pub of_user : ℕ → String → Peer → Bool
of_user user_id status p = (p.user_id == user_id) && unless_empty status (str_eq p.status status)

-- ListByUserID; the count is one of the peers alone.
unfoldable pub list_by_user_id :
    Sql → ℕ → PeerListByUserParams → Action (ListResult PeerWithStudent)
list_by_user_id sql user_id params =
    list_page (λ db. count (of_user user_id params.status) db.peers)
      (λ db.
        sql.order_peers "created_at" false params.page_size (offset params.page params.page_size)
          (join_users db.users (select (of_user user_id params.status) db.peers)))
      params.page params.page_size

unfoldable pub invite_matches : Sql → InviteListParams → ℕ → InviteCode → Bool
invite_matches sql params now i =
    unless_empty params.code (sql.like (containing params.code) i.code)
    && listed_as params.state now i

-- List of the invite store.
unfoldable pub list_invites : Sql → InviteListParams → Action (ListResult InviteCode)
list_invites sql params = do
  now ← gets (λ w. w.now)
  list_page (λ db. count (invite_matches sql params now) db.invites)
      (λ db.
        sql.order_invites "created_at" false params.page_size (offset params.page params.page_size)
          (select (invite_matches sql params now) db.invites))
      params.page params.page_size
