-- ===== src/Store/Lists/Pages.antt =====
-- The pages of a list, read one after another.
use shuosc_network_server_ba.Common.{
  ℕ, zero, suc, ◌+◌, ◌-◌, ◌*◌, ◌%◌, ◌^◌, ◌≤◌, ◌<◌, ◌≡◌, refl, ◌∙◌, ap, sym, Bool, true, false, List,
  [], ◌∷◌, ◌++◌, arith, select, count, length, length-select, String, take, drop, leb, Option, none,
  some, str_eq, ◌==◌, if◌then◌else◌,
}
use shuosc_network_server_ba.Model.{User}
use shuosc_network_server_ba.World.{
  World, Db, ok, Action, pure, lift, gets, ◌>>=◌, query, call, next_fault, read_rows,
}
use shuosc_network_server_ba.Store.Lists.{
  Sql, UserListParams, ListResult, offset, rows_of_page, list_page, user_matches, users_listed,
  list_users, user_column,
}

-- A client that reads the first pages of a list.
unfoldable pub first_pages : {A : Type 0} → (ℕ → Action (ListResult A)) → ℕ → Action (List A)
first_pages list zero = pure []
first_pages list (suc n) = do
  earlier ← first_pages list n
  page ← list (suc n)
  pure (earlier ++ page.items)

plus_zero : (n : ℕ) → n ≡ 0 + n
plus_zero n = omega arith

suc_plus : (m n : ℕ) → suc (m + n) ≡ suc m + n
suc_plus m n = omega arith

pred_suc : (n : ℕ) → suc n - 1 ≡ n
pred_suc n = omega arith

small_int : (x : ℕ) → x < 2 ^ 63 → (leb (2 ^ 63) (x % 2 ^ 64) ≡ false) × (x % 2 ^ 64 ≡ x)
small_int x h = ground arith

zero_times : (k : ℕ) → 0 * k ≡ 0
zero_times k = omega arith

suc_times : (n k : ℕ) → suc n * k ≡ n * k + k
suc_times n k = omega arith

module _ {A : Type 0} where
  take-empty : (n : ℕ) → take {A = A} n [] ≡ []
  take-empty zero = refl
  take-empty (suc n) = refl

  at_length : {m n : ℕ} (xs : List A) → m ≡ n → take m xs ≡ take n xs
  at_length xs e = ap (λ k. take k xs) e

  take-add : (m n : ℕ) (xs : List A) → take m xs ++ take n (drop m xs) ≡ take (m + n) xs
  take-add zero n xs = at_length xs (plus_zero n)
  take-add (suc m) n [] = take-empty n ∙ sym (take-empty (suc m + n))
  take-add (suc m) n (x ∷ xs) =
      ap (λ ys. x ∷ ys) (take-add m n xs) ∙ at_length (x ∷ xs) (suc_plus m n)

  take-all : (n : ℕ) (xs : List A) → length xs ≤ n → take n xs ≡ xs
  take-all zero [] h = refl
  take-all zero (x ∷ xs) h = absurd (omega (arith, h))
  take-all (suc n) [] h = refl
  take-all (suc n) (x ∷ xs) h = ap (λ ys. x ∷ ys) (take-all n xs (omega (arith, h)))

  query-calm : (f : Db → A) (w : World) → w.faults ≡ [] → query f w ≡ (ok (f w.db), w)
  unfolding query call ◌>>=◌ gets next_fault
  query-calm f w calm = rw calm refl

  page_at :
      (n page_size : ℕ) (rows : List A)
      → n * page_size < 2 ^ 63
      → rows_of_page (suc n) page_size rows ≡ ok (take page_size (drop (n * page_size) rows))
  unfolding rows_of_page offset
  page_at n page_size rows small =
      let (low, same) = small_int (n * page_size) small in rw (pred_suc n, low, same) refl

  page-calm :
      (counted : Db → ℕ) (rows : Db → List A) (n page_size : ℕ) (w : World)
      → w.faults ≡ []
      → n * page_size < 2 ^ 63
      → list_page counted rows (suc n) page_size w ≡ (
        ok (record {
          items = take page_size (drop (n * page_size) (rows w.db));
          total = counted w.db;
        }),
        w,
      )
  unfolding list_page query call next_fault ◌>>=◌ gets lift pure read_rows
  page-calm counted rows n page_size w calm small =
      rw (calm, page_at n page_size (rows w.db) small) refl

  pages-calm :
      (counted : Db → ℕ) (rows : ℕ → Db → List A) (whole : List A) (n page_size : ℕ) (w : World)
      → ((page : ℕ) → rows page w.db ≡ whole)
      → w.faults ≡ []
      → n * page_size < 2 ^ 63
      → first_pages (λ page. list_page counted (rows page) page page_size) n w
        ≡ (ok (take (n * page_size) whole), w)
  unfolding first_pages ◌>>=◌ pure
  pages-calm counted rows whole zero page_size w same calm small = rw (zero_times page_size) refl
  pages-calm counted rows whole (suc n) page_size w same calm small =
      let before : n * page_size < 2 ^ 63 = omega (arith, small, suc_times n page_size) in
      rw
        (
          pages-calm counted rows whole n page_size w same calm before,
          page-calm counted (rows (suc n)) n page_size w calm before,
          same (suc n),
          suc_times n page_size,
        )
        (ap (λ xs. (ok xs, w)) (take-add (n * page_size) page_size whole))

  count-take_all :
      (rows : List A) (k : ℕ) (q : A → Bool) (xs : List A)
      → count q rows ≡ count q xs
      → length rows ≤ k
      → count q (take k rows) ≡ count q xs
  count-take_all rows k q xs same short = rw (take-all k rows short) same

count-everything : {A : Type 0} (xs : List A) → count (λ _. true) xs ≡ length xs
count-everything [] = refl
count-everything (x ∷ xs) = omega (arith, count-everything xs)

abbrev pub same_name : Option String → Option String → Bool
same_name none none = true
same_name none (some t) = false
same_name (some s) none = false
same_name (some s) (some t) = str_eq s t

-- Whether two users have the same value in a column that the list can be ordered by.
unfoldable pub same_in : String → User → User → Bool
same_in column u v =
    if str_eq column "student_id"
    then str_eq u.student_id v.student_id
    else if str_eq column "status"
    then str_eq u.status v.status
    else if str_eq column "role"
    then str_eq u.role v.role
    else if str_eq column "display_name"
    then same_name u.display_name v.display_name
    else u.created_at == v.created_at

-- No two users have the same value in a column.
abbrev pub Apart : String → List User → Type 0
Apart column [] = Unit {0}
Apart column (u ∷ us) = (count (same_in column u) us ≡ 0) × Apart column us

-- What PostgreSQL documents of ORDER BY: it only reorders, and the order does not depend on LIMIT and
-- OFFSET where no two rows have the same value in its column.
pub record Orders (sql : Sql) : Type 0 where
  pub reorders :
      (column : String) (up : Bool) (limit skipped : ℕ) (us : List User) (q : User → Bool)
      → count q (sql.order_users column up limit skipped us) ≡ count q us
  pub settled :
      (column : String) (up : Bool) (limit skipped skipped' : ℕ) (us : List User)
      → Apart column us
      → sql.order_users column up limit skipped us ≡ sql.order_users column up limit skipped' us

-- If no two matching users have the same value in the column of the order, a client that reads enough
-- pages of the user list gets every user that matches, and each as often as the table has it: no row is
-- on two pages or on none, if no call fails and the offset fits an int. This supposes of ORDER BY what
-- PostgreSQL documents.
pub list_users-pages :
    (sql : Sql) (params : UserListParams) (n : ℕ) (w : World)
    → Orders sql
    → Apart (user_column params.sort_by) (select (user_matches sql params) w.db.users)
    → w.faults ≡ []
    → n * params.page_size < 2 ^ 63
    → count (user_matches sql params) w.db.users ≤ n * params.page_size
    → (rows : List User) × (first_pages (λ page. list_users sql (record params { page = page })) n w
        ≡ (ok rows, w))
      × ((q : User → Bool) → count q rows ≡ count q (select (user_matches sql params) w.db.users))
unfolding list_users users_listed user_matches
list_users-pages sql params n w orders apart calm small enough =
    let k = n * params.page_size in
    let matching = select (user_matches sql params) w.db.users in
    let listed = users_listed sql (record params { page = 1 }) w.db in
    let same : (q : User → Bool) → count q listed ≡ count q matching =
      λ q. orders.reorders _ _ _ _ matching q in
    let short : length listed ≤ k = omega (
      arith,
      enough,
      count-everything listed,
      count-everything matching,
      same (λ _. true),
      length-select (user_matches sql params) w.db.users,
    ) in
    (
      take k listed,
      pages-calm (λ db. count (user_matches sql params) db.users)
          (λ page. users_listed sql (record params { page = page })) listed n params.page_size w
          (λ page. orders.settled _ _ _ _ _ matching apart) calm small,
      λ q. count-take_all listed k q matching (same q) short,
    )
