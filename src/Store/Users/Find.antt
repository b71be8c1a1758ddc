-- ===== src/Store/Users/Find.antt =====
-- The lookups of internal/store/user_store.go. The users table has a unique student_id.
use shuosc_network_server_ba.Common.{ℕ, String, Bool, Option, ◌==◌, str_eq, first, length}
use shuosc_network_server_ba.Model.{User}
use shuosc_network_server_ba.World.{Action, query}

abbrev pub has_user_id : ℕ → User → Bool
has_user_id id u = u.id == id

abbrev pub has_student_id : String → User → Bool
has_student_id student_id u = str_eq u.student_id student_id

unfoldable pub find_user_by_id : ℕ → Action (Option User)
find_user_by_id id = query (λ db. first (has_user_id id) db.users)

unfoldable pub find_by_student_id : String → Action (Option User)
find_by_student_id student_id = query (λ db. first (has_student_id student_id) db.users)

-- SELECT COUNT(*) FROM users
unfoldable pub count_users : Action ℕ
count_users = query (λ db. length db.users)
