-- ===== src/Examples/Users.antt =====
-- The theorems on accounts and invites at example worlds.
use shuosc_network_server_ba.Common.{
  ℕ, String, ◌≡◌, refl, true, false, some, none, [], ◌∷◌, map, arith,
}
use shuosc_network_server_ba.Common.Words.{
  trim_space, trim_left, trim_right, is_space, rune_len, byte_length, any_rune,
}
use shuosc_network_server_ba.Model.{User, is_available}
use shuosc_network_server_ba.World.{
  World, err, ok, invalid_invite, ◌>>=◌, lift, query, call, gets, pure, fail, modify, exec,
  next_fault, write_db, write_device, after_error, on_error, ignore, configure_device,
}
use shuosc_network_server_ba.Store.Rows.{update_where}
use shuosc_network_server_ba.Store.Users.{
  NewUser, register_bootstrap_admin, register_with_invite, transaction, committed, rolled_back,
  insert_user, user_row, use_invite,
}
use shuosc_network_server_ba.Store.Users.Find.{find_by_student_id, count_users}
use shuosc_network_server_ba.Store.Users.Registration.{
  Enrolled, register_bootstrap_admin-ok, register_with_invite-ok,
}
use shuosc_network_server_ba.Store.Invites.{find_invite_by_code}
use shuosc_network_server_ba.Auth.{
  register, register_trimmed, register_first, register_invited, map_error, password_error,
  validate_password,
}
use shuosc_network_server_ba.Auth.Register.{Registered, register-ok, register-error}
use shuosc_network_server_ba.Account.{update_me, SelfUpdateFields}
use shuosc_network_server_ba.Account.Contacts.{standing, update_me-standing}
use shuosc_network_server_ba.Admin.Invites.{IsWithin}
use shuosc_network_server_ba.Examples.Worlds.{
  example_env, example_world, failing_world, empty_world, example_crypto, example_user,
}

abbrev newcomer : NewUser
newcomer = record {
  student_id = "20250002";
  password = "hash";
  role = "user";
  invite_id = 0;
  max_peers = 5;
  status = "active";
}

abbrev newcomer_row : ℕ → ℕ → String → User
newcomer_row id invite role = record example_user {
  id = id;
  student_id = "20250002";
  role = role;
  invite_id = invite;
  max_peers = 5;
  created_at = 100;
  updated_at = 100;
}

bootstrap-returns : (register_bootstrap_admin newcomer empty_world).0 ≡ ok (newcomer_row 1 0 "user")
unfolding register register_trimmed register_first register_invited map_error password_error
    validate_password trim_space trim_left trim_right is_space rune_len byte_length any_rune
    find_by_student_id count_users register_bootstrap_admin register_with_invite transaction
    committed rolled_back insert_user user_row use_invite find_invite_by_code is_available
    update_where ◌>>=◌ lift query call gets pure fail modify exec next_fault write_db write_device
    after_error on_error ignore configure_device
bootstrap-returns = refl

register_bootstrap_admin-ok_example :
    (empty_world.db.users ≡ [])
    × ((register_bootstrap_admin newcomer empty_world).1.db.users ≡ newcomer_row 1 0 "user" ∷ [])
register_bootstrap_admin-ok_example =
    register_bootstrap_admin-ok empty_world newcomer (newcomer_row 1 0 "user") bootstrap-returns

invite-returns :
    (register_with_invite newcomer "SCNET-AAAA-BBBB" example_world).0 ≡ ok (newcomer_row 4 3 "user")
unfolding register register_trimmed register_first register_invited map_error password_error
    validate_password trim_space trim_left trim_right is_space rune_len byte_length any_rune
    find_by_student_id count_users register_bootstrap_admin register_with_invite transaction
    committed rolled_back insert_user user_row use_invite find_invite_by_code is_available
    update_where ◌>>=◌ lift query call gets pure fail modify exec next_fault write_db write_device
    after_error on_error ignore configure_device
invite-returns = refl

register_with_invite-ok_example :
    Enrolled newcomer "SCNET-AAAA-BBBB" example_world
      (newcomer_row 4 3 "user")
      (register_with_invite newcomer "SCNET-AAAA-BBBB" example_world).1.db
register_with_invite-ok_example =
    register_with_invite-ok example_world newcomer "SCNET-AAAA-BBBB" (newcomer_row 4 3 "user")
      invite-returns

-- Commit fails.
abbrev no_commit : World
no_commit = failing_world (false ∷ false ∷ false ∷ false ∷ true ∷ [])

register-returns :
    (register example_crypto " 20250002" "aaaaaaaaa1" "SCNET-AAAA-BBBB " example_world).0
    ≡ ok (newcomer_row 4 3 "user")
unfolding register register_trimmed register_first register_invited map_error password_error
    validate_password trim_space trim_left trim_right is_space rune_len byte_length any_rune
    find_by_student_id count_users register_bootstrap_admin register_with_invite transaction
    committed rolled_back insert_user user_row use_invite find_invite_by_code is_available
    update_where ◌>>=◌ lift query call gets pure fail modify exec next_fault write_db write_device
    after_error on_error ignore configure_device
register-returns = refl

register-ok_example :
    (validate_password example_crypto "aaaaaaaaa1" ≡ none)
    × Registered example_crypto
        (trim_space " 20250002")
        "aaaaaaaaa1"
        (trim_space "SCNET-AAAA-BBBB ")
        example_world
        (newcomer_row 4 3 "user")
        (register example_crypto " 20250002" "aaaaaaaaa1" "SCNET-AAAA-BBBB " example_world).1.db
register-ok_example =
    register-ok example_world example_crypto " 20250002" "aaaaaaaaa1" "SCNET-AAAA-BBBB "
      (newcomer_row 4 3 "user") register-returns

register-fails :
    (register example_crypto "20250002" "aaaaaaaaa1" "SCNET" example_world).0 ≡ err invalid_invite
unfolding register register_trimmed register_first register_invited map_error password_error
    validate_password trim_space trim_left trim_right is_space rune_len byte_length any_rune
    find_by_student_id count_users register_bootstrap_admin register_with_invite transaction
    committed rolled_back insert_user user_row use_invite find_invite_by_code is_available
    update_where ◌>>=◌ lift query call gets pure fail modify exec next_fault write_db write_device
    after_error on_error ignore configure_device
register-fails = refl

register-error_example :
    (register example_crypto "20250002" "aaaaaaaaa1" "SCNET" example_world).1.db ≡ example_world.db
register-error_example =
    register-error example_world example_crypto "20250002" "aaaaaaaaa1" "SCNET" invalid_invite
      register-fails

pub example_world-IsWithin : IsWithin example_world.db
example_world-IsWithin = record {
  ids = λ id. ground arith;
  fresh = λ id l. ground arith;
  within = refl;
}

abbrev new_contacts : SelfUpdateFields
new_contacts = record {
  display_name = some " Ann ";
  email = none;
  phone = some "";
  wechat = none;
  telegram = none;
}

update_me-standing_example :
    map standing (update_me example_env example_crypto "u1" new_contacts example_world).1.db.users
    ≡ map standing example_world.db.users
update_me-standing_example =
    update_me-standing example_world example_env example_crypto "u1" new_contacts
