-- ===== src/Users/Service/Examples.antt =====
-- A table of two users, and each theorem on the administration of users at an input.
use yunxia.Prelude.{
  ◌<◌, [], ◌∷◌, Text, txt, trim_space, none, some, Result, ok, err, not_found,
  last_super_admin_forbidden, ◌≡◌, ◌≢◌, refl, arith,
}
use yunxia.Permission.{
  RequestAuth, role_super_admin, role_admin, role_user, status_active, status_locked, is_valid_role,
  is_valid_status, can_assign_role, can_manage_target_role,
}
use yunxia.Users.{
  User, Store, Faults, first_by, find_by_id, find_by_username, list_by_status, create_row, has_id,
  replace, update_row, set_token_version, update_token_version, normalize_input_role_key,
  normalize_input_status, count_active_super_admins,
}
use yunxia.Users.Service.{
  CreateUserRequest, UpdateUserRequest, create, update, reset_password, revoke_tokens, free_name,
  create_check, finish_create, last_super_admin_check, updated, update_check, write_user,
  finish_update, finish_quietly,
}
use yunxia.Users.Service.Rows.{Distinct, none_left, one_more, has_name, weight, super_admins}
use yunxia.Users.Service.Update
use yunxia.Users.Service.Create
use yunxia.Users.Service.Passwords.{
  EndsWell, IsReset, IsRevoked, reset_password-EndsWell, revoke_tokens-EndsWell,
}
use yunxia.Users.Service.LastAdmin.{update_keeps_super_admin}
use yunxia.Users.Service.Versions.{IsPast}
use yunxia.Users.Service.Monotone.{Reaches-IsPast}
use yunxia.Users.Service.Runs.{IsSound, here, then_step, creates, updates, Reaches-IsSound}

program : Unit {0}
unfolding trim_space is_valid_role is_valid_status can_assign_role can_manage_target_role first_by
    find_by_id find_by_username list_by_status create_row has_id replace update_row
    set_token_version update_token_version normalize_input_role_key normalize_input_status
    count_active_super_admins free_name create_check finish_create last_super_admin_check updated
    update_check write_user finish_update finish_quietly create update reset_password revoke_tokens
    has_name weight super_admins
program = tt

abbrev root_user : User
root_user = record {
  id = 1;
  username = txt "root";
  email = [];
  password_hash = txt "h0";
  role_key = role_super_admin;
  status = status_active;
  token_version = 0;
}

abbrev ann : User
ann = record root_user { id = 2; username = txt "ann"; role_key = role_user }

abbrev store : Store
store = record { users = root_user ∷ ann ∷ []; next_id = 3; audit = [] }

abbrev no_faults : Faults
no_faults = record { find = none; list = none; create = none; update = none }

abbrev root_auth : RequestAuth
root_auth = record {
  user_id = 1;
  username = txt "root";
  role_key = role_super_admin;
  status = status_active;
  capabilities = [];
}

abbrev plain_hash : Text → Result Text
plain_hash password = ok password

abbrev lock_request : UpdateUserRequest
lock_request = record { email = []; role_key = role_super_admin; status = status_locked }

abbrev admin_request : UpdateUserRequest
admin_request = record { email = []; role_key = role_admin; status = status_active }

abbrev new_user : CreateUserRequest
new_user = record { username = txt "bob"; email = []; password = txt "pw"; role_key = role_user }

-- The only super administrator cannot lock themselves out.
lock_out_refused :
    (update no_faults (some root_auth) 1 lock_request store).1 ≡ err last_super_admin_forbidden
unfolding program
lock_out_refused = refl

store-Distinct : Distinct store.users
unfolding program
store-Distinct = one_more refl refl (one_more refl refl none_left)

store-IsSound : IsSound store
unfolding program
store-IsSound = record {
  distinct = store-Distinct;
  below = λ i h. ground (arith, h);
  governed = omega arith;
}

honest : no_faults.find ≢ some not_found
honest e = cc

update-IsOutcome_example :
    Update.IsOutcome no_faults
      (some root_auth)
      2
      admin_request
      store
      ((update no_faults (some root_auth) 2 admin_request store).0)
      ((update no_faults (some root_auth) 2 admin_request store).1)
update-IsOutcome_example = Update.update-IsOutcome no_faults (some root_auth) 2 admin_request store

update_keeps_super_admin_example :
    0 < super_admins ((update no_faults (some root_auth) 1 lock_request store).0.users)
unfolding program
update_keeps_super_admin_example =
    update_keeps_super_admin no_faults (some root_auth) 1 lock_request store store-Distinct
      (omega arith)

create-IsOutcome_example :
    Create.IsOutcome plain_hash
      (some root_auth)
      new_user
      store
      ((create plain_hash no_faults (some root_auth) new_user store).0)
      ((create plain_hash no_faults (some root_auth) new_user store).1)
create-IsOutcome_example =
    Create.create-IsOutcome plain_hash no_faults (some root_auth) new_user store honest

reset_password-EndsWell_example :
    EndsWell
      (IsReset plain_hash no_faults 2 (txt "pw") store)
      store
      ((reset_password plain_hash no_faults 2 (txt "pw") store).0)
      ((reset_password plain_hash no_faults 2 (txt "pw") store).1)
reset_password-EndsWell_example = reset_password-EndsWell plain_hash no_faults 2 (txt "pw") store

revoke_tokens-EndsWell_example :
    EndsWell
      (IsRevoked no_faults 2 store)
      store
      ((revoke_tokens no_faults 2 store).0)
      ((revoke_tokens no_faults 2 store).1)
revoke_tokens-EndsWell_example = revoke_tokens-EndsWell no_faults 2 store

-- The store after a user is created and another is promoted.
abbrev after : Store
after =
    (update no_faults (some root_auth) 2 admin_request
      ((create plain_hash no_faults (some root_auth) new_user store).0)).0

Reaches-IsSound_example : IsSound after
Reaches-IsSound_example = Reaches-IsSound plain_hash store after store-IsSound (
    then_step (then_step here (creates no_faults (some root_auth) new_user honest))
      (updates no_faults (some root_auth) 2 admin_request))

ann-IsPast : IsPast 2 0 store.users
unfolding program
ann-IsPast = record { user = ann; found = refl; past = omega (arith) }

Reaches-IsPast_example : IsPast 2 0 after.users
Reaches-IsPast_example =
    Reaches-IsPast plain_hash 2 0 store after store-IsSound
      (then_step (then_step here (creates no_faults (some root_auth) new_user honest))
        (updates no_faults (some root_auth) 2 admin_request))
      ann-IsPast
