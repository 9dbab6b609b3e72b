-- ===== src/Users/Service.antt =====
-- `UserService`: create, update, reset a password, revoke tokens
-- (backend/internal/application/service/user_service.go).
mod Update
pub mod LastAdmin
pub mod Rows
mod Checks
pub mod Runs
pub mod Versions
pub mod Monotone
mod Examples
mod Create
pub mod Passwords
use yunxia.Prelude.{
  ℕ, ◌+◌, List, [], ◌∷◌, Bool, true, false, not, ◌&&◌, ◌||◌, Text, txt, str_eq, ◌==◌, if◌then◌else◌,
  Option, none, some, Result, ok, err, Error, not_found, permission_denied,
  role_assignment_forbidden, last_super_admin_forbidden, user_name_conflict,
}
use yunxia.Permission.{
  RequestAuth, can_assign_role, can_manage_target_role, role_super_admin, status_active,
  status_locked,
}
use yunxia.Users.{
  User, Event, AuditResult, success, failed, denied, Store, Faults, find_by_id, find_by_username,
  create_row, update_row, update_token_version, normalize_input_role_key, normalize_input_status,
  count_active_super_admins,
}

-- A chain of checks ends in a value, or in an error with the audit event that is recorded for it.
pub data Check {ℓ} (A : Type ℓ) : Type ℓ where
  pass : A → Check A
  stop : Option Event → Error → Check A

infixl 5 ◌>>=◌ ◌>>◌
abbrev pub ◌>>=◌ {ℓ κ} : {A : Type ℓ} {B : Type κ} → Check A → (A → Check B) → Check B
pass a >>= f = f a
stop ev e >>= f = stop ev e

abbrev pub ◌>>◌ {ℓ} : {B : Type ℓ} → Check (Unit {0}) → Check B → Check B
m >> k = m >>= λ _. k

abbrev event : Text → AuditResult → Text → Option ℕ → Event
event action result code id = record {
  action = action;
  result = result;
  error_code = code;
  resource_id = id;
}

-- An error ends the chain with the event.
abbrev pub or_stop {ℓ} : {A : Type ℓ} → Option Event → Result A → Check A
or_stop ev (ok a) = pass a
or_stop ev (err e) = stop ev e

abbrev pub stop_if : Bool → Option Event → Error → Check (Unit {0})
stop_if true ev e = stop ev e
stop_if false ev e = pass tt

-- `currentRequestAuth`, with the error that the service makes of it.
abbrev pub current_auth : Option RequestAuth → Check RequestAuth
current_auth none = stop none permission_denied
current_auth (some a) = pass a

abbrev pub log : Option Event → Store → Store
log none s = s
log (some ev) s = record s { audit = ev ∷ s.audit }

-- `CreateUserRequest`
pub record CreateUserRequest : Type 0 where
  pub username : Text
  pub email : Text
  pub password : Text
  pub role_key : Text

-- `UpdateUserRequest`
pub record UpdateUserRequest : Type 0 where
  pub email : Text
  pub role_key : Text
  pub status : Text

-- `UserAdminView`, its times left out.
pub record UserAdminView : Type 0 where
  pub id : ℕ
  pub username : Text
  pub email : Text
  pub role_key : Text
  pub status : Text

-- `toUserAdminView`
pub to_user_admin_view : User → UserAdminView
to_user_admin_view u = record {
  id = u.id;
  username = u.username;
  email = u.email;
  role_key = u.role_key;
  status = u.status;
}

-- A name that is found is taken; one that is not found is free.
free_name : Result User → Check (Unit {0})
free_name (ok u) =
    stop (some (event (txt "create") failed (txt "USER_NAME_CONFLICT") none)) user_name_conflict
free_name (err not_found) = pass tt
free_name (err e) = stop (some (event (txt "create") failed (txt "INTERNAL_ERROR") none)) e

-- The checks of `Create`, and the row that it writes.
pub create_check :
    (Text → Result Text)
    → Faults
    → Option RequestAuth
    → CreateUserRequest
    → Store
    → Check (Store × User)
unfolding free_name
create_check hash f auth req s = do
  actor ← current_auth auth
  role ←
      or_stop (some (event (txt "create") failed (txt "USER_ROLE_INVALID") none))
        (normalize_input_role_key req.role_key)
  stop_if (not (can_assign_role actor.role_key role))
      (some (event (txt "create") denied (txt "ROLE_ASSIGNMENT_FORBIDDEN") none))
      role_assignment_forbidden
  free_name (find_by_username f s.users req.username)
  password ←
      or_stop (some (event (txt "create") failed (txt "INTERNAL_ERROR") none)) (hash req.password)
  let row : User = record {
    id = 0;
    username = req.username;
    email = req.email;
    password_hash = password;
    role_key = role;
    status = status_active;
    token_version = 0;
  }
  or_stop (some (event (txt "create") failed (txt "INTERNAL_ERROR") none)) (create_row f s row)

finish_create : Store → Check (Store × User) → Store × Result UserAdminView
finish_create s (stop ev e) = (log ev s, err e)
finish_create s (pass (t, u)) =
    (log (some (event (txt "create") success [] (some u.id))) t, ok (to_user_admin_view u))

-- `Create`
pub create :
    (Text → Result Text)
    → Faults
    → Option RequestAuth
    → CreateUserRequest
    → Store
    → Store × Result UserAdminView
unfolding finish_create
create hash f auth req s = finish_create s (create_check hash f auth req s)

-- The check that one active super administrator stays.
pub last_super_admin_check : Faults → List User → ℕ → User → Text → Text → Check (Unit {0})
last_super_admin_check f users id user role status =
    if str_eq user.role_key role_super_admin
      && (not (str_eq role role_super_admin) || str_eq status status_locked)
    then (do
      n ← or_stop none (count_active_super_admins f users)
      stop_if (n == 1)
          (some (event (txt "update") denied (txt "LAST_SUPER_ADMIN_FORBIDDEN") (some id)))
          last_super_admin_forbidden)
    else pass tt

-- The user as `Update` writes it.
pub updated : User → UpdateUserRequest → Text → Text → User
updated user req role status =
    let changed = not (str_eq user.role_key role) || not (str_eq user.status status) in
    record user {
      email = req.email;
      role_key = role;
      status = status;
      token_version = if changed then user.token_version + 1 else user.token_version;
    }

-- The checks of `Update`, and the user that it writes.
pub update_check : Faults → Option RequestAuth → ℕ → UpdateUserRequest → Store → Check User
update_check f auth id req s = do
  actor ← current_auth auth
  user ←
      or_stop (some (event (txt "update") failed (txt "USER_NOT_FOUND") (some id)))
        (find_by_id f s.users id)
  role ←
      or_stop (some (event (txt "update") failed (txt "USER_ROLE_INVALID") (some id)))
        (normalize_input_role_key req.role_key)
  status ←
      or_stop (some (event (txt "update") failed (txt "USER_STATUS_INVALID") (some id)))
        (normalize_input_status req.status)
  stop_if
      (not (can_manage_target_role actor.role_key user.role_key)
        || not (can_assign_role actor.role_key role))
      (some (event (txt "update") denied (txt "ROLE_ASSIGNMENT_FORBIDDEN") (some id)))
      role_assignment_forbidden
  last_super_admin_check f s.users id user role status
  pass (updated user req role status)

-- The write at the end of an operation on one user.
write_user : Faults → Store → ℕ → Text → User → Check Store
write_user f s id action u =
    or_stop (some (event action failed (txt "INTERNAL_ERROR") (some id))) (update_row f s u)

finish_update : Faults → Store → ℕ → Check User → Store × Result UserAdminView
unfolding write_user
finish_update f s id (stop ev e) = (log ev s, err e)
finish_update f s id (pass u) = elim (write_user f s id (txt "update") u) [
  | stop ev e ↦ (log ev s, err e)
  | pass t ↦ (log (some (event (txt "update") success [] (some id))) t, ok (to_user_admin_view u))
]

-- `Update`
pub update :
    Faults → Option RequestAuth → ℕ → UpdateUserRequest → Store → Store × Result UserAdminView
unfolding finish_update
update f auth id req s = finish_update f s id (update_check f auth id req s)

unfoldable pub finish_quietly : Store → ℕ → Text → Check Store → Store × Result (Unit {0})
finish_quietly s id action (stop ev e) = (log ev s, err e)
finish_quietly s id action (pass t) = (log (some (event action success [] (some id))) t, ok tt)

-- `ResetPassword`
pub reset_password : (Text → Result Text) → Faults → ℕ → Text → Store → Store × Result (Unit {0})
unfolding finish_quietly write_user
reset_password hash f id new_password s = finish_quietly s id (txt "reset_password") do
  user ←
      or_stop (some (event (txt "reset_password") failed (txt "USER_NOT_FOUND") (some id)))
        (find_by_id f s.users id)
  password ←
      or_stop (some (event (txt "reset_password") failed (txt "INTERNAL_ERROR") (some id)))
        (hash new_password)
  write_user f s id (txt "reset_password") (record user { password_hash = password })

-- `RevokeTokens`
unfoldable pub revoke_tokens : Faults → ℕ → Store → Store × Result (Unit {0})
unfolding finish_quietly
revoke_tokens f id s = finish_quietly s id (txt "revoke_tokens") do
  user ←
      or_stop (some (event (txt "revoke_tokens") failed (txt "USER_NOT_FOUND") (some id)))
        (find_by_id f s.users id)
  or_stop (some (event (txt "revoke_tokens") failed (txt "INTERNAL_ERROR") (some id)))
      (update_token_version f s id (user.token_version + 1))
