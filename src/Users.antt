-- ===== src/Users.antt =====
-- The administration of users (backend/internal/application/service/user_service.go over
-- backend/internal/infrastructure/persistence/gorm/user_repo_impl.go). A call takes the store and
-- returns the new store with its result; the audit trail is part of the store. What the database
-- may answer beside its rows, and the password hasher, are arguments.
pub mod Service
use yunxia.Prelude.{
  ℕ, suc, ◌+◌, List, [], ◌∷◌, ◌++◌, Bool, true, false, not, ◌&&◌, ◌||◌, Text, txt, str_eq, is_empty,
  ◌==◌, if◌then◌else◌, keep, length, trim_space, Option, none, some, Result, ok, err, Error,
  not_found, user_role_invalid, user_status_invalid, ◌>>=◌,
}
use yunxia.Permission.{is_valid_role, is_valid_status, status_active, role_super_admin}

-- `entity.User`, its times left out. The version of the tokens, an `int` in Go, does not wrap around
-- here.
pub record User : Type 0 where
  pub id : ℕ
  pub username : Text
  pub email : Text
  pub password_hash : Text
  pub role_key : Text
  pub status : Text
  pub token_version : ℕ

-- `audit.Event`, as far as the service fills it in on every path.
pub data AuditResult : Type 0 where
  success failed denied : AuditResult

pub record Event : Type 0 where
  pub action : Text
  pub result : AuditResult
  pub error_code : Text
  pub resource_id : Option ℕ

-- The users' table with the next primary key, and the audit trail, newest first.
pub record Store : Type 0 where
  pub users : List User
  pub next_id : ℕ
  pub audit : List Event

-- The error that the database answers each kind of call with in this run; none if it works.
pub record Faults : Type 0 where
  pub find : Option Error
  pub list : Option Error
  pub create : Option Error
  pub update : Option Error

abbrev pub unless {ℓ} : {A : Type ℓ} → Option Error → Result A → Result A
unless none r = r
unless (some e) r = err e

unfoldable pub first_by : (User → Bool) → List User → Result User
first_by p [] = err not_found
first_by p (u ∷ us) = let rest = first_by p us in if p u then ok u else rest

-- `FindByID`
unfoldable pub find_by_id : Faults → List User → ℕ → Result User
find_by_id f users id = unless f.find (first_by (λ u. u.id == id) users)

-- `FindByUsername`
unfoldable pub find_by_username : Faults → List User → Text → Result User
find_by_username f users name = unless f.find (first_by (λ u. str_eq u.username name) users)

-- `List` with a status filter and no keyword; the order plays no part here.
pub list_by_status : Faults → List User → Text → Result (List User)
list_by_status f users status = unless f.list (
    ok (
      if is_empty (trim_space status)
      then users
      else keep (λ u. str_eq u.status (trim_space status)) users))

-- `Create`: the row gets the next key.
pub create_row : Faults → Store → User → Result (Store × User)
create_row f s u =
    let row = record u { id = s.next_id } in
    unless f.create (ok (record s { users = row ∷ s.users; next_id = s.next_id + 1 }, row))

unfoldable pub has_id : ℕ → List User → Bool
has_id id [] = false
has_id id (u ∷ us) = u.id == id || has_id id us

pub replace : User → List User → List User
replace new [] = []
replace new (u ∷ us) =
    let rest = replace new us in
    (if u.id == new.id then record new { id = u.id; username = u.username } else u) ∷ rest

-- `Update`: every column but the key and the user name.
pub update_row : Faults → Store → User → Result Store
update_row f s u =
    unless f.update
      (if has_id u.id s.users then ok (record s { users = replace u s.users }) else err not_found)

unfoldable pub set_token_version : ℕ → ℕ → List User → List User
set_token_version id v [] = []
set_token_version id v (u ∷ us) =
    let rest = set_token_version id v us in
    (if u.id == id then record u { token_version = v } else u) ∷ rest

-- `UpdateTokenVersion`
unfoldable pub update_token_version : Faults → Store → ℕ → ℕ → Result Store
update_token_version f s id v = unless f.update (
    if has_id id s.users
    then ok (record s { users = set_token_version id v s.users })
    else err not_found)

-- `normalizeInputRoleKey`
pub normalize_input_role_key : Text → Result Text
normalize_input_role_key role =
    let trimmed = trim_space role in
    if is_valid_role trimmed then ok trimmed else err user_role_invalid

-- `normalizeInputStatus`
pub normalize_input_status : Text → Result Text
normalize_input_status status =
    let trimmed = trim_space status in
    if is_valid_status trimmed then ok trimmed else err user_status_invalid

abbrev pub is_super_admin : User → Bool
is_super_admin u = str_eq u.role_key role_super_admin

-- `countActiveSuperAdmins`
pub count_active_super_admins : Faults → List User → Result ℕ
count_active_super_admins f users = do
  active ← list_by_status f users status_active
  ok (length (keep is_super_admin active))
