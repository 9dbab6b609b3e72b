-- ===== src/Prelude/Results.antt =====
-- Results of Go functions that return a value and an error.
use Prim.Native.Nat.{ℕ}
use mathlib.Core.Bool.{Bool, true, false}
use mathlib.Core.Logic.{◌⊎◌, inl, inr}
use mathlib.Core.Path.{◌≡◌, refl}

-- The program's error values that the models return; `other` stands for the remaining errors of
-- the database, the file system and third-party packages.
pub data Error : Type 0 where
  path_invalid : Error
  file_name_invalid : Error
  name_conflict : Error
  acl_denied : Error
  permission_denied : Error
  not_found : Error
  user_role_invalid : Error
  user_status_invalid : Error
  role_assignment_forbidden : Error
  last_super_admin_forbidden : Error
  user_name_conflict : Error
  role_key_invalid : Error
  config_invalid : Error
  source_driver_unsupported : Error
  source_operation_unsupported : Error
  metadata_vfs_mutation_sync_failed : Error
  metadata_vfs_commit_failed : Error
  vfs_sync_conflict : Error
  invalid_credentials : Error
  account_locked : Error
  refresh_token_invalid : Error
  token_expired : Error
  upload_session_not_found : Error
  upload_invalid_state : Error
  upload_chunk_conflict : Error
  upload_finish_incomplete : Error
  upload_hash_mismatch : Error
  file_already_exists : Error
  conflict : Error
  upload_too_large : Error
  file_not_found : Error
  share_expired : Error
  share_password_required : Error
  share_password_invalid : Error
  other : ℕ → Error

-- What a Go function that returns `(T, error)` hands back.
pub data Result {ℓ} (T : Type ℓ) : Type ℓ where
  err : Error → Result T
  ok : T → Result T

pub ok_injective {ℓ} : {T : Type ℓ} {x y : T} → ok x ≡ ok y → x ≡ y
ok_injective same = cc

-- To split on a computed result and keep the equation.
pub Result-cases {ℓ} :
    {T : Type ℓ} (r : Result T) → ((x : T) × (r ≡ ok x)) ⊎ ((e : Error) × (r ≡ err e))
Result-cases (err e) = inr (e, refl)
Result-cases (ok x) = inl (x, refl)

-- The value, or a default where there was an error.
abbrev pub ok_or {ℓ} : {T : Type ℓ} → T → Result T → T
ok_or d (err e) = d
ok_or d (ok x) = x

-- `if err != nil { return err }` between two calls.
infixl 5 ◌>>=◌ ◌>>◌
abbrev pub ◌>>=◌ {ℓ κ} : {S : Type ℓ} {T : Type κ} → Result S → (S → Result T) → Result T
err e >>= next = err e
ok x >>= next = next x

abbrev pub ◌>>◌ {κ} : {T : Type κ} → Result (Unit {0}) → Result T → Result T
first >> second = first >>= λ done. second

-- `if failed { return err }`
abbrev pub refuse_if : Bool → Error → Result (Unit {0})
refuse_if false e = ok tt
refuse_if true e = err e

-- A chain that ends well has a first call that ends well.
pub >>=-eq-ok {ℓ κ} :
    {S : Type ℓ} {T : Type κ} (first : Result S) (next : S → Result T) {y : T}
    → (first >>= next) ≡ ok y
    → (x : S) × (first ≡ ok x) × (next x ≡ ok y)
>>=-eq-ok (err e) next h = cc
>>=-eq-ok (ok x) next h = (x, refl, h)
