-- ===== src/Auth.antt =====
-- Signing in and the check of a request (`AuthService` in
-- backend/internal/application/service/setup_service.go, `AuthMiddleware` in
-- backend/internal/interfaces/middleware/auth_middleware.go and the refresh tokens of
-- backend/internal/infrastructure/persistence/gorm/refresh_token_repo_impl.go). Calls come one after
-- another. Passwords, hashes and signed tokens are the third-party packages' and are parameters.
mod Sessions
mod Calls
mod Login
mod Requests
mod Revocation
mod Examples
use yunxia.Prelude.{
  ℕ, ◌+◌, List, [], ◌∷◌, ◌++◌, map, Bool, true, false, not, ◌||◌, any, Text, txt, str_eq, is_empty,
  has_prefix, trim_prefix, trim_space, ◌==◌, ltb, if◌then◌else◌, Option, none, some, Result, ok,
  err, Error, not_found, invalid_credentials, account_locked, refresh_token_invalid, token_expired,
  conflict, ◌>>=◌, ◌>>◌, refuse_if,
}
use yunxia.Permission.{RequestAuth, status_locked, resolve_capabilities}
use yunxia.Users.{User, Store, Faults, find_by_id, find_by_username}

-- The time of a call, in seconds, and what it draws at random.
pub record Moment : Type 0 where
  pub time : ℕ
  pub seed : ℕ

-- `Claims`, as far as the server reads them.
pub record Claims : Type 0 where
  pub user_id : ℕ
  pub role_key : Text
  pub token_version : ℕ

-- `tokenService`, the password hasher's comparison and the hash of a token.
pub record Crypto : Type 0 where
  pub issue_access : Moment → ℕ → Text → ℕ → Result Text
  pub issue_refresh : Moment → ℕ → Text → ℕ → Result Text
  pub validate_access : Moment → Text → Result Claims
  pub validate_refresh : Moment → Text → Result Claims
  pub refresh_ttl : ℕ
  pub compare_password : Text → Text → Bool
  pub hash_token : Text → Text

-- `entity.RefreshToken`, its key and the times of creation and update left out.
pub record RefreshToken : Type 0 where
  pub user_id : ℕ
  pub token_hash : Text
  pub expires_at : ℕ
  pub revoked_at : Option ℕ

-- The users and the refresh tokens, the oldest first.
pub record World : Type 0 where
  pub accounts : Store
  pub sessions : List RefreshToken

-- The error of each kind of query on the tokens; none if it works.
pub record Outages : Type 0 where
  pub find : Option Error
  pub revoke : Option Error
  pub create : Option Error

abbrev pub or_outage {ℓ} : {A : Type ℓ} → Option Error → Result A → Result A
or_outage none r = r
or_outage (some e) r = err e

pub first_with : Text → List RefreshToken → Result RefreshToken
first_with hash [] = err not_found
first_with hash (t ∷ ts) =
    let rest = first_with hash ts in if str_eq t.token_hash hash then ok t else rest

-- `FindByTokenHash`
pub find_by_token_hash : Outages → Text → List RefreshToken → Result RefreshToken
find_by_token_hash f hash ts = or_outage f.find (first_with hash ts)

pub has_hash : Text → List RefreshToken → Bool
has_hash hash ts = any (λ t. str_eq t.token_hash hash) ts

abbrev pub revoke_at : Text → ℕ → RefreshToken → RefreshToken
revoke_at hash now t = if str_eq t.token_hash hash then record t { revoked_at = some now } else t

-- `RevokeByTokenHash`
pub revoke_by_token_hash : Outages → ℕ → Text → List RefreshToken → Result (List RefreshToken)
unfolding has_hash
revoke_by_token_hash f now hash ts =
    or_outage f.revoke
      (if has_hash hash ts then ok (map (revoke_at hash now) ts) else err not_found)

-- `Create`; the column of the hash is unique.
pub create_token : Outages → RefreshToken → List RefreshToken → Result (List RefreshToken)
unfolding has_hash
create_token f t ts =
    or_outage f.create (if has_hash t.token_hash ts then err conflict else ok (ts ++ t ∷ []))

pub record TokenPair : Type 0 where
  pub access_token : Text
  pub refresh_token : Text

-- `issueAndStoreTokenPair`
pub issue_and_store_token_pair :
    Crypto → Outages → Moment → User → List RefreshToken → Result (List RefreshToken × TokenPair)
unfolding create_token
issue_and_store_token_pair c f m user ts = do
  access ← c.issue_access m user.id user.role_key user.token_version
  refresh ← c.issue_refresh m user.id user.role_key user.token_version
  let row : RefreshToken = record {
    user_id = user.id;
    token_hash = c.hash_token refresh;
    expires_at = m.time + c.refresh_ttl;
    revoked_at = none;
  }
  stored ← create_token f row ts
  ok (stored, record { access_token = access; refresh_token = refresh })

pub finish_issue : World → Result (List RefreshToken × TokenPair) → World × Result TokenPair
finish_issue w (err e) = (w, err e)
finish_issue w (ok (ts, pair)) = (record w { sessions = ts }, ok pair)

pub or_invalid : Error → Result User → Result User
or_invalid e (err not_found) = err e
or_invalid e r = r

-- The checks of `Login`.
pub login_check : Crypto → Faults → Text → Text → World → Result User
unfolding or_invalid
login_check c g username password w = do
  user ← or_invalid invalid_credentials (find_by_username g w.accounts.users username)
  refuse_if (str_eq user.status status_locked) account_locked
  refuse_if (not (c.compare_password user.password_hash password)) invalid_credentials
  ok user

-- `Login`
pub login : Crypto → Outages → Faults → Moment → Text → Text → World → World × Result TokenPair
unfolding login_check finish_issue issue_and_store_token_pair
login c f g m username password w = finish_issue w (do
  user ← login_check c g username password w
  issue_and_store_token_pair c f m user w.sessions)

pub or_refresh_invalid {ℓ} : {A : Type ℓ} → Result A → Result A
or_refresh_invalid (err e) = err refresh_token_invalid
or_refresh_invalid (ok a) = ok a

pub missing_invalid : Result RefreshToken → Result RefreshToken
missing_invalid (err not_found) = err refresh_token_invalid
missing_invalid r = r

pub is_revoked : RefreshToken → Bool
is_revoked t = elim t.revoked_at [ none ↦ false | some at ↦ true ]

-- The checks of `Refresh`.
pub refresh_check : Crypto → Outages → Faults → Moment → Text → World → Result User
unfolding or_refresh_invalid missing_invalid find_by_token_hash is_revoked
refresh_check c f g m raw w = do
  claims ← or_refresh_invalid (c.validate_refresh m raw)
  token ← missing_invalid (find_by_token_hash f (c.hash_token raw) w.sessions)
  refuse_if (is_revoked token || ltb token.expires_at m.time) refresh_token_invalid
  user ← find_by_id g w.accounts.users claims.user_id
  refuse_if (str_eq user.status status_locked || not (user.token_version == claims.token_version))
      refresh_token_invalid
  ok user

-- The writes of `Refresh`: the old token is revoked before the new pair is made.
pub rotate : Crypto → Outages → Moment → Text → World → Result User → World × Result TokenPair
unfolding finish_issue issue_and_store_token_pair revoke_by_token_hash
rotate c f m raw w (err e) = (w, err e)
rotate c f m raw w (ok user) = elim (revoke_by_token_hash f m.time (c.hash_token raw) w.sessions) [
  | err e ↦ (w, err e)
  | ok ts ↦ finish_issue (record w { sessions = ts }) (issue_and_store_token_pair c f m user ts)
]

-- `Refresh`
pub refresh : Crypto → Outages → Faults → Moment → Text → World → World × Result TokenPair
unfolding rotate
refresh c f g m raw w = rotate c f m raw w (refresh_check c f g m raw w)

pub finish_logout : World → Result (List RefreshToken) → World × Result (Unit {0})
finish_logout w (err e) = (w, err e)
finish_logout w (ok ts) = (record w { sessions = ts }, ok tt)

-- `Logout`
pub logout : Crypto → Outages → Moment → Text → World → World × Result (Unit {0})
unfolding finish_logout revoke_by_token_hash
logout c f m raw w = finish_logout w (revoke_by_token_hash f m.time (c.hash_token raw) w.sessions)

-- How the check of a request ends: with status 401 or 403, or in the next handler.
pub data Admission : Type 0 where
  token_missing expired_token token_invalid locked : Admission
  admitted : RequestAuth → Admission

pub admit_user : User → Result (List Text) → Admission
admit_user user (err e) = token_invalid
admit_user user (ok capabilities) = admitted (record {
  user_id = user.id;
  username = user.username;
  role_key = user.role_key;
  status = user.status;
  capabilities = capabilities;
})

pub check_user : Claims → Result User → Admission
unfolding admit_user
check_user claims (err e) = token_invalid
check_user claims (ok user) =
    if not (user.token_version == claims.token_version)
    then token_invalid
    else if str_eq user.status status_locked
    then locked
    else admit_user user (resolve_capabilities user.role_key)

pub check_claims : Faults → List User → Result Claims → Admission
unfolding check_user
check_claims g users (err token_expired) = expired_token
check_claims g users (err e) = token_invalid
check_claims g users (ok claims) = check_user claims (find_by_id g users claims.user_id)

pub bearer : Text → Text
bearer header = trim_space (trim_prefix header (txt "Bearer "))

-- `RequireAuth`
pub require_auth : Crypto → Faults → Moment → Text → List User → Admission
unfolding check_claims bearer
require_auth c g m header users =
    if is_empty header || not (has_prefix header (txt "Bearer "))
    then token_missing
    else check_claims g users (c.validate_access m (bearer header))
