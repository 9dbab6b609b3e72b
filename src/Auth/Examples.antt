-- ===== src/Auth/Examples.antt =====
-- Two users with a refresh token each, tokens that a toy scheme signs, and each theorem on signing in
-- at an input.
use yunxia.Prelude.{
  ℕ, [], ◌∷◌, Text, txt, str_eq, trim_space, none, Result, ok, err, ◌≢◌, ◌↔◌, ◌≡◌, refl, arith,
  if◌then◌else◌, ◌==◌, refresh_token_invalid, token_expired, account_locked,
}
use yunxia.Permission.{
  all_capabilities, RequestAuth, role_super_admin, role_user, status_active, status_locked,
  resolve_capabilities,
}
use yunxia.Users.{
  User, Store, Faults, first_by, find_by_id, find_by_username, has_id, set_token_version,
  update_token_version,
}
use yunxia.Users.Service.{revoke_tokens, finish_quietly}
use yunxia.Users.Service.Rows.{none_left, one_more, has_name, weight, super_admins}
use yunxia.Users.Service.Runs.{IsSound}
use yunxia.Users.Service.Runs
use yunxia.Auth.{
  Moment, Claims, Crypto, World, Outages, RefreshToken, TokenPair, admitted, first_with,
  find_by_token_hash, has_hash, revoke_by_token_hash, create_token, issue_and_store_token_pair,
  finish_issue, or_invalid, login_check, login, or_refresh_invalid, missing_invalid, is_revoked,
  refresh_check, rotate, refresh, finish_logout, logout, admit_user, check_user, check_claims,
  bearer, require_auth,
}
use yunxia.Auth.Calls.{here, then_step, logins, refresh_once}
use yunxia.Auth.Login.{IsLogin, login-IsLogin}
use yunxia.Auth.Requests.{IsAdmitted, require_auth_iff}
use yunxia.Auth.Revocation.{revoked_tokens_refused}

program : Unit {0}
unfolding trim_space has_id first_by find_by_id find_by_username set_token_version
    update_token_version finish_quietly revoke_tokens has_name weight super_admins
    resolve_capabilities first_with find_by_token_hash has_hash revoke_by_token_hash create_token
    issue_and_store_token_pair finish_issue or_invalid login_check login or_refresh_invalid
    missing_invalid is_revoked refresh_check rotate refresh finish_logout logout admit_user
    check_user check_claims bearer require_auth
program = tt

abbrev root_user : User
root_user = record {
  id = 1;
  username = txt "root";
  email = [];
  password_hash = txt "h0";
  role_key = role_super_admin;
  status = status_active;
  token_version = 0;
}

abbrev ann : User
ann = record root_user {
  id = 2;
  username = txt "ann";
  role_key = role_user;
  status = status_locked;
}

abbrev users : Store
users = record { users = root_user ∷ ann ∷ []; next_id = 3; audit = [] }

abbrev session : RefreshToken
session = record { user_id = 1; token_hash = txt "r0"; expires_at = 50; revoked_at = none }

abbrev world : World
world = record { accounts = users; sessions = session ∷ [] }

abbrev healthy : Outages
healthy = record { find = none; revoke = none; create = none }

abbrev no_faults : Faults
no_faults = record { find = none; list = none; create = none; update = none }

abbrev root_claims : Claims
root_claims = record { user_id = 1; role_key = role_super_admin; token_version = 0 }

-- The token that is drawn from a seed; every token is one of the first user's.
abbrev draw : ℕ → Text
draw seed = if seed == 0 then txt "r0" else if seed == 1 then txt "r1" else txt "r2"

abbrev toy : Crypto
toy = record {
  issue_access = λ m id role version. ok (txt "a");
  issue_refresh = λ m id role version. ok (draw m.seed);
  validate_access = λ m token. if str_eq token (txt "a") then ok root_claims else err token_expired;
  validate_refresh = λ m token. ok root_claims;
  refresh_ttl = 30;
  compare_password = λ hash password. str_eq hash password;
  hash_token = λ token. token;
}

abbrev at : ℕ → Moment
at seed = record { time = 10; seed = seed }

abbrev pair : Text → TokenPair
pair token = record { access_token = txt "a"; refresh_token = token }

-- The world after a refresh, and then a login.
abbrev refreshed : World
refreshed = (refresh toy healthy no_faults (at 1) (txt "r0") world).0

abbrev later : World
later = (login toy healthy no_faults (at 2) (txt "root") (txt "h0") refreshed).0

again_refused :
    (refresh toy healthy no_faults (at 3) (txt "r0") later).1 ≡ err refresh_token_invalid
unfolding program
again_refused = refl

locked_out :
    (login toy healthy no_faults (at 2) (txt "ann") (txt "wrong") world).1 ≡ err account_locked
unfolding program
locked_out = refl

refreshes_well : (refresh toy healthy no_faults (at 1) (txt "r0") world).1 ≡ ok (pair (txt "r1"))
unfolding program
refreshes_well = refl

refresh_once_example :
    (refresh toy healthy no_faults (at 3) (txt "r0") later).1 ≢ ok (pair (txt "r2"))
refresh_once_example =
    refresh_once toy healthy no_faults (at 1) (txt "r0") world later healthy no_faults (at 3)
      (pair (txt "r2")) refreshes_well
      (then_step here (logins healthy no_faults (at 2) (txt "root") (txt "h0")))

login-IsLogin_example :
    IsLogin toy healthy no_faults
      (at 1)
      (txt "root")
      (txt "h0")
      world
      ((login toy healthy no_faults (at 1) (txt "root") (txt "h0") world).0)
      ((login toy healthy no_faults (at 1) (txt "root") (txt "h0") world).1)
login-IsLogin_example = login-IsLogin toy healthy no_faults (at 1) (txt "root") (txt "h0") world

abbrev root_auth : RequestAuth
root_auth = record {
  user_id = 1;
  username = txt "root";
  role_key = role_super_admin;
  status = status_active;
  capabilities = all_capabilities;
}

admits_root : require_auth toy no_faults (at 0) (txt "Bearer a") users.users ≡ admitted root_auth
unfolding program
admits_root = refl

require_auth_iff_example :
    (require_auth toy no_faults (at 0) (txt "Bearer a") users.users ≡ admitted root_auth)
    ↔ IsAdmitted toy no_faults (at 0) (txt "Bearer a") users.users root_auth
require_auth_iff_example =
    require_auth_iff toy no_faults (at 0) (txt "Bearer a") users.users root_auth

plain_hash : Text → Result Text
plain_hash password = ok password

users-IsSound : IsSound users
unfolding program
users-IsSound = record {
  distinct = one_more refl refl (one_more refl refl none_left);
  below = λ i h. ground (arith, h);
  governed = omega arith;
}

root_found : find_by_id no_faults users.users 1 ≡ ok root_user
unfolding program
root_found = refl

revokes_well : (revoke_tokens no_faults 1 users).1 ≡ ok tt
unfolding program
revokes_well = refl

carries_claims : toy.validate_access (at 0) (bearer (txt "Bearer a")) ≡ ok root_claims
unfolding program
carries_claims = refl

revoked_tokens_refused_example :
    require_auth toy no_faults (at 0) (txt "Bearer a") ((revoke_tokens no_faults 1 users).0.users)
    ≢ admitted root_auth
revoked_tokens_refused_example =
    revoked_tokens_refused plain_hash no_faults 1 users ((revoke_tokens no_faults 1 users).0)
      root_user toy no_faults (at 0) (txt "Bearer a") root_claims root_auth users-IsSound root_found
      revokes_well Runs.here carries_claims refl (omega arith)
