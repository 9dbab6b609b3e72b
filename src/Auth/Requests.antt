-- ===== src/Auth/Requests.antt =====
-- Which requests are admitted, and as whom (`AuthMiddleware.RequireAuth` in
-- backend/internal/interfaces/middleware/auth_middleware.go).
use yunxia.Prelude.{
  List, [], ◌∷◌, true, false, not, ◌||◌, Text, txt, is_empty, has_prefix, str_eq, Result, ok, err,
  token_expired, ◌≡◌, ◌↔◌, refl, sym, ap, inl, inr, Bool-cases, ◌==◌, ==_iff, ==_refl, arith,
}
use yunxia.Permission.{RequestAuth, status_locked, resolve_capabilities}
use yunxia.Users.{User, Faults, find_by_id}
use yunxia.Auth.{
  Crypto, Claims, Moment, admitted, admit_user, check_user, check_claims, bearer, require_auth,
}

-- Whom a request stands for.
pub auth_of : User → List Text → RequestAuth
auth_of user capabilities = record {
  user_id = user.id;
  username = user.username;
  role_key = user.role_key;
  status = user.status;
  capabilities = capabilities;
}

-- The header carries a valid token of a user in the table, of the version that the user has now; the
-- user is not locked, and the request has the capabilities of the user's role now.
pub record IsAdmitted (c : Crypto) (g : Faults) (m : Moment) (header : Text) (users : List User)
    (a : RequestAuth) : Type 0 where
  pub claims : Claims
  pub user : User
  pub capabilities : List Text
  pub carried : has_prefix header (txt "Bearer ") ≡ true
  pub valid : c.validate_access m (bearer header) ≡ ok claims
  pub found : find_by_id g users claims.user_id ≡ ok user
  pub current : user.token_version ≡ claims.token_version
  pub open_account : str_eq user.status status_locked ≡ false
  pub resolved : resolve_capabilities user.role_key ≡ ok capabilities
  pub result : a ≡ auth_of user capabilities

admit_user-admitted :
    (user : User) (r : Result (List Text)) {a : RequestAuth}
    → admit_user user r ≡ admitted a
    → (cs : List Text) × (r ≡ ok cs) × (a ≡ auth_of user cs)
unfolding admit_user auth_of
admit_user-admitted user (err e) h = absurd (cc)
admit_user-admitted user (ok cs) h = (cs, refl, cc)

check_user-admitted :
    (claims : Claims) (r : Result User) {a : RequestAuth}
    → check_user claims r ≡ admitted a
    → (user : User) × (cs : List Text) × (r ≡ ok user)
      × (user.token_version ≡ claims.token_version)
      × (str_eq user.status status_locked ≡ false)
      × (resolve_capabilities user.role_key ≡ ok cs)
      × (a ≡ auth_of user cs)
unfolding check_user
check_user-admitted claims (err e) h = absurd (cc)
check_user-admitted claims (ok user) h =
    elim (Bool-cases (user.token_version == claims.token_version)) [
      | inr x ↦ absurd (cc (rw x at h))
      | inl x ↦ elim (Bool-cases (str_eq user.status status_locked)) [
        | inl y ↦ absurd (cc (rw (x, y) at h))
        | inr y ↦
            let (cs, r, e) =
              admit_user-admitted user (resolve_capabilities user.role_key) (rw (x, y) at h) in
            (user, cs, refl, (==_iff _ _).0 x, y, r, e)
      ]
    ]

check_claims-admitted :
    (g : Faults) (users : List User) (r : Result Claims) {a : RequestAuth}
    → check_claims g users r ≡ admitted a
    → (claims : Claims) × (r ≡ ok claims)
      × (check_user claims (find_by_id g users claims.user_id) ≡ admitted a)
unfolding check_claims
check_claims-admitted g users (err token_expired) h = absurd (cc)
check_claims-admitted g users (err _) h = absurd (cc)
check_claims-admitted g users (ok claims) h = (claims, refl, h)

carries :
    (header : Text)
    → (is_empty header || not (has_prefix header (txt "Bearer "))) ≡ false
    → has_prefix header (txt "Bearer ") ≡ true
carries header h = ground arith

require_auth-IsAdmitted :
    (c : Crypto) (g : Faults) (m : Moment) (header : Text) (users : List User) (a : RequestAuth)
    → require_auth c g m header users ≡ admitted a
    → IsAdmitted c g m header users a
unfolding require_auth
require_auth-IsAdmitted c g m header users a h =
    elim (Bool-cases (is_empty header || not (has_prefix header (txt "Bearer ")))) [
      | inl x ↦ absurd (cc (rw x at h))
      | inr x ↦
          let (claims, valid, h1) =
            check_claims-admitted g users (c.validate_access m (bearer header)) (rw x at h) in
          let (user, cs, found, current, unlocked, resolved, e) =
            check_user-admitted claims (find_by_id g users claims.user_id) h1 in
          record {
            claims = claims;
            user = user;
            capabilities = cs;
            carried = carries header x;
            valid = valid;
            found = found;
            current = current;
            open_account = unlocked;
            resolved = resolved;
            result = e;
          }
    ]

not_empty :
    (header : Text)
    → has_prefix header (txt "Bearer ") ≡ true
    → (is_empty header || not (has_prefix header (txt "Bearer "))) ≡ false
not_empty [] h = absurd (cc)
not_empty (x ∷ header) h = rw h refl

IsAdmitted-require_auth :
    (c : Crypto) (g : Faults) (m : Moment) (header : Text) (users : List User) (a : RequestAuth)
    → IsAdmitted c g m header users a
    → require_auth c g m header users ≡ admitted a
unfolding require_auth check_claims check_user admit_user auth_of
IsAdmitted-require_auth c g m header users a i =
    rw
      (
        require_auth,
        not_empty header i.carried,
        i.valid,
        check_claims,
        i.found,
        check_user,
        i.current,
        ==_refl i.claims.token_version,
        i.open_account,
        i.resolved,
        admit_user,
      )
      (ap admitted (sym i.result))

-- A request is admitted, and as someone, exactly if its header carries a valid access token of a user
-- in the table whose token version is that of the token and who is not locked; it is admitted as
-- that user with the capabilities of the user's role.
pub require_auth_iff :
    (c : Crypto) (g : Faults) (m : Moment) (header : Text) (users : List User) (a : RequestAuth)
    → (require_auth c g m header users ≡ admitted a) ↔ IsAdmitted c g m header users a
require_auth_iff c g m header users a =
    (require_auth-IsAdmitted c g m header users a, IsAdmitted-require_auth c g m header users a)
