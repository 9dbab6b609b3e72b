-- ===== src/Auth/Revocation.antt =====
-- Revoked tokens open nothing any more: the service for users and the check of a request together
-- (`RevokeTokens` in backend/internal/application/service/user_service.go, `RequireAuth` in
-- backend/internal/interfaces/middleware/auth_middleware.go).
use yunxia.Prelude.{
  ℕ, ◌+◌, ◌≤◌, Text, Result, ok, ◌≡◌, ◌≢◌, sym, ap, ◌∙◌, arith, ok_injective, ◌==◌,
}
use mathlib.Core.Path.{subst}
use yunxia.Permission.{RequestAuth}
use yunxia.Users.{User, Store, Faults, find_by_id, first_by}
use yunxia.Users.Service.{revoke_tokens}
use yunxia.Users.Service.Runs.{IsSound, Reaches, revokes, then_step, here, Reaches-IsSound}
use yunxia.Users.Service.LastAdmin.{find_by_id-first_by}
use yunxia.Users.Service.Versions.{IsPast}
use yunxia.Users.Service.Monotone.{Reaches-IsPast, revoke_tokens_passes}
use yunxia.Auth.{Crypto, Claims, Moment, admitted, bearer, require_auth}
use yunxia.Auth.Requests.{require_auth_iff}

found_first :
    (g : Faults) (s : Store) (id : ℕ) {u : User}
    → find_by_id g s.users id ≡ ok u
    → first_by (λ v. v.id == id) s.users ≡ ok u
found_first g s id h = find_by_id-first_by g s.users id h

-- A user whose version is past that of the claims is not admitted by them.
past_refused :
    (c : Crypto) (g : Faults) (m : Moment) (header : Text) (s : Store) (claims : Claims)
    (a : RequestAuth)
    → c.validate_access m (bearer header) ≡ ok claims
    → IsPast claims.user_id (claims.token_version + 1) s.users
    → require_auth c g m header s.users ≢ admitted a
past_refused c g m header s claims a valid i h =
    let d = (require_auth_iff c g m header s.users a).0 h in
    let same = ok_injective (sym valid ∙ d.valid) in
    let found =
      subst (λ (x : Claims). find_by_id g s.users x.user_id ≡ ok d.user) (sym same) d.found in
    let user = ok_injective (sym i.found ∙ found_first g s claims.user_id found) in
    absurd (
      omega (
        arith,
        i.past,
        d.current,
        ap (λ (x : User). x.token_version) user,
        ap (λ (x : Claims). x.token_version) same,
      ))

-- After the tokens of a user were revoked, and after any further calls of the service for users, no
-- request with an access token of the user's version at the time, or an earlier one, is admitted,
-- whenever it comes and whatever the database answers.
pub revoked_tokens_refused :
    (hash : Text → Result Text) (f : Faults) (id : ℕ) (s t : Store) (user : User) (c : Crypto)
    (g : Faults) (m : Moment) (header : Text) (claims : Claims) (a : RequestAuth)
    → IsSound s
    → find_by_id f s.users id ≡ ok user
    → (revoke_tokens f id s).1 ≡ ok tt
    → Reaches hash ((revoke_tokens f id s).0) t
    → c.validate_access m (bearer header) ≡ ok claims
    → claims.user_id ≡ id
    → claims.token_version ≤ user.token_version
    → require_auth c g m header t.users ≢ admitted a
revoked_tokens_refused hash f id s t user c g m header claims a sound found done r valid key old =
    let sound' = Reaches-IsSound hash s _ sound (then_step here (revokes f id)) in
    let i =
      Reaches-IsPast hash id (user.token_version + 1) _ t sound' r
        (revoke_tokens_passes f id s user found done) in
    past_refused c g m header t claims a valid (record {
      user = i.user;
      found = subst (λ k. first_by (λ v. v.id == k) t.users ≡ ok i.user) (sym key) i.found;
      past = omega (arith, i.past, old);
    })
