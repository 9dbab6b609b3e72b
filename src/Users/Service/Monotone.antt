-- ===== src/Users/Service/Monotone.antt =====
-- The version of a user's tokens over sequences of calls
-- (backend/internal/application/service/user_service.go).
use yunxia.Prelude.{
  ℕ, ◌+◌, Text, Option, Result, ok, ◌≡◌, sym, ap, ◌∙◌, inl, inr, Bool-cases, ok_injective, arith,
  ==_iff, ◌==◌,
}
use mathlib.Core.Path.{subst}
use yunxia.Permission.{RequestAuth}
use yunxia.Users.{User, Store, Faults, find_by_id}
use yunxia.Users.Service.{
  UpdateUserRequest, CreateUserRequest, UserAdminView, updated, revoke_tokens,
}
use yunxia.Users.Service.LastAdmin.{find_by_id-first_by, first_by-id}
use yunxia.Users.Service.Update
use yunxia.Users.Service.Create
use yunxia.Users.Service.Passwords.{
  EndsWell, done, refused, IsReset, IsRevoked, reset_password-EndsWell, revoke_tokens-EndsWell,
}
use yunxia.Users.Service.Runs.{
  IsSound, Step, creates, updates, resets, revokes, Reaches, here, then_step, Reaches-IsSound,
}
use yunxia.Users.Service.Versions.{
  IsPast, later, first_by-has_id, same_row, replace-IsPast, set_token_version-IsPast,
  set_token_version_sets, updated_later,
}

kept : (id v : ℕ) (s t : Store) → t.users ≡ s.users → IsPast id v s.users → IsPast id v t.users
kept id v s t e i = subst (IsPast id v) (sym e) i

create-IsPast :
    (hash : Text → Result Text) (auth : Option RequestAuth) (req : CreateUserRequest) (id v : ℕ)
    (s t : Store) (r : Result UserAdminView)
    → IsSound s
    → Create.IsOutcome hash auth req s t r
    → IsPast id v s.users
    → IsPast id v t.users
create-IsPast hash auth req id v s t r sound (Create.refused e u n) i = kept id v s t u i
create-IsPast hash auth req id v s t r sound (Create.created row c) i =
    elim (Bool-cases (row.id == id)) [
      | inl a ↦ absurd (
          cc (
            sound.below id (omega (arith, (==_iff _ _).0 a, c.keyed)),
            first_by-has_id id s.users i.found,
          ))
      | inr a ↦
          subst (IsPast id v) (sym c.added)
            (record { user = i.user; found = later id row s.users a ∙ i.found; past = i.past })
    ]

update-IsPast :
    (f : Faults) (auth : Option RequestAuth) (k : ℕ) (req : UpdateUserRequest) (id v : ℕ)
    (s t : Store) (r : Result UserAdminView)
    → Update.IsOutcome f auth k req s t r
    → IsPast id v s.users
    → IsPast id v t.users
unfolding updated
update-IsPast f auth k req id v s t r (Update.refused e u n) i = kept id v s t u i
update-IsPast f auth k req id v s t r (Update.written new a u n) i = subst (IsPast id v) (sym u) (
    replace-IsPast id v new s.users
      (λ e w h.
        let same = same_row f s.users k id a.found (sym (ap (λ x. x.id) a.result) ∙ e) h in
        omega (
          arith,
          updated_later a.user req a.role a.status,
          ap (λ x. x.token_version) a.result,
          ap (λ x. x.token_version) same,
        ))
      i)

reset-IsPast :
    (hash : Text → Result Text) (f : Faults) (k : ℕ) (new_password : Text) (id v : ℕ) (s t : Store)
    (r : Result (Unit {0}))
    → EndsWell (IsReset hash f k new_password s) s t r
    → IsPast id v s.users
    → IsPast id v t.users
reset-IsPast hash f k new_password id v s t r (refused e u n) i = kept id v s t u i
reset-IsPast hash f k new_password id v s t r (done {u = w} c u n) i =
    subst (IsPast id v) (sym (u ∙ c.replaced)) (
      replace-IsPast id v (record c.user { password_hash = c.password }) s.users
        (λ e x h. omega (arith, ap (λ y. y.token_version) (same_row f s.users k id c.found e h))) i)

revoke-IsPast :
    (f : Faults) (k id v : ℕ) (s t : Store) (r : Result (Unit {0}))
    → EndsWell (IsRevoked f k s) s t r
    → IsPast id v s.users
    → IsPast id v t.users
revoke-IsPast f k id v s t r (refused e u n) i = kept id v s t u i
revoke-IsPast f k id v s t r (done {u = w} c u n) i =
    let key = first_by-id k s.users (find_by_id-first_by f s.users k c.found) in
    subst (IsPast id v) (sym (u ∙ c.advanced)) (
      set_token_version-IsPast id v k (c.user.token_version + 1) s.users
        (λ e x h.
          omega (arith, ap (λ y. y.token_version) (same_row f s.users k id c.found (key ∙ e) h)))
        i)

Step-IsPast :
    (hash : Text → Result Text) (id v : ℕ) (s : Store) {t : Store}
    → Step hash s t
    → IsSound s
    → IsPast id v s.users
    → IsPast id v t.users
Step-IsPast hash id v s (creates f auth req honest) sound i =
    create-IsPast hash auth req id v s _ _ sound (Create.create-IsOutcome hash f auth req s honest)
      i
Step-IsPast hash id v s (updates f auth k req) sound i =
    update-IsPast f auth k req id v s _ _ (Update.update-IsOutcome f auth k req s) i
Step-IsPast hash id v s (resets f k new_password) sound i =
    reset-IsPast hash f k new_password id v s _ _ (reset_password-EndsWell hash f k new_password s)
      i
Step-IsPast hash id v s (revokes f k) sound i =
    revoke-IsPast f k id v s _ _ (revoke_tokens-EndsWell f k s) i

-- From a sound table, no sequence of calls takes a user away or the version of their tokens back.
pub Reaches-IsPast :
    (hash : Text → Result Text) (id v : ℕ) (s t : Store)
    → IsSound s
    → Reaches hash s t
    → IsPast id v s.users
    → IsPast id v t.users
Reaches-IsPast hash id v s t sound here i = i
Reaches-IsPast hash id v s t sound (then_step r st) i =
    Step-IsPast hash id v _ st (Reaches-IsSound hash s _ sound r)
      (Reaches-IsPast hash id v s _ sound r i)

revoked_passes :
    (f : Faults) (id : ℕ) (s t : Store) (user : User) (r : Result (Unit {0}))
    → find_by_id f s.users id ≡ ok user
    → r ≡ ok tt
    → EndsWell (IsRevoked f id s) s t r
    → IsPast id (user.token_version + 1) t.users
revoked_passes f id s t user r found h (refused e u n) = absurd (cc h)
revoked_passes f id s t user r found h (done {u = w} c u n) =
    let same = ap (λ (x : User). x.token_version) (ok_injective (sym found ∙ c.found)) in
    let set =
      set_token_version_sets id (c.user.token_version + 1) s.users
        (find_by_id-first_by f s.users id c.found) in
    subst (IsPast id (user.token_version + 1)) (sym (u ∙ c.advanced))
      (record { user = set.user; found = set.found; past = omega (arith, set.past, same) })

-- A revocation that ends well takes the user to a version that is past the one before.
pub revoke_tokens_passes :
    (f : Faults) (id : ℕ) (s : Store) (user : User)
    → find_by_id f s.users id ≡ ok user
    → (revoke_tokens f id s).1 ≡ ok tt
    → IsPast id (user.token_version + 1) ((revoke_tokens f id s).0.users)
revoke_tokens_passes f id s user found h =
    revoked_passes f id s _ user _ found h (revoke_tokens-EndsWell f id s)
