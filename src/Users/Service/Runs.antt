-- ===== src/Users/Service/Runs.antt =====
-- Sequences of calls of `UserService` and what they keep
-- (backend/internal/application/service/user_service.go).
use yunxia.Prelude.{
  ℕ, ◌+◌, ◌<◌, Text, Option, some, Result, ok, not_found, ◌≡◌, ◌≢◌, refl, sym, ◌∙◌, arith, ◌==◌,
}
use mathlib.Core.Path.{subst}
use yunxia.Permission.{RequestAuth}
use yunxia.Users.{User, Store, Faults, find_by_id, replace, set_token_version, first_by}
use yunxia.Users.Service.{
  CreateUserRequest, UpdateUserRequest, create, update, reset_password, revoke_tokens,
  UserAdminView,
}
use yunxia.Users.Service.Rows.{
  Distinct, one_more, AllBelow, AllBelow_more, super_admins, super_admins_more,
  super_admins-replace, super_admins-set_token_version, replace-Distinct,
  set_token_version-Distinct, has_id-replace, has_id-set_token_version, weight, weight-password,
}
use yunxia.Users.Service.Update
use yunxia.Users.Service.Create
use yunxia.Users.Service.Passwords.{
  EndsWell, done, refused, IsReset, IsRevoked, reset_password-EndsWell, revoke_tokens-EndsWell,
}
use yunxia.Users.Service.LastAdmin.{update_keeps_super_admin, find_by_id-first_by, first_by-id}

-- Keys and user names occur once, keys are below the next one, and an active super administrator
-- is left.
pub record IsSound (s : Store) : Type 0 where
  pub distinct : Distinct s.users
  pub below : AllBelow s.next_id s.users
  pub governed : 0 < super_admins s.users

-- Soundness is a matter of the rows and the next key.
same-IsSound : (s t : Store) → t.users ≡ s.users → t.next_id ≡ s.next_id → IsSound s → IsSound t
same-IsSound s t u n i = record {
  distinct = subst Distinct (sym u) i.distinct;
  below = λ k h. rw u (i.below k (omega (arith, h, n)));
  governed = rw u i.governed;
}

create_outcome-IsSound :
    (hash : Text → Result Text) (auth : Option RequestAuth) (req : CreateUserRequest) (s t : Store)
    (r : Result UserAdminView)
    → IsSound s
    → Create.IsOutcome hash auth req s t r
    → IsSound t
create_outcome-IsSound hash auth req s t r i (Create.refused e u n) = same-IsSound s t u n i
create_outcome-IsSound hash auth req s t r i (Create.created row c) = record {
  distinct =
      subst Distinct (sym c.added)
        (one_more (i.below row.id (omega (arith, c.keyed))) c.free i.distinct);
  below = rw (c.added, c.advanced) (AllBelow_more s.next_id row s.users c.keyed i.below);
  governed = rw c.added (omega (arith, super_admins_more row s.users, i.governed));
}

update_outcome-IsSound :
    (f : Faults) (auth : Option RequestAuth) (id : ℕ) (req : UpdateUserRequest) (s t : Store)
    (r : Result UserAdminView)
    → IsSound s
    → 0 < super_admins t.users
    → Update.IsOutcome f auth id req s t r
    → IsSound t
update_outcome-IsSound f auth id req s t r i g (Update.refused e u n) = same-IsSound s t u n i
update_outcome-IsSound f auth id req s t r i g (Update.written new a u n) = record {
  distinct = subst Distinct (sym u) (replace-Distinct new s.users i.distinct);
  below = λ k h. rw u (has_id-replace k new s.users ∙ i.below k (omega (arith, h, n)));
  governed = g;
}

-- A row that keeps its key and weight.
balanced :
    (f : Faults) (id : ℕ) (s : Store) (user new : User)
    → IsSound s
    → find_by_id f s.users id ≡ ok user
    → new.id ≡ user.id
    → weight new ≡ weight user
    → super_admins (replace new s.users) ≡ super_admins s.users
balanced f id s user new i found key w =
    let hit = find_by_id-first_by f s.users id found in
    let at_id : (first_by (λ v. v.id == new.id) s.users ≡ ok user) =
      subst (λ k. first_by (λ v. v.id == k) s.users ≡ ok user)
        (sym (key ∙ first_by-id id s.users hit)) hit in
    omega (arith, super_admins-replace s.users user new i.distinct at_id, w)

reset_outcome-IsSound :
    (hash : Text → Result Text) (f : Faults) (id : ℕ) (new_password : Text) (s t : Store)
    (r : Result (Unit {0}))
    → IsSound s
    → EndsWell (IsReset hash f id new_password s) s t r
    → IsSound t
reset_outcome-IsSound hash f id new_password s t r i (refused e u n) = same-IsSound s t u n i
reset_outcome-IsSound hash f id new_password s t r i (done {u = v} c u n) =
    let new : User = record c.user { password_hash = c.password } in
    let at : (t.users ≡ replace new s.users) = u ∙ c.replaced in
    record {
      distinct = subst Distinct (sym at) (replace-Distinct new s.users i.distinct);
      below = λ k h. rw at (has_id-replace k new s.users ∙ i.below k (omega (arith, h, n, c.kept)));
      governed = rw at (
          omega (
            arith,
            balanced f id s c.user new i c.found refl (weight-password c.user c.password),
            i.governed,
          ));
    }

revoke_outcome-IsSound :
    (f : Faults) (id : ℕ) (s t : Store) (r : Result (Unit {0}))
    → IsSound s
    → EndsWell (IsRevoked f id s) s t r
    → IsSound t
revoke_outcome-IsSound f id s t r i (refused e u n) = same-IsSound s t u n i
revoke_outcome-IsSound f id s t r i (done {u = v} c u n) =
    let w = c.user.token_version + 1 in
    let at : (t.users ≡ set_token_version id w s.users) = u ∙ c.advanced in
    record {
      distinct = subst Distinct (sym at) (set_token_version-Distinct id w s.users i.distinct);
      below = λ k h.
          rw at (has_id-set_token_version k id w s.users ∙ i.below k (omega (arith, h, n, c.kept)));
      governed = rw at (omega (arith, super_admins-set_token_version id w s.users, i.governed));
    }

-- One call, whoever makes it, whatever the database answers on a fault, and whatever it ends in.
pub data Step (hash : Text → Result Text) (s : Store) : Store → Type 0 where
  creates :
      (f : Faults) (auth : Option RequestAuth) (req : CreateUserRequest)
      → f.find ≢ some not_found
      → Step hash s ((create hash f auth req s).0)
  updates :
      (f : Faults) (auth : Option RequestAuth) (id : ℕ) (req : UpdateUserRequest)
      → Step hash s ((update f auth id req s).0)
  resets :
      (f : Faults) (id : ℕ) (new_password : Text)
      → Step hash s ((reset_password hash f id new_password s).0)
  revokes : (f : Faults) (id : ℕ) → Step hash s ((revoke_tokens f id s).0)

pub data Reaches (hash : Text → Result Text) (s : Store) : Store → Type 0 where
  here : Reaches hash s s
  then_step : {t u : Store} → Reaches hash s t → Step hash t u → Reaches hash s u

Step-IsSound :
    (hash : Text → Result Text) (s : Store) {t : Store} → Step hash s t → IsSound s → IsSound t
Step-IsSound hash s (creates f auth req honest) i =
    create_outcome-IsSound hash auth req s _ _ i (Create.create-IsOutcome hash f auth req s honest)
Step-IsSound hash s (updates f auth id req) i =
    update_outcome-IsSound f auth id req s _ _ i
      (update_keeps_super_admin f auth id req s i.distinct i.governed)
      (Update.update-IsOutcome f auth id req s)
Step-IsSound hash s (resets f id new_password) i =
    reset_outcome-IsSound hash f id new_password s _ _ i
      (reset_password-EndsWell hash f id new_password s)
Step-IsSound hash s (revokes f id) i =
    revoke_outcome-IsSound f id s _ _ i (revoke_tokens-EndsWell f id s)

-- From a sound table (keys and user names occur once, keys are below the next one, an active super
-- administrator is left) every sequence of calls of the four operations leads to a sound table,
-- where the database answers "not found" only for what it does not hold.
pub Reaches-IsSound :
    (hash : Text → Result Text) (s t : Store) → IsSound s → Reaches hash s t → IsSound t
Reaches-IsSound hash s t i here = i
Reaches-IsSound hash s t i (then_step r st) = Step-IsSound hash _ st (Reaches-IsSound hash s _ i r)
