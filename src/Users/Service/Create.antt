-- ===== src/Users/Service/Create.antt =====
-- What `Create` of `UserService` does on every path
-- (backend/internal/application/service/user_service.go).
use yunxia.Prelude.{
  ◌+◌, List, ◌∷◌, true, false, not, Text, str_eq, Option, some, Result, ok, err, Error, not_found,
  role_assignment_forbidden, ◌≡◌, ◌≢◌, refl, sym, ap, ◌∙◌, inl, inr, Option-cases, Result-cases,
  ok_injective, arith,
}
use yunxia.Permission.{RequestAuth, can_assign_role, status_active}
use yunxia.Users.{
  User, Store, Faults, first_by, find_by_username, create_row, normalize_input_role_key,
}
use yunxia.Users.Service.{
  Check, pass, stop, or_stop, stop_if, current_auth, CreateUserRequest, UserAdminView,
  to_user_admin_view, free_name, create_check, finish_create, create,
}
use yunxia.Users.Service.Checks.{>>=-pass, or_stop-pass, stop_if-pass, current_auth-pass, log_users}
use yunxia.Users.Service.Rows.{has_name, first_by_none}

-- What `Create` has established when it ends well: the row that it adds.
pub record IsCreated (hash : Text → Result Text) (auth : Option RequestAuth)
    (req : CreateUserRequest) (s t : Store) (row : User) : Type 0 where
  pub actor : RequestAuth
  pub signed_in : auth ≡ some actor
  pub role_valid : normalize_input_role_key req.role_key ≡ ok row.role_key
  pub assigns : can_assign_role actor.role_key row.role_key ≡ true
  pub hashed : hash req.password ≡ ok row.password_hash
  pub named : row.username ≡ req.username
  pub is_active : row.status ≡ status_active
  pub free : has_name row.username s.users ≡ false
  pub keyed : row.id ≡ s.next_id
  pub added : t.users ≡ row ∷ s.users
  pub advanced : t.next_id ≡ s.next_id + 1

free_name-not_found : (e : Error) {u : Unit {0}} → free_name (err e) ≡ pass u → e ≡ not_found
unfolding free_name
free_name-not_found not_found h = refl
free_name-not_found _ h = absurd (cc)

free_name-pass :
    (f : Faults) (us : List User) (name : Text) {u : Unit {0}}
    → f.find ≢ some not_found
    → free_name (find_by_username f us name) ≡ pass u
    → has_name name us ≡ false
unfolding free_name find_by_username
free_name-pass f us name honest h = elim (Option-cases f.find) [
  | inl a ↦ elim (Result-cases (first_by (λ u. str_eq u.username name) us)) [
    | inl (u, b) ↦ absurd (cc (rw (a, b) at h))
    | inr (e, b) ↦ first_by_none name us (b ∙ ap err (free_name-not_found e (rw (a, b) at h)))
  ]
  | inr (e, a) ↦ absurd (honest (a ∙ ap some (free_name-not_found e (rw a at h))))
]

create_row-ok :
    (f : Faults) (s : Store) (u : User) {t : Store} {row : User}
    → create_row f s u ≡ ok (t, row)
    → (t.users ≡ row ∷ s.users) × (t.next_id ≡ s.next_id + 1) × (row ≡ record u { id = s.next_id })
unfolding create_row
create_row-ok f s u {t} {row} h = elim (Option-cases f.create) [
  | inr (e, a) ↦ absurd (cc (rw a at h))
  | inl a ↦
      let e = ok_injective (rw a at h) in
      let same = sym (ap (λ p. p.1) e) in
      (
        sym (ap (λ p. p.0.users) e) ∙ ap (λ r. r ∷ s.users) (sym same),
        sym (ap (λ p. p.0.next_id) e),
        same,
      )
]

pub create_check-IsCreated :
    (hash : Text → Result Text) (f : Faults) (auth : Option RequestAuth) (req : CreateUserRequest)
    (s : Store) {t : Store} {row : User}
    → f.find ≢ some not_found
    → create_check hash f auth req s ≡ pass (t, row)
    → IsCreated hash auth req s t row
unfolding create_check
create_check-IsCreated hash f auth req s {t} {row} honest h =
    let (actor, a, h1) = >>=-pass (current_auth auth) _ h in
    let (role, r, h2) = >>=-pass (or_stop _ (normalize_input_role_key req.role_key)) _ h1 in
    let (_, g, h3) =
      >>=-pass (stop_if (not (can_assign_role actor.role_key role)) _ role_assignment_forbidden) _
        h2 in
    let (_, n, h4) = >>=-pass (free_name (find_by_username f s.users req.username)) _ h3 in
    let (password, p, h5) = >>=-pass (or_stop _ (hash req.password)) _ h4 in
    let made = or_stop-pass _ _ h5 in
    let k = stop_if-pass (not (can_assign_role actor.role_key role)) _ _ g in
    let (users, key, same) = create_row-ok f s _ made in
    record {
      actor = actor;
      signed_in = current_auth-pass auth a;
      role_valid = or_stop-pass _ _ r ∙ ap (λ u. ok u.role_key) (sym same);
      assigns = ap (λ u. can_assign_role actor.role_key u.role_key) same ∙ ground arith;
      hashed = or_stop-pass _ _ p ∙ ap (λ u. ok u.password_hash) (sym same);
      named = ap (λ u. u.username) same;
      is_active = ap (λ u. u.status) same;
      free =
          ap (λ u. has_name u.username s.users) same
          ∙ free_name-pass f s.users req.username honest n;
      keyed = ap (λ u. u.id) same;
      added = users;
      advanced = key;
    }

-- What `create` can do: add a user with a fresh key and a free name whose role the actor may
-- assign, or leave the users as they are and fail.
pub data IsOutcome (hash : Text → Result Text) (auth : Option RequestAuth) (req : CreateUserRequest)
    (s : Store) : Store → Result UserAdminView → Type 0 where
  created :
      {t : Store} (row : User)
      → IsCreated hash auth req s t row
      → IsOutcome hash auth req s t (ok (to_user_admin_view row))
  refused :
      {t : Store} (e : Error)
      → t.users ≡ s.users
      → t.next_id ≡ s.next_id
      → IsOutcome hash auth req s t (err e)

finish_create-IsOutcome :
    (hash : Text → Result Text) (auth : Option RequestAuth) (req : CreateUserRequest) (s : Store)
    (c : Check (Store × User))
    → ((t : Store) (row : User) → c ≡ pass (t, row) → IsCreated hash auth req s t row)
    → IsOutcome hash auth req s ((finish_create s c).0) ((finish_create s c).1)
unfolding finish_create
finish_create-IsOutcome hash auth req s (stop ev e) k =
    refused e ((log_users ev s).0) ((log_users ev s).1)
finish_create-IsOutcome hash auth req s (pass (t, row)) k =
    let c = k t row refl in
    created row (record {
      actor = c.actor;
      signed_in = c.signed_in;
      role_valid = c.role_valid;
      assigns = c.assigns;
      hashed = c.hashed;
      named = c.named;
      is_active = c.is_active;
      free = c.free;
      keyed = c.keyed;
      added = c.added;
      advanced = c.advanced;
    })

-- Where the database answers "not found" only for what it does not hold, `create` either adds a
-- user with a fresh key and a free name, whose role is valid and the actor's to assign, or leaves
-- the users and fails.
pub create-IsOutcome :
    (hash : Text → Result Text) (f : Faults) (auth : Option RequestAuth) (req : CreateUserRequest)
    (s : Store)
    → f.find ≢ some not_found
    → IsOutcome hash auth req s ((create hash f auth req s).0) ((create hash f auth req s).1)
unfolding create
create-IsOutcome hash f auth req s honest =
    finish_create-IsOutcome hash auth req s (create_check hash f auth req s)
      (λ t row. create_check-IsCreated hash f auth req s honest)
