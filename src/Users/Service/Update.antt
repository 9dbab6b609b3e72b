-- ===== src/Users/Service/Update.antt =====
-- What `Update` of `UserService` does on every path
-- (backend/internal/application/service/user_service.go).
use yunxia.Prelude.{
  ℕ, true, not, ◌||◌, Text, Option, some, Result, ok, err, Error, role_assignment_forbidden, ◌≡◌,
  refl, inl, inr, Result-cases, arith,
}
use yunxia.Permission.{RequestAuth, can_assign_role, can_manage_target_role}
use yunxia.Users.{
  User, Store, Faults, find_by_id, replace, update_row, normalize_input_role_key,
  normalize_input_status,
}
use yunxia.Users.Service.Checks.{
  >>=-pass, or_stop-pass, stop_if-pass, current_auth-pass, log_users, update_row-ok,
}
use yunxia.Users.Service.{
  Check, pass, stop, or_stop, stop_if, current_auth, UpdateUserRequest, UserAdminView,
  to_user_admin_view, last_super_admin_check, updated, update_check, update, write_user,
  finish_update,
}

-- What `Update` has established before it writes.
pub record IsAccepted (f : Faults) (auth : Option RequestAuth) (id : ℕ) (req : UpdateUserRequest)
    (s : Store) (new : User) : Type 0 where
  pub actor : RequestAuth
  pub user : User
  pub role : Text
  pub status : Text
  pub signed_in : auth ≡ some actor
  pub found : find_by_id f s.users id ≡ ok user
  pub role_valid : normalize_input_role_key req.role_key ≡ ok role
  pub status_valid : normalize_input_status req.status ≡ ok status
  pub manages : can_manage_target_role actor.role_key user.role_key ≡ true
  pub assigns : can_assign_role actor.role_key role ≡ true
  pub leaves_one : last_super_admin_check f s.users id user role status ≡ pass tt
  pub result : new ≡ updated user req role status

pub update_check-IsAccepted :
    (f : Faults) (auth : Option RequestAuth) (id : ℕ) (req : UpdateUserRequest) (s : Store)
    {new : User}
    → update_check f auth id req s ≡ pass new
    → IsAccepted f auth id req s new
unfolding update_check
update_check-IsAccepted f auth id req s {new} h =
    let (actor, a, h1) = >>=-pass (current_auth auth) _ h in
    let (user, u, h2) = >>=-pass (or_stop _ (find_by_id f s.users id)) _ h1 in
    let (role, r, h3) = >>=-pass (or_stop _ (normalize_input_role_key req.role_key)) _ h2 in
    let (status, t, h4) = >>=-pass (or_stop _ (normalize_input_status req.status)) _ h3 in
    let (_, g, h5) =
      >>=-pass
        (stop_if
          (not (can_manage_target_role actor.role_key user.role_key)
            || not (can_assign_role actor.role_key role))
          _ role_assignment_forbidden)
        _ h4 in
    let (_, l, e) = >>=-pass (last_super_admin_check f s.users id user role status) _ h5 in
    let k =
      stop_if-pass
        (not (can_manage_target_role actor.role_key user.role_key)
          || not (can_assign_role actor.role_key role))
        _ _ g in
    record {
      actor = actor;
      user = user;
      role = role;
      status = status;
      signed_in = current_auth-pass auth a;
      found = or_stop-pass _ _ u;
      role_valid = or_stop-pass _ _ r;
      status_valid = or_stop-pass _ _ t;
      manages = ground arith;
      assigns = ground arith;
      leaves_one = l;
      result = cc;
    }

-- What `update` can do: write the accepted user, or leave the users as they are and fail.
pub data IsOutcome (f : Faults) (auth : Option RequestAuth) (id : ℕ) (req : UpdateUserRequest)
    (s : Store) : Store → Result UserAdminView → Type 0 where
  written :
      {t : Store} (new : User)
      → IsAccepted f auth id req s new
      → t.users ≡ replace new s.users
      → t.next_id ≡ s.next_id
      → IsOutcome f auth id req s t (ok (to_user_admin_view new))
  refused :
      {t : Store} (e : Error)
      → t.users ≡ s.users
      → t.next_id ≡ s.next_id
      → IsOutcome f auth id req s t (err e)

finish_update-IsOutcome :
    (f : Faults) (auth : Option RequestAuth) (id : ℕ) (req : UpdateUserRequest) (s : Store)
    (c : Check User)
    → ((new : User) → c ≡ pass new → IsAccepted f auth id req s new)
    → IsOutcome f auth id req s ((finish_update f s id c).0) ((finish_update f s id c).1)
unfolding finish_update write_user
finish_update-IsOutcome f auth id req s (stop ev e) k =
    refused e ((log_users ev s).0) ((log_users ev s).1)
finish_update-IsOutcome f auth id req s (pass u) k = elim (Result-cases (update_row f s u)) [
  | inl (t, w) ↦
      rw (finish_update, write_user, w)
        (written u (k u refl) ((update_row-ok f s u w).0) ((update_row-ok f s u w).1))
  | inr (e, w) ↦ rw (finish_update, write_user, w) (refused e refl refl)
]

-- `update` either writes a user whose change it has accepted (an actor who may manage the role that
-- the user has and assign the one asked for, a valid role and status, and a super administrator
-- left) in the row of that key, or leaves the users and fails.
pub update-IsOutcome :
    (f : Faults) (auth : Option RequestAuth) (id : ℕ) (req : UpdateUserRequest) (s : Store)
    → IsOutcome f auth id req s ((update f auth id req s).0) ((update f auth id req s).1)
unfolding update
update-IsOutcome f auth id req s =
    finish_update-IsOutcome f auth id req s (update_check f auth id req s)
      (λ new. update_check-IsAccepted f auth id req s)
