-- ===== src/Users/Service/LastAdmin.antt =====
-- The last active super administrator stays
-- (`Update` in backend/internal/application/service/user_service.go).
use yunxia.Prelude.{
  ℕ, ◌<◌, List, [], ◌∷◌, ==_iff, true, false, not, ◌&&◌, ◌||◌, Text, str_eq, Option, Result, ok,
  ◌==◌, ◌≡◌, sym, ap, ◌∙◌, ◌≢◌, ◌⊎◌, inl, inr, Bool-cases, Result-cases, Option-cases, ok_injective,
  arith, trim_space,
}
use mathlib.Core.Path.{subst}
use yunxia.Permission.{RequestAuth, role_super_admin, status_active, status_locked, is_valid_status}
use yunxia.Users.{
  User, Store, Faults, find_by_id, first_by, count_active_super_admins, is_super_admin,
  list_by_status, normalize_input_status,
}
use yunxia.Users.Service.{
  pass, UpdateUserRequest, update, last_super_admin_check, updated, UserAdminView,
}
use yunxia.Users.Service.Rows.{
  Distinct, weight, weight_other, weight_bounded, weight_active, super_admins,
  length-keep-super_admins, super_admins-replace,
}
use yunxia.Users.Service.Update.{IsOutcome, written, refused, update-IsOutcome}

-- The count that the service takes is the number of active super administrators.
count_active_super_admins-ok :
    (f : Faults) (us : List User) {n : ℕ}
    → count_active_super_admins f us ≡ ok n
    → n ≡ super_admins us
unfolding count_active_super_admins list_by_status trim_space
count_active_super_admins-ok f us h = elim (Option-cases f.list) [
  | inl a ↦ sym (ok_injective (rw a at h)) ∙ length-keep-super_admins us
  | inr (e, a) ↦ absurd (cc (rw a at h))
]

-- A user that is found has the key asked for.
pub first_by-id :
    (id : ℕ) (us : List User) {u : User} → first_by (λ v. v.id == id) us ≡ ok u → u.id ≡ id
unfolding first_by
first_by-id id [] h = cc
first_by-id id (v ∷ us) h = elim (Bool-cases (v.id == id)) [
  | inl a ↦ ap (λ w. w.id) (sym (ok_injective (rw a at h))) ∙ (==_iff _ _).0 a
  | inr a ↦ first_by-id id us (rw a at h)
]

pub find_by_id-first_by :
    (f : Faults) (us : List User) (id : ℕ) {u : User}
    → find_by_id f us id ≡ ok u
    → first_by (λ v. v.id == id) us ≡ ok u
unfolding find_by_id
find_by_id-first_by f us id h = elim (Option-cases f.find) [
  | inl a ↦ rw a at h
  | inr (e, a) ↦ absurd (cc (rw a at h))
]

status_active_if :
    (req status : Text)
    → normalize_input_status req ≡ ok status
    → str_eq status status_locked ≡ false
    → str_eq status status_active ≡ true
unfolding normalize_input_status is_valid_status
status_active_if req status v h = elim (Bool-cases (is_valid_status (trim_space req))) [
  | inr a ↦ absurd (cc (rw a at v))
  | inl a ↦
      let e : (trim_space req ≡ status) = ok_injective (rw a at v) in
      let valid : (is_valid_status status ≡ true) = subst (λ x. is_valid_status x ≡ true) e a in
      ground arith
]

only_one :
    (f : Faults) (us : List User) (id : ℕ) (user : User) (role status : Text)
    → is_super_admin user ≡ true
    → (str_eq role role_super_admin && not (str_eq status status_locked)) ≡ false
    → last_super_admin_check f us id user role status ≡ pass tt
    → super_admins us ≢ 1
unfolding last_super_admin_check
only_one f us id user role status a b h one =
    let taken : ((not (str_eq role role_super_admin) || str_eq status status_locked) ≡ true) =
      ground arith in
    elim (Result-cases (count_active_super_admins f us)) [
      | inl (n, c) ↦
          let e = count_active_super_admins-ok f us c in absurd (cc (rw (a, taken, c, e, one) at h))
      | inr (e, c) ↦ absurd (cc (rw (a, taken, c) at h))
    ]

-- What the check admits: the old row counted for nothing, the new one counts, or others are left.
check_leaves :
    (f : Faults) (us : List User) (id : ℕ) (user : User) (req : UpdateUserRequest)
    (role status : Text)
    → normalize_input_status req.status ≡ ok status
    → last_super_admin_check f us id user role status ≡ pass tt
    → (weight user ≡ 0) ⊎ ((weight (updated user req role status) ≡ 1) ⊎ (super_admins us ≢ 1))
unfolding last_super_admin_check updated normalize_input_status is_valid_status
check_leaves f us id user req role status v h = elim (Bool-cases (is_super_admin user)) [
  | inr a ↦ inl (weight_other user a)
  | inl a ↦ elim (Bool-cases (str_eq role role_super_admin && not (str_eq status status_locked))) [
    | inl b ↦ inr (
        inl (
          weight_active (updated user req role status) (ground arith)
            (status_active_if req.status status v (ground arith))))
    | inr b ↦ inr (inr (λ one. only_one f us id user role status a b h one))
  ]
]

outcome_keeps :
    (f : Faults) (auth : Option RequestAuth) (id : ℕ) (req : UpdateUserRequest) (s : Store)
    (t : Store) (r : Result UserAdminView)
    → Distinct s.users
    → 0 < super_admins s.users
    → IsOutcome f auth id req s t r
    → 0 < super_admins t.users
unfolding updated
outcome_keeps f auth id req s t r d h (refused e same _) = rw same h
outcome_keeps f auth id req s t r d h (written new a same _) =
    let found = find_by_id-first_by f s.users id a.found in
    let at_id : (first_by (λ v. v.id == new.id) s.users ≡ ok a.user) =
      subst (λ k. first_by (λ v. v.id == k) s.users ≡ ok a.user)
        (sym (ap (λ u. u.id) a.result ∙ first_by-id id s.users found)) found in
    let balance = super_admins-replace s.users a.user new d at_id in
    let cases = check_leaves f s.users id a.user req a.role a.status a.status_valid a.leaves_one in
    let counted : (weight new ≡ weight (updated a.user req a.role a.status)) = ap weight a.result in
    rw same (elim cases [
      | inl none_lost ↦ omega (arith, balance, none_lost, h)
      | inr (inl kept) ↦ omega (arith, balance, kept, counted, weight_bounded a.user, h)
      | inr (inr others) ↦ omega (arith, balance, others, weight_bounded a.user, h)
    ])

-- While the database keeps keys and names apart, no call of `update`, whoever makes it and whatever
-- the database answers, takes away the last active super administrator.
pub update_keeps_super_admin :
    (f : Faults) (auth : Option RequestAuth) (id : ℕ) (req : UpdateUserRequest) (s : Store)
    → Distinct s.users
    → 0 < super_admins s.users
    → 0 < super_admins ((update f auth id req s).0.users)
update_keeps_super_admin f auth id req s d h =
    outcome_keeps f auth id req s _ _ d h (update-IsOutcome f auth id req s)
