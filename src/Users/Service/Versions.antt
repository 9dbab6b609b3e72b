-- ===== src/Users/Service/Versions.antt =====
-- The version of a user's tokens never falls
-- (backend/internal/application/service/user_service.go).
use yunxia.Prelude.{
  ℕ, ◌≤◌, List, [], ◌∷◌, true, false, not, ◌||◌, Text, str_eq, ok, ◌≡◌, refl, sym, ap, ◌∙◌, inl,
  inr, Bool-cases, ok_injective, arith, ==_iff, ◌==◌,
}
use mathlib.Core.Path.{subst}
use yunxia.Users.{User, Faults, first_by, find_by_id, has_id, replace, set_token_version}
use yunxia.Users.Service.{UpdateUserRequest, updated}
use yunxia.Users.Service.LastAdmin.{find_by_id-first_by, first_by-id}

-- The user with the key has that version, or a later one.
pub record IsPast (id v : ℕ) (us : List User) : Type 0 where
  pub user : User
  pub found : first_by (λ u. u.id == id) us ≡ ok user
  pub past : v ≤ user.token_version

pub first :
    (id : ℕ) (u : User) (us : List User)
    → (u.id == id) ≡ true
    → first_by (λ u. u.id == id) (u ∷ us) ≡ ok u
unfolding first_by
first id u us h = rw h

pub later :
    (id : ℕ) (u : User) (us : List User)
    → (u.id == id) ≡ false
    → first_by (λ u. u.id == id) (u ∷ us) ≡ first_by (λ u. u.id == id) us
unfolding first_by
later id u us h = rw h

pub first_by-has_id :
    (id : ℕ) (us : List User) {u : User}
    → first_by (λ u. u.id == id) us ≡ ok u
    → has_id id us ≡ true
unfolding first_by has_id
first_by-has_id id [] h = absurd (cc)
first_by-has_id id (v ∷ us) h = elim (Bool-cases (v.id == id)) [
  | inl a ↦ rw a refl
  | inr a ↦ rw a (first_by-has_id id us (rw a at h))
]

-- A row that a query by key finds is the one with its key.
pub same_row :
    (f : Faults) (us : List User) (k id : ℕ) {x u : User}
    → find_by_id f us k ≡ ok x
    → x.id ≡ id
    → first_by (λ u. u.id == id) us ≡ ok u
    → x ≡ u
same_row f us k id {x} {u} h e found =
    let at_k = find_by_id-first_by f us k h in
    let key = sym (first_by-id k us at_k) ∙ e in
    ok_injective (sym (subst (λ j. first_by (λ v. v.id == j) us ≡ ok x) key at_k) ∙ found)

pub replace-IsPast :
    (id v : ℕ) (new : User) (us : List User)
    → (new.id ≡ id
        → (u : User) → first_by (λ u. u.id == id) us ≡ ok u
        → u.token_version ≤ new.token_version)
    → IsPast id v us
    → IsPast id v (replace new us)
unfolding replace
replace-IsPast id v new [] k i = i
replace-IsPast id v new (u ∷ us) k i = elim (Bool-cases (u.id == id)) [
  | inl a ↦
      let same = ok_injective (sym (first id u us a) ∙ i.found) in
      elim (Bool-cases (u.id == new.id)) [
        | inl b ↦ rw b (record {
          user = record new { id = u.id; username = u.username };
          found = first id _ _ a;
          past = omega (
            arith,
            i.past,
            ap (λ w. w.token_version) same,
            k (sym ((==_iff _ _).0 b) ∙ (==_iff _ _).0 a) u (first id u us a),
          );
        })
        | inr b ↦ rw b (record {
          user = u;
          found = first id u _ a;
          past = omega (arith, i.past, ap (λ w. w.token_version) same);
        })
      ]
  | inr a ↦
      let rest =
        replace-IsPast id v new us (λ e w h. k e w (later id u us a ∙ h))
          (record { user = i.user; found = sym (later id u us a) ∙ i.found; past = i.past }) in
      elim (Bool-cases (u.id == new.id)) [
        | inl b ↦
            rw b
              (record { user = rest.user; found = later id _ _ a ∙ rest.found; past = rest.past })
        | inr b ↦
            rw b
              (record { user = rest.user; found = later id u _ a ∙ rest.found; past = rest.past })
      ]
]

pub set_token_version-IsPast :
    (id v k w : ℕ) (us : List User)
    → (k ≡ id → (u : User) → first_by (λ u. u.id == id) us ≡ ok u → u.token_version ≤ w)
    → IsPast id v us
    → IsPast id v (set_token_version k w us)
unfolding set_token_version
set_token_version-IsPast id v k w [] h i = i
set_token_version-IsPast id v k w (u ∷ us) h i = elim (Bool-cases (u.id == id)) [
  | inl a ↦
      let same = ok_injective (sym (first id u us a) ∙ i.found) in
      elim (Bool-cases (u.id == k)) [
        | inl b ↦ rw b (record {
          user = record u { token_version = w };
          found = first id _ _ a;
          past = omega (
            arith,
            i.past,
            ap (λ x. x.token_version) same,
            h (sym ((==_iff _ _).0 b) ∙ (==_iff _ _).0 a) u (first id u us a),
          );
        })
        | inr b ↦ rw b (record {
          user = u;
          found = first id u _ a;
          past = omega (arith, i.past, ap (λ x. x.token_version) same);
        })
      ]
  | inr a ↦
      let rest =
        set_token_version-IsPast id v k w us (λ e x q. h e x (later id u us a ∙ q))
          (record { user = i.user; found = sym (later id u us a) ∙ i.found; past = i.past }) in
      elim (Bool-cases (u.id == k)) [
        | inl b ↦
            rw b
              (record { user = rest.user; found = later id _ _ a ∙ rest.found; past = rest.past })
        | inr b ↦
            rw b
              (record { user = rest.user; found = later id u _ a ∙ rest.found; past = rest.past })
      ]
]

pub updated_later :
    (user : User) (req : UpdateUserRequest) (role status : Text)
    → user.token_version ≤ (updated user req role status).token_version
unfolding updated
updated_later user req role status =
    elim (Bool-cases (not (str_eq user.role_key role) || not (str_eq user.status status))) [
      | inl a ↦ rw a (omega arith)
      | inr a ↦ rw a (omega arith)
    ]

nobody : (id : ℕ) {u : User} → ¬ (first_by (λ u. u.id == id) [] ≡ ok u)
unfolding first_by
nobody id h = cc h

-- The row that is set has the version that is set.
pub set_token_version_sets :
    (id w : ℕ) (us : List User) {u : User}
    → first_by (λ u. u.id == id) us ≡ ok u
    → IsPast id w (set_token_version id w us)
unfolding set_token_version
set_token_version_sets id w [] h = absurd (nobody id h)
set_token_version_sets id w (u ∷ us) h = elim (Bool-cases (u.id == id)) [
  | inl a ↦
      rw a (record {
        user = record u { token_version = w };
        found = first id _ _ a;
        past = omega arith;
      })
  | inr a ↦
      let rest = set_token_version_sets id w us (sym (later id u us a) ∙ h) in
      rw a (record { user = rest.user; found = later id u _ a ∙ rest.found; past = rest.past })
]
