-- ===== src/Users/Service/Rows.antt =====
-- Rows of the users' table under the database's operations.
use yunxia.Prelude.{
  ℕ, ◌+◌, ◌≤◌, List, [], ◌∷◌, Bool, true, false, ◌||◌, ◌&&◌, Text, str_eq, ◌==◌, if◌then◌else◌,
  length, keep, ok, not_found, err, ◌≡◌, refl, ap, ◌∙◌, arith, inl, inr, Bool-cases, ok_injective,
  ==_iff,
}
use mathlib.Core.Path.{subst}
use yunxia.Permission.{status_active}
use yunxia.Users.{User, first_by, has_id, replace, set_token_version, is_super_admin}

unfoldable pub has_name : Text → List User → Bool
has_name name [] = false
has_name name (u ∷ us) = str_eq u.username name || has_name name us

-- Keys and user names occur once.
pub data Distinct : List User → Type 0 where
  none_left : Distinct []
  one_more :
      {u : User} {us : List User}
      → has_id u.id us ≡ false
      → has_name u.username us ≡ false
      → Distinct us
      → Distinct (u ∷ us)

-- A user is an active super administrator, as a number.
unfoldable pub weight : User → ℕ
weight u = if str_eq u.status status_active && is_super_admin u then 1 else 0

-- The active super administrators of the table.
unfoldable pub super_admins : List User → ℕ
super_admins [] = 0
super_admins (u ∷ us) = weight u + super_admins us

pub length-keep-super_admins :
    (us : List User)
    → length (keep is_super_admin (keep (λ u. str_eq u.status status_active) us)) ≡ super_admins us
unfolding weight super_admins
length-keep-super_admins [] = refl
length-keep-super_admins (u ∷ us) = elim (Bool-cases (str_eq u.status status_active)) [
  | inl a ↦ elim (Bool-cases (is_super_admin u)) [
    | inl b ↦ rw (a, b) (omega (arith, length-keep-super_admins us))
    | inr b ↦ rw (a, b) (omega (arith, length-keep-super_admins us))
  ]
  | inr a ↦ rw a (omega (arith, length-keep-super_admins us))
]

replace_absent : (new : User) (us : List User) → has_id new.id us ≡ false → replace new us ≡ us
unfolding has_id replace
replace_absent new [] h = refl
replace_absent new (u ∷ us) h = elim (Bool-cases (u.id == new.id)) [
  | inl a ↦ absurd (cc (rw a at h))
  | inr a ↦ rw (a, replace_absent new us (rw a at h)) refl
]

pub weight_bounded : (u : User) → weight u ≤ 1
unfolding weight
weight_bounded u = elim (Bool-cases (str_eq u.status status_active && is_super_admin u)) [
  | inl a ↦ rw a (omega arith)
  | inr a ↦ rw a (omega arith)
]

pub weight_other : (u : User) → is_super_admin u ≡ false → weight u ≡ 0
unfolding weight
weight_other u h = elim (Bool-cases (str_eq u.status status_active)) [
  | inl a ↦ rw (a, h) refl
  | inr a ↦ rw a refl
]

pub weight_active :
    (u : User) → is_super_admin u ≡ true → str_eq u.status status_active ≡ true → weight u ≡ 1
unfolding weight
weight_active u h k = rw (k, h) refl

weight_renamed :
    (new : User) (id : ℕ) (name : Text)
    → weight (record new { id = id; username = name }) ≡ weight new
unfolding weight
weight_renamed new id name = refl

pub weight-password :
    (user : User) (password : Text)
    → weight (record user { password_hash = password }) ≡ weight user
unfolding weight
weight-password user password = refl

-- Replacing a row exchanges its weight.
pub super_admins-replace :
    (us : List User) (user : User) (new : User)
    → Distinct us
    → first_by (λ u. u.id == new.id) us ≡ ok user
    → super_admins (replace new us) + weight user ≡ super_admins us + weight new
unfolding super_admins replace first_by
super_admins-replace [] user new d h = absurd (cc)
super_admins-replace (u ∷ us) user new (one_more away _ d) h = elim (Bool-cases (u.id == new.id)) [
  | inl a ↦
      rw
        (
          a,
          replace_absent new us (subst (λ k. has_id k us ≡ false) ((==_iff _ _).0 a) away),
          weight_renamed new u.id u.username,
        )
        (omega (arith, ap weight (ok_injective (rw a at h))))
  | inr a ↦ rw a (omega (arith, super_admins-replace us user new d (rw a at h)))
]

pub has_id-replace :
    (id : ℕ) (new : User) (us : List User) → has_id id (replace new us) ≡ has_id id us
unfolding has_id replace
has_id-replace id new [] = refl
has_id-replace id new (u ∷ us) = elim (Bool-cases (u.id == new.id)) [
  | inl a ↦ rw (a, has_id-replace id new us) refl
  | inr a ↦ rw (a, has_id-replace id new us) refl
]

pub has_name-replace :
    (name : Text) (new : User) (us : List User) → has_name name (replace new us) ≡ has_name name us
unfolding has_name replace
has_name-replace name new [] = refl
has_name-replace name new (u ∷ us) = elim (Bool-cases (u.id == new.id)) [
  | inl a ↦ rw (a, has_name-replace name new us) refl
  | inr a ↦ rw (a, has_name-replace name new us) refl
]

-- Replacing a row keeps the keys and the user names.
pub replace-Distinct : (new : User) (us : List User) → Distinct us → Distinct (replace new us)
unfolding replace
replace-Distinct new [] d = none_left
replace-Distinct new (u ∷ us) (one_more i n d) = elim (Bool-cases (u.id == new.id)) [
  | inl a ↦ rw a (
      one_more (has_id-replace u.id new us ∙ i) (has_name-replace u.username new us ∙ n)
        (replace-Distinct new us d))
  | inr a ↦ rw a (
      one_more (has_id-replace u.id new us ∙ i) (has_name-replace u.username new us ∙ n)
        (replace-Distinct new us d))
]

-- A name that is not found is free.
pub first_by_none :
    (name : Text) (us : List User)
    → first_by (λ u. str_eq u.username name) us ≡ err not_found
    → has_name name us ≡ false
unfolding first_by has_name
first_by_none name [] h = refl
first_by_none name (u ∷ us) h = elim (Bool-cases (str_eq u.username name)) [
  | inl a ↦ absurd (cc (rw a at h))
  | inr a ↦ rw a (first_by_none name us (rw a at h))
]

-- Keys stay below the next one.
abbrev pub AllBelow : ℕ → List User → Type 0
AllBelow n us = (i : ℕ) → n ≤ i → has_id i us ≡ false

pub has_id-set_token_version :
    (i id v : ℕ) (us : List User) → has_id i (set_token_version id v us) ≡ has_id i us
unfolding has_id set_token_version
has_id-set_token_version i id v [] = refl
has_id-set_token_version i id v (u ∷ us) = elim (Bool-cases (u.id == id)) [
  | inl a ↦ rw (a, has_id-set_token_version i id v us) refl
  | inr a ↦ rw (a, has_id-set_token_version i id v us) refl
]

has_name-set_token_version :
    (name : Text) (id v : ℕ) (us : List User)
    → has_name name (set_token_version id v us) ≡ has_name name us
unfolding has_name set_token_version
has_name-set_token_version name id v [] = refl
has_name-set_token_version name id v (u ∷ us) = elim (Bool-cases (u.id == id)) [
  | inl a ↦ rw (a, has_name-set_token_version name id v us) refl
  | inr a ↦ rw (a, has_name-set_token_version name id v us) refl
]

pub set_token_version-Distinct :
    (id v : ℕ) (us : List User) → Distinct us → Distinct (set_token_version id v us)
unfolding set_token_version
set_token_version-Distinct id v [] d = none_left
set_token_version-Distinct id v (u ∷ us) (one_more i n d) = elim (Bool-cases (u.id == id)) [
  | inl a ↦ rw a (
      one_more (has_id-set_token_version u.id id v us ∙ i)
        (has_name-set_token_version u.username id v us ∙ n) (set_token_version-Distinct id v us d))
  | inr a ↦ rw a (
      one_more (has_id-set_token_version u.id id v us ∙ i)
        (has_name-set_token_version u.username id v us ∙ n) (set_token_version-Distinct id v us d))
]

-- A new token version leaves the active super administrators.
pub super_admins-set_token_version :
    (id v : ℕ) (us : List User) → super_admins (set_token_version id v us) ≡ super_admins us
unfolding super_admins set_token_version weight
super_admins-set_token_version id v [] = refl
super_admins-set_token_version id v (u ∷ us) = elim (Bool-cases (u.id == id)) [
  | inl a ↦ rw (a, super_admins-set_token_version id v us) refl
  | inr a ↦ rw (a, super_admins-set_token_version id v us) refl
]

-- A row with a fresh key, and the active super administrators with it.
pub AllBelow_more :
    (n : ℕ) (u : User) (us : List User) → u.id ≡ n → AllBelow n us → AllBelow (n + 1) (u ∷ us)
unfolding has_id
AllBelow_more n u us e h i k = rw (h i (omega (arith, k))) (ground (arith, e, k))

pub super_admins_more : (u : User) (us : List User) → super_admins us ≤ super_admins (u ∷ us)
unfolding super_admins
super_admins_more u us = omega arith
