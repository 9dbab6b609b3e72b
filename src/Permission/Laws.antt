-- ===== src/Permission/Laws.antt =====
-- What roles can do and hand on.
use yunxia.Prelude.{
  List, [], ◌∷◌, Bool, true, ◌&&◌, ◌||◌, Text, str_eq, str_eq_iff, Option, none, some, ok,
  ok_injective, ◌≡◌, ◌≢◌, ◌↔◌, refl, sym, arith, All, inl, inr, Bool-cases,
}
use yunxia.Permission.{
  role_super_admin, role_admin, role_operator, role_user, is_valid_role, resolve_capabilities,
  has_capability, can_assign_role, all_capabilities, admin_capabilities, operator_capabilities,
  RequestAuth, next, unauthorized, require_all, require_capabilities_for_action,
}

-- Every capability of the first list is one of the second.
abbrev pub Within : List Text → List Text → Type 0
Within cs ds = (c : Text) → has_capability cs c ≡ true → has_capability ds c ≡ true

all_held : List Text → List Text → Bool
all_held [] ds = true
all_held (c ∷ cs) ds = has_capability ds c && all_held cs ds

all_held-Within : (cs ds : List Text) → all_held cs ds ≡ true → Within cs ds
unfolding all_held has_capability
all_held-Within [] ds h c e = cc
all_held-Within (d ∷ cs) ds h c e = elim (Bool-cases (str_eq d c)) [
  | inl same ↦ rw (← (str_eq_iff d c).0 same) (ground arith)
  | inr other ↦ all_held-Within cs ds (ground arith) c (rw other at e)
]

-- The four roles, by the list of their capabilities.
data RoleCase (r : Text) (cs : List Text) : Type 0 where
  super_admin_case : r ≡ role_super_admin → cs ≡ all_capabilities → RoleCase r cs
  admin_case : r ≡ role_admin → cs ≡ admin_capabilities → RoleCase r cs
  operator_case : r ≡ role_operator → cs ≡ operator_capabilities → RoleCase r cs
  user_case : r ≡ role_user → cs ≡ [] → RoleCase r cs

role_case : (r : Text) {cs : List Text} → resolve_capabilities r ≡ ok cs → RoleCase r cs
unfolding resolve_capabilities
role_case r {cs} e = elim (Bool-cases (str_eq r role_super_admin)) [
  | inl a ↦ super_admin_case ((str_eq_iff r _).0 a) (sym (ok_injective (rw a at e)))
  | inr a ↦ elim (Bool-cases (str_eq r role_admin)) [
    | inl b ↦ admin_case ((str_eq_iff r _).0 b) (sym (ok_injective (rw (a, b) at e)))
    | inr b ↦ elim (Bool-cases (str_eq r role_operator)) [
      | inl c ↦ operator_case ((str_eq_iff r _).0 c) (sym (ok_injective (rw (a, b, c) at e)))
      | inr c ↦ elim (Bool-cases (str_eq r role_user)) [
        | inl d ↦ user_case ((str_eq_iff r _).0 d) (sym (ok_injective (rw (a, b, c, d) at e)))
        | inr d ↦ absurd (cc (rw (a, b, c, d) at e))
      ]
    ]
  ]
]

Within-all : (cs : List Text) (r : Text) → RoleCase r cs → Within cs all_capabilities
unfolding all_held has_capability all_capabilities admin_capabilities operator_capabilities
Within-all cs r (super_admin_case _ e) = rw e (λ c h. h)
Within-all cs r (admin_case _ e) = rw e (all_held-Within admin_capabilities all_capabilities refl)
Within-all cs r (operator_case _ e) =
    rw e (all_held-Within operator_capabilities all_capabilities refl)
Within-all cs r (user_case _ e) = rw e (λ c h. cc)

-- Operators' and users' capabilities are administrators', too.
Within-admin :
    (r : Text) (cs : List Text)
    → ((str_eq r role_operator || str_eq r role_user) ≡ true)
    → RoleCase r cs
    → Within cs admin_capabilities
unfolding all_held has_capability admin_capabilities operator_capabilities
Within-admin r cs h (super_admin_case s _) = absurd (cc (rw s at h))
Within-admin r cs h (admin_case s _) = absurd (cc (rw s at h))
Within-admin r cs h (operator_case _ e) =
    rw e (all_held-Within operator_capabilities admin_capabilities refl)
Within-admin r cs h (user_case _ e) = rw e (λ c k. cc)

-- A valid role has capabilities.
is_valid_role-resolves :
    (r : Text) → is_valid_role r ≡ true → (cs : List Text) × (resolve_capabilities r ≡ ok cs)
unfolding is_valid_role resolve_capabilities
is_valid_role-resolves r h = elim (Bool-cases (str_eq r role_super_admin)) [
  | inl a ↦ (all_capabilities, rw a)
  | inr a ↦ elim (Bool-cases (str_eq r role_admin)) [
    | inl b ↦ (admin_capabilities, rw (a, b))
    | inr b ↦ elim (Bool-cases (str_eq r role_operator)) [
      | inl c ↦ (operator_capabilities, rw (a, b, c))
      | inr c ↦ let d : str_eq r role_user ≡ true = rw (a, b, c) at h in ([], rw (a, b, c, d))
    ]
  ]
]

lower-is_valid_role :
    (r : Text) → ((str_eq r role_operator || str_eq r role_user) ≡ true) → is_valid_role r ≡ true
unfolding is_valid_role
lower-is_valid_role r h = ground arith

-- The role that is assigned has capabilities, and the one who may assign it has them all: nobody
-- hands on more than they hold.
pub can_assign_role_no_escalation :
    (actor target : Text) {cs : List Text}
    → can_assign_role actor target ≡ true
    → resolve_capabilities actor ≡ ok cs
    → (ds : List Text) × (resolve_capabilities target ≡ ok ds) × Within ds cs
unfolding can_assign_role
can_assign_role_no_escalation actor target {cs} h e = elim (role_case actor e) [
  | super_admin_case r same ↦
      let (ds, f) = is_valid_role-resolves target (rw r at h) in
      (ds, f, rw same (Within-all ds target (role_case target f)))
  | admin_case r same ↦
      let lower : (str_eq target role_operator || str_eq target role_user) ≡ true = rw r at h in
      let (ds, f) = is_valid_role-resolves target (lower-is_valid_role target lower) in
      (ds, f, rw same (Within-admin target ds lower (role_case target f)))
  | operator_case r _ ↦ absurd (cc (rw r at h))
  | user_case r _ ↦ absurd (cc (rw r at h))
]

require_all-next_iff :
    (needed : List Text) (a : RequestAuth)
    → (require_all needed a ≡ next) ↔ All (λ c. has_capability a.capabilities c ≡ true) needed
unfolding require_all
require_all-next_iff [] a = ((λ h. tt), λ h. refl)
require_all-next_iff (c ∷ cs) a = elim (Bool-cases (has_capability a.capabilities c)) [
  | inl held ↦ (
    (λ h. (held, (require_all-next_iff cs a).0 (rw held at h))),
    λ h. rw held ((require_all-next_iff cs a).1 h.1),
  )
  | inr missing ↦ ((λ h. absurd (cc (rw missing at h))), λ h. absurd (cc (missing, h.0)))
]

require_all-ne-unauthorized :
    (needed : List Text) (a : RequestAuth) → require_all needed a ≢ unauthorized
unfolding require_all
require_all-ne-unauthorized [] a h = cc
require_all-ne-unauthorized (c ∷ cs) a h = elim (Bool-cases (has_capability a.capabilities c)) [
  | inl held ↦ require_all-ne-unauthorized cs a (rw held at h)
  | inr missing ↦ cc (rw missing at h)
]

-- A request goes on to the next handler exactly if it is authenticated and holds every capability
-- that is asked for; it is answered as not authenticated exactly if it is not, and so whoever is
-- authenticated and lacks one of the capabilities is forbidden.
pub require_capabilities_for_action_iff :
    (needed : List Text) (auth : Option RequestAuth)
    → ((require_capabilities_for_action needed auth ≡ next) ↔ (
        (a : RequestAuth) × (auth ≡ some a)
        × All (λ c. has_capability a.capabilities c ≡ true) needed))
      × ((require_capabilities_for_action needed auth ≡ unauthorized) ↔ (auth ≡ none))
unfolding require_capabilities_for_action
require_capabilities_for_action_iff needed none =
    (((λ h. cc), λ h. cc (h.1)), ((λ h. refl), λ h. refl))
require_capabilities_for_action_iff needed (some a) = (
  (
    (λ h. (a, refl, (require_all-next_iff needed a).0 h)),
    λ (b, e, h). let same : a ≡ b = cc in (require_all-next_iff needed a).1 (rw same h),
  ),
  ((λ h. absurd (require_all-ne-unauthorized needed a h)), λ h. absurd (cc (h))),
)
