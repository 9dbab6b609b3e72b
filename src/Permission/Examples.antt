-- ===== src/Permission/Examples.antt =====
-- Each theorem on roles and checks at an input.
use yunxia.Prelude.{List, [], ◌∷◌, true, Text, ok, none, some, ◌≡◌, ◌↔◌, refl, All}
use yunxia.Permission.{
  status_active, role_admin, role_operator, share_read_all, all_capabilities, admin_capabilities,
  operator_capabilities, resolve_capabilities, has_capability, can_assign_role, RequestAuth, next,
  unauthorized, forbidden, require_all, require_capabilities_for_action,
}
use yunxia.Permission.Laws.{
  Within, can_assign_role_no_escalation, require_capabilities_for_action_iff,
}

program : Unit {0}
unfolding all_capabilities admin_capabilities operator_capabilities resolve_capabilities
    has_capability can_assign_role require_all require_capabilities_for_action
program = tt

abbrev administrator : RequestAuth
administrator = record {
  user_id = 2;
  username = [];
  role_key = role_admin;
  status = status_active;
  capabilities = admin_capabilities;
}

abbrev operator : RequestAuth
operator = record {
  user_id = 3;
  username = [];
  role_key = role_operator;
  status = status_active;
  capabilities = operator_capabilities;
}

can_assign_role_no_escalation_example :
    (ds : List Text) × (resolve_capabilities role_operator ≡ ok ds) × Within ds admin_capabilities
unfolding program
can_assign_role_no_escalation_example =
    can_assign_role_no_escalation role_admin role_operator refl refl

require_capabilities_for_action_iff_example :
    ((require_capabilities_for_action (share_read_all ∷ []) (some administrator) ≡ next) ↔ (
      (a : RequestAuth) × (some administrator ≡ some a)
      × All (λ c. has_capability a.capabilities c ≡ true) (share_read_all ∷ [])))
    × ((require_capabilities_for_action (share_read_all ∷ []) (some administrator) ≡ unauthorized)
        ↔ (some administrator ≡ none))
require_capabilities_for_action_iff_example =
    require_capabilities_for_action_iff (share_read_all ∷ []) (some administrator)

-- An administrator passes, an operator is stopped.
passes : require_capabilities_for_action (share_read_all ∷ []) (some administrator) ≡ next
unfolding program
passes = refl

stopped : require_capabilities_for_action (share_read_all ∷ []) (some operator) ≡ forbidden
unfolding program
stopped = refl
