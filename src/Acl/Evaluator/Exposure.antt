-- ===== src/Acl/Evaluator/Exposure.antt =====
-- What makes a source visible (`CanSeeSource` in
-- backend/internal/application/service/acl_authorizer.go).
use mathlib.Core.List.{Memᴰ}
use yunxia.Prelude.{
  List, [], ◌∷◌, Bool, true, ◌&&◌, ◌||◌, any, ◌≡◌, refl, arith, inl, inr, Bool-cases,
}
use yunxia.Acl.{AclRule, AclAction, acl_actions_for_rule, is_allow, is_for_user}
use yunxia.Acl.Evaluator.{
  Evaluator, allow_target, applies, exposure_target, rule_can_expose_source,
  rule_effectively_allows_source_exposure, sees_source,
}
use yunxia.Acl.Evaluator.Priority.{Falling}
use yunxia.Acl.Evaluator.Decision.{IsAllowed, allow_target_iff}

-- The rule is the user's and allows, it reaches the source, and one of its actions is allowed by all
-- rules together at the place where it exposes the source.
pub record IsExposure (e : Evaluator) (r : AclRule) : Type 0 where
  pub for_user : is_for_user e.user_id r ≡ true
  pub allowing : is_allow r ≡ true
  pub reaching : rule_can_expose_source e r ≡ true
  pub action : AclAction
  pub stated : Memᴰ action (acl_actions_for_rule r)
  pub allowed : IsAllowed (applies e (exposure_target e r) action) e.rules

any_found :
    (p : AclAction → Bool) (acts : List AclAction)
    → any p acts ≡ true
    → (a : AclAction) × Memᴰ a acts × (p a ≡ true)
any_found p [] h = absurd (cc)
any_found p (a ∷ acts) h = elim (Bool-cases (p a)) [
  | inl hit ↦ (a, Memᴰ.head refl, hit)
  | inr miss ↦ let (b, m, k) = any_found p acts (rw miss at h) in (b, Memᴰ.tail m, k)
]

effective_allowance :
    (e : Evaluator) (r : AclRule)
    → Falling e.rules
    → is_for_user e.user_id r ≡ true
    → is_allow r ≡ true
    → rule_effectively_allows_source_exposure e r ≡ true
    → IsExposure e r
unfolding rule_effectively_allows_source_exposure
effective_allowance e r f u w h = elim (Bool-cases (rule_can_expose_source e r)) [
  | inr c ↦ absurd (cc (rw c at h))
  | inl c ↦
      let (a, m, k) =
        any_found (λ a. allow_target e (exposure_target e r) a) (acl_actions_for_rule r)
          (rw c at h) in
      record {
        for_user = u;
        allowing = w;
        reaching = c;
        action = a;
        stated = m;
        allowed = (allow_target_iff e (exposure_target e r) a f).0 k;
      }
]

-- With rules by falling priority, a source that is seen for some rules is exposed by one of them: it
-- is the user's, allows, reaches the source, and at the place where it exposes the source, of the
-- rules that apply to one of its actions, one of the highest priority allows and none of the
-- highest priority denies.
pub sees_source_sound :
    (e : Evaluator) (rs : List AclRule)
    → Falling e.rules
    → sees_source e rs ≡ true
    → (r : AclRule) × Memᴰ r rs × IsExposure e r
unfolding sees_source
sees_source_sound e [] f h = absurd (cc)
sees_source_sound e (r ∷ rs) f h =
    elim (Bool-cases (
      is_for_user e.user_id r
      && (is_allow r
          && ((r.read || r.write || r.delete || r.share)
              && rule_effectively_allows_source_exposure e r)))) [
                | inl hit ↦ (
                  r,
                  Memᴰ.head refl,
                  effective_allowance e r f (ground arith) (ground arith) (ground arith),
                )
                | inr miss ↦
                    let (s, m, x) = sees_source_sound e rs f (ground arith) in (s, Memᴰ.tail m, x)
              ]
