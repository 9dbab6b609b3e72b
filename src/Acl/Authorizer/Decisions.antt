-- ===== src/Acl/Authorizer/Decisions.antt =====
-- When a request is judged by the rules at all, and what it takes to pass.
use mathlib.Core.Path.{subst}
use yunxia.Prelude.{
  ℕ, List, [], ◌∷◌, Bool, true, false, not, Text, str_eq, str_eq_iff, some, Result, ok, err,
  not_found, acl_denied, ok_injective, ◌≡◌, ◌≢◌, ◌⊎◌, inl, inr, refl, sym, ap, ◌∙◌, Bool-cases,
  Result-cases, ◌>>=◌, refuse_if,
}
use yunxia.Permission.{RequestAuth, role_super_admin}
use yunxia.Acl.{AclRule, AclAction}
use yunxia.Acl.Evaluator.{Evaluator, Target, allow_path, applies}
use yunxia.Acl.Evaluator.Priority.{Falling}
use yunxia.Acl.Evaluator.Decision.{
  IsAllowed, IsJudged, allow_target_iff, allow_path-IsJudged, allow_target_no_rules,
}
use yunxia.Acl.Authorizer.{
  Authorizer, bypassing, no_rules, mount_path_for, evaluator_with, new_evaluator, authorize_path,
}

-- The reasons for which no rule is looked at: a super administrator; no rules at all, with the
-- multi-user mode off or never configured.
abbrev pub IsWaved : Authorizer → RequestAuth → List AclRule → Type 0
IsWaved a auth rules =
    (auth.role_key ≡ role_super_admin)
    ⊎ (rules ≡ []) × ((a.multi_user_enabled ≡ ok false) ⊎ (a.multi_user_enabled ≡ err not_found))

-- The evaluator judges by the listed rules on behalf of the user, with the mount path of the source
-- and the authorizer's reader: each of its fields is determined.
abbrev pub IsJudging : Authorizer → RequestAuth → ℕ → List AclRule → Evaluator → Type 0
IsJudging a auth source_id rules e =
    (e.bypass ≡ false)
    × (e.user_id ≡ auth.user_id)
    × (e.source_id ≡ source_id)
    × (e.rules ≡ rules)
    × (mount_path_for a.find_source source_id ≡ ok e.mount_path)
    × (e.metadata_reader ≡ a.metadata_reader)

-- The multi-user mode was never configured, and there are rules: nothing is allowed.
abbrev pub IsClosed : Authorizer → List AclRule → Evaluator → Type 0
IsClosed a rules e = (a.multi_user_enabled ≡ err not_found) × (rules ≢ []) × (e ≡ bypassing false)

no_rules_cases :
    (rules : List AclRule)
    → ((rules ≡ []) × (no_rules rules ≡ true)) ⊎ ((rules ≢ []) × (no_rules rules ≡ false))
unfolding no_rules
no_rules_cases [] = inl (refl, refl)
no_rules_cases (r ∷ rs) = inr ((λ e. cc), refl)

abbrev judging_at : Authorizer → ℕ → ℕ → List AclRule → Text → Evaluator
judging_at a user_id source_id rules mount = record {
  bypass = false;
  user_id = user_id;
  source_id = source_id;
  rules = rules;
  mount_path = mount;
  metadata_reader = a.metadata_reader;
}

judging :
    (a : Authorizer) (auth : RequestAuth) (source_id : ℕ) (rules : List AclRule) {e : Evaluator}
    → (mount_path_for a.find_source source_id >>= λ mount.
        ok (judging_at a auth.user_id source_id rules mount))
      ≡ ok e
    → IsJudging a auth source_id rules e
judging a auth source_id rules h = elim (Result-cases (mount_path_for a.find_source source_id)) [
  | inr (x, bad) ↦ absurd (cc (rw bad at h))
  | inl (mount, good) ↦ rw (← ok_injective (rw good at h)) (refl, refl, refl, refl, good, refl)
]

evaluator_with_cases :
    (a : Authorizer) (auth : RequestAuth) (source_id : ℕ) (rules : List AclRule)
    (multi : Result Bool) {e : Evaluator}
    → a.multi_user_enabled ≡ multi
    → evaluator_with a auth.user_id source_id rules multi ≡ ok e
    → (IsWaved a auth rules × (e ≡ bypassing true))
      ⊎ (IsJudging a auth source_id rules e ⊎ IsClosed a rules e)
unfolding evaluator_with
evaluator_with_cases a auth source_id rules (err not_found) m h = elim (no_rules_cases rules) [
  | inl (empty, t) ↦ inl (inr (empty, inr m), sym (ok_injective (rw t at h)))
  | inr (some_rule, t) ↦ inr (inr (m, some_rule, sym (ok_injective (rw t at h))))
]
evaluator_with_cases a auth source_id rules (ok true) m h =
    inr (inl (judging a auth source_id rules h))
evaluator_with_cases a auth source_id rules (ok false) m h = elim (no_rules_cases rules) [
  | inl (empty, t) ↦ inl (inr (empty, inl m), sym (ok_injective (rw t at h)))
  | inr (_, t) ↦ inr (inl (judging a auth source_id rules (rw t at h)))
]
evaluator_with_cases a auth source_id rules (err x) m h = cc

-- For an authenticated request, a configured authorizer whose rules can be read, and an evaluator
-- that was made: it waves the request through for one of the two reasons in `IsWaved`, or judges it
-- by the rules, or, with rules but no configuration, allows nothing.
pub new_evaluator_cases :
    (a : Authorizer) (auth : RequestAuth) (source_id : ℕ) {rules : List AclRule} {e : Evaluator}
    → a.configured ≡ true
    → a.list_rules source_id ≡ ok rules
    → new_evaluator a (some auth) source_id ≡ ok e
    → (IsWaved a auth rules × (e ≡ bypassing true))
      ⊎ (IsJudging a auth source_id rules e ⊎ IsClosed a rules e)
unfolding new_evaluator
new_evaluator_cases a auth source_id {rules} {e} c l h =
    elim (Bool-cases (str_eq auth.role_key role_super_admin)) [
      | inl super ↦ inl (
        inl ((str_eq_iff auth.role_key role_super_admin).0 super),
        sym (ok_injective (rw (c, super) at h)),
      )
      | inr other ↦
          evaluator_with_cases a auth source_id rules a.multi_user_enabled refl
            (rw (c, other, l) at h)
    ]

refused : (allowed : Bool) → refuse_if (not allowed) acl_denied ≡ ok tt → allowed ≡ true
refused true h = refl
refused false h = cc

-- With a configured authorizer and rules by falling priority, a request that is authorized was waved
-- through for a reason in `IsWaved`, or its path normalizes, and of the rules that apply, for the
-- user, to the target that the path, the mount path of the source and the node that the authorizer's
-- reader finds at the merged virtual path make up, one of the highest priority allows and none of the
-- highest priority denies.
pub authorize_path_sound :
    (a : Authorizer) (auth : RequestAuth) (source_id : ℕ) (path : Text) (action : AclAction)
    {rules : List AclRule}
    → a.configured ≡ true
    → a.list_rules source_id ≡ ok rules
    → Falling rules
    → authorize_path a (some auth) source_id path action ≡ ok tt
    → IsWaved a auth rules
      ⊎ ((e : Evaluator) × (t : Target) × IsJudging a auth source_id rules e
          × IsJudged e path action t
          × IsAllowed (applies e t action) rules)
unfolding authorize_path
authorize_path_sound a auth source_id path action {rules} c l f h =
    elim (Result-cases (new_evaluator a (some auth) source_id)) [
      | inr (x, bad) ↦ absurd (cc (rw bad at h))
      | inl (e, made) ↦ elim (Result-cases (allow_path e path action)) [
        | inr (x, bad) ↦ absurd (cc (rw (made, bad) at h))
        | inl (allowed, judged) ↦
            let passed : allowed ≡ true = refused allowed (rw (made, judged) at h) in
            let yes_path : allow_path e path action ≡ ok true = judged ∙ ap ok passed in
            elim (new_evaluator_cases a auth source_id c l made) [
              | inl (waved, _) ↦ inl waved
              | inr (inl j) ↦
                  let (t, k) = allow_path-IsJudged e path action j.0 yes_path in
                  let g : Falling e.rules = subst Falling (sym j.3) f in
                  inr (
                    e,
                    t,
                    j,
                    k,
                    subst (IsAllowed (applies e t action)) j.3
                        ((allow_target_iff e t action g).0 k.3),
                  )
              | inr (inr (_, _, closed)) ↦
                  let (t, k) =
                    allow_path-IsJudged e path action (ap (λ (x : Evaluator). x.bypass) closed)
                      yes_path in
                  absurd (
                    cc (
                      allow_target_no_rules e t action (ap (λ (x : Evaluator). x.rules) closed),
                      k.3,
                    ))
            ]
      ]
    ]
