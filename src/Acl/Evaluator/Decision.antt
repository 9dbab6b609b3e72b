-- ===== src/Acl/Evaluator/Decision.antt =====
-- What `allowTarget` decides: the rules of the highest priority that apply, and among them a denial
-- before an allowance.
use mathlib.Core.List.{Memᴰ}
use yunxia.Prelude.{
  List, [], ◌∷◌, Bool, true, false, if◌then◌else◌, none, ◌≡◌, ◌↔◌, refl, sym, ap, ◌∙◌, arith, All,
  All-Memᴰ, All-of-Memᴰ, inl, inr, ◌⊎◌, Bool-cases, Result-cases, ok, err, Error, ok_injective, ◌≢◌,
  Text, ◌≤ℤ◌,
}
use yunxia.Vfs.Path.{normalize_virtual_path}
use yunxia.Acl.{AclRule, AclAction, is_allow, is_deny}
use yunxia.Acl.Evaluator.Priority.{
  Falling, NoDenial, SomeAllowance, matched_sound, matched_complete,
}
use yunxia.Acl.Evaluator.{
  Evaluator, Target, allow_path, judge_path, target_virtual_path, resolve_target_node_best_effort,
  allow_loop, allow_target, or_first, is_below, applies,
}

module _ (app : AclRule → Bool) where
  -- The rule applies, and no rule of the list that applies is above it.
  abbrev pub Decisive : List AclRule → AclRule → Type 0
  Decisive rules r =
      Memᴰ r rules
      × (app r ≡ true)
      × ((s : AclRule) → Memᴰ s rules → app s ≡ true → s.priority ≤ℤ r.priority)

  -- Some decisive rule allows, and none denies.
  abbrev pub IsAllowed : List AclRule → Type 0
  IsAllowed rules =
      ((r : AclRule) × Decisive rules r × (is_allow r ≡ true))
      × ((r : AclRule) → Decisive rules r → is_deny r ≡ false)

  Decisive-of_level :
      (r : AclRule) (rs : List AclRule) (s : AclRule)
      → All (λ t. t.priority ≤ℤ r.priority) rs
      → Memᴰ s (r ∷ rs)
      → app s ≡ true
      → r.priority ≤ℤ s.priority
      → Decisive (r ∷ rs) s
  Decisive-of_level r rs s f m x l = (
    m,
    x,
    λ t n _.
        let low : t.priority ≤ℤ r.priority =
          All-Memᴰ (λ (u : AclRule). u.priority ≤ℤ r.priority) (r ∷ rs) (omega arith, f) n in
        omega arith,
  )

  -- A rule that does not apply may be left out.
  Decisive-later :
      (r : AclRule) (rs : List AclRule) (s : AclRule)
      → app r ≡ false
      → Decisive rs s
      → Decisive (r ∷ rs) s
  Decisive-later r rs s out (m, x, top) = (Memᴰ.tail m, x, beyond)
    where
      beyond : (t : AclRule) → Memᴰ t (r ∷ rs) → app t ≡ true → t.priority ≤ℤ s.priority
      beyond t (Memᴰ.head e) y = absurd (cc (ap app e, y, out))
      beyond t (Memᴰ.tail n) y = top t n y

  Decisive-earlier :
      (r : AclRule) (rs : List AclRule) (s : AclRule)
      → app r ≡ false
      → Decisive (r ∷ rs) s
      → Decisive rs s
  Decisive-earlier r rs s out (Memᴰ.head e, x, top) = absurd (cc (ap app e, x, out))
  Decisive-earlier r rs s out (Memᴰ.tail m, x, top) = (m, x, λ t n. top t (Memᴰ.tail n))

  -- The rule that applies first decides, and so does a later one of its priority.
  Decisive-allowance :
      (r : AclRule) (rs : List AclRule)
      → All (λ t. t.priority ≤ℤ r.priority) rs
      → app r ≡ true
      → (is_allow r ≡ true) ⊎ SomeAllowance app r.priority rs
      → (s : AclRule) × Decisive (r ∷ rs) s × (is_allow s ≡ true)
  Decisive-allowance r rs f into (inl y) =
      (r, Decisive-of_level r rs r f (Memᴰ.head refl) into (omega arith), y)
  Decisive-allowance r rs f into (inr (s, m, x, l, y)) =
      (s, Decisive-of_level r rs s f (Memᴰ.tail m) x l, y)

  Decisive-denial :
      (r : AclRule) (rs : List AclRule)
      → app r ≡ true
      → is_deny r ≡ false
      → NoDenial app r.priority rs
      → (s : AclRule) → Decisive (r ∷ rs) s
      → is_deny s ≡ false
  Decisive-denial r rs into kept n s (Memᴰ.head e, x, top) = ap is_deny e ∙ kept
  Decisive-denial r rs into kept n s (Memᴰ.tail m, x, top) =
      All-Memᴰ (λ (t : AclRule). app t ≡ true → r.priority ≤ℤ t.priority → is_deny t ≡ false) rs n m
        x (top r (Memᴰ.head refl) into)

  allow_loop_sound :
      (rs : List AclRule) → Falling rs → allow_loop app rs none false ≡ true → IsAllowed rs
  unfolding allow_loop is_below or_first
  allow_loop_sound [] f e = cc
  allow_loop_sound (r ∷ rs) (fr, f) e = elim (Bool-cases (app r)) [
    | inr out ↦
        let ((s, d, y), n) = allow_loop_sound rs f (rw out at e) in
        ((s, Decisive-later r rs s out d, y), λ t d. n t (Decisive-earlier r rs t out d))
    | inl into ↦ elim (Bool-cases (is_deny r)) [
      | inl denied ↦ absurd (cc (rw (into, denied) at e))
      | inr kept ↦
          let (n, y) = matched_sound app r.priority rs (is_allow r) f (rw (into, kept) at e) in
          (Decisive-allowance r rs fr into y, Decisive-denial r rs into kept n)
    ]
  ]

  level_of :
      (r : AclRule) (rs : List AclRule)
      → app r ≡ true
      → ((s : AclRule) × Decisive (r ∷ rs) s × (is_allow s ≡ true))
      → (is_allow r ≡ true) ⊎ SomeAllowance app r.priority rs
  level_of r rs into (s, (Memᴰ.head e, x, top), y) = inl (ap is_allow (sym e) ∙ y)
  level_of r rs into (s, (Memᴰ.tail m, x, top), y) = inr (s, m, x, top r (Memᴰ.head refl) into, y)

  allow_loop_complete :
      (rs : List AclRule) → Falling rs → IsAllowed rs → allow_loop app rs none false ≡ true
  unfolding allow_loop is_below or_first
  allow_loop_complete [] f ((s, (m, _, _), _), _) = elim m [ ]
  allow_loop_complete (r ∷ rs) (fr, f) (some_one, nobody) = elim (Bool-cases (app r)) [
    | inr out ↦
        let (s, d, y) = some_one in
        rw out (
          allow_loop_complete rs f
            ((s, Decisive-earlier r rs s out d, y), λ t d. nobody t (Decisive-later r rs t out d)))
    | inl into ↦
        let kept = nobody r (Decisive-of_level r rs r fr (Memᴰ.head refl) into (omega arith)) in
        let n =
          All-of-Memᴰ (λ (t : AclRule). app t ≡ true → r.priority ≤ℤ t.priority → is_deny t ≡ false)
            rs (λ t m x l. nobody t (Decisive-of_level r rs t fr (Memᴰ.tail m) x l)) in
        rw (into, kept)
          (matched_complete app r.priority rs (is_allow r) f n (level_of r rs into some_one))
  ]

-- Over rules by falling priority, an action on a target is allowed exactly if, of the rules that
-- apply to it, one of the highest priority allows and none of the highest priority denies.
pub allow_target_iff :
    (e : Evaluator) (t : Target) (action : AclAction)
    → Falling e.rules
    → (allow_target e t action ≡ true) ↔ IsAllowed (applies e t action) e.rules
unfolding allow_target
allow_target_iff e t action f = (
  allow_loop_sound (applies e t action) e.rules f,
  allow_loop_complete (applies e t action) e.rules f,
)

-- What a path that is judged, and allowed, comes down to: the rules allow the action on the target
-- that has the normalized path, the virtual path that it makes with the mount, and the node that the
-- reader finds there.
abbrev pub IsJudged : Evaluator → Text → AclAction → Target → Type 0
IsJudged e path action t =
    (normalize_virtual_path path ≡ ok t.path)
    × (t.virtual_path ≡ target_virtual_path e.mount_path t.path)
    × (t.node ≡ resolve_target_node_best_effort e.metadata_reader t.virtual_path 0)
    × (allow_target e t action ≡ true)

allow_path_unbypassed :
    (e : Evaluator) (path : Text) (action : AclAction)
    → e.bypass ≡ false
    → allow_path e path action ≡ judge_path e action (normalize_virtual_path path)
unfolding allow_path
allow_path_unbypassed e path action b =
    ap (λ x. if x then ok true else judge_path e action (normalize_virtual_path path)) b

judge_path-IsJudged :
    (e : Evaluator) (path q : Text) (action : AclAction)
    → normalize_virtual_path path ≡ ok q
    → judge_path e action (ok q) ≡ ok true
    → (t : Target) × IsJudged e path action t
unfolding judge_path
judge_path-IsJudged e path q action good h = (_, (good, refl, refl, ok_injective h))

judge_path-err :
    (e : Evaluator) (action : AclAction) (x : Error) → judge_path e action (err x) ≢ ok true
unfolding judge_path
judge_path-err e action x h = cc

pub allow_path-IsJudged :
    (e : Evaluator) (path : Text) (action : AclAction)
    → e.bypass ≡ false
    → allow_path e path action ≡ ok true
    → (t : Target) × IsJudged e path action t
allow_path-IsJudged e path action b h =
    let judged = sym (allow_path_unbypassed e path action b) ∙ h in
    elim (Result-cases (normalize_virtual_path path)) [
      | inr (x, bad) ↦
          absurd (judge_path-err e action x (ap (judge_path e action) (sym bad) ∙ judged))
      | inl (q, good) ↦
          judge_path-IsJudged e path q action good (ap (judge_path e action) (sym good) ∙ judged)
    ]

pub allow_target_no_rules :
    (e : Evaluator) (t : Target) (action : AclAction)
    → e.rules ≡ []
    → allow_target e t action ≡ false
unfolding allow_target allow_loop
allow_target_no_rules e t action h = rw h
