-- ===== src/Acl/Evaluator/Priority.antt =====
-- The loop over the rules once one of them has applied: the rules of its priority count, and among
-- them a denial before an allowance.
use mathlib.Core.List.{Memᴰ}
use yunxia.Prelude.{
  List, [], ◌∷◌, Bool, true, false, ◌||◌, some, ◌≡◌, refl, sym, ap, ◌∙◌, arith, All, All-Memᴰ, inl,
  inr, ◌⊎◌, Bool-cases, ℤ, ltz, ◌<ℤ◌, ◌≤ℤ◌, ltb→lt,
}
use yunxia.Acl.{AclRule, is_allow, is_deny}
use yunxia.Acl.Evaluator.{allow_loop, or_first, is_below}

-- The repository lists rules by falling priority.
abbrev pub Falling : List AclRule → Type 0
Falling [] = Unit {0}
Falling (r ∷ rs) = All (λ s. s.priority ≤ℤ r.priority) rs × Falling rs

module _ (app : AclRule → Bool) where
  -- The rules of a priority not below p that apply.
  abbrev pub NoDenial : ℤ → List AclRule → Type 0
  NoDenial p = All λ s. app s ≡ true → p ≤ℤ s.priority → is_deny s ≡ false

  abbrev pub SomeAllowance : ℤ → List AclRule → Type 0
  SomeAllowance p rs =
      (s : AclRule) × Memᴰ s rs × (app s ≡ true) × (p ≤ℤ s.priority) × (is_allow s ≡ true)

  -- Once the rules have fallen below a priority, none of them counts.
  NoDenial-of_below :
      (p q : ℤ) (rs : List AclRule) → q <ℤ p → All (λ s. s.priority ≤ℤ q) rs → NoDenial p rs
  NoDenial-of_below p q [] h f = tt
  NoDenial-of_below p q (s ∷ rs) h (k, f) =
      ((λ _ l. absurd (omega arith)), NoDenial-of_below p q rs h f)

  SomeAllowance-not_below :
      (p q : ℤ) (rs : List AclRule) → q <ℤ p → All (λ s. s.priority ≤ℤ q) rs → ¬ SomeAllowance p rs
  SomeAllowance-not_below p q rs h f (s, m, _, l, _) =
      let low : s.priority ≤ℤ q = All-Memᴰ (λ (t : AclRule). t.priority ≤ℤ q) rs f m in omega arith

  later : (p : ℤ) (r : AclRule) (rs : List AclRule) → SomeAllowance p rs → SomeAllowance p (r ∷ rs)
  later p r rs (s, m, x, l, y) = (s, Memᴰ.tail m, x, l, y)

  -- The loop once a priority is matched.
  pub matched_sound :
      (p : ℤ) (rs : List AclRule) (a : Bool)
      → Falling rs
      → allow_loop app rs (some p) a ≡ true
      → NoDenial p rs × ((a ≡ true) ⊎ SomeAllowance p rs)
  unfolding allow_loop is_below or_first
  matched_sound p [] a f e = (tt, inl e)
  matched_sound p (r ∷ rs) a (fr, f) e = elim (Bool-cases (app r)) [
    | inr out ↦
        let (n, s) = matched_sound p rs a f (rw out at e) in
        (((λ h. cc (h, out)), n), elim s [ inl y ↦ inl y | inr t ↦ inr (later p r rs t) ])
    | inl into ↦ elim (Bool-cases (ltz r.priority p)) [
      | inl under ↦
          let low : r.priority <ℤ p = ltb→lt _ _ under in
          let allowed : a ≡ true = rw (into, under) at e in
          (((λ _ l. absurd (omega arith)), NoDenial-of_below p r.priority rs low fr), inl allowed)
      | inr level ↦ elim (Bool-cases (is_deny r)) [
        | inl denied ↦ absurd (cc (rw (into, level, denied) at e))
        | inr kept ↦
            let (n, s) = matched_sound p rs (a || is_allow r) f (rw (into, level, kept) at e) in
            (
              ((λ _ _. kept), n),
              elim s [ inl y ↦ first a r into level y | inr t ↦ inr (later p r rs t) ],
            )
      ]
    ]
  ]
    where
      first :
          (a : Bool) (r : AclRule)
          → app r ≡ true
          → ltz r.priority p ≡ false
          → (a || is_allow r) ≡ true
          → (a ≡ true) ⊎ SomeAllowance p (r ∷ rs)
      first true r into level y = inl refl
      first false r into level y = inr (r, Memᴰ.head refl, into, ground arith, y)

  -- An allowance at the head, or further on.
  earlier :
      (p : ℤ) (r : AclRule) (rs : List AclRule)
      → SomeAllowance p (r ∷ rs)
      → (is_allow r ≡ true) × (app r ≡ true) ⊎ SomeAllowance p rs
  earlier p r rs (s, Memᴰ.head e, x, l, y) = inl (ap is_allow (sym e) ∙ y, ap app (sym e) ∙ x)
  earlier p r rs (s, Memᴰ.tail m, x, l, y) = inr (s, m, x, l, y)

  pub matched_complete :
      (p : ℤ) (rs : List AclRule) (a : Bool)
      → Falling rs
      → NoDenial p rs
      → (a ≡ true) ⊎ SomeAllowance p rs
      → allow_loop app rs (some p) a ≡ true
  unfolding allow_loop is_below or_first
  matched_complete p [] a f n (inl y) = y
  matched_complete p [] a f n (inr (s, m, _, _, _)) = elim m [ ]
  matched_complete p (r ∷ rs) a (fr, f) (nr, n) y = elim (Bool-cases (app r)) [
    | inr out ↦ rw out (matched_complete p rs a f n (pass out y))
    | inl into ↦ elim (Bool-cases (ltz r.priority p)) [
      | inl under ↦ rw (into, under) (stay into under y)
      | inr level ↦
          let kept = nr into (ground arith) in
          rw (into, level, kept) (matched_complete p rs (a || is_allow r) f n (take y))
    ]
  ]
    where
      pass : app r ≡ false → (a ≡ true) ⊎ SomeAllowance p (r ∷ rs) → (a ≡ true) ⊎ SomeAllowance p rs
      pass out (inl y) = inl y
      pass out (inr t) = elim (earlier p r rs t) [
        | inl (_, x) ↦ absurd (cc (x, out))
        | inr u ↦ inr u
      ]

      stay :
          app r ≡ true → ltz r.priority p ≡ true → (a ≡ true) ⊎ SomeAllowance p (r ∷ rs) → a ≡ true
      stay into under (inl y) = y
      stay into under (inr (s, m, x, l, y)) =
          let low : s.priority ≤ℤ r.priority =
            All-Memᴰ (λ (t : AclRule). t.priority ≤ℤ r.priority) (r ∷ rs) (omega arith, fr) m in
          absurd (omega (arith, ltb→lt _ _ under))

      take : (a ≡ true) ⊎ SomeAllowance p (r ∷ rs) → ((a || is_allow r) ≡ true) ⊎ SomeAllowance p rs
      take (inl y) = inl (ground arith)
      take (inr t) = elim (earlier p r rs t) [ inl (x, _) ↦ inl (ground arith) | inr u ↦ inr u ]
