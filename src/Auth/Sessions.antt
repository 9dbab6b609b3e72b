-- ===== src/Auth/Sessions.antt =====
-- Refresh tokens that have been revoked stay revoked.
use yunxia.Prelude.{
  ℕ, List, [], ◌∷◌, ◌++◌, map, true, false, Text, str_eq, ok, ◌≡◌, refl, sym, ap, ◌∙◌, inl, inr,
  Bool-cases, Option-cases, ok_injective,
}
use yunxia.Auth.{
  RefreshToken, Outages, first_with, has_hash, revoke_at, revoke_by_token_hash, create_token,
  is_revoked,
}

-- The first row with the hash is revoked.
pub record IsSpent (hash : Text) (ts : List RefreshToken) : Type 0 where
  pub token : RefreshToken
  pub found : first_with hash ts ≡ ok token
  pub spent : is_revoked token ≡ true

nothing-IsSpent : (hash : Text) → ¬ IsSpent hash []
unfolding first_with
nothing-IsSpent hash i = cc i.found

hit :
    (hash : Text) (t : RefreshToken) (ts : List RefreshToken)
    → str_eq t.token_hash hash ≡ true
    → first_with hash (t ∷ ts) ≡ ok t
unfolding first_with
hit hash t ts h = rw h

miss :
    (hash : Text) (t : RefreshToken) (ts : List RefreshToken)
    → str_eq t.token_hash hash ≡ false
    → first_with hash (t ∷ ts) ≡ first_with hash ts
unfolding first_with
miss hash t ts h = rw h

revoke_at-hash :
    (key : Text) (now : ℕ) (t : RefreshToken) → (revoke_at key now t).token_hash ≡ t.token_hash
revoke_at-hash key now t = elim (Bool-cases (str_eq t.token_hash key)) [
  | inl a ↦ rw a refl
  | inr a ↦ rw a refl
]

revoke_at-is_revoked :
    (key : Text) (now : ℕ) (t : RefreshToken)
    → is_revoked t ≡ true
    → is_revoked (revoke_at key now t) ≡ true
unfolding is_revoked
revoke_at-is_revoked key now t h = elim (Bool-cases (str_eq t.token_hash key)) [
  | inl a ↦ rw a refl
  | inr a ↦ rw a h
]

-- Revoking any token keeps those that were.
revoke_at-IsSpent :
    (key : Text) (now : ℕ) (hash : Text) (ts : List RefreshToken)
    → IsSpent hash ts
    → IsSpent hash (map (revoke_at key now) ts)
revoke_at-IsSpent key now hash [] i = absurd (nothing-IsSpent hash i)
revoke_at-IsSpent key now hash (t ∷ ts) i = elim (Bool-cases (str_eq t.token_hash hash)) [
  | inl a ↦ record {
    token = revoke_at key now t;
    found =
        hit hash (revoke_at key now t) (map (revoke_at key now) ts)
          (ap (λ k. str_eq k hash) (revoke_at-hash key now t) ∙ a);
    spent =
        revoke_at-is_revoked key now t
          (ap is_revoked (ok_injective (sym (hit hash t ts a) ∙ i.found)) ∙ i.spent);
  }
  | inr a ↦
      let rest =
        revoke_at-IsSpent key now hash ts
          (record { token = i.token; found = sym (miss hash t ts a) ∙ i.found; spent = i.spent }) in
      record {
        token = rest.token;
        found =
            miss hash (revoke_at key now t) (map (revoke_at key now) ts)
              (ap (λ k. str_eq k hash) (revoke_at-hash key now t) ∙ a)
            ∙ rest.found;
        spent = rest.spent;
      }
]

-- A token that is revoked is spent.
revoke_at-spends :
    (hash : Text) (now : ℕ) (ts : List RefreshToken)
    → has_hash hash ts ≡ true
    → IsSpent hash (map (revoke_at hash now) ts)
unfolding has_hash is_revoked
revoke_at-spends hash now [] h = absurd (cc)
revoke_at-spends hash now (t ∷ ts) h = elim (Bool-cases (str_eq t.token_hash hash)) [
  | inl a ↦ record {
    token = revoke_at hash now t;
    found =
        hit hash (revoke_at hash now t) (map (revoke_at hash now) ts)
          (ap (λ k. str_eq k hash) (revoke_at-hash hash now t) ∙ a);
    spent = rw a refl;
  }
  | inr a ↦
      let rest = revoke_at-spends hash now ts (rw a at h) in
      record {
        token = rest.token;
        found =
            miss hash (revoke_at hash now t) (map (revoke_at hash now) ts)
              (ap (λ k. str_eq k hash) (revoke_at-hash hash now t) ∙ a)
            ∙ rest.found;
        spent = rest.spent;
      }
]

-- New rows come after the old ones.
append-IsSpent :
    (hash : Text) (ts us : List RefreshToken) → IsSpent hash ts → IsSpent hash (ts ++ us)
append-IsSpent hash [] us i = absurd (nothing-IsSpent hash i)
append-IsSpent hash (t ∷ ts) us i = elim (Bool-cases (str_eq t.token_hash hash)) [
  | inl a ↦ record {
    token = i.token;
    found = hit hash t (ts ++ us) a ∙ (sym (hit hash t ts a) ∙ i.found);
    spent = i.spent;
  }
  | inr a ↦
      let rest =
        append-IsSpent hash ts us
          (record { token = i.token; found = sym (miss hash t ts a) ∙ i.found; spent = i.spent }) in
      record {
        token = rest.token;
        found = miss hash t (ts ++ us) a ∙ rest.found;
        spent = rest.spent;
      }
]

-- What the two writes do when they end well.
pub revoke_by_token_hash-ok :
    (f : Outages) (now : ℕ) (key : Text) (ts : List RefreshToken) {us : List RefreshToken}
    → revoke_by_token_hash f now key ts ≡ ok us
    → IsSpent key us × ((hash : Text) → IsSpent hash ts → IsSpent hash us)
unfolding revoke_by_token_hash
revoke_by_token_hash-ok f now key ts h = elim (Option-cases f.revoke) [
  | inr (e, a) ↦ absurd (cc (rw a at h))
  | inl a ↦ elim (Bool-cases (has_hash key ts)) [
    | inr b ↦ absurd (cc (rw (a, b) at h))
    | inl b ↦
        rw (← ok_injective (rw (a, b) at h))
          (revoke_at-spends key now ts b, λ hash i. revoke_at-IsSpent key now hash ts i)
  ]
]

pub create_token-ok :
    (f : Outages) (t : RefreshToken) (ts : List RefreshToken) {us : List RefreshToken} (hash : Text)
    → create_token f t ts ≡ ok us
    → IsSpent hash ts
    → IsSpent hash us
unfolding create_token
create_token-ok f t ts hash h i = elim (Option-cases f.create) [
  | inr (e, a) ↦ absurd (cc (rw a at h))
  | inl a ↦ elim (Bool-cases (has_hash t.token_hash ts)) [
    | inl b ↦ absurd (cc (rw (a, b) at h))
    | inr b ↦ rw (← ok_injective (rw (a, b) at h)) (append-IsSpent hash ts (t ∷ []) i)
  ]
]
