-- ===== src/Users/Service/Passwords.antt =====
-- What `ResetPassword` and `RevokeTokens` of `UserService` do on every path
-- (backend/internal/application/service/user_service.go).
use yunxia.Prelude.{
  ℕ, ◌+◌, Text, Result, ok, err, Error, ◌≡◌, refl, sym, ap, inl, inr, Bool-cases, Option-cases,
  ok_injective,
}
use yunxia.Users.{
  User, Store, Faults, find_by_id, has_id, replace, set_token_version, update_token_version,
}
use yunxia.Users.Service.{
  Check, pass, stop, or_stop, finish_quietly, write_user, reset_password, revoke_tokens,
}
use yunxia.Users.Service.Checks.{>>=-pass, or_stop-pass, log_users, update_row-ok}

-- A call that ends well satisfies the predicate with its store; one that fails leaves the users.
pub data EndsWell (P : Store → Type 0) (s : Store) : Store → Result (Unit {0}) → Type 0 where
  done : {t u : Store} → P u → t.users ≡ u.users → t.next_id ≡ u.next_id → EndsWell P s t (ok tt)
  refused :
      {t : Store} (e : Error) → t.users ≡ s.users → t.next_id ≡ s.next_id → EndsWell P s t (err e)

finish_quietly-EndsWell :
    (P : Store → Type 0) (s : Store) (id : ℕ) (action : Text) (c : Check Store)
    → ((t : Store) → c ≡ pass t → P t)
    → EndsWell P s ((finish_quietly s id action c).0) ((finish_quietly s id action c).1)
unfolding finish_quietly
finish_quietly-EndsWell P s id action (stop ev e) k =
    refused e ((log_users ev s).0) ((log_users ev s).1)
finish_quietly-EndsWell P s id action (pass t) k = done (k t refl) refl refl

-- The row of that key has the hash of the new password, and is otherwise as it was.
pub record IsReset (hash : Text → Result Text) (f : Faults) (id : ℕ) (new_password : Text)
    (s t : Store) : Type 0 where
  pub user : User
  pub password : Text
  pub found : find_by_id f s.users id ≡ ok user
  pub hashed : hash new_password ≡ ok password
  pub replaced : t.users ≡ replace (record user { password_hash = password }) s.users
  pub kept : t.next_id ≡ s.next_id

-- `reset_password` either exchanges the password hash of the row with that key and nothing else,
-- or leaves the users and fails.
pub reset_password-EndsWell :
    (hash : Text → Result Text) (f : Faults) (id : ℕ) (new_password : Text) (s : Store)
    → EndsWell
        (IsReset hash f id new_password s)
        s
        ((reset_password hash f id new_password s).0)
        ((reset_password hash f id new_password s).1)
unfolding reset_password write_user
reset_password-EndsWell hash f id new_password s =
    finish_quietly-EndsWell (IsReset hash f id new_password s) s id _ _ (λ t h.
      let (user, u, h1) = >>=-pass (or_stop _ (find_by_id f s.users id)) _ h in
      let (password, p, h2) = >>=-pass (or_stop _ (hash new_password)) _ h1 in
      let w = update_row-ok f s _ (or_stop-pass _ _ h2) in
      record {
        user = user;
        password = password;
        found = or_stop-pass _ _ u;
        hashed = or_stop-pass _ _ p;
        replaced = w.0;
        kept = w.1;
      })

-- The row of that key has the next token version, and is otherwise as it was.
pub record IsRevoked (f : Faults) (id : ℕ) (s t : Store) : Type 0 where
  pub user : User
  pub found : find_by_id f s.users id ≡ ok user
  pub advanced : t.users ≡ set_token_version id (user.token_version + 1) s.users
  pub kept : t.next_id ≡ s.next_id

update_token_version-ok :
    (f : Faults) (s : Store) (id v : ℕ) {t : Store}
    → update_token_version f s id v ≡ ok t
    → (t.users ≡ set_token_version id v s.users) × (t.next_id ≡ s.next_id)
unfolding update_token_version
update_token_version-ok f s id v h = elim (Option-cases f.update) [
  | inl a ↦ elim (Bool-cases (has_id id s.users)) [
    | inl b ↦ (
      ap (λ t. t.users) (sym (ok_injective (rw (a, b) at h))),
      ap (λ t. t.next_id) (sym (ok_injective (rw (a, b) at h))),
    )
    | inr b ↦ absurd (cc (rw (a, b) at h))
  ]
  | inr (e, a) ↦ absurd (cc (rw a at h))
]

-- `revoke_tokens` either takes the row with that key to its next token version, or leaves the
-- users and fails.
pub revoke_tokens-EndsWell :
    (f : Faults) (id : ℕ) (s : Store)
    → EndsWell (IsRevoked f id s) s ((revoke_tokens f id s).0) ((revoke_tokens f id s).1)
unfolding revoke_tokens
revoke_tokens-EndsWell f id s = finish_quietly-EndsWell (IsRevoked f id s) s id _ _ (λ t h.
    let (user, u, h1) = >>=-pass (or_stop _ (find_by_id f s.users id)) _ h in
    let w = update_token_version-ok f s id _ (or_stop-pass _ _ h1) in
    record { user = user; found = or_stop-pass _ _ u; advanced = w.0; kept = w.1 })
