-- ===== src/Users/Service/Checks.antt =====
-- Chains of checks that pass, and what the audit log and a written row leave alone.
use yunxia.Prelude.{
  Bool, true, false, Option, none, some, Result, ok, err, Error, ◌≡◌, refl, sym, ap, inl, inr,
  Bool-cases, Option-cases, ok_injective,
}
use yunxia.Permission.{RequestAuth}
use yunxia.Users.{User, Event, Store, Faults, has_id, replace, update_row}
use yunxia.Users.Service.{Check, pass, stop, ◌>>=◌, or_stop, stop_if, current_auth, log}

pub >>=-pass {ℓ κ} :
    {A : Type ℓ} {B : Type κ} (m : Check A) (f : A → Check B) {b : B}
    → (m >>= f) ≡ pass b
    → (a : A) × (m ≡ pass a) × (f a ≡ pass b)
>>=-pass (pass a) f h = (a, refl, h)
>>=-pass (stop ev e) f h = cc

pub or_stop-pass {ℓ} :
    {A : Type ℓ} (ev : Option Event) (r : Result A) {a : A} → or_stop ev r ≡ pass a → r ≡ ok a
or_stop-pass ev (ok a) h = cc
or_stop-pass ev (err e) h = cc

pub stop_if-pass :
    (b : Bool) (ev : Option Event) (e : Error) {u : Unit {0}} → stop_if b ev e ≡ pass u → b ≡ false
stop_if-pass true ev e h = cc
stop_if-pass false ev e h = refl

pub current_auth-pass :
    (auth : Option RequestAuth) {a : RequestAuth} → current_auth auth ≡ pass a → auth ≡ some a
current_auth-pass none h = cc
current_auth-pass (some b) h = cc

pub log_users :
    (ev : Option Event) (s : Store)
    → ((log ev s).users ≡ s.users) × ((log ev s).next_id ≡ s.next_id)
log_users none s = (refl, refl)
log_users (some ev) s = (refl, refl)

pub update_row-ok :
    (f : Faults) (s : Store) (u : User) {t : Store}
    → update_row f s u ≡ ok t
    → (t.users ≡ replace u s.users) × (t.next_id ≡ s.next_id)
unfolding update_row
update_row-ok f s u h = elim (Option-cases f.update) [
  | inl a ↦ elim (Bool-cases (has_id u.id s.users)) [
    | inl b ↦ (
      ap (λ t. t.users) (sym (ok_injective (rw (a, b) at h))),
      ap (λ t. t.next_id) (sym (ok_injective (rw (a, b) at h))),
    )
    | inr b ↦ absurd (cc (rw (a, b) at h))
  ]
  | inr (e, a) ↦ absurd (cc (rw a at h))
]
