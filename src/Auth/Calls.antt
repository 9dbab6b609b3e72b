-- ===== src/Auth/Calls.antt =====
-- Sequences of calls, and that a refresh token serves once (`AuthService` in
-- backend/internal/application/service/setup_service.go).
use yunxia.Prelude.{
  List, Text, Option, none, some, Result, ok, err, Error, not_found, ◌≡◌, ◌≢◌, refl, sym, ap, ◌∙◌,
  inl, inr, Result-cases, ok_injective, >>=-eq-ok, ◌>>=◌,
}
use yunxia.Users.{User, Store, Faults}
use yunxia.Auth.{
  Crypto, RefreshToken, World, Outages, Moment, TokenPair, create_token, is_revoked,
  issue_and_store_token_pair, finish_issue, rotate, refresh_check, refresh, login, login_check,
  logout, finish_logout, revoke_by_token_hash, find_by_token_hash, missing_invalid,
  or_refresh_invalid, or_outage,
}
use yunxia.Auth.Sessions.{IsSpent, revoke_by_token_hash-ok, create_token-ok}

issue_and_store-IsSpent :
    (c : Crypto) (f : Outages) (m : Moment) (user : User) (ts : List RefreshToken) (hash : Text)
    {us : List RefreshToken} {pair : TokenPair}
    → issue_and_store_token_pair c f m user ts ≡ ok (us, pair)
    → IsSpent hash ts
    → IsSpent hash us
unfolding issue_and_store_token_pair
issue_and_store-IsSpent c f m user ts hash h i =
    let (access, _, h1) =
      >>=-eq-ok (c.issue_access m user.id user.role_key user.token_version) _ h in
    let (token, _, h2) =
      >>=-eq-ok (c.issue_refresh m user.id user.role_key user.token_version) _ h1 in
    let (stored, made, h3) = >>=-eq-ok (create_token f _ ts) _ h2 in
    rw (← ap (λ p. p.0) (ok_injective h3)) (create_token-ok f _ ts hash made i)

-- The sessions of a world after a pair was made, or was not.
finish_issue-IsSpent :
    (w : World) (r : Result (List RefreshToken × TokenPair)) (hash : Text)
    → IsSpent hash w.sessions
    → ((us : List RefreshToken) (pair : TokenPair) → r ≡ ok (us, pair) → IsSpent hash us)
    → IsSpent hash ((finish_issue w r).0.sessions)
unfolding finish_issue
finish_issue-IsSpent w (err e) hash i k = i
finish_issue-IsSpent w (ok (us, pair)) hash i k = k us pair refl

login-IsSpent :
    (c : Crypto) (f : Outages) (g : Faults) (m : Moment) (username password : Text) (w : World)
    (hash : Text)
    → IsSpent hash w.sessions
    → IsSpent hash ((login c f g m username password w).0.sessions)
unfolding login
login-IsSpent c f g m username password w hash i =
    let issue : (User → Result (List RefreshToken × TokenPair)) =
      λ user. issue_and_store_token_pair c f m user w.sessions in
    finish_issue-IsSpent w (login_check c g username password w >>= issue) hash i (λ us pair h.
      let (user, _, h1) = >>=-eq-ok (login_check c g username password w) issue h in
      issue_and_store-IsSpent c f m user w.sessions hash h1 i)

rotate-IsSpent :
    (c : Crypto) (f : Outages) (m : Moment) (raw : Text) (w : World) (r : Result User) (hash : Text)
    → IsSpent hash w.sessions
    → IsSpent hash ((rotate c f m raw w r).0.sessions)
unfolding rotate
rotate-IsSpent c f m raw w (err e) hash i = i
rotate-IsSpent c f m raw w (ok user) hash i =
    elim (Result-cases (revoke_by_token_hash f m.time (c.hash_token raw) w.sessions)) [
      | inr (e, a) ↦ rw (rotate, a) i
      | inl (ts, a) ↦
          let j = (revoke_by_token_hash-ok f m.time (c.hash_token raw) w.sessions a).1 hash i in
          rw (rotate, a)
            (finish_issue-IsSpent (record w { sessions = ts }) _ hash j
              (λ us pair h. issue_and_store-IsSpent c f m user ts hash h j))
    ]

refresh-IsSpent :
    (c : Crypto) (f : Outages) (g : Faults) (m : Moment) (raw : Text) (w : World) (hash : Text)
    → IsSpent hash w.sessions
    → IsSpent hash ((refresh c f g m raw w).0.sessions)
unfolding refresh
refresh-IsSpent c f g m raw w hash i =
    rotate-IsSpent c f m raw w (refresh_check c f g m raw w) hash i

finish_logout-IsSpent :
    (w : World) (r : Result (List RefreshToken)) (hash : Text)
    → IsSpent hash w.sessions
    → ((us : List RefreshToken) → r ≡ ok us → IsSpent hash us)
    → IsSpent hash ((finish_logout w r).0.sessions)
unfolding finish_logout
finish_logout-IsSpent w (err e) hash i k = i
finish_logout-IsSpent w (ok us) hash i k = k us refl

logout-IsSpent :
    (c : Crypto) (f : Outages) (m : Moment) (raw : Text) (w : World) (hash : Text)
    → IsSpent hash w.sessions
    → IsSpent hash ((logout c f m raw w).0.sessions)
unfolding logout
logout-IsSpent c f m raw w hash i =
    finish_logout-IsSpent w _ hash i
      (λ us h. (revoke_by_token_hash-ok f m.time (c.hash_token raw) w.sessions h).1 hash i)

-- A refresh that ends well spends the token, and so does a logout.
pub refresh_spends :
    (c : Crypto) (f : Outages) (g : Faults) (m : Moment) (raw : Text) (w : World) {pair : TokenPair}
    → (refresh c f g m raw w).1 ≡ ok pair
    → IsSpent (c.hash_token raw) ((refresh c f g m raw w).0.sessions)
unfolding refresh rotate
refresh_spends c f g m raw w h = elim (Result-cases (refresh_check c f g m raw w)) [
  | inr (e, a) ↦ absurd (cc (rw (a, rotate) at h))
  | inl (user, a) ↦
      elim (Result-cases (revoke_by_token_hash f m.time (c.hash_token raw) w.sessions)) [
        | inr (e, b) ↦ absurd (cc (rw (a, rotate, b) at h))
        | inl (ts, b) ↦
            let j = (revoke_by_token_hash-ok f m.time (c.hash_token raw) w.sessions b).0 in
            rw (a, rotate, b)
              (finish_issue-IsSpent (record w { sessions = ts }) _ (c.hash_token raw) j
                (λ us pair h. issue_and_store-IsSpent c f m user ts (c.hash_token raw) h j))
      ]
]

-- One call; those that administer users leave the refresh tokens as they are.
pub data Step (c : Crypto) (w : World) : World → Type 0 where
  logins :
      (f : Outages) (g : Faults) (m : Moment) (username password : Text)
      → Step c w ((login c f g m username password w).0)
  refreshes :
      (f : Outages) (g : Faults) (m : Moment) (raw : Text) → Step c w ((refresh c f g m raw w).0)
  logouts : (f : Outages) (m : Moment) (raw : Text) → Step c w ((logout c f m raw w).0)
  administers : (accounts : Store) → Step c w (record w { accounts = accounts })

pub data Reaches (c : Crypto) (w : World) : World → Type 0 where
  here : Reaches c w w
  then_step : {u v : World} → Reaches c w u → Step c u v → Reaches c w v

Step-IsSpent :
    (c : Crypto) (hash : Text) (w : World) {u : World}
    → Step c w u
    → IsSpent hash w.sessions
    → IsSpent hash u.sessions
Step-IsSpent c hash w (logins f g m username password) i =
    login-IsSpent c f g m username password w hash i
Step-IsSpent c hash w (refreshes f g m raw) i = refresh-IsSpent c f g m raw w hash i
Step-IsSpent c hash w (logouts f m raw) i = logout-IsSpent c f m raw w hash i
Step-IsSpent c hash w (administers accounts) i = i

Reaches-IsSpent :
    (c : Crypto) (hash : Text) (w u : World)
    → Reaches c w u
    → IsSpent hash w.sessions
    → IsSpent hash u.sessions
Reaches-IsSpent c hash w u here i = i
Reaches-IsSpent c hash w u (then_step r s) i =
    Step-IsSpent c hash _ s (Reaches-IsSpent c hash w _ r i)

missing_invalid-ok :
    (r : Result RefreshToken) {t : RefreshToken} → missing_invalid r ≡ ok t → r ≡ ok t
unfolding missing_invalid
missing_invalid-ok (ok t) h = h
missing_invalid-ok (err not_found) h = absurd (cc)
missing_invalid-ok (err _) h = absurd (cc)

or_outage-ok {ℓ} :
    {A : Type ℓ} (e : Option Error) (r : Result A) {a : A} → or_outage e r ≡ ok a → r ≡ ok a
or_outage-ok none r h = h
or_outage-ok (some e) r h = absurd (cc)

-- A spent token is refused.
spent_refused :
    (c : Crypto) (f : Outages) (g : Faults) (m : Moment) (raw : Text) (w : World) {user : User}
    → IsSpent (c.hash_token raw) w.sessions
    → refresh_check c f g m raw w ≢ ok user
unfolding refresh_check find_by_token_hash
spent_refused c f g m raw w i h =
    let (claims, _, h1) = >>=-eq-ok (or_refresh_invalid (c.validate_refresh m raw)) _ h in
    let (token, t, h2) =
      >>=-eq-ok (missing_invalid (find_by_token_hash f (c.hash_token raw) w.sessions)) _ h1 in
    let there = or_outage-ok f.find _ (missing_invalid-ok _ t) in
    let same = ok_injective (sym i.found ∙ there) in
    let spent = sym (ap is_revoked same) ∙ i.spent in cc (rw spent at h2)

rotate-ok :
    (c : Crypto) (f : Outages) (m : Moment) (raw : Text) (w : World) (r : Result User)
    {pair : TokenPair}
    → (rotate c f m raw w r).1 ≡ ok pair
    → (user : User) × (r ≡ ok user)
unfolding rotate
rotate-ok c f m raw w (err e) h = absurd (cc)
rotate-ok c f m raw w (ok user) h = (user, refl)

-- A refresh token that a refresh took serves no more: after any sequence of logins, refreshes and
-- logouts, and whatever becomes of the users, a refresh with it gives no tokens.
pub refresh_once :
    (c : Crypto) (f : Outages) (g : Faults) (m : Moment) (raw : Text) (w u : World)
    {pair : TokenPair} (f' : Outages) (g' : Faults) (m' : Moment) (again : TokenPair)
    → (refresh c f g m raw w).1 ≡ ok pair
    → Reaches c ((refresh c f g m raw w).0) u
    → (refresh c f' g' m' raw u).1 ≢ ok again
unfolding refresh
refresh_once c f g m raw w u f' g' m' again h r k =
    let i = Reaches-IsSpent c (c.hash_token raw) _ u r (refresh_spends c f g m raw w h) in
    let (user, checked) = rotate-ok c f' m' raw u (refresh_check c f' g' m' raw u) k in
    spent_refused c f' g' m' raw u i checked
