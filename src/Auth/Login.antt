-- ===== src/Auth/Login.antt =====
-- What `Login` answers on every path (backend/internal/application/service/setup_service.go).
use yunxia.Prelude.{
  List, true, false, not, Text, str_eq, Result, ok, err, Error, not_found, invalid_credentials,
  account_locked, ◌≡◌, ◌≢◌, refl, inl, inr, Bool-cases, Result-cases, ◌>>=◌, refuse_if, ◌>>◌,
}
use yunxia.Permission.{status_locked}
use yunxia.Users.{User, Faults, find_by_username}
use yunxia.Auth.{
  Crypto, RefreshToken, World, Outages, Moment, TokenPair, or_invalid, login_check, finish_issue,
  issue_and_store_token_pair, login,
}

module _ (c : Crypto) (f : Outages) (g : Faults) (m : Moment) (username password : Text)
    (w : World) where
  -- What the table holds under the name, and what follows.
  pub data IsLogin : World → Result TokenPair → Type 0 where
    unknown :
        find_by_username g w.accounts.users username ≡ err not_found
        → IsLogin w (err invalid_credentials)
    unreadable :
        (e : Error)
        → e ≢ not_found
        → find_by_username g w.accounts.users username ≡ err e
        → IsLogin w (err e)
    locked_out :
        (user : User)
        → find_by_username g w.accounts.users username ≡ ok user
        → str_eq user.status status_locked ≡ true
        → IsLogin w (err account_locked)
    mistaken :
        (user : User)
        → find_by_username g w.accounts.users username ≡ ok user
        → str_eq user.status status_locked ≡ false
        → c.compare_password user.password_hash password ≡ false
        → IsLogin w (err invalid_credentials)
    unissued :
        (user : User) (e : Error)
        → find_by_username g w.accounts.users username ≡ ok user
        → str_eq user.status status_locked ≡ false
        → c.compare_password user.password_hash password ≡ true
        → issue_and_store_token_pair c f m user w.sessions ≡ err e
        → IsLogin w (err e)
    signed_in :
        (user : User) (ts : List RefreshToken) (pair : TokenPair)
        → find_by_username g w.accounts.users username ≡ ok user
        → str_eq user.status status_locked ≡ false
        → c.compare_password user.password_hash password ≡ true
        → issue_and_store_token_pair c f m user w.sessions ≡ ok (ts, pair)
        → IsLogin (record w { sessions = ts }) (ok pair)

  -- What the login does once the user was asked for.
  after_query : Result User → World × Result TokenPair
  after_query r = finish_issue w (do
    user ← (do
      user ← or_invalid invalid_credentials r
      refuse_if (str_eq user.status status_locked) account_locked
      refuse_if (not (c.compare_password user.password_hash password)) invalid_credentials
      ok user)
    issue_and_store_token_pair c f m user w.sessions)

  after_query-IsLogin :
      (r : Result User)
      → find_by_username g w.accounts.users username ≡ r
      → IsLogin ((after_query r).0) ((after_query r).1)
  unfolding after_query or_invalid finish_issue
  after_query-IsLogin (err not_found) found = unknown found
  after_query-IsLogin (err e) found = unreadable e (λ x. cc) found
  after_query-IsLogin (ok user) found = elim (Bool-cases (str_eq user.status status_locked)) [
    | inl a ↦ rw a (locked_out user found a)
    | inr a ↦ elim (Bool-cases (c.compare_password user.password_hash password)) [
      | inr b ↦ rw (a, b) (mistaken user found a b)
      | inl b ↦ elim (Result-cases (issue_and_store_token_pair c f m user w.sessions)) [
        | inr (e, d) ↦ rw (a, b, d) (unissued user e found a b d)
        | inl ((ts, pair), d) ↦ rw (a, b, d) (signed_in user ts pair found a b d)
      ]
    ]
  ]

  -- `login` ends in one of six ways. It changes the tokens, or answers that they could not be issued,
  -- only if the name is in the table, the user is not locked and the password is right; an unknown
  -- name and a wrong password are answered alike, and a locked user is told so before the password is
  -- looked at.
  pub login-IsLogin :
      IsLogin ((login c f g m username password w).0) ((login c f g m username password w).1)
  unfolding login login_check after_query
  login-IsLogin = after_query-IsLogin (find_by_username g w.accounts.users username) refl
