-- ===== src/Auth/Sessions.antt =====
-- Sessions of the admin login: how long one lasts, what ends it, and what the guard lets through.
use swarmdialer.Prelude.{
  some-inj, ℕ, ◌+◌, ◌≤◌, ◌≡◌, ◌≢◌, refl, sym, ◌∙◌, Bool, true, false, Option, none, some, ap, arith,
  Bool-cases, Option-cases, inl, inr, ◌⊎◌, ◌↔◌,
}
use swarmdialer.Text.{Bytes, bytes_eq, bytes_eq_refl, bytes_eq→eq}
use swarmdialer.Auth.{
  AuthManager, admitted, throttle, record_failure, logged_in, done, HttpRequest, Credentials,
  PasswordChange, attempt_login, handle_login, handle_logout, change_password, set_password,
  check_password, session_lifetime, auth_username, pbkdf2_iterations, valid_session, is_public,
  require, served,
}

-- A request with this cookie.
abbrev carrying : {Body : Type 0} → Bytes → HttpRequest Body → HttpRequest Body
carrying token r = record r { cookie = some token }

-- The session of a token that is held until a time is valid at that time and not after it.
valid_session_iff :
    (now : ℕ) (token : Bytes) (m : AuthManager) {expiry : ℕ}
    → m.sessions token ≡ some expiry
    → ((valid_session now (some token) m).0 ≡ true) ↔ (now ≤ expiry)
unfolding valid_session
valid_session_iff now token m e = rw (e, valid_session) ((λ h. ground arith), (λ h. ground arith))

module _ (pbkdf2 : Bytes → Bytes → ℕ → Bytes) where
  -- A right password from an address that is not locked out logs in: the token it is given is a valid
  -- session for twelve hours, and no longer, as long as nothing else changes it.
  pub login_lasts :
      (now later at : ℕ) (token : Bytes) (r : HttpRequest Credentials) (m : AuthManager)
      {c : Credentials} {delay : ℕ}
      → r.is_post ≡ true
      → r.body ≡ some c
      → throttle now r.ip m ≡ admitted delay
      → check_password pbkdf2 c.username c.password m ≡ true
      → ((handle_login pbkdf2 now later token r m).0 ≡ logged_in token)
        × (((valid_session at (some token) (handle_login pbkdf2 now later token r m).1).0 ≡ true)
            ↔ (at ≤ later + session_lifetime))
  unfolding handle_login attempt_login
  login_lasts now later at token r m p b t k =
      rw (p, t) (rw (b, k) (refl, valid_session_iff at token _ (rw (bytes_eq_refl token) refl)))

  -- A login that is not answered with a token leaves every session and the account as they were.
  pub failed_login-keeps :
      (now later : ℕ) (token : Bytes) (r : HttpRequest Credentials) (m : AuthManager)
      → (handle_login pbkdf2 now later token r m).0 ≢ logged_in token
      → ((handle_login pbkdf2 now later token r m).1.sessions ≡ m.sessions)
        × ((handle_login pbkdf2 now later token r m).1.account ≡ m.account)
  unfolding handle_login attempt_login record_failure
  failed_login-keeps now later token r m h = ground arith

  -- The password that a change sets is the one that is right afterwards, as is any with its hash, and
  -- no other.
  pub change_password-check :
      (written : Bool) (salt : Bytes) (c : PasswordChange) (r : HttpRequest PasswordChange)
      (m : AuthManager) (pw : Bytes)
      → (change_password pbkdf2 written salt c r m).0 ≡ done
      → check_password pbkdf2 auth_username pw (change_password pbkdf2 written salt c r m).1
        ≡ bytes_eq (pbkdf2 pw salt pbkdf2_iterations) (pbkdf2 c.new salt pbkdf2_iterations)
  unfolding change_password set_password check_password
  change_password-check written salt c r m pw h = ground arith

  -- A password change that succeeds ends every session but the one that asked for it.
  pub change_password-ends_others :
      (written : Bool) (salt : Bytes) (c : PasswordChange) (r : HttpRequest PasswordChange)
      (m : AuthManager) (now : ℕ) (mine token : Bytes)
      → (change_password pbkdf2 written salt c r m).0 ≡ done
      → r.cookie ≡ some mine
      → token ≢ mine
      → (valid_session now (some token) (change_password pbkdf2 written salt c r m).1).0 ≡ false
  unfolding change_password set_password valid_session
  change_password-ends_others written salt c r m now mine token h k ne =
      let other : bytes_eq token mine ≡ false = elim (Bool-cases (bytes_eq token mine)) [
        | inl e ↦ absurd (ne (bytes_eq→eq token mine e))
        | inr e ↦ e
      ] in
      ground arith

valid_session_lem :
    (now : ℕ) (cookie : Option Bytes) (m : AuthManager)
    → ((valid_session now cookie m).0 ≡ true) ↔ (
        (token : Bytes) × (expiry : ℕ) × (cookie ≡ some token)
        × (m.sessions token ≡ some expiry)
        × (now ≤ expiry))
unfolding valid_session
valid_session_lem now none m =
    ((λ h. absurd (ground arith)), (λ (token, expiry, e, held, live). cc))
valid_session_lem now (some token) m = elim (Option-cases (m.sessions token)) [
  | inl q ↦ (
    (λ h. absurd (ground (arith, q))),
    (λ (own, expiry, e, held, live).
        let same : token ≡ own = some-inj e in
        let gone : m.sessions own ≡ none = ap m.sessions (sym same) ∙ q in absurd (ground arith)),
  )
  | inr (until, q) ↦ (
    (λ h. (token, until, refl, q, ground (arith, q))),
    (λ (own, expiry, e, held, live).
        let same : token ≡ own = some-inj e in
        let kept : m.sessions own ≡ some until = ap m.sessions (sym same) ∙ q in
        rw (q, valid_session) (ground arith)),
  )
]

valid_session-keeps :
    (now : ℕ) (cookie : Option Bytes) (m : AuthManager) (token : Bytes) {expiry : ℕ}
    → m.sessions token ≡ some expiry
    → now ≤ expiry
    → (valid_session now cookie m).1.sessions token ≡ some expiry
unfolding valid_session
valid_session-keeps now none m token held live = held
valid_session-keeps now (some own) m token held live = elim (Option-cases (m.sessions own)) [
  | inl q ↦ rw (q, valid_session) held
  | inr (until, q) ↦ elim (Bool-cases (bytes_eq own token)) [
    | inr other ↦ ground (arith, other)
    | inl e ↦
        let same : m.sessions own ≡ m.sessions token = ap m.sessions (bytes_eq→eq own token e) in
        ground arith
  ]
]

-- A handler behind the guard is served exactly when its path is public or the cookie is the token of a
-- session that is held and has not expired; and every session that has not expired is held afterwards
-- until the same time.
pub require_iff :
    (now : ℕ) (path : Bytes) (cookie : Option Bytes) (m : AuthManager)
    → (((require now path cookie m).0 ≡ served) ↔ (
        (is_public path ≡ true)
        ⊎ ((token : Bytes) × (expiry : ℕ) × (cookie ≡ some token)
            × (m.sessions token ≡ some expiry)
            × (now ≤ expiry))))
      × ((token : Bytes) (expiry : ℕ)
          → m.sessions token ≡ some expiry
          → now ≤ expiry
          → (require now path cookie m).1.sessions token ≡ some expiry)
unfolding require
require_iff now path cookie m = (
  (
    (λ h. elim (Bool-cases (is_public path)) [
      | inl p ↦ inl p
      | inr p ↦ inr ((valid_session_lem now cookie m).0 (ground arith))
    ]),
    (λ h. elim h [
      | inl p ↦ ground arith
      | inr session ↦ let valid = (valid_session_lem now cookie m).1 session in ground arith
    ]),
  ),
  (λ token expiry held live.
      ground (arith, valid_session-keeps now cookie m token held live, held)),
)

-- After a logout the token is no session.
pub logout_ends :
    {Body : Type 0} (now : ℕ) (token : Bytes) (r : HttpRequest Body) (m : AuthManager)
    → (valid_session now (some token) (handle_logout (carrying token r) m).1).0 ≡ false
unfolding handle_logout valid_session
logout_ends now token r m = rw (bytes_eq_refl token, valid_session) refl
