-- ===== src/Auth.antt =====
-- cmd/gui/auth.go: the admin login of the GUI: passwords, the slow-down and lockout of failed logins,
-- sessions, and the guard in front of every handler. Texts are byte lists. Times are seconds. A map is
-- a function into options. PBKDF2 is a parameter, a function of password, salt and iterations (its
-- key is as long as the hash in the record, which `setPassword` makes of 32 bytes); the record holds
-- the decoded salt and hash. Each handler is given the time at each of its steps.
use swarmdialer.Prelude.{
  ℕ, zero, suc, ◌+◌, ◌-◌, ◌*◌, Bool, true, false, ◌&&◌, ◌||◌, Option, none, some, List, [], ◌∷◌,
  ltb, leb, ◌==◌, if◌then◌else◌, length,
}
use swarmdialer.Text.{Bytes, bytes, bytes_eq, cut_prefix}
pub mod Lockout
pub mod Sessions

abbrev pub auth_username : Bytes
auth_username = bytes "admin"

abbrev pub pbkdf2_iterations : ℕ
pbkdf2_iterations = 600_000

abbrev pub session_lifetime : ℕ
session_lifetime = 12 * 3600

abbrev pub login_slow_after : ℕ
login_slow_after = 3

abbrev pub login_lock_after : ℕ
login_lock_after = 10

abbrev pub login_lockout : ℕ
login_lockout = 15 * 60

abbrev pub min_password_length : ℕ
min_password_length = 12

pub record AuthRecord : Type 0 where
  pub username : Bytes
  pub salt : Bytes
  pub hash : Bytes
  pub iterations : ℕ

pub record LoginFailures : Type 0 where
  pub count : ℕ
  pub locked_until : ℕ

pub record AuthManager : Type 0 where
  pub account : AuthRecord
  pub sessions : Bytes → Option ℕ  -- session token to expiry
  pub failures : Bytes → Option LoginFailures  -- by client IP

abbrev pub put {ℓ} : {V : Type ℓ} → Bytes → Option V → (Bytes → Option V) → Bytes → Option V
put k v m j = if bytes_eq k j then v else m j

pub data Throttled : Type 0 where
  refused : Throttled
  admitted : ℕ → Throttled  -- after sleeping so long

unfoldable pub throttle : ℕ → Bytes → AuthManager → Throttled
throttle now ip m = elim (m.failures ip) [
  | none ↦ admitted 0
  | some f ↦
      if ltb now f.locked_until
      then refused
      else admitted (if leb login_slow_after f.count then f.count - login_slow_after + 1 else 0)
]

-- The failures after one more wrong password.
unfoldable pub one_more : ℕ → Option LoginFailures → LoginFailures
one_more now none = record { count = 1; locked_until = 0 }
one_more now (some f) =
    if leb login_lock_after (f.count + 1)
    then record { count = 0; locked_until = now + login_lockout }
    else record { count = f.count + 1; locked_until = f.locked_until }

unfoldable pub record_failure : ℕ → Bytes → AuthManager → AuthManager
unfolding one_more
record_failure now ip m = record m {
  failures = put ip (some (one_more now (m.failures ip))) m.failures;
}

-- HTTP responses, by what the handlers answer.
pub data Response : Type 0 where
  method_not_allowed : Response
  too_many_requests : Response
  bad_request : Response
  unauthorized : Response
  forbidden : Response
  server_error : Response
  logged_in : Bytes → Response  -- 200, with the session cookie
  done : Response  -- 200

-- A cookie, if the request has one, is its value.
pub record HttpRequest (Body : Type 0) : Type 0 where
  pub is_post : Bool
  pub ip : Bytes
  pub cookie : Option Bytes
  pub body : Option Body  -- none: it does not decode

pub record Credentials : Type 0 where
  pub username : Bytes
  pub password : Bytes

pub record PasswordChange : Type 0 where
  pub current : Bytes
  pub new : Bytes
  pub confirm : Bytes

unfoldable pub handle_logout :
    {Body : Type 0} → HttpRequest Body → AuthManager → Response × AuthManager
handle_logout r m = elim r.cookie [
  | none ↦ (done, m)
  | some token ↦ (done, record m { sessions = put token none m.sessions })
]

-- `validSession`, which deletes a session that has expired.
unfoldable pub valid_session : ℕ → Option Bytes → AuthManager → Bool × AuthManager
valid_session now none m = (false, m)
valid_session now (some token) m = elim (m.sessions token) [
  | none ↦ (false, m)
  | some expiry ↦
      if ltb expiry now
      then (false, record m { sessions = put token none m.sessions })
      else (true, m)
]

unfoldable pub is_public : Bytes → Bool
unfolding bytes_eq
is_public path =
    bytes_eq (bytes "/login.html") path
    || bytes_eq (bytes "/login.js") path
    || bytes_eq (bytes "/style.css") path
    || bytes_eq (bytes "/theme.js") path
    || bytes_eq (bytes "/icons/logo-white.svg") path
    || bytes_eq (bytes "/api/login") path
    || bytes_eq (bytes "/api/logout") path

pub data Guarded : Type 0 where
  served login_required redirected : Guarded

unfoldable pub has_prefix : Bytes → Bytes → Bool
unfolding cut_prefix
has_prefix p s = elim (cut_prefix p s) [ none ↦ false | some rest ↦ true ]

unfoldable pub require : ℕ → Bytes → Option Bytes → AuthManager → Guarded × AuthManager
unfolding valid_session has_prefix
require now path cookie m =
    let (valid, m') = valid_session now cookie m in
    let turned_away =
      if has_prefix (bytes "/api/") path || has_prefix (bytes "/ws/") path
      then login_required
      else redirected in
    if is_public path then (served, m) else ((if valid then served else turned_away), m')

module _ (pbkdf2 : Bytes → Bytes → ℕ → Bytes) where
  -- `setPassword`'s record; `written` is whether the salt, the hash and the file succeed.
  unfoldable pub set_password : Bool → Bytes → Bytes → Option AuthRecord
  set_password written salt pw =
      if written
      then some (record {
        username = auth_username;
        salt = salt;
        hash = pbkdf2 pw salt pbkdf2_iterations;
        iterations = pbkdf2_iterations;
      })
      else none

  unfoldable pub check_password : Bytes → Bytes → AuthManager → Bool
  unfolding bytes_eq
  check_password username password m =
      bytes_eq (pbkdf2 password m.account.salt m.account.iterations) m.account.hash
      && bytes_eq username m.account.username

  -- What follows the throttle in `handleLogin`. `token` is the random token.
  unfoldable pub attempt_login :
      ℕ → Bytes → HttpRequest Credentials → AuthManager → Response × AuthManager
  attempt_login now token r m = elim r.body [
    | none ↦ (bad_request, m)
    | some c ↦
        if check_password c.username c.password m
        then (
          logged_in token,
          record m {
            failures = put r.ip none m.failures;
            sessions = put token (some (now + session_lifetime)) m.sessions;
          },
        )
        else (unauthorized, record_failure now r.ip m)
  ]

  unfoldable pub handle_login :
      ℕ → ℕ → Bytes → HttpRequest Credentials → AuthManager → Response × AuthManager
  handle_login now later token r m =
      if r.is_post
      then elim (throttle now r.ip m) [
        | refused ↦ (too_many_requests, m)
        | admitted delay ↦ attempt_login later token r m
      ]
      else (method_not_allowed, m)

  -- The checks of the new password, and the change. `salt` and `written` are as for `set_password`.
  unfoldable pub change_password :
      Bool
      → Bytes
      → PasswordChange
      → HttpRequest PasswordChange
      → AuthManager
      → Response × AuthManager
  unfolding set_password bytes_eq
  change_password written salt c r m =
      if ltb (length c.new) min_password_length
      then (bad_request, m)
      else if bytes_eq c.new c.confirm
      then if bytes_eq c.new c.current
        then (bad_request, m)
        else elim (set_password written salt c.new) [
          | none ↦ (server_error, m)
          | some rec ↦ (
            done,
            record m {
              account = rec;
              failures = put r.ip none m.failures;
              sessions = λ token. elim r.cookie [
                | none ↦ if bytes_eq token [] then m.sessions token else none
                | some current ↦ if bytes_eq token current then m.sessions token else none
              ];
            },
          )
        ]
      else (bad_request, m)

  unfoldable pub handle_change_password :
      ℕ → ℕ → Bool → Bytes → HttpRequest PasswordChange → AuthManager → Response × AuthManager
  handle_change_password now later written salt r m =
      if r.is_post
      then elim (throttle now r.ip m) [
        | refused ↦ (too_many_requests, m)
        | admitted delay ↦ elim r.body [
          | none ↦ (bad_request, m)
          | some c ↦
              if check_password m.account.username c.current m
              then change_password written salt c r m
              else (forbidden, record_failure later r.ip m)
        ]
      ]
      else (method_not_allowed, m)
