-- ===== src/Examples/Login.antt =====
-- Logins, lockouts and sessions.
use swarmdialer.Prelude.{
  arith, false, ℕ, ◌+◌, ◌≤◌, ◌<◌, ◌≡◌, refl, ◌⊎◌, ◌↔◌, true, none, some, List, [], ◌∷◌, ◌++◌,
  if◌then◌else◌,
}
use swarmdialer.Text.{Bytes, bytes, bytes_eq}
use swarmdialer.Auth.{
  AuthManager, throttle, refused, record_failure, HttpRequest, Credentials, PasswordChange,
  logged_in, done, handle_login, change_password, set_password, check_password, valid_session,
  require, is_public, served, auth_username, session_lifetime, login_lockout, pbkdf2_iterations,
}
use swarmdialer.Auth.Lockout.{fail_at, ten_failures_lock}
use swarmdialer.Auth.Sessions.{login_lasts, change_password-ends_others, require_iff}

abbrev derive : Bytes → Bytes → ℕ → Bytes
derive pw salt n = pw ++ salt

abbrev manager : AuthManager
manager = record {
  account = record {
    username = auth_username;
    salt = 7 ∷ [];
    hash = bytes "right horse" ++ 7 ∷ [];
    iterations = pbkdf2_iterations;
  };
  sessions = λ token. if bytes_eq token (9 ∷ []) then some 50000 else none;
  failures = λ ip. none;
}

abbrev here : Bytes
here = bytes "10.1.2.3"

abbrev login : Bytes → HttpRequest Credentials
login pw = record {
  is_post = true;
  ip = here;
  cookie = none;
  body = some (record { username = auth_username; password = pw });
}

abbrev new_password : PasswordChange
new_password = record {
  current = bytes "right horse";
  new = bytes "battery staple";
  confirm = bytes "battery staple";
}

abbrev changing : HttpRequest PasswordChange
changing = record { is_post = true; ip = here; cookie = some (8 ∷ []); body = some new_password }

abbrev nine_times : List ℕ
nine_times = 1 ∷ 2 ∷ 3 ∷ 4 ∷ 5 ∷ 6 ∷ 7 ∷ 8 ∷ 9 ∷ []

ten_failures_lock_example :
    (throttle 909 here (record_failure 10 here (fail_at nine_times here manager)) ≡ refused)
    ↔ (909 < 10 + login_lockout)
ten_failures_lock_example = ten_failures_lock nine_times 10 909 here manager refl refl

login_lasts_example :
    ((handle_login derive 1 2 (1 ∷ []) (login (bytes "right horse")) manager).0
      ≡ logged_in (1 ∷ []))
    × (((valid_session 43202
            (some (1 ∷ []))
            (handle_login derive 1 2 (1 ∷ []) (login (bytes "right horse")) manager).1).0
          ≡ true)
        ↔ (43202 ≤ 2 + session_lifetime))
login_lasts_example =
    login_lasts derive 1 2 43202 (1 ∷ []) (login (bytes "right horse")) manager {delay = 0} refl
      refl (unfold throttle in refl) (unfold check_password bytes_eq in refl)

changed : (change_password derive true (5 ∷ []) new_password changing manager).0 ≡ done
unfolding change_password set_password bytes_eq
changed = refl

-- The session of another token ends.
change_password-ends_others_example :
    (valid_session 40000
      (some (9 ∷ []))
      (change_password derive true (5 ∷ []) new_password changing manager).1).0
    ≡ false
change_password-ends_others_example =
    change_password-ends_others derive true (5 ∷ []) new_password changing manager 40000 (8 ∷ [])
      (9 ∷ []) changed refl (λ h. ground arith)

require_iff_example :
    (((require 40000 (bytes "/api/servers") (some (9 ∷ [])) manager).0 ≡ served) ↔ (
      (is_public (bytes "/api/servers") ≡ true)
      ⊎ ((token : Bytes) × (expiry : ℕ) × (some (9 ∷ []) ≡ some token)
          × (manager.sessions token ≡ some expiry)
          × (40000 ≤ expiry))))
    × ((token : Bytes) (expiry : ℕ)
        → manager.sessions token ≡ some expiry
        → 40000 ≤ expiry
        → (require 40000 (bytes "/api/servers") (some (9 ∷ [])) manager).1.sessions token
          ≡ some expiry)
require_iff_example = require_iff 40000 (bytes "/api/servers") (some (9 ∷ [])) manager
