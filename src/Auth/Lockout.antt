-- ===== src/Auth/Lockout.antt =====
-- Failed logins: what is counted, when an address is locked out, and what the lockout stops.
use swarmdialer.Prelude.{
  ℕ, ◌+◌, ◌≤◌, ◌<◌, ◌≡◌, ◌≢◌, refl, subst, ◌∙◌, Bool, true, false, Option, none, some, List, [],
  ◌∷◌, if◌then◌else◌, length, arith, lt→ltb, Bool-cases, inl, inr, ◌↔◌,
}
use swarmdialer.Text.{Bytes, bytes_eq, bytes_eq_refl}
use swarmdialer.Auth.{
  AuthManager, LoginFailures, Throttled, refused, admitted, throttle, one_more, record_failure,
  Response, too_many_requests, unauthorized, bad_request, logged_in, HttpRequest, Credentials,
  attempt_login, handle_login, check_password, login_lock_after, login_lockout, session_lifetime,
  put,
}

-- The failures counted against an address.
unfoldable pub count_of : Option LoginFailures → ℕ
count_of none = 0
count_of (some f) = f.count

-- No address has as many failures as lock it out: the count starts again at a lockout.
abbrev pub IsCounted : AuthManager → Type 0
IsCounted m = (ip : Bytes) → count_of (m.failures ip) < login_lock_after

one_more-bounded :
    (now : ℕ) (o : Option LoginFailures)
    → count_of o < login_lock_after
    → count_of (some (one_more now o)) < login_lock_after
unfolding one_more count_of
one_more-bounded now none h = omega arith
one_more-bounded now (some f) h = ground arith

record_failure-IsCounted :
    (now : ℕ) (ip : Bytes) (m : AuthManager) → IsCounted m → IsCounted (record_failure now ip m)
unfolding record_failure
record_failure-IsCounted now ip m h k = elim (Bool-cases (bytes_eq ip k)) [
  | inl e ↦ rw e (one_more-bounded now (m.failures ip) (h ip))
  | inr e ↦ rw e (h k)
]

forget-IsCounted :
    (ip : Bytes) (f : Bytes → Option LoginFailures)
    → ((k : Bytes) → count_of (f k) < login_lock_after)
    → (k : Bytes) → count_of (put ip none f k) < login_lock_after
unfolding count_of
forget-IsCounted ip f h k = elim (Bool-cases (bytes_eq ip k)) [
  | inl e ↦ rw e (omega arith)
  | inr e ↦ rw e (h k)
]

module _ (pbkdf2 : Bytes → Bytes → ℕ → Bytes) where
  checked-IsCounted :
      (later : ℕ) (token : Bytes) (r : HttpRequest Credentials) (m : AuthManager) (b : Bool)
      → IsCounted m
      → IsCounted
          (if◌then◌else◌ {A = Response × AuthManager} b
            (
              logged_in token,
              record m {
                failures = put r.ip none m.failures;
                sessions = put token (some (later + session_lifetime)) m.sessions;
              },
            )
            (unauthorized, record_failure later r.ip m)).1
  checked-IsCounted later token r m true h = forget-IsCounted r.ip m.failures h
  checked-IsCounted later token r m false h = record_failure-IsCounted later r.ip m h

  attempt_login-IsCounted :
      (later : ℕ) (token : Bytes) (r : HttpRequest Credentials) (m : AuthManager)
      → IsCounted m
      → IsCounted (attempt_login pbkdf2 later token r m).1
  unfolding attempt_login
  attempt_login-IsCounted later token r m h = go r.body
    where
      go :
          (o : Option Credentials)
          → IsCounted
              (elim o as (λ x. Response × AuthManager) [
                | none ↦ (bad_request, m)
                | some c ↦
                    if check_password pbkdf2 c.username c.password m
                    then (
                      logged_in token,
                      record m {
                        failures = put r.ip none m.failures;
                        sessions = put token (some (later + session_lifetime)) m.sessions;
                      },
                    )
                    else (unauthorized, record_failure later r.ip m)
              ]).1
      go none = h
      go (some c) =
          checked-IsCounted later token r m (check_password pbkdf2 c.username c.password m) h

  -- A login, whatever its outcome, keeps every count below the lockout.
  pub handle_login-IsCounted :
      (now later : ℕ) (token : Bytes) (r : HttpRequest Credentials) (m : AuthManager)
      → IsCounted m
      → IsCounted (handle_login pbkdf2 now later token r m).1
  unfolding handle_login
  handle_login-IsCounted now later token r m h = elim (Bool-cases r.is_post) [
    | inr e ↦ rw e h
    | inl e ↦ rw e (go (throttle now r.ip m))
  ]
    where
      go :
          (t : Throttled)
          → IsCounted
              (elim t as (λ x. Response × AuthManager) [
                | refused ↦ (too_many_requests, m)
                | admitted delay ↦ attempt_login pbkdf2 later token r m
              ]).1
      go refused = h
      go (admitted delay) = attempt_login-IsCounted later token r m h

  -- A locked-out address is refused, whatever it sends: the password is not looked at, and nothing
  -- changes.
  pub handle_login-locked :
      (now later : ℕ) (token : Bytes) (r : HttpRequest Credentials) (m : AuthManager)
      {f : LoginFailures}
      → r.is_post ≡ true
      → m.failures r.ip ≡ some f
      → now < f.locked_until
      → handle_login pbkdf2 now later token r m ≡ (too_many_requests, m)
  unfolding handle_login throttle
  handle_login-locked now later token r m p e h = rw (p, e) (rw (lt→ltb _ _ h))

  -- A wrong password from an address that is not locked out counts one failure against it and none
  -- against another; sessions and the account stay.
  pub handle_login-wrong :
      (now later : ℕ) (token : Bytes) (r : HttpRequest Credentials) (m : AuthManager)
      {c : Credentials} {delay : ℕ}
      → r.is_post ≡ true
      → r.body ≡ some c
      → throttle now r.ip m ≡ admitted delay
      → check_password pbkdf2 c.username c.password m ≡ false
      → handle_login pbkdf2 now later token r m ≡ (unauthorized, record_failure later r.ip m)
  unfolding handle_login attempt_login
  handle_login-wrong now later token r m p b t k = rw (p, t) (rw (b, k))

one_more-tenth :
    (now : ℕ) (o : Option LoginFailures)
    → count_of o ≡ 9
    → one_more now o ≡ record { count = 0; locked_until = now + login_lockout }
unfolding one_more count_of
one_more-tenth now none h = absurd (omega arith)
one_more-tenth now (some f) h = ground arith

one_more-early :
    (now : ℕ) (o : Option LoginFailures)
    → count_of o < 9
    → count_of (some (one_more now o)) ≡ count_of o + 1
unfolding one_more count_of
one_more-early now none h = omega arith
one_more-early now (some f) h = ground arith

-- One address fails to log in at each of the times.
unfoldable pub fail_at : List ℕ → Bytes → AuthManager → AuthManager
fail_at [] ip m = m
fail_at (now ∷ times) ip m = fail_at times ip (record_failure now ip m)

fail_at-count :
    (times : List ℕ) (ip : Bytes) (m : AuthManager)
    → count_of (m.failures ip) + length times ≤ 9
    → count_of ((fail_at times ip m).failures ip) ≡ count_of (m.failures ip) + length times
unfolding fail_at record_failure
fail_at-count [] ip m h = omega arith
fail_at-count (now ∷ times) ip m h =
    let here : count_of ((record_failure now ip m).failures ip) ≡ count_of (m.failures ip) + 1 =
      rw (bytes_eq_refl ip) (one_more-early now (m.failures ip) (omega arith)) in
    fail_at-count times ip (record_failure now ip m) (omega (arith, here)) ∙ omega (arith, here)

-- The time until which an address is locked out.
unfoldable pub locked_of : Option LoginFailures → ℕ
locked_of none = 0
locked_of (some f) = f.locked_until

refused_iff :
    (now : ℕ) (ip : Bytes) (m : AuthManager)
    → (throttle now ip m ≡ refused) ↔ (now < locked_of (m.failures ip))
unfolding throttle locked_of
refused_iff now ip m = ((λ h. ground arith), (λ h. ground arith))

one_more-locked :
    (now : ℕ) (o : Option LoginFailures)
    → count_of o < 9
    → locked_of (some (one_more now o)) ≡ locked_of o
unfolding one_more count_of locked_of
one_more-locked now none h = refl
one_more-locked now (some f) h = ground arith

fail_at-locked :
    (times : List ℕ) (ip : Bytes) (m : AuthManager)
    → count_of (m.failures ip) + length times ≤ 9
    → locked_of ((fail_at times ip m).failures ip) ≡ locked_of (m.failures ip)
unfolding fail_at record_failure
fail_at-locked [] ip m h = refl
fail_at-locked (now ∷ times) ip m h =
    let here : count_of ((record_failure now ip m).failures ip) ≡ count_of (m.failures ip) + 1 =
      rw (bytes_eq_refl ip) (one_more-early now (m.failures ip) (omega arith)) in
    let kept : locked_of ((record_failure now ip m).failures ip) ≡ locked_of (m.failures ip) =
      rw (bytes_eq_refl ip) (one_more-locked now (m.failures ip) (omega arith)) in
    fail_at-locked times ip (record_failure now ip m) (omega (arith, here)) ∙ kept

-- Ten wrong passwords in a row from an address with no failures lock it out for exactly fifteen
-- minutes from the tenth: it is refused before then, and not from then on.
pub ten_failures_lock :
    (times : List ℕ) (last later : ℕ) (ip : Bytes) (m : AuthManager)
    → m.failures ip ≡ none
    → length times ≡ 9
    → (throttle later ip (record_failure last ip (fail_at times ip m)) ≡ refused)
      ↔ (later < last + login_lockout)
ten_failures_lock times last later ip m fresh nine =
    let none_yet : count_of (m.failures ip) ≡ 0 = rw fresh (unfold count_of in refl) in
    let count : count_of ((fail_at times ip m).failures ip) ≡ 9 =
      fail_at-count times ip m (omega arith) ∙ omega arith in
    let until : locked_of ((record_failure last ip (fail_at times ip m)).failures ip)
        ≡ last + login_lockout =
      unfold record_failure locked_of in
      rw (bytes_eq_refl ip)
        (rw (one_more-tenth last ((fail_at times ip m).failures ip) count) refl) in
    subst
      (λ (n : ℕ).
        (throttle later ip (record_failure last ip (fail_at times ip m)) ≡ refused) ↔ (later < n))
      until (refused_iff later ip (record_failure last ip (fail_at times ip m)))

-- Fewer than ten wrong passwords from an address with no failures do not lock it out.
pub few_failures_admit :
    (times : List ℕ) (later : ℕ) (ip : Bytes) (m : AuthManager)
    → m.failures ip ≡ none
    → length times < 10
    → throttle later ip (fail_at times ip m) ≢ refused
few_failures_admit times later ip m fresh few =
    let none_yet : count_of (m.failures ip) ≡ 0 = rw fresh (unfold count_of in refl) in
    let open_now : locked_of (m.failures ip) ≡ 0 = rw fresh (unfold locked_of in refl) in
    let kept = fail_at-locked times ip m (omega arith) in
    λ h.
      let early = (refused_iff later ip (fail_at times ip m)).0 h in
      absurd (omega (arith, kept, open_now, early))
