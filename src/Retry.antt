-- ===== src/Retry.antt =====
-- internal/pbxware/retry.go: calls of the PBXware API that are tried again until a deadline. The API's
-- answers and how long each takes are functions of the number of calls before it. Times are seconds.
-- A loop runs on fuel, and is none once that is used up.
use swarmdialer.Prelude.{
  ℕ, zero, suc, ◌+◌, ◌*◌, min, Bool, true, false, not, ◌||◌, Option, none, some, List, [], ◌∷◌, map,
  ltb, leb, ◌==◌, ◌&&◌, if◌then◌else◌,
}
use swarmdialer.Text.{Bytes, bytes, cut_prefix}
pub mod Deadline
pub mod Secret

-- strings.ToLower of ASCII, and strings.Contains
unfoldable pub lower : Bytes → Bytes
lower s = map (λ (b : ℕ). if leb 65 b && leb b 90 then b + 32 else b) s

unfoldable pub has_text : Bytes → Bytes → Bool
unfolding cut_prefix
has_text sub [] = elim (cut_prefix sub []) [ none ↦ false | some rest ↦ true ]
has_text sub (b ∷ s) =
    let rest = has_text sub s in elim (cut_prefix sub (b ∷ s)) [ none ↦ rest | some after ↦ true ]

unfoldable pub is_permanent_extension_error : Bytes → Bool
unfolding lower has_text
is_permanent_extension_error msg =
    has_text (bytes "is reserved") (lower msg)
    || (has_text (bytes "already exist") (lower msg)
        || has_text (bytes "contains invalid data") (lower msg))

abbrev pub first_delay : ℕ
first_delay = 5

abbrev pub max_delay : ℕ
max_delay = 60

abbrev pub poll_interval : ℕ
poll_interval = 5

-- How a loop ends, after how many calls and when.
pub data End : Type 0 where
  succeeded stopped_early gave_up : End

pub record Ended : Type 0 where
  pub how : End
  pub last : ℕ  -- the last call's number
  pub at : ℕ

-- `error` is the message of a call's error, if it fails.
module _ (error : ℕ → Option Bytes) (took : ℕ → ℕ) where
  unfoldable pub retry_loop : ℕ → ℕ → ℕ → ℕ → ℕ → Option Ended
  unfolding is_permanent_extension_error
  retry_loop zero i now delay deadline = none
  retry_loop (suc fuel) i now delay deadline =
      let at = now + took i in
      let rest = retry_loop fuel (suc i) (at + delay) (min (delay * 2) max_delay) deadline in
      elim (error i) [
        | none ↦ some (record { how = succeeded; last = i; at = at })
        | some msg ↦
            if is_permanent_extension_error msg
            then some (record { how = stopped_early; last = i; at = at })
            else (if ltb deadline (at + delay)
                then some (record { how = gave_up; last = i; at = at })
                else rest)
      ]

  unfoldable pub add_extension_with_retry : ℕ → ℕ → ℕ → Option Ended
  unfolding retry_loop
  add_extension_with_retry fuel now max_wait = retry_loop fuel 0 now first_delay (now + max_wait)

unfoldable pub is_among : ℕ → List ℕ → Bool
is_among id [] = false
is_among id (t ∷ ts) = let rest = is_among id ts in if t == id then true else rest

-- `tenants` lists the tenants at a call, unless that fails. `WaitForTenant` waits until the tenant is
-- among them, `WaitForTenantGone` until it is not.
module _ (tenants : ℕ → Option (List ℕ)) (took : ℕ → ℕ) where
  unfoldable pub wait_loop : Bool → ℕ → ℕ → ℕ → ℕ → ℕ → Option Ended
  unfolding is_among
  wait_loop gone id zero i now deadline = none
  wait_loop gone id (suc fuel) i now deadline =
      let at = now + took i in
      let rest = wait_loop gone id fuel (suc i) (at + poll_interval) deadline in
      elim (tenants i) [
        | none ↦ some (record { how = stopped_early; last = i; at = at })
        | some ts ↦
            if (if gone then not (is_among id ts) else is_among id ts)
            then some (record { how = succeeded; last = i; at = at })
            else (if ltb deadline at
                then some (record { how = gave_up; last = i; at = at })
                else rest)
      ]

  unfoldable pub wait_for_tenant : ℕ → ℕ → ℕ → ℕ → Option Ended
  unfolding wait_loop
  wait_for_tenant id fuel now max_wait = wait_loop false id fuel 0 now (now + max_wait)

  unfoldable pub wait_for_tenant_gone : ℕ → ℕ → ℕ → ℕ → Option Ended
  unfolding wait_loop
  wait_for_tenant_gone id fuel now max_wait = wait_loop true id fuel 0 now (now + max_wait)
