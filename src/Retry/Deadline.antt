-- ===== src/Retry/Deadline.antt =====
-- The loops end, and not long after the deadline.
use swarmdialer.Prelude.{
  ℕ, zero, suc, ◌+◌, ◌*◌, ◌/◌, ◌≤◌, ◌<◌, min, ◌≡◌, refl, Bool, true, false, not, Option, some, List,
  ltb, arith, if◌then◌else◌, Option-cases, Bool-cases, inl, inr,
}
use swarmdialer.Text.{Bytes}
use swarmdialer.Retry.{
  succeeded, stopped_early, gave_up, Ended, retry_loop, add_extension_with_retry,
  is_permanent_extension_error, wait_loop, wait_for_tenant, wait_for_tenant_gone, is_among,
  max_delay, first_delay, poll_interval,
}

-- A loop that ends within a number of calls, the last of them begun by the deadline.
abbrev pub InTime : (ℕ → ℕ) → ℕ → ℕ → Option Ended → Type 0
InTime took calls deadline o =
    (e : Ended) × (o ≡ some e) × (e.last < calls) × (e.at ≤ deadline + took e.last)

module _ (error : ℕ → Option Bytes) (took : ℕ → ℕ) where
  retry_loop-InTime :
      (fuel i calls now delay deadline : ℕ)
      → calls ≡ i + fuel
      → 5 ≤ delay
      → now ≤ deadline
      → deadline < now + 5 * fuel
      → InTime took calls deadline (retry_loop error took fuel i now delay deadline)
  unfolding retry_loop
  retry_loop-InTime zero i calls now delay deadline c d n f = absurd (omega arith)
  retry_loop-InTime (suc fuel) i calls now delay deadline c d n f = elim (Option-cases (error i)) [
    | inl e ↦
        rw (e, retry_loop)
          (record { how = succeeded; last = i; at = now + took i }, refl, omega arith, omega arith)
    | inr (msg, e) ↦ elim (Bool-cases (is_permanent_extension_error msg)) [
      | inl g ↦
          rw (e, retry_loop)
            (rw g (
              record { how = stopped_early; last = i; at = now + took i },
              refl,
              omega arith,
              omega arith,
            ))
      | inr g ↦ elim (Bool-cases (ltb deadline (now + took i + delay))) [
        | inl k ↦
            rw (e, retry_loop)
              (rw (g, k)
                (
                  record { how = gave_up; last = i; at = now + took i },
                  refl,
                  omega arith,
                  omega arith,
                ))
        | inr k ↦
            let below : now + took i + delay ≤ deadline = ground arith in
            let (end, p, q, r) =
              retry_loop-InTime fuel (suc i) calls (now + took i + delay)
                (min (delay * 2) max_delay) deadline (omega arith) (omega arith) below
                (omega arith) in
            rw (e, retry_loop) (rw (g, k) (end, p, q, r))
      ]
    ]
  ]

  -- `AddExtensionWithRetry` ends within one call for every five seconds of the time it is given and
  -- one more, whatever the API answers; its last call begins by the deadline.
  pub add_extension_with_retry-InTime :
      (now max_wait : ℕ)
      → InTime took
          (max_wait / 5 + 1)
          (now + max_wait)
          (add_extension_with_retry error took (max_wait / 5 + 1) now max_wait)
  unfolding add_extension_with_retry
  add_extension_with_retry-InTime now max_wait =
      retry_loop-InTime (max_wait / 5 + 1) 0 (max_wait / 5 + 1) now first_delay (now + max_wait)
        (omega arith) (omega arith) (omega arith) (omega arith)

-- A wait that ends within a number of calls, the last of them begun no later than one poll after the
-- deadline, and that succeeds only on what it waited for.
abbrev pub Waited : (ℕ → Option (List ℕ)) → (ℕ → ℕ) → Bool → ℕ → ℕ → ℕ → Option Ended → Type 0
Waited tenants took gone id calls deadline o =
    (e : Ended) × (o ≡ some e)
    × (e.last < calls)
    × (e.at ≤ deadline + poll_interval + took e.last)
    × (e.how ≡ succeeded → (ts : List ℕ) × (tenants e.last ≡ some ts) × (is_among id ts ≡ not gone))

module _ (tenants : ℕ → Option (List ℕ)) (took : ℕ → ℕ) (id : ℕ) where
  wait_loop-Waited :
      (gone : Bool) (fuel i calls now deadline : ℕ)
      → calls ≡ i + fuel
      → now ≤ deadline + 5
      → deadline + 5 < now + 5 * fuel
      → Waited tenants took gone id calls deadline
          (wait_loop tenants took gone id fuel i now deadline)
  unfolding wait_loop
  wait_loop-Waited gone zero i calls now deadline c n f = absurd (omega arith)
  wait_loop-Waited gone (suc fuel) i calls now deadline c n f = elim (Option-cases (tenants i)) [
    | inl e ↦
        rw (e, wait_loop)
          (
            record { how = stopped_early; last = i; at = now + took i },
            refl,
            omega arith,
            omega arith,
            λ h. absurd (ground arith),
          )
    | inr (ts, e) ↦ elim (Bool-cases (if gone then not (is_among id ts) else is_among id ts)) [
      | inl g ↦
          rw (e, wait_loop)
            (rw g (
              record { how = succeeded; last = i; at = now + took i },
              refl,
              omega arith,
              omega arith,
              λ h. (ts, e, ground arith),
            ))
      | inr g ↦ elim (Bool-cases (ltb deadline (now + took i))) [
        | inl k ↦
            rw (e, wait_loop)
              (rw (g, k)
                (
                  record { how = gave_up; last = i; at = now + took i },
                  refl,
                  omega arith,
                  omega arith,
                  λ h. absurd (ground arith),
                ))
        | inr k ↦
            let below : now + took i ≤ deadline = ground arith in
            let rest =
              wait_loop-Waited gone fuel (suc i) calls (now + took i + poll_interval) deadline
                (omega arith) (omega arith) (omega arith) in
            rw (e, wait_loop) (rw (g, k) rest)
      ]
    ]
  ]

  -- `WaitForTenant` ends within one call for every five seconds of the time it is given and two more,
  -- whatever the API answers and however long that takes, and says that the tenant is there only if
  -- its last call listed it.
  pub wait_for_tenant-Waited :
      (now max_wait : ℕ)
      → Waited tenants took false id
          (max_wait / 5 + 2)
          (now + max_wait)
          (wait_for_tenant tenants took id (max_wait / 5 + 2) now max_wait)
  unfolding wait_for_tenant
  wait_for_tenant-Waited now max_wait =
      wait_loop-Waited false (max_wait / 5 + 2) 0 (max_wait / 5 + 2) now (now + max_wait)
        (omega arith) (omega arith) (omega arith)

  -- `WaitForTenantGone` ends within one call for every five seconds of the time it is given and two
  -- more, whatever the API answers and however long that takes, and says that the tenant is gone only
  -- if its last call did not list it.
  pub wait_for_tenant_gone-Waited :
      (now max_wait : ℕ)
      → Waited tenants took true id
          (max_wait / 5 + 2)
          (now + max_wait)
          (wait_for_tenant_gone tenants took id (max_wait / 5 + 2) now max_wait)
  unfolding wait_for_tenant_gone
  wait_for_tenant_gone-Waited now max_wait =
      wait_loop-Waited true (max_wait / 5 + 2) 0 (max_wait / 5 + 2) now (now + max_wait)
        (omega arith) (omega arith) (omega arith)
