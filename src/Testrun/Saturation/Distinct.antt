-- ===== src/Testrun/Saturation/Distinct.antt =====
-- A sample checks no metric twice.
use swarmdialer.Prelude.{
  ◌≡◌, refl, String, ◌==s◌, false, List, [], ◌∷◌, ◌++◌, ltb, Bool-cases, inl, inr, All,
}
use swarmdialer.Testrun.Samples.{
  Metric, host_cpu, host_mem, tool_cpu, vps_cpu, vps_mem, same_metric, VpsMetrics, VpsLimits,
  Sample,
}
use swarmdialer.Testrun.Saturation.{Check, vps_checks, checks_of}
use swarmdialer.Testrun.Saturation.InARow.{Apart, AllApart}

-- No two entries are of one role.
abbrev pub OtherRole : String → List (String × VpsMetrics) → Type 0
OtherRole role vps = All (λ (x : String × VpsMetrics). (x.0 ==s role) ≡ false) vps

abbrev pub HasRoles : List (String × VpsMetrics) → Type 0
HasRoles [] = Unit
HasRoles ((role, v) ∷ vps) = OtherRole role vps × HasRoles vps

-- A metric that none of the roles of a list has.
abbrev IsOutside : Metric → List (String × VpsMetrics) → Type 0
IsOutside (vps_cpu role) vps = OtherRole role vps
IsOutside (vps_mem role) vps = OtherRole role vps
IsOutside tool_cpu vps = ⊥
IsOutside m vps = Unit

IsOutside-tail :
    (m : Metric) (x : String × VpsMetrics) (vps : List (String × VpsMetrics))
    → IsOutside m (x ∷ vps)
    → IsOutside m vps
IsOutside-tail (vps_cpu role) x vps h = h.1
IsOutside-tail (vps_mem role) x vps h = h.1
IsOutside-tail host_cpu x vps h = tt
IsOutside-tail host_mem x vps h = tt
IsOutside-tail tool_cpu x vps h = h

outside_cpu :
    (m : Metric) (role : String) (v : VpsMetrics) (vps : List (String × VpsMetrics))
    → IsOutside m ((role, v) ∷ vps)
    → same_metric (vps_cpu role) m ≡ false
outside_cpu (vps_cpu r) role v vps h = h.0
outside_cpu (vps_mem r) role v vps h = refl
outside_cpu host_cpu role v vps h = refl
outside_cpu host_mem role v vps h = refl
outside_cpu tool_cpu role v vps h = absurd h

outside_mem :
    (m : Metric) (role : String) (v : VpsMetrics) (vps : List (String × VpsMetrics))
    → IsOutside m ((role, v) ∷ vps)
    → same_metric (vps_mem role) m ≡ false
outside_mem (vps_cpu r) role v vps h = refl
outside_mem (vps_mem r) role v vps h = h.0
outside_mem host_cpu role v vps h = refl
outside_mem host_mem role v vps h = refl
outside_mem tool_cpu role v vps h = absurd h

outside_tool :
    (m : Metric) (vps : List (String × VpsMetrics))
    → IsOutside m vps
    → same_metric tool_cpu m ≡ false
outside_tool (vps_cpu r) vps h = refl
outside_tool (vps_mem r) vps h = refl
outside_tool host_cpu vps h = refl
outside_tool host_mem vps h = refl
outside_tool tool_cpu vps h = absurd h

module _ (limits : String → VpsLimits) (tool : Check) (is_tool : tool.metric ≡ tool_cpu) where
  vps_checks-Apart :
      (m : Metric) (vps : List (String × VpsMetrics))
      → IsOutside m vps
      → Apart m (vps_checks limits vps ++ tool ∷ [])
  unfolding vps_checks
  vps_checks-Apart m [] h = (rw is_tool (outside_tool m [] h), tt)
  vps_checks-Apart m ((role, v) ∷ vps) h =
      let ih = vps_checks-Apart m vps (IsOutside-tail m (role, v) vps h) in
      let cpu = outside_cpu m role v vps h in
      let mem = outside_mem m role v vps h in
      elim (Bool-cases (ltb 0 (limits role).cpu_limit)) [
        | inl e ↦ elim (Bool-cases (ltb 0 (limits role).mem_limit_mb)) [
          | inl f ↦ rw (e, f, vps_checks) (cpu, (mem, ih))
          | inr f ↦ rw (e, f, vps_checks) (cpu, ih)
        ]
        | inr e ↦ elim (Bool-cases (ltb 0 (limits role).mem_limit_mb)) [
          | inl f ↦ rw (e, f, vps_checks) (mem, ih)
          | inr f ↦ rw (e, f, vps_checks) ih
        ]
      ]

  vps_checks-AllApart :
      (vps : List (String × VpsMetrics))
      → HasRoles vps
      → AllApart (vps_checks limits vps ++ tool ∷ [])
  unfolding vps_checks
  vps_checks-AllApart [] h = (tt, tt)
  vps_checks-AllApart ((role, v) ∷ vps) h =
      let ih = vps_checks-AllApart vps h.1 in
      let cpu = vps_checks-Apart (vps_cpu role) vps h.0 in
      let mem = vps_checks-Apart (vps_mem role) vps h.0 in
      elim (Bool-cases (ltb 0 (limits role).cpu_limit)) [
        | inl e ↦ elim (Bool-cases (ltb 0 (limits role).mem_limit_mb)) [
          | inl f ↦ rw (e, f, vps_checks) ((refl, cpu), (mem, ih))
          | inr f ↦ rw (e, f, vps_checks) (cpu, ih)
        ]
        | inr e ↦ elim (Bool-cases (ltb 0 (limits role).mem_limit_mb)) [
          | inl f ↦ rw (e, f, vps_checks) (mem, ih)
          | inr f ↦ rw (e, f, vps_checks) ih
        ]
      ]

-- A sample with one entry for each role checks no metric twice.
pub checks_of-AllApart :
    (limits : String → VpsLimits) (s : Sample) → HasRoles s.vps → AllApart (checks_of limits s)
unfolding checks_of
checks_of-AllApart limits s h = (
  (refl, vps_checks-Apart limits _ refl host_cpu s.vps tt),
  (vps_checks-Apart limits _ refl host_mem s.vps tt, vps_checks-AllApart limits _ refl s.vps h),
)
