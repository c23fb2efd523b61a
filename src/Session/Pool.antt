-- ===== src/Session/Pool.antt =====
-- internal/orchestrator/session.go: the extension pools and their booking (`pool`, `freeList`,
-- `reservePairs`, `release`, `countTrue`, `registration`, `noteRegistration`).
-- Go's maps over AORs are a list of the keys and a function that is false off them. Ranging over a
-- map visits the keys in an unspecified order: the order is an argument of whatever ranges.
use swarmdialer.Prelude.{
  ℕ, suc, ◌/◌, ltb, String, ◌==s◌, Bool, true, false, List, [], ◌∷◌, if◌then◌else◌, length,
}

abbrev pub Aor : Type 0
Aor = String

-- m[k] = v
abbrev pub update : (Aor → Bool) → Aor → Bool → Aor → Bool
update m k v a = if k ==s a then v else m a

pub record Pool : Type 0 where
  pub phones : List Aor  -- the keys of `phones` and of `available`
  pub available : Aor → Bool
  pub dial_destination : String
  pub sip_domain : String
  pub not_registered : Aor → Bool
  pub refresh_failures : ℕ

-- A local session has one pool on both sides (`callerPool == calleePool`), a remote one has two.
pub data Pools : Type 0 where
  shared : Pool → Pools
  split : Pool → Pool → Pools

unfoldable pub caller_pool : Pools → Pool
caller_pool (shared p) = p
caller_pool (split p q) = p

unfoldable pub callee_pool : Pools → Pool
callee_pool (shared p) = p
callee_pool (split p q) = q

-- p.available[aor] = v
unfoldable pub mark : Pool → Aor → Bool → Pool
mark p aor v = record p { available = update p.available aor v }

-- s.callerPool.available[aor] = v, and the callee's; on a shared pool both write the one map.
unfoldable pub mark_caller : Pools → Aor → Bool → Pools
unfolding mark
mark_caller (shared p) aor v = shared (mark p aor v)
mark_caller (split p q) aor v = split (mark p aor v) q

unfoldable pub mark_callee : Pools → Aor → Bool → Pools
unfolding mark
mark_callee (shared p) aor v = shared (mark p aor v)
mark_callee (split p q) aor v = split p (mark q aor v)

unfoldable pub release : Pools → Aor → Aor → Pools
unfolding mark_caller mark_callee
release ps caller callee = mark_callee (mark_caller ps caller true) callee true

-- The keys that are true, in the order in which the map is ranged over.
unfoldable pub free_list : List Aor → (Aor → Bool) → List Aor
free_list [] available = []
free_list (aor ∷ order) available =
    let rest = free_list order available in if available aor then aor ∷ rest else rest

unfoldable pub count_true : List Aor → (Aor → Bool) → ℕ
count_true [] m = 0
count_true (aor ∷ order) m = let rest = count_true order m in if m aor then suc rest else rest

-- The loop of `reservePairs` on a shared pool: pair i takes the free extensions 2i and 2i + 1.
unfoldable pub pair_up : ℕ → List Aor → List (Aor × Aor)
pair_up (suc k) (a ∷ b ∷ free) = (a, b) ∷ pair_up k free
pair_up _ _ = []

-- On two pools pair i takes the free caller i and the free callee i.
unfoldable pub pair_across : ℕ → List Aor → List Aor → List (Aor × Aor)
pair_across (suc k) (a ∷ callers) (b ∷ callees) = (a, b) ∷ pair_across k callers callees
pair_across _ _ _ = []

unfoldable pub book : List (Aor × Aor) → Pools → Pools
unfolding mark_caller mark_callee
book [] ps = ps
book ((caller, callee) ∷ pairs) ps =
    book pairs (mark_callee (mark_caller ps caller false) callee false)

unfoldable pub max_pairs : ℕ → Pools → List Aor → List Aor → ℕ
max_pairs n (shared p) free_callers free_callees =
    let m = length free_callers / 2 in if ltb m n then m else n
max_pairs n (split p q) free_callers free_callees =
    let m = if ltb (length free_callers) n then length free_callers else n in
    if ltb (length free_callees) m then length free_callees else m

unfoldable pub choose : ℕ → Pools → List Aor → List Aor → List (Aor × Aor)
unfolding pair_up pair_across
choose k (shared p) free_callers free_callees = pair_up k free_callers
choose k (split p q) free_callers free_callees = pair_across k free_callers free_callees

-- `callers` and `callees` are the orders in which the two maps are ranged over; a shared pool's map
-- is ranged over once.
unfoldable pub reserve_pairs : ℕ → List Aor → List Aor → Pools → List (Aor × Aor) × Pools
unfolding caller_pool callee_pool free_list max_pairs choose book
reserve_pairs n callers callees ps =
    let free_callers = free_list callers (caller_pool ps).available in
    let free_callees = free_list callees (callee_pool ps).available in
    let pairs = choose (max_pairs n ps free_callers free_callees) ps free_callers free_callees in
    (pairs, book pairs ps)

-- `registration`: the size, how many failed their last attempt, and the failed refreshes.
unfoldable pub registration : Pool → ℕ × ℕ × ℕ
unfolding count_true
registration p = (length p.phones, count_true p.phones p.not_registered, p.refresh_failures)

-- `noteRegistration`: `failed` is `err != nil`.
unfoldable pub note_registration : Pool → Aor → Bool → Pool
note_registration p aor failed = record p {
  not_registered = update p.not_registered aor failed;
  refresh_failures = if failed then suc p.refresh_failures else p.refresh_failures;
}

-- The keys of the map that the loop of `newPool` fills: a repeated AOR overwrites its entry.
unfoldable pub contains : List Aor → Aor → Bool
contains [] a = false
contains (k ∷ ks) a = let rest = contains ks a in if k ==s a then true else rest

unfoldable pub keys_of : List Aor → List Aor
unfolding contains
keys_of [] = []
keys_of (a ∷ endpoints) = let rest = keys_of endpoints in if contains rest a then rest else a ∷ rest

-- `newPool` once every endpoint has registered (a failure returns no pool); every phone is free.
unfoldable pub new_pool : String → String → List Aor → Pool
unfolding keys_of contains
new_pool dial_destination sip_domain endpoints = record {
  phones = keys_of endpoints;
  available = contains (keys_of endpoints);
  dial_destination = dial_destination;
  sip_domain = if sip_domain ==s "" then dial_destination else sip_domain;
  not_registered = λ a. false;
  refresh_failures = 0;
}
