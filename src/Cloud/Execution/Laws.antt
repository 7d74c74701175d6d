-- ===== src/Cloud/Execution/Laws.antt =====
-- src/PafioCloud/Execution.cpp: the lane and the security profile of a job.
use spio.Prelude.{
  Bytes, text, text_eq, text_eq_iff, contains, is_empty, Bool, true, false, not, ◌&&◌, ◌||◌,
  if◌then◌else◌, ◌≡◌, refl, ◌⊎◌, inl, inr, Bool-cases, arith,
}
use spio.Toolchain.{
  ProjectToolchainState, supported_cloud_risk_classes, supported_cloud_execution_lanes,
  supported_cloud_security_profiles,
}
use spio.Cloud.Execution.{
  Host, Routing, known_risk, known_lane, allowed_lane, start_routing,
  resolve_cloud_execution_policy, CloudExecutionPolicy, replaces_profile, default_security_profile,
  default_worker_trust_tier, policy_of,
}

-- The guards, on a risk class and a lane.
route : Bytes → Bytes → Routing
route risk lane = allowed_lane (
    known_lane (
      known_risk record {
        risk_class = risk;
        execution_lane = lane;
        fallback_applied = false;
        routing_reason = text "";
      }))

-- The class that a job is treated as.
unfoldable pub effective_risk : Bytes → Bytes
effective_risk risk =
    if contains risk supported_cloud_risk_classes then risk else text "untrusted-user"

-- Only a trusted internal job that asks for the shared lane gets it.
unfoldable pub effective_lane : Bytes → Bytes → Bytes
effective_lane risk lane =
    if text_eq risk (text "trusted-internal") && text_eq lane (text "warm-shared")
    then text "warm-shared"
    else text "isolated"

abbrev IsRouted : Bytes → Bytes → Routing → Type 0
IsRouted risk lane r =
    (r.risk_class ≡ effective_risk risk)
    × (r.execution_lane ≡ effective_lane risk lane)
    × (r.fallback_applied
        ≡ not (text_eq risk (effective_risk risk) && text_eq lane (effective_lane risk lane)))
    × (is_empty r.routing_reason ≡ false)

abbrev IsUnknownRisk : Bytes → Type 0
IsUnknownRisk r =
    (text_eq (text "trusted-internal") r ≡ false)
    × (text_eq (text "partner-controlled") r ≡ false)
    × (text_eq (text "untrusted-user") r ≡ false)
    × (text_eq r (text "trusted-internal") ≡ false)
    × (text_eq r (text "partner-controlled") ≡ false)
    × (text_eq r (text "untrusted-user") ≡ false)

abbrev IsUnknownLane : Bytes → Type 0
IsUnknownLane l =
    (text_eq (text "isolated") l ≡ false)
    × (text_eq (text "warm-shared") l ≡ false)
    × (text_eq l (text "isolated") ≡ false)
    × (text_eq l (text "warm-shared") ≡ false)

neq_sym : (s t : Bytes) → text_eq s t ≡ false → text_eq t s ≡ false
neq_sym s t h = ground (arith, text_eq_iff s t, text_eq_iff t s)

risk_cases :
    (r : Bytes)
    → (text "trusted-internal" ≡ r)
      ⊎ ((text "partner-controlled" ≡ r) ⊎ ((text "untrusted-user" ≡ r) ⊎ IsUnknownRisk r))
risk_cases r = elim (Bool-cases (text_eq (text "trusted-internal") r)) [
  | inl e ↦ inl ((text_eq_iff _ r).0 e)
  | inr a ↦ inr (elim (Bool-cases (text_eq (text "partner-controlled") r)) [
    | inl e ↦ inl ((text_eq_iff _ r).0 e)
    | inr b ↦ inr (elim (Bool-cases (text_eq (text "untrusted-user") r)) [
      | inl e ↦ inl ((text_eq_iff _ r).0 e)
      | inr c ↦ inr (a, b, c, neq_sym _ r a, neq_sym _ r b, neq_sym _ r c)
    ])
  ])
]

lane_cases : (l : Bytes) → (text "isolated" ≡ l) ⊎ ((text "warm-shared" ≡ l) ⊎ IsUnknownLane l)
lane_cases l = elim (Bool-cases (text_eq (text "isolated") l)) [
  | inl e ↦ inl ((text_eq_iff _ l).0 e)
  | inr a ↦ inr (elim (Bool-cases (text_eq (text "warm-shared") l)) [
    | inl e ↦ inl ((text_eq_iff _ l).0 e)
    | inr b ↦ inr (a, b, neq_sym _ l a, neq_sym _ l b)
  ])
]

route_unknown_lane :
    (risk lane : Bytes)
    → IsUnknownLane lane
    → (text "trusted-internal" ≡ risk)
      ⊎ ((text "partner-controlled" ≡ risk) ⊎ (text "untrusted-user" ≡ risk))
    → IsRouted risk lane (route risk lane)
unfolding route effective_risk effective_lane known_risk known_lane allowed_lane contains text_eq
    supported_cloud_risk_classes supported_cloud_execution_lanes
route_unknown_lane risk lane (a, b, c, d) (inl e) =
    rw (← e) (simp (a, b, c, d) (refl, refl, refl, refl))
route_unknown_lane risk lane (a, b, c, d) (inr (inl e)) =
    rw (← e) (simp (a, b, c, d) (refl, refl, refl, refl))
route_unknown_lane risk lane (a, b, c, d) (inr (inr e)) =
    rw (← e) (simp (a, b, c, d) (refl, refl, refl, refl))

route_unknown_risk :
    (risk lane : Bytes)
    → IsUnknownRisk risk
    → (text "isolated" ≡ lane) ⊎ ((text "warm-shared" ≡ lane) ⊎ IsUnknownLane lane)
    → IsRouted risk lane (route risk lane)
unfolding route effective_risk effective_lane known_risk known_lane allowed_lane contains text_eq
    supported_cloud_risk_classes supported_cloud_execution_lanes
route_unknown_risk risk lane (a, b, c, d, e, f) (inl g) =
    rw (← g) (simp (a, b, c, d, e, f) (refl, refl, refl, refl))
route_unknown_risk risk lane (a, b, c, d, e, f) (inr (inl g)) =
    rw (← g) (simp (a, b, c, d, e, f) (refl, refl, refl, refl))
route_unknown_risk risk lane (a, b, c, d, e, f) (inr (inr (g, h, i, j))) =
    simp (a, b, c, d, e, f, g, h, i, j) (refl, refl, refl, refl)

route_known :
    (risk lane : Bytes)
    → (text "trusted-internal" ≡ risk)
      ⊎ ((text "partner-controlled" ≡ risk) ⊎ (text "untrusted-user" ≡ risk))
    → (text "isolated" ≡ lane) ⊎ (text "warm-shared" ≡ lane)
    → IsRouted risk lane (route risk lane)
unfolding route effective_risk effective_lane known_risk known_lane allowed_lane contains text_eq
    supported_cloud_risk_classes supported_cloud_execution_lanes
route_known risk lane (inl e) (inl f) = rw (← e, ← f) (refl, refl, refl, refl)
route_known risk lane (inl e) (inr f) = rw (← e, ← f) (refl, refl, refl, refl)
route_known risk lane (inr (inl e)) (inl f) = rw (← e, ← f) (refl, refl, refl, refl)
route_known risk lane (inr (inl e)) (inr f) = rw (← e, ← f) (refl, refl, refl, refl)
route_known risk lane (inr (inr e)) (inl f) = rw (← e, ← f) (refl, refl, refl, refl)
route_known risk lane (inr (inr e)) (inr f) = rw (← e, ← f) (refl, refl, refl, refl)

route_lem : (risk lane : Bytes) → IsRouted risk lane (route risk lane)
route_lem risk lane = elim (risk_cases risk) [
  | inl e ↦ elim (lane_cases lane) [
    | inl f ↦ route_known risk lane (inl e) (inl f)
    | inr (inl f) ↦ route_known risk lane (inl e) (inr f)
    | inr (inr n) ↦ route_unknown_lane risk lane n (inl e)
  ]
  | inr (inl e) ↦ elim (lane_cases lane) [
    | inl f ↦ route_known risk lane (inr (inl e)) (inl f)
    | inr (inl f) ↦ route_known risk lane (inr (inl e)) (inr f)
    | inr (inr n) ↦ route_unknown_lane risk lane n (inr (inl e))
  ]
  | inr (inr (inl e)) ↦ elim (lane_cases lane) [
    | inl f ↦ route_known risk lane (inr (inr e)) (inl f)
    | inr (inl f) ↦ route_known risk lane (inr (inr e)) (inr f)
    | inr (inr n) ↦ route_unknown_lane risk lane n (inr (inr e))
  ]
  | inr (inr (inr n)) ↦ route_unknown_risk risk lane n (lane_cases lane)
]

-- The profile that belongs to a class and a lane is among the supported ones.
default_supported :
    (risk lane : Bytes)
    → contains (default_security_profile risk lane) supported_cloud_security_profiles ≡ true
unfolding default_security_profile contains text_eq supported_cloud_security_profiles
default_supported risk lane = elim (Bool-cases (text_eq lane (text "warm-shared"))) [
  | inl e ↦ rw e refl
  | inr e ↦ elim (Bool-cases (text_eq risk (text "partner-controlled"))) [
    | inl f ↦ rw (e, f) refl
    | inr f ↦ rw (e, f) refl
  ]
]

replaces_profile_lem :
    (requested expected : Bytes)
    → contains expected supported_cloud_security_profiles ≡ true
    → replaces_profile requested expected ≡ not (text_eq requested expected)
unfolding replaces_profile
replaces_profile_lem r e h = elim (Bool-cases (text_eq r e)) [
  | inl same ↦ let q : r ≡ e = (text_eq_iff r e).0 same in rw (same, q, h) refl
  | inr other ↦ rw other (ground arith)
]

profile_lem :
    (requested expected : Bytes)
    → (if not (text_eq requested expected) then expected else requested) ≡ expected
profile_lem r e = ground (arith, text_eq_iff r e)

-- Which profile and which trust the worker has, by the effective class and lane.
abbrev pub IsPlacement : Bytes → Bytes → Bytes → Bytes → Type 0
IsPlacement risk lane profile tier =
    ((lane ≡ text "warm-shared")
      × (risk ≡ text "trusted-internal")
      × (profile ≡ text "trusted-warm")
      × (tier ≡ text "internal-warm"))
    ⊎ ((lane ≡ text "isolated")
        × (risk ≡ text "trusted-internal")
        × (profile ≡ text "sandbox-default")
        × (tier ≡ text "trusted-isolated"))
    ⊎ ((lane ≡ text "isolated")
        × (risk ≡ text "partner-controlled")
        × (profile ≡ text "partner-restricted")
        × (tier ≡ text "partner-isolated"))
    ⊎ ((lane ≡ text "isolated")
        × (risk ≡ text "untrusted-user")
        × (profile ≡ text "sandbox-default")
        × (tier ≡ text "untrusted-isolated"))

-- What the settings of a project allow its job.
pub record IsSafe (state : ProjectToolchainState) (p : CloudExecutionPolicy) : Type 0 where
  pub risk : p.risk_class ≡ effective_risk state.risk_class
  pub lane : p.execution_lane ≡ effective_lane state.risk_class state.preferred_execution_lane
  pub placed : IsPlacement p.risk_class p.execution_lane p.security_profile p.worker_trust_tier
  pub pool : p.worker_pool_key.execution_lane ≡ p.execution_lane
  pub pool_tier : p.worker_pool_key.worker_trust_tier ≡ p.worker_trust_tier
  pub sandbox : p.requires_container_sandbox ≡ true
  pub egress : p.network_egress_default_deny ≡ true
  pub priorities : (p.platform_protection_priority ≡ true) × (p.tenant_isolation_priority ≡ true)
  pub shared_read_only :
      (p.cache_policy.shared_toolchain_read_only ≡ true)
      × (p.cache_policy.shared_source_read_only ≡ true)
      × (p.cache_policy.shared_registry_read_only ≡ true)
  pub reuse : p.cache_policy.worker_local_reuse ≡ text_eq p.execution_lane (text "warm-shared")
  pub promotion :
      p.cache_policy.shared_cache_promotion_eligible
      ≡ text_eq p.risk_class (text "trusted-internal")
  pub promoted : p.cache_policy.promotion_policy ≡ text "verified-only"
  pub requested :
      (p.requested_execution_lane ≡ state.preferred_execution_lane)
      × (p.requested_security_profile ≡ state.security_profile)
  pub reason : is_empty p.routing_reason ≡ false
  pub fallback :
      p.fallback_applied
      ≡ not (
          text_eq state.risk_class p.risk_class
          && text_eq state.preferred_execution_lane p.execution_lane
          && text_eq state.security_profile p.security_profile)

placement_lem :
    (risk lane : Bytes)
    → IsPlacement
        (effective_risk risk)
        (effective_lane risk lane)
        (default_security_profile (effective_risk risk) (effective_lane risk lane))
        (default_worker_trust_tier (effective_risk risk) (effective_lane risk lane))
unfolding effective_risk effective_lane default_security_profile default_worker_trust_tier contains
    text_eq supported_cloud_risk_classes
placement_lem risk lane = elim (risk_cases risk) [
  | inl e ↦ elim (Bool-cases (text_eq lane (text "warm-shared"))) [
    | inl f ↦ rw (← e, f) (inl (refl, refl, refl, refl))
    | inr f ↦ rw (← e, f) (inr (inl (refl, refl, refl, refl)))
  ]
  | inr (inl e) ↦ rw (← e) (inr (inr (inl (refl, refl, refl, refl))))
  | inr (inr (inl e)) ↦ rw (← e) (inr (inr (inr (refl, refl, refl, refl))))
  | inr (inr (inr (a, b, c, d, e, f))) ↦
      simp (a, b, c, d, e, f) (inr (inr (inr (refl, refl, refl, refl))))
]

placed_lem :
    (risk lane : Bytes) {r l p t : Bytes}
    → r ≡ effective_risk risk
    → l ≡ effective_lane risk lane
    → p ≡ default_security_profile r l
    → t ≡ default_worker_trust_tier r l
    → IsPlacement r l p t
placed_lem risk lane a b c d = rw (c, d, a, b) (placement_lem risk lane)

taken_lem :
    (requested expected : Bytes)
    → contains expected supported_cloud_security_profiles ≡ true
    → (if replaces_profile requested expected then expected else requested) ≡ expected
taken_lem q d h = rw (replaces_profile_lem q d h) (profile_lem q d)

fallback_lem :
    (a b f : Bool) (requested expected : Bytes)
    → contains expected supported_cloud_security_profiles ≡ true
    → f ≡ not (a && b)
    → (f || replaces_profile requested expected)
      ≡ not (
          a
          && b
          && text_eq requested
              (if replaces_profile requested expected then expected else requested))
fallback_lem a b f q d h e = rw (taken_lem q d h, replaces_profile_lem q d h, e) (ground arith)

-- The policy of every project protects the platform. A class outside the vocabulary counts as
-- untrusted, and the shared lane is for trusted internal jobs that ask for it. The security profile
-- and the trust of the worker are those of the class and the lane, and the worker pool is told apart
-- by the lane and the trust. There is a sandbox, egress is denied by default, and the shared caches
-- are read only; workers keep local state in the shared lane only, and only trusted internal jobs
-- may promote to a shared cache, once verified. There is a reason, the requested lane and profile
-- are recorded, and `fallback_applied` tells whether the class, the lane or the profile is not the
-- requested one.
pub resolve_cloud_execution_policy-IsSafe :
    (host : Host) (state : ProjectToolchainState)
    → IsSafe state (resolve_cloud_execution_policy host state)
unfolding resolve_cloud_execution_policy policy_of start_routing route
resolve_cloud_execution_policy-IsSafe host state =
    let r = route_lem state.risk_class state.preferred_execution_lane in
    let p : CloudExecutionPolicy = resolve_cloud_execution_policy host state in
    let known =
      default_supported (allowed_lane (known_lane (known_risk (start_routing state)))).risk_class
        (allowed_lane (known_lane (known_risk (start_routing state)))).execution_lane in
    record {
      risk = r.0;
      lane = r.1;
      placed =
          placed_lem state.risk_class state.preferred_execution_lane r.0 r.1
            (taken_lem state.security_profile _ known) refl;
      pool = refl;
      pool_tier = refl;
      sandbox = refl;
      egress = refl;
      priorities = (refl, refl);
      shared_read_only = (refl, refl, refl);
      reuse = refl;
      promotion = refl;
      promoted = refl;
      requested = (refl, refl);
      reason = r.3;
      fallback =
          fallback_lem (text_eq state.risk_class p.risk_class)
            (text_eq state.preferred_execution_lane p.execution_lane) _ state.security_profile _
            known (rw (← (r.0), ← (r.1)) at (r.2));
    }
