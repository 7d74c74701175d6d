-- ===== src/Cloud/Execution.antt =====
-- src/PafioCloud/Execution.cpp: `ResolveCloudExecutionPolicy`. What the code asks the platform and
-- the environment for is a record.
pub mod Laws
use spio.Prelude.{
  Bytes, text, text_eq, is_empty, Bool, true, false, not, ◌&&◌, ◌||◌, Option, none, some, ◌++◌,
  if◌then◌else◌, value_or,
}
use spio.Toolchain.{
  ProjectToolchainState, vocabulary_contains, supported_cloud_risk_classes,
  supported_cloud_execution_lanes, supported_cloud_security_profiles,
}

pub record SharedCachePolicy : Type 0 where
  pub shared_toolchain_read_only : Bool
  pub shared_source_read_only : Bool
  pub shared_registry_read_only : Bool
  pub worker_local_reuse : Bool
  pub shared_cache_promotion_eligible : Bool
  pub promotion_policy : Bytes

pub record WorkerPoolKey : Type 0 where
  pub platform : Bytes
  pub architecture : Bytes
  pub execution_lane : Bytes
  pub worker_trust_tier : Bytes
  pub toolchain_mode : Bytes
  pub channel : Bytes
  pub build_mode : Bytes
  pub compiler_fingerprint : Bytes
  pub base_image_revision : Bytes

pub record CloudExecutionPolicy : Type 0 where
  pub risk_class : Bytes
  pub requested_execution_lane : Bytes
  pub execution_lane : Bytes
  pub worker_trust_tier : Bytes
  pub requested_security_profile : Bytes
  pub security_profile : Bytes
  pub fallback_applied : Bool
  pub platform_protection_priority : Bool
  pub tenant_isolation_priority : Bool
  pub network_egress_default_deny : Bool
  pub requires_container_sandbox : Bool
  pub routing_reason : Bytes
  pub cache_policy : SharedCachePolicy
  pub worker_pool_key : WorkerPoolKey

-- what the preprocessor selects, and the variable PAFIO_CLOUD_BASE_IMAGE_REVISION
pub record Host : Type 0 where
  pub platform : Bytes
  pub architecture : Bytes
  pub base_image_revision : Option Bytes

unfoldable pub default_security_profile : Bytes → Bytes → Bytes
default_security_profile risk_class execution_lane =
    if text_eq execution_lane (text "warm-shared")
    then text "trusted-warm"
    else if text_eq risk_class (text "partner-controlled")
    then text "partner-restricted"
    else text "sandbox-default"

unfoldable pub default_worker_trust_tier : Bytes → Bytes → Bytes
default_worker_trust_tier risk_class execution_lane =
    if text_eq execution_lane (text "warm-shared")
    then text "internal-warm"
    else if text_eq risk_class (text "trusted-internal")
    then text "trusted-isolated"
    else if text_eq risk_class (text "partner-controlled")
    then text "partner-isolated"
    else text "untrusted-isolated"

unfoldable pub compiler_fingerprint_for_state : ProjectToolchainState → Bytes
compiler_fingerprint_for_state state =
    if text_eq state.mode (text "build")
    then value_or state.source_revision (text "source-revision-unset")
    else text "published-" ++ (state.channel ++ (text "-" ++ state.build_mode))

unfoldable pub detect_cloud_base_image_revision : Host → Bytes
detect_cloud_base_image_revision host = elim host.base_image_revision [
  | none ↦ text "dev-unset"
  | some revision ↦ if is_empty revision then text "dev-unset" else revision
]

-- what the guards of the function change
pub record Routing : Type 0 where
  pub risk_class : Bytes
  pub execution_lane : Bytes
  pub fallback_applied : Bool
  pub routing_reason : Bytes

unfoldable pub start_routing : ProjectToolchainState → Routing
start_routing state = record {
  risk_class = state.risk_class;
  execution_lane = state.preferred_execution_lane;
  fallback_applied = false;
  routing_reason = text "";
}

-- `if (!IsSupportedCloudRiskClass(policy.risk_class))`
unfoldable pub known_risk : Routing → Routing
known_risk r =
    if vocabulary_contains r.risk_class supported_cloud_risk_classes then r else record r {
      risk_class = text "untrusted-user";
      fallback_applied = true;
      routing_reason = text "unknown risk class fell back to untrusted-user";
    }

-- `if (!IsSupportedCloudExecutionLane(policy.execution_lane))`
unfoldable pub known_lane : Routing → Routing
known_lane r =
    if vocabulary_contains r.execution_lane supported_cloud_execution_lanes then r else record r {
      execution_lane = text "isolated";
      fallback_applied = true;
      routing_reason = text "unknown execution lane fell back to isolated";
    }

-- the chain of guards on the class and the lane
unfoldable pub allowed_lane : Routing → Routing
allowed_lane r =
    if text_eq r.risk_class (text "untrusted-user")
      && not (text_eq r.execution_lane (text "isolated"))
    then record r {
      execution_lane = text "isolated";
      fallback_applied = true;
      routing_reason = text "untrusted-user jobs require isolated execution";
    }
    else if text_eq r.risk_class (text "partner-controlled")
        && text_eq r.execution_lane (text "warm-shared")
    then record r {
      execution_lane = text "isolated";
      fallback_applied = true;
      routing_reason =
          text "partner-controlled jobs require explicit allowlist before warm-shared execution";
    }
    else if is_empty r.routing_reason
    then record r {
      routing_reason =
          if text_eq r.execution_lane (text "warm-shared")
          then text "trusted internal workload is eligible for warm-shared execution"
          else text
              "default isolated execution protects the platform before enabling warm-shared reuse";
    }
    else r

-- the security profile and whether it is not the requested one
unfoldable pub replaces_profile : Bytes → Bytes → Bool
replaces_profile requested expected =
    not (vocabulary_contains requested supported_cloud_security_profiles)
    || not (text_eq requested expected)

unfoldable pub policy_of : Host → ProjectToolchainState → Routing → CloudExecutionPolicy
unfolding default_security_profile default_worker_trust_tier compiler_fingerprint_for_state
    detect_cloud_base_image_revision replaces_profile
policy_of host state r =
    let expected_security = default_security_profile r.risk_class r.execution_lane in
    let tier = default_worker_trust_tier r.risk_class r.execution_lane in
    record {
      risk_class = r.risk_class;
      requested_execution_lane = state.preferred_execution_lane;
      execution_lane = r.execution_lane;
      worker_trust_tier = tier;
      requested_security_profile = state.security_profile;
      security_profile =
          if replaces_profile state.security_profile expected_security
          then expected_security
          else state.security_profile;
      fallback_applied =
          r.fallback_applied || replaces_profile state.security_profile expected_security;
      platform_protection_priority = true;
      tenant_isolation_priority = true;
      network_egress_default_deny = true;
      requires_container_sandbox = true;
      routing_reason = r.routing_reason;
      cache_policy = record {
        shared_toolchain_read_only = true;
        shared_source_read_only = true;
        shared_registry_read_only = true;
        worker_local_reuse = text_eq r.execution_lane (text "warm-shared");
        shared_cache_promotion_eligible = text_eq r.risk_class (text "trusted-internal");
        promotion_policy = text "verified-only";
      };
      worker_pool_key = record {
        platform = host.platform;
        architecture = host.architecture;
        execution_lane = r.execution_lane;
        worker_trust_tier = tier;
        toolchain_mode = state.mode;
        channel = state.channel;
        build_mode = state.build_mode;
        compiler_fingerprint = compiler_fingerprint_for_state state;
        base_image_revision = detect_cloud_base_image_revision host;
      };
    }

unfoldable pub resolve_cloud_execution_policy : Host → ProjectToolchainState → CloudExecutionPolicy
unfolding start_routing known_risk known_lane allowed_lane policy_of
resolve_cloud_execution_policy host state =
    policy_of host state (allowed_lane (known_lane (known_risk (start_routing state))))
