-- ===== src/Cloud/Job.antt =====
-- src/PafioCloud/Job.cpp: `ValidateWorkflowInvocationImpl` and `BuildCloudBuildJobRequest`.
pub mod Laws
use spio.Prelude.{
  Bytes, text, text_eq, is_empty, Bool, true, false, not, ◌&&◌, ◌||◌, Option, none, some,
  if◌then◌else◌, has_value, Result, ok, err, validation_error, ◌>>=◌, ◌>>◌, throw_if,
}
use spio.Toolchain.{ProjectToolchainState, vocabulary_contains, supported_build_modes}
use spio.Plan.Select.{BuildPlanRequest}
use spio.Cloud.Execution.{CloudExecutionPolicy}

pub record WorkflowInvocationOptions : Type 0 where
  pub locked : Bool
  pub offline : Bool
  pub styio_bin : Option Bytes
  pub allow_fetch : Bool
  pub assume_yes : Bool
  pub non_interactive : Bool
  pub source_root : Option Bytes
  pub source_revision : Option Bytes

pub record CloudJobTargetSelection : Type 0 where
  pub package_name : Option Bytes
  pub bin_name : Option Bytes
  pub test_name : Option Bytes
  pub select_lib : Bool

pub record CloudJobSourceSelection : Type 0 where
  pub origin : Bytes
  pub explicit_source_root : Option Bytes
  pub requested_revision : Option Bytes
  pub resolved_revision : Option Bytes
  pub allow_fetch : Bool
  pub assume_yes : Bool
  pub non_interactive : Bool
  pub offline : Bool

-- `schema_version_` and `api_path_` are constants of the class.
pub record CloudBuildJobRequest : Type 0 where
  pub action : Bytes
  pub manifest_path : Bytes
  pub toolchain_mode : Bytes
  pub channel : Bytes
  pub build_mode : Bytes
  pub profile : Bytes
  pub locked : Bool
  pub offline : Bool
  pub target : CloudJobTargetSelection
  pub source : CloudJobSourceSelection
  pub cloud_policy : CloudExecutionPolicy

unfoldable pub effective_build_mode : BuildPlanRequest → ProjectToolchainState → Bytes
effective_build_mode request state =
    if is_empty request.build_mode then state.build_mode else request.build_mode

unfoldable pub has_source_options : WorkflowInvocationOptions → Bool
has_source_options o =
    o.assume_yes
    || not o.allow_fetch
    || o.non_interactive
    || has_value o.source_root
    || has_value o.source_revision

-- The returned messages, which the caller throws as a `ValidationError`, in the code's order.
unfoldable pub validate_workflow_invocation :
    Bytes → BuildPlanRequest → ProjectToolchainState → WorkflowInvocationOptions → Result (Unit {0})
unfolding effective_build_mode has_source_options
validate_workflow_invocation action request state o =
    let mode = effective_build_mode request state in
    let is_run = text_eq action (text "run") in
    let is_test = text_eq action (text "test") in
    let is_build = text_eq action (text "build") in
    throw_if (not is_build && (not is_run && not is_test)) validation_error
    >> throw_if (is_empty mode || not (vocabulary_contains mode supported_build_modes))
        validation_error
    >> throw_if (text_eq state.mode (text "binary") && has_source_options o) validation_error
    >> throw_if (text_eq state.mode (text "build") && has_value o.styio_bin) validation_error
    >> throw_if (is_run && request.select_lib) validation_error
    >> throw_if (is_run && has_value request.test_name) validation_error
    >> throw_if (is_test && request.select_lib) validation_error
    >> throw_if (is_test && has_value request.bin_name) validation_error
    >> throw_if (is_build && has_value request.test_name) validation_error

-- the argument is the variable PAFIO_STYIO_SOURCE_ORIGIN
unfoldable pub resolve_source_origin_baseline : Option Bytes → Bytes
resolve_source_origin_baseline none = text "https://github.com/SymPolicy/Styio.git"
resolve_source_origin_baseline (some origin) =
    if is_empty origin then text "https://github.com/SymPolicy/Styio.git" else origin

-- the members of the request, once the invocation is valid
unfoldable pub fill_job_request :
    Option Bytes
    → Bytes
    → BuildPlanRequest
    → ProjectToolchainState
    → WorkflowInvocationOptions
    → CloudExecutionPolicy
    → CloudBuildJobRequest
unfolding effective_build_mode resolve_source_origin_baseline
fill_job_request origin action request state o policy =
    let mode : Bytes = effective_build_mode request state in
    record {
      action = action;
      manifest_path = request.manifest_path;
      toolchain_mode = state.mode;
      channel = state.channel;
      build_mode = if is_empty mode then text "minimal" else mode;
      profile = request.profile;
      locked = o.locked;
      offline = o.offline;
      target = record {
        package_name = request.package_name;
        bin_name = request.bin_name;
        test_name = request.test_name;
        select_lib = request.select_lib;
      };
      source = record {
        origin = resolve_source_origin_baseline origin;
        explicit_source_root = o.source_root;
        requested_revision = o.source_revision;
        resolved_revision = state.source_revision;
        allow_fetch = o.allow_fetch;
        assume_yes = o.assume_yes;
        non_interactive = o.non_interactive;
        offline = o.offline;
      };
      cloud_policy = policy;
    }

unfoldable pub build_cloud_build_job_request :
    Option Bytes
    → Bytes
    → BuildPlanRequest
    → ProjectToolchainState
    → WorkflowInvocationOptions
    → CloudExecutionPolicy
    → Result CloudBuildJobRequest
unfolding validate_workflow_invocation fill_job_request
build_cloud_build_job_request origin action request state o policy = do
  validate_workflow_invocation action request state o
  ok (fill_job_request origin action request state o policy)
