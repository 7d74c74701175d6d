-- ===== src/Tests/Settings.antt =====
-- Tests: toolchain settings and cloud jobs.
use spio.Prelude.{
  text, text_eq, true, none, some, Result, ok, err, validation_error, ◌≡◌, refl, ◌⊎◌, contains,
}
use spio.Toolchain.{
  supported_toolchain_modes, supported_channels, supported_build_modes,
  supported_cloud_risk_classes, supported_cloud_execution_lanes, supported_cloud_security_profiles,
  ProjectToolchainState,
}
use spio.Toolchain.State.{load_project_toolchain_state, update_project_toolchain_state}
use spio.Toolchain.State.Laws.{
  IsLoaded, IsSupported, IsUpdateOf, load_project_toolchain_state-IsLoaded,
  update_project_toolchain_state-written,
}
use spio.Cloud.Execution.{resolve_cloud_execution_policy}
use spio.Cloud.Execution.Laws.{IsSafe, resolve_cloud_execution_policy-IsSafe}
use spio.Cloud.Job.{CloudBuildJobRequest, build_cloud_build_job_request}
use spio.Cloud.Job.Laws.{IsInvocation, IsJobOf, build_cloud_build_job_request_lem}
use spio.Tests.Document.{document_toml}
use spio.Tests.Project.{run_app, warm_state, a_host, plain_options, state_document, to_build}

load_project_toolchain_state-IsLoaded_example :
    IsLoaded document_toml (text "m") (text "p") (some (text "s", some state_document)) (
      load_project_toolchain_state document_toml
        (text "m")
        (text "p")
        (some (text "s", some state_document)))
load_project_toolchain_state-IsLoaded_example =
    load_project_toolchain_state-IsLoaded document_toml (text "m") (text "p")
      (some (text "s", some state_document))

abbrev updated_state : ProjectToolchainState
updated_state = record {
  manifest_path = text "m";
  state_path = text "p";
  state_file_exists = true;
  mode = text "build";
  channel = text "stable";
  build_mode = text "minimal";
  risk_class = text "untrusted-user";
  preferred_execution_lane = text "isolated";
  security_profile = text "sandbox-default";
  source_revision = none;
}

abbrev no_error : Result (Unit {0})
no_error = ok tt

updated_lem :
    update_project_toolchain_state document_toml
      (text "m")
      (text "p")
      none
      (ok tt)
      (λ path c. ok tt)
      to_build
    ≡ ok updated_state
unfolding update_project_toolchain_state contains supported_toolchain_modes text_eq
    supported_channels supported_build_modes supported_cloud_risk_classes
    supported_cloud_execution_lanes supported_cloud_security_profiles
updated_lem = refl

update_project_toolchain_state-written_example :
    (loaded : ProjectToolchainState) × (load_project_toolchain_state document_toml
        (text "m")
        (text "p")
        none
      ≡ ok loaded)
    × (no_error ≡ ok tt)
    × IsSupported updated_state
    × IsUpdateOf to_build (text "p") loaded updated_state
    × (no_error ≡ ok tt)
update_project_toolchain_state-written_example =
    update_project_toolchain_state-written document_toml (text "m") (text "p") none (ok tt)
      (λ path c. ok tt) to_build updated_state updated_lem

resolve_cloud_execution_policy-IsSafe_example :
    IsSafe warm_state (resolve_cloud_execution_policy a_host warm_state)
resolve_cloud_execution_policy-IsSafe_example =
    resolve_cloud_execution_policy-IsSafe a_host warm_state

build_cloud_build_job_request_lem_example :
    ((¬ IsInvocation (text "run") run_app warm_state plain_options)
      × (build_cloud_build_job_request none
            (text "run")
            run_app
            warm_state
            plain_options
            (resolve_cloud_execution_policy a_host warm_state)
          ≡ err validation_error))
    ⊎ ((job : CloudBuildJobRequest) × (build_cloud_build_job_request none
            (text "run")
            run_app
            warm_state
            plain_options
            (resolve_cloud_execution_policy a_host warm_state)
          ≡ ok job)
        × IsInvocation (text "run") run_app warm_state plain_options
        × IsJobOf none
            (text "run")
            run_app
            warm_state
            plain_options
            (resolve_cloud_execution_policy a_host warm_state)
            job)
build_cloud_build_job_request_lem_example =
    build_cloud_build_job_request_lem none (text "run") run_app warm_state plain_options
      (resolve_cloud_execution_policy a_host warm_state)
