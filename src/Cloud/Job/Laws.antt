-- ===== src/Cloud/Job/Laws.antt =====
-- src/PafioCloud/Job.cpp: the invocations that are valid, and the jobs of these.
use spio.Prelude.{
  Bytes, text, text_eq, contains, is_empty, Bool, true, false, not, ◌&&◌, ◌||◌, Option, none, some,
  [], ◌∷◌, if◌then◌else◌, has_value, Result, ok, err, Error, validation_error, ◌>>◌, throw_if, ◌≡◌,
  refl, sym, arith, text_eq_iff, ap, Bool-cases, inl, inr, ◌⊎◌, Result-cases,
}
use spio.Toolchain.{ProjectToolchainState, supported_build_modes}
use spio.Plan.Select.{BuildPlanRequest}
use spio.Cloud.Execution.{CloudExecutionPolicy}
use spio.Cloud.Job.{
  WorkflowInvocationOptions, CloudBuildJobRequest, validate_workflow_invocation, has_source_options,
  effective_build_mode, resolve_source_origin_baseline, fill_job_request,
  build_cloud_build_job_request,
}

-- Checks in a row, all passed.
all_pass :
    (a b c d e f g h k : Bool) (x : Error) {u : Unit {0}}
    → (throw_if a x
        >> throw_if b x
        >> throw_if c x
        >> throw_if d x
        >> throw_if e x
        >> throw_if f x
        >> throw_if g x
        >> throw_if h x
        >> throw_if k x)
      ≡ ok u
    → (a ≡ false)
      × (b ≡ false)
      × (c ≡ false)
      × (d ≡ false)
      × (e ≡ false)
      × (f ≡ false)
      × (g ≡ false)
      × (h ≡ false)
      × (k ≡ false)
all_pass a b c d e f g h k x p = ground arith

-- What holds of the arguments of a valid invocation.
pub record IsInvocation (action : Bytes) (request : BuildPlanRequest)
    (state : ProjectToolchainState) (o : WorkflowInvocationOptions) : Type 0 where
  pub action_known : contains action (text "build" ∷ text "run" ∷ text "test" ∷ []) ≡ true
  pub mode : effective_build_mode request state ≡ text "minimal"
  pub binary : state.mode ≡ text "binary" → has_source_options o ≡ false
  pub built : state.mode ≡ text "build" → o.styio_bin ≡ none
  pub run_target : action ≡ text "run" → (request.select_lib ≡ false) × (request.test_name ≡ none)
  pub test_target : action ≡ text "test" → (request.select_lib ≡ false) × (request.bin_name ≡ none)
  pub build_target : action ≡ text "build" → request.test_name ≡ none

none_of {ℓ} : {A : Type ℓ} (o : Option A) → has_value o ≡ false → o ≡ none
none_of none h = refl
none_of (some a) h = cc

implied : (s t : Bytes) (b : Bool) → (text_eq s t && b) ≡ false → s ≡ t → b ≡ false
implied s t b h e = ground (arith, text_eq_iff s t)

eq_sym : (s t : Bytes) → text_eq s t ≡ text_eq t s
eq_sym s t = ground (arith, text_eq_iff s t, text_eq_iff t s)

minimal :
    (m : Bytes)
    → (is_empty m || not (contains m supported_build_modes)) ≡ false
    → m ≡ text "minimal"
unfolding contains supported_build_modes
minimal m h = sym ((text_eq_iff (text "minimal") m).0 (ground arith))

validate-IsInvocation :
    (action : Bytes) (request : BuildPlanRequest) (state : ProjectToolchainState)
    (o : WorkflowInvocationOptions) {u : Unit {0}}
    → validate_workflow_invocation action request state o ≡ ok u
    → IsInvocation action request state o
unfolding validate_workflow_invocation contains
validate-IsInvocation action request state o h =
    let mode = effective_build_mode request state in
    let is_run = text_eq action (text "run") in
    let is_test = text_eq action (text "test") in
    let is_build = text_eq action (text "build") in
    let p =
      all_pass (not is_build && (not is_run && not is_test))
        (is_empty mode || not (contains mode supported_build_modes))
        (text_eq state.mode (text "binary") && has_source_options o)
        (text_eq state.mode (text "build") && has_value o.styio_bin) (is_run && request.select_lib)
        (is_run && has_value request.test_name) (is_test && request.select_lib)
        (is_test && has_value request.bin_name) (is_build && has_value request.test_name)
        validation_error h in
    record {
      action_known = ground (
        arith,
        p.0,
        eq_sym action (text "build"),
        eq_sym action (text "run"),
        eq_sym action (text "test"),
      );
      mode = minimal (effective_build_mode request state) p.1;
      binary = implied state.mode (text "binary") (has_source_options o) p.2;
      built = λ x. none_of o.styio_bin (implied state.mode (text "build") _ p.3 x);
      run_target = λ x. (
        implied action (text "run") request.select_lib p.4 x,
        none_of request.test_name (implied action (text "run") _ p.5 x),
      );
      test_target = λ x. (
        implied action (text "test") request.select_lib p.6 x,
        none_of request.bin_name (implied action (text "test") _ p.7 x),
      );
      build_target = λ x. none_of request.test_name (implied action (text "build") _ p.8 x);
    }

excluded : (s t : Bytes) (b : Bool) → (s ≡ t → b ≡ false) → (text_eq s t && b) ≡ false
excluded s t b h = elim (Bool-cases (text_eq s t)) [
  | inl e ↦ rw e (h ((text_eq_iff s t).0 e))
  | inr e ↦ rw e refl
]

absent {ℓ} : {A : Type ℓ} (o : Option A) → o ≡ none → has_value o ≡ false
absent none e = refl
absent (some a) e = cc

known_action :
    (action : Bytes)
    → contains action (text "build" ∷ text "run" ∷ text "test" ∷ []) ≡ true
    → (not (text_eq action (text "build"))
        && (not (text_eq action (text "run")) && not (text_eq action (text "test"))))
      ≡ false
unfolding contains
known_action action h =
    ground
      (arith, eq_sym action (text "build"), eq_sym action (text "run"), eq_sym action (text "test"))

validate_lem :
    (action : Bytes) (request : BuildPlanRequest) (state : ProjectToolchainState)
    (o : WorkflowInvocationOptions)
    → IsInvocation action request state o
    → validate_workflow_invocation action request state o ≡ ok tt
unfolding validate_workflow_invocation
validate_lem action request state o h =
    let m : (is_empty (effective_build_mode request state)
          || not (contains (effective_build_mode request state) supported_build_modes))
        ≡ false =
      rw (h.mode) (unfold contains supported_build_modes text_eq in refl) in
    rw
      (
        known_action action h.action_known,
        m,
        excluded state.mode (text "binary") (has_source_options o) h.binary,
        excluded state.mode (text "build") (has_value o.styio_bin) (λ e. absent _ (h.built e)),
        excluded action (text "run") request.select_lib (λ e. (h.run_target e).0),
        excluded action (text "run") (has_value request.test_name)
            (λ e. absent _ (h.run_target e).1),
        excluded action (text "test") request.select_lib (λ e. (h.test_target e).0),
        excluded action (text "test") (has_value request.bin_name)
            (λ e. absent _ (h.test_target e).1),
        excluded action (text "build") (has_value request.test_name)
            (λ e. absent _ (h.build_target e)),
      )
      refl

contra : {m : Result (Unit {0})} {e : Error} → m ≡ err e → m ≡ ok tt → ⊥
contra p q = cc

all_fail :
    (a b c d e f g h k : Bool) (x : Error) {y : Error}
    → (throw_if a x
        >> throw_if b x
        >> throw_if c x
        >> throw_if d x
        >> throw_if e x
        >> throw_if f x
        >> throw_if g x
        >> throw_if h x
        >> throw_if k x)
      ≡ err y
    → y ≡ x
all_fail a b c d e f g h k x p = ground arith

fails :
    (action : Bytes) (request : BuildPlanRequest) (state : ProjectToolchainState)
    (o : WorkflowInvocationOptions) (e : Error)
    → validate_workflow_invocation action request state o ≡ err e
    → e ≡ validation_error
unfolding validate_workflow_invocation
fails action request state o e h =
    let mode = effective_build_mode request state in
    let is_run = text_eq action (text "run") in
    let is_test = text_eq action (text "test") in
    let is_build = text_eq action (text "build") in
    all_fail (not is_build && (not is_run && not is_test))
      (is_empty mode || not (contains mode supported_build_modes))
      (text_eq state.mode (text "binary") && has_source_options o)
      (text_eq state.mode (text "build") && has_value o.styio_bin) (is_run && request.select_lib)
      (is_run && has_value request.test_name) (is_test && request.select_lib)
      (is_test && has_value request.bin_name) (is_build && has_value request.test_name)
      validation_error h

filled_mode :
    (m : Bytes) → m ≡ text "minimal" → (if is_empty m then text "minimal" else m) ≡ text "minimal"
filled_mode m e = rw e refl

-- What a job takes from the arguments.
pub record IsJobOf (origin : Option Bytes) (action : Bytes) (request : BuildPlanRequest)
    (state : ProjectToolchainState) (o : WorkflowInvocationOptions) (policy : CloudExecutionPolicy)
    (job : CloudBuildJobRequest) : Type 0 where
  pub action_of : job.action ≡ action
  pub manifest : job.manifest_path ≡ request.manifest_path
  pub toolchain : (job.toolchain_mode ≡ state.mode) × (job.channel ≡ state.channel)
  pub mode : job.build_mode ≡ text "minimal"
  pub profile : job.profile ≡ request.profile
  pub locked : job.locked ≡ o.locked
  pub offline : (job.offline ≡ o.offline) × (job.source.offline ≡ o.offline)
  pub target_package : job.target.package_name ≡ request.package_name
  pub target_bin : job.target.bin_name ≡ request.bin_name
  pub target_test : job.target.test_name ≡ request.test_name
  pub target_lib : job.target.select_lib ≡ request.select_lib
  pub source_origin :
      ((o' : Bytes) × (origin ≡ some o') × (is_empty o' ≡ false) × (job.source.origin ≡ o'))
      ⊎ (((origin ≡ none) ⊎ (origin ≡ some []))
          × (job.source.origin ≡ text "https://github.com/SymPolicy/Styio.git"))
  pub source_root : job.source.explicit_source_root ≡ o.source_root
  pub source_requested : job.source.requested_revision ≡ o.source_revision
  pub source_resolved : job.source.resolved_revision ≡ state.source_revision
  pub source_fetch : job.source.allow_fetch ≡ o.allow_fetch
  pub source_assent :
      (job.source.assume_yes ≡ o.assume_yes) × (job.source.non_interactive ≡ o.non_interactive)
  pub policy_of : job.cloud_policy ≡ policy

origin_lem :
    (origin : Option Bytes)
    → ((o : Bytes) × (origin ≡ some o)
        × (is_empty o ≡ false)
        × (resolve_source_origin_baseline origin ≡ o))
      ⊎ (((origin ≡ none) ⊎ (origin ≡ some []))
          × (resolve_source_origin_baseline origin ≡ text "https://github.com/SymPolicy/Styio.git"))
unfolding resolve_source_origin_baseline
origin_lem none = inr (inl refl, refl)
origin_lem (some []) = inr (inr refl, refl)
origin_lem (some (c ∷ s)) = inl (c ∷ s, refl, refl, refl)

job-IsJobOf :
    (origin : Option Bytes) (action : Bytes) (request : BuildPlanRequest)
    (state : ProjectToolchainState) (o : WorkflowInvocationOptions) (policy : CloudExecutionPolicy)
    → effective_build_mode request state ≡ text "minimal"
    → IsJobOf origin action request state o policy
        (fill_job_request origin action request state o policy)
unfolding fill_job_request
job-IsJobOf origin action request state o policy m = record {
  action_of = refl;
  manifest = refl;
  toolchain = (refl, refl);
  mode = filled_mode (effective_build_mode request state) m;
  profile = refl;
  locked = refl;
  offline = (refl, refl);
  target_package = refl;
  target_bin = refl;
  target_test = refl;
  target_lib = refl;
  source_origin = origin_lem origin;
  source_root = refl;
  source_requested = refl;
  source_resolved = refl;
  source_fetch = refl;
  source_assent = (refl, refl);
  policy_of = refl;
}

-- Of a valid invocation the job is built, in the mode "minimal", and has each member of its target
-- and of its source, the manifest, the profile, the channel, the flags and the policy of its
-- arguments, with the public repository as the origin where the environment names none; of any other
-- invocation there is a `ValidationError`.
pub build_cloud_build_job_request_lem :
    (origin : Option Bytes) (action : Bytes) (request : BuildPlanRequest)
    (state : ProjectToolchainState) (o : WorkflowInvocationOptions) (policy : CloudExecutionPolicy)
    → ((¬ IsInvocation action request state o)
        × (build_cloud_build_job_request origin action request state o policy
            ≡ err validation_error))
      ⊎ ((job : CloudBuildJobRequest) × (build_cloud_build_job_request origin action request state o
              policy
            ≡ ok job)
          × IsInvocation action request state o
          × IsJobOf origin action request state o policy job)
unfolding build_cloud_build_job_request
build_cloud_build_job_request_lem origin action request state o policy =
    elim (Result-cases (validate_workflow_invocation action request state o)) [
      | inl (u, p) ↦
          let valid = validate-IsInvocation action request state o p in
          inr (
            fill_job_request origin action request state o policy,
            rw p refl,
            valid,
            job-IsJobOf origin action request state o policy valid.mode,
          )
      | inr (e, p) ↦ inl (
        (λ valid. contra p (validate_lem action request state o valid)),
        rw p (ap err (fails action request state o e p)),
      )
    ]
