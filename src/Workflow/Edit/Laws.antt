-- ===== src/Workflow/Edit/Laws.antt =====
-- src/PafioWorkflow/Dependencies.cpp: what the edits do to the manifest.
use mathlib.Core.List.{append_assoc}
use spio.Prelude.{
  ◌+◌, Bytes, text_eq_iff, contains, contains-append, Bool, true, false, not, ◌&&◌, ◌||◌, Option,
  none, some, has_value, List, [], ◌∷◌, ◌++◌, map, ok, >>=-eq-ok, require, require-eq-ok, throw_if,
  throw_if-eq-ok, or_throw, is_empty, validation_error, ◌≡◌, ◌≢◌, refl, arith, All, ◌==◌,
}
use spio.Prelude.Distinct.{IsDistinct}
use spio.Prelude.Indexed.{map-++}
use spio.Patterns.{regex_match, name_regex, semver_regex}
use spio.Manifest.{path, git, registry, Dependency, PackageConfig}
use spio.Manifest.Load.{validate_package_name, validate_semver, is_non_empty_relative_path, one_if}
use spio.Manifest.Load.Form.{IsDependency, HasKind, IsPackage, ne_nil}
use spio.Workflow.{DependencySection, k_dependencies, k_dev_dependencies, AddDependencyRequest}
use spio.Workflow.Edit.{
  select_section, with_section, is_missing, is_present_empty, check_source, validate_add_request,
  has_alias, new_source_kind, new_dependency,
}

-- The aliases of all dependencies of a package.
abbrev pub aliases_of : PackageConfig → List Bytes
aliases_of config = map (λ d. d.alias) (config.dependencies ++ config.dev_dependencies)

module _ (is_absolute : Bytes → Bool) where
  source_git :
      (use_registry : Bool) (r : AddDependencyRequest) (alias : Bytes) {u : Unit {0}}
      → r.source ≢ []
      → check_source true use_registry r ≡ ok u
      → HasKind is_absolute git (new_dependency r alias)
  unfolding check_source new_dependency
  source_git use_registry r alias n h =
      let (_, a, h1) = >>=-eq-ok (throw_if (is_missing r.rev) validation_error) _ h in
      (
        n,
        rev_of r.rev (throw_if-eq-ok _ validation_error a),
        version_of r.version (throw_if-eq-ok _ validation_error h1),
      )
    where
      rev_of : (o : Option Bytes) → is_missing o ≡ false → (s : Bytes) × (o ≡ some s) × (s ≢ [])
      rev_of none e = cc
      rev_of (some s) e = (s, refl, ne_nil s e)

      version_of : (o : Option Bytes) → has_value o ≡ false → o ≡ none
      version_of none e = refl
      version_of (some s) e = cc

  source_registry :
      (r : AddDependencyRequest) (alias : Bytes) {u : Unit {0}}
      → check_source false true r ≡ ok u
      → HasKind is_absolute registry (new_dependency r alias)
  unfolding check_source new_dependency validate_semver
  source_registry r alias h =
      let (_, a, h1) = >>=-eq-ok (throw_if (has_value r.rev) validation_error) _ h in
      let (_, b, h2) = >>=-eq-ok (throw_if (is_missing r.version) validation_error) _ h1 in
      let (v, c, h3) = >>=-eq-ok (or_throw r.version validation_error) _ h2 in
      let (_, d, h4) = >>=-eq-ok (require (regex_match semver_regex v) validation_error) _ h3 in
      (
        require-eq-ok _ validation_error h4,
        none_of r.rev (throw_if-eq-ok _ validation_error a),
        (v, some_of r.version c, require-eq-ok _ validation_error d),
        λ q. cc,
      )
    where
      none_of : (o : Option Bytes) → has_value o ≡ false → o ≡ none
      none_of none e = refl
      none_of (some s) e = cc

      some_of : (o : Option Bytes) {v : Bytes} → or_throw o validation_error ≡ ok v → o ≡ some v
      some_of none e = cc
      some_of (some s) e = cc

  source_path :
      (r : AddDependencyRequest) (alias : Bytes) {u : Unit {0}}
      → is_non_empty_relative_path is_absolute r.source ≡ true
      → check_source false false r ≡ ok u
      → HasKind is_absolute path (new_dependency r alias)
  unfolding check_source new_dependency
  source_path r alias p h =
      let both = throw_if-eq-ok (has_value r.rev || has_value r.version) validation_error h in
      (p, none_of r.rev r.version both, none_too r.rev r.version both)
    where
      none_of : (o q : Option Bytes) → (has_value o || has_value q) ≡ false → o ≡ none
      none_of none q e = refl
      none_of (some s) q e = cc

      none_too : (o q : Option Bytes) → (has_value o || has_value q) ≡ false → q ≡ none
      none_too o none e = refl
      none_too none (some s) e = cc
      none_too (some t) (some s) e = cc

  source-HasKind :
      (use_git use_registry : Bool) (r : AddDependencyRequest) (alias : Bytes) {u : Unit {0}}
      → r.source ≢ []
      → ((not use_git && not use_registry) && not (is_non_empty_relative_path is_absolute r.source))
        ≡ false
      → check_source use_git use_registry r ≡ ok u
      → HasKind is_absolute (new_source_kind use_git use_registry) (new_dependency r alias)
  unfolding new_source_kind
  source-HasKind true use_registry r alias n p h = source_git use_registry r alias n h
  source-HasKind false true r alias n p h = source_registry r alias h
  source-HasKind false false r alias n p h = source_path r alias (ground arith) h

  -- A request that is accepted asks for a dependency of the right form.
  pub validate_add_request-IsDependency :
      (r : AddDependencyRequest) (alias : Bytes) {u : Unit {0}}
      → validate_add_request is_absolute r ≡ ok u
      → IsDependency is_absolute (new_dependency r alias)
  unfolding validate_add_request validate_package_name new_dependency
  validate_add_request-IsDependency r alias h =
      let is_path : Bool = not r.use_git && not r.use_registry in
      let (_, _, h1) = >>=-eq-ok (throw_if (is_present_empty r.alias) validation_error) _ h in
      let (_, b, h2) = >>=-eq-ok (throw_if (is_empty r.source) validation_error) _ h1 in
      let (_, c, h3) =
        >>=-eq-ok (require (regex_match name_regex r.package_name) validation_error) _ h2 in
      let (_, _, h4) =
        >>=-eq-ok
          (require (one_if r.use_git + one_if r.use_registry + one_if is_path == 1)
            validation_error)
          _ h3 in
      let (_, e, h5) =
        >>=-eq-ok
          (throw_if (is_path && not (is_non_empty_relative_path is_absolute r.source))
            validation_error)
          _ h4 in
      (
        require-eq-ok _ validation_error c,
        source-HasKind r.use_git r.use_registry r alias
            (ne_nil r.source (throw_if-eq-ok _ validation_error b))
            (throw_if-eq-ok _ validation_error e) h5,
      )

-- a new text between two parts of a list of distinct texts
IsDistinct-between :
    (k : Bytes) (xs ys : List Bytes)
    → contains k (xs ++ ys) ≡ false
    → IsDistinct (xs ++ ys)
    → IsDistinct ((xs ++ k ∷ []) ++ ys)
unfolding contains
IsDistinct-between k [] ys n d = (n, d)
IsDistinct-between k (x ∷ xs) ys n d = (
  ground (
    arith,
    n,
    d.0,
    text_eq_iff x k,
    text_eq_iff k x,
    contains-append x (xs ++ k ∷ []) ys,
    contains-append x xs (k ∷ []),
    contains-append x xs ys,
  ),
  IsDistinct-between k xs ys (ground (arith, n)) d.1,
)

IsDistinct-last :
    (k : Bytes) (xs : List Bytes)
    → contains k xs ≡ false
    → IsDistinct xs
    → IsDistinct (xs ++ k ∷ [])
unfolding contains
IsDistinct-last k [] n d = (refl, tt)
IsDistinct-last k (x ∷ xs) n d = (
  ground (arith, n, d.0, text_eq_iff x k, text_eq_iff k x, contains-append x xs (k ∷ [])),
  IsDistinct-last k xs (ground (arith, n)) d.1,
)

contains-has_alias :
    (k : Bytes) (ds : List Dependency) → contains k (map (λ d. d.alias) ds) ≡ has_alias k ds
unfolding contains has_alias
contains-has_alias k [] = refl
contains-has_alias k (d ∷ ds) = ground (arith, contains-has_alias k ds)

pub new_alias :
    (k : Bytes) (config : PackageConfig)
    → (has_alias k config.dependencies || has_alias k config.dev_dependencies) ≡ false
    → contains k (aliases_of config) ≡ false
new_alias k config h = rw (map-++ (λ d. d.alias) config.dependencies config.dev_dependencies) (
    ground (
      arith,
      h,
      contains-append k (map (λ d. d.alias) config.dependencies)
          (map (λ d. d.alias) config.dev_dependencies),
      contains-has_alias k config.dependencies,
      contains-has_alias k config.dev_dependencies,
    ))

module _ (is_absolute : Bytes → Bool) where
  pub section-IsPackage :
      (config : PackageConfig) (section : DependencySection) (ds : List Dependency)
      → IsPackage is_absolute config
      → All (IsDependency is_absolute) ds
      → IsPackage is_absolute (with_section config section ds)
  unfolding with_section
  section-IsPackage config k_dependencies ds p h = record {
    name = p.name;
    version = p.version;
    edition = p.edition;
    channel = p.channel;
    target = p.target;
    lib = p.lib;
    bins = p.bins;
    tests = p.tests;
    dependencies = h;
    dev_dependencies = p.dev_dependencies;
  }
  section-IsPackage config k_dev_dependencies ds p h = record {
    name = p.name;
    version = p.version;
    edition = p.edition;
    channel = p.channel;
    target = p.target;
    lib = p.lib;
    bins = p.bins;
    tests = p.tests;
    dependencies = p.dependencies;
    dev_dependencies = h;
  }

  pub section_of :
      (config : PackageConfig) (section : DependencySection)
      → IsPackage is_absolute config
      → All (IsDependency is_absolute) (select_section config section)
  unfolding select_section
  section_of config k_dependencies p = p.dependencies
  section_of config k_dev_dependencies p = p.dev_dependencies

  pub added-IsDistinct :
      (config : PackageConfig) (section : DependencySection) (d : Dependency)
      → contains d.alias (aliases_of config) ≡ false
      → IsDistinct (aliases_of config)
      → IsDistinct
          (aliases_of (with_section config section (select_section config section ++ d ∷ [])))
  unfolding with_section select_section
  added-IsDistinct config k_dependencies d n h =
      let deps : List Bytes = map (λ d. d.alias) config.dependencies in
      let dev : List Bytes = map (λ d. d.alias) config.dev_dependencies in
      let e = map-++ (λ d. d.alias) config.dependencies config.dev_dependencies in
      rw
        (
          map-++ (λ d. d.alias) (config.dependencies ++ d ∷ []) config.dev_dependencies,
          map-++ (λ d. d.alias) config.dependencies (d ∷ []),
        )
        (IsDistinct-between d.alias deps dev (rw e at n) (rw e at h))
  added-IsDistinct config k_dev_dependencies d n h =
      rw
        (
          ← (append_assoc config.dependencies config.dev_dependencies (d ∷ [])),
          map-++ (λ d. d.alias) (config.dependencies ++ config.dev_dependencies) (d ∷ []),
        )
        (IsDistinct-last d.alias (aliases_of config) n h)
