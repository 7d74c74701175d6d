-- ===== src/Workflow/Commit.antt =====
-- src/PafioWorkflow/Dependencies.cpp: `CommitManifestEdit`, which writes manifest and lockfile or
-- puts both back, and the three commands around it.
pub mod Atomic
pub mod Success
use spio.Prelude.{
  ℕ, zero, suc, ◌+◌, Bytes, text, text_eq, Bool, true, false, Option, none, some, value_or, List,
  [], ◌∷◌, Result, ok, or_throw, require, throw_if, validation_error, runtime_error, length,
  is_empty, if◌then◌else◌,
}
use spio.Prelude.Action.{
  Outcome, returned, threw, cut_off, Action, ◌>>=◌, ◌>>◌, give, from_result, ask, attempt, modify,
}
use spio.Manifest.{PackageConfig, ManifestDocument}
use spio.Manifest.Write.{serialize_manifest_canonical}
use spio.Lockfile.{LockPackage}
use spio.Lockfile.Write.{serialize_lockfile_canonical}
use spio.Resolve.{ResolveOptions, LockGenerationResult}
use spio.Resolve.Machine.{Machine, load}
use spio.Resolve.Run.{resolve_single_version_lockfile}
use spio.Workflow.{
  DependencySection, AddDependencyRequest, RemoveDependencyRequest, DependencyCommandResult,
  FetchCommandResult,
}
use spio.Workflow.Edit.{
  MatchLocation, validate_add_request, package_short_name, add_to_package, remove_from_package,
}

-- What `std::ofstream out(path); out << content;` does.
pub data Written (S : Type 0) : Type 0 where
  not_opened : Written S
  failed : S → Written S
  written : S → Written S

-- `read` is none where the file cannot be opened.
pub record Files (S : Type 0) : Type 0 where
  pub read : Bytes → S → Option Bytes
  pub write : Bytes → Bytes → S → Written S

abbrev after_write : {S : Type 0} → S → Written S → Outcome S (Unit {0})
after_write s not_opened = threw runtime_error s
after_write s (failed t) = threw runtime_error t
after_write s (written t) = returned tt t

-- `catch (...) { undo; throw; }`: an exception of `undo` takes the place of the first.
abbrev pub caught : {S A : Type 0} → Action S (Unit {0}) → Outcome S A → Outcome S A
caught undo (returned a s) = returned a s
caught undo (threw e s) = (undo >>= λ u. threw e) s
caught undo cut_off = cut_off

module _ (machine : Machine) (files : Files machine.State) (version : Bytes)
    (pafio_home : Result Bytes) (fuel : ℕ) where
  open machine use {State, is_absolute, parent_path, append, exists, try_remove}
  open files use {read, write}

  unfoldable pub read_file : Bytes → Action State Bytes
  read_file path = attempt λ s. or_throw (read path s) runtime_error

  unfoldable pub write_file : Bytes → Bytes → Action State (Unit {0})
  write_file path content s = after_write s (write path content s)

  unfoldable pub restore_lockfile : Bytes → Option Bytes → Action State (Unit {0})
  unfolding write_file
  restore_lockfile lockfile_path (some original) = write_file lockfile_path original
  restore_lockfile lockfile_path none = modify (try_remove lockfile_path)

  -- the handler
  unfoldable pub restore : Bytes → Bytes → Bytes → Option Bytes → Action State (Unit {0})
  unfolding restore_lockfile
  restore manifest_path lockfile_path original_manifest original_lock = do
    write_file manifest_path original_manifest
    restore_lockfile lockfile_path original_lock

  -- the `try` block
  unfoldable pub write_edit :
      Bytes
      → ManifestDocument
      → Bytes
      → Bytes
      → DependencySection
      → Action State DependencyCommandResult
  unfolding write_file resolve_single_version_lockfile
  write_edit manifest_path manifest alias package_name section = do
    write_file manifest_path (serialize_manifest_canonical manifest)
    generated ←
        resolve_single_version_lockfile machine version pafio_home fuel manifest_path
          record { offline = false; vendor_root = none }
    write_file generated.lockfile_path (serialize_lockfile_canonical generated.lockfile)
    give (record {
      manifest_path = generated.manifest_path;
      lockfile_path = generated.lockfile_path;
      alias = alias;
      package_name = package_name;
      section = section;
      package_count = length generated.lockfile.packages;
    })

  abbrev pub lockfile_beside : Bytes → Bytes
  lockfile_beside manifest_path = append (parent_path manifest_path) (text "pafio.lock")

  unfoldable pub commit_manifest_edit :
      Bytes
      → Bytes
      → Option Bytes
      → ManifestDocument
      → Bytes
      → Bytes
      → DependencySection
      → Action State DependencyCommandResult
  unfolding write_edit restore
  commit_manifest_edit manifest_path original_manifest original_lock manifest alias package_name
        section s =
      caught (restore manifest_path (lockfile_beside manifest_path) original_manifest original_lock)
        (write_edit manifest_path manifest alias package_name section s)

  -- `fs::exists(path) ? ReadFile(path) : nullopt`
  read_if : Bool → Bytes → Action State (Option Bytes)
  unfolding read_file
  read_if true path = do content ← read_file path; give (some content)
  read_if false path = give none

  unfoldable pub read_lockfile : Bytes → Action State (Option Bytes)
  unfolding read_if
  read_lockfile lockfile_path = do
    present ← ask (exists lockfile_path)
    read_if present lockfile_path

  -- `LoadManifest` and `EnsurePackageManifest`
  unfoldable pub load_package : Bytes → Action State (ManifestDocument × PackageConfig)
  unfolding load
  load_package manifest_path = do
    document ← attempt (load machine manifest_path)
    config ← from_result (or_throw document.package_config validation_error)
    give (document, config)

  unfoldable pub add_dependency_and_refresh_lock :
      AddDependencyRequest → Action State DependencyCommandResult
  unfolding validate_add_request package_short_name read_file read_lockfile load_package
      add_to_package commit_manifest_edit
  add_dependency_and_refresh_lock request = do
    present ← ask (exists request.manifest_path)
    from_result (require present validation_error)
    from_result (validate_add_request is_absolute request)
    short_name ← from_result (package_short_name request.package_name)
    let alias : Bytes = value_or request.alias short_name
    original_manifest ← read_file request.manifest_path
    original_lock ← read_lockfile (lockfile_beside request.manifest_path)
    (document, config) ← load_package request.manifest_path
    edited ← from_result (add_to_package request alias config)
    commit_manifest_edit request.manifest_path original_manifest original_lock
        (record document { package_config = some edited }) alias request.package_name
        request.section

  unfoldable pub remove_dependency_and_refresh_lock :
      RemoveDependencyRequest → Action State DependencyCommandResult
  unfolding read_file read_lockfile load_package remove_from_package commit_manifest_edit
  remove_dependency_and_refresh_lock request = do
    present ← ask (exists request.manifest_path)
    from_result (require present validation_error)
    from_result (throw_if (is_empty request.target) validation_error)
    original_manifest ← read_file request.manifest_path
    original_lock ← read_lockfile (lockfile_beside request.manifest_path)
    (document, config) ← load_package request.manifest_path
    (location, edited) ← from_result (remove_from_package request config)
    commit_manifest_edit request.manifest_path original_manifest original_lock
        (record document { package_config = some edited }) location.alias location.package_name
        location.section

  unfoldable pub count_kind : Bytes → List LockPackage → ℕ
  count_kind kind [] = 0
  count_kind kind (p ∷ ps) =
      let rest = count_kind kind ps in if text_eq p.source_kind kind then suc rest else rest

  unfoldable pub fetch_dependencies : Bytes → ResolveOptions → Action State FetchCommandResult
  unfolding resolve_single_version_lockfile count_kind
  fetch_dependencies manifest_path options = do
    present ← ask (exists manifest_path)
    from_result (require present validation_error)
    generated ←
        resolve_single_version_lockfile machine version pafio_home fuel manifest_path options
    give (record {
      manifest_path = generated.manifest_path;
      package_count = length generated.lockfile.packages;
      git_package_count = count_kind (text "git") generated.lockfile.packages;
      registry_package_count = count_kind (text "registry") generated.lockfile.packages;
    })
