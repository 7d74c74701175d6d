-- ===== src/Tests/Project.antt =====
-- Test data: packages, a file system that holds one file, a lockfile and toolchain settings.
use spio.Prelude.{Bytes, text, text_eq, true, false, none, some, List, [], ◌∷◌, ◌++◌}
use spio.FileSystem.{FileSystem}
use spio.Manifest.{PackageConfig}
use spio.Resolve.{ResolvedPackage}
use spio.Plan.Select.{BuildPlanRequest}
use spio.Lockfile.{LockPackage}
use spio.Toolchain.{ProjectToolchainState, ToolchainStateUpdate}
use spio.Cloud.Execution.{Host}
use spio.Cloud.Job.{WorkflowInvocationOptions}
use spio.Tests.Document.{Fields, end, field, string, integer, boolean, table, array, stop, item}

abbrev pub app_config : PackageConfig
app_config = record {
  name = text "demo/app";
  version = text "0.1.0";
  edition = text "2026";
  publish = false;
  toolchain = record { channel = text "nightly"; implicit_std = true };
  lib = none;
  bins = record { name = text "app"; path = text "src/main.styio" } ∷ [];
  tests = [];
  dependencies = [];
  dev_dependencies = [];
}

abbrev pub package_of : Bytes → List Bytes → ResolvedPackage
package_of id dependencies = record {
  manifest_path = text "/w/pafio.toml";
  root_dir = text "/w";
  config = app_config;
  id = id;
  source_kind = text "workspace";
  git = none;
  rev = none;
  registry = none;
  sha256 = none;
  repo_hash = none;
  snapshot_root = none;
  dependencies = dependencies;
  dependency_aliases = [];
}

-- `app` depends on `lib`.
abbrev pub two_packages : List ResolvedPackage
two_packages = package_of (text "app") (text "lib" ∷ []) ∷ package_of (text "lib") [] ∷ []

abbrev pub app_package : ResolvedPackage
app_package = package_of (text "app") (text "lib" ∷ [])

abbrev pub lib_package : ResolvedPackage
lib_package = package_of (text "lib") []

abbrev pub one_file : FileSystem
one_file = record {
  canonical = λ p. p;
  parent_path = λ p. p;
  append = λ p q. p ++ (text "/" ++ q);
  relative_to = λ p q. q;
  is_absolute = λ p. false;
  exists = text_eq (text "/w/src/main.styio");
  is_regular_file = text_eq (text "/w/src/main.styio");
  read = λ p. none;
}

abbrev pub run_app : BuildPlanRequest
run_app = record {
  manifest_path = text "/w/pafio.toml";
  intent = text "run";
  package_name = none;
  bin_name = some (text "app");
  test_name = none;
  select_lib = false;
  profile = text "dev";
  build_mode = text "minimal";
  compiler_version = none;
  offline = false;
  vendor_root = none;
}

abbrev pub lock_package : Bytes → List Bytes → LockPackage
lock_package id dependencies = record {
  id = id;
  name = text "demo/app";
  version = text "0.1.0";
  source_kind = text "workspace";
  git = none;
  rev = none;
  registry = none;
  sha256 = none;
  dependencies = dependencies;
}

-- lock-version = 1, [metadata] and one [[package]]
abbrev pub lock_document : Fields
lock_document = field (text "lock-version") (integer 1) (
    field (text "metadata")
      (table (
        field (text "generated-by") (string (text "pafio"))
          (field (text "resolver") (string (text "single-version-v1")) end)))
      (field (text "package")
        (array (
          item
            (table (
              field (text "id") (string (text "app")) (
                field (text "name") (string (text "demo/app")) (
                  field (text "version") (string (text "0.1.0")) (
                    field (text "source-kind") (string (text "workspace"))
                      (field (text "dependencies") (array stop) end))))))
            stop))
        end))

abbrev pub warm_state : ProjectToolchainState
warm_state = record {
  manifest_path = text "/w/pafio.toml";
  state_path = text "/w/state";
  state_file_exists = true;
  mode = text "binary";
  channel = text "stable";
  build_mode = text "minimal";
  risk_class = text "trusted-internal";
  preferred_execution_lane = text "warm-shared";
  security_profile = text "sandbox-default";
  source_revision = none;
}

abbrev pub a_host : Host
a_host = record {
  platform = text "linux";
  architecture = text "x86_64";
  base_image_revision = none;
}

abbrev pub plain_options : WorkflowInvocationOptions
plain_options = record {
  locked = false;
  offline = false;
  styio_bin = none;
  allow_fetch = true;
  assume_yes = false;
  non_interactive = false;
  source_root = none;
  source_revision = none;
}

-- [toolchain] with a channel
abbrev pub state_document : Fields
state_document =
    field (text "toolchain") (table (field (text "channel") (string (text "nightly")) end)) end

abbrev pub to_build : ToolchainStateUpdate
to_build = record {
  mode = some (text "build");
  channel = none;
  build_mode = none;
  risk_class = none;
  preferred_execution_lane = none;
  security_profile = none;
  source_revision = none;
}

-- [pafio], [package], [toolchain], [lib], a dependency by path, and [workspace]
abbrev pub manifest_document : Fields
manifest_document = field (text "pafio") (table (field (text "manifest-version") (integer 1) end)) (
    field (text "package")
      (table (
        field (text "name") (string (text "demo/app")) (
          field (text "version") (string (text "0.1.0"))
            (field (text "edition") (string (text "2026")) end))))
      (field (text "toolchain")
        (table (
          field (text "channel") (string (text "nightly"))
            (field (text "implicit-std") (boolean true) end)))
        (field (text "lib") (table (field (text "path") (string (text "src/lib.styio")) end)) (
          field (text "dependencies")
            (table (field (text "b") (table (field (text "path") (string (text "b")) end)) end))
            (field (text "workspace")
              (table (
                field (text "members") (array (item (string (text "b")) stop))
                  (field (text "resolver") (string (text "1")) end)))
              end)))))
