-- ===== src/Tests/Workspace.antt =====
-- Test data: a machine whose disk holds a workspace of two packages, `demo/app` at the root, which
-- depends on `demo/b`, the member. It counts the directories that are made, and runs no program.
use spio.Prelude.{
  ℕ, suc, Bytes, text, text_eq, Bool, true, false, ◌||◌, Option, none, some, List, [], ◌∷◌, ◌++◌,
  fetch_error, if◌then◌else◌, ◌==◌,
}
use spio.Prelude.Action.{returned, threw}
use spio.Manifest.{PackageConfig, path}
use spio.Lockfile.{LockPackage}
use spio.Resolve.{ResolveOptions, ResolvedPackage, ResolvedGraphResult}
use spio.Resolve.Machine.{Machine}
use spio.Tests.Document.{Fields, end, field, string, integer, boolean, table, document_toml}
use spio.Tests.Project.{manifest_document}

abbrev has_slash : Bytes → Bool
has_slash [] = false
has_slash (c ∷ s) = c == b'/' || has_slash s

abbrev parent_of : Bytes → Bytes
parent_of [] = []
parent_of (c ∷ s) = if has_slash s then c ∷ parent_of s else []

-- [pafio], [package], [toolchain] and [lib]
abbrev pub member_document : Fields
member_document = field (text "pafio") (table (field (text "manifest-version") (integer 1) end)) (
    field (text "package")
      (table (
        field (text "name") (string (text "demo/b")) (
          field (text "version") (string (text "0.2.0"))
            (field (text "edition") (string (text "2026")) end))))
      (field (text "toolchain")
        (table (
          field (text "channel") (string (text "nightly"))
            (field (text "implicit-std") (boolean true) end)))
        (field (text "lib") (table (field (text "path") (string (text "src/lib.styio")) end)) end)))

abbrev pub on_disk : Bool → Bool → Option Fields
on_disk true at_member = some manifest_document
on_disk false true = some member_document
on_disk false false = none

abbrev pub two_manifests : Machine
two_manifests = record {
  toml = document_toml;
  State = ℕ;
  canonical = λ p. p;
  parent_path = parent_of;
  append = λ p q. p ++ (text "/" ++ q);
  lexically_relative = λ p q. p;
  is_absolute = λ p. false;
  exists = λ p s. text_eq p (text "/w/pafio.toml") || text_eq p (text "/w/b/pafio.toml");
  read_document =
      λ p s. on_disk (text_eq p (text "/w/pafio.toml")) (text_eq p (text "/w/b/pafio.toml"));
  create_directories = λ p s. returned tt (suc s);
  remove_all = λ p s. returned tt s;
  remove = λ p s. returned tt s;
  try_remove = λ p s. s;
  try_write = λ p t s. s;
  run_process = λ r s. threw fetch_error s;
  materialize_registry_package = λ root name version offline s. threw fetch_error s;
}

abbrev pub no_options : ResolveOptions
no_options = record { offline = true; vendor_root = none }

abbrev pub member_config : PackageConfig
member_config = record {
  name = text "demo/b";
  version = text "0.2.0";
  edition = text "2026";
  publish = false;
  toolchain = record { channel = text "nightly"; implicit_std = true };
  lib = some (record { path = text "src/lib.styio" });
  bins = [];
  tests = [];
  dependencies = [];
  dev_dependencies = [];
}

abbrev pub root_config : PackageConfig
root_config = record member_config {
  name = text "demo/app";
  version = text "0.1.0";
  dependencies =
      record {
        alias = text "b";
        package_name = none;
        source_kind = path;
        source = text "b";
        rev = none;
        version = none;
      }
      ∷ [];
}

abbrev pub member_id : Bytes
member_id = text "workspace:demo/b@0.2.0"

abbrev pub root_id : Bytes
root_id = text "workspace:demo/app@0.1.0"

abbrev pub member_package : ResolvedPackage
member_package = record {
  manifest_path = text "/w/b/pafio.toml";
  root_dir = text "/w/b";
  config = member_config;
  id = member_id;
  source_kind = text "workspace";
  git = none;
  rev = none;
  registry = none;
  sha256 = none;
  repo_hash = none;
  snapshot_root = none;
  dependencies = [];
  dependency_aliases = [];
}

abbrev pub root_package : ResolvedPackage
root_package = record member_package {
  manifest_path = text "/w/pafio.toml";
  root_dir = text "/w";
  config = root_config;
  id = root_id;
  dependencies = member_id ∷ [];
  dependency_aliases = record { alias = text "b"; package_id = member_id } ∷ [];
}

abbrev pub lock_entry : Bytes → Bytes → Bytes → List Bytes → LockPackage
lock_entry id name version dependencies = record {
  id = id;
  name = name;
  version = version;
  source_kind = text "workspace";
  git = none;
  rev = none;
  registry = none;
  sha256 = none;
  dependencies = dependencies;
}

abbrev pub two_package_graph : ResolvedGraphResult
two_package_graph = record {
  manifest_path = text "/w/pafio.toml";
  lockfile_path = text "/w/pafio.lock";
  root_ids = root_id ∷ member_id ∷ [];
  packages = root_package ∷ member_package ∷ [];
  lockfile = record {
    generated_by = text "pafio 1.0.0";
    resolver = text "single-version-v1";
    packages =
        lock_entry root_id (text "demo/app") (text "0.1.0") (member_id ∷ [])
        ∷ lock_entry member_id (text "demo/b") (text "0.2.0") []
        ∷ [];
  };
}
