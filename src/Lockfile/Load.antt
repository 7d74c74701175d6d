-- ===== src/Lockfile/Load.antt =====
-- src/PafioManifest/Lockfile.cpp: `LoadLockfile` and its validators, on the document that toml++
-- reads from the file.
pub mod Laws
use spio.Prelude.{
  ℕ, Bytes, text, text_eq, contains, is_empty, Bool, true, false, ◌||◌, not, Option, none, some,
  List, [], ◌∷◌, Result, ok, err, ◌>>=◌, ◌>>◌, require, throw_if, or_throw, validation_error,
  has_value, if◌then◌else◌,
}
use spio.Patterns.{regex_match, name_regex, semver_regex, sha256_regex}
use spio.Toml.{
  Toml, is_one, and_then, table_at, array_at, optional_string, int_at, require_string,
  parse_string_array,
}
use spio.Lockfile.{LockPackage, LockfileDocument}

unfoldable pub validate_package_name : Bytes → Result (Unit {0})
validate_package_name name = require (regex_match name_regex name) validation_error

unfoldable pub validate_semver : Bytes → Result (Unit {0})
validate_semver version = require (regex_match semver_regex version) validation_error

unfoldable pub validate_source_kind : Bytes → Result (Unit {0})
validate_source_kind source_kind =
    require
      (contains source_kind (text "workspace" ∷ text "path" ∷ text "git" ∷ text "registry" ∷ []))
      validation_error

unfoldable pub validate_sha256 : Bytes → Result (Unit {0})
validate_sha256 sha256 = require (regex_match sha256_regex sha256) validation_error

-- `!o.has_value() || o->empty()`
abbrev pub is_blank : Option Bytes → Bool
is_blank none = true
is_blank (some s) = is_empty s

check_registry : LockPackage → Option Bytes → Result (Unit {0})
unfolding validate_sha256
check_registry p sha256 = do
  throw_if (is_blank p.registry) validation_error
  digest ← or_throw sha256 validation_error
  validate_sha256 digest
  throw_if (has_value p.git || has_value p.rev) validation_error

-- the checks that depend on the source kind
unfoldable pub check_source : LockPackage → Result (Unit {0})
unfolding check_registry
check_source p =
    if text_eq p.source_kind (text "git")
    then (do
      throw_if (is_blank p.git) validation_error
      throw_if (is_blank p.rev) validation_error
      throw_if (has_value p.registry || has_value p.sha256) validation_error)
    else if text_eq p.source_kind (text "registry")
    then check_registry p p.sha256
    else throw_if (has_value p.git || has_value p.rev || has_value p.registry || has_value p.sha256)
        validation_error

unfoldable pub check_package : LockPackage → Result (Unit {0})
unfolding validate_package_name validate_semver validate_source_kind
check_package p = do
  throw_if (is_empty p.id) validation_error
  validate_package_name p.name
  validate_semver p.version
  validate_source_kind p.source_kind
  check_source p

module _ (toml : Toml) where
  open toml use {Table, Node, lookup, as_table}

  unfoldable pub parse_package : Table → Result LockPackage
  parse_package t = do
    id ← require_string toml t (text "id")
    name ← require_string toml t (text "name")
    version ← require_string toml t (text "version")
    source_kind ← require_string toml t (text "source-kind")
    dependencies ← parse_string_array toml t (text "dependencies")
    let parsed : LockPackage = record {
      id = id;
      name = name;
      version = version;
      source_kind = source_kind;
      git = optional_string toml t (text "git");
      rev = optional_string toml t (text "rev");
      registry = optional_string toml t (text "registry");
      sha256 = optional_string toml t (text "sha256");
      dependencies = dependencies;
    }
    check_package parsed
    ok parsed

  unfoldable pub parse_packages : List Node → Result (List LockPackage)
  parse_packages [] = ok []
  parse_packages (n ∷ ns) = do
    t ← or_throw (as_table n) validation_error
    p ← parse_package t
    ps ← parse_packages ns
    ok (p ∷ ps)

  packages_of : Option (List Node) → Result (List LockPackage)
  packages_of none = ok []
  packages_of (some nodes) = parse_packages nodes

  -- `document` is what `toml::parse_file` returns, none where it throws a parse error.
  unfoldable pub load_lockfile : Option Table → Result LockfileDocument
  unfolding packages_of
  load_lockfile document = do
    doc ← or_throw document validation_error
    require (is_one (int_at toml doc (text "lock-version"))) validation_error
    metadata ← or_throw (table_at toml doc (text "metadata")) validation_error
    generated_by ← require_string toml metadata (text "generated-by")
    resolver ← require_string toml metadata (text "resolver")
    throw_if (is_empty generated_by) validation_error
    require (text_eq resolver (text "single-version-v1")) validation_error
    packages ← packages_of (array_at toml doc (text "package"))
    ok (record { generated_by = generated_by; resolver = resolver; packages = packages })
