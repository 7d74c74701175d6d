-- ===== src/Manifest/Load.antt =====
-- src/PafioManifest/Manifest.cpp: `LoadManifest` and its parsers, on the document that toml++ reads
-- from the file. `is_absolute` is `fs::path(value).is_absolute()`.
pub mod Form
pub mod Dependencies
pub mod Targets
pub mod Laws
use spio.Prelude.{
  ℕ, ◌+◌, Bytes, text, text_eq, contains, starts_with, is_empty, Bool, true, false, ◌&&◌, ◌||◌, not,
  Option, none, some, List, [], ◌∷◌, Result, ok, err, ◌>>=◌, ◌>>◌, require, throw_if, or_throw,
  validation_error, has_value, value_or, if◌then◌else◌, ◌==◌,
}
use spio.Patterns.{regex_match, name_regex, semver_regex}
use spio.Toml.{
  Toml, is_one, table_at, array_at, optional_string, optional_bool, int_at, require_string,
  strings_of, has_key,
}
use spio.Manifest.{
  DependencySourceKind, path, git, registry, Dependency, Toolchain, LibTarget, BinTarget,
  TestTarget, WorkspaceConfig, PackageConfig, ManifestDocument,
}

unfoldable pub is_registry_root_url : Bytes → Bool
is_registry_root_url value =
    starts_with value (text "file://")
    || starts_with value (text "http://")
    || starts_with value (text "https://")

unfoldable pub validate_package_name : Bytes → Result (Unit {0})
validate_package_name name = require (regex_match name_regex name) validation_error

unfoldable pub validate_semver : Bytes → Result (Unit {0})
validate_semver version = require (regex_match semver_regex version) validation_error

unfoldable pub validate_registry_root : Bytes → Result (Unit {0})
unfolding is_registry_root_url
validate_registry_root root = require (is_registry_root_url root) validation_error

abbrev pub one_if : Bool → ℕ
one_if true = 1
one_if false = 0

module _ (is_absolute : Bytes → Bool) where
  unfoldable pub is_non_empty_relative_path : Bytes → Bool
  is_non_empty_relative_path value = if is_empty value then false else not (is_absolute value)

  unfoldable pub validate_relative_path : Bytes → Result (Unit {0})
  unfolding is_non_empty_relative_path
  validate_relative_path value = require (is_non_empty_relative_path value) validation_error

  -- the loops over the members and the excluded entries
  unfoldable pub validate_relative_paths : List Bytes → Result (Unit {0})
  unfolding validate_relative_path
  validate_relative_paths [] = ok tt
  validate_relative_paths (p ∷ ps) = do validate_relative_path p; validate_relative_paths ps

  module _ (toml : Toml) where
    open toml use {Table, Node, as_table, entries}

    -- `if (dependency.package.has_value()) ValidatePackageName(…)`
    unfoldable pub check_package_name : Option Bytes → Result (Unit {0})
    unfolding validate_package_name
    check_package_name none = ok tt
    check_package_name (some name) = validate_package_name name

    path_dependency : Bytes → Table → Option Bytes → Result Dependency
    unfolding validate_relative_path
    path_dependency alias dep package_name = do
      source ← require_string toml dep (text "path")
      validate_relative_path source
      ok (record {
        alias = alias;
        package_name = package_name;
        source_kind = path;
        source = source;
        rev = none;
        version = none;
      })

    git_dependency : Bytes → Table → Option Bytes → Result Dependency
    git_dependency alias dep package_name = do
      source ← require_string toml dep (text "git")
      throw_if (is_empty source) validation_error
      rev ← require_string toml dep (text "rev")
      throw_if (is_empty rev) validation_error
      ok (record {
        alias = alias;
        package_name = package_name;
        source_kind = git;
        source = source;
        rev = some rev;
        version = none;
      })

    registry_dependency : Bytes → Table → Option Bytes → Result Dependency
    unfolding validate_semver validate_registry_root
    registry_dependency alias dep package_name = do
      require (has_value package_name) validation_error
      version ← require_string toml dep (text "version")
      validate_semver version
      source ← require_string toml dep (text "registry")
      validate_registry_root source
      ok (record {
        alias = alias;
        package_name = package_name;
        source_kind = registry;
        source = source;
        rev = none;
        version = some version;
      })

    -- `if (has_path) … else if (has_git) … else …`
    dependency_of : Bool → Bool → Bytes → Table → Option Bytes → Result Dependency
    unfolding path_dependency git_dependency registry_dependency
    dependency_of true has_git alias dep package_name = path_dependency alias dep package_name
    dependency_of false true alias dep package_name = git_dependency alias dep package_name
    dependency_of false false alias dep package_name = registry_dependency alias dep package_name

    unfoldable pub parse_dependency : Bytes → Table → Result Dependency
    unfolding check_package_name dependency_of
    parse_dependency alias dep = do
      let has_path : Bool = has_key toml dep (text "path")
      let has_git : Bool = has_key toml dep (text "git")
      let has_registry_source : Bool =
          has_key toml dep (text "version") || has_key toml dep (text "registry")
      require (one_if has_path + one_if has_git + one_if has_registry_source == 1) validation_error
      let package_name : Option Bytes = optional_string toml dep (text "package")
      check_package_name package_name
      dependency_of has_path has_git alias dep package_name

    unfoldable pub parse_entries : List (Bytes × Node) → Result (List Dependency)
    unfolding parse_dependency
    parse_entries [] = ok []
    parse_entries ((alias, node) ∷ rest) = do
      dep ← or_throw (as_table node) validation_error
      d ← parse_dependency alias dep
      ds ← parse_entries rest
      ok (d ∷ ds)

    unfoldable pub dependencies_of : Option Table → Result (List Dependency)
    unfolding parse_entries
    dependencies_of none = ok []
    dependencies_of (some t) = parse_entries (entries t)

    unfoldable pub parse_dependencies : Table → Bytes → Result (List Dependency)
    unfolding dependencies_of
    parse_dependencies doc table_name = dependencies_of (table_at toml doc table_name)

    unfoldable pub parse_toolchain : Table → Result Toolchain
    parse_toolchain doc = do
      t ← or_throw (table_at toml doc (text "toolchain")) validation_error
      channel ← require_string toml t (text "channel")
      throw_if (is_empty channel) validation_error
      implicit_std ← or_throw (optional_bool toml t (text "implicit-std")) validation_error
      ok (record { channel = channel; implicit_std = implicit_std })

    unfoldable pub lib_of : Option Table → Result (Option LibTarget)
    unfolding validate_relative_path
    lib_of none = ok none
    lib_of (some t) = do
      p ← require_string toml t (text "path")
      validate_relative_path p
      ok (some (record { path = p }))

    unfoldable pub parse_lib : Table → Result (Option LibTarget)
    unfolding lib_of
    parse_lib doc = lib_of (table_at toml doc (text "lib"))

    -- The rest of the entries, after those with the seen names.
    unfoldable pub parse_bin_entries : List Bytes → List Node → Result (List BinTarget)
    unfolding validate_relative_path
    parse_bin_entries seen [] = ok []
    parse_bin_entries seen (node ∷ nodes) = do
      bin ← or_throw (as_table node) validation_error
      name ← require_string toml bin (text "name")
      p ← require_string toml bin (text "path")
      throw_if (is_empty name) validation_error
      validate_relative_path p
      throw_if (contains name seen) validation_error
      bins ← parse_bin_entries (name ∷ seen) nodes
      ok (record { name = name; path = p } ∷ bins)

    unfoldable pub bins_of : Option (List Node) → Result (List BinTarget)
    unfolding parse_bin_entries
    bins_of none = ok []
    bins_of (some nodes) = parse_bin_entries [] nodes

    unfoldable pub parse_bins : Table → Result (List BinTarget)
    unfolding bins_of
    parse_bins doc = bins_of (array_at toml doc (text "bin"))

    unfoldable pub parse_test_entries : List Bytes → List Node → Result (List TestTarget)
    unfolding validate_relative_path
    parse_test_entries seen [] = ok []
    parse_test_entries seen (node ∷ nodes) = do
      test ← or_throw (as_table node) validation_error
      name ← require_string toml test (text "name")
      p ← require_string toml test (text "path")
      throw_if (is_empty name) validation_error
      validate_relative_path p
      throw_if (contains name seen) validation_error
      tests ← parse_test_entries (name ∷ seen) nodes
      ok (record { name = name; path = p } ∷ tests)

    unfoldable pub tests_of : Option (List Node) → Result (List TestTarget)
    unfolding parse_test_entries
    tests_of none = ok []
    tests_of (some nodes) = parse_test_entries [] nodes

    unfoldable pub parse_tests : Table → Result (List TestTarget)
    unfolding tests_of
    parse_tests doc = tests_of (array_at toml doc (text "test"))

    -- the members of the package, as the document has them
    unfoldable pub read_package : Table → Result PackageConfig
    unfolding parse_toolchain parse_lib parse_bins parse_tests parse_dependencies
    read_package doc = do
      t ← or_throw (table_at toml doc (text "package")) validation_error
      name ← require_string toml t (text "name")
      version ← require_string toml t (text "version")
      edition ← require_string toml t (text "edition")
      toolchain ← parse_toolchain doc
      lib ← parse_lib doc
      bins ← parse_bins doc
      tests ← parse_tests doc
      dependencies ← parse_dependencies doc (text "dependencies")
      dev_dependencies ← parse_dependencies doc (text "dev-dependencies")
      ok (record {
        name = name;
        version = version;
        edition = edition;
        publish = value_or (optional_bool toml t (text "publish")) false;
        toolchain = toolchain;
        lib = lib;
        bins = bins;
        tests = tests;
        dependencies = dependencies;
        dev_dependencies = dev_dependencies;
      })

    -- the checks that follow
    unfoldable pub check_package_config : PackageConfig → Result (Unit {0})
    unfolding validate_package_name validate_semver
    check_package_config p = do
      validate_package_name p.name
      validate_semver p.version
      throw_if (is_empty p.edition) validation_error
      throw_if (not (has_value p.lib) && is_empty p.bins && is_empty p.tests) validation_error

    unfoldable pub parse_package : Table → Result PackageConfig
    unfolding read_package check_package_config
    parse_package doc = do p ← read_package doc; check_package_config p; ok p

    unfoldable pub require_string_array : Table → Bytes → Bool → Result (List Bytes)
    require_string_array t key require_non_empty = do
      nodes ← or_throw (array_at toml t key) validation_error
      values ← strings_of toml nodes
      throw_if (require_non_empty && is_empty values) validation_error
      ok values

    unfoldable pub exclude_of : Table → Result (List Bytes)
    unfolding require_string_array
    exclude_of t =
        if has_key toml t (text "exclude")
        then require_string_array t (text "exclude") false
        else ok []

    unfoldable pub parse_workspace : Table → Result WorkspaceConfig
    unfolding require_string_array exclude_of validate_relative_paths
    parse_workspace doc = do
      t ← or_throw (table_at toml doc (text "workspace")) validation_error
      members ← require_string_array t (text "members") true
      exclude ← exclude_of t
      resolver ← require_string toml t (text "resolver")
      require (text_eq resolver (text "1")) validation_error
      validate_relative_paths members
      validate_relative_paths exclude
      ok (record { members = members; exclude = exclude; resolver = resolver })

    -- `if (has) parsed.part = parse(doc);`
    abbrev pub when {ℓ} : {A : Type ℓ} → Bool → Result A → Result (Option A)
    when true part = part >>= λ a. ok (some a)
    when false part = ok none

    -- `document` is what `toml::parse_file` returns, none where it throws a parse error.
    unfoldable pub load_manifest : Option Table → Result ManifestDocument
    unfolding parse_package parse_workspace
    load_manifest document = do
      doc ← or_throw document validation_error
      t ← or_throw (table_at toml doc (text "pafio")) validation_error
      require (is_one (int_at toml t (text "manifest-version"))) validation_error
      let has_package : Bool = has_key toml doc (text "package")
      let has_workspace : Bool = has_key toml doc (text "workspace")
      throw_if (not has_package && not has_workspace) validation_error
      package_config ← when has_package (parse_package doc)
      workspace ← when has_workspace (parse_workspace doc)
      ok (record { package_config = package_config; workspace = workspace })
