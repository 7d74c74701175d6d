-- ===== src/Workflow/Edit.antt =====
-- src/PafioWorkflow/Dependencies.cpp: the checks of a request and the edit of the manifest. The
-- validators that the file has copies of are those of the manifest.
pub mod Addition
pub mod Laws
pub mod Matches
pub mod Names
pub mod Removal
use spio.Prelude.{
  ℕ, zero, suc, ◌+◌, Bytes, text, text_eq, Bool, true, false, not, ◌&&◌, ◌||◌, Option, none, some,
  has_value, value_or, List, [], ◌∷◌, ◌++◌, Result, ok, err, ◌>>=◌, ◌>>◌, require, throw_if,
  or_throw, validation_error, out_of_range, is_empty, if◌then◌else◌, ◌==◌,
}
use spio.Manifest.{
  DependencySourceKind, path, git, registry, Dependency, PackageConfig, ManifestDocument,
}
use spio.Manifest.Load.{
  validate_package_name, validate_semver, is_non_empty_relative_path, is_registry_root_url, one_if,
}
use spio.Workflow.{
  DependencySection, k_dependencies, k_dev_dependencies, AddDependencyRequest,
  RemoveDependencyRequest,
}

-- what stands behind the first slash
unfoldable pub after_slash : Bytes → Bytes
after_slash [] = []
after_slash (c ∷ s) = if c == b'/' then s else after_slash s

unfoldable pub package_short_name : Bytes → Result Bytes
unfolding after_slash validate_package_name
package_short_name package_name = do
  validate_package_name package_name
  ok (after_slash package_name)

unfoldable pub select_section : PackageConfig → DependencySection → List Dependency
select_section config k_dev_dependencies = config.dev_dependencies
select_section config k_dependencies = config.dependencies

-- the section replaced, which the source edits in place
unfoldable pub with_section : PackageConfig → DependencySection → List Dependency → PackageConfig
with_section config k_dev_dependencies ds = record config { dev_dependencies = ds }
with_section config k_dependencies ds = record config { dependencies = ds }

-- `!o.has_value() || o->empty()`
abbrev pub is_missing : Option Bytes → Bool
is_missing none = true
is_missing (some s) = is_empty s

-- `request.alias.has_value() && request.alias->empty()`
abbrev pub is_present_empty : Option Bytes → Bool
is_present_empty none = false
is_present_empty (some s) = is_empty s

-- `if (request.use_git) … else if (request.use_registry) … else …`
unfoldable pub check_source : Bool → Bool → AddDependencyRequest → Result (Unit {0})
unfolding validate_semver is_registry_root_url
check_source true use_registry request = do
  throw_if (is_missing request.rev) validation_error
  throw_if (has_value request.version) validation_error
check_source false true request = do
  throw_if (has_value request.rev) validation_error
  throw_if (is_missing request.version) validation_error
  version ← or_throw request.version validation_error
  validate_semver version
  require (is_registry_root_url request.source) validation_error
check_source false false request =
    throw_if (has_value request.rev || has_value request.version) validation_error

unfoldable pub validate_add_request : (Bytes → Bool) → AddDependencyRequest → Result (Unit {0})
unfolding check_source validate_package_name is_non_empty_relative_path
validate_add_request is_absolute request = do
  throw_if (is_present_empty request.alias) validation_error
  throw_if (is_empty request.source) validation_error
  validate_package_name request.package_name
  let is_path : Bool = not request.use_git && not request.use_registry
  require (one_if request.use_git + one_if request.use_registry + one_if is_path == 1)
      validation_error
  throw_if (is_path && not (is_non_empty_relative_path is_absolute request.source)) validation_error
  check_source request.use_git request.use_registry request

unfoldable pub has_alias : Bytes → List Dependency → Bool
has_alias alias [] = false
has_alias alias (d ∷ ds) = text_eq d.alias alias || has_alias alias ds

-- `dependency.package.has_value() && *dependency.package == name`
unfoldable pub names_package : Option Bytes → Bytes → Bool
names_package none name = false
names_package (some package_name) name = text_eq package_name name

unfoldable pub has_package : Bytes → List Dependency → Bool
unfolding names_package
has_package name [] = false
has_package name (d ∷ ds) = names_package d.package_name name || has_package name ds

unfoldable pub new_source_kind : Bool → Bool → DependencySourceKind
new_source_kind true use_registry = git
new_source_kind false true = registry
new_source_kind false false = path

unfoldable pub new_dependency : AddDependencyRequest → Bytes → Dependency
unfolding new_source_kind
new_dependency request alias = record {
  alias = alias;
  package_name = some request.package_name;
  source_kind = new_source_kind request.use_git request.use_registry;
  source = request.source;
  rev = request.rev;
  version = request.version;
}

-- from the check of the alias to `push_back`
unfoldable pub add_to_package : AddDependencyRequest → Bytes → PackageConfig → Result PackageConfig
unfolding has_alias has_package new_dependency with_section select_section
add_to_package request alias config = do
  throw_if (has_alias alias config.dependencies || has_alias alias config.dev_dependencies)
      validation_error
  throw_if
      (has_package request.package_name config.dependencies
        || has_package request.package_name config.dev_dependencies)
      validation_error
  ok (
      with_section config request.section
        (select_section config request.section ++ new_dependency request alias ∷ []))

unfoldable pub dependency_matches_target : Bool → Bytes → Dependency → Bool
unfolding names_package
dependency_matches_target false target d = text_eq d.alias target
dependency_matches_target true target d = names_package d.package_name target

pub record MatchLocation : Type 0 where
  pub section : DependencySection
  pub index : ℕ
  pub alias : Bytes
  pub package_name : Bytes

-- the loop over the section from `index` on
unfoldable pub collect_from :
    Bool → Bytes → DependencySection → ℕ → List Dependency → List MatchLocation
unfolding dependency_matches_target
collect_from by_package target section index [] = []
collect_from by_package target section index (d ∷ ds) =
    let rest = collect_from by_package target section (suc index) ds in
    if dependency_matches_target by_package target d
    then record {
      section = section;
      index = index;
      alias = d.alias;
      package_name = value_or d.package_name [];
    }
      ∷ rest
    else rest

abbrev pub collect : Bool → Bytes → PackageConfig → DependencySection → List MatchLocation
collect by_package target config section =
    collect_from by_package target section 0 (select_section config section)

unfoldable pub find_matches :
    PackageConfig → Bytes → Option DependencySection → Bool → List MatchLocation
unfolding collect_from select_section
find_matches config target (some section) by_package = collect by_package target config section
find_matches config target none by_package =
    collect by_package target config k_dependencies
    ++ collect by_package target config k_dev_dependencies

-- `target.find('/') != npos`
unfoldable pub has_slash : Bytes → Bool
has_slash [] = false
has_slash (c ∷ s) = c == b'/' || has_slash s

-- the matches by alias, or else by package name
unfoldable pub all_matches : PackageConfig → RemoveDependencyRequest → List MatchLocation
unfolding find_matches has_slash
all_matches config request =
    let by_alias = find_matches config request.target request.section false in
    if is_empty by_alias && has_slash request.target
    then find_matches config request.target request.section true
    else by_alias

unfoldable pub only_location : List MatchLocation → Result MatchLocation
only_location [] = err validation_error
only_location (location ∷ []) = ok location
only_location (location ∷ other ∷ more) = err validation_error

unfoldable pub erase_at : {A : Type 0} → ℕ → List A → List A
erase_at i [] = []
erase_at zero (x ∷ xs) = xs
erase_at (suc i) (x ∷ xs) = x ∷ erase_at i xs

-- from `FindMatches` to `erase`
unfoldable pub remove_from_package :
    RemoveDependencyRequest → PackageConfig → Result (MatchLocation × PackageConfig)
unfolding all_matches only_location erase_at with_section select_section
remove_from_package request config = do
  location ← only_location (all_matches config request)
  ok (
    location,
    with_section config location.section
        (erase_at location.index (select_section config location.section)),
  )
