-- ===== src/Tests/Dependencies.antt =====
-- Tests: adding and removing dependencies.
use spio.Prelude.{text, text_eq, contains, false, none, some, [], ◌∷◌, ok, ◌≡◌, refl}
use spio.Prelude.Distinct.{IsDistinct}
use spio.Toml.{is_one, strings_of}
use spio.Patterns.{is_lower_or_digit, is_name_char, semver_regex, regex_match, name_regex}
use spio.Manifest.{PackageConfig, path}
use spio.Manifest.Load.{load_manifest, is_non_empty_relative_path}
use spio.Manifest.Load.Form.{IsPackage}
use spio.Manifest.Load.Laws.{load_manifest-IsManifest}
use spio.Workflow.{k_dependencies}
use spio.Workflow.Edit.{
  MatchLocation, validate_add_request, check_source, add_to_package, has_alias, has_package,
  new_dependency, new_source_kind, with_section, select_section, names_package, remove_from_package,
  all_matches, find_matches, collect_from, dependency_matches_target, only_location, erase_at,
}
use spio.Workflow.Edit.Laws.{aliases_of}
use spio.Workflow.Edit.Addition.{IsAddition, add_to_package-IsPackage, add_to_package-IsDistinct}
use spio.Workflow.Edit.Removal.{IsRemovedFrom, remove_from_package-IsRemoval}
use spio.Tests.Document.{document_toml}
use spio.Tests.Project.{manifest_document}
use spio.Tests.Workspace.{root_config}
use spio.Tests.Store.{add_c, remove_b}

root_config-IsPackage : IsPackage (λ p. false) root_config
unfolding load_manifest text_eq is_one regex_match name_regex is_lower_or_digit is_name_char
    semver_regex strings_of
root_config-IsPackage =
    let (_, p, _) =
      load_manifest-IsManifest (λ p. false) document_toml (some manifest_document) refl in
    p

abbrev with_c : PackageConfig
with_c = record root_config {
  dependencies =
      record {
        alias = text "b";
        package_name = none;
        source_kind = path;
        source = text "b";
        rev = none;
        version = none;
      }
      ∷ record {
        alias = text "c";
        package_name = some (text "demo/c");
        source_kind = path;
        source = text "c";
        rev = none;
        version = none;
      }
      ∷ [];
}

valid_lem : validate_add_request (λ p. false) add_c ≡ ok tt
unfolding validate_add_request check_source regex_match name_regex is_lower_or_digit is_name_char
    is_non_empty_relative_path
valid_lem = refl

added_lem : add_to_package add_c (text "c") root_config ≡ ok with_c
unfolding add_to_package has_alias has_package new_dependency new_source_kind with_section
    select_section text_eq names_package
added_lem = refl

root_aliases : IsDistinct (aliases_of root_config)
unfolding contains
root_aliases = (refl, tt)

add_to_package-IsPackage_example :
    IsPackage (λ p. false) with_c × IsAddition add_c (text "c") root_config with_c
add_to_package-IsPackage_example =
    add_to_package-IsPackage (λ p. false) add_c (text "c") root_config valid_lem
      root_config-IsPackage added_lem

add_to_package-IsDistinct_example : IsDistinct (aliases_of with_c)
add_to_package-IsDistinct_example =
    add_to_package-IsDistinct add_c (text "c") root_config root_aliases added_lem

abbrev b_location : MatchLocation
b_location = record { section = k_dependencies; index = 0; alias = text "b"; package_name = [] }

abbrev without_b : PackageConfig
without_b = record root_config { dependencies = [] }

removed_lem : remove_from_package remove_b root_config ≡ ok (b_location, without_b)
unfolding remove_from_package all_matches find_matches collect_from dependency_matches_target
    only_location erase_at with_section select_section text_eq
removed_lem = refl

remove_from_package-IsRemoval_example :
    IsRemovedFrom remove_b root_config b_location without_b × IsPackage (λ p. false) without_b
remove_from_package-IsRemoval_example =
    remove_from_package-IsRemoval (λ p. false) remove_b root_config root_config-IsPackage
      removed_lem
