-- ===== src/Tests/Commands.antt =====
-- Tests: the commands on a store of files.
use spio.Prelude.{text, text_eq, text_leb, contains, [], ok, err, cache_error, ◌≡◌, refl}
use spio.Prelude.Sort.{sort_by, sort_unique, unique}
use spio.Prelude.Indexed.{update_at}
use spio.Prelude.Action.{Outcome, returned, threw, attempt, ask, give, from_result, modify}
use spio.Toml.{is_one, strings_of}
use spio.Patterns.{is_lower_or_digit, is_name_char, semver_regex, regex_match, name_regex}
use spio.Manifest.Load.{load_manifest, is_non_empty_relative_path}
use spio.Resolve.Origin.{
  build_source_fingerprint, build_lock_id, collect_dependencies, source_kind_string,
}
use spio.Resolve.Git.{git_source_cache}
use spio.Resolve.Select.{
  manifest_at, select_package_manifest_from_root, only_match, root_match, select_origin,
  selected_kind, workspace_matches,
}
use spio.Resolve.Node.{
  find, resolve_node, visit_source, visit_named, node_at, add_node, put_dependencies, expects_other,
  resolve_dependencies, resolve_dependency, select_dependency, resolve_path_dependency,
}
use spio.Resolve.Graph.{
  packages_of, resolved_package, lockfile_of, lock_package, path_order, unique_seeds,
  top_level_dirs, normalize_options, build_root_seeds, member_seeds,
}
use spio.Resolve.Run.{resolve_single_version_graph, resolve_single_version_lockfile}
use spio.Workflow.{DependencyCommandResult, k_dependencies}
use spio.Workflow.Edit.{
  validate_add_request, check_source, package_short_name, after_slash, add_to_package, has_alias,
  has_package, new_dependency, new_source_kind, with_section, select_section, names_package,
  remove_from_package, all_matches, find_matches, collect_from, dependency_matches_target,
  only_location, erase_at,
}
use spio.Workflow.Commit.{
  read_file, read_lockfile, load_package, commit_manifest_edit, write_edit, write_file, restore,
  restore_lockfile, add_dependency_and_refresh_lock, remove_dependency_and_refresh_lock,
}
use spio.Workflow.Commit.Atomic.{
  IsAtomic, add_dependency_and_refresh_lock-IsAtomic, remove_dependency_and_refresh_lock-IsAtomic,
}
use spio.Workflow.Commit.Success.{IsAdded, add_dependency_and_refresh_lock-IsAdded}
use spio.Tests.Store.{
  Contents, store_machine, store_files, at_start, add_c, remove_b, end_state, end_value,
}

-- The home cannot be resolved, so the resolver throws behind the write of the manifest.
abbrev failed_add : Outcome Contents DependencyCommandResult
failed_add =
    add_dependency_and_refresh_lock store_machine store_files (text "1.0.0") (err cache_error) 3
      add_c at_start

abbrev failed_remove : Outcome Contents DependencyCommandResult
failed_remove =
    remove_dependency_and_refresh_lock store_machine store_files (text "1.0.0") (err cache_error) 3
      remove_b at_start

abbrev worked_add : Outcome Contents DependencyCommandResult
worked_add =
    add_dependency_and_refresh_lock store_machine store_files (text "1.0.0") (ok (text "/home")) 3
      add_c at_start

abbrev no_result : DependencyCommandResult
no_result = record {
  manifest_path = [];
  lockfile_path = [];
  alias = [];
  package_name = [];
  section = k_dependencies;
  package_count = 0;
}

failed_add_lem : failed_add ≡ threw cache_error (end_state failed_add at_start)
unfolding resolve_single_version_graph attempt load_manifest text_eq is_one regex_match name_regex
    is_lower_or_digit is_name_char semver_regex strings_of ask give sort_by contains text_leb
    build_source_fingerprint manifest_at build_lock_id from_result modify find resolve_node
    visit_source visit_named node_at add_node put_dependencies collect_dependencies update_at
    sort_unique packages_of resolved_package lockfile_of lock_package
    select_package_manifest_from_root only_match root_match select_origin selected_kind
    workspace_matches expects_other path_order unique_seeds source_kind_string top_level_dirs
    git_source_cache normalize_options build_root_seeds member_seeds resolve_dependencies
    resolve_dependency select_dependency resolve_path_dependency unique
    add_dependency_and_refresh_lock remove_dependency_and_refresh_lock validate_add_request
    check_source is_non_empty_relative_path package_short_name read_file read_lockfile load_package
    add_to_package commit_manifest_edit write_edit write_file restore restore_lockfile
    resolve_single_version_lockfile has_alias has_package new_dependency new_source_kind
    with_section select_section names_package remove_from_package all_matches find_matches
    collect_from dependency_matches_target only_location erase_at after_slash
failed_add_lem = refl

failed_remove_lem : failed_remove ≡ threw cache_error (end_state failed_remove at_start)
unfolding resolve_single_version_graph attempt load_manifest text_eq is_one regex_match name_regex
    is_lower_or_digit is_name_char semver_regex strings_of ask give sort_by contains text_leb
    build_source_fingerprint manifest_at build_lock_id from_result modify find resolve_node
    visit_source visit_named node_at add_node put_dependencies collect_dependencies update_at
    sort_unique packages_of resolved_package lockfile_of lock_package
    select_package_manifest_from_root only_match root_match select_origin selected_kind
    workspace_matches expects_other path_order unique_seeds source_kind_string top_level_dirs
    git_source_cache normalize_options build_root_seeds member_seeds resolve_dependencies
    resolve_dependency select_dependency resolve_path_dependency unique
    add_dependency_and_refresh_lock remove_dependency_and_refresh_lock validate_add_request
    check_source is_non_empty_relative_path package_short_name read_file read_lockfile load_package
    add_to_package commit_manifest_edit write_edit write_file restore restore_lockfile
    resolve_single_version_lockfile has_alias has_package new_dependency new_source_kind
    with_section select_section names_package remove_from_package all_matches find_matches
    collect_from dependency_matches_target only_location erase_at after_slash
failed_remove_lem = refl

worked_add_lem :
    worked_add ≡ returned (end_value worked_add no_result) (end_state worked_add at_start)
unfolding resolve_single_version_graph attempt load_manifest text_eq is_one regex_match name_regex
    is_lower_or_digit is_name_char semver_regex strings_of ask give sort_by contains text_leb
    build_source_fingerprint manifest_at build_lock_id from_result modify find resolve_node
    visit_source visit_named node_at add_node put_dependencies collect_dependencies update_at
    sort_unique packages_of resolved_package lockfile_of lock_package
    select_package_manifest_from_root only_match root_match select_origin selected_kind
    workspace_matches expects_other path_order unique_seeds source_kind_string top_level_dirs
    git_source_cache normalize_options build_root_seeds member_seeds resolve_dependencies
    resolve_dependency select_dependency resolve_path_dependency unique
    add_dependency_and_refresh_lock remove_dependency_and_refresh_lock validate_add_request
    check_source is_non_empty_relative_path package_short_name read_file read_lockfile load_package
    add_to_package commit_manifest_edit write_edit write_file restore restore_lockfile
    resolve_single_version_lockfile has_alias has_package new_dependency new_source_kind
    with_section select_section names_package remove_from_package all_matches find_matches
    collect_from dependency_matches_target only_location erase_at after_slash
worked_add_lem = refl

add_dependency_and_refresh_lock-IsAtomic_example :
    IsAtomic store_machine store_files
      (text "1.0.0")
      (err cache_error)
      3
      (text "/w/pafio.toml")
      at_start
      cache_error
      (end_state failed_add at_start)
add_dependency_and_refresh_lock-IsAtomic_example =
    add_dependency_and_refresh_lock-IsAtomic store_machine store_files (text "1.0.0")
      (err cache_error) 3 add_c at_start failed_add_lem

remove_dependency_and_refresh_lock-IsAtomic_example :
    IsAtomic store_machine store_files
      (text "1.0.0")
      (err cache_error)
      3
      (text "/w/pafio.toml")
      at_start
      cache_error
      (end_state failed_remove at_start)
remove_dependency_and_refresh_lock-IsAtomic_example =
    remove_dependency_and_refresh_lock-IsAtomic store_machine store_files (text "1.0.0")
      (err cache_error) 3 remove_b at_start failed_remove_lem

add_dependency_and_refresh_lock-IsAdded_example :
    IsAdded store_machine store_files
      (text "1.0.0")
      (ok (text "/home"))
      3
      add_c
      at_start
      (end_value worked_add no_result)
      (end_state worked_add at_start)
add_dependency_and_refresh_lock-IsAdded_example =
    add_dependency_and_refresh_lock-IsAdded store_machine store_files (text "1.0.0")
      (ok (text "/home")) 3 add_c at_start worked_add_lem
