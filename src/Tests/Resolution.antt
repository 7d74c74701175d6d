-- ===== src/Tests/Resolution.antt =====
-- Tests: the resolver.
use spio.Prelude.{
  ℕ, ◌<◌, Bytes, text, text_eq, text_eq_iff, text_leb, contains, Bool, Bool-cases, true, false,
  none, some, List, [], ◌∷◌, ok, ok_injective, ◌≡◌, ◌≢◌, inl, inr, refl, arith, All, if◌then◌else◌,
}
use spio.Prelude.Sort.{sort_by, sort_unique, unique}
use spio.Prelude.Indexed.{update_at}
use spio.Prelude.Action.{returned, cut_off, attempt, ask, give, from_result, modify}
use spio.Toml.{is_one, strings_of}
use spio.Patterns.{is_lower_or_digit, is_name_char, semver_regex, regex_match, name_regex}
use spio.Manifest.Load.{load_manifest}
use spio.Resolve.Origin.{
  build_source_fingerprint, build_lock_id, collect_dependencies, source_kind_string,
}
use spio.Resolve.Git.{GitSourceCache, git_source_cache, materialize}
use spio.Resolve.Git.Offline.{cut_from_network, materialize-cut_from_network}
use spio.Resolve.Select.{
  manifest_at, select_package_manifest_from_root, only_match, root_match, select_origin,
  selected_kind, workspace_matches,
}
use spio.Resolve.Node.{
  find, resolve_node, visit_source, visit_named, node_at, add_node, put_dependencies, expects_other,
  resolve_dependencies, resolve_dependency, select_dependency, resolve_path_dependency,
}
use spio.Resolve.Graph.{
  packages_of, resolved_package, lockfile_of, lock_package, path_order, unique_seeds,
  top_level_dirs, normalize_options, build_root_seeds, member_seeds,
}
use spio.Resolve.Run.{resolve_single_version_graph}
use spio.Resolve.Run.Correct.{IsGraph, resolve_single_version_graph-IsGraph}
use spio.Tests.Workspace.{
  two_manifests, no_options, two_package_graph, on_disk, root_config, member_config, root_id,
  member_id,
}
use spio.Tests.Document.{document_toml}
use spio.Manifest.{ManifestDocument, PackageConfig}
use spio.Resolve.{ResolvedPackage}
use spio.Resolve.Machine.{load}
use spio.Resolve.Git.Finishes.{MachineFinishes}
use spio.Resolve.Run.Total.{resolve_single_version_graph-ne-cut_off}
use spio.Resolve.Run.Ordered.{resolved_packages-IsBuildOrder}
use spio.Plan.Order.{find_package, build_package_order}
use spio.Plan.Order.Sound.{IsBuildOrder}

graph_lem :
    resolve_single_version_graph two_manifests
      (text "1.0.0")
      (ok (text "/home"))
      3
      (text "/w/pafio.toml")
      no_options
      0
    ≡ returned two_package_graph 2
unfolding resolve_single_version_graph attempt load_manifest text_eq is_one regex_match name_regex
    is_lower_or_digit is_name_char semver_regex strings_of ask give sort_by contains text_leb
    build_source_fingerprint manifest_at build_lock_id from_result modify find resolve_node
    visit_source visit_named node_at add_node put_dependencies collect_dependencies update_at
    sort_unique packages_of resolved_package lockfile_of lock_package
    select_package_manifest_from_root only_match root_match select_origin selected_kind
    workspace_matches expects_other path_order unique_seeds source_kind_string top_level_dirs
    git_source_cache normalize_options build_root_seeds member_seeds resolve_dependencies
    resolve_dependency select_dependency resolve_path_dependency unique
graph_lem = refl

resolve_single_version_graph-IsGraph_example : IsGraph (λ p. false) two_package_graph
resolve_single_version_graph-IsGraph_example =
    resolve_single_version_graph-IsGraph two_manifests (text "1.0.0") (ok (text "/home")) 3
      (text "/w/pafio.toml") no_options 0 graph_lem

abbrev both_names : List Bytes
both_names = text "demo/app" ∷ text "demo/b" ∷ []

two_manifests-MachineFinishes : MachineFinishes two_manifests
two_manifests-MachineFinishes = record {
  create_directories = λ p. record { at = λ s q. cc };
  remove_all = λ p. record { at = λ s q. cc };
  remove = λ p. record { at = λ s q. cc };
  run_process = λ r. record { at = λ s q. cc };
  materialize_registry_package = λ root name version offline. record { at = λ s q. cc };
}

-- a manifest that is loaded from either document
named :
    {m n : ManifestDocument} {c d : PackageConfig}
    → ok n ≡ ok m
    → n.package_config ≡ some d
    → m.package_config ≡ some c
    → contains d.name both_names ≡ true
    → contains c.name both_names ≡ true
named {m} {n} {c} {d} h e f k = rw (← (same (ok_injective h) e f)) k
  where
    same :
        {m n : ManifestDocument} {c d : PackageConfig}
        → n ≡ m
        → n.package_config ≡ some d
        → m.package_config ≡ some c
        → d ≡ c
    same p q r = cc

loaded_names :
    (root member : Bool) {m : ManifestDocument} {config : PackageConfig}
    → load_manifest (λ p. false) document_toml (on_disk root member) ≡ ok m
    → m.package_config ≡ some config
    → contains config.name both_names ≡ true
unfolding load_manifest text_eq is_one regex_match name_regex is_lower_or_digit is_name_char
    semver_regex strings_of contains
loaded_names true member h e = named {d = root_config} h refl e refl
loaded_names false true h e = named {d = member_config} h refl e refl
loaded_names false false h e = cc

resolve_single_version_graph-ne-cut_off_example :
    resolve_single_version_graph two_manifests
      (text "1.0.0")
      (ok (text "/home"))
      3
      (text "/w/pafio.toml")
      no_options
      0
    ≢ cut_off
unfolding load
resolve_single_version_graph-ne-cut_off_example =
    resolve_single_version_graph-ne-cut_off two_manifests two_manifests-MachineFinishes
      (text "1.0.0") (ok (text "/home")) both_names (λ path s m config h e. loaded_names _ _ h e) 3
      (omega arith) (text "/w/pafio.toml") no_options 0

abbrev id_rank : Bytes → ℕ
id_rank k = if text_eq k root_id then 1 else 0

some_injective : {A : Type 0} {a b : A} → some a ≡ some b → a ≡ b
some_injective e = cc

ranks_fall :
    (k : Bytes) (p : ResolvedPackage)
    → find_package k two_package_graph.packages ≡ some p
    → All (λ d. id_rank d < id_rank k) p.dependencies
unfolding find_package text_eq
ranks_fall k p e = elim (Bool-cases (text_eq root_id k)) [
  | inl q ↦ rw (← ((text_eq_iff root_id k).0 q), ← (some_injective (rw q at e))) (omega arith, tt)
  | inr q ↦ elim (Bool-cases (text_eq member_id k)) [
    | inl r ↦ rw (← (some_injective (rw (q, r) at e))) tt
    | inr r ↦ absurd (ground (arith, e, q, r))
  ]
]

resolved_packages-IsBuildOrder_example :
    (order : List Bytes) × (build_package_order two_package_graph.packages ≡ ok order)
    × IsBuildOrder two_package_graph.packages [] order
resolved_packages-IsBuildOrder_example =
    resolved_packages-IsBuildOrder two_manifests (text "1.0.0") (ok (text "/home")) 3
      (text "/w/pafio.toml") no_options 0 graph_lem id_rank ranks_fall

abbrev offline_cache : GitSourceCache
offline_cache = record { pafio_home = text "/home"; offline = true; vendor_root = none }

materialize-cut_from_network_example :
    materialize (cut_from_network two_manifests) offline_cache (text "https://x/y") (text "r1")
    ≡ materialize two_manifests offline_cache (text "https://x/y") (text "r1")
materialize-cut_from_network_example =
    materialize-cut_from_network two_manifests offline_cache refl (text "https://x/y") (text "r1")
