-- ===== src/Resolve/Node.antt =====
-- src/PafioResolve/Resolver.cpp, `SingleVersionResolver`: the graph of nodes, built depth first by
-- `ResolveNode`. The recursion is on fuel.
pub mod Invariant
pub mod Grows
pub mod Sound
pub mod Finishes
pub mod Total
use spio.Prelude.{
  ℕ, zero, suc, ◌+◌, Bytes, text, text_eq, Bool, true, false, not, ◌&&◌, ◌||◌, Option, none, some,
  List, [], ◌∷◌, ◌++◌, map, Result, ok, err, or_throw, require, throw_if, Error, resolution_error,
  workspace_error, out_of_range, if◌then◌else◌, length, get_elem?, set, has_value,
  bad_optional_access,
}
use spio.Prelude.Sort.{sort_by, sort_unique}
use spio.Prelude.Indexed.{update_at}
use spio.Prelude.Action.{
  Outcome, returned, threw, cut_off, Action, ◌>>=◌, ◌>>◌, give, from_result, ask, attempt, modify,
}
use spio.Manifest.{DependencySourceKind, path, git, registry, Dependency, PackageConfig}
use spio.Resolve.{ResolvedDependencyAlias}
use spio.Resolve.Machine.{Machine}
use spio.Resolve.Origin.{
  SourceKind, k_workspace, k_path, k_git, k_registry, SourceOrigin, plain_origin, ManifestSelection,
  path_is_within, normalize_git_source, value, build_source_fingerprint, build_lock_id,
  collect_dependencies,
}
use spio.Resolve.Git.{materialize}
use spio.Resolve.Select.{Setup, manifest_at, select_package_manifest_from_root}

pub record Node : Type 0 where
  pub manifest_path : Bytes
  pub package_dir : Bytes
  pub config : PackageConfig
  pub origin : SourceOrigin
  pub source_fingerprint : Bytes
  pub id : Bytes
  pub dependencies : List Bytes
  pub dependency_aliases : List ResolvedDependencyAlias

-- `std::unordered_map<std::string, size_t>`: a key is entered once, when it is not in the map.
unfoldable pub find : Bytes → List (Bytes × ℕ) → Option ℕ
find k [] = none
find k ((j, i) ∷ m) = if text_eq j k then some i else find k m

-- What changes while the resolver runs: the machine, the nodes, and the two maps to their indices.
pub record Progress (S : Type 0) : Type 0 where
  pub world : S
  pub nodes : List Node
  pub node_by_source_fingerprint : List (Bytes × ℕ)
  pub node_by_package_name : List (Bytes × ℕ)

-- A step of the machine leaves the nodes alone.
abbrev pub place : {S : Type 0} {A : Type 0} → Progress S → Outcome S A → Outcome (Progress S) A
place r (returned a s) = returned a (record r { world = s })
place r (threw e s) = threw e (record r { world = s })
place r cut_off = cut_off

abbrev pub on_world : {S : Type 0} {A : Type 0} → Action S A → Action (Progress S) A
on_world step r = place r (step r.world)

unfoldable pub add_node : {S : Type 0} → Node → Progress S → Progress S
add_node node r = record r {
  nodes = r.nodes ++ node ∷ [];
  node_by_source_fingerprint =
      (node.source_fingerprint, length r.nodes) ∷ r.node_by_source_fingerprint;
  node_by_package_name = (node.config.name, length r.nodes) ∷ r.node_by_package_name;
}

abbrev pub with_dependencies : List ResolvedDependencyAlias → Node → Node
with_dependencies aliases node = record node {
  dependencies = sort_unique (map (λ a. a.package_id) aliases);
  dependency_aliases = sort_by (λ a. a.alias) aliases;
}

-- `nodes_[node_index].dependencies = …`, and the aliases
unfoldable pub put_dependencies :
    {S : Type 0} → ℕ → List ResolvedDependencyAlias → Progress S → Progress S
unfolding update_at
put_dependencies i aliases r = record r { nodes = update_at i (with_dependencies aliases) r.nodes }

-- `nodes_.at(i)`
unfoldable pub node_at : {S : Type 0} → ℕ → Action (Progress S) Node
node_at i = attempt λ r. or_throw (get_elem? r.nodes i) out_of_range

-- `dependency.package.has_value() && *dependency.package != name`
unfoldable pub expects_other : Option Bytes → Bytes → Bool
expects_other none name = false
expects_other (some expected) name = not (text_eq expected name)

-- The class thrown for a manifest without a package.
unfoldable pub no_package : SourceKind → Error
no_package k_workspace = workspace_error
no_package k_path = resolution_error
no_package k_git = resolution_error
no_package k_registry = resolution_error

module _ (machine : Machine) (setup : Setup) where
  open machine use {State, canonical, parent_path, append, exists, materialize_registry_package}

  abbrev select : Bytes → SourceOrigin → Option Bytes → Action State ManifestSelection
  select root_path hint expected = do
    from_root ← attempt (select_package_manifest_from_root machine setup root_path hint expected)
    give from_root

  -- `if (parent.origin.kind == SourceKind::kGit)`
  path_hint : SourceKind → Node → Bytes → Result SourceOrigin
  path_hint k_git parent dir =
      let inside : SourceOrigin → Bytes → Result SourceOrigin = λ origin root.
        if path_is_within machine dir root || text_eq (canonical dir) (canonical root)
        then ok origin
        else err resolution_error in
      elim parent.origin.snapshot_root [
        | none ↦ err bad_optional_access
        | some root ↦ inside parent.origin root
      ]
  path_hint k_workspace parent dir = ok (plain_origin k_path)
  path_hint k_path parent dir = ok (plain_origin k_path)
  path_hint k_registry parent dir = ok (plain_origin k_path)

  unfoldable pub resolve_path_dependency : Node → Dependency → Action State ManifestSelection
  unfolding path_hint
  resolve_path_dependency parent dependency = do
    let root : Bytes =
        canonical (append (append parent.package_dir dependency.source) (text "pafio.toml"))
    present ← ask (exists root)
    from_result (require present resolution_error)
    hint ← from_result (path_hint parent.origin.kind parent (parent_path root))
    select root hint dependency.package_name

  unfoldable pub resolve_git_dependency : Node → Dependency → Action State ManifestSelection
  resolve_git_dependency parent dependency = do
    let source : Bytes = normalize_git_source machine dependency.source parent.package_dir
    rev ← from_result (value dependency.rev)
    origin ← materialize machine setup.git_cache source rev
    snapshot_root ← from_result (value origin.snapshot_root)
    let root : Bytes = append snapshot_root (text "pafio.toml")
    present ← ask (exists root)
    from_result (require present resolution_error)
    select root origin dependency.package_name

  unfoldable pub resolve_registry_dependency : Dependency → Action State ManifestSelection
  resolve_registry_dependency dependency = do
    name ← from_result (or_throw dependency.package_name resolution_error)
    version ← from_result (or_throw dependency.version resolution_error)
    materialized ← materialize_registry_package dependency.source name version setup.offline
    let origin : SourceOrigin = record (plain_origin k_registry) {
      registry_root = some materialized.registry_root;
      registry_version = some materialized.version;
      registry_sha256 = some materialized.sha256;
      snapshot_root = some materialized.snapshot_root;
    }
    let root : Bytes = append materialized.snapshot_root (text "pafio.toml")
    present ← ask (exists root)
    from_result (require present resolution_error)
    select root origin dependency.package_name

  unfoldable pub select_dependency :
      DependencySourceKind → Node → Dependency → Action State ManifestSelection
  unfolding resolve_path_dependency resolve_git_dependency resolve_registry_dependency
  select_dependency path parent dependency = resolve_path_dependency parent dependency
  select_dependency git parent dependency = resolve_git_dependency parent dependency
  select_dependency registry parent dependency = resolve_registry_dependency dependency

  -- One pass of the loop over the dependencies. `resolve` is the recursive call.
  unfoldable pub resolve_dependency :
      (Bytes → SourceOrigin → Action (Progress State) ℕ)
      → ℕ
      → Node
      → Dependency
      → Action (Progress State) ResolvedDependencyAlias
  unfolding select_dependency node_at expects_other
  resolve_dependency resolve i node dependency = do
    parent ← node_at i
    selected ← on_world (select_dependency dependency.source_kind parent dependency)
    j ← resolve selected.manifest_path selected.origin
    found ← node_at j
    from_result
        (throw_if (expects_other dependency.package_name found.config.name) resolution_error)
    from_result
        (throw_if (text_eq found.source_fingerprint node.source_fingerprint) resolution_error)
    give (record { alias = dependency.alias; package_id = found.id })

  unfoldable pub resolve_dependencies :
      (Bytes → SourceOrigin → Action (Progress State) ℕ)
      → ℕ
      → Node
      → List Dependency
      → Action (Progress State) (List ResolvedDependencyAlias)
  unfolding resolve_dependency
  resolve_dependencies resolve i node [] = give []
  resolve_dependencies resolve i node (dependency ∷ dependencies) = do
    a ← resolve_dependency resolve i node dependency
    more ← resolve_dependencies resolve i node dependencies
    give (a ∷ more)

  -- from the look-up by name on
  unfoldable pub visit_named :
      (Bytes → SourceOrigin → Action (Progress State) ℕ)
      → Node
      → Option ℕ
      → Action (Progress State) ℕ
  unfolding node_at add_node put_dependencies resolve_dependencies
  visit_named resolve node (some i) = do
    other ← node_at i
    from_result (require (text_eq other.config.version node.config.version) resolution_error)
    from_result
        (require (text_eq other.source_fingerprint node.source_fingerprint) resolution_error)
    give i
  visit_named resolve node none = do
    i ← ask (λ r. length r.nodes)
    modify (add_node node)
    aliases ← resolve_dependencies resolve i node (collect_dependencies node.config)
    modify (put_dependencies i aliases)
    give i

  -- from the look-up by fingerprint on
  unfoldable pub visit_source :
      (Bytes → SourceOrigin → Action (Progress State) ℕ)
      → Bytes
      → SourceOrigin
      → Bytes
      → Option ℕ
      → Action (Progress State) ℕ
  unfolding visit_named find no_package
  visit_source resolve manifest_path origin fingerprint (some i) = give i
  visit_source resolve manifest_path origin fingerprint none = do
    document ← attempt (λ r. manifest_at machine setup manifest_path r.world)
    config ← from_result (or_throw document.package_config (no_package origin.kind))
    id ← from_result (build_lock_id origin config)
    existing ← ask (λ r. find config.name r.node_by_package_name)
    visit_named resolve
        (record {
          manifest_path = manifest_path;
          package_dir = parent_path manifest_path;
          config = config;
          origin = origin;
          source_fingerprint = fingerprint;
          id = id;
          dependencies = [];
          dependency_aliases = [];
        })
        existing

  unfoldable pub resolve_node : ℕ → Bytes → SourceOrigin → Action (Progress State) ℕ
  unfolding visit_source find
  resolve_node zero manifest_path origin = λ r. cut_off
  resolve_node (suc fuel) manifest_path origin = do
    let normalized : Bytes = canonical manifest_path
    fingerprint ← from_result (build_source_fingerprint machine origin (parent_path normalized))
    existing ← ask (λ r. find fingerprint r.node_by_source_fingerprint)
    visit_source (resolve_node fuel) normalized origin fingerprint existing
