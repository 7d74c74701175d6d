-- ===== src/Resolve/Graph.antt =====
-- src/PafioResolve/Resolver.cpp: the construction of a `SingleVersionResolver`, and the graph and
-- the lockfile that it gives. The version of the program comes from the build.
use spio.Prelude.{
  Bytes, text, text_eq, contains, Option, none, some, has_value, List, [], ◌∷◌, ◌++◌, map, Result,
  ok, ◌>>=◌, ◌>>◌, require, throw_if, workspace_error, if◌then◌else◌, ◌==◌,
}
use spio.Prelude.Sort.{sort_by}
use spio.Manifest.{WorkspaceConfig, PackageConfig}
use spio.Lockfile.{LockPackage, LockfileDocument}
use spio.Resolve.{ResolveOptions, ResolvedPackage}
use spio.Resolve.Machine.{Machine, load}
use spio.Resolve.Origin.{k_workspace, plain_origin, ManifestSelection, source_kind_string}
use spio.Resolve.Select.{member_manifest}
use spio.Resolve.Node.{Node}

-- The order of fs::path, which compares the elements between the slashes.
unfoldable pub path_order : Bytes → Bytes
path_order path = map (λ c. if c == b'/' then 0 else c) path

drop_same_head : ManifestSelection → List ManifestSelection → List ManifestSelection
drop_same_head seed [] = []
drop_same_head seed (other ∷ seeds) =
    if text_eq seed.manifest_path other.manifest_path then seeds else other ∷ seeds

-- std::unique by the path, with erase
unfoldable pub unique_seeds : List ManifestSelection → List ManifestSelection
unfolding drop_same_head
unique_seeds [] = []
unique_seeds (seed ∷ seeds) = seed ∷ drop_same_head seed (unique_seeds seeds)

abbrev seed_of : Bytes → ManifestSelection
seed_of path = record { manifest_path = path; origin = plain_origin k_workspace }

abbrev pub package_seeds : Bytes → Option PackageConfig → List ManifestSelection
package_seeds path none = []
package_seeds path (some config) = seed_of path ∷ []

module _ (machine : Machine) where
  open machine use {State, canonical, parent_path, append, exists}

  unfoldable pub member_seeds :
      State → Bytes → List Bytes → List Bytes → Result (List ManifestSelection)
  unfolding load
  member_seeds s root_dir excluded [] = ok []
  member_seeds s root_dir excluded (member ∷ members) = do
    throw_if (contains member excluded) workspace_error
    let path : Bytes = member_manifest machine root_dir member
    require (exists path s) workspace_error
    document ← load machine path s
    require (has_value document.package_config) workspace_error
    seeds ← member_seeds s root_dir excluded members
    ok (seed_of path ∷ seeds)

  -- `root_seeds_`
  unfoldable pub build_root_seeds :
      State
      → Bytes
      → Option PackageConfig
      → Option WorkspaceConfig
      → Result (List ManifestSelection)
  unfolding member_seeds unique_seeds path_order
  build_root_seeds s root_path config none = ok (package_seeds root_path config)
  build_root_seeds s root_path config (some workspace) = do
    members ←
        member_seeds s (parent_path root_path) workspace.exclude
          (sort_by (λ m. m) workspace.members)
    ok (
        unique_seeds (
          sort_by (λ seed. path_order seed.manifest_path)
            (package_seeds root_path config ++ members)))

  -- `PathKey(manifest.parent_path())` of each seed
  unfoldable pub top_level_dirs : List ManifestSelection → List Bytes
  top_level_dirs seeds = map (λ seed. canonical (parent_path seed.manifest_path)) seeds

  unfoldable pub project_state_root_for_manifest : Bytes → Bytes
  project_state_root_for_manifest path =
      canonical (append (parent_path (canonical path)) (text ".pafio"))

  unfoldable pub project_vendor_root_for_manifest : Bytes → Bytes
  unfolding project_state_root_for_manifest
  project_vendor_root_for_manifest path =
      canonical (append (project_state_root_for_manifest path) (text "vendor"))

  -- `NormalizeOptions`
  unfoldable pub normalize_options : State → Bytes → ResolveOptions → ResolveOptions
  unfolding project_vendor_root_for_manifest
  normalize_options s manifest_path options =
      let default_root : Bytes = project_vendor_root_for_manifest manifest_path in
      let chosen : Option Bytes = elim options.vendor_root [
        | some root ↦ some (canonical root)
        | none ↦ if exists default_root s then some default_root else none
      ] in
      record options { vendor_root = chosen }

unfoldable pub resolved_package : Node → ResolvedPackage
resolved_package node = record {
  manifest_path = node.manifest_path;
  root_dir = node.package_dir;
  config = node.config;
  id = node.id;
  source_kind = source_kind_string node.origin.kind;
  git = node.origin.git_source;
  rev = node.origin.git_rev;
  registry = node.origin.registry_root;
  sha256 = node.origin.registry_sha256;
  repo_hash = node.origin.repo_hash;
  snapshot_root = node.origin.snapshot_root;
  dependencies = node.dependencies;
  dependency_aliases = node.dependency_aliases;
}

unfoldable pub lock_package : ResolvedPackage → LockPackage
lock_package p = record {
  id = p.id;
  name = p.config.name;
  version = p.config.version;
  source_kind = p.source_kind;
  git = p.git;
  rev = p.rev;
  registry = p.registry;
  sha256 = p.sha256;
  dependencies = p.dependencies;
}

-- The packages, by their ids.
unfoldable pub packages_of : List Node → List ResolvedPackage
packages_of nodes = sort_by (λ p. p.id) (map resolved_package nodes)

unfoldable pub lockfile_of : Bytes → List ResolvedPackage → LockfileDocument
lockfile_of version packages = record {
  generated_by = text "pafio " ++ version;
  resolver = text "single-version-v1";
  packages = map lock_package packages;
}
