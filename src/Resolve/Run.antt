-- ===== src/Resolve/Run.antt =====
-- src/PafioResolve/Resolver.cpp, `ResolveGraph`, `Resolve` and the two entry points.
pub mod Total
pub mod Sound
pub mod Correct
pub mod Ordered
use spio.Prelude.{ℕ, Bytes, text, List, [], ◌∷◌, Result}
use spio.Prelude.Sort.{sort_unique}
use spio.Prelude.Action.{
  Outcome, returned, threw, cut_off, Action, ◌>>=◌, give, from_result, ask, attempt,
}
use spio.Resolve.{ResolveOptions, ResolvedGraphResult, LockGenerationResult}
use spio.Resolve.Machine.{Machine, load}
use spio.Resolve.Origin.{ManifestSelection}
use spio.Resolve.Git.{git_source_cache}
use spio.Resolve.Select.{Setup}
use spio.Resolve.Node.{Progress, node_at, resolve_node}
use spio.Resolve.Graph.{
  build_root_seeds, top_level_dirs, normalize_options, packages_of, lockfile_of,
}

abbrev pub no_nodes : {S : Type 0} → S → Progress S
no_nodes s = record {
  world = s;
  nodes = [];
  node_by_source_fingerprint = [];
  node_by_package_name = [];
}

abbrev pub forget_nodes : {S : Type 0} {A : Type 0} → Outcome (Progress S) A → Outcome S A
forget_nodes (returned a r) = returned a r.world
forget_nodes (threw e r) = threw e r.world
forget_nodes cut_off = cut_off

-- `version` is `kVersion`, and `pafio_home` is `ResolvePafioHome()`.
module _ (machine : Machine) (version : Bytes) (pafio_home : Result Bytes) where
  open machine use {State, canonical, parent_path, append}

  unfoldable pub resolve_roots :
      Setup → ℕ → List ManifestSelection → Action (Progress State) (List Bytes)
  unfolding resolve_node node_at
  resolve_roots setup fuel [] = give []
  resolve_roots setup fuel (seed ∷ seeds) = do
    i ← resolve_node machine setup fuel seed.manifest_path seed.origin
    node ← node_at i
    ids ← resolve_roots setup fuel seeds
    give (node.id ∷ ids)

  unfoldable pub resolve_graph :
      Setup → ℕ → List ManifestSelection → Action (Progress State) ResolvedGraphResult
  unfolding resolve_roots packages_of lockfile_of
  resolve_graph setup fuel seeds = do
    ids ← resolve_roots setup fuel seeds
    packages ← ask (λ r. packages_of r.nodes)
    give (record {
      manifest_path = setup.root_manifest_path;
      lockfile_path = append (parent_path setup.root_manifest_path) (text "pafio.lock");
      root_ids = sort_unique ids;
      packages = packages;
      lockfile = lockfile_of version packages;
    })

  -- the constructor, then `ResolveGraph`
  unfoldable pub resolve_single_version_graph :
      ℕ → Bytes → ResolveOptions → Action State ResolvedGraphResult
  unfolding load build_root_seeds top_level_dirs normalize_options git_source_cache resolve_graph
  resolve_single_version_graph fuel manifest_path options = do
    let root : Bytes = canonical manifest_path
    document ← attempt (load machine root)
    normalized ← ask (λ s. normalize_options machine s root options)
    home ← from_result pafio_home
    cache ← git_source_cache machine home normalized.offline normalized.vendor_root
    seeds ← attempt λ s. build_root_seeds machine s root document.package_config document.workspace
    λ s. forget_nodes (
        resolve_graph
          (record {
            root_manifest_path = root;
            root_manifest = document;
            offline = normalized.offline;
            git_cache = cache;
            top_level_workspace_dirs = top_level_dirs machine seeds;
          })
          fuel seeds (no_nodes s))

  unfoldable pub resolve_single_version_lockfile :
      ℕ → Bytes → ResolveOptions → Action State LockGenerationResult
  unfolding resolve_single_version_graph
  resolve_single_version_lockfile fuel manifest_path options = do
    graph ← resolve_single_version_graph fuel manifest_path options
    give (record {
      manifest_path = graph.manifest_path;
      lockfile_path = graph.lockfile_path;
      root_ids = graph.root_ids;
      lockfile = graph.lockfile;
    })
