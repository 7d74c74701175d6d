-- ===== src/Resolve/Select.antt =====
-- src/PafioResolve/Resolver.cpp: from the root manifest of a
-- dependency to the manifest of the package it means (`SelectPackageManifestFromRoot`). What `SingleVersionResolver` is constructed
-- with is `Setup`, which does not change afterwards.
use spio.Prelude.{
  Bytes, text, text_eq, contains, Bool, true, false, Option, none, some, has_value, List, [], ◌∷◌,
  ◌++◌, Result, ok, err, ◌>>=◌, ◌>>◌, or_throw, require, resolution_error, if◌then◌else◌,
}
use spio.Prelude.Sort.{sort_by}
use spio.Manifest.{PackageConfig, WorkspaceConfig, ManifestDocument}
use spio.Resolve.Machine.{Machine, load}
use spio.Resolve.Origin.{
  SourceKind, k_workspace, k_path, k_git, k_registry, SourceOrigin, ManifestSelection,
}
use spio.Resolve.Git.{GitSourceCache}

pub record Setup : Type 0 where
  pub root_manifest_path : Bytes
  pub root_manifest : ManifestDocument
  pub offline : Bool
  pub git_cache : GitSourceCache
  pub top_level_workspace_dirs : List Bytes

-- The manifest of the package at the root, where it is the one that is expected.
unfoldable pub root_match : Bytes → Option PackageConfig → Option Bytes → List Bytes
root_match path none expected = []
root_match path (some config) none = path ∷ []
root_match path (some config) (some name) = if text_eq config.name name then path ∷ [] else []

-- `matches.empty()`, `matches.size() > 1`
unfoldable pub only_match : List Bytes → Result Bytes
only_match [] = err resolution_error
only_match (path ∷ []) = ok path
only_match (path ∷ other ∷ more) = err resolution_error

-- `kind == kWorkspace || kind == kPath`
abbrev is_local : SourceKind → Bool
is_local k_workspace = true
is_local k_path = true
is_local k_git = false
is_local k_registry = false

-- `top_level_workspace_dirs_.contains(selected_dir) ? kWorkspace : kPath`, for a local origin
unfoldable pub selected_kind : SourceKind → Bool → SourceKind
selected_kind k_git at_top = k_git
selected_kind k_registry at_top = k_registry
selected_kind k_workspace at_top = if at_top then k_workspace else k_path
selected_kind k_path at_top = if at_top then k_workspace else k_path

module _ (machine : Machine) where
  open machine use {State, canonical, parent_path, append, exists}

  abbrev pub member_manifest : Bytes → Bytes → Bytes
  member_manifest root_dir member = canonical (append (append root_dir member) (text "pafio.toml"))

  -- the body of the loop, behind `if (excluded.contains(member)) continue;`
  unfoldable pub included_member : State → Bytes → Bytes → Result (List Bytes)
  unfolding load
  included_member s name path = do
    require (exists path s) resolution_error
    document ← load machine path s
    config ← or_throw document.package_config resolution_error
    ok (if text_eq config.name name then path ∷ [] else [])

  unfoldable pub member_match : State → Bytes → List Bytes → Bytes → Bytes → Result (List Bytes)
  unfolding included_member
  member_match s root_dir excluded name member =
      if contains member excluded
      then ok []
      else included_member s name (member_manifest root_dir member)

  unfoldable pub member_matches :
      State → Bytes → List Bytes → Bytes → List Bytes → Result (List Bytes)
  unfolding member_match
  member_matches s root_dir excluded name [] = ok []
  member_matches s root_dir excluded name (member ∷ members) = do
    here ← member_match s root_dir excluded name member
    rest ← member_matches s root_dir excluded name members
    ok (here ++ rest)

  -- `if (root_doc.workspace.has_value())`
  unfoldable pub workspace_matches :
      State
      → Bytes
      → Option PackageConfig
      → Option WorkspaceConfig
      → Option Bytes
      → Result (List Bytes)
  unfolding member_matches
  workspace_matches s root_dir config none expected = ok []
  workspace_matches s root_dir config (some workspace) none = do
    require (has_value config) resolution_error
    ok []
  workspace_matches s root_dir config (some workspace) (some name) =
      member_matches s root_dir workspace.exclude name (sort_by (λ m. m) workspace.members)

  module _ (setup : Setup) where
    -- The manifest at the root is not read again.
    unfoldable pub manifest_at : Bytes → State → Result ManifestDocument
    unfolding load
    manifest_at path s =
        if text_eq path setup.root_manifest_path
        then ok setup.root_manifest
        else load machine path s

    unfoldable pub select_origin : SourceOrigin → Bytes → SourceOrigin
    unfolding selected_kind
    select_origin origin_hint path = record origin_hint {
      kind =
          selected_kind origin_hint.kind
            (contains (canonical (parent_path path)) setup.top_level_workspace_dirs);
    }

    unfoldable pub select_package_manifest_from_root :
        Bytes → SourceOrigin → Option Bytes → State → Result ManifestSelection
    unfolding manifest_at root_match workspace_matches only_match select_origin
    select_package_manifest_from_root root_path origin_hint expected s = do
      document ← manifest_at root_path s
      members ←
          workspace_matches s (parent_path root_path) document.package_config document.workspace
            expected
      path ← only_match (root_match root_path document.package_config expected ++ members)
      ok (record { manifest_path = path; origin = select_origin origin_hint path })
