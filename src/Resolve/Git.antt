-- ===== src/Resolve/Git.antt =====
-- src/PafioResolve/Resolver.cpp, `GitSourceCache`: the snapshot of a git revision, from a vendored
-- copy or from a mirror that is cloned and fetched as needed.
pub mod Finishes
pub mod Offline
use spio.Prelude.{
  ℕ, Bytes, text, Bool, true, false, List, ◌++◌, [], ◌∷◌, Option, none, some, not, ◌||◌,
  if◌then◌else◌, fetch_error, cache_error, require, throw_if, ◌==◌, has_value,
}
use spio.Prelude.Action.{Action, ◌>>=◌, ◌>>◌, give, from_result, ask, modify}
use spio.Toml.{ℤ, pos, negsuc}
use spio.Resolve.Machine.{
  Machine, ProcessRequest, ProcessResult, Timeout, step_timeout, probe_timeout,
}
use spio.Resolve.Origin.{SourceOrigin, SourceKind, k_git, fnv1a64, hex64}

-- `exit_code == 0`
unfoldable pub succeeded : ProcessResult → Bool
succeeded r = elim r.exit_code [ pos n ↦ n == 0 | negsuc n ↦ false ]

pub record GitSourceCache : Type 0 where
  pub pafio_home : Bytes
  pub offline : Bool
  pub vendor_root : Option Bytes

abbrev pub git_origin : Bytes → Bytes → Bytes → Bytes → SourceOrigin
git_origin source rev repo_hash snapshot_root = record {
  kind = k_git;
  git_source = some source;
  git_rev = some rev;
  registry_root = none;
  registry_version = none;
  registry_sha256 = none;
  repo_hash = some repo_hash;
  snapshot_root = some snapshot_root;
}

abbrev git_request : Timeout → List Bytes → ProcessRequest
git_request timeout args = record { program = text "git"; args = args; timeout = timeout }

module _ (machine : Machine) where
  open machine use {
    State, canonical, parent_path, append, exists, create_directories, remove_all, remove,
    try_remove, try_write, run_process,
  }

  -- the constructor
  unfoldable pub git_source_cache : Bytes → Bool → Option Bytes → Action State GitSourceCache
  git_source_cache pafio_home offline vendor_root = do
    let home : Bytes = canonical pafio_home
    create_directories (append (append home (text "git")) (text "repos"))
    create_directories (append (append home (text "git")) (text "checkouts"))
    give (record {
      pafio_home = home;
      offline = offline;
      vendor_root = elim vendor_root [ none ↦ none | some root ↦ some (canonical root) ];
    })

  vendored_at : Bytes → State → Option Bytes
  vendored_at snapshot_root s =
      if exists snapshot_root s
      then if exists (append snapshot_root (text ".pafio-snapshot-ready")) s
          || exists (append snapshot_root (text "pafio.toml")) s
        then some (canonical snapshot_root)
        else none
      else none

  unfoldable pub find_vendored_snapshot : Option Bytes → Bytes → Bytes → State → Option Bytes
  unfolding vendored_at
  find_vendored_snapshot none repo_hash rev s = none
  find_vendored_snapshot (some vendor_root) repo_hash rev s =
      vendored_at (append (append (append vendor_root (text "git")) repo_hash) rev) s

  clone_mirror : Bytes → Bytes → Action State (Unit {0})
  clone_mirror source repo_dir = do
    create_directories (parent_path repo_dir)
    result ←
        run_process
          (git_request step_timeout (text "clone" ∷ text "--mirror" ∷ source ∷ repo_dir ∷ []))
    from_result (require (succeeded result) fetch_error)

  unfoldable pub ensure_mirror : Bytes → Bytes → Action State (Unit {0})
  unfolding clone_mirror
  ensure_mirror source repo_dir = do
    present ← ask (exists repo_dir)
    if present then give tt else clone_mirror source repo_dir

  unfoldable pub has_revision : Bytes → Bytes → Action State Bool
  has_revision repo_dir rev = do
    result ← run_process (
        git_request probe_timeout (
          text "--git-dir"
          ∷ repo_dir
          ∷ text "cat-file"
          ∷ text "-e"
          ∷ (rev ++ text "^{commit}")
          ∷ []))
    from_result (throw_if result.timed_out fetch_error)
    give (succeeded result)

  unfoldable pub fetch_origin : Bytes → Action State (Unit {0})
  fetch_origin repo_dir = do
    result ← run_process (
        git_request step_timeout
          (text "--git-dir" ∷ repo_dir ∷ text "fetch" ∷ text "--prune" ∷ text "origin" ∷ []))
    from_result (require (succeeded result) fetch_error)

  -- the archive is removed before the failure is reported
  archived : Bytes → Bool → Action State (Unit {0})
  archived archive_path true = give tt
  archived archive_path false = do
    modify (try_remove archive_path)
    from_result (require false fetch_error)

  make_snapshot : Bytes → Bytes → Bytes → Bytes → Action State (Unit {0})
  unfolding archived
  make_snapshot repo_dir snapshot_root rev ready_marker = do
    remove_all snapshot_root
    create_directories snapshot_root
    let archive_path : Bytes =
        append (parent_path snapshot_root) (hex64 (fnv1a64 rev) ++ text ".tar")
    archive ← run_process (
        git_request step_timeout (
          text "--git-dir"
          ∷ repo_dir
          ∷ text "archive"
          ∷ text "--format=tar"
          ∷ text "--output"
          ∷ archive_path
          ∷ rev
          ∷ []))
    archived archive_path (succeeded archive)
    extract ← run_process (record {
      program = text "tar";
      args = text "-xf" ∷ archive_path ∷ text "-C" ∷ snapshot_root ∷ [];
      timeout = step_timeout;
    })
    remove archive_path
    from_result (require (succeeded extract) cache_error)
    modify (try_write ready_marker (text "ready\n"))

  unfoldable pub ensure_snapshot : Bytes → Bytes → Bytes → Action State (Unit {0})
  unfolding make_snapshot
  ensure_snapshot repo_dir snapshot_root rev = do
    let ready_marker : Bytes = append snapshot_root (text ".pafio-snapshot-ready")
    ready ← ask (exists ready_marker)
    if ready then give tt else make_snapshot repo_dir snapshot_root rev ready_marker

  -- `if (!fs::exists(repo_dir))`
  mirrored : GitSourceCache → Bytes → Bytes → Bool → Action State (Unit {0})
  unfolding ensure_mirror
  mirrored cache source repo_dir true = give tt
  mirrored cache source repo_dir false = do
    from_result (throw_if cache.offline fetch_error)
    ensure_mirror source repo_dir

  -- `if (!HasRevision(repo_dir, rev))`
  with_revision : GitSourceCache → Bytes → Bytes → Bool → Action State (Unit {0})
  unfolding fetch_origin has_revision
  with_revision cache repo_dir rev true = give tt
  with_revision cache repo_dir rev false = do
    from_result (throw_if cache.offline fetch_error)
    fetch_origin repo_dir
    fetched ← has_revision repo_dir rev
    from_result (require fetched fetch_error)

  materialize_from :
      GitSourceCache → Bytes → Bytes → Bytes → Option Bytes → Action State SourceOrigin
  unfolding mirrored with_revision ensure_snapshot has_revision
  materialize_from cache source rev repo_hash (some root) =
      give (git_origin source rev repo_hash root)
  materialize_from cache source rev repo_hash none = do
    let git_home : Bytes = append cache.pafio_home (text "git")
    let repo_dir : Bytes = append (append git_home (text "repos")) (repo_hash ++ text ".git")
    present ← ask (exists repo_dir)
    mirrored cache source repo_dir present
    known ← has_revision repo_dir rev
    with_revision cache repo_dir rev known
    let snapshot_root : Bytes = append (append (append git_home (text "checkouts")) repo_hash) rev
    ensure_snapshot repo_dir snapshot_root rev
    give (git_origin source rev repo_hash snapshot_root)

  unfoldable pub materialize : GitSourceCache → Bytes → Bytes → Action State SourceOrigin
  unfolding materialize_from find_vendored_snapshot
  materialize cache source rev = do
    let repo_hash : Bytes = hex64 (fnv1a64 source)
    vendored ← ask (find_vendored_snapshot cache.vendor_root repo_hash rev)
    materialize_from cache source rev repo_hash vendored
