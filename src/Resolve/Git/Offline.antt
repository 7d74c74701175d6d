-- ===== src/Resolve/Git/Offline.antt =====
-- src/PafioResolve/Resolver.cpp, `GitSourceCache`: offline, nothing is cloned or fetched.
use mathlib.Core.Path.{fun_ext}
use spio.Prelude.{
  Bytes, text, text_eq, Bool, true, false, ◌||◌, Option, none, some, List, [], ◌∷◌, ◌++◌,
  cache_error, if◌then◌else◌, ◌≡◌, refl,
}
use spio.Prelude.Action.{threw, from_result}
use spio.Resolve.Machine.{Machine}
use spio.Resolve.Origin.{fnv1a64, hex64}
use spio.Resolve.Git.{
  GitSourceCache, has_revision, ensure_snapshot, make_snapshot, materialize, mirrored,
  with_revision, materialize_from,
}

-- `git clone …` and `git --git-dir … fetch …`, the commands that go to another machine
unfoldable pub goes_out : List Bytes → Bool
goes_out [] = false
goes_out (a ∷ []) = text_eq a (text "clone")
goes_out (a ∷ b ∷ []) = text_eq a (text "clone")
goes_out (a ∷ b ∷ c ∷ more) = text_eq a (text "clone") || text_eq c (text "fetch")

-- The machine with these commands made to fail.
abbrev pub cut_from_network : Machine → Machine
cut_from_network machine = record machine {
  run_process = λ r s. if goes_out r.args then threw cache_error s else machine.run_process r s;
}

module _ (machine : Machine) where
  open machine use {append}

  has_revision_same :
      (repo_dir rev : Bytes)
      → has_revision (cut_from_network machine) repo_dir rev ≡ has_revision machine repo_dir rev
  unfolding has_revision goes_out text_eq
  has_revision_same repo_dir rev = refl

  ensure_snapshot_same :
      (repo_dir root rev : Bytes)
      → ensure_snapshot (cut_from_network machine) repo_dir root rev
        ≡ ensure_snapshot machine repo_dir root rev
  unfolding ensure_snapshot make_snapshot goes_out text_eq
  ensure_snapshot_same repo_dir root rev = refl

  module _ (cache : GitSourceCache) (offline : cache.offline ≡ true) where
    mirrored_same :
        (source repo_dir : Bytes) (present : Bool)
        → mirrored (cut_from_network machine) cache source repo_dir present
          ≡ mirrored machine cache source repo_dir present
    unfolding mirrored from_result
    mirrored_same source repo_dir true = refl
    mirrored_same source repo_dir false = rw offline refl

    with_revision_same :
        (repo_dir rev : Bytes) (known : Bool)
        → with_revision (cut_from_network machine) cache repo_dir rev known
          ≡ with_revision machine cache repo_dir rev known
    unfolding with_revision from_result
    with_revision_same repo_dir rev true = refl
    with_revision_same repo_dir rev false = rw offline refl

    materialize_from_same :
        (source rev repo_hash : Bytes) (vendored : Option Bytes)
        → materialize_from (cut_from_network machine) cache source rev repo_hash vendored
          ≡ materialize_from machine cache source rev repo_hash vendored
    unfolding materialize_from
    materialize_from_same source rev repo_hash (some root) = refl
    materialize_from_same source rev repo_hash none =
        let git_home : Bytes = append cache.pafio_home (text "git") in
        let repo_dir : Bytes = append (append git_home (text "repos")) (repo_hash ++ text ".git") in
        let root : Bytes = append (append (append git_home (text "checkouts")) repo_hash) rev in
        rw
          (
            fun_ext (mirrored_same source repo_dir),
            has_revision_same repo_dir rev,
            fun_ext (with_revision_same repo_dir rev),
            ensure_snapshot_same repo_dir root rev,
          )
          refl

    -- An offline cache needs no network: where cloning and fetching are made to fail, a source is
    -- materialized with the same outcome, from every state of the machine.
    pub materialize-cut_from_network :
        (source rev : Bytes)
        → materialize (cut_from_network machine) cache source rev
          ≡ materialize machine cache source rev
    unfolding materialize
    materialize-cut_from_network source rev =
        rw (fun_ext (materialize_from_same source rev (hex64 (fnv1a64 source)))) refl
