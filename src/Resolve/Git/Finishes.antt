-- ===== src/Resolve/Git/Finishes.antt =====
-- src/PafioResolve/Resolver.cpp, `GitSourceCache`: each step returns or throws, when those of the
-- machine do.
use spio.Prelude.{Bytes, Bool, true, false, Option, none, some}
use spio.Prelude.Finishes.{
  Finishes, >>=-Finishes, give-Finishes, ask-Finishes, modify-Finishes, from_result-Finishes,
  if-Finishes,
}
use spio.Resolve.Machine.{Machine, ProcessRequest}
use spio.Resolve.Git.{
  GitSourceCache, git_source_cache, ensure_mirror, has_revision, fetch_origin, ensure_snapshot,
  materialize, clone_mirror, archived, make_snapshot, mirrored, with_revision, materialize_from,
}

-- Each operation of the machine returns or throws.
pub record MachineFinishes (machine : Machine) : Type 0 where
  pub create_directories : (p : Bytes) → Finishes (machine.create_directories p)
  pub remove_all : (p : Bytes) → Finishes (machine.remove_all p)
  pub remove : (p : Bytes) → Finishes (machine.remove p)
  pub run_process : (r : ProcessRequest) → Finishes (machine.run_process r)
  pub materialize_registry_package :
      (root name version : Bytes) (offline : Bool)
      → Finishes (machine.materialize_registry_package root name version offline)

module _ (machine : Machine) (m : MachineFinishes machine) where
  clone_mirror-Finishes : (source repo : Bytes) → Finishes (clone_mirror machine source repo)
  unfolding clone_mirror
  clone_mirror-Finishes source repo =
      >>=-Finishes (m.create_directories _)
        λ _. >>=-Finishes (m.run_process _) λ _. from_result-Finishes _

  ensure_mirror-Finishes : (source repo : Bytes) → Finishes (ensure_mirror machine source repo)
  unfolding ensure_mirror
  ensure_mirror-Finishes source repo =
      >>=-Finishes (ask-Finishes _)
        λ present. if-Finishes present (give-Finishes tt) (clone_mirror-Finishes source repo)

  has_revision-Finishes : (repo rev : Bytes) → Finishes (has_revision machine repo rev)
  unfolding has_revision
  has_revision-Finishes repo rev =
      >>=-Finishes (m.run_process _)
        λ result. >>=-Finishes (from_result-Finishes _) λ _. give-Finishes _

  fetch_origin-Finishes : (repo : Bytes) → Finishes (fetch_origin machine repo)
  unfolding fetch_origin
  fetch_origin-Finishes repo = >>=-Finishes (m.run_process _) λ _. from_result-Finishes _

  archived-Finishes : (archive : Bytes) (b : Bool) → Finishes (archived machine archive b)
  unfolding archived
  archived-Finishes archive true = give-Finishes tt
  archived-Finishes archive false = >>=-Finishes (modify-Finishes _) λ _. from_result-Finishes _

  make_snapshot-Finishes :
      (repo root rev marker : Bytes) → Finishes (make_snapshot machine repo root rev marker)
  unfolding make_snapshot
  make_snapshot-Finishes repo root rev marker = >>=-Finishes (m.remove_all _) λ _.
      >>=-Finishes (m.create_directories _) λ _. >>=-Finishes (m.run_process _) λ archive.
        >>=-Finishes (archived-Finishes _ _) λ _. >>=-Finishes (m.run_process _) λ extract.
          >>=-Finishes (m.remove _)
            λ _. >>=-Finishes (from_result-Finishes _) λ _. modify-Finishes _

  ensure_snapshot-Finishes :
      (repo root rev : Bytes) → Finishes (ensure_snapshot machine repo root rev)
  unfolding ensure_snapshot
  ensure_snapshot-Finishes repo root rev =
      >>=-Finishes (ask-Finishes _)
        λ ready. if-Finishes ready (give-Finishes tt) (make_snapshot-Finishes _ _ _ _)

  mirrored-Finishes :
      (c : GitSourceCache) (source repo : Bytes) (b : Bool)
      → Finishes (mirrored machine c source repo b)
  unfolding mirrored
  mirrored-Finishes c source repo true = give-Finishes tt
  mirrored-Finishes c source repo false =
      >>=-Finishes (from_result-Finishes _) λ _. ensure_mirror-Finishes _ _

  with_revision-Finishes :
      (c : GitSourceCache) (repo rev : Bytes) (b : Bool)
      → Finishes (with_revision machine c repo rev b)
  unfolding with_revision
  with_revision-Finishes c repo rev true = give-Finishes tt
  with_revision-Finishes c repo rev false = >>=-Finishes (from_result-Finishes _) λ _.
      >>=-Finishes (fetch_origin-Finishes _)
        λ _. >>=-Finishes (has_revision-Finishes _ _) λ _. from_result-Finishes _

  materialize_from-Finishes :
      (c : GitSourceCache) (source rev hash : Bytes) (o : Option Bytes)
      → Finishes (materialize_from machine c source rev hash o)
  unfolding materialize_from
  materialize_from-Finishes c source rev hash (some root) = give-Finishes _
  materialize_from-Finishes c source rev hash none = >>=-Finishes (ask-Finishes _) λ present.
      >>=-Finishes (mirrored-Finishes c _ _ _) λ _.
        >>=-Finishes (has_revision-Finishes _ _) λ known.
          >>=-Finishes (with_revision-Finishes c _ _ _)
            λ _. >>=-Finishes (ensure_snapshot-Finishes _ _ _) λ _. give-Finishes _

  pub materialize-Finishes :
      (c : GitSourceCache) (source rev : Bytes) → Finishes (materialize machine c source rev)
  unfolding materialize
  materialize-Finishes c source rev =
      >>=-Finishes (ask-Finishes _) λ vendored. materialize_from-Finishes c _ _ _ vendored

  pub git_source_cache-Finishes :
      (home : Bytes) (offline : Bool) (vendor_root : Option Bytes)
      → Finishes (git_source_cache machine home offline vendor_root)
  unfolding git_source_cache
  git_source_cache-Finishes home offline vendor_root =
      >>=-Finishes (m.create_directories _)
        λ _. >>=-Finishes (m.create_directories _) λ _. give-Finishes _
