-- ===== src/Resolve.antt =====
-- src/PafioResolve/Resolver.hpp and Resolver.cpp: the resolver, from the manifests to the graph of
-- packages and the lockfile. Here stands what it hands to its clients.
pub mod Origin
pub mod Machine
pub mod Git
pub mod Select
pub mod Node
pub mod Graph
pub mod Run
use spio.Prelude.{Bytes, Bool, Option, List}
use spio.Manifest.{PackageConfig}
use spio.Lockfile.{LockfileDocument}

pub record ResolveOptions : Type 0 where
  pub offline : Bool
  pub vendor_root : Option Bytes

pub record ResolvedDependencyAlias : Type 0 where
  pub alias : Bytes
  pub package_id : Bytes

pub record ResolvedPackage : Type 0 where
  pub manifest_path : Bytes
  pub root_dir : Bytes
  pub config : PackageConfig
  pub id : Bytes
  pub source_kind : Bytes
  pub git : Option Bytes
  pub rev : Option Bytes
  pub registry : Option Bytes
  pub sha256 : Option Bytes
  pub repo_hash : Option Bytes
  pub snapshot_root : Option Bytes
  pub dependencies : List Bytes
  pub dependency_aliases : List ResolvedDependencyAlias

pub record ResolvedGraphResult : Type 0 where
  pub manifest_path : Bytes
  pub lockfile_path : Bytes
  pub root_ids : List Bytes
  pub packages : List ResolvedPackage
  pub lockfile : LockfileDocument

pub record LockGenerationResult : Type 0 where
  pub manifest_path : Bytes
  pub lockfile_path : Bytes
  pub root_ids : List Bytes
  pub lockfile : LockfileDocument
