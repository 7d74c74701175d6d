-- ===== src/Workflow.antt =====
-- src/PafioWorkflow/Dependencies.hpp and Dependencies.cpp: adding and removing a dependency of a
-- package, with the lockfile made anew, and fetching. Here stand the requests and results.
pub mod Edit
pub mod Commit
use spio.Prelude.{ℕ, Bytes, Bool, Option}

pub data DependencySection : Type 0 where
  k_dependencies k_dev_dependencies : DependencySection

pub record AddDependencyRequest : Type 0 where
  pub manifest_path : Bytes
  pub package_name : Bytes
  pub alias : Option Bytes
  pub section : DependencySection
  pub use_git : Bool
  pub use_registry : Bool
  pub source : Bytes
  pub rev : Option Bytes
  pub version : Option Bytes

pub record RemoveDependencyRequest : Type 0 where
  pub manifest_path : Bytes
  pub target : Bytes
  pub section : Option DependencySection

pub record DependencyCommandResult : Type 0 where
  pub manifest_path : Bytes
  pub lockfile_path : Bytes
  pub alias : Bytes
  pub package_name : Bytes
  pub section : DependencySection
  pub package_count : ℕ

pub record FetchCommandResult : Type 0 where
  pub manifest_path : Bytes
  pub package_count : ℕ
  pub git_package_count : ℕ
  pub registry_package_count : ℕ
