-- ===== src/Manifest.antt =====
-- src/PafioManifest/Manifest.hpp: the data of a manifest.
pub mod Load
pub mod Write
use spio.Prelude.{Bytes, Bool, Option, List}

pub data DependencySourceKind : Type 0 where
  path git registry : DependencySourceKind

pub record Dependency : Type 0 where
  pub alias : Bytes
  pub package_name : Option Bytes
  pub source_kind : DependencySourceKind
  pub source : Bytes
  pub rev : Option Bytes
  pub version : Option Bytes

pub record Toolchain : Type 0 where
  pub channel : Bytes
  pub implicit_std : Bool

pub record LibTarget : Type 0 where
  pub path : Bytes

pub record BinTarget : Type 0 where
  pub name : Bytes
  pub path : Bytes

pub record TestTarget : Type 0 where
  pub name : Bytes
  pub path : Bytes

pub record WorkspaceConfig : Type 0 where
  pub members : List Bytes
  pub exclude : List Bytes
  pub resolver : Bytes

pub record PackageConfig : Type 0 where
  pub name : Bytes
  pub version : Bytes
  pub edition : Bytes
  pub publish : Bool
  pub toolchain : Toolchain
  pub lib : Option LibTarget
  pub bins : List BinTarget
  pub tests : List TestTarget
  pub dependencies : List Dependency
  pub dev_dependencies : List Dependency

pub record ManifestDocument : Type 0 where
  pub package_config : Option PackageConfig
  pub workspace : Option WorkspaceConfig
