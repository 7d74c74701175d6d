-- ===== src/Lockfile.antt =====
-- src/PafioManifest/Lockfile.hpp and Lockfile.cpp: reading a lockfile from its TOML document, and
-- writing it in canonical form.
pub mod Load
pub mod Write
use spio.Prelude.{Bytes, Option, List}

pub record LockPackage : Type 0 where
  pub id : Bytes
  pub name : Bytes
  pub version : Bytes
  pub source_kind : Bytes
  pub git : Option Bytes
  pub rev : Option Bytes
  pub registry : Option Bytes
  pub sha256 : Option Bytes
  pub dependencies : List Bytes

pub record LockfileDocument : Type 0 where
  pub generated_by : Bytes
  pub resolver : Bytes
  pub packages : List LockPackage
