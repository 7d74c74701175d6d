-- ===== src/Resolve/Machine.antt =====
-- What the resolver uses of the machine it runs on: the file system and std::filesystem, toml++,
-- `RunProcess` of src/PafioCore/Process.hpp, and `MaterializeRegistryPackage` of
-- src/PafioRegistryClient/Client.hpp. `State` is all that these can change. `read_document` is
-- `toml::parse_file`, none where it throws.
use spio.Prelude.{Bytes, Bool, Option, List, Result}
use spio.Prelude.Action.{Action}
use spio.Toml.{ℤ, Toml}
use spio.Manifest.{ManifestDocument}
use spio.Manifest.Load.{load_manifest}

-- `kExternalProcessStepTimeout` and `kExternalProcessProbeTimeout`
pub data Timeout : Type 0 where
  step_timeout probe_timeout : Timeout

pub record ProcessRequest : Type 0 where
  pub program : Bytes
  pub args : List Bytes
  pub timeout : Timeout

pub record ProcessResult : Type 0 where
  pub exit_code : ℤ
  pub timed_out : Bool

pub record RegistryMaterializationResult : Type 0 where
  pub registry_root : Bytes
  pub package_name : Bytes
  pub version : Bytes
  pub sha256 : Bytes
  pub snapshot_root : Bytes

pub record Machine : Type 1 where
  pub toml : Toml
  pub State : Type 0
  -- `CanonicalAbsolutePath`
  pub canonical : Bytes → Bytes
  pub parent_path : Bytes → Bytes
  pub append : Bytes → Bytes → Bytes
  pub lexically_relative : Bytes → Bytes → Bytes
  pub is_absolute : Bytes → Bool
  pub exists : Bytes → State → Bool
  pub read_document : Bytes → State → Option toml.Table
  pub create_directories : Bytes → Action State (Unit {0})
  pub remove_all : Bytes → Action State (Unit {0})
  pub remove : Bytes → Action State (Unit {0})
  -- `fs::remove` with an error code that nothing looks at
  pub try_remove : Bytes → State → State
  -- a text written through a stream whose failure nothing looks at
  pub try_write : Bytes → Bytes → State → State
  pub run_process : ProcessRequest → Action State ProcessResult
  pub materialize_registry_package :
      Bytes → Bytes → Bytes → Bool → Action State RegistryMaterializationResult

module _ (machine : Machine) where
  open machine use {toml, State, is_absolute, read_document}

  unfoldable pub load : Bytes → State → Result ManifestDocument
  load path s = load_manifest is_absolute toml (read_document path s)
