-- ===== src/Toolchain.antt =====
-- src/PafioToolchain/Vocabulary.hpp and State.hpp: the words of the toolchain and cloud settings,
-- and the settings of a project.
pub mod State
use spio.Prelude.{Bytes, text, text_eq, contains, Bool, true, false, Option, List, [], ◌∷◌}

unfoldable pub supported_toolchain_modes : List Bytes
supported_toolchain_modes = text "binary" ∷ text "build" ∷ []

unfoldable pub supported_channels : List Bytes
supported_channels = text "stable" ∷ text "nightly" ∷ []

unfoldable pub supported_build_modes : List Bytes
supported_build_modes = text "minimal" ∷ []

unfoldable pub supported_cloud_risk_classes : List Bytes
supported_cloud_risk_classes =
    text "trusted-internal" ∷ text "partner-controlled" ∷ text "untrusted-user" ∷ []

unfoldable pub supported_cloud_execution_lanes : List Bytes
supported_cloud_execution_lanes = text "isolated" ∷ text "warm-shared" ∷ []

unfoldable pub supported_cloud_security_profiles : List Bytes
supported_cloud_security_profiles =
    text "sandbox-default" ∷ text "partner-restricted" ∷ text "trusted-warm" ∷ []

-- `VocabularyContains(value, supported)`, and the like loop of `RequireAllowedValue`
abbrev pub vocabulary_contains : Bytes → List Bytes → Bool
vocabulary_contains value supported = contains value supported

pub record ProjectToolchainState : Type 0 where
  pub manifest_path : Bytes
  pub state_path : Bytes
  pub state_file_exists : Bool
  pub mode : Bytes
  pub channel : Bytes
  pub build_mode : Bytes
  pub risk_class : Bytes
  pub preferred_execution_lane : Bytes
  pub security_profile : Bytes
  pub source_revision : Option Bytes

pub record ToolchainStateUpdate : Type 0 where
  pub mode : Option Bytes
  pub channel : Option Bytes
  pub build_mode : Option Bytes
  pub risk_class : Option Bytes
  pub preferred_execution_lane : Option Bytes
  pub security_profile : Option Bytes
  pub source_revision : Option Bytes
