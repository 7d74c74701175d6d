-- ===== src/Toolchain/State.antt =====
-- src/PafioToolchain/State.cpp: reading, updating and rendering a project's toolchain state. The
-- paths that src/PafioCore/Paths.cpp computes, and the file that it discovers with the document
-- that toml++ reads from it, are arguments, and so is the writing of a file.

pub mod Laws
use spio.Prelude.{
  Bytes, text, is_empty, Bool, true, false, Option, none, some, List, [], ◌++◌, if◌then◌else◌,
  value_or, Result, ok, err, ◌>>=◌, ◌>>◌, require, or_throw, tool_error,
}
use spio.Toml.{Toml, table_at, optional_string}
use spio.Toolchain.{
  ProjectToolchainState, ToolchainStateUpdate, vocabulary_contains, supported_toolchain_modes,
  supported_channels, supported_build_modes, supported_cloud_risk_classes,
  supported_cloud_execution_lanes, supported_cloud_security_profiles,
}

unfoldable pub require_allowed_value : Bytes → List Bytes → Result (Unit {0})
require_allowed_value value allowed = require (vocabulary_contains value allowed) tool_error

-- the six calls of `RequireAllowedValue` that close both operations
unfoldable pub check_state : ProjectToolchainState → Result (Unit {0})
unfolding require_allowed_value
check_state s = do
  require_allowed_value s.mode supported_toolchain_modes
  require_allowed_value s.channel supported_channels
  require_allowed_value s.build_mode supported_build_modes
  require_allowed_value s.risk_class supported_cloud_risk_classes
  require_allowed_value s.preferred_execution_lane supported_cloud_execution_lanes
  require_allowed_value s.security_profile supported_cloud_security_profiles

setting : Bytes → Bytes → Bytes
setting key value = key ++ (text " = \"" ++ (value ++ text "\"\n"))

revision_text : Option Bytes → Bytes
unfolding setting
revision_text none = []
revision_text (some revision) = text "\n[source]\n" ++ setting (text "revision") revision

unfoldable pub render_toolchain_state : ProjectToolchainState → Bytes
unfolding setting revision_text
render_toolchain_state s =
    text "[toolchain]\n"
    ++ (setting (text "mode") s.mode
        ++ (setting (text "channel") s.channel
            ++ (setting (text "build") s.build_mode
                ++ (text "\n[cloud]\n"
                    ++ (setting (text "risk") s.risk_class
                        ++ (setting (text "lane") s.preferred_execution_lane
                            ++ (setting (text "security") s.security_profile
                                ++ revision_text s.source_revision)))))))

-- the members' initial values
unfoldable pub default_state : Bytes → Bytes → ProjectToolchainState
default_state manifest_path state_path = record {
  manifest_path = manifest_path;
  state_path = state_path;
  state_file_exists = false;
  mode = text "binary";
  channel = text "stable";
  build_mode = text "minimal";
  risk_class = text "untrusted-user";
  preferred_execution_lane = text "isolated";
  security_profile = text "sandbox-default";
  source_revision = none;
}

-- A setting is overwritten by a value that is there and not empty.
unfoldable pub non_empty_or : Option Bytes → Bytes → Bytes
non_empty_or none old = old
non_empty_or (some value) old = if is_empty value then old else value

unfoldable pub revision_or : Option Bytes → Option Bytes → Option Bytes
revision_or none old = old
revision_or (some value) old = if is_empty value then old else some value

unfoldable pub apply_update : ToolchainStateUpdate → ProjectToolchainState → ProjectToolchainState
apply_update u s = record s {
  mode = value_or u.mode s.mode;
  channel = value_or u.channel s.channel;
  build_mode = value_or u.build_mode s.build_mode;
  risk_class = value_or u.risk_class s.risk_class;
  preferred_execution_lane = value_or u.preferred_execution_lane s.preferred_execution_lane;
  security_profile = value_or u.security_profile s.security_profile;
  source_revision = elim u.source_revision [ none ↦ s.source_revision | some r ↦ some r ];
}

module _ (toml : Toml) where
  open toml use {Table}

  unfoldable pub read_toolchain : Table → ProjectToolchainState → ProjectToolchainState
  unfolding non_empty_or
  read_toolchain t s = record s {
    mode = non_empty_or (optional_string toml t (text "mode")) s.mode;
    channel = non_empty_or (optional_string toml t (text "channel")) s.channel;
    build_mode = non_empty_or (optional_string toml t (text "build")) s.build_mode;
  }

  unfoldable pub read_cloud : Option Table → ProjectToolchainState → ProjectToolchainState
  unfolding non_empty_or
  read_cloud none s = s
  read_cloud (some t) s = record s {
    risk_class = non_empty_or (optional_string toml t (text "risk")) s.risk_class;
    preferred_execution_lane =
        non_empty_or (optional_string toml t (text "lane")) s.preferred_execution_lane;
    security_profile = non_empty_or (optional_string toml t (text "security")) s.security_profile;
  }

  unfoldable pub read_source : Option Table → ProjectToolchainState → ProjectToolchainState
  unfolding revision_or
  read_source none s = s
  read_source (some t) s = record s {
    source_revision = revision_or (optional_string toml t (text "revision")) s.source_revision;
  }

  -- The settings of the document over those of the state, with the file's path.
  unfoldable pub merge_document :
      Bytes → Table → Table → ProjectToolchainState → ProjectToolchainState
  unfolding read_toolchain read_cloud read_source
  merge_document path doc t s =
      let found : ProjectToolchainState = record s {
        state_path = path;
        state_file_exists = true;
      } in
      read_source (table_at toml doc (text "source"))
        (read_cloud (table_at toml doc (text "cloud")) (read_toolchain t found))

  -- The state file at the path, with its document, none where `toml::parse_file` throws.
  unfoldable pub read_state :
      Bytes → Option Table → ProjectToolchainState → Result ProjectToolchainState
  unfolding merge_document check_state
  read_state path document s = do
    doc ← or_throw document tool_error
    t ← or_throw (table_at toml doc (text "toolchain")) tool_error
    check_state (merge_document path doc t s)
    ok (merge_document path doc t s)

  -- `discovered` is the state file that is found, if there is one, with its document.
  unfoldable pub load_project_toolchain_state :
      Bytes → Bytes → Option (Bytes × Option Table) → Result ProjectToolchainState
  unfolding default_state read_state
  load_project_toolchain_state manifest_path state_path none =
      ok (default_state manifest_path state_path)
  load_project_toolchain_state manifest_path state_path (some (path, document)) =
      read_state path document (default_state manifest_path state_path)

  -- `manifest` is the result of `LoadManifest`, and `write` is `WriteTextFile`, from the path and the
  -- text.
  unfoldable pub update_project_toolchain_state :
      Bytes
      → Bytes
      → Option (Bytes × Option Table)
      → Result (Unit {0})
      → (Bytes → Bytes → Result (Unit {0}))
      → ToolchainStateUpdate
      → Result ProjectToolchainState
  unfolding load_project_toolchain_state apply_update check_state render_toolchain_state
  update_project_toolchain_state manifest_path state_path discovered manifest write u = do
    manifest
    loaded ← load_project_toolchain_state manifest_path state_path discovered
    let state : ProjectToolchainState =
        apply_update u record loaded { manifest_path = manifest_path; state_path = state_path }
    check_state state
    write state.state_path (render_toolchain_state state)
    ok (record state { state_file_exists = true })
