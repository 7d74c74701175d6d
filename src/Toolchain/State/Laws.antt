-- ===== src/Toolchain/State/Laws.antt =====
-- src/PafioToolchain/State.cpp: loaded and updated states.
use spio.Prelude.{
  Bytes, text, contains, Bool, true, false, Option, none, some, value_or, Result, ok, err, ◌>>◌,
  tool_error, ◌≡◌, refl, arith, require, >>=-eq-ok, ok_injective, ap, Error, inl, inr, ◌⊎◌,
  Result-cases, if◌then◌else◌, is_empty, [], ◌∷◌,
}
use spio.Toml.{Toml, table_at, optional_string}
use spio.Toolchain.{
  ProjectToolchainState, ToolchainStateUpdate, supported_toolchain_modes, supported_channels,
  supported_build_modes, supported_cloud_risk_classes, supported_cloud_execution_lanes,
  supported_cloud_security_profiles,
}
use spio.Toolchain.State.{
  check_state, load_project_toolchain_state, update_project_toolchain_state, read_state,
  merge_document, read_source, read_cloud, read_toolchain, default_state, apply_update,
  render_toolchain_state, require_allowed_value, non_empty_or, revision_or,
}

-- Every setting is a word of its vocabulary.
pub record IsSupported (s : ProjectToolchainState) : Type 0 where
  pub mode : contains s.mode supported_toolchain_modes ≡ true
  pub channel : contains s.channel supported_channels ≡ true
  pub build_mode : contains s.build_mode supported_build_modes ≡ true
  pub risk_class : contains s.risk_class supported_cloud_risk_classes ≡ true
  pub lane : contains s.preferred_execution_lane supported_cloud_execution_lanes ≡ true
  pub profile : contains s.security_profile supported_cloud_security_profiles ≡ true

all_required :
    (a b c d e f : Bool) {u : Unit {0}}
    → (require a tool_error
        >> (require b tool_error
            >> (require c tool_error
                >> (require d tool_error >> (require e tool_error >> require f tool_error)))))
      ≡ ok u
    → (a ≡ true) × (b ≡ true) × (c ≡ true) × (d ≡ true) × (e ≡ true) × (f ≡ true)
all_required a b c d e f h = ground arith

check_state-IsSupported :
    (s : ProjectToolchainState) {u : Unit {0}} → check_state s ≡ ok u → IsSupported s
unfolding check_state
check_state-IsSupported s h =
    let p =
      all_required (contains s.mode supported_toolchain_modes)
        (contains s.channel supported_channels) (contains s.build_mode supported_build_modes)
        (contains s.risk_class supported_cloud_risk_classes)
        (contains s.preferred_execution_lane supported_cloud_execution_lanes)
        (contains s.security_profile supported_cloud_security_profiles)
        (unfold require_allowed_value in h) in
    record {
      mode = p.0;
      channel = p.1;
      build_mode = p.2;
      risk_class = p.3;
      lane = p.4;
      profile = p.5;
    }

one_required :
    (a b c d e f : Bool) {x : Error}
    → (require a tool_error
        >> (require b tool_error
            >> (require c tool_error
                >> (require d tool_error >> (require e tool_error >> require f tool_error)))))
      ≡ err x
    → x ≡ tool_error
one_required a b c d e f h = ground arith

check_state_fails : (s : ProjectToolchainState) {x : Error} → check_state s ≡ err x → x ≡ tool_error
unfolding check_state
check_state_fails s h =
    one_required (contains s.mode supported_toolchain_modes) (contains s.channel supported_channels)
      (contains s.build_mode supported_build_modes)
      (contains s.risk_class supported_cloud_risk_classes)
      (contains s.preferred_execution_lane supported_cloud_execution_lanes)
      (contains s.security_profile supported_cloud_security_profiles)
      (unfold require_allowed_value in h)

supported-check_state : (s : ProjectToolchainState) → IsSupported s → check_state s ≡ ok tt
unfolding check_state require_allowed_value
supported-check_state s h =
    rw (h.mode, h.channel, h.build_mode, h.risk_class, h.lane, h.profile) refl

placed : ToolchainStateUpdate → Bytes → Bytes → ProjectToolchainState → ProjectToolchainState
placed u m p loaded = apply_update u record loaded { manifest_path = m; state_path = p }

placed_render :
    (u : ToolchainStateUpdate) (m p : Bytes) (s : ProjectToolchainState)
    → render_toolchain_state (record (placed u m p s) { state_file_exists = true })
      ≡ render_toolchain_state (placed u m p s)
unfolding render_toolchain_state
placed_render u m p s = refl

placed-IsSupported :
    (s : ProjectToolchainState) → IsSupported s → IsSupported record s { state_file_exists = true }
placed-IsSupported s h = record {
  mode = h.mode;
  channel = h.channel;
  build_mode = h.build_mode;
  risk_class = h.risk_class;
  lane = h.lane;
  profile = h.profile;
}

-- The state is the loaded one with the settings that the update has, at the state path.
abbrev pub IsUpdateOf :
    ToolchainStateUpdate → Bytes → ProjectToolchainState → ProjectToolchainState → Type 0
IsUpdateOf u p loaded s =
    (s.state_path ≡ p)
    × (s.mode ≡ value_or u.mode loaded.mode)
    × (s.channel ≡ value_or u.channel loaded.channel)
    × (s.build_mode ≡ value_or u.build_mode loaded.build_mode)
    × (s.risk_class ≡ value_or u.risk_class loaded.risk_class)
    × (s.preferred_execution_lane
        ≡ value_or u.preferred_execution_lane loaded.preferred_execution_lane)
    × (s.security_profile ≡ value_or u.security_profile loaded.security_profile)
    × (((u.source_revision ≡ none) × (s.source_revision ≡ loaded.source_revision))
        ⊎ ((r : Bytes) × (u.source_revision ≡ some r) × (s.source_revision ≡ some r)))

revision_lem :
    (asked old : Option Bytes)
    → ((asked ≡ none) × ((elim asked [ none ↦ old | some r ↦ some r ]) ≡ old))
      ⊎ ((r : Bytes) × (asked ≡ some r) × ((elim asked [ none ↦ old | some r ↦ some r ]) ≡ some r))
revision_lem none old = inl (refl, refl)
revision_lem (some r) old = inr (r, refl, refl)

updated_of :
    (u : ToolchainStateUpdate) (m p : Bytes) (loaded : ProjectToolchainState)
    (write : Bytes → Bytes → Result (Unit {0})) (s : ProjectToolchainState)
    → check_state (placed u m p loaded) ≡ ok tt
    → write p (render_toolchain_state (placed u m p loaded)) ≡ ok tt
    → record (placed u m p loaded) { state_file_exists = true } ≡ s
    → IsSupported s × IsUpdateOf u p loaded s × (write p (render_toolchain_state s) ≡ ok tt)
unfolding placed apply_update
updated_of u m p loaded write s c w e = rw (← e) (
  placed-IsSupported (placed u m p loaded) (check_state-IsSupported (placed u m p loaded) c),
  (refl, refl, refl, refl, refl, refl, refl, revision_lem u.source_revision loaded.source_revision),
  rw (placed_render u m p loaded) w,
)

unfoldable pub non_empty : Option Bytes → Option Bytes
non_empty none = none
non_empty (some value) = if is_empty value then none else some value

-- A value, or the default where there is none or it is empty.
unfoldable pub setting_or : Option Bytes → Bytes → Bytes
setting_or none default = default
setting_or (some []) default = default
setting_or (some (c ∷ value)) default = c ∷ value

setting_lem : (o : Option Bytes) (d : Bytes) → non_empty_or o d ≡ setting_or o d
unfolding non_empty_or setting_or
setting_lem none d = refl
setting_lem (some []) d = refl
setting_lem (some (c ∷ value)) d = refl

revision_or_lem : (o : Option Bytes) → revision_or o none ≡ non_empty o
unfolding revision_or non_empty
revision_or_lem none = refl
revision_or_lem (some value) = refl

module _ (toml : Toml) where
  open toml use {Table}

  -- The texts of a table, and of a table that may be missing.
  abbrev pub texts : Option Table → Bytes → Option Bytes
  texts none key = none
  texts (some t) key = optional_string toml t key

  -- The state that a file stands for, by its tables [toolchain], [cloud] and [source].
  abbrev pub state_of_tables :
      Bytes → Bytes → Table → Option Table → Option Table → ProjectToolchainState
  state_of_tables manifest_path path t cloud source = record {
    manifest_path = manifest_path;
    state_path = path;
    state_file_exists = true;
    mode = setting_or (optional_string toml t (text "mode")) (text "binary");
    channel = setting_or (optional_string toml t (text "channel")) (text "stable");
    build_mode = setting_or (optional_string toml t (text "build")) (text "minimal");
    risk_class = setting_or (texts cloud (text "risk")) (text "untrusted-user");
    preferred_execution_lane = setting_or (texts cloud (text "lane")) (text "isolated");
    security_profile = setting_or (texts cloud (text "security")) (text "sandbox-default");
    source_revision = non_empty (texts source (text "revision"));
  }

  tables_lem :
      (m p path : Bytes) (t : Table) (cloud source : Option Table)
      → read_source toml source (
          read_cloud toml cloud (
            read_toolchain toml t
              (record (default_state m p) { state_path = path; state_file_exists = true })))
        ≡ state_of_tables m path t cloud source
  unfolding read_toolchain read_cloud read_source default_state setting_or non_empty
  tables_lem m p path t none none =
      rw
        (
          setting_lem (optional_string toml t (text "mode")) (text "binary"),
          setting_lem (optional_string toml t (text "channel")) (text "stable"),
          setting_lem (optional_string toml t (text "build")) (text "minimal"),
        )
        refl
  tables_lem m p path t none (some v) =
      rw
        (
          setting_lem (optional_string toml t (text "mode")) (text "binary"),
          setting_lem (optional_string toml t (text "channel")) (text "stable"),
          setting_lem (optional_string toml t (text "build")) (text "minimal"),
          revision_or_lem (optional_string toml v (text "revision")),
        )
        refl
  tables_lem m p path t (some c) none =
      rw
        (
          setting_lem (optional_string toml t (text "mode")) (text "binary"),
          setting_lem (optional_string toml t (text "channel")) (text "stable"),
          setting_lem (optional_string toml t (text "build")) (text "minimal"),
          setting_lem (optional_string toml c (text "risk")) (text "untrusted-user"),
          setting_lem (optional_string toml c (text "lane")) (text "isolated"),
          setting_lem (optional_string toml c (text "security")) (text "sandbox-default"),
        )
        refl
  tables_lem m p path t (some c) (some v) =
      rw
        (
          setting_lem (optional_string toml t (text "mode")) (text "binary"),
          setting_lem (optional_string toml t (text "channel")) (text "stable"),
          setting_lem (optional_string toml t (text "build")) (text "minimal"),
          setting_lem (optional_string toml c (text "risk")) (text "untrusted-user"),
          setting_lem (optional_string toml c (text "lane")) (text "isolated"),
          setting_lem (optional_string toml c (text "security")) (text "sandbox-default"),
          revision_or_lem (optional_string toml v (text "revision")),
        )
        refl

  merged_lem :
      (m p path : Bytes) (doc t : Table)
      → merge_document toml path doc t (default_state m p)
        ≡ state_of_tables m path t
            (table_at toml doc (text "cloud"))
            (table_at toml doc (text "source"))
  unfolding merge_document
  merged_lem m p path doc t =
      tables_lem m p path t (table_at toml doc (text "cloud")) (table_at toml doc (text "source"))

  -- What loading a document gives, by its table [toolchain].
  abbrev pub IsRead : Bytes → Bytes → Table → Option Table → Result ProjectToolchainState → Type 0
  IsRead m path doc none r = r ≡ err tool_error
  IsRead m path doc (some t) r =
      let s =
        state_of_tables m path t (table_at toml doc (text "cloud"))
          (table_at toml doc (text "source")) in
      ((¬ IsSupported s) × (r ≡ err tool_error)) ⊎ (IsSupported s × (r ≡ ok s))

  -- What loading gives: the defaults without a file; an error for a file that is not parsed; else
  -- what the document says.
  abbrev pub IsLoaded :
      Bytes → Bytes → Option (Bytes × Option Table) → Result ProjectToolchainState → Type 0
  IsLoaded m p none r =
      r
      ≡ ok record {
        manifest_path = m;
        state_path = p;
        state_file_exists = false;
        mode = text "binary";
        channel = text "stable";
        build_mode = text "minimal";
        risk_class = text "untrusted-user";
        preferred_execution_lane = text "isolated";
        security_profile = text "sandbox-default";
        source_revision = none;
      }
  IsLoaded m p (some (path, none)) r = r ≡ err tool_error
  IsLoaded m p (some (path, some doc)) r =
      IsRead m path doc (table_at toml doc (text "toolchain")) r

  read_state-IsRead :
      (m p path : Bytes) (doc : Table) (o : Option Table)
      → table_at toml doc (text "toolchain") ≡ o
      → IsRead m path doc o (read_state toml path (some doc) (default_state m p))
  unfolding read_state
  read_state-IsRead m p path doc none e = rw e refl
  read_state-IsRead m p path doc (some t) e =
      let s =
        state_of_tables m path t (table_at toml doc (text "cloud"))
          (table_at toml doc (text "source")) in
      elim (Result-cases (check_state s)) [
        | inl (u, f) ↦ inr (check_state-IsSupported s f, rw (e, merged_lem m p path doc t, f) refl)
        | inr (x, f) ↦ inl (
          λ h. contra f (supported-check_state s h),
          rw (e, merged_lem m p path doc t, f) (ap err (check_state_fails s f)),
        )
      ]
    where
      contra : {r : Result (Unit {0})} {x : Error} → r ≡ err x → r ≡ ok tt → ⊥
      contra p q = cc

  -- Without a state file the state has the defaults. A file that cannot be parsed, or that has no
  -- table [toolchain], is a `ToolError`. From any other file each setting is the text under its key
  -- where there is one that is not empty, and the default otherwise, and the revision is there where
  -- it is a text that is not empty; the state is loaded where all of its settings are supported, and
  -- is a `ToolError` otherwise.
  pub load_project_toolchain_state-IsLoaded :
      (manifest_path state_path : Bytes) (discovered : Option (Bytes × Option Table))
      → IsLoaded manifest_path state_path discovered
          (load_project_toolchain_state toml manifest_path state_path discovered)
  unfolding load_project_toolchain_state
  load_project_toolchain_state-IsLoaded m p none = unfold default_state in refl
  load_project_toolchain_state-IsLoaded m p (some (path, none)) = unfold read_state in refl
  load_project_toolchain_state-IsLoaded m p (some (path, some doc)) =
      read_state-IsRead m p path doc (table_at toml doc (text "toolchain")) refl

  -- An update that succeeds was of a project with a manifest, and its text was written to the
  -- project's state path. The new state has supported settings, takes each setting, the revision
  -- among them, from the update where the update has it and from the loaded state otherwise, and is
  -- the one whose text was written.
  pub update_project_toolchain_state-written :
      (m p : Bytes) (discovered : Option (Bytes × Option Table)) (manifest : Result (Unit {0}))
      (write : Bytes → Bytes → Result (Unit {0})) (u : ToolchainStateUpdate)
      (s : ProjectToolchainState)
      → update_project_toolchain_state toml m p discovered manifest write u ≡ ok s
      → (loaded : ProjectToolchainState) × (load_project_toolchain_state toml m p discovered
          ≡ ok loaded)
        × (manifest ≡ ok tt)
        × IsSupported s
        × IsUpdateOf u p loaded s
        × (write p (render_toolchain_state s) ≡ ok tt)
  unfolding update_project_toolchain_state placed apply_update
  update_project_toolchain_state-written m p discovered manifest write u s h =
      let a = >>=-eq-ok manifest _ h in
      let l = >>=-eq-ok (load_project_toolchain_state toml m p discovered) _ (a.2) in
      let n : ProjectToolchainState = placed u m p (l.0) in
      let c = >>=-eq-ok (check_state n) _ (l.2) in
      let w = >>=-eq-ok (write p (render_toolchain_state n)) _ (c.2) in
      let r = updated_of u m p (l.0) write s (c.1) (w.1) (ok_injective (w.2)) in
      (l.0, l.1, a.1, r.0, r.1, r.2)
