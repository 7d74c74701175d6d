-- ===== src/Manifest/Load/Laws.antt =====
-- src/PafioManifest/Manifest.cpp: `ParsePackage`, `ParseWorkspace` and `LoadManifest`.
use spio.Prelude.{
  Bytes, text, text_eq, text_eq_iff, is_empty, Bool, true, false, ◌&&◌, ◌||◌, not, Option, List, [],
  ◌∷◌, Result, ok, or_throw, require, throw_if, ◌≡◌, ◌≢◌, refl, All, >>=-eq-ok, ok_injective,
  validation_error, has_value, require-eq-ok, throw_if-eq-ok,
}
use spio.Patterns.{regex_match, name_regex, semver_regex}
use spio.Toml.{
  Toml, is_one, table_at, array_at, optional_bool, int_at, require_string, strings_of, has_key,
}
use spio.Manifest.{Toolchain, WorkspaceConfig, PackageConfig, ManifestDocument}
use spio.Manifest.Load.{
  validate_package_name, validate_semver, validate_relative_path, validate_relative_paths,
  dependencies_of, lib_of, bins_of, tests_of, parse_dependencies, parse_toolchain, parse_lib,
  parse_bins, parse_tests, parse_package, require_string_array, exclude_of, parse_workspace, when,
  load_manifest, read_package, check_package_config,
}
use spio.Manifest.Load.Form.{
  IsRelative, IsLib, AreBins, AreTests, IsDependency, IsPackage, IsWorkspace, OnSome, either_part,
  ne_nil, relative_lem,
}
use spio.Manifest.Load.Dependencies.{dependencies_of-IsDependency}
use spio.Manifest.Load.Targets.{lib_of-IsLib, bins_of-AreBins, tests_of-AreTests}

-- What the parsers of a package's parts give.
abbrev IsRead : (Bytes → Bool) → PackageConfig → Type 0
IsRead is_absolute p =
    (p.toolchain.channel ≢ [])
    × IsLib is_absolute p.lib
    × AreBins is_absolute [] p.bins
    × AreTests is_absolute [] p.tests
    × All (IsDependency is_absolute) p.dependencies
    × All (IsDependency is_absolute) p.dev_dependencies

module _ (is_absolute : Bytes → Bool) (toml : Toml) where
  open toml use {Table, Node, as_table, entries}

  parse_toolchain_channel :
      (doc : Table) {t : Toolchain} → parse_toolchain is_absolute toml doc ≡ ok t → t.channel ≢ []
  unfolding parse_toolchain
  parse_toolchain_channel doc h =
      let (t, _, h1) =
        >>=-eq-ok (or_throw (table_at toml doc (text "toolchain")) validation_error) _ h in
      let (channel, _, h2) = >>=-eq-ok (require_string toml t (text "channel")) _ h1 in
      let (_, a, h3) = >>=-eq-ok (throw_if (is_empty channel) validation_error) _ h2 in
      let (std, _, h4) =
        >>=-eq-ok (or_throw (optional_bool toml t (text "implicit-std")) validation_error) _ h3 in
      rw (← (ok_injective h4)) (ne_nil channel (throw_if-eq-ok _ validation_error a))

  read_package-IsRead :
      (doc : Table) {p : PackageConfig}
      → read_package is_absolute toml doc ≡ ok p
      → IsRead is_absolute p
  unfolding read_package parse_lib parse_bins parse_tests parse_dependencies
  read_package-IsRead doc h =
      let (t, _, h1) =
        >>=-eq-ok (or_throw (table_at toml doc (text "package")) validation_error) _ h in
      let (name, _, h2) = >>=-eq-ok (require_string toml t (text "name")) _ h1 in
      let (version, _, h3) = >>=-eq-ok (require_string toml t (text "version")) _ h2 in
      let (edition, _, h4) = >>=-eq-ok (require_string toml t (text "edition")) _ h3 in
      let (toolchain, channel, h5) = >>=-eq-ok (parse_toolchain is_absolute toml doc) _ h4 in
      let (lib, l, h6) =
        >>=-eq-ok (lib_of is_absolute toml (table_at toml doc (text "lib"))) _ h5 in
      let (bins, b, h7) =
        >>=-eq-ok (bins_of is_absolute toml (array_at toml doc (text "bin"))) _ h6 in
      let (tests, u, h8) =
        >>=-eq-ok (tests_of is_absolute toml (array_at toml doc (text "test"))) _ h7 in
      let (ds, d, h9) =
        >>=-eq-ok (dependencies_of is_absolute toml (table_at toml doc (text "dependencies"))) _
          h8 in
      let (es, e, h10) =
        >>=-eq-ok (dependencies_of is_absolute toml (table_at toml doc (text "dev-dependencies"))) _
          h9 in
      rw (← (ok_injective h10)) (
        parse_toolchain_channel doc channel,
        lib_of-IsLib is_absolute toml _ l,
        bins_of-AreBins is_absolute toml _ b,
        tests_of-AreTests is_absolute toml _ u,
        dependencies_of-IsDependency is_absolute toml _ d,
        dependencies_of-IsDependency is_absolute toml _ e,
      )

  parse_package-IsPackage :
      (doc : Table) {p : PackageConfig}
      → parse_package is_absolute toml doc ≡ ok p
      → IsPackage is_absolute p
  unfolding parse_package
  parse_package-IsPackage doc {p} h =
      let (q, r, h1) = >>=-eq-ok (read_package is_absolute toml doc) _ h in
      let (_, c, h2) = >>=-eq-ok (check_package_config is_absolute toml q) _ h1 in
      rw (← (ok_injective h2)) (checked q (read_package-IsRead doc r) c)
    where
      checked :
          (q : PackageConfig) {u : Unit {0}}
          → IsRead is_absolute q
          → check_package_config is_absolute toml q ≡ ok u
          → IsPackage is_absolute q
      checked q (channel, lib, bins, tests, dependencies, dev_dependencies) c =
          let (_, m, h1) =
            >>=-eq-ok (require (regex_match name_regex q.name) validation_error) _
              (unfold check_package_config validate_package_name validate_semver in c) in
          let (_, v, h2) =
            >>=-eq-ok (require (regex_match semver_regex q.version) validation_error) _ h1 in
          let (_, w, h3) = >>=-eq-ok (throw_if (is_empty q.edition) validation_error) _ h2 in
          record {
            name = require-eq-ok _ validation_error m;
            version = require-eq-ok _ validation_error v;
            edition = ne_nil q.edition (throw_if-eq-ok _ validation_error w);
            channel = channel;
            target = throw_if-eq-ok _ validation_error h3;
            lib = lib;
            bins = bins;
            tests = tests;
            dependencies = dependencies;
            dev_dependencies = dev_dependencies;
          }

  relative_paths_lem :
      (ps : List Bytes) {u : Unit {0}}
      → validate_relative_paths is_absolute ps ≡ ok u
      → All (IsRelative is_absolute) ps
  unfolding validate_relative_paths
  relative_paths_lem [] h = tt
  relative_paths_lem (p ∷ ps) h =
      let (_, rel, h1) = >>=-eq-ok (validate_relative_path is_absolute p) _ h in
      (relative_lem is_absolute p rel, relative_paths_lem ps h1)

  string_array_lem :
      (t : Table) (key : Bytes) {values : List Bytes}
      → require_string_array is_absolute toml t key true ≡ ok values
      → values ≢ []
  unfolding require_string_array
  string_array_lem t key h =
      let (nodes, _, h1) = >>=-eq-ok (or_throw (array_at toml t key) validation_error) _ h in
      let (values, _, h2) = >>=-eq-ok (strings_of toml nodes) _ h1 in
      let (_, a, h3) = >>=-eq-ok (throw_if (is_empty values) validation_error) _ h2 in
      rw (← (ok_injective h3)) (ne_nil values (throw_if-eq-ok _ validation_error a))

  parse_workspace-IsWorkspace :
      (doc : Table) {w : WorkspaceConfig}
      → parse_workspace is_absolute toml doc ≡ ok w
      → IsWorkspace is_absolute w
  unfolding parse_workspace
  parse_workspace-IsWorkspace doc h =
      let (t, _, h1) =
        >>=-eq-ok (or_throw (table_at toml doc (text "workspace")) validation_error) _ h in
      let (members, m, h2) =
        >>=-eq-ok (require_string_array is_absolute toml t (text "members") true) _ h1 in
      let (exclude, _, h3) = >>=-eq-ok (exclude_of is_absolute toml t) _ h2 in
      let (resolver, _, h4) = >>=-eq-ok (require_string toml t (text "resolver")) _ h3 in
      let (_, one, h5) = >>=-eq-ok (require (text_eq resolver (text "1")) validation_error) _ h4 in
      let (_, a, h6) = >>=-eq-ok (validate_relative_paths is_absolute members) _ h5 in
      let (_, b, h7) = >>=-eq-ok (validate_relative_paths is_absolute exclude) _ h6 in
      rw (← (ok_injective h7)) record {
        members_ne_nil = string_array_lem t (text "members") m;
        members = relative_paths_lem members a;
        exclude = relative_paths_lem exclude b;
        resolver = (text_eq_iff resolver (text "1")).0 (require-eq-ok _ validation_error one);
      }

  when_lem {ℓ} :
      {A : Type 0} (b : Bool) (part : Result A) (P : A → Type ℓ) {o : Option A}
      → ((a : A) → part ≡ ok a → P a)
      → when is_absolute toml b part ≡ ok o
      → OnSome P o × (has_value o ≡ b)
  when_lem true part P p h =
      let (a, e, h1) = >>=-eq-ok part _ h in rw (← (ok_injective h1)) (p a e, refl)
  when_lem false part P p h = rw (← (ok_injective h)) (tt, refl)

  -- A manifest that `LoadManifest` returns has a package or a workspace. Its package has a name and
  -- a version of the right form, an edition, a channel and a target; the names of its binaries are
  -- not empty and distinct, and so are those of its tests; the paths of its targets are relative;
  -- and each dependency has a source of one kind, with the fields that this kind wants and no
  -- others. Its workspace has members, which are relative paths like the excluded ones, and the
  -- resolver "1".
  pub load_manifest-IsManifest :
      (document : Option Table) {m : ManifestDocument}
      → load_manifest is_absolute toml document ≡ ok m
      → ((has_value m.package_config || has_value m.workspace) ≡ true)
        × OnSome (IsPackage is_absolute) m.package_config
        × OnSome (IsWorkspace is_absolute) m.workspace
  unfolding load_manifest
  load_manifest-IsManifest document h =
      let (doc, _, h1) = >>=-eq-ok (or_throw document validation_error) _ h in
      let (t, _, h2) =
        >>=-eq-ok (or_throw (table_at toml doc (text "pafio")) validation_error) _ h1 in
      let (_, _, h3) =
        >>=-eq-ok (require (is_one (int_at toml t (text "manifest-version"))) validation_error) _
          h2 in
      let (_, some_part, h4) =
        >>=-eq-ok
          (throw_if
            (not (has_key toml doc (text "package")) && not (has_key toml doc (text "workspace")))
            validation_error)
          _ h3 in
      let (p, parsed, h5) =
        >>=-eq-ok
          (when is_absolute toml (has_key toml doc (text "package"))
            (parse_package is_absolute toml doc))
          _ h4 in
      let (w, workspace, h6) =
        >>=-eq-ok
          (when is_absolute toml (has_key toml doc (text "workspace"))
            (parse_workspace is_absolute toml doc))
          _ h5 in
      let a = when_lem _ _ (IsPackage is_absolute) (λ q e. parse_package-IsPackage doc e) parsed in
      let b =
        when_lem _ _ (IsWorkspace is_absolute) (λ q e. parse_workspace-IsWorkspace doc e)
          workspace in
      rw (← (ok_injective h6))
        (rw (a.1, b.1) (either_part _ _ (throw_if-eq-ok _ validation_error some_part)), a.0, b.0)
