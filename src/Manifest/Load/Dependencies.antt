-- ===== src/Manifest/Load/Dependencies.antt =====
-- src/PafioManifest/Manifest.cpp: `ParseDependencies`.
use spio.Prelude.{
  Bytes, text, is_empty, Bool, true, false, ◌||◌, Option, none, some, List, [], ◌∷◌, ok, or_throw,
  require, throw_if, ◌≡◌, ◌≢◌, refl, All, >>=-eq-ok, ok_injective, validation_error, has_value,
  require-eq-ok, throw_if-eq-ok, ◌+◌, ◌==◌,
}
use spio.Patterns.{regex_match, name_regex, semver_regex}
use spio.Toml.{Toml, optional_string, require_string, has_key}
use spio.Manifest.{Dependency}
use spio.Manifest.Load.{
  is_registry_root_url, validate_package_name, validate_semver, validate_registry_root, one_if,
  validate_relative_path, check_package_name, path_dependency, git_dependency, registry_dependency,
  dependency_of, parse_dependency, parse_entries, dependencies_of,
}
use spio.Manifest.Load.Form.{IsName, HasKind, IsDependency, ne_nil, relative_lem}

module _ (is_absolute : Bytes → Bool) (toml : Toml) where
  open toml use {Table, Node, as_table, entries}

  path_lem :
      (alias : Bytes) (dep : Table) (n : Option Bytes) {d : Dependency}
      → path_dependency is_absolute toml alias dep n ≡ ok d
      → (d.package_name ≡ n) × HasKind is_absolute d.source_kind d
  unfolding path_dependency
  path_lem alias dep n h =
      let (source, _, h1) = >>=-eq-ok (require_string toml dep (text "path")) _ h in
      let (_, rel, h2) = >>=-eq-ok (validate_relative_path is_absolute source) _ h1 in
      rw (← (ok_injective h2)) (refl, (relative_lem is_absolute source rel, refl, refl))

  git_lem :
      (alias : Bytes) (dep : Table) (n : Option Bytes) {d : Dependency}
      → git_dependency is_absolute toml alias dep n ≡ ok d
      → (d.package_name ≡ n) × HasKind is_absolute d.source_kind d
  unfolding git_dependency
  git_lem alias dep n h =
      let (source, _, h1) = >>=-eq-ok (require_string toml dep (text "git")) _ h in
      let (_, a, h2) = >>=-eq-ok (throw_if (is_empty source) validation_error) _ h1 in
      let (rev, _, h3) = >>=-eq-ok (require_string toml dep (text "rev")) _ h2 in
      let (_, b, h4) = >>=-eq-ok (throw_if (is_empty rev) validation_error) _ h3 in
      rw (← (ok_injective h4)) (
        refl,
        (
          ne_nil source (throw_if-eq-ok _ validation_error a),
          (rev, refl, ne_nil rev (throw_if-eq-ok _ validation_error b)),
          refl,
        ),
      )

  some_name : (n : Option Bytes) → has_value n ≡ true → n ≢ none
  some_name none e = cc
  some_name (some x) e = λ q. cc

  registry_lem :
      (alias : Bytes) (dep : Table) (n : Option Bytes) {d : Dependency}
      → registry_dependency is_absolute toml alias dep n ≡ ok d
      → (d.package_name ≡ n) × HasKind is_absolute d.source_kind d
  unfolding registry_dependency validate_semver validate_registry_root
  registry_lem alias dep n h =
      let (_, named, h1) = >>=-eq-ok (require (has_value n) validation_error) _ h in
      let (version, _, h2) = >>=-eq-ok (require_string toml dep (text "version")) _ h1 in
      let (_, semver, h3) =
        >>=-eq-ok (require (regex_match semver_regex version) validation_error) _ h2 in
      let (source, _, h4) = >>=-eq-ok (require_string toml dep (text "registry")) _ h3 in
      let (_, root, h5) = >>=-eq-ok (require (is_registry_root_url source) validation_error) _ h4 in
      rw (← (ok_injective h5)) (
        refl,
        (
          require-eq-ok _ validation_error root,
          refl,
          (version, refl, require-eq-ok _ validation_error semver),
          some_name n (require-eq-ok _ validation_error named),
        ),
      )

  dependency_lem :
      (has_path has_git : Bool) (alias : Bytes) (dep : Table) (n : Option Bytes) {d : Dependency}
      → dependency_of is_absolute toml has_path has_git alias dep n ≡ ok d
      → (d.package_name ≡ n) × HasKind is_absolute d.source_kind d
  unfolding dependency_of
  dependency_lem true g alias dep n h = path_lem alias dep n h
  dependency_lem false true alias dep n h = git_lem alias dep n h
  dependency_lem false false alias dep n h = registry_lem alias dep n h

  name_lem :
      (n : Option Bytes) {u : Unit {0}} → check_package_name is_absolute toml n ≡ ok u → IsName n
  unfolding check_package_name validate_package_name
  name_lem none h = tt
  name_lem (some n) h = require-eq-ok (regex_match name_regex n) validation_error h

  parse_dependency-IsDependency :
      (alias : Bytes) (dep : Table) {d : Dependency}
      → parse_dependency is_absolute toml alias dep ≡ ok d
      → IsDependency is_absolute d
  unfolding parse_dependency
  parse_dependency-IsDependency alias dep h =
      let n = optional_string toml dep (text "package") in
      let (_, _, h1) =
        >>=-eq-ok
          (require
            (one_if (has_key toml dep (text "path"))
                + one_if (has_key toml dep (text "git"))
                + one_if (has_key toml dep (text "version") || has_key toml dep (text "registry"))
              == 1)
            validation_error)
          _ h in
      let (_, named, h2) = >>=-eq-ok (check_package_name is_absolute toml n) _ h1 in
      let k =
        dependency_lem (has_key toml dep (text "path")) (has_key toml dep (text "git")) alias dep n
          h2 in
      (rw (k.0) (name_lem n named), k.1)

  parse_entries-IsDependency :
      (es : List (Bytes × Node)) {ds : List Dependency}
      → parse_entries is_absolute toml es ≡ ok ds
      → All (IsDependency is_absolute) ds
  unfolding parse_entries
  parse_entries-IsDependency [] h = rw (← (ok_injective h)) tt
  parse_entries-IsDependency ((alias, node) ∷ es) h =
      let (dep, _, h1) = >>=-eq-ok (or_throw (as_table node) validation_error) _ h in
      let (d, first, h2) = >>=-eq-ok (parse_dependency is_absolute toml alias dep) _ h1 in
      let (ds, rest, h3) = >>=-eq-ok (parse_entries is_absolute toml es) _ h2 in
      rw (← (ok_injective h3))
        (parse_dependency-IsDependency alias dep first, parse_entries-IsDependency es rest)

  pub dependencies_of-IsDependency :
      (t : Option Table) {ds : List Dependency}
      → dependencies_of is_absolute toml t ≡ ok ds
      → All (IsDependency is_absolute) ds
  unfolding dependencies_of
  dependencies_of-IsDependency none h = rw (← (ok_injective h)) tt
  dependencies_of-IsDependency (some t) h = parse_entries-IsDependency (entries t) h
