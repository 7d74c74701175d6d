-- ===== src/Manifest/Load/Form.antt =====
-- src/PafioManifest/Manifest.cpp: the form of a manifest.
use spio.Prelude.{
  Bytes, text, contains, is_empty, Bool, true, false, ◌&&◌, ◌||◌, not, Option, none, some, List, [],
  ◌∷◌, ok, ◌≡◌, ◌≢◌, arith, All, validation_error, has_value, require-eq-ok,
}
use spio.Patterns.{regex_match, name_regex, semver_regex}
use spio.Manifest.{
  DependencySourceKind, path, git, registry, Dependency, LibTarget, BinTarget, TestTarget,
  WorkspaceConfig, PackageConfig,
}
use spio.Manifest.Load.{is_registry_root_url, is_non_empty_relative_path, validate_relative_path}

abbrev pub IsName : Option Bytes → Type 0
IsName none = Unit
IsName (some n) = regex_match name_regex n ≡ true

module _ (is_absolute : Bytes → Bool) where
  abbrev pub IsRelative : Bytes → Type 0
  IsRelative p = is_non_empty_relative_path is_absolute p ≡ true

  -- What a dependency of the kind holds.
  abbrev pub HasKind : DependencySourceKind → Dependency → Type 0
  HasKind path d = IsRelative d.source × (d.rev ≡ none) × (d.version ≡ none)
  HasKind git d = (d.source ≢ []) × ((r : Bytes) × (d.rev ≡ some r) × (r ≢ [])) × (d.version ≡ none)
  HasKind registry d =
      (is_registry_root_url d.source ≡ true)
      × (d.rev ≡ none)
      × ((v : Bytes) × (d.version ≡ some v) × (regex_match semver_regex v ≡ true))
      × (d.package_name ≢ none)

  abbrev pub IsDependency : Dependency → Type 0
  IsDependency d = IsName d.package_name × HasKind d.source_kind d

  -- A target's name is not empty and not among those in front of it, and its path is relative.
  abbrev pub AreBins : List Bytes → List BinTarget → Type 0
  AreBins seen [] = Unit
  AreBins seen (b ∷ bs) =
      (b.name ≢ [])
      × (contains b.name seen ≡ false)
      × IsRelative b.path
      × AreBins (b.name ∷ seen) bs

  abbrev pub AreTests : List Bytes → List TestTarget → Type 0
  AreTests seen [] = Unit
  AreTests seen (t ∷ ts) =
      (t.name ≢ [])
      × (contains t.name seen ≡ false)
      × IsRelative t.path
      × AreTests (t.name ∷ seen) ts

  abbrev pub IsLib : Option LibTarget → Type 0
  IsLib none = Unit
  IsLib (some l) = IsRelative l.path

  pub record IsPackage (p : PackageConfig) : Type 0 where
    pub name : regex_match name_regex p.name ≡ true
    pub version : regex_match semver_regex p.version ≡ true
    pub edition : p.edition ≢ []
    pub channel : p.toolchain.channel ≢ []
    pub target : (not (has_value p.lib) && is_empty p.bins && is_empty p.tests) ≡ false
    pub lib : IsLib p.lib
    pub bins : AreBins [] p.bins
    pub tests : AreTests [] p.tests
    pub dependencies : All IsDependency p.dependencies
    pub dev_dependencies : All IsDependency p.dev_dependencies

  pub record IsWorkspace (w : WorkspaceConfig) : Type 0 where
    pub members_ne_nil : w.members ≢ []
    pub members : All IsRelative w.members
    pub exclude : All IsRelative w.exclude
    pub resolver : w.resolver ≡ text "1"

-- The property holds of the value, if there is one.
abbrev pub OnSome {ℓ κ} : {A : Type ℓ} → (A → Type κ) → Option A → Type κ
OnSome P none = Unit
OnSome P (some a) = P a

pub either_part : (a b : Bool) → (not a && not b) ≡ false → (a || b) ≡ true
either_part a b h = ground arith

pub ne_nil {ℓ} : {A : Type ℓ} (s : List A) → is_empty s ≡ false → s ≢ []
ne_nil [] e = λ q. cc
ne_nil (c ∷ s) e = λ q. cc

module _ (is_absolute : Bytes → Bool) where
  pub relative_lem :
      (p : Bytes) {u : Unit {0}}
      → validate_relative_path is_absolute p ≡ ok u
      → IsRelative is_absolute p
  unfolding validate_relative_path
  relative_lem p h = require-eq-ok (is_non_empty_relative_path is_absolute p) validation_error h
