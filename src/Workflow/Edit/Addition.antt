-- ===== src/Workflow/Edit/Addition.antt =====
-- src/PafioWorkflow/Dependencies.cpp: what adding a dependency does to the package.
use spio.Prelude.{
  Bytes, text_eq, text_eq_iff, contains, Bool, true, false, ◌||◌, Option, none, some, List, [], ◌∷◌,
  ◌++◌, ok, ok_injective, >>=-eq-ok, throw_if, throw_if-eq-ok, validation_error, ◌≡◌, ◌≢◌, ◌⊎◌, inl,
  inr, refl, arith, All, All-append,
}
use spio.Prelude.Distinct.{IsDistinct}
use spio.Manifest.{DependencySourceKind, path, git, registry, Dependency, PackageConfig}
use spio.Manifest.Load.Form.{IsDependency, IsPackage}
use spio.Workflow.{DependencySection, k_dependencies, k_dev_dependencies, AddDependencyRequest}
use spio.Workflow.Edit.{
  select_section, with_section, validate_add_request, has_alias, has_package, names_package,
  new_source_kind, new_dependency, add_to_package,
}
use spio.Workflow.Edit.Laws.{
  aliases_of, new_alias, section-IsPackage, section_of, added-IsDistinct,
  validate_add_request-IsDependency,
}

some_injective : {A : Type 0} {a b : A} → some a ≡ some b → a ≡ b
some_injective e = cc

-- The dependency has another alias and another package name.
pub record IsFresh (alias name : Bytes) (d : Dependency) : Type 0 where
  other_alias : text_eq d.alias alias ≡ false
  other_package : d.package_name ≢ some name

fresh_lem :
    (alias name : Bytes) (ds : List Dependency)
    → has_alias alias ds ≡ false
    → has_package name ds ≡ false
    → All (IsFresh alias name) ds
unfolding has_alias has_package names_package
fresh_lem alias name [] a b = tt
fresh_lem alias name (d ∷ ds) a b = (
  record {
    other_alias = ground (arith, a);
    other_package = λ e. named d.package_name e (ground (arith, b));
  },
  fresh_lem alias name ds (ground (arith, a)) (ground (arith, b)),
)
  where
    named : (o : Option Bytes) → o ≡ some name → names_package o name ≡ false → ⊥
    named none e f = cc
    named (some n) e f = ground (arith, text_eq_iff n name, some_injective e)

-- One dependency more, at the end of the section of the request; the other section is as it was.
abbrev pub IsLonger : DependencySection → PackageConfig → Dependency → PackageConfig → Type 0
IsLonger k_dependencies config d edited =
    edited ≡ record config { dependencies = config.dependencies ++ d ∷ [] }
IsLonger k_dev_dependencies config d edited =
    edited ≡ record config { dev_dependencies = config.dev_dependencies ++ d ∷ [] }

longer_lem :
    (section : DependencySection) (config : PackageConfig) (d : Dependency)
    → IsLonger section config d
        (with_section config section (select_section config section ++ d ∷ []))
unfolding with_section select_section
longer_lem k_dependencies config d = refl
longer_lem k_dev_dependencies config d = refl

-- The kind of source that a request asks for.
abbrev pub IsKindOf : AddDependencyRequest → DependencySourceKind → Type 0
IsKindOf r kind =
    ((r.use_git ≡ true) × (kind ≡ git))
    ⊎ ((r.use_git ≡ false) × (r.use_registry ≡ true) × (kind ≡ registry))
    ⊎ ((r.use_git ≡ false) × (r.use_registry ≡ false) × (kind ≡ path))

kind_lem :
    (use_git use_registry : Bool)
    → ((use_git ≡ true) × (new_source_kind use_git use_registry ≡ git))
      ⊎ ((use_git ≡ false)
          × (use_registry ≡ true)
          × (new_source_kind use_git use_registry ≡ registry))
      ⊎ ((use_git ≡ false) × (use_registry ≡ false) × (new_source_kind use_git use_registry ≡ path))
unfolding new_source_kind
kind_lem true use_registry = inl (refl, refl)
kind_lem false true = inr (inl (refl, refl, refl))
kind_lem false false = inr (inr (refl, refl, refl))

-- What `add_to_package` has checked and done.
pub record IsAddition (r : AddDependencyRequest) (alias : Bytes) (config edited : PackageConfig)
    : Type 0 where
  pub fresh : All (IsFresh alias r.package_name) config.dependencies
  pub fresh_dev : All (IsFresh alias r.package_name) config.dev_dependencies
  pub new : Dependency
  pub new_alias : new.alias ≡ alias
  pub new_name : new.package_name ≡ some r.package_name
  pub new_kind : IsKindOf r new.source_kind
  pub new_source : new.source ≡ r.source
  pub new_rev : new.rev ≡ r.rev
  pub new_version : new.version ≡ r.version
  pub longer : IsLonger r.section config new edited

addition_lem :
    (r : AddDependencyRequest) (alias : Bytes) (config : PackageConfig) {edited : PackageConfig}
    → add_to_package r alias config ≡ ok edited
    → (contains alias (aliases_of config) ≡ false)
      × (edited
          ≡ with_section config r.section
              (select_section config r.section ++ new_dependency r alias ∷ []))
      × IsAddition r alias config edited
unfolding add_to_package
addition_lem r alias config h =
    let a1 : Bool = has_alias alias config.dependencies in
    let a2 : Bool = has_alias alias config.dev_dependencies in
    let b1 : Bool = has_package r.package_name config.dependencies in
    let b2 : Bool = has_package r.package_name config.dev_dependencies in
    let (_, a, h1) = >>=-eq-ok (throw_if (a1 || a2) validation_error) _ h in
    let (_, b, h2) = >>=-eq-ok (throw_if (b1 || b2) validation_error) _ h1 in
    let (a3, a4) = neither a1 a2 (throw_if-eq-ok _ validation_error a) in
    let (b3, b4) = neither b1 b2 (throw_if-eq-ok _ validation_error b) in
    rw (← (ok_injective h2)) (
      new_alias alias config (throw_if-eq-ok _ validation_error a),
      refl,
      record {
        fresh = fresh_lem alias r.package_name config.dependencies a3 b3;
        fresh_dev = fresh_lem alias r.package_name config.dev_dependencies a4 b4;
        new = new_dependency r alias;
        new_alias = unfold new_dependency in refl;
        new_name = unfold new_dependency in refl;
        new_kind = unfold new_dependency in kind_lem r.use_git r.use_registry;
        new_source = unfold new_dependency in refl;
        new_rev = unfold new_dependency in refl;
        new_version = unfold new_dependency in refl;
        longer = longer_lem r.section config (new_dependency r alias);
      },
    )
  where
    neither : (a b : Bool) → (a || b) ≡ false → (a ≡ false) × (b ≡ false)
    neither a b h = (ground arith, ground arith)

module _ (is_absolute : Bytes → Bool) where
  -- When a request is accepted and its dependency is added to a package of the right form, the
  -- package has the right form again. No dependency had the new alias or the package name, in either
  -- section; the new one, with these and the kind, source, revision and version of the request, stands
  -- at the end of the section of the request, and all else is as it was.
  pub add_to_package-IsPackage :
      (r : AddDependencyRequest) (alias : Bytes) (config : PackageConfig) {edited : PackageConfig}
      {u : Unit {0}}
      → validate_add_request is_absolute r ≡ ok u
      → IsPackage is_absolute config
      → add_to_package r alias config ≡ ok edited
      → IsPackage is_absolute edited × IsAddition r alias config edited
  add_to_package-IsPackage r alias config valid p h =
      let (_, now, addition) = addition_lem r alias config h in
      (
        rw now (
            section-IsPackage is_absolute config r.section
              (select_section config r.section ++ new_dependency r alias ∷ []) p
              (All-append (IsDependency is_absolute) (select_section config r.section)
                (new_dependency r alias ∷ []) (section_of is_absolute config r.section p)
                (validate_add_request-IsDependency is_absolute r alias valid, tt))),
        addition,
      )

-- Where the aliases of a package are distinct, over both sections, they are so when a dependency
-- is added.
pub add_to_package-IsDistinct :
    (r : AddDependencyRequest) (alias : Bytes) (config : PackageConfig) {edited : PackageConfig}
    → IsDistinct (aliases_of config)
    → add_to_package r alias config ≡ ok edited
    → IsDistinct (aliases_of edited)
add_to_package-IsDistinct r alias config distinct h =
    let (free, now, _) = addition_lem r alias config h in
    rw now (
      added-IsDistinct (λ p. false) config r.section (new_dependency r alias)
        (unfold new_dependency in free) distinct)
