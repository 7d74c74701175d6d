-- ===== src/Workflow/Edit/Matches.antt =====
-- src/PafioWorkflow/Dependencies.cpp: what `FindMatches` finds.
use mathlib.Core.List.{append-nil}
use spio.Prelude.{
  text_eq_iff, text_eq_refl, value_or, ℕ, suc, ◌+◌, Bytes, Bool, Bool-cases, true, false, Option,
  none, some, List, [], ◌∷◌, ◌++◌, is_empty, ◌≡◌, ◌⊎◌, inl, inr, refl, ap, arith, All,
}
use spio.Manifest.{Dependency, PackageConfig}
use spio.Workflow.{DependencySection, k_dependencies, k_dev_dependencies, RemoveDependencyRequest}
use spio.Workflow.Edit.{
  MatchLocation, select_section, with_section, dependency_matches_target, collect_from, collect,
  find_matches, names_package, erase_at,
}

-- The target is the alias of a dependency, or its package name.
abbrev pub IsMatch : Bool → Bytes → Dependency → Type 0
IsMatch false target d = d.alias ≡ target
IsMatch true target d = d.package_name ≡ some target

abbrev pub Missed : Bool → Bytes → List Dependency → Type 0
Missed by_package target ds = All (λ d. ¬ IsMatch by_package target d) ds

named_lem : (o : Option Bytes) (target : Bytes) → names_package o target ≡ true → o ≡ some target
unfolding names_package
named_lem none target e = cc
named_lem (some name) target e = ap some ((text_eq_iff name target).0 e)

match_lem :
    (by_package : Bool) (target : Bytes) (d : Dependency)
    → dependency_matches_target by_package target d ≡ true
    → IsMatch by_package target d
unfolding dependency_matches_target
match_lem false target d e = (text_eq_iff d.alias target).0 e
match_lem true target d e = named_lem d.package_name target e

miss_lem :
    (by_package : Bool) (target : Bytes) (d : Dependency)
    → dependency_matches_target by_package target d ≡ false
    → ¬ IsMatch by_package target d
unfolding dependency_matches_target names_package
miss_lem false target d e m = cc_of ((text_eq_iff d.alias target).1 m) e
  where
    cc_of : {b : Bool} → b ≡ true → b ≡ false → ⊥
    cc_of p q = cc
miss_lem true target d e m = cc_of (text_eq_refl target) (rw m at e)
  where
    cc_of : {b : Bool} → b ≡ true → b ≡ false → ⊥
    cc_of p q = cc

-- One entry of a list matches, at its place; the others do not. Its alias and its package name are these.
pub record IsOnlyMatch (by_package : Bool) (target : Bytes) (ds rest : List Dependency)
    (alias name : Bytes) : Type 0 where
  pub front : List Dependency
  pub removed : Dependency
  pub back : List Dependency
  pub was : ds ≡ front ++ removed ∷ back
  pub now : rest ≡ front ++ back
  pub matched : IsMatch by_package target removed
  pub others : Missed by_package target (front ++ back)
  pub alias_told : alias ≡ removed.alias
  pub name_told : name ≡ value_or removed.package_name []

module _ (by_package : Bool) (target : Bytes) (section : DependencySection) where
  none_collected :
      (i : ℕ) (ds : List Dependency)
      → collect_from by_package target section i ds ≡ []
      → Missed by_package target ds
  unfolding collect_from
  none_collected i [] h = tt
  none_collected i (d ∷ ds) h = elim (Bool-cases (dependency_matches_target by_package target d)) [
    | inl e ↦ absurd (ground (arith, h, e))
    | inr e ↦ (miss_lem by_package target d e, none_collected (suc i) ds (rw e at h))
  ]

  cons_injective :
      {x y : MatchLocation} {xs ys : List MatchLocation} → x ∷ xs ≡ y ∷ ys → (x ≡ y) × (xs ≡ ys)
  cons_injective h = (cc, cc)

  -- The only match of a section, at an index that counts from `i`.
  one_collected :
      (i : ℕ) (ds : List Dependency) {location : MatchLocation}
      → collect_from by_package target section i ds ≡ location ∷ []
      → (j : ℕ) × (location.index ≡ i + j)
        × (location.section ≡ section)
        × IsOnlyMatch by_package target ds (erase_at j ds) location.alias location.package_name
  unfolding collect_from erase_at
  one_collected i [] h = cc
  one_collected i (d ∷ ds) {location} h =
      elim (Bool-cases (dependency_matches_target by_package target d)) [
        | inl e ↦
            let (here, rest) = cons_injective (rw e at h) in
            (
              0,
              rw (← here) (omega arith),
              rw (← here) refl,
              record {
                front = [];
                removed = d;
                back = ds;
                was = refl;
                now = refl;
                matched = match_lem by_package target d e;
                others = none_collected (suc i) ds rest;
                alias_told = rw (← here) refl;
                name_told = rw (← here) refl;
              },
            )
        | inr e ↦
            let (j, at, same, only) = one_collected (suc i) ds (rw e at h) in
            (
              suc j,
              omega (arith, at),
              same,
              record {
                front = d ∷ only.front;
                removed = only.removed;
                back = only.back;
                was = ap (◌∷◌ d) only.was;
                now = ap (◌∷◌ d) only.now;
                matched = only.matched;
                others = (miss_lem by_package target d e, only.others);
                alias_told = only.alias_told;
                name_told = only.name_told;
              },
            )
      ]

abbrev pub other_section : DependencySection → DependencySection
other_section k_dependencies = k_dev_dependencies
other_section k_dev_dependencies = k_dependencies

-- The location's entry is the only match in its section. This is the section that was asked for;
-- where none was, there is no match in the other section.
pub record IsRemoval (by_package : Bool) (request : RemoveDependencyRequest)
    (config : PackageConfig) (location : MatchLocation) (edited : PackageConfig) : Type 0 where
  pub rest : List Dependency
  pub now : edited ≡ with_section config location.section rest
  pub only :
      IsOnlyMatch by_package request.target
        (select_section config location.section)
        rest
        location.alias
        location.package_name
  pub asked :
      (request.section ≡ some location.section)
      ⊎ ((request.section ≡ none)
          × Missed by_package request.target
              (select_section config (other_section location.section)))

-- What a request's matches are when there is one.
abbrev pub IsFound : Bool → RemoveDependencyRequest → PackageConfig → MatchLocation → Type 0
IsFound by_package request config location = IsRemoval by_package request config location (
    with_section config location.section
      (erase_at location.index (select_section config location.section)))

module _ (request : RemoveDependencyRequest) (config : PackageConfig) (by_package : Bool) where
  abbrev IsAsked : DependencySection → Type 0
  IsAsked section =
      (request.section ≡ some section)
      ⊎ ((request.section ≡ none)
          × Missed by_package request.target (select_section config (other_section section)))

  in_section :
      (section : DependencySection) {location : MatchLocation}
      → collect by_package request.target config section ≡ location ∷ []
      → IsAsked section
      → IsFound by_package request config location
  in_section section {location} h asked =
      let (j, at, same, only) =
        one_collected by_package request.target section 0 (select_section config section) h in
      placed section location (omega (arith, at)) same only asked
    where
      placed :
          (section : DependencySection) (location : MatchLocation) {j : ℕ}
          → j ≡ location.index
          → location.section ≡ section
          → IsOnlyMatch by_package request.target
              (select_section config section)
              (erase_at j (select_section config section))
              location.alias
              location.package_name
          → IsAsked section
          → IsFound by_package request config location
      placed section location at same only asked = record {
        rest = erase_at location.index (select_section config location.section);
        now = refl;
        only = rw (same, ← at) only;
        asked = rw same asked;
      }

  append_one :
      (xs ys : List MatchLocation) {location : MatchLocation}
      → xs ++ ys ≡ location ∷ []
      → ((xs ≡ location ∷ []) × (ys ≡ [])) ⊎ ((xs ≡ []) × (ys ≡ location ∷ []))
  append_one [] ys h = inr (refl, h)
  append_one (x ∷ []) [] h = inl (h, refl)
  append_one (x ∷ []) (y ∷ ys) h = cc
  append_one (x ∷ z ∷ xs) ys h = cc

  pub find_matches-IsFound :
      (wanted : Option DependencySection) {location : MatchLocation}
      → request.section ≡ wanted
      → find_matches config request.target wanted by_package ≡ location ∷ []
      → IsFound by_package request config location
  unfolding find_matches
  find_matches-IsFound (some section) e h = in_section section h (inl e)
  find_matches-IsFound none e h =
      elim (append_one (collect by_package request.target config k_dependencies) _ h) [
        | inl (one, missed) ↦
            in_section k_dependencies one
              (inr (e, none_collected by_package request.target k_dev_dependencies 0 _ missed))
        | inr (missed, one) ↦
            in_section k_dev_dependencies one
              (inr (e, none_collected by_package request.target k_dependencies 0 _ missed))
      ]

  -- No match in the sections that are searched.
  abbrev pub MissedIn : Option DependencySection → Type 0
  MissedIn (some section) = Missed by_package request.target (select_section config section)
  MissedIn none =
      Missed by_package request.target config.dependencies
      × Missed by_package request.target config.dev_dependencies

  append_none : (xs ys : List MatchLocation) → is_empty (xs ++ ys) ≡ true → (xs ≡ []) × (ys ≡ [])
  append_none [] [] h = (refl, refl)
  append_none [] (y ∷ ys) h = cc
  append_none (x ∷ xs) ys h = cc

  pub find_matches-MissedIn :
      (wanted : Option DependencySection)
      → is_empty (find_matches config request.target wanted by_package) ≡ true
      → MissedIn wanted
  unfolding find_matches select_section
  find_matches-MissedIn (some section) h =
      none_collected by_package request.target section 0 _
        (append_none (collect by_package request.target config section) []
          (rw (append-nil (collect by_package request.target config section)) h)).0
  find_matches-MissedIn none h =
      let (a, b) =
        append_none (collect by_package request.target config k_dependencies)
          (collect by_package request.target config k_dev_dependencies) h in
      (
        none_collected by_package request.target k_dependencies 0 config.dependencies a,
        none_collected by_package request.target k_dev_dependencies 0 config.dev_dependencies b,
      )
