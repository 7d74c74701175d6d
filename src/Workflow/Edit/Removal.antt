-- ===== src/Workflow/Edit/Removal.antt =====
-- src/PafioWorkflow/Dependencies.cpp: what removing a dependency takes out of the manifest.
use spio.Prelude.{
  Bytes, Bool, Bool-cases, true, false, ◌&&◌, List, [], ◌∷◌, ◌++◌, ok, ok_injective, >>=-eq-ok,
  is_empty, ◌≡◌, ◌⊎◌, inl, inr, refl, ap, arith, All,
}
use spio.Manifest.{Dependency, PackageConfig}
use spio.Manifest.Load.Form.{IsDependency, IsPackage}
use spio.Workflow.{RemoveDependencyRequest}
use spio.Workflow.Edit.{
  MatchLocation, select_section, with_section, find_matches, has_slash, all_matches, only_location,
  erase_at, remove_from_package,
}
use spio.Workflow.Edit.Laws.{section-IsPackage, section_of}
use spio.Workflow.Edit.Matches.{IsRemoval, find_matches-IsFound, MissedIn, find_matches-MissedIn}

only_location_lem :
    (ls : List MatchLocation) {location : MatchLocation}
    → only_location ls ≡ ok location
    → ls ≡ location ∷ []
unfolding only_location
only_location_lem [] h = cc
only_location_lem (l ∷ []) h = cc
only_location_lem (l ∷ m ∷ ms) h = cc

-- The entry is found by its alias, or else, for a target with a slash that is no alias in the
-- sections that are searched, by its package name.
abbrev pub IsRemovedFrom :
    RemoveDependencyRequest → PackageConfig → MatchLocation → PackageConfig → Type 0
IsRemovedFrom request config location edited =
    IsRemoval false request config location edited
    ⊎ ((has_slash request.target ≡ true)
        × MissedIn request config false request.section
        × IsRemoval true request config location edited)

all_matches-IsFound :
    (request : RemoveDependencyRequest) (config : PackageConfig) {location : MatchLocation}
    → all_matches config request ≡ location ∷ []
    → IsRemovedFrom request config location (
        with_section config location.section
          (erase_at location.index (select_section config location.section)))
unfolding all_matches
all_matches-IsFound request config h =
    let no_alias : Bool = is_empty (find_matches config request.target request.section false) in
    elim (Bool-cases (no_alias && has_slash request.target)) [
      | inl e ↦
          let (a, b) = both no_alias (has_slash request.target) e in
          inr (
            b,
            find_matches-MissedIn request config false request.section a,
            find_matches-IsFound request config true request.section refl (rw e at h),
          )
      | inr e ↦ inl (find_matches-IsFound request config false request.section refl (rw e at h))
    ]
  where
    both : (a b : Bool) → (a && b) ≡ true → (a ≡ true) × (b ≡ true)
    both a b h = (ground arith, ground arith)

All-without {κ} :
    (P : Dependency → Type κ) (front back : List Dependency) (d : Dependency)
    → All P (front ++ d ∷ back)
    → All P (front ++ back)
All-without P [] back d h = h.1
All-without P (x ∷ front) back d h = (h.0, All-without P front back d h.1)

removal-IsPackage :
    (is_absolute : Bytes → Bool) (by_package : Bool) (request : RemoveDependencyRequest)
    (config edited : PackageConfig) (location : MatchLocation)
    → IsPackage is_absolute config
    → IsRemoval by_package request config location edited
    → IsPackage is_absolute edited
removal-IsPackage is_absolute by_package request config edited location p r = rw r.now (
    section-IsPackage is_absolute config location.section r.rest p (
      rw r.only.now (
        All-without (IsDependency is_absolute) r.only.front r.only.back r.only.removed
          (rw (← r.only.was) (section_of is_absolute config location.section p)))))

-- When a dependency is removed, one entry is taken out, and its alias and its package name are
-- reported. It matches the target by its alias or, where the target has a slash and is no alias in
-- the sections that are searched, by its package name, and no other entry of its section does. Its
-- section is the one of the request; where the request names none, no entry of the other section
-- matches. A package of the right form keeps it.
pub remove_from_package-IsRemoval :
    (is_absolute : Bytes → Bool) (request : RemoveDependencyRequest) (config : PackageConfig)
    {location : MatchLocation} {edited : PackageConfig}
    → IsPackage is_absolute config
    → remove_from_package request config ≡ ok (location, edited)
    → IsRemovedFrom request config location edited × IsPackage is_absolute edited
unfolding remove_from_package
remove_from_package-IsRemoval is_absolute request config {location} {edited} p h =
    let (l, a, h1) = >>=-eq-ok (only_location (all_matches config request)) _ h in
    let made = ok_injective h1 in
    let found =
      all_matches-IsFound request config (only_location_lem (all_matches config request) a) in
    let removal : IsRemovedFrom request config location edited =
      rw (← (ap (λ q. q.0) made), ← (ap (λ q. q.1) made)) found in
    (removal, keeps removal)
  where
    keeps : IsRemovedFrom request config location edited → IsPackage is_absolute edited
    keeps (inl r) = removal-IsPackage is_absolute false request config edited location p r
    keeps (inr (_, _, r)) = removal-IsPackage is_absolute true request config edited location p r
