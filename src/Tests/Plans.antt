-- ===== src/Tests/Plans.antt =====
-- Tests: the build order and the entry target.
use spio.Prelude.{
  ℕ, Bytes, text, text_eq, text_eq_iff, text_leb, true, false, none, some, List, [], ◌∷◌, ok, err,
  out_of_fuel, ◌≡◌, ◌≢◌, refl, inl, inr, Bool-cases, if◌then◌else◌, arith, ◌<◌, All, contains,
}
use spio.Prelude.Sort.{sort_by}
use spio.Plan.Order.{
  find_package, require_package_by_id, state_of, visit_each, visit_in, visit, ids,
  build_package_order,
}
use spio.Plan.Order.Sound.{IsBuildOrder, build_package_order-IsBuildOrder}
use spio.Plan.Order.Total.{IsAcyclic, build_package_order-ne-out_of_fuel, build_package_order-total}
use spio.Plan.Select.{find_bin, checked, resolve_entry_target, bin_target}
use spio.Plan.Select.Target.{IsTargetOf, Wanted, resolve_entry_target-IsTargetOf}
use spio.Resolve.{ResolvedPackage}
use spio.Tests.Project.{two_packages, app_package, lib_package, one_file, run_app}

order_lem : build_package_order two_packages ≡ ok (text "lib" ∷ text "app" ∷ [])
unfolding build_package_order visit_each sort_by text_leb visit visit_in state_of
    require_package_by_id find_package text_eq
order_lem = refl

build_package_order-IsBuildOrder_example :
    IsBuildOrder two_packages [] (text "lib" ∷ text "app" ∷ [])
    × ((k : Bytes)
        → contains k (ids two_packages) ≡ true
        → contains k (text "lib" ∷ text "app" ∷ []) ≡ true)
build_package_order-IsBuildOrder_example = build_package_order-IsBuildOrder two_packages order_lem

build_package_order-ne-out_of_fuel_example : build_package_order two_packages ≢ err out_of_fuel
build_package_order-ne-out_of_fuel_example = build_package_order-ne-out_of_fuel two_packages

abbrev rank : Bytes → ℕ
rank k = if text_eq k (text "app") then 1 else 0

pub some_injective : {A : Type 0} {a b : A} → some a ≡ some b → a ≡ b
some_injective e = cc

-- Each of the two packages, found under its id.
either :
    (P : Bytes → ResolvedPackage → Type 0) (k : Bytes) (p : ResolvedPackage)
    → P (text "app") app_package
    → P (text "lib") lib_package
    → find_package k two_packages ≡ some p
    → P k p
unfolding find_package
either P k p a l e = elim (Bool-cases (text_eq (text "app") k)) [
  | inl q ↦ rw (← ((text_eq_iff (text "app") k).0 q), ← (some_injective (rw q at e))) a
  | inr q ↦ elim (Bool-cases (text_eq (text "lib") k)) [
    | inl r ↦ rw (← ((text_eq_iff (text "lib") k).0 r), ← (some_injective (rw (q, r) at e))) l
    | inr r ↦ absurd (ground (arith, e, q, r))
  ]
]

two_packages-IsAcyclic : IsAcyclic two_packages rank
unfolding contains text_eq
two_packages-IsAcyclic = record {
  falls = λ k p. either (λ k p. All (λ d. rank d < rank k) p.dependencies) k p (omega arith, tt) tt;
  closed = λ k p.
      either (λ k p. All (λ d. contains d (ids two_packages) ≡ true) p.dependencies) k p (refl, tt)
        tt;
}

build_package_order-total_example :
    (order : List Bytes) × (build_package_order two_packages ≡ ok order)
build_package_order-total_example =
    build_package_order-total two_packages rank two_packages-IsAcyclic

target_lem :
    resolve_entry_target one_file run_app app_package
    ≡ ok
        (bin_target one_file app_package record { name = text "app"; path = text "src/main.styio" })
unfolding resolve_entry_target find_bin text_eq checked
target_lem = refl

resolve_entry_target-IsTargetOf_example :
    IsTargetOf one_file app_package
      (bin_target one_file app_package record { name = text "app"; path = text "src/main.styio" })
    × Wanted false
        (some (text "app"))
        none
        true
        false
        (bin_target one_file app_package record { name = text "app"; path = text "src/main.styio" })
unfolding text_eq
resolve_entry_target-IsTargetOf_example =
    resolve_entry_target-IsTargetOf one_file run_app app_package target_lem
