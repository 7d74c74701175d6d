-- ===== src/Plan/Order/Total.antt =====
-- src/PafioPlan/CompilePlan.cpp, `BuildPackageOrder`: its end, and graphs with no cycle.
use spio.Prelude.{
  ℕ, zero, suc, ◌+◌, ◌<◌, Bytes, text_eq, contains, true, List, [], ◌∷◌, some, Result, ok, err, ◌≡◌,
  ◌≢◌, refl, ap, arith, All, All-contains, All-of_contains, >>=-eq-err, Bool-cases, inl, inr,
  length, out_of_fuel,
}
use spio.Prelude.Sort.{sort_by, All-sort_by}
use spio.Prelude.Distinct.{IsDistinct, length-le_of_IsDistinct}
use spio.Resolve.{ResolvedPackage}
use spio.Plan.Order.{
  VisitState, unseen, active, done, find_package, require_package_by_id, state_of, Visit, enter,
  leave, visit_each, visit_in, visit, ids, start, build_package_order,
}
use spio.Plan.Order.Sound.{Inv, Grows, Visits, enter-Inv, visit-Visits, start-Inv, expected}

find_package-contains :
    (k : Bytes) (packages : List ResolvedPackage) {p : ResolvedPackage}
    → find_package k packages ≡ some p
    → contains k (ids packages) ≡ true
unfolding find_package contains
find_package-contains k [] e = cc
find_package-contains k (q ∷ packages) {p} e =
    ground (arith, find_package-contains k packages {p = p})

contains-find_package :
    (k : Bytes) (packages : List ResolvedPackage)
    → contains k (ids packages) ≡ true
    → (p : ResolvedPackage) × (find_package k packages ≡ some p)
unfolding find_package contains
contains-find_package k [] e = cc
contains-find_package k (q ∷ packages) e = elim (Bool-cases (text_eq q.id k)) [
  | inl h ↦ (q, rw h)
  | inr h ↦ rw h (contains-find_package k packages (ground arith))
]

length-ids : (packages : List ResolvedPackage) → length (ids packages) ≡ length packages
length-ids [] = refl
length-ids (p ∷ packages) = ap suc (length-ids packages)

module _ (packages : List ResolvedPackage) where
  -- The stack holds ids of packages, none twice, and the fuel reaches for the rest.
  record Fits (fuel : ℕ) (s : Visit) : Type 0 where
    inv : Inv packages s
    distinct : IsDistinct s.stack
    known : All (λ j. contains j (ids packages) ≡ true) s.stack
    fuel_left : length packages < fuel + length s.stack

  Fits-Grows : {fuel : ℕ} {s t : Visit} → Fits fuel s → Grows packages s t → Fits fuel t
  Fits-Grows {fuel} f g = record {
    inv = g.inv;
    distinct = rw g.same_stack f.distinct;
    known = rw g.same_stack f.known;
    fuel_left = rw g.same_stack f.fuel_left;
  }

  Fits-zero : {s : Visit} → Fits zero s → ⊥
  Fits-zero {s} f = omega (
    arith,
    f.fuel_left,
    length-ids packages,
    length-le_of_IsDistinct s.stack (ids packages) f.distinct f.known,
  )

  Fits-enter :
      (fuel : ℕ) (k : Bytes) (s : Visit) {p : ResolvedPackage}
      → Fits (suc fuel) s
      → state_of k s.visit_state ≡ unseen
      → find_package k packages ≡ some p
      → Fits fuel (enter k s)
  unfolding expected
  Fits-enter fuel k s f q e = record {
    inv = enter-Inv packages k s f.inv q;
    distinct = (ground (arith, f.inv.agrees k, q), f.distinct);
    known = (find_package-contains k packages e, f.known);
    fuel_left = omega (arith, f.fuel_left);
  }

  -- `v` is never cut off while the fuel fits.
  abbrev IsUncut : ℕ → (Bytes → Visit → Result Visit) → Type 0
  IsUncut fuel v = (k : Bytes) (s : Visit) → Fits fuel s → v k s ≢ err out_of_fuel

  visit_each-IsUncut :
      (fuel : ℕ) (v : Bytes → Visit → Result Visit)
      → Visits packages v
      → IsUncut fuel v
      → (ks : List Bytes) (s : Visit) → Fits fuel s
      → visit_each v ks s ≢ err out_of_fuel
  unfolding visit_each
  visit_each-IsUncut fuel v vs u [] s f = λ e. cc
  visit_each-IsUncut fuel v vs u (k ∷ ks) s f = λ e. elim (>>=-eq-err (v k s) (visit_each v ks) e) [
    | inl h ↦ u k s f h
    | inr (t, q, h) ↦ visit_each-IsUncut fuel v vs u ks t (Fits-Grows f (vs k s t f.inv q).0) h
  ]

  visit_in-IsUncut :
      (fuel : ℕ) (v : Bytes → Visit → Result Visit)
      → Visits packages v
      → IsUncut fuel v
      → (c : VisitState) (k : Bytes) (s : Visit) → Fits (suc fuel) s
      → state_of k s.visit_state ≡ c
      → visit_in v packages c k s ≢ err out_of_fuel
  unfolding visit_in require_package_by_id
  visit_in-IsUncut fuel v vs u done k s f q = λ e. cc
  visit_in-IsUncut fuel v vs u active k s f q = λ e. cc
  visit_in-IsUncut fuel v vs u unseen k s f q = λ e.
      elim (>>=-eq-err (require_package_by_id packages k) _ e) [
        | inl h ↦ ground arith
        | inr (p, h, rest) ↦
            elim (>>=-eq-err (visit_each v p.dependencies (enter k s)) (λ t. ok (leave k t)) rest) [
              | inl w ↦
                  visit_each-IsUncut fuel v vs u p.dependencies (enter k s)
                    (Fits-enter fuel k s {p = p} f q (ground arith)) w
              | inr (t, w, none_left) ↦ cc
            ]
      ]

  visit-IsUncut : (fuel : ℕ) → IsUncut fuel (visit fuel packages)
  unfolding visit
  visit-IsUncut zero k s f = absurd (Fits-zero f)
  visit-IsUncut (suc fuel) k s f =
      visit_in-IsUncut fuel (visit fuel packages) (visit-Visits packages fuel) (visit-IsUncut fuel)
        (state_of k s.visit_state) k s f refl

  start-Fits : Fits (suc (length packages)) start
  start-Fits = record {
    inv = start-Inv packages;
    distinct = tt;
    known = tt;
    fuel_left = omega arith;
  }

-- `BuildPackageOrder` ends on every list of packages: the fuel of the model is never used up.
pub build_package_order-ne-out_of_fuel :
    (packages : List ResolvedPackage) → build_package_order packages ≢ err out_of_fuel
unfolding build_package_order
build_package_order-ne-out_of_fuel packages e =
    let v = visit (suc (length packages)) packages in
    elim (>>=-eq-err (visit_each v (sort_by (λ k. k) (ids packages)) start) _ e) [
      | inl h ↦
          visit_each-IsUncut packages _ v (visit-Visits packages _) (visit-IsUncut packages _) _
            start (start-Fits packages) h
      | inr (t, w, h) ↦ cc
    ]

-- A rank that falls along dependencies, and dependencies that are all packages: no cycle and no
-- dangling id.
pub record IsAcyclic (packages : List ResolvedPackage) (rank : Bytes → ℕ) : Type 0 where
  pub falls :
      (k : Bytes) (p : ResolvedPackage)
      → find_package k packages ≡ some p
      → All (λ d. rank d < rank k) p.dependencies
  pub closed :
      (k : Bytes) (p : ResolvedPackage)
      → find_package k packages ≡ some p
      → All (λ d. contains d (ids packages) ≡ true) p.dependencies

module _ (packages : List ResolvedPackage) (rank : Bytes → ℕ) (a : IsAcyclic packages rank) where
  abbrev Succeeds : ℕ → (Bytes → Visit → Result Visit) → Type 0
  Succeeds fuel v =
      (k : Bytes) (s : Visit)
      → Fits packages fuel s
      → contains k (ids packages) ≡ true
      → All (λ j. rank k < rank j) s.stack
      → (t : Visit) × (v k s ≡ ok t)

  All-above :
      (d k : Bytes) (js : List Bytes)
      → rank d < rank k
      → All (λ j. rank k < rank j) js
      → All (λ j. rank d < rank j) js
  All-above d k [] h b = tt
  All-above d k (j ∷ js) h b = (omega (arith, b.0), All-above d k js h b.1)

  visit_each-Succeeds :
      (fuel : ℕ) (v : Bytes → Visit → Result Visit)
      → Visits packages v
      → Succeeds fuel v
      → (ks : List Bytes) (s : Visit) → Fits packages fuel s
      → All (λ d. contains d (ids packages) ≡ true) ks
      → All (λ d. All (λ j. rank d < rank j) s.stack) ks
      → (t : Visit) × (visit_each v ks s ≡ ok t)
  unfolding visit_each
  visit_each-Succeeds fuel v vs u [] s f h b = (s, refl)
  visit_each-Succeeds fuel v vs u (k ∷ ks) s f h b =
      let (t, q) = u k s f h.0 b.0 in
      let g = (vs k s t f.inv q).0 in
      rw q
        (visit_each-Succeeds fuel v vs u ks t (Fits-Grows packages f g) h.1 (rw g.same_stack b.1))

  visit_in-Succeeds :
      (fuel : ℕ) (v : Bytes → Visit → Result Visit)
      → Visits packages v
      → Succeeds fuel v
      → (c : VisitState) (k : Bytes) (s : Visit) → Fits packages (suc fuel) s
      → state_of k s.visit_state ≡ c
      → contains k (ids packages) ≡ true
      → All (λ j. rank k < rank j) s.stack
      → (t : Visit) × (visit_in v packages c k s ≡ ok t)
  unfolding visit_in require_package_by_id expected
  visit_in-Succeeds fuel v vs u done k s f q m b = (s, refl)
  visit_in-Succeeds fuel v vs u active k s f q m b = absurd (
      omega (
        arith,
        All-contains (λ j. rank k < rank j) k s.stack b (ground (arith, f.inv.agrees k, q)),
      ))
  visit_in-Succeeds fuel v vs u unseen k s f q m b =
      let (p, h) = contains-find_package k packages m in
      let (t, w) =
        visit_each-Succeeds fuel v vs u p.dependencies (enter k s)
          (Fits-enter packages fuel k s f q h) (a.closed k p h)
          (above_all p.dependencies (a.falls k p h)) in
      (leave k t, ground (arith, h, w))
    where
      above_all :
          (ds : List Bytes)
          → All (λ d. rank d < rank k) ds
          → All (λ d. All (λ j. rank d < rank j) (k ∷ s.stack)) ds
      above_all [] l = tt
      above_all (d ∷ ds) l = ((l.0, All-above d k s.stack l.0 b), above_all ds l.1)

  visit-Succeeds : (fuel : ℕ) → Succeeds fuel (visit fuel packages)
  unfolding visit
  visit-Succeeds zero k s f m b = absurd (Fits-zero packages f)
  visit-Succeeds (suc fuel) k s f m b =
      visit_in-Succeeds fuel (visit fuel packages) (visit-Visits packages fuel)
        (visit-Succeeds fuel) (state_of k s.visit_state) k s f refl m b

-- Packages with no cycle and no dangling dependency always get an order.
pub build_package_order-total :
    (packages : List ResolvedPackage) (rank : Bytes → ℕ)
    → IsAcyclic packages rank
    → (order : List Bytes) × (build_package_order packages ≡ ok order)
unfolding build_package_order
build_package_order-total packages rank a =
    let v = visit (suc (length packages)) packages in
    let sorted : List Bytes = sort_by (λ k. k) (ids packages) in
    let (t, w) =
      visit_each-Succeeds packages rank a _ v (visit-Visits packages _)
        (visit-Succeeds packages rank a _) sorted start (start-Fits packages)
        (All-sort_by (λ k. k) (λ d. contains d (ids packages) ≡ true) (ids packages)
          (All-of_contains _ (ids packages) (λ k m. m)))
        (All-of_contains _ sorted (λ k m. tt)) in
    (t.order, rw w)
