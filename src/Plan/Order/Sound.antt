-- ===== src/Plan/Order/Sound.antt =====
-- src/PafioPlan/CompilePlan.cpp, `BuildPackageOrder`: build orders, and the invariant of `visit`.
use mathlib.Core.List.{append_assoc, append-nil}
use spio.Prelude.{
  ℕ, zero, suc, Bytes, text_eq_iff, text_eq_refl, contains, contains-append, Bool, true, false,
  List, [], ◌∷◌, ◌++◌, some, Result, ok, ok_injective, ◌≡◌, refl, arith, All, All-contains,
  >>=-eq-ok, ◌∙◌, length,
}
use spio.Prelude.Sort.{map-id, sort_by, contains-sort_by}
use spio.Resolve.{ResolvedPackage}
use spio.Plan.Order.{
  VisitState, unseen, active, done, find_package, require_package_by_id, state_of, Visit, enter,
  leave, visit_each, visit_in, visit, ids, start, build_package_order,
}

-- `k` is new, belongs to a package, and all its dependencies are among `seen`.
pub record CanFollow (packages : List ResolvedPackage) (seen : List Bytes) (k : Bytes)
    : Type 0 where
  pub is_new : contains k seen ≡ false
  pub resolved : ResolvedPackage
  pub found : find_package k packages ≡ some resolved
  pub behind : All (λ d. contains d seen ≡ true) resolved.dependencies

-- Each id can follow `seen` and the ids in front of it.
abbrev pub IsBuildOrder : List ResolvedPackage → List Bytes → List Bytes → Type 0
IsBuildOrder packages seen [] = Unit
IsBuildOrder packages seen (k ∷ ks) =
    CanFollow packages seen k × IsBuildOrder packages (seen ++ k ∷ []) ks

unfoldable pub expected : Bool → Bool → VisitState
expected true on_stack = done
expected false true = active
expected false false = unseen

module _ (packages : List ResolvedPackage) where
  IsBuildOrder-concat :
      (k : Bytes) (seen ks : List Bytes)
      → IsBuildOrder packages seen ks
      → CanFollow packages (seen ++ ks) k
      → IsBuildOrder packages seen (ks ++ k ∷ [])
  IsBuildOrder-concat k seen [] h last = (rw append-nil at last, tt)
  IsBuildOrder-concat k seen (j ∷ ks) h last =
      (h.0, IsBuildOrder-concat k (seen ++ j ∷ []) ks h.1 (rw append_assoc last))

  -- The map of states, the stack and the order tell the same story.
  pub record Inv (s : Visit) : Type 0 where
    pub ordered : IsBuildOrder packages [] s.order
    pub agrees :
        (k : Bytes) → state_of k s.visit_state ≡ expected (contains k s.order) (contains k s.stack)
    pub apart : (k : Bytes) → contains k s.stack ≡ true → contains k s.order ≡ false

  -- What a visit that begins in `s` and ends in `t` has done.
  pub record Grows (s t : Visit) : Type 0 where
    pub inv : Inv t
    pub same_stack : t.stack ≡ s.stack
    pub keeps : (k : Bytes) → contains k s.order ≡ true → contains k t.order ≡ true

  pub enter-Inv :
      (k : Bytes) (s : Visit) → Inv s → state_of k s.visit_state ≡ unseen → Inv (enter k s)
  unfolding state_of contains expected
  enter-Inv k s v e = record {
    ordered = v.ordered;
    agrees = λ j. ground (arith, v.agrees j, v.agrees k, text_eq_iff k j, e);
    apart = λ j. ground (arith, v.agrees k, v.apart j, text_eq_iff k j, e);
  }

  leave-Inv :
      (k : Bytes) (s t : Visit) (p : ResolvedPackage)
      → Inv s
      → state_of k s.visit_state ≡ unseen
      → find_package k packages ≡ some p
      → Grows (enter k s) t
      → All (λ d. contains d t.order ≡ true) p.dependencies
      → Inv (leave k t)
  unfolding state_of contains expected
  leave-Inv k s t p v e f g b = record {
    ordered = IsBuildOrder-concat k [] t.order g.inv.ordered (record {
      is_new = ground (arith, g.inv.apart k, g.same_stack, text_eq_refl k);
      resolved = p;
      found = f;
      behind = b;
    });
    agrees = λ j.
        ground (
          arith,
          g.inv.agrees j,
          g.same_stack,
          text_eq_iff k j,
          contains-append j t.order (k ∷ []),
        );
    apart = λ j. ground (
      arith,
      v.agrees k,
      g.inv.apart j,
      g.same_stack,
      text_eq_iff k j,
      contains-append j t.order (k ∷ []),
    );
  }

  -- `v` keeps its promise at every id: it lists the id.
  abbrev pub Visits : (Bytes → Visit → Result Visit) → Type 0
  Visits v =
      (k : Bytes) (s t : Visit) → Inv s → v k s ≡ ok t → Grows s t × (contains k t.order ≡ true)

  Grows-trans : (s t u : Visit) → Grows s t → Grows t u → Grows s u
  Grows-trans s t u g h = record {
    inv = h.inv;
    same_stack = h.same_stack ∙ g.same_stack;
    keeps = λ k m. h.keeps k (g.keeps k m);
  }

  Grows-refl : (s : Visit) → Inv s → Grows s s
  Grows-refl s i = record { inv = i; same_stack = refl; keeps = λ k m. m }

  visit_each-Grows :
      (v : Bytes → Visit → Result Visit)
      → Visits v
      → (ks : List Bytes) (s t : Visit) → Inv s
      → visit_each v ks s ≡ ok t
      → Grows s t × All (λ d. contains d t.order ≡ true) ks
  unfolding visit_each
  visit_each-Grows v vs [] s t i e = rw (← (ok_injective e)) (Grows-refl s i, tt)
  visit_each-Grows v vs (k ∷ ks) s t i e =
      let (u, first, rest) = >>=-eq-ok (v k s) (visit_each v ks) e in
      let (g, listed) = vs k s u i first in
      let (h, all) = visit_each-Grows v vs ks u t g.inv rest in
      (Grows-trans s u t g h, (h.keeps k listed, all))

  visit_unseen :
      (v : Bytes → Visit → Result Visit)
      → Visits v
      → (k : Bytes) (s t : Visit) → Inv s
      → state_of k s.visit_state ≡ unseen
      → visit_in v packages unseen k s ≡ ok t
      → Grows s t × (contains k t.order ≡ true)
  unfolding visit_in contains
  visit_unseen v vs k s t i q h =
      let (p, found, h1) = >>=-eq-ok (require_package_by_id packages k) _ h in
      let (u, walked, h2) = >>=-eq-ok (visit_each v p.dependencies (enter k s)) _ h1 in
      let (g, behind) =
        visit_each-Grows v vs p.dependencies (enter k s) u (enter-Inv k s i q) walked in
      let found' : find_package k packages ≡ some p =
        unfold require_package_by_id in ground arith in
      rw (← (ok_injective h2)) (
        (
          record {
            inv = leave-Inv k s u p i q found' g behind;
            same_stack = ground (arith, g.same_stack);
            keeps = λ j m. ground (arith, g.keeps j m, contains-append j u.order (k ∷ []));
          },
          ground (arith, contains-append k u.order (k ∷ []), text_eq_refl k),
        ))

  visit_in-Visits :
      (v : Bytes → Visit → Result Visit)
      → Visits v
      → (c : VisitState) (k : Bytes) (s t : Visit) → Inv s
      → state_of k s.visit_state ≡ c
      → visit_in v packages c k s ≡ ok t
      → Grows s t × (contains k t.order ≡ true)
  unfolding visit_in expected
  visit_in-Visits v vs done k s t i q h =
      rw (← (ok_injective h)) (Grows-refl s i, ground (arith, i.agrees k, q))
  visit_in-Visits v vs active k s t i q h = cc
  visit_in-Visits v vs unseen k s t i q h = visit_unseen v vs k s t i q h

  pub visit-Visits : (fuel : ℕ) → Visits (visit fuel packages)
  unfolding visit
  visit-Visits zero k s t i e = cc
  visit-Visits (suc fuel) k s t i e =
      visit_in-Visits (visit fuel packages) (visit-Visits fuel) (state_of k s.visit_state) k s t i
        refl e

  pub start-Inv : Inv start
  unfolding state_of contains expected
  start-Inv = record { ordered = tt; agrees = λ k. refl; apart = λ k e. refl }

contains-sort_of :
    (k : Bytes) (xs : List Bytes) → contains k xs ≡ true → contains k (sort_by (λ j. j) xs) ≡ true
contains-sort_of k xs m =
    rw (map-id (sort_by (λ j. j) xs), map-id xs) at (contains-sort_by (λ j. j) k xs) ∙ m

-- Whenever `BuildPackageOrder` returns, its list holds no id twice, every id in it belongs to a
-- package whose dependencies all stand in front of it, and the id of every package is in it.
pub build_package_order-IsBuildOrder :
    (packages : List ResolvedPackage) {order : List Bytes}
    → build_package_order packages ≡ ok order
    → IsBuildOrder packages [] order
      × ((k : Bytes) → contains k (ids packages) ≡ true → contains k order ≡ true)
unfolding build_package_order
build_package_order-IsBuildOrder packages {order} e =
    let sorted : List Bytes = sort_by (λ k. k) (ids packages) in
    let v = visit (suc (length packages)) packages in
    let (t, walked, h) = >>=-eq-ok (visit_each v sorted start) _ e in
    let (g, listed) =
      visit_each-Grows packages v (visit-Visits packages _) sorted start t (start-Inv packages)
        walked in
    rw (← (ok_injective h)) (
      (
        g.inv.ordered,
        λ k m.
            All-contains (λ d. contains d t.order ≡ true) k sorted listed
              (contains-sort_of k (ids packages) m),
      ))
