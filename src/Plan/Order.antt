-- ===== src/Plan/Order.antt =====
-- src/PafioPlan/CompilePlan.cpp, `BuildPackageOrder` and `RequirePackageById`: the depth-first
-- visit that lists each package behind its dependencies. `std::function` recursion is recursion on
-- fuel here; one more than the number of packages is enough.
pub mod Sound
pub mod Total
use spio.Prelude.{
  ℕ, zero, suc, ◌+◌, Bytes, text_eq, List, [], ◌∷◌, ◌++◌, map, Option, none, some, Error,
  plan_error, out_of_fuel, Result, ok, err, ◌>>=◌, or_throw, if◌then◌else◌, length,
}
use spio.Prelude.Sort.{sort_by}
use spio.Resolve.{ResolvedPackage}

pub data VisitState : Type 0 where
  unseen active done : VisitState

-- `packages_by_id`, filled by `emplace`: the first package with an id stays.
unfoldable pub find_package : Bytes → List ResolvedPackage → Option ResolvedPackage
find_package package_id [] = none
find_package package_id (p ∷ ps) =
    if text_eq p.id package_id then some p else find_package package_id ps

unfoldable pub require_package_by_id : List ResolvedPackage → Bytes → Result ResolvedPackage
require_package_by_id packages package_id = or_throw (find_package package_id packages) plan_error

-- `visit_state[id]`: a missing entry is default-initialised, to `kUnseen`.
unfoldable pub state_of : Bytes → List (Bytes × VisitState) → VisitState
state_of k [] = unseen
state_of k ((j, v) ∷ m) = if text_eq j k then v else state_of k m

abbrev pub set_state : Bytes → VisitState → List (Bytes × VisitState) → List (Bytes × VisitState)
set_state k v m = (k, v) ∷ m

pub record Visit : Type 0 where
  pub visit_state : List (Bytes × VisitState)
  -- the back of the vector first
  pub stack : List Bytes
  pub order : List Bytes

abbrev pub enter : Bytes → Visit → Visit
enter k s = record s { visit_state = set_state k active s.visit_state; stack = k ∷ s.stack }

abbrev pub pop_back : List Bytes → List Bytes
pop_back [] = []
pop_back (x ∷ xs) = xs

abbrev pub leave : Bytes → Visit → Visit
leave k s = record {
  visit_state = set_state k done s.visit_state;
  stack = pop_back s.stack;
  order = s.order ++ k ∷ [];
}

-- `for (id : ids) visit(id);`
unfoldable pub visit_each : (Bytes → Visit → Result Visit) → List Bytes → Visit → Result Visit
visit_each visit [] s = ok s
visit_each visit (k ∷ ks) s = do t ← visit k s; visit_each visit ks t

unfoldable pub visit_in :
    (Bytes → Visit → Result Visit)
    → List ResolvedPackage
    → VisitState
    → Bytes
    → Visit
    → Result Visit
visit_in visit packages done k s = ok s
visit_in visit packages active k s = err plan_error
visit_in visit packages unseen k s = do
  p ← require_package_by_id packages k
  t ← visit_each visit p.dependencies (enter k s)
  ok (leave k t)

unfoldable pub visit : ℕ → List ResolvedPackage → Bytes → Visit → Result Visit
visit zero packages k s = err out_of_fuel
visit (suc fuel) packages k s =
    visit_in (visit fuel packages) packages (state_of k s.visit_state) k s

abbrev pub ids : List ResolvedPackage → List Bytes
ids = map (λ p. p.id)

abbrev pub start : Visit
start = record { visit_state = []; stack = []; order = [] }

unfoldable pub build_package_order : List ResolvedPackage → Result (List Bytes)
build_package_order packages = do
  s ← visit_each (visit (suc (length packages)) packages) (sort_by (λ k. k) (ids packages)) start
  ok s.order
