-- ===== src/Resolve/Run/Ordered.antt =====
-- From src/PafioResolve/Resolver.cpp to src/PafioPlan/CompilePlan.cpp: the packages of a resolved
-- graph are put in a build order.
use spio.Prelude.{
  ℕ, ◌<◌, Bytes, text_eq, Bool-cases, List, [], ◌∷◌, map, Result, ok, some, ◌≡◌, inl, inr, arith,
  All,
}
use spio.Prelude.Action.{returned}
use spio.Resolve.{ResolveOptions, ResolvedPackage, ResolvedGraphResult}
use spio.Resolve.Machine.{Machine}
use spio.Resolve.Run.{resolve_single_version_graph}
use spio.Resolve.Run.Sound.{IsLinked}
use spio.Resolve.Run.Correct.{resolve_single_version_graph-IsGraph}
use spio.Plan.Order.{find_package, build_package_order}
use spio.Plan.Order.Sound.{IsBuildOrder, build_package_order-IsBuildOrder}
use spio.Plan.Order.Total.{build_package_order-total}

All-find_package :
    (P : ResolvedPackage → Type 0) (k : Bytes) (ps : List ResolvedPackage) {p : ResolvedPackage}
    → All P ps
    → find_package k ps ≡ some p
    → P p
unfolding find_package
All-find_package P k [] h e = cc
All-find_package P k (q ∷ ps) h e = elim (Bool-cases (text_eq q.id k)) [
  | inl same ↦ ground (arith, h.0, e, same)
  | inr other ↦ All-find_package P k ps h.1 (rw other at e)
]

-- The packages of a resolved graph whose dependencies fall by some rank, which is that they have no
-- cycle, have a build order: the order is found, and each package stands behind its dependencies.
pub resolved_packages-IsBuildOrder :
    (machine : Machine) (version : Bytes) (pafio_home : Result Bytes) (fuel : ℕ)
    (manifest_path : Bytes) (options : ResolveOptions) (s : machine.State) {g : ResolvedGraphResult}
    {t : machine.State}
    → resolve_single_version_graph machine version pafio_home fuel manifest_path options s
      ≡ returned g t
    → (rank : Bytes → ℕ)
    → ((k : Bytes) (p : ResolvedPackage)
        → find_package k g.packages ≡ some p
        → All (λ d. rank d < rank k) p.dependencies)
    → (order : List Bytes) × (build_package_order g.packages ≡ ok order)
      × IsBuildOrder g.packages [] order
resolved_packages-IsBuildOrder machine version pafio_home fuel manifest_path options s {g} h rank
      falls =
    let graph =
      resolve_single_version_graph-IsGraph machine version pafio_home fuel manifest_path options s
        h in
    let (order, e) = build_package_order-total g.packages rank (record {
      falls = falls;
      closed = λ k p found.
          (All-find_package (IsLinked machine.is_absolute (map (λ p. p.id) g.packages)) k g.packages
            graph.linked found).closed;
    }) in
    (order, e, (build_package_order-IsBuildOrder g.packages e).0)
