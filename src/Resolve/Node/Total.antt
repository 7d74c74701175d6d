-- ===== src/Resolve/Node/Total.antt =====
-- src/PafioResolve/Resolver.cpp, `ResolveNode`: the recursion ends. Each call that goes on adds a
-- node with a new package name, so where the names of the packages that can be loaded lie in a
-- list, one call more than it has entries is never made.
use spio.Prelude.{
  ℕ, zero, suc, ◌+◌, ◌≤◌, Bytes, contains, true, Option, none, some, List, [], ◌∷◌, ok, or_throw,
  ◌≡◌, ◌≢◌, ◌∙◌, refl, arith, All, length, length-append,
}
use spio.Prelude.Distinct.{length-le_of_IsDistinct}
use spio.Prelude.Indexed.{length-map}
use spio.Prelude.Action.{
  Outcome, returned, threw, cut_off, Action, give, ask, modify, >>=-ne-cut_off, from_result,
  attempt, from_result-eq-returned,
}
use spio.Prelude.Finishes.{
  Finishes, >>=-Finishes, give-Finishes, from_result-Finishes, attempt-Finishes,
}
use spio.Manifest.{Dependency, PackageConfig}
use spio.Resolve.Machine.{Machine}
use spio.Resolve.Origin.{
  SourceOrigin, build_lock_id, build_source_fingerprint, collect_dependencies,
}
use spio.Resolve.Git.Finishes.{MachineFinishes}
use spio.Resolve.Select.{Setup, manifest_at}
use spio.Resolve.Node.{
  Node, Progress, on_world, place, find, add_node, node_at, no_package, select_dependency,
  resolve_dependency, resolve_dependencies, visit_named, visit_source, resolve_node,
}
use spio.Resolve.Node.Invariant.{Inv, IsNode, names, IsDistinct-of_Indexes, add_node-Inv}
use spio.Resolve.Node.Grows.{
  Extends, node_at-eq-returned, on_world-eq-returned, attempt-eq-returned,
}
use spio.Resolve.Node.Sound.{Resolves, Loads, resolve_node-Resolves, resolve_dependency-Edge}
use spio.Resolve.Node.Finishes.{select_dependency-Finishes}

on_world-Finishes : {S A : Type 0} (step : Action S A) → Finishes step → Finishes (on_world step)
on_world-Finishes step h = record { at = λ r. go r (step r.world) (h.at r.world) }
  where
    go : {S A : Type 0} (r : Progress S) (o : Outcome S A) → o ≢ cut_off → place r o ≢ cut_off
    go r (returned a s) h = λ q. cc
    go r (threw e s) h = λ q. cc
    go r cut_off h = λ q. h refl

pub node_at-Finishes : {S : Type 0} (i : ℕ) → Finishes {S = Progress S} (node_at i)
unfolding node_at
node_at-Finishes i = attempt-Finishes _

-- The package's name is in the list.
abbrev pub IsNamed : List Bytes → PackageConfig → Type 0
IsNamed universe config = contains config.name universe ≡ true

-- There is fuel for each name that is not yet a node's.
abbrev pub Enough : {S : Type 0} → List Bytes → ℕ → Progress S → Type 0
Enough universe fuel r = length universe + 1 ≤ length r.nodes + fuel

pub length-Extends : (a b : List Node) → Extends a b → length a ≤ length b
length-Extends a b x = rw x.same (omega (arith, length-append a x.more))

All-names :
    (machine : Machine) (universe : List Bytes) (ns : List Node)
    → All (IsNode machine (IsNamed universe)) ns
    → All (λ k. contains k universe ≡ true) (names ns)
All-names machine universe [] h = tt
All-names machine universe (n ∷ ns) h = (h.0.good, All-names machine universe ns h.1)

module _ (machine : Machine) (m : MachineFinishes machine) (setup : Setup)
    (universe : List Bytes) where
  open machine use {State, parent_path}

  abbrev Inv' : Progress State → Type 0
  Inv' r = Inv machine (IsNamed universe) r

  names_fit : (r : Progress State) → Inv' r → length r.nodes ≤ length universe
  names_fit r v = omega (
    arith,
    length-map (λ n. n.config.name) r.nodes,
    length-le_of_IsDistinct (names r.nodes) universe
        (IsDistinct-of_Indexes (names r.nodes) r.node_by_package_name v.name)
        (All-names machine universe r.nodes v.all),
  )

  -- With enough fuel the call is not cut off.
  abbrev pub Ends : ℕ → (Bytes → SourceOrigin → Action (Progress State) ℕ) → Type 0
  Ends fuel f =
      (path : Bytes) (origin : SourceOrigin) (r : Progress State)
      → Inv' r
      → Enough universe fuel r
      → f path origin r ≢ cut_off

  module _ (f : Bytes → SourceOrigin → Action (Progress State) ℕ) (fuel : ℕ) (ends : Ends fuel f)
      (resolves : Resolves machine setup (IsNamed universe) f) where
    resolve_dependency-ne-cut_off :
        (i : ℕ) (node : Node) (d : Dependency) (r : Progress State)
        → Inv' r
        → Enough universe fuel r
        → resolve_dependency machine setup f i node d r ≢ cut_off
    unfolding resolve_dependency
    resolve_dependency-ne-cut_off i node d r v e =
        >>=-ne-cut_off (node_at i) _ r ((node_at-Finishes i).at r) λ parent r1 a1.
          let selection = select_dependency machine setup d.source_kind parent d in
          >>=-ne-cut_off (on_world selection) _ r1
            ((on_world-Finishes selection
                (select_dependency-Finishes machine m setup d.source_kind parent d)).at
              r1)
            λ selected r2 a2.
              >>=-ne-cut_off (f selected.manifest_path selected.origin) _ r2
                (at_world r r1 r2 (node_at-eq-returned i r a1).1
                  (on_world-eq-returned selection r1 a2)
                  (λ u. f selected.manifest_path selected.origin u ≢ cut_off)
                  (λ s. ends selected.manifest_path selected.origin (record r { world = s }) v e))
                λ j r3 a3.
                  (>>=-Finishes (node_at-Finishes j) (λ found.
                      >>=-Finishes (from_result-Finishes _)
                        λ _. >>=-Finishes (from_result-Finishes _) λ _. give-Finishes _)).at
                    r3
      where
        at_world :
            (r r1 r2 : Progress State)
            → r ≡ r1
            → (s : State) × (record r1 { world = s } ≡ r2)
            → (Q : Progress State → Type 0) → ((s : State) → Q (record r { world = s }))
            → Q r2
        at_world r r1 r2 e1 (s, e2) Q q = rw (← e2, ← e1) (q s)

    resolve_dependencies-ne-cut_off :
        (i : ℕ) (node : Node) (ds : List Dependency) (r : Progress State)
        → Inv' r
        → Enough universe fuel r
        → resolve_dependencies machine setup f i node ds r ≢ cut_off
    unfolding resolve_dependencies give
    resolve_dependencies-ne-cut_off i node [] r v e = λ q. cc
    resolve_dependencies-ne-cut_off i node (d ∷ ds) r v e =
        >>=-ne-cut_off (resolve_dependency machine setup f i node d) _ r
          (resolve_dependency-ne-cut_off i node d r v e)
          λ a r1 a1.
            let (v1, x, _, _) =
              resolve_dependency-Edge machine setup (IsNamed universe) f resolves i node d r v a1 in
            >>=-ne-cut_off (resolve_dependencies machine setup f i node ds) _ r1
              (resolve_dependencies-ne-cut_off i node ds r1 v1
                (omega (arith, e, length-Extends r.nodes r1.nodes x)))
              λ more r2 a2. (give-Finishes _).at r2

    visit_named-ne-cut_off :
        (node : Node) (existing : Option ℕ) (r : Progress State)
        → Inv' r
        → IsNode machine (IsNamed universe) node
        → Enough universe (suc fuel) r
        → find node.source_fingerprint r.node_by_source_fingerprint ≡ none
        → find node.config.name r.node_by_package_name ≡ existing
        → visit_named machine setup f node existing r ≢ cut_off
    unfolding visit_named add_node ask modify give
    visit_named-ne-cut_off node (some i) r v n e q1 q2 =
        (>>=-Finishes (node_at-Finishes i) (λ other.
            >>=-Finishes (from_result-Finishes _)
              λ _. >>=-Finishes (from_result-Finishes _) λ _. give-Finishes _)).at
          r
    visit_named-ne-cut_off node none r v n e q1 q2 =
        >>=-ne-cut_off
          (resolve_dependencies machine setup f (length r.nodes) node
            (collect_dependencies node.config))
          _ (add_node node r)
          (resolve_dependencies-ne-cut_off (length r.nodes) node (collect_dependencies node.config)
            (add_node node r) (add_node-Inv machine (IsNamed universe) node r v n q1 q2)
            (omega (arith, e, length-append r.nodes (node ∷ []))))
          λ aliases r2 a2. λ q. cc

    visit_source-ne-cut_off :
        Loads machine setup (IsNamed universe)
        → (path : Bytes) (origin : SourceOrigin) (fingerprint : Bytes) (existing : Option ℕ)
          (r : Progress State)
        → Inv' r
        → Enough universe (suc fuel) r
        → build_source_fingerprint machine origin (parent_path path) ≡ ok fingerprint
        → find fingerprint r.node_by_source_fingerprint ≡ existing
        → visit_source machine setup f path origin fingerprint existing r ≢ cut_off
    unfolding visit_source give ask
    visit_source-ne-cut_off loads path origin fingerprint (some j) r v e q1 q2 = λ q. cc
    visit_source-ne-cut_off loads path origin fingerprint none r v e q1 q2 =
        let look = attempt (λ r. manifest_at machine setup path r.world) in
        >>=-ne-cut_off look _ r ((attempt-Finishes _).at r) λ document r1 a1.
          let (loaded, e1) =
            attempt-eq-returned (λ r. manifest_at machine setup path r.world) r a1 in
          let wanted = or_throw document.package_config (no_package origin.kind) in
          >>=-ne-cut_off (from_result wanted) _ r1 ((from_result-Finishes wanted).at r1)
            λ config r2 a2.
              let (has, e2) = from_result-eq-returned wanted r1 a2 in
              >>=-ne-cut_off (from_result (build_lock_id origin config)) _ r2
                ((from_result-Finishes (build_lock_id origin config)).at r2)
                λ id r3 a3.
                  let (made, e3) = from_result-eq-returned (build_lock_id origin config) r2 a3 in
                  rw (← (e1 ∙ e2 ∙ e3)) (
                    visit_named-ne-cut_off _ _ r v
                      (record {
                        dir = refl;
                        id = made;
                        fingerprint = q1;
                        good = loads path r.world document config loaded (ground arith);
                      })
                      e q2 refl)

  pub resolve_node-Ends :
      Loads machine setup (IsNamed universe)
      → (fuel : ℕ) → Ends fuel (resolve_node machine setup fuel)
  unfolding resolve_node ask
  resolve_node-Ends loads zero path origin r v e = absurd (omega (arith, e, names_fit r v))
  resolve_node-Ends loads (suc fuel) path origin r v e =
      let normalized : Bytes = machine.canonical path in
      let made = build_source_fingerprint machine origin (parent_path normalized) in
      >>=-ne-cut_off (from_result made) _ r ((from_result-Finishes made).at r) λ fingerprint r1 a1.
        let (q, e1) = from_result-eq-returned made r a1 in
        rw (← e1) (
          visit_source-ne-cut_off (resolve_node machine setup fuel) fuel
            (resolve_node-Ends loads fuel)
            (resolve_node-Resolves machine setup (IsNamed universe) loads fuel) loads normalized
            origin fingerprint _ r v e q refl)
