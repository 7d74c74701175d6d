-- ===== src/Resolve/Node/Sound.antt =====
-- src/PafioResolve/Resolver.cpp, `ResolveNode`: every call keeps the invariant, and what it adds is
-- complete.
use spio.Prelude.{
  ℕ, zero, suc, Bytes, text_eq, Option, none, some, List, [], ◌∷◌, ◌++◌, map, ok, or_throw, require,
  throw_if, throw_if-eq-ok, resolution_error, ◌≡◌, ◌∙◌, refl, arith, All, length,
}
use spio.Prelude.Sort.{sort_by, sort_unique-IsStrict, contains-sort_unique}
use spio.Prelude.Sorted.{sort_by-of_same_keys, All-sort_unique}
use spio.Prelude.Indexed.{get_elem?-map, update_at, update_at-append, map-update_at}
use spio.Prelude.Action.{
  returned, Action, ◌>>=◌, ◌>>◌, give, ask, modify, >>=-eq-returned, from_result, attempt,
  from_result-eq-returned, returned_injective, carry,
}
use spio.Manifest.{Dependency, PackageConfig, ManifestDocument}
use spio.Resolve.{ResolvedDependencyAlias}
use spio.Resolve.Machine.{Machine}
use spio.Resolve.Origin.{
  SourceOrigin, build_lock_id, build_source_fingerprint, collect_dependencies,
}
use spio.Resolve.Select.{Setup, manifest_at}
use spio.Resolve.Node.{
  Node, Progress, on_world, find, add_node, put_dependencies, with_dependencies, node_at,
  expects_other, no_package, select_dependency, resolve_dependency, resolve_dependencies,
  visit_named, visit_source, resolve_node,
}
use spio.Resolve.Node.Invariant.{
  keys, Edge, IsComplete, IsNode, Inv, add_node-Inv, put_dependencies-Inv,
}
use spio.Resolve.Node.Grows.{
  Extends, Edge-Extends, Extends-refl, Extends-trans, attempt-eq-returned, node_at-eq-returned,
  on_world-eq-returned,
}

module _ (machine : Machine) (setup : Setup) (P : PackageConfig → Type 0) where
  open machine use {State, parent_path}

  -- The call keeps the invariant and only adds complete nodes.
  abbrev pub Resolves : (Bytes → SourceOrigin → Action (Progress State) ℕ) → Type 0
  Resolves f =
      (path : Bytes) (origin : SourceOrigin) (r : Progress State) (i : ℕ) (t : Progress State)
      → Inv machine P r
      → f path origin r ≡ returned i t
      → Inv machine P t × Extends r.nodes t.nodes

  -- Manifests that are loaded have packages under P.
  abbrev pub Loads : Type 0
  Loads =
      (path : Bytes) (s : State) (m : ManifestDocument) (config : PackageConfig)
      → manifest_at machine setup path s ≡ ok m
      → m.package_config ≡ some config
      → P config

  module _ (f : Bytes → SourceOrigin → Action (Progress State) ℕ) (resolves : Resolves f) where
    -- What one pass of the loop gives.
    abbrev pub HasEdge :
        Node → Dependency → Progress State → ResolvedDependencyAlias → Progress State → Type 0
    HasEdge node d r a t =
        Inv machine P t
        × Extends r.nodes t.nodes
        × (a.alias ≡ d.alias)
        × Edge (keys t.nodes) node.source_fingerprint a.package_id

    -- the checks on the node that was resolved
    found_lem :
        (j : ℕ) (node : Node) (d : Dependency) (r r1 : Progress State) {a : ResolvedDependencyAlias}
        {t : Progress State}
        → Inv machine P r1
        → Extends r.nodes r1.nodes
        → (node_at j >>= λ found.
              from_result
                (throw_if (expects_other d.package_name found.config.name) resolution_error)
              >> (from_result (
                    throw_if
                      (text_eq found.source_fingerprint node.source_fingerprint)
                      resolution_error)
                  >> give (record { alias = d.alias; package_id = found.id })))
            r1
          ≡ returned a t
        → HasEdge node d r a t
    unfolding give
    found_lem j node d r r1 {a} {t} v x h =
        let (found, r2, a2, h2) = >>=-eq-returned (node_at j) _ r1 h in
        let (at, e2) = node_at-eq-returned j r1 a2 in
        let expected = throw_if (expects_other d.package_name found.config.name) resolution_error in
        let (_, r3, a3, h3) = >>=-eq-returned (from_result expected) _ r2 h2 in
        let (_, e3) = from_result-eq-returned expected r2 a3 in
        let other =
          throw_if (text_eq found.source_fingerprint node.source_fingerprint) resolution_error in
        let (_, r4, a4, h4) = >>=-eq-returned (from_result other) _ r3 h3 in
        let (apart, e4) = from_result-eq-returned other r3 a4 in
        let (made, e5) = returned_injective h4 in
        carry (HasEdge node d r) made (e2 ∙ e3 ∙ e4 ∙ e5) (
          v,
          x,
          refl,
          record {
            index = j;
            other = found.source_fingerprint;
            at = get_elem?-map (λ n. (n.id, n.source_fingerprint)) r1.nodes j at;
            apart = throw_if-eq-ok _ resolution_error apart;
          },
        )

    pub resolve_dependency-Edge :
        (i : ℕ) (node : Node) (d : Dependency) (r : Progress State) {a : ResolvedDependencyAlias}
        {t : Progress State}
        → Inv machine P r
        → resolve_dependency machine setup f i node d r ≡ returned a t
        → HasEdge node d r a t
    unfolding resolve_dependency
    resolve_dependency-Edge i node d r v h =
        let (parent, r1, a1, h1) = >>=-eq-returned (node_at i) _ r h in
        let (_, e1) = node_at-eq-returned i r a1 in
        let selection = select_dependency machine setup d.source_kind parent d in
        let (selected, r2, a2, h2) = >>=-eq-returned (on_world selection) _ r1 h1 in
        let (s, e2) = on_world-eq-returned selection r1 a2 in
        let (j, r3, a3, h3) = >>=-eq-returned (f selected.manifest_path selected.origin) _ r2 h2 in
        let (v3, x) =
          resolves selected.manifest_path selected.origin r2 j r3
            (moved r r1 r2 s e1 e2 (Inv machine P) v (λ u. u)) a3 in
        found_lem j node d r r3 v3 (rw (same r r1 r2 s e1 e2) at x) h3
      where
        same :
            (r r1 r2 : Progress State) (s : State)
            → r ≡ r1
            → record r1 { world = s } ≡ r2
            → r2.nodes ≡ r.nodes
        same r r1 r2 s e1 e2 = rw (← e2, ← e1) refl

        moved :
            (r r1 r2 : Progress State) (s : State)
            → r ≡ r1
            → record r1 { world = s } ≡ r2
            → (Q : Progress State → Type 0) → Q r
            → (Q r → Q (record r { world = s }))
            → Q r2
        moved r r1 r2 s e1 e2 Q q f = rw (← e2, ← e1) (f q)

    abbrev HasEdges :
        Node
        → List Dependency
        → Progress State
        → List ResolvedDependencyAlias
        → Progress State
        → Type 0
    HasEdges node ds r aliases t =
        Inv machine P t
        × Extends r.nodes t.nodes
        × (map (λ a. a.alias) aliases ≡ map (λ d. d.alias) ds)
        × All (Edge (keys t.nodes) node.source_fingerprint) (map (λ a. a.package_id) aliases)

    resolve_dependencies-Edge :
        (i : ℕ) (node : Node) (ds : List Dependency) (r : Progress State)
        {aliases : List ResolvedDependencyAlias} {t : Progress State}
        → Inv machine P r
        → resolve_dependencies machine setup f i node ds r ≡ returned aliases t
        → HasEdges node ds r aliases t
    unfolding resolve_dependencies give
    resolve_dependencies-Edge i node [] r v h =
        let (made, e) = returned_injective h in rw (← e, ← made) (v, Extends-refl r.nodes, refl, tt)
    resolve_dependencies-Edge i node (d ∷ ds) r {aliases} {t} v h =
        let (a, r1, a1, h1) = >>=-eq-returned (resolve_dependency machine setup f i node d) _ r h in
        let (v1, x1, name, edge) = resolve_dependency-Edge i node d r v a1 in
        let (more, r2, a2, h2) =
          >>=-eq-returned (resolve_dependencies machine setup f i node ds) _ r1 h1 in
        let (v2, x2, names, edges) = resolve_dependencies-Edge i node ds r1 v1 a2 in
        let (made, e) = returned_injective h2 in
        let (edge', _) =
          Edge-Extends r1.nodes r2.nodes node.source_fingerprint (a.package_id ∷ []) x2
            (edge, tt) in
        carry (HasEdges node (d ∷ ds) r) made e
          (v2, Extends-trans r.nodes r1.nodes r2.nodes x1 x2, rw (name, names) refl, (edge', edges))

    -- What stands at the node's place when its dependencies are written back.
    completed :
        (node : Node) (aliases : List ResolvedDependencyAlias) (ks : List (Bytes × Bytes))
        → map (λ a. a.alias) aliases ≡ map (λ d. d.alias) (collect_dependencies node.config)
        → All (Edge ks node.source_fingerprint) (map (λ a. a.package_id) aliases)
        → IsComplete ks (with_dependencies aliases node)
    completed node aliases ks names edges =
        let sorted : sort_by (λ a. a.alias) aliases ≡ aliases =
          sort_by-of_same_keys (λ a. a.alias) (λ d. d.alias) aliases
            (node.config.dependencies ++ node.config.dev_dependencies)
            (unfold collect_dependencies in names) in
        record {
          aliases = rw sorted names;
          strict = sort_unique-IsStrict (map (λ a. a.package_id) aliases);
          same_ids = λ k. rw sorted (contains-sort_unique k (map (λ a. a.package_id) aliases));
          edges =
              All-sort_unique (Edge ks node.source_fingerprint) (map (λ a. a.package_id) aliases)
                edges;
        }

    IsComplete-same :
        {ks ms : List (Bytes × Bytes)}
        → ks ≡ ms
        → (ns : List Node) → All (IsComplete ms) ns
        → All (IsComplete ks) ns
    IsComplete-same e ns h = rw e h

    put_dependencies-Extends :
        (node : Node) (aliases : List ResolvedDependencyAlias) (r r2 : Progress State)
        → Extends (r.nodes ++ node ∷ []) r2.nodes
        → map (λ a. a.alias) aliases ≡ map (λ d. d.alias) (collect_dependencies node.config)
        → All (Edge (keys r2.nodes) node.source_fingerprint) (map (λ a. a.package_id) aliases)
        → Extends r.nodes (update_at (length r.nodes) (with_dependencies aliases) r2.nodes)
    put_dependencies-Extends node aliases r r2 x names edges =
        let unchanged : keys (update_at (length r.nodes) (with_dependencies aliases) r2.nodes)
            ≡ keys r2.nodes =
          map-update_at (λ n. (n.id, n.source_fingerprint)) (with_dependencies aliases)
            (length r.nodes) r2.nodes (λ n. refl) in
        record {
          more = with_dependencies aliases node ∷ x.more;
          same = rw x.same (update_at-append (with_dependencies aliases) r.nodes x.more node);
          complete =
              IsComplete-same unchanged (with_dependencies aliases node ∷ x.more)
                (completed node aliases (keys r2.nodes) names edges, x.complete);
        }

    visit_new_name :
        (node : Node) (r : Progress State) {i : ℕ} {t : Progress State}
        → Inv machine P r
        → IsNode machine P node
        → find node.source_fingerprint r.node_by_source_fingerprint ≡ none
        → find node.config.name r.node_by_package_name ≡ none
        → visit_named machine setup f node none r ≡ returned i t
        → Inv machine P t × Extends r.nodes t.nodes
    unfolding visit_named add_node put_dependencies give ask modify
    visit_new_name node r v n q1 q2 h =
        let (aliases, r2, a2, h2) =
          >>=-eq-returned
            (resolve_dependencies machine setup f (length r.nodes) node
              (collect_dependencies node.config))
            _ (add_node node r) h in
        let (v2, x, names, edges) =
          resolve_dependencies-Edge (length r.nodes) node (collect_dependencies node.config)
            (add_node node r) (add_node-Inv machine P node r v n q1 q2) a2 in
        let (_, e) = returned_injective h2 in
        rw (← e) (
          put_dependencies-Inv machine P (length r.nodes) aliases r2 v2,
          put_dependencies-Extends node aliases r r2 x names edges,
        )

    visit_named-Extends :
        (node : Node) (existing : Option ℕ) (r : Progress State) {i : ℕ} {t : Progress State}
        → Inv machine P r
        → IsNode machine P node
        → find node.source_fingerprint r.node_by_source_fingerprint ≡ none
        → find node.config.name r.node_by_package_name ≡ existing
        → visit_named machine setup f node existing r ≡ returned i t
        → Inv machine P t × Extends r.nodes t.nodes
    unfolding visit_named give
    visit_named-Extends node none r v n q1 q2 h = visit_new_name node r v n q1 q2 h
    visit_named-Extends node (some i) r v n q1 q2 h =
        let (other, r1, a1, h1) = >>=-eq-returned (node_at i) _ r h in
        let (_, e1) = node_at-eq-returned i r a1 in
        let version = require (text_eq other.config.version node.config.version) resolution_error in
        let (_, r2, a2, h2) = >>=-eq-returned (from_result version) _ r1 h1 in
        let (_, e2) = from_result-eq-returned version r1 a2 in
        let source =
          require (text_eq other.source_fingerprint node.source_fingerprint) resolution_error in
        let (_, r3, a3, h3) = >>=-eq-returned (from_result source) _ r2 h2 in
        let (_, e3) = from_result-eq-returned source r2 a3 in
        let (_, e4) = returned_injective h3 in rw (← (e1 ∙ e2 ∙ e3 ∙ e4)) (v, Extends-refl r.nodes)

    visit_source-Extends :
        Loads
        → (path : Bytes) (origin : SourceOrigin) (fingerprint : Bytes) (existing : Option ℕ)
          (r : Progress State) (i : ℕ) (t : Progress State)
        → Inv machine P r
        → build_source_fingerprint machine origin (parent_path path) ≡ ok fingerprint
        → find fingerprint r.node_by_source_fingerprint ≡ existing
        → visit_source machine setup f path origin fingerprint existing r ≡ returned i t
        → Inv machine P t × Extends r.nodes t.nodes
    unfolding visit_source give ask
    visit_source-Extends loads path origin fingerprint (some j) r i t v q1 q2 h =
        let (_, e) = returned_injective h in rw (← e) (v, Extends-refl r.nodes)
    visit_source-Extends loads path origin fingerprint none r i t v q1 q2 h =
        let (document, r1, a1, h1) =
          >>=-eq-returned (attempt (λ r. manifest_at machine setup path r.world)) _ r h in
        let (loaded, e1) = attempt-eq-returned (λ r. manifest_at machine setup path r.world) r a1 in
        let wanted = or_throw document.package_config (no_package origin.kind) in
        let (config, r2, a2, h2) = >>=-eq-returned (from_result wanted) _ r1 h1 in
        let (has, e2) = from_result-eq-returned wanted r1 a2 in
        let (id, r3, a3, h3) =
          >>=-eq-returned (from_result (build_lock_id origin config)) _ r2 h2 in
        let (made, e3) = from_result-eq-returned (build_lock_id origin config) r2 a3 in
        let h3' = rw (← (e1 ∙ e2 ∙ e3)) at h3 in
        visit_named-Extends _ _ r v
          (record {
            dir = refl;
            id = made;
            fingerprint = q1;
            good = loads path r.world document config loaded (ground arith);
          })
          q2 refl h3'

  -- The recursion, whatever its depth.
  pub resolve_node-Resolves : Loads → (fuel : ℕ) → Resolves (resolve_node machine setup fuel)
  unfolding resolve_node ask
  resolve_node-Resolves loads zero path origin r i t v h = cc
  resolve_node-Resolves loads (suc fuel) path origin r i t v h =
      let normalized : Bytes = machine.canonical path in
      let made = build_source_fingerprint machine origin (parent_path normalized) in
      let (fingerprint, r1, a1, h1) = >>=-eq-returned (from_result made) _ r h in
      let (q, e1) = from_result-eq-returned made r a1 in
      visit_source-Extends (resolve_node machine setup fuel) (resolve_node-Resolves loads fuel)
        loads normalized origin fingerprint _ r i t v q refl (rw (← e1) at h1)
