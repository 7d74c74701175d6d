-- ===== src/Resolve/Node/Invariant.antt =====
-- src/PafioResolve/Resolver.cpp, `ResolveNode`: what the nodes and the two maps satisfy.
use spio.Prelude.{
  ℕ, Bytes, text_eq, text_eq_iff, false, Bool-cases, none, some, List, [], ◌∷◌, ◌++◌, map, ok, ◌≡◌,
  ◌↔◌, inl, inr, refl, sym, arith, All, All-append, length, get_elem?, contains,
}
use spio.Prelude.Sort.{IsStrict}
use spio.Prelude.Distinct.{IsDistinct}
use spio.Prelude.Indexed.{
  get_elem?-append, get_elem?-length, get_elem?-concat, map-++, length-map, IsDistinct-of_places,
  map-update_at, All-update_at,
}
use spio.Manifest.{PackageConfig}
use spio.Resolve.{ResolvedDependencyAlias}
use spio.Resolve.Machine.{Machine}
use spio.Resolve.Origin.{build_lock_id, build_source_fingerprint, collect_dependencies}
use spio.Resolve.Node.{Node, Progress, find, add_node, put_dependencies, with_dependencies}

abbrev pub fingerprints : List Node → List Bytes
fingerprints nodes = map (λ n. n.source_fingerprint) nodes

abbrev pub names : List Node → List Bytes
names nodes = map (λ n. n.config.name) nodes

abbrev pub keys : List Node → List (Bytes × Bytes)
keys nodes = map (λ n. (n.id, n.source_fingerprint)) nodes

-- The map has a key exactly with the index where it stands in the list.
abbrev pub Indexes : List Bytes → List (Bytes × ℕ) → Type 0
Indexes ks table = (k : Bytes) (i : ℕ) → (find k table ≡ some i) ↔ (get_elem? ks i ≡ some k)

pub Indexes-nil : Indexes [] []
unfolding find
Indexes-nil k i = (λ e. cc, λ e. cc)

-- A key that is not in the map is entered.
pub Indexes-concat :
    (ks : List Bytes) (table : List (Bytes × ℕ)) (k : Bytes) (n : ℕ)
    → Indexes ks table
    → find k table ≡ none
    → n ≡ length ks
    → Indexes (ks ++ k ∷ []) ((k, n) ∷ table)
unfolding find
Indexes-concat ks table k n h new size j i = (forth, back)
  where
    forth : find j ((k, n) ∷ table) ≡ some i → get_elem? (ks ++ k ∷ []) i ≡ some j
    forth e = elim (Bool-cases (text_eq k j)) [
      | inl same ↦
          let at : n ≡ i = ground (arith, same, e) in
          rw (← at, size, ← ((text_eq_iff k j).0 same)) (get_elem?-length ks k)
      | inr other ↦ get_elem?-append ks (k ∷ []) i ((h j i).0 (ground (arith, other, e)))
    ]

    back : get_elem? (ks ++ k ∷ []) i ≡ some j → find j ((k, n) ∷ table) ≡ some i
    back e = elim (get_elem?-concat ks k i e) [
      | inl old ↦ ground (arith, (h j i).1 old, text_eq_iff k j, new)
      | inr (at, same) ↦ ground (arith, at, same, size, text_eq_iff k j)
    ]

-- Keys that are all indexed stand at one place each.
pub IsDistinct-of_Indexes :
    (ks : List Bytes) (table : List (Bytes × ℕ)) → Indexes ks table → IsDistinct ks
IsDistinct-of_Indexes ks table h =
    IsDistinct-of_places ks (λ i j k a b. ground (arith, (h k i).1 a, (h k j).1 b))

-- `id` is the id of a node with another fingerprint.
pub record Edge (ks : List (Bytes × Bytes)) (fingerprint : Bytes) (id : Bytes) : Type 0 where
  pub index : ℕ
  pub other : Bytes
  pub at : get_elem? ks index ≡ some (id, other)
  pub apart : text_eq other fingerprint ≡ false

-- The dependencies of a node are resolved: one alias for each that the manifest declares, in the
-- order of the aliases, and the ids behind them, all of other nodes.
pub record IsComplete (ks : List (Bytes × Bytes)) (n : Node) : Type 0 where
  pub aliases :
      map (λ a. a.alias) n.dependency_aliases ≡ map (λ d. d.alias) (collect_dependencies n.config)
  pub strict : IsStrict n.dependencies
  pub same_ids :
      (k : Bytes)
      → contains k n.dependencies ≡ contains k (map (λ a. a.package_id) n.dependency_aliases)
  pub edges : All (Edge ks n.source_fingerprint) n.dependencies

module _ (machine : Machine) (P : PackageConfig → Type 0) where
  open machine use {parent_path}

  -- A node carries the texts of its origin and package, and its package is as manifests allow.
  pub record IsNode (n : Node) : Type 0 where
    pub dir : n.package_dir ≡ parent_path n.manifest_path
    pub id : build_lock_id n.origin n.config ≡ ok n.id
    pub fingerprint :
        build_source_fingerprint machine n.origin n.package_dir ≡ ok n.source_fingerprint
    pub good : P n.config

  pub record IsIndexed (nodes : List Node) (by_fingerprint by_name : List (Bytes × ℕ))
      : Type 0 where
    pub fingerprint : Indexes (fingerprints nodes) by_fingerprint
    pub name : Indexes (names nodes) by_name
    pub all : All IsNode nodes

  abbrev pub Inv : {S : Type 0} → Progress S → Type 0
  Inv r = IsIndexed r.nodes r.node_by_source_fingerprint r.node_by_package_name

  pub add_node-Inv :
      {S : Type 0} (node : Node) (r : Progress S)
      → Inv r
      → IsNode node
      → find node.source_fingerprint r.node_by_source_fingerprint ≡ none
      → find node.config.name r.node_by_package_name ≡ none
      → Inv (add_node node r)
  unfolding add_node
  add_node-Inv node r v n f g = record {
    fingerprint = rw (map-++ (λ n. n.source_fingerprint) r.nodes (node ∷ [])) (
        Indexes-concat (fingerprints r.nodes) _ _ (length r.nodes) v.fingerprint f
          (sym (length-map (λ n. n.source_fingerprint) r.nodes)));
    name = rw (map-++ (λ n. n.config.name) r.nodes (node ∷ [])) (
        Indexes-concat (names r.nodes) _ _ (length r.nodes) v.name g
          (sym (length-map (λ n. n.config.name) r.nodes)));
    all = All-append IsNode r.nodes (node ∷ []) v.all (n, tt);
  }

  pub put_dependencies-Inv :
      {S : Type 0} (i : ℕ) (aliases : List ResolvedDependencyAlias) (r : Progress S)
      → Inv r
      → Inv (put_dependencies i aliases r)
  unfolding put_dependencies
  put_dependencies-Inv i aliases r v = record {
    fingerprint =
        rw
          (map-update_at (λ n. n.source_fingerprint) (with_dependencies aliases) i r.nodes
            (λ n. refl))
          v.fingerprint;
    name =
        rw (map-update_at (λ n. n.config.name) (with_dependencies aliases) i r.nodes (λ n. refl))
          v.name;
    all =
        All-update_at IsNode (with_dependencies aliases) i r.nodes
          (λ n h. record { dir = h.dir; id = h.id; fingerprint = h.fingerprint; good = h.good })
          v.all;
  }
