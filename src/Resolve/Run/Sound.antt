-- ===== src/Resolve/Run/Sound.antt =====
-- src/PafioResolve/Resolver.cpp, `ResolveGraph`: the graph that the resolver returns.
use spio.Prelude.{
  ℕ, zero, suc, Bytes, Bool, text_eq, text_eq_iff, text_eq_refl, contains, true, false, Bool-cases,
  List, [], ◌∷◌, map, some, ◌≡◌, ◌∙◌, inl, inr, refl, ap, arith, All, All-get_elem?, get_elem?,
}
use spio.Prelude.Sort.{sort_by, IsStrict, contains-sort_by, sort_by-IsSorted, All-sort_by}
use spio.Prelude.Sorted.{IsDistinct-map-sort_by, IsStrict-of_IsSorted}
use spio.Prelude.Distinct.{IsDistinct}
use spio.Prelude.Indexed.{
  get_elem?-map, All-of_get_elem?, contains-get_elem?, IsDistinct-of_map, places-of_IsDistinct,
}
use spio.Manifest.{PackageConfig}
use spio.Manifest.Load.Form.{IsPackage}
use spio.Resolve.{ResolvedPackage}
use spio.Resolve.Machine.{Machine}
use spio.Resolve.Origin.{collect_dependencies}
use spio.Resolve.Origin.Ids.{id_name, id_name-build_lock_id}
use spio.Resolve.Node.{Node, Progress}
use spio.Resolve.Node.Invariant.{keys, names, Edge, IsComplete, IsNode, Inv, IsDistinct-of_Indexes}
use spio.Resolve.Graph.{resolved_package, packages_of}

abbrev ids_of : List Node → List Bytes
ids_of nodes = map (λ n. n.id) nodes

-- A package of the graph: its manifest has the right form; its dependencies are ids of other
-- packages of the graph, in ascending order, each once; and it has one alias for each dependency
-- that the manifest declares, behind which stand the same ids.
pub record IsLinked (is_absolute : Bytes → Bool) (ids : List Bytes) (p : ResolvedPackage)
    : Type 0 where
  pub well_formed : IsPackage is_absolute p.config
  pub strict : IsStrict p.dependencies
  pub closed : All (λ d. contains d ids ≡ true) p.dependencies
  pub not_self : contains p.id p.dependencies ≡ false
  pub aliases :
      map (λ a. a.alias) p.dependency_aliases ≡ map (λ d. d.alias) (collect_dependencies p.config)
  pub same_ids :
      (k : Bytes)
      → contains k p.dependencies ≡ contains k (map (λ a. a.package_id) p.dependency_aliases)

map-id_name :
    (machine : Machine) (ns : List Node)
    → All (IsNode machine (IsPackage machine.is_absolute)) ns
    → map id_name (ids_of ns) ≡ names ns
map-id_name machine [] h = refl
map-id_name machine (n ∷ ns) h =
    rw (id_name-build_lock_id n.origin n.config h.0.good.name h.0.id, map-id_name machine ns h.1)
      refl

All-zip {ℓ κ} :
    {A : Type ℓ} (P Q : A → Type κ) (xs : List A) → All P xs → All Q xs → All (λ x. P x × Q x) xs
All-zip P Q [] h k = tt
All-zip P Q (x ∷ xs) h k = ((h.0, k.0), All-zip P Q xs h.1 k.1)

All-map-of {ℓ κ} :
    {A B : Type ℓ} (P : B → Type κ) (f : A → B) (xs : List A)
    → All (λ x. P (f x)) xs
    → All P (map f xs)
All-map-of P f [] h = tt
All-map-of P f (x ∷ xs) h = (h.0, All-map-of P f xs h.1)

map-map-of {ℓ} :
    {A B C : Type ℓ} (g : B → C) (f : A → B) (xs : List A)
    → map g (map f xs) ≡ map (λ x. g (f x)) xs
map-map-of g f [] = refl
map-map-of g f (x ∷ xs) = ap (◌∷◌ (g (f x))) (map-map-of g f xs)

key_at :
    (ns : List Node) (j : ℕ) {id fingerprint : Bytes}
    → get_elem? (keys ns) j ≡ some (id, fingerprint)
    → (n : Node) × (get_elem? ns j ≡ some n) × (n.id ≡ id) × (n.source_fingerprint ≡ fingerprint)
key_at [] j h = cc
key_at (n ∷ ns) zero h = let e = some_injective h in (n, refl, ap (λ p. p.0) e, ap (λ p. p.1) e)
  where
    some_injective : {a b : Bytes × Bytes} → some a ≡ some b → a ≡ b
    some_injective e = cc
key_at (n ∷ ns) (suc j) h = key_at ns j h

module _ (machine : Machine) where
  open machine use {is_absolute}

  abbrev pub WellFormed : PackageConfig → Type 0
  WellFormed config = IsPackage is_absolute config

  ids-IsDistinct :
      {S : Type 0} (r : Progress S) → Inv machine WellFormed r → IsDistinct (ids_of r.nodes)
  ids-IsDistinct r v = IsDistinct-of_map id_name (ids_of r.nodes) (
      rw (map-id_name machine r.nodes v.all)
        (IsDistinct-of_Indexes (names r.nodes) r.node_by_package_name v.name))

  -- An edge leads to another node.
  Edge-leaves :
      {S : Type 0} (r : Progress S) (i : ℕ) (n : Node)
      → Inv machine WellFormed r
      → get_elem? r.nodes i ≡ some n
      → (d : Bytes) → Edge (keys r.nodes) n.source_fingerprint d
      → text_eq d n.id ≡ false
  Edge-leaves r i n v at d e = elim (Bool-cases (text_eq d n.id)) [
    | inl same ↦
        let (other, found, named, printed) = key_at r.nodes e.index e.at in
        let here : get_elem? (ids_of r.nodes) i ≡ some n.id =
          get_elem?-map (λ n. n.id) r.nodes i at in
        let there : get_elem? (ids_of r.nodes) e.index ≡ some n.id =
          rw (← ((text_eq_iff d n.id).0 same), ← named)
            (get_elem?-map (λ n. n.id) r.nodes e.index found) in
        let place : i ≡ e.index =
          places-of_IsDistinct (ids_of r.nodes) i e.index n.id (ids-IsDistinct r v) here there in
        let one : other ≡ n = one_node r.nodes i e.index place found at in
        absurd (
          ground
            (arith, e.apart, text_eq_refl e.other, printed, ap (λ n. n.source_fingerprint) one))
    | inr differs ↦ differs
  ]
    where
      one_node :
          (ns : List Node) (i j : ℕ) {a b : Node}
          → i ≡ j
          → get_elem? ns j ≡ some a
          → get_elem? ns i ≡ some b
          → a ≡ b
      one_node ns i j e h k = cc

  pub ids_of_packages :
      (ns : List Node) (k : Bytes)
      → contains k (map (λ p. p.id) (packages_of ns)) ≡ contains k (ids_of ns)
  unfolding packages_of resolved_package
  ids_of_packages ns k =
      contains-sort_by (λ p. p.id) k (map resolved_package ns)
      ∙ ap (contains k) (map-map-of (λ p. p.id) resolved_package ns)

  Edge-closed :
      (ns : List Node) (f d : Bytes)
      → Edge (keys ns) f d
      → contains d (map (λ p. p.id) (packages_of ns)) ≡ true
  Edge-closed ns f d e =
      let (other, found, named, _) = key_at ns e.index e.at in
      ids_of_packages ns d
      ∙ contains-get_elem? d (ids_of ns) e.index
          (rw (← named) (get_elem?-map (λ n. n.id) ns e.index found))

  not_in : (k : Bytes) (xs : List Bytes) → All (λ d. text_eq d k ≡ false) xs → contains k xs ≡ false
  unfolding contains
  not_in k [] h = refl
  not_in k (x ∷ xs) h = ground (arith, h.0, not_in k xs h.1)

  All-imp {ℓ κ} :
      {A : Type 0} (P : A → Type ℓ) (Q : A → Type κ) (xs : List A)
      → ((x : A) → P x → Q x)
      → All P xs
      → All Q xs
  All-imp P Q [] f h = tt
  All-imp P Q (x ∷ xs) f h = (f x h.0, All-imp P Q xs f h.1)

  node-IsLinked :
      {S : Type 0} (r : Progress S) (i : ℕ) (n : Node)
      → Inv machine WellFormed r
      → get_elem? r.nodes i ≡ some n
      → IsComplete (keys r.nodes) n
      → IsLinked is_absolute (map (λ p. p.id) (packages_of r.nodes)) (resolved_package n)
  unfolding resolved_package
  node-IsLinked r i n v at c = record {
    well_formed = (All-get_elem? (IsNode machine WellFormed) r.nodes i v.all at).good;
    strict = c.strict;
    closed =
        All-imp (Edge (keys r.nodes) n.source_fingerprint) _ n.dependencies
          (Edge-closed r.nodes n.source_fingerprint) c.edges;
    not_self = not_in n.id n.dependencies (
        All-imp (Edge (keys r.nodes) n.source_fingerprint) _ n.dependencies (Edge-leaves r i n v at)
          c.edges);
    aliases = c.aliases;
    same_ids = c.same_ids;
  }

  -- the packages of a resolver that is done
  pub packages-IsLinked :
      {S : Type 0} (r : Progress S)
      → Inv machine WellFormed r
      → All (IsComplete (keys r.nodes)) r.nodes
      → IsStrict (map (λ p. p.id) (packages_of r.nodes))
        × IsDistinct (map (λ p. p.config.name) (packages_of r.nodes))
        × All (IsLinked is_absolute (map (λ p. p.id) (packages_of r.nodes))) (packages_of r.nodes)
  unfolding packages_of resolved_package
  packages-IsLinked r v c =
      let packages : List ResolvedPackage = map resolved_package r.nodes in
      let linked = IsLinked is_absolute (map (λ p. p.id) (packages_of r.nodes)) in
      (
        IsStrict-of_IsSorted (λ p. p.id) (sort_by (λ p. p.id) packages)
            (sort_by-IsSorted (λ p. p.id) packages)
            (IsDistinct-map-sort_by (λ p. p.id) (λ p. p.id) packages
              (rw (map-map-of (λ p. p.id) resolved_package r.nodes) (ids-distinct r v))),
        IsDistinct-map-sort_by (λ p. p.id) (λ p. p.config.name) packages
            (rw (map-map-of (λ p. p.config.name) resolved_package r.nodes) (names-distinct r v)),
        All-sort_by (λ p. p.id) linked packages
            (All-map-of linked resolved_package r.nodes (
              All-of_get_elem? (λ n. linked (resolved_package n)) r.nodes
                (λ i n at.
                  node-IsLinked r i n v at
                    (All-get_elem? (IsComplete (keys r.nodes)) r.nodes i c at)))),
      )
    where
      ids-distinct :
          {S : Type 0} (r : Progress S)
          → Inv machine WellFormed r
          → IsDistinct (map (λ n. (resolved_package n).id) r.nodes)
      ids-distinct r v = ids-IsDistinct r v

      names-distinct :
          {S : Type 0} (r : Progress S)
          → Inv machine WellFormed r
          → IsDistinct (map (λ n. (resolved_package n).config.name) r.nodes)
      names-distinct r v = IsDistinct-of_Indexes (names r.nodes) r.node_by_package_name v.name
