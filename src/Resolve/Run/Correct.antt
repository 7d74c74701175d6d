-- ===== src/Resolve/Run/Correct.antt =====
-- src/PafioResolve/Resolver.cpp, `ResolveSingleVersionGraph`: what a resolved graph is.
use spio.Prelude.{
  ℕ, Bytes, Bool, contains, contains-append, true, List, [], ◌∷◌, map, Result, ◌≡◌, ◌∙◌, refl, sym,
  arith, All, All-of_contains, All-contains,
}
use spio.Prelude.Sort.{IsStrict, sort_unique-IsStrict}
use spio.Prelude.Sorted.{All-sort_unique}
use spio.Prelude.Distinct.{IsDistinct}
use spio.Prelude.Indexed.{get_elem?-map, contains-get_elem?, map-++}
use spio.Prelude.Action.{
  Outcome, returned, threw, cut_off, >>=-eq-returned, returned_injective, carry, give, ask,
  from_result, attempt,
}
use spio.Manifest.Load.Laws.{load_manifest-IsManifest}
use spio.Resolve.{ResolveOptions, ResolvedGraphResult}
use spio.Resolve.Machine.{Machine, load}
use spio.Resolve.Origin.{ManifestSelection}
use spio.Resolve.Git.{git_source_cache}
use spio.Resolve.Select.{Setup}
use spio.Resolve.Node.{Node, Progress, node_at, resolve_node}
use spio.Resolve.Node.Invariant.{keys, IsComplete, Inv}
use spio.Resolve.Node.Grows.{
  Extends, Extends-refl, Extends-trans, node_at-eq-returned, attempt-eq-returned,
}
use spio.Resolve.Node.Sound.{Loads, resolve_node-Resolves}
use spio.Resolve.Graph.{
  build_root_seeds, top_level_dirs, normalize_options, lock_package, packages_of, lockfile_of,
}
use spio.Resolve.Run.{
  no_nodes, forget_nodes, resolve_roots, resolve_graph, resolve_single_version_graph,
}
use spio.Resolve.Run.Total.{LoadsAll, Loads-of_LoadsAll, no_nodes-Inv}
use spio.Resolve.Run.Sound.{IsLinked, WellFormed, packages-IsLinked, ids_of_packages}

-- A resolved graph: its packages ascend by their ids, no two have one id or one name, each is
-- linked to packages of the graph, the roots are among them, and the lockfile lists them.
pub record IsGraph (is_absolute : Bytes → Bool) (g : ResolvedGraphResult) : Type 0 where
  pub ids : IsStrict (map (λ p. p.id) g.packages)
  pub names : IsDistinct (map (λ p. p.config.name) g.packages)
  pub linked : All (IsLinked is_absolute (map (λ p. p.id) g.packages)) g.packages
  pub roots : IsStrict g.root_ids
  pub rooted : All (λ k. contains k (map (λ p. p.id) g.packages) ≡ true) g.root_ids
  pub locked : g.lockfile.packages ≡ map lock_package g.packages

-- What is loaded is of the right form.
pub LoadsAll-WellFormed : (machine : Machine) → LoadsAll machine (WellFormed machine)
unfolding load
LoadsAll-WellFormed machine path s m config h e =
    let (_, p, _) =
      load_manifest-IsManifest machine.is_absolute machine.toml (machine.read_document path s) h in
    rw e at p

module _ (machine : Machine) (version : Bytes) (pafio_home : Result Bytes) where
  open machine use {State, canonical, is_absolute}

  module _ (setup : Setup) (loads : Loads machine setup (WellFormed machine)) (fuel : ℕ) where
    -- Each id is that of a node.
    abbrev HasRoots : Progress State → List Bytes → Progress State → Type 0
    HasRoots r ids t =
        Inv machine (WellFormed machine) t
        × Extends r.nodes t.nodes
        × All (λ k. contains k (map (λ n. n.id) t.nodes) ≡ true) ids

    contains-Extends :
        (old new : List Node) (k : Bytes)
        → Extends old new
        → contains k (map (λ n. n.id) old) ≡ true
        → contains k (map (λ n. n.id) new) ≡ true
    contains-Extends old new k x h =
        rw (x.same, map-++ (λ n. n.id) old x.more)
          (ground (arith, contains-append k (map (λ n. n.id) old) (map (λ n. n.id) x.more), h))

    resolve_roots-HasRoots :
        (seeds : List ManifestSelection) (r : Progress State) {ids : List Bytes}
        {t : Progress State}
        → Inv machine (WellFormed machine) r
        → resolve_roots machine version pafio_home setup fuel seeds r ≡ returned ids t
        → HasRoots r ids t
    unfolding resolve_roots give
    resolve_roots-HasRoots [] r v h =
        let (made, e) = returned_injective h in
        carry (HasRoots r) made e (v, Extends-refl r.nodes, tt)
    resolve_roots-HasRoots (seed ∷ seeds) r v h =
        let visit = resolve_node machine setup fuel seed.manifest_path seed.origin in
        let (i, r1, a1, h1) = >>=-eq-returned visit _ r h in
        let (v1, x1) =
          resolve_node-Resolves machine setup (WellFormed machine) loads fuel seed.manifest_path
            seed.origin r i r1 v a1 in
        let (node, r2, a2, h2) = >>=-eq-returned (node_at i) _ r1 h1 in
        let (at, e2) = node_at-eq-returned i r1 a2 in
        let rest = resolve_roots machine version pafio_home setup fuel seeds in
        let (ids, r3, a3, h3) = >>=-eq-returned rest _ r1 (rw (← e2) at h2) in
        let (v3, x3, listed) = resolve_roots-HasRoots seeds r1 v1 a3 in
        let (made, e3) = returned_injective h3 in
        carry (HasRoots r) made e3 (
          v3,
          Extends-trans r.nodes r1.nodes r3.nodes x1 x3,
          (
            contains-Extends r1.nodes r3.nodes node.id x3 (
                contains-get_elem? node.id (map (λ n. n.id) r1.nodes) i
                  (get_elem?-map (λ n. n.id) r1.nodes i at)),
            listed,
          ),
        )

    All-IsComplete : (ns : List Node) → Extends [] ns → All (IsComplete (keys ns)) ns
    All-IsComplete ns x = complete_of ns x.more x.same x.complete
      where
        complete_of :
            (ns more : List Node)
            → ns ≡ more
            → All (IsComplete (keys ns)) more
            → All (IsComplete (keys ns)) ns
        complete_of ns more e h = along (keys ns) (sym e) h
          where
            along :
                (ks : List (Bytes × Bytes)) {ms ns : List Node}
                → ms ≡ ns
                → All (IsComplete ks) ms
                → All (IsComplete ks) ns
            along ks e h = rw (← e) h

    resolve_graph-IsGraph :
        (seeds : List ManifestSelection) (s : State) {g : ResolvedGraphResult} {t : Progress State}
        → resolve_graph machine version pafio_home setup fuel seeds (no_nodes s) ≡ returned g t
        → IsGraph is_absolute g
    unfolding resolve_graph lockfile_of give ask
    resolve_graph-IsGraph seeds s h =
        let roots = resolve_roots machine version pafio_home setup fuel seeds in
        let (ids, r, a, h1) = >>=-eq-returned roots _ (no_nodes s) h in
        let (v, x, listed) =
          resolve_roots-HasRoots seeds (no_nodes s) (no_nodes-Inv machine (WellFormed machine) s)
            a in
        let (made, _) = returned_injective h1 in
        let (strict, distinct, linked) = packages-IsLinked machine r v (All-IsComplete r.nodes x) in
        rw (← made) record {
          ids = strict;
          names = distinct;
          linked = linked;
          roots = sort_unique-IsStrict ids;
          rooted =
              All-sort_unique (λ k. contains k (map (λ p. p.id) (packages_of r.nodes)) ≡ true) ids
                (All-of_contains _ ids
                  (λ k m. ids_of_packages machine r.nodes k ∙ All-contains _ k ids listed m));
          locked = refl;
        }

  forgotten :
      {S A : Type 0} (o : Outcome (Progress S) A) {a : A} {s : S}
      → forget_nodes o ≡ returned a s
      → (r : Progress S) × (o ≡ returned a r)
  forgotten (returned b r) h = (r, cc)
  forgotten (threw e r) h = cc
  forgotten cut_off h = cc

  -- Whenever the resolver returns, whatever the machine did, its graph is resolved: the packages
  -- ascend by their ids, and no two have one id or one name; each manifest has the right form; the
  -- dependencies of each package are ids of other packages of the graph, each once, with one alias
  -- for each dependency that the manifest declares; the root ids ascend and belong to packages; and
  -- the lockfile lists the packages.
  pub resolve_single_version_graph-IsGraph :
      (fuel : ℕ) (manifest_path : Bytes) (options : ResolveOptions) (s : State)
      {g : ResolvedGraphResult} {t : State}
      → resolve_single_version_graph machine version pafio_home fuel manifest_path options s
        ≡ returned g t
      → IsGraph is_absolute g
  unfolding resolve_single_version_graph ask
  resolve_single_version_graph-IsGraph fuel manifest_path options s h =
      let root : Bytes = canonical manifest_path in
      let (document, s1, a1, h1) = >>=-eq-returned (attempt (load machine root)) _ s h in
      let (loaded, _) = attempt-eq-returned (load machine root) s a1 in
      let (home, s2, a2, h2) = >>=-eq-returned (from_result pafio_home) _ s1 h1 in
      let normalized : ResolveOptions = normalize_options machine s1 root options in
      let (cache, s3, a3, h3) =
        >>=-eq-returned (git_source_cache machine home normalized.offline normalized.vendor_root) _
          s2 h2 in
      let (seeds, s4, a4, h4) =
        >>=-eq-returned
          (attempt λ s. build_root_seeds machine s root document.package_config document.workspace)
          _ s3 h3 in
      let setup : Setup = record {
        root_manifest_path = root;
        root_manifest = document;
        offline = normalized.offline;
        git_cache = cache;
        top_level_workspace_dirs = top_level_dirs machine seeds;
      } in
      let (r, e) =
        forgotten (resolve_graph machine version pafio_home setup fuel seeds (no_nodes s4)) h4 in
      resolve_graph-IsGraph setup
        (Loads-of_LoadsAll machine setup (WellFormed machine) s loaded
          (LoadsAll-WellFormed machine))
        fuel seeds s4 e
