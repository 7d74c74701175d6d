-- ===== src/Resolve/Run/Total.antt =====
-- src/PafioResolve/Resolver.cpp, `ResolveSingleVersionGraph`: the resolver ends.
use spio.Prelude.{
  ℕ, ◌+◌, ◌≤◌, Bytes, text_eq, Bool-cases, some, List, [], ◌∷◌, Result, ok, ◌≡◌, ◌≢◌, ◌∙◌, inl, inr,
  refl, arith, length,
}
use spio.Prelude.Action.{Outcome, returned, threw, cut_off, >>=-ne-cut_off, give, attempt}
use spio.Prelude.Finishes.{
  >>=-Finishes, give-Finishes, ask-Finishes, from_result-Finishes, attempt-Finishes,
}
use spio.Manifest.{PackageConfig, ManifestDocument}
use spio.Resolve.{ResolveOptions}
use spio.Resolve.Machine.{Machine, load}
use spio.Resolve.Origin.{ManifestSelection}
use spio.Resolve.Git.Finishes.{MachineFinishes, git_source_cache-Finishes}
use spio.Resolve.Select.{Setup, manifest_at}
use spio.Resolve.Node.{Progress, node_at, resolve_node}
use spio.Resolve.Node.Invariant.{Inv, Indexes-nil}
use spio.Resolve.Node.Grows.{node_at-eq-returned, attempt-eq-returned}
use spio.Resolve.Node.Sound.{Loads, resolve_node-Resolves}
use spio.Resolve.Node.Total.{IsNamed, Enough, resolve_node-Ends, length-Extends, node_at-Finishes}
use spio.Resolve.Run.{
  no_nodes, forget_nodes, resolve_roots, resolve_graph, resolve_single_version_graph,
}

-- All that is loaded has packages under P.
abbrev pub LoadsAll : Machine → (PackageConfig → Type 0) → Type 0
LoadsAll machine P =
    (path : Bytes) (s : machine.State) (m : ManifestDocument) (config : PackageConfig)
    → load machine path s ≡ ok m
    → m.package_config ≡ some config
    → P config

-- The root manifest, which is kept, was loaded as well.
pub Loads-of_LoadsAll :
    (machine : Machine) (setup : Setup) (P : PackageConfig → Type 0) (s : machine.State)
    → load machine setup.root_manifest_path s ≡ ok setup.root_manifest
    → LoadsAll machine P
    → Loads machine setup P
unfolding manifest_at
Loads-of_LoadsAll machine setup P s root loads path u m config h k =
    elim (Bool-cases (text_eq path setup.root_manifest_path)) [
      | inl e ↦ loads setup.root_manifest_path s m config (root ∙ (rw e at h)) k
      | inr e ↦ loads path u m config (rw e at h) k
    ]

pub no_nodes-Inv :
    (machine : Machine) (P : PackageConfig → Type 0) {S : Type 0} (s : S)
    → Inv machine P (no_nodes s)
no_nodes-Inv machine P s = record { fingerprint = Indexes-nil; name = Indexes-nil; all = tt }

forget_nodes-ne-cut_off :
    {S A : Type 0} (o : Outcome (Progress S) A) → o ≢ cut_off → forget_nodes o ≢ cut_off
forget_nodes-ne-cut_off (returned a r) h = λ q. cc
forget_nodes-ne-cut_off (threw e r) h = λ q. cc
forget_nodes-ne-cut_off cut_off h = λ q. h refl

module _ (machine : Machine) (m : MachineFinishes machine) (version : Bytes)
    (pafio_home : Result Bytes) (universe : List Bytes) where
  open machine use {State, canonical}

  module _ (setup : Setup) (loads : Loads machine setup (IsNamed universe)) (fuel : ℕ) where
    resolve_roots-ne-cut_off :
        (seeds : List ManifestSelection) (r : Progress State)
        → Inv machine (IsNamed universe) r
        → Enough universe fuel r
        → resolve_roots machine version pafio_home setup fuel seeds r ≢ cut_off
    unfolding resolve_roots give
    resolve_roots-ne-cut_off [] r v e = λ q. cc
    resolve_roots-ne-cut_off (seed ∷ seeds) r v e =
        let visit = resolve_node machine setup fuel seed.manifest_path seed.origin in
        >>=-ne-cut_off visit _ r
          (resolve_node-Ends machine m setup universe loads fuel seed.manifest_path seed.origin r v
            e)
          λ i r1 a1.
            let (v1, x) =
              resolve_node-Resolves machine setup (IsNamed universe) loads fuel seed.manifest_path
                seed.origin r i r1 v a1 in
            >>=-ne-cut_off (node_at i) _ r1 ((node_at-Finishes i).at r1) λ node r2 a2.
              let (_, e2) = node_at-eq-returned i r1 a2 in
              rw (← e2) (
                >>=-ne-cut_off (resolve_roots machine version pafio_home setup fuel seeds) _ r1
                  (resolve_roots-ne-cut_off seeds r1 v1
                    (omega (arith, e, length-Extends r.nodes r1.nodes x)))
                  λ ids r3 a3. (give-Finishes _).at r3)

    resolve_graph-ne-cut_off :
        (seeds : List ManifestSelection) (s : State)
        → length universe + 1 ≤ fuel
        → resolve_graph machine version pafio_home setup fuel seeds (no_nodes s) ≢ cut_off
    unfolding resolve_graph
    resolve_graph-ne-cut_off seeds s e =
        >>=-ne-cut_off (resolve_roots machine version pafio_home setup fuel seeds) _ (no_nodes s)
          (resolve_roots-ne-cut_off seeds (no_nodes s) (no_nodes-Inv machine (IsNamed universe) s)
            (omega (arith, e)))
          λ ids r a. (>>=-Finishes (ask-Finishes _) λ packages. give-Finishes _).at r

  -- Where each operation of the machine returns or throws, and the name of every package that can
  -- be loaded is in a list, a recursion of one more than the length of this list resolves the graph:
  -- it returns or throws an exception, and is not cut off.
  pub resolve_single_version_graph-ne-cut_off :
      LoadsAll machine (IsNamed universe)
      → (fuel : ℕ) → length universe + 1 ≤ fuel
      → (manifest_path : Bytes) (options : ResolveOptions) (s : State)
      → resolve_single_version_graph machine version pafio_home fuel manifest_path options s
        ≢ cut_off
  unfolding resolve_single_version_graph
  resolve_single_version_graph-ne-cut_off loads fuel enough manifest_path options s =
      let root : Bytes = canonical manifest_path in
      >>=-ne-cut_off (attempt (load machine root)) _ s ((attempt-Finishes _).at s) λ document s1 a1.
        (>>=-Finishes (ask-Finishes _) λ normalized. >>=-Finishes (from_result-Finishes _) λ home.
            >>=-Finishes (git_source_cache-Finishes machine m home normalized.offline _) λ cache.
              >>=-Finishes (attempt-Finishes _) λ seeds. record {
                at = λ s2. forget_nodes-ne-cut_off _ (
                    resolve_graph-ne-cut_off _
                      (Loads-of_LoadsAll machine _ (IsNamed universe) s
                        (attempt-eq-returned (load machine root) s a1).0 loads)
                      fuel seeds s2 enough);
              }).at
          s1
