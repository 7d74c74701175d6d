-- ===== src/Tree/Forest.antt =====
-- src/PafioTree/Render.cpp: the text of a graph with no cycle is its trees, one behind the other.
use mathlib.Core.List.{append-nil}
use spio.Prelude.{
  ℕ, suc, ◌<◌, Bytes, text, contains, true, List, [], ◌∷◌, ◌++◌, Result, ok, length, ◌≡◌, ◌∙◌, refl,
  sym, ap, All,
}
use spio.Lockfile.{LockPackage}
use spio.Resolve.{LockGenerationResult}
use spio.Tree.{Drawing, write, render_node, render_roots, render_all, render_dependency_tree_text}
use spio.Tree.Total.{ids, start-Fits}
use spio.Tree.Outline.{outline, IsAcyclic, render_node-IsOutline, write-write}

unfoldable pub forest_behind : (Bytes → Bytes) → List Bytes → Bytes
forest_behind tree [] = []
forest_behind tree (k ∷ ks) = text "\n" ++ tree k ++ forest_behind tree ks

-- the trees of the roots, with an empty line between
unfoldable pub forest : (Bytes → Bytes) → List Bytes → Bytes
forest tree [] = []
forest tree (k ∷ ks) = tree k ++ forest_behind tree ks

module _ (render : Bytes → Drawing → Result Drawing) (tree : Bytes → Bytes) where
  abbrev IsTree : Bytes → Type 0
  IsTree k = (d : Drawing) → d.path_stack ≡ [] → render k d ≡ ok (write (tree k) d)

  render_roots-forest :
      (ks : List Bytes) (d : Drawing)
      → d.path_stack ≡ []
      → All IsTree ks
      → render_roots render ks d ≡ ok (write (forest_behind tree ks) d)
  unfolding render_roots forest_behind
  render_roots-forest [] d q u = ap (λ t. ok (record d { out = t })) (sym (append-nil d.out))
  render_roots-forest (k ∷ ks) d q u =
      let line : Drawing = write (text "\n") d in
      let rest : Bytes = forest_behind tree ks in
      rw (u.0 line q, render_roots-forest ks (write (tree k) line) q u.1)
        (ap ok (write-write (tree k) rest line ∙ write-write (text "\n") (tree k ++ rest) d))

  render_all-forest :
      (ks : List Bytes)
      → All IsTree ks
      → render_all render ks ≡ ok (record { path_stack = []; out = forest tree ks })
  unfolding render_all forest
  render_all-forest [] u = refl
  render_all-forest (k ∷ ks) u =
      let start : Drawing = record { path_stack = []; out = [] } in
      rw (u.0 start refl) (
        render_roots-forest ks (write (tree k) start) refl u.1
        ∙ ap ok (write-write (tree k) (forest_behind tree ks) start))

-- The text drawn of a graph with no cycle, whose dependencies and roots are all packages, is the
-- forest of its roots: no package is marked as missing or as a cycle. A depth above the ranks of
-- the roots is enough.
pub render_dependency_tree_text-forest :
    (graph : LockGenerationResult) (rank : Bytes → ℕ) (depth : ℕ)
    → IsAcyclic graph.lockfile.packages rank
    → All (λ k. (rank k < depth) × (contains k (ids graph.lockfile.packages) ≡ true)) graph.root_ids
    → render_dependency_tree_text graph
      ≡ ok (forest (λ k. outline depth graph.lockfile.packages k [] true true) graph.root_ids)
unfolding render_dependency_tree_text
render_dependency_tree_text-forest graph rank depth a roots =
    let packages : List LockPackage = graph.lockfile.packages in
    rw
      (render_all-forest (λ k. render_node (suc (length packages)) packages k [] true true)
        (λ k. outline depth packages k [] true true) graph.root_ids (trees graph.root_ids roots))
      refl
  where
    trees :
        (ks : List Bytes)
        → All (λ k. (rank k < depth) × (contains k (ids graph.lockfile.packages) ≡ true)) ks
        → All
            (IsTree
              (λ k.
                render_node
                  (suc (length graph.lockfile.packages))
                  graph.lockfile.packages
                  k
                  []
                  true
                  true)
              (λ k. outline depth graph.lockfile.packages k [] true true))
            ks
    trees [] known = tt
    trees (k ∷ ks) known = (
      λ d q.
          render_node-IsOutline graph.lockfile.packages rank a
            (suc (length graph.lockfile.packages)) depth k [] true true [] d q
            (start-Fits graph.lockfile.packages) known.0.0 known.0.1 tt,
      trees ks known.1,
    )
