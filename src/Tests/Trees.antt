-- ===== src/Tests/Trees.antt =====
-- Tests: dependency trees.
use spio.Prelude.{
  ℕ, ◌<◌, All, Bool-cases, inl, inr, Bytes, text, text_eq, text_eq_iff, contains, true, some, List,
  [], ◌∷◌, ok, if◌then◌else◌, ◌≡◌, refl, arith,
}
use spio.Lockfile.{LockPackage}
use spio.Resolve.{LockGenerationResult}
use spio.Tree.{
  render_dependency_tree_text, render_all, render_roots, render_node, render_found, draw_children,
  draw_child, find_lock_package, erase_id,
}
use spio.Tree.Total.{ids, render_dependency_tree_text-total}
use spio.Tree.Outline.{outline, IsAcyclic}
use spio.Tree.Forest.{forest, render_dependency_tree_text-forest}
use spio.Tests.Plans.{some_injective}
use spio.Tests.Workspace.{lock_entry}

abbrev graph_of : List LockPackage → LockGenerationResult
graph_of packages = record {
  manifest_path = text "/w/pafio.toml";
  lockfile_path = text "/w/pafio.lock";
  root_ids = text "a" ∷ text "b" ∷ [];
  lockfile = record {
    generated_by = text "pafio 1.0.0";
    resolver = text "single-version-v1";
    packages = packages;
  };
}

-- `a` needs `b` and `c`, and `b` needs `c`.
abbrev three : List LockPackage
three =
    lock_entry (text "a") (text "x/a") (text "1.0.0") (text "b" ∷ text "c" ∷ [])
    ∷ lock_entry (text "b") (text "x/b") (text "1.0.0") (text "c" ∷ [])
    ∷ lock_entry (text "c") (text "x/c") (text "1.0.0") []
    ∷ []

-- `a` and `b` need each other, and `b` needs a package that is not there.
abbrev cyclic : List LockPackage
cyclic =
    lock_entry (text "a") (text "x/a") (text "1.0.0") (text "b" ∷ [])
    ∷ lock_entry (text "b") (text "x/b") (text "1.0.0") (text "a" ∷ text "z" ∷ [])
    ∷ []

three_drawn :
    render_dependency_tree_text (graph_of three)
    ≡ ok (text "a\n+- b\n|  \\- c\n\\- c\n\nb\n\\- c\n")
unfolding render_dependency_tree_text render_all render_roots render_node render_found draw_children
    draw_child find_lock_package erase_id contains text_eq
three_drawn = refl

cyclic_drawn :
    render_dependency_tree_text (graph_of cyclic)
    ≡ ok (
        text
          "a\n\\- b\n   +- a (cycle)\n   \\- z (missing)\n\nb\n+- a\n|  \\- b (cycle)\n\\- z (missing)\n")
unfolding render_dependency_tree_text render_all render_roots render_node render_found draw_children
    draw_child find_lock_package erase_id contains text_eq
cyclic_drawn = refl

render_dependency_tree_text-total_example :
    (drawn : Bytes) × (render_dependency_tree_text (graph_of cyclic) ≡ ok drawn)
render_dependency_tree_text-total_example = render_dependency_tree_text-total (graph_of cyclic)

abbrev rank_in_three : Bytes → ℕ
rank_in_three k = if text_eq k (text "a") then 2 else if text_eq k (text "b") then 1 else 0

-- What holds of each entry holds of the entry that is found.
found_of_All :
    (P : Bytes → LockPackage → Type 0) (packages : List LockPackage)
    → All (λ p. P p.id p) packages
    → (k : Bytes) (p : LockPackage) → find_lock_package k packages ≡ some p
    → P k p
unfolding find_lock_package
found_of_All P [] h k p e = cc
found_of_All P (q ∷ packages) h k p e = elim (Bool-cases (text_eq q.id k)) [
  | inl y ↦ rw (← ((text_eq_iff q.id k).0 y), ← (some_injective (rw y at e))) h.0
  | inr y ↦ found_of_All P packages h.1 k p (ground arith)
]

three-IsAcyclic : IsAcyclic three rank_in_three
unfolding text_eq contains
three-IsAcyclic = record {
  falls =
      found_of_All (λ k p. All (λ j. rank_in_three j < rank_in_three k) p.dependencies) three
        ((omega arith, (omega arith, tt)), ((omega arith, tt), (tt, tt)));
  closed =
      found_of_All (λ k p. All (λ j. contains j (ids three) ≡ true) p.dependencies) three
        ((refl, (refl, tt)), ((refl, tt), (tt, tt)));
}

render_dependency_tree_text-forest_example :
    render_dependency_tree_text (graph_of three)
    ≡ ok (forest (λ k. outline 3 three k [] true true) (text "a" ∷ text "b" ∷ []))
unfolding text_eq contains
render_dependency_tree_text-forest_example =
    render_dependency_tree_text-forest (graph_of three) rank_in_three 3 three-IsAcyclic
      ((omega arith, refl), ((omega arith, refl), tt))
