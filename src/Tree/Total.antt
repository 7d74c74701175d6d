-- ===== src/Tree/Total.antt =====
-- src/PafioTree/Render.cpp: the rendering ends, and leaves `path_stack` as it was.
use spio.Prelude.{
  is_empty, ℕ, zero, suc, ◌+◌, ◌<◌, Bytes, text, text_eq_iff, contains, Bool, Bool-cases, true,
  false, Option, none, some, List, [], ◌∷◌, ◌++◌, map, Result, ok, length, ◌≡◌, refl, sym, ap,
  arith, All, inl, inr,
}
use spio.Prelude.Distinct.{IsDistinct, length-le_of_IsDistinct}
use spio.Lockfile.{LockPackage}
use spio.Resolve.{LockGenerationResult}
use spio.Tree.{
  Drawing, write, find_lock_package, erase_id, branch, lead, child_prefix_of, draw_child,
  draw_children, render_found, render_node, render_roots, render_all, render_dependency_tree_text,
}

abbrev pub ids : List LockPackage → List Bytes
ids = map (λ p. p.id)

find_lock_package-contains :
    (k : Bytes) (packages : List LockPackage) {p : LockPackage}
    → find_lock_package k packages ≡ some p
    → contains k (ids packages) ≡ true
unfolding find_lock_package contains
find_lock_package-contains k [] e = cc
find_lock_package-contains k (q ∷ packages) {p} e =
    ground (arith, find_lock_package-contains k packages {p = p})

length-ids : (packages : List LockPackage) → length (ids packages) ≡ length packages
length-ids [] = refl
length-ids (p ∷ packages) = ap suc (length-ids packages)

pub erase_id-cons : (k : Bytes) (js : List Bytes) → erase_id k (k ∷ js) ≡ js
unfolding erase_id
erase_id-cons k js = ground (arith, text_eq_iff k k)

-- A result that has the path stack `js`.
record Ends (js : List Bytes) (r : Result Drawing) : Type 0 where
  drawing : Drawing
  result : r ≡ ok drawing
  same : drawing.path_stack ≡ js

Ends-ok : (js : List Bytes) (d : Drawing) → d.path_stack ≡ js → Ends js (ok d)
Ends-ok js d q = record { drawing = d; result = refl; same = q }

module _ (packages : List LockPackage) where
  -- The stack holds ids of packages, none twice, and the fuel reaches for the rest.
  pub record Fits (fuel : ℕ) (js : List Bytes) : Type 0 where
    distinct : IsDistinct js
    known : All (λ j. contains j (ids packages) ≡ true) js
    fuel_left : length packages < fuel + length js

  pub Fits-zero : {js : List Bytes} → Fits zero js → ⊥
  Fits-zero {js} f = omega (
    arith,
    f.fuel_left,
    length-ids packages,
    length-le_of_IsDistinct js (ids packages) f.distinct f.known,
  )

  pub Fits-cons :
      (fuel : ℕ) (k : Bytes) (js : List Bytes) {p : LockPackage}
      → Fits (suc fuel) js
      → contains k js ≡ false
      → find_lock_package k packages ≡ some p
      → Fits fuel (k ∷ js)
  Fits-cons fuel k js f n e = record {
    distinct = (n, f.distinct);
    known = (find_lock_package-contains k packages e, f.known);
    fuel_left = omega (arith, f.fuel_left);
  }

  draw_child-Ends :
      (render : Bytes → Bool → Drawing → Result Drawing) (child_prefix k : Bytes) (last : Bool)
      (js : List Bytes) (d : Drawing)
      → d.path_stack ≡ js
      → ((j : Bytes) (l : Bool) (e : Drawing) → e.path_stack ≡ js → Ends js (render j l e))
      → Ends js (draw_child render child_prefix k last d)
  unfolding draw_child
  draw_child-Ends render child_prefix k last js d q u =
      elim (Bool-cases (contains k d.path_stack)) [
        | inl h ↦
            rw h (Ends-ok js (write (child_prefix ++ branch last ++ k ++ text " (cycle)\n") d) q)
        | inr h ↦ rw h (u k last d q)
      ]

  draw_children-Ends :
      (render : Bytes → Bool → Drawing → Result Drawing) (child_prefix : Bytes) (ks : List Bytes)
      (js : List Bytes) (d : Drawing)
      → d.path_stack ≡ js
      → ((j : Bytes) (l : Bool) (e : Drawing) → e.path_stack ≡ js → Ends js (render j l e))
      → Ends js (draw_children render child_prefix ks d)
  unfolding draw_children
  draw_children-Ends render child_prefix [] js d q u = Ends-ok js d q
  draw_children-Ends render child_prefix (k ∷ ks) js d q u =
      let c = draw_child-Ends render child_prefix k (is_empty ks) js d q u in
      rw c.result (draw_children-Ends render child_prefix ks js c.drawing c.same u)

  -- With the stack `js`, `render` draws every node and leaves the stack.
  abbrev Draws : ℕ → (Bytes → Bytes → Bool → Bool → Drawing → Result Drawing) → Type 0
  Draws fuel render =
      (k line_prefix : Bytes) (is_root is_last : Bool) (js : List Bytes) (d : Drawing)
      → d.path_stack ≡ js
      → Fits fuel js
      → Ends js (render k line_prefix is_root is_last d)

  render_found-Ends :
      (fuel : ℕ) (render : Bytes → Bytes → Bool → Bool → Drawing → Result Drawing)
      → Draws fuel render
      → (found : Option LockPackage) (k line_prefix : Bytes) (is_root is_last : Bool)
      → (js : List Bytes) (d : Drawing) → find_lock_package k packages ≡ found
      → d.path_stack ≡ js
      → Fits (suc fuel) js
      → Ends js (render_found render found k line_prefix is_root is_last d)
  unfolding render_found
  render_found-Ends fuel render u none k line_prefix is_root is_last js d e q f =
      Ends-ok js (write (lead line_prefix is_root is_last ++ k ++ text " (missing)\n") d) q
  render_found-Ends fuel render u (some p) k line_prefix is_root is_last js d e q f =
      let named : Drawing = write (lead line_prefix is_root is_last ++ k ++ text "\n") d in
      let child_prefix : Bytes = child_prefix_of line_prefix is_root is_last in
      elim (Bool-cases (contains k d.path_stack)) [
        | inl h ↦ rw h (Ends-ok js named q)
        | inr h ↦
            let fits : Fits fuel (k ∷ js) = Fits-cons fuel k js {p = p} f (rw (sym q) h) e in
            let c =
              draw_children-Ends (λ j last. render j child_prefix false last) child_prefix
                p.dependencies (k ∷ js) (record named { path_stack = k ∷ d.path_stack })
                (ap (λ t. k ∷ t) q) (λ j l e r. u j child_prefix false l (k ∷ js) e r fits) in
            rw (h, c.result)
              (Ends-ok js (record c.drawing { path_stack = erase_id k c.drawing.path_stack })
                (rw c.same (erase_id-cons k js)))
      ]

  render_node-Draws : (fuel : ℕ) → Draws fuel (render_node fuel packages)
  unfolding render_node
  render_node-Draws zero k line_prefix is_root is_last js d q f = absurd (Fits-zero f)
  render_node-Draws (suc fuel) k line_prefix is_root is_last js d q f =
      render_found-Ends fuel (render_node fuel packages) (render_node-Draws fuel)
        (find_lock_package k packages) k line_prefix is_root is_last js d refl q f

  pub start-Fits : Fits (suc (length packages)) []
  start-Fits = record { distinct = tt; known = tt; fuel_left = omega arith }

  render_roots-Ends :
      (render : Bytes → Drawing → Result Drawing)
      → ((k : Bytes) (d : Drawing) → d.path_stack ≡ [] → Ends [] (render k d))
      → (ks : List Bytes) (d : Drawing) → d.path_stack ≡ []
      → Ends [] (render_roots render ks d)
  unfolding render_roots
  render_roots-Ends render u [] d q = Ends-ok [] d q
  render_roots-Ends render u (k ∷ ks) d q =
      let c = u k (write (text "\n") d) q in
      rw c.result (render_roots-Ends render u ks c.drawing c.same)

  render_all-Ends :
      (render : Bytes → Drawing → Result Drawing)
      → ((k : Bytes) (d : Drawing) → d.path_stack ≡ [] → Ends [] (render k d))
      → (ks : List Bytes) → Ends [] (render_all render ks)
  unfolding render_all
  render_all-Ends render u [] = Ends-ok [] (record { path_stack = []; out = [] }) refl
  render_all-Ends render u (k ∷ ks) =
      let c = u k (record { path_stack = []; out = [] }) refl in
      rw c.result (render_roots-Ends render u ks c.drawing c.same)

-- A dependency tree is drawn for every graph, with cycles and missing packages in it too: the
-- recursion ends, on fuel of one more than the number of packages.
pub render_dependency_tree_text-total :
    (graph : LockGenerationResult)
    → (drawn : Bytes) × (render_dependency_tree_text graph ≡ ok drawn)
unfolding render_dependency_tree_text
render_dependency_tree_text-total graph =
    let packages : List LockPackage = graph.lockfile.packages in
    let c =
      render_all-Ends packages (λ k. render_node (suc (length packages)) packages k [] true true)
        (λ k d q.
          render_node-Draws packages (suc (length packages)) k [] true true [] d q
            (start-Fits packages))
        graph.root_ids in
    (c.drawing.out, rw c.result refl)
