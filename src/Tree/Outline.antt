-- ===== src/Tree/Outline.antt =====
-- src/PafioTree/Render.cpp: what is drawn of a graph with no cycle, as a plain recursion on trees.
use mathlib.Core.List.{append_assoc, append-nil}
use spio.Prelude.{
  is_empty, ℕ, zero, suc, ◌≤◌, ◌<◌, Bytes, text, text_eq, contains, Bool, Bool-cases, true, false,
  Option, none, some, List, [], ◌∷◌, ◌++◌, Result, ok, ◌≡◌, sym, ap, arith, All, All-contains, inl,
  inr,
}
use spio.Lockfile.{LockPackage}
use spio.Tree.{
  Drawing, write, find_lock_package, lead, child_prefix_of, draw_child, draw_children, render_found,
  render_node,
}
use spio.Tree.Total.{ids, Fits, Fits-zero, Fits-cons, erase_id-cons}

abbrev listed : Option LockPackage → List Bytes
listed none = []
listed (some p) = p.dependencies

unfoldable pub dependencies_of : Bytes → List LockPackage → List Bytes
dependencies_of k packages = listed (find_lock_package k packages)

unfoldable pub outline_each : (Bytes → Bool → Bytes) → List Bytes → Bytes
outline_each draw [] = []
outline_each draw (k ∷ ks) = draw k (is_empty ks) ++ outline_each draw ks

-- a package on its line, then its dependencies, as deep as the number tells
unfoldable pub outline : ℕ → List LockPackage → Bytes → Bytes → Bool → Bool → Bytes
outline zero packages k line_prefix is_root is_last = []
outline (suc depth) packages k line_prefix is_root is_last =
    (lead line_prefix is_root is_last ++ k ++ text "\n")
    ++ outline_each
        (λ j last.
          outline depth packages j (child_prefix_of line_prefix is_root is_last) false last)
        (dependencies_of k packages)

-- A rank that falls along dependencies, and dependencies that are all packages.
pub record IsAcyclic (packages : List LockPackage) (rank : Bytes → ℕ) : Type 0 where
  pub falls :
      (k : Bytes) (p : LockPackage)
      → find_lock_package k packages ≡ some p
      → All (λ j. rank j < rank k) p.dependencies
  pub closed :
      (k : Bytes) (p : LockPackage)
      → find_lock_package k packages ≡ some p
      → All (λ j. contains j (ids packages) ≡ true) p.dependencies

contains-find_lock_package :
    (k : Bytes) (packages : List LockPackage)
    → contains k (ids packages) ≡ true
    → (p : LockPackage) × (find_lock_package k packages ≡ some p)
unfolding find_lock_package contains
contains-find_lock_package k [] e = cc
contains-find_lock_package k (q ∷ packages) e = elim (Bool-cases (text_eq q.id k)) [
  | inl h ↦ (q, rw h)
  | inr h ↦ rw h (contains-find_lock_package k packages (ground arith))
]

dependencies_of_lem :
    (k : Bytes) (packages : List LockPackage) {p : LockPackage}
    → find_lock_package k packages ≡ some p
    → dependencies_of k packages ≡ p.dependencies
unfolding dependencies_of
dependencies_of_lem k packages e = ap listed e

pub write-write : (a b : Bytes) (d : Drawing) → write b (write a d) ≡ write (a ++ b) d
write-write a b d = ap (λ t. record d { out = t }) (append_assoc d.out a b)

draw_children-outline :
    (render : Bytes → Bool → Drawing → Result Drawing) (child_prefix : Bytes)
    (draw : Bytes → Bool → Bytes) (ks : List Bytes) (js : List Bytes) (d : Drawing)
    → d.path_stack ≡ js
    → All
        (λ k.
          (contains k js ≡ false)
          × ((l : Bool) (e : Drawing) → e.path_stack ≡ js → render k l e ≡ ok (write (draw k l) e)))
        ks
    → draw_children render child_prefix ks d ≡ ok (write (outline_each draw ks) d)
unfolding draw_children draw_child outline_each
draw_children-outline render child_prefix draw [] js d q u =
    ap (λ t. ok (record d { out = t })) (sym (append-nil d.out))
draw_children-outline render child_prefix draw (k ∷ ks) js d q u =
    let fresh : contains k d.path_stack ≡ false = rw q u.0.0 in
    rw (fresh, u.0.1 (is_empty ks) d q)
      (rw
        (draw_children-outline render child_prefix draw ks js (write (draw k (is_empty ks)) d) q
          u.1)
        (ap ok (write-write (draw k (is_empty ks)) (outline_each draw ks) d)))

module _ (packages : List LockPackage) (rank : Bytes → ℕ) (a : IsAcyclic packages rank) where
  -- `render` draws the outline of each package that ranks below the stack.
  abbrev pub IsOutline : ℕ → (Bytes → Bytes → Bool → Bool → Drawing → Result Drawing) → Type 0
  IsOutline fuel render =
      (depth : ℕ) (k line_prefix : Bytes) (is_root is_last : Bool) (js : List Bytes) (d : Drawing)
      → d.path_stack ≡ js
      → Fits packages fuel js
      → rank k < depth
      → contains k (ids packages) ≡ true
      → All (λ j. rank k < rank j) js
      → render k line_prefix is_root is_last d
        ≡ ok (write (outline depth packages k line_prefix is_root is_last) d)

  not_above : (k : Bytes) (js : List Bytes) → All (λ j. rank k < rank j) js → contains k js ≡ false
  not_above k js b = elim (Bool-cases (contains k js)) [
    | inl h ↦ absurd (omega (arith, All-contains (λ j. rank k < rank j) k js b h))
    | inr h ↦ h
  ]

  All-above :
      (i k : Bytes) (js : List Bytes)
      → rank i < rank k
      → All (λ j. rank k < rank j) js
      → All (λ j. rank i < rank j) js
  All-above i k [] h b = tt
  All-above i k (j ∷ js) h b = (omega (arith, b.0), All-above i k js h b.1)

  children_outline :
      (fuel depth : ℕ) (render : Bytes → Bytes → Bool → Bool → Drawing → Result Drawing)
      (child_prefix k : Bytes) (js : List Bytes)
      → IsOutline fuel render
      → Fits packages fuel (k ∷ js)
      → rank k ≤ depth
      → All (λ j. rank k < rank j) js
      → (ks : List Bytes) → All (λ j. rank j < rank k) ks
      → All (λ j. contains j (ids packages) ≡ true) ks
      → All
          (λ j.
            (contains j (k ∷ js) ≡ false)
            × ((l : Bool) (e : Drawing)
                → e.path_stack ≡ k ∷ js
                → render j child_prefix false l e
                  ≡ ok (write (outline depth packages j child_prefix false l) e)))
          ks
  children_outline fuel depth render child_prefix k js u f h b [] low known = tt
  children_outline fuel depth render child_prefix k js u f h b (j ∷ ks) low known =
      let above : All (λ i. rank j < rank i) (k ∷ js) = (low.0, All-above j k js low.0 b) in
      (
        (
          not_above j (k ∷ js) above,
          λ l e q.
              u depth j child_prefix false l (k ∷ js) e q f (omega (arith, low.0, h)) known.0 above,
        ),
        children_outline fuel depth render child_prefix k js u f h b ks low.1 known.1,
      )

  render_found-IsOutline :
      (fuel depth : ℕ) (render : Bytes → Bytes → Bool → Bool → Drawing → Result Drawing)
      → IsOutline fuel render
      → (p : LockPackage) (k line_prefix : Bytes) (is_root is_last : Bool)
      → (js : List Bytes) (d : Drawing) → find_lock_package k packages ≡ some p
      → d.path_stack ≡ js
      → Fits packages (suc fuel) js
      → rank k ≤ depth
      → All (λ j. rank k < rank j) js
      → render_found render (some p) k line_prefix is_root is_last d
        ≡ ok (write (outline (suc depth) packages k line_prefix is_root is_last) d)
  unfolding render_found outline
  render_found-IsOutline fuel depth render u p k line_prefix is_root is_last js d e q f h b =
      let line : Bytes = lead line_prefix is_root is_last ++ k ++ text "\n" in
      let child_prefix : Bytes = child_prefix_of line_prefix is_root is_last in
      let draw : Bytes → Bool → Bytes = λ j l. outline depth packages j child_prefix false l in
      let fresh : contains k js ≡ false = not_above k js b in
      let fits : Fits packages fuel (k ∷ js) = Fits-cons packages fuel k js {p = p} f fresh e in
      let inner : Drawing = record (write line d) { path_stack = k ∷ d.path_stack } in
      let c =
        draw_children-outline (λ j last. render j child_prefix false last) child_prefix draw
          p.dependencies (k ∷ js) inner (ap (λ t. k ∷ t) q)
          (children_outline fuel depth render child_prefix k js u fits h b p.dependencies
            (a.falls k p e) (a.closed k p e)) in
      let kept : contains k d.path_stack ≡ false = rw q fresh in
      rw (kept, c, dependencies_of_lem k packages e, erase_id-cons k d.path_stack)
        (ap ok (write-write line (outline_each draw p.dependencies) d))

  pub render_node-IsOutline : (fuel : ℕ) → IsOutline fuel (render_node fuel packages)
  unfolding render_node
  render_node-IsOutline zero depth k line_prefix is_root is_last js d q f h m b =
      absurd (Fits-zero packages f)
  render_node-IsOutline (suc fuel) zero k line_prefix is_root is_last js d q f h m b =
      absurd (omega (arith, h))
  render_node-IsOutline (suc fuel) (suc depth) k line_prefix is_root is_last js d q f h m b =
      let (p, e) = contains-find_lock_package k packages m in
      rw e (
        render_found-IsOutline fuel depth (render_node fuel packages) (render_node-IsOutline fuel) p
          k line_prefix is_root is_last js d e q f (omega (arith, h)) b)
