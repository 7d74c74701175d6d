-- ===== src/Tree.antt =====
-- src/PafioTree/Render.cpp: the dependency tree as text. `path_stack` and `out`, which `RenderNode`
-- changes, are the record `Drawing`; its recursion is on fuel, one more than the number of packages.
pub mod Forest
pub mod Outline
pub mod Total
use spio.Prelude.{
  ℕ, zero, suc, Bytes, text, text_eq, contains, Bool, true, false, Option, none, some, List, [],
  ◌∷◌, ◌++◌, is_empty, Result, ok, err, ◌>>=◌, out_of_fuel, length, if◌then◌else◌,
}
use spio.Lockfile.{LockPackage}
use spio.Resolve.{LockGenerationResult}

pub record Drawing : Type 0 where
  pub path_stack : List Bytes
  pub out : Bytes

abbrev pub write : Bytes → Drawing → Drawing
write t d = record d { out = d.out ++ t }

-- `packages_by_id`, filled by `emplace`: the first package with an id stays.
unfoldable pub find_lock_package : Bytes → List LockPackage → Option LockPackage
find_lock_package k [] = none
find_lock_package k (p ∷ ps) = if text_eq p.id k then some p else find_lock_package k ps

-- `path_stack.erase`
unfoldable pub erase_id : Bytes → List Bytes → List Bytes
erase_id k [] = []
erase_id k (j ∷ js) = if text_eq j k then js else j ∷ erase_id k js

abbrev pub branch : Bool → Bytes
branch true = text "\\- "
branch false = text "+- "

abbrev pub lead : Bytes → Bool → Bool → Bytes
lead line_prefix true is_last = []
lead line_prefix false is_last = line_prefix ++ branch is_last

abbrev pub child_prefix_of : Bytes → Bool → Bool → Bytes
child_prefix_of line_prefix true is_last = []
child_prefix_of line_prefix false true = line_prefix ++ text "   "
child_prefix_of line_prefix false false = line_prefix ++ text "|  "

unfoldable pub draw_child :
    (Bytes → Bool → Drawing → Result Drawing) → Bytes → Bytes → Bool → Drawing → Result Drawing
draw_child render child_prefix k is_last d =
    if contains k d.path_stack
    then ok (write (child_prefix ++ branch is_last ++ k ++ text " (cycle)\n") d)
    else render k is_last d

-- the loop over `package.dependencies`
unfoldable pub draw_children :
    (Bytes → Bool → Drawing → Result Drawing) → Bytes → List Bytes → Drawing → Result Drawing
draw_children render child_prefix [] d = ok d
draw_children render child_prefix (k ∷ ks) d = do
  e ← draw_child render child_prefix k (is_empty ks) d
  draw_children render child_prefix ks e

-- `RenderNode` behind its search, with the recursive call as an argument.
unfoldable pub render_found :
    (Bytes → Bytes → Bool → Bool → Drawing → Result Drawing)
    → Option LockPackage
    → Bytes
    → Bytes
    → Bool
    → Bool
    → Drawing
    → Result Drawing
render_found render none k line_prefix is_root is_last d =
    ok (write (lead line_prefix is_root is_last ++ k ++ text " (missing)\n") d)
render_found render (some p) k line_prefix is_root is_last d =
    let named : Drawing = write (lead line_prefix is_root is_last ++ k ++ text "\n") d in
    let child_prefix : Bytes = child_prefix_of line_prefix is_root is_last in
    if contains k d.path_stack then ok named else do
      e ←
          draw_children (λ j last. render j child_prefix false last) child_prefix p.dependencies
            (record named { path_stack = k ∷ d.path_stack })
      ok (record e { path_stack = erase_id k e.path_stack })

unfoldable pub render_node :
    ℕ → List LockPackage → Bytes → Bytes → Bool → Bool → Drawing → Result Drawing
render_node zero packages k line_prefix is_root is_last d = err out_of_fuel
render_node (suc fuel) packages k line_prefix is_root is_last d =
    render_found (render_node fuel packages) (find_lock_package k packages) k line_prefix is_root
      is_last d

-- the loop over `graph.root_ids`, behind its first round
unfoldable pub render_roots :
    (Bytes → Drawing → Result Drawing) → List Bytes → Drawing → Result Drawing
render_roots render [] d = ok d
render_roots render (k ∷ ks) d = do e ← render k (write (text "\n") d); render_roots render ks e

unfoldable pub render_all : (Bytes → Drawing → Result Drawing) → List Bytes → Result Drawing
render_all render [] = ok (record { path_stack = []; out = [] })
render_all render (k ∷ ks) = do
  e ← render k (record { path_stack = []; out = [] })
  render_roots render ks e

unfoldable pub render_dependency_tree_text : LockGenerationResult → Result Bytes
render_dependency_tree_text graph =
    let packages : List LockPackage = graph.lockfile.packages in
    do
      d ←
          render_all (λ k. render_node (suc (length packages)) packages k [] true true)
            graph.root_ids
      ok d.out
