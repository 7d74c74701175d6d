-- ===== src/Plan/Hash/Laws.antt =====
-- src/PafioPlan/CompilePlan.cpp, `BuildSourceHash`: the order of the packages.
use mathlib.Core.List.{Permᴰ}
use mathlib.Core.List.Permᴰ
use spio.Prelude.{Bytes, Bool, ◌||◌, List, [], ◌∷◌, ◌++◌, All, ◌==◌, false, ◌≡◌, refl, arith}
use spio.Prelude.Shuffle.{sort_by-perm_of}
use spio.FileSystem.{FileSystem}
use spio.Resolve.{ResolvedPackage}
use spio.Resolve.Graph.{path_order}
use spio.Plan.Hash.{files_of, source_files, build_source_hash}

unfoldable pub has_zero : Bytes → Bool
has_zero [] = false
has_zero (c ∷ path) = c == 0 || has_zero path

abbrev pub HasNoZero : Bytes → Type 0
HasNoZero path = has_zero path ≡ false

path_order-injective :
    (x y : Bytes) → HasNoZero x → HasNoZero y → path_order x ≡ path_order y → x ≡ y
unfolding path_order has_zero
path_order-injective [] [] h k e = refl
path_order-injective [] (d ∷ y) h k e = cc
path_order-injective (c ∷ x) [] h k e = cc
path_order-injective (c ∷ x) (d ∷ y) h k e =
    let heads : c ≡ d = ground (arith, e, h, k) in
    let tails : x ≡ y =
      path_order-injective x y (ground (arith, h)) (ground (arith, k)) (ground (arith, e)) in
    rw (heads, tails) refl

swap_blocks : (xs ys zs : List Bytes) → Permᴰ (xs ++ (ys ++ zs)) (ys ++ (xs ++ zs))
swap_blocks [] ys zs = Permᴰ.refl (ys ++ zs)
swap_blocks (x ∷ xs) ys zs =
    Permᴰ.trans (Permᴰ.cons refl (swap_blocks xs ys zs)) (Permᴰ.symm (Permᴰ.middle x ys (xs ++ zs)))

source_files-perm :
    (fs : FileSystem) {ps qs : List ResolvedPackage}
    → Permᴰ ps qs
    → Permᴰ (source_files fs ps) (source_files fs qs)
unfolding source_files
source_files-perm fs Permᴰ.nil = Permᴰ.nil
source_files-perm fs (Permᴰ.cons {a} {b} e p) =
    rw e (Permᴰ.append_left (files_of fs b) (source_files-perm fs p))
source_files-perm fs (Permᴰ.swap {a} {b} {a'} {b'} {l} e f) =
    rw (e, f) (swap_blocks (files_of fs b') (files_of fs a') (source_files fs l))
source_files-perm fs (Permᴰ.trans p q) =
    Permᴰ.trans (source_files-perm fs p) (source_files-perm fs q)

-- The source hash does not depend on the order of the packages, and neither does its failure: where
-- no path has a zero byte, packages in another order have the same result.
pub build_source_hash-reordered :
    (fs : FileSystem) {ps qs : List ResolvedPackage}
    → All HasNoZero (source_files fs ps)
    → Permᴰ ps qs
    → build_source_hash fs ps ≡ build_source_hash fs qs
unfolding build_source_hash
build_source_hash-reordered fs plain p =
    rw (sort_by-perm_of path_order HasNoZero path_order-injective (source_files-perm fs p) plain)
      refl
