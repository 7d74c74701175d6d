-- ===== src/Tests/Hashes.antt =====
-- Tests: the source hash.
use mathlib.Core.List.{Permᴰ}
use spio.Prelude.{text, true, some, List, [], ◌∷◌, ◌++◌, ok, ◌≡◌, refl}
use spio.FileSystem.{FileSystem}
use spio.Resolve.{ResolvedPackage}
use spio.Plan.Select.{require_existing_source_file}
use spio.Plan.Hash.{files_of, source_files, digest_input, build_source_hash}
use spio.Plan.Hash.Laws.{has_zero, build_source_hash-reordered}
use spio.Tests.Workspace.{root_package, member_package}

-- Each file is there, and holds its own path.
abbrev mirror : FileSystem
mirror = record {
  canonical = λ p. p;
  parent_path = λ p. p;
  append = λ p q. p ++ text "/" ++ q;
  relative_to = λ p q. p;
  is_absolute = λ p. true;
  exists = λ p. true;
  is_regular_file = λ p. true;
  read = λ p. some p;
}

-- the input of the hash, of two files
two_files_digested :
    digest_input mirror (text "/a" ∷ text "/b" ∷ [])
    ≡ ok (text "/a" ++ (0 ∷ text "/a" ++ (0 ∷ text "/b" ++ (0 ∷ text "/b" ++ (0 ∷ [])))))
unfolding digest_input require_existing_source_file
two_files_digested = refl

abbrev in_order : List ResolvedPackage
in_order = root_package ∷ member_package ∷ []

abbrev turned : List ResolvedPackage
turned = member_package ∷ root_package ∷ []

build_source_hash-reordered_example :
    build_source_hash mirror in_order ≡ build_source_hash mirror turned
unfolding source_files files_of has_zero
build_source_hash-reordered_example =
    build_source_hash-reordered mirror {ps = in_order} {qs = turned}
      (refl, (refl, (refl, (refl, tt)))) (Permᴰ.swap refl refl)
