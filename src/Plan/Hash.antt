-- ===== src/Plan/Hash.antt =====
-- src/PafioPlan/CompilePlan.cpp, `BuildSourceHash`: the hash of the manifests and source files of
-- all packages.
pub mod Laws
use spio.Prelude.{
  Bytes, List, [], ◌∷◌, ◌++◌, map, Option, none, some, Result, ok, ◌>>=◌, ◌>>◌, or_throw,
  plan_error,
}
use spio.Prelude.Sort.{sort_by, unique}
use spio.FileSystem.{FileSystem}
use spio.Manifest.{LibTarget}
use spio.Resolve.{ResolvedPackage}
use spio.Resolve.Origin.{fnv1a64, hex64}
use spio.Resolve.Graph.{path_order}
use spio.Plan.Select.{absolute_target_path, require_existing_source_file}

abbrev pub lib_file : FileSystem → ResolvedPackage → Option LibTarget → List Bytes
lib_file fs p none = []
lib_file fs p (some lib) = absolute_target_path fs p lib.path ∷ []

unfoldable pub files_of : FileSystem → ResolvedPackage → List Bytes
files_of fs p =
    p.manifest_path ∷ lib_file fs p p.config.lib
    ++ map (λ bin. absolute_target_path fs p bin.path) p.config.bins
    ++ map (λ test. absolute_target_path fs p test.path) p.config.tests

unfoldable pub source_files : FileSystem → List ResolvedPackage → List Bytes
source_files fs [] = []
source_files fs (p ∷ packages) = files_of fs p ++ source_files fs packages

-- `digest_input`, each path and its content with a zero byte behind
unfoldable pub digest_input : FileSystem → List Bytes → Result Bytes
digest_input fs [] = ok []
digest_input fs (path ∷ paths) = do
  require_existing_source_file fs path
  content ← or_throw (fs.read path) plan_error
  rest ← digest_input fs paths
  ok (path ++ 0 ∷ content ++ 0 ∷ rest)

unfoldable pub build_source_hash : FileSystem → List ResolvedPackage → Result Bytes
build_source_hash fs packages = do
  input ← digest_input fs (unique (sort_by path_order (source_files fs packages)))
  ok (hex64 (fnv1a64 input))
