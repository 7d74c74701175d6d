-- ===== src/Plan/Select.antt =====
-- src/PafioPlan/CompilePlan.cpp: which package and which target a request means
-- (`ResolveEntryPackage`, `ResolveEntryTarget`), the profile, and the toolchain that all packages
-- must share.
pub mod Target
use spio.Prelude.{
  ℕ, Bytes, text, text_eq, Bool, true, false, ◌&&◌, ◌||◌, not, List, [], ◌∷◌, ◌++◌, Option, none,
  some, Result, ok, err, ◌>>=◌, ◌>>◌, require, throw_if, plan_error, if◌then◌else◌, has_value,
  length, ◌==◌, is_empty,
}
use spio.Prelude.Sort.{sort_by}
use spio.FileSystem.{FileSystem}
use spio.Manifest.{LibTarget, BinTarget, TestTarget, PackageConfig}
use spio.Resolve.{ResolvedPackage}
use spio.Plan.Order.{require_package_by_id}

pub record BuildPlanRequest : Type 0 where
  pub manifest_path : Bytes
  pub intent : Bytes
  pub package_name : Option Bytes
  pub bin_name : Option Bytes
  pub test_name : Option Bytes
  pub select_lib : Bool
  pub profile : Bytes
  pub build_mode : Bytes
  pub compiler_version : Option Bytes
  pub offline : Bool
  pub vendor_root : Option Bytes

-- `SelectedTarget::kind`, which the source spells as the texts lib, bin and test.
pub data TargetKind : Type 0 where
  lib_kind bin_kind test_kind : TargetKind

pub record SelectedTarget : Type 0 where
  pub owner : ResolvedPackage
  pub kind : TargetKind
  pub name : Bytes
  pub file : Bytes

pub record ProfileConfig : Type 0 where
  pub name : Bytes
  pub opt_level : ℕ
  pub debug : Bool
  pub lto : Bool

unfoldable pub validate_intent : Bytes → Result (Unit {0})
validate_intent intent =
    require
      (text_eq intent (text "check")
        || text_eq intent (text "build")
        || text_eq intent (text "run")
        || text_eq intent (text "test"))
      plan_error

abbrev pub absolute_target_path : FileSystem → ResolvedPackage → Bytes → Bytes
absolute_target_path fs p relative_path = fs.canonical (fs.append p.root_dir relative_path)

unfoldable pub require_existing_source_file : FileSystem → Bytes → Result (Unit {0})
require_existing_source_file fs path = do
  require (fs.exists path) plan_error
  require (fs.is_regular_file path) plan_error

-- A target is returned after the check of its source file.
unfoldable pub checked : FileSystem → SelectedTarget → Result SelectedTarget
unfolding require_existing_source_file
checked fs t = do require_existing_source_file fs t.file; ok t

abbrev pub lib_target : FileSystem → ResolvedPackage → LibTarget → SelectedTarget
lib_target fs p l = record {
  owner = p;
  kind = lib_kind;
  name = p.config.name;
  file = absolute_target_path fs p l.path;
}

abbrev pub bin_target : FileSystem → ResolvedPackage → BinTarget → SelectedTarget
bin_target fs p b = record {
  owner = p;
  kind = bin_kind;
  name = b.name;
  file = absolute_target_path fs p b.path;
}

abbrev pub test_target : FileSystem → ResolvedPackage → TestTarget → SelectedTarget
test_target fs p t = record {
  owner = p;
  kind = test_kind;
  name = t.name;
  file = absolute_target_path fs p t.path;
}

unfoldable pub find_bin : Bytes → List BinTarget → Option BinTarget
find_bin n [] = none
find_bin n (b ∷ bs) = if text_eq b.name n then some b else find_bin n bs

unfoldable pub find_test : Bytes → List TestTarget → Option TestTarget
find_test n [] = none
find_test n (t ∷ ts) = if text_eq t.name n then some t else find_test n ts

-- `if (request.select_lib)`
select_lib_target :
    FileSystem → BuildPlanRequest → ResolvedPackage → Option LibTarget → Result SelectedTarget
select_lib_target fs r p lib =
    if text_eq r.intent (text "run")
    then err plan_error
    else if text_eq r.intent (text "test")
    then err plan_error
    else elim lib [ none ↦ err plan_error | some l ↦ checked fs (lib_target fs p l) ]

select_bin_target : FileSystem → ResolvedPackage → Bytes → Result SelectedTarget
select_bin_target fs p n = elim (find_bin n p.config.bins) [
  | none ↦ err plan_error
  | some b ↦ checked fs (bin_target fs p b)
]

select_test_target : FileSystem → ResolvedPackage → Bytes → Result SelectedTarget
select_test_target fs p n = elim (find_test n p.config.tests) [
  | none ↦ err plan_error
  | some t ↦ checked fs (test_target fs p t)
]

-- `if (test_count == 1U) … if (test_count == 0U) throw … throw`
only_test : FileSystem → ResolvedPackage → List TestTarget → Result SelectedTarget
only_test fs p (t ∷ []) = checked fs (test_target fs p t)
only_test fs p _ = err plan_error

only_bin : FileSystem → ResolvedPackage → List BinTarget → Result SelectedTarget
only_bin fs p (b ∷ []) = checked fs (bin_target fs p b)
only_bin fs p _ = err plan_error

-- the choice for `check` and `build` when nothing is named, over `lib`, `bins` and `tests`
default_target :
    FileSystem
    → BuildPlanRequest
    → ResolvedPackage
    → Option LibTarget
    → List BinTarget
    → List TestTarget
    → Result SelectedTarget
default_target fs r p (some l) [] tests = checked fs (lib_target fs p l)
default_target fs r p none (b ∷ []) tests = checked fs (bin_target fs p b)
default_target fs r p none [] (t ∷ []) =
    if text_eq r.intent (text "check") then checked fs (test_target fs p t) else err plan_error
default_target fs r p _ _ _ = err plan_error

-- nothing is selected by name
unnamed_target : FileSystem → BuildPlanRequest → ResolvedPackage → Result SelectedTarget
unfolding only_test only_bin default_target
unnamed_target fs r p =
    if text_eq r.intent (text "test")
    then only_test fs p p.config.tests
    else if text_eq r.intent (text "run")
    then only_bin fs p p.config.bins
    else default_target fs r p p.config.lib p.config.bins p.config.tests

named_target :
    FileSystem
    → BuildPlanRequest
    → ResolvedPackage
    → Option Bytes
    → Option Bytes
    → Result SelectedTarget
unfolding select_bin_target select_test_target unnamed_target
named_target fs r p (some b) test_name = select_bin_target fs p b
named_target fs r p none (some t) = select_test_target fs p t
named_target fs r p none none = unnamed_target fs r p

unfoldable pub resolve_entry_target :
    FileSystem → BuildPlanRequest → ResolvedPackage → Result SelectedTarget
unfolding select_lib_target named_target
resolve_entry_target fs r p = do
  throw_if (r.select_lib && has_value r.bin_name) plan_error
  throw_if (r.select_lib && has_value r.test_name) plan_error
  throw_if (has_value r.bin_name && has_value r.test_name) plan_error
  if r.select_lib
      then select_lib_target fs r p p.config.lib
      else named_target fs r p r.bin_name r.test_name

unfoldable pub resolve_profile : Bytes → Result ProfileConfig
resolve_profile profile_name =
    if text_eq profile_name (text "dev")
    then ok (record { name = text "dev"; opt_level = 0; debug = true; lto = false })
    else if text_eq profile_name (text "release")
    then ok (record { name = text "release"; opt_level = 3; debug = false; lto = true })
    else err plan_error

bool_eq : Bool → Bool → Bool
bool_eq true b = b
bool_eq false b = not b

same_toolchain : ResolvedPackage → List ResolvedPackage → Result (Unit {0})
unfolding bool_eq
same_toolchain baseline [] = ok tt
same_toolchain baseline (p ∷ ps) = do
  require (text_eq p.config.edition baseline.config.edition) plan_error
  require (text_eq p.config.toolchain.channel baseline.config.toolchain.channel) plan_error
  require (bool_eq p.config.toolchain.implicit_std baseline.config.toolchain.implicit_std)
      plan_error
  same_toolchain baseline ps

unfoldable pub validate_uniform_toolchain : List ResolvedPackage → Result (Unit {0})
unfolding same_toolchain
validate_uniform_toolchain [] = err plan_error
validate_uniform_toolchain (p ∷ ps) = same_toolchain p (p ∷ ps)

unfoldable pub build_std_package_id : ResolvedPackage → Bytes
build_std_package_id entry =
    (if entry.config.toolchain.implicit_std
      then text "builtin:std@"
      else text "builtin:std-disabled@")
    ++ (entry.config.toolchain.channel ++ (text "/" ++ entry.config.edition))

-- ---------------------------------------------------------------- the entry package

require_all : List ResolvedPackage → List Bytes → Result (List ResolvedPackage)
require_all packages [] = ok []
require_all packages (k ∷ ks) = do
  p ← require_package_by_id packages k
  ps ← require_all packages ks
  ok (p ∷ ps)

unfoldable pub collect_root_packages :
    List ResolvedPackage → List Bytes → Result (List ResolvedPackage)
unfolding require_all
collect_root_packages packages root_ids = do
  roots ← require_all packages root_ids
  ok (sort_by (λ p. p.id) roots)

-- the first of `matches`
first_named : Bytes → List ResolvedPackage → Result ResolvedPackage
first_named n [] = err plan_error
first_named n (p ∷ ps) = if text_eq p.config.name n then ok p else first_named n ps

-- the manifest's own package, or else the only root
own_or_only : Bytes → List ResolvedPackage → List ResolvedPackage → Result ResolvedPackage
own_or_only manifest_path [] (only ∷ []) = ok only
own_or_only manifest_path [] roots = err plan_error
own_or_only manifest_path (p ∷ ps) roots =
    if text_eq p.manifest_path manifest_path then ok p else own_or_only manifest_path ps roots

pick_entry : Option Bytes → Bytes → List ResolvedPackage → Result ResolvedPackage
unfolding first_named own_or_only
pick_entry (some n) manifest_path roots = first_named n roots
pick_entry none manifest_path roots = own_or_only manifest_path roots roots

unfoldable pub resolve_entry_package :
    BuildPlanRequest → Bytes → List ResolvedPackage → List Bytes → Result ResolvedPackage
unfolding pick_entry
resolve_entry_package r manifest_path packages root_ids = do
  roots ← collect_root_packages packages root_ids
  throw_if (is_empty roots) plan_error
  pick_entry r.package_name manifest_path roots
