-- ===== src/Resolve/Origin.antt =====
-- src/PafioResolve/Resolver.cpp: where a package comes from, and the texts that tell packages
-- apart, fingerprints and ids.
pub mod Ids
use Prim.Native.Nat.{bit_xor}
use spio.Prelude.{
  ℕ, zero, suc, ◌+◌, ◌*◌, ◌/◌, ◌%◌, ◌^◌, Bytes, text, Bool, true, false, ◌||◌, Option, some, none,
  List, [], ◌∷◌, ◌++◌, Result, ok, ◌>>=◌, or_throw, bad_optional_access, if◌then◌else◌, starts_with,
  is_empty, not, ◌&&◌, text_eq, ◌==◌, ltb,
}
use spio.Prelude.Sort.{sort_by}
use spio.Manifest.{PackageConfig, Dependency}
use spio.Resolve.Machine.{Machine}

pub data SourceKind : Type 0 where
  k_workspace k_path k_git k_registry : SourceKind

pub record SourceOrigin : Type 0 where
  pub kind : SourceKind
  pub git_source : Option Bytes
  pub git_rev : Option Bytes
  pub registry_root : Option Bytes
  pub registry_version : Option Bytes
  pub registry_sha256 : Option Bytes
  pub repo_hash : Option Bytes
  pub snapshot_root : Option Bytes

-- `SourceOrigin{.kind = kind}`
abbrev pub plain_origin : SourceKind → SourceOrigin
plain_origin kind = record {
  kind = kind;
  git_source = none;
  git_rev = none;
  registry_root = none;
  registry_version = none;
  registry_sha256 = none;
  repo_hash = none;
  snapshot_root = none;
}

pub record ManifestSelection : Type 0 where
  pub manifest_path : Bytes
  pub origin : SourceOrigin

fnv_from : ℕ → Bytes → ℕ
fnv_from hash [] = hash
fnv_from hash (c ∷ s) = fnv_from (bit_xor hash c * 1099511628211 % 2 ^ 64) s

unfoldable pub fnv1a64 : Bytes → ℕ
unfolding fnv_from
fnv1a64 value = fnv_from 1469598103934665603 value

abbrev hex_digit : ℕ → ℕ
hex_digit d = if ltb d 10 then b'0' + d else 87 + d

-- The digits of `value` in front of `rest`; `std::hex` writes no leading zeros.
hex_digits : ℕ → ℕ → Bytes → Bytes
hex_digits zero value rest = rest
hex_digits (suc fuel) value rest =
    let more = hex_digits fuel (value / 16) (hex_digit (value % 16) ∷ rest) in
    if value / 16 == 0 then hex_digit (value % 16) ∷ rest else more

-- A 64-bit value has at most 16 digits.
unfoldable pub hex64 : ℕ → Bytes
unfolding hex_digits
hex64 value = hex_digits 16 value []

-- `value.find(part) != npos`
unfoldable pub has_part : Bytes → Bytes → Bool
has_part part [] = is_empty part
has_part part (c ∷ s) = starts_with (c ∷ s) part || has_part part s

unfoldable pub looks_like_remote_git_source : Bytes → Bool
unfolding has_part
looks_like_remote_git_source source =
    has_part (text "://") source || starts_with source (text "git@")

unfoldable pub source_kind_string : SourceKind → Bytes
source_kind_string k_workspace = text "workspace"
source_kind_string k_path = text "path"
source_kind_string k_git = text "git"
source_kind_string k_registry = text "registry"

-- `o.value()`
abbrev pub value : Option Bytes → Result Bytes
value o = or_throw o bad_optional_access

-- What stands behind the `@version` of an id.
lock_id_suffix : SourceOrigin → SourceKind → Result Bytes
lock_id_suffix origin k_git = do rev ← value origin.git_rev; ok (text "#" ++ rev)
lock_id_suffix origin k_registry = do sha256 ← value origin.registry_sha256; ok (text "#" ++ sha256)
lock_id_suffix origin k_workspace = ok []
lock_id_suffix origin k_path = ok []

unfoldable pub build_lock_id : SourceOrigin → PackageConfig → Result Bytes
unfolding lock_id_suffix source_kind_string
build_lock_id origin config = do
  suffix ← lock_id_suffix origin origin.kind
  ok (
      source_kind_string origin.kind
      ++ (b':' ∷ (config.name ++ (b'@' ∷ (config.version ++ suffix)))))

unfoldable pub collect_dependencies : PackageConfig → List Dependency
collect_dependencies config =
    sort_by (λ d. d.alias) (config.dependencies ++ config.dev_dependencies)

module _ (machine : Machine) where
  open machine use {canonical, lexically_relative, append, is_absolute}

  unfoldable pub path_is_within : Bytes → Bytes → Bool
  path_is_within candidate root =
      let relative = lexically_relative (canonical candidate) (canonical root) in
      not (is_empty relative)
      && not (text_eq relative (text ".."))
      && not (starts_with relative (text "../"))

  unfoldable pub normalize_git_source : Bytes → Bytes → Bytes
  unfolding looks_like_remote_git_source
  normalize_git_source source package_dir =
      if looks_like_remote_git_source source
      then source
      else if is_absolute source
      then canonical source
      else canonical (append package_dir source)

  unfoldable pub snapshot_relative_key : SourceOrigin → Bytes → Result Bytes
  snapshot_relative_key origin package_dir = do
    root ← value origin.snapshot_root
    let key : Bytes = lexically_relative (canonical package_dir) (canonical root)
    ok (if is_empty key then text "." else key)

  fingerprint_of : SourceKind → SourceOrigin → Bytes → Result Bytes
  unfolding snapshot_relative_key source_kind_string
  fingerprint_of k_git origin package_dir = do
    source ← value origin.git_source
    rev ← value origin.git_rev
    key ← snapshot_relative_key origin package_dir
    ok (text "git:" ++ source ++ b'#' ∷ rev ++ b':' ∷ key)
  fingerprint_of k_registry origin package_dir = do
    root ← value origin.registry_root
    sha256 ← value origin.registry_sha256
    key ← snapshot_relative_key origin package_dir
    ok (text "registry:" ++ root ++ b'#' ∷ sha256 ++ b':' ∷ key)
  fingerprint_of k_workspace origin package_dir = ok (text "workspace:" ++ canonical package_dir)
  fingerprint_of k_path origin package_dir = ok (text "path:" ++ canonical package_dir)

  unfoldable pub build_source_fingerprint : SourceOrigin → Bytes → Result Bytes
  unfolding fingerprint_of
  build_source_fingerprint origin package_dir = fingerprint_of origin.kind origin package_dir
