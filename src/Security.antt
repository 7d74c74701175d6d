-- ===== src/Security.antt =====
-- src/PafioSecurity/RegistrySecurity.cpp: names, object paths and digests of a registry, and the
-- chains of handlers that decide on access to it.
pub mod Access
pub mod Names
pub mod ObjectPath
use spio.Prelude.{
  ℕ, ◌<◌, Bytes, text, text_eq, starts_with, is_empty, join, Bool, true, false, ◌&&◌, ◌||◌, not,
  List, [], ◌∷◌, ◌++◌, Option, none, some, Result, ok, err, ◌>>=◌, ◌>>◌, require, throw_if,
  fetch_error, publish_error, logic_error, if◌then◌else◌, has_value, length, ◌==◌, ltb, leb,
}
use mathlib.Core.List.{reverse}
use spio.Patterns.{is_digit, is_lower_or_digit}

-- `while (value.back() == '/') pop_back()`: what is left of a text whose rest is `rest`
unfoldable pub normalize_registry_root : Bytes → Bytes
normalize_registry_root [] = []
normalize_registry_root (c ∷ s) =
    let rest = normalize_registry_root s in if c == b'/' && is_empty rest then [] else c ∷ rest

unfoldable pub is_http_registry_root : Bytes → Bool
is_http_registry_root value =
    starts_with value (text "http://") || starts_with value (text "https://")

unfoldable pub is_file_registry_root : Bytes → Bool
is_file_registry_root value = starts_with value (text "file://")

-- `std::getline` with '/': the parts between slashes. A text that ends with a slash has no empty
-- last part, and the empty text has no part.
put_front : ℕ → List Bytes → List Bytes
put_front c [] = (c ∷ []) ∷ []
put_front c (p ∷ ps) = (c ∷ p) ∷ ps

unfoldable pub split_posix_path : Bytes → List Bytes
unfolding put_front
split_posix_path [] = []
split_posix_path (c ∷ s) =
    if c == b'/' then [] ∷ split_posix_path s else put_front c (split_posix_path s)

all_safe : Bytes → Bool
all_safe [] = true
all_safe (c ∷ s) = (is_lower_or_digit c || c == b'-' || c == b'_') && all_safe s

unfoldable pub is_safe_package_segment : Bytes → Bool
unfolding all_safe
is_safe_package_segment [] = false
is_safe_package_segment (c ∷ s) = is_lower_or_digit c && all_safe (c ∷ s)

pub record RegistryPackageNameParts : Type 0 where
  pub namespace_name : Bytes
  pub short_name : Bytes

-- `find('/')` with the two `substr` calls: what stands before and behind the first slash
unfoldable pub split_at_slash : Bytes → Option RegistryPackageNameParts
split_at_slash [] = none
split_at_slash (c ∷ s) =
    if c == b'/'
    then some (record { namespace_name = []; short_name = s })
    else elim (split_at_slash s) [
      | none ↦ none
      | some p ↦ some (record { namespace_name = c ∷ p.namespace_name; short_name = p.short_name })
    ]

unfoldable pub has_byte : ℕ → Bytes → Bool
has_byte d [] = false
has_byte d (c ∷ s) = c == d || has_byte d s

check_parts : Option RegistryPackageNameParts → Result RegistryPackageNameParts
check_parts none = err fetch_error
check_parts (some p) = do
  throw_if (has_byte b'/' p.short_name) fetch_error
  throw_if
      (not (is_safe_package_segment p.namespace_name) || not (is_safe_package_segment p.short_name))
      fetch_error
  ok p

-- The first slash is the last one just where none stands behind it.
unfoldable pub split_registry_package_name : Bytes → Result RegistryPackageNameParts
unfolding check_parts
split_registry_package_name package_name = check_parts (split_at_slash package_name)

unfoldable pub ends_with_slash : Bytes → Bool
ends_with_slash [] = false
ends_with_slash (c ∷ []) = c == b'/'
ends_with_slash (c ∷ d ∷ s) = ends_with_slash (d ∷ s)

unfoldable pub has_control : Bytes → Bool
has_control [] = false
has_control (c ∷ s) = ltb c 32 || has_control s

abbrev dot : Bytes
dot = text "."

abbrev dot_dot : Bytes
dot_dot = text ".."

unfoldable pub has_bad_part : List Bytes → Bool
has_bad_part [] = false
has_bad_part (p ∷ ps) = (is_empty p || text_eq p dot || text_eq p dot_dot) || has_bad_part ps

-- std::filesystem::path::lexically_normal of a relative path with no slash at its end: parts that
-- are empty or a dot go away, and two dots take the part in front of them along.
pop_part : List Bytes → List Bytes
pop_part [] = dot_dot ∷ []
pop_part (p ∷ ps) = if text_eq p dot_dot then dot_dot ∷ p ∷ ps else ps

normal_parts : List Bytes → List Bytes → List Bytes
normal_parts out [] = reverse out
normal_parts out (p ∷ ps) =
    normal_parts
      (if is_empty p || text_eq p dot
        then out
        else if text_eq p dot_dot
        then pop_part out
        else p ∷ out)
      ps

or_dot : List Bytes → Bytes
or_dot [] = dot
or_dot (p ∷ ps) = join (text "/") (p ∷ ps)

unfoldable pub lexically_normal : Bytes → Bytes
unfolding pop_part normal_parts or_dot
lexically_normal path = or_dot (normal_parts [] (split_posix_path path))

-- `path.is_absolute()` is a slash in front, on a POSIX system.
unfoldable pub normalize_registry_object_path : Bytes → Result Bytes
normalize_registry_object_path relative_path = do
  throw_if (is_empty relative_path || ends_with_slash relative_path) fetch_error
  throw_if (has_byte b'\\' relative_path || starts_with relative_path (text "/")) fetch_error
  throw_if (has_control relative_path) fetch_error
  throw_if (starts_with relative_path (text "/")) fetch_error
  throw_if (has_bad_part (split_posix_path relative_path)) fetch_error
  let normalized = lexically_normal relative_path
  throw_if
      (is_empty normalized
        || text_eq normalized dot
        || text_eq normalized dot_dot
        || starts_with normalized (text "../"))
      fetch_error
  ok normalized

all_hex : Bytes → Bool
all_hex [] = true
all_hex (c ∷ s) = not (not (is_digit c) && (ltb c b'a' || ltb b'f' c)) && all_hex s

unfoldable pub is_registry_sha256_digest : Bytes → Bool
unfolding all_hex
is_registry_sha256_digest value = if not (length value == 64) then false else all_hex value
