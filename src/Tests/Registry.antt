-- ===== src/Tests/Registry.antt =====
-- Tests: registry security.
use spio.Prelude.{
  ℕ, text, text_eq, starts_with, join, is_ok, false, none, some, [], ◌++◌, ok, err, fetch_error,
  publish_error, ◌≡◌, refl, replicate,
}
use spio.Patterns.{regex_match, name_regex, sha256_regex}
use spio.Security.{
  normalize_registry_root, ends_with_slash, has_byte, has_control, has_bad_part, split_posix_path,
  lexically_normal, split_registry_package_name, is_registry_sha256_digest,
  normalize_registry_object_path, is_http_registry_root, is_file_registry_root,
}
use spio.Security.Names.{split_registry_package_name-eq-regex, is_registry_sha256_digest-eq-regex}
use spio.Security.ObjectPath.{IsSafePath, normalize_registry_object_path-IsSafePath}
use spio.Security.Access.{
  RegistryWriteSecurityRequest, RegistryReadSecurityRequest,
  resolve_default_registry_write_security, resolve_default_registry_read_security,
}
use spio.Security.Access.Laws.{normalize_registry_root_lem, write_security_lem, read_security_lem}

split_registry_package_name-eq-regex_example :
    is_ok (split_registry_package_name (text "demo/app")) ≡ regex_match name_regex (text "demo/app")
split_registry_package_name-eq-regex_example =
    split_registry_package_name-eq-regex (text "demo/app")

is_registry_sha256_digest-eq-regex_example :
    is_registry_sha256_digest (text "ba78") ≡ regex_match sha256_regex (text "ba78")
is_registry_sha256_digest-eq-regex_example = is_registry_sha256_digest-eq-regex (text "ba78")

object_path_lem : normalize_registry_object_path (text "a/b") ≡ ok (text "a/b")
unfolding normalize_registry_object_path ends_with_slash has_byte starts_with has_control
    has_bad_part split_posix_path text_eq lexically_normal join
object_path_lem = refl

normalize_registry_object_path-IsSafePath_example :
    (text "a/b" ≡ text "a/b") × IsSafePath (text "a/b")
normalize_registry_object_path-IsSafePath_example =
    normalize_registry_object_path-IsSafePath (text "a/b") object_path_lem

normalize_registry_root_lem_example :
    (ends_with_slash (normalize_registry_root (text "http://r//")) ≡ false)
    × ((n : ℕ) × (text "http://r//"
          ≡ normalize_registry_root (text "http://r//") ++ replicate n b'/'))
normalize_registry_root_lem_example = normalize_registry_root_lem (text "http://r//")

abbrev hooked : RegistryWriteSecurityRequest
hooked = record {
  registry_root = text "http://r";
  profile_name = some (text "ci");
  policy_file = none;
  explicit_request_headers = [];
}

write_security_lem_example : resolve_default_registry_write_security hooked ≡ err publish_error
unfolding is_http_registry_root normalize_registry_root starts_with
write_security_lem_example = write_security_lem hooked

abbrev ftp : RegistryReadSecurityRequest
ftp = record { registry_root = text "ftp://r"; offline = false }

read_security_lem_example : resolve_default_registry_read_security ftp ≡ err fetch_error
unfolding is_file_registry_root is_http_registry_root normalize_registry_root starts_with
read_security_lem_example = read_security_lem ftp
