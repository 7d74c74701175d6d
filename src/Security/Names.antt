-- ===== src/Security/Names.antt =====
-- src/PafioSecurity/RegistrySecurity.cpp: package names and digests beside the patterns for them.
use spio.Prelude.{
  ℕ, Bytes, Bool, true, false, ◌&&◌, [], ◌∷◌, Option, none, some, is_ok, ◌≡◌, refl, arith, ◌==◌,
  Bool-cases, Option-cases, inl, inr,
}
use spio.Patterns.{
  regex_match, is_lower_or_digit, is_name_char, is_lower_hex, name_regex, sha256_regex,
}
use spio.Patterns.Names.{all_in, is_segment, after_slash, match-name_regex, match-sha256_regex}
use spio.Security.{
  all_safe, is_safe_package_segment, split_at_slash, has_byte, check_parts,
  RegistryPackageNameParts, split_registry_package_name, all_hex, is_registry_sha256_digest,
}

all_safe-eq-all_in : (s : Bytes) → all_safe s ≡ all_in is_name_char s
unfolding all_safe all_in is_name_char
all_safe-eq-all_in [] = refl
all_safe-eq-all_in (c ∷ s) = ground (arith, all_safe-eq-all_in s)

safe-eq-segment : (s : Bytes) → is_safe_package_segment s ≡ is_segment s
unfolding is_safe_package_segment is_segment all_in is_name_char
safe-eq-segment [] = refl
safe-eq-segment (c ∷ s) = ground (arith, all_safe-eq-all_in s)

segment-no-slash : (s : Bytes) → all_in is_name_char s ≡ true → has_byte b'/' s ≡ false
unfolding has_byte all_in is_name_char
segment-no-slash [] h = refl
segment-no-slash (c ∷ s) h = ground (arith, segment-no-slash s)

is_segment-no-slash : (s : Bytes) → is_segment s ≡ true → has_byte b'/' s ≡ false
unfolding has_byte is_segment is_lower_or_digit
is_segment-no-slash [] h = refl
is_segment-no-slash (c ∷ s) h = ground (arith, segment-no-slash s)

accepts : Option RegistryPackageNameParts → Bool
accepts none = false
accepts (some p) = all_in is_name_char p.namespace_name && is_segment p.short_name

-- Behind the first byte, the pattern and the split at the first slash agree.
after_slash-split : (s : Bytes) → after_slash s ≡ accepts (split_at_slash s)
unfolding after_slash split_at_slash all_in accepts
after_slash-split [] = refl
after_slash-split (c ∷ s) = ground (arith, after_slash-split s)

check-cons :
    (c : ℕ) (p : RegistryPackageNameParts)
    → (c == b'/') ≡ false
    → is_ok (check_parts (some (record p { namespace_name = c ∷ p.namespace_name })))
      ≡ (is_lower_or_digit c && accepts (some p))
unfolding check_parts accepts
check-cons c p n = ground (
  arith,
  safe-eq-segment (c ∷ p.namespace_name),
  safe-eq-segment p.short_name,
  is_segment-no-slash p.short_name,
  segment-cons c p.namespace_name,
)
  where
    segment-cons :
        (d : ℕ) (t : Bytes) → is_segment (d ∷ t) ≡ (is_lower_or_digit d && all_in is_name_char t)
    segment-cons d t = unfold is_segment in refl

check-empty :
    (s : Bytes)
    → is_ok (check_parts (some (record { namespace_name = []; short_name = s }))) ≡ false
unfolding check_parts is_safe_package_segment
check-empty s = ground arith

slash-not_lower : (c : ℕ) → (c == b'/') ≡ true → is_lower_or_digit c ≡ false
unfolding is_lower_or_digit
slash-not_lower c q = ground arith

-- The registry client accepts a package name just where it matches the pattern of package names
-- in manifests and lockfiles.
pub split_registry_package_name-eq-regex :
    (s : Bytes) → is_ok (split_registry_package_name s) ≡ regex_match name_regex s
unfolding split_registry_package_name split_at_slash
split_registry_package_name-eq-regex [] = unfold check_parts regex_match name_regex in refl
split_registry_package_name-eq-regex (c ∷ s) =
    let rest = after_slash-split s in
    elim (Bool-cases (c == b'/')) [
      | inl q ↦ ground (arith, check-empty s, slash-not_lower c q, match-name_regex c s)
      | inr q ↦ elim (Option-cases (split_at_slash s)) [
        | inl n ↦
            rw match-name_regex
              (rw (q, n, split_at_slash) (unfold check_parts accepts in ground (arith, rest, n)))
        | inr (p, n) ↦
            rw match-name_regex (rw (q, n, split_at_slash) (rw rest (rw n (check-cons c p q))))
      ]
    ]

all_hex-eq-all_in : (s : Bytes) → all_hex s ≡ all_in is_lower_hex s
unfolding all_hex all_in is_lower_hex
all_hex-eq-all_in [] = refl
all_hex-eq-all_in (c ∷ s) = ground (arith, all_hex-eq-all_in s)

-- The digest test of the registry client is the digest pattern of lockfiles.
pub is_registry_sha256_digest-eq-regex :
    (s : Bytes) → is_registry_sha256_digest s ≡ regex_match sha256_regex s
unfolding is_registry_sha256_digest
is_registry_sha256_digest-eq-regex s = rw match-sha256_regex (ground (arith, all_hex-eq-all_in s))
