-- ===== src/Patterns.antt =====
-- The regular expressions that PafioManifest and PafioWorkflow match whole texts against
-- (std::regex_match), each a row of character classes, single or repeated.
pub mod Names
use spio.Prelude.{
  ℕ, Bytes, Bool, true, false, ◌&&◌, ◌||◌, List, [], ◌∷◌, ◌++◌, leb, ◌==◌, replicate,
}

pub data Item : Type 0 where
  one : (ℕ → Bool) → Item
  -- `[…]*`
  many : (ℕ → Bool) → Item

-- The whole text matches. A branch is tried only where its class holds.
unfoldable pub regex_match : List Item → Bytes → Bool
regex_match [] [] = true
regex_match [] (c ∷ s) = false
regex_match (one p ∷ r) [] = false
regex_match (one p ∷ r) (c ∷ s) = elim (p c) [ true ↦ regex_match r s | false ↦ false ]
regex_match (many p ∷ r) [] = regex_match r []
regex_match (many p ∷ r) (c ∷ s) =
    let here = regex_match r (c ∷ s) in
    elim (p c) [ true ↦ here || regex_match (many p ∷ r) s | false ↦ here ]

abbrev pub within : ℕ → ℕ → ℕ → Bool
within lo hi c = leb lo c && leb c hi

unfoldable pub is_digit : ℕ → Bool
is_digit c = within b'0' b'9' c

-- `[a-z0-9]`
unfoldable pub is_lower_or_digit : ℕ → Bool
unfolding is_digit
is_lower_or_digit c = within b'a' b'z' c || is_digit c

-- `[a-z0-9_-]`
unfoldable pub is_name_char : ℕ → Bool
unfolding is_lower_or_digit
is_name_char c = is_lower_or_digit c || c == b'_' || c == b'-'

-- `[A-Za-z0-9_-]`
unfoldable pub is_bare_key_char : ℕ → Bool
unfolding is_name_char
is_bare_key_char c = within b'A' b'Z' c || is_name_char c

-- `[0-9a-f]`
unfoldable pub is_lower_hex : ℕ → Bool
unfolding is_digit
is_lower_hex c = is_digit c || within b'a' b'f' c

abbrev pub is_char : ℕ → ℕ → Bool
is_char d c = c == d

-- `^[a-z0-9][a-z0-9_-]*/[a-z0-9][a-z0-9_-]*$`
unfoldable pub name_regex : List Item
name_regex =
    one is_lower_or_digit
    ∷ many is_name_char
    ∷ one (is_char b'/')
    ∷ one is_lower_or_digit
    ∷ many is_name_char
    ∷ []

-- `^\d+\.\d+\.\d+$`
unfoldable pub semver_regex : List Item
semver_regex =
    one is_digit
    ∷ many is_digit
    ∷ one (is_char b'.')
    ∷ one is_digit
    ∷ many is_digit
    ∷ one (is_char b'.')
    ∷ one is_digit
    ∷ many is_digit
    ∷ []

-- `^[0-9a-f]{64}$`
unfoldable pub sha256_regex : List Item
sha256_regex = replicate 64 (one is_lower_hex)

-- `^[A-Za-z0-9_-]+$`
unfoldable pub bare_key_regex : List Item
bare_key_regex = one is_bare_key_char ∷ many is_bare_key_char ∷ []
