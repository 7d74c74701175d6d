-- ===== src/Patterns/Names.antt =====
-- What the patterns for names and digests accept.
use spio.Prelude.{
  ℕ, zero, suc, Bytes, Bool, true, false, not, ◌&&◌, ◌||◌, [], ◌∷◌, if◌then◌else◌, ◌==◌, replicate,
  ◌≡◌, refl, arith, length,
}
use spio.Patterns.{
  one, many, regex_match, is_lower_or_digit, is_name_char, name_regex, sha256_regex, is_lower_hex,
  is_char, is_digit,
}

-- Every byte of the text is in the class.
unfoldable pub all_in : (ℕ → Bool) → Bytes → Bool
all_in p [] = true
all_in p (c ∷ s) = p c && all_in p s

-- One or more bytes, the first of `[a-z0-9]` and all of `[a-z0-9_-]`.
unfoldable pub is_segment : Bytes → Bool
unfolding all_in
is_segment [] = false
is_segment (c ∷ s) = is_lower_or_digit c && all_in is_name_char s

match-many : (p : ℕ → Bool) (s : Bytes) → regex_match (many p ∷ []) s ≡ all_in p s
unfolding regex_match all_in
match-many p [] = refl
match-many p (c ∷ s) = ground (arith, match-many p s)

match-segment :
    (s : Bytes) → regex_match (one is_lower_or_digit ∷ many is_name_char ∷ []) s ≡ is_segment s
unfolding regex_match is_segment
match-segment [] = refl
match-segment (c ∷ s) = ground (arith, match-many is_name_char s)

-- What stands behind the first slash; the text has none otherwise.
unfoldable pub after_slash : Bytes → Bool
after_slash [] = false
after_slash (c ∷ s) = if c == b'/' then is_segment s else is_name_char c && after_slash s

-- `[0-9a-f]{n}` is a text of `n` such bytes.
match-replicate :
    (n : ℕ) (p : ℕ → Bool) (s : Bytes)
    → regex_match (replicate n (one p)) s ≡ (length s == n && all_in p s)
unfolding regex_match all_in
match-replicate zero p [] = refl
match-replicate zero p (c ∷ s) = ground arith
match-replicate (suc n) p [] = ground arith
match-replicate (suc n) p (c ∷ s) = ground (arith, match-replicate n p s)

is_name_char-not_slash : (c : ℕ) → is_name_char c ≡ true → (c == b'/') ≡ false
unfolding is_name_char
is_name_char-not_slash c h = ground arith

||-false : (b : Bool) → (b || false) ≡ b
||-false true = refl
||-false false = refl

match-rest :
    (s : Bytes)
    → regex_match
        (many is_name_char ∷ one (is_char b'/') ∷ one is_lower_or_digit ∷ many is_name_char ∷ [])
        s
      ≡ after_slash s
unfolding regex_match after_slash
match-rest [] = refl
match-rest (c ∷ s) =
    ground (arith, match-rest s, match-segment s, is_name_char-not_slash c, ||-false (is_segment s))

-- The name pattern, read off a text from the left: a first byte of `[a-z0-9]`, bytes of
-- `[a-z0-9_-]` up to a slash, and a segment behind it.
pub match-name_regex :
    (c : ℕ) (s : Bytes) → regex_match name_regex (c ∷ s) ≡ (is_lower_or_digit c && after_slash s)
unfolding regex_match name_regex
match-name_regex c s = ground (arith, match-rest s)

-- The digest pattern accepts the texts of 64 bytes of `[0-9a-f]`.
pub match-sha256_regex :
    (s : Bytes) → regex_match sha256_regex s ≡ (length s == 64 && all_in is_lower_hex s)
unfolding sha256_regex
match-sha256_regex s = match-replicate 64 is_lower_hex s

-- A name has no byte outside of `[a-z0-9_/-]`, no `@` for one.
abbrev pub not_at : ℕ → Bool
not_at c = not (c == b'@')

segment-no_at : (s : Bytes) → all_in is_name_char s ≡ true → all_in not_at s ≡ true
unfolding all_in is_name_char is_lower_or_digit is_digit
segment-no_at [] h = refl
segment-no_at (c ∷ s) h = ground (arith, segment-no_at s)

is_segment-no_at : (s : Bytes) → is_segment s ≡ true → all_in not_at s ≡ true
unfolding is_segment all_in is_lower_or_digit is_digit
is_segment-no_at [] h = refl
is_segment-no_at (c ∷ s) h = ground (arith, segment-no_at s)

after_slash-no_at : (s : Bytes) → after_slash s ≡ true → all_in not_at s ≡ true
unfolding after_slash all_in is_name_char is_lower_or_digit is_digit
after_slash-no_at [] h = refl
after_slash-no_at (c ∷ s) h = ground (arith, after_slash-no_at s, is_segment-no_at s)

pub name-no_at : (s : Bytes) → regex_match name_regex s ≡ true → all_in not_at s ≡ true
unfolding all_in is_lower_or_digit is_digit
name-no_at [] h = refl
name-no_at (c ∷ s) h = ground (arith, match-name_regex c s, after_slash-no_at s)
