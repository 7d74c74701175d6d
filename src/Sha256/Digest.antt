-- ===== src/Sha256/Digest.antt =====
-- src/PafioCore/Sha256.cpp: the form of the text that `FinalHex` writes.
use spio.Prelude.{
  ℕ, zero, suc, ◌+◌, ◌/◌, ◌%◌, ◌^◌, ◌<◌, ◌*◌, Bytes, Bool, true, ◌&&◌, List, [], ◌∷◌, ◌++◌, length,
  set, length-append, ok, ◌≡◌, refl, arith,
}
use spio.Patterns.{regex_match, sha256_regex, is_lower_hex}
use spio.Patterns.Names.{all_in, match-sha256_regex}
use spio.Sha256.{
  Sha256, words_of, last_block, close_block, hex_digit, hex, hex_words, final_hex, sha256_text,
  initial,
}
use spio.Sha256.Pieces.{update_lem, with_total, absorb_all, initial-IsReady}

all_in-append : (p : ℕ → Bool) (s t : Bytes) → all_in p (s ++ t) ≡ (all_in p s && all_in p t)
unfolding all_in
all_in-append p [] t = refl
all_in-append p (c ∷ s) t = ground (arith, all_in-append p s t)

hex_digit-is_lower_hex : (d : ℕ) → d < 16 → is_lower_hex (hex_digit d) ≡ true
unfolding is_lower_hex
hex_digit-is_lower_hex d h = ground arith

all_in-hex : (n w : ℕ) → all_in is_lower_hex (hex n w) ≡ true
unfolding hex all_in
all_in-hex zero w = refl
all_in-hex (suc n) w =
    rw
      (
        all_in-append is_lower_hex (hex n (w / 16)) (hex_digit (w % 16) ∷ []),
        all_in-hex n (w / 16),
        hex_digit-is_lower_hex (w % 16) (omega arith),
      )
      refl

length-hex : (n w : ℕ) → length (hex n w) ≡ n
unfolding hex
length-hex zero w = refl
length-hex (suc n) w =
    omega (arith, length-append (hex n (w / 16)) (hex_digit (w % 16) ∷ []), length-hex n (w / 16))

all_in-hex_words : (ws : List ℕ) → all_in is_lower_hex (hex_words ws) ≡ true
unfolding hex_words all_in
all_in-hex_words [] = refl
all_in-hex_words (w ∷ ws) =
    rw (all_in-append is_lower_hex (hex 8 w) (hex_words ws), all_in-hex 8 w, all_in-hex_words ws)
      refl

length-hex_words : (ws : List ℕ) → length (hex_words ws) ≡ 8 * length ws
unfolding hex_words
length-hex_words [] = omega arith
length-hex_words (w ∷ ws) =
    omega (arith, length-append (hex 8 w) (hex_words ws), length-hex 8 w, length-hex_words ws)

hex_words-matches : (ws : List ℕ) → length ws ≡ 8 → regex_match sha256_regex (hex_words ws) ≡ true
hex_words-matches ws h =
    rw (match-sha256_regex (hex_words ws), length-hex_words ws, h, all_in-hex_words ws) refl

final_hex-matches : (s : Sha256) → regex_match sha256_regex (final_hex s) ≡ true
unfolding final_hex
final_hex-matches s =
    hex_words-matches
      (words_of
        (last_block s (close_block s.state (set s.buffer s.buffer_size 0x80) (s.buffer_size + 1))))
      refl

-- Hashing a text ends, with a digest of 64 lower-case hexadecimal digits.
pub sha256_text-matches :
    (bytes : Bytes)
    → (digest : Bytes) × (sha256_text bytes ≡ ok digest) × (regex_match sha256_regex digest ≡ true)
unfolding sha256_text
sha256_text-matches bytes =
    let e = update_lem initial bytes initial-IsReady.0 in
    let s : Sha256 =
      with_total ((initial.total_size + length bytes) % 2 ^ 64) (absorb_all initial bytes) in
    (final_hex s, rw e refl, final_hex-matches s)
