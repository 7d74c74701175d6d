-- ===== src/Sha256/Standard/Agrees.antt =====
-- src/PafioCore/Sha256.cpp: every part of the compression is that of the standard.
use spio.Prelude.{
  ℕ, zero, suc, ◌/◌, ◌%◌, ◌^◌, Bytes, List, [], ◌∷◌, ◌++◌, length, take, drop, ok, ◌≡◌, ◌∙◌, refl,
  ap, arith,
}
use spio.Sha256.{
  Words, constants, initial, add32, rotate_right, ch, maj, big_sigma0, big_sigma1, small_sigma0,
  small_sigma1, at, load_words, extend_words, reverse_onto, round, rounds, transform, hex_digit,
  hex, words_of, hex_words, sha256_text,
}
use spio.Sha256.Padding.{hash_blocks, hash_message, padded}
use spio.Sha256.Padding.Digest.{sha256_text-padded}
use spio.Sha256.Standard.{
  root_fraction, k_constants, h_initial, block_words, schedule, steps, step, in_order, sum_of,
  compress, compress_all, digit, digits, digest_of, standard_digest,
}

constants_lem : constants ≡ k_constants
unfolding constants k_constants root_fraction
constants_lem = refl

initial_lem : initial.state ≡ h_initial
unfolding initial h_initial root_fraction
initial_lem = refl

words_lem : (n : ℕ) (block : Bytes) (ws : List ℕ) → load_words n block ws ≡ block_words n block ws
unfolding load_words block_words at
words_lem zero block ws = refl
words_lem (suc n) block ws = words_lem n (drop 4 block) _

schedule_lem : (n : ℕ) (ws : List ℕ) → extend_words n ws ≡ schedule n ws
unfolding extend_words schedule at add32 small_sigma0 small_sigma1 rotate_right
schedule_lem zero ws = refl
schedule_lem (suc n) ws = schedule_lem n _

order_lem : (ws out : List ℕ) → reverse_onto ws out ≡ in_order ws out
unfolding reverse_onto in_order
order_lem [] out = refl
order_lem (w ∷ ws) out = order_lem ws (w ∷ out)

round_lem : (s : Words) (k w : ℕ) → round s k w ≡ step s k w
unfolding round add32 big_sigma0 big_sigma1 rotate_right ch maj
round_lem s k w = refl

rounds_lem : (s : Words) (ks ws : List ℕ) → rounds s ks ws ≡ steps s ks ws
unfolding rounds steps
rounds_lem s [] ws = refl
rounds_lem s (k ∷ ks) [] = refl
rounds_lem s (k ∷ ks) (w ∷ ws) = rw (round_lem s k w) (rounds_lem (step s k w) ks ws)

rounds_of_block :
    (s : Words) (block : Bytes)
    → rounds s constants (reverse_onto (extend_words 48 (load_words 16 block [])) [])
      ≡ steps s k_constants (in_order (schedule 48 (block_words 16 block [])) [])
rounds_of_block s block =
    rw
      (
        words_lem 16 block [],
        schedule_lem 48 (block_words 16 block []),
        order_lem (schedule 48 (block_words 16 block [])) [],
        constants_lem,
      )
      (rounds_lem s k_constants (in_order (schedule 48 (block_words 16 block [])) []))

transform_lem : (s : Words) (block : Bytes) → transform s block ≡ compress s block
unfolding transform compress
transform_lem s block = ap (sum_of s) (rounds_of_block s block)

blocks_lem : (n : ℕ) (s : Words) (m : Bytes) → hash_blocks n s m ≡ compress_all n s m
unfolding hash_blocks compress_all
blocks_lem zero s m = refl
blocks_lem (suc n) s m =
    rw (transform_lem s (take 64 m)) (blocks_lem n (compress s (take 64 m)) (drop 64 m))

digit_lem : (d : ℕ) → hex_digit d ≡ digit d
digit_lem d = ground arith

both :
    (a b c d e f g h : ℕ)
    → ◌≡◌ {A = Bytes}
        (hex_digit a
          ∷ hex_digit b
          ∷ hex_digit c
          ∷ hex_digit d
          ∷ hex_digit e
          ∷ hex_digit f
          ∷ hex_digit g
          ∷ hex_digit h
          ∷ [])
        (digit a ∷ digit b ∷ digit c ∷ digit d ∷ digit e ∷ digit f ∷ digit g ∷ digit h ∷ [])
both a b c d e f g h =
    rw
      (
        digit_lem a,
        digit_lem b,
        digit_lem c,
        digit_lem d,
        digit_lem e,
        digit_lem f,
        digit_lem g,
        digit_lem h,
      )
      refl

hex_lem : (w : ℕ) → hex 8 w ≡ digits w
unfolding hex
hex_lem w =
    let e7 : w / 16 / 16 / 16 / 16 / 16 / 16 / 16 ≡ w / 16 ^ 7 = omega arith in
    let e6 : w / 16 / 16 / 16 / 16 / 16 / 16 ≡ w / 16 ^ 6 = omega arith in
    let e5 : w / 16 / 16 / 16 / 16 / 16 ≡ w / 16 ^ 5 = omega arith in
    let e4 : w / 16 / 16 / 16 / 16 ≡ w / 16 ^ 4 = omega arith in
    let e3 : w / 16 / 16 / 16 ≡ w / 16 ^ 3 = omega arith in
    let e2 : w / 16 / 16 ≡ w / 16 ^ 2 = omega arith in
    rw (e7, e6, e5, e4, e3, e2)
      (both (w / 16 ^ 7 % 16) (w / 16 ^ 6 % 16) (w / 16 ^ 5 % 16) (w / 16 ^ 4 % 16)
        (w / 16 ^ 3 % 16) (w / 16 ^ 2 % 16) (w / 16 % 16) (w % 16))

digest_lem : (ws : List ℕ) → hex_words ws ≡ digest_of ws
unfolding hex_words digest_of
digest_lem [] = refl
digest_lem (w ∷ ws) =
    ap (λ front. front ++ hex_words ws) (hex_lem w) ∙ ap (λ rest. digits w ++ rest) (digest_lem ws)

-- The digest of a text is that of FIPS 180-4: the message with its padding, in blocks of 64 bytes,
-- each compressed with the constants that the roots of the primes give, from the initial value that
-- they give, in hexadecimal. It holds of every text, with the length counted modulo 2 ^ 64 bits.
pub sha256_text-standard : (m : Bytes) → sha256_text m ≡ ok (standard_digest m)
unfolding standard_digest
sha256_text-standard m =
    let n : ℕ = length (padded m) / 64 in
    sha256_text-padded m
    ∙ ap ok (
        digest_lem (words_of (hash_message initial.state (padded m)))
        ∙ ap (λ s. digest_of (words_of s))
            (blocks_lem n initial.state (padded m)
              ∙ ap (λ s. compress_all n s (padded m)) initial_lem))
