-- ===== src/Sha256/Padding.antt =====
-- src/PafioCore/Sha256.cpp against FIPS 180-4: the message with its padding, hashed in blocks of 64
-- bytes, and what the steps of the code write into a block. The compression of a block is
-- `Transform` on both sides.
pub mod Holds
pub mod Finish
pub mod Digest
use mathlib.Core.List.{append_assoc, append-nil}
use spio.Prelude.{
  ℕ, zero, suc, ◌+◌, ◌-◌, ◌*◌, ◌/◌, ◌%◌, ◌^◌, ◌≤◌, ◌<◌, Bytes, List, [], ◌∷◌, ◌++◌, if◌then◌else◌,
  ltb, Bool, Bool-cases, true, false, ◌==◌, ==_iff, length, set, take, drop, replicate,
  length-append, length-set, ok, ◌≡◌, ◌≢◌, ◌∙◌, inl, inr, refl, sym, ap, arith,
}
use spio.Sha256.{
  Words, Sha256, transform, copy_at, flush, zeros_from, put_length, close_block, last_block,
  words_of, hex_words, final_hex, initial, sha256_text,
}
use spio.Sha256.Pieces.{absorb, absorb_all, with_total, update_lem, initial-IsReady}

-- The message in blocks of 64 bytes, from a chaining value on.
unfoldable pub hash_blocks : ℕ → Words → Bytes → Words
hash_blocks zero w m = w
hash_blocks (suc n) w m = hash_blocks n (transform w (take 64 m)) (drop 64 m)

abbrev pub hash_message : Words → Bytes → Words
hash_message w m = hash_blocks (length m / 64) w m

-- the `n` lowest bytes of a number, the lowest last
unfoldable pub big_endian : ℕ → ℕ → Bytes
big_endian zero bits = []
big_endian (suc n) bits = bits / 2 ^ (n * 8) % 256 ∷ big_endian n bits

-- A bit 1, then the least number of bits 0 that leaves room for the length in a multiple of 64
-- bytes, then the length in bits.
unfoldable pub padding : ℕ → Bytes
unfolding big_endian
padding n = 0x80 ∷ (replicate ((119 - n % 64) % 64) 0 ++ big_endian 8 (n * 8 % 2 ^ 64))

abbrev pub padded : Bytes → Bytes
padded m = m ++ padding (length m)

pub take-set : (b : Bytes) (n x : ℕ) → n < length b → take (n + 1) (set b n x) ≡ take n b ++ x ∷ []
take-set [] n x h = absurd (omega (arith, h))
take-set (y ∷ b) zero x h = refl
take-set (y ∷ b) (suc n) x h =
    let e : suc n + 1 ≡ suc (n + 1) = omega arith in
    rw e (ap (◌∷◌ y) (take-set b n x (omega (arith, h))))

pub take-length : (b : Bytes) → take (length b) b ≡ b
take-length [] = refl
take-length (x ∷ b) = ap (◌∷◌ x) (take-length b)

pub take-append : (xs ys : Bytes) → take (length xs) (xs ++ ys) ≡ xs
take-append [] ys = refl
take-append (x ∷ xs) ys = ap (◌∷◌ x) (take-append xs ys)

pub drop-append : (xs ys : Bytes) → drop (length xs) (xs ++ ys) ≡ ys
drop-append [] ys = refl
drop-append (x ∷ xs) ys = drop-append xs ys

pub length-replicate : (n x : ℕ) → length (replicate n x) ≡ n
length-replicate zero x = refl
length-replicate (suc n) x = ap suc (length-replicate n x)

pub take-copy_at :
    (b : Bytes) (offset : ℕ) (xs : Bytes)
    → offset + length xs ≤ length b
    → take (offset + length xs) (copy_at b offset xs) ≡ take offset b ++ xs
unfolding copy_at
take-copy_at b offset [] h =
    let e : offset + 0 ≡ offset = omega arith in rw e (sym (append-nil (take offset b)))
take-copy_at b offset (x ∷ xs) h =
    let e : offset + suc (length xs) ≡ offset + 1 + length xs = omega arith in
    rw e (
      take-copy_at (set b offset x) (offset + 1) xs (omega (arith, h, length-set b offset x))
      ∙ ap (λ t. t ++ xs) (take-set b offset x (omega (arith, h)))
      ∙ append_assoc (take offset b) (x ∷ []) xs)

pub length-copy_at : (b : Bytes) (offset : ℕ) (xs : Bytes) → length (copy_at b offset xs) ≡ length b
unfolding copy_at
length-copy_at b offset [] = refl
length-copy_at b offset (x ∷ xs) =
    length-copy_at (set b offset x) (offset + 1) xs ∙ length-set b offset x

-- The length is written over the end of a block.
pub put_length_lem :
    (n bits : ℕ) (b : Bytes)
    → length b ≡ 64
    → n ≤ 8
    → put_length n bits b ≡ take (64 - n) b ++ big_endian n bits
unfolding put_length big_endian
put_length_lem zero bits b h k = sym (append-nil (take 64 b) ∙ rw (← h) (take-length b))
put_length_lem (suc n) bits b h k =
    let v : ℕ = bits / 2 ^ (n * 8) % 256 in
    let e : 64 - n ≡ 63 - n + 1 = omega (arith, k) in
    let f : 64 - suc n ≡ 63 - n = omega (arith, k) in
    put_length_lem n bits (set b (63 - n) v) (length-set b (63 - n) v ∙ h) (omega (arith, k))
    ∙ rw (e, f)
        (ap (λ t. t ++ big_endian n bits) (take-set b (63 - n) v (omega (arith, h)))
          ∙ append_assoc (take (63 - n) b) (v ∷ []) (big_endian n bits))

pub hash_blocks-suc :
    (n : ℕ) (w : Words) (m : Bytes)
    → hash_blocks (suc n) w m ≡ hash_blocks n (transform w (take 64 m)) (drop 64 m)
unfolding hash_blocks
hash_blocks-suc n w m = refl

-- One block is hashed.
pub hash_message-block :
    (w : Words) (q m : Bytes)
    → length q ≡ 64
    → hash_message w (q ++ m) ≡ hash_message (transform w q) m
hash_message-block w q m h =
    let n : length (q ++ m) / 64 ≡ suc (length m / 64) = omega (arith, length-append q m, h) in
    let front : take 64 (q ++ m) ≡ q = rw (← h) (take-append q m) in
    let back : drop 64 (q ++ m) ≡ m = rw (← h) (drop-append q m) in
    ap (λ k. hash_blocks k w (q ++ m)) n
    ∙ hash_blocks-suc (length m / 64) w (q ++ m)
    ∙ rw (front, back) refl
