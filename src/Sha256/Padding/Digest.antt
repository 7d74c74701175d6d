-- ===== src/Sha256/Padding/Digest.antt =====
-- src/PafioCore/Sha256.cpp: the digest of a text by the padded message.
use spio.Prelude.{
  ℕ, ◌+◌, ◌*◌, ◌%◌, ◌^◌, ◌≤◌, ◌<◌, Bytes, [], ◌++◌, ltb, Bool-cases, length, ok, ◌≡◌, ◌∙◌, inl, inr,
  refl, sym, ap, arith,
}
use spio.Sha256.{
  Words, Sha256, close_block, last_block, words_of, hex_words, final_hex, initial, sha256_text,
}
use spio.Sha256.Pieces.{absorb_all, with_total, update_lem, initial-IsReady}
use spio.Sha256.Padding.{hash_message, padding, padded}
use spio.Sha256.Padding.Holds.{Holds, absorb_all-Holds}
use spio.Sha256.Padding.Finish.{tail_of, finish_one, finish_two}

final_hex-Holds :
    (s : Sha256) (w : Words) (p : Bytes)
    → Holds s w p
    → final_hex s
      ≡ hex_words (words_of (hash_message w (p ++ tail_of (length p) (s.total_size * 8 % 2 ^ 64))))
unfolding final_hex close_block last_block
final_hex-Holds s w p h =
    let bits : ℕ = s.total_size * 8 % 2 ^ 64 in
    elim (Bool-cases (ltb 56 (s.buffer_size + 1))) [
      | inl e ↦
          let over : 56 < length p + 1 = ground (arith, e, h.size) in
          rw e (ap (λ v. hex_words (words_of v)) (finish_two s w p bits h over))
      | inr e ↦
          let fits : length p + 1 ≤ 56 = ground (arith, e, h.size) in
          rw e (ap (λ v. hex_words (words_of v)) (finish_one s w p bits h fits))
    ]

initial-Holds : (n : ℕ) → Holds (with_total n initial) initial.state []
unfolding initial
initial-Holds n = record {
  chained = refl;
  size = refl;
  room = omega arith;
  capacity = refl;
  kept = refl;
}

Holds-with_total :
    (n : ℕ) (s : Sha256) (w : Words) (p : Bytes) → Holds s w p → Holds (with_total n s) w p
Holds-with_total n s w p h = record {
  chained = h.chained;
  size = h.size;
  room = h.room;
  capacity = h.capacity;
  kept = h.kept;
}

bits_lem : (n : ℕ) → (0 + n) % 2 ^ 64 * 8 % 2 ^ 64 ≡ n * 8 % 2 ^ 64
bits_lem n = omega arith

-- The message with its padding, in blocks of 64 bytes, each through `Transform`.
pub sha256_text-padded :
    (m : Bytes) → sha256_text m ≡ ok (hex_words (words_of (hash_message initial.state (padded m))))
unfolding sha256_text padding initial
sha256_text-padded m =
    let n : ℕ = (initial.total_size + length m) % 2 ^ 64 in
    let f = absorb_all-Holds initial initial.state [] m (initial-Holds initial.total_size) in
    let done =
      final_hex-Holds (with_total n (absorb_all initial m)) f.v f.q
        (Holds-with_total n (absorb_all initial m) f.v f.q f.holds) in
    let bits : n * 8 % 2 ^ 64 ≡ length m * 8 % 2 ^ 64 = bits_lem (length m) in
    let size : length f.q ≡ length m % 64 = omega (arith, f.counted) in
    rw (update_lem initial m (initial-IsReady.0)) (
      ap ok (
        done
        ∙ rw (size, bits) (ap (λ v. hex_words (words_of v)) (sym (f.same (padding (length m)))))))
