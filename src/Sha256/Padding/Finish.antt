-- ===== src/Sha256/Padding/Finish.antt =====
-- src/PafioCore/Sha256.cpp, `FinalHex`: the last one or two blocks.
use mathlib.Core.List.{append_assoc, append-nil}
use spio.Prelude.{
  ℕ, zero, suc, ◌+◌, ◌-◌, ◌%◌, ◌≤◌, ◌<◌, Bytes, [], ◌∷◌, ◌++◌, length, set, take, replicate,
  length-append, length-set, ◌≡◌, ◌∙◌, refl, sym, ap, arith,
}
use spio.Sha256.{Words, Sha256, transform, zeros_from, put_length}
use spio.Sha256.Padding.{
  hash_blocks, hash_message, big_endian, take-length, length-replicate, take-copy_at,
  length-copy_at, put_length_lem, hash_message-block,
}
use spio.Sha256.Padding.Holds.{Holds, put_lem}

-- zeros behind the first bytes of a block
pub zero_fill :
    (b : Bytes) (lo hi : ℕ)
    → lo ≤ hi
    → hi ≤ length b
    → take hi (zeros_from b lo hi) ≡ take lo b ++ replicate (hi - lo) 0
unfolding zeros_from
zero_fill b lo hi h k =
    let zeros : Bytes = replicate (hi - lo) 0 in
    let e : lo + length zeros ≡ hi = omega (arith, length-replicate (hi - lo) 0, h) in
    rw e at (take-copy_at b lo zeros (omega (arith, e, k)))

pub length-zeros_from : (b : Bytes) (lo hi : ℕ) → length (zeros_from b lo hi) ≡ length b
unfolding zeros_from
length-zeros_from b lo hi = length-copy_at b lo (replicate (hi - lo) 0)

pub last_lem :
    (b : Bytes) (lo bits : ℕ)
    → length b ≡ 64
    → lo ≤ 56
    → put_length 8 bits (zeros_from b lo 56)
      ≡ (take lo b ++ replicate (56 - lo) 0) ++ big_endian 8 bits
last_lem b lo bits h k =
    put_length_lem 8 bits (zeros_from b lo 56) (length-zeros_from b lo 56 ∙ h) (omega arith)
    ∙ ap (λ t. t ++ big_endian 8 bits) (zero_fill b lo 56 k (omega (arith, h)))

pub replicate-add : (m n x : ℕ) → replicate (m + n) x ≡ replicate m x ++ replicate n x
replicate-add zero n x = let e : 0 + n ≡ n = omega arith in rw e refl
replicate-add (suc m) n x =
    let e : suc m + n ≡ suc (m + n) = omega arith in rw e (ap (◌∷◌ x) (replicate-add m n x))

pub length-big_endian : (n bits : ℕ) → length (big_endian n bits) ≡ n
unfolding big_endian
length-big_endian zero bits = refl
length-big_endian (suc n) bits = ap suc (length-big_endian n bits)

pub hash_message-one : (w : Words) (q : Bytes) → length q ≡ 64 → hash_message w q ≡ transform w q
unfolding hash_blocks
hash_message-one w q h = ap (hash_message w) (sym (append-nil q)) ∙ hash_message-block w q [] h

-- the bytes behind those of the last block, which holds `n`
abbrev pub tail_of : ℕ → ℕ → Bytes
tail_of n bits = 0x80 ∷ (replicate ((119 - n) % 64) 0 ++ big_endian 8 bits)

-- the block with the byte 0x80
pub marked :
    (s : Sha256) (w : Words) (p : Bytes)
    → Holds s w p
    → take (length p + 1) (set s.buffer s.buffer_size 0x80) ≡ p ++ 0x80 ∷ []
marked s w p h = rw (length-append p (0x80 ∷ [])) at (put_lem s w p 0x80 h)

pub finish_one :
    (s : Sha256) (w : Words) (p : Bytes) (bits : ℕ)
    → Holds s w p
    → length p + 1 ≤ 56
    → transform s.state
        (put_length 8 bits (zeros_from (set s.buffer s.buffer_size 0x80) (s.buffer_size + 1) 56))
      ≡ hash_message w (p ++ tail_of (length p) bits)
finish_one s w p bits h k =
    let b : Bytes = set s.buffer s.buffer_size 0x80 in
    let zeros : Bytes = replicate (56 - (length p + 1)) 0 in
    let ending : Bytes = big_endian 8 bits in
    let cap : length b ≡ 64 = length-set s.buffer s.buffer_size 0x80 ∙ h.capacity in
    let count : (119 - length p) % 64 ≡ 56 - (length p + 1) = omega (arith, k) in
    let block : put_length 8 bits (zeros_from b (s.buffer_size + 1) 56)
        ≡ p ++ 0x80 ∷ (zeros ++ ending) =
      rw h.size (
        last_lem (set s.buffer (length p) 0x80) (length p + 1) bits (rw h.size at cap) k
        ∙ rw (rw h.size at (marked s w p h)) (
            append_assoc (p ++ 0x80 ∷ []) zeros ending
            ∙ append_assoc p (0x80 ∷ []) (zeros ++ ending))) in
    let size : length (p ++ 0x80 ∷ (zeros ++ ending)) ≡ 64 = omega (
      arith,
      k,
      length-append p (0x80 ∷ (zeros ++ ending)),
      length-append zeros ending,
      length-replicate (56 - (length p + 1)) 0,
      length-big_endian 8 bits,
    ) in
    rw (h.chained, block, count) (sym (hash_message-one w (p ++ 0x80 ∷ (zeros ++ ending)) size))

pub finish_two :
    (s : Sha256) (w : Words) (p : Bytes) (bits : ℕ)
    → Holds s w p
    → 56 < length p + 1
    → transform
        (transform s.state (zeros_from (set s.buffer s.buffer_size 0x80) (s.buffer_size + 1) 64))
        (put_length 8 bits (zeros_from (replicate 64 0) 0 56))
      ≡ hash_message w (p ++ tail_of (length p) bits)
finish_two s w p bits h k =
    let b : Bytes = set s.buffer s.buffer_size 0x80 in
    let zeros : Bytes = replicate (64 - (length p + 1)) 0 in
    let ending : Bytes = replicate 56 0 ++ big_endian 8 bits in
    let cap : length b ≡ 64 = length-set s.buffer s.buffer_size 0x80 ∙ h.capacity in
    let filled : Bytes = zeros_from b (s.buffer_size + 1) 64 in
    let count : (119 - length p) % 64 ≡ 64 - (length p + 1) + 56 = omega (arith, k, h.room) in
    let first : filled ≡ (p ++ 0x80 ∷ []) ++ zeros =
      sym (take-length filled)
      ∙ rw (length-zeros_from b (s.buffer_size + 1) 64 ∙ cap) (
          zero_fill b (s.buffer_size + 1) 64 (omega (arith, h.size, h.room)) (omega (arith, cap))
          ∙ rw h.size (ap (λ t. t ++ zeros) (rw h.size at (marked s w p h)))) in
    let second : put_length 8 bits (zeros_from (replicate 64 0) 0 56) ≡ ending =
      last_lem (replicate 64 0) 0 bits refl (omega arith) in
    let size : length ((p ++ 0x80 ∷ []) ++ zeros) ≡ 64 = omega (
      arith,
      k,
      h.room,
      length-append (p ++ 0x80 ∷ []) zeros,
      length-append p (0x80 ∷ []),
      length-replicate (64 - (length p + 1)) 0,
    ) in
    let size' : length ending ≡ 64 = omega (
      arith,
      length-append (replicate 56 0) (big_endian 8 bits),
      length-replicate 56 0,
      length-big_endian 8 bits,
    ) in
    let message : p ++ tail_of (length p) bits ≡ ((p ++ 0x80 ∷ []) ++ zeros) ++ ending =
      rw (count, replicate-add (64 - (length p + 1)) 56 0)
        (ap (λ t. p ++ 0x80 ∷ t) (append_assoc zeros (replicate 56 0) (big_endian 8 bits))
          ∙ sym (append_assoc p (0x80 ∷ []) (zeros ++ ending))
          ∙ sym (append_assoc (p ++ 0x80 ∷ []) zeros ending)) in
    rw (h.chained, first, second)
      (sym (
        ap (hash_message w) message
        ∙ hash_message-block w ((p ++ 0x80 ∷ []) ++ zeros) ending size
        ∙ hash_message-one (transform w ((p ++ 0x80 ∷ []) ++ zeros)) ending size'))
