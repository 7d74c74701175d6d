-- ===== src/Sha256/Standard.antt =====
-- The SHA-256 of FIPS 180-4, written down from the standard, to compare src/PafioCore/Sha256.cpp
-- with: its constants are computed from the primes, and no function of the code is used. The message
-- schedule is a list with the last word first, so that W(t-1) is at place 0.
pub mod Agrees
use Prim.Native.Nat.{bit_and, bit_or, bit_xor}
use spio.Prelude.{
  ℕ, zero, suc, ◌+◌, ◌-◌, ◌*◌, ◌/◌, ◌%◌, ◌^◌, Bytes, List, [], ◌∷◌, ◌++◌, map, if◌then◌else◌, ltb,
  leb, Bool, true, false, length, take, drop, get_elem?, value_or,
}
use spio.Sha256.{Words}
use spio.Sha256.Padding.{padded}

-- The largest number whose power is at most `v`, found from its highest bit on.
unfoldable pub root_bits : ℕ → ℕ → ℕ → ℕ → ℕ
root_bits power zero found v = found
root_bits power (suc n) found v =
    root_bits power n (if leb ((found + 2 ^ n) ^ power) v then found + 2 ^ n else found) v

-- the first 32 bits of the fractional part of a root of a prime
unfoldable pub root_fraction : ℕ → ℕ → ℕ
unfolding root_bits
root_fraction power prime = root_bits power 36 0 (prime * 2 ^ (32 * power)) % 2 ^ 32

abbrev pub primes : List ℕ
primes =
    2 ∷ 3 ∷ 5 ∷ 7 ∷ 11 ∷ 13 ∷ 17 ∷ 19 ∷ 23 ∷ 29 ∷ 31 ∷ 37 ∷ 41 ∷ 43 ∷ 47 ∷ 53 ∷ 59 ∷ 61 ∷ 67 ∷ 71
    ∷ 73 ∷ 79 ∷ 83 ∷ 89 ∷ 97 ∷ 101 ∷ 103 ∷ 107 ∷ 109 ∷ 113 ∷ 127 ∷ 131 ∷ 137 ∷ 139 ∷ 149 ∷ 151 ∷ 157
    ∷ 163 ∷ 167 ∷ 173 ∷ 179 ∷ 181 ∷ 191 ∷ 193 ∷ 197 ∷ 199 ∷ 211 ∷ 223 ∷ 227 ∷ 229 ∷ 233 ∷ 239 ∷ 241
    ∷ 251 ∷ 257 ∷ 263 ∷ 269 ∷ 271 ∷ 277 ∷ 281 ∷ 283 ∷ 293 ∷ 307 ∷ 311 ∷ []

-- 4.2.2: the cube roots of the first 64 primes
unfoldable pub k_constants : List ℕ
unfolding root_fraction
k_constants = map (root_fraction 3) primes

-- 5.3.3: the square roots of the first 8 primes
unfoldable pub h_initial : Words
unfolding root_fraction
h_initial = record {
  a = root_fraction 2 2;
  b = root_fraction 2 3;
  c = root_fraction 2 5;
  d = root_fraction 2 7;
  e = root_fraction 2 11;
  f = root_fraction 2 13;
  g = root_fraction 2 17;
  h = root_fraction 2 19;
}

-- 2.2.2: a sum of words, and the rotation and the shift to the right
abbrev pub plus : ℕ → ℕ → ℕ
plus x y = (x + y) % 2 ^ 32

abbrev pub rotr : ℕ → ℕ → ℕ
rotr n x = bit_or (x / 2 ^ n) (x * 2 ^ (32 - n) % 2 ^ 32)

abbrev pub shr : ℕ → ℕ → ℕ
shr n x = x / 2 ^ n

-- 4.1.2: the six functions
abbrev pub f_ch : ℕ → ℕ → ℕ → ℕ
f_ch x y z = bit_xor (bit_and x y) (bit_and (2 ^ 32 - 1 - x) z)

abbrev pub f_maj : ℕ → ℕ → ℕ → ℕ
f_maj x y z = bit_xor (bit_xor (bit_and x y) (bit_and x z)) (bit_and y z)

abbrev pub upper_sigma0 : ℕ → ℕ
upper_sigma0 x = bit_xor (bit_xor (rotr 2 x) (rotr 13 x)) (rotr 22 x)

abbrev pub upper_sigma1 : ℕ → ℕ
upper_sigma1 x = bit_xor (bit_xor (rotr 6 x) (rotr 11 x)) (rotr 25 x)

abbrev pub lower_sigma0 : ℕ → ℕ
lower_sigma0 x = bit_xor (bit_xor (rotr 7 x) (rotr 18 x)) (shr 3 x)

abbrev pub lower_sigma1 : ℕ → ℕ
lower_sigma1 x = bit_xor (bit_xor (rotr 17 x) (rotr 19 x)) (shr 10 x)

abbrev pub place : List ℕ → ℕ → ℕ
place xs i = value_or (get_elem? xs i) 0

-- 5.2.1: the 16 words of a block, 4 bytes each
unfoldable pub block_words : ℕ → Bytes → List ℕ → List ℕ
block_words zero block words = words
block_words (suc n) block words = block_words n (drop 4 block) (
    bit_or
      (bit_or (bit_or (place block 0 * 2 ^ 24) (place block 1 * 2 ^ 16)) (place block 2 * 2 ^ 8))
      (place block 3)
    ∷ words)

-- 6.2.2, step 1: W(t) of W(t-2), W(t-7), W(t-15) and W(t-16)
unfoldable pub schedule : ℕ → List ℕ → List ℕ
schedule zero words = words
schedule (suc n) words = schedule n (
    plus
      (plus (plus (lower_sigma1 (place words 1)) (place words 6)) (lower_sigma0 (place words 14)))
      (place words 15)
    ∷ words)

-- 6.2.2, step 3: one value of t
abbrev pub t1_of : Words → ℕ → ℕ → ℕ
t1_of s k w = plus (plus (plus (plus s.h (upper_sigma1 s.e)) (f_ch s.e s.f s.g)) k) w

abbrev pub t2_of : Words → ℕ
t2_of s = plus (upper_sigma0 s.a) (f_maj s.a s.b s.c)

abbrev pub step : Words → ℕ → ℕ → Words
step s k w = record {
  a = plus (t1_of s k w) (t2_of s);
  b = s.a;
  c = s.b;
  d = s.c;
  e = plus s.d (t1_of s k w);
  f = s.e;
  g = s.f;
  h = s.g;
}

unfoldable pub steps : Words → List ℕ → List ℕ → Words
steps s [] ws = s
steps s (k ∷ ks) [] = s
steps s (k ∷ ks) (w ∷ ws) = steps (step s k w) ks ws

unfoldable pub in_order : List ℕ → List ℕ → List ℕ
in_order [] out = out
in_order (w ∷ ws) out = in_order ws (w ∷ out)

-- 6.2.2, step 4: the next hash value
abbrev pub sum_of : Words → Words → Words
sum_of s r = record {
  a = plus s.a r.a;
  b = plus s.b r.b;
  c = plus s.c r.c;
  d = plus s.d r.d;
  e = plus s.e r.e;
  f = plus s.f r.f;
  g = plus s.g r.g;
  h = plus s.h r.h;
}

unfoldable pub compress : Words → Bytes → Words
compress s block =
    sum_of s (steps s k_constants (in_order (schedule 48 (block_words 16 block [])) []))

unfoldable pub compress_all : ℕ → Words → Bytes → Words
compress_all zero s m = s
compress_all (suc n) s m = compress_all n (compress s (take 64 m)) (drop 64 m)

-- the eight hexadecimal digits of a word, the highest first
abbrev pub digit : ℕ → ℕ
digit d = if ltb d 10 then 48 + d else 87 + d

abbrev pub digits : ℕ → Bytes
digits w =
    digit (w / 16 ^ 7 % 16)
    ∷ digit (w / 16 ^ 6 % 16)
    ∷ digit (w / 16 ^ 5 % 16)
    ∷ digit (w / 16 ^ 4 % 16)
    ∷ digit (w / 16 ^ 3 % 16)
    ∷ digit (w / 16 ^ 2 % 16)
    ∷ digit (w / 16 % 16)
    ∷ digit (w % 16)
    ∷ []

unfoldable pub digest_of : List ℕ → Bytes
digest_of [] = []
digest_of (w ∷ ws) = digits w ++ digest_of ws

-- The digest of a message of bytes, in hexadecimal.
unfoldable pub standard_digest : Bytes → Bytes
standard_digest m =
    let s : Words = compress_all (length (padded m) / 64) h_initial (padded m) in
    digest_of (s.a ∷ s.b ∷ s.c ∷ s.d ∷ s.e ∷ s.f ∷ s.g ∷ s.h ∷ [])
