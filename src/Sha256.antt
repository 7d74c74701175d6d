-- ===== src/Sha256.antt =====
-- src/PafioCore/Sha256.cpp: the class `Sha256`, `Sha256Text` and `Sha256File`. A `uint32_t` is a
-- number with the wrap-around written out; `state_` is a record of its eight words.

pub mod Pieces
pub mod Digest
pub mod Padding
pub mod Standard
use Prim.Native.Nat.{bit_and, bit_or, bit_xor}
use spio.Prelude.{
  ℕ, zero, suc, ◌+◌, ◌-◌, ◌*◌, ◌/◌, ◌%◌, ◌^◌, Bytes, Option, List, [], ◌∷◌, ◌++◌, if◌then◌else◌,
  ltb, ◌==◌, length, get_elem?, set, take, drop, replicate, value_or, Result, ok, err, or_throw,
  ◌>>=◌, cache_error, out_of_fuel,
}

pub record Words : Type 0 where
  pub a : ℕ
  pub b : ℕ
  pub c : ℕ
  pub d : ℕ
  pub e : ℕ
  pub f : ℕ
  pub g : ℕ
  pub h : ℕ

pub record Sha256 : Type 0 where
  pub state : Words
  pub buffer : Bytes
  pub buffer_size : ℕ
  pub total_size : ℕ

unfoldable pub constants : List ℕ
constants =
    0x428a2f98 ∷ 0x71374491 ∷ 0xb5c0fbcf ∷ 0xe9b5dba5 ∷ 0x3956c25b ∷ 0x59f111f1 ∷ 0x923f82a4
    ∷ 0xab1c5ed5 ∷ 0xd807aa98 ∷ 0x12835b01 ∷ 0x243185be ∷ 0x550c7dc3 ∷ 0x72be5d74 ∷ 0x80deb1fe
    ∷ 0x9bdc06a7 ∷ 0xc19bf174 ∷ 0xe49b69c1 ∷ 0xefbe4786 ∷ 0x0fc19dc6 ∷ 0x240ca1cc ∷ 0x2de92c6f
    ∷ 0x4a7484aa ∷ 0x5cb0a9dc ∷ 0x76f988da ∷ 0x983e5152 ∷ 0xa831c66d ∷ 0xb00327c8 ∷ 0xbf597fc7
    ∷ 0xc6e00bf3 ∷ 0xd5a79147 ∷ 0x06ca6351 ∷ 0x14292967 ∷ 0x27b70a85 ∷ 0x2e1b2138 ∷ 0x4d2c6dfc
    ∷ 0x53380d13 ∷ 0x650a7354 ∷ 0x766a0abb ∷ 0x81c2c92e ∷ 0x92722c85 ∷ 0xa2bfe8a1 ∷ 0xa81a664b
    ∷ 0xc24b8b70 ∷ 0xc76c51a3 ∷ 0xd192e819 ∷ 0xd6990624 ∷ 0xf40e3585 ∷ 0x106aa070 ∷ 0x19a4c116
    ∷ 0x1e376c08 ∷ 0x2748774c ∷ 0x34b0bcb5 ∷ 0x391c0cb3 ∷ 0x4ed8aa4a ∷ 0x5b9cca4f ∷ 0x682e6ff3
    ∷ 0x748f82ee ∷ 0x78a5636f ∷ 0x84c87814 ∷ 0x8cc70208 ∷ 0x90befffa ∷ 0xa4506ceb ∷ 0xbef9a3f7
    ∷ 0xc67178f2 ∷ []

-- addition of `uint32_t`
unfoldable pub add32 : ℕ → ℕ → ℕ
add32 x y = (x + y) % 2 ^ 32

unfoldable pub rotate_right : ℕ → ℕ → ℕ
rotate_right value bits = bit_or (value / 2 ^ bits) (value * 2 ^ (32 - bits) % 2 ^ 32)

-- `~x` is `2 ^ 32 - 1 - x`
unfoldable pub ch : ℕ → ℕ → ℕ → ℕ
ch x y z = bit_xor (bit_and x y) (bit_and (2 ^ 32 - 1 - x) z)

unfoldable pub maj : ℕ → ℕ → ℕ → ℕ
maj x y z = bit_xor (bit_xor (bit_and x y) (bit_and x z)) (bit_and y z)

unfoldable pub big_sigma0 : ℕ → ℕ
unfolding rotate_right
big_sigma0 v = bit_xor (bit_xor (rotate_right v 2) (rotate_right v 13)) (rotate_right v 22)

unfoldable pub big_sigma1 : ℕ → ℕ
unfolding rotate_right
big_sigma1 v = bit_xor (bit_xor (rotate_right v 6) (rotate_right v 11)) (rotate_right v 25)

unfoldable pub small_sigma0 : ℕ → ℕ
unfolding rotate_right
small_sigma0 v = bit_xor (bit_xor (rotate_right v 7) (rotate_right v 18)) (v / 2 ^ 3)

unfoldable pub small_sigma1 : ℕ → ℕ
unfolding rotate_right
small_sigma1 v = bit_xor (bit_xor (rotate_right v 17) (rotate_right v 19)) (v / 2 ^ 10)

-- `array[index]`; the code stays inside its arrays.
unfoldable pub at : List ℕ → ℕ → ℕ
at xs i = value_or (get_elem? xs i) 0

-- the words 0 to 15 of the schedule, the last one first
unfoldable pub load_words : ℕ → Bytes → List ℕ → List ℕ
unfolding at
load_words zero chunk words = words
load_words (suc n) chunk words = load_words n (drop 4 chunk) (
    bit_or (bit_or (bit_or (at chunk 0 * 2 ^ 24) (at chunk 1 * 2 ^ 16)) (at chunk 2 * 2 ^ 8))
      (at chunk 3)
    ∷ words)

-- the words 16 to 63, each from those 2, 7, 15 and 16 places before it; the last one first
unfoldable pub extend_words : ℕ → List ℕ → List ℕ
unfolding at add32 small_sigma0 small_sigma1
extend_words zero words = words
extend_words (suc n) words = extend_words n (
    add32 (add32 (add32 (small_sigma1 (at words 1)) (at words 6)) (small_sigma0 (at words 14)))
      (at words 15)
    ∷ words)

unfoldable pub reverse_onto : List ℕ → List ℕ → List ℕ
reverse_onto [] out = out
reverse_onto (x ∷ xs) out = reverse_onto xs (x ∷ out)

-- one round, with its constant and its word of the schedule
unfoldable pub round : Words → ℕ → ℕ → Words
unfolding add32 big_sigma0 big_sigma1 ch maj
round s k w =
    let t1 = add32 (add32 (add32 (add32 s.h (big_sigma1 s.e)) (ch s.e s.f s.g)) k) w in
    let t2 = add32 (big_sigma0 s.a) (maj s.a s.b s.c) in
    record {
      a = add32 t1 t2;
      b = s.a;
      c = s.b;
      d = s.c;
      e = add32 s.d t1;
      f = s.e;
      g = s.f;
      h = s.g;
    }

unfoldable pub rounds : Words → List ℕ → List ℕ → Words
unfolding round
rounds s [] ws = s
rounds s (k ∷ ks) [] = s
rounds s (k ∷ ks) (w ∷ ws) = rounds (round s k w) ks ws

unfoldable pub transform : Words → Bytes → Words
unfolding constants load_words extend_words reverse_onto rounds add32
transform s chunk =
    let schedule = reverse_onto (extend_words 48 (load_words 16 chunk [])) [] in
    let r = rounds s constants schedule in
    record {
      a = add32 s.a r.a;
      b = add32 s.b r.b;
      c = add32 s.c r.c;
      d = add32 s.d r.d;
      e = add32 s.e r.e;
      f = add32 s.f r.f;
      g = add32 s.g r.g;
      h = add32 s.h r.h;
    }

-- std::copy_n into a buffer, from the offset on
unfoldable pub copy_at : Bytes → ℕ → Bytes → Bytes
copy_at buffer offset [] = buffer
copy_at buffer offset (x ∷ xs) = copy_at (set buffer offset x) (offset + 1) xs

-- the buffer is full: it is hashed, and empty again
unfoldable pub flush : Sha256 → Sha256
flush s =
    if s.buffer_size == 64
    then record s { state = transform s.state s.buffer; buffer_size = 0 }
    else s

-- the body of the loop of `Update`, for the chunk that it copies
unfoldable pub fill : Sha256 → Bytes → Sha256
unfolding copy_at flush
fill s chunk = flush record s {
  buffer = copy_at s.buffer s.buffer_size chunk;
  buffer_size = s.buffer_size + length chunk;
}

abbrev pub min : ℕ → ℕ → ℕ
min x y = if ltb y x then y else x

unfoldable pub chunk_size : Sha256 → Bytes → ℕ
chunk_size s bytes = min (if ltb s.buffer_size 64 then 64 - s.buffer_size else 0) (length bytes)

-- The loop of `Update` on the bytes still to read, a round for each unit of the fuel.
unfoldable pub update_loop : ℕ → Sha256 → Bytes → Result Sha256
unfolding chunk_size fill
update_loop n s [] = ok s
update_loop zero s (x ∷ xs) = err out_of_fuel
update_loop (suc n) s (x ∷ xs) =
    let chunk = chunk_size s (x ∷ xs) in
    update_loop n (fill s (take chunk (x ∷ xs))) (drop chunk (x ∷ xs))

unfoldable pub update : Sha256 → Bytes → Result Sha256
unfolding update_loop
update s bytes =
    update_loop (length bytes) (record s { total_size = (s.total_size + length bytes) % 2 ^ 64 })
      bytes

-- std::fill with zeros, from an offset up to an end
unfoldable pub zeros_from : Bytes → ℕ → ℕ → Bytes
unfolding copy_at
zeros_from block lo hi = copy_at block lo (replicate (hi - lo) 0)

-- the length in bits, its lowest byte last
unfoldable pub put_length : ℕ → ℕ → Bytes → Bytes
put_length zero total_bits block = block
put_length (suc index) total_bits block =
    put_length index total_bits (set block (63 - index) (total_bits / 2 ^ (index * 8) % 256))

abbrev pub hex_digit : ℕ → ℕ
hex_digit d = if ltb d 10 then b'0' + d else b'a' + (d - 10)

-- `std::hex << setfill('0') << setw(8) << word`: the lowest `n` hexadecimal digits, which are all
-- those of a `uint32_t` where `n` is 8
unfoldable pub hex : ℕ → ℕ → Bytes
hex zero word = []
hex (suc n) word = hex n (word / 16) ++ (hex_digit (word % 16) ∷ [])

abbrev pub words_of : Words → List ℕ
words_of w = w.a ∷ w.b ∷ w.c ∷ w.d ∷ w.e ∷ w.f ∷ w.g ∷ w.h ∷ []

unfoldable pub hex_words : List ℕ → Bytes
unfolding hex
hex_words [] = []
hex_words (w ∷ ws) = hex 8 w ++ hex_words ws

-- `if (final_size > 56)`: the padding does not fit, so this block is hashed and a new one begun
unfoldable pub close_block : Words → Bytes → ℕ → Words × Bytes × ℕ
unfolding zeros_from transform
close_block state block final_size =
    if ltb 56 final_size
    then (transform state (zeros_from block final_size 64), replicate 64 0, 0)
    else (state, block, final_size)

unfoldable pub last_block : Sha256 → Words × Bytes × ℕ → Words
unfolding zeros_from put_length transform
last_block s (state, block, final_size) =
    transform state (put_length 8 (s.total_size * 8 % 2 ^ 64) (zeros_from block final_size 56))

unfoldable pub final_hex : Sha256 → Bytes
unfolding last_block close_block hex_words
final_hex s = hex_words (
    words_of
      (last_block s (close_block s.state (set s.buffer s.buffer_size 0x80) (s.buffer_size + 1))))

-- the members' initial values
unfoldable pub initial : Sha256
initial = record {
  state = record {
    a = 0x6a09e667;
    b = 0xbb67ae85;
    c = 0x3c6ef372;
    d = 0xa54ff53a;
    e = 0x510e527f;
    f = 0x9b05688c;
    g = 0x1f83d9ab;
    h = 0x5be0cd19;
  };
  buffer = replicate 64 0;
  buffer_size = 0;
  total_size = 0;
}

unfoldable pub sha256_text : Bytes → Result Bytes
unfolding update final_hex initial
sha256_text bytes = do s ← update initial bytes; ok (final_hex s)

-- What the reads of an open std::ifstream return: full buffers, then the rest of the file, or a
-- failure of the stream behind what it could still read.
pub data Reads : Type 0 where
  full : Bytes → Reads → Reads
  end_of_file : Bytes → Reads
  failure : Bytes → Reads

-- the loop of `Sha256File`; `count > 0` guards each `Update`
unfoldable pub update_some : Sha256 → Bytes → Result Sha256
unfolding update
update_some s bytes = if ltb 0 (length bytes) then update s bytes else ok s

unfoldable pub read_loop : Sha256 → Reads → Result Sha256
unfolding update_some
read_loop s (full bytes reads) = update_some s bytes >>= λ t. read_loop t reads
read_loop s (end_of_file bytes) = update_some s bytes
read_loop s (failure bytes) = update_some s bytes >>= λ t. err cache_error

-- `none` is a file that cannot be opened.
unfoldable pub sha256_file : Option Reads → Result Bytes
unfolding read_loop final_hex initial
sha256_file file = do
  reads ← or_throw file cache_error
  s ← read_loop initial reads
  ok (final_hex s)
