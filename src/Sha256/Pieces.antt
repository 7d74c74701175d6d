-- ===== src/Sha256/Pieces.antt =====
-- src/PafioCore/Sha256.cpp: `Update` in pieces, byte by byte, and the reads of `Sha256File`.
use spio.Prelude.{
  ℕ, zero, suc, ◌+◌, ◌-◌, ◌%◌, ◌^◌, ◌≤◌, ◌<◌, Bytes, [], ◌∷◌, ◌++◌, if◌then◌else◌, ltb, Bool, true,
  false, ◌==◌, length, set, take, drop, take-append-drop, length-append, ok, err, cache_error, some,
  ◌>>=◌, ◌≡◌, refl, sym, ap, ◌∙◌, inl, inr, Bool-cases, arith,
}
use spio.Sha256.{
  Sha256, Reads, full, end_of_file, failure, copy_at, flush, fill, chunk_size, update_loop, update,
  update_some, read_loop, initial, sha256_text, sha256_file,
}

-- One byte is put into the buffer.
unfoldable pub absorb : Sha256 → ℕ → Sha256
absorb s x =
    flush record s { buffer = set s.buffer s.buffer_size x; buffer_size = s.buffer_size + 1 }

unfoldable pub absorb_all : Sha256 → Bytes → Sha256
absorb_all s [] = s
absorb_all s (x ∷ xs) = absorb_all (absorb s x) xs

absorb_room : (s : Sha256) (x : ℕ) → s.buffer_size < 64 → (absorb s x).buffer_size < 64
unfolding absorb flush
absorb_room s x h = ground arith

absorb_all_room :
    (s : Sha256) (xs : Bytes) → s.buffer_size < 64 → (absorb_all s xs).buffer_size < 64
unfolding absorb_all
absorb_all_room s [] h = h
absorb_all_room s (x ∷ xs) h = absorb_all_room (absorb s x) xs (absorb_room s x h)

absorb_all_append :
    (s : Sha256) (xs ys : Bytes) → absorb_all s (xs ++ ys) ≡ absorb_all (absorb_all s xs) ys
unfolding absorb_all
absorb_all_append s [] ys = refl
absorb_all_append s (x ∷ xs) ys = absorb_all_append (absorb s x) xs ys

abbrev pub with_total : ℕ → Sha256 → Sha256
with_total n s = record s { total_size = n }

flush_total : (n : ℕ) (s : Sha256) → flush (with_total n s) ≡ with_total n (flush s)
unfolding flush
flush_total n s = elim (Bool-cases (s.buffer_size == 64)) [ inl e ↦ rw e refl | inr e ↦ rw e refl ]

absorb_all_total :
    (n : ℕ) (s : Sha256) (xs : Bytes)
    → absorb_all (with_total n s) xs ≡ with_total n (absorb_all s xs)
unfolding absorb_all absorb
absorb_all_total n s [] = refl
absorb_all_total n s (x ∷ xs) =
    rw
      (flush_total n
        record s { buffer = set s.buffer s.buffer_size x; buffer_size = s.buffer_size + 1 })
      (absorb_all_total n (absorb s x) xs)

flush_not_full : (s : Sha256) → s.buffer_size < 64 → flush s ≡ s
unfolding flush
flush_not_full s h = ground arith

-- The byte is written and the buffer is not yet full.
abbrev put : Sha256 → ℕ → Sha256
put s x = record s { buffer = set s.buffer s.buffer_size x; buffer_size = s.buffer_size + 1 }

fill_cons : (s : Sha256) (x : ℕ) (xs : Bytes) → fill s (x ∷ xs) ≡ fill (put s x) xs
unfolding fill copy_at
fill_cons s x xs =
    let e : s.buffer_size + suc (length xs) ≡ s.buffer_size + 1 + length xs = omega arith in
    rw e refl

fill_nil : (s : Sha256) → fill s [] ≡ flush s
unfolding fill copy_at
fill_nil s = let e : s.buffer_size + 0 ≡ s.buffer_size = omega arith in rw e refl

-- A chunk that fits is copied as if byte by byte.
fill_lem :
    (s : Sha256) (xs : Bytes)
    → s.buffer_size < 64
    → s.buffer_size + length xs ≤ 64
    → fill s xs ≡ absorb_all s xs
unfolding absorb_all absorb
fill_lem s [] h k = fill_nil s ∙ flush_not_full s h
fill_lem s (x ∷ []) h k = fill_cons s x [] ∙ fill_nil (put s x)
fill_lem s (x ∷ y ∷ xs) h k =
    let room : s.buffer_size + 1 < 64 = omega (arith, k) in
    fill_cons s x (y ∷ xs)
    ∙ fill_lem (put s x) (y ∷ xs) room (omega (arith, k))
    ∙ ap (λ t. absorb_all t (y ∷ xs)) (sym (flush_not_full (put s x) room))

length-take : (n : ℕ) (xs : Bytes) → n ≤ length xs → length (take n xs) ≡ n
length-take zero xs h = refl
length-take (suc n) [] h = omega (arith, h)
length-take (suc n) (x ∷ xs) h = omega (arith, length-take n xs (omega (arith, h)))

length-drop : (n : ℕ) (xs : Bytes) → length (drop n xs) ≡ length xs - n
length-drop zero xs = omega arith
length-drop (suc n) [] = omega arith
length-drop (suc n) (x ∷ xs) = omega (arith, length-drop n xs)

chunk_size_bounds :
    (s : Sha256) (x : ℕ) (xs : Bytes)
    → s.buffer_size < 64
    → (0 < chunk_size s (x ∷ xs))
      × (chunk_size s (x ∷ xs) ≤ suc (length xs))
      × (s.buffer_size + chunk_size s (x ∷ xs) ≤ 64)
unfolding chunk_size
chunk_size_bounds s x xs h = ground arith

-- Fuel for each byte is enough: a round copies one at least.
update_loop_lem :
    (n : ℕ) (s : Sha256) (xs : Bytes)
    → s.buffer_size < 64
    → length xs ≤ n
    → update_loop n s xs ≡ ok (absorb_all s xs)
unfolding update_loop absorb_all
update_loop_lem zero s [] h k = refl
update_loop_lem zero s (x ∷ xs) h k = absurd (omega (arith, k))
update_loop_lem (suc n) s [] h k = refl
update_loop_lem (suc n) s (x ∷ xs) h k =
    let c : ℕ = chunk_size s (x ∷ xs) in
    let b : (0 < c) × (c ≤ suc (length xs)) × (s.buffer_size + c ≤ 64) =
      chunk_size_bounds s x xs h in
    let l : length (take c (x ∷ xs)) ≡ c = length-take c (x ∷ xs) b.1 in
    let here : fill s (take c (x ∷ xs)) ≡ absorb_all s (take c (x ∷ xs)) =
      fill_lem s (take c (x ∷ xs)) h (omega (arith, l, b.2)) in
    ap (λ t. update_loop n t (drop c (x ∷ xs))) here
    ∙ update_loop_lem n (absorb_all s (take c (x ∷ xs))) (drop c (x ∷ xs))
        (absorb_all_room s (take c (x ∷ xs)) h) (omega (arith, length-drop c (x ∷ xs), b.0, k))
    ∙ ap ok (
        sym (absorb_all_append s (take c (x ∷ xs)) (drop c (x ∷ xs)))
        ∙ ap (absorb_all s) (take-append-drop c (x ∷ xs)))

-- `Update` ends, and is the byte by byte hashing, with the length counted modulo `2 ^ 64`.
pub update_lem :
    (s : Sha256) (xs : Bytes)
    → s.buffer_size < 64
    → update s xs ≡ ok (with_total ((s.total_size + length xs) % 2 ^ 64) (absorb_all s xs))
unfolding update
update_lem s xs h =
    update_loop_lem (length xs) (with_total _ s) xs h (omega arith)
    ∙ ap ok (absorb_all_total _ s xs)

total_room : (n : ℕ) (s : Sha256) → s.buffer_size < 64 → (with_total n s).buffer_size < 64
total_room n s h = h

-- In a hash with room in its buffer, updating by two texts one after the other ends in the state
-- that updating by the text of both ends in.
pub update-append :
    (s : Sha256) (xs ys : Bytes)
    → s.buffer_size < 64
    → (update s xs >>= λ t. update t ys) ≡ update s (xs ++ ys)
update-append s xs ys h =
    let n : ℕ = (s.total_size + length xs) % 2 ^ 64 in
    let room : (absorb_all s xs).buffer_size < 64 = absorb_all_room s xs h in
    let total : (n + length ys) % 2 ^ 64 ≡ (s.total_size + length (xs ++ ys)) % 2 ^ 64 =
      omega (arith, length-append xs ys) in
    rw (update_lem s xs h, update_lem s (xs ++ ys) h)
      (update_lem (with_total n (absorb_all s xs)) ys room
        ∙ rw (total, absorb_all_total n (absorb_all s xs) ys, absorb_all_append s xs ys) refl)

-- The bytes that a sequence of reads returns.
unfoldable pub contents : Reads → Bytes
contents (full bytes reads) = bytes ++ contents reads
contents (end_of_file bytes) = bytes
contents (failure bytes) = bytes

abbrev pub ends_well : Reads → Bool
ends_well (full bytes reads) = ends_well reads
ends_well (end_of_file bytes) = true
ends_well (failure bytes) = false

-- A hash that can go on: there is room in the buffer, and the length is a `uint64_t`.
abbrev pub IsReady : Sha256 → Type 0
IsReady s = (s.buffer_size < 64) × (s.total_size < 2 ^ 64)

update_nil : (s : Sha256) → IsReady s → update s [] ≡ ok s
unfolding absorb_all
update_nil s h =
    let e : (s.total_size + 0) % 2 ^ 64 ≡ s.total_size = omega (arith, h.1) in
    update_lem s [] h.0 ∙ rw e refl

update_some_lem : (s : Sha256) (xs : Bytes) → IsReady s → update_some s xs ≡ update s xs
unfolding update_some
update_some_lem s [] h = sym (update_nil s h)
update_some_lem s (x ∷ xs) h = let e : ltb 0 (suc (length xs)) ≡ true = ground arith in rw e refl

updated : Sha256 → Bytes → Sha256
updated s xs = with_total ((s.total_size + length xs) % 2 ^ 64) (absorb_all s xs)

updated-IsReady : (s : Sha256) (xs : Bytes) → IsReady s → IsReady (updated s xs)
unfolding updated
updated-IsReady s xs h = (absorb_all_room s xs h.0, omega arith)

update-updated : (s : Sha256) (xs : Bytes) → IsReady s → update s xs ≡ ok (updated s xs)
unfolding updated
update-updated s xs h = update_lem s xs h.0

read_loop_lem :
    (s : Sha256) (reads : Reads)
    → IsReady s
    → read_loop s reads ≡ (if ends_well reads then update s (contents reads) else err cache_error)
unfolding read_loop contents
read_loop_lem s (end_of_file xs) h = update_some_lem s xs h
read_loop_lem s (failure xs) h = rw (update_some_lem s xs h, update-updated s xs h) refl
read_loop_lem s (full xs reads) h =
    rw (update_some_lem s xs h, update-updated s xs h)
      (read_loop_lem (updated s xs) reads (updated-IsReady s xs h)
        ∙ ap (λ r. if ends_well reads then r else err cache_error)
            (rw (update-updated s xs h) at (update-append s xs (contents reads) h.0)))

pub initial-IsReady : IsReady initial
unfolding initial
initial-IsReady = omega arith

-- The digest of an open file is that of the text of its bytes, however the reads cut it into
-- pieces, if the reads end at the end of the file; it is a `CacheError` if they fail before.
pub sha256_file-eq-sha256_text :
    (reads : Reads)
    → sha256_file (some reads)
      ≡ (if ends_well reads then sha256_text (contents reads) else err cache_error)
unfolding sha256_file sha256_text
sha256_file-eq-sha256_text reads =
    rw (read_loop_lem initial reads initial-IsReady)
      (elim (Bool-cases (ends_well reads)) [ inl e ↦ rw e refl | inr e ↦ rw e refl ])
