-- ===== src/Sha256/Padding/Holds.antt =====
-- src/PafioCore/Sha256.cpp, `Update`: the bytes taken so far, as the standard's blocks.
use mathlib.Core.List.{append_assoc}
use spio.Prelude.{
  ℕ, ◌+◌, ◌%◌, ◌<◌, Bytes, [], ◌∷◌, ◌++◌, Bool-cases, true, false, ◌==◌, ==_iff, length, set, take,
  length-append, length-set, ◌≡◌, ◌≢◌, ◌∙◌, inl, inr, refl, sym, ap, arith,
}
use spio.Sha256.{Words, Sha256, transform, flush}
use spio.Sha256.Pieces.{absorb, absorb_all}
use spio.Sha256.Padding.{hash_message, take-set, take-length, hash_message-block}

-- What is hashed so far, and the bytes of the block that is not yet full.
pub record Holds (s : Sha256) (w : Words) (p : Bytes) : Type 0 where
  pub chained : s.state ≡ w
  pub size : s.buffer_size ≡ length p
  pub room : length p < 64
  pub capacity : length s.buffer ≡ 64
  pub kept : take (length p) s.buffer ≡ p

-- the byte put behind those that the block holds
pub put_lem :
    (s : Sha256) (w : Words) (p : Bytes) (x : ℕ)
    → Holds s w p
    → take (length (p ++ x ∷ [])) (set s.buffer s.buffer_size x) ≡ p ++ x ∷ []
put_lem s w p x h =
    rw (length-append p (x ∷ []), h.size)
      (take-set s.buffer (length p) x (omega (arith, h.room, h.capacity))
        ∙ ap (λ t. t ++ x ∷ []) h.kept)

-- What one more byte makes of it.
pub record Absorbed (s : Sha256) (w : Words) (p : Bytes) (x : ℕ) : Type 0 where
  pub v : Words
  pub q : Bytes
  pub holds : Holds (absorb s x) v q
  pub same : (m : Bytes) → hash_message w (p ++ x ∷ m) ≡ hash_message v (q ++ m)
  pub counted : length q ≡ (length p + 1) % 64

pub absorb-Holds : (s : Sha256) (w : Words) (p : Bytes) (x : ℕ) → Holds s w p → Absorbed s w p x
unfolding absorb flush
absorb-Holds s w p x h = elim (Bool-cases (s.buffer_size + 1 == 64)) [
  | inl full ↦
      let end : s.buffer_size + 1 ≡ 64 = (==_iff (s.buffer_size + 1) 64).0 full in
      let n : length (p ++ x ∷ []) ≡ 64 = omega (arith, length-append p (x ∷ []), h.size, end) in
      let filled : set s.buffer s.buffer_size x ≡ p ++ x ∷ [] =
        sym (take-length (set s.buffer s.buffer_size x))
        ∙ rw (length-set s.buffer s.buffer_size x, h.capacity, ← n) (put_lem s w p x h) in
      record {
        v = transform w (p ++ x ∷ []);
        q = [];
        holds = rw full record {
          chained = rw (h.chained, filled) refl;
          size = refl;
          room = omega arith;
          capacity = length-set s.buffer s.buffer_size x ∙ h.capacity;
          kept = refl;
        };
        same = λ m.
            ap (hash_message w) (sym (append_assoc p (x ∷ []) m))
            ∙ hash_message-block w (p ++ x ∷ []) m n;
        counted = omega (arith, h.size, end);
      }
  | inr not_full ↦
      let more : s.buffer_size + 1 ≢ 64 =
        λ e. false_true (sym not_full ∙ (==_iff (s.buffer_size + 1) 64).1 e) in
      record {
        v = w;
        q = p ++ x ∷ [];
        holds = rw not_full record {
          chained = h.chained;
          size = omega (arith, length-append p (x ∷ []), h.size);
          room = omega (arith, length-append p (x ∷ []), h.size, h.room, more);
          capacity = length-set s.buffer s.buffer_size x ∙ h.capacity;
          kept = put_lem s w p x h;
        };
        same = λ m. ap (hash_message w) (sym (append_assoc p (x ∷ []) m));
        counted = omega (arith, length-append p (x ∷ []), h.size, h.room, more);
      }
]
  where
    false_true : false ≢ true
    false_true e = cc

-- What a text makes of it.
pub record Fed (s : Sha256) (w : Words) (p xs : Bytes) : Type 0 where
  pub v : Words
  pub q : Bytes
  pub holds : Holds (absorb_all s xs) v q
  pub same : (m : Bytes) → hash_message w (p ++ xs ++ m) ≡ hash_message v (q ++ m)
  pub counted : length q ≡ (length p + length xs) % 64

pub absorb_all-Holds : (s : Sha256) (w : Words) (p xs : Bytes) → Holds s w p → Fed s w p xs
unfolding absorb_all
absorb_all-Holds s w p [] h = record {
  v = w;
  q = p;
  holds = h;
  same = λ m. rw (append_assoc p [] m) refl;
  counted = omega (arith, h.room);
}
absorb_all-Holds s w p (x ∷ xs) h =
    let a = absorb-Holds s w p x h in
    let f = absorb_all-Holds (absorb s x) a.v a.q xs a.holds in
    record {
      v = f.v;
      q = f.q;
      holds = f.holds;
      same = λ m.
          ap (hash_message w) (append_assoc p (x ∷ xs) m)
          ∙ a.same (xs ++ m)
          ∙ ap (hash_message a.v) (sym (append_assoc a.q xs m))
          ∙ f.same m;
      counted = omega (arith, a.counted, f.counted);
    }
