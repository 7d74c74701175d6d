-- ===== src/Prelude/Distinct.antt =====
-- Lists of texts without repetition, and the pigeonhole principle for them.
use Prim.Native.Nat.{suc, ◌≤◌}
use mathlib.Core.Path.{◌≡◌}
use mathlib.Core.Bool.{true, false}
use mathlib.Core.List.{List, [], ◌∷◌}
use native.Mathlib.Omega.{arith}
use spio.Prelude.Tests.{if◌then◌else◌}
use spio.Prelude.Lists.{All, length}
use spio.Prelude.Text.{Bytes, text_eq, text_eq_iff, contains}

abbrev pub IsDistinct : List Bytes → Type 0
IsDistinct [] = Unit
IsDistinct (x ∷ xs) = (contains x xs ≡ false) × IsDistinct xs

-- the list without the first `x`
erase : Bytes → List Bytes → List Bytes
erase x [] = []
erase x (y ∷ ys) = if text_eq y x then ys else y ∷ erase x ys

length-erase :
    (x : Bytes) (ys : List Bytes) → contains x ys ≡ true → suc (length (erase x ys)) ≡ length ys
unfolding erase contains
length-erase x [] h = cc
length-erase x (y ∷ ys) h = ground (arith, length-erase x ys)

contains-erase :
    (x z : Bytes) (ys : List Bytes)
    → text_eq x z ≡ false
    → contains z ys ≡ true
    → contains z (erase x ys) ≡ true
unfolding erase contains
contains-erase x z [] n h = h
contains-erase x z (y ∷ ys) n h =
    ground (arith, contains-erase x z ys n, text_eq_iff y x, text_eq_iff y z)

All-erase :
    (x : Bytes) (xs ys : List Bytes)
    → contains x xs ≡ false
    → All (λ z. contains z ys ≡ true) xs
    → All (λ z. contains z (erase x ys) ≡ true) xs
unfolding contains
All-erase x [] ys n h = tt
All-erase x (z ∷ xs) ys n h = (
  contains-erase x z ys (ground (arith, text_eq_iff x z, text_eq_iff z x)) h.0,
  All-erase x xs ys (ground arith) h.1,
)

-- Distinct texts that all lie in another list are no more than its entries.
pub length-le_of_IsDistinct :
    (xs ys : List Bytes)
    → IsDistinct xs
    → All (λ z. contains z ys ≡ true) xs
    → length xs ≤ length ys
length-le_of_IsDistinct [] ys d h = omega arith
length-le_of_IsDistinct (x ∷ xs) ys d h = omega (
  arith,
  length-erase x ys h.0,
  length-le_of_IsDistinct xs (erase x ys) d.1 (All-erase x xs ys d.0 h.1),
)
