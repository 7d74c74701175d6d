-- ===== src/Prelude/Sort.antt =====
-- std::sort by a text, and std::unique after it. Entries with one key keep their order here; the
-- standard leaves it open.
use Prim.Native.Nat.{◌+◌}
use mathlib.Core.Path.{◌≡◌, refl, ap}
use mathlib.Core.Bool.{true, false, ◌||◌}
use mathlib.Core.Logic.{inl, inr}
use mathlib.Core.List.{List, [], ◌∷◌, map}
use native.Mathlib.Omega.{arith}
use spio.Prelude.Tests.{if◌then◌else◌, Bool-cases}
use spio.Prelude.Lists.{All, length}
use spio.Prelude.Text.{
  Bytes, text_eq, text_leb, contains, text_eq_iff, text_leb_total, text_leb_trans,
  text_leb_antisymm,
}

module _ {ℓ} {A : Type ℓ} (key : A → Bytes) where
  unfoldable pub insert : A → List A → List A
  insert x [] = x ∷ []
  insert x (y ∷ ys) = if text_leb (key x) (key y) then x ∷ y ∷ ys else y ∷ insert x ys

  unfoldable pub sort_by : List A → List A
  unfolding insert
  sort_by [] = []
  sort_by (x ∷ xs) = insert x (sort_by xs)

  -- Each key is at most those behind it.
  abbrev pub IsSorted : List A → Type 0
  IsSorted [] = Unit
  IsSorted (x ∷ xs) = All (λ y. text_leb (key x) (key y) ≡ true) xs × IsSorted xs

module _ {ℓ κ} {A : Type ℓ} (key : A → Bytes) (P : A → Type κ) where
  pub All-insert : (x : A) (xs : List A) → P x → All P xs → All P (insert key x xs)
  unfolding insert
  All-insert x [] h k = (h, tt)
  All-insert x (y ∷ ys) h k = elim (Bool-cases (text_leb (key x) (key y))) [
    | inl e ↦ rw e (h, k)
    | inr e ↦ rw e (k.0, All-insert x ys h k.1)
  ]

  pub All-sort_by : (xs : List A) → All P xs → All P (sort_by key xs)
  unfolding sort_by
  All-sort_by [] h = tt
  All-sort_by (x ∷ xs) h = All-insert x (sort_by key xs) h.0 (All-sort_by xs h.1)

module _ {ℓ} {A : Type ℓ} (key : A → Bytes) where
  All-leb_trans :
      (a b : Bytes) (xs : List A)
      → text_leb a b ≡ true
      → All (λ y. text_leb b (key y) ≡ true) xs
      → All (λ y. text_leb a (key y) ≡ true) xs
  All-leb_trans a b [] h k = tt
  All-leb_trans a b (x ∷ xs) h k = (text_leb_trans a b (key x) h k.0, All-leb_trans a b xs h k.1)

  insert-IsSorted : (x : A) (xs : List A) → IsSorted key xs → IsSorted key (insert key x xs)
  unfolding insert
  insert-IsSorted x [] s = (tt, tt)
  insert-IsSorted x (y ∷ ys) s = elim (Bool-cases (text_leb (key x) (key y))) [
    | inl e ↦ rw e ((e, All-leb_trans (key x) (key y) ys e s.0), s)
    | inr e ↦ rw e (
      All-insert key (λ z. text_leb (key y) (key z) ≡ true) x ys (text_leb_total (key x) (key y) e)
          s.0,
      insert-IsSorted x ys s.1,
    )
  ]

  -- std::sort returns its input in ascending order.
  pub sort_by-IsSorted : (xs : List A) → IsSorted key (sort_by key xs)
  unfolding sort_by
  sort_by-IsSorted [] = tt
  sort_by-IsSorted (x ∷ xs) = insert-IsSorted x (sort_by key xs) (sort_by-IsSorted xs)

  length-insert : (x : A) (xs : List A) → length (insert key x xs) ≡ length xs + 1
  unfolding insert
  length-insert x [] = omega arith
  length-insert x (y ∷ ys) = ground (arith, length-insert x ys)

  pub length-sort_by : (xs : List A) → length (sort_by key xs) ≡ length xs
  unfolding sort_by
  length-sort_by [] = refl
  length-sort_by (x ∷ xs) = omega (arith, length-sort_by xs, length-insert x (sort_by key xs))

  contains-insert :
      (k : Bytes) (x : A) (xs : List A)
      → contains k (map key (insert key x xs)) ≡ (text_eq (key x) k || contains k (map key xs))
  unfolding insert contains
  contains-insert k x [] = refl
  contains-insert k x (y ∷ ys) = ground (arith, contains-insert k x ys)

  -- Sorting keeps the set of keys.
  pub contains-sort_by :
      (k : Bytes) (xs : List A) → contains k (map key (sort_by key xs)) ≡ contains k (map key xs)
  unfolding sort_by contains
  contains-sort_by k [] = refl
  contains-sort_by k (x ∷ xs) =
      ground (arith, contains-insert k x (sort_by key xs), contains-sort_by k xs)

  -- Two entries may be inserted in either order, unless they differ under one key.
  pub insert_comm :
      (x y : A) (xs : List A)
      → (key x ≡ key y → x ≡ y)
      → insert key x (insert key y xs) ≡ insert key y (insert key x xs)
  unfolding insert
  insert_comm x y [] n =
      ground (arith, n, text_leb_antisymm (key x) (key y), text_leb_total (key x) (key y))
  insert_comm x y (z ∷ zs) n = ground (
    arith,
    n,
    insert_comm x y zs n,
    text_leb_antisymm (key x) (key y),
    text_leb_total (key x) (key y),
    text_leb_total (key x) (key z),
    text_leb_total (key y) (key z),
    text_leb_trans (key x) (key y) (key z),
    text_leb_trans (key y) (key x) (key z),
    text_leb_trans (key x) (key z) (key y),
    text_leb_trans (key y) (key z) (key x),
  )

-- std::unique over texts, with erase: of equal neighbours the first stays.
drop_head : Bytes → List Bytes → List Bytes
drop_head x [] = []
drop_head x (y ∷ ys) = if text_eq x y then ys else y ∷ ys

unfoldable pub unique : List Bytes → List Bytes
unfolding drop_head
unique [] = []
unique (x ∷ xs) = x ∷ drop_head x (unique xs)

-- `std::sort` and `erase(unique)` of a list of ids
unfoldable pub sort_unique : List Bytes → List Bytes
sort_unique xs = unique (sort_by (λ x. x) xs)

contains-drop_head :
    (k x : Bytes) (ys : List Bytes)
    → (text_eq x k || contains k (drop_head x ys)) ≡ (text_eq x k || contains k ys)
unfolding drop_head contains
contains-drop_head k x [] = refl
contains-drop_head k x (y ∷ ys) = ground (arith, text_eq_iff x y)

contains-unique : (k : Bytes) (xs : List Bytes) → contains k (unique xs) ≡ contains k xs
unfolding unique contains
contains-unique k [] = refl
contains-unique k (x ∷ xs) =
    ground (arith, contains-drop_head k x (unique xs), contains-unique k xs)

pub map-id {ℓ} : {A : Type ℓ} (xs : List A) → map (λ x. x) xs ≡ xs
map-id [] = refl
map-id (x ∷ xs) = ap (◌∷◌ x) (map-id xs)

-- The ids stay the same set.
pub contains-sort_unique :
    (k : Bytes) (xs : List Bytes) → contains k (sort_unique xs) ≡ contains k xs
unfolding sort_unique
contains-sort_unique k xs =
    rw (contains-unique k (sort_by (λ x. x) xs))
      (rw (map-id (sort_by (λ x. x) xs), map-id xs) at (contains-sort_by (λ x. x) k xs))

-- Each text is strictly below those behind it.
abbrev pub IsStrict : List Bytes → Type 0
IsStrict [] = Unit
IsStrict (x ∷ xs) = All (λ y. text_leb y x ≡ false) xs × IsStrict xs

All-drop_head {κ} :
    (P : Bytes → Type κ) (x : Bytes) (xs : List Bytes) → All P xs → All P (drop_head x xs)
unfolding drop_head
All-drop_head P x [] h = h
All-drop_head P x (y ∷ ys) h = elim (Bool-cases (text_eq x y)) [ inl e ↦ rw e h.1 | inr e ↦ rw e h ]

pub All-unique {κ} : (P : Bytes → Type κ) (xs : List Bytes) → All P xs → All P (unique xs)
unfolding unique
All-unique P [] h = h
All-unique P (x ∷ xs) h = (h.0, All-drop_head P x (unique xs) (All-unique P xs h.1))

not_below : (x y : Bytes) → text_leb x y ≡ true → text_eq x y ≡ false → text_leb y x ≡ false
not_below x y h n = ground (arith, text_leb_antisymm x y, text_eq_iff x y)

above_strict :
    (x y : Bytes) (ys : List Bytes)
    → text_leb y x ≡ false
    → All (λ z. text_leb z y ≡ false) ys
    → All (λ z. text_leb z x ≡ false) ys
above_strict x y [] h k = tt
above_strict x y (z ∷ ys) h k =
    (ground (arith, text_leb_total y x h, text_leb_trans z x y, k.0, h), above_strict x y ys h k.1)

drop_head-IsStrict :
    (x : Bytes) (ys : List Bytes)
    → All (λ y. text_leb x y ≡ true) ys
    → IsStrict ys
    → All (λ y. text_leb y x ≡ false) (drop_head x ys) × IsStrict (drop_head x ys)
unfolding drop_head
drop_head-IsStrict x [] h s = (tt, tt)
drop_head-IsStrict x (y ∷ ys) h s = elim (Bool-cases (text_eq x y)) [
  | inl e ↦ rw e (rw (← ((text_eq_iff x y).0 e)) at s)
  | inr e ↦ rw e ((not_below x y h.0 e, above_strict x y ys (not_below x y h.0 e) s.0), s)
]

unique-IsStrict : (xs : List Bytes) → IsSorted (λ x. x) xs → IsStrict (unique xs)
unfolding unique
unique-IsStrict [] s = tt
unique-IsStrict (x ∷ xs) s =
    drop_head-IsStrict x (unique xs) (All-unique (λ y. text_leb x y ≡ true) xs s.0)
      (unique-IsStrict xs s.1)

-- Sorted with duplicates erased is strictly ascending.
pub sort_unique-IsStrict : (xs : List Bytes) → IsStrict (sort_unique xs)
unfolding sort_unique
sort_unique-IsStrict xs = unique-IsStrict _ (sort_by-IsSorted (λ x. x) xs)
