-- ===== src/Prelude/Sorted.antt =====
-- More on sorting: what it does to other views of the entries, to sorted and to distinct ones.
use mathlib.Core.Path.{◌≡◌, refl}
use mathlib.Core.Bool.{true, false, ◌||◌}
use mathlib.Core.List.{List, [], ◌∷◌, map}
use mathlib.Core.Logic.{inl, inr}
use native.Mathlib.Omega.{arith}
use spio.Prelude.Tests.{Bool-cases}
use spio.Prelude.Lists.{All}
use spio.Prelude.Text.{Bytes, text_eq, text_leb, contains, text_eq_iff, text_leb_antisymm}
use spio.Prelude.Sort.{
  insert, sort_by, IsSorted, IsStrict, sort_unique, sort_by-IsSorted, contains-sort_unique,
}
use spio.Prelude.Text.{All-of_contains, All-contains}
use spio.Prelude.Distinct.{IsDistinct}

module _ {ℓ} {A : Type ℓ} (key g : A → Bytes) where
  contains-map-insert :
      (k : Bytes) (x : A) (xs : List A)
      → contains k (map g (insert key x xs)) ≡ (text_eq (g x) k || contains k (map g xs))
  unfolding insert contains
  contains-map-insert k x [] = refl
  contains-map-insert k x (y ∷ ys) = ground (arith, contains-map-insert k x ys)

  -- Sorting by one view keeps the set of another.
  pub contains-map-sort_by :
      (k : Bytes) (xs : List A) → contains k (map g (sort_by key xs)) ≡ contains k (map g xs)
  unfolding sort_by contains
  contains-map-sort_by k [] = refl
  contains-map-sort_by k (x ∷ xs) =
      ground (arith, contains-map-insert k x (sort_by key xs), contains-map-sort_by k xs)

  IsDistinct-map-insert :
      (x : A) (xs : List A)
      → contains (g x) (map g xs) ≡ false
      → IsDistinct (map g xs)
      → IsDistinct (map g (insert key x xs))
  unfolding insert contains
  IsDistinct-map-insert x [] n d = (refl, tt)
  IsDistinct-map-insert x (y ∷ ys) n d = elim (Bool-cases (text_leb (key x) (key y))) [
    | inl e ↦ rw e (n, d)
    | inr e ↦ rw e (
      ground (
        arith,
        contains-map-insert (g y) x ys,
        text_eq_iff (g x) (g y),
        text_eq_iff (g y) (g x),
        d.0,
        n,
      ),
      IsDistinct-map-insert x ys (ground (arith, n)) d.1,
    )
  ]

  pub IsDistinct-map-sort_by :
      (xs : List A) → IsDistinct (map g xs) → IsDistinct (map g (sort_by key xs))
  unfolding sort_by
  IsDistinct-map-sort_by [] d = tt
  IsDistinct-map-sort_by (x ∷ xs) d =
      IsDistinct-map-insert x (sort_by key xs) (ground (arith, contains-map-sort_by (g x) xs, d.0))
        (IsDistinct-map-sort_by xs d.1)

module _ {ℓ} {A : Type ℓ} (key : A → Bytes) where
  -- A list that ascends by a key is its own sorting.
  pub sort_by-of_IsSorted : (xs : List A) → IsSorted key xs → sort_by key xs ≡ xs
  unfolding sort_by
  sort_by-of_IsSorted [] s = refl
  sort_by-of_IsSorted (x ∷ xs) s = rw (sort_by-of_IsSorted xs s.1) (first xs s.0)
    where
      first :
          (ys : List A) → All (λ y. text_leb (key x) (key y) ≡ true) ys → insert key x ys ≡ x ∷ ys
      first [] h = unfold insert in refl
      first (y ∷ ys) h = unfold insert in rw h.0 refl

  above :
      (k : Bytes) (xs : List A)
      → All (λ y. text_leb k (key y) ≡ true) xs
      → contains k (map key xs) ≡ false
      → All (λ y. text_leb y k ≡ false) (map key xs)
  unfolding contains
  above k [] h n = tt
  above k (x ∷ xs) h n = (
    ground (arith, h.0, n, text_leb_antisymm k (key x), text_eq_iff (key x) k),
    above k xs h.1 (ground (arith, n)),
  )

  -- Sorted and without repetition is strictly ascending.
  pub IsStrict-of_IsSorted :
      (xs : List A) → IsSorted key xs → IsDistinct (map key xs) → IsStrict (map key xs)
  IsStrict-of_IsSorted [] s d = tt
  IsStrict-of_IsSorted (x ∷ xs) s d = (above (key x) xs s.0 d.0, IsStrict-of_IsSorted xs s.1 d.1)

  All-of_map : (P : Bytes → Type 0) (xs : List A) → All P (map key xs) → All (λ x. P (key x)) xs
  All-of_map P [] h = tt
  All-of_map P (x ∷ xs) h = (h.0, All-of_map P xs h.1)

  All-map : (P : Bytes → Type 0) (xs : List A) → All (λ x. P (key x)) xs → All P (map key xs)
  All-map P [] h = tt
  All-map P (x ∷ xs) h = (h.0, All-map P xs h.1)

  IsSorted-map : (xs : List A) → IsSorted key xs → IsSorted (λ k. k) (map key xs)
  IsSorted-map [] s = tt
  IsSorted-map (x ∷ xs) s = (All-map (λ k. text_leb (key x) k ≡ true) xs s.0, IsSorted-map xs s.1)

  IsSorted-of_map : (xs : List A) → IsSorted (λ k. k) (map key xs) → IsSorted key xs
  IsSorted-of_map [] s = tt
  IsSorted-of_map (x ∷ xs) s =
      (All-of_map (λ k. text_leb (key x) k ≡ true) xs s.0, IsSorted-of_map xs s.1)

-- Entries with the keys of a sorted list are sorted.
pub sort_by-of_same_keys {ℓ κ} :
    {A : Type ℓ} {B : Type κ} (f : A → Bytes) (g : B → Bytes) (xs : List A) (ys : List B)
    → map f xs ≡ map g (sort_by g ys)
    → sort_by f xs ≡ xs
sort_by-of_same_keys f g xs ys e =
    sort_by-of_IsSorted f xs
      (IsSorted-of_map f xs (rw e (IsSorted-map g (sort_by g ys) (sort_by-IsSorted g ys))))

pub All-sort_unique {κ} : (P : Bytes → Type κ) (xs : List Bytes) → All P xs → All P (sort_unique xs)
All-sort_unique P xs h =
    All-of_contains P (sort_unique xs)
      (λ k m. All-contains P k xs h (rw (← (contains-sort_unique k xs)) m))
