-- ===== src/Prelude/Indexed.antt =====
-- Positions in a list: appending, changing one entry, and entries that are told apart.
use Prim.Native.Nat.{ℕ, zero, suc}
use mathlib.Core.Path.{◌≡◌, refl, ap}
use mathlib.Core.Bool.{true}
use mathlib.Core.Logic.{◌⊎◌, inl, inr}
use mathlib.Core.List.{List, [], ◌∷◌, ◌++◌, map}
use mathlib.Core.Option.{some}
use native.Mathlib.Omega.{arith}
use spio.Prelude.Tests.{Bool-cases}
use spio.Prelude.Lists.{All, length, get_elem?}
use spio.Prelude.Text.{Bytes, text_eq, text_eq_iff, text_eq_refl, contains}
use spio.Prelude.Distinct.{IsDistinct}

module _ {ℓ} {A : Type ℓ} where
  unfoldable pub update_at : ℕ → (A → A) → List A → List A
  update_at i f [] = []
  update_at zero f (a ∷ rest) = f a ∷ rest
  update_at (suc i) f (a ∷ rest) = a ∷ update_at i f rest

  pub update_at-append :
      (f : A → A) (xs ys : List A) (a : A)
      → update_at (length xs) f ((xs ++ a ∷ []) ++ ys) ≡ xs ++ f a ∷ ys
  unfolding update_at
  update_at-append f [] ys a = refl
  update_at-append f (x ∷ xs) ys a = ap (◌∷◌ x) (update_at-append f xs ys a)

  pub get_elem?-append :
      (xs ys : List A) (i : ℕ) {a : A} → get_elem? xs i ≡ some a → get_elem? (xs ++ ys) i ≡ some a
  get_elem?-append [] ys i h = cc
  get_elem?-append (x ∷ xs) ys zero h = h
  get_elem?-append (x ∷ xs) ys (suc i) h = get_elem?-append xs ys i h

  pub get_elem?-length : (xs : List A) (a : A) → get_elem? (xs ++ a ∷ []) (length xs) ≡ some a
  get_elem?-length [] a = refl
  get_elem?-length (x ∷ xs) a = get_elem?-length xs a

  -- An entry of a list with one more at the end.
  pub get_elem?-concat :
      (xs : List A) (a : A) (i : ℕ) {b : A}
      → get_elem? (xs ++ a ∷ []) i ≡ some b
      → (get_elem? xs i ≡ some b) ⊎ ((i ≡ length xs) × (a ≡ b))
  get_elem?-concat [] a zero h = inr (refl, cc)
  get_elem?-concat [] a (suc i) h = cc
  get_elem?-concat (x ∷ xs) a zero h = inl h
  get_elem?-concat (x ∷ xs) a (suc i) h = elim (get_elem?-concat xs a i h) [
    | inl e ↦ inl e
    | inr (p, q) ↦ inr (ap suc p, q)
  ]

  pub All-of_get_elem? {κ} :
      (P : A → Type κ) (xs : List A) → ((i : ℕ) (x : A) → get_elem? xs i ≡ some x → P x) → All P xs
  All-of_get_elem? P [] h = tt
  All-of_get_elem? P (x ∷ xs) h = (h 0 x refl, All-of_get_elem? P xs (λ i y e. h (suc i) y e))

module _ {ℓ κ} {A : Type ℓ} (P : A → Type κ) where
  pub All-update_at :
      (f : A → A) (i : ℕ) (xs : List A)
      → ((a : A) → P a → P (f a))
      → All P xs
      → All P (update_at i f xs)
  unfolding update_at
  All-update_at f i [] k h = tt
  All-update_at f zero (x ∷ xs) k h = (k x h.0, h.1)
  All-update_at f (suc i) (x ∷ xs) k h = (h.0, All-update_at f i xs k h.1)

module _ {ℓ κ} {A : Type ℓ} {B : Type κ} (g : A → B) where
  -- A change that a view of the entries does not show.
  pub map-update_at :
      (f : A → A) (i : ℕ) (xs : List A)
      → ((a : A) → g (f a) ≡ g a)
      → map g (update_at i f xs) ≡ map g xs
  unfolding update_at
  map-update_at f i [] h = refl
  map-update_at f zero (x ∷ xs) h = rw (h x) refl
  map-update_at f (suc i) (x ∷ xs) h = ap (◌∷◌ (g x)) (map-update_at f i xs h)

  pub map-++ : (xs ys : List A) → map g (xs ++ ys) ≡ map g xs ++ map g ys
  map-++ [] ys = refl
  map-++ (x ∷ xs) ys = ap (◌∷◌ (g x)) (map-++ xs ys)

  pub length-map : (xs : List A) → length (map g xs) ≡ length xs
  length-map [] = refl
  length-map (x ∷ xs) = ap suc (length-map xs)

  pub get_elem?-map :
      (xs : List A) (i : ℕ) {a : A} → get_elem? xs i ≡ some a → get_elem? (map g xs) i ≡ some (g a)
  get_elem?-map [] i h = cc
  get_elem?-map (x ∷ xs) zero h = cc
  get_elem?-map (x ∷ xs) (suc i) h = get_elem?-map xs i h

pub get_elem?-of_contains :
    (k : Bytes) (xs : List Bytes) → contains k xs ≡ true → (i : ℕ) × (get_elem? xs i ≡ some k)
unfolding contains
get_elem?-of_contains k [] h = cc
get_elem?-of_contains k (x ∷ xs) h = elim (Bool-cases (text_eq x k)) [
  | inl e ↦ (0, ap some ((text_eq_iff x k).0 e))
  | inr e ↦ let (i, at) = get_elem?-of_contains k xs (ground arith) in (suc i, at)
]

pub contains-get_elem? :
    (k : Bytes) (xs : List Bytes) (i : ℕ) → get_elem? xs i ≡ some k → contains k xs ≡ true
unfolding contains
contains-get_elem? k [] i h = cc
contains-get_elem? k (x ∷ xs) zero h = ground (arith, text_eq_iff x k)
contains-get_elem? k (x ∷ xs) (suc i) h = ground (arith, contains-get_elem? k xs i h)

-- Texts are told apart when each stands at one place only.
pub IsDistinct-of_places :
    (xs : List Bytes)
    → ((i j : ℕ) (k : Bytes) → get_elem? xs i ≡ some k → get_elem? xs j ≡ some k → i ≡ j)
    → IsDistinct xs
IsDistinct-of_places [] h = tt
IsDistinct-of_places (x ∷ xs) h = (
  elim (Bool-cases (contains x xs)) [
    | inl e ↦
        let (j, at) = get_elem?-of_contains x xs e in absurd (ground (arith, h 0 (suc j) x refl at))
    | inr e ↦ e
  ],
  IsDistinct-of_places xs (λ i j k a b. ground (arith, h (suc i) (suc j) k a b)),
)

pub places-of_IsDistinct :
    (xs : List Bytes) (i j : ℕ) (k : Bytes)
    → IsDistinct xs
    → get_elem? xs i ≡ some k
    → get_elem? xs j ≡ some k
    → i ≡ j
places-of_IsDistinct [] i j k d a b = cc
places-of_IsDistinct (x ∷ xs) zero zero k d a b = refl
places-of_IsDistinct (x ∷ xs) zero (suc j) k d a b =
    absurd (ground (arith, d.0, contains-get_elem? k xs j b, a))
places-of_IsDistinct (x ∷ xs) (suc i) zero k d a b =
    absurd (ground (arith, d.0, contains-get_elem? k xs i a, b))
places-of_IsDistinct (x ∷ xs) (suc i) (suc j) k d a b =
    ap suc (places-of_IsDistinct xs i j k d.1 a b)

contains-map :
    (f : Bytes → Bytes) (k : Bytes) (xs : List Bytes)
    → contains k xs ≡ true
    → contains (f k) (map f xs) ≡ true
unfolding contains
contains-map f k [] h = cc
contains-map f k (x ∷ xs) h =
    ground (arith, contains-map f k xs, text_eq_iff x k, text_eq_refl (f k))

-- What can be read off the texts tells them apart.
pub IsDistinct-of_map :
    (f : Bytes → Bytes) (xs : List Bytes) → IsDistinct (map f xs) → IsDistinct xs
IsDistinct-of_map f [] d = tt
IsDistinct-of_map f (x ∷ xs) d =
    (ground (arith, d.0, contains-map f x xs), IsDistinct-of_map f xs d.1)
