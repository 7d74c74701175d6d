-- ===== src/Prelude/Shuffle.antt =====
-- Sorting a list and its reorderings.
use mathlib.Core.Path.{◌≡◌, refl, ◌∙◌}
use mathlib.Core.List.{List, [], ◌∷◌, Permᴰ, Memᴰ}
use spio.Prelude.Lists.{All}
use spio.Prelude.Text.{Bytes}
use spio.Prelude.Sort.{insert_comm, sort_by}

module _ {ℓ κ} {A : Type ℓ} (P : A → Type κ) where
  pub All-perm : {xs ys : List A} → Permᴰ xs ys → All P xs → All P ys
  All-perm Permᴰ.nil h = h
  All-perm (Permᴰ.cons e p) h = (rw (← e) h.0, All-perm p h.1)
  All-perm (Permᴰ.swap e f) h = (rw (← f) h.1.0, (rw (← e) h.0, h.1.1))
  All-perm (Permᴰ.trans p q) h = All-perm q (All-perm p h)

module _ {ℓ κ} {A : Type ℓ} (key : A → Bytes) (P : A → Type κ)
    (injective : (x y : A) → P x → P y → key x ≡ key y → x ≡ y) where
  -- Entries under P are told apart by their keys, so their order is lost by sorting.
  pub sort_by-perm_of : {xs ys : List A} → Permᴰ xs ys → All P xs → sort_by key xs ≡ sort_by key ys
  unfolding sort_by
  sort_by-perm_of Permᴰ.nil h = refl
  sort_by-perm_of (Permᴰ.cons {a} {b} {l₁} {l₂} e p) h = rw (e, sort_by-perm_of p h.1) refl
  sort_by-perm_of (Permᴰ.swap {a} {b} {a'} {b'} {l} e f) h =
      rw (← e, ← f) (insert_comm key a b (sort_by key l) (injective a b h.0 h.1.0))
  sort_by-perm_of (Permᴰ.trans p q) h = sort_by-perm_of p h ∙ sort_by-perm_of q (All-perm P p h)

All-tail {ℓ} :
    {A : Type ℓ} (x : A) (ys xs : List A) → All (λ y. Memᴰ y xs) ys → All (λ y. Memᴰ y (x ∷ xs)) ys
All-tail x [] xs h = tt
All-tail x (y ∷ ys) xs h = (Memᴰ.tail h.0, All-tail x ys xs h.1)

-- Each entry of a list is in it.
pub All-Memᴰ {ℓ} : {A : Type ℓ} (xs : List A) → All (λ x. Memᴰ x xs) xs
All-Memᴰ [] = tt
All-Memᴰ (x ∷ xs) = (Memᴰ.head refl, All-tail x xs xs (All-Memᴰ xs))
