-- ===== src/Prelude/Action.antt =====
-- Code that changes what is outside of it: a step from a state to its outcome, a value with the next
-- state, or the class of the exception that is thrown with the state it leaves. A bounded model of
-- a recursion that was cut off has an outcome of its own.
use mathlib.Core.Path.{◌≡◌, refl}
use mathlib.Core.Logic.{◌≢◌}
use spio.Prelude.Errors.{Error, Result, ok, err}

pub data Outcome {ℓ} (S : Type 0) (A : Type ℓ) : Type ℓ where
  returned : A → S → Outcome S A
  threw : Error → S → Outcome S A
  cut_off : Outcome S A

abbrev pub Action {ℓ} : Type 0 → Type ℓ → Type ℓ
Action S A = S → Outcome S A

module _ {ℓ κ} {S : Type 0} {A : Type ℓ} {B : Type κ} where
  abbrev pub continue : Outcome S A → (A → Action S B) → Outcome S B
  continue (returned a s) next = next a s
  continue (threw e s) next = threw e s
  continue cut_off next = cut_off

  infixl 5 ◌>>=◌
  abbrev pub ◌>>=◌ : Action S A → (A → Action S B) → Action S B
  (step >>= next) s = continue (step s) next

  -- Inversion of a step that is followed by another.
  pub >>=-eq-returned :
      (step : Action S A) (next : A → Action S B) (s : S) {b : B} {u : S}
      → (step >>= next) s ≡ returned b u
      → (a : A) × (t : S) × (step s ≡ returned a t) × (next a t ≡ returned b u)
  >>=-eq-returned step next s h = go (step s) refl h
    where
      go :
          (o : Outcome S A) {b : B} {u : S}
          → step s ≡ o
          → continue o next ≡ returned b u
          → (a : A) × (t : S) × (step s ≡ returned a t) × (next a t ≡ returned b u)
      go (returned a t) e h = (a, t, e, h)
      go (threw x t) e h = cc
      go cut_off e h = cc

  pub >>=-ne-cut_off :
      (step : Action S A) (next : A → Action S B) (s : S)
      → step s ≢ cut_off
      → ((a : A) (t : S) → step s ≡ returned a t → next a t ≢ cut_off)
      → (step >>= next) s ≢ cut_off
  >>=-ne-cut_off step next s h k = go (step s) refl
    where
      go : (o : Outcome S A) → step s ≡ o → continue o next ≢ cut_off
      go (returned a t) e = k a t e
      go (threw x t) e = λ q. cc
      go cut_off e = λ q. h e

infixl 5 ◌>>◌
abbrev pub ◌>>◌ {ℓ} : {S : Type 0} {B : Type ℓ} → Action S (Unit {0}) → Action S B → Action S B
step >> rest = step >>= λ _. rest

unfoldable pub give {ℓ} : {S : Type 0} {A : Type ℓ} → A → Action S A
give a s = returned a s

unfoldable pub from_result {ℓ} : {S : Type 0} {A : Type ℓ} → Result A → Action S A
from_result (ok a) s = returned a s
from_result (err e) s = threw e s

-- a look at the state
unfoldable pub ask {ℓ} : {S : Type 0} {A : Type ℓ} → (S → A) → Action S A
ask look s = returned (look s) s

-- a look at the state that may throw
unfoldable pub attempt {ℓ} : {S : Type 0} {A : Type ℓ} → (S → Result A) → Action S A
unfolding from_result
attempt look s = from_result (look s) s

unfoldable pub modify : {S : Type 0} → (S → S) → Action S (Unit {0})
modify change s = returned tt (change s)

pub from_result-eq-returned {ℓ} :
    {S : Type 0} {A : Type ℓ} (r : Result A) (s : S) {a : A} {t : S}
    → from_result r s ≡ returned a t
    → (r ≡ ok a) × (s ≡ t)
unfolding from_result
from_result-eq-returned (ok a) s h = (cc, cc)
from_result-eq-returned (err e) s h = cc

pub from_result-ne-cut_off {ℓ} :
    {S : Type 0} {A : Type ℓ} (r : Result A) (s : S) → from_result r s ≢ cut_off
unfolding from_result
from_result-ne-cut_off (ok a) s = λ q. cc
from_result-ne-cut_off (err e) s = λ q. cc

pub returned_injective {ℓ} :
    {S : Type 0} {A : Type ℓ} {a b : A} {s t : S}
    → ◌≡◌ {A = Outcome S A} (returned a s) (returned b t)
    → (a ≡ b) × (s ≡ t)
returned_injective h = (cc, cc)

-- What holds of a result and a state holds of those that equal them.
pub carry {κ} :
    {A S : Type 0} (Q : A → S → Type κ) {a b : A} {s t : S} → a ≡ b → s ≡ t → Q a s → Q b t
carry Q p q h = rw (← p, ← q) h
