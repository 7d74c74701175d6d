-- ===== src/Prelude/Looks.antt =====
-- Steps that look at the state and leave it as it is, whether they return or throw.
use mathlib.Core.Path.{◌≡◌, refl, ◌∙◌}
use mathlib.Core.Logic.{◌⊎◌, inl, inr}
use spio.Prelude.Errors.{Error, Result, ok, err}
use spio.Prelude.Action.{
  Outcome, returned, threw, cut_off, Action, continue, ◌>>=◌, give, from_result, ask, attempt,
  >>=-eq-returned,
}

pub >>=-eq-threw {ℓ κ} :
    {S : Type 0} {A : Type ℓ} {B : Type κ} (step : Action S A) (next : A → Action S B) (s : S)
    {e : Error} {u : S}
    → (step >>= next) s ≡ threw e u
    → (step s ≡ threw e u) ⊎ ((a : A) × (t : S) × (step s ≡ returned a t) × (next a t ≡ threw e u))
>>=-eq-threw {S = S} {A} {B} step next s h = go (step s) refl h
  where
    go :
        (o : Outcome S A) {e : Error} {u : S}
        → step s ≡ o
        → continue o next ≡ threw e u
        → (step s ≡ threw e u)
          ⊎ ((a : A) × (t : S) × (step s ≡ returned a t) × (next a t ≡ threw e u))
    go (returned a t) q h = inr (a, t, q, h)
    go (threw x t) q h = inl (q ∙ threw_same h)
      where
        threw_same :
            {S : Type 0} {x e : Error} {t u : S}
            → ◌≡◌ {A = Outcome S B} (threw x t) (threw e u)
            → ◌≡◌ {A = Outcome S A} (threw x t) (threw e u)
        threw_same h = cc
    go cut_off q h = cc

pub record Looks {S A : Type 0} (step : Action S A) : Type 0 where
  pub returns : (s : S) (a : A) (t : S) → step s ≡ returned a t → s ≡ t
  pub throws : (s : S) (e : Error) (t : S) → step s ≡ threw e t → s ≡ t

module _ {S A : Type 0} where
  pub give-Looks : (a : A) → Looks {S = S} (give a)
  unfolding give
  give-Looks a = record { returns = λ s b t h. cc; throws = λ s e t h. cc }

  pub ask-Looks : (look : S → A) → Looks (ask look)
  unfolding ask
  ask-Looks look = record { returns = λ s b t h. cc; throws = λ s e t h. cc }

  pub from_result-Looks : (r : Result A) → Looks {S = S} (from_result r)
  unfolding from_result
  from_result-Looks (ok a) = record { returns = λ s b t h. cc; throws = λ s e t h. cc }
  from_result-Looks (err x) = record { returns = λ s b t h. cc; throws = λ s e t h. cc }

  pub attempt-Looks : (look : S → Result A) → Looks (attempt look)
  unfolding attempt
  attempt-Looks look = record {
    returns = λ s. (from_result-Looks (look s)).returns s;
    throws = λ s. (from_result-Looks (look s)).throws s;
  }

pub >>=-Looks :
    {S A B : Type 0} {step : Action S A} {next : A → Action S B}
    → Looks step
    → ((a : A) → Looks (next a))
    → Looks (step >>= next)
>>=-Looks {step = step} {next} h k = record {
  returns = λ s b u q.
      let (a, t, e, f) = >>=-eq-returned step next s q in h.returns s a t e ∙ (k a).returns t b u f;
  throws = λ s x u q. elim (>>=-eq-threw step next s q) [
    | inl e ↦ h.throws s x u e
    | inr (a, t, e, f) ↦ h.returns s a t e ∙ (k a).throws t x u f
  ];
}

-- A throw behind a look is the look's, with the state unchanged, or that of what follows it, which
-- starts from the same state.
pub threw-behind-Looks {κ} :
    {S A B : Type 0} {step : Action S A} (next : A → Action S B) (s : S) {e : Error} {u : S}
    {C : Type κ}
    → Looks step
    → (s ≡ u → C)
    → ((a : A) → step s ≡ returned a s → next a s ≡ threw e u → C)
    → (step >>= next) s ≡ threw e u
    → C
threw-behind-Looks {step = step} next s {e} {u} h unchanged later q =
    elim (>>=-eq-threw step next s q) [
      | inl f ↦ unchanged (h.throws s e u f)
      | inr (a, t, f, g) ↦
          let same = h.returns s a t f in later a (rw (← same) at f) (rw (← same) at g)
    ]

-- The same for a value that is returned.
pub returned-behind-Looks {κ} :
    {S A B : Type 0} {step : Action S A} (next : A → Action S B) (s : S) {b : B} {u : S}
    {C : Type κ}
    → Looks step
    → ((a : A) → step s ≡ returned a s → next a s ≡ returned b u → C)
    → (step >>= next) s ≡ returned b u
    → C
returned-behind-Looks {step = step} next s h later q =
    let (a, t, f, g) = >>=-eq-returned step next s q in
    let same = h.returns s a t f in later a (rw (← same) at f) (rw (← same) at g)
