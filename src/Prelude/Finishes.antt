-- ===== src/Prelude/Finishes.antt =====
-- Steps that return or throw, whatever the state: none is cut off.
use mathlib.Core.Bool.{Bool, true, false}
use mathlib.Core.Logic.{◌≢◌}
use spio.Prelude.Tests.{if◌then◌else◌}
use spio.Prelude.Errors.{Result}
use spio.Prelude.Action.{
  Action, cut_off, ◌>>=◌, give, from_result, ask, attempt, modify, >>=-ne-cut_off,
  from_result-ne-cut_off,
}

pub record Finishes {S A : Type 0} (step : Action S A) : Type 0 where
  pub at : (s : S) → step s ≢ cut_off

module _ {S : Type 0} where
  pub >>=-Finishes :
      {A B : Type 0} {step : Action S A} {next : A → Action S B}
      → Finishes step
      → ((a : A) → Finishes (next a))
      → Finishes (step >>= next)
  >>=-Finishes {step = step} {next} h k = record {
    at = λ s. >>=-ne-cut_off step next s (h.at s) (λ a t e. (k a).at t);
  }

  pub give-Finishes : {A : Type 0} (a : A) → Finishes {S = S} (give a)
  unfolding give
  give-Finishes a = record { at = λ s q. cc }

  pub ask-Finishes : {A : Type 0} (look : S → A) → Finishes (ask look)
  unfolding ask
  ask-Finishes look = record { at = λ s q. cc }

  pub modify-Finishes : (change : S → S) → Finishes (modify change)
  unfolding modify
  modify-Finishes change = record { at = λ s q. cc }

  pub from_result-Finishes : {A : Type 0} (r : Result A) → Finishes {S = S} (from_result r)
  from_result-Finishes r = record { at = from_result-ne-cut_off r }

  pub attempt-Finishes : {A : Type 0} (look : S → Result A) → Finishes (attempt look)
  unfolding attempt
  attempt-Finishes look = record { at = λ s. from_result-ne-cut_off (look s) s }

  pub if-Finishes :
      {A : Type 0} (b : Bool) {x y : Action S A}
      → Finishes x
      → Finishes y
      → Finishes (if b then x else y)
  if-Finishes true h k = h
  if-Finishes false h k = k
