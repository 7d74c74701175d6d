-- ===== src/Workflow/Edit/Names.antt =====
-- src/PafioWorkflow/Dependencies.cpp, `PackageShortName`: the part behind the slash.
use spio.Prelude.{
  Bytes, Bool-cases, true, false, [], ◌∷◌, ◌++◌, ok, ok_injective, >>=-eq-ok, require,
  require-eq-ok, validation_error, ◌==◌, ==_iff, ◌≡◌, refl, ap, arith, inl, inr,
}
use spio.Patterns.{regex_match, name_regex}
use spio.Patterns.Names.{match-name_regex}
use spio.Patterns.Names
use spio.Manifest.Load.{validate_package_name}
use spio.Workflow.Edit.{has_slash, after_slash, package_short_name}

slash_behind : (s : Bytes) → Names.after_slash s ≡ true → has_slash s ≡ true
unfolding Names.after_slash has_slash
slash_behind [] h = cc
slash_behind (c ∷ s) h = ground (arith, slash_behind s)

name-has_slash : (s : Bytes) → regex_match name_regex s ≡ true → has_slash s ≡ true
unfolding has_slash
name-has_slash [] h = unfold regex_match name_regex in cc
name-has_slash (c ∷ s) h = ground (arith, match-name_regex c s, slash_behind s)

-- The short name stands behind the owner and the first slash.
abbrev pub IsShortName : Bytes → Bytes → Type 0
IsShortName name short =
    (owner : Bytes) × (name ≡ owner ++ (b'/' ∷ short)) × (has_slash owner ≡ false)

after_slash-IsShortName : (s : Bytes) → has_slash s ≡ true → IsShortName s (after_slash s)
unfolding has_slash after_slash
after_slash-IsShortName [] h = cc
after_slash-IsShortName (c ∷ s) h = elim (Bool-cases (c == b'/')) [
  | inl e ↦ rw e ([], ap (λ d. d ∷ s) ((==_iff c b'/').0 e), refl)
  | inr e ↦
      let (owner, now, none_in) = after_slash-IsShortName s (ground (arith, h, e)) in
      rw e (c ∷ owner, ap (◌∷◌ c) now, ground (arith, e, none_in))
]

pub package_short_name-IsShortName :
    (name : Bytes) {short : Bytes} → package_short_name name ≡ ok short → IsShortName name short
unfolding package_short_name validate_package_name
package_short_name-IsShortName name h =
    let (_, a, h1) = >>=-eq-ok (require (regex_match name_regex name) validation_error) _ h in
    rw (← (ok_injective h1))
      (after_slash-IsShortName name (name-has_slash name (require-eq-ok _ validation_error a)))
