-- ===== src/Quote.antt =====
-- `QuoteTomlString` and `QuoteTomlKey` of src/PafioManifest/Manifest.cpp and Lockfile.cpp:
-- std::quoted, which puts a backslash before each quote and each backslash.
use mathlib.Core.List.{append_assoc}
use spio.Prelude.{
  ℕ, Bytes, Bool, true, false, ◌||◌, [], ◌∷◌, ◌++◌, Option, none, some, ◌≡◌, refl, arith,
  if◌then◌else◌, ◌==◌, Bool-cases, inl, inr, sym, ap, ◌∙◌,
}
use spio.Patterns.{regex_match, bare_key_regex}

escape : Bytes → Bytes
escape [] = []
escape (c ∷ s) = if c == b'"' || c == b'\\' then b'\\' ∷ c ∷ escape s else c ∷ escape s

unfoldable pub quote_toml_string : Bytes → Bytes
unfolding escape
quote_toml_string value = b'"' ∷ (escape value ++ b'"' ∷ [])

unfoldable pub quote_toml_key : Bytes → Bytes
quote_toml_key value = if regex_match bare_key_regex value then value else quote_toml_string value

put_byte : ℕ → Option (Bytes × Bytes) → Option (Bytes × Bytes)
put_byte c none = none
put_byte c (some (t, rest)) = some (c ∷ t, rest)

-- The text in quotation marks and what follows it, which shows that quoting loses nothing. The flag
-- says that the byte before was an escaping backslash.
unquote_body : Bool → Bytes → Option (Bytes × Bytes)
unfolding put_byte
unquote_body escaped [] = none
unquote_body true (c ∷ s) = put_byte c (unquote_body false s)
unquote_body false (c ∷ s) =
    let after = unquote_body true s in
    let plain = unquote_body false s in
    if c == b'"' then some ([], s) else if c == b'\\' then after else put_byte c plain

unquote : Bytes → Option (Bytes × Bytes)
unfolding unquote_body
unquote [] = none
unquote (c ∷ s) = if c == b'"' then unquote_body false s else none

unquote_body-escape :
    (s rest : Bytes) → unquote_body false (escape s ++ b'"' ∷ rest) ≡ some (s, rest)
unfolding unquote_body escape
unquote_body-escape [] rest = refl
unquote_body-escape (c ∷ s) rest = elim (Bool-cases (c == b'"' || c == b'\\')) [
  | inl e ↦ rw e (rw (unquote_body-escape s rest) refl)
  | inr e ↦ rw e (ground (arith, unquote_body-escape s rest))
]

unquote-quote_toml_string :
    (s rest : Bytes) → unquote (quote_toml_string s ++ rest) ≡ some (s, rest)
unfolding unquote quote_toml_string
unquote-quote_toml_string s rest =
    rw (append_assoc (escape s) (b'"' ∷ []) rest) (unquote_body-escape s rest)

some_pair :
    {s t r q : Bytes}
    → ◌≡◌ {A = Option (Bytes × Bytes)} (some (s, r)) (some (t, q))
    → (s ≡ t) × (r ≡ q)
some_pair h = (cc, cc)

-- Where two quoted texts, each with some text behind it, are the same, the quoted texts are the same
-- and so is what stands behind them: quoting keeps texts apart and marks their end.
pub quote_toml_string-injective :
    (s t rest more : Bytes)
    → quote_toml_string s ++ rest ≡ quote_toml_string t ++ more
    → (s ≡ t) × (rest ≡ more)
quote_toml_string-injective s t rest more h =
    some_pair
      (sym (unquote-quote_toml_string s rest) ∙ ap unquote h ∙ unquote-quote_toml_string t more)
