-- ===== src/Security/ObjectPath.antt =====
-- src/PafioSecurity/RegistrySecurity.cpp: `NormalizeRegistryObjectPath` and its parts.
use mathlib.Core.List.{reverse, reverse-cons, append_assoc, append-nil}
use spio.Prelude.{
  ℕ, Bytes, text, text_eq_iff, join, false, List, [], ◌∷◌, ◌++◌, ok, ◌≡◌, ◌≢◌, refl, sym, ◌∙◌,
  arith, All, ◌==◌, Bool-cases, inl, inr, if◌then◌else◌,
}
use spio.Security.{
  put_front, split_posix_path, has_byte, ends_with_slash, has_control, has_bad_part, normal_parts,
  or_dot, lexically_normal, normalize_registry_object_path,
}

-- A name that neither stays in a folder nor leaves it.
abbrev pub IsPlainPart : Bytes → Type 0
IsPlainPart p = (p ≢ []) × (p ≢ text ".") × (p ≢ text "..") × (has_byte b'/' p ≡ false)

normal_parts-plain :
    (out ps : List Bytes) → has_bad_part ps ≡ false → normal_parts out ps ≡ reverse out ++ ps
unfolding normal_parts has_bad_part
normal_parts-plain out [] h = sym (append-nil (reverse out))
normal_parts-plain out (p ∷ ps) h = ground (
  arith,
  normal_parts-plain (p ∷ out) ps,
  reverse-cons p out,
  append_assoc (reverse out) (p ∷ []) ps,
)

join-put_front :
    (c : ℕ) (sep : Bytes) (p : Bytes) (ps : List Bytes)
    → join sep (put_front c (p ∷ ps)) ≡ c ∷ join sep (p ∷ ps)
unfolding join put_front
join-put_front c sep p [] = refl
join-put_front c sep p (q ∷ ps) = refl

split-ne-nil : (c : ℕ) (s : Bytes) → split_posix_path (c ∷ s) ≢ []
unfolding split_posix_path
split-ne-nil c s = elim (Bool-cases (c == b'/')) [
  | inl e ↦ rw e (λ q. cc)
  | inr e ↦ rw e (λ q. put_front-ne-nil (split_posix_path s) q)
]
  where
    put_front-ne-nil : (ps : List Bytes) → put_front c ps ≢ []
    put_front-ne-nil [] = λ q. unfold put_front in cc
    put_front-ne-nil (p ∷ ps) = λ q. unfold put_front in cc

join-split-cons :
    (c : ℕ) (rest : List Bytes) (u : Bytes)
    → rest ≢ []
    → join (text "/") rest ≡ u
    → join (text "/") (if c == b'/' then [] ∷ rest else put_front c rest) ≡ c ∷ u
unfolding join
join-split-cons c [] u n e = absurd (n refl)
join-split-cons c (p ∷ ps) u n e = ground (arith, join-put_front c (text "/") p ps)

join-split : (s : Bytes) → ends_with_slash s ≡ false → join (text "/") (split_posix_path s) ≡ s
unfolding split_posix_path ends_with_slash
join-split [] h = unfold join in refl
join-split (c ∷ []) h = unfold join put_front in ground arith
join-split (c ∷ d ∷ s) h =
    join-split-cons c (split_posix_path (d ∷ s)) (d ∷ s) (split-ne-nil d s) (join-split (d ∷ s) h)

put_front-no-slash :
    (c : ℕ) (ps : List Bytes)
    → (c == b'/') ≡ false
    → All (λ p. has_byte b'/' p ≡ false) ps
    → All (λ p. has_byte b'/' p ≡ false) (put_front c ps)
unfolding put_front has_byte
put_front-no-slash c [] n h = (ground arith, tt)
put_front-no-slash c (p ∷ ps) n h = (ground arith, h.1)

split-no-slash : (s : Bytes) → All (λ p. has_byte b'/' p ≡ false) (split_posix_path s)
unfolding split_posix_path
split-no-slash [] = tt
split-no-slash (c ∷ s) = elim (Bool-cases (c == b'/')) [
  | inl e ↦ rw e (unfold has_byte in refl, split-no-slash s)
  | inr e ↦ rw e (put_front-no-slash c (split_posix_path s) e (split-no-slash s))
]

plain_parts :
    (ps : List Bytes)
    → has_bad_part ps ≡ false
    → All (λ p. has_byte b'/' p ≡ false) ps
    → All IsPlainPart ps
unfolding has_bad_part
plain_parts [] h k = tt
plain_parts (p ∷ ps) h k = (
  (
    λ e. ground (arith, e),
    λ e. ground (arith, text_eq_iff p (text ".")),
    λ e. ground (arith, text_eq_iff p (text "..")),
    k.0,
  ),
  plain_parts ps (ground arith) k.1,
)

-- A relative path of plain names, joined by single slashes.
pub record IsSafePath (path : Bytes) : Type 0 where
  pub parts : List Bytes
  pub joined : join (text "/") parts ≡ path
  pub plain : All IsPlainPart parts
  pub ne_nil : path ≢ []
  pub no_backslash : has_byte b'\\' path ≡ false
  pub no_control : has_control path ≡ false

or_dot-join : (ps : List Bytes) → ps ≢ [] → or_dot ps ≡ join (text "/") ps
unfolding or_dot
or_dot-join [] n = absurd (n refl)
or_dot-join (p ∷ ps) n = refl

normal-of-split :
    (c : ℕ) (s : Bytes)
    → ends_with_slash (c ∷ s) ≡ false
    → has_bad_part (split_posix_path (c ∷ s)) ≡ false
    → lexically_normal (c ∷ s) ≡ c ∷ s
unfolding lexically_normal
normal-of-split c s e h =
    rw (normal_parts-plain [] (split_posix_path (c ∷ s)) h)
      (or_dot-join (split_posix_path (c ∷ s)) (split-ne-nil c s) ∙ join-split (c ∷ s) e)

-- A path that `NormalizeRegistryObjectPath` accepts is returned as it is, and it is a path of plain
-- names below the root: not empty, no empty name, no `.` and no `..`, no backslash and no control
-- character.
pub normalize_registry_object_path-IsSafePath :
    (path : Bytes) {q : Bytes}
    → normalize_registry_object_path path ≡ ok q
    → (q ≡ path) × IsSafePath path
unfolding normalize_registry_object_path
normalize_registry_object_path-IsSafePath [] h = cc
normalize_registry_object_path-IsSafePath (c ∷ s) {q} h =
    let slash : ends_with_slash (c ∷ s) ≡ false = ground arith in
    let bad : has_bad_part (split_posix_path (c ∷ s)) ≡ false = ground arith in
    let same : lexically_normal (c ∷ s) ≡ q = ground arith in
    (
      sym same ∙ normal-of-split c s slash bad,
      record {
        parts = split_posix_path (c ∷ s);
        joined = join-split (c ∷ s) slash;
        plain = plain_parts (split_posix_path (c ∷ s)) bad (split-no-slash (c ∷ s));
        ne_nil = λ e. cc;
        no_backslash = ground arith;
        no_control = ground arith;
      },
    )
