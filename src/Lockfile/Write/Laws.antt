-- ===== src/Lockfile/Write/Laws.antt =====
-- src/PafioManifest/Lockfile.cpp: the order of packages and dependencies in the canonical text.
use mathlib.Core.List.{Permᴰ, Memᴰ}
use spio.Prelude.{Bytes, List, [], ◌∷◌, ◌≡◌, refl, ap, ◌∙◌, All, Bool-cases, text_leb, inl, inr}
use spio.Prelude.Sort.{sort_by, insert}
use spio.Prelude.Shuffle.{sort_by-perm_of, All-Memᴰ}
use spio.Lockfile.{LockPackage}
use spio.Lockfile.Write.{
  source_lines, serialize_package, serialize_packages, serialize_lockfile_canonical,
}

-- The package with its dependencies in the order given.
abbrev pub with_dependencies : LockPackage → List Bytes → LockPackage
with_dependencies p ds = record p { dependencies = ds }

-- The second package is the first, its dependencies reordered.
abbrev pub IsSame : LockPackage → LockPackage → Type 0
IsSame p q = (ds : List Bytes) × Permᴰ p.dependencies ds × (q ≡ with_dependencies p ds)

abbrev pub AllSame : List LockPackage → List LockPackage → Type 0
AllSame [] [] = Unit
AllSame [] (q ∷ qs) = ⊥
AllSame (p ∷ ps) [] = ⊥
AllSame (p ∷ ps) (q ∷ qs) = IsSame p q × AllSame ps qs

All-unit : (xs : List Bytes) → All (λ x. Unit {0}) xs
All-unit [] = tt
All-unit (x ∷ xs) = (tt, All-unit xs)

serialize_package_same :
    (p q : LockPackage) → IsSame p q → serialize_package p ≡ serialize_package q
unfolding serialize_package source_lines
serialize_package_same p q (ds, h, e) =
    rw (e, sort_by-perm_of (λ d. d) (λ d. Unit {0}) (λ x y a b c. c) h (All-unit p.dependencies))
      refl

serialize_packages_same :
    (ps qs : List LockPackage) → AllSame ps qs → serialize_packages ps ≡ serialize_packages qs
unfolding serialize_packages
serialize_packages_same [] [] h = refl
serialize_packages_same [] (q ∷ qs) h = absurd h
serialize_packages_same (p ∷ ps) [] h = absurd h
serialize_packages_same (p ∷ ps) (q ∷ qs) h =
    rw (serialize_package_same p q h.0, serialize_packages_same ps qs h.1) refl

id_same : (p q : LockPackage) → IsSame p q → q.id ≡ p.id
id_same p q (ds, h, e) = ap (λ (x : LockPackage). x.id) e

leb_same :
    (p q a b : LockPackage) → IsSame p q → IsSame a b → text_leb q.id b.id ≡ text_leb p.id a.id
leb_same p q a b h k = cc (id_same p q h, id_same a b k)

insert_same :
    (p q : LockPackage) (ps qs : List LockPackage)
    → IsSame p q
    → AllSame ps qs
    → AllSame (insert (λ p. p.id) p ps) (insert (λ p. p.id) q qs)
unfolding insert
insert_same p q [] [] h k = (h, tt)
insert_same p q [] (b ∷ qs) h k = absurd k
insert_same p q (a ∷ ps) [] h k = absurd k
insert_same p q (a ∷ ps) (b ∷ qs) h k = elim (Bool-cases (text_leb p.id a.id)) [
  | inl e ↦ rw (e, leb_same p q a b h k.0 ∙ e) (h, k)
  | inr e ↦ rw (e, leb_same p q a b h k.0 ∙ e) (k.0, insert_same p q ps qs h k.1)
]

sort_by_same :
    (ps qs : List LockPackage)
    → AllSame ps qs
    → AllSame (sort_by (λ p. p.id) ps) (sort_by (λ p. p.id) qs)
unfolding sort_by
sort_by_same [] [] h = tt
sort_by_same [] (q ∷ qs) h = absurd h
sort_by_same (p ∷ ps) [] h = absurd h
sort_by_same (p ∷ ps) (q ∷ qs) h = insert_same p q _ _ h.0 (sort_by_same ps qs h.1)

-- The ids of the packages tell them apart.
abbrev pub IsKeyed : List LockPackage → Type 0
IsKeyed ps = (p q : LockPackage) → Memᴰ p ps → Memᴰ q ps → p.id ≡ q.id → p ≡ q

-- Two lockfiles have the same canonical text if the packages of the one are those of the other in
-- some order, each with its dependencies in some order, and no two packages of the other share an
-- id.
pub serialize_lockfile_canonical-reordered :
    (generated_by resolver : Bytes) (ps qs rs : List LockPackage)
    → AllSame ps qs
    → Permᴰ qs rs
    → IsKeyed qs
    → serialize_lockfile_canonical
        record { generated_by = generated_by; resolver = resolver; packages = ps }
      ≡ serialize_lockfile_canonical
          record { generated_by = generated_by; resolver = resolver; packages = rs }
unfolding serialize_lockfile_canonical
serialize_lockfile_canonical-reordered generated_by resolver ps qs rs same perm keyed =
    rw
      (
        serialize_packages_same _ _ (sort_by_same ps qs same),
        sort_by-perm_of (λ p. p.id) (λ p. Memᴰ p qs) keyed perm (All-Memᴰ qs),
      )
      refl
