-- ===== src/Tests/Lockfiles.antt =====
-- Tests: lockfiles and quoting.
use mathlib.Core.List.{Permᴰ, Memᴰ}
use spio.Prelude.{Bytes, text, text_eq, some, List, [], ◌∷◌, ok, ◌≡◌, ◌≢◌, refl, All, contains}
use spio.Toml.{is_one, strings_of}
use spio.Patterns.{is_lower_or_digit, is_name_char, semver_regex, regex_match, name_regex}
use spio.Lockfile.{LockPackage}
use spio.Lockfile.Load.{parse_package, parse_packages, check_package, check_source, load_lockfile}
use spio.Lockfile.Load.Laws.{IsLockPackage, load_lockfile-IsLockPackage}
use spio.Lockfile.Write.{serialize_lockfile_canonical}
use spio.Lockfile.Write.Laws.{serialize_lockfile_canonical-reordered}
use spio.Quote.{quote_toml_string-injective}
use spio.Tests.Document.{document_toml}
use spio.Tests.Project.{lock_package, lock_document}

lockfile_lem :
    load_lockfile document_toml (some lock_document)
    ≡ ok (record {
      generated_by = text "pafio";
      resolver = text "single-version-v1";
      packages = lock_package (text "app") [] ∷ [];
    })
unfolding load_lockfile is_one text_eq parse_packages parse_package strings_of check_package
    regex_match name_regex is_lower_or_digit is_name_char semver_regex contains check_source
lockfile_lem = refl

load_lockfile-IsLockPackage_example :
    (text "pafio" ≢ [])
    × (text "single-version-v1" ≡ text "single-version-v1")
    × All IsLockPackage (lock_package (text "app") [] ∷ [])
load_lockfile-IsLockPackage_example =
    load_lockfile-IsLockPackage document_toml (some lock_document) lockfile_lem

abbrev ab : List Bytes
ab = text "a" ∷ text "b" ∷ []

abbrev ba : List Bytes
ba = text "b" ∷ text "a" ∷ []

abbrev lock_pair : List Bytes → List LockPackage
lock_pair ds = lock_package (text "x") ds ∷ lock_package [] [] ∷ []

lock_pair-IsKeyed :
    (p q : LockPackage) → Memᴰ p (lock_pair ba) → Memᴰ q (lock_pair ba) → p.id ≡ q.id → p ≡ q
lock_pair-IsKeyed p q (Memᴰ.head e) (Memᴰ.head f) h = cc
lock_pair-IsKeyed p q (Memᴰ.head e) (Memᴰ.tail (Memᴰ.head f)) h = cc
lock_pair-IsKeyed p q (Memᴰ.head e) (Memᴰ.tail (Memᴰ.tail m)) h = elim m [ ]
lock_pair-IsKeyed p q (Memᴰ.tail (Memᴰ.head e)) (Memᴰ.head f) h = cc
lock_pair-IsKeyed p q (Memᴰ.tail (Memᴰ.head e)) (Memᴰ.tail (Memᴰ.head f)) h = cc
lock_pair-IsKeyed p q (Memᴰ.tail (Memᴰ.head e)) (Memᴰ.tail (Memᴰ.tail m)) h = elim m [ ]
lock_pair-IsKeyed p q (Memᴰ.tail (Memᴰ.tail m)) f h = elim m [ ]

serialize_lockfile_canonical-reordered_example :
    serialize_lockfile_canonical
      record { generated_by = text "pafio"; resolver = text "r"; packages = lock_pair ab }
    ≡ serialize_lockfile_canonical record {
      generated_by = text "pafio";
      resolver = text "r";
      packages = lock_package [] [] ∷ lock_package (text "x") ba ∷ [];
    }
serialize_lockfile_canonical-reordered_example =
    serialize_lockfile_canonical-reordered (text "pafio") (text "r") (lock_pair ab) (lock_pair ba)
      (lock_package [] [] ∷ lock_package (text "x") ba ∷ [])
      ((ba, Permᴰ.swap refl refl, refl), (([], Permᴰ.nil, refl), tt)) (Permᴰ.swap refl refl)
      lock_pair-IsKeyed

quote_toml_string-injective_example : (text "a\"b" ≡ text "a\"b") × (text " }" ≡ text " }")
quote_toml_string-injective_example =
    quote_toml_string-injective (text "a\"b") (text "a\"b") (text " }") (text " }") refl
