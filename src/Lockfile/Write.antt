-- ===== src/Lockfile/Write.antt =====
-- src/PafioManifest/Lockfile.cpp: `SerializeLockfileCanonical`.
pub mod Laws
use spio.Prelude.{
  ℕ, Bytes, text, text_eq, join, Option, value_or, List, [], ◌∷◌, ◌++◌, map, if◌then◌else◌,
}
use spio.Prelude.Sort.{sort_by}
use spio.Quote.{quote_toml_string}
use spio.Lockfile.{LockPackage, LockfileDocument}

-- `out << key << " = " << QuoteTomlString(value) << "\n"`
abbrev pub line : Bytes → Bytes → Bytes
line key value = key ++ (text " = " ++ (quote_toml_string value ++ text "\n"))

abbrev pub array_text : List Bytes → Bytes
array_text values = text "[" ++ (join (text ", ") (map quote_toml_string values) ++ text "]\n")

unfoldable pub source_lines : LockPackage → Bytes
source_lines p =
    if text_eq p.source_kind (text "git")
    then line (text "git") (value_or p.git []) ++ line (text "rev") (value_or p.rev [])
    else if text_eq p.source_kind (text "registry")
    then line (text "registry") (value_or p.registry [])
      ++ line (text "sha256") (value_or p.sha256 [])
    else []

unfoldable pub serialize_package : LockPackage → Bytes
serialize_package p =
    text "\n[[package]]\n"
    ++ (line (text "id") p.id
        ++ (line (text "name") p.name
            ++ (line (text "version") p.version
                ++ (line (text "source-kind") p.source_kind
                    ++ (source_lines p
                        ++ (text "dependencies = "
                            ++ array_text (sort_by (λ d. d) p.dependencies)))))))

unfoldable pub serialize_packages : List LockPackage → Bytes
serialize_packages [] = []
serialize_packages (p ∷ ps) = serialize_package p ++ serialize_packages ps

unfoldable pub serialize_lockfile_canonical : LockfileDocument → Bytes
serialize_lockfile_canonical lockfile =
    text "lock-version = 1\n"
    ++ (text "\n[metadata]\n"
        ++ (line (text "generated-by") lockfile.generated_by
            ++ (line (text "resolver") lockfile.resolver
                ++ serialize_packages (sort_by (λ p. p.id) lockfile.packages))))
