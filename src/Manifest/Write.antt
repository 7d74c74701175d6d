-- ===== src/Manifest/Write.antt =====
-- src/PafioManifest/Manifest.cpp: `SerializeManifestCanonical`.
pub mod Laws
use spio.Prelude.{
  Bytes, text, is_empty, join, Bool, Option, none, some, value_or, List, [], ◌∷◌, ◌++◌, map,
  if◌then◌else◌,
}
use spio.Prelude.Sort.{sort_by}
use spio.Quote.{quote_toml_string, quote_toml_key}
use spio.Manifest.{
  DependencySourceKind, path, git, registry, Dependency, LibTarget, BinTarget, TestTarget,
  WorkspaceConfig, PackageConfig, ManifestDocument,
}

-- `label << " = " << QuoteTomlString(value)`
abbrev pub emit_field : Bytes → Bytes → Bytes
emit_field label value = label ++ (text " = " ++ quote_toml_string value)

abbrev pub emit_line : Bytes → Bytes → Bytes
emit_line label value = emit_field label value ++ text "\n"

unfoldable pub emit_string_array : Bytes → List Bytes → Bytes
emit_string_array key values =
    key ++ (text " = [" ++ (join (text ", ") (map quote_toml_string values) ++ text "]\n"))

unfoldable pub source_fields : DependencySourceKind → Dependency → List Bytes
source_fields path d = emit_field (text "path") d.source ∷ []
source_fields git d =
    emit_field (text "git") d.source ∷ emit_field (text "rev") (value_or d.rev []) ∷ []
source_fields registry d =
    emit_field (text "version") (value_or d.version []) ∷ emit_field (text "registry") d.source ∷ []

unfoldable pub dependency_fields : Option Bytes → Dependency → List Bytes
unfolding source_fields
dependency_fields none d = source_fields d.source_kind d
dependency_fields (some name) d = emit_field (text "package") name ∷ source_fields d.source_kind d

unfoldable pub emit_dependency : Dependency → Bytes
unfolding dependency_fields
emit_dependency d =
    quote_toml_key d.alias
    ++ (text " = { " ++ (join (text ", ") (dependency_fields d.package_name d) ++ text " }\n"))

-- One text behind the other.
unfoldable pub emit_all {ℓ} : {A : Type ℓ} → (A → Bytes) → List A → Bytes
emit_all emit [] = []
emit_all emit (x ∷ xs) = emit x ++ emit_all emit xs

unfoldable pub emit_dependency_section : Bytes → List Dependency → Bytes
unfolding emit_all emit_dependency
emit_dependency_section section_name dependencies =
    if is_empty dependencies
    then []
    else text "["
      ++ (section_name
          ++ (text "]\n" ++ emit_all emit_dependency (sort_by (λ d. d.alias) dependencies)))

-- the blank line before a section that is there
unfoldable pub emit_dependencies : Bytes → List Dependency → Bytes
unfolding emit_dependency_section
emit_dependencies section_name dependencies =
    if is_empty dependencies
    then []
    else text "\n" ++ emit_dependency_section section_name dependencies

unfoldable pub emit_bin : BinTarget → Bytes
emit_bin b =
    text "\n[[bin]]\n" ++ (emit_line (text "name") b.name ++ emit_line (text "path") b.path)

unfoldable pub emit_test : TestTarget → Bytes
emit_test t =
    text "\n[[test]]\n" ++ (emit_line (text "name") t.name ++ emit_line (text "path") t.path)

unfoldable pub emit_lib : Option LibTarget → Bytes
emit_lib none = []
emit_lib (some l) = text "\n[lib]\n" ++ emit_line (text "path") l.path

abbrev pub emit_bool : Bytes → Bool → Bytes
emit_bool label value = label ++ (if value then text " = true\n" else text " = false\n")

-- Without binaries or tests the loops write nothing.
unfoldable pub emit_package : Option PackageConfig → Bytes
unfolding emit_lib emit_all emit_bin emit_test emit_dependencies
emit_package none = []
emit_package (some p) =
    text "\n[package]\n"
    ++ (emit_line (text "name") p.name
        ++ (emit_line (text "version") p.version
            ++ (emit_line (text "edition") p.edition
                ++ (emit_bool (text "publish") p.publish
                    ++ (text "\n[toolchain]\n"
                        ++ (emit_line (text "channel") p.toolchain.channel
                            ++ (emit_bool (text "implicit-std") p.toolchain.implicit_std
                                ++ (emit_lib p.lib
                                    ++ (emit_all emit_bin (sort_by (λ b. b.name) p.bins)
                                        ++ (emit_all emit_test (sort_by (λ t. t.name) p.tests)
                                            ++ (emit_dependencies (text "dependencies")
                                                  p.dependencies
                                                ++ emit_dependencies (text "dev-dependencies")
                                                    p.dev_dependencies)))))))))))

unfoldable pub emit_workspace : Option WorkspaceConfig → Bytes
unfolding emit_string_array
emit_workspace none = []
emit_workspace (some w) =
    text "\n[workspace]\n"
    ++ (emit_string_array (text "members") w.members
        ++ ((if is_empty w.exclude then [] else emit_string_array (text "exclude") w.exclude)
            ++ emit_line (text "resolver") w.resolver))

unfoldable pub serialize_manifest_canonical : ManifestDocument → Bytes
unfolding emit_package emit_workspace
serialize_manifest_canonical m =
    text "[pafio]\nmanifest-version = 1\n"
    ++ (emit_package m.package_config ++ emit_workspace m.workspace)
