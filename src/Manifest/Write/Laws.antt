-- ===== src/Manifest/Write/Laws.antt =====
-- src/PafioManifest/Manifest.cpp: the order of targets and dependencies in the canonical text.
use mathlib.Core.List.{Permᴰ, Memᴰ}
use spio.Prelude.{Bytes, text, is_empty, Option, some, List, ◌≡◌, refl, ◌∙◌}
use spio.Prelude.Sort.{sort_by}
use spio.Prelude.Shuffle.{sort_by-perm_of, All-Memᴰ}
use spio.Manifest.{Dependency, BinTarget, TestTarget, WorkspaceConfig, PackageConfig}
use spio.Manifest.Write.{
  emit_dependency_section, emit_dependencies, emit_package, serialize_manifest_canonical,
}

-- The second list is the first in some order, and entries of the first with one key are equal.
abbrev pub IsReordered {ℓ} : {A : Type ℓ} → (A → Bytes) → List A → List A → Type ℓ
IsReordered key xs ys = Permᴰ xs ys × ((x y : _) → Memᴰ x xs → Memᴰ y xs → key x ≡ key y → x ≡ y)

is_empty-perm {ℓ} : {A : Type ℓ} {xs ys : List A} → Permᴰ xs ys → is_empty xs ≡ is_empty ys
is_empty-perm Permᴰ.nil = refl
is_empty-perm (Permᴰ.cons e p) = refl
is_empty-perm (Permᴰ.swap e f) = refl
is_empty-perm (Permᴰ.trans p q) = is_empty-perm p ∙ is_empty-perm q

sorted_same {ℓ} :
    {A : Type ℓ} (key : A → Bytes) (xs ys : List A)
    → IsReordered key xs ys
    → sort_by key xs ≡ sort_by key ys
sorted_same key xs ys h = sort_by-perm_of key (λ x. Memᴰ x xs) (h.1) (h.0) (All-Memᴰ xs)

emit_dependencies_same :
    (name : Bytes) (ds es : List Dependency)
    → IsReordered (λ d. d.alias) ds es
    → emit_dependencies name ds ≡ emit_dependencies name es
unfolding emit_dependencies emit_dependency_section
emit_dependencies_same name ds es h =
    rw (is_empty-perm (h.0), sorted_same (λ d. d.alias) ds es h) refl

-- Reordering the binaries, the tests, the dependencies and the development dependencies of a
-- package, each told apart by their names or aliases, leaves the canonical text as it is.
pub serialize_manifest_canonical-reordered :
    (p : PackageConfig) (w : Option WorkspaceConfig) (bins : List BinTarget)
    (tests : List TestTarget) (ds es : List Dependency)
    → IsReordered (λ b. b.name) p.bins bins
    → IsReordered (λ t. t.name) p.tests tests
    → IsReordered (λ d. d.alias) p.dependencies ds
    → IsReordered (λ d. d.alias) p.dev_dependencies es
    → serialize_manifest_canonical record { package_config = some p; workspace = w }
      ≡ serialize_manifest_canonical record {
        package_config =
            some
              (record p { bins = bins; tests = tests; dependencies = ds; dev_dependencies = es });
        workspace = w;
      }
unfolding serialize_manifest_canonical emit_package
serialize_manifest_canonical-reordered p w bins tests ds es hb ht hd he =
    rw
      (
        sorted_same (λ b. b.name) p.bins bins hb,
        sorted_same (λ t. t.name) p.tests tests ht,
        emit_dependencies_same (text "dependencies") p.dependencies ds hd,
        emit_dependencies_same (text "dev-dependencies") p.dev_dependencies es he,
      )
      refl
