-- ===== src/Tests/Manifests.antt =====
-- Tests: manifests.
use mathlib.Core.List.{Permᴰ, Memᴰ}
use spio.Prelude.{
  Bytes, text, text_eq, has_value, true, false, ◌||◌, none, some, List, [], ◌∷◌, ok, ◌≡◌, refl,
}
use spio.Toml.{is_one, strings_of}
use spio.Patterns.{is_lower_or_digit, is_name_char, semver_regex, regex_match, name_regex}
use spio.Manifest.Write.{serialize_manifest_canonical}
use spio.Manifest.Write.Laws.{IsReordered, serialize_manifest_canonical-reordered}
use spio.Manifest.{BinTarget, path, ManifestDocument}
use spio.Manifest.Load.{load_manifest}
use spio.Manifest.Load.Form.{OnSome, IsPackage, IsWorkspace}
use spio.Manifest.Load.Laws.{load_manifest-IsManifest}
use spio.Tests.Document.{document_toml}
use spio.Tests.Project.{app_config, manifest_document}

abbrev loaded_manifest : ManifestDocument
loaded_manifest = record {
  package_config = some (record {
    name = text "demo/app";
    version = text "0.1.0";
    edition = text "2026";
    publish = false;
    toolchain = record { channel = text "nightly"; implicit_std = true };
    lib = some (record { path = text "src/lib.styio" });
    bins = [];
    tests = [];
    dependencies =
        record {
          alias = text "b";
          package_name = none;
          source_kind = path;
          source = text "b";
          rev = none;
          version = none;
        }
        ∷ [];
    dev_dependencies = [];
  });
  workspace = some (record { members = text "b" ∷ []; exclude = []; resolver = text "1" });
}

manifest_lem :
    load_manifest (λ p. false) document_toml (some manifest_document) ≡ ok loaded_manifest
unfolding load_manifest text_eq is_one regex_match name_regex is_lower_or_digit is_name_char
    semver_regex strings_of
manifest_lem = refl

load_manifest-IsManifest_example :
    ((has_value loaded_manifest.package_config || has_value loaded_manifest.workspace) ≡ true)
    × OnSome (IsPackage (λ p. false)) loaded_manifest.package_config
    × OnSome (IsWorkspace (λ p. false)) loaded_manifest.workspace
load_manifest-IsManifest_example =
    load_manifest-IsManifest (λ p. false) document_toml (some manifest_document) manifest_lem

abbrev bin_a : BinTarget
bin_a = record { name = []; path = text "a" }

abbrev bin_b : BinTarget
bin_b = record { name = text "b"; path = text "b" }

none_in {ℓ} : {A : Type ℓ} (key : A → Bytes) → IsReordered key [] []
none_in key = (Permᴰ.nil, λ x y m n e. elim m [ ])

bins_keyed :
    (x y : BinTarget)
    → Memᴰ x (bin_a ∷ bin_b ∷ [])
    → Memᴰ y (bin_a ∷ bin_b ∷ [])
    → x.name ≡ y.name
    → x ≡ y
bins_keyed x y (Memᴰ.head e) (Memᴰ.head f) h = cc
bins_keyed x y (Memᴰ.head e) (Memᴰ.tail (Memᴰ.head f)) h = cc
bins_keyed x y (Memᴰ.head e) (Memᴰ.tail (Memᴰ.tail m)) h = elim m [ ]
bins_keyed x y (Memᴰ.tail (Memᴰ.head e)) (Memᴰ.head f) h = cc
bins_keyed x y (Memᴰ.tail (Memᴰ.head e)) (Memᴰ.tail (Memᴰ.head f)) h = cc
bins_keyed x y (Memᴰ.tail (Memᴰ.head e)) (Memᴰ.tail (Memᴰ.tail m)) h = elim m [ ]
bins_keyed x y (Memᴰ.tail (Memᴰ.tail m)) f h = elim m [ ]

abbrev with_bins : List BinTarget → ManifestDocument
with_bins bins = record {
  package_config = some (record app_config { bins = bins });
  workspace = none;
}

serialize_manifest_canonical-reordered_example :
    serialize_manifest_canonical (with_bins (bin_a ∷ bin_b ∷ []))
    ≡ serialize_manifest_canonical (with_bins (bin_b ∷ bin_a ∷ []))
serialize_manifest_canonical-reordered_example =
    serialize_manifest_canonical-reordered (record app_config { bins = bin_a ∷ bin_b ∷ [] }) none
      (bin_b ∷ bin_a ∷ []) [] [] [] (Permᴰ.swap refl refl, bins_keyed) (none_in (λ t. t.name))
      (none_in (λ d. d.alias)) (none_in (λ d. d.alias))
