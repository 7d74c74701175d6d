-- ===== src/Plan/Select/Target.antt =====
-- src/PafioPlan/CompilePlan.cpp, `ResolveEntryTarget`: what a resolved target is.
use spio.Prelude.{
  Bytes, text, text_eq, text_eq_iff, text_eq_refl, Bool, true, false, List, [], ◌∷◌, Option, none,
  some, ok, ◌≡◌, ◌∙◌, refl, arith, Option-cases, Bool-cases, inl, inr,
}
use spio.FileSystem.{FileSystem}
use spio.Manifest.{LibTarget, BinTarget, TestTarget}
use spio.Resolve.{ResolvedPackage}
use spio.Plan.Select.{
  BuildPlanRequest, TargetKind, lib_kind, bin_kind, test_kind, SelectedTarget, checked,
  absolute_target_path, lib_target, bin_target, test_target, find_bin, find_test,
  resolve_entry_target, default_target, only_bin, only_test, named_target, select_lib_target,
}

-- A target of the package of that kind has this name and this file.
abbrev pub Declares : FileSystem → ResolvedPackage → TargetKind → Bytes → Bytes → Type 0
Declares fs p lib_kind name file =
    (l : LibTarget) × (p.config.lib ≡ some l)
    × (name ≡ p.config.name)
    × (file ≡ absolute_target_path fs p l.path)
Declares fs p bin_kind name file =
    (b : BinTarget) × (find_bin name p.config.bins ≡ some b)
    × (file ≡ absolute_target_path fs p b.path)
Declares fs p test_kind name file =
    (t : TestTarget) × (find_test name p.config.tests ≡ some t)
    × (file ≡ absolute_target_path fs p t.path)

pub record IsTargetOf (fs : FileSystem) (p : ResolvedPackage) (t : SelectedTarget) : Type 0 where
  pub owned : t.owner ≡ p
  pub declared : Declares fs p t.kind t.name t.file
  pub present : fs.exists t.file ≡ true
  pub is_file : fs.is_regular_file t.file ≡ true

-- What a request asks for, from `--lib`, `--bin`, `--test` and whether the intent is `run` or `test`.
abbrev pub Wanted : Bool → Option Bytes → Option Bytes → Bool → Bool → SelectedTarget → Type 0
Wanted true bin_name test_name run test t = t.kind ≡ lib_kind
Wanted false (some n) test_name run test t = (t.kind ≡ bin_kind) × (t.name ≡ n)
Wanted false none (some n) run test t = (t.kind ≡ test_kind) × (t.name ≡ n)
Wanted false none none run true t = t.kind ≡ test_kind
Wanted false none none true false t = t.kind ≡ bin_kind
Wanted false none none false false t = Unit

checked-eq-ok :
    (fs : FileSystem) (u : SelectedTarget) {t : SelectedTarget}
    → checked fs u ≡ ok t
    → (fs.exists u.file ≡ true) × (fs.is_regular_file u.file ≡ true) × (u ≡ t)
unfolding checked
checked-eq-ok fs u h = (ground arith, ground arith, ground arith)

module _ (fs : FileSystem) (r : BuildPlanRequest) (p : ResolvedPackage) where
  checked-IsTargetOf :
      (u : SelectedTarget) {t : SelectedTarget}
      → u.owner ≡ p
      → Declares fs p u.kind u.name u.file
      → checked fs u ≡ ok t
      → IsTargetOf fs p t × (t.kind ≡ u.kind) × (t.name ≡ u.name)
  checked-IsTargetOf u o d h =
      let (present, is_file, same) = checked-eq-ok fs u h in
      rw (← same)
        (record { owned = o; declared = d; present = present; is_file = is_file }, refl, refl)

  find_bin-name :
      (n : Bytes) (bs : List BinTarget) {b : BinTarget} → find_bin n bs ≡ some b → b.name ≡ n
  unfolding find_bin
  find_bin-name n [] e = cc
  find_bin-name n (c ∷ bs) {b} e = ground (arith, text_eq_iff c.name n, find_bin-name n bs {b = b})

  find_test-name :
      (n : Bytes) (bs : List TestTarget) {b : TestTarget} → find_test n bs ≡ some b → b.name ≡ n
  unfolding find_test
  find_test-name n [] e = cc
  find_test-name n (c ∷ bs) {b} e =
      ground (arith, text_eq_iff c.name n, find_test-name n bs {b = b})

  lib-IsTargetOf :
      {l : LibTarget} {t : SelectedTarget}
      → p.config.lib ≡ some l
      → checked fs (lib_target fs p l) ≡ ok t
      → IsTargetOf fs p t × (t.kind ≡ lib_kind)
  lib-IsTargetOf {l} e h =
      let (a, b, _) = checked-IsTargetOf (lib_target fs p l) refl (l, e, refl, refl) h in (a, b)

  bin-IsTargetOf :
      (n : Bytes) {b : BinTarget} {t : SelectedTarget}
      → find_bin n p.config.bins ≡ some b
      → checked fs (bin_target fs p b) ≡ ok t
      → IsTargetOf fs p t × (t.kind ≡ bin_kind) × (t.name ≡ n)
  bin-IsTargetOf n {b} e h =
      let same = find_bin-name n p.config.bins e in
      let (x, y, z) = checked-IsTargetOf (bin_target fs p b) refl (b, (cc), refl) h in
      (x, y, z ∙ same)

  test-IsTargetOf :
      (n : Bytes) {b : TestTarget} {t : SelectedTarget}
      → find_test n p.config.tests ≡ some b
      → checked fs (test_target fs p b) ≡ ok t
      → IsTargetOf fs p t × (t.kind ≡ test_kind) × (t.name ≡ n)
  test-IsTargetOf n {b} e h =
      let same = find_test-name n p.config.tests e in
      let (x, y, z) = checked-IsTargetOf (test_target fs p b) refl (b, (cc), refl) h in
      (x, y, z ∙ same)

  select_lib-lem :
      (lib : Option LibTarget) {t : SelectedTarget}
      → p.config.lib ≡ lib
      → select_lib_target fs r p lib ≡ ok t
      → IsTargetOf fs p t
        × (t.kind ≡ lib_kind)
        × (text_eq r.intent (text "run") ≡ false)
        × (text_eq r.intent (text "test") ≡ false)
  unfolding select_lib_target
  select_lib-lem none e h = absurd (ground arith)
  select_lib-lem (some l) {t} e h =
      let (a, b) = lib-IsTargetOf {l = l} {t = t} e (ground arith) in
      (a, b, ground arith, ground arith)

  only_bin-lem :
      (bins : List BinTarget) {t : SelectedTarget}
      → p.config.bins ≡ bins
      → only_bin fs p bins ≡ ok t
      → IsTargetOf fs p t × (t.kind ≡ bin_kind)
  unfolding only_bin find_bin
  only_bin-lem (b ∷ []) e h =
      let (x, y, z) = bin-IsTargetOf b.name (rw (e, text_eq_refl b.name)) h in (x, y)
  only_bin-lem [] e h = cc
  only_bin-lem (b ∷ c ∷ bs) e h = cc

  only_test-lem :
      (tests : List TestTarget) {t : SelectedTarget}
      → p.config.tests ≡ tests
      → only_test fs p tests ≡ ok t
      → IsTargetOf fs p t × (t.kind ≡ test_kind)
  unfolding only_test find_test
  only_test-lem (b ∷ []) e h =
      let (x, y, z) = test-IsTargetOf b.name (rw (e, text_eq_refl b.name)) h in (x, y)
  only_test-lem [] e h = cc
  only_test-lem (b ∷ c ∷ bs) e h = cc

  default-lem :
      (lib : Option LibTarget) (bins : List BinTarget) (tests : List TestTarget)
      {t : SelectedTarget}
      → p.config.lib ≡ lib
      → p.config.bins ≡ bins
      → p.config.tests ≡ tests
      → default_target fs r p lib bins tests ≡ ok t
      → IsTargetOf fs p t
  unfolding default_target
  default-lem (some l) [] tests e f g h = (lib-IsTargetOf e h).0
  default-lem none (b ∷ []) tests {t = u} e f g h =
      (only_bin-lem (b ∷ []) {t = u} f (unfold only_bin in h)).0
  default-lem none [] (t ∷ []) {t = u} e f g h =
      (only_test-lem (t ∷ []) {t = u} g (unfold only_test in ground arith)).0
  default-lem _ _ _ e f g h = cc

  named-lem :
      (bin_name test_name : Option Bytes) {t : SelectedTarget}
      → named_target fs r p bin_name test_name ≡ ok t
      → IsTargetOf fs p t
        × Wanted false bin_name test_name
            (text_eq r.intent (text "run"))
            (text_eq r.intent (text "test"))
            t
  unfolding named_target
  named-lem (some n) test_name {t} h = elim (Option-cases (find_bin n p.config.bins)) [
    | inl e ↦ absurd (ground arith)
    | inr (b, e) ↦ let (x, y, z) = bin-IsTargetOf n e (ground arith) in (x, (y, z))
  ]
  named-lem none (some n) {t} h = elim (Option-cases (find_test n p.config.tests)) [
    | inl e ↦ absurd (ground arith)
    | inr (b, e) ↦ let (x, y, z) = test-IsTargetOf n e (ground arith) in (x, (y, z))
  ]
  named-lem none none {t} h = elim (Bool-cases (text_eq r.intent (text "test"))) [
    | inl e ↦ rw e (ground (arith, only_test-lem p.config.tests {t = t} refl))
    | inr e ↦ elim (Bool-cases (text_eq r.intent (text "run"))) [
      | inl k ↦ rw (e, k) (ground (arith, only_bin-lem p.config.bins {t = t} refl))
      | inr k ↦
          rw (e, k)
            (
              default-lem p.config.lib p.config.bins p.config.tests {t = t} refl refl refl
                  (ground arith),
              tt,
            )
    ]
  ]

-- Whenever `ResolveEntryTarget` returns, the target belongs to the package and is declared in its
-- manifest under that name, its file exists and is a regular file, and it is what the request asks
-- for: the library under `--lib`, else the named binary, else the named test, else a test for the
-- intent `test`, else a binary for the intent `run`.
pub resolve_entry_target-IsTargetOf :
    (fs : FileSystem) (r : BuildPlanRequest) (p : ResolvedPackage) {t : SelectedTarget}
    → resolve_entry_target fs r p ≡ ok t
    → IsTargetOf fs p t
      × Wanted r.select_lib r.bin_name r.test_name
          (text_eq r.intent (text "run"))
          (text_eq r.intent (text "test"))
          t
unfolding resolve_entry_target
resolve_entry_target-IsTargetOf fs r p {t} h = elim (Bool-cases r.select_lib) [
  | inl e ↦ rw e (ground (arith, select_lib-lem fs r p p.config.lib {t = t} refl))
  | inr e ↦ rw e (named-lem fs r p r.bin_name r.test_name {t = t} (ground arith))
]
