-- ===== src/Lockfile/Load/Laws.antt =====
-- src/PafioManifest/Lockfile.cpp: the form of a lockfile that loads.
use spio.Prelude.{
  Bytes, text, text_eq, text_eq_iff, contains, is_empty, Bool, true, false, ◌||◌, Option, none,
  some, List, [], ◌∷◌, ok, ◌>>=◌, or_throw, ◌≡◌, ◌≢◌, ◌⊎◌, inl, inr, refl, arith, All, >>=-eq-ok,
  ok_injective, Bool-cases, validation_error, has_value, throw_if, require-eq-ok, throw_if-eq-ok,
  ||-eq-false, require,
}
use spio.Patterns.{regex_match, name_regex, semver_regex, sha256_regex}
use spio.Toml.{Toml, is_one, table_at, array_at, int_at, require_string, parse_string_array}
use spio.Lockfile.{LockPackage, LockfileDocument}
use spio.Lockfile.Load.{
  is_blank, check_registry, check_source, check_package, parse_package, parse_packages, packages_of,
  load_lockfile,
}

-- The fields that a source kind wants are there, and those of the other kinds are not.
pub data HasSource (p : LockPackage) : Type 0 where
  from_disk :
      (p.source_kind ≡ text "workspace") ⊎ (p.source_kind ≡ text "path")
      → p.git ≡ none
      → p.rev ≡ none
      → p.registry ≡ none
      → p.sha256 ≡ none
      → HasSource p
  from_git :
      (g r : Bytes)
      → p.source_kind ≡ text "git"
      → p.git ≡ some g
      → g ≢ []
      → p.rev ≡ some r
      → r ≢ []
      → p.registry ≡ none
      → p.sha256 ≡ none
      → HasSource p
  from_registry :
      (root digest : Bytes)
      → p.source_kind ≡ text "registry"
      → p.registry ≡ some root
      → root ≢ []
      → p.sha256 ≡ some digest
      → regex_match sha256_regex digest ≡ true
      → p.git ≡ none
      → p.rev ≡ none
      → HasSource p

pub record IsLockPackage (p : LockPackage) : Type 0 where
  pub id_ne_nil : p.id ≢ []
  pub name_matches : regex_match name_regex p.name ≡ true
  pub version_matches : regex_match semver_regex p.version ≡ true
  pub source : HasSource p

present : (o : Option Bytes) → is_blank o ≡ false → (s : Bytes) × (o ≡ some s) × (s ≢ [])
present none h = cc
present (some []) h = cc
present (some (c ∷ s)) h = (c ∷ s, refl, λ e. cc)

absent : (o : Option Bytes) → has_value o ≡ false → o ≡ none
absent none h = refl
absent (some s) h = cc

absent_both : (a b : Option Bytes) → (has_value a || has_value b) ≡ false → (a ≡ none) × (b ≡ none)
absent_both a b h =
    let (x, y) = ||-eq-false (has_value a) (has_value b) h in (absent a x, absent b y)

three_throws :
    (a b c : Bool) {u : Unit {0}}
    → (throw_if a validation_error >>= λ _.
        throw_if b validation_error >>= λ _. throw_if c validation_error)
      ≡ ok u
    → (a ≡ false) × (b ≡ false) × (c ≡ false)
three_throws a b c h = ground arith

registry_checks :
    (a b c : Bool) {u : Unit {0}}
    → (throw_if a validation_error >>= λ _.
        require b validation_error >>= λ _. throw_if c validation_error)
      ≡ ok u
    → (a ≡ false) × (b ≡ true) × (c ≡ false)
registry_checks a b c h = ground arith

check_registry-HasSource :
    (p : LockPackage) (sha256 : Option Bytes) {u : Unit {0}}
    → p.source_kind ≡ text "registry"
    → p.sha256 ≡ sha256
    → check_registry p sha256 ≡ ok u
    → HasSource p
unfolding check_registry
check_registry-HasSource p none k s h = absurd (ground arith)
check_registry-HasSource p (some digest) k s h =
    let (blank, matches, others) =
      registry_checks (is_blank p.registry) (regex_match sha256_regex digest)
        (has_value p.git || has_value p.rev) h in
    let (root, q, n) = present p.registry blank in
    let (git, rev) = absent_both p.git p.rev others in
    from_registry root digest k q n s matches git rev

check_source-HasSource :
    (p : LockPackage) {u : Unit {0}}
    → contains p.source_kind (text "workspace" ∷ text "path" ∷ text "git" ∷ text "registry" ∷ [])
      ≡ true
    → check_source p ≡ ok u
    → HasSource p
unfolding check_source
check_source-HasSource p {u} k h = elim (Bool-cases (text_eq p.source_kind (text "git"))) [
  | inl git ↦
      let (x, y, z) =
        three_throws (is_blank p.git) (is_blank p.rev) (has_value p.registry || has_value p.sha256)
          (rw git at h) in
      let (g, q, n) = present p.git x in
      let (r, q', n') = present p.rev y in
      let (registry, sha256) = absent_both p.registry p.sha256 z in
      from_git g r ((text_eq_iff p.source_kind (text "git")).0 git) q n q' n' registry sha256
  | inr other ↦ elim (Bool-cases (text_eq p.source_kind (text "registry"))) [
    | inl registry ↦
        check_registry-HasSource p p.sha256
          ((text_eq_iff p.source_kind (text "registry")).0 registry) refl
          (rw (other, registry) at h)
    | inr local ↦
        let bare = throw_if-eq-ok _ validation_error (rw (other, local) at h) in
        let (front, sha256) = ||-eq-false _ _ bare in
        let (pair, registry) = ||-eq-false _ _ front in
        let (git, rev) = absent_both p.git p.rev pair in
        from_disk (disk_kind p.source_kind k other local) git rev (absent p.registry registry)
          (absent p.sha256 sha256)
  ]
]
  where
    disk_kind :
        (kind : Bytes)
        → contains kind (text "workspace" ∷ text "path" ∷ text "git" ∷ text "registry" ∷ []) ≡ true
        → text_eq kind (text "git") ≡ false
        → text_eq kind (text "registry") ≡ false
        → (kind ≡ text "workspace") ⊎ (kind ≡ text "path")
    disk_kind kind m g r =
        unfold contains in
        ground (
          arith,
          text_eq_iff (text "workspace") kind,
          text_eq_iff (text "path") kind,
          text_eq_iff (text "git") kind,
          text_eq_iff kind (text "git"),
          text_eq_iff (text "registry") kind,
          text_eq_iff kind (text "registry"),
        )

check_package-IsLockPackage :
    (p : LockPackage) {u : Unit {0}} → check_package p ≡ ok u → IsLockPackage p
unfolding check_package
check_package-IsLockPackage p h = record {
  id_ne_nil = λ e. ground (arith, e);
  name_matches = ground arith;
  version_matches = ground arith;
  source = check_source-HasSource p (ground arith) (ground arith);
}

module _ (toml : Toml) where
  open toml use {Table, Node, as_table}

  parse_package-IsLockPackage :
      (t : Table) {p : LockPackage} → parse_package toml t ≡ ok p → IsLockPackage p
  unfolding parse_package
  parse_package-IsLockPackage t {p} h =
      let (id, _, h1) = >>=-eq-ok (require_string toml t (text "id")) _ h in
      let (name, _, h2) = >>=-eq-ok (require_string toml t (text "name")) _ h1 in
      let (version, _, h3) = >>=-eq-ok (require_string toml t (text "version")) _ h2 in
      let (kind, _, h4) = >>=-eq-ok (require_string toml t (text "source-kind")) _ h3 in
      let (deps, _, h5) = >>=-eq-ok (parse_string_array toml t (text "dependencies")) _ h4 in
      let (u, checked, h6) = >>=-eq-ok (check_package _) _ h5 in
      rw (← (ok_injective h6)) (check_package-IsLockPackage _ checked)

  parse_packages-IsLockPackage :
      (nodes : List Node) {ps : List LockPackage}
      → parse_packages toml nodes ≡ ok ps
      → All IsLockPackage ps
  unfolding parse_packages
  parse_packages-IsLockPackage [] h = rw (← (ok_injective h)) tt
  parse_packages-IsLockPackage (n ∷ ns) h =
      let (t, _, h1) = >>=-eq-ok (or_throw (as_table n) validation_error) _ h in
      let (p, first, h2) = >>=-eq-ok (parse_package toml t) _ h1 in
      let (ps, rest, h3) = >>=-eq-ok (parse_packages toml ns) _ h2 in
      rw (← (ok_injective h3))
        (parse_package-IsLockPackage t first, parse_packages-IsLockPackage ns rest)

  packages_of-IsLockPackage :
      (nodes : Option (List Node)) {ps : List LockPackage}
      → packages_of toml nodes ≡ ok ps
      → All IsLockPackage ps
  unfolding packages_of
  packages_of-IsLockPackage none h = rw (← (ok_injective h)) tt
  packages_of-IsLockPackage (some nodes) h = parse_packages-IsLockPackage nodes h

  -- A lockfile that `LoadLockfile` returns names its generator, was made by the resolver
  -- single-version-v1, and each of its packages has an id, a name and a version of the right form,
  -- and the fields that its source kind wants and no others.
  pub load_lockfile-IsLockPackage :
      (document : Option Table) {lockfile : LockfileDocument}
      → load_lockfile toml document ≡ ok lockfile
      → (lockfile.generated_by ≢ [])
        × (lockfile.resolver ≡ text "single-version-v1")
        × All IsLockPackage lockfile.packages
  unfolding load_lockfile
  load_lockfile-IsLockPackage document h =
      let (doc, _, h1) = >>=-eq-ok (or_throw document validation_error) _ h in
      let (_, _, h2) =
        >>=-eq-ok (require (is_one (int_at toml doc (text "lock-version"))) validation_error) _
          h1 in
      let (metadata, _, h3) =
        >>=-eq-ok (or_throw (table_at toml doc (text "metadata")) validation_error) _ h2 in
      let (generated_by, _, h4) =
        >>=-eq-ok (require_string toml metadata (text "generated-by")) _ h3 in
      let (resolver, _, h5) = >>=-eq-ok (require_string toml metadata (text "resolver")) _ h4 in
      let (_, named, h6) = >>=-eq-ok (throw_if (is_empty generated_by) validation_error) _ h5 in
      let (_, version, h7) =
        >>=-eq-ok (require (text_eq resolver (text "single-version-v1")) validation_error) _ h6 in
      let (ps, parsed, h8) =
        >>=-eq-ok (packages_of toml (array_at toml doc (text "package"))) _ h7 in
      rw (← (ok_injective h8)) (
        ne_nil generated_by (throw_if-eq-ok _ validation_error named),
        (text_eq_iff resolver (text "single-version-v1")).0
            (require-eq-ok _ validation_error version),
        packages_of-IsLockPackage (array_at toml doc (text "package")) parsed,
      )
    where
      ne_nil : (s : Bytes) → is_empty s ≡ false → s ≢ []
      ne_nil [] e = λ q. cc
      ne_nil (c ∷ s) e = λ q. cc
