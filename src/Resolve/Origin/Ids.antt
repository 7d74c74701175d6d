-- ===== src/Resolve/Origin/Ids.antt =====
-- src/PafioResolve/Resolver.cpp, `BuildLockId`: what can be read off an id.
use spio.Prelude.{
  ℕ, Bytes, true, [], ◌∷◌, ◌++◌, ok, ok_injective, >>=-eq-ok, ◌≡◌, refl, arith, if◌then◌else◌, ◌==◌,
}
use spio.Patterns.{regex_match, name_regex}
use spio.Patterns.Names.{all_in, not_at, name-no_at}
use spio.Manifest.{PackageConfig}
use spio.Resolve.Origin.{
  SourceKind, k_workspace, k_path, k_git, k_registry, SourceOrigin, source_kind_string,
  build_lock_id, lock_id_suffix,
}

-- what stands behind the first `c`
unfoldable pub drop_past : ℕ → Bytes → Bytes
drop_past c [] = []
drop_past c (x ∷ s) = if x == c then s else drop_past c s

-- what stands in front of the first `c`
unfoldable pub take_until : ℕ → Bytes → Bytes
take_until c [] = []
take_until c (x ∷ s) = if x == c then [] else x ∷ take_until c s

-- The name in `kind:name@version…`.
unfoldable pub id_name : Bytes → Bytes
unfolding drop_past take_until
id_name id = take_until b'@' (drop_past b':' id)

take_until-at : (s rest : Bytes) → all_in not_at s ≡ true → take_until b'@' (s ++ (b'@' ∷ rest)) ≡ s
unfolding take_until all_in
take_until-at [] rest h = refl
take_until-at (c ∷ s) rest h = ground (arith, take_until-at s rest)

drop_past-kind :
    (k : SourceKind) (rest : Bytes) → drop_past b':' (source_kind_string k ++ (b':' ∷ rest)) ≡ rest
unfolding drop_past source_kind_string
drop_past-kind k_workspace rest = refl
drop_past-kind k_path rest = refl
drop_past-kind k_git rest = refl
drop_past-kind k_registry rest = refl

-- An id holds the name of its package.
pub id_name-build_lock_id :
    (origin : SourceOrigin) (config : PackageConfig) {id : Bytes}
    → regex_match name_regex config.name ≡ true
    → build_lock_id origin config ≡ ok id
    → id_name id ≡ config.name
unfolding build_lock_id id_name
id_name-build_lock_id origin config named h =
    let (suffix, _, h1) = >>=-eq-ok (lock_id_suffix origin origin.kind) _ h in
    rw
      (
        ← (ok_injective h1),
        drop_past-kind origin.kind (config.name ++ (b'@' ∷ (config.version ++ suffix))),
      )
      (take_until-at config.name (config.version ++ suffix) (name-no_at config.name named))
