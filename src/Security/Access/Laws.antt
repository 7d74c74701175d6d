-- ===== src/Security/Access/Laws.antt =====
-- src/PafioSecurity/RegistrySecurity.cpp: the default access chains.
use spio.Prelude.{
  ℕ, suc, Bytes, ◌++◌, replicate, text, is_empty, false, ◌||◌, ◌&&◌, not, [], ◌∷◌, none, ok, err,
  fetch_error, publish_error, has_value, ◌≡◌, refl, arith, if◌then◌else◌, ◌==◌, Bool-cases, inl,
  inr,
}
use spio.Security.{
  normalize_registry_root, is_http_registry_root, is_file_registry_root, ends_with_slash,
}
use spio.Security.Access.{
  RegistryReadSecurityRequest, RegistryWriteSecurityRequest, resolve_default_registry_read_security,
  resolve_default_registry_write_security,
}

slash-cons :
    (c : ℕ) (t : Bytes)
    → ends_with_slash t ≡ false
    → ends_with_slash (if c == b'/' && is_empty t then [] else c ∷ t) ≡ false
unfolding ends_with_slash
slash-cons c [] h = ground arith
slash-cons c (d ∷ t) h = ground arith

normalize-no-slash : (s : Bytes) → ends_with_slash (normalize_registry_root s) ≡ false
unfolding normalize_registry_root ends_with_slash
normalize-no-slash [] = refl
normalize-no-slash (c ∷ s) = slash-cons c (normalize_registry_root s) (normalize-no-slash s)

restore-cons :
    (c : ℕ) (s t : Bytes) (n : ℕ)
    → s ≡ t ++ replicate n b'/'
    → (m : ℕ) × (c ∷ s ≡ (if c == b'/' && is_empty t then [] else c ∷ t) ++ replicate m b'/')
restore-cons c s [] n e = elim (Bool-cases (c == b'/')) [
  | inl q ↦ (suc n, ground (arith, e))
  | inr q ↦ (n, ground (arith, e))
]
restore-cons c s (d ∷ t) n e = (n, ground (arith, e))

-- `NormalizeRegistryRoot` takes off the slashes at the end, and nothing else.
pub normalize_registry_root_lem :
    (s : Bytes)
    → (ends_with_slash (normalize_registry_root s) ≡ false)
      × ((n : ℕ) × (s ≡ normalize_registry_root s ++ replicate n b'/'))
unfolding normalize_registry_root
normalize_registry_root_lem [] = (normalize-no-slash [], (0, refl))
normalize_registry_root_lem (c ∷ s) =
    let (_, (n, e)) = normalize_registry_root_lem s in
    (normalize-no-slash (c ∷ s), restore-cons c s (normalize_registry_root s) n e)

-- The write chain resolves just the requests with an http or https root and no private hook, to
-- anonymous access with no header; all others it refuses with a publish error.
pub write_security_lem :
    (q : RegistryWriteSecurityRequest)
    → resolve_default_registry_write_security q ≡ (
        if is_http_registry_root (normalize_registry_root q.registry_root)
          && not (has_value q.profile_name)
          && not (has_value q.policy_file)
          && is_empty q.explicit_request_headers
        then ok (record {
          registry_root = normalize_registry_root q.registry_root;
          request_headers = [];
          provider_name = text "public-default";
          mode = text "anonymous";
          profile_name = none;
        })
        else err publish_error)
unfolding resolve_default_registry_write_security
write_security_lem q = ground arith

-- The read chain resolves just the requests with a file, http or https root, to access with no
-- header; all others it refuses with a fetch error.
pub read_security_lem :
    (q : RegistryReadSecurityRequest)
    → resolve_default_registry_read_security q ≡ (
        if is_file_registry_root (normalize_registry_root q.registry_root)
          || is_http_registry_root (normalize_registry_root q.registry_root)
        then ok (record {
          registry_root = normalize_registry_root q.registry_root;
          request_headers = [];
          provider_name = text "public-default";
        })
        else err fetch_error)
unfolding resolve_default_registry_read_security
read_security_lem q = ground arith
