-- ===== src/Security/Access.antt =====
-- src/PafioSecurity/RegistrySecurity.cpp: the chains of handlers behind
-- `ResolveDefaultRegistryReadSecurity` and `ResolveDefaultRegistryWriteSecurity`, and the slots
-- that hold the current resolvers.
pub mod Laws
use spio.Prelude.{
  Bytes, text, is_empty, Bool, true, false, ◌||◌, not, List, [], ◌∷◌, Option, none, some, Result,
  ok, err, ◌>>=◌, ◌>>◌, throw_if, fetch_error, publish_error, logic_error, has_value,
}
use spio.Security.{normalize_registry_root, is_http_registry_root, is_file_registry_root}

pub data SecurityHandlerResult : Type 0 where
  continues resolved : SecurityHandlerResult

pub record RegistryReadSecurityRequest : Type 0 where
  pub registry_root : Bytes
  pub offline : Bool

pub record RegistryReadSecurityDecision : Type 0 where
  pub registry_root : Bytes
  pub request_headers : List Bytes
  pub provider_name : Bytes

pub record RegistryWriteSecurityRequest : Type 0 where
  pub registry_root : Bytes
  pub profile_name : Option Bytes
  pub policy_file : Option Bytes
  pub explicit_request_headers : List Bytes

pub record RegistryWriteSecurityDecision : Type 0 where
  pub registry_root : Bytes
  pub request_headers : List Bytes
  pub provider_name : Bytes
  pub mode : Bytes
  pub profile_name : Option Bytes

-- A handler changes the decision in place, and says whether the chain goes on.
abbrev pub Handler : Type 0 → Type 0 → Type 0
Handler Q D = Q → D → Result (D × SecurityHandlerResult)

abbrev go_on : {D : Type 0} → (D → Result D) → D × SecurityHandlerResult → Result D
go_on rest (d, continues) = rest d
go_on rest (d, resolved) = ok d

module _ {Q D : Type 0} where
  unfoldable pub run_security_chain : Q → D → List (Handler Q D) → Result D
  run_security_chain q d [] = err logic_error
  run_security_chain q d (h ∷ hs) = h q d >>= go_on (λ e. run_security_chain q e hs)

normalize_read_registry_root : Handler RegistryReadSecurityRequest RegistryReadSecurityDecision
normalize_read_registry_root q d =
    ok (record d { registry_root = normalize_registry_root q.registry_root }, continues)

validate_read_registry_root_scheme :
    Handler RegistryReadSecurityRequest RegistryReadSecurityDecision
validate_read_registry_root_scheme q d = do
  throw_if (not (is_file_registry_root d.registry_root || is_http_registry_root d.registry_root))
      fetch_error
  ok (d, continues)

resolve_public_default_read_access :
    Handler RegistryReadSecurityRequest RegistryReadSecurityDecision
resolve_public_default_read_access q d =
    ok (record d { request_headers = []; provider_name = text "public-default" }, resolved)

normalize_write_registry_root : Handler RegistryWriteSecurityRequest RegistryWriteSecurityDecision
normalize_write_registry_root q d =
    ok (record d { registry_root = normalize_registry_root q.registry_root }, continues)

validate_write_registry_root_scheme :
    Handler RegistryWriteSecurityRequest RegistryWriteSecurityDecision
validate_write_registry_root_scheme q d = do
  throw_if (not (is_http_registry_root d.registry_root)) publish_error
  ok (d, continues)

reject_open_source_write_security_hooks :
    Handler RegistryWriteSecurityRequest RegistryWriteSecurityDecision
reject_open_source_write_security_hooks q d = do
  throw_if
      (has_value q.profile_name
        || has_value q.policy_file
        || not (is_empty q.explicit_request_headers))
      publish_error
  ok (d, continues)

resolve_public_default_write_access :
    Handler RegistryWriteSecurityRequest RegistryWriteSecurityDecision
resolve_public_default_write_access q d = ok (
  record d {
    request_headers = [];
    provider_name = text "public-default";
    mode = text "anonymous";
    profile_name = none;
  },
  resolved,
)

unfoldable pub resolve_default_registry_read_security :
    RegistryReadSecurityRequest → Result RegistryReadSecurityDecision
unfolding run_security_chain normalize_read_registry_root validate_read_registry_root_scheme
    resolve_public_default_read_access
resolve_default_registry_read_security q =
    run_security_chain q
      (record { registry_root = []; request_headers = []; provider_name = text "public-default" })
      (normalize_read_registry_root ∷ validate_read_registry_root_scheme
        ∷ resolve_public_default_read_access ∷ [])

unfoldable pub resolve_default_registry_write_security :
    RegistryWriteSecurityRequest → Result RegistryWriteSecurityDecision
unfolding run_security_chain normalize_write_registry_root validate_write_registry_root_scheme
    reject_open_source_write_security_hooks resolve_public_default_write_access
resolve_default_registry_write_security q =
    run_security_chain q
      (record {
        registry_root = [];
        request_headers = [];
        provider_name = text "public-default";
        mode = text "anonymous";
        profile_name = none;
      })
      (normalize_write_registry_root ∷ validate_write_registry_root_scheme
        ∷ reject_open_source_write_security_hooks ∷ resolve_public_default_write_access ∷ [])

abbrev pub ReadResolver : Type 0
ReadResolver = RegistryReadSecurityRequest → Result RegistryReadSecurityDecision

abbrev pub WriteResolver : Type 0
WriteResolver = RegistryWriteSecurityRequest → Result RegistryWriteSecurityDecision

-- The two function-local statics.
pub record Slots : Type 0 where
  pub read_resolver : ReadResolver
  pub write_resolver : WriteResolver

abbrev pub initial_slots : Slots
initial_slots = record {
  read_resolver = resolve_default_registry_read_security;
  write_resolver = resolve_default_registry_write_security;
}

-- `resolver != nullptr ? resolver : default`
abbrev or_default {ℓ} : {A : Type ℓ} → Option A → A → A
or_default none d = d
or_default (some r) d = r

-- The previous resolver is returned.
unfoldable pub register_registry_read_security_resolver :
    Option ReadResolver → Slots → ReadResolver × Slots
register_registry_read_security_resolver r s = (
  s.read_resolver,
  record s { read_resolver = or_default r resolve_default_registry_read_security },
)

unfoldable pub register_registry_write_security_resolver :
    Option WriteResolver → Slots → WriteResolver × Slots
register_registry_write_security_resolver r s = (
  s.write_resolver,
  record s { write_resolver = or_default r resolve_default_registry_write_security },
)

unfoldable pub resolve_registry_read_security :
    RegistryReadSecurityRequest → Slots → Result RegistryReadSecurityDecision
resolve_registry_read_security q s = s.read_resolver q

unfoldable pub resolve_registry_write_security :
    RegistryWriteSecurityRequest → Slots → Result RegistryWriteSecurityDecision
resolve_registry_write_security q s = s.write_resolver q
