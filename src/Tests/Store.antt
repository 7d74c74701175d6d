-- ===== src/Tests/Store.antt =====
-- Test data: the workspace of two packages on a machine whose files can be written, and requests.
use spio.Prelude.{
  Bytes, text, text_eq, false, Option, none, some, has_value, fetch_error, if◌then◌else◌,
}
use spio.Prelude.Action.{Outcome, returned, threw, cut_off}
use spio.Resolve.Machine.{Machine}
use spio.Workflow.{k_dependencies, AddDependencyRequest, RemoveDependencyRequest}
use spio.Workflow.Commit.{Files, written}
use spio.Tests.Document.{document_toml}
use spio.Tests.Workspace.{two_manifests, on_disk}

abbrev pub Contents : Type 0
Contents = Bytes → Option Bytes

abbrev pub put : Bytes → Option Bytes → Contents → Contents
put p content s q = if text_eq p q then content else s q

abbrev pub store_machine : Machine
store_machine = record {
  toml = document_toml;
  State = Contents;
  canonical = λ p. p;
  parent_path = two_manifests.parent_path;
  append = two_manifests.append;
  lexically_relative = λ p q. p;
  is_absolute = λ p. false;
  exists = λ p s. has_value (s p);
  read_document =
      λ p s. on_disk (text_eq p (text "/w/pafio.toml")) (text_eq p (text "/w/b/pafio.toml"));
  create_directories = λ p s. returned tt s;
  remove_all = λ p s. returned tt s;
  remove = λ p s. returned tt s;
  try_remove = λ p s. put p none s;
  try_write = λ p t s. s;
  run_process = λ r s. threw fetch_error s;
  materialize_registry_package = λ root name version offline s. threw fetch_error s;
}

abbrev pub store_files : Files Contents
store_files = record { read = λ p s. s p; write = λ p c s. written (put p (some c) s) }

-- Two manifests and no lockfile.
abbrev pub at_start : Contents
at_start =
    put (text "/w/pafio.toml") (some (text "root"))
      (put (text "/w/b/pafio.toml") (some (text "member")) (λ q. none))

abbrev pub add_c : AddDependencyRequest
add_c = record {
  manifest_path = text "/w/pafio.toml";
  package_name = text "demo/c";
  alias = none;
  section = k_dependencies;
  use_git = false;
  use_registry = false;
  source = text "c";
  rev = none;
  version = none;
}

abbrev pub remove_b : RemoveDependencyRequest
remove_b = record { manifest_path = text "/w/pafio.toml"; target = text "b"; section = none }

abbrev pub end_state : {S A : Type 0} → Outcome S A → S → S
end_state (returned a s) d = s
end_state (threw e s) d = s
end_state cut_off d = d

abbrev pub end_value : {S A : Type 0} → Outcome S A → A → A
end_value (returned a s) d = a
end_value (threw e s) d = d
end_value cut_off d = d
