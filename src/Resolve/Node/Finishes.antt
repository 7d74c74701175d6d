-- ===== src/Resolve/Node/Finishes.antt =====
-- src/PafioResolve/Resolver.cpp: the steps that select the manifest of a dependency return or
-- throw, when those of the machine do.
use spio.Prelude.Finishes.{
  Finishes, >>=-Finishes, give-Finishes, ask-Finishes, from_result-Finishes, attempt-Finishes,
}
use spio.Manifest.{DependencySourceKind, path, git, registry, Dependency}
use spio.Resolve.Machine.{Machine}
use spio.Resolve.Git.Finishes.{MachineFinishes, materialize-Finishes}
use spio.Resolve.Select.{Setup}
use spio.Resolve.Node.{
  Node, resolve_path_dependency, resolve_git_dependency, resolve_registry_dependency,
  select_dependency,
}

module _ (machine : Machine) (m : MachineFinishes machine) where
  module _ (setup : Setup) where
    path_dependency-Finishes :
        (parent : Node) (d : Dependency) → Finishes (resolve_path_dependency machine setup parent d)
    unfolding resolve_path_dependency
    path_dependency-Finishes parent d = >>=-Finishes (ask-Finishes _) λ present.
        >>=-Finishes (from_result-Finishes _) λ _.
          >>=-Finishes (from_result-Finishes _)
            λ hint. >>=-Finishes (attempt-Finishes _) λ _. give-Finishes _

    git_dependency-Finishes :
        (parent : Node) (d : Dependency) → Finishes (resolve_git_dependency machine setup parent d)
    unfolding resolve_git_dependency
    git_dependency-Finishes parent d = >>=-Finishes (from_result-Finishes _) λ rev.
        >>=-Finishes (materialize-Finishes machine m setup.git_cache _ rev) λ origin.
          >>=-Finishes (from_result-Finishes _) λ root. >>=-Finishes (ask-Finishes _) λ present.
            >>=-Finishes (from_result-Finishes _)
              λ _. >>=-Finishes (attempt-Finishes _) λ _. give-Finishes _

    registry_dependency-Finishes :
        (d : Dependency) → Finishes (resolve_registry_dependency machine setup d)
    unfolding resolve_registry_dependency
    registry_dependency-Finishes d = >>=-Finishes (from_result-Finishes _) λ name.
        >>=-Finishes (from_result-Finishes _) λ version.
          >>=-Finishes (m.materialize_registry_package _ _ _ _) λ materialized.
            >>=-Finishes (ask-Finishes _) λ present.
              >>=-Finishes (from_result-Finishes _)
                λ _. >>=-Finishes (attempt-Finishes _) λ _. give-Finishes _

    pub select_dependency-Finishes :
        (kind : DependencySourceKind) (parent : Node) (d : Dependency)
        → Finishes (select_dependency machine setup kind parent d)
    unfolding select_dependency
    select_dependency-Finishes path parent d = path_dependency-Finishes parent d
    select_dependency-Finishes git parent d = git_dependency-Finishes parent d
    select_dependency-Finishes registry parent d = registry_dependency-Finishes d
