-- ===== src/Workflow/Commit/Success.antt =====
-- src/PafioWorkflow/Dependencies.cpp: a command that returns has written the edited manifest and
-- the lockfile of its graph.
use spio.Prelude.{
  ℕ, Bytes, false, Option, none, some, Result, ok, or_throw, validation_error, ◌≡◌, ◌∙◌, refl, sym,
  ap, length, value_or, ◌⊎◌, inl, inr,
}
use spio.Prelude.Indexed.{length-map}
use spio.Prelude.Action.{
  Outcome, returned, threw, cut_off, Action, give, >>=-eq-returned, returned_injective, from_result,
  attempt, from_result-eq-returned,
}
use spio.Prelude.Looks.{ask-Looks, from_result-Looks, returned-behind-Looks}
use spio.Manifest.{PackageConfig, ManifestDocument}
use spio.Manifest.Write.{serialize_manifest_canonical}
use spio.Lockfile.Write.{serialize_lockfile_canonical}
use spio.Resolve.{ResolveOptions, LockGenerationResult, ResolvedGraphResult}
use spio.Resolve.Machine.{Machine, load}
use spio.Resolve.Run.{resolve_single_version_graph, resolve_single_version_lockfile}
use spio.Resolve.Run.Correct.{IsGraph, resolve_single_version_graph-IsGraph}
use spio.Workflow.{DependencySection, AddDependencyRequest, DependencyCommandResult}
use spio.Workflow.Edit.{add_to_package, package_short_name}
use spio.Workflow.Edit.Names.{IsShortName, package_short_name-IsShortName}
use spio.Workflow.Commit.{
  Files, written, caught, write_file, restore, write_edit, lockfile_beside, commit_manifest_edit,
  load_package, add_dependency_and_refresh_lock,
}
use spio.Workflow.Commit.Atomic.{
  write_file-eq-returned, read_file-Looks, read_lockfile-Looks, load_package-Looks,
}

module _ (machine : Machine) (files : Files machine.State) (version : Bytes)
    (pafio_home : Result Bytes) (fuel : ℕ) where
  open machine use {State, is_absolute}
  open files use {read, write}

  abbrev options_of_edit : ResolveOptions
  options_of_edit = record { offline = false; vendor_root = none }

  -- The document was written over the manifest, the graph of this manifest was resolved, online and
  -- with no vendored sources, and the text of its lockfile was written to its path, at the end.
  pub record IsWritten (manifest : Bytes) (document : ManifestDocument) (s : State)
      (r : DependencyCommandResult) (t : State) : Type 0 where
    pub after : State
    pub manifest_written : write manifest (serialize_manifest_canonical document) s ≡ written after
    pub graph : ResolvedGraphResult
    pub behind : State
    pub resolved :
        resolve_single_version_graph machine version pafio_home fuel manifest options_of_edit after
        ≡ returned graph behind
    pub correct : IsGraph is_absolute graph
    pub lockfile_written :
        write graph.lockfile_path (serialize_lockfile_canonical graph.lockfile) behind ≡ written t
    pub told :
        (r.manifest_path ≡ graph.manifest_path)
        × (r.lockfile_path ≡ graph.lockfile_path)
        × (r.package_count ≡ length graph.packages)

  lock_result : ResolvedGraphResult → LockGenerationResult
  lock_result g = record {
    manifest_path = g.manifest_path;
    lockfile_path = g.lockfile_path;
    root_ids = g.root_ids;
    lockfile = g.lockfile;
  }

  lockfile-of_graph :
      (path : Bytes) (options : ResolveOptions) (s t : State) {l : LockGenerationResult}
      → resolve_single_version_lockfile machine version pafio_home fuel path options s
        ≡ returned l t
      → (g : ResolvedGraphResult) × (resolve_single_version_graph machine version pafio_home fuel
            path options s
          ≡ returned g t)
        × (l ≡ lock_result g)
  unfolding resolve_single_version_lockfile give lock_result
  lockfile-of_graph path options s t {l} h =
      let (g, u, a, h1) =
        >>=-eq-returned (resolve_single_version_graph machine version pafio_home fuel path options)
          _ s h in
      let (made, end) = returned_injective h1 in (g, a ∙ ap (returned g) end, sym made)

  -- What a result says of the edit.
  pub record IsTold (alias name : Bytes) (section : DependencySection) (r : DependencyCommandResult)
      : Type 0 where
    pub alias_told : r.alias ≡ alias
    pub name_told : r.package_name ≡ name
    pub section_told : r.section ≡ section

  write_edit-IsWritten :
      (manifest : Bytes) (document : ManifestDocument) (alias name : Bytes)
      (section : DependencySection) (s : State) {r : DependencyCommandResult} {t : State}
      → write_edit machine files version pafio_home fuel manifest document alias name section s
        ≡ returned r t
      → IsWritten manifest document s r t × IsTold alias name section r
  unfolding write_edit give lock_result
  write_edit-IsWritten manifest document alias name section s h =
      let text' : Bytes = serialize_manifest_canonical document in
      let (_, s1, a1, h1) =
        >>=-eq-returned (write_file machine files version pafio_home fuel manifest text') _ s h in
      let (l, s2, a2, h2) =
        >>=-eq-returned
          (resolve_single_version_lockfile machine version pafio_home fuel manifest options_of_edit)
          _ s1 h1 in
      let (g, resolved, same) = lockfile-of_graph manifest options_of_edit s1 s2 a2 in
      let correct =
        resolve_single_version_graph-IsGraph machine version pafio_home fuel manifest
          options_of_edit s1 resolved in
      let lock_text : Bytes = serialize_lockfile_canonical l.lockfile in
      let (_, s3, a3, h3) =
        >>=-eq-returned (write_file machine files version pafio_home fuel l.lockfile_path lock_text)
          _ s2 h2 in
      let (made, end) = returned_injective h3 in
      let stored =
        write_file-eq-returned machine files version pafio_home fuel l.lockfile_path lock_text s2 s3
          a3 in
      rw (← made, ← end)
        (
          record {
            after = s1;
            manifest_written =
                write_file-eq-returned machine files version pafio_home fuel manifest text' s s1 a1;
            graph = g;
            behind = s2;
            resolved = resolved;
            correct = correct;
            lockfile_written = of_lock l g s2 s3 same stored;
            told = (
              ap (λ d. d.manifest_path) same,
              ap (λ d. d.lockfile_path) same,
              ap (λ d. length d.lockfile.packages) same
                  ∙ ap length correct.locked
                  ∙ length-map _ g.packages,
            );
          },
          record { alias_told = refl; name_told = refl; section_told = refl },
        )
    where
      of_lock :
          (l : LockGenerationResult) (g : ResolvedGraphResult) (s t : State)
          → l ≡ lock_result g
          → write l.lockfile_path (serialize_lockfile_canonical l.lockfile) s ≡ written t
          → write g.lockfile_path (serialize_lockfile_canonical g.lockfile) s ≡ written t
      of_lock l g s t e h = rw e at h

  caught_returned :
      {A : Type 0} (undo : Action State (Unit {0})) (o : Outcome State A) {a : A} {t : State}
      → caught undo o ≡ returned a t
      → o ≡ returned a t
  caught_returned undo (returned b s) h = h
  caught_returned undo (threw x s) h = let (_, u, _, h1) = >>=-eq-returned undo _ s h in cc
  caught_returned undo cut_off h = cc

  commit-IsWritten :
      (manifest original : Bytes) (original_lock : Option Bytes) (document : ManifestDocument)
      (alias name : Bytes) (section : DependencySection) (s : State) {r : DependencyCommandResult}
      {t : State}
      → commit_manifest_edit machine files version pafio_home fuel manifest original original_lock
          document alias name section s
        ≡ returned r t
      → IsWritten manifest document s r t × IsTold alias name section r
  unfolding commit_manifest_edit
  commit-IsWritten manifest original original_lock document alias name section s h =
      write_edit-IsWritten manifest document alias name section s (
        caught_returned
          (restore machine files version pafio_home fuel manifest
            (lockfile_beside machine files version pafio_home fuel manifest) original original_lock)
          (write_edit machine files version pafio_home fuel manifest document alias name section s)
          h)

  -- The alias is the requested one, or the short name of the package.
  abbrev pub IsAliasOf : AddDependencyRequest → Bytes → Type 0
  IsAliasOf request alias =
      (request.alias ≡ some alias)
      ⊎ ((request.alias ≡ none) × IsShortName request.package_name alias)

  -- What was added, and to what.
  pub record IsAdded (request : AddDependencyRequest) (s : State) (r : DependencyCommandResult)
      (t : State) : Type 0 where
    pub document : ManifestDocument
    pub config : PackageConfig
    pub edited : PackageConfig
    pub loaded : load machine request.manifest_path s ≡ ok document
    pub packaged : document.package_config ≡ some config
    pub alias_of : IsAliasOf request r.alias
    pub added : add_to_package request r.alias config ≡ ok edited
    pub name_told : r.package_name ≡ request.package_name
    pub section_told : r.section ≡ request.section
    pub written_out :
        IsWritten request.manifest_path (record document { package_config = some edited }) s r t

  alias_lem :
      (name : Bytes) (asked : Option Bytes) {short : Bytes}
      → package_short_name name ≡ ok short
      → (asked ≡ some (value_or asked short))
        ⊎ ((asked ≡ none) × IsShortName name (value_or asked short))
  alias_lem name (some alias) h = inl refl
  alias_lem name none h = inr (refl, package_short_name-IsShortName name h)

  load_package-eq-returned :
      (p : Bytes) (s t : State) {document : ManifestDocument} {config : PackageConfig}
      → load_package machine files version pafio_home fuel p s ≡ returned (document, config) t
      → (load machine p s ≡ ok document) × (document.package_config ≡ some config)
  unfolding load_package attempt give
  load_package-eq-returned p s t {document} {config} h =
      let (d, s1, a1, h1) = >>=-eq-returned (attempt (load machine p)) _ s h in
      let (loaded, _) = from_result-eq-returned (load machine p s) s a1 in
      let wanted = or_throw d.package_config validation_error in
      let (c, s2, a2, h2) = >>=-eq-returned (from_result wanted) _ s1 h1 in
      let (has, _) = from_result-eq-returned wanted s1 a2 in
      let (made, _) = returned_injective h2 in
      let same : d ≡ document = ap (λ q. q.0) made in
      let same' : c ≡ config = ap (λ q. q.1) made in
      (
        loaded ∙ ap ok same,
        ap (λ q. q.package_config) (sym same) ∙ packaged d.package_config has same',
      )
    where
      packaged :
          (o : Option PackageConfig) {c d : PackageConfig}
          → or_throw o validation_error ≡ ok c
          → c ≡ d
          → o ≡ some d
      packaged none e f = cc
      packaged (some x) e f = cc

  -- When adding a dependency returns, the package of the manifest was edited by adding the
  -- dependency, under the alias of the request or else the part of the package name behind the slash;
  -- the edited manifest was written in canonical form; then the graph of this manifest was resolved,
  -- which is correct; and last the canonical text of its lockfile was written to its path. The result
  -- has the alias, the name, the section, both paths and the number of packages.
  pub add_dependency_and_refresh_lock-IsAdded :
      (request : AddDependencyRequest) (s : State) {r : DependencyCommandResult} {t : State}
      → add_dependency_and_refresh_lock machine files version pafio_home fuel request s
        ≡ returned r t
      → IsAdded request s r t
  unfolding add_dependency_and_refresh_lock
  add_dependency_and_refresh_lock-IsAdded request s =
      let manifest : Bytes = request.manifest_path in
      returned-behind-Looks _ s (ask-Looks _) λ present _.
        returned-behind-Looks _ s (from_result-Looks _) λ _ _.
          returned-behind-Looks _ s (from_result-Looks _) λ _ _.
            returned-behind-Looks _ s (from_result-Looks _) λ short_name n.
              returned-behind-Looks _ s
                (read_file-Looks machine files version pafio_home fuel manifest)
                λ original a.
                  returned-behind-Looks _ s
                    (read_lockfile-Looks machine files version pafio_home fuel _)
                    λ original_lock b.
                      returned-behind-Looks _ s
                        (load_package-Looks machine files version pafio_home fuel manifest)
                        λ loaded c. returned-behind-Looks _ s (from_result-Looks _) λ edited d h.
                          let (parsed, packaged) = load_package-eq-returned manifest s s c in
                          let (added, _) =
                            from_result-eq-returned (add_to_package request _ loaded.1) s d in
                          let alias : Bytes = value_or request.alias short_name in
                          let (named, _) =
                            from_result-eq-returned (package_short_name request.package_name) s n in
                          let (written_out, told) =
                            commit-IsWritten manifest original original_lock
                              (record (loaded.0) { package_config = some edited }) alias
                              request.package_name request.section s h in
                          record {
                            document = loaded.0;
                            config = loaded.1;
                            edited = edited;
                            loaded = parsed;
                            packaged = packaged;
                            alias_of =
                                rw told.alias_told
                                  (alias_lem request.package_name request.alias named);
                            added = rw told.alias_told added;
                            name_told = told.name_told;
                            section_told = told.section_told;
                            written_out = written_out;
                          }
