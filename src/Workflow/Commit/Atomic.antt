-- ===== src/Workflow/Commit/Atomic.antt =====
-- src/PafioWorkflow/Dependencies.cpp: a command that fails leaves manifest and lockfile as they
-- were.
use spio.Prelude.{
  ℕ, Bytes, Bool, true, false, Option, none, some, Error, Result, ok, or_throw, runtime_error, ◌≡◌,
  ◌⊎◌, ◌∙◌, inl, inr, refl, ap, sym, value_or,
}
use spio.Prelude.Action.{
  Outcome, returned, threw, cut_off, Action, give, ask, attempt, modify, >>=-eq-returned,
  returned_injective, from_result-eq-returned,
}
use spio.Prelude.Looks.{
  >>=-eq-threw, Looks, give-Looks, ask-Looks, from_result-Looks, attempt-Looks, >>=-Looks,
  threw-behind-Looks,
}
use spio.Manifest.{ManifestDocument}
use spio.Resolve.Machine.{Machine}
use spio.Workflow.{DependencySection, AddDependencyRequest, RemoveDependencyRequest}
use spio.Workflow.Commit.{
  Files, Written, not_opened, failed, written, after_write, caught, read_file, write_file,
  restore_lockfile, restore, write_edit, lockfile_beside, commit_manifest_edit, read_if,
  read_lockfile, load_package, add_dependency_and_refresh_lock, remove_dependency_and_refresh_lock,
}

-- The handler of an exception is run to its end, and the exception goes on; or the handler throws
-- one of its own.
caught_threw :
    {S A : Type 0} (undo : Action S (Unit {0})) (o : Outcome S A) {e : Error} {t : S}
    → caught undo o ≡ threw e t
    → (u : S) × (x : Error) × (o ≡ threw x u)
      × ((undo u ≡ threw e t) ⊎ ((undo u ≡ returned tt t) × (x ≡ e)))
caught_threw undo (returned a s) h = cc
caught_threw undo cut_off h = cc
caught_threw undo (threw x s) h = (
  s,
  x,
  refl,
  elim (>>=-eq-threw undo _ s h) [
    | inl e ↦ inl e
    | inr (a, t, e, f) ↦ inr (e ∙ ap (returned tt) (thrown f).1, (thrown f).0)
  ],
)
  where
    thrown :
        {S A : Type 0} {x e : Error} {t u : S}
        → ◌≡◌ {A = Outcome S A} (threw x t) (threw e u)
        → (x ≡ e) × (t ≡ u)
    thrown h = (cc, cc)

module _ (machine : Machine) (files : Files machine.State) (version : Bytes)
    (pafio_home : Result Bytes) where
  open machine use {State, exists, is_absolute, try_remove}
  open files use {read, write}

  -- The file cannot be opened for writing, or writing to it fails.
  abbrev pub IsUnwritten : Bytes → Bytes → State → State → Type 0
  IsUnwritten p c s t = ((write p c s ≡ not_opened) × (s ≡ t)) ⊎ (write p c s ≡ failed t)

  -- What the lockfile was: its text, or none where there was no file.
  abbrev pub IsLockAt : Bytes → State → Option Bytes → Type 0
  IsLockAt lock s o =
      ((exists lock s ≡ true) × (c : Bytes) × (read lock s ≡ some c) × (o ≡ some c))
      ⊎ ((exists lock s ≡ false) × (o ≡ none))

  -- A lockfile that was not there is removed, where an error is ignored; another is written back.
  abbrev pub IsLockBack : Bytes → Option Bytes → State → State → Type 0
  IsLockBack lock o s t =
      ((o ≡ none) × (t ≡ try_remove lock s))
      ⊎ ((c : Bytes) × (o ≡ some c) × (write lock c s ≡ written t))

  write_lem :
      (p c : Bytes) (s : State) (w : Written State) {u : Unit {0}} {t : State}
      → write p c s ≡ w
      → after_write s w ≡ returned u t
      → write p c s ≡ written t
  write_lem p c s not_opened e h = cc
  write_lem p c s (failed x) e h = cc
  write_lem p c s (written x) e h = e ∙ ap written (returned_injective h).1

  threw_lem :
      (p c : Bytes) (s : State) (w : Written State) {e : Error} {t : State}
      → write p c s ≡ w
      → after_write s w ≡ threw e t
      → (e ≡ runtime_error) × IsUnwritten p c s t
  threw_lem p c s not_opened e h = (cc, inl (e, cc))
  threw_lem p c s (failed x) e h = (cc, inr (e ∙ ap failed (thrown_state h)))
    where
      thrown_state :
          {x e : Error} {t u : State}
          → ◌≡◌ {A = Outcome State (Unit {0})} (threw x t) (threw e u)
          → t ≡ u
      thrown_state h = cc
  threw_lem p c s (written x) e h = cc

  module _ (fuel : ℕ) where
    abbrev lock_of : Bytes → Bytes
    lock_of manifest = lockfile_beside machine files version pafio_home fuel manifest

    pub write_file-eq-returned :
        (p c : Bytes) (s t : State) {u : Unit {0}}
        → write_file machine files version pafio_home fuel p c s ≡ returned u t
        → write p c s ≡ written t
    unfolding write_file
    write_file-eq-returned p c s t h = write_lem p c s (write p c s) refl h

    write_file-eq-threw :
        (p c : Bytes) (s t : State) {e : Error}
        → write_file machine files version pafio_home fuel p c s ≡ threw e t
        → (e ≡ runtime_error) × IsUnwritten p c s t
    unfolding write_file
    write_file-eq-threw p c s t h = threw_lem p c s (write p c s) refl h

    lock_back :
        (lock : Bytes) (original_lock : Option Bytes) (s t : State)
        → restore_lockfile machine files version pafio_home fuel lock original_lock s
          ≡ returned tt t
        → IsLockBack lock original_lock s t
    unfolding restore_lockfile modify
    lock_back lock none s t h = inl (refl, sym (returned_injective h).1)
    lock_back lock (some c) s t h = inr (c, refl, write_file-eq-returned lock c s t h)

    lock_stuck :
        (lock : Bytes) (original_lock : Option Bytes) (s t : State) {e : Error}
        → restore_lockfile machine files version pafio_home fuel lock original_lock s ≡ threw e t
        → (e ≡ runtime_error) × ((c : Bytes) × (original_lock ≡ some c) × IsUnwritten lock c s t)
    unfolding restore_lockfile modify
    lock_stuck lock none s t h = cc
    lock_stuck lock (some c) s t h =
        let (e, n) = write_file-eq-threw lock c s t h in (e, (c, refl, n))

    -- The edit threw in some state; from there, the manifest of the start was written back, then the
    -- lockfile of the start was put back, and the exception goes on; or one of the two writes failed,
    -- with its exception.
    pub record IsRolledBack (manifest : Bytes) (s : State) (e : Error) (t : State) : Type 0 where
      pub original : Bytes
      pub original_lock : Option Bytes
      pub was : read manifest s ≡ some original
      pub was_lock : IsLockAt (lock_of manifest) s original_lock
      pub document : ManifestDocument
      pub result : Bytes × Bytes × DependencySection
      pub cause : Error
      pub given_up : State
      pub edit_threw :
          write_edit machine files version pafio_home fuel manifest document result.0 result.1
            result.2 s
          ≡ threw cause given_up
      pub put_back :
          ((cause ≡ e)
            × (v : State) × (write manifest original given_up ≡ written v)
            × IsLockBack (lock_of manifest) original_lock v t)
          ⊎ ((e ≡ runtime_error)
              × (IsUnwritten manifest original given_up t
                  ⊎ ((v : State) × (write manifest original given_up ≡ written v)
                      × (c : Bytes) × (original_lock ≡ some c)
                      × IsUnwritten (lock_of manifest) c v t)))

    -- Nothing was done, or it was undone.
    abbrev pub IsAtomic : Bytes → State → Error → State → Type 0
    IsAtomic manifest s e t = (s ≡ t) ⊎ IsRolledBack manifest s e t

    commit-IsAtomic :
        (manifest original : Bytes) (original_lock : Option Bytes) (document : ManifestDocument)
        (alias name : Bytes) (section : DependencySection) (s : State) {e : Error} {t : State}
        → read manifest s ≡ some original
        → IsLockAt (lock_of manifest) s original_lock
        → commit_manifest_edit machine files version pafio_home fuel manifest original original_lock
            document alias name section s
          ≡ threw e t
        → IsAtomic manifest s e t
    unfolding commit_manifest_edit restore
    commit-IsAtomic manifest original original_lock document alias name section s {e} {t} p q h =
        let lock : Bytes = lock_of manifest in
        let put = write_file machine files version pafio_home fuel manifest original in
        let (u, x, thrown, ended) =
          caught_threw
            (restore machine files version pafio_home fuel manifest lock original original_lock)
            (write_edit machine files version pafio_home fuel manifest document alias name section
              s)
            h in
        inr record {
          original = original;
          original_lock = original_lock;
          document = document;
          result = (alias, name, section);
          cause = x;
          given_up = u;
          edit_threw = thrown;
          was = p;
          was_lock = q;
          put_back = elim ended [
            | inl f ↦ inr (elim (>>=-eq-threw put _ u f) [
              | inl g ↦ let (r, n) = write_file-eq-threw manifest original u t g in (r, inl n)
              | inr (_, v, g, g1) ↦
                  let (r, n) = lock_stuck lock original_lock v t g1 in
                  (r, inr (v, write_file-eq-returned manifest original u v g, n.0, n.1, n.2))
            ])
            | inr (f, same) ↦
                let (_, v, g, g1) = >>=-eq-returned put _ u f in
                inl (
                  same,
                  v,
                  write_file-eq-returned manifest original u v g,
                  lock_back lock original_lock v t g1,
                )
          ];
        }

    pub read_file-Looks : (p : Bytes) → Looks (read_file machine files version pafio_home fuel p)
    unfolding read_file
    read_file-Looks p = attempt-Looks _

    read_if-Looks :
        (b : Bool) (p : Bytes) → Looks (read_if machine files version pafio_home fuel b p)
    unfolding read_if
    read_if-Looks true p = >>=-Looks (read_file-Looks p) λ c. give-Looks (some c)
    read_if-Looks false p = give-Looks none

    pub read_lockfile-Looks :
        (p : Bytes) → Looks (read_lockfile machine files version pafio_home fuel p)
    unfolding read_lockfile
    read_lockfile-Looks p = >>=-Looks (ask-Looks _) λ b. read_if-Looks b p

    pub load_package-Looks :
        (p : Bytes) → Looks (load_package machine files version pafio_home fuel p)
    unfolding load_package
    load_package-Looks p =
        >>=-Looks (attempt-Looks _)
          λ document. >>=-Looks (from_result-Looks _) λ config. give-Looks (document, config)

    read_file-eq-returned :
        (p : Bytes) (s t : State) {c : Bytes}
        → read_file machine files version pafio_home fuel p s ≡ returned c t
        → read p s ≡ some c
    unfolding read_file attempt
    read_file-eq-returned p s t {c} h =
        let (a, _) = from_result-eq-returned (or_throw (read p s) runtime_error) s h in
        some_of (read p s) a
      where
        some_of : (o : Option Bytes) → or_throw o runtime_error ≡ ok c → o ≡ some c
        some_of none q = cc
        some_of (some d) q = cc

    read_if-eq-returned :
        (b : Bool) (p : Bytes) (s t : State) {o : Option Bytes}
        → exists p s ≡ b
        → read_if machine files version pafio_home fuel b p s ≡ returned o t
        → IsLockAt p s o
    unfolding read_if give
    read_if-eq-returned true p s t e h =
        let (c, u, a, h1) =
          >>=-eq-returned (read_file machine files version pafio_home fuel p) _ s h in
        inl (e, c, read_file-eq-returned p s u a, sym (returned_injective h1).0)
    read_if-eq-returned false p s t e h = inr (e, sym (returned_injective h).0)

    read_lockfile-eq-returned :
        (p : Bytes) (s t : State) {o : Option Bytes}
        → read_lockfile machine files version pafio_home fuel p s ≡ returned o t
        → IsLockAt p s o
    unfolding read_lockfile ask
    read_lockfile-eq-returned p s t h = read_if-eq-returned (exists p s) p s t refl h

    -- Adding a dependency either works or is undone: when the command throws, the state is what it was;
    -- or the edit has thrown, from there the manifest was written back as it read at the start, then
    -- the lockfile was put back, which is writing its text back or, where there was none, a removal
    -- whose error is ignored, and the exception is the one of the edit; or one of these two writes
    -- has failed, and the exception is the one of the failed write.
    pub add_dependency_and_refresh_lock-IsAtomic :
        (request : AddDependencyRequest) (s : State) {e : Error} {t : State}
        → add_dependency_and_refresh_lock machine files version pafio_home fuel request s
          ≡ threw e t
        → IsAtomic request.manifest_path s e t
    unfolding add_dependency_and_refresh_lock
    add_dependency_and_refresh_lock-IsAtomic request s {e} {t} =
        let manifest : Bytes = request.manifest_path in
        let start : s ≡ t → IsAtomic manifest s e t = inl in
        threw-behind-Looks _ s (ask-Looks _) start λ present _.
          threw-behind-Looks _ s (from_result-Looks _) start λ _ _.
            threw-behind-Looks _ s (from_result-Looks _) start λ _ _.
              threw-behind-Looks _ s (from_result-Looks _) start λ short_name _.
                threw-behind-Looks _ s (read_file-Looks manifest) start λ original a.
                  threw-behind-Looks _ s (read_lockfile-Looks _) start λ original_lock b.
                    threw-behind-Looks _ s (load_package-Looks manifest) start λ loaded _.
                      threw-behind-Looks _ s (from_result-Looks _) start λ edited _.
                        commit-IsAtomic manifest original original_lock
                          (record (loaded.0) { package_config = some edited })
                          (value_or request.alias short_name) request.package_name request.section s
                          (read_file-eq-returned manifest s s a) (read_lockfile-eq-returned _ s s b)

    -- Removing a dependency either works or is undone: when the command throws, the state is what it was;
    -- or the edit has thrown, from there the manifest was written back as it read at the start, then
    -- the lockfile was put back, which is writing its text back or, where there was none, a removal
    -- whose error is ignored, and the exception is the one of the edit; or one of these two writes
    -- has failed, and the exception is the one of the failed write.
    pub remove_dependency_and_refresh_lock-IsAtomic :
        (request : RemoveDependencyRequest) (s : State) {e : Error} {t : State}
        → remove_dependency_and_refresh_lock machine files version pafio_home fuel request s
          ≡ threw e t
        → IsAtomic request.manifest_path s e t
    unfolding remove_dependency_and_refresh_lock
    remove_dependency_and_refresh_lock-IsAtomic request s {e} {t} =
        let manifest : Bytes = request.manifest_path in
        let start : s ≡ t → IsAtomic manifest s e t = inl in
        threw-behind-Looks _ s (ask-Looks _) start λ present _.
          threw-behind-Looks _ s (from_result-Looks _) start λ _ _.
            threw-behind-Looks _ s (from_result-Looks _) start λ _ _.
              threw-behind-Looks _ s (read_file-Looks manifest) start λ original a.
                threw-behind-Looks _ s (read_lockfile-Looks _) start λ original_lock b.
                  threw-behind-Looks _ s (load_package-Looks manifest) start λ loaded _.
                    threw-behind-Looks _ s (from_result-Looks _) start λ edited _.
                      commit-IsAtomic manifest original original_lock
                        (record (loaded.0) { package_config = some (edited.1) }) edited.0.alias
                        edited.0.package_name edited.0.section s
                        (read_file-eq-returned manifest s s a) (read_lockfile-eq-returned _ s s b)
