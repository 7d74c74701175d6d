-- ===== src/Lib.antt =====
-- Pafio, the package manager of this repository (C++ under src/PafioX/…): a model of its core and
-- the theorems about it.
--
-- The program reads a manifest (src/PafioManifest/Manifest.cpp) and resolves it to a graph of
-- packages (src/PafioResolve), which it records in a lockfile (src/PafioManifest/Lockfile.cpp) and
-- turns into a compile plan (src/PafioPlan/CompilePlan.cpp) for the compiler that the toolchain
-- state (src/PafioToolchain) names, on this machine or as a cloud job (src/PafioCloud). Packages of
-- a registry come through src/PafioSecurity, and files are told apart by their digest
-- (src/PafioCore/Sha256.cpp).
--
-- Texts are lists of bytes. A function that throws returns a `Result` with the class of the
-- exception; messages are left out. A path is its text; what the code asks the file system is the
-- record `FileSystem`, and what it asks toml++ is the interface `Toml`, both parameters. Code that
-- changes the disk is an `Action`, from a state to an outcome: a value or an exception, each with
-- the next state, or the mark that a bounded recursion was cut off. What such code asks of the
-- outside, git and tar among it, is the record `Machine` with a state of its own.
--
-- - Prelude: tests, lists, texts, results, sorting by a key (std::sort, std::unique), lists of
--   distinct texts, reordered lists, places in lists; actions, those that always end (Finishes) and
--   those that leave the state as it is (Looks).
-- - Patterns: the regular expressions of PafioManifest, as rows of character classes.
-- - Toml, Quote: reading through toml++, and `QuoteTomlString`, `QuoteTomlKey`.
-- - Manifest: the data; `LoadManifest` (Load), where `fs::path::is_absolute` is an argument, and
--   `SerializeManifestCanonical` (Write).
-- - Resolve: src/PafioResolve/Resolver.cpp. Origin has fingerprints and ids, Git the class
--   `GitSourceCache`, Select `SelectPackageManifestFromRoot`, Node `ResolveNode` and the three
--   kinds of dependencies, Graph the seeds and the form of the result, and Run the entry points.
--   `ResolveNode` runs on fuel: a call that goes on adds a node with a new name, so the number of
--   package names that can be loaded, and one, is enough. `MaterializeRegistryPackage` is an
--   operation of the machine.
-- - Workflow: src/PafioWorkflow/Dependencies.cpp. Edit has the checks of a request and the edit of
--   the manifest, Commit the writing of manifest and lockfile with the roll-back, and the commands.
--   Files are read and written through the record `Files`, of which nothing is assumed.
-- - Lockfile: `LoadLockfile` (Load) and `SerializeLockfileCanonical` (Write).
-- - Plan: `BuildPackageOrder` (Order), `BuildSourceHash` (Hash) and the choice of the entry
--   package, the target and the profile (Select). The recursive lambda `visit` runs on fuel, one
--   more than the number of packages, since no id is on its stack twice.
-- - Security: package names, object paths and digests of a registry; Security/Access has the
--   handler chains and the two resolver slots.
-- - Sha256: the hash, with a `uint32_t` as a number modulo 2 ^ 32. The loop of `Update` runs on
--   fuel, one round for each byte, since a round copies one byte at least. The reads of a file are
--   a sequence of results of the stream. Standard is FIPS 180-4 written down from its text, with
--   the constants computed from the primes, as the reference; Padding has its padded message.
-- - Toolchain: the vocabulary, `LoadProjectToolchainState` and `UpdateProjectToolchainState`. The
--   paths of src/PafioCore/Paths.cpp and the writing of a file are arguments.
-- - Tree: src/PafioTree/Render.cpp, the dependency tree as text. `RenderNode` runs on fuel, one more
--   than the number of packages, since no id is on `path_stack` twice.
-- - Cloud: `ResolveCloudExecutionPolicy` (Execution) and `BuildCloudBuildJobRequest` (Job).
-- - Tests: runs of the model, and each theorem at a concrete input.
--
-- Not modelled: the registry client and its trust checks, the command line, processes, publishing,
-- packing, vendoring and the JSON that the plan is printed as; some of these are the operating
-- system's or a library's, and the others stand outside the model.
pub mod Cloud
pub mod FileSystem
pub mod Lockfile
pub mod Manifest
pub mod Patterns
pub mod Plan
pub mod Prelude
pub mod Quote
pub mod Resolve
pub mod Security
pub mod Sha256
pub mod Tests
pub mod Toml
pub mod Toolchain
pub mod Tree
pub mod Workflow
