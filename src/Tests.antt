-- ===== src/Tests.antt =====
-- Runs of the modelled code, and each theorem at a concrete input.
pub mod Document
pub mod Project
pub mod Plans
pub mod Lockfiles
pub mod Hashing
pub mod Registry
pub mod Settings
pub mod Manifests
pub mod Workspace
pub mod Resolution
pub mod Store
pub mod Dependencies
pub mod Commands
pub mod Trees
pub mod Hashes
