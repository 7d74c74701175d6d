-- ===== src/Cloud.antt =====
-- src/PafioCloud: the policy that a cloud job runs under, and the job itself.
pub mod Execution
pub mod Job
