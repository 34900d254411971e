-- ===== src/Build.antt =====
-- ldfd/build and the tables it works on: build jobs, their stages and logs, the worker and the manager.
pub mod Types
pub mod Repository
pub mod Arch
pub mod Manager
pub mod Worker
