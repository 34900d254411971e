-- ===== src/Tests.antt =====
-- Runs of the modelled code on concrete inputs.
pub mod Filters
pub mod Versions
pub mod Requests
pub mod Environments
pub mod KernelOptions
pub mod Urls
pub mod Builds
pub mod Mirrors
pub mod Downloads
pub mod Selections
pub mod Accounts
pub mod Creations
pub mod Throttles
pub mod Queues
