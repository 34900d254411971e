-- ===== src/Download.antt =====
-- ldfd/download: where a component is downloaded from.
pub mod Url
pub mod Mirror
pub mod Jobs
pub mod Downloader
pub mod Control
pub mod Worker
pub mod Cache
pub mod Creation
pub mod Throttle
pub mod Manager
