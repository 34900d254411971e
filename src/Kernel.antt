-- ===== src/Kernel.antt =====
-- ldfd/build/kernel/config.go: kernel options, their merge, their file format and its parser.
pub mod Options
pub mod Recommended
pub mod Fragment
pub mod Parse
pub mod Shapes
pub mod Lines
pub mod RoundTrip
pub mod Checked
