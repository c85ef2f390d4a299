-- ===== src/Boot.antt =====
-- Loading and starting an operating system: src/boot/mod.rs.
pub mod Run
pub mod Kernel
mod Accepts
pub mod Initrd
pub mod Scan
mod Target
pub mod DevicePath
mod NodeList
pub mod Image
pub mod Linux
pub mod Order
pub mod Checked
mod Started
mod Startup
mod StartupVolume
mod StartupExample
mod Examples
