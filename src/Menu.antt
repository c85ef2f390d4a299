-- ===== src/Menu.antt =====
-- src/main.rs: the menu, the key handling of its loop, and the splash screen before it.
pub mod State
pub mod Keys
pub mod Session
pub mod Safe
mod Exit
mod Live
mod Wrap
pub mod Splash
pub mod Patience
mod Examples
