-- ===== src/Main.antt =====
-- src/main.rs: the program around the menu.
pub mod Loop
mod Safety
mod Unattended
mod Examples
