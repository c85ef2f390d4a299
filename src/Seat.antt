-- ===== src/Seat.antt =====
-- seat-fdpass-smoke/src/main.rs and seat-wirebus-vm/src/bin/seat-client.rs: device files that one process
-- opens and passes on.
pub mod Prog
pub mod Device
pub mod Multi
pub mod Kernel
pub mod Sessions
pub mod Switch
pub mod Stuck
pub mod Single
mod Examples
pub mod Smoke
pub mod Io
pub mod Client
pub mod Screen
pub mod Frame
pub mod Render
mod RenderExample
pub mod ClientMain
pub mod Fields
