-- ===== src/HostTool.antt =====
-- src/host_test_tool/src/main.rs: the receiver of disk images over USB.
pub mod Device
pub mod Transfer
pub mod Handshake
mod Script
mod Magic
mod Received
mod Examples
