-- ===== src/Rbc.antt =====
-- The Rignite Binary Config: src/rbc.rs, and its writer rbc_cli/src/main.rs.
pub mod Tag
pub mod Utf8
pub mod View
pub mod Writer
pub mod Loader
pub mod Validate
pub mod Atoms
pub mod RoundTrip
pub mod Sections
pub mod Sizes
pub mod Configured
pub mod Viewable
mod Examples
