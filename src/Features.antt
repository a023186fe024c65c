-- ===== src/Features.antt =====
-- crates/application-features/src: the two features that the application composes.
pub mod Availability
pub mod Notice
