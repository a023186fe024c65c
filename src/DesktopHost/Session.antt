-- ===== src/DesktopHost/Session.antt =====
-- The availability session of apps/desktop-host/src/lib.rs: what a hello has to offer, which reads
-- are answered, and in which order the writer sends.
pub mod WriteQueue
pub mod Hello
pub mod Reads
pub mod ClientSession
