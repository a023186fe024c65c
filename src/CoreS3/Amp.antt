-- ===== src/CoreS3/Amp.antt =====
-- What the two cores of the firmware pass to each other, from crates/deskkin-core-s3/src/lib.rs.
pub mod TouchRing
pub mod LatestValue
pub mod Snapshot
