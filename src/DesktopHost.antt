-- ===== src/DesktopHost.antt =====
-- apps/desktop-host/src/lib.rs: the parts of the desktop host that decide, without its sockets,
-- threads, files and handshakes.
pub mod Hex
pub mod Identity
pub mod Session
pub mod Pairing

-- the errors of the identity store
pub data StoreError : Type 0 where
  missing already_initialized invalid not_private unknown_entry peer_mismatch : StoreError
  generation_exhausted lock_timeout revoked_recovery_required io : StoreError

-- the errors of a session
pub data SessionError : Type 0 where
  non_loopback non_private_lan io noise protocol identity pairing_timeout incompatible :
      SessionError
  authorization_denied session_busy queue_full end_of_stream frame_oversize timeout : SessionError
  pairing_rejected pairing_incomplete store_failed : SessionError
