-- ===== src/Simulator.antt =====
-- apps/simulator/src/runtime.rs: the desktop companion, which runs the application against an
-- authenticated host.
pub mod Runtime
pub mod Worker
pub mod Joined
use deskkin.Prelude.{ℕ, Bool}
use deskkin.Prelude.Results.{Result}
use deskkin.Protocol.{ContextId, AvailabilityResult}
use deskkin.DesktopHost.{SessionError}

-- the address and the pairing task of `Pair` are left to the worker
pub data NetworkCommand : Type 0 where
  pair : NetworkCommand
  connect : ContextId → NetworkCommand
  read : ContextId → ℕ → ContextId → NetworkCommand

pub data NetworkControl : Type 0 where
  close revoke shutdown : NetworkControl

-- of a completed read: its session, the generation of the pairing, the request id, the operation and
-- the result
pub data NetworkEvent : Type 0 where
  paired : Bool → Result SessionError (Unit {0}) → NetworkEvent
  connected : ContextId → Result SessionError (Unit {0}) → NetworkEvent
  read_completed :
      ContextId → ℕ → ℕ → ContextId → Result SessionError AvailabilityResult → NetworkEvent
  closed worker_stopped : NetworkEvent
