-- ===== src/Lib.antt =====
-- Verification of the Deskkin companion platform: its portable application, its protocol and the
-- support code of its CoreS3 firmware. Source paths are from the repository's root.
--
-- - ApplicationCore: crates/application-core/src/lib.rs, lifecycle events and effect identities.
-- - Features.Availability and Features.Notice: crates/application-features/src, two state machines.
--   A method `&mut self -> Result` is a function from a state to a result and the next state
--   (Prelude.Results.Method); `publish` runs one on a copy and drops the copy on an error.
-- - Application: crates/deskkin-application/src/lib.rs, the composition root: it broadcasts lifecycle
--   events to the two features, routes completions by identity, and collects views and effects.
-- - Protocol: crates/deskkin-protocol/src/lib.rs, the plaintext messages. `encode` takes the buffer
--   and returns the written bytes and the buffer after the call.
-- - ProtocolClient: crates/deskkin-protocol-client/src/lib.rs, the connection of a companion. The
--   methods connecting, authenticated and disconnected are connect, authenticate and disconnect.
-- - HostCapabilities: crates/deskkin-host-capabilities/src/lib.rs, the owner of the host's connector.
-- - CoreS3: crates/deskkin-core-s3/src/lib.rs, records in flash with their checksum (Crc, Records),
--   control frames and the network configuration (Control),
--   and what its two cores exchange: snapshots, touches and latest values (Amp).
-- - Renderer.BufferOwnership: apps/core-s3-amp/renderer/src/buffer_ownership.rs.
-- - DesktopHost: apps/desktop-host/src/lib.rs. Identity is the peer in the identity file, where the
--   outcome of each publication is an argument; Session has the hello, the loop over the messages of
--   a session, one call for one message (Reads), the companion's half of a read (ClientSession), and
--   the queue of the writer (WriteQueue). Reads.Runs puts them together with the adapter of
--   ProtocolClient and the host of HostCapabilities, with messages passed from one to the other. Pairing is the
--   host's half of a pairing after the handshake: what it reads, what its user answers and which sends
--   fail are an argument (Meets).
-- - Presentation: crates/deskkin-presentation/src/lib.rs, the frame of an animation (PetAnimator) and
--   the source coordinates of a scaled line (AxisStepper); and occlusion.rs, what is visible of a row
--   (Occlusion) and the masks of textures (Masks).
-- - Recorder: crates/local-run-recorder/src/lib.rs. Finalize is the records of a run when it ends, Store
--   the files and the calls that change them, Retention what keeps them within bounds, and Publishing
--   the publication of a run, the recovery of open runs and the commands. Which calls fail, and when, is
--   an argument (Disk), a function of the files.
-- - Simulator: apps/simulator/src/runtime.rs. Runtime has the handlers of ProtocolRuntime, one call
--   for one event, on top of Application and ProtocolClient; what the system answers is an argument
--   (System).
--   Worker is run_network_worker: a round of its loop is up to three calls, between which the runtime
--   may send. Joined puts both threads together with their queues.
-- - Examples: the models on concrete inputs.
--
-- Bytes are natural numbers, arrays are lists, and the theorems say where they need the sizes that
-- the Rust types give. Checked additions compare with 2 ^ w. A loop over a list or a fixed count is
-- structural recursion. The loop of Recorder that makes room has one round more than there are files,
-- which is enough, since a round removes one; those of Presentation.Occlusion have one for each pixel
-- and one more, which is enough, since a round goes on to the next tile; the calls between the
-- handlers of Simulator.Runtime are at most two deep, since a read calls for a timer and a timer calls
-- for nothing.
--
-- Not modelled: sockets and threads, the Noise handshake, the user interface and the scenarios of the
-- simulator, the drawing of textures, the owner's control socket, the profiles of the host, and the
-- firmware's drivers: what they answer is an argument where a model needs it.
pub mod Prelude
pub mod ApplicationCore
pub mod Features
pub mod Application
pub mod Protocol
pub mod ProtocolClient
pub mod HostCapabilities
pub mod CoreS3
pub mod DesktopHost
pub mod Recorder
pub mod Renderer
pub mod Simulator
pub mod Presentation
pub mod Examples
