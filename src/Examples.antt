-- ===== src/Examples.antt =====
-- Runs of the models on concrete inputs, at which the theorems apply.
mod Composition
mod Recording
mod Wire
mod Client
mod Capabilities
mod Flash
mod Cores
mod Hosting
mod Drawing
mod Companion
