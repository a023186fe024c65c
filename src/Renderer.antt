-- ===== src/Renderer.antt =====
-- apps/core-s3-amp/renderer/src: who owns a frame buffer while it is rendered and transferred.
pub mod BufferOwnership
