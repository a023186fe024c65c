-- ===== src/Presentation.antt =====
-- crates/deskkin-presentation/src/lib.rs: the parts of the drawing code that count.
pub mod PetAnimator
pub mod AxisStepper
pub mod Occlusion
pub mod Masks
