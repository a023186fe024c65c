-- ===== src/ApplicationCore.antt =====
-- crates/application-core/src/lib.rs: lifecycle values and the identities of local effects.
use deskkin.Prelude.{ℕ, Option, none, some, ◌==◌, if◌then◌else◌}

pub data Lifecycle : Type 0 where
  start stop session_invalidated : Lifecycle

-- A `u64` that `new` keeps from being 0.
abbrev pub LocalEffectId : Type 0
LocalEffectId = ℕ

abbrev pub new : ℕ → Option LocalEffectId
new value = if value == 0 then none else some value
