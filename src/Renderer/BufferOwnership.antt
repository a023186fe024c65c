-- ===== src/Renderer/BufferOwnership.antt =====
-- apps/core-s3-amp/renderer/src/buffer_ownership.rs: one buffer is rendered at a time, and any number
-- are on their way to the display. The const parameter N is the first argument of every method.
pub mod Exclusive
use deskkin.Prelude.{
  ℕ, Bool, true, false, not, ◌&&◌, Option, none, some, List, get_or, set, replicate, ◌==◌, ltb, leb,
  if◌then◌else◌,
}
use deskkin.Prelude.Results.{Result, ok, err, Method}

pub data OwnershipError : Type 0 where
  invalid_buffer already_rendering transfer_in_flight not_rendering not_in_flight : OwnershipError

pub record BufferOwnership : Type 0 where
  pub rendering : Option ℕ
  pub inflight : List Bool

abbrev pub Owner : Type 0
Owner = Method OwnershipError BufferOwnership (Unit {0})

unfoldable pub new : ℕ → BufferOwnership
new n = record { rendering = none; inflight = replicate n false }

abbrev is_some : Option ℕ → Bool
is_some none = false
is_some (some _) = true

-- `self.rendering == Some(index)`
abbrev pub renders : Option ℕ → ℕ → Bool
renders none index = false
renders (some current) index = current == index

unfoldable pub begin_render : ℕ → ℕ → Owner
begin_render n index ownership =
    if leb n index
    then (err invalid_buffer, ownership)
    else if is_some ownership.rendering
    then (err already_rendering, ownership)
    else if get_or ownership.inflight index false
    then (err transfer_in_flight, ownership)
    else (ok tt, record ownership { rendering = some index })

unfoldable pub submit : ℕ → ℕ → Owner
submit n index ownership =
    if leb n index
    then (err invalid_buffer, ownership)
    else if not (renders ownership.rendering index)
    then (err not_rendering, ownership)
    else (ok tt, record { rendering = none; inflight = set ownership.inflight index true })

unfoldable pub submission_failed : ℕ → ℕ → BufferOwnership → BufferOwnership
submission_failed n index ownership =
    if ltb index n
    then record ownership { inflight = set ownership.inflight index false }
    else ownership

unfoldable pub complete : ℕ → ℕ → Owner
complete n index ownership =
    if leb n index
    then (err invalid_buffer, ownership)
    else if not (get_or ownership.inflight index false)
    then (err not_in_flight, ownership)
    else (ok tt, record ownership { inflight = set ownership.inflight index false })

unfoldable pub is_inflight : ℕ → ℕ → BufferOwnership → Bool
is_inflight n index ownership = ltb index n && get_or ownership.inflight index false
