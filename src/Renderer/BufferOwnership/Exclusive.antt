-- ===== src/Renderer/BufferOwnership/Exclusive.antt =====
-- Whatever the renderer calls, no buffer is rendered while it is on its way to the display.
use deskkin.Prelude.{
  ℕ, zero, suc, ◌<◌, ◌≡◌, ◌≢◌, refl, Bool, true, false, Option, none, some, List, [], ◌∷◌, length,
  get_or, set, All, arith, length-set, length-replicate, get_or-set_self, get_or-set_ne,
}
use deskkin.Prelude.Results.{is_ok}
use deskkin.Renderer.BufferOwnership as Ownership
use deskkin.Renderer.BufferOwnership.{BufferOwnership, new, is_inflight}

pub data Call : Type 0 where
  begin_render submit submission_failed complete : ℕ → Call

unfoldable pub call : ℕ → Call → BufferOwnership → BufferOwnership
call n (begin_render index) o = (Ownership.begin_render n index o).1
call n (submit index) o = (Ownership.submit n index o).1
call n (submission_failed index) o = Ownership.submission_failed n index o
call n (complete index) o = (Ownership.complete n index o).1

unfoldable pub run : ℕ → List Call → BufferOwnership → BufferOwnership
run n [] o = o
run n (c ∷ calls) o = run n calls (call n c o)

abbrev RendersFree : ℕ → Option ℕ → List Bool → Type 0
RendersFree n none inflight = Unit {0}
RendersFree n (some index) inflight = (index < n) × (get_or inflight index false ≡ false)

pub record IsExclusive (n : ℕ) (o : BufferOwnership) : Type 0 where
  pub sized : length o.inflight ≡ n
  pub renders_free : RendersFree n o.rendering o.inflight

-- a write at another index, or of the same value, is not seen
stays_false :
    (xs : List Bool) (i j : ℕ) → get_or xs j false ≡ false → get_or (set xs i false) j false ≡ false
stays_false [] i j h = refl
stays_false (x ∷ xs) zero zero h = refl
stays_false (x ∷ xs) zero (suc j) h = h
stays_false (x ∷ xs) (suc i) zero h = h
stays_false (x ∷ xs) (suc i) (suc j) h = stays_false xs i j h

RendersFree-set :
    (n index : ℕ) (rendering : Option ℕ) (xs : List Bool)
    → RendersFree n rendering xs
    → RendersFree n rendering (set xs index false)
RendersFree-set n index none xs h = tt
RendersFree-set n index (some current) xs h = (h.0, stays_false xs index current h.1)

call-IsExclusive :
    (n : ℕ) (c : Call) (o : BufferOwnership) → IsExclusive n o → IsExclusive n (call n c o)
unfolding call Ownership.begin_render Ownership.submit Ownership.submission_failed
    Ownership.complete
call-IsExclusive n (begin_render index) o h = ground arith
call-IsExclusive n (submit index) o h = ground (arith, length-set o.inflight index true)
call-IsExclusive n (submission_failed index) o h = ground (
  arith,
  length-set o.inflight index false,
  RendersFree-set n index o.rendering o.inflight h.renders_free,
)
call-IsExclusive n (complete index) o h = ground (
  arith,
  length-set o.inflight index false,
  RendersFree-set n index o.rendering o.inflight h.renders_free,
)

run-IsExclusive :
    (n : ℕ) (calls : List Call) (o : BufferOwnership)
    → IsExclusive n o
    → IsExclusive n (run n calls o)
unfolding run
run-IsExclusive n [] o h = h
run-IsExclusive n (c ∷ calls) o h = run-IsExclusive n calls (call n c o) (call-IsExclusive n c o h)

-- Whatever is called, in whatever order, failed submissions included: the buffer that is rendered is
-- one of the n buffers and is not on its way to the display.
pub new-run-IsExclusive : (n : ℕ) (calls : List Call) → IsExclusive n (run n calls (new n))
unfolding new
new-run-IsExclusive n calls =
    run-IsExclusive n calls (new n) (record { sized = length-replicate n false; renders_free = tt })

-- calls that leave the transfer of this buffer alone
abbrev pub Keeps : ℕ → Call → Type 0
Keeps buffer (submission_failed index) = index ≢ buffer
Keeps buffer (complete index) = index ≢ buffer
Keeps buffer _ = Unit {0}

record InFlight (n buffer : ℕ) (o : BufferOwnership) : Type 0 where
  valid : IsExclusive n o
  in_range : buffer < n
  flies : get_or o.inflight buffer false ≡ true

stays_true :
    (xs : List Bool) (i j : ℕ) → get_or xs j false ≡ true → get_or (set xs i true) j false ≡ true
stays_true [] i j h = h
stays_true (x ∷ xs) zero zero h = refl
stays_true (x ∷ xs) zero (suc j) h = h
stays_true (x ∷ xs) (suc i) zero h = h
stays_true (x ∷ xs) (suc i) (suc j) h = stays_true xs i j h

call-flies :
    (n buffer : ℕ) (c : Call) (o : BufferOwnership)
    → Keeps buffer c
    → get_or o.inflight buffer false ≡ true
    → get_or (call n c o).inflight buffer false ≡ true
unfolding call Ownership.begin_render Ownership.submit Ownership.submission_failed
    Ownership.complete
call-flies n buffer (begin_render index) o k h = ground arith
call-flies n buffer (submit index) o k h = ground (arith, stays_true o.inflight index buffer h)
call-flies n buffer (submission_failed index) o k h =
    ground (arith, get_or-set_ne o.inflight index buffer false false k)
call-flies n buffer (complete index) o k h =
    ground (arith, get_or-set_ne o.inflight index buffer false false k)

run-flies :
    (n buffer : ℕ) (calls : List Call) (o : BufferOwnership)
    → All (Keeps buffer) calls
    → get_or o.inflight buffer false ≡ true
    → get_or (run n calls o).inflight buffer false ≡ true
unfolding run
run-flies n buffer [] o k h = h
run-flies n buffer (c ∷ calls) o k h =
    run-flies n buffer calls (call n c o) k.1 (call-flies n buffer c o k.0 h)

submit-flies :
    (n buffer : ℕ) (o : BufferOwnership)
    → IsExclusive n o
    → is_ok (Ownership.submit n buffer o).0 ≡ true
    → (buffer < n) × (get_or (call n (submit buffer) o).inflight buffer false ≡ true)
unfolding call Ownership.submit
submit-flies n buffer o h done =
    ground (arith, h.sized, get_or-set_self o.inflight buffer true false)

flies-refused :
    (n buffer : ℕ) (o : BufferOwnership)
    → buffer < n
    → get_or o.inflight buffer false ≡ true
    → (is_inflight n buffer o ≡ true) × (is_ok (Ownership.begin_render n buffer o).0 ≡ false)
unfolding is_inflight Ownership.begin_render
flies-refused n buffer o room h = ground arith

-- A buffer that was submitted is in flight and cannot be rendered, whatever is called, until its
-- transfer is completed or its submission has failed.
pub submitted_until_complete :
    (n buffer : ℕ) (before after : List Call)
    → is_ok (Ownership.submit n buffer (run n before (new n))).0 ≡ true
    → All (Keeps buffer) after
    → let later = run n (submit buffer ∷ after) (run n before (new n)) in
      (is_inflight n buffer later ≡ true)
      × (is_ok (Ownership.begin_render n buffer later).0 ≡ false)
unfolding run
submitted_until_complete n buffer before after done keeps =
    let o = run n before (new n) in
    let (room, flies) = submit-flies n buffer o (new-run-IsExclusive n before) done in
    flies-refused n buffer (run n after (call n (submit buffer) o)) room
      (run-flies n buffer after (call n (submit buffer) o) keeps flies)
