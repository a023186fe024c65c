-- ===== src/Examples/Cores.antt =====
-- Buffers, touches, snapshots and control frames on concrete values.
use deskkin.Prelude.{ℕ, ◌≡◌, refl, none, some, true, false, List, [], ◌∷◌, replicate, arith}
use deskkin.Prelude.Results.{ok, is_ok}
use deskkin.Renderer.BufferOwnership as Ownership
use deskkin.Renderer.BufferOwnership.{is_inflight, new}
use deskkin.Renderer.BufferOwnership.Exclusive.{Call, call, run, submitted_until_complete}
use deskkin.CoreS3.Amp.TouchRing.{read_after}
use deskkin.CoreS3.Amp.TouchRing.Delivery.{Touch, ring_after, Reading, read_after-Reading}
use deskkin.CoreS3.Amp.Snapshot.{AmpWorldSnapshot, bilinear, nearest, decode_amp_world_snapshot}
use deskkin.CoreS3.Amp.Snapshot.Fields.{payload_bytes}
use deskkin.CoreS3.Amp.Snapshot.Stable.{Accepted, stable_read}

abbrev first_frame : List Call
first_frame = Call.begin_render 0 ∷ []

first-submit : is_ok (Ownership.submit 2 0 (run 2 first_frame (new 2))).0 ≡ true
unfolding run call new Ownership.begin_render Ownership.submit
first-submit = refl

submitted_until_complete_example :
    let later = run 2 (Call.submit 0 ∷ Call.begin_render 1 ∷ []) (run 2 first_frame (new 2)) in
    (is_inflight 2 0 later ≡ true) × (is_ok (Ownership.begin_render 2 0 later).0 ≡ false)
submitted_until_complete_example =
    submitted_until_complete 2 0 first_frame (Call.begin_render 1 ∷ []) first-submit (tt, tt)

abbrev same_touch : ℕ → Touch
same_touch k = record { x = k; y = 1; pressed = true }

read_after-Reading_example :
    Reading 4 10 3 0 same_touch (read_after 4 3 0 (ring_after 4 same_touch 10))
read_after-Reading_example =
    read_after-Reading 4 10 3 0 same_touch (omega arith) (omega arith) (omega arith)

abbrev snapshot : AmpWorldSnapshot
snapshot = record {
  generation = 9;
  observed_yaw = 1_000;
  sas = some 123_456;
  shell = 4;
  availability = some 3;
  notice = none;
  availability_filter = bilinear;
  notice_filter = nearest;
}

stable_read_example :
    (decode_amp_world_snapshot 9 (payload_bytes snapshot) 9 ≡ ok snapshot)
    × Accepted 9 10 (decode_amp_world_snapshot 9 (replicate 24 0) 10)
stable_read_example = stable_read snapshot 9 10 (replicate 24 0) (record {
  published = omega arith;
  generation_fits = omega arith;
  yaw_fits = omega arith;
  sas_fits = omega arith;
  shell_known = omega arith;
  availability_known = (omega arith, omega arith);
  notice_known = tt;
})
