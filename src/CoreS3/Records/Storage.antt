-- ===== src/CoreS3/Records/Storage.antt =====
-- Storing a record and finding it again: the two slots of a record in flash.
use deskkin.Prelude.Fallible.{◌>>=◌}
use deskkin.CoreS3.Records.{same_record, decode_slot}
use deskkin.Prelude.Bytes.{same_bytes_iff}
use deskkin.Prelude.{ne→==-false, subst}
use deskkin.Prelude.{==_refl}
use deskkin.Prelude.{
  ℕ, ◌+◌, ◌<◌, ◌≤◌, ◌≡◌, ◌≢◌, refl, sym, ap, ◌∙◌, true, Option, none, some, [], ◌∷◌, ◌++◌, length,
  drop, arith,
}
use deskkin.Prelude.Results.{Result, ok, err}
use deskkin.Prelude.Bytes.{Bytes, AreBytes}
use deskkin.CoreS3.{nvs_header_len, nvs_payload_max, DecodeError, invalid_crc}
use deskkin.CoreS3.Crc.{crc32, crc32-lt}
use deskkin.CoreS3.Crc.Changes.{crc32-one_byte}
use deskkin.CoreS3.Records.{
  RecordRef, image, sealed, encode_record, decode_record, select, select_slot,
}
use deskkin.CoreS3.Records.Image.{IsRecord, decode-image, image-AreBytes, length-image}

sealed-eq : (r : RecordRef) → sealed r ≡ image r (crc32 (image r 0))
unfolding sealed
sealed-eq r = refl

pub decode-sealed : (r : RecordRef) → IsRecord r → decode_record (sealed r) ≡ ok r
decode-sealed r h = rw (
  sealed-eq r,
  decode-image r (crc32 (image r 0)) h (crc32-lt (image r 0)),
  ==_refl (crc32 (image r 0)),
)

encode_record-fits :
    (r : RecordRef) (output : Bytes)
    → length r.payload ≤ nvs_payload_max
    → nvs_header_len + length r.payload ≤ length output
    → encode_record r output ≡ (
      ok (nvs_header_len + length r.payload),
      sealed r ++ drop (nvs_header_len + length r.payload) output,
    )
unfolding encode_record
encode_record-fits r output fits room = ground arith

-- A record that fits is written to the start of a buffer with room for it, the rest of the buffer
-- stays, and the bytes written decode to the record.
pub decode-encode_record :
    (r : RecordRef) (output : Bytes)
    → IsRecord r
    → nvs_header_len + length r.payload ≤ length output
    → (written : Bytes) × (encode_record r output ≡ (
      ok (nvs_header_len + length r.payload),
      written ++ drop (nvs_header_len + length r.payload) output,
    ))
      × (length written ≡ nvs_header_len + length r.payload)
      × (decode_record written ≡ ok r)
decode-encode_record r output h room = (
  sealed r,
  encode_record-fits r output h.payload_fits room,
  rw (sealed-eq r) (length-image r _),
  decode-sealed r h,
)

All-before : (xs ys : Bytes) → AreBytes (xs ++ ys) → AreBytes xs
All-before [] ys h = tt
All-before (x ∷ xs) ys h = (h.0, All-before xs ys h.1)

All-behind : (xs ys : Bytes) → AreBytes (xs ++ ys) → AreBytes ys
All-behind [] ys h = h
All-behind (x ∷ xs) ys h = All-behind xs ys h.1

module _ (r changed : RecordRef) (before after : Bytes) (x y : ℕ) where
  -- Two records that fit and whose bytes, the checksum aside, differ in one byte, whatever field it
  -- belongs to: the second with the checksum of the first is refused.
  pub changed_byte_is_refused :
      IsRecord r
      → IsRecord changed
      → image r 0 ≡ before ++ x ∷ after
      → image changed 0 ≡ before ++ y ∷ after
      → x ≢ y
      → decode_record (image changed (crc32 (image r 0))) ≡ err invalid_crc
  changed_byte_is_refused hr hc old new ne =
      let old_bytes : AreBytes (before ++ x ∷ after) =
        subst AreBytes old (image-AreBytes r 0 hr.payload_bytes) in
      let new_bytes : AreBytes (before ++ y ∷ after) =
        subst AreBytes new (image-AreBytes changed 0 hc.payload_bytes) in
      let behind = All-behind before (x ∷ after) old_bytes in
      let differs : crc32 (image changed 0) ≢ crc32 (image r 0) = λ e. ne (
        crc32-one_byte before after x y (All-before before (x ∷ after) old_bytes) behind.1 behind.0
          (All-behind before (y ∷ after) new_bytes).0
          (ap crc32 (sym old) ∙ sym e ∙ ap crc32 new)) in
      rw (
        decode-image changed (crc32 (image r 0)) hc (crc32-lt (image r 0)),
        ne→==-false _ _ differs,
      )

-- what `select_slot` makes of two records in flash
pub select_slot-decoded :
    (a b : RecordRef)
    → IsRecord a
    → IsRecord b
    → select_slot (some (sealed a)) (some (sealed b)) ≡ select (some a) (some b)
unfolding select_slot
select_slot-decoded a b ha hb = rw (decode-sealed a ha, decode-sealed b hb)

module _ (old new : RecordRef) (later : old.publication_sequence < new.publication_sequence) where
  select-later : select (some old) (some new) ≡ ok (some new)
  unfolding select
  select-later = ground arith

  select-earlier : select (some new) (some old) ≡ ok (some new)
  unfolding select
  select-earlier = ground arith

-- Publishing a record with a later sequence number to either slot makes it the one that is found.
pub select_slot-latest :
    (old new : RecordRef)
    → IsRecord old
    → IsRecord new
    → old.publication_sequence < new.publication_sequence
    → (select_slot (some (sealed old)) (some (sealed new)) ≡ ok (some new))
      × (select_slot (some (sealed new)) (some (sealed old)) ≡ ok (some new))
select_slot-latest old new ho hn later = (
  select_slot-decoded old new ho hn ∙ select-later old new later,
  select_slot-decoded new old hn ho ∙ select-earlier old new later,
)

same_record_comm :
    (a b : RecordRef)
    → same_record a b ≡ true
    → (a.publication_sequence ≡ b.publication_sequence)
    → a ≡ b
same_record_comm a b h e = ground (arith, same_bytes_iff a.payload b.payload)

select_comm : (first second : Option RecordRef) → select first second ≡ select second first
unfolding select
select_comm none none = refl
select_comm none (some b) = refl
select_comm (some a) none = refl
select_comm (some a) (some b) = ground (
  arith,
  same_record_comm a b,
  same_record_comm b a,
  same_bytes_iff a.payload b.payload,
  same_bytes_iff b.payload a.payload,
)

succeeded :
    {A B : Type 0} (before : Result DecodeError A) (next : A → Result DecodeError B) (last : B)
    → (before >>= next) ≡ ok last
    → (first : A) × (before ≡ ok first) × (next first ≡ ok last)
succeeded (err e) next last h = cc
succeeded (ok first) next last h = (first, refl, h)

-- The slots are equals: what is found does not depend on which of them holds what, for any contents.
pub select_slot_comm :
    (first second : Option Bytes) (found : Option RecordRef)
    → select_slot first second ≡ ok found
    → select_slot second first ≡ ok found
unfolding select_slot
select_slot_comm first second found h =
    let choose : Option RecordRef → Option RecordRef → Result DecodeError (Option RecordRef) =
      λ left. λ right. select left right in
    let (left, at_first, rest) =
      succeeded (decode_slot first) (λ left. decode_slot second >>= choose left) found h in
    let (right, at_second, chosen) = succeeded (decode_slot second) (choose left) found rest in
    rw (at_second, at_first) (select_comm right left ∙ chosen)
