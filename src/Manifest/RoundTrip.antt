-- ===== src/Manifest/RoundTrip.antt =====
-- Decoding an encoded manifest record gives the record back.
use quorum_loro_gateway.Prelude.{
  ℕ, ◌+◌, ◌≤◌, ◌<◌, ◌≡◌, refl, ap, ◌∙◌, List, [], ◌++◌, arith, length, length-append, append-nil,
  le→leb, ==_refl, bytes_eq, bytes_eq_refl, ok,
}
use mathlib.Core.Path.{subst}
use quorum_loro_gateway.Bytes.{
  u16_mod, u32_mod, u64_mod, to_be, length-to_be, try_from, checked_sub,
}
use quorum_loro_gateway.Cursor.{
  Window, Window-split, Window_front, Window-get_range?, Window-read_be, Window-take_bytes,
}
use quorum_loro_gateway.Hashes.{Hashes}
use quorum_loro_gateway.Manifest.{
  magic, version, fixed_record_bytes, ManifestLimits, ManifestRecord, truncated, length_overflow,
  manifest_digest, record_fields, encode_with_limits,
}
use quorum_loro_gateway.Manifest.Decode.{
  take, read_u16, read_u32, read_u64, decode_header, read_fields, verify_trailer, decode_one,
}
use quorum_loro_gateway.Manifest.Pieces.{
  IsRecord, body, layout, enforce_limit_fits, encode-Encodable, encode-layout, length-layout,
  body_Window, header_Window,
}

module _ (input : List ℕ) (small : length input < u64_mod) where
  read_u16_at :
      (cursor v next : ℕ)
      → v < u16_mod
      → Window input cursor (to_be 2 v) next
      → read_u16 input cursor ≡ ok (v, next)
  unfolding read_u16
  read_u16_at = Window-read_be length_overflow truncated input small 2

  read_u32_at :
      (cursor v next : ℕ)
      → v < u32_mod
      → Window input cursor (to_be 4 v) next
      → read_u32 input cursor ≡ ok (v, next)
  unfolding read_u32
  read_u32_at = Window-read_be length_overflow truncated input small 4

  read_u64_at :
      (cursor v next : ℕ)
      → v < u64_mod
      → Window input cursor (to_be 8 v) next
      → read_u64 input cursor ≡ ok (v, next)
  unfolding read_u64
  read_u64_at = Window-read_be length_overflow truncated input small 8

  take_at :
      (cursor n : ℕ) (bytes : List ℕ) (next : ℕ)
      → length bytes ≡ n
      → Window input cursor bytes next
      → take input cursor n ≡ ok (bytes, next)
  unfolding take
  take_at = Window-take_bytes length_overflow truncated input small

  -- The eight fields, one after the other.
  read_fields-record :
      (r : ManifestRecord)
      → IsRecord r
      → Window input 16 (record_fields r) 176
      → read_fields input 16 ≡ ok (r, 176)
  unfolding read_fields record_fields
  read_fields-record r is w =
      let p₁ = Window-split input 16 r.room_hash _ 48 176 (omega (arith, is.room_len)) w in
      let p₂ =
        Window-split input 48 (to_be 8 r.revision) _ 56 176
          (omega (arith, length-to_be 8 r.revision)) p₁.1 in
      let p₃ =
        Window-split input 56 r.previous_record_digest _ 88 176 (omega (arith, is.previous_len))
          p₂.1 in
      let p₄ =
        Window-split input 88 (to_be 8 r.checkpoint_generation) _ 96 176
          (omega (arith, length-to_be 8 r.checkpoint_generation)) p₃.1 in
      let p₅ =
        Window-split input 96 (to_be 8 r.checkpoint_stream_end_offset) _ 104 176
          (omega (arith, length-to_be 8 r.checkpoint_stream_end_offset)) p₄.1 in
      let p₆ =
        Window-split input 104 r.checkpoint_record_digest _ 136 176
          (omega (arith, is.checkpoint_len)) p₅.1 in
      let p₇ =
        Window-split input 136 (to_be 8 r.active_delta_generation) r.digest 144 176
          (omega (arith, length-to_be 8 r.active_delta_generation)) p₆.1 in
      rw (
        take_at 16 32 r.room_hash 48 is.room_len p₁.0,
        read_u64_at 48 r.revision 56 is.revision_u64 p₂.0,
        take_at 56 32 r.previous_record_digest 88 is.previous_len p₃.0,
        read_u64_at 88 r.checkpoint_generation 96 is.checkpoint_u64 p₄.0,
        read_u64_at 96 r.checkpoint_stream_end_offset 104 is.end_u64 p₅.0,
        take_at 104 32 r.checkpoint_record_digest 136 is.checkpoint_len p₆.0,
        read_u64_at 136 r.active_delta_generation 144 is.active_u64 p₇.0,
        take_at 144 32 r.digest 176 is.digest_len p₇.1,
      )

module _ (h : Hashes) (limits : ManifestLimits) (r : ManifestRecord) (is : IsRecord r) where
  decode_header-layout :
      (rest : List ℕ)
      → fixed_record_bytes ≤ limits.max_record_bytes
      → length (layout h r ++ rest) < u64_mod
      → decode_header (layout h r ++ rest) limits ≡ ok (layout h r, fixed_record_bytes, 16)
  unfolding decode_header try_from
  decode_header-layout rest limit small =
      let input = layout h r ++ rest in
      let total : length input ≡ 188 + length rest =
        omega (arith, length-append (layout h r) rest, length-layout r is h) in
      let w = (header_Window r is h rest).0 in
      let p₁ =
        Window-split input 0 magic (to_be 2 version ++ (to_be 2 0 ++ to_be 8 188)) 4 16 refl w in
      let p₂ =
        Window-split input 4 (to_be 2 version) (to_be 2 0 ++ to_be 8 188) 6 16
          (omega (arith, length-to_be 2 version)) p₁.1 in
      let p₃ =
        Window-split input 6 (to_be 2 0) (to_be 8 188) 8 16 (omega (arith, length-to_be 2 0))
          p₂.1 in
      rw (
        enforce_limit_fits "manifest record bytes" 188 limits.max_record_bytes limit,
        le→leb 188 (length input) (omega (arith, total)),
        Window-get_range? input 0 magic 4 p₁.0,
        bytes_eq_refl magic,
        read_u16_at input small 4 version 6 (omega arith) p₂.0,
        read_u16_at input small 6 0 8 (omega arith) p₃.0,
        read_u64_at input small 8 188 16 (omega arith) p₃.1,
        enforce_limit_fits "manifest record bytes" 188 limits.max_record_bytes limit,
        le→leb 188 (length input) (omega (arith, total)),
        Window-get_range? input 0 (layout h r) 188
            (Window_front (layout h r) rest 188 (length-layout r is h)),
      )

  layout_small : length (layout h r) < u64_mod
  layout_small = omega (arith, length-layout r is h)

  verify_trailer-layout : verify_trailer h (layout h r) fixed_record_bytes ≡ ok 176
  unfolding verify_trailer try_from checked_sub
  verify_trailer-layout =
      let input = layout h r in
      let crc = h.crc32 (body r) in
      let w =
        subst
          (λ (i : List ℕ). Window i 0 (body r) 176 × Window i 176 (to_be 4 crc ++ to_be 8 188) 188)
          (append-nil input) (body_Window r is h []) in
      let p =
        Window-split input 176 (to_be 4 crc) (to_be 8 188) 180 188
          (omega (arith, length-to_be 4 crc)) w.1 in
      rw (
        read_u64_at input layout_small 180 188 188 (omega arith) p.1,
        read_u32_at input layout_small 176 crc 180 (h.crc32_bound _) p.0,
        Window-get_range? input 0 (body r) 176 w.0,
        ==_refl crc,
      )

-- Whatever `encode_with_limits` writes for a manifest record whose fields have their types' widths, `decode_one` under the same limits reads
-- back from the front of any array that starts with it, and it consumes exactly the 188 bytes that
-- were written. (An array's length is a 64-bit number.)
pub decode_record-encode :
    (h : Hashes) (limits : ManifestLimits) (r : ManifestRecord) (bytes rest : List ℕ)
    → IsRecord r
    → encode_with_limits h r limits ≡ ok bytes
    → length (bytes ++ rest) < u64_mod
    → decode_one h (bytes ++ rest) limits ≡ ok (r, length bytes)
unfolding decode_one
decode_record-encode h limits r bytes rest is e small =
    let enc = encode-Encodable h limits r e in
    let eq = encode-layout h limits r e in
    let w =
      subst (λ (i : List ℕ). Window i 16 (record_fields r) 176) (append-nil (layout h r))
        (header_Window r is h []).1 in
    rw eq (
      rw (
        decode_header-layout h limits r is rest enc.limit
            (subst (λ (l : List ℕ). length (l ++ rest) < u64_mod) eq small),
        verify_trailer-layout h limits r is,
        read_fields-record (layout h r) (layout_small h limits r is) r is w,
        enc.fields,
        ap (λ (d : List ℕ). bytes_eq d (manifest_digest h r)) enc.digest_eq
            ∙ bytes_eq_refl (manifest_digest h r),
        length-layout r is h,
      ))
