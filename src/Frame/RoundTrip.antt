-- ===== src/Frame/RoundTrip.antt =====
-- Decoding what was encoded gives the frame back.
use quorum_loro_gateway.Prelude.{
  ℕ, ◌+◌, ◌-◌, ◌*◌, ◌<◌, ◌≡◌, refl, sym, ap, ◌∙◌, List, [], ◌++◌, arith, length, append-nil, le→leb,
  ==_refl, eq→==, bytes_eq_refl, ok, not, true, ◌==◌,
}
use mathlib.Core.Path.{subst}
use quorum_loro_gateway.Bytes.{
  u64_mod, to_be, length-to_be, try_from_fits, checked_sub_fits, checked_add_fits, checked_mul_fits,
}
use quorum_loro_gateway.Cursor.{Window, Window-split}
use quorum_loro_gateway.Hashes.{Hashes}
use quorum_loro_gateway.Frame.{FrameLimits, DeltaFrame, length_table, concat, encode_with_limits}
use quorum_loro_gateway.Frame.Layout.{
  IsFrame, Fits, layout, layout_fields, frame_len, lengths_of, total_bytes, enforce_limit_fits,
  nonempty_fits, length-lengths_of, encode_with_limits-eq-ok,
}
use quorum_loro_gateway.Frame.Decode.{
  decode_producer, decode_updates, decode_fields, decode_one_with_limits,
}
use quorum_loro_gateway.Frame.Read.{Window-read_u16, Window-read_u32, Window-read_u64, Window-take}
use quorum_loro_gateway.Frame.Pieces.{
  header_Window, length-layout, length-length_table, length-concat, length-digest,
}
use quorum_loro_gateway.Frame.Header.{
  ninety-le-frame_len, decode_header-layout, verify_trailer-layout, length-layout_u64,
  read_lengths-table, take_updates-concat,
}

-- The bytes from the batch's count on.
abbrev tail_fields : DeltaFrame → List ℕ
tail_fields f =
    to_be 4 (length f.updates)
    ++ (length_table (lengths_of f.updates) ++ (concat f.updates ++ f.digest))

module _ (h : Hashes) (f : DeltaFrame) (is : IsFrame h f) (limits : FrameLimits)
    (fits : Fits limits f) (input : List ℕ) (small : length input < u64_mod) where
  -- Where the count stands.
  count_at : ℕ
  count_at = 42 + length f.producer.id

  decode_producer-layout :
      Window input 16 (layout_fields f) (frame_len f - 12)
      → (decode_producer limits input 16 ≡ ok (f.producer, f.batch_id, count_at))
        × Window input count_at (tail_fields f) (frame_len f - 12)
  unfolding decode_producer layout_fields count_at
  decode_producer-layout w =
      let end = frame_len f - 12 in
      let id = f.producer.id in
      let a = 18 + length id in
      let p₁ =
        Window-split input 16 (to_be 2 (length id)) _ 18 end
          (omega (arith, length-to_be 2 (length id))) w in
      let p₂ = Window-split input 18 id _ a end refl p₁.1 in
      let p₃ =
        Window-split input a (to_be 8 f.producer.epoch) _ (26 + length id) end
          (omega (arith, length-to_be 8 f.producer.epoch)) p₂.1 in
      let p₄ =
        Window-split input (26 + length id) (to_be 8 f.producer.sequence) _ (34 + length id) end
          (omega (arith, length-to_be 8 f.producer.sequence)) p₃.1 in
      let p₅ =
        Window-split input (34 + length id) f.batch_id _ (42 + length id) end
          (omega (arith, is.batch_id_len)) p₄.1 in
      (
        rw (
          Window-read_u16 input small 16 (length id) 18 fits.id_u16 p₁.0,
          enforce_limit_fits "producer ID bytes" (length id) limits.max_producer_id_bytes
              fits.id_limit,
          Window-take input small 18 (length id) id a refl p₂.0,
          is.id_utf8,
          nonempty_fits id fits.id_nonempty,
          Window-read_u64 input small a f.producer.epoch (26 + length id) is.epoch_u64 p₃.0,
          Window-read_u64 input small (26 + length id) f.producer.sequence (34 + length id)
              is.sequence_u64 p₄.0,
          Window-take input small (34 + length id) 8 f.batch_id (42 + length id) is.batch_id_len
              p₅.0,
        ),
        p₅.1,
      )

  positive_count : not (length f.updates == 0) ≡ true
  positive_count = ground (arith, fits.some_updates)

  -- Where the updates start, and that they end with the digest.
  table_end : ℕ
  table_end = 46 + length f.producer.id + length f.updates * 4

  payload_sum : table_end + total_bytes f.updates ≡ frame_len f - 12 - 32
  unfolding table_end frame_len
  payload_sum = omega arith

  decode_updates-layout :
      Window input count_at (tail_fields f) (frame_len f - 12)
      → (decode_updates limits input (frame_len f - 12) count_at
          ≡ ok (f.updates, frame_len f - 12 - 32))
        × Window input (frame_len f - 12 - 32) f.digest (frame_len f - 12)
  unfolding decode_updates count_at table_end
  decode_updates-layout w =
      let end = frame_len f - 12 in
      let payload_end = frame_len f - 12 - 32 in
      let us = f.updates in
      let table = length_table (lengths_of us) in
      let a = 46 + length f.producer.id in
      let big = ninety-le-frame_len f in
      let sum = payload_sum in
      let table_len : length table ≡ length us * 4 =
        omega (arith, length-length_table (lengths_of us), length-lengths_of us) in
      let p₁ =
        Window-split input (42 + length f.producer.id) (to_be 4 (length us)) _ a end
          (omega (arith, length-to_be 4 (length us))) w in
      let p₂ =
        Window-split input a table (concat us ++ f.digest) (a + length us * 4) end
          (omega (arith, table_len)) p₁.1 in
      let p₃ =
        Window-split input (a + length us * 4) (concat us) f.digest payload_end end
          (omega (arith, length-concat us, sum)) p₂.1 in
      (
        rw (
          Window-read_u32 input small (42 + length f.producer.id) (length us) a fits.count_u32 p₁.0,
          try_from_fits u64_mod (length us) (omega (arith, fits.count_u32)),
          positive_count,
          enforce_limit_fits "update count" (length us) limits.max_updates fits.count_limit,
          checked_sub_fits end 32 (omega arith),
          checked_mul_fits (length us) 4 (omega (arith, fits.count_u32)),
          checked_add_fits a (length us * 4) (omega (arith, sum, fits.frame_u64)),
          le→leb (a + length us * 4) payload_end (omega (arith, sum)),
          read_lengths-table limits input small us a (a + length us * 4) 0 p₂.0 fits.each_u32
              fits.each_limit (omega (arith, fits.total_limit))
              (omega (arith, sum, fits.frame_u64)),
          checked_sub_fits payload_end (a + length us * 4) (omega (arith, sum)),
          eq→== (0 + total_bytes us) (payload_end - (a + length us * 4)) (omega (arith, sum)),
          take_updates-concat limits input small us (a + length us * 4) payload_end payload_end p₃.0
              (omega arith),
          ==_refl payload_end,
        ),
        p₃.1,
      )

  decode_fields-layout :
      Window input 16 (layout_fields f) (frame_len f - 12)
      → decode_fields h limits input (frame_len f - 12) 16 ≡ ok f
  unfolding decode_fields
  decode_fields-layout w =
      let p = decode_producer-layout w in
      let q = decode_updates-layout p.1 in
      rw (
        p.0,
        q.0,
        Window-take input small (frame_len f - 12 - 32) 32 f.digest (frame_len f - 12)
            (length-digest h f is) q.1,
        ← is.digest_eq,
        bytes_eq_refl f.digest,
      )

module _ (h : Hashes) (f : DeltaFrame) (is : IsFrame h f) (limits : FrameLimits) where
  pub decode_one-layout :
      (rest : List ℕ)
      → Fits limits f
      → length (layout h f ++ rest) < u64_mod
      → decode_one_with_limits h (layout h f ++ rest) limits ≡ ok (f, frame_len f)
  unfolding decode_one_with_limits
  decode_one-layout rest fits small =
      let w =
        subst (λ (i : List ℕ). Window i 16 (layout_fields f) (frame_len f - 12))
          (append-nil (layout h f)) (header_Window h f is []).1 in
      rw (
        decode_header-layout h f is limits fits rest small,
        verify_trailer-layout h f is limits fits,
        decode_fields-layout h f is limits fits (layout h f) (length-layout_u64 h f is limits fits)
            w,
      )

  -- Whatever `encode_with_limits` writes for a well-formed frame, `decode_one_with_limits` under the same limits
  -- reads back from the front of any array that starts with it, and it consumes exactly the bytes
  -- that were written. (An array's length is a 64-bit number.)
  pub decode_one-encode :
      (bytes rest : List ℕ)
      → encode_with_limits h f limits ≡ ok bytes
      → length (bytes ++ rest) < u64_mod
      → decode_one_with_limits h (bytes ++ rest) limits ≡ ok (f, length bytes)
  decode_one-encode bytes rest e small =
      let (fits, eq) = encode_with_limits-eq-ok h limits f e in
      rw eq (
        decode_one-layout rest fits (rw eq at small)
        ∙ ap (λ (k : ℕ). ok (f, k)) (sym (length-layout h f is)))
