-- ===== src/Frame/Examples.antt =====
-- Runs of src/frame.rs on one frame with two updates, under the toy hashes.
use quorum_loro_gateway.Prelude.{
  ℕ, ◌<◌, ◌≤◌, ◌≡◌, refl, List, [], ◌∷◌, ◌++◌, arith, length, Result, ok, err, All, true, false,
  Bool, ltb, ltb→lt, ◌&&◌, sym, ap, some,
}
use mathlib.Core.Path.{subst}
use quorum_loro_gateway.Bytes.{
  u64_mod, IsByte, to_be, from_be, checked_add, checked_mul, try_from, saturating_u64,
}
use quorum_loro_gateway.Hashes.{toy_hashes, toy_sha256, toy_crc32}
use quorum_loro_gateway.Utf8.{is_utf8}
use quorum_loro_gateway.Frame as Frame
use quorum_loro_gateway.Frame.{
  DeltaFrame, FrameError, update_digest, encode_with_limits, default_limits, truncated, at_offset,
}
use quorum_loro_gateway.Frame.Decode as Decode
use quorum_loro_gateway.Frame.Decode.{decode_one_with_limits, decode_all_with_limits, decode_frames}
use quorum_loro_gateway.Frame.Layout.{
  IsFrame, Fits, layout, Fits-encode_with_limits, encode_with_limits-eq-ok,
}
use quorum_loro_gateway.Frame.RoundTrip.{decode_one-encode}
use quorum_loro_gateway.Frame.Canonical.{encode-decode_one}
use quorum_loro_gateway.Frame.Stream.{IsStored, layouts, decode_all-layouts, decode_all-at_offset}
use quorum_loro_gateway.Frame.StreamSound.{decode_all-eq-ok, decode_all_terminates}
use quorum_loro_gateway.Frame.Truncated.{decode_one-cut}

abbrev frame : DeltaFrame
frame = record {
  producer = record { id = 112 ∷ 49 ∷ []; epoch = 0; sequence = 7 };
  batch_id = 1 ∷ 2 ∷ 3 ∷ 4 ∷ 5 ∷ 6 ∷ 7 ∷ 8 ∷ [];
  updates = (10 ∷ 11 ∷ []) ∷ (12 ∷ []) ∷ [];
  digest = update_digest toy_hashes ((10 ∷ 11 ∷ []) ∷ (12 ∷ []) ∷ []);
}

-- Its encoding, all but the last byte, and that byte.
abbrev front : List ℕ
front =
    81 ∷ 76 ∷ 71 ∷ 68 ∷ 0 ∷ 1 ∷ 0 ∷ 0 ∷ 0 ∷ 0 ∷ 0 ∷ 0 ∷ 0 ∷ 0 ∷ 0 ∷ 103 ∷ 0 ∷ 2 ∷ 112 ∷ 49 ∷ 0 ∷ 0
    ∷ 0 ∷ 0 ∷ 0 ∷ 0 ∷ 0 ∷ 0 ∷ 0 ∷ 0 ∷ 0 ∷ 0 ∷ 0 ∷ 0 ∷ 0 ∷ 7 ∷ 1 ∷ 2 ∷ 3 ∷ 4 ∷ 5 ∷ 6 ∷ 7 ∷ 8 ∷ 0 ∷ 0
    ∷ 0 ∷ 2 ∷ 0 ∷ 0 ∷ 0 ∷ 2 ∷ 0 ∷ 0 ∷ 0 ∷ 1 ∷ 10 ∷ 11 ∷ 12 ∷ 115 ∷ 45 ∷ 118 ∷ 49 ∷ 0 ∷ 0 ∷ 0 ∷ 0 ∷ 0
    ∷ 0 ∷ 0 ∷ 0 ∷ 2 ∷ 0 ∷ 0 ∷ 0 ∷ 0 ∷ 0 ∷ 0 ∷ 0 ∷ 2 ∷ 10 ∷ 11 ∷ 0 ∷ 0 ∷ 0 ∷ 0 ∷ 0 ∷ 0 ∷ 0 ∷ 1 ∷ 12
    ∷ 0 ∷ 0 ∷ 1 ∷ 12 ∷ 0 ∷ 0 ∷ 0 ∷ 0 ∷ 0 ∷ 0 ∷ 0 ∷ []

abbrev frame_bytes : List ℕ
frame_bytes = front ++ 103 ∷ []

abbrev all_bytes : List ℕ → Bool
all_bytes [] = true
all_bytes (b ∷ bs) = ltb b 256 && all_bytes bs

both : (a b : Bool) → (a && b) ≡ true → (a ≡ true) × (b ≡ true)
both true b e = (refl, e)
both false b e = cc

all_bytes-All : (bs : List ℕ) → all_bytes bs ≡ true → All IsByte bs
all_bytes-All [] e = tt
all_bytes-All (b ∷ bs) e =
    let (p, q) = both (ltb b 256) (all_bytes bs) e in (ltb→lt b 256 p, all_bytes-All bs q)

frame_encoded : encode_with_limits toy_hashes frame default_limits ≡ ok frame_bytes
unfolding encode_with_limits update_digest Frame.enforce_limit try_from Frame.update_lengths
    Frame.sum_lengths checked_add checked_mul Frame.frame_total Frame.seal to_be Frame.frame_fields
    toy_sha256 from_be toy_crc32 saturating_u64
frame_encoded = refl

frame-IsFrame : IsFrame toy_hashes frame
unfolding is_utf8
frame-IsFrame = record {
  id_utf8 = refl;
  id_bytes = all_bytes-All frame.producer.id refl;
  epoch_u64 = omega arith;
  sequence_u64 = omega arith;
  batch_id_len = refl;
  batch_id_bytes = all_bytes-All frame.batch_id refl;
  updates_bytes = (all_bytes-All (10 ∷ 11 ∷ []) refl, (all_bytes-All (12 ∷ []) refl, tt));
  digest_eq = refl;
}

frame-Fits : Fits default_limits frame
frame-Fits = (encode_with_limits-eq-ok toy_hashes default_limits frame frame_encoded).0

frame-IsStored : IsStored toy_hashes default_limits frame
frame-IsStored = record { is_frame = frame-IsFrame; fits = frame-Fits }

frame_decoded : decode_one_with_limits toy_hashes frame_bytes default_limits ≡ ok (frame, 103)
frame_decoded =
    decode_one-encode toy_hashes frame frame-IsFrame default_limits frame_bytes [] frame_encoded
      (omega arith)

frame_layout : frame_bytes ≡ layout toy_hashes frame
frame_layout = (encode_with_limits-eq-ok toy_hashes default_limits frame frame_encoded).1

one_layout : layouts toy_hashes (frame ∷ []) ≡ frame_bytes
one_layout = ap (λ (l : List ℕ). l ++ []) (sym frame_layout)

two_layouts : layouts toy_hashes (frame ∷ frame ∷ []) ≡ frame_bytes ++ frame_bytes
two_layouts = ap (λ (l : List ℕ). l ++ (l ++ [])) (sym frame_layout)

two_frames :
    decode_all_with_limits toy_hashes (frame_bytes ++ frame_bytes) default_limits
    ≡ ok (frame ∷ frame ∷ [])
two_frames =
    subst
      (λ (l : List ℕ). decode_all_with_limits toy_hashes l default_limits ≡ ok (frame ∷ frame ∷ []))
      two_layouts
      (decode_all-layouts toy_hashes default_limits (frame ∷ frame ∷ [])
        (frame-IsStored, (frame-IsStored, tt))
        (subst (λ (l : List ℕ). length l ≤ default_limits.max_stream_bytes) (sym two_layouts)
          (omega arith))
        (subst (λ (l : List ℕ). length l < u64_mod) (sym two_layouts) (omega arith)))

stray_refused : decode_one_with_limits toy_hashes (9 ∷ []) default_limits ≡ err truncated
unfolding decode_one_with_limits Decode.decode_header
stray_refused = refl

decode_one-encode_example :
    decode_one_with_limits toy_hashes (frame_bytes ++ 9 ∷ 9 ∷ []) default_limits ≡ ok (frame, 103)
decode_one-encode_example =
    decode_one-encode toy_hashes frame frame-IsFrame default_limits frame_bytes (9 ∷ 9 ∷ [])
      frame_encoded (omega arith)

encode-decode_one_example : encode_with_limits toy_hashes frame default_limits ≡ ok frame_bytes
encode-decode_one_example =
    encode-decode_one toy_hashes default_limits frame_bytes frame 103
      (all_bytes-All frame_bytes refl) frame_decoded

decode_one-cut_example : decode_one_with_limits toy_hashes front default_limits ≡ err truncated
decode_one-cut_example =
    decode_one-cut toy_hashes frame default_limits front 103 [] frame-IsFrame frame_encoded

decode_all-layouts_example :
    decode_all_with_limits toy_hashes (layouts toy_hashes (frame ∷ frame ∷ [])) default_limits
    ≡ ok (frame ∷ frame ∷ [])
decode_all-layouts_example =
    decode_all-layouts toy_hashes default_limits (frame ∷ frame ∷ [])
      (frame-IsStored, (frame-IsStored, tt))
      (subst (λ (l : List ℕ). length l ≤ default_limits.max_stream_bytes) (sym two_layouts)
        (omega arith))
      (subst (λ (l : List ℕ). length l < u64_mod) (sym two_layouts) (omega arith))

decode_all-at_offset_example :
    decode_all_with_limits toy_hashes (layouts toy_hashes (frame ∷ []) ++ 9 ∷ []) default_limits
    ≡ err (at_offset (length (layouts toy_hashes (frame ∷ []))) truncated)
decode_all-at_offset_example =
    decode_all-at_offset toy_hashes default_limits (frame ∷ []) (9 ∷ []) truncated
      (frame-IsStored, tt) (omega arith) stray_refused
      (subst (λ (l : List ℕ). length (l ++ 9 ∷ []) ≤ default_limits.max_stream_bytes)
        (sym one_layout) (omega arith))
      (subst (λ (l : List ℕ). length (l ++ 9 ∷ []) < u64_mod) (sym one_layout) (omega arith))

decode_all-eq-ok_example :
    (layouts toy_hashes (frame ∷ frame ∷ []) ≡ frame_bytes ++ frame_bytes)
    × All (IsStored toy_hashes default_limits) (frame ∷ frame ∷ [])
decode_all-eq-ok_example =
    decode_all-eq-ok toy_hashes default_limits (frame_bytes ++ frame_bytes) (frame ∷ frame ∷ [])
      (all_bytes-All (frame_bytes ++ frame_bytes) refl) two_frames

decode_all_terminates_example :
    (r : Result FrameError (List DeltaFrame)) × (decode_frames toy_hashes default_limits 103
        frame_bytes 0
      ≡ some r)
decode_all_terminates_example =
    decode_all_terminates toy_hashes default_limits frame_bytes (all_bytes-All frame_bytes refl)

Fits-encode_with_limits_example :
    encode_with_limits toy_hashes frame default_limits ≡ ok (layout toy_hashes frame)
Fits-encode_with_limits_example = Fits-encode_with_limits toy_hashes default_limits frame frame-Fits

encode_with_limits-eq-ok_example :
    Fits default_limits frame × (frame_bytes ≡ layout toy_hashes frame)
encode_with_limits-eq-ok_example =
    encode_with_limits-eq-ok toy_hashes default_limits frame frame_encoded
