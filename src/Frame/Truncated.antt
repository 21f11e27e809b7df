-- ===== src/Frame/Truncated.antt =====
-- A frame that was cut off, as a crash in the middle of a write leaves it.
use quorum_loro_gateway.Prelude.{
  ℕ, ◌≤◌, ◌<◌, ◌≡◌, refl, sym, ap, ◌∙◌, List, [], ◌∷◌, ◌++◌, arith, length, length-append,
  append-nil, le→leb, gt→leb, bytes_eq_refl, ok, err,
}
use mathlib.Core.Path.{subst}
use native.Mathlib.Decide.{dec_lt}
use quorum_loro_gateway.Bytes.{u64_mod, to_be, length-to_be, try_from_fits}
use quorum_loro_gateway.Cursor.{
  Window, Window-split, Window_front, Window_restrict, Window-get_range?,
}
use quorum_loro_gateway.Hashes.{Hashes}
use quorum_loro_gateway.Frame.{
  magic, version, FrameLimits, DeltaFrame, truncated, frame_header, encode_with_limits,
}
use quorum_loro_gateway.Frame.Layout.{
  IsFrame, Fits, layout, frame_len, enforce_limit_fits, encode_with_limits-eq-ok,
}
use quorum_loro_gateway.Frame.Decode.{decode_header, decode_one_with_limits}
use quorum_loro_gateway.Frame.Read.{Window-read_u16, Window-read_u64}
use quorum_loro_gateway.Frame.Pieces.{header_Window, length-layout}
use quorum_loro_gateway.Frame.Header.{ninety-le-frame_len}

short_header :
    (front : List ℕ) (limits : FrameLimits)
    → length front < 60
    → decode_header front limits ≡ err truncated
unfolding decode_header
short_header front limits low = rw (gt→leb 60 (length front) low)

module _ (h : Hashes) (f : DeltaFrame) (is : IsFrame h f) (limits : FrameLimits)
    (fits : Fits limits f) (front : List ℕ) where
  -- The header is whole, and it declares more bytes than there are.
  cut_header :
      Window front 0 (frame_header (frame_len f)) 16
      → 60 ≤ length front
      → length front < frame_len f
      → decode_header front limits ≡ err truncated
  unfolding decode_header
  cut_header w high cut =
      let n = frame_len f in
      let small : length front < u64_mod = omega (arith, cut, fits.frame_u64) in
      let big = ninety-le-frame_len f in
      let p₁ =
        Window-split front 0 magic (to_be 2 version ++ (to_be 2 0 ++ to_be 8 n)) 4 16 refl w in
      let p₂ =
        Window-split front 4 (to_be 2 version) (to_be 2 0 ++ to_be 8 n) 6 16
          (omega (arith, length-to_be 2 version)) p₁.1 in
      let p₃ =
        Window-split front 6 (to_be 2 0) (to_be 8 n) 8 16 (omega (arith, length-to_be 2 0)) p₂.1 in
      rw (
        le→leb 60 (length front) high,
        Window-get_range? front 0 magic 4 p₁.0,
        bytes_eq_refl magic,
        Window-read_u16 front small 4 version 6 (omega arith) p₂.0,
        Window-read_u16 front small 6 0 8 (omega arith) p₃.0,
        Window-read_u64 front small 8 n 16 fits.frame_u64 p₃.1,
        try_from_fits u64_mod n fits.frame_u64,
        le→leb 60 n (omega (arith, big)),
        enforce_limit_fits "frame bytes" n limits.max_frame_bytes fits.frame_limit,
        gt→leb n (length front) cut,
      )

  front_window :
      (x : ℕ) (back : List ℕ)
      → front ++ x ∷ back ≡ layout h f
      → 60 ≤ length front
      → Window front 0 (frame_header (frame_len f)) 16
  front_window x back e high =
      Window_restrict (front ++ x ∷ back) front (frame_header (frame_len f)) 16 (length front)
        (Window_front front (x ∷ back) (length front) refl)
        (subst (λ (l : List ℕ). Window l 0 (frame_header (frame_len f)) 16)
          (append-nil (layout h f) ∙ sym e) (header_Window h f is []).0)
        (omega (arith, high))

  cut_short : (x : ℕ) (back : List ℕ) → front ++ x ∷ back ≡ layout h f → length front < frame_len f
  cut_short x back e =
      omega (arith, ap length e, length-append front (x ∷ back), length-layout h f is)

  decode_header-cut :
      (x : ℕ) (back : List ℕ)
      → front ++ x ∷ back ≡ layout h f
      → decode_header front limits ≡ err truncated
  decode_header-cut x back e = elim (dec_lt (length front) 60) [
    | yes low ↦ short_header front limits low
    | no high ↦
        cut_header (front_window x back e (omega (arith, high))) (omega (arith, high))
          (cut_short x back e)
  ]

-- Every proper prefix of what `encode_with_limits` wrote for a well-formed frame, the empty one included, is refused as
-- truncated, and never taken for a frame.
pub decode_one-cut :
    (h : Hashes) (f : DeltaFrame) (limits : FrameLimits) (front : List ℕ) (x : ℕ) (back : List ℕ)
    → IsFrame h f
    → encode_with_limits h f limits ≡ ok (front ++ x ∷ back)
    → decode_one_with_limits h front limits ≡ err truncated
unfolding decode_one_with_limits
decode_one-cut h f limits front x back is e =
    let (fits, eq) = encode_with_limits-eq-ok h limits f e in
    rw (decode_header-cut h f is limits fits front x back eq)
