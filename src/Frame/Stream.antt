-- ===== src/Frame/Stream.antt =====
-- A stream of frames: `decode_all_with_limits` against the concatenation of layouts.
use quorum_loro_gateway.Prelude.{
  ℕ, zero, suc, ◌+◌, ◌≤◌, ◌<◌, ◌≡◌, refl, sym, ap, ◌∙◌, Option, some, List, [], ◌∷◌, ◌++◌, arith,
  length, length-append, All, append_assoc, append-nil, Result, ok, err,
}
use mathlib.Core.Path.{subst}
use quorum_loro_gateway.Bytes.{u64_mod, try_from_fits, checked_add_fits}
use quorum_loro_gateway.Cursor.{Window-split, Window_self, Window-get_range?}
use quorum_loro_gateway.Hashes.{Hashes}
use quorum_loro_gateway.Frame.{DeltaFrame, FrameLimits, FrameError, at_offset}
use quorum_loro_gateway.Frame.Layout.{IsFrame, Fits, layout, frame_len, enforce_limit_fits}
use quorum_loro_gateway.Frame.Decode.{
  decode_one_with_limits, decode_step, decode_frames, push_front, decode_all_with_limits,
}
use quorum_loro_gateway.Frame.Pieces.{length-layout}
use quorum_loro_gateway.Frame.Header.{ninety-le-frame_len}
use quorum_loro_gateway.Frame.RoundTrip.{decode_one-layout}

-- The bytes of a stream: the layouts of its frames, one after the other.
abbrev pub layouts : Hashes → List DeltaFrame → List ℕ
layouts h [] = []
layouts h (f ∷ fs) = layout h f ++ layouts h fs

-- A frame that can stand in a stream.
pub record IsStored (h : Hashes) (limits : FrameLimits) (f : DeltaFrame) : Type 0 where
  pub is_frame : IsFrame h f
  pub fits : Fits limits f

abbrev push_all :
    List DeltaFrame
    → Option (Result FrameError (List DeltaFrame))
    → Option (Result FrameError (List DeltaFrame))
push_all [] r = r
push_all (f ∷ fs) r = push_front f (push_all fs r)

module _ (h : Hashes) (limits : FrameLimits) where
  decode_step-layout :
      (f : DeltaFrame) (rest : List ℕ) (offset : ℕ)
      → IsStored h limits f
      → offset + length (layout h f ++ rest) < u64_mod
      → decode_step h limits (layout h f ++ rest) offset
        ≡ ok (f, rest, offset + length (layout h f))
  unfolding decode_step
  decode_step-layout f rest offset s small =
      let input = layout h f ++ rest in
      let n = frame_len f in
      let size = length-layout h f s.is_frame in
      let sum = length-append (layout h f) rest in
      let w =
        Window-split input 0 (layout h f) rest n (length input) (omega (arith, size))
          (Window_self input (length input) refl) in
      rw (
        decode_one-layout h f s.is_frame limits rest s.fits (omega (arith, small)),
        Window-get_range? input n rest (length input) w.1,
        try_from_fits u64_mod n s.fits.frame_u64,
        checked_add_fits offset n (omega (arith, small, sum, size)),
        size,
      )

  pub decode_frames-ok :
      (fuel : ℕ) (input : List ℕ) (offset : ℕ) (f : DeltaFrame) (rest : List ℕ) (next : ℕ)
      → 0 < length input
      → decode_step h limits input offset ≡ ok (f, rest, next)
      → decode_frames h limits (suc fuel) input offset
        ≡ push_front f (decode_frames h limits fuel rest next)
  unfolding decode_frames
  decode_frames-ok fuel [] offset f rest next p e = absurd (omega arith)
  decode_frames-ok fuel (b ∷ bs) offset f rest next p e = rw (e, decode_frames)

  pub decode_frames-err :
      (fuel : ℕ) (input : List ℕ) (offset : ℕ) (e : FrameError)
      → 0 < length input
      → decode_step h limits input offset ≡ err e
      → decode_frames h limits (suc fuel) input offset ≡ some (err e)
  unfolding decode_frames
  decode_frames-err fuel [] offset e p s = absurd (omega arith)
  decode_frames-err fuel (b ∷ bs) offset e p s = rw (s, decode_frames)

  layout-pos : (f : DeltaFrame) → IsFrame h f → (rest : List ℕ) → 0 < length (layout h f ++ rest)
  layout-pos f is rest =
      omega (arith, length-append (layout h f) rest, length-layout h f is, ninety-le-frame_len f)

  -- A stream of frames, and then whatever makes the loop end with `r`.
  decode_frames-layouts :
      (fs : List DeltaFrame) (rest : List ℕ) (offset fuel : ℕ)
      (r : Option (Result FrameError (List DeltaFrame)))
      → All (IsStored h limits) fs
      → offset + length (layouts h fs ++ rest) < u64_mod
      → length (layouts h fs ++ rest) ≤ fuel
      → ((fuel' : ℕ)
          → length rest ≤ fuel'
          → decode_frames h limits fuel' rest (offset + length (layouts h fs)) ≡ r)
      → decode_frames h limits fuel (layouts h fs ++ rest) offset ≡ push_all fs r
  decode_frames-layouts [] rest offset fuel r all small enough k =
      ap (decode_frames h limits fuel rest) (omega arith) ∙ k fuel enough
  decode_frames-layouts (f ∷ fs) rest offset zero r all small enough k = absurd (
      omega (
        arith,
        enough,
        length-append (layout h f ++ layouts h fs) rest,
        layout-pos f all.0.is_frame (layouts h fs),
      ))
  decode_frames-layouts (f ∷ fs) rest offset (suc fuel) r all small enough k =
      let tail = layouts h fs ++ rest in
      let next = offset + length (layout h f) in
      let sum = length-append (layout h f) tail in
      let sum' = length-append (layout h f) (layouts h fs) in
      let regroup = append_assoc (layout h f) (layouts h fs) rest in
      let small' : offset + length (layout h f ++ tail) < u64_mod =
        subst (λ (l : List ℕ). offset + length l < u64_mod) regroup small in
      let enough' : length (layout h f ++ tail) ≤ suc fuel =
        subst (λ (l : List ℕ). length l ≤ suc fuel) regroup enough in
      let positive = layout-pos f all.0.is_frame [] in
      let nil = append-nil (layout h f) in
      ap (λ (l : List ℕ). decode_frames h limits (suc fuel) l offset) regroup
      ∙ decode_frames-ok fuel (layout h f ++ tail) offset f tail next
          (layout-pos f all.0.is_frame tail) (decode_step-layout f tail offset all.0 small')
      ∙ ap (push_front f) (
          decode_frames-layouts fs rest next fuel r all.1 (omega (arith, small', sum))
            (omega (arith, enough', sum, positive, ap length nil))
            (λ fuel' low.
              ap (decode_frames h limits fuel' rest) (omega (arith, sum')) ∙ k fuel' low))

  pub decode_frames-nil : (fuel offset : ℕ) → decode_frames h limits fuel [] offset ≡ some (ok [])
  unfolding decode_frames
  decode_frames-nil fuel offset = refl

  step_err :
      (bad : List ℕ) (offset : ℕ) (e : FrameError)
      → decode_one_with_limits h bad limits ≡ err e
      → decode_step h limits bad offset ≡ err (at_offset offset e)
  unfolding decode_step
  step_err bad offset e r = rw r

  decode_bad :
      (bad : List ℕ) (e : FrameError) (at : ℕ)
      → 0 < length bad
      → decode_one_with_limits h bad limits ≡ err e
      → (fuel : ℕ) → length bad ≤ fuel
      → decode_frames h limits fuel bad (0 + at) ≡ some (err (at_offset at e))
  decode_bad bad e at positive refused zero low = absurd (omega arith)
  decode_bad bad e at positive refused (suc fuel) low =
      ap (decode_frames h limits (suc fuel) bad) (omega arith)
      ∙ decode_frames-err fuel bad at (at_offset at e) positive (step_err bad at e refused)

push_all-ok : (fs : List DeltaFrame) → push_all fs (some (ok [])) ≡ some (ok fs)
push_all-ok [] = refl
push_all-ok (f ∷ fs) = ap (push_front f) (push_all-ok fs)

push_all-err : (fs : List DeltaFrame) (e : FrameError) → push_all fs (some (err e)) ≡ some (err e)
push_all-err [] e = refl
push_all-err (f ∷ fs) e = ap (push_front f) (push_all-err fs e)

-- `decode_all_with_limits` reads back every stream of well-formed frames that fit the limits, in order
-- and whole, where the stream itself is within its limit and below 2^64 bytes.
pub decode_all-layouts :
    (h : Hashes) (limits : FrameLimits) (fs : List DeltaFrame)
    → All (IsStored h limits) fs
    → length (layouts h fs) ≤ limits.max_stream_bytes
    → length (layouts h fs) < u64_mod
    → decode_all_with_limits h (layouts h fs) limits ≡ ok fs
unfolding decode_all_with_limits
decode_all-layouts h limits fs all low small =
    let nil = append-nil (layouts h fs) in
    let size = ap length nil in
    let run : decode_frames h limits (length (layouts h fs)) (layouts h fs) 0 ≡ some (ok fs) =
      ap (λ (l : List ℕ). decode_frames h limits (length (layouts h fs)) l 0) (sym nil)
      ∙ decode_frames-layouts h limits fs [] 0 (length (layouts h fs)) (some (ok [])) all
          (omega (arith, small, size)) (omega (arith, size))
          (λ fuel' _. decode_frames-nil h limits fuel' _)
      ∙ push_all-ok fs in
    rw (enforce_limit_fits "stream bytes" _ _ low, run)

-- Where a stream of well-formed frames that fit the limits is followed by bytes that
-- `decode_one_with_limits` refuses, within the stream limit and below 2^64 bytes, the whole stream is
-- refused with that error, and with the offset at which those bytes start.
pub decode_all-at_offset :
    (h : Hashes) (limits : FrameLimits) (fs : List DeltaFrame) (bad : List ℕ) (e : FrameError)
    → All (IsStored h limits) fs
    → 0 < length bad
    → decode_one_with_limits h bad limits ≡ err e
    → length (layouts h fs ++ bad) ≤ limits.max_stream_bytes
    → length (layouts h fs ++ bad) < u64_mod
    → decode_all_with_limits h (layouts h fs ++ bad) limits
      ≡ err (at_offset (length (layouts h fs)) e)
unfolding decode_all_with_limits
decode_all-at_offset h limits fs bad e all positive refused low small =
    let at = length (layouts h fs) in
    let run =
      decode_frames-layouts h limits fs bad 0 (length (layouts h fs ++ bad))
        (some (err (at_offset at e))) all (omega (arith, small)) (omega arith)
        (decode_bad h limits bad e at positive refused) in
    rw (enforce_limit_fits "stream bytes" _ _ low, run, push_all-err fs (at_offset at e))
