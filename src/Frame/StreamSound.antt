-- ===== src/Frame/StreamSound.antt =====
-- What `decode_all_with_limits` accepts, and that its loop ends.
use quorum_loro_gateway.Prelude.{
  ℕ, zero, suc, ◌≤◌, ◌<◌, ◌≡◌, ◌≢◌, refl, sym, ap, ◌∙◌, Option, some, none, List, [], ◌∷◌, ◌++◌,
  arith, length, length-append, take, drop, take-append-drop, All, All-drop, Result, ok, err, ok_or,
  map_err, >>=-eq-ok, ok_or-eq-ok, ok-injective, Result-cases, inl, inr,
}
use mathlib.Core.Path.{subst}
use quorum_loro_gateway.Bytes.{IsByte, u64_mod, try_from, checked_add, get_range?}
use quorum_loro_gateway.Cursor.{get_range?-Window, Window_back}
use quorum_loro_gateway.Hashes.{Hashes}
use quorum_loro_gateway.Frame.{DeltaFrame, FrameLimits, FrameError, at_offset, enforce_limit}
use quorum_loro_gateway.Frame.Layout.{layout}
use quorum_loro_gateway.Frame.Decode.{
  decode_one_with_limits, decode_step, decode_frames, push_front, finished, decode_all_with_limits,
}
use quorum_loro_gateway.Frame.Pieces.{length-layout}
use quorum_loro_gateway.Frame.Header.{ninety-le-frame_len}
use quorum_loro_gateway.Frame.Canonical.{decode_one-Canonical}
use quorum_loro_gateway.Frame.Stream.{
  layouts, IsStored, decode_frames-ok, decode_frames-err, decode_frames-nil,
}

-- One accepted frame at the front of a stream.
record Step (h : Hashes) (limits : FrameLimits) (input : List ℕ) (r : DeltaFrame × List ℕ × ℕ)
    : Type 0 where
  stored : IsStored h limits r.0
  split : layout h r.0 ++ r.1 ≡ input
  rest_bytes : All IsByte r.1

map_err-eq-ok :
    {E F A : Type 0} (r : Result E A) (f : E → F) {a : A} → map_err r f ≡ ok a → r ≡ ok a
map_err-eq-ok (ok a) f h = cc
map_err-eq-ok (err e) f h = cc

module _ (h : Hashes) (limits : FrameLimits) where
  decode_step-Step :
      (input : List ℕ) (offset : ℕ) {r : DeltaFrame × List ℕ × ℕ}
      → All IsByte input
      → decode_step h limits input offset ≡ ok r
      → Step h limits input r
  unfolding decode_step
  decode_step-Step input offset {r} all e =
      let (t, a₁, e₁) =
        >>=-eq-ok (map_err (decode_one_with_limits h input limits) (at_offset offset)) _ e in
      let (rest, a₂, e₂) = >>=-eq-ok (ok_or (get_range? input t.1 (length input)) _) _ e₁ in
      let (step, _, e₃) = >>=-eq-ok (ok_or (try_from u64_mod t.1) _) _ e₂ in
      let (next, _, e₄) = >>=-eq-ok (ok_or (checked_add offset step) _) _ e₃ in
      let c = decode_one-Canonical h limits input all (map_err-eq-ok _ (at_offset offset) a₁) in
      let w = get_range?-Window input t.1 (length input) (ok_or-eq-ok _ _ a₂) in
      let tail : drop t.1 input ≡ rest = Window_back input t.1 rest (length input) refl w in
      subst (Step h limits input) (ok-injective {E = FrameError} (t.0, rest, next) r e₄) (record {
        stored = record { is_frame = c.is_frame; fits = c.fits };
        split =
            ap (λ (l : List ℕ). l ++ rest) (sym c.bytes_eq)
            ∙ ap (λ (l : List ℕ). take t.1 input ++ l) (sym tail)
            ∙ take-append-drop t.1 input;
        rest_bytes = subst (All IsByte) tail (All-drop IsByte t.1 input all);
      })

  shorter :
      (input : List ℕ) (r : DeltaFrame × List ℕ × ℕ)
      → Step h limits input r
      → length r.1 < length input
  shorter input r s = omega (
    arith,
    ap length s.split,
    length-append (layout h r.0) r.1,
    length-layout h r.0 s.stored.is_frame,
    ninety-le-frame_len r.0,
  )

  -- The loop ends before its fuel does.
  decode_frames-ne-none :
      (fuel : ℕ) (input : List ℕ) (offset : ℕ)
      → All IsByte input
      → length input ≤ fuel
      → decode_frames h limits fuel input offset ≢ none
  decode_frames-ne-none fuel [] offset all low e = cc (decode_frames-nil h limits fuel offset)
  decode_frames-ne-none zero (b ∷ bs) offset all low e = absurd (omega arith)
  decode_frames-ne-none (suc fuel) (b ∷ bs) offset all low e =
      elim (Result-cases (decode_step h limits (b ∷ bs) offset)) [
        | inl ((f, rest, next), p) ↦
            let s = decode_step-Step (b ∷ bs) offset all p in
            push_front-none f (decode_frames h limits fuel rest next)
              (sym (decode_frames-ok h limits fuel (b ∷ bs) offset f rest next (omega arith) p) ∙ e)
              (decode_frames-ne-none fuel rest next s.rest_bytes
                (omega (arith, shorter (b ∷ bs) (f, rest, next) s)))
        | inr (x, p) ↦ cc (decode_frames-err h limits fuel (b ∷ bs) offset x (omega arith) p)
      ]
    where
      push_front-none :
          (f : DeltaFrame) (r : Option (Result FrameError (List DeltaFrame)))
          → push_front f r ≡ none
          → r ≢ none
          → ⊥
      push_front-none f none p q = q refl
      push_front-none f (some (ok fs)) p q = cc
      push_front-none f (some (err x)) p q = cc

  push_front-ok :
      (f : DeltaFrame) (r : Option (Result FrameError (List DeltaFrame))) {fs : List DeltaFrame}
      → push_front f r ≡ some (ok fs)
      → (gs : List DeltaFrame) × (r ≡ some (ok gs)) × (f ∷ gs ≡ fs)
  push_front-ok f none p = cc
  push_front-ok f (some (ok gs)) p = (gs, refl, cc)
  push_front-ok f (some (err x)) p = cc

  abbrev Stored : List ℕ → List DeltaFrame → Type 0
  Stored input fs = (layouts h fs ≡ input) × All (IsStored h limits) fs

  decode_frames-Stored :
      (fuel : ℕ) (input : List ℕ) (offset : ℕ) {fs : List DeltaFrame}
      → All IsByte input
      → decode_frames h limits fuel input offset ≡ some (ok fs)
      → Stored input fs
  decode_frames-Stored fuel [] offset {fs} all e =
      subst (Stored []) (some_ok [] fs (sym (decode_frames-nil h limits fuel offset) ∙ e))
        (refl, tt)
    where
      some_ok :
          (a b : List DeltaFrame)
          → ◌≡◌ {A = Option (Result FrameError (List DeltaFrame))} (some (ok a)) (some (ok b))
          → a ≡ b
      some_ok a b p = cc
  decode_frames-Stored zero (b ∷ bs) offset all e = unfold decode_frames in cc
  decode_frames-Stored (suc fuel) (b ∷ bs) offset {fs} all e =
      elim (Result-cases (decode_step h limits (b ∷ bs) offset)) [
        | inl ((f, rest, next), p) ↦
            let s = decode_step-Step (b ∷ bs) offset all p in
            let (gs, q, r) = push_front-ok f (decode_frames h limits fuel rest next) (
              sym (decode_frames-ok h limits fuel (b ∷ bs) offset f rest next (omega arith) p)
              ∙ e) in
            let ih = decode_frames-Stored fuel rest next s.rest_bytes q in
            subst (Stored (b ∷ bs)) r
              (ap (λ (l : List ℕ). layout h f ++ l) ih.0 ∙ s.split, (s.stored, ih.1))
        | inr (x, p) ↦ cc (decode_frames-err h limits fuel (b ∷ bs) offset x (omega arith) p)
      ]

  -- On every byte array the loop of `decode_all_with_limits` ends within as many rounds as the array
  -- has bytes.
  pub decode_all_terminates :
      (input : List ℕ)
      → All IsByte input
      → (r : Result FrameError (List DeltaFrame)) × (decode_frames h limits (length input) input 0
          ≡ some r)
  decode_all_terminates input all =
      take_some (decode_frames h limits (length input) input 0)
        (decode_frames-ne-none (length input) input 0 all (omega arith))
    where
      take_some :
          (o : Option (Result FrameError (List DeltaFrame)))
          → o ≢ none
          → (r : Result FrameError (List DeltaFrame)) × (o ≡ some r)
      take_some none p = absurd (p refl)
      take_some (some r) p = (r, refl)

-- A byte array that `decode_all_with_limits` accepts is exactly the layouts of the frames that it
-- returns, one after the other, and each of those frames is well formed and fits the limits.
pub decode_all-eq-ok :
    (h : Hashes) (limits : FrameLimits) (input : List ℕ) (fs : List DeltaFrame)
    → All IsByte input
    → decode_all_with_limits h input limits ≡ ok fs
    → (layouts h fs ≡ input) × All (IsStored h limits) fs
unfolding decode_all_with_limits
decode_all-eq-ok h limits input fs all e =
    let (_, _, e₁) = >>=-eq-ok (enforce_limit _ (length input) limits.max_stream_bytes) _ e in
    let (r, p) = decode_all_terminates h limits input all in
    decode_frames-Stored h limits (length input) input 0 all
      (p ∙ ap some (sym (ap finished p) ∙ e₁))
