-- ===== src/Frame/Canonical.antt =====
-- Every accepted frame is canonical: its bytes are the ones that the encoder writes for it.
use quorum_loro_gateway.Prelude.{
  ℕ, ◌+◌, ◌≤◌, ◌<◌, ◌≡◌, refl, sym, ap, ◌∙◌, List, [], ◌∷◌, ◌++◌, arith, length, take, All,
  All-append_left, All-append_right, append_assoc, bytes_eq, bytes_eq→eq, ok, >>=-eq-ok, >>-eq-ok,
  ok-injective,
}
use mathlib.Core.Path.{subst}
use quorum_loro_gateway.Bytes.{IsByte, u64_mod, to_be}
use quorum_loro_gateway.Cursor.{
  Window, Window-append, Window_cast, Window_restrict, Window_back, Window-All, take-Window,
}
use quorum_loro_gateway.Hashes.{Hashes}
use quorum_loro_gateway.Frame.{
  DeltaFrame, FrameLimits, FrameError, frame_header, encode_with_limits, update_digest,
  length_table, concat, frame_fields,
}
use quorum_loro_gateway.Frame.Layout.{
  IsFrame, Fits, layout, layout_fields, lengths_of, frame_len, Fits-encode_with_limits,
}
use quorum_loro_gateway.Frame.Decode.{
  decode_header, verify_trailer, decode_producer, decode_updates, decode_fields,
  decode_one_with_limits, take as take_frame,
}
use quorum_loro_gateway.Frame.Read.{take-eq-ok}
use quorum_loro_gateway.Frame.Pieces.{length-layout_fields}
use quorum_loro_gateway.Frame.Accepted.{Header, decode_header-eq-ok, Trailer, verify_trailer-eq-ok}
use quorum_loro_gateway.Frame.AcceptedBody.{
  Producer, Payload, decode_producer-eq-ok, decode_updates-eq-ok,
}

All-concat : (us : List (List ℕ)) → All IsByte (concat us) → All (All IsByte) us
All-concat [] h = tt
All-concat (u ∷ us) h = (
  All-append_left IsByte u (concat us) h,
  All-concat us (All-append_right IsByte u (concat us) h),
)

-- The fields of a frame that were read between the header and the checksum.
record Fields (h : Hashes) (limits : FrameLimits) (frame : List ℕ) (crc_start cursor : ℕ)
    (f : DeltaFrame) : Type 0 where
  c₁ : ℕ
  c₂ : ℕ
  producer : Producer limits frame cursor (f.producer, f.batch_id, c₁)
  payload : Payload limits frame crc_start c₁ (f.updates, c₂)
  digest : Window frame c₂ f.digest (c₂ + 32)
  digest_eq : f.digest ≡ update_digest h f.updates

decode_fields-eq-ok :
    (h : Hashes) (limits : FrameLimits) (frame : List ℕ) (crc_start cursor : ℕ) {f : DeltaFrame}
    → All IsByte frame
    → decode_fields h limits frame crc_start cursor ≡ ok f
    → Fields h limits frame crc_start cursor f
unfolding decode_fields
decode_fields-eq-ok h limits frame crc_start cursor {f} all e =
    let ((p, batch, c₁), a₁, e₁) = >>=-eq-ok (decode_producer limits frame cursor) _ e in
    let ((us, c₂), a₂, e₂) = >>=-eq-ok (decode_updates limits frame crc_start c₁) _ e₁ in
    let ((digest, c₃), a₃, e₃) = >>=-eq-ok (take_frame frame c₂ 32) _ e₂ in
    let (a₄, e₄) = >>-eq-ok (bytes_eq digest (update_digest h us)) _ _ e₃ in
    let w = take-eq-ok frame c₂ 32 a₃ in
    subst (Fields h limits frame crc_start cursor)
      (ok-injective {E = FrameError}
        (record { producer = p; batch_id = batch; updates = us; digest = digest }) f e₄)
      (record {
        c₁ = c₁;
        c₂ = c₂;
        producer = decode_producer-eq-ok limits frame all cursor a₁;
        payload = decode_updates-eq-ok limits frame all crc_start c₁ a₂;
        digest = Window_cast frame refl refl (sym w.1) w.0;
        digest_eq = bytes_eq→eq digest (update_digest h us) a₄;
      })

module _ (h : Hashes) (limits : FrameLimits) (frame : List ℕ) (crc_start cursor : ℕ)
    (f : DeltaFrame) (all : All IsByte frame) (r : Fields h limits frame crc_start cursor f) where
  Fields-window : Window frame cursor (layout_fields f) crc_start
  unfolding layout_fields frame_fields
  Fields-window = Window_cast frame refl regroup end (
      Window-append frame cursor _ r.c₁ _ (r.c₂ + 32) r.producer.window
        (Window-append frame r.c₁ _ r.c₂ f.digest (r.c₂ + 32) r.payload.window r.digest))
    where
      end : r.c₂ + 32 ≡ crc_start
      end = omega (arith, r.payload.end_eq, r.payload.low)

      regroup :
          (to_be 2 (length f.producer.id)
              ++ (f.producer.id
                  ++ (to_be 8 f.producer.epoch ++ (to_be 8 f.producer.sequence ++ f.batch_id))))
            ++ ((to_be 4 (length f.updates)
                  ++ (length_table (lengths_of f.updates) ++ concat f.updates))
                ++ f.digest)
          ≡ frame_fields f (length f.producer.id) (length f.updates) (lengths_of f.updates)
      regroup = simp append_assoc

  Fields-IsFrame : IsFrame h f
  Fields-IsFrame =
      let p = Window-All frame cursor _ r.c₁ all r.producer.window in
      let q = Window-All frame r.c₁ _ r.c₂ all r.payload.window in
      let p₁ = All-append_right IsByte (to_be 2 (length f.producer.id)) _ p in
      let p₂ = All-append_right IsByte f.producer.id _ p₁ in
      let p₃ = All-append_right IsByte (to_be 8 f.producer.epoch) _ p₂ in
      let q₁ = All-append_right IsByte (to_be 4 (length f.updates)) _ q in
      record {
        id_utf8 = r.producer.id_utf8;
        id_bytes = All-append_left IsByte f.producer.id _ p₁;
        epoch_u64 = r.producer.epoch_u64;
        sequence_u64 = r.producer.sequence_u64;
        batch_id_len = r.producer.batch_len;
        batch_id_bytes = All-append_right IsByte (to_be 8 f.producer.sequence) _ p₃;
        updates_bytes =
            All-concat f.updates
              (All-append_right IsByte (length_table (lengths_of f.updates)) _ q₁);
        digest_eq = r.digest_eq;
      }

-- An accepted front of an array: the frame, and the bytes that it was read from.
pub record Canonical (h : Hashes) (limits : FrameLimits) (input : List ℕ) (r : DeltaFrame × ℕ)
    : Type 0 where
  pub is_frame : IsFrame h r.0
  pub fits : Fits limits r.0
  pub len_eq : frame_len r.0 ≡ r.1
  pub bytes_eq : take r.1 input ≡ layout h r.0
  pub within : r.1 ≤ length input

module _ (h : Hashes) (limits : FrameLimits) (input : List ℕ) (r : List ℕ × ℕ × ℕ) (crc_start : ℕ)
    (f : DeltaFrame) (all : All IsByte input) (head : Header input limits r)
    (trail : Trailer h r.0 r.1 crc_start) (fields : Fields h limits r.0 crc_start 16 f) where
  frame_bytes : All IsByte r.0
  frame_bytes = Window-All input 0 r.0 r.1 all head.frame

  is_frame : IsFrame h f
  is_frame = Fields-IsFrame h limits r.0 crc_start 16 f frame_bytes fields

  fields_window : Window r.0 16 (layout_fields f) crc_start
  fields_window = Fields-window h limits r.0 crc_start 16 f frame_bytes fields

  total_eq : frame_len f ≡ r.1
  total_eq = omega (
    arith,
    length-layout_fields h f is_frame,
    fields_window.next_eq,
    trail.crc_start_eq,
    head.total_big,
  )

  covered_eq : trail.covered ≡ frame_header r.1 ++ layout_fields f
  covered_eq =
      sym (take-Window r.0 trail.covered crc_start trail.front)
      ∙ take-Window r.0 (frame_header r.1 ++ layout_fields f) crc_start (
          Window-append r.0 0 (frame_header r.1) 16 (layout_fields f) crc_start
            (Window_restrict input r.0 (frame_header r.1) 16 r.1 head.frame head.header
              (omega (arith, head.total_big)))
            fields_window)

  frame_layout : r.0 ≡ layout h f
  unfolding layout
  frame_layout =
      let whole : r.0 ≡ trail.covered ++ (to_be 4 (h.crc32 trail.covered) ++ to_be 8 r.1) =
        Window_back r.0 0 _ r.1 (omega (arith, head.frame.next_eq))
          (Window-append r.0 0 trail.covered crc_start _ r.1 trail.front trail.back) in
      whole
      ∙ ap (λ (l : List ℕ). l ++ (to_be 4 (h.crc32 l) ++ to_be 8 r.1)) covered_eq
      ∙ ap
          (λ (n : ℕ).
            (frame_header n ++ layout_fields f)
            ++ (to_be 4 (h.crc32 (frame_header n ++ layout_fields f)) ++ to_be 8 n))
          (sym total_eq)

  at_total : (P : ℕ → Type 0) → P r.1 → P (frame_len f)
  at_total P p = subst P (sym total_eq) p

  accepted-Fits : Fits limits f
  accepted-Fits =
      let p = fields.producer in
      let q = fields.payload in
      record {
        id_nonempty = p.id_nonempty;
        id_limit = p.id_limit;
        id_u16 = p.id_u16;
        some_updates = q.some_updates;
        count_limit = q.count_limit;
        count_u32 = q.count_u32;
        each_u32 = q.each_u32;
        each_limit = q.each_limit;
        total_limit = q.total_limit;
        frame_limit = at_total (λ k. k ≤ limits.max_frame_bytes) head.total_limit;
        frame_u64 = at_total (λ k. k < u64_mod) head.total_u64;
      }

  accepted : Canonical h limits input (f, r.1)
  accepted = record {
    is_frame = is_frame;
    fits = accepted-Fits;
    len_eq = total_eq;
    bytes_eq = take-Window input r.0 r.1 head.frame ∙ frame_layout;
    within = head.frame.within;
  }

-- What `decode_one_with_limits` accepts from the front of a byte array is a frame whose fields lie in
-- the ranges of their types, whose digest is that of its updates and which fits the limits, and the
-- consumed bytes are exactly its layout.
pub decode_one-Canonical :
    (h : Hashes) (limits : FrameLimits) (input : List ℕ) {r : DeltaFrame × ℕ}
    → All IsByte input
    → decode_one_with_limits h input limits ≡ ok r
    → Canonical h limits input r
unfolding decode_one_with_limits
decode_one-Canonical h limits input {r} all e =
    let (t, a₁, e₁) = >>=-eq-ok (decode_header input limits) _ e in
    let (crc_start, a₂, e₂) = >>=-eq-ok (verify_trailer h t.0 t.1) _ e₁ in
    let (f, a₃, e₃) = >>=-eq-ok (decode_fields h limits t.0 crc_start t.2) _ e₂ in
    let head = decode_header-eq-ok input limits all a₁ in
    let bytes = Window-All input 0 t.0 t.1 all head.frame in
    let trail = verify_trailer-eq-ok h t.0 t.1 bytes a₂ in
    let fields =
      decode_fields-eq-ok h limits t.0 crc_start 16 bytes
        (subst (λ (c : ℕ). decode_fields h limits t.0 crc_start c ≡ ok f) head.cursor_eq a₃) in
    subst (Canonical h limits input) (ok-injective {E = FrameError} (f, t.1) r e₃)
      (accepted h limits input t crc_start f all head trail fields)

-- Whatever `decode_one_with_limits` accepts, `encode_with_limits` under the same limits writes back,
-- byte for byte: no two byte strings are accepted as one frame.
pub encode-decode_one :
    (h : Hashes) (limits : FrameLimits) (input : List ℕ) (f : DeltaFrame) (n : ℕ)
    → All IsByte input
    → decode_one_with_limits h input limits ≡ ok (f, n)
    → encode_with_limits h f limits ≡ ok (take n input)
encode-decode_one h limits input f n all e =
    let c = decode_one-Canonical h limits input all e in
    Fits-encode_with_limits h limits f c.fits ∙ ap ok (sym c.bytes_eq)
