-- ===== src/Manifest/Pieces.antt =====
-- The bytes of a manifest record, and exactly which records `encode_with_limits` accepts.
use quorum_loro_gateway.Prelude.{
  ℕ, ◌≤◌, ◌<◌, ◌≡◌, refl, sym, ap, ◌∙◌, String, List, ◌++◌, arith, length, length-append, bytes_eq,
  bytes_eq_refl, bytes_eq→eq, ok, ok_or, >>=-eq-ok, >>-eq-ok, ok-injective,
}
use quorum_loro_gateway.Bytes.{u64_mod, to_be, length-to_be, try_from}
use quorum_loro_gateway.Cursor.{Window, Window-split, Window_front}
use quorum_loro_gateway.Hashes.{Hashes}
use quorum_loro_gateway.Manifest.{
  fixed_record_bytes, ManifestLimits, ManifestRecord, ManifestError, enforce_limit,
  validate_record_fields, manifest_digest, record_fields, record_header, seal, encode_with_limits,
}

-- What the Rust types say of the fields.
pub record IsRecord (r : ManifestRecord) : Type 0 where
  pub room_len : length r.room_hash ≡ 32
  pub revision_u64 : r.revision < u64_mod
  pub previous_len : length r.previous_record_digest ≡ 32
  pub checkpoint_u64 : r.checkpoint_generation < u64_mod
  pub end_u64 : r.checkpoint_stream_end_offset < u64_mod
  pub checkpoint_len : length r.checkpoint_record_digest ≡ 32
  pub active_u64 : r.active_delta_generation < u64_mod
  pub digest_len : length r.digest ≡ 32

unfoldable pub body : ManifestRecord → List ℕ
body r = record_header fixed_record_bytes ++ record_fields r

unfoldable pub layout : Hashes → ManifestRecord → List ℕ
unfolding seal body
layout h r = seal h (body r) fixed_record_bytes

pub enforce_limit_fits :
    (resource : String) (actual limit : ℕ)
    → actual ≤ limit
    → enforce_limit resource actual limit ≡ ok tt
unfolding enforce_limit
enforce_limit_fits resource actual limit h = ground arith

pub enforce_limit-eq-ok :
    (resource : String) (actual limit : ℕ) {u : Unit}
    → enforce_limit resource actual limit ≡ ok u
    → actual ≤ limit
unfolding enforce_limit
enforce_limit-eq-ok resource actual limit h = ground arith

-- What `encode_with_limits` asks of a record.
pub record Encodable (h : Hashes) (limits : ManifestLimits) (r : ManifestRecord) : Type 0 where
  pub limit : fixed_record_bytes ≤ limits.max_record_bytes
  pub fields : validate_record_fields r ≡ ok tt
  pub digest_eq : r.digest ≡ manifest_digest h r

pub encode-Encodable :
    (h : Hashes) (limits : ManifestLimits) (r : ManifestRecord) {bytes : List ℕ}
    → encode_with_limits h r limits ≡ ok bytes
    → Encodable h limits r
unfolding encode_with_limits
encode-Encodable h limits r e =
    let (_, a₁, e₁) = >>=-eq-ok (enforce_limit _ fixed_record_bytes limits.max_record_bytes) _ e in
    let (_, a₂, e₂) = >>=-eq-ok (validate_record_fields r) _ e₁ in
    let (_, _, e₃) = >>=-eq-ok (ok_or (try_from u64_mod fixed_record_bytes) _) _ e₂ in
    let (a₄, _) = >>-eq-ok (bytes_eq r.digest (manifest_digest h r)) _ _ e₃ in
    record {
      limit = enforce_limit-eq-ok _ fixed_record_bytes limits.max_record_bytes a₁;
      fields = a₂;
      digest_eq = bytes_eq→eq _ _ a₄;
    }

pub Encodable-encode :
    (h : Hashes) (limits : ManifestLimits) (r : ManifestRecord)
    → Encodable h limits r
    → encode_with_limits h r limits ≡ ok (layout h r)
unfolding encode_with_limits layout try_from
Encodable-encode h limits r w = rw (
  enforce_limit_fits "manifest record bytes" fixed_record_bytes limits.max_record_bytes w.limit,
  w.fields,
  ap (λ (d : List ℕ). bytes_eq d (manifest_digest h r)) w.digest_eq
      ∙ bytes_eq_refl (manifest_digest h r),
)

pub encode-layout :
    (h : Hashes) (limits : ManifestLimits) (r : ManifestRecord) {bytes : List ℕ}
    → encode_with_limits h r limits ≡ ok bytes
    → bytes ≡ layout h r
encode-layout h limits r {bytes} e =
    ok-injective {E = ManifestError} bytes (layout h r)
      (sym e ∙ Encodable-encode h limits r (encode-Encodable h limits r e))

length-record_header : length (record_header fixed_record_bytes) ≡ 16
unfolding to_be
length-record_header = refl

module _ (r : ManifestRecord) (is : IsRecord r) where
  pub length-record_fields : length (record_fields r) ≡ 160
  unfolding record_fields
  length-record_fields =
      simp (length-append, length-to_be)
        (omega (arith, is.room_len, is.previous_len, is.checkpoint_len, is.digest_len))

  length-body : length (body r) ≡ 176
  unfolding body
  length-body = omega (
    arith,
    length-append (record_header fixed_record_bytes) (record_fields r),
    length-record_header,
    length-record_fields,
  )

  pub length-layout : (h : Hashes) → length (layout h r) ≡ fixed_record_bytes
  unfolding layout
  length-layout h =
      let crc = to_be 4 (h.crc32 (body r)) in
      omega (
        arith,
        length-append (body r) (crc ++ to_be 8 fixed_record_bytes),
        length-append crc (to_be 8 fixed_record_bytes),
        length-to_be 4 (h.crc32 (body r)),
        length-to_be 8 fixed_record_bytes,
        length-body,
      )

  -- The pieces of the layout, wherever it stands at the front.
  module _ (h : Hashes) (rest : List ℕ) where
    pub body_Window :
        Window (layout h r ++ rest) 0 (body r) 176
        × Window
            (layout h r ++ rest)
            176
            (to_be 4 (h.crc32 (body r)) ++ to_be 8 fixed_record_bytes)
            188
    unfolding layout
    body_Window =
        Window-split (layout h r ++ rest) 0 (body r)
          (to_be 4 (h.crc32 (body r)) ++ to_be 8 fixed_record_bytes) 176 188
          (omega (arith, length-body)) (Window_front (layout h r) rest 188 (length-layout h))

    pub header_Window :
        Window (layout h r ++ rest) 0 (record_header fixed_record_bytes) 16
        × Window (layout h r ++ rest) 16 (record_fields r) 176
    unfolding body
    header_Window =
        Window-split (layout h r ++ rest) 0 (record_header fixed_record_bytes) (record_fields r) 16
          176 (omega (arith, length-record_header)) body_Window.0
