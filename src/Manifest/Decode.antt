-- ===== src/Manifest/Decode.antt =====
-- src/manifest.rs: `decode_one`, cut into its two halves, `decode_exact` and
-- `decode_manifest_stream`.
use quorum_loro_gateway.Prelude.{
  ℕ, zero, suc, ◌+◌, Option, none, some, List, [], ◌∷◌, leb, ◌==◌, bytes_eq, length, Result, ok,
  err, ◌>>=◌, ◌>>◌, guard, ok_or,
}
use quorum_loro_gateway.Bytes.{u64_mod, checked_sub, try_from, get_range?}
use quorum_loro_gateway.Cursor.{take_bytes, read_be}
use quorum_loro_gateway.Hashes.{Hashes}
use quorum_loro_gateway.Manifest.{
  magic, version, fixed_record_bytes, ManifestLimits, ManifestRecord, ManifestError, truncated,
  checksum_mismatch, digest_mismatch, length_overflow, unsupported_version, invalid, enforce_limit,
  validate_record_fields, manifest_digest,
}

unfoldable pub take : List ℕ → ℕ → ℕ → Result ManifestError (List ℕ × ℕ)
take = take_bytes length_overflow truncated

unfoldable pub read_u16 : List ℕ → ℕ → Result ManifestError (ℕ × ℕ)
read_u16 = read_be length_overflow truncated 2

unfoldable pub read_u32 : List ℕ → ℕ → Result ManifestError (ℕ × ℕ)
read_u32 = read_be length_overflow truncated 4

unfoldable pub read_u64 : List ℕ → ℕ → Result ManifestError (ℕ × ℕ)
read_u64 = read_be length_overflow truncated 8

-- The fixed prefix: the record's bytes, their number, and the cursor behind the prefix.
unfoldable pub decode_header : List ℕ → ManifestLimits → Result ManifestError (List ℕ × ℕ × ℕ)
decode_header input limits = do
  enforce_limit "manifest record bytes" fixed_record_bytes limits.max_record_bytes
  guard (leb fixed_record_bytes (length input)) truncated
  start ← ok_or (get_range? input 0 4) (invalid "bad manifest magic")
  guard (bytes_eq start magic) (invalid "bad manifest magic")
  (found, c₁) ← read_u16 input 4
  guard (found == version) (unsupported_version found)
  (flags, c₂) ← read_u16 input c₁
  guard (flags == 0) (invalid "unsupported manifest flags")
  (declared, c₃) ← read_u64 input c₂
  total_len ← ok_or (try_from u64_mod declared) length_overflow
  guard (total_len == fixed_record_bytes) (invalid "manifest record length mismatch")
  enforce_limit "manifest record bytes" total_len limits.max_record_bytes
  guard (leb total_len (length input)) truncated
  frame ← ok_or (get_range? input 0 total_len) truncated
  ok (frame, total_len, c₃)

-- The fields from the cursor on, and where they end.
unfoldable pub read_fields : List ℕ → ℕ → Result ManifestError (ManifestRecord × ℕ)
read_fields frame cursor = do
  (room_hash, c₁) ← take frame cursor 32
  (revision, c₂) ← read_u64 frame c₁
  (previous, c₃) ← take frame c₂ 32
  (checkpoint_generation, c₄) ← read_u64 frame c₃
  (end_offset, c₅) ← read_u64 frame c₄
  (checkpoint_digest, c₆) ← take frame c₅ 32
  (active, c₇) ← read_u64 frame c₆
  (digest, c₈) ← take frame c₇ 32
  ok (
    record {
      room_hash = room_hash;
      revision = revision;
      previous_record_digest = previous;
      checkpoint_generation = checkpoint_generation;
      checkpoint_stream_end_offset = end_offset;
      checkpoint_record_digest = checkpoint_digest;
      active_delta_generation = active;
      digest = digest;
    },
    c₈,
  )

module _ (h : Hashes) where
  -- The length at the end and the checksum: where the checksum starts.
  unfoldable pub verify_trailer : List ℕ → ℕ → Result ManifestError ℕ
  verify_trailer frame total_len = do
    trailer_start ← ok_or (checked_sub total_len 8) length_overflow
    (trailer, _) ← read_u64 frame trailer_start
    total_len_u64 ← ok_or (try_from u64_mod total_len) length_overflow
    guard (trailer == total_len_u64) (invalid "manifest length trailer mismatch")
    crc_start ← ok_or (checked_sub total_len 12) length_overflow
    (expected_crc, _) ← read_u32 frame crc_start
    covered ← ok_or (get_range? frame 0 crc_start) truncated
    guard (h.crc32 covered == expected_crc) checksum_mismatch
    ok crc_start

  unfoldable pub decode_one : List ℕ → ManifestLimits → Result ManifestError (ManifestRecord × ℕ)
  decode_one input limits = do
    (frame, total_len, c₁) ← decode_header input limits
    crc_start ← verify_trailer frame total_len
    (r, c₂) ← read_fields frame c₁
    guard (c₂ == crc_start) (invalid "manifest fields are misplaced")
    validate_record_fields r
    guard (bytes_eq r.digest (manifest_digest h r)) digest_mismatch
    ok (r, total_len)

  unfoldable pub decode_exact : List ℕ → ManifestLimits → Result ManifestError ManifestRecord
  decode_exact input limits = do
    (r, consumed) ← decode_one input limits
    guard (consumed == length input) (invalid "trailing bytes after manifest record")
    ok r

  -- One round of the loop, with the number of records before it.
  unfoldable pub decode_step :
      ManifestLimits → ℕ → List ℕ → Result ManifestError (ManifestRecord × List ℕ)
  decode_step limits count input = do
    enforce_limit "manifest record count" (count + 1) limits.max_records
    (r, consumed) ← decode_one input limits
    rest ← ok_or (get_range? input consumed (length input)) truncated
    ok (r, rest)

  -- `while !input.is_empty()`, with fuel and the records so far; `none` means that the fuel ran out.
  unfoldable pub decode_records :
      ManifestLimits → ℕ → ℕ → List ℕ → Option (Result ManifestError (List ManifestRecord))
  decode_records limits fuel count [] = some (ok [])
  decode_records limits zero count (b ∷ bs) = none
  decode_records limits (suc fuel) count (b ∷ bs) = elim (decode_step limits count (b ∷ bs)) [
    | err e ↦ some (err e)
    | ok (r, rest) ↦ elim (decode_records limits fuel (count + 1) rest) [
      | none ↦ none
      | some (err e) ↦ some (err e)
      | some (ok rs) ↦ some (ok (r ∷ rs))
    ]
  ]

  -- A round takes at least one byte, so as many rounds as there are bytes are enough.
  unfoldable pub decode_manifest_stream :
      List ℕ → ManifestLimits → Result ManifestError (List ManifestRecord)
  decode_manifest_stream input limits = do
    enforce_limit "manifest stream bytes" (length input) limits.max_stream_bytes
    elim (decode_records limits (length input) 0 input) [ none ↦ err truncated | some r ↦ r ]
