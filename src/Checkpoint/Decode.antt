-- ===== src/Checkpoint/Decode.antt =====
-- src/checkpoint.rs: `decode_exact`, cut into the steps that it makes in order. A step that moves
-- the cursor returns the new one.
use quorum_loro_gateway.Prelude.{
  ℕ, zero, suc, ◌+◌, not, List, [], ◌∷◌, leb, ◌==◌, bytes_eq, length, Result, ok, ◌>>=◌, ◌>>◌,
  guard, ok_or,
}
use quorum_loro_gateway.Bytes.{u64_mod, checked_add, checked_sub, try_from, get_range?}
use quorum_loro_gateway.Cursor.{take_bytes, read_be}
use quorum_loro_gateway.Hashes.{Hashes}
use quorum_loro_gateway.Checkpoint.{
  magic, version, fixed_header, fixed_suffix, CheckpointLimits, CheckpointRecord, CheckpointError,
  truncated, length_overflow, checksum_mismatch, digest_mismatch, unsupported_version, invalid,
  enforce_limit, checkpoint_digest,
}

unfoldable pub take : List ℕ → ℕ → ℕ → Result CheckpointError (List ℕ × ℕ)
take = take_bytes length_overflow truncated

unfoldable pub take_until : List ℕ → ℕ → ℕ → ℕ → Result CheckpointError (List ℕ × ℕ)
take_until input cursor n end_limit = do
  end ← ok_or (checked_add cursor n) length_overflow
  guard (leb end end_limit) truncated
  take input cursor n

unfoldable pub read_u16 : List ℕ → ℕ → Result CheckpointError (ℕ × ℕ)
read_u16 = read_be length_overflow truncated 2

unfoldable pub read_u32 : List ℕ → ℕ → Result CheckpointError (ℕ × ℕ)
read_u32 = read_be length_overflow truncated 4

unfoldable pub read_u64 : List ℕ → ℕ → Result CheckpointError (ℕ × ℕ)
read_u64 = read_be length_overflow truncated 8

-- `usize::try_from(..)` of what was read
abbrev pub usize_from : ℕ → Result CheckpointError ℕ
usize_from v = ok_or (try_from u64_mod v) length_overflow

-- The fixed prefix: the number of bytes and the cursor behind the prefix.
unfoldable pub decode_header : List ℕ → CheckpointLimits → Result CheckpointError (ℕ × ℕ)
decode_header input limits = do
  guard (leb (fixed_header + fixed_suffix) (length input)) truncated
  start ← ok_or (get_range? input 0 4) (invalid "bad checkpoint magic")
  guard (bytes_eq start magic) (invalid "bad checkpoint magic")
  (found, c₁) ← read_u16 input 4
  guard (found == version) (unsupported_version found)
  (flags, c₂) ← read_u16 input c₁
  guard (flags == 0) (invalid "unsupported checkpoint flags")
  (declared, c₃) ← read_u64 input c₂
  total_len ← usize_from declared
  guard (leb (fixed_header + fixed_suffix) total_len) truncated
  enforce_limit "checkpoint record bytes" total_len limits.max_record_bytes
  guard (leb total_len (length input)) truncated
  guard (length input == total_len) (invalid "trailing bytes after checkpoint record")
  ok (total_len, c₃)

-- The fields of fixed width.
pub record FixedFields : Type 0 where
  pub room_hash : List ℕ
  pub checkpoint_generation : ℕ
  pub source_delta_generation : ℕ
  pub source_delta_end_offset : ℕ
  pub snapshot_len : ℕ
  pub pending_count : ℕ

unfoldable pub read_fixed : CheckpointLimits → List ℕ → ℕ → Result CheckpointError (FixedFields × ℕ)
read_fixed limits input cursor = do
  (room_hash, c₁) ← take input cursor 32
  (checkpoint_generation, c₂) ← read_u64 input c₁
  (source_generation, c₃) ← read_u64 input c₂
  (source_end, c₄) ← read_u64 input c₃
  (snapshot_value, c₅) ← read_u64 input c₄
  snapshot_len ← usize_from snapshot_value
  enforce_limit "checkpoint snapshot bytes" snapshot_len limits.max_snapshot_bytes
  guard (not (snapshot_len == 0)) (invalid "checkpoint snapshot is empty")
  (count_value, c₆) ← read_u32 input c₅
  pending_count ← usize_from count_value
  enforce_limit "pending update count" pending_count limits.max_pending_updates
  ok (
    record {
      room_hash = room_hash;
      checkpoint_generation = checkpoint_generation;
      source_delta_generation = source_generation;
      source_delta_end_offset = source_end;
      snapshot_len = snapshot_len;
      pending_count = pending_count;
    },
    c₆,
  )

-- `for _ in 0..pending_count`: the lengths, their sum from `sum` on, and the cursor.
unfoldable pub read_lengths :
    CheckpointLimits → List ℕ → ℕ → ℕ → ℕ → Result CheckpointError (List ℕ × ℕ × ℕ)
read_lengths limits input zero cursor sum = ok ([], sum, cursor)
read_lengths limits input (suc n) cursor sum = do
  (value, c₁) ← read_u32 input cursor
  len ← usize_from value
  guard (not (len == 0)) (invalid "pending update is empty")
  enforce_limit "individual pending update bytes" len limits.max_pending_update_bytes
  sum' ← ok_or (checked_add sum len) length_overflow
  enforce_limit "aggregate pending update bytes" sum' limits.max_pending_updates_bytes
  (lengths, total, c₂) ← read_lengths limits input n c₁ sum'
  ok (len ∷ lengths, total, c₂)

-- `for length in lengths`: one slice for each length.
unfoldable pub take_updates : List ℕ → ℕ → List ℕ → ℕ → Result CheckpointError (List (List ℕ) × ℕ)
take_updates input digest_start [] cursor = ok ([], cursor)
take_updates input digest_start (len ∷ lengths) cursor = do
  (update, c₁) ← take_until input cursor len digest_start
  (updates, c₂) ← take_updates input digest_start lengths c₁
  ok (update ∷ updates, c₂)

-- The table of lengths, the snapshot and the pending updates, which end where the digest starts.
unfoldable pub read_payload :
    CheckpointLimits
    → List ℕ
    → ℕ
    → FixedFields
    → ℕ
    → Result CheckpointError (List ℕ × List (List ℕ) × ℕ)
read_payload limits input digest_start fields cursor = do
  (lengths, pending_len, c₁) ← read_lengths limits input fields.pending_count cursor 0
  expected ← ok_or (checked_add fields.snapshot_len pending_len) length_overflow
  declared ← ok_or (checked_sub digest_start c₁) truncated
  guard (declared == expected) (invalid "checkpoint lengths do not consume payload")
  (snapshot, c₂) ← take_until input c₁ fields.snapshot_len digest_start
  (pending_updates, c₃) ← take_updates input digest_start lengths c₂
  guard (c₃ == digest_start) (invalid "checkpoint lengths do not consume payload")
  ok (snapshot, pending_updates, c₃)

module _ (h : Hashes) where
  -- The length at the end and the checksum: where the checksum starts.
  unfoldable pub verify_trailer : List ℕ → ℕ → Result CheckpointError ℕ
  verify_trailer input total_len = do
    trailer_start ← ok_or (checked_sub total_len 8) length_overflow
    (trailer, _) ← read_u64 input trailer_start
    total_len_u64 ← ok_or (try_from u64_mod total_len) length_overflow
    guard (trailer == total_len_u64) (invalid "checkpoint length trailer mismatch")
    crc_start ← ok_or (checked_sub total_len 12) length_overflow
    (expected_crc, _) ← read_u32 input crc_start
    covered ← ok_or (get_range? input 0 crc_start) truncated
    guard (h.crc32 covered == expected_crc) checksum_mismatch
    ok crc_start

  unfoldable pub decode_exact : List ℕ → CheckpointLimits → Result CheckpointError CheckpointRecord
  decode_exact input limits = do
    (total_len, c₁) ← decode_header input limits
    crc_start ← verify_trailer input total_len
    digest_start ← ok_or (checked_sub crc_start 32) truncated
    (fields, c₂) ← read_fixed limits input c₁
    (snapshot, pending_updates, c₃) ← read_payload limits input digest_start fields c₂
    (digest, c₄) ← take input c₃ 32
    guard (bytes_eq digest (checkpoint_digest h snapshot pending_updates)) digest_mismatch
    guard (c₄ == crc_start) (invalid "checkpoint digest is misplaced")
    ok (record {
      room_hash = fields.room_hash;
      checkpoint_generation = fields.checkpoint_generation;
      source_delta_generation = fields.source_delta_generation;
      source_delta_end_offset = fields.source_delta_end_offset;
      snapshot = snapshot;
      pending_updates = pending_updates;
      digest = digest;
    })
