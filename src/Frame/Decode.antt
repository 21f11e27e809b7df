-- ===== src/Frame/Decode.antt =====
-- src/frame.rs: `decode_one_with_limits`, cut into the steps that it makes in order, `decode_exact`
-- and `decode_all_with_limits`. A step that moves the cursor returns the new one.
use quorum_loro_gateway.Prelude.{
  ℕ, zero, suc, ◌+◌, not, Option, none, some, List, [], ◌∷◌, leb, ◌==◌, bytes_eq, length, Result,
  ok, err, ◌>>=◌, ◌>>◌, guard, ok_or, map_err,
}
use quorum_loro_gateway.Bytes.{u64_mod, checked_add, checked_sub, checked_mul, try_from, get_range?}
use quorum_loro_gateway.Cursor.{take_bytes_until, read_be}
use quorum_loro_gateway.Hashes.{Hashes}
use quorum_loro_gateway.Utf8.{is_utf8}
use quorum_loro_gateway.Frame.{
  magic, version, fixed_prefix, fixed_suffix, FrameLimits, ProducerTuple, DeltaFrame, FrameError,
  truncated, length_overflow, checksum_mismatch, digest_mismatch, unsupported_version, at_offset,
  invalid, enforce_limit, is_empty, update_digest,
}

unfoldable pub take_until : List ℕ → ℕ → ℕ → ℕ → Result FrameError (List ℕ × ℕ)
take_until = take_bytes_until truncated truncated

unfoldable pub take : List ℕ → ℕ → ℕ → Result FrameError (List ℕ × ℕ)
unfolding take_until
take input cursor n = take_until input cursor n (length input)

-- `usize::try_from(..)` of what was read
abbrev pub usize_from : ℕ → Result FrameError ℕ
usize_from v = ok_or (try_from u64_mod v) length_overflow

unfoldable pub read_u16 : List ℕ → ℕ → Result FrameError (ℕ × ℕ)
read_u16 = read_be truncated truncated 2

unfoldable pub read_u32 : List ℕ → ℕ → Result FrameError (ℕ × ℕ)
read_u32 = read_be truncated truncated 4

unfoldable pub read_u64 : List ℕ → ℕ → Result FrameError (ℕ × ℕ)
read_u64 = read_be truncated truncated 8

-- The fixed prefix: the frame's bytes, their number, and the cursor behind the prefix.
unfoldable pub decode_header : List ℕ → FrameLimits → Result FrameError (List ℕ × ℕ × ℕ)
decode_header input limits = do
  guard (leb (fixed_prefix + fixed_suffix) (length input)) truncated
  start ← ok_or (get_range? input 0 4) (invalid "bad frame magic")
  guard (bytes_eq start magic) (invalid "bad frame magic")
  (found, c₁) ← read_u16 input 4
  guard (found == version) (unsupported_version found)
  (flags, c₂) ← read_u16 input c₁
  guard (flags == 0) (invalid "unsupported frame flags")
  (declared, c₃) ← read_u64 input c₂
  total_len ← usize_from declared
  guard (leb (fixed_prefix + fixed_suffix) total_len) truncated
  enforce_limit "frame bytes" total_len limits.max_frame_bytes
  guard (leb total_len (length input)) truncated
  frame ← ok_or (get_range? input 0 total_len) truncated
  ok (frame, total_len, c₃)

-- `for _ in 0..count`: the lengths, their sum from `sum` on, and the cursor.
unfoldable pub read_lengths : FrameLimits → List ℕ → ℕ → ℕ → ℕ → Result FrameError (List ℕ × ℕ × ℕ)
read_lengths limits frame zero cursor sum = ok ([], sum, cursor)
read_lengths limits frame (suc n) cursor sum = do
  (value, c₁) ← read_u32 frame cursor
  len ← usize_from value
  enforce_limit "individual update bytes" len limits.max_update_bytes
  sum' ← ok_or (checked_add sum len) length_overflow
  enforce_limit "aggregate update bytes" sum' limits.max_updates_bytes
  (lengths, total, c₂) ← read_lengths limits frame n c₁ sum'
  ok (len ∷ lengths, total, c₂)

-- `for length in lengths`: one slice for each length.
unfoldable pub take_updates : List ℕ → ℕ → List ℕ → ℕ → Result FrameError (List (List ℕ) × ℕ)
take_updates frame payload_end [] cursor = ok ([], cursor)
take_updates frame payload_end (len ∷ lengths) cursor = do
  (update, c₁) ← take_until frame cursor len payload_end
  (updates, c₂) ← take_updates frame payload_end lengths c₁
  ok (update ∷ updates, c₂)

-- The producer tuple and the batch ID.
unfoldable pub decode_producer :
    FrameLimits → List ℕ → ℕ → Result FrameError (ProducerTuple × List ℕ × ℕ)
unfolding take
decode_producer limits frame cursor = do
  (producer_len, c₁) ← read_u16 frame cursor
  enforce_limit "producer ID bytes" producer_len limits.max_producer_id_bytes
  (producer_id, c₂) ← take frame c₁ producer_len
  guard (is_utf8 producer_id) (invalid "producer ID is not UTF-8")
  guard (not (is_empty producer_id)) (invalid "producer ID is empty")
  (epoch, c₃) ← read_u64 frame c₂
  (sequence, c₄) ← read_u64 frame c₃
  (batch_id, c₅) ← take frame c₄ 8
  ok (record { id = producer_id; epoch = epoch; sequence = sequence }, batch_id, c₅)

-- The count, the table of lengths and the updates, which end where the digest starts.
unfoldable pub decode_updates : FrameLimits → List ℕ → ℕ → ℕ → Result FrameError (List (List ℕ) × ℕ)
decode_updates limits frame crc_start cursor = do
  (value, c₁) ← read_u32 frame cursor
  count ← usize_from value
  guard (not (count == 0)) (invalid "frame contains no updates")
  enforce_limit "update count" count limits.max_updates
  payload_end ← ok_or (checked_sub crc_start 32) truncated
  length_table_bytes ← ok_or (checked_mul count 4) length_overflow
  length_table_end ← ok_or (checked_add c₁ length_table_bytes) truncated
  guard (leb length_table_end payload_end) truncated
  (lengths, updates_len, c₂) ← read_lengths limits frame count c₁ 0
  declared_payload_len ← ok_or (checked_sub payload_end length_table_end) truncated
  guard (updates_len == declared_payload_len) (invalid "update lengths do not consume payload")
  (updates, c₃) ← take_updates frame payload_end lengths c₂
  guard (c₃ == payload_end) (invalid "update lengths do not consume payload")
  ok (updates, c₃)

-- `frames.push(frame)`, where the rest of the loop did not fail.
abbrev pub push_front :
    DeltaFrame
    → Option (Result FrameError (List DeltaFrame))
    → Option (Result FrameError (List DeltaFrame))
push_front f none = none
push_front f (some (err e)) = some (err e)
push_front f (some (ok frames)) = some (ok (f ∷ frames))

abbrev pub finished :
    Option (Result FrameError (List DeltaFrame)) → Result FrameError (List DeltaFrame)
finished none = err truncated
finished (some r) = r

module _ (h : Hashes) where
  -- The length at the end and the checksum: where the checksum starts.
  unfoldable pub verify_trailer : List ℕ → ℕ → Result FrameError ℕ
  verify_trailer frame total_len = do
    trailer_start ← ok_or (checked_sub total_len 8) length_overflow
    (trailer, _) ← read_u64 frame trailer_start
    total_len_u64 ← ok_or (try_from u64_mod total_len) length_overflow
    guard (trailer == total_len_u64) (invalid "frame length trailer mismatch")
    crc_start ← ok_or (checked_sub total_len 12) length_overflow
    (expected_crc, _) ← read_u32 frame crc_start
    covered ← ok_or (get_range? frame 0 crc_start) truncated
    guard (h.crc32 covered == expected_crc) checksum_mismatch
    ok crc_start

  unfoldable pub decode_fields : FrameLimits → List ℕ → ℕ → ℕ → Result FrameError DeltaFrame
  decode_fields limits frame crc_start cursor = do
    (producer, batch_id, c₁) ← decode_producer limits frame cursor
    (updates, c₂) ← decode_updates limits frame crc_start c₁
    (digest, _) ← take frame c₂ 32
    guard (bytes_eq digest (update_digest h updates)) digest_mismatch
    ok (record { producer = producer; batch_id = batch_id; updates = updates; digest = digest })

  unfoldable pub decode_one_with_limits : List ℕ → FrameLimits → Result FrameError (DeltaFrame × ℕ)
  decode_one_with_limits input limits = do
    (frame, total_len, cursor) ← decode_header input limits
    crc_start ← verify_trailer frame total_len
    f ← decode_fields limits frame crc_start cursor
    ok (f, total_len)

  unfoldable pub decode_exact : List ℕ → FrameLimits → Result FrameError DeltaFrame
  decode_exact input limits = do
    (f, consumed) ← decode_one_with_limits input limits
    guard (consumed == length input) (invalid "trailing bytes after frame")
    ok f

  -- One round of the loop: the frame at the front, what follows it, and where that starts.
  unfoldable pub decode_step :
      FrameLimits → List ℕ → ℕ → Result FrameError (DeltaFrame × List ℕ × ℕ)
  decode_step limits input offset = do
    (f, consumed) ← map_err (decode_one_with_limits input limits) (at_offset offset)
    rest ← ok_or (get_range? input consumed (length input)) truncated
    step ← ok_or (try_from u64_mod consumed) length_overflow
    offset' ← ok_or (checked_add offset step) length_overflow
    ok (f, rest, offset')

  -- `while !input.is_empty()`, with fuel; `none` means that the fuel ran out.
  unfoldable pub decode_frames :
      FrameLimits → ℕ → List ℕ → ℕ → Option (Result FrameError (List DeltaFrame))
  decode_frames limits fuel [] offset = some (ok [])
  decode_frames limits zero (b ∷ bs) offset = none
  decode_frames limits (suc fuel) (b ∷ bs) offset = elim (decode_step limits (b ∷ bs) offset) [
    | err e ↦ some (err e)
    | ok (f, rest, offset') ↦ push_front f (decode_frames limits fuel rest offset')
  ]

  -- A round takes at least one byte, so as many rounds as there are bytes are enough.
  unfoldable pub decode_all_with_limits : List ℕ → FrameLimits → Result FrameError (List DeltaFrame)
  decode_all_with_limits input limits = do
    enforce_limit "stream bytes" (length input) limits.max_stream_bytes
    finished (decode_frames limits (length input) input 0)
