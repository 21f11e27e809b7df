-- ===== src/Checkpoint.antt =====
-- src/checkpoint.rs: the record that holds a snapshot of a room and the updates still pending, its
-- digest and its encoder. The decoder is in Checkpoint/Decode, the building of a record from a
-- document in Checkpoint/Build.
pub mod Decode
pub mod Build
use quorum_loro_gateway.Prelude.{
  ℕ, ◌+◌, ◌*◌, Bool, true, false, not, Option, none, some, String, List, [], ◌∷◌, ◌++◌, ltb,
  if◌then◌else◌, bytes_eq, length, Result, ok, err, ◌>>=◌, ◌>>◌, guard, ok_or,
}
use quorum_loro_gateway.Bytes.{
  u32_mod, u64_mod, checked_add, checked_mul, try_from, saturating_u64, to_be, codes,
}
use quorum_loro_gateway.Hashes.{Hashes}

abbrev pub magic : List ℕ
magic = b'Q' ∷ b'L' ∷ b'G' ∷ b'C' ∷ []

abbrev pub version : ℕ
version = 1

abbrev pub fixed_header : ℕ
fixed_header = 4 + 2 + 2 + 8 + 32 + 8 + 8 + 8 + 8 + 4

abbrev pub fixed_suffix : ℕ
fixed_suffix = 32 + 4 + 8

pub record CheckpointLimits : Type 0 where
  pub max_record_bytes : ℕ
  pub max_snapshot_bytes : ℕ
  pub max_pending_updates : ℕ
  pub max_pending_update_bytes : ℕ
  pub max_pending_updates_bytes : ℕ

abbrev pub default_limits : CheckpointLimits
default_limits = record {
  max_record_bytes = 128 * 1024 * 1024;
  max_snapshot_bytes = 64 * 1024 * 1024;
  max_pending_updates = 4096;
  max_pending_update_bytes = 32 * 1024 * 1024;
  max_pending_updates_bytes = 64 * 1024 * 1024;
}

pub record CheckpointRecord : Type 0 where
  pub room_hash : List ℕ
  pub checkpoint_generation : ℕ
  pub source_delta_generation : ℕ
  pub source_delta_end_offset : ℕ
  pub snapshot : List ℕ
  pub pending_updates : List (List ℕ)
  pub digest : List ℕ

pub data CheckpointError : Type 0 where
  truncated checksum_mismatch digest_mismatch length_overflow : CheckpointError
  unsupported_version : ℕ → CheckpointError
  invalid : String → CheckpointError
  limit_exceeded : String → ℕ → ℕ → CheckpointError

unfoldable pub enforce_limit : String → ℕ → ℕ → Result CheckpointError Unit
enforce_limit resource actual limit =
    if ltb limit actual then err (limit_exceeded resource actual limit) else ok tt

abbrev pub is_empty {ℓ} : {A : Type ℓ} → List A → Bool
is_empty [] = true
is_empty (x ∷ xs) = false

-- What the hasher of `checkpoint_digest` is fed for each pending update.
unfoldable pub digest_input : List (List ℕ) → List ℕ
digest_input [] = []
digest_input (u ∷ us) = to_be 8 (saturating_u64 (length u)) ++ (u ++ digest_input us)

-- The checks on each pending update, and its length as a `u32`.
unfoldable pub pending_lengths : CheckpointLimits → List (List ℕ) → Result CheckpointError (List ℕ)
pending_lengths limits [] = ok []
pending_lengths limits (u ∷ us) = do
  guard (not (is_empty u)) (invalid "pending update is empty")
  enforce_limit "individual pending update bytes" (length u) limits.max_pending_update_bytes
  n ← ok_or (try_from u32_mod (length u)) (invalid "pending update is too large")
  ns ← pending_lengths limits us
  ok (n ∷ ns)

-- `try_fold` over the pending updates, with the running sum.
unfoldable pub sum_pending : CheckpointLimits → ℕ → List (List ℕ) → Result CheckpointError ℕ
sum_pending limits sum [] = ok sum
sum_pending limits sum (u ∷ us) = do
  next ← ok_or (checked_add sum (length u)) length_overflow
  enforce_limit "aggregate pending update bytes" next limits.max_pending_updates_bytes
  sum_pending limits next us

abbrev pub add_all : ℕ → List ℕ → Option ℕ
add_all sum [] = some sum
add_all sum (n ∷ ns) = elim (checked_add sum n) [ none ↦ none | some s ↦ add_all s ns ]

abbrev pub length_table : List ℕ → List ℕ
length_table [] = []
length_table (n ∷ ns) = to_be 4 n ++ length_table ns

abbrev pub concat : List (List ℕ) → List ℕ
concat [] = []
concat (u ∷ us) = u ++ concat us

-- The first sixteen bytes, which end with the length of the record.
abbrev pub record_header : ℕ → List ℕ
record_header total_len = magic ++ (to_be 2 version ++ (to_be 2 0 ++ to_be 8 total_len))

-- All that stands between the header and the checksum.
unfoldable pub record_fields : CheckpointRecord → ℕ → ℕ → List ℕ → List ℕ
record_fields r snapshot_len pending_count lengths =
    r.room_hash
    ++ (to_be 8 r.checkpoint_generation
        ++ (to_be 8 r.source_delta_generation
            ++ (to_be 8 r.source_delta_end_offset
                ++ (to_be 8 snapshot_len
                    ++ (to_be 4 pending_count
                        ++ (length_table lengths
                            ++ (r.snapshot ++ (concat r.pending_updates ++ r.digest))))))))

module _ (h : Hashes) where
  unfoldable pub room_hash : List ℕ → List ℕ
  room_hash room_id = h.sha256 room_id

  unfoldable pub checkpoint_digest : List ℕ → List (List ℕ) → List ℕ
  checkpoint_digest snapshot pending_updates = h.sha256 (
      codes "quorum-loro-checkpoint-v1"
      ++ ((0 ∷ [])
          ++ (to_be 8 (saturating_u64 (length snapshot))
              ++ (snapshot
                  ++ (to_be 8 (saturating_u64 (length pending_updates))
                      ++ digest_input pending_updates)))))

  unfoldable pub new : List ℕ → ℕ → ℕ → ℕ → List ℕ → List (List ℕ) → CheckpointRecord
  new room_id checkpoint_generation source_generation source_end snapshot pending_updates = record {
    room_hash = room_hash room_id;
    checkpoint_generation = checkpoint_generation;
    source_delta_generation = source_generation;
    source_delta_end_offset = source_end;
    snapshot = snapshot;
    pending_updates = pending_updates;
    digest = checkpoint_digest snapshot pending_updates;
  }

  unfoldable pub belongs_to_room : CheckpointRecord → List ℕ → Bool
  belongs_to_room r room_id = bytes_eq r.room_hash (room_hash room_id)

  -- The checksum covers all that is before it, and the length stands once more at the end.
  unfoldable pub seal : List ℕ → ℕ → List ℕ
  seal output total_len = output ++ (to_be 4 (h.crc32 output) ++ to_be 8 total_len)

  unfoldable pub encode_with_limits :
      CheckpointRecord → CheckpointLimits → Result CheckpointError (List ℕ)
  encode_with_limits r limits = do
    guard (not (is_empty r.snapshot)) (invalid "checkpoint snapshot is empty")
    enforce_limit "checkpoint snapshot bytes" (length r.snapshot) limits.max_snapshot_bytes
    enforce_limit "pending update count" (length r.pending_updates) limits.max_pending_updates
    snapshot_len ← ok_or (try_from u64_mod (length r.snapshot)) length_overflow
    pending_count ←
        ok_or (try_from u32_mod (length r.pending_updates)) (invalid "too many pending updates")
    lengths ← pending_lengths limits r.pending_updates
    pending_len ← sum_pending limits 0 r.pending_updates
    length_table_len ← ok_or (checked_mul (length lengths) 4) length_overflow
    total_len ←
        ok_or
          (add_all fixed_header
            (length_table_len ∷ length r.snapshot ∷ pending_len ∷ fixed_suffix ∷ []))
          length_overflow
    enforce_limit "checkpoint record bytes" total_len limits.max_record_bytes
    total_len_u64 ← ok_or (try_from u64_mod total_len) length_overflow
    guard (bytes_eq r.digest (checkpoint_digest r.snapshot r.pending_updates)) digest_mismatch
    ok (
        seal (record_header total_len_u64 ++ record_fields r snapshot_len pending_count lengths)
          total_len_u64)

  unfoldable pub encode : CheckpointRecord → Result CheckpointError (List ℕ)
  encode r = encode_with_limits r default_limits
