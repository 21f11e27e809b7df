-- ===== src/Manifest.antt =====
-- src/manifest.rs: the record that says which checkpoint and which delta stream are current, its
-- checks, its digests and its encoder. The decoder is in Manifest/Decode, the chain in
-- Manifest/Chain.
pub mod Decode
pub mod Chain
pub mod ChainLaws
pub mod Pieces
pub mod RoundTrip
mod Examples
use quorum_loro_gateway.Prelude.{
  ℕ, ◌+◌, ◌*◌, Bool, not, ◌&&◌, String, List, [], ◌∷◌, ◌++◌, ltb, ◌==◌, if◌then◌else◌, bytes_eq,
  length, replicate, Result, ok, err, ◌>>=◌, ◌>>◌, guard, ok_or,
}
use quorum_loro_gateway.Bytes.{u64_mod, checked_add, try_from, saturating_u64, to_be, codes}
use quorum_loro_gateway.Hashes.{Hashes}

abbrev pub magic : List ℕ
magic = b'Q' ∷ b'L' ∷ b'G' ∷ b'M' ∷ []

abbrev pub version : ℕ
version = 1

abbrev pub genesis_digest : List ℕ
genesis_digest = replicate 32 0

abbrev pub fixed_record_bytes : ℕ
fixed_record_bytes = 4 + 2 + 2 + 8 + 32 + 8 + 32 + 8 + 8 + 32 + 8 + 32 + 4 + 8

pub record ManifestLimits : Type 0 where
  pub max_record_bytes : ℕ
  pub max_records : ℕ
  pub max_stream_bytes : ℕ

abbrev pub default_limits : ManifestLimits
default_limits = record {
  max_record_bytes = 4096;
  max_records = 65536;
  max_stream_bytes = 16 * 1024 * 1024;
}

pub record ManifestRecord : Type 0 where
  pub room_hash : List ℕ
  pub revision : ℕ
  pub previous_record_digest : List ℕ
  pub checkpoint_generation : ℕ
  pub checkpoint_stream_end_offset : ℕ
  pub checkpoint_record_digest : List ℕ
  pub active_delta_generation : ℕ
  pub digest : List ℕ

pub data ManifestError : Type 0 where
  truncated empty_stream wrong_room checksum_mismatch digest_mismatch length_overflow :
      ManifestError
  unsupported_version : ℕ → ManifestError
  limit_exceeded : String → ℕ → ℕ → ManifestError
  invalid : String → ManifestError

unfoldable pub enforce_limit : String → ℕ → ℕ → Result ManifestError Unit
enforce_limit resource actual limit =
    if ltb limit actual then err (limit_exceeded resource actual limit) else ok tt

unfoldable pub validate_previous_digest : ℕ → List ℕ → Result ManifestError Unit
validate_previous_digest revision previous = do
  guard (not ((revision == 0) && not (bytes_eq previous genesis_digest)))
      (invalid "first manifest record has a predecessor")
  guard (not (ltb 0 revision && bytes_eq previous genesis_digest))
      (invalid "manifest predecessor digest is absent")

unfoldable pub validate_generation_pair : ℕ → ℕ → Result ManifestError Unit
validate_generation_pair checkpoint_generation active = do
  expected_active ←
      ok_or (checked_add checkpoint_generation 1) (invalid "checkpoint generation cannot advance")
  guard (active == expected_active) (invalid "active delta is not checkpoint generation plus one")

unfoldable pub validate_record_fields : ManifestRecord → Result ManifestError Unit
validate_record_fields r = do
  validate_previous_digest r.revision r.previous_record_digest
  validate_generation_pair r.checkpoint_generation r.active_delta_generation
  guard (not (r.checkpoint_stream_end_offset == 0)) (invalid "checkpoint stream end offset is zero")

abbrev pub is_empty : List ℕ → Bool
is_empty [] = Bool.true
is_empty (x ∷ xs) = Bool.false

-- The fields behind the header, the digest included.
unfoldable pub record_fields : ManifestRecord → List ℕ
record_fields r =
    r.room_hash
    ++ (to_be 8 r.revision
        ++ (r.previous_record_digest
            ++ (to_be 8 r.checkpoint_generation
                ++ (to_be 8 r.checkpoint_stream_end_offset
                    ++ (r.checkpoint_record_digest
                        ++ (to_be 8 r.active_delta_generation ++ r.digest))))))

abbrev pub record_header : ℕ → List ℕ
record_header total_len = magic ++ (to_be 2 version ++ (to_be 2 0 ++ to_be 8 total_len))

module _ (h : Hashes) where
  unfoldable pub room_hash : List ℕ → List ℕ
  room_hash room_id = h.sha256 room_id

  unfoldable pub checkpoint_record_digest : List ℕ → List ℕ
  checkpoint_record_digest bytes = h.sha256 (
      codes "quorum-loro-checkpoint-record-v1"
      ++ ((0 ∷ []) ++ (to_be 8 (saturating_u64 (length bytes)) ++ bytes)))

  -- `manifest_digest` of the fields of a record but for its own digest.
  unfoldable pub manifest_digest : ManifestRecord → List ℕ
  manifest_digest r = h.sha256 (
      codes "quorum-loro-manifest-v1"
      ++ ((0 ∷ [])
          ++ (r.room_hash
              ++ (to_be 8 r.revision
                  ++ (r.previous_record_digest
                      ++ (to_be 8 r.checkpoint_generation
                          ++ (to_be 8 r.checkpoint_stream_end_offset
                              ++ (r.checkpoint_record_digest
                                  ++ to_be 8 r.active_delta_generation))))))))

  unfoldable pub belongs_to_room : ManifestRecord → List ℕ → Bool
  belongs_to_room r room_id = bytes_eq r.room_hash (room_hash room_id)

  unfoldable pub verifies_checkpoint_bytes : ManifestRecord → List ℕ → Bool
  verifies_checkpoint_bytes r bytes =
      (r.checkpoint_stream_end_offset == saturating_u64 (length bytes))
      && bytes_eq r.checkpoint_record_digest (checkpoint_record_digest bytes)

  unfoldable pub with_digest : ManifestRecord → ManifestRecord
  with_digest r = record r { digest = manifest_digest r }

  unfoldable pub new : List ℕ → ℕ → List ℕ → ℕ → List ℕ → ℕ → Result ManifestError ManifestRecord
  new room_id revision previous checkpoint_generation checkpoint_bytes active = do
    guard (not (is_empty checkpoint_bytes)) (invalid "checkpoint record is empty")
    validate_generation_pair checkpoint_generation active
    validate_previous_digest revision previous
    end_offset ← ok_or (try_from u64_mod (length checkpoint_bytes)) length_overflow
    ok (
        with_digest (record {
          room_hash = room_hash room_id;
          revision = revision;
          previous_record_digest = previous;
          checkpoint_generation = checkpoint_generation;
          checkpoint_stream_end_offset = end_offset;
          checkpoint_record_digest = checkpoint_record_digest checkpoint_bytes;
          active_delta_generation = active;
          digest = [];
        }))

  unfoldable pub seal : List ℕ → ℕ → List ℕ
  seal output total_len = output ++ (to_be 4 (h.crc32 output) ++ to_be 8 total_len)

  unfoldable pub encode_with_limits :
      ManifestRecord → ManifestLimits → Result ManifestError (List ℕ)
  encode_with_limits r limits = do
    enforce_limit "manifest record bytes" fixed_record_bytes limits.max_record_bytes
    validate_record_fields r
    total_len ← ok_or (try_from u64_mod fixed_record_bytes) length_overflow
    guard (bytes_eq r.digest (manifest_digest r)) digest_mismatch
    ok (seal (record_header total_len ++ record_fields r) total_len)
