-- ===== src/Manifest/Chain.antt =====
-- src/manifest.rs: `validate_manifest_chain`, and what it accepts.
use quorum_loro_gateway.Prelude.{
  ℕ, ◌+◌, ◌<◌, ◌≡◌, true, List, [], ◌∷◌, ◌++◌, ltb, ◌==◌, bytes_eq, Result, ok, err, ◌>>=◌, ◌>>◌,
  guard, ok_or,
}
use quorum_loro_gateway.Bytes.{u64_mod, checked_add}
use quorum_loro_gateway.Hashes.{Hashes}
use quorum_loro_gateway.Manifest.{
  genesis_digest, ManifestRecord, ManifestError, empty_stream, wrong_room, length_overflow, invalid,
  belongs_to_room,
}

module _ (h : Hashes) (room_id : List ℕ) where
  -- The checks on `records.first()`.
  unfoldable pub check_first : ManifestRecord → Result ManifestError Unit
  check_first first = do
    guard (belongs_to_room h first room_id) wrong_room
    guard (first.revision == 0) (invalid "first manifest revision is not zero")
    guard (bytes_eq first.previous_record_digest genesis_digest)
        (invalid "first manifest record has a predecessor")

  -- The checks on one window of two records.
  unfoldable pub check_link : ManifestRecord → ManifestRecord → Result ManifestError Unit
  check_link previous current = do
    guard (belongs_to_room h current room_id) wrong_room
    expected_revision ← ok_or (checked_add previous.revision 1) length_overflow
    guard (current.revision == expected_revision) (invalid "manifest revision gap")
    guard (bytes_eq current.previous_record_digest previous.digest)
        (invalid "manifest predecessor digest mismatch")
    guard (ltb previous.checkpoint_generation current.checkpoint_generation)
        (invalid "checkpoint generation did not advance")
    guard (ltb previous.active_delta_generation current.active_delta_generation)
        (invalid "active delta generation did not advance")

  -- `for window in records.windows(2)`, and then the last record.
  unfoldable pub check_links :
      ManifestRecord → List ManifestRecord → Result ManifestError ManifestRecord
  check_links last [] = ok last
  check_links previous (current ∷ rest) = do check_link previous current; check_links current rest

  unfoldable pub validate_manifest_chain : List ManifestRecord → Result ManifestError ManifestRecord
  validate_manifest_chain [] = err empty_stream
  validate_manifest_chain (first ∷ rest) = do check_first first; check_links first rest

  -- What the first record of a room's manifest is.
  pub record IsFirst (r : ManifestRecord) : Type 0 where
    pub room : belongs_to_room h r room_id ≡ true
    pub revision : r.revision ≡ 0
    pub genesis : r.previous_record_digest ≡ genesis_digest

  -- What a record that follows another one is.
  pub record Link (previous current : ManifestRecord) : Type 0 where
    pub room : belongs_to_room h current room_id ≡ true
    pub revision : current.revision ≡ previous.revision + 1
    pub revision_u64 : previous.revision + 1 < u64_mod
    pub predecessor : current.previous_record_digest ≡ previous.digest
    pub checkpoint : previous.checkpoint_generation < current.checkpoint_generation
    pub active : previous.active_delta_generation < current.active_delta_generation

  -- The chain from its first record on, with its last one.
  pub data Chain : List ManifestRecord → ManifestRecord → Type 0 where
    single : (r : ManifestRecord) → IsFirst r → Chain (r ∷ []) r
    extend :
        (rs : List ManifestRecord) (last r : ManifestRecord)
        → Chain rs last
        → Link last r
        → Chain (rs ++ r ∷ []) r
