-- ===== src/ManifestStore.antt =====
-- src/manifest_store.rs: a manifest record is appended to its room's manifest stream, which must be
-- a valid chain with it.
pub mod Published
use quorum_loro_gateway.Prelude.{
  ℕ, ◌-◌, Bool, ◌&&◌, none, some, List, [], ◌∷◌, ◌++◌, leb, ◌==◌, bytes_eq, length, drop, Result,
  ok, err, guard, ok_or, map_err, if◌then◌else◌,
}
use quorum_loro_gateway.Bytes.{u64_mod, checked_add, try_from, codes}
use quorum_loro_gateway.Hashes.{Hashes}
use quorum_loro_gateway.Manifest.{
  genesis_digest, default_limits, ManifestRecord, ManifestError, belongs_to_room,
  encode_with_limits,
}
use quorum_loro_gateway.Manifest.Decode.{decode_manifest_stream}
use quorum_loro_gateway.Manifest.Chain.{validate_manifest_chain}
use quorum_loro_gateway.Names.{document_hash, manifest_stream}
use quorum_loro_gateway.Store.{StoreError, Task, UrsulaStore, ◌>>=◌, ◌>>◌, pure_result, call}
use quorum_loro_gateway.ExactAppend.{ExactAppendOutcome, append_exact_with_retry, end_of}

pub data ManifestWriteOutcome : Type 0 where
  committed verified_duplicate verified_existing : List ℕ → ℕ → ManifestWriteOutcome

pub data ManifestWriteError : Type 0 where
  manifest : ManifestError → ManifestWriteError
  store_failed : StoreError → ManifestWriteError
  wrong_room previous_digest_mismatch revision_overflow length_overflow : ManifestWriteError
  unexpected_revision unexpected_end_offset : ℕ → ℕ → ManifestWriteError

abbrev pub outcome_of : List ℕ → ExactAppendOutcome → ManifestWriteOutcome
outcome_of stream (ExactAppendOutcome.committed n) = committed stream n
outcome_of stream (ExactAppendOutcome.verified_duplicate n) = verified_duplicate stream n

-- The derived equality of records.
unfoldable pub record_eq : ManifestRecord → ManifestRecord → Bool
record_eq a b =
    bytes_eq a.room_hash b.room_hash
    && ((a.revision == b.revision)
        && (bytes_eq a.previous_record_digest b.previous_record_digest
            && ((a.checkpoint_generation == b.checkpoint_generation)
                && ((a.checkpoint_stream_end_offset == b.checkpoint_stream_end_offset)
                    && (bytes_eq a.checkpoint_record_digest b.checkpoint_record_digest
                        && ((a.active_delta_generation == b.active_delta_generation)
                            && bytes_eq a.digest b.digest))))))

unfoldable pub ends_with : List ℕ → List ℕ → Bool
ends_with bytes suffix =
    leb (length suffix) (length bytes)
    && bytes_eq (drop (length bytes - length suffix) bytes) suffix

-- What a look at the stream tells: the record is its last one, or it may follow these records.
pub data Position : Type 0 where
  already_last : Position
  follows : List ManifestRecord → Position

-- The checks on a record that is to follow the latest one.
unfoldable pub check_next : ManifestRecord → ManifestRecord → Result ManifestWriteError Unit
check_next latest r = elim (checked_add latest.revision 1) [
  | none ↦ err revision_overflow
  | some expected ↦
      if r.revision == expected
      then guard (bytes_eq r.previous_record_digest latest.digest) previous_digest_mismatch
      else err (unexpected_revision expected r.revision)
]

-- The checks on the first record of a stream.
unfoldable pub check_genesis : ManifestRecord → Result ManifestWriteError Unit
check_genesis r =
    if r.revision == 0
    then guard (bytes_eq r.previous_record_digest genesis_digest) previous_digest_mismatch
    else err (unexpected_revision 0 r.revision)

module _ (h : Hashes) where
  unfoldable pub encode : ManifestRecord → Result ManifestError (List ℕ)
  encode r = encode_with_limits h r default_limits

  unfoldable pub manifest_producer_id : List ℕ → List ℕ
  manifest_producer_id room_id = codes "qlg-manifest-" ++ document_hash h room_id

  module _ {S : Type 0} (store : UrsulaStore S) where
    -- `if latest == record && existing.ends_with(&encoded)`, and the checks otherwise.
    unfoldable pub place_after :
        List ManifestRecord
        → ManifestRecord
        → ManifestRecord
        → List ℕ
        → List ℕ
        → Task S ManifestWriteError Position
    place_after records latest r existing encoded =
        if record_eq latest r && ends_with existing encoded
        then pure_result (ok already_last)
        else (pure_result (check_next latest r) >> pure_result (ok (follows records)))

    -- The branches on the bytes that are in the stream.
    unfoldable pub place :
        List ℕ → ManifestRecord → List ℕ → List ℕ → Task S ManifestWriteError Position
    place room_id r encoded [] = do pure_result (check_genesis r); pure_result (ok (follows []))
    place room_id r encoded (b ∷ bs) = do
      records ← pure_result (map_err (decode_manifest_stream h (b ∷ bs) default_limits) manifest)
      latest ← pure_result (map_err (validate_manifest_chain h room_id records) manifest)
      place_after records latest r (b ∷ bs) encoded

    -- The record is appended, and the end of the stream is compared with the one expected.
    unfoldable pub append_record :
        List ℕ → ManifestRecord → List ℕ → ℕ → ℕ → Task S ManifestWriteError ManifestWriteOutcome
    append_record room_id r encoded existing_len retries = do
      appended ← call store_failed (
          append_exact_with_retry store (manifest_stream h room_id).physical
            (record { id = manifest_producer_id room_id; epoch = 0; sequence = r.revision }) encoded
            retries)
      encoded_len ← pure_result (ok_or (try_from u64_mod (length encoded)) length_overflow)
      expected ← pure_result (ok_or (checked_add existing_len encoded_len) length_overflow)
      pure_result
          (guard (end_of appended == expected) (unexpected_end_offset expected (end_of appended)))
      pure_result (ok (outcome_of (manifest_stream h room_id).physical appended))

    unfoldable pub finish_publish :
        List ℕ
        → ManifestRecord
        → List ℕ
        → ℕ
        → ℕ
        → Position
        → Task S ManifestWriteError ManifestWriteOutcome
    finish_publish room_id r encoded existing_len retries already_last =
        pure_result (ok (verified_existing (manifest_stream h room_id).physical existing_len))
    finish_publish room_id r encoded existing_len retries (follows records) = do
      _ ← pure_result (map_err (validate_manifest_chain h room_id (records ++ r ∷ [])) manifest)
      append_record room_id r encoded existing_len retries

    unfoldable pub publish_manifest_record :
        List ℕ → ManifestRecord → ℕ → Task S ManifestWriteError ManifestWriteOutcome
    publish_manifest_record room_id r retries = do
      pure_result (guard (belongs_to_room h r room_id) wrong_room)
      encoded ← pure_result (map_err (encode r) manifest)
      call store_failed (store.ensure_stream (manifest_stream h room_id).physical)
      existing ← call store_failed (store.read_all (manifest_stream h room_id).physical)
      existing_len ← pure_result (ok_or (try_from u64_mod (length existing)) length_overflow)
      position ← place room_id r encoded existing
      finish_publish room_id r encoded existing_len retries position
