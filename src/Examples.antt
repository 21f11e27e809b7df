-- ===== src/Examples.antt =====
-- Runs of the code that goes through the store (src/exact_append.rs, src/checkpoint_store.rs,
-- src/manifest_store.rs) and of src/recovery.rs, on the store in memory and under the toy hashes.
use quorum_loro_gateway.Prelude.{ℕ, ◌≡◌, ◌↔◌, ◌⊎◌, refl, List, [], ◌∷◌, ◌++◌, bytes_eq, ok}
use quorum_loro_gateway.Bytes.{
  try_from, checked_add, checked_sub, checked_mul, to_be, from_be, saturating_u64,
}
use quorum_loro_gateway.Hashes.{toy_hashes, toy_sha256, toy_crc32}
use quorum_loro_gateway.Frame.{ProducerTuple}
use quorum_loro_gateway.Names.{checkpoint_stream, manifest_stream}
use quorum_loro_gateway.Checkpoint as Checkpoint
use quorum_loro_gateway.Checkpoint.{CheckpointRecord}
use quorum_loro_gateway.Manifest as Manifest
use quorum_loro_gateway.Manifest.{ManifestRecord}
use quorum_loro_gateway.Manifest.Chain.{check_first, check_links, validate_manifest_chain}
use quorum_loro_gateway.Store.Memory.{Memory, memory_store, memory_laws}
use quorum_loro_gateway.ExactAppend.{
  ExactAppendOutcome, append_exact_with_retry, attempt, on_append, verify_duplicate_bytes,
}
use quorum_loro_gateway.ExactAppend.Once.{append_exact-at_most_once}
use quorum_loro_gateway.ExactAppend.Stored.{Stored, append_exact-Stored}
use quorum_loro_gateway.CheckpointStore as CheckpointStore
use quorum_loro_gateway.CheckpointStore.{persist_checkpoint, CheckpointWriteOutcome}
use quorum_loro_gateway.CheckpointStore.Persisted.{persist_checkpoint-stored}
use quorum_loro_gateway.ManifestStore as ManifestStore
use quorum_loro_gateway.ManifestStore.{publish_manifest_record, ManifestWriteOutcome}
use quorum_loro_gateway.ManifestStore.Published.{Published, publish_manifest_record-Published}
use quorum_loro_gateway.Recovery.{validate_checkpoint_link}
use quorum_loro_gateway.Recovery.Link.{Linked, validate_checkpoint_link_iff}

abbrev room : List ℕ
room = 100 ∷ 49 ∷ []

abbrev log : List ℕ
log = 108 ∷ []

-- Two acknowledgements are going to be lost.
abbrev lossy : Memory
lossy = record { bytes = 1 ∷ 2 ∷ []; next_sequence = 0; last_end = 2; lost = 2 }

abbrev landed : Memory
landed = record { bytes = 1 ∷ 2 ∷ 7 ∷ 8 ∷ []; next_sequence = 1; last_end = 4; lost = 1 }

abbrev producer : ProducerTuple
producer = record { id = 112 ∷ []; epoch = 0; sequence = 0 }

abbrev body : List ℕ
body = 7 ∷ 8 ∷ []

retried :
    append_exact_with_retry memory_store log producer body 3 lossy
    ≡ (ok (ExactAppendOutcome.verified_duplicate 4), landed)
unfolding append_exact_with_retry attempt on_append verify_duplicate_bytes try_from checked_sub
    bytes_eq
retried = refl

append_exact-at_most_once_example :
    ((append_exact_with_retry memory_store log producer body 3 lossy).1.bytes ≡ lossy.bytes)
    ⊎ ((append_exact_with_retry memory_store log producer body 3 lossy).1.bytes
        ≡ lossy.bytes ++ body)
append_exact-at_most_once_example =
    append_exact-at_most_once memory_store memory_laws log producer body 3 lossy

append_exact-Stored_example : Stored (1 ∷ 2 ∷ 7 ∷ 8 ∷ []) body 4
append_exact-Stored_example =
    append_exact-Stored memory_store memory_laws log producer body 3 lossy landed
      (ExactAppendOutcome.verified_duplicate 4) retried

abbrev checkpoint : CheckpointRecord
checkpoint = Checkpoint.new toy_hashes room 0 0 9 (5 ∷ 6 ∷ []) ((3 ∷ []) ∷ [])

abbrev empty : Memory
empty = record { bytes = []; next_sequence = 0; last_end = 0; lost = 1 }

-- How the run ends.
abbrev persisted : Memory
persisted = (persist_checkpoint toy_hashes memory_store room 0 checkpoint 1 empty).1

persist_run : persist_checkpoint toy_hashes memory_store room 0 checkpoint 1 empty ≡ (
  ok (CheckpointWriteOutcome.verified_duplicate (checkpoint_stream toy_hashes room 0).physical 135),
  persisted,
)
unfolding persist_checkpoint CheckpointStore.check_record Checkpoint.belongs_to_room bytes_eq
    Checkpoint.new Checkpoint.room_hash toy_sha256 toy_crc32 to_be from_be Checkpoint.encode
    Checkpoint.encode_with_limits Checkpoint.enforce_limit try_from Checkpoint.pending_lengths
    Checkpoint.sum_pending checked_add checked_mul Checkpoint.checkpoint_digest checked_sub
    saturating_u64 Checkpoint.digest_input Checkpoint.record_fields Checkpoint.seal
    CheckpointStore.on_existing CheckpointStore.persist_bytes CheckpointStore.verify_existing
    CheckpointStore.write_new append_exact_with_retry attempt on_append verify_duplicate_bytes
persist_run = refl

persist_checkpoint-stored_example : Checkpoint.encode toy_hashes checkpoint ≡ ok persisted.bytes
persist_checkpoint-stored_example =
    persist_checkpoint-stored toy_hashes memory_store memory_laws room 0 checkpoint 1 empty
      persisted
      (CheckpointWriteOutcome.verified_duplicate (checkpoint_stream toy_hashes room 0).physical 135)
      persist_run

abbrev manifest : ManifestRecord
manifest = Manifest.with_digest toy_hashes (record {
  room_hash = Manifest.room_hash toy_hashes room;
  revision = 0;
  previous_record_digest = Manifest.genesis_digest;
  checkpoint_generation = 0;
  checkpoint_stream_end_offset = 135;
  checkpoint_record_digest = Manifest.checkpoint_record_digest toy_hashes (1 ∷ []);
  active_delta_generation = 1;
  digest = [];
})

abbrev published : Memory
published = (publish_manifest_record toy_hashes memory_store room manifest 1 empty).1

publish_run : publish_manifest_record toy_hashes memory_store room manifest 1 empty ≡ (
  ok (ManifestWriteOutcome.verified_duplicate (manifest_stream toy_hashes room).physical 188),
  published,
)
unfolding publish_manifest_record Manifest.belongs_to_room bytes_eq Manifest.with_digest
    Manifest.room_hash toy_sha256 toy_crc32 to_be from_be ManifestStore.encode
    Manifest.encode_with_limits Manifest.enforce_limit Manifest.validate_record_fields
    Manifest.validate_previous_digest Manifest.validate_generation_pair checked_add try_from
    Manifest.manifest_digest Manifest.checkpoint_record_digest checked_sub saturating_u64
    append_exact_with_retry attempt on_append verify_duplicate_bytes check_first check_links
    validate_manifest_chain Manifest.record_fields Manifest.seal ManifestStore.append_record
    ManifestStore.check_genesis ManifestStore.finish_publish ManifestStore.place
publish_run = refl

publish_manifest_record-Published_example : Published toy_hashes room manifest [] published.bytes
publish_manifest_record-Published_example =
    publish_manifest_record-Published toy_hashes memory_store room manifest memory_laws 1 empty
      published
      (ManifestWriteOutcome.verified_duplicate (manifest_stream toy_hashes room).physical 188)
      publish_run

validate_checkpoint_link_iff_example :
    (validate_checkpoint_link toy_hashes room 0 1 checkpoint ≡ ok tt)
    ↔ Linked toy_hashes room 0 1 checkpoint
validate_checkpoint_link_iff_example = validate_checkpoint_link_iff toy_hashes room 0 1 checkpoint
