-- ===== src/Rotation/Examples.antt =====
-- A rotation of the first generation, on a store that keeps several streams.
use quorum_loro_gateway.Prelude.{
  ℕ, ◌≡◌, refl, List, [], ◌∷◌, ◌++◌, bytes_eq, length, drop, take, if◌then◌else◌, Result, ok, err,
}
use quorum_loro_gateway.Bytes.{
  try_from, checked_add, checked_sub, checked_mul, to_be, from_be, saturating_u64,
}
use quorum_loro_gateway.Hashes.{toy_hashes, toy_sha256, toy_crc32}
use quorum_loro_gateway.Loro.{Loro}
use quorum_loro_gateway.Names as Names
use quorum_loro_gateway.Names.{checked_next, delta_stream_for_generation}
use quorum_loro_gateway.Manifest as Manifest
use quorum_loro_gateway.Manifest.{ManifestRecord}
use quorum_loro_gateway.Manifest.Chain.{check_first, check_links, validate_manifest_chain}
use quorum_loro_gateway.Checkpoint as Checkpoint
use quorum_loro_gateway.Checkpoint.{CheckpointRecord}
use quorum_loro_gateway.Checkpoint.Build.{
  build_checkpoint_record, pending_of, is_pending, import_pending,
}
use quorum_loro_gateway.ExactAppend.{append_exact_with_retry, attempt, on_append}
use quorum_loro_gateway.CheckpointStore as CheckpointStore
use quorum_loro_gateway.CheckpointStore.{persist_checkpoint}
use quorum_loro_gateway.ManifestStore as ManifestStore
use quorum_loro_gateway.ManifestStore.{publish_manifest_record}
use quorum_loro_gateway.Store.{committed, UrsulaStore}
use quorum_loro_gateway.Rotation.{
  RotationResult, position_after, next_manifest_position, open_next_delta, publish_next,
  rotate_room,
}
use quorum_loro_gateway.Rotation.Linked.{Recoverable, rotate_room-Recoverable}

-- The streams by their names.
abbrev Shelf : Type 0
Shelf = List (List ℕ × List ℕ)

abbrev bytes_of : Shelf → List ℕ → List ℕ
bytes_of [] stream = []
bytes_of ((name, bytes) ∷ shelf) stream =
    if bytes_eq name stream then bytes else bytes_of shelf stream

abbrev shelf_store : UrsulaStore Shelf
shelf_store = record {
  ensure_stream = λ stream s. (ok tt, s);
  read_all = λ stream s. (ok (bytes_of s stream), s);
  read_range = λ stream offset n s. (ok (take n (drop offset (bytes_of s stream))), s);
  append = λ stream p body s. (
    ok (committed (length (bytes_of s stream ++ body))),
    (stream, bytes_of s stream ++ body) ∷ s,
  );
}

-- A document is the bytes of its updates; an update of one byte stays pending.
abbrev document : Loro (List ℕ)
document = record {
  export_snapshot = λ doc. ok doc;
  from_snapshot = λ bytes. ok bytes;
  import = λ doc bytes. ok (Checkpoint.is_empty (drop 1 bytes), doc ++ bytes);
  import_batch = λ doc updates. ok doc;
  same_deep_value = λ a b. bytes_eq a b;
  same_oplog_vv = λ a b. bytes_eq a b;
}

abbrev room : List ℕ
room = 100 ∷ 49 ∷ []

abbrev history : List (List ℕ)
history = (5 ∷ 6 ∷ []) ∷ (3 ∷ []) ∷ []

abbrev checkpoint : CheckpointRecord
checkpoint = Checkpoint.new toy_hashes room 0 0 9 (5 ∷ 6 ∷ []) ((3 ∷ []) ∷ [])

abbrev checkpoint_bytes : Result Checkpoint.CheckpointError (List ℕ) → List ℕ
checkpoint_bytes (ok bytes) = bytes
checkpoint_bytes (err e) = []

abbrev rotated : RotationResult
rotated = record {
  checkpoint = checkpoint;
  manifest = Manifest.with_digest toy_hashes (record {
    room_hash = Manifest.room_hash toy_hashes room;
    revision = 0;
    previous_record_digest = Manifest.genesis_digest;
    checkpoint_generation = 0;
    checkpoint_stream_end_offset = 135;
    checkpoint_record_digest =
        Manifest.checkpoint_record_digest toy_hashes
          (checkpoint_bytes (Checkpoint.encode toy_hashes checkpoint));
    active_delta_generation = 1;
    digest = [];
  });
  next_delta_generation = 1;
  next_delta_stream = (delta_stream_for_generation toy_hashes room 1).physical;
  retained_history = (3 ∷ []) ∷ [];
}

-- How the run ends.
abbrev shelf : Shelf
shelf = (rotate_room toy_hashes shelf_store document room 0 9 (5 ∷ 6 ∷ []) history 1 []).1

rotation_run :
    rotate_room toy_hashes shelf_store document room 0 9 (5 ∷ 6 ∷ []) history 1 []
    ≡ (ok rotated, shelf)
unfolding rotate_room open_next_delta publish_next next_manifest_position position_after
    checked_next Names.hex Names.decimal Names.document_hash Names.manifest_stream
    delta_stream_for_generation Names.checkpoint_stream build_checkpoint_record pending_of
    is_pending import_pending persist_checkpoint CheckpointStore.check_record
    Checkpoint.belongs_to_room bytes_eq Checkpoint.new Checkpoint.room_hash toy_sha256 toy_crc32
    to_be from_be Checkpoint.encode Checkpoint.encode_with_limits Checkpoint.enforce_limit try_from
    Checkpoint.pending_lengths Checkpoint.sum_pending checked_add checked_mul
    Checkpoint.checkpoint_digest checked_sub saturating_u64 Checkpoint.digest_input
    Checkpoint.record_fields Checkpoint.seal CheckpointStore.persist_bytes CheckpointStore.write_new
    append_exact_with_retry attempt on_append Manifest.new Manifest.belongs_to_room
    Manifest.with_digest Manifest.room_hash ManifestStore.encode Manifest.encode_with_limits
    Manifest.enforce_limit Manifest.validate_record_fields Manifest.validate_previous_digest
    Manifest.validate_generation_pair Manifest.manifest_digest Manifest.checkpoint_record_digest
    check_first check_links validate_manifest_chain Manifest.record_fields Manifest.seal
    ManifestStore.append_record ManifestStore.check_genesis ManifestStore.finish_publish
    ManifestStore.place publish_manifest_record CheckpointStore.on_existing
rotation_run = refl

rotate_room-Recoverable_example : Recoverable toy_hashes room 0 9 rotated
rotate_room-Recoverable_example =
    rotate_room-Recoverable toy_hashes shelf_store room document 0 9 (5 ∷ 6 ∷ []) history 1 [] shelf
      rotated rotation_run
