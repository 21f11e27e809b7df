-- ===== src/Rotation.antt =====
-- src/rotation.rs: the checkpoint of a room is written, the next delta stream is opened, and the
-- manifest record that makes them current is published.
pub mod Linked
mod Examples
use quorum_loro_gateway.Prelude.{
  ℕ, true, false, Option, none, some, List, [], ◌∷◌, ◌==◌, Result, ok, err, guard, ok_or, map_err,
  if◌then◌else◌,
}
use quorum_loro_gateway.Bytes.{checked_add}
use quorum_loro_gateway.Hashes.{Hashes}
use quorum_loro_gateway.Loro.{Loro}
use quorum_loro_gateway.Manifest as Manifest
use quorum_loro_gateway.Manifest.{ManifestRecord, ManifestError}
use quorum_loro_gateway.Manifest.Decode.{decode_manifest_stream}
use quorum_loro_gateway.Manifest.Chain.{validate_manifest_chain}
use quorum_loro_gateway.Checkpoint as Checkpoint
use quorum_loro_gateway.Checkpoint.{CheckpointRecord, CheckpointError}
use quorum_loro_gateway.Checkpoint.Build.{CheckpointBuildError, build_checkpoint_record}
use quorum_loro_gateway.CheckpointStore.{CheckpointWriteError, persist_checkpoint}
use quorum_loro_gateway.ManifestStore.{ManifestWriteError, publish_manifest_record}
use quorum_loro_gateway.Names.{checked_next, manifest_stream, delta_stream_for_generation}
use quorum_loro_gateway.Store.{StoreError, Task, UrsulaStore, ◌>>=◌, ◌>>◌, pure_result, call}

pub data RotationError : Type 0 where
  checkpoint_build : CheckpointBuildError → RotationError
  checkpoint_encode : CheckpointError → RotationError
  checkpoint_write : CheckpointWriteError → RotationError
  manifest : ManifestError → RotationError
  manifest_write : ManifestWriteError → RotationError
  store_failed : StoreError → RotationError
  generation_overflow revision_overflow : RotationError
  next_delta_not_empty : ℕ → RotationError
  manifest_active_generation_mismatch : Option ℕ → ℕ → RotationError

pub record RotationResult : Type 0 where
  pub checkpoint : CheckpointRecord
  pub manifest : ManifestRecord
  pub next_delta_generation : ℕ
  pub next_delta_stream : List ℕ
  pub retained_history : List (List ℕ)

module _ (h : Hashes) where
  -- The position of the next record in a manifest stream that holds these bytes.
  unfoldable pub position_after : List ℕ → ℕ → List ℕ → Result RotationError (ℕ × List ℕ)
  position_after room_id current [] =
      if current == 0
      then ok (0, Manifest.genesis_digest)
      else err (manifest_active_generation_mismatch none current)
  position_after room_id current (b ∷ bs) =
      elim (map_err (decode_manifest_stream h (b ∷ bs) Manifest.default_limits)
        RotationError.manifest) [
          | err e ↦ err e
          | ok records ↦
              elim (map_err (validate_manifest_chain h room_id records) RotationError.manifest) [
                | err e ↦ err e
                | ok latest ↦ elim (latest.active_delta_generation == current) [
                  | false ↦ err (
                      manifest_active_generation_mismatch (some latest.active_delta_generation)
                        current)
                  | true ↦ elim (checked_add latest.revision 1) [
                    | none ↦ err revision_overflow
                    | some revision ↦ ok (revision, latest.digest)
                  ]
                ]
              ]
        ]

  module _ {S : Type 0} (store : UrsulaStore S) where
    unfoldable pub next_manifest_position : List ℕ → ℕ → Task S RotationError (ℕ × List ℕ)
    next_manifest_position room_id current = do
      call store_failed (store.ensure_stream (manifest_stream h room_id).physical)
      bytes ← call store_failed (store.read_all (manifest_stream h room_id).physical)
      pure_result (position_after room_id current bytes)

    -- The next delta stream exists and holds nothing.
    unfoldable pub open_next_delta : List ℕ → ℕ → Task S RotationError Unit
    open_next_delta room_id next = do
      call store_failed (store.ensure_stream (delta_stream_for_generation h room_id next).physical)
      bytes ←
          call store_failed (store.read_all (delta_stream_for_generation h room_id next).physical)
      pure_result (guard (Checkpoint.is_empty bytes) (next_delta_not_empty next))

    -- The record that makes the checkpoint and the next delta stream current.
    unfoldable pub publish_next : List ℕ → ℕ → ℕ → List ℕ → ℕ → Task S RotationError ManifestRecord
    publish_next room_id current next checkpoint_bytes retries = do
      (revision, previous) ← next_manifest_position room_id current
      r ← pure_result (
          map_err (Manifest.new h room_id revision previous current checkpoint_bytes next)
            RotationError.manifest)
      _ ← call manifest_write (publish_manifest_record h store room_id r retries)
      pure_result (ok r)

    unfoldable pub rotate_room :
        {Doc : Type 0}
        → Loro Doc
        → List ℕ
        → ℕ
        → ℕ
        → Doc
        → List (List ℕ)
        → ℕ
        → Task S RotationError RotationResult
    rotate_room loro room_id current end_offset doc history retries = do
      next ← pure_result (ok_or (checked_next current) generation_overflow)
      c ← pure_result (
          map_err (build_checkpoint_record loro h room_id current current end_offset doc history)
            checkpoint_build)
      bytes ← pure_result (map_err (Checkpoint.encode h c) checkpoint_encode)
      _ ← call checkpoint_write (persist_checkpoint h store room_id current c retries)
      open_next_delta room_id next
      r ← publish_next room_id current next bytes retries
      pure_result (
          ok (record {
            checkpoint = c;
            manifest = r;
            next_delta_generation = next;
            next_delta_stream = (delta_stream_for_generation h room_id next).physical;
            retained_history = c.pending_updates;
          }))
