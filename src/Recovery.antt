-- ===== src/Recovery.antt =====
-- src/recovery.rs: the state of a room from its manifest, its latest checkpoint and its active delta
-- stream.
pub mod Link
use quorum_loro_gateway.Prelude.{
  ℕ, not, Option, none, some, String, List, [], ◌∷◌, ◌++◌, ◌==◌, leb, drop, length, Result, ok, err,
  guard, ok_or, map_err, if◌then◌else◌,
}
use quorum_loro_gateway.Bytes.{u64_mod, checked_add, try_from}
use quorum_loro_gateway.Hashes.{Hashes}
use quorum_loro_gateway.Loro.{Loro}
use quorum_loro_gateway.Frame.{FrameLimits, DeltaFrame, FrameError}
use quorum_loro_gateway.Frame.Decode.{decode_all_with_limits}
use quorum_loro_gateway.Manifest as Manifest
use quorum_loro_gateway.Manifest.{ManifestRecord, ManifestError, verifies_checkpoint_bytes}
use quorum_loro_gateway.Manifest.Decode.{decode_manifest_stream}
use quorum_loro_gateway.Manifest.Chain.{validate_manifest_chain}
use quorum_loro_gateway.Checkpoint as Checkpoint
use quorum_loro_gateway.Checkpoint.{CheckpointRecord, CheckpointError, belongs_to_room}
use quorum_loro_gateway.Checkpoint.Decode as CheckpointDecode
use quorum_loro_gateway.Names.{manifest_stream, checkpoint_stream, delta_stream_for_generation}
use quorum_loro_gateway.Store.{StoreError, Task, UrsulaStore, ◌>>=◌, ◌>>◌, pure_result, call}

pub data RecoveryError : Type 0 where
  store_failed : StoreError → RecoveryError
  manifest : ManifestError → RecoveryError
  checkpoint : CheckpointError → RecoveryError
  frame : FrameError → RecoveryError
  missing_checkpoint : ℕ → RecoveryError
  checkpoint_manifest_mismatch wrong_checkpoint_room : RecoveryError
  checkpoint_generation_mismatch checkpoint_source_mismatch : ℕ → ℕ → RecoveryError
  active_delta_generation_mismatch : ℕ → ℕ → RecoveryError
  generation_overflow length_overflow history_range : RecoveryError
  loro_failed : String → RecoveryError

pub record ManifestRecovery (Doc : Type 0) : Type 0 where
  pub doc : Doc
  pub history : List (List ℕ)
  pub checkpoint_generation : ℕ
  pub active_delta_generation : ℕ
  pub active_delta_stream : List ℕ
  pub active_delta_end_offset : ℕ
  pub recovered_checkpoint_bytes : ℕ
  pub recovered_delta_bytes : ℕ

-- `history.extend(frame.updates)` for each frame.
unfoldable pub updates_of : List DeltaFrame → List (List ℕ)
updates_of [] = []
updates_of (f ∷ fs) = f.updates ++ updates_of fs

-- `history.get(snapshot_pending_count..)`
unfoldable pub active_updates : ℕ → List (List ℕ) → Result RecoveryError (List (List ℕ))
active_updates pending_count history =
    if leb pending_count (length history)
    then ok (drop pending_count history)
    else err history_range

module _ (h : Hashes) where
  unfoldable pub validate_checkpoint_link :
      List ℕ → ℕ → ℕ → CheckpointRecord → Result RecoveryError Unit
  validate_checkpoint_link room_id manifest_checkpoint manifest_active c =
      if belongs_to_room h c room_id
      then (if c.checkpoint_generation == manifest_checkpoint
          then (if c.source_delta_generation == c.checkpoint_generation
              then elim (checked_add c.checkpoint_generation 1) [
                | none ↦ err generation_overflow
                | some expected ↦
                    guard (manifest_active == expected)
                      (active_delta_generation_mismatch expected manifest_active)
              ]
              else err
                  (checkpoint_source_mismatch c.checkpoint_generation c.source_delta_generation))
          else err (checkpoint_generation_mismatch manifest_checkpoint c.checkpoint_generation))
      else err wrong_checkpoint_room

  module _ {Doc : Type 0} (loro : Loro Doc) where
    -- `if !updates.is_empty() { doc.import_batch(..) }`
    unfoldable pub import_updates : Doc → List (List ℕ) → Result RecoveryError Doc
    import_updates doc [] = ok doc
    import_updates doc (u ∷ us) = map_err (loro.import_batch doc (u ∷ us)) loro_failed

    module _ {S : Type 0} (store : UrsulaStore S) where
      -- The checkpoint that the latest record names, and its number of bytes.
      unfoldable pub read_checkpoint :
          List ℕ → ManifestRecord → Task S RecoveryError (CheckpointRecord × ℕ)
      read_checkpoint room_id latest = do
        bytes ←
            call store_failed
              (store.read_all (checkpoint_stream h room_id latest.checkpoint_generation).physical)
        pure_result (
            guard (not (Checkpoint.is_empty bytes))
              (missing_checkpoint latest.checkpoint_generation))
        pure_result (guard (verifies_checkpoint_bytes h latest bytes) checkpoint_manifest_mismatch)
        c ←
            pure_result
              (map_err (CheckpointDecode.decode_exact h bytes Checkpoint.default_limits) checkpoint)
        pure_result (
            validate_checkpoint_link room_id latest.checkpoint_generation
              latest.active_delta_generation c)
        pure_result (ok (c, length bytes))

      -- The document of the checkpoint, and then the active delta stream on top of it.
      unfoldable pub replay :
          List ℕ
          → FrameLimits
          → ManifestRecord
          → CheckpointRecord × ℕ
          → Task S RecoveryError (ManifestRecovery Doc)
      replay room_id limits latest (c, checkpoint_len) = do
        restored ← pure_result (map_err (loro.from_snapshot c.snapshot) loro_failed)
        doc ← pure_result (import_updates restored c.pending_updates)
        delta_bytes ← call store_failed (
            store.read_all
              (delta_stream_for_generation h room_id latest.active_delta_generation).physical)
        frames ← pure_result (map_err (decode_all_with_limits h delta_bytes limits) frame)
        active ←
            pure_result
              (active_updates (length c.pending_updates) (c.pending_updates ++ updates_of frames))
        doc' ← pure_result (import_updates doc active)
        end_offset ← pure_result (ok_or (try_from u64_mod (length delta_bytes)) length_overflow)
        pure_result (
            ok (record {
              doc = doc';
              history = c.pending_updates ++ updates_of frames;
              checkpoint_generation = latest.checkpoint_generation;
              active_delta_generation = latest.active_delta_generation;
              active_delta_stream =
                  (delta_stream_for_generation h room_id latest.active_delta_generation).physical;
              active_delta_end_offset = end_offset;
              recovered_checkpoint_bytes = checkpoint_len;
              recovered_delta_bytes = length delta_bytes;
            }))

      unfoldable pub recover_records :
          List ℕ → FrameLimits → List ℕ → Task S RecoveryError (Option (ManifestRecovery Doc))
      recover_records room_id limits [] = pure_result (ok none)
      recover_records room_id limits (b ∷ bs) = do
        records ←
            pure_result
              (map_err (decode_manifest_stream h (b ∷ bs) Manifest.default_limits) manifest)
        latest ← pure_result (map_err (validate_manifest_chain h room_id records) manifest)
        c ← read_checkpoint room_id latest
        recovery ← replay room_id limits latest c
        pure_result (ok (some recovery))

      unfoldable pub recover_from_manifest :
          List ℕ → FrameLimits → Task S RecoveryError (Option (ManifestRecovery Doc))
      recover_from_manifest room_id limits = do
        call store_failed (store.ensure_stream (manifest_stream h room_id).physical)
        bytes ← call store_failed (store.read_all (manifest_stream h room_id).physical)
        recover_records room_id limits bytes
