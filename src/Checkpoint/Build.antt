-- ===== src/Checkpoint/Build.antt =====
-- src/checkpoint.rs: `build_checkpoint_record`, over the operations of the document.
use quorum_loro_gateway.Prelude.{
  ℕ, Bool, ◌&&◌, String, List, [], ◌∷◌, if◌then◌else◌, Result, ok, ◌>>=◌, ◌>>◌, guard, map_err,
}
use quorum_loro_gateway.Hashes.{Hashes}
use quorum_loro_gateway.Loro.{Loro}
use quorum_loro_gateway.Checkpoint.{CheckpointRecord, new}

pub data CheckpointBuildError : Type 0 where
  snapshot_export snapshot_restore history_import validation : String → CheckpointBuildError

module _ {Doc : Type 0} (loro : Loro Doc) where
  -- Whether an update stays pending on a document made from the snapshot.
  unfoldable pub is_pending : List ℕ → List ℕ → Result CheckpointBuildError Bool
  is_pending snapshot update = do
    probe ← map_err (loro.from_snapshot snapshot) snapshot_restore
    (pending, _) ← map_err (loro.import probe update) history_import
    ok pending

  -- `for update in history`: those that stay pending, in order.
  unfoldable pub pending_of : List ℕ → List (List ℕ) → Result CheckpointBuildError (List (List ℕ))
  pending_of snapshot [] = ok []
  pending_of snapshot (update ∷ history) = do
    pending ← is_pending snapshot update
    rest ← pending_of snapshot history
    ok (if pending then update ∷ rest else rest)

  unfoldable pub import_pending : Doc → List (List ℕ) → Result CheckpointBuildError Doc
  import_pending doc [] = ok doc
  import_pending doc (u ∷ us) = map_err (loro.import_batch doc (u ∷ us)) history_import

  unfoldable pub build_checkpoint_record :
      Hashes
      → List ℕ
      → ℕ
      → ℕ
      → ℕ
      → Doc
      → List (List ℕ)
      → Result CheckpointBuildError CheckpointRecord
  build_checkpoint_record h room_id checkpoint_generation source_generation source_end doc history =
      do
        snapshot ← map_err (loro.export_snapshot doc) snapshot_export
        pending_updates ← pending_of snapshot history
        restored ← map_err (loro.from_snapshot snapshot) snapshot_restore
        recovered ← import_pending restored pending_updates
        guard (loro.same_deep_value recovered doc && loro.same_oplog_vv recovered doc)
            (validation "snapshot plus retained updates does not reconstruct the live document")
        ok (
            new h room_id checkpoint_generation source_generation source_end snapshot
              pending_updates)
