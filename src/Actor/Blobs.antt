-- ===== src/Actor/Blobs.antt =====
-- src/actor.rs: the checks of updates, and the documents that they are imported into.
use quorum_loro_gateway.Prelude.{
  ℕ, Bool, ◌&&◌, String, List, [], ◌∷◌, ◌++◌, ◌==◌, length, Result, ok, err, ◌>>=◌, ◌>>◌, map_err,
  if◌then◌else◌,
}
use quorum_loro_gateway.Frame.{DeltaFrame, is_empty}
use quorum_loro_gateway.Loro.{
  LoroRoom, BlobMode, snapshot, updates, shallow_snapshot, outdated_snapshot, outdated_rle,
}
use quorum_loro_gateway.Actor.{InitializationFailure, corrupt}

-- `match metadata.mode`; a sole snapshot is allowed in an empty room.
unfoldable pub check_mode : Bool → BlobMode → Result String Unit
check_mode sole snapshot =
    if sole then ok tt else err "full snapshots are accepted only as the sole blob in an empty room"
check_mode sole updates = ok tt
check_mode sole shallow_snapshot = err "shallow snapshots are not supported"
check_mode sole outdated_snapshot = err "outdated Loro encodings are not supported"
check_mode sole outdated_rle = err "outdated Loro encodings are not supported"

module _ {Doc Version : Type 0} (room : LoroRoom Doc Version) where
  unfoldable pub check_blobs : Bool → List (List ℕ) → Result String Unit
  check_blobs sole [] = ok tt
  check_blobs sole ([] ∷ blobs) = err "DocUpdate contains an empty update"
  check_blobs sole ((b ∷ bs) ∷ blobs) = do
    mode ← room.blob_mode (b ∷ bs)
    check_mode sole mode
    check_blobs sole blobs

  unfoldable pub validate_update_blobs : List (List ℕ) → Bool → Result String Unit
  validate_update_blobs [] allow_snapshot = err "DocUpdate contains no updates"
  validate_update_blobs (u ∷ us) allow_snapshot =
      check_blobs (allow_snapshot && (length (u ∷ us) == 1)) (u ∷ us)

  -- `if updates.is_empty() { .. } else { import_batch(..) }`
  unfoldable pub import_updates : Doc → List (List ℕ) → Result String Doc
  import_updates doc [] = ok doc
  import_updates doc (u ∷ us) = room.loro.import_batch doc (u ∷ us)

  unfoldable pub build_candidate : Doc → List (List ℕ) → List (List ℕ) → Result String Doc
  build_candidate current_doc retained_history new_updates = do
    bytes ← room.loro.export_snapshot current_doc
    candidate ← room.loro.from_snapshot bytes
    import_updates candidate (retained_history ++ new_updates)

  unfoldable pub replay : List (List ℕ) → Result String Doc
  replay history = import_updates room.empty history

  -- `for frame in frames`: the updates of each frame behind those of the ones before.
  unfoldable pub extend_history :
      List (List ℕ) → List DeltaFrame → Result InitializationFailure (List (List ℕ))
  extend_history history [] = ok history
  extend_history history (f ∷ fs) = do
    map_err (validate_update_blobs f.updates (is_empty history))
        (λ message. record { state = corrupt; message = message })
    extend_history (history ++ f.updates) fs
