-- ===== src/Actor/Initialize.antt =====
-- src/actor.rs, `initialize` and `load_from_store`: the state of a room from the manifest, or from
-- all of its delta stream.
use quorum_loro_gateway.Prelude.{ℕ, ◌+◌, Option, none, some, List, [], length, Result, ok, err}
use quorum_loro_gateway.Bytes.{u64_mod, try_from, saturating_u64}
use quorum_loro_gateway.Frame.Decode.{decode_all_with_limits}
use quorum_loro_gateway.Names.{producer_id_for_generation}
use quorum_loro_gateway.Recovery.{
  RecoveryError, store_failed, ManifestRecovery, recover_from_manifest,
}
use quorum_loro_gateway.Store.{StoreError, ambiguous, rejected, integrity}
use quorum_loro_gateway.Actor.{
  RoomLifecycle, ready, corrupt, unavailable, Texts, InitializationFailure, Services, RoomActor,
  transition,
}
use quorum_loro_gateway.Actor.Blobs.{extend_history, replay}

abbrev pub state_of_store_error : StoreError → RoomLifecycle
state_of_store_error (integrity message) = corrupt
state_of_store_error (ambiguous message) = unavailable
state_of_store_error (rejected kind message) = unavailable

unfoldable pub initialization_store_failure : Texts → StoreError → InitializationFailure
initialization_store_failure texts error = record {
  state = state_of_store_error error;
  message = texts.store_text error;
}

abbrev pub state_of_recovery_error : RecoveryError → RoomLifecycle
state_of_recovery_error (store_failed error) = state_of_store_error error
state_of_recovery_error other = corrupt

unfoldable pub manifest_recovery_failure : Texts → RecoveryError → InitializationFailure
manifest_recovery_failure texts error = record {
  state = state_of_recovery_error error;
  message = texts.recovery_text error;
}

module _ {Doc Version S : Type 0} (services : Services Doc Version S) where
  -- The actor keeps what was assigned before a failure.
  abbrev pub Loaded : Type 0 → Type 0
  Loaded A = RoomActor Doc × Result InitializationFailure A × S

  -- The frames of the bytes, their updates and the document of those.
  unfoldable pub replay_bytes : RoomActor Doc → S → List ℕ → Loaded (List (List ℕ) × Doc)
  replay_bytes r s bytes =
      elim (decode_all_with_limits services.hashes bytes services.config.frame_limits) [
        | err error ↦
            (r, err (record { state = corrupt; message = services.texts.frame_text error }), s)
        | ok frames ↦ elim (extend_history services.room [] frames) [
          | err failure ↦ (r, err failure, s)
          | ok history ↦ elim (replay services.room history) [
            | err message ↦ (r, err (record { state = corrupt; message = message }), s)
            | ok doc ↦ (
              record r {
                recovered_stream_bytes = length bytes;
                recovered_update_count = length history;
              },
              ok (history, doc),
              s,
            )
          ]
        ]
      ]

  unfoldable pub load_bytes :
      RoomActor Doc → Result StoreError (List ℕ) × S → Loaded (List (List ℕ) × Doc)
  load_bytes r (err error, s) = (r, err (initialization_store_failure services.texts error), s)
  load_bytes r (ok bytes, s) = elim (try_from u64_mod (length bytes)) [
    | none ↦
        (r, err (record { state = corrupt; message = "delta stream length does not fit u64" }), s)
    | some end_offset ↦ replay_bytes (record r { active_delta_end_offset = end_offset }) s bytes
  ]

  unfoldable pub load_from_store : RoomActor Doc → S → Loaded (List (List ℕ) × Doc)
  load_from_store r s = load_bytes r (services.store.read_all r.stream s)

  abbrev pub take_history : Loaded (List (List ℕ) × Doc) → Loaded Unit
  take_history (r, ok (history, doc), s) = (record r { history = history; doc = doc }, ok tt, s)
  take_history (r, err failure, s) = (r, err failure, s)

  -- No manifest: the whole delta stream.
  unfoldable pub initialize_legacy : RoomActor Doc → Result StoreError Unit × S → Loaded Unit
  initialize_legacy r (err error, s) =
      (r, err (initialization_store_failure services.texts error), s)
  initialize_legacy r (ok tt, s) = take_history (load_from_store r s)

  unfoldable pub adopt_recovery : RoomActor Doc → ManifestRecovery Doc → RoomActor Doc
  adopt_recovery r recovered = record r {
    stream = recovered.active_delta_stream;
    active_delta_generation = recovered.active_delta_generation;
    active_delta_end_offset = recovered.active_delta_end_offset;
    producer_id =
        producer_id_for_generation services.hashes r.boot_id r.room_id
          recovered.active_delta_generation;
    producer_sequence = 0;
    history = recovered.history;
    doc = recovered.doc;
    recovered_stream_bytes =
        saturating_u64 (recovered.recovered_checkpoint_bytes + recovered.recovered_delta_bytes);
    recovered_update_count = length recovered.history;
  }

  unfoldable pub initialize_from :
      RoomActor Doc → Result RecoveryError (Option (ManifestRecovery Doc)) × S → Loaded Unit
  initialize_from r (err error, s) = (r, err (manifest_recovery_failure services.texts error), s)
  initialize_from r (ok (some recovered), s) = (adopt_recovery r recovered, ok tt, s)
  initialize_from r (ok none, s) = initialize_legacy r (services.store.ensure_stream r.stream s)

  unfoldable pub initialize : RoomActor Doc → S → Loaded Unit
  initialize r s = initialize_from r (
      recover_from_manifest services.hashes services.room.loro services.store r.room_id
        services.config.frame_limits s)

  abbrev pub settle : Loaded Unit → RoomActor Doc × S
  settle (r, ok tt, s) = (transition r ready none, s)
  settle (r, err failure, s) = (transition r failure.state (some failure.message), s)

  -- The head of `run`.
  unfoldable pub activate : RoomActor Doc → S → RoomActor Doc × S
  activate r s = settle (initialize r s)
