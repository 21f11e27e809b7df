-- ===== src/Actor/Operate.antt =====
-- src/actor.rs, `rotate_generation` and `retry_pending`.
use quorum_loro_gateway.Prelude.{
  ℕ, Bool, true, false, ◌&&◌, none, some, String, List, if◌then◌else◌, Result, ok, err,
}
use quorum_loro_gateway.Bytes.{checked_add}
use quorum_loro_gateway.Names.{producer_id_for_generation}
use quorum_loro_gateway.Rotation.{RotationError, RotationResult, rotate_room}
use quorum_loro_gateway.Actor.{
  RoomLifecycle, ready, append_ambiguous, unavailable, is_ready, PendingAppend, DurableAppend,
  AppendFailure, definitely_rejected, outcome_unknown, Services, RoomActor, publish_status,
  transition,
}
use quorum_loro_gateway.Actor.Append.{resolve_append}
use quorum_loro_gateway.Actor.Initialize.{Loaded, load_from_store}
use quorum_loro_gateway.Actor.Update.{is_none}

module _ {Doc Version S : Type 0} (services : Services Doc Version S) where
  unfoldable pub adopt_rotation : RoomActor Doc → RotationResult → RoomActor Doc
  adopt_rotation r rotated =
      transition
        (record r {
          stream = rotated.next_delta_stream;
          active_delta_generation = rotated.next_delta_generation;
          active_delta_end_offset = 0;
          producer_id =
              producer_id_for_generation services.hashes r.boot_id r.room_id
                rotated.next_delta_generation;
          producer_sequence = 0;
          history = rotated.retained_history;
        })
        ready none

  unfoldable pub finish_rotation :
      RoomActor Doc → Result RotationError RotationResult × S → RoomActor Doc × Bool × S
  finish_rotation r (err error, s) =
      (transition r unavailable (some (services.texts.rotation_text error)), false, s)
  finish_rotation r (ok rotated, s) = (adopt_rotation r rotated, true, s)

  unfoldable pub rotate_generation : RoomActor Doc → S → RoomActor Doc × Bool × S
  rotate_generation r s =
      if is_ready r.lifecycle && is_none r.blocked
      then finish_rotation r (
          rotate_room services.hashes services.store services.room.loro r.room_id
            r.active_delta_generation r.active_delta_end_offset r.doc r.history
            services.config.ambiguous_retries s)
      else (r, false, s)

  -- The append is blocked once more.
  abbrev pub block_again : RoomActor Doc → PendingAppend → RoomLifecycle → String → RoomActor Doc
  block_again r pending state message =
      transition (record r { blocked = some pending }) state (some message)

  -- The reloaded history and document are taken over.
  unfoldable pub reconcile :
      PendingAppend → Loaded services (List (List ℕ) × Doc) → RoomActor Doc × Bool × S
  reconcile pending (r, err failure, s) =
      (block_again r pending failure.state failure.message, false, s)
  reconcile pending (r, ok (history, doc), s) = elim (checked_add pending.producer.sequence 1) [
    | none ↦ (
      block_again r pending unavailable "producer sequence exhausted during reconciliation",
      false,
      s,
    )
    | some next ↦ (
      transition (record r { producer_sequence = next; history = history; doc = doc }) ready none,
      true,
      s,
    )
  ]

  unfoldable pub finish_retry :
      RoomActor Doc
      → PendingAppend
      → Result AppendFailure DurableAppend × S
      → RoomActor Doc × Bool × S
  finish_retry r pending (ok proof, s) = reconcile pending (load_from_store services r s)
  finish_retry r pending (err (definitely_rejected kind message), s) =
      (block_again r pending unavailable (services.texts.retry_rejected kind message), false, s)
  finish_retry r pending (err (outcome_unknown error), s) =
      (block_again r pending append_ambiguous (services.texts.store_text error), false, s)

  unfoldable pub retry_pending : RoomActor Doc → S → RoomActor Doc × Bool × S
  retry_pending r s = elim r.blocked [
    | none ↦ (r, false, s)
    | some pending ↦
        finish_retry (publish_status (record r { blocked = none })) pending
          (resolve_append services pending s)
  ]
