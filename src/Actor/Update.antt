-- ===== src/Actor/Update.antt =====
-- src/actor.rs, `update`: an update is checked, tried on a copy of the document, appended, and only
-- then taken over and passed on.
use quorum_loro_gateway.Prelude.{
  ℕ, Bool, true, false, ◌&&◌, Option, none, some, List, [], ◌∷◌, ◌++◌, if◌then◌else◌, Result, ok,
  err,
}
use quorum_loro_gateway.Bytes.{checked_add}
use quorum_loro_gateway.Frame as Frame
use quorum_loro_gateway.Frame.{ProducerTuple, DeltaFrame, encode_with_limits, is_empty}
use quorum_loro_gateway.LoroProtocol.{
  UpdateStatusCode, unknown, permission_denied, invalid_update, payload_too_large, rate_limited,
  app_error,
}
use quorum_loro_gateway.Store.{RejectionKind}
use quorum_loro_gateway.Actor.{
  ready, append_ambiguous, is_ready, PendingAppend, DurableAppend, next_offset, AppendFailure,
  definitely_rejected, outcome_unknown, Emission, Services, RoomActor, contains_key, transition,
}
use quorum_loro_gateway.Actor.Append.{resolve_append}
use quorum_loro_gateway.Actor.Blobs.{validate_update_blobs, build_candidate}
use quorum_loro_gateway.Actor.Sending.{send_ack, send_room_error, broadcast}

-- The status of an append that was definitely rejected.
abbrev pub status_of_rejection : RejectionKind → UpdateStatusCode
status_of_rejection RejectionKind.permission_denied = permission_denied
status_of_rejection RejectionKind.payload_too_large = payload_too_large
status_of_rejection RejectionKind.rate_limited = rate_limited
status_of_rejection RejectionKind.invalid = invalid_update
status_of_rejection RejectionKind.not_found = app_error
status_of_rejection RejectionKind.conflict = app_error
status_of_rejection RejectionKind.unsupported = app_error
status_of_rejection RejectionKind.other = app_error

abbrev pub is_none : Option PendingAppend → Bool
is_none none = true
is_none (some pending) = false

-- What a handler leaves: the actor, the counter of batches, what was emitted, and the service.
pub record Handled (Doc S : Type 0) : Type 0 where
  pub actor : RoomActor Doc
  pub counter : ℕ
  pub emitted : List Emission
  pub service : S

-- The command of a client's update.
pub record Request : Type 0 where
  pub connection : ℕ
  pub batch_id : List ℕ
  pub updates : List (List ℕ)
  pub peer : ℕ

module _ {Doc Version S : Type 0} (services : Services Doc Version S) where
  abbrev pub answer : RoomActor Doc → ℕ → Request → UpdateStatusCode → S → Handled Doc S
  answer r counter q status s = record {
    actor = r;
    counter = counter;
    emitted = send_ack q.peer r.room_id q.batch_id status ∷ [];
    service = s;
  }

  -- The room after a durable append.
  abbrev pub commit_update : RoomActor Doc → Request → ℕ → Doc → DurableAppend → RoomActor Doc
  commit_update r q next candidate proof =
      transition
        (record r {
          producer_sequence = next;
          active_delta_end_offset = next_offset proof;
          history = r.history ++ q.updates;
          doc = candidate;
        })
        ready none

  -- The `match` on the result of `resolve_append`.
  unfoldable pub finish_update :
      RoomActor Doc
      → ℕ
      → Request
      → ℕ
      → Doc
      → PendingAppend
      → Result AppendFailure DurableAppend × S
      → Handled Doc S
  finish_update r counter q next candidate pending (ok proof, s) =
      let r' = commit_update r q next candidate proof in
      let (after, sent) = broadcast counter q.connection r'.room_id q.updates r'.peers in
      record {
        actor = r';
        counter = after;
        emitted = sent ++ send_ack q.peer r'.room_id q.batch_id UpdateStatusCode.ok ∷ [];
        service = s;
      }
  finish_update r counter q next candidate pending (err (definitely_rejected kind message), s) =
      answer r counter q (status_of_rejection kind) s
  finish_update r counter q next candidate pending (err (outcome_unknown error), s) =
      let message = services.texts.store_text error in
      let r' = transition (record r { blocked = some pending }) append_ambiguous (some message) in
      record {
        actor = r';
        counter = counter;
        emitted =
            send_ack q.peer r'.room_id q.batch_id unknown
            ∷ send_room_error q.peer r'.room_id message
            ∷ [];
        service = s;
      }

  abbrev pub producer_of : RoomActor Doc → ProducerTuple
  producer_of r = record { id = r.producer_id; epoch = 0; sequence = r.producer_sequence }

  abbrev pub pending_of : RoomActor Doc → Request → List ℕ → PendingAppend
  pending_of r q bytes = record {
    target_stream = r.stream;
    producer = producer_of r;
    frame = Frame.new services.hashes (producer_of r) q.batch_id q.updates;
    bytes = bytes;
  }

  -- From the candidate on: the sequence, the frame and its append.
  unfoldable pub append_update : RoomActor Doc → ℕ → Request → Doc → S → Handled Doc S
  append_update r counter q candidate s = elim (checked_add r.producer_sequence 1) [
    | none ↦ answer r counter q app_error s
    | some next ↦
        elim (encode_with_limits services.hashes
          (Frame.new services.hashes (producer_of r) q.batch_id q.updates)
          services.config.frame_limits) [
            | err error ↦ answer r counter q payload_too_large s
            | ok bytes ↦
                finish_update r counter q next candidate (pending_of r q bytes)
                  (resolve_append services (pending_of r q bytes) s)
          ]
  ]

  -- From the checks of the updates on.
  unfoldable pub try_update : RoomActor Doc → ℕ → Request → S → Handled Doc S
  try_update r counter q s =
      elim (validate_update_blobs services.room q.updates (is_empty r.history)) [
        | err error ↦ answer r counter q invalid_update s
        | ok tt ↦ elim (build_candidate services.room r.doc r.history q.updates) [
          | err error ↦ answer r counter q invalid_update s
          | ok candidate ↦ append_update r counter q candidate s
        ]
      ]

  unfoldable pub on_update : RoomActor Doc → ℕ → Request → S → Handled Doc S
  on_update r counter q s =
      if contains_key r.peers q.connection
      then (if is_ready r.lifecycle && is_none r.blocked
          then try_update r counter q s
          else answer r counter q rate_limited s)
      else answer r counter q permission_denied s
