-- ===== src/Actor/Examples.antt =====
-- Runs of src/actor.rs on the samples.
use quorum_loro_gateway.Prelude.{ℕ, ◌≡◌, refl, true, false, List, [], ◌∷◌, bytes_eq, arith}
use quorum_loro_gateway.Hashes.{toy_hashes, toy_sha256, toy_crc32}
use quorum_loro_gateway.Bytes.{
  checked_add, checked_mul, checked_sub, try_from, saturating_u64, to_be, from_be, get_range?,
}
use quorum_loro_gateway.Cursor.{take_bytes, take_bytes_until, read_be}
use quorum_loro_gateway.Utf8.{is_utf8}
use quorum_loro_gateway.Frame.Decode as Decode
use quorum_loro_gateway.Actor as Actor
use quorum_loro_gateway.LoroProtocol.{UpdateStatusCode}
use quorum_loro_gateway.Actor.Append as Append
use quorum_loro_gateway.Actor.Verify as Verify
use quorum_loro_gateway.Actor.Blobs as Blobs
use quorum_loro_gateway.Actor.Update as Update
use quorum_loro_gateway.Actor.Operate as Operate
use quorum_loro_gateway.Actor.Initialize as Initialize
use quorum_loro_gateway.Actor.Sending as Sending
use quorum_loro_gateway.Frame as Frame
use quorum_loro_gateway.Store.Memory.{Memory, memory_laws}
use quorum_loro_gateway.Actor.{
  RoomLifecycle, ready, append_ambiguous, Texts, ActorConfig, Services, RoomActor, Command, join,
  update, wait_for_activation, is_ready, new,
}
use quorum_loro_gateway.Actor.Initialize.{activate}
use quorum_loro_gateway.Actor.Update.{Handled, Request, is_none, answer, on_update}
use quorum_loro_gateway.Actor.Operate.{retry_pending}
use quorum_loro_gateway.Actor.Commands.{handle_command}
use quorum_loro_gateway.Actor.Acked.{acks_ok, is_ok, Committed, on_update-Committed}
use quorum_loro_gateway.Actor.Refused.{Unchanged, on_update-Unchanged, handle_command-refuses}
use quorum_loro_gateway.Actor.Reachable.{activated_room, after, Reach-Consistent}
use quorum_loro_gateway.Actor.Consistent.{Consistent}
use quorum_loro_gateway.Protocol.{default_limits}
use quorum_loro_gateway.Server.{ServerConfig, Connection, room_update, contains}
use quorum_loro_gateway.Server.Arrivals.{handle_all}
use quorum_loro_gateway.Actor.Sending.{send_update, server_batch_id}
use quorum_loro_gateway.Actor.Fragmented.{Receives, delivered, send_update_reassembles}
use quorum_loro_gateway.Actor.Samples.{services, room, open_room, lossy}
use quorum_loro_gateway.Actor.Retried.{Reloaded, retry_pending-Reloaded}

abbrev request : Request
request = record {
  connection = 1;
  batch_id = 0 ∷ 0 ∷ 0 ∷ 0 ∷ 0 ∷ 0 ∷ 0 ∷ 7 ∷ [];
  updates = (5 ∷ 6 ∷ []) ∷ [];
  peer = 11;
}

acked : acks_ok (on_update (services 3) open_room 1 request lossy).emitted ≡ true
unfolding on_update Actor.contains_key new Update.try_update Blobs.validate_update_blobs
    Blobs.check_blobs Blobs.check_mode Blobs.build_candidate Blobs.import_updates
    Update.append_update Update.finish_update Actor.transition Actor.publish_status Frame.new
    Frame.update_digest toy_sha256 toy_crc32 Frame.encode_with_limits Frame.enforce_limit try_from
    Frame.update_lengths Frame.sum_lengths Frame.frame_total Frame.frame_fields Frame.seal to_be
    checked_add checked_mul saturating_u64 Append.resolve_append Append.attempt Append.on_append
    Append.on_duplicate checked_sub Verify.verify_duplicate_bytes Verify.frame_eq
    Decode.decode_exact Decode.decode_one_with_limits Decode.decode_header Decode.take_until
    Decode.take Decode.read_u16 Decode.read_u32 Decode.read_u64 Decode.read_lengths
    Decode.take_updates Decode.decode_producer Decode.decode_updates Decode.verify_trailer
    Decode.decode_fields from_be get_range? take_bytes take_bytes_until read_be is_utf8 bytes_eq
    Sending.broadcast Sending.send_updates Sending.send_update
acked = refl

on_update-Committed_example :
    Committed
      (services 3)
      memory_laws
      open_room
      request
      (on_update (services 3) open_room 1 request lossy)
on_update-Committed_example =
    on_update-Committed (services 3) memory_laws open_room 1 request lossy acked

-- Without a retry the outcome is unknown.
not_acked : acks_ok (on_update (services 0) open_room 1 request lossy).emitted ≡ false
unfolding on_update Actor.contains_key new Update.try_update Blobs.validate_update_blobs
    Blobs.check_blobs Blobs.check_mode Blobs.build_candidate Blobs.import_updates
    Update.append_update Update.finish_update Actor.transition Actor.publish_status Frame.new
    Frame.update_digest toy_sha256 toy_crc32 Frame.encode_with_limits Frame.enforce_limit try_from
    Frame.update_lengths Frame.sum_lengths Frame.frame_total Frame.frame_fields Frame.seal to_be
    checked_add checked_mul saturating_u64 Append.resolve_append Append.attempt Append.on_append
not_acked = refl

on_update-Unchanged_example :
    Unchanged (services 0) open_room request (on_update (services 0) open_room 1 request lossy)
on_update-Unchanged_example = on_update-Unchanged (services 0) open_room 1 request lossy not_acked

abbrev unknown_outcome : Handled (List ℕ) Memory
unknown_outcome = on_update (services 0) open_room 1 request lossy

retried : (retry_pending (services 3) unknown_outcome.actor unknown_outcome.service).1 ≡ true
unfolding on_update Actor.contains_key new Update.try_update Blobs.validate_update_blobs
    Blobs.check_blobs Blobs.check_mode Blobs.build_candidate Blobs.import_updates
    Update.append_update Update.finish_update Actor.transition Actor.publish_status Frame.new
    Frame.update_digest toy_sha256 toy_crc32 Frame.encode_with_limits Frame.enforce_limit try_from
    Frame.update_lengths Frame.sum_lengths Frame.frame_total Frame.frame_fields Frame.seal to_be
    checked_add checked_mul saturating_u64 Append.resolve_append Append.attempt Append.on_append
    Append.on_duplicate checked_sub Verify.verify_duplicate_bytes Verify.frame_eq
    Decode.decode_exact Decode.decode_one_with_limits Decode.decode_header Decode.take_until
    Decode.take Decode.read_u16 Decode.read_u32 Decode.read_u64 Decode.read_lengths
    Decode.take_updates Decode.decode_producer Decode.decode_updates Decode.verify_trailer
    Decode.decode_fields from_be get_range? take_bytes take_bytes_until read_be is_utf8 bytes_eq
    retry_pending Operate.finish_retry Operate.reconcile Initialize.load_from_store
    Initialize.load_bytes Initialize.replay_bytes Blobs.extend_history Blobs.replay
    Decode.decode_all_with_limits Decode.decode_frames Decode.decode_step
retried = refl

retry_pending-Reloaded_example :
    Reloaded
      (services 3)
      memory_laws
      unknown_outcome.actor
      (retry_pending (services 3) unknown_outcome.actor unknown_outcome.service).0
      (retry_pending (services 3) unknown_outcome.actor unknown_outcome.service).2
retry_pending-Reloaded_example =
    retry_pending-Reloaded (services 3) memory_laws unknown_outcome.actor unknown_outcome.service
      retried

abbrev unready_room : RoomActor (List ℕ)
unready_room = record open_room { lifecycle = append_ambiguous }

handle_command-refuses_example :
    (status : UpdateStatusCode) × (is_ok status ≡ false)
    × (handle_command
          (services 3)
          unready_room
          1
          (update 1 request.batch_id request.updates 11)
          lossy
        ≡ answer (services 3) unready_room 1 request status lossy)
handle_command-refuses_example =
    handle_command-refuses (services 3) unready_room 1 request lossy refl

Reach-Consistent_example :
    Consistent
      (handle_command
        (services 3)
        (activate (services 3) (new toy_hashes [] room (7 ∷ [])) lossy).0
        1
        (join 1 [] 11)
        lossy).actor
Reach-Consistent_example =
    Reach-Consistent (services 3)
      (after 1 (join 1 [] 11) lossy (activated_room room (7 ∷ []) lossy))

abbrev server_config : ServerConfig
server_config = record {
  protocol_limits = default_limits 1000;
  max_fragment_batches = 2;
  max_fragments_per_batch = 4;
  max_reassembled_bytes = 1000000;
  max_fragment_bytes_per_connection = 1000000;
  fragment_timeout_after = 10;
}

abbrev in_room : Connection
in_room = record { joined = room ∷ []; fragments = [] }

receives : Receives server_config room (server_batch_id 7) (5 ∷ 6 ∷ []) in_room
unfolding contains bytes_eq
receives = record { joined = refl; admits = λ large. absurd (omega arith) }

send_update_reassembles_example :
    (handle_all server_config (delivered 3 (send_update 7 11 room (5 ∷ 6 ∷ []))) in_room).1
    ≡ room_update room (server_batch_id 7) ((5 ∷ 6 ∷ []) ∷ []) ∷ []
send_update_reassembles_example =
    send_update_reassembles server_config 7 11 room (5 ∷ 6 ∷ []) 3 in_room receives
