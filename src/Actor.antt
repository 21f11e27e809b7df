-- ===== src/Actor.antt =====
-- src/actor.rs: the actor of one room. A command's handler takes the actor and returns it with what
-- it emits, in order; one that calls the store takes and returns the state of the service too. A
-- channel is a number, and the counter of the server's batches is threaded.
pub mod Verify
pub mod Append
pub mod Blobs
pub mod Sending
pub mod Initialize
pub mod Update
pub mod Operate
pub mod Commands
pub mod Durable
pub mod Acked
pub mod Refused
pub mod Consistent
pub mod Loads
pub mod Retried
pub mod Fragmented
pub mod Samples
mod Examples
pub mod Reachable
use quorum_loro_gateway.Prelude.{
  ℕ, zero, suc, ◌+◌, Bool, true, false, Option, none, some, String, List, [], ◌∷◌, if◌then◌else◌,
  length, ◌==◌,
}
use mathlib.Core.Option
use quorum_loro_gateway.Hashes.{Hashes}
use quorum_loro_gateway.Frame as Frame
use quorum_loro_gateway.Frame.{FrameLimits, FrameError, ProducerTuple, DeltaFrame}
use quorum_loro_gateway.Loro.{LoroRoom}
use quorum_loro_gateway.LoroProtocol.{ProtocolMessage}
use quorum_loro_gateway.Names.{delta_stream, producer_id}
use quorum_loro_gateway.Recovery.{RecoveryError}
use quorum_loro_gateway.Rotation.{RotationError}
use quorum_loro_gateway.Store.{StoreError, RejectionKind, UrsulaStore}

pub data RoomLifecycle : Type 0 where
  recovering ready append_ambiguous corrupt unavailable : RoomLifecycle

abbrev pub as_str : RoomLifecycle → String
as_str recovering = "recovering"
as_str ready = "ready"
as_str append_ambiguous = "append_ambiguous"
as_str corrupt = "corrupt"
as_str unavailable = "unavailable"

abbrev pub is_ready : RoomLifecycle → Bool
is_ready recovering = false
is_ready ready = true
is_ready append_ambiguous = false
is_ready corrupt = false
is_ready unavailable = false

-- The states in which `run` refuses what clients ask.
abbrev pub refuses : RoomLifecycle → Bool
refuses recovering = true
refuses ready = false
refuses append_ambiguous = false
refuses corrupt = true
refuses unavailable = true

-- Without the times and the number of requests of a recovery.
pub record RoomStatus : Type 0 where
  pub stream : List ℕ
  pub state : RoomLifecycle
  pub producer_id : List ℕ
  pub producer_epoch : ℕ
  pub producer_sequence : ℕ
  pub pending_sequence : Option ℕ
  pub peer_count : ℕ
  pub last_error : Option String
  pub recovered_stream_bytes : ℕ
  pub recovered_update_count : ℕ

pub record ActorConfig : Type 0 where
  pub command_capacity : ℕ
  pub ambiguous_retries : ℕ
  pub retry_delay : ℕ
  pub frame_limits : FrameLimits

-- The delay is in milliseconds.
abbrev pub default_config : ActorConfig
default_config = record {
  command_capacity = 128;
  ambiguous_retries = 5;
  retry_delay = 25;
  frame_limits = Frame.default_limits;
}

pub record PendingAppend : Type 0 where
  pub target_stream : List ℕ
  pub producer : ProducerTuple
  pub frame : DeltaFrame
  pub bytes : List ℕ

pub data DurableAppend : Type 0 where
  committed verified_duplicate : ℕ → DurableAppend

abbrev pub next_offset : DurableAppend → ℕ
next_offset (committed n) = n
next_offset (verified_duplicate n) = n

pub data AppendFailure : Type 0 where
  definitely_rejected : RejectionKind → String → AppendFailure
  outcome_unknown : StoreError → AppendFailure

pub record InitializationFailure : Type 0 where
  pub state : RoomLifecycle
  pub message : String

-- A message to a peer, or the answer on the channel of a request.
pub data Emission : Type 0 where
  to_peer : ℕ → ProtocolMessage → Emission
  respond : ℕ → Bool → Emission
  activated : ℕ → Emission

pub data Command : Type 0 where
  -- the connection, the version and the peer
  join : ℕ → List ℕ → ℕ → Command
  -- the connection, the batch, the updates and the peer
  update : ℕ → List ℕ → List (List ℕ) → ℕ → Command
  leave : ℕ → Command
  retry_ambiguous wait_for_activation rotate : ℕ → Command

-- The texts of errors, which the derive macro of the crate `thiserror` and `format!` make.
pub record Texts : Type 0 where
  pub store_text : StoreError → String
  pub frame_text : FrameError → String
  pub recovery_text : RecoveryError → String
  pub rotation_text : RotationError → String
  pub length_mismatch : ℕ → ℕ → String
  pub retry_rejected : RejectionKind → String → String

-- What an actor is given.
pub record Services (Doc Version S : Type 0) : Type 0 where
  pub hashes : Hashes
  pub texts : Texts
  pub room : LoroRoom Doc Version
  pub store : UrsulaStore S
  pub config : ActorConfig

-- The peers are an association list from connections to channels, newest first.
pub record RoomActor (Doc : Type 0) : Type 0 where
  pub room_id : List ℕ
  pub boot_id : List ℕ
  pub stream : List ℕ
  pub active_delta_generation : ℕ
  pub active_delta_end_offset : ℕ
  pub producer_id : List ℕ
  pub producer_sequence : ℕ
  pub doc : Doc
  pub history : List (List ℕ)
  pub peers : List (ℕ × ℕ)
  pub blocked : Option PendingAppend
  pub lifecycle : RoomLifecycle
  pub last_error : Option String
  pub status : RoomStatus
  pub recovered_stream_bytes : ℕ
  pub recovered_update_count : ℕ

unfoldable pub remove_peer : List (ℕ × ℕ) → ℕ → List (ℕ × ℕ)
remove_peer [] connection = []
remove_peer ((c, p) ∷ peers) connection =
    let rest = remove_peer peers connection in if c == connection then rest else (c, p) ∷ rest

unfoldable pub insert_peer : List (ℕ × ℕ) → ℕ → ℕ → List (ℕ × ℕ)
insert_peer peers connection peer = (connection, peer) ∷ remove_peer peers connection

unfoldable pub contains_key : List (ℕ × ℕ) → ℕ → Bool
contains_key [] connection = false
contains_key ((c, p) ∷ peers) connection =
    if c == connection then true else contains_key peers connection

abbrev pub pending_sequence : Option PendingAppend → Option ℕ
pending_sequence none = none
pending_sequence (some pending) = some pending.producer.sequence

module _ {Doc : Type 0} where
  unfoldable pub new : Hashes → Doc → List ℕ → List ℕ → RoomActor Doc
  new h empty room_id boot_id = record {
    room_id = room_id;
    boot_id = boot_id;
    stream = (delta_stream h room_id).physical;
    active_delta_generation = 0;
    active_delta_end_offset = 0;
    producer_id = producer_id h boot_id room_id;
    producer_sequence = 0;
    doc = empty;
    history = [];
    peers = [];
    blocked = none;
    lifecycle = recovering;
    last_error = none;
    status = record {
      stream = (delta_stream h room_id).physical;
      state = recovering;
      producer_id = producer_id h boot_id room_id;
      producer_epoch = 0;
      producer_sequence = 0;
      pending_sequence = none;
      peer_count = 0;
      last_error = none;
      recovered_stream_bytes = 0;
      recovered_update_count = 0;
    };
    recovered_stream_bytes = 0;
    recovered_update_count = 0;
  }

  unfoldable pub publish_status : RoomActor Doc → RoomActor Doc
  publish_status r = record r {
    status = record {
      stream = r.stream;
      state = r.lifecycle;
      producer_id = r.producer_id;
      producer_epoch = r.status.producer_epoch;
      producer_sequence = r.producer_sequence;
      pending_sequence = pending_sequence r.blocked;
      peer_count = length r.peers;
      last_error = r.last_error;
      recovered_stream_bytes = r.recovered_stream_bytes;
      recovered_update_count = r.recovered_update_count;
    };
  }

  unfoldable pub transition : RoomActor Doc → RoomLifecycle → Option String → RoomActor Doc
  transition r state last_error =
      publish_status (record r { lifecycle = state; last_error = last_error })
