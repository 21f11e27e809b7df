-- ===== src/LoroProtocol.antt =====
-- What the code names of the crate `loro_protocol`: its messages with the fields that the code reads
-- or writes, and their codes. A room ID and a batch ID are lists of bytes.
use quorum_loro_gateway.Prelude.{ℕ, Option, String, List}

pub data CrdtType : Type 0 where
  loro other : CrdtType

pub data JoinErrorCode : Type 0 where
  version_unknown app_error : JoinErrorCode

-- Of what a joined client may do and of why a room fails, the code writes one constructor each.
pub data Permission : Type 0 where
  write : Permission

pub data RoomErrorCode : Type 0 where
  unknown : RoomErrorCode

pub data UpdateStatusCode : Type 0 where
  ok unknown permission_denied invalid_update payload_too_large : UpdateStatusCode
  rate_limited fragment_timeout app_error : UpdateStatusCode

pub data ProtocolMessage : Type 0 where
  -- the CRDT, the room and the client's version
  join_request : CrdtType → List ℕ → List ℕ → ProtocolMessage
  -- the room, the permission, the gateway's version and the extra bytes
  join_response_ok : CrdtType → List ℕ → Permission → List ℕ → Option (List ℕ) → ProtocolMessage
  -- the room, the code, the message, the receiver's version and the application's code
  join_error :
      CrdtType → List ℕ → JoinErrorCode → String → Option (List ℕ) → Option String → ProtocolMessage
  -- the room, the updates and the batch
  doc_update : CrdtType → List ℕ → List (List ℕ) → List ℕ → ProtocolMessage
  -- the room, the batch, the number of fragments and the bytes of the whole
  doc_update_fragment_header : CrdtType → List ℕ → List ℕ → ℕ → ℕ → ProtocolMessage
  -- the room, the batch, the index and the bytes
  doc_update_fragment : CrdtType → List ℕ → List ℕ → ℕ → List ℕ → ProtocolMessage
  -- the room, the code and the message
  room_error : CrdtType → List ℕ → RoomErrorCode → String → ProtocolMessage
  leave : CrdtType → List ℕ → ProtocolMessage
  -- the room, the batch and the status
  ack : CrdtType → List ℕ → List ℕ → UpdateStatusCode → ProtocolMessage
