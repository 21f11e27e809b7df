-- ===== src/Server.antt =====
-- src/server.rs: the messages of one connection, the rooms that it joined and the fragments of the
-- updates that it is sending. A handler returns the connection and what it does, in order: what it
-- sends to the client, and the calls of rooms. Instants are numbers of one unit.
pub mod Slots
pub mod Fragments
pub mod Sound
pub mod Admitted
pub mod Reachable
pub mod Asked
pub mod Events
pub mod Served
pub mod Reassembly
pub mod Arrivals
pub mod Polls
pub mod Timely
mod Examples
use quorum_loro_gateway.Prelude.{
  ℕ, zero, suc, ◌+◌, ◌*◌, Bool, true, false, not, ◌&&◌, ◌||◌, Option, none, some, String, List, [],
  ◌∷◌, ◌++◌, ltb, leb, ◌==◌, bytes_eq, if◌then◌else◌, length, replicate, Result, ok, err,
}
use Prim.Native.Nat.{min}
use text.Mathlib.Text.{◌==◌ as str_eq}
use quorum_loro_gateway.Bytes.{u64_mod, checked_add, try_from, saturating_u64}
use quorum_loro_gateway.LoroProtocol.{
  CrdtType, loro, other, JoinErrorCode, UpdateStatusCode, permission_denied, invalid_update,
  payload_too_large, rate_limited, fragment_timeout, ProtocolMessage, join_request,
  join_response_ok, join_error, doc_update, doc_update_fragment_header, doc_update_fragment,
  room_error, leave, ack,
}
use quorum_loro_gateway.Protocol.{default_limits, ProtocolLimits, decode_bounded}
use quorum_loro_gateway.Server.Slots.{get_elem?, set}

pub record ServerConfig : Type 0 where
  pub protocol_limits : ProtocolLimits
  pub max_fragment_batches : ℕ
  pub max_fragments_per_batch : ℕ
  pub max_reassembled_bytes : ℕ
  pub max_fragment_bytes_per_connection : ℕ
  pub fragment_timeout_after : ℕ

-- The timeout is in milliseconds; the longest message is a constant of `loro_protocol`.
abbrev pub default_config : ℕ → ServerConfig
default_config max_message_size = record {
  protocol_limits = default_limits max_message_size;
  max_fragment_batches = 8;
  max_fragments_per_batch = 4096;
  max_reassembled_bytes = 32 * 1024 * 1024;
  max_fragment_bytes_per_connection = 64 * 1024 * 1024;
  fragment_timeout_after = 10000;
}

pub record FragmentKey : Type 0 where
  pub room_id : List ℕ
  pub batch_id : List ℕ

pub record FragmentBatch : Type 0 where
  pub total_size : ℕ
  pub chunks : List (Option (List ℕ))
  pub received : ℕ
  pub received_bytes : ℕ
  pub deadline : ℕ

-- The maps of a connection: `joined` and `fragments`.
pub record Connection : Type 0 where
  pub joined : List (List ℕ)
  pub fragments : List (FragmentKey × FragmentBatch)

pub data Action : Type 0 where
  send : ProtocolMessage → Action
  send_text : String → Action
  room_join : List ℕ → List ℕ → Action
  room_update : List ℕ → List ℕ → List (List ℕ) → Action
  room_leave : List ℕ → Action

abbrev pub is_loro : CrdtType → Bool
is_loro loro = true
is_loro other = false

unfoldable pub key_eq : FragmentKey → FragmentKey → Bool
key_eq a b = bytes_eq a.room_id b.room_id && bytes_eq a.batch_id b.batch_id

unfoldable pub contains : List (List ℕ) → List ℕ → Bool
contains [] room = false
contains (r ∷ rs) room = bytes_eq r room || contains rs room

unfoldable pub join_set : List (List ℕ) → List ℕ → List (List ℕ)
join_set rooms room = if contains rooms room then rooms else room ∷ rooms

unfoldable pub leave_set : List (List ℕ) → List ℕ → List (List ℕ)
leave_set [] room = []
leave_set (r ∷ rs) room = if bytes_eq r room then leave_set rs room else r ∷ leave_set rs room

abbrev pub Batches : Type 0
Batches = List (FragmentKey × FragmentBatch)

unfoldable pub find : Batches → FragmentKey → Option FragmentBatch
find [] key = none
find ((k, b) ∷ m) key = if key_eq k key then some b else find m key

unfoldable pub remove : Batches → FragmentKey → Batches
remove [] key = []
remove ((k, b) ∷ m) key = let rest = remove m key in if key_eq k key then rest else (k, b) ∷ rest

-- What is written through the result of `get_mut`.
unfoldable pub replace : Batches → FragmentKey → FragmentBatch → Batches
replace [] key batch = []
replace ((k, b) ∷ m) key batch =
    if key_eq k key then (k, batch) ∷ m else (k, b) ∷ replace m key batch

-- `fragments.retain(|key, _| key.room_id != room_id)`
unfoldable pub retain_others : Batches → List ℕ → Batches
retain_others [] room = []
retain_others ((k, b) ∷ m) room =
    let rest = retain_others m room in if bytes_eq k.room_id room then rest else (k, b) ∷ rest

-- `try_fold` over the sizes that are reserved.
unfoldable pub reserved_bytes : ℕ → Batches → Option ℕ
reserved_bytes sum [] = some sum
reserved_bytes sum ((k, b) ∷ m) = elim (checked_add sum b.total_size) [
  | none ↦ none
  | some next ↦ reserved_bytes next m
]

abbrev pub send_ack : CrdtType → List ℕ → List ℕ → UpdateStatusCode → Action
send_ack crdt room batch status = send (ack crdt room batch status)

abbrev pub refuse :
    Connection → CrdtType → FragmentKey → UpdateStatusCode → Connection × List Action
refuse c crdt key status = (c, send_ack crdt key.room_id key.batch_id status ∷ [])

abbrev pub drop_batch : Connection → FragmentKey → Connection
drop_batch c key = record c { fragments = remove c.fragments key }

-- Whether there is room for the bytes of one more batch.
unfoldable pub over_budget : ServerConfig → Batches → ℕ → Bool
over_budget config m total = elim (reserved_bytes 0 m) [
  | none ↦ true
  | some bytes ↦ elim (checked_add bytes total) [
    | none ↦ true
    | some all ↦ ltb config.max_fragment_bytes_per_connection all
  ]
]

-- A header with a key that is not there yet.
unfoldable pub insert_batch :
    ServerConfig → ℕ → Connection → CrdtType → FragmentKey → ℕ → ℕ → Connection × List Action
insert_batch config now c crdt key fragment_count total =
    if leb config.max_fragment_batches (length c.fragments)
    then refuse c crdt key rate_limited
    else if over_budget config c.fragments total
    then refuse c crdt key payload_too_large
    else elim (try_from u64_mod fragment_count) [
      | none ↦ (c, [])
      | some count ↦ (
        record c {
          fragments =
              (
                key,
                record {
                  total_size = total;
                  chunks = replicate count none;
                  received = 0;
                  received_bytes = 0;
                  deadline = now + config.fragment_timeout_after;
                },
              )
              ∷ c.fragments;
        },
        [],
      )
    ]

-- A header with a key that is there: the same header once more, or another one.
unfoldable pub repeat_header :
    Connection → CrdtType → FragmentKey → FragmentBatch → ℕ → ℕ → Connection × List Action
repeat_header c crdt key existing fragment_count total =
    if (existing.total_size == total) && (length existing.chunks == fragment_count)
    then (c, [])
    else refuse (drop_batch c key) crdt key invalid_update

unfoldable pub on_header :
    ServerConfig → ℕ → Connection → CrdtType → FragmentKey → ℕ → ℕ → Connection × List Action
on_header config now c crdt key fragment_count total =
    if not (is_loro crdt) || not (contains c.joined key.room_id)
    then refuse c crdt key permission_denied
    else if ((fragment_count == 0) || ltb config.max_fragments_per_batch fragment_count)
        || ((total == 0) || ltb config.max_reassembled_bytes total)
    then refuse c crdt key payload_too_large
    else elim (find c.fragments key) [
      | some existing ↦ repeat_header c crdt key existing fragment_count total
      | none ↦ insert_batch config now c crdt key fragment_count total
    ]

-- The chunks, one after the other; `none` if one is missing.
unfoldable pub join_chunks : List (Option (List ℕ)) → Option (List ℕ)
join_chunks [] = some []
join_chunks (none ∷ chunks) = none
join_chunks (some chunk ∷ chunks) = elim (join_chunks chunks) [
  | none ↦ none
  | some rest ↦ some (chunk ++ rest)
]

-- The last fragment has come: the batch is taken out and its update goes to the room.
unfoldable pub finish_batch :
    Connection → CrdtType → FragmentKey → FragmentBatch → Connection × List Action
finish_batch c crdt key batch = elim (join_chunks batch.chunks) [
  | none ↦ (drop_batch c key, [])
  | some update ↦
      if length update == batch.total_size
      then (drop_batch c key, room_update key.room_id key.batch_id (update ∷ []) ∷ [])
      else refuse (drop_batch c key) crdt key invalid_update
]

-- The batch with one more fragment, written back or finished.
unfoldable pub store_batch :
    Connection → CrdtType → FragmentKey → FragmentBatch → Connection × List Action
store_batch c crdt key batch =
    if batch.received == length batch.chunks
    then finish_batch c crdt key batch
    else (record c { fragments = replace c.fragments key batch }, [])

-- A fragment whose slot is empty.
unfoldable pub fill_slot :
    Connection → CrdtType → FragmentKey → FragmentBatch → ℕ → List ℕ → ℕ → Connection × List Action
fill_slot c crdt key batch index fragment fragment_len =
    elim (checked_add batch.received_bytes fragment_len) [
      | none ↦ refuse (drop_batch c key) crdt key payload_too_large
      | some received_bytes ↦
          if ltb batch.total_size received_bytes
          then refuse (drop_batch c key) crdt key invalid_update
          else store_batch c crdt key (record batch {
            chunks = set batch.chunks index (some fragment);
            received = saturating_u64 (batch.received + 1);
            received_bytes = received_bytes;
          })
    ]

-- A fragment by its slot: filled before, or empty.
unfoldable pub on_slot :
    Connection
    → CrdtType
    → FragmentKey
    → FragmentBatch
    → ℕ
    → List ℕ
    → ℕ
    → Option (List ℕ)
    → Connection × List Action
on_slot c crdt key batch index fragment fragment_len (some existing) =
    if bytes_eq existing fragment
    then (c, [])
    else refuse (drop_batch c key) crdt key invalid_update
on_slot c crdt key batch index fragment fragment_len none =
    fill_slot c crdt key batch index fragment fragment_len

unfoldable pub on_known_batch :
    Connection → CrdtType → FragmentKey → FragmentBatch → ℕ → List ℕ → Connection × List Action
on_known_batch c crdt key batch index fragment = elim (get_elem? batch.chunks index) [
  | none ↦ refuse c crdt key invalid_update
  | some slot ↦ elim (try_from u64_mod (length fragment)) [
    | none ↦ refuse (drop_batch c key) crdt key payload_too_large
    | some fragment_len ↦ on_slot c crdt key batch index fragment fragment_len slot
  ]
]

unfoldable pub on_fragment :
    Connection → CrdtType → FragmentKey → ℕ → List ℕ → Connection × List Action
on_fragment c crdt key index fragment =
    if not (is_loro crdt) || not (contains c.joined key.room_id)
    then refuse c crdt key permission_denied
    else elim (find c.fragments key) [
      | none ↦ refuse c crdt key fragment_timeout
      | some batch ↦ on_known_batch c crdt key batch index fragment
    ]

unfoldable pub on_join : Connection → CrdtType → List ℕ → List ℕ → Connection × List Action
on_join c crdt room version =
    if is_loro crdt
    then (record c { joined = join_set c.joined room }, room_join room version ∷ [])
    else (
      c,
      send (
            join_error crdt room JoinErrorCode.app_error "only %LOR rooms are supported" none
              (some "unsupported_crdt"))
          ∷ [],
    )

unfoldable pub on_update :
    Connection → CrdtType → List ℕ → List (List ℕ) → List ℕ → Connection × List Action
on_update c crdt room updates batch =
    if not (is_loro crdt) || not (contains c.joined room)
    then (c, send_ack crdt room batch permission_denied ∷ [])
    else (c, room_update room batch updates ∷ [])

unfoldable pub on_leave : Connection → CrdtType → List ℕ → Connection × List Action
on_leave c crdt room =
    if is_loro crdt && contains c.joined room
    then (
      record c { joined = leave_set c.joined room; fragments = retain_others c.fragments room },
      room_leave room ∷ [],
    )
    else (c, [])

-- `match message`
unfoldable pub handle_message :
    ServerConfig → ℕ → Connection → ProtocolMessage → Connection × List Action
handle_message config now c (join_request crdt room version) = on_join c crdt room version
handle_message config now c (doc_update crdt room updates batch) =
    on_update c crdt room updates batch
handle_message config now c (doc_update_fragment_header crdt room batch count total) =
    on_header config now c crdt (record { room_id = room; batch_id = batch }) count total
handle_message config now c (doc_update_fragment crdt room batch index fragment) =
    on_fragment c crdt (record { room_id = room; batch_id = batch }) index fragment
handle_message config now c (leave crdt room) = on_leave c crdt room
handle_message config now c (ack crdt room batch status) = (c, [])
handle_message config now c (join_response_ok crdt room permission version extra) = (c, [])
handle_message config now c (join_error crdt room code message version app_code) = (c, [])
handle_message config now c (room_error crdt room code message) = (c, [])

-- The batches whose deadline has not come, and an answer for each of the others.
unfoldable pub expire_batches : ℕ → Batches → Batches × List Action
expire_batches now [] = ([], [])
expire_batches now ((k, b) ∷ m) =
    let (live, actions) = expire_batches now m in
    if leb b.deadline now
    then (live, send_ack loro k.room_id k.batch_id fragment_timeout ∷ actions)
    else ((k, b) ∷ live, actions)

unfoldable pub expire_fragments : ℕ → Connection → Connection × List Action
expire_fragments now c =
    let (live, actions) = expire_batches now c.fragments in (record c { fragments = live }, actions)
