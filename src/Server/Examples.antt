-- ===== src/Server/Examples.antt =====
-- Runs of src/server.rs: a connection that takes an update of two fragments, and one that ends.
use quorum_loro_gateway.Prelude.{
  ℕ, ◌==◌, ◌++◌, none, some, String, Result, ok, drop, if◌then◌else◌, refl, List, [], ◌∷◌, bytes_eq,
  arith,
}
use quorum_loro_gateway.Bytes.{checked_add, get_range?, try_from}
use quorum_loro_gateway.Cursor.{take_bytes}
use quorum_loro_gateway.LoroProtocol.{
  loro, ProtocolMessage, join_request, doc_update_fragment_header, doc_update_fragment,
}
use quorum_loro_gateway.Protocol as Protocol
use quorum_loro_gateway.Server.{
  ServerConfig, Connection, contains, find, key_eq, over_budget, reserved_bytes, handle_message,
  expire_fragments, expire_batches,
}
use quorum_loro_gateway.Server.Sound.{Sound}
use quorum_loro_gateway.Server.Reachable.{start, turn, message, expiry, no_rooms, Reach-Sound}
use quorum_loro_gateway.Server.Asked.{Agrees}
use quorum_loro_gateway.Server.Events.{Turn, binary, ping, close, serve}
use quorum_loro_gateway.Server.Served.{serve-Agrees}
use quorum_loro_gateway.Server.Arrivals.{Admits}
use quorum_loro_gateway.Server.Polls.{Delivery, turns_of, Reads, when_handled}
use quorum_loro_gateway.Server.Timely.{Piece, piece_turns, Brings, Delivered, serve_reassembles}
use quorum_loro_gateway.Server.Slots.{get_elem?}

abbrev config : ServerConfig
config = record {
  protocol_limits = Protocol.default_limits 1000;
  max_fragment_batches = 2;
  max_fragments_per_batch = 4;
  max_reassembled_bytes = 100;
  max_fragment_bytes_per_connection = 150;
  fragment_timeout_after = 10;
}

abbrev room : List ℕ
room = 100 ∷ 49 ∷ []

abbrev batch : List ℕ
batch = 0 ∷ 0 ∷ 0 ∷ 0 ∷ 0 ∷ 0 ∷ 0 ∷ 7 ∷ []

abbrev in_room : Connection
in_room = record { joined = room ∷ []; fragments = [] }

abbrev chunks : List (List ℕ)
chunks = (5 ∷ 6 ∷ []) ∷ (7 ∷ []) ∷ []

-- A codec of the messages below: the header and the fragments of a batch of the room.
abbrev byte_at : ℕ → List ℕ → ℕ
byte_at i bytes = elim (get_elem? bytes i) [ none ↦ 0 | some b ↦ b ]

abbrev codec : List ℕ → Result String ProtocolMessage
codec bytes =
    if byte_at 7 bytes == 4
    then ok (doc_update_fragment_header loro room batch (byte_at 16 bytes) (byte_at 17 bytes))
    else if byte_at 7 bytes == 0
    then ok (join_request loro room [])
    else ok (doc_update_fragment loro room batch (byte_at 16 bytes) (drop 18 bytes))

abbrev wire : ℕ → List ℕ → List ℕ
wire kind rest = 37 ∷ 76 ∷ 79 ∷ 82 ∷ 2 ∷ 100 ∷ 49 ∷ kind ∷ batch ++ rest

-- A poll times out between the header and the second fragment, which comes first.
abbrev head : Delivery
head = record { idle = []; expires = 2; at = 3; wire = wire 4 (2 ∷ 3 ∷ []) }

abbrev second : Piece
second = record {
  brought = record { idle = 4 ∷ []; expires = 5; at = 6; wire = wire 5 (1 ∷ 1 ∷ 7 ∷ []) };
  index = 1;
  bytes = 7 ∷ [];
}

abbrev first : Piece
first = record {
  brought = record { idle = []; expires = 7; at = 8; wire = wire 5 (0 ∷ 2 ∷ 5 ∷ 6 ∷ []) };
  index = 0;
  bytes = 5 ∷ 6 ∷ [];
}

admitted : Admits config chunks room batch (when_handled head in_room)
unfolding expire_fragments expire_batches contains bytes_eq find key_eq over_budget reserved_bytes
    checked_add
admitted = record {
  joined = refl;
  fresh = refl;
  some_fragments = omega arith;
  few_fragments = omega arith;
  addressable = omega arith;
  some_bytes = omega arith;
  few_bytes = omega arith;
  measurable = omega arith;
  few_batches = omega arith;
  budget = refl;
}

all_read :
    Reads 1000 codec config head.wire (doc_update_fragment_header loro room batch 2 3)
    × Brings 1000 codec config chunks room batch second
    × Brings 1000 codec config chunks room batch first
unfolding Protocol.decode_bounded Protocol.precheck Protocol.enforce_limit Protocol.take take_bytes
    checked_add get_range? Protocol.var_len Protocol.uleb128 Protocol.uleb128_rounds Protocol.byte
    try_from Protocol.skip_body Protocol.kind_of Protocol.var_bytes
all_read = (refl, refl, refl)

serve_reassembles_example :
    Delivered 1000 codec config chunks room batch in_room
      (serve 1000 codec config (turns_of head (piece_turns (second ∷ first ∷ []))) in_room)
serve_reassembles_example =
    serve_reassembles 1000 codec config chunks room batch head second (first ∷ []) in_room
      all_read.0 admitted (((omega arith, tt), omega arith), ((tt, omega arith), tt))
      (all_read.1, (all_read.2, tt)) ((omega arith, tt), (tt, tt)) (refl, (refl, tt)) refl

Reach-Sound_example :
    Sound config
      (expire_fragments 20
        (handle_message config 3
          (handle_message config 1 no_rooms (join_request loro room [])).0
          (doc_update_fragment_header loro room batch 2 3)).0).0
Reach-Sound_example = Reach-Sound (
    turn
      (turn (turn start (message 1 no_rooms (join_request loro room [])))
        (message 3 _ (doc_update_fragment_header loro room batch 2 3)))
      (expiry 20 _))

-- The client joins the room and closes the connection.
abbrev turns : List Turn
turns =
    record {
      expires = 1;
      arrives = 2;
      incoming = binary (37 ∷ 76 ∷ 79 ∷ 82 ∷ 2 ∷ 100 ∷ 49 ∷ 0 ∷ 0 ∷ 0 ∷ []);
    }
    ∷ record { expires = 3; arrives = 4; incoming = ping [] }
    ∷ record { expires = 5; arrives = 6; incoming = close }
    ∷ []

serve-Agrees_example : Agrees no_rooms (serve 1000 codec config turns no_rooms)
serve-Agrees_example = serve-Agrees 1000 codec config turns no_rooms
