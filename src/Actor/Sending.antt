-- ===== src/Actor/Sending.antt =====
-- src/actor.rs: what a room sends to its peers, and `join`. An update that is larger than a fragment
-- is sent as a header and its chunks, under a batch ID of the server's counter.
use quorum_loro_gateway.Prelude.{
  ℕ, zero, suc, ◌+◌, ◌-◌, ◌*◌, ◌/◌, ◌%◌, Option, none, some, String, List, [], ◌∷◌, ◌++◌, leb, ◌==◌,
  length, take, drop, Result, ok, err, if◌then◌else◌,
}
use quorum_loro_gateway.Bytes.{u64_mod, saturating_u64, to_be}
use quorum_loro_gateway.Loro.{LoroRoom}
use quorum_loro_gateway.LoroProtocol.{
  loro, write, RoomErrorCode, JoinErrorCode, version_unknown, UpdateStatusCode, join_response_ok,
  join_error, doc_update, doc_update_fragment_header, doc_update_fragment, room_error, ack,
}
use quorum_loro_gateway.Actor.{
  as_str, is_ready, Emission, to_peer, RoomActor, insert_peer, publish_status,
}

abbrev pub fragment_size : ℕ
fragment_size = 240 * 1024

abbrev pub send_ack : ℕ → List ℕ → List ℕ → UpdateStatusCode → Emission
send_ack peer room batch status = to_peer peer (ack loro room batch status)

abbrev pub send_room_error : ℕ → List ℕ → String → Emission
send_room_error peer room message =
    to_peer peer (room_error loro room RoomErrorCode.unknown message)

-- `update.chunks(size)`, with at least as many rounds as there are bytes.
unfoldable pub chunk_rounds : ℕ → ℕ → List ℕ → List (List ℕ)
chunk_rounds zero size bytes = []
chunk_rounds (suc n) size [] = []
chunk_rounds (suc n) size (b ∷ bs) = take size (b ∷ bs) ∷ chunk_rounds n size (drop size (b ∷ bs))

unfoldable pub chunks : ℕ → List ℕ → List (List ℕ)
chunks size bytes = chunk_rounds (length bytes) size bytes

abbrev pub div_ceil : ℕ → ℕ → ℕ
div_ceil n d = (n + d - 1) / d

-- `.enumerate()`, from an index on.
unfoldable pub send_fragments : ℕ → List ℕ → List ℕ → ℕ → List (List ℕ) → List Emission
send_fragments peer room batch index [] = []
send_fragments peer room batch index (fragment ∷ fragments) =
    to_peer peer (doc_update_fragment loro room batch (saturating_u64 index) fragment)
    ∷ send_fragments peer room batch (index + 1) fragments

-- `fetch_add`, which wraps around.
abbrev pub bump : ℕ → ℕ
bump counter = (counter + 1) % u64_mod

unfoldable pub server_batch_id : ℕ → List ℕ
server_batch_id counter = to_be 8 counter

-- What is emitted, with the counter before it; the counter after it is `bump counter`.
unfoldable pub send_update : ℕ → ℕ → List ℕ → List ℕ → List Emission
send_update counter peer room update =
    if leb (length update) fragment_size
    then to_peer peer (doc_update loro room (update ∷ []) (server_batch_id counter)) ∷ []
    else to_peer peer (
        doc_update_fragment_header loro room (server_batch_id counter)
          (saturating_u64 (div_ceil (length update) fragment_size))
          (saturating_u64 (length update)))
      ∷ send_fragments peer room (server_batch_id counter) 0 (chunks fragment_size update)

-- Each update to one peer.
unfoldable pub send_updates : ℕ → ℕ → List ℕ → List (List ℕ) → ℕ × List Emission
send_updates counter peer room [] = (counter, [])
send_updates counter peer room (u ∷ us) =
    let (after, rest) = send_updates (bump counter) peer room us in
    (after, send_update counter peer room u ++ rest)

-- Each update to each peer but the one of the sender's connection.
unfoldable pub broadcast : ℕ → ℕ → List ℕ → List (List ℕ) → List (ℕ × ℕ) → ℕ × List Emission
broadcast counter sender room updates [] = (counter, [])
broadcast counter sender room updates ((connection, peer) ∷ peers) =
    let others = broadcast counter sender room updates peers in
    if connection == sender
    then others
    else let (next, sent) = send_updates counter peer room updates in
      let (after, rest) = broadcast next sender room updates peers in (after, sent ++ rest)

module _ {Doc Version : Type 0} (room : LoroRoom Doc Version) where
  -- The client's version; the empty one is that of a client that has nothing.
  unfoldable pub client_version : List ℕ → Result String (Option Version)
  client_version [] = ok none
  client_version (b ∷ bs) = elim (room.decode_version (b ∷ bs)) [
    | ok version ↦ ok (some version)
    | err error ↦ err error
  ]

  unfoldable pub export_for : Doc → Option Version → Result String (List ℕ)
  export_for doc none = room.loro.export_snapshot doc
  export_for doc (some version) = room.export_updates doc version

  -- What a new peer gets of a document that is not empty.
  unfoldable pub send_state : ℕ → ℕ → List ℕ → Doc → Option Version → ℕ × List Emission
  send_state counter peer room_id doc version = elim (export_for doc version) [
    | ok update ↦ (bump counter, send_update counter peer room_id update)
    | err error ↦ (counter, send_room_error peer room_id error ∷ [])
  ]

  abbrev pub welcome : RoomActor Doc → ℕ → Emission
  welcome r peer =
      to_peer peer (join_response_ok loro r.room_id write (room.oplog_vv r.doc) (some []))

  unfoldable pub accept_join :
      RoomActor Doc → ℕ → ℕ → ℕ → Option Version → RoomActor Doc × ℕ × List Emission
  accept_join r counter connection peer version =
      let r' = publish_status (record r { peers = insert_peer r.peers connection peer }) in
      if room.len_ops r'.doc == 0
      then (r', counter, welcome r' peer ∷ [])
      else let (after, sent) = send_state counter peer r'.room_id r'.doc version in
        (r', after, welcome r' peer ∷ sent)

  unfoldable pub on_join : RoomActor Doc → ℕ → ℕ → List ℕ → ℕ → RoomActor Doc × ℕ × List Emission
  on_join r counter connection version peer =
      if is_ready r.lifecycle
      then elim (client_version version) [
        | ok known ↦ accept_join r counter connection peer known
        | err error ↦ (
          r,
          counter,
          to_peer peer
                (join_error loro r.room_id version_unknown error (some (room.oplog_vv r.doc)) none)
              ∷ [],
        )
      ]
      else (
        r,
        counter,
        to_peer peer (
              join_error loro r.room_id JoinErrorCode.app_error "room state is not authoritative"
                none (some (as_str r.lifecycle)))
            ∷ [],
      )
