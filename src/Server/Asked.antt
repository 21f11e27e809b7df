-- ===== src/Server/Asked.antt =====
-- src/server.rs: the rooms that a connection asks to join and to leave, and those that it keeps.
use quorum_loro_gateway.Prelude.{
  ℕ, ◌≡◌, ◌∙◌, inl, inr, refl, true, Bool-cases, List, [], ◌∷◌, ◌++◌, map, leb, arith, All,
  bytes_eq, bytes_eq_refl, bytes_eq_comm, or_true,
}
use quorum_loro_gateway.LoroProtocol.{
  CrdtType, loro, other, ProtocolMessage, join_request, join_response_ok, join_error, doc_update,
  doc_update_fragment_header, doc_update_fragment, room_error, leave, ack,
}
use quorum_loro_gateway.Server.{
  ServerConfig, FragmentKey, FragmentBatch, Connection, Batches, Action, send, send_text, room_join,
  room_update, room_leave, contains, join_set, leave_set, insert_batch, repeat_header, on_header,
  finish_batch, store_batch, fill_slot, on_slot, on_known_batch, on_fragment, on_join, on_update,
  on_leave, handle_message, expire_batches, expire_fragments,
}

-- The rooms that actions in order have asked to join and have not asked to leave since. A room may
-- refuse a join, and while it refuses commands it ignores a leave, so these are the connection's calls
-- and not the peers of the rooms.
abbrev pub asked : List (List ℕ) → List Action → List (List ℕ)
asked rooms [] = rooms
asked rooms (send m ∷ actions) = asked rooms actions
asked rooms (send_text t ∷ actions) = asked rooms actions
asked rooms (room_update room batch updates ∷ actions) = asked rooms actions
asked rooms (room_join room version ∷ actions) = asked (join_set rooms room) actions
asked rooms (room_leave room ∷ actions) = asked (leave_set rooms room) actions

abbrev pub Agrees : Connection → Connection × List Action → Type 0
Agrees c r = asked c.joined r.1 ≡ r.0.joined

module _ (c : Connection) (crdt : CrdtType) (key : FragmentKey) where
  store_batch-Agrees : (batch : FragmentBatch) → Agrees c (store_batch c crdt key batch)
  unfolding store_batch finish_batch
  store_batch-Agrees batch = ground arith

  fill_slot-Agrees :
      (batch : FragmentBatch) (index : ℕ) (fragment : List ℕ) (len : ℕ)
      → Agrees c (fill_slot c crdt key batch index fragment len)
  unfolding fill_slot
  fill_slot-Agrees batch index fragment len = grind (arith, store_batch-Agrees)

  on_fragment-Agrees :
      (index : ℕ) (fragment : List ℕ) → Agrees c (on_fragment c crdt key index fragment)
  unfolding on_fragment on_known_batch on_slot
  on_fragment-Agrees index fragment = grind (arith, fill_slot-Agrees)

  on_header-Agrees :
      (config : ServerConfig) (now count total : ℕ)
      → Agrees c (on_header config now c crdt key count total)
  unfolding on_header insert_batch repeat_header
  on_header-Agrees config now count total = ground arith

on_join-Agrees :
    (c : Connection) (crdt : CrdtType) (room version : List ℕ)
    → Agrees c (on_join c crdt room version)
unfolding on_join
on_join-Agrees c loro room version = refl
on_join-Agrees c other room version = refl

on_update-Agrees :
    (c : Connection) (crdt : CrdtType) (room : List ℕ) (updates : List (List ℕ)) (batch : List ℕ)
    → Agrees c (on_update c crdt room updates batch)
unfolding on_update
on_update-Agrees c crdt room updates batch = ground arith

on_leave-Agrees :
    (c : Connection) (crdt : CrdtType) (room : List ℕ) → Agrees c (on_leave c crdt room)
unfolding on_leave
on_leave-Agrees c crdt room = ground arith

pub handle_message-Agrees :
    (config : ServerConfig) (now : ℕ) (c : Connection) (message : ProtocolMessage)
    → Agrees c (handle_message config now c message)
unfolding handle_message
handle_message-Agrees config now c (join_request crdt room version) =
    on_join-Agrees c crdt room version
handle_message-Agrees config now c (doc_update crdt room updates batch) =
    on_update-Agrees c crdt room updates batch
handle_message-Agrees config now c (doc_update_fragment_header crdt room batch count total) =
    on_header-Agrees c crdt (record { room_id = room; batch_id = batch }) config now count total
handle_message-Agrees config now c (doc_update_fragment crdt room batch index fragment) =
    on_fragment-Agrees c crdt (record { room_id = room; batch_id = batch }) index fragment
handle_message-Agrees config now c (leave crdt room) = on_leave-Agrees c crdt room
handle_message-Agrees config now c (ack crdt room batch status) = refl
handle_message-Agrees config now c (join_response_ok crdt room permission version extra) = refl
handle_message-Agrees config now c (join_error crdt room code message version app_code) = refl
handle_message-Agrees config now c (room_error crdt room code message) = refl

asked-expire_batches :
    (now : ℕ) (m : Batches) (rooms : List (List ℕ)) → asked rooms (expire_batches now m).1 ≡ rooms
unfolding expire_batches
asked-expire_batches now [] rooms = refl
asked-expire_batches now ((k, b) ∷ m) rooms = elim (Bool-cases (leb b.deadline now)) [
  | inl late ↦ rw late (asked-expire_batches now m rooms)
  | inr live ↦ rw live (asked-expire_batches now m rooms)
]

pub expire_fragments-Agrees : (now : ℕ) (c : Connection) → Agrees c (expire_fragments now c)
unfolding expire_fragments
expire_fragments-Agrees now c = asked-expire_batches now c.fragments c.joined

pub asked-append :
    (rooms : List (List ℕ)) (first second : List Action)
    → asked rooms (first ++ second) ≡ asked (asked rooms first) second
asked-append rooms [] second = refl
asked-append rooms (send m ∷ actions) second = asked-append rooms actions second
asked-append rooms (send_text t ∷ actions) second = asked-append rooms actions second
asked-append rooms (room_update room batch updates ∷ actions) second =
    asked-append rooms actions second
asked-append rooms (room_join room version ∷ actions) second =
    asked-append (join_set rooms room) actions second
asked-append rooms (room_leave room ∷ actions) second =
    asked-append (leave_set rooms room) actions second

-- The rooms of the first list are in the second one.
abbrev Within : List (List ℕ) → List (List ℕ) → Type 0
Within rooms all = All (λ room. contains all room ≡ true) rooms

leave_set-Within :
    (rooms : List (List ℕ)) (room : List ℕ) (all : List (List ℕ))
    → Within rooms (room ∷ all)
    → Within (leave_set rooms room) all
unfolding leave_set contains
leave_set-Within [] room all h = tt
leave_set-Within (r ∷ rooms) room all h = elim (Bool-cases (bytes_eq r room)) [
  | inl same ↦ rw same (leave_set-Within rooms room all h.1)
  | inr differs ↦
      rw differs (rw (bytes_eq_comm room r ∙ differs) at h.0, leave_set-Within rooms room all h.1)
]

Within-nil : (rooms : List (List ℕ)) → Within rooms [] → rooms ≡ []
unfolding contains
Within-nil [] h = refl
Within-nil (r ∷ rooms) h = cc (h.0)

asked-leaves :
    (all rooms : List (List ℕ)) → Within rooms all → asked rooms (map room_leave all) ≡ []
asked-leaves [] rooms h = Within-nil rooms h
asked-leaves (r ∷ all) rooms h =
    asked-leaves all (leave_set rooms r) (leave_set-Within rooms r all h)

Within-more : (rooms all : List (List ℕ)) (r : List ℕ) → Within rooms all → Within rooms (r ∷ all)
unfolding contains
Within-more [] all r h = tt
Within-more (x ∷ rooms) all r h = (rw (h.0) (or_true (bytes_eq r x)), Within-more rooms all r h.1)

Within-refl : (rooms : List (List ℕ)) → Within rooms rooms
unfolding contains
Within-refl [] = tt
Within-refl (r ∷ rooms) = (rw (bytes_eq_refl r), Within-more rooms rooms r (Within-refl rooms))

-- After a leave for each joined room there is no room that is not asked to leave.
pub asked-leave_all : (rooms : List (List ℕ)) → asked rooms (map room_leave rooms) ≡ []
asked-leave_all rooms = asked-leaves rooms rooms (Within-refl rooms)
