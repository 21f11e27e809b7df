-- ===== src/Server/Reachable.antt =====
-- Every connection that messages and timers reach is sound.
use quorum_loro_gateway.Prelude.{
  or_true, ℕ, ◌≡◌, inl, inr, true, false, Bool-cases, not, ◌&&◌, ◌||◌, List, [], ◌∷◌, arith, All,
  bytes_eq,
}
use quorum_loro_gateway.LoroProtocol.{
  CrdtType, loro, other, ProtocolMessage, join_request, join_response_ok, join_error, doc_update,
  doc_update_fragment_header, doc_update_fragment, room_error, leave, ack,
}
use quorum_loro_gateway.Server.{
  ServerConfig, Connection, is_loro, contains, join_set, leave_set, retain_others, on_join,
  on_update, on_leave, handle_message, expire_batches, expire_fragments,
}
use quorum_loro_gateway.Server.Fragments.{
  retain_others-Part, expire_batches-Part, retain_others-ne, contains-leave_set,
}
use quorum_loro_gateway.Server.Sound.{Sound, Sound-Part, on_fragment-Sound}
use quorum_loro_gateway.Server.Admitted.{on_header-Sound}

contains-join_set :
    (rooms : List (List ℕ)) (room known : List ℕ)
    → contains rooms known ≡ true
    → contains (join_set rooms room) known ≡ true
unfolding join_set contains
contains-join_set rooms room known e = elim (Bool-cases (contains rooms room)) [
  | inl there ↦ rw there e
  | inr fresh ↦ rw fresh (rw e (or_true (bytes_eq room known)))
]

All-both {ℓ} :
    {A : Type ℓ} (P Q R : A → Type 0) (xs : List A)
    → ((x : A) → P x → Q x → R x)
    → All P xs
    → All Q xs
    → All R xs
All-both P Q R [] f h k = tt
All-both P Q R (x ∷ xs) f h k = (f x h.0 k.0, All-both P Q R xs f h.1 k.1)

module _ (config : ServerConfig) {c : Connection} (s : Sound config c) where
  on_join-Sound :
      (crdt : CrdtType) (room version : List ℕ) → Sound config (on_join c crdt room version).0
  unfolding on_join
  on_join-Sound other room version = s
  on_join-Sound loro room version = record {
    batches = s.batches;
    rooms =
        All-both (λ e. contains c.joined e.0.room_id ≡ true)
          (λ e. contains c.joined e.0.room_id ≡ true)
          (λ e. contains (join_set c.joined room) e.0.room_id ≡ true) c.fragments
          (λ e h k. contains-join_set c.joined room e.0.room_id h) s.rooms s.rooms;
    few_batches = s.few_batches;
    budget = s.budget;
  }

  on_update-Sound :
      (crdt : CrdtType) (room : List ℕ) (updates : List (List ℕ)) (batch : List ℕ)
      → Sound config (on_update c crdt room updates batch).0
  unfolding on_update
  on_update-Sound crdt room updates batch =
      elim (Bool-cases (not (is_loro crdt) || not (contains c.joined room))) [
        | inl denied ↦ rw denied s
        | inr joined ↦ rw joined s
      ]

  on_leave-Sound : (crdt : CrdtType) (room : List ℕ) → Sound config (on_leave c crdt room).0
  unfolding on_leave
  on_leave-Sound crdt room = elim (Bool-cases (is_loro crdt && contains c.joined room)) [
    | inr outside ↦ rw outside s
    | inl inside ↦
        let rest =
          Sound-Part config (retain_others c.fragments room) s
            (retain_others-Part c.fragments room) in
        rw inside (record {
          batches = rest.batches;
          rooms =
              All-both (λ e. bytes_eq e.0.room_id room ≡ false)
                (λ e. contains c.joined e.0.room_id ≡ true)
                (λ e. contains (leave_set c.joined room) e.0.room_id ≡ true)
                (retain_others c.fragments room)
                (λ e ne there. contains-leave_set c.joined room e.0.room_id ne there)
                (retain_others-ne c.fragments room) rest.rooms;
          few_batches = rest.few_batches;
          budget = rest.budget;
        })
  ]

  pub handle_message-Sound :
      (now : ℕ) (message : ProtocolMessage) → Sound config (handle_message config now c message).0
  unfolding handle_message
  handle_message-Sound now (join_request crdt room version) = on_join-Sound crdt room version
  handle_message-Sound now (doc_update crdt room updates batch) =
      on_update-Sound crdt room updates batch
  handle_message-Sound now (doc_update_fragment_header crdt room batch count total) =
      on_header-Sound config c crdt (record { room_id = room; batch_id = batch }) s now count total
  handle_message-Sound now (doc_update_fragment crdt room batch index fragment) =
      on_fragment-Sound config c crdt (record { room_id = room; batch_id = batch }) s index fragment
  handle_message-Sound now (leave crdt room) = on_leave-Sound crdt room
  handle_message-Sound now (ack crdt room batch status) = s
  handle_message-Sound now (join_response_ok crdt room permission version extra) = s
  handle_message-Sound now (join_error crdt room code message version app_code) = s
  handle_message-Sound now (room_error crdt room code message) = s

  pub expire_fragments-Sound : (now : ℕ) → Sound config (expire_fragments now c).0
  unfolding expire_fragments
  expire_fragments-Sound now =
      Sound-Part config (expire_batches now c.fragments).0 s (expire_batches-Part now c.fragments)

-- What a turn of the connection's loop does to its maps: a message, or the expiry between messages.
pub data Step (config : ServerConfig) : Connection → Connection → Type 0 where
  message :
      (now : ℕ) (c : Connection) (m : ProtocolMessage)
      → Step config c (handle_message config now c m).0
  expiry : (now : ℕ) (c : Connection) → Step config c (expire_fragments now c).0

abbrev pub no_rooms : Connection
no_rooms = record { joined = []; fragments = [] }

pub data Reach (config : ServerConfig) : Connection → Type 0 where
  start : Reach config no_rooms
  turn : {c d : Connection} → Reach config c → Step config c d → Reach config d

module _ {config : ServerConfig} where
  Step-Sound : {c d : Connection} → Sound config c → Step config c d → Sound config d
  Step-Sound s (message now c m) = handle_message-Sound config s now m
  Step-Sound s (expiry now c) = expire_fragments-Sound config s now

  -- Every connection that the loop reaches from the empty one by messages and expiries, in any order
  -- and at any instants, is sound: the batches are at most `max_fragment_batches`, their sizes add up
  -- to at most `max_fragment_bytes_per_connection`, each belongs to a joined room, has a size and a
  -- number of slots within the limits, counts its filled slots and their bytes, holds no more bytes
  -- than its size, and lacks a fragment.
  pub Reach-Sound : {c : Connection} → Reach config c → Sound config c
  Reach-Sound start = record {
    batches = tt;
    rooms = tt;
    few_batches = omega arith;
    budget = omega arith;
  }
  Reach-Sound (turn r step) = Step-Sound (Reach-Sound r) step
