-- ===== src/Server/Polls.antt =====
-- The loop of src/server.rs between two messages: polls that time out, each with its expiry.
use quorum_loro_gateway.Prelude.{
  ℕ, ◌<◌, ◌≡◌, ◌∙◌, refl, ap, Bool-cases, inl, inr, String, List, [], ◌∷◌, ◌++◌, map, append_assoc,
  leb, All, Result, ok,
}
use quorum_loro_gateway.LoroProtocol.{ProtocolMessage}
use quorum_loro_gateway.Protocol.{decode_bounded}
use quorum_loro_gateway.Server.{
  ServerConfig, Connection, Batches, Action, send, send_text, room_join, room_update, room_leave,
  handle_message, expire_batches, expire_fragments,
}
use quorum_loro_gateway.Server.Events.{
  Turn, binary, timeout, on_message, on_incoming, run_turn, serve,
}

-- The actions that call a room.
abbrev pub room_calls : List Action → List Action
room_calls [] = []
room_calls (send m ∷ actions) = room_calls actions
room_calls (send_text t ∷ actions) = room_calls actions
room_calls (room_join room version ∷ actions) = room_join room version ∷ room_calls actions
room_calls (room_update room batch updates ∷ actions) =
    room_update room batch updates ∷ room_calls actions
room_calls (room_leave room ∷ actions) = room_leave room ∷ room_calls actions

room_calls-append : (xs ys : List Action) → room_calls (xs ++ ys) ≡ room_calls xs ++ room_calls ys
room_calls-append [] ys = refl
room_calls-append (send m ∷ xs) ys = room_calls-append xs ys
room_calls-append (send_text t ∷ xs) ys = room_calls-append xs ys
room_calls-append (room_join room version ∷ xs) ys = rw (room_calls-append xs ys)
room_calls-append (room_update room batch updates ∷ xs) ys = rw (room_calls-append xs ys)
room_calls-append (room_leave room ∷ xs) ys = rw (room_calls-append xs ys)

room_calls-expire_batches : (now : ℕ) (m : Batches) → room_calls (expire_batches now m).1 ≡ []
unfolding expire_batches
room_calls-expire_batches now [] = refl
room_calls-expire_batches now ((k, b) ∷ m) = elim (Bool-cases (leb b.deadline now)) [
  | inl late ↦ rw late (room_calls-expire_batches now m)
  | inr live ↦ rw live (room_calls-expire_batches now m)
]

room_calls-quiet :
    (xs ys zs : List Action)
    → room_calls xs ≡ []
    → room_calls ((xs ++ ys) ++ zs) ≡ room_calls (ys ++ zs)
room_calls-quiet xs ys zs quiet =
    ap room_calls (append_assoc xs ys zs)
    ∙ room_calls-append xs (ys ++ zs)
    ∙ ap (λ (l : List Action). l ++ room_calls (ys ++ zs)) quiet

-- A message on the wire: the polls before it that time out, by their instants, and then the instants of
-- the expiry before it and of the message.
pub record Delivery : Type 0 where
  pub idle : List ℕ
  pub expires : ℕ
  pub at : ℕ
  pub wire : List ℕ

abbrev pub idle_turn : ℕ → Turn
idle_turn t = record { expires = t; arrives = t; incoming = timeout }

abbrev pub turns_of : Delivery → List Turn → List Turn
turns_of d turns =
    map idle_turn d.idle
    ++ record { expires = d.expires; arrives = d.at; incoming = binary d.wire } ∷ turns

-- The connection after the expiries of some polls.
abbrev pub after_polls : List ℕ → Connection → Connection
after_polls [] c = c
after_polls (t ∷ polls) c = after_polls polls (expire_fragments t c).0

-- The connection when the message is handled.
abbrev pub when_handled : Delivery → Connection → Connection
when_handled d c = (expire_fragments d.expires (after_polls d.idle c)).0

-- Every expiry up to the message is before the deadline.
abbrev pub Timely : ℕ → Delivery → Type 0
Timely deadline d = All (λ t. t < deadline) d.idle × (d.expires < deadline)

-- The same connection, and the same calls of rooms.
abbrev pub Alike : Connection × List Action → Connection × List Action → Type 0
Alike r r' = (r.0 ≡ r'.0) × (room_calls r.1 ≡ room_calls r'.1)

joined-after_polls : (polls : List ℕ) (c : Connection) → (after_polls polls c).joined ≡ c.joined
unfolding expire_fragments
joined-after_polls [] c = refl
joined-after_polls (t ∷ polls) c = joined-after_polls polls (expire_fragments t c).0

pub joined-when_handled : (d : Delivery) (c : Connection) → (when_handled d c).joined ≡ c.joined
unfolding expire_fragments
joined-when_handled d c = joined-after_polls d.idle c

module _ (max_message_size : ℕ) (codec : List ℕ → Result String ProtocolMessage)
    (config : ServerConfig) where
  -- The bytes on the wire are those of the message.
  abbrev pub Reads : List ℕ → ProtocolMessage → Type 0
  Reads wire m = decode_bounded max_message_size codec wire config.protocol_limits ≡ ok m

  abbrev pub run : List Turn → Connection → Connection × List Action
  run turns c = serve max_message_size codec config turns c

  serve-idle :
      (polls : List ℕ) (turns : List Turn) (c : Connection)
      → Alike (run (map idle_turn polls ++ turns) c) (run turns (after_polls polls c))
  unfolding serve run_turn on_incoming expire_fragments
  serve-idle [] turns c = (refl, refl)
  serve-idle (t ∷ polls) turns c =
      let (same, calls) = serve-idle polls turns (expire_fragments t c).0 in
      (
        same,
        room_calls-quiet (expire_batches t c.fragments).1 []
              (run (map idle_turn polls ++ turns) (expire_fragments t c).0).1
              (room_calls-expire_batches t c.fragments)
            ∙ calls,
      )

  serve-message :
      (expires at : ℕ) (wire : List ℕ) (m : ProtocolMessage) (turns : List Turn) (c d : Connection)
      (actions : List Action)
      → Reads wire m
      → handle_message config at (expire_fragments expires c).0 m ≡ (d, actions)
      → Alike
          (run (record { expires = expires; arrives = at; incoming = binary wire } ∷ turns) c)
          ((run turns d).0, actions ++ (run turns d).1)
  unfolding serve run_turn on_incoming on_message expire_fragments
  serve-message expires at wire m turns c d actions reads handled = rw step (
    refl,
    room_calls-quiet (expire_batches expires c.fragments).1 actions (run turns d).1
        (room_calls-expire_batches expires c.fragments),
  )
    where
      step :
          on_message max_message_size codec config at
            (expire_fragments expires c).0
            (decode_bounded max_message_size codec wire config.protocol_limits)
          ≡ (d, actions)
      step =
          ap (on_message max_message_size codec config at (expire_fragments expires c).0) reads
          ∙ handled

  -- A message on the wire, behind polls that time out.
  pub serve-Delivery :
      (d : Delivery) (m : ProtocolMessage) (turns : List Turn) (c after : Connection)
      (actions : List Action)
      → Reads d.wire m
      → handle_message config d.at (when_handled d c) m ≡ (after, actions)
      → Alike (run (turns_of d turns) c) ((run turns after).0, actions ++ (run turns after).1)
  serve-Delivery d m turns c after actions reads handled =
      let (same, calls) =
        serve-idle d.idle
          (record { expires = d.expires; arrives = d.at; incoming = binary d.wire } ∷ turns) c in
      let (same', calls') =
        serve-message d.expires d.at d.wire m turns (after_polls d.idle c) after actions reads
          handled in
      (same ∙ same', calls ∙ calls')
