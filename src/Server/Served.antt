-- ===== src/Server/Served.antt =====
-- What the loop of a connection guarantees, whatever the client sends.
use quorum_loro_gateway.Prelude.{
  ℕ, ◌∙◌, inl, inr, refl, ap, Bool-cases, String, List, [], ◌∷◌, map, arith, Result, ok, err,
}
use package.text.Mathlib.Text.{◌==◌ as str_eq}
use quorum_loro_gateway.LoroProtocol.{ProtocolMessage}
use quorum_loro_gateway.Protocol.{ProtocolDecodeError, decode_bounded}
use quorum_loro_gateway.Server.{ServerConfig, Connection, room_leave, expire_fragments}
use quorum_loro_gateway.Server.Sound.{Sound}
use quorum_loro_gateway.Server.Reachable.{
  Reach, start, turn, message, expiry, no_rooms, Reach-Sound,
}
use quorum_loro_gateway.Server.Asked.{
  asked, Agrees, handle_message-Agrees, expire_fragments-Agrees, asked-append, asked-leave_all,
}
use quorum_loro_gateway.Server.Events.{
  Incoming, text, binary, ping, pong, close, failed, ended, timeout, Turn, on_message, on_incoming,
  goes_on, run_turn, serve,
}

module _ (max_message_size : ℕ) (codec : List ℕ → Result String ProtocolMessage)
    (config : ServerConfig) where
  on_message-Agrees :
      (now : ℕ) (c : Connection) (decoded : Result ProtocolDecodeError ProtocolMessage)
      → Agrees c (on_message max_message_size codec config now c decoded)
  unfolding on_message
  on_message-Agrees now c (ok m) = handle_message-Agrees config now c m
  on_message-Agrees now c (err problem) = refl

  on_incoming-Agrees :
      (now : ℕ) (c : Connection) (incoming : Incoming)
      → Agrees c (on_incoming max_message_size codec config now c incoming)
  unfolding on_incoming
  on_incoming-Agrees now c (text t) = ground arith
  on_incoming-Agrees now c (binary bytes) =
      on_message-Agrees now c (decode_bounded max_message_size codec bytes config.protocol_limits)
  on_incoming-Agrees now c (ping payload) = refl
  on_incoming-Agrees now c (pong payload) = refl
  on_incoming-Agrees now c close = refl
  on_incoming-Agrees now c failed = refl
  on_incoming-Agrees now c ended = refl
  on_incoming-Agrees now c timeout = refl

  run_turn-Agrees :
      (t : Turn) (c : Connection) → Agrees c (run_turn max_message_size codec config t c)
  unfolding run_turn
  run_turn-Agrees t c =
      asked-append c.joined (expire_fragments t.expires c).1 _
      ∙ ap
          (λ (rooms : List (List ℕ)).
            asked rooms
              (on_incoming max_message_size codec config t.arrives (expire_fragments t.expires c).0
                t.incoming).1)
          (expire_fragments-Agrees t.expires c)
      ∙ on_incoming-Agrees t.arrives (expire_fragments t.expires c).0 t.incoming

  -- Whatever turns come, the rooms that the loop's calls have asked to join and have not asked to leave
  -- since are those that the connection keeps as joined; after the loop's break, that is none.
  pub serve-Agrees :
      (turns : List Turn) (c : Connection) → Agrees c (serve max_message_size codec config turns c)
  unfolding serve
  serve-Agrees [] c = refl
  serve-Agrees (t ∷ turns) c = elim (Bool-cases (goes_on t.incoming)) [
    | inl more ↦ rw more (
        asked-append c.joined (run_turn max_message_size codec config t c).1 _
        ∙ ap
            (λ (rooms : List (List ℕ)).
              asked rooms
                (serve max_message_size codec config turns
                  (run_turn max_message_size codec config t c).0).1)
            (run_turn-Agrees t c)
        ∙ serve-Agrees turns (run_turn max_message_size codec config t c).0)
    | inr last ↦ rw last (
        asked-append c.joined (run_turn max_message_size codec config t c).1 _
        ∙ ap
            (λ (rooms : List (List ℕ)).
              asked rooms (map room_leave (run_turn max_message_size codec config t c).0.joined))
            (run_turn-Agrees t c)
        ∙ asked-leave_all (run_turn max_message_size codec config t c).0.joined)
  ]

  on_message-Reach :
      (now : ℕ) (c : Connection) (decoded : Result ProtocolDecodeError ProtocolMessage)
      → Reach config c
      → Reach config (on_message max_message_size codec config now c decoded).0
  unfolding on_message
  on_message-Reach now c (ok m) r = turn r (message now c m)
  on_message-Reach now c (err problem) r = r

  on_incoming-Reach :
      (now : ℕ) (c : Connection) (incoming : Incoming)
      → Reach config c
      → Reach config (on_incoming max_message_size codec config now c incoming).0
  unfolding on_incoming
  on_incoming-Reach now c (text t) r = elim (Bool-cases (str_eq t "ping")) [
    | inl same ↦ rw same r
    | inr differs ↦ rw differs r
  ]
  on_incoming-Reach now c (binary bytes) r =
      on_message-Reach now c (decode_bounded max_message_size codec bytes config.protocol_limits) r
  on_incoming-Reach now c (ping payload) r = r
  on_incoming-Reach now c (pong payload) r = r
  on_incoming-Reach now c close r = r
  on_incoming-Reach now c failed r = r
  on_incoming-Reach now c ended r = r
  on_incoming-Reach now c timeout r = r

  run_turn-Reach :
      (t : Turn) (c : Connection)
      → Reach config c
      → Reach config (run_turn max_message_size codec config t c).0
  unfolding run_turn
  run_turn-Reach t c r =
      on_incoming-Reach t.arrives (expire_fragments t.expires c).0 t.incoming
        (turn r (expiry t.expires c))

  serve-Reach :
      (turns : List Turn) (c : Connection)
      → Reach config c
      → Reach config (serve max_message_size codec config turns c).0
  unfolding serve
  serve-Reach [] c r = r
  serve-Reach (t ∷ turns) c r = elim (Bool-cases (goes_on t.incoming)) [
    | inl more ↦ rw more (serve-Reach turns _ (run_turn-Reach t c r))
    | inr last ↦ rw last start
  ]

  -- Whatever turns come, the connection's fragment batches stay within the limits of the
  -- configuration: `Sound` of the connection with which the loop ends or waits.
  pub serve-Sound :
      (turns : List Turn) → Sound config (serve max_message_size codec config turns no_rooms).0
  serve-Sound turns = Reach-Sound (serve-Reach turns no_rooms start)
