-- ===== src/Server/Events.antt =====
-- src/server.rs, `connection`: the loop over what comes from the client, and its end.
use quorum_loro_gateway.Prelude.{
  ℕ, Bool, true, false, String, List, [], ◌∷◌, ◌++◌, map, if◌then◌else◌, Result, ok, err,
}
use package.text.Mathlib.Text.{◌==◌ as str_eq}
use quorum_loro_gateway.LoroProtocol.{ProtocolMessage}
use quorum_loro_gateway.Protocol.{ProtocolDecodeError, decode_bounded}
use quorum_loro_gateway.Server.{
  ServerConfig, Connection, Action, send_text, room_leave, handle_message, expire_fragments,
}

-- What `source.next()` gives within the poll interval: a message, an error, the end, or nothing.
pub data Incoming : Type 0 where
  text : String → Incoming
  binary ping pong : List ℕ → Incoming
  close failed ended timeout : Incoming

-- A turn: the instant of the expiry, the instant of the message, and what came.
pub record Turn : Type 0 where
  pub expires : ℕ
  pub arrives : ℕ
  pub incoming : Incoming

-- Whether the loop goes on.
abbrev pub goes_on : Incoming → Bool
goes_on close = false
goes_on failed = false
goes_on ended = false
goes_on timeout = true
goes_on (text t) = true
goes_on (binary bytes) = true
goes_on (ping payload) = true
goes_on (pong payload) = true

module _ (max_message_size : ℕ) (codec : List ℕ → Result String ProtocolMessage)
    (config : ServerConfig) where
  unfoldable pub on_message :
      ℕ → Connection → Result ProtocolDecodeError ProtocolMessage → Connection × List Action
  on_message now c (ok m) = handle_message config now c m
  on_message now c (err problem) = (c, [])

  -- `match result`
  unfoldable pub on_incoming : ℕ → Connection → Incoming → Connection × List Action
  unfolding on_message
  on_incoming now c (text t) = if str_eq t "ping" then (c, send_text "pong" ∷ []) else (c, [])
  on_incoming now c (binary bytes) =
      on_message now c (decode_bounded max_message_size codec bytes config.protocol_limits)
  on_incoming now c (ping payload) = (c, send_text "pong" ∷ [])
  on_incoming now c (pong payload) = (c, [])
  on_incoming now c close = (c, [])
  on_incoming now c failed = (c, [])
  on_incoming now c ended = (c, [])
  on_incoming now c timeout = (c, [])

  unfoldable pub run_turn : Turn → Connection → Connection × List Action
  run_turn t c =
      let (live, expired) = expire_fragments t.expires c in
      let (after, actions) = on_incoming t.arrives live t.incoming in (after, expired ++ actions)

  -- The loop, with the connection at its break; then each joined room is left.
  unfoldable pub serve : List Turn → Connection → Connection × List Action
  serve [] c = (c, [])
  serve (t ∷ turns) c =
      let (after, actions) = run_turn t c in
      let (last, rest) = serve turns after in
      if goes_on t.incoming
      then (last, actions ++ rest)
      else (record { joined = []; fragments = [] }, actions ++ map room_leave after.joined)
