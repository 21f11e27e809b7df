-- ===== src/Actor/Commands.antt =====
-- src/actor.rs, `run`: the choice of a command's handler.
use quorum_loro_gateway.Prelude.{
  ℕ, Bool, true, false, Option, none, some, String, List, [], ◌∷◌, if◌then◌else◌,
}
use quorum_loro_gateway.LoroProtocol.{loro, JoinErrorCode, unknown, join_error}
use quorum_loro_gateway.Actor.{
  as_str, refuses, Emission, to_peer, respond, activated, Command, join, update, leave,
  retry_ambiguous, wait_for_activation, rotate, Services, RoomActor, remove_peer, publish_status,
}
use quorum_loro_gateway.Actor.Sending.{send_ack, on_join}
use quorum_loro_gateway.Actor.Update.{Handled, on_update}
use quorum_loro_gateway.Actor.Operate.{rotate_generation, retry_pending}

abbrev pub or_else : Option String → String → String
or_else none default = default
or_else (some text) default = text

-- Whether a command is handled in every state.
abbrev pub is_for_operator : Command → Bool
is_for_operator (join connection version peer) = false
is_for_operator (update connection batch updates peer) = false
is_for_operator (leave connection) = false
is_for_operator (retry_ambiguous response) = true
is_for_operator (wait_for_activation response) = true
is_for_operator (rotate response) = true

module _ {Doc Version S : Type 0} (services : Services Doc Version S) where
  unfoldable pub reject_unavailable : RoomActor Doc → Command → List Emission
  reject_unavailable r (rotate response) = respond response false ∷ []
  reject_unavailable r (join connection version peer) =
      to_peer peer (
        join_error loro r.room_id JoinErrorCode.app_error
          (or_else r.last_error (as_str r.lifecycle)) none (some (as_str r.lifecycle)))
      ∷ []
  reject_unavailable r (update connection batch updates peer) =
      send_ack peer r.room_id batch unknown ∷ []
  reject_unavailable r (leave connection) = []
  reject_unavailable r (retry_ambiguous response) = respond response false ∷ []
  reject_unavailable r (wait_for_activation response) = activated response ∷ []

  abbrev pub responded : ℕ → ℕ → RoomActor Doc × Bool × S → Handled Doc S
  responded counter response (r, result, s) = record {
    actor = r;
    counter = counter;
    emitted = respond response result ∷ [];
    service = s;
  }

  -- The client's commands, in a state that takes them.
  unfoldable pub accept_command : RoomActor Doc → ℕ → Command → S → Handled Doc S
  accept_command r counter (join connection version peer) s =
      let (r', after, sent) = on_join services.room r counter connection version peer in
      record { actor = r'; counter = after; emitted = sent; service = s }
  accept_command r counter (update connection batch updates peer) s =
      on_update services r counter
        (record { connection = connection; batch_id = batch; updates = updates; peer = peer }) s
  accept_command r counter (leave connection) s = record {
    actor = publish_status (record r { peers = remove_peer r.peers connection });
    counter = counter;
    emitted = [];
    service = s;
  }
  accept_command r counter (retry_ambiguous response) s =
      responded counter response (retry_pending services r s)
  accept_command r counter (wait_for_activation response) s = record {
    actor = r;
    counter = counter;
    emitted = activated response ∷ [];
    service = s;
  }
  accept_command r counter (rotate response) s =
      responded counter response (rotate_generation services r s)

  abbrev pub rejected_command : RoomActor Doc → ℕ → Command → S → Handled Doc S
  rejected_command r counter command s = record {
    actor = r;
    counter = counter;
    emitted = reject_unavailable r command;
    service = s;
  }

  -- The `match` of `run`.
  unfoldable pub handle_command : RoomActor Doc → ℕ → Command → S → Handled Doc S
  handle_command r counter command s =
      if is_for_operator command
      then accept_command r counter command s
      else if refuses r.lifecycle
      then rejected_command r counter command s
      else accept_command r counter command s
