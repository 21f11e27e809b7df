-- ===== src/Actor/Reachable.antt =====
-- src/actor.rs: every room that activation and commands reach is consistent.
use quorum_loro_gateway.Prelude.{ℕ, refl, inl, inr, Bool-cases, Option, List, ◌==◌, Result-cases}
use quorum_loro_gateway.Actor.{
  is_ready, refuses, Command, join, update, leave, retry_ambiguous, wait_for_activation, rotate,
  Services, RoomActor, insert_peer, publish_status,
}
use quorum_loro_gateway.Actor.Initialize.{activate}
use quorum_loro_gateway.Actor.Sending.{client_version, accept_join, on_join}
use quorum_loro_gateway.Actor.Commands.{accept_command, is_for_operator, handle_command}
use quorum_loro_gateway.Actor.Consistent.{
  Consistent, publish-Consistent, on_update-Consistent, rotate_generation-Consistent,
}
use quorum_loro_gateway.Actor.Loads.{activate-Consistent, retry_pending-Consistent}
use quorum_loro_gateway.Actor.{new}

module _ {Doc Version S : Type 0} (services : Services Doc Version S) where
  accept_join-Consistent :
      (r : RoomActor Doc) (counter connection peer : ℕ) (version : Option Version)
      → Consistent r
      → Consistent (accept_join services.room r counter connection peer version).0
  unfolding accept_join
  accept_join-Consistent r counter connection peer version c =
      elim (Bool-cases (services.room.len_ops (joined r connection peer).doc == 0)) [
        | inl e ↦ rw e (publish-Consistent _ c.unblocked c.ambiguous_blocked)
        | inr e ↦ rw e (publish-Consistent _ c.unblocked c.ambiguous_blocked)
      ]
    where
      joined : RoomActor Doc → ℕ → ℕ → RoomActor Doc
      joined r connection peer =
          publish_status (record r { peers = insert_peer r.peers connection peer })

  on_join-Consistent :
      (r : RoomActor Doc) (counter connection : ℕ) (version : List ℕ) (peer : ℕ)
      → Consistent r
      → Consistent (on_join services.room r counter connection version peer).0
  unfolding on_join
  on_join-Consistent r counter connection version peer c =
      elim (Bool-cases (is_ready r.lifecycle)) [
        | inr closed ↦ rw closed c
        | inl is_open ↦ elim (Result-cases (client_version services.room version)) [
          | inr (error, e) ↦ rw is_open (rw (e, on_join) c)
          | inl (known, e) ↦
              rw is_open
                (rw (e, on_join) (accept_join-Consistent r counter connection peer known c))
        ]
      ]

  accept_command-Consistent :
      (r : RoomActor Doc) (counter : ℕ) (command : Command) (s : S)
      → Consistent r
      → Consistent (accept_command services r counter command s).actor
  unfolding accept_command
  accept_command-Consistent r counter (join connection version peer) s c =
      on_join-Consistent r counter connection version peer c
  accept_command-Consistent r counter (update connection batch updates peer) s c =
      on_update-Consistent services r c counter _ s
  accept_command-Consistent r counter (leave connection) s c =
      publish-Consistent _ c.unblocked c.ambiguous_blocked
  accept_command-Consistent r counter (retry_ambiguous response) s c =
      retry_pending-Consistent services r s c
  accept_command-Consistent r counter (wait_for_activation response) s c = c
  accept_command-Consistent r counter (rotate response) s c =
      rotate_generation-Consistent services r c s

  handle_command-Consistent :
      (r : RoomActor Doc) (counter : ℕ) (command : Command) (s : S)
      → Consistent r
      → Consistent (handle_command services r counter command s).actor
  unfolding handle_command
  handle_command-Consistent r counter command s c = elim (Bool-cases (is_for_operator command)) [
    | inl operator ↦ rw operator (accept_command-Consistent r counter command s c)
    | inr client ↦ elim (Bool-cases (refuses r.lifecycle)) [
      | inl refused ↦ rw client (rw refused c)
      | inr taken ↦ rw client (rw taken (accept_command-Consistent r counter command s c))
    ]
  ]

  -- The rooms of `run`: an activated one, and those after a command, with any counter and any state
  -- of the service.
  pub data Reach : RoomActor Doc → Type 0 where
    activated_room :
        (room_id boot_id : List ℕ) (s : S)
        → Reach (activate services (new services.hashes services.room.empty room_id boot_id) s).0
    after :
        {r : RoomActor Doc} (counter : ℕ) (command : Command) (s : S)
        → Reach r
        → Reach (handle_command services r counter command s).actor

  -- Every room that activation and then commands reach, whatever the service does, is consistent: if
  -- it is ready no append is blocked, if it is ambiguous one is, and the status that others read has
  -- the room's own stream, lifecycle, producer, sequences, number of peers, last error and recovered
  -- sizes.
  pub Reach-Consistent : {r : RoomActor Doc} → Reach r → Consistent r
  unfolding new
  Reach-Consistent (activated_room room_id boot_id s) = activate-Consistent services _ s refl
  Reach-Consistent (after counter command s reach) =
      handle_command-Consistent _ counter command s (Reach-Consistent reach)
