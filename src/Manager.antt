-- ===== src/Manager.antt =====
-- src/actor.rs, `RoomManager` and `RoomHandle`: the rooms by their IDs, and the commands that the
-- server's calls send to them. A room's commands are handled in the order in which they are sent.
pub mod Kept
mod Examples
pub mod Statuses
use quorum_loro_gateway.Prelude.{
  ℕ, Bool, true, false, Option, none, some, List, [], ◌∷◌, ◌++◌, ◌==◌, ltb, bytes_eq, map,
  if◌then◌else◌,
}
use quorum_loro_gateway.Actor.{
  RoomStatus, Emission, respond, Command, join, update, leave, Command, Services, RoomActor, new,
}
use quorum_loro_gateway.Actor as Actor
use quorum_loro_gateway.Actor.Initialize.{activate}
use quorum_loro_gateway.Actor.Commands.{handle_command}
use quorum_loro_gateway.Actor.Update.{Handled}
use quorum_loro_gateway.Server.{Action, send, send_text, room_join, room_update, room_leave}

-- The command that an action of a connection sends, and the room that it is for.
unfoldable pub command_of : ℕ → ℕ → Action → Option (List ℕ × Command)
command_of connection peer (send message) = none
command_of connection peer (send_text text) = none
command_of connection peer (room_join room version) = some (room, join connection version peer)
command_of connection peer (room_update room batch updates) =
    some (room, update connection batch updates peer)
command_of connection peer (room_leave room) = some (room, leave connection)

-- `left.cmp(&right)` is not greater.
abbrev pub at_most : List ℕ → List ℕ → Bool
at_most [] ys = true
at_most (x ∷ xs) [] = false
at_most (x ∷ xs) (y ∷ ys) = if ltb x y then true else (if x == y then at_most xs ys else false)

unfoldable pub insert_status : RoomStatus → List RoomStatus → List RoomStatus
insert_status status [] = status ∷ []
insert_status status (first ∷ rest) =
    let later = insert_status status rest in
    if at_most status.stream first.stream then status ∷ first ∷ rest else first ∷ later

unfoldable pub sort_statuses : List RoomStatus → List RoomStatus
sort_statuses [] = []
sort_statuses (status ∷ statuses) = insert_status status (sort_statuses statuses)

module _ {Doc : Type 0} where
  unfoldable pub find_room : List (List ℕ × RoomActor Doc) → List ℕ → Option (RoomActor Doc)
  find_room [] room_id = none
  find_room ((id, r) ∷ rooms) room_id =
      if bytes_eq id room_id then some r else find_room rooms room_id

  -- The actor of a room after a command.
  unfoldable pub replace_room :
      List (List ℕ × RoomActor Doc) → List ℕ → RoomActor Doc → List (List ℕ × RoomActor Doc)
  replace_room [] room_id actor = []
  replace_room ((id, r) ∷ rooms) room_id actor =
      if bytes_eq id room_id
      then (id, actor) ∷ rooms
      else (id, r) ∷ replace_room rooms room_id actor

  abbrev pub statuses_of : List (List ℕ × RoomActor Doc) → List RoomStatus
  statuses_of [] = []
  statuses_of ((id, r) ∷ rooms) = r.status ∷ statuses_of rooms

  unfoldable pub room_statuses : List (List ℕ × RoomActor Doc) → List RoomStatus
  room_statuses rooms = sort_statuses (statuses_of rooms)

-- The rooms with what commands did: the counter of batches, what was emitted, and the service.
pub record Routed (Doc S : Type 0) : Type 0 where
  pub rooms : List (List ℕ × RoomActor Doc)
  pub counter : ℕ
  pub emitted : List Emission
  pub service : S

module _ {Doc Version S : Type 0} (services : Services Doc Version S) (boot_id : List ℕ) where
  -- The room of an ID, which is made and activated when it is first asked for.
  unfoldable pub room :
      List (List ℕ × RoomActor Doc) → List ℕ → S → RoomActor Doc × List (List ℕ × RoomActor Doc) × S
  room rooms room_id s = elim (find_room rooms room_id) [
    | some r ↦ (r, rooms, s)
    | none ↦
        let (r, s') =
          activate services (new services.hashes services.room.empty room_id boot_id) s in
        (r, (room_id, r) ∷ rooms, s')
  ]

  unfoldable pub send_command : Routed Doc S → List ℕ → Command → Routed Doc S
  send_command m room_id command =
      let (r, rooms, s) = room m.rooms room_id m.service in
      let handled = handle_command services r m.counter command s in
      record {
        rooms = replace_room rooms room_id handled.actor;
        counter = handled.counter;
        emitted = m.emitted ++ handled.emitted;
        service = handled.service;
      }

  -- The actions of a connection, in order; those that are no calls of rooms do nothing here.
  unfoldable pub perform : ℕ → ℕ → List Action → Routed Doc S → Routed Doc S
  perform connection peer [] m = m
  perform connection peer (action ∷ actions) m = elim (command_of connection peer action) [
    | none ↦ perform connection peer actions m
    | some (room_id, command) ↦ perform connection peer actions (send_command m room_id command)
  ]

  -- The operator's retry asks only a room that is there.
  unfoldable pub retry_ambiguous : ℕ → Routed Doc S → List ℕ → Routed Doc S
  retry_ambiguous response m room_id = elim (find_room m.rooms room_id) [
    | none ↦ record m { emitted = m.emitted ++ respond response false ∷ [] }
    | some r ↦ send_command m room_id (Actor.retry_ambiguous response)
  ]
