-- ===== src/Manager/Examples.antt =====
-- The rooms of a manager after a connection joined one, sent an update and left.
use quorum_loro_gateway.Prelude.{ℕ, [], ◌∷◌, List}
use mathlib.Core.List.{Permᴰ}
use quorum_loro_gateway.Actor.{RoomActor}
use quorum_loro_gateway.Actor.Samples.{services, open_room, lossy}
use quorum_loro_gateway.Store.Memory.{Memory}
use quorum_loro_gateway.Server.{Action, room_join, room_update, room_leave}
use quorum_loro_gateway.Manager.{Routed, perform, room_statuses, statuses_of}
use quorum_loro_gateway.Manager.Kept.{Kept, perform-Kept}
use quorum_loro_gateway.Manager.Statuses.{IsSorted, room_statuses-IsSorted}

abbrev no_rooms : Routed (List ℕ) Memory
no_rooms = record { rooms = []; counter = 1; emitted = []; service = lossy }

abbrev actions : List Action
actions =
    room_join (100 ∷ []) []
    ∷ room_update (100 ∷ []) (0 ∷ []) ((5 ∷ 6 ∷ []) ∷ [])
    ∷ room_join (101 ∷ []) []
    ∷ room_leave (100 ∷ [])
    ∷ []

perform-Kept_example :
    Kept (services 3) (7 ∷ []) (perform (services 3) (7 ∷ []) 1 11 actions no_rooms).rooms
perform-Kept_example =
    perform-Kept (services 3) (7 ∷ []) 1 11 actions no_rooms
      (record { one_actor = tt; reached = tt })

abbrev two_rooms : List (List ℕ × RoomActor (List ℕ))
two_rooms = (2 ∷ [], open_room) ∷ (1 ∷ [], open_room) ∷ []

room_statuses-IsSorted_example :
    IsSorted (room_statuses two_rooms) × Permᴰ (room_statuses two_rooms) (statuses_of two_rooms)
room_statuses-IsSorted_example = room_statuses-IsSorted two_rooms
