-- ===== src/Manager/Kept.antt =====
-- What the manager keeps: one actor for each room, and every actor reached by activation and commands.
use quorum_loro_gateway.Prelude.{
  ℕ, ◌≡◌, inl, inr, false, Bool-cases, none, some, Option-cases, List, [], ◌∷◌, bytes_eq, All,
}
use mathlib.Core.Path.{subst}
use quorum_loro_gateway.Actor.{Command, Services, RoomActor}
use quorum_loro_gateway.Actor.Reachable.{Reach, activated_room, after}
use quorum_loro_gateway.Server.{Action}
use quorum_loro_gateway.Manager.{
  command_of, find_room, replace_room, Routed, room, send_command, perform,
}

module _ {Doc : Type 0} where
  -- No room stands twice in the map.
  abbrev pub OnePerRoom : List (List ℕ × RoomActor Doc) → Type 0
  OnePerRoom [] = Unit
  OnePerRoom ((id, r) ∷ rooms) = All (λ e. bytes_eq e.0 id ≡ false) rooms × OnePerRoom rooms

  All-replace_room :
      (P : List ℕ × RoomActor Doc → Type 0) (rooms : List (List ℕ × RoomActor Doc))
      (room_id : List ℕ) (actor : RoomActor Doc)
      → ((id : List ℕ) (r : RoomActor Doc) → P (id, r) → P (id, actor))
      → All P rooms
      → All P (replace_room rooms room_id actor)
  unfolding replace_room
  All-replace_room P [] room_id actor f h = tt
  All-replace_room P ((id, r) ∷ rooms) room_id actor f h = elim (Bool-cases (bytes_eq id room_id)) [
    | inl same ↦ rw same (f id r h.0, h.1)
    | inr other ↦ rw other (h.0, All-replace_room P rooms room_id actor f h.1)
  ]

  replace_room-OnePerRoom :
      (rooms : List (List ℕ × RoomActor Doc)) (room_id : List ℕ) (actor : RoomActor Doc)
      → OnePerRoom rooms
      → OnePerRoom (replace_room rooms room_id actor)
  unfolding replace_room
  replace_room-OnePerRoom [] room_id actor h = tt
  replace_room-OnePerRoom ((id, r) ∷ rooms) room_id actor h =
      elim (Bool-cases (bytes_eq id room_id)) [
        | inl same ↦ rw same h
        | inr other ↦ rw other (
          All-replace_room (λ e. bytes_eq e.0 id ≡ false) rooms room_id actor (λ i r' p. p) h.0,
          replace_room-OnePerRoom rooms room_id actor h.1,
        )
      ]

  find_room-none :
      (rooms : List (List ℕ × RoomActor Doc)) (room_id : List ℕ)
      → find_room rooms room_id ≡ none
      → All (λ e. bytes_eq e.0 room_id ≡ false) rooms
  unfolding find_room
  find_room-none [] room_id e = tt
  find_room-none ((id, r) ∷ rooms) room_id e = elim (Bool-cases (bytes_eq id room_id)) [
    | inl same ↦ cc (rw same at e)
    | inr other ↦ (other, find_room-none rooms room_id (rw other at e))
  ]

  find_room-All :
      (P : RoomActor Doc → Type 0) (rooms : List (List ℕ × RoomActor Doc)) (room_id : List ℕ)
      {r : RoomActor Doc}
      → find_room rooms room_id ≡ some r
      → All (λ e. P e.1) rooms
      → P r
  unfolding find_room
  find_room-All P [] room_id e h = cc
  find_room-All P ((id, r') ∷ rooms) room_id {r} e h = elim (Bool-cases (bytes_eq id room_id)) [
    | inl same ↦ subst P (found r' r (rw same at e)) h.0
    | inr other ↦ find_room-All P rooms room_id (rw other at e) h.1
  ]
    where
      found : (x y : RoomActor Doc) → some x ≡ some y → x ≡ y
      found x y e = cc

  All-replaced :
      (P : RoomActor Doc → Type 0) (rooms : List (List ℕ × RoomActor Doc)) (room_id : List ℕ)
      (actor : RoomActor Doc)
      → P actor
      → All (λ e. P e.1) rooms
      → All (λ e. P e.1) (replace_room rooms room_id actor)
  All-replaced P rooms room_id actor p h =
      All-replace_room (λ e. P e.1) rooms room_id actor (λ id r q. p) h

module _ {Doc Version S : Type 0} (services : Services Doc Version S) (boot_id : List ℕ) where
  pub record Kept (rooms : List (List ℕ × RoomActor Doc)) : Type 0 where
    pub one_actor : OnePerRoom rooms
    pub reached : All (λ e. Reach services e.1) rooms

  room-Kept :
      (rooms : List (List ℕ × RoomActor Doc)) (room_id : List ℕ) (s : S)
      → Kept rooms
      → Kept (room services boot_id rooms room_id s).1
        × Reach services (room services boot_id rooms room_id s).0
  unfolding room
  room-Kept rooms room_id s k = elim (Option-cases (find_room rooms room_id)) [
    | inr (r, e) ↦ rw (e, room) (k, find_room-All (λ a. Reach services a) rooms room_id e k.reached)
    | inl e ↦
        rw (e, room)
          (
            record {
              one_actor = (find_room-none rooms room_id e, k.one_actor);
              reached = (activated_room room_id boot_id s, k.reached);
            },
            activated_room room_id boot_id s,
          )
  ]

  send_command-Kept :
      (m : Routed Doc S) (room_id : List ℕ) (command : Command)
      → Kept m.rooms
      → Kept (send_command services boot_id m room_id command).rooms
  unfolding send_command
  send_command-Kept m room_id command k =
      let (kept, reach) = room-Kept m.rooms room_id m.service k in
      record {
        one_actor = replace_room-OnePerRoom _ room_id _ kept.one_actor;
        reached =
            All-replaced (λ a. Reach services a) (room services boot_id m.rooms room_id m.service).1
              room_id _ (after m.counter command _ reach) kept.reached;
      }

  pub perform-Kept :
      (connection peer : ℕ) (actions : List Action) (m : Routed Doc S)
      → Kept m.rooms
      → Kept (perform services boot_id connection peer actions m).rooms
  unfolding perform
  perform-Kept connection peer [] m k = k
  perform-Kept connection peer (action ∷ actions) m k =
      elim (Option-cases (command_of connection peer action)) [
        | inl e ↦ rw (e, perform) (perform-Kept connection peer actions m k)
        | inr ((room_id, command), e) ↦
            rw (e, perform)
              (perform-Kept connection peer actions _ (send_command-Kept m room_id command k))
      ]
