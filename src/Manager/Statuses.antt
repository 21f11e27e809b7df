-- ===== src/Manager/Statuses.antt =====
-- src/actor.rs, `room_statuses`: the statuses come sorted, and all of them come.
use quorum_loro_gateway.Prelude.{
  ℕ, ◌≡◌, refl, inl, inr, true, false, Bool-cases, List, [], ◌∷◌, arith, All,
}
use mathlib.Core.List.{Permᴰ}
use mathlib.Core.List.Permᴰ
use quorum_loro_gateway.Actor.{RoomStatus, RoomActor}
use quorum_loro_gateway.Manager.{at_most, insert_status, sort_statuses, statuses_of, room_statuses}

-- Each stream is at most all that come later.
abbrev pub IsSorted : List RoomStatus → Type 0
IsSorted [] = Unit
IsSorted (status ∷ statuses) =
    All (λ later. at_most status.stream later.stream ≡ true) statuses × IsSorted statuses

at_most_total : (xs ys : List ℕ) → at_most xs ys ≡ false → at_most ys xs ≡ true
at_most_total [] ys e = cc
at_most_total (x ∷ xs) [] e = refl
at_most_total (x ∷ xs) (y ∷ ys) e = ground (arith, at_most_total xs ys)

at_most_trans :
    (xs ys zs : List ℕ) → at_most xs ys ≡ true → at_most ys zs ≡ true → at_most xs zs ≡ true
at_most_trans [] ys zs e f = refl
at_most_trans (x ∷ xs) [] zs e f = cc
at_most_trans (x ∷ xs) (y ∷ ys) [] e f = cc
at_most_trans (x ∷ xs) (y ∷ ys) (z ∷ zs) e f = ground (arith, at_most_trans xs ys zs)

All-insert_status :
    (P : RoomStatus → Type 0) (status : RoomStatus) (statuses : List RoomStatus)
    → P status
    → All P statuses
    → All P (insert_status status statuses)
unfolding insert_status
All-insert_status P status [] p h = (p, tt)
All-insert_status P status (first ∷ rest) p h =
    elim (Bool-cases (at_most status.stream first.stream)) [
      | inl low ↦ rw low (p, h)
      | inr high ↦ rw high (h.0, All-insert_status P status rest p h.1)
    ]

All-at_most :
    (a b : List ℕ) (statuses : List RoomStatus)
    → at_most a b ≡ true
    → All (λ later. at_most b later.stream ≡ true) statuses
    → All (λ later. at_most a later.stream ≡ true) statuses
All-at_most a b [] e h = tt
All-at_most a b (status ∷ statuses) e h =
    (at_most_trans a b status.stream e h.0, All-at_most a b statuses e h.1)

insert_status-IsSorted :
    (status : RoomStatus) (statuses : List RoomStatus)
    → IsSorted statuses
    → IsSorted (insert_status status statuses)
unfolding insert_status
insert_status-IsSorted status [] h = (tt, tt)
insert_status-IsSorted status (first ∷ rest) h =
    elim (Bool-cases (at_most status.stream first.stream)) [
      | inl low ↦ rw low ((low, All-at_most status.stream first.stream rest low h.0), h)
      | inr high ↦ rw high (
        All-insert_status (λ later. at_most first.stream later.stream ≡ true) status rest
            (at_most_total status.stream first.stream high) h.0,
        insert_status-IsSorted status rest h.1,
      )
    ]

sort_statuses-IsSorted : (statuses : List RoomStatus) → IsSorted (sort_statuses statuses)
unfolding sort_statuses
sort_statuses-IsSorted [] = tt
sort_statuses-IsSorted (status ∷ statuses) =
    insert_status-IsSorted status (sort_statuses statuses) (sort_statuses-IsSorted statuses)

insert_status-perm :
    (status : RoomStatus) (statuses : List RoomStatus)
    → Permᴰ (insert_status status statuses) (status ∷ statuses)
unfolding insert_status
insert_status-perm status [] = Permᴰ.refl (status ∷ [])
insert_status-perm status (first ∷ rest) = elim (Bool-cases (at_most status.stream first.stream)) [
  | inl low ↦ rw low (Permᴰ.refl (status ∷ first ∷ rest))
  | inr high ↦
      rw high
        (Permᴰ.trans (Permᴰ.cons refl (insert_status-perm status rest)) (Permᴰ.swap refl refl))
]

sort_statuses-perm : (statuses : List RoomStatus) → Permᴰ (sort_statuses statuses) statuses
unfolding sort_statuses
sort_statuses-perm [] = Permᴰ.nil
sort_statuses-perm (status ∷ statuses) =
    Permᴰ.trans (insert_status-perm status (sort_statuses statuses))
      (Permᴰ.cons refl (sort_statuses-perm statuses))

-- The statuses of the rooms, whatever rooms there are, come in the order of their streams, and they are
-- the statuses of all rooms, each once.
pub room_statuses-IsSorted :
    {Doc : Type 0} (rooms : List (List ℕ × RoomActor Doc))
    → IsSorted (room_statuses rooms) × Permᴰ (room_statuses rooms) (statuses_of rooms)
unfolding room_statuses
room_statuses-IsSorted rooms =
    (sort_statuses-IsSorted (statuses_of rooms), sort_statuses-perm (statuses_of rooms))
