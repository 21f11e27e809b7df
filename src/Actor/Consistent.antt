-- ===== src/Actor/Consistent.antt =====
-- src/actor.rs: what holds of a room between any two commands.
use quorum_loro_gateway.Prelude.{
  ℕ, length, ◌≡◌, refl, inl, inr, Bool, true, false, Bool-cases, ◌&&◌, Option, none, Option-cases,
  String, Result, ok, err, Result-cases,
}
use quorum_loro_gateway.Bytes.{checked_add}
use quorum_loro_gateway.Frame as Frame
use quorum_loro_gateway.Frame.{encode_with_limits, is_empty}
use quorum_loro_gateway.Rotation.{RotationError, RotationResult}
use quorum_loro_gateway.Actor.{
  RoomLifecycle, recovering, ready, append_ambiguous, corrupt, unavailable, is_ready, PendingAppend,
  DurableAppend, AppendFailure, definitely_rejected, outcome_unknown, Services, RoomActor,
  contains_key, pending_sequence, publish_status, transition,
}
use quorum_loro_gateway.Actor.Blobs.{validate_update_blobs, build_candidate}
use quorum_loro_gateway.Actor.Update.{
  is_none, Request, finish_update, producer_of, append_update, try_update, on_update,
}
use quorum_loro_gateway.Actor.Operate.{adopt_rotation, finish_rotation, rotate_generation}

abbrev pub is_ambiguous : RoomLifecycle → Bool
is_ambiguous recovering = false
is_ambiguous ready = false
is_ambiguous append_ambiguous = true
is_ambiguous corrupt = false
is_ambiguous unavailable = false

-- The status that others read tells what the room is.
pub record Published {Doc : Type 0} (r : RoomActor Doc) : Type 0 where
  pub same_stream : r.status.stream ≡ r.stream
  pub same_state : r.status.state ≡ r.lifecycle
  pub same_producer : r.status.producer_id ≡ r.producer_id
  pub same_sequence : r.status.producer_sequence ≡ r.producer_sequence
  pub same_pending : r.status.pending_sequence ≡ pending_sequence r.blocked
  pub same_peers : r.status.peer_count ≡ length r.peers
  pub same_error : r.status.last_error ≡ r.last_error
  pub same_bytes : r.status.recovered_stream_bytes ≡ r.recovered_stream_bytes
  pub same_updates : r.status.recovered_update_count ≡ r.recovered_update_count

-- A ready room has no blocked append, an ambiguous one has one, and the status tells what the room is.
pub record Consistent {Doc : Type 0} (r : RoomActor Doc) : Type 0 where
  pub unblocked : is_ready r.lifecycle ≡ true → is_none r.blocked ≡ true
  pub ambiguous_blocked : is_ambiguous r.lifecycle ≡ true → is_none r.blocked ≡ false
  pub published : Published r

module _ {Doc : Type 0} where
  publish_status-Published : (r : RoomActor Doc) → Published (publish_status r)
  unfolding publish_status
  publish_status-Published r = record {
    same_stream = refl;
    same_state = refl;
    same_producer = refl;
    same_sequence = refl;
    same_pending = refl;
    same_peers = refl;
    same_error = refl;
    same_bytes = refl;
    same_updates = refl;
  }

  -- A transition publishes what it leaves.
  pub transition-Consistent :
      (r : RoomActor Doc) (state : RoomLifecycle) (last_error : Option String)
      → (is_ready state ≡ true → is_none r.blocked ≡ true)
      → (is_ambiguous state ≡ true → is_none r.blocked ≡ false)
      → Consistent (transition r state last_error)
  unfolding transition publish_status
  transition-Consistent r state last_error h k = record {
    unblocked = h;
    ambiguous_blocked = k;
    published = publish_status-Published (record r { lifecycle = state; last_error = last_error });
  }

  pub publish-Consistent :
      (r : RoomActor Doc)
      → (is_ready r.lifecycle ≡ true → is_none r.blocked ≡ true)
      → (is_ambiguous r.lifecycle ≡ true → is_none r.blocked ≡ false)
      → Consistent (publish_status r)
  unfolding publish_status
  publish-Consistent r h k = record {
    unblocked = h;
    ambiguous_blocked = k;
    published = publish_status-Published r;
  }

module _ {Doc Version S : Type 0} (services : Services Doc Version S) where
  module _ (r : RoomActor Doc) (c : Consistent r) where
    finish_update-Consistent :
        (counter : ℕ) (q : Request) (next : ℕ) (candidate : Doc) (pending : PendingAppend)
        (result : Result AppendFailure DurableAppend × S)
        → is_none r.blocked ≡ true
        → Consistent (finish_update services r counter q next candidate pending result).actor
    unfolding finish_update
    finish_update-Consistent counter q next candidate pending (ok proof, s) free =
        transition-Consistent _ ready none (λ h. free) (λ h. cc)
    finish_update-Consistent counter q next candidate pending (err (definitely_rejected kind m), s)
          free =
        c
    finish_update-Consistent counter q next candidate pending (err (outcome_unknown error), s)
          free =
        transition-Consistent _ append_ambiguous _ (λ h. cc) (λ h. refl)

    pub on_update-Consistent :
        (counter : ℕ) (q : Request) (s : S) → Consistent (on_update services r counter q s).actor
    unfolding on_update try_update append_update
    on_update-Consistent counter q s = elim (Bool-cases (contains_key r.peers q.connection)) [
      | inr stranger ↦ rw stranger c
      | inl peer ↦ elim (Bool-cases (is_ready r.lifecycle && is_none r.blocked)) [
        | inr closed ↦ rw peer (rw closed c)
        | inl free ↦ rw peer (
            rw free
              elim (Result-cases
                (validate_update_blobs services.room q.updates (is_empty r.history))) [
                  | inr (_, e) ↦ rw (e, try_update) c
                  | inl (_, e) ↦
                      elim (Result-cases
                        (build_candidate services.room r.doc r.history q.updates)) [
                          | inr (_, f) ↦ rw (e, try_update) (rw f c)
                          | inl (candidate, f) ↦
                              rw (e, try_update)
                                (rw f (appended counter q candidate s (and_right _ _ free)))
                        ]
                ])
      ]
    ]
      where
        and_right : (a b : Bool) → (a && b) ≡ true → b ≡ true
        and_right true b e = e
        and_right false b e = cc

        appended :
            (counter : ℕ) (q : Request) (candidate : Doc) (s : S)
            → is_none r.blocked ≡ true
            → Consistent (append_update services r counter q candidate s).actor
        appended counter q candidate s free =
            elim (Option-cases (checked_add r.producer_sequence 1)) [
              | inl e ↦ rw (e, append_update) c
              | inr (next, e) ↦
                  elim (Result-cases (
                    encode_with_limits services.hashes
                      (Frame.new services.hashes (producer_of services r) q.batch_id q.updates)
                      services.config.frame_limits)) [
                        | inr (_, f) ↦ rw (e, append_update) (rw f c)
                        | inl (bytes, f) ↦
                            rw (e, append_update)
                              (rw f (finish_update-Consistent counter q next candidate _ _ free))
                      ]
            ]

    finish_rotation-Consistent :
        (result : Result RotationError RotationResult × S)
        → is_none r.blocked ≡ true
        → Consistent (finish_rotation services r result).0
    unfolding finish_rotation adopt_rotation
    finish_rotation-Consistent (ok rotated, s) free =
        transition-Consistent _ ready none (λ h. free) (λ h. cc)
    finish_rotation-Consistent (err error, s) free =
        transition-Consistent r unavailable _ (λ h. cc) (λ h. cc)

    pub rotate_generation-Consistent : (s : S) → Consistent (rotate_generation services r s).0
    unfolding rotate_generation
    rotate_generation-Consistent s = elim (Bool-cases (is_ready r.lifecycle && is_none r.blocked)) [
      | inr closed ↦ rw closed c
      | inl free ↦ rw free (finish_rotation-Consistent _ (and_right _ _ free))
    ]
      where
        and_right : (a b : Bool) → (a && b) ≡ true → b ≡ true
        and_right true b e = e
        and_right false b e = cc
