-- ===== src/Actor/Refused.antt =====
-- src/actor.rs, `update`: what an update that is not acknowledged `Ok` leaves as it was.
use quorum_loro_gateway.Prelude.{
  or_true, ℕ, ◌≡◌, refl, inl, inr, true, false, Bool-cases, ◌&&◌, Option-cases, List, [], ◌∷◌, ◌++◌,
  All, Result, ok, err, Result-cases,
}
use quorum_loro_gateway.Bytes.{checked_add}
use quorum_loro_gateway.Frame as Frame
use quorum_loro_gateway.Frame.{encode_with_limits, is_empty}
use quorum_loro_gateway.LoroProtocol.{
  loro, UpdateStatusCode, unknown, permission_denied, invalid_update, payload_too_large,
  rate_limited, app_error, ack,
}
use quorum_loro_gateway.Actor.{
  is_ready, PendingAppend, DurableAppend, AppendFailure, definitely_rejected, outcome_unknown,
  Emission, to_peer, respond, activated, Services, RoomActor, contains_key, publish_status,
  transition,
}
use quorum_loro_gateway.Actor.Blobs.{validate_update_blobs, build_candidate}
use quorum_loro_gateway.Actor.Sending.{broadcast}
use quorum_loro_gateway.Actor.Update.{
  status_of_rejection, is_none, Handled, Request, answer, finish_update, producer_of, append_update,
  try_update, on_update,
}
use quorum_loro_gateway.Actor.Acked.{acks_ok, is_ok, is_ok_ack}
use quorum_loro_gateway.Actor.{update, refuses}
use quorum_loro_gateway.Actor.Commands.{handle_command, accept_command, reject_unavailable}

-- The emission is a message to this peer.
abbrev pub Tells : ℕ → Emission → Type 0
Tells peer (to_peer p m) = p ≡ peer
Tells peer (respond channel b) = ⊥
Tells peer (activated channel) = ⊥

acks_ok-last :
    (xs : List Emission) (peer : ℕ) (room batch : List ℕ)
    → acks_ok (xs ++ to_peer peer (ack loro room batch UpdateStatusCode.ok) ∷ []) ≡ true
acks_ok-last [] peer room batch = refl
acks_ok-last (to_peer p m ∷ xs) peer room batch =
    rw (acks_ok-last xs peer room batch) (or_true (is_ok_ack m))
acks_ok-last (respond channel b ∷ xs) peer room batch = acks_ok-last xs peer room batch
acks_ok-last (activated channel ∷ xs) peer room batch = acks_ok-last xs peer room batch

module _ {Doc Version S : Type 0} (services : Services Doc Version S) where
  -- The durable state of the room is as it was, and nobody but the sender is told anything.
  pub record Unchanged (r : RoomActor Doc) (q : Request) (after : Handled Doc S) : Type 0 where
    pub doc : after.actor.doc ≡ r.doc
    pub history : after.actor.history ≡ r.history
    pub sequence : after.actor.producer_sequence ≡ r.producer_sequence
    pub end_offset : after.actor.active_delta_end_offset ≡ r.active_delta_end_offset
    pub stream : after.actor.stream ≡ r.stream
    pub peers : after.actor.peers ≡ r.peers
    pub told : All (Tells q.peer) after.emitted

  module _ (r : RoomActor Doc) (counter : ℕ) (q : Request) where
    answer-Unchanged :
        (status : UpdateStatusCode) (s : S) → Unchanged r q (answer services r counter q status s)
    answer-Unchanged status s = record {
      doc = refl;
      history = refl;
      sequence = refl;
      end_offset = refl;
      stream = refl;
      peers = refl;
      told = (refl, tt);
    }

    finish_update-Unchanged :
        (next : ℕ) (candidate : Doc) (pending : PendingAppend)
        (result : Result AppendFailure DurableAppend × S)
        → acks_ok (finish_update services r counter q next candidate pending result).emitted ≡ false
        → Unchanged r q (finish_update services r counter q next candidate pending result)
    unfolding finish_update transition publish_status
    finish_update-Unchanged next candidate pending (ok proof, s) h = cc (
        acks_ok-last (broadcast counter q.connection r.room_id q.updates r.peers).1 q.peer r.room_id
          q.batch_id)
    finish_update-Unchanged next candidate pending (err (definitely_rejected kind m), s) h =
        answer-Unchanged (status_of_rejection kind) s
    finish_update-Unchanged next candidate pending (err (outcome_unknown error), s) h = record {
      doc = refl;
      history = refl;
      sequence = refl;
      end_offset = refl;
      stream = refl;
      peers = refl;
      told = (refl, (refl, tt));
    }

    append_update-Unchanged :
        (candidate : Doc) (s : S)
        → acks_ok (append_update services r counter q candidate s).emitted ≡ false
        → Unchanged r q (append_update services r counter q candidate s)
    unfolding append_update
    append_update-Unchanged candidate s h =
        elim (Option-cases (checked_add r.producer_sequence 1)) [
          | inl exhausted ↦ rw (exhausted, append_update) (answer-Unchanged app_error s)
          | inr (next, e₁) ↦
              elim (Result-cases (
                encode_with_limits services.hashes
                  (Frame.new services.hashes (producer_of services r) q.batch_id q.updates)
                  services.config.frame_limits)) [
                    | inr (error, e₂) ↦
                        rw (e₁, append_update) (rw e₂ (answer-Unchanged payload_too_large s))
                    | inl (bytes, e₂) ↦
                        rw (e₁, append_update)
                          (rw e₂ (
                            finish_update-Unchanged next candidate _ _
                              (rw e₂ at (rw (e₁, append_update) at h))))
                  ]
        ]

    try_update-Unchanged :
        (s : S)
        → acks_ok (try_update services r counter q s).emitted ≡ false
        → Unchanged r q (try_update services r counter q s)
    unfolding try_update
    try_update-Unchanged s h =
        elim (Result-cases (validate_update_blobs services.room q.updates (is_empty r.history))) [
          | inr (error, e₁) ↦ rw (e₁, try_update) (answer-Unchanged invalid_update s)
          | inl (_, e₁) ↦
              elim (Result-cases (build_candidate services.room r.doc r.history q.updates)) [
                | inr (error, e₂) ↦ rw (e₁, try_update) (rw e₂ (answer-Unchanged invalid_update s))
                | inl (candidate, e₂) ↦
                    rw (e₁, try_update)
                      (rw e₂
                        (append_update-Unchanged candidate s (rw e₂ at (rw (e₁, try_update) at h))))
              ]
        ]

    -- An update that is not acknowledged `Ok`, whatever the store does, leaves the room's document,
    -- history, sequence, end offset, stream and peers, and only its sender is told anything.
    pub on_update-Unchanged :
        (s : S)
        → acks_ok (on_update services r counter q s).emitted ≡ false
        → Unchanged r q (on_update services r counter q s)
    unfolding on_update
    on_update-Unchanged s h = elim (Bool-cases (contains_key r.peers q.connection)) [
      | inr stranger ↦ rw stranger (answer-Unchanged permission_denied s)
      | inl peer ↦ elim (Bool-cases (is_ready r.lifecycle && is_none r.blocked)) [
        | inr closed ↦ rw peer (rw closed (answer-Unchanged rate_limited s))
        | inl free ↦ rw peer (rw free (try_update-Unchanged s (rw free at (rw peer at h))))
      ]
    ]

  -- A room that is not ready, or that has a blocked append, refuses an update: the room and the
  -- service are as they were, and the answer is one acknowledgement other than `Ok`.
  pub handle_command-refuses :
      (r : RoomActor Doc) (counter : ℕ) (q : Request) (s : S)
      → (is_ready r.lifecycle && is_none r.blocked) ≡ false
      → (status : UpdateStatusCode) × (is_ok status ≡ false)
        × (handle_command services r counter (update q.connection q.batch_id q.updates q.peer) s
            ≡ answer services r counter q status s)
  unfolding handle_command accept_command reject_unavailable on_update
  handle_command-refuses r counter q s closed = elim (Bool-cases (refuses r.lifecycle)) [
    | inl refused ↦ (unknown, refl, rw refused)
    | inr taken ↦ elim (Bool-cases (contains_key r.peers q.connection)) [
      | inr stranger ↦ (permission_denied, refl, rw taken (rw stranger))
      | inl peer ↦ (rate_limited, refl, rw taken (rw peer (rw closed)))
    ]
  ]
