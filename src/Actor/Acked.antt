-- ===== src/Actor/Acked.antt =====
-- src/actor.rs, `update`: what the acknowledgement `Ok` tells, and what an update without it leaves.
use quorum_loro_gateway.Prelude.{
  ℕ, ◌+◌, ◌≡◌, refl, sym, inl, inr, Bool, true, false, Bool-cases, ◌&&◌, ◌||◌, some, Option-cases,
  List, [], ◌∷◌, ◌++◌, leb, ◌==◌, length, Result, ok, err, Result-cases,
}
use quorum_loro_gateway.Bytes.{checked_add, checked_add-eq-some}
use quorum_loro_gateway.Frame as Frame
use quorum_loro_gateway.Frame.{encode_with_limits, is_empty}
use quorum_loro_gateway.LoroProtocol.{
  UpdateStatusCode, unknown, permission_denied, invalid_update, payload_too_large, rate_limited,
  app_error, fragment_timeout, ProtocolMessage, join_request, join_response_ok, join_error,
  doc_update, doc_update_fragment_header, doc_update_fragment, room_error, leave, ack,
}
use quorum_loro_gateway.Store.{RejectionKind}
use quorum_loro_gateway.Store.Laws.{StoreLaws}
use quorum_loro_gateway.ExactAppend.Stored.{Stored}
use quorum_loro_gateway.Actor.{
  ready, is_ready, DurableAppend, AppendFailure, definitely_rejected, outcome_unknown, Emission,
  to_peer, respond, activated, Services, RoomActor, contains_key, publish_status, transition,
}
use quorum_loro_gateway.Actor.Append.{resolve_append}
use quorum_loro_gateway.Actor.Blobs.{validate_update_blobs, build_candidate}
use quorum_loro_gateway.Actor.Durable.{resolve_append-Stored}
use quorum_loro_gateway.Actor.Sending.{
  fragment_size, chunks, bump, server_batch_id, send_fragments, send_update, send_updates,
  broadcast,
}
use quorum_loro_gateway.Actor.Update.{
  status_of_rejection, is_none, Handled, Request, finish_update, producer_of, pending_of,
  append_update, try_update, on_update,
}

abbrev pub is_ok : UpdateStatusCode → Bool
is_ok UpdateStatusCode.ok = true
is_ok unknown = false
is_ok permission_denied = false
is_ok invalid_update = false
is_ok payload_too_large = false
is_ok rate_limited = false
is_ok fragment_timeout = false
is_ok app_error = false

abbrev pub is_ok_ack : ProtocolMessage → Bool
is_ok_ack (ack crdt room batch status) = is_ok status
is_ok_ack (join_request crdt room version) = false
is_ok_ack (join_response_ok crdt room permission version extra) = false
is_ok_ack (join_error crdt room code message version app_code) = false
is_ok_ack (doc_update crdt room updates batch) = false
is_ok_ack (doc_update_fragment_header crdt room batch count total) = false
is_ok_ack (doc_update_fragment crdt room batch index bytes) = false
is_ok_ack (room_error crdt room code message) = false
is_ok_ack (leave crdt room) = false

-- Whether an acknowledgement `Ok` is emitted.
abbrev pub acks_ok : List Emission → Bool
acks_ok [] = false
acks_ok (to_peer peer m ∷ emitted) = is_ok_ack m || acks_ok emitted
acks_ok (respond channel b ∷ emitted) = acks_ok emitted
acks_ok (activated channel ∷ emitted) = acks_ok emitted

acks_ok-append :
    (xs ys : List Emission) → acks_ok xs ≡ false → acks_ok ys ≡ false → acks_ok (xs ++ ys) ≡ false
acks_ok-append [] ys h k = k
acks_ok-append (to_peer peer m ∷ xs) ys h k =
    both (is_ok_ack m) (acks_ok xs) _ h (acks_ok-append xs ys)
  where
    both :
        (a b c : Bool)
        → (a || b) ≡ false
        → (b ≡ false → acks_ok ys ≡ false → c ≡ false)
        → (a || c) ≡ false
    both true b c h f = cc
    both false b c h f = f h k
acks_ok-append (respond channel b ∷ xs) ys h k = acks_ok-append xs ys h k
acks_ok-append (activated channel ∷ xs) ys h k = acks_ok-append xs ys h k

acks_ok-send_fragments :
    (peer : ℕ) (room batch : List ℕ) (index : ℕ) (fragments : List (List ℕ))
    → acks_ok (send_fragments peer room batch index fragments) ≡ false
unfolding send_fragments
acks_ok-send_fragments peer room batch index [] = refl
acks_ok-send_fragments peer room batch index (f ∷ fs) =
    acks_ok-send_fragments peer room batch (index + 1) fs

acks_ok-send_update :
    (counter peer : ℕ) (room update : List ℕ)
    → acks_ok (send_update counter peer room update) ≡ false
unfolding send_update
acks_ok-send_update counter peer room update =
    elim (Bool-cases (leb (length update) fragment_size)) [
      | inl small ↦ rw small
      | inr large ↦ rw large (
          acks_ok-send_fragments peer room (server_batch_id counter) 0
            (chunks fragment_size update))
    ]

acks_ok-send_updates :
    (counter peer : ℕ) (room : List ℕ) (updates : List (List ℕ))
    → acks_ok (send_updates counter peer room updates).1 ≡ false
unfolding send_updates
acks_ok-send_updates counter peer room [] = refl
acks_ok-send_updates counter peer room (u ∷ us) =
    acks_ok-append (send_update counter peer room u) _ (acks_ok-send_update counter peer room u)
      (acks_ok-send_updates (bump counter) peer room us)

acks_ok-broadcast :
    (counter sender : ℕ) (room : List ℕ) (updates : List (List ℕ)) (peers : List (ℕ × ℕ))
    → acks_ok (broadcast counter sender room updates peers).1 ≡ false
unfolding broadcast
acks_ok-broadcast counter sender room updates [] = refl
acks_ok-broadcast counter sender room updates ((connection, peer) ∷ peers) =
    elim (Bool-cases (connection == sender)) [
      | inl own ↦ rw own (acks_ok-broadcast counter sender room updates peers)
      | inr other ↦ rw other (
          acks_ok-append (send_updates counter peer room updates).1 _
            (acks_ok-send_updates counter peer room updates)
            (acks_ok-broadcast (send_updates counter peer room updates).0 sender room updates
              peers))
    ]

is_ok-rejection : (kind : RejectionKind) → is_ok (status_of_rejection kind) ≡ false
is_ok-rejection RejectionKind.permission_denied = refl
is_ok-rejection RejectionKind.payload_too_large = refl
is_ok-rejection RejectionKind.rate_limited = refl
is_ok-rejection RejectionKind.invalid = refl
is_ok-rejection RejectionKind.not_found = refl
is_ok-rejection RejectionKind.conflict = refl
is_ok-rejection RejectionKind.unsupported = refl
is_ok-rejection RejectionKind.other = refl

module _ {Doc Version S : Type 0} (services : Services Doc Version S) where
  -- What holds of an update that was acknowledged `Ok`.
  pub record Committed (laws : StoreLaws services.store) (r : RoomActor Doc) (q : Request)
      (after : Handled Doc S) : Type 0 where
    pub bytes : List ℕ
    pub encoded :
        encode_with_limits services.hashes
          (Frame.new services.hashes (producer_of services r) q.batch_id q.updates)
          services.config.frame_limits
        ≡ ok bytes
    pub stored :
        Stored (laws.contents after.service r.stream) bytes after.actor.active_delta_end_offset
    pub candidate : build_candidate services.room r.doc r.history q.updates ≡ ok after.actor.doc
    pub history : after.actor.history ≡ r.history ++ q.updates
    pub sequence : after.actor.producer_sequence ≡ r.producer_sequence + 1
    pub is_open : after.actor.lifecycle ≡ ready

  module _ (laws : StoreLaws services.store) (r : RoomActor Doc) (counter : ℕ) (q : Request) where
    finish_update-Committed :
        (s : S) (next : ℕ) (candidate : Doc) (bytes : List ℕ)
        → checked_add r.producer_sequence 1 ≡ some next
        → encode_with_limits services.hashes
            (Frame.new services.hashes (producer_of services r) q.batch_id q.updates)
            services.config.frame_limits
          ≡ ok bytes
        → build_candidate services.room r.doc r.history q.updates ≡ ok candidate
        → (result : Result AppendFailure DurableAppend × S)
        → resolve_append services (pending_of services r q bytes) s ≡ result
        → acks_ok
            (finish_update services r counter q next candidate
              (pending_of services r q bytes)
              result).emitted
          ≡ true
        → Committed laws r q (
            finish_update services r counter q next candidate
              (pending_of services r q bytes)
              result)
    unfolding finish_update transition publish_status
    finish_update-Committed s next candidate bytes e₁ e₂ e₃ (ok proof, s') e h = record {
      bytes = bytes;
      encoded = e₂;
      stored = resolve_append-Stored services laws (pending_of services r q bytes) s s' proof e;
      candidate = e₃;
      history = refl;
      sequence = sym (checked_add-eq-some r.producer_sequence 1 e₁).0;
      is_open = refl;
    }
    finish_update-Committed s next candidate bytes e₁ e₂ e₃ (err (definitely_rejected kind m), s') e
          h =
        cc (rw (is_ok-rejection kind) at h)
    finish_update-Committed s next candidate bytes e₁ e₂ e₃ (err (outcome_unknown error), s') e h =
        cc

    append_update-Committed :
        (candidate : Doc) (s : S)
        → build_candidate services.room r.doc r.history q.updates ≡ ok candidate
        → acks_ok (append_update services r counter q candidate s).emitted ≡ true
        → Committed laws r q (append_update services r counter q candidate s)
    unfolding append_update
    append_update-Committed candidate s built h =
        elim (Option-cases (checked_add r.producer_sequence 1)) [
          | inl exhausted ↦ cc (rw (exhausted, append_update) at h)
          | inr (next, e₁) ↦
              elim (Result-cases (
                encode_with_limits services.hashes
                  (Frame.new services.hashes (producer_of services r) q.batch_id q.updates)
                  services.config.frame_limits)) [
                    | inr (error, e₂) ↦ cc (rw e₂ at (rw (e₁, append_update) at h))
                    | inl (bytes, e₂) ↦
                        rw (e₁, append_update)
                          (rw e₂ (
                            finish_update-Committed s next candidate bytes e₁ e₂ built _ refl
                              (rw e₂ at (rw (e₁, append_update) at h))))
                  ]
        ]

    try_update-Committed :
        (s : S)
        → acks_ok (try_update services r counter q s).emitted ≡ true
        → Committed laws r q (try_update services r counter q s)
    unfolding try_update
    try_update-Committed s h =
        elim (Result-cases (validate_update_blobs services.room q.updates (is_empty r.history))) [
          | inr (error, e₁) ↦ cc (rw (e₁, try_update) at h)
          | inl (_, e₁) ↦
              elim (Result-cases (build_candidate services.room r.doc r.history q.updates)) [
                | inr (error, e₂) ↦ cc (rw e₂ at (rw (e₁, try_update) at h))
                | inl (candidate, e₂) ↦
                    rw (e₁, try_update)
                      (rw e₂ (
                        append_update-Committed candidate s e₂
                          (rw e₂ at (rw (e₁, try_update) at h))))
              ]
        ]

    -- On a store that obeys `StoreLaws`, an update that is acknowledged `Ok` was encoded under the
    -- room's producer, its frame stands in the room's delta stream and ends at the offset that the
    -- room keeps, and the room has the candidate document, the longer history and the next sequence.
    pub on_update-Committed :
        (s : S)
        → acks_ok (on_update services r counter q s).emitted ≡ true
        → Committed laws r q (on_update services r counter q s)
    unfolding on_update
    on_update-Committed s h = elim (Bool-cases (contains_key r.peers q.connection)) [
      | inr stranger ↦ cc (rw stranger at h)
      | inl peer ↦ elim (Bool-cases (is_ready r.lifecycle && is_none r.blocked)) [
        | inr closed ↦ cc (rw closed at (rw peer at h))
        | inl free ↦ rw peer (rw free (try_update-Committed s (rw free at (rw peer at h))))
      ]
    ]
