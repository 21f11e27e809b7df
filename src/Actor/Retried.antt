-- ===== src/Actor/Retried.antt =====
-- src/actor.rs, `retry_pending`: what the room is after a retry that succeeds.
use quorum_loro_gateway.Prelude.{
  ◌+◌, ℕ, ◌≡◌, refl, sym, ap, ◌∙◌, inl, inr, Bool, true, none, some, Option-cases, List, [], Result,
  ok, err, Result-cases,
}
use quorum_loro_gateway.Bytes.{checked_add}
use quorum_loro_gateway.Store.{StoreError}
use quorum_loro_gateway.Actor.{
  ready, PendingAppend, DurableAppend, AppendFailure, definitely_rejected, outcome_unknown,
  Services, RoomActor, publish_status, transition,
}
use quorum_loro_gateway.Actor.Append.{resolve_append}
use quorum_loro_gateway.Actor.Initialize.{Loaded, replay_bytes, load_bytes, load_from_store}
use quorum_loro_gateway.Actor.Operate.{reconcile, finish_retry, retry_pending}
use quorum_loro_gateway.Frame.{DeltaFrame}
use quorum_loro_gateway.Actor.Blobs.{extend_history, replay}
use quorum_loro_gateway.Bytes.{u64_mod, try_from}
use quorum_loro_gateway.Frame.Decode.{decode_all_with_limits}
use quorum_loro_gateway.Prelude.{length}
use mathlib.Core.Path.{subst}
use quorum_loro_gateway.Store.Laws.{StoreLaws}
use quorum_loro_gateway.ExactAppend.Stored.{Stored}
use quorum_loro_gateway.Actor.Durable.{resolve_append-Stored}
use quorum_loro_gateway.Bytes.{checked_add-eq-some}
use quorum_loro_gateway.Actor.{next_offset}

module _ {Doc Version S : Type 0} (services : Services Doc Version S) where
  -- The bytes give this history and this document.
  pub record Replays (bytes : List ℕ) (history : List (List ℕ)) (doc : Doc) : Type 0 where
    pub frames : List DeltaFrame
    pub decoded :
        decode_all_with_limits services.hashes bytes services.config.frame_limits ≡ ok frames
    pub extended : extend_history services.room [] frames ≡ ok history
    pub imported : replay services.room history ≡ ok doc

  replay_bytes-Replays :
      (r : RoomActor Doc) (s : S) (bytes : List ℕ) (r' : RoomActor Doc) (history : List (List ℕ))
      (doc : Doc) (s' : S)
      → replay_bytes services r s bytes ≡ (r', ok (history, doc), s')
      → Replays bytes history doc × (s ≡ s')
  unfolding replay_bytes
  replay_bytes-Replays r s bytes r' history doc s' h =
      elim (Result-cases
        (decode_all_with_limits services.hashes bytes services.config.frame_limits)) [
          | inr (_, e) ↦ cc (rw (e, replay_bytes) at h)
          | inl (frames, e) ↦ elim (Result-cases (extend_history services.room [] frames)) [
            | inr (_, f) ↦ cc (rw f at (rw (e, replay_bytes) at h))
            | inl (known, f) ↦ elim (Result-cases (replay services.room known)) [
              | inr (_, g) ↦ cc (rw g at (rw f at (rw (e, replay_bytes) at h)))
              | inl (made, g) ↦
                  finish frames known made e f g (rw g at (rw f at (rw (e, replay_bytes) at h)))
            ]
          ]
        ]
    where
      finish :
          {r₁ : RoomActor Doc} (frames : List DeltaFrame) (known : List (List ℕ)) (made : Doc)
          → decode_all_with_limits services.hashes bytes services.config.frame_limits ≡ ok frames
          → extend_history services.room [] frames ≡ ok known
          → replay services.room known ≡ ok made
          → ◌≡◌ {A = Loaded services (List (List ℕ) × Doc)}
              (r₁, ok (known, made), s)
              (r', ok (history, doc), s')
          → Replays bytes history doc × (s ≡ s')
      finish frames known made e f g h = (
        record {
          frames = frames;
          decoded = e;
          extended =
              subst (λ (l : List (List ℕ)). extend_history services.room [] frames ≡ ok l)
                same_history f;
          imported =
              subst (λ (l : List (List ℕ)). replay services.room l ≡ ok doc) same_history
                (subst (λ (d : Doc). replay services.room known ≡ ok d) same_doc g);
        },
        cc,
      )
        where
          same_history : known ≡ history
          same_history = cc

          same_doc : made ≡ doc
          same_doc = cc

  load_bytes-Replays :
      (r : RoomActor Doc) (read : Result StoreError (List ℕ) × S) (r' : RoomActor Doc)
      (history : List (List ℕ)) (doc : Doc) (s' : S)
      → load_bytes services r read ≡ (r', ok (history, doc), s')
      → (bytes : List ℕ) × (read ≡ (ok bytes, s')) × Replays bytes history doc
  unfolding load_bytes
  load_bytes-Replays r (err error, s) r' history doc s' h = cc
  load_bytes-Replays r (ok bytes, s) r' history doc s' h =
      elim (Option-cases (try_from u64_mod (length bytes))) [
        | inl e ↦ cc (rw (e, load_bytes) at h)
        | inr (n, e) ↦
            let (replays, same) =
              replay_bytes-Replays _ s bytes r' history doc s' (rw (e, load_bytes) at h) in
            (bytes, ap (λ (t : S). (ok bytes, t)) same, replays)
      ]

  -- What holds after a retry that answers `true`: of the append that was blocked, and of the room.
  pub record Reloaded (laws : StoreLaws services.store) (r r' : RoomActor Doc) (s' : S)
      : Type 0 where
    pub pending : PendingAppend
    pub was_blocked : r.blocked ≡ some pending
    pub end_offset : ℕ
    pub stored : Stored (laws.contents s' pending.target_stream) pending.bytes end_offset
    pub replays : Replays (laws.contents s' r.stream) r'.history r'.doc
    pub sequence : r'.producer_sequence ≡ pending.producer.sequence + 1
    pub is_open : r'.lifecycle ≡ ready

  module _ (laws : StoreLaws services.store) (r : RoomActor Doc) (pending : PendingAppend)
      (blocked : r.blocked ≡ some pending) where
    reconcile-Reloaded :
        (end_offset : ℕ) (s₁ : S) (l : Loaded services (List (List ℕ) × Doc))
        → Stored (laws.contents s₁ pending.target_stream) pending.bytes end_offset
        → load_from_store services (publish_status (record r { blocked = none })) s₁ ≡ l
        → (reconcile services pending l).1 ≡ true
        → Reloaded laws r (reconcile services pending l).0 (reconcile services pending l).2
    unfolding reconcile load_from_store publish_status transition
    reconcile-Reloaded end_offset s₁ (r', err failure, s') stored loaded h = cc
    reconcile-Reloaded end_offset s₁ (r', ok (history, doc), s') stored loaded h =
        elim (Option-cases (checked_add pending.producer.sequence 1)) [
          | inl e ↦ cc (rw (e, reconcile) at h)
          | inr (next, e) ↦
              let (bytes, read, replays) =
                load_bytes-Replays _
                  (services.store.read_all (publish_status (record r { blocked = none })).stream s₁)
                  r' history doc s' loaded in
              rw (e, reconcile) (opened next e bytes read replays)
        ]
      where
        opened :
            (next : ℕ)
            → checked_add pending.producer.sequence 1 ≡ some next
            → (bytes : List ℕ) → services.store.read_all r.stream s₁ ≡ (ok bytes, s')
            → Replays bytes history doc
            → Reloaded laws r
                (transition
                  (record r' { producer_sequence = next; history = history; doc = doc })
                  ready
                  none)
                s'
        opened next e bytes read replays = record {
          pending = pending;
          was_blocked = blocked;
          end_offset = end_offset;
          stored =
              subst (λ (b : List ℕ). Stored b pending.bytes end_offset) (same pending.target_stream)
                stored;
          replays =
              subst (λ (b : List ℕ). Replays b history doc)
                (laws.read_all_shows r.stream s₁ s' bytes read ∙ same r.stream) replays;
          sequence = sym (checked_add-eq-some pending.producer.sequence 1 e).0;
          is_open = refl;
        }
          where
            same : (stream : List ℕ) → laws.contents s₁ stream ≡ laws.contents s' stream
            same stream =
                sym (laws.read_all_keeps r.stream stream s₁)
                ∙ ap (λ (x : Result StoreError (List ℕ) × S). laws.contents x.1 stream) read

    finish_retry-Reloaded :
        (s : S) (result : Result AppendFailure DurableAppend × S)
        → resolve_append services pending s ≡ result
        → (finish_retry services (publish_status (record r { blocked = none })) pending result).1
          ≡ true
        → Reloaded laws r
            (finish_retry services (publish_status (record r { blocked = none })) pending result).0
            (finish_retry services (publish_status (record r { blocked = none })) pending result).2
    unfolding finish_retry
    finish_retry-Reloaded s (ok proof, s₁) e h =
        reconcile-Reloaded (next_offset proof) s₁ _
          (resolve_append-Stored services laws pending s s₁ proof e) refl h
    finish_retry-Reloaded s (err (definitely_rejected kind m), s₁) e h = cc
    finish_retry-Reloaded s (err (outcome_unknown error), s₁) e h = cc

  retry_of_blocked :
      (r : RoomActor Doc) (pending : PendingAppend) (s : S)
      → r.blocked ≡ some pending
      → retry_pending services r s
        ≡ finish_retry services
            (publish_status (record r { blocked = none }))
            pending
            (resolve_append services pending s)
  unfolding retry_pending
  retry_of_blocked r pending s e = rw (e, retry_pending)

  -- On a store that obeys `StoreLaws`, after a retry that answers `true`: an append was blocked and
  -- its frame stands in the stream that it was aimed at; the room is ready, with the next sequence,
  -- and its history and document are those of the frames in its delta stream, imported into the empty
  -- document.
  pub retry_pending-Reloaded :
      (laws : StoreLaws services.store) (r : RoomActor Doc) (s : S)
      → (retry_pending services r s).1 ≡ true
      → Reloaded laws r (retry_pending services r s).0 (retry_pending services r s).2
  unfolding retry_pending
  retry_pending-Reloaded laws r s h = elim (Option-cases r.blocked) [
    | inl e ↦ cc (rw (e, retry_pending) at h)
    | inr (pending, e) ↦
        let same = retry_of_blocked r pending s e in
        subst (λ (x : RoomActor Doc × Bool × S). Reloaded laws r x.0 x.2) (sym same)
          (finish_retry-Reloaded laws r pending e s _ refl
            (ap (λ (x : RoomActor Doc × Bool × S). x.1) (sym same) ∙ h))
  ]
