-- ===== src/Actor/Loads.antt =====
-- src/actor.rs: what loading a room keeps, and the rooms after activation and after a retry.
use quorum_loro_gateway.Prelude.{
  ℕ, ◌≡◌, refl, ap, ◌∙◌, inl, inr, true, false, Option, none, some, Option-cases, List, [], ◌∷◌,
  ◌++◌, Result, ok, err, Result-cases,
}
use quorum_loro_gateway.Bytes.{checked_add}
use quorum_loro_gateway.Frame.{is_empty}
use quorum_loro_gateway.Store.{StoreError, ambiguous, rejected, integrity}
use quorum_loro_gateway.Recovery.{
  RecoveryError, store_failed, recover_from_manifest, ManifestRecovery,
}
use quorum_loro_gateway.Actor.{
  ready, append_ambiguous, unavailable, is_ready, PendingAppend, DurableAppend, AppendFailure,
  definitely_rejected, outcome_unknown, InitializationFailure, Services, RoomActor, publish_status,
}
use quorum_loro_gateway.Actor.Blobs.{validate_update_blobs}
use quorum_loro_gateway.Actor.Initialize.{
  Loaded, replay_bytes, load_bytes, load_from_store, initialize_legacy, adopt_recovery,
  initialize_from, initialize, settle, activate, take_history, state_of_store_error,
  state_of_recovery_error, initialization_store_failure, manifest_recovery_failure,
}
use quorum_loro_gateway.Actor.Update.{is_none}
use quorum_loro_gateway.Actor.Operate.{reconcile, finish_retry, retry_pending}
use quorum_loro_gateway.Frame.{DeltaFrame}
use quorum_loro_gateway.Actor.Blobs.{extend_history, replay}
use quorum_loro_gateway.Bytes.{u64_mod, try_from}
use quorum_loro_gateway.Frame.Decode.{decode_all_with_limits}
use quorum_loro_gateway.Prelude.{length}
use quorum_loro_gateway.Loro.{LoroRoom}
use quorum_loro_gateway.Actor.Consistent.{is_ambiguous, Consistent, transition-Consistent}

-- A failure leads to a state that is neither ready nor ambiguous.
abbrev Closed : {A : Type 0} → Result InitializationFailure A → Type 0
Closed (ok a) = Unit
Closed (err failure) = (is_ready failure.state ≡ false) × (is_ambiguous failure.state ≡ false)

state_of_store_error-Closed :
    (e : StoreError)
    → (is_ready (state_of_store_error e) ≡ false) × (is_ambiguous (state_of_store_error e) ≡ false)
state_of_store_error-Closed (ambiguous m) = (refl, refl)
state_of_store_error-Closed (rejected kind m) = (refl, refl)
state_of_store_error-Closed (integrity m) = (refl, refl)

state_of_recovery_error-Closed :
    (e : RecoveryError)
    → (is_ready (state_of_recovery_error e) ≡ false)
      × (is_ambiguous (state_of_recovery_error e) ≡ false)
state_of_recovery_error-Closed (store_failed e) = state_of_store_error-Closed e
state_of_recovery_error-Closed other = (refl, refl)

module _ {Doc Version : Type 0} (room : LoroRoom Doc Version) where
  extend_history-Closed :
      (history : List (List ℕ)) (frames : List DeltaFrame)
      → Closed (extend_history room history frames)
  unfolding extend_history
  extend_history-Closed history [] = tt
  extend_history-Closed history (f ∷ fs) =
      elim (Result-cases (validate_update_blobs room f.updates (is_empty history))) [
        | inl (_, e) ↦ rw e (extend_history-Closed (history ++ f.updates) fs)
        | inr (_, e) ↦ rw e (refl, refl)
      ]

module _ {Doc Version S : Type 0} (services : Services Doc Version S) where
  -- The blocked append is as it was, and a failure is closed.
  abbrev Loads : {A : Type 0} → RoomActor Doc → Loaded services A → Type 0
  Loads r l = (l.0.blocked ≡ r.blocked) × Closed l.1

  replay_bytes-Loads :
      (r : RoomActor Doc) (s : S) (bytes : List ℕ) → Loads r (replay_bytes services r s bytes)
  unfolding replay_bytes
  replay_bytes-Loads r s bytes =
      elim (Result-cases
        (decode_all_with_limits services.hashes bytes services.config.frame_limits)) [
          | inr (_, e) ↦ rw (e, replay_bytes) (refl, (refl, refl))
          | inl (frames, e) ↦ elim (Result-cases (extend_history services.room [] frames)) [
            | inr (failure, f) ↦
                rw (e, replay_bytes)
                  (rw f (refl, rw f at (extend_history-Closed services.room [] frames)))
            | inl (history, f) ↦ elim (Result-cases (replay services.room history)) [
              | inr (_, g) ↦ rw (e, replay_bytes) (rw f (rw g (refl, (refl, refl))))
              | inl (_, g) ↦ rw (e, replay_bytes) (rw f (rw g (refl, tt)))
            ]
          ]
        ]

  load_bytes-Loads :
      (r : RoomActor Doc) (read : Result StoreError (List ℕ) × S)
      → Loads r (load_bytes services r read)
  unfolding load_bytes initialization_store_failure
  load_bytes-Loads r (err error, s) = (refl, state_of_store_error-Closed error)
  load_bytes-Loads r (ok bytes, s) = elim (Option-cases (try_from u64_mod (length bytes))) [
    | inl e ↦ rw (e, load_bytes) (refl, (refl, refl))
    | inr (n, e) ↦ rw (e, load_bytes) (replay_bytes-Loads _ s bytes)
  ]

  load_from_store-Loads : (r : RoomActor Doc) (s : S) → Loads r (load_from_store services r s)
  unfolding load_from_store
  load_from_store-Loads r s = load_bytes-Loads r (services.store.read_all r.stream s)

  take_history-Loads :
      (r : RoomActor Doc) (l : Loaded services (List (List ℕ) × Doc))
      → Loads r l
      → Loads r (take_history services l)
  take_history-Loads r (r', ok (history, doc), s) h = (h.0, tt)
  take_history-Loads r (r', err failure, s) h = h

  initialize_legacy-Loads :
      (r : RoomActor Doc) (opened : Result StoreError Unit × S)
      → Loads r (initialize_legacy services r opened)
  unfolding initialize_legacy initialization_store_failure
  initialize_legacy-Loads r (err error, s) = (refl, state_of_store_error-Closed error)
  initialize_legacy-Loads r (ok tt, s) = take_history-Loads r _ (load_from_store-Loads r s)

  initialize_from-Loads :
      (r : RoomActor Doc) (recovered : Result RecoveryError (Option (ManifestRecovery Doc)) × S)
      → Loads r (initialize_from services r recovered)
  unfolding initialize_from adopt_recovery manifest_recovery_failure
  initialize_from-Loads r (err error, s) = (refl, state_of_recovery_error-Closed error)
  initialize_from-Loads r (ok (some recovered), s) = (refl, tt)
  initialize_from-Loads r (ok none, s) = initialize_legacy-Loads r _

  settle-Consistent :
      (r : RoomActor Doc) (l : Loaded services Unit)
      → is_none r.blocked ≡ true
      → Loads r l
      → Consistent (settle services l).0
  settle-Consistent r (r', ok tt, s) free h =
      transition-Consistent r' ready none (λ _. ap is_none h.0 ∙ free) (λ e. cc)
  settle-Consistent r (r', err failure, s) free h =
      transition-Consistent r' failure.state _ (λ _. ap is_none h.0 ∙ free) (λ e. cc)

  pub activate-Consistent :
      (r : RoomActor Doc) (s : S) → is_none r.blocked ≡ true → Consistent (activate services r s).0
  unfolding activate initialize
  activate-Consistent r s free = settle-Consistent r _ free (
      initialize_from-Loads r (
        recover_from_manifest services.hashes services.room.loro services.store r.room_id
          services.config.frame_limits s))

  reconcile-Consistent :
      (r : RoomActor Doc) (pending : PendingAppend) (l : Loaded services (List (List ℕ) × Doc))
      → is_none r.blocked ≡ true
      → Loads r l
      → Consistent (reconcile services pending l).0
  unfolding reconcile
  reconcile-Consistent r pending (r', err failure, s) free h =
      transition-Consistent _ failure.state _ (λ e. cc) (λ e. refl)
  reconcile-Consistent r pending (r', ok (history, doc), s) free h =
      elim (Option-cases (checked_add pending.producer.sequence 1)) [
        | inl e ↦ rw (e, reconcile) (transition-Consistent _ unavailable _ (λ e. cc) (λ e. refl))
        | inr (next, e) ↦
            rw (e, reconcile)
              (transition-Consistent _ ready none (λ _. ap is_none h.0 ∙ free) (λ e. cc))
      ]

  finish_retry-Consistent :
      (r : RoomActor Doc) (pending : PendingAppend)
      (result : Result AppendFailure DurableAppend × S)
      → is_none r.blocked ≡ true
      → Consistent (finish_retry services r pending result).0
  unfolding finish_retry
  finish_retry-Consistent r pending (ok proof, s) free =
      reconcile-Consistent r pending _ free (load_from_store-Loads r s)
  finish_retry-Consistent r pending (err (definitely_rejected kind m), s) free =
      transition-Consistent _ unavailable _ (λ e. cc) (λ e. refl)
  finish_retry-Consistent r pending (err (outcome_unknown error), s) free =
      transition-Consistent _ append_ambiguous _ (λ e. cc) (λ e. refl)

  pub retry_pending-Consistent :
      (r : RoomActor Doc) (s : S) → Consistent r → Consistent (retry_pending services r s).0
  unfolding retry_pending publish_status
  retry_pending-Consistent r s c = elim (Option-cases r.blocked) [
    | inl e ↦ rw (e, retry_pending) c
    | inr (pending, e) ↦ rw (e, retry_pending) (finish_retry-Consistent _ pending _ refl)
  ]
