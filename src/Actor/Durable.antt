-- ===== src/Actor/Durable.antt =====
-- src/actor.rs, `resolve_append`: what a durable append tells of the stream.
use quorum_loro_gateway.Prelude.{
  ℕ, zero, suc, ◌≡◌, refl, sym, ap, ◌∙◌, String, List, bytes_eq, bytes_eq→eq, length, ◌==◌, Result,
  ok, err, ok_or, ok_or-eq-ok, map_err, >>-eq-ok, ok-injective,
}
use mathlib.Core.Path.{subst}
use quorum_loro_gateway.Bytes.{
  u64_mod, checked_sub, try_from, checked_sub-eq-some, try_from-eq-some,
}
use quorum_loro_gateway.Frame.{FrameLimits}
use quorum_loro_gateway.Hashes.{Hashes}
use quorum_loro_gateway.Store.{
  AppendOutcome, StoreError, ambiguous, rejected, integrity, Task, convert_error, pure_result,
}
use quorum_loro_gateway.Store.Laws.{
  StoreLaws, continue_pure-eq-ok, continue-eq-ok, convert_error-eq-ok,
}
use quorum_loro_gateway.ExactAppend.Stored.{Stored, verified_range, appended-Stored}
use quorum_loro_gateway.Actor.{
  Texts, PendingAppend, DurableAppend, next_offset, AppendFailure, outcome_unknown, Services,
}
use quorum_loro_gateway.Actor.Verify.{verify_duplicate_bytes}
use quorum_loro_gateway.Actor.Append.{on_duplicate, on_append, attempt, resolve_append}

map_err-eq-ok :
    {E F A : Type 0} (r : Result E A) (f : E → F) {a : A} → map_err r f ≡ ok a → r ≡ ok a
map_err-eq-ok (ok a) f h = cc
map_err-eq-ok (err e) f h = cc

verified_bytes :
    (h : Hashes) (texts : Texts) (pending : PendingAppend) (stored : List ℕ) (limits : FrameLimits)
    → verify_duplicate_bytes h texts pending stored limits ≡ ok tt
    → stored ≡ pending.bytes
unfolding verify_duplicate_bytes
verified_bytes h texts pending stored limits e =
    let (_, e₁) = >>-eq-ok (length stored == length pending.bytes) _ _ e in
    let (same, _) = >>-eq-ok (bytes_eq stored pending.bytes) _ _ e₁ in
    bytes_eq→eq stored pending.bytes same

module _ {Doc Version S : Type 0} (services : Services Doc Version S)
    (laws : StoreLaws services.store) where
  on_duplicate-Stored :
      (pending : PendingAppend) (n : ℕ) (s s' : S) (proof : DurableAppend)
      → on_duplicate services pending n s ≡ (ok proof, s')
      → Stored (laws.contents s' pending.target_stream) pending.bytes (next_offset proof)
  unfolding on_duplicate
  on_duplicate-Stored pending n s s' proof e =
      let (len, f₁, e₁) =
        continue_pure-eq-ok
          (ok_or (try_from u64_mod (length pending.bytes))
            (outcome_unknown (integrity "frame length does not fit u64")))
          _ proof s s' e in
      let (start, f₂, e₂) =
        continue_pure-eq-ok
          (ok_or (checked_sub n len)
            (outcome_unknown (integrity "duplicate next offset is smaller than retry frame")))
          _ proof s s' e₁ in
      let (stored, s₁, f₃, e₃) =
        continue-eq-ok
          (convert_error outcome_unknown
            (services.store.read_range pending.target_stream start (length pending.bytes) s))
          _ proof s' e₂ in
      let f₄ =
        convert_error-eq-ok outcome_unknown
          (services.store.read_range pending.target_stream start (length pending.bytes) s) stored s₁
          f₃ in
      let (_, f₅, e₄) =
        continue_pure-eq-ok
          (map_err
            (verify_duplicate_bytes services.hashes services.texts pending stored
              services.config.frame_limits)
            outcome_unknown)
          _ proof s₁ s' e₃ in
      let (rest, shown) =
        laws.read_range_shows pending.target_stream start (length pending.bytes) s s₁ stored f₄ in
      let same_state = ap (λ (r : Result AppendFailure DurableAppend × S). r.1) e₄ in
      let same_proof =
        ok-injective (DurableAppend.verified_duplicate n) proof
          (ap (λ (r : Result AppendFailure DurableAppend × S). r.0) e₄) in
      let kept =
        ap (λ (r : Result StoreError (List ℕ) × S). laws.contents r.1 pending.target_stream) f₄ in
      let unchanged =
        sym (
          laws.read_range_keeps pending.target_stream pending.target_stream start
            (length pending.bytes) s)
        ∙ (kept ∙ ap (λ (t : S). laws.contents t pending.target_stream) same_state) in
      let here =
        verified_range services.store laws pending.target_stream n len start pending.bytes stored
          rest (laws.contents s pending.target_stream)
          (try_from-eq-some u64_mod (length pending.bytes)
            (ok_or-eq-ok (try_from u64_mod (length pending.bytes)) _ f₁)).0
          (checked_sub-eq-some n len (ok_or-eq-ok (checked_sub n len) _ f₂))
          (verified_bytes services.hashes services.texts pending stored services.config.frame_limits
            (map_err-eq-ok _ outcome_unknown f₅))
          shown in
      subst (λ (c : List ℕ). Stored c pending.bytes (next_offset proof)) unchanged
        (subst
          (λ (m : DurableAppend).
            Stored (laws.contents s pending.target_stream) pending.bytes (next_offset m))
          same_proof here)

  on_append-Stored :
      (pending : PendingAppend) (retry : String → Task S AppendFailure DurableAppend) (s : S)
      (r : Result StoreError AppendOutcome × S) (proof : DurableAppend) (s' : S)
      → services.store.append pending.target_stream pending.producer pending.bytes s ≡ r
      → ((m : String) (s₁ : S)
          → retry m s₁ ≡ (ok proof, s')
          → Stored (laws.contents s' pending.target_stream) pending.bytes (next_offset proof))
      → on_append services pending retry r ≡ (ok proof, s')
      → Stored (laws.contents s' pending.target_stream) pending.bytes (next_offset proof)
  unfolding on_append
  on_append-Stored pending retry s (ok (AppendOutcome.committed n), s₁) proof s' e k h =
      let (grown, len) =
        laws.append_committed pending.target_stream pending.producer pending.bytes s s₁ n e in
      let same_state = ap (λ (r : Result AppendFailure DurableAppend × S). r.1) h in
      let same_proof =
        ok-injective (DurableAppend.committed n) proof
          (ap (λ (r : Result AppendFailure DurableAppend × S). r.0) h) in
      subst
        (λ (t : S).
          Stored (laws.contents t pending.target_stream) pending.bytes (next_offset proof))
        same_state
        (subst
          (λ (m : DurableAppend).
            Stored (laws.contents s₁ pending.target_stream) pending.bytes (next_offset m))
          same_proof
          (appended-Stored services.store laws pending.target_stream
            (laws.contents s pending.target_stream) (laws.contents s₁ pending.target_stream)
            pending.bytes n grown len))
  on_append-Stored pending retry s (ok (AppendOutcome.duplicate n), s₁) proof s' e k h =
      on_duplicate-Stored pending n s₁ s' proof h
  on_append-Stored pending retry s (err (ambiguous m), s₁) proof s' e k h = k m s₁ h
  on_append-Stored pending retry s (err (rejected kind m), s₁) proof s' e k h = cc
  on_append-Stored pending retry s (err (integrity m), s₁) proof s' e k h = cc

  attempt-Stored :
      (left : ℕ) (pending : PendingAppend) (s s' : S) (proof : DurableAppend)
      → attempt services left pending s ≡ (ok proof, s')
      → Stored (laws.contents s' pending.target_stream) pending.bytes (next_offset proof)
  unfolding attempt
  attempt-Stored zero pending s s' proof e =
      on_append-Stored pending (λ m. pure_result (err (outcome_unknown (ambiguous m)))) s
        (services.store.append pending.target_stream pending.producer pending.bytes s) proof s' refl
        (λ m s₁ h. cc) e
  attempt-Stored (suc left) pending s s' proof e =
      on_append-Stored pending (λ m. attempt services left pending) s
        (services.store.append pending.target_stream pending.producer pending.bytes s) proof s' refl
        (λ m s₁ h. attempt-Stored left pending s₁ s' proof h) e

  -- On a store that obeys `StoreLaws`, after a durable append, the frame's bytes stand in the stream
  -- that was aimed at and end at the offset of the proof.
  pub resolve_append-Stored :
      (pending : PendingAppend) (s s' : S) (proof : DurableAppend)
      → resolve_append services pending s ≡ (ok proof, s')
      → Stored (laws.contents s' pending.target_stream) pending.bytes (next_offset proof)
  unfolding resolve_append
  resolve_append-Stored pending s s' proof e =
      attempt-Stored services.config.ambiguous_retries pending s s' proof e
