-- ===== src/CheckpointStore/Persisted.antt =====
-- src/checkpoint_store.rs: a checkpoint that was persisted is all that its stream holds.
use quorum_loro_gateway.Prelude.{
  ℕ, ◌+◌, ◌≡◌, refl, sym, ap, ◌∙◌, ◌⊎◌, inl, inr, Bool, true, false, List, [], ◌∷◌, ◌++◌, ◌==◌,
  ==→eq, bytes_eq, bytes_eq→eq, length, drop, drop-length, arith, Result, ok, err, ok_or,
  ok_or-eq-ok, guard, guard-eq-ok, map_err,
}
use mathlib.Core.Path.{subst}
use quorum_loro_gateway.Bytes.{u64_mod, try_from, try_from-eq-some}
use quorum_loro_gateway.Hashes.{Hashes}
use quorum_loro_gateway.Frame.{ProducerTuple}
use quorum_loro_gateway.Checkpoint as Checkpoint
use quorum_loro_gateway.Checkpoint.{CheckpointRecord}
use quorum_loro_gateway.Names.{checkpoint_stream}
use quorum_loro_gateway.Store.{StoreError, UrsulaStore, convert_error}
use quorum_loro_gateway.Store.Laws.{
  StoreLaws, continue_pure-eq-ok, continue-eq-ok, convert_error-eq-ok,
}
use quorum_loro_gateway.ExactAppend.{ExactAppendOutcome, end_of, append_exact_with_retry, is_empty}
use quorum_loro_gateway.ExactAppend.Once.{append_exact-at_most_once}
use quorum_loro_gateway.ExactAppend.Stored.{Stored, append_exact-Stored, append_exact-nonempty}
use quorum_loro_gateway.CheckpointStore.{
  CheckpointWriteError, CheckpointWriteOutcome, encode, store_failed, length_overflow,
  unexpected_end_offset, check_record, write_new, verify_existing, existing_bytes_mismatch,
  on_existing, persist_bytes, persist_checkpoint,
}

pub map_err-eq-ok :
    {E F A : Type 0} (r : Result E A) (f : E → F) {a : A} → map_err r f ≡ ok a → r ≡ ok a
map_err-eq-ok (ok a) f e = cc
map_err-eq-ok (err x) f e = cc

nonempty_absurd : (body rest : List ℕ) → is_empty body ≡ false → [] ≡ body ++ rest → ⊥
nonempty_absurd [] rest e f = cc
nonempty_absurd (b ∷ bs) rest e f = cc

-- A stream that grew by the body at most once, and in which the body ends behind what was there
-- before, grew by the body.
pub grown_once :
    (before after body : List ℕ) (end : ℕ)
    → is_empty body ≡ false
    → (after ≡ before) ⊎ (after ≡ before ++ body)
    → Stored after body end
    → end ≡ length before + length body
    → after ≡ before ++ body
grown_once before after body end n (inr q) st e = q
grown_once before after body end n (inl q) st e = absurd (
    nonempty_absurd body st.rest n (
      sym (drop-length before st.start (omega (arith, st.start_eq, e)))
      ∙ (ap (λ (l : List ℕ). drop st.start l) (sym q) ∙ st.at_start)))

verified_branch :
    (b : Bool) (r : Result CheckpointWriteError CheckpointWriteOutcome) {o : CheckpointWriteOutcome}
    → elim b [ false ↦ err existing_bytes_mismatch | true ↦ r ] ≡ ok o
    → b ≡ true
verified_branch true r e = refl
verified_branch false r e = cc

verify_existing-eq-ok :
    (stream existing bytes : List ℕ) (o : CheckpointWriteOutcome)
    → verify_existing stream existing bytes ≡ ok o
    → existing ≡ bytes
unfolding verify_existing
verify_existing-eq-ok stream existing bytes o e =
    bytes_eq→eq existing bytes (verified_branch (bytes_eq existing bytes) _ e)

module _ {S : Type 0} (h : Hashes) (store : UrsulaStore S) (laws : StoreLaws store) where
  write_new-stored :
      (stream : List ℕ) (p : ProducerTuple) (bytes : List ℕ) (retries : ℕ) (s s' : S)
      (o : CheckpointWriteOutcome)
      → laws.contents s stream ≡ []
      → write_new h store stream p bytes retries s ≡ (ok o, s')
      → laws.contents s' stream ≡ bytes
  unfolding write_new
  write_new-stored stream p bytes retries s s' o empty e =
      let (appended, s₁, f₁, e₁) =
        continue-eq-ok
          (convert_error store_failed (append_exact_with_retry store stream p bytes retries s)) _ o
          s' e in
      let done =
        convert_error-eq-ok store_failed (append_exact_with_retry store stream p bytes retries s)
          appended s₁ f₁ in
      let (expected, f₂, e₂) =
        continue_pure-eq-ok (ok_or (try_from u64_mod (length bytes)) length_overflow) _ o s₁ s'
          e₁ in
      let (_, f₃, e₃) =
        continue_pure-eq-ok
          (guard (end_of appended == expected) (unexpected_end_offset expected (end_of appended))) _
          o s₁ s' e₂ in
      let len =
        (try_from-eq-some u64_mod (length bytes)
          (ok_or-eq-ok (try_from u64_mod (length bytes)) _ f₂)).0 in
      let at_end =
        ==→eq (end_of appended) expected (guard-eq-ok (end_of appended == expected) _ f₃) in
      let state =
        ap (λ (r : Result StoreError ExactAppendOutcome × S). laws.contents r.1 stream) done in
      let once =
        subst (λ (c : List ℕ). (c ≡ laws.contents s stream) ⊎ (c ≡ laws.contents s stream ++ bytes))
          state (append_exact-at_most_once store laws stream p bytes retries s) in
      let grown =
        grown_once (laws.contents s stream) (laws.contents s₁ stream) bytes (end_of appended)
          (append_exact-nonempty store laws stream p bytes retries s s₁ appended done) once
          (append_exact-Stored store laws stream p bytes retries s s₁ appended done)
          (omega (arith, at_end, len, ap (λ (l : List ℕ). length l) empty)) in
      ap (λ (r : Result CheckpointWriteError CheckpointWriteOutcome × S). laws.contents r.1 stream)
        (sym e₃)
      ∙ (grown ∙ ap (λ (l : List ℕ). l ++ bytes) empty)

  on_existing-stored :
      (stream : List ℕ) (p : ProducerTuple) (bytes : List ℕ) (retries : ℕ) (existing : List ℕ)
      (s s' : S) (o : CheckpointWriteOutcome)
      → existing ≡ laws.contents s stream
      → on_existing h store stream p bytes retries existing s ≡ (ok o, s')
      → laws.contents s' stream ≡ bytes
  unfolding on_existing
  on_existing-stored stream p bytes retries [] s s' o shown e =
      write_new-stored stream p bytes retries s s' o (sym shown) e
  on_existing-stored stream p bytes retries (b ∷ bs) s s' o shown e =
      ap (λ (r : Result CheckpointWriteError CheckpointWriteOutcome × S). laws.contents r.1 stream)
        (sym e)
      ∙ (sym shown
          ∙ verify_existing-eq-ok stream (b ∷ bs) bytes o
              (ap (λ (r : Result CheckpointWriteError CheckpointWriteOutcome × S). r.0) e))

  persist_bytes-stored :
      (stream : List ℕ) (p : ProducerTuple) (bytes : List ℕ) (retries : ℕ) (s s' : S)
      (o : CheckpointWriteOutcome)
      → persist_bytes h store stream p bytes retries s ≡ (ok o, s')
      → laws.contents s' stream ≡ bytes
  unfolding persist_bytes
  persist_bytes-stored stream p bytes retries s s' o e =
      let (_, s₁, _, e₁) =
        continue-eq-ok (convert_error store_failed (store.ensure_stream stream s)) _ o s' e in
      let (existing, s₂, f₂, e₂) =
        continue-eq-ok (convert_error store_failed (store.read_all stream s₁)) _ o s' e₁ in
      let done = convert_error-eq-ok store_failed (store.read_all stream s₁) existing s₂ f₂ in
      on_existing-stored stream p bytes retries existing s₂ s' o
        (laws.read_all_shows stream s₁ s₂ existing done
          ∙ (sym (laws.read_all_keeps stream stream s₁)
              ∙ ap (λ (r : Result StoreError (List ℕ) × S). laws.contents r.1 stream) done))
        e₂

  -- On a store that obeys `StoreLaws`, a checkpoint that was persisted with success, whatever the
  -- outcome says, is encodable, and its
  -- encoding is all that the stream of its generation holds.
  pub persist_checkpoint-stored :
      (room_id : List ℕ) (generation : ℕ) (r : CheckpointRecord) (retries : ℕ) (s s' : S)
      (o : CheckpointWriteOutcome)
      → persist_checkpoint h store room_id generation r retries s ≡ (ok o, s')
      → Checkpoint.encode h r
        ≡ ok (laws.contents s' (checkpoint_stream h room_id generation).physical)
  unfolding persist_checkpoint
  persist_checkpoint-stored room_id generation r retries s s' o e =
      let (_, _, e₁) = continue_pure-eq-ok (check_record h room_id generation r) _ o s s' e in
      let (bytes, f₂, e₂) =
        continue_pure-eq-ok (map_err (Checkpoint.encode h r) encode) _ o s s' e₁ in
      map_err-eq-ok (Checkpoint.encode h r) encode f₂
      ∙ ap (λ (l : List ℕ). ok l)
          (sym (
            persist_bytes-stored (checkpoint_stream h room_id generation).physical _ bytes retries s
              s' o e₂))
