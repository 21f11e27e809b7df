-- ===== src/ExactAppend/Once.antt =====
-- src/exact_append.rs: however often the append is retried, the body lands at most once.
use quorum_loro_gateway.Prelude.{
  ℕ, zero, suc, ◌≡◌, refl, ap, ◌∙◌, ◌⊎◌, inl, inr, Bool, true, false, String, List, ◌++◌, not, ◌==◌,
  length, Result, ok, err, ok_or, guard,
}
use quorum_loro_gateway.Bytes.{u64_mod, checked_sub, try_from}
use quorum_loro_gateway.Frame.{ProducerTuple}
use quorum_loro_gateway.Store.{
  AppendOutcome, StoreError, ambiguous, rejected, integrity, Task, UrsulaStore, continue,
  pure_result,
}
use quorum_loro_gateway.Store.Laws.{StoreLaws, continue-state}
use quorum_loro_gateway.ExactAppend.{
  ExactAppendOutcome, is_empty, verify_duplicate_bytes, on_append, attempt, append_exact_with_retry,
}

module _ {S : Type 0} (store : UrsulaStore S) (laws : StoreLaws store) where
  pub verify_keeps :
      (t stream : List ℕ) (n : ℕ) (body : List ℕ) (s : S)
      → laws.contents (verify_duplicate_bytes store t n body s).1 stream ≡ laws.contents s stream
  unfolding verify_duplicate_bytes
  verify_keeps t stream n body s =
      let R = (λ (s' : S). laws.contents s' stream ≡ laws.contents s stream) in
      continue-state R
        (
          ok_or (try_from u64_mod (length body)) (integrity "exact append length does not fit u64"),
          s,
        )
        _ refl
        (λ len s₁ h₁.
          continue-state R
            (
              ok_or (checked_sub n len)
                  (integrity "duplicate next offset is smaller than exact append body"),
              s₁,
            )
            _ h₁
            (λ start s₂ h₂.
              continue-state R (store.read_range t start (length body) s₂) _
                (laws.read_range_keeps t stream start (length body) s₂ ∙ h₂)
                (λ stored s₃ h₃.
                  continue-state R
                    (
                      guard (length stored == length body)
                          (integrity "duplicate exact append length mismatch"),
                      s₃,
                    )
                    _ h₃ (λ _ s₄ h₄. h₄))))

  module _ (stream : List ℕ) (p : ProducerTuple) (body : List ℕ) where
    -- What follows from a property of the state after one append.
    on_append-state :
        (Q R : S → Type 0) (retry : String → Task S StoreError ExactAppendOutcome)
        (r : Result StoreError AppendOutcome × S)
        → Q r.1
        → ((s : S) → Q s → R s)
        → ((n : ℕ) (s : S) → Q s → R (verify_duplicate_bytes store stream n body s).1)
        → ((m : String) (s : S) → Q s → R (retry m s).1)
        → R (on_append store stream body retry r).1
    unfolding on_append
    on_append-state Q R retry (ok (AppendOutcome.committed n), s) q f g k = f s q
    on_append-state Q R retry (ok (AppendOutcome.duplicate n), s) q f g k =
        continue-state R (verify_duplicate_bytes store stream n body s) _ (g n s q) (λ _ _ r. r)
    on_append-state Q R retry (err (ambiguous m), s) q f g k = k m s q
    on_append-state Q R retry (err (rejected kind m), s) q f g k = f s q
    on_append-state Q R retry (err (integrity m), s) q f g k = f s q

    Same : S → S → Type 0
    Same s s' = laws.contents s' stream ≡ laws.contents s stream

    Accepted : S → S → Type 0
    Accepted s s' = Same s s' × (laws.accepted s' stream p ≡ true)

    attempt_accepted :
        (left : ℕ) (s : S)
        → laws.accepted s stream p ≡ true
        → Same s (attempt store left stream p body s).1
    unfolding attempt Same Accepted
    attempt_accepted zero s a =
        on_append-state (Accepted s) (Same s) (λ m. pure_result (err (ambiguous m)))
          (store.append stream p body s) (laws.append_accepted stream p body s a) (λ _ q. q.0)
          (λ n s₁ q. verify_keeps stream stream n body s₁ ∙ q.0) (λ _ _ q. q.0)
    attempt_accepted (suc left) s a =
        on_append-state (Accepted s) (Same s) (λ m. attempt store left stream p body)
          (store.append stream p body s) (laws.append_accepted stream p body s a) (λ _ q. q.0)
          (λ n s₁ q. verify_keeps stream stream n body s₁ ∙ q.0)
          (λ _ s₁ q. attempt_accepted left s₁ q.1 ∙ q.0)

    Landed : S → S → Type 0
    Landed s s' = (laws.contents s' stream ≡ laws.contents s stream ++ body)

    Pending : S → S → Type 0
    Pending s s' = Same s s' ⊎ (Landed s s' × (laws.accepted s' stream p ≡ true))

    Once : S → S → Type 0
    Once s s' = Same s s' ⊎ Landed s s'

    forget : (s s' : S) → Pending s s' → Once s s'
    unfolding Pending Once
    forget s s' (inl q) = inl q
    forget s s' (inr q) = inr q.0

    Once-after : (s s₁ s' : S) → Same s₁ s' → Once s s₁ → Once s s'
    unfolding Once Same Landed
    Once-after s s₁ s' e (inl q) = inl (e ∙ q)
    Once-after s s₁ s' e (inr q) = inr (e ∙ q)

    Once-from : (s s₁ s' : S) → Same s s₁ → Once s₁ s' → Once s s'
    unfolding Once Same Landed
    Once-from s s₁ s' e (inl q) = inl (q ∙ e)
    Once-from s s₁ s' e (inr q) = inr (q ∙ ap (λ (c : List ℕ). c ++ body) e)

    retry-Once :
        (left : ℕ)
        → ((s : S) → Once s (attempt store left stream p body s).1)
        → (s s₁ : S) → Pending s s₁
        → Once s (attempt store left stream p body s₁).1
    unfolding Pending Once
    retry-Once left ih s s₁ (inl q) =
        Once-from s s₁ (attempt store left stream p body s₁).1 q (ih s₁)
    retry-Once left ih s s₁ (inr q) =
        Once-after s s₁ (attempt store left stream p body s₁).1 (attempt_accepted left s₁ q.1)
          (inr q.0)

    attempt-Once : (left : ℕ) (s : S) → Once s (attempt store left stream p body s).1
    unfolding attempt Same Pending Landed
    attempt-Once zero s =
        on_append-state (Pending s) (Once s) (λ m. pure_result (err (ambiguous m)))
          (store.append stream p body s) (laws.append_effect stream p body s) (forget s)
          (λ n s₁ q.
            Once-after s s₁ (verify_duplicate_bytes store stream n body s₁).1
              (verify_keeps stream stream n body s₁) (forget s s₁ q))
          (λ _ s₁ q. forget s s₁ q)
    attempt-Once (suc left) s =
        on_append-state (Pending s) (Once s) (λ m. attempt store left stream p body)
          (store.append stream p body s) (laws.append_effect stream p body s) (forget s)
          (λ n s₁ q.
            Once-after s s₁ (verify_duplicate_bytes store stream n body s₁).1
              (verify_keeps stream stream n body s₁) (forget s s₁ q))
          (λ _ s₁ q. retry-Once left (attempt-Once left) s s₁ q)

    guarded :
        (b : Bool) (retries : ℕ) (s : S)
        → Once s
            (continue
              (guard b (integrity "exact append body is empty"), s)
              (λ _. attempt store retries stream p body)).1
    unfolding Once Same
    guarded true retries s = attempt-Once retries s
    guarded false retries s = inl refl

    -- On a store that obeys `StoreLaws`, however many retries are allowed and whatever the outcome is, an error included, the stream
    -- holds afterwards what it held before, or that with the body once behind it.
    pub append_exact-at_most_once :
        (retries : ℕ) (s : S)
        → (laws.contents (append_exact_with_retry store stream p body retries s).1 stream
            ≡ laws.contents s stream)
          ⊎ (laws.contents (append_exact_with_retry store stream p body retries s).1 stream
              ≡ laws.contents s stream ++ body)
    unfolding append_exact_with_retry Once Same Landed
    append_exact-at_most_once retries s = guarded (not (is_empty body)) retries s
