-- ===== src/ExactAppend/Stored.antt =====
-- src/exact_append.rs: what a successful append tells of the stream.
use quorum_loro_gateway.Prelude.{
  ℕ, zero, suc, ◌+◌, ◌-◌, ◌≤◌, ◌≡◌, refl, sym, ap, ◌∙◌, false, String, List, ◌++◌, [], ◌∷◌, not,
  ◌==◌, bytes_eq, bytes_eq→eq, length, length-append, append-nil, drop, drop-append, arith, Result,
  ok, err, ok_or, ok_or-eq-ok, guard, guard-eq-ok, ok-injective,
}
use mathlib.Core.Path.{subst}
use quorum_loro_gateway.Bytes.{
  u64_mod, checked_sub, try_from, checked_sub-eq-some, try_from-eq-some,
}
use quorum_loro_gateway.Frame.{ProducerTuple}
use quorum_loro_gateway.Store.{
  AppendOutcome, StoreError, ambiguous, rejected, integrity, Task, UrsulaStore, continue,
  pure_result,
}
use quorum_loro_gateway.Store.Laws.{StoreLaws, continue_pure-eq-ok, continue-eq-ok}
use quorum_loro_gateway.ExactAppend.{
  ExactAppendOutcome, end_of, is_empty, verify_duplicate_bytes, on_append, attempt,
  append_exact_with_retry,
}
use quorum_loro_gateway.ExactAppend.Once.{verify_keeps}

-- The body stands in the bytes of the stream and ends at this offset.
pub record Stored (bytes body : List ℕ) (end : ℕ) : Type 0 where
  pub start : ℕ
  pub rest : List ℕ
  pub start_eq : start + length body ≡ end
  pub at_start : drop start bytes ≡ body ++ rest

module _ {S : Type 0} (store : UrsulaStore S) (laws : StoreLaws store) (stream : List ℕ) where
  pub verified_range :
      (n len start : ℕ) (body stored rest bytes : List ℕ)
      → (length body ≡ len)
      → (len ≤ n) × (n - len ≡ start)
      → stored ≡ body
      → drop start bytes ≡ stored ++ rest
      → Stored bytes body n
  verified_range n len start body stored rest bytes e₁ e₂ e₃ e₄ = record {
    start = start;
    rest = rest;
    start_eq = omega (arith, e₁, e₂.0, e₂.1);
    at_start = e₄ ∙ ap (λ (l : List ℕ). l ++ rest) e₃;
  }

  verify-Stored :
      (n : ℕ) (body : List ℕ) (s s' : S)
      → verify_duplicate_bytes store stream n body s ≡ (ok tt, s')
      → Stored (laws.contents s stream) body n
  unfolding verify_duplicate_bytes
  verify-Stored n body s s' e =
      let (len, f₁, e₁) =
        continue_pure-eq-ok
          (ok_or (try_from u64_mod (length body))
            (integrity "exact append length does not fit u64"))
          _ tt s s' e in
      let (start, f₂, e₂) =
        continue_pure-eq-ok
          (ok_or (checked_sub n len)
            (integrity "duplicate next offset is smaller than exact append body"))
          _ tt s s' e₁ in
      let (stored, s₁, f₃, e₃) =
        continue-eq-ok (store.read_range stream start (length body) s) _ tt s' e₂ in
      let (_, _, e₄) =
        continue_pure-eq-ok
          (guard (length stored == length body)
            (integrity "duplicate exact append length mismatch"))
          _ tt s₁ s' e₃ in
      let (rest, shown) = laws.read_range_shows stream start (length body) s s₁ stored f₃ in
      let e₅ =
        guard-eq-ok (bytes_eq stored body)
          (integrity "duplicate producer tuple is bound to different bytes")
          (ap (λ (r : Result StoreError Unit × S). r.0) e₄) in
      verified_range n len start body stored rest (laws.contents s stream)
        (try_from-eq-some u64_mod (length body)
          (ok_or-eq-ok (try_from u64_mod (length body)) _ f₁)).0
        (checked_sub-eq-some n len (ok_or-eq-ok (checked_sub n len) _ f₂))
        (bytes_eq→eq stored body e₅) shown

  -- The end of a stream that the body was just appended to.
  pub appended-Stored :
      (before after body : List ℕ) (n : ℕ)
      → after ≡ before ++ body
      → n ≡ length after
      → Stored after body n
  appended-Stored before after body n e f = record {
    start = length before;
    rest = [];
    start_eq = omega (arith, f, ap (λ (l : List ℕ). length l) e, length-append before body);
    at_start =
        ap (λ (l : List ℕ). drop (length before) l) e
        ∙ (drop-append before body ∙ sym (append-nil body));
  }

  duplicate-Stored :
      (n : ℕ) (body : List ℕ) (o : ExactAppendOutcome) (s s' : S)
      → continue
          (verify_duplicate_bytes store stream n body s)
          (λ _. pure_result (ok (ExactAppendOutcome.verified_duplicate n)))
        ≡ (ok o, s')
      → Stored (laws.contents s' stream) body (end_of o)
  duplicate-Stored n body o s s' e =
      let (tt, s₁, f, g) = continue-eq-ok (verify_duplicate_bytes store stream n body s) _ o s' e in
      let same_state = ap (λ (r : Result StoreError ExactAppendOutcome × S). r.1) g in
      let same_outcome =
        ok-injective (ExactAppendOutcome.verified_duplicate n) o
          (ap (λ (r : Result StoreError ExactAppendOutcome × S). r.0) g) in
      let kept = ap (λ (r : Result StoreError Unit × S). laws.contents r.1 stream) f in
      let unchanged =
        sym (verify_keeps store laws stream stream n body s)
        ∙ (kept ∙ ap (λ (t : S). laws.contents t stream) same_state) in
      subst (λ (c : List ℕ). Stored c body (end_of o)) unchanged
        (subst (λ (m : ExactAppendOutcome). Stored (laws.contents s stream) body (end_of m))
          same_outcome (verify-Stored n body s s₁ f))

  on_append-Stored :
      (p : ProducerTuple) (body : List ℕ) (retry : String → Task S StoreError ExactAppendOutcome)
      (s : S) (r : Result StoreError AppendOutcome × S) (o : ExactAppendOutcome) (s' : S)
      → store.append stream p body s ≡ r
      → ((m : String) (s₁ : S)
          → retry m s₁ ≡ (ok o, s')
          → Stored (laws.contents s' stream) body (end_of o))
      → on_append store stream body retry r ≡ (ok o, s')
      → Stored (laws.contents s' stream) body (end_of o)
  unfolding on_append
  on_append-Stored p body retry s (ok (AppendOutcome.committed n), s₁) o s' e k h =
      let (grown, len) = laws.append_committed stream p body s s₁ n e in
      let same_state = ap (λ (r : Result StoreError ExactAppendOutcome × S). r.1) h in
      let same_outcome =
        ok-injective (ExactAppendOutcome.committed n) o
          (ap (λ (r : Result StoreError ExactAppendOutcome × S). r.0) h) in
      subst (λ (t : S). Stored (laws.contents t stream) body (end_of o)) same_state
        (subst (λ (m : ExactAppendOutcome). Stored (laws.contents s₁ stream) body (end_of m))
          same_outcome
          (appended-Stored (laws.contents s stream) (laws.contents s₁ stream) body n grown len))
  on_append-Stored p body retry s (ok (AppendOutcome.duplicate n), s₁) o s' e k h =
      duplicate-Stored n body o s₁ s' h
  on_append-Stored p body retry s (err (ambiguous m), s₁) o s' e k h = k m s₁ h
  on_append-Stored p body retry s (err (rejected kind m), s₁) o s' e k h = cc
  on_append-Stored p body retry s (err (integrity m), s₁) o s' e k h = cc

  attempt-Stored :
      (left : ℕ) (p : ProducerTuple) (body : List ℕ) (s s' : S) (o : ExactAppendOutcome)
      → attempt store left stream p body s ≡ (ok o, s')
      → Stored (laws.contents s' stream) body (end_of o)
  unfolding attempt
  attempt-Stored zero p body s s' o e =
      on_append-Stored p body (λ m. pure_result (err (ambiguous m))) s
        (store.append stream p body s) o s' refl (λ m s₁ h. cc) e
  attempt-Stored (suc left) p body s s' o e =
      on_append-Stored p body (λ m. attempt store left stream p body) s
        (store.append stream p body s) o s' refl (λ m s₁ h. attempt-Stored left p body s₁ s' o h) e

  -- On a store that obeys `StoreLaws`, after a success, the body stands in the stream and ends at the offset that is returned.
  pub append_exact-Stored :
      (p : ProducerTuple) (body : List ℕ) (retries : ℕ) (s s' : S) (o : ExactAppendOutcome)
      → append_exact_with_retry store stream p body retries s ≡ (ok o, s')
      → Stored (laws.contents s' stream) body (end_of o)
  unfolding append_exact_with_retry
  append_exact-Stored p body retries s s' o e =
      let (_, _, f) =
        continue_pure-eq-ok (guard (not (is_empty body)) (integrity "exact append body is empty")) _
          o s s' e in
      attempt-Stored retries p body s s' o f

  -- Nothing empty is appended with success.
  pub append_exact-nonempty :
      (p : ProducerTuple) (body : List ℕ) (retries : ℕ) (s s' : S) (o : ExactAppendOutcome)
      → append_exact_with_retry store stream p body retries s ≡ (ok o, s')
      → is_empty body ≡ false
  unfolding append_exact_with_retry
  append_exact-nonempty p [] retries s s' o e = cc
  append_exact-nonempty p (b ∷ bs) retries s s' o e = refl
