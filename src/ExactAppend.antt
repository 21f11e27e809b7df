-- ===== src/ExactAppend.antt =====
-- src/exact_append.rs: an append that is retried while its result is ambiguous, and whose duplicate
-- is read back and compared.
pub mod Once
pub mod Stored
use quorum_loro_gateway.Prelude.{
  ℕ, zero, suc, Bool, true, false, not, String, List, [], ◌∷◌, ◌==◌, bytes_eq, length, Result, ok,
  err, guard, ok_or,
}
use quorum_loro_gateway.Bytes.{u64_mod, checked_sub, try_from}
use quorum_loro_gateway.Frame.{ProducerTuple}
use quorum_loro_gateway.Store.{
  AppendOutcome, StoreError, ambiguous, rejected, integrity, Task, UrsulaStore, continue, ◌>>=◌,
  ◌>>◌, pure_result,
}

pub data ExactAppendOutcome : Type 0 where
  committed verified_duplicate : ℕ → ExactAppendOutcome

abbrev pub end_of : ExactAppendOutcome → ℕ
end_of (committed n) = n
end_of (verified_duplicate n) = n

abbrev pub is_empty : List ℕ → Bool
is_empty [] = true
is_empty (x ∷ xs) = false

module _ {S : Type 0} (store : UrsulaStore S) where
  unfoldable pub verify_duplicate_bytes : List ℕ → ℕ → List ℕ → Task S StoreError Unit
  verify_duplicate_bytes stream next_offset expected = do
    expected_len ← pure_result (
        ok_or (try_from u64_mod (length expected))
          (integrity "exact append length does not fit u64"))
    start ← pure_result (
        ok_or (checked_sub next_offset expected_len)
          (integrity "duplicate next offset is smaller than exact append body"))
    stored ← store.read_range stream start (length expected)
    pure_result (
        guard (length stored == length expected)
          (integrity "duplicate exact append length mismatch"))
    pure_result (
        guard (bytes_eq stored expected)
          (integrity "duplicate producer tuple is bound to different bytes"))

  -- The `match` on the result of one append, with what an ambiguous one leads to.
  unfoldable pub on_append :
      List ℕ
      → List ℕ
      → (String → Task S StoreError ExactAppendOutcome)
      → Result StoreError AppendOutcome × S
      → Result StoreError ExactAppendOutcome × S
  on_append stream body retry (ok (AppendOutcome.committed n), s) = (ok (committed n), s)
  on_append stream body retry (ok (AppendOutcome.duplicate n), s) =
      continue (verify_duplicate_bytes stream n body s)
        (λ _. pure_result (ok (verified_duplicate n)))
  on_append stream body retry (err (ambiguous message), s) = retry message s
  on_append stream body retry (err (rejected kind message), s) = (err (rejected kind message), s)
  on_append stream body retry (err (integrity message), s) = (err (integrity message), s)

  -- `loop`, with the number of retries that are left: `max_ambiguous_retries - retries`.
  unfoldable pub attempt :
      ℕ → List ℕ → ProducerTuple → List ℕ → Task S StoreError ExactAppendOutcome
  attempt zero stream producer body s =
      on_append stream body (λ message. pure_result (err (ambiguous message)))
        (store.append stream producer body s)
  attempt (suc left) stream producer body s =
      on_append stream body (λ message. attempt left stream producer body)
        (store.append stream producer body s)

  unfoldable pub append_exact_with_retry :
      List ℕ → ProducerTuple → List ℕ → ℕ → Task S StoreError ExactAppendOutcome
  append_exact_with_retry stream producer body max_ambiguous_retries = do
    pure_result (guard (not (is_empty body)) (integrity "exact append body is empty"))
    attempt max_ambiguous_retries stream producer body
