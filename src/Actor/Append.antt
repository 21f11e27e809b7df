-- ===== src/Actor/Append.antt =====
-- src/actor.rs, `resolve_append`: the append of a frame, retried while it is ambiguous, and a
-- duplicate read back and compared with the frame.
use quorum_loro_gateway.Prelude.{ℕ, zero, suc, String, length, Result, ok, err, ok_or, map_err}
use quorum_loro_gateway.Bytes.{u64_mod, checked_sub, try_from}
use quorum_loro_gateway.Store.{
  AppendOutcome, StoreError, ambiguous, rejected, integrity, Task, ◌>>=◌, ◌>>◌, pure_result, call,
}
use quorum_loro_gateway.Actor.{
  PendingAppend, DurableAppend, committed, verified_duplicate, AppendFailure, definitely_rejected,
  outcome_unknown, Services,
}
use quorum_loro_gateway.Actor.Verify.{verify_duplicate_bytes}

module _ {Doc Version S : Type 0} (services : Services Doc Version S) where
  -- A duplicate: the range that ends at its offset is read and verified.
  unfoldable pub on_duplicate : PendingAppend → ℕ → Task S AppendFailure DurableAppend
  on_duplicate pending next_offset = do
    frame_len ← pure_result (
        ok_or (try_from u64_mod (length pending.bytes))
          (outcome_unknown (integrity "frame length does not fit u64")))
    start ← pure_result (
        ok_or (checked_sub next_offset frame_len)
          (outcome_unknown (integrity "duplicate next offset is smaller than retry frame")))
    stored ←
        call outcome_unknown
          (services.store.read_range pending.target_stream start (length pending.bytes))
    pure_result (
        map_err
          (verify_duplicate_bytes services.hashes services.texts pending stored
            services.config.frame_limits)
          outcome_unknown)
    pure_result (ok (verified_duplicate next_offset))

  -- The `match` on the result of one append, with what an ambiguous one leads to.
  unfoldable pub on_append :
      PendingAppend
      → (String → Task S AppendFailure DurableAppend)
      → Result StoreError AppendOutcome × S
      → Result AppendFailure DurableAppend × S
  on_append pending retry (ok (AppendOutcome.committed n), s) = (ok (committed n), s)
  on_append pending retry (ok (AppendOutcome.duplicate n), s) = on_duplicate pending n s
  on_append pending retry (err (ambiguous message), s) = retry message s
  on_append pending retry (err (rejected kind message), s) =
      (err (definitely_rejected kind message), s)
  on_append pending retry (err (integrity message), s) =
      (err (outcome_unknown (integrity message)), s)

  -- `loop`, with the number of retries that are left: `ambiguous_retries - attempts`.
  unfoldable pub attempt : ℕ → PendingAppend → Task S AppendFailure DurableAppend
  attempt zero pending s =
      on_append pending (λ message. pure_result (err (outcome_unknown (ambiguous message))))
        (services.store.append pending.target_stream pending.producer pending.bytes s)
  attempt (suc left) pending s =
      on_append pending (λ message. attempt left pending)
        (services.store.append pending.target_stream pending.producer pending.bytes s)

  unfoldable pub resolve_append : PendingAppend → Task S AppendFailure DurableAppend
  resolve_append = attempt services.config.ambiguous_retries
