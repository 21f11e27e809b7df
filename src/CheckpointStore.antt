-- ===== src/CheckpointStore.antt =====
-- src/checkpoint_store.rs: the checkpoint record of a generation is written to its own stream, once.
pub mod Persisted
use quorum_loro_gateway.Prelude.{
  ℕ, true, false, List, [], ◌∷◌, ◌++◌, ◌==◌, bytes_eq, length, Result, ok, err, guard, ok_or,
  map_err, none, some,
}
use quorum_loro_gateway.Bytes.{u64_mod, try_from, codes}
use quorum_loro_gateway.Hashes.{Hashes}
use quorum_loro_gateway.Frame.{ProducerTuple}
use quorum_loro_gateway.Checkpoint.{CheckpointRecord, CheckpointError, belongs_to_room}
use quorum_loro_gateway.Checkpoint
use quorum_loro_gateway.Names.{decimal, document_hash, checkpoint_stream}
use quorum_loro_gateway.Store.{StoreError, Task, UrsulaStore, ◌>>=◌, ◌>>◌, pure_result, call}
use quorum_loro_gateway.ExactAppend.{ExactAppendOutcome, append_exact_with_retry, end_of}

pub data CheckpointWriteOutcome : Type 0 where
  committed verified_duplicate verified_existing : List ℕ → ℕ → CheckpointWriteOutcome

pub data CheckpointWriteError : Type 0 where
  encode : CheckpointError → CheckpointWriteError
  store_failed : StoreError → CheckpointWriteError
  wrong_room existing_bytes_mismatch length_overflow : CheckpointWriteError
  generation_mismatch unexpected_end_offset : ℕ → ℕ → CheckpointWriteError

abbrev pub outcome_of : List ℕ → ExactAppendOutcome → CheckpointWriteOutcome
outcome_of stream (ExactAppendOutcome.committed n) = committed stream n
outcome_of stream (ExactAppendOutcome.verified_duplicate n) = verified_duplicate stream n

-- The stream holds some bytes already.
unfoldable pub verify_existing :
    List ℕ → List ℕ → List ℕ → Result CheckpointWriteError CheckpointWriteOutcome
verify_existing stream existing bytes = elim (bytes_eq existing bytes) [
  | false ↦ err existing_bytes_mismatch
  | true ↦ elim (try_from u64_mod (length existing)) [
    | none ↦ err length_overflow
    | some n ↦ ok (verified_existing stream n)
  ]
]

module _ (h : Hashes) where
  unfoldable pub checkpoint_producer_id : List ℕ → ℕ → List ℕ
  checkpoint_producer_id room_id generation =
      codes "qlg-checkpoint-" ++ (document_hash h room_id ++ (codes "-" ++ decimal generation))

  -- The checks before the store is called.
  unfoldable pub check_record : List ℕ → ℕ → CheckpointRecord → Result CheckpointWriteError Unit
  check_record room_id generation r = elim (belongs_to_room h r room_id) [
    | false ↦ err wrong_room
    | true ↦
        guard (r.checkpoint_generation == generation)
          (generation_mismatch generation r.checkpoint_generation)
  ]

  module _ {S : Type 0} (store : UrsulaStore S) where
    -- The stream holds nothing yet.
    unfoldable pub write_new :
        List ℕ → ProducerTuple → List ℕ → ℕ → Task S CheckpointWriteError CheckpointWriteOutcome
    write_new stream producer bytes retries = do
      appended ← call store_failed (append_exact_with_retry store stream producer bytes retries)
      expected ← pure_result (ok_or (try_from u64_mod (length bytes)) length_overflow)
      pure_result
          (guard (end_of appended == expected) (unexpected_end_offset expected (end_of appended)))
      pure_result (ok (outcome_of stream appended))

    -- The branches on what the stream holds.
    unfoldable pub on_existing :
        List ℕ
        → ProducerTuple
        → List ℕ
        → ℕ
        → List ℕ
        → Task S CheckpointWriteError CheckpointWriteOutcome
    on_existing stream producer bytes retries [] = write_new stream producer bytes retries
    on_existing stream producer bytes retries (b ∷ bs) =
        pure_result (verify_existing stream (b ∷ bs) bytes)

    unfoldable pub persist_bytes :
        List ℕ → ProducerTuple → List ℕ → ℕ → Task S CheckpointWriteError CheckpointWriteOutcome
    persist_bytes stream producer bytes retries = do
      call store_failed (store.ensure_stream stream)
      existing ← call store_failed (store.read_all stream)
      on_existing stream producer bytes retries existing

    unfoldable pub persist_checkpoint :
        List ℕ → ℕ → CheckpointRecord → ℕ → Task S CheckpointWriteError CheckpointWriteOutcome
    persist_checkpoint room_id generation r retries = do
      pure_result (check_record room_id generation r)
      bytes ← pure_result (map_err (Checkpoint.encode h r) encode)
      persist_bytes (checkpoint_stream h room_id generation).physical
          (record { id = checkpoint_producer_id room_id generation; epoch = 0; sequence = 0 }) bytes
          retries
