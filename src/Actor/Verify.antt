-- ===== src/Actor/Verify.antt =====
-- src/actor.rs, `verify_duplicate_bytes`: the bytes of a duplicate against the frame.
use quorum_loro_gateway.Prelude.{
  ℕ, Bool, true, false, ◌&&◌, List, [], ◌∷◌, ◌==◌, bytes_eq, length, Result, ◌>>=◌, ◌>>◌, guard,
  map_err,
}
use quorum_loro_gateway.Hashes.{Hashes}
use quorum_loro_gateway.Frame.{FrameLimits, ProducerTuple, DeltaFrame}
use quorum_loro_gateway.Frame.Decode.{decode_exact}
use quorum_loro_gateway.Store.{StoreError, integrity}
use quorum_loro_gateway.Actor.{Texts, PendingAppend}

abbrev pub updates_eq : List (List ℕ) → List (List ℕ) → Bool
updates_eq [] [] = true
updates_eq [] (y ∷ ys) = false
updates_eq (x ∷ xs) [] = false
updates_eq (x ∷ xs) (y ∷ ys) = bytes_eq x y && updates_eq xs ys

abbrev pub producer_eq : ProducerTuple → ProducerTuple → Bool
producer_eq a b = bytes_eq a.id b.id && ((a.epoch == b.epoch) && (a.sequence == b.sequence))

-- The derived `PartialEq` of a frame.
unfoldable pub frame_eq : DeltaFrame → DeltaFrame → Bool
frame_eq a b =
    producer_eq a.producer b.producer
    && (bytes_eq a.batch_id b.batch_id
        && (updates_eq a.updates b.updates && bytes_eq a.digest b.digest))

unfoldable pub verify_duplicate_bytes :
    Hashes → Texts → PendingAppend → List ℕ → FrameLimits → Result StoreError Unit
verify_duplicate_bytes h texts pending stored limits = do
  guard (length stored == length pending.bytes)
      (integrity (texts.length_mismatch (length pending.bytes) (length stored)))
  guard (bytes_eq stored pending.bytes)
      (integrity "deduplicated tuple is bound to different frame bytes")
  stored_frame ←
      map_err (decode_exact h stored limits) (λ error. integrity (texts.frame_text error))
  guard (producer_eq stored_frame.producer pending.producer)
      (integrity "deduplicated committed range has wrong producer tuple")
  guard (frame_eq stored_frame pending.frame)
      (integrity "deduplicated committed range has different frame fields")
