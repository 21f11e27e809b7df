-- ===== src/Frame.antt =====
-- src/frame.rs: the record of one committed batch of updates and its encoder. Each field of a Rust
-- type is a number below the bound of its type or a list of bytes. The decoder is in Frame/Decode.
pub mod Decode
pub mod Layout
pub mod Read
pub mod Pieces
pub mod Header
pub mod Accepted
pub mod AcceptedFields
pub mod AcceptedBody
pub mod Canonical
pub mod Stream
pub mod StreamSound
pub mod Truncated
pub mod RoundTrip
mod Examples
use quorum_loro_gateway.Prelude.{
  ℕ, ◌+◌, ◌*◌, Bool, true, false, not, Option, none, some, String, List, [], ◌∷◌, ◌++◌, ltb,
  if◌then◌else◌, length, Result, ok, err, ◌>>=◌, ◌>>◌, guard, ok_or,
}
use quorum_loro_gateway.Bytes.{
  u16_mod, u32_mod, u64_mod, checked_add, checked_mul, try_from, saturating_u64, to_be, codes,
}
use quorum_loro_gateway.Hashes.{Hashes}

abbrev pub magic : List ℕ
magic = b'Q' ∷ b'L' ∷ b'G' ∷ b'D' ∷ []

abbrev pub version : ℕ
version = 1

abbrev pub fixed_prefix : ℕ
fixed_prefix = 4 + 2 + 2 + 8

abbrev pub fixed_suffix : ℕ
fixed_suffix = 32 + 4 + 8

pub record FrameLimits : Type 0 where
  pub max_frame_bytes : ℕ
  pub max_producer_id_bytes : ℕ
  pub max_updates : ℕ
  pub max_update_bytes : ℕ
  pub max_updates_bytes : ℕ
  pub max_stream_bytes : ℕ

abbrev pub default_limits : FrameLimits
default_limits = record {
  max_frame_bytes = 64 * 1024 * 1024;
  max_producer_id_bytes = 256;
  max_updates = 4096;
  max_update_bytes = 32 * 1024 * 1024;
  max_updates_bytes = 32 * 1024 * 1024;
  max_stream_bytes = 512 * 1024 * 1024;
}

pub record ProducerTuple : Type 0 where
  pub id : List ℕ
  pub epoch : ℕ
  pub sequence : ℕ

pub record DeltaFrame : Type 0 where
  pub producer : ProducerTuple
  pub batch_id : List ℕ
  pub updates : List (List ℕ)
  pub digest : List ℕ

pub data FrameError : Type 0 where
  truncated length_overflow checksum_mismatch digest_mismatch : FrameError
  unsupported_version : ℕ → FrameError
  limit_exceeded : String → ℕ → ℕ → FrameError
  at_offset : ℕ → FrameError → FrameError
  invalid : String → FrameError

unfoldable pub enforce_limit : String → ℕ → ℕ → Result FrameError Unit
enforce_limit resource actual limit =
    if ltb limit actual then err (limit_exceeded resource actual limit) else ok tt

abbrev pub is_empty {ℓ} : {A : Type ℓ} → List A → Bool
is_empty [] = true
is_empty (x ∷ xs) = false

-- What the hasher of `update_digest` is fed after its domain and the count.
digest_input : List (List ℕ) → List ℕ
digest_input [] = []
digest_input (u ∷ us) = to_be 8 (saturating_u64 (length u)) ++ (u ++ digest_input us)

-- `map(|update| u32::try_from(update.len())).collect::<Result<Vec<_>, _>>()`
unfoldable pub update_lengths : List (List ℕ) → Result FrameError (List ℕ)
update_lengths [] = ok []
update_lengths (u ∷ us) = do
  n ← ok_or (try_from u32_mod (length u)) (invalid "update is too large")
  ns ← update_lengths us
  ok (n ∷ ns)

-- `try_fold` over the updates, with the running sum.
unfoldable pub sum_lengths : FrameLimits → ℕ → List (List ℕ) → Result FrameError ℕ
sum_lengths limits sum [] = ok sum
sum_lengths limits sum (u ∷ us) = do
  enforce_limit "individual update bytes" (length u) limits.max_update_bytes
  next ← ok_or (checked_add sum (length u)) length_overflow
  sum_lengths limits next us

abbrev pub add_all : ℕ → List ℕ → Option ℕ
add_all sum [] = some sum
add_all sum (n ∷ ns) = elim (checked_add sum n) [ none ↦ none | some s ↦ add_all s ns ]

-- The chain of `checked_add` that gives the length of the whole frame.
unfoldable pub frame_total : ℕ → ℕ → ℕ → Option ℕ
frame_total producer_len length_table_len updates_len =
    add_all fixed_prefix
      (2 ∷ producer_len ∷ (8 + 8 + 8 + 4) ∷ length_table_len ∷ updates_len ∷ fixed_suffix ∷ [])

abbrev pub length_table : List ℕ → List ℕ
length_table [] = []
length_table (n ∷ ns) = to_be 4 n ++ length_table ns

abbrev pub concat : List (List ℕ) → List ℕ
concat [] = []
concat (u ∷ us) = u ++ concat us

-- The first sixteen bytes, which end with the length of the frame.
abbrev pub frame_header : ℕ → List ℕ
frame_header total_len = magic ++ (to_be 2 version ++ (to_be 2 0 ++ to_be 8 total_len))

-- All that stands between the header and the checksum.
unfoldable pub frame_fields : DeltaFrame → ℕ → ℕ → List ℕ → List ℕ
frame_fields f producer_len update_count lengths =
    to_be 2 producer_len
    ++ (f.producer.id
        ++ (to_be 8 f.producer.epoch
            ++ (to_be 8 f.producer.sequence
                ++ (f.batch_id
                    ++ (to_be 4 update_count
                        ++ (length_table lengths ++ (concat f.updates ++ f.digest)))))))

module _ (h : Hashes) where
  unfoldable pub update_digest : List (List ℕ) → List ℕ
  unfolding digest_input
  update_digest updates = h.sha256 (
      codes "quorum-loro-updates-v1"
      ++ ((0 ∷ []) ++ (to_be 8 (saturating_u64 (length updates)) ++ digest_input updates)))

  unfoldable pub new : ProducerTuple → List ℕ → List (List ℕ) → DeltaFrame
  new producer batch_id updates = record {
    producer = producer;
    batch_id = batch_id;
    updates = updates;
    digest = update_digest updates;
  }

  -- The checksum covers all that is before it, and the length stands once more at the end.
  unfoldable pub seal : List ℕ → ℕ → List ℕ
  seal output total_len = output ++ (to_be 4 (h.crc32 output) ++ to_be 8 total_len)

  unfoldable pub encode_with_limits : DeltaFrame → FrameLimits → Result FrameError (List ℕ)
  encode_with_limits f limits = do
    guard (not (is_empty f.producer.id)) (invalid "producer ID is empty")
    enforce_limit "producer ID bytes" (length f.producer.id) limits.max_producer_id_bytes
    guard (not (is_empty f.updates)) (invalid "frame contains no updates")
    enforce_limit "update count" (length f.updates) limits.max_updates
    producer_len ←
        ok_or (try_from u16_mod (length f.producer.id)) (invalid "producer ID is too long")
    update_count ← ok_or (try_from u32_mod (length f.updates)) (invalid "too many updates")
    lengths ← update_lengths f.updates
    updates_len ← sum_lengths limits 0 f.updates
    enforce_limit "aggregate update bytes" updates_len limits.max_updates_bytes
    length_table_len ← ok_or (checked_mul (length lengths) 4) length_overflow
    total_len ← ok_or (frame_total producer_len length_table_len updates_len) length_overflow
    enforce_limit "frame bytes" total_len limits.max_frame_bytes
    total_len_u64 ← ok_or (try_from u64_mod total_len) length_overflow
    ok (
        seal (frame_header total_len_u64 ++ frame_fields f producer_len update_count lengths)
          total_len_u64)
