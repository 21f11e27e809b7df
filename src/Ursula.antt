-- ===== src/Ursula.antt =====
-- src/ursula.rs, `HttpUrsula`: a stream is read in windows, each checked against its offsets. A request
-- with the redirects that it follows is an operation that gives a response.
pub mod Windows
pub mod ReadAll
pub mod Total
mod Examples
use quorum_loro_gateway.Prelude.{
  ℕ, zero, suc, ◌+◌, Bool, true, false, not, ◌&&◌, ◌||◌, Option, none, some, String, List, [], ◌∷◌,
  ◌++◌, ltb, leb, ◌==◌, length, if◌then◌else◌, Result, ok, err, guard, ok_or,
}
use quorum_loro_gateway.Bytes.{u64_mod, checked_add, try_from}
use quorum_loro_gateway.Store.{
  StoreError, ambiguous, rejected, integrity, RejectionKind, Task, ◌>>=◌, ◌>>◌, pure_result,
}

-- The next offset if its header is there and a `u64`; the chunks of the body, and the error that
-- breaks them off, if one does.
pub record Response : Type 0 where
  pub status : ℕ
  pub next_offset : Option ℕ
  pub up_to_date : Bool
  pub chunks : List (List ℕ)
  pub failure : Option String

pub record ReadConfig : Type 0 where
  pub read_chunk_bytes : ℕ
  pub max_stream_bytes : ℕ
  pub safe_retries : ℕ

unfoldable pub kind_of_status : ℕ → RejectionKind
kind_of_status status =
    if leb 300 status && ltb status 400
    then RejectionKind.unsupported
    else if status == 400
    then RejectionKind.invalid
    else if (status == 401) || (status == 403)
    then RejectionKind.permission_denied
    else if (status == 404) || (status == 410)
    then RejectionKind.not_found
    else if (status == 409) || (status == 412)
    then RejectionKind.conflict
    else if status == 413
    then RejectionKind.payload_too_large
    else if status == 429
    then RejectionKind.rate_limited
    else RejectionKind.other

unfoldable pub classify_rejection : ℕ → String → StoreError
classify_rejection status message = rejected (kind_of_status status) message

unfoldable pub is_unknown_status : ℕ → Bool
is_unknown_status status = (leb 500 status && ltb status 600) || (status == 408)

-- `while let Some(chunk)`, from the bytes that are there on.
unfoldable pub read_body_bounded :
    ℕ → Option String → List ℕ → List (List ℕ) → Result StoreError (List ℕ)
read_body_bounded max_bytes none output [] = ok output
read_body_bounded max_bytes (some message) output [] = err (ambiguous message)
read_body_bounded max_bytes failure output (chunk ∷ chunks) =
    elim (checked_add (length output) (length chunk)) [
      | none ↦ err (integrity "response body length overflow")
      | some next_len ↦
          if ltb max_bytes next_len
          then err (integrity "response body exceeds requested maximum")
          else read_body_bounded max_bytes failure (output ++ chunk) chunks
    ]

-- The body and the offset behind it, of a response to a read at `offset`.
unfoldable pub check_window : ℕ → ℕ → Response → Result StoreError (List ℕ × ℕ × Bool)
check_window offset max_bytes r =
    if r.status == 200
    then elim r.next_offset [
      | none ↦ err (integrity "missing or invalid next offset header")
      | some next_offset ↦ elim (read_body_bounded max_bytes r.failure [] r.chunks) [
        | err error ↦ err error
        | ok body ↦ elim (try_from u64_mod (length body)) [
          | none ↦ err (integrity "response body length does not fit u64")
          | some body_len ↦ elim (checked_add offset body_len) [
            | none ↦ err (integrity "read offset overflow")
            | some expected ↦
                if next_offset == expected
                then ok (body, next_offset, r.up_to_date)
                else err (integrity "read offset mismatch")
          ]
        ]
      ]
    ]
    else if is_unknown_status r.status
    then err (ambiguous "read stream returned an unknown status")
    else err (classify_rejection r.status "read stream")

-- What is tried again.
abbrev pub is_transient : StoreError → Bool
is_transient (ambiguous message) = true
is_transient (rejected RejectionKind.rate_limited message) = true
is_transient (rejected RejectionKind.invalid message) = false
is_transient (rejected RejectionKind.permission_denied message) = false
is_transient (rejected RejectionKind.not_found message) = false
is_transient (rejected RejectionKind.conflict message) = false
is_transient (rejected RejectionKind.payload_too_large message) = false
is_transient (rejected RejectionKind.unsupported message) = false
is_transient (rejected RejectionKind.other message) = false
is_transient (integrity message) = false

module _ {S : Type 0} (get : List ℕ → ℕ → ℕ → Task S StoreError Response)
    (config : ReadConfig) where
  unfoldable pub read_exact_window_once : List ℕ → ℕ → ℕ → Task S StoreError (List ℕ × ℕ × Bool)
  read_exact_window_once stream offset max_bytes = do
    r ← get stream offset max_bytes
    pure_result (check_window offset max_bytes r)

  unfoldable pub retry_window :
      (S → Result StoreError (List ℕ × ℕ × Bool) × S)
      → Result StoreError (List ℕ × ℕ × Bool) × S
      → Result StoreError (List ℕ × ℕ × Bool) × S
  retry_window again (ok window, s) = (ok window, s)
  retry_window again (err error, s) = if is_transient error then again s else (err error, s)

  -- The attempts, with those that are left.
  unfoldable pub read_exact_window : ℕ → List ℕ → ℕ → ℕ → Task S StoreError (List ℕ × ℕ × Bool)
  read_exact_window zero stream offset max_bytes s =
      read_exact_window_once stream offset max_bytes s
  read_exact_window (suc left) stream offset max_bytes s =
      retry_window (read_exact_window left stream offset max_bytes)
        (read_exact_window_once stream offset max_bytes s)

  -- The checks of a round: the longer output.
  unfoldable pub extend_output : List ℕ → ℕ → List ℕ × ℕ × Bool → Result StoreError (List ℕ)
  extend_output output offset (body, next_offset, up_to_date) =
      if ltb next_offset offset || ((next_offset == offset) && not up_to_date)
      then err (integrity "read made no offset progress")
      else elim (checked_add (length output) (length body)) [
        | none ↦ err (integrity "stream length overflow")
        | some next_len ↦
            if ltb config.max_stream_bytes next_len
            then err (integrity "stream exceeds configured limit")
            else ok (output ++ body)
      ]

  -- The end of a round, with the rounds that follow.
  unfoldable pub on_output :
      (List ℕ → ℕ → S → Option (Result StoreError (List ℕ) × S))
      → ℕ
      → Bool
      → S
      → Result StoreError (List ℕ)
      → Option (Result StoreError (List ℕ) × S)
  on_output again next_offset up_to_date s (err error) = some (err error, s)
  on_output again next_offset true s (ok output) = some (ok output, s)
  on_output again next_offset false s (ok output) = again output next_offset s

  unfoldable pub on_window :
      (List ℕ → ℕ → S → Option (Result StoreError (List ℕ) × S))
      → List ℕ
      → ℕ
      → Result StoreError (List ℕ × ℕ × Bool) × S
      → Option (Result StoreError (List ℕ) × S)
  on_window again output offset (err error, s) = some (err error, s)
  on_window again output offset (ok (body, next_offset, up_to_date), s) =
      on_output again next_offset up_to_date s
        (extend_output output offset (body, next_offset, up_to_date))

  -- The loop of `read_all_observed`; `none` if the rounds run out.
  unfoldable pub read_rounds : ℕ → List ℕ → List ℕ → ℕ → S → Option (Result StoreError (List ℕ) × S)
  read_rounds zero stream output offset s = none
  read_rounds (suc n) stream output offset s =
      on_window (read_rounds n stream) output offset
        (read_exact_window config.safe_retries stream offset config.read_chunk_bytes s)

  -- A round that is not the last adds a byte, and the output stays within its limit.
  unfoldable pub read_all : List ℕ → S → Option (Result StoreError (List ℕ) × S)
  read_all stream s = read_rounds (config.max_stream_bytes + 2) stream [] 0 s
