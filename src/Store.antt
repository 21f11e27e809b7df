-- ===== src/Store.antt =====
-- src/ursula.rs: the trait `UrsulaStore`, which every other part of the gateway goes through, as a
-- record of operations on the state of the service behind it, and its outcomes and errors.
pub mod Laws
pub mod Memory
use quorum_loro_gateway.Prelude.{ℕ, String, List, Result, ok, err}
use quorum_loro_gateway.Frame.{ProducerTuple}

pub data AppendOutcome : Type 0 where
  committed duplicate : ℕ → AppendOutcome

pub data RejectionKind : Type 0 where
  invalid permission_denied not_found conflict payload_too_large : RejectionKind
  rate_limited unsupported other : RejectionKind

pub data StoreError : Type 0 where
  ambiguous : String → StoreError
  rejected : RejectionKind → String → StoreError
  integrity : String → StoreError

-- A call changes the state of the service, and succeeds or fails.
abbrev pub Task : Type 0 → Type 0 → Type 0 → Type 0
Task S E A = S → Result E A × S

pub record UrsulaStore (S : Type 0) : Type 0 where
  pub ensure_stream : List ℕ → Task S StoreError Unit
  pub read_all : List ℕ → Task S StoreError (List ℕ)
  pub read_range : List ℕ → ℕ → ℕ → Task S StoreError (List ℕ)
  pub append : List ℕ → ProducerTuple → List ℕ → Task S StoreError AppendOutcome

-- What follows a call, which its error skips.
abbrev pub continue : {S E A B : Type 0} → Result E A × S → (A → Task S E B) → Result E B × S
continue (ok a, s) k = k a s
continue (err e, s) k = (err e, s)

infixl 5 ◌>>=◌ ◌>>◌
abbrev pub ◌>>=◌ : {S E A B : Type 0} → Task S E A → (A → Task S E B) → Task S E B
(m >>= k) s = continue (m s) k

abbrev pub ◌>>◌ : {S E B : Type 0} → Task S E Unit → Task S E B → Task S E B
(m >> k) s = continue (m s) (λ _. k)

-- A computation that does not touch the service.
abbrev pub pure_result : {S E A : Type 0} → Result E A → Task S E A
pure_result r s = (r, s)

abbrev pub convert_error : {S E F A : Type 0} → (E → F) → Result E A × S → Result F A × S
convert_error f (ok a, s) = (ok a, s)
convert_error f (err e, s) = (err (f e), s)

-- `?` on a call whose error is converted by `#[from]`.
abbrev pub call : {S E F A : Type 0} → (E → F) → Task S E A → Task S F A
call f m s = convert_error f (m s)
