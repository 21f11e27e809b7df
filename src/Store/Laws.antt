-- ===== src/Store/Laws.antt =====
-- What the gateway relies on of the service behind `UrsulaStore`: reads change nothing and show the
-- stored bytes, and a producer tuple is appended at most once.
use quorum_loro_gateway.Prelude.{
  ℕ, ◌≡◌, refl, ◌⊎◌, Bool, true, List, ◌++◌, drop, length, Result, ok, err,
}
use quorum_loro_gateway.Frame.{ProducerTuple}
use quorum_loro_gateway.Store.{committed, Task, UrsulaStore, continue, convert_error}

pub record StoreLaws {S : Type 0} (store : UrsulaStore S) : Type 0 where
  -- the bytes of a stream, and whether a tuple was appended to it
  pub contents : S → List ℕ → List ℕ
  pub accepted : S → List ℕ → ProducerTuple → Bool
  pub ensure_keeps :
      (t stream : List ℕ) (s : S) → contents (store.ensure_stream t s).1 stream ≡ contents s stream
  pub read_all_keeps :
      (t stream : List ℕ) (s : S) → contents (store.read_all t s).1 stream ≡ contents s stream
  pub read_range_keeps :
      (t stream : List ℕ) (offset n : ℕ) (s : S)
      → contents (store.read_range t offset n s).1 stream ≡ contents s stream
  pub read_all_shows :
      (stream : List ℕ) (s s' : S) (bytes : List ℕ)
      → store.read_all stream s ≡ (ok bytes, s')
      → bytes ≡ contents s stream
  pub read_range_shows :
      (stream : List ℕ) (offset n : ℕ) (s s' : S) (bytes : List ℕ)
      → store.read_range stream offset n s ≡ (ok bytes, s')
      → (rest : List ℕ) × (drop offset (contents s stream) ≡ bytes ++ rest)
  pub append_committed :
      (stream : List ℕ) (p : ProducerTuple) (body : List ℕ) (s s' : S) (n : ℕ)
      → store.append stream p body s ≡ (ok (committed n), s')
      → (contents s' stream ≡ contents s stream ++ body) × (n ≡ length (contents s' stream))
  pub append_effect :
      (stream : List ℕ) (p : ProducerTuple) (body : List ℕ) (s : S)
      → (contents (store.append stream p body s).1 stream ≡ contents s stream)
        ⊎ ((contents (store.append stream p body s).1 stream ≡ contents s stream ++ body)
            × (accepted (store.append stream p body s).1 stream p ≡ true))
  pub append_accepted :
      (stream : List ℕ) (p : ProducerTuple) (body : List ℕ) (s : S)
      → accepted s stream p ≡ true
      → (contents (store.append stream p body s).1 stream ≡ contents s stream)
        × (accepted (store.append stream p body s).1 stream p ≡ true)

module _ {S E A B : Type 0} where
  -- What holds of the state before and after each of two calls holds after both.
  pub continue-state :
      (R : S → Type 0) (r : Result E A × S) (k : A → Task S E B)
      → R r.1
      → ((a : A) (s : S) → R s → R (k a s).1)
      → R (continue r k).1
  continue-state R (ok a, s) k h f = f a s h
  continue-state R (err e, s) k h f = h

  pub continue-eq-ok :
      (r : Result E A × S) (k : A → Task S E B) (b : B) (s' : S)
      → continue r k ≡ (ok b, s')
      → (a : A) × (s : S) × (r ≡ (ok a, s)) × (k a s ≡ (ok b, s'))
  continue-eq-ok (ok a, s) k b s' h = (a, s, refl, h)
  continue-eq-ok (err e, s) k b s' h = cc

  pub continue_pure-eq-ok :
      (r : Result E A) (k : A → Task S E B) (b : B) (s s' : S)
      → continue (r, s) k ≡ (ok b, s')
      → (a : A) × (r ≡ ok a) × (k a s ≡ (ok b, s'))
  continue_pure-eq-ok (ok a) k b s s' h = (a, refl, h)
  continue_pure-eq-ok (err e) k b s s' h = cc

module _ {S E F A : Type 0} where
  pub convert_error-eq-ok :
      (f : E → F) (r : Result E A × S) (a : A) (s' : S)
      → convert_error f r ≡ (ok a, s')
      → r ≡ (ok a, s')
  convert_error-eq-ok f (ok a', s) a s' h = cc
  convert_error-eq-ok f (err e, s) a s' h = cc

  pub convert_error-state : (f : E → F) (r : Result E A × S) → (convert_error f r).1 ≡ r.1
  convert_error-state f (ok a, s) = refl
  convert_error-state f (err e, s) = refl
