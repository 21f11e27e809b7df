-- ===== src/Ursula/Total.antt =====
-- src/ursula.rs, `read_all_observed`: the loop ends, whatever the service answers.
use quorum_loro_gateway.Prelude.{
  ℕ, zero, suc, ◌+◌, ◌≤◌, ◌≡◌, ◌≢◌, ◌∙◌, inl, inr, refl, ap, Bool, true, false, Bool-cases, Option,
  none, List, [], arith, length, length-append, Result, ok, err, Result-cases,
}
use quorum_loro_gateway.Store.{StoreError, Task}
use quorum_loro_gateway.Store.Laws.{continue-eq-ok}
use quorum_loro_gateway.Ursula.{
  Response, ReadConfig, read_exact_window_once, is_transient, retry_window, read_exact_window,
  extend_output, on_output, on_window, read_rounds, read_all,
}
use quorum_loro_gateway.Ursula.Windows.{check_window-IsWindow}
use quorum_loro_gateway.Ursula.ReadAll.{extended}

module _ {S : Type 0} (get : List ℕ → ℕ → ℕ → Task S StoreError Response) (config : ReadConfig)
    (stream : List ℕ) where
  window_once-next :
      (offset max_bytes : ℕ) (s s' : S) (body : List ℕ) (next : ℕ) (up_to_date : Bool)
      → read_exact_window_once get config stream offset max_bytes s
        ≡ (ok (body, next, up_to_date), s')
      → next ≡ offset + length body
  unfolding read_exact_window_once
  window_once-next offset max_bytes s s' body next up_to_date e =
      let (r, s₁, f, g) =
        continue-eq-ok (get stream offset max_bytes s) _ (body, next, up_to_date) s' e in
      (check_window-IsWindow offset max_bytes r body next up_to_date
        (ap (λ (x : Result StoreError (List ℕ × ℕ × Bool) × S). x.0) g)).next_eq

  retried-next :
      (again : S → Result StoreError (List ℕ × ℕ × Bool) × S) (offset max_bytes : ℕ) (s s' : S)
      (body : List ℕ) (next : ℕ) (up_to_date : Bool)
      (result : Result StoreError (List ℕ × ℕ × Bool) × S)
      → read_exact_window_once get config stream offset max_bytes s ≡ result
      → ((t : S) → again t ≡ (ok (body, next, up_to_date), s') → next ≡ offset + length body)
      → retry_window get config again result ≡ (ok (body, next, up_to_date), s')
      → next ≡ offset + length body
  unfolding retry_window
  retried-next again offset max_bytes s s' body next up_to_date (ok w, t) e f h =
      window_once-next offset max_bytes s s' body next up_to_date (e ∙ h)
  retried-next again offset max_bytes s s' body next up_to_date (err error, t) e f h =
      elim (Bool-cases (is_transient error)) [
        | inl transient ↦ f t (rw transient at h)
        | inr final ↦ cc (rw final at h)
      ]

  window-next :
      (left offset max_bytes : ℕ) (s s' : S) (body : List ℕ) (next : ℕ) (up_to_date : Bool)
      → read_exact_window get config left stream offset max_bytes s
        ≡ (ok (body, next, up_to_date), s')
      → next ≡ offset + length body
  unfolding read_exact_window
  window-next zero offset max_bytes s s' body next up_to_date e =
      window_once-next offset max_bytes s s' body next up_to_date e
  window-next (suc left) offset max_bytes s s' body next up_to_date e =
      retried-next (read_exact_window get config left stream offset max_bytes) offset max_bytes s s'
        body next up_to_date _ refl
        (λ t f. window-next left offset max_bytes t s' body next up_to_date f) e

  -- The rounds that follow end.
  abbrev Ends : ℕ → (List ℕ → ℕ → S → Option (Result StoreError (List ℕ) × S)) → Type 0
  Ends n rounds =
      (output : List ℕ) (offset : ℕ) (s : S)
      → length output ≤ config.max_stream_bytes
      → config.max_stream_bytes + 2 ≤ n + length output
      → offset ≡ length output
      → rounds output offset s ≢ none

  on_window-Ends :
      (n : ℕ) (again : List ℕ → ℕ → S → Option (Result StoreError (List ℕ) × S)) (output : List ℕ)
      (offset : ℕ) (s : S) (w : Result StoreError (List ℕ × ℕ × Bool) × S)
      → Ends n again
      → config.max_stream_bytes + 2 ≤ suc n + length output
      → offset ≡ length output
      → read_exact_window get config config.safe_retries stream offset config.read_chunk_bytes s ≡ w
      → on_window get config again output offset w ≢ none
  unfolding on_window on_output
  on_window-Ends n again output offset s (err error, t) ih room f g h = cc
  on_window-Ends n again output offset s (ok (body, next, true), t) ih room f g h =
      elim (Result-cases (extend_output get config output offset (body, next, true))) [
        | inr (error, x) ↦ cc (rw (x, on_output) at h)
        | inl (longer, x) ↦ cc (rw (x, on_output) at h)
      ]
  on_window-Ends n again output offset s (ok (body, next, false), t) ih room f g h =
      elim (Result-cases (extend_output get config output offset (body, next, false))) [
        | inr (error, x) ↦ cc (rw (x, on_output) at h)
        | inl (longer, x) ↦
            let (long, short, moved) = extended get config output offset body next false x in
            let at_next =
              window-next config.safe_retries offset config.read_chunk_bytes s t body next false
                g in
            let more = ap length long ∙ length-append output body in
            ih longer next t short (omega (arith, more, at_next, moved refl, room))
              (omega (arith, more, at_next, f)) (rw (x, on_output) at h)
      ]

  read_rounds-Ends : (n : ℕ) → Ends n (read_rounds get config n stream)
  unfolding read_rounds
  read_rounds-Ends zero output offset s short room f h = absurd (omega (arith, short, room))
  read_rounds-Ends (suc n) output offset s short room f h =
      on_window-Ends n (read_rounds get config n stream) output offset s _ (read_rounds-Ends n) room
        f refl h

  -- The loop of `read_all` ends, whatever the service answers: a round that is not the last adds a
  -- byte, and the output stays within `max_stream_bytes`.
  pub read_all_terminates : (s : S) → read_all get config stream s ≢ none
  unfolding read_all
  read_all_terminates s =
      read_rounds-Ends (config.max_stream_bytes + 2) [] 0 s (omega arith) (omega arith) refl
