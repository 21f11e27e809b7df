-- ===== src/Ursula/ReadAll.antt =====
-- src/ursula.rs, `read_all_observed`: what the loop reads is the stream.
use quorum_loro_gateway.Prelude.{
  ℕ, zero, suc, ◌+◌, ◌≤◌, ◌<◌, ◌≡◌, ◌∙◌, inl, inr, refl, sym, ap, Bool, true, false, Bool-cases,
  Option, none, some, List, [], ◌++◌, append-nil, append_assoc, arith, length, length-append, drop,
  drop-append, Result, ok, err, Result-cases,
}
use mathlib.Core.Path.{subst}
use quorum_loro_gateway.Bytes.{checked_add}
use quorum_loro_gateway.Store.{StoreError, Task}
use quorum_loro_gateway.Store.Laws.{continue-eq-ok, continue-state}
use quorum_loro_gateway.Ursula.{
  Response, ReadConfig, check_window, read_exact_window_once, is_transient, retry_window,
  read_exact_window, extend_output, on_output, on_window, read_rounds, read_all,
}
use quorum_loro_gateway.Ursula.Windows.{concat, check_window-IsWindow}

remaining :
    {bytes : List ℕ} (output rest : List ℕ) (offset : ℕ)
    → bytes ≡ output ++ rest
    → offset ≡ length output
    → rest ≡ drop offset bytes
remaining {bytes} output rest offset e f =
    sym (drop-append output rest)
    ∙ (ap (λ (l : List ℕ). drop (length output) l) (sym e) ∙ ap (λ (k : ℕ). drop k bytes) (sym f))

last :
    {bytes : List ℕ} (output rest body rest' : List ℕ)
    → bytes ≡ output ++ rest
    → rest ≡ body ++ rest'
    → rest' ≡ []
    → output ++ body ≡ bytes
last output rest body rest' e f g =
    ap (λ (l : List ℕ). output ++ l)
      (sym (append-nil body) ∙ (ap (λ (l : List ℕ). body ++ l) (sym g) ∙ sym f))
    ∙ sym e

module _ {S : Type 0} (get : List ℕ → ℕ → ℕ → Task S StoreError Response)
    (config : ReadConfig) where
  pub extended :
      (output : List ℕ) (offset : ℕ) (body : List ℕ) (next : ℕ) (up_to_date : Bool)
      {longer : List ℕ}
      → extend_output get config output offset (body, next, up_to_date) ≡ ok longer
      → (longer ≡ output ++ body)
        × (length longer ≤ config.max_stream_bytes)
        × (up_to_date ≡ false → offset < next)
  unfolding extend_output checked_add
  extended output offset body next up_to_date {longer} e = ground (arith, length-append output body)

  -- What the service shows of its streams: reads change nothing, and the chunks of a whole response are
  -- the bytes from the offset on, to the end if it is marked as up to date.
  pub record ServiceLaws : Type 0 where
    pub contents : S → List ℕ → List ℕ
    pub get_keeps :
        (t stream : List ℕ) (offset n : ℕ) (s : S)
        → contents (get t offset n s).1 stream ≡ contents s stream
    pub get_shows :
        (stream : List ℕ) (offset n : ℕ) (s s' : S) (r : Response)
        → get stream offset n s ≡ (ok r, s')
        → r.status ≡ 200
        → r.failure ≡ none
        → (rest : List ℕ) × (drop offset (contents s stream) ≡ concat r.chunks ++ rest)
          × (r.up_to_date ≡ true → rest ≡ [])

  module _ (stream : List ℕ) where
    -- A window stands in the stream, and the service is as it was.
    abbrev Shown : (S → List ℕ) → List ℕ → ℕ → List ℕ → ℕ → Bool → S → Type 0
    Shown bytes_of bytes offset body next up_to_date s' =
        (bytes_of s' ≡ bytes)
        × (next ≡ offset + length body)
        × ((rest : List ℕ) × (drop offset bytes ≡ body ++ rest) × (up_to_date ≡ true → rest ≡ []))

    window_once-Shown :
        (laws : ServiceLaws) (offset max_bytes : ℕ) (s s' : S) (body : List ℕ) (next : ℕ)
        (up_to_date : Bool)
        → read_exact_window_once get config stream offset max_bytes s
          ≡ (ok (body, next, up_to_date), s')
        → Shown
            (λ t. laws.contents t stream)
            (laws.contents s stream)
            offset
            body
            next
            up_to_date
            s'
    unfolding read_exact_window_once
    window_once-Shown laws offset max_bytes s s' body next up_to_date e =
        let (r, s₁, f, g) =
          continue-eq-ok (get stream offset max_bytes s) _ (body, next, up_to_date) s' e in
        let checked : check_window offset max_bytes r ≡ ok (body, next, up_to_date) =
          ap (λ (x : Result StoreError (List ℕ × ℕ × Bool) × S). x.0) g in
        let same_state : s₁ ≡ s' = ap (λ (x : Result StoreError (List ℕ × ℕ × Bool) × S). x.1) g in
        let w = check_window-IsWindow offset max_bytes r body next up_to_date checked in
        let (rest, shown, ended) = laws.get_shows stream offset max_bytes s s₁ r f w.good w.whole in
        (
          sym (
                ap (λ (x : Result StoreError Response × S). laws.contents x.1 stream) f
                ∙ ap (λ (t : S). laws.contents t stream) same_state)
              ∙ laws.get_keeps stream stream offset max_bytes s,
          w.next_eq,
          (
            rest,
            shown ∙ ap (λ (l : List ℕ). l ++ rest) (sym w.bytes),
            λ m. ended (sym w.marked ∙ m),
          ),
        )

    window_once_keeps :
        (laws : ServiceLaws) (offset max_bytes : ℕ) (s : S)
        → laws.contents (read_exact_window_once get config stream offset max_bytes s).1 stream
          ≡ laws.contents s stream
    unfolding read_exact_window_once
    window_once_keeps laws offset max_bytes s =
        continue-state (λ t. laws.contents t stream ≡ laws.contents s stream)
          (get stream offset max_bytes s) _ (laws.get_keeps stream stream offset max_bytes s)
          (λ a t h. h)

    module _ (laws : ServiceLaws) (bytes : List ℕ) where
      bytes_of : S → List ℕ
      bytes_of t = laws.contents t stream

      retried-Shown :
          (again : S → Result StoreError (List ℕ × ℕ × Bool) × S) (offset max_bytes : ℕ) (s s' : S)
          (body : List ℕ) (next : ℕ) (up_to_date : Bool)
          (result : Result StoreError (List ℕ × ℕ × Bool) × S)
          → laws.contents s stream ≡ bytes
          → read_exact_window_once get config stream offset max_bytes s ≡ result
          → ((t : S)
              → laws.contents t stream ≡ bytes
              → again t ≡ (ok (body, next, up_to_date), s')
              → Shown (λ t. laws.contents t stream) bytes offset body next up_to_date s')
          → retry_window get config again result ≡ (ok (body, next, up_to_date), s')
          → Shown (λ t. laws.contents t stream) bytes offset body next up_to_date s'
      unfolding retry_window
      retried-Shown again offset max_bytes s s' body next up_to_date (ok w, t) k e f h =
          subst
            (λ (b : List ℕ). Shown (λ t. laws.contents t stream) b offset body next up_to_date s') k
            (window_once-Shown laws offset max_bytes s s' body next up_to_date (e ∙ h))
      retried-Shown again offset max_bytes s s' body next up_to_date (err error, t) k e f h =
          elim (Bool-cases (is_transient error)) [
            | inl transient ↦
                f t
                  (ap (λ (x : Result StoreError (List ℕ × ℕ × Bool) × S). laws.contents x.1 stream)
                      (sym e)
                    ∙ (window_once_keeps laws offset max_bytes s ∙ k))
                  (rw transient at h)
            | inr final ↦ cc (rw final at h)
          ]

      window-Shown :
          (left offset max_bytes : ℕ) (s s' : S) (body : List ℕ) (next : ℕ) (up_to_date : Bool)
          → laws.contents s stream ≡ bytes
          → read_exact_window get config left stream offset max_bytes s
            ≡ (ok (body, next, up_to_date), s')
          → Shown (λ t. laws.contents t stream) bytes offset body next up_to_date s'
      unfolding read_exact_window
      window-Shown zero offset max_bytes s s' body next up_to_date k e =
          subst
            (λ (b : List ℕ). Shown (λ t. laws.contents t stream) b offset body next up_to_date s') k
            (window_once-Shown laws offset max_bytes s s' body next up_to_date e)
      window-Shown (suc left) offset max_bytes s s' body next up_to_date k e =
          retried-Shown (read_exact_window get config left stream offset max_bytes) offset max_bytes
            s s' body next up_to_date _ k refl
            (λ t h f. window-Shown left offset max_bytes t s' body next up_to_date h f) e

      -- One round, with what the rounds that follow it read.
      module _ (s' : S) (result : List ℕ) where
        abbrev Reads : (List ℕ → ℕ → S → Option (Result StoreError (List ℕ) × S)) → Type 0
        Reads rounds =
            (output rest : List ℕ) (offset : ℕ) (s : S)
            → laws.contents s stream ≡ bytes
            → bytes ≡ output ++ rest
            → offset ≡ length output
            → rounds output offset s ≡ some (ok result, s')
            → result ≡ bytes

        on_window-Reads :
            (again : List ℕ → ℕ → S → Option (Result StoreError (List ℕ) × S))
            (output rest : List ℕ) (offset : ℕ) (s : S)
            (w : Result StoreError (List ℕ × ℕ × Bool) × S)
            → Reads again
            → laws.contents s stream ≡ bytes
            → bytes ≡ output ++ rest
            → offset ≡ length output
            → read_exact_window get config config.safe_retries stream offset config.read_chunk_bytes
                s
              ≡ w
            → on_window get config again output offset w ≡ some (ok result, s')
            → result ≡ bytes
        unfolding on_window on_output
        on_window-Reads again output rest offset s (err error, t) ih k e f g h = cc
        on_window-Reads again output rest offset s (ok (body, next, true), t) ih k e f g h =
            elim (Result-cases (extend_output get config output offset (body, next, true))) [
              | inr (error, x) ↦ cc (rw (x, on_output) at h)
              | inl (longer, x) ↦
                  let (kept, next_eq, more) =
                    window-Shown config.safe_retries offset config.read_chunk_bytes s t body next
                      true k g in
                  let (rest', shown, ended) = more in
                  let (long, _, _) = extended output offset body next true x in
                  let left : rest ≡ body ++ rest' = remaining output rest offset e f ∙ shown in
                  let same : longer ≡ result = cc (rw (x, on_output) at h) in
                  sym same ∙ (long ∙ (last output rest body rest' e left (ended refl)))
            ]
        on_window-Reads again output rest offset s (ok (body, next, false), t) ih k e f g h =
            elim (Result-cases (extend_output get config output offset (body, next, false))) [
              | inr (error, x) ↦ cc (rw (x, on_output) at h)
              | inl (longer, x) ↦
                  let (kept, next_eq, more) =
                    window-Shown config.safe_retries offset config.read_chunk_bytes s t body next
                      false k g in
                  let (rest', shown, ended) = more in
                  let (long, _, _) = extended output offset body next false x in
                  let left : rest ≡ body ++ rest' = remaining output rest offset e f ∙ shown in
                  ih longer rest' next t kept
                    (e
                      ∙ (ap (λ (l : List ℕ). output ++ l) left
                          ∙ (sym (append_assoc output body rest')
                              ∙ ap (λ (l : List ℕ). l ++ rest') (sym long))))
                    (omega (arith, next_eq, f, ap length long, length-append output body))
                    (rw (x, on_output) at h)
            ]

        read_rounds-Reads : (n : ℕ) → Reads (read_rounds get config n stream)
        unfolding read_rounds
        read_rounds-Reads zero output rest offset s k e f h = cc
        read_rounds-Reads (suc n) output rest offset s k e f h =
            on_window-Reads (read_rounds get config n stream) output rest offset s _
              (read_rounds-Reads n) k e f refl h

    -- On a service that obeys `ServiceLaws`, the bytes that `read_all` returns are the stream's.
    pub read_all-contents :
        (laws : ServiceLaws) (s s' : S) (result : List ℕ)
        → read_all get config stream s ≡ some (ok result, s')
        → result ≡ laws.contents s stream
    unfolding read_all
    read_all-contents laws s s' result e =
        read_rounds-Reads laws (laws.contents s stream) s' result (config.max_stream_bytes + 2) []
          (laws.contents s stream) 0 s refl refl refl e
