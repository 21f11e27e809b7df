-- ===== src/Store/Memory.antt =====
-- A store that keeps the one stream it is asked about in memory, on which the code is run: the first
-- `lost` appends that land are reported as ambiguous.
use quorum_loro_gateway.Prelude.{
  ℕ, suc, zero, ◌+◌, ◌≡◌, refl, sym, ap, ◌∙◌, ◌⊎◌, inl, inr, Bool, true, false, List, ◌++◌, arith,
  ltb, lt→ltb, drop, take, take-append-drop, length, Result, ok, err, ok-injective,
}
use quorum_loro_gateway.Frame.{ProducerTuple}
use quorum_loro_gateway.Store.{
  AppendOutcome, committed, duplicate, StoreError, ambiguous, UrsulaStore,
}
use quorum_loro_gateway.Store.Laws.{StoreLaws}

pub record Memory : Type 0 where
  pub bytes : List ℕ
  pub next_sequence : ℕ
  pub last_end : ℕ
  pub lost : ℕ

abbrev pub land : Memory → ProducerTuple → List ℕ → ℕ → Memory
land m p body lost = record {
  bytes = m.bytes ++ body;
  next_sequence = p.sequence + 1;
  last_end = length (m.bytes ++ body);
  lost = lost;
}

-- Whether the acknowledgement gets through.
abbrev pub acknowledge :
    ℕ → Memory → ProducerTuple → List ℕ → Result StoreError AppendOutcome × Memory
acknowledge zero m p body = (ok (committed (length (m.bytes ++ body))), land m p body 0)
acknowledge (suc lost) m p body = (err (ambiguous "acknowledgement was lost"), land m p body lost)

abbrev pub append_if :
    Bool → Memory → ProducerTuple → List ℕ → Result StoreError AppendOutcome × Memory
append_if true m p body = (ok (duplicate m.last_end), m)
append_if false m p body = acknowledge m.lost m p body

abbrev pub memory_store : UrsulaStore Memory
memory_store = record {
  ensure_stream = λ stream m. (ok tt, m);
  read_all = λ stream m. (ok m.bytes, m);
  read_range = λ stream offset n m. (ok (take n (drop offset m.bytes)), m);
  append = λ stream p body m. append_if (ltb p.sequence m.next_sequence) m p body;
}

abbrev pub seen : Memory → ProducerTuple → Bool
seen m p = ltb p.sequence m.next_sequence

acknowledge_committed :
    (lost : ℕ) (m m' : Memory) (p : ProducerTuple) (body : List ℕ) (n : ℕ)
    → acknowledge lost m p body ≡ (ok (committed n), m')
    → (m'.bytes ≡ m.bytes ++ body) × (n ≡ length m'.bytes)
acknowledge_committed zero m m' p body n e = (cc, cc)
acknowledge_committed (suc lost) m m' p body n e = cc

pub committed_grows :
    (b : Bool) (m m' : Memory) (p : ProducerTuple) (body : List ℕ) (n : ℕ)
    → append_if b m p body ≡ (ok (committed n), m')
    → (m'.bytes ≡ m.bytes ++ body) × (n ≡ length m'.bytes)
committed_grows true m m' p body n e = cc
committed_grows false m m' p body n e = acknowledge_committed m.lost m m' p body n e

acknowledge_effect :
    (lost : ℕ) (m : Memory) (p : ProducerTuple) (body : List ℕ)
    → ((acknowledge lost m p body).1.bytes ≡ m.bytes ++ body)
      × (seen (acknowledge lost m p body).1 p ≡ true)
acknowledge_effect zero m p body = (refl, lt→ltb p.sequence (p.sequence + 1) (omega arith))
acknowledge_effect (suc lost) m p body = (refl, lt→ltb p.sequence (p.sequence + 1) (omega arith))

pub append_if_effect :
    (b : Bool) (m : Memory) (p : ProducerTuple) (body : List ℕ)
    → ((append_if b m p body).1.bytes ≡ m.bytes)
      ⊎ (((append_if b m p body).1.bytes ≡ m.bytes ++ body)
          × (seen (append_if b m p body).1 p ≡ true))
append_if_effect true m p body = inl refl
append_if_effect false m p body = inr (acknowledge_effect m.lost m p body)

seen_kept :
    (b : Bool) (m : Memory) (p : ProducerTuple) (body : List ℕ)
    → b ≡ true
    → seen m p ≡ true
    → ((append_if b m p body).1.bytes ≡ m.bytes) × (seen (append_if b m p body).1 p ≡ true)
seen_kept true m p body e s = (refl, s)
seen_kept false m p body e s = cc

pub kept :
    (m : Memory) (p : ProducerTuple) (body : List ℕ)
    → seen m p ≡ true
    → ((append_if (ltb p.sequence m.next_sequence) m p body).1.bytes ≡ m.bytes)
      × (seen (append_if (ltb p.sequence m.next_sequence) m p body).1 p ≡ true)
kept m p body s = seen_kept (ltb p.sequence m.next_sequence) m p body s s

pub shown :
    (m m' : Memory) (bytes : List ℕ)
    → ◌≡◌ {A = Result StoreError (List ℕ) × Memory} (ok m.bytes, m) (ok bytes, m')
    → bytes ≡ m.bytes
shown m m' bytes e = cc

pub range_shown :
    (offset n : ℕ) (m m' : Memory) (bytes : List ℕ)
    → ◌≡◌ {A = Result StoreError (List ℕ) × Memory}
        (ok (take n (drop offset m.bytes)), m)
        (ok bytes, m')
    → (rest : List ℕ) × (drop offset m.bytes ≡ bytes ++ rest)
range_shown offset n m m' bytes e =
    let b =
      ok-injective {E = StoreError} (take n (drop offset m.bytes)) bytes
        (ap (λ (r : Result StoreError (List ℕ) × Memory). r.0) e) in
    (
      drop n (drop offset m.bytes),
      sym (take-append-drop n (drop offset m.bytes))
          ∙ ap (λ (l : List ℕ). l ++ drop n (drop offset m.bytes)) b,
    )

abbrev pub memory_laws : StoreLaws memory_store
memory_laws = record {
  contents = λ m stream. m.bytes;
  accepted = λ m stream p. seen m p;
  ensure_keeps = λ t stream m. refl;
  read_all_keeps = λ t stream m. refl;
  read_range_keeps = λ t stream offset n m. refl;
  read_all_shows = λ stream m m' bytes e. shown m m' bytes e;
  read_range_shows = λ stream offset n m m' bytes e. range_shown offset n m m' bytes e;
  append_committed =
      λ stream p body m m' n e. committed_grows (ltb p.sequence m.next_sequence) m m' p body n e;
  append_effect = λ stream p body m. append_if_effect (ltb p.sequence m.next_sequence) m p body;
  append_accepted = λ stream p body m s. kept m p body s;
}
