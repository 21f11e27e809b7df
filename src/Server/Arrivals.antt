-- ===== src/Server/Arrivals.antt =====
-- A fragmented update whose fragments arrive in any order.
use quorum_loro_gateway.Prelude.{
  ℕ, ◌+◌, ◌≤◌, ◌<◌, ◌≡◌, ◌≢◌, ◌∙◌, refl, sym, true, false, ◌||◌, Option, none, some, List, [], ◌∷◌,
  ◌++◌, ltb, ◌==◌, eq→==, arith, All, length, replicate,
}
use quorum_loro_gateway.Bytes.{u64_mod, try_from_fits}
use quorum_loro_gateway.LoroProtocol.{
  loro, ProtocolMessage, doc_update_fragment_header, doc_update_fragment,
}
use quorum_loro_gateway.Server.{
  ServerConfig, FragmentKey, FragmentBatch, Connection, Batches, Action, room_update, key_eq,
  contains, find, replace, over_budget, insert_batch, on_header, finish_batch, store_batch,
  handle_message,
}
use quorum_loro_gateway.Server.Slots.{
  get_elem?, set, filled, filled-set, filled-replicate, held-replicate,
}
use quorum_loro_gateway.Server.Fragments.{find-remove, find-replace}
use quorum_loro_gateway.Prelude.{append-nil, lt→==, gt→leb, bytes_eq_refl}
use quorum_loro_gateway.Server.Reassembly.{
  concat, join_chunks-Fills, length-Fills, Fills-replicate, get_elem?-set_ne, get_elem?-replicate,
  get_elem?-lt, Awaits, with_fragment, with_fragment-Awaits, on_fragment_stores,
}

-- A fragment with its index, and the instant at which it comes.
pub record Arrival : Type 0 where
  pub at : ℕ
  pub index : ℕ
  pub bytes : List ℕ

-- The message handler alone, on messages that come faster than any expiry: the last connection and all
-- actions. `Server.Events.serve` is the loop, with its expiries.
unfoldable pub handle_all :
    ServerConfig → List (ℕ × ProtocolMessage) → Connection → Connection × List Action
handle_all config [] c = (c, [])
handle_all config ((now, m) ∷ messages) c =
    let (after, actions) = handle_message config now c m in
    let (last, rest) = handle_all config messages after in (last, actions ++ rest)

abbrev pub fragments_of : List ℕ → List ℕ → List Arrival → List (ℕ × ProtocolMessage)
fragments_of room batch [] = []
fragments_of room batch (a ∷ arrivals) =
    (a.at, doc_update_fragment loro room batch a.index a.bytes) ∷ fragments_of room batch arrivals

-- No index comes twice.
abbrev pub Distinct : List Arrival → Type 0
Distinct [] = Unit
Distinct (a ∷ arrivals) = All (λ o. a.index ≢ o.index) arrivals × Distinct arrivals

-- Each arrival is the fragment of its index.
abbrev pub Belong : List (List ℕ) → List Arrival → Type 0
Belong xs arrivals = All (λ a. get_elem? xs a.index ≡ some a.bytes) arrivals

abbrev pub Open : List (Option (List ℕ)) → List Arrival → Type 0
Open slots arrivals = All (λ a. get_elem? slots a.index ≡ some none) arrivals

pub Open-set :
    (slots : List (Option (List ℕ))) (i : ℕ) (v : Option (List ℕ)) (arrivals : List Arrival)
    → All (λ o. i ≢ o.index) arrivals
    → Open slots arrivals
    → Open (set slots i v) arrivals
Open-set slots i v [] ne h = tt
Open-set slots i v (a ∷ arrivals) ne h =
    (get_elem?-set_ne slots i a.index v (ne.0) ∙ h.0, Open-set slots i v arrivals ne.1 h.1)

module _ (config : ServerConfig) (xs : List (List ℕ)) (room batch : List ℕ) where
  abbrev pub key : FragmentKey
  key = record { room_id = room; batch_id = batch }

  abbrev pub Completed : Connection → Connection × List Action → Type 0
  Completed c r =
      (r.1 ≡ room_update room batch (concat xs ∷ []) ∷ [])
      × (find r.0.fragments key ≡ none)
      × (r.0.joined ≡ c.joined)

  pub store_completes :
      (c : Connection) (b : FragmentBatch)
      → Awaits xs b
      → b.received ≡ length xs
      → Completed c (store_batch c loro key b)
  unfolding store_batch finish_batch
  store_completes c b w e =
      rw (eq→== b.received (length b.chunks) (omega (arith, e, length-Fills b.chunks xs w.fills))) (
        rw
          (
            join_chunks-Fills b.chunks xs w.fills
                (omega (arith, e, w.counted, length-Fills b.chunks xs w.fills)),
            finish_batch,
          )
          (rw (eq→== (length (concat xs)) b.total_size (sym w.whole))
            (refl, find-remove c.fragments _, refl)))

  pub store_waits :
      (c : Connection) (b : FragmentBatch)
      → (b.received == length b.chunks) ≡ false
      → store_batch c loro key b ≡ (record c { fragments = replace c.fragments key b }, [])
  unfolding store_batch
  store_waits c b e = rw e

  pub find_first : (b : FragmentBatch) (m : Batches) → find ((key, b) ∷ m) key ≡ some b
  unfolding find key_eq
  find_first b m = rw (bytes_eq_refl room, bytes_eq_refl batch)

  handle_all-quiet :
      (now : ℕ) (m : ProtocolMessage) (messages : List (ℕ × ProtocolMessage)) (c : Connection)
      {d : Connection}
      → handle_message config now c m ≡ (d, [])
      → handle_all config ((now, m) ∷ messages) c ≡ handle_all config messages d
  unfolding handle_all
  handle_all-quiet now m messages c e = rw e

  handle_all-last :
      (now : ℕ) (m : ProtocolMessage) (c : Connection)
      → handle_all config ((now, m) ∷ []) c ≡ handle_message config now c m
  unfolding handle_all
  handle_all-last now m c = rw (append-nil (handle_message config now c m).1)

  pub message_stores :
      (a : Arrival) (c : Connection) (b : FragmentBatch)
      → Awaits xs b
      → contains c.joined room ≡ true
      → find c.fragments key ≡ some b
      → get_elem? xs a.index ≡ some a.bytes
      → get_elem? b.chunks a.index ≡ some none
      → handle_message config a.at c (doc_update_fragment loro room batch a.index a.bytes)
        ≡ store_batch c loro key (with_fragment b a.index a.bytes)
  unfolding handle_message
  message_stores a c b w joined found mine free =
      on_fragment_stores xs b w a.index a.bytes mine free c key joined found

  arrivals_complete :
      (a : Arrival) (arrivals : List Arrival) (c : Connection) (b : FragmentBatch)
      → Awaits xs b
      → contains c.joined room ≡ true
      → find c.fragments key ≡ some b
      → Distinct (a ∷ arrivals)
      → Belong xs (a ∷ arrivals)
      → Open b.chunks (a ∷ arrivals)
      → filled b.chunks + length (a ∷ arrivals) ≡ length xs
      → Completed c (handle_all config (fragments_of room batch (a ∷ arrivals)) c)
  arrivals_complete a [] c b w joined found distinct mine free all =
      rw (handle_all-last a.at (doc_update_fragment loro room batch a.index a.bytes) c) (
        rw (message_stores a c b w joined found mine.0 free.0) (
          store_completes c (with_fragment b a.index a.bytes) next
            (omega (arith, next.counted, filled-set b.chunks a.index a.bytes free.0, all))))
    where
      next : Awaits xs (with_fragment b a.index a.bytes)
      next = with_fragment-Awaits xs b w a.index a.bytes mine.0 free.0
  arrivals_complete a (a' ∷ arrivals) c b w joined found distinct mine free all =
      rw
        (handle_all-quiet a.at (doc_update_fragment loro room batch a.index a.bytes)
          (fragments_of room batch (a' ∷ arrivals)) c
          (message_stores a c b w joined found mine.0 free.0
            ∙ store_waits c (with_fragment b a.index a.bytes) more))
        (arrivals_complete a' arrivals
          (record c { fragments = replace c.fragments key (with_fragment b a.index a.bytes) })
          (with_fragment b a.index a.bytes) next joined
          (find-replace c.fragments key (with_fragment b a.index a.bytes) found) distinct.1 mine.1
          (Open-set b.chunks a.index (some a.bytes) (a' ∷ arrivals) distinct.0 free.1)
          (omega (arith, filled-set b.chunks a.index a.bytes free.0, all)))
    where
      next : Awaits xs (with_fragment b a.index a.bytes)
      next = with_fragment-Awaits xs b w a.index a.bytes mine.0 free.0

      more :
          ((with_fragment b a.index a.bytes).received
            == length (with_fragment b a.index a.bytes).chunks)
          ≡ false
      more = lt→== _ _ (
          omega (
            arith,
            next.counted,
            filled-set b.chunks a.index a.bytes free.0,
            all,
            length-Fills _ xs next.fills,
          ))

  pub Open-replicate :
      (arrivals : List Arrival) → Belong xs arrivals → Open (replicate (length xs) none) arrivals
  Open-replicate [] mine = tt
  Open-replicate (a ∷ arrivals) mine = (
    get_elem?-replicate (length xs) a.index none (get_elem?-lt xs a.index mine.0),
    Open-replicate arrivals mine.1,
  )

  -- The connection takes a batch for the fragments.
  pub record Admits (c : Connection) : Type 0 where
    pub joined : contains c.joined room ≡ true
    pub fresh : find c.fragments key ≡ none
    pub some_fragments : 0 < length xs
    pub few_fragments : length xs ≤ config.max_fragments_per_batch
    pub addressable : length xs < u64_mod
    pub some_bytes : 0 < length (concat xs)
    pub few_bytes : length (concat xs) ≤ config.max_reassembled_bytes
    pub measurable : length (concat xs) < u64_mod
    pub few_batches : length c.fragments < config.max_fragment_batches
    pub budget : over_budget config c.fragments (length (concat xs)) ≡ false

  abbrev pub opened : ℕ → FragmentBatch
  opened now = record {
    total_size = length (concat xs);
    chunks = replicate (length xs) none;
    received = 0;
    received_bytes = 0;
    deadline = now + config.fragment_timeout_after;
  }

  pub opened-Awaits : (now : ℕ) {c : Connection} → Admits c → Awaits xs (opened now)
  opened-Awaits now h = record {
    whole = refl;
    fits = h.measurable;
    addressable = h.addressable;
    fills = Fills-replicate xs;
    counted = sym (filled-replicate (length xs));
    measured = sym (held-replicate (length xs));
  }

  -- The header opens a batch of empty slots.
  pub on_header_opens :
      (now : ℕ) (c : Connection)
      → Admits c
      → handle_message config now c
          (doc_update_fragment_header loro room batch (length xs) (length (concat xs)))
        ≡ (record c { fragments = (key, opened now) ∷ c.fragments }, [])
  unfolding handle_message on_header insert_batch
  on_header_opens now c h = rw (h.joined) (
      rw
        (
          (positive (length xs) config.max_fragments_per_batch h.some_fragments h.few_fragments),
          (positive (length (concat xs)) config.max_reassembled_bytes h.some_bytes h.few_bytes),
        )
        (rw (h.fresh) (
          rw (gt→leb _ _ h.few_batches)
            (rw (h.budget) (rw (try_from_fits u64_mod (length xs) h.addressable) refl)))))
    where
      positive : (n limit : ℕ) → 0 < n → n ≤ limit → ((n == 0) || ltb limit n) ≡ false
      positive n limit h₁ h₂ = ground arith

  -- The header of a fragmented update and then its fragments, each once and in any order, on a
  -- connection that takes the batch: the only action is the call of the room's update with the
  -- concatenation of the fragments, the batch is gone and the rooms are the same.
  pub handle_all_reassembles :
      (now : ℕ) (a : Arrival) (arrivals : List Arrival) (c : Connection)
      → Admits c
      → Distinct (a ∷ arrivals)
      → Belong xs (a ∷ arrivals)
      → length (a ∷ arrivals) ≡ length xs
      → Completed c (
          handle_all config
            ((now, doc_update_fragment_header loro room batch (length xs) (length (concat xs)))
              ∷ fragments_of room batch (a ∷ arrivals))
            c)
  handle_all_reassembles now a arrivals c h distinct mine all =
      rw
        (handle_all-quiet now
          (doc_update_fragment_header loro room batch (length xs) (length (concat xs)))
          (fragments_of room batch (a ∷ arrivals)) c (on_header_opens now c h))
        (arrivals_complete a arrivals (record c { fragments = (key, opened now) ∷ c.fragments })
          (opened now) (opened-Awaits now h) h.joined (find_first (opened now) c.fragments) distinct
          mine (Open-replicate (a ∷ arrivals) mine)
          (omega (arith, all, filled-replicate (length xs))))
