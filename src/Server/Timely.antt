-- ===== src/Server/Timely.antt =====
-- A fragmented update on the loop of src/server.rs, whose fragments come before the deadline.
use quorum_loro_gateway.Prelude.{
  ℕ, ◌+◌, ◌<◌, ◌≡◌, ◌∙◌, refl, ap, true, false, some, none, String, List, [], ◌∷◌, map, append-nil,
  ◌==◌, lt→==, gt→leb, arith, All, length, Result,
}
use quorum_loro_gateway.LoroProtocol.{
  loro, ProtocolMessage, doc_update_fragment_header, doc_update_fragment,
}
use quorum_loro_gateway.Server.{
  ServerConfig, FragmentBatch, Connection, Action, room_update, contains, find, replace,
  handle_message, expire_fragments, store_batch,
}
use quorum_loro_gateway.Server.Slots.{get_elem?, filled, filled-set, filled-replicate}
use quorum_loro_gateway.Server.Fragments.{find-replace, find-expire_batches}
use quorum_loro_gateway.Server.Reassembly.{
  concat, length-Fills, Awaits, with_fragment, with_fragment-Awaits,
}
use quorum_loro_gateway.Server.Arrivals.{
  Arrival, Distinct, Belong, Open, Open-set, Open-replicate, key, Completed, store_completes,
  store_waits, find_first, message_stores, Admits, opened, opened-Awaits, on_header_opens,
}
use quorum_loro_gateway.Server.Events.{Turn, serve}
use quorum_loro_gateway.Server.Polls.{
  room_calls, Delivery, turns_of, after_polls, when_handled, Timely, joined-when_handled, Reads,
  serve-Delivery,
}

-- A fragment with its index, and the message that brings it.
pub record Piece : Type 0 where
  pub brought : Delivery
  pub index : ℕ
  pub bytes : List ℕ

abbrev pub arrival_of : Piece → Arrival
arrival_of p = record { at = p.brought.at; index = p.index; bytes = p.bytes }

abbrev pub piece_turns : List Piece → List Turn
piece_turns [] = []
piece_turns (p ∷ pieces) = turns_of p.brought (piece_turns pieces)

module _ (config : ServerConfig) (xs : List (List ℕ)) (room batch : List ℕ) where
  -- The batch waits on the connection.
  abbrev Holds : Connection → FragmentBatch → Type 0
  Holds c b =
      (contains c.joined room ≡ true) × (find c.fragments (key config xs room batch) ≡ some b)

  expire-Holds :
      (t : ℕ) (c : Connection) (b : FragmentBatch)
      → t < b.deadline
      → Holds c b
      → Holds (expire_fragments t c).0 b
  unfolding expire_fragments
  expire-Holds t c b early h = (
    h.0,
    find-expire_batches t c.fragments (key config xs room batch) h.1 (gt→leb b.deadline t early),
  )

  polls-Holds :
      (polls : List ℕ) (c : Connection) (b : FragmentBatch)
      → All (λ t. t < b.deadline) polls
      → Holds c b
      → Holds (after_polls polls c) b
  polls-Holds [] c b early h = h
  polls-Holds (t ∷ polls) c b early h =
      polls-Holds polls (expire_fragments t c).0 b early.1 (expire-Holds t c b early.0 h)

  when_handled-Holds :
      (d : Delivery) (c : Connection) (b : FragmentBatch)
      → Timely b.deadline d
      → Holds c b
      → Holds (when_handled d c) b
  when_handled-Holds d c b early h =
      expire-Holds d.expires (after_polls d.idle c) b early.1 (polls-Holds d.idle c b early.0 h)

module _ (max_message_size : ℕ) (codec : List ℕ → Result String ProtocolMessage)
    (config : ServerConfig) (xs : List (List ℕ)) (room batch : List ℕ) where
  -- The only call of a room is that of the update, the batch is gone, and the rooms are the same.
  abbrev pub Delivered : Connection → Connection × List Action → Type 0
  Delivered c r =
      (room_calls r.1 ≡ room_update room batch (concat xs ∷ []) ∷ [])
      × (find r.0.fragments (key config xs room batch) ≡ none)
      × (r.0.joined ≡ c.joined)

  -- The message that brings a piece is that of its fragment.
  abbrev pub Brings : Piece → Type 0
  Brings p =
      Reads max_message_size codec config p.brought.wire
        (doc_update_fragment loro room batch p.index p.bytes)

  Completed-Delivered :
      (d : Delivery) (m : ProtocolMessage) (c : Connection) (r : Connection × List Action)
      → Reads max_message_size codec config d.wire m
      → handle_message config d.at (when_handled d c) m ≡ r
      → Completed config xs room batch (when_handled d c) r
      → Delivered c (serve max_message_size codec config (turns_of d []) c)
  unfolding serve
  Completed-Delivered d m c r reads handled (done, gone, kept) =
      let (same, calls) =
        serve-Delivery max_message_size codec config d m [] c r.0 r.1 reads handled in
      (
        calls ∙ ap room_calls (append-nil r.1 ∙ done),
        ap (λ (x : Connection). find x.fragments (key config xs room batch)) same ∙ gone,
        ap (λ (x : Connection). x.joined) same ∙ kept ∙ joined-when_handled d c,
      )

  quiet-Delivered :
      (d : Delivery) (m : ProtocolMessage) (turns : List Turn) (c after : Connection)
      → Reads max_message_size codec config d.wire m
      → handle_message config d.at (when_handled d c) m ≡ (after, [])
      → after.joined ≡ (when_handled d c).joined
      → Delivered after (serve max_message_size codec config turns after)
      → Delivered c (serve max_message_size codec config (turns_of d turns) c)
  quiet-Delivered d m turns c after reads handled kept (done, gone, last) =
      let (same, calls) =
        serve-Delivery max_message_size codec config d m turns c after [] reads handled in
      (
        calls ∙ done,
        ap (λ (x : Connection). find x.fragments (key config xs room batch)) same ∙ gone,
        ap (λ (x : Connection). x.joined) same ∙ last ∙ kept ∙ joined-when_handled d c,
      )

  module _ (p : Piece) (c : Connection) (b : FragmentBatch) (w : Awaits xs b)
      (early : Timely b.deadline p.brought) (held : Holds config xs room batch c b)
      (mine : get_elem? xs p.index ≡ some p.bytes)
      (free : get_elem? b.chunks p.index ≡ some none) where
    piece_stores :
        handle_message config p.brought.at
          (when_handled p.brought c)
          (doc_update_fragment loro room batch p.index p.bytes)
        ≡ store_batch
            (when_handled p.brought c)
            loro
            (key config xs room batch)
            (with_fragment b p.index p.bytes)
    piece_stores =
        let (joined, found) = when_handled-Holds config xs room batch p.brought c b early held in
        message_stores config xs room batch (arrival_of p) (when_handled p.brought c) b w joined
          found mine free

    piece-Awaits : Awaits xs (with_fragment b p.index p.bytes)
    piece-Awaits = with_fragment-Awaits xs b w p.index p.bytes mine free

  pieces_deliver :
      (p : Piece) (pieces : List Piece) (c : Connection) (b : FragmentBatch)
      → Awaits xs b
      → Holds config xs room batch c b
      → All (λ o. Timely b.deadline o.brought) (p ∷ pieces)
      → All Brings (p ∷ pieces)
      → Distinct (map arrival_of (p ∷ pieces))
      → Belong xs (map arrival_of (p ∷ pieces))
      → Open b.chunks (map arrival_of (p ∷ pieces))
      → filled b.chunks + length (p ∷ pieces) ≡ length xs
      → Delivered c (serve max_message_size codec config (piece_turns (p ∷ pieces)) c)
  pieces_deliver p [] c b w held early brings distinct mine free all =
      let next = piece-Awaits p c b w early.0 held mine.0 free.0 in
      Completed-Delivered p.brought (doc_update_fragment loro room batch p.index p.bytes) c _
        brings.0 (piece_stores p c b w early.0 held mine.0 free.0)
        (store_completes config xs room batch (when_handled p.brought c)
          (with_fragment b p.index p.bytes) next
          (omega (arith, next.counted, filled-set b.chunks p.index p.bytes free.0, all)))
  pieces_deliver p (p' ∷ pieces) c b w held early brings distinct mine free all =
      let next = piece-Awaits p c b w early.0 held mine.0 free.0 in
      let (joined, found) = when_handled-Holds config xs room batch p.brought c b early.0 held in
      let more : ((with_fragment b p.index p.bytes).received
            == length (with_fragment b p.index p.bytes).chunks)
          ≡ false =
        lt→== _ _ (
          omega (
            arith,
            next.counted,
            filled-set b.chunks p.index p.bytes free.0,
            all,
            length-Fills _ xs next.fills,
          )) in
      quiet-Delivered p.brought (doc_update_fragment loro room batch p.index p.bytes)
        (piece_turns (p' ∷ pieces)) c
        (record (when_handled p.brought c) {
          fragments =
              replace (when_handled p.brought c).fragments (key config xs room batch)
                (with_fragment b p.index p.bytes);
        })
        brings.0
        (piece_stores p c b w early.0 held mine.0 free.0
          ∙ store_waits config xs room batch (when_handled p.brought c)
              (with_fragment b p.index p.bytes) more)
        refl
        (pieces_deliver p' pieces _ (with_fragment b p.index p.bytes) next
          (
            joined,
            find-replace (when_handled p.brought c).fragments (key config xs room batch)
                (with_fragment b p.index p.bytes) found,
          )
          early.1 brings.1 distinct.1 mine.1
          (Open-set b.chunks p.index (some p.bytes) (map arrival_of (p' ∷ pieces)) distinct.0
            free.1)
          (omega (arith, filled-set b.chunks p.index p.bytes free.0, all)))

  -- The header of a fragmented update and then its fragments, each once and in any order, on the loop
  -- of a connection that takes the batch when the header is handled, where each fragment is handled
  -- after expiries that all come before the batch's deadline: the only call of a room is that of the
  -- update with the concatenation of the fragments, the batch is gone and the joined rooms are the
  -- same. Between the messages the loop may poll and expire other batches.
  pub serve_reassembles :
      (head : Delivery) (p : Piece) (pieces : List Piece) (c : Connection)
      → Reads max_message_size codec config head.wire
          (doc_update_fragment_header loro room batch (length xs) (length (concat xs)))
      → Admits config xs room batch (when_handled head c)
      → All (λ o. Timely (head.at + config.fragment_timeout_after) o.brought) (p ∷ pieces)
      → All Brings (p ∷ pieces)
      → Distinct (map arrival_of (p ∷ pieces))
      → Belong xs (map arrival_of (p ∷ pieces))
      → length (p ∷ pieces) ≡ length xs
      → Delivered c
          (serve max_message_size codec config (turns_of head (piece_turns (p ∷ pieces))) c)
  serve_reassembles head p pieces c reads h early brings distinct mine all =
      quiet-Delivered head
        (doc_update_fragment_header loro room batch (length xs) (length (concat xs)))
        (piece_turns (p ∷ pieces)) c _ reads
        (on_header_opens config xs room batch head.at (when_handled head c) h) refl
        (pieces_deliver p pieces _ (opened config xs room batch head.at)
          (opened-Awaits config xs room batch head.at h)
          (
            h.joined,
            find_first config xs room batch (opened config xs room batch head.at)
                (when_handled head c).fragments,
          )
          early brings distinct mine
          (Open-replicate config xs room batch (map arrival_of (p ∷ pieces)) mine)
          (omega (arith, all, filled-replicate (length xs))))
