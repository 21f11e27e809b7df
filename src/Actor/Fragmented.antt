-- ===== src/Actor/Fragmented.antt =====
-- src/actor.rs, `send_update`, received by src/server.rs: an update comes out as it went in.
use quorum_loro_gateway.Prelude.{
  ℕ, zero, suc, ◌+◌, ◌/◌, ◌≤◌, ◌<◌, ◌≡◌, ◌≢◌, ◌∙◌, inl, inr, refl, sym, ap, true, false, Bool-cases,
  some, List, [], ◌∷◌, ◌++◌, leb, arith, All, length, take, drop, length-drop, take-append-drop,
  drop-drop,
}
use quorum_loro_gateway.Bytes.{u64_mod, saturating_u64, saturating_u64_fits}
use quorum_loro_gateway.LoroProtocol.{loro, ProtocolMessage, doc_update, doc_update_fragment_header}
use quorum_loro_gateway.Actor.{Emission, to_peer, respond, activated}
use quorum_loro_gateway.Actor.Sending.{
  fragment_size, chunk_rounds, chunks, div_ceil, send_fragments, server_batch_id, send_update,
}
use quorum_loro_gateway.Server.{
  ServerConfig, Connection, room_update, contains, on_update, handle_message,
}
use quorum_loro_gateway.Server.Slots.{get_elem?}
use quorum_loro_gateway.Server.Reassembly.{concat}
use quorum_loro_gateway.Server.Arrivals.{
  Arrival, handle_all, fragments_of, Distinct, Belong, Admits, Completed, handle_all_reassembles,
}

concat-chunk_rounds :
    (n size : ℕ) (bytes : List ℕ)
    → 0 < size
    → length bytes ≤ n
    → concat (chunk_rounds n size bytes) ≡ bytes
unfolding chunk_rounds
concat-chunk_rounds zero size [] pos h = refl
concat-chunk_rounds zero size (b ∷ bs) pos h = absurd (omega arith)
concat-chunk_rounds (suc n) size [] pos h = refl
concat-chunk_rounds (suc n) size (b ∷ bs) pos h =
    ap (λ (l : List ℕ). take size (b ∷ bs) ++ l)
      (concat-chunk_rounds n size (drop size (b ∷ bs)) pos
        (omega (arith, length-drop size (b ∷ bs))))
    ∙ take-append-drop size (b ∷ bs)

length-chunk_rounds :
    (n size : ℕ) (bytes : List ℕ)
    → size ≡ fragment_size
    → length bytes ≤ n
    → length (chunk_rounds n size bytes) ≡ (length bytes + 245759) / 245760
unfolding chunk_rounds
length-chunk_rounds zero size [] e h = omega arith
length-chunk_rounds zero size (b ∷ bs) e h = absurd (omega arith)
length-chunk_rounds (suc n) size [] e h = omega arith
length-chunk_rounds (suc n) size (b ∷ bs) e h = omega (
  arith,
  length-drop size (b ∷ bs),
  length-chunk_rounds n size (drop size (b ∷ bs)) e (omega (arith, length-drop size (b ∷ bs))),
)

-- The chunks of an update, one after the other, are the update, and they are as many as the header says.
concat-chunks : (update : List ℕ) → concat (chunks fragment_size update) ≡ update
unfolding chunks
concat-chunks update =
    concat-chunk_rounds (length update) fragment_size update (omega arith) (omega arith)

length-chunks :
    (update : List ℕ)
    → length (chunks fragment_size update) ≡ div_ceil (length update) fragment_size
unfolding chunks
length-chunks update =
    length-chunk_rounds (length update) fragment_size update refl (omega arith) ∙ omega arith

-- Chunks from an index on, as they arrive at one instant.
abbrev enumerate : ℕ → ℕ → List (List ℕ) → List Arrival
enumerate now i [] = []
enumerate now i (x ∷ xs) = record { at = now; index = i; bytes = x } ∷ enumerate now (i + 1) xs

length-enumerate : (now i : ℕ) (xs : List (List ℕ)) → length (enumerate now i xs) ≡ length xs
length-enumerate now i [] = refl
length-enumerate now i (x ∷ xs) = omega (arith, length-enumerate now (i + 1) xs)

enumerate_above :
    (now i j : ℕ) (xs : List (List ℕ)) → i < j → All (λ o. i ≢ o.index) (enumerate now j xs)
enumerate_above now i j [] h = tt
enumerate_above now i j (x ∷ xs) h =
    (λ e. omega arith, enumerate_above now i (j + 1) xs (omega arith))

enumerate-Distinct : (now i : ℕ) (xs : List (List ℕ)) → Distinct (enumerate now i xs)
enumerate-Distinct now i [] = tt
enumerate-Distinct now i (x ∷ xs) =
    (enumerate_above now i (i + 1) xs (omega arith), enumerate-Distinct now (i + 1) xs)

get_elem?-drop :
    (all : List (List ℕ)) (i : ℕ) (x : List ℕ) (xs : List (List ℕ))
    → drop i all ≡ x ∷ xs
    → get_elem? all i ≡ some x
get_elem?-drop [] zero x xs e = cc
get_elem?-drop [] (suc i) x xs e = cc
get_elem?-drop (y ∷ all) zero x xs e = cc
get_elem?-drop (y ∷ all) (suc i) x xs e = get_elem?-drop all i x xs e

enumerate-Belong :
    (all : List (List ℕ)) (now i : ℕ) (xs : List (List ℕ))
    → drop i all ≡ xs
    → Belong all (enumerate now i xs)
enumerate-Belong all now i [] e = tt
enumerate-Belong all now i (x ∷ xs) e = (
  get_elem?-drop all i x xs e,
  enumerate-Belong all now (i + 1) xs
      (sym (drop-drop i 1 all) ∙ ap (λ (l : List (List ℕ)). drop 1 l) e),
)

-- What is emitted to peers, as messages that come at one instant.
abbrev pub delivered : ℕ → List Emission → List (ℕ × ProtocolMessage)
delivered now [] = []
delivered now (to_peer peer m ∷ emitted) = (now, m) ∷ delivered now emitted
delivered now (respond channel b ∷ emitted) = delivered now emitted
delivered now (activated channel ∷ emitted) = delivered now emitted

delivered-send_fragments :
    (now peer : ℕ) (room batch : List ℕ) (i : ℕ) (xs : List (List ℕ))
    → i + length xs < u64_mod
    → delivered now (send_fragments peer room batch i xs)
      ≡ fragments_of room batch (enumerate now i xs)
unfolding send_fragments
delivered-send_fragments now peer room batch i [] h = refl
delivered-send_fragments now peer room batch i (x ∷ xs) h =
    rw (saturating_u64_fits i (omega arith))
      (rw (delivered-send_fragments now peer room batch (i + 1) xs (omega arith)))

-- The connection is in the room, and takes a batch if the update is large.
pub record Receives (config : ServerConfig) (room batch update : List ℕ) (c : Connection)
    : Type 0 where
  pub joined : contains c.joined room ≡ true
  pub admits :
      fragment_size < length update → Admits config (chunks fragment_size update) room batch c

module _ (config : ServerConfig) (room batch : List ℕ) (now : ℕ) (c : Connection) where
  -- The header and the chunks in order, for any list of fragments.
  in_order :
      (xs : List (List ℕ))
      → Admits config xs room batch c
      → Completed config xs room batch c (
          handle_all config
            ((now, doc_update_fragment_header loro room batch (length xs) (length (concat xs)))
              ∷ fragments_of room batch (enumerate now 0 xs))
            c)
  in_order [] h = absurd (omega (arith, h.some_fragments))
  in_order (x ∷ xs) h =
      handle_all_reassembles config (x ∷ xs) room batch now
        (record { at = now; index = 0; bytes = x }) (enumerate now 1 xs) c h
        (enumerate-Distinct now 0 (x ∷ xs)) (enumerate-Belong (x ∷ xs) now 0 (x ∷ xs) refl)
        (length-enumerate now 0 (x ∷ xs))

  small_update :
      (update : List ℕ)
      → contains c.joined room ≡ true
      → (handle_all config ((now, doc_update loro room (update ∷ []) batch) ∷ []) c).1
        ≡ room_update room batch (update ∷ []) ∷ []
  unfolding handle_all handle_message on_update
  small_update update joined = rw joined

module _ (config : ServerConfig) (counter peer : ℕ) (room update : List ℕ) (now : ℕ)
    (c : Connection) where
  -- What `send_update` emits, handled by a connection that is in the room and takes a batch of its
  -- chunks if the update is larger than a fragment: the only action is the call of the room's update
  -- with the update as it was.
  pub send_update_reassembles :
      Receives config room (server_batch_id counter) update c
      → (handle_all config (delivered now (send_update counter peer room update)) c).1
        ≡ room_update room (server_batch_id counter) (update ∷ []) ∷ []
  unfolding send_update
  send_update_reassembles h = elim (Bool-cases (leb (length update) fragment_size)) [
    | inl small ↦
        rw small (small_update config room (server_batch_id counter) now c update h.joined)
    | inr large ↦ rw large (sent (h.admits (above large)))
  ]
    where
      above : leb (length update) fragment_size ≡ false → fragment_size < length update
      above e = ground arith

      whole : length (concat (chunks fragment_size update)) ≡ length update
      whole = ap length (concat-chunks update)

      sent :
          Admits config (chunks fragment_size update) room (server_batch_id counter) c
          → (handle_all config
              ((
                now,
                doc_update_fragment_header loro room
                    (server_batch_id counter)
                    (saturating_u64 (div_ceil (length update) fragment_size))
                    (saturating_u64 (length update)),
              )
                ∷ delivered now (
                    send_fragments peer room
                      (server_batch_id counter)
                      0
                      (chunks fragment_size update)))
              c).1
            ≡ room_update room (server_batch_id counter) (update ∷ []) ∷ []
      sent a =
          rw
            (saturating_u64_fits (div_ceil (length update) fragment_size)
              (omega (arith, a.addressable, length-chunks update)))
            (rw (saturating_u64_fits (length update) (omega (arith, a.measurable, whole))) (
              rw
                (delivered-send_fragments now peer room (server_batch_id counter) 0
                  (chunks fragment_size update) (omega (arith, a.addressable)))
                (rw (← length-chunks update) (
                  rw (← whole) (
                    (in_order config room (server_batch_id counter) now c
                      (chunks fragment_size update) a).0
                    ∙ ap (λ (u : List ℕ). room_update room (server_batch_id counter) (u ∷ []) ∷ [])
                        (concat-chunks update))))))
