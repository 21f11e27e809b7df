-- ===== src/Server/Admitted.antt =====
-- The header of a fragmented update: the batch that it opens is sound.
use quorum_loro_gateway.Prelude.{
  ℕ, ◌+◌, ◌≤◌, ◌<◌, ◌≡◌, sym, inl, inr, true, false, Bool-cases, not, ◌&&◌, ◌||◌, Option, none,
  Option-cases, List, ◌∷◌, ltb, leb, ◌==◌, arith, length, replicate,
}
use quorum_loro_gateway.Bytes.{
  u64_mod, checked_add, checked_add-eq-some, try_from, try_from-eq-some,
}
use quorum_loro_gateway.LoroProtocol.{CrdtType}
use quorum_loro_gateway.Server.{
  ServerConfig, FragmentKey, FragmentBatch, Connection, is_loro, contains, find, reserved_bytes,
  over_budget, insert_batch, repeat_header, on_header,
}
use quorum_loro_gateway.Server.Slots.{filled-replicate, held-replicate, length-replicate}
use quorum_loro_gateway.Server.Fragments.{total_sizes, reserved_bytes-eq-some}
use quorum_loro_gateway.Server.Sound.{Sound, drop_batch-Sound}

module _ (config : ServerConfig) (c : Connection) (crdt : CrdtType) (key : FragmentKey)
    (s : Sound config c) where
  repeat_header-Sound :
      (existing : FragmentBatch) (count total : ℕ)
      → Sound config (repeat_header c crdt key existing count total).0
  unfolding repeat_header
  repeat_header-Sound existing count total =
      elim (Bool-cases ((existing.total_size == total) && (length existing.chunks == count))) [
        | inl same ↦ rw same s
        | inr changed ↦ rw changed (drop_batch-Sound config c key s)
      ]

  over_budget_fits :
      (total : ℕ)
      → over_budget config c.fragments total ≡ false
      → total_sizes c.fragments + total ≤ config.max_fragment_bytes_per_connection
  unfolding over_budget
  over_budget_fits total e = elim (Option-cases (reserved_bytes 0 c.fragments)) [
    | inl over ↦ cc (rw (over, over_budget) at e)
    | inr (sum, e₁) ↦ elim (Option-cases (checked_add sum total)) [
      | inl over ↦ cc (rw (over, over_budget) at (rw (e₁, over_budget) at e))
      | inr (all, e₂) ↦
          let small : ltb config.max_fragment_bytes_per_connection all ≡ false =
            rw (e₂, over_budget) at (rw (e₁, over_budget) at e) in
          let le : all ≤ config.max_fragment_bytes_per_connection = ground arith in
          omega
            (arith, reserved_bytes-eq-some c.fragments 0 e₁, checked_add-eq-some sum total e₂, le)
    ]
  ]

  insert_batch-Sound :
      (now count total : ℕ)
      → contains c.joined key.room_id ≡ true
      → 0 < count
      → count ≤ config.max_fragments_per_batch
      → 0 < total
      → total ≤ config.max_reassembled_bytes
      → Sound config (insert_batch config now c crdt key count total).0
  unfolding insert_batch
  insert_batch-Sound now count total joined h₁ h₂ h₃ h₄ =
      elim (Bool-cases (leb config.max_fragment_batches (length c.fragments))) [
        | inl many ↦ rw many s
        | inr few ↦ rw few elim (Bool-cases (over_budget config c.fragments total)) [
          | inl over ↦ rw over s
          | inr fits ↦ rw fits elim (Option-cases (try_from u64_mod count)) [
            | inl large ↦ rw large s
            | inr (n, e) ↦ rw e (
                inserted n (try_from-eq-some u64_mod count e) (ground arith)
                  (over_budget_fits total fits))
          ]
        ]
      ]
    where
      inserted :
          (n : ℕ)
          → (count ≡ n) × (n < u64_mod)
          → length c.fragments < config.max_fragment_batches
          → total_sizes c.fragments + total ≤ config.max_fragment_bytes_per_connection
          → Sound config (record c {
            fragments =
                (
                  key,
                  record {
                    total_size = total;
                    chunks = replicate n none;
                    received = 0;
                    received_bytes = 0;
                    deadline = now + config.fragment_timeout_after;
                  },
                )
                ∷ c.fragments;
          })
      inserted n fits few room = record {
        batches = (
          record {
            some_bytes = h₃;
            few_bytes = h₄;
            few_slots = omega (arith, fits, h₂, length-replicate {A = Option (List ℕ)} n none);
            addressable = omega (arith, fits, length-replicate {A = Option (List ℕ)} n none);
            counted = sym (filled-replicate n);
            measured = sym (held-replicate n);
            within = omega arith;
            incomplete = omega (arith, fits, h₁, length-replicate {A = Option (List ℕ)} n none);
          },
          s.batches,
        );
        rooms = (joined, s.rooms);
        few_batches = omega (arith, few);
        budget = omega (arith, room);
      }

  pub on_header-Sound :
      (now count total : ℕ) → Sound config (on_header config now c crdt key count total).0
  unfolding on_header
  on_header-Sound now count total =
      elim (Bool-cases (not (is_loro crdt) || not (contains c.joined key.room_id))) [
        | inl denied ↦ rw denied s
        | inr joined ↦
            rw joined
              elim (Bool-cases (
                ((count == 0) || ltb config.max_fragments_per_batch count)
                || ((total == 0) || ltb config.max_reassembled_bytes total))) [
                  | inl outside ↦ rw outside s
                  | inr inside ↦ rw inside elim (Option-cases (find c.fragments key)) [
                    | inl fresh ↦ rw fresh (
                        insert_batch-Sound now count total (ground arith) (ground arith)
                          (ground arith) (ground arith) (ground arith))
                    | inr (batch, found) ↦ rw found (repeat_header-Sound batch count total)
                  ]
                ]
      ]
