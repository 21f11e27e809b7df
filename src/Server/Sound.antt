-- ===== src/Server/Sound.antt =====
-- What the handlers keep of a connection's fragment batches.
use quorum_loro_gateway.Prelude.{
  ℕ, ◌+◌, ◌≤◌, ◌<◌, ◌≡◌, ◌∙◌, refl, sym, inl, inr, true, Bool-cases, not, ◌||◌, Option, none, some,
  Option-cases, List, ltb, ◌==◌, arith, All, bytes_eq, length,
}
use quorum_loro_gateway.Bytes.{
  u64_mod, checked_add, checked_add-eq-some, try_from, try_from-eq-some, saturating_u64,
  saturating_u64_fits,
}
use quorum_loro_gateway.LoroProtocol.{CrdtType}
use quorum_loro_gateway.Server.{
  ServerConfig, FragmentKey, FragmentBatch, Connection, Batches, is_loro, contains, find, remove,
  drop_batch, join_chunks, finish_batch, store_batch, fill_slot, on_slot, on_known_batch,
  on_fragment,
}
use quorum_loro_gateway.Server.Slots.{
  get_elem?, set, length-set, filled, held, filled-set, held-set,
}
use quorum_loro_gateway.Server.Fragments.{
  Part, total_sizes, length-Part, total_sizes-Part, All-Part, remove-Part, All-find, All-replace,
  All-replace_keys, length-replace, total_sizes-replace,
}

-- A batch within the limits, whose counters are those of its slots, and which is not complete.
pub record IsSoundBatch (config : ServerConfig) (b : FragmentBatch) : Type 0 where
  pub some_bytes : 0 < b.total_size
  pub few_bytes : b.total_size ≤ config.max_reassembled_bytes
  pub few_slots : length b.chunks ≤ config.max_fragments_per_batch
  pub addressable : length b.chunks < u64_mod
  pub counted : b.received ≡ filled b.chunks
  pub measured : b.received_bytes ≡ held b.chunks
  pub within : b.received_bytes ≤ b.total_size
  pub incomplete : b.received < length b.chunks

pub record Sound (config : ServerConfig) (c : Connection) : Type 0 where
  pub batches : All (λ e. IsSoundBatch config e.1) c.fragments
  pub rooms : All (λ e. contains c.joined e.0.room_id ≡ true) c.fragments
  pub few_batches : length c.fragments ≤ config.max_fragment_batches
  pub budget : total_sizes c.fragments ≤ config.max_fragment_bytes_per_connection

module _ (config : ServerConfig) where
  pub Sound-Part :
      {c : Connection} (m : Batches)
      → Sound config c
      → Part m c.fragments
      → Sound config (record c { fragments = m })
  Sound-Part {c} m s p = record {
    batches = All-Part (λ e. IsSoundBatch config e.1) p s.batches;
    rooms = All-Part (λ e. contains c.joined e.0.room_id ≡ true) p s.rooms;
    few_batches = omega (arith, length-Part p, s.few_batches);
    budget = omega (arith, total_sizes-Part p, s.budget);
  }

  pub drop_batch-Sound :
      (c : Connection) (key : FragmentKey) → Sound config c → Sound config (drop_batch c key)
  drop_batch-Sound c key s = Sound-Part (remove c.fragments key) s (remove-Part c.fragments key)

  module _ (c : Connection) (crdt : CrdtType) (key : FragmentKey) (s : Sound config c) where
    finish_batch-Sound : (batch : FragmentBatch) → Sound config (finish_batch c crdt key batch).0
    unfolding finish_batch
    finish_batch-Sound batch = elim (Option-cases (join_chunks batch.chunks)) [
      | inl missing ↦ rw (missing, finish_batch) (drop_batch-Sound c key s)
      | inr (update, e) ↦
          rw (e, finish_batch)
            elim (Bool-cases (length update == batch.total_size)) [
              | inl exact ↦ rw exact (drop_batch-Sound c key s)
              | inr short ↦ rw short (drop_batch-Sound c key s)
            ]
    ]

    -- What is written back is a sound batch but for being complete.
    store_batch-Sound :
        (old batch : FragmentBatch)
        → find c.fragments key ≡ some old
        → batch.total_size ≡ old.total_size
        → (batch.received < length batch.chunks → IsSoundBatch config batch)
        → batch.received ≤ length batch.chunks
        → Sound config (store_batch c crdt key batch).0
    unfolding store_batch
    store_batch-Sound old batch found size sound le =
        elim (Bool-cases (batch.received == length batch.chunks)) [
          | inl full ↦ rw full (finish_batch-Sound batch)
          | inr more ↦ rw more (record {
            batches =
                All-replace key batch (λ b. IsSoundBatch config b) c.fragments
                  (sound (ground arith)) s.batches;
            rooms =
                All-replace_keys key batch (λ k. contains c.joined k.room_id ≡ true) c.fragments
                  s.rooms;
            few_batches = omega (arith, length-replace key batch c.fragments, s.few_batches);
            budget =
                omega (arith, total_sizes-replace key batch c.fragments old found size, s.budget);
          })
        ]

    module _ (batch : FragmentBatch) (found : find c.fragments key ≡ some batch) where
      sound_batch : IsSoundBatch config batch
      sound_batch = All-find (λ b. IsSoundBatch config b) c.fragments key batch found s.batches

      fill_slot-Sound :
          (index : ℕ) (fragment : List ℕ)
          → get_elem? batch.chunks index ≡ some none
          → Sound config (fill_slot c crdt key batch index fragment (length fragment)).0
      unfolding fill_slot
      fill_slot-Sound index fragment empty =
          elim (Option-cases (checked_add batch.received_bytes (length fragment))) [
            | inl over ↦ rw (over, fill_slot) (drop_batch-Sound c key s)
            | inr (sum, added) ↦
                rw (added, fill_slot)
                  elim (Bool-cases (ltb batch.total_size sum)) [
                    | inl large ↦ rw large (drop_batch-Sound c key s)
                    | inr small ↦ rw small (
                        store_batch-Sound batch _ found refl
                          (λ more. record {
                            some_bytes = sound_batch.some_bytes;
                            few_bytes = sound_batch.few_bytes;
                            few_slots = omega (arith, sound_batch.few_slots, same_length);
                            addressable = omega (arith, sound_batch.addressable, same_length);
                            counted = one_more ∙ sym (filled-set batch.chunks index fragment empty);
                            measured = omega (
                              arith,
                              sound_batch.measured,
                              held-set batch.chunks index fragment empty,
                              checked_add-eq-some batch.received_bytes (length fragment) added,
                            );
                            within = ground arith;
                            incomplete = more;
                          })
                          (omega (
                            arith, one_more, same_length, sound_batch.incomplete,
                            sound_batch.counted,
                          )))
                  ]
          ]
        where
          same_length : length (set batch.chunks index (some fragment)) ≡ length batch.chunks
          same_length = length-set batch.chunks index (some fragment)

          one_more : saturating_u64 (batch.received + 1) ≡ filled batch.chunks + 1
          one_more =
              saturating_u64_fits _ (omega (arith, sound_batch.addressable, sound_batch.incomplete))
              ∙ omega (arith, sound_batch.counted)

      on_slot-Sound :
          (index : ℕ) (fragment : List ℕ) (slot : Option (List ℕ))
          → get_elem? batch.chunks index ≡ some slot
          → Sound config (on_slot c crdt key batch index fragment (length fragment) slot).0
      unfolding on_slot
      on_slot-Sound index fragment none empty = fill_slot-Sound index fragment empty
      on_slot-Sound index fragment (some old) full = elim (Bool-cases (bytes_eq old fragment)) [
        | inl same ↦ rw same s
        | inr changed ↦ rw changed (drop_batch-Sound c key s)
      ]

      on_known_batch-Sound :
          (index : ℕ) (fragment : List ℕ)
          → Sound config (on_known_batch c crdt key batch index fragment).0
      unfolding on_known_batch
      on_known_batch-Sound index fragment = elim (Option-cases (get_elem? batch.chunks index)) [
        | inl outside ↦ rw (outside, on_known_batch) s
        | inr (slot, e) ↦
            rw (e, on_known_batch)
              elim (Option-cases (try_from u64_mod (length fragment))) [
                | inl over ↦ rw over (drop_batch-Sound c key s)
                | inr (len, fits) ↦ rw fits (
                    rw (← (try_from-eq-some u64_mod (length fragment) fits).0)
                      (on_slot-Sound index fragment slot e))
              ]
      ]

    pub on_fragment-Sound :
        (index : ℕ) (fragment : List ℕ) → Sound config (on_fragment c crdt key index fragment).0
    unfolding on_fragment
    on_fragment-Sound index fragment =
        elim (Bool-cases (not (is_loro crdt) || not (contains c.joined key.room_id))) [
          | inl denied ↦ rw denied s
          | inr joined ↦ rw joined elim (Option-cases (find c.fragments key)) [
            | inl unknown ↦ rw unknown s
            | inr (batch, found) ↦ rw found (on_known_batch-Sound batch found index fragment)
          ]
        ]
