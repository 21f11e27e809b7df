-- ===== src/Names.antt =====
-- src/names.rs: generations and the names of a room's streams and producers, as lists of character
-- codes.
use quorum_loro_gateway.Prelude.{
  ℕ, zero, suc, ◌+◌, ◌/◌, ◌%◌, Option, List, [], ◌∷◌, ◌++◌, ltb, if◌then◌else◌,
}
use quorum_loro_gateway.Bytes.{checked_add, to_be, codes}
use quorum_loro_gateway.Hashes.{Hashes}

-- A `GenerationId` is its `u64`.
unfoldable pub checked_next : ℕ → Option ℕ
checked_next generation = checked_add generation 1

abbrev pub digit : ℕ → ℕ
digit d = if ltb d 10 then 48 + d else 87 + d

unfoldable pub hex : List ℕ → List ℕ
hex [] = []
hex (byte ∷ bytes) = digit (byte / 16) ∷ digit (byte % 16) ∷ hex bytes

-- Decimal digits; a `u64` has at most twenty.
decimal_digits : ℕ → ℕ → List ℕ
decimal_digits zero n = []
decimal_digits (suc fuel) n =
    let front = decimal_digits fuel (n / 10) in
    if ltb n 10 then digit n ∷ [] else front ++ digit (n % 10) ∷ []

unfoldable pub decimal : ℕ → List ℕ
unfolding decimal_digits
decimal n = decimal_digits 20 n

pub record StreamName : Type 0 where
  pub logical : List ℕ
  pub physical : List ℕ

module _ (h : Hashes) where
  unfoldable pub document_hash : List ℕ → List ℕ
  document_hash room_id = hex (h.sha256 room_id)

  unfoldable pub manifest_stream : List ℕ → StreamName
  manifest_stream room_id = record {
    logical = codes "room/" ++ (document_hash room_id ++ codes "/manifest");
    physical = codes "r-" ++ (document_hash room_id ++ codes "-m");
  }

  unfoldable pub delta_stream_for_generation : List ℕ → ℕ → StreamName
  delta_stream_for_generation room_id generation = record {
    logical = codes "room/" ++ (document_hash room_id ++ (codes "/delta/" ++ decimal generation));
    physical = codes "r-" ++ (document_hash room_id ++ (codes "-d" ++ decimal generation));
  }

  unfoldable pub delta_stream : List ℕ → StreamName
  delta_stream room_id = delta_stream_for_generation room_id 0

  unfoldable pub checkpoint_stream : List ℕ → ℕ → StreamName
  checkpoint_stream room_id generation = record {
    logical =
        codes "room/" ++ (document_hash room_id ++ (codes "/checkpoint/" ++ decimal generation));
    physical = codes "r-" ++ (document_hash room_id ++ (codes "-c" ++ decimal generation));
  }

  unfoldable pub producer_id_for_generation : List ℕ → List ℕ → ℕ → List ℕ
  producer_id_for_generation boot_id room_id generation =
      codes "qlg-"
      ++ hex (
          h.sha256 (
            codes "quorum-loro-producer-v1"
            ++ ((0 ∷ []) ++ (boot_id ++ (room_id ++ to_be 8 generation)))))

  unfoldable pub producer_id : List ℕ → List ℕ → List ℕ
  producer_id boot_id room_id = producer_id_for_generation boot_id room_id 0
