-- ===== src/Manifest/Examples.antt =====
-- Runs of src/manifest.rs on a manifest of two records, under the toy hashes.
use quorum_loro_gateway.Prelude.{
  ℕ, ◌<◌, ◌≡◌, ◌↔◌, refl, List, [], ◌∷◌, ◌++◌, arith, bytes_eq, length, length-append, ok, All,
}
use quorum_loro_gateway.Bytes.{u64_mod, try_from, checked_add, to_be, from_be, saturating_u64}
use quorum_loro_gateway.Hashes.{toy_hashes, toy_sha256, toy_length}
use quorum_loro_gateway.Manifest as Manifest
use quorum_loro_gateway.Manifest.{
  genesis_digest, default_limits, ManifestRecord, ManifestError, manifest_digest, with_digest,
  room_hash, checkpoint_record_digest, encode_with_limits,
}
use quorum_loro_gateway.Manifest.Decode.{decode_one}
use quorum_loro_gateway.Manifest.Chain.{
  validate_manifest_chain, check_first, check_links, check_link, Chain,
}
use quorum_loro_gateway.Manifest.Pieces.{IsRecord, layout, length-layout}
use quorum_loro_gateway.Manifest.RoundTrip.{decode_record-encode}
use quorum_loro_gateway.Manifest.ChainLaws.{validate_iff, fresh_generation}

abbrev room : List ℕ
room = 100 ∷ 49 ∷ []

abbrev first : ManifestRecord
first = with_digest toy_hashes (record {
  room_hash = room_hash toy_hashes room;
  revision = 0;
  previous_record_digest = genesis_digest;
  checkpoint_generation = 0;
  checkpoint_stream_end_offset = 140;
  checkpoint_record_digest = checkpoint_record_digest toy_hashes (1 ∷ []);
  active_delta_generation = 1;
  digest = [];
})

abbrev second : ManifestRecord
second = with_digest toy_hashes (record {
  room_hash = room_hash toy_hashes room;
  revision = 1;
  previous_record_digest = manifest_digest toy_hashes first;
  checkpoint_generation = 1;
  checkpoint_stream_end_offset = 150;
  checkpoint_record_digest = checkpoint_record_digest toy_hashes (2 ∷ []);
  active_delta_generation = 2;
  digest = [];
})

first-IsRecord : IsRecord first
unfolding with_digest room_hash checkpoint_record_digest manifest_digest
first-IsRecord = record {
  room_len = toy_length room;
  revision_u64 = omega arith;
  previous_len = refl;
  checkpoint_u64 = omega arith;
  end_u64 = omega arith;
  checkpoint_len = toy_length _;
  active_u64 = omega arith;
  digest_len = toy_length _;
}

first_encoded : encode_with_limits toy_hashes first default_limits ≡ ok (layout toy_hashes first)
unfolding encode_with_limits Manifest.enforce_limit Manifest.validate_record_fields
    Manifest.validate_previous_digest with_digest bytes_eq Manifest.validate_generation_pair
    checked_add try_from manifest_digest toy_sha256 to_be from_be room_hash checkpoint_record_digest
    saturating_u64 layout Manifest.seal
first_encoded = refl

both_valid : validate_manifest_chain toy_hashes room (first ∷ second ∷ []) ≡ ok second
unfolding validate_manifest_chain check_first Manifest.belongs_to_room bytes_eq with_digest
    room_hash toy_sha256 to_be from_be check_links check_link checked_add manifest_digest
    checkpoint_record_digest saturating_u64
both_valid = refl

first_valid : validate_manifest_chain toy_hashes room (first ∷ []) ≡ ok first
unfolding validate_manifest_chain check_first Manifest.belongs_to_room bytes_eq with_digest
    room_hash toy_sha256 to_be from_be check_links
first_valid = refl

small :
    (bytes : List ℕ) → length bytes ≡ Manifest.fixed_record_bytes → length (bytes ++ []) < u64_mod
small bytes e = omega (arith, e, length-append bytes [])

decode_record-encode_example :
    decode_one toy_hashes (layout toy_hashes first ++ []) default_limits
    ≡ ok (first, length (layout toy_hashes first))
decode_record-encode_example =
    decode_record-encode toy_hashes default_limits first (layout toy_hashes first) [] first-IsRecord
      first_encoded
      (small (layout toy_hashes first) (length-layout first first-IsRecord toy_hashes))

validate_iff_example :
    (validate_manifest_chain toy_hashes room (first ∷ second ∷ []) ≡ ok second)
    ↔ Chain toy_hashes room (first ∷ second ∷ []) second
validate_iff_example = validate_iff toy_hashes room (first ∷ second ∷ []) second

fresh_generation_example :
    All (λ q. q.active_delta_generation < second.active_delta_generation) (first ∷ [])
fresh_generation_example =
    fresh_generation toy_hashes room (first ∷ []) first second first_valid both_valid
