-- ===== src/Hashes.antt =====
-- What the code takes from the crates `sha2` and `crc32fast`: SHA-256 of a byte string, which is 32
-- bytes, and its CRC-32, which is a `u32`. Nothing else is assumed of either.
use quorum_loro_gateway.Prelude.{ℕ, ◌<◌, ◌≡◌, ◌%◌, List, arith, length, All}
use quorum_loro_gateway.Bytes.{IsByte, u32_mod, to_be, from_be, length-to_be, to_be-IsByte}

pub record Hashes : Type 0 where
  pub sha256 : List ℕ → List ℕ
  pub crc32 : List ℕ → ℕ
  pub length-sha256 : (bytes : List ℕ) → length (sha256 bytes) ≡ 32
  pub sha256-IsByte : (bytes : List ℕ) → All IsByte (sha256 bytes)
  pub crc32_bound : (bytes : List ℕ) → crc32 bytes < u32_mod

remainder_bound : (n : ℕ) → n % u32_mod < u32_mod
remainder_bound n = omega arith

-- Two functions of that shape, on which definitions are run.
unfoldable pub toy_sha256 : List ℕ → List ℕ
toy_sha256 bytes = to_be 32 (from_be bytes)

unfoldable pub toy_crc32 : List ℕ → ℕ
toy_crc32 bytes = from_be bytes % u32_mod

pub toy_length : (bytes : List ℕ) → length (toy_sha256 bytes) ≡ 32
unfolding toy_sha256
toy_length bytes = length-to_be 32 (from_be bytes)

pub toy_bytes : (bytes : List ℕ) → All IsByte (toy_sha256 bytes)
unfolding toy_sha256
toy_bytes bytes = to_be-IsByte 32 (from_be bytes)

pub toy_bound : (bytes : List ℕ) → toy_crc32 bytes < u32_mod
unfolding toy_crc32
toy_bound bytes = remainder_bound (from_be bytes)

abbrev pub toy_hashes : Hashes
toy_hashes = record {
  sha256 = toy_sha256;
  crc32 = toy_crc32;
  length-sha256 = toy_length;
  sha256-IsByte = toy_bytes;
  crc32_bound = toy_bound;
}
