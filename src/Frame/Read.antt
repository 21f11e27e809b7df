-- ===== src/Frame/Read.antt =====
-- What the reading functions of src/frame.rs do where the bytes that they want stand at the cursor,
-- and what stands there where they succeed.
use quorum_loro_gateway.Prelude.{ℕ, ◌+◌, ◌≤◌, ◌<◌, ◌≡◌, List, length, All, ok}
use quorum_loro_gateway.Bytes.{IsByte, u16_mod, u32_mod, u64_mod, to_be}
use quorum_loro_gateway.Cursor.{
  Window, Window-read_be, Window-take_bytes_until, read_be-eq-ok, take_bytes_until-eq-ok,
}
use quorum_loro_gateway.Frame.{truncated}
use quorum_loro_gateway.Frame.Decode.{take, take_until, read_u16, read_u32, read_u64}

module _ (input : List ℕ) (small : length input < u64_mod) where
  pub Window-read_u16 :
      (cursor v next : ℕ)
      → v < u16_mod
      → Window input cursor (to_be 2 v) next
      → read_u16 input cursor ≡ ok (v, next)
  unfolding read_u16
  Window-read_u16 = Window-read_be truncated truncated input small 2

  pub Window-read_u32 :
      (cursor v next : ℕ)
      → v < u32_mod
      → Window input cursor (to_be 4 v) next
      → read_u32 input cursor ≡ ok (v, next)
  unfolding read_u32
  Window-read_u32 = Window-read_be truncated truncated input small 4

  pub Window-read_u64 :
      (cursor v next : ℕ)
      → v < u64_mod
      → Window input cursor (to_be 8 v) next
      → read_u64 input cursor ≡ ok (v, next)
  unfolding read_u64
  Window-read_u64 = Window-read_be truncated truncated input small 8

  pub Window-take_until :
      (cursor n limit : ℕ) (bytes : List ℕ) (next : ℕ)
      → length bytes ≡ n
      → next ≤ limit
      → Window input cursor bytes next
      → take_until input cursor n limit ≡ ok (bytes, next)
  unfolding take_until
  Window-take_until = Window-take_bytes_until truncated truncated input small

  pub Window-take :
      (cursor n : ℕ) (bytes : List ℕ) (next : ℕ)
      → length bytes ≡ n
      → Window input cursor bytes next
      → take input cursor n ≡ ok (bytes, next)
  unfolding take
  Window-take cursor n bytes next l w =
      Window-take_until cursor n (length input) bytes next l w.within w

module _ (input : List ℕ) (all : All IsByte input) where
  pub read_u16-eq-ok :
      (cursor : ℕ) {v next : ℕ}
      → read_u16 input cursor ≡ ok (v, next)
      → Window input cursor (to_be 2 v) next × (cursor + 2 ≡ next) × (v < u16_mod)
  unfolding read_u16
  read_u16-eq-ok cursor = read_be-eq-ok truncated truncated 2 input cursor all

  pub read_u32-eq-ok :
      (cursor : ℕ) {v next : ℕ}
      → read_u32 input cursor ≡ ok (v, next)
      → Window input cursor (to_be 4 v) next × (cursor + 4 ≡ next) × (v < u32_mod)
  unfolding read_u32
  read_u32-eq-ok cursor = read_be-eq-ok truncated truncated 4 input cursor all

  pub read_u64-eq-ok :
      (cursor : ℕ) {v next : ℕ}
      → read_u64 input cursor ≡ ok (v, next)
      → Window input cursor (to_be 8 v) next × (cursor + 8 ≡ next) × (v < u64_mod)
  unfolding read_u64
  read_u64-eq-ok cursor = read_be-eq-ok truncated truncated 8 input cursor all

pub take_until-eq-ok :
    (input : List ℕ) (cursor n limit : ℕ) {bytes : List ℕ} {next : ℕ}
    → take_until input cursor n limit ≡ ok (bytes, next)
    → Window input cursor bytes next × (cursor + n ≡ next) × (next ≤ limit)
unfolding take_until
take_until-eq-ok = take_bytes_until-eq-ok truncated truncated

pub take-eq-ok :
    (input : List ℕ) (cursor n : ℕ) {bytes : List ℕ} {next : ℕ}
    → take input cursor n ≡ ok (bytes, next)
    → Window input cursor bytes next × (cursor + n ≡ next)
unfolding take
take-eq-ok input cursor n e = let r = take_until-eq-ok input cursor n (length input) e in (r.0, r.1)
