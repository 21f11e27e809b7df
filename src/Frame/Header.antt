-- ===== src/Frame/Header.antt =====
-- Decoding a layout: the header, the trailer, the table of lengths and the updates.
use quorum_loro_gateway.Prelude.{
  ℕ, ◌+◌, ◌-◌, ◌≤◌, ◌<◌, ◌≡◌, refl, ap, List, [], ◌∷◌, ◌++◌, arith, length, length-append, All,
  append-nil, le→leb, ==_refl, bytes_eq_refl, ok,
}
use mathlib.Core.Path.{subst}
use quorum_loro_gateway.Bytes.{
  u32_mod, u64_mod, to_be, length-to_be, try_from_fits, checked_sub_fits, checked_add_fits,
}
use quorum_loro_gateway.Cursor.{Window, Window-split, Window_front, Window-get_range?}
use quorum_loro_gateway.Hashes.{Hashes}
use quorum_loro_gateway.Frame.{magic, version, FrameLimits, DeltaFrame, length_table, concat}
use quorum_loro_gateway.Frame.Layout.{
  IsFrame, Fits, layout, frame_len, lengths_of, total_bytes, enforce_limit_fits,
}
use quorum_loro_gateway.Frame.Decode.{decode_header, verify_trailer, read_lengths, take_updates}
use quorum_loro_gateway.Frame.Read.{
  Window-read_u16, Window-read_u32, Window-read_u64, Window-take_until,
}
use quorum_loro_gateway.Frame.Pieces.{body, length-layout, body_Window, header_Window}

pub ninety-le-frame_len : (f : DeltaFrame) → 90 ≤ frame_len f
unfolding frame_len
ninety-le-frame_len f = omega arith

module _ (h : Hashes) (f : DeltaFrame) (is : IsFrame h f) (limits : FrameLimits)
    (fits : Fits limits f) where
  pub decode_header-layout :
      (rest : List ℕ)
      → length (layout h f ++ rest) < u64_mod
      → decode_header (layout h f ++ rest) limits ≡ ok (layout h f, frame_len f, 16)
  unfolding decode_header
  decode_header-layout rest small =
      let n = frame_len f in
      let input = layout h f ++ rest in
      let big = ninety-le-frame_len f in
      let total : length input ≡ n + length rest =
        omega (arith, length-append (layout h f) rest, length-layout h f is) in
      let w = (header_Window h f is rest).0 in
      let p₁ =
        Window-split input 0 magic (to_be 2 version ++ (to_be 2 0 ++ to_be 8 n)) 4 16 refl w in
      let p₂ =
        Window-split input 4 (to_be 2 version) (to_be 2 0 ++ to_be 8 n) 6 16
          (omega (arith, length-to_be 2 version)) p₁.1 in
      let p₃ =
        Window-split input 6 (to_be 2 0) (to_be 8 n) 8 16 (omega (arith, length-to_be 2 0)) p₂.1 in
      rw (
        le→leb 60 (length input) (omega (arith, total)),
        Window-get_range? input 0 magic 4 p₁.0,
        Window-read_u16 input small 4 version 6 (omega arith) p₂.0,
        Window-read_u16 input small 6 0 8 (omega arith) p₃.0,
        Window-read_u64 input small 8 n 16 fits.frame_u64 p₃.1,
        try_from_fits u64_mod n fits.frame_u64,
        le→leb 60 n (omega arith),
        enforce_limit_fits "frame bytes" n limits.max_frame_bytes fits.frame_limit,
        le→leb n (length input) (omega (arith, total)),
        bytes_eq_refl magic,
        Window-get_range? input 0 (layout h f) n
            (Window_front (layout h f) rest n (length-layout h f is)),
      )

  pub length-layout_u64 : length (layout h f) < u64_mod
  length-layout_u64 = omega (arith, length-layout h f is, fits.frame_u64)

  pub verify_trailer-layout : verify_trailer h (layout h f) (frame_len f) ≡ ok (frame_len f - 12)
  unfolding verify_trailer
  verify_trailer-layout =
      let n = frame_len f in
      let input = layout h f in
      let crc = h.crc32 (body h f is) in
      let big = ninety-le-frame_len f in
      let w =
        subst
          (λ (i : List ℕ).
            Window i 0 (body h f is) (n - 12) × Window i (n - 12) (to_be 4 crc ++ to_be 8 n) n)
          (append-nil input) (body_Window h f is []) in
      let p =
        Window-split input (n - 12) (to_be 4 crc) (to_be 8 n) (n - 8) n
          (omega (arith, length-to_be 4 crc)) w.1 in
      rw (
        checked_sub_fits n 8 (omega arith),
        Window-read_u64 input length-layout_u64 (n - 8) n n fits.frame_u64 p.1,
        try_from_fits u64_mod n fits.frame_u64,
        ==_refl n,
        checked_sub_fits n 12 (omega arith),
        Window-read_u32 input length-layout_u64 (n - 12) crc (n - 8) (h.crc32_bound _) p.0,
        Window-get_range? input 0 (body h f is) (n - 12) w.0,
        ==_refl crc,
      )

module _ (limits : FrameLimits) (input : List ℕ) (small : length input < u64_mod) where
  pub read_lengths-table :
      (us : List (List ℕ)) (cursor next sum : ℕ)
      → Window input cursor (length_table (lengths_of us)) next
      → All (λ u. length u < u32_mod) us
      → All (λ u. length u ≤ limits.max_update_bytes) us
      → sum + total_bytes us ≤ limits.max_updates_bytes
      → sum + total_bytes us < u64_mod
      → read_lengths limits input (length us) cursor sum
        ≡ ok (lengths_of us, sum + total_bytes us, next)
  unfolding read_lengths
  read_lengths-table [] cursor next sum w wide fit limit total = ground (arith, w.next_eq)
  read_lengths-table (u ∷ us) cursor next sum w wide fit limit total =
      let p =
        Window-split input cursor (to_be 4 (length u)) (length_table (lengths_of us)) (cursor + 4)
          next (omega (arith, length-to_be 4 (length u))) w in
      rw
        (
          Window-read_u32 input small cursor (length u) (cursor + 4) wide.0 p.0,
          try_from_fits u64_mod (length u) (omega arith),
          enforce_limit_fits "individual update bytes" (length u) limits.max_update_bytes fit.0,
          checked_add_fits sum (length u) (omega arith),
          enforce_limit_fits "aggregate update bytes" (sum + length u) limits.max_updates_bytes
              (omega arith),
          read_lengths-table us (cursor + 4) next (sum + length u) p.1 wide.1 fit.1 (omega arith)
              (omega arith),
        )
        (ap (λ (t : ℕ). ok (length u ∷ lengths_of us, t, next)) (omega arith))

  pub take_updates-concat :
      (us : List (List ℕ)) (cursor next limit : ℕ)
      → Window input cursor (concat us) next
      → next ≤ limit
      → take_updates input limit (lengths_of us) cursor ≡ ok (us, next)
  unfolding take_updates
  take_updates-concat [] cursor next limit w low =
      ap (λ (t : ℕ). ok ([], t)) (omega (arith, w.next_eq))
  take_updates-concat (u ∷ us) cursor next limit w low =
      let p = Window-split input cursor u (concat us) (cursor + length u) next refl w in
      rw (
        Window-take_until input small cursor (length u) limit u (cursor + length u) refl
            (omega (arith, p.1.next_eq)) p.0,
        take_updates-concat us (cursor + length u) next limit p.1 low,
      )
