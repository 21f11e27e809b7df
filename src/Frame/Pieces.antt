-- ===== src/Frame/Pieces.antt =====
-- Where the header, the fields, the checksum and the length stand in the layout of a frame.
use quorum_loro_gateway.Prelude.{
  ℕ, ◌+◌, ◌-◌, ◌*◌, ◌≡◌, refl, List, [], ◌∷◌, ◌++◌, arith, length, length-append,
}
use quorum_loro_gateway.Bytes.{to_be, length-to_be}
use quorum_loro_gateway.Cursor.{Window, Window-split, Window_front}
use quorum_loro_gateway.Hashes.{Hashes}
use quorum_loro_gateway.Frame.{
  version, DeltaFrame, length_table, concat, frame_header, update_digest,
}
use quorum_loro_gateway.Frame.Layout.{
  IsFrame, layout, layout_fields, frame_len, total_bytes, length-lengths_of,
}

pub length-length_table : (ns : List ℕ) → length (length_table ns) ≡ 4 * length ns
length-length_table [] = omega arith
length-length_table (n ∷ ns) =
    omega
      (arith, length-append (to_be 4 n) (length_table ns), length-to_be 4 n, length-length_table ns)

pub length-concat : (us : List (List ℕ)) → length (concat us) ≡ total_bytes us
length-concat [] = refl
length-concat (u ∷ us) = omega (arith, length-append u (concat us), length-concat us)

pub length-update_digest : (h : Hashes) (us : List (List ℕ)) → length (update_digest h us) ≡ 32
unfolding update_digest
length-update_digest h us = h.length-sha256 _

pub length-frame_header : (n : ℕ) → length (frame_header n) ≡ 16
length-frame_header n = omega (
  arith,
  length-append (to_be 2 version) (to_be 2 0 ++ to_be 8 n),
  length-append (to_be 2 0) (to_be 8 n),
  length-to_be 2 version,
  length-to_be 2 0,
  length-to_be 8 n,
)

module _ (h : Hashes) (f : DeltaFrame) (is : IsFrame h f) where
  pub length-digest : length f.digest ≡ 32
  length-digest = rw is.digest_eq (length-update_digest h f.updates)

  pub length-layout_fields : 28 + length (layout_fields f) ≡ frame_len f
  unfolding layout_fields frame_len
  length-layout_fields =
      simp (length-append, length-to_be, length-length_table, length-lengths_of, length-concat)
        (omega (arith, length-digest, is.batch_id_len))

  unfoldable pub body : List ℕ
  body = frame_header (frame_len f) ++ layout_fields f

  pub length-body : length body ≡ frame_len f - 12
  unfolding body
  length-body = omega (
    arith,
    length-append (frame_header (frame_len f)) (layout_fields f),
    length-frame_header (frame_len f),
    length-layout_fields,
  )

  pub length-layout : length (layout h f) ≡ frame_len f
  unfolding layout body
  length-layout = omega (
    arith,
    length-append body (to_be 4 (h.crc32 body) ++ to_be 8 (frame_len f)),
    length-append (to_be 4 (h.crc32 body)) (to_be 8 (frame_len f)),
    length-to_be 4 (h.crc32 body),
    length-to_be 8 (frame_len f),
    length-body,
    length-layout_fields,
  )

  -- The pieces of the layout, wherever it stands at the front.
  module _ (rest : List ℕ) where
    pub body_Window :
        Window (layout h f ++ rest) 0 body (frame_len f - 12)
        × Window
            (layout h f ++ rest)
            (frame_len f - 12)
            (to_be 4 (h.crc32 body) ++ to_be 8 (frame_len f))
            (frame_len f)
    unfolding layout body
    body_Window =
        Window-split (layout h f ++ rest) 0 body (to_be 4 (h.crc32 body) ++ to_be 8 (frame_len f))
          (frame_len f - 12) (frame_len f) (omega (arith, length-body))
          (Window_front (layout h f) rest (frame_len f) length-layout)

    pub header_Window :
        Window (layout h f ++ rest) 0 (frame_header (frame_len f)) 16
        × Window (layout h f ++ rest) 16 (layout_fields f) (frame_len f - 12)
    unfolding body
    header_Window =
        Window-split (layout h f ++ rest) 0 (frame_header (frame_len f)) (layout_fields f) 16
          (frame_len f - 12) (omega (arith, length-frame_header (frame_len f))) body_Window.0
