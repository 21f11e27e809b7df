-- ===== src/Loro.antt =====
-- What the code calls of the crate `loro`: the document, as operations that a caller supplies. An
-- import returns whether changes stay pending, and the document after it.
use quorum_loro_gateway.Prelude.{ℕ, Bool, String, List, Result}

pub record Loro (Doc : Type 0) : Type 0 where
  pub export_snapshot : Doc → Result String (List ℕ)
  pub from_snapshot : List ℕ → Result String Doc
  pub import : Doc → List ℕ → Result String (Bool × Doc)
  pub import_batch : Doc → List (List ℕ) → Result String Doc
  -- equality of `get_deep_value` and of `oplog_vv`
  pub same_deep_value : Doc → Doc → Bool
  pub same_oplog_vv : Doc → Doc → Bool

-- `EncodedBlobMode`
pub data BlobMode : Type 0 where
  snapshot updates shallow_snapshot outdated_snapshot outdated_rle : BlobMode

-- What a room calls besides: the empty document, the mode that `decode_import_blob_meta` reads, and
-- the versions. `oplog_vv` is the encoded one.
pub record LoroRoom (Doc Version : Type 0) : Type 0 where
  pub loro : Loro Doc
  pub empty : Doc
  pub blob_mode : List ℕ → Result String BlobMode
  pub decode_version : List ℕ → Result String Version
  pub oplog_vv : Doc → List ℕ
  pub len_ops : Doc → ℕ
  pub export_updates : Doc → Version → Result String (List ℕ)
