-- ===== src/Actor/Samples.antt =====
-- What runs of src/actor.rs are given: the store in memory, the toy hashes and a document that is the
-- bytes of its updates.
use quorum_loro_gateway.Prelude.{ℕ, false, List, [], ◌∷◌, ◌++◌, bytes_eq, length, ok}
use quorum_loro_gateway.Hashes.{toy_hashes}
use quorum_loro_gateway.Frame as Frame
use quorum_loro_gateway.Loro.{LoroRoom, BlobMode}
use quorum_loro_gateway.Store.Memory.{Memory, memory_store}
use quorum_loro_gateway.Actor.{ready, Texts, Services, RoomActor, new}

abbrev pub document : LoroRoom (List ℕ) (List ℕ)
document = record {
  loro = record {
    export_snapshot = λ doc. ok doc;
    from_snapshot = λ bytes. ok bytes;
    import = λ doc bytes. ok (false, doc ++ bytes);
    import_batch = λ doc updates. ok (doc ++ Frame.concat updates);
    same_deep_value = λ a b. bytes_eq a b;
    same_oplog_vv = λ a b. bytes_eq a b;
  };
  empty = [];
  blob_mode = λ bytes. ok BlobMode.updates;
  decode_version = λ bytes. ok bytes;
  oplog_vv = λ doc. doc;
  len_ops = λ doc. length doc;
  export_updates = λ doc version. ok doc;
}

abbrev pub texts : Texts
texts = record {
  store_text = λ e. "store";
  frame_text = λ e. "frame";
  recovery_text = λ e. "recovery";
  rotation_text = λ e. "rotation";
  length_mismatch = λ a b. "length";
  retry_rejected = λ kind m. m;
}

abbrev pub services : ℕ → Services (List ℕ) (List ℕ) Memory
services retries = record {
  hashes = toy_hashes;
  texts = texts;
  room = document;
  store = memory_store;
  config = record {
    command_capacity = 1;
    ambiguous_retries = retries;
    retry_delay = 25;
    frame_limits = Frame.default_limits;
  };
}

abbrev pub room : List ℕ
room = 100 ∷ 49 ∷ []

-- A room that is ready, with two peers and nothing in its stream.
abbrev pub open_room : RoomActor (List ℕ)
open_room = record (new toy_hashes [] room (7 ∷ [])) {
  stream = 108 ∷ [];
  producer_id = 112 ∷ [];
  peers = (1, 11) ∷ (2, 12) ∷ [];
  lifecycle = ready;
}

-- One acknowledgement is going to be lost.
abbrev pub lossy : Memory
lossy = record { bytes = []; next_sequence = 0; last_end = 0; lost = 1 }
