-- ===== src/Rotation/Linked.antt =====
-- src/rotation.rs: what a rotation that succeeds returns is what src/recovery.rs accepts.
use quorum_loro_gateway.Prelude.{
  ℕ, ◌≡◌, refl, sym, ap, ◌∙◌, true, ◌&&◌, some, List, eq→==, bytes_eq_refl, not, arith, length,
  Result, ok, err, map_err, ok_or, ok_or-eq-ok, ok-injective, >>=-eq-ok, >>-eq-ok,
}
use mathlib.Core.Path.{subst}
use quorum_loro_gateway.Bytes.{
  u64_mod, try_from, try_from-eq-some, saturating_u64_fits, checked_add-eq-some,
}
use quorum_loro_gateway.Hashes.{Hashes}
use quorum_loro_gateway.Loro.{Loro}
use quorum_loro_gateway.Manifest as Manifest
use quorum_loro_gateway.Manifest.{
  ManifestRecord, ManifestError, verifies_checkpoint_bytes, with_digest,
}
use quorum_loro_gateway.Checkpoint as Checkpoint
use quorum_loro_gateway.Checkpoint.{CheckpointRecord, CheckpointError, belongs_to_room}
use quorum_loro_gateway.Checkpoint.Build.{
  snapshot_export, snapshot_restore, build_checkpoint_record, pending_of, import_pending,
}
use quorum_loro_gateway.CheckpointStore.{persist_checkpoint}
use quorum_loro_gateway.ManifestStore.{publish_manifest_record}
use quorum_loro_gateway.Names.{checked_next, delta_stream_for_generation}
use quorum_loro_gateway.Store.{UrsulaStore, call}
use quorum_loro_gateway.Store.Laws.{continue-eq-ok, continue_pure-eq-ok}
use quorum_loro_gateway.Recovery.{validate_checkpoint_link}
use quorum_loro_gateway.Recovery.Link.{Linked, Linked-accepted}
use quorum_loro_gateway.Rotation.{
  RotationError, checkpoint_build, checkpoint_encode, checkpoint_write, manifest_write,
  generation_overflow, RotationResult, next_manifest_position, open_next_delta, publish_next,
  rotate_room,
}

map_err-eq-ok :
    {E F A : Type 0} (r : Result E A) (f : E → F) {a : A} → map_err r f ≡ ok a → r ≡ ok a
map_err-eq-ok (ok a) f h = cc
map_err-eq-ok (err e) f h = cc

result_of :
    {E A S : Type 0} (a b : A) (s t : S) → ◌≡◌ {A = Result E A × S} (ok a, s) (ok b, t) → a ≡ b
result_of a b s t e = cc

-- The record that a build returns is a new one, with a snapshot and pending updates of its own.
module _ {Doc : Type 0} (loro : Loro Doc) (h : Hashes) where
  abbrev Built : List ℕ → ℕ → ℕ → ℕ → CheckpointRecord → Type 0
  Built room_id generation source end_offset c =
      (snapshot : List ℕ) × (pending_updates : List (List ℕ)) × (c
        ≡ Checkpoint.new h room_id generation source end_offset snapshot pending_updates)

  build_checkpoint_record-Built :
      (room_id : List ℕ) (generation source end_offset : ℕ) (doc : Doc) (history : List (List ℕ))
      (c : CheckpointRecord)
      → build_checkpoint_record loro h room_id generation source end_offset doc history ≡ ok c
      → Built room_id generation source end_offset c
  unfolding build_checkpoint_record
  build_checkpoint_record-Built room_id generation source end_offset doc history c e =
      let (snapshot, _, e₁) = >>=-eq-ok (map_err (loro.export_snapshot doc) snapshot_export) _ e in
      let (pending_updates, _, e₂) = >>=-eq-ok (pending_of loro snapshot history) _ e₁ in
      let (restored, _, e₃) =
        >>=-eq-ok (map_err (loro.from_snapshot snapshot) snapshot_restore) _ e₂ in
      let (recovered, _, e₄) = >>=-eq-ok (import_pending loro restored pending_updates) _ e₃ in
      let (_, e₅) =
        >>-eq-ok (loro.same_deep_value recovered doc && loro.same_oplog_vv recovered doc) _ _ e₄ in
      (snapshot, pending_updates, sym (ok-injective _ _ e₅))

-- What a new manifest record says.
record Names (h : Hashes) (room_id : List ℕ) (generation : ℕ) (bytes : List ℕ) (active : ℕ)
    (r : ManifestRecord) : Type 0 where
  room : Manifest.belongs_to_room h r room_id ≡ true
  checkpoint : r.checkpoint_generation ≡ generation
  delta : r.active_delta_generation ≡ active
  verifies : verifies_checkpoint_bytes h r bytes ≡ true

module _ (h : Hashes) (room_id : List ℕ) where
  new-Names :
      (revision : ℕ) (previous : List ℕ) (generation : ℕ) (bytes : List ℕ) (active : ℕ)
      (r : ManifestRecord)
      → Manifest.new h room_id revision previous generation bytes active ≡ ok r
      → Names h room_id generation bytes active r
  unfolding Manifest.new with_digest Manifest.belongs_to_room verifies_checkpoint_bytes
  new-Names revision previous generation bytes active r e =
      let (_, e₁) = >>-eq-ok (not (Manifest.is_empty bytes)) _ _ e in
      let (_, _, e₂) = >>=-eq-ok (Manifest.validate_generation_pair generation active) _ e₁ in
      let (_, _, e₃) = >>=-eq-ok (Manifest.validate_previous_digest revision previous) _ e₂ in
      let (end_offset, fits, e₄) =
        >>=-eq-ok (ok_or (try_from u64_mod (length bytes)) Manifest.length_overflow) _ e₃ in
      let made = ok-injective _ _ e₄ in
      let (same, bound) = try_from-eq-some u64_mod (length bytes) (ok_or-eq-ok _ _ fits) in
      subst (Names h room_id generation bytes active) made (record {
        room = bytes_eq_refl (Manifest.room_hash h room_id);
        checkpoint = refl;
        delta = refl;
        verifies = rw (saturating_u64_fits (length bytes) (omega (arith, same, bound))) (
            rw (eq→== end_offset (length bytes) (sym same))
              (bytes_eq_refl (Manifest.checkpoint_record_digest h bytes)));
      })

-- What recovery checks of a rotation's result, for the end offset of the source stream.
pub record Recoverable (h : Hashes) (room_id : List ℕ) (current end_offset : ℕ) (p : RotationResult)
    : Type 0 where
  pub source :
      (p.checkpoint.source_delta_generation ≡ current)
      × (p.checkpoint.source_delta_end_offset ≡ end_offset)
  pub rotated : p.checkpoint.checkpoint_generation ≡ current
  pub generation : p.manifest.checkpoint_generation ≡ current
  pub room : Manifest.belongs_to_room h p.manifest room_id ≡ true
  pub verifies :
      (bytes : List ℕ) × (Checkpoint.encode h p.checkpoint ≡ ok bytes)
      × (verifies_checkpoint_bytes h p.manifest bytes ≡ true)
  pub linked :
      validate_checkpoint_link h room_id p.manifest.checkpoint_generation
        p.manifest.active_delta_generation p.checkpoint
      ≡ ok tt
  pub next : checked_next current ≡ some p.next_delta_generation
  pub active : p.manifest.active_delta_generation ≡ p.next_delta_generation
  pub stream :
      p.next_delta_stream ≡ (delta_stream_for_generation h room_id p.next_delta_generation).physical
  pub retained : p.retained_history ≡ p.checkpoint.pending_updates

module _ (h : Hashes) {S : Type 0} (store : UrsulaStore S) (room_id : List ℕ) where
  publish_next-Names :
      (current next : ℕ) (bytes : List ℕ) (retries : ℕ) (s s' : S) (r : ManifestRecord)
      → publish_next h store room_id current next bytes retries s ≡ (ok r, s')
      → Names h room_id current bytes next r
  unfolding publish_next
  publish_next-Names current next bytes retries s s' r e =
      let ((revision, previous), s₁, _, e₁) =
        continue-eq-ok (next_manifest_position h store room_id current s) _ r s' e in
      let (r', made, e₂) =
        continue_pure-eq-ok
          (map_err (Manifest.new h room_id revision previous current bytes next)
            RotationError.manifest)
          _ r s₁ s' e₁ in
      let (_, s₂, _, e₃) =
        continue-eq-ok (call manifest_write (publish_manifest_record h store room_id r' retries) s₁)
          _ r s' e₂ in
      let same : r' ≡ r = cc in
      new-Names h room_id revision previous current bytes next r (
        map_err-eq-ok (Manifest.new h room_id revision previous current bytes next)
          RotationError.manifest made
        ∙ ap ok same)

  new-Linked :
      (current next end_offset : ℕ) (snapshot : List ℕ) (pending_updates : List (List ℕ))
      → checked_next current ≡ some next
      → Linked h room_id current next
          (Checkpoint.new h room_id current current end_offset snapshot pending_updates)
  unfolding Checkpoint.new checked_next belongs_to_room
  new-Linked current next end_offset snapshot pending_updates e =
      let (sum, bound) = checked_add-eq-some current 1 e in
      record {
        room = bytes_eq_refl (Checkpoint.room_hash h room_id);
        generation = refl;
        source = refl;
        active = sym sum;
        fits = omega (arith, sum, bound);
      }

  module _ {Doc : Type 0} (loro : Loro Doc) where
    recoverable :
        (current end_offset next : ℕ) (c : CheckpointRecord) (bytes : List ℕ) (r : ManifestRecord)
        → checked_next current ≡ some next
        → Built loro h room_id current current end_offset c
        → Checkpoint.encode h c ≡ ok bytes
        → Names h room_id current bytes next r
        → Recoverable h room_id current end_offset (record {
          checkpoint = c;
          manifest = r;
          next_delta_generation = next;
          next_delta_stream = (delta_stream_for_generation h room_id next).physical;
          retained_history = c.pending_updates;
        })
    unfolding Checkpoint.new
    recoverable current end_offset next c bytes r e (snapshot, pending_updates, built) encoded n =
        record {
          source = (
            ap (λ (x : CheckpointRecord). x.source_delta_generation) built,
            ap (λ (x : CheckpointRecord). x.source_delta_end_offset) built,
          );
          rotated = ap (λ (x : CheckpointRecord). x.checkpoint_generation) built;
          generation = n.checkpoint;
          room = n.room;
          verifies = (bytes, encoded, n.verifies);
          linked =
              ap (λ (g : ℕ). validate_checkpoint_link h room_id g r.active_delta_generation c)
                n.checkpoint
              ∙ ap (λ (g : ℕ). validate_checkpoint_link h room_id current g c) n.delta
              ∙ ap (λ (x : CheckpointRecord). validate_checkpoint_link h room_id current next x)
                  built
              ∙ Linked-accepted h room_id current next _
                  (new-Linked current next end_offset snapshot pending_updates e);
          next = e;
          active = n.delta;
          stream = refl;
          retained = refl;
        }

    -- When `rotate_room` succeeds, whatever the service does, its result is `Recoverable`: the checkpoint
    -- is that of the rotated generation and of the given end offset, its encoding is the one that the
    -- manifest record verifies, the two pass the link check of recovery, the record is the room's and
    -- names the rotated generation and the next one, and the next delta stream and the retained updates
    -- are those of the next generation and of the checkpoint.
    pub rotate_room-Recoverable :
        (current end_offset : ℕ) (doc : Doc) (history : List (List ℕ)) (retries : ℕ) (s s' : S)
        (p : RotationResult)
        → rotate_room h store loro room_id current end_offset doc history retries s ≡ (ok p, s')
        → Recoverable h room_id current end_offset p
    unfolding rotate_room
    rotate_room-Recoverable current end_offset doc history retries s s' p e =
        let (next, fits, e₁) =
          continue_pure-eq-ok (ok_or (checked_next current) generation_overflow) _ p s s' e in
        let (c, built, e₂) =
          continue_pure-eq-ok
            (map_err (build_checkpoint_record loro h room_id current current end_offset doc history)
              checkpoint_build)
            _ p s s' e₁ in
        let (bytes, encoded, e₃) =
          continue_pure-eq-ok (map_err (Checkpoint.encode h c) checkpoint_encode) _ p s s' e₂ in
        let (_, s₁, _, e₄) =
          continue-eq-ok
            (call checkpoint_write (persist_checkpoint h store room_id current c retries) s) _ p s'
            e₃ in
        let (_, s₂, _, e₅) = continue-eq-ok (open_next_delta h store room_id next s₁) _ p s' e₄ in
        let (r, s₃, published, e₆) =
          continue-eq-ok (publish_next h store room_id current next bytes retries s₂) _ p s' e₅ in
        subst (Recoverable h room_id current end_offset) (result_of _ _ s₃ s' e₆) (
          recoverable current end_offset next c bytes r (ok_or-eq-ok (checked_next current) _ fits)
            (build_checkpoint_record-Built loro h room_id current current end_offset doc history c
              (map_err-eq-ok _ checkpoint_build built))
            (map_err-eq-ok (Checkpoint.encode h c) checkpoint_encode encoded)
            (publish_next-Names current next bytes retries s₂ s₃ r published))
