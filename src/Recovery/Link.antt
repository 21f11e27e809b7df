-- ===== src/Recovery/Link.antt =====
-- src/recovery.rs: which checkpoints `validate_checkpoint_link` accepts.
use quorum_loro_gateway.Prelude.{
  ℕ, ◌+◌, ◌<◌, ◌≡◌, refl, sym, ◌∙◌, ◌↔◌, Bool, true, false, Option, none, some, List, ◌==◌, ==→eq,
  eq→==, arith, Result, ok, err, guard, guard-eq-ok, if◌then◌else◌,
}
use quorum_loro_gateway.Bytes.{u64_mod, checked_add, checked_add_fits, checked_add-eq-some}
use quorum_loro_gateway.Hashes.{Hashes}
use quorum_loro_gateway.Checkpoint.{CheckpointRecord, belongs_to_room}
use quorum_loro_gateway.Recovery.{
  RecoveryError, generation_overflow, active_delta_generation_mismatch, validate_checkpoint_link,
}

-- What the manifest's latest record and the checkpoint must agree on.
pub record Linked (h : Hashes) (room_id : List ℕ) (manifest_checkpoint manifest_active : ℕ)
    (c : CheckpointRecord) : Type 0 where
  pub room : belongs_to_room h c room_id ≡ true
  pub generation : c.checkpoint_generation ≡ manifest_checkpoint
  pub source : c.source_delta_generation ≡ manifest_checkpoint
  pub active : manifest_active ≡ manifest_checkpoint + 1
  pub fits : manifest_checkpoint + 1 < u64_mod

if-eq-ok :
    (b : Bool) (r : Result RecoveryError Unit) (e : RecoveryError)
    → (if b then r else err e) ≡ ok tt
    → (b ≡ true) × (r ≡ ok tt)
if-eq-ok true r e h = (refl, h)
if-eq-ok false r e h = cc

next-eq-ok :
    (o : Option ℕ) (active : ℕ)
    → elim o [
      | none ↦ err generation_overflow
      | some expected ↦
          guard (active == expected) (active_delta_generation_mismatch expected active)
    ]
      ≡ ok tt
    → (next : ℕ) × (o ≡ some next) × (active ≡ next)
next-eq-ok none active h = cc
next-eq-ok (some n) active h = (n, refl, ==→eq active n (guard-eq-ok (active == n) _ h))

module _ (h : Hashes) (room_id : List ℕ) (generation active : ℕ) where
  pub Linked-accepted :
      (c : CheckpointRecord)
      → Linked h room_id generation active c
      → validate_checkpoint_link h room_id generation active c ≡ ok tt
  unfolding validate_checkpoint_link
  Linked-accepted c l = rw (
    l.room,
    eq→== c.checkpoint_generation generation l.generation,
    eq→== c.source_delta_generation c.checkpoint_generation (l.source ∙ sym l.generation),
    l.generation,
    checked_add_fits generation 1 l.fits,
    eq→== active (generation + 1) l.active,
  )

  accepted-Linked :
      (c : CheckpointRecord)
      → validate_checkpoint_link h room_id generation active c ≡ ok tt
      → Linked h room_id generation active c
  unfolding validate_checkpoint_link
  accepted-Linked c e =
      let (a₁, e₁) = if-eq-ok (belongs_to_room h c room_id) _ _ e in
      let (a₂, e₂) = if-eq-ok (c.checkpoint_generation == generation) _ _ e₁ in
      let (a₃, e₃) = if-eq-ok (c.source_delta_generation == c.checkpoint_generation) _ _ e₂ in
      let g = ==→eq c.checkpoint_generation generation a₂ in
      let (next, a₄, e₄) = next-eq-ok (checked_add c.checkpoint_generation 1) active e₃ in
      let (sum, bound) = checked_add-eq-some c.checkpoint_generation 1 a₄ in
      record {
        room = a₁;
        generation = g;
        source = ==→eq c.source_delta_generation c.checkpoint_generation a₃ ∙ g;
        active = omega (arith, e₄, sum, g);
        fits = omega (arith, sum, bound, g);
      }

  -- The check of a checkpoint against the manifest's latest record succeeds exactly for a checkpoint
  -- of the room, of the generation that the record names and made from the delta stream of that
  -- generation, when the active delta stream is that of the next generation, which fits a `u64`.
  pub validate_checkpoint_link_iff :
      (c : CheckpointRecord)
      → (validate_checkpoint_link h room_id generation active c ≡ ok tt)
        ↔ Linked h room_id generation active c
  validate_checkpoint_link_iff c = (accepted-Linked c, Linked-accepted c)
