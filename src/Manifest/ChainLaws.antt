-- ===== src/Manifest/ChainLaws.antt =====
-- What `validate_manifest_chain` of src/manifest.rs accepts.
use quorum_loro_gateway.Prelude.{
  ℕ, ◌+◌, ◌≤◌, ◌<◌, ◌≡◌, sym, ◌∙◌, List, [], ◌∷◌, ◌++◌, arith, ltb, ltb→lt, lt→ltb, ==→eq, ==_refl,
  ◌==◌, bytes_eq, bytes_eq→eq, bytes_eq_refl, append-nil, append_assoc, length-append, All,
  All-append, ◌↔◌, length, ok, ok_or, >>=-eq-ok, >>-eq-ok, ok_or-eq-ok, guard-eq-ok, ok-injective,
}
use mathlib.Core.Path.{subst}
use quorum_loro_gateway.Bytes.{u64_mod, checked_add, checked_add-eq-some, checked_add_fits}
use quorum_loro_gateway.Hashes.{Hashes}
use quorum_loro_gateway.Manifest.{genesis_digest, ManifestRecord, ManifestError, belongs_to_room}
use quorum_loro_gateway.Manifest.Chain.{
  check_first, check_link, check_links, validate_manifest_chain, IsFirst, Link, Chain, single,
  extend,
}

module _ (h : Hashes) (room_id : List ℕ) where
  check_first-eq-ok :
      (r : ManifestRecord) {u : Unit} → check_first h room_id r ≡ ok u → IsFirst h room_id r
  unfolding check_first
  check_first-eq-ok r e =
      let (a₁, e₁) = >>-eq-ok (belongs_to_room h r room_id) _ _ e in
      let (a₂, e₂) = >>-eq-ok (r.revision == 0) _ _ e₁ in
      record {
        room = a₁;
        revision = ==→eq r.revision 0 a₂;
        genesis = bytes_eq→eq _ _ (guard-eq-ok _ _ e₂);
      }

  IsFirst-check_first : (r : ManifestRecord) → IsFirst h room_id r → check_first h room_id r ≡ ok tt
  unfolding check_first
  IsFirst-check_first r f = rw (f.room, f.revision, f.genesis, bytes_eq_refl genesis_digest)

  check_link-eq-ok :
      (p c : ManifestRecord) {u : Unit} → check_link h room_id p c ≡ ok u → Link h room_id p c
  unfolding check_link
  check_link-eq-ok p c e =
      let (a₁, e₁) = >>-eq-ok (belongs_to_room h c room_id) _ _ e in
      let (next, a₂, e₂) = >>=-eq-ok (ok_or (checked_add p.revision 1) _) _ e₁ in
      let (a₃, e₃) = >>-eq-ok (c.revision == next) _ _ e₂ in
      let (a₄, e₄) = >>-eq-ok (bytes_eq c.previous_record_digest p.digest) _ _ e₃ in
      let (a₅, e₅) = >>-eq-ok (ltb p.checkpoint_generation c.checkpoint_generation) _ _ e₄ in
      let s = checked_add-eq-some p.revision 1 (ok_or-eq-ok _ _ a₂) in
      record {
        room = a₁;
        revision = ==→eq c.revision next a₃ ∙ sym s.0;
        revision_u64 = subst (λ (k : ℕ). k < u64_mod) (sym s.0) s.1;
        predecessor = bytes_eq→eq _ _ a₄;
        checkpoint = ltb→lt _ _ a₅;
        active = ltb→lt _ _ (guard-eq-ok _ _ e₅);
      }

  Link-check_link : (p c : ManifestRecord) → Link h room_id p c → check_link h room_id p c ≡ ok tt
  unfolding check_link
  Link-check_link p c l = rw (
    l.room,
    checked_add_fits p.revision 1 l.revision_u64,
    l.revision,
    ==_refl (p.revision + 1),
    l.predecessor,
    bytes_eq_refl p.digest,
    lt→ltb _ _ l.checkpoint,
    lt→ltb _ _ l.active,
  )

  check_links-Chain :
      (front : List ManifestRecord) (previous : ManifestRecord) (rest : List ManifestRecord)
      {last : ManifestRecord}
      → Chain h room_id front previous
      → check_links h room_id previous rest ≡ ok last
      → Chain h room_id (front ++ rest) last
  unfolding check_links
  check_links-Chain front previous [] {last} c e =
      subst (Chain h room_id (front ++ [])) (ok-injective {E = ManifestError} previous last e)
        (subst (λ (l : List ManifestRecord). Chain h room_id l previous) (sym (append-nil front)) c)
  check_links-Chain front previous (current ∷ rest) {last} c e =
      let (_, a, e₁) = >>=-eq-ok (check_link h room_id previous current) _ e in
      subst (λ (l : List ManifestRecord). Chain h room_id l last)
        (append_assoc front (current ∷ []) rest)
        (check_links-Chain (front ++ current ∷ []) current rest
          (extend front previous current c (check_link-eq-ok previous current a)) e₁)

  check_links-append :
      (previous : ManifestRecord) (rest : List ManifestRecord) (last r : ManifestRecord)
      → check_links h room_id previous rest ≡ ok last
      → check_link h room_id last r ≡ ok tt
      → check_links h room_id previous (rest ++ r ∷ []) ≡ ok r
  unfolding check_links
  check_links-append previous [] last r e l =
      rw (ok-injective {E = ManifestError} previous last e) (rw l)
  check_links-append previous (current ∷ rest) last r e l =
      let (_, a, e₁) = >>=-eq-ok (check_link h room_id previous current) _ e in
      rw a (check_links-append current rest last r e₁ l)

  validate-append :
      (rs : List ManifestRecord) (last r : ManifestRecord)
      → validate_manifest_chain h room_id rs ≡ ok last
      → check_link h room_id last r ≡ ok tt
      → validate_manifest_chain h room_id (rs ++ r ∷ []) ≡ ok r
  unfolding validate_manifest_chain
  validate-append [] last r e l = cc
  validate-append (first ∷ rest) last r e l =
      let (_, a, e₁) = >>=-eq-ok (check_first h room_id first) _ e in
      rw a (check_links-append first rest last r e₁ l)

  check_links-Link :
      (previous : ManifestRecord) (rest : List ManifestRecord) (last r : ManifestRecord)
      → check_links h room_id previous rest ≡ ok last
      → check_links h room_id previous (rest ++ r ∷ []) ≡ ok r
      → Link h room_id last r
  unfolding check_links
  check_links-Link previous [] last r e e' =
      let (_, a, _) = >>=-eq-ok (check_link h room_id previous r) _ e' in
      subst (λ (p : ManifestRecord). Link h room_id p r)
        (ok-injective {E = ManifestError} previous last e) (check_link-eq-ok previous r a)
  check_links-Link previous (current ∷ rest) last r e e' =
      let (_, _, e₁) = >>=-eq-ok (check_link h room_id previous current) _ e in
      let (_, _, e₂) = >>=-eq-ok (check_link h room_id previous current) _ e' in
      check_links-Link current rest last r e₁ e₂

  -- A valid chain that is valid with one more record links that record to its last one.
  pub validate-Link :
      (rs : List ManifestRecord) (last r : ManifestRecord)
      → validate_manifest_chain h room_id rs ≡ ok last
      → validate_manifest_chain h room_id (rs ++ r ∷ []) ≡ ok r
      → Link h room_id last r
  unfolding validate_manifest_chain
  validate-Link [] last r e e' = cc
  validate-Link (first ∷ rest) last r e e' =
      let (_, _, e₁) = >>=-eq-ok (check_first h room_id first) _ e in
      let (_, _, e₂) = >>=-eq-ok (check_first h room_id first) _ e' in
      check_links-Link first rest last r e₁ e₂

  pub validate-Chain :
      (rs : List ManifestRecord) {last : ManifestRecord}
      → validate_manifest_chain h room_id rs ≡ ok last
      → Chain h room_id rs last
  unfolding validate_manifest_chain
  validate-Chain [] e = cc
  validate-Chain (first ∷ rest) e =
      let (_, a, e₁) = >>=-eq-ok (check_first h room_id first) _ e in
      check_links-Chain (first ∷ []) first rest (single first (check_first-eq-ok first a)) e₁

  Chain-validate :
      {rs : List ManifestRecord} {last : ManifestRecord}
      → Chain h room_id rs last
      → validate_manifest_chain h room_id rs ≡ ok last
  Chain-validate (single r f) =
      unfold validate_manifest_chain check_links in rw (IsFirst-check_first r f)
  Chain-validate (extend rs last r c l) =
      validate-append rs last r (Chain-validate c) (Link-check_link last r l)

  -- `validate_manifest_chain` accepts exactly the lists that start with a first record of the room
  -- and go on by links, and it returns their last record.
  pub validate_iff :
      (rs : List ManifestRecord) (last : ManifestRecord)
      → (validate_manifest_chain h room_id rs ≡ ok last) ↔ Chain h room_id rs last
  validate_iff rs last = (validate-Chain rs, Chain-validate)

  -- In a chain the revision of the last record counts the records before it.
  pub revision-Chain :
      {rs : List ManifestRecord} {last : ManifestRecord}
      → Chain h room_id rs last
      → last.revision + 1 ≡ length rs
  revision-Chain (single r f) = omega (arith, f.revision)
  revision-Chain (extend rs last r c l) =
      omega (arith, revision-Chain c, l.revision, length-append rs (r ∷ []))

  le_last :
      {rs : List ManifestRecord} {last : ManifestRecord}
      → Chain h room_id rs last
      → All (λ q. q.active_delta_generation ≤ last.active_delta_generation) rs
  le_last (single r f) = (omega arith, tt)
  le_last (extend rs last r c l) =
      All-append (λ q. q.active_delta_generation ≤ r.active_delta_generation) rs (r ∷ [])
        (weaken rs (le_last c)) (omega arith, tt)
    where
      weaken :
          (qs : List ManifestRecord)
          → All (λ q. q.active_delta_generation ≤ last.active_delta_generation) qs
          → All (λ q. q.active_delta_generation ≤ r.active_delta_generation) qs
      weaken [] p = tt
      weaken (q ∷ qs) p = (omega (arith, p.0, l.active), weaken qs p.1)

  -- A record that may follow a valid chain names a delta generation above every one that the chain
  -- names: no generation is used twice.
  pub fresh_generation :
      (rs : List ManifestRecord) (last r : ManifestRecord)
      → validate_manifest_chain h room_id rs ≡ ok last
      → validate_manifest_chain h room_id (rs ++ r ∷ []) ≡ ok r
      → All (λ q. q.active_delta_generation < r.active_delta_generation) rs
  fresh_generation rs last r e e' =
      below rs (le_last (validate-Chain rs e)) (validate-Link rs last r e e')
    where
      below :
          (qs : List ManifestRecord)
          → All (λ q. q.active_delta_generation ≤ last.active_delta_generation) qs
          → Link h room_id last r
          → All (λ q. q.active_delta_generation < r.active_delta_generation) qs
      below [] p l = tt
      below (q ∷ qs) p l = (omega (arith, p.0, l.active), below qs p.1 l)
