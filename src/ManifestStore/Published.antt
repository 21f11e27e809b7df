-- ===== src/ManifestStore/Published.antt =====
-- src/manifest_store.rs: what a successful publication leaves in the manifest stream.
use quorum_loro_gateway.Prelude.{
  ℕ, ◌≡◌, refl, sym, ap, ◌∙◌, ◌⊎◌, Bool, true, false, ◌&&◌, List, [], ◌∷◌, ◌++◌, ◌==◌, ==→eq,
  length, arith, Result, ok, ok_or, ok_or-eq-ok, guard, guard-eq-ok, map_err, ok-injective,
  if◌then◌else◌,
}
use mathlib.Core.Path.{subst}
use quorum_loro_gateway.Bytes.{
  u64_mod, checked_add, checked_add-eq-some, try_from, try_from-eq-some,
}
use quorum_loro_gateway.Hashes.{Hashes}
use quorum_loro_gateway.Frame.{ProducerTuple}
use quorum_loro_gateway.Manifest.{ManifestRecord, default_limits, belongs_to_room}
use quorum_loro_gateway.Manifest.Decode.{decode_manifest_stream}
use quorum_loro_gateway.Manifest.Chain.{validate_manifest_chain}
use quorum_loro_gateway.Names.{manifest_stream}
use quorum_loro_gateway.Store.{StoreError, UrsulaStore, ◌>>◌, pure_result, convert_error}
use quorum_loro_gateway.Store.Laws.{
  StoreLaws, continue_pure-eq-ok, continue-eq-ok, convert_error-eq-ok,
}
use quorum_loro_gateway.ExactAppend.{ExactAppendOutcome, end_of, append_exact_with_retry}
use quorum_loro_gateway.ExactAppend.Once.{append_exact-at_most_once}
use quorum_loro_gateway.ExactAppend.Stored.{append_exact-Stored, append_exact-nonempty}
use quorum_loro_gateway.CheckpointStore.Persisted.{map_err-eq-ok, grown_once}
use quorum_loro_gateway.ManifestStore.{
  ManifestWriteError, ManifestWriteOutcome, manifest, store_failed, length_overflow, wrong_room,
  unexpected_end_offset, Position, already_last, follows, check_genesis, check_next, record_eq,
  ends_with, encode, manifest_producer_id, place_after, place, append_record, finish_publish,
  publish_manifest_record,
}

-- The records that the bytes of a manifest stream stand for.
pub data Holds (h : Hashes) : List ℕ → List ManifestRecord → Type 0 where
  nothing : Holds h [] []
  decoded :
      (bytes : List ℕ) (records : List ManifestRecord)
      → decode_manifest_stream h bytes default_limits ≡ ok records
      → Holds h bytes records

-- What a publication of `r` does to the bytes of the manifest stream.
pub data Published (h : Hashes) (room_id : List ℕ) (r : ManifestRecord) (before : List ℕ)
    : List ℕ → Type 0 where
  existed :
      (records : List ManifestRecord) (latest : ManifestRecord)
      → Holds h before records
      → validate_manifest_chain h room_id records ≡ ok latest
      → record_eq latest r ≡ true
      → Published h room_id r before before
  appended :
      (records : List ManifestRecord) (last : ManifestRecord) (encoded : List ℕ)
      → Holds h before records
      → validate_manifest_chain h room_id (records ++ r ∷ []) ≡ ok last
      → encode h r ≡ ok encoded
      → Published h room_id r before (before ++ encoded)

-- What `place` found of a stream.
data Found (h : Hashes) (room_id : List ℕ) (r : ManifestRecord) (before : List ℕ)
    : Position → Type 0 where
  found_last :
      (records : List ManifestRecord) (latest : ManifestRecord)
      → Holds h before records
      → validate_manifest_chain h room_id records ≡ ok latest
      → record_eq latest r ≡ true
      → Found h room_id r before already_last
  found_place :
      (records : List ManifestRecord)
      → Holds h before records
      → Found h room_id r before (follows records)

and_left : (a b : Bool) → (a && b) ≡ true → a ≡ true
and_left true b e = refl
and_left false b e = cc

abbrev tuple : Hashes → List ℕ → ManifestRecord → ProducerTuple
tuple h room_id r = record { id = manifest_producer_id h room_id; epoch = 0; sequence = r.revision }

module _ {S : Type 0} (h : Hashes) (store : UrsulaStore S) (room_id : List ℕ)
    (r : ManifestRecord) where
  placed :
      {existing : List ℕ} {records : List ManifestRecord} (b : Bool)
      → (b ≡ true → Found h room_id r existing already_last)
      → (check : Result ManifestWriteError Unit) (s s' : S) (p : Position)
      → Holds h existing records
      → (if b
            then pure_result (ok already_last)
            else (pure_result check >> pure_result (ok (follows records))))
          s
        ≡ (ok p, s')
      → Found h room_id r existing p × (s ≡ s')
  placed {existing} true f check s s' p hold e = (
    subst (λ (q : Position). Found h room_id r existing q)
        (ok-injective already_last p (ap (λ (x : Result ManifestWriteError Position × S). x.0) e))
        (f refl),
    ap (λ (x : Result ManifestWriteError Position × S). x.1) e,
  )
  placed {existing} {records} false f check s s' p hold e =
      let (_, _, e₁) = continue_pure-eq-ok check _ p s s' e in
      (
        subst (λ (q : Position). Found h room_id r existing q)
            (ok-injective (follows records) p
              (ap (λ (x : Result ManifestWriteError Position × S). x.0) e₁))
            (found_place records hold),
        ap (λ (x : Result ManifestWriteError Position × S). x.1) e₁,
      )

  place_after-Found :
      (records : List ManifestRecord) (latest : ManifestRecord) (existing encoded : List ℕ)
      (s s' : S) (p : Position)
      → Holds h existing records
      → validate_manifest_chain h room_id records ≡ ok latest
      → place_after h store records latest r existing encoded s ≡ (ok p, s')
      → Found h room_id r existing p × (s ≡ s')
  unfolding place_after
  place_after-Found records latest existing encoded s s' p hold valid e =
      placed (record_eq latest r && ends_with existing encoded)
        (λ b.
          found_last records latest hold valid
            (and_left (record_eq latest r) (ends_with existing encoded) b))
        (check_next latest r) s s' p hold e

  place-Found :
      (encoded existing : List ℕ) (s s' : S) (p : Position)
      → place h store room_id r encoded existing s ≡ (ok p, s')
      → Found h room_id r existing p × (s ≡ s')
  unfolding place
  place-Found encoded [] s s' p e =
      let (_, _, e₁) = continue_pure-eq-ok (check_genesis r) _ p s s' e in
      (
        subst (λ (q : Position). Found h room_id r [] q)
            (ok-injective (follows []) p
              (ap (λ (x : Result ManifestWriteError Position × S). x.0) e₁))
            (found_place [] nothing),
        ap (λ (x : Result ManifestWriteError Position × S). x.1) e₁,
      )
  place-Found encoded (b ∷ bs) s s' p e =
      let (records, f₁, e₁) =
        continue_pure-eq-ok (map_err (decode_manifest_stream h (b ∷ bs) default_limits) manifest) _
          p s s' e in
      let (latest, f₂, e₂) =
        continue_pure-eq-ok (map_err (validate_manifest_chain h room_id records) manifest) _ p s s'
          e₁ in
      place_after-Found records latest (b ∷ bs) encoded s s' p
        (decoded (b ∷ bs) records
          (map_err-eq-ok (decode_manifest_stream h (b ∷ bs) default_limits) manifest f₁))
        (map_err-eq-ok (validate_manifest_chain h room_id records) manifest f₂) e₂

  module _ (laws : StoreLaws store) where
    append_record-appended :
        (encoded : List ℕ) (existing_len retries : ℕ) (s s' : S) (o : ManifestWriteOutcome)
        → existing_len ≡ length (laws.contents s (manifest_stream h room_id).physical)
        → append_record h store room_id r encoded existing_len retries s ≡ (ok o, s')
        → laws.contents s' (manifest_stream h room_id).physical
          ≡ laws.contents s (manifest_stream h room_id).physical ++ encoded
    unfolding append_record
    append_record-appended encoded existing_len retries s s' o len e =
        let stream = (manifest_stream h room_id).physical in
        let (outcome, s₁, f₁, e₁) =
          continue-eq-ok
            (convert_error store_failed (
              append_exact_with_retry store (manifest_stream h room_id).physical (tuple h room_id r)
                encoded retries s))
            _ o s' e in
        let done =
          convert_error-eq-ok store_failed
            (append_exact_with_retry store stream (tuple h room_id r) encoded retries s) outcome s₁
            f₁ in
        let (encoded_len, f₂, e₂) =
          continue_pure-eq-ok (ok_or (try_from u64_mod (length encoded)) length_overflow) _ o s₁ s'
            e₁ in
        let (expected, f₃, e₃) =
          continue_pure-eq-ok (ok_or (checked_add existing_len encoded_len) length_overflow) _ o s₁
            s' e₂ in
        let (_, f₄, e₄) =
          continue_pure-eq-ok
            (guard (end_of outcome == expected) (unexpected_end_offset expected (end_of outcome))) _
            o s₁ s' e₃ in
        let size =
          (try_from-eq-some u64_mod (length encoded)
            (ok_or-eq-ok (try_from u64_mod (length encoded)) _ f₂)).0 in
        let sum =
          (checked_add-eq-some existing_len encoded_len
            (ok_or-eq-ok (checked_add existing_len encoded_len) _ f₃)).0 in
        let at_end =
          ==→eq (end_of outcome) expected (guard-eq-ok (end_of outcome == expected) _ f₄) in
        let state =
          ap (λ (x : Result StoreError ExactAppendOutcome × S). laws.contents x.1 stream) done in
        let once =
          subst
            (λ (c : List ℕ). (c ≡ laws.contents s stream) ⊎ (c ≡ laws.contents s stream ++ encoded))
            state
            (append_exact-at_most_once store laws stream (tuple h room_id r) encoded retries s) in
        ap (λ (x : Result ManifestWriteError ManifestWriteOutcome × S). laws.contents x.1 stream)
          (sym e₄)
        ∙ grown_once (laws.contents s stream) (laws.contents s₁ stream) encoded (end_of outcome)
            (append_exact-nonempty store laws stream (tuple h room_id r) encoded retries s s₁
              outcome done)
            once
            (append_exact-Stored store laws stream (tuple h room_id r) encoded retries s s₁ outcome
              done)
            (omega (arith, at_end, sum, size, len))

    finish-Published :
        (encoded : List ℕ) (existing_len retries : ℕ) (s s' : S) (o : ManifestWriteOutcome)
        (p : Position)
        → encode h r ≡ ok encoded
        → existing_len ≡ length (laws.contents s (manifest_stream h room_id).physical)
        → Found h room_id r (laws.contents s (manifest_stream h room_id).physical) p
        → finish_publish h store room_id r encoded existing_len retries p s ≡ (ok o, s')
        → Published h room_id r
            (laws.contents s (manifest_stream h room_id).physical)
            (laws.contents s' (manifest_stream h room_id).physical)
    unfolding finish_publish
    finish-Published encoded existing_len retries s s' o already_last enc len
          (found_last records latest hold valid same) e =
        subst (Published h room_id r (laws.contents s (manifest_stream h room_id).physical))
          (ap
            (λ (x : Result ManifestWriteError ManifestWriteOutcome × S).
              laws.contents x.1 (manifest_stream h room_id).physical)
            e)
          (existed records latest hold valid same)
    finish-Published encoded existing_len retries s s' o (follows records) enc len
          (found_place _ hold) e =
        let (last, f₁, e₁) =
          continue_pure-eq-ok
            (map_err (validate_manifest_chain h room_id (records ++ r ∷ [])) manifest) _ o s s' e in
        subst (Published h room_id r (laws.contents s (manifest_stream h room_id).physical))
          (sym (append_record-appended encoded existing_len retries s s' o len e₁))
          (appended records last encoded hold
            (map_err-eq-ok (validate_manifest_chain h room_id (records ++ r ∷ [])) manifest f₁) enc)

    -- On a store that obeys `StoreLaws`, after a success, the manifest stream is unchanged and the last of its valid chain of records
    -- equals this one, or it is the old bytes with this record's encoding behind them, and the old
    -- records with this one are a valid chain.
    pub publish_manifest_record-Published :
        (retries : ℕ) (s s' : S) (o : ManifestWriteOutcome)
        → publish_manifest_record h store room_id r retries s ≡ (ok o, s')
        → Published h room_id r
            (laws.contents s (manifest_stream h room_id).physical)
            (laws.contents s' (manifest_stream h room_id).physical)
    unfolding publish_manifest_record
    publish_manifest_record-Published retries s s' o e =
        let stream = (manifest_stream h room_id).physical in
        let (_, _, e₁) =
          continue_pure-eq-ok (guard (belongs_to_room h r room_id) wrong_room) _ o s s' e in
        let (encoded, f₂, e₂) = continue_pure-eq-ok (map_err (encode h r) manifest) _ o s s' e₁ in
        let (_, s₁, f₃, e₃) =
          continue-eq-ok (convert_error store_failed (store.ensure_stream stream s)) _ o s' e₂ in
        let (existing, s₂, f₄, e₄) =
          continue-eq-ok (convert_error store_failed (store.read_all stream s₁)) _ o s' e₃ in
        let (existing_len, f₅, e₅) =
          continue_pure-eq-ok (ok_or (try_from u64_mod (length existing)) length_overflow) _ o s₂ s'
            e₄ in
        let (p, s₃, f₆, e₆) =
          continue-eq-ok (place h store room_id r encoded existing s₂) _ o s' e₅ in
        let ensured = convert_error-eq-ok store_failed (store.ensure_stream stream s) tt s₁ f₃ in
        let done = convert_error-eq-ok store_failed (store.read_all stream s₁) existing s₂ f₄ in
        let kept₁ =
          sym (laws.ensure_keeps stream stream s)
          ∙ ap (λ (x : Result StoreError Unit × S). laws.contents x.1 stream) ensured in
        let kept₂ =
          sym (laws.read_all_keeps stream stream s₁)
          ∙ ap (λ (x : Result StoreError (List ℕ) × S). laws.contents x.1 stream) done in
        let (found, same) = place-Found encoded existing s₂ s₃ p f₆ in
        let kept₃ = ap (λ (t : S). laws.contents t stream) same in
        let shown = laws.read_all_shows stream s₁ s₂ existing done ∙ (kept₂ ∙ kept₃) in
        subst (λ (c : List ℕ). Published h room_id r c (laws.contents s' stream))
          (sym (kept₁ ∙ (kept₂ ∙ kept₃)))
          (finish-Published encoded existing_len retries s₃ s' o p
            (map_err-eq-ok (encode h r) manifest f₂)
            (sym
                (try_from-eq-some u64_mod (length existing)
                  (ok_or-eq-ok (try_from u64_mod (length existing)) _ f₅)).0
              ∙ ap (λ (l : List ℕ). length l) shown)
            (subst (λ (c : List ℕ). Found h room_id r c p) shown found) e₆)
