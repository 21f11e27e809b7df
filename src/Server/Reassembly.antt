-- ===== src/Server/Reassembly.antt =====
-- A fragmented update that arrives whole: the slots of its batch, and the run of its messages.
use quorum_loro_gateway.Prelude.{
  ℕ, zero, suc, ◌+◌, ◌≤◌, ◌<◌, ◌≡◌, ◌∙◌, refl, sym, ap, true, false, Option, none, some, List, [],
  ◌∷◌, ◌++◌, ltb, ge→ltb, arith, length, length-append, replicate,
}
use quorum_loro_gateway.Bytes.{
  u64_mod, checked_add_fits, try_from_fits, saturating_u64, saturating_u64_fits,
}
use quorum_loro_gateway.LoroProtocol.{loro}
use quorum_loro_gateway.Server.{
  FragmentKey, FragmentBatch, Connection, contains, find, join_chunks, store_batch, fill_slot,
  on_slot, on_known_batch, on_fragment,
}
use quorum_loro_gateway.Server.Slots.{
  get_elem?, set, length-set, filled, held, filled_bound, filled-set, held-set,
}

abbrev pub concat : List (List ℕ) → List ℕ
concat [] = []
concat (x ∷ xs) = x ++ concat xs

-- Each filled slot holds the fragment of its index.
abbrev pub Fills : List (Option (List ℕ)) → List (List ℕ) → Type 0
Fills [] [] = Unit
Fills [] (x ∷ xs) = ⊥
Fills (slot ∷ slots) [] = ⊥
Fills (none ∷ slots) (x ∷ xs) = Fills slots xs
Fills (some y ∷ slots) (x ∷ xs) = (y ≡ x) × Fills slots xs

Fills-set :
    (slots : List (Option (List ℕ))) (xs : List (List ℕ)) (i : ℕ) (x : List ℕ)
    → Fills slots xs
    → get_elem? xs i ≡ some x
    → Fills (set slots i (some x)) xs
Fills-set [] [] i x h e = h
Fills-set [] (y ∷ xs) i x h e = absurd h
Fills-set (slot ∷ slots) [] i x h e = absurd h
Fills-set (none ∷ slots) (y ∷ xs) zero x h e = (cc, h)
Fills-set (some z ∷ slots) (y ∷ xs) zero x h e = (cc, h.1)
Fills-set (none ∷ slots) (y ∷ xs) (suc i) x h e = Fills-set slots xs i x h e
Fills-set (some z ∷ slots) (y ∷ xs) (suc i) x h e = (h.0, Fills-set slots xs i x h.1 e)

pub length-Fills :
    (slots : List (Option (List ℕ))) (xs : List (List ℕ))
    → Fills slots xs
    → length slots ≡ length xs
length-Fills [] [] h = refl
length-Fills [] (x ∷ xs) h = absurd h
length-Fills (slot ∷ slots) [] h = absurd h
length-Fills (none ∷ slots) (x ∷ xs) h = omega (arith, length-Fills slots xs h)
length-Fills (some y ∷ slots) (x ∷ xs) h = omega (arith, length-Fills slots xs h.1)

held-Fills :
    (slots : List (Option (List ℕ))) (xs : List (List ℕ))
    → Fills slots xs
    → held slots ≤ length (concat xs)
held-Fills [] [] h = omega arith
held-Fills [] (x ∷ xs) h = absurd h
held-Fills (slot ∷ slots) [] h = absurd h
held-Fills (none ∷ slots) (x ∷ xs) h =
    omega (arith, held-Fills slots xs h, length-append x (concat xs))
held-Fills (some y ∷ slots) (x ∷ xs) h =
    omega (arith, held-Fills slots xs h.1, length-append x (concat xs), ap length h.0)

pub join_chunks-Fills :
    (slots : List (Option (List ℕ))) (xs : List (List ℕ))
    → Fills slots xs
    → filled slots ≡ length slots
    → join_chunks slots ≡ some (concat xs)
unfolding join_chunks
join_chunks-Fills [] [] h e = refl
join_chunks-Fills [] (x ∷ xs) h e = absurd h
join_chunks-Fills (slot ∷ slots) [] h e = absurd h
join_chunks-Fills (none ∷ slots) (x ∷ xs) h e = absurd (omega (arith, filled_bound slots))
join_chunks-Fills (some y ∷ slots) (x ∷ xs) h e =
    rw (join_chunks-Fills slots xs h.1 (omega arith)) (rw (h.0))

pub Fills-replicate : (xs : List (List ℕ)) → Fills (replicate (length xs) none) xs
Fills-replicate [] = tt
Fills-replicate (x ∷ xs) = Fills-replicate xs

pub get_elem?-set_ne {ℓ} :
    {A : Type ℓ} (xs : List A) (i j : ℕ) (v : A)
    → (i ≡ j → ⊥)
    → get_elem? (set xs i v) j ≡ get_elem? xs j
get_elem?-set_ne [] i j v ne = refl
get_elem?-set_ne (x ∷ xs) zero zero v ne = absurd (ne refl)
get_elem?-set_ne (x ∷ xs) zero (suc j) v ne = refl
get_elem?-set_ne (x ∷ xs) (suc i) zero v ne = refl
get_elem?-set_ne (x ∷ xs) (suc i) (suc j) v ne =
    get_elem?-set_ne xs i j v (λ e. ne (ap (λ (n : ℕ). suc n) e))

pub get_elem?-replicate {ℓ} :
    {A : Type ℓ} (n i : ℕ) (v : A) → i < n → get_elem? (replicate n v) i ≡ some v
get_elem?-replicate zero i v h = absurd (omega arith)
get_elem?-replicate (suc n) zero v h = refl
get_elem?-replicate (suc n) (suc i) v h = get_elem?-replicate n i v (omega arith)

pub get_elem?-lt {ℓ} :
    {A : Type ℓ} (xs : List A) (i : ℕ) {v : A} → get_elem? xs i ≡ some v → i < length xs
get_elem?-lt [] i e = cc
get_elem?-lt (x ∷ xs) zero e = omega arith
get_elem?-lt (x ∷ xs) (suc i) e = omega (arith, get_elem?-lt xs i e)

-- A batch on its way to the concatenation of the fragments.
pub record Awaits (xs : List (List ℕ)) (b : FragmentBatch) : Type 0 where
  pub whole : b.total_size ≡ length (concat xs)
  pub fits : length (concat xs) < u64_mod
  pub addressable : length xs < u64_mod
  pub fills : Fills b.chunks xs
  pub counted : b.received ≡ filled b.chunks
  pub measured : b.received_bytes ≡ held b.chunks

-- The batch with the fragment of one more slot.
abbrev pub with_fragment : FragmentBatch → ℕ → List ℕ → FragmentBatch
with_fragment b i x = record b {
  chunks = set b.chunks i (some x);
  received = saturating_u64 (b.received + 1);
  received_bytes = b.received_bytes + length x;
}

module _ (xs : List (List ℕ)) (b : FragmentBatch) (w : Awaits xs b) (i : ℕ) (x : List ℕ)
    (mine : get_elem? xs i ≡ some x) (empty : get_elem? b.chunks i ≡ some none) where
  one_more : saturating_u64 (b.received + 1) ≡ filled b.chunks + 1
  one_more =
      saturating_u64_fits _
        (omega (arith, bound, w.addressable, w.counted, length-Fills b.chunks xs w.fills))
      ∙ omega (arith, w.counted)
    where
      bound : filled b.chunks + 1 ≤ length b.chunks
      bound = omega (
        arith,
        filled-set b.chunks i x empty,
        filled_bound (set b.chunks i (some x)),
        length-set b.chunks i (some x),
      )

  pub with_fragment-Awaits : Awaits xs (with_fragment b i x)
  with_fragment-Awaits = record {
    whole = w.whole;
    fits = w.fits;
    addressable = w.addressable;
    fills = Fills-set b.chunks xs i x w.fills mine;
    counted = one_more ∙ sym (filled-set b.chunks i x empty);
    measured = omega (arith, w.measured, held-set b.chunks i x empty);
  }

  small : b.received_bytes + length x ≤ length (concat xs)
  small = omega (arith, with_fragment-Awaits.measured, held-Fills _ xs with_fragment-Awaits.fills)

  -- The slot is filled.
  fill_slot_fits :
      (c : Connection) (key : FragmentKey)
      → fill_slot c loro key b i x (length x) ≡ store_batch c loro key (with_fragment b i x)
  unfolding fill_slot
  fill_slot_fits c key =
      rw (checked_add_fits b.received_bytes (length x) (omega (arith, small, w.fits)), fill_slot)
        (rw (not_over) refl)
    where
      not_over : ltb b.total_size (b.received_bytes + length x) ≡ false
      not_over = ge→ltb _ _ (omega (arith, small, w.whole))

  -- The fragment of a joined room is stored.
  pub on_fragment_stores :
      (c : Connection) (key : FragmentKey)
      → contains c.joined key.room_id ≡ true
      → find c.fragments key ≡ some b
      → on_fragment c loro key i x ≡ store_batch c loro key (with_fragment b i x)
  unfolding on_fragment on_known_batch on_slot
  on_fragment_stores c key joined found = rw joined (
      rw found (
        rw (empty, on_known_batch)
          (rw (try_from_fits u64_mod (length x) (omega (arith, small, w.fits)))
            (fill_slot_fits c key))))
