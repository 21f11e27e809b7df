-- ===== src/Server/Fragments.antt =====
-- The map of fragment batches: what its operations keep.
use quorum_loro_gateway.Prelude.{
  ℕ, ◌+◌, ◌≤◌, ◌≡◌, refl, inl, inr, Bool, true, false, Bool-cases, ◌||◌, or_true, ◌⊎◌, Option, none,
  some, List, [], ◌∷◌, leb, arith, All, bytes_eq, bytes_eq→eq, if◌then◌else◌, length,
}
use mathlib.Core.Path.{subst}
use quorum_loro_gateway.Bytes.{checked_add-eq-some}
use quorum_loro_gateway.Server.{
  FragmentKey, FragmentBatch, Batches, key_eq, contains, leave_set, find, remove, replace,
  retain_others, reserved_bytes, expire_batches,
}

-- The first map has the entries of the second one but for some, in order.
pub data Part : Batches → Batches → Type 0 where
  done : Part [] []
  keep : (e : FragmentKey × FragmentBatch) {m n : Batches} → Part m n → Part (e ∷ m) (e ∷ n)
  skip : (e : FragmentKey × FragmentBatch) {m n : Batches} → Part m n → Part m (e ∷ n)

abbrev pub total_sizes : Batches → ℕ
total_sizes [] = 0
total_sizes ((k, b) ∷ m) = b.total_size + total_sizes m

pub length-Part : {m n : Batches} → Part m n → length m ≤ length n
length-Part done = omega arith
length-Part (keep e p) = omega (arith, length-Part p)
length-Part (skip e p) = omega (arith, length-Part p)

pub total_sizes-Part : {m n : Batches} → Part m n → total_sizes m ≤ total_sizes n
total_sizes-Part done = omega arith
total_sizes-Part (keep (k, b) p) = omega (arith, total_sizes-Part p)
total_sizes-Part (skip (k, b) p) = omega (arith, total_sizes-Part p)

pub All-Part :
    (P : FragmentKey × FragmentBatch → Type 0) {m n : Batches} → Part m n → All P n → All P m
All-Part P done h = h
All-Part P (keep e p) h = (h.0, All-Part P p h.1)
All-Part P (skip e p) h = All-Part P p h.1

skip_or_keep :
    (b : Bool) (e : FragmentKey × FragmentBatch) (m n : Batches)
    → Part m n
    → Part (if b then m else e ∷ m) (e ∷ n)
skip_or_keep true e m n p = skip e p
skip_or_keep false e m n p = keep e p

pub remove-Part : (m : Batches) (key : FragmentKey) → Part (remove m key) m
unfolding remove
remove-Part [] key = done
remove-Part ((k, b) ∷ m) key =
    skip_or_keep (key_eq k key) (k, b) (remove m key) m (remove-Part m key)

pub retain_others-Part : (m : Batches) (room : List ℕ) → Part (retain_others m room) m
unfolding retain_others
retain_others-Part [] room = done
retain_others-Part ((k, b) ∷ m) room =
    skip_or_keep (bytes_eq k.room_id room) (k, b) (retain_others m room) m
      (retain_others-Part m room)

pub expire_batches-Part : (now : ℕ) (m : Batches) → Part (expire_batches now m).0 m
unfolding expire_batches
expire_batches-Part now [] = done
expire_batches-Part now ((k, b) ∷ m) = elim (Bool-cases (leb b.deadline now)) [
  | inl late ↦ rw late (skip (k, b) (expire_batches-Part now m))
  | inr live ↦ rw live (keep (k, b) (expire_batches-Part now m))
]

-- The rooms of the batches that stay are not the room that was left.
pub retain_others-ne :
    (m : Batches) (room : List ℕ)
    → All (λ e. bytes_eq e.0.room_id room ≡ false) (retain_others m room)
unfolding retain_others
retain_others-ne [] room = tt
retain_others-ne ((k, b) ∷ m) room = elim (Bool-cases (bytes_eq k.room_id room)) [
  | inl same ↦ rw same (retain_others-ne m room)
  | inr other ↦ rw other (other, retain_others-ne m room)
]

pub All-find :
    (Q : FragmentBatch → Type 0) (m : Batches) (key : FragmentKey) (b : FragmentBatch)
    → find m key ≡ some b
    → All (λ e. Q e.1) m
    → Q b
unfolding find
All-find Q [] key b e h = cc
All-find Q ((k, c) ∷ m) key b e h = elim (Bool-cases (key_eq k key)) [
  | inl same ↦ subst Q (some_injective c b (rw same at e)) h.0
  | inr other ↦ All-find Q m key b (rw other at e) h.1
]
  where
    some_injective : (x y : FragmentBatch) → some x ≡ some y → x ≡ y
    some_injective x y e = cc

module _ (key : FragmentKey) (batch : FragmentBatch) where
  pub All-replace :
      (Q : FragmentBatch → Type 0) (m : Batches)
      → Q batch
      → All (λ e. Q e.1) m
      → All (λ e. Q e.1) (replace m key batch)
  unfolding replace
  All-replace Q [] q h = tt
  All-replace Q ((k, b) ∷ m) q h = elim (Bool-cases (key_eq k key)) [
    | inl same ↦ rw same (q, h.1)
    | inr other ↦ rw other (h.0, All-replace Q m q h.1)
  ]

  pub All-replace_keys :
      (K : FragmentKey → Type 0) (m : Batches)
      → All (λ e. K e.0) m
      → All (λ e. K e.0) (replace m key batch)
  unfolding replace
  All-replace_keys K [] h = tt
  All-replace_keys K ((k, b) ∷ m) h = elim (Bool-cases (key_eq k key)) [
    | inl same ↦ rw same h
    | inr other ↦ rw other (h.0, All-replace_keys K m h.1)
  ]

  pub length-replace : (m : Batches) → length (replace m key batch) ≡ length m
  unfolding replace
  length-replace [] = refl
  length-replace ((k, b) ∷ m) = elim (Bool-cases (key_eq k key)) [
    | inl same ↦ rw same
    | inr other ↦ rw other (omega (arith, length-replace m))
  ]

  -- A batch that is written back with its size keeps what is reserved.
  pub total_sizes-replace :
      (m : Batches) (old : FragmentBatch)
      → find m key ≡ some old
      → batch.total_size ≡ old.total_size
      → total_sizes (replace m key batch) ≡ total_sizes m
  unfolding replace find
  total_sizes-replace [] old e size = cc
  total_sizes-replace ((k, b) ∷ m) old e size = elim (Bool-cases (key_eq k key)) [
    | inl same ↦ let found = size_of b old (rw same at e) in rw same (omega (arith, size, found))
    | inr other ↦ rw other (omega (arith, total_sizes-replace m old (rw other at e) size))
  ]
    where
      size_of : (x y : FragmentBatch) → some x ≡ some y → x.total_size ≡ y.total_size
      size_of x y e = cc

checked_step :
    (o : Option ℕ) (next : ℕ → Option ℕ) {r : ℕ}
    → elim o as (λ _. Option ℕ) [ none ↦ none | some n ↦ next n ] ≡ some r
    → (n : ℕ) × (o ≡ some n) × (next n ≡ some r)
checked_step none next e = cc
checked_step (some n) next e = (n, refl, e)

pub reserved_bytes-eq-some :
    (m : Batches) (sum : ℕ) {r : ℕ} → reserved_bytes sum m ≡ some r → sum + total_sizes m ≡ r
unfolding reserved_bytes
reserved_bytes-eq-some [] sum {r} e = omega (arith, number sum r e)
  where
    number : (x y : ℕ) → some x ≡ some y → x ≡ y
    number x y e = cc
reserved_bytes-eq-some ((k, b) ∷ m) sum e =
    let (n, added, rest) = checked_step _ (λ next. reserved_bytes next m) e in
    omega (arith, reserved_bytes-eq-some m n rest, checked_add-eq-some sum b.total_size added)

or_cases : (a b : Bool) → (a || b) ≡ true → (a ≡ true) ⊎ (b ≡ true)
or_cases true b e = inl refl
or_cases false b e = inr e

-- Leaving one room keeps the others.
pub contains-leave_set :
    (rooms : List (List ℕ)) (room other : List ℕ)
    → bytes_eq other room ≡ false
    → contains rooms other ≡ true
    → contains (leave_set rooms room) other ≡ true
unfolding contains leave_set
contains-leave_set [] room other ne e = e
contains-leave_set (r ∷ rooms) room other ne e =
    elim (or_cases (bytes_eq r other) (contains rooms other) e) [
      | inl here ↦
          let differs : bytes_eq r room ≡ false = rw (bytes_eq→eq r other here) ne in
          rw (differs, here)
      | inr later ↦ elim (Bool-cases (bytes_eq r room)) [
        | inl same ↦ rw same (contains-leave_set rooms room other ne later)
        | inr differs ↦
            rw differs
              (rw (contains-leave_set rooms room other ne later) (or_true (bytes_eq r other)))
      ]
    ]

pub find-remove : (m : Batches) (key : FragmentKey) → find (remove m key) key ≡ none
unfolding find remove
find-remove [] key = refl
find-remove ((k, b) ∷ m) key = elim (Bool-cases (key_eq k key)) [
  | inl same ↦ rw same (find-remove m key)
  | inr other ↦ rw other (rw other (find-remove m key))
]

pub find-replace :
    (m : Batches) (key : FragmentKey) (batch : FragmentBatch) {old : FragmentBatch}
    → find m key ≡ some old
    → find (replace m key batch) key ≡ some batch
unfolding find replace
find-replace [] key batch e = cc
find-replace ((k, b) ∷ m) key batch e = elim (Bool-cases (key_eq k key)) [
  | inl same ↦ rw same (rw same)
  | inr other ↦ rw other (rw other (find-replace m key batch (rw other at e)))
]

-- A batch whose deadline has not come stays.
pub find-expire_batches :
    (now : ℕ) (m : Batches) (key : FragmentKey) {b : FragmentBatch}
    → find m key ≡ some b
    → leb b.deadline now ≡ false
    → find (expire_batches now m).0 key ≡ some b
unfolding find expire_batches
find-expire_batches now [] key e live = cc
find-expire_batches now ((k, c) ∷ m) key {b} e live = elim (Bool-cases (key_eq k key)) [
  | inl same ↦ let here : c ≡ b = cc (rw same at e) in rw (here, live) (rw same)
  | inr other ↦ elim (Bool-cases (leb c.deadline now)) [
    | inl late ↦ rw late (find-expire_batches now m key (rw other at e) live)
    | inr early ↦ rw early (rw other (find-expire_batches now m key (rw other at e) live))
  ]
]
