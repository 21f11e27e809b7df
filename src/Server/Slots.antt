-- ===== src/Server/Slots.antt =====
-- The slots of a vector, and how many bytes the filled ones hold.
use quorum_loro_gateway.Prelude.{
  ℕ, zero, suc, ◌+◌, ◌≤◌, ◌≡◌, refl, Option, none, some, List, [], ◌∷◌, arith, length, replicate,
}

module _ {ℓ} {A : Type ℓ} where
  abbrev pub get_elem? : List A → ℕ → Option A
  get_elem? [] i = none
  get_elem? (x ∷ xs) zero = some x
  get_elem? (x ∷ xs) (suc i) = get_elem? xs i

  -- A write out of bounds changes nothing.
  abbrev pub set : List A → ℕ → A → List A
  set [] i v = []
  set (x ∷ xs) zero v = v ∷ xs
  set (x ∷ xs) (suc i) v = x ∷ set xs i v

  pub length-set : (xs : List A) (i : ℕ) (v : A) → length (set xs i v) ≡ length xs
  length-set [] i v = refl
  length-set (x ∷ xs) zero v = refl
  length-set (x ∷ xs) (suc i) v = omega (arith, length-set xs i v)

-- The number of filled slots, and the bytes in them.
abbrev pub filled : List (Option (List ℕ)) → ℕ
filled [] = 0
filled (none ∷ slots) = filled slots
filled (some chunk ∷ slots) = suc (filled slots)

abbrev pub held : List (Option (List ℕ)) → ℕ
held [] = 0
held (none ∷ slots) = held slots
held (some chunk ∷ slots) = length chunk + held slots

pub filled_bound : (slots : List (Option (List ℕ))) → filled slots ≤ length slots
filled_bound [] = omega arith
filled_bound (none ∷ slots) = omega (arith, filled_bound slots)
filled_bound (some chunk ∷ slots) = omega (arith, filled_bound slots)

pub filled-set :
    (slots : List (Option (List ℕ))) (i : ℕ) (chunk : List ℕ)
    → get_elem? slots i ≡ some none
    → filled (set slots i (some chunk)) ≡ filled slots + 1
filled-set [] i chunk e = cc
filled-set (none ∷ slots) zero chunk e = omega arith
filled-set (some x ∷ slots) zero chunk e = cc
filled-set (none ∷ slots) (suc i) chunk e = filled-set slots i chunk e
filled-set (some x ∷ slots) (suc i) chunk e = omega (arith, filled-set slots i chunk e)

pub held-set :
    (slots : List (Option (List ℕ))) (i : ℕ) (chunk : List ℕ)
    → get_elem? slots i ≡ some none
    → held (set slots i (some chunk)) ≡ held slots + length chunk
held-set [] i chunk e = cc
held-set (none ∷ slots) zero chunk e = omega arith
held-set (some x ∷ slots) zero chunk e = cc
held-set (none ∷ slots) (suc i) chunk e = held-set slots i chunk e
held-set (some x ∷ slots) (suc i) chunk e = omega (arith, held-set slots i chunk e)

pub filled-replicate : (n : ℕ) → filled (replicate n none) ≡ 0
filled-replicate zero = refl
filled-replicate (suc n) = filled-replicate n

pub held-replicate : (n : ℕ) → held (replicate n none) ≡ 0
held-replicate zero = refl
held-replicate (suc n) = held-replicate n

pub length-replicate {ℓ} : {A : Type ℓ} (n : ℕ) (a : A) → length (replicate n a) ≡ n
length-replicate zero a = refl
length-replicate (suc n) a = omega (arith, length-replicate n a)
