-- ===== src/Prelude/Results.antt =====
-- Rust's `Result` with its `?` operator as bind, and the conversions that the code uses.
use mathlib.Core.Path.{◌≡◌, refl}
use mathlib.Core.Logic.{◌⊎◌, inl, inr}
use mathlib.Core.Bool.{Bool, true, false}
use mathlib.Core.Option.{Option, none, some}

pub data Result {ℓ} (E A : Type ℓ) : Type ℓ where
  ok : A → Result E A
  err : E → Result E A

abbrev pub ok_or {ℓ} : {E A : Type ℓ} → Option A → E → Result E A
ok_or none e = err e
ok_or (some a) e = ok a

abbrev pub map_err {ℓ} : {E F A : Type ℓ} → Result E A → (E → F) → Result F A
map_err (ok a) f = ok a
map_err (err e) f = err (f e)

-- `if !b { return Err(e) }`
abbrev pub guard {ℓ} : {E : Type ℓ} → Bool → E → Result E Unit
guard false problem = err problem
guard true problem = ok tt

infixl 5 ◌>>◌ ◌>>=◌
-- The `?` operator.
abbrev pub ◌>>=◌ {ℓ} : {E A B : Type ℓ} → Result E A → (A → Result E B) → Result E B
err problem >>= next = err problem
ok value >>= next = next value

abbrev pub ◌>>◌ {ℓ} : {E B : Type ℓ} → Result E Unit → Result E B → Result E B
check >> next = check >>= λ passed. next

module _ {ℓ} {E A B : Type ℓ} where
  -- Inversion of a successful bind.
  pub >>=-eq-ok :
      (first : Result E A) (next : A → Result E B) {result : B}
      → (first >>= next) ≡ ok result
      → (a : A) × (first ≡ ok a) × (next a ≡ ok result)
  >>=-eq-ok (err problem) next h = cc
  >>=-eq-ok (ok value) next h = (value, refl, h)

module _ {ℓ} {E : Type ℓ} where
  pub guard-eq-ok : (b : Bool) (e : E) {u : Unit} → guard b e ≡ ok u → b ≡ true
  guard-eq-ok true e h = refl
  guard-eq-ok false e h = cc

  pub >>-eq-ok :
      {B : Type ℓ} (c : Bool) (e : E) (k : Result E B) {b : B}
      → (guard c e >> k) ≡ ok b
      → (c ≡ true) × (k ≡ ok b)
  >>-eq-ok true e k h = (refl, h)
  >>-eq-ok false e k h = cc

module _ {ℓ} {E A : Type ℓ} where
  pub ok_or-eq-ok : (o : Option A) (e : E) {a : A} → ok_or o e ≡ ok a → o ≡ some a
  ok_or-eq-ok none e h = cc
  ok_or-eq-ok (some a) e h = cc

  pub Result-cases : (r : Result E A) → ((a : A) × (r ≡ ok a)) ⊎ ((e : E) × (r ≡ err e))
  Result-cases (ok a) = inl (a, refl)
  Result-cases (err e) = inr (e, refl)

  pub ok-injective : (a b : A) → ◌≡◌ {A = Result E A} (ok a) (ok b) → a ≡ b
  ok-injective a b h = cc

  pub err-ne-ok : (e : E) (a : A) → ◌≡◌ {A = Result E A} (err e) (ok a) → ⊥
  err-ne-ok e a h = cc
