-- ===== src/Bytes.antt =====
-- Numbers of 16, 32 and 64 bits as bytes, highest byte first (`to_be_bytes`, `from_be_bytes` in
-- src/frame.rs, src/manifest.rs and src/checkpoint.rs), sums that fit a 64-bit `usize`
-- (`checked_add`), and slices of byte arrays by offsets (`input.get(a..b)`).
use Prim.Native.Char.{code}
use Prim.Native.String.{String}
use quorum_loro_gateway.Prelude.{
  ℕ, zero, suc, ◌+◌, ◌-◌, ◌*◌, ◌/◌, ◌%◌, ◌^◌, ◌≤◌, ◌<◌, ◌≡◌, refl, sym, ap, ◌∙◌, ◌&&◌, Option, none,
  some, List, [], ◌∷◌, arith, ltb, leb, if◌then◌else◌, length, take, drop, All,
}
use native.Mathlib.Nat.{
  div-add-mod, div-eq_of_lt-le, mod-lt, mod-eq_of_lt, add-mul-mod_self_left, pow-succ', one-le-pow,
}

abbrev pub IsByte : ℕ → Type 0
IsByte b = b < 256

abbrev pub u16_mod : ℕ
u16_mod = 2 ^ 16

abbrev pub u32_mod : ℕ
u32_mod = 2 ^ 32

-- `u64` and `usize`
abbrev pub u64_mod : ℕ
u64_mod = 2 ^ 64

unfoldable pub checked_add : ℕ → ℕ → Option ℕ
checked_add a b = if ltb (a + b) u64_mod then some (a + b) else none

unfoldable pub checked_sub : ℕ → ℕ → Option ℕ
checked_sub a b = if leb b a then some (a - b) else none

unfoldable pub checked_mul : ℕ → ℕ → Option ℕ
checked_mul a b = if ltb (a * b) u64_mod then some (a * b) else none

-- `u16::try_from(value)` and the like, by the number of values of the target type.
unfoldable pub try_from : ℕ → ℕ → Option ℕ
try_from bound v = if ltb v bound then some v else none

-- `u64::try_from(value).unwrap_or(u64::MAX)`
unfoldable pub saturating_u64 : ℕ → ℕ
saturating_u64 v = if ltb v u64_mod then v else u64_mod - 1

pub saturating_u64_fits : (v : ℕ) → v < u64_mod → saturating_u64 v ≡ v
unfolding saturating_u64
saturating_u64_fits v h = ground arith

pub checked_sub-eq-some : (a b : ℕ) {d : ℕ} → checked_sub a b ≡ some d → (b ≤ a) × (a - b ≡ d)
unfolding checked_sub
checked_sub-eq-some a b h = ground arith

pub checked_sub_fits : (a b : ℕ) → b ≤ a → checked_sub a b ≡ some (a - b)
unfolding checked_sub
checked_sub_fits a b h = ground arith

pub checked_mul-eq-some : (a b : ℕ) {p : ℕ} → checked_mul a b ≡ some p → (a * b ≡ p) × (p < u64_mod)
unfolding checked_mul
checked_mul-eq-some a b h = ground arith

pub checked_mul_fits : (a b : ℕ) → a * b < u64_mod → checked_mul a b ≡ some (a * b)
unfolding checked_mul
checked_mul_fits a b h = ground arith

pub try_from-eq-some : (bound v : ℕ) {u : ℕ} → try_from bound v ≡ some u → (v ≡ u) × (u < bound)
unfolding try_from
try_from-eq-some bound v h = ground arith

pub try_from_fits : (bound v : ℕ) → v < bound → try_from bound v ≡ some v
unfolding try_from
try_from_fits bound v h = ground arith

pub checked_add-eq-some : (a b : ℕ) {s : ℕ} → checked_add a b ≡ some s → (a + b ≡ s) × (s < u64_mod)
unfolding checked_add
checked_add-eq-some a b h = ground arith

pub checked_add_fits : (a b : ℕ) → a + b < u64_mod → checked_add a b ≡ some (a + b)
unfolding checked_add
checked_add_fits a b h = ground arith

-- `value.to_be_bytes()` for a value of `w` bytes.
unfoldable pub to_be : ℕ → ℕ → List ℕ
to_be zero v = []
to_be (suc w) v = (v / 256 ^ w % 256) ∷ to_be w v

unfoldable pub from_be : List ℕ → ℕ
from_be [] = 0
from_be (b ∷ bs) = b * 256 ^ length bs + from_be bs

pub length-to_be : (w v : ℕ) → length (to_be w v) ≡ w
unfolding to_be
length-to_be zero v = refl
length-to_be (suc w) v = ap suc (length-to_be w v)

pub to_be-IsByte : (w v : ℕ) → All IsByte (to_be w v)
unfolding to_be
to_be-IsByte zero v = tt
to_be-IsByte (suc w) v = (omega arith, to_be-IsByte w v)

split_digit : (v p : ℕ) → v / p % 256 * p + v % p + 256 * p * (v / p / 256) ≡ v
split_digit v p = omega (arith, div-add-mod v p, ap (λ (t : ℕ). t * p) (div-add-mod (v / p) 256))

digit_bound : (q p r : ℕ) → r < p → q % 256 * p + r < 256 * p
digit_bound q p r h = grind (arith, mod-lt q {m = 256} (omega arith))

from_be-to_be_step : (v p : ℕ) → 0 < p → v / p % 256 * p + v % p ≡ v % (256 * p)
from_be-to_be_step v p h = sym (
    ap (λ (t : ℕ). t % (256 * p)) (sym (split_digit v p))
    ∙ add-mul-mod_self_left (v / p % 256 * p + v % p) (256 * p) (v / p / 256)
    ∙ mod-eq_of_lt (digit_bound (v / p) p (v % p) (mod-lt v h)))

from_be-to_be_mod : (w v : ℕ) → from_be (to_be w v) ≡ v % 256 ^ w
unfolding from_be to_be
from_be-to_be_mod zero v = omega arith
from_be-to_be_mod (suc w) v =
    rw (length-to_be w v, from_be-to_be_mod w v, pow-succ')
      (from_be-to_be_step v (256 ^ w) (one-le-pow w 256 (omega arith)))

-- A number that fits is read back from its bytes.
pub from_be-to_be : (w v : ℕ) → v < 256 ^ w → from_be (to_be w v) ≡ v
from_be-to_be w v h = from_be-to_be_mod w v ∙ mod-eq_of_lt h

pub from_be-lt-pow : (bs : List ℕ) → All IsByte bs → from_be bs < 256 ^ length bs
unfolding from_be
from_be-lt-pow [] h = omega arith
from_be-lt-pow (b ∷ bs) h = rw pow-succ' (grind (arith, from_be-lt-pow bs h.1, h.0))

high_digit : (b p r : ℕ) → r < p → (b * p + r) / p ≡ b
high_digit b p r h = div-eq_of_lt-le p (omega arith) (omega arith)

same_high : (b c p r s : ℕ) → r < p → s < p → b * p + r ≡ c * p + s → b ≡ c
same_high b c p r s hr hs e =
    sym (high_digit b p r hr) ∙ ap (λ (t : ℕ). t / p) e ∙ high_digit c p s hs

same_low : (b c p r s : ℕ) → b ≡ c → b * p + r ≡ c * p + s → r ≡ s
same_low b c p r s q e = omega (arith, ap (λ (t : ℕ). t * p) q)

-- Byte strings of one length that stand for one number are equal.
from_be-injective :
    (bs cs : List ℕ)
    → All IsByte bs
    → All IsByte cs
    → length bs ≡ length cs
    → from_be bs ≡ from_be cs
    → bs ≡ cs
unfolding from_be
from_be-injective [] [] hb hc l e = refl
from_be-injective [] (c ∷ cs) hb hc l e = absurd (omega arith)
from_be-injective (b ∷ bs) [] hb hc l e = absurd (omega arith)
from_be-injective (b ∷ bs) (c ∷ cs) hb hc l e =
    let p = 256 ^ length bs in
    let l' : length bs ≡ length cs = omega arith in
    let e' : b * p + from_be bs ≡ c * p + from_be cs = rw (ap (λ (k : ℕ). 256 ^ k) (sym l')) at e in
    let hs : from_be cs < p = rw (← l') at (from_be-lt-pow cs hc.1) in
    let q = same_high b c p (from_be bs) (from_be cs) (from_be-lt-pow bs hb.1) hs e' in
    let tails =
      from_be-injective bs cs hb.1 hc.1 l' (same_low b c p (from_be bs) (from_be cs) q e') in
    cc (q, tails)

-- The bytes of a number that was read are the bytes that it was read from.
pub to_be-from_be :
    (w : ℕ) (bs : List ℕ) → All IsByte bs → length bs ≡ w → to_be w (from_be bs) ≡ bs
to_be-from_be w bs h l =
    from_be-injective (to_be w (from_be bs)) bs (to_be-IsByte w (from_be bs)) h
      (length-to_be w (from_be bs) ∙ sym l)
      (from_be-to_be w (from_be bs) (rw l at (from_be-lt-pow bs h)))

pub from_be-lt : (w : ℕ) (bs : List ℕ) → All IsByte bs → length bs ≡ w → from_be bs < 256 ^ w
from_be-lt w bs h l = rw l at (from_be-lt-pow bs h)

-- `input.get(a..b)`
unfoldable pub get_range? : List ℕ → ℕ → ℕ → Option (List ℕ)
get_range? input a b =
    if leb a b && leb b (length input) then some (take (b - a) (drop a input)) else none

-- A text's UTF-8 bytes, for texts in ASCII.
abbrev pub codes : String → List ℕ
codes String.[] = []
codes (String.◌∷◌ c s) = code c ∷ codes s

abbrev two_bytes : List ℕ
two_bytes = 1 ∷ 44 ∷ []

be_bytes : to_be 2 300 ≡ two_bytes
unfolding to_be
be_bytes = refl

be_value : from_be two_bytes ≡ 300
unfolding from_be
be_value = refl
