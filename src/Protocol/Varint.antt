-- ===== src/Protocol/Varint.antt =====
-- The LEB128 numbers of src/protocol.rs: what `uleb128` reads of their encoding, and the bounds of
-- whatever it reads.
use quorum_loro_gateway.Prelude.{
  ℕ, zero, suc, ◌+◌, ◌*◌, ◌/◌, ◌%◌, ◌^◌, ◌≤◌, ◌<◌, ◌≡◌, refl, sym, ap, ◌∙◌, ◌⊎◌, Bool, true, false,
  inl, inr, not, ◌&&◌, List, [], ◌∷◌, ltb, lt→ltb, leb, le→leb, ◌==◌, arith, if◌then◌else◌, length,
  ok, guard, ok_or, ok_or-eq-ok, ◌>>=◌, ◌>>◌, >>=-eq-ok, >>-eq-ok, ok-injective,
}
use mathlib.Core.Path.{subst}
use native.Mathlib.Decide.{dec_lt}
use native.Mathlib.Numerals.{towards_suc}
use quorum_loro_gateway.Bytes.{u64_mod, checked_add, checked_add_fits, checked_add-eq-some}
use quorum_loro_gateway.Cursor.{
  Window, Window-split, take_bytes, Window-take_bytes, take_bytes-eq-ok,
}
use quorum_loro_gateway.Protocol.{
  ProtocolDecodeError, truncated, length_overflow, take, byte, first_of, uleb128_rounds, uleb128,
}

-- The shortest LEB128 encoding, of at most `n` + 1 bytes.
unfoldable pub to_leb : ℕ → ℕ → List ℕ
to_leb zero v = v ∷ []
to_leb (suc n) v =
    let rest = to_leb n (v / 128) in if ltb v 128 then v ∷ [] else (128 + v % 128) ∷ rest

ge→ltb : (a b : ℕ) → b ≤ a → ltb a b ≡ false
ge→ltb a b h = ground arith

-- No bit of the byte falls off the top.
in_range : (s b : ℕ) → (s < 63) ⊎ (b < 2) → ((s == 63) && ltb 1 b) ≡ false
in_range s b (inl h) = ground arith
in_range s b (inr h) = ground arith

shorter : (n v : ℕ) → v < 2 * 128 ^ suc n → v / 128 < 2 * 128 ^ n
shorter n v h = omega arith

pow_step : (s : ℕ) → 2 ^ (s + 7) ≡ 128 * 2 ^ s
pow_step s = simp towards_suc (omega arith)

digit_sum : (r v p : ℕ) → r + v % 128 * p + v / 128 * (128 * p) ≡ r + v * p
digit_sum r v p =
    let split : v ≡ 128 * (v / 128) + v % 128 = omega arith in
    omega (arith, ap (λ (t : ℕ). t * p) split)

module _ (input : List ℕ) (small : length input < u64_mod) where
  pub Window-byte :
      (cursor b next : ℕ) → Window input cursor (b ∷ []) next → byte input cursor ≡ ok (b, next)
  unfolding byte take
  Window-byte cursor b next w =
      rw (Window-take_bytes truncated truncated input small cursor 1 (b ∷ []) next refl w)

  -- One round that ends the number, and one that goes on.
  last_round :
      (n b r s cursor next : ℕ)
      → b < 128
      → (s < 63) ⊎ (b < 2)
      → Window input cursor (b ∷ []) next
      → uleb128_rounds (suc n) input r s cursor ≡ ok (r + b * 2 ^ s, next)
  unfolding uleb128_rounds
  last_round n b r s cursor next low fits w =
      let same : b % 128 ≡ b = omega arith in
      let fits' = subst (λ (k : ℕ). (s < 63) ⊎ (k < 2)) (sym same) fits in
      rw (Window-byte cursor b next w, in_range s (b % 128) fits', lt→ltb b 128 low)
        (ap (λ (k : ℕ). ok (r + k * 2 ^ s, next)) same)

  next_round :
      (n b r s cursor mid : ℕ)
      → b < 128
      → s + 7 ≤ 63
      → Window input cursor ((128 + b) ∷ []) mid
      → uleb128_rounds (suc n) input r s cursor ≡ uleb128_rounds n input (r + b * 2 ^ s) (s + 7) mid
  unfolding uleb128_rounds
  next_round n b r s cursor mid low room w =
      let same : (128 + b) % 128 ≡ b = omega arith in
      rw
        (
          Window-byte cursor (128 + b) mid w,
          in_range s ((128 + b) % 128) (inl (omega arith)),
          ge→ltb (128 + b) 128 (omega arith),
          checked_add_fits s 7 (omega arith),
          le→leb (s + 7) 63 room,
        )
        (ap (λ (k : ℕ). uleb128_rounds n input (r + k * 2 ^ s) (s + 7) mid) same)

  rounds-to_leb :
      (n v r s cursor next : ℕ)
      → s + 7 * n ≡ 63
      → v < 2 * 128 ^ n
      → Window input cursor (to_leb n v) next
      → uleb128_rounds (suc n) input r s cursor ≡ ok (r + v * 2 ^ s, next)
  unfolding to_leb
  rounds-to_leb zero v r s cursor next e h w =
      last_round 0 v r s cursor next (omega arith) (inr (omega arith)) w
  rounds-to_leb (suc n) v r s cursor next e h w = elim (dec_lt v 128) [
    | yes low ↦
        last_round (suc n) v r s cursor next low (inl (omega arith))
          (subst (λ (l : List ℕ). Window input cursor l next) (rw (lt→ltb v 128 low)) w)
    | no high ↦
        let w' : Window input cursor ((128 + v % 128) ∷ to_leb n (v / 128)) next =
          subst (λ (l : List ℕ). Window input cursor l next) (rw (ge→ltb v 128 (omega arith))) w in
        let p =
          Window-split input cursor ((128 + v % 128) ∷ []) (to_leb n (v / 128)) (cursor + 1) next
            refl w' in
        next_round (suc n) (v % 128) r s cursor (cursor + 1) (omega arith) (omega arith) p.0
        ∙ (rounds-to_leb n (v / 128) (r + v % 128 * 2 ^ s) (s + 7) (cursor + 1) next (omega arith)
              (shorter n v h) p.1
            ∙ ap (λ (k : ℕ). ok (k, next)) (rw (pow_step s) (digit_sum r v (2 ^ s))))
  ]

  -- `uleb128` reads back every `u64` from where its LEB128 encoding stands, in an array below 2^64
  -- bytes, and moves the cursor behind it.
  pub uleb128-to_leb :
      (v cursor next : ℕ)
      → v < u64_mod
      → Window input cursor (to_leb 9 v) next
      → uleb128 input cursor ≡ ok (v, next)
  unfolding uleb128
  uleb128-to_leb v cursor next h w =
      rounds-to_leb 9 v 0 0 cursor next refl h w ∙ ap (λ (k : ℕ). ok (k, next)) (omega arith)

-- What a number read at `cursor`, of at most `n` bytes, is.
pub record IsRead (input : List ℕ) (n cursor v next : ℕ) : Type 0 where
  pub value_u64 : v < u64_mod
  pub advances : cursor < next
  pub short : next ≤ cursor + n
  pub within : next ≤ length input

module _ (input : List ℕ) where
  pub byte-eq-ok :
      (cursor : ℕ) {b next : ℕ}
      → byte input cursor ≡ ok (b, next)
      → (next ≡ cursor + 1) × (next ≤ length input) × Window input cursor (b ∷ []) next
  unfolding byte take
  byte-eq-ok cursor {b} {next} e =
      let (t, p, q) = >>=-eq-ok (take_bytes truncated truncated input cursor 1) _ e in
      let (w, n) = take_bytes-eq-ok truncated truncated input cursor 1 p in
      subst
        (λ (r : ℕ × ℕ).
          (r.1 ≡ cursor + 1) × (r.1 ≤ length input) × Window input cursor (r.0 ∷ []) r.1)
        (ok-injective {E = ProtocolDecodeError} (first_of t.0, t.1) (b, next) q)
        (sym n, w.within, one_byte t.0 t.1 w n)
    where
      one_byte :
          (bytes : List ℕ) (end : ℕ)
          → Window input cursor bytes end
          → cursor + 1 ≡ end
          → Window input cursor (first_of bytes ∷ []) end
      one_byte [] end w n = absurd (omega (arith, w.next_eq, n))
      one_byte (x ∷ []) end w n = w
      one_byte (x ∷ y ∷ l) end w n = absurd (omega (arith, w.next_eq, n))

-- The sum after one round stays below the power of the next shift.
mul_grows : (a q : ℕ) → 1 ≤ q → a ≤ a * q
mul_grows a q h = grind arith

pow_pos : (n : ℕ) → 1 ≤ 128 ^ n
pow_pos zero = omega arith
pow_pos (suc n) = omega (arith, pow_pos n)

digit_bound : (r b p : ℕ) → r < p → r + b % 128 * p < 128 * p
digit_bound r b p h = grind arith

not-true : (b : Bool) → not b ≡ true → b ≡ false
not-true true e = cc
not-true false e = refl

shift_factor : (p q : ℕ) → 128 * p * q ≡ p * (q * 128)
shift_factor p q = grind arith

regroup : (p n : ℕ) → 128 * p * 128 ^ n ≡ p * 128 ^ suc n
regroup p n = shift_factor p (128 ^ n) ∙ ap (λ (t : ℕ). p * t) (omega arith)

sum_bound :
    (n r s b p : ℕ)
    → r < p
    → p * 128 ^ n ≡ 2 ^ 63
    → s + 7 * n ≡ 63
    → ((s == 63) && ltb 1 (b % 128)) ≡ false
    → r + b % 128 * p < u64_mod
sum_bound zero r s b p h e f g =
    let whole : p ≡ 2 ^ 63 = omega (arith, e) in
    let bit : b % 128 ≤ 1 = top_bit s (b % 128) (omega arith) g in
    rw whole (omega (arith, h, whole))
  where
    top_bit : (s d : ℕ) → s ≡ 63 → ((s == 63) && ltb 1 d) ≡ false → d ≤ 1
    top_bit s d e g = ground arith
sum_bound (suc n) r s b p h e f g =
    omega (arith, digit_bound r b p h, mul_grows (128 * p) (128 ^ n) (pow_pos n), regroup p n, e)

module _ (input : List ℕ) where
  after_byte :
      (n r s p b cursor mid v next : ℕ)
      → r < p
      → p ≡ 2 ^ s
      → p * 128 ^ n ≡ 2 ^ 63
      → s + 7 * n ≡ 63
      → ((s == 63) && ltb 1 (b % 128)) ≡ false
      → mid ≡ cursor + 1
      → mid ≤ length input
      → ((r' : ℕ)
          → r' < 128 * p
          → uleb128_rounds n input r' (s + 7) mid ≡ ok (v, next)
          → IsRead input n mid v next)
      → (test : Bool)
      → elim test [
        | true ↦ ok (r + b % 128 * 2 ^ s, mid)
        | false ↦ ok_or (checked_add s 7) length_overflow >>= λ s'.
            guard (leb s' 63) length_overflow >> uleb128_rounds n input (r + b % 128 * 2 ^ s) s' mid
      ]
        ≡ ok (v, next)
      → IsRead input (suc n) cursor v next
  after_byte n r s p b cursor mid v next low power whole shift g at within ih true e =
      let same = ok-injective {E = ProtocolDecodeError} (r + b % 128 * 2 ^ s, mid) (v, next) e in
      let value : r + b % 128 * p ≡ v = rw power (ap (λ (t : ℕ × ℕ). t.0) same) in
      let end : mid ≡ next = ap (λ (t : ℕ × ℕ). t.1) same in
      record {
        value_u64 = omega (arith, sum_bound n r s b p low whole shift g, value);
        advances = omega (arith, at, end);
        short = omega (arith, at, end);
        within = omega (arith, within, end);
      }
  after_byte n r s p b cursor mid v next low power whole shift g at within ih false e =
      let (s', a, e₁) = >>=-eq-ok (ok_or (checked_add s 7) length_overflow) _ e in
      let (_, e₂) = >>-eq-ok (leb s' 63) length_overflow _ e₁ in
      let (sum, _) = checked_add-eq-some s 7 (ok_or-eq-ok (checked_add s 7) length_overflow a) in
      let rest =
        ih (r + b % 128 * 2 ^ s)
          (omega
            (arith, subst (λ (t : ℕ). r + b % 128 * t < 128 * p) power (digit_bound r b p low)))
          (subst (λ (t : ℕ). uleb128_rounds n input (r + b % 128 * 2 ^ s) t mid ≡ ok (v, next))
            (sym sum) e₂) in
      record {
        value_u64 = rest.value_u64;
        advances = omega (arith, at, rest.advances);
        short = omega (arith, at, rest.short);
        within = rest.within;
      }

  rounds_bounds :
      (n r s p cursor v next : ℕ)
      → r < p
      → p ≡ 2 ^ s
      → p * 128 ^ n ≡ 2 ^ 70
      → s + 7 * n ≡ 70
      → uleb128_rounds n input r s cursor ≡ ok (v, next)
      → IsRead input n cursor v next
  unfolding uleb128_rounds
  rounds_bounds zero r s p cursor v next low power whole shift e = cc
  rounds_bounds (suc n) r s p cursor v next low power whole shift e =
      let (t, a, e₁) = >>=-eq-ok (byte input cursor) _ e in
      let (g, e₂) = >>-eq-ok (not ((s == 63) && ltb 1 (t.0 % 128))) length_overflow _ e₁ in
      let (at, within, _) = byte-eq-ok input cursor a in
      after_byte n r s p t.0 cursor t.1 v next low power (omega (arith, whole, regroup p n))
        (omega arith) (not-true ((s == 63) && ltb 1 (t.0 % 128)) g) at within
        (λ r' h f.
          rounds_bounds n r' (s + 7) (128 * p) t.1 v next h
            (ap (λ (k : ℕ). 128 * k) power ∙ sym (pow_step s)) (regroup p n ∙ whole) (omega arith)
            f)
        (ltb t.0 128) e₂

  -- A number that `uleb128` reads is a `u64`, and its encoding takes at least one byte and at most ten,
  -- all of them in the array.
  pub uleb128-IsRead :
      (cursor v next : ℕ) → uleb128 input cursor ≡ ok (v, next) → IsRead input 10 cursor v next
  unfolding uleb128
  uleb128-IsRead cursor v next e =
      rounds_bounds 10 0 0 1 cursor v next (omega arith) refl refl refl e
