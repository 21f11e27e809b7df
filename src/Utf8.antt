-- ===== src/Utf8.antt =====
-- `std::str::from_utf8(bytes).is_ok()`: a Rust `String` is a byte string that passes this test.
use quorum_loro_gateway.Prelude.{
  ℕ, ◌-◌, ◌≡◌, refl, ◌&&◌, Bool, false, Option, none, some, List, [], ◌∷◌, leb, ltb, ◌==◌,
  if◌then◌else◌,
}

-- How many continuation bytes are to come, and the range of the next one.
record Utf8State : Type 0 where
  need : ℕ
  low : ℕ
  high : ℕ

expect : ℕ → ℕ → ℕ → Option Utf8State
expect need low high = some (record { need = need; low = low; high = high })

first_byte : ℕ → Option Utf8State
unfolding expect
first_byte b =
    if ltb b 0x80
    then expect 0 0x80 0xbf
    else if ltb b 0xc2
    then none
    else if ltb b 0xe0
    then expect 1 0x80 0xbf
    else if b == 0xe0
    then expect 2 0xa0 0xbf
    else if b == 0xed
    then expect 2 0x80 0x9f
    else if ltb b 0xf0
    then expect 2 0x80 0xbf
    else if b == 0xf0
    then expect 3 0x90 0xbf
    else if ltb b 0xf4
    then expect 3 0x80 0xbf
    else if b == 0xf4
    then expect 3 0x80 0x8f
    else none

utf8_step : Utf8State → ℕ → Option Utf8State
unfolding expect first_byte
utf8_step s b =
    if s.need == 0
    then first_byte b
    else if leb s.low b && leb b s.high
    then expect (s.need - 1) 0x80 0xbf
    else none

utf8_from : Utf8State → List ℕ → Bool
unfolding utf8_step
utf8_from s [] = s.need == 0
utf8_from s (b ∷ bs) = elim (utf8_step s b) [ none ↦ false | some s' ↦ utf8_from s' bs ]

unfoldable pub is_utf8 : List ℕ → Bool
unfolding utf8_from
is_utf8 bytes = utf8_from (record { need = 0; low = 0x80; high = 0xbf }) bytes

abbrev euro_sign : List ℕ
euro_sign = 0xe2 ∷ 0x82 ∷ 0xac ∷ []

abbrev surrogate : List ℕ
surrogate = 0xed ∷ 0xa0 ∷ 0x80 ∷ []

accepts_euro_sign : is_utf8 euro_sign ≡ Bool.true
unfolding is_utf8
accepts_euro_sign = refl

rejects_surrogate : is_utf8 surrogate ≡ false
unfolding is_utf8
rejects_surrogate = refl
