-- ===== src/Cursor.antt =====
-- Reading a byte array at a cursor: `take`, `take_until`, `read_u16`, `read_u32` and `read_u64`,
-- which src/frame.rs, src/manifest.rs and src/checkpoint.rs each define over their own error type.
-- A function that moves `cursor: &mut usize` returns the new cursor beside its result.
use quorum_loro_gateway.Prelude.{
  ℕ, ◌+◌, ◌-◌, ◌^◌, ◌≤◌, ◌<◌, ◌≡◌, refl, sym, ap, ◌∙◌, some, List, ◌++◌, arith, leb, le→leb, leb→le,
  append-nil, [], append_assoc, take, drop, length, length-append, length-take, length-drop,
  take-append, drop-append, take-append-drop, drop-drop, drop-length, take-take, All,
  All-append_left, All-drop, ok-injective, Result, ok, ◌>>=◌, ◌>>◌, guard, ok_or, >>=-eq-ok,
  >>-eq-ok, ok_or-eq-ok,
}
use mathlib.Core.Path.{subst, subst₃}
use quorum_loro_gateway.Bytes.{
  IsByte, u64_mod, checked_add, to_be, from_be, length-to_be, from_be-to_be, to_be-from_be,
  from_be-lt, checked_add-eq-some, checked_add_fits, get_range?,
}

-- What stands at the cursor, up to the end of the array.
record At (input : List ℕ) (cursor : ℕ) (rest : List ℕ) : Type 0 where
  end : cursor + length rest ≡ length input
  rest_eq : drop cursor input ≡ rest

-- `bytes` stand at `cursor`, and end at `next`.
pub record Window (input : List ℕ) (cursor : ℕ) (bytes : List ℕ) (next : ℕ) : Type 0 where
  pub next_eq : next ≡ cursor + length bytes
  pub within : next ≤ length input
  pub split : drop cursor input ≡ bytes ++ drop next input

window_eq :
    (input : List ℕ) (cursor : ℕ) (bytes rest : List ℕ)
    → At input cursor (bytes ++ rest)
    → take (cursor + length bytes - cursor) (drop cursor input) ≡ bytes
window_eq input cursor bytes rest h =
    ap (take (cursor + length bytes - cursor)) h.rest_eq
    ∙ ap (λ (k : ℕ). take k (bytes ++ rest)) size
    ∙ take-append bytes rest
  where
    size : cursor + length bytes - cursor ≡ length bytes
    size = omega arith

get_range?-At :
    (input : List ℕ) (cursor : ℕ) (bytes rest : List ℕ)
    → At input cursor (bytes ++ rest)
    → get_range? input cursor (cursor + length bytes) ≡ some bytes
unfolding get_range?
get_range?-At input cursor bytes rest h =
    rw (le→leb _ _ low) (rw (le→leb _ _ high) (ap some (window_eq input cursor bytes rest h)))
  where
    low : cursor ≤ cursor + length bytes
    low = omega arith

    high : cursor + length bytes ≤ length input
    high = omega (arith, h.end, length-append bytes rest)

window_Window :
    (input : List ℕ) (a b : ℕ)
    → a ≤ b
    → b ≤ length input
    → Window input a (take (b - a) (drop a input)) b
window_Window input a b low high = record {
  next_eq = omega (arith, length-take (b - a) (drop a input), length-drop a input);
  within = high;
  split =
      sym (take-append-drop (b - a) (drop a input))
      ∙ ap (λ (l : List ℕ). take (b - a) (drop a input) ++ l)
          (drop-drop a (b - a) input ∙ ap (λ (k : ℕ). drop k input) (omega arith));
}

get_range?_range :
    (input : List ℕ) (a b : ℕ) {bytes : List ℕ}
    → get_range? input a b ≡ some bytes
    → (a ≤ b) × (b ≤ length input) × (take (b - a) (drop a input) ≡ bytes)
unfolding get_range?
get_range?_range input a b h = ground arith

pub get_range?-Window :
    (input : List ℕ) (a b : ℕ) {bytes : List ℕ}
    → get_range? input a b ≡ some bytes
    → Window input a bytes b
get_range?-Window input a b h =
    let r = get_range?_range input a b h in
    subst (λ (l : List ℕ). Window input a l b) r.2 (window_Window input a b r.0 r.1)

Window-At :
    (input : List ℕ) (cursor : ℕ) (bytes : List ℕ) (next : ℕ)
    → Window input cursor bytes next
    → At input cursor (bytes ++ drop next input)
Window-At input cursor bytes next w = record {
  end =
      omega
        (arith, w.next_eq, w.within, length-append bytes (drop next input), length-drop next input);
  rest_eq = w.split;
}

-- The front of an array.
pub Window_front :
    (input rest : List ℕ) (n : ℕ) → length input ≡ n → Window (input ++ rest) 0 input n
Window_front input rest n l = record {
  next_eq = omega (arith, l);
  within = omega (arith, length-append input rest);
  split =
      ap (λ (l : List ℕ). input ++ l) (sym (drop-append input rest))
      ∙ ap (λ (k : ℕ). input ++ drop k (input ++ rest)) l;
}

pub Window_self : (input : List ℕ) (n : ℕ) → length input ≡ n → Window input 0 input n
Window_self input n l =
    subst (λ (i : List ℕ). Window i 0 input n) (append-nil input) (Window_front input [] n l)

-- A piece is cut in two.
pub Window-split :
    (input : List ℕ) (cursor : ℕ) (xs ys : List ℕ) (mid next : ℕ)
    → cursor + length xs ≡ mid
    → Window input cursor (xs ++ ys) next
    → Window input cursor xs mid × Window input mid ys next
Window-split input cursor xs ys mid next l w =
    let tail : drop mid input ≡ ys ++ drop next input =
      ap (λ (k : ℕ). drop k input) (sym l)
      ∙ sym (drop-drop cursor (length xs) input)
      ∙ ap (drop (length xs)) (w.split ∙ append_assoc xs ys (drop next input))
      ∙ drop-append xs (ys ++ drop next input) in
    (
      record {
        next_eq = sym l;
        within = omega (arith, w.next_eq, w.within, length-append xs ys);
        split =
            w.split
            ∙ append_assoc xs ys (drop next input)
            ∙ ap (λ (l : List ℕ). xs ++ l) (sym tail);
      },
      record {
        next_eq = omega (arith, w.next_eq, length-append xs ys);
        within = w.within;
        split = tail;
      },
    )

pub Window_cast :
    (input : List ℕ) {a b : ℕ} {xs ys : List ℕ} {m n : ℕ}
    → a ≡ b
    → xs ≡ ys
    → m ≡ n
    → Window input a xs m
    → Window input b ys n
Window_cast input p q r w = subst₃ (Window input) p q r w

pub Window-empty :
    (input : List ℕ) (cursor : ℕ) → cursor ≤ length input → Window input cursor [] cursor
Window-empty input cursor h = record { next_eq = omega arith; within = h; split = refl }

-- A piece that starts an array is its front.
pub take-Window :
    (input : List ℕ) (bytes : List ℕ) (n : ℕ) → Window input 0 bytes n → take n input ≡ bytes
take-Window input bytes n w =
    ap (take n) w.split
    ∙ ap (λ (k : ℕ). take k (bytes ++ drop n input)) w.next_eq
    ∙ ap (λ (k : ℕ). take k (bytes ++ drop n input)) (omega arith)
    ∙ take-append bytes (drop n input)

-- The front of an array is the front of any longer front.
pub Window_restrict :
    (input frame bytes : List ℕ) (m n : ℕ)
    → Window input 0 frame n
    → Window input 0 bytes m
    → m ≤ n
    → Window frame 0 bytes m
Window_restrict input frame bytes m n f b low =
    let front : take m frame ≡ bytes =
      ap (take m) (sym (take-Window input frame n f))
      ∙ take-take m n input low
      ∙ take-Window input bytes m b in
    record {
      next_eq = b.next_eq;
      within = omega (arith, f.next_eq, low);
      split = sym (take-append-drop m frame) ∙ ap (λ (l : List ℕ). l ++ drop m frame) front;
    }

-- A piece that ends an array.
pub Window_back :
    (input : List ℕ) (cursor : ℕ) (bytes : List ℕ) (n : ℕ)
    → length input ≡ n
    → Window input cursor bytes n
    → drop cursor input ≡ bytes
Window_back input cursor bytes n l w =
    w.split
    ∙ ap (λ (l : List ℕ). bytes ++ l) (drop-length input n (omega (arith, l)))
    ∙ append-nil bytes

pub Window-get_range? :
    (input : List ℕ) (cursor : ℕ) (bytes : List ℕ) (next : ℕ)
    → Window input cursor bytes next
    → get_range? input cursor next ≡ some bytes
Window-get_range? input cursor bytes next w =
    ap (get_range? input cursor) w.next_eq
    ∙ get_range?-At input cursor bytes (drop next input) (Window-At input cursor bytes next w)

pub Window-All :
    (input : List ℕ) (cursor : ℕ) (bytes : List ℕ) (next : ℕ)
    → All IsByte input
    → Window input cursor bytes next
    → All IsByte bytes
Window-All input cursor bytes next all t =
    All-append_left IsByte bytes (drop next input)
      (subst (All IsByte) t.split (All-drop IsByte cursor input all))

-- Two pieces that were taken one after the other.
pub Window-append :
    (input : List ℕ) (cursor : ℕ) (xs : List ℕ) (mid : ℕ) (ys : List ℕ) (next : ℕ)
    → Window input cursor xs mid
    → Window input mid ys next
    → Window input cursor (xs ++ ys) next
Window-append input cursor xs mid ys next t u = record {
  next_eq = omega (arith, t.next_eq, u.next_eq, length-append xs ys);
  within = u.within;
  split =
      t.split ∙ ap (λ (l : List ℕ). xs ++ l) u.split ∙ sym (append_assoc xs ys (drop next input));
}

module _ {E : Type 0} (overflow truncated : E) where
  -- `end = cursor.checked_add(length)?; bytes = input.get(cursor..end)?; cursor = end`
  unfoldable pub take_bytes : List ℕ → ℕ → ℕ → Result E (List ℕ × ℕ)
  take_bytes input cursor n = do
    end ← ok_or (checked_add cursor n) overflow
    bytes ← ok_or (get_range? input cursor end) truncated
    ok (bytes, end)

  -- The same, where the end may not pass `limit`.
  unfoldable pub take_bytes_until : List ℕ → ℕ → ℕ → ℕ → Result E (List ℕ × ℕ)
  take_bytes_until input cursor n limit = do
    end ← ok_or (checked_add cursor n) overflow
    guard (leb end limit) truncated
    take_bytes input cursor n

  -- A big-endian number of `w` bytes.
  unfoldable pub read_be : ℕ → List ℕ → ℕ → Result E (ℕ × ℕ)
  read_be w input cursor = do (bytes, next) ← take_bytes input cursor w; ok (from_be bytes, next)

  take_bytes-At :
      (input : List ℕ) (cursor n : ℕ) (bytes rest : List ℕ)
      → length input < u64_mod
      → At input cursor (bytes ++ rest)
      → length bytes ≡ n
      → take_bytes input cursor n ≡ ok (bytes, cursor + n)
  unfolding take_bytes
  take_bytes-At input cursor n bytes rest small h l = rw (checked_add_fits cursor n fits) (
      rw (ap (λ (k : ℕ). get_range? input cursor (cursor + k)) (sym l))
        (rw (get_range?-At input cursor bytes rest h)))
    where
      fits : cursor + n < u64_mod
      fits = omega (arith, h.end, length-append bytes rest)

  take_bytes_until-At :
      (input : List ℕ) (cursor n limit : ℕ) (bytes rest : List ℕ)
      → length input < u64_mod
      → At input cursor (bytes ++ rest)
      → length bytes ≡ n
      → cursor + n ≤ limit
      → take_bytes_until input cursor n limit ≡ ok (bytes, cursor + n)
  unfolding take_bytes_until
  take_bytes_until-At input cursor n limit bytes rest small h l low =
      rw (checked_add_fits cursor n fits)
        (rw (le→leb _ _ low) (take_bytes-At input cursor n bytes rest small h l))
    where
      fits : cursor + n < u64_mod
      fits = omega (arith, h.end, length-append bytes rest)

  read_be-At :
      (w : ℕ) (input : List ℕ) (cursor v : ℕ) (rest : List ℕ)
      → length input < u64_mod
      → v < 256 ^ w
      → At input cursor (to_be w v ++ rest)
      → read_be w input cursor ≡ ok (v, cursor + w)
  unfolding read_be
  read_be-At w input cursor v rest small hv h =
      rw (take_bytes-At input cursor w (to_be w v) rest small h (length-to_be w v))
        (ap (λ (k : ℕ). ok (k, cursor + w)) (from_be-to_be w v hv))

  pub take_bytes-eq-ok :
      (input : List ℕ) (cursor n : ℕ) {bytes : List ℕ} {next : ℕ}
      → take_bytes input cursor n ≡ ok (bytes, next)
      → Window input cursor bytes next × (cursor + n ≡ next)
  unfolding take_bytes
  take_bytes-eq-ok input cursor n {bytes} {next} h =
      let (end, p, h1) = >>=-eq-ok (ok_or (checked_add cursor n) overflow) _ h in
      let (bs, q, h2) = >>=-eq-ok (ok_or (get_range? input cursor end) truncated) _ h1 in
      subst (λ (r : List ℕ × ℕ). Window input cursor r.0 r.1 × (cursor + n ≡ r.1))
        (ok-injective {E = E} (bs, end) (bytes, next) h2)
        (
          get_range?-Window input cursor end (ok_or-eq-ok _ truncated q),
          (checked_add-eq-some cursor n (ok_or-eq-ok _ overflow p)).0,
        )

  pub take_bytes_until-eq-ok :
      (input : List ℕ) (cursor n limit : ℕ) {bytes : List ℕ} {next : ℕ}
      → take_bytes_until input cursor n limit ≡ ok (bytes, next)
      → Window input cursor bytes next × (cursor + n ≡ next) × (next ≤ limit)
  unfolding take_bytes_until
  take_bytes_until-eq-ok input cursor n limit h =
      let (end, p, h1) = >>=-eq-ok (ok_or (checked_add cursor n) overflow) _ h in
      let (low, h2) = >>-eq-ok (leb end limit) truncated _ h1 in
      let t = take_bytes-eq-ok input cursor n h2 in
      let s = (checked_add-eq-some cursor n (ok_or-eq-ok _ overflow p)).0 in
      (t.0, t.1, omega (arith, leb→le end limit low))

  taken_number :
      (w : ℕ) (input : List ℕ) (cursor : ℕ) (bytes : List ℕ) (next : ℕ)
      → All IsByte input
      → Window input cursor bytes next
      → cursor + w ≡ next
      → Window input cursor (to_be w (from_be bytes)) next
        × (cursor + w ≡ next)
        × (from_be bytes < 256 ^ w)
  taken_number w input cursor bytes next all t e =
      let size : length bytes ≡ w = omega (arith, t.next_eq) in
      let bytes_all = Window-All input cursor bytes next all t in
      (rw (to_be-from_be w bytes bytes_all size) t, e, from_be-lt w bytes bytes_all size)

  -- Reading a number in a byte array takes the bytes of that number.
  pub read_be-eq-ok :
      (w : ℕ) (input : List ℕ) (cursor : ℕ) {v next : ℕ}
      → All IsByte input
      → read_be w input cursor ≡ ok (v, next)
      → Window input cursor (to_be w v) next × (cursor + w ≡ next) × (v < 256 ^ w)
  unfolding read_be
  read_be-eq-ok w input cursor {v} {next} all h =
      let ((bytes, next'), p, h1) = >>=-eq-ok (take_bytes input cursor w) _ h in
      let t = take_bytes-eq-ok input cursor w p in
      subst
        (λ (r : ℕ × ℕ).
          Window input cursor (to_be w r.0) r.1 × (cursor + w ≡ r.1) × (r.0 < 256 ^ w))
        (ok-injective {E = E} (from_be bytes, next') (v, next) h1)
        (taken_number w input cursor bytes next' all t.0 t.1)

  -- The reading functions where the bytes that they want stand at the cursor.
  module _ (input : List ℕ) (small : length input < u64_mod) where
    pub Window-take_bytes :
        (cursor n : ℕ) (bytes : List ℕ) (next : ℕ)
        → length bytes ≡ n
        → Window input cursor bytes next
        → take_bytes input cursor n ≡ ok (bytes, next)
    Window-take_bytes cursor n bytes next l w =
        take_bytes-At input cursor n bytes (drop next input) small
          (Window-At input cursor bytes next w) l
        ∙ ap (λ (k : ℕ). ok (bytes, k)) (omega (arith, w.next_eq))

    pub Window-take_bytes_until :
        (cursor n limit : ℕ) (bytes : List ℕ) (next : ℕ)
        → length bytes ≡ n
        → next ≤ limit
        → Window input cursor bytes next
        → take_bytes_until input cursor n limit ≡ ok (bytes, next)
    Window-take_bytes_until cursor n limit bytes next l low w =
        take_bytes_until-At input cursor n limit bytes (drop next input) small
          (Window-At input cursor bytes next w) l (omega (arith, w.next_eq))
        ∙ ap (λ (k : ℕ). ok (bytes, k)) (omega (arith, w.next_eq))

    pub Window-read_be :
        (w cursor v next : ℕ)
        → v < 256 ^ w
        → Window input cursor (to_be w v) next
        → read_be w input cursor ≡ ok (v, next)
    Window-read_be w cursor v next hv h =
        read_be-At w input cursor v (drop next input) small hv
          (Window-At input cursor (to_be w v) next h)
        ∙ ap (λ (k : ℕ). ok (v, k)) (omega (arith, h.next_eq, length-to_be w v))
