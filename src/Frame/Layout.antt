-- ===== src/Frame/Layout.antt =====
-- The bytes of a frame, and exactly which frames `encode_with_limits` accepts.
use quorum_loro_gateway.Prelude.{
  ℕ, suc, ◌+◌, ◌*◌, ◌≤◌, ◌<◌, ◌≡◌, refl, ap, ◌∙◌, some, List, [], ◌∷◌, ◌++◌, arith, String, true,
  not, length, All, ok, ok_or, ok-injective, ok_or-eq-ok, >>=-eq-ok, >>-eq-ok, sym,
}
use quorum_loro_gateway.Bytes.{
  IsByte, u16_mod, u32_mod, u64_mod, checked_add, checked_mul, checked_mul_fits, try_from,
  try_from_fits, try_from-eq-some, checked_add-eq-some, checked_mul-eq-some,
}
use quorum_loro_gateway.Hashes.{Hashes}
use quorum_loro_gateway.Utf8.{is_utf8}
use quorum_loro_gateway.Frame.{
  FrameLimits, DeltaFrame, FrameError, enforce_limit, is_empty, update_lengths, sum_lengths,
  frame_total, frame_header, frame_fields, seal, update_digest, encode_with_limits,
}

abbrev pub lengths_of : List (List ℕ) → List ℕ
lengths_of [] = []
lengths_of (u ∷ us) = length u ∷ lengths_of us

abbrev pub total_bytes : List (List ℕ) → ℕ
total_bytes [] = 0
total_bytes (u ∷ us) = length u + total_bytes us

unfoldable pub frame_len : DeltaFrame → ℕ
frame_len f = 90 + length f.producer.id + 4 * length f.updates + total_bytes f.updates

-- What the Rust types say of the fields, and the digest that belongs to the updates.
pub record IsFrame (h : Hashes) (f : DeltaFrame) : Type 0 where
  pub id_utf8 : is_utf8 f.producer.id ≡ true
  pub id_bytes : All IsByte f.producer.id
  pub epoch_u64 : f.producer.epoch < u64_mod
  pub sequence_u64 : f.producer.sequence < u64_mod
  pub batch_id_len : length f.batch_id ≡ 8
  pub batch_id_bytes : All IsByte f.batch_id
  pub updates_bytes : All (All IsByte) f.updates
  pub digest_eq : f.digest ≡ update_digest h f.updates

-- The limits and the widths of the length fields.
pub record Fits (limits : FrameLimits) (f : DeltaFrame) : Type 0 where
  pub id_nonempty : 0 < length f.producer.id
  pub id_limit : length f.producer.id ≤ limits.max_producer_id_bytes
  pub id_u16 : length f.producer.id < u16_mod
  pub some_updates : 0 < length f.updates
  pub count_limit : length f.updates ≤ limits.max_updates
  pub count_u32 : length f.updates < u32_mod
  pub each_u32 : All (λ u. length u < u32_mod) f.updates
  pub each_limit : All (λ u. length u ≤ limits.max_update_bytes) f.updates
  pub total_limit : total_bytes f.updates ≤ limits.max_updates_bytes
  pub frame_limit : frame_len f ≤ limits.max_frame_bytes
  pub frame_u64 : frame_len f < u64_mod

unfoldable pub layout_fields : DeltaFrame → List ℕ
unfolding frame_fields
layout_fields f = frame_fields f (length f.producer.id) (length f.updates) (lengths_of f.updates)

unfoldable pub layout : Hashes → DeltaFrame → List ℕ
unfolding seal
layout h f = seal h (frame_header (frame_len f) ++ layout_fields f) (frame_len f)

pub enforce_limit_fits :
    (resource : String) (actual limit : ℕ)
    → actual ≤ limit
    → enforce_limit resource actual limit ≡ ok tt
unfolding enforce_limit
enforce_limit_fits resource actual limit h = ground arith

pub enforce_limit-eq-ok :
    (resource : String) (actual limit : ℕ) {u : Unit}
    → enforce_limit resource actual limit ≡ ok u
    → actual ≤ limit
unfolding enforce_limit
enforce_limit-eq-ok resource actual limit h = ground arith

pub nonempty_fits {ℓ} : {A : Type ℓ} (l : List A) → 0 < length l → not (is_empty l) ≡ true
nonempty_fits [] h = absurd (omega arith)
nonempty_fits (x ∷ xs) h = refl

pub nonempty-eq-true {ℓ} : {A : Type ℓ} (l : List A) → not (is_empty l) ≡ true → 0 < length l
nonempty-eq-true [] h = cc
nonempty-eq-true (x ∷ xs) h = omega arith

pub length-lengths_of : (us : List (List ℕ)) → length (lengths_of us) ≡ length us
length-lengths_of [] = refl
length-lengths_of (u ∷ us) = ap suc (length-lengths_of us)

update_lengths_fits :
    (us : List (List ℕ)) → All (λ u. length u < u32_mod) us → update_lengths us ≡ ok (lengths_of us)
unfolding update_lengths
update_lengths_fits [] all = refl
update_lengths_fits (u ∷ us) all =
    rw (try_from_fits u32_mod (length u) all.0) (rw (update_lengths_fits us all.1))

sum_lengths_fits :
    (limits : FrameLimits) (sum : ℕ) (us : List (List ℕ))
    → All (λ u. length u ≤ limits.max_update_bytes) us
    → sum + total_bytes us < u64_mod
    → sum_lengths limits sum us ≡ ok (sum + total_bytes us)
unfolding sum_lengths enforce_limit checked_add
sum_lengths_fits limits sum [] all small = ap ok (omega arith)
sum_lengths_fits limits sum (u ∷ us) all small =
    ground (arith, all, sum_lengths_fits limits (sum + length u) us all.1)

frame_total_fits :
    (p t u : ℕ) → 90 + p + t + u < u64_mod → frame_total p t u ≡ some (90 + p + t + u)
unfolding frame_total checked_add
frame_total_fits p t u small = ground arith

module _ (limits : FrameLimits) (f : DeltaFrame) (fits : Fits limits f) where
  sum_fits : sum_lengths limits 0 f.updates ≡ ok (total_bytes f.updates)
  unfolding frame_len
  sum_fits =
      sum_lengths_fits limits 0 f.updates fits.each_limit (omega (arith, fits.frame_u64))
      ∙ ap ok (omega arith)

  table_fits : checked_mul (length (lengths_of f.updates)) 4 ≡ some (4 * length f.updates)
  unfolding frame_len
  table_fits =
      ap (λ (k : ℕ). checked_mul k 4) (length-lengths_of f.updates)
      ∙ checked_mul_fits (length f.updates) 4 (omega (arith, fits.frame_u64))
      ∙ ap some (omega arith)

  total_fits :
      frame_total (length f.producer.id) (4 * length f.updates) (total_bytes f.updates)
      ≡ some (frame_len f)
  unfolding frame_len
  total_fits = frame_total_fits _ _ _ fits.frame_u64

-- A frame that fits the limits and the widths of the length fields is encoded, and its bytes are its
-- layout.
pub Fits-encode_with_limits :
    (h : Hashes) (limits : FrameLimits) (f : DeltaFrame)
    → Fits limits f
    → encode_with_limits h f limits ≡ ok (layout h f)
unfolding encode_with_limits layout layout_fields
Fits-encode_with_limits h limits f fits = rw (
  nonempty_fits f.producer.id fits.id_nonempty,
  enforce_limit_fits _ _ _ fits.id_limit,
  nonempty_fits f.updates fits.some_updates,
  enforce_limit_fits _ _ _ fits.count_limit,
  try_from_fits u16_mod _ fits.id_u16,
  try_from_fits u32_mod _ fits.count_u32,
  update_lengths_fits f.updates fits.each_u32,
  sum_fits limits f fits,
  enforce_limit_fits _ _ _ fits.total_limit,
  table_fits limits f fits,
  total_fits limits f fits,
  enforce_limit_fits _ _ _ fits.frame_limit,
  try_from_fits u64_mod _ fits.frame_u64,
)

update_lengths-eq-ok :
    (us : List (List ℕ)) {ls : List ℕ}
    → update_lengths us ≡ ok ls
    → (ls ≡ lengths_of us) × All (λ u. length u < u32_mod) us
unfolding update_lengths
update_lengths-eq-ok [] h = (cc, tt)
update_lengths-eq-ok (u ∷ us) {ls} h =
    let (n, p, h1) = >>=-eq-ok (ok_or (try_from u32_mod (length u)) _) _ h in
    let (ns, q, h2) = >>=-eq-ok (update_lengths us) _ h1 in
    let t = try_from-eq-some u32_mod (length u) (ok_or-eq-ok _ _ p) in
    let r = update_lengths-eq-ok us q in (cc (h2, t.0, r.0), (omega (arith, t.0, t.1), r.1))

sum_lengths-eq-ok :
    (limits : FrameLimits) (sum : ℕ) (us : List (List ℕ)) {total : ℕ}
    → sum_lengths limits sum us ≡ ok total
    → (total ≡ sum + total_bytes us) × All (λ u. length u ≤ limits.max_update_bytes) us
unfolding sum_lengths
sum_lengths-eq-ok limits sum [] h = (ground arith, tt)
sum_lengths-eq-ok limits sum (u ∷ us) h =
    let (_, p, h1) = >>=-eq-ok (enforce_limit _ (length u) limits.max_update_bytes) _ h in
    let (next, q, h2) = >>=-eq-ok (ok_or (checked_add sum (length u)) _) _ h1 in
    let r = sum_lengths-eq-ok limits next us h2 in
    let s = checked_add-eq-some sum (length u) (ok_or-eq-ok _ _ q) in
    (omega (arith, r.0, s.0), (enforce_limit-eq-ok _ _ _ p, r.1))

frame_total-eq-some :
    (p t u : ℕ) {n : ℕ} → frame_total p t u ≡ some n → (90 + p + t + u ≡ n) × (n < u64_mod)
unfolding frame_total checked_add
frame_total-eq-some p t u h = ground arith

-- Whatever is encoded fits.
encode_with_limits-Fits :
    (h : Hashes) (limits : FrameLimits) (f : DeltaFrame) {bytes : List ℕ}
    → encode_with_limits h f limits ≡ ok bytes
    → Fits limits f
unfolding encode_with_limits frame_len
encode_with_limits-Fits h limits f e =
    let (a₁, e₁) = >>-eq-ok (not (is_empty f.producer.id)) _ _ e in
    let (_, a₂, e₂) = >>=-eq-ok (enforce_limit _ (length f.producer.id) _) _ e₁ in
    let (a₃, e₃) = >>-eq-ok (not (is_empty f.updates)) _ _ e₂ in
    let (_, a₄, e₄) = >>=-eq-ok (enforce_limit _ (length f.updates) _) _ e₃ in
    let (p, a₅, e₅) = >>=-eq-ok (ok_or (try_from u16_mod (length f.producer.id)) _) _ e₄ in
    let (c, a₆, e₆) = >>=-eq-ok (ok_or (try_from u32_mod (length f.updates)) _) _ e₅ in
    let (ls, a₇, e₇) = >>=-eq-ok (update_lengths f.updates) _ e₆ in
    let (sum, a₈, e₈) = >>=-eq-ok (sum_lengths limits 0 f.updates) _ e₇ in
    let (_, a₉, e₉) = >>=-eq-ok (enforce_limit _ sum limits.max_updates_bytes) _ e₈ in
    let (table, b₁, e₁₀) = >>=-eq-ok (ok_or (checked_mul (length ls) 4) _) _ e₉ in
    let (n, b₂, e₁₁) = >>=-eq-ok (ok_or (frame_total p table sum) _) _ e₁₀ in
    let (_, b₃, e₁₂) = >>=-eq-ok (enforce_limit _ n limits.max_frame_bytes) _ e₁₁ in
    let id_u16 = try_from-eq-some u16_mod _ (ok_or-eq-ok _ _ a₅) in
    let count = try_from-eq-some u32_mod _ (ok_or-eq-ok _ _ a₆) in
    let lens = update_lengths-eq-ok f.updates a₇ in
    let sums = sum_lengths-eq-ok limits 0 f.updates a₈ in
    let tables = checked_mul-eq-some (length ls) 4 (ok_or-eq-ok _ _ b₁) in
    let totals = frame_total-eq-some p table sum (ok_or-eq-ok _ _ b₂) in
    let ls_len : length ls ≡ length f.updates = ap length lens.0 ∙ length-lengths_of f.updates in
    let n_eq : n ≡ 90 + length f.producer.id + 4 * length f.updates + total_bytes f.updates =
      omega (arith, totals.0, tables.0, sums.0, ls_len, id_u16.0) in
    record {
      id_nonempty = nonempty-eq-true f.producer.id a₁;
      id_limit = enforce_limit-eq-ok _ _ _ a₂;
      id_u16 = omega (arith, id_u16.0, id_u16.1);
      some_updates = nonempty-eq-true f.updates a₃;
      count_limit = enforce_limit-eq-ok _ _ _ a₄;
      count_u32 = omega (arith, count.0, count.1);
      each_u32 = lens.1;
      each_limit = sums.1;
      total_limit = omega (arith, enforce_limit-eq-ok _ _ _ a₉, sums.0);
      frame_limit = omega (arith, enforce_limit-eq-ok _ _ _ b₃, n_eq);
      frame_u64 = omega (arith, totals.1, n_eq);
    }

-- Where `encode_with_limits` succeeds, the frame fits the limits and the widths of the length fields,
-- and the bytes are its layout.
pub encode_with_limits-eq-ok :
    (h : Hashes) (limits : FrameLimits) (f : DeltaFrame) {bytes : List ℕ}
    → encode_with_limits h f limits ≡ ok bytes
    → Fits limits f × (bytes ≡ layout h f)
encode_with_limits-eq-ok h limits f {bytes} e =
    let fits = encode_with_limits-Fits h limits f e in
    (fits, ok-injective {E = FrameError} _ _ (sym e ∙ Fits-encode_with_limits h limits f fits))
