-- ===== src/Frame/AcceptedFields.antt =====
-- What `decode_fields` accepts: the producer, the table of lengths, the updates and the digest.
use quorum_loro_gateway.Prelude.{
  ℕ, zero, suc, ◌+◌, ◌≤◌, ◌<◌, ◌≡◌, refl, ap, List, [], ◌∷◌, arith, length, All, ok, ok_or,
  >>=-eq-ok, ok_or-eq-ok, ok-injective,
}
use mathlib.Core.Path.{subst}
use quorum_loro_gateway.Bytes.{
  IsByte, u32_mod, u64_mod, to_be, try_from, try_from-eq-some, checked_add, checked_add-eq-some,
}
use quorum_loro_gateway.Cursor.{Window, Window-append, Window_cast, Window-empty}
use quorum_loro_gateway.Frame.{FrameLimits, FrameError, enforce_limit, length_table, concat}
use quorum_loro_gateway.Frame.Layout.{enforce_limit-eq-ok, lengths_of}
use quorum_loro_gateway.Frame.Decode.{read_lengths, take_updates, read_u32, take_until}
use quorum_loro_gateway.Frame.Read.{read_u32-eq-ok, take_until-eq-ok}

abbrev pub sum_of : List ℕ → ℕ
sum_of [] = 0
sum_of (n ∷ ns) = n + sum_of ns

-- The table of lengths that was read from `cursor` on, with the sum so far.
pub record Table (limits : FrameLimits) (frame : List ℕ) (cursor sum count : ℕ) (r : List ℕ × ℕ × ℕ)
    : Type 0 where
  pub count_eq : length r.0 ≡ count
  pub window : Window frame cursor (length_table r.0) r.2
  pub each_u32 : All (λ n. n < u32_mod) r.0
  pub each_limit : All (λ n. n ≤ limits.max_update_bytes) r.0
  pub total_eq : r.1 ≡ sum + sum_of r.0
  pub total_limit : r.1 ≤ limits.max_updates_bytes

module _ (limits : FrameLimits) (frame : List ℕ) (all : All IsByte frame) where
  pub read_lengths-eq-ok :
      (count cursor sum : ℕ) {r : List ℕ × ℕ × ℕ}
      → cursor ≤ length frame
      → sum ≤ limits.max_updates_bytes
      → read_lengths limits frame count cursor sum ≡ ok r
      → Table limits frame cursor sum count r
  unfolding read_lengths
  read_lengths-eq-ok zero cursor sum {r} low limit e =
      subst (Table limits frame cursor sum zero)
        (ok-injective {E = FrameError} ([], sum, cursor) r e)
        (record {
          count_eq = refl;
          window = Window-empty frame cursor low;
          each_u32 = tt;
          each_limit = tt;
          total_eq = omega arith;
          total_limit = limit;
        })
  read_lengths-eq-ok (suc count) cursor sum {r} low limit e =
      let ((value, c₁), a₁, e₁) = >>=-eq-ok (read_u32 frame cursor) _ e in
      let (len, a₂, e₂) = >>=-eq-ok (ok_or (try_from u64_mod value) _) _ e₁ in
      let (_, a₃, e₃) = >>=-eq-ok (enforce_limit _ len limits.max_update_bytes) _ e₂ in
      let (sum', a₄, e₄) = >>=-eq-ok (ok_or (checked_add sum len) _) _ e₃ in
      let (_, a₅, e₅) = >>=-eq-ok (enforce_limit _ sum' limits.max_updates_bytes) _ e₄ in
      let ((lengths, total, c₂), a₆, e₆) =
        >>=-eq-ok (read_lengths limits frame count c₁ sum') _ e₅ in
      let w = read_u32-eq-ok frame all cursor a₁ in
      let v = try_from-eq-some u64_mod value (ok_or-eq-ok _ _ a₂) in
      let s = checked_add-eq-some sum len (ok_or-eq-ok _ _ a₄) in
      let t = read_lengths-eq-ok count c₁ sum' w.0.within (enforce_limit-eq-ok _ _ _ a₅) a₆ in
      subst (Table limits frame cursor sum (suc count))
        (ok-injective {E = FrameError} (len ∷ lengths, total, c₂) r e₆)
        (record {
          count_eq = ap suc t.count_eq;
          window =
              Window-append frame cursor (to_be 4 len) c₁ (length_table lengths) c₂
                (Window_cast frame refl (ap (to_be 4) v.0) refl w.0) t.window;
          each_u32 = (subst (λ (k : ℕ). k < u32_mod) v.0 w.2, t.each_u32);
          each_limit = (enforce_limit-eq-ok _ _ _ a₃, t.each_limit);
          total_eq = total_step total sum' sum len (sum_of lengths) t.total_eq s.0;
          total_limit = t.total_limit;
        })
    where
      total_step : (total s' s n m : ℕ) → total ≡ s' + m → s + n ≡ s' → total ≡ s + (n + m)
      total_step total s' s n m p q = omega arith

-- The updates that were taken, one for each length.
pub record Updates (frame : List ℕ) (lengths : List ℕ) (cursor : ℕ) (r : List (List ℕ) × ℕ)
    : Type 0 where
  pub lengths_eq : lengths_of r.0 ≡ lengths
  pub window : Window frame cursor (concat r.0) r.1

pub take_updates-eq-ok :
    (frame : List ℕ) (limit : ℕ) (lengths : List ℕ) (cursor : ℕ) {r : List (List ℕ) × ℕ}
    → cursor ≤ length frame
    → take_updates frame limit lengths cursor ≡ ok r
    → Updates frame lengths cursor r
unfolding take_updates
take_updates-eq-ok frame limit [] cursor {r} low e =
    subst (Updates frame [] cursor) (ok-injective {E = FrameError} ([], cursor) r e)
      (record { lengths_eq = refl; window = Window-empty frame cursor low })
take_updates-eq-ok frame limit (len ∷ lengths) cursor {r} low e =
    let ((update, c₁), a₁, e₁) = >>=-eq-ok (take_until frame cursor len limit) _ e in
    let ((updates, c₂), a₂, e₂) = >>=-eq-ok (take_updates frame limit lengths c₁) _ e₁ in
    let w = take_until-eq-ok frame cursor len limit a₁ in
    let t = take_updates-eq-ok frame limit lengths c₁ w.0.within a₂ in
    let size : length update ≡ len = size_eq c₁ cursor (length update) len w.0.next_eq w.1 in
    subst (Updates frame (len ∷ lengths) cursor)
      (ok-injective {E = FrameError} (update ∷ updates, c₂) r e₂)
      (record {
        lengths_eq = cc (size, t.lengths_eq);
        window = Window-append frame cursor update c₁ (concat updates) c₂ w.0 t.window;
      })
  where
    size_eq : (c₁ c l n : ℕ) → c₁ ≡ c + l → c + n ≡ c₁ → l ≡ n
    size_eq c₁ c l n p q = omega arith
