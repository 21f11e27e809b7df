-- ===== src/Frame/AcceptedBody.antt =====
-- What `decode_producer` and `decode_updates` accept.
use quorum_loro_gateway.Prelude.{
  ℕ, ◌+◌, ◌-◌, ◌≤◌, ◌<◌, ◌≡◌, refl, sym, ap, ◌∙◌, some, List, [], ◌∷◌, ◌++◌, arith, length, All,
  true, not, leb, ==→eq, ◌==◌, ok, ok_or, >>=-eq-ok, >>-eq-ok, ok_or-eq-ok, ok-injective,
}
use mathlib.Core.Path.{subst}
use quorum_loro_gateway.Bytes.{
  IsByte, u16_mod, u32_mod, u64_mod, to_be, try_from, try_from-eq-some, checked_sub,
  checked_sub-eq-some, checked_add, checked_mul,
}
use quorum_loro_gateway.Cursor.{Window, Window-append, Window_cast}
use quorum_loro_gateway.Utf8.{is_utf8}
use quorum_loro_gateway.Frame.{
  ProducerTuple, FrameLimits, FrameError, enforce_limit, is_empty, length_table, concat,
}
use quorum_loro_gateway.Frame.Layout.{
  enforce_limit-eq-ok, lengths_of, total_bytes, nonempty-eq-true, length-lengths_of,
}
use quorum_loro_gateway.Frame.AcceptedFields.{sum_of, read_lengths-eq-ok, take_updates-eq-ok}
use quorum_loro_gateway.Frame.Decode.{
  read_lengths, take_updates, decode_producer, decode_updates, read_u16, read_u64, read_u32, take,
}
use quorum_loro_gateway.Frame.Read.{read_u16-eq-ok, read_u32-eq-ok, read_u64-eq-ok, take-eq-ok}

-- The producer tuple and the batch ID that were read from `cursor` on.
pub record Producer (limits : FrameLimits) (frame : List ℕ) (cursor : ℕ)
    (r : ProducerTuple × List ℕ × ℕ) : Type 0 where
  pub window :
      Window frame cursor
        (to_be 2 (length r.0.id)
          ++ (r.0.id ++ (to_be 8 r.0.epoch ++ (to_be 8 r.0.sequence ++ r.1))))
        r.2
  pub id_nonempty : 0 < length r.0.id
  pub id_limit : length r.0.id ≤ limits.max_producer_id_bytes
  pub id_u16 : length r.0.id < u16_mod
  pub id_utf8 : is_utf8 r.0.id ≡ true
  pub epoch_u64 : r.0.epoch < u64_mod
  pub sequence_u64 : r.0.sequence < u64_mod
  pub batch_len : length r.1 ≡ 8

pub taken_len : (a b l n : ℕ) → b ≡ a + l → a + n ≡ b → l ≡ n
taken_len a b l n p q = omega arith

module _ (limits : FrameLimits) (frame : List ℕ) (all : All IsByte frame) where
  pub decode_producer-eq-ok :
      (cursor : ℕ) {r : ProducerTuple × List ℕ × ℕ}
      → decode_producer limits frame cursor ≡ ok r
      → Producer limits frame cursor r
  unfolding decode_producer
  decode_producer-eq-ok cursor {r} e =
      let ((n, c₁), a₁, e₁) = >>=-eq-ok (read_u16 frame cursor) _ e in
      let (_, a₂, e₂) = >>=-eq-ok (enforce_limit _ n limits.max_producer_id_bytes) _ e₁ in
      let ((id, c₂), a₃, e₃) = >>=-eq-ok (take frame c₁ n) _ e₂ in
      let (a₄, e₄) = >>-eq-ok (is_utf8 id) _ _ e₃ in
      let (a₅, e₅) = >>-eq-ok (not (is_empty id)) _ _ e₄ in
      let ((epoch, c₃), a₆, e₆) = >>=-eq-ok (read_u64 frame c₂) _ e₅ in
      let ((sequence, c₄), a₇, e₇) = >>=-eq-ok (read_u64 frame c₃) _ e₆ in
      let ((batch, c₅), a₈, e₈) = >>=-eq-ok (take frame c₄ 8) _ e₇ in
      let w₁ = read_u16-eq-ok frame all cursor a₁ in
      let w₂ = take-eq-ok frame c₁ n a₃ in
      let w₃ = read_u64-eq-ok frame all c₂ a₆ in
      let w₄ = read_u64-eq-ok frame all c₃ a₇ in
      let w₅ = take-eq-ok frame c₄ 8 a₈ in
      let size : length id ≡ n = taken_len c₁ c₂ (length id) n w₂.0.next_eq w₂.1 in
      let v₁ : Window frame cursor (to_be 2 (length id)) c₁ =
        Window_cast frame refl (ap (to_be 2) (sym size)) refl w₁.0 in
      subst (Producer limits frame cursor)
        (ok-injective {E = FrameError}
          (record { id = id; epoch = epoch; sequence = sequence }, batch, c₅) r e₈)
        (record {
          window = Window-append frame cursor _ c₁ _ c₅ v₁ (
              Window-append frame c₁ id c₂ _ c₅ w₂.0 (
                Window-append frame c₂ (to_be 8 epoch) c₃ _ c₅ w₃.0
                  (Window-append frame c₃ (to_be 8 sequence) c₄ batch c₅ w₄.0 w₅.0)));
          id_nonempty = nonempty-eq-true id a₅;
          id_limit =
              subst (λ (k : ℕ). k ≤ limits.max_producer_id_bytes) (sym size)
                (enforce_limit-eq-ok _ _ _ a₂);
          id_u16 = subst (λ (k : ℕ). k < u16_mod) (sym size) w₁.2;
          id_utf8 = a₄;
          epoch_u64 = w₃.2;
          sequence_u64 = w₄.2;
          batch_len = taken_len c₄ c₅ (length batch) 8 w₅.0.next_eq w₅.1;
        })

sum_of-lengths_of : (us : List (List ℕ)) → sum_of (lengths_of us) ≡ total_bytes us
sum_of-lengths_of [] = refl
sum_of-lengths_of (u ∷ us) = ap (λ (k : ℕ). length u + k) (sum_of-lengths_of us)

All-lengths_of :
    (P : ℕ → Type 0) (us : List (List ℕ)) → All P (lengths_of us) → All (λ u. P (length u)) us
All-lengths_of P [] h = tt
All-lengths_of P (u ∷ us) h = (h.0, All-lengths_of P us h.1)

-- The updates that were read from `cursor` on, with their count and their table.
pub record Payload (limits : FrameLimits) (frame : List ℕ) (crc_start cursor : ℕ)
    (r : List (List ℕ) × ℕ) : Type 0 where
  pub window :
      Window frame cursor
        (to_be 4 (length r.0) ++ (length_table (lengths_of r.0) ++ concat r.0))
        r.1
  pub low : 32 ≤ crc_start
  pub end_eq : r.1 ≡ crc_start - 32
  pub some_updates : 0 < length r.0
  pub count_limit : length r.0 ≤ limits.max_updates
  pub count_u32 : length r.0 < u32_mod
  pub each_u32 : All (λ u. length u < u32_mod) r.0
  pub each_limit : All (λ u. length u ≤ limits.max_update_bytes) r.0
  pub total_limit : total_bytes r.0 ≤ limits.max_updates_bytes

-- The values that a successful run of `decode_updates` computes.
record PayloadRun (limits : FrameLimits) (frame : List ℕ) (crc_start cursor : ℕ)
    (r : List (List ℕ) × ℕ) : Type 0 where
  value : ℕ
  c₁ : ℕ
  count : ℕ
  table : List ℕ × ℕ × ℕ
  payload_end : ℕ
  value_eq : read_u32 frame cursor ≡ ok (value, c₁)
  count_eq : try_from u64_mod value ≡ some count
  positive : not (count == 0) ≡ true
  limit : enforce_limit "update count" count limits.max_updates ≡ ok tt
  end_eq : checked_sub crc_start 32 ≡ some payload_end
  table_eq : read_lengths limits frame count c₁ 0 ≡ ok table
  updates_eq : take_updates frame payload_end table.0 table.2 ≡ ok r
  consumed : (r.1 == payload_end) ≡ true

decode_updates-PayloadRun :
    (limits : FrameLimits) (frame : List ℕ) (crc_start cursor : ℕ) {r : List (List ℕ) × ℕ}
    → decode_updates limits frame crc_start cursor ≡ ok r
    → PayloadRun limits frame crc_start cursor r
unfolding decode_updates
decode_updates-PayloadRun limits frame crc_start cursor {r} e =
    let ((value, c₁), a₁, e₁) = >>=-eq-ok (read_u32 frame cursor) _ e in
    let (count, a₂, e₂) = >>=-eq-ok (ok_or (try_from u64_mod value) _) _ e₁ in
    let (a₃, e₃) = >>-eq-ok (not (count == 0)) _ _ e₂ in
    let (_, a₄, e₄) = >>=-eq-ok (enforce_limit _ count limits.max_updates) _ e₃ in
    let (payload_end, a₅, e₅) = >>=-eq-ok (ok_or (checked_sub crc_start 32) _) _ e₄ in
    let (table_bytes, a₆, e₆) = >>=-eq-ok (ok_or (checked_mul count 4) _) _ e₅ in
    let (table_end, a₇, e₇) = >>=-eq-ok (ok_or (checked_add c₁ table_bytes) _) _ e₆ in
    let (_, e₈) = >>-eq-ok (leb table_end payload_end) _ _ e₇ in
    let (table, a₉, e₉) = >>=-eq-ok (read_lengths limits frame count c₁ 0) _ e₈ in
    let (declared, b₁, f₁) = >>=-eq-ok (ok_or (checked_sub payload_end table_end) _) _ e₉ in
    let (_, f₂) = >>-eq-ok (table.1 == declared) _ _ f₁ in
    let (us, b₃, f₃) = >>=-eq-ok (take_updates frame payload_end table.0 table.2) _ f₂ in
    let (b₄, f₄) = >>-eq-ok (us.1 == payload_end) _ _ f₃ in
    subst (PayloadRun limits frame crc_start cursor) (ok-injective {E = FrameError} us r f₄)
      (record {
        value = value;
        c₁ = c₁;
        count = count;
        table = table;
        payload_end = payload_end;
        value_eq = a₁;
        count_eq = ok_or-eq-ok _ _ a₂;
        positive = a₃;
        limit = a₄;
        end_eq = ok_or-eq-ok _ _ a₅;
        table_eq = a₉;
        updates_eq = b₃;
        consumed = b₄;
      })

positive_of : (n : ℕ) → not (n == 0) ≡ true → 0 < n
positive_of n h = ground arith

module _ (limits : FrameLimits) (frame : List ℕ) (all : All IsByte frame) where
  PayloadRun-Payload :
      (crc_start cursor : ℕ) (r : List (List ℕ) × ℕ)
      → PayloadRun limits frame crc_start cursor r
      → Payload limits frame crc_start cursor r
  PayloadRun-Payload crc_start cursor r run =
      let w = read_u32-eq-ok frame all cursor run.value_eq in
      let v = try_from-eq-some u64_mod run.value run.count_eq in
      let t =
        read_lengths-eq-ok limits frame all run.count run.c₁ 0 w.0.within (omega arith)
          run.table_eq in
      let u =
        take_updates-eq-ok frame run.payload_end run.table.0 run.table.2 t.window.within
          run.updates_eq in
      let s = checked_sub-eq-some crc_start 32 run.end_eq in
      let count : length r.0 ≡ run.count =
        sym (length-lengths_of r.0) ∙ ap length u.lengths_eq ∙ t.count_eq in
      let total : run.table.1 ≡ total_bytes r.0 =
        t.total_eq
        ∙ zero_add (sum_of run.table.0)
        ∙ ap sum_of (sym u.lengths_eq)
        ∙ sum_of-lengths_of r.0 in
      let at_count = λ (P : ℕ → Type 0) (p : P run.count). subst P (sym count) p in
      record {
        window =
            Window-append frame cursor _ run.c₁ _ r.1
              (Window_cast frame refl (ap (to_be 4) (v.0 ∙ sym count)) refl w.0)
              (Window-append frame run.c₁ _ run.table.2 (concat r.0) r.1
                (Window_cast frame refl (ap length_table (sym u.lengths_eq)) refl t.window)
                u.window);
        low = s.0;
        end_eq = ==→eq r.1 run.payload_end run.consumed ∙ sym s.1;
        some_updates = at_count (λ k. 0 < k) (positive_of run.count run.positive);
        count_limit = at_count (λ k. k ≤ limits.max_updates) (enforce_limit-eq-ok _ _ _ run.limit);
        count_u32 = at_count (λ k. k < u32_mod) (subst (λ (k : ℕ). k < u32_mod) v.0 w.2);
        each_u32 =
            All-lengths_of (λ k. k < u32_mod) r.0
              (subst (All (λ k. k < u32_mod)) (sym u.lengths_eq) t.each_u32);
        each_limit =
            All-lengths_of (λ k. k ≤ limits.max_update_bytes) r.0
              (subst (All (λ k. k ≤ limits.max_update_bytes)) (sym u.lengths_eq) t.each_limit);
        total_limit = subst (λ (k : ℕ). k ≤ limits.max_updates_bytes) total t.total_limit;
      }
    where
      zero_add : (n : ℕ) → 0 + n ≡ n
      zero_add n = omega arith

  pub decode_updates-eq-ok :
      (crc_start cursor : ℕ) {r : List (List ℕ) × ℕ}
      → decode_updates limits frame crc_start cursor ≡ ok r
      → Payload limits frame crc_start cursor r
  decode_updates-eq-ok crc_start cursor {r} e =
      PayloadRun-Payload crc_start cursor r
        (decode_updates-PayloadRun limits frame crc_start cursor e)
