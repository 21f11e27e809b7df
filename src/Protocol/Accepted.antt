-- ===== src/Protocol/Accepted.antt =====
-- What a message that passes `precheck` of src/protocol.rs is: its lengths are within the limits
-- before the official codec sees it.
use quorum_loro_gateway.Prelude.{
  ℕ, zero, suc, ◌+◌, ◌≤◌, ◌≡◌, refl, sym, ap, ◌∙◌, String, List, [], ◌∷◌, ◌==◌, ==→eq, arith, All,
  length, ok, ok_or, ok_or-eq-ok, guard-eq-ok, >>=-eq-ok, ok-injective,
}
use Prim.Native.Nat.{min}
use mathlib.Core.Path.{subst}
use quorum_loro_gateway.Bytes.{checked_add, checked_add-eq-some}
use quorum_loro_gateway.Cursor.{Window, take_bytes-eq-ok}
use quorum_loro_gateway.Protocol.{
  ProtocolLimits, ProtocolDecodeError, truncated, length_overflow, invalid, enforce_limit, take,
  byte, var_len, skip_updates, skip_doc_update, skip_body, Kind, doc_update, kind_of, precheck,
}
use quorum_loro_gateway.Protocol.Varint.{byte-eq-ok}

-- The updates of a message, each of which is a slice of it behind its own length.
pub data Updates (input : List ℕ) : ℕ → List (List ℕ) → ℕ → Type 0 where
  none_left : (cursor : ℕ) → Updates input cursor [] cursor
  one_more :
      (cursor start mid next : ℕ) (u : List ℕ) (us : List (List ℕ))
      → var_len input cursor ≡ ok (length u, start)
      → Window input start u mid
      → Updates input mid us next
      → Updates input cursor (u ∷ us) next

abbrev pub total_bytes : List (List ℕ) → ℕ
total_bytes [] = 0
total_bytes (u ∷ us) = length u + total_bytes us

-- The body of a message of updates.
pub record IsDocUpdate (limits : ProtocolLimits) (input : List ℕ) (start : ℕ) : Type 0 where
  pub updates : List (List ℕ)
  pub first : ℕ
  pub last : ℕ
  pub batch_id : List ℕ
  pub count : var_len input start ≡ ok (length updates, first)
  pub slices : Updates input first updates last
  pub batch : Window input last batch_id (length input)
  pub batch_len : length batch_id ≡ 8
  pub count_limit : length updates ≤ limits.max_updates
  pub each_limit : All (λ u. length u ≤ limits.max_update_bytes) updates
  pub total_limit : total_bytes updates ≤ limits.max_updates_bytes

-- What every message that passes is.
pub record Accepted (max_message_size : ℕ) (limits : ProtocolLimits) (input : List ℕ) : Type 0 where
  pub message_limit : length input ≤ limits.max_message_bytes
  pub codec_limit : length input ≤ max_message_size
  pub room_id : List ℕ
  pub room_start : ℕ
  pub room_end : ℕ
  pub message_type : ℕ
  pub room : Window input room_start room_id room_end
  pub room_prefix : var_len input 4 ≡ ok (length room_id, room_start)
  pub room_limit : length room_id ≤ limits.max_room_id_bytes
  pub type_byte : Window input room_end (message_type ∷ []) (room_end + 1)
  pub doc_update_body : kind_of message_type ≡ doc_update → IsDocUpdate limits input (room_end + 1)

enforce_limit-eq-ok :
    (resource : String) (actual limit : ℕ) {u : Unit}
    → enforce_limit resource actual limit ≡ ok u
    → actual ≤ limit
unfolding enforce_limit
enforce_limit-eq-ok resource actual limit h = ground arith

module _ (input : List ℕ) where
  take-eq-ok :
      (cursor n : ℕ) {bytes : List ℕ} {next : ℕ}
      → take input cursor n ≡ ok (bytes, next)
      → Window input cursor bytes next × (length bytes ≡ n)
  unfolding take
  take-eq-ok cursor n e =
      let (w, p) = take_bytes-eq-ok truncated truncated input cursor n e in
      (w, omega (arith, w.next_eq, p))

  -- The updates that the loop went over.
  record Skipped (limits : ProtocolLimits) (n cursor sum next : ℕ) : Type 0 where
    updates : List (List ℕ)
    slices : Updates input cursor updates next
    count : length updates ≡ n
    each_limit : All (λ u. length u ≤ limits.max_update_bytes) updates
    total_limit : sum + total_bytes updates ≤ limits.max_updates_bytes

  skip_updates-Skipped :
      (limits : ProtocolLimits) (n cursor sum : ℕ) {next : ℕ}
      → sum ≤ limits.max_updates_bytes
      → skip_updates limits input n cursor sum ≡ ok next
      → Skipped limits n cursor sum next
  unfolding skip_updates
  skip_updates-Skipped limits zero cursor sum {next} low e =
      subst (Skipped limits 0 cursor sum) (ok-injective {E = ProtocolDecodeError} cursor next e)
        (record {
          updates = [];
          slices = none_left cursor;
          count = refl;
          each_limit = tt;
          total_limit = omega arith;
        })
  skip_updates-Skipped limits (suc n) cursor sum {next} low e =
      let (t, a₁, e₁) = >>=-eq-ok (var_len input cursor) _ e in
      let (_, a₂, e₂) =
        >>=-eq-ok (enforce_limit "individual update bytes" t.0 limits.max_update_bytes) _ e₁ in
      let (sum', a₃, e₃) = >>=-eq-ok (ok_or (checked_add sum t.0) length_overflow) _ e₂ in
      let (_, a₄, e₄) =
        >>=-eq-ok (enforce_limit "aggregate update bytes" sum' limits.max_updates_bytes) _ e₃ in
      let (u, a₅, e₅) = >>=-eq-ok (take input t.1 t.0) _ e₄ in
      let (w, size) = take-eq-ok t.1 t.0 a₅ in
      let small = enforce_limit-eq-ok "individual update bytes" t.0 limits.max_update_bytes a₂ in
      let room = enforce_limit-eq-ok "aggregate update bytes" sum' limits.max_updates_bytes a₄ in
      let (added, _) =
        checked_add-eq-some sum t.0 (ok_or-eq-ok (checked_add sum t.0) length_overflow a₃) in
      let rest = skip_updates-Skipped limits n u.1 sum' room e₅ in
      record {
        updates = u.0 ∷ rest.updates;
        slices =
            one_more cursor t.1 u.1 next u.0 rest.updates
              (a₁ ∙ ap (λ (k : ℕ). ok (k, t.1)) (sym size)) w rest.slices;
        count = omega (arith, rest.count);
        each_limit = (omega (arith, small, size), rest.each_limit);
        total_limit = omega (arith, rest.total_limit, added, size);
      }

  skip_doc_update-IsDocUpdate :
      (limits : ProtocolLimits) (start : ℕ) {end : ℕ}
      → end ≡ length input
      → skip_doc_update limits input start ≡ ok end
      → IsDocUpdate limits input start
  unfolding skip_doc_update
  skip_doc_update-IsDocUpdate limits start {end} whole e =
      let (t, a₁, e₁) = >>=-eq-ok (var_len input start) _ e in
      let (_, a₂, e₂) = >>=-eq-ok (enforce_limit "update count" t.0 limits.max_updates) _ e₁ in
      let (last, a₃, e₃) = >>=-eq-ok (skip_updates limits input t.0 t.1 0) _ e₂ in
      let (b, a₄, e₄) = >>=-eq-ok (take input last 8) _ e₃ in
      let (w, size) = take-eq-ok last 8 a₄ in
      let s = skip_updates-Skipped limits t.0 t.1 0 (omega arith) a₃ in
      let few = enforce_limit-eq-ok "update count" t.0 limits.max_updates a₂ in
      record {
        updates = s.updates;
        first = t.1;
        last = last;
        batch_id = b.0;
        count = a₁ ∙ ap (λ (k : ℕ). ok (k, t.1)) (sym s.count);
        slices = s.slices;
        batch =
            subst (Window input last b.0)
              (ok-injective {E = ProtocolDecodeError} b.1 end e₄ ∙ whole) w;
        batch_len = size;
        count_limit = omega (arith, few, s.count);
        each_limit = s.each_limit;
        total_limit = omega (arith, s.total_limit);
      }

skip_body_updates :
    (limits : ProtocolLimits) (input : List ℕ) (kind : Kind) (c c' end : ℕ)
    → kind ≡ doc_update
    → c ≡ c'
    → skip_body limits input kind c ≡ ok end
    → skip_doc_update limits input c' ≡ ok end
unfolding skip_body
skip_body_updates limits input kind c c' end is at e =
    subst (λ (k : ℕ). skip_doc_update limits input k ≡ ok end) at
      (subst (λ (k : Kind). skip_body limits input k c ≡ ok end) is e)

-- A message that passes `precheck` is within the limits of its own bytes and of its room ID, which
-- stands behind its length, followed by the byte of the type. A message of updates has as many
-- updates as it says, each behind its length, and then the eight bytes of the batch ID and nothing
-- else; the number of updates, each of them and their sum are within the limits.
pub precheck-Accepted :
    (max_message_size : ℕ) (input : List ℕ) (limits : ProtocolLimits)
    → precheck max_message_size input limits ≡ ok tt
    → Accepted max_message_size limits input
unfolding precheck
precheck-Accepted max input limits e =
    let (_, a₁, e₁) =
      >>=-eq-ok (enforce_limit "message bytes" (length input) (min limits.max_message_bytes max)) _
        e in
    let (t, a₂, e₂) = >>=-eq-ok (take input 0 4) _ e₁ in
    let (l, a₃, e₃) = >>=-eq-ok (var_len input t.1) _ e₂ in
    let (_, a₄, e₄) = >>=-eq-ok (enforce_limit "room ID bytes" l.0 limits.max_room_id_bytes) _ e₃ in
    let (r, a₅, e₅) = >>=-eq-ok (take input l.1 l.0) _ e₄ in
    let (k, a₆, e₆) = >>=-eq-ok (byte input r.1) _ e₅ in
    let (end, a₇, e₇) = >>=-eq-ok (skip_body limits input (kind_of k.0) k.1) _ e₆ in
    let size =
      enforce_limit-eq-ok "message bytes" (length input) (min limits.max_message_bytes max) a₁ in
    let (w₀, four) = take-eq-ok input 0 4 a₂ in
    let (w, len) = take-eq-ok input l.1 l.0 a₅ in
    let (at, _, kind) = byte-eq-ok input r.1 a₆ in
    let whole =
      ==→eq end (length input)
        (guard-eq-ok (end == length input) (invalid "trailing message bytes") e₇) in
    let start : t.1 ≡ 4 = omega (arith, w₀.next_eq, four) in
    record {
      message_limit = omega (arith, size);
      codec_limit = omega (arith, size);
      room_id = r.0;
      room_start = l.1;
      room_end = r.1;
      message_type = k.0;
      room = w;
      room_prefix =
          ap (λ (c : ℕ). var_len input c) (sym start)
          ∙ (a₃ ∙ ap (λ (c : ℕ). ok (c, l.1)) (sym len));
      room_limit =
          omega (arith, enforce_limit-eq-ok "room ID bytes" l.0 limits.max_room_id_bytes a₄, len);
      type_byte = subst (Window input r.1 (k.0 ∷ [])) at kind;
      doc_update_body = λ is.
          skip_doc_update-IsDocUpdate input limits (r.1 + 1) whole
            (skip_body_updates limits input (kind_of k.0) k.1 (r.1 + 1) end is at a₇);
    }
