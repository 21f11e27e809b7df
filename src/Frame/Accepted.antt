-- ===== src/Frame/Accepted.antt =====
-- What `decode_one_with_limits` accepts: the header and the trailer.
use quorum_loro_gateway.Prelude.{
  ℕ, ◌+◌, ◌-◌, ◌≤◌, ◌<◌, ◌≡◌, refl, sym, ap, ◌∙◌, some, List, ◌++◌, arith, length, All, true, leb,
  leb→le, ==→eq, ◌==◌, bytes_eq, bytes_eq→eq, ok, ok_or, >>=-eq-ok, >>-eq-ok, ok_or-eq-ok,
  ok-injective,
}
use mathlib.Core.Path.{subst}
use quorum_loro_gateway.Bytes.{
  IsByte, u64_mod, to_be, try_from, try_from-eq-some, checked_sub, checked_sub-eq-some, get_range?,
}
use quorum_loro_gateway.Cursor.{Window, Window-append, Window_cast, get_range?-Window}
use quorum_loro_gateway.Hashes.{Hashes}
use quorum_loro_gateway.Frame.{magic, version, FrameLimits, FrameError, frame_header, enforce_limit}
use quorum_loro_gateway.Frame.Layout.{enforce_limit-eq-ok}
use quorum_loro_gateway.Frame.Decode.{decode_header, verify_trailer, read_u16, read_u64, read_u32}
use quorum_loro_gateway.Frame.Read.{read_u16-eq-ok, read_u32-eq-ok, read_u64-eq-ok}

trailer_start :
    (total start t c : ℕ) → 12 ≤ total → total - 12 ≡ start → total - 8 ≡ t → start + 4 ≡ c → c ≡ t
trailer_start total start t c low p q r = omega arith

trailer_end : (total t c : ℕ) → 8 ≤ total → total - 8 ≡ t → t + 8 ≡ c → c ≡ total
trailer_end total t c low p q = omega arith

-- What an accepted header says of the frame's bytes, their number and the cursor.
pub record Header (input : List ℕ) (limits : FrameLimits) (r : List ℕ × ℕ × ℕ) : Type 0 where
  pub cursor_eq : r.2 ≡ 16
  pub total_limit : r.1 ≤ limits.max_frame_bytes
  pub total_u64 : r.1 < u64_mod
  pub total_big : 60 ≤ r.1
  pub frame : Window input 0 r.0 r.1
  pub header : Window input 0 (frame_header r.1) 16

-- The values that a successful run of `decode_header` computes.
record HeaderRun (input : List ℕ) (limits : FrameLimits) (r : List ℕ × ℕ × ℕ) : Type 0 where
  start : List ℕ
  found : ℕ
  c₁ : ℕ
  flags : ℕ
  c₂ : ℕ
  declared : ℕ
  start_eq : get_range? input 0 4 ≡ some start
  magic_eq : bytes_eq start magic ≡ true
  found_eq : read_u16 input 4 ≡ ok (found, c₁)
  version_eq : (found == version) ≡ true
  flags_eq : read_u16 input c₁ ≡ ok (flags, c₂)
  zero_eq : (flags == 0) ≡ true
  declared_eq : read_u64 input c₂ ≡ ok (declared, r.2)
  total_eq : try_from u64_mod declared ≡ some r.1
  big : leb 60 r.1 ≡ true
  limit : enforce_limit "frame bytes" r.1 limits.max_frame_bytes ≡ ok tt
  frame_eq : get_range? input 0 r.1 ≡ some r.0

decode_header-HeaderRun :
    (input : List ℕ) (limits : FrameLimits) {r : List ℕ × ℕ × ℕ}
    → decode_header input limits ≡ ok r
    → HeaderRun input limits r
unfolding decode_header
decode_header-HeaderRun input limits {r} e =
    let (_, e₁) = >>-eq-ok (leb 60 (length input)) _ _ e in
    let (start, a₂, e₂) = >>=-eq-ok (ok_or (get_range? input 0 4) _) _ e₁ in
    let (a₃, e₃) = >>-eq-ok (bytes_eq start magic) _ _ e₂ in
    let ((found, c₁), a₄, e₄) = >>=-eq-ok (read_u16 input 4) _ e₃ in
    let (a₅, e₅) = >>-eq-ok (found == version) _ _ e₄ in
    let ((flags, c₂), a₆, e₆) = >>=-eq-ok (read_u16 input c₁) _ e₅ in
    let (a₇, e₇) = >>-eq-ok (flags == 0) _ _ e₆ in
    let ((declared, c₃), a₈, e₈) = >>=-eq-ok (read_u64 input c₂) _ e₇ in
    let (total, a₉, e₉) = >>=-eq-ok (ok_or (try_from u64_mod declared) _) _ e₈ in
    let (b₁, f₁) = >>-eq-ok (leb 60 total) _ _ e₉ in
    let (_, b₂, f₂) = >>=-eq-ok (enforce_limit _ total limits.max_frame_bytes) _ f₁ in
    let (_, f₃) = >>-eq-ok (leb total (length input)) _ _ f₂ in
    let (frame, b₄, f₄) = >>=-eq-ok (ok_or (get_range? input 0 total) _) _ f₃ in
    subst (HeaderRun input limits) (ok-injective {E = FrameError} (frame, total, c₃) r f₄) (record {
      start = start;
      found = found;
      c₁ = c₁;
      flags = flags;
      c₂ = c₂;
      declared = declared;
      start_eq = ok_or-eq-ok _ _ a₂;
      magic_eq = a₃;
      found_eq = a₄;
      version_eq = a₅;
      flags_eq = a₆;
      zero_eq = a₇;
      declared_eq = a₈;
      total_eq = ok_or-eq-ok _ _ a₉;
      big = b₁;
      limit = b₂;
      frame_eq = ok_or-eq-ok _ _ b₄;
    })

HeaderRun-Header :
    (input : List ℕ) (limits : FrameLimits) (r : List ℕ × ℕ × ℕ)
    → All IsByte input
    → HeaderRun input limits r
    → Header input limits r
HeaderRun-Header input limits r all run =
    let w₁ = read_u16-eq-ok input all 4 run.found_eq in
    let w₂ = read_u16-eq-ok input all run.c₁ run.flags_eq in
    let w₃ = read_u64-eq-ok input all run.c₂ run.declared_eq in
    let t = try_from-eq-some u64_mod run.declared run.total_eq in
    let at₂ : run.c₂ ≡ 8 = sym (ap (λ (k : ℕ). k + 2) w₁.1 ∙ w₂.1) in
    let at₃ : r.2 ≡ 16 = sym w₃.1 ∙ ap (λ (k : ℕ). k + 8) at₂ in
    let v₀ : Window input 0 magic 4 =
      Window_cast input refl (bytes_eq→eq run.start magic run.magic_eq) refl
        (get_range?-Window input 0 4 run.start_eq) in
    let v₁ : Window input 4 (to_be 2 version) 6 =
      Window_cast input refl (ap (to_be 2) (==→eq run.found version run.version_eq)) (sym w₁.1)
        w₁.0 in
    let v₂ : Window input 6 (to_be 2 0) 8 =
      Window_cast input (sym w₁.1) (ap (to_be 2) (==→eq run.flags 0 run.zero_eq)) at₂ w₂.0 in
    let v₃ : Window input 8 (to_be 8 r.1) 16 = Window_cast input at₂ (ap (to_be 8) t.0) at₃ w₃.0 in
    record {
      cursor_eq = at₃;
      total_limit = enforce_limit-eq-ok _ _ _ run.limit;
      total_u64 = t.1;
      total_big = leb→le 60 r.1 run.big;
      frame = get_range?-Window input 0 r.1 run.frame_eq;
      header = Window-append input 0 magic 4 _ 16 v₀ (
          Window-append input 4 (to_be 2 version) 6 _ 16 v₁
            (Window-append input 6 (to_be 2 0) 8 (to_be 8 r.1) 16 v₂ v₃));
    }

pub decode_header-eq-ok :
    (input : List ℕ) (limits : FrameLimits) {r : List ℕ × ℕ × ℕ}
    → All IsByte input
    → decode_header input limits ≡ ok r
    → Header input limits r
decode_header-eq-ok input limits {r} all e =
    HeaderRun-Header input limits r all (decode_header-HeaderRun input limits e)

-- What an accepted trailer says: the checksum of what is before it, then the length.
pub record Trailer (h : Hashes) (frame : List ℕ) (total crc_start : ℕ) : Type 0 where
  pub crc_start_eq : crc_start ≡ total - 12
  pub covered : List ℕ
  pub front : Window frame 0 covered crc_start
  pub back : Window frame crc_start (to_be 4 (h.crc32 covered) ++ to_be 8 total) total

pub verify_trailer-eq-ok :
    (h : Hashes) (frame : List ℕ) (total : ℕ) {crc_start : ℕ}
    → All IsByte frame
    → verify_trailer h frame total ≡ ok crc_start
    → Trailer h frame total crc_start
unfolding verify_trailer
verify_trailer-eq-ok h frame total {crc_start} all e =
    let (t, a₁, e₁) = >>=-eq-ok (ok_or (checked_sub total 8) _) _ e in
    let ((trailer, c₁), a₂, e₂) = >>=-eq-ok (read_u64 frame t) _ e₁ in
    let (total', a₃, e₃) = >>=-eq-ok (ok_or (try_from u64_mod total) _) _ e₂ in
    let (a₄, e₄) = >>-eq-ok (trailer == total') _ _ e₃ in
    let (start, a₅, e₅) = >>=-eq-ok (ok_or (checked_sub total 12) _) _ e₄ in
    let ((crc, c₂), a₆, e₆) = >>=-eq-ok (read_u32 frame start) _ e₅ in
    let (covered, a₇, e₇) = >>=-eq-ok (ok_or (get_range? frame 0 start) _) _ e₆ in
    let (a₈, e₈) = >>-eq-ok (h.crc32 covered == crc) _ _ e₇ in
    let s₁ = checked_sub-eq-some total 8 (ok_or-eq-ok _ _ a₁) in
    let s₂ = checked_sub-eq-some total 12 (ok_or-eq-ok _ _ a₅) in
    let r₁ = read_u64-eq-ok frame all t a₂ in
    let r₂ = read_u32-eq-ok frame all start a₆ in
    let u = try_from-eq-some u64_mod total (ok_or-eq-ok _ _ a₃) in
    let v₁ : Window frame start (to_be 4 (h.crc32 covered)) t =
      Window_cast frame refl (ap (to_be 4) (sym (==→eq (h.crc32 covered) crc a₈)))
        (trailer_start total start t c₂ s₂.0 s₂.1 s₁.1 r₂.1) r₂.0 in
    let v₂ : Window frame t (to_be 8 total) total =
      Window_cast frame refl (ap (to_be 8) (==→eq trailer total' a₄ ∙ sym u.0))
        (trailer_end total t c₁ s₁.0 s₁.1 r₁.1) r₁.0 in
    subst (Trailer h frame total) (ok-injective {E = FrameError} start crc_start e₈) (record {
      crc_start_eq = sym s₂.1;
      covered = covered;
      front = get_range?-Window frame 0 start (ok_or-eq-ok _ _ a₇);
      back = Window-append frame start (to_be 4 (h.crc32 covered)) t (to_be 8 total) total v₁ v₂;
    })
