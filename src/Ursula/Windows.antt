-- ===== src/Ursula/Windows.antt =====
-- src/ursula.rs, `read_exact_window_once`: what a window that is accepted is.
use quorum_loro_gateway.Prelude.{
  ℕ, ◌+◌, ◌≡◌, ◌∙◌, inl, inr, refl, sym, Bool, Bool-cases, Option, none, some, Option-cases, String,
  List, [], ◌∷◌, ◌++◌, append-nil, append_assoc, ltb, arith, length, ok, Result-cases, ok-injective,
}
use quorum_loro_gateway.Bytes.{checked_add, try_from}
use quorum_loro_gateway.Ursula.{Response, read_body_bounded, check_window, is_unknown_status}

abbrev pub concat : List (List ℕ) → List ℕ
concat [] = []
concat (x ∷ xs) = x ++ concat xs

read_body-eq-ok :
    (max_bytes : ℕ) (failure : Option String) (output : List ℕ) (chunks : List (List ℕ))
    {body : List ℕ}
    → read_body_bounded max_bytes failure output chunks ≡ ok body
    → (failure ≡ none) × (body ≡ output ++ concat chunks)
unfolding read_body_bounded
read_body-eq-ok max_bytes none output [] {body} e =
    (refl, sym (ok-injective output body e) ∙ sym (append-nil output))
read_body-eq-ok max_bytes (some m) output [] e = cc
read_body-eq-ok max_bytes none output (chunk ∷ chunks) e =
    elim (Option-cases (checked_add (length output) (length chunk))) [
      | inl f ↦ cc (rw (f, read_body_bounded) at e)
      | inr (n, f) ↦ elim (Bool-cases (ltb max_bytes n)) [
        | inl large ↦ cc (rw large at (rw (f, read_body_bounded) at e))
        | inr fits ↦
            let (a, b) =
              read_body-eq-ok max_bytes none (output ++ chunk) chunks
                (rw fits at (rw (f, read_body_bounded) at e)) in
            (a, b ∙ append_assoc output chunk (concat chunks))
      ]
    ]
read_body-eq-ok max_bytes (some m) output (chunk ∷ chunks) e =
    elim (Option-cases (checked_add (length output) (length chunk))) [
      | inl f ↦ cc (rw (f, read_body_bounded) at e)
      | inr (n, f) ↦ elim (Bool-cases (ltb max_bytes n)) [
        | inl large ↦ cc (rw large at (rw (f, read_body_bounded) at e))
        | inr fits ↦
            let (a, b) =
              read_body-eq-ok max_bytes (some m) (output ++ chunk) chunks
                (rw fits at (rw (f, read_body_bounded) at e)) in
            (a, b ∙ append_assoc output chunk (concat chunks))
      ]
    ]

-- A window that was accepted.
pub record IsWindow (offset : ℕ) (r : Response) (body : List ℕ) (next : ℕ) (up_to_date : Bool)
    : Type 0 where
  pub good : r.status ≡ 200
  pub whole : r.failure ≡ none
  pub bytes : body ≡ concat r.chunks
  pub next_eq : next ≡ offset + length body
  pub marked : up_to_date ≡ r.up_to_date

pub check_window-IsWindow :
    (offset max_bytes : ℕ) (r : Response) (body : List ℕ) (next : ℕ) (up_to_date : Bool)
    → check_window offset max_bytes r ≡ ok (body, next, up_to_date)
    → IsWindow offset r body next up_to_date
unfolding check_window try_from checked_add is_unknown_status
check_window-IsWindow offset max_bytes r body next up_to_date e =
    elim (Result-cases (read_body_bounded max_bytes r.failure [] r.chunks)) [
      | inr (error, f) ↦ absurd (ground arith)
      | inl (known, f) ↦
          let (a, b) = read_body-eq-ok max_bytes r.failure [] r.chunks f in
          record {
            good = ground arith;
            whole = a;
            bytes = ground (arith, b);
            next_eq = ground arith;
            marked = ground arith;
          }
    ]
