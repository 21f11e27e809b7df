-- ===== src/Ursula/Examples.antt =====
-- A run of the read loop of src/ursula.rs on a service that gives two bytes at a time.
use quorum_loro_gateway.Prelude.{
  ℕ, ◌+◌, ◌≡◌, ◌≢◌, ◌∙◌, refl, sym, ap, Bool, true, false, none, some, List, [], ◌∷◌, ◌++◌,
  append-nil, length, take, drop, take-append-drop, Result, ok,
}
use mathlib.Core.Path.{subst}
use quorum_loro_gateway.Bytes.{checked_add, try_from}
use quorum_loro_gateway.Store.{StoreError, Task}
use quorum_loro_gateway.Ursula.{
  Response, ReadConfig, read_all, read_rounds, on_window, on_output, extend_output,
  read_exact_window, retry_window, read_exact_window_once, check_window, read_body_bounded,
}
use quorum_loro_gateway.Ursula.ReadAll.{ServiceLaws, read_all-contents}
use quorum_loro_gateway.Ursula.Windows.{concat}
use quorum_loro_gateway.Ursula.Total.{read_all_terminates}

abbrev is_end : List ℕ → Bool
is_end [] = true
is_end (x ∷ xs) = false

abbrev answer : ℕ → ℕ → List ℕ → Response
answer offset n bytes = record {
  status = 200;
  next_offset = some (offset + length (take n (drop offset bytes)));
  up_to_date = is_end (drop n (drop offset bytes));
  chunks = take n (drop offset bytes) ∷ [];
  failure = none;
}

-- The state of the service is the bytes of its one stream.
abbrev get : List ℕ → ℕ → ℕ → Task (List ℕ) StoreError Response
get stream offset n bytes = (ok (answer offset n bytes), bytes)

is_end-true : (xs : List ℕ) → is_end xs ≡ true → xs ≡ []
is_end-true [] e = refl
is_end-true (x ∷ xs) e = cc

answer_shows :
    (offset n : ℕ) (bytes : List ℕ)
    → (rest : List ℕ) × (drop offset bytes ≡ concat (answer offset n bytes).chunks ++ rest)
      × ((answer offset n bytes).up_to_date ≡ true → rest ≡ [])
answer_shows offset n bytes = (
  drop n (drop offset bytes),
  sym (
      ap (λ (l : List ℕ). l ++ drop n (drop offset bytes)) (append-nil (take n (drop offset bytes)))
      ∙ take-append-drop n (drop offset bytes)),
  is_end-true (drop n (drop offset bytes)),
)

same_response :
    (a b : Response) (s t : List ℕ)
    → ◌≡◌ {A = Result StoreError Response × List ℕ} (ok a, s) (ok b, t)
    → a ≡ b
same_response a b s t e = cc

abbrev config : ReadConfig
config = record { read_chunk_bytes = 2; max_stream_bytes = 10; safe_retries = 1 }

abbrev laws : ServiceLaws get config
laws = record {
  contents = λ bytes stream. bytes;
  get_keeps = λ t stream offset n bytes. refl;
  get_shows = λ stream offset n bytes bytes' r e good whole.
      subst
        (λ (a : Response).
          (rest : List ℕ) × (drop offset bytes ≡ concat a.chunks ++ rest)
          × (a.up_to_date ≡ true → rest ≡ []))
        (same_response (answer offset n bytes) r bytes bytes' e) (answer_shows offset n bytes);
}

run : read_all get config [] (5 ∷ 6 ∷ 7 ∷ []) ≡ some (ok (5 ∷ 6 ∷ 7 ∷ []), 5 ∷ 6 ∷ 7 ∷ [])
unfolding read_all read_rounds on_window on_output extend_output read_exact_window retry_window
    read_exact_window_once check_window read_body_bounded checked_add try_from
run = refl

read_all-contents_example : 5 ∷ 6 ∷ 7 ∷ [] ≡ laws.contents (5 ∷ 6 ∷ 7 ∷ []) []
read_all-contents_example =
    read_all-contents get config [] laws (5 ∷ 6 ∷ 7 ∷ []) (5 ∷ 6 ∷ 7 ∷ []) (5 ∷ 6 ∷ 7 ∷ []) run

read_all_terminates_example : read_all get config [] (5 ∷ 6 ∷ 7 ∷ []) ≢ none
read_all_terminates_example = read_all_terminates get config [] (5 ∷ 6 ∷ 7 ∷ [])
