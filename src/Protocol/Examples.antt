-- ===== src/Protocol/Examples.antt =====
-- Runs of src/protocol.rs: a number of two bytes, and a message with one update.
use quorum_loro_gateway.Prelude.{ℕ, ◌≡◌, refl, List, [], ◌∷◌, arith, ok}
use quorum_loro_gateway.Cursor.{Window, take_bytes}
use quorum_loro_gateway.Bytes.{checked_add, try_from, get_range?}
use quorum_loro_gateway.Protocol.{
  default_limits, byte, take, uleb128, uleb128_rounds, precheck, enforce_limit, var_len, skip_body,
  kind_of, skip_doc_update, skip_updates,
}
use quorum_loro_gateway.Protocol.Varint.{to_leb, uleb128-to_leb, IsRead, uleb128-IsRead}
use quorum_loro_gateway.Protocol.Accepted.{Accepted, precheck-Accepted}

abbrev input : List ℕ
input = 1 ∷ 172 ∷ 2 ∷ []

encoded : Window input 1 (to_leb 9 300) 3
unfolding to_leb
encoded = record { next_eq = refl; within = omega arith; split = refl }

uleb128-to_leb_example : uleb128 input 1 ≡ ok (300, 3)
uleb128-to_leb_example = uleb128-to_leb input (omega arith) 300 1 3 (omega arith) encoded

read : uleb128 input 1 ≡ ok (300, 3)
unfolding uleb128 uleb128_rounds byte take checked_add take_bytes get_range?
read = refl

uleb128-IsRead_example : IsRead input 10 1 300 3
uleb128-IsRead_example = uleb128-IsRead input 1 300 3 read

-- A room of two bytes and one update of two.
abbrev message : List ℕ
message = 37 ∷ 76 ∷ 79 ∷ 82 ∷ 2 ∷ 100 ∷ 49 ∷ 3 ∷ 1 ∷ 2 ∷ 5 ∷ 6 ∷ 0 ∷ 0 ∷ 0 ∷ 0 ∷ 0 ∷ 0 ∷ 0 ∷ 7 ∷ []

passes : precheck 1000 message (default_limits 1000) ≡ ok tt
unfolding precheck enforce_limit take take_bytes checked_add get_range? var_len uleb128
    uleb128_rounds byte try_from skip_body kind_of skip_doc_update skip_updates
passes = refl

precheck-Accepted_example : Accepted 1000 (default_limits 1000) message
precheck-Accepted_example = precheck-Accepted 1000 message (default_limits 1000) passes
