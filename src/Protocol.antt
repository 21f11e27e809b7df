-- ===== src/Protocol.antt =====
-- src/protocol.rs: the check of a message's lengths before the official codec is called. A reader is
-- the input with a cursor; a step that moves the cursor returns the new one.
pub mod Varint
pub mod Accepted
mod Examples
use quorum_loro_gateway.Prelude.{
  ℕ, zero, suc, ◌+◌, ◌*◌, ◌%◌, ◌^◌, Bool, true, false, not, ◌&&◌, String, List, [], ◌∷◌, ltb, leb,
  ◌==◌, if◌then◌else◌, length, Result, ok, err, ◌>>=◌, ◌>>◌, guard, ok_or, map_err,
}
use Prim.Native.Nat.{min}
use quorum_loro_gateway.Bytes.{u32_mod, u64_mod, checked_add, try_from}
use quorum_loro_gateway.Cursor.{take_bytes}
use quorum_loro_gateway.LoroProtocol.{ProtocolMessage}

pub record ProtocolLimits : Type 0 where
  pub max_message_bytes : ℕ
  pub max_room_id_bytes : ℕ
  pub max_updates : ℕ
  pub max_update_bytes : ℕ
  pub max_updates_bytes : ℕ

-- The longest message is a constant of the crate `loro_protocol`.
abbrev pub default_limits : ℕ → ProtocolLimits
default_limits max_message_size = record {
  max_message_bytes = max_message_size;
  max_room_id_bytes = 128;
  max_updates = 4096;
  max_update_bytes = max_message_size;
  max_updates_bytes = max_message_size;
}

pub data ProtocolDecodeError : Type 0 where
  truncated length_overflow : ProtocolDecodeError
  limit_exceeded : String → ℕ → ℕ → ProtocolDecodeError
  invalid official_codec : String → ProtocolDecodeError

unfoldable pub enforce_limit : String → ℕ → ℕ → Result ProtocolDecodeError Unit
enforce_limit resource actual limit =
    if ltb limit actual then err (limit_exceeded resource actual limit) else ok tt

unfoldable pub take : List ℕ → ℕ → ℕ → Result ProtocolDecodeError (List ℕ × ℕ)
take = take_bytes truncated truncated

abbrev pub first_of : List ℕ → ℕ
first_of [] = 0
first_of (b ∷ bs) = b

-- `self.take(1)?[0]`
unfoldable pub byte : List ℕ → ℕ → Result ProtocolDecodeError (ℕ × ℕ)
byte input cursor = do (bytes, next) ← take input cursor 1; ok (first_of bytes, next)

-- The loop of `uleb128`, with the rounds that are left. `byte & 0x7f` is the remainder by 128,
-- `byte & 0x80 == 0` is a byte below 128, and the bits that `|=` adds lie above those of `result`.
unfoldable pub uleb128_rounds : ℕ → List ℕ → ℕ → ℕ → ℕ → Result ProtocolDecodeError (ℕ × ℕ)
uleb128_rounds zero input result shift cursor = err length_overflow
uleb128_rounds (suc n) input result shift cursor = do
  (b, next) ← byte input cursor
  guard (not ((shift == 63) && ltb 1 (b % 128))) length_overflow
  let result' = result + (b % 128) * 2 ^ shift
  elim (ltb b 128) [
    | true ↦ ok (result', next)
    | false ↦ do
      shift' ← ok_or (checked_add shift 7) length_overflow
      guard (leb shift' 63) length_overflow
      uleb128_rounds n input result' shift' next
  ]

-- The shift grows by seven and stays within 63, so ten rounds are enough.
unfoldable pub uleb128 : List ℕ → ℕ → Result ProtocolDecodeError (ℕ × ℕ)
uleb128 input cursor = uleb128_rounds 10 input 0 0 cursor

unfoldable pub var_len : List ℕ → ℕ → Result ProtocolDecodeError (ℕ × ℕ)
var_len input cursor = do
  (v, next) ← uleb128 input cursor
  len ← ok_or (try_from u64_mod v) length_overflow
  ok (len, next)

unfoldable pub var_bytes : List ℕ → ℕ → Result ProtocolDecodeError (List ℕ × ℕ)
var_bytes input cursor = do (len, next) ← var_len input cursor; take input next len

-- `for _ in 0..count`: the cursor behind the updates, whose lengths add up from `sum` on.
unfoldable pub skip_updates : ProtocolLimits → List ℕ → ℕ → ℕ → ℕ → Result ProtocolDecodeError ℕ
skip_updates limits input zero cursor sum = ok cursor
skip_updates limits input (suc n) cursor sum = do
  (len, c₁) ← var_len input cursor
  enforce_limit "individual update bytes" len limits.max_update_bytes
  sum' ← ok_or (checked_add sum len) length_overflow
  enforce_limit "aggregate update bytes" sum' limits.max_updates_bytes
  (_, c₂) ← take input c₁ len
  skip_updates limits input n c₂ sum'

-- `if test { reader.var_bytes()?; }`
unfoldable pub skip_if : Bool → List ℕ → ℕ → Result ProtocolDecodeError ℕ
skip_if false input cursor = ok cursor
skip_if true input cursor = do (_, next) ← var_bytes input cursor; ok next

unfoldable pub skip_join_error : List ℕ → ℕ → Result ProtocolDecodeError ℕ
skip_join_error input cursor = do
  (code, c₁) ← byte input cursor
  (_, c₂) ← var_bytes input c₁
  c₃ ← skip_if ((code == 0x01) && not (c₂ == length input)) input c₂
  skip_if ((code == 0x7f) && not (c₃ == length input)) input c₃

unfoldable pub skip_doc_update : ProtocolLimits → List ℕ → ℕ → Result ProtocolDecodeError ℕ
skip_doc_update limits input cursor = do
  (count, c₁) ← var_len input cursor
  enforce_limit "update count" count limits.max_updates
  c₂ ← skip_updates limits input count c₁ 0
  (_, c₃) ← take input c₂ 8
  ok c₃

-- The kinds of message, by the byte behind the room ID.
pub data Kind : Type 0 where
  join_request join_response_ok join_error doc_update fragment_header : Kind
  fragment room_error leave ack unknown : Kind

unfoldable pub kind_of : ℕ → Kind
kind_of t =
    if t == 0x00
    then join_request
    else if t == 0x01
    then join_response_ok
    else if t == 0x02
    then join_error
    else if t == 0x03
    then doc_update
    else if t == 0x04
    then fragment_header
    else if t == 0x05
    then fragment
    else if t == 0x06
    then room_error
    else if t == 0x07
    then leave
    else if t == 0x08
    then ack
    else unknown

-- `match message_type`: the cursor behind the message's body.
unfoldable pub skip_body : ProtocolLimits → List ℕ → Kind → ℕ → Result ProtocolDecodeError ℕ
skip_body limits input join_request c = do
  (_, c₁) ← var_bytes input c
  (_, c₂) ← var_bytes input c₁
  ok c₂
skip_body limits input join_response_ok c = do
  (_, c₁) ← var_bytes input c
  (_, c₂) ← var_bytes input c₁
  (_, c₃) ← var_bytes input c₂
  ok c₃
skip_body limits input join_error c = skip_join_error input c
skip_body limits input doc_update c = skip_doc_update limits input c
skip_body limits input fragment_header c = do
  (_, c₁) ← take input c 8
  (_, c₂) ← uleb128 input c₁
  (_, c₃) ← uleb128 input c₂
  ok c₃
skip_body limits input fragment c = do
  (_, c₁) ← take input c 8
  (_, c₂) ← uleb128 input c₁
  (_, c₃) ← var_bytes input c₂
  ok c₃
skip_body limits input room_error c = do (_, c₁) ← byte input c; (_, c₂) ← var_bytes input c₁; ok c₂
skip_body limits input leave c = ok c
skip_body limits input ack c = do (_, c₁) ← take input c 9; ok c₁
skip_body limits input unknown c = err (invalid "unknown message type")

module _ (max_message_size : ℕ) where
  unfoldable pub precheck : List ℕ → ProtocolLimits → Result ProtocolDecodeError Unit
  precheck input limits = do
    enforce_limit "message bytes" (length input) (min limits.max_message_bytes max_message_size)
    (_, c₁) ← take input 0 4
    (room_len, c₂) ← var_len input c₁
    enforce_limit "room ID bytes" room_len limits.max_room_id_bytes
    (_, c₃) ← take input c₂ room_len
    (message_type, c₄) ← byte input c₃
    c₅ ← skip_body limits input (kind_of message_type) c₄
    guard (c₅ == length input) (invalid "trailing message bytes")

  -- `loro_protocol::decode` is the codec.
  unfoldable pub decode_bounded :
      (List ℕ → Result String ProtocolMessage)
      → List ℕ
      → ProtocolLimits
      → Result ProtocolDecodeError ProtocolMessage
  decode_bounded codec input limits = do precheck input limits; map_err (codec input) official_codec
