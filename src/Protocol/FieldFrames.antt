-- ===== src/Protocol/FieldFrames.antt =====
-- The binary frames of packages/protocol/src/field-frames.ts: lists of bytes, integers big-endian.
pub mod RoundTrip
use cf_sync.Base.Text.{Text}
use cf_sync.Base.{
  Bool, List, Option, Result, [], drop, err, if◌then◌else◌, length, ltb, nat_beq, none, not, ok,
  some, take, ℕ, ◌%◌, ◌*◌, ◌++◌, ◌+◌, ◌/◌, ◌||◌, ◌∷◌,
}
use cf_sync.Protocol.Utf8.{utf8_encode}

abbrev pub field_msg_get : ℕ
field_msg_get = 1

abbrev pub field_msg_state : ℕ
field_msg_state = 2

abbrev pub field_msg_update : ℕ
field_msg_update = 3

abbrev pub field_msg_reject : ℕ
field_msg_reject = 4

abbrev pub max_field_update_bytes : ℕ
max_field_update_bytes = 200_000

abbrev pub max_field_bytes : ℕ
max_field_bytes = 700_000

abbrev pub max_field_id_bytes : ℕ
max_field_id_bytes = 256

abbrev pub field_state_writable : ℕ
field_state_writable = 1

pub data FieldRejectReason : Type 0 where
  not_writable frozen too_large : FieldRejectReason

pub record FieldFrame : Type 0 where
  pub msg_type : ℕ
  pub field_id : Text
  pub payload : List ℕ

pub record FieldState : Type 0 where
  pub writable : Bool
  pub state_vector : List ℕ
  pub diff : List ℕ

-- The errors that the encoders throw, with the length that is refused.
pub data FieldFault : Type 0 where
  field_id_length state_vector_length : ℕ → FieldFault

-- `DataView.setUint16` and `getUint16`.
abbrev pub set_uint16 : ℕ → List ℕ
set_uint16 n = n / 256 % 256 ∷ n % 256 ∷ []

abbrev pub get_uint16 : ℕ → ℕ → ℕ
get_uint16 high low = high * 256 + low

unfoldable pub encode_field_frame : ℕ → Text → List ℕ → Result FieldFault (List ℕ)
encode_field_frame msg_type field_id payload =
    let id_bytes = utf8_encode field_id in
    if nat_beq (length id_bytes) 0 || ltb max_field_id_bytes (length id_bytes)
    then err (field_id_length (length id_bytes))
    else ok (msg_type ∷ set_uint16 (length id_bytes) ++ id_bytes ++ payload)

-- `decoder` is `TextDecoder.decode`, which replaces what it cannot read and throws nothing.
unfoldable pub decode_field_frame : (List ℕ → Text) → List ℕ → Option FieldFrame
decode_field_frame decoder (msg_type ∷ high ∷ low ∷ rest) =
    let id_len = get_uint16 high low in
    if ltb msg_type field_msg_get || ltb field_msg_reject msg_type
    then none
    else if nat_beq id_len 0 || ltb max_field_id_bytes id_len || ltb (length rest) id_len
    then none
    else some (record {
      msg_type = msg_type;
      field_id = decoder (take id_len rest);
      payload = drop id_len rest;
    })
decode_field_frame decoder [] = none
decode_field_frame decoder (a ∷ []) = none
decode_field_frame decoder (a ∷ b ∷ []) = none

unfoldable pub encode_field_state : FieldState → Result FieldFault (List ℕ)
encode_field_state state =
    if ltb 0xffff (length state.state_vector)
    then err (state_vector_length (length state.state_vector))
    else ok (
        (if state.writable then field_state_writable else 0)
          ∷ set_uint16 (length state.state_vector)
        ++ state.state_vector
        ++ state.diff)

-- `flags & 1` is the flags' parity.
unfoldable pub decode_field_state : List ℕ → Option FieldState
decode_field_state (flags ∷ high ∷ low ∷ rest) =
    let sv_len = get_uint16 high low in
    if ltb (length rest) sv_len
    then none
    else some (record {
      writable = not (nat_beq (flags % 2) 0);
      state_vector = take sv_len rest;
      diff = drop sv_len rest;
    })
decode_field_state [] = none
decode_field_state (a ∷ []) = none
decode_field_state (a ∷ b ∷ []) = none

unfoldable pub encode_field_reject : FieldRejectReason → List ℕ
encode_field_reject not_writable = 1 ∷ []
encode_field_reject frozen = 2 ∷ []
encode_field_reject too_large = 3 ∷ []

abbrev pub reject_reason : ℕ → Option FieldRejectReason
reject_reason code =
    if nat_beq code 1
    then some not_writable
    else if nat_beq code 2
    then some frozen
    else if nat_beq code 3
    then some too_large
    else none

unfoldable pub decode_field_reject : List ℕ → Option FieldRejectReason
decode_field_reject [] = none
decode_field_reject (code ∷ []) = reject_reason code
decode_field_reject (a ∷ b ∷ rest) = none
