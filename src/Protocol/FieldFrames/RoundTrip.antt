-- ===== src/Protocol/FieldFrames/RoundTrip.antt =====
-- What is decoded from a binary frame.
use cf_sync.Base.Text.{Text}
use cf_sync.Base.{
  List, [], ap, arith, drop, if◌then◌else◌, length, length-append, ok, refl, some, take, ℕ, ◌%◌,
  ◌++◌, ◌/◌, ◌<◌, ◌∷◌, ◌≡◌, ◌≤◌,
}
use cf_sync.Protocol.FieldFrames.{
  FieldState, decode_field_frame, decode_field_state, encode_field_frame, encode_field_state,
  field_msg_get, field_msg_reject, field_state_writable, get_uint16, max_field_id_bytes, set_uint16,
}
use cf_sync.Protocol.Utf8.{utf8_encode}

module _ {A : Type 0} where
  take-append : (xs ys : List A) → take (length xs) (xs ++ ys) ≡ xs
  take-append [] ys = refl
  take-append (x ∷ xs) ys = ap (λ t. x ∷ t) (take-append xs ys)

  drop-append : (xs ys : List A) → drop (length xs) (xs ++ ys) ≡ ys
  drop-append [] ys = refl
  drop-append (x ∷ xs) ys = drop-append xs ys

uint16 : (n : ℕ) → n ≤ 0xffff → get_uint16 (n / 256 % 256) (n % 256) ≡ n
uint16 n h = omega arith

-- A frame of one of the four types, whose field id takes 1 to 256 bytes of UTF-8, is encoded, and is
-- decoded to its type, its payload, and what TextDecoder reads in the bytes of its field id.
pub decode_field_frame-encode_field_frame :
    (decoder : List ℕ → Text) (msg_type : ℕ) (field_id : Text) (payload : List ℕ)
    → field_msg_get ≤ msg_type
    → msg_type ≤ field_msg_reject
    → 0 < length (utf8_encode field_id)
    → length (utf8_encode field_id) ≤ max_field_id_bytes
    → (bytes : List ℕ) × (encode_field_frame msg_type field_id payload ≡ ok bytes)
      × (decode_field_frame decoder bytes
          ≡ some (record {
            msg_type = msg_type;
            field_id = decoder (utf8_encode field_id);
            payload = payload;
          }))
unfolding encode_field_frame decode_field_frame
decode_field_frame-encode_field_frame decoder msg_type field_id payload low high some_id short =
    let id = utf8_encode field_id in
    (
      msg_type ∷ set_uint16 (length id) ++ id ++ payload,
      ground arith,
      ground (
        arith,
        uint16 (length id),
        take-append id payload,
        drop-append id payload,
        length-append id payload,
      ),
    )

-- A state whose state vector fits its 16-bit length is encoded, and is decoded to itself.
pub decode_field_state-encode_field_state :
    (state : FieldState)
    → length state.state_vector ≤ 0xffff
    → (bytes : List ℕ) × (encode_field_state state ≡ ok bytes)
      × (decode_field_state bytes ≡ some state)
unfolding encode_field_state decode_field_state
decode_field_state-encode_field_state state short =
    let sv = state.state_vector in
    (
      (if state.writable then field_state_writable else 0) ∷ set_uint16 (length sv)
          ++ sv
          ++ state.diff,
      ground arith,
      ground (
        arith,
        uint16 (length sv) short,
        take-append sv state.diff,
        drop-append sv state.diff,
        length-append sv state.diff,
      ),
    )
