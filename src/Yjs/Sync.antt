-- ===== src/Yjs/Sync.antt =====
-- Client and server of one field together: a GET, its STATE, and the update that goes back.
pub mod Answer
pub mod Converges
use cf_sync.Base.Text.{Text}
use cf_sync.Base.{
  false, length, some, true, ◌<◌, ◌≡◌, ◌≤◌, List, [], ap, arith, if◌then◌else◌, nat_beq, ok, ℕ, ◌∙◌,
  ◌∷◌,
}
use cf_sync.Protocol.FieldFrames.RoundTrip.{decode_field_frame-encode_field_frame}
use cf_sync.Protocol.FieldFrames.{
  FieldState, decode_field_frame, encode_field_frame, field_msg_get, field_msg_reject,
  max_field_id_bytes,
}
use cf_sync.Protocol.Utf8.{utf8_encode}
use cf_sync.Yjs.Client.{Entry, YjsFields, on_frame, send_get}
use cf_sync.Yjs.Hooks.{on_binary_message}
use cf_sync.Yjs.Server.Compact.{Restores}
use cf_sync.Yjs.Server.{
  Extension, MessageContext, Outgoing, YjsFieldsOptions, state_diff, to_others, to_socket,
}
use cf_sync.Yjs.{Bytes, Yjs}

-- What Yjs documents of its documents: states that merge, in any order and as often as one likes;
-- a diff against a state vector carries what the holder of the vector is missing, and an update of
-- two bytes at most carries nothing. What it encodes it decodes.
pub record IsCrdt {Doc : Type 0} (y : Yjs Doc) : Type 0 where
  pub merge : Doc → Doc → Doc
  pub merge_absorbs : (a b : Doc) → merge b (merge a b) ≡ merge a b
  pub restores : Restores y
  pub diff :
      (a b : Doc)
      → (update : Bytes) × (y.encode_diff b (y.encode_state_vector a) ≡ some update)
        × (y.decodes update ≡ true)
        × (y.apply_update a update ≡ (merge a b, false))
        × (length update ≤ 2 → merge a b ≡ a)
  pub has_vector : (a : Doc) → 0 < length (y.encode_state_vector a)

-- The frames of an outbox that reach a socket.
abbrev pub frames_for : ℕ → List Outgoing → List Bytes
frames_for ws [] = []
frames_for ws (to_socket v frame ∷ rest) =
    if nat_beq v ws then frame ∷ frames_for ws rest else frames_for ws rest
frames_for ws (to_others v frame ∷ rest) =
    if nat_beq v ws then frames_for ws rest else frame ∷ frames_for ws rest

module _ {Doc Auth : Type 0} (y : Yjs Doc) (options : YjsFieldsOptions Auth) (ws : ℕ)
    (ctx : MessageContext Auth) where
  abbrev pub upstream : List Bytes → Extension Doc → Extension Doc
  upstream [] x = x
  upstream (frame ∷ rest) x = upstream rest (on_binary_message y options ws frame ctx x).0

  abbrev pub downstream : List Bytes → YjsFields Doc → YjsFields Doc
  downstream [] s = s
  downstream (frame ∷ rest) s = downstream rest (on_frame y options.decoder frame s)

  -- The client asks for a field, the server answers, and the client's answer arrives: the server and
  -- the client afterwards.
  unfoldable pub sync_round :
      Entry Doc → YjsFields Doc → Extension Doc → Extension Doc × YjsFields Doc
  sync_round entry s x =
      let asked = send_get y options.decoder entry s in
      let answered = upstream asked.sent x in
      let told = downstream (frames_for ws answered.outgoing) (record asked { sent = [] }) in
      (upstream told.sent answered, told)

module _ {Doc Auth : Type 0} (y : Yjs Doc) (options : YjsFieldsOptions Auth) (crdt : IsCrdt y) where
  open crdt use {diff, has_vector}

  -- A field id that the binary frames carry and bring back.
  pub record IsCarried (g : Text) : Type 0 where
    pub some_id : 0 < length (utf8_encode g)
    pub short : length (utf8_encode g) ≤ max_field_id_bytes
    pub read_back : options.decoder (utf8_encode g) ≡ g

  -- A frame with that id: its bytes, and what they decode to.
  pub carried :
      (msg_type : ℕ) (g : Text) (payload : Bytes)
      → field_msg_get ≤ msg_type
      → msg_type ≤ field_msg_reject
      → IsCarried g
      → (bytes : Bytes) × (encode_field_frame msg_type g payload ≡ ok bytes)
        × (decode_field_frame options.decoder bytes
            ≡ some (record { msg_type = msg_type; field_id = g; payload = payload }))
  carried msg_type g payload low high c =
      let (bytes, e, d) =
        decode_field_frame-encode_field_frame options.decoder msg_type g payload low high c.some_id
          c.short in
      (
        bytes,
        e,
        d
            ∙ ap
                (λ (t : Text).
                  some (record { msg_type = msg_type; field_id = t; payload = payload }))
                c.read_back,
      )

  abbrev pub state_of : Doc → Bytes → FieldState
  state_of d update = record {
    writable = true;
    state_vector = y.encode_state_vector d;
    diff = update;
  }

  pub state_diff-vector :
      (a b : Doc) → state_diff y options b (y.encode_state_vector a) ≡ (diff a b).0
  state_diff-vector a b =
      let go : (sv : Bytes)
          → 0 < length sv
          → y.encode_diff b sv ≡ some (diff a b).0
          → state_diff y options b sv ≡ (diff a b).0 =
        λ sv some_bytes e.
          elim sv
              as (λ (v : Bytes).
                0 < length v
                → y.encode_diff b v ≡ some (diff a b).0
                → state_diff y options b v ≡ (diff a b).0) [
                  | [] ↦ λ h k. absurd (omega arith)
                  | v ∷ vs ↦ λ h k. ground arith
                ]
            some_bytes e in
      go (y.encode_state_vector a) (has_vector a) (diff a b).1
