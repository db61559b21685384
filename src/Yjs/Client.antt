-- ===== src/Yjs/Client.antt =====
-- `createYjsFields` of packages/yjs/src/client.ts: the fields that a client holds.
pub mod Refused
use cf_sync.Base.JsMap
use cf_sync.Base.JsMap.{JsMap}
use cf_sync.Base.Text.{Text}
use cf_sync.Base.{
  Bool, List, Option, Result, [], err, false, if◌then◌else◌, leb, length, list_eq, ltb, nat_beq,
  nat_eq, none, not, ok, or_else, pair_eq, some, true, ℕ, ◌&&◌, ◌++◌, ◌+◌, ◌-◌, ◌==◌, ◌||◌, ◌∷◌,
}
use cf_sync.Protocol.FieldFrames.{
  FieldRejectReason, FieldState, decode_field_frame, decode_field_reject, decode_field_state,
  encode_field_frame, field_msg_get, field_msg_reject, field_msg_state, field_msg_update, frozen,
  max_field_id_bytes, max_field_update_bytes, not_writable, too_large,
}
use cf_sync.Protocol.Utf8.{utf8_encode}
use cf_sync.Yjs.{Bytes, Yjs}

pub data WriteBlockedReason : Type 0 where
  by_server : FieldRejectReason → WriteBlockedReason
  local_too_large : WriteBlockedReason

-- `notified` counts the calls of the listeners.
pub record Entry (Doc : Type 0) : Type 0 where
  pub field_id : Text
  pub doc : Doc
  pub refs : ℕ
  pub can_write : Bool
  pub rejected : Bool
  pub write_blocked : Option WriteBlockedReason
  pub synced : Bool
  pub notified : ℕ

-- The fields with the status of their client, and the frames that were sent.
pub record YjsFields (Doc : Type 0) : Type 0 where
  pub entries : JsMap Text (Entry Doc)
  pub destroyed : Bool
  pub client_synced : Bool
  pub sent : List Bytes

-- What `getDoc` throws.
pub data FieldsFault : Type 0 where
  fields_destroyed : FieldsFault
  bad_field_id : ℕ → FieldsFault

abbrev pub is_empty_update : Bytes → Bool
is_empty_update update = leb (length update) 2

abbrev pub bool_beq : Bool → Bool → Bool
bool_beq a b = if a then b else not b

abbrev pub reason_beq : FieldRejectReason → FieldRejectReason → Bool
reason_beq not_writable not_writable = true
reason_beq FieldRejectReason.frozen FieldRejectReason.frozen = true
reason_beq too_large too_large = true
reason_beq _ _ = false

-- `===` on `WriteBlockedReason | null`.
abbrev pub blocked_beq : Option WriteBlockedReason → Option WriteBlockedReason → Bool
blocked_beq none none = true
blocked_beq (some local_too_large) (some local_too_large) = true
blocked_beq (some (by_server r)) (some (by_server s)) = reason_beq r s
blocked_beq _ _ = false

module _ {Doc : Type 0} where
  abbrev pub put_entry : Entry Doc → YjsFields Doc → YjsFields Doc
  put_entry entry s = record s { entries = JsMap.set entry.field_id entry s.entries }

  abbrev pub notify : Entry Doc → Entry Doc
  notify entry = record entry { notified = entry.notified + 1 }

  -- A frame that cannot be encoded is thrown for, and not sent.
  abbrev pub send_binary : ℕ → Text → Bytes → YjsFields Doc → YjsFields Doc
  send_binary msg_type field_id payload s = elim (encode_field_frame msg_type field_id payload) [
    | err e ↦ s
    | ok frame ↦ record s { sent = s.sent ++ frame ∷ [] }
  ]

  -- The entry after the update is sent, or is found too large to be.
  unfoldable pub send_update : Entry Doc → Bytes → YjsFields Doc → Entry Doc × YjsFields Doc
  send_update entry update s =
      if ltb max_field_update_bytes (length update)
      then (
        notify (record entry {
          rejected = true;
          write_blocked = some local_too_large;
          can_write = false;
        }),
        s,
      )
      else (entry, send_binary field_msg_update entry.field_id update s)

module _ {Doc : Type 0} (y : Yjs Doc) (decoder : Bytes → Text) where
  open y use {new_doc, apply_update, encode_diff, encode_state_vector}

  abbrev pub send_get : Entry Doc → YjsFields Doc → YjsFields Doc
  send_get entry s = send_binary field_msg_get entry.field_id (encode_state_vector entry.doc) s

  abbrev pub on_update_frame : Entry Doc → Bytes → YjsFields Doc → YjsFields Doc
  on_update_frame entry payload s =
      put_entry (record entry { doc = (apply_update entry.doc payload).0 }) s

  -- The flags after a STATE: a refusal wins over the server's flag.
  abbrev pub with_state : Entry Doc → FieldState → Entry Doc
  with_state entry state = record entry {
    can_write = state.writable && not entry.rejected;
    write_blocked =
        if entry.rejected
        then entry.write_blocked
        else if state.writable
        then none
        else some (by_server not_writable);
    synced = true;
  }

  -- Everything that the server's state vector is missing goes back as one update.
  unfoldable pub push_back : Entry Doc → Bytes → YjsFields Doc → Entry Doc × YjsFields Doc
  unfolding send_update
  push_back entry state_vector s =
      if not entry.can_write then (entry, s) else elim (encode_diff entry.doc state_vector) [
        | none ↦ (entry, s)
        | some update ↦ if is_empty_update update then (entry, s) else send_update entry update s
      ]

  abbrev pub notify_changed : Entry Doc → Entry Doc → Entry Doc
  notify_changed was entry =
      if not (bool_beq entry.can_write was.can_write)
        || not (blocked_beq entry.write_blocked was.write_blocked)
        || not was.synced
      then notify entry
      else entry

  abbrev pub apply_state : Entry Doc → FieldState → YjsFields Doc → YjsFields Doc
  apply_state entry state s =
      let (pushed, s') = push_back (with_state entry state) state.state_vector s in
      put_entry (notify_changed entry pushed) s'

  -- A diff that does not apply leaves the flags as they were.
  unfoldable pub on_state_frame : Entry Doc → Bytes → YjsFields Doc → YjsFields Doc
  unfolding push_back
  on_state_frame entry payload s = elim (decode_field_state payload) [
    | none ↦ s
    | some state ↦
        if is_empty_update state.diff
        then apply_state entry state s
        else let (doc, threw) = apply_update entry.doc state.diff in
          let applied : Entry Doc = record entry { doc = doc } in
          if threw then put_entry applied s else apply_state applied state s
  ]

  abbrev pub on_reject_frame : Entry Doc → Bytes → YjsFields Doc → YjsFields Doc
  on_reject_frame entry payload s =
      put_entry
        (notify (record entry {
          rejected = true;
          write_blocked = some (by_server (or_else (decode_field_reject payload) not_writable));
          can_write = false;
        }))
        s

  unfoldable pub on_frame : Bytes → YjsFields Doc → YjsFields Doc
  unfolding on_state_frame
  on_frame bytes s = elim (decode_field_frame decoder bytes) [
    | none ↦ s
    | some frame ↦ elim (JsMap.get frame.field_id s.entries) [
      | none ↦ s
      | some entry ↦
          if nat_beq frame.msg_type field_msg_update
          then on_update_frame entry frame.payload s
          else if nat_beq frame.msg_type field_msg_state
          then on_state_frame entry frame.payload s
          else if nat_beq frame.msg_type field_msg_reject
          then on_reject_frame entry frame.payload s
          else s
    ]
  ]

  -- The document's `update` event for an edit of this client: Yjs has changed the document.
  unfoldable pub on_local_update : Text → Doc → Bytes → YjsFields Doc → YjsFields Doc
  unfolding send_update
  on_local_update field_id doc update s = elim (JsMap.get field_id s.entries) [
    | none ↦ s
    | some entry ↦
        let edited : Entry Doc = record entry { doc = doc } in
        if not edited.can_write || not s.client_synced
        then put_entry edited s
        else let (after, s') = send_update edited update s in put_entry after s'
  ]

  abbrev pub send_all_gets : JsMap Text (Entry Doc) → YjsFields Doc → YjsFields Doc
  send_all_gets [] s = s
  send_all_gets ((field_id, entry) ∷ rest) s = send_all_gets rest (send_get entry s)

  unfoldable pub on_status : Bool → YjsFields Doc → YjsFields Doc
  on_status synced s =
      let told : YjsFields Doc = record s { client_synced = synced } in
      if synced then send_all_gets s.entries told else told

  abbrev pub new_entry : Text → Entry Doc
  new_entry field_id = record {
    field_id = field_id;
    doc = new_doc;
    refs = 0;
    can_write = false;
    rejected = false;
    write_blocked = none;
    synced = false;
    notified = 0;
  }

  abbrev pub hold : Entry Doc → YjsFields Doc → YjsFields Doc
  hold entry s = put_entry (record entry { refs = entry.refs + 1 }) s

  unfoldable pub get_doc : Text → YjsFields Doc → Result FieldsFault (YjsFields Doc)
  get_doc field_id s =
      let id_len = length (utf8_encode field_id) in
      if s.destroyed
      then err fields_destroyed
      else if nat_beq id_len 0 || ltb max_field_id_bytes id_len
      then err (bad_field_id id_len)
      else elim (JsMap.get field_id s.entries) [
        | some entry ↦ ok (hold entry s)
        | none ↦
            let created = new_entry field_id in
            let s' = put_entry created s in
            ok (hold created (if s.client_synced then send_get created s' else s'))
      ]

  -- A handle is released once: the entry goes with its last handle.
  unfoldable pub release : Text → YjsFields Doc → YjsFields Doc
  release field_id s = elim (JsMap.get field_id s.entries) [
    | none ↦ s
    | some entry ↦
        if leb entry.refs 1
        then record s { entries = JsMap.delete field_id s.entries }
        else put_entry (record entry { refs = entry.refs - 1 }) s
  ]

  unfoldable pub destroy_fields : YjsFields Doc → YjsFields Doc
  destroy_fields s = if s.destroyed then s else record s { destroyed = true; entries = [] }
