-- ===== src/Yjs/Sync/Answer.antt =====
-- The two halves of a round: the server that answers a GET, and the client that learns a STATE.
use cf_sync.Base.JsMap
use cf_sync.Base.JsMap.{JsMap}
use cf_sync.Base.Text.{Text}
use cf_sync.Base.{
  Bool-cases, [], ap, arith, false, inl, inr, length, list_eq, nat_eq, ok, pair_eq, refl, some,
  subst, sym, true, ℕ, ◌++◌, ◌∷◌, ◌≡◌, ◌≤◌, ◌⊎◌,
}
use cf_sync.Protocol.FieldFrames.RoundTrip.{decode_field_state-encode_field_state}
use cf_sync.Protocol.FieldFrames.{
  decode_field_frame, decode_field_state, field_msg_get, field_msg_state, field_msg_update,
  max_field_update_bytes,
}
use cf_sync.Yjs.Client.{
  Entry, YjsFields, apply_state, is_empty_update, notify_changed, on_frame, on_state_frame,
  push_back, put_entry, send_update, with_state,
}
use cf_sync.Yjs.Hooks.History.{load_doc-eq-load_fresh}
use cf_sync.Yjs.Hooks.{on_binary_message}
use cf_sync.Yjs.Server.Coherent.{IsCoherent}
use cf_sync.Yjs.Server.{
  Extension, MessageContext, YjsFieldsOptions, cache_doc, emit, handle_get, is_frozen, is_refused,
  materialize, to_socket,
}
use cf_sync.Yjs.Sync.{IsCarried, IsCrdt, carried, state_diff-vector, state_of}
use cf_sync.Yjs.{Bytes, Yjs}

module _ {Doc Auth : Type 0} (y : Yjs Doc) (options : YjsFieldsOptions Auth) (crdt : IsCrdt y)
    (ws : ℕ) (ctx : MessageContext Auth) (g : Text) (carries : IsCarried y options crdt g) where
  open crdt use {merge, merge_absorbs, diff}

  -- The server: it holds the document `d`, and lets the socket write the field.
  pub record Serves (x : Extension Doc) (d : Doc) : Type 0 where
    pub coherent : IsCoherent y options x
    pub holds : materialize y options g x ≡ ok d
    pub ready : ctx.ready ≡ true
    pub granted : options.authorize_write g ctx ≡ true
    pub not_refused : is_refused y options ws g x ≡ false
    pub not_frozen : is_frozen (JsMap.get g x.fields) ≡ false
    pub vector_fits : length (y.encode_state_vector d) ≤ 0xffff

  pub answer_get :
      (x : Extension Doc) (d c : Doc) (frame : Bytes)
      → Serves x d
      → decode_field_frame options.decoder frame
        ≡ some
            (record { msg_type = field_msg_get; field_id = g; payload = y.encode_state_vector c })
      → (payload bytes : Bytes) × (decode_field_state payload
          ≡ some (state_of y options crdt d (diff c d).0))
        × (decode_field_frame options.decoder bytes
            ≡ some (record { msg_type = field_msg_state; field_id = g; payload = payload }))
        × ((on_binary_message y options ws frame ctx x).0
            ≡ emit y options (to_socket ws bytes) (cache_doc y options g d x))
  unfolding on_binary_message handle_get
  answer_get x d c frame v decoded =
      let state = state_of y options crdt d (diff c d).0 in
      let (payload, encoded, decodes) = decode_field_state-encode_field_state state v.vector_fits in
      let (bytes, framed, deframed) =
        carried y options crdt field_msg_state g payload (omega arith) (omega arith) carries in
      (
        payload,
        bytes,
        decodes,
        deframed,
        ground (
          arith,
          decoded,
          v.ready,
          v.granted,
          v.not_refused,
          v.not_frozen,
          v.holds,
          load_doc-eq-load_fresh y options g x v.coherent,
          state_diff-vector y options crdt c d,
        ),
      )

  -- The client: it holds the field, not refused, and has nothing else to send.
  pub record Holds (s : YjsFields Doc) (entry : Entry Doc) : Type 0 where
    pub there : JsMap.get g s.entries ≡ some entry
    pub at_id : entry.field_id ≡ g
    pub not_rejected : entry.rejected ≡ false
    pub none_sent : s.sent ≡ []

  pub learn_state :
      (s : YjsFields Doc) (entry : Entry Doc) (d : Doc) (payload bytes : Bytes)
      → Holds s entry
      → decode_field_state payload ≡ some (state_of y options crdt d (diff entry.doc d).0)
      → decode_field_frame options.decoder bytes
        ≡ some (record { msg_type = field_msg_state; field_id = g; payload = payload })
      → (learned : Entry Doc) × (learned.doc ≡ merge entry.doc d)
        × (learned.field_id ≡ g)
        × (learned.rejected ≡ false)
        × (on_frame y options.decoder bytes s
            ≡ apply_state y options.decoder learned
                (state_of y options crdt d (diff entry.doc d).0)
                s)
  unfolding on_frame on_state_frame
  learn_state s entry d payload bytes h decodes deframed =
      let (update, encoded, good, applies, small) = diff entry.doc d in
      elim (Bool-cases (is_empty_update update)) [
        | inl empty ↦ (
          entry,
          sym (small (ground arith)),
          h.at_id,
          h.not_rejected,
          ground (arith, decodes, deframed, h.there, empty),
        )
        | inr full ↦ (
          record entry { doc = merge entry.doc d },
          refl,
          h.at_id,
          h.not_rejected,
          ground (arith, decodes, deframed, h.there, full, applies),
        )
      ]

  -- What the client sends back for a document `e`.
  abbrev pub PushedBack : Doc → Doc → YjsFields Doc → Type 0
  PushedBack d e s =
      ((s.sent ≡ []) × (merge d e ≡ d))
      ⊎ ((bytes : Bytes) × (s.sent ≡ bytes ∷ [])
          × (decode_field_frame options.decoder bytes
              ≡ some
                  (record { msg_type = field_msg_update; field_id = g; payload = (diff d e).0 })))

  -- The writable field with what was pushed back.
  push_back-sends :
      (told : Entry Doc) (d : Doc) (s : YjsFields Doc)
      → told.can_write ≡ true
      → told.field_id ≡ g
      → s.sent ≡ []
      → length (diff d told.doc).0 ≤ max_field_update_bytes
      → (s' : YjsFields Doc) × (push_back y options.decoder told (y.encode_state_vector d) s
          ≡ (told, s'))
        × PushedBack d told.doc s'
  unfolding push_back send_update
  push_back-sends told d s writable at_id none_sent fits =
      let (update, encoded, good, applies, small) = diff d told.doc in
      let (bytes, framed, deframed) =
        carried y options crdt field_msg_update g update (omega arith) (omega arith) carries in
      elim (Bool-cases (is_empty_update update)) [
        | inl empty ↦
            (s, ground (arith, writable, encoded, empty), inl (none_sent, small (ground arith)))
        | inr full ↦ (
          record s { sent = s.sent ++ bytes ∷ [] },
          ground (arith, writable, encoded, full, framed, at_id),
          inr (bytes, ap (λ o. o ++ bytes ∷ []) none_sent, deframed),
        )
      ]

  pub answer_state :
      (s : YjsFields Doc) (learned : Entry Doc) (d : Doc) (got : Bytes)
      → learned.field_id ≡ g
      → learned.rejected ≡ false
      → s.sent ≡ []
      → length (diff d learned.doc).0 ≤ max_field_update_bytes
      → let s' = apply_state y options.decoder learned (state_of y options crdt d got) s in
        ((entry : Entry Doc) × (JsMap.get g s'.entries ≡ some entry) × (entry.doc ≡ learned.doc))
        × PushedBack d learned.doc s'
  answer_state s learned d got at_id open_one none_sent fits =
      let told = with_state y options.decoder learned (state_of y options crdt d got) in
      let final = notify_changed y options.decoder learned told in
      let (pushed, e, back) = push_back-sends told d s (ground arith) at_id none_sent fits in
      let whole : apply_state y options.decoder learned (state_of y options crdt d got) s
          ≡ put_entry final pushed =
        ap
          (λ (p : Entry Doc × YjsFields Doc).
            put_entry (notify_changed y options.decoder learned p.0) p.1)
          e in
      let final_id : final.field_id ≡ g = ground arith in
      let final_doc : final.doc ≡ learned.doc = ground arith in
      subst
        (λ z.
          ((entry : Entry Doc) × (JsMap.get g z.entries ≡ some entry) × (entry.doc ≡ learned.doc))
          × PushedBack d learned.doc z)
        (sym whole)
        (
          (
            final,
            ground (arith, final_id, JsMap.get-set_self final.field_id final pushed.entries),
            final_doc,
          ),
          back,
        )
