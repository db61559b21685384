-- ===== src/Yjs/Sync/Converges.antt =====
-- One round trip brings a field's documents together.
use cf_sync.Base.JsMap
use cf_sync.Base.JsMap.{JsMap}
use cf_sync.Base.Text.{Text}
use cf_sync.Base.{
  List, [], ap, arith, inl, inr, length, list_eq, nat_beq_iff, nat_eq, ok, pair_eq, refl, some,
  subst, sym, ℕ, ◌∙◌, ◌∷◌, ◌≡◌, ◌≤◌,
}
use cf_sync.Protocol.FieldFrames.{
  decode_field_frame, encode_field_frame, field_msg_get, field_msg_update, max_field_update_bytes,
}
use cf_sync.Yjs.Client.{Entry, YjsFields, apply_state, on_frame, send_get}
use cf_sync.Yjs.Hooks.{on_binary_message}
use cf_sync.Yjs.Server.Append.{appended_field-materialize}
use cf_sync.Yjs.Server.Cases.{accepted}
use cf_sync.Yjs.Server.Coherent.{cache_doc-IsCoherent}
use cf_sync.Yjs.Server.{
  Extension, MessageContext, YjsFieldsOptions, cache_doc, emit, handle_update, materialize,
  to_socket,
}
use cf_sync.Yjs.Sync.Answer.{Holds, PushedBack, Serves, answer_get, answer_state, learn_state}
use cf_sync.Yjs.Sync.{
  IsCarried, IsCrdt, carried, downstream, frames_for, state_of, sync_round, upstream,
}
use cf_sync.Yjs.{Bytes, Yjs}

module _ {Doc Auth : Type 0} (y : Yjs Doc) (options : YjsFieldsOptions Auth) (crdt : IsCrdt y)
    (ws : ℕ) (ctx : MessageContext Auth) (g : Text) (carries : IsCarried y options crdt g) where
  open crdt use {merge, merge_absorbs, diff}

  abbrev pub Serving : Extension Doc → Doc → Type 0
  Serving = Serves y options crdt ws ctx g carries

  abbrev pub Holding : YjsFields Doc → Entry Doc → Type 0
  Holding = Holds y options crdt ws ctx g carries

  cache_doc-Serves :
      (x : Extension Doc) (d : Doc) (bytes : Bytes)
      → Serving x d
      → Serving (emit y options (to_socket ws bytes) (cache_doc y options g d x)) d
  unfolding cache_doc
  cache_doc-Serves x d bytes v = record {
    coherent = cache_doc-IsCoherent y options x v.coherent g d v.holds;
    holds = v.holds;
    ready = v.ready;
    granted = v.granted;
    not_refused = v.not_refused;
    not_frozen = v.not_frozen;
    vector_fits = v.vector_fits;
  }

  accept_push :
      (x : Extension Doc) (d e : Doc) (bytes : Bytes)
      → Serving x d
      → length (diff d e).0 ≤ max_field_update_bytes
      → decode_field_frame options.decoder bytes
        ≡ some (record { msg_type = field_msg_update; field_id = g; payload = (diff d e).0 })
      → materialize y options g (on_binary_message y options ws bytes ctx x).0 ≡ ok (merge d e)
  unfolding on_binary_message handle_update
  accept_push x d e bytes v fits deframed =
      let (update, encoded, good, applies, small) = diff d e in
      let whole : (on_binary_message y options ws bytes ctx x).0
          ≡ accepted y options ws g update bytes x =
        ground (arith, deframed, v.ready, v.granted, v.not_refused, v.not_frozen, good, fits) in
      ap (materialize y options g) whole
      ∙ appended_field-materialize y options g update x d v.coherent v.holds
      ∙ ap (λ p. ok p.0) applies

  -- The round, once its parts are known.
  round_of :
      (x x1 : Extension Doc) (s told : YjsFields Doc) (entry : Entry Doc) (ask bytes : Bytes)
      → encode_field_frame field_msg_get entry.field_id (y.encode_state_vector entry.doc) ≡ ok ask
      → s.sent ≡ []
      → (on_binary_message y options ws ask ctx x).0 ≡ x1
      → frames_for ws x1.outgoing ≡ bytes ∷ []
      → on_frame y options.decoder bytes (record s { sent = [] }) ≡ told
      → sync_round y options ws ctx entry s x ≡ (upstream y options ws ctx told.sent x1, told)
  unfolding sync_round
  round_of x x1 s told entry ask bytes framed none_sent answered frames learned =
      let s0 : YjsFields Doc = record s { sent = [] } in
      let after : YjsFields Doc → Extension Doc × YjsFields Doc =
        λ t. (upstream y options ws ctx t.sent x1, t) in
      let from_frames : List Bytes → Extension Doc × YjsFields Doc =
        λ fs. after (downstream y options ws ctx fs s0) in
      let from_answer : Extension Doc → Extension Doc × YjsFields Doc = λ z.
        let t = downstream y options ws ctx (frames_for ws z.outgoing) s0 in
        (upstream y options ws ctx t.sent z, t) in
      let from_asked : YjsFields Doc → Extension Doc × YjsFields Doc = λ asked.
        let z = upstream y options ws ctx asked.sent x in
        let t =
          downstream y options ws ctx (frames_for ws z.outgoing) (record asked { sent = [] }) in
        (upstream y options ws ctx t.sent z, t) in
      let asked : send_get y options.decoder entry s ≡ record s { sent = ask ∷ [] } =
        ground (arith, framed, none_sent) in
      ap from_asked asked ∙ ap from_answer answered ∙ ap from_frames frames ∙ ap after learned

  pushed-materialize :
      (x1 : Extension Doc) (d e : Doc) (told : YjsFields Doc)
      → Serving x1 d
      → length (diff d e).0 ≤ max_field_update_bytes
      → PushedBack y options crdt ws ctx g carries d e told
      → materialize y options g (upstream y options ws ctx told.sent x1) ≡ ok (merge d e)
  pushed-materialize x1 d e told v fits (inl (none_sent, same)) =
      ap (λ fs. materialize y options g (upstream y options ws ctx fs x1)) none_sent
      ∙ v.holds
      ∙ ap ok (sym same)
  pushed-materialize x1 d e told v fits (inr (bytes, one, deframed)) =
      ap (λ fs. materialize y options g (upstream y options ws ctx fs x1)) one
      ∙ accept_push x1 d e bytes v fits deframed

  -- Where Yjs keeps the laws of IsCrdt, take a field whose id takes 1 to 256 bytes of UTF-8 that
  -- the decoder reads back as the id, a client that holds it, not refused on it and with nothing
  -- else to send, and a server with nothing else to send, which is coherent, holds the field,
  -- neither frozen nor refused to the socket, lets the ready socket write it, and has a state
  -- vector of it of at most 65535 bytes. Both hold the merge of their two documents after one
  -- round: the GET, the STATE that answers it, and the update that the client sends back if
  -- there is one, which must be at most the largest update.
  pub sync_round-converges :
      (x : Extension Doc) (d : Doc) (s : YjsFields Doc) (entry : Entry Doc)
      → Serving x d
      → Holding s entry
      → x.outgoing ≡ []
      → length (diff d (merge entry.doc d)).0 ≤ max_field_update_bytes
      → let (x', s') = sync_round y options ws ctx entry s x in
        (materialize y options g x' ≡ ok (merge entry.doc d))
        × ((after : Entry Doc) × (JsMap.get g s'.entries ≡ some after)
            × (after.doc ≡ merge entry.doc d))
  sync_round-converges x d s entry v h quiet fits =
      let c = entry.doc in
      let s0 : YjsFields Doc = record s { sent = [] } in
      let h0 : Holding s0 entry = record {
        there = h.there;
        at_id = h.at_id;
        not_rejected = h.not_rejected;
        none_sent = refl;
      } in
      let (ask, framed, asked) =
        carried y options crdt field_msg_get g (y.encode_state_vector c) (omega arith) (omega arith)
          carries in
      let (payload, bytes, decodes, deframed, answered) =
        answer_get y options crdt ws ctx g carries x d c ask v asked in
      let x1 = emit y options (to_socket ws bytes) (cache_doc y options g d x) in
      let served = cache_doc-Serves x d bytes v in
      let (learned, l_doc, l_id, l_open, l_whole) =
        learn_state y options crdt ws ctx g carries s0 entry d payload bytes h0 decodes deframed in
      let told =
        apply_state y options.decoder learned (state_of y options crdt d (diff c d).0) s0 in
      let l_fits = subst (λ e. length (diff d e).0 ≤ max_field_update_bytes) (sym l_doc) fits in
      let ((after, there, a_doc), back) =
        answer_state y options crdt ws ctx g carries s0 learned d (diff c d).0 l_id l_open refl
          l_fits in
      let frames : frames_for ws x1.outgoing ≡ bytes ∷ [] =
        unfold cache_doc in ground (arith, quiet, nat_beq_iff ws ws) in
      let whole =
        round_of x x1 s told entry ask bytes
          (subst (λ t. encode_field_frame field_msg_get t (y.encode_state_vector c) ≡ ok ask)
            (sym h.at_id) framed)
          h.none_sent answered frames l_whole in
      subst
        (λ r.
          (materialize y options g r.0 ≡ ok (merge c d))
          × ((final : Entry Doc) × (JsMap.get g r.1.entries ≡ some final)
              × (final.doc ≡ merge c d)))
        (sym whole)
        (
          pushed-materialize x1 d learned.doc told served l_fits back
              ∙ ap (λ e. ok (merge d e)) l_doc
              ∙ ap ok (merge_absorbs c d),
          (after, there, a_doc ∙ l_doc),
        )
