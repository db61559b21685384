-- ===== src/Yjs/Hooks/History.antt =====
-- Whatever the engine calls of the extension, its cache agrees with its log.
use cf_sync.Base.JsMap
use cf_sync.Base.JsMap.{JsMap}
use cf_sync.Base.Text.{Text}
use cf_sync.Base.{
  Bool-cases, Option-cases, Result-cases, [], arith, inl, inr, list_eq, nat_eq, none, ok, or_else,
  pair_eq, refl, subst, ℕ, ◌++◌, ◌∷◌, ◌≡◌, sym, nat_beq,
}
use cf_sync.Protocol.FieldFrames.{
  FieldRejectReason, FieldState, encode_field_frame, encode_field_reject, encode_field_state,
  field_msg_reject, field_msg_state, decode_field_frame, field_msg_get, field_msg_update,
}
use cf_sync.Yjs.Hooks.{
  ImportData, init_extension, on_alarm, on_binary_message, on_export, on_import, on_reset,
}
use cf_sync.Yjs.Server.Append.{appended_field-IsCoherent}
use cf_sync.Yjs.Server.Cases.{handle_update-cases}
use cf_sync.Yjs.Server.Coherent.{FieldIsCoherent, IsCoherent, cache_doc-IsCoherent}
use cf_sync.Yjs.Server.{
  Extension, MessageContext, YjsFieldsOptions, cache_doc, emit, handle_get, handle_update,
  is_refused, is_writable, load_doc, load_fresh, mark_refused, materialize, reject, send_frame,
  state_diff, to_socket,
}
use cf_sync.Yjs.{Bytes, Yjs}

module _ {Doc Auth : Type 0} (y : Yjs Doc) (options : YjsFieldsOptions Auth) where
  -- The tables of a new workspace, before any message.
  abbrev pub new_extension : Extension Doc
  new_extension = record { fields = []; updates = []; cache = []; refused = []; outgoing = [] }

  pub data HookStep (x : Extension Doc) : Extension Doc → Type 0 where
    message :
        (ws : ℕ) (bytes : Bytes) (ctx : MessageContext Auth)
        → HookStep x (on_binary_message y options ws bytes ctx x).0
    alarm : HookStep x (on_alarm y options x)
    exported : HookStep x (on_export y options x).1
    imported :
        {x' : Extension Doc} (entries : ImportData)
        → on_import y options entries x ≡ ok x'
        → HookStep x x'
    reset : HookStep x (on_reset y options x)
    wake : HookStep x (init_extension y options x)

  pub data HookHistory : Extension Doc → Type 0 where
    fresh : HookHistory new_extension
    then_hook : {x x' : Extension Doc} → HookHistory x → HookStep x x' → HookHistory x'

  -- A message leaves the state alone, or is one for a handler.
  pub on_binary_message-cases :
      (ws : ℕ) (bytes : Bytes) (ctx : MessageContext Auth) (x : Extension Doc)
      (P : Extension Doc → Type 0)
      → P x
      → ((g : Text) (sv : Bytes) → P (handle_get y options ws g sv ctx x).0)
      → ((g : Text) (update : Bytes) → P (handle_update y options ws g update bytes ctx x).0)
      → P (on_binary_message y options ws bytes ctx x).0
  unfolding on_binary_message
  on_binary_message-cases ws bytes ctx x P left got updated = elim (Bool-cases ctx.ready) [
    | inr early ↦
        subst P {x = x} {y = (on_binary_message y options ws bytes ctx x).0} (ground arith) left
    | inl ready ↦ elim (Option-cases (decode_field_frame options.decoder bytes)) [
      | inl malformed ↦
          subst P {x = x} {y = (on_binary_message y options ws bytes ctx x).0} (ground arith) left
      | inr (frame, e) ↦ elim (Bool-cases (nat_beq frame.msg_type field_msg_get)) [
        | inl get_one ↦
            subst P {x = (handle_get y options ws frame.field_id frame.payload ctx x).0}
              {y = (on_binary_message y options ws bytes ctx x).0} (ground arith)
              (got frame.field_id frame.payload)
        | inr other ↦ elim (Bool-cases (nat_beq frame.msg_type field_msg_update)) [
          | inl update_one ↦
              subst P {x = (handle_update y options ws frame.field_id frame.payload bytes ctx x).0}
                {y = (on_binary_message y options ws bytes ctx x).0} (ground arith)
                (updated frame.field_id frame.payload)
          | inr neither ↦
              subst P {x = x} {y = (on_binary_message y options ws bytes ctx x).0} (ground arith)
                left
        ]
      ]
    ]
  ]

  -- For a state that is equal to a coherent one.
  pub IsCoherent-eq :
      (x' x : Extension Doc) → x' ≡ x → IsCoherent y options x → IsCoherent y options x'
  IsCoherent-eq x' x e c = subst (IsCoherent y options) (sym e) c

  pub empty-FieldIsCoherent : FieldIsCoherent y options none [] none
  empty-FieldIsCoherent = record {
    ascending = tt;
    present = λ h. refl;
    accounted = omega arith;
    current = λ doc h. absurd (cc);
  }

  -- Where the cache agrees with the log, a load by way of it is a load from the log.
  pub load_doc-eq-load_fresh :
      (g : Text) (x : Extension Doc)
      → IsCoherent y options x
      → load_doc y options g x ≡ load_fresh y options g x
  unfolding load_doc
  load_doc-eq-load_fresh g x c = elim (Option-cases (JsMap.get g x.cache)) [
    | inl absent ↦ ground arith
    | inr (doc, held) ↦ ground (arith, (c.1 g).current doc held)
  ]

  send_frame-IsCoherent :
      (msg_type ws : ℕ) (g : Text) (payload : Bytes) (x : Extension Doc)
      → IsCoherent y options x
      → IsCoherent y options (send_frame y options msg_type ws g payload x).0
  send_frame-IsCoherent msg_type ws g payload x c =
      elim (Result-cases (encode_field_frame msg_type g payload)) [
        | inl (frame, e) ↦
            IsCoherent-eq (send_frame y options msg_type ws g payload x).0
              (emit y options (to_socket ws frame) x) (ground arith) c
        | inr (fault, e) ↦
            IsCoherent-eq (send_frame y options msg_type ws g payload x).0 x (ground arith) c
      ]

  reject-IsCoherent :
      (ws : ℕ) (g : Text) (reason : FieldRejectReason) (x : Extension Doc)
      → IsCoherent y options x
      → IsCoherent y options (reject y options ws g reason x).0
  unfolding reject
  reject-IsCoherent ws g reason x c =
      let marked : IsCoherent y options (mark_refused y options ws g x) =
        elim (Bool-cases (is_refused y options ws g x)) [
          | inl old ↦
              IsCoherent-eq (mark_refused y options ws g x) x (unfold mark_refused in ground arith)
                c
          | inr new ↦
              IsCoherent-eq (mark_refused y options ws g x)
                (record x {
                  refused = JsMap.set ws (or_else (JsMap.get ws x.refused) [] ++ g ∷ []) x.refused;
                })
                (unfold mark_refused in ground arith) c
        ] in
      send_frame-IsCoherent field_msg_reject ws g (encode_field_reject reason)
        (mark_refused y options ws g x) marked

  pub handle_get-IsCoherent :
      (ws : ℕ) (g : Text) (sv : Bytes) (ctx : MessageContext Auth) (x : Extension Doc)
      → IsCoherent y options x
      → IsCoherent y options (handle_get y options ws g sv ctx x).0
  handle_get-IsCoherent ws g sv ctx x c = elim (Result-cases (materialize y options g x)) [
    | inr (fault, e) ↦
        IsCoherent-eq (handle_get y options ws g sv ctx x).0 x
          (unfold handle_get in ground (arith, load_doc-eq-load_fresh g x c)) c
    | inl (doc, e) ↦
        let loaded = cache_doc-IsCoherent y options x c g doc e in
        let state : FieldState = record {
          writable = is_writable y options ws g ctx x;
          state_vector = y.encode_state_vector doc;
          diff = state_diff y options doc sv;
        } in
        elim (Result-cases (encode_field_state state)) [
          | inr (fault, f) ↦
              IsCoherent-eq (handle_get y options ws g sv ctx x).0 (cache_doc y options g doc x)
                (unfold handle_get in ground (arith, load_doc-eq-load_fresh g x c)) loaded
          | inl (payload, f) ↦
              IsCoherent-eq (handle_get y options ws g sv ctx x).0
                ((send_frame y options field_msg_state ws g payload
                  (cache_doc y options g doc x)).0)
                (unfold handle_get in ground (arith, load_doc-eq-load_fresh g x c))
                (send_frame-IsCoherent field_msg_state ws g payload (cache_doc y options g doc x)
                  loaded)
        ]
  ]

  pub handle_update-IsCoherent :
      (ws : ℕ) (g : Text) (update frame : Bytes) (ctx : MessageContext Auth) (x : Extension Doc)
      → IsCoherent y options x
      → IsCoherent y options (handle_update y options ws g update frame ctx x).0
  handle_update-IsCoherent ws g update frame ctx x c =
      handle_update-cases y options ws g update frame ctx x (IsCoherent y options) c
        (λ reason. reject-IsCoherent ws g reason x c)
        (λ a. appended_field-IsCoherent y options g update x c)
