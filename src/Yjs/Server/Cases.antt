-- ===== src/Yjs/Server/Cases.antt =====
-- The branches of `handleUpdate`.
use cf_sync.Base.JsMap
use cf_sync.Base.JsMap.{JsMap}
use cf_sync.Base.Text.{Text}
use cf_sync.Base.{
  Bool-cases, arith, false, inl, inr, length, list_eq, ltb, nat_eq, pair_eq, subst, true, ℕ, ◌≡◌,
  ◌≤◌,
}
use cf_sync.Protocol.FieldFrames.{
  FieldRejectReason, max_field_update_bytes, not_writable, too_large,
}
use cf_sync.Server.Mutate.{rejected}
use cf_sync.Yjs.Server.{
  Extension, MessageContext, YjsFieldsOptions, append_update, emit, handle_update, is_frozen,
  is_refused, refresh_cached, reject, to_others,
}
use cf_sync.Yjs.{Bytes, Yjs}

module _ {Doc Auth : Type 0} (y : Yjs Doc) (options : YjsFieldsOptions Auth) where
  -- The guards of the typing path.
  pub record IsAccepted (ws : ℕ) (g : Text) (update : Bytes) (ctx : MessageContext Auth)
      (x : Extension Doc) : Type 0 where
    pub not_refused : is_refused y options ws g x ≡ false
    pub granted : options.authorize_write g ctx ≡ true
    pub small : length update ≤ max_field_update_bytes
    pub not_frozen : is_frozen (JsMap.get g x.fields) ≡ false
    pub good : y.decodes update ≡ true

  -- The state with the update stored, and its frame on its way.
  abbrev pub accepted : ℕ → Text → Bytes → Bytes → Extension Doc → Extension Doc
  accepted ws g update frame x =
      emit y options (to_others ws frame)
        (refresh_cached y options g update (append_update y options g update x))

  -- An update leaves the state alone, is rejected, or is accepted.
  pub handle_update-cases :
      (ws : ℕ) (g : Text) (update frame : Bytes) (ctx : MessageContext Auth) (x : Extension Doc)
      (P : Extension Doc → Type 0)
      → P x
      → ((reason : FieldRejectReason) → P (reject y options ws g reason x).0)
      → (IsAccepted ws g update ctx x → P (accepted ws g update frame x))
      → P (handle_update y options ws g update frame ctx x).0
  unfolding handle_update
  handle_update-cases ws g update frame ctx x P left rejected stored =
      let after = (handle_update y options ws g update frame ctx x).0 in
      elim (Bool-cases (is_refused y options ws g x)) [
        | inl gone ↦ subst P {x = x} {y = after} (ground arith) left
        | inr open_one ↦ elim (Bool-cases (options.authorize_write g ctx)) [
          | inr denied ↦
              subst P {x = (reject y options ws g not_writable x).0} {y = after} (ground arith)
                (rejected not_writable)
          | inl granted ↦ elim (Bool-cases (ltb max_field_update_bytes (length update))) [
            | inl large ↦
                subst P {x = (reject y options ws g too_large x).0} {y = after} (ground arith)
                  (rejected too_large)
            | inr fits ↦ elim (Bool-cases (is_frozen (JsMap.get g x.fields))) [
              | inl stopped ↦
                  subst P {x = (reject y options ws g FieldRejectReason.frozen x).0} {y = after}
                    (ground arith) (rejected FieldRejectReason.frozen)
              | inr running ↦ elim (Bool-cases (y.decodes update)) [
                | inr garbage ↦ subst P {x = x} {y = after} (ground arith) left
                | inl good ↦ subst P {x = accepted ws g update frame x} {y = after} (ground arith) (
                    stored (record {
                      not_refused = open_one;
                      granted = granted;
                      small = ground arith;
                      not_frozen = running;
                      good = good;
                    }))
              ]
            ]
          ]
        ]
      ]
