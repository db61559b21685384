-- ===== src/Yjs/Server/Effects.antt =====
-- What an update does, on every branch.
use cf_sync.Base.JsMap
use cf_sync.Base.JsMap.{JsMap}
use cf_sync.Base.Text.{Text}
use cf_sync.Base.{List, [], false, list_eq, ltb, nat_eq, pair_eq, ◌++◌, ◌+◌, ◌∷◌, ◌≡◌, ◌≤◌}
use cf_sync.Protocol.FieldFrames.{max_field_bytes, max_field_update_bytes}
use cf_sync.Yjs.Server.Append.{next_update}
use cf_sync.Yjs.Server.Coherent.{log_bytes}
use cf_sync.Yjs.Server.{
  Extension, Outgoing, YjsFieldsOptions, is_frozen, rows_of, snapshot_of, to_others, to_socket,
}
use cf_sync.Yjs.{Bytes, Yjs}

-- The frames that went to the other sockets.
abbrev pub relayed : List Outgoing → List Bytes
relayed [] = []
relayed (to_socket ws frame ∷ rest) = relayed rest
relayed (to_others ws frame ∷ rest) = frame ∷ relayed rest

module _ {Doc Auth : Type 0} (y : Yjs Doc) (options : YjsFieldsOptions Auth) where
  -- Nothing is stored and nothing is relayed.
  abbrev pub Untouched : Extension Doc → Extension Doc → Type 0
  Untouched x x' =
      (x'.fields ≡ x.fields)
      × (x'.updates ≡ x.updates)
      × (x'.cache ≡ x.cache)
      × (relayed x'.outgoing ≡ relayed x.outgoing)

  -- The update is in the log, the field is frozen from the first byte over the ceiling, and the frame
  -- is relayed.
  abbrev pub Stored : Text → Bytes → Bytes → Extension Doc → Extension Doc → Type 0
  Stored g update frame x x' =
      let row = JsMap.get g x.fields in
      let row' = JsMap.get g x'.fields in
      (rows_of g x' ≡ rows_of g x ++ next_update row (rows_of g x) update ∷ [])
      × (snapshot_of row' ≡ snapshot_of row)
      × (is_frozen row ≡ false)
      × (is_frozen row' ≡ ltb max_field_bytes (log_bytes row' (rows_of g x')))
      × (log_bytes row' (rows_of g x') ≤ log_bytes row (rows_of g x) + max_field_update_bytes)
      × (relayed x'.outgoing ≡ relayed x.outgoing ++ frame ∷ [])
