-- ===== src/Yjs/Hooks.antt =====
-- The hooks of the extension in packages/yjs/src/server.ts, as the engine calls them.
pub mod History
pub mod Reached
pub mod Refusal
use cf_sync.Base.JsMap
use cf_sync.Base.JsMap.{JsMap}
use cf_sync.Base.Text.{Text}
use cf_sync.Base.{
  List, Option, Result, [], err, if◌then◌else◌, length, list_eq, ltb, map, nat_beq, nat_eq, none,
  not, ok, pair_eq, some, sum_by, ℕ, ◌+◌, ◌>>=◌, ◌∷◌, map_ok, ◌==◌, ◌>>◌,
}
use cf_sync.Protocol.FieldFrames.{
  decode_field_frame, field_msg_get, field_msg_update, max_field_bytes, frozen,
}
use cf_sync.Server.Invariant.{compacted}
use cf_sync.Yjs.Server.{
  Extension, FieldRow, Handled, MessageContext, UpdateRow, YjsFault, YjsFieldsOptions, bad_snapshot,
  compact_field, handle_get, handle_update, load_fresh,
}
use cf_sync.Yjs.{Bytes, Yjs}

-- What `onImport` is given: no fields at all, or a value for each field, which may be no text.
abbrev pub ImportData : Type 0
ImportData = Option (List (Text × Option Text))

pub record YjsStats : Type 0 where
  pub fields : ℕ
  pub frozen_fields : ℕ
  pub field_bytes : ℕ
  pub pending_updates : ℕ
  pub cached_docs : ℕ

module _ {Doc Auth : Type 0} (y : Yjs Doc) (options : YjsFieldsOptions Auth) where
  open y use {new_doc, apply_update, encode_state_as_update, btoa, atob}
  open options use {compaction_threshold, decoder}

  -- The tables stay; all that is in memory starts anew.
  unfoldable pub init_extension : Extension Doc → Extension Doc
  init_extension x = record x { cache = []; refused = [] }

  unfoldable pub on_binary_message :
      ℕ → Bytes → MessageContext Auth → Extension Doc → Handled y options
  unfolding handle_get handle_update
  on_binary_message ws bytes ctx x =
      if not ctx.ready then (x, none) else elim (decode_field_frame decoder bytes) [
        | none ↦ (x, none)
        | some frame ↦
            if nat_beq frame.msg_type field_msg_get
            then handle_get y options ws frame.field_id frame.payload ctx x
            else if nat_beq frame.msg_type field_msg_update
            then handle_update y options ws frame.field_id frame.payload bytes ctx x
            else (x, none)
      ]

  -- A field that cannot be compacted is left as it was.
  abbrev pub compact_each : List Text → Extension Doc → Extension Doc
  compact_each [] x = x
  compact_each (field_id ∷ rest) x =
      compact_each rest
        (elim (compact_field y options field_id x) [ ok compacted ↦ compacted | err e ↦ x ])

  abbrev pub candidates : JsMap Text (List UpdateRow) → List Text
  candidates [] = []
  candidates ((field_id, rows) ∷ rest) =
      if ltb compaction_threshold (length rows) then field_id ∷ candidates rest else candidates rest

  unfoldable pub on_alarm : Extension Doc → Extension Doc
  unfolding compact_field
  on_alarm x = compact_each (candidates x.updates) x

  -- The fields one by one, each loaded afresh, until one throws.
  unfoldable pub export_each :
      List Text → Extension Doc → Result YjsFault (List (Text × Text)) × Extension Doc
  export_each [] x = (ok [], x)
  export_each (field_id ∷ rest) x = elim (load_fresh y options field_id x) [
    | err e ↦ (err e, x)
    | ok (doc, loaded) ↦
        let (more, done) = export_each rest loaded in
        (map_ok (λ fields. (field_id, btoa (encode_state_as_update doc)) ∷ fields) more, done)
  ]

  unfoldable pub on_export : Extension Doc → Result YjsFault (List (Text × Text)) × Extension Doc
  unfolding export_each
  on_export x = export_each (map (λ e. e.0) x.fields) x

  -- A snapshot is a field's row if it is base64 and builds a document.
  unfoldable pub imported_row : Option Text → Result YjsFault FieldRow
  imported_row none = err bad_snapshot
  imported_row (some encoded) = elim (atob encoded) [
    | none ↦ err bad_snapshot
    | some snapshot ↦
        if (apply_update new_doc snapshot).1
        then err bad_snapshot
        else ok (record {
          snapshot = some snapshot;
          snapshot_seq = 0;
          byte_total = length snapshot;
          frozen = ltb max_field_bytes (length snapshot);
        })
  ]

  unfoldable pub import_each :
      List (Text × Option Text) → JsMap Text FieldRow → Result YjsFault (JsMap Text FieldRow)
  unfolding imported_row
  import_each [] fields = ok fields
  import_each ((field_id, encoded) ∷ rest) fields = do
    row ← imported_row encoded
    import_each rest (JsMap.set field_id row fields)

  -- Where it throws, the host rolls the tables back.
  unfoldable pub on_import : ImportData → Extension Doc → Result YjsFault (Extension Doc)
  unfolding import_each
  on_import none x = err bad_snapshot
  on_import (some entries) x = do
    fields ← import_each entries []
    ok (record x { fields = fields; updates = []; cache = [] })

  unfoldable pub on_reset : Extension Doc → Extension Doc
  on_reset x = record x { fields = []; updates = []; cache = []; refused = [] }

  abbrev pub count_frozen : JsMap Text FieldRow → ℕ
  count_frozen [] = 0
  count_frozen ((k, row) ∷ rest) = if row.frozen then count_frozen rest + 1 else count_frozen rest

  unfoldable pub on_stats : Extension Doc → YjsStats
  on_stats x = record {
    fields = length x.fields;
    frozen_fields = count_frozen x.fields;
    field_bytes = sum_by (λ e. e.1.byte_total) x.fields;
    pending_updates = sum_by (λ e. length e.1) x.updates;
    cached_docs = length x.cache;
  }
