-- ===== src/Yjs/Server.antt =====
-- The extension of packages/yjs/src/server.ts: the log of each field, its cache and its refusals.
pub mod Log
pub mod Coherent
pub mod Append
pub mod Compact
pub mod Cases
pub mod Effects
use cf_sync.Base.JsMap
use cf_sync.Base.JsMap.{JsMap}
use cf_sync.Base.Text.{Text}
use cf_sync.Base.{
  Bool, List, Option, Result, [], any, err, false, if◌then◌else◌, keep, length, list_beq, list_eq,
  ltb, nat_eq, none, not, ok, or_else, pair_eq, some, true, ℕ, ◌&&◌, ◌++◌, ◌+◌, ◌>>=◌, ◌∷◌, ◌==◌,
  ◌>>◌,
}
use cf_sync.Protocol.FieldFrames.{
  FieldFault, FieldRejectReason, encode_field_frame, encode_field_reject, encode_field_state,
  field_msg_reject, field_msg_state, max_field_bytes, max_field_update_bytes, not_writable,
  too_large,
}
use cf_sync.Yjs.{Bytes, Yjs}

abbrev pub default_max_cached_docs : ℕ
default_max_cached_docs = 8

abbrev pub default_compaction_threshold : ℕ
default_compaction_threshold = 200

pub record FieldRow : Type 0 where
  pub snapshot : Option Bytes
  pub snapshot_seq : ℕ
  pub byte_total : ℕ
  pub frozen : Bool

pub record UpdateRow : Type 0 where
  pub seq : ℕ
  pub bytes : Bytes

-- What the extension asks of its host: a frame for one socket, or for every other ready socket.
pub data Outgoing : Type 0 where
  to_socket : ℕ → Bytes → Outgoing
  to_others : ℕ → Bytes → Outgoing

-- The tables, with the updates of a field in the order of their `seq`, and the memory.
pub record Extension (Doc : Type 0) : Type 0 where
  pub fields : JsMap Text FieldRow
  pub updates : JsMap Text (List UpdateRow)
  pub cache : JsMap Text Doc
  pub refused : JsMap ℕ (List Text)
  pub outgoing : List Outgoing

-- What a socket's message carries besides its bytes.
pub record MessageContext (Auth : Type 0) : Type 0 where
  pub ready : Bool
  pub client_id : Text
  pub principal : Option Text
  pub auth : Option Auth

pub record YjsFieldsOptions (Auth : Type 0) : Type 0 where
  pub authorize_write : Text → MessageContext Auth → Bool
  pub max_cached_docs : ℕ
  pub compaction_threshold : ℕ
  pub decoder : Bytes → Text

-- What a handler throws.
pub data YjsFault : Type 0 where
  corrupt_snapshot bad_snapshot : YjsFault
  codec : FieldFault → YjsFault

abbrev pub codec_fault : {A : Type 0} → Result FieldFault A → Result YjsFault A
codec_fault (ok a) = ok a
codec_fault (err e) = err (codec e)

-- The rows of `yjs_updates` that have one field's id.
abbrev pub rows_of : {Doc : Type 0} → Text → Extension Doc → List UpdateRow
rows_of field_id x = or_else (JsMap.get field_id x.updates) []

-- `row?.snapshotSeq ?? 0` and the like.
abbrev pub snapshot_seq_of : Option FieldRow → ℕ
snapshot_seq_of none = 0
snapshot_seq_of (some row) = row.snapshot_seq

abbrev pub byte_total_of : Option FieldRow → ℕ
byte_total_of none = 0
byte_total_of (some row) = row.byte_total

abbrev pub is_frozen : Option FieldRow → Bool
is_frozen none = false
is_frozen (some row) = row.frozen

abbrev pub snapshot_of : Option FieldRow → Option Bytes
snapshot_of none = none
snapshot_of (some row) = row.snapshot

abbrev pub max_seq : List UpdateRow → Option ℕ
max_seq [] = none
max_seq (u ∷ us) = elim (max_seq us) [
  | none ↦ some u.seq
  | some m ↦ some (if ltb m u.seq then u.seq else m)
]

abbrev pub insert_by_seq : UpdateRow → List UpdateRow → List UpdateRow
insert_by_seq u [] = u ∷ []
insert_by_seq u (v ∷ vs) = if ltb u.seq v.seq then u ∷ v ∷ vs else v ∷ insert_by_seq u vs

module _ {Doc Auth : Type 0} (y : Yjs Doc) (options : YjsFieldsOptions Auth) where
  open y use {
    new_doc, apply_update, encode_state_as_update, encode_diff, encode_state_vector, decodes, btoa,
    atob,
  }
  open options use {authorize_write, max_cached_docs, compaction_threshold, decoder}

  -- `while (cache.size > maxCachedDocs)`: the oldest entry goes first.
  abbrev pub evict_oldest : JsMap Text Doc → JsMap Text Doc
  evict_oldest [] = []
  evict_oldest (e ∷ rest) = elim (ltb max_cached_docs (length (e ∷ rest))) [
    | true ↦ evict_oldest rest
    | false ↦ e ∷ rest
  ]

  unfoldable pub cache_doc : Text → Doc → Extension Doc → Extension Doc
  cache_doc field_id doc x = record x {
    cache = evict_oldest (JsMap.set field_id doc (JsMap.delete field_id x.cache));
  }

  unfoldable pub evict_doc : Text → Extension Doc → Extension Doc
  evict_doc field_id x = record x { cache = JsMap.delete field_id x.cache }

  -- An update that does not apply is skipped.
  unfoldable pub replay : Doc → List UpdateRow → Doc
  replay doc [] = doc
  replay doc (u ∷ us) = replay (apply_update doc u.bytes).0 us

  abbrev pub from_snapshot : Option Bytes → Result YjsFault Doc
  from_snapshot none = ok new_doc
  from_snapshot (some bytes) =
      let (doc, threw) = apply_update new_doc bytes in
      if threw then err corrupt_snapshot else ok doc

  -- A field as the tables hold it: its snapshot, and the updates after it.
  unfoldable pub field_doc : Option Bytes → ℕ → List UpdateRow → Result YjsFault Doc
  unfolding replay
  field_doc snapshot snapshot_seq rows = do
    doc ← from_snapshot snapshot
    ok (replay doc (keep (λ u. ltb snapshot_seq u.seq) rows))

  abbrev pub materialize : Text → Extension Doc → Result YjsFault Doc
  materialize field_id x =
      let row = JsMap.get field_id x.fields in
      field_doc (snapshot_of row) (snapshot_seq_of row) (rows_of field_id x)

  abbrev pub load_fresh : Text → Extension Doc → Result YjsFault (Doc × Extension Doc)
  load_fresh field_id x = materialize field_id x >>= λ doc. ok (doc, cache_doc field_id doc x)

  unfoldable pub load_doc : Text → Extension Doc → Result YjsFault (Doc × Extension Doc)
  unfolding field_doc cache_doc
  load_doc field_id x = elim (JsMap.get field_id x.cache) [
    | some cached ↦ ok (cached, cache_doc field_id cached x)
    | none ↦ load_fresh field_id x
  ]

  abbrev pub is_refused : ℕ → Text → Extension Doc → Bool
  is_refused ws field_id x = any (λ f. list_beq f field_id) (or_else (JsMap.get ws x.refused) [])

  unfoldable pub mark_refused : ℕ → Text → Extension Doc → Extension Doc
  mark_refused ws field_id x =
      let set = or_else (JsMap.get ws x.refused) [] in
      if any (λ f. list_beq f field_id) set
      then x
      else record x { refused = JsMap.set ws (set ++ field_id ∷ []) x.refused }

  abbrev pub emit : Outgoing → Extension Doc → Extension Doc
  emit message x = record x { outgoing = x.outgoing ++ message ∷ [] }

  -- A handler's state, and what it threw if it did.
  abbrev pub Handled : Type 0
  Handled = Extension Doc × Option YjsFault

  abbrev pub send_frame : ℕ → ℕ → Text → Bytes → Extension Doc → Handled
  send_frame msg_type ws field_id payload x = elim (encode_field_frame msg_type field_id payload) [
    | err e ↦ (x, some (codec e))
    | ok frame ↦ (emit (to_socket ws frame) x, none)
  ]

  unfoldable pub reject : ℕ → Text → FieldRejectReason → Extension Doc → Handled
  unfolding mark_refused
  reject ws field_id reason x =
      send_frame field_msg_reject ws field_id (encode_field_reject reason)
        (mark_refused ws field_id x)

  -- An empty or unreadable state vector asks for everything.
  abbrev pub state_diff : Doc → Bytes → Bytes
  state_diff doc [] = encode_state_as_update doc
  state_diff doc (b ∷ bs) = or_else (encode_diff doc (b ∷ bs)) (encode_state_as_update doc)

  abbrev pub is_writable : ℕ → Text → MessageContext Auth → Extension Doc → Bool
  is_writable ws field_id ctx x =
      authorize_write field_id ctx
      && not (is_frozen (JsMap.get field_id x.fields))
      && not (is_refused ws field_id x)

  unfoldable pub handle_get : ℕ → Text → Bytes → MessageContext Auth → Extension Doc → Handled
  unfolding load_doc
  handle_get ws field_id client_sv ctx x = elim (load_doc field_id x) [
    | err e ↦ (x, some e)
    | ok (doc, loaded) ↦
        elim (encode_field_state (record {
          writable = is_writable ws field_id ctx x;
          state_vector = encode_state_vector doc;
          diff = state_diff doc client_sv;
        })) [
          | err e ↦ (loaded, some (codec e))
          | ok payload ↦ send_frame field_msg_state ws field_id payload loaded
        ]
  ]

  -- The transaction: the running total, and the update under the next `seq`.
  unfoldable pub append_update : Text → Bytes → Extension Doc → Extension Doc
  append_update field_id update x =
      let row = JsMap.get field_id x.fields in
      let byte_total = byte_total_of row + length update in
      let next = or_else (max_seq (rows_of field_id x)) (snapshot_seq_of row) + 1 in
      record x {
        fields =
            JsMap.set field_id
              (record {
                snapshot = snapshot_of row;
                snapshot_seq = snapshot_seq_of row;
                byte_total = byte_total;
                frozen = ltb max_field_bytes byte_total;
              })
              x.fields;
        updates =
            JsMap.set field_id
              (insert_by_seq (record { seq = next; bytes = update }) (rows_of field_id x))
              x.updates;
      }

  -- A cached document takes the update, or goes.
  unfoldable pub refresh_cached : Text → Bytes → Extension Doc → Extension Doc
  unfolding evict_doc
  refresh_cached field_id update x = elim (JsMap.get field_id x.cache) [
    | none ↦ x
    | some cached ↦
        let (doc, threw) = apply_update cached update in
        if threw then evict_doc field_id x else record x { cache = JsMap.set field_id doc x.cache }
  ]

  unfoldable pub handle_update :
      ℕ → Text → Bytes → Bytes → MessageContext Auth → Extension Doc → Handled
  unfolding reject append_update refresh_cached
  handle_update ws field_id update frame ctx x =
      if is_refused ws field_id x
      then (x, none)
      else if not (authorize_write field_id ctx)
      then reject ws field_id not_writable x
      else if ltb max_field_update_bytes (length update)
      then reject ws field_id too_large x
      else if is_frozen (JsMap.get field_id x.fields)
      then reject ws field_id FieldRejectReason.frozen x
      else if not (decodes update)
      then (x, none)
      else (
        emit (to_others ws frame)
            (refresh_cached field_id update (append_update field_id update x)),
        none,
      )

  -- The transaction of `compactField`. Where the load throws, nothing is written.
  unfoldable pub compact_field : Text → Extension Doc → Result YjsFault (Extension Doc)
  unfolding field_doc cache_doc
  compact_field field_id x = elim (max_seq (rows_of field_id x)) [
    | none ↦ ok x
    | some last ↦ do
      (doc, loaded) ← load_fresh field_id x
      let snapshot = encode_state_as_update doc
      ok (
          cache_doc field_id doc (record loaded {
            fields = elim (JsMap.get field_id loaded.fields) [
              | none ↦ loaded.fields
              | some row ↦
                  JsMap.set field_id
                    (record row {
                      snapshot = some snapshot;
                      snapshot_seq = last;
                      byte_total = length snapshot;
                    })
                    loaded.fields
            ];
            updates =
                JsMap.set field_id (keep (λ u. ltb last u.seq) (rows_of field_id loaded))
                  loaded.updates;
          }))
  ]
