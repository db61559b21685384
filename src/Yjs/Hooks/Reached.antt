-- ===== src/Yjs/Hooks/Reached.antt =====
-- Every state that the hooks reach has a cache that agrees with its log.
use cf_sync.Base.JsMap
use cf_sync.Base.JsMap.{JsMap}
use cf_sync.Base.Text.{Text}
use cf_sync.Base.{
  List, Option, Option-cases, Result-cases, [], arith, inl, inr, list_eq, map, nat_eq, none, ok,
  pair_eq, refl, some, subst, ◌∷◌, ◌≡◌,
}
use cf_sync.Yjs.Hooks.History.{
  HookHistory, HookStep, IsCoherent-eq, alarm, empty-FieldIsCoherent, exported, fresh,
  handle_get-IsCoherent, handle_update-IsCoherent, imported, message, reset, then_hook, wake,
  on_binary_message-cases,
}
use cf_sync.Yjs.Hooks.{
  ImportData, candidates, compact_each, export_each, import_each, imported_row, init_extension,
  on_alarm, on_export, on_import, on_reset,
}
use cf_sync.Yjs.Server.Coherent.{IsCoherent, cache_doc-IsCoherent, snapshot_bytes}
use cf_sync.Yjs.Server.Compact.{Restores, compact_field-Compacted}
use cf_sync.Yjs.Server.{
  Extension, FieldRow, YjsFieldsOptions, cache_doc, compact_field, materialize,
}
use cf_sync.Yjs.{Yjs}

abbrev pub TotalIsSnapshot : Text → FieldRow → Type 0
TotalIsSnapshot field_id row = row.byte_total ≡ snapshot_bytes row.snapshot

module _ {Doc Auth : Type 0} (y : Yjs Doc) (options : YjsFieldsOptions Auth)
    (restores : Restores y) where
  compact_each-IsCoherent :
      (ids : List Text) (x : Extension Doc)
      → IsCoherent y options x
      → IsCoherent y options (compact_each y options ids x)
  compact_each-IsCoherent [] x c = c
  compact_each-IsCoherent (g ∷ rest) x c = elim (Result-cases (compact_field y options g x)) [
    | inl (x', done) ↦
        IsCoherent-eq y options (compact_each y options (g ∷ rest) x)
          (compact_each y options rest x') (ground arith)
          (compact_each-IsCoherent rest x'
            (compact_field-Compacted y options restores g x x' c done).0)
    | inr (fault, failed) ↦
        IsCoherent-eq y options (compact_each y options (g ∷ rest) x)
          (compact_each y options rest x) (ground arith) (compact_each-IsCoherent rest x c)
  ]

  export_each-IsCoherent :
      (ids : List Text) (x : Extension Doc)
      → IsCoherent y options x
      → IsCoherent y options (export_each y options ids x).1
  unfolding export_each
  export_each-IsCoherent [] x c = c
  export_each-IsCoherent (g ∷ rest) x c = elim (Result-cases (materialize y options g x)) [
    | inl (doc, e) ↦
        IsCoherent-eq y options (export_each y options (g ∷ rest) x).1
          (export_each y options rest (cache_doc y options g doc x)).1 (ground arith)
          (export_each-IsCoherent rest (cache_doc y options g doc x)
            (cache_doc-IsCoherent y options x c g doc e))
    | inr (fault, e) ↦
        IsCoherent-eq y options (export_each y options (g ∷ rest) x).1 x (ground arith) c
  ]

  imported_row-TotalIsSnapshot :
      (g : Text) (encoded : Option Text) (row : FieldRow)
      → imported_row y options encoded ≡ ok row
      → TotalIsSnapshot g row × (row.snapshot_seq ≡ 0)
  unfolding imported_row
  imported_row-TotalIsSnapshot g none row h = absurd (cc)
  imported_row-TotalIsSnapshot g (some encoded) row h = (ground arith, ground arith)

  import_each-TotalIsSnapshot :
      (entries : List (Text × Option Text)) (fields fields' : JsMap Text FieldRow)
      → JsMap.AllEntries TotalIsSnapshot fields
      → import_each y options entries fields ≡ ok fields'
      → JsMap.AllEntries TotalIsSnapshot fields'
  unfolding import_each
  import_each-TotalIsSnapshot [] fields fields' a h =
      subst (JsMap.AllEntries TotalIsSnapshot) {x = fields} {y = fields'} (ground arith) a
  import_each-TotalIsSnapshot ((g, encoded) ∷ rest) fields fields' a h =
      elim (Result-cases (imported_row y options encoded)) [
        | inl (row, e) ↦
            import_each-TotalIsSnapshot rest (JsMap.set g row fields) fields'
              (JsMap.set-AllEntries TotalIsSnapshot g row fields
                (imported_row-TotalIsSnapshot g encoded row e).0 a)
              (ground arith)
        | inr (fault, e) ↦ absurd (ground arith)
      ]

  on_import-IsCoherent :
      (entries : ImportData) (x x' : Extension Doc)
      → on_import y options entries x ≡ ok x'
      → IsCoherent y options x'
  unfolding on_import JsMap.get
  on_import-IsCoherent none x x' h = absurd (ground arith)
  on_import-IsCoherent (some entries) x x' h =
      elim (Result-cases (import_each y options entries [])) [
        | inr (fault, e) ↦ absurd (ground arith)
        | inl (fields, e) ↦
            IsCoherent-eq y options x' (record x { fields = fields; updates = []; cache = [] })
              (ground arith)
              (
                tt,
                λ f. record {
                  ascending = tt;
                  present = λ a. refl;
                  accounted = elim (Option-cases (JsMap.get f fields)) [
                    | inl absent ↦ ground arith
                    | inr (row, there) ↦ ground (
                      arith,
                      JsMap.get-AllEntries TotalIsSnapshot f fields {v = row}
                          (import_each-TotalIsSnapshot entries [] fields tt e) there,
                    )
                  ];
                  current = λ doc a. absurd (cc);
                },
              )
      ]

  HookStep-IsCoherent :
      {x x' : Extension Doc}
      → HookStep y options x x'
      → IsCoherent y options x
      → IsCoherent y options x'
  unfolding on_alarm on_export on_reset init_extension JsMap.get
  HookStep-IsCoherent {x} (message ws bytes ctx) c =
      on_binary_message-cases y options ws bytes ctx x (IsCoherent y options) c
        (λ g sv. handle_get-IsCoherent y options ws g sv ctx x c)
        (λ g update. handle_update-IsCoherent y options ws g update bytes ctx x c)
  HookStep-IsCoherent {x} alarm c = compact_each-IsCoherent (candidates y options x.updates) x c
  HookStep-IsCoherent {x} exported c = export_each-IsCoherent (map (λ e. e.0) x.fields) x c
  HookStep-IsCoherent {x} {x'} (imported entries e) c = on_import-IsCoherent entries x x' e
  HookStep-IsCoherent reset c = (tt, λ f. empty-FieldIsCoherent y options)
  HookStep-IsCoherent {x} wake c = (
    tt,
    λ f. record {
      ascending = (c.1 f).ascending;
      present = (c.1 f).present;
      accounted = (c.1 f).accounted;
      current = λ doc h. absurd (cc);
    },
  )

  -- In every state that the hooks reach, in whatever order they are called: a cached document is the
  -- one that the log holds, the updates of a field ascend from its snapshot, and its running total is
  -- the size of its log.
  pub HookHistory-IsCoherent :
      {x : Extension Doc} → HookHistory y options x → IsCoherent y options x
  unfolding JsMap.get
  HookHistory-IsCoherent fresh = (tt, λ f. empty-FieldIsCoherent y options)
  HookHistory-IsCoherent (then_hook before step) =
      HookStep-IsCoherent step (HookHistory-IsCoherent before)
