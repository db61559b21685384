-- ===== src/Yjs/Server/Append.antt =====
-- An accepted update: appended to the log, and taken by the cached document.
use cf_sync.Base.JsMap
use cf_sync.Base.JsMap.{JsMap}
use cf_sync.Base.Text.{Text}
use cf_sync.Base.{
  List, Option, Result-cases, [], arith, eq_iff, if◌then◌else◌, inl, inr, list_eq, nat_eq, none, ok,
  or_else, pair_eq, refl, some, ℕ, ◌++◌, ◌==◌, ◌∷◌, ◌≡◌, Option-cases, ap, length, ltb, sum_by,
  sum_by-append, ◌+◌, ◌∙◌, Bool-cases, ap₂, eq_refl,
}
use cf_sync.Protocol.FieldFrames.{max_field_bytes}
use cf_sync.Yjs.Server.Coherent.{FieldIsCoherent, IsCoherent, FieldIsCoherent-eq}
use cf_sync.Yjs.Server.Log.{Ascending, keep-Ascending, insert_last, top}
use cf_sync.Yjs.Server.{
  Extension, UpdateRow, YjsFieldsOptions, evict_doc, field_doc, from_snapshot, refresh_cached,
  replay, FieldRow, append_update, byte_total_of, insert_by_seq, rows_of, snapshot_of,
  snapshot_seq_of, materialize,
}
use cf_sync.Yjs.{Bytes, Yjs}

-- The field's rows once the update is appended.
abbrev pub next_row : Option FieldRow → Bytes → FieldRow
next_row row update = record {
  snapshot = snapshot_of row;
  snapshot_seq = snapshot_seq_of row;
  byte_total = byte_total_of row + length update;
  frozen = ltb max_field_bytes (byte_total_of row + length update);
}

abbrev pub next_update : Option FieldRow → List UpdateRow → Bytes → UpdateRow
next_update row rows update = record { seq = top (snapshot_seq_of row) rows + 1; bytes = update }

module _ {Doc Auth : Type 0} (y : Yjs Doc) (options : YjsFieldsOptions Auth) where
  open y use {apply_update}

  replay-append :
      (doc : Doc) (rows : List UpdateRow) (u : UpdateRow)
      → replay y options doc (rows ++ u ∷ []) ≡ (apply_update (replay y options doc rows) u.bytes).0
  unfolding replay
  replay-append doc [] u = refl
  replay-append doc (v ∷ vs) u = replay-append (apply_update doc v.bytes).0 vs u

  field_doc-append :
      (snapshot : Option Bytes) (seq : ℕ) (rows : List UpdateRow) (u : UpdateRow) (doc : Doc)
      → Ascending seq rows
      → Ascending seq (rows ++ u ∷ [])
      → field_doc y options snapshot seq rows ≡ ok doc
      → field_doc y options snapshot seq (rows ++ u ∷ []) ≡ ok (apply_update doc u.bytes).0
  unfolding field_doc
  field_doc-append snapshot seq rows u doc a b h =
      elim (Result-cases (from_snapshot y options snapshot)) [
        | inl (start, e) ↦ ground (
          arith,
          keep-Ascending seq seq rows (omega arith) a,
          keep-Ascending seq seq (rows ++ u ∷ []) (omega arith) b,
          replay-append start rows u,
        )
        | inr (f, e) ↦ absurd (ground arith)
      ]

  abbrev pub refreshed : Bytes → Option Doc → Option Doc
  refreshed update none = none
  refreshed update (some cached) =
      if (apply_update cached update).1 then none else some (apply_update cached update).0

  get-refresh_cached :
      (g f : Text) (update : Bytes) (x : Extension Doc)
      → JsMap.get f (refresh_cached y options g update x).cache
        ≡ (if g == f then refreshed update (JsMap.get g x.cache) else JsMap.get f x.cache)
  unfolding refresh_cached evict_doc
  get-refresh_cached g f update x = ground (
    arith,
    eq_iff g f,
    JsMap.get-delete g f x.cache,
    JsMap.get-set g f (apply_update (or_else (JsMap.get g x.cache) y.new_doc) update).0 x.cache,
  )

  pub refresh_cached-tables :
      (g : Text) (update : Bytes) (x : Extension Doc)
      → ((refresh_cached y options g update x).fields ≡ x.fields)
        × ((refresh_cached y options g update x).updates ≡ x.updates)
        × ((refresh_cached y options g update x).outgoing ≡ x.outgoing)
  unfolding refresh_cached evict_doc
  refresh_cached-tables g update x = (ground arith, ground arith, ground arith)

  refresh_cached-Distinct :
      (g : Text) (update : Bytes) (x : Extension Doc)
      → JsMap.Distinct x.cache
      → JsMap.Distinct (refresh_cached y options g update x).cache
  unfolding refresh_cached evict_doc
  refresh_cached-Distinct g update x d = elim (Option-cases (JsMap.get g x.cache)) [
    | inl none_held ↦ ground arith
    | inr (cached, held) ↦ ground (
      arith,
      JsMap.delete-Distinct g x.cache d,
      JsMap.set-Distinct g (apply_update cached update).0 x.cache d,
    )
  ]

  -- The update stands last in the log of its field, and no other field changes.
  pub append_update_lem :
      (g f : Text) (update : Bytes) (x : Extension Doc)
      → Ascending (snapshot_seq_of (JsMap.get g x.fields)) (rows_of g x)
      → (JsMap.get f (append_update y options g update x).fields ≡ (
          if g == f then some (next_row (JsMap.get g x.fields) update) else JsMap.get f x.fields))
        × (rows_of f (append_update y options g update x) ≡ (
            if g == f
            then rows_of g x ++ next_update (JsMap.get g x.fields) (rows_of g x) update ∷ []
            else rows_of f x))
  unfolding append_update
  append_update_lem g f update x a =
      let row = JsMap.get g x.fields in
      let u = next_update row (rows_of g x) update in
      let last = (insert_last (snapshot_seq_of row) u.seq update (rows_of g x) a (omega arith)).0 in
      (
        JsMap.get-set g f (next_row row update) x.fields,
        ground (arith, last, JsMap.get-set g f (insert_by_seq u (rows_of g x)) x.updates),
      )

  module _ (row : Option FieldRow) (rows : List UpdateRow) (cached : Option Doc)
      (c : FieldIsCoherent y options row rows cached) (update : Bytes) where
    sum_bytes-append :
        (us : List UpdateRow) (u : UpdateRow)
        → sum_by (λ v. length v.bytes) (us ++ u ∷ [])
          ≡ sum_by (λ v. length v.bytes) us + length u.bytes
    sum_bytes-append us u = sum_by-append (λ v. length v.bytes) us (u ∷ []) ∙ omega arith

    appended-IsCoherent :
        FieldIsCoherent y options
          (some (next_row row update))
          (rows ++ next_update row rows update ∷ [])
          (refreshed update cached)
    appended-IsCoherent =
        let u = next_update row rows update in
        let (e, ascending) =
          insert_last (snapshot_seq_of row) u.seq update rows c.ascending (omega arith) in
        record {
          ascending = ascending;
          present = λ h. absurd (cc);
          accounted = omega (arith, c.accounted, sum_bytes-append rows u);
          current = λ doc h. elim (Option-cases cached) [
            | inl none_held ↦ absurd (ground arith)
            | inr (old, held) ↦
                let now : (apply_update old update).0 ≡ doc = ground arith in
                field_doc-append (snapshot_of row) (snapshot_seq_of row) rows u old c.ascending
                  ascending (c.current old held)
                ∙ ap ok now
          ];
        }

  pub appended_field-IsCoherent :
      (g : Text) (update : Bytes) (x : Extension Doc)
      → IsCoherent y options x
      → IsCoherent y options
          (refresh_cached y options g update (append_update y options g update x))
  unfolding append_update
  appended_field-IsCoherent g update x c =
      let appended = append_update y options g update x in
      let (fields, updates, outgoing) = refresh_cached-tables g update appended in
      (
        refresh_cached-Distinct g update appended c.0,
        λ f.
            let (row, rows) = append_update_lem g f update x (c.1 g).ascending in
            let held = get-refresh_cached g f update appended in
            elim (Bool-cases (g == f)) [
              | inl same ↦
                  FieldIsCoherent-eq y options (ground arith) (ground arith) (ground arith) (
                    appended-IsCoherent (JsMap.get g x.fields) (rows_of g x) (JsMap.get g x.cache)
                      (c.1 g) update)
              | inr differs ↦
                  FieldIsCoherent-eq y options (ground arith) (ground arith) (ground arith) (c.1 f)
            ],
      )

  -- A field to which an update is appended holds its document with the update applied.
  pub appended_field-materialize :
      (g : Text) (update : Bytes) (x : Extension Doc) (doc : Doc)
      → IsCoherent y options x
      → materialize y options g x ≡ ok doc
      → materialize y options g
          (refresh_cached y options g update (append_update y options g update x))
        ≡ ok (apply_update doc update).0
  appended_field-materialize g update x doc c m =
      let appended = append_update y options g update x in
      let after = refresh_cached y options g update appended in
      let (fields, updates, outgoing) = refresh_cached-tables g update appended in
      let row = JsMap.get g x.fields in
      let rows = rows_of g x in
      let u = next_update row rows update in
      let (at_g, log) = append_update_lem g g update x (c.1 g).ascending in
      let row-eq : JsMap.get g after.fields ≡ some (next_row row update) =
        ground (arith, at_g, fields, eq_refl g) in
      let rows-eq : rows_of g after ≡ rows ++ u ∷ [] = ground (arith, log, updates, eq_refl g) in
      let ascending =
        (insert_last (snapshot_seq_of row) u.seq update rows (c.1 g).ascending (omega arith)).1 in
      ap₂ (λ k us. field_doc y options (snapshot_of k) (snapshot_seq_of k) us) row-eq rows-eq
      ∙ field_doc-append (snapshot_of row) (snapshot_seq_of row) rows u doc (c.1 g).ascending
          ascending m
