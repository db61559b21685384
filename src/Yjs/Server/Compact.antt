-- ===== src/Yjs/Server/Compact.antt =====
-- Compaction: one snapshot in place of the log, and every field reads as before.
use cf_sync.Base.JsMap
use cf_sync.Base.JsMap.{JsMap}
use cf_sync.Base.Text.{Text}
use cf_sync.Base.{
  Bool-cases, [], ap₂, arith, eq_iff, false, if◌then◌else◌, inl, inr, length, list_eq, nat_eq, ok,
  pair_eq, refl, some, subst, sym, ℕ, ◌==◌, ◌∙◌, ◌≡◌, Option-cases, Result-cases, eq_refl,
}
use cf_sync.Yjs.Server.Coherent.{FieldIsCoherent-eq, IsCoherent, cache_doc-IsCoherent}
use cf_sync.Yjs.Server.Log.{keep-top, max_seq-none}
use cf_sync.Yjs.Server.{
  Extension, FieldRow, YjsFieldsOptions, field_doc, materialize, replay, rows_of, snapshot_of,
  snapshot_seq_of, cache_doc, compact_field, max_seq,
}
use cf_sync.Yjs.{Yjs}

-- Yjs: an update that encodes all of a document, applied to a new one, restores it.
abbrev pub Restores : {Doc : Type 0} → Yjs Doc → Type 0
Restores {Doc} y =
    (doc : Doc) → y.apply_update y.new_doc (y.encode_state_as_update doc) ≡ (doc, false)

module _ {Doc Auth : Type 0} (y : Yjs Doc) (options : YjsFieldsOptions Auth)
    (restores : Restores y) where
  open y use {encode_state_as_update}

  -- A field's row when the document is its snapshot.
  abbrev pub snapshot_row : Doc → ℕ → FieldRow → FieldRow
  snapshot_row doc last row = record row {
    snapshot = some (encode_state_as_update doc);
    snapshot_seq = last;
    byte_total = length (encode_state_as_update doc);
  }

  abbrev pub with_snapshot : Text → Doc → ℕ → FieldRow → Extension Doc → Extension Doc
  with_snapshot g doc last row x = record x {
    fields = JsMap.set g (snapshot_row doc last row) x.fields;
    updates = JsMap.set g [] x.updates;
  }

  snapshot_row-doc :
      (doc : Doc) (last : ℕ)
      → field_doc y options (some (encode_state_as_update doc)) last [] ≡ ok doc
  unfolding field_doc replay
  snapshot_row-doc doc last = ground (arith, restores doc)

  module _ (g : Text) (doc : Doc) (last : ℕ) (row : FieldRow) (x : Extension Doc) where
    with_snapshot-fields :
        (f : Text)
        → JsMap.get f (with_snapshot g doc last row x).fields
          ≡ (if g == f then some (snapshot_row doc last row) else JsMap.get f x.fields)
    with_snapshot-fields f = JsMap.get-set g f (snapshot_row doc last row) x.fields

    with_snapshot-rows :
        (f : Text)
        → rows_of f (with_snapshot g doc last row x) ≡ (if g == f then [] else rows_of f x)
    with_snapshot-rows f = ground (arith, JsMap.get-set g f [] x.updates)

    with_snapshot-keeps :
        materialize y options g x ≡ ok doc
        → (f : Text)
        → materialize y options f (with_snapshot g doc last row x) ≡ materialize y options f x
    with_snapshot-keeps m f = elim (Bool-cases (g == f)) [
      | inl same ↦
          let e : g ≡ f = (eq_iff g f).0 same in
          let r : JsMap.get f (with_snapshot g doc last row x).fields
              ≡ some (snapshot_row doc last row) =
            ground (arith, with_snapshot-fields f) in
          let l : rows_of f (with_snapshot g doc last row x) ≡ [] =
            ground (arith, with_snapshot-rows f) in
          ap₂ (λ k us. field_doc y options (snapshot_of k) (snapshot_seq_of k) us) r l
          ∙ snapshot_row-doc doc last
          ∙ sym (subst (λ t. materialize y options t x ≡ ok doc) e m)
      | inr differs ↦
          let r : JsMap.get f (with_snapshot g doc last row x).fields ≡ JsMap.get f x.fields =
            ground (arith, with_snapshot-fields f) in
          let l : rows_of f (with_snapshot g doc last row x) ≡ rows_of f x =
            ground (arith, with_snapshot-rows f) in
          ap₂ (λ k us. field_doc y options (snapshot_of k) (snapshot_seq_of k) us) r l
    ]

    with_snapshot-IsCoherent :
        IsCoherent y options x
        → materialize y options g x ≡ ok doc
        → IsCoherent y options (with_snapshot g doc last row x)
    with_snapshot-IsCoherent c m = (
      c.0,
      λ f. elim (Bool-cases (g == f)) [
        | inl same ↦
            FieldIsCoherent-eq y options {row = some (snapshot_row doc last row)} {rows = []}
              {cached = JsMap.get f x.cache} (ground (arith, with_snapshot-fields f))
              (ground (arith, with_snapshot-rows f)) refl
              (record {
                ascending = tt;
                present = λ h. refl;
                accounted = omega arith;
                current = λ d h.
                    snapshot_row-doc doc last
                    ∙ sym (subst (λ t. materialize y options t x ≡ ok doc) ((eq_iff g f).0 same) m)
                    ∙ (c.1 f).current d h;
              })
        | inr differs ↦
            FieldIsCoherent-eq y options (ground (arith, with_snapshot-fields f))
              (ground (arith, with_snapshot-rows f)) refl (c.1 f)
      ],
    )

  compact_field-writes :
      (g : Text) (x : Extension Doc) (last : ℕ) (doc : Doc) (row : FieldRow)
      → IsCoherent y options x
      → max_seq (rows_of g x) ≡ some last
      → materialize y options g x ≡ ok doc
      → JsMap.get g x.fields ≡ some row
      → compact_field y options g x
        ≡ ok
            (cache_doc y options g doc (with_snapshot g doc last row (cache_doc y options g doc x)))
  unfolding compact_field cache_doc
  compact_field-writes g x last doc row c found loaded there = ground (
    arith,
    keep-top (snapshot_seq_of (JsMap.get g x.fields)) last (rows_of g x) (c.1 g).ascending,
  )

  -- What is asked of a state that stands for another.
  abbrev pub Compacted : Text → Extension Doc → Extension Doc → Type 0
  Compacted g x x' =
      IsCoherent y options x'
      × (rows_of g x' ≡ [])
      × ((f : Text) → materialize y options f x' ≡ materialize y options f x)

  cached_twice-Compacted :
      (g : Text) (x : Extension Doc) (last : ℕ) (doc : Doc) (row : FieldRow)
      → IsCoherent y options x
      → materialize y options g x ≡ ok doc
      → Compacted g x
          (cache_doc y options g doc (with_snapshot g doc last row (cache_doc y options g doc x)))
  unfolding cache_doc
  cached_twice-Compacted g x last doc row c m =
      let once = cache_doc y options g doc x in
      let written = with_snapshot g doc last row once in
      let coherent =
        with_snapshot-IsCoherent g doc last row once (cache_doc-IsCoherent y options x c g doc m)
          m in
      let same = with_snapshot-keeps g doc last row once m in
      (
        cache_doc-IsCoherent y options written coherent g doc (same g ∙ m),
        ground (arith, with_snapshot-rows g doc last row once g, eq_refl g),
        same,
      )

  -- Compaction keeps the extension coherent, leaves no update of the field in the log, and leaves
  -- every field's document as it was.
  pub compact_field-Compacted :
      (g : Text) (x x' : Extension Doc)
      → IsCoherent y options x
      → compact_field y options g x ≡ ok x'
      → Compacted g x x'
  compact_field-Compacted g x x' c done = elim (Option-cases (max_seq (rows_of g x))) [
    | inl empty ↦
        let e : x' ≡ x = unfold compact_field in ground arith in
        subst (Compacted g x) (sym e) (c, max_seq-none (rows_of g x) empty, λ f. refl)
    | inr (last, found) ↦ elim (Result-cases (materialize y options g x)) [
      | inr (fault, thrown_by) ↦ absurd (unfold compact_field in ground arith)
      | inl (doc, loaded) ↦ elim (Option-cases (JsMap.get g x.fields)) [
        | inl absent ↦ absurd (ground (arith, (c.1 g).present absent))
        | inr (row, there) ↦
            let e : x'
                ≡ cache_doc y options g doc
                    (with_snapshot g doc last row (cache_doc y options g doc x)) =
              cc (compact_field-writes g x last doc row c found loaded there) in
            subst (Compacted g x) (sym e) (cached_twice-Compacted g x last doc row c loaded)
      ]
    ]
  ]
