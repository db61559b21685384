-- ===== src/Yjs/Server/Coherent.antt =====
-- The cache never falls behind the log, and the running total is the log's size.
use cf_sync.Base.JsMap
use cf_sync.Base.JsMap.{JsMap}
use cf_sync.Base.Text.{Text}
use cf_sync.Base.{
  Bool-cases, List, Option, [], arith, eq_iff, inl, inr, length, list_eq, ltb, nat_eq, none, ok,
  pair_eq, some, sum_by, ℕ, ◌+◌, ◌==◌, ◌∷◌, ◌≡◌, subst, ap, sym, ◌∙◌, ◌⊎◌,
}
use cf_sync.Yjs.Server.Log.{Ascending}
use cf_sync.Yjs.Server.{
  Extension, FieldRow, UpdateRow, YjsFieldsOptions, byte_total_of, cache_doc, evict_oldest,
  field_doc, materialize, rows_of, snapshot_of, snapshot_seq_of,
}
use cf_sync.Yjs.{Bytes, Yjs}

abbrev pub snapshot_bytes : Option Bytes → ℕ
snapshot_bytes none = 0
snapshot_bytes (some bytes) = length bytes

-- The bytes of a field's snapshot and updates.
abbrev pub log_bytes : Option FieldRow → List UpdateRow → ℕ
log_bytes row rows = snapshot_bytes (snapshot_of row) + sum_by (λ u. length u.bytes) rows

module _ {Doc Auth : Type 0} (y : Yjs Doc) (options : YjsFieldsOptions Auth) where
  open y use {new_doc, apply_update, encode_state_as_update}
  open options use {max_cached_docs}

  -- What a field's rows and its cached document say of one another.
  pub record FieldIsCoherent (row : Option FieldRow) (rows : List UpdateRow) (cached : Option Doc)
      : Type 0 where
    pub ascending : Ascending (snapshot_seq_of row) rows
    pub present : row ≡ none → rows ≡ []
    pub accounted : byte_total_of row ≡ log_bytes row rows
    pub current :
        (doc : Doc)
        → cached ≡ some doc
        → field_doc y options (snapshot_of row) (snapshot_seq_of row) rows ≡ ok doc

  abbrev pub IsCoherent : Extension Doc → Type 0
  IsCoherent x =
      JsMap.Distinct x.cache
      × ((f : Text) → FieldIsCoherent (JsMap.get f x.fields) (rows_of f x) (JsMap.get f x.cache))

  pub FieldIsCoherent-eq :
      {row row' : Option FieldRow} {rows rows' : List UpdateRow} {cached cached' : Option Doc}
      → row' ≡ row
      → rows' ≡ rows
      → cached' ≡ cached
      → FieldIsCoherent row rows cached
      → FieldIsCoherent row' rows' cached'
  FieldIsCoherent-eq {row} {row'} {rows} {rows'} {cached} {cached'} e f g c =
      subst (λ r. FieldIsCoherent r rows' cached') (sym e)
        (subst (λ r. FieldIsCoherent row r cached') (sym f)
          (subst (FieldIsCoherent row rows) (sym g) c))

  evict_oldest-cases :
      (e : Text × Doc) (rest : JsMap Text Doc)
      → (evict_oldest y options (e ∷ rest) ≡ evict_oldest y options rest)
        ⊎ (evict_oldest y options (e ∷ rest) ≡ e ∷ rest)
  evict_oldest-cases e rest = elim (Bool-cases (ltb max_cached_docs (length (e ∷ rest)))) [
    | inl full ↦ inl (ground arith)
    | inr fits ↦ inr (ground arith)
  ]

  evict_oldest-Distinct :
      (c : JsMap Text Doc) → JsMap.Distinct c → JsMap.Distinct (evict_oldest y options c)
  evict_oldest-Distinct [] d = tt
  evict_oldest-Distinct (e ∷ rest) d = elim (evict_oldest-cases e rest) [
    | inl full ↦ subst JsMap.Distinct (sym full) (evict_oldest-Distinct rest d.1)
    | inr fits ↦ subst JsMap.Distinct (sym fits) d
  ]

  get-evict_oldest :
      (f : Text) (c : JsMap Text Doc) (doc : Doc)
      → JsMap.Distinct c
      → JsMap.get f (evict_oldest y options c) ≡ some doc
      → JsMap.get f c ≡ some doc
  unfolding JsMap.get
  get-evict_oldest f [] doc d h = h
  get-evict_oldest f ((g, e) ∷ rest) doc d h = elim (evict_oldest-cases (g, e) rest) [
    | inl full ↦
        let held = get-evict_oldest f rest doc d.1 (ap (JsMap.get f) (sym full) ∙ h) in
        ground (arith, held, eq_iff g f)
    | inr fits ↦ ap (JsMap.get f) (sym fits) ∙ h
  ]

  module _ (x : Extension Doc) (c : IsCoherent x) where
    pub cache_doc-IsCoherent :
        (g : Text) (doc : Doc)
        → materialize y options g x ≡ ok doc
        → IsCoherent (cache_doc y options g doc x)
    unfolding cache_doc
    cache_doc-IsCoherent g doc m =
        let once =
          JsMap.set-Distinct g doc (JsMap.delete g x.cache) (JsMap.delete-Distinct g x.cache c.0) in
        (
          evict_oldest-Distinct _ once,
          λ f. record {
            ascending = (c.1 f).ascending;
            present = (c.1 f).present;
            accounted = (c.1 f).accounted;
            current = λ d h.
                let held = get-evict_oldest f (JsMap.set g doc (JsMap.delete g x.cache)) d once h in
                elim (Bool-cases (g == f)) [
                  | inl same ↦
                      let doc-eq : doc ≡ d =
                        ground (arith, JsMap.get-set g f doc (JsMap.delete g x.cache)) in
                      subst (λ e. materialize y options f x ≡ ok e) doc-eq
                        (subst (λ t. materialize y options t x ≡ ok doc) ((eq_iff g f).0 same) m)
                  | inr differs ↦ (c.1 f).current d (
                      ground (
                        arith,
                        JsMap.get-set g f doc (JsMap.delete g x.cache),
                        JsMap.get-delete g f x.cache,
                      ))
                ];
          },
        )
