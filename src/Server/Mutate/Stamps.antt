-- ===== src/Server/Mutate/Stamps.antt =====
-- Every row that a flush touches is stamped with the flush's version; every other row is as it was.
use cf_sync.Base.JsMap
use cf_sync.Base.JsMap.{JsMap}
use cf_sync.Base.Text.{Text}
use cf_sync.Base.{
  Bool-cases, Option-cases, false, inl, inr, list_eq, nat_eq, pair_eq, refl, some, ℕ, ◌==◌, ◌∙◌,
  ◌≡◌, ◌⊎◌, Bool, Result-cases, [], arith, ok, subst, true, ◌∷◌,
}
use cf_sync.Engine.WriteSet.{
  Engine, FlushResult, Flushed, RowWrite, Target, WriteSet, flush, flush_del, flush_dels,
  flush_puts, flushed_row,
}
use cf_sync.Engine.{row_key}
use cf_sync.Protocol.Mutators.{Where}
use cf_sync.Server.SqlRows.{sql_del, sql_put, sql_rows}
use cf_sync.Server.State.{Row, Rows}

-- From `a` to `b`, at `version`.
abbrev pub Stamped : {Json : Type 0} → ℕ → Rows Json → Rows Json → Type 0
Stamped {Json} version a b =
    (key : Text × Text)
    → (JsMap.get key b ≡ JsMap.get key a)
      ⊎ ((row : Row Json) × (JsMap.get key b ≡ some row) × (row.version ≡ version))

module _ {Json : Type 0} where
  pub Stamped-trans :
      (version : ℕ) (a b c : Rows Json)
      → Stamped version a b
      → Stamped version b c
      → Stamped version a c
  Stamped-trans version a b c p q key = elim (q key) [
    | inr hit ↦ inr hit
    | inl same ↦ elim (p key) [
      | inl old ↦ inl (same ∙ old)
      | inr (row, e, v) ↦ inr (row, same ∙ e, v)
    ]
  ]

  sql_put-Stamped :
      (version : ℕ) (rows : Rows Json) (tbl id : Text) (content : Json)
      → Stamped version rows (sql_put rows tbl id content version)
  unfolding sql_put
  sql_put-Stamped version rows tbl id content key =
      let stamp : Row Json = record { content = content; version = version; deleted = false } in
      elim (Bool-cases ((tbl, id) == key)) [
        | inl hit ↦ inr (stamp, rw (JsMap.get-set (tbl, id) key stamp rows, hit) refl, refl)
        | inr miss ↦ inl (rw (JsMap.get-set (tbl, id) key stamp rows, miss) refl)
      ]

  sql_del-Stamped :
      (version : ℕ) (rows : Rows Json) (tbl id : Text)
      → Stamped version rows (sql_del rows tbl id version).0
  unfolding sql_del
  sql_del-Stamped version rows tbl id key = elim (Option-cases (JsMap.get (tbl, id) rows)) [
    | inl e ↦ inl (ground arith)
    | inr (row, e) ↦
        let stamp : Row Json = record row { version = version; deleted = true } in
        elim (Bool-cases ((tbl, id) == key)) [
          | inl hit ↦ elim (Bool-cases row.deleted) [
            | inl gone ↦ inl (ground arith)
            | inr there ↦ inr (stamp, ground (arith, JsMap.get-set (tbl, id) key stamp rows), refl)
          ]
          | inr miss ↦ inl (ground (arith, JsMap.get-set (tbl, id) key stamp rows))
        ]
  ]

  module _ (engine : Engine Json (Rows Json)) (prefilter : Where Json → Json → Bool)
      (is_sql : engine.rows ≡ sql_rows prefilter) where
    flush_puts-Stamped :
        (start : Rows Json) (version : ℕ) (puts : JsMap Text (RowWrite Json))
        (f g : Flushed Json (Rows Json))
        → flush_puts engine version start puts f ≡ ok g
        → Stamped version f.store g.store
    unfolding flush_puts
    flush_puts-Stamped start version [] f g h = λ key. inl (ground arith)
    flush_puts-Stamped start version ((k, p) ∷ rest) f g h =
        elim (Result-cases (flushed_row engine start p)) [
          | inr (e, bad) ↦ absurd (ground arith)
          | inl (stored, good) ↦
              let f' : Flushed Json (Rows Json) = record {
                store = engine.rows.put f.store p.tbl p.id stored version;
                after = JsMap.set (row_key p.tbl p.id) (some stored) f.after;
              } in
              Stamped-trans version f.store f'.store g.store
                (rw is_sql (sql_put-Stamped version f.store p.tbl p.id stored))
                (flush_puts-Stamped start version rest f' g (ground arith))
        ]

    flush_dels-Stamped :
        (version : ℕ) (dels : JsMap Text Target) (f : Flushed Json (Rows Json))
        → Stamped version f.store (flush_dels engine version dels f).store
    unfolding flush_dels flush_del
    flush_dels-Stamped version [] f = λ key. inl refl
    flush_dels-Stamped version ((k, t) ∷ rest) f =
        let f' = flush_del engine version t f in
        Stamped-trans version f.store f'.store (flush_dels engine version rest f').store
          (rw is_sql (sql_del-Stamped version f.store t.tbl t.id))
          (flush_dels-Stamped version rest f')

    pub flush-Stamped :
        (start : Rows Json) (version : ℕ) (w : WriteSet Json) (r : FlushResult engine version)
        → flush engine version start w ≡ ok r
        → Stamped version start r.store
    unfolding flush
    flush-Stamped start version w r h =
        elim (Result-cases
          (flush_puts engine version start w.puts (record { store = start; after = [] }))) [
            | inr (e, bad) ↦ absurd (ground arith)
            | inl (g, good) ↦
                let done = flush_dels engine version w.dels g in
                subst (λ s. Stamped version start s) (ground arith)
                  (Stamped-trans version start g.store done.store
                    (flush_puts-Stamped start version w.puts (record { store = start; after = [] })
                      g good)
                    (flush_dels-Stamped version w.dels g))
          ]
