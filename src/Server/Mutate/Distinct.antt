-- ===== src/Server/Mutate/Distinct.antt =====
-- A flush keeps every key of the table `rows` single.
use cf_sync.Base.JsMap
use cf_sync.Base.JsMap.{JsMap}
use cf_sync.Base.Text.{Text}
use cf_sync.Base.{
  Bool, Bool-cases, Option-cases, Result-cases, [], arith, inl, inr, list_eq, nat_eq, ok, pair_eq,
  some, subst, ℕ, ◌∷◌, ◌≡◌, true,
}
use cf_sync.Engine.WriteSet.{
  Engine, FlushResult, Flushed, RowWrite, Target, WriteSet, flush, flush_del, flush_dels,
  flush_puts, flushed_row,
}
use cf_sync.Engine.{row_key}
use cf_sync.Protocol.Mutators.{Where}
use cf_sync.Server.SqlRows.{sql_del, sql_put, sql_rows}
use cf_sync.Server.State.{Row, Rows}

module _ {Json : Type 0} where
  sql_put-Distinct :
      (rows : Rows Json) (tbl id : Text) (content : Json) (version : ℕ)
      → JsMap.Distinct rows
      → JsMap.Distinct (sql_put rows tbl id content version)
  unfolding sql_put
  sql_put-Distinct rows tbl id content version d = JsMap.set-Distinct (tbl, id) _ rows d

  sql_del-Distinct :
      (rows : Rows Json) (tbl id : Text) (version : ℕ)
      → JsMap.Distinct rows
      → JsMap.Distinct (sql_del rows tbl id version).0
  unfolding sql_del
  sql_del-Distinct rows tbl id version d = elim (Option-cases (JsMap.get (tbl, id) rows)) [
    | inl e ↦ subst JsMap.Distinct {x = rows} {y = (sql_del rows tbl id version).0} (ground arith) d
    | inr (row, e) ↦ elim (Bool-cases row.deleted) [
      | inl gone ↦
          subst JsMap.Distinct {x = rows} {y = (sql_del rows tbl id version).0} (ground arith) d
      | inr there ↦
          let stamp : Row Json = record row { version = version; deleted = true } in
          subst JsMap.Distinct {x = JsMap.set (tbl, id) stamp rows}
            {y = (sql_del rows tbl id version).0} (ground arith)
            (JsMap.set-Distinct (tbl, id) stamp rows d)
    ]
  ]

  module _ (engine : Engine Json (Rows Json)) (prefilter : Where Json → Json → Bool)
      (is_sql : engine.rows ≡ sql_rows prefilter) where
    flush_puts-Distinct :
        (start : Rows Json) (version : ℕ) (puts : JsMap Text (RowWrite Json))
        (f g : Flushed Json (Rows Json))
        → JsMap.Distinct f.store
        → flush_puts engine version start puts f ≡ ok g
        → JsMap.Distinct g.store
    unfolding flush_puts
    flush_puts-Distinct start version [] f g d h =
        subst (λ x. JsMap.Distinct x.store) {x = f} {y = g} (ground arith) d
    flush_puts-Distinct start version ((k, p) ∷ rest) f g d h =
        elim (Result-cases (flushed_row engine start p)) [
          | inr (e, bad) ↦ absurd (ground arith)
          | inl (stored, good) ↦
              let f' : Flushed Json (Rows Json) = record {
                store = engine.rows.put f.store p.tbl p.id stored version;
                after = JsMap.set (row_key p.tbl p.id) (some stored) f.after;
              } in
              flush_puts-Distinct start version rest f' g
                (rw is_sql (sql_put-Distinct f.store p.tbl p.id stored version d)) (ground arith)
        ]

    flush_dels-Distinct :
        (version : ℕ) (dels : JsMap Text Target) (f : Flushed Json (Rows Json))
        → JsMap.Distinct f.store
        → JsMap.Distinct (flush_dels engine version dels f).store
    unfolding flush_dels flush_del
    flush_dels-Distinct version [] f d = d
    flush_dels-Distinct version ((k, t) ∷ rest) f d =
        flush_dels-Distinct version rest (flush_del engine version t f)
          (rw is_sql (sql_del-Distinct f.store t.tbl t.id version d))

    pub flush-Distinct :
        (start : Rows Json) (version : ℕ) (w : WriteSet Json) (r : FlushResult engine version)
        → JsMap.Distinct start
        → flush engine version start w ≡ ok r
        → JsMap.Distinct r.store
    unfolding flush
    flush-Distinct start version w r d h =
        elim (Result-cases
          (flush_puts engine version start w.puts (record { store = start; after = [] }))) [
            | inr (e, bad) ↦ absurd (ground arith)
            | inl (g, good) ↦
                let done = flush_dels engine version w.dels g in
                subst (λ s. JsMap.Distinct s) {x = done.store} {y = r.store} (ground arith)
                  (flush_dels-Distinct version w.dels g (
                    flush_puts-Distinct start version w.puts (record { store = start; after = [] })
                      g d good))
          ]
