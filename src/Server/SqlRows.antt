-- ===== src/Server/SqlRows.antt =====
-- packages/server/src/sql-row-store.ts: the row store over the table `rows`.
use cf_sync.Base.JsMap
use cf_sync.Base.JsMap.{JsMap}
use cf_sync.Base.Text.{Text}
use cf_sync.Base.{
  Bool, List, Option, Option-cases, [], arith, false, if◌then◌else◌, inl, inr, is_some, list_beq,
  list_beq_iff, list_eq, nat_eq, none, not, pair_eq, some, true, ℕ, ◌&&◌, ◌∷◌, ◌≡◌,
}
use cf_sync.Engine.{IsRowStore, RowStore, same_target}
use cf_sync.Protocol.Mutators.{Where}
use cf_sync.Server.State.{Row, Rows}

module _ {Json : Type 0} where
  abbrev pub live_content : Option (Row Json) → Option Json
  live_content none = none
  live_content (some row) = if row.deleted then none else some row.content

  -- The live row of a key, as any reader sees it.
  unfoldable pub live : Rows Json → Text × Text → Option Json
  live rows key = live_content (JsMap.get key rows)

  unfoldable pub sql_get : Rows Json → Text → Text → Option Json
  unfolding live
  sql_get rows tbl id = live rows (tbl, id)

  -- SQLite returns the live rows of the table that pass its prefilter.
  unfoldable pub sql_list :
      (Where Json → Json → Bool) → Rows Json → Text → Where Json → List (Text × Json)
  sql_list prefilter [] tbl filter = []
  sql_list prefilter (((t, i), row) ∷ rows) tbl filter =
      if list_beq t tbl && not row.deleted && prefilter filter row.content
      then (i, row.content) ∷ sql_list prefilter rows tbl filter
      else sql_list prefilter rows tbl filter

  unfoldable pub sql_put : Rows Json → Text → Text → Json → ℕ → Rows Json
  sql_put rows tbl id row version =
      JsMap.set (tbl, id) (record { content = row; version = version; deleted = false }) rows

  -- The UPDATE touches a live row only.
  unfoldable pub sql_del : Rows Json → Text → Text → ℕ → Rows Json × ℕ
  sql_del rows tbl id version = elim (JsMap.get (tbl, id) rows) [
    | none ↦ (rows, 0)
    | some row ↦
        if row.deleted
        then (rows, 0)
        else (JsMap.set (tbl, id) (record row { version = version; deleted = true }) rows, 1)
  ]

  abbrev pub sql_rows : (Where Json → Json → Bool) → RowStore Json (Rows Json)
  sql_rows prefilter = record {
    get = sql_get;
    list = sql_list prefilter;
    put = sql_put;
    del = sql_del;
  }

  sql_get-put :
      (s : Rows Json) (tbl id t i : Text) (row : Json) (version : ℕ)
      → sql_get (sql_put s tbl id row version) t i
        ≡ (if same_target tbl id t i then some row else sql_get s t i)
  unfolding sql_get sql_put live
  sql_get-put s tbl id t i row version = ground (
    arith,
    JsMap.get-set (tbl, id) (t, i) (record { content = row; version = version; deleted = false }) s,
  )

  sql_get-del :
      (s : Rows Json) (tbl id t i : Text) (version : ℕ)
      → sql_get (sql_del s tbl id version).0 t i
        ≡ (if same_target tbl id t i then none else sql_get s t i)
  unfolding sql_get sql_del live
  sql_get-del s tbl id t i version = elim (Option-cases (JsMap.get (tbl, id) s)) [
    | inl e ↦ ground (arith, list_beq_iff tbl t, list_beq_iff id i)
    | inr (row, e) ↦ ground (
      arith,
      list_beq_iff tbl t,
      list_beq_iff id i,
      JsMap.get-set (tbl, id) (t, i) (record row { version = version; deleted = true }) s,
    )
  ]

  sql_del_count :
      (s : Rows Json) (tbl id : Text) (version : ℕ)
      → (sql_del s tbl id version).1 ≡ (if is_some (sql_get s tbl id) then 1 else 0)
  unfolding sql_get sql_del live
  sql_del_count s tbl id version = ground arith

  sql_del_noop :
      (s : Rows Json) (tbl id : Text) (version : ℕ)
      → (sql_del s tbl id version).1 ≡ 0
      → (sql_del s tbl id version).0 ≡ s
  unfolding sql_del
  sql_del_noop s tbl id version h = ground arith

  -- The row store over the table `rows` keeps the laws of a row store: a get reads the last put or
  -- del of its target, a del counts a live row or nothing, and one that counts nothing changes
  -- nothing.
  pub sql_rows-IsRowStore : (prefilter : Where Json → Json → Bool) → IsRowStore (sql_rows prefilter)
  sql_rows-IsRowStore prefilter = record {
    get-put = λ s tbl id t i row version p q. sql_get-put s tbl id t i row version;
    get-del = λ s tbl id t i version p q. sql_get-del s tbl id t i version;
    del_count = sql_del_count;
    del_noop = sql_del_noop;
  }
