-- ===== src/Engine/MemoryStore.antt =====
-- `MemoryRowStore` of packages/server/src/engine-core.ts: a Map of stored rows.
use cf_sync.Base.JsMap
use cf_sync.Base.JsMap.{JsMap}
use cf_sync.Base.Text.{Text}
use cf_sync.Base.{
  Bool, List, Option, [], false, if◌then◌else◌, list_beq, list_eq, nat_eq, none, not, pair_eq, some,
  true, ℕ, ◌&&◌, ◌∷◌, Option-cases, arith, inl, inr, is_some, ◌≡◌, list_beq_iff,
}
use cf_sync.Engine.Keys.{row_key-same_target}
use cf_sync.Engine.{row_key, RowStore, same_target, table_name_ok, IsRowStore}

pub record StoredRow (Json : Type 0) : Type 0 where
  pub tbl : Text
  pub id : Text
  pub content : Json
  pub version : ℕ
  pub deleted : Bool

abbrev pub Memory : Type 0 → Type 0
Memory Json = JsMap Text (StoredRow Json)

module _ {Json : Type 0} where
  abbrev pub live_content : Option (StoredRow Json) → Option Json
  live_content none = none
  live_content (some row) = if row.deleted then none else some row.content

  unfoldable pub memory_get : Memory Json → Text → Text → Option Json
  memory_get s tbl id = live_content (JsMap.get (row_key tbl id) s)

  unfoldable pub memory_list : Memory Json → Text → List (Text × Json)
  memory_list [] tbl = []
  memory_list ((k, row) ∷ s) tbl =
      if list_beq row.tbl tbl && not row.deleted
      then (row.id, row.content) ∷ memory_list s tbl
      else memory_list s tbl

  -- `live()`: every live row, in insertion order.
  unfoldable pub memory_live : Memory Json → List (Text × Text × Json)
  memory_live [] = []
  memory_live ((k, row) ∷ s) =
      if row.deleted then memory_live s else (row.tbl, row.id, row.content) ∷ memory_live s

  unfoldable pub memory_put : Memory Json → Text → Text → Json → ℕ → Memory Json
  memory_put s tbl id row version =
      JsMap.set (row_key tbl id)
        (record { tbl = tbl; id = id; content = row; version = version; deleted = false }) s

  unfoldable pub memory_del : Memory Json → Text → Text → ℕ → Memory Json × ℕ
  memory_del s tbl id version = elim (JsMap.get (row_key tbl id) s) [
    | none ↦ (s, 0)
    | some row ↦
        if row.deleted
        then (s, 0)
        else (JsMap.set (row_key tbl id) (record row { version = version; deleted = true }) s, 1)
  ]

  abbrev pub memory_rows : RowStore Json (Memory Json)
  memory_rows = record {
    get = memory_get;
    list = λ s tbl filter. memory_list s tbl;
    put = memory_put;
    del = memory_del;
  }

  memory_get-put :
      (s : Memory Json) (tbl id t i : Text) (row : Json) (version : ℕ)
      → table_name_ok tbl ≡ true
      → table_name_ok t ≡ true
      → memory_get (memory_put s tbl id row version) t i
        ≡ (if same_target tbl id t i then some row else memory_get s t i)
  unfolding memory_get memory_put
  memory_get-put s tbl id t i row version p q =
      simp (JsMap.get-set, row_key-same_target tbl id t i p q) (ground arith)

  memory_get-del :
      (s : Memory Json) (tbl id t i : Text) (version : ℕ)
      → table_name_ok tbl ≡ true
      → table_name_ok t ≡ true
      → memory_get (memory_del s tbl id version).0 t i
        ≡ (if same_target tbl id t i then none else memory_get s t i)
  unfolding memory_get memory_del
  memory_get-del s tbl id t i version p q = elim (Option-cases (JsMap.get (row_key tbl id) s)) [
    | inl e ↦
        ground
          (arith, list_beq_iff (row_key tbl id) (row_key t i), row_key-same_target tbl id t i p q)
    | inr (row, e) ↦ ground (
      arith,
      JsMap.get-set (row_key tbl id) (row_key t i)
          (record row { version = version; deleted = true }) s,
      list_beq_iff (row_key tbl id) (row_key t i),
      row_key-same_target tbl id t i p q,
    )
  ]

  memory_del_count :
      (s : Memory Json) (tbl id : Text) (version : ℕ)
      → (memory_del s tbl id version).1 ≡ (if is_some (memory_get s tbl id) then 1 else 0)
  unfolding memory_get memory_del
  memory_del_count s tbl id version = ground arith

  memory_del_noop :
      (s : Memory Json) (tbl id : Text) (version : ℕ)
      → (memory_del s tbl id version).1 ≡ 0
      → (memory_del s tbl id version).0 ≡ s
  unfolding memory_del
  memory_del_noop s tbl id version h = ground arith

  memory_rows-IsRowStore : IsRowStore memory_rows
  memory_rows-IsRowStore = record {
    get-put = memory_get-put;
    get-del = memory_get-del;
    del_count = memory_del_count;
    del_noop = memory_del_noop;
  }
