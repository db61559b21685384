-- ===== src/Engine/WriteSet/Overlay.antt =====
-- A write set reads as the store with its own writes laid over it.
use cf_sync.Base.JsMap
use cf_sync.Base.JsMap.{JsMap}
use cf_sync.Base.Text.{Text}
use cf_sync.Base.{Option, arith, if◌then◌else◌, list_eq, nat_eq, none, ok, pair_eq, some, true, ◌≡◌}
use cf_sync.Engine.Keys.{row_key-same_target, target-name_ok}
use cf_sync.Engine.WriteSet.{
  Engine, WriteSet, accept_row, buffer_put, get_target, tx_get, tx_put, buffer_del, tx_del,
}
use cf_sync.Engine.{row_key, same_target, table_name_ok, validate_target}

module _ {Json Store : Type 0} (engine : Engine Json Store) where
  open engine use {rows}

  -- What the mutation sees of a row.
  unfoldable pub overlay : Store → WriteSet Json → Text → Text → Option Json
  overlay store w tbl id =
      let k = row_key tbl id in
      if JsMap.has k w.dels
      then none
      else elim (JsMap.get k w.puts) [ some p ↦ some p.content | none ↦ rows.get store tbl id ]

  -- `get` of a valid target returns the overlay, and leaves every overlay as it is.
  pub tx_get-overlay :
      (store : Store) (w : WriteSet Json) (tbl id t i : Text)
      → validate_target tbl id ≡ ok tt
      → ((tx_get engine store tbl id w).0 ≡ ok (overlay store w tbl id))
        × (overlay store (tx_get engine store tbl id w).1 t i ≡ overlay store w t i)
  unfolding tx_get get_target overlay
  tx_get-overlay store w tbl id t i v = (ground (arith), ground arith)

  pub accept_row-target :
      (store : Store) (tbl id : Text) (row : Json) {stored : Json}
      → accept_row engine store tbl id row ≡ ok stored
      → validate_target tbl id ≡ ok tt
  unfolding accept_row
  accept_row-target store tbl id row {stored} a = ground arith

  overlay-buffer_put :
      (store : Store) (w : WriteSet Json) (tbl id t i : Text) (stored : Json)
      → table_name_ok tbl ≡ true
      → table_name_ok t ≡ true
      → overlay store (buffer_put engine store tbl id stored w) t i
        ≡ (if same_target tbl id t i then some stored else overlay store w t i)
  unfolding buffer_put overlay
  overlay-buffer_put store w tbl id t i stored p q =
      simp (JsMap.get-set, JsMap.get-delete)
        (ground (
          arith,
          row_key-same_target tbl id t i p q,
          JsMap.get-set (row_key tbl id) (row_key t i)
              (record { tbl = tbl; id = id; content = stored }) w.puts,
          JsMap.get-delete (row_key tbl id) (row_key t i) w.dels,
        ))

  overlay-buffer_del :
      (store : Store) (w : WriteSet Json) (tbl id t i : Text)
      → table_name_ok tbl ≡ true
      → table_name_ok t ≡ true
      → overlay store (buffer_del engine store tbl id w) t i
        ≡ (if same_target tbl id t i then none else overlay store w t i)
  unfolding buffer_del overlay
  overlay-buffer_del store w tbl id t i p q = ground (
    arith,
    row_key-same_target tbl id t i p q,
    JsMap.get-set (row_key tbl id) (row_key t i) (record { tbl = tbl; id = id }) w.dels,
    JsMap.get-delete (row_key tbl id) (row_key t i) w.puts,
  )

  -- After a `put` that is accepted the row reads as what was stored, and no other row changes.
  pub tx_put-overlay :
      (store : Store) (w : WriteSet Json) (tbl id t i : Text) (row stored : Json)
      → accept_row engine store tbl id row ≡ ok stored
      → table_name_ok t ≡ true
      → ((tx_put engine store tbl id row w).0 ≡ ok tt)
        × (overlay store (tx_put engine store tbl id row w).1 t i
            ≡ (if same_target tbl id t i then some stored else overlay store w t i))
  unfolding tx_put
  tx_put-overlay store w tbl id t i row stored a q = (
    ground arith,
    rw (a, tx_put)
        (overlay-buffer_put store w tbl id t i stored
          (target-name_ok tbl id (accept_row-target store tbl id row a)) q),
  )

  -- After a `del` of a valid target the row is gone, and no other row changes.
  pub tx_del-overlay :
      (store : Store) (w : WriteSet Json) (tbl id t i : Text)
      → validate_target tbl id ≡ ok tt
      → table_name_ok t ≡ true
      → ((tx_del engine store tbl id w).0 ≡ ok tt)
        × (overlay store (tx_del engine store tbl id w).1 t i
            ≡ (if same_target tbl id t i then none else overlay store w t i))
  unfolding tx_del
  tx_del-overlay store w tbl id t i v q = (
    ground arith,
    rw (v, tx_del) (overlay-buffer_del store w tbl id t i (target-name_ok tbl id v) q),
  )
