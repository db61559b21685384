-- ===== src/Engine/WriteSet.antt =====
-- `WriteSet` of packages/server/src/engine-core.ts: the writes of one mutation, buffered.
pub mod Overlay
pub mod Coherent
pub mod Flush
use cf_sync.Base.JsMap
use cf_sync.Base.JsMap.{JsMap}
use cf_sync.Base.Text.{Text}
use cf_sync.Base.{
  Bool, List, Option, Result, [], err, if◌then◌else◌, length, list_beq, list_eq, ltb, nat_eq, none,
  not, ok, pair_eq, some, ℕ, ◌&&◌, ◌==◌, ◌>>=◌, ◌>>◌, ◌∷◌,
}
use cf_sync.Engine.{RowStore, row_key, table_name_ok, validate_row, validate_target}
use cf_sync.Protocol.Messages.{max_row_bytes, del, put}
use cf_sync.Protocol.Mutators.{
  JsonOps, SyncSchema, Thrown, TxProgram, Where, app_error, compile_where, del_then, get_then,
  invalid_args, list_then, put_then, return, row_too_large, throw,
}
use cf_sync.Protocol.Utf8.{json_byte_size}

pub record RowWrite (Json : Type 0) : Type 0 where
  pub tbl : Text
  pub id : Text
  pub content : Json

pub record Target : Type 0 where
  pub tbl : Text
  pub id : Text

pub record RowChange (Json : Type 0) : Type 0 where
  pub tbl : Text
  pub id : Text
  pub before : Option Json
  pub after : Option Json

-- The arguments of the constructor.
pub record Engine (Json Store : Type 0) : Type 0 where
  pub rows : RowStore Json Store
  pub ops : JsonOps Json
  pub schema : SyncSchema Json
  pub validate_at_flush : Bool
  pub track_changes : Bool

pub record WriteSet (Json : Type 0) : Type 0 where
  pub puts : JsMap Text (RowWrite Json)
  pub dels : JsMap Text Target
  pub before : JsMap Text (Option Json)

abbrev pub new_write_set : {Json : Type 0} → WriteSet Json
new_write_set = record { puts = []; dels = []; before = [] }

module _ {Json : Type 0} where
  abbrev pub add_matching : (Json → Bool) → List (Text × Json) → JsMap Text Json → JsMap Text Json
  add_matching matches [] merged = merged
  add_matching matches ((id, row) ∷ rest) merged =
      add_matching matches rest (if matches row then JsMap.set id row merged else merged)

  abbrev pub drop_deleted : Text → JsMap Text Target → JsMap Text Json → JsMap Text Json
  drop_deleted tbl [] merged = merged
  drop_deleted tbl ((k, t) ∷ rest) merged =
      drop_deleted tbl rest (if list_beq t.tbl tbl then JsMap.delete t.id merged else merged)

  abbrev pub add_buffered :
      (Json → Bool) → Text → JsMap Text (RowWrite Json) → JsMap Text Json → JsMap Text Json
  add_buffered matches tbl [] merged = merged
  add_buffered matches tbl ((k, p) ∷ rest) merged = add_buffered matches tbl rest (
      if list_beq p.tbl tbl
      then if matches p.content then JsMap.set p.id p.content merged else JsMap.delete p.id merged
      else merged)

module _ {Json Store : Type 0} (engine : Engine Json Store) (store : Store) where
  open engine use {rows, ops, schema, validate_at_flush, track_changes}

  unfoldable pub remember : Text → Option Json → WriteSet Json → WriteSet Json
  remember k stored w =
      if track_changes && not (JsMap.has k w.before)
      then record w { before = JsMap.set k stored w.before }
      else w

  unfoldable pub get_target : Text → Text → WriteSet Json → Option Json × WriteSet Json
  unfolding remember
  get_target tbl id w =
      let k = row_key tbl id in
      if JsMap.has k w.dels then (none, w) else elim (JsMap.get k w.puts) [
        | some buffered ↦ (some buffered.content, w)
        | none ↦ (rows.get store tbl id, remember k (rows.get store tbl id) w)
      ]

  unfoldable pub tx_get : Text → Text → WriteSet Json → Result Thrown (Option Json) × WriteSet Json
  tx_get tbl id w = elim (validate_target tbl id) [
    | err e ↦ (err e, w)
    | ok _ ↦ let (found, w') = get_target tbl id w in (ok found, w')
  ]

  unfoldable pub tx_list : Text → Where Json → WriteSet Json → Result Thrown (List (Text × Json))
  tx_list tbl filter w = if not (table_name_ok tbl) then err (app_error invalid_args) else do
    matches ← compile_where ops filter
    ok (
        add_buffered matches tbl w.puts
          (drop_deleted tbl w.dels (add_matching matches (rows.list store tbl filter) [])))

  unfoldable pub check_size : Json → Result Thrown (Unit {0})
  check_size row =
      if ltb max_row_bytes (json_byte_size ops.stringify row)
      then err (app_error row_too_large)
      else ok tt

  -- What `put` stores, or throws.
  unfoldable pub accept_row : Text → Text → Json → Result Thrown Json
  accept_row tbl id row = do
    validate_target tbl id
    stored ← if validate_at_flush then ok row else validate_row schema tbl row
    check_size stored
    ok stored

  unfoldable pub buffer_put : Text → Text → Json → WriteSet Json → WriteSet Json
  unfolding remember
  buffer_put tbl id stored w =
      let k = row_key tbl id in
      let r = remember k (rows.get store tbl id) w in
      record r {
        dels = JsMap.delete k r.dels;
        puts = JsMap.set k (record { tbl = tbl; id = id; content = stored }) r.puts;
      }

  unfoldable pub tx_put :
      Text → Text → Json → WriteSet Json → Result Thrown (Unit {0}) × WriteSet Json
  tx_put tbl id row w = elim (accept_row tbl id row) [
    | err e ↦ (err e, w)
    | ok stored ↦ (ok tt, buffer_put tbl id stored w)
  ]

  unfoldable pub buffer_del : Text → Text → WriteSet Json → WriteSet Json
  unfolding remember
  buffer_del tbl id w =
      let k = row_key tbl id in
      let r = remember k (rows.get store tbl id) w in
      record r {
        puts = JsMap.delete k r.puts;
        dels = JsMap.set k (record { tbl = tbl; id = id }) r.dels;
      }

  unfoldable pub tx_del : Text → Text → WriteSet Json → Result Thrown (Unit {0}) × WriteSet Json
  tx_del tbl id w = elim (validate_target tbl id) [
    | err e ↦ (err e, w)
    | ok _ ↦ (ok tt, buffer_del tbl id w)
  ]

  -- One run of `apply` against the write set.
  unfoldable pub run_program :
      TxProgram Json → WriteSet Json → Result Thrown (Unit {0}) × WriteSet Json
  run_program return w = (ok tt, w)
  run_program (throw e) w = (err e, w)
  run_program (get_then tbl id next) w = let (r, w') = tx_get tbl id w in run_program (next r) w'
  run_program (list_then tbl filter next) w = run_program (next (tx_list tbl filter w)) w
  run_program (put_then tbl id row next) w =
      let (r, w') = tx_put tbl id row w in run_program (next r) w'
  run_program (del_then tbl id next) w = let (r, w') = tx_del tbl id w in run_program (next r) w'

  -- A row as `flush` stores it.
  unfoldable pub flushed_row : RowWrite Json → Result Thrown Json
  unfolding check_size
  flushed_row p =
      if validate_at_flush
      then (do stored ← validate_row schema p.tbl p.content; check_size stored; ok stored)
      else ok p.content

pub record Flushed (Json Store : Type 0) : Type 0 where
  pub store : Store
  pub after : JsMap Text (Option Json)

module _ {Json Store : Type 0} (engine : Engine Json Store) (version : ℕ) where
  open engine use {rows}

  unfoldable pub flush_puts :
      (start : Store)
      → JsMap Text (RowWrite Json)
      → Flushed Json Store
      → Result Thrown (Flushed Json Store)
  flush_puts start [] f = ok f
  flush_puts start ((k, p) ∷ rest) f = do
    stored ← flushed_row engine start p
    flush_puts start rest (record {
      store = rows.put f.store p.tbl p.id stored version;
      after = JsMap.set (row_key p.tbl p.id) (some stored) f.after;
    })

  unfoldable pub flush_del : Target → Flushed Json Store → Flushed Json Store
  flush_del t f =
      let (store, count) = rows.del f.store t.tbl t.id version in
      record {
        store = store;
        after = if ltb 0 count then JsMap.set (row_key t.tbl t.id) none f.after else f.after;
      }

  unfoldable pub flush_dels : JsMap Text Target → Flushed Json Store → Flushed Json Store
  unfolding flush_del
  flush_dels [] f = f
  flush_dels ((k, t) ∷ rest) f = flush_dels rest (flush_del t f)

  abbrev pub change_target : WriteSet Json → Text → Text × Text
  change_target w k = elim (JsMap.get k w.puts) [
    | some p ↦ (p.tbl, p.id)
    | none ↦ elim (JsMap.get k w.dels) [ some t ↦ (t.tbl, t.id) | none ↦ ([], []) ]
  ]

  unfoldable pub list_changes :
      WriteSet Json → JsMap Text (Option Json) → JsMap Text (Option Json) → List (RowChange Json)
  list_changes w after [] = []
  list_changes w after ((k, before) ∷ rest) =
      let more = list_changes w after rest in
      elim (JsMap.get k after) [
        | none ↦ more
        | some now ↦
            let (tbl, id) = change_target w k in
            record { tbl = tbl; id = id; before = before; after = now } ∷ more
      ]

  pub record FlushResult : Type 0 where
    pub store : Store
    pub written : ℕ
    pub changes : List (RowChange Json)

  unfoldable pub flush : Store → WriteSet Json → Result Thrown FlushResult
  flush start w = do
    stored ← flush_puts start w.puts (record { store = start; after = [] })
    let done = flush_dels w.dels stored
    ok (record {
      store = done.store;
      written = length done.after;
      changes = list_changes w done.after w.before;
    })
