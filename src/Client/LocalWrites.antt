-- ===== src/Client/LocalWrites.antt =====
-- `LocalWriteSet` of packages/client/src/local-writes.ts: the writes of an optimistic mutation.
pub mod Optimistic
use cf_sync.Base.JsMap
use cf_sync.Base.JsMap.{JsMap}
use cf_sync.Base.Text.{Text}
use cf_sync.Base.{
  Bool, List, Option, Result, [], err, if◌then◌else◌, list_beq, list_eq, nat_eq, none, ok, pair_eq,
  some, ◌==◌, ◌>>=◌, ◌>>◌, ◌∷◌,
}
use cf_sync.Engine.WriteSet.{RowWrite, Target, add_buffered, add_matching, drop_deleted}
use cf_sync.Engine.{row_key, validate_row}
use cf_sync.Protocol.Mutators.{
  JsonOps, SyncSchema, Thrown, TxProgram, Where, compile_where, del_then, get_then, list_then,
  other_error, put_then, return, throw,
}
use cf_sync.Server.Patch.{Replica}

-- The arguments of the constructor: the schema, and the tables with an applier, whose rows are the
-- client's.
pub record LocalEngine (Json : Type 0) : Type 0 where
  pub ops : JsonOps Json
  pub schema : SyncSchema Json
  pub registered : Text → Bool
  pub rows : Replica Json

pub record LocalWriteSet (Json : Type 0) : Type 0 where
  pub puts : JsMap Text (RowWrite Json)
  pub dels : JsMap Text Target

module _ {Json : Type 0} where
  abbrev pub rows_of : Text → Replica Json → List (Text × Json)
  rows_of tbl [] = []
  rows_of tbl (((t, i), row) ∷ rest) =
      if list_beq t tbl then (i, row) ∷ rows_of tbl rest else rows_of tbl rest

module _ {Json : Type 0} (local : LocalEngine Json) where
  -- `#applier` throws MissingApplierError.
  unfoldable pub need_applier : Text → Result Thrown (Unit {0})
  need_applier tbl = if local.registered tbl then ok tt else err other_error

  unfoldable pub local_get : Text → Text → LocalWriteSet Json → Result Thrown (Option Json)
  local_get tbl id l = do
    need_applier tbl
    let k = row_key tbl id
    ok (
        if JsMap.has k l.dels then none else elim (JsMap.get k l.puts) [
          | some buffered ↦ some buffered.content
          | none ↦ JsMap.get (tbl, id) local.rows
        ])

  unfoldable pub local_list :
      Text → Where Json → LocalWriteSet Json → Result Thrown (List (Text × Json))
  local_list tbl filter l = do
    need_applier tbl
    matches ← compile_where local.ops filter
    ok (
        add_buffered matches tbl l.puts
          (drop_deleted tbl l.dels (add_matching matches (rows_of tbl local.rows) [])))

  unfoldable pub local_put :
      Text → Text → Json → LocalWriteSet Json → Result Thrown (Unit {0}) × LocalWriteSet Json
  unfolding need_applier
  local_put tbl id row l =
      elim (validate_row local.schema tbl row >>= λ stored. need_applier tbl >> ok stored) [
        | err e ↦ (err e, l)
        | ok stored ↦ (
          ok tt,
          record l {
            dels = JsMap.delete (row_key tbl id) l.dels;
            puts =
                JsMap.set (row_key tbl id) (record { tbl = tbl; id = id; content = stored }) l.puts;
          },
        )
      ]

  unfoldable pub local_del :
      Text → Text → LocalWriteSet Json → Result Thrown (Unit {0}) × LocalWriteSet Json
  unfolding need_applier
  local_del tbl id l = elim (need_applier tbl) [
    | err e ↦ (err e, l)
    | ok u ↦ (
      ok tt,
      record l {
        puts = JsMap.delete (row_key tbl id) l.puts;
        dels = JsMap.set (row_key tbl id) (record { tbl = tbl; id = id }) l.dels;
      },
    )
  ]

  unfoldable pub run_local :
      TxProgram Json → LocalWriteSet Json → Result Thrown (Unit {0}) × LocalWriteSet Json
  unfolding local_get local_list local_put local_del
  run_local return l = (ok tt, l)
  run_local (throw e) l = (err e, l)
  run_local (get_then tbl id next) l = run_local (next (local_get tbl id l)) l
  run_local (list_then tbl filter next) l = run_local (next (local_list tbl filter l)) l
  run_local (put_then tbl id row next) l =
      let (r, l') = local_put tbl id row l in run_local (next r) l'
  run_local (del_then tbl id next) l = let (r, l') = local_del tbl id l in run_local (next r) l'
