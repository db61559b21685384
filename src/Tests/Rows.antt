-- ===== src/Tests/Rows.antt =====
-- The row engine's theorems on one row.
use cf_sync.Base.JsMap
use cf_sync.Base.JsMap.{JsMap}
use cf_sync.Base.Text.{Text, text}
use cf_sync.Base.{[], list_eq, nat_eq, ok, pair_eq, refl, true, ◌∷◌, ◌≡◌}
use cf_sync.Engine.WriteSet.Coherent.{IsCoherent, new-IsCoherent, run_program-IsCoherent}
use cf_sync.Engine.WriteSet.Flush.{flush-overlay}
use cf_sync.Engine.WriteSet.Overlay.{overlay}
use cf_sync.Engine.WriteSet.{
  Engine, FlushResult, WriteSet, accept_row, check_size, flush, flush_dels, flush_puts,
  list_changes, new_write_set, run_program,
}
use cf_sync.Engine.{IsRowStore, row_id_ok, table_name_ok, validate_row, validate_target, validated}
use cf_sync.Protocol.Mutators.{put_then}
use cf_sync.Protocol.Utf8.{
  code_points, encode_piece, encode_point, is_pair, json_byte_size, utf8_encode,
}
use cf_sync.Server.Mutate.{engine}
use cf_sync.Server.SqlRows.{sql_rows, sql_rows-IsRowStore}
use cf_sync.Server.State.{Rows}
use cf_sync.Tests.Fixture.{config, finish, first_id, stored_milk, todos}

abbrev store : Rows Text
store = ((todos, first_id), stored_milk) ∷ []

abbrev rows_engine : Engine Text (Rows Text)
rows_engine = engine config

abbrev eggs : Text
eggs = text "eggs"

-- The write set of a `put` of eggs.
abbrev eggs_writes : WriteSet Text
eggs_writes = (run_program rows_engine store (put_then todos first_id eggs finish) new_write_set).1

eggs_IsCoherent : IsCoherent rows_engine store eggs_writes
eggs_IsCoherent =
    run_program-IsCoherent rows_engine store (put_then todos first_id eggs finish) new_write_set
      (new-IsCoherent rows_engine store)

run_program-IsCoherent_example :
    IsCoherent rows_engine store
      (run_program rows_engine store (put_then todos first_id eggs finish) new_write_set).1
run_program-IsCoherent_example =
    run_program-IsCoherent rows_engine store (put_then todos first_id eggs finish) new_write_set
      (new-IsCoherent rows_engine store)

laws : IsRowStore rows_engine.rows
laws = sql_rows-IsRowStore config.prefilter

flush-overlay_example :
    (r : FlushResult rows_engine 2) × (flush rows_engine 2 store eggs_writes ≡ ok r)
    × ((t i : Text)
        → table_name_ok t ≡ true
        → rows_engine.rows.get r.store t i ≡ overlay rows_engine store eggs_writes t i)
flush-overlay_example = flush-overlay rows_engine laws store 2 eggs_writes eggs_IsCoherent refl

todos_ok : table_name_ok todos ≡ true
unfolding table_name_ok
todos_ok = refl

first_ok : validate_target todos first_id ≡ ok tt
unfolding validate_target table_name_ok row_id_ok
first_ok = refl

abbrev nothing_flushed : FlushResult rows_engine 2
nothing_flushed = record { store = store; written = 0; changes = [] }

empty_flush : flush rows_engine 2 store new_write_set ≡ ok nothing_flushed
unfolding flush flush_puts flush_dels list_changes
empty_flush = refl

eggs_accepted : accept_row rows_engine store todos first_id eggs ≡ ok eggs
unfolding accept_row validate_target table_name_ok row_id_ok validate_row validated JsMap.get
    check_size json_byte_size utf8_encode code_points is_pair encode_piece encode_point
eggs_accepted = refl

sql_rows-IsRowStore_example : IsRowStore (sql_rows config.prefilter)
sql_rows-IsRowStore_example = sql_rows-IsRowStore config.prefilter
