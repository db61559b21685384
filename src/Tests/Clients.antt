-- ===== src/Tests/Clients.antt =====
-- The client's theorems on a client of one to-do.
use cf_sync.Base.JsMap
use cf_sync.Base.JsMap.{JsMap}
use cf_sync.Base.Text.{Text, text}
use cf_sync.Base.{
  List, [], any, concat, false, list_eq, nat_eq, none, ok, pair_eq, refl, some, true, ◌<◌, ◌||◌,
  ◌∷◌, ◌≡◌, ◌≤◌, ◌⊎◌,
}
use cf_sync.Client.LocalWrites.Optimistic.{Accepted, Mirrored, SameBuffers, run_local-run_program}
use cf_sync.Client.LocalWrites.{LocalEngine, LocalWriteSet, run_local}
use cf_sync.Client.Outbox.{numbered, pushed-rebase_outbox_ids}
use cf_sync.Client.Receive.Assembly.Converges.{every_table, receive_hello-Mirrors}
use cf_sync.Client.Receive.Assembly.{receive-poke_frames}
use cf_sync.Client.Receive.{apply_patch, is_clear, receive}
use cf_sync.Client.Store.Replay.{store_poke-forward}
use cf_sync.Client.Store.{
  MemorySyncStore, PersistedRowOp, PokePersist, empty_store, put_row, store_ops, store_poke,
}
use cf_sync.Client.{OutboxEntry, SyncClient, pushed, rebase_outbox_ids}
use cf_sync.Engine.WriteSet.{accept_row, check_size, new_write_set, run_program, tx_get, tx_put}
use cf_sync.Engine.{row_id_ok, table_name_ok, validate_row, validate_target, validated}
use cf_sync.Protocol.Chunk.{chunk_by_size, chunk_loop, must_flush, op_bytes}
use cf_sync.Protocol.Messages.{PatchOp, cursor_equals, put}
use cf_sync.Protocol.Mutators.{TxProgram, get_then, put_then}
use cf_sync.Protocol.Utf8.{
  byte_length_loop, utf8_byte_length, code_points, encode_piece, encode_point, is_pair,
  json_byte_size, utf8_encode,
}
use cf_sync.Server.Hello.{kept_base}
use cf_sync.Server.History.{cursor_valid, hello_patch, here, then_step}
use cf_sync.Server.Mutate.{engine}
use cf_sync.Server.Patch.CatchUp.{Mirrors, bootstrap_patch-Mirrors}
use cf_sync.Server.Patch.{patch_since, apply_ops, bootstrap_patch}
use cf_sync.Server.Pokes.{Poke, cursor_of, pack_ops, poke_frames}
use cf_sync.Server.SqlRows.{sql_get}
use cf_sync.Tests.Fixture.{alice, config, empty_disk, first_id, milk, milk_disk, todos, finish}
use cf_sync.Tests.Histories.{
  added, empty_Mirrors, empty_disk-IsWorkspace, start_cursor, milk_Distinct,
}

abbrev entry : OutboxEntry Text
entry = record { key = 0; id = some 4; name = text "add"; args = milk; seed = text "s" }

abbrev client : SyncClient Text
client = record {
  client_id = alice;
  schema_version = 1;
  registered = every_table;
  connected = true;
  cursor = some start_cursor;
  confirmed_lmid = 0;
  outbox = entry ∷ [];
  poke = none;
  synced_this_connection = true;
  awaiting_catch_up = true;
  needs_rebase = false;
  push_scheduled = false;
  rows = [];
  sent = [];
  settled = [];
  presence_live = false;
  presence_state = none;
  presence_peers = [];
}

abbrev milk_parts : List (List (PatchOp Text))
milk_parts = (put todos first_id milk ∷ []) ∷ []

abbrev milk_poke : Poke Text
milk_poke = record {
  base_cursor = kept_base (some start_cursor) milk_disk.meta;
  parts = milk_parts;
  last_mutation_id_changes = (alice, 1) ∷ [];
  mutation_results = [];
}

milk_packs : pack_ops config (hello_patch (some start_cursor) milk_disk) ≡ ok milk_parts
unfolding pack_ops hello_patch cursor_valid patch_since chunk_by_size chunk_loop must_flush op_bytes
    utf8_byte_length byte_length_loop
milk_packs = refl

receive_hello-Mirrors_example :
    Mirrors milk_disk.rows
      (receive (poke_frames (text "p1") (cursor_of milk_disk.meta) milk_poke) client).rows
    × ((receive (poke_frames (text "p1") (cursor_of milk_disk.meta) milk_poke) client).cursor
        ≡ some (cursor_of milk_disk.meta))
receive_hello-Mirrors_example =
    receive_hello-Mirrors config (text "p1") start_cursor empty_disk milk_disk milk_parts milk_poke
      client empty_disk-IsWorkspace refl empty_Mirrors (then_step here added) refl refl milk_packs
      refl refl

based :
    (cursor_equals milk_poke.base_cursor client.cursor || any is_clear (concat milk_poke.parts))
    ≡ true
unfolding cursor_equals cursor_valid
based = refl

receive-poke_frames_example :
    ((receive (poke_frames (text "p1") (cursor_of milk_disk.meta) milk_poke) client).rows
      ≡ apply_patch every_table (put todos first_id milk ∷ []) [])
    × ((receive (poke_frames (text "p1") (cursor_of milk_disk.meta) milk_poke) client).cursor
        ≡ some (cursor_of milk_disk.meta))
receive-poke_frames_example =
    receive-poke_frames (text "p1") (cursor_of milk_disk.meta) milk_poke client based

pushed-rebase_outbox_ids_example :
    pushed 2 (rebase_outbox_ids 2 (entry ∷ entry ∷ [])) ≡ numbered 2 (entry ∷ entry ∷ [])
pushed-rebase_outbox_ids_example = pushed-rebase_outbox_ids 2 (entry ∷ entry ∷ [])

abbrev milk_op : PersistedRowOp Text
milk_op = put_row todos first_id milk

abbrev held_store : MemorySyncStore Text
held_store = record empty_store { cursor = some start_cursor; has_state = true }

abbrev milk_update : PokePersist Text
milk_update = record {
  ops = milk_op ∷ [];
  truncate = false;
  cursor = record { backend_id = text "b1"; version = 1 };
  schema_version = 1;
  confirmed_lmid = 1;
  outbox = [];
}

store_poke-forward_example :
    ((store_poke milk_update held_store).cursor ≡ some start_cursor)
      × ((store_poke milk_update held_store).rows ≡ held_store.rows)
      × (milk_update.cursor.version ≤ start_cursor.version)
    ⊎ ((store_poke milk_update held_store).cursor ≡ some milk_update.cursor)
      × ((store_poke milk_update held_store).rows ≡ store_ops milk_update.ops held_store.rows)
      × (start_cursor.version < milk_update.cursor.version)
store_poke-forward_example = store_poke-forward milk_update held_store start_cursor refl refl refl

-- A client that has bootstrapped, and a mutator that reads the milk and writes it again.
abbrev local : LocalEngine Text
local = record {
  schema = config.app.schema;
  registered = λ tbl. true;
  ops = config.ops;
  rows = apply_ops (bootstrap_patch milk_disk.rows) [];
}

local-Mirrored : Mirrored (engine config) milk_disk.rows local
unfolding sql_get
local-Mirrored = record {
  schema = refl;
  tables = λ tbl. refl;
  rows = λ tbl id. bootstrap_patch-Mirrors milk_disk.rows [] milk_Distinct (tbl, id);
}

abbrev rewrite_milk : TxProgram Text
rewrite_milk = get_then todos first_id (λ found. put_then todos first_id milk finish)

rewrite_milk-Accepted : Accepted (engine config) milk_disk.rows rewrite_milk new_write_set
unfolding accept_row validate_target table_name_ok row_id_ok validate_row validated check_size
    json_byte_size utf8_encode code_points is_pair encode_piece encode_point tx_get tx_put JsMap.get
rewrite_milk-Accepted = (refl, ((milk, refl), tt))

abbrev local_new : LocalWriteSet Text
local_new = record { puts = []; dels = [] }

run_local-run_program_example :
    let mine = run_local local rewrite_milk local_new in
    let theirs = run_program (engine config) milk_disk.rows rewrite_milk new_write_set in
    (mine.0 ≡ theirs.0) × SameBuffers theirs.1 mine.1
run_local-run_program_example =
    run_local-run_program (engine config) milk_disk.rows local local-Mirrored refl rewrite_milk
      new_write_set local_new (refl, refl) rewrite_milk-Accepted
