-- ===== src/Tests/Fixture.antt =====
-- A workspace of to-dos: JSON values are their texts.
use cf_sync.Base.JsMap
use cf_sync.Base.JsMap.{JsMap}
use cf_sync.Base.Text.{Text, text}
use cf_sync.Base.{
  Result, [], err, false, none, ok, refl, some, true, ◌∷◌, ◌≡◌, list_eq, nat_eq, pair_eq,
}
use cf_sync.Engine.WriteSet.{
  accept_row, buffer_put, check_size, flush, flush_dels, flush_puts, flushed_row, list_changes,
  remember, run_program, tx_put,
}
use cf_sync.Engine.{row_id_ok, row_key, table_name_ok, validate_row, validate_target, validated}
use cf_sync.Protocol.App.{AppDefinition}
use cf_sync.Protocol.Messages.{Mutation}
use cf_sync.Protocol.Mutators.{
  JsonOps, MutatorDef, SyncSchema, Thrown, TxProgram, del_then, put_then, return, throw, value,
}
use cf_sync.Protocol.Utf8.{
  code_points, encode_piece, encode_point, is_pair, json_byte_size, utf8_encode,
}
use cf_sync.Server.Mutate.{
  Effects, apply_mutation, commit_effects, mutation_effects, run_mutator, update_client,
}
use cf_sync.Server.Sockets.{Counters, Socket, Workspace}
use cf_sync.Server.SqlRows.{live, sql_get, sql_put}
use cf_sync.Server.State.{Attachment, Config, Disk, Meta, Row}

abbrev pub todos : Text
todos = text "todos"

abbrev pub first_id : Text
first_id = text "1"

abbrev pub milk : Text
milk = text "milk"

abbrev pub ops : JsonOps Text
ops = record {
  stringify = λ j. j;
  field_is = λ row field v. false;
  is_scalar = λ j. true;
  is_undefined = λ j. false;
}

abbrev pub schema : SyncSchema Text
schema = record { tables = (todos, λ row. value row) ∷ [] }

abbrev pub finish : Result Thrown (Unit {0}) → TxProgram Text
finish (ok u) = return
finish (err e) = throw e

abbrev pub add : MutatorDef Text
add = record { args = none; apply = λ args ctx. put_then todos first_id args finish }

abbrev pub remove : MutatorDef Text
remove = record { args = none; apply = λ args ctx. del_then todos first_id finish }

abbrev pub app : AppDefinition Text
app = record {
  version = 1;
  schema = schema;
  mutators = (text "add", add) ∷ (text "remove", remove) ∷ [];
  migrations = [];
  auth_context = none;
  presence = some (λ state. value state);
}

abbrev pub config : Config Text
config = record {
  app = app;
  ops = ops;
  prefilter = λ filter row. true;
  json_quote = λ t. t;
  id_source = λ seed n. seed;
  track_changes = true;
  tombstone_retention = 10_000;
}

abbrev pub alice : Text
alice = text "alice"

abbrev pub attachment : Attachment Text
attachment = record {
  client_id = alice;
  ready = true;
  principal = none;
  auth = none;
  expires_at = none;
  defunct = false;
}

abbrev pub add_milk : Mutation Text
add_milk = record { id = 1; name = text "add"; args = milk; seed = text "s" }

abbrev pub meta : Meta
meta = record {
  backend_id = text "b1";
  current_version = 0;
  min_cursor_version = 0;
  workspace_id = text "w";
  last_exported_seq = 0;
  schema_version = 1;
  schema_hash = text "h";
  presence_hash = text "p";
}

-- A new workspace that knows one client.
abbrev pub empty_disk : Disk Text
empty_disk = record {
  rows = [];
  clients = (alice, record { last_mutation_id = 0; last_seen_at = 0 }) ∷ [];
  log = [];
  meta = meta;
}

abbrev pub socket : Socket Text
socket = record { attachment = attachment; sent = []; closed = none; broken = false }

abbrev pub counters : Counters
counters = record {
  pushes = 0;
  mutations_applied = 0;
  mutations_skipped = 0;
  mutation_errors = 0;
  pokes_sent = 0;
  frames_sent = 0;
  last_fanout = 0;
}

abbrev pub workspace : Workspace Text
workspace = record {
  disk = empty_disk;
  sockets =
      (7, socket) ∷ (8, record socket { attachment = record attachment { defunct = true } }) ∷ [];
  presence = (alice, record { ws = 7; principal = none; state = milk }) ∷ [];
  snapshot = none;
  counters = counters;
}

-- What the mutation of `add_milk` commits.
abbrev pub stored_milk : Row Text
stored_milk = record { content = milk; version = 1; deleted = false }

abbrev pub milk_disk : Disk Text
milk_disk = record {
  rows = ((todos, first_id), stored_milk) ∷ [];
  clients = (alice, record { last_mutation_id = 1; last_seen_at = 5 }) ∷ [];
  log =
      record {
        version = some 1;
        client_id = alice;
        mutation_id = 1;
        name = text "add";
        args = some milk;
        result = none;
        created_at = 5;
      }
      ∷ [];
  meta = record meta { current_version = 1 };
}

abbrev pub milk_effects : Effects config
milk_effects = record {
  rows = ((todos, first_id), stored_milk) ∷ [];
  wrote_version = some 1;
  changes = record { tbl = todos; id = first_id; before = none; after = some milk } ∷ [];
  rejection = none;
}

pub add_milk-commits :
    apply_mutation config 5 attachment add_milk empty_disk ≡ ok (milk_disk, milk_effects)
unfolding apply_mutation mutation_effects run_mutator commit_effects update_client JsMap.get
    JsMap.set JsMap.delete run_program tx_put accept_row validate_target table_name_ok row_id_ok
    validate_row validated check_size json_byte_size utf8_encode code_points is_pair encode_piece
    encode_point buffer_put remember row_key flush flush_puts flush_dels flushed_row list_changes
    sql_put sql_get live
add_milk-commits = refl
