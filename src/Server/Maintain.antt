-- ===== src/Server/Maintain.antt =====
-- What changes a workspace besides its clients (packages/server/src/do.ts, storage.ts): compaction,
-- the schema migration on a wake, the import of a snapshot, the reset.
use cf_sync.Base.JsMap
use Prim.Native.Nat.{max}
use cf_sync.Base.JsMap.{JsMap}
use cf_sync.Base.Text.{Text, text}
use cf_sync.Base.{
  Bool, List, Option, Result, [], err, if◌then◌else◌, keep, leb, none, not, ok, or_else, some, ℕ,
  ◌&&◌, ◌-◌, ◌∷◌, false, length, list_eq, ltb, nat_beq, nat_eq, pair_eq, true, ◌++◌, ◌+◌, ◌>>=◌,
  ◌>>◌, ◌||◌,
}
use cf_sync.Engine.MemoryStore.{Memory, memory_live, memory_rows}
use cf_sync.Engine.WriteSet.{Engine, FlushResult, WriteSet, run_program, flush, new_write_set}
use cf_sync.Engine.{RowStore, max_id_length, table_name_ok, validate_row}
use cf_sync.Protocol.App.{SchemaMigration, PathFault, migration_path}
use cf_sync.Protocol.Messages.{max_row_bytes}
use cf_sync.Protocol.Mutators.{Thrown}
use cf_sync.Protocol.Utf8.{json_byte_size}
use cf_sync.Server.Mutate.{parsed}
use cf_sync.Server.SqlRows.{sql_rows}
use cf_sync.Server.State.{Disk, Row, Rows, Config, LogEntry, Meta}

module _ {Json : Type 0} where
  -- `SELECT MAX(version) … WHERE deleted = 1 AND version <= ?`
  abbrev pub discarded : ℕ → (Text × Text) × Row Json → Bool
  discarded cutoff (k, row) = row.deleted && leb row.version cutoff

  abbrev pub kept_row : ℕ → (Text × Text) × Row Json → Bool
  kept_row cutoff e = not (discarded cutoff e)

  unfoldable pub max_discarded : ℕ → Rows Json → Option ℕ
  max_discarded cutoff [] = none
  max_discarded cutoff ((k, row) ∷ rows) =
      let rest = max_discarded cutoff rows in
      if discarded cutoff (k, row) then some (max row.version (or_else rest 0)) else rest

  unfoldable pub compact : ℕ → Disk Json → Disk Json
  compact retention disk =
      let cutoff = disk.meta.current_version - retention in
      if leb cutoff 0 then disk else elim (max_discarded cutoff disk.rows) [
        | none ↦ disk
        | some max_deleted ↦ record disk {
          rows = keep (kept_row cutoff) disk.rows;
          meta = record disk.meta {
            min_cursor_version = max disk.meta.min_cursor_version max_deleted;
          };
        }
      ]

module _ {Json Store : Type 0} (engine : Engine Json Store) where
  -- `for (const step of steps) step.migrate?.(writes.tx)`
  unfoldable pub run_steps :
      Store → List (SchemaMigration Json) → WriteSet Json → Result Thrown (WriteSet Json)
  run_steps store [] w = ok w
  run_steps store (step ∷ steps) w = elim step.migrate [
    | none ↦ run_steps store steps w
    | some program ↦
        let (r, w') = run_program engine store program w in
        elim r [ err e ↦ err e | ok _ ↦ run_steps store steps w' ]
  ]

  -- One write buffer across the chain, flushed once.
  unfoldable pub migrate_rows :
      (candidate : ℕ)
      → Store
      → List (SchemaMigration Json)
      → Result Thrown (FlushResult engine candidate)
  unfolding run_steps
  migrate_rows candidate store steps = do
    writes ← run_steps store steps new_write_set
    flush engine candidate store writes

-- What stops a migration or an import.
pub data Fault : Type 0 where
  no_migration : PathFault → Fault
  mutator_threw : Thrown → Fault
  newer_schema invalid_row_target row_exceeds no_extension duplicate_row : Fault

abbrev pub or_fault : {E A : Type 0} → (E → Fault) → Result E A → Result Fault A
or_fault f (ok a) = ok a
or_fault f (err e) = err (f e)

pub record Snapshot (Json : Type 0) : Type 0 where
  pub schema_version : ℕ
  pub rows : List (Text × Text × Json)
  pub has_extension : Bool

module _ {Json : Type 0} where
  -- The INSERTs: a second row of one key violates the primary key.
  unfoldable pub insert_rows : ℕ → List (Text × Text × Json) → Rows Json → Result Fault (Rows Json)
  insert_rows version [] rows = ok rows
  insert_rows version ((tbl, id, stored) ∷ rest) rows =
      if JsMap.has (tbl, id) rows
      then err duplicate_row
      else insert_rows version rest (
          JsMap.set (tbl, id) (record { content = stored; version = version; deleted = false })
            rows)

module _ {Json : Type 0} (config : Config Json) where
  -- Rows are validated when the chain has run, not at each put.
  abbrev pub migration_engine : {Store : Type 0} → RowStore Json Store → Engine Json Store
  migration_engine rows = record {
    rows = rows;
    ops = config.ops;
    schema = config.app.schema;
    validate_at_flush = true;
    track_changes = false;
  }

  abbrev pub migrated_meta :
      (fingerprint presence_hash : Text) → (candidate written : ℕ) → Meta → Meta
  migrated_meta fingerprint presence_hash candidate written meta = record meta {
    current_version = if ltb 0 written then candidate else meta.current_version;
    min_cursor_version = if ltb 0 written then candidate else meta.min_cursor_version;
    schema_version = config.app.version;
    schema_hash = fingerprint;
    presence_hash = presence_hash;
  }

  abbrev pub system_client : Text
  system_client = text "$system"

  abbrev pub migration_entry : (now candidate written : ℕ) → LogEntry Json
  migration_entry now candidate written = record {
    version = if ltb 0 written then some candidate else none;
    client_id = system_client;
    mutation_id = 0;
    name = text "$schema.migrate";
    args = none;
    result = none;
    created_at = now;
  }

  -- `#migrateAppSchema`: the chain, in one transaction.
  unfoldable pub migrate_app_schema :
      ℕ → (fingerprint presence_hash : Text) → Disk Json → Result Fault (Disk Json)
  migrate_app_schema now fingerprint presence_hash disk =
      let candidate = disk.meta.current_version + 1 in
      do
        steps ← or_fault no_migration (migration_path config.app disk.meta.schema_version)
        f ←
            or_fault mutator_threw (
              migrate_rows (migration_engine (sql_rows config.prefilter)) candidate disk.rows steps)
        ok (record disk {
          rows = f.store;
          meta = migrated_meta fingerprint presence_hash candidate f.written disk.meta;
          log = disk.log ++ migration_entry now candidate f.written ∷ [];
        })

  -- `#initialize`, once the tables exist.
  unfoldable pub initialize :
      ℕ → (fingerprint presence_hash : Text) → Disk Json → Result Fault (Disk Json)
  initialize now fingerprint presence_hash disk =
      if not (nat_beq disk.meta.schema_version config.app.version)
      then migrate_app_schema now fingerprint presence_hash disk
      else ok (record disk {
        meta = record disk.meta { schema_hash = fingerprint; presence_hash = presence_hash };
      })

  abbrev pub stage : List (Text × Text × Json) → Memory Json → Memory Json
  stage [] s = s
  stage ((tbl, id, row) ∷ rest) s = stage rest (memory_rows.put s tbl id row 0)

  -- An older snapshot runs the chain in memory.
  unfoldable pub snapshot_rows : Snapshot Json → Result Fault (List (Text × Text × Json))
  snapshot_rows snapshot =
      if ltb config.app.version snapshot.schema_version
      then err newer_schema
      else if ltb snapshot.schema_version config.app.version
      then (do
        steps ← or_fault no_migration (migration_path config.app snapshot.schema_version)
        f ←
            or_fault mutator_threw
              (migrate_rows (migration_engine memory_rows) 1 (stage snapshot.rows []) steps)
        ok (memory_live f.store))
      else ok snapshot.rows

  abbrev pub import_row : Text × Text × Json → Result Fault (Text × Text × Json)
  import_row (tbl, id, row) =
      if not (table_name_ok tbl) || ltb max_id_length (length id)
      then err invalid_row_target
      else (do
        stored ← or_fault mutator_threw (validate_row config.app.schema tbl row)
        if ltb max_row_bytes (json_byte_size config.ops.stringify stored)
            then err row_exceeds
            else ok (tbl, id, stored))

  unfoldable pub import_rows : List (Text × Text × Json) → Result Fault (List (Text × Text × Json))
  import_rows [] = ok []
  import_rows (row ∷ rest) = do r ← import_row row; rs ← import_rows rest; ok (r ∷ rs)

  -- `POST import` of a workspace without an extension.
  unfoldable pub import_snapshot : Snapshot Json → Disk Json → Result Fault (Disk Json)
  import_snapshot snapshot disk =
      let version = disk.meta.current_version + 1 in
      do
        migrated ← snapshot_rows snapshot
        parsed ← import_rows migrated
        if snapshot.has_extension then err no_extension else ok tt
        rows ← insert_rows version parsed []
        ok (record disk {
          rows = rows;
          meta = record disk.meta { current_version = version; min_cursor_version = version };
        })

  -- `POST reset`, and a workspace that has no meta row: a new history under a new backend id.
  unfoldable pub fresh_disk : (backend_id workspace_id fingerprint presence_hash : Text) → Disk Json
  fresh_disk backend_id workspace_id fingerprint presence_hash = record {
    rows = [];
    clients = [];
    log = [];
    meta = record {
      backend_id = backend_id;
      current_version = 0;
      min_cursor_version = 0;
      workspace_id = workspace_id;
      last_exported_seq = 0;
      schema_version = config.app.version;
      schema_hash = fingerprint;
      presence_hash = presence_hash;
    };
  }
