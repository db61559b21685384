-- ===== src/Server/Mutate.antt =====
-- `#applyMutation` of packages/server/src/do.ts: one mutation in one SQLite transaction.
pub mod Stamps
pub mod Distinct
pub mod Contract
use cf_sync.Base.JsMap
use cf_sync.Base.JsMap.{JsMap}
use cf_sync.Base.Text.{Text}
use cf_sync.Base.{
  List, Option, Result, [], err, false, if◌then◌else◌, list_eq, ltb, map_ok, nat_eq, none, ok,
  or_else, pair_eq, some, true, ℕ, ◌++◌, ◌+◌, ◌==◌, ◌>>=◌, ◌>>◌, ◌∷◌,
}
use cf_sync.Engine.WriteSet.{Engine, FlushResult, RowChange, flush, new_write_set, run_program}
use cf_sync.Protocol.Messages.{Mutation}
use cf_sync.Protocol.Mutators.{
  MutatorContext, MutatorDef, Thrown, TxProgram, Validation, invalid_args, issues, other_error,
  promise, unknown_mutator, app_error, value,
}
use cf_sync.Server.SqlRows.{sql_rows}
use cf_sync.Server.State.{Attachment, Client, Config, Disk, Rows}

module _ {Json : Type 0} (config : Config Json) where
  abbrev pub engine : Engine Json (Rows Json)
  engine = record {
    rows = sql_rows config.prefilter;
    ops = config.ops;
    schema = config.app.schema;
    validate_at_flush = false;
    track_changes = config.track_changes;
  }

  abbrev pub context : Attachment Json → Mutation Json → MutatorContext Json
  context attachment mutation = record {
    client_id = attachment.client_id;
    principal = attachment.principal;
    auth = attachment.auth;
    authoritative = true;
    seed = mutation.seed;
    next_id = config.id_source mutation.seed;
  }

  abbrev pub parsed : Validation Json → Result Thrown Json
  parsed promise = err (app_error invalid_args)
  parsed issues = err (app_error invalid_args)
  parsed (value args) = ok args

  abbrev pub parse_args : MutatorDef Json → Json → Result Thrown Json
  parse_args mutator args = elim mutator.args [
    | none ↦ ok args
    | some validate ↦ parsed (validate args)
  ]

  -- What the `try` block leaves: the rows, the version it wrote, and the changes.
  pub record Effects : Type 0 where
    pub rows : Rows Json
    pub wrote_version : Option ℕ
    pub changes : List (RowChange Json)
    pub rejection : Option Text

  abbrev pub rejected : Rows Json → Text → Effects
  rejected rows code = record {
    rows = rows;
    wrote_version = none;
    changes = [];
    rejection = some code;
  }

  abbrev pub flushed_effects : (candidate : ℕ) → FlushResult engine candidate → Effects
  flushed_effects candidate f = record {
    rows = f.store;
    wrote_version = if ltb 0 f.written then some candidate else none;
    changes = f.changes;
    rejection = none;
  }

  -- `apply`, then `flush`.
  unfoldable pub run_mutator : TxProgram Json → ℕ → Rows Json → Result Thrown Effects
  run_mutator program candidate rows =
      let (r, writes) = run_program engine rows program new_write_set in
      elim r [
        | err e ↦ err e
        | ok _ ↦ map_ok (flushed_effects candidate) (flush engine candidate rows writes)
      ]

  -- The `catch`: an `AppError` is kept, anything else is thrown on.
  abbrev pub catch_app_error : Rows Json → Result Thrown Effects → Result (Unit {0}) Effects
  catch_app_error rows (ok e) = ok e
  catch_app_error rows (err (app_error code)) = ok (rejected rows code)
  catch_app_error rows (err other_error) = err tt

  unfoldable pub mutation_effects :
      Attachment Json → Mutation Json → ℕ → Rows Json → Result (Unit {0}) Effects
  unfolding run_mutator
  mutation_effects attachment mutation candidate rows =
      elim (JsMap.get mutation.name config.app.mutators) [
        | none ↦ ok (rejected rows unknown_mutator)
        | some mutator ↦ catch_app_error rows (do
          args ← parse_args mutator mutation.args
          run_mutator (mutator.apply args (context attachment mutation)) candidate rows)
      ]

-- `UPDATE clients SET … WHERE client_id = ?`: nothing happens to a client that has no row.
unfoldable pub update_client : Text → Client → JsMap Text Client → JsMap Text Client
update_client client_id client clients =
    if JsMap.has client_id clients then JsMap.set client_id client clients else clients

module _ {Json : Type 0} (config : Config Json) where
  unfoldable pub commit_effects :
      ℕ → Attachment Json → Mutation Json → Disk Json → Effects config → Disk Json
  unfolding update_client
  commit_effects now attachment mutation disk e = record {
    rows = e.rows;
    clients =
        update_client attachment.client_id
          (record { last_mutation_id = mutation.id; last_seen_at = now }) disk.clients;
    log =
        disk.log
        ++ record {
          version = e.wrote_version;
          client_id = attachment.client_id;
          mutation_id = mutation.id;
          name = mutation.name;
          args = some mutation.args;
          result = e.rejection;
          created_at = now;
        }
          ∷ [];
    meta = record disk.meta { current_version = or_else e.wrote_version disk.meta.current_version };
  }

  -- The transaction: the next disk with the effects, or a transient throw that rolls back.
  unfoldable pub apply_mutation :
      ℕ
      → Attachment Json
      → Mutation Json
      → Disk Json
      → Result (Unit {0}) (Disk Json × Effects config)
  apply_mutation now attachment mutation disk = do
    e ← mutation_effects config attachment mutation (disk.meta.current_version + 1) disk.rows
    ok (commit_effects now attachment mutation disk e, e)

unfoldable pub last_mutation_id : {Json : Type 0} → Disk Json → Text → ℕ
last_mutation_id disk client_id = elim (JsMap.get client_id disk.clients) [
  | none ↦ 0
  | some c ↦ c.last_mutation_id
]

-- `#touchClient`: makes the client's row, or stamps the one that is there.
unfoldable pub touch_client : {Json : Type 0} → ℕ → Text → Disk Json → Disk Json
touch_client now client_id disk = elim (JsMap.get client_id disk.clients) [
  | none ↦ record disk {
    clients =
        JsMap.set client_id (record { last_mutation_id = 0; last_seen_at = now }) disk.clients;
  }
  | some c ↦ record disk {
    clients = JsMap.set client_id (record c { last_seen_at = now }) disk.clients;
  }
]
