-- ===== src/Protocol/App.antt =====
-- packages/protocol/src/app.ts: `defineApp` and `migrationPath`.
pub mod Chain
use cf_sync.Base.JsMap
use cf_sync.Base.JsMap.{JsMap}
use cf_sync.Base.Text.{Text}
use cf_sync.Base.{
  Bool, List, Option, Result, [], err, if◌then◌else◌, keep, leb, length, ltb, nat_beq, not, ok, ℕ,
  ◌&&◌, ◌+◌, ◌-◌, ◌∷◌, list_eq, nat_eq, pair_eq, ◌==◌, ◌>>=◌, ◌>>◌,
}
use cf_sync.Protocol.Chunk.{nonempty}
use cf_sync.Protocol.Mutators.{MutatorDef, SyncSchema, TxProgram, Validator}

-- A step of the chain; no function is the `null` of an additive change.
pub record SchemaMigration (Json : Type 0) : Type 0 where
  pub to : ℕ
  pub migrate : Option (TxProgram Json)

pub record AppDefinition (Json : Type 0) : Type 0 where
  pub version : ℕ
  pub schema : SyncSchema Json
  pub mutators : JsMap Text (MutatorDef Json)
  pub migrations : List (SchemaMigration Json)
  pub auth_context : Option (Validator Json)
  pub presence : Option (Validator Json)

-- The argument of `defineApp`; `migrations` has the entries of the object literal.
pub record AppInput (Json : Type 0) : Type 0 where
  pub version : ℕ
  pub schema : SyncSchema Json
  pub mutators : JsMap Text (MutatorDef Json)
  pub migrations : List (SchemaMigration Json)
  pub auth_context : Option (Validator Json)
  pub presence : Option (Validator Json)
  pub crud : Bool

pub data AppFault : Type 0 where
  bad_version nothing_can_write bad_target beyond_version gap wrong_end : AppFault

module _ {Json : Type 0} where
  -- The check of one key, in the loop over the entries.
  unfoldable pub check_targets : ℕ → List (SchemaMigration Json) → Result AppFault (Unit {0})
  check_targets version [] = ok tt
  check_targets version (m ∷ ms) =
      if ltb m.to 2
      then err bad_target
      else if ltb version m.to
      then err beyond_version
      else check_targets version ms

  unfoldable pub insert_by_to :
      SchemaMigration Json → List (SchemaMigration Json) → List (SchemaMigration Json)
  insert_by_to m [] = m ∷ []
  insert_by_to m (n ∷ ns) = if leb m.to n.to then m ∷ n ∷ ns else n ∷ insert_by_to m ns

  unfoldable pub sort_by_to : List (SchemaMigration Json) → List (SchemaMigration Json)
  unfolding insert_by_to
  sort_by_to [] = []
  sort_by_to (m ∷ ms) = insert_by_to m (sort_by_to ms)

  unfoldable pub check_consecutive : List (SchemaMigration Json) → Result AppFault (Unit {0})
  check_consecutive [] = ok tt
  check_consecutive (m ∷ []) = ok tt
  check_consecutive (m ∷ n ∷ ms) =
      if nat_beq n.to (m.to + 1) then check_consecutive (n ∷ ms) else err gap

  unfoldable pub check_end : ℕ → List (SchemaMigration Json) → Result AppFault (Unit {0})
  check_end version [] = ok tt
  check_end version (m ∷ []) = if nat_beq m.to version then ok tt else err wrong_end
  check_end version (m ∷ n ∷ ms) = check_end version (n ∷ ms)

  -- `{ ...base, ...extra }`
  unfoldable pub spread :
      JsMap Text (MutatorDef Json) → JsMap Text (MutatorDef Json) → JsMap Text (MutatorDef Json)
  spread base [] = base
  spread base ((name, def) ∷ rest) = spread (JsMap.set name def base) rest

  -- `crud_mutators` are the built-in `sync.put` and `sync.del`.
  unfoldable pub define_app :
      JsMap Text (MutatorDef Json) → AppInput Json → Result AppFault (AppDefinition Json)
  define_app crud_mutators def =
      if ltb def.version 1
      then err bad_version
      else if not def.crud && not (nonempty def.mutators)
      then err nothing_can_write
      else do
        check_targets def.version def.migrations
        let migrations = sort_by_to def.migrations
        check_consecutive migrations
        check_end def.version migrations
        ok (record {
          version = def.version;
          schema = def.schema;
          mutators = if def.crud then spread crud_mutators def.mutators else def.mutators;
          migrations = migrations;
          auth_context = def.auth_context;
          presence = def.presence;
        })

pub data PathFault : Type 0 where
  ahead_of_deployed no_path : PathFault

unfoldable pub migration_path :
    {Json : Type 0} → AppDefinition Json → ℕ → Result PathFault (List (SchemaMigration Json))
migration_path app stored =
    if nat_beq stored app.version
    then ok []
    else if ltb app.version stored
    then err ahead_of_deployed
    else let steps = keep (λ step. ltb stored step.to) app.migrations in
      if nat_beq (length steps) (app.version - stored) then ok steps else err no_path
