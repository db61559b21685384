-- ===== src/Protocol/Mutators.antt =====
-- packages/protocol/src/mutators.ts and schema.ts: what a mutator is, and the `where` predicate.
pub mod Names
use cf_sync.Base.JsMap.{JsMap}
use cf_sync.Base.Text.{Text, text}
use cf_sync.Base.{
  Bool, List, Option, Result, [], err, if◌then◌else◌, none, ok, some, true, ℕ, ◌&&◌, ◌∷◌,
}

-- What a standard schema's `validate` answers.
pub data Validation (Json : Type 0) : Type 0 where
  promise : Validation Json
  issues : Validation Json
  value : Json → Validation Json

abbrev pub Validator : Type 0 → Type 0
Validator Json = Json → Validation Json

-- `defineSchema`: the tables, by name.
pub record SyncSchema (Json : Type 0) : Type 0 where
  pub tables : JsMap Text (Validator Json)

-- What JavaScript does with JSON values: `JSON.stringify`, `data[field] === value`, the `typeof`
-- test for a scalar, and the test for `undefined`.
pub record JsonOps (Json : Type 0) : Type 0 where
  pub stringify : Json → Text
  pub field_is : Json → Text → Json → Bool
  pub is_scalar : Json → Bool
  pub is_undefined : Json → Bool

abbrev pub invalid_args : Text
invalid_args = text "InvalidArgs"

abbrev pub unknown_mutator : Text
unknown_mutator = text "UnknownMutator"

abbrev pub row_too_large : Text
row_too_large = text "RowTooLarge"

-- `AppError` is permanent, any other throw is transient.
pub data Thrown : Type 0 where
  app_error : Text → Thrown
  other_error : Thrown

pub record MutatorContext (Json : Type 0) : Type 0 where
  pub client_id : Text
  pub principal : Option Text
  pub auth : Option Json
  pub authoritative : Bool
  pub seed : Text
  -- the n-th call of `nextId`
  pub next_id : ℕ → Text

abbrev pub Where : Type 0 → Type 0
Where Json = Option (List (Text × Json))

-- A run of `apply`, as the operations of `MutatorTx` that it makes. It may catch what an
-- operation throws, so each continuation takes a result.
pub data TxProgram (Json : Type 0) : Type 0 where
  return : TxProgram Json
  throw : Thrown → TxProgram Json
  get_then : Text → Text → (Result Thrown (Option Json) → TxProgram Json) → TxProgram Json
  list_then :
      Text → Where Json → (Result Thrown (List (Text × Json)) → TxProgram Json) → TxProgram Json
  put_then : Text → Text → Json → (Result Thrown (Unit {0}) → TxProgram Json) → TxProgram Json
  del_then : Text → Text → (Result Thrown (Unit {0}) → TxProgram Json) → TxProgram Json

pub record MutatorDef (Json : Type 0) : Type 0 where
  pub args : Option (Validator Json)
  pub apply : Json → MutatorContext Json → TxProgram Json

module _ {Json : Type 0} (ops : JsonOps Json) where
  abbrev pub defined_entries : List (Text × Json) → List (Text × Json)
  defined_entries [] = []
  defined_entries ((field, v) ∷ rest) =
      if ops.is_undefined v then defined_entries rest else (field, v) ∷ defined_entries rest

  abbrev pub all_scalar : List (Text × Json) → Bool
  all_scalar [] = true
  all_scalar ((field, v) ∷ rest) = ops.is_scalar v && all_scalar rest

  abbrev pub every_entry : List (Text × Json) → Json → Bool
  every_entry [] row = true
  every_entry ((field, v) ∷ rest) row = ops.field_is row field v && every_entry rest row

  unfoldable pub compile_where : Where Json → Result Thrown (Json → Bool)
  compile_where none = ok (λ row. true)
  compile_where (some filter) =
      let entries = defined_entries filter in
      if all_scalar entries then ok (every_entry entries) else err (app_error invalid_args)
