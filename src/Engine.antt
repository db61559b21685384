-- ===== src/Engine.antt =====
-- packages/server/src/engine-core.ts: row validation, the interface of a row store, and the write
-- set of one mutation.
pub mod Keys
pub mod MemoryStore
pub mod WriteSet
use cf_sync.Base.JsMap
use cf_sync.Base.JsMap.{JsMap}
use cf_sync.Base.Text.{Text}
use cf_sync.Base.{
  Bool, List, Option, Result, [], all, any, err, false, if◌then◌else◌, is_some, leb, length,
  list_beq, list_eq, nat_beq, nat_eq, none, not, ok, pair_eq, some, ℕ, ◌&&◌, ◌++◌, ◌==◌, ◌||◌, ◌∷◌,
  ◌≡◌, true,
}
use cf_sync.Protocol.Mutators.{
  SyncSchema, Thrown, Validation, Where, app_error, invalid_args, issues, promise, value,
}

abbrev pub max_id_length : ℕ
max_id_length = 256

abbrev pub is_name_start : ℕ → Bool
is_name_start c = (leb b'A' c && leb c b'Z') || (leb b'a' c && leb c b'z') || nat_beq c b'_'

abbrev pub is_name_char : ℕ → Bool
is_name_char c = is_name_start c || (leb b'0' c && leb c b'9')

-- `TABLE_NAME_RE` of packages/protocol/src/schema.ts.
unfoldable pub table_name_ok : Text → Bool
table_name_ok [] = false
table_name_ok (c ∷ rest) = is_name_start c && leb (length rest) 63 && all is_name_char rest

abbrev pub is_nul : ℕ → Bool
is_nul c = nat_beq c 0

unfoldable pub row_id_ok : Text → Bool
row_id_ok id = not (nat_beq (length id) 0) && leb (length id) max_id_length && not (any is_nul id)

unfoldable pub validate_target : Text → Text → Result Thrown (Unit {0})
validate_target tbl id =
    if not (table_name_ok tbl)
    then err (app_error invalid_args)
    else if not (row_id_ok id)
    then err (app_error invalid_args)
    else ok tt

-- `${tbl}\u0000${id}`
unfoldable pub row_key : Text → Text → Text
row_key tbl id = tbl ++ 0 ∷ id

module _ {Json : Type 0} where
  unfoldable pub validated : Validation Json → Result Thrown Json
  validated promise = err (app_error invalid_args)
  validated issues = err (app_error invalid_args)
  validated (value row) = ok row

  unfoldable pub validate_row : SyncSchema Json → Text → Json → Result Thrown Json
  unfolding validated
  validate_row schema tbl row = elim (JsMap.get tbl schema.tables) [
    | none ↦ err (app_error invalid_args)
    | some table_schema ↦ validated (table_schema row)
  ]

-- `EngineRowStore`, over the type `Store` of what it holds.
pub record RowStore (Json Store : Type 0) : Type 0 where
  pub get : Store → Text → Text → Option Json
  pub list : Store → Text → Where Json → List (Text × Json)
  pub put : Store → Text → Text → Json → ℕ → Store
  pub del : Store → Text → Text → ℕ → Store × ℕ

abbrev pub same_target : Text → Text → Text → Text → Bool
same_target tbl id t i = list_beq tbl t && list_beq id i

-- What every row store promises of `get`, `put` and `del`.
pub record IsRowStore {Json Store : Type 0} (rows : RowStore Json Store) : Type 0 where
  pub get-put :
      (s : Store) (tbl id t i : Text) (row : Json) (version : ℕ)
      → table_name_ok tbl ≡ true
      → table_name_ok t ≡ true
      → rows.get (rows.put s tbl id row version) t i
        ≡ (if same_target tbl id t i then some row else rows.get s t i)
  pub get-del :
      (s : Store) (tbl id t i : Text) (version : ℕ)
      → table_name_ok tbl ≡ true
      → table_name_ok t ≡ true
      → rows.get (rows.del s tbl id version).0 t i
        ≡ (if same_target tbl id t i then none else rows.get s t i)
  pub del_count :
      (s : Store) (tbl id : Text) (version : ℕ)
      → (rows.del s tbl id version).1 ≡ (if is_some (rows.get s tbl id) then 1 else 0)
  pub del_noop :
      (s : Store) (tbl id : Text) (version : ℕ)
      → (rows.del s tbl id version).1 ≡ 0
      → (rows.del s tbl id version).0 ≡ s
