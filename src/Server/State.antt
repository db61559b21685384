-- ===== src/Server/State.antt =====
-- What a workspace holds: the tables of packages/server/src/storage.ts, the in-memory fields of
-- packages/server/src/do.ts, and the configuration of packages/server/src/config.ts.
use cf_sync.Base.JsMap.{JsMap}
use cf_sync.Base.Text.{Text}
use cf_sync.Base.{Bool, List, Option, list_eq, nat_eq, pair_eq, ℕ}
use cf_sync.Protocol.App.{AppDefinition}
use cf_sync.Protocol.Mutators.{JsonOps, Where}

-- A row of the table `rows`.
pub record Row (Json : Type 0) : Type 0 where
  pub content : Json
  pub version : ℕ
  pub deleted : Bool

-- `rows`, by its primary key (tbl, id).
abbrev pub Rows : Type 0 → Type 0
Rows Json = JsMap (Text × Text) (Row Json)

pub record Client : Type 0 where
  pub last_mutation_id : ℕ
  pub last_seen_at : ℕ

-- No `result` is 'ok', else the code of the rejection.
pub record LogEntry (Json : Type 0) : Type 0 where
  pub version : Option ℕ
  pub client_id : Text
  pub mutation_id : ℕ
  pub name : Text
  pub args : Option Json
  pub result : Option Text
  pub created_at : ℕ

pub record Meta : Type 0 where
  pub backend_id : Text
  pub current_version : ℕ
  pub min_cursor_version : ℕ
  pub workspace_id : Text
  pub last_exported_seq : ℕ
  pub schema_version : ℕ
  pub schema_hash : Text
  pub presence_hash : Text

pub record Disk (Json : Type 0) : Type 0 where
  pub rows : Rows Json
  pub clients : JsMap Text Client
  pub log : List (LogEntry Json)
  pub meta : Meta

-- The configuration, with what the platform supplies: SQLite's prefilter of `list` and `json_quote`,
-- and the ids that `createIdSource` mints from a seed.
pub record Config (Json : Type 0) : Type 0 where
  pub app : AppDefinition Json
  pub ops : JsonOps Json
  pub prefilter : Where Json → Json → Bool
  pub json_quote : Text → Text
  pub id_source : Text → ℕ → Text
  pub track_changes : Bool
  pub tombstone_retention : ℕ

-- The attachment of a socket: identity, stamps and lifecycle marks.
pub record Attachment (Json : Type 0) : Type 0 where
  pub client_id : Text
  pub ready : Bool
  pub principal : Option Text
  pub auth : Option Json
  pub expires_at : Option ℕ
  pub defunct : Bool
