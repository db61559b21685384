-- ===== src/Client/Store.antt =====
-- `MemorySyncStore` of packages/client/src/store.ts: the durable mirror of a client.
pub mod Replay
use cf_sync.Base.JsMap
use cf_sync.Base.JsMap.{JsMap}
use cf_sync.Base.Text.{Text}
use cf_sync.Base.{
  Bool, List, Option, [], false, if◌then◌else◌, leb, list_beq, list_eq, nat_eq, none, not, pair_eq,
  some, true, ℕ, ◌&&◌, ◌==◌, ◌∷◌,
}
use cf_sync.Client.{OutboxEntry}
use cf_sync.Protocol.Messages.{Cursor, PatchOp, clear, del, put}
use cf_sync.Server.Patch.{Replica}

pub record PersistedOutboxEntry (Json : Type 0) : Type 0 where
  pub id : Option ℕ
  pub name : Text
  pub args : Json
  pub seed : Text

pub data PersistedRowOp (Json : Type 0) : Type 0 where
  put_row : Text → Text → Json → PersistedRowOp Json
  del_row : Text → Text → PersistedRowOp Json

pub record PokePersist (Json : Type 0) : Type 0 where
  pub ops : List (PersistedRowOp Json)
  pub truncate : Bool
  pub cursor : Cursor
  pub schema_version : ℕ
  pub confirmed_lmid : ℕ
  pub outbox : List (PersistedOutboxEntry Json)

-- The fields of the store; rows by table and id.
pub record MemorySyncStore (Json : Type 0) : Type 0 where
  pub schema_version : Option ℕ
  pub cursor : Option Cursor
  pub confirmed_lmid : ℕ
  pub rows : Replica Json
  pub outbox : List (PersistedOutboxEntry Json)
  pub has_state : Bool

-- `load` when something is stored.
pub record PersistedState (Json : Type 0) : Type 0 where
  pub schema_version : Option ℕ
  pub cursor : Option Cursor
  pub confirmed_lmid : ℕ
  pub rows : Replica Json
  pub outbox : List (PersistedOutboxEntry Json)

-- The subsumption guard.
abbrev pub is_subsumed : Bool → Cursor → Option Cursor → Bool
is_subsumed truncate new none = false
is_subsumed truncate new (some held) =
    not truncate && list_beq held.backend_id new.backend_id && leb new.version held.version

module _ {Json : Type 0} where
  abbrev pub store_op : PersistedRowOp Json → Replica Json → Replica Json
  store_op (put_row tbl id row) rows = JsMap.set (tbl, id) row rows
  store_op (del_row tbl id) rows = JsMap.delete (tbl, id) rows

  unfoldable pub store_ops : List (PersistedRowOp Json) → Replica Json → Replica Json
  store_ops [] rows = rows
  store_ops (op ∷ ops) rows = store_ops ops (store_op op rows)

  -- The durable form of a patch: what `#applyPoke` passes on.
  unfoldable pub persisted_ops : List (PatchOp Json) → List (PersistedRowOp Json)
  persisted_ops [] = []
  persisted_ops (put tbl id row ∷ ops) = put_row tbl id row ∷ persisted_ops ops
  persisted_ops (del tbl id ∷ ops) = del_row tbl id ∷ persisted_ops ops
  persisted_ops (clear ∷ ops) = persisted_ops ops

  unfoldable pub outbox_snapshot : List (OutboxEntry Json) → List (PersistedOutboxEntry Json)
  outbox_snapshot [] = []
  outbox_snapshot (e ∷ rest) =
      record { id = e.id; name = e.name; args = e.args; seed = e.seed } ∷ outbox_snapshot rest

  unfoldable pub load : MemorySyncStore Json → Option (PersistedState Json)
  load s =
      if not s.has_state
      then none
      else some (record {
        schema_version = s.schema_version;
        cursor = s.cursor;
        confirmed_lmid = s.confirmed_lmid;
        rows = s.rows;
        outbox = s.outbox;
      })

  unfoldable pub save_outbox :
      List (PersistedOutboxEntry Json) → ℕ → MemorySyncStore Json → MemorySyncStore Json
  save_outbox outbox confirmed s = record s {
    outbox = outbox;
    confirmed_lmid = confirmed;
    has_state = true;
  }

  unfoldable pub store_poke : PokePersist Json → MemorySyncStore Json → MemorySyncStore Json
  unfolding save_outbox store_ops
  store_poke update s =
      if is_subsumed update.truncate update.cursor s.cursor
      then save_outbox update.outbox update.confirmed_lmid s
      else record {
        schema_version = some update.schema_version;
        cursor = some update.cursor;
        confirmed_lmid = update.confirmed_lmid;
        rows = store_ops update.ops (if update.truncate then [] else s.rows);
        outbox = update.outbox;
        has_state = true;
      }

  abbrev pub empty_store : MemorySyncStore Json
  empty_store = record {
    schema_version = none;
    cursor = none;
    confirmed_lmid = 0;
    rows = [];
    outbox = [];
    has_state = false;
  }
