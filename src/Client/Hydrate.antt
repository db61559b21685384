-- ===== src/Client/Hydrate.antt =====
-- `#hydrate` of packages/client/src/client.ts: what a store gives back before the first connection.
pub mod Restores
use cf_sync.Base.{
  Bool, List, Option, [], false, if◌then◌else◌, is_some, list_eq, nat_eq, none, not, pair_eq, some,
  true, ℕ, ◌++◌, ◌+◌, ◌==◌, ◌||◌, ◌∷◌,
}
use cf_sync.Client.Receive.{write_ops}
use cf_sync.Client.Store.{PersistedOutboxEntry, PersistedState}
use cf_sync.Client.{OutboxEntry, SyncClient}
use cf_sync.Protocol.Messages.{PatchOp, put}
use cf_sync.Server.Patch.{Replica}

-- What `store.load()` gave: it failed, or there was a state or none.
pub data Loaded (Json : Type 0) : Type 0 where
  load_failed : Loaded Json
  loaded : Option (PersistedState Json) → Loaded Json

-- A state without a schema version, or with the app's.
abbrev pub serves_version : ℕ → Option ℕ → Bool
serves_version version none = true
serves_version version (some v) = v == version

module _ {Json : Type 0} where
  -- Entries with the identities from `key` on. No caller awaits them.
  unfoldable pub restored_entries : ℕ → List (PersistedOutboxEntry Json) → List (OutboxEntry Json)
  restored_entries key [] = []
  restored_entries key (e ∷ rest) =
      record { key = key; id = e.id; name = e.name; args = e.args; seed = e.seed }
      ∷ restored_entries (key + 1) rest

  -- Every cached row of a registered table is put.
  unfoldable pub cached_puts : Replica Json → List (PatchOp Json)
  cached_puts [] = []
  cached_puts (((tbl, id), row) ∷ rest) = put tbl id row ∷ cached_puts rest

  unfoldable pub restore : ℕ → PersistedState Json → SyncClient Json → SyncClient Json
  unfolding restored_entries cached_puts
  restore key state c = record c {
    cursor = state.cursor;
    confirmed_lmid = state.confirmed_lmid;
    outbox = restored_entries key state.outbox ++ c.outbox;
    rows =
        if is_some state.cursor
        then write_ops c.registered (cached_puts state.rows) c.rows
        else c.rows;
  }

  -- Whether a snapshot was restored, and the client. The overlays of the restored entries are the
  -- collections'.
  unfoldable pub hydrate :
      (stopped : Bool) → (key : ℕ) → Loaded Json → SyncClient Json → Bool × SyncClient Json
  unfolding restore
  hydrate stopped key load_failed c = (false, c)
  hydrate stopped key (loaded none) c = (false, c)
  hydrate stopped key (loaded (some state)) c =
      if stopped || not (serves_version c.schema_version state.schema_version)
      then (false, c)
      else (is_some state.cursor, restore key state c)
