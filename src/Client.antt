-- ===== src/Client.antt =====
-- `SyncClient` of packages/client/src/client.ts: the assembly of pokes, and the outbox.
pub mod Connection
pub mod Hydrate
pub mod Outbox
pub mod Presence
pub mod Receive
pub mod Store
pub mod LocalWrites
use cf_sync.Base.JsMap.{JsMap}
use cf_sync.Base.Text.{Text}
use cf_sync.Base.{
  Bool, List, Option, [], false, if◌then◌else◌, leb, list_eq, ltb, nat_beq, nat_eq, none, not,
  or_else, pair_eq, some, true, ℕ, ◌&&◌, ◌++◌, ◌+◌, ◌==◌, ◌||◌, ◌∷◌,
}
use cf_sync.Protocol.Chunk.{nonempty}
use cf_sync.Protocol.Messages.{
  ClientMsg, Cursor, Mutation, MutationResult, PatchOp, error, hello, protocol_version, push,
  PresencePeer,
}
use cf_sync.Server.Patch.CatchUp.{kept}
use cf_sync.Server.Patch.{Replica}

-- `key` stands for the identity of the entry object.
pub record OutboxEntry (Json : Type 0) : Type 0 where
  pub key : ℕ
  pub id : Option ℕ
  pub name : Text
  pub args : Json
  pub seed : Text

pub record PokeBuffer (Json : Type 0) : Type 0 where
  pub poke_id : Text
  pub base_mismatch : Bool
  pub patch : List (PatchOp Json)
  pub last_mutation_id_changes : JsMap Text ℕ
  pub mutation_results : List MutationResult

-- The fields of a client without a durable store, the rows of its registered tables, what it has
-- sent, and how its promises were settled (no code is a confirmation). Its own presence may be unset or
-- null; when a peer was heard is left out.
pub record SyncClient (Json : Type 0) : Type 0 where
  pub client_id : Text
  pub schema_version : ℕ
  pub registered : Text → Bool
  pub connected : Bool
  pub cursor : Option Cursor
  pub confirmed_lmid : ℕ
  pub outbox : List (OutboxEntry Json)
  pub poke : Option (PokeBuffer Json)
  pub synced_this_connection : Bool
  pub awaiting_catch_up : Bool
  pub needs_rebase : Bool
  pub push_scheduled : Bool
  pub rows : Replica Json
  pub sent : List (ClientMsg Json)
  pub settled : List (ℕ × Option Text)
  pub presence_live : Bool
  pub presence_state : Option (Option Json)
  pub presence_peers : JsMap Text (PresencePeer Json)

-- The larger of a bound and an entry's id.
abbrev pub at_least : ℕ → Option ℕ → ℕ
at_least bound none = bound
at_least bound (some id) = if ltb bound id then id else bound

abbrev pub is_unassigned : Option ℕ → Bool
is_unassigned none = true
is_unassigned (some id) = false

-- `entry.id !== null && entry.id <= confirmed`, and its contrary.
abbrev pub is_confirmed : ℕ → Option ℕ → Bool
is_confirmed confirmed none = false
is_confirmed confirmed (some id) = leb id confirmed

abbrev pub is_pushable : ℕ → Option ℕ → Bool
is_pushable confirmed none = false
is_pushable confirmed (some id) = ltb confirmed id

-- The error of the last result that carries one for the id.
abbrev pub error_of : Option ℕ → List MutationResult → Option Text
error_of id [] = none
error_of id (r ∷ rs) = elim (error_of id rs) [
  | some code ↦ some code
  | none ↦ elim id [ none ↦ none | some i ↦ if nat_beq r.id i then r.error else none ]
]

module _ {Json : Type 0} where
  -- `#nextMutationId`
  unfoldable pub max_id : ℕ → List (OutboxEntry Json) → ℕ
  max_id bound [] = bound
  max_id bound (entry ∷ rest) = max_id (at_least bound entry.id) rest

  unfoldable pub next_mutation_id : ℕ → List (OutboxEntry Json) → ℕ
  unfolding max_id
  next_mutation_id confirmed outbox = max_id confirmed outbox + 1

  -- `#assignPendingIds`: the entries of `seen` come first.
  unfoldable pub assign_pending_ids :
      ℕ → (seen rest : List (OutboxEntry Json)) → List (OutboxEntry Json)
  unfolding next_mutation_id
  assign_pending_ids confirmed seen [] = seen
  assign_pending_ids confirmed seen (entry ∷ rest) =
      let assigned : OutboxEntry Json =
        if is_unassigned entry.id
        then record entry { id = some (next_mutation_id confirmed (seen ++ entry ∷ rest)) }
        else entry in
      assign_pending_ids confirmed (seen ++ assigned ∷ []) rest

  -- `#rebaseOutboxIds`
  unfoldable pub rebase_outbox_ids : ℕ → List (OutboxEntry Json) → List (OutboxEntry Json)
  rebase_outbox_ids next [] = []
  rebase_outbox_ids next (entry ∷ rest) =
      record entry { id = some (next + 1) } ∷ rebase_outbox_ids (next + 1) rest

  -- `#settleOutbox`: the entries that stay, and how the others are settled.
  unfoldable pub settle_outbox :
      ℕ
      → List MutationResult
      → List (OutboxEntry Json)
      → List (OutboxEntry Json) × List (ℕ × Option Text)
  settle_outbox confirmed results [] = ([], [])
  settle_outbox confirmed results (entry ∷ rest) =
      let (kept, settled) = settle_outbox confirmed results rest in
      if is_confirmed confirmed entry.id
      then (kept, (entry.key, error_of entry.id results) ∷ settled)
      else (entry ∷ kept, settled)

  -- `#flushPush`
  abbrev pub insert_by_id : Mutation Json → List (Mutation Json) → List (Mutation Json)
  insert_by_id m [] = m ∷ []
  insert_by_id m (n ∷ rest) = if leb m.id n.id then m ∷ n ∷ rest else n ∷ insert_by_id m rest

  unfoldable pub pushed : ℕ → List (OutboxEntry Json) → List (Mutation Json)
  pushed confirmed [] = []
  pushed confirmed (entry ∷ rest) =
      let more = pushed confirmed rest in
      if is_pushable confirmed entry.id
      then insert_by_id
          (record {
            id = or_else entry.id 0;
            name = entry.name;
            args = entry.args;
            seed = entry.seed;
          })
          more
      else more

  unfoldable pub send : ClientMsg Json → SyncClient Json → SyncClient Json
  send msg c = if c.connected then record c { sent = c.sent ++ msg ∷ [] } else c

  unfoldable pub flush_push : SyncClient Json → SyncClient Json
  unfolding pushed send
  flush_push c =
      let mutations = pushed c.confirmed_lmid c.outbox in
      if c.connected && c.synced_this_connection && nonempty mutations
      then send (push mutations) (record c { push_scheduled = false })
      else record c { push_scheduled = false }

  -- `#enqueue` of a client that is neither stopped nor in a fatal state.
  unfoldable pub enqueue : ℕ → Text → Json → Text → SyncClient Json → SyncClient Json
  unfolding next_mutation_id
  enqueue key name args seed c =
      let entry : OutboxEntry Json = record {
        key = key;
        id = none;
        name = name;
        args = args;
        seed = seed;
      } in
      if c.synced_this_connection
      then record c {
        outbox =
            c.outbox
            ++ record entry {
              id = some (next_mutation_id c.confirmed_lmid (c.outbox ++ entry ∷ []));
            }
              ∷ [];
        push_scheduled = true;
      }
      else record c { outbox = c.outbox ++ entry ∷ [] }

  unfoldable pub send_hello : SyncClient Json → SyncClient Json
  unfolding send
  send_hello c =
      send
        (hello (record {
          protocol_version = protocol_version;
          schema_version = c.schema_version;
          cursor = c.cursor;
        }))
        (record c { awaiting_catch_up = true })

  unfoldable pub request_resync : SyncClient Json → SyncClient Json
  unfolding send_hello
  request_resync c = if c.awaiting_catch_up || not c.connected then c else send_hello c
