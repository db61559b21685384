-- ===== src/Lib.antt =====
-- cf-sync: a sync engine for Cloudflare Durable Objects. Each workspace is one object that holds
-- rows, clients and a mutation log in SQLite; clients send mutations, and the workspace answers
-- with pokes that carry patches of rows.
--
-- Parts and files. `Json` is the abstract type of JSON values; what JavaScript does with them is in
-- the record JsonOps. Texts of error messages are left out, their codes are kept. The time is an
-- argument `now`; random ids are arguments.
--   Base: lists, tests, results, JavaScript maps (JsMap) and texts as UTF-16 units.
--   Protocol: packages/protocol/src. Protocol/Utf8 (utf8ByteLength of packages/server/src/frames.ts,
--     truncateCloseReason), Protocol/Chunk (chunkBySize, packPatch), Protocol/Messages (the wire's
--     data), Protocol/FieldFrames (the binary frames), Protocol/Mutators (the transaction
--     interface, compileWhere, defineMutators), Protocol/App (defineApp,
--     migrationPath).
--   Engine: packages/server/src/engine-core.ts. The interface RowStore and its laws IsRowStore;
--     Engine/MemoryStore (MemoryRowStore); Engine/WriteSet (WriteSet: tx.get, tx.list, tx.put,
--     tx.del as tx_get and so on, flush). A mutator's `apply` is a tree of transaction operations
--     whose continuations take results, so that it may catch what an operation throws.
--   Server: packages/server/src/do.ts, storage.ts, sql-row-store.ts, frames.ts. Server/State (the
--     tables and the configuration; the in-memory meta is the row of the table, which the code keeps
--     equal to it), Server/SqlRows, Server/Mutate (#applyMutation), Server/Patch (#patchSince,
--     #bootstrapPatch), Server/Maintain (compaction, migration, import, reset), Server/Sockets
--     (#deliver, #closeSocket, #dropPresence, #relayPresence), Server/Pokes (#sendPoke, pokeFrames),
--     Server/Handlers (#handlePush), Server/Hello (#handleHello), Server/Inbound (#handlePresence,
--     webSocketMessage and the ends of a socket), Server/History (the changes of a disk as a step
--     relation).
--   Client: packages/client/src/client.ts, store.ts, local-writes.ts. Client (the fields of SyncClient
--     and its outbox: #nextMutationId, #assignPendingIds, #rebaseOutboxIds, #settleOutbox,
--     #flushPush, #enqueue), Client/Receive (#onMessage, #applyPoke, #onServerError, #fatal),
--     Client/Presence (what #onMessage does with peers), Client/Store (MemorySyncStore),
--     Client/LocalWrites (LocalWriteSet, the write set of an optimistic run), Client/Connection
--     (the fields), Client/Connection/Lifecycle (start, #connect, #openSocket, #onDisconnect,
--     #scheduleReconnect, the heartbeat, #wake, #shutdown), Client/Connection/Events (what happens
--     to a client, one event at a time), Client/Hydrate (#hydrate).
--   Yjs: packages/yjs/src/server.ts, client.ts, over the record Yjs. Yjs/Server (the log of updates,
--     the cache and the refusals: loadDoc, handleGet, handleUpdate, compactField), Yjs/Hooks (what
--     the engine calls: onBinaryMessage, onAlarm, onExport, onImport, onReset, onStats), Yjs/Client
--     (createYjsFields), Yjs/Sync (a round of client and server, and the laws IsCrdt of Yjs that it
--     rests on).
--   Tests: runs of the definitions, and the theorems at concrete inputs.
--
-- Fuel. `deliver` recurs through #closeSocket, #dropPresence and #relayPresence. Each turn removes a
-- presence entry, so one unit more than there are entries is enough.
--
-- Not modelled: the parsing of frames by zod, the passing of binary frames by the engine to its
-- extension, the export to R2, the log's sink and the post-commit hook, the storage migrations of
-- the tables; of the client the collections and their overlays, the throttle of presence, and the IndexedDB store.
-- Parameters stand for SQLite's json prefilter and json_quote and for the mutation's id source,
-- for TextDecoder, for btoa and atob, and for Yjs.
pub mod Base
pub mod Protocol
pub mod Engine
pub mod Server
pub mod Client
pub mod Yjs
pub mod Tests
