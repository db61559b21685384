-- ===== src/Client/Receive.antt =====
-- `#onMessage` and `#applyPoke` of packages/client/src/client.ts.
pub mod Assembly
use cf_sync.Base.JsMap
use cf_sync.Base.JsMap.{JsMap}
use cf_sync.Base.Text.{Text, text}
use cf_sync.Base.{
  Bool, List, Option, [], any, false, if◌then◌else◌, list_beq, list_eq, nat_eq, none, not, or_else,
  pair_eq, some, true, ℕ, ◌&&◌, ◌++◌, ◌==◌, ◌∷◌,
}
use cf_sync.Client.Presence.{
  apply_peer_update, on_presence_peers, on_presence_poll, presence_disconnected,
}
use cf_sync.Client.{
  PokeBuffer, SyncClient, assign_pending_ids, at_least, rebase_outbox_ids, request_resync,
  settle_outbox, OutboxEntry, send_hello,
}
use cf_sync.Protocol.Messages.{
  Cursor, MutationResult, PatchOp, PokePart, ServerMsg, clear, cursor_equals, del, error, poke_end,
  poke_part, poke_start, presence_peers, presence_poll, presence_update, put, ErrorCode,
  bad_message, cursor_invalid, internal, presence_invalid, push_invalid, unauthorized,
  version_not_supported,
}
use cf_sync.Server.Patch.CatchUp.{kept}
use cf_sync.Server.Patch.{Replica}

abbrev pub backend_changed : Option Cursor → Cursor → Bool
backend_changed none new = false
backend_changed (some old) new = not (list_beq old.backend_id new.backend_id)

abbrev pub assign_all : JsMap Text ℕ → JsMap Text ℕ → JsMap Text ℕ
assign_all [] m = m
assign_all ((k, v) ∷ more) m = assign_all more (JsMap.set k v m)

module _ {Json : Type 0} where
  abbrev pub is_clear : PatchOp Json → Bool
  is_clear (put tbl id row) = false
  is_clear (del tbl id) = false
  is_clear clear = true

  -- One write of a registered table's hooks. The order of writes is kept within each table.
  abbrev pub write_op : (Text → Bool) → PatchOp Json → Replica Json → Replica Json
  write_op registered (put tbl id row) rows =
      if registered tbl then JsMap.set (tbl, id) row rows else rows
  write_op registered (del tbl id) rows =
      if registered tbl then JsMap.delete (tbl, id) rows else rows
  write_op registered clear rows = rows

  abbrev pub write_ops : (Text → Bool) → List (PatchOp Json) → Replica Json → Replica Json
  write_ops registered [] rows = rows
  write_ops registered (op ∷ ops) rows = write_ops registered ops (write_op registered op rows)

  -- A `clear` anywhere truncates every registered table first.
  unfoldable pub apply_patch : (Text → Bool) → List (PatchOp Json) → Replica Json → Replica Json
  apply_patch registered patch rows =
      write_ops registered patch (if any is_clear patch then [] else rows)

  -- The baseline, and the outbox renumbered from it in a new history.
  unfoldable pub confirm : PokeBuffer Json → Bool → SyncClient Json → SyncClient Json
  unfolding rebase_outbox_ids
  confirm poke changed c =
      let confirmed = JsMap.get c.client_id poke.last_mutation_id_changes in
      if changed
      then record c {
        confirmed_lmid = or_else confirmed 0;
        outbox = rebase_outbox_ids (or_else confirmed 0) c.outbox;
      }
      else record c { confirmed_lmid = at_least c.confirmed_lmid confirmed }

  unfoldable pub settle : List MutationResult → SyncClient Json → SyncClient Json
  unfolding settle_outbox
  settle results c =
      let (kept, settled) = settle_outbox c.confirmed_lmid results c.outbox in
      record c { outbox = kept; settled = c.settled ++ settled }

  unfoldable pub rebase_if_needed : SyncClient Json → SyncClient Json
  unfolding rebase_outbox_ids
  rebase_if_needed c =
      if c.needs_rebase
      then record c { needs_rebase = false; outbox = rebase_outbox_ids c.confirmed_lmid c.outbox }
      else c

  unfoldable pub mark_synced : SyncClient Json → SyncClient Json
  unfolding assign_pending_ids
  mark_synced c = if c.synced_this_connection then c else record c {
    synced_this_connection = true;
    outbox = assign_pending_ids c.confirmed_lmid [] c.outbox;
  }

  unfoldable pub apply_poke : PokeBuffer Json → Cursor → SyncClient Json → SyncClient Json
  unfolding apply_patch confirm settle rebase_if_needed mark_synced
  apply_poke poke end_cursor c =
      let written : SyncClient Json = record c {
        rows = apply_patch c.registered poke.patch c.rows;
        cursor = some end_cursor;
        awaiting_catch_up = false;
      } in
      let confirmed = confirm poke (backend_changed c.cursor end_cursor) written in
      let done = mark_synced (rebase_if_needed (settle poke.mutation_results confirmed)) in
      record done { push_scheduled = true }

  abbrev pub add_part : PokePart Json → PokeBuffer Json → PokeBuffer Json
  add_part part poke = record poke {
    patch = poke.patch ++ part.patch;
    last_mutation_id_changes =
        assign_all part.last_mutation_id_changes poke.last_mutation_id_changes;
    mutation_results = poke.mutation_results ++ part.mutation_results;
  }

  abbrev pub drop_poke : SyncClient Json → SyncClient Json
  drop_poke c = record c { poke = none }

  unfoldable pub on_poke_start : Text → Option Cursor → SyncClient Json → SyncClient Json
  on_poke_start poke_id base c = record c {
    poke = some (record {
      poke_id = poke_id;
      base_mismatch = not (cursor_equals base c.cursor);
      patch = [];
      last_mutation_id_changes = [];
      mutation_results = [];
    });
  }

  unfoldable pub on_poke_part : PokePart Json → SyncClient Json → SyncClient Json
  unfolding request_resync
  on_poke_part part c = elim c.poke [
    | none ↦ request_resync (drop_poke c)
    | some poke ↦
        if list_beq poke.poke_id part.poke_id
        then record c { poke = some (add_part part poke) }
        else request_resync (drop_poke c)
  ]

  unfoldable pub on_poke_end : Text → Cursor → SyncClient Json → SyncClient Json
  unfolding request_resync apply_poke
  on_poke_end poke_id end_cursor c = elim c.poke [
    | none ↦ request_resync (drop_poke c)
    | some poke ↦
        if not (list_beq poke.poke_id poke_id)
        then request_resync (drop_poke c)
        else if poke.base_mismatch && not (any is_clear poke.patch)
        then request_resync (drop_poke c)
        else apply_poke poke end_cursor (drop_poke c)
  ]

  abbrev pub rejections : Text → List (OutboxEntry Json) → List (ℕ × Option Text)
  rejections code [] = []
  rejections code (entry ∷ rest) = (entry.key, some code) ∷ rejections code rest

  -- `#fatal`: every queued mutation is rejected and the socket goes.
  unfoldable pub fatal : Text → SyncClient Json → SyncClient Json
  fatal code c = record (presence_disconnected c) {
    connected = false;
    outbox = [];
    settled = c.settled ++ rejections code c.outbox;
  }

  -- `#requestFullResync` of a client whose socket is open or gone.
  unfoldable pub request_full_resync : SyncClient Json → SyncClient Json
  unfolding send_hello
  request_full_resync c =
      let forgotten = record c { cursor = none; awaiting_catch_up = false } in
      if c.connected then send_hello forgotten else forgotten

  -- The retry timer of the last two codes, and the log, are left out.
  unfoldable pub on_server_error : ErrorCode → SyncClient Json → SyncClient Json
  unfolding fatal request_full_resync request_resync
  on_server_error version_not_supported c = fatal (text "VersionNotSupported") c
  on_server_error unauthorized c = fatal (text "Unauthorized") c
  on_server_error cursor_invalid c = request_full_resync c
  on_server_error push_invalid c = request_resync (record c { needs_rebase = true })
  on_server_error presence_invalid c = c
  on_server_error bad_message c = c
  on_server_error internal c = c

  unfoldable pub on_message : ServerMsg Json → SyncClient Json → SyncClient Json
  unfolding on_poke_start on_poke_part on_poke_end on_server_error apply_peer_update
      on_presence_peers on_presence_poll
  on_message (poke_start poke_id base) c = on_poke_start poke_id base c
  on_message (poke_part part) c = on_poke_part part c
  on_message (poke_end poke_id end_cursor) c = on_poke_end poke_id end_cursor c
  on_message (presence_update client_id principal state) c =
      apply_peer_update client_id principal state c
  on_message (presence_peers peers) c = on_presence_peers peers c
  on_message presence_poll c = on_presence_poll c
  on_message (error code) c = on_server_error code c

  abbrev pub receive : List (ServerMsg Json) → SyncClient Json → SyncClient Json
  receive [] c = c
  receive (frame ∷ rest) c = receive rest (on_message frame c)
