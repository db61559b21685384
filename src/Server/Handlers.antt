-- ===== src/Server/Handlers.antt =====
-- The message handlers of packages/server/src/do.ts. What a handler throws is kept beside the
-- workspace as it left it.
pub mod Push
pub mod Replay
use cf_sync.Base.JsMap
use cf_sync.Base.JsMap.{JsMap}
use cf_sync.Base.Text.{Text, text}
use cf_sync.Base.{
  Bool, List, Option, [], err, false, if◌then◌else◌, is_some, list_eq, ltb, nat_beq, nat_eq, none,
  not, ok, pair_eq, some, true, ℕ, ◌++◌, ◌+◌, ◌==◌, ◌∷◌, list_beq, ◌&&◌, ◌||◌, Result,
}
use cf_sync.Protocol.Chunk.{nonempty, OversizeItem}
use cf_sync.Protocol.Messages.{
  Cursor, ErrorCode, Mutation, MutationResult, PatchOp, error, push_invalid, HelloMsg, PresencePeer,
  close_version_not_supported, presence, presence_peers, protocol_version, version_not_supported,
  ClientMsg, bad_message, close_refresh, close_superseded, hello, internal, max_presence_bytes,
  presence_invalid, push,
}
use cf_sync.Protocol.Mutators.{Validation, Validator, issues, promise, value}
use cf_sync.Protocol.Utf8.{json_byte_size}
use cf_sync.Server.History.{cursor_valid}
use cf_sync.Server.Mutate.{Effects, apply_mutation, last_mutation_id, touch_client, parsed}
use cf_sync.Server.Patch.{patch_since, bootstrap_patch}
use cf_sync.Server.Pokes.{cursor_of, pack_ops, send_poke}
use cf_sync.Server.Sockets.{
  Counters, Workspace, append_frames, ready_sockets, update_socket, Cached, PresenceEntry, Socket,
  close_socket, deliver, auth_expired, drop_presence, expired, relay_presence,
}
use cf_sync.Server.State.{Attachment, Config, Disk, Meta}

-- `#sendError`: past the delivery gate.
unfoldable pub send_error : {Json : Type 0} → ℕ → ErrorCode → Workspace Json → Workspace Json
unfolding update_socket
send_error ws code w =
    update_socket ws (λ s. if s.broken then s else append_frames (error code ∷ []) s) w

-- A patch that has been packed into parts, or threw: an oversize operation.
abbrev pub Packed : Type 0 → Type 0
Packed Json = Result OversizeItem (List (List (PatchOp Json)))

-- How the loop over a push's mutations ended.
pub data PushEnd : Type 0 where
  finished gap threw : PushEnd

pub record PushRun (Json : Type 0) : Type 0 where
  pub workspace : Workspace Json
  pub lmid : ℕ
  pub results : List MutationResult
  pub ending : PushEnd

module _ {Json : Type 0} (config : Config Json) (now : ℕ) where
  abbrev pub count_skipped : Workspace Json → Workspace Json
  count_skipped w = record w {
    counters = record w.counters { mutations_skipped = w.counters.mutations_skipped + 1 };
  }

  abbrev pub count_mutation : Option Text → Counters → Counters
  count_mutation none c = record c { mutations_applied = c.mutations_applied + 1 }
  count_mutation (some code) c = record c { mutation_errors = c.mutation_errors + 1 }

  -- After the transaction: the cached snapshot goes when the version moved.
  abbrev pub committed : Workspace Json → Disk Json → Effects config → Workspace Json
  committed w disk e = record w {
    disk = disk;
    snapshot = if is_some e.wrote_version then none else w.snapshot;
    counters = count_mutation e.rejection w.counters;
  }

  unfoldable pub push_loop :
      ℕ
      → Attachment Json
      → List (Mutation Json)
      → Workspace Json
      → ℕ
      → List MutationResult
      → PushRun Json
  unfolding send_error
  push_loop ws attachment [] w lmid results = record {
    workspace = w;
    lmid = lmid;
    results = results;
    ending = finished;
  }
  push_loop ws attachment (m ∷ ms) w lmid results = elim (ltb m.id (lmid + 1)) [
    | true ↦ push_loop ws attachment ms (count_skipped w) lmid results
    | false ↦ elim (ltb (lmid + 1) m.id) [
      | true ↦ record {
        workspace = send_error ws push_invalid w;
        lmid = lmid;
        results = results;
        ending = gap;
      }
      | false ↦ elim (apply_mutation config now attachment m w.disk) [
        | err thrown ↦ record { workspace = w; lmid = lmid; results = results; ending = threw }
        | ok (disk, e) ↦
            push_loop ws attachment ms (committed w disk e) m.id
              (results ++ record { id = m.id; error = e.rejection } ∷ [])
      ]
    ]
  ]

  unfoldable pub send_packed :
      Text
      → List ℕ
      → Option Cursor
      → Packed Json
      → JsMap Text ℕ
      → List MutationResult
      → Workspace Json
      → Workspace Json × Bool
  unfolding send_poke
  send_packed poke_id sockets base packed lmids results w = elim packed [
    | err oversize ↦ (w, true)
    | ok parts ↦ (
      send_poke config now poke_id sockets
          (record {
            base_cursor = base;
            parts = parts;
            last_mutation_id_changes = lmids;
            mutation_results = results;
          })
          w,
      false,
    )
  ]

  -- What follows the loop: a confirmation when nothing moved, else the patch of the push.
  unfoldable pub answer_push :
      Text → ℕ → Text → (start_version start_lmid : ℕ) → PushRun Json → Workspace Json × Bool
  unfolding send_packed
  answer_push poke_id ws client_id start_version start_lmid run =
      let w = run.workspace in
      let lmids = (client_id, run.lmid) ∷ [] in
      if nat_beq run.lmid start_lmid
      then send_packed poke_id (ws ∷ []) (some (cursor_of w.disk.meta)) (pack_ops config []) lmids
          [] w
      else let ops = patch_since start_version w.disk.rows in
        send_packed poke_id (if nonempty ops then ready_sockets w.sockets else ws ∷ [])
          (some (record { backend_id = w.disk.meta.backend_id; version = start_version }))
          (pack_ops config ops) lmids run.results w

  -- An exception leaves what was committed before it, and no answer.
  unfoldable pub conclude_push :
      Text
      → ℕ
      → Text
      → (start_version start_lmid : ℕ) → PushEnd
      → PushRun Json
      → Workspace Json × Bool
  unfolding answer_push
  conclude_push poke_id ws client_id start_version start_lmid threw run = (run.workspace, true)
  conclude_push poke_id ws client_id start_version start_lmid finished run =
      answer_push poke_id ws client_id start_version start_lmid run
  conclude_push poke_id ws client_id start_version start_lmid gap run =
      answer_push poke_id ws client_id start_version start_lmid run

  abbrev pub count_push : Workspace Json → Workspace Json
  count_push w = record w { counters = record w.counters { pushes = w.counters.pushes + 1 } }

  unfoldable pub handle_push :
      Text → ℕ → Attachment Json → List (Mutation Json) → Workspace Json → Workspace Json × Bool
  unfolding push_loop conclude_push
  handle_push poke_id ws attachment mutations w =
      if not attachment.ready
      then (send_error ws push_invalid w, false)
      else let start_lmid = last_mutation_id w.disk attachment.client_id in
        let run = push_loop ws attachment mutations (count_push w) start_lmid [] in
        conclude_push poke_id ws attachment.client_id w.disk.meta.current_version start_lmid
          run.ending run
