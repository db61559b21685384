-- ===== src/Server/Handlers/Replay.antt =====
-- What a push that is delivered twice is answered with.
use cf_sync.Base.JsMap
use cf_sync.Base.JsMap.{JsMap}
use cf_sync.Base.Text.{Text}
use cf_sync.Base.{
  All, List, [], arith, false, list_eq, nat_eq, ok, pair_eq, refl, some, true, ℕ, ◌∷◌, ◌≡◌, ◌≤◌,
  Bool, ap, ap₂, ◌∙◌,
}
use cf_sync.Protocol.Chunk.{chunk_by_size, chunk_loop}
use cf_sync.Protocol.Messages.{Mutation, ServerMsg}
use cf_sync.Server.Handlers.Push.{push_loop-replay}
use cf_sync.Server.Handlers.{
  answer_push, conclude_push, count_push, handle_push, push_loop, send_packed, PushEnd, PushRun,
  finished,
}
use cf_sync.Server.Hello.Welcome.{Reachable}
use cf_sync.Server.Mutate.{last_mutation_id}
use cf_sync.Server.Pokes.{Poke, cursor_of, deliver_all, pack_ops, poke_frames, send_poke}
use cf_sync.Server.Sockets.{
  Socket, Workspace, append_frames, deliver, deliver_within, update_socket,
}
use cf_sync.Server.State.{Attachment, Config, Disk}

module _ {Json : Type 0} (config : Config Json) (now : ℕ) where
  -- The poke that confirms the LMID again.
  abbrev pub confirmation : Attachment Json → Disk Json → Poke Json
  confirmation attachment disk = record {
    base_cursor = some (cursor_of disk.meta);
    parts = [] ∷ [];
    last_mutation_id_changes =
        (attachment.client_id, last_mutation_id disk attachment.client_id) ∷ [];
    mutation_results = [];
  }

  nothing_packs : pack_ops config [] ≡ ok ([] ∷ [])
  unfolding pack_ops chunk_by_size chunk_loop
  nothing_packs = refl

  sockets-deliver :
      (ws : ℕ) (frames : List (ServerMsg Json)) (w : Workspace Json) (s : Socket Json)
      → JsMap.get ws w.sockets ≡ some s
      → Reachable config now s
      → ((deliver config now ws frames w).sockets ≡ JsMap.set ws (append_frames frames s) w.sockets)
        × ((deliver config now ws frames w).disk ≡ w.disk)
  unfolding deliver deliver_within update_socket
  sockets-deliver ws frames w s there (alive, in_time, sound) = (ground arith, ground arith)

  sockets-send_poke :
      (poke_id : Text) (ws : ℕ) (poke : Poke Json) (w : Workspace Json) (s : Socket Json)
      → JsMap.get ws w.sockets ≡ some s
      → Reachable config now s
      → ((send_poke config now poke_id (ws ∷ []) poke w).sockets
          ≡ JsMap.set ws
              (append_frames (poke_frames poke_id (cursor_of w.disk.meta) poke) s)
              w.sockets)
        × ((send_poke config now poke_id (ws ∷ []) poke w).disk ≡ w.disk)
  unfolding send_poke deliver_all
  sockets-send_poke poke_id ws poke w s there reachable =
      sockets-deliver ws (poke_frames poke_id (cursor_of w.disk.meta) poke) _ s there reachable

  -- A loop that ended where it started is confirmed.
  conclude_push-confirms :
      (poke_id : Text) (ws : ℕ) (attachment : Attachment Json) (start_version lmid : ℕ)
      (run : PushRun Json)
      → run.lmid ≡ lmid
      → last_mutation_id run.workspace.disk attachment.client_id ≡ lmid
      → conclude_push config now poke_id ws attachment.client_id start_version lmid finished run ≡ (
        send_poke config now poke_id
            (ws ∷ [])
            (confirmation attachment run.workspace.disk)
            run.workspace,
        false,
      )
  unfolding conclude_push answer_push send_packed
  conclude_push-confirms poke_id ws attachment start_version lmid run same stored =
      ground (arith, same, stored, nothing_packs)

  -- A push on a ready socket that delivery reaches, of mutations that are all at or below the LMID
  -- that is stored for the client, does not fail, leaves the disk as it was, and sends the poke that
  -- confirms this LMID at the present cursor, without an operation, to the socket and to no other.
  pub handle_push-replay :
      (poke_id : Text) (ws : ℕ) (mutations : List (Mutation Json)) (w : Workspace Json)
      (s : Socket Json)
      → JsMap.get ws w.sockets ≡ some s
      → Reachable config now s
      → s.attachment.ready ≡ true
      → All (λ m. m.id ≤ last_mutation_id w.disk s.attachment.client_id) mutations
      → let (after, failed) = handle_push config now poke_id ws s.attachment mutations w in
        (failed ≡ false)
        × (after.disk ≡ w.disk)
        × (after.sockets
            ≡ JsMap.set ws
                (append_frames
                  (poke_frames poke_id (cursor_of w.disk.meta) (confirmation s.attachment w.disk))
                  s)
                w.sockets)
  unfolding handle_push
  handle_push-replay poke_id ws mutations w s there reachable ready old =
      let lmid = last_mutation_id w.disk s.attachment.client_id in
      let run = push_loop config now ws s.attachment mutations (count_push config now w) lmid [] in
      let (disk, sockets, reached, results, ending) =
        push_loop-replay config now ws s.attachment mutations (count_push config now w) lmid []
          old in
      let conclude : PushEnd → Workspace Json × Bool = λ end.
        conclude_push config now poke_id ws s.attachment.client_id w.disk.meta.current_version lmid
          end run in
      let poke = confirmation s.attachment run.workspace.disk in
      let whole : handle_push config now poke_id ws s.attachment mutations w
          ≡ (send_poke config now poke_id (ws ∷ []) poke run.workspace, false) =
        ground (arith, ready)
        ∙ ap conclude ending
        ∙ conclude_push-confirms poke_id ws s.attachment w.disk.meta.current_version lmid run
            reached (ap (λ d. last_mutation_id d s.attachment.client_id) disk) in
      let (sent, kept) =
        sockets-send_poke poke_id ws poke run.workspace s (ap (JsMap.get ws) sockets ∙ there)
          reachable in
      (
        ap (λ r. r.1) whole,
        ap (λ r. r.0.disk) whole ∙ kept ∙ disk,
        ap (λ r. r.0.sockets) whole
            ∙ sent
            ∙ ap₂
                (λ (d : Disk Json) (m : JsMap ℕ (Socket Json)).
                  JsMap.set ws
                    (append_frames
                      (poke_frames poke_id (cursor_of d.meta) (confirmation s.attachment d)) s)
                    m)
                disk sockets,
      )
