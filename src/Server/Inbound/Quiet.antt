-- ===== src/Server/Inbound/Quiet.antt =====
-- The parts of the handlers that leave the disk as it is.
use cf_sync.Base.JsMap
use cf_sync.Base.JsMap.{JsMap}
use cf_sync.Base.Text.{Text}
use cf_sync.Base.{
  List, Option, Result-cases, [], arith, err, inl, inr, list_eq, nat_eq, ok, pair_eq, refl, ℕ, ◌∷◌,
  ◌≡◌, if◌then◌else◌, none, some, Option-cases,
}
use cf_sync.Protocol.Chunk.{nonempty}
use cf_sync.Protocol.Messages.{Cursor, MutationResult, presence_invalid, presence_peers}
use cf_sync.Server.Handlers.Push.{send_error-disk}
use cf_sync.Server.Handlers.{
  Packed, PushRun, answer_push, gap, send_packed, threw, PushEnd, conclude_push, finished,
}
use cf_sync.Server.Hello.{
  answer_patch, cached_bootstrap, close_now, kept_base, make_ready, peers_but, send_peers, welcome,
}
use cf_sync.Server.Inbound.{handle_presence, set_presence, accept_presence}
use cf_sync.Server.Mutate.{last_mutation_id}
use cf_sync.Server.Patch.{patch_since}
use cf_sync.Server.Pokes.Storage.{
  send_poke-disk, close_socket-disk, deliver-disk, relay_presence-disk, update_socket-disk,
}
use cf_sync.Server.Pokes.{cursor_of, pack_ops}
use cf_sync.Server.Sockets.{Workspace, ready_sockets, deliver, update_socket}
use cf_sync.Server.State.{Attachment, Config}

module _ {Json : Type 0} (config : Config Json) (now : ℕ) where
  send_packed-disk :
      (poke_id : Text) (sockets : List ℕ) (base : Option Cursor) (packed : Packed Json)
      (lmids : JsMap Text ℕ) (results : List MutationResult) (w : Workspace Json)
      → (send_packed config now poke_id sockets base packed lmids results w).0.disk ≡ w.disk
  unfolding send_packed
  send_packed-disk poke_id sockets base (err oversize) lmids results w = refl
  send_packed-disk poke_id sockets base (ok parts) lmids results w =
      send_poke-disk config now poke_id sockets _ w

  answer_push-disk :
      (poke_id : Text) (ws : ℕ) (client_id : Text) (start_version start_lmid : ℕ)
      (run : PushRun Json)
      → (answer_push config now poke_id ws client_id start_version start_lmid run).0.disk
        ≡ run.workspace.disk
  unfolding answer_push
  answer_push-disk poke_id ws client_id start_version start_lmid run =
      let w = run.workspace in
      let lmids : JsMap Text ℕ = (client_id, run.lmid) ∷ [] in
      let ops = patch_since start_version w.disk.rows in
      ground (
        arith,
        send_packed-disk poke_id (ws ∷ []) (some (cursor_of w.disk.meta)) (pack_ops config []) lmids
            [] w,
        send_packed-disk poke_id (if nonempty ops then ready_sockets w.sockets else ws ∷ [])
            (some (record { backend_id = w.disk.meta.backend_id; version = start_version }))
            (pack_ops config ops) lmids run.results w,
      )

  pub conclude_push-disk :
      (poke_id : Text) (ws : ℕ) (client_id : Text) (start_version start_lmid : ℕ) (ending : PushEnd)
      (run : PushRun Json)
      → (conclude_push config now poke_id ws client_id start_version start_lmid ending run).0.disk
        ≡ run.workspace.disk
  unfolding conclude_push
  conclude_push-disk poke_id ws client_id start_version start_lmid threw run = refl
  conclude_push-disk poke_id ws client_id start_version start_lmid finished run =
      answer_push-disk poke_id ws client_id start_version start_lmid run
  conclude_push-disk poke_id ws client_id start_version start_lmid gap run =
      answer_push-disk poke_id ws client_id start_version start_lmid run

  answer_patch-disk :
      (cursor : Option Cursor) (w : Workspace Json)
      → (answer_patch config now cursor w).1.disk ≡ w.disk
  unfolding answer_patch cached_bootstrap
  answer_patch-disk none w = ground arith
  answer_patch-disk (some cursor) w = ground arith

  pub close_now-disk :
      (ws code : ℕ) (reason : Text) (w : Workspace Json)
      → (close_now config now ws code reason w).disk ≡ w.disk
  unfolding close_now
  close_now-disk ws code reason w =
      close_socket-disk config (deliver config now) ws code reason w (deliver-disk config now)

  send_peers-disk :
      (ws : ℕ) (attachment : Attachment Json) (w : Workspace Json)
      → (send_peers config now ws attachment w).disk ≡ w.disk
  unfolding send_peers
  send_peers-disk ws attachment w = ground (
    arith,
    deliver-disk config now ws
        (presence_peers (peers_but config now attachment.client_id w.presence) ∷ []) w,
  )

  pub welcome-disk :
      (poke_id : Text) (ws : ℕ) (attachment : Attachment Json) (cursor : Option Cursor)
      (touched : Workspace Json)
      → (welcome config now poke_id ws attachment cursor touched).0.disk ≡ touched.disk
  unfolding welcome
  welcome-disk poke_id ws attachment cursor touched =
      let (packed, answered) = answer_patch config now cursor touched in
      let lmids : JsMap Text ℕ =
        (attachment.client_id, last_mutation_id touched.disk attachment.client_id) ∷ [] in
      let poked =
        (send_packed config now poke_id (ws ∷ []) (kept_base cursor touched.disk.meta) packed lmids
          [] answered).0 in
      ground (
        arith,
        answer_patch-disk cursor touched,
        send_packed-disk poke_id (ws ∷ []) (kept_base cursor touched.disk.meta) packed lmids []
            answered,
        send_peers-disk ws attachment (update_socket ws (make_ready config now attachment) poked),
        update_socket-disk ws (make_ready config now attachment) poked,
      )

  set_presence-disk :
      (ws : ℕ) (attachment : Attachment Json) (state : Option Json) (w : Workspace Json)
      → (set_presence config now ws attachment state w).disk ≡ w.disk
  unfolding set_presence
  set_presence-disk ws attachment none w = ground (
    arith,
    relay_presence-disk (deliver config now) ws attachment.client_id attachment.principal none
        (record w { presence = JsMap.delete attachment.client_id w.presence })
        (deliver-disk config now),
  )
  set_presence-disk ws attachment (some state) w =
      relay_presence-disk (deliver config now) ws attachment.client_id attachment.principal
        (some state) _ (deliver-disk config now)

  pub handle_presence-disk :
      (ws : ℕ) (attachment : Attachment Json) (state : Option Json) (w : Workspace Json)
      → (handle_presence config now ws attachment state w).disk ≡ w.disk
  unfolding handle_presence
  handle_presence-disk ws attachment state w = elim (Option-cases config.app.presence) [
    | inl off ↦ ground (arith, send_error-disk config now ws attachment ws presence_invalid w)
    | inr (validate, on) ↦ elim (Result-cases (accept_presence config now validate state)) [
      | inl (accepted, good) ↦ ground (
        arith,
        send_error-disk config now ws attachment ws presence_invalid w,
        set_presence-disk ws attachment accepted w,
      )
      | inr (refused, bad) ↦
          ground (arith, send_error-disk config now ws attachment ws presence_invalid w)
    ]
  ]
