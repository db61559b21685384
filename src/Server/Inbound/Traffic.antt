-- ===== src/Server/Inbound/Traffic.antt =====
-- A frame changes the disk by the steps of a history alone.
use cf_sync.Base.JsMap
use cf_sync.Base.JsMap.{JsMap}
use cf_sync.Base.Text.{Text}
use cf_sync.Base.{
  Bool-cases, List, Option, Result-cases, [], arith, inl, inr, list_eq, ltb, nat_eq, pair_eq, subst,
  sym, ℕ, ◌++◌, ◌+◌, ◌∷◌, ◌≡◌, none, some, Option-cases, nat_beq, not, ◌||◌,
}
use cf_sync.Protocol.Messages.{
  Mutation, MutationResult, push_invalid, HelloMsg, ClientMsg, bad_message, close_refresh,
  close_version_not_supported, hello, internal, presence, protocol_version, push,
  version_not_supported,
}
use cf_sync.Server.Handlers.Push.{send_error-disk}
use cf_sync.Server.Handlers.{
  PushRun, committed, count_skipped, gap, handle_push, push_loop, send_error, threw, conclude_push,
  count_push,
}
use cf_sync.Server.Hello.{handle_hello, version_not_supported_reason}
use cf_sync.Server.History.{History, here, mutate, then_step, touch}
use cf_sync.Server.Inbound.{handle_message, web_socket_message}
use cf_sync.Server.Mutate.{apply_mutation, last_mutation_id, touch_client}
use cf_sync.Server.Sockets.{Workspace, auth_expired, expired}
use cf_sync.Server.State.{Attachment, Config, Disk}
use cf_sync.Server.Inbound.Quiet.{
  conclude_push-disk, close_now-disk, welcome-disk, handle_presence-disk,
}

module _ {Json : Type 0} (config : Config Json) (now : ℕ) (seen : Text) where
  History-trans :
      {a b c : Disk Json}
      → History config seen a b
      → History config seen b c
      → History config seen a c
  History-trans h here = h
  History-trans h (then_step k s) = then_step (History-trans h k) s

  abbrev same : {a b : Disk Json} → b ≡ a → History config seen a b
  same {a} e = subst (History config seen a) (sym e) here

  push_loop-History :
      (ws : ℕ) (attachment : Attachment Json) (mutations : List (Mutation Json))
      (w : Workspace Json) (lmid : ℕ) (results : List MutationResult)
      → History config seen w.disk
          (push_loop config now ws attachment mutations w lmid results).workspace.disk
  unfolding push_loop
  push_loop-History ws attachment [] w lmid results = here
  push_loop-History ws attachment (m ∷ ms) w lmid results =
      let reach : (run : PushRun Json)
          → run ≡ push_loop config now ws attachment (m ∷ ms) w lmid results
          → History config seen w.disk run.workspace.disk
          → History config seen w.disk
              (push_loop config now ws attachment (m ∷ ms) w lmid results).workspace.disk =
        λ run e h. subst (λ x. History config seen w.disk x.workspace.disk) e h in
      elim (Bool-cases (ltb m.id (lmid + 1))) [
        | inl old ↦
            reach (push_loop config now ws attachment ms (count_skipped config now w) lmid results)
              (ground arith)
              (push_loop-History ws attachment ms (count_skipped config now w) lmid results)
        | inr new ↦ elim (Bool-cases (ltb (lmid + 1) m.id)) [
          | inl ahead ↦
              reach
                (record {
                  workspace = send_error ws push_invalid w;
                  lmid = lmid;
                  results = results;
                  ending = gap;
                })
                (ground arith) (same (send_error-disk config now ws attachment ws push_invalid w))
          | inr next ↦ elim (Result-cases (apply_mutation config now attachment m w.disk)) [
            | inr (u, thrown) ↦
                reach (record { workspace = w; lmid = lmid; results = results; ending = threw })
                  (ground arith) here
            | inl ((disk, e), done) ↦
                let r : MutationResult = record { id = m.id; error = e.rejection } in
                reach
                  (push_loop config now ws attachment ms (committed config now w disk e) m.id
                    (results ++ r ∷ []))
                  (ground arith)
                  (History-trans (then_step here (mutate now attachment m w.disk disk e done)) (
                    push_loop-History ws attachment ms (committed config now w disk e) m.id
                      (results ++ r ∷ [])))
          ]
        ]
      ]

  pub handle_push-History :
      (poke_id : Text) (ws : ℕ) (attachment : Attachment Json) (mutations : List (Mutation Json))
      (w : Workspace Json)
      → History config seen w.disk (handle_push config now poke_id ws attachment mutations w).0.disk
  unfolding handle_push
  handle_push-History poke_id ws attachment mutations w =
      let lmid = last_mutation_id w.disk attachment.client_id in
      let run = push_loop config now ws attachment mutations (count_push config now w) lmid [] in
      let conclusion =
        conclude_push config now poke_id ws attachment.client_id w.disk.meta.current_version lmid
          run.ending run in
      elim (Bool-cases attachment.ready) [
        | inr waiting ↦
            same (ground (arith, send_error-disk config now ws attachment ws push_invalid w))
        | inl ready ↦
            subst (λ x. History config seen w.disk x.0.disk) {x = conclusion}
              {y = handle_push config now poke_id ws attachment mutations w} (ground arith)
              (History-trans
                (push_loop-History ws attachment mutations (count_push config now w) lmid [])
                (same (
                  conclude_push-disk config now poke_id ws attachment.client_id
                    w.disk.meta.current_version lmid run.ending run)))
      ]

  handle_hello-History :
      (poke_id : Text) (ws : ℕ) (attachment : Attachment Json) (msg : HelloMsg) (w : Workspace Json)
      → History config seen w.disk (handle_hello config now poke_id ws attachment msg w).0.disk
  unfolding handle_hello
  handle_hello-History poke_id ws attachment msg w =
      let touched : Workspace Json = record w {
        disk = touch_client now attachment.client_id w.disk;
      } in
      elim (Bool-cases (
        not (nat_beq msg.protocol_version protocol_version)
        || not (nat_beq msg.schema_version config.app.version))) [
          | inl mismatch ↦ same (
              ground (
                arith,
                close_now-disk config now ws close_version_not_supported
                    (version_not_supported_reason config now)
                    (send_error ws version_not_supported w),
                send_error-disk config now ws attachment ws version_not_supported w,
              ))
          | inr match_both ↦
              let served : (handle_hello config now poke_id ws attachment msg w).0.disk
                  ≡ touched.disk =
                ground (arith, welcome-disk config now poke_id ws attachment msg.cursor touched) in
              History-trans (then_step here (touch now attachment.client_id w.disk)) (same served)
        ]

  handle_message-History :
      (poke_id : Text) (ws : ℕ) (attachment : Attachment Json) (msg : Option (ClientMsg Json))
      (w : Workspace Json)
      → History config seen w.disk (handle_message config now poke_id ws attachment msg w).0.disk
  unfolding handle_message
  handle_message-History poke_id ws attachment none w =
      same (send_error-disk config now ws attachment ws bad_message w)
  handle_message-History poke_id ws attachment (some (hello msg)) w =
      handle_hello-History poke_id ws attachment msg w
  handle_message-History poke_id ws attachment (some (presence state)) w =
      same (handle_presence-disk config now ws attachment state w)
  handle_message-History poke_id ws attachment (some (push mutations)) w =
      handle_push-History poke_id ws attachment mutations w

  -- Whatever a socket sends, and whether the handler answers or throws, the disk it leaves is reached
  -- from the disk it found by the steps of a history.
  pub web_socket_message-History :
      (poke_id : Text) (ws : ℕ) (msg : Option (ClientMsg Json)) (w : Workspace Json)
      → History config seen w.disk (web_socket_message config now poke_id ws msg w).disk
  unfolding web_socket_message
  web_socket_message-History poke_id ws msg w = elim (Option-cases (JsMap.get ws w.sockets)) [
    | inl gone ↦ same (ground arith)
    | inr (s, there) ↦ elim (Bool-cases s.attachment.defunct) [
      | inl dead ↦ same (ground arith)
      | inr alive ↦ elim (Bool-cases (expired now s.attachment)) [
        | inl late ↦
            same
              (ground (arith, close_now-disk config now ws close_refresh (auth_expired config) w))
        | inr in_time ↦
            let (handled, failed) = handle_message config now poke_id ws s.attachment msg w in
            let served : (web_socket_message config now poke_id ws msg w).disk ≡ handled.disk =
              ground (arith, send_error-disk config now ws s.attachment ws internal handled) in
            History-trans (handle_message-History poke_id ws s.attachment msg w) (same served)
      ]
    ]
  ]
