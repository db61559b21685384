-- ===== src/Server/Inbound/Heard.antt =====
-- Which frames a workspace listens to, and what they may change on the disk.
use cf_sync.Base.JsMap
use cf_sync.Base.JsMap.{JsMap}
use cf_sync.Base.Text.{Text}
use cf_sync.Base.{
  Bool-cases, List, Option, [], ap, arith, false, inl, inr, length, list_eq, nat_beq, nat_eq, none,
  not, pair_eq, refl, some, subst, true, ℕ, ◌+◌, ◌||◌, ◌∙◌, ◌≡◌, ◌⊎◌,
}
use cf_sync.Protocol.Messages.{
  ClientMsg, HelloMsg, Mutation, bad_message, close_refresh, close_version_not_supported, hello,
  internal, presence, protocol_version, push, push_invalid, version_not_supported,
}
use cf_sync.Server.Handlers.Push.{push_loop-Advanced, send_error-disk}
use cf_sync.Server.Handlers.{count_push, handle_push, push_loop, send_error}
use cf_sync.Server.Hello.{handle_hello, version_not_supported_reason}
use cf_sync.Server.History.{History}
use cf_sync.Server.Inbound.Quiet.{
  close_now-disk, conclude_push-disk, handle_presence-disk, welcome-disk,
}
use cf_sync.Server.Inbound.Traffic.{handle_push-History}
use cf_sync.Server.Inbound.{handle_message, web_socket_message}
use cf_sync.Server.Mutate.{last_mutation_id, touch_client}
use cf_sync.Server.Sockets.{Socket, Workspace, auth_expired, expired}
use cf_sync.Server.State.{Attachment, Config, Disk}

module _ {Json : Type 0} (config : Config Json) (now : ℕ) (seen : Text) where
  -- A hello of the versions that are served only touches its client.
  abbrev pub Greets : Attachment Json → Option (ClientMsg Json) → Disk Json → Disk Json → Type 0
  Greets attachment msg disk next =
      (h : HelloMsg) × (msg ≡ some (hello h))
      × (h.protocol_version ≡ protocol_version)
      × (h.schema_version ≡ config.app.version)
      × (next ≡ touch_client now attachment.client_id disk)

  -- A push moves the disk by the steps of a history, and the LMID by as much as the log grows.
  abbrev pub Pushes : Attachment Json → Option (ClientMsg Json) → Disk Json → Disk Json → Type 0
  Pushes attachment msg disk next =
      (mutations : List (Mutation Json)) × (msg ≡ some (push mutations))
      × (attachment.ready ≡ true)
      × History config seen disk next
      × ((n : ℕ) × (length next.log ≡ length disk.log + n)
          × (last_mutation_id next attachment.client_id
              ≡ last_mutation_id disk attachment.client_id + n))

  -- The disk is left as it is, or a frame of one of these kinds has changed it.
  abbrev pub Serves : Attachment Json → Option (ClientMsg Json) → Disk Json → Disk Json → Type 0
  Serves attachment msg disk next =
      (next ≡ disk) ⊎ (Greets attachment msg disk next ⊎ Pushes attachment msg disk next)

  handle_push-Serves :
      (poke_id : Text) (ws : ℕ) (attachment : Attachment Json) (mutations : List (Mutation Json))
      (w : Workspace Json)
      → JsMap.has attachment.client_id w.disk.clients ≡ true
      → Serves attachment
          (some (push mutations))
          w.disk
          (handle_push config now poke_id ws attachment mutations w).0.disk
  unfolding handle_push
  handle_push-Serves poke_id ws attachment mutations w known = elim (Bool-cases attachment.ready) [
    | inr waiting ↦
        inl (ground (arith, waiting, send_error-disk config now ws attachment ws push_invalid w))
    | inl ready ↦
        let lmid = last_mutation_id w.disk attachment.client_id in
        let run = push_loop config now ws attachment mutations (count_push config now w) lmid [] in
        let advanced =
          push_loop-Advanced config now ws attachment mutations (count_push config now w) lmid []
            known refl in
        let whole : (handle_push config now poke_id ws attachment mutations w).0.disk
            ≡ run.workspace.disk =
          ground (arith, ready)
          ∙ conclude_push-disk config now poke_id ws attachment.client_id
              w.disk.meta.current_version lmid run.ending run in
        inr (
          inr (
            mutations,
            refl,
            ready,
            handle_push-History config now seen poke_id ws attachment mutations w,
            (
              length advanced.fresh,
              ap (λ d. length d.log) whole ∙ advanced.logged,
              ap (λ d. last_mutation_id d attachment.client_id) whole
                  ∙ advanced.recorded
                  ∙ advanced.reached,
            ),
          ))
  ]

  handle_hello-Serves :
      (poke_id : Text) (ws : ℕ) (attachment : Attachment Json) (msg : HelloMsg) (w : Workspace Json)
      → Serves attachment
          (some (hello msg))
          w.disk
          (handle_hello config now poke_id ws attachment msg w).0.disk
  unfolding handle_hello
  handle_hello-Serves poke_id ws attachment msg w =
      let touched : Workspace Json = record w {
        disk = touch_client now attachment.client_id w.disk;
      } in
      let mismatch =
        not (nat_beq msg.protocol_version protocol_version)
        || not (nat_beq msg.schema_version config.app.version) in
      elim (Bool-cases mismatch) [
        | inl differs ↦ inl (
            ground (
              arith,
              differs,
              close_now-disk config now ws close_version_not_supported
                  (version_not_supported_reason config now) (send_error ws version_not_supported w),
              send_error-disk config now ws attachment ws version_not_supported w,
            ))
        | inr match_both ↦
            let served : (handle_hello config now poke_id ws attachment msg w).0.disk
                ≡ touched.disk =
              ground (
                arith,
                match_both,
                welcome-disk config now poke_id ws attachment msg.cursor touched,
              ) in
            inr (inl (msg, refl, ground (arith, match_both), ground (arith, match_both), served))
      ]

  handle_message-Serves :
      (poke_id : Text) (ws : ℕ) (attachment : Attachment Json) (msg : Option (ClientMsg Json))
      (w : Workspace Json)
      → JsMap.has attachment.client_id w.disk.clients ≡ true
      → Serves attachment msg w.disk (handle_message config now poke_id ws attachment msg w).0.disk
  unfolding handle_message
  handle_message-Serves poke_id ws attachment none w known =
      inl (send_error-disk config now ws attachment ws bad_message w)
  handle_message-Serves poke_id ws attachment (some (hello msg)) w known =
      handle_hello-Serves poke_id ws attachment msg w
  handle_message-Serves poke_id ws attachment (some (presence state)) w known =
      inl (handle_presence-disk config now ws attachment state w)
  handle_message-Serves poke_id ws attachment (some (push mutations)) w known =
      handle_push-Serves poke_id ws attachment mutations w known

  -- A frame of a socket whose client is known leaves the disk as it was, unless the socket is not
  -- defunct and its stamps have not expired, and the frame is a hello of the versions that are
  -- served, which touches the client's row and nothing else, or a push on a socket that is ready,
  -- which moves the disk by the steps of a history, and the LMID that is stored for the client by as
  -- many as it adds to the log.
  pub web_socket_message-Serves :
      (poke_id : Text) (ws : ℕ) (msg : Option (ClientMsg Json)) (w : Workspace Json)
      (s : Socket Json)
      → JsMap.get ws w.sockets ≡ some s
      → JsMap.has s.attachment.client_id w.disk.clients ≡ true
      → let next = (web_socket_message config now poke_id ws msg w).disk in
        (next ≡ w.disk)
        ⊎ (s.attachment.defunct ≡ false)
          × (expired now s.attachment ≡ false)
          × (Greets s.attachment msg w.disk next ⊎ Pushes s.attachment msg w.disk next)
  unfolding web_socket_message
  web_socket_message-Serves poke_id ws msg w s there known =
      elim (Bool-cases s.attachment.defunct) [
        | inl dead ↦ inl (ground (arith, there, dead))
        | inr alive ↦ elim (Bool-cases (expired now s.attachment)) [
          | inl late ↦ inl (
              ground (
                arith,
                there,
                alive,
                late,
                close_now-disk config now ws close_refresh (auth_expired config) w,
              ))
          | inr in_time ↦
              let (handled, failed) = handle_message config now poke_id ws s.attachment msg w in
              let served : handled.disk ≡ (web_socket_message config now poke_id ws msg w).disk =
                ground (
                  arith,
                  there,
                  alive,
                  in_time,
                  send_error-disk config now ws s.attachment ws internal handled,
                ) in
              elim (subst (Serves s.attachment msg w.disk) served
                (handle_message-Serves poke_id ws s.attachment msg w known)) [
                  | inl same ↦ inl same
                  | inr changed ↦ inr (alive, in_time, changed)
                ]
        ]
      ]
