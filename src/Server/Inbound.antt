-- ===== src/Server/Inbound.antt =====
-- Presence, the routing of a text frame, and the ends of a socket (packages/server/src/do.ts).
pub mod Quiet
pub mod Traffic
pub mod Heard
use cf_sync.Base.JsMap
use cf_sync.Base.JsMap.{JsMap}
use cf_sync.Base.Text.{Text, text}
use cf_sync.Base.{
  Bool, List, Option, Result, [], err, false, if◌then◌else◌, list_beq, list_eq, ltb, nat_eq, none,
  not, ok, pair_eq, some, true, ℕ, ◌&&◌, ◌+◌, ◌==◌, ◌∷◌,
}
use cf_sync.Protocol.Messages.{
  ClientMsg, bad_message, close_refresh, close_superseded, hello, internal, max_presence_bytes,
  presence, presence_invalid, push,
}
use cf_sync.Protocol.Mutators.{Validation, Validator, issues, promise, value}
use cf_sync.Protocol.Utf8.{json_byte_size}
use cf_sync.Server.Handlers.{handle_push, send_error}
use cf_sync.Server.Hello.{close_now, handle_hello}
use cf_sync.Server.Mutate.{parsed}
use cf_sync.Server.Sockets.{
  Socket, Workspace, auth_expired, deliver, drop_presence, expired, relay_presence,
}
use cf_sync.Server.State.{Attachment, Config}

module _ {Json : Type 0} (config : Config Json) (now : ℕ) where
  -- `#handlePresence`
  abbrev pub parsed_presence : Validation Json → Option Json
  parsed_presence promise = none
  parsed_presence issues = none
  parsed_presence (value state) = some state

  -- The state to relay (none of it clears), or a refusal.
  unfoldable pub accept_presence : Validator Json → Option Json → Result (Unit {0}) (Option Json)
  accept_presence validate none = ok none
  accept_presence validate (some state) =
      if ltb max_presence_bytes (json_byte_size config.ops.stringify state)
      then err tt
      else elim (parsed_presence (validate state)) [
        | none ↦ err tt
        | some parsed ↦ ok (some parsed)
      ]

  unfoldable pub set_presence : ℕ → Attachment Json → Option Json → Workspace Json → Workspace Json
  unfolding relay_presence
  set_presence ws attachment none w =
      if not (JsMap.has attachment.client_id w.presence)
      then w
      else relay_presence (deliver config now) ws attachment.client_id attachment.principal none
          (record w { presence = JsMap.delete attachment.client_id w.presence })
  set_presence ws attachment (some state) w =
      relay_presence (deliver config now) ws attachment.client_id attachment.principal (some state)
        (record w {
          presence =
              JsMap.set attachment.client_id
                (record { ws = ws; principal = attachment.principal; state = state }) w.presence;
        })

  unfoldable pub handle_presence :
      ℕ → Attachment Json → Option Json → Workspace Json → Workspace Json
  unfolding accept_presence set_presence send_error
  handle_presence ws attachment state w = elim config.app.presence [
    | none ↦ send_error ws presence_invalid w
    | some validate ↦
        if not attachment.ready
        then send_error ws presence_invalid w
        else elim (accept_presence validate state) [
          | err refused ↦ send_error ws presence_invalid w
          | ok accepted ↦ set_presence ws attachment accepted w
        ]
  ]

  -- A text frame once parsed; none is a frame that is no message of the protocol.
  unfoldable pub handle_message :
      Text → ℕ → Attachment Json → Option (ClientMsg Json) → Workspace Json → Workspace Json × Bool
  unfolding handle_hello handle_presence handle_push send_error
  handle_message poke_id ws attachment none w = (send_error ws bad_message w, false)
  handle_message poke_id ws attachment (some (hello msg)) w =
      handle_hello config now poke_id ws attachment msg w
  handle_message poke_id ws attachment (some (presence state)) w =
      (handle_presence ws attachment state w, false)
  handle_message poke_id ws attachment (some (push mutations)) w =
      handle_push config now poke_id ws attachment mutations w

  -- `webSocketMessage` of a workspace that initialized.
  unfoldable pub web_socket_message :
      Text → ℕ → Option (ClientMsg Json) → Workspace Json → Workspace Json
  unfolding handle_message close_now
  web_socket_message poke_id ws msg w = elim (JsMap.get ws w.sockets) [
    | none ↦ w
    | some s ↦
        if s.attachment.defunct
        then w
        else if expired now s.attachment
        then close_now config now ws close_refresh (auth_expired config) w
        else let (handled, failed) = handle_message poke_id ws s.attachment msg w in
          if failed then send_error ws internal handled else handled
  ]

  -- `webSocketClose` and `webSocketError`: the runtime drops the socket.
  unfoldable pub web_socket_close : ℕ → Workspace Json → Workspace Json
  web_socket_close ws w =
      let dropped = drop_presence config (deliver config now) ws w in
      record dropped { sockets = JsMap.delete ws dropped.sockets }

  -- The supersede rule of an upgrade, then the new socket.
  unfoldable pub supersede : Text → List (ℕ × Socket Json) → Workspace Json → Workspace Json
  unfolding close_now
  supersede client_id [] w = w
  supersede client_id ((ws, s) ∷ rest) w = supersede client_id rest (
      if list_beq s.attachment.client_id client_id
      then close_now config now ws close_superseded (text "superseded") w
      else w)

  unfoldable pub accept_socket : ℕ → Attachment Json → Bool → Workspace Json → Workspace Json
  unfolding supersede
  accept_socket ws attachment broken w =
      let w' = supersede attachment.client_id w.sockets w in
      record w' {
        sockets =
            JsMap.set ws
              (record {
                attachment = record attachment { ready = false; defunct = false };
                sent = [];
                closed = none;
                broken = broken;
              })
              w'.sockets;
      }

  -- `POST disconnect`: every selector that is given has to match.
  abbrev pub matches : Option Text → Option Text → Bool
  matches none found = true
  matches (some wanted) none = false
  matches (some wanted) (some found) = list_beq found wanted

  unfoldable pub disconnect :
      (principal client_id : Option Text)
      → ℕ
      → Text
      → List (ℕ × Socket Json)
      → Workspace Json
      → Workspace Json × ℕ
  unfolding close_now
  disconnect principal client_id code reason [] w = (w, 0)
  disconnect principal client_id code reason ((ws, s) ∷ rest) w =
      if matches principal s.attachment.principal && matches client_id (some s.attachment.client_id)
      then (let (w', n) =
            disconnect principal client_id code reason rest
              (close_now config now ws code reason w) in
          (w', n + 1))
      else disconnect principal client_id code reason rest w
