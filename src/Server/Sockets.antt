-- ===== src/Server/Sockets.antt =====
-- The sockets of a workspace and the delivery gate: `#deliver`, `#closeSocket`, `#dropPresence` and
-- `#relayPresence` of packages/server/src/do.ts.
pub mod Gate
pub mod Fuel
use cf_sync.Base.JsMap
use cf_sync.Base.JsMap.{JsMap}
use cf_sync.Base.Text.{Text, text}
use cf_sync.Base.{
  Bool, List, Option, [], false, if◌then◌else◌, is_some, leb, length, list_eq, nat_beq, nat_eq,
  none, not, pair_eq, some, suc, true, zero, ℕ, ◌&&◌, ◌++◌, ◌+◌, ◌==◌, ◌∷◌,
}
use cf_sync.Protocol.Messages.{PatchOp, ServerMsg, close_refresh, presence_update}
use cf_sync.Protocol.Utf8.CloseReason.{truncate_close_reason}
use cf_sync.Server.State.{Attachment, Config, Disk}

-- A socket as the runtime holds it: its attachment, what was sent to it, how it was closed, and
-- whether `send` throws.
pub record Socket (Json : Type 0) : Type 0 where
  pub attachment : Attachment Json
  pub sent : List (ServerMsg Json)
  pub closed : Option (ℕ × Text)
  pub broken : Bool

pub record PresenceEntry (Json : Type 0) : Type 0 where
  pub ws : ℕ
  pub principal : Option Text
  pub state : Json

pub record Counters : Type 0 where
  pub pushes : ℕ
  pub mutations_applied : ℕ
  pub mutations_skipped : ℕ
  pub mutation_errors : ℕ
  pub pokes_sent : ℕ
  pub frames_sent : ℕ
  pub last_fanout : ℕ

-- The last bootstrap patch that was built, in its parts.
pub record Cached (Json : Type 0) : Type 0 where
  pub backend_id : Text
  pub version : ℕ
  pub parts : List (List (PatchOp Json))

pub record Workspace (Json : Type 0) : Type 0 where
  pub disk : Disk Json
  pub sockets : JsMap ℕ (Socket Json)
  pub presence : JsMap Text (PresenceEntry Json)
  pub snapshot : Option (Cached Json)
  pub counters : Counters

-- What sends frames to one socket.
abbrev pub Deliver : Type 0 → Type 0
Deliver Json = ℕ → List (ServerMsg Json) → Workspace Json → Workspace Json

module _ {Json : Type 0} where
  abbrev pub is_ready : Socket Json → Bool
  is_ready s = s.attachment.ready && not s.attachment.defunct

  -- `#readySockets`
  unfoldable pub ready_sockets : JsMap ℕ (Socket Json) → List ℕ
  ready_sockets [] = []
  ready_sockets ((k, s) ∷ rest) = if is_ready s then k ∷ ready_sockets rest else ready_sockets rest

  unfoldable pub update_socket : ℕ → (Socket Json → Socket Json) → Workspace Json → Workspace Json
  update_socket ws f w = elim (JsMap.get ws w.sockets) [
    | none ↦ w
    | some s ↦ record w { sockets = JsMap.set ws (f s) w.sockets }
  ]

  abbrev pub expired : ℕ → Attachment Json → Bool
  expired now attachment = elim attachment.expires_at [ none ↦ false | some t ↦ leb t now ]

  abbrev pub make_defunct : Socket Json → Socket Json
  make_defunct s = record s { attachment = record s.attachment { defunct = true } }

  -- `ws.close`, which throws on a socket that is closed.
  abbrev pub close_once : ℕ → Text → Socket Json → Socket Json
  close_once code reason s = record s {
    closed = elim s.closed [ none ↦ some (code, truncate_close_reason reason) | some c ↦ some c ];
  }

  abbrev pub append_frames : List (ServerMsg Json) → Socket Json → Socket Json
  append_frames frames s = record s { sent = s.sent ++ frames }

  abbrev pub count_frames : ℕ → Workspace Json → Workspace Json
  count_frames n w = record w {
    counters = record w.counters { frames_sent = w.counters.frames_sent + n };
  }

  -- The entry that `ws` owns.
  unfoldable pub owned_presence :
      ℕ → JsMap Text (PresenceEntry Json) → Option (Text × PresenceEntry Json)
  owned_presence ws [] = none
  owned_presence ws ((client_id, entry) ∷ rest) =
      if nat_beq entry.ws ws then some (client_id, entry) else owned_presence ws rest

  -- One frame to every socket of the list but `from`.
  unfoldable pub relay_to :
      Deliver Json → ℕ → ServerMsg Json → List ℕ → Workspace Json → Workspace Json
  relay_to deliver from frame [] w = w
  relay_to deliver from frame (ws ∷ rest) w =
      relay_to deliver from frame rest (if nat_beq ws from then w else deliver ws (frame ∷ []) w)

  unfoldable pub relay_presence :
      Deliver Json → ℕ → Text → Option Text → Option Json → Workspace Json → Workspace Json
  unfolding relay_to
  relay_presence deliver from client_id principal state w =
      relay_to deliver from (presence_update client_id principal state) (ready_sockets w.sockets) w

module _ {Json : Type 0} (config : Config Json) where
  unfoldable pub drop_presence : Deliver Json → ℕ → Workspace Json → Workspace Json
  unfolding owned_presence relay_presence
  drop_presence deliver ws w =
      if not (is_some config.app.presence) then w else elim (owned_presence ws w.presence) [
        | none ↦ w
        | some (client_id, entry) ↦
            relay_presence deliver ws client_id entry.principal none
              (record w { presence = JsMap.delete client_id w.presence })
      ]

  -- The defunct mark comes before the close.
  unfoldable pub close_socket : Deliver Json → ℕ → ℕ → Text → Workspace Json → Workspace Json
  unfolding update_socket drop_presence
  close_socket deliver ws code reason w =
      update_socket ws (close_once code reason)
        (drop_presence deliver ws (update_socket ws make_defunct w))

  abbrev pub auth_expired : Text
  auth_expired = text "auth-expired"

  abbrev pub send_failed : Text
  send_failed = text "send failed"

  -- A close drops a presence entry, and may deliver its absence: the fuel bounds that recursion.
  unfoldable pub deliver_within : ℕ → ℕ → Deliver Json
  unfolding close_socket
  deliver_within now zero ws frames w = w
  deliver_within now (suc n) ws frames w = elim (JsMap.get ws w.sockets) [
    | none ↦ w
    | some s ↦
        if s.attachment.defunct
        then w
        else if expired now s.attachment
        then close_socket (deliver_within now n) ws close_refresh auth_expired w
        else if s.broken
        then close_socket (deliver_within now n) ws 1011 send_failed w
        else count_frames (length frames) (update_socket ws (append_frames frames) w)
  ]

  -- `#deliver`, with one unit of fuel more than there are presence entries.
  unfoldable pub deliver : ℕ → Deliver Json
  unfolding deliver_within
  deliver now ws frames w = deliver_within now (length w.presence + 1) ws frames w
