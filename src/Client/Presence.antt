-- ===== src/Client/Presence.antt =====
-- Presence in packages/client/src/client.ts: what the peers say, and what the client answers.
use cf_sync.Base.JsMap
use cf_sync.Base.JsMap.{JsMap}
use cf_sync.Base.Text.{Text}
use cf_sync.Base.{
  List, Option, [], false, if◌then◌else◌, list_beq, list_eq, nat_eq, none, pair_eq, some, true,
  ◌&&◌, ◌∷◌,
}
use cf_sync.Client.{SyncClient, send}
use cf_sync.Protocol.Messages.{PresencePeer, presence}

module _ {Json : Type 0} where
  -- `#sendPresence`
  unfoldable pub send_presence : SyncClient Json → SyncClient Json
  unfolding send
  send_presence c = elim c.presence_state [
    | none ↦ c
    | some state ↦ if c.presence_live && c.connected then send (presence state) c else c
  ]

  -- `#presenceState !== undefined && #presenceState !== null`
  abbrev pub announce : SyncClient Json → SyncClient Json
  announce c = elim c.presence_state [
    | none ↦ c
    | some state ↦ elim state [ none ↦ c | some s ↦ send_presence c ]
  ]

  -- `#applyPeerUpdate`
  unfoldable pub apply_peer_update :
      Text → Option Text → Option Json → SyncClient Json → SyncClient Json
  apply_peer_update client_id principal none c =
      if list_beq client_id c.client_id
      then c
      else record c { presence_peers = JsMap.delete client_id c.presence_peers }
  apply_peer_update client_id principal (some state) c =
      if list_beq client_id c.client_id then c else record c {
        presence_peers =
            JsMap.set client_id
              (record { client_id = client_id; principal = principal; state = state })
              c.presence_peers;
      }

  abbrev pub other_peers :
      Text
      → List (PresencePeer Json)
      → JsMap Text (PresencePeer Json)
      → JsMap Text (PresencePeer Json)
  other_peers own [] peers = peers
  other_peers own (peer ∷ rest) peers =
      other_peers own rest
        (if list_beq peer.client_id own then peers else JsMap.set peer.client_id peer peers)

  unfoldable pub on_presence_peers : List (PresencePeer Json) → SyncClient Json → SyncClient Json
  unfolding send_presence
  on_presence_peers peers c =
      announce
        (record c { presence_live = true; presence_peers = other_peers c.client_id peers [] })

  unfoldable pub on_presence_poll : SyncClient Json → SyncClient Json
  unfolding send_presence
  on_presence_poll c = announce c

  -- `#presenceDisconnected`
  abbrev pub presence_disconnected : SyncClient Json → SyncClient Json
  presence_disconnected c = record c { presence_live = false; presence_peers = [] }
