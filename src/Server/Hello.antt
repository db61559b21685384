-- ===== src/Server/Hello.antt =====
-- `#handleHello` and `#bootstrapPatch` of packages/server/src/do.ts.
pub mod Cache
pub mod Welcome
use cf_sync.Base.JsMap.{JsMap}
use cf_sync.Base.Text.{Text, text}
use cf_sync.Base.{
  Bool, List, Option, [], err, false, if◌then◌else◌, is_some, list_beq, list_eq, nat_beq, nat_eq,
  none, not, ok, pair_eq, some, true, ℕ, ◌&&◌, ◌||◌, ◌∷◌, ◌==◌,
}
use cf_sync.Protocol.Messages.{
  Cursor, HelloMsg, PresencePeer, close_version_not_supported, presence_peers, protocol_version,
  version_not_supported, presence,
}
use cf_sync.Server.Handlers.{Packed, send_error, send_packed}
use cf_sync.Server.History.{cursor_valid}
use cf_sync.Server.Mutate.{last_mutation_id, touch_client}
use cf_sync.Server.Patch.{bootstrap_patch, patch_since}
use cf_sync.Server.Pokes.{pack_ops}
use cf_sync.Server.Sockets.{
  Cached, PresenceEntry, Socket, Workspace, close_socket, deliver, update_socket,
}
use cf_sync.Server.State.{Attachment, Config, Meta}

-- The base cursor of the poke that answers a hello.
abbrev pub kept_base : Option Cursor → Meta → Option Cursor
kept_base cursor meta = if cursor_valid cursor meta then cursor else none

module _ {Json : Type 0} where
  -- `#bootstrapPatch`: the parts of the cached snapshot where it is current.
  abbrev pub is_current : Meta → Cached Json → Bool
  is_current meta cached =
      list_beq cached.backend_id meta.backend_id && nat_beq cached.version meta.current_version

  abbrev pub store_snapshot : Workspace Json → Packed Json → Packed Json × Workspace Json
  store_snapshot w (err oversize) = (err oversize, w)
  store_snapshot w (ok parts) = (
    ok parts,
    record w {
      snapshot = some (record {
        backend_id = w.disk.meta.backend_id;
        version = w.disk.meta.current_version;
        parts = parts;
      });
    },
  )

module _ {Json : Type 0} (config : Config Json) (now : ℕ) where
  unfoldable pub cached_bootstrap : Workspace Json → Packed Json × Workspace Json
  cached_bootstrap w =
      let built = store_snapshot w (pack_ops config (bootstrap_patch w.disk.rows)) in
      elim w.snapshot [
        | none ↦ built
        | some cached ↦ if is_current w.disk.meta cached then (ok cached.parts, w) else built
      ]

  -- The patch that answers a hello, by way of the cache.
  unfoldable pub answer_patch : Option Cursor → Workspace Json → Packed Json × Workspace Json
  unfolding cached_bootstrap
  answer_patch none w = cached_bootstrap w
  answer_patch (some cursor) w =
      if cursor_valid (some cursor) w.disk.meta
      then (pack_ops config (patch_since cursor.version w.disk.rows), w)
      else cached_bootstrap w

  abbrev pub peers_but : Text → JsMap Text (PresenceEntry Json) → List (PresencePeer Json)
  peers_but client_id [] = []
  peers_but client_id ((k, entry) ∷ rest) =
      if list_beq k client_id
      then peers_but client_id rest
      else record { client_id = k; principal = entry.principal; state = entry.state }
        ∷ peers_but client_id rest

  abbrev pub make_ready : Attachment Json → Socket Json → Socket Json
  make_ready attachment s = record s { attachment = record attachment { ready = true } }

  unfoldable pub send_peers : ℕ → Attachment Json → Workspace Json → Workspace Json
  send_peers ws attachment w =
      if is_some config.app.presence
      then deliver config now ws (presence_peers (peers_but attachment.client_id w.presence) ∷ []) w
      else w

  abbrev pub version_not_supported_reason : Text
  version_not_supported_reason = text "VersionNotSupported"

  unfoldable pub close_now : ℕ → ℕ → Text → Workspace Json → Workspace Json
  close_now ws code reason w = close_socket config (deliver config now) ws code reason w

  -- The poke of a hello that is served, then the ready mark and the peers.
  unfoldable pub welcome :
      Text → ℕ → Attachment Json → Option Cursor → Workspace Json → Workspace Json × Bool
  unfolding answer_patch send_packed send_peers
  welcome poke_id ws attachment cursor touched =
      let (packed, answered) = answer_patch cursor touched in
      let (poked, failed) =
        send_packed config now poke_id (ws ∷ []) (kept_base cursor touched.disk.meta) packed
          ((attachment.client_id, last_mutation_id touched.disk attachment.client_id) ∷ []) []
          answered in
      if failed
      then (poked, true)
      else (send_peers ws attachment (update_socket ws (make_ready attachment) poked), false)

  unfoldable pub handle_hello :
      Text → ℕ → Attachment Json → HelloMsg → Workspace Json → Workspace Json × Bool
  unfolding welcome send_error close_now
  handle_hello poke_id ws attachment msg w =
      if not (nat_beq msg.protocol_version protocol_version)
        || not (nat_beq msg.schema_version config.app.version)
      then (
        close_now ws close_version_not_supported version_not_supported_reason
            (send_error ws version_not_supported w),
        false,
      )
      else welcome poke_id ws attachment msg.cursor
          (record w { disk = touch_client now attachment.client_id w.disk })
