-- ===== src/Server/Hello/Welcome.antt =====
-- What a hello that is served sends.
use cf_sync.Base.JsMap
use cf_sync.Base.JsMap.{JsMap}
use cf_sync.Base.Text.{Text}
use cf_sync.Base.{
  List, Option, [], ap, arith, false, list_eq, nat_eq, none, ok, pair_eq, some, true, ℕ, ◌++◌, ◌∙◌,
  ◌∷◌, ◌≡◌,
}
use cf_sync.Protocol.Messages.{Cursor, PatchOp, ServerMsg}
use cf_sync.Server.Handlers.{send_packed}
use cf_sync.Server.Hello.Cache.{CacheHolds, answer_patch-hello_patch}
use cf_sync.Server.Hello.{
  answer_patch, cached_bootstrap, kept_base, send_peers, welcome, make_ready,
}
use cf_sync.Server.History.{hello_patch}
use cf_sync.Server.Mutate.{last_mutation_id}
use cf_sync.Server.Pokes.{Poke, cursor_of, deliver_all, pack_ops, poke_frames, send_poke}
use cf_sync.Server.Sockets.{
  Socket, Workspace, append_frames, deliver, deliver_within, expired, update_socket,
}
use cf_sync.Server.State.{Attachment, Config, Disk}

module _ {Json : Type 0} (config : Config Json) (now : ℕ) where
  -- A socket that delivery reaches.
  abbrev pub Reachable : Socket Json → Type 0
  Reachable s =
      (s.attachment.defunct ≡ false) × (expired now s.attachment ≡ false) × (s.broken ≡ false)

  get-update_socket :
      (ws : ℕ) (f : Socket Json → Socket Json) (w : Workspace Json) (s : Socket Json)
      → JsMap.get ws w.sockets ≡ some s
      → JsMap.get ws (update_socket ws f w).sockets ≡ some (f s)
  unfolding update_socket
  get-update_socket ws f w s there = ground (arith, JsMap.get-set_self ws (f s) w.sockets)

  deliver-reaches :
      (ws : ℕ) (frames : List (ServerMsg Json)) (w : Workspace Json) (s : Socket Json)
      → JsMap.get ws w.sockets ≡ some s
      → Reachable s
      → JsMap.get ws (deliver config now ws frames w).sockets ≡ some (append_frames frames s)
  unfolding deliver deliver_within update_socket
  deliver-reaches ws frames w s there (alive, in_time, sound) =
      ground (arith, JsMap.get-set_self ws (append_frames frames s) w.sockets)

  send_poke-reaches :
      (poke_id : Text) (ws : ℕ) (poke : Poke Json) (w : Workspace Json) (s : Socket Json)
      → JsMap.get ws w.sockets ≡ some s
      → Reachable s
      → JsMap.get ws (send_poke config now poke_id (ws ∷ []) poke w).sockets
        ≡ some (append_frames (poke_frames poke_id (cursor_of w.disk.meta) poke) s)
  unfolding send_poke deliver_all
  send_poke-reaches poke_id ws poke w s there reachable =
      deliver-reaches ws (poke_frames poke_id (cursor_of w.disk.meta) poke) _ s there reachable

  answer_patch-keeps :
      (cursor : Option Cursor) (w : Workspace Json)
      → ((answer_patch config now cursor w).1.disk ≡ w.disk)
        × ((answer_patch config now cursor w).1.sockets ≡ w.sockets)
  unfolding answer_patch cached_bootstrap
  answer_patch-keeps none w = (ground arith, ground arith)
  answer_patch-keeps (some cursor) w = (ground arith, ground arith)

  -- The poke that answers a hello.
  abbrev pub hello_poke :
      Attachment Json → Option Cursor → List (List (PatchOp Json)) → Disk Json → Poke Json
  hello_poke attachment cursor parts disk = record {
    base_cursor = kept_base cursor disk.meta;
    parts = parts;
    last_mutation_id_changes =
        (attachment.client_id, last_mutation_id disk attachment.client_id) ∷ [];
    mutation_results = [];
  }

  -- Where the app declares no presence and the cache holds, a hello that is served on a socket that
  -- delivery reaches, and whose patch packs, leaves the socket ready, and sent exactly the
  -- frames of the poke that carries the patch for the hello's cursor.
  pub welcome-sends :
      (poke_id : Text) (ws : ℕ) (cursor : Option Cursor) (w : Workspace Json) (s : Socket Json)
      (parts : List (List (PatchOp Json)))
      → config.app.presence ≡ none
      → JsMap.get ws w.sockets ≡ some s
      → Reachable s
      → CacheHolds config w
      → pack_ops config (hello_patch cursor w.disk) ≡ ok parts
      → JsMap.get ws (welcome config now poke_id ws s.attachment cursor w).0.sockets
        ≡ some (record s {
          attachment = record s.attachment { ready = true };
          sent =
              s.sent
              ++ poke_frames poke_id
                  (cursor_of w.disk.meta)
                  (hello_poke s.attachment cursor parts w.disk);
        })
  unfolding welcome send_packed send_peers
  welcome-sends poke_id ws cursor w s parts quiet there reachable cache packs =
      let answered = (answer_patch config now cursor w).1 in
      let (disk, sockets) = answer_patch-keeps cursor w in
      let packed : (answer_patch config now cursor w).0 ≡ ok parts =
        (answer_patch-hello_patch config now cursor w cache).0 ∙ packs in
      let poke = hello_poke s.attachment cursor parts w.disk in
      let poked =
        send_poke-reaches poke_id ws poke answered s (ap (JsMap.get ws) sockets ∙ there)
          reachable in
      let sent = send_poke config now poke_id (ws ∷ []) poke answered in
      let ready = make_ready config now s.attachment in
      let whole : (welcome config now poke_id ws s.attachment cursor w).0
          ≡ update_socket ws ready sent =
        ground (arith, packed, quiet) in
      ap (λ v. JsMap.get ws v.sockets) whole
      ∙ get-update_socket ws ready sent
          (append_frames (poke_frames poke_id (cursor_of answered.disk.meta) poke) s) poked
      ∙ ap (λ d. some (ready (append_frames (poke_frames poke_id (cursor_of d.meta) poke) s))) disk
