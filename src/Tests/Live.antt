-- ===== src/Tests/Live.antt =====
-- The handlers' theorems on a workspace with a live and a closed socket.
use cf_sync.Base.JsMap
use cf_sync.Base.JsMap.{JsMap}
use cf_sync.Base.Text.{text, Text}
use cf_sync.Base.{
  [], arith, list_eq, nat_eq, none, ok, pair_eq, refl, some, true, ◌∷◌, ◌≡◌, List, ◌++◌, false, ◌⊎◌,
}
use cf_sync.Protocol.Chunk.{chunk_by_size, chunk_loop, must_flush, op_bytes}
use cf_sync.Protocol.Messages.{clear, presence_poll, push, PatchOp}
use cf_sync.Protocol.Utf8.{byte_length_loop, utf8_byte_length}
use cf_sync.Server.Handlers.Push.{Advanced, push_loop-Advanced}
use cf_sync.Server.Handlers.Replay.{confirmation, handle_push-replay}
use cf_sync.Server.Handlers.{committed, push_loop, handle_push}
use cf_sync.Server.Hello.Cache.{
  CacheHolds, SnapshotFollows, answer_patch-hello_patch, committed-CacheHolds,
}
use cf_sync.Server.Hello.Welcome.{hello_poke, welcome-sends}
use cf_sync.Server.Hello.{answer_patch, welcome}
use cf_sync.Server.History.{hello_patch}
use cf_sync.Server.Inbound.Heard.{Greets, Pushes, web_socket_message-Serves}
use cf_sync.Server.Inbound.{web_socket_message}
use cf_sync.Server.Mutate.{last_mutation_id}
use cf_sync.Server.Patch.{bootstrap_patch}
use cf_sync.Server.Pokes.{pack_ops, cursor_of, poke_frames}
use cf_sync.Server.Sockets.Fuel.{deliver_within-enough}
use cf_sync.Server.Sockets.Gate.{Silent, deliver_within-Silent}
use cf_sync.Server.Sockets.{deliver_within, Workspace, append_frames, expired}
use cf_sync.Server.State.{Config}
use cf_sync.Tests.Fixture.{
  add_milk, add_milk-commits, alice, attachment, config, empty_disk, milk_disk, milk_effects,
  socket, workspace,
}

alice_known : JsMap.has alice empty_disk.clients ≡ true
unfolding JsMap.get
alice_known = refl

no_mutations_yet : last_mutation_id empty_disk alice ≡ 0
unfolding last_mutation_id JsMap.get
no_mutations_yet = refl

push_loop-Advanced_example :
    Advanced config 5 7 attachment workspace 0 []
      (push_loop config 5 7 attachment (add_milk ∷ []) workspace 0 [])
push_loop-Advanced_example =
    push_loop-Advanced config 5 7 attachment (add_milk ∷ []) workspace 0 [] alice_known
      no_mutations_yet

-- The workspace after the milk was added, which is sent again.
abbrev milk_workspace : Workspace Text
milk_workspace = record workspace { disk = milk_disk }

alice_at_one : last_mutation_id milk_disk alice ≡ 1
unfolding last_mutation_id JsMap.get
alice_at_one = refl

socket_there : JsMap.get 7 milk_workspace.sockets ≡ some socket
unfolding JsMap.get
socket_there = refl

handle_push-replay_example :
    let (after, failed) =
      handle_push config 5 (text "p1") 7 socket.attachment (add_milk ∷ []) milk_workspace in
    (failed ≡ false)
    × (after.disk ≡ milk_workspace.disk)
    × (after.sockets
        ≡ JsMap.set 7
            (append_frames
              (poke_frames
                (text "p1")
                (cursor_of milk_workspace.disk.meta)
                (confirmation config 5 socket.attachment milk_workspace.disk))
              socket)
            milk_workspace.sockets)
handle_push-replay_example =
    handle_push-replay config 5 (text "p1") 7 (add_milk ∷ []) milk_workspace socket socket_there
      (refl, refl, refl) refl (omega (arith, alice_at_one), tt)

socket_here : JsMap.get 7 workspace.sockets ≡ some socket
unfolding JsMap.get
socket_here = refl

web_socket_message-Serves_example :
    let msg = some (push (add_milk ∷ [])) in
    let next = (web_socket_message config 5 (text "p1") 7 msg workspace).disk in
    (next ≡ workspace.disk)
    ⊎ (socket.attachment.defunct ≡ false)
      × (expired 5 socket.attachment ≡ false)
      × (Greets config 5 (text "b0") socket.attachment msg workspace.disk next
          ⊎ Pushes config 5 (text "b0") socket.attachment msg workspace.disk next)
web_socket_message-Serves_example =
    web_socket_message-Serves config 5 (text "b0") (text "p1") 7 (some (push (add_milk ∷ [])))
      workspace socket socket_here alice_known

no_cache : CacheHolds config workspace
no_cache cached there current = absurd (ground arith)

answer_patch-hello_patch_example :
    ((answer_patch config 5 none workspace).0 ≡ pack_ops config (hello_patch none workspace.disk))
    × CacheHolds config (answer_patch config 5 none workspace).1
answer_patch-hello_patch_example = answer_patch-hello_patch config 5 none workspace no_cache

committed-CacheHolds_example :
    CacheHolds config (committed config 5 workspace milk_disk milk_effects)
    × SnapshotFollows config workspace (committed config 5 workspace milk_disk milk_effects)
committed-CacheHolds_example =
    committed-CacheHolds config 5 attachment add_milk workspace milk_disk milk_effects no_cache
      add_milk-commits

clear_packs : pack_ops config (clear ∷ []) ≡ ok ((clear ∷ []) ∷ [])
unfolding pack_ops chunk_by_size chunk_loop must_flush op_bytes utf8_byte_length byte_length_loop
clear_packs = refl

abbrev only_clear : List (PatchOp Text)
only_clear = clear ∷ []

closed_socket-Silent : Silent 8 [] workspace
unfolding JsMap.get
closed_socket-Silent =
    (record socket { attachment = record attachment { defunct = true } }, refl, refl, refl)

deliver_within-Silent_example :
    Silent 8 [] (deliver_within config 5 2 8 (presence_poll ∷ []) workspace)
deliver_within-Silent_example =
    deliver_within-Silent config 5 2 8 8 [] (presence_poll ∷ []) workspace closed_socket-Silent

deliver_within-enough_example :
    deliver_within config 5 2 7 (presence_poll ∷ []) workspace
    ≡ deliver_within config 5 9 7 (presence_poll ∷ []) workspace
deliver_within-enough_example =
    deliver_within-enough config 5 2 9 7 (presence_poll ∷ []) workspace (omega arith) (omega arith)

abbrev quiet_config : Config Text
quiet_config = record config { app = record config.app { presence = none } }

workspace_packs : pack_ops quiet_config (hello_patch none workspace.disk) ≡ ok (only_clear ∷ [])
unfolding pack_ops chunk_by_size chunk_loop must_flush op_bytes utf8_byte_length byte_length_loop
    hello_patch bootstrap_patch
workspace_packs = refl

quiet_no_cache : CacheHolds quiet_config workspace
quiet_no_cache cached there current = absurd (ground arith)

welcome-sends_example :
    JsMap.get 7 (welcome quiet_config 5 (text "p1") 7 socket.attachment none workspace).0.sockets
    ≡ some (record socket {
      attachment = record socket.attachment { ready = true };
      sent =
          socket.sent
          ++ poke_frames
              (text "p1")
              (cursor_of workspace.disk.meta)
              (hello_poke quiet_config 5 socket.attachment none (only_clear ∷ []) workspace.disk);
    })
unfolding JsMap.get
welcome-sends_example =
    welcome-sends quiet_config 5 (text "p1") 7 none workspace socket (only_clear ∷ []) refl refl
      (refl, refl, refl) quiet_no_cache workspace_packs
