-- ===== src/Server/Pokes/Storage.antt =====
-- Delivery, closing and relaying touch no disk.
use cf_sync.Base.JsMap
use cf_sync.Base.JsMap.{JsMap}
use cf_sync.Base.Text.{Text}
use cf_sync.Base.{
  List, Option, Option-cases, [], arith, if◌then◌else◌, inl, inr, length, list_eq, nat_beq, nat_eq,
  none, pair_eq, refl, suc, zero, ℕ, ◌+◌, ◌∙◌, ◌∷◌, ◌≡◌,
}
use cf_sync.Protocol.Messages.{ServerMsg, close_refresh, presence_update}
use cf_sync.Server.Pokes.{Poke, deliver_all, send_poke}
use cf_sync.Server.Sockets.{
  Deliver, Socket, Workspace, append_frames, auth_expired, close_once, close_socket, deliver,
  deliver_within, drop_presence, make_defunct, owned_presence, ready_sockets, relay_presence,
  relay_to, send_failed, update_socket,
}
use cf_sync.Server.State.{Config}

module _ {Json : Type 0} where
  pub update_socket-disk :
      (k : ℕ) (f : Socket Json → Socket Json) (w : Workspace Json)
      → (update_socket k f w).disk ≡ w.disk
  unfolding update_socket
  update_socket-disk k f w = ground arith

  abbrev pub KeepsDisk : Deliver Json → Type 0
  KeepsDisk send =
      (k : ℕ) (frames : List (ServerMsg Json)) (w : Workspace Json)
      → (send k frames w).disk ≡ w.disk

  relay_to-disk :
      (send : Deliver Json) (from : ℕ) (frame : ServerMsg Json) (to : List ℕ) (w : Workspace Json)
      → KeepsDisk send
      → (relay_to send from frame to w).disk ≡ w.disk
  unfolding relay_to
  relay_to-disk send from frame [] w s = refl
  relay_to-disk send from frame (k ∷ to) w s =
      let next = if nat_beq k from then w else send k (frame ∷ []) w in
      ground (arith, relay_to-disk send from frame to next s, s k (frame ∷ []) w)

  pub relay_presence-disk :
      (send : Deliver Json) (from : ℕ) (client_id : Text) (principal : Option Text)
      (state : Option Json) (w : Workspace Json)
      → KeepsDisk send
      → (relay_presence send from client_id principal state w).disk ≡ w.disk
  unfolding relay_presence
  relay_presence-disk send from client_id principal state w s =
      relay_to-disk send from (presence_update client_id principal state) (ready_sockets w.sockets)
        w s

  module _ (config : Config Json) where
    pub drop_presence-disk :
        (send : Deliver Json) (k : ℕ) (w : Workspace Json)
        → KeepsDisk send
        → (drop_presence config send k w).disk ≡ w.disk
    unfolding drop_presence
    drop_presence-disk send k w s = elim (Option-cases (owned_presence k w.presence)) [
      | inl unowned ↦ ground arith
      | inr ((c, entry), owned) ↦
          let dropped : Workspace Json = record w { presence = JsMap.delete c w.presence } in
          ground (arith, relay_presence-disk send k c entry.principal none dropped s)
    ]

    pub close_socket-disk :
        (send : Deliver Json) (k code : ℕ) (reason : Text) (w : Workspace Json)
        → KeepsDisk send
        → (close_socket config send k code reason w).disk ≡ w.disk
    unfolding close_socket
    close_socket-disk send k code reason w s =
        let marked = update_socket k make_defunct w in
        update_socket-disk k (close_once code reason) (drop_presence config send k marked)
        ∙ drop_presence-disk send k marked s
        ∙ update_socket-disk k make_defunct w

    deliver_within-disk : (now fuel : ℕ) → KeepsDisk (deliver_within config now fuel)
    unfolding deliver_within
    deliver_within-disk now zero k frames w = refl
    deliver_within-disk now (suc n) k frames w = ground (
      arith,
      close_socket-disk (deliver_within config now n) k close_refresh (auth_expired config) w
          (deliver_within-disk now n),
      close_socket-disk (deliver_within config now n) k 1011 (send_failed config) w
          (deliver_within-disk now n),
      update_socket-disk k (append_frames frames) w,
    )

    pub deliver-disk : (now : ℕ) → KeepsDisk (deliver config now)
    unfolding deliver
    deliver-disk now k frames w = deliver_within-disk now (length w.presence + 1) k frames w

    deliver_all-disk :
        (now : ℕ) (frames : List (ServerMsg Json)) (to : List ℕ) (w : Workspace Json)
        → (deliver_all config now frames to w).disk ≡ w.disk
    unfolding deliver_all
    deliver_all-disk now frames [] w = refl
    deliver_all-disk now frames (k ∷ to) w =
        deliver_all-disk now frames to (deliver config now k frames w) ∙ deliver-disk now k frames w

    pub send_poke-disk :
        (now : ℕ) (poke_id : Text) (to : List ℕ) (poke : Poke Json) (w : Workspace Json)
        → (send_poke config now poke_id to poke w).disk ≡ w.disk
    unfolding send_poke
    send_poke-disk now poke_id [] poke w = refl
    send_poke-disk now poke_id (k ∷ to) poke w = deliver_all-disk now _ (k ∷ to) _
