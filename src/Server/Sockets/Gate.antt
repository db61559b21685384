-- ===== src/Server/Sockets/Gate.antt =====
-- The delivery gate: a socket that the workspace has closed is sent nothing more, and the fuel of
-- `deliver` is enough.
use cf_sync.Base.JsMap
use cf_sync.Base.JsMap.{JsMap}
use cf_sync.Base.Text.{Text}
use cf_sync.Base.{
  Bool-cases, List, Option-cases, [], inl, inr, is_some, list_eq, nat_beq, nat_eq, none, pair_eq,
  refl, some, suc, true, zero, ℕ, ◌∙◌, ◌∷◌, ◌≡◌, arith, false, if◌then◌else◌, length, subst,
}
use cf_sync.Protocol.Messages.{ServerMsg, presence_update, close_refresh}
use cf_sync.Server.Sockets.{
  Deliver, Socket, Workspace, close_once, close_socket, deliver_within, drop_presence, make_defunct,
  owned_presence, ready_sockets, relay_presence, relay_to, update_socket, append_frames,
  auth_expired, expired, send_failed, count_frames,
}
use cf_sync.Server.State.{Config}

module _ {Json : Type 0} where
  -- `ws` is marked defunct and has been sent `sent`.
  abbrev pub Silent : ℕ → List (ServerMsg Json) → Workspace Json → Type 0
  Silent ws sent w =
      (s : Socket Json) × (JsMap.get ws w.sockets ≡ some s)
      × (s.attachment.defunct ≡ true)
      × (s.sent ≡ sent)

  -- A change of sockets that keeps marks and sends nothing keeps a silent socket silent.
  update_socket-Silent :
      (ws k : ℕ) (sent : List (ServerMsg Json)) (f : Socket Json → Socket Json) (w : Workspace Json)
      → ((s : Socket Json)
          → s.attachment.defunct ≡ true
          → ((f s).attachment.defunct ≡ true) × ((f s).sent ≡ s.sent))
      → Silent ws sent w
      → Silent ws sent (update_socket k f w)
  unfolding update_socket
  update_socket-Silent ws k sent f w keeps (s, e, d, q) =
      elim (Option-cases (JsMap.get k w.sockets)) [
        | inl none_there ↦ (s, ground arith, d, q)
        | inr (t, there) ↦ elim (Bool-cases (nat_beq k ws)) [
          | inl same ↦ (
            f s,
            ground (arith, JsMap.get-set k ws (f t) w.sockets),
            (keeps s d).0,
            (keeps s d).1 ∙ q,
          )
          | inr other ↦ (s, ground (arith, JsMap.get-set k ws (f t) w.sockets), d, q)
        ]
      ]

  -- So does sending to a socket that is not defunct.
  send-Silent :
      (ws k : ℕ) (sent frames : List (ServerMsg Json)) (w : Workspace Json) {t : Socket Json}
      → JsMap.get k w.sockets ≡ some t
      → t.attachment.defunct ≡ false
      → Silent ws sent w
      → Silent ws sent (update_socket k (append_frames frames) w)
  unfolding update_socket
  send-Silent ws k sent frames w {t} there open_one (s, e, d, q) =
      (s, ground (arith, JsMap.get-set k ws (append_frames frames t) w.sockets), d, q)

  -- A way to deliver that keeps silent sockets silent.
  abbrev pub Quiet : Deliver Json → Type 0
  Quiet send =
      (ws k : ℕ) (sent frames : List (ServerMsg Json)) (w : Workspace Json)
      → Silent ws sent w
      → Silent ws sent (send k frames w)

  relay_to-Silent :
      (send : Deliver Json) (ws from : ℕ) (sent : List (ServerMsg Json)) (frame : ServerMsg Json)
      (to : List ℕ) (w : Workspace Json)
      → Quiet send
      → Silent ws sent w
      → Silent ws sent (relay_to send from frame to w)
  unfolding relay_to
  relay_to-Silent send ws from sent frame [] w quiet s = s
  relay_to-Silent send ws from sent frame (k ∷ to) w quiet s =
      relay_to-Silent send ws from sent frame to
        (if nat_beq k from then w else send k (frame ∷ []) w) quiet
        (elim (Bool-cases (nat_beq k from)) [
          | inl skip ↦ rw skip s
          | inr it ↦ rw it (quiet ws k sent (frame ∷ []) w s)
        ])

  module _ (config : Config Json) where
    close_socket-Silent :
        (send : Deliver Json) (ws k code : ℕ) (reason : Text) (sent : List (ServerMsg Json))
        (w : Workspace Json)
        → Quiet send
        → Silent ws sent w
        → Silent ws sent (close_socket config send k code reason w)
    unfolding close_socket drop_presence relay_presence
    close_socket-Silent send ws k code reason sent w quiet s =
        let marked = update_socket k make_defunct w in
        let marked_silent = update_socket-Silent ws k sent make_defunct w (λ s d. (refl, refl)) s in
        update_socket-Silent ws k sent (close_once code reason) (drop_presence config send k marked)
          (λ s d. (d, refl))
          (elim (Bool-cases (is_some config.app.presence)) [
            | inr off ↦ rw off marked_silent
            | inl on ↦ elim (Option-cases (owned_presence k marked.presence)) [
              | inl unowned ↦ rw (on, unowned) marked_silent
              | inr ((client_id, entry), owned) ↦ rw on (
                  rw owned (
                    relay_to-Silent send ws k sent (presence_update client_id entry.principal none)
                      (ready_sockets marked.sockets)
                      (record marked { presence = JsMap.delete client_id marked.presence }) quiet
                      marked_silent))
            ]
          ])

    -- No delivery to any socket, with any fuel, sends to a socket that is marked defunct or clears its mark.
    pub deliver_within-Silent : (now fuel : ℕ) → Quiet (deliver_within config now fuel)
    unfolding deliver_within
    deliver_within-Silent now zero ws k sent frames w s = s
    deliver_within-Silent now (suc n) ws k sent frames w s =
        let reached : (result : Workspace Json)
            → result ≡ deliver_within config now (suc n) k frames w
            → Silent ws sent result
            → Silent ws sent (deliver_within config now (suc n) k frames w) =
          λ result e q. subst (Silent ws sent) e q in
        let inner = deliver_within-Silent now n in
        elim (Option-cases (JsMap.get k w.sockets)) [
          | inl gone ↦ reached w (ground arith) s
          | inr (t, there) ↦ elim (Bool-cases t.attachment.defunct) [
            | inl dead ↦ reached w (ground arith) s
            | inr alive ↦ elim (Bool-cases (expired now t.attachment)) [
              | inl late ↦
                  reached
                    (close_socket config (deliver_within config now n) k close_refresh
                      (auth_expired config) w)
                    (ground arith)
                    (close_socket-Silent (deliver_within config now n) ws k close_refresh
                      (auth_expired config) sent w inner s)
              | inr in_time ↦ elim (Bool-cases t.broken) [
                | inl bad ↦
                    reached
                      (close_socket config (deliver_within config now n) k 1011 (send_failed config)
                        w)
                      (ground arith)
                      (close_socket-Silent (deliver_within config now n) ws k 1011
                        (send_failed config) sent w inner s)
                | inr good ↦
                    reached
                      (count_frames (length frames) (update_socket k (append_frames frames) w))
                      (ground arith) (send-Silent ws k sent frames w there alive s)
              ]
            ]
          ]
        ]
