-- ===== src/Server/Sockets/Fuel.antt =====
-- The fuel of `deliver` is enough: with more than one unit for every presence entry the recursion
-- never runs out, so any such amount gives the same result.
use cf_sync.Base.JsMap
use cf_sync.Base.JsMap.{JsMap}
use cf_sync.Base.Text.{Text}
use cf_sync.Base.{
  Bool-cases, List, Option-cases, [], ap, arith, eq_iff, if◌then◌else◌, inl, inr, length, list_eq,
  nat_beq, nat_eq, none, pair_eq, refl, some, suc, zero, ℕ, ◌<◌, ◌∷◌, ◌≡◌, ◌≤◌,
}
use cf_sync.Protocol.Messages.{ServerMsg, close_refresh, presence_update}
use cf_sync.Server.Sockets.{
  Deliver, PresenceEntry, Socket, Workspace, append_frames, auth_expired, close_once, close_socket,
  deliver_within, drop_presence, make_defunct, owned_presence, ready_sockets, relay_presence,
  relay_to, send_failed, update_socket,
}
use cf_sync.Server.State.{Config}

module _ {Json : Type 0} where
  abbrev entries : Workspace Json → ℕ
  entries w = length w.presence

  entries-update_socket :
      (k : ℕ) (f : Socket Json → Socket Json) (w : Workspace Json)
      → entries (update_socket k f w) ≡ entries w
  unfolding update_socket
  entries-update_socket k f w = ground arith

  length-delete :
      (c : Text) (m : JsMap Text (PresenceEntry Json)) → length (JsMap.delete c m) ≤ length m
  unfolding JsMap.delete
  length-delete c [] = omega arith
  length-delete c ((j, v) ∷ m) = ground (arith, length-delete c m)

  length-delete_owned :
      (k : ℕ) (m : JsMap Text (PresenceEntry Json)) {c : Text} {entry : PresenceEntry Json}
      → owned_presence k m ≡ some (c, entry)
      → length (JsMap.delete c m) < length m
  unfolding JsMap.delete owned_presence
  length-delete_owned k [] {c} {entry} e = absurd (ground arith)
  length-delete_owned k ((j, v) ∷ m) {c} {entry} e = elim (Bool-cases (nat_beq v.ws k)) [
    | inl hit ↦ ground (arith, length-delete c m, eq_iff j c)
    | inr further ↦
        ground (arith, length-delete c m, length-delete_owned k m {c = c} {entry = entry})
  ]

  abbrev Shrinks : Deliver Json → Type 0
  Shrinks send =
      (k : ℕ) (frames : List (ServerMsg Json)) (w : Workspace Json)
      → entries (send k frames w) ≤ entries w

  abbrev AgreeBelow : ℕ → Deliver Json → Deliver Json → Type 0
  AgreeBelow bound f g =
      (k : ℕ) (frames : List (ServerMsg Json)) (w : Workspace Json)
      → entries w < bound
      → f k frames w ≡ g k frames w

  entries-relay_to :
      (send : Deliver Json) (from : ℕ) (frame : ServerMsg Json) (to : List ℕ) (w : Workspace Json)
      → Shrinks send
      → entries (relay_to send from frame to w) ≤ entries w
  unfolding relay_to
  entries-relay_to send from frame [] w s = omega arith
  entries-relay_to send from frame (k ∷ to) w s =
      let next = if nat_beq k from then w else send k (frame ∷ []) w in
      ground (arith, entries-relay_to send from frame to next s, s k (frame ∷ []) w)

  relay_to-agree :
      (f g : Deliver Json) (bound from : ℕ) (frame : ServerMsg Json) (to : List ℕ)
      (w : Workspace Json)
      → AgreeBelow bound f g
      → Shrinks f
      → entries w < bound
      → relay_to f from frame to w ≡ relay_to g from frame to w
  unfolding relay_to
  relay_to-agree f g bound from frame [] w a s le = refl
  relay_to-agree f g bound from frame (k ∷ to) w a s le = elim (Bool-cases (nat_beq k from)) [
    | inl skip ↦ ground (arith, relay_to-agree f g bound from frame to w a s le)
    | inr it ↦ ground (
      arith,
      a k (frame ∷ []) w le,
      s k (frame ∷ []) w,
      relay_to-agree f g bound from frame to (f k (frame ∷ []) w) a s,
    )
  ]

  module _ (config : Config Json) where
    entries-drop_presence :
        (send : Deliver Json) (k : ℕ) (w : Workspace Json)
        → Shrinks send
        → entries (drop_presence config send k w) ≤ entries w
    unfolding drop_presence relay_presence
    entries-drop_presence send k w s = elim (Option-cases (owned_presence k w.presence)) [
      | inl unowned ↦ ground arith
      | inr ((c, entry), owned) ↦
          let dropped : Workspace Json = record w { presence = JsMap.delete c w.presence } in
          ground (
            arith,
            length-delete c w.presence,
            entries-relay_to send k (presence_update c entry.principal none)
                (ready_sockets w.sockets) dropped s,
          )
    ]

    drop_presence-agree :
        (f g : Deliver Json) (bound k : ℕ) (w : Workspace Json)
        → AgreeBelow bound f g
        → Shrinks f
        → entries w ≤ bound
        → drop_presence config f k w ≡ drop_presence config g k w
    unfolding drop_presence relay_presence
    drop_presence-agree f g bound k w a s le = elim (Option-cases (owned_presence k w.presence)) [
      | inl unowned ↦ ground arith
      | inr ((c, entry), owned) ↦
          let dropped : Workspace Json = record w { presence = JsMap.delete c w.presence } in
          ground (
            arith,
            length-delete_owned k w.presence {c = c} {entry = entry} owned,
            relay_to-agree f g bound k (presence_update c entry.principal none)
                (ready_sockets w.sockets) dropped a s,
          )
    ]

    close_socket-agree :
        (f g : Deliver Json) (bound k code : ℕ) (reason : Text) (w : Workspace Json)
        → AgreeBelow bound f g
        → Shrinks f
        → entries w ≤ bound
        → close_socket config f k code reason w ≡ close_socket config g k code reason w
    unfolding close_socket
    close_socket-agree f g bound k code reason w a s le =
        ap (update_socket k (close_once code reason)) (
          drop_presence-agree f g bound k (update_socket k make_defunct w) a s
            (omega (arith, le, entries-update_socket k make_defunct w)))

    entries-close_socket :
        (send : Deliver Json) (k code : ℕ) (reason : Text) (w : Workspace Json)
        → Shrinks send
        → entries (close_socket config send k code reason w) ≤ entries w
    unfolding close_socket
    entries-close_socket send k code reason w s =
        let marked = update_socket k make_defunct w in
        omega (
          arith,
          entries-update_socket k (close_once code reason) (drop_presence config send k marked),
          entries-drop_presence send k marked s,
          entries-update_socket k make_defunct w,
        )

    entries-deliver_within : (now fuel : ℕ) → Shrinks (deliver_within config now fuel)
    unfolding deliver_within
    entries-deliver_within now zero k frames w = omega arith
    entries-deliver_within now (suc n) k frames w = ground (
      arith,
      entries-close_socket (deliver_within config now n) k close_refresh (auth_expired config) w
          (entries-deliver_within now n),
      entries-close_socket (deliver_within config now n) k 1011 (send_failed config) w
          (entries-deliver_within now n),
      entries-update_socket k (append_frames frames) w,
    )

    -- Any two amounts of fuel above the number of presence entries deliver alike.
    pub deliver_within-enough :
        (now n m : ℕ) (k : ℕ) (frames : List (ServerMsg Json)) (w : Workspace Json)
        → length w.presence < n
        → length w.presence < m
        → deliver_within config now n k frames w ≡ deliver_within config now m k frames w
    unfolding deliver_within
    deliver_within-enough now zero m k frames w a b = absurd (omega (arith, a))
    deliver_within-enough now (suc n) zero k frames w a b = absurd (omega (arith, b))
    deliver_within-enough now (suc n) (suc m) k frames w a b =
        let f = deliver_within config now n in
        let g = deliver_within config now m in
        let agree : AgreeBelow (length w.presence) f g = λ j fs v le.
          deliver_within-enough now n m j fs v (omega (arith, le, a)) (omega (arith, le, b)) in
        ground (
          arith,
          close_socket-agree f g (length w.presence) k close_refresh (auth_expired config) w agree
              (entries-deliver_within now n) (omega arith),
          close_socket-agree f g (length w.presence) k 1011 (send_failed config) w agree
              (entries-deliver_within now n) (omega arith),
        )
