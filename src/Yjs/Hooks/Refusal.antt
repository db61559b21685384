-- ===== src/Yjs/Hooks/Refusal.antt =====
-- A socket that was refused on a field stays refused.
use cf_sync.Base.JsMap
use cf_sync.Base.JsMap.{JsMap}
use cf_sync.Base.Text.{Text}
use cf_sync.Base.{
  Bool, List, [], any, arith, true, ℕ, ◌++◌, ◌∷◌, ◌≡◌, ◌⊎◌, eq_iff, inl, inr, list_beq, list_eq,
  nat_eq, or_else, pair_eq, none, eq_refl,
}
use cf_sync.Protocol.FieldFrames.{FieldRejectReason}
use cf_sync.Yjs.Hooks.History.{on_binary_message-cases}
use cf_sync.Yjs.Hooks.{on_binary_message}
use cf_sync.Yjs.Server.{
  Extension, MessageContext, YjsFieldsOptions, append_update, cache_doc, evict_doc, handle_get,
  handle_update, load_doc, mark_refused, refresh_cached, reject, is_refused,
}
use cf_sync.Yjs.{Bytes, Yjs}

any-append : (p : Text → Bool) (xs ys : List Text) → any p xs ≡ true → any p (xs ++ ys) ≡ true
any-append p [] ys h = absurd (cc)
any-append p (x ∷ xs) ys h = ground (arith, any-append p xs ys)

any-last : (p : Text → Bool) (xs : List Text) (t : Text) → p t ≡ true → any p (xs ++ t ∷ []) ≡ true
any-last p [] t h = ground arith
any-last p (x ∷ xs) t h = ground (arith, any-last p xs t)

module _ {Doc Auth : Type 0} (y : Yjs Doc) (options : YjsFieldsOptions Auth) where
  handle_get-refused :
      (ws : ℕ) (g : Text) (sv : Bytes) (ctx : MessageContext Auth) (x : Extension Doc)
      → (handle_get y options ws g sv ctx x).0.refused ≡ x.refused
  unfolding handle_get load_doc cache_doc
  handle_get-refused ws g sv ctx x = ground arith

  handle_update-refused :
      (ws : ℕ) (g : Text) (update frame : Bytes) (ctx : MessageContext Auth) (x : Extension Doc)
      → ((handle_update y options ws g update frame ctx x).0.refused ≡ x.refused)
        ⊎ ((handle_update y options ws g update frame ctx x).0.refused
            ≡ (mark_refused y options ws g x).refused)
  unfolding handle_update refresh_cached append_update evict_doc reject
  handle_update-refused ws g update frame ctx x = ground arith

  mark_refused-keeps :
      (v ws : ℕ) (f g : Text) (x : Extension Doc)
      → is_refused y options v f x ≡ true
      → is_refused y options v f (mark_refused y options ws g x) ≡ true
  unfolding mark_refused
  mark_refused-keeps v ws f g x h =
      let old = or_else (JsMap.get ws x.refused) [] in
      ground (
        arith,
        JsMap.get-set ws v (old ++ g ∷ []) x.refused,
        eq_iff ws v,
        any-append (λ (t : Text). list_beq t f) old (g ∷ []),
      )

  refused-eq :
      (v : ℕ) (f : Text) (x' x : Extension Doc)
      → x'.refused ≡ x.refused
      → is_refused y options v f x ≡ true
      → is_refused y options v f x' ≡ true
  refused-eq v f x' x e h = ground arith

  handle_update-keeps_refused :
      (v ws : ℕ) (f g : Text) (update frame : Bytes) (ctx : MessageContext Auth) (x : Extension Doc)
      → is_refused y options v f x ≡ true
      → is_refused y options v f (handle_update y options ws g update frame ctx x).0 ≡ true
  handle_update-keeps_refused v ws f g update frame ctx x h =
      let after = (handle_update y options ws g update frame ctx x).0 in
      elim (handle_update-refused ws g update frame ctx x) [
        | inl same ↦ refused-eq v f after x same h
        | inr marked ↦
            refused-eq v f after (mark_refused y options ws g x) marked
              (mark_refused-keeps v ws f g x h)
      ]

  -- The messages of any sockets, in the order in which they arrive.
  abbrev pub receive_all : List (ℕ × Bytes × MessageContext Auth) → Extension Doc → Extension Doc
  receive_all [] x = x
  receive_all ((ws, bytes, ctx) ∷ rest) x =
      receive_all rest (on_binary_message y options ws bytes ctx x).0

  receive_all-keeps_refused :
      (messages : List (ℕ × Bytes × MessageContext Auth)) (v : ℕ) (f : Text) (x : Extension Doc)
      → is_refused y options v f x ≡ true
      → is_refused y options v f (receive_all messages x) ≡ true
  receive_all-keeps_refused [] v f x h = h
  receive_all-keeps_refused ((ws, bytes, ctx) ∷ rest) v f x h =
      receive_all-keeps_refused rest v f (on_binary_message y options ws bytes ctx x).0 (
        on_binary_message-cases y options ws bytes ctx x (λ z. is_refused y options v f z ≡ true) h
          (λ g sv.
            refused-eq v f (handle_get y options ws g sv ctx x).0 x
              (handle_get-refused ws g sv ctx x) h)
          (λ g update. handle_update-keeps_refused v ws f g update bytes ctx x h))

  reject-refused :
      (ws : ℕ) (g : Text) (reason : FieldRejectReason) (x : Extension Doc)
      → is_refused y options ws g (reject y options ws g reason x).0 ≡ true
  unfolding reject mark_refused
  reject-refused ws g reason x =
      let old = or_else (JsMap.get ws x.refused) [] in
      ground (
        arith,
        JsMap.get-set_self ws (old ++ g ∷ []) x.refused,
        any-last (λ (t : Text). list_beq t g) old g,
        eq_refl g,
      )

  dropped :
      (ws : ℕ) (g : Text) (update frame : Bytes) (ctx : MessageContext Auth) (x : Extension Doc)
      → is_refused y options ws g x ≡ true
      → handle_update y options ws g update frame ctx x ≡ (x, none)
  unfolding handle_update
  dropped ws g update frame ctx x h = ground arith

  -- Once a socket is refused on a field, and whatever messages of any sockets follow, an update of
  -- that socket for that field changes nothing, is neither stored nor relayed, and is not answered.
  pub receive_all-refuses :
      (messages : List (ℕ × Bytes × MessageContext Auth)) (ws : ℕ) (g : Text)
      (reason : FieldRejectReason) (update frame : Bytes) (ctx : MessageContext Auth)
      (x : Extension Doc)
      → let later = receive_all messages (reject y options ws g reason x).0 in
        handle_update y options ws g update frame ctx later ≡ (later, none)
  receive_all-refuses messages ws g reason update frame ctx x =
      dropped ws g update frame ctx (receive_all messages (reject y options ws g reason x).0) (
        receive_all-keeps_refused messages ws g (reject y options ws g reason x).0
          (reject-refused ws g reason x))
