-- ===== src/Client/Receive/Assembly.antt =====
-- The frames of a poke, put together again.
pub mod Converges
use cf_sync.Base.Text.{Text}
use cf_sync.Base.{
  Bool, List, [], append-nil, concat, refl, some, sym, ◌++◌, ◌∷◌, ◌≡◌, any, ap, append_assoc, arith,
  false, if◌then◌else◌, length, list_beq_iff, none, not, true, ◌||◌, ◌∙◌, list_eq, nat_eq, pair_eq,
  ◌==◌,
}
use cf_sync.Client.Receive.{
  on_message, receive, add_part, apply_patch, apply_poke, confirm, drop_poke, is_clear, mark_synced,
  on_poke_end, on_poke_part, on_poke_start, rebase_if_needed, settle,
}
use cf_sync.Client.{PokeBuffer, SyncClient}
use cf_sync.Protocol.Messages.{PatchOp, ServerMsg, Cursor, PokePart, cursor_equals, poke_end}
use cf_sync.Server.Pokes.{Poke, part_frames, poke_frames}

module _ {Json : Type 0} where
  receive-append :
      (xs ys : List (ServerMsg Json)) (c : SyncClient Json)
      → receive (xs ++ ys) c ≡ receive ys (receive xs c)
  receive-append [] ys c = refl
  receive-append (x ∷ xs) ys c = receive-append xs ys (on_message x c)

  -- What the buffer in_outbox after the parts.
  abbrev Gathered : PokeBuffer Json → List (PatchOp Json) → PokeBuffer Json → Type 0
  Gathered before ops after =
      (after.poke_id ≡ before.poke_id)
      × (after.base_mismatch ≡ before.base_mismatch)
      × (after.patch ≡ before.patch ++ ops)

  on_poke_part-grows :
      (frame : PokePart Json) (c : SyncClient Json) (buffer : PokeBuffer Json)
      → buffer.poke_id ≡ frame.poke_id
      → c.poke ≡ some buffer
      → on_poke_part frame c ≡ record c { poke = some (add_part frame buffer) }
  unfolding on_poke_part
  on_poke_part-grows frame c buffer same held =
      ground (arith, list_beq_iff buffer.poke_id frame.poke_id)

  on_poke_end-applies :
      (poke_id : Text) (end_cursor : Cursor) (c : SyncClient Json) (buffer : PokeBuffer Json)
      → c.poke ≡ some buffer
      → buffer.poke_id ≡ poke_id
      → (not buffer.base_mismatch || any is_clear buffer.patch) ≡ true
      → on_poke_end poke_id end_cursor c ≡ apply_poke buffer end_cursor (drop_poke c)
  unfolding on_poke_end
  on_poke_end-applies poke_id end_cursor c buffer held same fits =
      ground (arith, list_beq_iff buffer.poke_id poke_id)

  receive-part_frames :
      (poke_id : Text) (poke : Poke Json) (first : Bool) (parts : List (List (PatchOp Json)))
      (c : SyncClient Json) (buffer : PokeBuffer Json)
      → buffer.poke_id ≡ poke_id
      → c.poke ≡ some buffer
      → (after : PokeBuffer Json) × (receive (part_frames poke_id poke first parts) c
          ≡ record c { poke = some after })
        × Gathered buffer (concat parts) after
  unfolding part_frames on_message
  receive-part_frames poke_id poke first [] c buffer same held =
      (buffer, ap (λ p. record c { poke = p }) held, (refl, refl, sym (append-nil buffer.patch)))
  receive-part_frames poke_id poke first (part ∷ parts) c buffer same held =
      let frame : PokePart Json = record {
        poke_id = poke_id;
        patch = part;
        remaining = some (length (concat parts));
        last_mutation_id_changes = if first then poke.last_mutation_id_changes else [];
        mutation_results = if first then poke.mutation_results else [];
      } in
      let grown = add_part frame buffer in
      let (after, e, (a, b, p)) =
        receive-part_frames poke_id poke false parts (record c { poke = some grown }) grown same
          refl in
      (
        after,
        ap (receive (part_frames poke_id poke false parts))
              (on_poke_part-grows frame c buffer same held)
            ∙ e,
        (a, b, p ∙ append_assoc buffer.patch part (concat parts)),
      )

  apply_poke-rows :
      (buffer : PokeBuffer Json) (end_cursor : Cursor) (c : SyncClient Json)
      → ((apply_poke buffer end_cursor c).rows ≡ apply_patch c.registered buffer.patch c.rows)
        × ((apply_poke buffer end_cursor c).cursor ≡ some end_cursor)
  unfolding apply_poke mark_synced rebase_if_needed settle confirm
  apply_poke-rows buffer end_cursor c = (ground arith, ground arith)

  -- A client that in_outbox the cursor a poke is based on, or receives a poke that clears, has applied
  -- the whole patch of the poke once it has received its frames, and stands at the poke's cursor.
  pub receive-poke_frames :
      (poke_id : Text) (end_cursor : Cursor) (poke : Poke Json) (c : SyncClient Json)
      → (cursor_equals poke.base_cursor c.cursor || any is_clear (concat poke.parts)) ≡ true
      → ((receive (poke_frames poke_id end_cursor poke) c).rows
          ≡ apply_patch c.registered (concat poke.parts) c.rows)
        × ((receive (poke_frames poke_id end_cursor poke) c).cursor ≡ some end_cursor)
  unfolding poke_frames on_message on_poke_start
  receive-poke_frames poke_id end_cursor poke c fits =
      let started = on_poke_start poke_id poke.base_cursor c in
      let buffer : PokeBuffer Json = record {
        poke_id = poke_id;
        base_mismatch = not (cursor_equals poke.base_cursor c.cursor);
        patch = [];
        last_mutation_id_changes = [];
        mutation_results = [];
      } in
      let (after, e, (a, b, p)) =
        receive-part_frames poke_id poke true poke.parts started buffer refl refl in
      let ended : receive (poke_frames poke_id end_cursor poke) c
          ≡ on_poke_end poke_id end_cursor (record started { poke = some after }) =
        receive-append (part_frames poke_id poke true poke.parts) (poke_end poke_id end_cursor ∷ [])
          started
        ∙ ap (on_poke_end poke_id end_cursor) e in
      let applied =
        on_poke_end-applies poke_id end_cursor (record started { poke = some after }) after refl a
          (rw (b, p) (ground (arith, fits))) in
      let (rows, cursor) = apply_poke-rows after end_cursor (record started { poke = none }) in
      (
        ap (λ x. x.rows) (ended ∙ applied) ∙ rows ∙ ap (λ x. apply_patch c.registered x c.rows) p,
        ap (λ x. x.cursor) (ended ∙ applied) ∙ cursor,
      )
