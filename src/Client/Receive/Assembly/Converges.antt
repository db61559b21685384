-- ===== src/Client/Receive/Assembly/Converges.antt =====
-- Client and server together: the poke that answers a hello brings the client's rows up to date.
use cf_sync.Base.JsMap
use cf_sync.Base.JsMap.{JsMap}
use cf_sync.Base.Text.{Text}
use cf_sync.Base.{
  Bool, Bool-cases, List, [], any, ap, ap₂, arith, concat, false, inl, inr, keep, list_eq, map,
  nat_eq, ok, pair_eq, refl, some, true, ℕ, ◌||◌, ◌∙◌, ◌∷◌, ◌≡◌,
}
use cf_sync.Client.Receive.Assembly.{receive-poke_frames}
use cf_sync.Client.Receive.{apply_patch, is_clear, receive, write_ops}
use cf_sync.Client.{SyncClient}
use cf_sync.Protocol.Messages.{Cursor, PatchOp, cursor_equals, cursor_equals_iff}
use cf_sync.Server.Hello.Cache.{concat-pack_ops}
use cf_sync.Server.Hello.{kept_base}
use cf_sync.Server.History.Converges.{hello_patch-converges}
use cf_sync.Server.History.{History, cursor_valid, hello_patch}
use cf_sync.Server.Invariant.{IsWorkspace}
use cf_sync.Server.Patch.CatchUp.{Mirrors}
use cf_sync.Server.Patch.{
  Replica, apply_op, apply_ops, bootstrap_patch, by_key, by_version, is_live, newer, order_by,
  patch_since, row_op,
}
use cf_sync.Server.Pokes.{Poke, cursor_of, pack_ops, poke_frames}
use cf_sync.Server.State.{Config, Disk, Rows}

abbrev pub every_table : Text → Bool
every_table tbl = true

module _ {Json : Type 0} where
  -- Without a `clear` the writes of a client are the operations of a replica.
  write_row_ops :
      (rows : Rows Json) (r : Replica Json)
      → (write_ops every_table (map row_op rows) r ≡ apply_ops (map row_op rows) r)
        × (any is_clear (map row_op rows) ≡ false)
  write_row_ops [] r = (refl, refl)
  write_row_ops ((k, row) ∷ rows) r =
      ground (arith, write_row_ops rows (apply_op (row_op (k, row)) r))

  apply_patch-patch_since :
      (version : ℕ) (rows : Rows Json) (r : Replica Json)
      → apply_patch every_table (patch_since version rows) r
        ≡ apply_ops (patch_since version rows) r
  unfolding apply_patch patch_since
  apply_patch-patch_since version rows r =
      let (same, no_clear) = write_row_ops (order_by by_version (keep (newer version) rows)) r in
      rw no_clear same

  apply_patch-bootstrap_patch :
      (rows : Rows Json) (r : Replica Json)
      → (apply_patch every_table (bootstrap_patch rows) r ≡ apply_ops (bootstrap_patch rows) r)
        × (any is_clear (bootstrap_patch rows) ≡ true)
  unfolding apply_patch bootstrap_patch
  apply_patch-bootstrap_patch rows r =
      ((write_row_ops (order_by by_key (keep is_live rows)) []).0, refl)

  hello_patch-cases :
      (config : Config Json) (cursor : Cursor) (disk : Disk Json) (r : Replica Json)
      → (apply_patch every_table (hello_patch (some cursor) disk) r
          ≡ apply_ops (hello_patch (some cursor) disk) r)
        × ((cursor_equals (kept_base (some cursor) disk.meta) (some cursor)
              || any is_clear (hello_patch (some cursor) disk))
            ≡ true)
  unfolding hello_patch
  hello_patch-cases config cursor disk r =
      elim (Bool-cases (cursor_valid (some cursor) disk.meta)) [
        | inl valid ↦ ground (
          arith,
          apply_patch-patch_since cursor.version disk.rows r,
          cursor_equals_iff (some cursor) (some cursor),
        )
        | inr stale ↦ ground (arith, apply_patch-bootstrap_patch disk.rows r)
      ]

  -- A client of every table whose rows mirrored a well-formed workspace at its cursor mirrors it
  -- again, however the workspace has changed since, when it has received the frames of the poke that
  -- answers its hello, and stands at the workspace's version.
  pub receive_hello-Mirrors :
      (config : Config Json) (poke_id : Text) (cursor : Cursor) (before after : Disk Json)
      (parts : List (List (PatchOp Json))) (poke : Poke Json) (c : SyncClient Json)
      → IsWorkspace before
      → cursor ≡ cursor_of before.meta
      → Mirrors before.rows c.rows
      → History config cursor.backend_id before after
      → c.cursor ≡ some cursor
      → c.registered ≡ every_table
      → pack_ops config (hello_patch (some cursor) after) ≡ ok parts
      → poke.parts ≡ parts
      → poke.base_cursor ≡ kept_base (some cursor) after.meta
      → Mirrors after.rows (receive (poke_frames poke_id (cursor_of after.meta) poke) c).rows
        × ((receive (poke_frames poke_id (cursor_of after.meta) poke) c).cursor
            ≡ some (cursor_of after.meta))
  receive_hello-Mirrors config poke_id cursor before after parts poke c w at_cursor m history
        in_outbox tables packed carried based =
      let whole : concat poke.parts ≡ hello_patch (some cursor) after =
        ap concat carried ∙ concat-pack_ops config (hello_patch (some cursor) after) parts packed in
      let (same, fits) = hello_patch-cases config cursor after c.rows in
      let (rows, reached) =
        receive-poke_frames poke_id (cursor_of after.meta) poke c
          (rw (whole, based, in_outbox) fits) in
      let applied : (receive (poke_frames poke_id (cursor_of after.meta) poke) c).rows
          ≡ apply_ops (hello_patch (some cursor) after) c.rows =
        rows ∙ ap₂ (λ f p. apply_patch f p c.rows) tables whole ∙ same in
      (
        λ key.
            ap (JsMap.get key) applied
            ∙ hello_patch-converges config cursor c.rows before after w at_cursor m history key,
        reached,
      )
