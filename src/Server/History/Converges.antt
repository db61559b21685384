-- ===== src/Server/History/Converges.antt =====
-- Whatever happens to a workspace between two connections of a client, the poke that answers the
-- next hello leaves the client with the server's rows.
use cf_sync.Base.JsMap
use cf_sync.Base.JsMap.{JsMap}
use cf_sync.Base.Text.{Text}
use cf_sync.Base.{
  Bool-cases, Option-cases, ap, arith, inl, inr, list_eq, ltb, nat_eq, ok, pair_eq, refl, some, ℕ,
  ◌+◌, ◌∙◌, ◌≡◌, list_beq_iff, ◌≤◌,
}
use cf_sync.Engine.WriteSet.Flush.{flush_nothing}
use cf_sync.Protocol.Messages.{Cursor, Mutation}
use cf_sync.Server.History.{
  Follows, History, Step, compact-Follows, compaction, cursor_valid, cut-Follows, hello_patch, here,
  import, migration, mirror-Follows, mutate, reset, same-Follows, Stamped-Follows, then_step, touch,
}
use cf_sync.Server.Invariant.Replaced.{
  import_snapshot-IsWorkspace, migrate_app_schema-IsWorkspace, migrate_app_schema-inv,
}
use cf_sync.Server.Invariant.{
  IsWorkspace, apply_mutation-IsWorkspace, compact-IsWorkspace, touch_client-IsWorkspace,
}
use cf_sync.Server.Maintain.{fresh_disk, migrate_app_schema, migration_engine}
use cf_sync.Server.Mutate.Contract.{apply_mutation-Stamped}
use cf_sync.Server.Mutate.{Effects, apply_mutation, touch_client}
use cf_sync.Server.Patch.CatchUp.{Mirrors, bootstrap_patch-Mirrors, patch_since-Mirrors}
use cf_sync.Server.Patch.{Replica, apply_ops}
use cf_sync.Server.SqlRows.{sql_rows, sql_rows-IsRowStore}
use cf_sync.Server.State.{Attachment, Config, Disk}

module _ {Json : Type 0} (config : Config Json) where
  fresh_disk-IsWorkspace :
      (backend_id workspace_id fingerprint presence_hash : Text)
      → IsWorkspace (fresh_disk config backend_id workspace_id fingerprint presence_hash)
  unfolding fresh_disk JsMap.get
  fresh_disk-IsWorkspace backend_id workspace_id fingerprint presence_hash = record {
    distinct = tt;
    versions = λ key row e. absurd (ground arith);
    min_cursor = omega arith;
  }

  -- Every change of the disk keeps the workspace well-formed.
  pub Step-IsWorkspace :
      {seen : Text} {a b : Disk Json} → Step config seen a b → IsWorkspace a → IsWorkspace b
  Step-IsWorkspace (mutate now attachment mutation disk next e h) w =
      apply_mutation-IsWorkspace config now attachment mutation disk next e w h
  Step-IsWorkspace (touch now client_id disk) w = touch_client-IsWorkspace now client_id disk w
  Step-IsWorkspace (compaction retention disk) w = compact-IsWorkspace retention disk w
  Step-IsWorkspace (migration now fingerprint presence_hash disk next h) w =
      migrate_app_schema-IsWorkspace config now fingerprint presence_hash disk next w h
  Step-IsWorkspace (import snapshot disk next h) w =
      (import_snapshot-IsWorkspace config snapshot disk next h).0
  Step-IsWorkspace (reset backend_id workspace_id fingerprint presence_hash disk fresh) w =
      fresh_disk-IsWorkspace backend_id workspace_id fingerprint presence_hash

  module _ (cursor : Cursor) (r : Replica Json) where
    mutate-Follows :
        (now : ℕ) (attachment : Attachment Json) (mutation : Mutation Json) (disk next : Disk Json)
        (e : Effects config)
        → apply_mutation config now attachment mutation disk ≡ ok (next, e)
        → Follows cursor r disk
        → Follows cursor r next
    mutate-Follows now attachment mutation disk next e h f =
        elim (apply_mutation-Stamped config now attachment mutation disk next e h) [
          | inl (rows, m) ↦
              same-Follows config cursor r disk next rows (ap (λ x. x.backend_id) m)
                (ap (λ x. x.current_version) m) (ap (λ x. x.min_cursor_version) m) f
          | inr (m, accepted, s, d) ↦ Stamped-Follows config cursor r disk next s m f
        ]

    touch-Follows :
        (now : ℕ) (client_id : Text) (disk : Disk Json)
        → Follows cursor r disk
        → Follows cursor r (touch_client now client_id disk)
    unfolding touch_client
    touch-Follows now client_id disk f = elim (Option-cases (JsMap.get client_id disk.clients)) [
      | inl e ↦
          same-Follows config cursor r disk (touch_client now client_id disk) (ground arith)
            (ground arith) (ground arith) (ground arith) f
      | inr (c, e) ↦
          same-Follows config cursor r disk (touch_client now client_id disk) (ground arith)
            (ground arith) (ground arith) (ground arith) f
    ]

    migration-Follows :
        (now : ℕ) (fingerprint presence_hash : Text) (disk next : Disk Json)
        → migrate_app_schema config now fingerprint presence_hash disk ≡ ok next
        → Follows cursor r disk
        → Follows cursor r next
    migration-Follows now fingerprint presence_hash disk next h f =
        let (writes, flushed, e, rows, m) =
          migrate_app_schema-inv config now fingerprint presence_hash disk next h in
        elim (Bool-cases (ltb 0 flushed.written)) [
          | inl some_rows ↦
              cut-Follows config cursor r disk next (ap (λ x. x.backend_id) m)
                (ap (λ x. x.current_version) m ∙ rw some_rows refl)
                (ap (λ x. x.min_cursor_version) m ∙ rw some_rows refl) f
          | inr no_rows ↦
              same-Follows config cursor r disk next
                (rows
                  ∙ flush_nothing (migration_engine config (sql_rows config.prefilter))
                      (sql_rows-IsRowStore config.prefilter) disk.rows
                      (disk.meta.current_version + 1) writes flushed e (ground arith))
                (ap (λ x. x.backend_id) m) (ap (λ x. x.current_version) m ∙ rw no_rows refl)
                (ap (λ x. x.min_cursor_version) m ∙ rw no_rows refl) f
        ]

    Step-Follows :
        {a b : Disk Json}
        → Step config cursor.backend_id a b
        → IsWorkspace a
        → Follows cursor r a
        → Follows cursor r b
    unfolding fresh_disk
    Step-Follows (mutate now attachment mutation disk next e h) w f =
        mutate-Follows now attachment mutation disk next e h f
    Step-Follows (touch now client_id disk) w f = touch-Follows now client_id disk f
    Step-Follows (compaction retention disk) w f =
        compact-Follows config cursor r retention disk w f
    Step-Follows (migration now fingerprint presence_hash disk next h) w f =
        migration-Follows now fingerprint presence_hash disk next h f
    Step-Follows (import snapshot disk next h) w f =
        let m = (import_snapshot-IsWorkspace config snapshot disk next h).1 in
        cut-Follows config cursor r disk next (ap (λ x. x.backend_id) m)
          (ap (λ x. x.current_version) m) (ap (λ x. x.min_cursor_version) m) f
    Step-Follows (reset backend_id workspace_id fingerprint presence_hash disk fresh) w f =
        λ same. absurd (fresh (same))

    History-Follows :
        {a b : Disk Json}
        → History config cursor.backend_id a b
        → IsWorkspace a
        → Follows cursor r a
        → IsWorkspace b × Follows cursor r b
    History-Follows here w f = (w, f)
    History-Follows (then_step {a} {b} h s) w f =
        let (w', f') = History-Follows h w f in (Step-IsWorkspace s w', Step-Follows s w' f')

  -- However the workspace is changed after a replica had its rows, by mutations, migrations,
  -- imports, compactions, and resets that mint new backend ids, the patch that answers the hello
  -- with the replica's cursor leaves the replica with the rows as they then are.
  pub hello_patch-converges :
      (cursor : Cursor) (r : Replica Json) (before after : Disk Json)
      → IsWorkspace before
      → cursor
        ≡ record { backend_id = before.meta.backend_id; version = before.meta.current_version }
      → Mirrors before.rows r
      → History config cursor.backend_id before after
      → Mirrors after.rows (apply_ops (hello_patch (some cursor) after) r)
  unfolding hello_patch cursor_valid
  hello_patch-converges cursor r before after w c m h =
      let (w', f) =
        History-Follows cursor r h w (mirror-Follows cursor r before (ap (λ x. x.version) c) m) in
      elim (Bool-cases (cursor_valid (some cursor) after.meta)) [
        | inl valid ↦
            let (same, served) : (cursor.backend_id ≡ after.meta.backend_id)
                × (after.meta.min_cursor_version ≤ cursor.version) =
              ground (arith, list_beq_iff cursor.backend_id after.meta.backend_id) in
            rw valid
              (patch_since-Mirrors cursor.version after.rows r w'.distinct ((f same).1 served))
        | inr stale ↦ rw stale (bootstrap_patch-Mirrors after.rows r w'.distinct)
      ]
