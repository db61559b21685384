-- ===== src/Server/Invariant.antt =====
-- What every workspace keeps, and that each of its operations keeps it.
pub mod Replaced
use cf_sync.Base.JsMap
use Prim.Native.Nat.{max}
use cf_sync.Base.JsMap.{JsMap}
use cf_sync.Base.Text.{Text}
use cf_sync.Base.{
  Option-cases, [], ap, arith, inl, inr, list_eq, nat_eq, ok, pair_eq, some, sym, ℕ, ◌+◌, ◌==◌, ◌∙◌,
  ◌∷◌, ◌≡◌, ◌≤◌, Bool-cases, keep, leb, ◌-◌, ◌⊎◌, List, >>=-eq-ok, Result, err, false,
  if◌then◌else◌, ltb, refl, subst,
}
use cf_sync.Engine.WriteSet.Flush.{flush_nothing}
use cf_sync.Engine.WriteSet.{FlushResult, WriteSet, flush, new_write_set}
use cf_sync.Protocol.App.{migration_path}
use cf_sync.Protocol.Messages.{Mutation}
use cf_sync.Server.Maintain.{
  compact, max_discarded, kept_row, Snapshot, import_snapshot, insert_rows, migrate_app_schema,
  Fault, import_rows, migrate_rows, migrated_meta, migration_engine, mutator_threw, no_extension,
  no_migration, or_fault, run_steps, snapshot_rows,
}
use cf_sync.Server.Mutate.Contract.{apply_mutation-Stamped}
use cf_sync.Server.Mutate.Distinct.{flush-Distinct}
use cf_sync.Server.Mutate.Stamps.{Stamped, flush-Stamped}
use cf_sync.Server.Mutate.{Effects, apply_mutation, touch_client, parsed, engine}
use cf_sync.Server.Patch.CatchUp.{get-keep, keep-Distinct}
use cf_sync.Server.SqlRows.{sql_rows, sql_rows-IsRowStore}
use cf_sync.Server.State.{Attachment, Config, Disk, Row, Rows}

-- Keys stand once, no row is newer than the workspace, and neither is the oldest cursor it serves.
pub record IsWorkspace {Json : Type 0} (disk : Disk Json) : Type 0 where
  pub distinct : JsMap.Distinct disk.rows
  pub versions :
      (key : Text × Text) (row : Row Json)
      → JsMap.get key disk.rows ≡ some row
      → row.version ≤ disk.meta.current_version
  pub min_cursor : disk.meta.min_cursor_version ≤ disk.meta.current_version

module _ {Json : Type 0} where
  pub same_rows-IsWorkspace :
      (a b : Disk Json)
      → IsWorkspace a
      → b.rows ≡ a.rows
      → b.meta.current_version ≡ a.meta.current_version
      → b.meta.min_cursor_version ≡ a.meta.min_cursor_version
      → IsWorkspace b
  same_rows-IsWorkspace a b w r c m = record {
    distinct = rw r w.distinct;
    versions = λ key row e. rw c (w.versions key row (ap (JsMap.get key) (sym r) ∙ e));
    min_cursor = rw (c, m) w.min_cursor;
  }

  -- The next version, whether or not older cursors are cut off.
  pub Stamped-IsWorkspace :
      (a b : Disk Json)
      → IsWorkspace a
      → JsMap.Distinct b.rows
      → Stamped (a.meta.current_version + 1) a.rows b.rows
      → b.meta.current_version ≡ a.meta.current_version + 1
      → b.meta.min_cursor_version ≤ a.meta.current_version + 1
      → IsWorkspace b
  Stamped-IsWorkspace a b w d s c m = record {
    distinct = d;
    versions = λ key row e. elim (s key) [
      | inl same ↦ omega (arith, w.versions key row (sym same ∙ e), c)
      | inr (new, hit, v) ↦ ground (arith, c, v, hit, e)
    ];
    min_cursor = omega (arith, c, m);
  }

  -- A mutation keeps the workspace well-formed.
  pub apply_mutation-IsWorkspace :
      (config : Config Json) (now : ℕ) (attachment : Attachment Json) (mutation : Mutation Json)
      (disk next : Disk Json) (e : Effects config)
      → IsWorkspace disk
      → apply_mutation config now attachment mutation disk ≡ ok (next, e)
      → IsWorkspace next
  apply_mutation-IsWorkspace config now attachment mutation disk next e w h =
      elim (apply_mutation-Stamped config now attachment mutation disk next e h) [
        | inl (r, m) ↦
            same_rows-IsWorkspace disk next w r (ap (λ x. x.current_version) m)
              (ap (λ x. x.min_cursor_version) m)
        | inr (m, accepted, s, d) ↦
            Stamped-IsWorkspace disk next w (d w.distinct) s (ap (λ x. x.current_version) m)
              (omega (arith, w.min_cursor, ap (λ x. x.min_cursor_version) m))
      ]

  pub touch_client-IsWorkspace :
      (now : ℕ) (client_id : Text) (disk : Disk Json)
      → IsWorkspace disk
      → IsWorkspace (touch_client now client_id disk)
  unfolding touch_client
  touch_client-IsWorkspace now client_id disk w =
      elim (Option-cases (JsMap.get client_id disk.clients)) [
        | inl e ↦
            same_rows-IsWorkspace disk (touch_client now client_id disk) w (ground arith)
              (ground arith) (ground arith)
        | inr (c, e) ↦
            same_rows-IsWorkspace disk (touch_client now client_id disk) w (ground arith)
              (ground arith) (ground arith)
      ]

  pub max_discarded-le :
      (cutoff : ℕ) (rows : Rows Json) {v : ℕ} → max_discarded cutoff rows ≡ some v → v ≤ cutoff
  unfolding max_discarded
  max_discarded-le cutoff [] {v} h = absurd (ground arith)
  max_discarded-le cutoff ((k, row) ∷ rows) {v} h =
      elim (Option-cases (max_discarded cutoff rows)) [
        | inl e ↦ ground (arith)
        | inr (u, e) ↦ ground (arith, max_discarded-le cutoff rows e)
      ]

  -- What a compaction that drops tombstones leaves.
  abbrev pub compacted : ℕ → ℕ → Disk Json → Disk Json
  compacted cutoff max_deleted disk = record disk {
    rows = keep (kept_row cutoff) disk.rows;
    meta = record disk.meta { min_cursor_version = max disk.meta.min_cursor_version max_deleted };
  }

  pub compact-cases :
      (retention : ℕ) (disk : Disk Json)
      → (compact retention disk ≡ disk)
        ⊎ ((v : ℕ) × (max_discarded (disk.meta.current_version - retention) disk.rows ≡ some v)
            × (compact retention disk ≡ compacted (disk.meta.current_version - retention) v disk))
  unfolding compact
  compact-cases retention disk =
      let cutoff = disk.meta.current_version - retention in
      elim (Bool-cases (leb cutoff 0)) [
        | inl early ↦ inl (ground arith)
        | inr late ↦ elim (Option-cases (max_discarded cutoff disk.rows)) [
          | inl e ↦ inl (ground arith)
          | inr (v, e) ↦ inr (v, e, ground arith)
        ]
      ]

  pub compact-IsWorkspace :
      (retention : ℕ) (disk : Disk Json) → IsWorkspace disk → IsWorkspace (compact retention disk)
  compact-IsWorkspace retention disk w =
      let cutoff = disk.meta.current_version - retention in
      elim (compact-cases retention disk) [
        | inl same ↦ rw same w
        | inr (v, m, e) ↦ rw e (record {
          distinct = keep-Distinct (kept_row cutoff) disk.rows w.distinct;
          versions = λ key row h. elim (Option-cases (JsMap.get key disk.rows)) [
            | inl absent ↦
                absurd (ground (arith, get-keep (kept_row cutoff) key disk.rows w.distinct))
            | inr (old, there) ↦ ground (
              arith,
              get-keep (kept_row cutoff) key disk.rows w.distinct,
              w.versions key old there,
            )
          ];
          min_cursor = omega (arith, w.min_cursor, max_discarded-le cutoff disk.rows m);
        })
      ]
