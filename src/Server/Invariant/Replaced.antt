-- ===== src/Server/Invariant/Replaced.antt =====
-- The operations that replace the rows of a workspace keep it well-formed: migration and import.
use cf_sync.Base.JsMap
use cf_sync.Base.JsMap.{JsMap}
use cf_sync.Base.Text.{Text}
use cf_sync.Base.{
  [], ap, arith, inl, inr, list_eq, nat_eq, ok, pair_eq, some, sym, ℕ, ◌+◌, ◌==◌, ◌∙◌, ◌∷◌, ◌≡◌,
  Bool-cases, List, >>=-eq-ok, Result, err, false, if◌then◌else◌, ltb, refl, subst,
}
use cf_sync.Engine.WriteSet.Flush.{flush_nothing}
use cf_sync.Engine.WriteSet.{FlushResult, WriteSet, flush, new_write_set}
use cf_sync.Protocol.App.{migration_path}
use cf_sync.Server.Invariant.{IsWorkspace, same_rows-IsWorkspace, Stamped-IsWorkspace}
use cf_sync.Server.Maintain.{
  Snapshot, import_snapshot, insert_rows, migrate_app_schema, Fault, import_rows, migrate_rows,
  migrated_meta, migration_engine, mutator_threw, no_extension, no_migration, or_fault, run_steps,
  snapshot_rows,
}
use cf_sync.Server.Mutate.Distinct.{flush-Distinct}
use cf_sync.Server.Mutate.Stamps.{flush-Stamped}
use cf_sync.Server.Mutate.{parsed}
use cf_sync.Server.SqlRows.{sql_rows, sql_rows-IsRowStore}
use cf_sync.Server.State.{Config, Disk, Row, Rows}

module _ {Json : Type 0} where
  abbrev AllAt : ℕ → Rows Json → Type 0
  AllAt version rows =
      (key : Text × Text) (row : Row Json) → JsMap.get key rows ≡ some row → row.version ≡ version

  set-AllAt :
      (version : ℕ) (at : Text × Text) (stamp : Row Json) (rows : Rows Json)
      → stamp.version ≡ version
      → AllAt version rows
      → AllAt version (JsMap.set at stamp rows)
  set-AllAt version at stamp rows v a key row h = elim (Bool-cases (at == key)) [
    | inl hit ↦ ground (arith, JsMap.get-set at key stamp rows)
    | inr miss ↦ a key row (ground (arith, JsMap.get-set at key stamp rows))
  ]

  insert_rows-AllAt :
      (version : ℕ) (parsed : List (Text × Text × Json)) (rows next : Rows Json)
      → JsMap.Distinct rows
      → AllAt version rows
      → insert_rows version parsed rows ≡ ok next
      → JsMap.Distinct next × AllAt version next
  unfolding insert_rows
  insert_rows-AllAt version [] rows next d a h =
      subst (λ x. JsMap.Distinct x × AllAt version x) {x = rows} {y = next} (ground arith) (d, a)
  insert_rows-AllAt version ((tbl, id, stored) ∷ rest) rows next d a h =
      let stamp : Row Json = record { content = stored; version = version; deleted = false } in
      elim (Bool-cases (JsMap.has (tbl, id) rows)) [
        | inl twice ↦ absurd (ground arith)
        | inr once ↦
            insert_rows-AllAt version rest (JsMap.set (tbl, id) stamp rows) next
              (JsMap.set-Distinct (tbl, id) stamp rows d)
              (set-AllAt version (tbl, id) stamp rows refl a) (ground arith)
      ]

or_fault-ok :
    {E A : Type 0} (f : E → Fault) (r : Result E A) {a : A} → or_fault f r ≡ ok a → r ≡ ok a
or_fault-ok f (ok a) h = ground arith
or_fault-ok f (err e) h = absurd (ground arith)

module _ {Json : Type 0} (config : Config Json) where
  pub migrate_app_schema-inv :
      (now : ℕ) (fingerprint presence_hash : Text) (disk next : Disk Json)
      → migrate_app_schema config now fingerprint presence_hash disk ≡ ok next
      → (w : WriteSet Json) × (f : FlushResult
          (migration_engine config (sql_rows config.prefilter))
          (disk.meta.current_version + 1))
        × (flush
              (migration_engine config (sql_rows config.prefilter))
              (disk.meta.current_version + 1)
              disk.rows
              w
            ≡ ok f)
        × (next.rows ≡ f.store)
        × (next.meta
            ≡ migrated_meta config fingerprint presence_hash
                (disk.meta.current_version + 1)
                f.written
                disk.meta)
  unfolding migrate_app_schema migrate_rows
  migrate_app_schema-inv now fingerprint presence_hash disk next h =
      let rows = migration_engine config (sql_rows config.prefilter) in
      let candidate = disk.meta.current_version + 1 in
      let (steps, p, h') =
        >>=-eq-ok (or_fault no_migration (migration_path config.app disk.meta.schema_version)) _
          h in
      let (f, q, h'') =
        >>=-eq-ok (or_fault mutator_threw (migrate_rows rows candidate disk.rows steps)) _ h' in
      let (w, r, e) =
        >>=-eq-ok (run_steps rows disk.rows steps new_write_set) _
          (or_fault-ok mutator_threw (migrate_rows rows candidate disk.rows steps) q) in
      (w, f, e, ground (arith, h''), ground (arith, h''))

  -- A migration keeps the workspace well-formed.
  pub migrate_app_schema-IsWorkspace :
      (now : ℕ) (fingerprint presence_hash : Text) (disk next : Disk Json)
      → IsWorkspace disk
      → migrate_app_schema config now fingerprint presence_hash disk ≡ ok next
      → IsWorkspace next
  migrate_app_schema-IsWorkspace now fingerprint presence_hash disk next w h =
      let engine = migration_engine config (sql_rows config.prefilter) in
      let candidate = disk.meta.current_version + 1 in
      let (writes, f, e, r, m) = migrate_app_schema-inv now fingerprint presence_hash disk next h in
      elim (Bool-cases (ltb 0 f.written)) [
        | inl some_rows ↦
            Stamped-IsWorkspace disk next w
              (rw r (
                flush-Distinct engine config.prefilter refl disk.rows candidate writes f w.distinct
                  e))
              (rw r (flush-Stamped engine config.prefilter refl disk.rows candidate writes f e))
              (ap (λ x. x.current_version) m ∙ rw some_rows refl)
              (ground (arith, ap (λ x. x.min_cursor_version) m))
        | inr no_rows ↦
            same_rows-IsWorkspace disk next w
              (r
                ∙ flush_nothing engine (sql_rows-IsRowStore config.prefilter) disk.rows candidate
                    writes f e (ground arith))
              (ap (λ x. x.current_version) m ∙ rw no_rows refl)
              (ap (λ x. x.min_cursor_version) m ∙ rw no_rows refl)
      ]

  -- What an import leaves is well-formed, whatever was there.
  pub import_snapshot-IsWorkspace :
      (snapshot : Snapshot Json) (disk next : Disk Json)
      → import_snapshot config snapshot disk ≡ ok next
      → IsWorkspace next
        × (next.meta ≡ record disk.meta {
          current_version = disk.meta.current_version + 1;
          min_cursor_version = disk.meta.current_version + 1;
        })
  unfolding import_snapshot JsMap.get
  import_snapshot-IsWorkspace snapshot disk next h =
      let version = disk.meta.current_version + 1 in
      let (migrated, p, h1) = >>=-eq-ok (snapshot_rows config snapshot) _ h in
      let (parsed, q, h2) = >>=-eq-ok (import_rows config migrated) _ h1 in
      let (u, x, h3) =
        >>=-eq-ok (if snapshot.has_extension then err no_extension else ok tt) _ h2 in
      let (rows, i, h4) = >>=-eq-ok (insert_rows version parsed []) _ h3 in
      let (d, a) =
        insert_rows-AllAt version parsed [] rows tt (λ key row e. absurd (ground arith)) i in
      let same : next.rows ≡ rows = ground (arith, h4) in
      let m : next.meta
          ≡ record disk.meta { current_version = version; min_cursor_version = version } =
        ground (arith, h4) in
      (
        record {
          distinct = rw same d;
          versions = λ key row e.
              omega (
                arith,
                a key row (ap (JsMap.get key) (sym same) ∙ e),
                ap (λ x. x.current_version) m,
              );
          min_cursor =
              omega (arith, ap (λ x. x.current_version) m, ap (λ x. x.min_cursor_version) m);
        },
        m,
      )
