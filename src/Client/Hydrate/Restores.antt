-- ===== src/Client/Hydrate/Restores.antt =====
-- What one client saved is what the next one restores.
use cf_sync.Base.JsMap
use cf_sync.Base.JsMap.{JsMap}
use cf_sync.Base.Text.{Text}
use cf_sync.Base.{
  Bool, Bool-cases, List, Option, [], ap, arith, eq_iff, eq_refl, false, if◌then◌else◌, inl, inr,
  list_eq, nat_eq, none, pair_eq, refl, some, subst, true, ℕ, ◌+◌, ◌==◌, ◌∷◌, ◌≡◌, append-nil,
  Option-cases,
}
use cf_sync.Client.Hydrate.{cached_puts, hydrate, loaded, restore, restored_entries}
use cf_sync.Client.Receive.{write_op, write_ops}
use cf_sync.Client.Store.{MemorySyncStore, load, outbox_snapshot, save_outbox}
use cf_sync.Client.{OutboxEntry, SyncClient, pushed}
use cf_sync.Protocol.Messages.{Cursor, put}
use cf_sync.Server.Patch.{Replica}

abbrev or_some {ℓ} : {A : Type ℓ} → Option A → Option A → Option A
or_some none o = o
or_some (some a) o = some a

module _ {Json : Type 0} where
  -- The entries restored from a snapshot are pushed as the entries that were saved.
  pushed-restored_entries :
      (confirmed key : ℕ) (outbox : List (OutboxEntry Json))
      → pushed confirmed (restored_entries key (outbox_snapshot outbox)) ≡ pushed confirmed outbox
  unfolding pushed restored_entries outbox_snapshot
  pushed-restored_entries confirmed key [] = refl
  pushed-restored_entries confirmed key (entry ∷ rest) =
      rw (pushed-restored_entries confirmed (key + 1) rest) refl

  cached :
      (registered : Text → Bool) (k : Text × Text) (rows base : Replica Json)
      → JsMap.Distinct rows
      → JsMap.get k (write_ops registered (cached_puts rows) base) ≡ (
          if registered k.0
          then or_some (JsMap.get k rows) (JsMap.get k base)
          else JsMap.get k base)
  unfolding cached_puts JsMap.get
  cached registered k [] base d = ground arith
  cached registered k (((t, i), row) ∷ rest) base d =
      let ih = cached registered k rest (write_op registered (put t i row) base) d.1 in
      elim (Bool-cases ((t, i) == k)) [
        | inl same ↦
            let e : (t, i) ≡ k = (eq_iff (t, i) k).0 same in
            let table : registered t ≡ registered k.0 = ap (λ j. registered j.0) e in
            let fresh : JsMap.get k rest ≡ none = subst (λ j. JsMap.get j rest ≡ none) e d.0 in
            ground (arith, ih, table, fresh, same, JsMap.get-set (t, i) k row base)
        | inr differs ↦ ground (arith, ih, differs, JsMap.get-set (t, i) k row base)
      ]

  cached_only :
      (registered : Text → Bool) (k : Text × Text) (rows : Replica Json)
      → JsMap.Distinct rows
      → JsMap.get k (write_ops registered (cached_puts rows) [])
        ≡ (if registered k.0 then JsMap.get k rows else none)
  unfolding JsMap.get
  cached_only registered k rows d = elim (Option-cases (JsMap.get k rows)) [
    | inl none_there ↦ ground (arith, cached registered k rows [] d, none_there)
    | inr (row, there) ↦ ground (arith, cached registered k rows [] d, there)
  ]

  -- A client that starts without rows and mutations, from what another client of the same
  -- version has saved of its outbox in a store that holds a snapshot with each row once, has the
  -- confirmed LMID and the cursor that were saved, the rows that were stored of the tables it
  -- has registered and no others, and pushes the mutations that the other one would have pushed,
  -- under their ids.
  pub hydrate-save_outbox :
      (key : ℕ) (cursor : Cursor) (store : MemorySyncStore Json) (old new : SyncClient Json)
      (tbl id : Text)
      → store.cursor ≡ some cursor
      → store.schema_version ≡ some new.schema_version
      → JsMap.Distinct store.rows
      → new.rows ≡ []
      → new.outbox ≡ []
      → let saved = save_outbox (outbox_snapshot old.outbox) old.confirmed_lmid store in
        let (restored, c) = hydrate false key (loaded (load saved)) new in
        (restored ≡ true)
        × (c.cursor ≡ some cursor)
        × (c.confirmed_lmid ≡ old.confirmed_lmid)
        × (pushed c.confirmed_lmid c.outbox ≡ pushed old.confirmed_lmid old.outbox)
        × (JsMap.get (tbl, id) c.rows
            ≡ (if new.registered tbl then JsMap.get (tbl, id) store.rows else none))
  unfolding save_outbox load hydrate restore
  hydrate-save_outbox key cursor store old new tbl id held version single no_rows no_outbox =
      rw (held, version, eq_refl new.schema_version)
        (
          refl,
          refl,
          refl,
          rw (no_outbox, append-nil (restored_entries key (outbox_snapshot old.outbox)))
              (pushed-restored_entries old.confirmed_lmid key old.outbox),
          rw no_rows (cached_only new.registered (tbl, id) store.rows single),
        )
