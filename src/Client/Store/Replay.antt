-- ===== src/Client/Store/Replay.antt =====
-- Patches are idempotent, so a stored cursor that lags the rows is harmless.
use cf_sync.Base.JsMap
use cf_sync.Base.JsMap.{JsMap}
use cf_sync.Base.Text.{Text}
use cf_sync.Base.{
  Bool-cases, List, Option, [], ap, arith, false, if◌then◌else◌, inl, inr, leb, list_beq_iff,
  list_eq, nat_eq, none, or_else, pair_eq, refl, some, sym, ◌<◌, ◌==◌, ◌∙◌, ◌∷◌, ◌≡◌, ◌≤◌, ◌⊎◌,
}
use cf_sync.Client.Store.{
  MemorySyncStore, PersistedRowOp, PokePersist, del_row, put_row, save_outbox, store_ops,
  store_poke,
}
use cf_sync.Protocol.Messages.{Cursor}
use cf_sync.Server.Patch.{Replica}

module _ {Json : Type 0} where
  -- The last operation on a key, if there is one: what it leaves there.
  abbrev pub last_write : Text × Text → List (PersistedRowOp Json) → Option (Option Json)
  last_write key [] = none
  last_write key (put_row tbl id row ∷ ops) = elim (last_write key ops) [
    | some v ↦ some v
    | none ↦ if (tbl, id) == key then some (some row) else none
  ]
  last_write key (del_row tbl id ∷ ops) = elim (last_write key ops) [
    | some v ↦ some v
    | none ↦ if (tbl, id) == key then some none else none
  ]

  get-store_ops :
      (key : Text × Text) (ops : List (PersistedRowOp Json)) (rows : Replica Json)
      → JsMap.get key (store_ops ops rows) ≡ or_else (last_write key ops) (JsMap.get key rows)
  unfolding store_ops
  get-store_ops key [] rows = refl
  get-store_ops key (put_row tbl id row ∷ ops) rows = ground (
    arith,
    get-store_ops key ops (JsMap.set (tbl, id) row rows),
    JsMap.get-set (tbl, id) key row rows,
  )
  get-store_ops key (del_row tbl id ∷ ops) rows = ground (
    arith,
    get-store_ops key ops (JsMap.delete (tbl, id) rows),
    JsMap.get-delete (tbl, id) key rows,
  )

  or_else-twice :
      (o : Option (Option Json)) (d : Option Json) → or_else o (or_else o d) ≡ or_else o d
  or_else-twice none d = refl
  or_else-twice (some v) d = refl

  -- Applying the operations of a patch to rows that already have them changes no row.
  pub store_ops-idempotent :
      (key : Text × Text) (ops : List (PersistedRowOp Json)) (rows : Replica Json)
      → JsMap.get key (store_ops ops (store_ops ops rows)) ≡ JsMap.get key (store_ops ops rows)
  store_ops-idempotent key ops rows =
      get-store_ops key ops (store_ops ops rows)
      ∙ ap (or_else (last_write key ops)) (get-store_ops key ops rows)
      ∙ or_else-twice (last_write key ops) (JsMap.get key rows)
      ∙ sym (get-store_ops key ops rows)

  -- Where the store in_outbox a cursor, a poke without a `clear` never takes it back within one history,
  -- and the rows that are stored are the ones of the cursor that is stored: the update's, or the old
  -- ones with the old cursor.
  pub store_poke-forward :
      (update : PokePersist Json) (s : MemorySyncStore Json) (held : Cursor)
      → s.cursor ≡ some held
      → update.truncate ≡ false
      → held.backend_id ≡ update.cursor.backend_id
      → ((store_poke update s).cursor ≡ some held)
          × ((store_poke update s).rows ≡ s.rows)
          × (update.cursor.version ≤ held.version)
        ⊎ ((store_poke update s).cursor ≡ some update.cursor)
          × ((store_poke update s).rows ≡ store_ops update.ops s.rows)
          × (held.version < update.cursor.version)
  unfolding store_poke save_outbox
  store_poke-forward update s held e t b =
      elim (Bool-cases (leb update.cursor.version held.version)) [
        | inl covered ↦ inl (
          ground (arith, list_beq_iff held.backend_id update.cursor.backend_id),
          ground (arith, list_beq_iff held.backend_id update.cursor.backend_id),
          ground arith,
        )
        | inr ahead ↦ inr (ground (arith), ground (arith), ground arith)
      ]
