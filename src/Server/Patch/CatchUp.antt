-- ===== src/Server/Patch/CatchUp.antt =====
-- Where a patch leaves the replica that applies it.
use cf_sync.Base.JsMap
use cf_sync.Base.JsMap.{JsMap}
use cf_sync.Base.Text.{Text}
use cf_sync.Base.{
  Bool, KeyEq, Option, [], arith, eq_iff, if◌then◌else◌, keep, list_eq, map, nat_eq, none, pair_eq,
  refl, some, ◌==◌, ◌∙◌, ◌∷◌, ◌≡◌, ap, ℕ, ◌≤◌,
}
use cf_sync.Server.Patch.{
  Replica, apply_ops, insert_row, order_by, row_op, apply_op, bootstrap_patch, by_key, by_version,
  is_live, newer, patch_since,
}
use cf_sync.Server.SqlRows.{live_content, live}
use cf_sync.Server.State.{Row, Rows}

module _ {K V : Type 0} ⦃e : KeyEq K⦄ where
  -- What a map answers once the entries that fail `p` are left out.
  abbrev pub kept : (K × V → Bool) → K → Option V → Option V
  kept p k none = none
  kept p k (some v) = if p (k, v) then some v else none

  pub get-keep :
      (p : K × V → Bool) (k : K) (m : JsMap K V)
      → JsMap.Distinct m
      → JsMap.get k (keep p m) ≡ kept p k (JsMap.get k m)
  unfolding JsMap.get
  get-keep p k [] d = refl
  get-keep p k ((j, v) ∷ m) d = ground (arith, eq_iff j k, get-keep p k m d.1)

  pub keep-Distinct :
      (p : K × V → Bool) (m : JsMap K V) → JsMap.Distinct m → JsMap.Distinct (keep p m)
  keep-Distinct p [] d = tt
  keep-Distinct p ((j, v) ∷ m) d = ground (arith, get-keep p j m d.1, keep-Distinct p m d.1)

  module _ (precedes : K × V → K × V → Bool) where
    get-insert_row :
        (k j : K) (v : V) (m : JsMap K V)
        → JsMap.Fresh j m
        → JsMap.get k (insert_row precedes (j, v) m) ≡ (if j == k then some v else JsMap.get k m)
    unfolding JsMap.get
    get-insert_row k j v [] f = refl
    get-insert_row k j v ((i, w) ∷ m) f =
        ground (arith, eq_iff i k, eq_iff j k, eq_iff i j, get-insert_row k j v m)

    insert_row-Distinct :
        (j : K) (v : V) (m : JsMap K V)
        → JsMap.Fresh j m
        → JsMap.Distinct m
        → JsMap.Distinct (insert_row precedes (j, v) m)
    unfolding JsMap.get
    insert_row-Distinct j v [] f d = (refl, tt)
    insert_row-Distinct j v ((i, w) ∷ m) f d =
        ground (arith, eq_iff i j, eq_iff j i, get-insert_row i j v m, insert_row-Distinct j v m)

    order_by-keeps :
        (m : JsMap K V)
        → JsMap.Distinct m
        → JsMap.Distinct (order_by precedes m)
          × ((k : K) → JsMap.get k (order_by precedes m) ≡ JsMap.get k m)
    unfolding JsMap.get
    order_by-keeps [] d = (tt, λ k. refl)
    order_by-keeps ((j, v) ∷ m) d =
        let (distinct, same) = order_by-keeps m d.1 in
        (
          insert_row-Distinct j v (order_by precedes m) (same j ∙ d.0) distinct,
          λ k. get-insert_row k j v (order_by precedes m) (same j ∙ d.0) ∙ ground (arith, same k),
        )

module _ {Json : Type 0} where
  -- What the operation of a row leaves under its key.
  abbrev pub laid_over : Option (Row Json) → Option Json → Option Json
  laid_over none old = old
  laid_over (some row) old = live_content (some row)

  get-apply_ops :
      (key : Text × Text) (rows : Rows Json) (r : Replica Json)
      → JsMap.Distinct rows
      → JsMap.get key (apply_ops (map row_op rows) r)
        ≡ laid_over (JsMap.get key rows) (JsMap.get key r)
  unfolding JsMap.get
  get-apply_ops key [] r d = refl
  get-apply_ops key ((k, row) ∷ rows) r d = ground (
    arith,
    d.0,
    eq_iff k key,
    get-apply_ops key rows (apply_op (row_op (k, row)) r) d.1,
    JsMap.get-set k key row.content r,
    JsMap.get-delete k key r,
  )

  get-selected :
      (precedes : (Text × Text) × Row Json → (Text × Text) × Row Json → Bool)
      (p : (Text × Text) × Row Json → Bool) (key : Text × Text) (rows : Rows Json)
      (r : Replica Json)
      → JsMap.Distinct rows
      → JsMap.get key (apply_ops (map row_op (order_by precedes (keep p rows))) r)
        ≡ laid_over (kept p key (JsMap.get key rows)) (JsMap.get key r)
  get-selected precedes p key rows r d =
      let (distinct, same) = order_by-keeps precedes (keep p rows) (keep-Distinct p rows d) in
      get-apply_ops key (order_by precedes (keep p rows)) r distinct
      ∙ ap (λ o. laid_over o (JsMap.get key r)) (same key ∙ get-keep p key rows d)

  -- A replica at `version`: it agrees on every row that has not been written since.
  abbrev pub TrackedAt : ℕ → Option (Row Json) → Option Json → Type 0
  TrackedAt version none held = held ≡ none
  TrackedAt version (some row) held = row.version ≤ version → held ≡ live_content (some row)

  abbrev pub Tracks : ℕ → Rows Json → Replica Json → Type 0
  Tracks version rows r =
      (key : Text × Text) → TrackedAt version (JsMap.get key rows) (JsMap.get key r)

  -- A replica holds what the server's readers see.
  abbrev pub Mirrors : Rows Json → Replica Json → Type 0
  Mirrors rows r = (key : Text × Text) → JsMap.get key r ≡ live rows key

  laid_over-Tracked :
      (version : ℕ) (key : Text × Text) (stored : Option (Row Json)) (held : Option Json)
      → TrackedAt version stored held
      → laid_over (kept (newer version) key stored) held ≡ live_content stored
  laid_over-Tracked version key none held t = t
  laid_over-Tracked version key (some row) held t = ground (arith, t)

  -- A replica that tracks the server's rows at the version of its cursor mirrors them once it has
  -- applied the patch since that version.
  pub patch_since-Mirrors :
      (version : ℕ) (rows : Rows Json) (r : Replica Json)
      → JsMap.Distinct rows
      → Tracks version rows r
      → Mirrors rows (apply_ops (patch_since version rows) r)
  unfolding patch_since live
  patch_since-Mirrors version rows r d t key =
      get-selected by_version (newer version) key rows r d
      ∙ laid_over-Tracked version key (JsMap.get key rows) (JsMap.get key r) (t key)

  laid_over-live :
      (key : Text × Text) (stored : Option (Row Json))
      → laid_over (kept is_live key stored) none ≡ live_content stored
  laid_over-live key none = refl
  laid_over-live key (some row) = ground arith

  -- A replica mirrors the server's rows once it has applied the bootstrap patch, whatever it held
  -- before.
  pub bootstrap_patch-Mirrors :
      (rows : Rows Json) (r : Replica Json)
      → JsMap.Distinct rows
      → Mirrors rows (apply_ops (bootstrap_patch rows) r)
  unfolding bootstrap_patch live JsMap.get
  bootstrap_patch-Mirrors rows r d key =
      get-selected by_key is_live key rows [] d ∙ laid_over-live key (JsMap.get key rows)
