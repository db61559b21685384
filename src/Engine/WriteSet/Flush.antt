-- ===== src/Engine/WriteSet/Flush.antt =====
-- `flush`: the store afterwards reads as the overlay did, and what it counts.
use cf_sync.Base.JsMap
use cf_sync.Base.JsMap.{JsMap}
use cf_sync.Base.Text.{Text}
use cf_sync.Base.{
  Option, Result, Result-cases, [], arith, err, if◌then◌else◌, inl, inr, list_eq, nat_eq, none, ok,
  pair_eq, some, true, ℕ, ◌∷◌, ◌≡◌, false, length, list_beq_iff, refl, ◌∙◌, ◌≢◌,
}
use cf_sync.Engine.Keys.{target-name_ok, row_key-same_target}
use cf_sync.Engine.WriteSet.Coherent.{IsPut, IsCoherent, IsDel}
use cf_sync.Engine.WriteSet.Overlay.{accept_row-target, overlay}
use cf_sync.Engine.WriteSet.{
  Engine, Flushed, RowWrite, WriteSet, flush_puts, flushed_row, FlushResult, Target, flush,
  flush_del, flush_dels, list_changes,
}
use cf_sync.Engine.{IsRowStore, row_key, table_name_ok}
use cf_sync.Protocol.Mutators.{Thrown}

module _ {Json Store : Type 0} (engine : Engine Json Store) (laws : IsRowStore engine.rows) where
  open engine use {rows}

  abbrev value_of : Result Thrown Json → Option Json
  value_of (ok row) = some row
  value_of (err e) = none

  abbrev after_put : Store → Option (RowWrite Json) → Option Json → Option Json
  after_put start none stored = stored
  after_put start (some p) stored = value_of (flushed_row engine start p)

  -- The row under a target once the write set has been flushed: a put is stored as `flush`
  -- validates it.
  abbrev pub settled : Store → WriteSet Json → Text → Text → Option Json
  settled start w tbl id =
      let k = row_key tbl id in
      if JsMap.has k w.dels
      then none
      else after_put start (JsMap.get k w.puts) (rows.get start tbl id)

  abbrev Puts : Store → JsMap Text (RowWrite Json) → Type 0
  Puts start = JsMap.AllEntries (IsPut engine start)

  IsPut-name_ok :
      (start : Store) (k : Text) (p : RowWrite Json)
      → IsPut engine start k p
      → table_name_ok p.tbl ≡ true
  IsPut-name_ok start k p (e, (row, a)) =
      target-name_ok p.tbl p.id (accept_row-target engine start p.tbl p.id row a)

  get-flush_puts :
      (start : Store) (version : ℕ) (puts : JsMap Text (RowWrite Json)) (f : Flushed Json Store)
      {g : Flushed Json Store} (t i : Text)
      → Puts start puts
      → JsMap.Distinct puts
      → table_name_ok t ≡ true
      → flush_puts engine version start puts f ≡ ok g
      → rows.get g.store t i ≡ after_put start (JsMap.get (row_key t i) puts) (rows.get f.store t i)
  unfolding flush_puts JsMap.get
  get-flush_puts start version [] f t i a d q h = ground arith
  get-flush_puts start version ((k, p) ∷ rest) f {g} t i a d q h =
      elim (Result-cases (flushed_row engine start p)) [
        | inr (e, bad) ↦ absurd (ground arith)
        | inl (stored, good) ↦
            let f' : Flushed Json Store = record {
              store = rows.put f.store p.tbl p.id stored version;
              after = JsMap.set (row_key p.tbl p.id) (some stored) f.after;
            } in
            ground (
              arith,
              get-flush_puts start version rest f' {g = g} t i a.1 d.1 q,
              laws.get-put f.store p.tbl p.id t i stored version (IsPut-name_ok start k p a.0) q,
              row_key-same_target p.tbl p.id t i (IsPut-name_ok start k p a.0) q,
              list_beq_iff k (row_key t i),
              a.0.0,
              d.0,
            )
      ]

  get-flush_dels :
      (start : Store) (version : ℕ) (dels : JsMap Text Target) (f : Flushed Json Store) (t i : Text)
      → JsMap.AllEntries (IsDel engine start) dels
      → table_name_ok t ≡ true
      → rows.get (flush_dels engine version dels f).store t i
        ≡ (if JsMap.has (row_key t i) dels then none else rows.get f.store t i)
  unfolding flush_dels JsMap.get
  get-flush_dels start version [] f t i a q = refl
  get-flush_dels start version ((k, d) ∷ rest) f t i a q =
      let p = target-name_ok d.tbl d.id a.0.1 in
      ground (
        arith,
        get-flush_dels start version rest (flush_del engine version d f) t i a.1 q,
        laws.get-del f.store d.tbl d.id t i version p q,
        row_key-same_target d.tbl d.id t i p q,
        list_beq_iff k (row_key t i),
        a.0.0,
      )

  -- After a successful flush every row reads as the write set had it settled: as stored by its put,
  -- gone by its del, untouched otherwise.
  pub flush-settled :
      (start : Store) (version : ℕ) (w : WriteSet Json) (t i : Text)
      {r : FlushResult engine version}
      → IsCoherent engine start w
      → table_name_ok t ≡ true
      → flush engine version start w ≡ ok r
      → rows.get r.store t i ≡ settled start w t i
  unfolding flush
  flush-settled start version w t i {r} c q h =
      elim (Result-cases
        (flush_puts engine version start w.puts (record { store = start; after = [] }))) [
          | inr (e, bad) ↦ absurd (ground arith)
          | inl (g, good) ↦ ground (
            arith,
            get-flush_puts start version w.puts (record { store = start; after = [] }) {g = g} t i
                c.puts c.distinct_puts q good,
            get-flush_dels start version w.dels g t i c.dels q,
          )
        ]

  flush_puts_total :
      (start : Store) (version : ℕ) (puts : JsMap Text (RowWrite Json)) (f : Flushed Json Store)
      → engine.validate_at_flush ≡ false
      → (g : Flushed Json Store) × (flush_puts engine version start puts f ≡ ok g)
  unfolding flush_puts flushed_row
  flush_puts_total start version [] f v = (f, refl)
  flush_puts_total start version ((k, p) ∷ rest) f v = rw v (
      flush_puts_total start version rest
        (record {
          store = rows.put f.store p.tbl p.id p.content version;
          after = JsMap.set (row_key p.tbl p.id) (some p.content) f.after;
        })
        v)

  settled-overlay :
      (start : Store) (w : WriteSet Json) (t i : Text)
      → engine.validate_at_flush ≡ false
      → settled start w t i ≡ overlay engine start w t i
  unfolding overlay flushed_row
  settled-overlay start w t i v = ground arith

  -- Where rows are validated at `put` (every mutation), the flush of a coherent write set succeeds,
  -- and afterwards every row of a valid table reads as the mutation saw it.
  pub flush-overlay :
      (start : Store) (version : ℕ) (w : WriteSet Json)
      → IsCoherent engine start w
      → engine.validate_at_flush ≡ false
      → (r : FlushResult engine version) × (flush engine version start w ≡ ok r)
        × ((t i : Text)
            → table_name_ok t ≡ true
            → rows.get r.store t i ≡ overlay engine start w t i)
  unfolding flush
  flush-overlay start version w c v =
      let (g, good) =
        flush_puts_total start version w.puts (record { store = start; after = [] }) v in
      let done = flush_dels engine version w.dels g in
      let r : FlushResult engine version = record {
        store = done.store;
        written = length done.after;
        changes = list_changes engine version w done.after w.before;
      } in
      let e : flush engine version start w ≡ ok r = ground (arith, good) in
      (
        r,
        e,
        λ t i q. flush-settled start version w t i {r = r} c q e ∙ settled-overlay start w t i v,
      )

  -- `set` never empties a map, so a flush that counts nothing had no put.
  set-nonempty :
      (k : Text) (v : Option Json) (m : JsMap Text (Option Json)) → length (JsMap.set k v m) ≢ 0
  unfolding JsMap.set
  set-nonempty k v [] = λ e. ground arith
  set-nonempty k v ((j, w) ∷ m) = λ e. ground arith

  puts_count :
      (start : Store) (version : ℕ) (puts : JsMap Text (RowWrite Json)) (f g : Flushed Json Store)
      → flush_puts engine version start puts f ≡ ok g
      → length g.after ≡ 0
      → (length f.after ≡ 0) × (g.store ≡ f.store)
  unfolding flush_puts
  puts_count start version [] f g h z = (ground arith, ground arith)
  puts_count start version ((k, p) ∷ rest) f g h z =
      elim (Result-cases (flushed_row engine start p)) [
        | inr (e, bad) ↦ absurd (ground arith)
        | inl (stored, good) ↦ absurd (
            set-nonempty (row_key p.tbl p.id) (some stored) f.after
              (puts_count start version rest
                (record {
                  store = rows.put f.store p.tbl p.id stored version;
                  after = JsMap.set (row_key p.tbl p.id) (some stored) f.after;
                })
                g (ground arith) z).0)
      ]

  dels_count :
      (version : ℕ) (dels : JsMap Text Target) (f : Flushed Json Store)
      → length (flush_dels engine version dels f).after ≡ 0
      → (length f.after ≡ 0) × ((flush_dels engine version dels f).store ≡ f.store)
  unfolding flush_dels
  dels_count version [] f z = (z, refl)
  dels_count version ((k, t) ∷ rest) f z =
      let (a, b) = dels_count version rest (flush_del engine version t f) z in
      ground (
        arith,
        a,
        b,
        laws.del_noop f.store t.tbl t.id version,
        set-nonempty (row_key t.tbl t.id) none f.after,
      )

  -- A flush that counts no write has changed nothing.
  pub flush_nothing :
      (start : Store) (version : ℕ) (w : WriteSet Json) (r : FlushResult engine version)
      → flush engine version start w ≡ ok r
      → r.written ≡ 0
      → r.store ≡ start
  unfolding flush
  flush_nothing start version w r h z =
      elim (Result-cases
        (flush_puts engine version start w.puts (record { store = start; after = [] }))) [
          | inr (e, bad) ↦ absurd (ground arith)
          | inl (g, good) ↦
              let (a, b) = dels_count version w.dels g (ground arith) in
              let (c, d) =
                puts_count start version w.puts (record { store = start; after = [] }) g good a in
              ground (arith, b, d)
        ]
