-- ===== src/Engine/WriteSet/Coherent.antt =====
-- What holds of every write set that a mutation can build.
use cf_sync.Base.JsMap
use cf_sync.Base.JsMap.{JsMap}
use cf_sync.Base.Text.{Text}
use cf_sync.Base.{
  Result-cases, arith, inl, inr, list_eq, nat_eq, none, ok, pair_eq, refl, true, ◌≡◌,
}
use cf_sync.Engine.WriteSet.{
  Engine, RowWrite, Target, WriteSet, accept_row, buffer_del, buffer_put, get_target, new_write_set,
  run_program, tx_del, tx_get, tx_list, tx_put,
}
use cf_sync.Engine.{row_key, validate_target}
use cf_sync.Protocol.Mutators.{TxProgram, del_then, get_then, list_then, put_then, return, throw}

module _ {Json Store : Type 0} (engine : Engine Json Store) (store : Store) where
  -- A buffered put is what `put` accepted, under its own key.
  abbrev pub IsPut : Text → RowWrite Json → Type 0
  IsPut k p =
      (k ≡ row_key p.tbl p.id)
      × ((row : Json) × (accept_row engine store p.tbl p.id row ≡ ok p.content))

  abbrev pub IsDel : Text → Target → Type 0
  IsDel k t = (k ≡ row_key t.tbl t.id) × (validate_target t.tbl t.id ≡ ok tt)

  pub record IsCoherent (w : WriteSet Json) : Type 0 where
    pub puts : JsMap.AllEntries IsPut w.puts
    pub dels : JsMap.AllEntries IsDel w.dels
    pub distinct_puts : JsMap.Distinct w.puts
    pub distinct_dels : JsMap.Distinct w.dels
    pub disjoint : (k : Text) → JsMap.has k w.dels ≡ true → JsMap.get k w.puts ≡ none

  pub new-IsCoherent : IsCoherent new_write_set
  unfolding JsMap.get
  new-IsCoherent = record {
    puts = tt;
    dels = tt;
    distinct_puts = tt;
    distinct_dels = tt;
    disjoint = λ k h. refl;
  }

  -- Of a write set only the two buffers matter here.
  same-IsCoherent :
      (w v : WriteSet Json) → v.puts ≡ w.puts → v.dels ≡ w.dels → IsCoherent w → IsCoherent v
  same-IsCoherent w v p d c = record {
    puts = rw p c.puts;
    dels = rw d c.dels;
    distinct_puts = rw p c.distinct_puts;
    distinct_dels = rw d c.distinct_dels;
    disjoint = rw (p, d) c.disjoint;
  }

  tx_get-buffers :
      (tbl id : Text) (w : WriteSet Json)
      → ((tx_get engine store tbl id w).1.puts ≡ w.puts)
        × ((tx_get engine store tbl id w).1.dels ≡ w.dels)
  unfolding tx_get get_target
  tx_get-buffers tbl id w = (ground arith, ground arith)

  buffer_put-buffers :
      (tbl id : Text) (row : Json) (w : WriteSet Json)
      → ((buffer_put engine store tbl id row w).puts
          ≡ JsMap.set (row_key tbl id) (record { tbl = tbl; id = id; content = row }) w.puts)
        × ((buffer_put engine store tbl id row w).dels ≡ JsMap.delete (row_key tbl id) w.dels)
  unfolding buffer_put
  buffer_put-buffers tbl id row w = (ground arith, ground arith)

  buffer_del-buffers :
      (tbl id : Text) (w : WriteSet Json)
      → ((buffer_del engine store tbl id w).puts ≡ JsMap.delete (row_key tbl id) w.puts)
        × ((buffer_del engine store tbl id w).dels
            ≡ JsMap.set (row_key tbl id) (record { tbl = tbl; id = id }) w.dels)
  unfolding buffer_del
  buffer_del-buffers tbl id w = (ground arith, ground arith)

  put-disjoint :
      (k : Text) (p : RowWrite Json) (w : WriteSet Json)
      → ((j : Text) → JsMap.has j w.dels ≡ true → JsMap.get j w.puts ≡ none)
      → (j : Text) → JsMap.has j (JsMap.delete k w.dels) ≡ true
      → JsMap.get j (JsMap.set k p w.puts) ≡ none
  put-disjoint k p w d j h =
      ground (arith, JsMap.get-delete k j w.dels, JsMap.get-set k j p w.puts, d j)

  del-disjoint :
      (k : Text) (t : Target) (w : WriteSet Json)
      → ((j : Text) → JsMap.has j w.dels ≡ true → JsMap.get j w.puts ≡ none)
      → (j : Text) → JsMap.has j (JsMap.set k t w.dels) ≡ true
      → JsMap.get j (JsMap.delete k w.puts) ≡ none
  del-disjoint k t w d j h =
      ground (arith, JsMap.get-delete k j w.puts, JsMap.get-set k j t w.dels, d j)

  tx_put-IsCoherent :
      (tbl id : Text) (row : Json) (w : WriteSet Json)
      → IsCoherent w
      → IsCoherent (tx_put engine store tbl id row w).1
  unfolding tx_put
  tx_put-IsCoherent tbl id row w c = elim (Result-cases (accept_row engine store tbl id row)) [
    | inl (stored, a) ↦
        let (ep, ed) = buffer_put-buffers tbl id stored w in
        let k = row_key tbl id in
        rw (a, tx_put)
          (record {
            puts = rw ep (JsMap.set-AllEntries IsPut k _ w.puts (refl, (row, a)) c.puts);
            dels = rw ed (JsMap.delete-AllEntries IsDel k w.dels c.dels);
            distinct_puts = rw ep (JsMap.set-Distinct k _ w.puts c.distinct_puts);
            distinct_dels = rw ed (JsMap.delete-Distinct k w.dels c.distinct_dels);
            disjoint = rw (ep, ed) (put-disjoint k _ w c.disjoint);
          })
    | inr (e, a) ↦ rw (a, tx_put) c
  ]

  tx_del-IsCoherent :
      (tbl id : Text) (w : WriteSet Json)
      → IsCoherent w
      → IsCoherent (tx_del engine store tbl id w).1
  unfolding tx_del
  tx_del-IsCoherent tbl id w c = elim (Result-cases (validate_target tbl id)) [
    | inl (u, v) ↦
        let (ep, ed) = buffer_del-buffers tbl id w in
        let k = row_key tbl id in
        rw (v, tx_del)
          (record {
            puts = rw ep (JsMap.delete-AllEntries IsPut k w.puts c.puts);
            dels = rw ed (JsMap.set-AllEntries IsDel k _ w.dels (refl, v) c.dels);
            distinct_puts = rw ep (JsMap.delete-Distinct k w.puts c.distinct_puts);
            distinct_dels = rw ed (JsMap.set-Distinct k _ w.dels c.distinct_dels);
            disjoint = rw (ep, ed) (del-disjoint k _ w c.disjoint);
          })
    | inr (e, v) ↦ rw (v, tx_del) c
  ]

  -- Whatever operations a mutator makes, with errors caught or not, its write set stays coherent:
  -- each key has one write, a put or a del and never both, and every put was validated.
  pub run_program-IsCoherent :
      (program : TxProgram Json) (w : WriteSet Json)
      → IsCoherent w
      → IsCoherent (run_program engine store program w).1
  unfolding run_program
  run_program-IsCoherent return w c = c
  run_program-IsCoherent (throw e) w c = c
  run_program-IsCoherent (get_then tbl id next) w c =
      let (r, w') = tx_get engine store tbl id w in
      let (ep, ed) = tx_get-buffers tbl id w in
      run_program-IsCoherent (next r) w' (same-IsCoherent w w' ep ed c)
  run_program-IsCoherent (list_then tbl filter next) w c =
      run_program-IsCoherent (next (tx_list engine store tbl filter w)) w c
  run_program-IsCoherent (put_then tbl id row next) w c =
      let (r, w') = tx_put engine store tbl id row w in
      run_program-IsCoherent (next r) w' (tx_put-IsCoherent tbl id row w c)
  run_program-IsCoherent (del_then tbl id next) w c =
      let (r, w') = tx_del engine store tbl id w in
      run_program-IsCoherent (next r) w' (tx_del-IsCoherent tbl id w c)
