-- ===== src/Client/LocalWrites/Optimistic.antt =====
-- An optimistic run buffers what the server will.
use cf_sync.Base.JsMap
use cf_sync.Base.JsMap.{JsMap}
use cf_sync.Base.Text.{Text}
use cf_sync.Base.{arith, false, list_eq, nat_eq, ok, pair_eq, refl, true, ◌≡◌, subst, sym}
use cf_sync.Client.LocalWrites.{
  LocalEngine, LocalWriteSet, local_del, local_get, local_put, need_applier, run_local,
}
use cf_sync.Engine.WriteSet.{
  Engine, WriteSet, accept_row, buffer_del, buffer_put, get_target, remember, run_program, tx_del,
  tx_get, tx_put,
}
use cf_sync.Engine.{validate_row, validate_target}
use cf_sync.Protocol.Mutators.{TxProgram, del_then, get_then, list_then, put_then, return, throw}

module _ {Json : Type 0} where
  abbrev pub SameBuffers : WriteSet Json → LocalWriteSet Json → Type 0
  SameBuffers w l = (l.puts ≡ w.puts) × (l.dels ≡ w.dels)

module _ {Json Store : Type 0} (engine : Engine Json Store) (store : Store) where
  -- A run of gets, puts and dels that the server accepts one by one.
  abbrev pub Accepted : TxProgram Json → WriteSet Json → Type 0
  Accepted return w = Unit
  Accepted (throw e) w = Unit
  Accepted (list_then tbl filter next) w = ⊥
  Accepted (get_then tbl id next) w =
      (validate_target tbl id ≡ ok tt)
      × Accepted (next (tx_get engine store tbl id w).0) (tx_get engine store tbl id w).1
  Accepted (put_then tbl id row next) w =
      ((stored : Json) × (accept_row engine store tbl id row ≡ ok stored))
      × Accepted (next (tx_put engine store tbl id row w).0) (tx_put engine store tbl id row w).1
  Accepted (del_then tbl id next) w =
      (validate_target tbl id ≡ ok tt)
      × Accepted (next (tx_del engine store tbl id w).0) (tx_del engine store tbl id w).1

module _ {Json Store : Type 0} (engine : Engine Json Store) (store : Store)
    (local : LocalEngine Json) where
  -- The client sees the server's rows, under its schema, with every table attached.
  pub record Mirrored : Type 0 where
    pub schema : local.schema ≡ engine.schema
    pub tables : (tbl : Text) → local.registered tbl ≡ true
    pub rows : (tbl id : Text) → JsMap.get (tbl, id) local.rows ≡ engine.rows.get store tbl id

  module _ (m : Mirrored) (at_put : engine.validate_at_flush ≡ false) where
    get-same :
        (tbl id : Text) (w : WriteSet Json) (l : LocalWriteSet Json)
        → SameBuffers w l
        → validate_target tbl id ≡ ok tt
        → (local_get local tbl id l ≡ (tx_get engine store tbl id w).0)
          × SameBuffers (tx_get engine store tbl id w).1 l
    unfolding local_get need_applier tx_get get_target remember
    get-same tbl id w l s v = ground (arith, m.tables tbl, m.rows tbl id)

    accepted_row :
        (tbl id : Text) (row stored : Json)
        → accept_row engine store tbl id row ≡ ok stored
        → validate_row local.schema tbl row ≡ ok stored
    unfolding accept_row
    accepted_row tbl id row stored a = ground (arith, m.schema, at_put)

    put-same :
        (tbl id : Text) (row stored : Json) (w : WriteSet Json) (l : LocalWriteSet Json)
        → SameBuffers w l
        → accept_row engine store tbl id row ≡ ok stored
        → ((local_put local tbl id row l).0 ≡ (tx_put engine store tbl id row w).0)
          × SameBuffers (tx_put engine store tbl id row w).1 (local_put local tbl id row l).1
    unfolding local_put need_applier tx_put buffer_put remember
    put-same tbl id row stored w l s a =
        ground (arith, m.tables tbl, accepted_row tbl id row stored a)

    del-same :
        (tbl id : Text) (w : WriteSet Json) (l : LocalWriteSet Json)
        → SameBuffers w l
        → validate_target tbl id ≡ ok tt
        → ((local_del local tbl id l).0 ≡ (tx_del engine store tbl id w).0)
          × SameBuffers (tx_del engine store tbl id w).1 (local_del local tbl id l).1
    unfolding local_del need_applier tx_del buffer_del remember
    del-same tbl id w l s v = ground (arith, m.tables tbl)

    -- Where the client mirrors the server's rows under its schema, with every table attached, and the
    -- server validates rows at put, an optimistic run of gets, puts and dels that the server accepts
    -- one by one has the server's result, and from the same buffers ends with the same puts and dels.
    pub run_local-run_program :
        (program : TxProgram Json) (w : WriteSet Json) (l : LocalWriteSet Json)
        → SameBuffers w l
        → Accepted engine store program w
        → ((run_local local program l).0 ≡ (run_program engine store program w).0)
          × SameBuffers (run_program engine store program w).1 (run_local local program l).1
    unfolding run_local run_program
    run_local-run_program return w l s a = (refl, s)
    run_local-run_program (throw e) w l s a = (refl, s)
    run_local-run_program (list_then tbl filter next) w l s a = absurd a
    run_local-run_program (get_then tbl id next) w l s a =
        let (r, s') = get-same tbl id w l s a.0 in
        let rest =
          run_local-run_program (next (tx_get engine store tbl id w).0)
            (tx_get engine store tbl id w).1 l s' a.1 in
        subst
          (λ x.
            ((run_local local (next x) l).0 ≡ (run_program engine store (get_then tbl id next) w).0)
            × SameBuffers (run_program engine store (get_then tbl id next) w).1
                (run_local local (next x) l).1)
          (sym r) rest
    run_local-run_program (put_then tbl id row next) w l s a =
        let ((stored, accepted), more) = a in
        let (r, s') = put-same tbl id row stored w l s accepted in
        let l' = (local_put local tbl id row l).1 in
        let rest =
          run_local-run_program (next (tx_put engine store tbl id row w).0)
            (tx_put engine store tbl id row w).1 l' s' more in
        subst
          (λ x.
            ((run_local local (next x) l').0
              ≡ (run_program engine store (put_then tbl id row next) w).0)
            × SameBuffers (run_program engine store (put_then tbl id row next) w).1
                (run_local local (next x) l').1)
          (sym r) rest
    run_local-run_program (del_then tbl id next) w l s a =
        let (r, s') = del-same tbl id w l s a.0 in
        let l' = (local_del local tbl id l).1 in
        let rest =
          run_local-run_program (next (tx_del engine store tbl id w).0)
            (tx_del engine store tbl id w).1 l' s' a.1 in
        subst
          (λ x.
            ((run_local local (next x) l').0
              ≡ (run_program engine store (del_then tbl id next) w).0)
            × SameBuffers (run_program engine store (del_then tbl id next) w).1
                (run_local local (next x) l').1)
          (sym r) rest
