-- ===== src/Server/Mutate/Contract.antt =====
-- What `#applyMutation` commits, whatever the mutator does.
use cf_sync.Base.JsMap
use cf_sync.Base.JsMap.{JsMap}
use cf_sync.Base.Text.{Text}
use cf_sync.Base.{
  >>=-eq-ok, Bool-cases, Option-cases, Result, Result-cases, arith, err, inl, inr, length, list_eq,
  ltb, nat_eq, none, ok, pair_eq, refl, some, subst, true, ℕ, ◌+◌, ◌>>=◌, ◌≡◌, ◌⊎◌, ap,
  length-append, ◌∙◌,
}
use cf_sync.Engine.WriteSet.Flush.{flush_nothing}
use cf_sync.Engine.WriteSet.{FlushResult, WriteSet, flush, new_write_set, run_program}
use cf_sync.Protocol.Messages.{Mutation}
use cf_sync.Protocol.Mutators.{Thrown, TxProgram, app_error, other_error}
use cf_sync.Server.Mutate.Distinct.{flush-Distinct}
use cf_sync.Server.Mutate.Stamps.{Stamped, flush-Stamped}
use cf_sync.Server.Mutate.{
  Effects, apply_mutation, catch_app_error, commit_effects, context, engine, flushed_effects,
  last_mutation_id, mutation_effects, parse_args, run_mutator, update_client,
}
use cf_sync.Server.SqlRows.{sql_rows-IsRowStore}
use cf_sync.Server.State.{Attachment, Client, Config, Disk, Rows}

pub get-update_client :
    (id : Text) (client : Client) (clients : JsMap Text Client)
    → JsMap.has id clients ≡ true
    → JsMap.get id (update_client id client clients) ≡ some client
unfolding update_client
get-update_client id client clients known = ground (arith, JsMap.get-set_self id client clients)

module _ {Json : Type 0} (config : Config Json) where
  -- Rows stamped with the candidate, which is counted as written unless the rows are as they were.
  abbrev pub Outcome : ℕ → Rows Json → Effects config → Type 0
  Outcome candidate rows e =
      ((e.rows ≡ rows) × (e.wrote_version ≡ none))
      ⊎ ((e.wrote_version ≡ some candidate)
          × (e.rejection ≡ none)
          × Stamped candidate rows e.rows
          × (JsMap.Distinct rows → JsMap.Distinct e.rows))

  flushed-Outcome :
      (candidate : ℕ) (rows : Rows Json) (writes : WriteSet Json)
      (f : FlushResult (engine config) candidate)
      → flush (engine config) candidate rows writes ≡ ok f
      → Outcome candidate rows (flushed_effects config candidate f)
  flushed-Outcome candidate rows writes f h = elim (Bool-cases (ltb 0 f.written)) [
    | inl some_rows ↦ inr (
      ground arith,
      refl,
      flush-Stamped (engine config) config.prefilter refl rows candidate writes f h,
      λ d. flush-Distinct (engine config) config.prefilter refl rows candidate writes f d h,
    )
    | inr no_rows ↦ inl (
      flush_nothing (engine config) (sql_rows-IsRowStore config.prefilter) rows candidate writes f h
          (ground arith),
      ground arith,
    )
  ]

  run_mutator-Outcome :
      (program : TxProgram Json) (candidate : ℕ) (rows : Rows Json) (e : Effects config)
      → run_mutator config program candidate rows ≡ ok e
      → Outcome candidate rows e
  unfolding run_mutator
  run_mutator-Outcome program candidate rows e h =
      let (r, writes) = run_program (engine config) rows program new_write_set in
      elim (Result-cases r) [
        | inr (thrown, bad) ↦ absurd (ground arith)
        | inl (u, good) ↦ elim (Result-cases (flush (engine config) candidate rows writes)) [
          | inr (thrown, bad) ↦ absurd (ground arith)
          | inl (f, done) ↦
              subst (Outcome candidate rows) {x = flushed_effects config candidate f} {y = e}
                (ground arith) (flushed-Outcome candidate rows writes f done)
        ]
      ]

  catch-Outcome :
      (candidate : ℕ) (rows : Rows Json) (e : Effects config) (r : Result Thrown (Effects config))
      → ((e' : Effects config) → r ≡ ok e' → Outcome candidate rows e')
      → catch_app_error config rows r ≡ ok e
      → Outcome candidate rows e
  catch-Outcome candidate rows e (ok e') k h = k e (ground arith)
  catch-Outcome candidate rows e (err (app_error code)) k h = inl (ground arith, ground arith)
  catch-Outcome candidate rows e (err other_error) k h = absurd (ground arith)

module _ {Json : Type 0} (config : Config Json) (now : ℕ) (attachment : Attachment Json)
    (mutation : Mutation Json) where
  pub mutation_effects-Outcome :
      (candidate : ℕ) (rows : Rows Json) (e : Effects config)
      → mutation_effects config attachment mutation candidate rows ≡ ok e
      → Outcome config candidate rows e
  unfolding mutation_effects
  mutation_effects-Outcome candidate rows e h =
      elim (Option-cases (JsMap.get mutation.name config.app.mutators)) [
        | inl unknown ↦ inl (ground arith, ground arith)
        | inr (mutator, found) ↦
            let run : Json → Result Thrown (Effects config) = λ args.
              run_mutator config (mutator.apply args (context config attachment mutation)) candidate
                rows in
            catch-Outcome config candidate rows e (parse_args config mutator mutation.args >>= run)
              (λ e' k.
                let (args, a, b) = >>=-eq-ok (parse_args config mutator mutation.args) run k in
                run_mutator-Outcome config (mutator.apply args (context config attachment mutation))
                  candidate rows e' b)
              (ground arith)
      ]

  pub apply_mutation-inv :
      (disk next : Disk Json) (e : Effects config)
      → apply_mutation config now attachment mutation disk ≡ ok (next, e)
      → (mutation_effects config attachment mutation (disk.meta.current_version + 1) disk.rows
          ≡ ok e)
        × (next ≡ commit_effects config now attachment mutation disk e)
  unfolding apply_mutation
  apply_mutation-inv disk next e h =
      let (m, a, b) =
        >>=-eq-ok
          (mutation_effects config attachment mutation (disk.meta.current_version + 1) disk.rows)
          (λ e. ok (commit_effects config now attachment mutation disk e, e)) h in
      (ground (arith, a, b), ground (arith, b))

  -- A mutation of a known client that is not thrown counts, rejected or not: its id is the client's
  -- last mutation id in the next disk, and the log has one more entry.
  pub apply_mutation-advances :
      (disk next : Disk Json) (e : Effects config)
      → apply_mutation config now attachment mutation disk ≡ ok (next, e)
      → JsMap.has attachment.client_id disk.clients ≡ true
      → (last_mutation_id next attachment.client_id ≡ mutation.id)
        × (length next.log ≡ length disk.log + 1)
  unfolding commit_effects last_mutation_id
  apply_mutation-advances disk next e h known =
      let (a, b) = apply_mutation-inv disk next e h in
      let stamp : Client = record { last_mutation_id = mutation.id; last_seen_at = now } in
      (
        ground (arith, b, get-update_client attachment.client_id stamp disk.clients known),
        ap (λ d. length d.log) b ∙ length-append disk.log _,
      )

  -- The next disk has the version it had and the same rows, or it is one version on, the mutation
  -- was not rejected, and every row that changed is stamped with the new version.
  pub apply_mutation-Stamped :
      (disk next : Disk Json) (e : Effects config)
      → apply_mutation config now attachment mutation disk ≡ ok (next, e)
      → ((next.rows ≡ disk.rows) × (next.meta ≡ disk.meta))
        ⊎ ((next.meta ≡ record disk.meta { current_version = disk.meta.current_version + 1 })
            × (e.rejection ≡ none)
            × Stamped (disk.meta.current_version + 1) disk.rows next.rows
            × (JsMap.Distinct disk.rows → JsMap.Distinct next.rows))
  unfolding commit_effects
  apply_mutation-Stamped disk next e h =
      let (a, b) = apply_mutation-inv disk next e h in
      elim (mutation_effects-Outcome (disk.meta.current_version + 1) disk.rows e a) [
        | inl (same, unwritten) ↦ inl (ground (arith, b), ap (λ d. d.meta) b ∙ rw unwritten refl)
        | inr (written, accepted, stamps, distinct) ↦
            inr (ap (λ d. d.meta) b ∙ rw written refl, accepted, rw b stamps, rw b distinct)
      ]
