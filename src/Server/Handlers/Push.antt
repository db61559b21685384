-- ===== src/Server/Handlers/Push.antt =====
-- The loop over a push's mutations: every mutation counts once and in order.
use cf_sync.Base.JsMap
use cf_sync.Base.JsMap.{JsMap}
use cf_sync.Base.{
  All, List, [], arith, length, list_eq, lt→ltb, nat_eq, ok, pair_eq, refl, true, ℕ, ◌++◌, ◌+◌, ◌∷◌,
  ◌≡◌, ◌≤◌, Bool-cases, Result-cases, ap, append-nil, append_assoc, inl, inr, ltb, subst, sym, ◌<◌,
  ◌∙◌,
}
use cf_sync.Protocol.Messages.{Mutation, MutationResult, ErrorCode, push_invalid}
use cf_sync.Server.Handlers.{
  PushRun, count_skipped, finished, push_loop, PushEnd, committed, gap, send_error, threw,
}
use cf_sync.Server.Mutate.Contract.{apply_mutation-inv, get-update_client, apply_mutation-advances}
use cf_sync.Server.Mutate.{Effects, apply_mutation, commit_effects, last_mutation_id}
use cf_sync.Server.Sockets.{Workspace, update_socket}
use cf_sync.Server.State.{Attachment, Client, Config, Disk}

module _ {Json : Type 0} (config : Config Json) (now : ℕ) (ws : ℕ)
    (attachment : Attachment Json) where
  push_loop-skip :
      (m : Mutation Json) (ms : List (Mutation Json)) (w : Workspace Json) (lmid : ℕ)
      (results : List MutationResult)
      → m.id < lmid + 1
      → push_loop config now ws attachment (m ∷ ms) w lmid results
        ≡ push_loop config now ws attachment ms (count_skipped config now w) lmid results
  unfolding push_loop
  push_loop-skip m ms w lmid results h = ground (arith, lt→ltb m.id (lmid + 1) h)

  -- A push of mutations that are all at or below the LMID leaves the disk, the sockets, the LMID and
  -- the results as they were, and runs to its end.
  pub push_loop-replay :
      (mutations : List (Mutation Json)) (w : Workspace Json) (lmid : ℕ)
      (results : List MutationResult)
      → All (λ m. m.id ≤ lmid) mutations
      → let run = push_loop config now ws attachment mutations w lmid results in
        (run.workspace.disk ≡ w.disk)
        × (run.workspace.sockets ≡ w.sockets)
        × (run.lmid ≡ lmid)
        × (run.results ≡ results)
        × (run.ending ≡ finished)
  unfolding push_loop
  push_loop-replay [] w lmid results a = (refl, refl, refl, refl, refl)
  push_loop-replay (m ∷ ms) w lmid results a =
      subst
        (λ run.
          (run.workspace.disk ≡ w.disk)
          × (run.workspace.sockets ≡ w.sockets)
          × (run.lmid ≡ lmid)
          × (run.results ≡ results)
          × (run.ending ≡ finished))
        (sym (push_loop-skip m ms w lmid results (omega (arith, a.0))))
        (push_loop-replay ms (count_skipped config now w) lmid results a.1)

  -- `ids` counts up from `lmid`.
  abbrev pub Consecutive : ℕ → List MutationResult → Type 0
  Consecutive lmid [] = Unit
  Consecutive lmid (r ∷ rs) = (r.id ≡ lmid + 1) × Consecutive (lmid + 1) rs

  -- What the loop has added to the results, the log and the LMID since `w`.
  pub record Advanced (w : Workspace Json) (lmid : ℕ) (results : List MutationResult)
      (run : PushRun Json) : Type 0 where
    pub fresh : List MutationResult
    pub kept_results : run.results ≡ results ++ fresh
    pub consecutive : Consecutive lmid fresh
    pub reached : run.lmid ≡ lmid + length fresh
    pub logged : length run.workspace.disk.log ≡ length w.disk.log + length fresh
    pub recorded : last_mutation_id run.workspace.disk attachment.client_id ≡ run.lmid

  apply_mutation-known :
      (mutation : Mutation Json) (disk next : Disk Json) (e : Effects config)
      → apply_mutation config now attachment mutation disk ≡ ok (next, e)
      → JsMap.has attachment.client_id disk.clients ≡ true
      → JsMap.has attachment.client_id next.clients ≡ true
  unfolding commit_effects
  apply_mutation-known mutation disk next e h known =
      let (a, b) = apply_mutation-inv config now attachment mutation disk next e h in
      let stamp : Client = record { last_mutation_id = mutation.id; last_seen_at = now } in
      ground (arith, b, get-update_client attachment.client_id stamp disk.clients known)

  pub send_error-disk :
      (k : ℕ) (code : ErrorCode) (w : Workspace Json) → (send_error k code w).disk ≡ w.disk
  unfolding send_error update_socket
  send_error-disk k code w = ground arith

  stopped :
      (w v : Workspace Json) (lmid : ℕ) (results : List MutationResult) (ending : PushEnd)
      → v.disk ≡ w.disk
      → last_mutation_id w.disk attachment.client_id ≡ lmid
      → Advanced w lmid results
          (record { workspace = v; lmid = lmid; results = results; ending = ending })
  stopped w v lmid results ending same is = record {
    fresh = [];
    kept_results = sym (append-nil results);
    consecutive = tt;
    reached = omega arith;
    logged = ap (λ d. length d.log) same ∙ omega arith;
    recorded = ap (λ d. last_mutation_id d attachment.client_id) same ∙ is;
  }

  -- However the loop over the push of a known client ends, from the LMID that is stored: the results
  -- it adds are numbered on from that LMID without a gap, the log grows by as many entries, the LMID
  -- advances by as many, and the LMID that is stored is the one it reached.
  pub push_loop-Advanced :
      (mutations : List (Mutation Json)) (w : Workspace Json) (lmid : ℕ)
      (results : List MutationResult)
      → JsMap.has attachment.client_id w.disk.clients ≡ true
      → last_mutation_id w.disk attachment.client_id ≡ lmid
      → Advanced w lmid results (push_loop config now ws attachment mutations w lmid results)
  unfolding push_loop
  push_loop-Advanced [] w lmid results known is = record {
    fresh = [];
    kept_results = sym (append-nil results);
    consecutive = tt;
    reached = omega arith;
    logged = omega arith;
    recorded = is;
  }
  push_loop-Advanced (m ∷ ms) w lmid results known is =
      let reach : (run : PushRun Json)
          → run ≡ push_loop config now ws attachment (m ∷ ms) w lmid results
          → Advanced w lmid results run
          → Advanced w lmid results (push_loop config now ws attachment (m ∷ ms) w lmid results) =
        λ run e a. subst (Advanced w lmid results) e a in
      elim (Bool-cases (ltb m.id (lmid + 1))) [
        | inl old ↦
            let a = push_loop-Advanced ms (count_skipped config now w) lmid results known is in
            reach (push_loop config now ws attachment ms (count_skipped config now w) lmid results)
              (ground arith)
              (record {
                fresh = a.fresh;
                kept_results = a.kept_results;
                consecutive = a.consecutive;
                reached = a.reached;
                logged = a.logged;
                recorded = a.recorded;
              })
        | inr new ↦ elim (Bool-cases (ltb (lmid + 1) m.id)) [
          | inl ahead ↦
              reach
                (record {
                  workspace = send_error ws push_invalid w;
                  lmid = lmid;
                  results = results;
                  ending = gap;
                })
                (ground arith)
                (stopped w (send_error ws push_invalid w) lmid results gap
                  (send_error-disk ws push_invalid w) is)
          | inr next ↦ elim (Result-cases (apply_mutation config now attachment m w.disk)) [
            | inr (u, thrown) ↦
                reach (record { workspace = w; lmid = lmid; results = results; ending = threw })
                  (ground arith) (stopped w w lmid results threw refl is)
            | inl ((disk, e), done) ↦
                let r : MutationResult = record { id = m.id; error = e.rejection } in
                let (recorded_id, logged) =
                  apply_mutation-advances config now attachment m w.disk disk e done known in
                let a =
                  push_loop-Advanced ms (committed config now w disk e) m.id (results ++ r ∷ [])
                    (apply_mutation-known m w.disk disk e done known) recorded_id in
                let id : m.id ≡ lmid + 1 = ground arith in
                reach
                  (push_loop config now ws attachment ms (committed config now w disk e) m.id
                    (results ++ r ∷ []))
                  (ground arith)
                  (record {
                    fresh = r ∷ a.fresh;
                    kept_results = a.kept_results ∙ append_assoc results (r ∷ []) a.fresh;
                    consecutive = (id, subst (λ n. Consecutive n a.fresh) id a.consecutive);
                    reached = omega (arith, a.reached, id);
                    logged = omega (arith, a.logged, logged);
                    recorded = a.recorded;
                  })
          ]
        ]
      ]
