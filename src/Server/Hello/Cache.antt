-- ===== src/Server/Hello/Cache.antt =====
-- The cached snapshot is the patch that would be built, and a poke's parts are its patch.
use cf_sync.Base.{
  List, Option, Result-cases, [], arith, concat, inl, inr, ok, refl, some, true, ℕ, ◌∷◌, ◌≡◌,
  Bool-cases, Option-cases, err, none, subst, sym, ◌+◌, ◌∙◌, ap, ◌⊎◌,
}
use cf_sync.Protocol.Chunk.Greedy.{chunk_by_size-IsPacking}
use cf_sync.Protocol.Chunk.{chunk_by_size}
use cf_sync.Protocol.Messages.{Cursor, PatchOp, Mutation}
use cf_sync.Server.Handlers.{Packed, committed}
use cf_sync.Server.Hello.{answer_patch, is_current, cached_bootstrap, store_snapshot}
use cf_sync.Server.History.{hello_patch, cursor_valid}
use cf_sync.Server.Mutate.Contract.{apply_mutation-inv, mutation_effects-Outcome}
use cf_sync.Server.Mutate.{Effects, apply_mutation, commit_effects}
use cf_sync.Server.Patch.{bootstrap_patch, patch_since}
use cf_sync.Server.Pokes.{at_least_one, op_options, pack_ops}
use cf_sync.Server.Sockets.{Cached, Workspace}
use cf_sync.Server.State.{Config, Attachment, Disk}
use cf_sync.Yjs.Server.Cases.{accepted}

module _ {Json : Type 0} (config : Config Json) where
  -- A patch that is packed is whole and in order: its parts, put together, are its operations.
  pub concat-pack_ops :
      (ops : List (PatchOp Json)) (parts : List (List (PatchOp Json)))
      → pack_ops config ops ≡ ok parts
      → concat parts ≡ ops
  unfolding pack_ops
  concat-pack_ops ops parts h = elim (Result-cases (chunk_by_size (op_options config) ops)) [
    | inr (oversize, bad) ↦ absurd (ground arith)
    | inl (chunks, e) ↦
        ground (arith, whole chunks, (chunk_by_size-IsPacking (op_options config) ops e).whole)
  ]
    where
      whole :
          (chunks : List (List (PatchOp Json)))
          → concat (at_least_one config chunks) ≡ concat chunks
      whole [] = refl
      whole (c ∷ cs) = refl

  -- A snapshot that counts as current is the bootstrap patch of the rows.
  abbrev pub CacheHolds : Workspace Json → Type 0
  CacheHolds w =
      (cached : Cached Json)
      → w.snapshot ≡ some cached
      → is_current w.disk.meta cached ≡ true
      → pack_ops config (bootstrap_patch w.disk.rows) ≡ ok cached.parts

  store_snapshot-packed :
      (w : Workspace Json) (packed : Packed Json) → (store_snapshot w packed).0 ≡ packed
  store_snapshot-packed w (err oversize) = refl
  store_snapshot-packed w (ok parts) = refl

  stored-CacheHolds :
      (w : Workspace Json) (packed : Packed Json)
      → CacheHolds w
      → pack_ops config (bootstrap_patch w.disk.rows) ≡ packed
      → CacheHolds (store_snapshot w packed).1
  stored-CacheHolds w (err oversize) c e = c
  stored-CacheHolds w (ok parts) c e = λ cached there current. e ∙ ap ok (ground arith)

  cached_bootstrap-holds :
      (now : ℕ) (w : Workspace Json)
      → CacheHolds w
      → ((cached_bootstrap config now w).0 ≡ pack_ops config (bootstrap_patch w.disk.rows))
        × CacheHolds (cached_bootstrap config now w).1
  unfolding cached_bootstrap
  cached_bootstrap-holds now w c =
      let Good : Packed Json × Workspace Json → Type 0 =
        λ x. (x.0 ≡ pack_ops config (bootstrap_patch w.disk.rows)) × CacheHolds x.1 in
      let packed = pack_ops config (bootstrap_patch w.disk.rows) in
      let built : Good (store_snapshot w packed) =
        (store_snapshot-packed w packed, stored-CacheHolds w packed c refl) in
      elim (Option-cases w.snapshot) [
        | inl absent ↦
            subst Good {x = store_snapshot w packed} {y = cached_bootstrap config now w}
              (ground arith) built
        | inr (cached, there) ↦ elim (Bool-cases (is_current w.disk.meta cached)) [
          | inl current ↦
              subst Good {x = (ok cached.parts, w)} {y = cached_bootstrap config now w}
                (ground arith) (sym (c cached there current), c)
          | inr stale ↦
              subst Good {x = store_snapshot w packed} {y = cached_bootstrap config now w}
                (ground arith) built
        ]
      ]

  -- Where the cache holds, the patch that answers a hello by way of it is the one that is built from
  -- the rows, and the cache still holds.
  pub answer_patch-hello_patch :
      (now : ℕ) (cursor : Option Cursor) (w : Workspace Json)
      → CacheHolds w
      → ((answer_patch config now cursor w).0 ≡ pack_ops config (hello_patch cursor w.disk))
        × CacheHolds (answer_patch config now cursor w).1
  unfolding answer_patch hello_patch
  answer_patch-hello_patch now none w c = cached_bootstrap-holds now w c
  answer_patch-hello_patch now (some cursor) w c =
      let Good : Packed Json × Workspace Json → Type 0 =
        λ x. (x.0 ≡ pack_ops config (hello_patch (some cursor) w.disk)) × CacheHolds x.1 in
      elim (Bool-cases (cursor_valid (some cursor) w.disk.meta)) [
        | inl valid ↦
            subst Good {x = (pack_ops config (patch_since cursor.version w.disk.rows), w)}
              {y = answer_patch config now (some cursor) w} (ground arith) (ground arith, c)
        | inr stale ↦
            subst Good {x = cached_bootstrap config now w}
              {y = answer_patch config now (some cursor) w} (ground arith)
              (
                (cached_bootstrap-holds now w c).0 ∙ ap (pack_ops config) (ground arith),
                (cached_bootstrap-holds now w c).1,
              )
      ]

  -- The version and the snapshot after a commit, beside those before.
  abbrev pub SnapshotFollows : Workspace Json → Workspace Json → Type 0
  SnapshotFollows w w' =
      (w'.disk.meta.current_version ≡ w.disk.meta.current_version) × (w'.snapshot ≡ w.snapshot)
      ⊎ (w'.disk.meta.current_version ≡ w.disk.meta.current_version + 1) × (w'.snapshot ≡ none)

  -- The commit of a mutation keeps the cache right: the snapshot is dropped when the version moves,
  -- which it does by one, and is the one there was when it does not.
  pub committed-CacheHolds :
      (now : ℕ) (attachment : Attachment Json) (mutation : Mutation Json) (w : Workspace Json)
      (disk : Disk Json) (e : Effects config)
      → CacheHolds w
      → apply_mutation config now attachment mutation w.disk ≡ ok (disk, e)
      → CacheHolds (committed config now w disk e)
        × SnapshotFollows w (committed config now w disk e)
  unfolding commit_effects
  committed-CacheHolds now attachment mutation w disk e c h =
      let (a, b) = apply_mutation-inv config now attachment mutation w.disk disk e h in
      elim (mutation_effects-Outcome config now attachment mutation
        (w.disk.meta.current_version + 1) w.disk.rows e a) [
          | inl (same, unwritten) ↦
              let rows : disk.rows ≡ w.disk.rows = ap (λ d. d.rows) b ∙ same in
              let meta : disk.meta ≡ w.disk.meta = ap (λ d. d.meta) b ∙ rw unwritten refl in
              let kept : (committed config now w disk e).snapshot ≡ w.snapshot =
                ground (arith, unwritten) in
              (
                λ cached there current.
                    ap (λ r. pack_ops config (bootstrap_patch r)) rows
                    ∙ c cached (sym kept ∙ there)
                        (subst (λ m. is_current m cached ≡ true) meta current),
                inl (ap (λ m. m.current_version) meta, kept),
              )
          | inr (written, accepted, stamps, distinct) ↦
              let dropped : (committed config now w disk e).snapshot ≡ none =
                ground (arith, written) in
              let moved : disk.meta.current_version ≡ w.disk.meta.current_version + 1 =
                ap (λ d. d.meta.current_version) b ∙ ground (arith, written) in
              (
                λ cached there current. absurd (ground (arith, sym dropped ∙ there)),
                inr (moved, dropped),
              )
        ]
