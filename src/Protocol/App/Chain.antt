-- ===== src/Protocol/App/Chain.antt =====
-- The migration chain that `defineApp` accepts, and what `migrationPath` cuts from it.
use cf_sync.Base.JsMap.{JsMap}
use cf_sync.Base.Text.{Text}
use mathlib.Core.List.Perm
use mathlib.Core.List.{Perm}
use cf_sync.Base.{
  both_branches, leb, List, [], arith, keep, length, ltb, ok, refl, ℕ, ◌+◌, ◌∷◌, ◌≡◌, ◌≤◌, ◌-◌, All,
  inl, inr, list_eq, nat_eq, pair_eq, subst, ◌<◌, ◌⊎◌, false, is_ok, Bool-cases, nat_beq,
}
use cf_sync.Protocol.App.{
  AppDefinition, SchemaMigration, check_consecutive, check_end, AppInput, check_targets, define_app,
  insert_by_to, sort_by_to, migration_path,
}
use cf_sync.Protocol.Mutators.{MutatorDef}

module _ {Json : Type 0} where
  -- The steps lead from `from` to `to`, one version at a time.
  abbrev pub Leads : ℕ → ℕ → List (SchemaMigration Json) → Type 0
  Leads from to [] = from ≡ to
  Leads from to (m ∷ ms) = (m.to ≡ from + 1) × Leads (from + 1) to ms

  consecutive-Leads :
      (version : ℕ) (m : SchemaMigration Json) (ms : List (SchemaMigration Json)) {u : Unit {0}}
      {w : Unit {0}}
      → check_consecutive (m ∷ ms) ≡ ok u
      → check_end version (m ∷ ms) ≡ ok w
      → Leads m.to version ms
  unfolding check_consecutive check_end
  consecutive-Leads version m [] h e = ground arith
  consecutive-Leads version m (n ∷ ms) h e =
      ground (arith, consecutive-Leads version n ms {u = tt} {w = tt})

  -- The chain of an accepted app ends at its version, and begins somewhere below it.
  abbrev pub IsChain : AppDefinition Json → Type 0
  IsChain app = (from : ℕ) × Leads from app.version app.migrations

  length-Leads :
      (ms : List (SchemaMigration Json)) (from to : ℕ) → Leads from to ms → from + length ms ≡ to
  length-Leads [] from to l = omega (arith, l)
  length-Leads (m ∷ ms) from to l = omega (arith, length-Leads ms (from + 1) to l.1)

  keep_all :
      (ms : List (SchemaMigration Json)) (from to stored : ℕ)
      → Leads from to ms
      → stored ≤ from
      → keep (λ step. ltb stored step.to) ms ≡ ms
  keep_all [] from to stored l h = refl
  keep_all (m ∷ ms) from to stored l h = ground (arith, keep_all ms (from + 1) to stored l.1)

  keep-Leads :
      (ms : List (SchemaMigration Json)) (from to stored : ℕ)
      → Leads from to ms
      → from ≤ stored
      → stored ≤ to
      → Leads stored to (keep (λ step. ltb stored step.to) ms)
  keep-Leads [] from to stored l h k = omega (arith, l)
  keep-Leads (m ∷ ms) from to stored l h k =
      ground (arith, keep-Leads ms (from + 1) to stored l.1, keep_all ms (from + 1) to stored l.1)

  AboveOne : List (SchemaMigration Json) → Type 0
  AboveOne = All (λ m. 2 ≤ m.to)

  targets-AboveOne :
      (version : ℕ) (ms : List (SchemaMigration Json)) {u : Unit {0}}
      → check_targets version ms ≡ ok u
      → AboveOne ms
  unfolding check_targets AboveOne
  targets-AboveOne version [] h = tt
  targets-AboveOne version (m ∷ ms) h = ground (arith, targets-AboveOne version ms {u = tt})

  insert-AboveOne :
      (m : SchemaMigration Json) (ms : List (SchemaMigration Json))
      → 2 ≤ m.to
      → AboveOne ms
      → AboveOne (insert_by_to m ms)
  unfolding insert_by_to AboveOne
  insert-AboveOne m [] h a = (h, tt)
  insert-AboveOne m (n ∷ ns) h a = ground (arith, insert-AboveOne m ns h a.1)

  sort-AboveOne : (ms : List (SchemaMigration Json)) → AboveOne ms → AboveOne (sort_by_to ms)
  unfolding sort_by_to AboveOne
  sort-AboveOne [] a = tt
  sort-AboveOne (m ∷ ms) a = insert-AboveOne m (sort_by_to ms) a.0 (sort-AboveOne ms a.1)

  -- Sorting moves the declared steps, and neither drops one nor adds one.
  insert-Perm :
      (m : SchemaMigration Json) (ms : List (SchemaMigration Json))
      → Perm (insert_by_to m ms) (m ∷ ms)
  unfolding insert_by_to
  insert-Perm m [] = Perm.rfl
  insert-Perm m (n ∷ ns) =
      both_branches (λ l. Perm l (m ∷ n ∷ ns)) (leb m.to n.to) (λ first. Perm.rfl)
        (λ later. Perm.trans (Perm.cons n (insert-Perm m ns)) (Perm.swap m n ns))

  sort-Perm : (ms : List (SchemaMigration Json)) → Perm (sort_by_to ms) ms
  unfolding sort_by_to
  sort-Perm [] = Perm.rfl
  sort-Perm (m ∷ ms) = Perm.trans (insert-Perm m (sort_by_to ms)) (Perm.cons m (sort-Perm ms))

  starts :
      (version : ℕ) (ms : List (SchemaMigration Json)) {u w : Unit {0}}
      → check_consecutive ms ≡ ok u
      → check_end version ms ≡ ok w
      → AboveOne ms
      → 1 ≤ version
      → (from : ℕ) × (1 ≤ from) × Leads from version ms
  unfolding AboveOne
  starts version [] h e a low = (version, low, refl)
  starts version (m ∷ ms) {u} {w} h e a low = (
    m.to - 1,
    omega (arith, a.0),
    (
      omega (arith, a.0),
      subst (λ k. Leads k version ms) (omega (arith, a.0))
          (consecutive-Leads version m ms {u = u} {w = w} h e),
    ),
  )

  accepted :
      (crud : JsMap Text (MutatorDef Json)) (def : AppInput Json) {app : AppDefinition Json}
      → define_app crud def ≡ ok app
      → (app.version ≡ def.version)
        × (1 ≤ def.version)
        × (app.migrations ≡ sort_by_to def.migrations)
        × (check_targets def.version def.migrations ≡ ok tt)
        × (check_consecutive (sort_by_to def.migrations) ≡ ok tt)
        × (check_end def.version (sort_by_to def.migrations) ≡ ok tt)
  unfolding define_app
  accepted crud def {app} h =
      (ground arith, ground arith, ground arith, ground arith, ground arith, ground arith)

  -- The definition that defineApp returns keeps the declared version, and its migrations are the
  -- declared ones, each as often as declared, in an order in which they are the steps from some
  -- version, which is 1 at least, to the declared one, one version at a time.
  pub define_app-Leads :
      (crud : JsMap Text (MutatorDef Json)) (def : AppInput Json) {app : AppDefinition Json}
      → define_app crud def ≡ ok app
      → (app.version ≡ def.version)
        × Perm app.migrations def.migrations
        × ((from : ℕ) × (1 ≤ from) × Leads from app.version app.migrations)
  define_app-Leads crud def {app} h =
      let (ev, low, em, targets, steps, end) = accepted crud def h in
      let (from, positive, l) =
        starts def.version (sort_by_to def.migrations) {u = tt} {w = tt} steps end
          (sort-AboveOne def.migrations
            (targets-AboveOne def.version def.migrations {u = tt} targets))
          low in
      (ev, rw em (sort-Perm def.migrations), (from, positive, rw (ev, em) l))

  -- On such a chain, `migrationPath` succeeds from every version that the chain covers, and its
  -- steps lead one version at a time from the stored version to the app's.
  pub migration_path-Leads :
      (app : AppDefinition Json) (from stored : ℕ)
      → Leads from app.version app.migrations
      → from ≤ stored
      → stored ≤ app.version
      → (steps : List (SchemaMigration Json)) × (migration_path app stored ≡ ok steps)
        × Leads stored app.version steps
  unfolding migration_path
  migration_path-Leads app from stored l h k = elim (Bool-cases (nat_beq stored app.version)) [
    | inl same ↦ ([], ground arith, ground arith)
    | inr differs ↦
        let steps = keep (λ (step : SchemaMigration Json). ltb stored step.to) app.migrations in
        let led : Leads stored app.version steps =
          keep-Leads app.migrations from app.version stored l h k in
        (steps, ground (arith, length-Leads steps stored app.version led), led)
  ]

  -- On such a chain, `migrationPath` throws below the chain and above the app's version.
  pub migration_path-err :
      (app : AppDefinition Json) (from stored : ℕ)
      → Leads from app.version app.migrations
      → (stored < from ⊎ app.version < stored)
      → is_ok (migration_path app stored) ≡ false
  unfolding migration_path
  migration_path-err app from stored l (inl h) = ground (
    arith,
    length-Leads app.migrations from app.version l,
    keep_all app.migrations from app.version stored l,
  )
  migration_path-err app from stored l (inr h) = ground arith
