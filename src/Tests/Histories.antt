-- ===== src/Tests/Histories.antt =====
-- The workspace's theorems on the history of one to-do.
use cf_sync.Base.JsMap
use cf_sync.Base.JsMap.{JsMap}
use cf_sync.Base.Text.{text, Text}
use cf_sync.Base.{
  [], arith, length, list_eq, nat_eq, none, pair_eq, refl, some, true, ◌+◌, ◌==◌, ◌∷◌, ◌≡◌, ◌⊎◌,
  Bool, false, if◌then◌else◌,
}
use cf_sync.Protocol.Messages.{Cursor, put}
use cf_sync.Server.History.Converges.{Step-IsWorkspace, hello_patch-converges}
use cf_sync.Server.History.{Step, cursor_valid, hello_patch, here, mutate, then_step}
use cf_sync.Server.Invariant.{IsWorkspace}
use cf_sync.Server.Mutate.Contract.{apply_mutation-Stamped, apply_mutation-advances}
use cf_sync.Server.Mutate.Stamps.{Stamped}
use cf_sync.Server.Mutate.{last_mutation_id}
use cf_sync.Server.Patch.CatchUp.{
  Mirrors, Tracks, bootstrap_patch-Mirrors, patch_since-Mirrors, TrackedAt,
}
use cf_sync.Server.Patch.{apply_ops, bootstrap_patch, patch_since}
use cf_sync.Server.SqlRows.{live}
use cf_sync.Tests.Fixture.{
  add_milk, add_milk-commits, alice, attachment, config, empty_disk, first_id, milk, milk_disk,
  milk_effects, todos, stored_milk,
}

pub empty_disk-IsWorkspace : IsWorkspace empty_disk
unfolding JsMap.get
empty_disk-IsWorkspace = record {
  distinct = tt;
  versions = λ key row e. absurd (ground arith);
  min_cursor = omega arith;
}

abbrev pub start_cursor : Cursor
start_cursor = record { backend_id = text "b1"; version = 0 }

pub empty_Mirrors : Mirrors empty_disk.rows []
unfolding live JsMap.get
empty_Mirrors key = refl

pub added : Step config start_cursor.backend_id empty_disk milk_disk
added = mutate 5 attachment add_milk empty_disk milk_disk milk_effects add_milk-commits

hello_patch-converges_example :
    JsMap.get (todos, first_id) (apply_ops (hello_patch (some start_cursor) milk_disk) [])
    ≡ live milk_disk.rows (todos, first_id)
hello_patch-converges_example =
    hello_patch-converges config start_cursor [] empty_disk milk_disk empty_disk-IsWorkspace refl
      empty_Mirrors (then_step here added) (todos, first_id)

-- The patch of that hello.
patch_since_milk : hello_patch (some start_cursor) milk_disk ≡ put todos first_id milk ∷ []
unfolding hello_patch cursor_valid patch_since
patch_since_milk = refl

Step-IsWorkspace_example : IsWorkspace milk_disk
Step-IsWorkspace_example =
    Step-IsWorkspace config {seen = text "b1"} {a = empty_disk} {b = milk_disk} added
      empty_disk-IsWorkspace

apply_mutation-Stamped_example :
    ((milk_disk.rows ≡ empty_disk.rows) × (milk_disk.meta ≡ empty_disk.meta))
    ⊎ ((milk_disk.meta
          ≡ record empty_disk.meta { current_version = empty_disk.meta.current_version + 1 })
        × (milk_effects.rejection ≡ none)
        × Stamped (empty_disk.meta.current_version + 1) empty_disk.rows milk_disk.rows
        × (JsMap.Distinct empty_disk.rows → JsMap.Distinct milk_disk.rows))
apply_mutation-Stamped_example =
    apply_mutation-Stamped config 5 attachment add_milk empty_disk milk_disk milk_effects
      add_milk-commits

alice_known : JsMap.has alice empty_disk.clients ≡ true
unfolding JsMap.get
alice_known = refl

apply_mutation-advances_example :
    (last_mutation_id milk_disk alice ≡ 1) × (length milk_disk.log ≡ length empty_disk.log + 1)
apply_mutation-advances_example =
    apply_mutation-advances config 5 attachment add_milk empty_disk milk_disk milk_effects
      add_milk-commits alice_known

pub milk_Distinct : JsMap.Distinct milk_disk.rows
unfolding JsMap.get
milk_Distinct = (refl, tt)

unseen : (b : Bool) → TrackedAt {Json = Text} 0 (if b then some stored_milk else none) none
unseen true = λ le. absurd (omega (arith, le))
unseen false = refl

empty_Tracks : Tracks 0 milk_disk.rows []
unfolding JsMap.get
empty_Tracks key = unseen ((todos, first_id) == key)

patch_since-Mirrors_example :
    JsMap.get (todos, first_id) (apply_ops (patch_since 0 milk_disk.rows) [])
    ≡ live milk_disk.rows (todos, first_id)
patch_since-Mirrors_example =
    patch_since-Mirrors 0 milk_disk.rows [] milk_Distinct empty_Tracks (todos, first_id)

bootstrap_patch-Mirrors_example :
    JsMap.get
      (todos, first_id)
      (apply_ops (bootstrap_patch milk_disk.rows) (((todos, milk), milk) ∷ []))
    ≡ live milk_disk.rows (todos, first_id)
bootstrap_patch-Mirrors_example =
    bootstrap_patch-Mirrors milk_disk.rows (((todos, milk), milk) ∷ []) milk_Distinct
      (todos, first_id)
