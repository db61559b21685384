-- ===== src/Server/History.antt =====
-- The history of a workspace, and a client's replica across it: whatever happens between two
-- connections, the poke that answers the next hello brings the replica up to date.
pub mod Converges
use cf_sync.Base.JsMap
use Prim.Native.Nat.{min}
use cf_sync.Base.JsMap.{JsMap}
use cf_sync.Base.Text.{Text}
use cf_sync.Base.{
  Bool, List, Option, arith, false, if◌then◌else◌, inl, inr, leb, list_beq, list_eq, nat_eq, none,
  ok, pair_eq, some, subst, sym, ℕ, ◌&&◌, ◌+◌, ◌≡◌, ◌≢◌, ◌≤◌, Bool-cases, Option-cases, [], ap,
  eq_iff, refl, true, ◌-◌, ◌∙◌, ◌∷◌, ◌==◌,
}
use cf_sync.Protocol.Messages.{Cursor, Mutation, PatchOp}
use cf_sync.Server.Invariant.{IsWorkspace, compact-cases}
use cf_sync.Server.Maintain.{
  Snapshot, compact, fresh_disk, import_snapshot, migrate_app_schema, discarded, kept_row,
  max_discarded,
}
use cf_sync.Server.Mutate.Stamps.{Stamped}
use cf_sync.Server.Mutate.{Effects, apply_mutation, touch_client}
use cf_sync.Server.Patch.CatchUp.{Mirrors, TrackedAt, Tracks, get-keep, kept}
use cf_sync.Server.Patch.{Replica, bootstrap_patch, patch_since}
use cf_sync.Server.SqlRows.{live, live_content}
use cf_sync.Server.State.{Attachment, Config, Disk, Meta, Row, Rows}

-- The test of `#handleHello`.
unfoldable pub cursor_valid : Option Cursor → Meta → Bool
cursor_valid none meta = false
cursor_valid (some cursor) meta =
    list_beq cursor.backend_id meta.backend_id
    && leb meta.min_cursor_version cursor.version
    && leb cursor.version meta.current_version

-- The patch of the poke that answers a hello.
unfoldable pub hello_patch : {Json : Type 0} → Option Cursor → Disk Json → List (PatchOp Json)
hello_patch none disk = bootstrap_patch disk.rows
hello_patch (some cursor) disk =
    if cursor_valid (some cursor) disk.meta
    then patch_since cursor.version disk.rows
    else bootstrap_patch disk.rows

-- One change of the disk. A reset starts a history under an id that is not `seen`.
pub data Step {Json : Type 0} (config : Config Json) (seen : Text)
    : Disk Json → Disk Json → Type 0 where
  mutate :
      (now : ℕ) (attachment : Attachment Json) (mutation : Mutation Json) (disk next : Disk Json)
      (e : Effects config)
      → apply_mutation config now attachment mutation disk ≡ ok (next, e)
      → Step config seen disk next
  touch :
      (now : ℕ) (client_id : Text) (disk : Disk Json)
      → Step config seen disk (touch_client now client_id disk)
  compaction : (retention : ℕ) (disk : Disk Json) → Step config seen disk (compact retention disk)
  migration :
      (now : ℕ) (fingerprint presence_hash : Text) (disk next : Disk Json)
      → migrate_app_schema config now fingerprint presence_hash disk ≡ ok next
      → Step config seen disk next
  import :
      (snapshot : Snapshot Json) (disk next : Disk Json)
      → import_snapshot config snapshot disk ≡ ok next
      → Step config seen disk next
  reset :
      (backend_id workspace_id fingerprint presence_hash : Text) (disk : Disk Json)
      → seen ≢ backend_id
      → Step config seen disk (fresh_disk config backend_id workspace_id fingerprint presence_hash)

pub data History {Json : Type 0} (config : Config Json) (seen : Text)
    : Disk Json → Disk Json → Type 0 where
  here : {disk : Disk Json} → History config seen disk disk
  then_step :
      {a b c : Disk Json} → History config seen a b → Step config seen b c → History config seen a c

-- A replica at a cursor follows a disk: in the cursor's history its version has been reached, and
-- where the disk still serves the cursor the replica tracks the rows at that version.
abbrev pub Follows : {Json : Type 0} → Cursor → Replica Json → Disk Json → Type 0
Follows cursor r disk =
    cursor.backend_id ≡ disk.meta.backend_id
    → (cursor.version ≤ disk.meta.current_version)
      × (disk.meta.min_cursor_version ≤ cursor.version → Tracks cursor.version disk.rows r)

module _ {Json : Type 0} (cursor : Cursor) (r : Replica Json) where
  -- A replica that mirrors the rows follows them from the current version on.
  pub mirror-Follows :
      (disk : Disk Json)
      → cursor.version ≡ disk.meta.current_version
      → Mirrors disk.rows r
      → Follows cursor r disk
  unfolding live
  mirror-Follows disk v m b =
      (omega (arith, v), λ min key. tracked (JsMap.get key disk.rows) (m key))
    where
      tracked :
          (stored : Option (Row Json)) {held : Option Json}
          → held ≡ live_content stored
          → TrackedAt cursor.version stored held
      tracked none e = e
      tracked (some row) e = λ le. e

  Stamped-Tracks :
      (current : ℕ) (a b : Rows Json)
      → cursor.version ≤ current
      → Stamped (current + 1) a b
      → Tracks cursor.version a r
      → Tracks cursor.version b r
  Stamped-Tracks current a b le s t key = elim (s key) [
    | inl same ↦
        subst (λ stored. TrackedAt cursor.version stored (JsMap.get key r)) (sym same) (t key)
    | inr (row, e, v) ↦
        subst (λ stored. TrackedAt cursor.version stored (JsMap.get key r)) (sym e)
          (λ h. absurd (omega (arith, h, v, le)))
  ]

  kept-Tracked :
      (cutoff : ℕ) (key : Text × Text) (stored : Option (Row Json)) (held : Option Json)
      → ((row : Row Json)
          → stored ≡ some row
          → discarded cutoff (key, row) ≡ true
          → row.version ≤ cursor.version)
      → TrackedAt cursor.version stored held
      → TrackedAt cursor.version (kept (kept_row cutoff) key stored) held
  kept-Tracked cutoff key none held old t = t
  kept-Tracked cutoff key (some row) held old t = elim (Bool-cases (discarded cutoff (key, row))) [
    | inl dropped ↦ rw dropped (t (old row refl dropped) ∙ ground arith)
    | inr stays ↦ rw stays t
  ]

max_discarded-absent :
    {Json : Type 0} (cutoff : ℕ) (key : Text × Text) (rows : Rows Json) (row : Row Json)
    → max_discarded cutoff rows ≡ none
    → JsMap.get key rows ≡ some row
    → discarded cutoff (key, row) ≡ false
unfolding max_discarded JsMap.get
max_discarded-absent cutoff key [] row m h = absurd (ground arith)
max_discarded-absent cutoff key ((k, old) ∷ rows) row m h =
    ground (arith, eq_iff k key, max_discarded-absent cutoff key rows row)

max_discarded-bound :
    {Json : Type 0} (cutoff : ℕ) (key : Text × Text) (rows : Rows Json) (row : Row Json) {v : ℕ}
    → max_discarded cutoff rows ≡ some v
    → JsMap.get key rows ≡ some row
    → discarded cutoff (key, row) ≡ true
    → row.version ≤ v
unfolding max_discarded JsMap.get
max_discarded-bound cutoff key [] row {v} m h d = absurd (ground arith)
max_discarded-bound cutoff key ((k, old) ∷ rows) row {v} m h d =
    elim (Option-cases (max_discarded cutoff rows)) [
      | inl e ↦ ground (arith, eq_iff k key, max_discarded-absent cutoff key rows row e)
      | inr (u, e) ↦ ground (arith, eq_iff k key, max_discarded-bound cutoff key rows row e)
    ]

module _ {Json : Type 0} (config : Config Json) (cursor : Cursor) (r : Replica Json) where
  pub compact-Follows :
      (retention : ℕ) (disk : Disk Json)
      → IsWorkspace disk
      → Follows cursor r disk
      → Follows cursor r (compact retention disk)
  compact-Follows retention disk w f = elim (compact-cases retention disk) [
    | inl same ↦ subst (Follows cursor r) (sym same) f
    | inr (v, m, e) ↦ subst (Follows cursor r) (sym e) (λ b.
        let cutoff = disk.meta.current_version - retention in
        (
          (f b).0,
          λ min key.
              subst (λ stored. TrackedAt cursor.version stored (JsMap.get key r))
                (sym (get-keep (kept_row cutoff) key disk.rows w.distinct))
                (kept-Tracked cursor r cutoff key (JsMap.get key disk.rows) (JsMap.get key r)
                  (λ row there dropped.
                    omega
                      (arith, min, max_discarded-bound cutoff key disk.rows row m there dropped))
                  ((f b).1 (omega (arith, min)) key)),
        ))
  ]

  -- Meta and rows alone decide whether a replica follows.
  pub same-Follows :
      (a b : Disk Json)
      → b.rows ≡ a.rows
      → b.meta.backend_id ≡ a.meta.backend_id
      → b.meta.current_version ≡ a.meta.current_version
      → b.meta.min_cursor_version ≡ a.meta.min_cursor_version
      → Follows cursor r a
      → Follows cursor r b
  same-Follows a b rows backend current min f = rw (rows, backend, current, min) f

  -- A step that cuts every older cursor off.
  pub cut-Follows :
      (a b : Disk Json)
      → b.meta.backend_id ≡ a.meta.backend_id
      → b.meta.current_version ≡ a.meta.current_version + 1
      → b.meta.min_cursor_version ≡ a.meta.current_version + 1
      → Follows cursor r a
      → Follows cursor r b
  cut-Follows a b backend current min f = λ h. (
    omega (arith, current, (f (h ∙ backend)).0),
    λ served key. absurd (omega (arith, served, min, (f (h ∙ backend)).0)),
  )

  pub Stamped-Follows :
      (a b : Disk Json)
      → Stamped (a.meta.current_version + 1) a.rows b.rows
      → b.meta ≡ record a.meta { current_version = a.meta.current_version + 1 }
      → Follows cursor r a
      → Follows cursor r b
  Stamped-Follows a b s m f = λ h.
      let (le, t) = f (h ∙ ap (λ x. x.backend_id) m) in
      (
        omega (arith, le, ap (λ x. x.current_version) m),
        λ served.
            Stamped-Tracks cursor r a.meta.current_version a.rows b.rows le s
              (t (omega (arith, served, ap (λ x. x.min_cursor_version) m))),
      )
