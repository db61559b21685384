-- ===== src/Server/Patch.antt =====
-- `#patchSince`, `#bootstrapPatch` of packages/server/src/do.ts, and a replica that applies them.
pub mod CatchUp
use cf_sync.Base.JsMap
use cf_sync.Base.JsMap.{JsMap}
use cf_sync.Base.Text.{Text}
use cf_sync.Base.{
  Bool, List, [], false, if◌then◌else◌, keep, leb, list_beq, list_eq, ltb, map, nat_beq, nat_eq,
  not, pair_eq, true, ℕ, ◌&&◌, ◌==◌, ◌∷◌,
}
use cf_sync.Protocol.Messages.{PatchOp, clear, del, put}
use cf_sync.Protocol.Utf8.{utf8_encode}
use cf_sync.Server.State.{Row, Rows}

module _ {K V : Type 0} (precedes : K × V → K × V → Bool) where
  -- `ORDER BY`, rows that compare equal in table order.
  abbrev pub insert_row : K × V → JsMap K V → JsMap K V
  insert_row e [] = e ∷ []
  insert_row e (d ∷ rest) = if precedes e d then e ∷ d ∷ rest else d ∷ insert_row e rest

  abbrev pub order_by : JsMap K V → JsMap K V
  order_by [] = []
  order_by (e ∷ rest) = insert_row e (order_by rest)

-- SQLite compares text by its UTF-8 bytes.
abbrev pub bytes_leb : List ℕ → List ℕ → Bool
bytes_leb [] b = true
bytes_leb (x ∷ a) [] = false
bytes_leb (x ∷ a) (y ∷ b) = if ltb x y then true else nat_beq x y && bytes_leb a b

abbrev pub text_leb : Text → Text → Bool
text_leb a b = bytes_leb (utf8_encode a) (utf8_encode b)

module _ {Json : Type 0} where
  abbrev pub by_version : (Text × Text) × Row Json → (Text × Text) × Row Json → Bool
  by_version (k, a) (j, b) = leb a.version b.version

  abbrev pub by_key : (Text × Text) × Row Json → (Text × Text) × Row Json → Bool
  by_key ((t, i), a) ((u, j), b) = if list_beq t u then text_leb i j else text_leb t u

  abbrev pub newer : ℕ → (Text × Text) × Row Json → Bool
  newer version (k, row) = ltb version row.version

  abbrev pub is_live : (Text × Text) × Row Json → Bool
  is_live (k, row) = not row.deleted

  -- The SQL of an operation: `DEL_OP_SQL` and `PUT_OP_SQL`.
  abbrev pub row_op : (Text × Text) × Row Json → PatchOp Json
  row_op ((tbl, id), row) = if row.deleted then del tbl id else put tbl id row.content

  unfoldable pub patch_since : ℕ → Rows Json → List (PatchOp Json)
  patch_since version rows = map row_op (order_by by_version (keep (newer version) rows))

  unfoldable pub bootstrap_patch : Rows Json → List (PatchOp Json)
  bootstrap_patch rows = clear ∷ map row_op (order_by by_key (keep is_live rows))

-- What a client keeps of the server's rows.
abbrev pub Replica : Type 0 → Type 0
Replica Json = JsMap (Text × Text) Json

-- A poke's operations, in order.
abbrev pub apply_op : {Json : Type 0} → PatchOp Json → Replica Json → Replica Json
apply_op (put tbl id row) r = JsMap.set (tbl, id) row r
apply_op (del tbl id) r = JsMap.delete (tbl, id) r
apply_op clear r = []

abbrev pub apply_ops : {Json : Type 0} → List (PatchOp Json) → Replica Json → Replica Json
apply_ops [] r = r
apply_ops (op ∷ rest) r = apply_ops rest (apply_op op r)
