-- ===== src/Server/Pokes.antt =====
-- A poke and its frames: `packPatch` and `pokeFrames` of packages/server/src/frames.ts over
-- operations, and `#sendPoke` of packages/server/src/do.ts.
pub mod Storage
use cf_sync.Base.JsMap.{JsMap}
use cf_sync.Base.Text.{Text, text}
use cf_sync.Base.{
  Bool, List, Option, Result, [], concat, false, if◌then◌else◌, length, list_eq, map_ok, nat_eq,
  none, pair_eq, some, true, ℕ, ◌++◌, ◌+◌, ◌∷◌,
}
use cf_sync.Protocol.Chunk.{
  ChunkOptions, OversizeItem, chunk_by_size, max_part_patch_bytes, op_bytes,
}
use cf_sync.Protocol.Messages.{
  Cursor, MutationResult, PatchOp, ServerMsg, clear, del, poke_end, poke_part, poke_start, put,
}
use cf_sync.Server.Sockets.{Workspace, deliver}
use cf_sync.Server.State.{Config, Meta}

-- What `#sendPoke` is given.
pub record Poke (Json : Type 0) : Type 0 where
  pub base_cursor : Option Cursor
  pub parts : List (List (PatchOp Json))
  pub last_mutation_id_changes : JsMap Text ℕ
  pub mutation_results : List MutationResult

module _ {Json : Type 0} (config : Config Json) where
  -- `PUT_OP_SQL`, `DEL_OP_SQL` and `CLEAR_OP`
  abbrev pub op_text : PatchOp Json → Text
  op_text (put tbl id row) =
      text "{\"op\":\"put\",\"tbl\":"
      ++ config.json_quote tbl
      ++ text ",\"id\":"
      ++ config.json_quote id
      ++ text ",\"value\":"
      ++ config.ops.stringify row
      ++ text "}"
  op_text (del tbl id) =
      text "{\"op\":\"del\",\"tbl\":"
      ++ config.json_quote tbl
      ++ text ",\"id\":"
      ++ config.json_quote id
      ++ text "}"
  op_text clear = text "{\"op\":\"clear\"}"

  abbrev pub op_options : ChunkOptions (PatchOp Json)
  op_options = record {
    max_bytes = max_part_patch_bytes;
    max_items = none;
    size_of = λ op. op_bytes (op_text op);
  }

  abbrev pub at_least_one : List (List (PatchOp Json)) → List (List (PatchOp Json))
  at_least_one [] = [] ∷ []
  at_least_one (part ∷ parts) = part ∷ parts

  -- The operations of each part; an empty patch has one empty part.
  unfoldable pub pack_ops : List (PatchOp Json) → Result OversizeItem (List (List (PatchOp Json)))
  pack_ops ops = map_ok at_least_one (chunk_by_size op_options ops)

-- `#cursor`
abbrev pub cursor_of : Meta → Cursor
cursor_of meta = record { backend_id = meta.backend_id; version = meta.current_version }

module _ {Json : Type 0} where
  -- The first part carries the acknowledgements.
  unfoldable pub part_frames :
      Text → Poke Json → Bool → List (List (PatchOp Json)) → List (ServerMsg Json)
  part_frames poke_id poke first [] = []
  part_frames poke_id poke first (part ∷ parts) =
      poke_part (record {
        poke_id = poke_id;
        patch = part;
        remaining = some (length (concat parts));
        last_mutation_id_changes = if first then poke.last_mutation_id_changes else [];
        mutation_results = if first then poke.mutation_results else [];
      })
      ∷ part_frames poke_id poke false parts

  unfoldable pub poke_frames : Text → Cursor → Poke Json → List (ServerMsg Json)
  unfolding part_frames
  poke_frames poke_id cursor poke =
      poke_start poke_id poke.base_cursor ∷ part_frames poke_id poke true poke.parts
      ++ poke_end poke_id cursor ∷ []

module _ {Json : Type 0} (config : Config Json) (now : ℕ) where
  unfoldable pub deliver_all : List (ServerMsg Json) → List ℕ → Workspace Json → Workspace Json
  deliver_all frames [] w = w
  deliver_all frames (ws ∷ rest) w = deliver_all frames rest (deliver config now ws frames w)

  unfoldable pub send_poke : Text → List ℕ → Poke Json → Workspace Json → Workspace Json
  unfolding deliver_all
  send_poke poke_id [] poke w = w
  send_poke poke_id (ws ∷ rest) poke w =
      deliver_all (poke_frames poke_id (cursor_of w.disk.meta) poke) (ws ∷ rest) (record w {
        counters = record w.counters {
          pokes_sent = w.counters.pokes_sent + 1;
          last_fanout = length (ws ∷ rest);
        };
      })
