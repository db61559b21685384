-- ===== src/Protocol/Chunk/Patch.antt =====
-- `packPatch` (packages/server/src/frames.ts) is `chunkBySize` over the ops' sizes, with joined
-- parts, except that an empty patch still has one part.
use cf_sync.Base.Text.{Text}
use cf_sync.Base.{
  List, [], ap, arith, length, ltb, map_ok, none, refl, ℕ, ◌&&◌, ◌++◌, ◌+◌, ◌∷◌, ◌≡◌, Bool-cases,
  err, false, inl, inr, ok, true, Result,
}
use cf_sync.Protocol.Chunk.Greedy.{loop_extend, loop_flush, loop_oversize}
use cf_sync.Protocol.Chunk.{
  ChunkOptions, PatchParts, chunk_loop, join, must_flush, nonempty, op_bytes, pack_loop,
  OversizeItem, chunk_by_size, pack_patch,
}

abbrev pub patch_options : ℕ → ChunkOptions Text
patch_options max_bytes = record { max_bytes = max_bytes; max_items = none; size_of = op_bytes }

-- The parts that a list of chunks is sent as.
abbrev pub lengths : {A : Type 0} → List (List A) → List ℕ
lengths [] = []
lengths (c ∷ cs) = length c ∷ lengths cs

abbrev pub joins : List (List Text) → List Text
joins [] = []
joins (c ∷ cs) = join c ∷ joins cs

abbrev pub or_one_empty : List (List Text) → List (List Text)
or_one_empty [] = [] ∷ []
or_one_empty (c ∷ cs) = c ∷ cs

abbrev pub to_parts : ℕ → List (List Text) → PatchParts
to_parts total cs = record {
  parts = joins (or_one_empty cs);
  counts = lengths (or_one_empty cs);
  total = total;
}

joins-append : (cs ds : List (List Text)) → joins (cs ++ ds) ≡ joins cs ++ joins ds
joins-append [] ds = refl
joins-append (c ∷ cs) ds = ap (λ t. join c ∷ t) (joins-append cs ds)

lengths-append : (cs ds : List (List Text)) → lengths (cs ++ ds) ≡ lengths cs ++ lengths ds
lengths-append [] ds = refl
lengths-append (c ∷ cs) ds = ap (λ t. length c ∷ t) (lengths-append cs ds)

module _ (max_bytes total : ℕ) where
  flush_lem :
      (current : List Text) (b bytes : ℕ)
      → must_flush (patch_options max_bytes) current b bytes
        ≡ (nonempty current && ltb max_bytes (b + bytes))
  unfolding must_flush
  flush_lem current b bytes = ground arith

  abbrev opts : ChunkOptions Text
  opts = patch_options max_bytes

  pack_oversize :
      (parts : List Text) (counts : List ℕ) (current : List Text) (b : ℕ) (op : Text)
      (ops : List Text)
      → ltb max_bytes (op_bytes op) ≡ true
      → pack_loop max_bytes total parts counts current b (op ∷ ops)
        ≡ err (record { item_bytes = op_bytes op; max_bytes = max_bytes })
  unfolding pack_loop
  pack_oversize parts counts current b op ops big = ground arith

  pack_flush :
      (parts : List Text) (counts : List ℕ) (current : List Text) (b : ℕ) (op : Text)
      (ops : List Text)
      → ltb max_bytes (op_bytes op) ≡ false
      → must_flush opts current b (op_bytes op) ≡ true
      → pack_loop max_bytes total parts counts current b (op ∷ ops)
        ≡ pack_loop max_bytes total
            (parts ++ join current ∷ [])
            (counts ++ length current ∷ [])
            (op ∷ [])
            (0 + op_bytes op)
            ops
  unfolding pack_loop
  pack_flush parts counts current b op ops fits flush =
      ground (arith, flush_lem current b (op_bytes op))

  pack_extend :
      (parts : List Text) (counts : List ℕ) (current : List Text) (b : ℕ) (op : Text)
      (ops : List Text)
      → ltb max_bytes (op_bytes op) ≡ false
      → must_flush opts current b (op_bytes op) ≡ false
      → pack_loop max_bytes total parts counts current b (op ∷ ops)
        ≡ pack_loop max_bytes total parts counts (current ++ op ∷ []) (b + op_bytes op) ops
  unfolding pack_loop
  pack_extend parts counts current b op ops fits more =
      ground (arith, flush_lem current b (op_bytes op))

  last_part :
      (chunks : List (List Text)) (x : Text) (xs : List Text)
      → ◌≡◌ {A = Result OversizeItem PatchParts}
          (ok (record {
            parts = joins chunks ++ join (x ∷ xs) ∷ [];
            counts = lengths chunks ++ length (x ∷ xs) ∷ [];
            total = total;
          }))
          (ok (to_parts total (chunks ++ (x ∷ xs) ∷ [])))
  last_part [] x xs = refl
  last_part (c ∷ cs) x xs = rw (joins-append cs ((x ∷ xs) ∷ []), lengths-append cs ((x ∷ xs) ∷ []))

  loop-eq-chunks :
      (ops : List Text) (chunks : List (List Text)) (current : List Text) (b : ℕ)
      → pack_loop max_bytes total (joins chunks) (lengths chunks) current b ops
        ≡ map_ok (to_parts total) (chunk_loop opts chunks current b ops)
  unfolding pack_loop chunk_loop
  loop-eq-chunks [] [] [] b = refl
  loop-eq-chunks [] (c ∷ cs) [] b = refl
  loop-eq-chunks [] chunks (x ∷ xs) b = last_part chunks x xs
  loop-eq-chunks (op ∷ ops) chunks current b = elim (Bool-cases (ltb max_bytes (op_bytes op))) [
    | inl big ↦ cc (
      pack_oversize (joins chunks) (lengths chunks) current b op ops big,
      ap (map_ok (to_parts total)) (loop_oversize opts chunks current b op ops big),
    )
    | inr fits ↦ elim (Bool-cases (must_flush opts current b (op_bytes op))) [
      | inl flush ↦ cc (
        pack_flush (joins chunks) (lengths chunks) current b op ops fits flush,
        ap (map_ok (to_parts total)) (loop_flush opts chunks current b op ops fits flush),
        joins-append chunks (current ∷ []),
        lengths-append chunks (current ∷ []),
        loop-eq-chunks ops (chunks ++ current ∷ []) (op ∷ []) (0 + op_bytes op),
      )
      | inr more ↦ cc (
        pack_extend (joins chunks) (lengths chunks) current b op ops fits more,
        ap (map_ok (to_parts total)) (loop_extend opts chunks current b op ops fits more),
        loop-eq-chunks ops chunks (current ++ op ∷ []) (b + op_bytes op),
      )
    ]
  ]

-- `packPatch` cuts the ops exactly where `chunkBySize` cuts them by size, joins each chunk with
-- commas, counts its ops, and sends one empty part for an empty patch.
pub pack_patch-eq-chunk_by_size :
    (max_bytes : ℕ) (ops : List Text)
    → pack_patch max_bytes ops
      ≡ map_ok (to_parts (length ops)) (chunk_by_size (patch_options max_bytes) ops)
unfolding pack_patch chunk_by_size
pack_patch-eq-chunk_by_size max_bytes ops = loop-eq-chunks max_bytes (length ops) ops [] [] 0
