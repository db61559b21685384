-- ===== src/Protocol/Chunk.antt =====
-- Greedy packing: `chunkBySize` of packages/protocol/src/chunk.ts and `packPatch` of
-- packages/server/src/frames.ts.
pub mod Greedy
pub mod Patch
use cf_sync.Base.Text.{Text}
use cf_sync.Base.{
  Bool, List, Option, Result, [], err, false, if◌then◌else◌, leb, length, ltb, none, not, ok, some,
  true, ℕ, ◌&&◌, ◌++◌, ◌+◌, ◌||◌, ◌∷◌,
}
use cf_sync.Protocol.Utf8.{utf8_byte_length}

-- `OversizeItemError`.
pub record OversizeItem : Type 0 where
  pub item_bytes : ℕ
  pub max_bytes : ℕ

-- The options of `chunkBySize`; no `max_items` stands for infinity.
pub record ChunkOptions {ℓ} (A : Type ℓ) : Type ℓ where
  pub max_bytes : ℕ
  pub max_items : Option ℕ
  pub size_of : A → ℕ

abbrev pub is_full : Option ℕ → ℕ → Bool
is_full none n = false
is_full (some max) n = leb max n

abbrev pub push_chunk : {A : Type 0} → List (List A) → List A → List (List A)
push_chunk chunks [] = chunks
push_chunk chunks (x ∷ xs) = chunks ++ (x ∷ xs) ∷ []

abbrev pub nonempty : {A : Type 0} → List A → Bool
nonempty [] = false
nonempty (x ∷ xs) = true

module _ {A : Type 0} (opts : ChunkOptions A) where
  -- The test that closes the current chunk.
  unfoldable pub must_flush : List A → ℕ → ℕ → Bool
  must_flush current current_bytes bytes =
      nonempty current
      && (ltb opts.max_bytes (current_bytes + bytes) || is_full opts.max_items (length current))

  unfoldable pub chunk_loop :
      List (List A) → List A → ℕ → List A → Result OversizeItem (List (List A))
  chunk_loop chunks current current_bytes [] = ok (push_chunk chunks current)
  chunk_loop chunks current current_bytes (item ∷ items) =
      let bytes = opts.size_of item in
      let flush = must_flush current current_bytes bytes in
      let rest =
        chunk_loop (if flush then chunks ++ current ∷ [] else chunks)
          ((if flush then [] else current) ++ item ∷ [])
          ((if flush then 0 else current_bytes) + bytes) items in
      if ltb opts.max_bytes bytes
      then err (record { item_bytes = bytes; max_bytes = opts.max_bytes })
      else rest

  unfoldable pub chunk_by_size : List A → Result OversizeItem (List (List A))
  chunk_by_size items = chunk_loop [] [] 0 items

abbrev pub comma : ℕ
comma = b','

-- `current.join(',')`.
abbrev pub join : List Text → Text
join [] = []
join (op ∷ []) = op
join (op ∷ o ∷ ops) = op ++ comma ∷ join (o ∷ ops)

pub record PatchParts : Type 0 where
  pub parts : List Text
  pub counts : List ℕ
  pub total : ℕ

-- An op takes its UTF-8 length and the joining comma.
unfoldable pub op_bytes : Text → ℕ
op_bytes op = utf8_byte_length op + 1

module _ (max_bytes total : ℕ) where
  unfoldable pub pack_loop :
      List Text → List ℕ → List Text → ℕ → List Text → Result OversizeItem PatchParts
  pack_loop parts counts current current_bytes [] = ok (
      if nonempty current || not (nonempty parts)
      then record {
        parts = parts ++ join current ∷ [];
        counts = counts ++ length current ∷ [];
        total = total;
      }
      else record { parts = parts; counts = counts; total = total })
  pack_loop parts counts current current_bytes (op ∷ ops) =
      let bytes = op_bytes op in
      let flush = nonempty current && ltb max_bytes (current_bytes + bytes) in
      let rest =
        pack_loop (if flush then parts ++ join current ∷ [] else parts)
          (if flush then counts ++ length current ∷ [] else counts)
          ((if flush then [] else current) ++ op ∷ [])
          ((if flush then 0 else current_bytes) + bytes) ops in
      if ltb max_bytes bytes
      then err (record { item_bytes = bytes; max_bytes = max_bytes })
      else rest

abbrev pub max_part_patch_bytes : ℕ
max_part_patch_bytes = 850_000

unfoldable pub pack_patch : ℕ → List Text → Result OversizeItem PatchParts
pack_patch max_bytes ops = pack_loop max_bytes (length ops) [] [] [] 0 ops
