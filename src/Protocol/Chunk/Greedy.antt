-- ===== src/Protocol/Chunk/Greedy.antt =====
-- What `chunkBySize` returns: a partition of the items into bounded chunks, each filled greedily.
use cf_sync.Base.{
  All, List, Option, [], concat, length, none, some, sum_by, true, ℕ, ◌+◌, ◌<◌, ◌∷◌, ◌≡◌, ◌≢◌, ◌≤◌,
  ◌⊎◌, append-nil, arith, false, length-append, ok, refl, subst, sum_by-append, ◌++◌, Bool-cases,
  inl, inr, ltb, all, ap, append_assoc, err, if◌then◌else◌, is_ok, leb, sym, ◌∙◌,
}
use cf_sync.Protocol.Chunk.{ChunkOptions, is_full, chunk_loop, must_flush, chunk_by_size}

-- Each chunk that is closed could not take the item that follows it.
abbrev pub Greedy : {A : Type 0} → ChunkOptions A → List A → List (List A) → Type 0
Greedy opts c [] = Unit
Greedy opts c ([] ∷ ds) = ⊥
Greedy opts c ((x ∷ d) ∷ ds) =
    ((opts.max_bytes < sum_by opts.size_of c + opts.size_of x)
      ⊎ (is_full opts.max_items (length c) ≡ true))
    × Greedy opts (x ∷ d) ds

abbrev pub AllGreedy : {A : Type 0} → ChunkOptions A → List (List A) → Type 0
AllGreedy opts [] = Unit
AllGreedy opts (c ∷ cs) = Greedy opts c cs

abbrev pub WithinItems : Option ℕ → ℕ → Type 0
WithinItems none n = Unit
WithinItems (some max) n = (0 < max) → n ≤ max

module _ {A : Type 0} (opts : ChunkOptions A) where
  pub record IsChunk (c : List A) : Type 0 where
    pub filled : c ≢ []
    pub bytes : sum_by opts.size_of c ≤ opts.max_bytes
    pub items : WithinItems opts.max_items (length c)

  pub record IsPacking (items : List A) (cs : List (List A)) : Type 0 where
    pub whole : concat cs ≡ items
    pub chunks : All IsChunk cs
    pub greedy : AllGreedy opts cs

  -- The chunk that the loop is filling.
  record IsOpen (current : List A) (current_bytes : ℕ) : Type 0 where
    counted : current_bytes ≡ sum_by opts.size_of current
    bytes : current_bytes ≤ opts.max_bytes
    items : WithinItems opts.max_items (length current)

  closed : (x : A) (xs : List A) {b : ℕ} → IsOpen (x ∷ xs) b → IsChunk (x ∷ xs)
  closed x xs o = record {
    filled = λ e. cc;
    bytes = omega (arith, o.counted, o.bytes);
    items = o.items;
  }

  within_none : (m : Option ℕ) → WithinItems m 0
  within_none none = tt
  within_none (some m) = λ h. omega arith

  within_one : (m : Option ℕ) → WithinItems m 1
  within_one none = tt
  within_one (some m) = λ h. h

  within_more : (m : Option ℕ) (n : ℕ) → is_full m n ≡ false → WithinItems m (n + 1)
  within_more none n h = tt
  within_more (some m) n h = λ p. ground arith

  opened :
      (item : A) → opts.size_of item ≤ opts.max_bytes → IsOpen (item ∷ []) (0 + opts.size_of item)
  opened item h = record {
    counted = omega arith;
    bytes = omega arith;
    items = within_one opts.max_items;
  }

  extended :
      (current : List A) (b : ℕ) (item : A)
      → IsOpen current b
      → opts.size_of item ≤ opts.max_bytes
      → must_flush opts current b (opts.size_of item) ≡ false
      → IsOpen (current ++ item ∷ []) (b + opts.size_of item)
  unfolding must_flush
  extended [] b item o h f = record {
    counted = omega (arith, o.counted);
    bytes = omega (arith, o.counted);
    items = within_one opts.max_items;
  }
  extended (x ∷ xs) b item o h f = record {
    counted = omega (arith, o.counted, sum_by-append opts.size_of xs (item ∷ []));
    bytes = ground arith;
    items =
        subst (WithinItems opts.max_items) (omega (arith, length-append xs (item ∷ [])))
          (within_more opts.max_items (length (x ∷ xs)) (ground arith));
  }

  Greedy-next :
      (c : List A) (b : ℕ) (item : A) (items : List A) (ds : List (List A))
      → b ≡ sum_by opts.size_of c
      → must_flush opts c b (opts.size_of item) ≡ true
      → IsPacking (item ∷ items) ds
      → Greedy opts c ds
  unfolding must_flush
  Greedy-next c b item items [] e f p = tt
  Greedy-next c b item items ([] ∷ ds) e f p = p.chunks.0.filled refl
  Greedy-next c b item items ((x ∷ d) ∷ ds) e f p = (ground (arith, cc_head), p.greedy)
    where
      cc_head : opts.size_of x ≡ opts.size_of item
      cc_head = cc (p.whole)

  closed_by_flush :
      (current : List A) (b bytes : ℕ)
      → IsOpen current b
      → must_flush opts current b bytes ≡ true
      → IsChunk current
  unfolding must_flush
  closed_by_flush [] b bytes o f = absurd (cc)
  closed_by_flush (x ∷ xs) b bytes o f = closed x xs o

  pub loop_oversize :
      (chunks : List (List A)) (current : List A) (b : ℕ) (item : A) (items : List A)
      → ltb opts.max_bytes (opts.size_of item) ≡ true
      → chunk_loop opts chunks current b (item ∷ items)
        ≡ err (record { item_bytes = opts.size_of item; max_bytes = opts.max_bytes })
  unfolding chunk_loop
  loop_oversize chunks current b item items big = ground arith

  pub loop_flush :
      (chunks : List (List A)) (current : List A) (b : ℕ) (item : A) (items : List A)
      → ltb opts.max_bytes (opts.size_of item) ≡ false
      → must_flush opts current b (opts.size_of item) ≡ true
      → chunk_loop opts chunks current b (item ∷ items)
        ≡ chunk_loop opts (chunks ++ current ∷ []) (item ∷ []) (0 + opts.size_of item) items
  unfolding chunk_loop
  loop_flush chunks current b item items fits flush = ground arith

  pub loop_extend :
      (chunks : List (List A)) (current : List A) (b : ℕ) (item : A) (items : List A)
      → ltb opts.max_bytes (opts.size_of item) ≡ false
      → must_flush opts current b (opts.size_of item) ≡ false
      → chunk_loop opts chunks current b (item ∷ items)
        ≡ chunk_loop opts chunks (current ++ item ∷ []) (b + opts.size_of item) items
  unfolding chunk_loop
  loop_extend chunks current b item items fits more = ground arith

  loop-IsPacking :
      (items : List A) (chunks : List (List A)) (current : List A) (b : ℕ) {cs : List (List A)}
      → IsOpen current b
      → chunk_loop opts chunks current b items ≡ ok cs
      → (ds : List (List A)) × (cs ≡ chunks ++ ds) × IsPacking (current ++ items) ds
  unfolding chunk_loop
  loop-IsPacking [] chunks [] b o h =
      ([], ground (arith, append-nil chunks), record { whole = refl; chunks = tt; greedy = tt })
  loop-IsPacking [] chunks (x ∷ xs) b o h = (
    (x ∷ xs) ∷ [],
    ground arith,
    record { whole = refl; chunks = (closed x xs o, tt); greedy = tt },
  )
  loop-IsPacking (item ∷ items) chunks current b {cs} o h =
      elim (Bool-cases (ltb opts.max_bytes (opts.size_of item))) [
        | inl big ↦ absurd (cc (loop_oversize chunks current b item items big))
        | inr fits ↦ elim (Bool-cases (must_flush opts current b (opts.size_of item))) [
          | inl flush ↦
              let (ds, e, p) =
                loop-IsPacking items (chunks ++ current ∷ []) (item ∷ []) (0 + opts.size_of item)
                  (opened item (ground arith))
                  (cc (loop_flush chunks current b item items fits flush)) in
              (
                current ∷ ds,
                e ∙ append_assoc chunks (current ∷ []) ds,
                record {
                  whole = ap (λ t. current ++ t) p.whole;
                  chunks = (closed_by_flush current b (opts.size_of item) o flush, p.chunks);
                  greedy = Greedy-next current b item items ds o.counted flush p;
                },
              )
          | inr more ↦
              let (ds, e, p) =
                loop-IsPacking items chunks (current ++ item ∷ []) (b + opts.size_of item)
                  (extended current b item o (ground arith) more)
                  (cc (loop_extend chunks current b item items fits more)) in
              (ds, e, rw (append_assoc current (item ∷ []) items) at p)
        ]
      ]

  -- If `chunkBySize` returns, its chunks hold the items in order, none is empty, each is within
  -- `maxBytes` and (if that is positive) `maxItems`, and none could have taken the next item.
  pub chunk_by_size-IsPacking :
      (items : List A) {cs : List (List A)} → chunk_by_size opts items ≡ ok cs → IsPacking items cs
  unfolding chunk_by_size
  chunk_by_size-IsPacking items {cs} h =
      let (ds, e, p) =
        loop-IsPacking items [] [] 0
          (record { counted = refl; bytes = omega arith; items = within_none opts.max_items }) h in
      subst (IsPacking items) (sym e) p

  loop_total :
      (items : List A) (chunks : List (List A)) (current : List A) (b : ℕ)
      → is_ok (chunk_loop opts chunks current b items)
        ≡ all (λ item. leb (opts.size_of item) opts.max_bytes) items
  unfolding chunk_loop
  loop_total [] chunks current b = refl
  loop_total (item ∷ items) chunks current b = ground (
    arith,
    loop_total items
        (if must_flush opts current b (opts.size_of item) then chunks ++ current ∷ [] else chunks)
        ((if must_flush opts current b (opts.size_of item) then [] else current) ++ item ∷ [])
        ((if must_flush opts current b (opts.size_of item) then 0 else b) + opts.size_of item),
  )

  -- `chunkBySize` throws exactly when some item alone is over the budget.
  pub is_ok-chunk_by_size :
      (items : List A)
      → is_ok (chunk_by_size opts items)
        ≡ all (λ item. leb (opts.size_of item) opts.max_bytes) items
  unfolding chunk_by_size
  is_ok-chunk_by_size items = loop_total items [] [] 0
