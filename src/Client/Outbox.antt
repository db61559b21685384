-- ===== src/Client/Outbox.antt =====
-- The numbers of queued mutations.
use cf_sync.Base.{
  All, List, Option, [], arith, lt→ltb, none, refl, some, subst, ℕ, ◌+◌, ◌-◌, ◌<◌, ◌∷◌, ◌≡◌, ◌≤◌,
}
use cf_sync.Client.{
  OutboxEntry, at_least, insert_by_id, max_id, next_mutation_id, pushed, rebase_outbox_ids,
}
use cf_sync.Protocol.Messages.{Mutation}

-- An id that is at most `bound`, if there is one.
abbrev pub AtMost : ℕ → Option ℕ → Type 0
AtMost bound none = Unit
AtMost bound (some id) = id ≤ bound

AtMost-at_least : (bound top : ℕ) (id : Option ℕ) → at_least bound id ≤ top → AtMost top id
AtMost-at_least bound top none h = tt
AtMost-at_least bound top (some id) h = ground arith

module _ {Json : Type 0} where
  max_id-ge : (bound : ℕ) (outbox : List (OutboxEntry Json)) → bound ≤ max_id bound outbox
  unfolding max_id
  max_id-ge bound [] = omega arith
  max_id-ge bound (entry ∷ rest) = ground (arith, max_id-ge (at_least bound entry.id) rest)

  max_id-AtMost :
      (bound : ℕ) (outbox : List (OutboxEntry Json))
      → All (λ entry. AtMost (max_id bound outbox) entry.id) outbox
  unfolding max_id
  max_id-AtMost bound [] = tt
  max_id-AtMost bound (entry ∷ rest) = (
    AtMost-at_least bound (max_id (at_least bound entry.id) rest) entry.id
        (max_id-ge (at_least bound entry.id) rest),
    max_id-AtMost (at_least bound entry.id) rest,
  )

  -- The next mutation id is above the confirmed LMID and above every id in the outbox.
  pub next_mutation_id-fresh :
      (confirmed : ℕ) (outbox : List (OutboxEntry Json))
      → (confirmed < next_mutation_id confirmed outbox)
        × All (λ entry. AtMost (next_mutation_id confirmed outbox - 1) entry.id) outbox
  unfolding next_mutation_id
  next_mutation_id-fresh confirmed outbox = (
    omega (arith, max_id-ge confirmed outbox),
    subst (λ n. All (λ entry. AtMost n entry.id) outbox) {x = max_id confirmed outbox}
        {y = max_id confirmed outbox + 1 - 1} (omega arith) (max_id-AtMost confirmed outbox),
  )

  -- The outbox as a push, numbered on from `next`.
  abbrev pub numbered : ℕ → List (OutboxEntry Json) → List (Mutation Json)
  numbered next [] = []
  numbered next (entry ∷ rest) =
      record { id = next + 1; name = entry.name; args = entry.args; seed = entry.seed }
      ∷ numbered (next + 1) rest

  insert_first :
      (m : Mutation Json) (next : ℕ) (outbox : List (OutboxEntry Json))
      → m.id ≤ next
      → insert_by_id m (numbered next outbox) ≡ m ∷ numbered next outbox
  insert_first m next [] h = refl
  insert_first m next (entry ∷ rest) h = ground arith

  pushed-rebase_from :
      (confirmed next : ℕ) (outbox : List (OutboxEntry Json))
      → confirmed ≤ next
      → pushed confirmed (rebase_outbox_ids next outbox) ≡ numbered next outbox
  unfolding pushed rebase_outbox_ids
  pushed-rebase_from confirmed next [] h = refl
  pushed-rebase_from confirmed next (entry ∷ rest) h =
      let m : Mutation Json = record {
        id = next + 1;
        name = entry.name;
        args = entry.args;
        seed = entry.seed;
      } in
      rw
        (
          lt→ltb confirmed (next + 1) (omega (arith, h)),
          pushed-rebase_from confirmed (next + 1) rest (omega (arith, h)),
        )
        (insert_first m (next + 1) rest (omega arith))

  -- Once the outbox has been renumbered, a push carries all of it, in order, numbered from the
  -- confirmed LMID without a gap.
  pub pushed-rebase_outbox_ids :
      (confirmed : ℕ) (outbox : List (OutboxEntry Json))
      → pushed confirmed (rebase_outbox_ids confirmed outbox) ≡ numbered confirmed outbox
  pushed-rebase_outbox_ids confirmed outbox =
      pushed-rebase_from confirmed confirmed outbox (omega arith)
