-- ===== src/Yjs/Server/Log.antt =====
-- The log of a field: its updates ascend, and the next one goes last.
use cf_sync.Base.{
  List, Option-cases, [], arith, inl, inr, keep, ltb, or_else, refl, some, subst, ℕ, ◌++◌, ◌<◌, ◌∷◌,
  ◌≡◌, ◌≤◌, none,
}
use cf_sync.Yjs.Server.{UpdateRow, insert_by_seq, max_seq}
use cf_sync.Yjs.{Bytes}

-- The numbers of the updates ascend from above `bound`.
abbrev pub Ascending : ℕ → List UpdateRow → Type 0
Ascending bound [] = Unit
Ascending bound (u ∷ us) = (bound < u.seq) × Ascending u.seq us

-- The highest number in use.
abbrev pub top : ℕ → List UpdateRow → ℕ
top bound rows = or_else (max_seq rows) bound

max_seq-gt :
    (bound : ℕ) (rows : List UpdateRow) {m : ℕ}
    → Ascending bound rows
    → max_seq rows ≡ some m
    → bound < m
max_seq-gt bound [] a h = absurd (cc)
max_seq-gt bound (u ∷ []) a h = ground arith
max_seq-gt bound (u ∷ v ∷ vs) {m} a h = elim (Option-cases (max_seq (v ∷ vs))) [
  | inl none_left ↦ ground arith
  | inr (k, found) ↦ ground (arith, max_seq-gt u.seq (v ∷ vs) {m = k} a.1 found)
]

top-cons :
    (bound : ℕ) (u : UpdateRow) (us : List UpdateRow)
    → Ascending bound (u ∷ us)
    → top bound (u ∷ us) ≡ top u.seq us
top-cons bound u us a = elim (Option-cases (max_seq us)) [
  | inl none_left ↦ ground arith
  | inr (k, found) ↦ ground (arith, max_seq-gt u.seq us {m = k} a.1 found)
]

top-ge : (bound : ℕ) (rows : List UpdateRow) → Ascending bound rows → bound ≤ top bound rows
top-ge bound rows a = elim (Option-cases (max_seq rows)) [
  | inl none_left ↦ ground arith
  | inr (k, found) ↦ ground (arith, max_seq-gt bound rows {m = k} a found)
]

-- An update above all others goes last, and the log still ascends.
pub insert_last :
    (bound seq : ℕ) (bytes : Bytes) (rows : List UpdateRow)
    → Ascending bound rows
    → top bound rows < seq
    → (insert_by_seq (record { seq = seq; bytes = bytes }) rows
        ≡ rows ++ record { seq = seq; bytes = bytes } ∷ [])
      × Ascending bound (rows ++ record { seq = seq; bytes = bytes } ∷ [])
insert_last bound seq bytes [] a h = (refl, (h, tt))
insert_last bound seq bytes (u ∷ us) a h =
    let below : top u.seq us < seq = subst (λ t. t < seq) (top-cons bound u us a) h in
    let (e, rest) = insert_last u.seq seq bytes us a.1 below in
    (ground (arith, top-ge u.seq us a.1), (a.0, rest))

-- All of the log is after the snapshot.
pub keep-Ascending :
    (bound low : ℕ) (rows : List UpdateRow)
    → low ≤ bound
    → Ascending bound rows
    → keep (λ u. ltb low u.seq) rows ≡ rows
keep-Ascending bound low [] h a = refl
keep-Ascending bound low (u ∷ us) h a =
    ground (arith, keep-Ascending u.seq low us (omega arith) a.1)

-- Nothing of the log is after its last update.
pub keep-top :
    (bound last : ℕ) (rows : List UpdateRow)
    → Ascending bound rows
    → top bound rows ≤ last
    → keep (λ u. ltb last u.seq) rows ≡ []
keep-top bound last [] a h = refl
keep-top bound last (u ∷ us) a h =
    let below : top u.seq us ≤ last = subst (λ t. t ≤ last) (top-cons bound u us a) h in
    ground (arith, top-ge u.seq us a.1, keep-top u.seq last us a.1 below)

pub max_seq-none : (rows : List UpdateRow) → max_seq rows ≡ none → rows ≡ []
max_seq-none [] h = refl
max_seq-none (u ∷ us) h = ground arith
