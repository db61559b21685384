-- ===== src/Base/JsMap.antt =====
-- A JavaScript `Map`: entries in insertion order; a `set` of a present key keeps its place.
use mathlib.Core.Path.{◌≡◌, refl, subst, sym}
use mathlib.Core.Bool.{Bool}
use mathlib.Core.Logic.{inl, inr}
use mathlib.Core.List.{List, [], ◌∷◌}
use mathlib.Core.Option.{Option, none, some}
use native.Mathlib.Omega.{arith}
use cf_sync.Base.Tests.{if◌then◌else◌, is_some, Bool-cases}
use cf_sync.Base.Equality.{KeyEq, ◌==◌, eq_iff, eq_refl}

abbrev pub JsMap {ℓ} : Type ℓ → Type ℓ → Type ℓ
JsMap K V = List (K × V)

module _ {ℓ} {K V : Type ℓ} ⦃e : KeyEq K⦄ where
  unfoldable pub get : K → JsMap K V → Option V
  get k [] = none
  get k ((j, v) ∷ m) = if j == k then some v else get k m

  unfoldable pub set : K → V → JsMap K V → JsMap K V
  set k v [] = (k, v) ∷ []
  set k v ((j, w) ∷ m) = if j == k then (j, v) ∷ m else (j, w) ∷ set k v m

  unfoldable pub delete : K → JsMap K V → JsMap K V
  delete k [] = []
  delete k ((j, w) ∷ m) = if j == k then delete k m else (j, w) ∷ delete k m

  abbrev pub has : K → JsMap K V → Bool
  has k m = is_some (get k m)

  pub get-set :
      (k j : K) (v : V) (m : JsMap K V) → get j (set k v m) ≡ (if k == j then some v else get j m)
  unfolding get set
  get-set k j v [] = refl
  get-set k j v ((i, w) ∷ m) = ground (arith, eq_iff k j, eq_iff i k, eq_iff i j, get-set k j v m)

  pub get-delete :
      (k j : K) (m : JsMap K V) → get j (delete k m) ≡ (if k == j then none else get j m)
  unfolding get delete
  get-delete k j [] = ground arith
  get-delete k j ((i, w) ∷ m) = ground (arith, eq_iff k j, eq_iff i k, eq_iff i j, get-delete k j m)

  pub get-set_self : (k : K) (v : V) (m : JsMap K V) → get k (set k v m) ≡ some v
  get-set_self k v m = simp (get-set, eq_refl)

  -- `k` is no key of `m`, in the form that is carried through an induction.
  abbrev pub Fresh : K → JsMap K V → Type ℓ
  Fresh k m = get k m ≡ none

  -- Every key stands once.
  abbrev pub Distinct : JsMap K V → Type ℓ
  Distinct [] = Unit
  Distinct ((j, w) ∷ m) = Fresh j m × Distinct m

  pub set-Distinct : (k : K) (v : V) (m : JsMap K V) → Distinct m → Distinct (set k v m)
  unfolding get set
  set-Distinct k v [] d = (refl, tt)
  set-Distinct k v ((j, w) ∷ m) d =
      ground (arith, eq_iff j k, eq_iff k j, get-set k j v m, set-Distinct k v m d.1)

  pub delete-Distinct : (k : K) (m : JsMap K V) → Distinct m → Distinct (delete k m)
  unfolding get delete
  delete-Distinct k [] d = tt
  delete-Distinct k ((j, w) ∷ m) d =
      ground (arith, eq_iff j k, eq_iff k j, get-delete k j m, delete-Distinct k m d.1)

module _ {ℓ} {K W : Type ℓ} ⦃e : KeyEq K⦄ (P : K → W → Type ℓ) where
  abbrev pub AllEntries : JsMap K W → Type ℓ
  AllEntries [] = Unit
  AllEntries ((j, w) ∷ m) = P j w × AllEntries m

  pub set-AllEntries :
      (k : K) (v : W) (m : JsMap K W) → P k v → AllEntries m → AllEntries (set k v m)
  unfolding set
  set-AllEntries k v [] p a = (p, tt)
  set-AllEntries k v ((j, w) ∷ m) p a = elim (Bool-cases (j == k)) [
    | inl same ↦ rw (same, set) (subst (λ x. P x v) (sym ((eq_iff j k).0 same)) p, a.1)
    | inr differs ↦ rw (differs, set) (a.0, set-AllEntries k v m p a.1)
  ]

  pub delete-AllEntries : (k : K) (m : JsMap K W) → AllEntries m → AllEntries (delete k m)
  unfolding delete
  delete-AllEntries k [] a = tt
  delete-AllEntries k ((j, w) ∷ m) a = elim (Bool-cases (j == k)) [
    | inl same ↦ rw (same, delete) (delete-AllEntries k m a.1)
    | inr differs ↦ rw (differs, delete) (a.0, delete-AllEntries k m a.1)
  ]

  pub get-AllEntries : (k : K) (m : JsMap K W) {v : W} → AllEntries m → get k m ≡ some v → P k v
  unfolding get
  get-AllEntries k [] a h = absurd (cc)
  get-AllEntries k ((j, w) ∷ m) {v} a h = elim (Bool-cases (j == k)) [
    | inl same ↦ subst (λ x. P x v) ((eq_iff j k).0 same) (subst (P j) (ground arith) a.0)
    | inr differs ↦ get-AllEntries k m a.1 (ground arith)
  ]
