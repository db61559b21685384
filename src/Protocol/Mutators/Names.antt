-- ===== src/Protocol/Mutators/Names.antt =====
-- The names of mutators: the checks of `defineMutators` (packages/protocol/src/mutators.ts).
use cf_sync.Base.Text.{Text}
use cf_sync.Base.{
  Bool, List, [], all, any, false, if◌then◌else◌, list_beq, nat_beq, not, true, ℕ, ◌&&◌, ◌++◌, ◌||◌,
  ◌∷◌, list_eq, nat_eq, pair_eq,
}

abbrev pub dot : ℕ
dot = b'.'

-- Whether `name.split('.')` has an empty segment; `fresh` says that a segment has just begun.
unfoldable pub empty_segment : Bool → Text → Bool
empty_segment fresh [] = fresh
empty_segment fresh (c ∷ rest) =
    if nat_beq c dot then (fresh || empty_segment true rest) else empty_segment false rest

-- Every prefix of a name that ends before one of its dots.
unfoldable pub dot_prefixes : Text → Text → List Text
dot_prefixes seen [] = []
dot_prefixes seen (c ∷ rest) =
    let more = dot_prefixes (seen ++ c ∷ []) rest in if nat_beq c dot then seen ∷ more else more

abbrev pub member : Text → List Text → Bool
member n [] = false
member n (m ∷ ms) = list_beq n m || member n ms

-- The name is not empty, has no empty segment, and none of its namespaces is itself a mutator.
unfoldable pub name_ok : List Text → Text → Bool
unfolding empty_segment dot_prefixes
name_ok names name =
    not (list_beq name [])
    && not (empty_segment true name)
    && not (any (λ prefix. member prefix names) (dot_prefixes [] name))

unfoldable pub names_ok : List Text → Bool
unfolding name_ok
names_ok names = all (name_ok names) names
