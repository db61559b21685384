-- ===== src/Engine/Keys.antt =====
-- Row keys name their row: a valid table name holds no NUL.
use cf_sync.Base.Text.{Text}
use cf_sync.Base.{
  [], all, any, arith, false, ok, refl, true, ℕ, ◌++◌, ◌∷◌, ◌≡◌, ap₂, list_beq, list_beq_iff,
  list_eq, nat_eq, pair_eq,
}
use cf_sync.Engine.{is_name_char, is_nul, row_key, table_name_ok, validate_target, same_target}

name_char_not_nul : (c : ℕ) → is_name_char c ≡ true → is_nul c ≡ false
name_char_not_nul c h = ground arith

names_no_nul : (cs : Text) → all is_name_char cs ≡ true → any is_nul cs ≡ false
names_no_nul [] h = refl
names_no_nul (c ∷ cs) h = ground (arith, name_char_not_nul c, names_no_nul cs)

table_name-no_nul : (tbl : Text) → table_name_ok tbl ≡ true → any is_nul tbl ≡ false
unfolding table_name_ok
table_name-no_nul [] h = refl
table_name-no_nul (c ∷ rest) h = ground (arith, name_char_not_nul c, names_no_nul rest)

split_at_nul :
    (a b x y : Text)
    → any is_nul a ≡ false
    → any is_nul b ≡ false
    → a ++ 0 ∷ x ≡ b ++ 0 ∷ y
    → (a ≡ b) × (x ≡ y)
split_at_nul [] [] x y p q e = (refl, cc)
split_at_nul [] (d ∷ b) x y p q e = ground arith
split_at_nul (c ∷ a) [] x y p q e = ground arith
split_at_nul (c ∷ a) (d ∷ b) x y p q e =
    let (u, v) = split_at_nul a b x y (ground arith) (ground arith) (cc) in (cc, v)

-- Two targets with valid table names share a row key only if they are the same target.
pub row_key-injective :
    (tbl id t i : Text)
    → table_name_ok tbl ≡ true
    → table_name_ok t ≡ true
    → row_key tbl id ≡ row_key t i
    → (tbl ≡ t) × (id ≡ i)
unfolding row_key
row_key-injective tbl id t i p q =
    split_at_nul tbl t id i (table_name-no_nul tbl p) (table_name-no_nul t q)

pub target-name_ok :
    (tbl id : Text) {u : Unit {0}} → validate_target tbl id ≡ ok u → table_name_ok tbl ≡ true
unfolding validate_target
target-name_ok tbl id h = ground arith

-- Comparing row keys is comparing targets.
pub row_key-same_target :
    (tbl id t i : Text)
    → table_name_ok tbl ≡ true
    → table_name_ok t ≡ true
    → list_beq (row_key tbl id) (row_key t i) ≡ same_target tbl id t i
row_key-same_target tbl id t i p q = ground (
  arith,
  list_beq_iff (row_key tbl id) (row_key t i),
  list_beq_iff tbl t,
  list_beq_iff id i,
  row_key-injective tbl id t i p q,
  λ (e : (tbl ≡ t) × (id ≡ i)). ap₂ row_key e.0 e.1,
)
