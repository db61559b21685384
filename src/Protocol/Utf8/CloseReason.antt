-- ===== src/Protocol/Utf8/CloseReason.antt =====
-- `truncateCloseReason` of packages/protocol/src/messages.ts.
use cf_sync.Base.Text.{Text}
use cf_sync.Base.{
  ℕ, ◌+◌, ◌≤◌, ◌≡◌, refl, sym, true, List, [], ◌∷◌, ◌++◌, append-nil, append_assoc, arith, ltb, leb,
  if◌then◌else◌, length, All, concat, Bool-cases, inl, inr, leb→le,
}
use cf_sync.Protocol.Utf8.Steps.{
  code_points_pair, code_points_single, length-utf8_encode_pair, length-encode_piece_two, one_more,
}
use cf_sync.Protocol.Utf8.{is_pair, code_points, encode_piece, utf8_encode}

-- The ellipsis character.
abbrev pub ellipsis : Text
ellipsis = 0x2026 ∷ []

-- The `for … of` loop: it stops at the first code point that would pass 120 bytes.
unfoldable pub truncate_loop : ℕ → Text → List Text → Text
truncate_loop bytes out [] = out
truncate_loop bytes out (ch ∷ rest) =
    let n = length (encode_piece ch) in
    let more = truncate_loop (bytes + n) (out ++ ch) rest in
    if ltb 120 (bytes + n) then out else more

unfoldable pub truncate_close_reason : Text → Text
unfolding truncate_loop utf8_encode
truncate_close_reason reason =
    if leb (length (utf8_encode reason)) 123
    then reason
    else truncate_loop 0 [] (code_points reason) ++ ellipsis

-- What the loop takes of the code points that are left.
unfoldable pub fitting : ℕ → List Text → List Text
fitting bytes [] = []
fitting bytes (ch ∷ rest) =
    let n = length (encode_piece ch) in
    let more = fitting (bytes + n) rest in if ltb 120 (bytes + n) then [] else ch ∷ more

truncate_loop-eq-fitting :
    (ps : List Text) (bytes : ℕ) (out : Text)
    → truncate_loop bytes out ps ≡ out ++ concat (fitting bytes ps)
unfolding truncate_loop fitting
truncate_loop-eq-fitting [] bytes out = sym (append-nil out)
truncate_loop-eq-fitting (ch ∷ rest) bytes out = ground (
  arith,
  append-nil out,
  truncate_loop-eq-fitting rest (bytes + length (encode_piece ch)) (out ++ ch),
  append_assoc out ch (concat (fitting (bytes + length (encode_piece ch)) rest)),
)

abbrev IsPiece : Text → Type 0
IsPiece (c ∷ []) = Unit
IsPiece (c ∷ d ∷ []) = is_pair c d ≡ true
IsPiece _ = ⊥

code_points-IsPiece : (t : Text) → All IsPiece (code_points t)
unfolding code_points
code_points-IsPiece [] = tt
code_points-IsPiece (c ∷ []) = (tt, tt)
code_points-IsPiece (c ∷ d ∷ rest) = elim (Bool-cases (is_pair c d)) [
  | inl pair ↦ rw (code_points_pair c d rest pair) (pair, code_points-IsPiece rest)
  | inr single ↦ rw (code_points_single c d rest single) (tt, code_points-IsPiece (d ∷ rest))
]

piece_more :
    (p t : Text)
    → IsPiece p
    → length (utf8_encode (p ++ t)) ≤ length (encode_piece p) + length (utf8_encode t)
piece_more [] t h = absurd h
piece_more (c ∷ []) t h = one_more c t
piece_more (c ∷ d ∷ []) t h =
    omega (arith, length-utf8_encode_pair c d t h, length-encode_piece_two c d h)
piece_more (c ∷ d ∷ e ∷ r) t h = absurd h

-- The pieces that are taken stay within 120 bytes, and a text of three bytes fits behind them.
fitting_bytes :
    (ps : List Text) (bytes : ℕ) (t : Text)
    → All IsPiece ps
    → bytes ≤ 120
    → bytes + length (utf8_encode (concat (fitting bytes ps) ++ t)) ≤ 120 + length (utf8_encode t)
unfolding fitting
fitting_bytes [] bytes t a h = omega arith
fitting_bytes (ch ∷ rest) bytes t a h = ground (
  arith,
  fitting_bytes rest (bytes + length (encode_piece ch)) t a.1,
  piece_more ch (concat (fitting (bytes + length (encode_piece ch)) rest) ++ t) a.0,
  append_assoc ch (concat (fitting (bytes + length (encode_piece ch)) rest)) t,
)

ellipsis_bytes : length (utf8_encode ellipsis) ≡ 3
unfolding utf8_encode
ellipsis_bytes = refl

-- A close reason never passes the 123 bytes that a close frame can carry.
pub truncate_close_reason-le :
    (reason : Text) → length (utf8_encode (truncate_close_reason reason)) ≤ 123
unfolding truncate_close_reason
truncate_close_reason-le reason = elim (Bool-cases (leb (length (utf8_encode reason)) 123)) [
  | inl short ↦ rw (short, truncate_close_reason) (leb→le (length (utf8_encode reason)) 123 short)
  | inr long ↦
      rw (long, truncate_close_reason, truncate_loop-eq-fitting (code_points reason) 0 [])
        (omega (
          arith,
          fitting_bytes (code_points reason) 0 ellipsis (code_points-IsPiece reason),
          ellipsis_bytes,
        ))
]
