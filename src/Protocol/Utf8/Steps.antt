-- ===== src/Protocol/Utf8/Steps.antt =====
-- Lengths of the encoder's output, one code point at a time.
use cf_sync.Base.{
  ℕ, ◌+◌, ◌≤◌, ◌<◌, ◌≡◌, refl, true, false, List, [], ◌∷◌, arith, ltb, if◌then◌else◌, length,
  length-append, Bool-cases, inl, inr,
}
use cf_sync.Base.Text.{Text}
use cf_sync.Protocol.Utf8.{
  is_pair, encode_point, pair_point, code_points, is_surrogate, encode_piece, encode_pieces,
  utf8_encode,
}

length-encode_point :
    (p : ℕ)
    → length (encode_point p)
      ≡ (if ltb p 0x80 then 1 else if ltb p 0x800 then 2 else if ltb p 0x10000 then 3 else 4)
unfolding encode_point
length-encode_point p = ground arith

pub length-encode_piece_one :
    (c : ℕ)
    → c < 0x10000
    → length (encode_piece (c ∷ [])) ≡ (if ltb c 0x80 then 1 else if ltb c 0x800 then 2 else 3)
unfolding encode_piece
length-encode_piece_one c h = ground (arith, length-encode_point c)

pub length-encode_piece_lone : (c : ℕ) → is_surrogate c ≡ true → length (encode_piece (c ∷ [])) ≡ 3
unfolding encode_piece
length-encode_piece_lone c h = ground arith

pub length-encode_piece_two :
    (c d : ℕ) → is_pair c d ≡ true → length (encode_piece (c ∷ d ∷ [])) ≡ 4
unfolding encode_piece is_pair
length-encode_piece_two c d h = ground (arith, length-encode_point (pair_point c d))

pub length-utf8_encode_nil : length (utf8_encode []) ≡ 0
unfolding utf8_encode
length-utf8_encode_nil = refl

pub length-utf8_encode_one :
    (c : ℕ) → length (utf8_encode (c ∷ [])) ≡ length (encode_piece (c ∷ []))
unfolding utf8_encode
length-utf8_encode_one c = omega (arith, length-append (encode_piece (c ∷ [])) [])

-- The pieces of a text, one step on.
pub code_points_pair :
    (c d : ℕ) (rest : Text)
    → is_pair c d ≡ true
    → code_points (c ∷ d ∷ rest) ≡ (c ∷ d ∷ []) ∷ code_points rest
unfolding code_points
code_points_pair c d rest h = rw (h, code_points)

pub code_points_single :
    (c d : ℕ) (rest : Text)
    → is_pair c d ≡ false
    → code_points (c ∷ d ∷ rest) ≡ (c ∷ []) ∷ code_points (d ∷ rest)
unfolding code_points
code_points_single c d rest h = rw (h, code_points)

encode_pieces_cons :
    (p : Text) (ps : List Text)
    → length (encode_pieces (p ∷ ps)) ≡ length (encode_piece p) + length (encode_pieces ps)
encode_pieces_cons p ps = length-append (encode_piece p) (encode_pieces ps)

abbrev to_bytes : Text → List ℕ
to_bytes t = encode_pieces (code_points t)

utf8_encode_lem : (t : Text) → utf8_encode t ≡ to_bytes t
unfolding utf8_encode
utf8_encode_lem t = refl

pub length-utf8_encode_pair :
    (c d : ℕ) (rest : Text)
    → is_pair c d ≡ true
    → length (utf8_encode (c ∷ d ∷ rest)) ≡ 4 + length (utf8_encode rest)
length-utf8_encode_pair c d rest h =
    rw (utf8_encode_lem (c ∷ d ∷ rest), utf8_encode_lem rest, code_points_pair c d rest h)
      (omega (
        arith,
        length-encode_piece_two c d h,
        length-append (encode_piece (c ∷ d ∷ [])) (encode_pieces (code_points rest)),
      ))

pub length-utf8_encode_single :
    (c d : ℕ) (rest : Text)
    → is_pair c d ≡ false
    → length (utf8_encode (c ∷ d ∷ rest))
      ≡ length (encode_piece (c ∷ [])) + length (utf8_encode (d ∷ rest))
length-utf8_encode_single c d rest h =
    rw (utf8_encode_lem (c ∷ d ∷ rest), utf8_encode_lem (d ∷ rest), code_points_single c d rest h)
      (length-append (encode_piece (c ∷ [])) (encode_pieces (code_points (d ∷ rest))))

pair_surrogates : (c d : ℕ) → is_pair c d ≡ true → (is_surrogate c ≡ true) × (is_surrogate d ≡ true)
unfolding is_pair
pair_surrogates c d h = ground arith

low_not_high : (c d e : ℕ) → is_pair c d ≡ true → is_pair d e ≡ false
unfolding is_pair
low_not_high c d e h = ground arith

-- A low half that has lost its partner costs three bytes.
after_low :
    (c d : ℕ) (r : Text)
    → is_pair c d ≡ true
    → length (utf8_encode (d ∷ r)) ≡ 3 + length (utf8_encode r)
after_low c d [] h = omega (
  arith,
  length-utf8_encode_one d,
  length-utf8_encode_nil,
  length-encode_piece_lone d (pair_surrogates c d h).1,
)
after_low c d (e ∷ r) h = omega (
  arith,
  length-utf8_encode_single d e r (low_not_high c d e h),
  length-encode_piece_lone d (pair_surrogates c d h).1,
)

-- In front of a text, one unit costs at most what it costs alone.
pub one_more :
    (c : ℕ) (t : Text)
    → length (utf8_encode (c ∷ t)) ≤ length (encode_piece (c ∷ [])) + length (utf8_encode t)
one_more c [] = omega (arith, length-utf8_encode_one c)
one_more c (d ∷ r) = elim (Bool-cases (is_pair c d)) [
  | inl pair ↦ omega (
    arith,
    length-utf8_encode_pair c d r pair,
    after_low c d r pair,
    length-encode_piece_lone c (pair_surrogates c d pair).0,
  )
  | inr single ↦ omega (arith, length-utf8_encode_single c d r single)
]
