-- ===== src/Protocol/Utf8.antt =====
-- UTF-8 lengths: `utf8ByteLength` of packages/server/src/frames.ts, `jsonByteSize` of
-- packages/protocol/src/chunk.ts and `truncateCloseReason` of packages/protocol/src/messages.ts,
-- over the platform's TextEncoder.
pub mod Steps
pub mod Length
pub mod CloseReason
use cf_sync.Base.{
  ℕ, zero, suc, ◌+◌, ◌-◌, ◌*◌, ◌/◌, ◌%◌, ◌<◌, Bool, true, false, not, ◌&&◌, List, [], ◌∷◌, ◌++◌,
  ltb, leb, if◌then◌else◌, length, any, All, concat,
}
use cf_sync.Base.Text.{Text}

abbrev pub is_high : ℕ → Bool
is_high c = leb 0xd800 c && leb c 0xdbff

abbrev pub is_low : ℕ → Bool
is_low c = leb 0xdc00 c && leb c 0xdfff

abbrev pub low_follows : Text → Bool
low_follows [] = false
low_follows (c ∷ rest) = is_low c

-- The units of a JavaScript string are 16-bit numbers.
abbrev pub IsUnits : Text → Type 0
IsUnits = All (λ c. c < 0x10000)

-- TextEncoder: what one code point is in UTF-8. A lone surrogate is encoded as U+FFFD.
unfoldable pub encode_point : ℕ → List ℕ
encode_point p =
    if ltb p 0x80
    then p ∷ []
    else if ltb p 0x800
    then (0xc0 + p / 64) ∷ (0x80 + p % 64) ∷ []
    else if ltb p 0x10000
    then (0xe0 + p / 4096) ∷ (0x80 + p / 64 % 64) ∷ (0x80 + p % 64) ∷ []
    else (0xf0 + p / 262144) ∷ (0x80 + p / 4096 % 64) ∷ (0x80 + p / 64 % 64) ∷ (0x80 + p % 64) ∷ []

abbrev pub pair_point : ℕ → ℕ → ℕ
pair_point hi lo = 0x10000 + (hi - 0xd800) * 1024 + (lo - 0xdc00)

unfoldable pub is_pair : ℕ → ℕ → Bool
is_pair c d = is_high c && is_low d

-- The string iterator: one piece of one or two units for each code point.

unfoldable pub code_points : Text → List Text
code_points [] = []
code_points (c ∷ []) = (c ∷ []) ∷ []
code_points (c ∷ d ∷ rest) = elim (is_pair c d) [
  | true ↦ (c ∷ d ∷ []) ∷ code_points rest
  | false ↦ (c ∷ []) ∷ code_points (d ∷ rest)
]

abbrev pub is_surrogate : ℕ → Bool
is_surrogate c = leb 0xd800 c && leb c 0xdfff

unfoldable pub encode_piece : Text → List ℕ
unfolding encode_point
encode_piece [] = []
encode_piece (c ∷ []) = if is_surrogate c then encode_point 0xfffd else encode_point c
encode_piece (c ∷ d ∷ rest) = encode_point (pair_point c d)

abbrev pub encode_pieces : List Text → List ℕ
encode_pieces [] = []
encode_pieces (p ∷ ps) = encode_piece p ++ encode_pieces ps

-- `new TextEncoder().encode(text)`.
unfoldable pub utf8_encode : Text → List ℕ
unfolding code_points encode_piece
utf8_encode t = encode_pieces (code_points t)

abbrev pub non_ascii : Text → Bool
non_ascii = any (λ c. not (leb c 0x7f))

-- The loop of `utf8ByteLength`; `skip` is the `i++` that steps over a low surrogate.
unfoldable pub byte_length_loop : Bool → ℕ → Text → ℕ
byte_length_loop skip bytes [] = bytes
byte_length_loop true bytes (c ∷ rest) = byte_length_loop false bytes rest
byte_length_loop false bytes (c ∷ rest) =
    byte_length_loop (is_high c && low_follows rest)
      (if ltb c 0x80 then bytes else if ltb c 0x800 then bytes + 1 else bytes + 2) rest

unfoldable pub utf8_byte_length : Text → ℕ
unfolding byte_length_loop
utf8_byte_length t = if non_ascii t then byte_length_loop false (length t) t else length t

-- `jsonByteSize`: JSON.stringify of the value is the argument.
unfoldable pub json_byte_size {ℓ} : {A : Type ℓ} → (A → Text) → A → ℕ
unfolding utf8_encode
json_byte_size stringify value = length (utf8_encode (stringify value))
