-- ===== src/Protocol/Utf8/Length.antt =====
-- `utf8ByteLength` (packages/server/src/frames.ts) against the platform's encoder.
use cf_sync.Base.Text.{Text}
use cf_sync.Base.{
  ℕ, ◌+◌, ◌≡◌, refl, true, false, [], ◌∷◌, arith, ltb, if◌then◌else◌, length, Bool-cases, inl, inr,
}
use cf_sync.Protocol.Utf8.Steps.{
  length-encode_piece_one, length-utf8_encode_nil, length-utf8_encode_one, length-utf8_encode_pair,
  length-utf8_encode_single,
}
use cf_sync.Protocol.Utf8.{
  is_pair, IsUnits, utf8_encode, non_ascii, byte_length_loop, utf8_byte_length,
}

loop_pair :
    (c d b : ℕ) (rest : Text)
    → is_pair c d ≡ true
    → byte_length_loop false b (c ∷ d ∷ rest) ≡ byte_length_loop false (b + 2) rest
unfolding byte_length_loop is_pair
loop_pair c d b rest h = ground arith

loop_single :
    (c d b : ℕ) (rest : Text)
    → is_pair c d ≡ false
    → byte_length_loop false b (c ∷ d ∷ rest)
      ≡ byte_length_loop false
          (if ltb c 0x80 then b else if ltb c 0x800 then b + 1 else b + 2)
          (d ∷ rest)
unfolding byte_length_loop is_pair
loop_single c d b rest h = ground arith

loop-eq-encode :
    (t : Text) (b : ℕ)
    → IsUnits t
    → byte_length_loop false b t + length t ≡ b + length (utf8_encode t)
unfolding byte_length_loop
loop-eq-encode [] b u = ground (arith, length-utf8_encode_nil)
loop-eq-encode (c ∷ []) b u =
    ground (arith, length-encode_piece_one c u.0, length-utf8_encode_one c)
loop-eq-encode (c ∷ d ∷ rest) b u = elim (Bool-cases (is_pair c d)) [
  | inl pair ↦ omega (
    arith,
    loop_pair c d b rest pair,
    loop-eq-encode rest (b + 2) u.1.1,
    length-utf8_encode_pair c d rest pair,
  )
  | inr single ↦ rw (loop_single c d b rest single) (
      ground (
        arith,
        length-encode_piece_one c u.0,
        loop-eq-encode (d ∷ rest) (if ltb c 0x80 then b else if ltb c 0x800 then b + 1 else b + 2)
            u.1,
        length-utf8_encode_single c d rest single,
      ))
]

loop_ascii : (t : Text) (b : ℕ) → non_ascii t ≡ false → byte_length_loop false b t ≡ b
unfolding byte_length_loop
loop_ascii [] b h = refl
loop_ascii (c ∷ rest) b h = ground (arith, loop_ascii rest b)

-- On every JavaScript string, `utf8ByteLength` is the number of bytes that TextEncoder produces,
-- on the ASCII shortcut and on the loop, surrogate pairs and lone surrogates included.
pub utf8_byte_length-eq-length-utf8_encode :
    (t : Text) → IsUnits t → utf8_byte_length t ≡ length (utf8_encode t)
unfolding utf8_byte_length
utf8_byte_length-eq-length-utf8_encode t u =
    ground (arith, loop_ascii t (length t), loop-eq-encode t (length t) u)
