-- ===== src/Utils/Hex.antt =====
-- src/Utils.cpp: `str2hex` reads what two digits for each byte print.
use concentrator.Common.{
  ℕ, ◌+◌, ◌*◌, ◌/◌, ◌%◌, ◌^◌, ◌<◌, ◌≡◌, refl, ap₂, ◌∙◌, Bool, true, List, [], ◌∷◌, bit_or, ◌==◌,
  ltb, if◌then◌else◌, u8, length, All, arith, ==_iff,
}
use concentrator.Common.Upto.{all_upto, all_upto-holds}
use concentrator.Utils.Bytes.{hex_value, str2hex_loop, str2hex}

-- Bytes written as two digits each.
abbrev pub hex_digit : ℕ → ℕ
hex_digit v = if ltb v 10 then 48 + v else 87 + v

abbrev pub print_hex : List ℕ → List ℕ
print_hex [] = []
print_hex (b ∷ bytes) = hex_digit (b / 16) ∷ hex_digit (b % 16) ∷ print_hex bytes

-- The byte that two turns of the loop make of two digits.
abbrev read_pair : ℕ → ℕ → ℕ
read_pair h l = bit_or (u8 (bit_or 0 (hex_value h) * 2 ^ 4)) (hex_value l)

pair_fits : ℕ → Bool
pair_fits b = read_pair (hex_digit (b / 16)) (hex_digit (b % 16)) == b

all_pairs_fit : all_upto pair_fits 256 ≡ true
unfolding all_upto pair_fits
all_pairs_fit = refl

pair_of : (b : ℕ) → b < 256 → read_pair (hex_digit (b / 16)) (hex_digit (b % 16)) ≡ b
unfolding pair_fits
pair_of b h = (==_iff _ _).0 (all_upto-holds pair_fits 256 b all_pairs_fit h)

two_turns :
    (i h l : ℕ) (rest : List ℕ)
    → i % 2 ≡ 0
    → str2hex_loop i 0 0 (h ∷ l ∷ rest) ≡ read_pair h l ∷ str2hex_loop (i + 1 + 1) 0 0 rest
unfolding str2hex_loop
two_turns i h l rest e = let odd : (i + 1) % 2 ≡ 1 = omega arith in rw (e, odd) refl

str2hex_loop-print_hex :
    (bytes : List ℕ) (i : ℕ)
    → i % 2 ≡ 0
    → All (λ b. b < 256) bytes
    → str2hex_loop i 0 0 (print_hex bytes) ≡ bytes
unfolding str2hex_loop
str2hex_loop-print_hex [] i e h = refl
str2hex_loop-print_hex (b ∷ bytes) i e h =
    two_turns i (hex_digit (b / 16)) (hex_digit (b % 16)) (print_hex bytes) e
    ∙ ap₂ ◌∷◌ (pair_of b h.0) (str2hex_loop-print_hex bytes (i + 1 + 1) (omega arith) h.1)

even_length : (bytes : List ℕ) → length (print_hex bytes) % 2 ≡ 0
even_length [] = refl
even_length (b ∷ bytes) = omega (arith, even_length bytes)

-- `str2hex` reads back the bytes that were printed as two lower-case digits each.
pub str2hex-print_hex :
    (bytes : List ℕ) → All (λ b. b < 256) bytes → str2hex (print_hex bytes) ≡ bytes
unfolding str2hex
str2hex-print_hex bytes h = rw (even_length bytes) (str2hex_loop-print_hex bytes 0 refl h)
