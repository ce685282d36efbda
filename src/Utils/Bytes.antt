-- ===== src/Utils/Bytes.antt =====
-- src/Utils.cpp: conversions and checksums of bytes. Characters are their codes.
use concentrator.Common.{
  ℕ, ◌+◌, ◌-◌, ◌*◌, ◌%◌, ◌^◌, Bool, ◌&&◌, ◌||◌, Option, none, some, List, [], ◌∷◌, bit_or, bit_xor,
  ◌==◌, ltb, leb, if◌then◌else◌, u8, length,
}

abbrev pub between : ℕ → ℕ → ℕ → Bool
between lo hi c = leb lo c && leb c hi

unfoldable pub is_char : ℕ → Bool
is_char c = between 48 57 c || between 97 122 c || between 65 90 c || c == 47 || c == 92

-- `none` is a return of false, with `IntData` as it was.
unfoldable pub char2int : ℕ → Option ℕ
char2int c =
    if between 48 57 c
    then some (c - 48)
    else (if between 97 102 c
        then some (c - 97 + 10)
        else (if between 65 70 c then some (c - 65 + 10) else none))

unfoldable pub sum_loop : (check_sum : ℕ) → List ℕ → ℕ
sum_loop check_sum [] = check_sum
sum_loop check_sum (b ∷ bytes) = sum_loop (u8 (check_sum + b)) bytes

unfoldable pub get_check_sum : List ℕ → ℕ
get_check_sum [] = 255
get_check_sum (b ∷ bytes) = sum_loop 0 (b ∷ bytes)

abbrev pub xor_loop : (xor_tmp : ℕ) → List ℕ → ℕ
xor_loop xor_tmp [] = xor_tmp
xor_loop xor_tmp (b ∷ bytes) = xor_loop (bit_xor xor_tmp b) bytes

-- `none` is a loop without end: the index is a `uint8` and does not reach 256.
unfoldable pub generate_xor_parity : List ℕ → Option ℕ
generate_xor_parity bytes = if ltb 255 (length bytes) then none else some (xor_loop 0 bytes)

-- The cases of the `switch` of `str2hex`, 0 where it changes nothing.
abbrev pub hex_value : ℕ → ℕ
hex_value c =
    if between 49 57 c
    then c - 48
    else (if between 97 102 c then c - 97 + 10 else (if between 65 70 c then c - 65 + 10 else 0))

-- The loop of `str2hex`; the bytes are what it writes to `data`.
unfoldable pub str2hex_loop : (i j tmp : ℕ) → List ℕ → List ℕ
str2hex_loop i j tmp [] = []
str2hex_loop i j tmp (c ∷ str) =
    let tmp' = bit_or tmp (hex_value c) in
    let shifted = str2hex_loop (i + 1) j (u8 (tmp' * 2 ^ 4)) str in
    let stored = str2hex_loop (i + 1) j 0 str in if i % 2 == j then shifted else tmp' ∷ stored

unfoldable pub str2hex : List ℕ → List ℕ
str2hex str = str2hex_loop 0 (length str % 2) 0 str
