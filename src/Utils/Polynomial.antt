-- ===== src/Utils/Polynomial.antt =====
-- src/CRC32.h and src/Utils.cpp: the tables are those of the two polynomials, and a file's checksum does
-- not depend on how it is read.
use concentrator.Common.{
  ℕ, zero, suc, ◌+◌, ◌-◌, ◌*◌, ◌/◌, ◌%◌, ◌^◌, ◌≡◌, ◌≢◌, refl, sym, ap, ◌∙◌, inl, inr, none, some,
  List, [], ◌∷◌, ◌++◌, bit_xor, get_elem?, get_or, get_elem?-eq-get_or, length, if◌then◌else◌, ◌==◌,
  All, arith, Option-cases, Bool, true, ◌&&◌, ◌<◌, ==_iff,
}
use concentrator.Common.Upto.{all_upto, all_upto-holds, and_both}
use concentrator.Utils.Crc.{
  auch_crc_hi, auch_crc_lo, crc32_table, add_data, get_crc32, crc32, add_reads, crc32_file,
}

-- `n` steps of the division by a polynomial, lowest bit first.
abbrev pub divide : (polynomial n : ℕ) → ℕ → ℕ
divide polynomial zero crc = crc
divide polynomial (suc n) crc =
    divide polynomial n (if crc % 2 == 1 then bit_xor (crc / 2) polynomial else crc / 2)

entries_fit : ℕ → Bool
entries_fit i =
    (get_or crc32_table i 0 == divide 3988292384 8 i)
    && (get_or auch_crc_lo i 0 * 2 ^ 8 + get_or auch_crc_hi i 0 == divide 40961 8 i)

entries_fit-all : all_upto entries_fit 256 ≡ true
unfolding all_upto entries_fit
entries_fit-all = refl

-- Each entry of the tables is the remainder of its byte: by the polynomial 0xedb88320 for the 32-bit
-- checksum and, with the entry of `auchCRCLo` as the high byte, by 0xa001 for the 16-bit one.
pub crc_tables-remainders :
    (i : ℕ)
    → i < 256
    → (get_elem? crc32_table i ≡ some (divide 3988292384 8 i))
      × ((hi : ℕ) × (lo : ℕ) × (get_elem? auch_crc_hi i ≡ some hi)
          × (get_elem? auch_crc_lo i ≡ some lo)
          × (lo * 2 ^ 8 + hi ≡ divide 40961 8 i))
unfolding entries_fit
crc_tables-remainders i h =
    let size : (length crc32_table ≡ 256)
        × (length auch_crc_hi ≡ 256)
        × (length auch_crc_lo ≡ 256) =
      (refl, refl, refl) in
    let (e, e') = and_both _ _ (all_upto-holds entries_fit 256 i entries_fit-all h) in
    (
      get_elem?-eq-get_or crc32_table i 0 (omega (arith, size)) ∙ ap some ((==_iff _ _).0 e),
      (
        get_or auch_crc_hi i 0,
        get_or auch_crc_lo i 0,
        get_elem?-eq-get_or auch_crc_hi i 0 (omega (arith, size)),
        get_elem?-eq-get_or auch_crc_lo i 0 (omega (arith, size)),
        (==_iff _ _).0 e',
      ),
    )

-- The index into the table is a byte.
add_data-total : (bytes : List ℕ) (crc : ℕ) → (crc' : ℕ) × (add_data crc bytes ≡ some crc')
unfolding add_data
add_data-total [] crc = (crc, refl)
add_data-total (b ∷ bytes) crc =
    let size : length crc32_table ≡ 256 = refl in
    let index = bit_xor crc b % 2 ^ 8 in
    let (crc', e) = add_data-total bytes (bit_xor (crc / 2 ^ 8) (get_or crc32_table index 0)) in
    (crc', rw (get_elem?-eq-get_or crc32_table index 0 (omega (arith, size))) e)

some_injective : (a b : ℕ) → some a ≡ some b → a ≡ b
some_injective a b e = cc

none≢some : {a : ℕ} → none ≢ some a
none≢some e = cc

add_data-append :
    (xs ys : List ℕ) (crc crc' : ℕ)
    → add_data crc xs ≡ some crc'
    → add_data crc (xs ++ ys) ≡ add_data crc' ys
unfolding add_data
add_data-append [] ys crc crc' e = ap (λ c. add_data c ys) (some_injective crc crc' e)
add_data-append (x ∷ xs) ys crc crc' e =
    elim (Option-cases (get_elem? crc32_table (bit_xor crc x % 2 ^ 8))) [
      | inl outside ↦ absurd (none≢some (rw outside at e))
      | inr (entry, at) ↦
          rw at (add_data-append xs ys (bit_xor (crc / 2 ^ 8) entry) crc' (rw at at e))
    ]

-- The reads of a file, put together.
abbrev pub joined : List (List ℕ) → List ℕ
joined [] = []
joined (r ∷ reads) = r ++ joined reads

add_reads-joined :
    (reads : List (List ℕ)) (crc : ℕ)
    → All (λ r. r ≢ []) reads
    → add_reads crc reads ≡ add_data crc (joined reads)
unfolding add_reads add_data
add_reads-joined [] crc h = refl
add_reads-joined ([] ∷ reads) crc h = absurd (h.0 refl)
add_reads-joined ((b ∷ bytes) ∷ reads) crc h =
    let (crc', e) = add_data-total (b ∷ bytes) crc in
    rw e (
      add_reads-joined reads crc' h.1 ∙ sym (add_data-append (b ∷ bytes) (joined reads) crc crc' e))

-- Whatever the sizes of its reads, `CRC32File` returns the checksum that `CRC32` has for all the bytes,
-- and neither reads outside the table.
pub crc32_file-crc32 :
    (reads : List (List ℕ))
    → All (λ r. r ≢ []) reads
    → (v : ℕ) × (crc32 (joined reads) ≡ some v) × (crc32_file (some reads) ≡ some v)
unfolding crc32 crc32_file
crc32_file-crc32 reads h =
    let (crc, e) = add_data-total (joined reads) (2 ^ 32 - 1) in
    (get_crc32 crc, rw e refl, rw (add_reads-joined reads (2 ^ 32 - 1) h, e) refl)
