-- ===== src/Utils/Xor.antt =====
-- src/Utils.cpp: `GenerateCRC` stays within its tables.
use concentrator.Common.{
  ℕ, ◌+◌, ◌*◌, ◌^◌, ◌<◌, ◌≡◌, refl, Bool, true, some, List, [], ◌∷◌, bit_xor, ltb, get_or,
  get_elem?-eq-get_or, length, All, arith,
}
use concentrator.Common.Upto.{all_upto, all_upto-holds}
use concentrator.Utils.Crc.{auch_crc_hi, auch_crc_lo, crc_loop, generate_crc}

xor_fits : ℕ → ℕ → Bool
xor_fits a b = ltb (bit_xor a b) 256

row_fits : ℕ → Bool
row_fits a = all_upto (xor_fits a) 256

xor_fits-all : all_upto row_fits 256 ≡ true
unfolding all_upto row_fits xor_fits
xor_fits-all = refl

bit_xor-byte : (a b : ℕ) → a < 256 → b < 256 → bit_xor a b < 256
unfolding row_fits xor_fits
bit_xor-byte a b ha hb =
    let row : all_upto (xor_fits a) 256 ≡ true = all_upto-holds row_fits 256 a xor_fits-all ha in
    let e : ltb (bit_xor a b) 256 ≡ true = all_upto-holds (xor_fits a) 256 b row hb in ground arith

entry_fits : List ℕ → ℕ → Bool
entry_fits table i = ltb (get_or table i 256) 256

crc_hi_fits : all_upto (entry_fits auch_crc_hi) 256 ≡ true
unfolding all_upto entry_fits
crc_hi_fits = refl

crc_lo_fits : all_upto (entry_fits auch_crc_lo) 256 ≡ true
unfolding all_upto entry_fits
crc_lo_fits = refl

entry-byte :
    (table : List ℕ) (i : ℕ)
    → all_upto (entry_fits table) 256 ≡ true
    → i < 256
    → get_or table i 256 < 256
unfolding entry_fits
entry-byte table i all h =
    let e : ltb (get_or table i 256) 256 ≡ true = all_upto-holds (entry_fits table) 256 i all h in
    ground arith

crc_loop-total :
    (msg : List ℕ) (hi lo : ℕ)
    → hi < 256
    → lo < 256
    → All (λ b. b < 256) msg
    → (hi' : ℕ) × (lo' : ℕ) × (crc_loop hi lo msg ≡ some (hi', lo'))
unfolding crc_loop
crc_loop-total [] hi lo hh hl h = (hi, lo, refl)
crc_loop-total (b ∷ bytes) hi lo hh hl h =
    let i = bit_xor hi b in
    let small : i < 256 = bit_xor-byte hi b hh h.0 in
    let size : (length auch_crc_hi ≡ 256) × (length auch_crc_lo ≡ 256) = (refl, refl) in
    let (hi', lo', e) =
      crc_loop-total bytes (bit_xor lo (get_or auch_crc_hi i 256)) (get_or auch_crc_lo i 256)
        (bit_xor-byte lo (get_or auch_crc_hi i 256) hl (entry-byte auch_crc_hi i crc_hi_fits small))
        (entry-byte auch_crc_lo i crc_lo_fits small) h.1 in
    (
      hi',
      lo',
      rw
          (
            get_elem?-eq-get_or auch_crc_hi i 256 (omega (arith, size)),
            get_elem?-eq-get_or auch_crc_lo i 256 (omega (arith, size)),
          )
          e,
    )

-- `GenerateCRC` reads no entry outside its tables, for every message of bytes.
pub generate_crc-total :
    (msg : List ℕ) → All (λ b. b < 256) msg → (crc : ℕ) × (generate_crc msg ≡ some crc)
unfolding generate_crc
generate_crc-total msg h =
    let (hi, lo, e) = crc_loop-total msg 255 255 (omega arith) (omega arith) h in
    (hi * 2 ^ 8 + lo, rw e refl)
