-- ===== src/Utils/Tests.antt =====
-- Runs of src/Utils.cpp.
use concentrator.Common.{
  get_elem?, ◌*◌, ◌+◌, ◌^◌, ℕ, ◌<◌, ◌≡◌, ◌≢◌, refl, some, List, [], ◌∷◌, All, arith, length, ap,
}
use concentrator.Common.Outcome.{done}
use concentrator.Utils.Time.{TmNew, gmtime_new, mktime_new, find_year, find_month}
use concentrator.Utils.Calendar.{mktime_new-gmtime_new}
use concentrator.Utils.Bytes.{str2hex, str2hex_loop}
use concentrator.Utils.Crc.{crc32, crc32_file, add_data, generate_crc, crc_loop}
use concentrator.Utils.Crc.{auch_crc_hi, auch_crc_lo, crc32_table}
use concentrator.Utils.Polynomial.{divide, crc_tables-remainders, joined, crc32_file-crc32}

mktime_new-gmtime_new_example :
    (tm : TmNew) × (gmtime_new 1330473600 ≡ done tm) × (mktime_new tm ≡ some 1330473600)
mktime_new-gmtime_new_example = mktime_new-gmtime_new 1330473600 (omega arith)

-- 29 February 2012, a Wednesday.
gmtime_new-leap_day :
    gmtime_new 1330473600
    ≡ done (record {
      tm_sec = 0;
      tm_min = 0;
      tm_hour = 0;
      tm_mday = 29;
      tm_mon = 1;
      tm_year = 112;
      tm_wday = 3;
      tm_yday = 59;
    })
unfolding gmtime_new find_year find_month
gmtime_new-leap_day = refl

abbrev bytes : List ℕ
bytes = 0 ∷ 18 ∷ 171 ∷ 255 ∷ []

bytes-All : All (λ b. b < 256) bytes
bytes-All = (omega arith, (omega arith, (omega arith, (omega arith, tt))))

-- A string of odd length starts with a single digit.
str2hex-odd : str2hex (49 ∷ 65 ∷ 98 ∷ []) ≡ 1 ∷ 171 ∷ []
unfolding str2hex str2hex_loop
str2hex-odd = refl

abbrev reads : List (List ℕ)
reads = (49 ∷ 50 ∷ 51 ∷ []) ∷ (52 ∷ 53 ∷ 54 ∷ 55 ∷ 56 ∷ 57 ∷ []) ∷ []

reads-All : All (λ r. r ≢ []) reads
reads-All = (λ e. omega (arith, ap length e), (λ e. omega (arith, ap length e), tt))

crc32_file-crc32_example :
    (v : ℕ) × (crc32 (joined reads) ≡ some v) × (crc32_file (some reads) ≡ some v)
crc32_file-crc32_example = crc32_file-crc32 reads reads-All

crc_tables-remainders_example :
    (get_elem? crc32_table 128 ≡ some (divide 3988292384 8 128))
    × ((hi : ℕ) × (lo : ℕ) × (get_elem? auch_crc_hi 128 ≡ some hi)
        × (get_elem? auch_crc_lo 128 ≡ some lo)
        × (lo * 2 ^ 8 + hi ≡ divide 40961 8 128))
crc_tables-remainders_example = crc_tables-remainders 128 (omega arith)

-- The check value of the 32-bit checksum, of the digits 1 to 9, and the one of the 16-bit checksum,
-- with its bytes in the other order.
crc32-check_value : crc32 (joined reads) ≡ some 3421780262
unfolding crc32 add_data
crc32-check_value = refl

generate_crc-check_value : generate_crc (joined reads) ≡ some 14155
unfolding generate_crc crc_loop
generate_crc-check_value = refl
