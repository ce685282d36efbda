-- ===== src/Utils/Crc.antt =====
-- src/Utils.cpp and src/CRC32.h: the two cyclic checksums, by their tables.
use concentrator.Common.{
  ℕ, ◌+◌, ◌-◌, ◌*◌, ◌/◌, ◌%◌, ◌^◌, Option, none, some, List, [], ◌∷◌, bit_xor, get_elem?,
}
use concentrator.Common.Maybe.{◌>>=◌}

abbrev pub auch_crc_hi : List ℕ
auch_crc_hi =
    0 ∷ 193 ∷ 129 ∷ 64 ∷ 1 ∷ 192 ∷ 128 ∷ 65 ∷ 1 ∷ 192 ∷ 128 ∷ 65 ∷ 0 ∷ 193 ∷ 129 ∷ 64 ∷ 1 ∷ 192
    ∷ 128 ∷ 65 ∷ 0 ∷ 193 ∷ 129 ∷ 64 ∷ 0 ∷ 193 ∷ 129 ∷ 64 ∷ 1 ∷ 192 ∷ 128 ∷ 65 ∷ 1 ∷ 192 ∷ 128 ∷ 65
    ∷ 0 ∷ 193 ∷ 129 ∷ 64 ∷ 0 ∷ 193 ∷ 129 ∷ 64 ∷ 1 ∷ 192 ∷ 128 ∷ 65 ∷ 0 ∷ 193 ∷ 129 ∷ 64 ∷ 1 ∷ 192
    ∷ 128 ∷ 65 ∷ 1 ∷ 192 ∷ 128 ∷ 65 ∷ 0 ∷ 193 ∷ 129 ∷ 64 ∷ 1 ∷ 192 ∷ 128 ∷ 65 ∷ 0 ∷ 193 ∷ 129 ∷ 64
    ∷ 0 ∷ 193 ∷ 129 ∷ 64 ∷ 1 ∷ 192 ∷ 128 ∷ 65 ∷ 0 ∷ 193 ∷ 129 ∷ 64 ∷ 1 ∷ 192 ∷ 128 ∷ 65 ∷ 1 ∷ 192
    ∷ 128 ∷ 65 ∷ 0 ∷ 193 ∷ 129 ∷ 64 ∷ 0 ∷ 193 ∷ 129 ∷ 64 ∷ 1 ∷ 192 ∷ 128 ∷ 65 ∷ 1 ∷ 192 ∷ 128 ∷ 65
    ∷ 0 ∷ 193 ∷ 129 ∷ 64 ∷ 1 ∷ 192 ∷ 128 ∷ 65 ∷ 0 ∷ 193 ∷ 129 ∷ 64 ∷ 0 ∷ 193 ∷ 129 ∷ 64 ∷ 1 ∷ 192
    ∷ 128 ∷ 65 ∷ 1 ∷ 192 ∷ 128 ∷ 65 ∷ 0 ∷ 193 ∷ 129 ∷ 64 ∷ 0 ∷ 193 ∷ 129 ∷ 64 ∷ 1 ∷ 192 ∷ 128 ∷ 65
    ∷ 0 ∷ 193 ∷ 129 ∷ 64 ∷ 1 ∷ 192 ∷ 128 ∷ 65 ∷ 1 ∷ 192 ∷ 128 ∷ 65 ∷ 0 ∷ 193 ∷ 129 ∷ 64 ∷ 0 ∷ 193
    ∷ 129 ∷ 64 ∷ 1 ∷ 192 ∷ 128 ∷ 65 ∷ 1 ∷ 192 ∷ 128 ∷ 65 ∷ 0 ∷ 193 ∷ 129 ∷ 64 ∷ 1 ∷ 192 ∷ 128 ∷ 65
    ∷ 0 ∷ 193 ∷ 129 ∷ 64 ∷ 0 ∷ 193 ∷ 129 ∷ 64 ∷ 1 ∷ 192 ∷ 128 ∷ 65 ∷ 0 ∷ 193 ∷ 129 ∷ 64 ∷ 1 ∷ 192
    ∷ 128 ∷ 65 ∷ 1 ∷ 192 ∷ 128 ∷ 65 ∷ 0 ∷ 193 ∷ 129 ∷ 64 ∷ 1 ∷ 192 ∷ 128 ∷ 65 ∷ 0 ∷ 193 ∷ 129 ∷ 64
    ∷ 0 ∷ 193 ∷ 129 ∷ 64 ∷ 1 ∷ 192 ∷ 128 ∷ 65 ∷ 1 ∷ 192 ∷ 128 ∷ 65 ∷ 0 ∷ 193 ∷ 129 ∷ 64 ∷ 0 ∷ 193
    ∷ 129 ∷ 64 ∷ 1 ∷ 192 ∷ 128 ∷ 65 ∷ 0 ∷ 193 ∷ 129 ∷ 64 ∷ 1 ∷ 192 ∷ 128 ∷ 65 ∷ 1 ∷ 192 ∷ 128 ∷ 65
    ∷ 0 ∷ 193 ∷ 129 ∷ 64 ∷ []

abbrev pub auch_crc_lo : List ℕ
auch_crc_lo =
    0 ∷ 192 ∷ 193 ∷ 1 ∷ 195 ∷ 3 ∷ 2 ∷ 194 ∷ 198 ∷ 6 ∷ 7 ∷ 199 ∷ 5 ∷ 197 ∷ 196 ∷ 4 ∷ 204 ∷ 12 ∷ 13
    ∷ 205 ∷ 15 ∷ 207 ∷ 206 ∷ 14 ∷ 10 ∷ 202 ∷ 203 ∷ 11 ∷ 201 ∷ 9 ∷ 8 ∷ 200 ∷ 216 ∷ 24 ∷ 25 ∷ 217 ∷ 27
    ∷ 219 ∷ 218 ∷ 26 ∷ 30 ∷ 222 ∷ 223 ∷ 31 ∷ 221 ∷ 29 ∷ 28 ∷ 220 ∷ 20 ∷ 212 ∷ 213 ∷ 21 ∷ 215 ∷ 23
    ∷ 22 ∷ 214 ∷ 210 ∷ 18 ∷ 19 ∷ 211 ∷ 17 ∷ 209 ∷ 208 ∷ 16 ∷ 240 ∷ 48 ∷ 49 ∷ 241 ∷ 51 ∷ 243 ∷ 242
    ∷ 50 ∷ 54 ∷ 246 ∷ 247 ∷ 55 ∷ 245 ∷ 53 ∷ 52 ∷ 244 ∷ 60 ∷ 252 ∷ 253 ∷ 61 ∷ 255 ∷ 63 ∷ 62 ∷ 254
    ∷ 250 ∷ 58 ∷ 59 ∷ 251 ∷ 57 ∷ 249 ∷ 248 ∷ 56 ∷ 40 ∷ 232 ∷ 233 ∷ 41 ∷ 235 ∷ 43 ∷ 42 ∷ 234 ∷ 238
    ∷ 46 ∷ 47 ∷ 239 ∷ 45 ∷ 237 ∷ 236 ∷ 44 ∷ 228 ∷ 36 ∷ 37 ∷ 229 ∷ 39 ∷ 231 ∷ 230 ∷ 38 ∷ 34 ∷ 226
    ∷ 227 ∷ 35 ∷ 225 ∷ 33 ∷ 32 ∷ 224 ∷ 160 ∷ 96 ∷ 97 ∷ 161 ∷ 99 ∷ 163 ∷ 162 ∷ 98 ∷ 102 ∷ 166 ∷ 167
    ∷ 103 ∷ 165 ∷ 101 ∷ 100 ∷ 164 ∷ 108 ∷ 172 ∷ 173 ∷ 109 ∷ 175 ∷ 111 ∷ 110 ∷ 174 ∷ 170 ∷ 106 ∷ 107
    ∷ 171 ∷ 105 ∷ 169 ∷ 168 ∷ 104 ∷ 120 ∷ 184 ∷ 185 ∷ 121 ∷ 187 ∷ 123 ∷ 122 ∷ 186 ∷ 190 ∷ 126 ∷ 127
    ∷ 191 ∷ 125 ∷ 189 ∷ 188 ∷ 124 ∷ 180 ∷ 116 ∷ 117 ∷ 181 ∷ 119 ∷ 183 ∷ 182 ∷ 118 ∷ 114 ∷ 178 ∷ 179
    ∷ 115 ∷ 177 ∷ 113 ∷ 112 ∷ 176 ∷ 80 ∷ 144 ∷ 145 ∷ 81 ∷ 147 ∷ 83 ∷ 82 ∷ 146 ∷ 150 ∷ 86 ∷ 87 ∷ 151
    ∷ 85 ∷ 149 ∷ 148 ∷ 84 ∷ 156 ∷ 92 ∷ 93 ∷ 157 ∷ 95 ∷ 159 ∷ 158 ∷ 94 ∷ 90 ∷ 154 ∷ 155 ∷ 91 ∷ 153
    ∷ 89 ∷ 88 ∷ 152 ∷ 136 ∷ 72 ∷ 73 ∷ 137 ∷ 75 ∷ 139 ∷ 138 ∷ 74 ∷ 78 ∷ 142 ∷ 143 ∷ 79 ∷ 141 ∷ 77
    ∷ 76 ∷ 140 ∷ 68 ∷ 132 ∷ 133 ∷ 69 ∷ 135 ∷ 71 ∷ 70 ∷ 134 ∷ 130 ∷ 66 ∷ 67 ∷ 131 ∷ 65 ∷ 129 ∷ 128
    ∷ 64 ∷ []

-- The loop of `GenerateCRC`, with `uchCRCHi` and `uchCRCLo`; `none` is a read outside a table.
unfoldable pub crc_loop : (crc_hi crc_lo : ℕ) → List ℕ → Option (ℕ × ℕ)
crc_loop crc_hi crc_lo [] = some (crc_hi, crc_lo)
crc_loop crc_hi crc_lo (b ∷ bytes) = do
  let index = bit_xor crc_hi b
  hi ← get_elem? auch_crc_hi index
  lo ← get_elem? auch_crc_lo index
  crc_loop (bit_xor crc_lo hi) lo bytes

unfoldable pub generate_crc : List ℕ → Option ℕ
generate_crc msg = do (hi, lo) ← crc_loop 255 255 msg; some (hi * 2 ^ 8 + lo)

abbrev pub crc32_table : List ℕ
crc32_table =
    0 ∷ 1996959894 ∷ 3993919788 ∷ 2567524794 ∷ 124634137 ∷ 1886057615 ∷ 3915621685 ∷ 2657392035
    ∷ 249268274 ∷ 2044508324 ∷ 3772115230 ∷ 2547177864 ∷ 162941995 ∷ 2125561021 ∷ 3887607047
    ∷ 2428444049 ∷ 498536548 ∷ 1789927666 ∷ 4089016648 ∷ 2227061214 ∷ 450548861 ∷ 1843258603
    ∷ 4107580753 ∷ 2211677639 ∷ 325883990 ∷ 1684777152 ∷ 4251122042 ∷ 2321926636 ∷ 335633487
    ∷ 1661365465 ∷ 4195302755 ∷ 2366115317 ∷ 997073096 ∷ 1281953886 ∷ 3579855332 ∷ 2724688242
    ∷ 1006888145 ∷ 1258607687 ∷ 3524101629 ∷ 2768942443 ∷ 901097722 ∷ 1119000684 ∷ 3686517206
    ∷ 2898065728 ∷ 853044451 ∷ 1172266101 ∷ 3705015759 ∷ 2882616665 ∷ 651767980 ∷ 1373503546
    ∷ 3369554304 ∷ 3218104598 ∷ 565507253 ∷ 1454621731 ∷ 3485111705 ∷ 3099436303 ∷ 671266974
    ∷ 1594198024 ∷ 3322730930 ∷ 2970347812 ∷ 795835527 ∷ 1483230225 ∷ 3244367275 ∷ 3060149565
    ∷ 1994146192 ∷ 31158534 ∷ 2563907772 ∷ 4023717930 ∷ 1907459465 ∷ 112637215 ∷ 2680153253
    ∷ 3904427059 ∷ 2013776290 ∷ 251722036 ∷ 2517215374 ∷ 3775830040 ∷ 2137656763 ∷ 141376813
    ∷ 2439277719 ∷ 3865271297 ∷ 1802195444 ∷ 476864866 ∷ 2238001368 ∷ 4066508878 ∷ 1812370925
    ∷ 453092731 ∷ 2181625025 ∷ 4111451223 ∷ 1706088902 ∷ 314042704 ∷ 2344532202 ∷ 4240017532
    ∷ 1658658271 ∷ 366619977 ∷ 2362670323 ∷ 4224994405 ∷ 1303535960 ∷ 984961486 ∷ 2747007092
    ∷ 3569037538 ∷ 1256170817 ∷ 1037604311 ∷ 2765210733 ∷ 3554079995 ∷ 1131014506 ∷ 879679996
    ∷ 2909243462 ∷ 3663771856 ∷ 1141124467 ∷ 855842277 ∷ 2852801631 ∷ 3708648649 ∷ 1342533948
    ∷ 654459306 ∷ 3188396048 ∷ 3373015174 ∷ 1466479909 ∷ 544179635 ∷ 3110523913 ∷ 3462522015
    ∷ 1591671054 ∷ 702138776 ∷ 2966460450 ∷ 3352799412 ∷ 1504918807 ∷ 783551873 ∷ 3082640443
    ∷ 3233442989 ∷ 3988292384 ∷ 2596254646 ∷ 62317068 ∷ 1957810842 ∷ 3939845945 ∷ 2647816111
    ∷ 81470997 ∷ 1943803523 ∷ 3814918930 ∷ 2489596804 ∷ 225274430 ∷ 2053790376 ∷ 3826175755
    ∷ 2466906013 ∷ 167816743 ∷ 2097651377 ∷ 4027552580 ∷ 2265490386 ∷ 503444072 ∷ 1762050814
    ∷ 4150417245 ∷ 2154129355 ∷ 426522225 ∷ 1852507879 ∷ 4275313526 ∷ 2312317920 ∷ 282753626
    ∷ 1742555852 ∷ 4189708143 ∷ 2394877945 ∷ 397917763 ∷ 1622183637 ∷ 3604390888 ∷ 2714866558
    ∷ 953729732 ∷ 1340076626 ∷ 3518719985 ∷ 2797360999 ∷ 1068828381 ∷ 1219638859 ∷ 3624741850
    ∷ 2936675148 ∷ 906185462 ∷ 1090812512 ∷ 3747672003 ∷ 2825379669 ∷ 829329135 ∷ 1181335161
    ∷ 3412177804 ∷ 3160834842 ∷ 628085408 ∷ 1382605366 ∷ 3423369109 ∷ 3138078467 ∷ 570562233
    ∷ 1426400815 ∷ 3317316542 ∷ 2998733608 ∷ 733239954 ∷ 1555261956 ∷ 3268935591 ∷ 3050360625
    ∷ 752459403 ∷ 1541320221 ∷ 2607071920 ∷ 3965973030 ∷ 1969922972 ∷ 40735498 ∷ 2617837225
    ∷ 3943577151 ∷ 1913087877 ∷ 83908371 ∷ 2512341634 ∷ 3803740692 ∷ 2075208622 ∷ 213261112
    ∷ 2463272603 ∷ 3855990285 ∷ 2094854071 ∷ 198958881 ∷ 2262029012 ∷ 4057260610 ∷ 1759359992
    ∷ 534414190 ∷ 2176718541 ∷ 4139329115 ∷ 1873836001 ∷ 414664567 ∷ 2282248934 ∷ 4279200368
    ∷ 1711684554 ∷ 285281116 ∷ 2405801727 ∷ 4167216745 ∷ 1634467795 ∷ 376229701 ∷ 2685067896
    ∷ 3608007406 ∷ 1308918612 ∷ 956543938 ∷ 2808555105 ∷ 3495958263 ∷ 1231636301 ∷ 1047427035
    ∷ 2932959818 ∷ 3654703836 ∷ 1088359270 ∷ 936918000 ∷ 2847714899 ∷ 3736837829 ∷ 1202900863
    ∷ 817233897 ∷ 3183342108 ∷ 3401237130 ∷ 1404277552 ∷ 615818150 ∷ 3134207493 ∷ 3453421203
    ∷ 1423857449 ∷ 601450431 ∷ 3009837614 ∷ 3294710456 ∷ 1567103746 ∷ 711928724 ∷ 3020668471
    ∷ 3272380065 ∷ 1510334235 ∷ 755167117 ∷ []

-- `Crc32::AddData`, on the register `_crc`.
unfoldable pub add_data : ℕ → List ℕ → Option ℕ
add_data crc [] = some crc
add_data crc (b ∷ bytes) = do
  entry ← get_elem? crc32_table (bit_xor crc b % 2 ^ 8)
  add_data (bit_xor (crc / 2 ^ 8) entry) bytes

-- `Crc32::GetCrc32`
abbrev pub get_crc32 : ℕ → ℕ
get_crc32 crc = 2 ^ 32 - 1 - crc

unfoldable pub crc32 : List ℕ → Option ℕ
crc32 buf = do crc ← add_data (2 ^ 32 - 1) buf; some (get_crc32 crc)

-- The loop of `CRC32File` on what its `read`s return; an empty one is the end of the file or an error.
unfoldable pub add_reads : ℕ → List (List ℕ) → Option ℕ
add_reads crc [] = some crc
add_reads crc ([] ∷ reads) = some crc
add_reads crc ((b ∷ bytes) ∷ reads) = do crc' ← add_data crc (b ∷ bytes); add_reads crc' reads

-- `none` for a file that does not open.
unfoldable pub crc32_file : Option (List (List ℕ)) → Option ℕ
crc32_file none = some 0
crc32_file (some reads) = do crc ← add_reads (2 ^ 32 - 1) reads; some (get_crc32 crc)
