-- ===== src/Lcddrv/Hanzi.antt =====
-- src/bdk_font.h: the dots of the 130 Chinese characters, 32 bytes for each. Their codes, which no
-- function reads, are left out.
use concentrator.Common.{ℕ, List, [], ◌∷◌}

abbrev pub gb_16 : List (List ℕ)
gb_16 =
    (144 ∷ 82 ∷ 52 ∷ 16 ∷ 255 ∷ 16 ∷ 52 ∷ 82 ∷ 128 ∷ 112 ∷ 143 ∷ 8 ∷ 8 ∷ 248 ∷ 8 ∷ 0 ∷ 130 ∷ 154
      ∷ 86 ∷ 99 ∷ 34 ∷ 82 ∷ 142 ∷ 0 ∷ 128 ∷ 64 ∷ 51 ∷ 12 ∷ 51 ∷ 64 ∷ 128 ∷ 0 ∷ [])
    ∷ (16 ∷ 16 ∷ 255 ∷ 16 ∷ 144 ∷ 0 ∷ 254 ∷ 146 ∷ 146 ∷ 146 ∷ 242 ∷ 146 ∷ 146 ∷ 158 ∷ 128 ∷ 0 ∷ 66
        ∷ 130 ∷ 127 ∷ 1 ∷ 128 ∷ 96 ∷ 31 ∷ 0 ∷ 252 ∷ 68 ∷ 71 ∷ 68 ∷ 68 ∷ 252 ∷ 0 ∷ 0 ∷ [])
    ∷ (32 ∷ 16 ∷ 8 ∷ 252 ∷ 87 ∷ 84 ∷ 84 ∷ 85 ∷ 254 ∷ 84 ∷ 84 ∷ 84 ∷ 84 ∷ 4 ∷ 0 ∷ 0 ∷ 68 ∷ 68 ∷ 36
        ∷ 39 ∷ 21 ∷ 13 ∷ 5 ∷ 255 ∷ 5 ∷ 13 ∷ 21 ∷ 37 ∷ 37 ∷ 69 ∷ 68 ∷ 0 ∷ [])
    ∷ (0 ∷ 0 ∷ 240 ∷ 16 ∷ 16 ∷ 16 ∷ 16 ∷ 255 ∷ 16 ∷ 16 ∷ 16 ∷ 16 ∷ 240 ∷ 0 ∷ 0 ∷ 0 ∷ 0 ∷ 0 ∷ 15 ∷ 4
        ∷ 4 ∷ 4 ∷ 4 ∷ 255 ∷ 4 ∷ 4 ∷ 4 ∷ 4 ∷ 15 ∷ 0 ∷ 0 ∷ 0 ∷ [])
    ∷ (128 ∷ 128 ∷ 158 ∷ 146 ∷ 146 ∷ 146 ∷ 158 ∷ 224 ∷ 128 ∷ 158 ∷ 178 ∷ 210 ∷ 146 ∷ 158 ∷ 128 ∷ 0
        ∷ 8 ∷ 8 ∷ 244 ∷ 148 ∷ 146 ∷ 146 ∷ 241 ∷ 0 ∷ 1 ∷ 242 ∷ 146 ∷ 148 ∷ 148 ∷ 248 ∷ 8 ∷ 0 ∷ [])
    ∷ (200 ∷ 184 ∷ 143 ∷ 232 ∷ 136 ∷ 136 ∷ 64 ∷ 72 ∷ 72 ∷ 232 ∷ 95 ∷ 72 ∷ 72 ∷ 72 ∷ 64 ∷ 0 ∷ 8 ∷ 24
        ∷ 8 ∷ 255 ∷ 4 ∷ 4 ∷ 0 ∷ 2 ∷ 11 ∷ 18 ∷ 34 ∷ 210 ∷ 10 ∷ 6 ∷ 0 ∷ 0 ∷ [])
    ∷ (0 ∷ 0 ∷ 24 ∷ 22 ∷ 16 ∷ 208 ∷ 184 ∷ 151 ∷ 144 ∷ 144 ∷ 144 ∷ 146 ∷ 148 ∷ 16 ∷ 0 ∷ 0 ∷ 0 ∷ 32
        ∷ 16 ∷ 140 ∷ 131 ∷ 128 ∷ 65 ∷ 70 ∷ 40 ∷ 16 ∷ 40 ∷ 68 ∷ 67 ∷ 128 ∷ 128 ∷ 0 ∷ [])
    ∷ (8 ∷ 8 ∷ 136 ∷ 255 ∷ 72 ∷ 72 ∷ 0 ∷ 8 ∷ 72 ∷ 255 ∷ 8 ∷ 8 ∷ 248 ∷ 0 ∷ 0 ∷ 0 ∷ 129 ∷ 101 ∷ 8 ∷ 7
        ∷ 32 ∷ 192 ∷ 8 ∷ 4 ∷ 35 ∷ 192 ∷ 3 ∷ 0 ∷ 35 ∷ 196 ∷ 15 ∷ 0 ∷ [])
    ∷ (0 ∷ 0 ∷ 0 ∷ 241 ∷ 18 ∷ 20 ∷ 16 ∷ 16 ∷ 16 ∷ 20 ∷ 18 ∷ 241 ∷ 0 ∷ 0 ∷ 0 ∷ 0 ∷ 64 ∷ 48 ∷ 0 ∷ 3
        ∷ 57 ∷ 65 ∷ 65 ∷ 69 ∷ 89 ∷ 65 ∷ 65 ∷ 115 ∷ 0 ∷ 8 ∷ 48 ∷ 0 ∷ [])
    ∷ (0 ∷ 4 ∷ 36 ∷ 36 ∷ 36 ∷ 36 ∷ 36 ∷ 255 ∷ 36 ∷ 36 ∷ 36 ∷ 36 ∷ 36 ∷ 4 ∷ 0 ∷ 0 ∷ 33 ∷ 33 ∷ 17 ∷ 9
        ∷ 253 ∷ 131 ∷ 65 ∷ 35 ∷ 5 ∷ 9 ∷ 17 ∷ 41 ∷ 37 ∷ 65 ∷ 65 ∷ 0 ∷ [])
    ∷ (16 ∷ 16 ∷ 208 ∷ 255 ∷ 144 ∷ 80 ∷ 32 ∷ 80 ∷ 76 ∷ 67 ∷ 76 ∷ 80 ∷ 32 ∷ 64 ∷ 64 ∷ 0 ∷ 4 ∷ 3 ∷ 0
        ∷ 255 ∷ 0 ∷ 65 ∷ 68 ∷ 88 ∷ 65 ∷ 78 ∷ 96 ∷ 88 ∷ 71 ∷ 64 ∷ 64 ∷ 0 ∷ [])
    ∷ (16 ∷ 96 ∷ 2 ∷ 140 ∷ 0 ∷ 254 ∷ 2 ∷ 242 ∷ 2 ∷ 254 ∷ 0 ∷ 248 ∷ 0 ∷ 255 ∷ 0 ∷ 0 ∷ 4 ∷ 4 ∷ 126 ∷ 1
        ∷ 128 ∷ 71 ∷ 48 ∷ 15 ∷ 16 ∷ 39 ∷ 0 ∷ 71 ∷ 128 ∷ 127 ∷ 0 ∷ 0 ∷ [])
    ∷ (0 ∷ 254 ∷ 2 ∷ 34 ∷ 66 ∷ 130 ∷ 114 ∷ 2 ∷ 34 ∷ 66 ∷ 130 ∷ 114 ∷ 2 ∷ 254 ∷ 0 ∷ 0 ∷ 0 ∷ 255 ∷ 16
        ∷ 8 ∷ 6 ∷ 1 ∷ 14 ∷ 16 ∷ 8 ∷ 6 ∷ 1 ∷ 78 ∷ 128 ∷ 127 ∷ 0 ∷ 0 ∷ [])
    ∷ (32 ∷ 48 ∷ 172 ∷ 99 ∷ 48 ∷ 32 ∷ 16 ∷ 24 ∷ 167 ∷ 68 ∷ 164 ∷ 20 ∷ 12 ∷ 0 ∷ 0 ∷ 0 ∷ 34 ∷ 103 ∷ 34
        ∷ 18 ∷ 18 ∷ 4 ∷ 2 ∷ 253 ∷ 68 ∷ 68 ∷ 68 ∷ 69 ∷ 253 ∷ 2 ∷ 2 ∷ 0 ∷ [])
    ∷ (0 ∷ 0 ∷ 254 ∷ 34 ∷ 34 ∷ 34 ∷ 254 ∷ 0 ∷ 254 ∷ 130 ∷ 130 ∷ 146 ∷ 162 ∷ 158 ∷ 0 ∷ 0 ∷ 128 ∷ 96
        ∷ 31 ∷ 2 ∷ 66 ∷ 130 ∷ 127 ∷ 0 ∷ 255 ∷ 64 ∷ 47 ∷ 16 ∷ 44 ∷ 67 ∷ 128 ∷ 0 ∷ [])
    ∷ (0 ∷ 0 ∷ 144 ∷ 136 ∷ 76 ∷ 87 ∷ 164 ∷ 36 ∷ 84 ∷ 84 ∷ 140 ∷ 132 ∷ 0 ∷ 0 ∷ 0 ∷ 0 ∷ 1 ∷ 1 ∷ 128
        ∷ 66 ∷ 34 ∷ 26 ∷ 7 ∷ 2 ∷ 66 ∷ 130 ∷ 66 ∷ 62 ∷ 1 ∷ 1 ∷ 1 ∷ 0 ∷ [])
    ∷ (0 ∷ 64 ∷ 66 ∷ 66 ∷ 66 ∷ 194 ∷ 126 ∷ 66 ∷ 194 ∷ 66 ∷ 66 ∷ 66 ∷ 64 ∷ 64 ∷ 0 ∷ 0 ∷ 128 ∷ 64 ∷ 32
        ∷ 16 ∷ 12 ∷ 3 ∷ 0 ∷ 0 ∷ 63 ∷ 64 ∷ 64 ∷ 64 ∷ 64 ∷ 112 ∷ 0 ∷ 0 ∷ [])
    ∷ (0 ∷ 128 ∷ 96 ∷ 248 ∷ 7 ∷ 0 ∷ 4 ∷ 36 ∷ 36 ∷ 37 ∷ 38 ∷ 36 ∷ 36 ∷ 36 ∷ 4 ∷ 0 ∷ 1 ∷ 0 ∷ 0 ∷ 255
        ∷ 0 ∷ 0 ∷ 0 ∷ 249 ∷ 73 ∷ 73 ∷ 73 ∷ 73 ∷ 73 ∷ 249 ∷ 0 ∷ 0 ∷ [])
    ∷ (128 ∷ 128 ∷ 128 ∷ 190 ∷ 162 ∷ 162 ∷ 162 ∷ 162 ∷ 162 ∷ 162 ∷ 162 ∷ 190 ∷ 128 ∷ 128 ∷ 128 ∷ 0
        ∷ 0 ∷ 0 ∷ 0 ∷ 6 ∷ 5 ∷ 4 ∷ 4 ∷ 4 ∷ 68 ∷ 132 ∷ 68 ∷ 60 ∷ 0 ∷ 0 ∷ 0 ∷ 0 ∷ [])
    ∷ (2 ∷ 226 ∷ 34 ∷ 34 ∷ 62 ∷ 0 ∷ 128 ∷ 158 ∷ 146 ∷ 146 ∷ 242 ∷ 146 ∷ 146 ∷ 158 ∷ 128 ∷ 0 ∷ 0 ∷ 67
        ∷ 130 ∷ 66 ∷ 62 ∷ 64 ∷ 71 ∷ 68 ∷ 68 ∷ 68 ∷ 127 ∷ 68 ∷ 68 ∷ 84 ∷ 231 ∷ 0 ∷ [])
    ∷ (64 ∷ 66 ∷ 76 ∷ 196 ∷ 32 ∷ 34 ∷ 34 ∷ 226 ∷ 34 ∷ 34 ∷ 226 ∷ 34 ∷ 34 ∷ 32 ∷ 32 ∷ 0 ∷ 0 ∷ 64 ∷ 32
        ∷ 31 ∷ 32 ∷ 72 ∷ 68 ∷ 67 ∷ 64 ∷ 64 ∷ 71 ∷ 72 ∷ 72 ∷ 72 ∷ 78 ∷ 0 ∷ [])
    ∷ (16 ∷ 18 ∷ 210 ∷ 254 ∷ 145 ∷ 17 ∷ 128 ∷ 191 ∷ 161 ∷ 161 ∷ 161 ∷ 161 ∷ 191 ∷ 128 ∷ 0 ∷ 0 ∷ 4
        ∷ 3 ∷ 0 ∷ 255 ∷ 0 ∷ 65 ∷ 68 ∷ 68 ∷ 68 ∷ 127 ∷ 68 ∷ 68 ∷ 68 ∷ 68 ∷ 64 ∷ 0 ∷ [])
    ∷ (64 ∷ 64 ∷ 66 ∷ 204 ∷ 0 ∷ 4 ∷ 68 ∷ 100 ∷ 92 ∷ 71 ∷ 244 ∷ 68 ∷ 68 ∷ 68 ∷ 4 ∷ 0 ∷ 0 ∷ 64 ∷ 32
        ∷ 31 ∷ 32 ∷ 68 ∷ 68 ∷ 68 ∷ 68 ∷ 68 ∷ 127 ∷ 68 ∷ 68 ∷ 68 ∷ 68 ∷ 0 ∷ [])
    ∷ (16 ∷ 16 ∷ 16 ∷ 255 ∷ 16 ∷ 80 ∷ 68 ∷ 84 ∷ 101 ∷ 198 ∷ 68 ∷ 100 ∷ 84 ∷ 68 ∷ 64 ∷ 0 ∷ 4 ∷ 68
        ∷ 130 ∷ 127 ∷ 1 ∷ 130 ∷ 130 ∷ 74 ∷ 86 ∷ 35 ∷ 34 ∷ 82 ∷ 78 ∷ 130 ∷ 2 ∷ 0 ∷ [])
    ∷ (0 ∷ 0 ∷ 248 ∷ 136 ∷ 136 ∷ 136 ∷ 136 ∷ 8 ∷ 8 ∷ 255 ∷ 8 ∷ 9 ∷ 10 ∷ 200 ∷ 8 ∷ 0 ∷ 128 ∷ 96 ∷ 31
        ∷ 0 ∷ 16 ∷ 32 ∷ 31 ∷ 128 ∷ 64 ∷ 33 ∷ 22 ∷ 24 ∷ 38 ∷ 65 ∷ 248 ∷ 0 ∷ [])
    ∷ (8 ∷ 8 ∷ 8 ∷ 248 ∷ 8 ∷ 8 ∷ 8 ∷ 16 ∷ 16 ∷ 255 ∷ 16 ∷ 16 ∷ 16 ∷ 240 ∷ 0 ∷ 0 ∷ 16 ∷ 48 ∷ 16 ∷ 31
        ∷ 8 ∷ 136 ∷ 72 ∷ 48 ∷ 14 ∷ 1 ∷ 64 ∷ 128 ∷ 64 ∷ 63 ∷ 0 ∷ 0 ∷ [])
    ∷ (0 ∷ 64 ∷ 48 ∷ 30 ∷ 16 ∷ 16 ∷ 16 ∷ 255 ∷ 16 ∷ 16 ∷ 16 ∷ 16 ∷ 16 ∷ 0 ∷ 0 ∷ 0 ∷ 129 ∷ 129 ∷ 65
        ∷ 33 ∷ 17 ∷ 13 ∷ 3 ∷ 1 ∷ 3 ∷ 13 ∷ 17 ∷ 33 ∷ 65 ∷ 129 ∷ 129 ∷ 0 ∷ [])
    ∷ (0 ∷ 254 ∷ 2 ∷ 250 ∷ 2 ∷ 254 ∷ 64 ∷ 32 ∷ 216 ∷ 23 ∷ 16 ∷ 16 ∷ 240 ∷ 16 ∷ 16 ∷ 0 ∷ 128 ∷ 71
        ∷ 48 ∷ 15 ∷ 16 ∷ 103 ∷ 128 ∷ 64 ∷ 33 ∷ 22 ∷ 8 ∷ 22 ∷ 33 ∷ 64 ∷ 128 ∷ 0 ∷ [])
    ∷ (0 ∷ 8 ∷ 48 ∷ 0 ∷ 255 ∷ 32 ∷ 32 ∷ 32 ∷ 32 ∷ 255 ∷ 32 ∷ 32 ∷ 34 ∷ 44 ∷ 32 ∷ 0 ∷ 4 ∷ 4 ∷ 2 ∷ 1
        ∷ 255 ∷ 128 ∷ 64 ∷ 48 ∷ 14 ∷ 1 ∷ 6 ∷ 24 ∷ 32 ∷ 64 ∷ 128 ∷ 0 ∷ [])
    ∷ (0 ∷ 4 ∷ 132 ∷ 132 ∷ 68 ∷ 36 ∷ 84 ∷ 143 ∷ 20 ∷ 36 ∷ 68 ∷ 132 ∷ 132 ∷ 4 ∷ 0 ∷ 0 ∷ 65 ∷ 57 ∷ 0
        ∷ 0 ∷ 60 ∷ 64 ∷ 64 ∷ 66 ∷ 76 ∷ 64 ∷ 64 ∷ 112 ∷ 4 ∷ 9 ∷ 49 ∷ 0 ∷ [])
    ∷ (0 ∷ 0 ∷ 226 ∷ 130 ∷ 130 ∷ 130 ∷ 130 ∷ 130 ∷ 130 ∷ 130 ∷ 130 ∷ 254 ∷ 0 ∷ 0 ∷ 0 ∷ 0 ∷ 0 ∷ 0
        ∷ 63 ∷ 64 ∷ 64 ∷ 64 ∷ 64 ∷ 64 ∷ 64 ∷ 64 ∷ 64 ∷ 64 ∷ 64 ∷ 120 ∷ 0 ∷ 0 ∷ [])
    ∷ (128 ∷ 128 ∷ 136 ∷ 136 ∷ 136 ∷ 136 ∷ 136 ∷ 255 ∷ 136 ∷ 136 ∷ 136 ∷ 136 ∷ 136 ∷ 128 ∷ 128 ∷ 0
        ∷ 32 ∷ 32 ∷ 16 ∷ 8 ∷ 4 ∷ 2 ∷ 1 ∷ 255 ∷ 1 ∷ 2 ∷ 4 ∷ 8 ∷ 16 ∷ 32 ∷ 32 ∷ 0 ∷ [])
    ∷ (0 ∷ 248 ∷ 129 ∷ 66 ∷ 224 ∷ 154 ∷ 130 ∷ 250 ∷ 66 ∷ 74 ∷ 82 ∷ 66 ∷ 2 ∷ 254 ∷ 0 ∷ 0 ∷ 0 ∷ 255
        ∷ 0 ∷ 0 ∷ 127 ∷ 0 ∷ 32 ∷ 19 ∷ 12 ∷ 20 ∷ 35 ∷ 120 ∷ 128 ∷ 127 ∷ 0 ∷ 0 ∷ [])
    ∷ (16 ∷ 16 ∷ 16 ∷ 255 ∷ 144 ∷ 32 ∷ 152 ∷ 72 ∷ 40 ∷ 9 ∷ 14 ∷ 40 ∷ 72 ∷ 168 ∷ 24 ∷ 0 ∷ 2 ∷ 66
        ∷ 129 ∷ 127 ∷ 0 ∷ 64 ∷ 64 ∷ 66 ∷ 66 ∷ 66 ∷ 126 ∷ 66 ∷ 66 ∷ 66 ∷ 64 ∷ 0 ∷ [])
    ∷ (32 ∷ 32 ∷ 32 ∷ 190 ∷ 170 ∷ 170 ∷ 170 ∷ 170 ∷ 170 ∷ 170 ∷ 170 ∷ 190 ∷ 32 ∷ 32 ∷ 32 ∷ 0 ∷ 0
        ∷ 128 ∷ 128 ∷ 175 ∷ 170 ∷ 170 ∷ 170 ∷ 255 ∷ 170 ∷ 170 ∷ 170 ∷ 175 ∷ 128 ∷ 128 ∷ 0 ∷ 0 ∷ [])
    ∷ (16 ∷ 16 ∷ 16 ∷ 255 ∷ 16 ∷ 144 ∷ 0 ∷ 254 ∷ 130 ∷ 130 ∷ 130 ∷ 146 ∷ 162 ∷ 158 ∷ 0 ∷ 0 ∷ 4 ∷ 68
        ∷ 130 ∷ 127 ∷ 1 ∷ 0 ∷ 0 ∷ 255 ∷ 128 ∷ 67 ∷ 44 ∷ 16 ∷ 44 ∷ 67 ∷ 128 ∷ 0 ∷ [])
    ∷ (18 ∷ 234 ∷ 175 ∷ 170 ∷ 234 ∷ 15 ∷ 250 ∷ 2 ∷ 136 ∷ 140 ∷ 87 ∷ 36 ∷ 84 ∷ 140 ∷ 132 ∷ 0 ∷ 2 ∷ 2
        ∷ 234 ∷ 170 ∷ 170 ∷ 171 ∷ 170 ∷ 171 ∷ 170 ∷ 170 ∷ 170 ∷ 170 ∷ 234 ∷ 2 ∷ 2 ∷ 0 ∷ [])
    ∷ (0 ∷ 0 ∷ 0 ∷ 252 ∷ 84 ∷ 84 ∷ 86 ∷ 85 ∷ 84 ∷ 84 ∷ 84 ∷ 252 ∷ 0 ∷ 0 ∷ 0 ∷ 0 ∷ 64 ∷ 48 ∷ 0 ∷ 3
        ∷ 57 ∷ 65 ∷ 65 ∷ 69 ∷ 89 ∷ 65 ∷ 65 ∷ 115 ∷ 0 ∷ 8 ∷ 48 ∷ 0 ∷ [])
    ∷ (4 ∷ 4 ∷ 4 ∷ 244 ∷ 132 ∷ 212 ∷ 165 ∷ 166 ∷ 164 ∷ 212 ∷ 132 ∷ 244 ∷ 4 ∷ 4 ∷ 4 ∷ 0 ∷ 0 ∷ 254 ∷ 2
        ∷ 2 ∷ 18 ∷ 58 ∷ 22 ∷ 19 ∷ 18 ∷ 26 ∷ 50 ∷ 66 ∷ 130 ∷ 126 ∷ 0 ∷ 0 ∷ [])
    ∷ (32 ∷ 48 ∷ 172 ∷ 99 ∷ 32 ∷ 24 ∷ 128 ∷ 144 ∷ 144 ∷ 255 ∷ 144 ∷ 73 ∷ 74 ∷ 72 ∷ 64 ∷ 0 ∷ 34 ∷ 103
        ∷ 34 ∷ 18 ∷ 18 ∷ 18 ∷ 64 ∷ 64 ∷ 32 ∷ 19 ∷ 12 ∷ 20 ∷ 34 ∷ 65 ∷ 248 ∷ 0 ∷ [])
    ∷ (16 ∷ 16 ∷ 16 ∷ 255 ∷ 16 ∷ 16 ∷ 80 ∷ 32 ∷ 216 ∷ 23 ∷ 16 ∷ 16 ∷ 240 ∷ 16 ∷ 16 ∷ 0 ∷ 0 ∷ 127
        ∷ 33 ∷ 33 ∷ 33 ∷ 127 ∷ 128 ∷ 64 ∷ 33 ∷ 22 ∷ 8 ∷ 22 ∷ 33 ∷ 64 ∷ 128 ∷ 0 ∷ [])
    ∷ (0 ∷ 254 ∷ 2 ∷ 34 ∷ 218 ∷ 6 ∷ 16 ∷ 210 ∷ 86 ∷ 90 ∷ 83 ∷ 90 ∷ 86 ∷ 210 ∷ 16 ∷ 0 ∷ 0 ∷ 255 ∷ 8
        ∷ 16 ∷ 8 ∷ 7 ∷ 16 ∷ 23 ∷ 21 ∷ 21 ∷ 253 ∷ 21 ∷ 21 ∷ 23 ∷ 16 ∷ 0 ∷ [])
    ∷ (0 ∷ 128 ∷ 96 ∷ 248 ∷ 7 ∷ 0 ∷ 16 ∷ 255 ∷ 16 ∷ 16 ∷ 16 ∷ 255 ∷ 16 ∷ 16 ∷ 0 ∷ 0 ∷ 1 ∷ 0 ∷ 0
        ∷ 255 ∷ 128 ∷ 66 ∷ 34 ∷ 27 ∷ 2 ∷ 2 ∷ 2 ∷ 11 ∷ 50 ∷ 194 ∷ 2 ∷ 0 ∷ [])
    ∷ (0 ∷ 0 ∷ 254 ∷ 2 ∷ 2 ∷ 242 ∷ 18 ∷ 18 ∷ 18 ∷ 242 ∷ 2 ∷ 2 ∷ 254 ∷ 0 ∷ 0 ∷ 0 ∷ 0 ∷ 0 ∷ 127 ∷ 32
        ∷ 32 ∷ 39 ∷ 36 ∷ 36 ∷ 36 ∷ 39 ∷ 32 ∷ 32 ∷ 127 ∷ 0 ∷ 0 ∷ 0 ∷ [])
    ∷ (0 ∷ 32 ∷ 32 ∷ 32 ∷ 160 ∷ 96 ∷ 0 ∷ 255 ∷ 96 ∷ 128 ∷ 64 ∷ 32 ∷ 24 ∷ 0 ∷ 0 ∷ 0 ∷ 32 ∷ 16 ∷ 8 ∷ 6
        ∷ 1 ∷ 64 ∷ 128 ∷ 127 ∷ 0 ∷ 1 ∷ 2 ∷ 4 ∷ 8 ∷ 16 ∷ 16 ∷ 0 ∷ [])
    ∷ (0 ∷ 0 ∷ 62 ∷ 42 ∷ 42 ∷ 170 ∷ 106 ∷ 62 ∷ 42 ∷ 42 ∷ 170 ∷ 42 ∷ 62 ∷ 0 ∷ 0 ∷ 0 ∷ 0 ∷ 128 ∷ 72
        ∷ 41 ∷ 9 ∷ 77 ∷ 141 ∷ 123 ∷ 11 ∷ 9 ∷ 40 ∷ 76 ∷ 152 ∷ 0 ∷ 0 ∷ 0 ∷ [])
    ∷ (64 ∷ 64 ∷ 66 ∷ 204 ∷ 0 ∷ 64 ∷ 64 ∷ 64 ∷ 64 ∷ 255 ∷ 64 ∷ 64 ∷ 64 ∷ 64 ∷ 64 ∷ 0 ∷ 0 ∷ 0 ∷ 0
        ∷ 127 ∷ 32 ∷ 16 ∷ 0 ∷ 0 ∷ 0 ∷ 255 ∷ 0 ∷ 0 ∷ 0 ∷ 0 ∷ 0 ∷ 0 ∷ [])
    ∷ (16 ∷ 96 ∷ 2 ∷ 140 ∷ 0 ∷ 0 ∷ 254 ∷ 146 ∷ 146 ∷ 146 ∷ 146 ∷ 146 ∷ 254 ∷ 0 ∷ 0 ∷ 0 ∷ 4 ∷ 4 ∷ 126
        ∷ 1 ∷ 64 ∷ 126 ∷ 66 ∷ 66 ∷ 126 ∷ 66 ∷ 126 ∷ 66 ∷ 66 ∷ 126 ∷ 64 ∷ 0 ∷ [])
    ∷ (0 ∷ 0 ∷ 252 ∷ 36 ∷ 36 ∷ 36 ∷ 252 ∷ 37 ∷ 38 ∷ 36 ∷ 252 ∷ 36 ∷ 36 ∷ 36 ∷ 4 ∷ 0 ∷ 64 ∷ 48 ∷ 143
        ∷ 128 ∷ 132 ∷ 76 ∷ 85 ∷ 37 ∷ 37 ∷ 37 ∷ 85 ∷ 76 ∷ 128 ∷ 128 ∷ 128 ∷ 0 ∷ [])
    ∷ (32 ∷ 32 ∷ 32 ∷ 255 ∷ 32 ∷ 32 ∷ 128 ∷ 248 ∷ 128 ∷ 64 ∷ 255 ∷ 32 ∷ 16 ∷ 240 ∷ 0 ∷ 0 ∷ 16 ∷ 48
        ∷ 16 ∷ 15 ∷ 8 ∷ 8 ∷ 0 ∷ 63 ∷ 64 ∷ 64 ∷ 95 ∷ 66 ∷ 68 ∷ 67 ∷ 120 ∷ 0 ∷ [])
    ∷ (32 ∷ 32 ∷ 32 ∷ 255 ∷ 32 ∷ 32 ∷ 0 ∷ 248 ∷ 0 ∷ 0 ∷ 255 ∷ 64 ∷ 64 ∷ 64 ∷ 0 ∷ 0 ∷ 16 ∷ 48 ∷ 16
        ∷ 15 ∷ 8 ∷ 72 ∷ 64 ∷ 127 ∷ 64 ∷ 64 ∷ 127 ∷ 64 ∷ 64 ∷ 64 ∷ 64 ∷ 0 ∷ [])
    ∷ (0 ∷ 252 ∷ 132 ∷ 132 ∷ 132 ∷ 252 ∷ 0 ∷ 16 ∷ 16 ∷ 16 ∷ 16 ∷ 16 ∷ 255 ∷ 16 ∷ 16 ∷ 0 ∷ 0 ∷ 63
        ∷ 16 ∷ 16 ∷ 16 ∷ 63 ∷ 0 ∷ 0 ∷ 1 ∷ 6 ∷ 64 ∷ 128 ∷ 127 ∷ 0 ∷ 0 ∷ 0 ∷ [])
    ∷ (0 ∷ 248 ∷ 1 ∷ 6 ∷ 0 ∷ 240 ∷ 18 ∷ 18 ∷ 18 ∷ 242 ∷ 2 ∷ 2 ∷ 2 ∷ 254 ∷ 0 ∷ 0 ∷ 0 ∷ 255 ∷ 0 ∷ 0
        ∷ 0 ∷ 31 ∷ 17 ∷ 17 ∷ 17 ∷ 31 ∷ 0 ∷ 64 ∷ 128 ∷ 127 ∷ 0 ∷ 0 ∷ [])
    ∷ (32 ∷ 48 ∷ 172 ∷ 99 ∷ 32 ∷ 24 ∷ 8 ∷ 72 ∷ 72 ∷ 72 ∷ 127 ∷ 72 ∷ 72 ∷ 72 ∷ 8 ∷ 0 ∷ 34 ∷ 103 ∷ 34
        ∷ 18 ∷ 18 ∷ 18 ∷ 0 ∷ 254 ∷ 66 ∷ 66 ∷ 66 ∷ 66 ∷ 66 ∷ 254 ∷ 0 ∷ 0 ∷ [])
    ∷ (8 ∷ 4 ∷ 243 ∷ 82 ∷ 86 ∷ 82 ∷ 82 ∷ 80 ∷ 84 ∷ 83 ∷ 82 ∷ 86 ∷ 242 ∷ 2 ∷ 2 ∷ 0 ∷ 16 ∷ 16 ∷ 151
        ∷ 85 ∷ 61 ∷ 21 ∷ 21 ∷ 21 ∷ 21 ∷ 21 ∷ 253 ∷ 21 ∷ 23 ∷ 16 ∷ 16 ∷ 0 ∷ [])
    ∷ (0 ∷ 2 ∷ 12 ∷ 192 ∷ 0 ∷ 64 ∷ 32 ∷ 16 ∷ 12 ∷ 35 ∷ 204 ∷ 16 ∷ 32 ∷ 64 ∷ 64 ∷ 0 ∷ 2 ∷ 2 ∷ 127 ∷ 0
        ∷ 0 ∷ 0 ∷ 1 ∷ 9 ∷ 17 ∷ 33 ∷ 209 ∷ 13 ∷ 3 ∷ 0 ∷ 0 ∷ 0 ∷ [])
    ∷ (16 ∷ 96 ∷ 2 ∷ 140 ∷ 0 ∷ 68 ∷ 100 ∷ 84 ∷ 77 ∷ 70 ∷ 68 ∷ 84 ∷ 100 ∷ 196 ∷ 4 ∷ 0 ∷ 4 ∷ 4 ∷ 126
        ∷ 1 ∷ 128 ∷ 64 ∷ 62 ∷ 0 ∷ 0 ∷ 254 ∷ 0 ∷ 0 ∷ 126 ∷ 128 ∷ 224 ∷ 0 ∷ [])
    ∷ (252 ∷ 36 ∷ 36 ∷ 252 ∷ 128 ∷ 98 ∷ 170 ∷ 50 ∷ 34 ∷ 38 ∷ 41 ∷ 33 ∷ 177 ∷ 45 ∷ 96 ∷ 0 ∷ 63 ∷ 17
        ∷ 17 ∷ 63 ∷ 136 ∷ 68 ∷ 43 ∷ 18 ∷ 14 ∷ 0 ∷ 26 ∷ 18 ∷ 255 ∷ 18 ∷ 18 ∷ 0 ∷ [])
    ∷ (0 ∷ 4 ∷ 36 ∷ 36 ∷ 37 ∷ 38 ∷ 228 ∷ 60 ∷ 36 ∷ 38 ∷ 37 ∷ 36 ∷ 36 ∷ 4 ∷ 0 ∷ 0 ∷ 65 ∷ 33 ∷ 17
        ∷ 137 ∷ 133 ∷ 139 ∷ 137 ∷ 137 ∷ 249 ∷ 137 ∷ 137 ∷ 137 ∷ 137 ∷ 129 ∷ 1 ∷ 0 ∷ [])
    ∷ (0 ∷ 0 ∷ 0 ∷ 0 ∷ 128 ∷ 96 ∷ 24 ∷ 6 ∷ 24 ∷ 96 ∷ 128 ∷ 0 ∷ 0 ∷ 0 ∷ 0 ∷ 0 ∷ 0 ∷ 32 ∷ 56 ∷ 38 ∷ 33
        ∷ 32 ∷ 32 ∷ 32 ∷ 32 ∷ 32 ∷ 33 ∷ 38 ∷ 56 ∷ 32 ∷ 0 ∷ 0 ∷ [])
    ∷ (6 ∷ 9 ∷ 9 ∷ 230 ∷ 248 ∷ 12 ∷ 4 ∷ 2 ∷ 2 ∷ 2 ∷ 2 ∷ 2 ∷ 4 ∷ 30 ∷ 0 ∷ 0 ∷ 0 ∷ 0 ∷ 0 ∷ 7 ∷ 31 ∷ 48
        ∷ 32 ∷ 64 ∷ 64 ∷ 64 ∷ 64 ∷ 64 ∷ 32 ∷ 16 ∷ 0 ∷ 0 ∷ [])
    ∷ (4 ∷ 52 ∷ 196 ∷ 4 ∷ 196 ∷ 60 ∷ 32 ∷ 16 ∷ 15 ∷ 232 ∷ 8 ∷ 8 ∷ 40 ∷ 24 ∷ 0 ∷ 0 ∷ 16 ∷ 8 ∷ 6 ∷ 1
        ∷ 130 ∷ 140 ∷ 64 ∷ 48 ∷ 12 ∷ 3 ∷ 12 ∷ 16 ∷ 96 ∷ 192 ∷ 64 ∷ 0 ∷ [])
    ∷ (64 ∷ 66 ∷ 68 ∷ 200 ∷ 0 ∷ 252 ∷ 4 ∷ 2 ∷ 130 ∷ 252 ∷ 4 ∷ 4 ∷ 4 ∷ 254 ∷ 4 ∷ 0 ∷ 0 ∷ 64 ∷ 32 ∷ 31
        ∷ 32 ∷ 71 ∷ 66 ∷ 65 ∷ 64 ∷ 127 ∷ 64 ∷ 66 ∷ 68 ∷ 99 ∷ 32 ∷ 0 ∷ [])
    ∷ (64 ∷ 32 ∷ 248 ∷ 7 ∷ 4 ∷ 244 ∷ 20 ∷ 20 ∷ 20 ∷ 255 ∷ 20 ∷ 20 ∷ 20 ∷ 246 ∷ 4 ∷ 0 ∷ 0 ∷ 0 ∷ 255
        ∷ 0 ∷ 128 ∷ 67 ∷ 69 ∷ 41 ∷ 25 ∷ 23 ∷ 33 ∷ 33 ∷ 65 ∷ 195 ∷ 64 ∷ 0 ∷ [])
    ∷ (0 ∷ 0 ∷ 254 ∷ 34 ∷ 34 ∷ 34 ∷ 34 ∷ 254 ∷ 34 ∷ 34 ∷ 34 ∷ 34 ∷ 255 ∷ 2 ∷ 0 ∷ 0 ∷ 128 ∷ 96 ∷ 31
        ∷ 2 ∷ 2 ∷ 2 ∷ 2 ∷ 127 ∷ 2 ∷ 2 ∷ 66 ∷ 130 ∷ 127 ∷ 0 ∷ 0 ∷ 0 ∷ [])
    ∷ (0 ∷ 128 ∷ 96 ∷ 248 ∷ 7 ∷ 0 ∷ 28 ∷ 224 ∷ 1 ∷ 6 ∷ 0 ∷ 224 ∷ 30 ∷ 0 ∷ 0 ∷ 0 ∷ 1 ∷ 0 ∷ 0 ∷ 255
        ∷ 0 ∷ 128 ∷ 64 ∷ 32 ∷ 19 ∷ 12 ∷ 19 ∷ 32 ∷ 64 ∷ 128 ∷ 128 ∷ 0 ∷ [])
    ∷ (16 ∷ 96 ∷ 2 ∷ 140 ∷ 0 ∷ 8 ∷ 8 ∷ 8 ∷ 9 ∷ 250 ∷ 8 ∷ 8 ∷ 8 ∷ 8 ∷ 0 ∷ 0 ∷ 4 ∷ 4 ∷ 126 ∷ 1 ∷ 64
        ∷ 64 ∷ 65 ∷ 65 ∷ 65 ∷ 127 ∷ 65 ∷ 65 ∷ 65 ∷ 65 ∷ 64 ∷ 0 ∷ [])
    ∷ (128 ∷ 128 ∷ 128 ∷ 254 ∷ 130 ∷ 130 ∷ 254 ∷ 128 ∷ 128 ∷ 254 ∷ 130 ∷ 130 ∷ 254 ∷ 128 ∷ 128 ∷ 0
        ∷ 0 ∷ 128 ∷ 64 ∷ 63 ∷ 0 ∷ 64 ∷ 127 ∷ 128 ∷ 96 ∷ 31 ∷ 64 ∷ 128 ∷ 127 ∷ 0 ∷ 0 ∷ 0 ∷ [])
    ∷ (16 ∷ 96 ∷ 2 ∷ 204 ∷ 128 ∷ 64 ∷ 32 ∷ 30 ∷ 2 ∷ 2 ∷ 2 ∷ 62 ∷ 64 ∷ 64 ∷ 64 ∷ 0 ∷ 4 ∷ 4 ∷ 126 ∷ 1
        ∷ 128 ∷ 128 ∷ 131 ∷ 77 ∷ 81 ∷ 33 ∷ 81 ∷ 73 ∷ 135 ∷ 128 ∷ 128 ∷ 0 ∷ [])
    ∷ (4 ∷ 4 ∷ 4 ∷ 132 ∷ 228 ∷ 60 ∷ 39 ∷ 36 ∷ 36 ∷ 36 ∷ 36 ∷ 228 ∷ 4 ∷ 4 ∷ 4 ∷ 0 ∷ 4 ∷ 2 ∷ 1 ∷ 0
        ∷ 255 ∷ 9 ∷ 9 ∷ 9 ∷ 9 ∷ 73 ∷ 137 ∷ 127 ∷ 0 ∷ 0 ∷ 0 ∷ 0 ∷ [])
    ∷ (64 ∷ 66 ∷ 204 ∷ 0 ∷ 0 ∷ 68 ∷ 84 ∷ 84 ∷ 84 ∷ 127 ∷ 84 ∷ 84 ∷ 84 ∷ 68 ∷ 64 ∷ 0 ∷ 0 ∷ 0 ∷ 127
        ∷ 32 ∷ 16 ∷ 0 ∷ 255 ∷ 21 ∷ 21 ∷ 21 ∷ 85 ∷ 149 ∷ 127 ∷ 0 ∷ 0 ∷ 0 ∷ [])
    ∷ (0 ∷ 0 ∷ 0 ∷ 252 ∷ 36 ∷ 36 ∷ 36 ∷ 36 ∷ 34 ∷ 34 ∷ 34 ∷ 35 ∷ 34 ∷ 32 ∷ 32 ∷ 0 ∷ 64 ∷ 32 ∷ 24 ∷ 7
        ∷ 0 ∷ 254 ∷ 66 ∷ 66 ∷ 66 ∷ 66 ∷ 66 ∷ 66 ∷ 254 ∷ 0 ∷ 0 ∷ 0 ∷ [])
    ∷ (16 ∷ 16 ∷ 16 ∷ 255 ∷ 144 ∷ 32 ∷ 152 ∷ 136 ∷ 136 ∷ 233 ∷ 142 ∷ 136 ∷ 136 ∷ 168 ∷ 152 ∷ 0 ∷ 2
        ∷ 66 ∷ 129 ∷ 127 ∷ 0 ∷ 0 ∷ 128 ∷ 132 ∷ 75 ∷ 40 ∷ 16 ∷ 40 ∷ 71 ∷ 128 ∷ 0 ∷ 0 ∷ [])
    ∷ (64 ∷ 48 ∷ 239 ∷ 36 ∷ 36 ∷ 128 ∷ 228 ∷ 156 ∷ 16 ∷ 84 ∷ 84 ∷ 255 ∷ 84 ∷ 124 ∷ 16 ∷ 0 ∷ 1 ∷ 1
        ∷ 127 ∷ 33 ∷ 81 ∷ 38 ∷ 24 ∷ 39 ∷ 68 ∷ 69 ∷ 69 ∷ 95 ∷ 69 ∷ 69 ∷ 68 ∷ 0 ∷ [])
    ∷ (8 ∷ 4 ∷ 35 ∷ 34 ∷ 38 ∷ 42 ∷ 34 ∷ 250 ∷ 36 ∷ 35 ∷ 34 ∷ 38 ∷ 42 ∷ 2 ∷ 2 ∷ 0 ∷ 1 ∷ 9 ∷ 9 ∷ 9
        ∷ 25 ∷ 105 ∷ 9 ∷ 9 ∷ 73 ∷ 137 ∷ 125 ∷ 9 ∷ 9 ∷ 9 ∷ 1 ∷ 0 ∷ [])
    ∷ (0 ∷ 16 ∷ 136 ∷ 196 ∷ 51 ∷ 64 ∷ 72 ∷ 72 ∷ 72 ∷ 127 ∷ 72 ∷ 200 ∷ 72 ∷ 72 ∷ 64 ∷ 0 ∷ 2 ∷ 1 ∷ 0
        ∷ 255 ∷ 0 ∷ 2 ∷ 10 ∷ 50 ∷ 2 ∷ 66 ∷ 130 ∷ 127 ∷ 2 ∷ 2 ∷ 2 ∷ 0 ∷ [])
    ∷ (0 ∷ 2 ∷ 2 ∷ 194 ∷ 2 ∷ 2 ∷ 2 ∷ 2 ∷ 254 ∷ 130 ∷ 130 ∷ 130 ∷ 130 ∷ 130 ∷ 2 ∷ 0 ∷ 32 ∷ 32 ∷ 32
        ∷ 63 ∷ 32 ∷ 32 ∷ 32 ∷ 32 ∷ 63 ∷ 32 ∷ 32 ∷ 32 ∷ 32 ∷ 32 ∷ 32 ∷ 0 ∷ [])
    ∷ (0 ∷ 4 ∷ 4 ∷ 196 ∷ 100 ∷ 156 ∷ 135 ∷ 132 ∷ 132 ∷ 228 ∷ 132 ∷ 132 ∷ 132 ∷ 132 ∷ 4 ∷ 0 ∷ 4 ∷ 2
        ∷ 1 ∷ 127 ∷ 0 ∷ 32 ∷ 32 ∷ 32 ∷ 32 ∷ 63 ∷ 32 ∷ 32 ∷ 32 ∷ 32 ∷ 32 ∷ 0 ∷ [])
    ∷ (64 ∷ 65 ∷ 206 ∷ 4 ∷ 0 ∷ 128 ∷ 64 ∷ 190 ∷ 130 ∷ 130 ∷ 130 ∷ 190 ∷ 192 ∷ 64 ∷ 64 ∷ 0 ∷ 0 ∷ 0
        ∷ 127 ∷ 32 ∷ 144 ∷ 128 ∷ 64 ∷ 67 ∷ 44 ∷ 16 ∷ 16 ∷ 44 ∷ 67 ∷ 192 ∷ 64 ∷ 0 ∷ [])
    ∷ (0 ∷ 32 ∷ 47 ∷ 169 ∷ 169 ∷ 175 ∷ 233 ∷ 185 ∷ 169 ∷ 175 ∷ 169 ∷ 169 ∷ 47 ∷ 32 ∷ 0 ∷ 0 ∷ 128
        ∷ 128 ∷ 128 ∷ 255 ∷ 170 ∷ 170 ∷ 170 ∷ 170 ∷ 170 ∷ 170 ∷ 170 ∷ 255 ∷ 128 ∷ 128 ∷ 128 ∷ 0
        ∷ [])
    ∷ (64 ∷ 66 ∷ 204 ∷ 4 ∷ 0 ∷ 80 ∷ 148 ∷ 52 ∷ 212 ∷ 31 ∷ 212 ∷ 20 ∷ 84 ∷ 52 ∷ 16 ∷ 0 ∷ 0 ∷ 0 ∷ 127
        ∷ 32 ∷ 16 ∷ 130 ∷ 67 ∷ 34 ∷ 18 ∷ 10 ∷ 7 ∷ 10 ∷ 18 ∷ 226 ∷ 66 ∷ 0 ∷ [])
    ∷ (2 ∷ 2 ∷ 254 ∷ 146 ∷ 146 ∷ 146 ∷ 254 ∷ 2 ∷ 2 ∷ 124 ∷ 132 ∷ 4 ∷ 132 ∷ 124 ∷ 4 ∷ 0 ∷ 16 ∷ 16
        ∷ 15 ∷ 8 ∷ 8 ∷ 4 ∷ 255 ∷ 4 ∷ 34 ∷ 16 ∷ 9 ∷ 6 ∷ 9 ∷ 48 ∷ 16 ∷ 0 ∷ [])
    ∷ (32 ∷ 48 ∷ 172 ∷ 99 ∷ 50 ∷ 0 ∷ 252 ∷ 164 ∷ 165 ∷ 166 ∷ 164 ∷ 164 ∷ 164 ∷ 188 ∷ 0 ∷ 0 ∷ 16 ∷ 17
        ∷ 9 ∷ 73 ∷ 33 ∷ 28 ∷ 3 ∷ 127 ∷ 4 ∷ 63 ∷ 4 ∷ 63 ∷ 68 ∷ 127 ∷ 0 ∷ 0 ∷ [])
    ∷ (64 ∷ 64 ∷ 64 ∷ 95 ∷ 209 ∷ 81 ∷ 81 ∷ 81 ∷ 81 ∷ 81 ∷ 81 ∷ 95 ∷ 64 ∷ 64 ∷ 64 ∷ 0 ∷ 0 ∷ 0 ∷ 0 ∷ 2
        ∷ 7 ∷ 2 ∷ 2 ∷ 34 ∷ 66 ∷ 130 ∷ 66 ∷ 62 ∷ 0 ∷ 0 ∷ 0 ∷ 0 ∷ [])
    ∷ (0 ∷ 0 ∷ 0 ∷ 248 ∷ 136 ∷ 136 ∷ 136 ∷ 137 ∷ 138 ∷ 142 ∷ 136 ∷ 136 ∷ 136 ∷ 248 ∷ 0 ∷ 0 ∷ 128
        ∷ 64 ∷ 48 ∷ 15 ∷ 0 ∷ 0 ∷ 0 ∷ 0 ∷ 0 ∷ 0 ∷ 0 ∷ 0 ∷ 0 ∷ 0 ∷ 0 ∷ 0 ∷ [])
    ∷ (64 ∷ 65 ∷ 206 ∷ 4 ∷ 0 ∷ 128 ∷ 64 ∷ 190 ∷ 130 ∷ 130 ∷ 130 ∷ 190 ∷ 192 ∷ 64 ∷ 64 ∷ 0 ∷ 0 ∷ 0
        ∷ 127 ∷ 32 ∷ 144 ∷ 128 ∷ 64 ∷ 67 ∷ 44 ∷ 16 ∷ 16 ∷ 44 ∷ 67 ∷ 192 ∷ 64 ∷ 0 ∷ [])
    ∷ (0 ∷ 32 ∷ 16 ∷ 8 ∷ 135 ∷ 138 ∷ 82 ∷ 34 ∷ 34 ∷ 82 ∷ 142 ∷ 130 ∷ 0 ∷ 0 ∷ 0 ∷ 0 ∷ 2 ∷ 2 ∷ 1 ∷ 255
        ∷ 74 ∷ 74 ∷ 74 ∷ 126 ∷ 74 ∷ 74 ∷ 74 ∷ 255 ∷ 1 ∷ 3 ∷ 1 ∷ 0 ∷ [])
    ∷ (80 ∷ 145 ∷ 22 ∷ 16 ∷ 240 ∷ 16 ∷ 64 ∷ 94 ∷ 80 ∷ 80 ∷ 223 ∷ 80 ∷ 80 ∷ 94 ∷ 64 ∷ 0 ∷ 16 ∷ 19
        ∷ 16 ∷ 15 ∷ 8 ∷ 8 ∷ 255 ∷ 1 ∷ 1 ∷ 63 ∷ 1 ∷ 63 ∷ 65 ∷ 129 ∷ 127 ∷ 0 ∷ [])
    ∷ (0 ∷ 0 ∷ 252 ∷ 4 ∷ 4 ∷ 4 ∷ 4 ∷ 4 ∷ 4 ∷ 4 ∷ 4 ∷ 4 ∷ 252 ∷ 0 ∷ 0 ∷ 0 ∷ 0 ∷ 0 ∷ 63 ∷ 8 ∷ 8 ∷ 8
        ∷ 8 ∷ 8 ∷ 8 ∷ 8 ∷ 8 ∷ 8 ∷ 63 ∷ 0 ∷ 0 ∷ 0 ∷ [])
    ∷ (0 ∷ 132 ∷ 228 ∷ 92 ∷ 68 ∷ 196 ∷ 16 ∷ 248 ∷ 151 ∷ 146 ∷ 242 ∷ 154 ∷ 150 ∷ 242 ∷ 0 ∷ 0 ∷ 1 ∷ 0
        ∷ 63 ∷ 8 ∷ 136 ∷ 79 ∷ 48 ∷ 15 ∷ 4 ∷ 4 ∷ 63 ∷ 68 ∷ 132 ∷ 127 ∷ 0 ∷ 0 ∷ [])
    ∷ (64 ∷ 65 ∷ 66 ∷ 204 ∷ 4 ∷ 0 ∷ 0 ∷ 0 ∷ 128 ∷ 127 ∷ 128 ∷ 0 ∷ 0 ∷ 0 ∷ 0 ∷ 0 ∷ 0 ∷ 0 ∷ 0 ∷ 127
        ∷ 32 ∷ 144 ∷ 96 ∷ 24 ∷ 7 ∷ 0 ∷ 3 ∷ 12 ∷ 48 ∷ 192 ∷ 64 ∷ 0 ∷ [])
    ∷ (128 ∷ 254 ∷ 130 ∷ 130 ∷ 254 ∷ 128 ∷ 254 ∷ 130 ∷ 130 ∷ 254 ∷ 128 ∷ 0 ∷ 248 ∷ 0 ∷ 255 ∷ 0 ∷ 64
        ∷ 63 ∷ 0 ∷ 32 ∷ 191 ∷ 64 ∷ 63 ∷ 64 ∷ 128 ∷ 127 ∷ 0 ∷ 0 ∷ 79 ∷ 128 ∷ 127 ∷ 0 ∷ [])
    ∷ (0 ∷ 254 ∷ 34 ∷ 90 ∷ 134 ∷ 32 ∷ 16 ∷ 40 ∷ 36 ∷ 227 ∷ 36 ∷ 40 ∷ 16 ∷ 32 ∷ 32 ∷ 0 ∷ 0 ∷ 255 ∷ 4
        ∷ 8 ∷ 39 ∷ 17 ∷ 13 ∷ 65 ∷ 129 ∷ 127 ∷ 1 ∷ 5 ∷ 9 ∷ 49 ∷ 0 ∷ 0 ∷ [])
    ∷ (2 ∷ 2 ∷ 254 ∷ 146 ∷ 146 ∷ 146 ∷ 254 ∷ 2 ∷ 6 ∷ 252 ∷ 4 ∷ 4 ∷ 4 ∷ 252 ∷ 0 ∷ 0 ∷ 8 ∷ 24 ∷ 15 ∷ 8
        ∷ 8 ∷ 4 ∷ 255 ∷ 4 ∷ 132 ∷ 64 ∷ 39 ∷ 24 ∷ 39 ∷ 64 ∷ 128 ∷ 0 ∷ [])
    ∷ (16 ∷ 96 ∷ 2 ∷ 12 ∷ 192 ∷ 0 ∷ 226 ∷ 44 ∷ 32 ∷ 63 ∷ 32 ∷ 40 ∷ 230 ∷ 0 ∷ 0 ∷ 0 ∷ 4 ∷ 4 ∷ 124 ∷ 3
        ∷ 0 ∷ 0 ∷ 255 ∷ 9 ∷ 9 ∷ 9 ∷ 73 ∷ 137 ∷ 127 ∷ 0 ∷ 0 ∷ 0 ∷ [])
    ∷ (8 ∷ 4 ∷ 147 ∷ 146 ∷ 150 ∷ 154 ∷ 146 ∷ 250 ∷ 148 ∷ 147 ∷ 146 ∷ 150 ∷ 250 ∷ 2 ∷ 2 ∷ 0 ∷ 64 ∷ 64
        ∷ 71 ∷ 36 ∷ 36 ∷ 20 ∷ 12 ∷ 255 ∷ 4 ∷ 4 ∷ 36 ∷ 68 ∷ 36 ∷ 28 ∷ 0 ∷ 0 ∷ [])
    ∷ (0 ∷ 0 ∷ 0 ∷ 254 ∷ 146 ∷ 146 ∷ 146 ∷ 146 ∷ 146 ∷ 146 ∷ 146 ∷ 254 ∷ 0 ∷ 0 ∷ 0 ∷ 0 ∷ 64 ∷ 66
        ∷ 68 ∷ 88 ∷ 64 ∷ 127 ∷ 64 ∷ 64 ∷ 64 ∷ 127 ∷ 64 ∷ 80 ∷ 72 ∷ 70 ∷ 64 ∷ 0 ∷ [])
    ∷ (64 ∷ 64 ∷ 66 ∷ 66 ∷ 66 ∷ 66 ∷ 66 ∷ 194 ∷ 66 ∷ 66 ∷ 66 ∷ 66 ∷ 66 ∷ 64 ∷ 64 ∷ 0 ∷ 32 ∷ 16 ∷ 8
        ∷ 6 ∷ 0 ∷ 64 ∷ 128 ∷ 127 ∷ 0 ∷ 0 ∷ 0 ∷ 2 ∷ 4 ∷ 8 ∷ 48 ∷ 0 ∷ [])
    ∷ (64 ∷ 64 ∷ 66 ∷ 204 ∷ 0 ∷ 0 ∷ 255 ∷ 73 ∷ 73 ∷ 201 ∷ 73 ∷ 73 ∷ 127 ∷ 128 ∷ 0 ∷ 0 ∷ 0 ∷ 64 ∷ 32
        ∷ 31 ∷ 32 ∷ 64 ∷ 95 ∷ 72 ∷ 68 ∷ 64 ∷ 65 ∷ 66 ∷ 69 ∷ 88 ∷ 64 ∷ 0 ∷ [])
    ∷ (0 ∷ 0 ∷ 124 ∷ 64 ∷ 64 ∷ 64 ∷ 64 ∷ 255 ∷ 64 ∷ 64 ∷ 64 ∷ 64 ∷ 252 ∷ 0 ∷ 0 ∷ 0 ∷ 0 ∷ 124 ∷ 64
        ∷ 64 ∷ 64 ∷ 64 ∷ 64 ∷ 127 ∷ 64 ∷ 64 ∷ 64 ∷ 64 ∷ 64 ∷ 252 ∷ 0 ∷ 0 ∷ [])
    ∷ (136 ∷ 104 ∷ 31 ∷ 200 ∷ 8 ∷ 16 ∷ 200 ∷ 84 ∷ 82 ∷ 209 ∷ 18 ∷ 148 ∷ 8 ∷ 208 ∷ 16 ∷ 0 ∷ 9 ∷ 25
        ∷ 9 ∷ 255 ∷ 5 ∷ 0 ∷ 255 ∷ 18 ∷ 146 ∷ 255 ∷ 0 ∷ 95 ∷ 128 ∷ 127 ∷ 0 ∷ 0 ∷ [])
    ∷ (0 ∷ 0 ∷ 0 ∷ 0 ∷ 0 ∷ 1 ∷ 226 ∷ 28 ∷ 224 ∷ 0 ∷ 0 ∷ 0 ∷ 0 ∷ 0 ∷ 0 ∷ 0 ∷ 128 ∷ 64 ∷ 32 ∷ 16 ∷ 12
        ∷ 3 ∷ 0 ∷ 0 ∷ 0 ∷ 3 ∷ 12 ∷ 48 ∷ 64 ∷ 128 ∷ 128 ∷ 0 ∷ [])
    ∷ (16 ∷ 140 ∷ 68 ∷ 4 ∷ 228 ∷ 4 ∷ 149 ∷ 166 ∷ 68 ∷ 36 ∷ 20 ∷ 132 ∷ 68 ∷ 148 ∷ 12 ∷ 0 ∷ 2 ∷ 2
        ∷ 122 ∷ 65 ∷ 65 ∷ 67 ∷ 66 ∷ 126 ∷ 66 ∷ 66 ∷ 66 ∷ 67 ∷ 248 ∷ 0 ∷ 0 ∷ 0 ∷ [])
    ∷ (4 ∷ 132 ∷ 228 ∷ 92 ∷ 68 ∷ 196 ∷ 0 ∷ 2 ∷ 242 ∷ 130 ∷ 130 ∷ 130 ∷ 254 ∷ 128 ∷ 128 ∷ 0 ∷ 2 ∷ 1
        ∷ 127 ∷ 16 ∷ 16 ∷ 63 ∷ 0 ∷ 8 ∷ 8 ∷ 8 ∷ 8 ∷ 72 ∷ 136 ∷ 64 ∷ 63 ∷ 0 ∷ [])
    ∷ (16 ∷ 16 ∷ 208 ∷ 255 ∷ 144 ∷ 20 ∷ 228 ∷ 175 ∷ 164 ∷ 164 ∷ 164 ∷ 175 ∷ 228 ∷ 4 ∷ 0 ∷ 0 ∷ 4 ∷ 3
        ∷ 0 ∷ 255 ∷ 0 ∷ 137 ∷ 75 ∷ 42 ∷ 26 ∷ 14 ∷ 26 ∷ 42 ∷ 75 ∷ 136 ∷ 128 ∷ 0 ∷ [])
    ∷ (32 ∷ 32 ∷ 32 ∷ 255 ∷ 32 ∷ 32 ∷ 8 ∷ 8 ∷ 8 ∷ 255 ∷ 8 ∷ 8 ∷ 8 ∷ 248 ∷ 0 ∷ 0 ∷ 16 ∷ 48 ∷ 16 ∷ 15
        ∷ 136 ∷ 72 ∷ 33 ∷ 17 ∷ 13 ∷ 3 ∷ 13 ∷ 17 ∷ 33 ∷ 65 ∷ 129 ∷ 0 ∷ [])
    ∷ (64 ∷ 66 ∷ 204 ∷ 0 ∷ 0 ∷ 226 ∷ 34 ∷ 42 ∷ 42 ∷ 242 ∷ 42 ∷ 38 ∷ 34 ∷ 224 ∷ 0 ∷ 0 ∷ 128 ∷ 64 ∷ 63
        ∷ 64 ∷ 128 ∷ 255 ∷ 137 ∷ 137 ∷ 137 ∷ 191 ∷ 137 ∷ 169 ∷ 201 ∷ 191 ∷ 128 ∷ 0 ∷ [])
    ∷ (0 ∷ 128 ∷ 96 ∷ 248 ∷ 135 ∷ 128 ∷ 132 ∷ 132 ∷ 132 ∷ 254 ∷ 130 ∷ 131 ∷ 130 ∷ 128 ∷ 128 ∷ 0 ∷ 1
        ∷ 0 ∷ 0 ∷ 255 ∷ 0 ∷ 64 ∷ 64 ∷ 64 ∷ 64 ∷ 127 ∷ 64 ∷ 64 ∷ 64 ∷ 64 ∷ 0 ∷ 0 ∷ [])
    ∷ (16 ∷ 16 ∷ 18 ∷ 210 ∷ 86 ∷ 90 ∷ 82 ∷ 83 ∷ 82 ∷ 90 ∷ 86 ∷ 210 ∷ 18 ∷ 16 ∷ 16 ∷ 0 ∷ 64 ∷ 48 ∷ 0
        ∷ 119 ∷ 133 ∷ 133 ∷ 141 ∷ 181 ∷ 133 ∷ 133 ∷ 133 ∷ 231 ∷ 0 ∷ 16 ∷ 96 ∷ 0 ∷ [])
    ∷ (64 ∷ 64 ∷ 66 ∷ 204 ∷ 0 ∷ 0 ∷ 252 ∷ 36 ∷ 164 ∷ 36 ∷ 34 ∷ 34 ∷ 163 ∷ 98 ∷ 0 ∷ 0 ∷ 0 ∷ 64 ∷ 32
        ∷ 31 ∷ 32 ∷ 88 ∷ 71 ∷ 80 ∷ 72 ∷ 69 ∷ 66 ∷ 69 ∷ 72 ∷ 80 ∷ 64 ∷ 0 ∷ [])
    ∷ (0 ∷ 0 ∷ 254 ∷ 2 ∷ 2 ∷ 242 ∷ 18 ∷ 18 ∷ 18 ∷ 242 ∷ 2 ∷ 2 ∷ 254 ∷ 0 ∷ 0 ∷ 0 ∷ 0 ∷ 0 ∷ 127 ∷ 32
        ∷ 32 ∷ 39 ∷ 36 ∷ 36 ∷ 36 ∷ 39 ∷ 32 ∷ 32 ∷ 127 ∷ 0 ∷ 0 ∷ 0 ∷ [])
    ∷ (0 ∷ 60 ∷ 66 ∷ 66 ∷ 60 ∷ 128 ∷ 64 ∷ 32 ∷ 16 ∷ 8 ∷ 4 ∷ 2 ∷ 1 ∷ 0 ∷ 0 ∷ 0 ∷ 16 ∷ 8 ∷ 4 ∷ 2 ∷ 1
        ∷ 60 ∷ 66 ∷ 66 ∷ 60 ∷ 0 ∷ 0 ∷ 60 ∷ 66 ∷ 66 ∷ 60 ∷ 0 ∷ [])
    ∷ (0 ∷ 240 ∷ 96 ∷ 128 ∷ 0 ∷ 0 ∷ 0 ∷ 128 ∷ 96 ∷ 240 ∷ 0 ∷ 68 ∷ 130 ∷ 146 ∷ 108 ∷ 0 ∷ 0 ∷ 127 ∷ 0
        ∷ 3 ∷ 28 ∷ 96 ∷ 28 ∷ 3 ∷ 0 ∷ 127 ∷ 0 ∷ 0 ∷ 0 ∷ 0 ∷ 0 ∷ 0 ∷ [])
    ∷ (32 ∷ 24 ∷ 8 ∷ 234 ∷ 172 ∷ 168 ∷ 168 ∷ 175 ∷ 168 ∷ 168 ∷ 172 ∷ 234 ∷ 8 ∷ 40 ∷ 24 ∷ 0 ∷ 0 ∷ 0
        ∷ 62 ∷ 2 ∷ 2 ∷ 2 ∷ 2 ∷ 255 ∷ 2 ∷ 2 ∷ 18 ∷ 34 ∷ 30 ∷ 0 ∷ 0 ∷ 0 ∷ [])
    ∷ (0 ∷ 0 ∷ 254 ∷ 18 ∷ 18 ∷ 18 ∷ 242 ∷ 18 ∷ 18 ∷ 30 ∷ 0 ∷ 240 ∷ 0 ∷ 0 ∷ 255 ∷ 0 ∷ 16 ∷ 14 ∷ 1
        ∷ 63 ∷ 1 ∷ 1 ∷ 255 ∷ 17 ∷ 33 ∷ 31 ∷ 0 ∷ 15 ∷ 64 ∷ 128 ∷ 127 ∷ 0 ∷ [])
    ∷ (64 ∷ 64 ∷ 64 ∷ 64 ∷ 64 ∷ 64 ∷ 255 ∷ 68 ∷ 68 ∷ 68 ∷ 68 ∷ 68 ∷ 68 ∷ 64 ∷ 64 ∷ 0 ∷ 0 ∷ 0 ∷ 0 ∷ 0
        ∷ 0 ∷ 0 ∷ 255 ∷ 0 ∷ 0 ∷ 2 ∷ 4 ∷ 8 ∷ 16 ∷ 0 ∷ 0 ∷ 0 ∷ [])
    ∷ (66 ∷ 98 ∷ 82 ∷ 74 ∷ 198 ∷ 66 ∷ 82 ∷ 98 ∷ 194 ∷ 0 ∷ 248 ∷ 0 ∷ 0 ∷ 255 ∷ 0 ∷ 0 ∷ 64 ∷ 196 ∷ 68
        ∷ 68 ∷ 127 ∷ 36 ∷ 36 ∷ 36 ∷ 32 ∷ 0 ∷ 15 ∷ 64 ∷ 128 ∷ 127 ∷ 0 ∷ 0 ∷ [])
    ∷ (16 ∷ 16 ∷ 16 ∷ 255 ∷ 16 ∷ 208 ∷ 74 ∷ 114 ∷ 70 ∷ 90 ∷ 66 ∷ 97 ∷ 81 ∷ 77 ∷ 192 ∷ 0 ∷ 4 ∷ 68
        ∷ 130 ∷ 127 ∷ 1 ∷ 128 ∷ 130 ∷ 78 ∷ 82 ∷ 34 ∷ 82 ∷ 74 ∷ 134 ∷ 128 ∷ 128 ∷ 0 ∷ [])
    ∷ (16 ∷ 16 ∷ 208 ∷ 255 ∷ 144 ∷ 16 ∷ 2 ∷ 30 ∷ 226 ∷ 2 ∷ 2 ∷ 2 ∷ 226 ∷ 30 ∷ 0 ∷ 0 ∷ 4 ∷ 3 ∷ 0
        ∷ 255 ∷ 0 ∷ 131 ∷ 128 ∷ 64 ∷ 32 ∷ 19 ∷ 12 ∷ 19 ∷ 32 ∷ 64 ∷ 128 ∷ 0 ∷ [])
    ∷ (132 ∷ 228 ∷ 92 ∷ 196 ∷ 0 ∷ 8 ∷ 200 ∷ 57 ∷ 142 ∷ 8 ∷ 8 ∷ 204 ∷ 59 ∷ 136 ∷ 8 ∷ 0 ∷ 0 ∷ 63 ∷ 16
        ∷ 63 ∷ 0 ∷ 99 ∷ 90 ∷ 70 ∷ 225 ∷ 0 ∷ 99 ∷ 90 ∷ 70 ∷ 225 ∷ 0 ∷ 0 ∷ [])
    ∷ (32 ∷ 32 ∷ 32 ∷ 252 ∷ 36 ∷ 38 ∷ 165 ∷ 44 ∷ 52 ∷ 36 ∷ 36 ∷ 252 ∷ 32 ∷ 32 ∷ 32 ∷ 0 ∷ 64 ∷ 66
        ∷ 125 ∷ 68 ∷ 68 ∷ 124 ∷ 68 ∷ 69 ∷ 68 ∷ 125 ∷ 70 ∷ 69 ∷ 124 ∷ 64 ∷ 64 ∷ 0 ∷ [])
    ∷ (0 ∷ 128 ∷ 96 ∷ 248 ∷ 7 ∷ 128 ∷ 64 ∷ 176 ∷ 142 ∷ 128 ∷ 128 ∷ 135 ∷ 152 ∷ 96 ∷ 128 ∷ 0 ∷ 1 ∷ 0
        ∷ 0 ∷ 255 ∷ 0 ∷ 128 ∷ 64 ∷ 48 ∷ 15 ∷ 0 ∷ 64 ∷ 128 ∷ 127 ∷ 0 ∷ 0 ∷ 0 ∷ [])
    ∷ (16 ∷ 12 ∷ 4 ∷ 36 ∷ 36 ∷ 36 ∷ 37 ∷ 38 ∷ 36 ∷ 36 ∷ 36 ∷ 36 ∷ 4 ∷ 20 ∷ 12 ∷ 0 ∷ 0 ∷ 129 ∷ 129
        ∷ 65 ∷ 49 ∷ 15 ∷ 1 ∷ 1 ∷ 1 ∷ 127 ∷ 129 ∷ 129 ∷ 129 ∷ 241 ∷ 0 ∷ 0 ∷ [])
    ∷ (16 ∷ 16 ∷ 16 ∷ 255 ∷ 144 ∷ 64 ∷ 16 ∷ 16 ∷ 240 ∷ 159 ∷ 144 ∷ 145 ∷ 150 ∷ 144 ∷ 16 ∷ 0 ∷ 2 ∷ 66
        ∷ 129 ∷ 127 ∷ 0 ∷ 64 ∷ 48 ∷ 143 ∷ 128 ∷ 67 ∷ 44 ∷ 16 ∷ 44 ∷ 67 ∷ 128 ∷ 0 ∷ [])
    ∷ (0 ∷ 0 ∷ 0 ∷ 252 ∷ 68 ∷ 68 ∷ 68 ∷ 69 ∷ 70 ∷ 68 ∷ 68 ∷ 68 ∷ 68 ∷ 124 ∷ 0 ∷ 0 ∷ 64 ∷ 32 ∷ 24 ∷ 7
        ∷ 0 ∷ 252 ∷ 68 ∷ 68 ∷ 68 ∷ 68 ∷ 68 ∷ 68 ∷ 68 ∷ 252 ∷ 0 ∷ 0 ∷ [])
    ∷ (0 ∷ 64 ∷ 66 ∷ 68 ∷ 88 ∷ 64 ∷ 64 ∷ 127 ∷ 64 ∷ 64 ∷ 80 ∷ 72 ∷ 198 ∷ 0 ∷ 0 ∷ 0 ∷ 0 ∷ 64 ∷ 68
        ∷ 68 ∷ 68 ∷ 68 ∷ 68 ∷ 68 ∷ 68 ∷ 68 ∷ 68 ∷ 68 ∷ 255 ∷ 0 ∷ 0 ∷ 0 ∷ [])
    ∷ (8 ∷ 8 ∷ 232 ∷ 41 ∷ 46 ∷ 40 ∷ 232 ∷ 8 ∷ 8 ∷ 200 ∷ 12 ∷ 11 ∷ 232 ∷ 8 ∷ 8 ∷ 0 ∷ 0 ∷ 0 ∷ 255 ∷ 9
        ∷ 73 ∷ 137 ∷ 127 ∷ 0 ∷ 0 ∷ 15 ∷ 64 ∷ 128 ∷ 127 ∷ 0 ∷ 0 ∷ 0 ∷ [])
    ∷ (66 ∷ 74 ∷ 210 ∷ 106 ∷ 70 ∷ 192 ∷ 0 ∷ 242 ∷ 18 ∷ 26 ∷ 214 ∷ 18 ∷ 18 ∷ 242 ∷ 2 ∷ 0 ∷ 64 ∷ 128
        ∷ 127 ∷ 0 ∷ 1 ∷ 0 ∷ 128 ∷ 79 ∷ 32 ∷ 24 ∷ 7 ∷ 16 ∷ 32 ∷ 79 ∷ 128 ∷ 0 ∷ [])
    ∷ (0 ∷ 0 ∷ 0 ∷ 127 ∷ 73 ∷ 73 ∷ 73 ∷ 73 ∷ 73 ∷ 73 ∷ 73 ∷ 127 ∷ 0 ∷ 0 ∷ 0 ∷ 0 ∷ 129 ∷ 65 ∷ 33 ∷ 29
        ∷ 33 ∷ 65 ∷ 129 ∷ 255 ∷ 137 ∷ 137 ∷ 137 ∷ 137 ∷ 137 ∷ 129 ∷ 129 ∷ 0 ∷ [])
    ∷ (0 ∷ 2 ∷ 130 ∷ 130 ∷ 66 ∷ 34 ∷ 18 ∷ 250 ∷ 6 ∷ 34 ∷ 34 ∷ 66 ∷ 66 ∷ 130 ∷ 0 ∷ 0 ∷ 1 ∷ 1 ∷ 0
        ∷ 252 ∷ 68 ∷ 68 ∷ 68 ∷ 69 ∷ 68 ∷ 68 ∷ 68 ∷ 252 ∷ 0 ∷ 0 ∷ 1 ∷ 0 ∷ [])
    ∷ []
