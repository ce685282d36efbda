-- ===== src/Lcddrv/Font.antt =====
-- src/bdk_font.h: the dots of the characters 0x20 to 0x85, 16 bytes for each.
use concentrator.Common.{ℕ, List, [], ◌∷◌}

abbrev pub ascii_dot : List ℕ
ascii_dot =
    0 ∷ 0 ∷ 0 ∷ 0 ∷ 0 ∷ 0 ∷ 0 ∷ 0 ∷ 0 ∷ 0 ∷ 0 ∷ 0 ∷ 0 ∷ 0 ∷ 0 ∷ 0 ∷ 0 ∷ 0 ∷ 56 ∷ 252 ∷ 252 ∷ 56 ∷ 0
    ∷ 0 ∷ 0 ∷ 0 ∷ 0 ∷ 13 ∷ 13 ∷ 0 ∷ 0 ∷ 0 ∷ 0 ∷ 14 ∷ 30 ∷ 0 ∷ 0 ∷ 30 ∷ 14 ∷ 0 ∷ 0 ∷ 0 ∷ 0 ∷ 0 ∷ 0
    ∷ 0 ∷ 0 ∷ 0 ∷ 32 ∷ 248 ∷ 248 ∷ 32 ∷ 248 ∷ 248 ∷ 32 ∷ 0 ∷ 2 ∷ 15 ∷ 15 ∷ 2 ∷ 15 ∷ 15 ∷ 2 ∷ 0 ∷ 56
    ∷ 124 ∷ 68 ∷ 71 ∷ 71 ∷ 204 ∷ 152 ∷ 0 ∷ 3 ∷ 6 ∷ 4 ∷ 28 ∷ 28 ∷ 7 ∷ 3 ∷ 0 ∷ 240 ∷ 8 ∷ 240 ∷ 0 ∷ 224
    ∷ 24 ∷ 0 ∷ 0 ∷ 0 ∷ 33 ∷ 28 ∷ 3 ∷ 30 ∷ 33 ∷ 30 ∷ 0 ∷ 128 ∷ 216 ∷ 124 ∷ 228 ∷ 188 ∷ 216 ∷ 64 ∷ 0
    ∷ 7 ∷ 15 ∷ 8 ∷ 8 ∷ 7 ∷ 15 ∷ 8 ∷ 0 ∷ 0 ∷ 16 ∷ 30 ∷ 14 ∷ 0 ∷ 0 ∷ 0 ∷ 0 ∷ 0 ∷ 0 ∷ 0 ∷ 0 ∷ 0 ∷ 0 ∷ 0
    ∷ 0 ∷ 0 ∷ 0 ∷ 240 ∷ 248 ∷ 12 ∷ 4 ∷ 0 ∷ 0 ∷ 0 ∷ 0 ∷ 3 ∷ 7 ∷ 12 ∷ 8 ∷ 0 ∷ 0 ∷ 0 ∷ 0 ∷ 4 ∷ 12 ∷ 248
    ∷ 240 ∷ 0 ∷ 0 ∷ 0 ∷ 0 ∷ 8 ∷ 12 ∷ 7 ∷ 3 ∷ 0 ∷ 0 ∷ 128 ∷ 160 ∷ 224 ∷ 192 ∷ 192 ∷ 224 ∷ 160 ∷ 128
    ∷ 0 ∷ 2 ∷ 3 ∷ 1 ∷ 1 ∷ 3 ∷ 2 ∷ 0 ∷ 0 ∷ 128 ∷ 128 ∷ 224 ∷ 224 ∷ 128 ∷ 128 ∷ 0 ∷ 0 ∷ 0 ∷ 0 ∷ 3 ∷ 3
    ∷ 0 ∷ 0 ∷ 0 ∷ 0 ∷ 0 ∷ 0 ∷ 0 ∷ 0 ∷ 0 ∷ 0 ∷ 0 ∷ 0 ∷ 0 ∷ 16 ∷ 30 ∷ 14 ∷ 0 ∷ 0 ∷ 0 ∷ 128 ∷ 128 ∷ 128
    ∷ 128 ∷ 128 ∷ 128 ∷ 128 ∷ 0 ∷ 0 ∷ 0 ∷ 0 ∷ 0 ∷ 0 ∷ 0 ∷ 0 ∷ 0 ∷ 0 ∷ 0 ∷ 0 ∷ 0 ∷ 0 ∷ 0 ∷ 0 ∷ 0 ∷ 0
    ∷ 0 ∷ 0 ∷ 12 ∷ 12 ∷ 0 ∷ 0 ∷ 0 ∷ 0 ∷ 0 ∷ 0 ∷ 128 ∷ 192 ∷ 96 ∷ 48 ∷ 0 ∷ 12 ∷ 6 ∷ 3 ∷ 1 ∷ 0 ∷ 0 ∷ 0
    ∷ 0 ∷ 248 ∷ 252 ∷ 4 ∷ 196 ∷ 36 ∷ 252 ∷ 248 ∷ 0 ∷ 7 ∷ 15 ∷ 9 ∷ 8 ∷ 8 ∷ 15 ∷ 7 ∷ 0 ∷ 0 ∷ 16 ∷ 24
    ∷ 252 ∷ 252 ∷ 0 ∷ 0 ∷ 0 ∷ 0 ∷ 8 ∷ 8 ∷ 15 ∷ 15 ∷ 8 ∷ 8 ∷ 0 ∷ 8 ∷ 12 ∷ 132 ∷ 196 ∷ 100 ∷ 60 ∷ 24
    ∷ 0 ∷ 14 ∷ 15 ∷ 9 ∷ 8 ∷ 8 ∷ 12 ∷ 12 ∷ 0 ∷ 8 ∷ 12 ∷ 68 ∷ 68 ∷ 68 ∷ 252 ∷ 184 ∷ 0 ∷ 4 ∷ 12 ∷ 8 ∷ 8
    ∷ 8 ∷ 15 ∷ 7 ∷ 0 ∷ 192 ∷ 224 ∷ 176 ∷ 152 ∷ 252 ∷ 252 ∷ 128 ∷ 0 ∷ 0 ∷ 0 ∷ 0 ∷ 8 ∷ 15 ∷ 15 ∷ 8 ∷ 0
    ∷ 124 ∷ 124 ∷ 68 ∷ 68 ∷ 196 ∷ 196 ∷ 132 ∷ 0 ∷ 4 ∷ 12 ∷ 8 ∷ 8 ∷ 8 ∷ 15 ∷ 7 ∷ 0 ∷ 240 ∷ 248 ∷ 76
    ∷ 68 ∷ 68 ∷ 192 ∷ 128 ∷ 0 ∷ 7 ∷ 15 ∷ 8 ∷ 8 ∷ 8 ∷ 15 ∷ 7 ∷ 0 ∷ 12 ∷ 12 ∷ 4 ∷ 132 ∷ 196 ∷ 124 ∷ 60
    ∷ 0 ∷ 0 ∷ 0 ∷ 15 ∷ 15 ∷ 0 ∷ 0 ∷ 0 ∷ 0 ∷ 184 ∷ 252 ∷ 68 ∷ 68 ∷ 68 ∷ 252 ∷ 184 ∷ 0 ∷ 7 ∷ 15 ∷ 8
    ∷ 8 ∷ 8 ∷ 15 ∷ 7 ∷ 0 ∷ 56 ∷ 124 ∷ 68 ∷ 68 ∷ 68 ∷ 252 ∷ 248 ∷ 0 ∷ 0 ∷ 8 ∷ 8 ∷ 8 ∷ 12 ∷ 7 ∷ 3 ∷ 0
    ∷ 0 ∷ 0 ∷ 0 ∷ 48 ∷ 48 ∷ 0 ∷ 0 ∷ 0 ∷ 0 ∷ 0 ∷ 0 ∷ 6 ∷ 6 ∷ 0 ∷ 0 ∷ 0 ∷ 0 ∷ 0 ∷ 0 ∷ 48 ∷ 48 ∷ 0 ∷ 0
    ∷ 0 ∷ 0 ∷ 0 ∷ 8 ∷ 14 ∷ 6 ∷ 0 ∷ 0 ∷ 0 ∷ 0 ∷ 128 ∷ 192 ∷ 96 ∷ 48 ∷ 24 ∷ 8 ∷ 0 ∷ 0 ∷ 0 ∷ 1 ∷ 3 ∷ 6
    ∷ 12 ∷ 8 ∷ 0 ∷ 64 ∷ 64 ∷ 64 ∷ 64 ∷ 64 ∷ 64 ∷ 64 ∷ 0 ∷ 2 ∷ 2 ∷ 2 ∷ 2 ∷ 2 ∷ 2 ∷ 2 ∷ 0 ∷ 0 ∷ 8 ∷ 24
    ∷ 48 ∷ 96 ∷ 192 ∷ 128 ∷ 0 ∷ 0 ∷ 8 ∷ 12 ∷ 6 ∷ 3 ∷ 1 ∷ 0 ∷ 0 ∷ 24 ∷ 28 ∷ 4 ∷ 196 ∷ 228 ∷ 60 ∷ 24
    ∷ 0 ∷ 0 ∷ 0 ∷ 0 ∷ 13 ∷ 13 ∷ 0 ∷ 0 ∷ 0 ∷ 131 ∷ 134 ∷ 204 ∷ 120 ∷ 176 ∷ 96 ∷ 192 ∷ 128 ∷ 193 ∷ 97
    ∷ 51 ∷ 30 ∷ 13 ∷ 6 ∷ 3 ∷ 1 ∷ 224 ∷ 240 ∷ 152 ∷ 140 ∷ 152 ∷ 240 ∷ 224 ∷ 0 ∷ 15 ∷ 15 ∷ 0 ∷ 0 ∷ 0
    ∷ 15 ∷ 15 ∷ 0 ∷ 4 ∷ 252 ∷ 252 ∷ 68 ∷ 68 ∷ 252 ∷ 184 ∷ 0 ∷ 8 ∷ 15 ∷ 15 ∷ 8 ∷ 8 ∷ 15 ∷ 7 ∷ 0 ∷ 240
    ∷ 248 ∷ 12 ∷ 4 ∷ 4 ∷ 12 ∷ 24 ∷ 0 ∷ 3 ∷ 7 ∷ 12 ∷ 8 ∷ 8 ∷ 12 ∷ 6 ∷ 0 ∷ 4 ∷ 252 ∷ 252 ∷ 4 ∷ 12
    ∷ 248 ∷ 240 ∷ 0 ∷ 8 ∷ 15 ∷ 15 ∷ 8 ∷ 12 ∷ 7 ∷ 3 ∷ 0 ∷ 4 ∷ 252 ∷ 252 ∷ 68 ∷ 228 ∷ 12 ∷ 28 ∷ 0 ∷ 8
    ∷ 15 ∷ 15 ∷ 8 ∷ 8 ∷ 12 ∷ 14 ∷ 0 ∷ 4 ∷ 252 ∷ 252 ∷ 68 ∷ 228 ∷ 12 ∷ 28 ∷ 0 ∷ 8 ∷ 15 ∷ 15 ∷ 8 ∷ 0
    ∷ 0 ∷ 0 ∷ 0 ∷ 240 ∷ 248 ∷ 12 ∷ 132 ∷ 132 ∷ 140 ∷ 152 ∷ 0 ∷ 3 ∷ 7 ∷ 12 ∷ 8 ∷ 8 ∷ 7 ∷ 15 ∷ 0 ∷ 252
    ∷ 252 ∷ 64 ∷ 64 ∷ 64 ∷ 252 ∷ 252 ∷ 0 ∷ 15 ∷ 15 ∷ 0 ∷ 0 ∷ 0 ∷ 15 ∷ 15 ∷ 0 ∷ 0 ∷ 0 ∷ 4 ∷ 252 ∷ 252
    ∷ 4 ∷ 0 ∷ 0 ∷ 0 ∷ 0 ∷ 8 ∷ 15 ∷ 15 ∷ 8 ∷ 0 ∷ 0 ∷ 0 ∷ 0 ∷ 0 ∷ 4 ∷ 252 ∷ 252 ∷ 4 ∷ 0 ∷ 7 ∷ 15 ∷ 8
    ∷ 8 ∷ 15 ∷ 7 ∷ 0 ∷ 0 ∷ 4 ∷ 252 ∷ 252 ∷ 192 ∷ 240 ∷ 60 ∷ 12 ∷ 0 ∷ 8 ∷ 15 ∷ 15 ∷ 0 ∷ 1 ∷ 15 ∷ 14
    ∷ 0 ∷ 4 ∷ 252 ∷ 252 ∷ 4 ∷ 0 ∷ 0 ∷ 0 ∷ 0 ∷ 8 ∷ 15 ∷ 15 ∷ 8 ∷ 8 ∷ 12 ∷ 14 ∷ 0 ∷ 252 ∷ 252 ∷ 56
    ∷ 112 ∷ 56 ∷ 252 ∷ 252 ∷ 0 ∷ 15 ∷ 15 ∷ 0 ∷ 0 ∷ 0 ∷ 15 ∷ 15 ∷ 0 ∷ 252 ∷ 252 ∷ 56 ∷ 112 ∷ 224
    ∷ 252 ∷ 252 ∷ 0 ∷ 15 ∷ 15 ∷ 0 ∷ 0 ∷ 0 ∷ 15 ∷ 15 ∷ 0 ∷ 240 ∷ 248 ∷ 12 ∷ 4 ∷ 12 ∷ 248 ∷ 240 ∷ 0
    ∷ 3 ∷ 7 ∷ 12 ∷ 8 ∷ 12 ∷ 7 ∷ 3 ∷ 0 ∷ 4 ∷ 252 ∷ 252 ∷ 68 ∷ 68 ∷ 124 ∷ 56 ∷ 0 ∷ 8 ∷ 15 ∷ 15 ∷ 8 ∷ 0
    ∷ 0 ∷ 0 ∷ 0 ∷ 248 ∷ 252 ∷ 4 ∷ 4 ∷ 4 ∷ 252 ∷ 248 ∷ 0 ∷ 7 ∷ 15 ∷ 8 ∷ 14 ∷ 60 ∷ 63 ∷ 39 ∷ 0 ∷ 4
    ∷ 252 ∷ 252 ∷ 68 ∷ 196 ∷ 252 ∷ 56 ∷ 0 ∷ 8 ∷ 15 ∷ 15 ∷ 0 ∷ 0 ∷ 15 ∷ 15 ∷ 0 ∷ 24 ∷ 60 ∷ 100 ∷ 68
    ∷ 196 ∷ 156 ∷ 24 ∷ 0 ∷ 6 ∷ 14 ∷ 8 ∷ 8 ∷ 8 ∷ 15 ∷ 7 ∷ 0 ∷ 0 ∷ 28 ∷ 12 ∷ 252 ∷ 252 ∷ 12 ∷ 28 ∷ 0
    ∷ 0 ∷ 0 ∷ 8 ∷ 15 ∷ 15 ∷ 8 ∷ 0 ∷ 0 ∷ 252 ∷ 252 ∷ 0 ∷ 0 ∷ 0 ∷ 252 ∷ 252 ∷ 0 ∷ 7 ∷ 15 ∷ 8 ∷ 8 ∷ 8
    ∷ 15 ∷ 7 ∷ 0 ∷ 252 ∷ 252 ∷ 0 ∷ 0 ∷ 0 ∷ 252 ∷ 252 ∷ 0 ∷ 1 ∷ 3 ∷ 6 ∷ 12 ∷ 6 ∷ 3 ∷ 1 ∷ 0 ∷ 252
    ∷ 252 ∷ 0 ∷ 128 ∷ 0 ∷ 252 ∷ 252 ∷ 0 ∷ 3 ∷ 15 ∷ 14 ∷ 3 ∷ 14 ∷ 15 ∷ 3 ∷ 0 ∷ 12 ∷ 60 ∷ 240 ∷ 192
    ∷ 240 ∷ 60 ∷ 12 ∷ 0 ∷ 12 ∷ 15 ∷ 3 ∷ 0 ∷ 3 ∷ 15 ∷ 12 ∷ 0 ∷ 0 ∷ 60 ∷ 124 ∷ 192 ∷ 192 ∷ 124 ∷ 60
    ∷ 0 ∷ 0 ∷ 0 ∷ 8 ∷ 15 ∷ 15 ∷ 8 ∷ 0 ∷ 0 ∷ 28 ∷ 12 ∷ 132 ∷ 196 ∷ 100 ∷ 60 ∷ 28 ∷ 0 ∷ 14 ∷ 15 ∷ 9
    ∷ 8 ∷ 8 ∷ 12 ∷ 14 ∷ 0 ∷ 0 ∷ 0 ∷ 252 ∷ 252 ∷ 4 ∷ 4 ∷ 0 ∷ 0 ∷ 0 ∷ 0 ∷ 15 ∷ 15 ∷ 8 ∷ 8 ∷ 0 ∷ 0 ∷ 56
    ∷ 112 ∷ 224 ∷ 192 ∷ 128 ∷ 0 ∷ 0 ∷ 0 ∷ 0 ∷ 0 ∷ 0 ∷ 1 ∷ 3 ∷ 7 ∷ 14 ∷ 0 ∷ 0 ∷ 0 ∷ 4 ∷ 4 ∷ 252 ∷ 252
    ∷ 0 ∷ 0 ∷ 0 ∷ 0 ∷ 8 ∷ 8 ∷ 15 ∷ 15 ∷ 0 ∷ 0 ∷ 8 ∷ 12 ∷ 6 ∷ 3 ∷ 6 ∷ 12 ∷ 8 ∷ 0 ∷ 0 ∷ 0 ∷ 0 ∷ 0 ∷ 0
    ∷ 0 ∷ 0 ∷ 0 ∷ 0 ∷ 0 ∷ 0 ∷ 0 ∷ 0 ∷ 0 ∷ 0 ∷ 0 ∷ 32 ∷ 32 ∷ 32 ∷ 32 ∷ 32 ∷ 32 ∷ 32 ∷ 32 ∷ 0 ∷ 0 ∷ 3
    ∷ 7 ∷ 4 ∷ 0 ∷ 0 ∷ 0 ∷ 0 ∷ 0 ∷ 0 ∷ 0 ∷ 0 ∷ 0 ∷ 0 ∷ 0 ∷ 0 ∷ 160 ∷ 160 ∷ 160 ∷ 224 ∷ 192 ∷ 0 ∷ 0
    ∷ 7 ∷ 15 ∷ 8 ∷ 8 ∷ 7 ∷ 15 ∷ 8 ∷ 0 ∷ 4 ∷ 252 ∷ 252 ∷ 32 ∷ 96 ∷ 192 ∷ 128 ∷ 0 ∷ 8 ∷ 15 ∷ 7 ∷ 8 ∷ 8
    ∷ 15 ∷ 7 ∷ 0 ∷ 192 ∷ 224 ∷ 32 ∷ 32 ∷ 32 ∷ 96 ∷ 64 ∷ 0 ∷ 7 ∷ 15 ∷ 8 ∷ 8 ∷ 8 ∷ 12 ∷ 4 ∷ 0 ∷ 128
    ∷ 192 ∷ 96 ∷ 36 ∷ 252 ∷ 252 ∷ 0 ∷ 0 ∷ 7 ∷ 15 ∷ 8 ∷ 8 ∷ 7 ∷ 15 ∷ 8 ∷ 0 ∷ 192 ∷ 224 ∷ 160 ∷ 160
    ∷ 160 ∷ 224 ∷ 192 ∷ 0 ∷ 7 ∷ 15 ∷ 8 ∷ 8 ∷ 8 ∷ 12 ∷ 4 ∷ 0 ∷ 64 ∷ 248 ∷ 252 ∷ 68 ∷ 12 ∷ 24 ∷ 0 ∷ 0
    ∷ 8 ∷ 15 ∷ 15 ∷ 8 ∷ 0 ∷ 0 ∷ 0 ∷ 0 ∷ 192 ∷ 224 ∷ 32 ∷ 32 ∷ 192 ∷ 224 ∷ 32 ∷ 0 ∷ 39 ∷ 111 ∷ 72
    ∷ 72 ∷ 127 ∷ 63 ∷ 0 ∷ 0 ∷ 4 ∷ 252 ∷ 252 ∷ 64 ∷ 32 ∷ 224 ∷ 192 ∷ 0 ∷ 8 ∷ 15 ∷ 15 ∷ 0 ∷ 0 ∷ 15
    ∷ 15 ∷ 0 ∷ 0 ∷ 0 ∷ 32 ∷ 236 ∷ 236 ∷ 0 ∷ 0 ∷ 0 ∷ 0 ∷ 0 ∷ 8 ∷ 15 ∷ 15 ∷ 8 ∷ 0 ∷ 0 ∷ 0 ∷ 0 ∷ 0 ∷ 0
    ∷ 32 ∷ 236 ∷ 236 ∷ 0 ∷ 0 ∷ 48 ∷ 112 ∷ 64 ∷ 64 ∷ 127 ∷ 63 ∷ 0 ∷ 4 ∷ 252 ∷ 252 ∷ 128 ∷ 192 ∷ 96
    ∷ 32 ∷ 0 ∷ 8 ∷ 15 ∷ 15 ∷ 1 ∷ 3 ∷ 14 ∷ 12 ∷ 0 ∷ 0 ∷ 0 ∷ 4 ∷ 252 ∷ 252 ∷ 0 ∷ 0 ∷ 0 ∷ 0 ∷ 0 ∷ 8
    ∷ 15 ∷ 15 ∷ 8 ∷ 0 ∷ 0 ∷ 224 ∷ 224 ∷ 96 ∷ 192 ∷ 96 ∷ 224 ∷ 192 ∷ 0 ∷ 15 ∷ 15 ∷ 0 ∷ 15 ∷ 0 ∷ 15
    ∷ 15 ∷ 0 ∷ 32 ∷ 224 ∷ 192 ∷ 32 ∷ 32 ∷ 224 ∷ 192 ∷ 0 ∷ 0 ∷ 15 ∷ 15 ∷ 0 ∷ 0 ∷ 15 ∷ 15 ∷ 0 ∷ 192
    ∷ 224 ∷ 32 ∷ 32 ∷ 32 ∷ 224 ∷ 192 ∷ 0 ∷ 7 ∷ 15 ∷ 8 ∷ 8 ∷ 8 ∷ 15 ∷ 7 ∷ 0 ∷ 32 ∷ 224 ∷ 192 ∷ 32
    ∷ 32 ∷ 224 ∷ 192 ∷ 0 ∷ 64 ∷ 127 ∷ 127 ∷ 72 ∷ 8 ∷ 15 ∷ 7 ∷ 0 ∷ 192 ∷ 224 ∷ 32 ∷ 32 ∷ 192 ∷ 224
    ∷ 32 ∷ 0 ∷ 7 ∷ 15 ∷ 8 ∷ 72 ∷ 127 ∷ 127 ∷ 64 ∷ 0 ∷ 32 ∷ 224 ∷ 192 ∷ 96 ∷ 32 ∷ 96 ∷ 192 ∷ 0 ∷ 8
    ∷ 15 ∷ 15 ∷ 8 ∷ 0 ∷ 0 ∷ 0 ∷ 0 ∷ 64 ∷ 224 ∷ 160 ∷ 32 ∷ 32 ∷ 96 ∷ 64 ∷ 0 ∷ 4 ∷ 12 ∷ 9 ∷ 9 ∷ 11
    ∷ 14 ∷ 4 ∷ 0 ∷ 32 ∷ 32 ∷ 248 ∷ 252 ∷ 32 ∷ 32 ∷ 0 ∷ 0 ∷ 0 ∷ 0 ∷ 7 ∷ 15 ∷ 8 ∷ 12 ∷ 4 ∷ 0 ∷ 224
    ∷ 224 ∷ 0 ∷ 0 ∷ 224 ∷ 224 ∷ 0 ∷ 0 ∷ 7 ∷ 15 ∷ 8 ∷ 8 ∷ 7 ∷ 15 ∷ 8 ∷ 0 ∷ 0 ∷ 224 ∷ 224 ∷ 0 ∷ 0
    ∷ 224 ∷ 224 ∷ 0 ∷ 0 ∷ 3 ∷ 7 ∷ 12 ∷ 12 ∷ 7 ∷ 3 ∷ 0 ∷ 224 ∷ 224 ∷ 0 ∷ 0 ∷ 0 ∷ 224 ∷ 224 ∷ 0 ∷ 7
    ∷ 15 ∷ 12 ∷ 7 ∷ 12 ∷ 15 ∷ 7 ∷ 0 ∷ 32 ∷ 96 ∷ 192 ∷ 128 ∷ 192 ∷ 96 ∷ 32 ∷ 0 ∷ 8 ∷ 12 ∷ 7 ∷ 3 ∷ 7
    ∷ 12 ∷ 8 ∷ 0 ∷ 224 ∷ 224 ∷ 0 ∷ 0 ∷ 0 ∷ 224 ∷ 224 ∷ 0 ∷ 71 ∷ 79 ∷ 72 ∷ 72 ∷ 104 ∷ 63 ∷ 31 ∷ 0
    ∷ 96 ∷ 96 ∷ 32 ∷ 160 ∷ 224 ∷ 96 ∷ 32 ∷ 0 ∷ 12 ∷ 14 ∷ 11 ∷ 9 ∷ 8 ∷ 12 ∷ 12 ∷ 0 ∷ 0 ∷ 64 ∷ 64
    ∷ 248 ∷ 188 ∷ 4 ∷ 4 ∷ 0 ∷ 0 ∷ 0 ∷ 0 ∷ 7 ∷ 15 ∷ 8 ∷ 8 ∷ 0 ∷ 0 ∷ 0 ∷ 0 ∷ 188 ∷ 188 ∷ 0 ∷ 0 ∷ 0 ∷ 0
    ∷ 0 ∷ 0 ∷ 15 ∷ 15 ∷ 0 ∷ 0 ∷ 0 ∷ 0 ∷ 4 ∷ 4 ∷ 188 ∷ 248 ∷ 64 ∷ 64 ∷ 0 ∷ 0 ∷ 8 ∷ 8 ∷ 15 ∷ 7 ∷ 0 ∷ 0
    ∷ 0 ∷ 8 ∷ 12 ∷ 4 ∷ 12 ∷ 8 ∷ 12 ∷ 4 ∷ 0 ∷ 0 ∷ 0 ∷ 0 ∷ 0 ∷ 0 ∷ 0 ∷ 0 ∷ 0 ∷ 128 ∷ 192 ∷ 96 ∷ 48
    ∷ 96 ∷ 192 ∷ 128 ∷ 0 ∷ 7 ∷ 7 ∷ 4 ∷ 4 ∷ 4 ∷ 7 ∷ 7 ∷ 0 ∷ 255 ∷ 255 ∷ 255 ∷ 255 ∷ 255 ∷ 255 ∷ 255
    ∷ 255 ∷ 255 ∷ 255 ∷ 255 ∷ 255 ∷ 255 ∷ 255 ∷ 255 ∷ 255 ∷ 1 ∷ 1 ∷ 1 ∷ 1 ∷ 1 ∷ 1 ∷ 1 ∷ 1 ∷ 128
    ∷ 128 ∷ 128 ∷ 128 ∷ 128 ∷ 128 ∷ 128 ∷ 128 ∷ 1 ∷ 1 ∷ 1 ∷ 1 ∷ 1 ∷ 1 ∷ 1 ∷ 1 ∷ 128 ∷ 184 ∷ 184
    ∷ 128 ∷ 128 ∷ 128 ∷ 128 ∷ 128 ∷ 1 ∷ 1 ∷ 1 ∷ 1 ∷ 1 ∷ 1 ∷ 1 ∷ 1 ∷ 128 ∷ 184 ∷ 184 ∷ 128 ∷ 128
    ∷ 190 ∷ 190 ∷ 128 ∷ 1 ∷ 129 ∷ 129 ∷ 1 ∷ 1 ∷ 1 ∷ 1 ∷ 1 ∷ 128 ∷ 191 ∷ 191 ∷ 128 ∷ 128 ∷ 128 ∷ 128
    ∷ 128 ∷ 1 ∷ 129 ∷ 129 ∷ 1 ∷ 1 ∷ 241 ∷ 241 ∷ 1 ∷ 128 ∷ 191 ∷ 191 ∷ 128 ∷ 128 ∷ 191 ∷ 191 ∷ 128
    ∷ []
