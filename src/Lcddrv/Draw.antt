-- ===== src/Lcddrv/Draw.antt =====
-- src/lcddrv.c: the drawing of characters. `char` is unsigned on the target. `none` is a read
-- outside the table of dots.
use concentrator.Common.{
  ℕ, zero, suc, ◌+◌, ◌-◌, ◌*◌, ◌/◌, ◌%◌, ◌^◌, Option, some, List, [], ◌++◌, ◌==◌, if◌then◌else◌,
  get_elem?, u8,
}
use concentrator.Common.Maybe.{◌>>=◌}
use concentrator.Lcddrv.Font.{ascii_dot}
use concentrator.Lcddrv.Hanzi.{gb_16}
use concentrator.Lcddrv.{
  lcd_clear, lcd_disp_buff_all_lcd, Lcd, Event, doc_c, doc_d, set_page, wdata, lcd_cmd_set_column,
}

-- `b | (mark_T & 0x01)`, and `b | mark_bb` with 0x80 for a mark at the bottom.
abbrev pub mark_top : (mark_t : ℕ) → ℕ → ℕ
mark_top mark_t b = if mark_t % 2 == 1 then b / 2 * 2 + 1 else b

abbrev pub mark_bottom : (mark_b : ℕ) → ℕ → ℕ
mark_bottom mark_b b = if mark_b == 0 then b else b / 256 * 256 + b % 128 + 128

-- The loops over `seg`, on the dots from `coden` on.
unfoldable pub write_dots :
    List ℕ → (coden left : ℕ) → (mark : ℕ → ℕ) → (disp_invert : ℕ) → Option (List Event)
write_dots dots coden zero mark disp_invert = some []
write_dots dots coden (suc left) mark disp_invert = do
  b ← get_elem? dots coden
  rest ← write_dots dots (coden + 1) left mark disp_invert
  some (wdata (mark b) disp_invert ++ rest)

-- An outer column of a character: a full bar where there is a mark, and else the dots.
unfoldable pub write_edge :
    List ℕ → (coden : ℕ) → (bar : ℕ) → (mark : ℕ → ℕ) → (disp_invert : ℕ) → Option (List Event)
write_edge dots coden bar mark disp_invert =
    if bar == 0 then write_dots dots coden 1 mark disp_invert else some (wdata 255 0)

-- Either half of `lcdwritechar`.
unfoldable pub write_half :
    Lcd
    → List ℕ
    → (coden y x_pos : ℕ) → (mark : ℕ → ℕ) → (disp_invert mark_l mark_r : ℕ) → Option (List Event)
write_half lcd dots coden y x_pos mark disp_invert mark_l mark_r = do
  l ← write_edge dots coden mark_l mark disp_invert
  m ← write_dots dots (coden + 1) 6 mark disp_invert
  r ← write_edge dots (coden + 7) mark_r mark disp_invert
  some (
      doc_c
      ++ (set_page y
          ++ (lcd_cmd_set_column lcd.data_d7_d0 (u8 x_pos) ++ (doc_d ++ (l ++ (m ++ r))))))

unfoldable pub lcdwritechar :
    Lcd
    → (n_ascii_dot : List ℕ) → (codenum y x disp_invert mark_l mark_r mark_t mark_b : ℕ)
    → Option (List Event)
lcdwritechar lcd n_ascii_dot codenum y x disp_invert mark_l mark_r mark_t mark_b = do
  let coden = u8 (codenum + 2 ^ 8 - 32) * 16
  upper ← write_half lcd n_ascii_dot coden y (x * 8) (mark_top mark_t) disp_invert mark_l mark_r
  lower ←
      write_half lcd n_ascii_dot (coden + 8) (y + 1) (x * 8) (mark_bottom mark_b) disp_invert mark_l
        mark_r
  some (upper ++ lower)

-- Only the marks at the sides are drawn: the dots of the digits are commented out.
unfoldable pub lcdwritechar8x8 : Lcd → (y x mark_l mark_r : ℕ) → List Event
lcdwritechar8x8 lcd y x mark_l mark_r =
    doc_c
    ++ (set_page y
        ++ (lcd_cmd_set_column lcd.data_d7_d0 (u8 (x * 8))
            ++ (doc_d
                ++ ((if mark_l == 0 then [] else wdata 255 0)
                    ++ (if mark_r == 0 then [] else wdata 255 0)))))

-- Either half of `lcdwritehz`.
unfoldable pub write_hz_half :
    Lcd → (msk : List ℕ) → (coden y x_pos disp_invert : ℕ) → Option (List Event)
write_hz_half lcd msk coden y x_pos disp_invert = do
  dots ← write_dots msk coden 16 (λ b. b) disp_invert
  some (doc_c ++ (set_page y ++ (lcd_cmd_set_column lcd.data_d7_d0 (u8 x_pos) ++ (doc_d ++ dots))))

unfoldable pub lcdwritehz :
    Lcd → (gb_16 : List (List ℕ)) → (hznum y x disp_invert : ℕ) → Option (List Event)
lcdwritehz lcd gb_16 hznum y x disp_invert = do
  msk ← get_elem? gb_16 hznum
  upper ← write_hz_half lcd msk 0 y (x * 16) disp_invert
  lower ← write_hz_half lcd msk 16 (y + 1) (x * 16) disp_invert
  some (upper ++ lower)

-- The loops of `Lcd_test`: characters and columns that both count up.
unfoldable pub write_chars : Lcd → List ℕ → (codenum y x left : ℕ) → Option (List Event)
write_chars lcd n_ascii_dot codenum y x zero = some []
write_chars lcd n_ascii_dot codenum y x (suc left) = do
  es ← lcdwritechar lcd n_ascii_dot codenum y x 0 0 0 0 0
  rest ← write_chars lcd n_ascii_dot (codenum + 1) y (x + 1) left
  some (es ++ rest)

unfoldable pub write_hzs : Lcd → List (List ℕ) → (hznum y x left : ℕ) → Option (List Event)
write_hzs lcd msks hznum y x zero = some []
write_hzs lcd msks hznum y x (suc left) = do
  es ← lcdwritehz lcd msks hznum y x 0
  rest ← write_hzs lcd msks (hznum + 1) y (x + 1) left
  some (es ++ rest)

unfoldable pub write_digits8x8 : Lcd → (y x left : ℕ) → List Event
write_digits8x8 lcd y x zero = []
write_digits8x8 lcd y x (suc left) =
    lcdwritechar8x8 lcd y x 0 0 ++ write_digits8x8 lcd y (x + 1) left

unfoldable pub lcd_test : Lcd → Option (Lcd × List Event)
lcd_test lcd = do
  let picture = lcd_disp_buff_all_lcd lcd
  letters ← write_chars lcd ascii_dot 65 0 0 16
  digits ← write_chars lcd ascii_dot 48 2 0 10
  hzs ← write_hzs lcd gb_16 0 4 0 8
  some (
    picture.0,
    lcd_clear lcd
        ++ (picture.1
            ++ (lcd_clear lcd
                ++ (letters
                    ++ (digits
                        ++ (hzs ++ (write_digits8x8 lcd 6 0 10 ++ write_digits8x8 lcd 7 0 10)))))),
  )
