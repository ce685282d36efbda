-- ===== src/Lcddrv/Tables.antt =====
-- src/lcddrv.c: the drawing stays within the tables of dots.
use concentrator.Common.{
  ℕ, zero, suc, ◌+◌, ◌-◌, ◌*◌, ◌^◌, Bool, true, some, List, [], ◌∷◌, ◌++◌, ◌==◌, get_elem?,
  get_elem?-eq-get_or, get_or, length, Bool-cases, inl, inr, ◌≤◌, ◌<◌, ◌≡◌, refl, ◌&&◌, arith, u8,
}
use concentrator.Lcddrv.Font.{ascii_dot}
use concentrator.Lcddrv.Hanzi.{gb_16}
use concentrator.Lcddrv.Draw.{
  mark_top, mark_bottom, write_dots, write_edge, write_half, lcdwritechar, write_hz_half,
  lcdwritehz, write_chars, write_hzs, write_digits8x8, lcd_test,
}
use concentrator.Lcddrv.{
  lcd_clear, lcd_disp_buff_all_lcd, Lcd, Event, doc_c, doc_d, set_page, wdata, lcd_cmd_set_column,
}

-- Reading dots within the table gives bytes.
write_dots-total :
    (dots : List ℕ) (coden left : ℕ) (mark : ℕ → ℕ) (disp_invert : ℕ)
    → coden + left ≤ length dots
    → (es : List Event) × (write_dots dots coden left mark disp_invert ≡ some es)
unfolding write_dots
write_dots-total dots coden zero mark disp_invert h = ([], refl)
write_dots-total dots coden (suc left) mark disp_invert h =
    let (es, e) = write_dots-total dots (coden + 1) left mark disp_invert (omega arith) in
    (
      wdata (mark (get_or dots coden 0)) disp_invert ++ es,
      rw (get_elem?-eq-get_or dots coden 0 (omega arith), e) refl,
    )

write_edge-total :
    (dots : List ℕ) (coden bar : ℕ) (mark : ℕ → ℕ) (disp_invert : ℕ)
    → coden + 1 ≤ length dots
    → (es : List Event) × (write_edge dots coden bar mark disp_invert ≡ some es)
unfolding write_edge
write_edge-total dots coden bar mark disp_invert h = elim (Bool-cases (bar == 0)) [
  | inl e ↦ let (es, p) = write_dots-total dots coden 1 mark disp_invert h in (es, rw e p)
  | inr e ↦ (wdata 255 0, rw e refl)
]

write_half-total :
    (lcd : Lcd) (dots : List ℕ) (coden y x_pos : ℕ) (mark : ℕ → ℕ) (disp_invert mark_l mark_r : ℕ)
    → coden + 8 ≤ length dots
    → (es : List Event) × (write_half lcd dots coden y x_pos mark disp_invert mark_l mark_r
        ≡ some es)
unfolding write_half
write_half-total lcd dots coden y x_pos mark disp_invert mark_l mark_r h =
    let (l, el) = write_edge-total dots coden mark_l mark disp_invert (omega arith) in
    let (m, em) = write_dots-total dots (coden + 1) 6 mark disp_invert (omega arith) in
    let (r, er) = write_edge-total dots (coden + 7) mark_r mark disp_invert (omega arith) in
    (
      doc_c
          ++ (set_page y
              ++ (lcd_cmd_set_column lcd.data_d7_d0 (u8 x_pos) ++ (doc_d ++ (l ++ (m ++ r))))),
      rw (el, em, er) refl,
    )

-- On the program's table the codes 0x20 to 0x85 are drawn, at every place and with all marks: no dot
-- is read outside the table.
pub lcdwritechar-total :
    (lcd : Lcd) (codenum y x disp_invert mark_l mark_r mark_t mark_b : ℕ)
    → 32 ≤ codenum
    → codenum < 134
    → (es : List Event) × (lcdwritechar lcd ascii_dot codenum y x disp_invert mark_l mark_r mark_t
          mark_b
        ≡ some es)
unfolding lcdwritechar
lcdwritechar-total lcd codenum y x disp_invert mark_l mark_r mark_t mark_b lo hi =
    let coden = u8 (codenum + 2 ^ 8 - 32) * 16 in
    let size : length ascii_dot ≡ 1632 = refl in
    let room : coden + 16 ≤ length ascii_dot = omega (arith, size) in
    let (u, eu) =
      write_half-total lcd ascii_dot coden y (x * 8) (mark_top mark_t) disp_invert mark_l mark_r
        (omega arith) in
    let (l, el) =
      write_half-total lcd ascii_dot (coden + 8) (y + 1) (x * 8) (mark_bottom mark_b) disp_invert
        mark_l mark_r (omega arith) in
    (u ++ l, rw (eu, el) refl)

write_hz_half-total :
    (lcd : Lcd) (msk : List ℕ) (coden y x_pos disp_invert : ℕ)
    → coden + 16 ≤ length msk
    → (es : List Event) × (write_hz_half lcd msk coden y x_pos disp_invert ≡ some es)
unfolding write_hz_half
write_hz_half-total lcd msk coden y x_pos disp_invert h =
    let (dots, e) = write_dots-total msk coden 16 (λ b. b) disp_invert h in
    (
      doc_c ++ (set_page y ++ (lcd_cmd_set_column lcd.data_d7_d0 (u8 x_pos) ++ (doc_d ++ dots))),
      rw e refl,
    )

all_long : List (List ℕ) → Bool
all_long [] = true
all_long (m ∷ ms) = length m == 32 && all_long ms

row_long :
    (ms : List (List ℕ)) (i : ℕ)
    → all_long ms ≡ true
    → i < length ms
    → (m : List ℕ) × (get_elem? ms i ≡ some m) × (length m ≡ 32)
unfolding all_long
row_long [] i e h = absurd (omega arith)
row_long (m ∷ ms) zero e h = (m, refl, ground arith)
row_long (m ∷ ms) (suc i) e h = row_long ms i (ground arith) (omega arith)

gb_16-long : all_long gb_16 ≡ true
unfolding all_long
gb_16-long = refl

-- On the program's table the 130 Chinese characters are drawn, at every place.
pub lcdwritehz-total :
    (lcd : Lcd) (hznum y x disp_invert : ℕ)
    → hznum < 130
    → (es : List Event) × (lcdwritehz lcd gb_16 hznum y x disp_invert ≡ some es)
unfolding lcdwritehz
lcdwritehz-total lcd hznum y x disp_invert h =
    let size : length gb_16 ≡ 130 = refl in
    let (msk, e, long) = row_long gb_16 hznum gb_16-long (omega (arith, size)) in
    let (u, eu) = write_hz_half-total lcd msk 0 y (x * 16) disp_invert (omega (arith, long)) in
    let (l, el) =
      write_hz_half-total lcd msk 16 (y + 1) (x * 16) disp_invert (omega (arith, long)) in
    (u ++ l, rw (e, eu, el) refl)

write_chars-total :
    (lcd : Lcd) (codenum y x left : ℕ)
    → 32 ≤ codenum
    → codenum + left ≤ 134
    → (es : List Event) × (write_chars lcd ascii_dot codenum y x left ≡ some es)
unfolding write_chars
write_chars-total lcd codenum y x zero lo hi = ([], refl)
write_chars-total lcd codenum y x (suc left) lo hi =
    let (es, e) = lcdwritechar-total lcd codenum y x 0 0 0 0 0 lo (omega arith) in
    let (rest, e') =
      write_chars-total lcd (codenum + 1) y (x + 1) left (omega arith) (omega arith) in
    (es ++ rest, rw (e, e') refl)

write_hzs-total :
    (lcd : Lcd) (hznum y x left : ℕ)
    → hznum + left ≤ 130
    → (es : List Event) × (write_hzs lcd gb_16 hznum y x left ≡ some es)
unfolding write_hzs
write_hzs-total lcd hznum y x zero hi = ([], refl)
write_hzs-total lcd hznum y x (suc left) hi =
    let (es, e) = lcdwritehz-total lcd hznum y x 0 (omega arith) in
    let (rest, e') = write_hzs-total lcd (hznum + 1) y (x + 1) left (omega arith) in
    (es ++ rest, rw (e, e') refl)

-- `Lcd_test` runs to its end from every state: it reads no dot outside its tables.
pub lcd_test-total : (lcd : Lcd) → (after : Lcd × List Event) × (lcd_test lcd ≡ some after)
unfolding lcd_test
lcd_test-total lcd =
    let (letters, e₁) = write_chars-total lcd 65 0 0 16 (omega arith) (omega arith) in
    let (digits, e₂) = write_chars-total lcd 48 2 0 10 (omega arith) (omega arith) in
    let (hzs, e₃) = write_hzs-total lcd 0 4 0 8 (omega arith) in
    let picture = lcd_disp_buff_all_lcd lcd in
    (
      (
        picture.0,
        lcd_clear lcd
            ++ (picture.1
                ++ (lcd_clear lcd
                    ++ (letters
                        ++ (digits
                            ++ (hzs
                                ++ (write_digits8x8 lcd 6 0 10 ++ write_digits8x8 lcd 7 0 10)))))),
      ),
      rw (e₁, e₂, e₃) refl,
    )
