-- ===== src/Lcddrv/Start.antt =====
-- src/lcddrv.c: the start of the controller, the first picture, and the test of the dots.
use concentrator.Common.{
  ℕ, zero, suc, ◌+◌, ◌*◌, ◌≤◌, ◌<◌, ◌≡◌, ◌≢◌, refl, ap, inl, inr, Bool, true, false, List, [], ◌∷◌,
  ◌++◌, ◌==◌, ltb, ◌&&◌, if◌then◌else◌, arith, All, replicate, Bool-cases, length,
}
use concentrator.Lcddrv.{
  Lcd, Event, start_cmd, start_data, set_page, column_offset, lcd_cmd_set_column, wdata_all,
  lcd_disp_buff_all_lcd, mask_pages, lcd_disp_test_msk, wcom_all, init_commands, configure_pins,
  reset_panel, lcd_init,
}
use concentrator.Lcddrv.Title.{title}
use concentrator.Lcddrv.Receiver.{
  received, react, Sends, Sends-nil, Sends-append, Sends-mode, Sends-start,
}
use concentrator.Lcddrv.Serial.{wdata-Sends, wcom-Sends}
use concentrator.Lcddrv.Screen.{
  IsByte, tagged, address, screen, wdata_all-Sends, wcom_all-Sends, column-Sends, page-Sends,
  replicate-All, columns_of, show_pages-Sends,
}

all_bytes : List ℕ → Bool
all_bytes [] = true
all_bytes (d ∷ ds) = ltb d 256 && all_bytes ds

all_bytes-All : (ds : List ℕ) → all_bytes ds ≡ true → All IsByte ds
unfolding all_bytes
all_bytes-All [] e = tt
all_bytes-All (d ∷ ds) e = ground (arith, all_bytes-All ds)

title-All : All IsByte title
unfolding all_bytes
title-All = all_bytes-All title refl

-- With no other writer `LCD_DISP_Buff_All_LCD` sets the start line to 0, sends the title picture to the
-- eight pages, and leaves its state as it was; with another writer it does nothing.
pub lcd_disp_buff_all_lcd-Sends :
    (lcd : Lcd) (c : Bool)
    → Sends c
        (lcd_disp_buff_all_lcd lcd).1
        (if lcd.updating == 0
          then (false, 64) ∷ screen (column_offset lcd.data_d7_d0) 0 8 (columns_of title)
          else [])
        (if lcd.updating == 0 then true else c)
      × ((lcd_disp_buff_all_lcd lcd).0 ≡ lcd)
unfolding lcd_disp_buff_all_lcd
lcd_disp_buff_all_lcd-Sends lcd c = elim (Bool-cases (lcd.updating == 0)) [
  | inl free ↦
      let zero_flag : lcd.updating ≡ 0 = ground arith in
      rw zero_flag (
        Sends-append (Sends-mode c false) (
            Sends-append (wdata-Sends 64 0 false (omega arith))
              (show_pages-Sends lcd.data_d7_d0 0 7 title false (omega arith) title-All)),
        refl,
      )
  | inr busy ↦ rw busy (Sends-nil c, refl)
]

masked :
    (direction d page : ℕ) (c : Bool) {rest : List Event} {bytes : List (Bool × ℕ)}
    → page < 8
    → IsByte d
    → Sends true rest bytes true
    → Sends c
        (start_cmd
          ++ (set_page page
              ++ (lcd_cmd_set_column direction 0
                  ++ (start_data ++ (wdata_all (replicate 128 d) ++ rest)))))
        ((address (column_offset direction) page ++ tagged true (replicate 128 d)) ++ bytes)
        true
masked direction d page c lt b tail = Sends-append (Sends-start c false (30 * 1000)) (
    Sends-append (page-Sends page false lt) (
      Sends-append (column-Sends direction false) (
        Sends-append (Sends-start false true (30 * 1000))
          (Sends-append (wdata_all-Sends (replicate 128 d) true (replicate-All 128 d b)) tail))))

mask_pages-Sends :
    (direction d page left : ℕ) (c : Bool)
    → page + suc left ≤ 8
    → IsByte d
    → Sends c
        (mask_pages direction d page (suc left))
        (screen (column_offset direction) page (suc left) (λ _. replicate 128 d))
        true
unfolding mask_pages
mask_pages-Sends direction d page zero c h b =
    masked direction d page c (omega arith) b (Sends-nil true)
mask_pages-Sends direction d page (suc left) c h b =
    masked direction d page c (omega arith) b
      (mask_pages-Sends direction d (page + 1) left true (omega arith) b)

-- `LCD_DISP_TEST_MSK` sets the start line to 0 and fills the eight pages with the byte.
pub lcd_disp_test_msk-Sends :
    (lcd : Lcd) (d : ℕ) (c : Bool)
    → d < 256
    → Sends c
        (lcd_disp_test_msk lcd d)
        ((false, 64) ∷ screen (column_offset lcd.data_d7_d0) 0 8 (λ _. replicate 128 d))
        true
unfolding lcd_disp_test_msk
lcd_disp_test_msk-Sends lcd d c b = Sends-append (Sends-start c false (30 * 1000)) (
    Sends-append (wdata-Sends 64 0 false (omega arith))
      (mask_pages-Sends lcd.data_d7_d0 d 0 7 false (omega arith) b))

configure_pins-Sends : (c : Bool) → Sends c configure_pins [] c
unfolding received react
configure_pins-Sends c = record { runs = λ r e. (r, e, λ rest. refl) }

reset_panel-Sends : (c : Bool) → Sends c reset_panel [] c
unfolding received react
reset_panel-Sends c = record { runs = λ r e. (r, e, λ rest. refl) }

init_commands-All : (direction : ℕ) → All IsByte (init_commands direction)
unfolding init_commands all_bytes
init_commands-All direction = elim (Bool-cases (direction == 0)) [
  | inl e ↦ rw e (all_bytes-All (init_commands 0) refl)
  | inr e ↦ rw e (all_bytes-All (init_commands 1) refl)
]

-- The first command may find the receiver in either mode.
from_any_mode :
    (ds : List ℕ) (c : Bool)
    → ds ≢ []
    → All IsByte ds
    → Sends c (wcom_all ds) (tagged false ds) true
unfolding wcom_all
from_any_mode [] c some_ds h = absurd (some_ds refl)
from_any_mode (d ∷ ds) c some_ds h = Sends-append (wcom-Sends d c h.0) (wcom_all-Sends ds h.1)

first_command :
    (direction : ℕ) (c : Bool)
    → Sends c (wcom_all (init_commands direction)) (tagged false (init_commands direction)) true
unfolding init_commands
first_command direction c =
    from_any_mode (init_commands direction) c (λ e. absurd (omega (arith, ap length e)))
      (init_commands-All direction)

-- With no other writer `LcdInit` sends its commands in order, after a reset of the panel or without,
-- and leaves its state as it was; with another writer it sends nothing.
pub lcd_init-Sends :
    (lcd : Lcd) (flag : ℕ) (c : Bool)
    → Sends c
        (lcd_init lcd flag).1
        (if lcd.updating == 0 then tagged false (init_commands lcd.data_d7_d0) else [])
        (if lcd.updating == 0 then true else c)
      × ((lcd_init lcd flag).0 ≡ lcd)
unfolding lcd_init
lcd_init-Sends lcd flag c = elim (Bool-cases (lcd.updating == 0)) [
  | inl free ↦
      let zero_flag : lcd.updating ≡ 0 = ground arith in
      rw zero_flag (
        Sends-append (configure_pins-Sends c) (
            Sends-append (with_reset (flag == 1)) (
              Sends-append (Sends-start c false (30 * 1000)) (first_command lcd.data_d7_d0 false))),
        refl,
      )
  | inr busy ↦ rw busy (configure_pins-Sends c, refl)
]
  where
    with_reset : (b : Bool) → Sends c (if b then reset_panel else []) [] c
    with_reset true = reset_panel-Sends c
    with_reset false = Sends-nil c
