-- ===== src/Lcddrv.antt =====
-- src/lcddrv.c: the driver of the display. The pins are written one level after the other, and an
-- operation is the list of what it does to them; waiting is in the list too. The value that `wdata`
-- and `wcom` return, the shifted byte, is used by no caller and left out.
pub mod Title
pub mod Font
pub mod Hanzi
pub mod Draw
pub mod Tables
pub mod Receiver
pub mod Serial
pub mod Screen
pub mod Start
mod Tests
use concentrator.Common.{
  ℕ, zero, suc, ◌+◌, ◌-◌, ◌*◌, ◌/◌, ◌%◌, Bool, true, false, not, List, [], ◌∷◌, ◌++◌, ◌==◌, ltb,
  if◌then◌else◌, replicate, take, drop, u8,
}
use concentrator.Lcddrv.Title.{title}

-- The pins, by what they are for: PB31, PB30, PB25, PB29, PB28 and PB26.
pub data Pin : Type 0 where
  cs : Pin
  reset : Pin
  led : Pin
  doc : Pin
  mc : Pin
  out : Pin

-- `PIOOutValue`, `SetPIOCfg` with the attributes of an output, and `usleep`.
pub data Event : Type 0 where
  pio_out_value : Pin → Bool → Event
  set_pio_cfg : Pin → Event
  usleep : ℕ → Event

-- The globals: `Lcd_Flag_UpData`, `DATA_D7_D0`, `LCD_user_part_flag` and `LCD_Disp_DOT_Buff`.
pub record Lcd : Type 0 where
  pub updating : ℕ
  pub data_d7_d0 : ℕ
  pub user_part_flag : ℕ
  pub dot_buff : List ℕ

abbrev pub doc_c : List Event
doc_c = pio_out_value doc false ∷ []

abbrev pub doc_d : List Event
doc_d = pio_out_value doc true ∷ []

abbrev pub start_cmd : List Event
start_cmd = usleep (30 * 1000) ∷ doc_c

abbrev pub start_data : List Event
start_data = usleep (30 * 1000) ∷ doc_d

-- One turn of the loops of `wdata` and `wcom`; `d & 0x80` is the top bit of a byte.
abbrev pub clock_bit : ℕ → (invert : Bool) → List Event
clock_bit d invert =
    pio_out_value mc false
    ∷ pio_out_value out (if invert then not (d / 128 % 2 == 1) else (d / 128 % 2 == 1))
    ∷ pio_out_value mc true
    ∷ []

unfoldable pub shift_out : ℕ → ℕ → (invert : Bool) → List Event
shift_out zero d invert = []
shift_out (suc n) d invert = clock_bit d invert ++ shift_out n (u8 (2 * d)) invert

unfoldable pub wdata : ℕ → (disp_invert : ℕ) → List Event
wdata d disp_invert =
    pio_out_value cs false ∷ (shift_out 8 d (not (disp_invert == 0)) ++ pio_out_value cs true ∷ [])

unfoldable pub wcom : ℕ → List Event
wcom d =
    start_cmd
    ++ pio_out_value cs false ∷ (shift_out 8 d false ++ pio_out_value cs true ∷ start_data)

-- `LCD_CMD_SET_START_LINE` and `LCD_CMD_SET_PAGE`.
abbrev pub set_start_line : ℕ → List Event
set_start_line s_line = wdata (s_line % 64 + 64) 0

abbrev pub set_page : ℕ → List Event
set_page page_add = wdata (page_add % 16 + 176) 0

-- The panel can be mounted either way round, which moves its columns by four.
abbrev pub column_offset : (data_d7_d0 : ℕ) → ℕ
column_offset data_d7_d0 = if data_d7_d0 == 0 then 0 else 4

unfoldable pub lcd_cmd_set_column : (data_d7_d0 : ℕ) → ℕ → List Event
lcd_cmd_set_column data_d7_d0 colu_add =
    wdata ((colu_add + column_offset data_d7_d0) / 16 % 16 + 16) 0
    ++ wdata ((colu_add + column_offset data_d7_d0) % 16) 0

-- Bytes written one after the other.
unfoldable pub wdata_all : List ℕ → List Event
wdata_all [] = []
wdata_all (d ∷ ds) = wdata d 0 ++ wdata_all ds

-- One turn of the loops over the pages: the address of the page's first column, and its bytes.
unfoldable pub write_page : (data_d7_d0 : ℕ) → ℕ → List ℕ → List Event
write_page data_d7_d0 page bytes =
    doc_c ++ (set_page page ++ (lcd_cmd_set_column data_d7_d0 0 ++ (doc_d ++ wdata_all bytes)))

-- The loop of `LCDClear` over the pages that are left.
unfoldable pub clear_pages : (data_d7_d0 : ℕ) → (page left : ℕ) → List Event
clear_pages data_d7_d0 page zero = []
clear_pages data_d7_d0 page (suc left) =
    write_page data_d7_d0 page (replicate 128 0) ++ clear_pages data_d7_d0 (page + 1) left

unfoldable pub lcd_clear : Lcd → List Event
lcd_clear lcd = clear_pages lcd.data_d7_d0 0 8

-- The same loop of `LCD_DISP_Buff_All_LCD`, which goes on through the picture by `j`.
unfoldable pub show_pages : (data_d7_d0 : ℕ) → (page left : ℕ) → List ℕ → List Event
show_pages data_d7_d0 page zero picture = []
show_pages data_d7_d0 page (suc left) picture =
    write_page data_d7_d0 page (take 128 picture)
    ++ show_pages data_d7_d0 (page + 1) left (drop 128 picture)

-- The flag against a second writer is set and cleared within the call.
unfoldable pub lcd_disp_buff_all_lcd : Lcd → Lcd × List Event
lcd_disp_buff_all_lcd lcd = if not (lcd.updating == 0) then (lcd, []) else (
  record lcd { updating = 0 },
  doc_c ++ (set_start_line 0 ++ show_pages lcd.data_d7_d0 0 8 title),
)

-- The loop of `LCD_DISP_TEST_MSK`.
unfoldable pub mask_pages : (data_d7_d0 disp_data : ℕ) → (page left : ℕ) → List Event
mask_pages data_d7_d0 disp_data page zero = []
mask_pages data_d7_d0 disp_data page (suc left) =
    start_cmd
    ++ (set_page page
        ++ (lcd_cmd_set_column data_d7_d0 0
            ++ (start_data
                ++ (wdata_all (replicate 128 disp_data)
                    ++ mask_pages data_d7_d0 disp_data (page + 1) left))))

unfoldable pub lcd_disp_test_msk : Lcd → ℕ → List Event
lcd_disp_test_msk lcd disp_data =
    start_cmd ++ (set_start_line 0 ++ mask_pages lcd.data_d7_d0 disp_data 0 8)

unfoldable pub wcom_all : List ℕ → List Event
wcom_all [] = []
wcom_all (d ∷ ds) = wcom d ++ wcom_all ds

-- The commands that start the controller, in order.
unfoldable pub init_commands : (data_d7_d0 : ℕ) → List ℕ
init_commands data_d7_d0 =
    174 ∷ 226 ∷ 162 ∷ (if data_d7_d0 == 0 then 160 ∷ 200 ∷ [] else 161 ∷ 200 ∷ [])
    ++ (168 ∷ 63 ∷ 129 ∷ 48 ∷ 47 ∷ 169 ∷ 98 ∷ 170 ∷ 64 ∷ 36 ∷ 166 ∷ 175 ∷ [])

abbrev pub configure_pins : List Event
configure_pins =
    set_pio_cfg led
    ∷ set_pio_cfg out
    ∷ set_pio_cfg mc
    ∷ set_pio_cfg doc
    ∷ set_pio_cfg reset
    ∷ set_pio_cfg cs
    ∷ []

abbrev pub reset_panel : List Event
reset_panel =
    pio_out_value reset false
    ∷ usleep (24 * 1000)
    ∷ pio_out_value reset true
    ∷ pio_out_value led true
    ∷ []

unfoldable pub lcd_init : Lcd → (flag : ℕ) → Lcd × List Event
lcd_init lcd flag = if not (lcd.updating == 0) then (lcd, configure_pins) else (
  record lcd { updating = 0 },
  configure_pins
      ++ ((if flag == 1 then reset_panel else [])
          ++ (start_cmd ++ wcom_all (init_commands lcd.data_d7_d0))),
)

unfoldable pub lcd_clear_buff : Lcd → Lcd
lcd_clear_buff lcd = record lcd { dot_buff = replicate (8 * 128) 0 }

unfoldable pub lcd_gpin : Lcd → Lcd
lcd_gpin lcd = record (lcd_clear_buff (record lcd { data_d7_d0 = 1; user_part_flag = 0 })) {
  updating = 0;
}

unfoldable pub lcd_chang_direction : Lcd → Lcd × List Event
lcd_chang_direction lcd =
    lcd_init (record lcd { data_d7_d0 = if lcd.data_d7_d0 == 0 then 1 else 0 }) 1

unfoldable pub lcd_test_buf : Lcd → Lcd
lcd_test_buf lcd = record lcd { dot_buff = take (8 * 128) title }

abbrev pub lcd_led_on : List Event
lcd_led_on = pio_out_value led true ∷ []

abbrev pub lcd_led_off : List Event
lcd_led_off = pio_out_value led false ∷ []
