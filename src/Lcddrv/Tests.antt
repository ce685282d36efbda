-- ===== src/Lcddrv/Tests.antt =====
-- Runs of src/lcddrv.c.
use concentrator.Common.{◌≡◌, refl, true, false, [], ◌∷◌, replicate, arith}
use concentrator.Lcddrv.{
  Lcd, shift_out, wdata, lcd_disp_buff_all_lcd, lcd_init, lcd_gpin, lcd_chang_direction,
  lcd_clear_buff,
}
use concentrator.Lcddrv.Title.{title}
use concentrator.Lcddrv.Receiver.{Receiver, rise, react, received, Sends}
use concentrator.Lcddrv.Serial.{wdata-Sends}
use concentrator.Lcddrv.Screen.{screen, columns_of}
use concentrator.Lcddrv.Start.{lcd_disp_buff_all_lcd-Sends}

abbrev panel : Lcd
panel = record { updating = 0; data_d7_d0 = 1; user_part_flag = 0; dot_buff = replicate 1024 0 }

abbrev idle : Receiver
idle = record { selected = false; is_data = true; level = false; clock = true; bits = 0; count = 0 }

wdata-Sends_example : Sends true (wdata 165 1) ((true, 90) ∷ []) true
wdata-Sends_example = wdata-Sends 165 1 true (omega arith)

-- The same byte, from the levels on the pins.
wdata-received : received idle (wdata 165 1) ≡ (true, 90) ∷ []
unfolding received react rise wdata shift_out
wdata-received = refl

lcd_disp_buff_all_lcd-Sends_example :
    Sends true (lcd_disp_buff_all_lcd panel).1 ((false, 64) ∷ screen 4 0 8 (columns_of title)) true
    × ((lcd_disp_buff_all_lcd panel).0 ≡ panel)
lcd_disp_buff_all_lcd-Sends_example = lcd_disp_buff_all_lcd-Sends panel true

-- After `LcdGpin` the panel stands the first way round with an empty buffer, and a change of direction
-- turns it.
lcd_gpin-state : lcd_gpin (record panel { updating = 1; data_d7_d0 = 0; dot_buff = [] }) ≡ panel
unfolding lcd_gpin lcd_clear_buff
lcd_gpin-state = refl

lcd_chang_direction-state : (lcd_chang_direction panel).0 ≡ record panel { data_d7_d0 = 0 }
unfolding lcd_chang_direction lcd_init
lcd_chang_direction-state = refl
