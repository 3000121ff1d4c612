-- ===== src/Panel/Hello.antt =====
-- app_main of lab3_2/main/main.cpp up to its loop, which only waits.
use cse.Base.{codes}
use cse.Panel.I2c.{Driver, Io, pure, ◌>>=◌}
use cse.Panel.Lcd.{Lcd, new_lcd, lcd_addr, init, set_rgb, set_cursor, printstr}

module _ (d : Driver) where
  unfoldable pub hello : Io d.State Lcd
  hello = do
    let m_addr = lcd_addr 0x3E
    (ok, begun) ← init d m_addr new_lcd
    (coloured, lcd) ← set_rgb d begun 0 128 255
    first ← set_cursor d m_addr lcd 0 0
    greeted ← printstr d m_addr lcd (codes "Hello CSE121!")
    second ← set_cursor d m_addr lcd 0 1
    named ← printstr d m_addr lcd (codes "Abdelshahid")
    pure lcd
