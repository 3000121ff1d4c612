-- ===== src/Panel/Screen.antt =====
-- The display's controller as a HD44780 with the second instruction table of an AiP31068L: what its
-- commands and data do to its cells.
use cse.Base.{
  ℕ, zero, suc, ◌+◌, ◌-◌, ◌*◌, ◌/◌, ◌%◌, Bool, true, false, List, [], ◌∷◌, if◌then◌else◌, leb, ◌==◌,
  ◌&&◌,
}

-- The address counter, the cells of the two lines (the second starts at 0x40), whether the display
-- is on, whether the instructions of the second table are chosen, whether the counter goes up, and
-- whether data goes to the cells and not to the character generator. Shifts are left out.
pub record Screen : Type 0 where
  pub cursor : ℕ
  pub cells : ℕ → ℕ
  pub shown : Bool
  pub extended : Bool
  pub forward : Bool
  pub in_cells : Bool

abbrev pub blank : ℕ
blank = 0x20

-- The address counter goes from the end of a line to the start of the other.
abbrev next_address : Bool → ℕ → ℕ
next_address true addr = if addr == 0x27 then 0x40 else if addr == 0x67 then 0 else addr + 1
next_address false addr = if addr == 0x40 then 0x27 else if addr == 0 then 0x67 else addr - 1

abbrev pub at_address : ℕ → Screen → Screen
at_address addr screen = record {
  cursor = addr;
  cells = screen.cells;
  shown = screen.shown;
  extended = screen.extended;
  forward = screen.forward;
  in_cells = true;
}

abbrev generator : Screen → Screen
generator screen = record {
  cursor = screen.cursor;
  cells = screen.cells;
  shown = screen.shown;
  extended = screen.extended;
  forward = screen.forward;
  in_cells = screen.extended && screen.in_cells;
}

abbrev function_set : Bool → Screen → Screen
function_set second screen = record {
  cursor = screen.cursor;
  cells = screen.cells;
  shown = screen.shown;
  extended = second;
  forward = screen.forward;
  in_cells = screen.in_cells;
}

abbrev on_or_off : Bool → Screen → Screen
on_or_off on screen = record {
  cursor = screen.cursor;
  cells = screen.cells;
  shown = on;
  extended = screen.extended;
  forward = screen.forward;
  in_cells = screen.in_cells;
}

abbrev entry_mode : Bool → Screen → Screen
entry_mode up screen = record {
  cursor = screen.cursor;
  cells = screen.cells;
  shown = screen.shown;
  extended = screen.extended;
  forward = up;
  in_cells = screen.in_cells;
}

abbrev cleared : Screen → Screen
cleared screen = record {
  cursor = 0;
  cells = λ addr. blank;
  shown = screen.shown;
  extended = screen.extended;
  forward = true;
  in_cells = true;
}

unfoldable pub command : ℕ → Screen → Screen
command cmd screen =
    if leb 0x80 cmd
    then at_address (cmd - 0x80) screen
    else if leb 0x40 cmd
    then generator screen
    else if leb 0x20 cmd
    then function_set (cmd % 2 == 1) screen
    else if leb 0x10 cmd
    then screen
    else if leb 0x08 cmd
    then on_or_off (cmd / 4 % 2 == 1) screen
    else if leb 0x04 cmd
    then entry_mode (cmd / 2 % 2 == 1) screen
    else if cmd == 0x01
    then cleared screen
    else at_address 0 screen

unfoldable pub write_cell : Screen → ℕ → Screen
write_cell screen byte = record {
  cursor = next_address (screen.forward) (screen.cursor);
  cells = λ addr. if screen.in_cells && (addr == screen.cursor) then byte else screen.cells addr;
  shown = screen.shown;
  extended = screen.extended;
  forward = screen.forward;
  in_cells = screen.in_cells;
}

unfoldable pub write_cells : List ℕ → Screen → Screen
write_cells [] screen = screen
write_cells (byte ∷ bytes) screen = write_cells bytes (write_cell screen byte)

-- The 16 visible cells of a line.
unfoldable pub cells_from : ℕ → ℕ → Screen → List ℕ
cells_from zero addr screen = []
cells_from (suc left) addr screen = screen.cells addr ∷ cells_from left (addr + 1) screen

unfoldable pub line : ℕ → Screen → List ℕ
line row = cells_from 16 (row * 0x40)
