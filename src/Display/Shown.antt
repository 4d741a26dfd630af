-- ===== src/Display/Shown.antt =====
-- The cursor of the browser on the display (src/mod_browser.c and src/mod_lcdproc.c).
use audiobase.Common.{ℕ, zero, suc, ◌<◌, [], ◌++◌, List, true, some, ◌≡◌, pos, pos_part}
use audiobase.Text.{Text}
use audiobase.State.{Element, Browser}
use audiobase.Browser.{element_at}
use audiobase.Display.Globals.{Lcd, Command, send_all}
use audiobase.Display.Menu.{mod_lcdproc_refresh_browser}
use audiobase.Display.Rows.{Fits, row_commands}
use audiobase.Display.Lines.{line_row, cursor_row}

-- The commands for n lines from the line i on, if the display starts with the entry p.
abbrev pub lines_commands : ℕ → ℕ → ℕ → Lcd → List Command
lines_commands zero i p d = []
lines_commands (suc n) i p d =
    row_commands d i (line_row d.browser p i) ++ lines_commands n (suc i) p d

-- The display with another state of the browser, which is shown.
abbrev pub showing : Lcd → Browser → Lcd
showing d b = record d { browser = record b { active = true } }

-- The commands for all lines are sent, in their order, from the first entry that is shown on, and
-- one of these lines is the entry under the cursor, with the mark of the cursor.
abbrev pub ShowsCursor : Lcd → Browser → Type 0
ShowsCursor d b =
    (p : ℕ) × (e : Element) × (at : ℕ) × (b.display_pos ≡ pos p)
    × (element_at b.elements b.cursor_pos ≡ some e)
    × (at < pos_part d.hgt)
    × (line_row b p at ≡ cursor_row b at e)
    × (mod_lcdproc_refresh_browser (record d { browser = b })
        ≡ some (send_all (lines_commands (pos_part d.hgt) 0 p (showing d b)) (showing d b)))

pub Fits-showing :
    (d : Lcd) (b : Browser)
    → Fits d
    → b.elements ≡ d.browser.elements
    → b.head_line_fixed ≡ d.browser.head_line_fixed
    → Fits (showing d b)
Fits-showing d b fits elements headline = record {
  is_open = fits.is_open;
  some_columns = fits.some_columns;
  columns = fits.columns;
  names = rw elements fits.names;
  headline = rw headline fits.headline;
}
