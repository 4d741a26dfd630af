-- ===== src/Display/Menu.antt =====
-- The lines of the browser on the display: mod_lcdproc_refresh_browser and the first part of
-- mod_lcdproc_browser_remove of src/mod_lcdproc.c.
use audiobase.Common.{
  ℕ, zero, suc, ◌+◌, [], ◌∷◌, ◌++◌, true, not, ◌&&◌, ◌==◌, Option, none, some, ltb, if◌then◌else◌,
  length, take, get_elem?, ℤ, pos, negsuc, pos_part, ◌+ℤ◌, leb_ℤ, eqb_ℤ,
}
use audiobase.Text.{Text, codes, is_empty, show_nat}
use audiobase.State.{Browser}
use audiobase.Bus.{◌>>=◌}
use audiobase.Browser.{element_at}
use audiobase.Display.Globals.{Lcd, sub_uint}
use audiobase.Display.Widgets.{left, mod_lcdproc_setstring, mod_lcdproc_setscroller, pad_to}

-- `browser.cursorEleStatus` and `browser.viewEleStatus`, which `mod_browser_init` sets
abbrev pub cursor_marks : Text
cursor_marks = codes ">O+-X>>>>>>"

abbrev pub view_marks : Text
view_marks = codes " o*=x      "

abbrev pub mark_of : Text → ℕ → Text
mark_of marks status = elim (get_elem? marks status) [ none ↦ [] | some c ↦ c ∷ [] ]

-- `ctmp`, `ccursor` and the new value of `corr`
pub record Row : Type 0 where
  pub text : Text
  pub mark : Text
  pub corr : ℤ

abbrev pub row_index : Browser → ℕ → ℤ → ℤ
row_index b i corr = b.display_pos +ℤ pos i +ℤ corr

-- The line i, before it is filled up. `none` is an entry that is not allocated, or a name that does
-- not fit into `ctmp` with the blank before it.
unfoldable pub row : Browser → ℕ → ℤ → Option Row
row b i corr =
    let index = row_index b i corr in
    if leb_ℤ (pos (length b.elements)) index
    then some (record { text = codes " "; mark = []; corr = corr })
    else if i == 0 && not (is_empty b.head_line_fixed)
    then some (record { text = b.head_line_fixed; mark = []; corr = negsuc 0 })
    else elim (element_at b.elements index) [
      | none ↦ none
      | some e ↦
          if ltb (length e.name + 1) 128
          then some (record {
            text = 32 ∷ e.name;
            mark =
                if eqb_ℤ index b.cursor_pos
                then mark_of cursor_marks e.status
                else mark_of view_marks e.status;
            corr = corr;
          })
          else none
    ]

-- A line that is not under the cursor is cut at the width of the display, where the cursor stands.
abbrev pub cut_row : Lcd → ℕ → Row → Text → Text
cut_row d i r text =
    if d.static_unselected && not (eqb_ℤ (row_index d.browser i r.corr) d.browser.cursor_pos)
    then take (sub_uint d.wid 1) text
    else text

abbrev pub line_name : ℕ → Text
line_name n = codes "browserline" ++ show_nat n

abbrev pub mark_name : ℕ → Text
mark_name n = codes "browsercursor" ++ show_nat n

-- The two widgets of the line i.
unfoldable pub show_row : ℕ → Row → Lcd → Option Lcd
show_row i r d = pad_to 128 32 (sub_uint d.wid 1) r.text >>= λ text.
    mod_lcdproc_setstring (mark_name (i + 1)) (pos (i + 1)) r.mark left
      (mod_lcdproc_setscroller (line_name (i + 1)) (pos (i + 1)) (cut_row d i r text) d)

-- `while (i<mod_lcdproc_hgt)`, with the lines that are left.
unfoldable pub show_rows : ℕ → ℕ → ℤ → Lcd → Option Lcd
show_rows zero i corr d = some d
show_rows (suc n) i corr d =
    row d.browser i corr >>= λ r. show_row i r d >>= show_rows n (suc i) r.corr

unfoldable pub mod_lcdproc_refresh_browser : Lcd → Option Lcd
mod_lcdproc_refresh_browser d =
    show_rows (pos_part d.hgt) 0 (pos 0) (record d { browser = record d.browser { active = true } })

-- `for (i=1; i<=mod_lcdproc_hgt; i++)`: the lines are moved below the display.
unfoldable pub hide_rows : ℕ → ℕ → Lcd → Option Lcd
hide_rows zero i d = some d
hide_rows (suc n) i d =
    mod_lcdproc_setstring (mark_name i) (d.hgt +ℤ pos 2) (codes " ") left
      (mod_lcdproc_setscroller (line_name i) (d.hgt +ℤ pos 2) (codes " ") d)
    >>= hide_rows n (suc i)

unfoldable pub hide_browser : Lcd → Option Lcd
hide_browser d = hide_rows (pos_part d.hgt) 1 d
