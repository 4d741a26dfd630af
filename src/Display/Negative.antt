-- ===== src/Display/Negative.antt =====
-- A list that is shorter than the display (src/mod_browser.c and src/mod_lcdproc.c).
use audiobase.Common.{
  ℕ, suc, ◌+◌, ◌-◌, ◌<◌, [], Bool-cases, inl, inr, true, false, not, ◌&&◌, none, some, ◌≡◌, refl,
  ap, ◌∙◌, arith, length, ℤ, pos, negsuc, pos_part, ◌<ℤ◌, int_laws, ◌==◌,
}
use audiobase.Text.{Text, is_empty}
use audiobase.State.{Browser}
use audiobase.Browser.{mod_browser_cursor, middle_line, first_shown, new_position}
use audiobase.Browser.Visible.{headline_rows, first_shown_negative}
use audiobase.Display.Globals.{Lcd}
use audiobase.Display.Menu.{Row, row, row_index, show_rows, mod_lcdproc_refresh_browser}
use audiobase.Display.Rows.{Fits, show_row_lem}
use audiobase.Display.Shown.{showing, Fits-showing}

-- An index before the first entry.
row_before :
    (b : Browser) (i k : ℕ) (corr : ℤ)
    → row_index b i corr ≡ negsuc k
    → (i == 0 && not (is_empty b.head_line_fixed)) ≡ false
    → row b i corr ≡ none
unfolding row
row_before b i k corr index line = rw (index, line, row) (ground arith)

row_before-headline :
    (b : Browser) (k : ℕ)
    → row_index b 0 (pos 0) ≡ negsuc k
    → is_empty b.head_line_fixed ≡ false
    → row b 0 (pos 0) ≡ some (record { text = b.head_line_fixed; mark = []; corr = negsuc 0 })
unfolding row
row_before-headline b k index headline = rw (index, row) (ground arith)

-- With a headline the fault comes at the second line.
show_rows-negative :
    (n k : ℕ) (d : Lcd)
    → Fits d
    → d.browser.display_pos ≡ negsuc k
    → show_rows (suc (suc n)) 0 (pos 0) d ≡ none
unfolding show_rows
show_rows-negative n k d fits start =
    let index : row_index d.browser 0 (pos 0) ≡ negsuc k = rw start (omega int_laws) in
    let next : row_index d.browser 1 (negsuc 0) ≡ negsuc k = rw start (omega int_laws) in
    elim (Bool-cases (is_empty d.browser.head_line_fixed)) [
      | inl bare ↦ rw (row_before d.browser 0 k (pos 0) index (rw bare refl))
      | inr headline ↦
          let r : Row = record { text = d.browser.head_line_fixed; mark = []; corr = negsuc 0 } in
          rw (
            row_before-headline d.browser k index headline,
            show_row_lem 0 r d fits fits.headline (omega arith),
            row_before d.browser 1 k (negsuc 0) next refl,
          )
    ]

-- A first entry with a negative index.
refresh_browser-negative :
    (k n : ℕ) (d : Lcd) (b : Browser)
    → Fits (showing d b)
    → d.hgt ≡ pos (suc (suc n))
    → b.display_pos ≡ negsuc k
    → mod_lcdproc_refresh_browser (record d { browser = b }) ≡ none
unfolding mod_lcdproc_refresh_browser
refresh_browser-negative k n d b fits height start =
    rw (ap pos_part height) (show_rows-negative n k (showing d b) fits start)

negative : (z : ℤ) → z <ℤ pos 0 → (k : ℕ) × (z ≡ negsuc k)
negative (pos n) h = absurd (omega arith)
negative (negsuc k) h = (k, refl)

-- If the list and the headline leave lines of the display free, and the command `browser cursor`
-- takes the cursor down to an entry past the middle line, the command succeeds, and the display of
-- the browser after it reads an entry before the first one.
pub refresh_browser-short_list :
    (hgt n : ℕ) (p : Text) (d : Lcd)
    → Fits d
    → d.hgt ≡ pos hgt
    → new_position p d.browser ≡ some (pos n)
    → n < length d.browser.elements
    → length d.browser.elements + headline_rows (not (is_empty d.browser.head_line_fixed)) < hgt
    → middle_line hgt < n + 1
    → d.browser.cursor_pos <ℤ pos n
    → (b : Browser) × (mod_browser_cursor hgt p d.browser ≡ some b)
      × (mod_lcdproc_refresh_browser (record d { browser = b }) ≡ none)
refresh_browser-short_list hgt n p d fits height goes below short past down =
    let headline = not (is_empty d.browser.head_line_fixed) in
    let start = first_shown hgt (length d.browser.elements) headline d.browser.cursor_pos (pos n) in
    let b = record d.browser { active = true; cursor_pos = pos n; display_pos = start } in
    let (k, e) = negative start (
      first_shown_negative hgt (length d.browser.elements) n headline d.browser.cursor_pos short
        below past down) in
    let two : hgt ≡ suc (suc (hgt - 2)) = omega arith in
    (
      b,
      unfold mod_browser_cursor in rw (goes, mod_browser_cursor),
      refresh_browser-negative k (hgt - 2) d b (Fits-showing d b fits refl refl)
          (height ∙ ap pos two) e,
    )
