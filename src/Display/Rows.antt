-- ===== src/Display/Rows.antt =====
-- What the commands for the lines of the browser are (`mod_lcdproc_refresh_browser` of
-- src/mod_lcdproc.c), if the names fit into the buffers.
use audiobase.Common.{
  ℕ, zero, suc, ◌+◌, ◌-◌, ◌^◌, ◌≤◌, ◌<◌, [], ◌∷◌, ◌++◌, append_assoc, append-nil, List, true, some,
  ltb, lt→ltb, if◌then◌else◌, ◌≡◌, ap, arith, length, length-append, replicate, All, ℤ, pos,
}
use audiobase.Text.{Text, codes, is_empty, to_int}
use audiobase.State.{Element}
use audiobase.Display.Globals.{
  Lcd, Command, set_string, set_scroller, sub_uint, send, send_all, int_wid,
}
use audiobase.Display.Widgets.{
  left, align_text, mod_lcdproc_setstring, mod_lcdproc_setscroller, append_times, pad_to,
}
use audiobase.Display.Menu.{Row, cut_row, line_name, mark_name, show_row}

pub append_times_lem :
    (size c n : ℕ) (text : Text)
    → length text + n < size
    → append_times size c n text ≡ some (text ++ replicate n c)
unfolding append_times
append_times_lem size c zero text h = rw append-nil
append_times_lem size c (suc n) text h = rw (
  lt→ltb (length text + 1) size (omega arith),
  append_times_lem size c n (text ++ c ∷ []) (omega (arith, length-append text (c ∷ []))),
  append_assoc text (c ∷ []) (replicate n c),
)

abbrev pub padded : ℕ → ℕ → Text → Text
padded c n text = text ++ replicate (n - length text) c

pub pad_to_lem :
    (size c n : ℕ) (text : Text)
    → n < size
    → length text < size
    → pad_to size c n text ≡ some (padded c n text)
unfolding pad_to
pad_to_lem size c n text h k = append_times_lem size c (n - length text) text (omega arith)

-- The command for a scroller, by the three cases.
abbrev pub scroller : Lcd → Text → ℤ → Text → Command
scroller d name y text =
    if is_empty text
    then set_scroller name (pos 1) (pos 1) (pos 1) (codes " ")
    else if ltb d.wid (length text)
    then set_scroller name y (int_wid d) y (text ++ codes " *** ")
    else set_scroller name y (int_wid d) y (text ++ codes " ")

pub setscroller_lem :
    (name : Text) (y : ℤ) (text : Text) (d : Lcd)
    → d.connected ≡ true
    → mod_lcdproc_setscroller name y text d ≡ send (scroller d name y text) d
unfolding mod_lcdproc_setscroller
setscroller_lem name y text d h = ground arith

-- The command for a string that is aligned left.
abbrev pub string : Text → ℤ → Text → Command
string name y text =
    if is_empty text
    then set_string name (pos 0) (pos 0) (codes " ")
    else set_string name (pos 1) y text

pub align_left :
    (wid : ℕ) (text : Text)
    → wid ≤ 128
    → length text < 128
    → align_text (pos wid) left text ≡ some text
unfolding align_text
align_left wid text h k = ground arith

pub to_int_small : (n : ℕ) → n < 2 ^ 31 → to_int (pos n) ≡ pos n
unfolding to_int
to_int_small n h = ground arith

pub setstring_left :
    (name : Text) (y : ℤ) (text : Text) (d : Lcd)
    → d.connected ≡ true
    → d.wid ≤ 128
    → length text < 128
    → mod_lcdproc_setstring name y text left d ≡ some (send (string name y text) d)
unfolding mod_lcdproc_setstring
setstring_left name y text d h w k = ground (arith, to_int_small d.wid, align_left d.wid text)

-- What is assumed of the display and the browser: the width of the display, and that the buffers
-- are long enough for the names. The arrays of the headline and of a name have 128 bytes.
pub record Fits (d : Lcd) : Type 0 where
  pub is_open : d.connected ≡ true
  pub some_columns : 0 < d.wid
  pub columns : d.wid ≤ 128
  pub names : All (λ (e : Element). length e.name + 1 < 128) d.browser.elements
  pub headline : length d.browser.head_line_fixed < 128

abbrev pub row_text : Lcd → Row → Text
row_text d r = padded 32 (sub_uint d.wid 1) r.text

-- The two commands for the line i.
abbrev pub row_commands : Lcd → ℕ → Row → List Command
row_commands d i r =
    scroller d (line_name (i + 1)) (pos (i + 1)) (cut_row d i r (row_text d r))
    ∷ string (mark_name (i + 1)) (pos (i + 1)) r.mark
    ∷ []

send-send : (d : Lcd) (a b : Command) → send b (send a d) ≡ send_all (a ∷ b ∷ []) d
send-send d a b = ap (λ l. record d { sent = l }) (append_assoc d.sent (a ∷ []) (b ∷ []))

pub send_all_append :
    (d : Lcd) (cs ds : List Command) → send_all ds (send_all cs d) ≡ send_all (cs ++ ds) d
send_all_append d cs ds = ap (λ l. record d { sent = l }) (append_assoc d.sent cs ds)

pub show_row_lem :
    (i : ℕ) (r : Row) (d : Lcd)
    → Fits d
    → length r.text < 128
    → length r.mark < 128
    → show_row i r d ≡ some (send_all (row_commands d i r) d)
unfolding show_row
show_row_lem i r d fits text mark =
    let first = scroller d (line_name (i + 1)) (pos (i + 1)) (cut_row d i r (row_text d r)) in
    rw (
      pad_to_lem 128 32 (sub_uint d.wid 1) r.text (omega (arith, fits.columns, fits.some_columns))
          text,
      setscroller_lem (line_name (i + 1)) (pos (i + 1)) (cut_row d i r (row_text d r)) d
          fits.is_open,
      setstring_left (mark_name (i + 1)) (pos (i + 1)) r.mark (send first d) fits.is_open
          fits.columns mark,
      send-send d first (string (mark_name (i + 1)) (pos (i + 1)) r.mark),
    )
